-- ===== src/Lib.antt =====
-- app-modbus-go: a gateway that serves the values which MQTT devices report as the registers and
-- coils of a Modbus TCP slave.
--
-- The data center sends the devices and their resources: the mapping manager
-- (internal/pkg/mappingmanager/mappingmanager.go) enters which resource stands at which Modbus
-- address. Sensor data of a device go through it into the cache
-- (internal/pkg/mappingmanager/cache.go), under the address of each resource. A Modbus request
-- comes to a handler (internal/pkg/modbusserver/server.go), which has the register reader
-- (internal/pkg/modbusserver/reader.go) ask the manager for each address and convert what it finds
-- to bytes (internal/pkg/modbusserver/converter.go). What was read goes back to the manager and
-- from there to the forward log (internal/pkg/forwardlog/manager.go). The messages come and go
-- through the MQTT client (internal/pkg/mqtt/client.go), which takes each text to a waiting request
-- or to a handler. The service (internal/pkg/service/service.go) makes the parts, registers the
-- handlers, answers the commands of the data center, and starts and stops it all.
--
-- Files, by the code that they are about:
--   Value, ValueType, Bytes, Converter: modbusserver/converter.go. ToRegisters is `to_registers`,
--     FromBytes `from_bytes`, GetRegisterCount `get_register_count`; a dynamic value is a `Value`.
--     Bytes/Order has byte orders read back, Converter/Length the sizes of conversions,
--     Converter/RoundTrip the way there and back, Converter/Limits what does not convert.
--   Buffer, Reader: modbusserver/reader.go. readRegisters is `read_registers`, readBits
--     `read_bits`; Buffer has the writes into byte slices, with a panic past the end. Reader/Layout
--     says what a register response holds, as a relation with no buffer in it; Reader/Registers and
--     Reader/Coils relate the loops to it and to the bits of the addresses.
--   Server: modbusserver/server.go, one `handle_…` for each handler, `dispatch` for their
--     registration. Server/Reads, Server/CoilWrites and Server/Writes have their theorems;
--     Server/Sensor follows a value from the sensor data to the answer of a register read.
--     Server/Lifecycle is Start and Stop, Server/Lifecycle/Listening what listens after any calls of
--     them.
--   Cache: mappingmanager/cache.go, one function for each method. Cache/Expiry, Cache/Keys and
--     Cache/Refinement have its theorems.
--   Resource: the devices and resources of mqtt/message.go.
--   Mapping: mappingmanager/mappingmanager.go. UpdateMappings is `update_mappings`, UpdateCache
--     `update_cache`, LogDataForward `log_data_forward`. Mapping/Claims is about the first,
--     Mapping/Sensor about the second, Mapping/Skipped about both where two devices name one
--     address. Two tests of mappingmanager_test.go, TestUpdateMappingsDuplicateAddress and
--     TestGetMappingByAddress, expect an index entry for a resource without a south side, the
--     first of them that of the last such resource; the code skips these resources, and the model
--     follows the code. Mapping/Handlers has the handlers of messages, the query of
--     the devices and StartCleanup; Mapping/WellFormed, Mapping/Invariant and Mapping/Reached say
--     what holds of every manager that the program can come to.
--   Json: JSON values as trees, and how a struct is filled from one.
--   Message: mqtt/message.go. ParseMessage is `parse_message`, ParseResponse `parse_response`;
--     Message/Encode has ToJSON and what the tags of the payloads say, Message/Extract the getters
--     of the payloads, Message/RoundTrip and Message/Devices what is read back.
--   Client: mqtt/client.go. onMessage is `on_message`, whose result says where a text goes;
--     Client/Routing is about it. Client/Requests is PublishAndWait against onMessage as a machine
--     of events, `step` for one of them; Client/Requests/Consistency has its invariant,
--     Client/Requests/Steps that each kind of event keeps it, Client/Requests/Matching what follows
--     for every run. Client/Requests/Progress is about what an event does to a call that waits,
--     Client/Requests/Stages and Client/Requests/Handover about the way of a response to it,
--     Client/Requests/Origin about where responses come from, and Client/Requests/Waiting puts them together for every sequence of
--     events.
--   Service: service/service.go. handleCommand is `handle_command`; Service/Commands is about the
--     answers. Service/Lifecycle has NewAppService, Initialize, Run and Stop, and
--     Service/Lifecycle/Running what they leave running, Service/Lifecycle/Stopping what Stop stops.
--   ForwardLog: forwardlog/manager.go as a machine of events: addEntry, its signal, Stop, the
--     wakes of the goroutine and the rounds of flush, `step` for one of them, `run` for a sequence.
--     ForwardLog/Retries is about sendLogEntry, ForwardLog/Steps and ForwardLog/Queue about the
--     queue, ForwardLog/Stopping about Stop.
--   Config: config/configuration.go. Validate is `validate`, LoadConfig `load_config`;
--     Config/Accepted has its theorems, Config/Connection those on the Modbus connection.
--   Logger: logger/logger.go. `output` is the line that a message gives and where it goes;
--     Logger/Levels is about SetLogLevel.
--   Run: how a function ends: it returns, panics, or has no fuel left.
--   Prelude: tests, keys, lists, integers and maps.
--   Tests: sample inputs, tests, and each theorem applied to a sample.
--
-- How the code is modelled. State is passed explicitly: each method is a function from the state to
-- the new state, one step under the mutex of its object (addEntry is two: its signal follows the
-- unlock). The time is an argument of what reads the clock. A Go map is an association list whose
-- order stands for the order of `range`, which is open. A uint16 is a natural number, with `%
-- 65536` where the code computes in uint16; a slice of bytes is a list of numbers. `none` stands
-- for a nil pointer and for a missing key. The reader and the handlers do not own the mapping
-- manager: they take its answers as a function of the number of the call and the address, so that
-- cache and mappings may change between two calls.
--
-- Floats. The operations on float64 and float32 are the record `Floats`, a parameter everywhere.
-- The round trip assumes `IsGo` of it: conversions to an integer type stay in its range, and the
-- bits of a float32 are 32 bits that give it back.
--
-- Fuel. Only the loop of readRegisters runs on fuel, `quantity + 1` rounds: each round answers one
-- register at least. That this is enough is part of `read_registers-Layout`. In the service a wait
-- that never ends is `out_of_fuel` too.
--
-- JSON. A text is its tree, and a number is what a decoder can make of it. How encoding/json writes
-- a float64 that it reads back is a parameter, `again`, and how it writes a dynamic value another,
-- `marshal`. `Numbers` is what the round trip of the devices assumes of `again`.
--
-- Outside. What the broker, the listeners and the data center answer while the service starts is
-- the record `Outside`. The handlers of messages run beside Run in the program; here a theorem
-- takes them one after the other.
--
-- Not modelled: the calls of the logger by the other parts, and its banner; the frame server
-- (tbrandon/mbserver), the serial port, the paho client with its reconnects, and the syntax of JSON
-- and YAML, which are code of others; the flags and the exit codes of the start-up, the signal that
-- ends Run, and the getters of the service.
pub mod Prelude
pub mod Value
pub mod Cache
pub mod ValueType
pub mod Bytes
pub mod Converter
pub mod Run
pub mod Buffer
pub mod Reader
pub mod Resource
pub mod Mapping
pub mod Server
pub mod Client
pub mod Config
pub mod ForwardLog
pub mod Json
pub mod Logger
pub mod Message
pub mod Service
pub mod Tests
