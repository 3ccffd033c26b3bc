-- ===== src/Message.antt =====
-- The messages between the gateway and the data center (internal/pkg/mqtt/message.go): their records,
-- and how they are made and read.
pub mod Encode
pub mod Extract
pub mod RoundTrip
pub mod Devices
use app_modbus_go.Prelude.{ℕ, String, Bool, Option, none, some, List, [], ◌∷◌, if◌then◌else◌}
use app_modbus_go.Prelude.Int.{ℤ, pos, eqb_ℤ}
use app_modbus_go.Prelude.Dict.{Dict}
use app_modbus_go.Value.{Floats, Value}
use app_modbus_go.Resource.{NorthResource, SouthResource, ResourceMapping, DeviceMapping}
use app_modbus_go.ForwardLog.{ForwardLogPayload}
use app_modbus_go.Json.{
  Number, Json, Fields, ◌>>=◌, find, fields_of, decode_text, decode_bool, decode_float, decode_int,
  decode_uint16, decode_pointer, decode_slice, decode_any, decode_map, rewrite,
}

-- The message types.
abbrev pub type_heartbeat : ℤ
type_heartbeat = pos 1

abbrev pub type_query_device : ℤ
type_query_device = pos 2

abbrev pub type_device_attribute_push : ℤ
type_device_attribute_push = pos 3

abbrev pub type_sensor_data : ℤ
type_sensor_data = pos 4

abbrev pub type_forward_log : ℤ
type_forward_log = pos 5

abbrev pub type_command : ℤ
type_command = pos 6

pub record QueryDevicePayload : Type 0 where
  pub cmd : String

-- The payloads of types 2 and 3.
pub record QueryDeviceResponse (fl : Floats) : Type 0 where
  pub cmd : String
  pub result : List (Option (DeviceMapping fl))

pub record SensorDataPayload (fl : Floats) : Type 0 where
  pub north_device_name : String
  pub data' : Dict String (Value fl)

pub record CommandContent : Type 0 where
  pub north_device_name : String
  pub north_resource_name : String
  pub north_resource_value : String

pub record CommandPayload : Type 0 where
  pub cmd_type : String
  pub cmd_content : CommandContent

pub record CommandResponsePayload : Type 0 where
  pub cmd_type : String
  pub status_code : ℤ
  pub cmd_content : CommandContent

-- What stands in a `Payload` field: what was read from a text, or what the program put there.
pub data Payload (fl : Floats) : Type 0 where
  received : Json fl → Payload fl
  no_payload : Payload fl
  query_device : QueryDevicePayload → Payload fl
  forward_log : ForwardLogPayload fl → Payload fl
  command_response : CommandResponsePayload → Payload fl

pub record MqttMessage (fl : Floats) : Type 0 where
  pub request_id : String
  pub version : String
  pub msg_type : ℤ
  pub timestamp : ℤ
  pub payload : Payload fl

pub record MqttResponse (fl : Floats) : Type 0 where
  pub request_id : String
  pub version : String
  pub msg_type : ℤ
  pub timestamp : ℤ
  pub code : ℤ
  pub msg : String
  pub payload : Payload fl

module _ {fl : Floats} where
  -- NewMessage, with the id that uuid.New gives and the time
  unfoldable pub new_message : String → ℤ → ℤ → Payload fl → MqttMessage fl
  new_message id now msg_type payload = record {
    request_id = id;
    version = "1.0";
    msg_type = msg_type;
    timestamp = now;
    payload = payload;
  }

  -- NewResponse, at a time
  unfoldable pub new_response : ℤ → String → ℤ → ℤ → String → Payload fl → MqttResponse fl
  new_response now request_id msg_type code msg payload = record {
    request_id = request_id;
    version = "1.0";
    msg_type = msg_type;
    timestamp = now;
    code = code;
    msg = msg;
    payload = payload;
  }

  -- ParseMessage and ParseResponse, of the tree of a text
  unfoldable pub parse_message : Json fl → Option (MqttMessage fl)
  parse_message j = do
    fs ← fields_of j
    request_id ← decode_text (find "requestId" fs)
    version ← decode_text (find "version" fs)
    msg_type ← decode_int (find "type" fs)
    timestamp ← decode_int (find "timestamp" fs)
    some (record {
      request_id = request_id;
      version = version;
      msg_type = msg_type;
      timestamp = timestamp;
      payload = received (find "payload" fs);
    })

  unfoldable pub parse_response : Json fl → Option (MqttResponse fl)
  parse_response j = do
    fs ← fields_of j
    request_id ← decode_text (find "requestId" fs)
    version ← decode_text (find "version" fs)
    msg_type ← decode_int (find "type" fs)
    timestamp ← decode_int (find "timestamp" fs)
    code ← decode_int (find "code" fs)
    msg ← decode_text (find "msg" fs)
    some (record {
      request_id = request_id;
      version = version;
      msg_type = msg_type;
      timestamp = timestamp;
      code = code;
      msg = msg;
      payload = received (find "payload" fs);
    })
