-- ===== src/Server/Lifecycle.antt =====
-- When the Modbus server listens (internal/pkg/modbusserver/server.go): Start and Stop. The mbserver
-- library and the serial port are not modelled: whether a listener opens is an argument.
pub mod Listening
use app_modbus_go.Prelude.{
  ℕ, suc, ◌*◌, ◌-◌, ◌^◌, String, Bool, true, false, not, ◌&&◌, Option, none, some, List, [], ◌∷◌,
  if◌then◌else◌,
}
use app_modbus_go.Prelude.Int.{ℤ, pos, negsuc, wrap_signed}
use app_modbus_go.Prelude.Eq.{String_eq, ◌==◌}
use app_modbus_go.Config.{ModbusConfig}

-- The fields of serial.Config that startRTU sets; the timeout is in nanoseconds.
pub record SerialConfig : Type 0 where
  pub address : String
  pub baud_rate : ℤ
  pub data_bits : ℤ
  pub stop_bits : ℤ
  pub parity : String
  pub timeout : ℤ

-- What is listened on: the host and the port, or the serial port.
pub data Listener : Type 0 where
  tcp : String → ℤ → Listener
  rtu : SerialConfig → Listener

-- A server of mbserver: the function codes that were registered, what it listens on, and whether it
-- was closed.
pub record Instance : Type 0 where
  pub codes : List ℕ
  pub listener : Option Listener
  pub closed : Bool

pub data StartError : Type 0 where
  already_running listen_failed : StartError
  unsupported_type : String → StartError

pub record ModbusServer : Type 0 where
  pub config : ModbusConfig
  pub server : Option Instance
  pub running : Bool
  -- `cancel`: nil, or whether it was called
  pub cancelled : Option Bool
  -- the servers that `server` pointed to before
  pub abandoned : List Instance

-- NewModbusServer
unfoldable pub new_modbus_server : ModbusConfig → ModbusServer
new_modbus_server config = record {
  config = config;
  server = none;
  running = false;
  cancelled = none;
  abandoned = [];
}

-- registerHandlers, on a new server; `dispatch` has the handlers of these codes
unfoldable pub register_handlers : Instance
register_handlers = record {
  codes = 1 ∷ 2 ∷ 3 ∷ 4 ∷ 5 ∷ 6 ∷ 15 ∷ 16 ∷ [];
  listener = none;
  closed = false;
}

-- `time.Duration(ms) * time.Millisecond`, an int64
unfoldable pub milliseconds : ℤ → ℤ
milliseconds (pos n) = wrap_signed (2 ^ 64) (pos (n * 1000000))
milliseconds (negsuc n) = wrap_signed (2 ^ 64) (negsuc (suc n * 1000000 - 1))

-- the listener of startTCP
unfoldable pub tcp_listener : ModbusConfig → Listener
tcp_listener c = tcp c.tcp.host c.tcp.port

-- the listener of startRTU
unfoldable pub rtu_listener : ModbusConfig → Listener
unfolding milliseconds
rtu_listener c = rtu (record {
  address = c.rtu.port;
  baud_rate = c.rtu.baud_rate;
  data_bits = c.rtu.data_bits;
  stop_bits = c.rtu.stop_bits;
  parity = c.rtu.parity;
  timeout = milliseconds c.timeout;
})

abbrev pub with_server : Option Instance → List Instance → List Instance
with_server none old = old
with_server (some i) old = i ∷ old

module _ (listens : Listener → Bool) where
  -- startTCP and startRTU, and the end of Start
  unfoldable pub listen : Listener → Instance → ModbusServer → ModbusServer × Option StartError
  listen l i s =
      if listens l
      then (record s { server = some (record i { listener = some l }); running = true }, none)
      else (s, some listen_failed)

  -- Start, with its error
  unfoldable pub start : ModbusServer → ModbusServer × Option StartError
  unfolding register_handlers tcp_listener rtu_listener listen
  start s =
      let fresh = record s {
        server = some register_handlers;
        cancelled = some false;
        abandoned = with_server s.server s.abandoned;
      } in
      if s.running
      then (s, some already_running)
      else if s.config.type_name == "TCP"
      then listen (tcp_listener s.config) register_handlers fresh
      else if s.config.type_name == "RTU"
      then listen (rtu_listener s.config) register_handlers fresh
      else (fresh, some (unsupported_type s.config.type_name))

abbrev pub close : Option Instance → Option Instance
close none = none
close (some i) = some (record i { closed = true })

abbrev pub cancel : Option Bool → Option Bool
cancel none = none
cancel (some _) = some true

-- Stop
unfoldable pub stop : ModbusServer → ModbusServer
stop s =
    if not s.running
    then s
    else record s { running = false; cancelled = cancel s.cancelled; server = close s.server }

-- IsRunning
unfoldable pub is_running : ModbusServer → Bool
is_running s = s.running
