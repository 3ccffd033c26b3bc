-- ===== src/Config.antt =====
-- The configuration (internal/pkg/config/configuration.go): its records, Validate with its defaults
-- and the durations. Reading the YAML file is not modelled; time.ParseDuration is a parameter.
pub mod Connection
pub mod Accepted
use app_modbus_go.Prelude.{ℕ, ◌*◌, ◌^◌, String, Bool, not, ◌||◌, Option, none, some, if◌then◌else◌}
use app_modbus_go.Prelude.Int.{ℤ, pos, ltb_ℤ}
use app_modbus_go.Prelude.Eq.{ℕ_eq, String_eq, ◌==◌}

pub record ModbusTcpConfig : Type 0 where
  pub host : String
  pub port : ℤ
  pub slave_id : ℕ

pub record ModbusRtuConfig : Type 0 where
  pub port : String
  pub baud_rate : ℤ
  pub data_bits : ℤ
  pub parity : String
  pub stop_bits : ℤ
  pub slave_id : ℕ

pub record ModbusConfig : Type 0 where
  pub type_name : String
  pub tcp : ModbusTcpConfig
  pub rtu : ModbusRtuConfig
  pub timeout : ℤ
  pub polling_rate : ℤ

pub record MqttConfig : Type 0 where
  pub broker : String
  pub client_id : String
  pub username : String
  pub password : String
  pub qos : ℤ
  pub keep_alive : ℤ
  pub workers : ℤ

pub record CacheConfig : Type 0 where
  pub default_ttl : String
  pub cleanup_interval : String

pub record HeartbeatConfig : Type 0 where
  pub interval : String
  pub timeout : String

pub record WritableConfig : Type 0 where
  pub log_level : String

pub record ServiceConfig : Type 0 where
  pub host : String
  pub port : ℤ

pub record AppConfig : Type 0 where
  pub writable : WritableConfig
  pub service : ServiceConfig
  pub node_id : String
  pub mqtt : MqttConfig
  pub modbus : ModbusConfig
  pub cache : CacheConfig
  pub heartbeat : HeartbeatConfig

-- The errors of Validate.
pub data ConfigError : Type 0 where
  node_id_empty broker_empty client_id_empty qos_out_of_range rtu_port_empty : ConfigError

-- `if s == "" { s = d }`, `if z <= 0 { z = d }` and `if n == 0 { n = d }`
abbrev pub text_or : String → String → String
text_or d s = if s == "" then d else s

abbrev pub positive_or : ℤ → ℤ → ℤ
positive_or d z = if ltb_ℤ (pos 0) z then z else d

abbrev pub nonzero_or : ℕ → ℕ → ℕ
nonzero_or d n = if n == 0 then d else n

unfoldable pub tcp_defaults : ModbusTcpConfig → ModbusTcpConfig
tcp_defaults t = record {
  host = text_or "0.0.0.0" t.host;
  port = positive_or (pos 502) t.port;
  slave_id = nonzero_or 1 t.slave_id;
}

unfoldable pub rtu_defaults : ModbusRtuConfig → ModbusRtuConfig
rtu_defaults r = record {
  port = r.port;
  baud_rate = positive_or (pos 9600) r.baud_rate;
  data_bits = positive_or (pos 8) r.data_bits;
  parity = text_or "N" r.parity;
  stop_bits = positive_or (pos 1) r.stop_bits;
  slave_id = nonzero_or 1 r.slave_id;
}

-- the switch over the type of the Modbus connection
unfoldable pub validate_modbus : ModbusConfig → ModbusConfig × Option ConfigError
unfolding tcp_defaults rtu_defaults
validate_modbus m =
    if m.type_name == "TCP"
    then (record m { tcp = tcp_defaults m.tcp }, none)
    else if m.type_name == "RTU"
    then (if m.rtu.port == ""
        then (m, some rtu_port_empty)
        else (record m { rtu = rtu_defaults m.rtu }, none))
    else (record m { type_name = "TCP" }, none)

-- the defaults behind the switch
unfoldable pub fill_defaults : AppConfig → AppConfig
fill_defaults c = record c {
  cache = record {
    default_ttl = text_or "30s" c.cache.default_ttl;
    cleanup_interval = text_or "5m" c.cache.cleanup_interval;
  };
  heartbeat = record {
    interval = text_or "2m" c.heartbeat.interval;
    timeout = text_or "10s" c.heartbeat.timeout;
  };
  writable = record { log_level = text_or "INFO" c.writable.log_level };
  service = record {
    host = text_or "localhost" c.service.host;
    port = positive_or (pos 59711) c.service.port;
  };
}

-- Validate from the switch on: an error leaves the rest of the configuration as it is.
unfoldable pub finish :
    AppConfig → ModbusConfig × Option ConfigError → AppConfig × Option ConfigError
unfolding fill_defaults
finish c (m, some e) = (record c { modbus = m }, some e)
finish c (m, none) = (fill_defaults (record c { modbus = m }), none)

-- Validate: the configuration as it leaves it, and its error.
unfoldable pub validate : AppConfig → AppConfig × Option ConfigError
unfolding validate_modbus finish
validate c =
    let with_workers = record c {
      mqtt = record c.mqtt { workers = positive_or (pos 4) c.mqtt.workers };
    } in
    let with_keep_alive = record with_workers {
      mqtt = record with_workers.mqtt { keep_alive = positive_or (pos 60) c.mqtt.keep_alive };
    } in
    if c.node_id == ""
    then (c, some node_id_empty)
    else if c.mqtt.broker == ""
    then (c, some broker_empty)
    else if c.mqtt.client_id == ""
    then (c, some client_id_empty)
    else if ltb_ℤ c.mqtt.qos (pos 0) || ltb_ℤ (pos 2) c.mqtt.qos
    then (with_workers, some qos_out_of_range)
    else finish with_keep_alive (validate_modbus c.modbus)

-- LoadConfig, of what the YAML file gives, `none` where it cannot be read; `none` is an error.
unfoldable pub load_config : Option AppConfig → Option AppConfig
unfolding validate
load_config none = none
load_config (some c) = elim (validate c).1 [ none ↦ some (validate c).0 | some e ↦ none ]

-- The durations, in nanoseconds: what time.ParseDuration makes of the text, or a default.
module _ (parse_duration : String → Option ℤ) where
  abbrev pub second : ℕ
  second = 10 ^ 9

  abbrev duration_or : ℕ → String → ℤ
  duration_or seconds s = elim (parse_duration s) [ none ↦ pos (seconds * second) | some d ↦ d ]

  unfoldable pub get_default_ttl : CacheConfig → ℤ
  get_default_ttl c = duration_or 30 c.default_ttl

  unfoldable pub get_cleanup_interval : CacheConfig → ℤ
  get_cleanup_interval c = duration_or 300 c.cleanup_interval

  unfoldable pub get_interval : HeartbeatConfig → ℤ
  get_interval h = duration_or 120 h.interval

  unfoldable pub get_timeout : HeartbeatConfig → ℤ
  get_timeout h = duration_or 10 h.timeout

-- DefaultConfig; what it does not name is empty or 0.
unfoldable pub default_config : AppConfig
default_config = record {
  writable = record { log_level = "DEBUG" };
  service = record { host = "localhost"; port = pos 59711 };
  node_id = "modbus-node-001";
  mqtt = record {
    broker = "tcp://localhost:1883";
    client_id = "app-modbus-go-001";
    username = "";
    password = "";
    qos = pos 1;
    keep_alive = pos 60;
    workers = pos 4;
  };
  modbus = record {
    type_name = "TCP";
    tcp = record { host = "0.0.0.0"; port = pos 502; slave_id = 1 };
    rtu = record {
      port = "";
      baud_rate = pos 0;
      data_bits = pos 0;
      parity = "";
      stop_bits = pos 0;
      slave_id = 0;
    };
    timeout = pos 0;
    polling_rate = pos 0;
  };
  cache = record { default_ttl = "30s"; cleanup_interval = "5m" };
  heartbeat = record { interval = "2m"; timeout = "10s" };
}
