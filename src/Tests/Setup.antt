-- ===== src/Tests/Setup.antt =====
-- The theorems on the configuration and on the forward log at samples.
use app_modbus_go.Prelude.{
  ◌≢◌, ℕ, ◌≡◌, ◌≤◌, ◌<◌, ◌↔◌, ◌⊎◌, refl, Bool, true, false, none, some, List, [], ◌∷◌, ◌++◌, leb,
}
use app_modbus_go.Prelude.{arith, eq_iff}
use app_modbus_go.Prelude.Int.{pos}
use app_modbus_go.Value.{Value}
use app_modbus_go.Config.{AppConfig, default_config, validate, validate_modbus, finish}
use app_modbus_go.Config.Accepted.{
  Acceptable, Complete, validate-Acceptable, validate-Complete, validate_unknown_type,
}
use app_modbus_go.Config.Connection.{Connected}
use app_modbus_go.ForwardLog.{
  LogEntry, ForwardLogPayload, sent, failed, waiting, sending, finished, Manager, new_manager,
  Event, add, stop_call, stop_wake, tick, send, add_entry, take_queue, send_loop, send_log_entry,
  step, run,
}
use app_modbus_go.ForwardLog.Steps.{in_hand, added, deliver}
use app_modbus_go.ForwardLog.Queue.{run_lem}
use app_modbus_go.ForwardLog.Stopping.{last_rounds, stop_lem}
use app_modbus_go.Tests.{toy}

validate-Acceptable_example : ((validate default_config).1 ≡ none) ↔ Acceptable default_config
validate-Acceptable_example = validate-Acceptable default_config

-- the default configuration with an RTU connection that names its port only
abbrev rtu_only : AppConfig
rtu_only = record default_config {
  modbus = record default_config.modbus {
    type_name = "RTU";
    rtu = record default_config.modbus.rtu { port = "/dev/ttyS0" };
  };
}

validate-Complete_example :
    Complete (validate rtu_only).0 × Connected "RTU" (validate rtu_only).0.modbus
unfolding default_config validate validate_modbus finish
validate-Complete_example = validate-Complete rtu_only refl

-- the default configuration with a connection type that there is not
abbrev serial : AppConfig
serial = record {
  writable = record { log_level = "" };
  service = record { host = ""; port = pos 0 };
  node_id = "node";
  mqtt = record {
    broker = "tcp://broker:1883";
    client_id = "client";
    username = "";
    password = "";
    qos = pos 1;
    keep_alive = pos 0;
    workers = pos 0;
  };
  modbus = record {
    type_name = "tcp";
    tcp = record { host = ""; port = pos 0; slave_id = 0 };
    rtu = record {
      port = "";
      baud_rate = pos 0;
      data_bits = pos 0;
      parity = "";
      stop_bits = pos 0;
      slave_id = 0;
    };
    timeout = pos 0;
    polling_rate = pos 0;
  };
  cache = record { default_ttl = ""; cleanup_interval = "" };
  heartbeat = record { interval = ""; timeout = "" };
}

tcp_differs : serial.modbus.type_name ≢ "TCP"
tcp_differs e = ground (arith, eq_iff "tcp" "TCP")

rtu_differs : serial.modbus.type_name ≢ "RTU"
rtu_differs e = ground (arith, eq_iff "tcp" "RTU")

validate_unknown_type_example :
    ((validate serial).0.modbus.type_name ≡ "TCP")
    × ((validate serial).0.modbus.tcp ≡ serial.modbus.tcp)
unfolding validate validate_modbus finish
validate_unknown_type_example = validate_unknown_type serial refl tcp_differs rtu_differs

abbrev entry : LogEntry toy
entry = record {
  status = 1;
  north_device_name = "plc";
  data' = ("temp", Value.int (pos 258)) ∷ [];
  timestamp = 7;
}

abbrev payload : ForwardLogPayload toy
payload = record {
  status = 1;
  north_device_name = "plc";
  data' = ("temp", Value.int (pos 258)) ∷ [];
}

-- a broker whose first call fails
abbrev publish : ℕ → Bool
publish call = leb 1 call

abbrev manager : Manager toy
manager = record {
  has_client = true;
  queue = [];
  batch_size = 10;
  max_retries = 3;
  stopped = false;
  flush_pending = false;
  signalling = 0;
  worker = waiting;
  attempts = [];
}

-- an entry is added, taken and sent, at the second attempt
abbrev sending_events : List (Event toy)
sending_events = add entry ∷ tick ∷ send ∷ []

abbrev after_sending : Manager toy
after_sending = record manager {
  worker = sending [];
  attempts = failed payload ∷ sent payload ∷ [];
}

run_lem_example :
    (handled : List (LogEntry toy)) × (handled
        ++ (in_hand after_sending.worker ++ after_sending.queue)
      ≡ added sending_events)
    × (after_sending.attempts ≡ deliver publish true 0 handled)
    × (10 ≤ 0 → (false ≡ true) ⊎ (0 < 0))
unfolding run step new_manager add_entry take_queue send_log_entry send_loop
run_lem_example = run_lem publish true sending_events after_sending refl

-- an entry is added and Stop is called
abbrev stopping_events : List (Event toy)
stopping_events = add entry ∷ stop_call ∷ []

abbrev stopping : Manager toy
stopping = record manager { queue = entry ∷ []; stopped = true }

stop_lem_example :
    (m' : Manager toy) × (run publish (stop_wake ∷ last_rounds (entry ∷ [])) stopping ≡ some m')
    × (m'.worker ≡ finished)
    × (m'.queue ≡ [])
    × (m'.attempts ≡ deliver publish true 0 (added stopping_events))
unfolding run step new_manager add_entry
stop_lem_example = stop_lem publish true stopping_events stopping refl refl refl
