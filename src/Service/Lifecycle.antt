-- ===== src/Service/Lifecycle.antt =====
-- How the service starts and stops (internal/pkg/service/service.go). What the outside does to it is in
-- `Outside`; the messages that come in the meantime are handled elsewhere. A goroutine that is
-- waited for and was not started is `out_of_fuel`: the wait does not end.
pub mod Stopping
pub mod Running
use app_modbus_go.Prelude.{
  ℕ, String, Bool, true, false, not, ◌||◌, Option, none, some, List, [], ◌∷◌, if◌then◌else◌,
}
use app_modbus_go.Prelude.Int.{ℤ, wrap}
use app_modbus_go.Prelude.Eq.{String_eq, ◌==◌}
use app_modbus_go.Value.{Floats, Value}
use app_modbus_go.Run.{Run, returned, panicked, out_of_fuel, ◌>>=◌}
use app_modbus_go.Json.{Number, Json}
use app_modbus_go.Config.{
  MqttConfig, AppConfig, load_config, default_config, get_default_ttl, get_interval,
}
use app_modbus_go.Message.{MqttResponse}
use app_modbus_go.Mapping
use app_modbus_go.Mapping.{MappingManager, new_mapping_manager, set_handler}
use app_modbus_go.Mapping.Handlers.{query_device_attributes, start_cleanup}
use app_modbus_go.Client.{
  ClientManager, ClientConfig, ClientOptions, new_client_manager, connect, start_heartbeat,
  disconnect,
}
use app_modbus_go.Server.Lifecycle
use app_modbus_go.Server.Lifecycle.{Listener, ModbusServer, StartError, new_modbus_server, cancel}
use app_modbus_go.Service.{MessageHandler, ResponseHandler, register_mqtt_handlers}

-- The forward log manager as it stands here: made, its goroutine started, or `stopCh` closed.
pub data ForwardLogState : Type 0 where
  made started stopped : ForwardLogState

-- The fields that are nil before Initialize are `none`.
pub record AppService (fl : Floats) : Type 0 where
  pub app_name : String
  pub version : String
  pub config_path : String
  pub config : Option AppConfig
  pub mqtt_client : Option (ClientManager MessageHandler ResponseHandler)
  pub map_manage : Option (MappingManager fl)
  pub mdbs_server : Option ModbusServer
  pub forward_log_mgr : Option ForwardLogState
  -- `cancel`: nil, or whether it was called
  pub cancelled : Option Bool

-- NewAppService: `none` is its error.
unfoldable pub new_app_service : {fl : Floats} → String → String → Option (AppService fl)
new_app_service name version =
    if (name == "") || (version == "")
    then none
    else some (record {
      app_name = name;
      version = version;
      config_path = "";
      config = none;
      mqtt_client = none;
      map_manage = none;
      mdbs_server = none;
      forward_log_mgr = none;
      cancelled = none;
    })

-- How Run ends before it waits for a signal, or that it serves then.
pub data Outcome : Type 0 where
  serving connect_failed subscribe_failed : Outcome
  server_failed : StartError → Outcome

-- What the broker, the data center and the listeners do while the service starts: with which options
-- it takes a connection, whether Subscribe succeeds, the answer to the query of the devices, and which listeners open.
pub record Outside (fl : Floats) : Type 0 where
  pub connects : ClientOptions → Bool
  pub subscribes : Bool
  pub answer : Option (MqttResponse fl)
  pub listens : Listener → Bool

-- the configuration of the MQTT client; `byte(cfg.Mqtt.QoS)` is the lowest byte
unfoldable pub client_config : MqttConfig → ClientConfig
client_config c = record {
  broker = c.broker;
  client_id = c.client_id;
  username = c.username;
  password = c.password;
  qos = wrap 256 c.qos;
  keep_alive = c.keep_alive;
}

-- a field that is dereferenced
abbrev pub need : {A : Type 0} → Option A → Run A
need none = panicked
need (some a) = returned a

abbrev pub or_default : {A : Type 0} → A → Option A → A
or_default a none = a
or_default a (some b) = b

-- the Modbus server after its Start, and what Run makes of the error
abbrev pub with_result :
    {fl : Floats} → AppService fl → ModbusServer × Option StartError → AppService fl × Outcome
with_result s (server, none) = (record s { mdbs_server = some server }, serving)
with_result s (server, some e) = (record s { mdbs_server = some server }, server_failed e)

module _ {fl : Floats} (parse_duration : String → Option ℤ) where
  -- Initialize, with what the file at the path gives
  unfoldable pub initialize : String → Option AppConfig → AppService fl → AppService fl
  unfolding load_config
  initialize path file s =
      let config = or_default default_config (load_config file) in
      record s {
        config_path = path;
        config = some config;
        mqtt_client = some (new_client_manager config.node_id);
        map_manage =
            some (set_handler (new_mapping_manager (get_default_ttl parse_duration config.cache)));
        mdbs_server = some (new_modbus_server config.modbus);
        forward_log_mgr = some made;
        cancelled = some false;
      }

  -- what Run does with the Modbus server
  unfoldable pub start_server : (Listener → Bool) → AppService fl → Run (AppService fl × Outcome)
  start_server listens s = do
    server ← need s.mdbs_server
    returned (with_result s (Lifecycle.start listens server))

  module _ (again : fl.F64 → Number fl) (marshal : Value fl → Option (Json fl))
      (tag : Json fl → ℕ) where
    -- Run behind its subscription. An error of the query is only logged.
    unfoldable pub serve :
        Outside fl
        → AppConfig
        → ClientManager MessageHandler ResponseHandler
        → AppService fl
        → Run (AppService fl × Outcome)
    unfolding start_server
    serve outside config client s = do
      m ← need s.map_manage
      queried ← query_device_attributes again marshal tag outside.answer m
      client' ← start_heartbeat (get_interval parse_duration config.heartbeat) client
      _ ← start_cleanup parse_duration config.cache
      _ ← need s.forward_log_mgr
      start_server outside.listens (record s {
        mqtt_client = some client';
        map_manage = some (or_default m queried);
        forward_log_mgr = some started;
      })

    -- Run from its call of Connect on
    unfoldable pub connect_and_serve :
        Outside fl
        → AppConfig
        → ClientManager MessageHandler ResponseHandler
        → AppService fl
        → Run (AppService fl × Outcome)
    unfolding serve client_config
    connect_and_serve outside config client s =
        let (client', connected) = connect outside.connects (client_config config.mqtt) client in
        let registered = register_mqtt_handlers client' in
        let served = serve outside config registered s in
        if not connected
        then returned (record s { mqtt_client = some client' }, connect_failed)
        else if not outside.subscribes
        then returned (record s { mqtt_client = some registered }, subscribe_failed)
        else served

    -- Run, up to the wait for a signal
    unfoldable pub run : Outside fl → AppService fl → Run (AppService fl × Outcome)
    unfolding connect_and_serve
    run outside s = do
      config ← need s.config
      client ← need s.mqtt_client
      connect_and_serve outside config client s

-- forwardLogMgr.Stop: it closes `stopCh`, and waits for the goroutine.
unfoldable pub stop_forward_log : ForwardLogState → Run ForwardLogState
stop_forward_log made = out_of_fuel
stop_forward_log started = returned stopped
stop_forward_log stopped = panicked

-- a component that is stopped if it is there
abbrev pub if_there : {A : Type 0} → (A → Run A) → Option A → Run (Option A)
if_there stop none = returned none
if_there stop (some a) = do a' ← stop a; returned (some a')

-- what panics where it is `none`
abbrev pub or_panic : {A : Type 0} → Option A → Run A
or_panic none = panicked
or_panic (some a) = returned a

module _ {fl : Floats} where
  -- Stop, where the MQTT client is connected or not
  unfoldable pub stop : Bool → AppService fl → Run (AppService fl)
  unfolding stop_forward_log
  stop connected s = do
    server ← if_there (λ v. returned (Lifecycle.stop v)) s.mdbs_server
    forward_log ← if_there stop_forward_log s.forward_log_mgr
    manager ← if_there (λ m. or_panic (Mapping.stop m)) s.map_manage
    client ← if_there (λ c. do result ← disconnect connected c; returned result.0) s.mqtt_client
    returned (record s {
      cancelled = cancel s.cancelled;
      mdbs_server = server;
      forward_log_mgr = forward_log;
      map_manage = manager;
      mqtt_client = client;
    })
