-- ===== src/Service/Lifecycle/Stopping.antt =====
-- What Stop stops (internal/pkg/service/service.go).
use app_modbus_go.Prelude.{◌≡◌, refl, Bool, true, false, some}
use app_modbus_go.Prelude.Int.{ℤ_eq}
use app_modbus_go.Prelude.Eq.{String_eq}
use app_modbus_go.Prelude.Dict.{lookup}
use app_modbus_go.Value.{Floats}
use app_modbus_go.Run.{returned, panicked}
use app_modbus_go.Message.{
  type_heartbeat, type_device_attribute_push, type_sensor_data, type_command,
}
use app_modbus_go.Cache
use app_modbus_go.Mapping
use app_modbus_go.Mapping.{MappingManager, new_mapping_manager, set_handler, update_mappings}
use app_modbus_go.Client.{ClientManager, stop_heartbeat, disconnect}
use app_modbus_go.Server.Lifecycle
use app_modbus_go.Server.Lifecycle.{Listener, ModbusServer, new_modbus_server}
use app_modbus_go.Service.{
  MessageHandler, attribute_update, sensor_data, command, ResponseHandler, heartbeat_response,
}
use app_modbus_go.Service.Lifecycle.{AppService, started, stopped, stop, stop_forward_log}

module _ {fl : Floats} where
  -- A service that Run has started.
  pub record Serves (s : AppService fl) : Type 0 where
    pub client : ClientManager MessageHandler ResponseHandler
    pub the_client : s.mqtt_client ≡ some client
    pub beats : client.heartbeat_stop ≡ some false
    pub handles :
        (lookup type_device_attribute_push client.message_handlers ≡ some attribute_update)
        × (lookup type_sensor_data client.message_handlers ≡ some sensor_data)
        × (lookup type_command client.message_handlers ≡ some command)
        × (lookup type_heartbeat client.response_handlers ≡ some heartbeat_response)
    pub manager : MappingManager fl
    pub the_manager : s.map_manage ≡ some manager
    pub cleans : manager.cache.stopped ≡ false
    pub server : ModbusServer
    pub the_server : s.mdbs_server ≡ some server
    pub listens : server.running ≡ true
    pub forwards : s.forward_log_mgr ≡ some started
    pub live : s.cancelled ≡ some false

  -- A service that has been stopped, with no part of it left running.
  pub record Stopped (s : AppService fl) : Type 0 where
    pub client : ClientManager MessageHandler ResponseHandler
    pub the_client : s.mqtt_client ≡ some client
    pub no_beats : client.heartbeat_stop ≡ some true
    pub manager : MappingManager fl
    pub the_manager : s.map_manage ≡ some manager
    pub no_cleanup : manager.cache.stopped ≡ true
    pub server : ModbusServer
    pub the_server : s.mdbs_server ≡ some server
    pub no_requests : server.running ≡ false
    pub no_forwards : s.forward_log_mgr ≡ some stopped
    pub over : s.cancelled ≡ some true

  -- Stop of a service that Run has started returns, the MQTT client being connected or not, with every
  -- part stopped; a second Stop panics.
  pub stop_once :
      (connected : Bool) (s : AppService fl)
      → Serves s
      → (s' : AppService fl) × (stop connected s ≡ returned s')
        × Stopped s'
        × (stop connected s' ≡ panicked)
  unfolding stop stop_forward_log Mapping.stop Cache.stop disconnect stop_heartbeat Lifecycle.stop
  stop_once connected s w = (
    record s {
      cancelled = some true;
      mdbs_server = some (Lifecycle.stop w.server);
      forward_log_mgr = some stopped;
      map_manage = some (record w.manager { cache = record w.manager.cache { stopped = true } });
      mqtt_client = some (record w.client { heartbeat_stop = some true });
    },
    rw (stop, w.the_server, w.forwards, w.the_manager, w.the_client, w.live)
        (rw (stop_forward_log, Mapping.stop, Cache.stop, w.cleans)
          (rw (disconnect, stop_heartbeat, w.beats) refl)),
    record {
      client = record w.client { heartbeat_stop = some true };
      the_client = refl;
      no_beats = refl;
      manager = record w.manager { cache = record w.manager.cache { stopped = true } };
      the_manager = refl;
      no_cleanup = refl;
      server = Lifecycle.stop w.server;
      the_server = refl;
      no_requests = rw (Lifecycle.stop, w.listens) refl;
      no_forwards = refl;
      over = refl;
    },
    refl,
  )
