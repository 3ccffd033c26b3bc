-- ===== src/Tests/Running.antt =====
-- The theorems on the service and on what it starts at a sample device.
use app_modbus_go.Prelude.{
  ◌≡◌, refl, String, Bool, true, false, Option, none, some, List, [], ◌∷◌, ◌*◌,
}
use app_modbus_go.Prelude.Int.{ℤ, pos}
use app_modbus_go.Prelude.Eq.{ℕ_eq, String_eq}
use app_modbus_go.Prelude.Dict.{Dict, lookup, insert}
use app_modbus_go.Value.{Value}
use app_modbus_go.Run.{returned, panicked}
use app_modbus_go.Json.{Json}
use app_modbus_go.Cache.{CachedData, new_cache, stamp, fresh}
use app_modbus_go.Config.{default_config, get_interval, get_cleanup_interval}
use app_modbus_go.Message.{
  CommandContent, CommandPayload, CommandResponsePayload, command_response, MqttMessage,
  MqttResponse, received, new_response, type_command,
}
use app_modbus_go.Message.Encode.{encode_command, tree_of, response_to_json}
use app_modbus_go.Message.RoundTrip.{get_command_payload_lem}
use app_modbus_go.Mapping.{
  MappingManager, new_mapping_manager, update_mappings, add_devices, add_resources, add_resource,
  update_cache, matched, find_value,
}
use app_modbus_go.Mapping.WellFormed.{IsWellFormed}
use app_modbus_go.Mapping.Reached.{Reached, start, updated, reached-IsWellFormed}
use app_modbus_go.Mapping.Handlers.{query_device_attributes}
use app_modbus_go.Client.{ClientManager, to_request, on_message}
use app_modbus_go.Server.Lifecycle.{new_modbus_server, is_running}
use app_modbus_go.Server.Lifecycle.Listening.{
  Call, start_call, stop_call, after, is_open, any_open, is_running_lem,
}
use app_modbus_go.Service.{respond, handle_get_command, handle_command}
use app_modbus_go.Service.Commands.{
  reading, Answers, handle_get_command_lem, handle_command_lem, command_round_trip, sensor_get,
}
use app_modbus_go.Service.Lifecycle
use app_modbus_go.Service.Lifecycle.{AppService, Outside, Outcome, serving, initialize, run}
use app_modbus_go.Service.Lifecycle.Stopping.{Serves, Stopped, stop_once}
use app_modbus_go.Service.Lifecycle.Running.{run-Serves}
use app_modbus_go.Tests.{toy, north_temp, temp, plc, again, marshal}

-- a manager that was told of the device
abbrev known : MappingManager toy
unfolding new_cache
known = record {
  device_mappings = ("plc", plc) ∷ [];
  address_mappings = (10, record { device_name = "plc"; resource_mapping = temp }) ∷ [];
  cache = new_cache (pos 30);
  has_handler = false;
}

known-Reached : Reached known
unfolding new_mapping_manager new_cache update_mappings add_devices add_resources add_resource
    insert lookup
known-Reached = updated (some plc ∷ []) (new_mapping_manager (pos 30)) known (start (pos 30)) refl

reached-IsWellFormed_example : IsWellFormed known
reached-IsWellFormed_example = reached-IsWellFormed known known-Reached

abbrev show : Value toy → String
show v = "258"

abbrev content : CommandContent
content = record {
  north_device_name = "plc";
  north_resource_name = "temp";
  north_resource_value = "";
}

abbrev get_temp : CommandPayload
get_temp = record { cmd_type = "GET"; cmd_content = content }

handle_get_command_lem_example :
    handle_get_command show 5 known get_temp
    ≡ returned (elim (reading 5 known content) [
      | none ↦ respond "GET" (pos 404) content ""
      | some d ↦ respond "GET" (pos 200) content (show d.value)
    ])
handle_get_command_lem_example = handle_get_command_lem show 5 known get_temp known-Reached

abbrev message : MqttMessage toy
message = record {
  request_id = "q";
  version = "1.0";
  msg_type = type_command;
  timestamp = pos 5;
  payload = received (encode_command get_temp);
}

handle_command_lem_example :
    (a : CommandResponsePayload) × (handle_command show again marshal 5 (pos 6) message known
      ≡ returned
          (some (new_response (pos 6) "q" type_command (pos 200) "success" (command_response a))))
    × Answers 5 known get_temp a
handle_command_lem_example =
    handle_command_lem show again marshal 5 (pos 6) message known get_temp known-Reached
      (get_command_payload_lem again marshal message get_temp refl refl)

-- who asks
abbrev sender : ClientManager Bool Bool
sender = record {
  node_id = "node";
  topic_up = "up";
  topic_down = "down";
  message_handlers = [];
  response_handlers = [];
  pending_requests = ("q", 3) ∷ [];
  heartbeat_stop = none;
  has_client = true;
}

command_round_trip_example :
    (resp : MqttResponse toy) × (j : Json toy) × (payload : Json toy) × (handle_command show again
        marshal 5
        (pos 6)
        message
        known
      ≡ returned (some resp))
    × (response_to_json again marshal resp ≡ some j)
    × (tree_of again marshal resp.payload ≡ some payload)
    × (on_message (some j) sender ≡ to_request 3 (record resp { payload = received payload }))
unfolding lookup
command_round_trip_example =
    command_round_trip show again marshal 5 (pos 6) message known get_temp sender 3 known-Reached
      (get_command_payload_lem again marshal message get_temp refl refl) refl

abbrev values : Dict String (Value toy)
values = ("t", Value.int (pos 258)) ∷ []

-- the value as it is stored
abbrev stored : CachedData toy
stored = record {
  value = Value.int (pos 258);
  timestamp = 100;
  ttl = pos 30;
  north_dev_name = "plc";
  resource_name = "temp";
  value_type = "int16";
  scale = pos 1;
  offset = pos 0;
  modbus_address = 10;
}

sensor_get_example :
    (m' : MappingManager toy) × (update_cache (λ i. 100) "plc" values known ≡ returned (some m'))
    × (handle_get_command show 110 m' get_temp
        ≡ returned (respond "GET" (pos 200) content (show stored.value)))
unfolding lookup matched find_value stamp fresh new_cache
sensor_get_example =
    sensor_get show (λ i. 100) values 110 known get_temp plc north_temp stored known-Reached refl
      refl refl refl

abbrev calls : List Call
calls = start_call (λ l. true) ∷ start_call (λ l. false) ∷ stop_call ∷ start_call (λ l. false) ∷ []

is_running_lem_example :
    (is_open (after calls (new_modbus_server default_config.modbus)).server
      ≡ is_running (after calls (new_modbus_server default_config.modbus)))
    × (any_open (after calls (new_modbus_server default_config.modbus)).abandoned ≡ false)
unfolding default_config
is_running_lem_example = is_running_lem calls default_config.modbus

-- Every duration is one minute.
abbrev minute : String → Option ℤ
minute s = some (pos (60 * 1000000000))

abbrev outside : Outside toy
outside = record { connects = λ o. true; subscribes = true; answer = none; listens = λ l. true }

abbrev new_service : AppService toy
new_service = record {
  app_name = "app-modbus-go";
  version = "1.0.0";
  config_path = "";
  config = none;
  mqtt_client = none;
  map_manage = none;
  mdbs_server = none;
  forward_log_mgr = none;
  cancelled = none;
}

run-Serves_example :
    (s' : AppService toy) × (run minute again marshal
        (λ j. 0)
        outside
        (initialize minute "res/configuration.yaml" none new_service)
      ≡ returned (s', serving))
    × Serves s'
unfolding query_device_attributes get_interval get_cleanup_interval
run-Serves_example =
    run-Serves minute again marshal (λ j. 0) "res/configuration.yaml" none outside new_service none
      refl refl (λ l. refl) refl refl refl

-- what Run leaves
started :
    (s' : AppService toy) × (run minute again marshal
        (λ j. 0)
        outside
        (initialize minute "res/configuration.yaml" none new_service)
      ≡ returned (s', serving))
    × Serves s'
unfolding query_device_attributes get_interval get_cleanup_interval
started =
    run-Serves minute again marshal (λ j. 0) "res/configuration.yaml" none outside new_service none
      refl refl (λ l. refl) refl refl refl

stop_once_example :
    (s' : AppService toy) × (Lifecycle.stop true started.0 ≡ returned s')
    × Stopped s'
    × (Lifecycle.stop true s' ≡ panicked)
stop_once_example = stop_once true started.0 started.2
