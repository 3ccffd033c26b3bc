-- ===== src/Service.antt =====
-- The service (internal/pkg/service/service.go): what it answers to a command, and where it takes the
-- messages. Logging is left out.
pub mod Commands
pub mod Lifecycle
use app_modbus_go.Prelude.{
  ℕ, String, Bool, true, false, Option, none, some, List, [], ◌∷◌, if◌then◌else◌,
}
use app_modbus_go.Prelude.Int.{ℤ, pos}
use app_modbus_go.Prelude.Eq.{String_eq, ◌==◌}
use app_modbus_go.Value.{Floats, Value}
use app_modbus_go.Resource.{NorthResource, ResourceMapping, DeviceMapping}
use app_modbus_go.Cache.{CachedData}
use app_modbus_go.Run.{Run, returned, panicked, ◌>>=◌}
use app_modbus_go.Json.{Number, Json}
use app_modbus_go.Message.{
  CommandContent, CommandPayload, CommandResponsePayload, command_response, MqttMessage,
  MqttResponse, new_response, type_heartbeat, type_device_attribute_push, type_sensor_data,
  type_command,
}
use app_modbus_go.Message.Extract.{get_command_payload}
use app_modbus_go.Mapping.{MappingManager, get_device_mapping, get_cached_value}
use app_modbus_go.Mapping.Handlers.{handle_attribute_update, handle_sensor_data}
use app_modbus_go.Client.{ClientManager, register_message_handler, register_response_handler}

-- The functions that registerMQTTHandlers registers.
pub data MessageHandler : Type 0 where
  attribute_update sensor_data command : MessageHandler

pub data ResponseHandler : Type 0 where
  heartbeat_response : ResponseHandler

unfoldable pub register_mqtt_handlers :
    ClientManager MessageHandler ResponseHandler → ClientManager MessageHandler ResponseHandler
unfolding register_message_handler register_response_handler
register_mqtt_handlers c =
    let c₁ = register_response_handler type_heartbeat heartbeat_response c in
    let c₂ = register_message_handler type_device_attribute_push attribute_update c₁ in
    let c₃ = register_message_handler type_sensor_data sensor_data c₂ in
    register_message_handler type_command command c₃

-- the response of a command, with the device and the resource that it names
abbrev pub respond : String → ℤ → CommandContent → String → CommandResponsePayload
respond cmd_type status_code c value = record {
  cmd_type = cmd_type;
  status_code = status_code;
  cmd_content = record {
    north_device_name = c.north_device_name;
    north_resource_name = c.north_resource_name;
    north_resource_value = value;
  };
}

-- `show` is what `%v` prints of a value.
module _ {fl : Floats} (show : Value fl → String) where
  -- the answer of GetCachedValue for the resource
  unfoldable pub get_response : CommandContent → Option (CachedData fl) → CommandResponsePayload
  get_response c none = respond "GET" (pos 404) c ""
  get_response c (some d) = respond "GET" (pos 200) c (show d.value)

  -- The loop over the resources; a nil pointer among them is dereferenced.
  unfoldable pub find_resource :
      ℕ
      → CommandContent
      → MappingManager fl
      → List (Option (ResourceMapping fl))
      → Run CommandResponsePayload
  unfolding get_response
  find_resource now c m [] = returned (respond "GET" (pos 404) c "")
  find_resource now c m (none ∷ rms) = panicked
  find_resource now c m (some rm ∷ rms) =
      let rest = find_resource now c m rms in
      elim rm.north_resource [
        | none ↦ rest
        | some north ↦
            if north.name == c.north_resource_name
            then returned (get_response c (get_cached_value now north.address m))
            else rest
      ]

  unfoldable pub handle_get_command :
      ℕ → MappingManager fl → CommandPayload → Run CommandResponsePayload
  unfolding find_resource
  handle_get_command now m p = elim (get_device_mapping p.cmd_content.north_device_name m) [
    | none ↦ returned (respond "GET" (pos 404) p.cmd_content "")
    | some dm ↦ find_resource now p.cmd_content m dm.resources
  ]

  unfoldable pub handle_put_command : CommandPayload → CommandResponsePayload
  handle_put_command p = respond "PUT" (pos 200) p.cmd_content p.cmd_content.north_resource_value

  -- the switch of handleCommand
  unfoldable pub run_command : ℕ → MappingManager fl → CommandPayload → Run CommandResponsePayload
  unfolding handle_get_command handle_put_command
  run_command now m p =
      if p.cmd_type == "GET"
      then handle_get_command now m p
      else if p.cmd_type == "PUT"
      then returned (handle_put_command p)
      else returned (respond p.cmd_type (pos 400) p.cmd_content "")

  -- handleCommand, up to PublishResponse: the response, at a time of the cache and of the day; `none`
  -- is the error of a payload that is no command.
  module _ (again : fl.F64 → Number fl) (marshal : Value fl → Option (Json fl)) where
    unfoldable pub handle_command :
        ℕ → ℤ → MqttMessage fl → MappingManager fl → Run (Option (MqttResponse fl))
    unfolding run_command
    handle_command now today msg m = elim (get_command_payload again marshal msg) [
      | none ↦ returned none
      | some p ↦ do
        answer ← run_command now m p
        returned (
            some (
              new_response today msg.request_id type_command (pos 200) "success"
                (command_response answer)))
    ]

    -- What a message handler leaves of the mapping manager and publishes; `none` is its error.
    unfoldable pub handle_message :
        (Json fl → ℕ)
        → (ℕ → ℕ)
        → ℤ
        → MessageHandler
        → MqttMessage fl
        → MappingManager fl
        → Run (Option (MappingManager fl × Option (MqttResponse fl)))
    unfolding handle_command
    handle_message tag clock today attribute_update msg m = do
      result ← handle_attribute_update again marshal tag msg m
      elim result [ none ↦ returned none | some m' ↦ returned (some (m', none)) ]
    handle_message tag clock today sensor_data msg m = do
      result ← handle_sensor_data again marshal tag clock msg m
      elim result [ none ↦ returned none | some m' ↦ returned (some (m', none)) ]
    handle_message tag clock today command msg m = do
      result ← handle_command (clock 0) today msg m
      elim result [ none ↦ returned none | some resp ↦ returned (some (m, some resp)) ]
