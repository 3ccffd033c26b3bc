-- ===== src/Mapping/Handlers.antt =====
-- The mapping manager's handlers of messages, and its calls of the data center and of the cleanup
-- (internal/pkg/mappingmanager/mappingmanager.go). `none` is an error.
use app_modbus_go.Prelude.{ℕ, String, Option, none, some, if◌then◌else◌, not}
use app_modbus_go.Prelude.Int.{ℤ, pos, eqb_ℤ, ltb_ℤ}
use app_modbus_go.Value.{Floats, Value}
use app_modbus_go.Run.{Run, returned, panicked, ◌>>=◌}
use app_modbus_go.Config.{CacheConfig, get_cleanup_interval}
use app_modbus_go.Json.{Number, Json}
use app_modbus_go.Message.{MqttMessage, MqttResponse, query_device, new_message, type_query_device}
use app_modbus_go.Message.Extract.{
  get_query_device_response, get_device_attribute_push_payload, get_sensor_data_payload,
}
use app_modbus_go.Mapping.{MappingManager, update_mappings, update_cache}

module _ {fl : Floats} (again : fl.F64 → Number fl) (marshal : Value fl → Option (Json fl))
    (tag : Json fl → ℕ) where
  unfoldable pub handle_query_response :
      MqttResponse fl → MappingManager fl → Run (Option (MappingManager fl))
  handle_query_response resp m = elim (get_query_device_response again marshal tag resp) [
    | none ↦ returned none
    | some q ↦ do m' ← update_mappings q.result m; returned (some m')
  ]

  unfoldable pub handle_attribute_update :
      MqttMessage fl → MappingManager fl → Run (Option (MappingManager fl))
  handle_attribute_update msg m = elim (get_device_attribute_push_payload again marshal tag msg) [
    | none ↦ returned none
    | some q ↦ do m' ← update_mappings q.result m; returned (some m')
  ]

  unfoldable pub handle_sensor_data :
      (ℕ → ℕ) → MqttMessage fl → MappingManager fl → Run (Option (MappingManager fl))
  handle_sensor_data clock msg m = elim (get_sensor_data_payload again marshal tag msg) [
    | none ↦ returned none
    | some p ↦ update_cache clock p.north_device_name p.data' m
  ]

  -- The message that QueryDeviceAttributes publishes, with its id and time.
  abbrev pub query_message : String → ℤ → MqttMessage fl
  query_message id now =
      new_message id now type_query_device (query_device (record { cmd = "0101" }))

  -- QueryDeviceAttributes from the answer of PublishAndWait on, `none` where that is an error
  unfoldable pub query_device_attributes :
      Option (MqttResponse fl) → MappingManager fl → Run (Option (MappingManager fl))
  unfolding handle_query_response
  query_device_attributes none m = returned none
  query_device_attributes (some resp) m =
      if not (eqb_ℤ resp.code (pos 200)) then returned none else handle_query_response resp m

-- StartCleanup: `time.NewTicker` panics where the interval is not positive.
unfoldable pub start_cleanup : (String → Option ℤ) → CacheConfig → Run (Unit {0})
start_cleanup parse_duration config =
    if ltb_ℤ (pos 0) (get_cleanup_interval parse_duration config) then returned tt else panicked
