-- ===== src/Message/Encode.antt =====
-- What encoding/json writes for the messages that the program makes, by the tags of the structs
-- (internal/pkg/mqtt/message.go): ToJSON, and the trees that the payloads are read from.
use app_modbus_go.Prelude.{String, Option, some, [], ◌∷◌, if◌then◌else◌}
use app_modbus_go.Prelude.Int.{ℤ, pos}
use app_modbus_go.Prelude.Eq.{String_eq, ◌==◌}
use app_modbus_go.Prelude.Dict.{Dict}
use app_modbus_go.Value.{Floats, Value}
use app_modbus_go.ForwardLog.{ForwardLogPayload}
use app_modbus_go.Json.{Number, Json, null, num, str, object, Fields, end, field, ◌>>=◌, rewrite}
use app_modbus_go.Message.{
  QueryDevicePayload, CommandContent, CommandPayload, CommandResponsePayload, Payload, received,
  no_payload, query_device, forward_log, command_response, MqttMessage, MqttResponse,
}

module _ {fl : Floats} where
  -- an integer, which is read back as it is, or as the float64 that is nearest
  abbrev pub integer : ℤ → Json fl
  integer n = num (record { float = fl.of_int64 n; integer = some n })

  -- The value is left out where it is empty.
  unfoldable pub encode_content : CommandContent → Json fl
  encode_content c = object (
      field "northDeviceName" (str c.north_device_name) (
        field "northResourceName" (str c.north_resource_name) (
          if c.north_resource_value == ""
          then end
          else field "northResourceValue" (str c.north_resource_value) end)))

  unfoldable pub encode_command : CommandPayload → Json fl
  unfolding encode_content
  encode_command p =
      object
        (field "cmdType" (str p.cmd_type) (field "cmdContent" (encode_content p.cmd_content) end))

  unfoldable pub encode_command_response : CommandResponsePayload → Json fl
  unfolding encode_content
  encode_command_response p = object (
      field "cmdType" (str p.cmd_type) (
        field "statusCode" (integer p.status_code)
          (field "cmdContent" (encode_content p.cmd_content) end)))

  abbrev pub encode_query : QueryDevicePayload → Json fl
  encode_query p = object (field "cmd" (str p.cmd) end)

-- `again` is how a float64 is written and read back, and `marshal` is how a value is written, which
-- fails for a NaN and an infinity.
module _ {fl : Floats} (again : fl.F64 → Number fl) (marshal : Value fl → Option (Json fl)) where
  unfoldable pub encode_data : Dict String (Value fl) → Option (Fields fl)
  encode_data [] = some end
  encode_data ((key, v) ∷ m) = do j ← marshal v; fs ← encode_data m; some (field key j fs)

  unfoldable pub encode_forward_log : ForwardLogPayload fl → Option (Json fl)
  unfolding encode_data
  encode_forward_log p = do
    fs ← encode_data p.data'
    some (
        object (
          field "status" (integer (pos p.status))
            (field "northDeviceName" (str p.north_device_name) (field "data" (object fs) end))))

  -- the tree that a `Payload` field is written as
  unfoldable pub tree_of : Payload fl → Option (Json fl)
  unfolding encode_forward_log encode_command_response
  tree_of (received j) = some (rewrite again j)
  tree_of no_payload = some null
  tree_of (query_device p) = some (encode_query p)
  tree_of (forward_log p) = encode_forward_log p
  tree_of (command_response p) = some (encode_command_response p)

  -- MQTTMessage.ToJSON and MQTTResponse.ToJSON
  unfoldable pub message_to_json : MqttMessage fl → Option (Json fl)
  unfolding tree_of
  message_to_json m = do
    payload ← tree_of m.payload
    some (
        object (
          field "requestId" (str m.request_id) (
            field "version" (str m.version) (
              field "type" (integer m.msg_type)
                (field "timestamp" (integer m.timestamp) (field "payload" payload end))))))

  unfoldable pub response_to_json : MqttResponse fl → Option (Json fl)
  unfolding tree_of
  response_to_json r = do
    payload ← tree_of r.payload
    some (
        object (
          field "requestId" (str r.request_id) (
            field "version" (str r.version) (
              field "type" (integer r.msg_type) (
                field "timestamp" (integer r.timestamp) (
                  field "code" (integer r.code)
                    (field "msg" (str r.msg) (field "payload" payload end))))))))
