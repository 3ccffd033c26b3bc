-- ===== src/Client/Routing.antt =====
-- Where onMessage (internal/pkg/mqtt/client.go) takes what ToJSON (internal/pkg/mqtt/message.go) wrote.
use app_modbus_go.Prelude.{false, Option, none, some, ◌≡◌, refl}
use app_modbus_go.Prelude.Int.{pos, eqb_ℤ, ℤ_eq}
use app_modbus_go.Prelude.Eq.{String_eq}
use app_modbus_go.Prelude.Dict.{lookup}
use app_modbus_go.Value.{Floats, Value}
use app_modbus_go.Json.{Number, Json}
use app_modbus_go.Message.{MqttMessage, MqttResponse, received, parse_message, parse_response}
use app_modbus_go.Message.Encode.{tree_of, message_to_json, response_to_json}
use app_modbus_go.Message.RoundTrip.{
  parse_message_lem, parse_response_lem, parse_response-message_to_json,
}
use app_modbus_go.Client.{
  ClientManager, to_request, to_response_handler, to_message_handler, unhandled_response,
  unhandled_message, route_response, route_message, on_message,
}

module _ {fl : Floats} {M R : Type 0} (again : fl.F64 → Number fl)
    (marshal : Value fl → Option (Json fl)) (c : ClientManager M R) where
  -- A response that is written with a code other than 0 never reaches a message handler: it goes to
  -- the request that its id is pending for, else to the response handler of its type, else to none.
  pub on_message-response :
      (r : MqttResponse fl) (j p : Json fl)
      → eqb_ℤ r.code (pos 0) ≡ false
      → tree_of again marshal r.payload ≡ some p
      → response_to_json again marshal r ≡ some j
      → let r' = record r { payload = received p } in
        on_message (some j) c ≡ elim (lookup r.request_id c.pending_requests) [
          | some ch ↦ to_request ch r'
          | none ↦ elim (lookup r.msg_type c.response_handlers) [
            | some handler ↦ to_response_handler handler r'
            | none ↦ unhandled_response
          ]
        ]
  unfolding on_message route_response
  on_message-response r j p coded tree written = rw (on_message, read, coded) refl
    where
      read : parse_response j ≡ some (record r { payload = received p })
      read = rw (written, tree) at (parse_response_lem again marshal r)

  -- A message that is written, which has no code, never reaches a pending request or a response
  -- handler, whatever its id: it goes to the message handler of its type, or to none.
  pub on_message-message :
      (m : MqttMessage fl) (j p : Json fl)
      → tree_of again marshal m.payload ≡ some p
      → message_to_json again marshal m ≡ some j
      → on_message (some j) c ≡ elim (lookup m.msg_type c.message_handlers) [
        | some handler ↦ to_message_handler handler (record m { payload = received p })
        | none ↦ unhandled_message
      ]
  unfolding on_message route_message
  on_message-message m j p tree written = rw (on_message, uncoded) (rw (route_message, read) refl)
    where
      uncoded :
          parse_response j
          ≡ some (record {
            request_id = m.request_id;
            version = m.version;
            msg_type = m.msg_type;
            timestamp = m.timestamp;
            code = pos 0;
            msg = "";
            payload = received p;
          })
      uncoded = rw (written, tree) at (parse_response-message_to_json again marshal m)

      read : parse_message j ≡ some (record m { payload = received p })
      read = rw (written, tree) at (parse_message_lem again marshal m)
