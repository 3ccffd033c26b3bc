-- ===== src/Tests/Messaging.antt =====
-- The theorems on the MQTT client and its messages at sample messages.
use mathlib.Core.List.{Memᴰ}
use app_modbus_go.Prelude.{arith, ◌≡◌, refl, Bool, true, false, Option, none, some, List, [], ◌∷◌}
use app_modbus_go.Prelude.Int.{pos, ℤ_eq}
use app_modbus_go.Prelude.Eq.{String_eq}
use app_modbus_go.Prelude.Dict.{lookup, insert, erase}
use app_modbus_go.Value.{Value}
use app_modbus_go.Json.{Json, null, rewrite, decode_any}
use app_modbus_go.Message.{
  QueryDeviceResponse, MqttMessage, MqttResponse, received, no_payload, new_message, type_heartbeat,
  type_query_device,
}
use app_modbus_go.Message.Encode.{tree_of, message_to_json, response_to_json}
use app_modbus_go.Message.Extract.{get_query_device_response}
use app_modbus_go.Message.Devices.{encode_devices, get_query_device_response_lem}
use app_modbus_go.Client.{ClientManager, to_response_handler, to_message_handler, on_message}
use app_modbus_go.Client.Routing.{on_message-response, on_message-message}
use app_modbus_go.Client.Requests.{
  answered, waiting, Request, Requests, Event, request, published, receive, time_out, arrive, send,
  delete, no_requests, start_request, step_published, step_arrive, step_send, step_receive,
  step_delete, step_time_out, fill, step, run,
}
use app_modbus_go.Client.Requests.Consistency.{Awaited}
use app_modbus_go.Client.Requests.Matching.{answered_lem, pending_lem}
use app_modbus_go.Client.Requests.Waiting.{exchange_lem}
use app_modbus_go.Tests.{toy, plc, again, marshal, numbers}

abbrev response : MqttResponse toy
response = record {
  request_id = "a";
  version = "1.0";
  msg_type = type_query_device;
  timestamp = pos 5;
  code = pos 200;
  msg = "success";
  payload = no_payload;
}

-- a call that was published
abbrev asking : List (Event toy)
asking = request "a" ∷ published 0 ∷ []

-- its answer
abbrev answering : List (Event toy)
answering = request "a" ∷ published 0 ∷ arrive response ∷ send 0 ∷ delete 0 ∷ receive 0 ∷ []

abbrev after : List (Event toy) → Requests toy
unfolding run
after events = elim (run events no_requests) [ none ↦ no_requests | some s ↦ s ]

abbrev asked : Request toy
asked = record { request_id = "a"; phase = waiting; buffer = none }

answered_lem_example : response.request_id ≡ "a"
unfolding run step start_request step_published step_arrive step_send step_receive step_delete fill
    no_requests lookup insert erase
answered_lem_example =
    answered_lem answering (after answering) 0 (record asked { phase = answered response }) response
      refl refl refl

pending_lem_example :
    (r : Request toy) × ((after asking).requests 0 ≡ some r)
    × (r.request_id ≡ "a")
    × Awaited (after asking) "a" r
unfolding run step start_request step_published no_requests lookup insert
pending_lem_example = pending_lem asking (after asking) "a" 0 refl refl

-- another call of the same id, which times out
abbrev meanwhile : List (Event toy)
meanwhile = request "a" ∷ published 1 ∷ time_out 1 ∷ []

exchange_lem_example :
    (s'' : Requests toy) × (r'' : Request toy) × (x : MqttResponse toy) × (run
        (send 0 ∷ receive 0 ∷ [])
        (after (request "a" ∷ published 0 ∷ arrive response ∷ meanwhile))
      ≡ some s'')
    × (s''.requests 0 ≡ some r'')
    × (r''.request_id ≡ "a")
    × (r''.phase ≡ answered x)
    × (x.request_id ≡ "a")
    × Memᴰ (arrive x) (request "a" ∷ published 0 ∷ arrive response ∷ meanwhile)
unfolding run step start_request step_published step_time_out step_arrive no_requests lookup insert
    erase
exchange_lem_example =
    exchange_lem asking meanwhile (after asking)
      (after (request "a" ∷ published 0 ∷ arrive response ∷ meanwhile)) 0 asked response refl refl
      refl refl refl refl

abbrev client : ClientManager Bool Bool
client = record {
  node_id = "node";
  topic_up = "up";
  topic_down = "down";
  message_handlers = (type_heartbeat, true) ∷ [];
  response_handlers = (type_query_device, false) ∷ [];
  pending_requests = ("b", 3) ∷ [];
  heartbeat_stop = none;
  has_client = true;
}

abbrev tree : Option (Json toy) → Json toy
tree none = null
tree (some j) = j

on_message-response_example :
    on_message (some (tree (response_to_json again marshal response))) client
    ≡ to_response_handler false (record response { payload = received null })
unfolding response_to_json tree_of lookup
on_message-response_example =
    on_message-response again marshal client response
      (tree (response_to_json again marshal response)) null refl refl refl

abbrev beat : MqttMessage toy
unfolding new_message
beat = new_message "b" (pos 9) type_heartbeat no_payload

on_message-message_example :
    on_message (some (tree (message_to_json again marshal beat))) client
    ≡ to_message_handler true (record beat { payload = received null })
unfolding message_to_json tree_of lookup new_message
on_message-message_example =
    on_message-message again marshal client beat (tree (message_to_json again marshal beat)) null
      refl refl

abbrev put : Value toy → Json toy
put v = null

abbrev devices : QueryDeviceResponse toy
devices = record { cmd = "0101"; result = some plc ∷ none ∷ [] }

get_query_device_response_lem_example :
    get_query_device_response again marshal
      (λ j. 0)
      (record response { payload = received (encode_devices again put devices) })
    ≡ some devices
unfolding decode_any rewrite
get_query_device_response_lem_example =
    get_query_device_response_lem again put (λ j. 0) numbers marshal
      (record response { payload = received (encode_devices again put devices) }) devices
      (((omega arith, refl), ((omega arith, tt), tt)), (tt, tt)) refl refl
