-- ===== src/Client.antt =====
-- The MQTT client (internal/pkg/mqtt/client.go): where a text that arrives goes, the heartbeat, and
-- the requests that wait for their response. The paho client is not modelled: whether a connection,
-- a subscription or a Publish succeeds is an argument. Logging is left out.
pub mod Requests
pub mod Routing
use Prim.Native.String.{◌++◌}
use app_modbus_go.Prelude.{
  ◌*◌, ◌^◌, ℕ, zero, suc, ◌+◌, String, Bool, true, false, Option, none, some, List, [], ◌∷◌,
  if◌then◌else◌, ◌&&◌,
}
use app_modbus_go.Prelude.Int.{pos_part, wrap_signed, ℤ, pos, eqb_ℤ, ltb_ℤ, ℤ_eq}
use app_modbus_go.Prelude.Eq.{ℕ_eq, String_eq, ◌==◌}
use app_modbus_go.Prelude.Dict.{Dict, lookup, insert, erase}
use app_modbus_go.Value.{Floats, Value}
use app_modbus_go.Run.{Run, returned, panicked, ◌>>=◌}
use app_modbus_go.Json.{Json, Number}
use app_modbus_go.Message.Encode.{message_to_json, response_to_json}
use app_modbus_go.Message.{
  MqttMessage, MqttResponse, parse_message, parse_response, new_message, no_payload, type_heartbeat,
}

pub record ClientConfig : Type 0 where
  pub broker : String
  pub client_id : String
  pub username : String
  pub password : String
  pub qos : ℕ
  pub keep_alive : ℤ

-- The options of the paho client that depend on the configuration; `none` is left as paho has it.
pub record ClientOptions : Type 0 where
  pub broker : String
  pub client_id : String
  pub username : Option String
  pub password : Option String
  -- in nanoseconds
  pub keep_alive : Option ℤ

-- `time.Duration(n) * time.Second` of a positive number, an int64
unfoldable pub seconds : ℕ → ℤ
seconds n = wrap_signed (2 ^ 64) (pos (n * 1000000000))

abbrev pub unless_empty : String → Option String
unless_empty s = if s == "" then none else some s

unfoldable pub client_options : ClientConfig → ClientOptions
unfolding seconds
client_options cfg = record {
  broker = cfg.broker;
  client_id = cfg.client_id;
  username = unless_empty cfg.username;
  password = unless_empty cfg.password;
  keep_alive =
      if ltb_ℤ (pos 0) cfg.keep_alive then some (seconds (pos_part cfg.keep_alive)) else none;
}

-- A client with handlers of two types. A channel of a pending request is its number.
pub record ClientManager (M R : Type 0) : Type 0 where
  pub node_id : String
  pub topic_up : String
  pub topic_down : String
  pub message_handlers : Dict ℤ M
  pub response_handlers : Dict ℤ R
  pub pending_requests : Dict String ℕ
  -- `heartbeatStop`: nil, or whether it is closed
  pub heartbeat_stop : Option Bool
  -- whether `client` is not nil
  pub has_client : Bool

module _ {M R : Type 0} where
  unfoldable pub new_client_manager : String → ClientManager M R
  new_client_manager node_id = record {
    node_id = node_id;
    topic_up = "/v1/data/" ++ (node_id ++ "/up");
    topic_down = "/v1/data/" ++ (node_id ++ "/down");
    message_handlers = [];
    response_handlers = [];
    pending_requests = [];
    heartbeat_stop = none;
    has_client = false;
  }

  unfoldable pub register_message_handler : ℤ → M → ClientManager M R → ClientManager M R
  register_message_handler msg_type handler c = record c {
    message_handlers = insert msg_type handler c.message_handlers;
  }

  unfoldable pub register_response_handler : ℤ → R → ClientManager M R → ClientManager M R
  register_response_handler msg_type handler c = record c {
    response_handlers = insert msg_type handler c.response_handlers;
  }

  -- Connect, and whether it returns no error: where a connection with these options is accepted
  unfoldable pub connect :
      (ClientOptions → Bool) → ClientConfig → ClientManager M R → ClientManager M R × Bool
  unfolding client_options
  connect accepts cfg c = (record c { has_client = true }, accepts (client_options cfg))

  -- StartHeartbeat: its goroutine panics where the interval is not positive.
  unfoldable pub start_heartbeat : ℤ → ClientManager M R → Run (ClientManager M R)
  start_heartbeat interval c =
      if ltb_ℤ (pos 0) interval
      then returned (record c { heartbeat_stop = some false })
      else panicked

  -- StopHeartbeat: a second one closes a closed channel.
  unfoldable pub stop_heartbeat : ClientManager M R → Run (ClientManager M R)
  stop_heartbeat c = elim c.heartbeat_stop [
    | none ↦ returned c
    | some closed ↦ if closed then panicked else returned (record c { heartbeat_stop = some true })
  ]

  -- Disconnect, and whether it disconnects the client, which is connected or not
  unfoldable pub disconnect : Bool → ClientManager M R → Run (ClientManager M R × Bool)
  unfolding stop_heartbeat
  disconnect connected c = do c' ← stop_heartbeat c; returned (c', c'.has_client && connected)

  -- IsConnected
  unfoldable pub is_connected : Bool → ClientManager M R → Bool
  is_connected connected c = c.has_client && connected

-- How Publish and PublishResponse end: with the text that the broker took, or with an error.
pub data Published (fl : Floats) : Type 0 where
  sent : Json fl → Published fl
  not_serialized not_sent : Published fl

module _ {fl : Floats} (again : fl.F64 → Number fl) (marshal : Value fl → Option (Json fl))
    (takes : Json fl → Bool) where
  abbrev pub hand_over : Option (Json fl) → Published fl
  hand_over none = not_serialized
  hand_over (some j) = if takes j then sent j else not_sent

  unfoldable pub publish : MqttMessage fl → Published fl
  publish m = hand_over (message_to_json again marshal m)

  unfoldable pub publish_response : MqttResponse fl → Published fl
  publish_response r = hand_over (response_to_json again marshal r)

-- What wakes the goroutine of StartHeartbeat.
pub data Beat : Type 0 where
  tick stopped : Beat

-- How many heartbeats it sends: one at once, and one at each tick.
unfoldable pub beats : List Beat → ℕ
beats [] = 1
beats (stopped ∷ bs) = 1
beats (tick ∷ bs) = suc (beats bs)

-- the message of sendHeartbeat
unfoldable pub heartbeat : {fl : Floats} → String → ℤ → MqttMessage fl
unfolding new_message
heartbeat id now = new_message id now type_heartbeat no_payload

-- Where onMessage takes a text.
pub data Routed (fl : Floats) (M R : Type 0) : Type 0 where
  to_request : ℕ → MqttResponse fl → Routed fl M R
  to_response_handler : R → MqttResponse fl → Routed fl M R
  to_message_handler : M → MqttMessage fl → Routed fl M R
  unhandled_response unhandled_message unreadable : Routed fl M R

module _ {fl : Floats} {M R : Type 0} where
  -- the part of onMessage for a response
  unfoldable pub route_response : MqttResponse fl → ClientManager M R → Routed fl M R
  route_response resp c = elim (lookup resp.request_id c.pending_requests) [
    | some ch ↦ to_request ch resp
    | none ↦ elim (lookup resp.msg_type c.response_handlers) [
      | some handler ↦ to_response_handler handler resp
      | none ↦ unhandled_response
    ]
  ]

  -- its part for a message
  unfoldable pub route_message : Json fl → ClientManager M R → Routed fl M R
  route_message j c = elim (parse_message j) [
    | none ↦ unreadable
    | some m ↦ elim (lookup m.msg_type c.message_handlers) [
      | some handler ↦ to_message_handler handler m
      | none ↦ unhandled_message
    ]
  ]

  -- onMessage: `none` is a text that is no JSON.
  unfoldable pub on_message : Option (Json fl) → ClientManager M R → Routed fl M R
  unfolding route_response route_message
  on_message none c = unreadable
  on_message (some j) c = elim (parse_response j) [
    | none ↦ route_message j c
    | some resp ↦ if eqb_ℤ resp.code (pos 0) then route_message j c else route_response resp c
  ]
