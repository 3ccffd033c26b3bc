-- ===== src/Client/Requests.antt =====
-- PublishAndWait against onMessage (internal/pkg/mqtt/client.go) as a machine of events: the calls, which
-- are numbered like their channels, and the deliveries of responses by onMessage, each of which
-- looks a channel up, sends on it and deletes the request in three steps.
pub mod Consistency
pub mod Steps
pub mod Matching
pub mod Progress
pub mod Stages
pub mod Handover
pub mod Origin
pub mod Waiting
use app_modbus_go.Prelude.{
  ℕ, zero, suc, ◌+◌, String, Bool, true, false, Option, none, some, List, [], ◌∷◌, if◌then◌else◌,
  ltb,
}
use app_modbus_go.Prelude.Eq.{ℕ_eq, String_eq, ◌==◌}
use app_modbus_go.Prelude.Dict.{Dict, lookup, insert, erase}
use app_modbus_go.Value.{Floats}
use app_modbus_go.Message.{MqttResponse}

-- Where a call stands: in Publish, at its select, or past its return: with a response, at its
-- timeout, or with the error of Publish.
pub data Phase (fl : Floats) : Type 0 where
  publishing waiting timed_out failed : Phase fl
  answered : MqttResponse fl → Phase fl

-- A call with the request id of its message, and what its channel, of capacity 1, holds.
pub record Request (fl : Floats) : Type 0 where
  pub request_id : String
  pub phase : Phase fl
  pub buffer : Option (MqttResponse fl)

-- Where a delivery stands: before its send on a channel, before its delete, or past both.
pub data Delivery (fl : Floats) : Type 0 where
  sending : ℕ → MqttResponse fl → Delivery fl
  deleting : String → Delivery fl
  delivered : Delivery fl

pub record Requests (fl : Floats) : Type 0 where
  pub pending : Dict String ℕ
  -- by its number, `none` where there is no such call or delivery yet
  pub requests : ℕ → Option (Request fl)
  pub next_request : ℕ
  pub deliveries : ℕ → Option (Delivery fl)
  pub next_delivery : ℕ

pub data Event (fl : Floats) : Type 0 where
  -- PublishAndWait of a message with this id, up to its Publish
  request : String → Event fl
  -- Publish returns, without an error or with one
  published publish_failed : ℕ → Event fl
  -- the two cases of the select
  receive time_out : ℕ → Event fl
  -- onMessage with a response whose code is not 0, up to its lookup; the send; the delete
  arrive : MqttResponse fl → Event fl
  send delete : ℕ → Event fl

-- a function with one value replaced
abbrev pub update : {A : Type 0} → (ℕ → A) → ℕ → A → ℕ → A
update f k a i = if k == i then a else f i

module _ {fl : Floats} where
  unfoldable pub no_requests : Requests fl
  no_requests = record {
    pending = [];
    requests = λ i. none;
    next_request = 0;
    deliveries = λ i. none;
    next_delivery = 0;
  }

  abbrev pub set_request : ℕ → Request fl → Requests fl → Requests fl
  set_request k r s = record s { requests = update s.requests k (some r) }

  unfoldable pub start_request : String → Requests fl → Requests fl
  start_request id s = record s {
    pending = insert id s.next_request s.pending;
    requests =
        update s.requests s.next_request
          (some (record { request_id = id; phase = publishing; buffer = none }));
    next_request = suc s.next_request;
  }

  -- The events of a call, at its phase. Both errors delete the request.
  unfoldable pub step_published : ℕ → Request fl → Phase fl → Requests fl → Option (Requests fl)
  step_published k r publishing s = some (set_request k (record r { phase = waiting }) s)
  step_published k r _ s = none

  unfoldable pub step_publish_failed :
      ℕ → Request fl → Phase fl → Requests fl → Option (Requests fl)
  step_publish_failed k r publishing s =
      some (record (set_request k (record r { phase = failed }) s) {
        pending = erase r.request_id s.pending;
      })
  step_publish_failed k r _ s = none

  unfoldable pub step_time_out : ℕ → Request fl → Phase fl → Requests fl → Option (Requests fl)
  step_time_out k r waiting s = some (record (set_request k (record r { phase = timed_out }) s) {
    pending = erase r.request_id s.pending;
  })
  step_time_out k r _ s = none

  unfoldable pub step_receive :
      ℕ → Request fl → Phase fl → Option (MqttResponse fl) → Requests fl → Option (Requests fl)
  step_receive k r waiting (some resp) s =
      some (set_request k (record r { phase = answered resp; buffer = none }) s)
  step_receive k r _ _ s = none

  -- The lookup of onMessage: without a pending request the response is no one's here.
  unfoldable pub step_arrive : MqttResponse fl → Requests fl → Requests fl
  step_arrive resp s = elim (lookup resp.request_id s.pending) [
    | none ↦ s
    | some ch ↦ record s {
      deliveries = update s.deliveries s.next_delivery (some (sending ch resp));
      next_delivery = suc s.next_delivery;
    }
  ]

  -- The send, which a full channel drops.
  unfoldable pub fill : MqttResponse fl → Request fl → Request fl
  fill resp r = elim r.buffer [ none ↦ record r { buffer = some resp } | some old ↦ r ]

  unfoldable pub step_send : ℕ → Option (Delivery fl) → Requests fl → Option (Requests fl)
  unfolding fill
  step_send i (some (sending ch resp)) s = elim (s.requests ch) [
    | none ↦ none
    | some r ↦ some (record (set_request ch (fill resp r) s) {
      deliveries = update s.deliveries i (some (deleting resp.request_id));
    })
  ]
  step_send i _ s = none

  unfoldable pub step_delete : ℕ → Option (Delivery fl) → Requests fl → Option (Requests fl)
  step_delete i (some (deleting id)) s = some (record s {
    pending = erase id s.pending;
    deliveries = update s.deliveries i (some delivered);
  })
  step_delete i _ s = none

  -- An event of a call, which is none where there is no such call.
  abbrev pub at_request :
      Option (Request fl) → (Request fl → Option (Requests fl)) → Option (Requests fl)
  at_request none next = none
  at_request (some r) next = next r

  -- One event; `none` where it cannot happen.
  unfoldable pub step : Event fl → Requests fl → Option (Requests fl)
  unfolding start_request step_published step_publish_failed step_receive step_time_out step_arrive
      step_send step_delete
  step (request id) s = some (start_request id s)
  step (published k) s = at_request (s.requests k) (λ r. step_published k r r.phase s)
  step (publish_failed k) s = at_request (s.requests k) (λ r. step_publish_failed k r r.phase s)
  step (receive k) s = at_request (s.requests k) (λ r. step_receive k r r.phase r.buffer s)
  step (time_out k) s = at_request (s.requests k) (λ r. step_time_out k r r.phase s)
  step (arrive resp) s = some (step_arrive resp s)
  step (send i) s = step_send i (s.deliveries i) s
  step (delete i) s = step_delete i (s.deliveries i) s

  unfoldable pub run : List (Event fl) → Requests fl → Option (Requests fl)
  run [] s = some s
  run (e ∷ es) s = elim (step e s) [ none ↦ none | some s' ↦ run es s' ]
