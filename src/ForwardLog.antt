-- ===== src/ForwardLog.antt =====
-- The forward log (internal/pkg/forwardlog/manager.go): a queue of entries that one goroutine sends
-- to the data center. The broker is a parameter: whether its answer to a call of Publish, by the
-- number of the call, is no error. Logging and the waits between two attempts are left out.
pub mod Steps
pub mod Queue
pub mod Retries
pub mod Stopping
use app_modbus_go.Prelude.{
  ℕ, zero, suc, ◌+◌, String, Bool, true, false, Option, none, some, List, [], ◌∷◌, ◌++◌, leb, ltb,
  if◌then◌else◌, length,
}
use app_modbus_go.Prelude.Dict.{Dict}
use app_modbus_go.Value.{Floats, Value}

pub record LogEntry (fl : Floats) : Type 0 where
  pub status : ℕ
  pub north_device_name : String
  pub data' : Dict String (Value fl)
  pub timestamp : ℕ

-- the payload of a message of type TypeForwardLog
pub record ForwardLogPayload (fl : Floats) : Type 0 where
  pub status : ℕ
  pub north_device_name : String
  pub data' : Dict String (Value fl)

-- A call of Publish, and whether it succeeded.
pub data Attempt (fl : Floats) : Type 0 where
  sent failed : ForwardLogPayload fl → Attempt fl

-- Where the goroutine of `run` stands: at its select, in a flush with the entries not sent yet, in the
-- flush of `stopCh`, or past its return.
pub data Worker (fl : Floats) : Type 0 where
  waiting : Worker fl
  sending : List (LogEntry fl) → Worker fl
  closing : List (LogEntry fl) → Worker fl
  finished : Worker fl

pub record Manager (fl : Floats) : Type 0 where
  -- whether `mqttClient` is not nil
  pub has_client : Bool
  pub queue : List (LogEntry fl)
  pub batch_size : ℕ
  pub max_retries : ℕ
  -- whether `stopCh` is closed, and whether `flushCh` holds its one element
  pub stopped : Bool
  pub flush_pending : Bool
  -- how many calls of addEntry have unlocked the queue and not yet tried `flushCh`
  pub signalling : ℕ
  pub worker : Worker fl
  -- all calls of Publish so far
  pub attempts : List (Attempt fl)

-- NewManager, and Start
unfoldable pub new_manager : {fl : Floats} → Bool → Manager fl
new_manager has_client = record {
  has_client = has_client;
  queue = [];
  batch_size = 10;
  max_retries = 3;
  stopped = false;
  flush_pending = false;
  signalling = 0;
  worker = waiting;
  attempts = [];
}

module _ {fl : Floats} (publish : ℕ → Bool) where
  -- the loop of sendLogEntry, from the number of its next call on, with the rounds left
  unfoldable pub send_loop : ℕ → ForwardLogPayload fl → ℕ → List (Attempt fl)
  send_loop call payload zero = []
  send_loop call payload (suc n) =
      let rest = send_loop (call + 1) payload n in
      if publish call then sent payload ∷ [] else failed payload ∷ rest

  unfoldable pub send_log_entry : Bool → ℕ → ℕ → LogEntry fl → List (Attempt fl)
  unfolding send_loop
  send_log_entry has_client max_retries call entry =
      if has_client
      then send_loop call
          (record {
            status = entry.status;
            north_device_name = entry.north_device_name;
            data' = entry.data';
          })
          max_retries
      else []

-- What happens to the manager: a call of LogSuccess or LogFailure, its signal, a call of Stop, the
-- three wakes of the goroutine, and a round of the loop of flush, or its end.
pub data Event (fl : Floats) : Type 0 where
  add : LogEntry fl → Event fl
  signal stop_call stop_wake tick flush_wake send : Event fl

module _ {fl : Floats} where
  -- addEntry up to its unlock
  unfoldable pub add_entry : LogEntry fl → Manager fl → Manager fl
  add_entry entry m =
      let queue = m.queue ++ (entry ∷ []) in
      record m {
        queue = queue;
        signalling = if leb m.batch_size (length queue) then m.signalling + 1 else m.signalling;
      }

  -- the locked part of flush: the queue goes to the goroutine. (flush returns at once on an empty
  -- queue; here it has no round then.)
  unfoldable pub take_queue : (List (LogEntry fl) → Worker fl) → Manager fl → Manager fl
  take_queue to m = record m { queue = []; worker = to m.queue }

  -- One event; `none` where it cannot happen, or, for a second Stop, panics.
  unfoldable pub step : (ℕ → Bool) → Event fl → Manager fl → Option (Manager fl)
  unfolding add_entry take_queue send_log_entry
  step publish (add entry) m = some (add_entry entry m)
  step publish signal m = elim m.signalling [
    | zero ↦ none
    | suc n ↦ some (record m { signalling = n; flush_pending = true })
  ]
  step publish stop_call m = if m.stopped then none else some (record m { stopped = true })
  step publish stop_wake m = elim m.worker [
    | waiting ↦ if m.stopped then some (take_queue closing m) else none
    | sending es ↦ none
    | closing es ↦ none
    | finished ↦ none
  ]
  step publish tick m = elim m.worker [
    | waiting ↦ some (take_queue sending m)
    | sending es ↦ none
    | closing es ↦ none
    | finished ↦ none
  ]
  step publish flush_wake m = elim m.worker [
    | waiting ↦
        if m.flush_pending
        then some (take_queue sending (record m { flush_pending = false }))
        else none
    | sending es ↦ none
    | closing es ↦ none
    | finished ↦ none
  ]
  step publish send m =
      let after = λ (e : LogEntry fl) (w : Worker fl). some (record m {
        worker = w;
        attempts =
            m.attempts ++ send_log_entry publish m.has_client m.max_retries (length m.attempts) e;
      }) in
      elim m.worker [
        | waiting ↦ none
        | sending es ↦ elim es [
          | [] ↦ some (record m { worker = waiting })
          | e ∷ rest ↦ after e (sending rest)
        ]
        | closing es ↦ elim es [
          | [] ↦ some (record m { worker = finished })
          | e ∷ rest ↦ after e (closing rest)
        ]
        | finished ↦ none
      ]

  unfoldable pub run : (ℕ → Bool) → List (Event fl) → Manager fl → Option (Manager fl)
  run publish [] m = some m
  run publish (e ∷ es) m = elim (step publish e m) [ none ↦ none | some m' ↦ run publish es m' ]
