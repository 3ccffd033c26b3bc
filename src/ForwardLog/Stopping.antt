-- ===== src/ForwardLog/Stopping.antt =====
-- Stop: the last flush ends, and every entry queued by then has been handled.
use app_modbus_go.Prelude.{
  ℕ, suc, ◌≡◌, refl, sym, ap, ◌∙◌, Bool, true, some, List, [], ◌∷◌, ◌++◌, length, replicate,
}
use mathlib.Core.List.{append-nil}
use app_modbus_go.Value.{Floats}
use app_modbus_go.ForwardLog.{
  LogEntry, waiting, closing, finished, Manager, new_manager, Event, stop_wake, send, take_queue,
  step, run, send_log_entry,
}
use app_modbus_go.ForwardLog.Steps.{in_hand, added, deliver}
use app_modbus_go.ForwardLog.Queue.{start-Keeps, run-step, run-Keeps}

-- the rounds of the last flush
abbrev pub last_rounds : {fl : Floats} → List (LogEntry fl) → List (Event fl)
last_rounds es = replicate (suc (length es)) send

module _ {fl : Floats} (publish : ℕ → Bool) (has_client : Bool) where
  added-last_rounds : (es : List (LogEntry fl)) → added (last_rounds es) ≡ []
  added-last_rounds [] = refl
  added-last_rounds (e ∷ es) = added-last_rounds es

  drain :
      (es : List (LogEntry fl)) (m : Manager fl)
      → m.worker ≡ closing es
      → (m' : Manager fl) × (run publish (last_rounds es) m ≡ some m')
        × (m'.worker ≡ finished)
        × (m'.queue ≡ m.queue)
  unfolding run step
  drain [] m e = (record m { worker = finished }, rw e refl, refl, refl)
  drain (x ∷ es) m e =
      let m₁ = record m {
        worker = closing es;
        attempts =
            m.attempts ++ send_log_entry publish m.has_client m.max_retries (length m.attempts) x;
      } in
      let (m', rest, done, queue) = drain es m₁ refl in (m', rw e rest, done, queue)

  wakes :
      (m : Manager fl)
      → m.worker ≡ waiting
      → m.stopped ≡ true
      → step publish stop_wake m ≡ some (take_queue closing m)
  unfolding step
  wakes m w s = rw (w, s) refl

  -- Once Stop is called and the goroutine is back at its select, waking for Stop and one round for
  -- each entry queued, and one more, end it, with nothing queued; the calls of Publish are then
  -- those for all the entries added, one after the other in their order.
  pub stop_lem :
      (events : List (Event fl)) (m : Manager fl)
      → run publish events (new_manager has_client) ≡ some m
      → m.worker ≡ waiting
      → m.stopped ≡ true
      → (m' : Manager fl) × (run publish (stop_wake ∷ last_rounds m.queue) m ≡ some m')
        × (m'.worker ≡ finished)
        × (m'.queue ≡ [])
        × (m'.attempts ≡ deliver publish has_client 0 (added events))
  unfolding run step take_queue
  stop_lem events m h w s =
      let (m', rest, done, queue) = drain m.queue (take_queue closing m) refl in
      let closes : run publish (stop_wake ∷ last_rounds m.queue) m ≡ some m' =
        run-step publish has_client stop_wake (last_rounds m.queue) m (take_queue closing m)
          (wakes m w s)
        ∙ rest in
      let k =
        run-Keeps publish has_client (stop_wake ∷ last_rounds m.queue) (added events) m m'
          (start-Keeps publish has_client events m h) closes in
      let all : k.handled ≡ added events =
        sym (append-nil k.handled)
        ∙ ap (λ xs. k.handled ++ xs) (sym (ap (λ w. in_hand w ++ m'.queue) done ∙ queue))
        ∙ k.order
        ∙ ap (λ xs. added events ++ xs) (added-last_rounds m.queue)
        ∙ append-nil (added events) in
      (m', closes, done, queue, k.log ∙ ap (λ es. deliver publish has_client 0 es) all)
