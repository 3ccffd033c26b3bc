-- ===== src/ForwardLog/Queue.antt =====
-- The queue of the forward log: no entry is lost, doubled or overtaken.
use app_modbus_go.Prelude.{
  ℕ, ◌≡◌, ◌≤◌, ◌<◌, ◌⊎◌, inl, inr, refl, sym, ◌∙◌, Bool, true, none, some, List, [], ◌∷◌, ◌++◌,
  arith, length, Option-cases,
}
use mathlib.Core.Option.{none-ne-some}
use mathlib.Core.Path.{subst}
use mathlib.Core.List.{append_assoc, append-nil}
use app_modbus_go.Value.{Floats}
use app_modbus_go.ForwardLog.{LogEntry, Manager, new_manager, Event, step, run}
use app_modbus_go.ForwardLog.Steps.{in_hand, one_added, added, deliver, Keeps, step-Keeps, reaches}

module _ {fl : Floats} (publish : ℕ → Bool) (has_client : Bool) where
  pub run-step :
      (e : Event fl) (es : List (Event fl)) (m m₁ : Manager fl)
      → step publish e m ≡ some m₁
      → run publish (e ∷ es) m ≡ run publish es m₁
  unfolding run
  run-step e es m m₁ goes = rw (run, goes) refl

  run-stuck :
      (e : Event fl) (es : List (Event fl)) (m : Manager fl)
      → step publish e m ≡ none
      → run publish (e ∷ es) m ≡ none
  unfolding run
  run-stuck e es m stops = rw (run, stops) refl

  pub run-Keeps :
      (events : List (Event fl)) (all : List (LogEntry fl)) (m m' : Manager fl)
      → Keeps publish has_client all m
      → run publish events m ≡ some m'
      → Keeps publish has_client (all ++ added events) m'
  unfolding run
  run-Keeps [] all m m' k h =
      subst (λ xs. Keeps publish has_client xs m') (sym (append-nil all))
        (reaches publish has_client h refl k)
  run-Keeps (e ∷ events) all m m' k h = elim (Option-cases (step publish e m)) [
    | inl stops ↦ absurd (none-ne-some m' (sym (run-stuck e events m stops) ∙ h))
    | inr (m₁, goes) ↦
        subst (λ xs. Keeps publish has_client xs m') (append_assoc all (one_added e) (added events))
          (run-Keeps events (all ++ one_added e) m₁ m'
            (step-Keeps publish has_client all m m₁ k e goes)
            (sym (run-step e events m m₁ goes) ∙ h))
  ]

  pub start-Keeps :
      (events : List (Event fl)) (m : Manager fl)
      → run publish events (new_manager has_client) ≡ some m
      → Keeps publish has_client (added events) m
  unfolding new_manager
  start-Keeps events m h =
      run-Keeps events [] (new_manager has_client) m
        (record {
          handled = [];
          order = refl;
          log = refl;
          woken = λ big. absurd (omega arith);
          client = refl;
          retries = refl;
          batch = refl;
        })
        h

  -- From a new manager on, whatever calls, signals, wakes and answers of the broker come, and in
  -- whatever order, the entries added so far are, in their order: those that have been handled,
  -- those that the goroutine has in hand, and the queue; the calls of Publish are those for the
  -- entries handled, one entry after the other; and where ten entries or more are queued, the
  -- goroutine's wake is pending, or a caller is about to signal it.
  pub run_lem :
      (events : List (Event fl)) (m : Manager fl)
      → run publish events (new_manager has_client) ≡ some m
      → (handled : List (LogEntry fl)) × (handled ++ (in_hand m.worker ++ m.queue) ≡ added events)
        × (m.attempts ≡ deliver publish has_client 0 handled)
        × (10 ≤ length m.queue → (m.flush_pending ≡ true) ⊎ (0 < m.signalling))
  run_lem events m h = let k = start-Keeps events m h in (k.handled, k.order, k.log, k.woken)
