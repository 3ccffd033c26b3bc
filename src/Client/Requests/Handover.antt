-- ===== src/Client/Requests/Handover.antt =====
-- How a response gets from one stage to the next, event by event, and that what is left can be done
-- (PublishAndWait and onMessage, internal/pkg/mqtt/client.go).
use mathlib.Core.Option.{none-ne-some, some-injective}
use mathlib.Core.Path.{subst}
use app_modbus_go.Prelude.{
  ℕ, ◌≡◌, refl, sym, ap, ◌∙◌, inl, inr, String, true, false, none, some, List, [], ◌∷◌, ==_iff,
  arith, Bool-cases, Option-cases,
}
use app_modbus_go.Prelude.Eq.{ℕ_eq, String_eq}
use app_modbus_go.Value.{Floats}
use app_modbus_go.Client.Requests.{
  waiting, answered, Request, deleting, Requests, Event, receive, time_out, send, update,
  set_request, step_receive, step_send, fill, step, run,
}
use app_modbus_go.Client.Requests.Consistency.{Consistent, update-same}
use app_modbus_go.Client.Requests.Matching.{step-Consistent}
use app_modbus_go.Client.Requests.Progress.{of_call, step-Keeps, while_waiting, no_second_return}
use app_modbus_go.Client.Requests.Stages.{
  Stage, unsent, held, returned, is_send, step-sending, advance, left_over, Holds, times_out,
  ends_late, stage_after, advance_unsent, advance_held, advance_returned, sends_it,
}

module _ {fl : Floats} (k n : ℕ) where
  module _ (id : String) where
    -- The send of the delivery, and the select of a call whose channel holds a response.
    send-Holds :
        (s : Requests fl)
        → Holds k n id unsent s
        → (s' : Requests fl) × (step (send n) s ≡ some s') × Holds k n id held s'
    unfolding step step_send fill
    send-Holds s (r, x, (at, named, waits), to_send) =
        let s' : Requests fl = record (set_request k (fill x r) s) {
          deliveries = update s.deliveries n (some (deleting x.request_id));
        } in
        (
          s',
          rw (step, to_send) (rw (step_send, at) refl),
          elim (Option-cases r.buffer) [
            | inl empty ↦ (
              fill x r,
              x,
              (
                update-same s.requests k (some (fill x r)),
                rw (fill, empty) named,
                rw (fill, empty) waits,
              ),
              rw (fill, empty) refl,
            )
            | inr (old, full) ↦ (
              fill x r,
              old,
              (
                update-same s.requests k (some (fill x r)),
                rw (fill, full) named,
                rw (fill, full) waits,
              ),
              rw (fill, full) full,
            )
          ],
        )

    receive-Holds :
        (s : Requests fl)
        → Holds k n id held s
        → (s' : Requests fl) × (step (receive k) s ≡ some s') × Holds k n id returned s'
    unfolding step step_receive
    receive-Holds s (r, x, (at, named, waits), full) =
        let q : Request fl = record r { phase = answered x; buffer = none } in
        (
          set_request k q s,
          rw (step, at) (rw (step_receive, waits, full) refl),
          (q, x, (update-same s.requests k (some q), named, refl)),
        )

    -- What is left to do can be done, and ends in the return.
    pub finish :
        (st : Stage) (s : Requests fl)
        → Holds k n id st s
        → (s' : Requests fl) × (run (left_over k n st) s ≡ some s') × Holds k n id returned s'
    unfolding run
    finish unsent s h =
        let (s₁, first, h₁) = send-Holds s h in
        let (s₂, second, h₂) = receive-Holds s₁ h₁ in
        (s₂, rw (run, first) (rw (run, second) refl), h₂)
    finish held s h = let (s₁, first, h₁) = receive-Holds s h in (s₁, rw (run, first) refl, h₁)
    finish returned s h = (s, refl, h)

    -- An event of the call while it waits is its return with what its channel holds.
    own-Holds :
        (e : Event fl) (st : Stage) (s s' : Requests fl) (r : Request fl)
        → s.requests k ≡ some r
        → r.request_id ≡ id
        → r.phase ≡ waiting
        → of_call k e ≡ true
        → times_out k e ≡ false
        → step e s ≡ some s'
        → Holds k n id (advance k n e st) s'
    own-Holds e st s s' r at named waits own in_time h =
        elim (while_waiting k s s' r at e waits own h) [
          | inl (it, (x, full, at')) ↦
              subst (λ e'. Holds k n id (advance k n e' st) s') (sym it)
                (rw ((==_iff k k).1 refl)
                  (record r { phase = answered x; buffer = none }, x, (at', named, refl)))
          | inr late ↦ absurd (too_late (ap (times_out k) (sym late) ∙ in_time))
        ]
      where
        too_late : times_out {fl = fl} k (time_out k) ≡ false → ⊥
        too_late e' = cc ((==_iff k k).1 refl)

    -- Each event but the timeout of the call takes the response from a stage to the next.
    step-Holds :
        (e : Event fl) (st : Stage) (s s' : Requests fl)
        → Consistent s
        → times_out k e ≡ false
        → step e s ≡ some s'
        → Holds k n id st s
        → Holds k n id (advance k n e st) s'
    step-Holds e unsent s s' c in_time h (r, x, (at, named, waits), to_send) =
        elim (Bool-cases (of_call k e)) [
          | inl own ↦ own-Holds e unsent s s' r at named waits own in_time h
          | inr other ↦ elim (Bool-cases (is_send n e)) [
            | inl it ↦
                let sent = send-Holds s (r, x, (at, named, waits), to_send) in
                let same : sent.0 ≡ s' =
                  some-injective sent.0 s'
                    (sym sent.1 ∙ ap (λ z. step z s) (sym (sends_it k n e it)) ∙ h) in
                subst (λ z. Holds k n id (advance k n z unsent) s') (sym (sends_it k n e it))
                  (rw ((==_iff n n).1 refl) (subst (Holds k n id held) same sent.2))
            | inr apart ↦
                let kept = step-Keeps k e r s s' c at other h in
                subst (λ z. Holds k n id z s') (sym (advance_unsent k n e other apart))
                  (
                    kept.now,
                    x,
                    (kept.at, kept.id ∙ named, kept.phase ∙ waits),
                    step-sending n e k x s s' c to_send apart h,
                  )
          ]
        ]
    step-Holds e held s s' c in_time h (r, x, (at, named, waits), full) =
        elim (Bool-cases (of_call k e)) [
          | inl own ↦ own-Holds e held s s' r at named waits own in_time h
          | inr other ↦
              let kept = step-Keeps k e r s s' c at other h in
              subst (λ z. Holds k n id z s') (sym (advance_held k n e other))
                (kept.now, x, (kept.at, kept.id ∙ named, kept.phase ∙ waits), kept.full x full)
        ]
    step-Holds e returned s s' c in_time h (r, x, (at, named, done)) =
        elim (Bool-cases (of_call k e)) [
          | inl own ↦ absurd (no_second_return k s s' r at e x done own h)
          | inr other ↦
              let kept = step-Keeps k e r s s' c at other h in
              subst (λ z. Holds k n id z s') (sym (advance_returned k n e))
                (kept.now, x, (kept.at, kept.id ∙ named, kept.phase ∙ done))
        ]

    pub run-Holds :
        (es : List (Event fl)) (st : Stage) (s s' : Requests fl)
        → Consistent s
        → ends_late k es ≡ false
        → run es s ≡ some s'
        → Holds k n id st s
        → Holds k n id (stage_after k n es st) s'
    unfolding run
    run-Holds [] st s s' c in_time h at = subst (Holds k n id st) (some-injective s s' h) at
    run-Holds (e ∷ es) st s s' c in_time h at = elim (Option-cases (step e s)) [
      | inl stuck ↦ absurd (none-ne-some s' (rw (run, stuck) at h))
      | inr (s₁, next) ↦
          let both : (times_out k e ≡ false) × (ends_late k es ≡ false) =
            (ground arith, ground arith) in
          run-Holds es (advance k n e st) s₁ s' (step-Consistent e s s₁ c next) both.1
            (rw (run, next) at h) (step-Holds e st s s₁ c both.0 next at)
    ]
