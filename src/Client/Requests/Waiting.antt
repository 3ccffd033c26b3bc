-- ===== src/Client/Requests/Waiting.antt =====
-- A call that waits gets its response, whatever happens in between (PublishAndWait and onMessage,
-- internal/pkg/mqtt/client.go).
use mathlib.Core.List.{Memᴰ}
use mathlib.Core.List.Memᴰ
use mathlib.Core.Option.{none-ne-some, some-injective}
use mathlib.Core.Path.{subst}
use app_modbus_go.Prelude.{
  ◌++◌, ◌⊎◌, ℕ, suc, ◌≡◌, refl, sym, ◌∙◌, inl, inr, false, some, List, [], ◌∷◌, Option-cases,
}
use app_modbus_go.Prelude.Eq.{ℕ_eq, String_eq}
use app_modbus_go.Prelude.Dict.{lookup}
use app_modbus_go.Value.{Floats}
use app_modbus_go.Message.{MqttResponse}
use app_modbus_go.Client.Requests.{
  waiting, answered, Request, sending, Requests, Event, arrive, no_requests, update, step_arrive,
  step, run,
}
use app_modbus_go.Client.Requests.Consistency.{no_requests-Consistent, update-same}
use app_modbus_go.Client.Requests.Matching.{step-Consistent, run-Consistent}
use app_modbus_go.Client.Requests.Origin.{answered-arrived}
use app_modbus_go.Client.Requests.Handover.{finish, run-Holds}
use app_modbus_go.Client.Requests.Stages.{
  Stage, unsent, held, returned, left_over, Holds, ends_late, stage_after,
}

rest_of_run :
    {fl : Floats} (e : Event fl) (es : List (Event fl)) (s s₁ s' : Requests fl)
    → step e s ≡ some s₁
    → run (e ∷ es) s ≡ some s'
    → run es s₁ ≡ some s'
unfolding run
rest_of_run e es s s₁ s' first h = rw (run, first) at h

run-append :
    {fl : Floats} (es fs : List (Event fl)) (s s₁ s₂ : Requests fl)
    → run es s ≡ some s₁
    → run fs s₁ ≡ some s₂
    → run (es ++ fs) s ≡ some s₂
unfolding run
run-append [] fs s s₁ s₂ h h' = subst (λ z. run fs z ≡ some s₂) (sym (some-injective s s₁ h)) h'
run-append (e ∷ es) fs s s₁ s₂ h h' = elim (Option-cases (step e s)) [
  | inl stuck ↦ absurd (none-ne-some s₁ (rw (run, stuck) at h))
  | inr (s', next) ↦ rw (run, next) (run-append es fs s' s₁ s₂ (rw (run, next) at h) h')
]

-- Nothing arrives in what is left to do.
left_over-arrive :
    {fl : Floats} (k n : ℕ) (st : Stage) (x : MqttResponse fl)
    → Memᴰ (arrive x) (left_over k n st)
    → ⊥
left_over-arrive k n unsent x (Memᴰ.head e) = cc
left_over-arrive k n unsent x (Memᴰ.tail (Memᴰ.head e)) = cc
left_over-arrive k n unsent x (Memᴰ.tail (Memᴰ.tail m)) = Memᴰ.not-nil m
left_over-arrive k n held x (Memᴰ.head e) = cc
left_over-arrive k n held x (Memᴰ.tail m) = Memᴰ.not-nil m
left_over-arrive k n returned x m = Memᴰ.not-nil m

module _ {fl : Floats} (before es : List (Event fl)) (s s' : Requests fl) (k : ℕ) (r : Request fl)
    (resp : MqttResponse fl) where
  -- In a state that the program comes to, a call waits, its id is pending for it, and a response with
  -- that id arrives. Whatever events follow in whatever order, calls and deliveries of the same id
  -- too, as long as the timeout of this call is not among them: what is left of the send of the
  -- response and of the call's select, at most these two events, can be done at once, and then the
  -- call has returned a response which has arrived and has its own id.
  pub exchange_lem :
      run before no_requests ≡ some s
      → s.requests k ≡ some r
      → r.phase ≡ waiting
      → lookup resp.request_id s.pending ≡ some k
      → run (arrive resp ∷ es) s ≡ some s'
      → ends_late k es ≡ false
      → (s'' : Requests fl) × (r'' : Request fl) × (x : MqttResponse fl) × (run
            (left_over k s.next_delivery (stage_after k s.next_delivery es unsent))
            s'
          ≡ some s'')
        × (s''.requests k ≡ some r'')
        × (r''.request_id ≡ r.request_id)
        × (r''.phase ≡ answered x)
        × (x.request_id ≡ r.request_id)
        × Memᴰ (arrive x) (before ++ arrive resp ∷ es)
  unfolding step step_arrive
  exchange_lem reached at waits found h in_time =
      let n = s.next_delivery in
      let s₁ : Requests fl = record s {
        deliveries = update s.deliveries n (some (sending k resp));
        next_delivery = suc n;
      } in
      let arrives : step (arrive resp) s ≡ some s₁ = rw (step, step_arrive, found) refl in
      let c₁ =
        step-Consistent (arrive resp) s s₁
          (run-Consistent before no_requests s no_requests-Consistent reached) arrives in
      let start : Holds k n r.request_id unsent s₁ =
        (r, resp, (at, refl, waits), update-same s.deliveries n (some (sending k resp))) in
      let rest : run es s₁ ≡ some s' = rest_of_run (arrive resp) es s s₁ s' arrives h in
      let st = stage_after k n es unsent in
      let (s'', runs, (r'', x, (at'', named, done))) =
        finish k n r.request_id st s'
          (run-Holds k n r.request_id es unsent s₁ s' c₁ in_time rest start) in
      let c = run-Consistent (left_over k n st) s' s'' (run-Consistent es s₁ s' c₁ rest) runs in
      let whole = before ++ arrive resp ∷ es in
      let origin : Memᴰ (arrive x) whole ⊎ Memᴰ (arrive x) (left_over k n st) =
        Memᴰ.append_cases whole (
          answered-arrived (whole ++ left_over k n st) s'' k r'' x
            (run-append whole (left_over k n st) no_requests s' s''
              (run-append before (arrive resp ∷ es) no_requests s s' reached h) runs)
            at'' done) in
      (
        s'',
        r'',
        x,
        runs,
        at'',
        named,
        done,
        (c.own k r'' at'').answer x done ∙ named,
        elim origin [ inl m ↦ m | inr m ↦ absurd (left_over-arrive k n st x m) ],
      )
