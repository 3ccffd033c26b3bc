-- ===== src/Client/Requests/Progress.antt =====
-- What one event of PublishAndWait and onMessage (internal/pkg/mqtt/client.go) does to a call that waits
-- for a response and to the delivery of that response.
use mathlib.Core.Option.{none-ne-some, some-injective}
use app_modbus_go.Prelude.{
  ℕ, ◌≡◌, refl, sym, ap, ◌∙◌, inl, inr, Bool, true, false, none, some, ==_iff, Option, Bool-cases,
  Option-cases, ◌⊎◌,
}
use app_modbus_go.Prelude.Eq.{ℕ_eq, String_eq, ◌==◌}
use app_modbus_go.Prelude.Dict.{lookup}
use app_modbus_go.Value.{Floats}
use app_modbus_go.Message.{MqttResponse}
use app_modbus_go.Client.Requests.{
  Phase, publishing, waiting, answered, Request, Delivery, sending, deleting, Requests, Event,
  request, published, publish_failed, receive, time_out, arrive, send, delete, update, set_request,
  start_request, step_published, step_publish_failed, step_time_out, step_receive, step_arrive,
  step_send, step_delete, fill, step,
}
use app_modbus_go.Client.Requests.Consistency.{Consistent, kept}

module _ {fl : Floats} (k : ℕ) where
  -- The events of the call itself, behind its start.
  abbrev pub of_call : Event fl → Bool
  of_call (published j) = j == k
  of_call (publish_failed j) = j == k
  of_call (receive j) = j == k
  of_call (time_out j) = j == k
  of_call _ = false

  -- A call that others leave as it is, but for what they send on its channel.
  pub record Keeps (r : Request fl) (s' : Requests fl) : Type 0 where
    pub now : Request fl
    pub at : s'.requests k ≡ some now
    pub id : now.request_id ≡ r.request_id
    pub phase : now.phase ≡ r.phase
    pub full : (x : MqttResponse fl) → r.buffer ≡ some x → now.buffer ≡ some x

  module _ (r : Request fl) where
    same-Keeps : (s' : Requests fl) → s'.requests k ≡ some r → Keeps r s'
    same-Keeps s' e = record { now = r; at = e; id = refl; phase = refl; full = λ x e'. e' }

    other-Keeps :
        (j : ℕ) (q : Request fl) (s s' : Requests fl)
        → s.requests k ≡ some r
        → (j == k) ≡ false
        → s'.requests ≡ update s.requests j (some q)
        → Keeps r s'
    other-Keeps j q s s' e other e' = same-Keeps s' (ap (λ f. f k) e' ∙ rw other e)

    fill-Keeps :
        (x : MqttResponse fl) (s' : Requests fl) → s'.requests k ≡ some (fill x r) → Keeps r s'
    unfolding fill
    fill-Keeps x s' e = elim (Option-cases r.buffer) [
      | inl empty ↦ record {
        now = record r { buffer = some x };
        at = rw (fill, empty) at e;
        id = refl;
        phase = refl;
        full = λ y e'. absurd (none-ne-some y (sym empty ∙ e'));
      }
      | inr (old, full) ↦ same-Keeps s' (rw (fill, full) at e)
    ]

    module _ (s s' : Requests fl) (at : s.requests k ≡ some r) where
      published-Keeps :
          (j : ℕ) (q : Request fl) (p : Phase fl)
          → (j == k) ≡ false
          → step_published j q p s ≡ some s'
          → Keeps r s'
      unfolding step_published
      published-Keeps j q publishing other h =
          other-Keeps j _ s s' at other (ap (λ x. x.requests) (sym (some-injective _ s' h)))
      published-Keeps j q _ other h = absurd (none-ne-some s' h)

      publish_failed-Keeps :
          (j : ℕ) (q : Request fl) (p : Phase fl)
          → (j == k) ≡ false
          → step_publish_failed j q p s ≡ some s'
          → Keeps r s'
      unfolding step_publish_failed
      publish_failed-Keeps j q publishing other h =
          other-Keeps j _ s s' at other (ap (λ x. x.requests) (sym (some-injective _ s' h)))
      publish_failed-Keeps j q _ other h = absurd (none-ne-some s' h)

      time_out-Keeps :
          (j : ℕ) (q : Request fl) (p : Phase fl)
          → (j == k) ≡ false
          → step_time_out j q p s ≡ some s'
          → Keeps r s'
      unfolding step_time_out
      time_out-Keeps j q waiting other h =
          other-Keeps j _ s s' at other (ap (λ x. x.requests) (sym (some-injective _ s' h)))
      time_out-Keeps j q _ other h = absurd (none-ne-some s' h)

      receive-Keeps :
          (j : ℕ) (q : Request fl) (p : Phase fl) (b : Option (MqttResponse fl))
          → (j == k) ≡ false
          → step_receive j q p b s ≡ some s'
          → Keeps r s'
      unfolding step_receive
      receive-Keeps j q waiting (some x) other h =
          other-Keeps j _ s s' at other (ap (λ x. x.requests) (sym (some-injective _ s' h)))
      receive-Keeps j q _ _ other h = absurd (none-ne-some s' h)

      send-Keeps : (i : ℕ) (d : Option (Delivery fl)) → step_send i d s ≡ some s' → Keeps r s'
      unfolding step_send
      send-Keeps i (some (sending j x)) h = elim (Option-cases (s.requests j)) [
        | inl gone ↦ absurd (none-ne-some s' (rw (step_send, gone) at h))
        | inr (q, e) ↦
            let reads : s'.requests ≡ update s.requests j (some (fill x q)) =
              ap (λ z. z.requests) (sym (some-injective _ s' (rw (step_send, e) at h))) in
            elim (Bool-cases (j == k)) [
              | inl here ↦
                  let it : q ≡ r =
                    some-injective q r (sym e ∙ ap s.requests ((==_iff j k).0 here) ∙ at) in
                  fill-Keeps x s' (ap (λ f. f k) reads ∙ rw here (ap (λ z. some (fill x z)) it))
              | inr other ↦ other-Keeps j (fill x q) s s' at other reads
            ]
      ]
      send-Keeps i _ h = absurd (none-ne-some s' h)

      delete-Keeps : (i : ℕ) (d : Option (Delivery fl)) → step_delete i d s ≡ some s' → Keeps r s'
      unfolding step_delete
      delete-Keeps i (some (deleting id)) h =
          same-Keeps s' (ap (λ z. z.requests k) (sym (some-injective _ s' h)) ∙ at)
      delete-Keeps i _ h = absurd (none-ne-some s' h)

  -- An event that is not the call's own leaves it.
  pub step-Keeps :
      (e : Event fl) (r : Request fl) (s s' : Requests fl)
      → Consistent s
      → s.requests k ≡ some r
      → of_call e ≡ false
      → step e s ≡ some s'
      → Keeps r s'
  unfolding step start_request step_arrive
  step-Keeps (request id) r s s' c at other h =
      same-Keeps r s' (ap (λ z. z.requests k) (sym (some-injective _ s' h)) ∙ kept id s c k r at)
  step-Keeps (published j) r s s' c at other h = elim (Option-cases (s.requests j)) [
    | inl e ↦ absurd (none-ne-some s' (rw e at h))
    | inr (q, e) ↦ published-Keeps r s s' at j q q.phase other (rw e at h)
  ]
  step-Keeps (publish_failed j) r s s' c at other h = elim (Option-cases (s.requests j)) [
    | inl e ↦ absurd (none-ne-some s' (rw e at h))
    | inr (q, e) ↦ publish_failed-Keeps r s s' at j q q.phase other (rw e at h)
  ]
  step-Keeps (receive j) r s s' c at other h = elim (Option-cases (s.requests j)) [
    | inl e ↦ absurd (none-ne-some s' (rw e at h))
    | inr (q, e) ↦ receive-Keeps r s s' at j q q.phase q.buffer other (rw e at h)
  ]
  step-Keeps (time_out j) r s s' c at other h = elim (Option-cases (s.requests j)) [
    | inl e ↦ absurd (none-ne-some s' (rw e at h))
    | inr (q, e) ↦ time_out-Keeps r s s' at j q q.phase other (rw e at h)
  ]
  step-Keeps (arrive x) r s s' c at other h = elim (Option-cases (lookup x.request_id s.pending)) [
    | inl alone ↦
        same-Keeps r s'
          (ap (λ z. z.requests k) (sym (some-injective _ s' (rw (step_arrive, alone) at h))) ∙ at)
    | inr (ch, found) ↦
        same-Keeps r s'
          (ap (λ z. z.requests k) (sym (some-injective _ s' (rw (step_arrive, found) at h))) ∙ at)
  ]
  step-Keeps (send i) r s s' c at other h = send-Keeps r s s' at i (s.deliveries i) h
  step-Keeps (delete i) r s s' c at other h = delete-Keeps r s s' at i (s.deliveries i) h

  module _ (s s' : Requests fl) (r : Request fl) (at : s.requests k ≡ some r) where
    -- What the call's own events do while it waits, and once it is answered.
    pub while_waiting :
        (e : Event fl)
        → r.phase ≡ waiting
        → of_call e ≡ true
        → step e s ≡ some s'
        → ((e ≡ receive k)
            × ((x : MqttResponse fl) × (r.buffer ≡ some x)
                × (s'.requests k ≡ some (record r { phase = answered x; buffer = none }))))
          ⊎ (e ≡ time_out k)
    unfolding step step_published step_publish_failed step_receive
    while_waiting (published j) waits own h =
        let here : s.requests j ≡ some r = ap s.requests ((==_iff j k).0 own) ∙ at in
        absurd (none-ne-some s' (rw (step, here) (rw (step_published, waits) refl) ∙ h))
    while_waiting (publish_failed j) waits own h =
        let here : s.requests j ≡ some r = ap s.requests ((==_iff j k).0 own) ∙ at in
        absurd (none-ne-some s' (rw (step, here) (rw (step_publish_failed, waits) refl) ∙ h))
    while_waiting (receive j) waits own h =
        let same : j ≡ k = (==_iff j k).0 own in
        let here : s.requests j ≡ some r = ap s.requests same ∙ at in
        elim (Option-cases r.buffer) [
          | inl empty ↦
              absurd (none-ne-some s' (rw (step, here) (rw (step_receive, waits, empty) refl) ∙ h))
          | inr (x, full) ↦
              let q : Request fl = record r { phase = answered x; buffer = none } in
              let ran : some (set_request j q s) ≡ some s' =
                rw (step, here) (rw (step_receive, waits, full) refl) ∙ h in
              inl (
                ap receive same,
                (
                  x,
                  full,
                  ap (λ z. z.requests k) (sym (some-injective (set_request j q s) s' ran))
                      ∙ rw own refl,
                ),
              )
        ]
    while_waiting (time_out j) waits own h = inr (ap time_out ((==_iff j k).0 own))
    while_waiting (request id) waits own h = cc
    while_waiting (arrive x) waits own h = cc
    while_waiting (send i) waits own h = cc
    while_waiting (delete i) waits own h = cc

    pub no_second_return :
        (e : Event fl) (x : MqttResponse fl)
        → r.phase ≡ answered x
        → of_call e ≡ true
        → step e s ≡ some s'
        → ⊥
    unfolding step step_published step_publish_failed step_receive step_time_out
    no_second_return (published j) x done own h =
        let here : s.requests j ≡ some r = ap s.requests ((==_iff j k).0 own) ∙ at in
        none-ne-some s' (rw (step, here) (rw (step_published, done) refl) ∙ h)
    no_second_return (publish_failed j) x done own h =
        let here : s.requests j ≡ some r = ap s.requests ((==_iff j k).0 own) ∙ at in
        none-ne-some s' (rw (step, here) (rw (step_publish_failed, done) refl) ∙ h)
    no_second_return (receive j) x done own h =
        let here : s.requests j ≡ some r = ap s.requests ((==_iff j k).0 own) ∙ at in
        none-ne-some s' (rw (step, here) (rw (step_receive, done) refl) ∙ h)
    no_second_return (time_out j) x done own h =
        let here : s.requests j ≡ some r = ap s.requests ((==_iff j k).0 own) ∙ at in
        none-ne-some s' (rw (step, here) (rw (step_time_out, done) refl) ∙ h)
    no_second_return (request id) x done own h = cc
    no_second_return (arrive y) x done own h = cc
    no_second_return (send i) x done own h = cc
    no_second_return (delete i) x done own h = cc
