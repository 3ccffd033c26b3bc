-- ===== src/Client/Requests/Stages.antt =====
-- The stages of a response on its way from onMessage to the call that waits for it
-- (internal/pkg/mqtt/client.go): before its send, in the channel, returned.
use app_modbus_go.Client.Requests.Progress.{of_call}
use mathlib.Core.Option.{none-ne-some, some-injective}
use app_modbus_go.Prelude.{
  ◌||◌, ℕ, ◌≡◌, refl, sym, ap, ◌∙◌, inl, inr, String, Bool, false, some, List, [], ◌∷◌,
  if◌then◌else◌, ==_iff, arith, Option, Bool-cases, Option-cases,
}
use app_modbus_go.Prelude.Eq.{ℕ_eq, String_eq, ◌==◌}
use app_modbus_go.Prelude.Dict.{lookup}
use app_modbus_go.Value.{Floats}
use app_modbus_go.Message.{MqttResponse}
use app_modbus_go.Client.Requests.{
  true, Phase, publishing, waiting, answered, Request, Delivery, sending, deleting, Requests, Event,
  request, published, publish_failed, receive, time_out, arrive, send, delete, step_published,
  step_publish_failed, step_time_out, step_receive, step_arrive, step_send, step_delete, step,
}
use app_modbus_go.Client.Requests.Consistency.{Consistent}
use app_modbus_go.Client.Requests.Steps.{sent-lt}

module _ {fl : Floats} (n : ℕ) where
  abbrev pub is_send : Event fl → Bool
  is_send (send i) = i == n
  is_send _ = false

  -- The events that leave the deliveries as they are.
  published-deliveries :
      (j : ℕ) (q : Request fl) (p : Phase fl) (s s' : Requests fl)
      → step_published j q p s ≡ some s'
      → s.deliveries n ≡ s'.deliveries n
  unfolding step_published
  published-deliveries j q publishing s s' h = ap (λ z. z.deliveries n) (some-injective _ s' h)
  published-deliveries j q _ s s' h = absurd (none-ne-some s' h)

  publish_failed-deliveries :
      (j : ℕ) (q : Request fl) (p : Phase fl) (s s' : Requests fl)
      → step_publish_failed j q p s ≡ some s'
      → s.deliveries n ≡ s'.deliveries n
  unfolding step_publish_failed
  publish_failed-deliveries j q publishing s s' h = ap (λ z. z.deliveries n) (some-injective _ s' h)
  publish_failed-deliveries j q _ s s' h = absurd (none-ne-some s' h)

  time_out-deliveries :
      (j : ℕ) (q : Request fl) (p : Phase fl) (s s' : Requests fl)
      → step_time_out j q p s ≡ some s'
      → s.deliveries n ≡ s'.deliveries n
  unfolding step_time_out
  time_out-deliveries j q waiting s s' h = ap (λ z. z.deliveries n) (some-injective _ s' h)
  time_out-deliveries j q _ s s' h = absurd (none-ne-some s' h)

  receive-deliveries :
      (j : ℕ) (q : Request fl) (p : Phase fl) (b : Option (MqttResponse fl)) (s s' : Requests fl)
      → step_receive j q p b s ≡ some s'
      → s.deliveries n ≡ s'.deliveries n
  unfolding step_receive
  receive-deliveries j q waiting (some x) s s' h = ap (λ z. z.deliveries n) (some-injective _ s' h)
  receive-deliveries j q _ _ s s' h = absurd (none-ne-some s' h)

  -- The steps of another delivery.
  send-deliveries :
      (i : ℕ) (d : Option (Delivery fl)) (s s' : Requests fl)
      → (i == n) ≡ false
      → step_send i d s ≡ some s'
      → s.deliveries n ≡ s'.deliveries n
  unfolding step_send
  send-deliveries i (some (sending ch x)) s s' other h = elim (Option-cases (s.requests ch)) [
    | inl gone ↦ absurd (none-ne-some s' (rw (step_send, gone) at h))
    | inr (q, e) ↦
        sym (rw other refl)
        ∙ ap (λ z. z.deliveries n) (some-injective _ s' (rw (step_send, e) at h))
  ]
  send-deliveries i _ s s' other h = absurd (none-ne-some s' h)

  delete-deliveries :
      (i : ℕ) (d : Option (Delivery fl)) (s s' : Requests fl)
      → (i == n) ≡ false
      → step_delete i d s ≡ some s'
      → s.deliveries n ≡ s'.deliveries n
  unfolding step_delete
  delete-deliveries i (some (deleting id)) s s' other h =
      sym (rw other refl) ∙ ap (λ z. z.deliveries n) (some-injective _ s' h)
  delete-deliveries i _ s s' other h = absurd (none-ne-some s' h)

  -- A delivery stays before its send until that send.
  pub step-sending :
      (e : Event fl) (ch : ℕ) (x : MqttResponse fl) (s s' : Requests fl)
      → Consistent s
      → s.deliveries n ≡ some (sending ch x)
      → is_send e ≡ false
      → step e s ≡ some s'
      → s'.deliveries n ≡ some (sending ch x)
  unfolding step step_arrive step_delete
  step-sending (request id) ch x s s' c at other h =
      ap (λ z. z.deliveries n) (sym (some-injective _ s' h)) ∙ at
  step-sending (published j) ch x s s' c at other h = elim (Option-cases (s.requests j)) [
    | inl e ↦ absurd (none-ne-some s' (rw e at h))
    | inr (q, e) ↦ sym (published-deliveries j q q.phase s s' (rw e at h)) ∙ at
  ]
  step-sending (publish_failed j) ch x s s' c at other h = elim (Option-cases (s.requests j)) [
    | inl e ↦ absurd (none-ne-some s' (rw e at h))
    | inr (q, e) ↦ sym (publish_failed-deliveries j q q.phase s s' (rw e at h)) ∙ at
  ]
  step-sending (receive j) ch x s s' c at other h = elim (Option-cases (s.requests j)) [
    | inl e ↦ absurd (none-ne-some s' (rw e at h))
    | inr (q, e) ↦ sym (receive-deliveries j q q.phase q.buffer s s' (rw e at h)) ∙ at
  ]
  step-sending (time_out j) ch x s s' c at other h = elim (Option-cases (s.requests j)) [
    | inl e ↦ absurd (none-ne-some s' (rw e at h))
    | inr (q, e) ↦ sym (time_out-deliveries j q q.phase s s' (rw e at h)) ∙ at
  ]
  step-sending (arrive y) ch x s s' c at other h =
      elim (Option-cases (lookup y.request_id s.pending)) [
        | inl alone ↦
            ap (λ z. z.deliveries n) (sym (some-injective _ s' (rw (step_arrive, alone) at h))) ∙ at
        | inr (k, found) ↦
            let used = sent-lt s c n (sending ch x) at in
            elim (Bool-cases (s.next_delivery == n)) [
              | inl same ↦ absurd (omega (arith, used, (==_iff s.next_delivery n).0 same))
              | inr free ↦
                  ap (λ z. z.deliveries n)
                    (sym (some-injective _ s' (rw (step_arrive, found) at h)))
                  ∙ rw free at
            ]
      ]
  step-sending (send i) ch x s s' c at other h =
      sym (send-deliveries i (s.deliveries i) s s' other h) ∙ at
  step-sending (delete i) ch x s s' c at other h = elim (Bool-cases (i == n)) [
    | inl same ↦ absurd (none-ne-some s' (rw (ap s.deliveries ((==_iff i n).0 same) ∙ at) at h))
    | inr apart ↦ sym (delete-deliveries i (s.deliveries i) s s' apart h) ∙ at
  ]

-- How far a response is on its way.
pub data Stage : Type 0 where
  unsent held returned : Stage

module _ {fl : Floats} (k : ℕ) where
  abbrev pub times_out : Event fl → Bool
  times_out (time_out j) = j == k
  times_out _ = false

  -- Whether the timeout of the call is among the events.
  abbrev pub ends_late : List (Event fl) → Bool
  ends_late [] = false
  ends_late (e ∷ es) = times_out e || ends_late es

module _ {fl : Floats} (k n : ℕ) where
  -- The stage behind an event, for the call `k` and the delivery `n`
  abbrev pub advance : Event fl → Stage → Stage
  advance (send i) unsent = if i == n then held else unsent
  advance (receive j) st = if j == k then returned else st
  advance e st = st

  -- What is left to do at a stage: the send, then the call's select.
  abbrev pub left_over : Stage → List (Event fl)
  left_over unsent = send n ∷ receive k ∷ []
  left_over held = receive k ∷ []
  left_over returned = []

  -- The stage behind a sequence of events.
  abbrev pub stage_after : List (Event fl) → Stage → Stage
  stage_after [] st = st
  stage_after (e ∷ es) st = stage_after es (advance e st)

  pub advance_unsent :
      (e : Event fl) → of_call k e ≡ false → is_send n e ≡ false → advance e unsent ≡ unsent
  advance_unsent (receive j) other apart = rw other refl
  advance_unsent (send i) other apart = rw apart refl
  advance_unsent (request id) other apart = refl
  advance_unsent (published j) other apart = refl
  advance_unsent (publish_failed j) other apart = refl
  advance_unsent (time_out j) other apart = refl
  advance_unsent (arrive x) other apart = refl
  advance_unsent (delete i) other apart = refl

  pub advance_held : (e : Event fl) → of_call k e ≡ false → advance e held ≡ held
  advance_held (receive j) other = rw other refl
  advance_held (send i) other = refl
  advance_held (request id) other = refl
  advance_held (published j) other = refl
  advance_held (publish_failed j) other = refl
  advance_held (time_out j) other = refl
  advance_held (arrive x) other = refl
  advance_held (delete i) other = refl

  pub advance_returned : (e : Event fl) → advance e returned ≡ returned
  advance_returned (receive j) = ground arith
  advance_returned (send i) = refl
  advance_returned (request id) = refl
  advance_returned (published j) = refl
  advance_returned (publish_failed j) = refl
  advance_returned (time_out j) = refl
  advance_returned (arrive x) = refl
  advance_returned (delete i) = refl

  pub sends_it : (e : Event fl) → is_send n e ≡ true → e ≡ send n
  sends_it (send i) h = ap send ((==_iff i n).0 h)
  sends_it (receive j) h = cc
  sends_it (request id) h = cc
  sends_it (published j) h = cc
  sends_it (publish_failed j) h = cc
  sends_it (time_out j) h = cc
  sends_it (arrive x) h = cc
  sends_it (delete i) h = cc

  module _ (id : String) where
    -- A call with this id that waits, or that has returned a response.
    abbrev pub At : Phase fl → Request fl → Requests fl → Type 0
    At p r s = (s.requests k ≡ some r) × (r.request_id ≡ id) × (r.phase ≡ p)

    abbrev pub Holds : Stage → Requests fl → Type 0
    Holds unsent s =
        (r : Request fl) × (x : MqttResponse fl) × At waiting r s
        × (s.deliveries n ≡ some (sending k x))
    Holds held s = (r : Request fl) × (x : MqttResponse fl) × At waiting r s × (r.buffer ≡ some x)
    Holds returned s = (r : Request fl) × (x : MqttResponse fl) × At (answered x) r s
