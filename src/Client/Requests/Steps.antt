-- ===== src/Client/Requests/Steps.antt =====
-- Each kind of event of PublishAndWait and onMessage (internal/pkg/mqtt/client.go) keeps the invariant.
use mathlib.Core.Option.{none-ne-some, some-injective}
use mathlib.Core.Path.{subst}
use app_modbus_go.Prelude.{
  ltb→lt, ℕ, suc, ◌<◌, ◌≡◌, refl, sym, ap, ◌∙◌, inl, inr, String, false, Option, none, some, arith,
  Bool-cases, Option-cases,
}
use app_modbus_go.Prelude.Eq.{ℕ_eq, String_eq, ◌==◌, ==_refl}
use app_modbus_go.Prelude.Dict.{lookup, erase}
use app_modbus_go.Value.{Floats}
use app_modbus_go.Message.{MqttResponse}
use app_modbus_go.Client.Requests.{
  step_delete, step_send, ltb, step_receive, step_time_out, step_publish_failed, step_published,
  Phase, publishing, waiting, timed_out, failed, answered, Request, Delivery, sending, deleting,
  delivered, Requests, update, set_request, step_arrive, fill,
}
use app_modbus_go.Client.Requests.Consistency.{
  Awaited, Own, Consistent, update-same, erased, erase-Consistent, set_request-Consistent,
  set_delivery-Consistent,
}

module _ {fl : Floats} where
  -- A call moves to a phase that is no answer.
  moved-Own :
      (r : Request fl) (p : Phase fl)
      → ((resp : MqttResponse fl) → p ≡ answered resp → ⊥)
      → Own r
      → Own (record r { phase = p })
  moved-Own r p not_answer o = record {
    answer = λ resp e. absurd (not_answer resp e);
    buffered = o.buffered;
  }

  module _ (k : ℕ) (r : Request fl) (s s' : Requests fl) (at : s.requests k ≡ some r)
      (c : Consistent s) where
    pub step_published-Consistent :
        (p : Phase fl) → step_published k r p s ≡ some s' → Consistent s'
    unfolding step_published
    step_published-Consistent publishing h =
        subst Consistent (some-injective (set_request k r₁ s) s' h) (
          set_request-Consistent k r r₁ s at refl
            (moved-Own r waiting (λ resp e. cc) (c.own k r at)) awaited c)
      where
        r₁ : Request fl
        r₁ = record r { phase = waiting }

        awaited : lookup r.request_id s.pending ≡ some k → Awaited s r.request_id r₁
        awaited e = elim (c.awaits r.request_id k r e at) [
          | inl (l, b) ↦ inl (refl, b)
          | inr d ↦ inr d
        ]
    step_published-Consistent _ h = absurd (none-ne-some s' h)

    -- The call ends with an error, and is no longer pending.
    ended-Consistent :
        (p : Phase fl)
        → ((resp : MqttResponse fl) → p ≡ answered resp → ⊥)
        → Consistent (record (set_request k (record r { phase = p }) s) {
          pending = erase r.request_id s.pending;
        })
    ended-Consistent p not_answer =
        set_request-Consistent k r (record r { phase = p }) gone at refl
          (moved-Own r p not_answer (c.own k r at))
          (λ e. absurd (no_longer (erased s r.request_id r.request_id k e).0))
          (erase-Consistent r.request_id s c)
      where
        gone : Requests fl
        gone = record s { pending = erase r.request_id s.pending }

        no_longer : (r.request_id == r.request_id) ≡ false → ⊥
        no_longer e = cc (==_refl r.request_id)

    pub step_publish_failed-Consistent :
        (p : Phase fl) → step_publish_failed k r p s ≡ some s' → Consistent s'
    unfolding step_publish_failed
    step_publish_failed-Consistent publishing h =
        subst Consistent (some-injective _ s' h) (ended-Consistent failed (λ resp e. cc))
    step_publish_failed-Consistent _ h = absurd (none-ne-some s' h)

    pub step_time_out-Consistent : (p : Phase fl) → step_time_out k r p s ≡ some s' → Consistent s'
    unfolding step_time_out
    step_time_out-Consistent waiting h =
        subst Consistent (some-injective _ s' h) (ended-Consistent timed_out (λ resp e. cc))
    step_time_out-Consistent _ h = absurd (none-ne-some s' h)

    pub step_receive-Consistent :
        (p : Phase fl) (b : Option (MqttResponse fl))
        → r.buffer ≡ b
        → step_receive k r p b s ≡ some s'
        → Consistent s'
    unfolding step_receive
    step_receive-Consistent waiting (some resp) full h =
        subst Consistent (some-injective (set_request k r₁ s) s' h)
          (set_request-Consistent k r r₁ s at refl own₁ awaited c)
      where
        r₁ : Request fl
        r₁ = record r { phase = answered resp; buffer = none }

        the_answer : (resp' : MqttResponse fl) → answered resp ≡ answered resp' → resp ≡ resp'
        the_answer resp' e = cc

        own₁ : Own r₁
        own₁ = record {
          answer = λ resp' e.
              subst (λ x. x.request_id ≡ r.request_id) (the_answer resp' e)
                ((c.own k r at).buffered resp full);
          buffered = λ resp' e. absurd (none-ne-some resp' e);
        }

        awaited : lookup r.request_id s.pending ≡ some k → Awaited s r.request_id r₁
        awaited e = elim (c.awaits r.request_id k r e at) [
          | inl (l, b) ↦ absurd (none-ne-some resp (sym b ∙ full))
          | inr d ↦ inr d
        ]
    step_receive-Consistent _ _ full h = absurd (none-ne-some s' h)

  pub step_arrive-Consistent :
      (resp : MqttResponse fl) (s : Requests fl) → Consistent s → Consistent (step_arrive resp s)
  unfolding step_arrive
  step_arrive-Consistent resp s c = elim (Option-cases (lookup resp.request_id s.pending)) [
    | inl alone ↦ rw (step_arrive, alone) c
    | inr (k, found) ↦
        rw (step_arrive, found)
          (set_delivery-Consistent s.next_delivery (suc s.next_delivery) (sending k resp) s
            (omega arith) (omega arith) (c.pends resp.request_id k found)
            (λ id j e e'.
              absurd
                (none-ne-some (deleting id) (sym (c.unsent s.next_delivery (omega arith)) ∙ e)))
            c)
  ]

  -- Where a delivery is, its number is in use.
  pub sent-lt :
      (s : Requests fl)
      → Consistent s
      → (i : ℕ) (d : Delivery fl) → s.deliveries i ≡ some d
      → i < s.next_delivery
  sent-lt s c i d e = elim (Bool-cases (ltb i s.next_delivery)) [
    | inl lt ↦ ltb→lt i s.next_delivery lt
    | inr ge ↦ absurd (none-ne-some d (sym (c.unsent i (ground arith)) ∙ e))
  ]

  -- The send leaves the call and its id as they are.
  fill-same : (resp : MqttResponse fl) (r : Request fl) → (fill resp r).request_id ≡ r.request_id
  unfolding fill
  fill-same resp r = elim (Option-cases r.buffer) [
    | inl e ↦ rw (fill, e) refl
    | inr (old, e) ↦ rw (fill, e) refl
  ]

  fill-Own :
      (resp : MqttResponse fl) (r : Request fl)
      → r.request_id ≡ resp.request_id
      → Own r
      → Own (fill resp r)
  unfolding fill
  fill-Own resp r named o = elim (Option-cases r.buffer) [
    | inl e ↦
        rw (fill, e)
          (record {
            answer = o.answer;
            buffered =
                λ resp' e'. ap (λ x. x.request_id) (sym (some-injective resp resp' e')) ∙ sym named;
          })
    | inr (old, e) ↦ rw (fill, e) o
  ]

  other_id :
      (id id' : String) (d : Option (Delivery fl))
      → d ≡ some (deleting id)
      → d ≡ some (deleting id')
      → (id == id') ≡ false
      → ⊥
  other_id id id' d e e' other = cc (==_refl id)

  not_deleting :
      (ch : ℕ) (resp : MqttResponse fl) (id : String)
      → some (sending ch resp) ≡ some (deleting id)
      → ⊥
  not_deleting ch resp id e = cc

  module _ (i : ℕ) (s s' : Requests fl) (c : Consistent s) where
    pub step_send-Consistent :
        (d : Option (Delivery fl)) → s.deliveries i ≡ d → step_send i d s ≡ some s' → Consistent s'
    unfolding step_send
    step_send-Consistent (some (sending ch resp)) e h =
        let (r, at, named) = c.sends i ch resp e in
        subst Consistent (some-injective _ s' (rw (step_send, at) at h)) (
          set_request-Consistent ch r (fill resp r) between at (fill-same resp r)
            (fill-Own resp r named (c.own ch r at))
            (λ p. inr (
              i,
              update-same s.deliveries i (some (deleting resp.request_id))
                  ∙ ap (λ x. some (deleting x)) (sym named),
            ))
            (set_delivery-Consistent i s.next_delivery (deleting resp.request_id) s (omega arith)
              (sent-lt s c i (sending ch resp) e) tt
              (λ id k e' e''. absurd (not_deleting ch resp id (sym e ∙ e'))) c))
      where
        between : Requests fl
        between = record s { deliveries = update s.deliveries i (some (deleting resp.request_id)) }
    step_send-Consistent _ e h = absurd (none-ne-some s' h)

    pub step_delete-Consistent :
        (d : Option (Delivery fl))
        → s.deliveries i ≡ d
        → step_delete i d s ≡ some s'
        → Consistent s'
    unfolding step_delete
    step_delete-Consistent (some (deleting id)) e h = subst Consistent (some-injective _ s' h) (
        set_delivery-Consistent i s.next_delivery delivered gone (omega arith)
          (sent-lt s c i (deleting id) e) tt last (erase-Consistent id s c))
      where
        gone : Requests fl
        gone = record s { pending = erase id s.pending }

        last :
            (id' : String) (k : ℕ)
            → s.deliveries i ≡ some (deleting id')
            → lookup id' (erase id s.pending) ≡ some k
            → ⊥
        last id' k e' p = other_id id id' (s.deliveries i) e e' (erased s id id' k p).0
    step_delete-Consistent _ e h = absurd (none-ne-some s' h)
