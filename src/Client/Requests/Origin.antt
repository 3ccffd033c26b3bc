-- ===== src/Client/Requests/Origin.antt =====
-- Where the responses come from that calls return: onMessage got them (PublishAndWait and onMessage,
-- internal/pkg/mqtt/client.go).
use mathlib.Core.List.{Memᴰ}
use mathlib.Core.Option.{none-ne-some, some-injective}
use mathlib.Core.Path.{subst}
use app_modbus_go.Prelude.{
  ℕ, ◌≡◌, refl, sym, ap, inl, inr, Option, none, some, List, [], ◌∷◌, Option-cases,
}
use app_modbus_go.Prelude.Eq.{ℕ_eq, String_eq}
use app_modbus_go.Prelude.Dict.{lookup}
use app_modbus_go.Value.{Floats}
use app_modbus_go.Message.{MqttResponse}
use app_modbus_go.Client.Requests.{
  Phase, publishing, waiting, timed_out, failed, answered, Request, Delivery, sending, deleting,
  delivered, Requests, Event, request, published, publish_failed, receive, time_out, arrive, send,
  delete, no_requests, update, start_request, step_published, step_publish_failed, step_time_out,
  step_receive, step_arrive, step_send, step_delete, fill, step, run,
}
use app_modbus_go.Client.Requests.Consistency.{update_cases}

module _ {fl : Floats} (P : MqttResponse fl → Type 0) where
  -- What a call holds or has returned.
  abbrev Fine : Request fl → Type 0
  Fine r =
      ((x : MqttResponse fl) → r.buffer ≡ some x → P x)
      × ((x : MqttResponse fl) → r.phase ≡ answered x → P x)

  -- Every response under way, in a channel or returned.
  pub record Genuine (q : ℕ → Option (Request fl)) (d : ℕ → Option (Delivery fl)) : Type 0 where
    pub calls : (k : ℕ) (r : Request fl) → q k ≡ some r → Fine r
    pub sends : (i ch : ℕ) (x : MqttResponse fl) → d i ≡ some (sending ch x) → P x

  module _ (q : ℕ → Option (Request fl)) (d : ℕ → Option (Delivery fl)) (g : Genuine q d) where
    call-Genuine : (k : ℕ) (r : Request fl) → Fine r → Genuine (update q k (some r)) d
    call-Genuine k r fine = record {
      calls = λ j r' e. elim (update_cases q k (some r) j (some r') e) [
        | inl (here, new) ↦ subst Fine (some-injective r r' new) fine
        | inr old ↦ g.calls j r' old
      ];
      sends = g.sends;
    }

    delivery-Genuine :
        (i : ℕ) (v : Delivery fl)
        → ((ch : ℕ) (x : MqttResponse fl) → v ≡ sending ch x → P x)
        → Genuine q (update d i (some v))
    delivery-Genuine i v fine = record {
      calls = g.calls;
      sends = λ j ch x e. elim (update_cases d i (some v) j (some (sending ch x)) e) [
        | inl (here, new) ↦ fine ch x (some-injective v (sending ch x) new)
        | inr old ↦ g.sends j ch x old
      ];
    }

  the_answer : (x y : MqttResponse fl) → answered x ≡ answered y → x ≡ y
  the_answer x y e = cc

  the_response : (i j : ℕ) (x y : MqttResponse fl) → sending i x ≡ sending j y → x ≡ y
  the_response i j x y e = cc

  moved-Fine :
      (r : Request fl) (p : Phase fl)
      → ((x : MqttResponse fl) → p ≡ answered x → ⊥)
      → Fine r
      → Fine (record r { phase = p })
  moved-Fine r p not_answer fine = (fine.0, λ x e. absurd (not_answer x e))

  fill-Fine : (x : MqttResponse fl) (r : Request fl) → P x → Fine r → Fine (fill x r)
  unfolding fill
  fill-Fine x r it fine = elim (Option-cases r.buffer) [
    | inl e ↦ rw (fill, e) (λ y e'. subst P (some-injective x y e') it, fine.1)
    | inr (old, e) ↦ rw (fill, e) fine
  ]

  module _ (s s' : Requests fl) (g : Genuine s.requests s.deliveries) where
    -- A step that gives a state whose calls and deliveries are genuine.
    to :
        (t : Requests fl)
        → Genuine t.requests t.deliveries
        → some t ≡ some s'
        → Genuine s'.requests s'.deliveries
    to t now h = subst (λ z. Genuine z.requests z.deliveries) (some-injective t s' h) now

    module _ (k : ℕ) (r : Request fl) (at : s.requests k ≡ some r) where
      moved-Genuine :
          (p : Phase fl)
          → ((x : MqttResponse fl) → p ≡ answered x → ⊥)
          → Genuine (update s.requests k (some (record r { phase = p }))) s.deliveries
      moved-Genuine p not_answer =
          call-Genuine s.requests s.deliveries g k (record r { phase = p })
            (moved-Fine r p not_answer (g.calls k r at))

      published-Genuine :
          (p : Phase fl) → step_published k r p s ≡ some s' → Genuine s'.requests s'.deliveries
      unfolding step_published
      published-Genuine publishing h = to _ (moved-Genuine waiting (λ x e. cc)) h
      published-Genuine _ h = absurd (none-ne-some s' h)

      publish_failed-Genuine :
          (p : Phase fl) → step_publish_failed k r p s ≡ some s' → Genuine s'.requests s'.deliveries
      unfolding step_publish_failed
      publish_failed-Genuine publishing h = to _ (moved-Genuine failed (λ x e. cc)) h
      publish_failed-Genuine _ h = absurd (none-ne-some s' h)

      time_out-Genuine :
          (p : Phase fl) → step_time_out k r p s ≡ some s' → Genuine s'.requests s'.deliveries
      unfolding step_time_out
      time_out-Genuine waiting h = to _ (moved-Genuine timed_out (λ x e. cc)) h
      time_out-Genuine _ h = absurd (none-ne-some s' h)

      receive-Genuine :
          (p : Phase fl) (b : Option (MqttResponse fl))
          → r.buffer ≡ b
          → step_receive k r p b s ≡ some s'
          → Genuine s'.requests s'.deliveries
      unfolding step_receive
      receive-Genuine waiting (some x) full h =
          to _
            (call-Genuine s.requests s.deliveries g k
              (record r { phase = answered x; buffer = none })
              (
                λ y e. absurd (none-ne-some y e),
                λ y e. subst P (the_answer x y e) ((g.calls k r at).0 x full),
              ))
            h
      receive-Genuine _ _ full h = absurd (none-ne-some s' h)

    arrive-Genuine :
        (x : MqttResponse fl) → P x → step_arrive x s ≡ s' → Genuine s'.requests s'.deliveries
    unfolding step_arrive
    arrive-Genuine x it h = elim (Option-cases (lookup x.request_id s.pending)) [
      | inl alone ↦ to _ g (ap some (rw (step_arrive, alone) at h))
      | inr (ch, found) ↦
          to _
            (delivery-Genuine s.requests s.deliveries g s.next_delivery (sending ch x)
              (λ ch' y e. subst P (the_response ch ch' x y e) it))
            (ap some (rw (step_arrive, found) at h))
    ]

    send-Genuine :
        (i : ℕ) (d : Option (Delivery fl))
        → s.deliveries i ≡ d
        → step_send i d s ≡ some s'
        → Genuine s'.requests s'.deliveries
    unfolding step_send
    send-Genuine i (some (sending ch x)) e h = elim (Option-cases (s.requests ch)) [
      | inl gone ↦ absurd (none-ne-some s' (rw (step_send, gone) at h))
      | inr (r, at) ↦
          to _
            (delivery-Genuine _ s.deliveries
              (call-Genuine s.requests s.deliveries g ch (fill x r)
                (fill-Fine x r (g.sends i ch x e) (g.calls ch r at)))
              i (deleting x.request_id) (λ ch' y e'. cc))
            (rw (step_send, at) at h)
    ]
    send-Genuine i _ e h = absurd (none-ne-some s' h)

    delete-Genuine :
        (i : ℕ) (d : Option (Delivery fl))
        → step_delete i d s ≡ some s'
        → Genuine s'.requests s'.deliveries
    unfolding step_delete
    delete-Genuine i (some (deleting id)) h =
        to _ (delivery-Genuine s.requests s.deliveries g i delivered (λ ch y e. cc)) h
    delete-Genuine i _ h = absurd (none-ne-some s' h)

  step-Genuine :
      (e : Event fl) (s s' : Requests fl)
      → ((x : MqttResponse fl) → e ≡ arrive x → P x)
      → Genuine s.requests s.deliveries
      → step e s ≡ some s'
      → Genuine s'.requests s'.deliveries
  unfolding step start_request
  step-Genuine (request id) s s' all g h =
      to s s' g _
        (call-Genuine s.requests s.deliveries g s.next_request
          (record { request_id = id; phase = publishing; buffer = none })
          (λ x e. absurd (none-ne-some x e), λ x e. cc))
        h
  step-Genuine (published k) s s' all g h = elim (Option-cases (s.requests k)) [
    | inl e ↦ absurd (none-ne-some s' (rw e at h))
    | inr (r, e) ↦ published-Genuine s s' g k r e r.phase (rw e at h)
  ]
  step-Genuine (publish_failed k) s s' all g h = elim (Option-cases (s.requests k)) [
    | inl e ↦ absurd (none-ne-some s' (rw e at h))
    | inr (r, e) ↦ publish_failed-Genuine s s' g k r e r.phase (rw e at h)
  ]
  step-Genuine (receive k) s s' all g h = elim (Option-cases (s.requests k)) [
    | inl e ↦ absurd (none-ne-some s' (rw e at h))
    | inr (r, e) ↦ receive-Genuine s s' g k r e r.phase r.buffer refl (rw e at h)
  ]
  step-Genuine (time_out k) s s' all g h = elim (Option-cases (s.requests k)) [
    | inl e ↦ absurd (none-ne-some s' (rw e at h))
    | inr (r, e) ↦ time_out-Genuine s s' g k r e r.phase (rw e at h)
  ]
  step-Genuine (arrive x) s s' all g h =
      arrive-Genuine s s' g x (all x refl) (some-injective _ s' h)
  step-Genuine (send i) s s' all g h = send-Genuine s s' g i (s.deliveries i) refl h
  step-Genuine (delete i) s s' all g h = delete-Genuine s s' g i (s.deliveries i) h

  run-Genuine :
      (es : List (Event fl)) (s s' : Requests fl)
      → ((x : MqttResponse fl) → Memᴰ (arrive x) es → P x)
      → Genuine s.requests s.deliveries
      → run es s ≡ some s'
      → Genuine s'.requests s'.deliveries
  unfolding run
  run-Genuine [] s s' all g h =
      subst (λ z. Genuine z.requests z.deliveries) (some-injective s s' h) g
  run-Genuine (e ∷ es) s s' all g h = elim (Option-cases (step e s)) [
    | inl stuck ↦ absurd (none-ne-some s' (rw (run, stuck) at h))
    | inr (s₁, next) ↦
        run-Genuine es s₁ s' (λ x m. all x (Memᴰ.tail m))
          (step-Genuine e s s₁ (λ x it. all x (Memᴰ.head (sym it))) g next) (rw (run, next) at h)
  ]

module _ {fl : Floats} where
  -- A call returns a response that arrived.
  pub answered-arrived :
      (es : List (Event fl)) (s : Requests fl) (k : ℕ) (r : Request fl) (x : MqttResponse fl)
      → run es no_requests ≡ some s
      → s.requests k ≡ some r
      → r.phase ≡ answered x
      → Memᴰ (arrive x) es
  unfolding no_requests
  answered-arrived es s k r x h at done =
      ((run-Genuine (λ y. Memᴰ (arrive y) es) es no_requests s (λ y m. m) nothing h).calls k r at).1
        x done
    where
      nothing : Genuine (λ y. Memᴰ (arrive y) es) (λ i. none) (λ i. none)
      nothing = record {
        calls = λ j r' e. absurd (none-ne-some r' e);
        sends = λ i ch y e. absurd (none-ne-some (sending ch y) e);
      }
