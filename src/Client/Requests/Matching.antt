-- ===== src/Client/Requests/Matching.antt =====
-- Which response a call gets, and which requests stay pending: every event of PublishAndWait and
-- onMessage (internal/pkg/mqtt/client.go) keeps the invariant.
use mathlib.Core.Option.{none-ne-some, some-injective}
use mathlib.Core.Path.{subst}
use app_modbus_go.Prelude.{ℕ, ◌≡◌, refl, inl, inr, String, some, List, [], ◌∷◌, Option-cases}
use app_modbus_go.Prelude.Eq.{ℕ_eq, String_eq}
use app_modbus_go.Prelude.Dict.{lookup}
use app_modbus_go.Value.{Floats}
use app_modbus_go.Message.{MqttResponse}
use app_modbus_go.Client.Requests.{
  answered, Request, Requests, Event, request, published, publish_failed, receive, time_out, arrive,
  send, delete, no_requests, step, run,
}
use app_modbus_go.Client.Requests.Consistency.{
  Awaited, Consistent, no_requests-Consistent, start_request-Consistent,
}
use app_modbus_go.Client.Requests.Steps.{
  step_published-Consistent, step_publish_failed-Consistent, step_time_out-Consistent,
  step_receive-Consistent, step_arrive-Consistent, step_send-Consistent, step_delete-Consistent,
}

module _ {fl : Floats} where
  pub step-Consistent :
      (e : Event fl) (s s' : Requests fl) → Consistent s → step e s ≡ some s' → Consistent s'
  unfolding step
  step-Consistent (request id) s s' c h =
      subst Consistent (some-injective _ s' h) (start_request-Consistent id s c)
  step-Consistent (published k) s s' c h = elim (Option-cases (s.requests k)) [
    | inl e ↦ absurd (none-ne-some s' (rw e at h))
    | inr (r, e) ↦ step_published-Consistent k r s s' e c r.phase (rw e at h)
  ]
  step-Consistent (publish_failed k) s s' c h = elim (Option-cases (s.requests k)) [
    | inl e ↦ absurd (none-ne-some s' (rw e at h))
    | inr (r, e) ↦ step_publish_failed-Consistent k r s s' e c r.phase (rw e at h)
  ]
  step-Consistent (receive k) s s' c h = elim (Option-cases (s.requests k)) [
    | inl e ↦ absurd (none-ne-some s' (rw e at h))
    | inr (r, e) ↦ step_receive-Consistent k r s s' e c r.phase r.buffer refl (rw e at h)
  ]
  step-Consistent (time_out k) s s' c h = elim (Option-cases (s.requests k)) [
    | inl e ↦ absurd (none-ne-some s' (rw e at h))
    | inr (r, e) ↦ step_time_out-Consistent k r s s' e c r.phase (rw e at h)
  ]
  step-Consistent (arrive resp) s s' c h =
      subst Consistent (some-injective _ s' h) (step_arrive-Consistent resp s c)
  step-Consistent (send i) s s' c h = step_send-Consistent i s s' c (s.deliveries i) refl h
  step-Consistent (delete i) s s' c h = step_delete-Consistent i s s' c (s.deliveries i) refl h

  pub run-Consistent :
      (events : List (Event fl)) (s s' : Requests fl)
      → Consistent s
      → run events s ≡ some s'
      → Consistent s'
  unfolding run
  run-Consistent [] s s' c h = subst Consistent (some-injective s s' h) c
  run-Consistent (e ∷ es) s s' c h = elim (Option-cases (step e s)) [
    | inl stuck ↦ absurd (none-ne-some s' (rw (run, stuck) at h))
    | inr (s₁, next) ↦ run-Consistent es s₁ s' (step-Consistent e s s₁ c next) (rw (run, next) at h)
  ]

  -- In any order of the calls and the deliveries, a call that returns a response returns one with
  -- the request id of its own message.
  pub answered_lem :
      (events : List (Event fl)) (s : Requests fl) (k : ℕ) (r : Request fl) (resp : MqttResponse fl)
      → run events no_requests ≡ some s
      → s.requests k ≡ some r
      → r.phase ≡ answered resp
      → resp.request_id ≡ r.request_id
  answered_lem events s k r resp h at done =
      ((run-Consistent events no_requests s no_requests-Consistent h).own k r at).answer resp done

  -- In any order of the calls and the deliveries, a pending request is that of a call of its id which
  -- has not ended and whose channel is empty, or a delivery is about to delete it.
  pub pending_lem :
      (events : List (Event fl)) (s : Requests fl) (id : String) (k : ℕ)
      → run events no_requests ≡ some s
      → lookup id s.pending ≡ some k
      → (r : Request fl) × (s.requests k ≡ some r) × (r.request_id ≡ id) × Awaited s id r
  pending_lem events s id k h found =
      let c = run-Consistent events no_requests s no_requests-Consistent h in
      let (r, at, named) = c.pends id k found in (r, at, named, c.awaits id k r found at)
