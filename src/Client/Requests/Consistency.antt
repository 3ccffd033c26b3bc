-- ===== src/Client/Requests/Consistency.antt =====
-- An invariant of the events of PublishAndWait and onMessage (internal/pkg/mqtt/client.go), and the changes
-- of the calls, of the deliveries and of the pending requests that keep it.
use mathlib.Core.Option.{none-ne-some, some-injective}
use mathlib.Core.Path.{subst}
use app_modbus_go.Prelude.{
  ℕ, ◌≤◌, ◌<◌, ◌≡◌, refl, sym, ap, ◌∙◌, ◌⊎◌, inl, inr, String, Bool, true, false, none, some, arith,
  Bool-cases, ==_iff,
}
use app_modbus_go.Prelude.Eq.{ℕ_eq, String_eq, ◌==◌}
use app_modbus_go.Prelude.Dict.{lookup, insert, erase, lookup-insert, lookup-erase}
use app_modbus_go.Value.{Floats}
use app_modbus_go.Message.{MqttResponse}
use app_modbus_go.Client.Requests.{
  Phase, publishing, waiting, answered, Request, Delivery, sending, deleting, Requests, update,
  no_requests, set_request, start_request,
}

-- What a changed function holds at an index.
pub update_cases :
    {A : Type 0} (f : ℕ → A) (k : ℕ) (a : A) (i : ℕ) (b : A)
    → update f k a i ≡ b
    → ((k ≡ i) × (a ≡ b)) ⊎ (f i ≡ b)
update_cases f k a i b h = elim (Bool-cases (k == i)) [
  | inl same ↦ inl ((==_iff k i).0 same, (rw same at h))
  | inr other ↦ inr (rw other at h)
]

pub update-same : {A : Type 0} (f : ℕ → A) (k : ℕ) (a : A) → update f k a k ≡ a
update-same f k a = rw ((==_iff k k).1 refl) refl

-- A call that has not ended.
abbrev pub live : {fl : Floats} → Phase fl → Bool
live publishing = true
live waiting = true
live _ = false

module _ {fl : Floats} where
  -- Why a request may be pending: its call has not ended and nothing came, or a delivery is about
  -- to delete it.
  abbrev pub Awaited : Requests fl → String → Request fl → Type 0
  Awaited s id r =
      ((live r.phase ≡ true) × (r.buffer ≡ none))
      ⊎ ((i : ℕ) × (s.deliveries i ≡ some (deleting id)))

  abbrev pub Owned : Requests fl → String → ℕ → Type 0
  Owned s id k = (r : Request fl) × (s.requests k ≡ some r) × (r.request_id ≡ id)

  -- The channel that a delivery has looked up is of a request of its id.
  abbrev pub Addressed : Requests fl → Delivery fl → Type 0
  Addressed s (sending ch resp) = Owned s resp.request_id ch
  Addressed s _ = Unit

  -- What a call holds is for it.
  pub record Own (r : Request fl) : Type 0 where
    pub answer : (resp : MqttResponse fl) → r.phase ≡ answered resp → resp.request_id ≡ r.request_id
    pub buffered : (resp : MqttResponse fl) → r.buffer ≡ some resp → resp.request_id ≡ r.request_id

  pub record Consistent (s : Requests fl) : Type 0 where
    pub unused : (k : ℕ) → s.next_request ≤ k → s.requests k ≡ none
    pub unsent : (i : ℕ) → s.next_delivery ≤ i → s.deliveries i ≡ none
    pub own : (k : ℕ) (r : Request fl) → s.requests k ≡ some r → Own r
    pub sends :
        (i ch : ℕ) (resp : MqttResponse fl)
        → s.deliveries i ≡ some (sending ch resp)
        → Owned s resp.request_id ch
    pub pends : (id : String) (k : ℕ) → lookup id s.pending ≡ some k → Owned s id k
    pub awaits :
        (id : String) (k : ℕ) (r : Request fl)
        → lookup id s.pending ≡ some k
        → s.requests k ≡ some r
        → Awaited s id r

  pub no_requests-Consistent : Consistent no_requests
  unfolding no_requests lookup
  no_requests-Consistent = record {
    unused = λ k le. refl;
    unsent = λ i le. refl;
    own = λ k r e. absurd (none-ne-some r e);
    sends = λ i ch resp e. absurd (none-ne-some (sending ch resp) e);
    pends = λ id k e. absurd (none-ne-some k e);
    awaits = λ id k r e e'. absurd (none-ne-some k e);
  }

  -- What is pending after a delete was so before it, under another id.
  pub erased :
      (s : Requests fl) (id id' : String) (k : ℕ)
      → lookup id' (erase id s.pending) ≡ some k
      → ((id == id') ≡ false) × (lookup id' s.pending ≡ some k)
  erased s id id' k h = elim (Bool-cases (id == id')) [
    | inl same ↦ absurd (none-ne-some k (rw (lookup-erase id id' s.pending, same) at h))
    | inr other ↦ (other, rw (lookup-erase id id' s.pending, other) at h)
  ]

  pub erase-Consistent :
      (id : String) (s : Requests fl)
      → Consistent s
      → Consistent (record s { pending = erase id s.pending })
  erase-Consistent id s c = record {
    unused = c.unused;
    unsent = c.unsent;
    own = c.own;
    sends = c.sends;
    pends = λ id' k h. c.pends id' k (erased s id id' k h).1;
    awaits = λ id' k r h at. c.awaits id' k r (erased s id id' k h).1 at;
  }

  -- A call that changes and keeps its id.
  module _ (k : ℕ) (r r' : Request fl) (s : Requests fl) (at : s.requests k ≡ some r)
      (same : r'.request_id ≡ r.request_id) where
    set_request-Owned : (id : String) (j : ℕ) → Owned s id j → Owned (set_request k r' s) id j
    set_request-Owned id j (q, e, named) = elim (Bool-cases (k == j)) [
      | inl here ↦
          let old : s.requests j ≡ some r = ap s.requests (sym ((==_iff k j).0 here)) ∙ at in
          (
            r',
            rw here refl,
            same ∙ ap (λ x. x.request_id) (some-injective r q (sym old ∙ e)) ∙ named,
          )
      | inr other ↦ (q, rw other e, named)
    ]

    pub set_request-Consistent :
        Own r'
        → (lookup r.request_id s.pending ≡ some k → Awaited s r.request_id r')
        → Consistent s
        → Consistent (set_request k r' s)
    set_request-Consistent own' awaited c = record {
      unused = λ j le. elim (Bool-cases (k == j)) [
        | inl here ↦
            absurd (
              none-ne-some r (sym (c.unused j le) ∙ ap s.requests (sym ((==_iff k j).0 here)) ∙ at))
        | inr other ↦ rw other (c.unused j le)
      ];
      unsent = c.unsent;
      own = λ j q e. elim (update_cases s.requests k (some r') j (some q) e) [
        | inl (here, new) ↦ subst Own (some-injective r' q new) own'
        | inr old ↦ c.own j q old
      ];
      sends = λ i ch resp e. set_request-Owned resp.request_id ch (c.sends i ch resp e);
      pends = λ id j e. set_request-Owned id j (c.pends id j e);
      awaits = λ id j q e e'. elim (update_cases s.requests k (some r') j (some q) e') [
        | inl (here, new) ↦
            let (o, e'', named) = c.pends id k (e ∙ ap some (sym here)) in
            let mine : r.request_id ≡ id =
              ap (λ x. x.request_id) (some-injective r o (sym at ∙ e'')) ∙ named in
            let held : lookup r.request_id s.pending ≡ some k =
              ap (λ x. lookup x s.pending) mine ∙ e ∙ ap some (sym here) in
            subst (λ x. Awaited s x q) mine
              (subst (Awaited s r.request_id) (some-injective r' q new) (awaited held))
        | inr old ↦ c.awaits id j q e old
      ];
    }

  -- A delivery that moves on, and is not the last that would delete a pending request.
  module _ (i n : ℕ) (d : Delivery fl) (s : Requests fl) (grows : s.next_delivery ≤ n)
      (inside : i < n) where
    abbrev moved : Requests fl
    moved = record s { deliveries = update s.deliveries i (some d); next_delivery = n }

    pub set_delivery-Consistent :
        Addressed s d
        → ((id : String) (k : ℕ)
            → s.deliveries i ≡ some (deleting id)
            → lookup id s.pending ≡ some k
            → ⊥)
        → Consistent s
        → Consistent moved
    set_delivery-Consistent target last c = record {
      unused = c.unused;
      unsent = λ j le. elim (Bool-cases (i == j)) [
        | inl here ↦ absurd (omega (arith, (==_iff i j).0 here))
        | inr other ↦ rw other (c.unsent j (omega arith))
      ];
      own = c.own;
      sends = λ j ch resp e.
          elim (update_cases s.deliveries i (some d) j (some (sending ch resp)) e) [
            | inl (here, new) ↦ subst (Addressed s) (some-injective d (sending ch resp) new) target
            | inr old ↦ c.sends j ch resp old
          ];
      pends = c.pends;
      awaits = λ id k r e at. elim (c.awaits id k r e at) [
        | inl waits ↦ inl waits
        | inr (j, del) ↦ elim (Bool-cases (i == j)) [
          | inl here ↦ absurd (last id k (ap s.deliveries ((==_iff i j).0 here) ∙ del) e)
          | inr other ↦ inr (j, rw other del)
        ]
      ];
    }

  module _ (id : String) (s : Requests fl) (c : Consistent s) where
    abbrev new_request : Request fl
    new_request = record { request_id = id; phase = publishing; buffer = none }

    pub kept :
        (k : ℕ) (r : Request fl)
        → s.requests k ≡ some r
        → update s.requests s.next_request (some new_request) k ≡ some r
    kept k r e = elim (Bool-cases (s.next_request == k)) [
      | inl here ↦
          absurd (
            none-ne-some r (sym (c.unused k (omega (arith, (==_iff s.next_request k).0 here))) ∙ e))
      | inr other ↦ rw other e
    ]

    kept-Owned : (id' : String) (k : ℕ) → Owned s id' k → Owned (start_request id s) id' k
    unfolding start_request
    kept-Owned id' k (r, e, named) = (r, kept k r e, named)

    -- What is pending after the start: the new call, or what was.
    started :
        (id' : String) (k : ℕ)
        → lookup id' (insert id s.next_request s.pending) ≡ some k
        → ((id ≡ id') × (s.next_request ≡ k)) ⊎ (lookup id' s.pending ≡ some k)
    started id' k e = elim (Bool-cases (id == id')) [
      | inl same ↦ inl (
        (String_eq.agree_iff id id').0 same,
        some-injective s.next_request k
            (rw (lookup-insert id id' s.next_request s.pending, same) at e),
      )
      | inr other ↦ inr (rw (lookup-insert id id' s.next_request s.pending, other) at e)
    ]

    pub start_request-Consistent : Consistent (start_request id s)
    unfolding start_request
    start_request-Consistent = record {
      unused = λ k le. elim (Bool-cases (s.next_request == k)) [
        | inl here ↦ absurd (omega (arith, (==_iff s.next_request k).0 here))
        | inr other ↦ rw other (c.unused k (omega arith))
      ];
      unsent = c.unsent;
      own = λ k r e. elim (update_cases s.requests s.next_request (some new_request) k (some r) e) [
        | inl (here, new) ↦
            subst Own (some-injective new_request r new)
              (record { answer = λ resp p. cc; buffered = λ resp p. absurd (none-ne-some resp p) })
        | inr old ↦ c.own k r old
      ];
      sends = λ i ch resp e. kept-Owned resp.request_id ch (c.sends i ch resp e);
      pends = λ id' k e. elim (started id' k e) [
        | inl (same, here) ↦
            subst (Owned (start_request id s) id') here
              (new_request, update-same s.requests s.next_request (some new_request), same)
        | inr old ↦ kept-Owned id' k (c.pends id' k old)
      ];
      awaits = λ id' k r e at. elim (started id' k e) [
        | inl (same, here) ↦
            let new : new_request ≡ r = some-injective new_request r (
              sym (update-same s.requests s.next_request (some new_request))
              ∙ ap (update s.requests s.next_request (some new_request)) here
              ∙ at) in
            inl (ap (λ x. live x.phase) (sym new), ap (λ x. x.buffer) (sym new))
        | inr old ↦
            let (o, e', named) = c.pends id' k old in
            c.awaits id' k r old (e' ∙ sym (kept k o e') ∙ at)
      ];
    }
