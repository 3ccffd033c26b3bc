-- ===== src/ForwardLog/Retries.antt =====
-- How often an entry is sent.
use app_modbus_go.Prelude.{
  ℕ, zero, suc, ◌+◌, ◌≡◌, ◌<◌, ◌⊎◌, inl, inr, refl, ap, ◌∙◌, Bool, true, false, List, [], ◌∷◌, ◌++◌,
  arith, replicate, Bool-cases,
}
use app_modbus_go.Value.{Floats}
use app_modbus_go.ForwardLog.{ForwardLogPayload, Attempt, sent, failed, send_loop}

module _ {fl : Floats} (publish : ℕ → Bool) (payload : ForwardLogPayload fl) where
  -- the first success after `k` failures
  abbrev pub Delivered : ℕ → ℕ → List (Attempt fl) → Type 0
  Delivered call n attempts =
      (k : ℕ) × (k < n)
      × ((i : ℕ) → i < k → publish (call + i) ≡ false)
      × (publish (call + k) ≡ true)
      × (attempts ≡ replicate k (failed payload) ++ (sent payload ∷ []))

  abbrev pub GivenUp : ℕ → ℕ → List (Attempt fl) → Type 0
  GivenUp call n attempts =
      ((i : ℕ) → i < n → publish (call + i) ≡ false) × (attempts ≡ replicate n (failed payload))

  at : {b : Bool} (i j : ℕ) → i ≡ j → publish j ≡ b → publish i ≡ b
  at i j same e = ap publish same ∙ e

  -- the calls behind a first one that failed
  later :
      (call n : ℕ)
      → publish call ≡ false
      → ((i : ℕ) → i < n → publish (call + 1 + i) ≡ false)
      → (i : ℕ) → i < suc n
      → publish (call + i) ≡ false
  later call n first others zero h = at (call + 0) call (omega arith) first
  later call n first others (suc i) h =
      at (call + suc i) (call + 1 + i) (omega arith) (others i (omega arith))

  -- The attempts to send a payload end with the first success, which no attempt follows; where each
  -- of the calls allowed fails, there are as many attempts as allowed, and the entry is given up.
  pub send_loop_lem :
      (call n : ℕ)
      → Delivered call n (send_loop publish call payload n)
        ⊎ GivenUp call n (send_loop publish call payload n)
  unfolding send_loop
  send_loop_lem call zero = inr (λ i h. absurd (omega arith), refl)
  send_loop_lem call (suc n) = elim (Bool-cases (publish call)) [
    | inl e ↦
        inl (
          0,
          omega arith,
          λ i h. absurd (omega arith),
          at (call + 0) call (omega arith) e,
          rw e refl,
        )
    | inr e ↦ elim (send_loop_lem (call + 1) n) [
      | inl (k, k_lt, failing, success, run) ↦ inl (
        suc k,
        omega arith,
        later call k e failing,
        at (call + suc k) (call + 1 + k) (omega arith) success,
        rw e (ap (λ xs. failed payload ∷ xs) run),
      )
      | inr (failing, run) ↦ inr (later call n e failing, rw e (ap (λ xs. failed payload ∷ xs) run))
    ]
  ]
