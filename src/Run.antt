-- ===== src/Run.antt =====
-- How a Go function ends in the model: it returns, it panics, or, where a loop runs on fuel, it has
-- not ended yet.

pub data Run {ℓ} (A : Type ℓ) : Type ℓ where
  returned : A → Run A
  panicked : Run A
  out_of_fuel : Run A

infixl 5 ◌>>=◌
abbrev pub ◌>>=◌ {ℓ κ} : {A : Type ℓ} {B : Type κ} → Run A → (A → Run B) → Run B
returned a >>= f = f a
panicked >>= f = panicked
out_of_fuel >>= f = out_of_fuel
