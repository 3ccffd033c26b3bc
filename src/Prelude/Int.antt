-- ===== src/Prelude/Int.antt =====
-- Go's signed integers and durations, over the native numbers.
use Prim.Native.Nat.{ℕ, suc, ◌+◌, ◌-◌, ◌%◌, ◌≤◌, ◌<◌}
use mathlib.Core.Bool.{Bool}
use mathlib.Core.Bool.{true}
use mathlib.Core.Path.{◌≡◌}
use mathlib.Core.Logic.{◌↔◌}
use native.Mathlib.Omega.{arith}
use app_modbus_go.Prelude.Eq.{Eq}
use app_modbus_go.Prelude.Tests.{ltb, leb, ◌==◌, if◌then◌else◌}

-- `negsuc n` is -(n + 1).
pub data ℤ : Type 0 where
  pos : ℕ → ℤ
  negsuc : ℕ → ℤ

abbrev pub pos_part : ℤ → ℕ
pos_part (pos n) = n
pos_part (negsuc n) = 0

abbrev pub neg_part : ℤ → ℕ
neg_part (pos n) = 0
neg_part (negsuc n) = suc n

-- a - b, as an integer.
abbrev pub sub_ℕ : ℕ → ℕ → ℤ
sub_ℕ a b = if leb b a then pos (a - b) else negsuc (b - a - 1)

abbrev pub ltb_ℤ : ℤ → ℤ → Bool
ltb_ℤ a b = ltb (pos_part a + neg_part b) (pos_part b + neg_part a)

abbrev pub eqb_ℤ : ℤ → ℤ → Bool
eqb_ℤ a b = pos_part a + neg_part b == pos_part b + neg_part a

-- The conversion to an unsigned type of `m` values, `m` a power of two: the remainder mod `m`.
unfoldable pub wrap : ℕ → ℤ → ℕ
wrap m (pos n) = n % m
wrap m (negsuc n) = m - 1 - n % m

-- The number that a pattern of a signed type of `m` values stands for.
unfoldable pub signed : ℕ → ℕ → ℤ
signed m w = if ltb (w + w) m then pos w else negsuc (m - w - 1)

-- The conversion to a signed type of `m` values.
abbrev pub wrap_signed : ℕ → ℤ → ℤ
wrap_signed m z = signed m (wrap m z)

-- `z` is a value of the signed type of `m` values.
abbrev pub InSigned : ℕ → ℤ → Type 0
InSigned m z = (pos_part z + pos_part z < m) × (neg_part z + neg_part z ≤ m)

pub eqb_ℤ_iff : (a b : ℤ) → (eqb_ℤ a b ≡ true) ↔ (a ≡ b)
eqb_ℤ_iff a b = (same a b, equal a b)
  where
    same : (a b : ℤ) → eqb_ℤ a b ≡ true → a ≡ b
    same a b h = ground arith

    equal : (a b : ℤ) → a ≡ b → eqb_ℤ a b ≡ true
    equal a b h = ground arith

instance abbrev pub ℤ_eq : Eq ℤ
ℤ_eq = record { agree = eqb_ℤ; agree_iff = eqb_ℤ_iff }
