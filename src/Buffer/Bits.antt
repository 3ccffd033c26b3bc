-- ===== src/Buffer/Bits.antt =====
-- Setting one bit of a slice of bytes.
use Prim.Native.Nat.{bit_or}
use app_modbus_go.Prelude.Eq.{ℕ_eq, ◌==◌}
use app_modbus_go.Prelude.{
  inr, ==_iff, inl, Bool-cases, ℕ, zero, suc, ◌+◌, ◌/◌, ◌%◌, ◌^◌, ◌<◌, ◌≡◌, refl, ap, Bool, true,
  ◌&&◌, List, [], ◌∷◌, arith, ltb, if◌then◌else◌, length, set, get_or, lt→ltb,
}
use app_modbus_go.Run.{returned}
use app_modbus_go.Buffer.{false, or_byte}
use app_modbus_go.Bytes.Order.{AreBytes}

-- bit `k` of a number
abbrev pub bit : ℕ → ℕ → ℕ
bit x k = x / 2 ^ k % 2

-- bit `i` of the bytes of a response, the lowest bit of the first byte first
abbrev pub bit_of : List ℕ → ℕ → ℕ
bit_of bytes i = bit (get_or bytes (i / 8) 0) (i % 8)

-- a test passes for every number below a bound
passes : (ℕ → Bool) → ℕ → Bool
passes test zero = true
passes test (suc bound) = passes test bound && test bound

passes-lt :
    (test : ℕ → Bool) (bound : ℕ) {i : ℕ} → i < bound → passes test bound ≡ true → test i ≡ true
unfolding passes
passes-lt test zero below all_pass = absurd (omega arith)
passes-lt test (suc bound) {i = i} below all_pass = ground (arith, passes-lt test bound {i = i})

or_test : ℕ → ℕ → ℕ → Bool
or_test x k j =
    ltb (bit_or x (2 ^ k)) 256 && bit (bit_or x (2 ^ k)) j == (if k == j then 1 else bit x j)

or_table : passes (λ x. passes (λ k. passes (λ j. or_test x k j) 8) 8) 256 ≡ true
unfolding passes or_test
or_table = refl

or_tested : (x k j : ℕ) → x < 256 → k < 8 → j < 8 → or_test x k j ≡ true
or_tested x k j hx hk hj = passes-lt _ 8 hj (passes-lt _ 8 hk (passes-lt _ 256 hx or_table))

bit_or-lt : (x k : ℕ) → x < 256 → k < 8 → bit_or x (2 ^ k) < 256
unfolding or_test
bit_or-lt x k hx hk = ground (arith, or_tested x k 0 hx hk)

bit-bit_or :
    (x k j : ℕ)
    → x < 256
    → k < 8
    → j < 8
    → bit (bit_or x (2 ^ k)) j ≡ (if k == j then 1 else bit x j)
unfolding or_test
bit-bit_or x k j hx hk hj = ground (arith, or_tested x k j hx hk hj)

get_or-set :
    (xs : List ℕ) (i j v : ℕ)
    → i < length xs
    → get_or (set xs i v) j 0 ≡ (if i == j then v else get_or xs j 0)
get_or-set [] i j v h = elim h [ ]
get_or-set (x ∷ xs) zero zero v h = refl
get_or-set (x ∷ xs) zero (suc j) v h = ground arith
get_or-set (x ∷ xs) (suc i) zero v h = ground arith
get_or-set (x ∷ xs) (suc i) (suc j) v h = ground (arith, get_or-set xs i j v)

get_or-lt : (xs : List ℕ) (i : ℕ) → AreBytes xs → get_or xs i 0 < 256
get_or-lt [] i h = omega arith
get_or-lt (x ∷ xs) zero h = h.0
get_or-lt (x ∷ xs) (suc i) h = get_or-lt xs i h.1

set-AreBytes : (xs : List ℕ) (i v : ℕ) → AreBytes xs → v < 256 → AreBytes (set xs i v)
set-AreBytes [] i v h k = tt
set-AreBytes (x ∷ xs) zero v h k = (k, h.1)
set-AreBytes (x ∷ xs) (suc i) v h k = (h.0, set-AreBytes xs i v h.1 k)

-- the slice behind `data[1+i/8] |= 1 << (i % 8)`, the first byte left off
abbrev pub with_bit : List ℕ → ℕ → List ℕ
with_bit bytes i = set bytes (i / 8) (bit_or (get_or bytes (i / 8) 0) (2 ^ (i % 8)))

pub or_byte-with_bit :
    (count : ℕ) (bytes : List ℕ) (i : ℕ)
    → i / 8 < length bytes
    → or_byte (count ∷ bytes) (1 + i / 8) (2 ^ (i % 8)) ≡ returned (count ∷ with_bit bytes i)
unfolding or_byte
or_byte-with_bit count bytes i h =
    let e : 1 + i / 8 ≡ suc (i / 8) = omega arith in
    rw (e, lt→ltb (suc (i / 8)) (suc (length bytes)) (omega arith))

pub with_bit-AreBytes : (bytes : List ℕ) (i : ℕ) → AreBytes bytes → AreBytes (with_bit bytes i)
with_bit-AreBytes bytes i h =
    set-AreBytes bytes (i / 8) _ h (bit_or-lt _ (i % 8) (get_or-lt bytes (i / 8) h) (omega arith))

same_test : (i j : ℕ) → i / 8 ≡ j / 8 → (i % 8 == j % 8) ≡ (i == j)
same_test i j e = ground arith

different_test : (i j : ℕ) → (i / 8 == j / 8) ≡ false → (i == j) ≡ false
different_test i j e = ground arith

-- Only the bit `i` changes.
pub bit_of-with_bit :
    (bytes : List ℕ) (i j : ℕ)
    → AreBytes bytes
    → i / 8 < length bytes
    → bit_of (with_bit bytes i) j ≡ (if i == j then 1 else bit_of bytes j)
bit_of-with_bit bytes i j h k = elim (Bool-cases (i / 8 == j / 8)) [
  | inl same ↦
      let e : i / 8 ≡ j / 8 = (==_iff (i / 8) (j / 8)).0 same in
      let byte = get_or bytes (i / 8) 0 in
      rw
        (
          get_or-set bytes (i / 8) (j / 8) (bit_or byte (2 ^ (i % 8))) k,
          same,
          bit-bit_or byte (i % 8) (j % 8) (get_or-lt bytes (i / 8) h) (omega arith) (omega arith),
          ← e,
        )
        (ap (λ (b : Bool). if b then 1 else bit byte (j % 8)) (same_test i j e))
  | inr other ↦
      rw
        (
          get_or-set bytes (i / 8) (j / 8) (bit_or (get_or bytes (i / 8) 0) (2 ^ (i % 8))) k,
          other,
          different_test i j other,
        )
        refl
]
