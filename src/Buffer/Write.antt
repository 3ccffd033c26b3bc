-- ===== src/Buffer/Write.antt =====
-- Writing behind a prefix of a slice.
use app_modbus_go.Prelude.{
  ℕ, ◌+◌, ◌≡◌, ◌≤◌, refl, ap, List, [], ◌∷◌, ◌++◌, arith, le→leb, length, set, take, drop,
  length-append, lt→ltb,
}
use mathlib.Core.List.{append_assoc}
use native.Mathlib.Nat.{suc-add}
use app_modbus_go.Run.{returned}
use app_modbus_go.Buffer.{set_byte, copy_at}

set-append :
    (pre : List ℕ) (z b : ℕ) (zs : List ℕ) → set (pre ++ (z ∷ zs)) (length pre) b ≡ pre ++ (b ∷ zs)
set-append [] z b zs = refl
set-append (x ∷ pre) z b zs = ap (◌∷◌ x) (set-append pre z b zs)

take-append : (pre zs : List ℕ) → take (length pre) (pre ++ zs) ≡ pre
take-append [] zs = refl
take-append (x ∷ pre) zs = ap (◌∷◌ x) (take-append pre zs)

drop-append : (pre zs : List ℕ) (n : ℕ) → drop (length pre + n) (pre ++ zs) ≡ drop n zs
drop-append [] zs n = ap (λ k. drop k zs) (omega arith)
drop-append (x ∷ pre) zs n = rw suc-add (drop-append pre zs n)

pub set_byte-append :
    (pre : List ℕ) (z b : ℕ) (zs : List ℕ) (i : ℕ)
    → i ≡ length pre
    → set_byte (pre ++ (z ∷ zs)) i b ≡ returned (pre ++ (b ∷ zs))
unfolding set_byte
set_byte-append pre z b zs i h =
    rw
      (
        h,
        lt→ltb (length pre) (length (pre ++ (z ∷ zs)))
            (omega (arith, length-append {0} pre (z ∷ zs))),
        set-append pre z b zs,
      )
      refl

pub copy_at-append :
    (pre zs bs : List ℕ) (i : ℕ)
    → i ≡ length pre
    → length bs ≤ length zs
    → copy_at (pre ++ zs) i bs ≡ returned (pre ++ (bs ++ drop (length bs) zs))
unfolding copy_at
copy_at-append pre zs bs i h k =
    rw
      (
        h,
        le→leb (length pre + length bs) (length (pre ++ zs))
            (omega (arith, length-append {0} pre zs)),
        take-append pre zs,
        drop-append pre zs (length bs),
      )
      refl

pub set_byte_next :
    (pre : List ℕ) (a z b : ℕ) (zs : List ℕ) (i : ℕ)
    → i ≡ length pre + 1
    → set_byte (pre ++ (a ∷ (z ∷ zs))) i b ≡ returned (pre ++ (a ∷ (b ∷ zs)))
set_byte_next pre a z b zs i h =
    rw (← append_assoc pre (a ∷ []) (z ∷ zs), ← append_assoc pre (a ∷ []) (b ∷ zs))
      (set_byte-append (pre ++ (a ∷ [])) z b zs i (omega (arith, length-append {0} pre (a ∷ []))))
