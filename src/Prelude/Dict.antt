-- ===== src/Prelude/Dict.antt =====
-- Go's `map[K]V` as an association list. The order of the entries stands for the order in which
-- `range` happens to visit them, which Go leaves open.
use app_modbus_go.Prelude.Tests.{if◌then◌else◌, Bool-cases}
use app_modbus_go.Prelude.Eq.{Eq, ◌==◌}
use mathlib.Core.Path.{◌≡◌, refl}
use mathlib.Core.Logic.{inl, inr}
use mathlib.Core.Option.{Option, none, some}
use mathlib.Core.List.{List, [], ◌∷◌}
use native.Mathlib.Omega.{arith}

abbrev pub Dict {ℓ κ} : Type ℓ → Type κ → Type (ℓ ⊔ κ)
Dict K V = List (K × V)

module _ {ℓ κ} {K : Type ℓ} {V : Type κ} ⦃e : Eq K⦄ where
  -- `v, ok := m[k]`
  unfoldable pub lookup : K → Dict K V → Option V
  lookup k [] = none
  lookup k ((j, v) ∷ m) = if j == k then some v else lookup k m

  -- `m[k] = v`
  unfoldable pub insert : K → V → Dict K V → Dict K V
  insert k v [] = (k, v) ∷ []
  insert k v ((key, old) ∷ rest) = if key == k then (k, v) ∷ rest else (key, old) ∷ insert k v rest

  -- `delete(m, k)`
  unfoldable pub erase : K → Dict K V → Dict K V
  erase k [] = []
  erase k ((j, v) ∷ m) = let rest = erase k m in if j == k then rest else (j, v) ∷ rest

  pub lookup-insert :
      (k key : K) (v : V) (m : Dict K V)
      → lookup key (insert k v m) ≡ (if k == key then some v else lookup key m)
  unfolding insert lookup
  lookup-insert k j v [] = refl
  lookup-insert k j v (first ∷ m) =
      let i = first.0 in
      ground (arith, e.agree_iff k j, e.agree_iff i k, e.agree_iff i j, lookup-insert k j v m)

  pub lookup-erase :
      (k j : K) (m : Dict K V) → lookup j (erase k m) ≡ (if k == j then none else lookup j m)
  unfolding lookup erase
  lookup-erase k j [] = ground arith
  lookup-erase k j ((i, w) ∷ m) =
      ground (arith, e.agree_iff k j, e.agree_iff i k, e.agree_iff i j, lookup-erase k j m)

  -- No key stands twice, as in every Go map.
  abbrev pub Unique : Dict K V → Type κ
  Unique [] = Unit
  Unique ((k, v) ∷ m) = (lookup k m ≡ none) × Unique m

  -- What every write and delete of a map keeps.
  pub insert-Unique : (k : K) (v : V) (m : Dict K V) → Unique m → Unique (insert k v m)
  unfolding insert lookup
  insert-Unique k v [] h = (refl, tt)
  insert-Unique k v ((j, w) ∷ m) h = elim (Bool-cases (j == k)) [
    | inl same ↦ rw same (rw ((e.agree_iff j k).0 same) at h)
    | inr new ↦ rw new (
      ground (arith, e.agree_iff j k, e.agree_iff k j, lookup-insert k j v m),
      insert-Unique k v m h.1,
    )
  ]

  pub erase-Unique : (k : K) (m : Dict K V) → Unique m → Unique (erase k m)
  unfolding erase lookup
  erase-Unique k [] h = tt
  erase-Unique k ((j, w) ∷ m) h = elim (Bool-cases (j == k)) [
    | inl same ↦ rw same (erase-Unique k m h.1)
    | inr new ↦ rw new (ground (arith, lookup-erase k j m), erase-Unique k m h.1)
  ]
