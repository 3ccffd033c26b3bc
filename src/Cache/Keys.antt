-- ===== src/Cache/Keys.antt =====
-- The cache's map: no address twice, how many entries it has, and its copy.
use app_modbus_go.Prelude.{
  ℕ, ◌+◌, ◌≡◌, refl, ap, none, some, [], ◌∷◌, arith, length, Bool-cases, inl, inr, zero, suc, ◌<◌,
  get_elem?, ◌%◌,
}
use app_modbus_go.Prelude.Eq.{ℕ_eq}
use app_modbus_go.Prelude.Dict.{Dict, Unique, lookup, insert, lookup-insert}
use app_modbus_go.Value.{Floats}
use app_modbus_go.Cache.{
  CachedData, Cache, is_expired, fresh, get, cleanup_loop, cleanup, size, copy_loop, get_all,
  get_range_loop, get_range,
}

module _ {fl : Floats} where
  pub lookup-cleanup_loop-none :
      (now a : ℕ) (m : Dict ℕ (CachedData fl))
      → lookup a m ≡ none
      → lookup a (cleanup_loop now m).0 ≡ none
  unfolding lookup cleanup_loop
  lookup-cleanup_loop-none now a [] h = refl
  lookup-cleanup_loop-none now a ((k, d) ∷ m) h = ground (arith, lookup-cleanup_loop-none now a m)

  pub cleanup_loop-Unique :
      (now : ℕ) (m : Dict ℕ (CachedData fl)) → Unique m → Unique (cleanup_loop now m).0
  unfolding cleanup_loop
  cleanup_loop-Unique now [] u = tt
  cleanup_loop-Unique now ((k, d) ∷ m) u = elim (Bool-cases (is_expired now d)) [
    | inl old ↦ rw old (cleanup_loop-Unique now m u.1)
    | inr new ↦ rw new (lookup-cleanup_loop-none now k m u.0, cleanup_loop-Unique now m u.1)
  ]

  -- the count of `Cleanup` is the number of entries that it removed
  cleanup_loop_count :
      (now : ℕ) (m : Dict ℕ (CachedData fl))
      → length (cleanup_loop now m).0 + (cleanup_loop now m).1 ≡ length m
  unfolding cleanup_loop
  cleanup_loop_count now [] = refl
  cleanup_loop_count now ((k, d) ∷ m) = ground (arith, cleanup_loop_count now m)

  cleanup_loop-fresh :
      (now a : ℕ) (m : Dict ℕ (CachedData fl))
      → Unique m
      → lookup a (cleanup_loop now m).0 ≡ fresh now (lookup a m)
  unfolding cleanup_loop lookup fresh
  cleanup_loop-fresh now a [] u = refl
  cleanup_loop-fresh now a ((k, d) ∷ m) u =
      ground (arith, cleanup_loop-fresh now a m u.1, ℕ_eq.agree_iff k a)

  -- After `Cleanup` the map, if it had no address twice, holds at each address exactly what `Get`
  -- returned there at that time, and the count that it reports is by how much the size fell.
  pub cleanup_lem :
      (now : ℕ) (c : Cache fl)
      → Unique c.entries
      → ((a : ℕ) → lookup a (cleanup now c).0.entries ≡ get now a c)
        × (size (cleanup now c).0 + (cleanup now c).1 ≡ size c)
  unfolding cleanup get size
  cleanup_lem now c u =
      (λ a. cleanup_loop-fresh now a c.entries u, cleanup_loop_count now c.entries)

  lookup-copy_loop :
      (a : ℕ) (m result : Dict ℕ (CachedData fl))
      → Unique m
      → lookup a (copy_loop m result)
        ≡ elim (lookup a m) [ none ↦ lookup a result | some v ↦ some v ]
  unfolding copy_loop lookup
  lookup-copy_loop a [] result u = refl
  lookup-copy_loop a ((k, v) ∷ m) result u = ground (
    arith,
    lookup-copy_loop a m (insert k v result) u.1,
    lookup-insert k a v result,
    ℕ_eq.agree_iff k a,
  )

  -- The copy that `GetAll` makes of a map that has no address twice holds at each address what the
  -- cache holds there, expired entries too.
  pub lookup-get_all :
      (a : ℕ) (c : Cache fl) → Unique c.entries → lookup a (get_all c) ≡ lookup a c.entries
  unfolding get_all lookup
  lookup-get_all a c u = ground (arith, lookup-copy_loop a c.entries [] u)

  get_range_loop_lem :
      (now start j n i : ℕ) (c : Cache fl)
      → i < n
      → get_elem? (get_range_loop now c start j n) i ≡ some (get now ((start + (j + i)) % 65536) c)
  unfolding get_range_loop get
  get_range_loop_lem now start j zero i c h = elim h [ ]
  get_range_loop_lem now start j (suc n) zero c h = ground arith
  get_range_loop_lem now start j (suc n) (suc i) c h =
      ground (arith, get_range_loop_lem now start (j + 1) n i c)

  length-get_range_loop :
      (now start j n : ℕ) (c : Cache fl) → length (get_range_loop now c start j n) ≡ n
  unfolding get_range_loop
  length-get_range_loop now start j zero c = refl
  length-get_range_loop now start j (suc n) c = ap suc (length-get_range_loop now start (j + 1) n c)

  -- `GetRange` returns `quantity` answers, and its answer `i` is that of `Get` at the address
  -- `start + i`, past 65535 from 0 on.
  pub get_range-get :
      (now start quantity : ℕ) (c : Cache fl)
      → (length (get_range now start quantity c) ≡ quantity)
        × ((i : ℕ)
            → i < quantity
            → get_elem? (get_range now start quantity c) i ≡ some (get now ((start + i) % 65536) c))
  unfolding get_range
  get_range-get now start quantity c = (
    length-get_range_loop now start 0 quantity c,
    λ i h. ground (arith, get_range_loop_lem now start 0 quantity i c h),
  )
