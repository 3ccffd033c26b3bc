-- ===== src/Mapping/Invariant.antt =====
-- The operations of the mapping manager (internal/pkg/mappingmanager/mappingmanager.go) keep it well formed.
use mathlib.Core.Option.{none-ne-some, some-injective}
use mathlib.Core.Path.{subst}
use app_modbus_go.Prelude.{
  ℕ, ◌+◌, ◌≡◌, refl, sym, ap, ◌∙◌, inl, inr, String, Option, none, some, List, [], ◌∷◌, Bool-cases,
  Option-cases,
}
use app_modbus_go.Prelude.Eq.{ℕ_eq, String_eq, ◌==◌}
use app_modbus_go.Prelude.Dict.{Dict, lookup, lookup-insert, insert-Unique}
use app_modbus_go.Value.{Floats, Value}
use app_modbus_go.Resource.{NorthResource, ResourceMapping, DeviceMapping}
use app_modbus_go.Run.{Run, returned, panicked, out_of_fuel, ◌>>=◌}
use app_modbus_go.Cache
use app_modbus_go.Cache.{Cache, CachedData, stamp, fresh, is_expired}
use app_modbus_go.Cache.Keys.{cleanup_loop-Unique, cleanup_lem}
use app_modbus_go.Mapping.{
  MappingManager, update_mappings, update_cache, update_loop, store_match, matched, cached,
}
use app_modbus_go.Mapping.Claims.{update_mappings_lem}
use app_modbus_go.Mapping.WellFormed.{
  Addressed, IsWellFormed, claims-Claimed, last_device_complete, returned_complete,
}

module _ {fl : Floats} where
  -- An update of the mappings that returns keeps the manager well formed, whatever the devices were.
  pub update_mappings-IsWellFormed :
      (dms : List (Option (DeviceMapping fl))) (m m' : MappingManager fl)
      → IsWellFormed m
      → update_mappings dms m ≡ returned m'
      → IsWellFormed m'
  update_mappings-IsWellFormed dms m m' w h =
      let no_nil = returned_complete dms m m' h in
      let (r, run, addresses, devices, same_cache, same_handler) =
        update_mappings_lem dms m no_nil in
      let it : r ≡ m' = the_result r m' (sym run ∙ h) in
      subst IsWellFormed it (record {
        complete = λ name dm e. last_device_complete name dms dm no_nil (sym (devices name) ∙ e);
        indexed = λ a idx e. claims-Claimed dms a idx (sym (addresses a) ∙ e);
        addressed = subst Addressed (sym same_cache) w.addressed;
      })
    where
      the_result : (a b : MappingManager fl) → returned a ≡ returned b → a ≡ b
      the_result a b e = cc

  store_match-Addressed :
      (now : ℕ) (device : String) (o : Option (NorthResource fl × Value fl)) (c : Cache fl)
      → Addressed c
      → Addressed (store_match now device o c)
  unfolding store_match Cache.set stamp
  store_match-Addressed now device none c w = w
  store_match-Addressed now device (some (north, val)) c (once, w) =
      let new = stamp now c.default_ttl (cached device north val) in
      (
        insert-Unique north.address new c.entries once,
        λ a d e. elim (Bool-cases (north.address == a)) [
          | inl here ↦
              let it =
                some-injective new d
                  (rw (lookup-insert north.address a new c.entries, here) at e) in
              ap (λ x. x.modbus_address) (sym it) ∙ (ℕ_eq.agree_iff north.address a).0 here
          | inr other ↦ w a d (rw (lookup-insert north.address a new c.entries, other) at e)
        ],
      )

  update_loop-Addressed :
      (clock : ℕ → ℕ) (device : String) (values : Dict String (Value fl)) (i : ℕ)
      (rms : List (Option (ResourceMapping fl))) (c c' : Cache fl)
      → Addressed c
      → update_loop clock device values i rms c ≡ returned c'
      → Addressed c'
  unfolding update_loop
  update_loop-Addressed clock device values i [] c c' w h = subst Addressed (the_cache c c' h) w
    where
      the_cache : (a b : Cache fl) → returned a ≡ returned b → a ≡ b
      the_cache a b e = cc
  update_loop-Addressed clock device values i (none ∷ rms) c c' w h = cc
  update_loop-Addressed clock device values i (some rm ∷ rms) c c' w h =
      update_loop-Addressed clock device values (i + 1) rms
        (store_match (clock i) device (matched values rm) c) c'
        (store_match-Addressed (clock i) device (matched values rm) c w) h

  -- Sensor data that are stored keep the manager well formed, whatever they were.
  pub update_cache-IsWellFormed :
      (clock : ℕ → ℕ) (device : String) (values : Dict String (Value fl)) (m m' : MappingManager fl)
      → IsWellFormed m
      → update_cache clock device values m ≡ returned (some m')
      → IsWellFormed m'
  unfolding update_cache
  update_cache-IsWellFormed clock device values m m' w h =
      elim (Option-cases (lookup device m.device_mappings)) [
        | inl unknown ↦ absurd (not_some m' (returned none) refl (rw (update_cache, unknown) at h))
        | inr (dm, known) ↦
            stored (update_loop clock device values 0 dm.resources m.cache)
              (λ c e.
                update_loop-Addressed clock device values 0 dm.resources m.cache c w.addressed e)
              (rw (update_cache, known) at h)
      ]
    where
      not_some :
          (m' : MappingManager fl) (r : Run (Option (MappingManager fl)))
          → r ≡ returned none
          → r ≡ returned (some m')
          → ⊥
      not_some m' r e e' = cc

      the_manager : (a b : MappingManager fl) → returned (some a) ≡ returned (some b) → a ≡ b
      the_manager a b e = cc

      stored :
          (r : Run (Cache fl))
          → ((c : Cache fl) → r ≡ returned c → Addressed c)
          → (r >>= (λ c. returned (some (record m { cache = c })))) ≡ returned (some m')
          → IsWellFormed m'
      stored (returned c) keeps e =
          subst IsWellFormed (the_manager (record m { cache = c }) m' e)
            (record { complete = w.complete; indexed = w.indexed; addressed = keeps c refl })
      stored panicked keeps e = cc
      stored out_of_fuel keeps e = cc

  fresh-some :
      (now : ℕ) (o : Option (CachedData fl)) (d : CachedData fl) → fresh now o ≡ some d → o ≡ some d
  unfolding fresh
  fresh-some now none d e = e
  fresh-some now (some old) d e = elim (Bool-cases (is_expired now old)) [
    | inl gone ↦ absurd (none-ne-some d (rw gone at e))
    | inr kept ↦ rw kept at e
  ]

  pub cleanup-Addressed : (now : ℕ) (c : Cache fl) → Addressed c → Addressed (Cache.cleanup now c).0
  unfolding Cache.cleanup Cache.get
  cleanup-Addressed now c (once, w) = (
    cleanup_loop-Unique now c.entries once,
    λ a d e. w a d (fresh-some now (lookup a c.entries) d (sym ((cleanup_lem now c once).0 a) ∙ e)),
  )
