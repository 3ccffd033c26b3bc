-- ===== src/Mapping/Sensor.antt =====
-- What sensor data change: UpdateCache, and what is read afterwards.
use app_modbus_go.Prelude.{
  ℕ, ◌+◌, ◌≡◌, refl, ◌∙◌, String, false, Option, none, some, List, [], ◌∷◌, arith, if◌then◌else◌,
}
use app_modbus_go.Prelude.Int.{ℤ}
use app_modbus_go.Prelude.Eq.{ℕ_eq, String_eq, ◌==◌}
use app_modbus_go.Prelude.Dict.{Dict, lookup}
use app_modbus_go.Value.{Floats, Value}
use app_modbus_go.Resource.{NorthResource, ResourceMapping, DeviceMapping}
use app_modbus_go.Run.{returned}
use app_modbus_go.Cache
use app_modbus_go.Cache.{Cache, CachedData, stamp, fresh}
use app_modbus_go.Cache.Expiry.{get-set}
use app_modbus_go.Mapping.{
  MappingManager, matched, cached, store_match, update_loop, update_cache, get_cached_value,
}
use app_modbus_go.Mapping.Claims.{or_else, resources_have_nil}

module _ {fl : Floats} (clock : ℕ → ℕ) (device : String) (values : Dict String (Value fl)) (ttl : ℤ)
    (b : ℕ) where
  -- What one resource writes at the address `b`.
  abbrev pub write : ℕ → Option (NorthResource fl × Value fl) → Option (CachedData fl)
  write i none = none
  write i (some (north, val)) =
      if north.address == b then some (stamp (clock i) ttl (cached device north val)) else none

  -- What the resources from the number `i` on leave at the address `b`: the last write counts.
  abbrev pub last_write : ℕ → List (Option (ResourceMapping fl)) → Option (CachedData fl)
  last_write i [] = none
  last_write i (none ∷ rms) = none
  last_write i (some rm ∷ rms) = or_else (last_write (i + 1) rms) (write i (matched values rm))

module _ {fl : Floats} (clock : ℕ → ℕ) (device : String) (values : Dict String (Value fl)) where
  -- What the loop of UpdateCache leaves.
  record Stored (ttl : ℤ) (i : ℕ) (rms : List (Option (ResourceMapping fl))) (c : Cache fl)
      : Type 0 where
    result : Cache fl
    run : update_loop clock device values i rms c ≡ returned result
    reads :
        (t b : ℕ)
        → Cache.get t b result ≡ elim (last_write clock device values ttl b i rms) [
          | none ↦ Cache.get t b c
          | some d ↦ fresh t (some d)
        ]

  default_ttl-store_match :
      (i : ℕ) (o : Option (NorthResource fl × Value fl)) (c : Cache fl)
      → (store_match (clock i) device o c).default_ttl ≡ c.default_ttl
  unfolding Cache.set store_match
  default_ttl-store_match i none c = refl
  default_ttl-store_match i (some x) c = refl

  get-store_match :
      (t b i : ℕ) (o : Option (NorthResource fl × Value fl)) (c : Cache fl)
      → Cache.get t b (store_match (clock i) device o c)
        ≡ elim (write clock device values c.default_ttl b i o) [
          | none ↦ Cache.get t b c
          | some d ↦ fresh t (some d)
        ]
  unfolding store_match
  get-store_match t b i none c = refl
  get-store_match t b i (some (north, val)) c =
      ground (arith, get-set (clock i) t north.address b (cached device north val) c)

  update_loop-Stored :
      (ttl : ℤ) (i : ℕ) (rms : List (Option (ResourceMapping fl))) (c : Cache fl)
      → resources_have_nil rms ≡ false
      → c.default_ttl ≡ ttl
      → Stored ttl i rms c
  unfolding update_loop
  update_loop-Stored ttl i [] c h e = record { result = c; run = refl; reads = λ t b. refl }
  update_loop-Stored ttl i (none ∷ rms) c h e = cc
  update_loop-Stored ttl i (some rm ∷ rms) c h e =
      let o = matched values rm in
      let rest =
        update_loop-Stored ttl (i + 1) rms (store_match (clock i) device o c) h
          (default_ttl-store_match i o c ∙ e) in
      record {
        result = rest.result;
        run = rest.run;
        reads = λ t b. rw (rest.reads t b) (ground (arith, get-store_match t b i o c));
      }

  -- Sensor data of a known device with no nil resource: the mappings stay, and what is read at an
  -- address is what the last resource of the device that has this address and a value stored
  -- there, while it is fresh; at an address that none of them has, what was read before.
  pub update_cache_lem :
      (m : MappingManager fl) (dm : DeviceMapping fl)
      → lookup device m.device_mappings ≡ some dm
      → resources_have_nil dm.resources ≡ false
      → (m' : MappingManager fl) × (update_cache clock device values m ≡ returned (some m'))
        × (m'.device_mappings ≡ m.device_mappings)
        × (m'.address_mappings ≡ m.address_mappings)
        × ((t b : ℕ)
            → get_cached_value t b m'
              ≡ elim (last_write clock device values m.cache.default_ttl b 0 dm.resources) [
                | none ↦ get_cached_value t b m
                | some d ↦ fresh t (some d)
              ])
  unfolding update_cache get_cached_value
  update_cache_lem m dm known h =
      let s = update_loop-Stored m.cache.default_ttl 0 dm.resources m.cache h refl in
      (record m { cache = s.result }, rw (known, update_cache) (rw s.run refl), refl, refl, s.reads)

  -- An unknown device is an error, and nothing is stored.
  pub update_cache_unknown :
      (m : MappingManager fl)
      → lookup device m.device_mappings ≡ none
      → update_cache clock device values m ≡ returned none
  unfolding update_cache
  update_cache_unknown m h = rw (h, update_cache) refl
