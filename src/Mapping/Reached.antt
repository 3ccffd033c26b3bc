-- ===== src/Mapping/Reached.antt =====
-- The managers that the program can come to, and what holds of all of them
-- (internal/pkg/mappingmanager/mappingmanager.go).
use mathlib.Core.Option.{none-ne-some, some-injective}
use mathlib.Core.Path.{subst}
use app_modbus_go.Prelude.{ℕ, ◌≡◌, inl, inr, String, Option, some, List, Bool-cases}
use app_modbus_go.Prelude.Int.{ℤ}
use app_modbus_go.Prelude.Eq.{ℕ_eq, String_eq}
use app_modbus_go.Prelude.Dict.{Dict}
use app_modbus_go.Value.{Floats, Value}
use app_modbus_go.Resource.{DeviceMapping}
use app_modbus_go.Run.{returned}
use app_modbus_go.Cache
use app_modbus_go.Cache.{Cache, CachedData, stamp, fresh, is_expired}
use app_modbus_go.Mapping.{
  MappingManager, new_mapping_manager, set_handler, stop, update_mappings, update_cache,
}
use app_modbus_go.Mapping.WellFormed.{IsWellFormed, new_mapping_manager-IsWellFormed}
use app_modbus_go.Mapping.Invariant.{
  update_mappings-IsWellFormed, update_cache-IsWellFormed, cleanup-Addressed,
}

-- The managers that the program can come to: a new one, after any calls that return, in any order.
pub data Reached {fl : Floats} : MappingManager fl → Type 0 where
  start : (ttl : ℤ) → Reached (new_mapping_manager ttl)
  handled : (m : MappingManager fl) → Reached m → Reached (set_handler m)
  updated :
      (dms : List (Option (DeviceMapping fl))) (m m' : MappingManager fl)
      → Reached m
      → update_mappings dms m ≡ returned m'
      → Reached m'
  stored :
      (clock : ℕ → ℕ) (device : String) (values : Dict String (Value fl)) (m m' : MappingManager fl)
      → Reached m
      → update_cache clock device values m ≡ returned (some m')
      → Reached m'
  cleaned :
      (now : ℕ) (m : MappingManager fl)
      → Reached m
      → Reached (record m { cache = (Cache.cleanup now m.cache).0 })
  stopped : (m m' : MappingManager fl) → Reached m → stop m ≡ some m' → Reached m'

module _ {fl : Floats} where
  stop-IsWellFormed :
      (m m' : MappingManager fl) → IsWellFormed m → stop m ≡ some m' → IsWellFormed m'
  unfolding stop Cache.stop
  stop-IsWellFormed m m' w h = elim (Bool-cases m.cache.stopped) [
    | inl already ↦ absurd (none-ne-some m' (rw (stop, Cache.stop, already) at h))
    | inr open' ↦
        subst IsWellFormed (some-injective _ m' (rw (stop, Cache.stop, open') at h))
          (record { complete = w.complete; indexed = w.indexed; addressed = w.addressed })
  ]

  -- In whatever order updates, sensor data, cleanups and the stop come, every device has no nil
  -- pointer among its resources and stands under its name, every entry of the address index has
  -- both sides and that address, and the cache has no address twice, each record being for its address.
  pub reached-IsWellFormed : (m : MappingManager fl) → Reached m → IsWellFormed m
  unfolding set_handler
  reached-IsWellFormed m (start ttl) = new_mapping_manager-IsWellFormed ttl
  reached-IsWellFormed m (handled m₀ r) =
      let w = reached-IsWellFormed m₀ r in
      record { complete = w.complete; indexed = w.indexed; addressed = w.addressed }
  reached-IsWellFormed m (updated dms m₀ m' r h) =
      update_mappings-IsWellFormed dms m₀ m' (reached-IsWellFormed m₀ r) h
  reached-IsWellFormed m (stored clock device values m₀ m' r h) =
      update_cache-IsWellFormed clock device values m₀ m' (reached-IsWellFormed m₀ r) h
  reached-IsWellFormed m (cleaned now m₀ r) =
      let w = reached-IsWellFormed m₀ r in
      record {
        complete = w.complete;
        indexed = w.indexed;
        addressed = cleanup-Addressed now m₀.cache w.addressed;
      }
  reached-IsWellFormed m (stopped m₀ m' r h) = stop-IsWellFormed m₀ m' (reached-IsWellFormed m₀ r) h
