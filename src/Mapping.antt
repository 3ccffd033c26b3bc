-- ===== src/Mapping.antt =====
-- The mapping manager (internal/pkg/mappingmanager/mappingmanager.go): which device and resource
-- stands at a Modbus address, and the cache that the sensor data go to. Logging is left out.
pub mod Claims
pub mod Sensor
pub mod Skipped
pub mod Handlers
pub mod WellFormed
pub mod Invariant
pub mod Reached
use Prim.Native.String.{◌++◌}
use app_modbus_go.Prelude.{
  ℕ, zero, suc, ◌+◌, String, Bool, true, false, Option, none, some, List, [], ◌∷◌, ltb,
  if◌then◌else◌, length,
}
use app_modbus_go.Prelude.Int.{ℤ, pos}
use app_modbus_go.Prelude.Eq.{ℕ_eq, String_eq, ◌==◌}
use app_modbus_go.Prelude.Dict.{Dict, lookup, insert}
use app_modbus_go.Value.{Floats, Value}
use app_modbus_go.Resource.{NorthResource, SouthResource, ResourceMapping, DeviceMapping}
use app_modbus_go.Cache
use app_modbus_go.Cache.{Cache, CachedData, new_cache}
use app_modbus_go.Reader.{Forwarded}
use app_modbus_go.Run.{Run, returned, panicked, ◌>>=◌}

pub record AddressIndex (fl : Floats) : Type 0 where
  pub device_name : String
  pub resource_mapping : ResourceMapping fl

pub record MappingManager (fl : Floats) : Type 0 where
  pub device_mappings : Dict String (DeviceMapping fl)
  pub address_mappings : Dict ℕ (AddressIndex fl)
  pub cache : Cache fl
  -- whether a forward log handler is set
  pub has_handler : Bool

-- NewMappingManager, with the default TTL of the cache's configuration
unfoldable pub new_mapping_manager : {fl : Floats} → ℤ → MappingManager fl
unfolding new_cache
new_mapping_manager default_ttl = record {
  device_mappings = [];
  address_mappings = [];
  cache = new_cache default_ttl;
  has_handler = false;
}

-- The variables of UpdateMappings.
pub record Update (fl : Floats) : Type 0 where
  pub devices : Dict String (DeviceMapping fl)
  pub addresses : Dict ℕ (AddressIndex fl)
  pub valid : ℕ
  pub skipped : ℕ

module _ {fl : Floats} where
  -- SetForwardLogHandler
  unfoldable pub set_handler : MappingManager fl → MappingManager fl
  set_handler m = record m { has_handler = true }

  abbrev pub skip_resource : Update fl → Update fl
  skip_resource u = record u { skipped = u.skipped + 1 }

  -- one resource of the device: it is entered if it has both sides and its address is free
  unfoldable pub add_resource : String → ResourceMapping fl → Update fl → Update fl
  add_resource device rm u = elim rm.north_resource [
    | none ↦ skip_resource u
    | some north ↦ elim rm.south_resource [
      | none ↦ skip_resource u
      | some south ↦ elim (lookup north.address u.addresses) [
        | some existing ↦ skip_resource u
        | none ↦ record u {
          addresses =
              insert north.address (record { device_name = device; resource_mapping = rm })
                u.addresses;
          valid = u.valid + 1;
        }
      ]
    ]
  ]

  -- the loop over the resources of a device; a nil pointer among them is dereferenced
  unfoldable pub add_resources :
      String → List (Option (ResourceMapping fl)) → Update fl → Run (Update fl)
  unfolding add_resource
  add_resources device [] u = returned u
  add_resources device (none ∷ rms) u = panicked
  add_resources device (some rm ∷ rms) u = add_resources device rms (add_resource device rm u)

  -- the loop over the devices
  unfoldable pub add_devices : List (Option (DeviceMapping fl)) → Update fl → Run (Update fl)
  unfolding add_resources
  add_devices [] u = returned u
  add_devices (none ∷ dms) u = panicked
  add_devices (some dm ∷ dms) u = do
    u' ←
        add_resources dm.north_device_name dm.resources
          (record u { devices = insert dm.north_device_name dm u.devices })
    add_devices dms u'

  abbrev pub no_update : Update fl
  no_update = record { devices = []; addresses = []; valid = 0; skipped = 0 }

  unfoldable pub update_mappings :
      List (Option (DeviceMapping fl)) → MappingManager fl → Run (MappingManager fl)
  unfolding add_devices
  update_mappings mappings m = do
    u ← add_devices mappings no_update
    returned (record m { device_mappings = u.devices; address_mappings = u.addresses })

  unfoldable pub get_mapping_by_address : ℕ → MappingManager fl → Option (ResourceMapping fl)
  get_mapping_by_address addr m = elim (lookup addr m.address_mappings) [
    | none ↦ none
    | some idx ↦ some idx.resource_mapping
  ]

  unfoldable pub get_device_mapping : String → MappingManager fl → Option (DeviceMapping fl)
  get_device_mapping name m = lookup name m.device_mappings

  -- the value for a resource: under its south name, else under its north name
  unfoldable pub find_value :
      Dict String (Value fl) → NorthResource fl → SouthResource fl → Option (Value fl)
  find_value values north south = elim (lookup south.name values) [
    | some val ↦ some val
    | none ↦ lookup north.name values
  ]

  -- the record that UpdateCache stores
  abbrev pub cached : String → NorthResource fl → Value fl → CachedData fl
  cached device north val = record {
    value = val;
    timestamp = 0;
    ttl = pos 0;
    north_dev_name = device;
    resource_name = north.name;
    value_type = north.value_type;
    scale = north.scale;
    offset = north.offset_value;
    modbus_address = north.address;
  }

  -- The resource with its value, if it has both sides and the data name it.
  unfoldable pub matched :
      Dict String (Value fl) → ResourceMapping fl → Option (NorthResource fl × Value fl)
  unfolding find_value
  matched values rm = elim rm.north_resource [
    | none ↦ none
    | some north ↦ elim rm.south_resource [
      | none ↦ none
      | some south ↦ elim (find_value values north south) [
        | none ↦ none
        | some val ↦ some (north, val)
      ]
    ]
  ]

  -- The call of `Set` for a resource with its value, at the time `now`.
  unfoldable pub store_match :
      ℕ → String → Option (NorthResource fl × Value fl) → Cache fl → Cache fl
  store_match now device none c = c
  store_match now device (some (north, val)) c =
      Cache.set now north.address (cached device north val) c

  -- The loop of UpdateCache. `Set` reads the clock each time it is called: at `clock i` for the
  -- resource `i` of the device.
  unfoldable pub update_loop :
      (ℕ → ℕ)
      → String
      → Dict String (Value fl)
      → ℕ
      → List (Option (ResourceMapping fl))
      → Cache fl
      → Run (Cache fl)
  update_loop clock device values i [] c = returned c
  update_loop clock device values i (none ∷ rms) c = panicked
  update_loop clock device values i (some rm ∷ rms) c =
      update_loop clock device values (i + 1) rms
        (store_match (clock i) device (matched values rm) c)

  -- UpdateCache: `none` is the error of an unknown device.
  unfoldable pub update_cache :
      (ℕ → ℕ)
      → String
      → Dict String (Value fl)
      → MappingManager fl
      → Run (Option (MappingManager fl))
  unfolding update_loop
  update_cache clock device values m = elim (lookup device m.device_mappings) [
    | none ↦ returned none
    | some dm ↦ do
      c ← update_loop clock device values 0 dm.resources m.cache
      returned (some (record m { cache = c }))
  ]

  unfoldable pub get_cached_value : ℕ → ℕ → MappingManager fl → Option (CachedData fl)
  get_cached_value now addr m = Cache.get now addr m.cache

  unfoldable pub get_cached_registers :
      ℕ → ℕ → ℕ → MappingManager fl → List (Option (CachedData fl))
  get_cached_registers now start quantity m = Cache.get_range now start quantity m.cache

  -- The loops of LogDataForward: the first device is the primary one, and a name gets the device's
  -- as a prefix where there are several.
  unfoldable pub merge_resources :
      Bool → String → Dict String (Value fl) → Dict String (Value fl) → Dict String (Value fl)
  merge_resources several device [] merged = merged
  merge_resources several device ((resource, value) ∷ rs) merged =
      merge_resources several device rs
        (insert (if several then device ++ ("." ++ resource) else resource) value merged)

  unfoldable pub merge_devices :
      Bool → Forwarded fl → String → Dict String (Value fl) → String × Dict String (Value fl)
  unfolding merge_resources
  merge_devices several [] primary merged = (primary, merged)
  merge_devices several ((device, resources) ∷ ds) primary merged =
      merge_devices several ds (if primary == "" then device else primary)
        (merge_resources several device resources merged)

  -- LogDataForward: the arguments of the one call of `LogSuccess`, if it is made.
  unfoldable pub log_data_forward :
      Forwarded fl → MappingManager fl → Option (String × Dict String (Value fl))
  unfolding merge_devices
  log_data_forward [] m = none
  log_data_forward forwarded m =
      if m.has_handler
      then some (merge_devices (ltb 1 (length forwarded)) forwarded "" [])
      else none

  -- Stop; `none` is the panic of a second call.
  unfoldable pub stop : MappingManager fl → Option (MappingManager fl)
  stop m = elim (Cache.stop m.cache) [ none ↦ none | some c ↦ some (record m { cache = c }) ]
