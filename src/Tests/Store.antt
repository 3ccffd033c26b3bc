-- ===== src/Tests/Store.antt =====
-- The theorems on the cache and on the mapping manager at a sample device.
use mathlib.Core.List.{Memᴰ}
use app_modbus_go.Prelude.{
  Option, ◌≢◌, ℕ, ◌≡◌, ◌+◌, refl, String, false, none, some, List, [], ◌∷◌, arith, if◌then◌else◌,
  leb,
}
use app_modbus_go.Prelude.Int.{pos}
use app_modbus_go.Prelude.Eq.{ℕ_eq, String_eq}
use app_modbus_go.Prelude.Dict.{Dict, lookup, insert}
use app_modbus_go.Value.{Value}
use app_modbus_go.Resource.{DeviceMapping}
use app_modbus_go.Run.{returned, panicked, out_of_fuel}
use app_modbus_go.Cache
use app_modbus_go.Cache.{
  Cache, CachedData, new_cache, stamp, fresh, set, get_range, get_all, cleanup, size,
}
use app_modbus_go.Cache.Expiry.{get-set_window}
use app_modbus_go.Cache.Keys.{cleanup_lem}
use app_modbus_go.Cache.Refinement.{
  Call, set_call, delete_call, cleanup_call, run, history, get-run,
}
use app_modbus_go.Mapping.{
  matched, MappingManager, add_devices, add_resources, add_resource, update_mappings, update_cache,
  get_cached_value, get_mapping_by_address, matched,
}
use app_modbus_go.Mapping.Claims.{claims, last_device, update_mappings_lem}
use app_modbus_go.Mapping.Sensor.{last_write, update_cache_lem}
use app_modbus_go.Mapping.Skipped.{Writer, update_cache_skipped}
use app_modbus_go.Prelude.Int.{wrap, signed}
use app_modbus_go.Bytes.{put_uint16}
use app_modbus_go.ValueType.{lower_type_name, get_register_count}
use app_modbus_go.Converter.{
  to_registers, to_bytes, int16_to_bytes, int16_value, apply_scale_offset,
}
use app_modbus_go.Server.{success, handle_read_holding_registers}
use app_modbus_go.Server.Sensor.{sensor_read}
use app_modbus_go.Tests.{toy, north_temp, temp, plc, reading}

abbrev empty : Cache toy
empty = record { entries = []; default_ttl = pos 30; stopped = false }

abbrev one : Cache toy
one = record empty { entries = (10, reading) ∷ [] }

abbrev calls : List (ℕ × Call toy)
calls = (5, set_call 10 reading) ∷ (6, cleanup_call) ∷ (9, delete_call 11) ∷ []

get-run_example :
    Cache.get 20 10 (run calls empty) ≡ fresh 20 (history (pos 30) calls (λ b. lookup b []) 10)
get-run_example =
    get-run calls 0 20 10 empty tt (omega arith, (omega arith, (omega arith, omega arith)))

get-set_window_example :
    Cache.get (100 + 7) 10 (set 100 10 (record reading { ttl = pos 0 }) empty)
    ≡ (if leb 7 30 then some (record reading { ttl = pos 30; timestamp = 100 }) else none)
get-set_window_example = get-set_window 100 7 10 30 (record reading { ttl = pos 0 }) empty refl refl

cleanup_lem_example :
    ((a : ℕ) → lookup a (cleanup 500 one).0.entries ≡ Cache.get 500 a one)
    × (size (cleanup 500 one).0 + (cleanup 500 one).1 ≡ size one)
cleanup_lem_example = cleanup_lem 500 one (unfold lookup in (refl, tt))

abbrev manager : MappingManager toy
manager = record {
  device_mappings = ("plc", plc) ∷ [];
  address_mappings = (10, record { device_name = "plc"; resource_mapping = temp }) ∷ [];
  cache = empty;
  has_handler = false;
}

update_mappings_lem_example :
    (m' : MappingManager toy) × (update_mappings (some plc ∷ []) manager ≡ returned m')
    × ((a : ℕ) → lookup a m'.address_mappings ≡ lookup a (claims (some plc ∷ [])))
    × ((n : String) → lookup n m'.device_mappings ≡ last_device n (some plc ∷ []))
    × (m'.cache ≡ empty)
    × (m'.has_handler ≡ false)
update_mappings_lem_example = update_mappings_lem (some plc ∷ []) manager refl

abbrev values : Dict String (Value toy)
values = ("t", Value.int (pos 258)) ∷ []

update_cache_lem_example :
    (m' : MappingManager toy) × (update_cache (λ i. 100 + i) "plc" values manager
      ≡ returned (some m'))
    × (m'.device_mappings ≡ manager.device_mappings)
    × (m'.address_mappings ≡ manager.address_mappings)
    × ((t b : ℕ)
        → get_cached_value t b m'
          ≡ elim (last_write (λ i. 100 + i) "plc" values (pos 30) b 0 plc.resources) [
            | none ↦ get_cached_value t b manager
            | some d ↦ fresh t (some d)
          ])
update_cache_lem_example =
    update_cache_lem (λ i. 100 + i) "plc" values manager plc (unfold lookup in refl) refl

-- A resource with its north side only gets no entry in the index.
index_test :
    (m' : MappingManager toy) × (update_mappings (some plc ∷ []) manager ≡ returned m')
    × (get_mapping_by_address 10 m' ≡ some temp)
    × (get_mapping_by_address 11 m' ≡ none)
unfolding update_mappings add_devices add_resources add_resource insert lookup
    get_mapping_by_address
index_test = (_, refl, refl, refl)

-- a second device whose resource names the address that the first one has
abbrev other_plc : DeviceMapping toy
other_plc = record { north_device_name = "other"; resources = some temp ∷ [] }

abbrev both : List (Option (DeviceMapping toy))
both = some plc ∷ some other_plc ∷ []

-- what UpdateMappings makes of the two
abbrev updated : MappingManager toy
unfolding update_mappings add_devices add_resources add_resource insert lookup
updated = elim (update_mappings both manager) [
  | returned m ↦ m
  | panicked ↦ manager
  | out_of_fuel ↦ manager
]

update_cache_skipped_example :
    (m₂ : MappingManager toy) × (d : CachedData toy) × (update_cache
        (λ i. 100)
        "other"
        values
        updated
      ≡ returned (some m₂))
    × (get_mapping_by_address 10 m₂ ≡ some temp)
    × ((t : ℕ) → get_cached_value t 10 m₂ ≡ fresh t (some d))
    × Writer (λ i. 100) "other" values (pos 30) 10 other_plc.resources d
    × (d.north_dev_name ≢ "plc")
unfolding lookup matched update_mappings add_devices add_resources add_resource insert
update_cache_skipped_example =
    update_cache_skipped (λ i. 100) "other" values both manager updated other_plc temp north_temp
      (Value.int (pos 258)) (record { device_name = "plc"; resource_mapping = temp }) refl refl
      (λ e. other_name e) refl (Memᴰ.head refl) refl
  where
    other_name : ◌≡◌ {A = String} "plc" "other" → ⊥
    other_name e = cc

-- the reading as it is stored
abbrev stored : CachedData toy
stored = record {
  value = Value.int (pos 258);
  timestamp = 100;
  ttl = pos 30;
  north_dev_name = "plc";
  resource_name = "temp";
  value_type = "int16";
  scale = pos 1;
  offset = pos 0;
  modbus_address = 10;
}

sensor_read_example :
    (m' : MappingManager toy) × (update_cache (λ i. 100) "plc" values manager ≡ returned (some m'))
    × (handle_read_holding_registers
          (λ i addr. get_cached_value (110 + i) addr m')
          (0 ∷ 10 ∷ 0 ∷ 1 ∷ [])
        ≡ returned (record {
          bytes = some (2 ∷ 1 ∷ 2 ∷ []);
          exception = success;
          logged = some (("plc", ("temp", Value.int (pos 258)) ∷ []) ∷ []);
        }))
unfolding lookup matched stamp fresh to_registers get_register_count to_bytes lower_type_name
    int16_to_bytes int16_value apply_scale_offset put_uint16 wrap signed
sensor_read_example =
    sensor_read (λ i. 100) "plc" values (λ i. 110 + i) 0 10 0 1 stored (1 ∷ 2 ∷ []) manager plc refl
      refl refl refl refl refl (omega arith)
