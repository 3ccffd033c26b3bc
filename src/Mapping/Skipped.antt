-- ===== src/Mapping/Skipped.antt =====
-- Two devices that name the same address: UpdateMappings gives the address to one of them, and
-- UpdateCache stores what the other reports (internal/pkg/mappingmanager/mappingmanager.go).
use mathlib.Core.List.{Memᴰ}
use mathlib.Core.List.Memᴰ
use mathlib.Core.Option.{none-ne-some, some-injective}
use mathlib.Core.Path.{subst}
use app_modbus_go.Prelude.{
  ℕ, ◌+◌, ◌≡◌, ◌≢◌, refl, sym, ap, ◌∙◌, inl, inr, String, true, false, Option, none, some, List, [],
  ◌∷◌, Bool-cases, Option-cases, ==_iff,
}
use app_modbus_go.Prelude.Int.{ℤ}
use app_modbus_go.Prelude.Eq.{ℕ_eq, String_eq, ◌==◌}
use app_modbus_go.Prelude.Dict.{Dict, lookup}
use app_modbus_go.Value.{Floats, Value}
use app_modbus_go.Resource.{NorthResource, ResourceMapping, DeviceMapping}
use app_modbus_go.Run.{returned}
use app_modbus_go.Cache.{CachedData, stamp, fresh}
use app_modbus_go.Mapping.{
  AddressIndex, MappingManager, matched, cached, update_mappings, update_cache, get_cached_value,
  get_mapping_by_address,
}
use app_modbus_go.Mapping.Claims.{resources_have_nil, last_device, update_mappings_lem}
use app_modbus_go.Mapping.Sensor.{write, last_write, update_cache_lem}
use app_modbus_go.Mapping.WellFormed.{or_else-some, last_device_complete, returned_complete}

module _ {fl : Floats} (clock : ℕ → ℕ) (device : String) (values : Dict String (Value fl)) where
  -- A resource of a list that the data name, and the record that is stored of it at the address `b`.
  pub record Writer (ttl : ℤ) (b : ℕ) (rms : List (Option (ResourceMapping fl))) (d : CachedData fl)
      : Type 0 where
    pub index : ℕ
    pub resource : ResourceMapping fl
    pub north : NorthResource fl
    pub val : Value fl
    pub listed : Memᴰ (some resource) rms
    pub named : matched values resource ≡ some (north, val)
    pub address : north.address ≡ b
    pub stored : d ≡ stamp (clock index) ttl (cached device north val)

  module _ (ttl : ℤ) (b : ℕ) where
    -- What one resource writes comes from it.
    write-Writer :
        (i : ℕ) (rm : ResourceMapping fl) (rms : List (Option (ResourceMapping fl)))
        (d : CachedData fl) (o : Option (NorthResource fl × Value fl))
        → matched values rm ≡ o
        → write clock device values ttl b i o ≡ some d
        → Writer ttl b (some rm ∷ rms) d
    write-Writer i rm rms d none e h = absurd (none-ne-some d h)
    write-Writer i rm rms d (some (north, val)) e h = elim (Bool-cases (north.address == b)) [
      | inl here ↦ record {
        index = i;
        resource = rm;
        north = north;
        val = val;
        listed = Memᴰ.head refl;
        named = e;
        address = (==_iff north.address b).0 here;
        stored = sym (some-injective _ d (rw here at h));
      }
      | inr other ↦ absurd (none-ne-some d (rw other at h))
    ]

    last_write-Writer :
        (i : ℕ) (rms : List (Option (ResourceMapping fl))) (d : CachedData fl)
        → last_write clock device values ttl b i rms ≡ some d
        → Writer ttl b rms d
    last_write-Writer i [] d h = absurd (none-ne-some d h)
    last_write-Writer i (none ∷ rms) d h = absurd (none-ne-some d h)
    last_write-Writer i (some rm ∷ rms) d h =
        elim (or_else-some (last_write clock device values ttl b (i + 1) rms) _ d h) [
          | inl later ↦
              let w = last_write-Writer (i + 1) rms d later in
              record {
                index = w.index;
                resource = w.resource;
                north = w.north;
                val = w.val;
                listed = Memᴰ.tail w.listed;
                named = w.named;
                address = w.address;
                stored = w.stored;
              }
          | inr mine ↦ write-Writer i rm rms d (matched values rm) refl mine
        ]

    -- A list that has a resource of this address which the data name writes there.
    last_write-some :
        (i : ℕ) (rms : List (Option (ResourceMapping fl))) (rm : ResourceMapping fl)
        (north : NorthResource fl) (val : Value fl)
        → resources_have_nil rms ≡ false
        → Memᴰ (some rm) rms
        → matched values rm ≡ some (north, val)
        → north.address ≡ b
        → (d : CachedData fl) × (last_write clock device values ttl b i rms ≡ some d)
    last_write-some i [] rm north val h m e here = absurd (Memᴰ.not-nil m)
    last_write-some i (none ∷ rms) rm north val h m e here = cc
    last_write-some i (some first ∷ rms) rm north val h m e here =
        elim (Option-cases (last_write clock device values ttl b (i + 1) rms)) [
          | inr (d, later) ↦ (d, rw later refl)
          | inl nothing ↦ elim (Memᴰ.cases_cons m) [
            | inr rest ↦
                let (d, later) = last_write-some (i + 1) rms rm north val h rest e here in
                absurd (none-ne-some d (sym nothing ∙ later))
            | inl it ↦
                let same : rm ≡ first = some-injective rm first it in
                let named : matched values first ≡ some (north, val) =
                  ap (matched values) (sym same) ∙ e in
                let at : (north.address == b) ≡ true = (==_iff north.address b).1 here in
                (stamp (clock i) ttl (cached device north val), rw (nothing, named) (rw at refl))
          ]
        ]

  -- UpdateMappings returns, and gives the address of a resource to another device than the one
  -- that this resource is of. Sensor data of this resource's device that name the resource are
  -- stored all the same: the address still belongs to the other device, but what is read there is,
  -- while it is fresh, a record under this device's name, of a resource of it with that address.
  pub update_cache_skipped :
      (dms : List (Option (DeviceMapping fl))) (m m₁ : MappingManager fl) (dm : DeviceMapping fl)
      (rm : ResourceMapping fl) (north : NorthResource fl) (val : Value fl)
      (owner : AddressIndex fl)
      → update_mappings dms m ≡ returned m₁
      → lookup north.address m₁.address_mappings ≡ some owner
      → owner.device_name ≢ device
      → lookup device m₁.device_mappings ≡ some dm
      → Memᴰ (some rm) dm.resources
      → matched values rm ≡ some (north, val)
      → (m₂ : MappingManager fl) × (d : CachedData fl) × (update_cache clock device values m₁
          ≡ returned (some m₂))
        × (get_mapping_by_address north.address m₂ ≡ some owner.resource_mapping)
        × ((t : ℕ) → get_cached_value t north.address m₂ ≡ fresh t (some d))
        × Writer m.cache.default_ttl north.address dm.resources d
        × (d.north_dev_name ≢ owner.device_name)
  unfolding get_mapping_by_address stamp
  update_cache_skipped dms m m₁ dm rm north val owner updated owned foreign known listed named =
      let complete = returned_complete dms m m₁ updated in
      let (m', run, addresses, devices, cache, handler) = update_mappings_lem dms m complete in
      let same : m' ≡ m₁ = the_result m' m₁ (sym run ∙ updated) in
      let last : last_device device dms ≡ some dm =
        sym (devices device) ∙ ap (λ z. lookup device z.device_mappings) same ∙ known in
      let no_nil = (last_device_complete device dms dm complete last).0 in
      let ttl : m₁.cache.default_ttl ≡ m.cache.default_ttl =
        ap (λ z. z.cache.default_ttl) (sym same) ∙ ap (λ z. z.default_ttl) cache in
      let (d, wrote) =
        last_write-some m₁.cache.default_ttl north.address 0 dm.resources rm north val no_nil listed
          named refl in
      let (m₂, stored, kept, index, reads) =
        update_cache_lem clock device values m₁ dm known no_nil in
      let w = last_write-Writer m₁.cache.default_ttl north.address 0 dm.resources d wrote in
      (
        m₂,
        d,
        stored,
        rw (index, get_mapping_by_address) (rw (owned, get_mapping_by_address) refl),
        λ t. rw (reads t north.address) (rw wrote refl),
        subst (λ z. Writer z north.address dm.resources d) ttl w,
        λ e. foreign (sym e ∙ ap (λ z. z.north_dev_name) w.stored),
      )
    where
      the_result : (a b : MappingManager fl) → returned a ≡ returned b → a ≡ b
      the_result a b e = cc
