-- ===== src/Mapping/Claims.antt =====
-- What UpdateMappings makes of the devices that it is given.
use app_modbus_go.Prelude.{
  inr, inl, sym, Bool-cases, ℕ, ◌≡◌, refl, ◌∙◌, String, Bool, true, false, ◌||◌, Option, none, some,
  List, [], ◌∷◌, ◌++◌, arith, if◌then◌else◌,
}
use app_modbus_go.Prelude.Eq.{Eq, ℕ_eq, String_eq, ◌==◌}
use app_modbus_go.Prelude.Dict.{Dict, lookup, insert, lookup-insert}
use app_modbus_go.Value.{Floats}
use app_modbus_go.Resource.{NorthResource, SouthResource, ResourceMapping, DeviceMapping}
use app_modbus_go.Run.{returned, panicked}
use app_modbus_go.Mapping.{
  AddressIndex, MappingManager, Update, add_resource, add_resources, add_devices, no_update,
  update_mappings,
}

abbrev pub or_else {ℓ} : {A : Type ℓ} → Option A → Option A → Option A
or_else (some a) b = some a
or_else none b = b

or_else_assoc {ℓ} :
    {A : Type ℓ} (a b c : Option A) → or_else (or_else a b) c ≡ or_else a (or_else b c)
or_else_assoc (some x) b c = refl
or_else_assoc none b c = refl

or_else-none {ℓ} : {A : Type ℓ} (a : Option A) → a ≡ or_else a none
or_else-none none = refl
or_else-none (some x) = refl

or-false : (a : Bool) {b : Bool} → (a || b) ≡ false → (a ≡ false) × (b ≡ false)
or-false true h = cc
or-false false h = (refl, h)

pub lookup-append {ℓ κ} :
    {K : Type ℓ} {V : Type κ} ⦃e : Eq K⦄ (k : K) (m n : Dict K V)
    → lookup k (m ++ n) ≡ or_else (lookup k m) (lookup k n)
unfolding lookup
lookup-append k [] n = refl
lookup-append k ((j, v) ∷ m) n = ground (arith, lookup-append k m n)

module _ {fl : Floats} where
  -- Whether there is a nil pointer among the devices or their resources.
  abbrev pub resources_have_nil : List (Option (ResourceMapping fl)) → Bool
  resources_have_nil [] = false
  resources_have_nil (none ∷ rms) = true
  resources_have_nil (some rm ∷ rms) = resources_have_nil rms

  abbrev pub have_nil : List (Option (DeviceMapping fl)) → Bool
  have_nil [] = false
  have_nil (none ∷ dms) = true
  have_nil (some dm ∷ dms) = resources_have_nil dm.resources || have_nil dms

  -- The addresses that a resource claims: its own, if it has both sides.
  abbrev pub claim : String → ResourceMapping fl → Dict ℕ (AddressIndex fl)
  claim device rm = elim rm.north_resource [
    | none ↦ []
    | some north ↦ elim rm.south_resource [
      | none ↦ []
      | some south ↦ (north.address, record { device_name = device; resource_mapping = rm }) ∷ []
    ]
  ]

  abbrev pub device_claims : String → List (Option (ResourceMapping fl)) → Dict ℕ (AddressIndex fl)
  device_claims device [] = []
  device_claims device (none ∷ rms) = device_claims device rms
  device_claims device (some rm ∷ rms) = claim device rm ++ device_claims device rms

  -- All claims, in the order of the devices and of their resources. `lookup` finds the first.
  abbrev pub claims : List (Option (DeviceMapping fl)) → Dict ℕ (AddressIndex fl)
  claims [] = []
  claims (none ∷ dms) = claims dms
  claims (some dm ∷ dms) = device_claims dm.north_device_name dm.resources ++ claims dms

  -- The last device of a name.
  abbrev pub last_device : String → List (Option (DeviceMapping fl)) → Option (DeviceMapping fl)
  last_device name [] = none
  last_device name (none ∷ dms) = last_device name dms
  last_device name (some dm ∷ dms) =
      or_else (last_device name dms) (if dm.north_device_name == name then some dm else none)

  lookup-add_resource :
      (a : ℕ) (device : String) (rm : ResourceMapping fl) (u : Update fl)
      → lookup a (add_resource device rm u).addresses
        ≡ or_else (lookup a u.addresses) (lookup a (claim device rm))
  unfolding add_resource lookup
  lookup-add_resource a device rm u = go rm.north_resource rm.south_resource refl refl
    where
      index : AddressIndex fl
      index = record { device_name = device; resource_mapping = rm }

      go :
          (n : Option (NorthResource fl)) (s : Option (SouthResource fl))
          → rm.north_resource ≡ n
          → rm.south_resource ≡ s
          → lookup a (add_resource device rm u).addresses
            ≡ or_else (lookup a u.addresses) (lookup a (claim device rm))
      go none s e f = ground arith
      go (some north) none e f = ground arith
      go (some north) (some south) e f =
          ground
            (arith, lookup-insert north.address a index u.addresses, ℕ_eq.agree_iff north.address a)

  devices-add_resource :
      (device : String) (rm : ResourceMapping fl) (u : Update fl)
      → (add_resource device rm u).devices ≡ u.devices
  unfolding add_resource
  devices-add_resource device rm u = ground arith

  -- What the loop over the resources of a device leaves, if no pointer among them is nil.
  record Entered (device : String) (rms : List (Option (ResourceMapping fl))) (u : Update fl)
      : Type 0 where
    result : Update fl
    run : add_resources device rms u ≡ returned result
    devices : result.devices ≡ u.devices
    addresses :
        (a : ℕ)
        → lookup a result.addresses
          ≡ or_else (lookup a u.addresses) (lookup a (device_claims device rms))

  add_resources-Entered :
      (device : String) (rms : List (Option (ResourceMapping fl))) (u : Update fl)
      → resources_have_nil rms ≡ false
      → Entered device rms u
  unfolding add_resources
  add_resources-Entered device [] u h = record {
    result = u;
    run = refl;
    devices = refl;
    addresses = λ a. unfold lookup in or_else-none (lookup a u.addresses);
  }
  add_resources-Entered device (none ∷ rms) u h = cc
  add_resources-Entered device (some rm ∷ rms) u h =
      let rest = add_resources-Entered device rms (add_resource device rm u) h in
      record {
        result = rest.result;
        run = rest.run;
        devices = rest.devices ∙ devices-add_resource device rm u;
        addresses = λ a.
            rw
              (
                rest.addresses a,
                lookup-add_resource a device rm u,
                lookup-append a (claim device rm) (device_claims device rms),
              )
              (or_else_assoc (lookup a u.addresses) (lookup a (claim device rm))
                (lookup a (device_claims device rms)));
      }

  add_resources-panicked :
      (device : String) (rms : List (Option (ResourceMapping fl))) (u : Update fl)
      → resources_have_nil rms ≡ true
      → add_resources device rms u ≡ panicked
  unfolding add_resources
  add_resources-panicked device [] u h = cc
  add_resources-panicked device (none ∷ rms) u h = refl
  add_resources-panicked device (some rm ∷ rms) u h =
      add_resources-panicked device rms (add_resource device rm u) h

  -- What the loop over the devices leaves.
  record Built (dms : List (Option (DeviceMapping fl))) (u : Update fl) : Type 0 where
    result : Update fl
    run : add_devices dms u ≡ returned result
    devices :
        (n : String) → lookup n result.devices ≡ or_else (last_device n dms) (lookup n u.devices)
    addresses :
        (a : ℕ) → lookup a result.addresses ≡ or_else (lookup a u.addresses) (lookup a (claims dms))

  add_devices-Built :
      (dms : List (Option (DeviceMapping fl))) (u : Update fl) → have_nil dms ≡ false → Built dms u
  unfolding add_devices
  add_devices-Built [] u h = record {
    result = u;
    run = refl;
    devices = λ n. refl;
    addresses = λ a. unfold lookup in or_else-none (lookup a u.addresses);
  }
  add_devices-Built (none ∷ dms) u h = cc
  add_devices-Built (some dm ∷ dms) u h =
      let u₁ = record u { devices = insert dm.north_device_name dm u.devices } in
      let one =
        add_resources-Entered dm.north_device_name dm.resources u₁
          (or-false (resources_have_nil dm.resources) h).0 in
      let rest =
        add_devices-Built dms one.result (or-false (resources_have_nil dm.resources) h).1 in
      record {
        result = rest.result;
        run = rw one.run rest.run;
        devices = λ n. rw (rest.devices n, one.devices, lookup-insert) (ground arith);
        addresses = λ a.
            rw
              (
                rest.addresses a,
                one.addresses a,
                lookup-append a (device_claims dm.north_device_name dm.resources) (claims dms),
              )
              (or_else_assoc (lookup a u.addresses)
                (lookup a (device_claims dm.north_device_name dm.resources))
                (lookup a (claims dms)));
      }

  add_devices-panicked :
      (dms : List (Option (DeviceMapping fl))) (u : Update fl)
      → have_nil dms ≡ true
      → add_devices dms u ≡ panicked
  unfolding add_devices
  add_devices-panicked [] u h = cc
  add_devices-panicked (none ∷ dms) u h = refl
  add_devices-panicked (some dm ∷ dms) u h =
      let name = dm.north_device_name in
      let u₁ = record u { devices = insert name dm u.devices } in
      elim (Bool-cases (resources_have_nil dm.resources)) [
        | inl e ↦ rw (add_resources-panicked name dm.resources u₁ e) refl
        | inr e ↦
            let one = add_resources-Entered name dm.resources u₁ e in
            rw one.run (add_devices-panicked dms one.result (rw e at h))
      ]

  -- With no nil pointer among the devices and their resources UpdateMappings returns. Then an address
  -- belongs to the first resource that has both sides and names it, a name to the last device
  -- that has it, and the cache and the handler are as they were.
  pub update_mappings_lem :
      (dms : List (Option (DeviceMapping fl))) (m : MappingManager fl)
      → have_nil dms ≡ false
      → (m' : MappingManager fl) × (update_mappings dms m ≡ returned m')
        × ((a : ℕ) → lookup a m'.address_mappings ≡ lookup a (claims dms))
        × ((n : String) → lookup n m'.device_mappings ≡ last_device n dms)
        × (m'.cache ≡ m.cache)
        × (m'.has_handler ≡ m.has_handler)
  unfolding update_mappings lookup
  update_mappings_lem dms m h =
      let b = add_devices-Built dms no_update h in
      (
        record m { device_mappings = b.result.devices; address_mappings = b.result.addresses },
        rw b.run refl,
        b.addresses,
        λ n. b.devices n ∙ sym (or_else-none (last_device n dms)),
        refl,
        refl,
      )

  -- A nil pointer among the devices or their resources makes UpdateMappings panic.
  pub update_mappings_panic :
      (dms : List (Option (DeviceMapping fl))) (m : MappingManager fl)
      → have_nil dms ≡ true
      → update_mappings dms m ≡ panicked
  unfolding update_mappings
  update_mappings_panic dms m h = rw (add_devices-panicked dms no_update h) refl
