-- ===== src/Mapping/WellFormed.antt =====
-- What a well-formed mapping manager is (internal/pkg/mappingmanager/mappingmanager.go), and what of it holds
-- for the devices of an update.
use mathlib.Core.Option.{none-ne-some, some-injective}
use mathlib.Core.Path.{subst}
use app_modbus_go.Prelude.{
  ℕ, ◌≡◌, refl, sym, ap, ◌∙◌, ◌⊎◌, inl, inr, String, Bool, true, false, ◌||◌, Option, none, some,
  List, [], ◌∷◌, Bool-cases, Option-cases,
}
use app_modbus_go.Prelude.Int.{ℤ}
use app_modbus_go.Prelude.Eq.{ℕ_eq, String_eq, ◌==◌}
use app_modbus_go.Prelude.Dict.{lookup, Unique}
use app_modbus_go.Value.{Floats}
use app_modbus_go.Resource.{NorthResource, SouthResource, ResourceMapping, DeviceMapping}
use app_modbus_go.Run.{returned, panicked}
use app_modbus_go.Cache
use app_modbus_go.Cache.{Cache, CachedData, stamp, fresh, is_expired}
use app_modbus_go.Mapping.{AddressIndex, MappingManager, new_mapping_manager, update_mappings}
use app_modbus_go.Mapping.Claims.{
  or_else, lookup-append, resources_have_nil, have_nil, claim, device_claims, claims, last_device,
  update_mappings_panic,
}

pub or_else-some :
    {A : Type 0} (o p : Option A) (x : A) → or_else o p ≡ some x → (o ≡ some x) ⊎ (p ≡ some x)
or_else-some none p x e = inr e
or_else-some (some y) p x e = inl e

module _ {fl : Floats} where
  -- An entry of the index: a resource with both sides, whose address it is.
  abbrev pub Claimed : ℕ → AddressIndex fl → Type 0
  Claimed a idx =
      (north : NorthResource fl) × (south : SouthResource fl) × (idx.resource_mapping.north_resource
        ≡ some north)
      × (idx.resource_mapping.south_resource ≡ some south)
      × (north.address ≡ a)

  -- No address stands twice in the cache, and each record is for its address.
  abbrev pub Addressed : Cache fl → Type 0
  Addressed c =
      Unique c.entries
      × ((a : ℕ) (d : CachedData fl) → lookup a c.entries ≡ some d → d.modbus_address ≡ a)

  -- No nil pointer is among the resources of a device, which stands under its name.
  pub record IsWellFormed (m : MappingManager fl) : Type 0 where
    pub complete :
        (name : String) (dm : DeviceMapping fl)
        → lookup name m.device_mappings ≡ some dm
        → (resources_have_nil dm.resources ≡ false) × (dm.north_device_name ≡ name)
    pub indexed :
        (a : ℕ) (idx : AddressIndex fl) → lookup a m.address_mappings ≡ some idx → Claimed a idx
    pub addressed : Addressed m.cache

  pub new_mapping_manager-IsWellFormed : (ttl : ℤ) → IsWellFormed (new_mapping_manager ttl)
  unfolding new_mapping_manager lookup Cache.new_cache
  new_mapping_manager-IsWellFormed ttl = record {
    complete = λ name dm e. absurd (none-ne-some dm e);
    indexed = λ a idx e. absurd (none-ne-some idx e);
    addressed = (tt, λ a d e. absurd (none-ne-some d e));
  }

  claim-Claimed :
      (device : String) (rm : ResourceMapping fl) (a : ℕ) (idx : AddressIndex fl)
      → lookup a (claim device rm) ≡ some idx
      → Claimed a idx
  unfolding lookup
  claim-Claimed device rm a idx e = elim (Option-cases rm.north_resource) [
    | inl nil ↦ absurd (none-ne-some idx (rw nil at e))
    | inr (north, n) ↦ elim (Option-cases rm.south_resource) [
      | inl nil ↦ absurd (none-ne-some idx (rw (n, nil) at e))
      | inr (south, s) ↦ elim (Bool-cases (north.address == a)) [
        | inl here ↦
            let mine =
              some-injective
                (record {
                  device_name = device;
                  resource_mapping = record rm { north_resource = some north };
                })
                idx (rw (n, s, here) at e) in
            (
              north,
              south,
              ap (λ x. x.resource_mapping.north_resource) (sym mine),
              ap (λ x. x.resource_mapping.south_resource) (sym mine) ∙ s,
              (ℕ_eq.agree_iff north.address a).0 here,
            )
        | inr other ↦ absurd (none-ne-some idx (rw (n, s, other) at e))
      ]
    ]
  ]

  device_claims-Claimed :
      (device : String) (rms : List (Option (ResourceMapping fl))) (a : ℕ) (idx : AddressIndex fl)
      → lookup a (device_claims device rms) ≡ some idx
      → Claimed a idx
  unfolding lookup
  device_claims-Claimed device [] a idx e = absurd (none-ne-some idx e)
  device_claims-Claimed device (none ∷ rms) a idx e = device_claims-Claimed device rms a idx e
  device_claims-Claimed device (some rm ∷ rms) a idx e =
      elim (or_else-some _ _ idx
        (rw (lookup-append a (claim device rm) (device_claims device rms)) at e)) [
          | inl mine ↦ claim-Claimed device rm a idx mine
          | inr rest ↦ device_claims-Claimed device rms a idx rest
        ]

  pub claims-Claimed :
      (dms : List (Option (DeviceMapping fl))) (a : ℕ) (idx : AddressIndex fl)
      → lookup a (claims dms) ≡ some idx
      → Claimed a idx
  unfolding lookup
  claims-Claimed [] a idx e = absurd (none-ne-some idx e)
  claims-Claimed (none ∷ dms) a idx e = claims-Claimed dms a idx e
  claims-Claimed (some dm ∷ dms) a idx e =
      elim (or_else-some _ _ idx (
        rw (lookup-append a (device_claims dm.north_device_name dm.resources) (claims dms)) at e)) [
          | inl mine ↦ device_claims-Claimed dm.north_device_name dm.resources a idx mine
          | inr rest ↦ claims-Claimed dms a idx rest
        ]

  pub last_device_complete :
      (name : String) (dms : List (Option (DeviceMapping fl))) (dm : DeviceMapping fl)
      → have_nil dms ≡ false
      → last_device name dms ≡ some dm
      → (resources_have_nil dm.resources ≡ false) × (dm.north_device_name ≡ name)
  last_device_complete name [] dm h e = absurd (none-ne-some dm e)
  last_device_complete name (none ∷ dms) dm h e = cc
  last_device_complete name (some first ∷ dms) dm h e =
      let parts = halves (resources_have_nil first.resources) h in
      elim (or_else-some (last_device name dms) _ dm e) [
        | inl later ↦ last_device_complete name dms dm parts.1 later
        | inr mine ↦ elim (Bool-cases (first.north_device_name == name)) [
          | inl same ↦
              let it = some-injective first dm (rw same at mine) in
              (
                subst (λ x. resources_have_nil x.resources ≡ false) it parts.0,
                ap (λ x. x.north_device_name) (sym it)
                    ∙ (String_eq.agree_iff first.north_device_name name).0 same,
              )
          | inr other ↦ absurd (none-ne-some dm (rw other at mine))
        ]
      ]
    where
      halves : (a : Bool) {b : Bool} → (a || b) ≡ false → (a ≡ false) × (b ≡ false)
      halves true e = cc
      halves false e = (refl, e)

  -- UpdateMappings returns only where there is no nil pointer.
  pub returned_complete :
      (dms : List (Option (DeviceMapping fl))) (m m' : MappingManager fl)
      → update_mappings dms m ≡ returned m'
      → have_nil dms ≡ false
  returned_complete dms m m' h = elim (Bool-cases (have_nil dms)) [
    | inl nil ↦ absurd (not_returned m' (sym (update_mappings_panic dms m nil) ∙ h))
    | inr complete ↦ complete
  ]
    where
      not_returned : (m : MappingManager fl) → panicked ≡ returned m → ⊥
      not_returned m e = cc
