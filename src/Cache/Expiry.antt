-- ===== src/Cache/Expiry.antt =====
-- When `Get` sees what `Set` stored, and that `Cleanup` hides nothing that is fresh.
use app_modbus_go.Prelude.{
  ℕ, ◌+◌, ◌≤◌, ◌≡◌, refl, true, none, some, [], ◌∷◌, arith, leb, if◌then◌else◌,
}
use app_modbus_go.Prelude.Int.{pos}
use app_modbus_go.Prelude.Eq.{ℕ_eq, ◌==◌}
use app_modbus_go.Prelude.Dict.{Dict, Unique, lookup, lookup-insert}
use app_modbus_go.Value.{Floats}
use app_modbus_go.Cache.{CachedData, Cache, is_expired, stamp, fresh, get, set, cleanup_loop}

module _ {fl : Floats} where
  pub get-set :
      (t₀ t a b : ℕ) (d : CachedData fl) (c : Cache fl)
      → get t b (set t₀ a d c)
        ≡ (if a == b then fresh t (some (stamp t₀ c.default_ttl d)) else get t b c)
  unfolding get set
  get-set t₀ t a b d c = rw lookup-insert (ground arith)

  -- With a default TTL that is not negative, a value stored with no TTL of its own is returned by
  -- `Get` exactly while its age is at most the default TTL, with its record unchanged but for the
  -- TTL and the time of the call.
  pub get-set_window :
      (t₀ age a ttl : ℕ) (d : CachedData fl) (c : Cache fl)
      → d.ttl ≡ pos 0
      → c.default_ttl ≡ pos ttl
      → get (t₀ + age) a (set t₀ a d c)
        ≡ (if leb age ttl then some (record d { ttl = pos ttl; timestamp = t₀ }) else none)
  unfolding fresh stamp
  get-set_window t₀ age a ttl d c h k = rw get-set (ground arith)

  -- what has expired stays expired
  pub is_expired_later :
      (now later : ℕ) (d : CachedData fl)
      → now ≤ later
      → is_expired now d ≡ true
      → is_expired later d ≡ true
  unfolding is_expired
  is_expired_later now later d h e = ground arith

  pub lookup-cleanup_loop :
      (now later a : ℕ) (m : Dict ℕ (CachedData fl))
      → now ≤ later
      → Unique m
      → fresh later (lookup a (cleanup_loop now m).0) ≡ fresh later (lookup a m)
  unfolding lookup cleanup_loop fresh
  lookup-cleanup_loop now later a [] h u = refl
  lookup-cleanup_loop now later a ((k, d) ∷ m) h u =
      ground (arith, lookup-cleanup_loop now later a m h u.1, is_expired_later now later d h)
