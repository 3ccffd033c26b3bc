-- ===== src/Cache.antt =====
-- The data cache (internal/pkg/mappingmanager/cache.go). A clock reading is a number of
-- nanoseconds and is an argument of the operations that call `time.Now` or `time.Since`; a
-- duration is an integer. The mutex makes each method one step.
pub mod Expiry
pub mod Keys
pub mod Refinement
use app_modbus_go.Prelude.{
  ℕ, zero, suc, ◌+◌, ◌%◌, String, Bool, true, false, Option, none, some, List, [], ◌∷◌, ltb,
  if◌then◌else◌, length,
}
use app_modbus_go.Prelude.Int.{ℤ, pos, ltb_ℤ, eqb_ℤ, sub_ℕ}
use app_modbus_go.Prelude.Eq.{ℕ_eq}
use app_modbus_go.Prelude.Dict.{Dict, lookup, insert, erase}
use app_modbus_go.Value.{Floats, Value}

pub record CachedData (fl : Floats) : Type 0 where
  pub value : Value fl
  pub timestamp : ℕ
  pub ttl : ℤ
  pub north_dev_name : String
  pub resource_name : String
  pub value_type : String
  pub scale : fl.F64
  pub offset : fl.F64
  pub modbus_address : ℕ

pub record Cache (fl : Floats) : Type 0 where
  pub entries : Dict ℕ (CachedData fl)
  pub default_ttl : ℤ
  -- whether `stopCh` is closed
  pub stopped : Bool

-- NewCache
unfoldable pub new_cache : {fl : Floats} → ℤ → Cache fl
new_cache default_ttl = record { entries = []; default_ttl = default_ttl; stopped = false }

module _ {fl : Floats} where
  -- `time.Since(c.Timestamp) > c.TTL`
  unfoldable pub is_expired : ℕ → CachedData fl → Bool
  is_expired now d = ltb_ℤ d.ttl (sub_ℕ now d.timestamp)

  -- What `Set` writes into the record: the default TTL for a zero one, and the time.
  unfoldable pub stamp : ℕ → ℤ → CachedData fl → CachedData fl
  stamp now default_ttl d = record d {
    ttl = if eqb_ℤ d.ttl (pos 0) then default_ttl else d.ttl;
    timestamp = now;
  }

  unfoldable pub set : ℕ → ℕ → CachedData fl → Cache fl → Cache fl
  set now addr d c = record c { entries = insert addr (stamp now c.default_ttl d) c.entries }

  -- the test of `Get` on what the map holds
  unfoldable pub fresh : ℕ → Option (CachedData fl) → Option (CachedData fl)
  unfolding is_expired
  fresh now none = none
  fresh now (some d) = if is_expired now d then none else some d

  unfoldable pub get : ℕ → ℕ → Cache fl → Option (CachedData fl)
  get now addr c = fresh now (lookup addr c.entries)

  -- The loop of `GetRange` from its counter `i`, with the rounds left; `startAddr + i` is a uint16.
  unfoldable pub get_range_loop : ℕ → Cache fl → ℕ → ℕ → ℕ → List (Option (CachedData fl))
  get_range_loop now c start i zero = []
  get_range_loop now c start i (suc n) =
      fresh now (lookup ((start + i) % 65536) c.entries) ∷ get_range_loop now c start (i + 1) n

  unfoldable pub get_range : ℕ → ℕ → ℕ → Cache fl → List (Option (CachedData fl))
  unfolding get_range_loop
  get_range now start quantity c = get_range_loop now c start 0 quantity

  unfoldable pub delete : ℕ → Cache fl → Cache fl
  delete addr c = record c { entries = erase addr c.entries }

  unfoldable pub clear : Cache fl → Cache fl
  clear c = record c { entries = [] }

  -- The loop of `Cleanup`: the entries that stay, and how many were deleted.
  unfoldable pub cleanup_loop : ℕ → Dict ℕ (CachedData fl) → Dict ℕ (CachedData fl) × ℕ
  unfolding is_expired
  cleanup_loop now [] = ([], 0)
  cleanup_loop now ((k, d) ∷ m) =
      let (rest, count) = cleanup_loop now m in
      if is_expired now d then (rest, count + 1) else ((k, d) ∷ rest, count)

  unfoldable pub cleanup : ℕ → Cache fl → Cache fl × ℕ
  unfolding cleanup_loop
  cleanup now c =
      (record c { entries = (cleanup_loop now c.entries).0 }, (cleanup_loop now c.entries).1)

  unfoldable pub size : Cache fl → ℕ
  size c = length c.entries

  -- the loop of `GetAll`
  unfoldable pub copy_loop :
      Dict ℕ (CachedData fl) → Dict ℕ (CachedData fl) → Dict ℕ (CachedData fl)
  copy_loop [] result = result
  copy_loop ((k, v) ∷ m) result = copy_loop m (insert k v result)

  unfoldable pub get_all : Cache fl → Dict ℕ (CachedData fl)
  unfolding copy_loop
  get_all c = copy_loop c.entries []

  -- `Stop` closes `stopCh`. `none` is the panic of closing it again.
  unfoldable pub stop : Cache fl → Option (Cache fl)
  stop c = if c.stopped then none else some (record c { stopped = true })

-- What wakes the goroutine of `StartPeriodicCleanup`: the ticker, at a time, or `stopCh`.
pub data Wake : Type 0 where
  tick : ℕ → Wake
  stop_signal : Wake

module _ {fl : Floats} where
  -- The loop of the goroutine over what wakes it: the cache, and the counts that the callback gets.
  unfoldable pub periodic_cleanup : List Wake → Cache fl → Cache fl × List ℕ
  unfolding cleanup
  periodic_cleanup [] c = (c, [])
  periodic_cleanup (stop_signal ∷ ws) c = (c, [])
  periodic_cleanup (tick now ∷ ws) c =
      let (c', count) = cleanup now c in
      let (c'', calls) = periodic_cleanup ws c' in
      (c'', if ltb 0 count then count ∷ calls else calls)
