-- ===== src/Server/Sensor.antt =====
-- The way of a value: from the sensor data through the mapping manager and its cache to the answer
-- of a register read.
use app_modbus_go.Prelude.{
  ℕ, zero, suc, ◌+◌, ◌*◌, ◌%◌, ◌≡◌, ◌≤◌, ◌<◌, refl, sym, ap, ◌∙◌, String, false, Option, some, List,
  [], ◌∷◌, ◌++◌, arith, length, take,
}
use mathlib.Core.List.{append-nil}
use app_modbus_go.Prelude.Eq.{ℕ_eq, String_eq}
use app_modbus_go.Prelude.Dict.{Dict, lookup, insert}
use app_modbus_go.Value.{Floats, Value}
use app_modbus_go.ValueType.{count_of, get_register_count, lower_type_name, TypeName}
use app_modbus_go.Resource.{DeviceMapping}
use app_modbus_go.Cache.{CachedData, fresh}
use app_modbus_go.Converter.{ok, to_registers}
use app_modbus_go.Run.{returned}
use app_modbus_go.Mapping.{MappingManager, update_cache, get_cached_value}
use app_modbus_go.Mapping.Claims.{resources_have_nil}
use app_modbus_go.Mapping.Sensor.{last_write, update_cache_lem}
use app_modbus_go.Reader.{Answers, collect_forward_data}
use app_modbus_go.Reader.Layout.{Layout, done, value, encoded, encoded-IsEncoding, Layout-unique}
use app_modbus_go.Server.{success, log_forward, word, converter, handle_read_holding_registers}
use app_modbus_go.Server.Reads.{read_reply, handle_read_holding_registers_lem}

take_all {ℓ} : {A : Type ℓ} (xs : List A) (n : ℕ) → length xs ≡ n → take n xs ≡ xs
take_all [] zero h = refl
take_all [] (suc n) h = refl
take_all (x ∷ xs) zero h = absurd (omega arith)
take_all (x ∷ xs) (suc n) h = ap (λ ys. x ∷ ys) (take_all xs n (omega arith))

count_of-limits : (t : TypeName) → (1 ≤ count_of t) × (count_of t ≤ 4)
unfolding count_of
count_of-limits t = ground arith

get_register_count-limits : (s : String) → (1 ≤ get_register_count s) × (get_register_count s ≤ 4)
unfolding get_register_count
get_register_count-limits s = count_of-limits (lower_type_name s)

module _ {fl : Floats} (answers : Answers fl) (a b p q : ℕ) (d : CachedData fl)
    (image : List ℕ) where
  encoded-some :
      (o : Option (CachedData fl))
      → o ≡ some d
      → to_registers converter d.value d.value_type d.scale d.offset ≡ ok image
      → encoded converter o ≡ some (d, image)
  encoded-some o e converts = rw (e, converts) refl

  -- a read of just the registers of the value at its address
  one_value :
      answers 0 (word a b) ≡ some d
      → to_registers converter d.value d.value_type d.scale d.offset ≡ ok image
      → word p q ≡ get_register_count d.value_type
      → word a b < 65536
      → handle_read_holding_registers answers (a ∷ b ∷ p ∷ q ∷ [])
        ≡ returned (read_reply answers (a ∷ b ∷ p ∷ q ∷ []) (2 * word p q) image (d ∷ []))
  one_value there converts count address =
      let (least, most) = get_register_count-limits d.value_type in
      let at_start : word a b ≡ (word a b + 0) % 65536 = omega arith in
      let answered : encoded converter (answers 0 ((word a b + 0) % 65536)) ≡ some (d, image) =
        encoded-some (answers 0 ((word a b + 0) % 65536))
          (ap (λ x. answers 0 x) (sym at_start) ∙ there) converts in
      let mine : Layout converter answers (word a b) 0 (word p q) (take (2 * word p q) image ++ [])
          (d ∷ []) =
        value {left = word p q} {next = word p q} {rest = 0} {regs = word p q} d image answered
          (omega arith) (omega arith) (omega arith) (omega arith) done in
      let (bytes, reads, l, run) =
        (handle_read_holding_registers_lem answers (a ∷ b ∷ p ∷ q ∷ [])).1 (ground arith) in
      let (same_bytes, same_reads) = Layout-unique converter answers (word a b) l mine in
      let size : length image ≡ 2 * word p q =
        (encoded-IsEncoding converter (answers 0 ((word a b + 0) % 65536)) d image answered).0
        ∙ ap (λ n. 2 * n) (sym count) in
      let whole : bytes ≡ image =
        same_bytes ∙ append-nil (take (2 * word p q) image) ∙ take_all image (2 * word p q) size in
      run
      ∙ ap (λ bs. returned (read_reply answers (a ∷ b ∷ p ∷ q ∷ []) (2 * word p q) bs reads)) whole
      ∙ ap (λ rs. returned (read_reply answers (a ∷ b ∷ p ∷ q ∷ []) (2 * word p q) image rs))
          same_reads

module _ {fl : Floats} (clock : ℕ → ℕ) (device : String) (values : Dict String (Value fl)) where
  -- The data of a known device with no nil resource, read back: where the last matching resource at
  -- an address below 65536 stored a record that is still fresh and converts, a read of holding registers from
  -- that address on, of as many registers as its type has, answers the count byte and just the
  -- bytes that the value converts to, and logs it.
  pub sensor_read :
      (times : ℕ → ℕ) (a b p q : ℕ) (d : CachedData fl) (image : List ℕ) (m : MappingManager fl)
      (dm : DeviceMapping fl)
      → lookup device m.device_mappings ≡ some dm
      → resources_have_nil dm.resources ≡ false
      → last_write clock device values m.cache.default_ttl (word a b) 0 dm.resources ≡ some d
      → fresh (times 0) (some d) ≡ some d
      → to_registers converter d.value d.value_type d.scale d.offset ≡ ok image
      → word p q ≡ get_register_count d.value_type
      → word a b < 65536
      → (m' : MappingManager fl) × (update_cache clock device values m ≡ returned (some m'))
        × (handle_read_holding_registers
              (λ i addr. get_cached_value (times i) addr m')
              (a ∷ b ∷ p ∷ q ∷ [])
            ≡ returned (record {
              bytes = some (2 * word p q ∷ image);
              exception = success;
              logged = some ((d.north_dev_name, (d.resource_name, d.value) ∷ []) ∷ []);
            }))
  unfolding log_forward collect_forward_data insert lookup
  sensor_read times a b p q d image m dm known complete stored is_fresh converts count address =
      let (m', run, mappings, index, reads) =
        update_cache_lem clock device values m dm known complete in
      let there : get_cached_value (times 0) (word a b) m' ≡ some d =
        reads (times 0) (word a b) ∙ rw stored is_fresh in
      (
        m',
        run,
        one_value (λ i addr. get_cached_value (times i) addr m') a b p q d image there converts
            count address,
      )
