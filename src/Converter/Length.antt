-- ===== src/Converter/Length.antt =====
-- How many bytes a conversion gives, and which values convert.
use app_modbus_go.Prelude.{◌^◌, ℕ, ◌*◌, ◌≡◌, true, false, List, arith, length, String}
use app_modbus_go.ValueType.{TypeName, lower_type_name, count_of, get_register_count}
use app_modbus_go.Bytes.Order.{
  Spells, AreBytes, put_uint16-Spells, put_uint32-Spells, put_uint64-Spells,
}
use app_modbus_go.Prelude.Int.{wrap}
use app_modbus_go.Bytes.{make_bytes, ByteOrder, Converter, put_uint16, put_uint32, put_uint64}
use app_modbus_go.Value.{Floats, Value}
use app_modbus_go.Converter.{
  Result, ok, err, ◌>>=◌, apply_scale_offset, bool_value, bool_to_bytes, int16_value, uint16_value,
  int32_value, uint32_value, float32_value, float64_value, int64_value, uint64_value,
  int16_to_bytes, uint16_to_bytes, int32_to_bytes, uint32_to_bytes, float32_to_bytes,
  float64_to_bytes, int64_to_bytes, uint64_to_bytes, to_bytes, to_registers,
}

-- A result that, if there is one, is `n` bytes.
abbrev pub IsEncoding : ℕ → Result (List ℕ) → Type 0
IsEncoding n (ok bs) = (length bs ≡ n) × AreBytes bs
IsEncoding n (err e) = Unit

IsEncoding-bind :
    {A : Type 0} (n : ℕ) (m : Result A) (f : A → List ℕ)
    → ((a : A) → (length (f a) ≡ n) × AreBytes (f a))
    → IsEncoding n (m >>= λ a. ok (f a))
IsEncoding-bind n (ok a) f h = h a
IsEncoding-bind n (err e) f h = tt

module _ (c : Converter) where
  bytes_of_Spells :
      {o : ByteOrder} {n v : ℕ} (bs : List ℕ) → Spells o n v bs → (length bs ≡ n) × AreBytes bs
  bytes_of_Spells bs s = (s.count, s.bytes)

  two_bytes :
      {A : Type 0} (m : Result A) (f : A → ℕ)
      → IsEncoding 2 (m >>= λ a. ok (put_uint16 c (make_bytes 2) (f a)))
  two_bytes m f = IsEncoding-bind 2 m _ (λ a. bytes_of_Spells _ (put_uint16-Spells c (f a)))

  four_bytes :
      {A : Type 0} (m : Result A) (f : A → ℕ)
      → IsEncoding 4 (m >>= λ a. ok (put_uint32 c (make_bytes 4) (f a)))
  four_bytes m f = IsEncoding-bind 4 m _ (λ a. bytes_of_Spells _ (put_uint32-Spells c (f a)))

  eight_bytes :
      {A : Type 0} (m : Result A) (f : A → ℕ)
      → IsEncoding 8 (m >>= λ a. ok (put_uint64 c (make_bytes 8) (f a)))
  eight_bytes m f = IsEncoding-bind 8 m _ (λ a. bytes_of_Spells _ (put_uint64-Spells c (f a)))

module _ {fl : Floats} (c : Converter) where
  to_bytes-IsEncoding : (t : TypeName) (v : Value fl) → IsEncoding (2 * count_of t) (to_bytes c t v)
  unfolding to_bytes count_of bool_to_bytes int16_to_bytes uint16_to_bytes int32_to_bytes
      uint32_to_bytes float32_to_bytes float64_to_bytes int64_to_bytes uint64_to_bytes
  to_bytes-IsEncoding TypeName.bool v =
      IsEncoding-bind 2 (bool_value v) _ (elim [ true ↦ omega arith | false ↦ omega arith ])
  to_bytes-IsEncoding TypeName.int16 v = two_bytes c (int16_value v) (λ z. wrap (2 ^ 16) z)
  to_bytes-IsEncoding TypeName.uint16 v = two_bytes c (uint16_value v) (λ n. n)
  to_bytes-IsEncoding TypeName.int32 v = four_bytes c (int32_value v) (λ z. wrap (2 ^ 32) z)
  to_bytes-IsEncoding TypeName.uint32 v = four_bytes c (uint32_value v) (λ n. n)
  to_bytes-IsEncoding TypeName.float32 v = four_bytes c (float32_value v) fl.bits32
  to_bytes-IsEncoding TypeName.float64 v = eight_bytes c (float64_value v) fl.bits64
  to_bytes-IsEncoding TypeName.int64 v = eight_bytes c (int64_value v) (λ z. wrap (2 ^ 64) z)
  to_bytes-IsEncoding TypeName.uint64 v = eight_bytes c (uint64_value v) (λ n. n)
  to_bytes-IsEncoding TypeName.default v = two_bytes c (uint16_value v) (λ n. n)

  -- What `ToRegisters` returns, if it converts the value, is bytes, and as many as the registers
  -- that `GetRegisterCount` gives for the type hold, two for each.
  pub to_registers-IsEncoding :
      (v : Value fl) (value_type : String) (scale offset : fl.F64)
      → IsEncoding (2 * get_register_count value_type) (to_registers c v value_type scale offset)
  unfolding to_registers get_register_count
  to_registers-IsEncoding v value_type scale offset =
      to_bytes-IsEncoding (lower_type_name value_type) (apply_scale_offset v scale offset)
