-- ===== src/Converter/Limits.antt =====
-- Which values convert, and where the two directions of the converter do not meet.
use app_modbus_go.Prelude.{
  ℕ, ◌/◌, ◌%◌, ◌≡◌, ◌<◌, ◌^◌, refl, Bool, true, false, [], ◌∷◌, arith, String, some,
}
use app_modbus_go.Prelude.Int.{pos}
use app_modbus_go.ValueType.{TypeName, lower_type_name}
use app_modbus_go.Bytes.{
  Converter, ByteOrder, big_endian, little_endian, make_bytes, put, get, put_uint64, get_uint16,
}
use app_modbus_go.Bytes.Order.{put_uint64-Spells}
use app_modbus_go.Value.{Floats, Value, bool, int8, uint8, float64, text, other}
use app_modbus_go.Converter.{
  Result, ok, err, ◌>>=◌, apply_scale_offset, bool_value, bool_to_bytes, int16_value, uint16_value,
  int32_value, uint32_value, float32_value, float64_value, int64_value, uint64_value,
  int16_to_bytes, uint16_to_bytes, int32_to_bytes, uint32_to_bytes, float32_to_bytes,
  float64_to_bytes, int64_to_bytes, uint64_to_bytes, to_bytes, to_registers, from_bytes,
  from_typed_bytes, raw_value,
}
use app_modbus_go.Converter.RoundTrip.{
  IsGo, number, unit_scale, type_name_lem, lower_type_name_lem, apply_number,
}

abbrev pub is_ok {ℓ} : {A : Type ℓ} → Result A → Bool
is_ok (ok a) = true
is_ok (err e) = false

module _ {fl : Floats} where
  -- Numbers convert to every type, a Boolean to those of at most 32 bits that are neither unsigned
  -- nor floats, and to uint16.
  abbrev pub accepts : TypeName → Value fl → Bool
  accepts t (int8 v) = false
  accepts t (uint8 v) = false
  accepts t (text v) = false
  accepts t (other v) = false
  accepts TypeName.uint32 (bool v) = false
  accepts TypeName.float32 (bool v) = false
  accepts TypeName.float64 (bool v) = false
  accepts TypeName.int64 (bool v) = false
  accepts TypeName.uint64 (bool v) = false
  accepts t v = true

module _ {fl : Floats} (c : Converter) where
  to_bytes-accepts :
      (t : TypeName) (v : Value fl) (scale offset : fl.F64)
      → is_ok (to_bytes c t (apply_scale_offset v scale offset)) ≡ accepts t v
  unfolding to_bytes apply_scale_offset bool_value bool_to_bytes int16_value uint16_value
      int32_value uint32_value float32_value float64_value int64_value uint64_value int16_to_bytes
      uint16_to_bytes int32_to_bytes uint32_to_bytes float32_to_bytes float64_to_bytes
      int64_to_bytes uint64_to_bytes
  to_bytes-accepts TypeName.bool (bool v) scale offset = refl
  to_bytes-accepts _ (bool v) scale offset = refl
  to_bytes-accepts TypeName.bool _ scale offset = refl
  to_bytes-accepts _ _ scale offset = refl

  -- `ToRegisters` converts a value, whatever the scale and the offset are, exactly when it is a
  -- number of another type than int8 and uint8, or a Boolean and the type asked for is bool,
  -- int16, uint16, int32 or none that the converter knows; else it is an error.
  pub to_registers-accepts :
      (v : Value fl) (value_type : String) (scale offset : fl.F64)
      → is_ok (to_registers c v value_type scale offset) ≡ accepts (lower_type_name value_type) v
  unfolding to_registers
  to_registers-accepts v value_type scale offset =
      to_bytes-accepts (lower_type_name value_type) v scale offset

module _ (fl : Floats) (c : Converter) where
  -- A Boolean asked for as "bool" gives FF 00 whether it is true or false: it comes to `boolToBytes`
  -- as the int16 1 or 0, and neither equals the int 0 that it is compared with.
  pub to_registers_bool :
      (b : Bool) (value_type : String) (scale offset : fl.F64)
      → lower_type_name value_type ≡ TypeName.bool
      → to_registers {fl = fl} c (bool b) value_type scale offset ≡ ok (0xff ∷ 0x00 ∷ [])
  unfolding to_registers apply_scale_offset to_bytes bool_to_bytes bool_value
  to_registers_bool b value_type scale offset h = rw h refl

-- The number in the first two of the eight bytes of a 64-bit number.
abbrev pub first_of_eight : ByteOrder → ℕ → ℕ
first_of_eight big_endian n = n / 2 ^ 48
first_of_eight little_endian n = n % 2 ^ 16

get-put_eight :
    (o : ByteOrder) (n : ℕ) → n < 2 ^ 64 → get o 2 (put o 8 (make_bytes 8) n) ≡ first_of_eight o n
unfolding get put
get-put_eight big_endian n h = omega arith
get-put_eight little_endian n h = omega arith

get_uint16-put_uint64 :
    (c : Converter) (n : ℕ)
    → n < 2 ^ 64
    → get_uint16 c (put_uint64 c (make_bytes 8) n) ≡ first_of_eight c.byte_order n
unfolding get_uint16 put_uint64
get_uint16-put_uint64 c n h = get-put_eight c.byte_order n h

module _ {fl : Floats} (go : IsGo fl) (c : Converter) where
  -- Under the laws `IsGo` of the float operations: the bytes of a number asked for as "uint64" are
  -- read back as a 16-bit number, that of the first of the four registers, and this is scaled
  -- back.
  pub from_bytes-to_registers_uint64 :
      (v : Value fl) (x scale offset : fl.F64)
      → number v ≡ some x
      → (to_registers c v "uint64" scale offset >>= λ bs. from_bytes fl c bs "uint64" scale offset)
        ≡ ok (
            float64 (
              fl.add64
                (fl.mul64
                  (fl.of_int64 (
                    pos (
                      first_of_eight c.byte_order (
                        fl.to_unsigned
                          (2 ^ 64)
                          (fl.div64 (fl.sub64 x offset) (unit_scale fl scale))))))
                  (unit_scale fl scale))
                offset))
  unfolding to_registers from_bytes to_bytes uint64_to_bytes uint64_value from_typed_bytes raw_value
  from_bytes-to_registers_uint64 v x scale offset e =
      rw
        (
          apply_number go c v x scale offset e,
          lower_type_name_lem TypeName.uint64,
          type_name_lem TypeName.uint64,
        )
        (rw ((put_uint64-Spells c n).count, get_uint16-put_uint64 c n (go.unsigned64 _)) refl)
    where
      n : ℕ
      n = fl.to_unsigned (2 ^ 64) (fl.div64 (fl.sub64 x offset) (unit_scale fl scale))
