-- ===== src/Converter.antt =====
-- The converter between values and register bytes (internal/pkg/modbusserver/converter.go).
pub mod Length
pub mod Limits
pub mod RoundTrip
use app_modbus_go.Prelude.{
  ℕ, ◌%◌, ◌^◌, String, Bool, true, not, ◌||◌, List, [], ◌∷◌, ltb, if◌then◌else◌, length, replicate,
}
use app_modbus_go.Prelude.Eq.{ℕ_eq, ◌==◌}
use app_modbus_go.Prelude.Int.{ℤ, pos, wrap, wrap_signed, signed, eqb_ℤ}
use app_modbus_go.ValueType.{TypeName, lower_type_name, type_name, codes}
use app_modbus_go.Bytes.{
  Converter, make_bytes, put_uint16, put_uint32, put_uint64, get_uint16, get_uint32,
}
use app_modbus_go.Value.{
  Floats, Value, bool, int, int8, int16, int32, int64, uint, uint8, uint16, uint32, uint64, float32,
  float64, text, other,
}

-- The errors: a value whose dynamic type a method does not take, and data too short.
pub data Error : Type 0 where
  cannot_convert : TypeName → Error
  insufficient : TypeName → Error

pub data Result {ℓ} (A : Type ℓ) : Type ℓ where
  ok : A → Result A
  err : Error → Result A

infixl 5 ◌>>=◌
abbrev pub ◌>>=◌ {ℓ κ} : {A : Type ℓ} {B : Type κ} → Result A → (A → Result B) → Result B
ok a >>= f = f a
err e >>= f = err e

module _ {fl : Floats} where
  unfoldable pub apply_scale_offset : Value fl → fl.F64 → fl.F64 → Value fl
  apply_scale_offset value scale offset =
      let scale' = if fl.eq64 scale fl.zero64 then fl.one64 else scale in
      let scaled = λ (float_val : fl.F64). fl.div64 (fl.sub64 float_val offset) scale' in
      elim value [
        | float64 v ↦ float64 (scaled v)
        | float32 v ↦ float64 (scaled (fl.widen v))
        | int v ↦ float64 (scaled (fl.of_int64 v))
        | int16 v ↦ float64 (scaled (fl.of_int64 v))
        | int32 v ↦ float64 (scaled (fl.of_int64 v))
        | int64 v ↦ float64 (scaled (fl.of_int64 v))
        | uint v ↦ float64 (scaled (fl.of_int64 (pos v)))
        | uint16 v ↦ float64 (scaled (fl.of_int64 (pos v)))
        | uint32 v ↦ float64 (scaled (fl.of_int64 (pos v)))
        | uint64 v ↦ float64 (scaled (fl.of_int64 (pos v)))
        | bool v ↦ int16 (if v then pos 1 else pos 0)
        | int8 v ↦ int8 v
        | uint8 v ↦ uint8 v
        | text v ↦ text v
        | other v ↦ other v
      ]

  -- `val != 0` of the clauses that name several types, where `val` is still the interface: it is
  -- compared with the `int` 0, and differs from it unless it is an `int` that is 0.
  unfoldable pub differs_from_int_zero : Value fl → Bool
  differs_from_int_zero (int v) = not (eqb_ℤ v (pos 0))
  differs_from_int_zero _ = true

  unfoldable pub bool_value : Value fl → Result Bool
  unfolding differs_from_int_zero
  bool_value (bool val) = ok val
  bool_value (int val) = ok (differs_from_int_zero (int val))
  bool_value (int16 val) = ok (differs_from_int_zero (int16 val))
  bool_value (int32 val) = ok (differs_from_int_zero (int32 val))
  bool_value (int64 val) = ok (differs_from_int_zero (int64 val))
  bool_value (uint val) = ok (differs_from_int_zero (uint val))
  bool_value (uint16 val) = ok (differs_from_int_zero (uint16 val))
  bool_value (uint32 val) = ok (differs_from_int_zero (uint32 val))
  bool_value (uint64 val) = ok (differs_from_int_zero (uint64 val))
  bool_value (float64 val) = ok (not (fl.eq64 val fl.zero64))
  bool_value _ = err (cannot_convert TypeName.bool)

  unfoldable pub bool_to_bytes : Value fl → Result (List ℕ)
  unfolding bool_value
  bool_to_bytes value = do v ← bool_value value; ok (if v then 0xff ∷ 0x00 ∷ [] else 0 ∷ 0 ∷ [])

  -- A conversion to a signed type of `m` values is `wrap_signed m`, to an unsigned one `wrap m`.
  unfoldable pub int16_value : Value fl → Result ℤ
  int16_value (int16 val) = ok val
  int16_value (int val) = ok (wrap_signed (2 ^ 16) val)
  int16_value (int32 val) = ok (wrap_signed (2 ^ 16) val)
  int16_value (int64 val) = ok (wrap_signed (2 ^ 16) val)
  int16_value (float64 val) = ok (fl.to_signed (2 ^ 16) val)
  int16_value (uint16 val) = ok (wrap_signed (2 ^ 16) (pos val))
  int16_value _ = err (cannot_convert TypeName.int16)

  unfoldable pub uint16_value : Value fl → Result ℕ
  uint16_value (uint16 val) = ok val
  uint16_value (int val) = ok (wrap (2 ^ 16) val)
  uint16_value (int16 val) = ok (wrap (2 ^ 16) val)
  uint16_value (int32 val) = ok (wrap (2 ^ 16) val)
  uint16_value (int64 val) = ok (wrap (2 ^ 16) val)
  uint16_value (uint val) = ok (val % 2 ^ 16)
  uint16_value (uint32 val) = ok (val % 2 ^ 16)
  uint16_value (uint64 val) = ok (val % 2 ^ 16)
  uint16_value (float64 val) = ok (fl.to_unsigned (2 ^ 16) val)
  uint16_value _ = err (cannot_convert TypeName.uint16)

  unfoldable pub int32_value : Value fl → Result ℤ
  int32_value (int32 val) = ok val
  int32_value (int val) = ok (wrap_signed (2 ^ 32) val)
  int32_value (int16 val) = ok (wrap_signed (2 ^ 32) val)
  int32_value (int64 val) = ok (wrap_signed (2 ^ 32) val)
  int32_value (float64 val) = ok (fl.to_signed (2 ^ 32) val)
  int32_value _ = err (cannot_convert TypeName.int32)

  unfoldable pub uint32_value : Value fl → Result ℕ
  uint32_value (uint32 val) = ok val
  uint32_value (int val) = ok (wrap (2 ^ 32) val)
  uint32_value (int32 val) = ok (wrap (2 ^ 32) val)
  uint32_value (int64 val) = ok (wrap (2 ^ 32) val)
  uint32_value (uint val) = ok (val % 2 ^ 32)
  uint32_value (uint64 val) = ok (val % 2 ^ 32)
  uint32_value (float64 val) = ok (fl.to_unsigned (2 ^ 32) val)
  uint32_value _ = err (cannot_convert TypeName.uint32)

  unfoldable pub float32_value : Value fl → Result fl.F32
  float32_value (float32 val) = ok val
  float32_value (float64 val) = ok (fl.narrow val)
  float32_value (int val) = ok (fl.of_int32 val)
  float32_value (int32 val) = ok (fl.of_int32 val)
  float32_value (int64 val) = ok (fl.of_int32 val)
  float32_value _ = err (cannot_convert TypeName.float32)

  unfoldable pub float64_value : Value fl → Result fl.F64
  float64_value (float64 val) = ok val
  float64_value (float32 val) = ok (fl.widen val)
  float64_value (int val) = ok (fl.of_int64 val)
  float64_value (int64 val) = ok (fl.of_int64 val)
  float64_value _ = err (cannot_convert TypeName.float64)

  unfoldable pub int64_value : Value fl → Result ℤ
  int64_value (int64 val) = ok val
  int64_value (int val) = ok val
  int64_value (int32 val) = ok val
  int64_value (float64 val) = ok (fl.to_signed (2 ^ 64) val)
  int64_value _ = err (cannot_convert TypeName.int64)

  unfoldable pub uint64_value : Value fl → Result ℕ
  uint64_value (uint64 val) = ok val
  uint64_value (int val) = ok (wrap (2 ^ 64) val)
  uint64_value (int64 val) = ok (wrap (2 ^ 64) val)
  uint64_value (uint val) = ok val
  uint64_value (uint32 val) = ok val
  uint64_value (float64 val) = ok (fl.to_unsigned (2 ^ 64) val)
  uint64_value _ = err (cannot_convert TypeName.uint64)

module _ {fl : Floats} (c : Converter) where
  unfoldable pub int16_to_bytes : Value fl → Result (List ℕ)
  int16_to_bytes value = do
    v ← int16_value value
    ok (put_uint16 c (make_bytes 2) (wrap (2 ^ 16) v))

  unfoldable pub uint16_to_bytes : Value fl → Result (List ℕ)
  uint16_to_bytes value = do v ← uint16_value value; ok (put_uint16 c (make_bytes 2) v)

  unfoldable pub int32_to_bytes : Value fl → Result (List ℕ)
  int32_to_bytes value = do
    v ← int32_value value
    ok (put_uint32 c (make_bytes 4) (wrap (2 ^ 32) v))

  unfoldable pub uint32_to_bytes : Value fl → Result (List ℕ)
  uint32_to_bytes value = do v ← uint32_value value; ok (put_uint32 c (make_bytes 4) v)

  unfoldable pub float32_to_bytes : Value fl → Result (List ℕ)
  float32_to_bytes value = do
    v ← float32_value value
    ok (put_uint32 c (make_bytes 4) (fl.bits32 v))

  unfoldable pub float64_to_bytes : Value fl → Result (List ℕ)
  float64_to_bytes value = do
    v ← float64_value value
    ok (put_uint64 c (make_bytes 8) (fl.bits64 v))

  unfoldable pub int64_to_bytes : Value fl → Result (List ℕ)
  int64_to_bytes value = do
    v ← int64_value value
    ok (put_uint64 c (make_bytes 8) (wrap (2 ^ 64) v))

  unfoldable pub uint64_to_bytes : Value fl → Result (List ℕ)
  uint64_to_bytes value = do v ← uint64_value value; ok (put_uint64 c (make_bytes 8) v)

  -- the switch of ToRegisters
  unfoldable pub to_bytes : TypeName → Value fl → Result (List ℕ)
  to_bytes TypeName.bool v = bool_to_bytes v
  to_bytes TypeName.int16 v = int16_to_bytes v
  to_bytes TypeName.uint16 v = uint16_to_bytes v
  to_bytes TypeName.int32 v = int32_to_bytes v
  to_bytes TypeName.uint32 v = uint32_to_bytes v
  to_bytes TypeName.float32 v = float32_to_bytes v
  to_bytes TypeName.float64 v = float64_to_bytes v
  to_bytes TypeName.int64 v = int64_to_bytes v
  to_bytes TypeName.uint64 v = uint64_to_bytes v
  to_bytes TypeName.default v = uint16_to_bytes v

  unfoldable pub to_registers : Value fl → String → fl.F64 → fl.F64 → Result (List ℕ)
  to_registers value value_type scale offset =
      to_bytes (lower_type_name value_type) (apply_scale_offset value scale offset)

module _ (fl : Floats) (c : Converter) where
  -- The raw value that the switch of FromBytes leaves for the numeric labels. It has none for
  -- float64, int64 and uint64: they fall under `default`.
  unfoldable pub raw_value : List ℕ → TypeName → Result fl.F64
  raw_value data' TypeName.int16 =
      if ltb (length data') 2
      then err (insufficient TypeName.int16)
      else ok (fl.of_int64 (signed (2 ^ 16) (get_uint16 c data')))
  raw_value data' TypeName.uint16 =
      if ltb (length data') 2
      then err (insufficient TypeName.uint16)
      else ok (fl.of_int64 (pos (get_uint16 c data')))
  raw_value data' TypeName.int32 =
      if ltb (length data') 4
      then err (insufficient TypeName.int32)
      else ok (fl.of_int64 (signed (2 ^ 32) (get_uint32 c data')))
  raw_value data' TypeName.uint32 =
      if ltb (length data') 4
      then err (insufficient TypeName.uint32)
      else ok (fl.of_int64 (pos (get_uint32 c data')))
  raw_value data' TypeName.float32 =
      if ltb (length data') 4
      then err (insufficient TypeName.float32)
      else ok (fl.widen (fl.of_bits32 (get_uint32 c data')))
  raw_value data' _ =
      if ltb (length data') 2
      then err (insufficient TypeName.default)
      else ok (fl.of_int64 (pos (get_uint16 c data')))

  -- The `bool` label returns at once, with neither scale nor offset.
  unfoldable pub from_typed_bytes : List ℕ → TypeName → fl.F64 → fl.F64 → Result (Value fl)
  from_typed_bytes data' TypeName.bool scale offset = elim data' [
    | [] ↦ err (insufficient TypeName.bool)
    | d ∷ ds ↦ elim ds [
      | [] ↦ err (insufficient TypeName.bool)
      | d' ∷ _ ↦ ok (bool (not (d == 0) || not (d' == 0)))
    ]
  ]
  from_typed_bytes data' name scale offset = do
    raw ← raw_value data' name
    ok (
        float64
          (fl.add64 (fl.mul64 raw (if fl.eq64 scale fl.zero64 then fl.one64 else scale)) offset))

  unfoldable pub from_bytes : List ℕ → String → fl.F64 → fl.F64 → Result (Value fl)
  from_bytes data' value_type scale offset =
      from_typed_bytes data' (type_name (codes value_type)) scale offset
