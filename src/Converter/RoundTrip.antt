-- ===== src/Converter/RoundTrip.antt =====
-- What `FromBytes` makes of the bytes that `ToRegisters` gave.
use app_modbus_go.Prelude.{
  ◌∙◌, ap, ℕ, ◌≡◌, ◌<◌, ◌^◌, refl, List, arith, if◌then◌else◌, String, Option, some, none,
}
use app_modbus_go.Prelude.Int.{ℤ, pos, wrap, signed, InSigned}
use app_modbus_go.ValueType.{TypeName, lower_type_name, type_name}
use app_modbus_go.Bytes.{Converter}
use app_modbus_go.Bytes.Order.{put_uint16-Spells, put_uint32-Spells, get-put}
use app_modbus_go.Value.{
  Floats, Value, int, int16, int32, int64, uint, uint16, uint32, uint64, float32, float64,
}
use app_modbus_go.Converter.{
  codes, Result, ok, err, ◌>>=◌, apply_scale_offset, int16_value, uint16_value, int32_value,
  uint32_value, float32_value, int16_to_bytes, uint16_to_bytes, int32_to_bytes, uint32_to_bytes,
  float32_to_bytes, to_bytes, to_registers, from_bytes, from_typed_bytes, raw_value,
}

-- the text of a label, in lower case
abbrev pub name_of : TypeName → String
name_of TypeName.bool = "bool"
name_of TypeName.int16 = "int16"
name_of TypeName.uint16 = "uint16"
name_of TypeName.int32 = "int32"
name_of TypeName.uint32 = "uint32"
name_of TypeName.float32 = "float32"
name_of TypeName.float64 = "float64"
name_of TypeName.int64 = "int64"
name_of TypeName.uint64 = "uint64"
name_of TypeName.default = ""

pub lower_type_name_lem : (t : TypeName) → lower_type_name (name_of t) ≡ t
unfolding lower_type_name
lower_type_name_lem TypeName.bool = refl
lower_type_name_lem _ = refl

pub type_name_lem : (t : TypeName) → type_name (codes (name_of t)) ≡ t
unfolding type_name
type_name_lem TypeName.bool = refl
type_name_lem _ = refl

pub signed-wrap16 : (z : ℤ) → InSigned (2 ^ 16) z → signed (2 ^ 16) (wrap (2 ^ 16) z) ≡ z
unfolding signed wrap
signed-wrap16 z h = ground arith

pub signed-wrap32 : (z : ℤ) → InSigned (2 ^ 32) z → signed (2 ^ 32) (wrap (2 ^ 32) z) ≡ z
unfolding signed wrap
signed-wrap32 z h = ground arith

wrap16-lt : (z : ℤ) → wrap (2 ^ 16) z < 2 ^ 16
unfolding wrap
wrap16-lt z = ground arith

wrap32-lt : (z : ℤ) → wrap (2 ^ 32) z < 2 ^ 32
unfolding wrap
wrap32-lt z = ground arith

-- What Go promises of the conversions: a conversion to an integer type gives a value of that type,
-- and the bits of a float32 are 32 bits that give it back.
pub record IsGo (fl : Floats) : Type 0 where
  pub signed16 : (x : fl.F64) → InSigned (2 ^ 16) (fl.to_signed (2 ^ 16) x)
  pub signed32 : (x : fl.F64) → InSigned (2 ^ 32) (fl.to_signed (2 ^ 32) x)
  pub unsigned16 : (x : fl.F64) → fl.to_unsigned (2 ^ 16) x < 2 ^ 16
  pub unsigned32 : (x : fl.F64) → fl.to_unsigned (2 ^ 32) x < 2 ^ 32
  pub unsigned64 : (x : fl.F64) → fl.to_unsigned (2 ^ 64) x < 2 ^ 64
  pub bits32-lt : (x : fl.F32) → fl.bits32 x < 2 ^ 32
  pub of_bits32-bits32 : (x : fl.F32) → fl.of_bits32 (fl.bits32 x) ≡ x

module _ {fl : Floats} where
  -- the number in a value, as a float64
  abbrev pub number : Value fl → Option fl.F64
  number (float64 v) = some v
  number (float32 v) = some (fl.widen v)
  number (int v) = some (fl.of_int64 v)
  number (int16 v) = some (fl.of_int64 v)
  number (int32 v) = some (fl.of_int64 v)
  number (int64 v) = some (fl.of_int64 v)
  number (uint v) = some (fl.of_int64 (pos v))
  number (uint16 v) = some (fl.of_int64 (pos v))
  number (uint32 v) = some (fl.of_int64 (pos v))
  number (uint64 v) = some (fl.of_int64 (pos v))
  number _ = none

module _ (fl : Floats) where
  abbrev pub unit_scale : fl.F64 → fl.F64
  unit_scale scale = if fl.eq64 scale fl.zero64 then fl.one64 else scale

  -- What the registers of a type keep of a raw value.
  abbrev pub kept : TypeName → fl.F64 → fl.F64
  kept TypeName.int16 x = fl.of_int64 (fl.to_signed (2 ^ 16) x)
  kept TypeName.uint16 x = fl.of_int64 (pos (fl.to_unsigned (2 ^ 16) x))
  kept TypeName.int32 x = fl.of_int64 (fl.to_signed (2 ^ 32) x)
  kept TypeName.uint32 x = fl.of_int64 (pos (fl.to_unsigned (2 ^ 32) x))
  kept TypeName.float32 x = fl.widen (fl.narrow x)
  kept _ x = x

  -- the types that both directions treat alike
  abbrev pub IsPaired : TypeName → Type 0
  IsPaired TypeName.int16 = Unit
  IsPaired TypeName.uint16 = Unit
  IsPaired TypeName.int32 = Unit
  IsPaired TypeName.uint32 = Unit
  IsPaired TypeName.float32 = Unit
  IsPaired _ = ⊥

pub >>=-then :
    {A B C : Type 0} (m : Result A) (f : A → Result B) (g : A → Result C) (k : B → Result C) {b : B}
    → ((a : A) → g a ≡ (f a >>= k))
    → (m >>= f) ≡ ok b
    → (m >>= g) ≡ k b
>>=-then (ok a) f g k h e = h a ∙ ap (λ r. r >>= k) e
>>=-then (err e') f g k h e = cc

module _ {fl : Floats} (go : IsGo fl) (c : Converter) where
  raw_value-to_bytes :
      (t : TypeName) (x : fl.F64)
      → IsPaired fl t
      → (to_bytes {fl = fl} c t (float64 x) >>= λ bs. raw_value fl c bs t) ≡ ok (kept fl t x)
  unfolding to_bytes raw_value int16_to_bytes uint16_to_bytes int32_to_bytes uint32_to_bytes
      float32_to_bytes int16_value uint16_value int32_value uint32_value float32_value
  raw_value-to_bytes TypeName.int16 x h =
      let z = fl.to_signed (2 ^ 16) x in
      rw
        (
          (put_uint16-Spells c (wrap (2 ^ 16) z)).count,
          (get-put c (wrap (2 ^ 16) z)).0 (wrap16-lt z),
          signed-wrap16 z (go.signed16 x),
        )
        refl
  raw_value-to_bytes TypeName.uint16 x h =
      let n = fl.to_unsigned (2 ^ 16) x in
      rw ((put_uint16-Spells c n).count, (get-put c n).0 (go.unsigned16 x)) refl
  raw_value-to_bytes TypeName.int32 x h =
      let z = fl.to_signed (2 ^ 32) x in
      rw
        (
          (put_uint32-Spells c (wrap (2 ^ 32) z)).count,
          (get-put c (wrap (2 ^ 32) z)).1 (wrap32-lt z),
          signed-wrap32 z (go.signed32 x),
        )
        refl
  raw_value-to_bytes TypeName.uint32 x h =
      let n = fl.to_unsigned (2 ^ 32) x in
      rw ((put_uint32-Spells c n).count, (get-put c n).1 (go.unsigned32 x)) refl
  raw_value-to_bytes TypeName.float32 x h =
      let n = fl.bits32 (fl.narrow x) in
      rw
        (
          (put_uint32-Spells c n).count,
          (get-put c n).1 (go.bits32-lt (fl.narrow x)),
          go.of_bits32-bits32 (fl.narrow x),
        )
        refl
  raw_value-to_bytes TypeName.bool x h = elim h [ ]
  raw_value-to_bytes TypeName.float64 x h = elim h [ ]
  raw_value-to_bytes TypeName.int64 x h = elim h [ ]
  raw_value-to_bytes TypeName.uint64 x h = elim h [ ]
  raw_value-to_bytes TypeName.default x h = elim h [ ]

  from_typed_bytes-raw_value :
      (t : TypeName) (bs : List ℕ) (scale offset : fl.F64)
      → IsPaired fl t
      → from_typed_bytes fl c bs t scale offset ≡ (
          raw_value fl c bs t >>= λ raw.
          ok (float64 (fl.add64 (fl.mul64 raw (unit_scale fl scale)) offset)))
  unfolding from_typed_bytes
  from_typed_bytes-raw_value TypeName.bool bs scale offset h = elim h [ ]
  from_typed_bytes-raw_value _ bs scale offset h = refl

  pub apply_number :
      (v : Value fl) (x scale offset : fl.F64)
      → number v ≡ some x
      → apply_scale_offset v scale offset
        ≡ float64 (fl.div64 (fl.sub64 x offset) (unit_scale fl scale))
  unfolding apply_scale_offset
  apply_number (float64 v) x scale offset h = cc
  apply_number _ x scale offset h = cc

  -- Under the laws `IsGo` of the float operations: a number that `ToRegisters` stores as int16,
  -- uint16, int32, uint32 or float32 comes back from `FromBytes`, in either byte order, as what
  -- the type keeps of `(number - offset) / scale`, scaled back; a scale of 0 counts as 1 both
  -- ways.
  pub from_bytes-to_registers :
      (t : TypeName) (v : Value fl) (x scale offset : fl.F64)
      → IsPaired fl t
      → number v ≡ some x
      → (to_registers c v (name_of t) scale offset >>= λ bs.
          from_bytes fl c bs (name_of t) scale offset)
        ≡ ok (
            float64 (
              fl.add64
                (fl.mul64
                  (kept fl t (fl.div64 (fl.sub64 x offset) (unit_scale fl scale)))
                  (unit_scale fl scale))
                offset))
  unfolding to_registers from_bytes
  from_bytes-to_registers t v x scale offset h e =
      rw (lower_type_name_lem t, type_name_lem t, apply_number v x scale offset e)
        (>>=-then (to_bytes {fl = fl} c t (float64 raw)) _ _ _
          (λ bs. from_typed_bytes-raw_value t bs scale offset h) (raw_value-to_bytes t raw h))
    where
      raw : fl.F64
      raw = fl.div64 (fl.sub64 x offset) (unit_scale fl scale)
