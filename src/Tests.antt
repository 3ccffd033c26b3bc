-- ===== src/Tests.antt =====
-- Sample inputs for the tests: a toy arithmetic in place of Go's floats, a device with two resources
-- and what the cache answers for it.
mod Values
mod Store
mod Serving
mod Setup
mod Messaging
mod Running
mod Logging
use app_modbus_go.Prelude.{
  refl, ℕ, ◌+◌, ◌*◌, ◌/◌, ◌^◌, ◌<◌, Bool, true, false, not, Option, none, some, List, [], ◌∷◌,
  arith, if◌then◌else◌, leb,
}
use app_modbus_go.Prelude.Int.{
  ℤ, pos, pos_part, neg_part, sub_ℕ, eqb_ℤ, wrap, signed, wrap_signed, InSigned,
}
use app_modbus_go.Prelude.Eq.{ℕ_eq, ◌==◌}
use app_modbus_go.Value.{Floats, Value}
use app_modbus_go.Resource.{NorthResource, SouthResource, ResourceMapping, DeviceMapping}
use app_modbus_go.Cache.{CachedData}
use app_modbus_go.Converter.RoundTrip.{IsGo}
use app_modbus_go.Json.{Number, Json, null}
use app_modbus_go.Message.RoundTrip.{Numbers}

-- the quotient, rounded towards zero
abbrev div_ℤ : ℤ → ℤ → ℤ
div_ℤ a b =
    let q = (pos_part a + neg_part a) / (pos_part b + neg_part b) in
    if leb (pos_part a * neg_part b + neg_part a * pos_part b) 0 then pos q else sub_ℕ 0 q

-- Integers for float64, and 0 and 1 for float32.
abbrev pub toy : Floats
toy = record {
  F64 = ℤ;
  F32 = Bool;
  zero64 = pos 0;
  one64 = pos 1;
  eq64 = eqb_ℤ;
  eq32_zero = not;
  add64 = λ a b. sub_ℕ (pos_part a + pos_part b) (neg_part a + neg_part b);
  sub64 = λ a b. sub_ℕ (pos_part a + neg_part b) (neg_part a + pos_part b);
  mul64 = λ a b.
      sub_ℕ (pos_part a * pos_part b + neg_part a * neg_part b)
        (pos_part a * neg_part b + neg_part a * pos_part b);
  div64 = div_ℤ;
  of_int64 = λ z. z;
  of_int32 = λ z. not (eqb_ℤ z (pos 0));
  widen = λ b. if b then pos 1 else pos 0;
  narrow = λ z. not (eqb_ℤ z (pos 0));
  to_signed = wrap_signed;
  to_unsigned = wrap;
  bits32 = λ b. if b then 1 else 0;
  of_bits32 = λ n. n == 1;
  bits64 = λ z. wrap (2 ^ 64) z;
}

toy_signed16 : (x : ℤ) → InSigned (2 ^ 16) (wrap_signed (2 ^ 16) x)
unfolding wrap signed
toy_signed16 x = ground arith

toy_signed32 : (x : ℤ) → InSigned (2 ^ 32) (wrap_signed (2 ^ 32) x)
unfolding wrap signed
toy_signed32 x = ground arith

toy_unsigned16 : (x : ℤ) → wrap (2 ^ 16) x < 2 ^ 16
unfolding wrap
toy_unsigned16 x = ground arith

toy_unsigned32 : (x : ℤ) → wrap (2 ^ 32) x < 2 ^ 32
unfolding wrap
toy_unsigned32 x = ground arith

toy_unsigned64 : (x : ℤ) → wrap (2 ^ 64) x < 2 ^ 64
unfolding wrap
toy_unsigned64 x = ground arith

pub toy-IsGo : IsGo toy
toy-IsGo = record {
  signed16 = toy_signed16;
  signed32 = toy_signed32;
  unsigned16 = toy_unsigned16;
  unsigned32 = toy_unsigned32;
  unsigned64 = toy_unsigned64;
  bits32-lt = λ b. ground arith;
  of_bits32-bits32 = elim [ true ↦ refl | false ↦ refl ];
}

abbrev pub north_temp : NorthResource toy
north_temp = record {
  name = "temp";
  north_model_name = "sensor";
  description = "";
  value_type = "int16";
  scale = pos 1;
  offset_value = pos 0;
  address = 10;
}

abbrev pub south_temp : SouthResource toy
south_temp = record {
  name = "t";
  south_model_name = "probe";
  read_write = "RW";
  value_type = "int16";
  scale = pos 1;
  offset = pos 0;
  auto_upload = true;
  other_parameters = Value.other 0;
}

abbrev pub temp : ResourceMapping toy
temp = record { north_resource = some north_temp; south_resource = some south_temp }

-- a resource that only the north side has
abbrev pub half : ResourceMapping toy
half = record { north_resource = some (record north_temp { address = 11 }); south_resource = none }

abbrev pub plc : DeviceMapping toy
plc = record { north_device_name = "plc"; resources = some temp ∷ some half ∷ [] }

-- what the cache holds of the temperature
abbrev pub reading : CachedData toy
reading = record {
  value = Value.int (pos 258);
  timestamp = 100;
  ttl = pos 50;
  north_dev_name = "plc";
  resource_name = "temp";
  value_type = "int16";
  scale = pos 1;
  offset = pos 0;
  modbus_address = 10;
}

-- The cache's answers: the reading at the address 10 and nothing elsewhere.
abbrev pub answers : ℕ → ℕ → Option (CachedData toy)
answers i addr = if addr == 10 then some reading else none

-- The mapping manager's: the temperature at the address 10.
abbrev pub mappings : ℕ → ℕ → Option (ResourceMapping toy)
mappings i addr = if addr == 10 then some temp else none

-- How a number is written and read back, where all are integers.
abbrev pub again : ℤ → Number toy
again z = record { float = z; integer = some z }

-- Values are left out of a text.
abbrev pub marshal : Value toy → Option (Json toy)
marshal v = some null

pub numbers : Numbers toy again
numbers = record { float = λ x. refl; integer = λ n small. refl }
