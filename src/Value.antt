-- ===== src/Value.antt =====
-- The dynamic values (`interface{}`) that pass from the MQTT payloads through the cache to the
-- registers, and the float arithmetic of Go as an interface: antt has no floats.
use app_modbus_go.Prelude.{ℕ, Bool, String}
use app_modbus_go.Prelude.Int.{ℤ}

-- The operations on `float64` and `float32` that the program uses. Their laws, where a theorem
-- needs one, are hypotheses of that theorem.
pub record Floats : Type 1 where
  pub F64 : Type 0
  pub F32 : Type 0
  pub zero64 : F64
  pub one64 : F64
  pub eq64 : F64 → F64 → Bool
  pub eq32_zero : F32 → Bool
  pub add64 : F64 → F64 → F64
  pub sub64 : F64 → F64 → F64
  pub mul64 : F64 → F64 → F64
  pub div64 : F64 → F64 → F64
  -- `float64(v)` and `float32(v)` of an integer
  pub of_int64 : ℤ → F64
  pub of_int32 : ℤ → F32
  -- `float64(v)` of a float32, and `float32(v)` of a float64
  pub widen : F32 → F64
  pub narrow : F64 → F32
  -- `intN(v)` and `uintN(v)` of a float64; the first argument is 2 ^ N
  pub to_signed : ℕ → F64 → ℤ
  pub to_unsigned : ℕ → F64 → ℕ
  -- `math.Float32bits`, `math.Float32frombits`, `math.Float64bits`
  pub bits32 : F32 → ℕ
  pub of_bits32 : ℕ → F32
  pub bits64 : F64 → ℕ

-- A value with its dynamic type. `int` and `uint` have 64 bits. `other` is every type that the
-- program does not name (a nil value, a map or a slice from JSON), told apart by a number.
pub data Value (fl : Floats) : Type 0 where
  bool : Bool → Value fl
  int : ℤ → Value fl
  int8 : ℤ → Value fl
  int16 : ℤ → Value fl
  int32 : ℤ → Value fl
  int64 : ℤ → Value fl
  uint : ℕ → Value fl
  uint8 : ℕ → Value fl
  uint16 : ℕ → Value fl
  uint32 : ℕ → Value fl
  uint64 : ℕ → Value fl
  float32 : fl.F32 → Value fl
  float64 : fl.F64 → Value fl
  text : String → Value fl
  other : ℕ → Value fl
