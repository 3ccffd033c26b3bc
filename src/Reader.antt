-- ===== src/Reader.antt =====
-- The register reader (internal/pkg/modbusserver/reader.go). Its mapping manager is a parameter:
-- the answer of `GetCachedValue` to the call that the loop makes at a counter, so that the cache
-- may change, and time may pass, between two calls. Logging is left out.
pub mod Layout
pub mod Registers
pub mod Coils
use app_modbus_go.Prelude.{
  ℕ, zero, suc, ◌+◌, ◌-◌, ◌*◌, ◌/◌, ◌%◌, ◌^◌, String, Bool, true, false, not, ◌||◌, Option, none,
  some, List, [], ltb, leb, if◌then◌else◌, length, take,
}
use app_modbus_go.Prelude.Int.{pos, eqb_ℤ}
use app_modbus_go.Prelude.Eq.{ℕ_eq, String_eq, ◌==◌}
use app_modbus_go.Prelude.Dict.{Dict, lookup, insert}
use app_modbus_go.Value.{
  Floats, Value, bool, int, int8, int16, int32, int64, uint, uint8, uint16, uint32, uint64, float32,
  float64, text, other,
}
use app_modbus_go.Cache.{CachedData}
use app_modbus_go.ValueType.{get_register_count}
use app_modbus_go.Bytes.{Converter, make_bytes}
use app_modbus_go.Converter.{ok, err, to_registers}
use app_modbus_go.Run.{Run, returned, out_of_fuel, ◌>>=◌}
use app_modbus_go.Buffer.{set_byte, copy_at, zero_loop, or_byte}

-- The answers of `GetCachedValue`: at a counter of the reading loop, for an address.
abbrev pub Answers : Floats → Type 0
Answers fl = ℕ → ℕ → Option (CachedData fl)

-- device name ↦ resource name ↦ value
abbrev pub Forwarded : Floats → Type 0
Forwarded fl = Dict String (Dict String (Value fl))

pub record ReadResult (fl : Floats) : Type 0 where
  pub bytes : List ℕ
  pub forwarded : Forwarded fl

-- The variables of the loop of readRegisters.
pub record Reading (fl : Floats) : Type 0 where
  pub bytes : List ℕ
  pub forwarded : Forwarded fl
  pub offset : ℕ
  pub current_reg : ℕ

module _ {fl : Floats} where
  -- collectForwardData
  unfoldable pub collect_forward_data : Forwarded fl → String → String → Value fl → Forwarded fl
  collect_forward_data forwarded device resource value =
      insert device
        (insert resource value (elim (lookup device forwarded) [ none ↦ [] | some m ↦ m ]))
        forwarded

  -- a register without a value: two zero bytes
  unfoldable pub skip_register : Reading fl → Run (Reading fl)
  skip_register st = do
    bytes ← set_byte st.bytes st.offset 0
    bytes' ← set_byte bytes (st.offset + 1) 0
    returned (record st {
      bytes = bytes';
      offset = st.offset + 2;
      current_reg = (st.current_reg + 1) % 65536;
    })

  -- `regsToFill`: the registers of the type, but no more than are left
  unfoldable pub regs_to_fill : ℕ → ℕ → CachedData fl → ℕ
  regs_to_fill quantity current_reg d =
      let count = get_register_count d.value_type in
      let remaining = quantity - current_reg in if ltb remaining count then remaining else count

  -- the part of the loop's body behind a successful conversion
  unfoldable pub copy_value : ℕ → CachedData fl → List ℕ → Reading fl → Run (Reading fl)
  copy_value quantity d bytes st =
      let regs = regs_to_fill quantity st.current_reg d in
      let count = regs * 2 % 65536 in
      let next = λ (written : List ℕ) (forwarded : Forwarded fl). returned (record st {
        bytes = written;
        forwarded = forwarded;
        offset = st.offset + count;
        current_reg = (st.current_reg + regs) % 65536;
      }) in
      if leb count (length bytes)
      then (do
        written ← copy_at st.bytes st.offset (take count bytes)
        next written (collect_forward_data st.forwarded d.north_dev_name d.resource_name d.value))
      else (do written ← zero_loop st.bytes st.offset 0 count; next written st.forwarded)

module _ {fl : Floats} (conv : Converter) (answers : Answers fl) (start quantity : ℕ) where
  unfoldable pub read_one : Reading fl → Run (Reading fl)
  read_one st = elim (answers st.current_reg ((start + st.current_reg) % 65536)) [
    | none ↦ skip_register st
    | some d ↦ elim (to_registers conv d.value d.value_type d.scale d.offset) [
      | err e ↦ skip_register st
      | ok bytes ↦ copy_value quantity d bytes st
    ]
  ]

  -- `for currentReg < quantity`, on fuel
  unfoldable pub read_loop : ℕ → Reading fl → Run (Reading fl)
  read_loop zero st = out_of_fuel
  read_loop (suc fuel) st = elim (ltb st.current_reg quantity) [
    | false ↦ returned st
    | true ↦ do st' ← read_one st; read_loop fuel st'
  ]

  -- readRegisters, which ReadHoldingRegisters and ReadInputRegisters call. The size of the slice is
  -- computed in uint16.
  unfoldable pub read_registers : Run (ReadResult fl)
  read_registers = do
    bytes ← set_byte (make_bytes ((1 + quantity * 2) % 65536)) 0 (quantity * 2 % 65536 % 256)
    st ←
        read_loop (quantity + 1)
          (record { bytes = bytes; forwarded = []; offset = 1; current_reg = 0 })
    returned (record { bytes = st.bytes; forwarded = st.forwarded })

module _ {fl : Floats} where
  -- valueToBool
  unfoldable pub value_to_bool : Value fl → Bool
  value_to_bool (bool v) = v
  value_to_bool (int v) = not (eqb_ℤ v (pos 0))
  value_to_bool (int8 v) = not (eqb_ℤ v (pos 0))
  value_to_bool (int16 v) = not (eqb_ℤ v (pos 0))
  value_to_bool (int32 v) = not (eqb_ℤ v (pos 0))
  value_to_bool (int64 v) = not (eqb_ℤ v (pos 0))
  value_to_bool (uint v) = not (v == 0)
  value_to_bool (uint8 v) = not (v == 0)
  value_to_bool (uint16 v) = not (v == 0)
  value_to_bool (uint32 v) = not (v == 0)
  value_to_bool (uint64 v) = not (v == 0)
  value_to_bool (float32 v) = not (fl.eq32_zero v)
  value_to_bool (float64 v) = not (fl.eq64 v fl.zero64)
  value_to_bool (text v) = v == "true" || v == "1" || v == "on"
  value_to_bool (other v) = false

module _ {fl : Floats} (answers : Answers fl) (start : ℕ) where
  -- the body of the loop of readBits at the counter `i`
  unfoldable pub read_bit : ℕ → List ℕ → Forwarded fl → Run (ReadResult fl)
  read_bit i bytes forwarded = elim (answers i ((start + i) % 65536)) [
    | none ↦ returned (record { bytes = bytes; forwarded = forwarded })
    | some d ↦
        let forwarded' = collect_forward_data forwarded d.north_dev_name d.resource_name d.value in
        if value_to_bool d.value
        then (do
          bytes' ← or_byte bytes (1 + i / 8) (2 ^ (i % 8))
          returned (record { bytes = bytes'; forwarded = forwarded' }))
        else returned (record { bytes = bytes; forwarded = forwarded' })
  ]

  -- the loop from its counter `i`, with the rounds left
  unfoldable pub bit_loop : ℕ → ℕ → List ℕ → Forwarded fl → Run (ReadResult fl)
  bit_loop i zero bytes forwarded = returned (record { bytes = bytes; forwarded = forwarded })
  bit_loop i (suc n) bytes forwarded = do
    r ← read_bit i bytes forwarded
    bit_loop (i + 1) n r.bytes r.forwarded

  -- readBits, which ReadCoils and ReadDiscreteInputs call
  unfoldable pub read_bits : ℕ → Run (ReadResult fl)
  read_bits quantity = do
    let byte_count = (quantity + 7) % 65536 / 8
    bytes ← set_byte (make_bytes (1 + byte_count)) 0 (byte_count % 256)
    bit_loop 0 quantity bytes []
