-- ===== src/Server.antt =====
-- The Modbus function handlers (internal/pkg/modbusserver/server.go). The library that serves the
-- frames (tbrandon/mbserver) is not modelled: a handler gets the data of a frame and returns what
-- that library sends. The mapping manager is a parameter: its answers to GetCachedValue and to
-- GetMappingByAddress, each numbered by the loop that asks. Logging is left out.
pub mod Reads
pub mod CoilWrites
pub mod Writes
pub mod Sensor
pub mod Lifecycle
use app_modbus_go.Prelude.{
  ℕ, zero, suc, ◌+◌, ◌*◌, ◌/◌, ◌%◌, String, Bool, true, false, not, ◌&&◌, ◌||◌, Option, none, some,
  List, [], ◌∷◌, ltb, if◌then◌else◌, length, take,
}
use app_modbus_go.Prelude.Eq.{ℕ_eq, String_eq, ◌==◌}
use app_modbus_go.Value.{Floats}
use app_modbus_go.Resource.{ResourceMapping}
use app_modbus_go.Bytes.{Converter, big_endian, new_converter}
use app_modbus_go.Reader.{Answers, Forwarded, ReadResult, read_registers, read_bits}
use app_modbus_go.Run.{Run, returned, ◌>>=◌}

-- The values of mbserver that the handlers return.
pub data Exception : Type 0 where
  success illegal_data_value illegal_data_address : Exception

-- What a handler returns, and the argument of LogDataForward, if the handler calls it.
pub record Reply (fl : Floats) : Type 0 where
  pub bytes : Option (List ℕ)
  pub exception : Exception
  pub logged : Option (Forwarded fl)

-- The answers of GetMappingByAddress: to the call of a number, for an address.
abbrev pub Mappings : Floats → Type 0
Mappings fl = ℕ → ℕ → Option (ResourceMapping fl)

-- `uint16(hi)<<8 | uint16(lo)` of two bytes
abbrev pub word : ℕ → ℕ → ℕ
word hi lo = hi * 256 + lo

module _ {fl : Floats} where
  unfoldable pub refuse : Exception → Reply fl
  refuse e = record { bytes = none; exception = e; logged = none }

  unfoldable pub accept : List ℕ → Reply fl
  accept bytes = record { bytes = some bytes; exception = success; logged = none }

  -- logForward
  unfoldable pub log_forward : Forwarded fl → Option (Forwarded fl)
  log_forward forwarded = if ltb 0 (length forwarded) then some forwarded else none

  unfoldable pub reply_to_read : ReadResult fl → Reply fl
  unfolding log_forward
  reply_to_read r = record {
    bytes = some r.bytes;
    exception = success;
    logged = log_forward r.forwarded;
  }

-- parseReadRequest: `none` is its error.
unfoldable pub parse_read_request : List ℕ → ℕ → ℕ → Option (ℕ × ℕ)
parse_read_request (a ∷ b ∷ c ∷ d ∷ rest) min_qty max_qty =
    if ltb (word c d) min_qty || ltb max_qty (word c d) then none else some (word a b, word c d)
parse_read_request _ min_qty max_qty = none

-- The reader of the server converts in big-endian order.
abbrev pub converter : Converter
converter = new_converter big_endian

module _ {fl : Floats} (answers : Answers fl) where
  unfoldable pub handle_read_coils : List ℕ → Run (Reply fl)
  unfolding refuse reply_to_read
  handle_read_coils frame = elim (parse_read_request frame 1 2000) [
    | none ↦ returned (refuse illegal_data_value)
    | some (start, quantity) ↦ do
      result ← read_bits answers start quantity
      returned (reply_to_read result)
  ]

  unfoldable pub handle_read_discrete_inputs : List ℕ → Run (Reply fl)
  unfolding refuse reply_to_read
  handle_read_discrete_inputs frame = elim (parse_read_request frame 1 2000) [
    | none ↦ returned (refuse illegal_data_value)
    | some (start, quantity) ↦ do
      result ← read_bits answers start quantity
      returned (reply_to_read result)
  ]

  unfoldable pub handle_read_holding_registers : List ℕ → Run (Reply fl)
  unfolding refuse reply_to_read
  handle_read_holding_registers frame = elim (parse_read_request frame 1 125) [
    | none ↦ returned (refuse illegal_data_value)
    | some (start, quantity) ↦ do
      result ← read_registers converter answers start quantity
      returned (reply_to_read result)
  ]

  unfoldable pub handle_read_input_registers : List ℕ → Run (Reply fl)
  unfolding refuse reply_to_read
  handle_read_input_registers frame = elim (parse_read_request frame 1 125) [
    | none ↦ returned (refuse illegal_data_value)
    | some (start, quantity) ↦ do
      result ← read_registers converter answers start quantity
      returned (reply_to_read result)
  ]

-- checkWritePermission on the answer of GetMappingByAddress: `none` lets the write pass.
unfoldable pub check_write_permission :
    {fl : Floats} → Option (ResourceMapping fl) → Option Exception
check_write_permission none = some illegal_data_address
check_write_permission (some mapping) = elim mapping.south_resource [
  | none ↦ none
  | some south ↦ if south.read_write == "R" then some illegal_data_address else none
]

module _ {fl : Floats} (mappings : Mappings fl) where
  -- the reply to a write whose permission has been checked
  unfoldable pub reply_to_write : Option Exception → List ℕ → Reply fl
  unfolding refuse accept
  reply_to_write (some exc) bytes = refuse exc
  reply_to_write none bytes = accept bytes

  unfoldable pub handle_write_single_coil : List ℕ → Reply fl
  unfolding refuse reply_to_write
  handle_write_single_coil (a ∷ b ∷ c ∷ d ∷ rest) =
      if not (word c d == 0) && not (word c d == 0xff00)
      then refuse illegal_data_value
      else reply_to_write (check_write_permission (mappings 0 (word a b))) (a ∷ b ∷ c ∷ d ∷ rest)
  handle_write_single_coil _ = refuse illegal_data_value

  unfoldable pub handle_write_single_register : List ℕ → Reply fl
  unfolding refuse reply_to_write
  handle_write_single_register (a ∷ b ∷ c ∷ d ∷ rest) =
      reply_to_write (check_write_permission (mappings 0 (word a b))) (a ∷ b ∷ c ∷ d ∷ rest)
  handle_write_single_register _ = refuse illegal_data_value

  -- The loop over the addresses of a write of coils, from the counter `i`, with the rounds left.
  unfoldable pub check_all : ℕ → ℕ → ℕ → Option Exception
  check_all start i zero = none
  check_all start i (suc n) =
      let rest = check_all start (i + 1) n in
      elim (check_write_permission (mappings i ((start + i) % 65536))) [
        | some exc ↦ some exc
        | none ↦ rest
      ]

  -- The byte count of the frame is a byte, and so is `5+byteCount`.
  unfoldable pub handle_write_multiple_coils : List ℕ → Reply fl
  unfolding refuse reply_to_write
  handle_write_multiple_coils (a ∷ b ∷ c ∷ d ∷ byte_count ∷ rest) =
      let quantity = word c d in
      if ltb quantity 1 || ltb 1968 quantity
      then refuse illegal_data_value
      else if not (byte_count == (quantity + 7) % 65536 / 8 % 256)
          || ltb (5 + length rest) ((5 + byte_count) % 256)
      then refuse illegal_data_value
      else reply_to_write (check_all (word a b) 0 quantity) (a ∷ b ∷ c ∷ d ∷ [])
  handle_write_multiple_coils _ = refuse illegal_data_value

  unfoldable pub handle_write_multiple_registers : List ℕ → Reply fl
  unfolding refuse accept
  handle_write_multiple_registers (a ∷ b ∷ c ∷ d ∷ e ∷ rest) = accept (a ∷ b ∷ c ∷ d ∷ [])
  handle_write_multiple_registers _ = refuse illegal_data_value

-- registerHandlers: the handler of a function code, `none` where it registers none.
unfoldable pub dispatch :
    {fl : Floats} → Answers fl → Mappings fl → ℕ → List ℕ → Option (Run (Reply fl))
dispatch answers mappings code frame =
    if code == 1
    then some (handle_read_coils answers frame)
    else if code == 2
    then some (handle_read_discrete_inputs answers frame)
    else if code == 3
    then some (handle_read_holding_registers answers frame)
    else if code == 4
    then some (handle_read_input_registers answers frame)
    else if code == 5
    then some (returned (handle_write_single_coil mappings frame))
    else if code == 6
    then some (returned (handle_write_single_register mappings frame))
    else if code == 15
    then some (returned (handle_write_multiple_coils mappings frame))
    else if code == 16
    then some (returned (handle_write_multiple_registers mappings frame))
    else none
