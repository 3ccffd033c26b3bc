-- ===== src/Tests/Serving.antt =====
-- The theorems on the reader and on the handlers at sample requests.
use app_modbus_go.Prelude.{
  ℕ, ◌≡◌, ◌↔◌, ◌⊎◌, refl, true, false, List, [], ◌∷◌, arith, length, if◌then◌else◌, ltb,
}
use app_modbus_go.Prelude.Eq.{ℕ_eq}
use app_modbus_go.Cache.{CachedData}
use app_modbus_go.Run.{returned}
use app_modbus_go.Buffer.Bits.{bit_of}
use app_modbus_go.Bytes.Order.{AreBytes}
use app_modbus_go.Reader.{read_registers, read_bits}
use app_modbus_go.Reader.Layout.{Layout, collect_all}
use app_modbus_go.Reader.Registers.{read_registers-Layout}
use app_modbus_go.Reader.Coils.{answer, answer_bit, found, read_bits-packed}
use app_modbus_go.Server.{
  converter, illegal_data_value, illegal_data_address, refuse, accept, handle_read_coils,
  handle_read_holding_registers, handle_write_single_coil, handle_write_single_register,
  handle_write_multiple_coils, handle_write_multiple_registers, dispatch, word,
}
use app_modbus_go.Server.Reads.{
  handle_read_holding_registers_lem, handle_read_coils_lem, dispatch_returns, Answered, in_limits,
  read_reply,
}
use app_modbus_go.Server.CoilWrites.{CoilsWritable, Writable, handle_write_multiple_coils_lem}
use app_modbus_go.Server.Writes.{
  handle_write_single_coil_lem, handle_write_multiple_registers_unchecked,
}
use app_modbus_go.Tests.{toy, answers, mappings}

-- from the address 9, three registers
abbrev frame : List ℕ
frame = 0 ∷ 9 ∷ 0 ∷ 3 ∷ []

read_registers-Layout_example :
    (bytes : List ℕ) × (reads : List (CachedData toy)) × Layout converter answers 9 0 3 bytes reads
    × (read_registers converter answers 9 3
        ≡ returned (record { bytes = 6 ∷ bytes; forwarded = collect_all [] reads }))
read_registers-Layout_example = read_registers-Layout converter answers 9 3 (omega arith)

read_bits-packed_example :
    (payload : List ℕ) × (read_bits answers 3 10
      ≡ returned
          (record { bytes = 2 ∷ payload; forwarded = collect_all [] (found answers 3 0 10) }))
    × (length payload ≡ 2)
    × AreBytes payload
    × ((j : ℕ) → bit_of payload j ≡ (if ltb j 10 then answer_bit (answer answers 3 j) else 0))
read_bits-packed_example = read_bits-packed answers 3 10 (omega arith)

handle_read_holding_registers_lem_example :
    (in_limits 1 125 frame ≡ false
      → handle_read_holding_registers answers frame ≡ returned (refuse illegal_data_value))
    × (in_limits 1 125 frame ≡ true
        → (bytes : List ℕ) × (reads : List (CachedData toy)) × Layout converter answers 9 0 3 bytes
            reads
          × (handle_read_holding_registers answers frame
              ≡ returned (read_reply answers frame 6 bytes reads)))
handle_read_holding_registers_lem_example = handle_read_holding_registers_lem answers frame

handle_read_coils_lem_example :
    (in_limits 1 2000 frame ≡ false
      → handle_read_coils answers frame ≡ returned (refuse illegal_data_value))
    × (in_limits 1 2000 frame ≡ true
        → (payload : List ℕ) × (handle_read_coils answers frame
            ≡ returned (read_reply answers frame 1 payload (found answers 9 0 3)))
          × (length payload ≡ 1)
          × ((j : ℕ) → bit_of payload j ≡ (if ltb j 3 then answer_bit (answer answers 9 j) else 0)))
handle_read_coils_lem_example = handle_read_coils_lem answers frame

dispatch_returns_example : Answered answers frame (dispatch answers mappings 16 frame)
dispatch_returns_example = dispatch_returns answers frame mappings 16 refl

handle_write_multiple_coils_lem_example :
    (handle_write_multiple_coils mappings (0 ∷ 10 ∷ 0 ∷ 1 ∷ 1 ∷ 255 ∷ [])
      ≡ accept (0 ∷ 10 ∷ 0 ∷ 1 ∷ []))
    ↔ CoilsWritable mappings 10 1 1 (255 ∷ [])
handle_write_multiple_coils_lem_example =
    handle_write_multiple_coils_lem mappings 0 10 0 1 1 (255 ∷ [])

handle_write_single_coil_lem_example :
    (handle_write_single_coil mappings (0 ∷ 10 ∷ 0xff ∷ 0 ∷ []) ≡ accept (0 ∷ 10 ∷ 0xff ∷ 0 ∷ []))
    ↔ (((word 0xff 0 ≡ 0) ⊎ (word 0xff 0 ≡ 0xff00)) × Writable (mappings 0 10))
handle_write_single_coil_lem_example = handle_write_single_coil_lem mappings 0 10 0xff 0 []

handle_write_multiple_registers_unchecked_example :
    ((c d : ℕ) (rest : List ℕ)
      → handle_write_single_register mappings (0 ∷ 11 ∷ c ∷ d ∷ rest) ≡ refuse illegal_data_address)
    × ((c d e : ℕ) (rest : List ℕ)
        → handle_write_multiple_registers mappings (0 ∷ 11 ∷ c ∷ d ∷ e ∷ rest)
          ≡ accept (0 ∷ 11 ∷ c ∷ d ∷ []))
handle_write_multiple_registers_unchecked_example =
    handle_write_multiple_registers_unchecked mappings 0 11 (λ w. ground arith)
