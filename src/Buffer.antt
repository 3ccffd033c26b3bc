-- ===== src/Buffer.antt =====
-- Byte slices that are written in place. A write past the end is a panic.
pub mod Write
pub mod Bits
use Prim.Native.Nat.{bit_or}
use app_modbus_go.Prelude.{
  ℕ, zero, suc, ◌+◌, ◌%◌, ◌/◌, ◌^◌, Bool, true, false, Option, none, some, List, [], ◌∷◌, ◌++◌, ltb,
  leb, if◌then◌else◌, length, set, take, drop, get_or,
}
use app_modbus_go.Run.{Run, returned, panicked, ◌>>=◌}

-- `data[i] = b`
unfoldable pub set_byte : List ℕ → ℕ → ℕ → Run (List ℕ)
set_byte bytes i b = if ltb i (length bytes) then returned (set bytes i b) else panicked

-- `copy(data[offset:offset+len(bs)], bs)`
unfoldable pub copy_at : List ℕ → ℕ → List ℕ → Run (List ℕ)
copy_at bytes offset bs =
    if leb (offset + length bs) (length bytes)
    then returned (take offset bytes ++ (bs ++ drop (offset + length bs) bytes))
    else panicked

-- `for j := 0; j < n; j++ { data[offset+j] = 0 }`, from the counter `j` on, with the rounds left
unfoldable pub zero_loop : List ℕ → ℕ → ℕ → ℕ → Run (List ℕ)
zero_loop bytes offset j zero = returned bytes
zero_loop bytes offset j (suc n) = do
  bytes' ← set_byte bytes (offset + j) 0
  zero_loop bytes' offset (j + 1) n

-- `data[i] |= b`
unfoldable pub or_byte : List ℕ → ℕ → ℕ → Run (List ℕ)
or_byte bytes i b =
    if ltb i (length bytes) then returned (set bytes i (bit_or (get_or bytes i 0) b)) else panicked
