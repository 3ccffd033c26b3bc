-- ===== src/Bytes.antt =====
-- Byte orders (internal/pkg/modbusserver/converter.go, and the parts of encoding/binary that it
-- calls).
pub mod Order
use app_modbus_go.Prelude.{
  ℕ, zero, suc, ◌+◌, ◌*◌, ◌/◌, ◌%◌, List, [], ◌∷◌, ◌++◌, reverse, take, drop, replicate,
}
use app_modbus_go.Prelude.Eq.{ℕ_eq}

pub data ByteOrder : Type 0 where
  big_endian little_endian : ByteOrder

pub record Converter : Type 0 where
  pub byte_order : ByteOrder

-- NewConverter
abbrev pub new_converter : ByteOrder → Converter
new_converter order = record { byte_order = order }

-- `make([]byte, n)`
abbrev pub make_bytes : ℕ → List ℕ
make_bytes n = replicate n 0

-- The low `n` bytes of a number, the lowest first, and the number that such bytes spell.
abbrev pub le_bytes : ℕ → ℕ → List ℕ
le_bytes zero v = []
le_bytes (suc n) v = v % 256 ∷ le_bytes n (v / 256)

abbrev pub le_value : List ℕ → ℕ
le_value [] = 0
le_value (b ∷ bs) = b + 256 * le_value bs

-- `Put…` into a slice that has at least `n` bytes, as all callers give: the rest of it stays.
unfoldable pub put : ByteOrder → ℕ → List ℕ → ℕ → List ℕ
put big_endian n result v = reverse (le_bytes n v) ++ drop n result
put little_endian n result v = le_bytes n v ++ drop n result

unfoldable pub get : ByteOrder → ℕ → List ℕ → ℕ
get big_endian n data' = le_value (reverse (take n data'))
get little_endian n data' = le_value (take n data')

unfoldable pub put_uint16 : Converter → List ℕ → ℕ → List ℕ
unfolding put
put_uint16 c result v = put c.byte_order 2 result v

unfoldable pub put_uint32 : Converter → List ℕ → ℕ → List ℕ
unfolding put
put_uint32 c result v = put c.byte_order 4 result v

unfoldable pub put_uint64 : Converter → List ℕ → ℕ → List ℕ
unfolding put
put_uint64 c result v = put c.byte_order 8 result v

unfoldable pub get_uint16 : Converter → List ℕ → ℕ
unfolding get
get_uint16 c data' = get c.byte_order 2 data'

unfoldable pub get_uint32 : Converter → List ℕ → ℕ
unfolding get
get_uint32 c data' = get c.byte_order 4 data'

unfoldable pub get_uint64 : Converter → List ℕ → ℕ
unfolding get
get_uint64 c data' = get c.byte_order 8 data'
