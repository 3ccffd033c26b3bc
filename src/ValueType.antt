-- ===== src/ValueType.antt =====
-- The names of the value types and how the converter's switches read them
-- (internal/pkg/modbusserver/converter.go).
use Prim.Native.Char.{code}
use app_modbus_go.Prelude.{
  ℕ, ◌+◌, String, Bool, true, false, ◌&&◌, List, [], ◌∷◌, map, leb, if◌then◌else◌,
}
use app_modbus_go.Prelude.Eq.{ℕ_eq, ◌==◌}

-- The labels of the `switch valueType` statements; `default` is any other text.
pub data TypeName : Type 0 where
  bool int16 uint16 int32 uint32 float32 float64 int64 uint64 default : TypeName

-- The code points of a text.
abbrev pub codes : String → List ℕ
codes String.[] = []
codes (String.◌∷◌ c s) = code c ∷ codes s

-- `strings.ToLower` of one code point, up to what a comparison with an ASCII text can see: the
-- ASCII capitals, and the two others whose lower case is ASCII (U+0130 and U+212A).
unfoldable pub to_lower : ℕ → ℕ
to_lower c =
    if leb 65 c && leb c 90
    then c + 32
    else if c == 0x130
    then 0x69
    else if c == 0x212a
    then 0x6b
    else c

unfoldable pub same : List ℕ → List ℕ → Bool
same [] [] = true
same (a ∷ s) (b ∷ t) = a == b && same s t
same _ _ = false

-- Which label of a switch a text meets.
unfoldable pub type_name : List ℕ → TypeName
unfolding same
type_name t =
    if same t (codes "bool")
    then TypeName.bool
    else if same t (codes "int16")
    then TypeName.int16
    else if same t (codes "uint16")
    then TypeName.uint16
    else if same t (codes "int32")
    then TypeName.int32
    else if same t (codes "uint32")
    then TypeName.uint32
    else if same t (codes "float32")
    then TypeName.float32
    else if same t (codes "float64")
    then TypeName.float64
    else if same t (codes "int64")
    then TypeName.int64
    else if same t (codes "uint64")
    then TypeName.uint64
    else TypeName.default

-- `switch strings.ToLower(valueType)`
unfoldable pub lower_type_name : String → TypeName
unfolding to_lower type_name
lower_type_name s = type_name (map to_lower (codes s))

-- the cases of GetRegisterCount
unfoldable pub count_of : TypeName → ℕ
count_of TypeName.bool = 1
count_of TypeName.int16 = 1
count_of TypeName.uint16 = 1
count_of TypeName.int32 = 2
count_of TypeName.uint32 = 2
count_of TypeName.float32 = 2
count_of TypeName.float64 = 4
count_of TypeName.int64 = 4
count_of TypeName.uint64 = 4
count_of TypeName.default = 1

unfoldable pub get_register_count : String → ℕ
unfolding count_of
get_register_count value_type = count_of (lower_type_name value_type)
