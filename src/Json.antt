-- ===== src/Json.antt =====
-- JSON values, and how encoding/json fills a Go struct from one, as internal/pkg/mqtt/message.go uses
-- it. The syntax of JSON texts is not modelled: a text that is well formed is its tree. Left aside
-- are objects of which two keys match one field of a struct: here the last one alone counts then; and numerals
-- past the range of float64.
use app_modbus_go.Prelude.{
  ◌+◌, ℕ, String, Bool, false, Option, none, some, List, [], ◌∷◌, ◌&&◌, leb, ltb, if◌then◌else◌,
  map,
}
use app_modbus_go.Prelude.Int.{ℤ, pos, negsuc}
use app_modbus_go.Prelude.Eq.{ℕ_eq, String_eq, ◌==◌}
use app_modbus_go.Prelude.Dict.{Dict, insert}
use app_modbus_go.Value.{Floats, Value, bool, float64, text, other}
use app_modbus_go.ValueType.{codes, same}

-- What a decoder can make of a number: the float64, and the integer, if the numeral has neither a
-- fraction nor an exponent and fits 64 bits.
pub record Number (fl : Floats) : Type 0 where
  pub float : fl.F64
  pub integer : Option ℤ

mutual
  pub data Json (fl : Floats) : Type 0 where
    null : Json fl
    boolean : Bool → Json fl
    num : Number fl → Json fl
    str : String → Json fl
    array : Items fl → Json fl
    object : Fields fl → Json fl

  pub data Items (fl : Floats) : Type 0 where
    nil : Items fl
    cons : Json fl → Items fl → Items fl

  pub data Fields (fl : Floats) : Type 0 where
    end : Fields fl
    field : String → Json fl → Fields fl → Fields fl

-- What a struct is filled with: the outcome of one step, `none` for an error.
infixl 5 ◌>>=◌
abbrev pub ◌>>=◌ {ℓ κ} : {A : Type ℓ} {B : Type κ} → Option A → (A → Option B) → Option B
none >>= f = none
some a >>= f = f a

-- A code point of a key, in the one case in which keys are compared.
unfoldable pub fold : ℕ → ℕ
fold c =
    if leb 65 c && leb c 90
    then c + 32
    else if c == 0x17f
    then 0x73
    else if c == 0x212a
    then 0x6b
    else c

unfoldable pub matches : String → String → Bool
unfolding fold same
matches key name = same (map fold (codes key)) (map fold (codes name))

-- an integer that a `uint16` has room for
unfoldable pub fit_uint16 : Option ℤ → Option ℕ
fit_uint16 none = none
fit_uint16 (some (pos n)) = if ltb n 65536 then some n else none
fit_uint16 (some (negsuc n)) = none

module _ {fl : Floats} where
  -- The value for a field of a struct; `null` where there is none, which leaves the field as it is.
  unfoldable pub find_from : Json fl → String → Fields fl → Json fl
  unfolding matches
  find_from found name end = found
  find_from found name (field key j fs) = find_from (if matches key name then j else found) name fs

  unfoldable pub find : String → Fields fl → Json fl
  unfolding find_from
  find name fs = find_from null name fs

  -- the fields for a struct: none of them for `null`
  unfoldable pub fields_of : Json fl → Option (Fields fl)
  fields_of null = some end
  fields_of (object fs) = some fs
  fields_of _ = none

  unfoldable pub decode_text : Json fl → Option String
  decode_text null = some ""
  decode_text (str s) = some s
  decode_text _ = none

  unfoldable pub decode_bool : Json fl → Option Bool
  decode_bool null = some false
  decode_bool (boolean b) = some b
  decode_bool _ = none

  unfoldable pub decode_float : Json fl → Option fl.F64
  decode_float null = some fl.zero64
  decode_float (num n) = some n.float
  decode_float _ = none

  -- `int` and `int64`
  unfoldable pub decode_int : Json fl → Option ℤ
  decode_int null = some (pos 0)
  decode_int (num n) = n.integer
  decode_int _ = none

  unfoldable pub decode_uint16 : Json fl → Option ℕ
  unfolding fit_uint16
  decode_uint16 null = some 0
  decode_uint16 (num n) = fit_uint16 n.integer
  decode_uint16 _ = none

  -- a pointer: nil for `null`
  unfoldable pub decode_pointer : {A : Type 0} → (Json fl → Option A) → Json fl → Option (Option A)
  decode_pointer decode null = some none
  decode_pointer decode j = do a ← decode j; some (some a)

  unfoldable pub decode_items : {A : Type 0} → (Json fl → Option A) → Items fl → Option (List A)
  decode_items decode nil = some []
  decode_items decode (cons j js) = do a ← decode j; as' ← decode_items decode js; some (a ∷ as')

  -- a slice: nil for `null`
  unfoldable pub decode_slice : {A : Type 0} → (Json fl → Option A) → Json fl → Option (List A)
  unfolding decode_items
  decode_slice decode null = some []
  decode_slice decode (array js) = decode_items decode js
  decode_slice decode _ = none

module _ {fl : Floats} (tag : Json fl → ℕ) where
  -- An `interface{}`. The nil value, the maps and the slices are told apart by `tag`.
  unfoldable pub decode_any : Json fl → Value fl
  decode_any (boolean b) = bool b
  decode_any (num n) = float64 n.float
  decode_any (str s) = text s
  decode_any j = other (tag j)

  unfoldable pub decode_fields : Fields fl → Dict String (Value fl) → Dict String (Value fl)
  unfolding decode_any
  decode_fields end m = m
  decode_fields (field key j fs) m = decode_fields fs (insert key (decode_any j) m)

  -- a `map[string]interface{}`: nil, which reads like the empty map, for `null`
  unfoldable pub decode_map : Json fl → Option (Dict String (Value fl))
  unfolding decode_fields
  decode_map null = some []
  decode_map (object fs) = some (decode_fields fs [])
  decode_map _ = none

-- The tree that Marshal writes and Unmarshal reads back of one that was read into an `interface{}`:
-- the numbers, float64 then, are written anew.
unfoldable mutual
  pub rewrite : {fl : Floats} → (fl.F64 → Number fl) → Json fl → Json fl
  rewrite again null = null
  rewrite again (boolean b) = boolean b
  rewrite again (num n) = num (again n.float)
  rewrite again (str s) = str s
  rewrite again (array js) = array (rewrite_items again js)
  rewrite again (object fs) = object (rewrite_fields again fs)

  pub rewrite_items : {fl : Floats} → (fl.F64 → Number fl) → Items fl → Items fl
  rewrite_items again nil = nil
  rewrite_items again (cons j js) = cons (rewrite again j) (rewrite_items again js)

  pub rewrite_fields : {fl : Floats} → (fl.F64 → Number fl) → Fields fl → Fields fl
  rewrite_fields again end = end
  rewrite_fields again (field key j fs) = field key (rewrite again j) (rewrite_fields again fs)
