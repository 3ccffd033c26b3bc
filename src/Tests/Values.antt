-- ===== src/Tests/Values.antt =====
-- The converter's theorems at sample values.
use app_modbus_go.Prelude.{◌≡◌, ◌*◌, refl, false, [], ◌∷◌}
use app_modbus_go.Prelude.Int.{pos, negsuc, wrap, signed}
use app_modbus_go.ValueType.{TypeName, lower_type_name, get_register_count}
use app_modbus_go.Bytes.{Converter, big_endian, little_endian, new_converter, put_uint16}
use app_modbus_go.Value.{int, bool, float64, text}
use app_modbus_go.Converter.{
  ok, ◌>>=◌, to_registers, from_bytes, to_bytes, int16_to_bytes, int16_value, apply_scale_offset,
}
use app_modbus_go.Converter.Length.{IsEncoding, to_registers-IsEncoding}
use app_modbus_go.Converter.Limits.{
  is_ok, to_registers-accepts, to_registers_bool, from_bytes-to_registers_uint64,
}
use app_modbus_go.Converter.RoundTrip.{from_bytes-to_registers}
use app_modbus_go.Tests.{toy, toy-IsGo}

abbrev big : Converter
big = new_converter big_endian

abbrev little : Converter
little = new_converter little_endian

big_int16 : to_registers {fl = toy} big (int (pos 2595)) "INT16" (pos 10) (pos 15) ≡ ok (1 ∷ 2 ∷ [])
unfolding to_registers to_bytes lower_type_name int16_to_bytes int16_value apply_scale_offset
    put_uint16 wrap signed
big_int16 = refl

little_int16 :
    to_registers {fl = toy} little (int (pos 2595)) "Int16" (pos 10) (pos 15) ≡ ok (2 ∷ 1 ∷ [])
unfolding to_registers to_bytes lower_type_name int16_to_bytes int16_value apply_scale_offset
    put_uint16 wrap signed
little_int16 = refl

from_bytes-to_registers_example :
    (to_registers {fl = toy} little (int (negsuc 4)) "int16" (pos 1) (pos 2) >>= λ bs.
    from_bytes toy little bs "int16" (pos 1) (pos 2))
    ≡ ok (float64 (negsuc 4))
unfolding wrap signed
from_bytes-to_registers_example =
    from_bytes-to_registers toy-IsGo little TypeName.int16 (int (negsuc 4)) (negsuc 4) (pos 1)
      (pos 2) tt refl

to_registers-IsEncoding_example :
    IsEncoding
      (2 * get_register_count "float64")
      (to_registers {fl = toy} big (int (pos 7)) "float64" (pos 2) (pos 1))
to_registers-IsEncoding_example =
    to_registers-IsEncoding big (int (pos 7)) "float64" (pos 2) (pos 1)

to_registers-accepts_example :
    is_ok (to_registers {fl = toy} big (text "on") "bool" (pos 1) (pos 0)) ≡ false
to_registers-accepts_example = to_registers-accepts big (text "on") "bool" (pos 1) (pos 0)

to_registers_bool_example :
    to_registers {fl = toy} big (bool false) "Bool" (pos 1) (pos 0) ≡ ok (0xff ∷ 0x00 ∷ [])
unfolding lower_type_name
to_registers_bool_example = to_registers_bool toy big false "Bool" (pos 1) (pos 0) refl

from_bytes-to_registers_uint64_example :
    (to_registers {fl = toy} big (int (pos 5)) "uint64" (pos 1) (pos 0) >>= λ bs.
    from_bytes toy big bs "uint64" (pos 1) (pos 0))
    ≡ ok (float64 (pos 0))
unfolding wrap
from_bytes-to_registers_uint64_example =
    from_bytes-to_registers_uint64 toy-IsGo big (int (pos 5)) (pos 5) (pos 1) (pos 0) refl
