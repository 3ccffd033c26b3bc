-- ===== src/Bytes/Order.antt =====
-- What is written in a byte order is read back in it, and the slice keeps its length.
use app_modbus_go.Prelude.{zero, suc, ◌++◌, take, ℕ, ◌<◌, ◌^◌, ◌≡◌, List, [], ◌∷◌, arith, length}
use app_modbus_go.Bytes.{
  suc, Converter, put_uint16, put_uint32, put_uint64, get_uint16, get_uint32, get_uint64,
  make_bytes, ByteOrder, big_endian, little_endian, put, get,
}

-- A slice of bytes.
abbrev pub AreBytes : List ℕ → Type 0
AreBytes [] = Unit
AreBytes (b ∷ bs) = (b < 256) × AreBytes bs

pub AreBytes-append : (xs ys : List ℕ) → AreBytes xs → AreBytes ys → AreBytes (xs ++ ys)
AreBytes-append [] ys h k = k
AreBytes-append (x ∷ xs) ys h k = (h.0, AreBytes-append xs ys h.1 k)

pub AreBytes-take : (n : ℕ) (xs : List ℕ) → AreBytes xs → AreBytes (take n xs)
AreBytes-take zero xs h = tt
AreBytes-take (suc n) [] h = tt
AreBytes-take (suc n) (x ∷ xs) h = (h.0, AreBytes-take n xs h.1)

-- `bs` is what writing the `n`-byte number `v` in the order `o` may leave.
pub record Spells (o : ByteOrder) (n v : ℕ) (bs : List ℕ) : Type 0 where
  pub count : length bs ≡ n
  pub bytes : AreBytes bs
  pub back : v < 256 ^ n → get o n bs ≡ v

module _ (v : ℕ) where
  put_two : (o : ByteOrder) (a b : ℕ) → Spells o 2 v (put o 2 (a ∷ b ∷ []) v)
  unfolding put get
  put_two big_endian a b = omega arith
  put_two little_endian a b = omega arith

  put_four : (o : ByteOrder) (a b c d : ℕ) → Spells o 4 v (put o 4 (a ∷ b ∷ c ∷ d ∷ []) v)
  unfolding put get
  put_four big_endian a b c d = omega arith
  put_four little_endian a b c d = omega arith

  put_eight :
      (o : ByteOrder) (a b c d a' b' c' d' : ℕ)
      → Spells o 8 v (put o 8 (a ∷ b ∷ c ∷ d ∷ a' ∷ b' ∷ c' ∷ d' ∷ []) v)
  unfolding put get
  put_eight big_endian a b c d a' b' c' d' = omega arith
  put_eight little_endian a b c d a' b' c' d' = omega arith

module _ (c : Converter) (v : ℕ) where
  -- Each of the three puts fills its slice with bytes from which the get of the same width reads
  -- the number back, if it fits the width.
  pub put_uint16-Spells : Spells c.byte_order 2 v (put_uint16 c (make_bytes 2) v)
  unfolding put_uint16
  put_uint16-Spells = put_two v c.byte_order 0 0

  pub put_uint32-Spells : Spells c.byte_order 4 v (put_uint32 c (make_bytes 4) v)
  unfolding put_uint32
  put_uint32-Spells = put_four v c.byte_order 0 0 0 0

  pub put_uint64-Spells : Spells c.byte_order 8 v (put_uint64 c (make_bytes 8) v)
  unfolding put_uint64
  put_uint64-Spells = put_eight v c.byte_order 0 0 0 0 0 0 0 0

  -- A number that fits the width, written in either byte order, is read back by the get of the
  -- same width, for 16, 32 and 64 bits.
  pub get-put :
      (v < 2 ^ 16 → get_uint16 c (put_uint16 c (make_bytes 2) v) ≡ v)
      × (v < 2 ^ 32 → get_uint32 c (put_uint32 c (make_bytes 4) v) ≡ v)
      × (v < 2 ^ 64 → get_uint64 c (put_uint64 c (make_bytes 8) v) ≡ v)
  unfolding get_uint16 get_uint32 get_uint64
  get-put =
      (λ h. put_uint16-Spells.back h, λ h. put_uint32-Spells.back h, λ h. put_uint64-Spells.back h)
