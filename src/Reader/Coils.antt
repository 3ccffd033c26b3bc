-- ===== src/Reader/Coils.antt =====
-- readBits returns, and packs the bits in the order of their addresses.
use app_modbus_go.Prelude.{
  get_or, ℕ, zero, suc, ◌+◌, ◌*◌, ◌/◌, ◌%◌, ◌≡◌, ◌≤◌, ◌<◌, refl, ◌∙◌, Bool-cases, inl, inr, ==_iff,
  Bool, true, false, Option, none, some, List, [], ◌∷◌, arith, length, length-replicate, length-set,
  ltb, if◌then◌else◌,
}
use app_modbus_go.Prelude.Eq.{ℕ_eq, ◌==◌}
use app_modbus_go.Value.{Floats}
use app_modbus_go.Cache.{CachedData}
use app_modbus_go.Bytes.{make_bytes}
use app_modbus_go.Bytes.Order.{AreBytes}
use app_modbus_go.Run.{returned}
use app_modbus_go.Buffer.Write.{set_byte-append}
use app_modbus_go.Buffer.Bits.{
  bit_of, with_bit, or_byte-with_bit, with_bit-AreBytes, bit_of-with_bit,
}
use app_modbus_go.Reader.{◌==◌, Answers, Forwarded, value_to_bool, read_bit, bit_loop, read_bits}
use app_modbus_go.Reader.Layout.{collect_all}

module _ {fl : Floats} where
  -- whether an answer sets its bit: not without a value
  abbrev pub is_on : Option (CachedData fl) → Bool
  is_on none = false
  is_on (some d) = value_to_bool d.value

  abbrev pub answer_bit : Option (CachedData fl) → ℕ
  answer_bit o = if is_on o then 1 else 0

  abbrev add_read : Option (CachedData fl) → List (CachedData fl) → List (CachedData fl)
  add_read none reads = reads
  add_read (some d) reads = d ∷ reads

module _ {fl : Floats} where
  collect-add_read :
      (forwarded : Forwarded fl) (o : Option (CachedData fl)) (reads : List (CachedData fl))
      → collect_all (collect_all forwarded (add_read o [])) reads
        ≡ collect_all forwarded (add_read o reads)
  collect-add_read forwarded none reads = refl
  collect-add_read forwarded (some d) reads = refl

zeros-AreBytes : (n : ℕ) → AreBytes (make_bytes n)
zeros-AreBytes zero = tt
zeros-AreBytes (suc n) = (omega arith, zeros-AreBytes n)

get_or-zeros : (n i : ℕ) → get_or (make_bytes n) i 0 ≡ 0
get_or-zeros zero i = refl
get_or-zeros (suc n) zero = refl
get_or-zeros (suc n) (suc i) = get_or-zeros n i

zeros-bits : (n j : ℕ) → bit_of (make_bytes n) j ≡ 0
zeros-bits n j = rw (get_or-zeros n (j / 8)) (grind arith)

-- The payload after a round at the counter `i`.
abbrev after : Bool → ℕ → List ℕ → List ℕ
after on i bytes = if on then with_bit bytes i else bytes

length-after : (on : Bool) (i : ℕ) (bytes : List ℕ) → length (after on i bytes) ≡ length bytes
length-after true i bytes = length-set bytes (i / 8) _
length-after false i bytes = refl

after-AreBytes : (on : Bool) (i : ℕ) (bytes : List ℕ) → AreBytes bytes → AreBytes (after on i bytes)
after-AreBytes true i bytes h = with_bit-AreBytes bytes i h
after-AreBytes false i bytes h = h

bit_of-after :
    (on : Bool) (i j : ℕ) (bytes : List ℕ)
    → AreBytes bytes
    → i / 8 < length bytes
    → bit_of bytes i ≡ 0
    → bit_of (after on i bytes) j ≡ (if i == j then if on then 1 else 0 else bit_of bytes j)
bit_of-after true i j bytes h k z = bit_of-with_bit bytes i j h k
bit_of-after false i j bytes h k z = elim (Bool-cases (i == j)) [
  | inl e ↦ rw (e, ← (==_iff i j).0 e) z
  | inr e ↦ rw e
]

module _ {fl : Floats} (answers : Answers fl) (start : ℕ) where
  abbrev pub answer : ℕ → Option (CachedData fl)
  answer i = answers i ((start + i) % 65536)

  -- The values that the calls from the counter `i` on find.
  abbrev pub found : ℕ → ℕ → List (CachedData fl)
  found i zero = []
  found i (suc n) = add_read (answer i) (found (i + 1) n)

  -- The payload after the rounds from `i` on: the bits below `i` as they were, those of the rounds,
  -- and zeros.
  record Packs (i n count : ℕ) (bytes : List ℕ) (forwarded : Forwarded fl) : Type 0 where
    payload : List ℕ
    run :
        bit_loop answers start i n (count ∷ bytes) forwarded
        ≡ returned
            (record { bytes = count ∷ payload; forwarded = collect_all forwarded (found i n) })
    size : length payload ≡ length bytes
    are_bytes : AreBytes payload
    bits :
        (j : ℕ)
        → bit_of payload j
          ≡ (if ltb j i then bit_of bytes j else if ltb j (i + n) then answer_bit (answer j) else 0)

  read_bit-after :
      (i count : ℕ) (bytes : List ℕ) (forwarded : Forwarded fl)
      → i / 8 < length bytes
      → read_bit answers start i (count ∷ bytes) forwarded
        ≡ returned (record {
          bytes = count ∷ after (is_on (answer i)) i bytes;
          forwarded = collect_all forwarded (add_read (answer i) []);
        })
  unfolding read_bit
  read_bit-after i count bytes forwarded h = ground (arith, or_byte-with_bit count bytes i h)

  bit_loop-Packs :
      (i n count : ℕ) (bytes : List ℕ) (forwarded : Forwarded fl)
      → i + n ≤ 8 * length bytes
      → AreBytes bytes
      → ((j : ℕ) → i ≤ j → bit_of bytes j ≡ 0)
      → Packs i n count bytes forwarded
  unfolding bit_loop
  bit_loop-Packs i zero count bytes forwarded h b z = record {
    payload = bytes;
    run = refl;
    size = refl;
    are_bytes = b;
    bits = λ j. ground (arith, z j);
  }
  bit_loop-Packs i (suc n) count bytes forwarded h b z =
      let on = is_on (answer i) in
      let room : i / 8 < length bytes = omega arith in
      let rest =
        bit_loop-Packs (i + 1) n count (after on i bytes)
          (collect_all forwarded (add_read (answer i) [])) (omega (arith, length-after on i bytes))
          (after-AreBytes on i bytes b)
          (λ j k. ground (arith, bit_of-after on i j bytes b room (z i (omega arith)), z j)) in
      record {
        payload = rest.payload;
        run = rw (
          read_bit-after i count bytes forwarded room,
          rest.run,
          collect-add_read forwarded (answer i) (found (i + 1) n),
        );
        size = rest.size ∙ length-after on i bytes;
        are_bytes = rest.are_bytes;
        bits =
            λ j. ground (arith, rest.bits j, bit_of-after on i j bytes b room (z i (omega arith)));
      }

  run-Packs :
      (quantity n : ℕ)
      → (quantity + 7) % 65536 / 8 ≡ n
      → (p : Packs 0 quantity (n % 256) (make_bytes n) [])
      → read_bits answers start quantity
        ≡ returned (record {
          bytes = (n % 256) ∷ p.payload;
          forwarded = collect_all [] (found 0 quantity);
        })
  unfolding read_bits
  run-Packs quantity n same p =
      let one_more : 1 + n ≡ suc n = omega arith in
      rw (same, one_more, set_byte-append [] 0 (n % 256) (make_bytes n) 0 refl, p.run) refl

  -- A read of at most 65528 bits returns with no panic: the count of the bytes that follow, one for
  -- each eight bits begun; in these the bit of every address asked for, from the lowest bit of the
  -- first byte on, and zeros behind. All values found are forwarded, those that read as off too.
  pub read_bits-packed :
      (quantity : ℕ)
      → quantity ≤ 65528
      → (payload : List ℕ) × (read_bits answers start quantity
          ≡ returned (record {
            bytes = ((quantity + 7) / 8 % 256) ∷ payload;
            forwarded = collect_all [] (found 0 quantity);
          }))
        × (length payload ≡ (quantity + 7) / 8)
        × AreBytes payload
        × ((j : ℕ) → bit_of payload j ≡ (if ltb j quantity then answer_bit (answer j) else 0))
  read_bits-packed quantity small =
      let n : ℕ = (quantity + 7) / 8 in
      let same : (quantity + 7) % 65536 / 8 ≡ n = omega arith in
      let p =
        bit_loop-Packs 0 quantity (n % 256) (make_bytes n) []
          (omega (arith, length-replicate {A = ℕ} n 0)) (zeros-AreBytes n)
          (λ j k. zeros-bits n j) in
      (
        p.payload,
        run-Packs quantity n same p,
        p.size ∙ length-replicate n 0,
        p.are_bytes,
        λ j. ground (arith, p.bits j),
      )
