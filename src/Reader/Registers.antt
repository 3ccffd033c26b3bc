-- ===== src/Reader/Registers.antt =====
-- readRegisters returns, and what it returns is the layout.
use Prim.Native.Nat.{min}
use app_modbus_go.Prelude.{
  ◌∙◌, ap, refl, zero, some, inr, none, lt→ltb, length-append, inl, Option-cases, ltb-le, String,
  Option, ℕ, suc, ◌+◌, ◌-◌, ◌*◌, ◌%◌, ◌≡◌, ◌≤◌, ◌<◌, sym, List, [], ◌∷◌, ◌++◌, arith, length, take,
  replicate, length-take, length-replicate, drop-replicate, le→leb,
}
use mathlib.Core.List.{append_assoc}
use app_modbus_go.Value.{Floats}
use app_modbus_go.Cache.{CachedData}
use app_modbus_go.ValueType.{count_of, get_register_count}
use app_modbus_go.Run.{◌>>=◌, returned}
use app_modbus_go.Buffer.Write.{set_byte_next, set_byte-append, copy_at-append}
use app_modbus_go.Reader.{
  make_bytes, Converter, Answers, Forwarded, Reading, collect_forward_data, skip_register,
  regs_to_fill, copy_value, read_one, read_loop, read_registers,
}
use app_modbus_go.Reader.Layout.{Layout, done, gap, value, encoded, collect_all, encoded-IsEncoding}

module _ {fl : Floats} where
  -- The loop's variables between two rounds.
  abbrev at : List ℕ → Forwarded fl → ℕ → Reading fl
  at bytes forwarded current = record {
    bytes = bytes;
    forwarded = forwarded;
    offset = 1 + 2 * current;
    current_reg = current;
  }

  skip_register-at :
      (pre zs : List ℕ) (forwarded : Forwarded fl) (current : ℕ)
      → length pre ≡ 1 + 2 * current
      → current < 65535
      → skip_register (at (pre ++ (0 ∷ 0 ∷ zs)) forwarded current)
        ≡ returned (at ((pre ++ (0 ∷ 0 ∷ [])) ++ zs) forwarded (suc current))
  unfolding skip_register
  skip_register-at pre zs forwarded current h k =
      rw
        (
          set_byte-append pre 0 0 (0 ∷ zs) (1 + 2 * current) (sym h),
          set_byte_next pre 0 0 0 zs (1 + 2 * current + 1) (omega arith),
          append_assoc pre (0 ∷ 0 ∷ []) zs,
        )
        (ground arith)

  regs_to_fill-min :
      (quantity current left : ℕ) (d : CachedData fl)
      → current + left ≡ quantity
      → regs_to_fill quantity current d ≡ min (get_register_count d.value_type) left
  unfolding regs_to_fill
  regs_to_fill-min quantity current left d k = ground arith

  copy_value-at :
      (quantity current left regs : ℕ) (d : CachedData fl) (image pre : List ℕ)
      (forwarded : Forwarded fl)
      → length pre ≡ 1 + 2 * current
      → regs_to_fill quantity current d ≡ regs
      → regs ≤ left
      → current + left ≤ 32767
      → 2 * regs ≤ length image
      → copy_value quantity d image (at (pre ++ replicate (2 * left) 0) forwarded current)
        ≡ returned (
            at
              ((pre ++ take (2 * regs) image) ++ replicate (2 * (left - regs)) 0)
              (collect_forward_data forwarded d.north_dev_name d.resource_name d.value)
              (current + regs))
  unfolding copy_value
  copy_value-at quantity current left regs d image pre forwarded h e fits small size =
      let twice : regs * 2 % 65536 ≡ 2 * regs = omega arith in
      let count : length (take (2 * regs) image) ≡ 2 * regs =
        omega (arith, length-take {0} (2 * regs) image) in
      rw
        (
          e,
          twice,
          le→leb (2 * regs) (length image) size,
          copy_at-append pre (replicate (2 * left) 0) (take (2 * regs) image) (1 + 2 * current)
              (sym h) (omega (arith, length-replicate {A = ℕ} (2 * left) 0)),
          count,
          drop-replicate {A = ℕ} (2 * regs) (2 * left) 0,
          append_assoc pre (take (2 * regs) image) (replicate (2 * (left - regs)) 0),
        )
        (ground arith)

module _ {fl : Floats} (conv : Converter) (answers : Answers fl) (start quantity : ℕ) where
  abbrev answer : ℕ → Option (CachedData fl)
  answer current = answers current ((start + current) % 65536)

  read_one-encoded :
      (st : Reading fl)
      → read_one conv answers start quantity st ≡ elim (encoded conv (answer st.current_reg)) [
        | none ↦ skip_register st
        | some (d, image) ↦ copy_value quantity d image st
      ]
  unfolding read_one
  read_one-encoded st = ground arith

  get_register_count-pos : (s : String) → 0 < get_register_count s
  unfolding get_register_count count_of
  get_register_count-pos s = ground arith

  read_loop_end :
      (fuel : ℕ) (st : Reading fl)
      → quantity ≤ st.current_reg
      → read_loop conv answers start quantity (suc fuel) st ≡ returned st
  unfolding read_loop
  read_loop_end fuel st h = rw (ltb-le st.current_reg quantity h, read_loop) refl

  read_loop_step :
      (fuel : ℕ) (st : Reading fl)
      → st.current_reg < quantity
      → read_loop conv answers start quantity (suc fuel) st
        ≡ (read_one conv answers start quantity st >>= read_loop conv answers start quantity fuel)
  unfolding read_loop
  read_loop_step fuel st h = rw (lt→ltb st.current_reg quantity h, read_loop) refl

  -- The loop from a round on ends, and has appended a layout of the registers left.
  record Ends (fuel current left : ℕ) (pre : List ℕ) (forwarded : Forwarded fl) : Type 0 where
    bytes : List ℕ
    reads : List (CachedData fl)
    layout : Layout conv answers start current left bytes reads
    run :
        read_loop conv answers start quantity fuel
          (at (pre ++ replicate (2 * left) 0) forwarded current)
        ≡ returned (at (pre ++ bytes) (collect_all forwarded reads) quantity)

  module _ (fuel current left : ℕ) (pre : List ℕ) (forwarded : Forwarded fl)
      (h : length pre ≡ 1 + 2 * current) (k : current + suc left ≡ quantity)
      (small : quantity ≤ 32767) where
    start_of_round : Reading fl
    start_of_round = at (pre ++ replicate (2 * suc left) 0) forwarded current

    two_more : replicate {A = ℕ} (2 * suc left) 0 ≡ 0 ∷ 0 ∷ replicate (2 * left) 0
    two_more =
        let e : 2 * suc left ≡ suc (suc (2 * left)) = omega arith in
        ap (λ n. replicate {A = ℕ} n 0) e

    gap_round :
        encoded conv (answer current) ≡ none
        → Ends fuel (suc current) left (pre ++ (0 ∷ 0 ∷ [])) forwarded
        → Ends (suc fuel) current (suc left) pre forwarded
    unfolding start_of_round
    gap_round e rest = record {
      bytes = 0 ∷ 0 ∷ rest.bytes;
      reads = rest.reads;
      layout = gap e rest.layout;
      run = rw (
        read_loop_step fuel start_of_round (omega arith),
        read_one-encoded start_of_round,
        e,
        two_more,
        skip_register-at pre (replicate (2 * left) 0) forwarded current h (omega arith),
        rest.run,
        append_assoc pre (0 ∷ 0 ∷ []) rest.bytes,
      );
    }

    value_round :
        (regs : ℕ) (d : CachedData fl) (image : List ℕ)
        → encoded conv (answer current) ≡ some (d, image)
        → regs ≡ min (get_register_count d.value_type) (suc left)
        → Ends fuel
            (current + regs)
            (suc left - regs)
            (pre ++ take (2 * regs) image)
            (collect_forward_data forwarded d.north_dev_name d.resource_name d.value)
        → Ends (suc fuel) current (suc left) pre forwarded
    unfolding start_of_round
    value_round regs d image e m rest = record {
      bytes = take (2 * regs) image ++ rest.bytes;
      reads = d ∷ rest.reads;
      layout = value d image e m (omega arith) refl (omega arith) rest.layout;
      run = rw (
        read_loop_step fuel start_of_round (omega arith),
        read_one-encoded start_of_round,
        e,
        copy_value-at quantity current (suc left) regs d image pre forwarded h
            (regs_to_fill-min quantity current (suc left) d k ∙ sym m) (omega arith) (omega arith)
            (omega (arith, (encoded-IsEncoding conv (answer current) d image e).0)),
        rest.run,
        append_assoc pre (take (2 * regs) image) rest.bytes,
      );
    }

  read_loop-Ends :
      (fuel current left : ℕ) (pre : List ℕ) (forwarded : Forwarded fl)
      → left < fuel
      → length pre ≡ 1 + 2 * current
      → current + left ≡ quantity
      → quantity ≤ 32767
      → Ends fuel current left pre forwarded
  read_loop-Ends zero current left pre forwarded f h k small = absurd (omega arith)
  read_loop-Ends (suc fuel) current zero pre forwarded f h k small = record {
    bytes = [];
    reads = [];
    layout = done;
    run = rw (read_loop_end fuel (at (pre ++ []) forwarded current) (omega arith)) (ground arith);
  }
  read_loop-Ends (suc fuel) current (suc left) pre forwarded f h k small =
      elim (Option-cases (encoded conv (answer current))) [
        | inl e ↦ gap_round fuel current left pre forwarded h k small e (
            read_loop-Ends fuel (suc current) left (pre ++ (0 ∷ 0 ∷ [])) forwarded (omega arith)
              (omega (arith, length-append {A = ℕ} pre (0 ∷ 0 ∷ []))) (omega arith) small)
        | inr ((d, image), e) ↦
            let count = get_register_count d.value_type in
            let regs : ℕ = min count (suc left) in
            let some_reg : 0 < regs = omega (arith, get_register_count-pos d.value_type) in
            value_round fuel current left pre forwarded h k small regs d image e refl (
              read_loop-Ends fuel (current + regs) (suc left - regs) (pre ++ take (2 * regs) image)
                (collect_forward_data forwarded d.north_dev_name d.resource_name d.value)
                (omega arith)
                (omega (
                  arith,
                  length-append {A = ℕ} pre (take (2 * regs) image),
                  length-take {A = ℕ} (2 * regs) image,
                  (encoded-IsEncoding conv (answer current) d image e).0,
                ))
                (omega arith) small)
      ]

  -- A read of at most 32767 registers returns, with no panic and before its fuel ends: the count
  -- of the bytes that follow, in a byte, and the layout of the registers asked for; what is
  -- forwarded is the values that stand in it, in order.
  pub read_registers-Layout :
      quantity ≤ 32767
      → (bytes : List ℕ) × (reads : List (CachedData fl)) × Layout conv answers start 0 quantity
          bytes reads
        × (read_registers conv answers start quantity
            ≡ returned
                (record { bytes = (quantity * 2 % 256) ∷ bytes; forwarded = collect_all [] reads }))
  unfolding read_registers
  read_registers-Layout small =
      let r =
        read_loop-Ends (quantity + 1) 0 quantity ((quantity * 2 % 256) ∷ []) [] (omega arith)
          (omega arith) (omega arith) small in
      (
        r.bytes,
        r.reads,
        r.layout,
        rw
            (
              make_odd,
              set_byte-append [] 0 (quantity * 2 % 65536 % 256) (replicate (2 * quantity) 0) 0 refl,
              small_count,
            )
            (rw r.run),
      )
    where
      make_odd : make_bytes ((1 + quantity * 2) % 65536) ≡ 0 ∷ replicate (2 * quantity) 0
      make_odd =
          let e : (1 + quantity * 2) % 65536 ≡ suc (2 * quantity) = omega arith in ap make_bytes e

      small_count : quantity * 2 % 65536 % 256 ≡ quantity * 2 % 256
      small_count = omega arith
