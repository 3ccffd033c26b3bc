-- ===== src/Reader/Layout.antt =====
-- What a response to a register read has to hold, without buffers and offsets.
use Prim.Native.Nat.{min}
use app_modbus_go.Prelude.{
  ap, ℕ, zero, suc, ◌+◌, ◌*◌, ◌%◌, ◌≡◌, ◌<◌, refl, Option, none, some, List, [], ◌∷◌, ◌++◌, arith,
  length, take, length-append, length-take,
}
use mathlib.Core.Path.{subst₂}
use app_modbus_go.Prelude.{sym}
use app_modbus_go.Value.{Floats}
use app_modbus_go.Cache.{CachedData}
use app_modbus_go.ValueType.{get_register_count}
use app_modbus_go.Bytes.{Converter}
use app_modbus_go.Bytes.Order.{AreBytes, AreBytes-append, AreBytes-take}
use app_modbus_go.Converter.{Result, ok, err, to_registers}
use app_modbus_go.Converter.Length.{IsEncoding, to_registers-IsEncoding}
use app_modbus_go.Reader.{Answers, Forwarded, collect_forward_data}

-- A record with the bytes that it converts to, if it does.
abbrev paired : {fl : Floats} → CachedData fl → Result (List ℕ) → Option (CachedData fl × List ℕ)
paired d (err e) = none
paired d (ok bytes) = some (d, bytes)

module _ {fl : Floats} (conv : Converter) where
  -- The record and the bytes that an answer yields, if it has a value and this converts.
  abbrev pub encoded : Option (CachedData fl) → Option (CachedData fl × List ℕ)
  encoded none = none
  encoded (some d) = paired d (to_registers conv d.value d.value_type d.scale d.offset)

  module _ (answers : Answers fl) (start : ℕ) where
    -- `Layout current left bytes reads`: the registers from `start + current` on, `left` of them, are
    -- answered by `bytes`, and the values in them come from `reads`, in order. A register without
    -- a value is two zero bytes. A value takes as many registers as its type has, or the `left`
    -- ones if these are fewer, and the register read next is the one behind them.
    pub data Layout : ℕ → ℕ → List ℕ → List (CachedData fl) → Type 0 where
      done : {current : ℕ} → Layout current zero [] []
      gap :
          {current left : ℕ} {bytes : List ℕ} {reads : List (CachedData fl)}
          → encoded (answers current ((start + current) % 65536)) ≡ none
          → Layout (suc current) left bytes reads
          → Layout current (suc left) (0 ∷ 0 ∷ bytes) reads
      value :
          {current left next rest regs : ℕ} {bytes : List ℕ} {reads : List (CachedData fl)}
          (d : CachedData fl) (image : List ℕ)
          → encoded (answers current ((start + current) % 65536)) ≡ some (d, image)
          → regs ≡ min (get_register_count d.value_type) left
          → 0 < left
          → next ≡ current + regs
          → regs + rest ≡ left
          → Layout next rest bytes reads
          → Layout current left (take (2 * regs) image ++ bytes) (d ∷ reads)

module _ {fl : Floats} where
  -- The forwarded data of values read in an order.
  abbrev pub collect_all : Forwarded fl → List (CachedData fl) → Forwarded fl
  collect_all forwarded [] = forwarded
  collect_all forwarded (d ∷ reads) =
      collect_all (collect_forward_data forwarded d.north_dev_name d.resource_name d.value) reads

  paired-eq-some :
      (n : ℕ) (r : Result (List ℕ)) (d' d : CachedData fl) (image : List ℕ)
      → IsEncoding n r
      → paired d' r ≡ some (d, image)
      → (d' ≡ d) × (length image ≡ n) × AreBytes image
  paired-eq-some n (err e) d' d image enc h = cc
  paired-eq-some n (ok bytes) d' d image enc h =
      let e : bytes ≡ image = cc in (cc, rw (← e) enc.0, rw (← e) enc.1)

  pub encoded-IsEncoding :
      (conv : Converter) (o : Option (CachedData fl)) (d : CachedData fl) (image : List ℕ)
      → encoded conv o ≡ some (d, image)
      → (length image ≡ 2 * get_register_count d.value_type) × AreBytes image
  encoded-IsEncoding conv none d image h = cc
  encoded-IsEncoding conv (some d') d image h =
      let (same, count, bytes) =
        paired-eq-some _ _ d' d image
          (to_registers-IsEncoding conv d'.value d'.value_type d'.scale d'.offset) h in
      (rw (← same) count, bytes)

  -- A layout of some registers is twice as many bytes, each below 256.
  pub Layout-bytes :
      (conv : Converter) (answers : Answers fl) (start : ℕ) {current left : ℕ} {bytes : List ℕ}
      {reads : List (CachedData fl)}
      → Layout conv answers start current left bytes reads
      → (length bytes ≡ 2 * left) × AreBytes bytes
  Layout-bytes conv answers start done = (refl, tt)
  Layout-bytes conv answers start (gap e l) =
      let (count, bytes) = Layout-bytes conv answers start l in
      (omega arith, (omega arith, (omega arith, bytes)))
  Layout-bytes conv answers start (value {regs = regs} {bytes = rest} d image e r p n s l) =
      let (count, bytes) = Layout-bytes conv answers start l in
      let (size, image_bytes) = encoded-IsEncoding conv _ d image e in
      (
        omega (
          arith,
          length-append {0} (take (2 * regs) image) rest,
          length-take {0} (2 * regs) image,
        ),
        AreBytes-append (take (2 * regs) image) rest (AreBytes-take (2 * regs) image image_bytes)
            bytes,
      )

  -- Two layouts of the same registers by the same answers have the same bytes, and the same values
  -- in the same order: what a register read has to answer is determined.
  pub Layout-unique :
      (conv : Converter) (answers : Answers fl) (start : ℕ) {current left : ℕ}
      {bytes bytes' : List ℕ} {reads reads' : List (CachedData fl)}
      → Layout conv answers start current left bytes reads
      → Layout conv answers start current left bytes' reads'
      → (bytes ≡ bytes') × (reads ≡ reads')
  Layout-unique conv answers start done done = (refl, refl)
  Layout-unique conv answers start done (value d image e r p n s l) = absurd (omega arith)
  Layout-unique conv answers start (gap e l) (gap e' l') =
      let (b, r) = Layout-unique conv answers start l l' in (cc, cc)
  Layout-unique conv answers start (gap e l) (value d image e' r p n s l') = absurd (cc)
  Layout-unique conv answers start (value d image e r p n s l) done = absurd (omega arith)
  Layout-unique conv answers start (value d image e r p n s l) (gap e' l') = absurd (cc)
  Layout-unique conv answers start {left = left}
        (value {next = next} {rest = rest} {regs = regs} d image e r p n s l)
        (value {next = next'} {rest = rest'} {regs = regs'} {bytes = bytes'} {reads = reads'} d'
          image' e' r' p' n' s' l') =
      let same : d ≡ d' = cc in
      let same_image : image ≡ image' = cc in
      let count : get_register_count d.value_type ≡ get_register_count d'.value_type =
        ap (λ (x : CachedData fl). get_register_count x.value_type) same in
      let same_regs : regs ≡ regs' = omega arith in
      let same_next : next ≡ next' = omega arith in
      let same_rest : rest ≡ rest' = omega arith in
      let (b, q) = Layout-unique conv answers start l (
        subst₂ (λ x y. Layout conv answers start x y bytes' reads') (sym same_next) (sym same_rest)
          l') in
      (cc, cc)
