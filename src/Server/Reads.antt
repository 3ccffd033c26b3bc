-- ===== src/Server/Reads.antt =====
-- The read handlers: what they answer to each request, and that no handler panics.
use app_modbus_go.Prelude.{
  leb, not, ℕ, ◌+◌, ◌*◌, ◌/◌, ◌%◌, ◌≡◌, ◌≤◌, refl, ap, ◌∙◌, Bool, true, false, ◌||◌, Option, none,
  some, List, [], ◌∷◌, arith, length, ltb, if◌then◌else◌, Bool-cases, inl, inr,
}
use app_modbus_go.Prelude.{◌&&◌, leb}
use app_modbus_go.Prelude.Eq.{ℕ_eq, ◌==◌}
use app_modbus_go.Value.{Floats}
use app_modbus_go.Cache.{CachedData}
use app_modbus_go.Buffer.Bits.{bit_of}
use app_modbus_go.Reader.{Answers, ReadResult, read_registers, read_bits}
use app_modbus_go.Reader.Layout.{Layout, collect_all}
use app_modbus_go.Reader.Registers.{read_registers-Layout}
use app_modbus_go.Reader.Coils.{answer_bit, answer, found, read_bits-packed}
use app_modbus_go.Run.{Run, returned, ◌>>=◌}
use app_modbus_go.Server.{
  Reply, Mappings, success, illegal_data_value, word, refuse, log_forward, reply_to_read,
  parse_read_request, converter, handle_read_coils, handle_read_discrete_inputs,
  handle_read_holding_registers, handle_read_input_registers, dispatch,
}

-- a frame's quantity lies within the limits
abbrev pub in_limits : ℕ → ℕ → List ℕ → Bool
in_limits low high (a ∷ b ∷ c ∷ d ∷ rest) = not (ltb (word c d) low || ltb high (word c d))
in_limits low high _ = false

abbrev pub start_of : List ℕ → ℕ
start_of (a ∷ b ∷ rest) = word a b
start_of _ = 0

abbrev pub quantity_of : List ℕ → ℕ
quantity_of (a ∷ b ∷ c ∷ d ∷ rest) = word c d
quantity_of _ = 0

parse_read_request-in_limits :
    (frame : List ℕ) (low high : ℕ)
    → parse_read_request frame low high
      ≡ (if in_limits low high frame then some (start_of frame, quantity_of frame) else none)
unfolding parse_read_request
parse_read_request-in_limits (a ∷ b ∷ c ∷ d ∷ rest) low high = ground arith
parse_read_request-in_limits _ low high = refl

in_limits-le :
    (frame : List ℕ) (low high : ℕ)
    → in_limits low high frame ≡ true
    → (low ≤ quantity_of frame) × (quantity_of frame ≤ high)
in_limits-le (a ∷ b ∷ c ∷ d ∷ rest) low high h = ground arith
in_limits-le _ low high h = cc

-- the rest of a read handler behind the parsing, for one of the two readers
abbrev answer_read : {fl : Floats} → (ℕ → ℕ → Run (ReadResult fl)) → Option (ℕ × ℕ) → Run (Reply fl)
answer_read read none = returned (refuse illegal_data_value)
answer_read read (some (start, quantity)) = read start quantity >>= λ r. returned (reply_to_read r)

module _ {fl : Floats} (read : ℕ → ℕ → Run (ReadResult fl)) (frame : List ℕ) (high : ℕ) where
  refused :
      in_limits 1 high frame ≡ false
      → answer_read read (parse_read_request frame 1 high) ≡ returned (refuse illegal_data_value)
  refused h = rw (parse_read_request-in_limits frame 1 high, h) refl

  answered :
      {r : ReadResult fl}
      → in_limits 1 high frame ≡ true
      → read (start_of frame) (quantity_of frame) ≡ returned r
      → answer_read read (parse_read_request frame 1 high) ≡ returned (reply_to_read r)
  answered h e = rw (parse_read_request-in_limits frame 1 high, h) (rw e refl)

module _ {fl : Floats} (answers : Answers fl) (frame : List ℕ) where
  abbrev refused_frame : Run (Reply fl)
  refused_frame = returned (refuse illegal_data_value)

  -- the successful reply with a count byte
  abbrev pub read_reply : ℕ → List ℕ → List (CachedData fl) → Reply fl
  read_reply count bytes reads = record {
    bytes = some (count ∷ bytes);
    exception = success;
    logged = log_forward (collect_all [] reads);
  }

  handle_registers :
      (in_limits 1 125 frame ≡ false
        → answer_read (read_registers converter answers) (parse_read_request frame 1 125)
          ≡ refused_frame)
      × (in_limits 1 125 frame ≡ true
          → (bytes : List ℕ) × (reads : List (CachedData fl)) × Layout converter answers
              (start_of frame)
              0
              (quantity_of frame)
              bytes
              reads
            × (answer_read (read_registers converter answers) (parse_read_request frame 1 125)
                ≡ returned (read_reply (2 * quantity_of frame) bytes reads)))
  unfolding reply_to_read
  handle_registers = (
    refused (read_registers converter answers) frame 125,
    λ limits.
        let small = in_limits-le frame 1 125 limits in
        let (bytes, reads, l, run) =
          read_registers-Layout converter answers (start_of frame) (quantity_of frame)
            (omega arith) in
        let count : quantity_of frame * 2 % 256 ≡ 2 * quantity_of frame = omega arith in
        (
          bytes,
          reads,
          l,
          answered (read_registers converter answers) frame 125 limits run
              ∙ ap (λ n. returned (read_reply n bytes reads)) count,
        ),
  )

  -- A read of holding registers is refused as an illegal value, with nothing logged, if the frame is
  -- too short or its quantity is not from 1 to 125. Any other succeeds, with the count of the bytes,
  -- two for each register, the layout of the registers, and the values in it logged, if any.
  pub handle_read_holding_registers_lem :
      (in_limits 1 125 frame ≡ false → handle_read_holding_registers answers frame ≡ refused_frame)
      × (in_limits 1 125 frame ≡ true
          → (bytes : List ℕ) × (reads : List (CachedData fl)) × Layout converter answers
              (start_of frame)
              0
              (quantity_of frame)
              bytes
              reads
            × (handle_read_holding_registers answers frame
                ≡ returned (read_reply (2 * quantity_of frame) bytes reads)))
  unfolding handle_read_holding_registers
  handle_read_holding_registers_lem = handle_registers

  input_holding :
      handle_read_input_registers answers frame ≡ handle_read_holding_registers answers frame
  unfolding handle_read_input_registers handle_read_holding_registers
  input_holding = refl

module _ {fl : Floats} (answers : Answers fl) (frame : List ℕ) where
  handle_bits :
      (in_limits 1 2000 frame ≡ false
        → answer_read (read_bits answers) (parse_read_request frame 1 2000)
          ≡ returned (refuse illegal_data_value))
      × (in_limits 1 2000 frame ≡ true
          → (payload : List ℕ) × (answer_read (read_bits answers) (parse_read_request frame 1 2000)
              ≡ returned (
                  read_reply answers frame
                    ((quantity_of frame + 7) / 8)
                    payload
                    (found answers (start_of frame) 0 (quantity_of frame))))
            × (length payload ≡ (quantity_of frame + 7) / 8)
            × ((j : ℕ)
                → bit_of payload j ≡ (
                    if ltb j (quantity_of frame)
                    then answer_bit (answer answers (start_of frame) j)
                    else 0)))
  unfolding reply_to_read
  handle_bits = (
    refused (read_bits answers) frame 2000,
    λ limits.
        let small = in_limits-le frame 1 2000 limits in
        let (payload, run, size, are_bytes, bits) =
          read_bits-packed answers (start_of frame) (quantity_of frame) (omega arith) in
        let count : (quantity_of frame + 7) / 8 % 256 ≡ (quantity_of frame + 7) / 8 = omega arith in
        (
          payload,
          answered (read_bits answers) frame 2000 limits run
              ∙ ap
                  (λ n. returned (
                    read_reply answers frame n payload
                      (found answers (start_of frame) 0 (quantity_of frame))))
                  count,
          size,
          bits,
        ),
  )

  -- A read of coils is refused as an illegal value, with nothing logged, if the frame is too short
  -- or its quantity is not from 1 to 2000. Any other succeeds, with the count of the bytes, one for
  -- each eight bits begun, the bits packed from the lowest on, zeros behind them, and the values
  -- found logged, if any.
  pub handle_read_coils_lem :
      (in_limits 1 2000 frame ≡ false
        → handle_read_coils answers frame ≡ returned (refuse illegal_data_value))
      × (in_limits 1 2000 frame ≡ true
          → (payload : List ℕ) × (handle_read_coils answers frame
              ≡ returned (
                  read_reply answers frame
                    ((quantity_of frame + 7) / 8)
                    payload
                    (found answers (start_of frame) 0 (quantity_of frame))))
            × (length payload ≡ (quantity_of frame + 7) / 8)
            × ((j : ℕ)
                → bit_of payload j ≡ (
                    if ltb j (quantity_of frame)
                    then answer_bit (answer answers (start_of frame) j)
                    else 0)))
  unfolding handle_read_coils
  handle_read_coils_lem = handle_bits

by_test {ℓ} :
    {A : Type ℓ} (P : A → Type 0) (b : Bool) {x y : A}
    → (b ≡ true → P x)
    → (b ≡ false → P y)
    → P (if b then x else y)
by_test P true f g = f refl
by_test P false f g = g refl

-- a run that returns
abbrev pub Returns : {A : Type 0} → Run A → Type 0
Returns {A} r = (a : A) × (r ≡ returned a)

module _ {fl : Floats} (answers : Answers fl) (frame : List ℕ) where
  bits_return : Returns (answer_read (read_bits answers) (parse_read_request frame 1 2000))
  bits_return = elim (Bool-cases (in_limits 1 2000 frame)) [
    | inl e ↦ let (payload, run, size, bits) = (handle_bits answers frame).1 e in (_, run)
    | inr e ↦ (_, (handle_bits answers frame).0 e)
  ]

  registers_return :
      Returns (answer_read (read_registers converter answers) (parse_read_request frame 1 125))
  registers_return = elim (Bool-cases (in_limits 1 125 frame)) [
    | inl e ↦ let (bytes, reads, l, run) = (handle_registers answers frame).1 e in (_, run)
    | inr e ↦ (_, (handle_registers answers frame).0 e)
  ]

  -- whether a function code is one of the eight that the server registers
  abbrev pub is_registered : ℕ → Bool
  is_registered code = (leb 1 code && leb code 6) || code == 15 || code == 16

  abbrev pub Answered : Option (Run (Reply fl)) → Type 0
  Answered o = (run : Run (Reply fl)) × (o ≡ some run) × Returns run

  unregistered :
      (code : ℕ)
      → (code == 1) ≡ false
      → (code == 2) ≡ false
      → (code == 3) ≡ false
      → (code == 4) ≡ false
      → (code == 5) ≡ false
      → (code == 6) ≡ false
      → (code == 15) ≡ false
      → (code == 16) ≡ false
      → is_registered code ≡ true
      → ⊥
  unregistered code a b c d e f g h k = ground arith

  -- The handler of each function code that is registered returns a reply to every frame, whatever
  -- bytes it has and whatever the mapping manager answers: none panics or loops.
  pub dispatch_returns :
      (mappings : Mappings fl) (code : ℕ)
      → is_registered code ≡ true
      → Answered (dispatch answers mappings code frame)
  unfolding dispatch handle_read_coils handle_read_discrete_inputs handle_read_holding_registers
      handle_read_input_registers
  dispatch_returns mappings code h =
      by_test Answered (code == 1) (λ e₁. (_, refl, bits_return))
        (λ e₁.
          by_test Answered (code == 2) (λ e₂. (_, refl, bits_return))
            (λ e₂.
              by_test Answered (code == 3) (λ e₃. (_, refl, registers_return))
                (λ e₃.
                  by_test Answered (code == 4) (λ e₄. (_, refl, registers_return))
                    (λ e₄.
                      by_test Answered (code == 5) (λ e₅. (_, refl, (_, refl)))
                        (λ e₅.
                          by_test Answered (code == 6) (λ e₆. (_, refl, (_, refl)))
                            (λ e₆.
                              by_test Answered (code == 15) (λ e₇. (_, refl, (_, refl)))
                                (λ e₇.
                                  by_test Answered (code == 16) (λ e₈. (_, refl, (_, refl)))
                                    (λ e₈.
                                      absurd (unregistered code e₁ e₂ e₃ e₄ e₅ e₆ e₇ e₈ h)))))))))
