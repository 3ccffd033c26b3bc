-- ===== src/Server/CoilWrites.antt =====
-- The write of several coils (internal/pkg/modbusserver/server.go): what a success says of the addresses
-- written to.
use app_modbus_go.Prelude.{
  ℕ, zero, suc, ◌+◌, ◌/◌, ◌%◌, ◌≡◌, ◌≤◌, ◌<◌, ◌≢◌, ◌↔◌, refl, ap, ◌∙◌, sym, Bool, true, false, not,
  ◌&&◌, ◌||◌, Option, none, some, List, [], ◌∷◌, arith, length, ltb, if◌then◌else◌, Bool-cases, inl,
  inr, eq_iff,
}
use app_modbus_go.Prelude.Eq.{ℕ_eq, String_eq, ◌==◌}
use mathlib.Core.Option.{some-injective, none-ne-some}
use mathlib.Core.Path.{subst}
use app_modbus_go.Prelude.{==_iff}
use app_modbus_go.Value.{Floats}
use app_modbus_go.Resource.{ResourceMapping, SouthResource}
use app_modbus_go.Server.{
  Reply, Mappings, Exception, illegal_data_value, word, refuse, accept, check_write_permission,
  reply_to_write, check_all, handle_write_multiple_coils,
}

-- An address may be written to: it is mapped, and its south resource, if there is one, is not "R".
abbrev pub Writable : {fl : Floats} → Option (ResourceMapping fl) → Type 0
Writable {fl} o =
    (m : ResourceMapping fl) × (o ≡ some m)
    × ((s : SouthResource fl) → m.south_resource ≡ some s → s.read_write ≢ "R")

pub check_write_permission-Writable :
    {fl : Floats} (o : Option (ResourceMapping fl)) → check_write_permission o ≡ none → Writable o
unfolding check_write_permission
check_write_permission-Writable none h = cc
check_write_permission-Writable (some m) h =
    (m, refl, λ s e r. ground (arith, eq_iff s.read_write "R"))

pub Writable-check_write_permission :
    {fl : Floats} (o : Option (ResourceMapping fl)) → Writable o → check_write_permission o ≡ none
unfolding check_write_permission
Writable-check_write_permission none w = ground arith
Writable-check_write_permission (some m) (m', same_mapping, allowed) = go m.south_resource refl
  where
    go :
        (s : Option (SouthResource _))
        → m.south_resource ≡ s
        → check_write_permission (some m) ≡ none
    go none e = rw e refl
    go (some s) e = elim (Bool-cases (s.read_write == "R")) [
      | inl h ↦ absurd (
          allowed s (ap (λ m. m.south_resource) (some-injective _ _ (sym same_mapping)) ∙ e)
            ((eq_iff s.read_write "R").0 h))
      | inr h ↦ rw (e, h) refl
    ]

module _ {fl : Floats} (mappings : Mappings fl) where
  check_all-suc :
      (start i n : ℕ)
      → check_all mappings start i (suc n) ≡ none
      → (check_write_permission (mappings i ((start + i) % 65536)) ≡ none)
        × (check_all mappings start (i + 1) n ≡ none)
  unfolding check_all
  check_all-suc start i n h = ground arith

  check_all-Writable :
      (start i n : ℕ)
      → check_all mappings start i n ≡ none
      → (j : ℕ) → i ≤ j
      → j < i + n
      → Writable (mappings j ((start + j) % 65536))
  check_all-Writable start i zero h j k l = absurd (omega arith)
  check_all-Writable start i (suc n) h j k l =
      let (first, others) = check_all-suc start i n h in
      let later = check_all-Writable start (i + 1) n others j in
      elim (Bool-cases (i == j)) [
        | inl e ↦
            subst (λ j. Writable (mappings j ((start + j) % 65536))) ((==_iff i j).0 e)
              (check_write_permission-Writable _ first)
        | inr e ↦ later (ground arith) (ground arith)
      ]

  check_all-none :
      (start i n : ℕ)
      → ((j : ℕ) → i ≤ j → j < i + n → Writable (mappings j ((start + j) % 65536)))
      → check_all mappings start i n ≡ none
  unfolding check_all
  check_all-none start i zero w = refl
  check_all-none start i (suc n) w =
      rw (check_all, Writable-check_write_permission _ (w i (omega arith) (omega arith)))
        (check_all-none start (i + 1) n (λ j k l. w j (omega arith) (omega arith)))

  -- only a reply that passed the tests and the permission check is an acceptance
  pub accepted :
      (framed : Bool) (o : Option Exception) (e : Exception) (bytes : List ℕ)
      → (if framed then reply_to_write mappings o bytes else refuse e) ≡ accept bytes
      → (framed ≡ true) × (o ≡ none)
  unfolding reply_to_write accept refuse
  accepted true none e bytes h = (refl, refl)
  accepted true (some x) e bytes h = absurd (none-ne-some bytes (ap (λ r. r.bytes) h))
  accepted false o e bytes h = absurd (none-ne-some bytes (ap (λ r. r.bytes) h))

  -- The condition under which a write of several coils is let through: its quantity is from 1 to
  -- 1968, its byte count is one for each eight coils begun and no more than the bytes that follow,
  -- and every address that it names may be written to.
  abbrev pub CoilsWritable : ℕ → ℕ → ℕ → List ℕ → Type 0
  CoilsWritable start quantity byte_count rest =
      (1 ≤ quantity)
      × (quantity ≤ 1968)
      × (byte_count ≡ (quantity + 7) / 8)
      × (byte_count ≤ length rest)
      × ((j : ℕ) → j < quantity → Writable (mappings j ((start + j) % 65536)))

  abbrev coils_framed : ℕ → ℕ → List ℕ → Bool
  coils_framed quantity byte_count rest =
      not (ltb quantity 1 || ltb 1968 quantity)
      && not (
          not (byte_count == (quantity + 7) % 65536 / 8 % 256)
          || ltb (5 + length rest) ((5 + byte_count) % 256))

  coils_framed-le :
      (quantity byte_count : ℕ) (rest : List ℕ)
      → coils_framed quantity byte_count rest ≡ true
      → (1 ≤ quantity)
        × (quantity ≤ 1968)
        × (byte_count ≡ (quantity + 7) / 8)
        × (byte_count ≤ length rest)
  coils_framed-le quantity byte_count rest h = ground arith

  le-coils_framed :
      (quantity byte_count : ℕ) (rest : List ℕ)
      → 1 ≤ quantity
      → quantity ≤ 1968
      → byte_count ≡ (quantity + 7) / 8
      → byte_count ≤ length rest
      → coils_framed quantity byte_count rest ≡ true
  le-coils_framed quantity byte_count rest h1 h2 h3 h4 = ground arith

  if_flat :
      (p q : Bool) (x y : Reply fl)
      → (if p then x else (if q then x else y)) ≡ (if not p && not q then y else x)
  if_flat true q x y = refl
  if_flat false true x y = refl
  if_flat false false x y = refl

  handle_write_multiple_coils-cases :
      (a b c d byte_count : ℕ) (rest : List ℕ)
      → handle_write_multiple_coils mappings (a ∷ b ∷ c ∷ d ∷ byte_count ∷ rest) ≡ (
          if coils_framed (word c d) byte_count rest
          then reply_to_write mappings
              (check_all mappings (word a b) 0 (word c d))
              (a ∷ b ∷ c ∷ d ∷ [])
          else refuse illegal_data_value)
  unfolding handle_write_multiple_coils
  handle_write_multiple_coils-cases a b c d byte_count rest =
      if_flat (ltb (word c d) 1 || ltb 1968 (word c d))
        (not (byte_count == (word c d + 7) % 65536 / 8 % 256)
          || ltb (5 + length rest) ((5 + byte_count) % 256))
        (refuse illegal_data_value)
        (reply_to_write mappings (check_all mappings (word a b) 0 (word c d)) (a ∷ b ∷ c ∷ d ∷ []))

  -- A write of several coils, of five bytes or more, is accepted, with the first four bytes for an
  -- answer, exactly when its quantity is from 1 to 1968, its byte count is one for each eight
  -- coils begun and no more than the bytes that follow, and each address that it names is mapped,
  -- to a resource that is not read only.
  pub handle_write_multiple_coils_lem :
      (a b c d byte_count : ℕ) (rest : List ℕ)
      → (handle_write_multiple_coils mappings (a ∷ b ∷ c ∷ d ∷ byte_count ∷ rest)
          ≡ accept (a ∷ b ∷ c ∷ d ∷ []))
        ↔ CoilsWritable (word a b) (word c d) byte_count rest
  unfolding accept reply_to_write
  handle_write_multiple_coils_lem a b c d byte_count rest = (
    λ h.
        let (framed, permitted) =
          accepted (coils_framed (word c d) byte_count rest)
            (check_all mappings (word a b) 0 (word c d)) illegal_data_value _
            (sym (handle_write_multiple_coils-cases a b c d byte_count rest) ∙ h) in
        let (least, most, count, fits) = coils_framed-le (word c d) byte_count rest framed in
        (
          least,
          most,
          count,
          fits,
          λ j l. check_all-Writable (word a b) 0 (word c d) permitted j (omega arith) (omega arith),
        ),
    λ (least, most, count, fits, writable).
        handle_write_multiple_coils-cases a b c d byte_count rest
        ∙ rw
            (
              le-coils_framed _ byte_count rest least most count fits,
              check_all-none (word a b) 0 (word c d) (λ j k l. writable j (omega arith)),
            )
            refl,
  )
