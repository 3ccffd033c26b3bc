-- ===== src/Server/Writes.antt =====
-- The writes of a single coil and of registers (internal/pkg/modbusserver/server.go): what a success says of
-- the addresses written to.
use app_modbus_go.Prelude.{
  ℕ, ◌≡◌, ◌↔◌, ◌⊎◌, refl, ◌∙◌, sym, Bool, true, false, not, ◌&&◌, Option, none, some, List, [], ◌∷◌,
  arith, if◌then◌else◌, Bool-cases, inl, inr,
}
use app_modbus_go.Prelude.Eq.{ℕ_eq, String_eq, ◌==◌}
use app_modbus_go.Value.{Floats}
use app_modbus_go.Resource.{ResourceMapping, SouthResource}
use app_modbus_go.Server.{
  Reply, Mappings, illegal_data_value, illegal_data_address, word, refuse, accept,
  check_write_permission, reply_to_write, handle_write_single_coil, handle_write_single_register,
  handle_write_multiple_registers,
}
use app_modbus_go.Server.CoilWrites.{
  Writable, check_write_permission-Writable, Writable-check_write_permission, accepted,
}

module _ {fl : Floats} (mappings : Mappings fl) where
  if_not : (p : Bool) (x y : Reply fl) → (if p then x else y) ≡ (if not p then y else x)
  if_not true x y = refl
  if_not false x y = refl

  is_coil_value :
      (v : ℕ) → (not (not (v == 0) && not (v == 0xff00)) ≡ true) ↔ ((v ≡ 0) ⊎ (v ≡ 0xff00))
  is_coil_value v = (coil_value v, value_coil v)
    where
      coil_value : (v : ℕ) → not (not (v == 0) && not (v == 0xff00)) ≡ true → (v ≡ 0) ⊎ (v ≡ 0xff00)
      coil_value v h = ground arith

      value_coil : (v : ℕ) → (v ≡ 0) ⊎ (v ≡ 0xff00) → not (not (v == 0) && not (v == 0xff00)) ≡ true
      value_coil v (inl e) = rw e refl
      value_coil v (inr e) = rw e refl

  -- A write of a single coil, of four bytes or more, is accepted, with the whole request for an
  -- answer, exactly when the value is 0x0000 or 0xff00 and the address is mapped, to a resource
  -- that is not read only.
  pub handle_write_single_coil_lem :
      (a b c d : ℕ) (rest : List ℕ)
      → (handle_write_single_coil mappings (a ∷ b ∷ c ∷ d ∷ rest) ≡ accept (a ∷ b ∷ c ∷ d ∷ rest))
        ↔ (((word c d ≡ 0) ⊎ (word c d ≡ 0xff00)) × Writable (mappings 0 (word a b)))
  unfolding handle_write_single_coil accept reply_to_write
  handle_write_single_coil_lem a b c d rest =
      let allowed = check_write_permission (mappings 0 (word a b)) in
      let flat =
        if_not (not (word c d == 0) && not (word c d == 0xff00)) (refuse illegal_data_value)
          (reply_to_write mappings allowed (a ∷ b ∷ c ∷ d ∷ rest)) in
      (
        λ h.
            let (is_value, permitted) =
              accepted mappings _ allowed illegal_data_value _ (sym flat ∙ h) in
            ((is_coil_value (word c d)).0 is_value, check_write_permission-Writable _ permitted),
        λ (is_value, writable).
            flat
            ∙ rw ((is_coil_value (word c d)).1 is_value, Writable-check_write_permission _ writable)
                refl,
      )

  -- A write of a single register, of four bytes or more, is accepted, with the whole request for
  -- an answer, exactly when the address is mapped, to a resource that is not read only.
  pub handle_write_single_register_lem :
      (a b c d : ℕ) (rest : List ℕ)
      → (handle_write_single_register mappings (a ∷ b ∷ c ∷ d ∷ rest)
          ≡ accept (a ∷ b ∷ c ∷ d ∷ rest))
        ↔ Writable (mappings 0 (word a b))
  unfolding handle_write_single_register accept reply_to_write
  handle_write_single_register_lem a b c d rest =
      let allowed = check_write_permission (mappings 0 (word a b)) in
      (
        λ h.
            check_write_permission-Writable _
              ((accepted mappings true allowed illegal_data_value _ h).1),
        λ writable. rw (Writable-check_write_permission _ writable) refl,
      )

  refused_address :
      (o : Option (ResourceMapping fl)) (bytes : List ℕ)
      → ¬ Writable o
      → reply_to_write mappings (check_write_permission o) bytes ≡ refuse illegal_data_address
  unfolding check_write_permission reply_to_write
  refused_address none bytes h = refl
  refused_address (some m) bytes h = go m.south_resource refl
    where
      go :
          (s : Option (SouthResource fl))
          → m.south_resource ≡ s
          → reply_to_write mappings (check_write_permission (some m)) bytes
            ≡ refuse illegal_data_address
      go none e = absurd (h (Writable-some e))
        where
          Writable-some : m.south_resource ≡ none → Writable (some m)
          Writable-some e = check_write_permission-Writable (some m) (rw e refl)
      go (some s) e = elim (Bool-cases (s.read_write == "R")) [
        | inl is_read_only ↦ rw (e, is_read_only) refl
        | inr other ↦ absurd (h (check_write_permission-Writable (some m) (rw (e, other) refl)))
      ]

  -- Where an address may not be written to, being not mapped or mapped to a read-only resource, a
  -- write of a single register at it, of four bytes or more, is refused as an illegal address, but
  -- a write of several registers that starts at it, of five bytes or more, is accepted, whatever
  -- its quantity and its bytes.
  pub handle_write_multiple_registers_unchecked :
      (a b : ℕ)
      → ¬ Writable (mappings 0 (word a b))
      → ((c d : ℕ) (rest : List ℕ)
          → handle_write_single_register mappings (a ∷ b ∷ c ∷ d ∷ rest)
            ≡ refuse illegal_data_address)
        × ((c d e : ℕ) (rest : List ℕ)
            → handle_write_multiple_registers mappings (a ∷ b ∷ c ∷ d ∷ e ∷ rest)
              ≡ accept (a ∷ b ∷ c ∷ d ∷ []))
  unfolding handle_write_single_register handle_write_multiple_registers
  handle_write_multiple_registers_unchecked a b h =
      (λ c d rest. refused_address _ _ h, λ c d e rest. refl)
