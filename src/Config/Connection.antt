-- ===== src/Config/Connection.antt =====
-- The Modbus connection of a configuration: which ones the switch of Validate accepts, and what it
-- makes of them (internal/pkg/config/configuration.go).
use app_modbus_go.Prelude.{
  ◌<◌, ℕ, ◌≡◌, ◌≢◌, ◌↔◌, ◌⊎◌, inl, inr, refl, ap, String, true, false, none, arith, Bool-cases,
  eq_iff,
}
use app_modbus_go.Prelude.Int.{ℤ, pos, ltb_ℤ}
use app_modbus_go.Prelude.Eq.{ℕ_eq, String_eq, ◌==◌}
use app_modbus_go.Config.{
  ModbusTcpConfig, ModbusRtuConfig, ModbusConfig, text_or, positive_or, nonzero_or, tcp_defaults,
  rtu_defaults, validate_modbus,
}

pub text_or_nonempty : (d s : String) → (d == "") ≡ false → text_or d s ≢ ""
text_or_nonempty d s h = ground (arith, eq_iff s "", eq_iff d "")

pub positive_or_positive : (n : ℕ) (z : ℤ) → 0 < n → ltb_ℤ (pos 0) (positive_or (pos n) z) ≡ true
positive_or_positive n z h = ground arith

pub validate_modbus-none :
    (m : ModbusConfig) → ((validate_modbus m).1 ≡ none) ↔ (m.type_name ≡ "RTU" → m.rtu.port ≢ "")
unfolding validate_modbus
validate_modbus-none m = (accepts m, accepted m)
  where
    accepts :
        (m : ModbusConfig) → (validate_modbus m).1 ≡ none → m.type_name ≡ "RTU" → m.rtu.port ≢ ""
    accepts m h t p =
        let no_tcp : (m.type_name == "TCP") ≡ false = ap (λ s. s == "TCP") t in
        let is_rtu : (m.type_name == "RTU") ≡ true = ap (λ s. s == "RTU") t in
        let no_port : (m.rtu.port == "") ≡ true = ap (λ s. s == "") p in ground arith

    accepted :
        (m : ModbusConfig) → (m.type_name ≡ "RTU" → m.rtu.port ≢ "") → (validate_modbus m).1 ≡ none
    accepted m h =
        ground (arith, eq_iff m.type_name "RTU", eq_iff m.type_name "TCP", eq_iff m.rtu.port "")

-- What holds of the fields of a TCP and of an RTU connection after Validate.
abbrev pub TcpComplete : ModbusTcpConfig → Type 0
TcpComplete t = (t.host ≢ "") × (ltb_ℤ (pos 0) t.port ≡ true) × ((t.slave_id == 0) ≡ false)

abbrev pub RtuComplete : ModbusRtuConfig → Type 0
RtuComplete r =
    (r.port ≢ "")
    × (ltb_ℤ (pos 0) r.baud_rate ≡ true)
    × (ltb_ℤ (pos 0) r.data_bits ≡ true)
    × (r.parity ≢ "")
    × (ltb_ℤ (pos 0) r.stop_bits ≡ true)
    × ((r.slave_id == 0) ≡ false)

-- The connection that Validate leaves, by the type that the file gives.
abbrev pub Connected : String → ModbusConfig → Type 0
Connected given m =
    (given ≡ "TCP" → (m.type_name ≡ "TCP") × TcpComplete m.tcp)
    × (given ≡ "RTU" → (m.type_name ≡ "RTU") × RtuComplete m.rtu)

nonzero_or_nonzero : (d n : ℕ) → (d == 0) ≡ false → (nonzero_or d n == 0) ≡ false
nonzero_or_nonzero d n h = ground arith

pub validate_modbus-Connected :
    (m : ModbusConfig) → (validate_modbus m).1 ≡ none → Connected m.type_name (validate_modbus m).0
unfolding validate_modbus tcp_defaults rtu_defaults
validate_modbus-Connected m h = (
  λ t.
      let is_tcp : (m.type_name == "TCP") ≡ true = ap (λ s. s == "TCP") t in
      rw (validate_modbus, is_tcp)
        (
          t,
          (
            text_or_nonempty "0.0.0.0" m.tcp.host refl,
            positive_or_positive 502 m.tcp.port (omega arith),
            nonzero_or_nonzero 1 m.tcp.slave_id refl,
          ),
        ),
  λ t.
      let not_tcp : (m.type_name == "TCP") ≡ false = ap (λ s. s == "TCP") t in
      let is_rtu : (m.type_name == "RTU") ≡ true = ap (λ s. s == "RTU") t in
      let named = (validate_modbus-none m).0 h t in
      elim (Bool-cases (m.rtu.port == "")) [
        | inl empty ↦ absurd (named ((eq_iff m.rtu.port "").0 empty))
        | inr set ↦
            rw (validate_modbus, not_tcp, is_rtu, set)
              (
                t,
                (
                  named,
                  positive_or_positive 9600 m.rtu.baud_rate (omega arith),
                  positive_or_positive 8 m.rtu.data_bits (omega arith),
                  text_or_nonempty "N" m.rtu.parity refl,
                  positive_or_positive 1 m.rtu.stop_bits (omega arith),
                  nonzero_or_nonzero 1 m.rtu.slave_id refl,
                ),
              )
      ],
)

pub connection_type :
    (m : ModbusConfig)
    → ((validate_modbus m).0.type_name ≡ "TCP") ⊎ ((validate_modbus m).0.type_name ≡ "RTU")
unfolding validate_modbus
connection_type m = elim (Bool-cases (m.type_name == "TCP")) [
  | inl tcp ↦ inl (rw tcp ((eq_iff m.type_name "TCP").0 tcp))
  | inr no_tcp ↦ elim (Bool-cases (m.type_name == "RTU")) [
    | inl rtu ↦ elim (Bool-cases (m.rtu.port == "")) [
      | inl empty ↦ inr (rw (no_tcp, rtu, empty) ((eq_iff m.type_name "RTU").0 rtu))
      | inr set ↦ inr (rw (no_tcp, rtu, set) ((eq_iff m.type_name "RTU").0 rtu))
    ]
    | inr no_rtu ↦ inl (rw (no_tcp, no_rtu) refl)
  ]
]

pub validate_modbus_unknown :
    (m : ModbusConfig)
    → m.type_name ≢ "TCP"
    → m.type_name ≢ "RTU"
    → validate_modbus m ≡ (record m { type_name = "TCP" }, none)
unfolding validate_modbus
validate_modbus_unknown m h k =
    let no_tcp : (m.type_name == "TCP") ≡ false = ground (arith, eq_iff m.type_name "TCP") in
    let no_rtu : (m.type_name == "RTU") ≡ false = ground (arith, eq_iff m.type_name "RTU") in
    rw (no_tcp, no_rtu) refl
