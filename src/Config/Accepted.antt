-- ===== src/Config/Accepted.antt =====
-- Which configurations Validate accepts, and what it makes of them.
use app_modbus_go.Prelude.{
  ◌≡◌, ◌≢◌, ◌↔◌, ◌⊎◌, inl, inr, refl, sym, ap, ◌∙◌, Bool, true, false, not, ◌&&◌, ◌||◌, Option,
  none, some, arith, Bool-cases, eq_iff,
}
use mathlib.Core.Option.{none-ne-some}
use mathlib.Core.Path.{subst}
use app_modbus_go.Prelude.Int.{pos, ltb_ℤ}
use app_modbus_go.Prelude.Eq.{ℕ_eq, String_eq, ◌==◌}
use app_modbus_go.Config.{
  AppConfig, ModbusConfig, ConfigError, positive_or, validate_modbus, fill_defaults, finish,
  validate,
}
use app_modbus_go.Config.Connection.{
  text_or_nonempty, positive_or_positive, validate_modbus-none, Connected,
  validate_modbus-Connected, connection_type, validate_modbus_unknown,
}

-- What Validate asks of a configuration.
abbrev pub Acceptable : AppConfig → Type 0
Acceptable c =
    (c.node_id ≢ "")
    × (c.mqtt.broker ≢ "")
    × (c.mqtt.client_id ≢ "")
    × (ltb_ℤ c.mqtt.qos (pos 0) ≡ false)
    × (ltb_ℤ (pos 2) c.mqtt.qos ≡ false)
    × (c.modbus.type_name ≡ "RTU" → c.modbus.rtu.port ≢ "")

finish-none : (c : AppConfig) (r : ModbusConfig × Option ConfigError) → (finish c r).1 ≡ r.1
unfolding finish
finish-none c (m, some e) = refl
finish-none c (m, none) = refl

-- What holds of every configuration that the service runs with.
abbrev pub Complete : AppConfig → Type 0
Complete d =
    (ltb_ℤ (pos 0) d.mqtt.workers ≡ true)
    × (ltb_ℤ (pos 0) d.mqtt.keep_alive ≡ true)
    × ((d.modbus.type_name ≡ "TCP") ⊎ (d.modbus.type_name ≡ "RTU"))
    × (d.cache.default_ttl ≢ "")
    × (d.cache.cleanup_interval ≢ "")
    × (d.heartbeat.interval ≢ "")
    × (d.heartbeat.timeout ≢ "")
    × (d.writable.log_level ≢ "")
    × (d.service.host ≢ "")
    × (ltb_ℤ (pos 0) d.service.port ≡ true)

finish-modbus :
    (d : AppConfig) (r : ModbusConfig × Option ConfigError) → (finish d r).0.modbus ≡ r.0
unfolding finish fill_defaults
finish-modbus d (m, some e) = refl
finish-modbus d (m, none) = refl

finish-Complete :
    (d : AppConfig) (r : ModbusConfig × Option ConfigError)
    → ltb_ℤ (pos 0) d.mqtt.workers ≡ true
    → ltb_ℤ (pos 0) d.mqtt.keep_alive ≡ true
    → (r.0.type_name ≡ "TCP") ⊎ (r.0.type_name ≡ "RTU")
    → (finish d r).1 ≡ none
    → Complete (finish d r).0
unfolding finish fill_defaults
finish-Complete d (m, some e) workers keep_alive connection h = absurd (none-ne-some e (sym h))
finish-Complete d (m, none) workers keep_alive connection h = (
  workers,
  keep_alive,
  connection,
  text_or_nonempty "30s" d.cache.default_ttl refl,
  text_or_nonempty "5m" d.cache.cleanup_interval refl,
  text_or_nonempty "2m" d.heartbeat.interval refl,
  text_or_nonempty "10s" d.heartbeat.timeout refl,
  text_or_nonempty "INFO" d.writable.log_level refl,
  text_or_nonempty "localhost" d.service.host refl,
  positive_or_positive 59711 d.service.port (omega arith),
)

module _ (c : AppConfig) where
  -- Validate in front of the switch, and behind it
  abbrev in_front : Bool
  in_front =
      not (c.node_id == "")
      && (not (c.mqtt.broker == "")
          && (not (c.mqtt.client_id == "")
              && not (ltb_ℤ c.mqtt.qos (pos 0) || ltb_ℤ (pos 2) c.mqtt.qos)))

  abbrev with_numbers : AppConfig
  with_numbers = record c {
    mqtt = record c.mqtt {
      workers = positive_or (pos 4) c.mqtt.workers;
      keep_alive = positive_or (pos 60) c.mqtt.keep_alive;
    };
  }

  validate-passed : in_front ≡ true → validate c ≡ finish with_numbers (validate_modbus c.modbus)
  unfolding validate
  validate-passed h = ground arith

  validate-failed : in_front ≡ false → (validate c).1 ≢ none
  unfolding validate
  validate-failed h = ground arith

  in_front-true :
      in_front ≡ true
      → (c.node_id ≢ "")
        × (c.mqtt.broker ≢ "")
        × (c.mqtt.client_id ≢ "")
        × (ltb_ℤ c.mqtt.qos (pos 0) ≡ false)
        × (ltb_ℤ (pos 2) c.mqtt.qos ≡ false)
  in_front-true h = (
    λ e. ground (arith, eq_iff c.node_id ""),
    λ e. ground (arith, eq_iff c.mqtt.broker ""),
    λ e. ground (arith, eq_iff c.mqtt.client_id ""),
    ground arith,
    ground arith,
  )

  true-in_front :
      c.node_id ≢ ""
      → c.mqtt.broker ≢ ""
      → c.mqtt.client_id ≢ ""
      → ltb_ℤ c.mqtt.qos (pos 0) ≡ false
      → ltb_ℤ (pos 2) c.mqtt.qos ≡ false
      → in_front ≡ true
  true-in_front h1 h2 h3 h4 h5 =
      ground (arith, eq_iff c.node_id "", eq_iff c.mqtt.broker "", eq_iff c.mqtt.client_id "")

  -- Validate reports no error exactly for the configurations in which the node, the broker and the
  -- client have a name, the QoS is from 0 to 2, and an RTU connection has a port.
  pub validate-Acceptable : ((validate c).1 ≡ none) ↔ Acceptable c
  validate-Acceptable = (
    λ h. elim (Bool-cases in_front) [
      | inl passed ↦
          let (node, broker, client, low, high) = in_front-true passed in
          let same : (validate c).1 ≡ (validate_modbus c.modbus).1 =
            ap (λ r. r.1) (validate-passed passed)
            ∙ finish-none with_numbers (validate_modbus c.modbus) in
          (node, broker, client, low, high, (validate_modbus-none c.modbus).0 (sym same ∙ h))
      | inr refused ↦ absurd (validate-failed refused h)
    ],
    λ (node, broker, client, low, high, modbus).
        let passed = true-in_front node broker client low high in
        ap (λ r. r.1) (validate-passed passed)
        ∙ finish-none with_numbers (validate_modbus c.modbus)
        ∙ (validate_modbus-none c.modbus).1 modbus,
  )

  -- Validate leaves each configuration that it accepts complete: the numbers of workers and of
  -- seconds of the keep-alive time are positive, the connection is TCP or RTU, and the durations, the log
  -- level and the service's host and port are set. A connection whose type is given as TCP stays
  -- TCP and has a host, a positive port and a slave number other than 0; one given as RTU stays
  -- RTU and has a port, a parity, positive baud rate, data bits and stop bits, and a slave number
  -- other than 0.
  pub validate-Complete :
      (validate c).1 ≡ none
      → Complete (validate c).0 × Connected c.modbus.type_name (validate c).0.modbus
  validate-Complete h = elim (Bool-cases in_front) [
    | inl passed ↦
        let same = validate-passed passed in
        let fine : (finish with_numbers (validate_modbus c.modbus)).1 ≡ none =
          sym (ap (λ r. r.1) same) ∙ h in
        (
          subst (λ r. Complete r.0) (sym same)
              (finish-Complete with_numbers (validate_modbus c.modbus)
                (positive_or_positive 4 c.mqtt.workers (omega arith))
                (positive_or_positive 60 c.mqtt.keep_alive (omega arith)) (connection_type c.modbus)
                fine),
          subst (Connected c.modbus.type_name)
              (sym
                (ap (λ r. r.0.modbus) same ∙ finish-modbus with_numbers (validate_modbus c.modbus)))
              (validate_modbus-Connected c.modbus
                (sym (finish-none with_numbers (validate_modbus c.modbus)) ∙ fine)),
        )
    | inr refused ↦ absurd (validate-failed refused h)
  ]

  -- A configuration that Validate accepts and whose connection type is neither TCP nor RTU becomes
  -- a TCP one with no default: its host, port and slave number stay as they are.
  pub validate_unknown_type :
      (validate c).1 ≡ none
      → c.modbus.type_name ≢ "TCP"
      → c.modbus.type_name ≢ "RTU"
      → ((validate c).0.modbus.type_name ≡ "TCP") × ((validate c).0.modbus.tcp ≡ c.modbus.tcp)
  validate_unknown_type h no_tcp no_rtu = elim (Bool-cases in_front) [
    | inl passed ↦
        let same : (validate c).0.modbus ≡ record c.modbus { type_name = "TCP" } =
          ap (λ r. r.0.modbus) (validate-passed passed)
          ∙ finish-modbus with_numbers (validate_modbus c.modbus)
          ∙ ap (λ r. r.0) (validate_modbus_unknown c.modbus no_tcp no_rtu) in
        (ap (λ m. m.type_name) same, ap (λ m. m.tcp) same)
    | inr refused ↦ absurd (validate-failed refused h)
  ]
