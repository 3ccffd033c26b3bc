-- ===== src/Logger/Levels.antt =====
-- Which messages the logger (internal/pkg/logger/logger.go) writes, after any calls of SetLogLevel.
use app_modbus_go.Prelude.{
  ℕ, String, Bool, none, some, List, [], ◌∷◌, ◌≡◌, refl, sym, ap, ◌∙◌, inl, inr, if◌then◌else◌, leb,
  not, ◌&&◌, Bool-cases, Option-cases,
}
use app_modbus_go.Prelude.Eq.{String_eq, ◌==◌}
use app_modbus_go.Logger.{
  Level, level_order, parse_level, Sink, console, file, LoggerConfig, Logger, or_info,
  new_client_with_config, set_log_level, enabled, open_sinks, line, output,
}

-- The level after some calls of SetLogLevel: that of the last name that is one.
abbrev pub level_after : Level → List String → Level
level_after l [] = l
level_after l (name ∷ names) =
    level_after (elim (parse_level name) [ none ↦ l | some new ↦ new ]) names

abbrev pub after_sets : List String → Logger → Logger
after_sets [] l = l
after_sets (name ∷ names) l = after_sets names (set_log_level name l).0

set_log_level_lem :
    (name : String) (l : Logger)
    → (set_log_level name l).0
      ≡ record l { log_level = elim (parse_level name) [ none ↦ l.log_level | some new ↦ new ] }
unfolding set_log_level
set_log_level_lem name l = elim (Option-cases (parse_level name)) [
  | inl invalid ↦ rw (set_log_level, invalid) refl
  | inr (new, valid) ↦ rw (set_log_level, valid) refl
]

after_sets_lem :
    (names : List String) (l : Logger)
    → after_sets names l ≡ record l { log_level = level_after l.log_level names }
after_sets_lem [] l = refl
after_sets_lem (name ∷ names) l =
    ap (after_sets names) (set_log_level_lem name l)
    ∙ after_sets_lem names
        (record l { log_level = elim (parse_level name) [ none ↦ l.log_level | some new ↦ new ] })

-- Where the lines go: to the file if there is one that opens, and to the console if that is asked for
-- or there is no file.
abbrev pub destinations : Bool → LoggerConfig → List Sink
destinations opens config =
    if not (config.file_path == "") && opens
    then (if config.enable_console then console ∷ file ∷ [] else file ∷ [])
    else console ∷ []

destinations_lem :
    (opens : Bool) (config : LoggerConfig)
    → let l = new_client_with_config opens config in
      open_sinks l.has_file l.sinks ≡ destinations opens config
unfolding new_client_with_config
destinations_lem opens config = elim (Bool-cases (not (config.file_path == "") && opens)) [
  | inl both ↦ elim (Bool-cases config.enable_console) [
    | inl wanted ↦ rw (both, wanted) refl
    | inr unwanted ↦ rw (both, unwanted) refl
  ]
  | inr alone ↦ elim (Bool-cases config.enable_console) [
    | inl wanted ↦ rw (alone, wanted) refl
    | inr unwanted ↦ rw (alone, unwanted) refl
  ]
]

module _ {A : Type 0} (show : A → List ℕ) (sprintf : List ℕ → List A → List ℕ)
    (pad : ℕ → List ℕ → List ℕ) where
  -- After any calls of SetLogLevel a message is written exactly if its level is at least that of the
  -- last call with a valid name, or, without one, that of the configuration, which is INFO where
  -- its name is not valid; and the line goes to the file, if one is named and opens, and to the
  -- console, if that is asked for or there is no such file.
  pub output_lem :
      (opens : Bool) (config : LoggerConfig) (names : List String) (level : Level)
      (time source : List ℕ) (formatted : Bool) (msg : List ℕ) (args : List A)
      → output show sprintf pad level time source formatted msg args
          (after_sets names (new_client_with_config opens config))
        ≡ (if leb
              (level_order (level_after (or_info (parse_level config.log_level)) names))
              (level_order level)
            then (
              destinations opens config,
              line show sprintf pad level time source formatted msg args,
            )
            else ([], []))
  unfolding output enabled new_client_with_config
  output_lem opens config names level time source formatted msg args =
      rw (after_sets_lem names (new_client_with_config opens config))
        (rw (sym (destinations_lem opens config)) refl)
