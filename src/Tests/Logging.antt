-- ===== src/Tests/Logging.antt =====
-- The theorem on the logger at a sample configuration.
use app_modbus_go.Prelude.{
  ℕ, String, true, false, List, [], ◌∷◌, ◌++◌, ◌≡◌, refl, if◌then◌else◌, leb,
}
use app_modbus_go.Prelude.Int.{pos}
use app_modbus_go.Logger.{
  debug, level_order, parse_level, LoggerConfig, or_info, new_client_with_config, line, output,
}
use app_modbus_go.Logger.Levels.{level_after, after_sets, destinations, output_lem}

abbrev config : LoggerConfig
config = record {
  log_level = "Warn";
  file_path = "log/app.log";
  file_max_size = pos 0;
  enable_console = true;
}

abbrev names : List String
names = "debug" ∷ "loud" ∷ []

abbrev show : ℕ → List ℕ
show n = n ∷ []

abbrev sprintf : List ℕ → List ℕ → List ℕ
sprintf msg args = msg ++ args

abbrev pad : ℕ → List ℕ → List ℕ
pad n s = s

output_lem_example :
    output show sprintf pad debug [] [] false
      (65 ∷ [])
      (1 ∷ 2 ∷ [])
      (after_sets names (new_client_with_config true config))
    ≡ (if leb (level_order (level_after (or_info (parse_level "Warn")) names)) (level_order debug)
        then (
          destinations true config,
          line show sprintf pad debug [] [] false (65 ∷ []) (1 ∷ 2 ∷ []),
        )
        else ([], []))
output_lem_example =
    output_lem show sprintf pad true config names debug [] [] false (65 ∷ []) (1 ∷ 2 ∷ [])

-- "debug" is a level and "loud" is none
level_after_debug : level_after (or_info (parse_level "Warn")) names ≡ debug
unfolding parse_level
level_after_debug = refl
