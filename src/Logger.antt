-- ===== src/Logger.antt =====
-- The logger (internal/pkg/logger/logger.go): its levels, where its lines go, and what stands in one.
-- A text is the list of its bytes. The time, the caller and the formatting of package fmt are
-- parameters; so is whether the log file opens.
pub mod Levels
use app_modbus_go.Prelude.{
  ℕ, ◌+◌, ◌-◌, String, Bool, true, false, not, ◌&&◌, ◌||◌, Option, none, some, List, [], ◌∷◌, ◌++◌,
  map, if◌then◌else◌, leb, length, drop,
}
use app_modbus_go.Prelude.Int.{ℤ, pos}
use app_modbus_go.Prelude.Eq.{ℕ_eq, String_eq, ◌==◌}
use app_modbus_go.ValueType.{codes, same}

pub data Level : Type 0 where
  trace debug info warn error : Level

abbrev pub level_name : Level → List ℕ
level_name trace = codes "TRACE"
level_name debug = codes "DEBUG"
level_name info = codes "INFO"
level_name warn = codes "WARN"
level_name error = codes "ERROR"

-- levelOrder
abbrev pub level_order : Level → ℕ
level_order trace = 0
level_order debug = 1
level_order info = 2
level_order warn = 3
level_order error = 4

abbrev pub log_levels : List Level
log_levels = trace ∷ debug ∷ info ∷ warn ∷ error ∷ []

-- `strings.ToUpper` of one code point, up to what a comparison with an ASCII text can see: the small
-- ASCII letters, and the two others whose upper case is ASCII (U+0131 and U+017F).
unfoldable pub to_upper : ℕ → ℕ
to_upper c =
    if leb 97 c && leb c 122
    then c - 32
    else if c == 0x131
    then 0x49
    else if c == 0x17f
    then 0x53
    else c

-- the loop of isValidLogLevel, with the level that it finds
unfoldable pub find_level : List ℕ → List Level → Option Level
unfolding same
find_level name [] = none
find_level name (l ∷ ls) =
    let rest = find_level name ls in if same (level_name l) name then some l else rest

-- isValidLogLevel, with the level
unfoldable pub parse_level : String → Option Level
unfolding find_level to_upper
parse_level s = find_level (map to_upper (codes s)) log_levels

pub data Sink : Type 0 where
  console file : Sink

pub record LoggerConfig : Type 0 where
  pub log_level : String
  pub file_path : String
  pub file_max_size : ℤ
  pub enable_console : Bool

pub record Logger : Type 0 where
  pub log_level : Level
  pub file_path : String
  -- what the writer writes to, and whether `fileHandle` is not nil
  pub sinks : List Sink
  pub has_file : Bool

abbrev pub or_info : Option Level → Level
or_info none = info
or_info (some l) = l

-- NewClientWithConfig, where the log file opens or not
unfoldable pub new_client_with_config : Bool → LoggerConfig → Logger
unfolding parse_level
new_client_with_config opens config =
    let has_file = not (config.file_path == "") && opens in
    record {
      log_level = or_info (parse_level config.log_level);
      file_path = config.file_path;
      sinks =
          if config.enable_console
          then (if has_file then console ∷ file ∷ [] else console ∷ [])
          else (if has_file then file ∷ [] else console ∷ []);
      has_file = has_file;
    }

-- NewClient and NewClientWithFile
unfoldable pub new_client : String → Logger
unfolding new_client_with_config
new_client log_level =
    new_client_with_config false (record {
      log_level = log_level;
      file_path = "";
      file_max_size = pos 0;
      enable_console = true;
    })

unfoldable pub new_client_with_file : Bool → String → String → Logger
unfolding new_client_with_config
new_client_with_file opens log_level path = new_client_with_config opens (record {
  log_level = log_level;
  file_path = path;
  file_max_size = pos 0;
  enable_console = true;
})

-- Close
unfoldable pub close : Logger → Logger
close l = record l { has_file = false }

-- SetLogLevel, and whether it returns no error
unfoldable pub set_log_level : String → Logger → Logger × Bool
set_log_level name l = elim (parse_level name) [
  | none ↦ (l, false)
  | some level ↦ (record l { log_level = level }, true)
]

unfoldable pub enabled : Level → Logger → Bool
enabled target l = leb (level_order l.log_level) (level_order target)

-- the sinks that take a line: a file that was closed does not
abbrev pub open_sinks : Bool → List Sink → List Sink
open_sinks has_file [] = []
open_sinks has_file (console ∷ s) = console ∷ open_sinks has_file s
open_sinks has_file (file ∷ s) =
    let rest = open_sinks has_file s in if has_file then file ∷ rest else rest

-- `strings.ReplaceAll(s, "\"", "'")`
unfoldable pub no_quotes : List ℕ → List ℕ
no_quotes [] = []
no_quotes (c ∷ s) = (if c == 34 then 39 else c) ∷ no_quotes s

-- a key, renamed where it would be taken for a field of the line
unfoldable pub rename_key : List ℕ → List ℕ
rename_key k =
    if same k (codes "level")
      || same k (codes "ts")
      || same k (codes "source")
      || same k (codes "msg")
    then codes "extra_" ++ k
    else k

abbrev pub icon : Level → List ℕ
icon trace = 0xf0 ∷ 0x9f ∷ 0x9f ∷ 0xa3 ∷ []
icon debug = 0xf0 ∷ 0x9f ∷ 0x9f ∷ 0xa6 ∷ []
icon info = 0xf0 ∷ 0x9f ∷ 0x9f ∷ 0xa9 ∷ []
icon warn = 0xf0 ∷ 0x9f ∷ 0x9f ∷ 0xa8 ∷ []
icon error = 0xf0 ∷ 0x9f ∷ 0x9f ∷ 0xa5 ∷ []

abbrev pub concat : List (List ℕ) → List ℕ
concat [] = []
concat (t ∷ ts) = t ++ concat ts

-- `show` is `%v`, `sprintf` is fmt.Sprintf, and `pad` is `%-*s`.
module _ {A : Type 0} (show : A → List ℕ) (sprintf : List ℕ → List A → List ℕ)
    (pad : ℕ → List ℕ → List ℕ) where
  -- the loop over the pairs of arguments; an odd one is paired with the empty text
  unfoldable pub extra_pairs : List A → List ℕ
  unfolding no_quotes rename_key
  extra_pairs [] = []
  extra_pairs (k ∷ []) = codes " " ++ (rename_key (show k) ++ codes "=")
  extra_pairs (k ∷ v ∷ rest) =
      codes " " ++ (rename_key (show k) ++ (codes "=" ++ (no_quotes (show v) ++ extra_pairs rest)))

  -- the line of output
  unfoldable pub line : Level → List ℕ → List ℕ → Bool → List ℕ → List A → List ℕ
  unfolding extra_pairs
  line level time source formatted msg args =
      let rendered = if formatted then sprintf msg args else msg in
      let extra = if formatted then [] else extra_pairs args in
      let short = drop (length source - 30) source in
      concat (
        icon level
        ∷ codes " ["
        ∷ pad 5 (level_name level)
        ∷ codes "] [ts="
        ∷ time
        ∷ codes "] (source="
        ∷ pad 30 short
        ∷ codes ") msg=\""
        ∷ no_quotes rendered
        ∷ codes "\""
        ∷ extra
        ∷ (10 ∷ [])
        ∷ [])

  -- output: the sinks that get the line, and the line
  unfoldable pub output :
      Level → List ℕ → List ℕ → Bool → List ℕ → List A → Logger → List Sink × List ℕ
  unfolding line enabled
  output level time source formatted msg args l =
      if enabled level l
      then (open_sinks l.has_file l.sinks, line level time source formatted msg args)
      else ([], [])
