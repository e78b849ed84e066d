-- ===== src/Logger.antt =====
-- src/logger.c and include/logger.h: the global logger and its functions. What `vfprintf` makes of a
-- format and `strftime` of the time are arguments; `localtime` is taken not to fail.
pub mod Levels
pub mod Hexdump
pub mod Readback
mod Tests
use packet_analyzer.Prelude.{
  ℕ, ◌+◌, Bool, true, false, Option, none, some, List, [], ◌∷◌, ◌++◌, ◌&&◌, ◌>>=◌, ltb,
  if◌then◌else◌, codes,
}
use packet_analyzer.Metrics.Metadata.{Text}

-- `log_level_t`. A C enumeration can hold other numbers; they count from 5.
pub data Level : Type 0 where
  debug info warn error critical : Level
  other : ℕ → Level

abbrev pub rank : Level → ℕ
rank debug = 0
rank info = 1
rank warn = 2
rank error = 3
rank critical = 4
rank (other n) = 5 + n

-- `log_level_to_string`
abbrev pub log_level_to_string : Level → Text
log_level_to_string debug = codes "DEBUG"
log_level_to_string info = codes "INFO"
log_level_to_string warn = codes "WARN"
log_level_to_string error = codes "ERROR"
log_level_to_string critical = codes "CRITICAL"
log_level_to_string (other n) = codes "UNKNOWN"

-- An escape sequence of the terminal.
abbrev pub escape : Text → Text
escape s = 27 ∷ s

-- `get_color_code`
abbrev pub get_color_code : Level → Text
get_color_code debug = escape (codes "[36m")
get_color_code info = escape (codes "[32m")
get_color_code warn = escape (codes "[33m")
get_color_code error = escape (codes "[31m")
get_color_code critical = escape (codes "[35m")
get_color_code (other n) = escape (codes "[0m")

abbrev pub no_color : Text
no_color = escape (codes "[0m")

pub data Stream : Type 0 where
  stdout stderr : Stream
  file : Text → Stream

-- What the program does to its streams, in order.
pub data Action : Type 0 where
  print : Stream → Text → Action
  flush close : Stream → Action

-- `logger_config_t`
pub record Config : Type 0 where
  pub output_file : Stream
  pub min_level : Level
  pub use_colors : Bool
  pub use_timestamps : Bool

-- `global_logger`, and the actions so far.
pub record State : Type 0 where
  pub global_logger : Option Config
  pub actions : List Action

abbrev pub is_stdout : Stream → Bool
is_stdout stdout = true
is_stdout _ = false

abbrev pub emit : List Action → State → State
emit more s = record s { actions = s.actions ++ more }

-- The `fprintf` under `use_colors && out == stdout`, and the one under `use_timestamps`.
abbrev pub colored : Config → Text → List Action
colored c code =
    if c.use_colors && is_stdout c.output_file then print c.output_file code ∷ [] else []

abbrev pub bracketed : Text → Text
bracketed s = codes "[" ++ (s ++ codes "] ")

abbrev pub stamped : Config → Text → List Action
stamped c timestamp =
    if c.use_timestamps then print c.output_file (bracketed timestamp) ∷ [] else []

-- A message behind its level and before its line's end.
abbrev pub message_line : Config → Text → Text → List Action
message_line c level message =
    print c.output_file level ∷ print c.output_file message ∷ print c.output_file (codes "\n") ∷ []

-- `logger_cleanup`
unfoldable pub logger_cleanup : State → State
logger_cleanup s = elim s.global_logger [
  | none ↦ s
  | some c ↦ record {
    global_logger = none;
    actions = s.actions ++ (if is_stdout c.output_file then [] else close c.output_file ∷ []);
  }
]

-- The functions for one level each: silent without a logger, or below its level.
unfoldable pub logger_debug : Text → Text → State → State
logger_debug timestamp message s = elim s.global_logger [
  | none ↦ s
  | some c ↦
      if ltb (rank debug) (rank c.min_level)
      then s
      else emit
          (colored c (get_color_code debug)
            ++ (stamped c timestamp
                ++ (message_line c (codes "[DEBUG] ") message
                    ++ (colored c no_color ++ (flush c.output_file ∷ [])))))
          s
]

unfoldable pub logger_info : Text → Text → State → State
logger_info timestamp message s = elim s.global_logger [
  | none ↦ s
  | some c ↦
      if ltb (rank info) (rank c.min_level)
      then s
      else emit
          (colored c (get_color_code info)
            ++ (stamped c timestamp
                ++ (message_line c (codes "[INFO] ") message
                    ++ (colored c no_color ++ (flush c.output_file ∷ [])))))
          s
]

unfoldable pub logger_warn : Text → Text → State → State
logger_warn timestamp message s = elim s.global_logger [
  | none ↦ s
  | some c ↦
      if ltb (rank warn) (rank c.min_level)
      then s
      else emit
          (colored c (get_color_code warn)
            ++ (stamped c timestamp
                ++ (message_line c (codes "[WARN] ") message
                    ++ (colored c no_color ++ (flush c.output_file ∷ [])))))
          s
]

unfoldable pub logger_error : Text → Text → State → State
logger_error timestamp message s = elim s.global_logger [
  | none ↦ s
  | some c ↦
      if ltb (rank error) (rank c.min_level)
      then s
      else emit
          (colored c (get_color_code error)
            ++ (stamped c timestamp
                ++ (message_line c (codes "[ERROR] ") message
                    ++ (colored c no_color ++ (flush c.output_file ∷ [])))))
          s
]

-- No test of the level.
unfoldable pub logger_critical : Text → Text → State → State
logger_critical timestamp message s = elim s.global_logger [
  | none ↦ s
  | some c ↦
      emit
        (colored c (get_color_code critical)
          ++ (stamped c timestamp
              ++ (message_line c (codes "[CRITICAL] ") message
                  ++ (colored c no_color ++ (flush c.output_file ∷ [])))))
        s
]

-- The log file, or standard output.
abbrev pub open_log : Bool → Option Text → Stream × List Action
open_log fopen none = (stdout, [])
open_log fopen (some name) =
    if fopen
    then (file name, [])
    else (stdout, print stderr (codes "Failed to open log file: " ++ (name ++ codes "\n")) ∷ [])

-- `logger_init`. Whether `malloc` and `fopen` succeed are arguments.
unfoldable pub logger_init : Bool → Bool → Option Text → Level → Text → State → State
logger_init malloc fopen log_file min_level timestamp s =
    let cleaned = logger_cleanup s in
    if malloc
    then (let opened = open_log fopen log_file in
        logger_info timestamp (codes "Logger initialized") (record {
          global_logger = some (record {
            output_file = opened.0;
            min_level = min_level;
            use_colors = true;
            use_timestamps = true;
          });
          actions = cleaned.actions ++ opened.1;
        }))
    else emit (print stderr (codes "Failed to allocate memory for logger\n") ∷ []) cleaned

-- `logger_log`: without a logger it sets one up first. `none` is the null pointer it then follows if
-- there was no memory.
unfoldable pub logger_log : Bool → Level → Text → Text → State → Option State
logger_log malloc level timestamp message s =
    let ready : State = elim s.global_logger [
      | none ↦ logger_init malloc true none info timestamp s
      | some _ ↦ s
    ] in
    ready.global_logger >>= λ c. some (
      if ltb (rank level) (rank c.min_level)
      then ready
      else emit
          (colored c (get_color_code level)
            ++ (stamped c timestamp
                ++ (message_line c (bracketed (log_level_to_string level)) message
                    ++ (colored c no_color ++ (flush c.output_file ∷ [])))))
          ready)
