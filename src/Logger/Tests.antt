-- ===== src/Logger/Tests.antt =====
-- Concrete runs of the logger.
use packet_analyzer.Prelude.{
  ◌≡◌, refl, arith, true, none, some, [], ◌∷◌, codes, ◌≢◌, ◌⊎◌, ◌++◌, List, ℕ,
}
use packet_analyzer.Metrics.Metadata.{Text}
use packet_analyzer.Logger.{
  colored, stamped, get_color_code, no_color, debug, info, warn, error, critical, Config, State,
  file, print, flush, close, emit, logger_init, logger_info, logger_cleanup, logger_log,
  logger_debug, logger_warn, logger_error, logger_critical,
}
use packet_analyzer.Logger.Levels.{logger_log-agrees}
use packet_analyzer.Logger.Hexdump.{
  offset_column, hex_bytes, high_digits, printables, row, dump_loop, logger_hexdump,
}
use packet_analyzer.Logger.Readback.{offset, read_dump, logger_hexdump-Bytes}

abbrev off : State
off = record { global_logger = none; actions = [] }

abbrev to_file : Config
to_file = record {
  output_file = file (codes "a.log");
  min_level = warn;
  use_colors = true;
  use_timestamps = true;
}

abbrev on : State
on = record { global_logger = some to_file; actions = [] }

-- The first message of a new logger, and the file's end.
init_and_cleanup :
    (logger_cleanup (logger_init true true (some (codes "a.log")) info (codes "12:00") off)).actions
    ≡ print (file (codes "a.log")) (codes "[12:00] ")
      ∷ print (file (codes "a.log")) (codes "[INFO] ")
      ∷ print (file (codes "a.log")) (codes "Logger initialized")
      ∷ print (file (codes "a.log")) (codes "\n")
      ∷ flush (file (codes "a.log"))
      ∷ close (file (codes "a.log"))
      ∷ []
unfolding logger_init logger_info logger_cleanup
init_and_cleanup = refl

two_bytes : dump_loop 2 0 (65 ∷ 10 ∷ []) ≡ codes "  0000: 41 0a  | A.\n"
unfolding dump_loop row offset_column hex_bytes high_digits printables
two_bytes = refl

logger_log-agrees_example :
    (logger_log true debug (codes "12:00") (codes "m") on
      ≡ some (logger_debug (codes "12:00") (codes "m") on))
    × (logger_log true info (codes "12:00") (codes "m") on
        ≡ some (logger_info (codes "12:00") (codes "m") on))
    × (logger_log true warn (codes "12:00") (codes "m") on
        ≡ some (logger_warn (codes "12:00") (codes "m") on))
    × (logger_log true error (codes "12:00") (codes "m") on
        ≡ some (logger_error (codes "12:00") (codes "m") on))
    × (logger_log true critical (codes "12:00") (codes "m") on
        ≡ some (logger_critical (codes "12:00") (codes "m") on))
logger_log-agrees_example =
    logger_log-agrees on to_file true (codes "12:00") (codes "m") refl (omega arith)

abbrev debugging : Config
debugging = record to_file { min_level = debug }

abbrev debugging_on : State
debugging_on = record { global_logger = some debugging; actions = [] }

logger_hexdump-Bytes_example :
    ((c : Config) × (debugging_on.global_logger ≡ some c)
      × (c.min_level ≡ debug)
      × (◌≢◌ {A = List ℕ} (65 ∷ 10 ∷ []) [])
      × ((rows : Text) × (logger_hexdump (codes "t") (codes "l") (some (65 ∷ 10 ∷ [])) debugging_on
            ≡ emit
                (colored c (get_color_code debug)
                  ++ (stamped c (codes "t")
                      ++ (print c.output_file (codes "[HEXDUMP] " ++ (codes "l" ++ codes ":\n"))
                          ∷ print c.output_file rows
                          ∷ (colored c no_color ++ (flush c.output_file ∷ [])))))
                debugging_on)
          × (read_dump offset rows ≡ 65 ∷ 10 ∷ [])))
    ⊎ (((debugging_on.global_logger ≡ none)
          ⊎ (((c : Config) × (debugging_on.global_logger ≡ some c) × (c.min_level ≢ debug))
              ⊎ (◌≡◌ {A = List ℕ} (65 ∷ 10 ∷ []) [])))
        × (logger_hexdump (codes "t") (codes "l") (some (65 ∷ 10 ∷ [])) debugging_on
            ≡ debugging_on))
logger_hexdump-Bytes_example =
    logger_hexdump-Bytes debugging_on (codes "t") (codes "l") (65 ∷ 10 ∷ [])
      (omega arith, (omega arith, tt))
