-- ===== src/Logger/Levels.antt =====
-- `logger_log` of src/logger.c against the functions for one level, and which messages come out.
use packet_analyzer.Prelude.{
  ◌≤◌, ◌≡◌, ◌∙◌, ◌↔◌, ap, sym, arith, Bool, false, Option, none, some, List, [], ◌∷◌, ◌++◌,
  append-nil, append_assoc, ◌>>=◌, ltb, if◌then◌else◌,
}
use packet_analyzer.Metrics.Metadata.{Text}
use packet_analyzer.Logger.{
  Level, debug, info, warn, error, critical, rank, Config, State, Action, flush, emit, colored,
  stamped, message_line, bracketed, log_level_to_string, get_color_code, no_color, logger_init,
  logger_cleanup, logger_debug, logger_info, logger_warn, logger_error, logger_critical, logger_log,
}

-- With a logger whose minimum is one of the five levels, `logger_log` at a level does exactly what
-- that level's own function does: the same output, and nothing where that prints nothing.
pub logger_log-agrees :
    (s : State) (c : Config) (malloc : Bool) (timestamp message : Text)
    → s.global_logger ≡ some c
    → rank c.min_level ≤ 4
    → (logger_log malloc debug timestamp message s ≡ some (logger_debug timestamp message s))
      × (logger_log malloc info timestamp message s ≡ some (logger_info timestamp message s))
      × (logger_log malloc warn timestamp message s ≡ some (logger_warn timestamp message s))
      × (logger_log malloc error timestamp message s ≡ some (logger_error timestamp message s))
      × (logger_log malloc critical timestamp message s
          ≡ some (logger_critical timestamp message s))
unfolding logger_log logger_debug logger_info logger_warn logger_error logger_critical
logger_log-agrees s c malloc timestamp message h known =
    (ground (arith, h), ground (arith, h), ground (arith, h), ground (arith, h), ground (arith, h))

-- What a message is printed as.
abbrev pub entry : Config → Level → Text → Text → List Action
entry c level timestamp message =
    colored c (get_color_code level)
    ++ (stamped c timestamp
        ++ (message_line c (bracketed (log_level_to_string level)) message
            ++ (colored c no_color ++ (flush c.output_file ∷ []))))

-- A call's level, time and message.
abbrev pub Call : Type 0
Call = Level × Text × Text

unfoldable pub log_all : Bool → List Call → State → Option State
log_all malloc [] s = some s
log_all malloc ((level, timestamp, message) ∷ calls) s =
    logger_log malloc level timestamp message s >>= log_all malloc calls

-- The entries of the calls at or above the minimum, in order.
abbrev pub passing : Config → List Call → List Action
passing c [] = []
passing c ((level, timestamp, message) ∷ calls) =
    (if ltb (rank level) (rank c.min_level) then [] else entry c level timestamp message)
    ++ passing c calls

logger_log-entry :
    (s : State) (c : Config) (malloc : Bool) (level : Level) (timestamp message : Text)
    → s.global_logger ≡ some c
    → logger_log malloc level timestamp message s
      ≡ some (
          emit
            (if ltb (rank level) (rank c.min_level) then [] else entry c level timestamp message)
            s)
unfolding logger_log
logger_log-entry s c malloc level timestamp message h = ground (arith, h, append-nil s.actions)

-- Of any sequence of calls to `logger_log` with a logger set up, exactly those at or above its
-- minimum level come out, each whole and in the order of the calls, and the logger stays as it is.
pub log_all-passing :
    (s : State) (c : Config) (malloc : Bool) (calls : List Call)
    → s.global_logger ≡ some c
    → log_all malloc calls s ≡ some (emit (passing c calls) s)
unfolding log_all
log_all-passing s c malloc [] h =
    ap (λ l. some (record s { actions = l })) (sym (append-nil s.actions))
log_all-passing s c malloc ((level, timestamp, message) ∷ calls) h =
    let first =
      if ltb (rank level) (rank c.min_level) then [] else entry c level timestamp message in
    rw (logger_log-entry s c malloc level timestamp message h) (
      log_all-passing (emit first s) c malloc calls h
      ∙ ap (λ l. some (record s { actions = l })) (append_assoc s.actions first (passing c calls)))

-- `logger_log` follows a null pointer exactly when no logger is set up and there is no memory for
-- one.
pub logger_log-none :
    (s : State) (malloc : Bool) (level : Level) (timestamp message : Text)
    → (logger_log malloc level timestamp message s ≡ none)
      ↔ ((s.global_logger ≡ none) × (malloc ≡ false))
unfolding logger_log logger_init logger_cleanup logger_info
logger_log-none s malloc level timestamp message = ground arith

-- What `logger_info` prints at its level or below.
pub logger_info-entry :
    (s : State) (c : Config) (timestamp message : Text)
    → s.global_logger ≡ some c
    → rank c.min_level ≤ 1
    → logger_info timestamp message s ≡ emit (entry c info timestamp message) s
unfolding logger_info
logger_info-entry s c timestamp message h low = ground (arith, h)
