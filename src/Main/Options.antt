-- ===== src/Main/Options.antt =====
-- The settings of src/main.c and the loop over `getopt_long`. An event is an option that it returns,
-- with its argument as `atoi` or `strtod` reads it.
use packet_analyzer.Prelude.{
  ℕ, ◌-◌, ◌%◌, ◌^◌, Bool, true, false, Option, none, some, List, [], ◌∷◌, if◌then◌else◌, take, u32,
}
use packet_analyzer.Prelude.Int.{ℤ, pos, negsuc, ltb_ℤ}
use packet_analyzer.Metrics.Metadata.{Text}

-- The file's static variables that options set, and the variables of `main`.
pub record Settings (Double : Type 0) : Type 0 where
  pub interface_name : Text
  pub num_threads : ℤ
  pub max_packets : ℕ
  pub debug : Bool
  pub duration_sec : ℤ
  pub warmup_sec : ℤ
  pub measure_sec : ℤ
  pub num_runs : ℤ
  pub metrics_interval_ms : ℤ
  pub stats_interval_sec : ℤ
  pub min_packets : ℕ
  pub metrics_json_path : Option Text
  pub baseline_path : Option Text
  pub fail_on_regression : Bool
  pub regression_threshold : Double
  pub filter_icmp : Bool
  pub traffic_mode : Option Text
  pub traffic_target : Option Text
  pub traffic_rate : ℤ

-- The interface's name depends on the platform, the threshold is 0.10.
abbrev pub defaults : {Double : Type 0} → Text → Double → Settings Double
defaults interface_name threshold = record {
  interface_name = interface_name;
  num_threads = pos 4;
  max_packets = 0;
  debug = false;
  duration_sec = pos 20;
  warmup_sec = pos 2;
  measure_sec = pos 0;
  num_runs = pos 5;
  metrics_interval_ms = pos 0;
  stats_interval_sec = pos 1;
  min_packets = 200;
  metrics_json_path = none;
  baseline_path = none;
  fail_on_regression = false;
  regression_threshold = threshold;
  filter_icmp = false;
  traffic_mode = none;
  traffic_target = none;
  traffic_rate = pos 50;
}

pub data Event (Double : Type 0) : Type 0 where
  on_interface on_traffic on_target on_json on_baseline : Text → Event Double
  on_duration on_count on_threads on_warmup on_measure on_runs on_stats on_min on_rate on_interval :
      ℤ → Event Double
  on_threshold : Double → Event Double
  on_icmp on_debug on_fail on_help on_unknown : Event Double

-- An `int` converted to `uint32_t`.
abbrev pub to_u32 : ℤ → ℕ
to_u32 (pos n) = u32 n
to_u32 (negsuc n) = 2 ^ 32 - 1 - n % 2 ^ 32

-- At least `low`.
abbrev at_least : ℤ → ℤ → ℤ
at_least low n = if ltb_ℤ n low then low else n

abbrev at_most : ℤ → ℤ → ℤ
at_most high n = if ltb_ℤ high n then high else n

-- Go on with the settings, or leave `main` with an exit code after the usage text.
pub data Outcome (Double : Type 0) : Type 0 where
  continue : Settings Double → Outcome Double
  leave : ℕ → Outcome Double

unfoldable pub set_option : {Double : Type 0} → Settings Double → Event Double → Outcome Double
set_option s (on_interface name) = continue (record s { interface_name = take 255 name })
set_option s (on_duration n) = continue (record s { duration_sec = n })
set_option s (on_count n) = continue (record s { max_packets = to_u32 n })
set_option s (on_threads n) = continue (record s { num_threads = n })
set_option s on_icmp = continue (record s { filter_icmp = true })
set_option s (on_warmup n) = continue (record s { warmup_sec = n })
set_option s (on_measure n) = continue (record s { measure_sec = n })
set_option s (on_runs n) = continue (record s { num_runs = at_least (pos 1) n })
set_option s (on_stats n) = continue (record s { stats_interval_sec = n })
set_option s (on_min n) = continue (record s { min_packets = to_u32 n })
set_option s (on_traffic mode) = continue (record s { traffic_mode = some mode })
set_option s (on_rate n) =
    continue (record s { traffic_rate = at_most (pos 500) (at_least (pos 1) n) })
set_option s (on_target ip) = continue (record s { traffic_target = some ip })
set_option s on_debug = continue (record s { debug = true })
set_option s (on_interval n) = continue (record s { metrics_interval_ms = n })
set_option s (on_json path) = continue (record s { metrics_json_path = some path })
set_option s (on_baseline path) = continue (record s { baseline_path = some path })
set_option s on_fail = continue (record s { fail_on_regression = true })
set_option s (on_threshold t) = continue (record s { regression_threshold = t })
set_option s on_help = leave 0
set_option s on_unknown = leave 1

unfoldable pub parse_options :
    {Double : Type 0} → Settings Double → List (Event Double) → Outcome Double
parse_options s [] = continue s
parse_options s (e ∷ events) = elim (set_option s e) [
  | continue s' ↦ parse_options s' events
  | leave code ↦ leave code
]

-- `actual_measure_sec`
unfoldable pub actual_measure_sec : {Double : Type 0} → Settings Double → ℤ
actual_measure_sec s = if ltb_ℤ (pos 0) s.measure_sec then s.measure_sec else s.duration_sec
