-- ===== src/Regression/Compatible.antt =====
-- `regression_validate_metadata` of src/regression.c. The report that it prints is the record of the
-- mismatches, and the message for the caller a value.
use packet_analyzer.Prelude.{
  ℕ, ◌+◌, Bool, true, false, not, ◌&&◌, ◌||◌, Option, none, some, [], ◌∷◌, ◌==◌, if◌then◌else◌,
}
use packet_analyzer.Prelude.Int.{ℤ, pos, ltb_ℤ, eqb_ℤ}
use packet_analyzer.Metrics.Metadata.{Text, Metadata}

-- `strcmp(a, b) == 0`
unfoldable pub same_text : Text → Text → Bool
same_text [] [] = true
same_text (a ∷ s) (b ∷ t) = (a == b) && same_text s t
same_text _ _ = false

-- `strlen(baseline) > 0 && strcmp(baseline, current) != 0`
unfoldable pub text_mismatch : Text → Text → Bool
text_mismatch [] current = false
text_mismatch (a ∷ s) current = not (same_text (a ∷ s) current)

-- `baseline > 0 && baseline != current`
unfoldable pub int_mismatch : ℤ → ℤ → Bool
int_mismatch baseline current = ltb_ℤ (pos 0) baseline && not (eqb_ℤ baseline current)

-- The flags that the function keeps, one for each field.
pub record Mismatches : Type 0 where
  pub filter : Bool
  pub threads : Bool
  pub warmup_sec : Bool
  pub duration_sec : Bool
  pub traffic_mode : Bool
  pub traffic_target : Bool
  pub traffic_rate : Bool
  pub interface : Bool
  pub os : Bool
  pub bpf_buffer_size : Bool

unfoldable pub mismatches : Metadata → Metadata → Mismatches
mismatches baseline current = record {
  filter = text_mismatch baseline.filter current.filter;
  threads = int_mismatch baseline.threads current.threads;
  warmup_sec = int_mismatch baseline.warmup_sec current.warmup_sec;
  duration_sec = int_mismatch baseline.duration_sec current.duration_sec;
  traffic_mode = text_mismatch baseline.traffic_mode current.traffic_mode;
  traffic_target = text_mismatch baseline.traffic_target current.traffic_target;
  traffic_rate = int_mismatch baseline.traffic_rate current.traffic_rate;
  interface = text_mismatch baseline.interface current.interface;
  os = text_mismatch baseline.os current.os;
  bpf_buffer_size = int_mismatch baseline.bpf_buffer_size current.bpf_buffer_size;
}

abbrev pub count : Bool → ℕ
count true = 1
count false = 0

-- `hard_mismatch_count` and `warn_mismatch_count`
abbrev pub hard_mismatch_count : Mismatches → ℕ
hard_mismatch_count m =
    count m.filter
    + count m.threads
    + count m.warmup_sec
    + count m.duration_sec
    + count m.traffic_mode
    + count m.traffic_target
    + count m.traffic_rate

abbrev pub warn_mismatch_count : Mismatches → ℕ
warn_mismatch_count m = count m.interface + count m.os + count m.bpf_buffer_size

abbrev pub has_hard_mismatch : Mismatches → Bool
has_hard_mismatch m =
    m.filter || m.threads || m.warmup_sec || m.duration_sec || m.traffic_mode || m.traffic_target
    || m.traffic_rate

-- What `error_msg` is set to.
pub data Message : Type 0 where
  invalid_pointer : Message
  fields_differ : ℕ → Message

pub record Validation : Type 0 where
  pub compatible : Bool
  pub message : Option Message
  -- The table on stderr.
  pub report : Option Mismatches

-- `regression_validate_metadata`, for the metadata of the baseline and of the run.
unfoldable pub validate_metadata : Option Metadata → Option Metadata → Validation
unfolding mismatches
validate_metadata none current = record {
  compatible = false;
  message = some invalid_pointer;
  report = none;
}
validate_metadata (some baseline) none = record {
  compatible = false;
  message = some invalid_pointer;
  report = none;
}
validate_metadata (some baseline) (some current) =
    let m = mismatches baseline current in
    if baseline.valid
    then (if has_hard_mismatch m
        then record {
          compatible = false;
          message = some (fields_differ (hard_mismatch_count m));
          report = some m;
        }
        else record { compatible = true; message = none; report = none })
    else record { compatible = true; message = none; report = none }
