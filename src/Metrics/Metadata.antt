-- ===== src/Metrics/Metadata.antt =====
-- `metrics_metadata_t` and `metrics_set_metadata` of src/metrics.c. A C string is the list of its
-- characters before the terminating zero.
use packet_analyzer.Prelude.{ℕ, Bool, true, Option, none, some, List, [], ◌∷◌, take}
use packet_analyzer.Prelude.Int.{ℤ}

abbrev pub Text : Type 0
Text = List ℕ

-- `metrics_metadata_t`
pub record Metadata : Type 0 where
  pub interface : Text
  pub filter : Text
  pub os : Text
  pub git_sha : Text
  pub traffic_mode : Text
  pub traffic_target : Text
  pub threads : ℤ
  pub bpf_buffer_size : ℤ
  pub duration_sec : ℤ
  pub warmup_sec : ℤ
  pub traffic_rate : ℤ
  pub valid : Bool

-- `strncpy` of at most 63 characters into 64 bytes of zeros.
abbrev pub bounded : Text → Text
bounded s = take 63 s

abbrev pub none_text : Text
none_text = b'n' ∷ b'o' ∷ b'n' ∷ b'e' ∷ []

abbrev pub unknown_text : Text
unknown_text = b'u' ∷ b'n' ∷ b'k' ∷ b'n' ∷ b'o' ∷ b'w' ∷ b'n' ∷ []

abbrev or_else : Option Text → Text → Text
or_else none d = bounded d
or_else (some s) d = bounded s

-- The system's name comes from `uname` (`none` where that fails), the commit from the build.
unfoldable pub set_metadata :
    Option Text
    → Text
    → Option Text
    → Option Text
    → ℤ
    → ℤ
    → ℤ
    → ℤ
    → Option Text
    → Option Text
    → ℤ
    → Metadata
set_metadata sysname git_sha interface filter threads bpf_buffer_size duration_sec warmup_sec
      traffic_mode traffic_target traffic_rate =
    record {
      interface = or_else interface [];
      filter = or_else filter none_text;
      os = or_else sysname unknown_text;
      git_sha = bounded git_sha;
      traffic_mode = or_else traffic_mode none_text;
      traffic_target = or_else traffic_target [];
      threads = threads;
      bpf_buffer_size = bpf_buffer_size;
      duration_sec = duration_sec;
      warmup_sec = warmup_sec;
      traffic_rate = traffic_rate;
      valid = true;
    }
