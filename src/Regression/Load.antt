-- ===== src/Regression/Load.antt =====
-- `regression_load_baseline` of src/regression.c, on the contents of the file: `none` if the file
-- cannot be read. An extraction that fails leaves the zero that `memset` put there.
use packet_analyzer.Prelude.{
  ℕ, ◌+◌, ◌-◌, ◌*◌, true, false, ◌||◌, ◌&&◌, Option, none, some, [], ◌∷◌, ◌++◌, ltb, if◌then◌else◌,
  drop, length, u64,
}
use packet_analyzer.Prelude.Int.{ℤ, pos}
use packet_analyzer.Floating.{Floating}
use packet_analyzer.Metrics.Metadata.{Text, Metadata}
use packet_analyzer.Regression.Baseline.{Baseline}
use packet_analyzer.Regression.Json.{
  quote, strip_prefix, json_extract_string, json_extract_uint64, json_extract_int,
  json_extract_double,
}
use packet_analyzer.Regression.Keys.{
  elapsed_sec_key, processed_key, rate_pps_key, bytes_processed_key, bytes_key, rate_mbps_key,
  p95_key, queue_drops_key, capture_drops_key, captured_key, metadata_key, interface_key,
  filter_key, os_key, git_sha_key, threads_key, bpf_buffer_size_key, duration_sec_key,
  warmup_sec_key, traffic_mode_key, traffic_target_key, traffic_rate_key,
}

-- `strstr`: the text from the first match on.
unfoldable pub strstr : Text → Text → Option Text
strstr pattern [] = elim (strip_prefix pattern []) [ none ↦ none | some _ ↦ some [] ]
strstr pattern (c ∷ text) =
    let later = strstr pattern text in
    elim (strip_prefix pattern (c ∷ text)) [ none ↦ later | some _ ↦ some (c ∷ text) ]

abbrev pub quoted : Text → Text
quoted key = quote ∷ (key ++ (quote ∷ []))

abbrev pub or_zero : Option ℕ → ℕ
or_zero none = 0
or_zero (some n) = n

abbrev pub or_empty : Option Text → Text
or_empty none = []
or_empty (some s) = s

abbrev pub or_zero_int : Option ℤ → ℤ
or_zero_int none = pos 0
or_zero_int (some n) = n

-- The older layout: "processed" at most 200 characters behind "bytes", searched from one character
-- before it.
unfoldable pub nested_bytes : Text → ℕ
nested_bytes json = elim (strstr (quoted bytes_key) json) [
  | none ↦ 0
  | some at_bytes ↦ elim (strstr (quoted processed_key) at_bytes) [
    | none ↦ 0
    | some at_processed ↦
        if ltb (length at_bytes - length at_processed) 200
        then or_zero
            (json_extract_uint64 (drop (length json - length at_processed - 1) json) processed_key)
        else 0
  ]
]

unfoldable pub bytes_of : Text → ℕ
bytes_of json = elim (json_extract_uint64 json bytes_processed_key) [
  | none ↦ nested_bytes json
  | some n ↦ n
]

-- The strings are cut to arrays of 64 bytes.
unfoldable pub metadata_of : Text → Metadata
metadata_of json =
    let text : Text → Text = λ key. or_empty (json_extract_string json key 64) in
    let int : Text → ℤ = λ key. or_zero_int (json_extract_int json key) in
    record {
      interface = text interface_key;
      filter = text filter_key;
      os = text os_key;
      git_sha = text git_sha_key;
      traffic_mode = text traffic_mode_key;
      traffic_target = text traffic_target_key;
      threads = int threads_key;
      bpf_buffer_size = int bpf_buffer_size_key;
      duration_sec = int duration_sec_key;
      warmup_sec = int warmup_sec_key;
      traffic_rate = int traffic_rate_key;
      valid = true;
    }

-- All zeros.
abbrev pub no_metadata : Metadata
no_metadata = record {
  interface = [];
  filter = [];
  os = [];
  git_sha = [];
  traffic_mode = [];
  traffic_target = [];
  threads = pos 0;
  bpf_buffer_size = pos 0;
  duration_sec = pos 0;
  warmup_sec = pos 0;
  traffic_rate = pos 0;
  valid = false;
}

module _ (F : Floating) (strtod : Text → F.Double) where
  open F use {Double, of_u64, div, lt}

  abbrev or_zero_double : Option Double → Double
  or_zero_double none = of_u64 0
  or_zero_double (some x) = x

  -- The two rates, which are computed from the counts if the file does not have them.
  unfoldable pub rate_pps_of : Text → Double → ℕ → Double
  rate_pps_of json elapsed pkts = elim (json_extract_double strtod json rate_pps_key) [
    | some x ↦ x
    | none ↦ if lt (of_u64 0) elapsed then div (of_u64 pkts) elapsed else of_u64 0
  ]

  unfoldable pub rate_mbps_of : Text → Double → ℕ → Double
  rate_mbps_of json elapsed bytes = elim (json_extract_double strtod json rate_mbps_key) [
    | some x ↦ x
    | none ↦
        if lt (of_u64 0) elapsed && ltb 0 bytes
        then div (div (of_u64 bytes) elapsed) (of_u64 (1024 * 1024))
        else of_u64 0
  ]

  unfoldable pub drop_rate_of : ℕ → ℕ → Double
  drop_rate_of drops captured =
      if ltb 0 captured then div (of_u64 drops) (of_u64 captured) else of_u64 0

  -- What the structure holds when the file has been read.
  unfoldable pub baseline_of : Text → Baseline Double
  baseline_of json =
      let elapsed = or_zero_double (json_extract_double strtod json elapsed_sec_key) in
      let pkts = or_zero (json_extract_uint64 json processed_key) in
      let bytes = bytes_of json in
      let queue = or_zero (json_extract_uint64 json queue_drops_key) in
      let capture = or_zero (json_extract_uint64 json capture_drops_key) in
      let captured = or_zero (json_extract_uint64 json captured_key) in
      let pps = rate_pps_of json elapsed pkts in
      record {
        pkts_processed_per_sec = pps;
        mbps_processed = rate_mbps_of json elapsed bytes;
        latency_p95_ns = or_zero (json_extract_uint64 json p95_key);
        drop_rate = drop_rate_of (u64 (queue + capture)) captured;
        pkts_processed = pkts;
        bytes_processed = bytes;
        queue_drops = queue;
        capture_drops = capture;
        elapsed_sec = elapsed;
        metadata = elim (strstr (quoted metadata_key) json) [
          | none ↦ no_metadata
          | some section ↦ metadata_of section
        ];
        valid = lt (of_u64 0) pps || ltb 0 pkts;
      }

  -- The result 0 with the baseline, or -1.
  unfoldable pub load_baseline : Option Text → Option (Baseline Double)
  load_baseline none = none
  load_baseline (some json) = if (baseline_of json).valid then some (baseline_of json) else none
