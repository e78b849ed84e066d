-- ===== src/Metrics/Json.antt =====
-- `metrics_snapshot_json` of src/metrics.c: the text that it writes, one `Line` for each `fprintf`. A
-- line is written before the rest of the text. What `printf` makes of a `double` is an argument, with
-- the number of places behind the point.
use packet_analyzer.Prelude.{
  ℕ, zero, suc, ◌+◌, ◌-◌, leb, ◌*◌, ◌/◌, Bool, true, false, Option, none, some, List, [], ◌∷◌, ◌++◌,
  ltb, if◌then◌else◌, codes,
}
use packet_analyzer.Prelude.Int.{ℤ}
use packet_analyzer.Floating.{Floating}
use packet_analyzer.Metrics.Counters.{Metrics, histogram_buckets}
use packet_analyzer.Metrics.Metadata.{Text, Metadata}
use packet_analyzer.Metrics.Decimal.{printed, printed_int}
use packet_analyzer.Metrics.Snapshot.{Snapshot, snapshot, percentile_ns}

-- The number of spaces in front, the key, the value, and whether it is the last of its object.
pub data Line : Type 0 where
  -- An object or array with its opening bracket.
  section : ℕ → Text → ℕ → Line
  uint : ℕ → Text → ℕ → Bool → Line
  int : ℕ → Text → ℤ → Bool → Line
  real : ℕ → Text → Text → Bool → Line
  string : ℕ → Text → Text → Bool → Line
  -- An element of the histogram, and a line without a key.
  item : ℕ → Bool → Line
  bare : Text → Line

abbrev pub indent : ℕ → Text → Text
indent zero rest = rest
indent (suc n) rest = 32 ∷ indent n rest

abbrev pub key_before : ℕ → Text → Text → Text
key_before n key rest = indent n (34 ∷ (key ++ (34 ∷ 58 ∷ 32 ∷ rest)))

abbrev pub line_end : Bool → Text → Text
line_end last rest = if last then 10 ∷ rest else 44 ∷ 10 ∷ rest

unfoldable pub render : Line → Text → Text
render (section n key bracket) rest = key_before n key (bracket ∷ 10 ∷ rest)
render (uint n key value last) rest = key_before n key (printed value ++ line_end last rest)
render (int n key value last) rest = key_before n key (printed_int value ++ line_end last rest)
render (real n key value last) rest = key_before n key (value ++ line_end last rest)
render (string n key value last) rest = key_before n key (34 ∷ (value ++ (34 ∷ line_end last rest)))
render (item value last) rest = indent 4 (printed value ++ line_end last rest)
render (bare text) rest = text ++ rest

unfoldable pub written : List Line → Text → Text
written [] rest = rest
written (line ∷ lines) rest = render line (written lines rest)

-- The loop over the histogram, from bucket `i` on.
unfoldable pub histogram_lines : ℕ → List ℕ → List Line
histogram_lines i [] = []
histogram_lines i (x ∷ histogram) =
    item x (leb (histogram_buckets - 1) i) ∷ histogram_lines (i + 1) histogram

abbrev pub metadata_lines : Metadata → List Line
metadata_lines m =
    string 4 (codes "interface") m.interface false
    ∷ string 4 (codes "filter") m.filter false
    ∷ int 4 (codes "threads") m.threads false
    ∷ int 4 (codes "bpf_buffer_size") m.bpf_buffer_size false
    ∷ int 4 (codes "duration_sec") m.duration_sec false
    ∷ int 4 (codes "warmup_sec") m.warmup_sec false
    ∷ string 4 (codes "traffic_mode") m.traffic_mode false
    ∷ string 4 (codes "traffic_target") m.traffic_target false
    ∷ int 4 (codes "traffic_rate") m.traffic_rate false
    ∷ string 4 (codes "os") m.os false
    ∷ string 4 (codes "git_sha") m.git_sha true
    ∷ bare (codes "  }\n")
    ∷ bare (codes "}\n")
    ∷ []

abbrev pub close_section : Line
close_section = bare (codes "  },\n")

module _ (F : Floating) (format : ℕ → F.Double → Text) where
  open F use {Double, of_u64, div, mul, lt}

  -- The rates, over the time of the capture.
  abbrev pub rate_pps : Snapshot Double → Double
  rate_pps s =
      if lt (of_u64 0) s.capture_elapsed_sec
      then div (of_u64 s.pkts_processed) s.capture_elapsed_sec
      else of_u64 0

  abbrev pub rate_mbps : Snapshot Double → Double
  rate_mbps s =
      if lt (of_u64 0) s.capture_elapsed_sec
      then div (div (of_u64 s.bytes_processed) s.capture_elapsed_sec) (of_u64 (1024 * 1024))
      else of_u64 0

  -- The lines up to the histogram. The three percentiles are those of the fractions given.
  abbrev pub counter_lines : Snapshot Double → Double → Double → Double → List Line
  counter_lines s half ninety_five ninety_nine =
      bare (codes "{\n")
      ∷ string 2 (codes "timestamp")
          (format 3 (div (of_u64 s.snapshot_time_ns) (of_u64 1000000000))) false
      ∷ real 2 (codes "elapsed_sec") (format 3 s.elapsed_sec) false
      ∷ real 2 (codes "capture_elapsed_sec") (format 3 s.capture_elapsed_sec) false
      ∷ section 2 (codes "packets") 123
      ∷ uint 4 (codes "captured") s.pkts_captured false
      ∷ uint 4 (codes "processed") s.pkts_processed false
      ∷ real 4 (codes "rate_pps") (format 2 (rate_pps s)) true
      ∷ close_section
      ∷ section 2 (codes "bytes") 123
      ∷ uint 4 (codes "captured") s.bytes_captured false
      ∷ uint 4 (codes "processed") s.bytes_processed false
      ∷ real 4 (codes "rate_mbps") (format 4 (rate_mbps s)) true
      ∷ close_section
      ∷ section 2 (codes "errors") 123
      ∷ uint 4 (codes "parse_errors") s.parse_errors false
      ∷ uint 4 (codes "checksum_failures") s.checksum_failures false
      ∷ uint 4 (codes "queue_drops") s.queue_drops false
      ∷ uint 4 (codes "capture_drops") s.capture_drops true
      ∷ close_section
      ∷ section 2 (codes "ethertype") 123
      ∷ uint 4 (codes "ipv4") s.ether_ipv4 false
      ∷ uint 4 (codes "ipv6") s.ether_ipv6 false
      ∷ uint 4 (codes "arp") s.ether_arp false
      ∷ uint 4 (codes "other") s.ether_other true
      ∷ close_section
      ∷ section 2 (codes "protocols") 123
      ∷ uint 4 (codes "tcp") s.proto_tcp false
      ∷ uint 4 (codes "udp") s.proto_udp false
      ∷ uint 4 (codes "icmp") s.proto_icmp false
      ∷ uint 4 (codes "other") s.proto_other true
      ∷ close_section
      ∷ section 2 (codes "queue") 123
      ∷ uint 4 (codes "depth_max") s.queue_depth_max true
      ∷ close_section
      ∷ section 2 (codes "latency_ns") 123
      ∷ uint 4 (codes "count") s.latency_count false
      ∷ uint 4 (codes "sum") s.latency_sum_ns false
      ∷ uint 4 (codes "avg")
          (if ltb 0 s.latency_count then s.latency_sum_ns / s.latency_count else 0) false
      ∷ uint 4 (codes "max") s.latency_max_ns false
      ∷ uint 4 (codes "p50") (percentile_ns F (some s) half) false
      ∷ uint 4 (codes "p95") (percentile_ns F (some s) ninety_five) false
      ∷ uint 4 (codes "p99") (percentile_ns F (some s) ninety_nine) true
      ∷ close_section
      ∷ section 2 (codes "latency_histogram") 91
      ∷ []

  -- The text of a snapshot.
  unfoldable pub snapshot_text : Snapshot Double → Double → Double → Double → Metadata → Text
  snapshot_text s half ninety_five ninety_nine m =
      written (counter_lines s half ninety_five ninety_nine) (
        written (histogram_lines 0 s.latency_histogram) (
          written (bare (codes "  ],\n") ∷ section 2 (codes "metadata") 123 ∷ metadata_lines m) []))

  -- The file's contents, `none` for the result -1: no path, or it cannot be opened. The clock and the
  -- fractions 0.50, 0.95 and 0.99 are arguments.
  unfoldable pub snapshot_json :
      Bool → Bool → Metrics → ℕ → Double → Double → Double → Metadata → Option Text
  snapshot_json has_path fopen m now_ns half ninety_five ninety_nine metadata =
      if has_path
      then (if fopen
          then some (snapshot_text (snapshot F m now_ns) half ninety_five ninety_nine metadata)
          else none)
      else none
