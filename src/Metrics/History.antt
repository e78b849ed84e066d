-- ===== src/Metrics/History.antt =====
-- The counters after any sequence of recording calls since `metrics_init`.
use packet_analyzer.Prelude.{
  ℕ, zero, suc, ◌+◌, ◌^◌, ◌≤◌, ◌<◌, ◌≡◌, refl, arith, List, [], ◌∷◌, length, get_or, set, u64,
  length-set,
}
use packet_analyzer.Metrics.Counters.{
  Metrics, init, fetch_add, record_protocol, record_ethertype, inc_captured, inc_processed,
  inc_parse_errors, inc_checksum_failures, inc_queue_drops, inc_capture_drops,
}
use packet_analyzer.Metrics.Latency.{
  Attempt, latency_bucket, observe_latency, update_queue_depth_max,
}
use packet_analyzer.Metrics.Buckets.{latency_bucket-InBucket}

-- A recording call of the API, with its argument.
pub data Call : Type 0 where
  captured processed protocol ethertype : ℕ → Call
  parse_error checksum_failure queue_drop capture_drop : Call
  latency queue_depth : List Attempt → ℕ → Call

unfoldable pub apply : Metrics → Call → Metrics
apply m (captured bytes) = inc_captured m bytes
apply m (processed bytes) = inc_processed m bytes
apply m (protocol p) = record_protocol m p
apply m (ethertype e) = record_ethertype m e
apply m parse_error = inc_parse_errors m
apply m checksum_failure = inc_checksum_failures m
apply m queue_drop = inc_queue_drops m
apply m capture_drop = inc_capture_drops m
apply m (latency attempts ns) = observe_latency attempts m ns
apply m (queue_depth attempts d) = update_queue_depth_max attempts m d

-- The calls of a run, the newest first.
unfoldable pub run : List Call → Metrics
run [] = init
run (c ∷ calls) = apply (run calls) c

-- How often each kind of call was made, and the sums of the arguments.
abbrev pub captures : List Call → ℕ
captures [] = 0
captures (captured _ ∷ calls) = suc (captures calls)
captures (_ ∷ calls) = captures calls

abbrev pub captured_bytes : List Call → ℕ
captured_bytes [] = 0
captured_bytes (captured b ∷ calls) = captured_bytes calls + b
captured_bytes (_ ∷ calls) = captured_bytes calls

abbrev pub processings : List Call → ℕ
processings [] = 0
processings (processed _ ∷ calls) = suc (processings calls)
processings (_ ∷ calls) = processings calls

abbrev pub protocols : List Call → ℕ
protocols [] = 0
protocols (protocol _ ∷ calls) = suc (protocols calls)
protocols (_ ∷ calls) = protocols calls

abbrev pub ethertypes : List Call → ℕ
ethertypes [] = 0
ethertypes (ethertype _ ∷ calls) = suc (ethertypes calls)
ethertypes (_ ∷ calls) = ethertypes calls

abbrev pub latencies : List Call → ℕ
latencies [] = 0
latencies (latency _ _ ∷ calls) = suc (latencies calls)
latencies (_ ∷ calls) = latencies calls

abbrev pub total : List ℕ → ℕ
total [] = 0
total (x ∷ xs) = x + total xs

pub total-set :
    (xs : List ℕ) (i v : ℕ) → i < length xs → total (set xs i v) + get_or xs i 0 ≡ total xs + v
total-set [] i v h = absurd (omega arith)
total-set (x ∷ xs) zero v h = omega arith
total-set (x ∷ xs) (suc i) v h = omega (arith, total-set xs i v (omega arith))

get_or-le-total : (xs : List ℕ) (i : ℕ) → get_or xs i 0 ≤ total xs
get_or-le-total [] i = omega arith
get_or-le-total (x ∷ xs) zero = omega arith
get_or-le-total (x ∷ xs) (suc i) = omega (arith, get_or-le-total xs i)

-- The counters of a run are the tallies of its calls.
pub record Tallies (calls : List Call) (m : Metrics) : Type 0 where
  pub packets_in : m.pkts_captured ≡ captures calls
  pub bytes_in : m.bytes_captured ≡ u64 (captured_bytes calls)
  pub packets_out : m.pkts_processed ≡ processings calls
  pub by_protocol : m.proto_tcp + m.proto_udp + m.proto_icmp + m.proto_other ≡ protocols calls
  pub by_ethertype : m.ether_ipv4 + m.ether_ipv6 + m.ether_arp + m.ether_other ≡ ethertypes calls
  pub observed : m.latency_count ≡ latencies calls
  pub in_buckets : total m.latency_histogram ≡ latencies calls
  pub buckets : length m.latency_histogram ≡ 32

tally-le-length :
    (calls : List Call)
    → (captures calls ≤ length calls)
      × (processings calls ≤ length calls)
      × (protocols calls ≤ length calls)
      × (ethertypes calls ≤ length calls)
      × (latencies calls ≤ length calls)
tally-le-length [] = omega arith
tally-le-length (captured _ ∷ calls) = omega (arith, tally-le-length calls)
tally-le-length (_ ∷ calls) = omega (arith, tally-le-length calls)

apply-Tallies :
    (c : Call) (calls : List Call) (m : Metrics)
    → suc (length calls) < 2 ^ 64
    → Tallies calls m
    → Tallies (c ∷ calls) (apply m c)
unfolding apply inc_captured inc_processed record_protocol record_ethertype inc_parse_errors
    inc_checksum_failures inc_queue_drops inc_capture_drops update_queue_depth_max observe_latency
apply-Tallies (latency attempts ns) calls m few t =
    let bucket = latency_bucket ns in
    let old = get_or m.latency_histogram bucket 0 in
    let counts = tally-le-length calls in
    let low = get_or-le-total m.latency_histogram bucket in
    let b = latency_bucket-InBucket ns in
    let grown =
      total-set m.latency_histogram bucket (fetch_add old 1)
        (omega (arith, b.in_range, t.buckets)) in
    let same = length-set m.latency_histogram bucket (fetch_add old 1) in
    ground (arith, counts, low, grown, same)
apply-Tallies c calls m few t = ground (arith, tally-le-length calls)

-- After any sequence of fewer than 2^64 recording calls since `metrics_init`: the packet counters are
-- the numbers of captured and processed packets, the captured bytes are their sum modulo 2^64, the
-- protocol counters and the EtherType counters each add up to the number of their calls, and the
-- histogram and the latency count both hold every observation exactly once.
pub run-Tallies : (calls : List Call) → length calls < 2 ^ 64 → Tallies calls (run calls)
unfolding run init
run-Tallies [] few = record {
  packets_in = refl;
  bytes_in = refl;
  packets_out = refl;
  by_protocol = refl;
  by_ethertype = refl;
  observed = refl;
  in_buckets = refl;
  buckets = refl;
}
run-Tallies (c ∷ calls) few =
    apply-Tallies c calls (run calls) few (run-Tallies calls (omega arith))
