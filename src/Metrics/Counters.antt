-- ===== src/Metrics/Counters.antt =====
-- `metrics_t` and the functions of src/metrics.c that reset it, time it and count in it. Every field
-- is updated by an atomic operation, so an interleaving of threads is a sequence of such calls.
use packet_analyzer.Prelude.{ℕ, ◌+◌, Bool, List, ltb, ◌==◌, if◌then◌else◌, ◌||◌, replicate, u64}

-- `METRICS_HISTOGRAM_BUCKETS`
abbrev pub histogram_buckets : ℕ
histogram_buckets = 32

-- `metrics_t`
pub record Metrics : Type 0 where
  pub pkts_captured : ℕ
  pub pkts_processed : ℕ
  pub bytes_captured : ℕ
  pub bytes_processed : ℕ
  pub parse_errors : ℕ
  pub checksum_failures : ℕ
  pub queue_drops : ℕ
  pub capture_drops : ℕ
  pub ether_ipv4 : ℕ
  pub ether_ipv6 : ℕ
  pub ether_arp : ℕ
  pub ether_other : ℕ
  pub proto_tcp : ℕ
  pub proto_udp : ℕ
  pub proto_icmp : ℕ
  pub proto_other : ℕ
  pub queue_depth_max : ℕ
  pub latency_count : ℕ
  pub latency_sum_ns : ℕ
  pub latency_max_ns : ℕ
  pub latency_histogram : List ℕ
  pub start_time_ns : ℕ
  pub capture_end_time_ns : ℕ

-- `metrics_init`
unfoldable pub init : Metrics
init = record {
  pkts_captured = 0;
  pkts_processed = 0;
  bytes_captured = 0;
  bytes_processed = 0;
  parse_errors = 0;
  checksum_failures = 0;
  queue_drops = 0;
  capture_drops = 0;
  ether_ipv4 = 0;
  ether_ipv6 = 0;
  ether_arp = 0;
  ether_other = 0;
  proto_tcp = 0;
  proto_udp = 0;
  proto_icmp = 0;
  proto_other = 0;
  queue_depth_max = 0;
  latency_count = 0;
  latency_sum_ns = 0;
  latency_max_ns = 0;
  latency_histogram = replicate histogram_buckets 0;
  start_time_ns = 0;
  capture_end_time_ns = 0;
}

-- The monotonic clock is an argument.
unfoldable pub start : Metrics → ℕ → Metrics
start m now_ns = record m { start_time_ns = now_ns }

unfoldable pub stop_capture : Metrics → ℕ → Metrics
stop_capture m now_ns = record m { capture_end_time_ns = now_ns }

unfoldable pub is_active : Metrics → Bool
is_active m = ltb 0 m.start_time_ns

-- `atomic_fetch_add` on a `uint64_t`
abbrev pub fetch_add : ℕ → ℕ → ℕ
fetch_add counter n = u64 (counter + n)

unfoldable pub record_protocol : Metrics → ℕ → Metrics
record_protocol m protocol =
    if protocol == 6
    then record m { proto_tcp = fetch_add m.proto_tcp 1 }
    else (if protocol == 17
        then record m { proto_udp = fetch_add m.proto_udp 1 }
        else (if protocol == 1 || protocol == 58
            then record m { proto_icmp = fetch_add m.proto_icmp 1 }
            else record m { proto_other = fetch_add m.proto_other 1 }))

unfoldable pub record_ethertype : Metrics → ℕ → Metrics
record_ethertype m ethertype =
    if ethertype == 0x0800
    then record m { ether_ipv4 = fetch_add m.ether_ipv4 1 }
    else (if ethertype == 0x86DD
        then record m { ether_ipv6 = fetch_add m.ether_ipv6 1 }
        else (if ethertype == 0x0806
            then record m { ether_arp = fetch_add m.ether_arp 1 }
            else record m { ether_other = fetch_add m.ether_other 1 }))

unfoldable pub inc_captured : Metrics → ℕ → Metrics
inc_captured m bytes = record m {
  pkts_captured = fetch_add m.pkts_captured 1;
  bytes_captured = fetch_add m.bytes_captured bytes;
}

unfoldable pub inc_processed : Metrics → ℕ → Metrics
inc_processed m bytes = record m {
  pkts_processed = fetch_add m.pkts_processed 1;
  bytes_processed = fetch_add m.bytes_processed bytes;
}

unfoldable pub inc_parse_errors : Metrics → Metrics
inc_parse_errors m = record m { parse_errors = fetch_add m.parse_errors 1 }

unfoldable pub inc_checksum_failures : Metrics → Metrics
inc_checksum_failures m = record m { checksum_failures = fetch_add m.checksum_failures 1 }

unfoldable pub inc_queue_drops : Metrics → Metrics
inc_queue_drops m = record m { queue_drops = fetch_add m.queue_drops 1 }

unfoldable pub inc_capture_drops : Metrics → Metrics
inc_capture_drops m = record m { capture_drops = fetch_add m.capture_drops 1 }
