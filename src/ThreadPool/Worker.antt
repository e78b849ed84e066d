-- ===== src/ThreadPool/Worker.antt =====
-- `thread_worker` in src/thread_pool.c, from an unhooked work item to its release, by a thread that
-- no other interrupts. Printing and logging are left out.
use packet_analyzer.Prelude.{
  ℕ, ◌+◌, List, Option, none, some, ◌>>=◌, leb, ◌==◌, if◌then◌else◌, get_elem?, sub64, u32,
}
use packet_analyzer.Packet.{Packet, Mallocs, parse}
use packet_analyzer.Packet.Headers.{ntohs}
use packet_analyzer.Metrics.Counters.{
  Metrics, is_active, record_ethertype, record_protocol, inc_processed,
}
use packet_analyzer.Metrics.Latency.{Attempt, observe_latency}
use packet_analyzer.ThreadPool.Queue.{Pool}

-- The L4 protocol of IPv4, or of IPv6 by the next header at offset 20 of the raw data. `none` is a
-- read outside of the raw data.
unfoldable pub record_l4 : Metrics → Packet → ℕ → Option Metrics
record_l4 m p ethertype = elim p.ipv4 [
  | none ↦ ipv6
  | some ip ↦ if ethertype == 0x0800 then some (record_protocol m ip.protocol) else ipv6
]
  where
    ipv6 : Option Metrics
    ipv6 = elim p.raw_data [
      | none ↦ some m
      | some raw ↦
          if ethertype == 0x86DD
          then (if leb 54 p.packet_length
              then (get_elem? raw 20 >>= λ next_header. some (record_protocol m next_header))
              else some m)
          else some m
    ]

unfoldable pub record_link : Metrics → Packet → Option Metrics
record_link m p = elim p.ethernet [
  | none ↦ some m
  | some eth ↦ record_l4 (record_ethertype m (ntohs eth.ethertype)) p (ntohs eth.ethertype)
]

-- What is recorded of a parsed packet while the metrics are active. The latency is a `uint64_t`
-- subtraction.
unfoldable pub record_packet : List Attempt → ℕ → Metrics → Packet → Option Metrics
record_packet attempts now_ns m p =
    if is_active m
    then (record_link m p >>= λ linked. some (
        inc_processed (observe_latency attempts linked (sub64 now_ns p.capture_ts_ns))
          p.packet_length))
    else some m

unfoldable pub process :
    Mallocs → List Attempt → ℕ → Pool → Metrics → Packet → Option (Pool × Metrics × Packet)
process mallocs attempts now_ns pool m packet = parse mallocs packet >>= λ p.
    record_packet attempts now_ns m p >>= λ recorded.
    some (record pool { packets_processed = u32 (pool.packets_processed + 1) }, recorded, p)
