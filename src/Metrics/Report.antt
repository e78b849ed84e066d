-- ===== src/Metrics/Report.antt =====
-- What `metrics_print_human` and `metrics_print_live_stats` of src/metrics.c print. `format` is what
-- `printf` makes of a conversion and a `double`.
use packet_analyzer.Prelude.{
  ℕ, Bool-cases, ltb→lt, ◌+◌, ◌*◌, ◌≤◌, ◌<◌, ◌≡◌, ◌⊎◌, inl, inr, refl, arith, some, List, [], ◌∷◌,
  ◌++◌, ltb, if◌then◌else◌, take, u64, codes,
}
use packet_analyzer.Floating.{Floating}
use packet_analyzer.Metrics.Counters.{Metrics}
use packet_analyzer.Metrics.Metadata.{Text}
use packet_analyzer.Metrics.Decimal.{printed}
use packet_analyzer.Metrics.Snapshot.{Snapshot, snapshot, percentile_ns}

-- Texts one after the other.
abbrev pub joined : List Text → Text
joined [] = []
joined (t ∷ texts) = t ++ joined texts

module _ (F : Floating) (format : Text → F.Double → Text) where
  open F use {Double, of_u64, div, lt}

  abbrev pub in_unit : Text → ℕ → ℕ → Text
  in_unit conversion ns unit = format conversion (div (of_u64 ns) (of_u64 unit))

  -- `format_latency`, into an array of 32 bytes. The two bytes of the letter mu are UTF-8.
  unfoldable pub format_latency : ℕ → Text
  format_latency ns = take 31 (
      if ltb ns 1000
      then printed ns ++ codes "ns"
      else (if ltb ns 1000000
          then in_unit (codes "%.1f") ns 1000 ++ (194 ∷ 181 ∷ codes "s")
          else (if ltb ns 1000000000
              then in_unit (codes "%.2f") ns 1000000 ++ codes "ms"
              else in_unit (codes "%.2f") ns 1000000000 ++ codes "s")))

  -- A count over the time of the capture, and bytes in mebibytes.
  abbrev per_second : Snapshot Double → ℕ → Double
  per_second s n =
      if lt (of_u64 0) s.capture_elapsed_sec then div (of_u64 n) s.capture_elapsed_sec else of_u64 0

  abbrev mebibytes_per_second : Snapshot Double → ℕ → Double
  mebibytes_per_second s n =
      if lt (of_u64 0) s.capture_elapsed_sec
      then div (div (of_u64 n) s.capture_elapsed_sec) (of_u64 (1024 * 1024))
      else of_u64 0

  abbrev total_drops : Snapshot Double → ℕ
  total_drops s = u64 (s.queue_drops + s.capture_drops)

  -- `metrics_print_human`, with the fractions 0.50, 0.95 and 0.99.
  unfoldable pub print_human : Metrics → ℕ → Double → Double → Double → Text
  print_human m now_ns half ninety_five ninety_nine =
      let s = snapshot F m now_ns in
      let percentile : Double → Text = λ q. format_latency (percentile_ns F (some s) q) in
      joined (
        codes "[METRICS] "
        ∷ format (codes "%.1f") s.elapsed_sec
        ∷ codes "s | pkts: "
        ∷ printed s.pkts_processed
        ∷ codes " ("
        ∷ format (codes "%.0f") (per_second s s.pkts_processed)
        ∷ codes "/s) | "
        ∷ format (codes "%.2f") (mebibytes_per_second s s.bytes_processed)
        ∷ codes " MB/s | drops: "
        ∷ printed (total_drops s)
        ∷ codes " | latency p50/p95/p99/max: "
        ∷ percentile half
        ∷ codes "/"
        ∷ percentile ninety_five
        ∷ codes "/"
        ∷ percentile ninety_nine
        ∷ codes "/"
        ∷ format_latency s.latency_max_ns
        ∷ codes "\n[PROTO] L3: IPv4="
        ∷ printed s.ether_ipv4
        ∷ codes " IPv6="
        ∷ printed s.ether_ipv6
        ∷ codes " ARP="
        ∷ printed s.ether_arp
        ∷ codes " other="
        ∷ printed s.ether_other
        ∷ codes " | L4: TCP="
        ∷ printed s.proto_tcp
        ∷ codes " UDP="
        ∷ printed s.proto_udp
        ∷ codes " ICMP="
        ∷ printed s.proto_icmp
        ∷ codes " other="
        ∷ printed s.proto_other
        ∷ codes "\n"
        ∷ [])

  -- `metrics_print_live_stats`
  unfoldable pub print_live_stats : Metrics → ℕ → Text
  print_live_stats m now_ns =
      let s = snapshot F m now_ns in
      joined (
        codes "[METRICS] t="
        ∷ format (codes "%.1f") s.elapsed_sec
        ∷ codes " pkts="
        ∷ printed s.pkts_captured
        ∷ codes " pps="
        ∷ format (codes "%.0f") (per_second s s.pkts_captured)
        ∷ codes " MB/s="
        ∷ format (codes "%.2f") (mebibytes_per_second s s.bytes_captured)
        ∷ codes " drops="
        ∷ printed (total_drops s)
        ∷ codes "\n"
        ∷ [])

  -- A time is printed in nanoseconds below a microsecond, and else in a unit of micro-, milli- or whole
  -- seconds of which it is at least one and, unless the unit is seconds, fewer than a thousand.
  pub format_latency_unit :
      (ns : ℕ)
      → ((ns < 1000) × (format_latency ns ≡ take 31 (printed ns ++ codes "ns")))
        ⊎ ((unit : ℕ) × (conversion suffix : Text) × (format_latency ns
              ≡ take 31 (in_unit conversion ns unit ++ suffix))
            × (unit ≤ ns)
            × ((ns < 1000 * unit) ⊎ (unit ≡ 1000000000)))
  unfolding format_latency
  format_latency_unit ns = elim (Bool-cases (ltb ns 1000)) [
    | inl e ↦ inl (ltb→lt _ _ e, rw e refl)
    | inr e ↦ elim (Bool-cases (ltb ns 1000000)) [
      | inl k ↦ inr (
        1000,
        codes "%.1f",
        194 ∷ 181 ∷ codes "s",
        rw (e, k) refl,
        ground (arith, e),
        inl (ground (arith, k)),
      )
      | inr k ↦ elim (Bool-cases (ltb ns 1000000000)) [
        | inl m ↦ inr (
          1000000,
          codes "%.2f",
          codes "ms",
          rw (e, k, m) refl,
          ground (arith, k),
          inl (ground (arith, m)),
        )
        | inr m ↦
            inr
              (1000000000, codes "%.2f", codes "s", rw (e, k, m) refl, ground (arith, m), inr refl)
      ]
    ]
  ]
