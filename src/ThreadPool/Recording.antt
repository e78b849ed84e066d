-- ===== src/ThreadPool/Recording.antt =====
-- What a worker adds to the metrics for one packet.
use packet_analyzer.Prelude.{
  ℕ, ◌+◌, ◌^◌, ◌<◌, ◌≡◌, ◌⊎◌, inl, inr, refl, arith, true, List, none, some, leb, ◌==◌,
  if◌then◌else◌, get_elem?-eq-get_or, length, u64, sub64, Bool-cases, Option-cases, get_or, ◌&&◌,
}
use packet_analyzer.Packet.{Packet}
use packet_analyzer.Packet.Headers.{EthernetHeader, ntohs}
use packet_analyzer.Metrics.Counters.{
  Metrics, is_active, record_ethertype, record_protocol, inc_processed,
}
use packet_analyzer.Metrics.Latency.{Attempt, observe_latency}
use packet_analyzer.ThreadPool.Worker.{record_l4, record_link, record_packet}

abbrev pub ethertype_count : Metrics → ℕ
ethertype_count m = m.ether_ipv4 + m.ether_ipv6 + m.ether_arp + m.ether_other

abbrev pub protocol_count : Metrics → ℕ
protocol_count m = m.proto_tcp + m.proto_udp + m.proto_icmp + m.proto_other

-- No counter is at the end of its range.
pub record HasRoom (m : Metrics) : Type 0 where
  pub ethertypes : ethertype_count m + 1 < 2 ^ 64
  pub protocols : protocol_count m + 1 < 2 ^ 64
  pub packets : m.pkts_processed + 1 < 2 ^ 64
  pub latencies : m.latency_count + 1 < 2 ^ 64

-- The raw data is gone, or is as long as the packet says.
abbrev IsSized : Packet → Type 0
IsSized p =
    (p.raw_data ≡ none)
    ⊎ ((raw : List ℕ) × (p.raw_data ≡ some raw) × (p.packet_length ≡ length raw))

-- How many protocols the packet shows to the metrics: none or one.
abbrev pub shown_protocols : Packet → ℕ → ℕ
shown_protocols p ethertype =
    if ethertype == 0x0800
    then elim p.ipv4 [ none ↦ 0 | some _ ↦ 1 ]
    else (if ethertype == 0x86DD
        then elim p.raw_data [ none ↦ 0 | some _ ↦ if leb 54 p.packet_length then 1 else 0 ]
        else 0)

record_protocol-counts :
    (m : Metrics) (protocol : ℕ)
    → protocol_count m + 1 < 2 ^ 64
    → (protocol_count (record_protocol m protocol) ≡ protocol_count m + 1)
      × (ethertype_count (record_protocol m protocol) ≡ ethertype_count m)
      × ((record_protocol m protocol).pkts_processed ≡ m.pkts_processed)
      × ((record_protocol m protocol).bytes_processed ≡ m.bytes_processed)
      × ((record_protocol m protocol).latency_count ≡ m.latency_count)
unfolding record_protocol
record_protocol-counts m protocol h = ground arith

record_ethertype-counts :
    (m : Metrics) (ethertype : ℕ)
    → ethertype_count m + 1 < 2 ^ 64
    → (ethertype_count (record_ethertype m ethertype) ≡ ethertype_count m + 1)
      × (protocol_count (record_ethertype m ethertype) ≡ protocol_count m)
      × ((record_ethertype m ethertype).pkts_processed ≡ m.pkts_processed)
      × ((record_ethertype m ethertype).bytes_processed ≡ m.bytes_processed)
      × ((record_ethertype m ethertype).latency_count ≡ m.latency_count)
unfolding record_ethertype
record_ethertype-counts m ethertype h = ground arith

-- One protocol is recorded, or none: the next header is never read outside of the raw data.
record_l4-cases :
    (m : Metrics) (p : Packet) (ethertype : ℕ)
    → IsSized p
    → ((record_l4 m p ethertype ≡ some m) × (shown_protocols p ethertype ≡ 0))
      ⊎ ((protocol : ℕ) × (record_l4 m p ethertype ≡ some (record_protocol m protocol))
          × (shown_protocols p ethertype ≡ 1))
unfolding record_l4
record_l4-cases m p ethertype s = elim (Bool-cases (ethertype == 0x0800)) [
  | inl v4 ↦ elim (Option-cases p.ipv4) [
    | inl e ↦ inl (ground arith, ground arith)
    | inr (ip, e) ↦ inr (ip.protocol, ground arith, ground arith)
  ]
  | inr not_v4 ↦ elim s [
    | inl e ↦ inl (ground arith, ground arith)
    | inr (raw, e, size) ↦ elim (Bool-cases ((ethertype == 0x86DD) && leb 54 p.packet_length)) [
      | inl v6 ↦
          let here = get_elem?-eq-get_or raw 20 0 (ground arith) in
          inr (get_or raw 20 0, ground (arith, here), ground arith)
      | inr not_v6 ↦ inl (ground arith, ground arith)
    ]
  ]
]

record_packet-link :
    (attempts : List Attempt) (now_ns : ℕ) (m linked : Metrics) (p : Packet)
    → is_active m ≡ true
    → record_link m p ≡ some linked
    → record_packet attempts now_ns m p
      ≡ some (
          inc_processed
            (observe_latency attempts linked (sub64 now_ns p.capture_ts_ns))
            p.packet_length)
unfolding record_packet
record_packet-link attempts now_ns m linked p active e = rw active (rw e refl)

record_link-none : (m : Metrics) (p : Packet) → p.ethernet ≡ none → record_link m p ≡ some m
unfolding record_link
record_link-none m p e = rw e refl

record_link-l4 :
    (m linked : Metrics) (p : Packet) (eth : EthernetHeader)
    → p.ethernet ≡ some eth
    → record_l4 (record_ethertype m (ntohs eth.ethertype)) p (ntohs eth.ethertype) ≡ some linked
    → record_link m p ≡ some linked
unfolding record_link
record_link-l4 m linked p eth e h = ground (arith, e, h)

-- For a packet parsed while the metrics are active, a worker counts the packet once, with its
-- length, and one latency; it counts one EtherType if the packet has an Ethernet header, and then
-- one protocol if it is IPv4 with a header or IPv6 with at least 54 bytes. The next header of IPv6
-- is read inside the packet. No counter stands at the end of its range, and the raw data, if there
-- is any, is as long as the packet says.
pub record_packet_counts :
    (attempts : List Attempt) (now_ns : ℕ) (m : Metrics) (p : Packet)
    → is_active m ≡ true
    → HasRoom m
    → IsSized p
    → (m' : Metrics) × (record_packet attempts now_ns m p ≡ some m')
      × (m'.pkts_processed ≡ m.pkts_processed + 1)
      × (m'.bytes_processed ≡ u64 (m.bytes_processed + p.packet_length))
      × (m'.latency_count ≡ m.latency_count + 1)
      × (((p.ethernet ≡ none)
            × (ethertype_count m' ≡ ethertype_count m)
            × (protocol_count m' ≡ protocol_count m))
          ⊎ ((eth : EthernetHeader) × (p.ethernet ≡ some eth)
              × (ethertype_count m' ≡ ethertype_count m + 1)
              × (protocol_count m' ≡ protocol_count m + shown_protocols p (ntohs eth.ethertype))))
unfolding inc_processed observe_latency
record_packet_counts attempts now_ns m p active room s = elim (Option-cases p.ethernet) [
  | inl no_header ↦ (
    _,
    record_packet-link attempts now_ns m m p active (record_link-none m p no_header),
    ground (arith, room.packets),
    refl,
    ground (arith, room.latencies),
    inl (no_header, refl, refl),
  )
  | inr (eth, e) ↦
      let ethertype = ntohs eth.ethertype in
      let counted = record_ethertype m ethertype in
      let c = record_ethertype-counts m ethertype room.ethertypes in
      elim (record_l4-cases counted p ethertype s) [
        | inl (l4, shown) ↦ (
          _,
          record_packet-link attempts now_ns m counted p active
              (record_link-l4 m counted p eth e l4),
          ground (arith, room.packets, c),
          ground (arith, c),
          ground (arith, room.latencies, c),
          inr (eth, e, ground (arith, c), ground (arith, c, shown)),
        )
        | inr (protocol, l4, shown) ↦
            let linked = record_protocol counted protocol in
            let d = record_protocol-counts counted protocol (ground (arith, c, room.protocols)) in
            (
              _,
              record_packet-link attempts now_ns m linked p active
                  (record_link-l4 m linked p eth e l4),
              ground (arith, room.packets, c, d),
              ground (arith, c, d),
              ground (arith, room.latencies, c, d),
              inr (eth, e, ground (arith, c, d), ground (arith, c, d, shown)),
            )
      ]
]
