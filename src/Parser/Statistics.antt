-- ===== src/Parser/Statistics.antt =====
-- The statistics of src/parser.c, and the header memory that they are taken from.
use packet_analyzer.Prelude.{
  ℕ, ◌+◌, ◌%◌, ◌^◌, ◌≤◌, ◌<◌, ◌≡◌, ◌↔◌, refl, none, some, List, [], ◌∷◌, arith,
}
use packet_analyzer.Packet.Headers.{Ipv4Header, ipv4_header}
use packet_analyzer.Packet.{Packet}
use packet_analyzer.Parser.{
  Stats, ipv4_memory, parse_ipv4_header, parse_tcp_header, parse_udp_header, print_packet_info,
}
use packet_analyzer.Parser.Checksum.{validate-none}

abbrev pub AllBytes : List ℕ → Type 0
AllBytes [] = Unit {0}
AllBytes (b ∷ bytes) = (b < 256) × AllBytes bytes

-- What `memcpy` puts into the IPv4 structure is what the checksum validation reads back: the memory
-- of the structure is the 20 bytes that it was filled from.
pub ipv4_memory-ipv4_header :
    (b0 b1 b2 b3 b4 b5 b6 b7 b8 b9 c0 c1 c2 c3 c4 c5 c6 c7 c8 c9 : ℕ)
    → let bytes =
        b0 ∷ b1 ∷ b2 ∷ b3 ∷ b4 ∷ b5 ∷ b6 ∷ b7 ∷ b8 ∷ b9 ∷ c0 ∷ c1 ∷ c2 ∷ c3 ∷ c4 ∷ c5 ∷ c6 ∷ c7 ∷ c8
        ∷ c9 ∷ [] in
      AllBytes bytes → ipv4_memory (ipv4_header bytes) ≡ bytes
unfolding ipv4_memory ipv4_header
ipv4_memory-ipv4_header b0 b1 b2 b3 b4 b5 b6 b7 b8 b9 c0 c1 c2 c3 c4 c5 c6 c7 c8 c9 h = ground arith

-- `parse_ipv4_header` reads outside of the copied header exactly for a header with options.
pub parse_ipv4_header-none :
    (s : Stats) (p : Packet) (ip : Ipv4Header)
    → p.ipv4 ≡ some ip
    → (parse_ipv4_header s (some p) ≡ none) ↔ (5 < ip.version_ihl % 16)
unfolding parse_ipv4_header ipv4_memory
parse_ipv4_header-none s p ip e =
    let n = validate-none (ipv4_memory ip) refl in
    (λ h. ground (arith, n.0), λ h. ground (arith, n.1))

-- The counters of a run in which none has wrapped: no more packets are malformed than are IPv4.
pub record IsConsistent (s : Stats) : Type 0 where
  pub malformed : s.malformed_packets ≤ s.ipv4_packets
  pub in_range : s.ipv4_packets < 2 ^ 32

-- Every counting call keeps the statistics consistent, up to 2^32 - 1 IPv4 packets; counting an IPv4
-- packet adds at most one to each of its two counters.
pub counting-IsConsistent :
    (s : Stats) (p : Packet)
    → IsConsistent s
    → s.ipv4_packets + 1 < 2 ^ 32
    → ((s' : Stats)
        → parse_ipv4_header s (some p) ≡ some s'
        → IsConsistent s'
          × (s'.ipv4_packets ≤ s.ipv4_packets + 1)
          × (s'.malformed_packets ≤ s.malformed_packets + 1))
      × IsConsistent (parse_tcp_header s (some p))
      × IsConsistent (parse_udp_header s (some p))
      × IsConsistent (print_packet_info s (some p))
unfolding parse_ipv4_header parse_tcp_header parse_udp_header print_packet_info
counting-IsConsistent s p c room = (λ s' h. ground arith, ground arith, ground arith, ground arith)
