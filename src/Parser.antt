-- ===== src/Parser.antt =====
-- include/parser.h and src/parser.c: checksum validation and the packet statistics. What is
-- logged is in `Parser.Log`. A null pointer is `none`; an outer `none` is an access outside of an allocation.
pub mod Checksum
pub mod Statistics
pub mod Log
mod Tests
use packet_analyzer.Prelude.{
  ℕ, zero, suc, ◌+◌, ◌-◌, ◌*◌, ◌/◌, ◌%◌, Bool, true, false, Option, none, some, List, [], ◌∷◌,
  ◌>>=◌, leb, ◌==◌, if◌then◌else◌, length, u16, u32, u64,
}
use packet_analyzer.Packet.Headers.{Ipv4Header, TcpHeader, ntohs, load16, byte_at}
use packet_analyzer.Packet.{Packet}

-- `parser_stats_t`
pub record Stats : Type 0 where
  pub total_packets : ℕ
  pub ipv4_packets : ℕ
  pub tcp_packets : ℕ
  pub udp_packets : ℕ
  pub malformed_packets : ℕ
  pub total_bytes : ℕ

-- `data[i]` for a `const uint16_t *` to the header, inside its allocation.
pub word? : List ℕ → ℕ → Option ℕ
word? bytes i = if leb (2 * i + 2) (length bytes) then some (load16 bytes (2 * i)) else none

-- The loop that adds the words up, without word 5, with `n` rounds left.
pub sum_words : List ℕ → ℕ → ℕ → ℕ → Option ℕ
sum_words bytes zero i sum = some sum
sum_words bytes (suc n) i sum =
    (if i == 5 then some sum else (word? bytes i >>= λ word. some (u32 (sum + ntohs word))))
    >>= λ sum'. sum_words bytes n (i + 1) sum'

-- `while (sum >> 16)`, on fuel; `none` where the fuel runs out.
pub fold : ℕ → ℕ → Option ℕ
fold zero sum = none
fold (suc fuel) sum = elim (sum / 65536 == 0) [
  | true ↦ some sum
  | false ↦ fold fuel (u32 (sum % 65536 + sum / 65536))
]

-- The allocation behind the header pointer is its list of bytes. Three rounds are enough for `fold`.
pub validate_ipv4_checksum : Option (List ℕ) → Option Bool
validate_ipv4_checksum none = some false
validate_ipv4_checksum (some bytes) = sum_words bytes (byte_at bytes 0 % 16 * 2) 0 0 >>= λ sum.
    fold 3 sum >>= λ folded.
    word? bytes 5 >>= λ checksum. some ((65535 - u16 folded) == ntohs checksum)

pub validate_tcp_checksum : Option TcpHeader → Bool
validate_tcp_checksum none = false
validate_tcp_checksum (some tcp) = true

-- The two bytes of a `uint16_t` and the four of a `uint32_t` in memory.
abbrev pub bytes16 : ℕ → List ℕ → List ℕ
bytes16 n rest = n % 256 ∷ n / 256 % 256 ∷ rest

abbrev pub bytes32 : ℕ → List ℕ → List ℕ
bytes32 n rest = bytes16 (n % 65536) (bytes16 (n / 65536) rest)

-- An IPv4 header structure as the 20 bytes that it takes.
pub ipv4_memory : Ipv4Header → List ℕ
ipv4_memory h =
    h.version_ihl
    ∷ h.dscp_ecn
    ∷ bytes16 h.total_length (
        bytes16 h.identification (
          bytes16 h.flags_fragment
            (h.ttl ∷ h.protocol ∷ bytes16 h.checksum (bytes32 h.src_ip (bytes32 h.dst_ip [])))))

-- The parsing functions read the headers for the log, and count in the statistics.
pub parse_ipv4_header : Stats → Option Packet → Option Stats
parse_ipv4_header s none = some s
parse_ipv4_header s (some p) = elim p.ipv4 [
  | none ↦ some s
  | some ip ↦ validate_ipv4_checksum (some (ipv4_memory ip)) >>= λ valid. some (record s {
    ipv4_packets = u32 (s.ipv4_packets + 1);
    malformed_packets = if valid then s.malformed_packets else u32 (s.malformed_packets + 1);
  })
]

pub parse_tcp_header : Stats → Option Packet → Stats
parse_tcp_header s none = s
parse_tcp_header s (some p) = elim p.tcp [
  | none ↦ s
  | some _ ↦ record s { tcp_packets = u32 (s.tcp_packets + 1) }
]

pub parse_udp_header : Stats → Option Packet → Stats
parse_udp_header s none = s
parse_udp_header s (some p) = elim p.udp [
  | none ↦ s
  | some _ ↦ record s { udp_packets = u32 (s.udp_packets + 1) }
]

pub print_packet_info : Stats → Option Packet → Stats
print_packet_info s none = s
print_packet_info s (some p) = record s {
  total_packets = u32 (s.total_packets + 1);
  total_bytes = u64 (s.total_bytes + p.packet_length);
}
