-- ===== src/Parser/Tests.antt =====
-- A header with its checksum, and the theorems of the parser at concrete headers.
use packet_analyzer.Prelude.{
  ℕ, ◌+◌, ◌%◌, ◌<◌, ◌≡◌, ◌↔◌, refl, true, false, none, some, List, [], ◌∷◌, arith, ltb, ◌&&◌, ◌==◌,
}
use packet_analyzer.Packet.Headers.{Ipv4Header, ipv4_header, ntohs}
use packet_analyzer.Packet.{Packet}
use packet_analyzer.Parser.{
  Stats, word?, sum_words, fold, validate_ipv4_checksum, parse_ipv4_header,
}
use packet_analyzer.Parser.Checksum.{validate_lem, word_sum, checksum}
use packet_analyzer.Parser.Statistics.{parse_ipv4_header-none}

-- A UDP header of 115 bytes from 192.168.0.1 to 192.168.0.199.
abbrev header : List ℕ
header =
    69 ∷ 0 ∷ 0 ∷ 115 ∷ 0 ∷ 0 ∷ 64 ∷ 0 ∷ 64 ∷ 17 ∷ 184 ∷ 97 ∷ 192 ∷ 168 ∷ 0 ∷ 1 ∷ 192 ∷ 168 ∷ 0 ∷ 199
    ∷ []

-- The same with a sixth 32-bit word counted.
abbrev with_options : List ℕ
with_options =
    70 ∷ 0 ∷ 0 ∷ 115 ∷ 0 ∷ 0 ∷ 64 ∷ 0 ∷ 64 ∷ 17 ∷ 184 ∷ 97 ∷ 192 ∷ 168 ∷ 0 ∷ 1 ∷ 192 ∷ 168 ∷ 0 ∷ 199
    ∷ []

header_is_valid : validate_ipv4_checksum (some header) ≡ some true
unfolding validate_ipv4_checksum sum_words fold word? ntohs
header_is_valid = refl

corrupted :
    validate_ipv4_checksum (
      some (
        0x45 ∷ 1 ∷ 0 ∷ 115 ∷ 0 ∷ 0 ∷ 64 ∷ 0 ∷ 64 ∷ 17 ∷ 184 ∷ 97 ∷ 192 ∷ 168 ∷ 0 ∷ 1 ∷ 192 ∷ 168 ∷ 0
        ∷ 199 ∷ []))
    ≡ some false
unfolding validate_ipv4_checksum sum_words fold word? ntohs
corrupted = refl

abbrev zero_stats : Stats
zero_stats = record {
  total_packets = 0;
  ipv4_packets = 0;
  tcp_packets = 0;
  udp_packets = 0;
  malformed_packets = 0;
  total_bytes = 0;
}

abbrev holding : Ipv4Header → Packet
holding ip = record {
  timestamp = 0;
  capture_ts_ns = 0;
  packet_length = 34;
  raw_data = none;
  ethernet = none;
  ipv4 = some ip;
  tcp = none;
  udp = none;
  payload = none;
  payload_length = 0;
}

validate_lem_example :
    validate_ipv4_checksum (some header)
    ≡ some (ltb (checksum header) 65535 && ((word_sum header 10 + checksum header) % 65535 == 0))
validate_lem_example = validate_lem header (omega arith) (omega arith) (omega arith) (omega arith)

parse_ipv4_header-none_example :
    (parse_ipv4_header zero_stats (some (holding (ipv4_header with_options))) ≡ none)
    ↔ (5 < (ipv4_header with_options).version_ihl % 16)
parse_ipv4_header-none_example =
    parse_ipv4_header-none zero_stats (holding (ipv4_header with_options))
      (ipv4_header with_options) refl
