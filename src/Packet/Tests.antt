-- ===== src/Packet/Tests.antt =====
-- Frames through `packet_create` and `packet_parse`, and the theorems at these frames.
use packet_analyzer.Prelude.{
  ℕ, ◌≡◌, ◌↔◌, refl, true, none, some, List, [], ◌∷◌, arith, length, take, drop, memcpy,
}
use packet_analyzer.Packet.{
  Packet, Mallocs, parse, parse_raw, parse_link, parse_network, parse_transport, extract_payload,
}
use packet_analyzer.Packet.Headers.{ethernet_header, ipv4_header, udp_header, ntohs}
use packet_analyzer.Packet.Bounds.{ReadsPastEnd, parse-none}
use packet_analyzer.Packet.Payload.{IsFresh, AllAllocated, PayloadBehindHeaders, parse_payload}
use packet_analyzer.Packet.Udp.{HasUdp, parse_udp}

abbrev allocated : Mallocs
allocated = record {
  packet = true;
  raw_data = true;
  ethernet = true;
  ipv4 = true;
  tcp = true;
  udp = true;
  payload = true;
}

allocated-AllAllocated : AllAllocated allocated
allocated-AllAllocated = record {
  for_packet = refl;
  for_raw_data = refl;
  for_ethernet = refl;
  for_ipv4 = refl;
  for_tcp = refl;
  for_udp = refl;
  for_payload = refl;
}

-- A UDP datagram with the payload 7, 9.
abbrev udp_frame : List ℕ
udp_frame =
    1 ∷ 2 ∷ 3 ∷ 4 ∷ 5 ∷ 6 ∷ 7 ∷ 8 ∷ 9 ∷ 10 ∷ 11 ∷ 12 ∷ 8 ∷ 0 ∷ 69 ∷ 0 ∷ 0 ∷ 30 ∷ 0 ∷ 1 ∷ 0 ∷ 0 ∷ 64
    ∷ 17 ∷ 0 ∷ 0 ∷ 10 ∷ 0 ∷ 0 ∷ 1 ∷ 10 ∷ 0 ∷ 0 ∷ 2 ∷ 0 ∷ 53 ∷ 1 ∷ 0 ∷ 0 ∷ 10 ∷ 0 ∷ 0 ∷ 7 ∷ 9 ∷ []

-- An IPv4 header that counts 60 bytes, in a frame that ends after 20 of them.
abbrev long_header : List ℕ
long_header =
    1 ∷ 2 ∷ 3 ∷ 4 ∷ 5 ∷ 6 ∷ 7 ∷ 8 ∷ 9 ∷ 10 ∷ 11 ∷ 12 ∷ 8 ∷ 0 ∷ 79 ∷ 0 ∷ 0 ∷ 30 ∷ 0 ∷ 1 ∷ 0 ∷ 0 ∷ 64
    ∷ 6 ∷ 0 ∷ 0 ∷ 10 ∷ 0 ∷ 0 ∷ 1 ∷ 10 ∷ 0 ∷ 0 ∷ 2 ∷ []

abbrev captured_as : List ℕ → Packet
captured_as raw = record {
  timestamp = 100;
  capture_ts_ns = 200;
  packet_length = length raw;
  raw_data = some raw;
  ethernet = none;
  ipv4 = none;
  tcp = none;
  udp = none;
  payload = none;
  payload_length = 0;
}

udp_frame-IsFresh : IsFresh (captured_as udp_frame) udp_frame
udp_frame-IsFresh = record {
  captured = record { held = refl; sized = refl; fits = omega arith };
  no_ipv4 = refl;
  no_tcp = refl;
  no_udp = refl;
  no_payload = refl;
  no_bytes = refl;
}

udp_frame-HasUdp : HasUdp udp_frame
unfolding ntohs
udp_frame-HasUdp = record {
  is_ipv4 = refl;
  is_udp = refl;
  inside = omega arith;
  full = omega arith;
}

-- What a parse of the datagram leaves.
abbrev parsed_udp : Packet
parsed_udp = record (captured_as udp_frame) {
  ethernet = some (ethernet_header (take 14 udp_frame));
  ipv4 = some (ipv4_header (take 20 (drop 14 udp_frame)));
  udp = some (udp_header (take 8 (drop 34 udp_frame)));
  payload = some (7 ∷ 9 ∷ []);
  payload_length = 2;
}

parse-udp_frame : parse allocated (captured_as udp_frame) ≡ some parsed_udp
unfolding parse parse_raw parse_link parse_network parse_transport extract_payload ntohs memcpy
    ethernet_header ipv4_header
parse-udp_frame = refl

parse-long_header : parse allocated (captured_as long_header) ≡ none
unfolding parse parse_raw parse_link parse_network parse_transport ntohs memcpy ethernet_header
    ipv4_header
parse-long_header = refl

parse-none_example :
    (parse allocated (captured_as long_header) ≡ none) ↔ ReadsPastEnd allocated long_header
parse-none_example =
    parse-none allocated (captured_as long_header) long_header
      (record { held = refl; sized = refl; fits = omega arith })

parse_payload_example : PayloadBehindHeaders parsed_udp udp_frame
parse_payload_example =
    parse_payload allocated (captured_as udp_frame) parsed_udp udp_frame udp_frame-IsFresh
      allocated-AllAllocated (omega arith) parse-udp_frame

parse_udp_example :
    (p' : Packet) × (parse allocated (captured_as udp_frame) ≡ some p')
    × (p'.ethernet ≡ some (ethernet_header (take 14 udp_frame)))
    × (p'.ipv4 ≡ some (ipv4_header (take 20 (drop 14 udp_frame))))
    × (p'.udp ≡ some (udp_header (take 8 (drop 34 udp_frame))))
    × (p'.tcp ≡ none)
    × (p'.payload_length ≡ 2)
parse_udp_example =
    parse_udp allocated (captured_as udp_frame) udp_frame udp_frame-IsFresh allocated-AllAllocated
      udp_frame-HasUdp
