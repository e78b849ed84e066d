-- ===== src/Packet/Udp.antt =====
-- `packet_parse` on a UDP packet over IPv4, from the frame to the payload.
use packet_analyzer.Prelude.{
  ℕ, ◌+◌, ◌-◌, ◌^◌, ◌≤◌, ◌<◌, ◌≡◌, ◌∙◌, refl, true, Option, none, some, List, arith, length, memcpy,
  take, drop, ltb, if◌then◌else◌,
}
use packet_analyzer.Packet.Headers.{
  Ipv4Header, ethernet_header, ipv4_header, udp_header, ethernet_size,
}
use packet_analyzer.Packet.{
  Packet, Mallocs, parse_transport, parse_network, extract_payload, parse_link, parse_raw, parse,
}
use packet_analyzer.Packet.Payload.{IsFresh, AllAllocated}
use packet_analyzer.Packet.Bounds.{
  ethertype_copied, ipv4_copied, ethertype, protocol, ihl, parse-eq-parse_raw,
}

-- A UDP packet over IPv4 whose headers lie inside it.
pub record HasUdp (raw : List ℕ) : Type 0 where
  pub is_ipv4 : ethertype raw ≡ 0x0800
  pub is_udp : protocol raw ≡ 17
  pub inside : 14 + ihl raw + 8 ≤ length raw
  pub full : 34 ≤ length raw

parse_transport_udp :
    (m : Mallocs) (p : Packet) (raw : List ℕ) (ip : Ipv4Header) (offset : ℕ)
    → p.packet_length ≡ length raw
    → length raw < 2 ^ 32
    → offset + 8 ≤ length raw
    → ip.protocol ≡ 17
    → m.udp ≡ true
    → parse_transport m p raw ip offset
      ≡ some (record p { udp = some (udp_header (take 8 (drop offset raw))) }, offset + 8)
unfolding parse_transport memcpy
parse_transport_udp m p raw ip offset e fits inside k a = ground arith

parse_link_udp :
    (m : Mallocs) (p : Packet) (raw : List ℕ)
    → p.packet_length ≡ length raw
    → length raw < 2 ^ 32
    → AllAllocated m
    → HasUdp raw
    → parse_link m p raw (ethernet_header (take 14 raw)) ethernet_size
      ≡ some (
        record p {
          ipv4 = some (ipv4_header (take 20 (drop 14 raw)));
          udp = some (udp_header (take 8 (drop (14 + ihl raw) raw)));
        },
        14 + ihl raw + 8,
      )
unfolding parse_link parse_network memcpy
parse_link_udp m p raw e fits a u =
    let ip = ipv4_header (take 20 (drop 14 raw)) in
    let t =
      parse_transport_udp m (record p { ipv4 = some ip }) raw ip (14 + ihl raw) e fits u.inside
        ((ipv4_copied raw).1 ∙ u.is_udp) a.for_udp in
    ground (arith, ethertype_copied raw, (ipv4_copied raw).0, t)

parse_raw_of_link :
    (m : Mallocs) (p q : Packet) (raw : List ℕ) (offset : ℕ)
    → p.packet_length ≡ length raw
    → 14 ≤ length raw
    → m.ethernet ≡ true
    → (let eth = ethernet_header (take 14 raw) in
        parse_link m (record p { ethernet = some eth }) raw eth ethernet_size ≡ some (q, offset))
    → parse_raw m p raw ≡ extract_payload m q raw offset
unfolding parse_raw memcpy
parse_raw_of_link m p q raw offset e long a h = ground arith

-- For a fresh IPv4 packet with protocol 17 whose Ethernet, IPv4 and UDP headers lie inside it, by its
-- header length, and with all allocations done, `packet_parse` records the three headers from their
-- offsets and no TCP header, and the payload length is what is left behind them.
pub parse_udp :
    (m : Mallocs) (p : Packet) (raw : List ℕ)
    → IsFresh p raw
    → AllAllocated m
    → HasUdp raw
    → (p' : Packet) × (parse m p ≡ some p')
      × (p'.ethernet ≡ some (ethernet_header (take 14 raw)))
      × (p'.ipv4 ≡ some (ipv4_header (take 20 (drop 14 raw))))
      × (p'.udp ≡ some (udp_header (take 8 (drop (14 + ihl raw) raw))))
      × (p'.tcp ≡ none)
      × (p'.payload_length ≡ length raw - (14 + ihl raw + 8))
unfolding extract_payload memcpy
parse_udp m p raw f a u =
    let start = 14 + ihl raw in
    let left = length raw - (start + 8) in
    let linked : Packet = record p {
      ethernet = some (ethernet_header (take 14 raw));
      ipv4 = some (ipv4_header (take 20 (drop 14 raw)));
      udp = some (udp_header (take 8 (drop start raw)));
    } in
    let payload : Option (List ℕ) =
      if ltb (start + 8) (length raw) then some (take left (drop (start + 8) raw)) else none in
    let q : Packet = record linked { payload_length = left; payload = payload } in
    let taken : extract_payload m linked raw (start + 8) ≡ some q = ground (
      arith, f.captured.sized, f.captured.fits, u.inside, a.for_payload, f.no_payload, f.no_bytes,
    ) in
    (
      q,
      parse-eq-parse_raw m p raw f.captured.held
          ∙ parse_raw_of_link m p linked raw (start + 8) f.captured.sized (omega (arith, u.full))
              a.for_ethernet
              (parse_link_udp m (record p { ethernet = some (ethernet_header (take 14 raw)) }) raw
                f.captured.sized f.captured.fits a u)
          ∙ taken,
      refl,
      refl,
      refl,
      f.no_tcp,
      refl,
    )
