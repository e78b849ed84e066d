-- ===== src/Packet/Payload.antt =====
-- What `packet_parse` finds: the headers that it records and the payload behind them.
use packet_analyzer.Prelude.{
  ℕ, zero, suc, sub32, ◌+◌, ◌-◌, ◌*◌, ◌/◌, ◌%◌, ◌^◌, ◌≤◌, ◌<◌, ◌≡◌, ◌∙◌, sym, refl, true, Option,
  none, some, List, [], ◌∷◌, ap, length-drop, arith, length, memcpy, take, length-take, drop, u8,
  ltb, if◌then◌else◌, Option-cases, inl, inr,
}
use packet_analyzer.Packet.Headers.{
  EthernetHeader, Ipv4Header, TcpHeader, UdpHeader, ethernet_header, ipv4_header, ethernet_size,
}
use packet_analyzer.Packet.{
  Packet, Mallocs, create, parse_transport, parse_network, extract_payload, parse_link, parse_raw,
  parse,
}
use packet_analyzer.Packet.Bounds.{IsCaptured, parse-eq-parse_raw, packet_length-parse_link}

take_all : (n : ℕ) (xs : List ℕ) → n ≡ length xs → take n xs ≡ xs
take_all zero [] h = refl
take_all (suc n) [] h = refl
take_all zero (x ∷ xs) h = absurd (omega arith)
take_all (suc n) (x ∷ xs) h = ap (◌∷◌ x) (take_all n xs (omega arith))

-- A packet as `packet_create` returns it: captured, and with nothing parsed.
pub record IsFresh (p : Packet) (raw : List ℕ) : Type 0 where
  pub captured : IsCaptured p raw
  pub no_ipv4 : p.ipv4 ≡ none
  pub no_tcp : p.tcp ≡ none
  pub no_udp : p.udp ≡ none
  pub no_payload : p.payload ≡ none
  pub no_bytes : p.payload_length ≡ 0

pub record AllAllocated (m : Mallocs) : Type 0 where
  pub for_packet : m.packet ≡ true
  pub for_raw_data : m.raw_data ≡ true
  pub for_ethernet : m.ethernet ≡ true
  pub for_ipv4 : m.ipv4 ≡ true
  pub for_tcp : m.tcp ≡ true
  pub for_udp : m.udp ≡ true
  pub for_payload : m.payload ≡ true

-- `packet_create` copies the first `length` bytes of a buffer that holds them, stamps the copy with
-- the two clocks, and parses nothing yet.
pub create-IsFresh :
    (m : Mallocs) (time now_ns : ℕ) (source : List ℕ) (n : ℕ)
    → AllAllocated m
    → 0 < n
    → n ≤ length source
    → n < 2 ^ 32
    → (p : Packet) × (create m time now_ns (some source) n ≡ some (some p))
      × IsFresh p (take n source)
      × (p.timestamp ≡ time)
      × (p.capture_ts_ns ≡ now_ns)
unfolding create memcpy
create-IsFresh m time now_ns source n a pos hs fits = (
  record {
    timestamp = time;
    capture_ts_ns = now_ns;
    packet_length = n;
    raw_data = some (take n source);
    ethernet = none;
    ipv4 = none;
    tcp = none;
    udp = none;
    payload = none;
    payload_length = 0;
  },
  ground arith,
  record {
    captured = record {
      held = refl;
      sized = omega (arith, length-take n source);
      fits = omega (arith, length-take n source);
    };
    no_ipv4 = refl;
    no_tcp = refl;
    no_udp = refl;
    no_payload = refl;
    no_bytes = refl;
  },
  refl,
  refl,
)

-- The sizes of the headers that a packet records, by their own counts.
pub ethernet_bytes : Option EthernetHeader → ℕ
ethernet_bytes none = 0
ethernet_bytes (some _) = 14

pub ipv4_bytes : Option Ipv4Header → ℕ
ipv4_bytes none = 0
ipv4_bytes (some ip) = u8 (ip.version_ihl % 16 * 4)

pub tcp_bytes : Option TcpHeader → ℕ
tcp_bytes none = 0
tcp_bytes (some tcp) = u8 (tcp.data_offset / 16 * 4)

pub udp_bytes : Option UdpHeader → ℕ
udp_bytes none = 0
udp_bytes (some _) = 8

abbrev pub headers_size : Packet → ℕ
headers_size p = ethernet_bytes p.ethernet + ipv4_bytes p.ipv4 + tcp_bytes p.tcp + udp_bytes p.udp

-- The payload is what lies behind the recorded headers, if anything does.
pub record PayloadBehindHeaders (p : Packet) (raw : List ℕ) : Type 0 where
  pub counted : p.payload_length ≡ length raw - headers_size p
  pub copied :
      p.payload
      ≡ (if ltb (headers_size p) (length raw) then some (drop (headers_size p) raw) else none)
  pub untouched : p.raw_data ≡ some raw

-- A packet whose offset lies behind the headers that it records, with no payload taken yet.
record Advanced (p q : Packet) (offset : ℕ) : Type 0 where
  behind : offset ≡ headers_size q
  same_raw : q.raw_data ≡ p.raw_data
  same_payload : q.payload ≡ p.payload
  same_count : q.payload_length ≡ p.payload_length

parse_transport-Advanced :
    (m : Mallocs) (p : Packet) (raw : List ℕ) (ip : Ipv4Header) (offset : ℕ) (r : Packet × ℕ)
    → offset ≡ headers_size p
    → offset ≤ 74
    → p.tcp ≡ none
    → p.udp ≡ none
    → parse_transport m p raw ip offset ≡ some r
    → Advanced p r.0 r.1
unfolding parse_transport memcpy tcp_bytes udp_bytes
parse_transport-Advanced m p raw ip offset r e small ht hu h = ground arith

parse_link-Advanced :
    (m : Mallocs) (p : Packet) (raw : List ℕ) (eth : EthernetHeader) (r : Packet × ℕ)
    → p.ethernet ≡ some eth
    → p.ipv4 ≡ none
    → p.tcp ≡ none
    → p.udp ≡ none
    → parse_link m p raw eth ethernet_size ≡ some r
    → Advanced p r.0 r.1
unfolding parse_link parse_network memcpy ethernet_bytes ipv4_bytes tcp_bytes udp_bytes
parse_link-Advanced m p raw eth r he hi ht hu h =
    let ip = ipv4_header (take 20 (drop 14 raw)) in
    let q : Packet = record p { ipv4 = some ip } in
    let size = 14 + u8 (ip.version_ihl % 16 * 4) in
    ground (arith, parse_transport-Advanced m q raw ip size r)

extract_payload_lem :
    (m : Mallocs) (q p' : Packet) (raw : List ℕ) (offset : ℕ)
    → q.packet_length ≡ length raw
    → length raw < 2 ^ 32
    → m.payload ≡ true
    → offset ≡ headers_size q
    → q.raw_data ≡ some raw
    → q.payload ≡ none
    → q.payload_length ≡ 0
    → extract_payload m q raw offset ≡ some p'
    → PayloadBehindHeaders p' raw
unfolding extract_payload memcpy
extract_payload_lem m q p' raw offset e fits a b hr hp hl h =
    let rest : offset < length raw
        → take (sub32 q.packet_length offset) (drop offset raw) ≡ drop offset raw =
      λ lt.
        take_all (sub32 q.packet_length offset) (drop offset raw)
          (omega (arith, length-drop offset raw)) in
    ground (arith, rest)

parse_raw_payload :
    (m : Mallocs) (p p' : Packet) (raw : List ℕ)
    → IsFresh p raw
    → AllAllocated m
    → 14 ≤ length raw
    → parse_raw m p raw ≡ some p'
    → PayloadBehindHeaders p' raw
unfolding parse_raw memcpy
parse_raw_payload m p p' raw f a long h =
    let eth = ethernet_header (take 14 raw) in
    let q : Packet = record p { ethernet = some eth } in
    let c = f.captured in
    elim (Option-cases (parse_link m q raw eth ethernet_size)) [
      | inl fault ↦ absurd (ground (arith, c.sized, a.for_ethernet))
      | inr (r, ran) ↦
          let on = parse_link-Advanced m q raw eth r refl f.no_ipv4 f.no_tcp f.no_udp ran in
          extract_payload_lem m r.0 p' raw r.1
            (packet_length-parse_link m q raw eth ethernet_size r ran ∙ c.sized) c.fits
            a.for_payload on.behind (on.same_raw ∙ c.held) (on.same_payload ∙ f.no_payload)
            (on.same_count ∙ f.no_bytes) (ground (arith, c.sized, a.for_ethernet))
    ]

-- When `packet_parse` of a fresh packet of at least 14 bytes returns, with its allocations done, the
-- payload is exactly the bytes behind the headers that it recorded, its length is their number, and
-- the raw bytes are as before.
pub parse_payload :
    (m : Mallocs) (p p' : Packet) (raw : List ℕ)
    → IsFresh p raw
    → AllAllocated m
    → 14 ≤ length raw
    → parse m p ≡ some p'
    → PayloadBehindHeaders p' raw
parse_payload m p p' raw f a long h =
    parse_raw_payload m p p' raw f a long (sym (parse-eq-parse_raw m p raw f.captured.held) ∙ h)
