-- ===== src/Packet/Bounds.antt =====
-- When `packet_parse` stays inside the packet, and when it reads past its end.
use packet_analyzer.Prelude.{
  Option-cases, ◌∙◌, ◌≢◌, ap, ap₂, get_or-range, get_or-take, ℕ, ◌+◌, ◌*◌, ◌%◌, ◌^◌, ◌≤◌, ◌<◌, ◌≡◌,
  ◌↔◌, ◌⊎◌, inl, inr, true, Option, none, some, List, arith, length, memcpy, take, drop,
}
use packet_analyzer.Packet.Headers.{
  EthernetHeader, Ipv4Header, ethernet_header, ipv4_header, ntohs, byte_at, load16, ethernet_size,
}
use packet_analyzer.Packet.{
  Packet, Mallocs, create, parse_transport, parse_network, extract_payload, parse_link, parse_raw,
  parse,
}

-- The bytes behind the packet structure are all of the packet, and its length is a `uint32_t`.
pub record IsCaptured (p : Packet) (raw : List ℕ) : Type 0 where
  pub held : p.raw_data ≡ some raw
  pub sized : p.packet_length ≡ length raw
  pub fits : length raw < 2 ^ 32

-- A transport header that the code would copy: TCP or UDP, with its `malloc` successful.
abbrev pub Copies : Mallocs → Ipv4Header → Type 0
Copies m ip = ((ip.protocol ≡ 6) × (m.tcp ≡ true)) ⊎ ((ip.protocol ≡ 17) × (m.udp ≡ true))

pub parse_transport-none :
    (m : Mallocs) (p : Packet) (raw : List ℕ) (ip : Ipv4Header) (offset : ℕ)
    → p.packet_length ≡ length raw
    → length raw < 2 ^ 32
    → offset ≤ 74
    → (parse_transport m p raw ip offset ≡ none) ↔ ((length raw < offset) × Copies m ip)
unfolding parse_transport memcpy
parse_transport-none m p raw ip offset e fits small = (λ h. ground arith, λ h. ground arith)

parse_network-none :
    (m : Mallocs) (p : Packet) (raw : List ℕ)
    → p.packet_length ≡ length raw
    → length raw < 2 ^ 32
    → 14 ≤ length raw
    → (parse_network m p raw ethernet_size ≡ none) ↔ (
        (34 ≤ length raw)
        × (m.ipv4 ≡ true)
        × (length raw < 14 + (ipv4_header (take 20 (drop 14 raw))).version_ihl % 16 * 4)
        × Copies m (ipv4_header (take 20 (drop 14 raw))))
unfolding parse_network memcpy
parse_network-none m p raw e fits long =
    let ip = ipv4_header (take 20 (drop 14 raw)) in
    let t =
      parse_transport-none m (record p { ipv4 = some ip }) raw ip (14 + ip.version_ihl % 16 * 4) e
        fits (omega arith) in
    (λ h. ground (arith, t.0), λ h. ground (arith, t.1))

extract_payload-ne-none :
    (m : Mallocs) (p : Packet) (raw : List ℕ) (offset : ℕ)
    → p.packet_length ≡ length raw
    → length raw < 2 ^ 32
    → extract_payload m p raw offset ≢ none
unfolding extract_payload memcpy
extract_payload-ne-none m p raw offset e fits h = ground arith

-- The fields that decide, at their offsets in the packet.
abbrev pub ethertype : List ℕ → ℕ
ethertype raw = ntohs (load16 raw 12)

abbrev pub protocol : List ℕ → ℕ
protocol raw = byte_at raw 23

-- The size of the IPv4 header by its own count, at most 60.
abbrev pub ihl : List ℕ → ℕ
ihl raw = byte_at raw 14 % 16 * 4

-- The packets for which `packet_parse` copies a transport header from outside of the packet: an IPv4
-- packet whose header length points past the end, with TCP or UDP named as its protocol.
pub record ReadsPastEnd (m : Mallocs) (raw : List ℕ) : Type 0 where
  pub long : 34 ≤ length raw
  pub is_ipv4 : ethertype raw ≡ 0x0800
  pub past : length raw < 14 + ihl raw
  pub copies : ((protocol raw ≡ 6) × (m.tcp ≡ true)) ⊎ ((protocol raw ≡ 17) × (m.udp ≡ true))
  pub ethernet_allocated : m.ethernet ≡ true
  pub ipv4_allocated : m.ipv4 ≡ true

pub ethertype_copied :
    (raw : List ℕ) → ntohs (ethernet_header (take 14 raw)).ethertype ≡ ethertype raw
unfolding ethernet_header
ethertype_copied raw =
    ap₂ (λ a b. ntohs (a + b * 256)) (get_or-take 14 12 raw 0 (omega arith))
      (get_or-take 14 13 raw 0 (omega arith))

pub ipv4_copied :
    (raw : List ℕ)
    → let ip = ipv4_header (take 20 (drop 14 raw)) in
      (ip.version_ihl % 16 * 4 ≡ ihl raw) × (ip.protocol ≡ protocol raw)
unfolding ipv4_header
ipv4_copied raw = (
  ap (λ b. b % 16 * 4) (get_or-range 20 14 0 raw 0 (omega arith)),
  get_or-range 20 14 9 raw 0 (omega arith),
)

parse_link-none :
    (m : Mallocs) (p : Packet) (raw : List ℕ)
    → p.packet_length ≡ length raw
    → length raw < 2 ^ 32
    → 14 ≤ length raw
    → m.ethernet ≡ true
    → (parse_link m p raw (ethernet_header (take 14 raw)) ethernet_size ≡ none) ↔ ReadsPastEnd m raw
unfolding parse_link
parse_link-none m p raw e fits long allocated =
    let n = parse_network-none m p raw e fits long in
    let t = ethertype_copied raw in
    let f = ipv4_copied raw in (λ h. ground (arith, n.0), λ h. ground (arith, n.1))

pub packet_length-parse_link :
    (m : Mallocs) (p : Packet) (raw : List ℕ) (eth : EthernetHeader) (offset : ℕ) (r : Packet × ℕ)
    → parse_link m p raw eth offset ≡ some r
    → r.0.packet_length ≡ p.packet_length
unfolding parse_link parse_network parse_transport memcpy
packet_length-parse_link m p raw eth offset r h = ground arith

parse_raw-none :
    (m : Mallocs) (p : Packet) (raw : List ℕ)
    → p.packet_length ≡ length raw
    → length raw < 2 ^ 32
    → (parse_raw m p raw ≡ none) ↔ ReadsPastEnd m raw
unfolding parse_raw memcpy
parse_raw-none m p raw e fits =
    let eth = ethernet_header (take 14 raw) in
    let q : Packet = record p { ethernet = some eth } in
    let n = parse_link-none m q raw e fits in
    let safe' = extract_payload-ne-none m (record p { ethernet = none }) raw 0 e fits in
    elim (Option-cases (parse_link m q raw eth ethernet_size)) [
      | inl fault ↦ (λ h. ground (arith, n, safe'), λ h. ground (arith, n))
      | inr (r, ran) ↦
          let kept = packet_length-parse_link m q raw eth ethernet_size r ran in
          let safe = extract_payload-ne-none m r.0 raw r.1 (kept ∙ e) fits in
          (λ h. ground (arith, n, safe, safe'), λ h. ground (arith, n))
    ]

pub parse-eq-parse_raw :
    (m : Mallocs) (p : Packet) (raw : List ℕ)
    → p.raw_data ≡ some raw
    → parse m p ≡ parse_raw m p raw
unfolding parse
parse-eq-parse_raw m p raw e =
    ap (λ (o : Option (List ℕ)). elim o [ none ↦ some p | some bytes ↦ parse_raw m p bytes ]) e

-- `packet_parse` of a captured packet accesses memory outside of it exactly when the packet has at
-- least 34 bytes and the EtherType of IPv4, its IPv4 header length points past its end, its protocol
-- is TCP or UDP, and the allocations of the Ethernet, the IPv4 and that transport header succeed.
pub parse-none :
    (m : Mallocs) (p : Packet) (raw : List ℕ)
    → IsCaptured p raw
    → (parse m p ≡ none) ↔ ReadsPastEnd m raw
parse-none m p raw c =
    rw (parse-eq-parse_raw m p raw c.held) (parse_raw-none m p raw c.sized c.fits)

-- A copy of no more bytes than there are stays inside.
pub create-some :
    (m : Mallocs) (time now_ns : ℕ) (source : List ℕ) (size : ℕ)
    → size ≤ length source
    → (made : Option Packet) × (create m time now_ns (some source) size ≡ some made)
unfolding create memcpy
create-some m time now_ns source size h =
    elim (Option-cases (create m time now_ns (some source) size)) [
      | inl e ↦ absurd (ground arith)
      | inr (made, e) ↦ (made, e)
    ]
