-- ===== src/Packet.antt =====
-- include/packet.h and src/packet.c: a captured packet, its creation and its parsing. A pointer that
-- may be null is an `Option`. An outer `none` stands for an access outside of an allocation.
pub mod Headers
pub mod Bounds
pub mod Payload
pub mod Udp
pub mod Print
mod Tests
use packet_analyzer.Prelude.{
  ℕ, ◌+◌, ◌-◌, ◌*◌, ◌/◌, ◌%◌, Bool, true, false, ◌&&◌, ◌||◌, Option, none, some, List, [], ◌>>=◌,
  ltb, leb, ◌==◌, if◌then◌else◌, length, memcpy, u8, u32, sub32,
}
use Headers.{
  EthernetHeader, Ipv4Header, TcpHeader, UdpHeader, ethernet_header, ipv4_header, tcp_header,
  udp_header, ntohs, ethernet_size, ipv4_size, tcp_size, udp_size,
}

-- `packet_t`. `payload` is null where the allocation failed or nothing is left after the headers.
pub record Packet : Type 0 where
  pub timestamp : ℕ
  pub capture_ts_ns : ℕ
  pub packet_length : ℕ
  pub raw_data : Option (List ℕ)
  pub ethernet : Option EthernetHeader
  pub ipv4 : Option Ipv4Header
  pub tcp : Option TcpHeader
  pub udp : Option UdpHeader
  pub payload : Option (List ℕ)
  pub payload_length : ℕ

-- Which of the `malloc`s of a call succeed, one field for each place in the code.
pub record Mallocs : Type 0 where
  pub packet : Bool
  pub raw_data : Bool
  pub ethernet : Bool
  pub ipv4 : Bool
  pub tcp : Bool
  pub udp : Bool
  pub payload : Bool

-- The two clocks are arguments. The inner `none` is the null pointer that the code returns.
pub create : Mallocs → ℕ → ℕ → Option (List ℕ) → ℕ → Option (Option Packet)
create m time now_ns none length = some none
create m time now_ns (some source) length =
    if length == 0 || not_allocated
    then some none
    else (memcpy source 0 length >>= λ bytes. some (some (fresh bytes)))
  where
    not_allocated : Bool
    not_allocated = if m.packet && m.raw_data then false else true

    fresh : List ℕ → Packet
    fresh bytes = record {
      timestamp = time;
      capture_ts_ns = now_ns;
      packet_length = length;
      raw_data = some bytes;
      ethernet = none;
      ipv4 = none;
      tcp = none;
      udp = none;
      payload = none;
      payload_length = 0;
    }

-- The TCP and UDP branches, at the offset behind the IPv4 header. The length that is left is a
-- `uint32_t` subtraction, which wraps where the offset lies past the end.
pub parse_transport : Mallocs → Packet → List ℕ → Ipv4Header → ℕ → Option (Packet × ℕ)
parse_transport m p raw ip offset =
    if ip.protocol == 6 && leb tcp_size (sub32 p.packet_length offset)
    then (if m.tcp
        then (memcpy raw offset tcp_size >>= λ bytes. some (
          record p { tcp = some (tcp_header bytes) },
          u32 (offset + u8 ((tcp_header bytes).data_offset / 16 * 4)),
        ))
        else some (record p { tcp = none }, offset))
    else (if ip.protocol == 17 && leb udp_size (sub32 p.packet_length offset)
        then (if m.udp
            then (memcpy raw offset udp_size >>= λ bytes.
                some (record p { udp = some (udp_header bytes) }, u32 (offset + udp_size)))
            else some (record p { udp = none }, offset))
        else some (p, offset))

-- The IPv4 branch. `& 0x0F` is the remainder by 16.
pub parse_network : Mallocs → Packet → List ℕ → ℕ → Option (Packet × ℕ)
parse_network m p raw offset =
    if leb ipv4_size (sub32 p.packet_length offset)
    then (if m.ipv4
        then (memcpy raw offset ipv4_size >>= λ bytes.
            let ip = ipv4_header bytes in
            parse_transport m (record p { ipv4 = some ip }) raw ip
              (u32 (offset + u8 (ip.version_ihl % 16 * 4))))
        else some (record p { ipv4 = none }, offset))
    else some (p, offset)

-- The rest of the packet behind `offset`.
pub extract_payload : Mallocs → Packet → List ℕ → ℕ → Option Packet
extract_payload m p raw offset =
    if ltb offset p.packet_length
    then (let left = sub32 p.packet_length offset in
        if m.payload
        then (memcpy raw offset left >>= λ bytes.
            some (record p { payload_length = left; payload = some bytes }))
        else some (record p { payload_length = left; payload = none }))
    else some p

-- What follows the Ethernet header.
pub parse_link : Mallocs → Packet → List ℕ → EthernetHeader → ℕ → Option (Packet × ℕ)
parse_link m p raw eth offset =
    if ntohs eth.ethertype == 0x0800 then parse_network m p raw offset else some (p, offset)

pub parse_raw : Mallocs → Packet → List ℕ → Option Packet
parse_raw m p raw =
    if leb ethernet_size p.packet_length
    then (if m.ethernet
        then (memcpy raw 0 ethernet_size >>= λ bytes.
            let eth = ethernet_header bytes in
            parse_link m (record p { ethernet = some eth }) raw eth ethernet_size >>= λ r.
            extract_payload m r.0 raw r.1)
        else extract_payload m (record p { ethernet = none }) raw 0)
    else some p

-- `packet_parse`, for a packet that is not null.
pub parse : Mallocs → Packet → Option Packet
parse m p = elim p.raw_data [ none ↦ some p | some raw ↦ parse_raw m p raw ]
