-- ===== src/Packet/Headers.antt =====
-- The header structures of include/packet.h. They have no padding, and `memcpy` fills them byte by
-- byte; multi-byte fields hold what a little-endian host reads, so `ntohs` and `ntohl` swap bytes.
use packet_analyzer.Prelude.{ℕ, ◌+◌, ◌*◌, ◌/◌, ◌%◌, ◌<◌, ◌≡◌, List, arith, get_or, take, drop}

pub record EthernetHeader : Type 0 where
  pub dst_mac : List ℕ
  pub src_mac : List ℕ
  pub ethertype : ℕ

pub record Ipv4Header : Type 0 where
  pub version_ihl : ℕ
  pub dscp_ecn : ℕ
  pub total_length : ℕ
  pub identification : ℕ
  pub flags_fragment : ℕ
  pub ttl : ℕ
  pub protocol : ℕ
  pub checksum : ℕ
  pub src_ip : ℕ
  pub dst_ip : ℕ

pub record TcpHeader : Type 0 where
  pub src_port : ℕ
  pub dst_port : ℕ
  pub seq_num : ℕ
  pub ack_num : ℕ
  pub data_offset : ℕ
  pub flags : ℕ
  pub window_size : ℕ
  pub checksum : ℕ
  pub urgent_ptr : ℕ

pub record UdpHeader : Type 0 where
  pub src_port : ℕ
  pub dst_port : ℕ
  pub length : ℕ
  pub checksum : ℕ

-- The `sizeof` of the four structures.
abbrev pub ethernet_size : ℕ
ethernet_size = 14

abbrev pub ipv4_size : ℕ
ipv4_size = 20

abbrev pub tcp_size : ℕ
tcp_size = 20

abbrev pub udp_size : ℕ
udp_size = 8

abbrev pub byte_at : List ℕ → ℕ → ℕ
byte_at bytes i = get_or bytes i 0

-- A `uint16_t` and a `uint32_t` field at an offset.
abbrev pub load16 : List ℕ → ℕ → ℕ
load16 bytes i = byte_at bytes i + byte_at bytes (i + 1) * 256

abbrev pub load32 : List ℕ → ℕ → ℕ
load32 bytes i = load16 bytes i + load16 bytes (i + 2) * 65536

unfoldable pub ntohs : ℕ → ℕ
ntohs n = n % 256 * 256 + n / 256 % 256

unfoldable pub ntohl : ℕ → ℕ
ntohl n = ntohs (n % 65536) * 65536 + ntohs (n / 65536 % 65536)

unfoldable pub ethernet_header : List ℕ → EthernetHeader
ethernet_header b = record {
  dst_mac = take 6 b;
  src_mac = take 6 (drop 6 b);
  ethertype = load16 b 12;
}

unfoldable pub ipv4_header : List ℕ → Ipv4Header
ipv4_header b = record {
  version_ihl = byte_at b 0;
  dscp_ecn = byte_at b 1;
  total_length = load16 b 2;
  identification = load16 b 4;
  flags_fragment = load16 b 6;
  ttl = byte_at b 8;
  protocol = byte_at b 9;
  checksum = load16 b 10;
  src_ip = load32 b 12;
  dst_ip = load32 b 16;
}

unfoldable pub tcp_header : List ℕ → TcpHeader
tcp_header b = record {
  src_port = load16 b 0;
  dst_port = load16 b 2;
  seq_num = load32 b 4;
  ack_num = load32 b 8;
  data_offset = byte_at b 12;
  flags = byte_at b 13;
  window_size = load16 b 14;
  checksum = load16 b 16;
  urgent_ptr = load16 b 18;
}

unfoldable pub udp_header : List ℕ → UdpHeader
udp_header b = record {
  src_port = load16 b 0;
  dst_port = load16 b 2;
  length = load16 b 4;
  checksum = load16 b 6;
}

-- A field of two bytes in network order reads as their big-endian value.
pub ntohs-load16 :
    (bytes : List ℕ) (i : ℕ)
    → byte_at bytes i < 256
    → byte_at bytes (i + 1) < 256
    → ntohs (load16 bytes i) ≡ byte_at bytes i * 256 + byte_at bytes (i + 1)
unfolding ntohs
ntohs-load16 bytes i h k = omega arith
