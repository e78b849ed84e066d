-- ===== src/Parser/Log.antt =====
-- What src/parser.c logs: `parse_ethernet_header`, `print_statistics`, and the lines of the functions
-- that count. The time is read at each call of the logger, and is the same here.
use packet_analyzer.Prelude.{
  ℕ, ◌+◌, ◌*◌, ◌/◌, ◌%◌, ◌≤◌, ◌<◌, ◌≡◌, ◌∙◌, ◌⊎◌, inl, inr, ap, refl, arith, Bool, true, false,
  Option, none, some, List, [], ◌∷◌, ◌++◌, ◌==◌, ltb, if◌then◌else◌, ◌>>=◌, codes, u32,
  Option-cases,
}
use packet_analyzer.Floating.{Floating}
use packet_analyzer.Metrics.Metadata.{Text}
use packet_analyzer.Metrics.Decimal.{printed}
use packet_analyzer.Packet.{Packet}
use packet_analyzer.Packet.Headers.{EthernetHeader, Ipv4Header, TcpHeader, UdpHeader, ntohs, ntohl}
use packet_analyzer.Packet.Print.{hex_pair, mac, info_all}
use packet_analyzer.Logger.{warn, rank, Config, State, emit, logger_debug, logger_warn}
use packet_analyzer.Logger.Levels.{entry}
use packet_analyzer.Parser.{Stats, ipv4_memory, validate_ipv4_checksum, parse_ipv4_header}

-- `%04x` of 16 bits.
abbrev hex_word : ℕ → Text
hex_word n = hex_pair (n / 256) ++ hex_pair (n % 256)

unfoldable pub debug_all : Text → List Text → State → State
debug_all timestamp [] s = s
debug_all timestamp (m ∷ more) s = debug_all timestamp more (logger_debug timestamp m s)

abbrev ethernet_text : EthernetHeader → Text
ethernet_text e =
    codes "Ethernet frame: "
    ++ (mac e.src_mac
        ++ (codes " -> "
            ++ (mac e.dst_mac
                ++ (codes " (Type: 0x" ++ (hex_word (ntohs e.ethertype) ++ codes ")")))))

-- `parse_ethernet_header`
unfoldable pub parse_ethernet_header : Text → Option Packet → State → State
parse_ethernet_header timestamp none s = s
parse_ethernet_header timestamp (some p) s = elim p.ethernet [
  | none ↦ s
  | some e ↦ logger_debug timestamp (ethernet_text e) s
]

-- The addresses come from the one buffer of `inet_ntoa`, so that the line has one of them twice.
abbrev pub ipv4_texts : (ℕ → Text) → Bool → Ipv4Header → List Text
ipv4_texts inet_ntoa destination_last h =
    let buffer = inet_ntoa (if destination_last then h.dst_ip else h.src_ip) in
    (codes "IPv4 Header: " ++ (buffer ++ (codes " -> " ++ buffer)))
    ∷ (codes "  Version: "
        ++ (printed (h.version_ihl / 16 % 16)
            ++ (codes ", IHL: "
                ++ (printed (h.version_ihl % 16 * 4)
                    ++ (codes " bytes, Total Length: "
                        ++ (printed (ntohs h.total_length) ++ codes " bytes"))))))
    ∷ (codes "  TTL: "
        ++ (printed h.ttl
            ++ (codes ", Protocol: "
                ++ (printed h.protocol
                    ++ (codes ", Checksum: 0x" ++ hex_word (ntohs h.checksum))))))
    ∷ []

-- What `parse_ipv4_header` logs; `none` where the checksum is read outside of the header.
unfoldable pub log_ipv4_header : Text → (ℕ → Text) → Bool → Option Packet → State → Option State
log_ipv4_header timestamp inet_ntoa destination_last none s = some s
log_ipv4_header timestamp inet_ntoa destination_last (some p) s = elim p.ipv4 [
  | none ↦ some s
  | some ip ↦
      let logged = debug_all timestamp (ipv4_texts inet_ntoa destination_last ip) s in
      validate_ipv4_checksum (some (ipv4_memory ip)) >>= λ valid. some (
        if valid
        then logged
        else logger_warn timestamp (codes "IPv4 checksum validation failed") logged)
]

abbrev flag : ℕ → ℕ → Text → Text
flag flags bit name = if flags / bit % 2 == 0 then [] else name

abbrev pub tcp_texts : TcpHeader → List Text
tcp_texts h =
    (codes "TCP Header: "
      ++ (printed (ntohs h.src_port) ++ (codes " -> " ++ printed (ntohs h.dst_port))))
    ∷ (codes "  Seq: "
        ++ (printed (ntohl h.seq_num)
            ++ (codes ", Ack: "
                ++ (printed (ntohl h.ack_num)
                    ++ (codes ", Window: " ++ printed (ntohs h.window_size))))))
    ∷ (codes "  Flags: ["
        ++ (flag h.flags 1 (codes "FIN ")
            ++ (flag h.flags 2 (codes "SYN ")
                ++ (flag h.flags 4 (codes "RST ")
                    ++ (flag h.flags 8 (codes "PSH ")
                        ++ (flag h.flags 16 (codes "ACK ")
                            ++ (flag h.flags 32 (codes "URG ") ++ codes "]")))))))
    ∷ []

abbrev pub udp_texts : UdpHeader → List Text
udp_texts h =
    (codes "UDP Header: "
      ++ (printed (ntohs h.src_port) ++ (codes " -> " ++ printed (ntohs h.dst_port))))
    ∷ (codes "  Length: "
        ++ (printed (ntohs h.length) ++ (codes ", Checksum: 0x" ++ hex_word (ntohs h.checksum))))
    ∷ []

abbrev log_header : {A : Type 0} → (A → List Text) → Text → Option A → State → State
log_header texts timestamp none s = s
log_header texts timestamp (some h) s = debug_all timestamp (texts h) s

-- What `parse_tcp_header` and `parse_udp_header` log.
unfoldable pub log_tcp_header : Text → Option Packet → State → State
log_tcp_header timestamp none s = s
log_tcp_header timestamp (some p) s = log_header tcp_texts timestamp p.tcp s

unfoldable pub log_udp_header : Text → Option Packet → State → State
log_udp_header timestamp none s = s
log_udp_header timestamp (some p) s = log_header udp_texts timestamp p.udp s

-- Lines of `print_statistics`; `format` is what `printf` makes of a conversion and a `double`.
unfoldable pub statistics_texts : (F : Floating) → (Text → F.Double → Text) → Stats → List Text
statistics_texts F format s =
    codes "===== Packet Statistics ====="
    ∷ (codes "Total packets: " ++ printed s.total_packets)
    ∷ (codes "IPv4 packets: " ++ printed s.ipv4_packets)
    ∷ (codes "TCP packets: " ++ printed s.tcp_packets)
    ∷ (codes "UDP packets: " ++ printed s.udp_packets)
    ∷ (codes "Malformed packets: " ++ printed s.malformed_packets)
    ∷ (codes "Total bytes: " ++ printed s.total_bytes)
    ∷ (if ltb 0 s.total_packets
        then (codes "Average packet size: "
            ++ (format (codes "%.2f") (F.div (F.of_u64 s.total_bytes) (F.of_u64 s.total_packets))
                ++ codes " bytes"))
          ∷ []
        else [])

-- `print_statistics`: the global statistics for a null pointer.
unfoldable pub print_statistics :
    (F : Floating) → (Text → F.Double → Text) → Text → Stats → Option Stats → State → State
print_statistics F format timestamp global_stats none s =
    info_all timestamp (statistics_texts F format global_stats) s
print_statistics F format timestamp global_stats (some stats) s =
    info_all timestamp (statistics_texts F format stats) s

debug_all-quiet :
    (s : State) (c : Config) (timestamp : Text) (ms : List Text)
    → s.global_logger ≡ some c
    → 0 < rank c.min_level
    → debug_all timestamp ms s ≡ s
unfolding debug_all logger_debug
debug_all-quiet s c timestamp [] h high = refl
debug_all-quiet s c timestamp (m ∷ more) h high =
    let first : logger_debug timestamp m s ≡ s = ground (arith, h) in
    ap (debug_all timestamp more) first ∙ debug_all-quiet s c timestamp more h high

logger_warn-entry :
    (s : State) (c : Config) (timestamp message : Text)
    → s.global_logger ≡ some c
    → rank c.min_level ≤ 2
    → logger_warn timestamp message s ≡ emit (entry c warn timestamp message) s
unfolding logger_warn
logger_warn-entry s c timestamp message h low = ground (arith, h)

-- With a logger at the level `LOG_WARN`, `parse_ipv4_header` logs that a checksum is wrong exactly when
-- it counts a malformed packet, and nothing else, whatever the packet; and it stops without a result in
-- both views together.
pub log_ipv4_header-counts :
    (stats : Stats) (s : State) (c : Config) (timestamp : Text) (inet_ntoa : ℕ → Text)
    (destination_last : Bool) (p : Option Packet)
    → s.global_logger ≡ some c
    → rank c.min_level ≡ 2
    → let logged = log_ipv4_header timestamp inet_ntoa destination_last p s in
      let counted = parse_ipv4_header stats p in
      ((logged ≡ none) × (counted ≡ none))
      ⊎ ((stats' : Stats) × (counted ≡ some stats')
          × (((stats'.malformed_packets ≡ stats.malformed_packets) × (logged ≡ some s))
              ⊎ ((stats'.malformed_packets ≡ u32 (stats.malformed_packets + 1))
                  × (logged
                      ≡ some (
                          emit
                            (entry c warn timestamp (codes "IPv4 checksum validation failed"))
                            s)))))
unfolding log_ipv4_header parse_ipv4_header
log_ipv4_header-counts stats s c timestamp inet_ntoa destination_last none h level =
    inr (stats, refl, inl (refl, refl))
log_ipv4_header-counts stats s c timestamp inet_ntoa destination_last (some p) h level =
    elim (Option-cases p.ipv4) [
      | inl e ↦ inr (stats, rw e refl, inl (refl, rw e refl))
      | inr (ip, e) ↦
          let quiet =
            debug_all-quiet s c timestamp (ipv4_texts inet_ntoa destination_last ip) h
              (omega (arith, level)) in
          let counted : Bool → Stats = λ valid. record stats {
            ipv4_packets = u32 (stats.ipv4_packets + 1);
            malformed_packets =
                if valid then stats.malformed_packets else u32 (stats.malformed_packets + 1);
          } in
          elim (Option-cases (validate_ipv4_checksum (some (ipv4_memory ip)))) [
            | inl v ↦ inl (rw (e, v) refl, rw (e, v) refl)
            | inr (true, v) ↦
                inr (counted true, rw (e, v) refl, inl (refl, rw (e, v) (ap some quiet)))
            | inr (false, v) ↦ inr (
              counted false,
              rw (e, v) refl,
              inr (
                refl,
                rw (e, v, quiet)
                    (ap some (logger_warn-entry s c timestamp _ h (omega (arith, level)))),
              ),
            )
          ]
    ]
