-- ===== src/Packet/Print.antt =====
-- `packet_print` and `packet_free` of src/packet.c. What is printed are messages to the logger of
-- src/logger.c at the level `LOG_INFO`, and the start of the payload as a hex dump.
use packet_analyzer.Prelude.{
  ℕ, ◌⊎◌, inl, inr, Bool-cases, ltb→lt, ◌/◌, ◌%◌, ◌≤◌, ◌<◌, ◌≡◌, ◌∙◌, ap, sym, refl, arith, Bool,
  Option, none, some, List, [], ◌∷◌, ◌++◌, append_assoc, append-nil, ltb, if◌then◌else◌, take,
  get_or, codes,
}
use packet_analyzer.Metrics.Metadata.{Text}
use packet_analyzer.Metrics.Decimal.{printed}
use packet_analyzer.Packet.{Packet}
use packet_analyzer.Packet.Headers.{EthernetHeader, Ipv4Header, TcpHeader, UdpHeader, ntohs, ntohl}
use packet_analyzer.Logger.{
  Level, debug, info, warn, error, critical, other, rank, Config, State, Action, emit, logger_info,
  logger_error,
}
use packet_analyzer.Logger.Levels.{entry, logger_info-entry}
use packet_analyzer.Logger.Hexdump.{hex_digit, logger_hexdump}

-- `%02x`
abbrev pub hex_pair : ℕ → Text
hex_pair b = hex_digit (b / 16) ∷ hex_digit (b % 16) ∷ []

abbrev pub mac : List ℕ → Text
mac m =
    hex_pair (get_or m 0 0)
    ++ (58
        ∷ (hex_pair (get_or m 1 0)
            ++ (58
                ∷ (hex_pair (get_or m 2 0)
                    ++ (58
                        ∷ (hex_pair (get_or m 3 0)
                            ++ (58
                                ∷ (hex_pair (get_or m 4 0) ++ (58 ∷ hex_pair (get_or m 5 0))))))))))

abbrev pub ethernet_line : EthernetHeader → Text
ethernet_line e = codes "Ethernet: " ++ (mac e.src_mac ++ (codes " -> " ++ mac e.dst_mac))

-- `inet_ntoa` writes into one buffer of its own and returns it. Both calls are made before the line is
-- printed, in either order, so that the line shows twice the address that was converted last.
abbrev pub ipv4_line : (ℕ → Text) → Bool → Ipv4Header → Text
ipv4_line inet_ntoa destination_last h =
    let buffer = inet_ntoa (if destination_last then h.dst_ip else h.src_ip) in
    codes "IPv4: "
    ++ (buffer
        ++ (codes " -> "
            ++ (buffer
                ++ (codes " (TTL="
                    ++ (printed h.ttl
                        ++ (codes ", Protocol=" ++ (printed h.protocol ++ codes ")")))))))

abbrev pub tcp_line : TcpHeader → Text
tcp_line h =
    codes "TCP: Port "
    ++ (printed (ntohs h.src_port)
        ++ (codes " -> "
            ++ (printed (ntohs h.dst_port)
                ++ (codes " (Seq="
                    ++ (printed (ntohl h.seq_num)
                        ++ (codes ", Ack="
                            ++ (printed (ntohl h.ack_num)
                                ++ (codes ", Flags=0x" ++ (hex_pair h.flags ++ codes ")")))))))))

abbrev pub udp_line : UdpHeader → Text
udp_line h =
    codes "UDP: Port "
    ++ (printed (ntohs h.src_port)
        ++ (codes " -> "
            ++ (printed (ntohs h.dst_port)
                ++ (codes " (Length=" ++ (printed (ntohs h.length) ++ codes ")")))))

abbrev pub line_of : {A : Type 0} → (A → Text) → Option A → List Text
line_of line none = []
line_of line (some h) = line h ∷ []

-- The messages, in order.
unfoldable pub messages : (ℕ → Text) → Bool → Packet → List Text
messages inet_ntoa destination_last p =
    codes "=== Packet Information ==="
    ∷ (codes "Timestamp: " ++ printed p.timestamp)
    ∷ (codes "Total Length: " ++ (printed p.packet_length ++ codes " bytes"))
    ∷ (line_of ethernet_line p.ethernet
        ++ (line_of (ipv4_line inet_ntoa destination_last) p.ipv4
            ++ (line_of tcp_line p.tcp ++ line_of udp_line p.udp)))

-- The calls of `logger_info`; the time is read at each, and is the same here.
unfoldable pub info_all : Text → List Text → State → State
info_all timestamp [] s = s
info_all timestamp (m ∷ more) s = info_all timestamp more (logger_info timestamp m s)

-- The first 64 bytes of the payload, if its length is positive. Its buffer has as many bytes.
unfoldable pub packet_print : Text → (ℕ → Text) → Bool → Option Packet → State → State
packet_print timestamp inet_ntoa destination_last none s =
    logger_error timestamp (codes "Cannot print NULL packet") s
packet_print timestamp inet_ntoa destination_last (some p) s =
    let logged = info_all timestamp (messages inet_ntoa destination_last p) s in
    if ltb 0 p.payload_length
    then logger_hexdump timestamp (codes "Payload")
        (elim p.payload [ none ↦ none | some bytes ↦ some (take 64 bytes) ]) logged
    else logged

-- What `packet_free` frees.
pub data Block : Type 0 where
  raw_data ethernet ipv4 tcp udp payload packet : Block

abbrev pub block : {A : Type 0} → Option A → Block → List Block
block none b = []
block (some x) b = b ∷ []

unfoldable pub packet_free : Option Packet → List Block
packet_free none = []
packet_free (some p) =
    block p.raw_data raw_data
    ++ (block p.ethernet ethernet
        ++ (block p.ipv4 ipv4
            ++ (block p.tcp tcp
                ++ (block p.udp udp ++ (block p.payload payload ++ (packet ∷ []))))))

abbrev pub entries : Config → Text → List Text → List Action
entries c timestamp [] = []
entries c timestamp (m ∷ more) = entry c info timestamp m ++ entries c timestamp more

info_all-entries :
    (s : State) (c : Config) (timestamp : Text) (ms : List Text)
    → s.global_logger ≡ some c
    → rank c.min_level ≤ 1
    → info_all timestamp ms s ≡ emit (entries c timestamp ms) s
unfolding info_all
info_all-entries s c timestamp [] h low =
    ap (λ l. record s { actions = l }) (sym (append-nil s.actions))
info_all-entries s c timestamp (m ∷ more) h low =
    ap (info_all timestamp more) (logger_info-entry s c timestamp m h low)
    ∙ (info_all-entries (emit (entry c info timestamp m) s) c timestamp more h low
        ∙ ap (λ l. record s { actions = l })
            (append_assoc s.actions (entry c info timestamp m) (entries c timestamp more)))

info_all-quiet :
    (s : State) (c : Config) (timestamp : Text) (ms : List Text)
    → s.global_logger ≡ some c
    → 1 < rank c.min_level
    → info_all timestamp ms s ≡ s
unfolding info_all logger_info
info_all-quiet s c timestamp [] h high = refl
info_all-quiet s c timestamp (m ∷ more) h high =
    let first : logger_info timestamp m s ≡ s = ground (arith, h) in
    ap (info_all timestamp more) first ∙ info_all-quiet s c timestamp more h high

logger_hexdump-quiet :
    (s : State) (c : Config) (timestamp label : Text) (bytes : Option (List ℕ))
    → s.global_logger ≡ some c
    → 0 < rank c.min_level
    → logger_hexdump timestamp label bytes s ≡ s
unfolding logger_hexdump
logger_hexdump-quiet s c timestamp label none h above = ground (arith, h)
logger_hexdump-quiet s c timestamp label (some bytes) h above = ground (arith, h)

-- So the payload makes no difference.
packet_print-quiet :
    (s t : State) (c : Config) (timestamp : Text) (inet_ntoa : ℕ → Text) (destination_last : Bool)
    (p : Packet)
    → info_all timestamp (messages inet_ntoa destination_last p) s ≡ t
    → t.global_logger ≡ some c
    → 0 < rank c.min_level
    → packet_print timestamp inet_ntoa destination_last (some p) s ≡ t
unfolding packet_print
packet_print-quiet s t c timestamp inet_ntoa destination_last p logged h above =
    elim (Bool-cases (ltb 0 p.payload_length)) [
      | inl e ↦ rw (e, logged) (logger_hexdump-quiet t c timestamp (codes "Payload") _ h above)
      | inr e ↦ rw (e, logged) refl
    ]

rank_one : (l : Level) → rank l ≡ 1 → l ≡ info
rank_one debug h = absurd (omega (arith, h))
rank_one info h = refl
rank_one warn h = absurd (omega (arith, h))
rank_one error h = absurd (omega (arith, h))
rank_one critical h = absurd (omega (arith, h))
rank_one (other n) h = absurd (omega (arith, h))

-- With a logger at the level `LOG_INFO`, `packet_print` prints the general lines and one line for each
-- header that the packet has, in order, and no payload; with a logger above that level it prints
-- nothing.
pub packet_print-entries :
    (s : State) (c : Config) (timestamp : Text) (inet_ntoa : ℕ → Text) (destination_last : Bool)
    (p : Packet)
    → s.global_logger ≡ some c
    → 0 < rank c.min_level
    → ((c.min_level ≡ info)
        × (packet_print timestamp inet_ntoa destination_last (some p) s
            ≡ emit (entries c timestamp (messages inet_ntoa destination_last p)) s))
      ⊎ ((1 < rank c.min_level)
          × (packet_print timestamp inet_ntoa destination_last (some p) s ≡ s))
packet_print-entries s c timestamp inet_ntoa destination_last p h shown =
    elim (Bool-cases (ltb 1 (rank c.min_level))) [
      | inl e ↦
          let quiet =
            info_all-quiet s c timestamp (messages inet_ntoa destination_last p) h (ltb→lt _ _ e) in
          inr (
            ltb→lt _ _ e,
            packet_print-quiet s s c timestamp inet_ntoa destination_last p quiet h shown,
          )
      | inr e ↦
          let printed_all =
            info_all-entries s c timestamp (messages inet_ntoa destination_last p) h
              (ground (arith, e)) in
          inl (
            rank_one c.min_level (ground (arith, e)),
            packet_print-quiet s _ c timestamp inet_ntoa destination_last p printed_all h shown,
          )
    ]
