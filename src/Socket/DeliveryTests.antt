-- ===== src/Socket/DeliveryTests.antt =====
-- Concrete frames in a buffer, with a header of two bytes: the length of the frame and of the header.
use packet_analyzer.Prelude.{
  ℕ, ◌++◌, ◌+◌, ◌*◌, ◌/◌, ◌≡◌, refl, arith, true, some, List, [], ◌∷◌, ◌>>=◌, get_elem?, memcpy,
  replicate,
}
use packet_analyzer.Socket.Config.{SocketConfig, filter_none}
use packet_analyzer.Prelude.Int.{pos}
use packet_analyzer.Packet.{Packet, Mallocs}
use packet_analyzer.Packet.Payload.{AllAllocated}
use packet_analyzer.Main.Capture.{Plan, Tick, Loop, accepted, frame, begin_run, capture}
use packet_analyzer.Main.Rounds.{Carry, all_cut}
use packet_analyzer.Main.Pipeline.{deliveries-Carry}
use packet_analyzer.Socket.Receive.{Bpf, receive_mac, next_frame, stored_in}
use packet_analyzer.Socket.Frames.{cuts}
use packet_analyzer.Socket.Delivery.{Fill, readings, deliveries, Filled, deliveries-cuts}

-- Offsets are rounded up to a multiple of 4.
short : Bpf
short = record {
  header_at = λ buffer offset. get_elem? buffer offset >>= λ caplen.
      get_elem? buffer (offset + 1) >>= λ hdrlen.
      some (record { bh_caplen = caplen; bh_hdrlen = hdrlen });
  word_align = λ n. (n + 3) / 4 * 4;
  le-word_align = λ n. omega arith;
}

abbrev open_socket : SocketConfig
open_socket = record {
  socket_fd = some 5;
  interface_name = some [];
  promiscuous_mode = true;
  filter = filter_none;
  bpf_buffer = some (replicate 16 0);
  bpf_size = 16;
  bpf_data_len = 0;
  bpf_offset = 0;
}

abbrev two_fills : List Fill
two_fills =
    (3 ∷ 2 ∷ 7 ∷ 8 ∷ 9 ∷ 0 ∷ 0 ∷ 0 ∷ 1 ∷ 2 ∷ 6 ∷ [], (7 ∷ 8 ∷ 9 ∷ []) ∷ (6 ∷ []) ∷ [])
    ∷ (2 ∷ 2 ∷ 4 ∷ 5 ∷ [], (4 ∷ 5 ∷ []) ∷ [])
    ∷ []

two_fills-Filled : Filled short 16 two_fills
unfolding short memcpy
two_fills-Filled = (
  omega arith,
  omega arith,
  λ rest. (
    record { bh_caplen = 3; bh_hdrlen = 2 },
    refl,
    omega arith,
    refl,
    omega arith,
    omega arith,
    omega arith,
    ground arith,
    omega arith,
    (
      record { bh_caplen = 1; bh_hdrlen = 2 },
      refl,
      omega arith,
      refl,
      omega arith,
      omega arith,
      omega arith,
      ground arith,
      omega arith,
      omega arith,
    ),
  ),
  (
    omega arith,
    omega arith,
    λ rest. (
      record { bh_caplen = 2; bh_hdrlen = 2 },
      refl,
      omega arith,
      refl,
      omega arith,
      omega arith,
      omega arith,
      ground arith,
      omega arith,
      omega arith,
    ),
    tt,
  ),
)

-- The first frame is cut to two bytes.
deliveries-cuts_example :
    deliveries short 3 (readings two_fills) open_socket 2
    ≡ some (cuts 2 ((7 ∷ 8 ∷ 9 ∷ []) ∷ (6 ∷ []) ∷ (4 ∷ 5 ∷ []) ∷ []))
deliveries-cuts_example =
    deliveries-cuts short [] two_fills open_socket 5 2 (replicate 16 0) (omega arith) (refl, refl)
      (omega arith) two_fills-Filled

three_calls :
    deliveries short 3 (readings two_fills) open_socket 2
    ≡ some (cuts 2 ((7 ∷ 8 ∷ 9 ∷ []) ∷ (6 ∷ []) ∷ (4 ∷ 5 ∷ []) ∷ []))
unfolding deliveries receive_mac next_frame stored_in short memcpy
three_calls = refl

abbrev enough : Mallocs
enough = record {
  packet = true;
  raw_data = true;
  ethernet = true;
  ipv4 = true;
  tcp = true;
  udp = true;
  payload = true;
}

enough-AllAllocated : AllAllocated enough
enough-AllAllocated = record {
  for_packet = refl;
  for_raw_data = refl;
  for_ethernet = refl;
  for_ipv4 = refl;
  for_tcp = refl;
  for_udp = refl;
  for_payload = refl;
}

abbrev tick : List ℕ → Tick
tick bytes = record {
  is_running = true;
  now_ns = 4;
  start_ns = 3;
  capture_ns = 5;
  time = 1;
  received = frame bytes;
  mallocs = enough;
  queued = accepted [] 1;
}

abbrev ticks : List Tick
ticks = tick (7 ∷ 8 ∷ []) ∷ tick (6 ∷ []) ∷ tick (4 ∷ 5 ∷ []) ∷ []

abbrev no_limit : Plan
no_limit = record { warmup_end_ns = 2; measure_end_ns = 0; max_packets = 0 }

deliveries-Carry_example :
    (l' : Loop) × (packets : List Packet) × (capture no_limit ticks (begin_run (pos 1) 0) ≡ some l')
    × (l'.offered ≡ (begin_run (pos 1) 0).offered ++ packets)
    × Carry packets (all_cut 2 ((7 ∷ 8 ∷ 9 ∷ []) ∷ (6 ∷ []) ∷ (4 ∷ 5 ∷ []) ∷ []))
unfolding begin_run
deliveries-Carry_example =
    deliveries-Carry short no_limit ticks (begin_run (pos 1) 0) [] two_fills open_socket 5 2
      (replicate 16 0) (omega arith) (refl, refl) (omega arith) two_fills-Filled refl refl refl
      three_calls
      (
        (refl, enough-AllAllocated),
        ((refl, enough-AllAllocated), ((refl, enough-AllAllocated), tt)),
      )
