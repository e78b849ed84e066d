-- ===== src/Main/Pipeline.antt =====
-- From the system's buffers to the queue: what `socket_receive_packet` of src/socket_handler.c delivers,
-- the capture loop of src/main.c offers as packets.
use packet_analyzer.Prelude.{
  ℕ, ◌+◌, ◌<◌, ◌≡◌, ◌∙◌, ap, sym, arith, true, Option, none, some, List, [], ◌∷◌, ◌++◌, length,
}
use packet_analyzer.Packet.{Packet}
use packet_analyzer.Main.Capture.{Plan, Received, Tick, Loop, capture}
use packet_analyzer.Socket.Config.{SocketConfig}
use packet_analyzer.Socket.Receive.{Bpf}
use packet_analyzer.Socket.Frames.{cuts, IsPacked, IsOpen}
use packet_analyzer.Socket.Delivery.{
  Fill, all_frames, readings, deliveries, Filled, deliveries-cuts,
}
use packet_analyzer.Main.Rounds.{Carry, all_cut, all_received, Undisturbed, Sized, capture-Carry}

abbrev or_none : Option (List Received) → List Received
or_none none = []
or_none (some rs) = rs

Sized-append : (xs ys : List (List ℕ)) → Sized xs → Sized ys → Sized (xs ++ ys)
Sized-append [] ys h k = k
Sized-append (f ∷ frames) ys h k = (h.0, h.1, Sized-append frames ys h.2 k)

module _ (B : Bpf) where
  IsPacked-Sized :
      (buffer : List ℕ) (n offset : ℕ) (frames : List (List ℕ))
      → IsPacked B buffer n offset frames
      → Sized frames
  IsPacked-Sized buffer n offset [] p = tt
  IsPacked-Sized buffer n offset (f ∷ frames) p =
      let (h, at, before, same, positive, header, fits, copied, small, more) = p in
      (
        positive,
        omega (arith, fits),
        IsPacked-Sized buffer n (offset + B.word_align (h.bh_hdrlen + length f)) frames more,
      )

  Filled-Sized : (size : ℕ) (fills : List Fill) → Filled B size fills → Sized (all_frames fills)
  Filled-Sized size [] f = tt
  Filled-Sized size ((bytes, frames) ∷ fills) (positive, fits, packed, more) =
      Sized-append frames (all_frames fills)
        (IsPacked-Sized (bytes ++ []) (length bytes) 0 frames (packed []))
        (Filled-Sized size fills more)

  -- What the system packs into its buffers on macOS arrives at the queue: if each round of the capture
  -- loop receives what the next call of `socket_receive_packet` returns, then the loop offers one fresh
  -- packet for each frame in the buffer and in the fills that follow, in order, that holds the frame's
  -- bytes cut to the caller's size, and it touches no memory that it may not. The run has no limit on
  -- time or number, is not interrupted, and has memory; frames are packed as the system does.
  pub deliveries-Carry :
      (plan : Plan) (ticks : List Tick) (l : Loop) (frames : List (List ℕ)) (fills : List Fill)
      (c : SocketConfig) (fd size : ℕ) (buffer : List ℕ)
      → 0 < size
      → IsOpen B c fd buffer
      → IsPacked B buffer c.bpf_data_len c.bpf_offset frames
      → Filled B (length buffer) fills
      → plan.measure_end_ns ≡ 0
      → plan.max_packets ≡ 0
      → l.run_is_running ≡ true
      → deliveries B (length (frames ++ all_frames fills)) (readings fills) c size
        ≡ some (all_received ticks)
      → Undisturbed ticks
      → (l' : Loop) × (packets : List Packet) × (capture plan ticks l ≡ some l')
        × (l'.offered ≡ l.offered ++ packets)
        × Carry packets (all_cut size (frames ++ all_frames fills))
  deliveries-Carry plan ticks l frames fills c fd size buffer room open_socket packed filled
        unlimited uncounted running received u =
      let all = frames ++ all_frames fills in
      let expected =
        deliveries-cuts B frames fills c fd size buffer room open_socket packed filled in
      let got : all_received ticks ≡ cuts size all = ap or_none (sym received ∙ expected) in
      let sized =
        Sized-append frames (all_frames fills) (IsPacked-Sized buffer _ _ frames packed)
          (Filled-Sized (length buffer) fills filled) in
      capture-Carry size plan ticks all l unlimited uncounted running room got u sized
