-- ===== src/Socket/Tests.antt =====
-- A filter machine, and the ICMP filter on frames of three EtherTypes.
use packet_analyzer.Prelude.{
  ℕ, zero, suc, ◌+◌, ◌≡◌, refl, List, [], ◌∷◌, ◌++◌, ◌==◌, leb, if◌then◌else◌, drop, length, get_or,
  replicate,
}
use packet_analyzer.Socket.Filter.{
  Instruction, load_half, load_byte, jump_equal, return, icmp_filter, icmp_filter_mac, half_at,
  Machine,
}
use packet_analyzer.Socket.Accepted.{Filters, icmp_filter-Passes}

-- Runs a program after skipping some of its instructions; the end of the program rejects.
run_after : List Instruction → ℕ → ℕ → List ℕ → ℕ
run_after [] skip a frame = 0
run_after (i ∷ rest) (suc skip) a frame = run_after rest skip a frame
run_after (load_half i ∷ rest) zero a frame =
    let next = run_after rest 0 (half_at frame i) frame in
    if leb (i + 2) (length frame) then next else 0
run_after (load_byte i ∷ rest) zero a frame =
    let next = run_after rest 0 (get_or frame i 0) frame in
    if leb (i + 1) (length frame) then next else 0
run_after (jump_equal k jt jf ∷ rest) zero a frame =
    run_after rest (if a == k then jt else jf) a frame
run_after (return k ∷ rest) zero a frame = k

run_after-drop :
    (program : List Instruction) (skip a : ℕ) (frame : List ℕ)
    → run_after program skip a frame ≡ run_after (drop skip program) 0 a frame
unfolding run_after
run_after-drop [] zero a frame = refl
run_after-drop [] (suc skip) a frame = refl
run_after-drop (i ∷ rest) zero a frame = refl
run_after-drop (i ∷ rest) (suc skip) a frame = run_after-drop rest skip a frame

machine : Machine
unfolding run_after
machine = record {
  run = λ program a frame. run_after program 0 a frame;
  runs_load_half = λ i a rest frame. refl;
  runs_load_byte = λ i a rest frame. refl;
  runs_jump_equal = λ k jt jf a rest frame. run_after-drop rest (if a == k then jt else jf) a frame;
  runs_return = λ k a rest frame. refl;
}

abbrev frame_of : ℕ → ℕ → ℕ → List ℕ
frame_of high low next = replicate 12 0 ++ (high ∷ low ∷ (replicate 6 0 ++ (next ∷ 0 ∷ 0 ∷ 1 ∷ [])))

-- ARP with 58 in byte 20 passes.
arp_passes : machine.run icmp_filter 0 (frame_of 8 6 58) ≡ 65535
unfolding machine run_after icmp_filter
arp_passes = refl

ipv6_tcp_rejected : machine.run icmp_filter 0 (frame_of 0x86 0xDD 6) ≡ 0
unfolding machine run_after icmp_filter
ipv6_tcp_rejected = refl

icmp_filter-Passes_example :
    Filters machine icmp_filter 65535 0 (frame_of 8 0 58)
    × Filters machine icmp_filter_mac 4294967295 0 (frame_of 8 0 58)
icmp_filter-Passes_example = icmp_filter-Passes machine 0 (frame_of 8 0 58)
