-- ===== src/Socket/Accepted.antt =====
-- Which frames the ICMP filter lets through.
use packet_analyzer.Prelude.{
  ℕ, ◌<◌, ◌≤◌, ◌≡◌, ◌≢◌, ◌↔◌, ◌⊎◌, refl, arith, Bool, true, false, List, ◌==◌, leb, if◌then◌else◌,
  length, get_or,
}
use packet_analyzer.Socket.Filter.{
  Instruction, program, icmp_filter, icmp_filter_mac, half_at, Machine,
}

-- A frame that passes: IPv4 with protocol 1, or any frame that is not IPv4 with 58 in byte 20.
abbrev pub Passes : List ℕ → Type 0
Passes frame =
    ((half_at frame 12 ≡ 0x0800) × (24 ≤ length frame) × (get_or frame 23 0 ≡ 1))
    ⊎ ((half_at frame 12 ≢ 0x0800) × (21 ≤ length frame) × (get_or frame 20 0 ≡ 58))

-- What comes of the tests, whichever of them the program reaches.
abbrev outcome : ℕ → Bool → Bool → Bool → Bool → Bool → Bool → ℕ
outcome accepted has_type is_ipv4 has_protocol is_icmp has_next is_icmpv6 =
    if has_type
    then (if is_ipv4
        then (if has_protocol then (if is_icmp then accepted else 0) else 0)
        else (if has_next then (if is_icmpv6 then accepted else 0) else 0))
    else 0

run-outcome :
    (kernel : Machine) (accepted a : ℕ) (frame : List ℕ) (t v p i n j : Bool)
    → leb 14 (length frame) ≡ t
    → (half_at frame 12 == 0x0800) ≡ v
    → leb 24 (length frame) ≡ p
    → (get_or frame 23 0 == 1) ≡ i
    → leb 21 (length frame) ≡ n
    → (get_or frame 20 0 == 58) ≡ j
    → kernel.run (program accepted) a frame ≡ outcome accepted t v p i n j
run-outcome kernel accepted a frame false v p i n j et ev ep ei en ej =
    simp (kernel.runs_load_half, et)
run-outcome kernel accepted a frame true true false i n j et ev ep ei en ej =
    simp (kernel.runs_load_half, kernel.runs_load_byte, kernel.runs_jump_equal, et, ev, ep)
run-outcome kernel accepted a frame true true true false n j et ev ep ei en ej = simp (
  kernel.runs_load_half, kernel.runs_load_byte, kernel.runs_jump_equal, kernel.runs_return, et, ev,
  ep, ei,
)
run-outcome kernel accepted a frame true true true true n j et ev ep ei en ej = simp (
  kernel.runs_load_half, kernel.runs_load_byte, kernel.runs_jump_equal, kernel.runs_return, et, ev,
  ep, ei,
)
run-outcome kernel accepted a frame true false p i false j et ev ep ei en ej =
    simp (kernel.runs_load_half, kernel.runs_load_byte, kernel.runs_jump_equal, et, ev, en)
run-outcome kernel accepted a frame true false p i true false et ev ep ei en ej = simp (
  kernel.runs_load_half, kernel.runs_load_byte, kernel.runs_jump_equal, kernel.runs_return, et, ev,
  en, ej,
)
run-outcome kernel accepted a frame true false p i true true et ev ep ei en ej = simp (
  kernel.runs_load_half, kernel.runs_load_byte, kernel.runs_jump_equal, kernel.runs_return, et, ev,
  en, ej,
)

-- What a filter does that keeps so many bytes of the frames that pass, and rejects all others.
abbrev pub Filters : Machine → List Instruction → ℕ → ℕ → List ℕ → Type 0
Filters kernel filter accepted a frame =
    ((kernel.run filter a frame ≡ accepted) ↔ Passes frame)
    × ((kernel.run filter a frame ≡ accepted) ⊎ (kernel.run filter a frame ≡ 0))

program-Filters :
    (kernel : Machine) (accepted a : ℕ) (frame : List ℕ)
    → 0 < accepted
    → Filters kernel (program accepted) accepted a frame
program-Filters kernel accepted a frame positive =
    let r = run-outcome kernel accepted a frame _ _ _ _ _ _ refl refl refl refl refl refl in
    ((λ h. ground (arith, r, positive), λ h. ground (arith, r)), ground (arith, r))

-- The filters for Linux and for macOS accept a frame exactly if it is IPv4 with protocol 1, or is of
-- another EtherType and has 58 in byte 20, and reject all others; the one keeps 65535 bytes of it, the
-- other 2^32 - 1. They do not ask whether the latter is IPv6: the jump taken when the EtherType is not
-- IPv4 lands behind that test.
pub icmp_filter-Passes :
    (kernel : Machine) (a : ℕ) (frame : List ℕ)
    → Filters kernel icmp_filter 65535 a frame × Filters kernel icmp_filter_mac 4294967295 a frame
unfolding icmp_filter icmp_filter_mac
icmp_filter-Passes kernel a frame = (
  program-Filters kernel 65535 a frame (omega arith),
  program-Filters kernel 4294967295 a frame (omega arith),
)
