-- ===== src/Socket/Filter.antt =====
-- The instructions that src/socket_handler.c writes with `BPF_STMT` and `BPF_JUMP`, its program, and
-- what is relied on of the machine that runs it, which is the kernel's.
use packet_analyzer.Prelude.{
  ℕ, ◌+◌, ◌*◌, ◌≡◌, List, [], ◌∷◌, ◌==◌, leb, if◌then◌else◌, drop, length, get_or,
}

pub data Instruction : Type 0 where
  -- BPF_LD | BPF_H | BPF_ABS and BPF_LD | BPF_B | BPF_ABS
  load_half load_byte : ℕ → Instruction
  -- BPF_JMP | BPF_JEQ | BPF_K: the value, and the instructions to skip if it is equal and if not
  jump_equal : ℕ → ℕ → ℕ → Instruction
  -- BPF_RET | BPF_K
  return : ℕ → Instruction

-- The program, with the number of bytes that it keeps of an accepted frame.
abbrev pub program : ℕ → List Instruction
program accepted =
    load_half 12
    ∷ jump_equal 0x0800 0 4
    ∷ load_byte 23
    ∷ jump_equal 1 4 5
    ∷ load_half 12
    ∷ jump_equal 0x86DD 0 3
    ∷ load_byte 20
    ∷ jump_equal 58 0 1
    ∷ return accepted
    ∷ return 0
    ∷ []

-- `icmp_filter` on Linux.
unfoldable pub icmp_filter : List Instruction
icmp_filter = program 65535

-- `icmp_filter` on macOS, which accepts with `(u_int)-1`.
unfoldable pub icmp_filter_mac : List Instruction
icmp_filter_mac = program 4294967295

-- Two bytes in network byte order.
abbrev pub half_at : List ℕ → ℕ → ℕ
half_at frame i = get_or frame i 0 * 256 + get_or frame (i + 1) 0

-- `run program accumulator frame` is the number of bytes to keep. Jumps are relative to the next
-- instruction, and a load past the end of the frame rejects it.
pub record Machine : Type 0 where
  pub run : List Instruction → ℕ → List ℕ → ℕ
  pub runs_load_half :
      (i a : ℕ) (rest : List Instruction) (frame : List ℕ)
      → run (load_half i ∷ rest) a frame
        ≡ (if leb (i + 2) (length frame) then run rest (half_at frame i) frame else 0)
  pub runs_load_byte :
      (i a : ℕ) (rest : List Instruction) (frame : List ℕ)
      → run (load_byte i ∷ rest) a frame
        ≡ (if leb (i + 1) (length frame) then run rest (get_or frame i 0) frame else 0)
  pub runs_jump_equal :
      (k jt jf a : ℕ) (rest : List Instruction) (frame : List ℕ)
      → run (jump_equal k jt jf ∷ rest) a frame
        ≡ run (drop (if a == k then jt else jf) rest) a frame
  pub runs_return :
      (k a : ℕ) (rest : List Instruction) (frame : List ℕ) → run (return k ∷ rest) a frame ≡ k
