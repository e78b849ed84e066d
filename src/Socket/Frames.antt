-- ===== src/Socket/Frames.antt =====
-- The frames that the system packs into its buffers, and what repeated calls of
-- `socket_receive_packet` of src/socket_handler.c make of them on macOS.
use packet_analyzer.Prelude.{
  ℕ, ◌||◌, ltb→lt, lt→ltb, ◌+◌, ◌^◌, ◌≤◌, ◌<◌, ◌≡◌, ◌∙◌, ap, sym, refl, arith, true, false, some,
  List, [], ◌∷◌, ltb, leb, ◌==◌, if◌then◌else◌, Bool-cases, inl, inr, take, drop, length, memcpy,
  u32, u64, take-shorter, take-all,
}
use native.Mathlib.Nat.{mod-eq_of_lt}
use packet_analyzer.Main.Capture.{Received, frame}
use packet_analyzer.Socket.Config.{SocketConfig}
use packet_analyzer.Socket.Receive.{BpfHeader, Bpf, next_frame}

-- A copy that stops earlier.
memcpy-shorter :
    (m n offset : ℕ) (xs f : List ℕ)
    → memcpy xs offset n ≡ some f
    → m ≤ n
    → memcpy xs offset m ≡ some (take m f)
unfolding memcpy
memcpy-shorter m n offset xs f h le = elim (Bool-cases (leb (offset + n) (length xs))) [
  | inl e ↦
      let inside : leb (offset + m) (length xs) ≡ true = ground (arith, e, le) in
      let same : take n (drop offset xs) ≡ f = ground (arith, e, h) in
      rw inside (ap some (sym (take-shorter m n (drop offset xs) le) ∙ ap (take m) same))
  | inr e ↦ absurd (ground (arith, e, h))
]

-- The copy that the code makes, of as much as the caller has room for.
memcpy-cut :
    (size offset caplen : ℕ) (xs f : List ℕ)
    → memcpy xs offset (length f) ≡ some f
    → caplen ≡ length f
    → length f < 2 ^ 32
    → memcpy xs offset (if ltb size caplen then u32 size else caplen) ≡ some (take size f)
memcpy-cut size offset caplen xs f h same small = rw same (elim (Bool-cases (ltb size (length f))) [
  | inl e ↦
      let less = ltb→lt _ _ e in
      let fits : u32 size ≡ size = omega arith in
      rw (e, fits) (memcpy-shorter size (length f) offset xs f h (omega arith))
  | inr e ↦ let le : length f ≤ size = ground (arith, e) in rw (e, take-all size f le) h
])

-- The frame that a caller with room for `size` bytes gets.
abbrev pub cut : ℕ → List ℕ → Received
cut size f = frame (take size f)

abbrev pub cuts : ℕ → List (List ℕ) → List Received
cuts size [] = []
cuts size (f ∷ frames) = cut size f ∷ cuts size frames

module _ (B : Bpf) where
  -- From an offset on, the `n` bytes of valid data are these frames, none of them empty, each behind
  -- its header and followed by padding; the offsets do not overflow.
  abbrev pub IsPacked : List ℕ → ℕ → ℕ → List (List ℕ) → Type 0
  IsPacked buffer n offset [] = n ≤ offset
  IsPacked buffer n offset (f ∷ frames) =
      (h : BpfHeader) × (B.header_at buffer offset ≡ some h)
      × (offset < n)
      × (h.bh_caplen ≡ length f)
      × (0 < length f)
      × (0 < h.bh_hdrlen)
      × (h.bh_hdrlen + length f < 2 ^ 32)
      × (memcpy buffer (offset + h.bh_hdrlen) (length f) ≡ some f)
      × (offset + B.word_align (h.bh_hdrlen + length f) < 2 ^ 64)
      × IsPacked buffer n (offset + B.word_align (h.bh_hdrlen + length f)) frames

  -- A usable socket whose buffer is there.
  abbrev pub IsOpen : SocketConfig → ℕ → List ℕ → Type 0
  IsOpen c fd buffer = (c.socket_fd ≡ some fd) × (c.bpf_buffer ≡ some buffer)

  -- The configuration behind a frame.
  abbrev pub advanced : SocketConfig → BpfHeader → ℕ → SocketConfig
  advanced c h n = record c { bpf_offset = c.bpf_offset + B.word_align (h.bh_hdrlen + n) }

  pub next_frame-packed :
      (c : SocketConfig) (fd size : ℕ) (buffer f : List ℕ) (frames : List (List ℕ))
      → IsOpen c fd buffer
      → (p : IsPacked buffer c.bpf_data_len c.bpf_offset (f ∷ frames))
      → next_frame B c size ≡ some (some (take size f), advanced c p.0 (length f))
  unfolding next_frame
  next_frame-packed c fd size buffer f frames o p =
      let (h, at, before, same, positive, header, fits, copied, small, more) = p in
      let inside : ltb c.bpf_offset c.bpf_data_len ≡ true = lt→ltb _ _ before in
      let valid : (h.bh_caplen == 0 || h.bh_hdrlen == 0) ≡ false =
        ground (arith, same, positive, header) in
      let next : u64 (c.bpf_offset + B.word_align (u32 (h.bh_hdrlen + h.bh_caplen)))
          ≡ c.bpf_offset + B.word_align (h.bh_hdrlen + length f) =
        rw (same, mod-eq_of_lt fits, mod-eq_of_lt small) refl in
      rw
        (
          inside,
          o.1,
          at,
          valid,
          memcpy-cut size (c.bpf_offset + h.bh_hdrlen) h.bh_caplen buffer f copied same
              (omega arith),
          next,
        )
        refl
