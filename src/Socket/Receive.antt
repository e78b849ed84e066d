-- ===== src/Socket/Receive.antt =====
-- `socket_receive_packet` of src/socket_handler.c, for Linux and for macOS. An outer `none` is an
-- access outside of an allocation.
use packet_analyzer.Prelude.{
  ℕ, ◌+◌, ◌≤◌, Bool, false, Option, none, some, List, [], ◌∷◌, ◌++◌, ◌||◌, ◌>>=◌, ltb, leb, ◌==◌,
  if◌then◌else◌, drop, length, memcpy, u32, u64,
}
use packet_analyzer.Main.Capture.{Received, error, nothing, frame}
use packet_analyzer.Socket.Config.{SocketConfig}

-- What `recvfrom` or `read` returns: a failure with `EAGAIN`, `EWOULDBLOCK` or `EINTR`, another
-- failure, or the bytes that it stored.
pub data Reading : Type 0 where
  no_data failed : Reading
  stored : List ℕ → Reading

-- On Linux, for a descriptor and a buffer that are there.
abbrev pub received : Reading → Received
received no_data = nothing
received failed = error
received (stored bytes) = frame bytes

abbrev pub is_usable : SocketConfig → ℕ → Bool
is_usable c buffer_size = elim c.socket_fd [ none ↦ false | some _ ↦ ltb 0 buffer_size ]

unfoldable pub receive_linux : Reading → SocketConfig → ℕ → Received
receive_linux reading c buffer_size = if is_usable c buffer_size then received reading else error

-- The fields of `struct bpf_hdr` that the code reads.
pub record BpfHeader : Type 0 where
  pub bh_caplen : ℕ
  pub bh_hdrlen : ℕ

-- The system's `struct bpf_hdr` at an offset of the buffer, which is `none` past the end, and
-- `BPF_WORDALIGN`, which rounds up.
pub record Bpf : Type 0 where
  pub header_at : List ℕ → ℕ → Option BpfHeader
  pub word_align : ℕ → ℕ
  pub le-word_align : (n : ℕ) → n ≤ word_align n

-- How a call ends. A call whose reads are used up is still waiting.
pub data Call : Type 0 where
  waiting : SocketConfig → Call
  returned : Received → SocketConfig → List Reading → Call

abbrev pub emptied : SocketConfig → SocketConfig
emptied c = record c { bpf_data_len = 0; bpf_offset = 0 }

-- `read` stores at the start of the buffer, which may not be null.
unfoldable pub stored_in : SocketConfig → List ℕ → Option SocketConfig
stored_in c bytes = c.bpf_buffer >>= λ buffer.
    if leb (length bytes) (length buffer)
    then some (record c {
      bpf_buffer = some (bytes ++ drop (length bytes) buffer);
      bpf_data_len = length bytes;
    })
    else none

module _ (B : Bpf) where
  -- The body of the `while` loop, which always leaves it: the frame at the offset, or no frame and an
  -- emptied buffer.
  unfoldable pub next_frame : SocketConfig → ℕ → Option (Option (List ℕ) × SocketConfig)
  next_frame c buffer_size =
      if ltb c.bpf_offset c.bpf_data_len
      then (c.bpf_buffer >>= λ buffer. B.header_at buffer c.bpf_offset >>= λ h.
          if h.bh_caplen == 0 || h.bh_hdrlen == 0
          then some (none, emptied c)
          else (memcpy buffer (c.bpf_offset + h.bh_hdrlen)
                (if ltb buffer_size h.bh_caplen then u32 buffer_size else h.bh_caplen)
              >>= λ bytes. some (
                some bytes,
                record c {
                  bpf_offset = u64 (c.bpf_offset + B.word_align (u32 (h.bh_hdrlen + h.bh_caplen)));
                },
              )))
      else some (none, c)

  -- The call on macOS, with the results of the reads that it comes to make. It calls itself after a
  -- read that stored something. The result is an `int`, as which the lengths here fit.
  unfoldable pub receive_mac : List Reading → SocketConfig → ℕ → Option Call
  receive_mac [] c buffer_size =
      if is_usable c buffer_size
      then (next_frame c buffer_size >>= λ r. elim r.0 [
        | some bytes ↦ some (returned (frame bytes) r.1 [])
        | none ↦ some (waiting (emptied r.1))
      ])
      else some (returned error c [])
  receive_mac (reading ∷ readings) c buffer_size =
      if is_usable c buffer_size
      then (next_frame c buffer_size >>= λ r. elim r.0 [
        | some bytes ↦ some (returned (frame bytes) r.1 (reading ∷ readings))
        | none ↦ elim reading [
          | no_data ↦ some (returned nothing (emptied r.1) readings)
          | failed ↦ some (returned error (emptied r.1) readings)
          | stored bytes ↦ elim bytes [
            | [] ↦ some (returned nothing (emptied r.1) readings)
            | b ∷ bs ↦
                stored_in (emptied r.1) (b ∷ bs) >>= λ c'. receive_mac readings c' buffer_size
          ]
        ]
      ])
      else some (returned error c (reading ∷ readings))
