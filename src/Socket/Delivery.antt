-- ===== src/Socket/Delivery.antt =====
-- Repeated calls of `socket_receive_packet` of src/socket_handler.c on macOS, over the buffers that the
-- system fills.
use packet_analyzer.Prelude.{
  ℕ, subst, zero, suc, ◌+◌, ◌≤◌, ◌<◌, ◌≡◌, ◌∙◌, ap, sym, refl, arith, true, false, Option, none,
  some, List, [], ◌∷◌, ◌++◌, ◌>>=◌, ltb, drop, length, length-append, length-drop, lt→ltb, le→leb,
}
use packet_analyzer.Main.Capture.{Received}
use packet_analyzer.Socket.Config.{SocketConfig}
use packet_analyzer.Socket.Receive.{
  Reading, stored, Bpf, waiting, returned, is_usable, stored_in, next_frame, receive_mac,
}
use packet_analyzer.Socket.Frames.{cut, cuts, IsPacked, IsOpen, next_frame-packed, advanced}

-- What a fill of the buffer stores, and the frames that it holds.
abbrev pub Fill : Type 0
Fill = List ℕ × List (List ℕ)

abbrev pub readings : List Fill → List Reading
readings [] = []
readings ((bytes, frames) ∷ fills) = stored bytes ∷ readings fills

abbrev pub all_frames : List Fill → List (List ℕ)
all_frames [] = []
all_frames ((bytes, frames) ∷ fills) = frames ++ all_frames fills

usable :
    (c : SocketConfig) (fd size : ℕ) → 0 < size → c.socket_fd ≡ some fd → is_usable c size ≡ true
usable c fd size h o = rw o (lt→ltb _ _ h)

some-append : (o : Option (List Received)) → o ≡ (o >>= λ more. some ([] ++ more))
some-append none = refl
some-append (some more) = refl

cons-append :
    (r : Received) (first : List Received) (o : Option (List Received))
    → ((o >>= λ more. some (first ++ more)) >>= λ more. some (r ∷ more))
      ≡ (o >>= λ more. some ((r ∷ first) ++ more))
cons-append r first none = refl
cons-append r first (some more) = refl

module _ (B : Bpf) where
  -- What `n` calls return, one after the other, up to one that waits.
  unfoldable pub deliveries : ℕ → List Reading → SocketConfig → ℕ → Option (List Received)
  deliveries zero rs c size = some []
  deliveries (suc n) rs c size = receive_mac B rs c size >>= λ call. elim call [
    | waiting c' ↦ some []
    | returned r c' rs' ↦ deliveries n rs' c' size >>= λ more. some (r ∷ more)
  ]

  -- Each fill fits into the buffer, is not empty, and is packed with its frames from the start,
  -- whatever lies behind it.
  abbrev pub Filled : ℕ → List Fill → Type 0
  Filled size [] = Unit {0}
  Filled size ((bytes, frames) ∷ fills) =
      (0 < length bytes)
      × (length bytes ≤ size)
      × ((rest : List ℕ) → IsPacked B (bytes ++ rest) (length bytes) 0 frames)
      × Filled size fills

  receive_mac-frame :
      (rs : List Reading) (c : SocketConfig) (fd size : ℕ) (buffer f : List ℕ)
      (frames : List (List ℕ))
      → 0 < size
      → IsOpen B c fd buffer
      → (p : IsPacked B buffer c.bpf_data_len c.bpf_offset (f ∷ frames))
      → receive_mac B rs c size ≡ some (returned (cut size f) (advanced B c p.0 (length f)) rs)
  unfolding receive_mac
  receive_mac-frame [] c fd size buffer f frames h o p =
      rw (next_frame-packed B c fd size buffer f frames o p, usable c fd size h o.0) refl
  receive_mac-frame (r ∷ rs) c fd size buffer f frames h o p =
      rw (next_frame-packed B c fd size buffer f frames o p, usable c fd size h o.0) refl

  -- The configuration behind a read.
  abbrev filled : SocketConfig → List ℕ → List ℕ → SocketConfig
  filled c buffer bytes = record c {
    bpf_buffer = some (bytes ++ drop (length bytes) buffer);
    bpf_data_len = length bytes;
    bpf_offset = 0;
  }

  receive_mac-fill :
      (rs : List Reading) (c : SocketConfig) (fd size : ℕ) (buffer bytes : List ℕ)
      → 0 < size
      → IsOpen B c fd buffer
      → c.bpf_data_len ≤ c.bpf_offset
      → 0 < length bytes
      → length bytes ≤ length buffer
      → receive_mac B (stored bytes ∷ rs) c size ≡ receive_mac B rs (filled c buffer bytes) size
  unfolding receive_mac next_frame stored_in
  receive_mac-fill rs c fd size buffer [] h o used positive fits = absurd (omega arith)
  receive_mac-fill rs c fd size buffer (b ∷ bytes) h o used positive fits =
      let outside : ltb c.bpf_offset c.bpf_data_len ≡ false = ground arith in
      rw (o.0, lt→ltb _ _ h, outside, o.1, le→leb _ _ fits) refl

  -- The frames in the buffer come first, and the calls that are left go on behind them.
  drain :
      (frames : List (List ℕ)) (m : ℕ) (rs : List Reading) (c : SocketConfig) (fd size : ℕ)
      (buffer : List ℕ)
      → 0 < size
      → IsOpen B c fd buffer
      → IsPacked B buffer c.bpf_data_len c.bpf_offset frames
      → (c' : SocketConfig) × IsOpen B c' fd buffer
        × (c'.bpf_data_len ≤ c'.bpf_offset)
        × (deliveries (length frames + m) rs c size
            ≡ (deliveries m rs c' size >>= λ more. some (cuts size frames ++ more)))
  unfolding deliveries
  drain [] m rs c fd size buffer h o p =
      let none_left : 0 + m ≡ m = omega arith in
      (c, o, p, rw none_left (some-append (deliveries m rs c size)))
  drain (f ∷ frames) m rs c fd size buffer h o p =
      let next = advanced B c p.0 (length f) in
      let (c', o', used, rest) = drain frames m rs next fd size buffer h o p.9 in
      let count : length (f ∷ frames) + m ≡ suc (length frames + m) = omega arith in
      let received = receive_mac-frame rs c fd size buffer f frames h o p in
      (
        c',
        o',
        used,
        rw count (
            rw (received, rest)
              (cons-append (cut size f) (cuts size frames) (deliveries m rs c' size))),
      )

  length-filled :
      (bytes buffer : List ℕ)
      → length bytes ≤ length buffer
      → length (bytes ++ drop (length bytes) buffer) ≡ length buffer
  length-filled bytes buffer h = omega (
    arith,
    length-append {0} bytes (drop (length bytes) buffer),
    length-drop {0} (length bytes) buffer,
  )

  cuts-append :
      (size : ℕ) (xs ys : List (List ℕ)) → cuts size (xs ++ ys) ≡ cuts size xs ++ cuts size ys
  cuts-append size [] ys = refl
  cuts-append size (x ∷ xs) ys = ap (λ r. cut size x ∷ r) (cuts-append size xs ys)

  -- A fill that is not empty has a frame, so a call that needs it returns one.
  deliveries-fill :
      (n : ℕ) (rs : List Reading) (c : SocketConfig) (fd size : ℕ) (buffer bytes : List ℕ)
      → 0 < n
      → 0 < size
      → IsOpen B c fd buffer
      → c.bpf_data_len ≤ c.bpf_offset
      → 0 < length bytes
      → length bytes ≤ length buffer
      → deliveries n (stored bytes ∷ rs) c size ≡ deliveries n rs (filled c buffer bytes) size
  unfolding deliveries
  deliveries-fill zero rs c fd size buffer bytes some_calls h o used positive fits =
      absurd (omega arith)
  deliveries-fill (suc n) rs c fd size buffer bytes some_calls h o used positive fits =
      rw (receive_mac-fill rs c fd size buffer bytes h o used positive fits) refl

  from_empty :
      (fills : List Fill) (c : SocketConfig) (fd size : ℕ) (buffer : List ℕ)
      → 0 < size
      → IsOpen B c fd buffer
      → c.bpf_data_len ≤ c.bpf_offset
      → Filled (length buffer) fills
      → deliveries (length (all_frames fills)) (readings fills) c size
        ≡ some (cuts size (all_frames fills))
  unfolding deliveries
  from_empty [] c fd size buffer h o used fill = refl
  from_empty ((bytes, []) ∷ fills) c fd size buffer h o used (positive, fits, packed, fill) =
      absurd (omega (arith, packed []))
  from_empty ((bytes, f ∷ frames) ∷ fills) c fd size buffer h o used
        (positive, fits, packed, fill) =
      let first = f ∷ frames in
      let after = filled c buffer bytes in
      let held = bytes ++ drop (length bytes) buffer in
      let rs = readings fills in
      let (c', o', used', rest) =
        drain first (length (all_frames fills)) rs after fd size held h (o.0, refl)
          (packed (drop (length bytes) buffer)) in
      let total = length-append {0} first (all_frames fills) in
      let ih =
        from_empty fills c' fd size held h o' used'
          (subst (λ n. Filled n fills) (sym (length-filled bytes buffer fits)) fill) in
      ap (λ (n : ℕ). deliveries n (stored bytes ∷ rs) c size) total
      ∙ (deliveries-fill (length first + length (all_frames fills)) rs c fd size buffer bytes
            (omega arith) h o used positive fits
          ∙ (rest
              ∙ (ap (λ o. o >>= λ more. some (cuts size first ++ more)) ih
                  ∙ ap some (sym (cuts-append size first (all_frames fills))))))

  -- Repeated calls on an open device deliver the frames that are still in the buffer, and then those
  -- of every further fill by the system, all of them once and in order, each cut to the caller's size;
  -- no call touches memory outside of the buffer. Each fill fits into the buffer and is packed frame
  -- by frame.
  pub deliveries-cuts :
      (frames : List (List ℕ)) (fills : List Fill) (c : SocketConfig) (fd size : ℕ)
      (buffer : List ℕ)
      → 0 < size
      → IsOpen B c fd buffer
      → IsPacked B buffer c.bpf_data_len c.bpf_offset frames
      → Filled (length buffer) fills
      → deliveries (length (frames ++ all_frames fills)) (readings fills) c size
        ≡ some (cuts size (frames ++ all_frames fills))
  deliveries-cuts frames fills c fd size buffer h o p fill =
      let rest = all_frames fills in
      let (c', o', used, eq) = drain frames (length rest) (readings fills) c fd size buffer h o p in
      rw (length-append {0} frames rest) (
        eq
        ∙ (ap (λ o. o >>= λ more. some (cuts size frames ++ more))
              (from_empty fills c' fd size buffer h o' used fill)
            ∙ ap some (sym (cuts-append size frames rest))))
