-- ===== src/Buffer/Copy.antt =====
-- The byte loops of `buffer_write` and `buffer_read`, and what they do to a window of the queue.
use native.Mathlib.Nat.{mod-lt}
use packet_analyzer.Prelude.{
  ℕ, zero, suc, ◌+◌, ◌%◌, ◌^◌, ◌≤◌, ◌<◌, ◌≡◌, refl, sym, ap, subst, ◌∙◌, some, List, [], ◌∷◌, ◌++◌,
  append-nil, append_assoc, arith, length, get_or, set, take, drop, length-set, store-eq-set,
  get_elem?-eq-get_or, take-suc-set, drop-set_lt, u64,
}
use packet_analyzer.Buffer.{write_loop, read_loop}
use packet_analyzer.Buffer.Window.{window, window-set, next_position}

take-drop_cons :
    (n i : ℕ) (xs : List ℕ)
    → i < length xs
    → take (suc n) (drop i xs) ≡ get_or xs i 0 ∷ take n (drop (i + 1) xs)
take-drop_cons n i [] h = absurd (omega arith)
take-drop_cons n zero (x ∷ xs) h = refl
take-drop_cons n (suc i) (x ∷ xs) h =
    let e : suc i + 1 ≡ suc (i + 1) = omega arith in rw e (take-drop_cons n i xs (omega arith))

module _ (size : ℕ) (fits : size < 2 ^ 64) where
  next_index :
      (pos h k : ℕ) → h < size → pos ≡ (h + k) % size → u64 (pos + 1) % size ≡ (h + suc k) % size
  next_index pos h k hh e =
      let small : u64 (pos + 1) ≡ (h + k) % size + 1 =
        omega (arith, mod-lt (h + k) {m = size} (omega arith)) in
      ap (λ t. t % size) small ∙ next_position size h k

  pub write_loop_lem :
      (src : List ℕ) (h n i k pos : ℕ) (bytes : List ℕ)
      → length bytes ≡ size
      → h < size
      → k + n ≤ size
      → i + n ≤ length src
      → pos ≡ (h + k) % size
      → (bytes' : List ℕ) × (write_loop size src n i pos bytes
          ≡ some (bytes', (h + (k + n)) % size))
        × (length bytes' ≡ size)
        × (window bytes' size h (k + n) ≡ window bytes size h k ++ take n (drop i src))
  unfolding write_loop
  write_loop_lem src h zero i k pos bytes hl hh hk hi e =
      let k0 : k + 0 ≡ k = omega arith in
      (bytes, rw (k0, e) refl, hl, rw k0 (sym (append-nil (window bytes size h k))))
  write_loop_lem src h (suc n) i k pos bytes hl hh hk hi e =
      let pos_in : pos < length bytes = omega (arith, mod-lt (h + k) {m = size} (omega arith)) in
      let byte = get_or src i 0 in
      let (bytes', ran, allocated, holds) =
        write_loop_lem src h n (i + 1) (suc k) (u64 (pos + 1) % size) (set bytes pos byte)
          (length-set bytes pos byte ∙ hl) hh (omega arith) (omega arith)
          (next_index pos h k hh e) in
      let grown : window (set bytes pos byte) size h (suc k)
          ≡ window bytes size h k ++ (byte ∷ []) =
        subst (λ q. window (set bytes q byte) size h (suc k) ≡ window bytes size h k ++ (byte ∷ []))
          (sym e) (window-set bytes size h k byte hh (omega arith) (omega arith)) in
      let k1 : k + suc n ≡ suc k + n = omega arith in
      (
        bytes',
        rw (get_elem?-eq-get_or src i 0 (omega arith), store-eq-set bytes pos byte pos_in, k1) ran,
        allocated,
        rw (k1, holds)
            (ap (λ (xs : List ℕ). xs ++ take n (drop (i + 1) src)) grown
              ∙ append_assoc (window bytes size h k) (byte ∷ []) (take n (drop (i + 1) src))
              ∙ ap (◌++◌ (window bytes size h k)) (sym (take-drop_cons n i src (omega arith)))),
      )

  pub read_loop_lem :
      (bytes : List ℕ) (h n i pos : ℕ) (out : List ℕ)
      → length bytes ≡ size
      → h < size
      → i + n ≤ length out
      → pos ≡ (h + i) % size
      → take i out ≡ window bytes size h i
      → (out' : List ℕ) × (read_loop size bytes n i pos out ≡ some (out', (h + (i + n)) % size))
        × (take (i + n) out' ≡ window bytes size h (i + n))
        × (drop (i + n) out' ≡ drop (i + n) out)
        × (length out' ≡ length out)
  unfolding read_loop
  read_loop_lem bytes h zero i pos out hl hh hi e t =
      let i0 : i + 0 ≡ i = omega arith in (out, rw (i0, e) refl, rw i0 t, refl, refl)
  read_loop_lem bytes h (suc n) i pos out hl hh hi e t =
      let pos_in : pos < length bytes = omega (arith, mod-lt (h + i) {m = size} (omega arith)) in
      let byte = get_or bytes pos 0 in
      let s : i + 1 ≡ suc i = omega arith in
      let extended : take (i + 1) (set out i byte) ≡ window bytes size h (i + 1) =
        rw (s, take-suc-set out i byte (omega arith), t, e) refl in
      let (out', ran, taken, dropped, sized) =
        read_loop_lem bytes h n (i + 1) (u64 (pos + 1) % size) (set out i byte) hl hh
          (omega (arith, length-set out i byte)) (rw s (next_index pos h i hh e)) extended in
      let i1 : i + suc n ≡ i + 1 + n = omega arith in
      (
        out',
        rw (get_elem?-eq-get_or bytes pos 0 pos_in, store-eq-set out i byte (omega arith), i1) ran,
        rw i1 taken,
        rw (i1, dropped) (drop-set_lt out i (i + 1 + n) byte (omega arith)),
        sized ∙ length-set out i byte,
      )
