-- ===== src/Buffer/Refine.antt =====
-- Every call of src/buffer.c against a bounded queue of bytes.
use native.Mathlib.Nat.{mod-lt, mod-add-mod, mod-eq_of_lt}
use packet_analyzer.Prelude.{
  append-nil, length-append, length-take, ℕ, ◌+◌, ◌-◌, ◌%◌, ◌^◌, ◌≤◌, ◌<◌, ◌≡◌, ◌≢◌, refl, sym, ap,
  ◌∙◌, true, Option, some, List, [], ◌∷◌, ◌++◌, arith, length, take, drop, u64, sub64,
}
use packet_analyzer.Buffer.{
  read_loop, CircularBuffer, Status, success, failure, create, write, read,
}
use packet_analyzer.Buffer.Window.{window, contents, IsValid, length-window, window-add}
use packet_analyzer.Buffer.Copy.{write_loop_lem, read_loop_lem}

-- What `buffer_create` returns is valid and empty, with the capacity that was asked for.
pub create-IsValid :
    (capacity : ℕ) (memory : List ℕ) {b : CircularBuffer}
    → length memory ≡ capacity
    → capacity < 2 ^ 64
    → create capacity true (some memory) ≡ some b
    → IsValid b × (contents b ≡ []) × (b.capacity ≡ capacity)
unfolding create
create-IsValid capacity memory h k e = grind arith

-- What a write must do to a queue: all of the first `n` bytes of `src`, or nothing.
abbrev pub Appends : CircularBuffer → List ℕ → ℕ → Option (Status × Option CircularBuffer) → Type 0
Appends b src n r =
    (b' : CircularBuffer) × (r ≡ some (success, some b'))
    × IsValid b'
    × (b'.capacity ≡ b.capacity)
    × (contents b' ≡ contents b ++ take n src)

-- A write of `n` bytes that fit into a valid buffer succeeds: it stays inside both arrays, appends
-- exactly the `n` bytes to the queue in order, and keeps the buffer valid.
pub write-Appends :
    (b : CircularBuffer) (src : List ℕ) (n : ℕ)
    → IsValid b
    → n ≢ 0
    → n ≤ length src
    → b.used + n ≤ b.capacity
    → Appends b src n (write (some b) (some src) n)
unfolding write
write-Appends b src n v ne hs fit =
    let (bytes, ran, allocated, holds) =
      write_loop_lem b.capacity v.fits src b.head n 0 b.used b.tail b.bytes v.allocated v.head_in
        fit (omega arith) v.tail_at in
    let used : u64 (b.used + n) ≡ b.used + n = omega (arith, v.fits) in
    (
      record b { bytes = bytes; tail = (b.head + (b.used + n)) % b.capacity; used = b.used + n },
      ground (arith, ran, used),
      record {
        allocated = allocated;
        nonempty = v.nonempty;
        fits = v.fits;
        head_in = v.head_in;
        used_in = fit;
        tail_at = refl;
      },
      refl,
      holds,
    )

-- A write that does not fit, with no wrap of `used + n`, fails and changes nothing.
pub write_refuses :
    (b : CircularBuffer) (src : List ℕ) (n : ℕ)
    → b.capacity < b.used + n
    → b.used + n < 2 ^ 64
    → write (some b) (some src) n ≡ some (failure, some b)
unfolding write
write_refuses b src n h k = ground arith

-- What a read must do: hand over the oldest `n` bytes and leave the rest of the queue, with the
-- rest of the caller's array as it was.
abbrev pub TakesOff :
    CircularBuffer → List ℕ → ℕ → Option (Status × Option CircularBuffer × Option (List ℕ)) → Type 0
TakesOff b out n r =
    (b' : CircularBuffer) × (out' : List ℕ) × (r ≡ some (success, some b', some out'))
    × IsValid b'
    × (b'.capacity ≡ b.capacity)
    × (contents b ≡ take n out' ++ contents b')
    × (drop n out' ≡ drop n out)
    × (length out' ≡ length out)

-- A read of `n` bytes that a valid buffer holds succeeds: it stays inside both arrays, puts the
-- oldest `n` bytes at the start of the caller's array, removes exactly those from the queue, and
-- keeps the buffer valid.
pub read-TakesOff :
    (b : CircularBuffer) (out : List ℕ) (n : ℕ)
    → IsValid b
    → n ≢ 0
    → n ≤ length out
    → n ≤ b.used
    → TakesOff b out n (read (some b) (some out) n)
unfolding read
read-TakesOff b out n v ne hs enough =
    let h0 : b.head + 0 ≡ b.head = omega arith in
    let start : b.head ≡ (b.head + 0) % b.capacity = rw h0 (sym (mod-eq_of_lt v.head_in)) in
    let (out', ran, taken, dropped, sized) =
      read_loop_lem b.capacity v.fits b.bytes b.head n 0 b.head out v.allocated v.head_in
        (omega arith) start refl in
    let left : sub64 b.used n ≡ b.used - n = omega (arith, v.fits, v.used_in) in
    let n0 : 0 + n ≡ n = omega arith in
    let all : n + (b.used - n) ≡ b.used = omega arith in
    let ran' : read_loop b.capacity b.bytes n 0 b.head out
        ≡ some (out', (b.head + n) % b.capacity) =
      rw n0 at ran in
    let taken' : take n out' ≡ window b.bytes b.capacity b.head n = rw n0 at taken in
    let b' : CircularBuffer = record b { head = (b.head + n) % b.capacity; used = b.used - n } in
    (
      b',
      out',
      ground (arith, ran', left),
      record {
        allocated = v.allocated;
        nonempty = v.nonempty;
        fits = v.fits;
        head_in = mod-lt (b.head + n) v.nonempty;
        used_in = omega (arith, v.used_in);
        tail_at =
            v.tail_at
            ∙ sym (
                mod-add-mod (b.head + n) b.capacity (b.used - n)
                ∙ ap (λ t. t % b.capacity) {x = b.head + n + (b.used - n)} {y = b.head + b.used}
                    (omega arith));
      },
      refl,
      rw (taken', ← window-add b.bytes b.capacity b.head n (b.used - n), all) refl,
      rw n0 at dropped,
      sized,
    )

-- A read of more bytes than a buffer holds fails and changes nothing.
pub read_refuses :
    (b : CircularBuffer) (out : List ℕ) (n : ℕ)
    → b.used < n
    → read (some b) (some out) n ≡ some (failure, some b, some out)
unfolding read
read_refuses b out n h = ground arith

append_of_length :
    (xs ys zs : List ℕ) → length xs ≡ length ys → xs ≡ ys ++ zs → (ys ≡ xs) × (zs ≡ [])
append_of_length xs ys [] h e = (sym (e ∙ append-nil ys), refl)
append_of_length xs ys (z ∷ zs) h e = absurd (omega (arith, ap length e, length-append ys (z ∷ zs)))

-- What is written to an empty buffer comes back: a write of `n` bytes and a read of `n` bytes hand
-- the same `n` bytes to the caller, and the buffer is empty again.
pub read-write :
    (b : CircularBuffer) (src out : List ℕ) (n : ℕ)
    → IsValid b
    → b.used ≡ 0
    → n ≢ 0
    → n ≤ b.capacity
    → n ≤ length src
    → n ≤ length out
    → (b' b'' : CircularBuffer) × (out' : List ℕ) × (write (some b) (some src) n
        ≡ some (success, some b'))
      × (read (some b') (some out) n ≡ some (success, some b'', some out'))
      × (take n out' ≡ take n src)
      × (contents b'' ≡ [])
read-write b src out n v empty ne fit hs ho =
    let (b', wrote, valid, same, holds) = write-Appends b src n v ne hs (omega arith) in
    let nothing : contents b ≡ [] = rw empty refl in
    let all : contents b' ≡ take n src = rw nothing at holds in
    let count : b'.used ≡ n = omega (
      arith,
      ap length all,
      length-window b'.bytes b'.capacity b'.head b'.used,
      length-take n src,
    ) in
    let (b'', out', ran, _, _, split, _, sized) =
      read-TakesOff b' out n valid ne ho (omega arith) in
    let (taken, rest) =
      append_of_length (take n src) (take n out') (contents b'')
        (omega (arith, length-take n src, length-take n out', sized)) (sym all ∙ split) in
    (b', b'', out', wrote, ran, taken, rest)
