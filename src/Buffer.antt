-- ===== src/Buffer.antt =====
-- src/buffer.c and include/buffer.h: a circular byte buffer. A pointer argument that may be null is
-- an `Option`. `Buffer.Window` reads a buffer as a queue, `Buffer.Copy` is about the two byte loops,
-- and `Buffer.Refine` is about the whole calls.
pub mod Window
pub mod Copy
pub mod Refine
mod Tests
use packet_analyzer.Prelude.{
  ℕ, zero, suc, ◌+◌, ◌-◌, ◌%◌, Bool, true, false, ◌||◌, Option, none, some, List, ◌>>=◌, ltb, ◌==◌,
  if◌then◌else◌, get_elem?, store, u64, sub64,
}

-- `circular_buffer_t`. `bytes` is the allocation that `data` points to.
pub record CircularBuffer : Type 0 where
  pub bytes : List ℕ
  pub capacity : ℕ
  pub used : ℕ
  pub head : ℕ
  pub tail : ℕ

-- The `int` results 0 and -1.
pub data Status : Type 0 where
  success failure : Status

-- The two `malloc`s are arguments: whether the structure was allocated, and what the allocation of
-- `capacity` bytes holds.
pub create : ℕ → Bool → Option (List ℕ) → Option CircularBuffer
create capacity false memory = none
create capacity true none = none
create capacity true (some bytes) =
    if capacity == 0
    then none
    else some (record { bytes = bytes; capacity = capacity; used = 0; head = 0; tail = 0 })

-- The loop of `buffer_write`, with `n` rounds left: one byte from `src[i]` to `data[write_pos]`.
pub write_loop : ℕ → List ℕ → ℕ → ℕ → ℕ → List ℕ → Option (List ℕ × ℕ)
write_loop capacity src zero i write_pos bytes = some (bytes, write_pos)
write_loop capacity src (suc n) i write_pos bytes = get_elem? src i >>= λ byte.
    store bytes write_pos byte >>= λ bytes'.
    write_loop capacity src n (i + 1) (u64 (write_pos + 1) % capacity) bytes'

-- The loop of `buffer_read`: one byte from `data[read_pos]` to `out[i]`.
pub read_loop : ℕ → List ℕ → ℕ → ℕ → ℕ → List ℕ → Option (List ℕ × ℕ)
read_loop capacity bytes zero i read_pos out = some (out, read_pos)
read_loop capacity bytes (suc n) i read_pos out = get_elem? bytes read_pos >>= λ byte.
    store out i byte >>= λ out'.
    read_loop capacity bytes n (i + 1) (u64 (read_pos + 1) % capacity) out'

-- The result is `none` where the C code would access memory outside of an allocation.
pub write : Option CircularBuffer → Option (List ℕ) → ℕ → Option (Status × Option CircularBuffer)
write none src length = some (failure, none)
write (some b) none length = some (failure, some b)
write (some b) (some src) length =
    if length == 0 || ltb b.capacity (u64 (b.used + length))
    then some (failure, some b)
    else (write_loop b.capacity src length 0 b.tail b.bytes >>= λ r.
        some (success, some (record b { bytes = r.0; tail = r.1; used = u64 (b.used + length) })))

-- The caller's array is the third part of the result.
pub read :
    Option CircularBuffer
    → Option (List ℕ)
    → ℕ
    → Option (Status × Option CircularBuffer × Option (List ℕ))
read none out length = some (failure, none, out)
read (some b) none length = some (failure, some b, none)
read (some b) (some out) length =
    if length == 0 || ltb b.used length
    then some (failure, some b, some out)
    else (read_loop b.capacity b.bytes length 0 b.head out >>= λ r.
        some (success, some (record b { head = r.1; used = sub64 b.used length }), some (r.0)))

pub get_available : Option CircularBuffer → ℕ
get_available none = 0
get_available (some b) = b.used

pub reset : Option CircularBuffer → Option CircularBuffer
reset none = none
reset (some b) = some (record b { head = 0; tail = 0; used = 0 })
