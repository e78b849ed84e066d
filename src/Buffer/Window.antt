-- ===== src/Buffer/Window.antt =====
-- A circular buffer read as the queue of the bytes that it holds, oldest first.
use native.Mathlib.Nat.{mod-add-mod, mod-eq_of_lt, mod-eq-sub-mod, mod-lt}
use packet_analyzer.Prelude.{
  ℕ, zero, suc, ◌+◌, ◌-◌, ◌%◌, ◌^◌, ◌≤◌, ◌<◌, ◌≡◌, ◌≢◌, refl, sym, ap, ap₂, ◌∙◌, List, [], ◌∷◌,
  ◌++◌, append-nil, append_assoc, arith, dec_lt, length, get_or, set, drop, get_or-set_self,
  get_or-set_ne, length-append,
}
use packet_analyzer.Buffer.{CircularBuffer}

-- The `n` bytes from index `h` on, going round at `cap`.
abbrev pub window : List ℕ → ℕ → ℕ → ℕ → List ℕ
window bytes cap h zero = []
window bytes cap h (suc n) = window bytes cap h n ++ (get_or bytes ((h + n) % cap) 0 ∷ [])

abbrev pub contents : CircularBuffer → List ℕ
contents b = window b.bytes b.capacity b.head b.used

-- What every operation keeps. A `size_t` has 64 bits.
pub record IsValid (b : CircularBuffer) : Type 0 where
  pub allocated : length b.bytes ≡ b.capacity
  pub nonempty : 0 < b.capacity
  pub fits : b.capacity < 2 ^ 64
  pub head_in : b.head < b.capacity
  pub used_in : b.used ≤ b.capacity
  pub tail_at : b.tail ≡ (b.head + b.used) % b.capacity

pub length-window : (bytes : List ℕ) (cap h n : ℕ) → length (window bytes cap h n) ≡ n
length-window bytes cap h zero = refl
length-window bytes cap h (suc n) = omega (
  arith,
  length-append (window bytes cap h n) (get_or bytes ((h + n) % cap) 0 ∷ []),
  length-window bytes cap h n,
)

-- Two positions of a window of at most `cap` bytes are two indices.
positions_differ : {cap h j k : ℕ} → h < cap → j < k → k < cap → (h + k) % cap ≢ (h + j) % cap
positions_differ {cap} {h} {j} {k} hh hj hk = elim (dec_lt (h + k) cap) [
  | yes p ↦ omega (arith, mod-eq_of_lt p, mod-eq_of_lt {n = h + j} {m = cap} (omega arith))
  | no p ↦ elim (dec_lt (h + j) cap) [
    | yes q ↦ omega (
      arith,
      mod-eq_of_lt q,
      mod-eq-sub-mod {n = h + k} {m = cap} (omega arith),
      mod-eq_of_lt {n = h + k - cap} {m = cap} (omega arith),
    )
    | no q ↦ omega (
      arith,
      mod-eq-sub-mod {n = h + k} {m = cap} (omega arith),
      mod-eq_of_lt {n = h + k - cap} {m = cap} (omega arith),
      mod-eq-sub-mod {n = h + j} {m = cap} (omega arith),
      mod-eq_of_lt {n = h + j - cap} {m = cap} (omega arith),
    )
  ]
]

module _ (bytes : List ℕ) (cap h k byte : ℕ) (hh : h < cap) (hk : k < cap) where
  -- A write just past a window leaves the window.
  window-set_beyond :
      (n : ℕ) → n ≤ k → window (set bytes ((h + k) % cap) byte) cap h n ≡ window bytes cap h n
  window-set_beyond zero hn = refl
  window-set_beyond (suc n) hn =
      ap₂ (λ (xs : List ℕ) x. xs ++ (x ∷ [])) (window-set_beyond n (omega arith))
        (get_or-set_ne bytes ((h + k) % cap) ((h + n) % cap) byte 0
          (positions_differ hh (omega arith) hk))

  pub window-set :
      cap ≤ length bytes
      → window (set bytes ((h + k) % cap) byte) cap h (suc k) ≡ window bytes cap h k ++ (byte ∷ [])
  window-set hl =
      ap₂ (λ (xs : List ℕ) x. xs ++ (x ∷ [])) (window-set_beyond k (omega arith))
        (get_or-set_self bytes ((h + k) % cap) byte 0
          (omega (arith, mod-lt (h + k) {m = cap} (omega arith))))

pub next_position : (cap h k : ℕ) → ((h + k) % cap + 1) % cap ≡ (h + suc k) % cap
next_position cap h k =
    let e : h + k + 1 ≡ h + suc k = omega arith in mod-add-mod (h + k) cap 1 ∙ ap (λ t. t % cap) e

pub window-add :
    (bytes : List ℕ) (cap h n m : ℕ)
    → window bytes cap h (n + m) ≡ window bytes cap h n ++ window bytes cap ((h + n) % cap) m
window-add bytes cap h n zero =
    let e : n + 0 ≡ n = omega arith in
    ap (window bytes cap h) e ∙ sym (append-nil (window bytes cap h n))
window-add bytes cap h n (suc m) =
    let e : n + suc m ≡ suc (n + m) = omega arith in
    let assoc : h + n + m ≡ h + (n + m) = omega arith in
    let same : (h + (n + m)) % cap ≡ ((h + n) % cap + m) % cap =
      sym (mod-add-mod (h + n) cap m ∙ ap (λ t. t % cap) assoc) in
    rw (e, window-add bytes cap h n m, same)
      (append_assoc (window bytes cap h n) (window bytes cap ((h + n) % cap) m) _)

pub drop-append_length : (n : ℕ) (xs ys : List ℕ) → length xs ≡ n → drop n (xs ++ ys) ≡ ys
drop-append_length zero [] ys h = refl
drop-append_length zero (x ∷ xs) ys h = absurd (omega arith)
drop-append_length (suc n) [] ys h = absurd (omega arith)
drop-append_length (suc n) (x ∷ xs) ys h = drop-append_length n xs ys (omega arith)
