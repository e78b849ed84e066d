-- ===== src/Regression/Numbers.antt =====
-- What src/metrics.c prints as a number and src/regression.c reads.
use packet_analyzer.Prelude.{
  ℕ, sym, ltb→lt, zero, suc, ◌+◌, ◌-◌, ◌*◌, ◌/◌, ◌%◌, ◌^◌, ◌<◌, ◌≡◌, ◌∙◌, ap, refl, arith, true, [],
  ◌∷◌, ◌++◌, ltb, length, Bool-cases, inl, inr,
}
use native.Mathlib.Nat.{pow-suc}
use packet_analyzer.Prelude.Int.{ℤ, pos, negsuc}
use packet_analyzer.Metrics.Metadata.{Text}
use packet_analyzer.Metrics.Decimal.{digits_loop, printed, printed_int}
use packet_analyzer.Regression.Json.{
  is_digit, decimal_of, minus, signed_int, strtoull, unquoted, skip_whitespace,
}
use packet_analyzer.Regression.Extract.{
  Digits, EndsNumber, decimal, shift, strtoull-decimal, skip_whitespace-none,
}

-- A text that is digits with this value.
abbrev pub Shows : Text → ℕ → Type 0
Shows text n =
    (c : ℕ) × (digits : Text) × (text ≡ c ∷ digits)
    × Digits (c ∷ digits)
    × (decimal (c ∷ digits) ≡ n)

digit_back : (d : ℕ) → 48 + d - 48 ≡ d
digit_back d = omega arith

-- One more digit in front.
decimal-digit :
    (d : ℕ) (text : Text) → decimal ((48 + d) ∷ text) ≡ d * 10 ^ length text + decimal text
decimal-digit d text = ap (λ (x : ℕ). x * 10 ^ length text + decimal text) (digit_back d)

digits_loop-Shows :
    (fuel n : ℕ) (text : Text)
    → n < 10 ^ suc fuel
    → Digits text
    → Shows (digits_loop fuel n text) (n * 10 ^ length text + decimal text)
unfolding digits_loop
digits_loop-Shows zero n text small d =
    let whole : n % 10 ≡ n = omega (arith, small) in
    (
      48 + n % 10,
      text,
      refl,
      (ground arith, d),
      decimal-digit (n % 10) text ∙ ap (λ (x : ℕ). x * 10 ^ length text + decimal text) whole,
    )
digits_loop-Shows (suc fuel) n text small d = elim (Bool-cases (ltb n 10)) [
  | inl e ↦
      let less = ltb→lt _ _ e in
      let whole : n % 10 ≡ n = omega (arith, less) in
      let stops : digits_loop (suc fuel) n text ≡ (48 + n % 10) ∷ text = rw e refl in
      (
        48 + n % 10,
        text,
        stops,
        (ground arith, d),
        decimal-digit (n % 10) text ∙ ap (λ (x : ℕ). x * 10 ^ length text + decimal text) whole,
      )
  | inr e ↦
      let goes_on : digits_loop (suc fuel) n text
          ≡ digits_loop fuel (n / 10) ((48 + n % 10) ∷ text) =
        rw e refl in
      let power : 10 ^ suc (suc fuel) ≡ 10 ^ suc fuel * 10 = pow-suc 10 (suc fuel) in
      let below : n / 10 < 10 ^ suc fuel = omega (arith, power, small) in
      let (c, digits, q, ds, v) =
        digits_loop-Shows fuel (n / 10) ((48 + n % 10) ∷ text) below (ground arith, d) in
      let split : n / 10 * 10 + n % 10 ≡ n = omega arith in
      let total = shift (n / 10) (n % 10) (length text) in
      let value =
        v ∙ ap (λ (x : ℕ). n / 10 * 10 ^ suc (length text) + x) (decimal-digit (n % 10) text) in
      let scaled : (n / 10 * 10 + n % 10) * 10 ^ length text ≡ n * 10 ^ length text =
        ap (λ (x : ℕ). x * 10 ^ length text) split in
      (c, digits, goes_on ∙ q, ds, omega (arith, value, total, scaled))
]

-- A `uint64_t` is printed as its digits.
pub printed-Shows : (n : ℕ) → n < 2 ^ 64 → Shows (printed n) n
unfolding printed
printed-Shows n small =
    let (c, digits, q, d, v) = digits_loop-Shows 19 n [] (omega (arith, small)) tt in
    (c, digits, q, d, omega (arith, v))

-- It is read back.
pub strtoull-printed :
    (n : ℕ) (post : Text)
    → n < 2 ^ 64
    → EndsNumber post
    → strtoull (unquoted (printed n ++ post)) ≡ n
strtoull-printed n post small e =
    let (c, digits, q, d, v) = printed-Shows n small in
    ap (λ (t : Text). strtoull (unquoted (t ++ post))) q
    ∙ (strtoull-decimal c digits post d e (omega (arith, v, small)) ∙ v)

decimal_of-decimal :
    (n : ℕ) (digits post : Text)
    → Digits digits
    → EndsNumber post
    → decimal_of n (digits ++ post) ≡ n * 10 ^ length digits + decimal digits
unfolding decimal_of
decimal_of-decimal n [] [] d e = omega arith
decimal_of-decimal n [] (c ∷ post) d e = ground (arith, e)
decimal_of-decimal n (c ∷ digits) post d e =
    let ih = decimal_of-decimal (n * 10 + (c - 48)) digits post d.1 e in
    let same = shift n (c - 48) (length digits) in ground (arith, d.0, ih, same)

signed_int-digit :
    (c : ℕ) (text : Text)
    → is_digit c ≡ true
    → signed_int (c ∷ text) ≡ pos (decimal_of 0 (c ∷ text))
signed_int-digit c text h = ground (arith, h)

decimal_of-printed :
    (n : ℕ) (post : Text) → n < 2 ^ 64 → EndsNumber post → decimal_of 0 (printed n ++ post) ≡ n
decimal_of-printed n post small e =
    let (c, digits, q, d, v) = printed-Shows n small in
    ap (λ (t : Text). decimal_of 0 (t ++ post)) q
    ∙ omega (arith, decimal_of-decimal 0 (c ∷ digits) post d e, v)

-- The values of an `int`.
abbrev pub IsInt : ℤ → Type 0
IsInt (pos n) = n < 2 ^ 31
IsInt (negsuc n) = n < 2 ^ 31

-- An `int` that is printed is read back.
pub signed_int-printed :
    (n : ℤ) (post : Text)
    → IsInt n
    → EndsNumber post
    → signed_int (skip_whitespace (printed_int n ++ post)) ≡ n
unfolding printed_int
signed_int-printed (pos n) post small e =
    let (c, digits, q, d, v) = printed-Shows n (omega arith) in
    ap (λ (t : Text). signed_int (skip_whitespace (t ++ post))) q
    ∙ (ap signed_int (skip_whitespace-none c (digits ++ post) (ground (arith, d.0)))
        ∙ (signed_int-digit c (digits ++ post) d.0
            ∙ (ap (λ (t : Text). pos (decimal_of 0 (t ++ post))) (sym q)
                ∙ ap pos (decimal_of-printed n post (omega arith) e))))
signed_int-printed (negsuc n) post small e =
    let number = decimal_of-printed (n + 1) post (omega arith) e in
    ap signed_int (skip_whitespace-none 45 (printed (n + 1) ++ post) (ground arith))
    ∙ (ap minus number ∙ ground arith)
