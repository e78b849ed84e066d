-- ===== src/Regression/Extract.antt =====
-- The JSON helpers on a text that has the key once before its value.
use native.Mathlib.Nat.{pow-suc, one-le-pow, mul-le-mul_left}
use packet_analyzer.Prelude.{
  ℕ, zero, suc, ◌+◌, ◌-◌, ◌*◌, ◌^◌, ◌<◌, ◌≡◌, ◌≢◌, refl, ◌∙◌, ap, arith, true, false, none, some,
  [], ◌∷◌, ◌++◌, ◌>>=◌, length, take,
}
use packet_analyzer.Metrics.Metadata.{Text}
use packet_analyzer.Regression.Json.{
  quote, colon, is_space, skip_whitespace, strip_prefix, behind, pattern_of, at_value, find_value,
  copy_string, quoted_string, json_extract_string, is_digit, read_digits, signed, in_range,
  strtoull, unquoted, json_extract_uint64,
}

abbrev pub Spaces : Text → Type 0
Spaces [] = Unit {0}
Spaces (c ∷ text) = (is_space c ≡ true) × Spaces text

abbrev pub Unquoted : Text → Type 0
Unquoted [] = Unit {0}
Unquoted (c ∷ text) = (c ≢ quote) × Unquoted text

-- No match begins in the text before.
abbrev pub NoneEarlier : Text → Text → Text → Type 0
NoneEarlier pattern [] rest = Unit {0}
NoneEarlier pattern (c ∷ before) rest =
    (strip_prefix pattern (c ∷ (before ++ (pattern ++ rest))) ≡ none)
    × NoneEarlier pattern before rest

pub strip_prefix-append : (pattern rest : Text) → strip_prefix pattern (pattern ++ rest) ≡ some rest
unfolding strip_prefix
strip_prefix-append [] rest = refl
strip_prefix-append (p ∷ pattern) rest = ground (arith, strip_prefix-append pattern rest)

behind-append :
    (pattern before rest : Text)
    → NoneEarlier pattern before rest
    → pattern ≢ []
    → behind pattern (before ++ (pattern ++ rest)) ≡ some rest
unfolding behind
behind-append [] before rest h ne = absurd (ne refl)
behind-append (p ∷ pattern) [] rest h ne = rw (strip_prefix-append (p ∷ pattern) rest, behind)
behind-append (p ∷ pattern) (c ∷ before) rest h ne =
    rw (h.0, behind-append (p ∷ pattern) before rest h.1 ne, behind)

skip_whitespace-append :
    (spaces text : Text) → Spaces spaces → skip_whitespace (spaces ++ text) ≡ skip_whitespace text
unfolding skip_whitespace
skip_whitespace-append [] text h = refl
skip_whitespace-append (c ∷ spaces) text h = ground (arith, skip_whitespace-append spaces text h.1)

pub skip_whitespace-none :
    (c : ℕ) (text : Text) → is_space c ≡ false → skip_whitespace (c ∷ text) ≡ c ∷ text
unfolding skip_whitespace
skip_whitespace-none c text h = ground (arith, h)

-- A key, a colon and a value, with spaces around the colon.
abbrev pub member : Text → Text → Text → Text → Text → Text
member before key spaces more value =
    before ++ (pattern_of key ++ (spaces ++ (colon ∷ (more ++ value))))

find_value-member :
    (before key spaces more : Text) (c : ℕ) (value : Text)
    → NoneEarlier (pattern_of key) before (spaces ++ (colon ∷ (more ++ (c ∷ value))))
    → Spaces spaces
    → Spaces more
    → is_space c ≡ false
    → find_value (member before key spaces more (c ∷ value)) key ≡ some (c ∷ value)
unfolding find_value
find_value-member before key spaces more c value none_earlier s m h =
    let tail = more ++ (c ∷ value) in
    let found =
      behind-append (pattern_of key) before (spaces ++ (colon ∷ tail)) none_earlier (λ e. cc) in
    let at_colon =
      skip_whitespace-append spaces (colon ∷ tail) s
      ∙ skip_whitespace-none colon tail (ground arith) in
    ap (λ o. o >>= λ rest. at_value (skip_whitespace rest)) found
    ∙ ap at_value at_colon
    ∙ ap some (skip_whitespace-append more (c ∷ value) m ∙ skip_whitespace-none c value h)

pub copy_string-append :
    (n : ℕ) (value post : Text)
    → Unquoted value
    → copy_string n (value ++ (quote ∷ post)) ≡ take n value
unfolding copy_string
copy_string-append zero value post h = refl
copy_string-append (suc n) [] post h = refl
copy_string-append (suc n) (c ∷ value) post h =
    ground (arith, copy_string-append n value post h.1, h.0)

-- A string behind the first occurrence of its key is extracted up to its closing quote, cut to what
-- fits the caller's array with its terminating zero: whatever spaces stand around the colon and
-- whatever follows. The string has no quote in it.
pub json_extract_string-member :
    (before key spaces more value post : Text) (value_len : ℕ)
    → NoneEarlier
        (pattern_of key)
        before
        (spaces ++ (colon ∷ (more ++ (quote ∷ (value ++ (quote ∷ post))))))
    → Spaces spaces
    → Spaces more
    → Unquoted value
    → json_extract_string
        (member before key spaces more (quote ∷ (value ++ (quote ∷ post))))
        key
        value_len
      ≡ some (take (value_len - 1) value)
unfolding json_extract_string
json_extract_string-member before key spaces more value post value_len none_earlier s m u =
    let found =
      find_value-member before key spaces more quote (value ++ (quote ∷ post)) none_earlier s m
        (ground arith) in
    ap (λ o. o >>= λ text. quoted_string value_len text) found
    ∙ ap some (copy_string-append (value_len - 1) value post u)

abbrev pub Digits : Text → Type 0
Digits [] = Unit {0}
Digits (c ∷ text) = (is_digit c ≡ true) × Digits text

-- The number that decimal digits denote, the most significant first.
abbrev pub decimal : Text → ℕ
decimal [] = 0
decimal (c ∷ text) = (c - 48) * 10 ^ length text + decimal text

-- A text that does not go on with a digit.
abbrev pub EndsNumber : Text → Type 0
EndsNumber [] = Unit {0}
EndsNumber (c ∷ text) = is_digit c ≡ false

pub shift : (n d m : ℕ) → (n * 10 + d) * 10 ^ m ≡ n * 10 ^ suc m + d * 10 ^ m
shift n d m = rw (pow-suc 10 m) (omega arith)

pub read_digits-decimal :
    (n : ℕ) (digits post : Text)
    → Digits digits
    → EndsNumber post
    → n * 10 ^ length digits + decimal digits < 2 ^ 64
    → read_digits n (digits ++ post) ≡ n * 10 ^ length digits + decimal digits
unfolding read_digits
read_digits-decimal n [] [] d e small = omega arith
read_digits-decimal n [] (c ∷ post) d e small = ground (arith, e)
read_digits-decimal n (c ∷ digits) post d e small =
    let next = n * 10 + (c - 48) in
    let same = shift n (c - 48) (length digits) in
    let positive = one-le-pow (length digits) 10 (omega arith) in
    let grows = mul-le-mul_left next positive in
    let bounded : next * 10 ^ length digits + decimal digits < 2 ^ 64 =
      omega (arith, same, small) in
    let fits : next < 2 ^ 64 = omega (arith, bounded, grows) in
    let ih = read_digits-decimal next digits post d.1 e bounded in
    ground (arith, d.0, fits, ih, same)

pub unquoted-digit : (c : ℕ) (text : Text) → is_digit c ≡ true → unquoted (c ∷ text) ≡ c ∷ text
unquoted-digit c text h = ground (arith, h)

pub signed-digit :
    (c : ℕ) (text : Text)
    → is_digit c ≡ true
    → signed (c ∷ text) ≡ in_range (read_digits 0 (c ∷ text))
signed-digit c text h = ground (arith, h)

-- The text of a number, as `json_extract_uint64` reads it.
pub strtoull-decimal :
    (c : ℕ) (digits post : Text)
    → Digits (c ∷ digits)
    → EndsNumber post
    → decimal (c ∷ digits) < 2 ^ 64
    → strtoull (unquoted (c ∷ (digits ++ post))) ≡ decimal (c ∷ digits)
unfolding strtoull
strtoull-decimal c digits post d e small =
    let number = read_digits-decimal 0 (c ∷ digits) post d e (omega (arith, small)) in
    let skipped = skip_whitespace-none c (digits ++ post) (ground (arith, d.0)) in
    ap strtoull (unquoted-digit c (digits ++ post) d.0)
    ∙ (ap signed skipped
        ∙ (signed-digit c (digits ++ post) d.0 ∙ (ap in_range number ∙ ground (arith, small))))

-- A decimal number below 2^64 behind the first occurrence of its key and a colon, with any spaces
-- around the colon, is extracted as that number. It has at least one digit, and no digit follows.
pub json_extract_uint64-member :
    (before key spaces more : Text) (c : ℕ) (digits post : Text)
    → NoneEarlier (pattern_of key) before (spaces ++ (colon ∷ (more ++ (c ∷ (digits ++ post)))))
    → Spaces spaces
    → Spaces more
    → Digits (c ∷ digits)
    → EndsNumber post
    → decimal (c ∷ digits) < 2 ^ 64
    → json_extract_uint64 (member before key spaces more (c ∷ (digits ++ post))) key
      ≡ some (decimal (c ∷ digits))
unfolding json_extract_uint64
json_extract_uint64-member before key spaces more c digits post none_earlier s m d e small =
    let found =
      find_value-member before key spaces more c (digits ++ post) none_earlier s m
        (ground (arith, d.0)) in
    ap (λ o. o >>= λ text. some (strtoull (unquoted text))) found
    ∙ ap some (strtoull-decimal c digits post d e small)
