-- ===== src/Regression/Json.antt =====
-- The JSON helpers of src/regression.c on C strings. Each looks for the quoted key anywhere in the
-- text; `none` is the result -1.
use packet_analyzer.Prelude.{
  ℕ, zero, suc, ◌+◌, ◌-◌, ◌*◌, ◌%◌, ◌^◌, Bool, ◌&&◌, ◌||◌, Option, none, some, [], ◌∷◌, ◌++◌, ◌>>=◌,
  ltb, leb, ◌==◌, if◌then◌else◌, take,
}
use packet_analyzer.Prelude.Int.{ℤ, pos, negsuc}
use packet_analyzer.Metrics.Metadata.{Text}

abbrev pub quote : ℕ
quote = 34

abbrev pub colon : ℕ
colon = 58

-- `isspace` in the C locale.
abbrev pub is_space : ℕ → Bool
is_space c = c == 32 || (leb 9 c && leb c 13)

unfoldable pub skip_whitespace : Text → Text
skip_whitespace [] = []
skip_whitespace (c ∷ text) =
    let rest = skip_whitespace text in if is_space c then rest else c ∷ text

-- The rest of a text that begins with the pattern.
unfoldable pub strip_prefix : Text → Text → Option Text
strip_prefix [] text = some text
strip_prefix (p ∷ pattern) [] = none
strip_prefix (p ∷ pattern) (c ∷ text) =
    let rest = strip_prefix pattern text in if p == c then rest else none

-- `strstr`, and the step over the pattern.
unfoldable pub behind : Text → Text → Option Text
behind pattern [] = strip_prefix pattern []
behind pattern (c ∷ text) =
    let later = behind pattern text in
    elim (strip_prefix pattern (c ∷ text)) [ some rest ↦ some rest | none ↦ later ]

-- The quoted key, in an array of 256 bytes.
abbrev pub pattern_of : Text → Text
pattern_of key = take 255 (quote ∷ (key ++ (quote ∷ [])))

abbrev pub at_value : Text → Option Text
at_value [] = none
at_value (c ∷ text) = if c == colon then some (skip_whitespace text) else none

-- What the four helpers share: the text behind the key, the colon and the spaces around it.
unfoldable pub find_value : Text → Text → Option Text
find_value json key = behind (pattern_of key) json >>= λ rest. at_value (skip_whitespace rest)

-- At most `n` characters up to a quote or the end.
unfoldable pub copy_string : ℕ → Text → Text
copy_string zero text = []
copy_string (suc n) [] = []
copy_string (suc n) (c ∷ text) =
    let rest = copy_string n text in if c == quote then [] else c ∷ rest

abbrev pub quoted_string : ℕ → Text → Option Text
quoted_string value_len [] = none
quoted_string value_len (c ∷ text) =
    if c == quote then some (copy_string (value_len - 1) text) else none

unfoldable pub json_extract_string : Text → Text → ℕ → Option Text
json_extract_string json key value_len =
    find_value json key >>= λ text. quoted_string value_len text

abbrev pub is_digit : ℕ → Bool
is_digit c = leb 48 c && leb c 57

-- `strtoull` in base 10 behind its sign; 2^64 stands for a number that is out of range.
unfoldable pub read_digits : ℕ → Text → ℕ
read_digits n [] = n
read_digits n (c ∷ text) =
    let next = n * 10 + (c - 48) in
    let rest = read_digits (if ltb next (2 ^ 64) then next else 2 ^ 64) text in
    if is_digit c then rest else n

-- A number out of range is the largest `uint64_t`; a minus sign negates any other.
abbrev pub in_range : ℕ → ℕ
in_range n = if ltb n (2 ^ 64) then n else 2 ^ 64 - 1

abbrev pub negated : ℕ → ℕ
negated n = if ltb n (2 ^ 64) then (2 ^ 64 - n) % 2 ^ 64 else 2 ^ 64 - 1

abbrev pub signed : Text → ℕ
signed [] = 0
signed (c ∷ text) =
    if c == 45
    then negated (read_digits 0 text)
    else (if c == 43 then in_range (read_digits 0 text) else in_range (read_digits 0 (c ∷ text)))

unfoldable pub strtoull : Text → ℕ
strtoull text = signed (skip_whitespace text)

abbrev pub unquoted : Text → Text
unquoted [] = []
unquoted (c ∷ text) = if c == quote then text else c ∷ text

unfoldable pub json_extract_uint64 : Text → Text → Option ℕ
json_extract_uint64 json key = find_value json key >>= λ text. some (strtoull (unquoted text))

-- `atoi` behind its sign, for the values of an `int`; outside of them C leaves the result undefined,
-- and it is the mathematical number here.
unfoldable pub decimal_of : ℕ → Text → ℕ
decimal_of n [] = n
decimal_of n (c ∷ text) =
    let rest = decimal_of (n * 10 + (c - 48)) text in if is_digit c then rest else n

abbrev pub minus : ℕ → ℤ
minus n = if n == 0 then pos 0 else negsuc (n - 1)

abbrev pub signed_int : Text → ℤ
signed_int [] = pos 0
signed_int (c ∷ text) =
    if c == 45
    then minus (decimal_of 0 text)
    else (if c == 43 then pos (decimal_of 0 text) else pos (decimal_of 0 (c ∷ text)))

unfoldable pub json_extract_int : Text → Text → Option ℤ
json_extract_int json key = find_value json key >>= λ text. some (signed_int (skip_whitespace text))

-- `strtod` is a parameter: it reads the number that a text begins with.
unfoldable pub json_extract_double :
    {Double : Type 0} → (Text → Double) → Text → Text → Option Double
json_extract_double strtod json key = find_value json key >>= λ text. some (strtod (unquoted text))
