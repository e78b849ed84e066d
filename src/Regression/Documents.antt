-- ===== src/Regression/Documents.antt =====
-- The searches of src/regression.c in a whole text of lines.
use packet_analyzer.Prelude.{
  ℕ, subst, ap₂, ◌^◌, take-all, ◌+◌, ◌≤◌, ◌<◌, ◌≡◌, ◌∙◌, ap, sym, refl, arith, Bool, true, false,
  ◌&&◌, Option, none, some, List, [], ◌∷◌, ◌++◌, ◌>>=◌, ◌==◌, length, Bool-cases, Option-cases, inl,
  inr,
}
use packet_analyzer.Prelude.Int.{ℤ}
use packet_analyzer.Metrics.Metadata.{Text}
use packet_analyzer.Metrics.Json.{
  Line, section, uint, int, real, string, item, bare, key_before, line_end, render, written,
  histogram_lines,
}
use packet_analyzer.Metrics.Decimal.{printed, printed_int}
use packet_analyzer.Regression.Json.{
  quote, strip_prefix, behind, pattern_of, skip_whitespace, at_value, find_value, strtoull,
  unquoted, signed_int, quoted_string, json_extract_uint64, json_extract_int, json_extract_string,
}
use packet_analyzer.Regression.Extract.{
  skip_whitespace-none, EndsNumber, Unquoted, copy_string-append,
}
use packet_analyzer.Regression.Numbers.{printed-Shows, strtoull-printed, signed_int-printed, IsInt}
use packet_analyzer.Regression.Load.{strstr}
use packet_analyzer.Regression.Lines.{
  no_quote, is_key, quoted_key, differs, IsFree, behind-render, behind-key_found,
}

abbrev pub all_differ : Text → List Line → Bool
all_differ key [] = true
all_differ key (line ∷ lines) = differs key line && all_differ key lines

abbrev pub AllFree : Text → List Line → Type 0
AllFree key [] = Unit {0}
AllFree key (real n other value last ∷ lines) =
    IsFree key (real n other value last) × AllFree key lines
AllFree key (string n other value last ∷ lines) =
    IsFree key (string n other value last) × AllFree key lines
AllFree key (section n other bracket ∷ lines) = AllFree key lines
AllFree key (uint n other value last ∷ lines) = AllFree key lines
AllFree key (int n other value last ∷ lines) = AllFree key lines
AllFree key (item value last ∷ lines) = AllFree key lines
AllFree key (bare text ∷ lines) = AllFree key lines

AllFree-cons :
    (key : Text) (line : Line) (lines : List Line)
    → AllFree key (line ∷ lines)
    → IsFree key line × AllFree key lines
AllFree-cons key (real n other value last) lines f = f
AllFree-cons key (string n other value last) lines f = f
AllFree-cons key (section n other bracket) lines f = (tt, f)
AllFree-cons key (uint n other value last) lines f = (tt, f)
AllFree-cons key (int n other value last) lines f = (tt, f)
AllFree-cons key (item value last) lines f = (tt, f)
AllFree-cons key (bare text) lines f = (tt, f)

and_left : (a b : Bool) → a && b ≡ true → (a ≡ true) × (b ≡ true)
and_left a b h = ground (arith, h)

-- Lines without the key are passed over.
pub behind-written :
    (key rest : Text) (lines : List Line)
    → is_key key ≡ true
    → all_differ key lines ≡ true
    → AllFree key lines
    → behind (quoted_key key) (written lines rest) ≡ behind (quoted_key key) rest
unfolding written
behind-written key rest [] k d f = refl
behind-written key rest (line ∷ lines) k d f =
    let (first, others) = and_left _ _ d in
    let (free, frees) = AllFree-cons key line lines f in
    behind-render key (written lines rest) line k first free
    ∙ behind-written key rest lines k others frees

pub all_differ-histogram_lines :
    (key : Text) (i : ℕ) (histogram : List ℕ)
    → (all_differ key (histogram_lines i histogram) ≡ true)
      × AllFree key (histogram_lines i histogram)
unfolding histogram_lines
all_differ-histogram_lines key i [] = (refl, tt)
all_differ-histogram_lines key i (x ∷ histogram) = all_differ-histogram_lines key (i + 1) histogram

-- A key behind lines that do not have it, with the text that follows its colon.
pub behind-written_found :
    (key value : Text) (n : ℕ) (before : List Line)
    → is_key key ≡ true
    → all_differ key before ≡ true
    → AllFree key before
    → behind (quoted_key key) (written before (key_before n key value)) ≡ some (58 ∷ 32 ∷ value)
behind-written_found key value n before k d f =
    behind-written key (key_before n key value) before k d f ∙ behind-key_found key value n

-- The search's pattern is the quoted key, which fits the array.
abbrev pub Searched : Text → Type 0
Searched key = (is_key key ≡ true) × (pattern_of key ≡ quoted_key key)

find_value-written :
    (key value : Text) (n : ℕ) (before : List Line)
    → Searched key
    → all_differ key before ≡ true
    → AllFree key before
    → find_value (written before (key_before n key value)) key ≡ some (skip_whitespace value)
unfolding find_value skip_whitespace
find_value-written key value n before k d f =
    ap
      (λ (p : Text). behind p (written before (key_before n key value)) >>= λ rest.
        at_value (skip_whitespace rest))
      (k.1)
    ∙ ap (λ (o : Option Text). o >>= λ rest. at_value (skip_whitespace rest))
        (behind-written_found key value n before k.0 d f)

EndsNumber-line_end : (last : Bool) (rest : Text) → EndsNumber (line_end last rest)
EndsNumber-line_end true rest = refl
EndsNumber-line_end false rest = refl

skip_whitespace-printed :
    (n : ℕ) (post : Text) → n < 2 ^ 64 → skip_whitespace (printed n ++ post) ≡ printed n ++ post
skip_whitespace-printed n post small =
    let (c, digits, q, d, v) = printed-Shows n small in
    ap (λ (t : Text). skip_whitespace (t ++ post)) q
    ∙ (skip_whitespace-none c (digits ++ post) (ground (arith, d.0))
        ∙ ap (λ (t : Text). t ++ post) (sym q))

-- A number, an `int` and a string are extracted from their lines.
pub json_extract_uint64-written :
    (key rest : Text) (n value : ℕ) (last : Bool) (before : List Line)
    → Searched key
    → all_differ key before ≡ true
    → AllFree key before
    → value < 2 ^ 64
    → json_extract_uint64 (written before (render (uint n key value last) rest)) key ≡ some value
unfolding json_extract_uint64 render
json_extract_uint64-written key rest n value last before k d f small =
    let post = line_end last rest in
    ap (λ (o : Option Text). o >>= λ text. some (strtoull (unquoted text)))
      (find_value-written key (printed value ++ post) n before k d f)
    ∙ ap some (
        ap (λ (t : Text). strtoull (unquoted t)) (skip_whitespace-printed value post small)
        ∙ strtoull-printed value post small (EndsNumber-line_end last rest))

skip_whitespace_twice :
    (text : Text) → skip_whitespace (skip_whitespace text) ≡ skip_whitespace text
unfolding skip_whitespace
skip_whitespace_twice [] = refl
skip_whitespace_twice (c ∷ text) = ground (arith, skip_whitespace_twice text)

pub json_extract_int-written :
    (key rest : Text) (n : ℕ) (value : ℤ) (last : Bool) (before : List Line)
    → Searched key
    → all_differ key before ≡ true
    → AllFree key before
    → IsInt value
    → json_extract_int (written before (render (int n key value last) rest)) key ≡ some value
unfolding json_extract_int render
json_extract_int-written key rest n value last before k d f small =
    let post = line_end last rest in
    ap (λ (o : Option Text). o >>= λ text. some (signed_int (skip_whitespace text)))
      (find_value-written key (printed_int value ++ post) n before k d f)
    ∙ ap some (
        ap signed_int (skip_whitespace_twice (printed_int value ++ post))
        ∙ signed_int-printed value post small (EndsNumber-line_end last rest))

no_quote-Unquoted : (text : Text) → no_quote text ≡ true → Unquoted text
no_quote-Unquoted [] h = tt
no_quote-Unquoted (c ∷ text) h =
    (λ e. ground (arith, h), no_quote-Unquoted text (ground (arith, h)))

pub json_extract_string-written :
    (key rest : Text) (n : ℕ) (value : Text) (last : Bool) (before : List Line)
    → Searched key
    → all_differ key before ≡ true
    → AllFree key before
    → no_quote value ≡ true
    → length value ≤ 63
    → json_extract_string (written before (render (string n key value last) rest)) key 64
      ≡ some value
unfolding json_extract_string render
json_extract_string-written key rest n value last before k d f free fits =
    let text = value ++ (quote ∷ line_end last rest) in
    ap (λ (o : Option Text). o >>= λ t. quoted_string 64 t)
      (find_value-written key (quote ∷ text) n before k d f
        ∙ ap some (skip_whitespace-none quote text refl))
    ∙ ap some (
        copy_string-append 63 value (line_end last rest) (no_quote-Unquoted value free)
        ∙ take-all 63 value fits)

-- What begins with a pattern is the pattern and the rest.
strip_prefix-inverse :
    (pattern text rest : Text) → strip_prefix pattern text ≡ some rest → text ≡ pattern ++ rest
unfolding strip_prefix
strip_prefix-inverse [] text rest h = cc
strip_prefix-inverse (p ∷ pattern) [] rest h = absurd cc
strip_prefix-inverse (p ∷ pattern) (c ∷ text) rest h = elim (Bool-cases (p == c)) [
  | inl e ↦
      let same : p ≡ c = ground (arith, e) in
      ap₂ (λ (a : ℕ) (t : Text). a ∷ t) (sym same)
        (strip_prefix-inverse pattern text rest (ground (arith, e, h)))
  | inr e ↦ absurd (ground (arith, e, h))
]

-- `strstr` stops where the search for the rest does.
pub strstr-behind :
    (pattern text rest : Text)
    → behind pattern text ≡ some rest
    → strstr pattern text ≡ some (pattern ++ rest)
unfolding strstr behind
strstr-behind pattern [] rest h =
    let found : strip_prefix pattern [] ≡ some rest = h in
    rw (found, strstr) (ap some (strip_prefix-inverse pattern [] rest h))
strstr-behind pattern (c ∷ text) rest h = elim (Option-cases (strip_prefix pattern (c ∷ text))) [
  | inl e ↦
      rw (e, strstr)
        (strstr-behind pattern text rest (
          subst
            (λ (o : Option Text).
              elim o as (λ x. Option Text) [ none ↦ behind pattern text | some r ↦ some r ]
              ≡ some rest)
            e h))
  | inr (r, e) ↦
      rw (e, strstr)
        (ap some (
          strip_prefix-inverse pattern (c ∷ text) rest (
            e
            ∙ subst
                (λ (o : Option Text).
                  elim o as (λ x. Option Text) [ none ↦ behind pattern text | some r ↦ some r ]
                  ≡ some rest)
                e h)))
]
