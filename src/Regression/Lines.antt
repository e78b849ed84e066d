-- ===== src/Regression/Lines.antt =====
-- The search of src/regression.c for a quoted key, in a text that src/metrics.c wrote line by line.
use packet_analyzer.Prelude.{
  ℕ, zero, suc, ◌+◌, ◌≡◌, ◌∙◌, refl, arith, Bool, true, false, not, ◌&&◌, none, some, [], ◌∷◌, ◌++◌,
  leb, ◌==◌, ◌%◌, ◌/◌,
}
use packet_analyzer.Prelude.Int.{ℤ, pos, negsuc}
use packet_analyzer.Metrics.Metadata.{Text}
use packet_analyzer.Metrics.Json.{
  Line, section, uint, int, real, string, item, bare, indent, key_before, line_end, render,
}
use packet_analyzer.Metrics.Decimal.{printed, printed_int, digits_loop}
use packet_analyzer.Regression.Json.{quote, strip_prefix, behind}

abbrev pub no_quote : Text → Bool
no_quote [] = true
no_quote (c ∷ text) = not (c == quote) && no_quote text

abbrev pub is_equal : Text → Text → Bool
is_equal [] [] = true
is_equal (a ∷ x) (b ∷ y) = a == b && is_equal x y
is_equal _ _ = false

-- A key begins with a lower-case letter and has no quote.
abbrev pub is_key : Text → Bool
is_key [] = false
is_key (c ∷ key) = leb 97 c && (leb c 122 && no_quote key)

abbrev pub quoted_key : Text → Text
quoted_key key = quote ∷ (key ++ (quote ∷ []))

pub behind-other :
    (key text : Text) (c : ℕ)
    → (c == quote) ≡ false
    → behind (quoted_key key) (c ∷ text) ≡ behind (quoted_key key) text
unfolding behind strip_prefix
behind-other key text c h = ground (arith, h)

-- A text without a quote holds no match.
pub behind-no_quote :
    (key text rest : Text)
    → no_quote text ≡ true
    → behind (quoted_key key) (text ++ rest) ≡ behind (quoted_key key) rest
behind-no_quote key [] rest h = refl
behind-no_quote key (c ∷ text) rest h =
    behind-other key (text ++ rest) c (ground (arith, h))
    ∙ behind-no_quote key text rest (ground (arith, h))

strip_prefix-differs :
    (key text rest : Text)
    → no_quote key ≡ true
    → no_quote text ≡ true
    → is_equal key text ≡ false
    → strip_prefix (key ++ (quote ∷ [])) (text ++ (quote ∷ rest)) ≡ none
unfolding strip_prefix
strip_prefix-differs [] [] rest k t h = absurd cc
strip_prefix-differs [] (c ∷ text) rest k t h = ground (arith, t)
strip_prefix-differs (b ∷ key) [] rest k t h = ground (arith, k)
strip_prefix-differs (b ∷ key) (c ∷ text) rest k t h =
    ground (arith, k, t, h, strip_prefix-differs key text rest)

strip_prefix-key :
    (key rest : Text) → strip_prefix (key ++ (quote ∷ [])) (key ++ (quote ∷ rest)) ≡ some rest
unfolding strip_prefix
strip_prefix-key [] rest = refl
strip_prefix-key (c ∷ key) rest = ground (arith, strip_prefix-key key rest)

pub key-no_quote : (key : Text) → is_key key ≡ true → no_quote key ≡ true
key-no_quote [] h = absurd cc
key-no_quote (c ∷ key) h = ground (arith, h)

-- The opening quotes match.
strip_prefix-quote :
    (pattern text : Text)
    → strip_prefix (quote ∷ pattern) (quote ∷ text) ≡ strip_prefix pattern text
unfolding strip_prefix
strip_prefix-quote pattern text = refl

-- A quote that opens another text is no match.
behind-open :
    (key text rest : Text)
    → is_key key ≡ true
    → no_quote text ≡ true
    → is_equal key text ≡ false
    → behind (quoted_key key) (quote ∷ (text ++ (quote ∷ rest)))
      ≡ behind (quoted_key key) (quote ∷ rest)
unfolding behind
behind-open key text rest k t h =
    rw
      (
        strip_prefix-quote (key ++ (quote ∷ [])) (text ++ (quote ∷ rest)),
        strip_prefix-differs key text rest (key-no_quote key k) t h,
        behind,
      )
      (behind-no_quote key text (quote ∷ rest) t)

-- Nor is one that closes a text.
behind-close :
    (key rest : Text) (c : ℕ)
    → is_key key ≡ true
    → leb 97 c ≡ false
    → (c == quote) ≡ false
    → behind (quoted_key key) (quote ∷ c ∷ rest) ≡ behind (quoted_key key) rest
unfolding behind strip_prefix
behind-close [] rest c k h q = absurd cc
behind-close (b ∷ key) rest c k h q = ground (arith, k, h, q)

pub behind-indent :
    (key rest : Text) (n : ℕ)
    → behind (quoted_key key) (indent n rest) ≡ behind (quoted_key key) rest
behind-indent key rest zero = refl
behind-indent key rest (suc n) = behind-other key (indent n rest) 32 refl ∙ behind-indent key rest n

behind-key_before :
    (key other rest : Text) (n : ℕ)
    → is_key key ≡ true
    → no_quote other ≡ true
    → is_equal key other ≡ false
    → behind (quoted_key key) (key_before n other rest) ≡ behind (quoted_key key) rest
behind-key_before key other rest n k o h =
    behind-indent key _ n
    ∙ (behind-open key other (58 ∷ 32 ∷ rest) k o h
        ∙ (behind-close key (32 ∷ rest) 58 k refl refl ∙ behind-other key rest 32 refl))

-- The key itself is found.
pub behind-key_found :
    (key rest : Text) (n : ℕ)
    → behind (quoted_key key) (key_before n key rest) ≡ some (58 ∷ 32 ∷ rest)
unfolding behind
behind-key_found key rest n =
    behind-indent key _ n
    ∙ rw
        (
          strip_prefix-quote (key ++ (quote ∷ [])) (key ++ (quote ∷ 58 ∷ 32 ∷ rest)),
          strip_prefix-key key (58 ∷ 32 ∷ rest),
          behind,
        )
        refl

behind-line_end :
    (key rest : Text) (last : Bool)
    → behind (quoted_key key) (line_end last rest) ≡ behind (quoted_key key) rest
behind-line_end key rest true = behind-other key rest 10 refl
behind-line_end key rest false =
    behind-other key (10 ∷ rest) 44 refl ∙ behind-other key rest 10 refl

behind-string_end :
    (key rest : Text) (last : Bool)
    → is_key key ≡ true
    → behind (quoted_key key) (quote ∷ line_end last rest) ≡ behind (quoted_key key) rest
behind-string_end key rest true k = behind-close key rest 10 k refl refl
behind-string_end key rest false k =
    behind-close key (10 ∷ rest) 44 k refl refl ∙ behind-other key rest 10 refl

digits_loop-no_quote :
    (fuel n : ℕ) (text : Text) → no_quote text ≡ true → no_quote (digits_loop fuel n text) ≡ true
unfolding digits_loop
digits_loop-no_quote zero n text h = ground (arith, h)
digits_loop-no_quote (suc fuel) n text h =
    ground (arith, h, digits_loop-no_quote fuel (n / 10) ((48 + n % 10) ∷ text) (ground (arith, h)))

printed-no_quote : (n : ℕ) → no_quote (printed n) ≡ true
unfolding printed
printed-no_quote n = digits_loop-no_quote 19 n [] refl

printed_int-no_quote : (n : ℤ) → no_quote (printed_int n) ≡ true
unfolding printed_int
printed_int-no_quote (pos n) = printed-no_quote n
printed_int-no_quote (negsuc n) = printed-no_quote (n + 1)

-- Whether a line is sure not to have the key, as far as its own key and fixed text show.
abbrev pub differs : Text → Line → Bool
differs key (section n other bracket) =
    not (bracket == quote) && (no_quote other && not (is_equal key other))
differs key (uint n other value last) = no_quote other && not (is_equal key other)
differs key (int n other value last) = no_quote other && not (is_equal key other)
differs key (real n other value last) = no_quote other && not (is_equal key other)
differs key (string n other value last) = no_quote other && not (is_equal key other)
differs key (item value last) = true
differs key (bare text) = no_quote text

-- Nor do the texts that are written as values.
abbrev pub IsFree : Text → Line → Type 0
IsFree key (real n other value last) = no_quote value ≡ true
IsFree key (string n other value last) = (no_quote value ≡ true) × (is_equal key value ≡ false)
IsFree key _ = Unit {0}

behind-number :
    (key value rest : Text) (last : Bool)
    → no_quote value ≡ true
    → behind (quoted_key key) (value ++ line_end last rest) ≡ behind (quoted_key key) rest
behind-number key value rest last h = behind-no_quote key value _ h ∙ behind-line_end key rest last

both : (a b : Bool) → a && not b ≡ true → (a ≡ true) × (b ≡ false)
both a b h = ground (arith, h)

pub behind-render :
    (key rest : Text) (line : Line)
    → is_key key ≡ true
    → differs key line ≡ true
    → IsFree key line
    → behind (quoted_key key) (render line rest) ≡ behind (quoted_key key) rest
unfolding render
behind-render key rest (section n other bracket) k d f =
    behind-key_before key other _ n k (ground (arith, d)) (ground (arith, d))
    ∙ (behind-other key (10 ∷ rest) bracket (ground (arith, d)) ∙ behind-other key rest 10 refl)
behind-render key rest (uint n other value last) k d f =
    let (o, e) = both _ _ d in
    behind-key_before key other _ n k o e
    ∙ behind-number key (printed value) rest last (printed-no_quote value)
behind-render key rest (int n other value last) k d f =
    let (o, e) = both _ _ d in
    behind-key_before key other _ n k o e
    ∙ behind-number key (printed_int value) rest last (printed_int-no_quote value)
behind-render key rest (real n other value last) k d f =
    let (o, e) = both _ _ d in
    behind-key_before key other _ n k o e ∙ behind-number key value rest last f
behind-render key rest (string n other value last) k d f =
    let (o, e) = both _ _ d in
    behind-key_before key other _ n k o e
    ∙ (behind-open key value (line_end last rest) k f.0 f.1 ∙ behind-string_end key rest last k)
behind-render key rest (item value last) k d f =
    behind-indent key _ 4 ∙ behind-number key (printed value) rest last (printed-no_quote value)
behind-render key rest (bare text) k d f = behind-no_quote key text rest d
