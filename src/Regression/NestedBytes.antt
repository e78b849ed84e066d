-- ===== src/Regression/NestedBytes.antt =====
-- The bytes of a file by src/metrics.c, which src/regression.c finds by its older layout: there is no
-- key "bytes_processed", but "processed" inside "bytes".
use packet_analyzer.Prelude.{
  ℕ, ◌/◌, ◌%◌, zero, suc, ◌+◌, ◌-◌, ◌≤◌, ◌<◌, ◌^◌, ◌≡◌, ◌∙◌, ap, sym, refl, arith, Bool, true,
  false, some, List, [], ◌∷◌, ◌++◌, append_assoc, ltb, drop, length, length-append, lt→ltb,
}
use packet_analyzer.Metrics.Metadata.{Text}
use packet_analyzer.Metrics.Decimal.{printed, digits_loop, printed_int}
use packet_analyzer.Metrics.Json.{
  Line, section, uint, int, real, string, item, bare, indent, key_before, line_end, written, render,
}
use packet_analyzer.Regression.Json.{json_extract_uint64}
use packet_analyzer.Regression.Keys.{captured_key, processed_key, bytes_key}
use packet_analyzer.Regression.Load.{strstr, quoted, nested_bytes}
use packet_analyzer.Regression.Documents.{
  behind-written_found, json_extract_uint64-written, strstr-behind, all_differ, AllFree,
}

-- A text that is written before the rest.
abbrev Before : (Text → Text) → Type 0
Before f = (xs : Text) × ((rest : Text) → f rest ≡ xs ++ rest)

indent-Before : (n : ℕ) → Before (indent n)
indent-Before zero = ([], λ rest. refl)
indent-Before (suc n) =
    let (xs, e) = indent-Before n in (32 ∷ xs, λ rest. ap (λ (t : Text). 32 ∷ t) (e rest))

both : (f g : Text → Text) → Before f → Before g → Before (λ rest. f (g rest))
both f g (xs, d) (ys, e) = (
  xs ++ ys,
  λ rest. d (g rest) ∙ (ap (λ (t : Text). xs ++ t) (e rest) ∙ sym (append_assoc xs ys rest)),
)

enclosed : (text end : Text) → Before (λ rest. 34 ∷ (text ++ (end ++ rest)))
enclosed text end =
    (34 ∷ (text ++ end), λ rest. ap (λ (t : Text). 34 ∷ t) (sym (append_assoc text end rest)))

key_before-Before : (n : ℕ) (key : Text) → Before (key_before n key)
key_before-Before n key =
    both (indent n) (λ rest. 34 ∷ (key ++ (34 ∷ 58 ∷ 32 ∷ rest))) (indent-Before n)
      (enclosed key (34 ∷ 58 ∷ 32 ∷ []))

line_end-Before : (last : Bool) → Before (line_end last)
line_end-Before true = (10 ∷ [], λ rest. refl)
line_end-Before false = (44 ∷ 10 ∷ [], λ rest. refl)

value-Before : (text : Text) (last : Bool) → Before (λ rest. text ++ line_end last rest)
value-Before text last =
    both (λ rest. text ++ rest) (line_end last) (text, λ rest. refl) (line_end-Before last)

render-Before : (line : Line) → Before (render line)
unfolding render
render-Before (section n key bracket) =
    both (key_before n key) (λ rest. bracket ∷ 10 ∷ rest) (key_before-Before n key)
      (bracket ∷ 10 ∷ [], λ rest. refl)
render-Before (uint n key value last) =
    both (key_before n key) _ (key_before-Before n key) (value-Before (printed value) last)
render-Before (int n key value last) =
    both (key_before n key) _ (key_before-Before n key) (value-Before (printed_int value) last)
render-Before (real n key value last) =
    both (key_before n key) _ (key_before-Before n key) (value-Before value last)
render-Before (string n key value last) =
    both (key_before n key) (λ rest. 34 ∷ (value ++ (34 ∷ line_end last rest)))
      (key_before-Before n key)
      (both (λ rest. 34 ∷ (value ++ (34 ∷ rest))) (line_end last) (enclosed value (34 ∷ []))
        (line_end-Before last))
render-Before (item value last) =
    both (indent 4) _ (indent-Before 4) (value-Before (printed value) last)
render-Before (bare text) = (text, λ rest. refl)

written-Before : (lines : List Line) → Before (written lines)
unfolding written
written-Before [] = ([], λ rest. refl)
written-Before (line ∷ lines) =
    both (render line) (written lines) (render-Before line) (written-Before lines)

drop-length : (xs ys : Text) → drop (length xs) (xs ++ ys) ≡ ys
drop-length [] ys = refl
drop-length (x ∷ xs) ys = drop-length xs ys

-- From one character before a text that ends another.
drop_one_before :
    (xs ys : Text) (c : ℕ)
    → drop (length (xs ++ (c ∷ ys)) - length ys - 1) (xs ++ (c ∷ ys)) ≡ c ∷ ys
drop_one_before xs ys c =
    let n : length (xs ++ (c ∷ ys)) - length ys - 1 ≡ length xs =
      omega (arith, length-append {0} xs (c ∷ ys)) in
    ap (λ (k : ℕ). drop k (xs ++ (c ∷ ys))) n ∙ drop-length xs (c ∷ ys)

length-digits_loop :
    (fuel n : ℕ) (text : Text) → length (digits_loop fuel n text) ≤ suc fuel + length text
unfolding digits_loop
length-digits_loop zero n text = omega arith
length-digits_loop (suc fuel) n text =
    ground (arith, length-digits_loop fuel (n / 10) ((48 + n % 10) ∷ text))

length-printed : (n : ℕ) → length (printed n) ≤ 20
unfolding printed
length-printed n = omega (arith, length-digits_loop 19 n [])

-- The two keys are near, whatever number stands between them.
near_lem :
    (n : ℕ) (t : Text)
    → ltb
        (length (
            quoted bytes_key
            ++ (58
                ∷ 32
                ∷ 123
                ∷ 10
                ∷ key_before 4 captured_key (printed n ++ (44 ∷ 10 ∷ indent 4 t))))
          - length t)
        200
      ≡ true
near_lem n t =
    let total = length-append {0} (printed n) (44 ∷ 10 ∷ indent 4 t) in
    lt→ltb _ _ (omega (arith, total, length-printed n))

nested_bytes-steps :
    (json at_bytes at_processed : Text) (bytes : ℕ)
    → strstr (quoted bytes_key) json ≡ some at_bytes
    → strstr (quoted processed_key) at_bytes ≡ some at_processed
    → ltb (length at_bytes - length at_processed) 200 ≡ true
    → json_extract_uint64 (drop (length json - length at_processed - 1) json) processed_key
      ≡ some bytes
    → nested_bytes json ≡ bytes
unfolding nested_bytes
nested_bytes-steps json at_bytes at_processed bytes first second near found =
    rw (first, nested_bytes) (rw (second, near, found) refl)

-- The search for "processed" behind "bytes", in the lines that the section begins with.
pub nested_bytes-written :
    (before : List Line) (captured bytes : ℕ) (rest : Text)
    → all_differ bytes_key before ≡ true
    → AllFree bytes_key before
    → bytes < 2 ^ 64
    → nested_bytes (
        written before (
          render (section 2 bytes_key 123) (
            render
              (uint 4 captured_key captured false)
              (render (uint 4 processed_key bytes false) rest))))
      ≡ bytes
unfolding nested_bytes written render
nested_bytes-written before captured bytes rest d f small =
    let value = printed bytes ++ line_end false rest in
    let at_processed = quoted processed_key ++ (58 ∷ 32 ∷ value) in
    let inner =
      written (uint 4 captured_key captured false ∷ []) (key_before 4 processed_key value) in
    let json = written before (key_before 2 bytes_key (123 ∷ 10 ∷ inner)) in
    let at_bytes = quoted bytes_key ++ (58 ∷ 32 ∷ 123 ∷ 10 ∷ inner) in
    let first : strstr (quoted bytes_key) json ≡ some at_bytes =
      strstr-behind (quoted bytes_key) json (58 ∷ 32 ∷ 123 ∷ 10 ∷ inner)
        (behind-written_found bytes_key (123 ∷ 10 ∷ inner) 2 before refl d f) in
    let second : strstr (quoted processed_key) at_bytes ≡ some at_processed =
      strstr-behind (quoted processed_key) at_bytes (58 ∷ 32 ∷ value) (
        behind-written_found processed_key value 4
          (section 0 bytes_key 123 ∷ uint 4 captured_key captured false ∷ []) refl refl tt) in
    let near : ltb (length at_bytes - length at_processed) 200 ≡ true =
      near_lem captured at_processed in
    let (xs, split) = both (written before) _ (written-Before before) (
      both (render (section 2 bytes_key 123)) _ (render-Before (section 2 bytes_key 123)) (
        both (render (uint 4 captured_key captured false)) (λ r. 32 ∷ 32 ∷ 32 ∷ r)
          (render-Before (uint 4 captured_key captured false)) (32 ∷ 32 ∷ 32 ∷ [], λ r. refl))) in
    let from : drop (length json - length at_processed - 1) json ≡ 32 ∷ at_processed =
      ap (λ (t : Text). drop (length t - length at_processed - 1) t) (split (32 ∷ at_processed))
      ∙ drop_one_before xs at_processed 32 in
    let found : json_extract_uint64 (32 ∷ at_processed) processed_key ≡ some bytes =
      json_extract_uint64-written processed_key rest 1 bytes false [] (refl, refl) refl tt small in
    nested_bytes-steps json at_bytes at_processed bytes first second near
      (ap (λ (t : Text). json_extract_uint64 t processed_key) from ∙ found)
