-- ===== src/Main/RunFiles.antt =====
-- The names of the files that `main` of src/main.c writes one run's metrics to, with several runs.
use packet_analyzer.Prelude.{
  ℕ, zero, suc, ◌+◌, ◌/◌, ◌%◌, ◌^◌, ◌≤◌, ◌<◌, ◌≡◌, ◌≢◌, ◌∙◌, ap, sym, refl, arith, Option, none,
  some, [], ◌∷◌, ◌++◌, ◌==◌, if◌then◌else◌, take, take-all, append-nil, length, length-append,
  codes, ◌⊎◌, inl, inr, Bool-cases,
}
use mathlib.Core.List.{append_cancel_left}
use packet_analyzer.Metrics.Metadata.{Text}
use packet_analyzer.Metrics.Decimal.{digits_loop, printed}
use packet_analyzer.Regression.Json.{strtoull, unquoted}
use packet_analyzer.Regression.Extract.{EndsNumber}
use packet_analyzer.Regression.Numbers.{strtoull-printed}

-- `strrchr(path, '.')`: what stands before the last dot, and the text from it on. A directory's dot
-- counts.
unfoldable pub last_dot : Text → Option (Text × Text)
last_dot [] = none
last_dot (c ∷ path) = elim (last_dot path) [
  | some (before, extension) ↦ some (c ∷ before, extension)
  | none ↦ if c == 46 then some ([], c ∷ path) else none
]

-- The name, cut to the array of 512 bytes. Run numbers start from 1.
unfoldable pub run_json_path : Text → ℕ → Text
run_json_path path run_idx = take 511 (elim (last_dot path) [
  | some (before, extension) ↦ before ++ (codes "_run" ++ (printed (run_idx + 1) ++ extension))
  | none ↦ path ++ (codes "_run" ++ printed (run_idx + 1))
])

digits_loop-length :
    (fuel n : ℕ) (text : Text) → length (digits_loop fuel n text) ≤ suc fuel + length text
unfolding digits_loop
digits_loop-length zero n text = omega arith
digits_loop-length (suc fuel) n text =
    let rest = digits_loop-length fuel (n / 10) ((48 + n % 10) ∷ text) in ground (arith, rest)

printed-length : (n : ℕ) → length (printed n) ≤ 20
unfolding printed
printed-length n = digits_loop-length 19 n []

-- What `strrchr` finds is a part of the path that starts with no digit.
last_dot-parts :
    (path : Text)
    → (last_dot path ≡ none)
      ⊎ ((before extension : Text) × (last_dot path ≡ some (before, extension))
          × (path ≡ before ++ extension)
          × EndsNumber extension)
unfolding last_dot
last_dot-parts [] = inl refl
last_dot-parts (c ∷ path) = elim (last_dot-parts path) [
  | inr (before, extension, found, parts, ends) ↦
      inr (c ∷ before, extension, rw found refl, ap (λ (t : Text). c ∷ t) parts, ends)
  | inl absent ↦ elim (Bool-cases (c == 46)) [
    | inl dot ↦ inr ([], c ∷ path, rw (absent, dot) refl, refl, ground (arith, dot))
    | inr other ↦ inl (rw (absent, other) refl)
  ]
]

-- The name before it is cut.
abbrev whole_name : Text → Text → ℕ → Text
whole_name before extension run_idx =
    before ++ (codes "_run" ++ (printed (run_idx + 1) ++ extension))

whole_name-length :
    (before extension : Text) (run_idx : ℕ)
    → length (whole_name before extension run_idx)
      ≡ length before + 4 + length (printed (run_idx + 1)) + length extension
whole_name-length before extension run_idx =
    let outer = length-append before (codes "_run" ++ (printed (run_idx + 1) ++ extension)) in
    omega (arith, outer, length-append (printed (run_idx + 1)) extension)

-- A name that fits is not cut.
whole_name-fits :
    (path before extension : Text) (run_idx : ℕ)
    → path ≡ before ++ extension
    → length path ≤ 487
    → take 511 (whole_name before extension run_idx) ≡ whole_name before extension run_idx
whole_name-fits path before extension run_idx parts short =
    let parts_length = ap length parts ∙ length-append before extension in
    take-all 511 (whole_name before extension run_idx) (
      omega (
        arith,
        whole_name-length before extension run_idx,
        printed-length (run_idx + 1),
        parts_length,
        short,
      ))

run_json_path-parts :
    (path : Text)
    → length path ≤ 487
    → (before extension : Text) × (path ≡ before ++ extension)
      × EndsNumber extension
      × ((run_idx : ℕ) → run_json_path path run_idx ≡ whole_name before extension run_idx)
unfolding run_json_path
run_json_path-parts path short = elim (last_dot-parts path) [
  | inr (before, extension, found, parts, ends) ↦ (
    before,
    extension,
    parts,
    ends,
    λ run_idx. rw found (whole_name-fits path before extension run_idx parts short),
  )
  | inl absent ↦ (
    path,
    [],
    sym (append-nil path),
    tt,
    λ run_idx. rw absent (
        ap (λ (t : Text). take 511 (path ++ (codes "_run" ++ t)))
          (sym (append-nil (printed (run_idx + 1))))
        ∙ whole_name-fits path path [] run_idx (sym (append-nil path)) short),
  )
]

whole_name-run_idx :
    (before extension : Text) (i j : ℕ)
    → EndsNumber extension
    → i < 2 ^ 31
    → j < 2 ^ 31
    → whole_name before extension i ≡ whole_name before extension j
    → i ≡ j
whole_name-run_idx before extension i j ends i_small j_small h =
    let numbers = append_cancel_left (codes "_run") _ _ (append_cancel_left before _ _ h) in
    let read = ap (λ (t : Text). strtoull (unquoted t)) numbers in
    let first = strtoull-printed (i + 1) extension (omega (arith, i_small)) ends in
    let second = strtoull-printed (j + 1) extension (omega (arith, j_small)) ends in
    omega (arith, read, first, second)

-- If the path has at most 487 characters, two different runs have different file names, and no run has
-- the name that was given, under which the final metrics are written: no file replaces another. Run
-- numbers are those of an `int`.
pub run_json_path-Distinct :
    (path : Text) (i j : ℕ)
    → length path ≤ 487
    → i < 2 ^ 31
    → j < 2 ^ 31
    → i ≢ j
    → (run_json_path path i ≢ run_json_path path j) × (run_json_path path i ≢ path)
run_json_path-Distinct path i j short i_small j_small different =
    let (before, extension, parts, ends, names) = run_json_path-parts path short in
    (
      λ h. different (
          whole_name-run_idx before extension i j ends i_small j_small
            (sym (names i) ∙ (h ∙ names j))),
      λ h.
          let same = ap length (sym (names i) ∙ (h ∙ parts)) in
          omega (arith, same, whole_name-length before extension i, length-append before extension),
    )
