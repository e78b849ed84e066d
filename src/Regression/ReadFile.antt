-- ===== src/Regression/ReadFile.antt =====
-- `read_file_contents` of src/regression.c, over what the C library's calls return.
use packet_analyzer.Prelude.{
  ℕ, ◌*◌, ◌≤◌, ◌<◌, ◌≡◌, ◌∙◌, ap, refl, arith, Bool, true, ◌&&◌, not, ◌||◌, Option, none, some,
  List, [], ◌∷◌, ◌==◌, if◌then◌else◌, take, take-all, length,
}
use packet_analyzer.Prelude.Int.{ℤ, pos, pos_part, ltb_ℤ}
use packet_analyzer.Floating.{Floating}
use packet_analyzer.Metrics.Metadata.{Text}
use packet_analyzer.Regression.Baseline.{Baseline}
use packet_analyzer.Regression.Load.{load_baseline}

-- A file that `fopen` has opened: what `ftell` says at its end, and the bytes that `fread` gives when
-- asked for so many.
pub record Opened : Type 0 where
  pub file_size : ℤ
  pub fread : ℕ → List ℕ

-- The C string in a buffer: what stands before the first zero.
unfoldable pub before_zero : List ℕ → Text
before_zero [] = []
before_zero (c ∷ bytes) = let rest = before_zero bytes in if c == 0 then [] else c ∷ rest

-- At most a mebibyte is read; the zero that is put behind the bytes is the list's end.
unfoldable pub read_file_contents : Option Opened → Bool → Option Text
read_file_contents none malloc = none
read_file_contents (some f) malloc =
    if not (ltb_ℤ (pos 0) f.file_size) || ltb_ℤ (pos (1024 * 1024)) f.file_size
    then none
    else (if malloc then some (before_zero (f.fread (pos_part f.file_size))) else none)

-- An ordinary file with these contents, which is read to its end.
abbrev pub ordinary : List ℕ → Opened
ordinary bytes = record { file_size = pos (length bytes); fread = λ n. take n bytes }

-- No zero in it.
abbrev pub is_text : List ℕ → Bool
is_text [] = true
is_text (c ∷ bytes) = not (c == 0) && is_text bytes

before_zero-is_text : (bytes : List ℕ) → is_text bytes ≡ true → before_zero bytes ≡ bytes
unfolding before_zero
before_zero-is_text [] h = refl
before_zero-is_text (c ∷ bytes) h = ground (arith, h, before_zero-is_text bytes)

-- An ordinary file of 1 to 2^20 bytes, none of them zero, is read whole, if there is memory.
pub read_file_contents-ordinary :
    (bytes : List ℕ)
    → is_text bytes ≡ true
    → 0 < length bytes
    → length bytes ≤ 1024 * 1024
    → read_file_contents (some (ordinary bytes)) true ≡ some bytes
unfolding read_file_contents
read_file_contents-ordinary bytes text positive small =
    let whole =
      ap before_zero (take-all (length bytes) bytes (omega arith))
      ∙ before_zero-is_text bytes text in
    ground (arith, whole, positive, small)

module _ (F : Floating) (strtod : Text → F.Double) where
  -- `regression_load_baseline` on a file: its text is what `load_baseline` takes.
  abbrev pub load_file : Option Opened → Bool → Option (Baseline F.Double)
  load_file file malloc = load_baseline F strtod (read_file_contents file malloc)

  -- A file that `metrics_snapshot_json` or another program has written as such a text is loaded from
  -- exactly that text.
  pub load_file-ordinary :
      (bytes : List ℕ)
      → is_text bytes ≡ true
      → 0 < length bytes
      → length bytes ≤ 1024 * 1024
      → load_file (some (ordinary bytes)) true ≡ load_baseline F strtod (some bytes)
  load_file-ordinary bytes text positive small =
      ap (load_baseline F strtod) (read_file_contents-ordinary bytes text positive small)
