-- ===== src/Regression/MustMatch.antt =====
-- Which baselines `regression_validate_metadata` accepts.
use packet_analyzer.Prelude.{
  ℕ, ◌≤◌, ◌<◌, ◌≡◌, ◌↔◌, ◌⊎◌, inl, inr, refl, arith, true, false, none, some, [], ◌∷◌, Bool-cases,
}
use packet_analyzer.Prelude.Int.{ℤ, pos, ◌≤ℤ◌, eqb_ℤ_iff}
use packet_analyzer.Metrics.Metadata.{Text, Metadata}
use packet_analyzer.Regression.Compatible.{
  same_text, text_mismatch, int_mismatch, Mismatches, mismatches, hard_mismatch_count,
  has_hard_mismatch, fields_differ, validate_metadata,
}

pub same_text_iff : (s t : Text) → (same_text s t ≡ true) ↔ (s ≡ t)
unfolding same_text
same_text_iff [] [] = (λ h. refl, λ h. refl)
same_text_iff [] (b ∷ t) = (λ h. cc, λ h. cc)
same_text_iff (a ∷ s) [] = (λ h. cc, λ h. cc)
same_text_iff (a ∷ s) (b ∷ t) =
    (λ h. ground (arith, same_text_iff s t), λ h. ground (arith, same_text_iff s t))

-- A text field agrees if the baseline leaves it empty or has the run's text; a number if the
-- baseline's is not positive or is the run's.
abbrev pub TextAgrees : Text → Text → Type 0
TextAgrees baseline current = (baseline ≡ []) ⊎ (baseline ≡ current)

abbrev pub IntAgrees : ℤ → ℤ → Type 0
IntAgrees baseline current = (baseline ≤ℤ pos 0) ⊎ (baseline ≡ current)

text_mismatch-false : (s t : Text) → (text_mismatch s t ≡ false) ↔ TextAgrees s t
unfolding text_mismatch
text_mismatch-false [] t = (λ h. inl refl, λ h. refl)
text_mismatch-false (a ∷ s) t =
    (λ h. ground (arith, same_text_iff (a ∷ s) t), λ h. ground (arith, same_text_iff (a ∷ s) t))

int_mismatch-false : (a b : ℤ) → (int_mismatch a b ≡ false) ↔ IntAgrees a b
unfolding int_mismatch
int_mismatch-false a b = (λ h. ground (arith, eqb_ℤ_iff a b), λ h. ground (arith, eqb_ℤ_iff a b))

-- The fields that must match.
pub record MustMatch (baseline current : Metadata) : Type 0 where
  pub filter : TextAgrees baseline.filter current.filter
  pub threads : IntAgrees baseline.threads current.threads
  pub warmup_sec : IntAgrees baseline.warmup_sec current.warmup_sec
  pub duration_sec : IntAgrees baseline.duration_sec current.duration_sec
  pub traffic_mode : TextAgrees baseline.traffic_mode current.traffic_mode
  pub traffic_target : TextAgrees baseline.traffic_target current.traffic_target
  pub traffic_rate : IntAgrees baseline.traffic_rate current.traffic_rate

no_hard_mismatch :
    (m : Mismatches)
    → (hard_mismatch_count m ≡ 0) ↔ (
        (m.filter ≡ false)
        × (m.threads ≡ false)
        × (m.warmup_sec ≡ false)
        × (m.duration_sec ≡ false)
        × (m.traffic_mode ≡ false)
        × (m.traffic_target ≡ false)
        × (m.traffic_rate ≡ false))
no_hard_mismatch m = (λ h. ground arith, λ h. ground arith)

mismatches-MustMatch : (b c : Metadata) → (hard_mismatch_count (mismatches b c) ≡ 0) ↔ MustMatch b c
unfolding mismatches
mismatches-MustMatch b c =
    let n = no_hard_mismatch (mismatches b c) in
    (
      λ h. record {
        filter = (text_mismatch-false b.filter c.filter).0 (n.0 h).0;
        threads = (int_mismatch-false b.threads c.threads).0 (n.0 h).1;
        warmup_sec = (int_mismatch-false b.warmup_sec c.warmup_sec).0 (n.0 h).2;
        duration_sec = (int_mismatch-false b.duration_sec c.duration_sec).0 (n.0 h).3;
        traffic_mode = (text_mismatch-false b.traffic_mode c.traffic_mode).0 (n.0 h).4;
        traffic_target = (text_mismatch-false b.traffic_target c.traffic_target).0 (n.0 h).5;
        traffic_rate = (int_mismatch-false b.traffic_rate c.traffic_rate).0 (n.0 h).6;
      },
      λ k. n.1 (
        (text_mismatch-false b.filter c.filter).1 k.filter,
        (int_mismatch-false b.threads c.threads).1 k.threads,
        (int_mismatch-false b.warmup_sec c.warmup_sec).1 k.warmup_sec,
        (int_mismatch-false b.duration_sec c.duration_sec).1 k.duration_sec,
        (text_mismatch-false b.traffic_mode c.traffic_mode).1 k.traffic_mode,
        (text_mismatch-false b.traffic_target c.traffic_target).1 k.traffic_target,
        (int_mismatch-false b.traffic_rate c.traffic_rate).1 k.traffic_rate,
      ),
    )

validate_by_count :
    (b c : Metadata)
    → b.valid ≡ true
    → ((validate_metadata (some b) (some c)).compatible ≡ true)
      ↔ (hard_mismatch_count (mismatches b c) ≡ 0)
unfolding validate_metadata
validate_by_count b c v =
    let n = no_hard_mismatch (mismatches b c) in
    (λ h. ground (arith, n.0, n.1), λ h. ground (arith, n.0 h))

-- A baseline with metadata is accepted exactly when each of the seven must-match fields is unset in
-- the baseline or equal to the run's. Interface, operating system, BPF buffer size and commit play no
-- part.
pub validate_metadata_iff :
    (b c : Metadata)
    → b.valid ≡ true
    → ((validate_metadata (some b) (some c)).compatible ≡ true) ↔ MustMatch b c
validate_metadata_iff b c v =
    let by_count = validate_by_count b c v in
    let by_field = mismatches-MustMatch b c in
    (λ h. by_field.0 (by_count.0 h), λ k. by_count.1 (by_field.1 k))

-- A refusal of a baseline with metadata tells the caller how many fields differ, a number from 1 to
-- 7, and prints the table; an acceptance does neither.
pub validate_metadata-message :
    (b c : Metadata)
    → b.valid ≡ true
    → let v = validate_metadata (some b) (some c) in
      ((v.compatible ≡ true) × (v.message ≡ none) × (v.report ≡ none))
      ⊎ ((n : ℕ) × (v.compatible ≡ false)
          × (v.message ≡ some (fields_differ n))
          × (v.report ≡ some (mismatches b c))
          × (0 < n)
          × (n ≤ 7))
unfolding validate_metadata
validate_metadata-message b c v = elim (Bool-cases (has_hard_mismatch (mismatches b c))) [
  | inl hard ↦ inr (
    hard_mismatch_count (mismatches b c),
    ground arith,
    ground arith,
    ground arith,
    ground arith,
    ground arith,
  )
  | inr fine ↦ inl (ground arith, ground arith, ground arith)
]
