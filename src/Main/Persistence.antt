-- ===== src/Main/Persistence.antt =====
-- Persistent regressions and the median of the runs.
use packet_analyzer.Prelude.{
  ◌+◌, ◌*◌, ◌/◌, ◌%◌, ◌≤◌, ◌<◌, ◌≡◌, inl, inr, refl, arith, Bool, true, false, not, ◌&&◌,
  Bool-cases, List, [], ◌∷◌, get_or, length,
}
use packet_analyzer.Floating.{Floating, AtMost, Monotone}
use packet_analyzer.Main.Median.{qsort, compare_by, median_double}
use packet_analyzer.Main.Sorted.{
  count, Sorted, IsOrder, All, length-qsort, count-qsort, qsort-Sorted, count_from, All-get_or,
}
use packet_analyzer.Main.Decision.{gap, regressed}

-- The runs whose figure, and whose distance from the baseline, is a number.
abbrev pub numeric : (F : Floating) → F.Double → F.Double → Bool
numeric F base x = F.finite x && F.finite (gap F base x)

numeric-IsOrder :
    (F : Floating) (monotone : Monotone F) (base : F.Double) → IsOrder F.lt (numeric F base)
numeric-IsOrder F monotone base = record {
  lt_asym = monotone.lt_asym;
  le_trans = λ a b c ga gb gc h k. trans a b c (ground arith) (ground arith) h k;
}
  where
    trans :
        (a b c : F.Double)
        → F.finite a ≡ true
        → F.finite b ≡ true
        → F.lt b a ≡ false
        → F.lt c b ≡ false
        → F.lt c a ≡ false
    trans a b c fa fb h k = elim (Bool-cases (F.lt c a)) [
      | inl e ↦
          let le : AtMost F a b = record { finite_left = fa; finite_right = fb; not_above = h } in
          let lt_cb = monotone.lt_of_lt_of_le c a b e le in absurd (ground arith)
      | inr e ↦ e
    ]

-- A run below a regressed run is regressed, too.
regressed-below :
    (F : Floating) (monotone : Monotone F) (base t a b : F.Double)
    → F.finite base ≡ true
    → F.lt (F.of_u64 0) base ≡ true
    → numeric F base a ≡ true
    → numeric F base b ≡ true
    → F.lt b a ≡ false
    → regressed F base t b ≡ true
    → regressed F base t a ≡ true
unfolding regressed gap
regressed-below F monotone base t a b fin pos ga gb le h =
    let at_most : AtMost F a b = record {
      finite_left = ground arith;
      finite_right = ground arith;
      not_above = le;
    } in
    let gaps : AtMost F (gap F base a) (gap F base b) = record {
      finite_left = ground arith;
      finite_right = ground arith;
      not_above = monotone.scaled_gap a b base at_most fin pos;
    } in
    monotone.lt_of_le_of_lt (gap F base a) (gap F base b) (F.neg t) gaps h

-- The same elements fail a test, and the others pass it.
count_not {ℓ} :
    {A : Type ℓ} (test : A → Bool) (xs : List A)
    → count test xs + count (λ x. not (test x)) xs ≡ length xs
count_not test [] = refl
count_not test (x ∷ xs) = ground (arith, count_not test xs)

count_mono_on {ℓ} :
    {A : Type ℓ} (good f g : A → Bool) (xs : List A)
    → All good xs
    → ((x : A) → good x ≡ true → f x ≡ true → g x ≡ true)
    → count f xs ≤ count g xs
count_mono_on good f g [] a h = omega arith
count_mono_on good f g (x ∷ xs) a h = ground (arith, h x a.0, count_mono_on good f g xs a.1 h)

-- For an odd number of runs and a positive finite baseline, where the figures and their distances from
-- the baseline are finite and doubles are ordered as IEEE 754 says: if at least 60% of the runs
-- regress, their median regresses.
pub persistent-median :
    (F : Floating) (monotone : Monotone F) (base t : F.Double) (values : List F.Double)
    → F.finite base ≡ true
    → F.lt (F.of_u64 0) base ≡ true
    → length values % 2 ≡ 1
    → All (numeric F base) values
    → 3 * length values ≤ 5 * count (regressed F base t) values
    → regressed F base t (median_double F values (length values)) ≡ true
unfolding median_double
persistent-median F monotone base t values fin pos odd nums many =
    elim (Bool-cases (regressed F base t m)) [
      | inl e ↦ rw (at_middle, median_double) e
      | inr e ↦ absurd (omega (arith, from, still e, count_not reg ys, same, same_count, many, odd))
    ]
  where
    reg : F.Double → Bool
    reg = regressed F base t

    ys : List F.Double
    ys = qsort (compare_by F.lt) values

    m : F.Double
    m = get_or ys (length values / 2) (F.of_u64 0)

    order : IsOrder F.lt (numeric F base)
    order = numeric-IsOrder F monotone base

    sorted : Sorted F.lt ys × All (numeric F base) ys
    sorted = qsort-Sorted F.lt (numeric F base) order values nums

    same : length ys ≡ length values
    same = length-qsort F.lt values

    same_count : count reg ys ≡ count reg values
    same_count = count-qsort F.lt reg values

    inside : length values / 2 < length ys
    inside = omega (arith, same, odd)

    from : length ys ≤ length values / 2 + count (λ y. not (F.lt y m)) ys
    from =
        count_from F.lt (numeric F base) order ys (length values / 2) (F.of_u64 0) sorted.0 inside

    m_numeric : numeric F base m ≡ true
    m_numeric = All-get_or (numeric F base) ys (length values / 2) (F.of_u64 0) sorted.1 inside

    still : reg m ≡ false → count (λ y. not (F.lt y m)) ys ≤ count (λ y. not (reg y)) ys
    still unmarked =
        count_mono_on (numeric F base) (λ y. not (F.lt y m)) (λ y. not (reg y)) ys sorted.1
          (λ y gy h. elim (Bool-cases (reg y)) [
            | inl e ↦
                let r =
                  regressed-below F monotone base t m y fin pos m_numeric gy (ground arith) e in
                absurd (ground arith)
            | inr e ↦ ground arith
          ])

    at_middle : median_double F values (length values) ≡ m
    at_middle = ground arith
