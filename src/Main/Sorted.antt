-- ===== src/Main/Sorted.antt =====
-- `qsort` with a comparison by an order.
use packet_analyzer.Prelude.{
  ℕ, zero, suc, ◌+◌, ◌≤◌, ◌<◌, ◌≡◌, refl, ◌∙◌, sym, ap, arith, Bool, true, false, Bool-cases, inl,
  inr, List, [], ◌∷◌, if◌then◌else◌, get_or, length, subst, not,
}
use packet_analyzer.Main.Median.{insert, qsort, compare_by}

-- How many elements pass a test.
abbrev pub count {ℓ} : {A : Type ℓ} → (A → Bool) → List A → ℕ
count test [] = 0
count test (x ∷ xs) = (if test x then 1 else 0) + count test xs

module _ {ℓ} {A : Type ℓ} (lt : A → A → Bool) where
  -- No element is below one before it.
  abbrev pub AllAtLeast : A → List A → Type 0
  AllAtLeast x [] = Unit {0}
  AllAtLeast x (y ∷ ys) = (lt y x ≡ false) × AllAtLeast x ys

  abbrev pub Sorted : List A → Type 0
  Sorted [] = Unit {0}
  Sorted (x ∷ xs) = AllAtLeast x xs × Sorted xs

  pub length-insert : (x : A) (ys : List A) → length (insert (compare_by lt) x ys) ≡ suc (length ys)
  unfolding insert
  length-insert x [] = refl
  length-insert x (y ∷ ys) = ground (arith, length-insert x ys)

  pub length-qsort : (xs : List A) → length (qsort (compare_by lt) xs) ≡ length xs
  unfolding qsort
  length-qsort [] = refl
  length-qsort (x ∷ xs) = length-insert x (qsort (compare_by lt) xs) ∙ ap suc (length-qsort xs)

  count-insert :
      (test : A → Bool) (x : A) (ys : List A)
      → count test (insert (compare_by lt) x ys) ≡ (if test x then 1 else 0) + count test ys
  unfolding insert
  count-insert test x [] = refl
  count-insert test x (y ∷ ys) = ground (arith, count-insert test x ys)

  pub count-qsort :
      (test : A → Bool) (xs : List A) → count test (qsort (compare_by lt) xs) ≡ count test xs
  unfolding qsort
  count-qsort test [] = refl
  count-qsort test (x ∷ xs) =
      omega (arith, count-insert test x (qsort (compare_by lt) xs), count-qsort test xs)

-- An order on the elements that are numbers.
pub record IsOrder {ℓ} {A : Type ℓ} (lt : A → A → Bool) (good : A → Bool) : Type ℓ where
  pub lt_asym : (a b : A) → lt a b ≡ true → lt b a ≡ false
  pub le_trans :
      (a b c : A)
      → good a ≡ true
      → good b ≡ true
      → good c ≡ true
      → lt b a ≡ false
      → lt c b ≡ false
      → lt c a ≡ false

abbrev pub All {ℓ} : {A : Type ℓ} → (A → Bool) → List A → Type 0
All good [] = Unit {0}
All good (x ∷ xs) = (good x ≡ true) × All good xs

module _ {ℓ} {A : Type ℓ} (lt : A → A → Bool) (good : A → Bool) (order : IsOrder lt good) where
  insert_behind :
      (x y : A) (ys : List A)
      → lt y x ≡ true
      → insert (compare_by lt) x (y ∷ ys) ≡ y ∷ insert (compare_by lt) x ys
  unfolding insert compare_by
  insert_behind x y ys h = rw (order.lt_asym y x h) (rw h refl)

  insert_front :
      (x y : A) (ys : List A) → lt y x ≡ false → insert (compare_by lt) x (y ∷ ys) ≡ x ∷ y ∷ ys
  unfolding insert compare_by
  insert_front x y ys h = ground (arith, h)

  AllAtLeast-insert :
      (z x : A) (ys : List A)
      → lt x z ≡ false
      → AllAtLeast lt z ys
      → AllAtLeast lt z (insert (compare_by lt) x ys)
  unfolding insert
  AllAtLeast-insert z x [] h g = (h, tt)
  AllAtLeast-insert z x (y ∷ ys) h g =
      let ih = AllAtLeast-insert z x ys h g.1 in
      elim (Bool-cases (lt y x)) [
        | inl e ↦ subst (AllAtLeast lt z) (sym (insert_behind x y ys e)) (g.0, ih)
        | inr e ↦ subst (AllAtLeast lt z) (sym (insert_front x y ys e)) (h, g)
      ]

  AllAtLeast-trans :
      (x y : A) (ys : List A)
      → good x ≡ true
      → good y ≡ true
      → All good ys
      → lt y x ≡ false
      → AllAtLeast lt y ys
      → AllAtLeast lt x ys
  AllAtLeast-trans x y [] gx gy gs h a = tt
  AllAtLeast-trans x y (z ∷ ys) gx gy gs h a =
      (order.le_trans x y z gx gy gs.0 h a.0, AllAtLeast-trans x y ys gx gy gs.1 h a.1)

  Sorted-insert :
      (x : A) (ys : List A)
      → good x ≡ true
      → All good ys
      → Sorted lt ys
      → Sorted lt (insert (compare_by lt) x ys)
  unfolding insert
  Sorted-insert x [] gx gs s = (tt, tt)
  Sorted-insert x (y ∷ ys) gx gs s =
      let ih = Sorted-insert x ys gx gs.1 s.1 in
      elim (Bool-cases (lt y x)) [
        | inl e ↦
            subst (Sorted lt) (sym (insert_behind x y ys e))
              (AllAtLeast-insert y x ys (order.lt_asym y x e) s.0, ih)
        | inr e ↦
            subst (Sorted lt) (sym (insert_front x y ys e))
              ((e, AllAtLeast-trans x y ys gx gs.0 gs.1 e s.0), s)
      ]

  All-insert :
      (x : A) (ys : List A) → good x ≡ true → All good ys → All good (insert (compare_by lt) x ys)
  unfolding insert
  All-insert x [] gx gs = (gx, tt)
  All-insert x (y ∷ ys) gx gs =
      let ih = All-insert x ys gx gs.1 in
      elim (Bool-cases (lt y x)) [
        | inl e ↦ subst (All good) (sym (insert_behind x y ys e)) (gs.0, ih)
        | inr e ↦ subst (All good) (sym (insert_front x y ys e)) (gx, gs)
      ]

  -- `qsort` puts numbers in order.
  pub qsort-Sorted :
      (xs : List A)
      → All good xs
      → Sorted lt (qsort (compare_by lt) xs) × All good (qsort (compare_by lt) xs)
  unfolding qsort
  qsort-Sorted [] gs = (tt, tt)
  qsort-Sorted (x ∷ xs) gs =
      let ih = qsort-Sorted xs gs.1 in
      let ys = qsort (compare_by lt) xs in
      (Sorted-insert x ys gs.0 ih.1 ih.0, All-insert x ys gs.0 ih.1)

  lt_irrefl : (a : A) → lt a a ≡ false
  lt_irrefl a = elim (Bool-cases (lt a a)) [ inl e ↦ order.lt_asym a a e | inr e ↦ e ]

  -- In a sorted list, the elements up to an index are not above the one there.
  pub count_up_to :
      (ys : List A) (i : ℕ) (d : A)
      → Sorted lt ys
      → i < length ys
      → suc i ≤ count (λ y. not (lt (get_or ys i d) y)) ys
  count_up_to [] i d s h = absurd (omega arith)
  count_up_to (x ∷ xs) zero d s h = ground (arith, lt_irrefl x)
  count_up_to (x ∷ xs) (suc i) d s h =
      ground (arith, count_up_to xs i d s.1 (omega arith), at_least x xs i s.0 (omega arith))
    where
      at_least :
          (z : A) (zs : List A) (j : ℕ)
          → AllAtLeast lt z zs
          → j < length zs
          → lt (get_or zs j d) z ≡ false
      at_least z [] j a l = absurd (omega arith)
      at_least z (y ∷ zs) zero a l = a.0
      at_least z (y ∷ zs) (suc j) a l = at_least z zs j a.1 (omega arith)

  -- The elements from an index on are not below the one there.
  pub count_from :
      (ys : List A) (i : ℕ) (d : A)
      → Sorted lt ys
      → i < length ys
      → length ys ≤ i + count (λ y. not (lt y (get_or ys i d))) ys
  count_from [] i d s h = absurd (omega arith)
  count_from (x ∷ xs) zero d s h = ground (arith, lt_irrefl x, all x xs s.0)
    where
      all : (z : A) (zs : List A) → AllAtLeast lt z zs → count (λ y. not (lt y z)) zs ≡ length zs
      all z [] a = refl
      all z (y ∷ zs) a = ground (arith, all z zs a.1)
  count_from (x ∷ xs) (suc i) d s h = omega (arith, count_from xs i d s.1 (omega arith))

  pub next_not_below :
      (ys : List A) (i : ℕ) (d : A)
      → Sorted lt ys
      → suc i < length ys
      → lt (get_or ys (suc i) d) (get_or ys i d) ≡ false
  next_not_below [] i d s h = absurd (omega arith)
  next_not_below (x ∷ []) i d s h = absurd (omega arith)
  next_not_below (x ∷ y ∷ ys) zero d s h = s.0.0
  next_not_below (x ∷ y ∷ ys) (suc i) d s h = next_not_below (y ∷ ys) i d s.1 (omega arith)

pub count_mono {ℓ} :
    {A : Type ℓ} (f g : A → Bool) (xs : List A)
    → ((x : A) → f x ≡ true → g x ≡ true)
    → count f xs ≤ count g xs
count_mono f g [] h = omega arith
count_mono f g (x ∷ xs) h = ground (arith, h x, count_mono f g xs h)

pub All-get_or {ℓ} :
    {A : Type ℓ} (good : A → Bool) (xs : List A) (i : ℕ) (d : A)
    → All good xs
    → i < length xs
    → good (get_or xs i d) ≡ true
All-get_or good [] i d a h = absurd (omega arith)
All-get_or good (x ∷ xs) zero d a h = a.0
All-get_or good (x ∷ xs) (suc i) d a h = All-get_or good xs i d a.1 (omega arith)
