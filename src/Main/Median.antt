-- ===== src/Main/Median.antt =====
-- The comparison functions and the medians of src/main.c. `qsort` is insertion by the comparison
-- function; what it does with equal keys cannot be told apart.
use packet_analyzer.Prelude.{
  ℕ, ◌+◌, ◌-◌, ◌/◌, ◌%◌, Bool, List, [], ◌∷◌, ltb, ◌==◌, if◌then◌else◌, get_or, u64,
}
use packet_analyzer.Prelude.Int.{ℤ, pos, negsuc, ltb_ℤ}
use packet_analyzer.Floating.{Floating}

unfoldable pub insert {ℓ} : {A : Type ℓ} → (A → A → ℤ) → A → List A → List A
insert compare x [] = x ∷ []
insert compare x (y ∷ ys) =
    let rest = insert compare x ys in if ltb_ℤ (pos 0) (compare x y) then y ∷ rest else x ∷ y ∷ ys

unfoldable pub qsort {ℓ} : {A : Type ℓ} → (A → A → ℤ) → List A → List A
qsort compare [] = []
qsort compare (x ∷ xs) = insert compare x (qsort compare xs)

-- The body that both comparison functions have, for the `<` of the type.
unfoldable pub compare_by {ℓ} : {A : Type ℓ} → (A → A → Bool) → A → A → ℤ
compare_by lt a b = if lt a b then negsuc 0 else (if lt b a then pos 1 else pos 0)

abbrev pub compare_uint64 : ℕ → ℕ → ℤ
compare_uint64 = compare_by ltb

-- `median_uint64` of an array of `n` elements. The sum is a `uint64_t`.
unfoldable pub median_uint64 : List ℕ → ℕ → ℕ
median_uint64 arr n =
    let sorted = qsort compare_uint64 arr in
    if n == 0
    then 0
    else (if n % 2 == 1
        then get_or sorted (n / 2) 0
        else u64 (get_or sorted (n / 2 - 1) 0 + get_or sorted (n / 2) 0) / 2)

module _ (F : Floating) where
  open F use {Double, of_u64, add, div, lt}

  abbrev pub compare_double : Double → Double → ℤ
  compare_double = compare_by lt

  -- `median_double`
  unfoldable pub median_double : List Double → ℕ → Double
  median_double arr n =
      let sorted = qsort compare_double arr in
      if n == 0
      then of_u64 0
      else (if n % 2 == 1
          then get_or sorted (n / 2) (of_u64 0)
          else div (add (get_or sorted (n / 2 - 1) (of_u64 0)) (get_or sorted (n / 2) (of_u64 0)))
              (of_u64 2))
