-- ===== src/Main/Halves.antt =====
-- `median_uint64` as the value that splits the runs in halves.
use packet_analyzer.Prelude.{
  ℕ, suc, ◌-◌, ◌*◌, ◌/◌, ◌%◌, ◌^◌, ◌≤◌, ◌<◌, ◌≡◌, subst, arith, false, not, Bool-cases, inl, inr,
  List, ltb, leb, ◌==◌, get_or, length,
}
use packet_analyzer.Main.Median.{qsort, compare_uint64, median_uint64}
use packet_analyzer.Main.Sorted.{
  count, Sorted, IsOrder, All, length-qsort, count-qsort, qsort-Sorted, count_up_to, count_from,
  next_not_below, count_mono, All-get_or,
}

ltb-IsOrder : (limit : ℕ) → IsOrder ltb (λ x. ltb x limit)
ltb-IsOrder limit = record {
  lt_asym = λ a b h. ground arith;
  le_trans = λ a b c ga gb gc h k. ground arith;
}

-- What stands in the middle: the same element twice for an odd length.
record Middle (ys : List ℕ) (m : ℕ) : Type 0 where
  low : ℕ
  high : ℕ
  low_in : low < length ys
  high_in : high < length ys
  low_half : length ys ≤ 2 * suc low
  high_half : 2 * high ≤ length ys
  above_low : get_or ys low 0 ≤ m
  below_high : m ≤ get_or ys high 0

Middle-halves :
    (ys : List ℕ) (m : ℕ)
    → Sorted ltb ys
    → Middle ys m
    → (length ys ≤ 2 * count (λ x. leb x m) ys) × (length ys ≤ 2 * count (λ x. leb m x) ys)
Middle-halves ys m s mid =
    let order = ltb-IsOrder 0 in
    let up = count_up_to ltb (λ x. ltb x 0) order ys mid.low 0 s mid.low_in in
    let from = count_from ltb (λ x. ltb x 0) order ys mid.high 0 s mid.high_in in
    let below =
      count_mono (λ y. not (ltb (get_or ys mid.low 0) y)) (λ x. leb x m) ys
        (λ x h. ground (arith, mid.above_low)) in
    let above =
      count_mono (λ y. not (ltb y (get_or ys mid.high 0))) (λ x. leb m x) ys
        (λ x h. ground (arith, mid.below_high)) in
    (omega (arith, up, below, mid.low_half), omega (arith, from, above, mid.high_half))

median-Middle :
    (arr : List ℕ)
    → 0 < length arr
    → All (λ x. ltb x (2 ^ 63)) arr
    → Middle (qsort compare_uint64 arr) (median_uint64 arr (length arr))
unfolding median_uint64
median-Middle arr ne small = elim (Bool-cases (length arr % 2 == 1)) [
  | inl odd ↦ record {
    low = length arr / 2;
    high = length arr / 2;
    low_in = omega (arith, same);
    high_in = omega (arith, same);
    low_half = ground (arith, same);
    high_half = ground (arith, same);
    above_low = ground arith;
    below_high = ground arith;
  }
  | inr even ↦
      let adjacent =
        next_not_below ltb (λ x. ltb x (2 ^ 63)) (ltb-IsOrder (2 ^ 63)) ys (length arr / 2 - 1) 0
          sorted.0 (ground (arith, same)) in
      let a_small =
        All-get_or (λ x. ltb x (2 ^ 63)) ys (length arr / 2 - 1) 0 sorted.1
          (ground (arith, same)) in
      let b_small =
        All-get_or (λ x. ltb x (2 ^ 63)) ys (length arr / 2) 0 sorted.1 (ground (arith, same)) in
      let index : suc (length arr / 2 - 1) ≡ length arr / 2 = ground arith in
      let le : get_or ys (length arr / 2 - 1) 0 ≤ get_or ys (length arr / 2) 0 = ground (
        arith,
        subst (λ k. ltb (get_or ys k 0) (get_or ys (length arr / 2 - 1) 0) ≡ false) index adjacent,
      ) in
      record {
        low = length arr / 2 - 1;
        high = length arr / 2;
        low_in = ground (arith, same);
        high_in = ground (arith, same);
        low_half = ground (arith, same);
        high_half = ground (arith, same);
        above_low = ground (arith, a_small, b_small, le);
        below_high = ground (arith, a_small, b_small, le);
      }
]
  where
    ys : List ℕ
    ys = qsort compare_uint64 arr

    same : length ys ≡ length arr
    same = length-qsort ltb arr

    sorted : Sorted ltb ys × All (λ x. ltb x (2 ^ 63)) ys
    sorted = qsort-Sorted ltb (λ x. ltb x (2 ^ 63)) (ltb-IsOrder (2 ^ 63)) arr small

-- The median of at least one value, each below 2^63, splits them: at least half of the values are at
-- most the median, and at least half are at least the median.
pub median_uint64_halves :
    (arr : List ℕ)
    → 0 < length arr
    → All (λ x. ltb x (2 ^ 63)) arr
    → (length arr ≤ 2 * count (λ x. leb x (median_uint64 arr (length arr))) arr)
      × (length arr ≤ 2 * count (λ x. leb (median_uint64 arr (length arr)) x) arr)
median_uint64_halves arr ne small =
    let m = median_uint64 arr (length arr) in
    let ys = qsort compare_uint64 arr in
    let sorted = qsort-Sorted ltb (λ x. ltb x (2 ^ 63)) (ltb-IsOrder (2 ^ 63)) arr small in
    let halves = Middle-halves ys m sorted.0 (median-Middle arr ne small) in
    omega (
      arith,
      halves,
      length-qsort ltb arr,
      count-qsort ltb (λ x. leb x m) arr,
      count-qsort ltb (λ x. leb m x) arr,
    )
