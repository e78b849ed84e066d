-- ===== src/Floating/Whole.antt =====
-- A concrete `Floating` for runs: whole numbers, with division rounded down. It shows that what is
-- asked of `double` can be met.
use native.Mathlib.Nat.{le-div_iff_mul-le, div-mul-le_self}
use packet_analyzer.Prelude.{ℕ, zero, suc, ◌+◌, ◌*◌, ◌/◌, ◌^◌, ◌≤◌, ◌≡◌, true, false, arith}
use packet_analyzer.Prelude.Int.{ℤ, pos, negsuc, pos_part, ◌≤ℤ◌, ltb_ℤ, ◌+ℤ◌, ◌-ℤ◌, ◌*ℤ◌}
use packet_analyzer.Floating.{Floating, MulExact, Monotone, Scaling}

-- The divisor's absolute value counts; the source divides by positive numbers.
abbrev div_ℤ : ℤ → ℤ → ℤ
div_ℤ (pos n) (pos k) = pos (n / k)
div_ℤ (negsuc n) (pos k) = negsuc (n / k)
div_ℤ a (negsuc k) = pos 0

abbrev pub whole : Floating
whole = record {
  Double = ℤ;
  of_u64 = pos;
  to_u64 = pos_part;
  add = ◌+ℤ◌;
  sub = ◌-ℤ◌;
  mul = ◌*ℤ◌;
  div = div_ℤ;
  neg = λ a. pos 0 -ℤ a;
  lt = ltb_ℤ;
  infinity = pos (2 ^ 100);
  finite = λ a. ltb_ℤ a (pos (2 ^ 100));
}

pub whole-MulExact : MulExact whole
unfolding ◌*ℤ◌
whole-MulExact n k h = ground arith

div_mono : (a b k : ℕ) → a ≤ b → a / k ≤ b / k
div_mono a b zero h = omega arith
div_mono a b (suc k) h =
    (le-div_iff_mul-le {k = suc k} {x = a / suc k} {y = b} (omega arith)).1
      (omega (arith, div-mul-le_self a (suc k)))

div_ℤ-mono : (x y : ℤ) (k : ℕ) → x ≤ℤ y → div_ℤ x (pos k) ≤ℤ div_ℤ y (pos k)
div_ℤ-mono (pos a) (pos b) k h = omega (arith, div_mono a b k (omega arith))
div_ℤ-mono (pos a) (negsuc b) k h = absurd (omega arith)
div_ℤ-mono (negsuc a) (pos b) k h = omega arith
div_ℤ-mono (negsuc a) (negsuc b) k h = omega (arith, div_mono b a k (omega arith))

not_above→le : (a b : ℤ) → ltb_ℤ b a ≡ false → a ≤ℤ b
not_above→le a b h = ground arith

le→not_above : (a b : ℤ) → a ≤ℤ b → ltb_ℤ b a ≡ false
le→not_above a b h = ground arith

-ℤ_mono : (a b c : ℤ) → a ≤ℤ b → (a -ℤ c) ≤ℤ (b -ℤ c)
unfolding ◌-ℤ◌
-ℤ_mono a b c h = ground arith

whole-scaled_gap :
    (a b base : ℤ)
    → ltb_ℤ b a ≡ false
    → ltb_ℤ (pos 0) base ≡ true
    → ltb_ℤ (div_ℤ (b -ℤ base) base) (div_ℤ (a -ℤ base) base) ≡ false
whole-scaled_gap a b (negsuc k) h p = ground arith
whole-scaled_gap a b (pos k) h p =
    le→not_above (div_ℤ (a -ℤ pos k) (pos k)) (div_ℤ (b -ℤ pos k) (pos k))
      (div_ℤ-mono (a -ℤ pos k) (b -ℤ pos k) k (-ℤ_mono a b (pos k) (not_above→le a b h)))

pub whole-Monotone : Monotone whole
whole-Monotone = record {
  lt_asym = λ a b h. ground arith;
  lt_trans = λ a b c h k. ground arith;
  lt_of_le_of_lt = λ a b c h k. ground (arith, h.not_above);
  lt_of_lt_of_le = λ a b c h k. ground (arith, k.not_above);
  scaled_gap = λ a b base h fin p. whole-scaled_gap a b base h.not_above p;
}

whole-shrink :
    (x t : ℤ)
    → ltb_ℤ (pos 0) x ≡ true
    → ltb_ℤ t (pos 0) ≡ false
    → ltb_ℤ x (x *ℤ (pos 1 -ℤ t)) ≡ false
unfolding ◌*ℤ◌ ◌-ℤ◌
whole-shrink x (negsuc t) h k = ground arith
whole-shrink (negsuc x) (pos t) h k = ground arith
whole-shrink (pos x) (pos zero) h k = ground arith
whole-shrink (pos x) (pos (suc t)) h k = ground arith

pos-+ℤ : (a b : ℕ) → pos a +ℤ pos b ≡ pos (a + b)
unfolding ◌+ℤ◌
pos-+ℤ a b = ground arith

pos-*ℤ : (a b : ℕ) → pos a *ℤ pos b ≡ pos (a * b)
unfolding ◌*ℤ◌
pos-*ℤ a b = ground arith

whole-grow :
    (x t : ℤ)
    → ltb_ℤ (pos 0) x ≡ true
    → ltb_ℤ t (pos 0) ≡ false
    → ltb_ℤ (x *ℤ (pos 1 +ℤ t)) x ≡ false
whole-grow x (negsuc t) h k = ground arith
whole-grow (negsuc x) (pos t) h k = ground arith
whole-grow (pos x) (pos t) h k = rw (pos-+ℤ 1 t, pos-*ℤ x (1 + t)) (grind arith)

whole-grow_integer :
    (n : ℕ) (t : ℤ) → ltb_ℤ t (pos 0) ≡ false → n ≤ pos_part (pos n *ℤ (pos 1 +ℤ t))
whole-grow_integer n (negsuc t) h = ground arith
whole-grow_integer n (pos t) h = rw (pos-+ℤ 1 t, pos-*ℤ n (1 + t)) (grind arith)

pub whole-Scaling : Scaling whole
whole-Scaling = record {
  shrink = λ x t h k. whole-shrink x t h k;
  grow = λ x t h k. whole-grow x t h k;
  grow_integer = λ n t small fin h top. whole-grow_integer n t h;
}
