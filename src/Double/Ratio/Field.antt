-- ===== src/Double/Ratio/Field.antt =====
-- The rational numbers meet the laws of exact arithmetic.
use antnet.Common.{ℕ, zero, suc, ◌≡◌, refl, ◌↔◌, ◌⊎◌, true, ◌||◌, arith, le→leb}
use antnet.Common.Int.{ℤ, pos, negsuc, pred_ℤ}
use antnet.Double.Laws.{IsExact}
use antnet.Double.Ratio.{Ratio, ratio_double, Bool-set}
use antnet.Double.Ratio.Frac.Algebra.{
  plus_assoc, times-plus, times-inverse, le_frac_trans, le_frac-plus, zero-le-times,
}
use antnet.Double.Ratio.Frac.{Fraction}
use mathlib.Core.Quot
use mathlib.Core.Quot.{Quot, Quot-set}
use native.Mathlib.Nat.{le_refl}

-- Induction on one, two and three numbers, into propositions.
ind₁ :
    (P : Ratio → Type 0)
    → ((x : Ratio) → IsProp (P x))
    → ((a : Fraction) → P (Quot.mk a))
    → (x : Ratio) → P x
ind₁ P p f = Quot.ind p f

ind₂ :
    (P : Ratio → Ratio → Type 0)
    → ((x y : Ratio) → IsProp (P x y))
    → ((a b : Fraction) → P (Quot.mk a) (Quot.mk b))
    → (x y : Ratio) → P x y
ind₂ P p f x y =
    ind₁ (λ x. P x y) (λ x. p x y) (λ a. ind₁ (P (Quot.mk a)) (p (Quot.mk a)) (f a) y) x

ind₃ :
    (P : Ratio → Ratio → Ratio → Type 0)
    → ((x y z : Ratio) → IsProp (P x y z))
    → ((a b c : Fraction) → P (Quot.mk a) (Quot.mk b) (Quot.mk c))
    → (x y z : Ratio) → P x y z
ind₃ P p f x y z =
    ind₂ (λ x y. P x y z) (λ x y. p x y z)
      (λ a b. ind₁ (P (Quot.mk a) (Quot.mk b)) (p (Quot.mk a) (Quot.mk b)) (f a b) z) x y

open ratio_double use {add, sub, mul, div, le, lt, eq, of_int, ratio}

ratio-add_comm : (a b : Ratio) → add a b ≡ add b a
ratio-add_comm = ind₂ _ (λ a b. Quot-set _ _) (λ a b. Quot.sound (omega arith))

ratio-add_assoc : (a b c : Ratio) → add (add a b) c ≡ add a (add b c)
ratio-add_assoc = ind₃ _ (λ a b c. Quot-set _ _) (λ a b c. Quot.sound (plus_assoc a b c))

ratio-zero-add : (a : Ratio) → add (of_int (pos 0)) a ≡ a
ratio-zero-add = ind₁ _ (λ a. Quot-set _ _) (λ a. Quot.sound (omega arith))

ratio-sub-add : (a b : Ratio) → add (sub a b) b ≡ a
ratio-sub-add = ind₂ _ (λ a b. Quot-set _ _) (λ a b. Quot.sound (omega arith))

ratio-add-sub : (a b : Ratio) → sub (add a b) b ≡ a
ratio-add-sub = ind₂ _ (λ a b. Quot-set _ _) (λ a b. Quot.sound (omega arith))

ratio-mul_comm : (a b : Ratio) → mul a b ≡ mul b a
ratio-mul_comm = ind₂ _ (λ a b. Quot-set _ _) (λ a b. Quot.sound (omega arith))

ratio-mul_assoc : (a b c : Ratio) → mul (mul a b) c ≡ mul a (mul b c)
ratio-mul_assoc = ind₃ _ (λ a b c. Quot-set _ _) (λ a b c. Quot.sound (omega arith))

ratio-one-mul : (a : Ratio) → mul (of_int (pos 1)) a ≡ a
ratio-one-mul = ind₁ _ (λ a. Quot-set _ _) (λ a. Quot.sound (omega arith))

ratio-mul-add : (a b c : Ratio) → mul a (add b c) ≡ add (mul a b) (mul a c)
ratio-mul-add = ind₃ _ (λ a b c. Quot-set _ _) (λ a b c. Quot.sound (times-plus a b c))

ratio-div-mul : (a b : Ratio) → lt (of_int (pos 0)) b ≡ true → mul (div a b) b ≡ a
ratio-div-mul =
    ind₂ (λ a b. lt (of_int (pos 0)) b ≡ true → mul (div a b) b ≡ a)
      (λ a b. hlevel (Quot-set (mul (div a b) b) a))
      (λ a b h. Quot.sound (times-inverse a b (ground arith)))

ratio-le_trans : (a b c : Ratio) → le a b ≡ true → le b c ≡ true → le a c ≡ true
ratio-le_trans =
    ind₃ (λ a b c. le a b ≡ true → le b c ≡ true → le a c ≡ true) (λ a b c. hlevel)
      (λ a b c. le_frac_trans a b c)

ratio-le_antisymm : (a b : Ratio) → le a b ≡ true → le b a ≡ true → a ≡ b
ratio-le_antisymm =
    ind₂ (λ a b. le a b ≡ true → le b a ≡ true → a ≡ b) (λ a b. hlevel (Quot-set a b))
      (λ a b h k. Quot.sound (ground arith))

ratio-add_mono : (a b c : Ratio) → le a b ≡ true → le (add a c) (add b c) ≡ true
ratio-add_mono =
    ind₃ (λ a b c. le a b ≡ true → le (add a c) (add b c) ≡ true) (λ a b c. hlevel)
      (λ a b c. le_frac-plus a b c)

ratio-mul_nonneg :
    (a b : Ratio)
    → le (of_int (pos 0)) a ≡ true
    → le (of_int (pos 0)) b ≡ true
    → le (of_int (pos 0)) (mul a b) ≡ true
ratio-mul_nonneg =
    ind₂
      (λ a b.
        le (of_int (pos 0)) a ≡ true
        → le (of_int (pos 0)) b ≡ true
        → le (of_int (pos 0)) (mul a b) ≡ true)
      (λ a b. hlevel) (λ a b. zero-le-times a b)

ratio-of_int-pred : (z : ℤ) → of_int (pred_ℤ z) ≡ sub (of_int z) (of_int (pos 1))
ratio-of_int-pred (pos zero) = Quot.sound (omega arith)
ratio-of_int-pred (pos (suc n)) = Quot.sound (omega arith)
ratio-of_int-pred (negsuc n) = Quot.sound (omega arith)

ratio-le_or : (a b : Ratio) → (le a b || le b a) ≡ true
ratio-le_or = ind₂ (λ a b. (le a b || le b a) ≡ true) (λ a b. Bool-set _ _) (λ a b. ground arith)

ratio-le_total : (a b : Ratio) → (le a b ≡ true) ⊎ (le b a ≡ true)
ratio-le_total a b = ground (arith, ratio-le_or a b)

ratio-le_refl : (a : Ratio) → le a a ≡ true
ratio-le_refl = ind₁ _ (λ a. Bool-set _ _) (λ a. le→leb _ _ (le_refl _))

ratio-eq_iff : (a b : Ratio) → (eq a b ≡ true) ↔ (a ≡ b)
ratio-eq_iff a b = (
  λ h. ratio-le_antisymm a b (ground arith) (ground arith),
  λ e. rw e (rw (ratio-le_refl b) refl),
)

ratio-ratio_nonneg : (p q : ℕ) → le (of_int (pos 0)) (ratio p q) ≡ true
ratio-ratio_nonneg p zero = refl
ratio-ratio_nonneg p (suc q) = ground arith

pub Ratio-IsExact : IsExact Ratio
Ratio-IsExact = record {
  add_comm = ratio-add_comm;
  add_assoc = ratio-add_assoc;
  zero-add = ratio-zero-add;
  sub-add = ratio-sub-add;
  add-sub = ratio-add-sub;
  mul_comm = ratio-mul_comm;
  mul_assoc = ratio-mul_assoc;
  one-mul = ratio-one-mul;
  mul-add = ratio-mul-add;
  div-mul = ratio-div-mul;
  le_trans = ratio-le_trans;
  le_antisymm = ratio-le_antisymm;
  le_total = ratio-le_total;
  lt-eq-not-le = λ a b. refl;
  eq_iff = ratio-eq_iff;
  add_mono = ratio-add_mono;
  mul_nonneg = ratio-mul_nonneg;
  one_pos = ground arith;
  of_int-suc = λ n. Quot.sound (omega arith);
  of_int-pred = ratio-of_int-pred;
  ratio_nonneg = ratio-ratio_nonneg;
}
