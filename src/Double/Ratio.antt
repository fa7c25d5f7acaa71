-- ===== src/Double/Ratio.antt =====
-- Exact arithmetic exists: the rational numbers, as a quotient, are an instance of `Double` that
-- meets the laws, and it runs. `sqrt` is the identity, since no law speaks of it.
pub mod Frac
pub mod Field
use antnet.Common.{
  ℕ, zero, suc, ◌≡◌, refl, ◌↔◌, ◌⊎◌, inl, inr, Bool, true, false, not, ◌&&◌, arith, ap, sym,
}
use antnet.Common.Int.{ℤ, pos, negsuc, pred_ℤ}
use antnet.Double.{Double, nought, one}
use antnet.Double.Laws.{IsExact}
use mathlib.Core.Quot
use mathlib.Core.Quot.{Quot, Quot-set}
use native.Mathlib.Nat.{mul-le-mul, le_refl}
use Frac.{
  Fraction, Same, frac, plus_frac, minus_frac, times_frac, inverse, le_frac, plus-Same,
  plus-Same_left, minus-Same, minus-Same_left, times-Same, times-Same_left, inverse-Same, le-Same,
  le-Same_left,
}

abbrev pub Ratio : Type 0
Ratio = Quot Same

abbrev pub rat : ℕ → ℕ → ℕ → Ratio
rat p n s = Quot.mk (frac p n s)

abbrev lift₂ :
    {B : Type 0} (s : IsSet B) (f : Fraction → Fraction → B)
    → ((x y z : Fraction) → Same x y → f x z ≡ f y z)
    → ((x y z : Fraction) → Same x y → f z x ≡ f z y)
    → Ratio
    → Ratio
    → B
lift₂ s f l r x y =
    Quot.lift s (λ a. Quot.lift s (f a) (λ b c h. r b c a h) y)
      (λ a b h.
        Quot.ind
          {β = λ q.
            Quot.lift s (f a) (λ b c h. r b c a h) q ≡ Quot.lift s (f b) (λ c e h. r c e b h) q}
          (λ q. s _ _) (λ c. l a b c h) y)
      x

abbrev plus_ratio : Ratio → Ratio → Ratio
plus_ratio =
    lift₂ Quot-set (λ x y. Quot.mk (plus_frac x y)) (λ x y z h. Quot.sound (plus-Same x y z h))
      (λ x y z h. Quot.sound (plus-Same_left x y z h))

abbrev minus_ratio : Ratio → Ratio → Ratio
minus_ratio =
    lift₂ Quot-set (λ x y. Quot.mk (minus_frac x y)) (λ x y z h. Quot.sound (minus-Same x y z h))
      (λ x y z h. Quot.sound (minus-Same_left x y z h))

abbrev times_ratio : Ratio → Ratio → Ratio
times_ratio =
    lift₂ Quot-set (λ x y. Quot.mk (times_frac x y)) (λ x y z h. Quot.sound (times-Same x y z h))
      (λ x y z h. Quot.sound (times-Same_left x y z h))

abbrev inverse_ratio : Ratio → Ratio
inverse_ratio =
    Quot.lift Quot-set (λ x. Quot.mk (inverse x)) (λ x y h. Quot.sound (inverse-Same x y h))

pub Bool-set : IsSet Bool
Bool-set = hlevel

abbrev le_ratio : Ratio → Ratio → Bool
le_ratio = lift₂ Bool-set le_frac le-Same le-Same_left

abbrev of_int_ratio : ℤ → Ratio
of_int_ratio (pos n) = rat n 0 0
of_int_ratio (negsuc n) = rat 0 (suc n) 0

-- `p / q`, and 0 for `q = 0`.
abbrev quotient : ℕ → ℕ → Ratio
quotient p zero = rat 0 0 0
quotient p (suc q) = rat p 0 q

instance abbrev pub ratio_double : Double Ratio
ratio_double = record {
  of_int = of_int_ratio;
  ratio = quotient;
  add = plus_ratio;
  sub = minus_ratio;
  mul = times_ratio;
  div = λ x y. times_ratio x (inverse_ratio y);
  sqrt = λ x. x;
  lt = λ x y. not (le_ratio y x);
  le = le_ratio;
  eq = λ x y. le_ratio x y && le_ratio y x;
}
