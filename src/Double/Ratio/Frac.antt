-- ===== src/Double/Ratio/Frac.antt =====
-- Fractions (plus - minus) / (den + 1) of natural numbers, and when two are the same number.
pub mod Algebra
use antnet.Common.{
  ℕ, suc, ◌+◌, ◌-◌, ◌*◌, ◌≤◌, ◌<◌, ◌≡◌, refl, sym, ap, inl, inr, Bool, true, false, if◌then◌else◌,
  leb, ltb, arith, Bool-cases,
}
use native.Mathlib.Nat.{mul-le-mul, le_refl}

pub record Fraction : Type 0 where
  pub plus : ℕ
  pub minus : ℕ
  pub den : ℕ

abbrev pub frac : ℕ → ℕ → ℕ → Fraction
frac p n s = record { plus = p; minus = n; den = s }

abbrev pub Same : Fraction → Fraction → Type 0
Same x y = x.plus * suc y.den + y.minus * suc x.den ≡ y.plus * suc x.den + x.minus * suc y.den

abbrev pub times_den : Fraction → Fraction → ℕ
times_den x y = x.den * y.den + x.den + y.den

abbrev pub plus_frac : Fraction → Fraction → Fraction
plus_frac x y =
    frac (x.plus * suc y.den + y.plus * suc x.den) (x.minus * suc y.den + y.minus * suc x.den)
      (times_den x y)

abbrev pub minus_frac : Fraction → Fraction → Fraction
minus_frac x y =
    frac (x.plus * suc y.den + y.minus * suc x.den) (x.minus * suc y.den + y.plus * suc x.den)
      (times_den x y)

abbrev pub times_frac : Fraction → Fraction → Fraction
times_frac x y =
    frac (x.plus * y.plus + x.minus * y.minus) (x.plus * y.minus + x.minus * y.plus) (times_den x y)

-- The reciprocal of a positive fraction; any other has 0.
abbrev pub inverse : Fraction → Fraction
inverse x = if ltb x.minus x.plus then frac (suc x.den) 0 (x.plus - x.minus - 1) else frac 0 0 0

abbrev pub le_frac : Fraction → Fraction → Bool
le_frac x y =
    leb (x.plus * suc y.den + y.minus * suc x.den) (y.plus * suc x.den + x.minus * suc y.den)

module _ (x y z : Fraction) (h : Same x y) where
  pub plus-Same : Same (plus_frac x z) (plus_frac y z)
  plus-Same = omega (arith, ap (λ (t : ℕ). t * (suc z.den * suc z.den)) h)

  pub plus-Same_left : Same (plus_frac z x) (plus_frac z y)
  plus-Same_left = omega (arith, ap (λ (t : ℕ). t * (suc z.den * suc z.den)) h)

  pub minus-Same : Same (minus_frac x z) (minus_frac y z)
  minus-Same = omega (arith, ap (λ (t : ℕ). t * (suc z.den * suc z.den)) h)

  pub minus-Same_left : Same (minus_frac z x) (minus_frac z y)
  minus-Same_left = omega (arith, ap (λ (t : ℕ). t * (suc z.den * suc z.den)) h)

  pub times-Same : Same (times_frac x z) (times_frac y z)
  times-Same = omega (
    arith,
    ap (λ (t : ℕ). t * (z.plus * suc z.den)) h,
    ap (λ (t : ℕ). t * (z.minus * suc z.den)) h,
  )

  pub times-Same_left : Same (times_frac z x) (times_frac z y)
  times-Same_left = omega (
    arith,
    ap (λ (t : ℕ). t * (z.plus * suc z.den)) h,
    ap (λ (t : ℕ). t * (z.minus * suc z.den)) h,
  )

-- Two numbers with a common positive factor compare as without it.
pub le_cancel : (a b c : ℕ) → a * suc c ≤ b * suc c → a ≤ b
le_cancel a b c h = grind arith

leb_congr : (a b a' b' : ℕ) → (a ≤ b → a' ≤ b') → (a' ≤ b' → a ≤ b) → leb a b ≡ leb a' b'
leb_congr a b a' b' f g = ground arith

module _ (x y z : Fraction) (h : Same x y) where
  le_forward :
      x.plus * suc z.den + z.minus * suc x.den ≤ z.plus * suc x.den + x.minus * suc z.den
      → y.plus * suc z.den + z.minus * suc y.den ≤ z.plus * suc y.den + y.minus * suc z.den
  le_forward k =
      le_cancel _ _ x.den
        (omega (arith, ap (λ (t : ℕ). t * suc z.den) h, mul-le-mul k (le_refl (suc y.den))))

  le_forward_left :
      z.plus * suc x.den + x.minus * suc z.den ≤ x.plus * suc z.den + z.minus * suc x.den
      → z.plus * suc y.den + y.minus * suc z.den ≤ y.plus * suc z.den + z.minus * suc y.den
  le_forward_left k =
      le_cancel _ _ x.den
        (omega (arith, ap (λ (t : ℕ). t * suc z.den) h, mul-le-mul k (le_refl (suc y.den))))

module _ (x y z : Fraction) (h : Same x y) where
  pub le-Same : le_frac x z ≡ le_frac y z
  le-Same = leb_congr _ _ _ _ (le_forward x y z h) (le_forward y x z (sym h))

  pub le-Same_left : le_frac z x ≡ le_frac z y
  le-Same_left = leb_congr _ _ _ _ (le_forward_left x y z h) (le_forward_left y x z (sym h))

-- Positive fractions.
Same-positive : (x y : Fraction) → Same x y → x.minus < x.plus → y.minus < y.plus
Same-positive x y h k = grind (arith, mul-le-mul k (le_refl (suc y.den)))

inverse_positive :
    (x y : Fraction) (a b : ℕ)
    → x.plus ≡ x.minus + suc a
    → y.plus ≡ y.minus + suc b
    → Same x y
    → suc x.den * suc b ≡ suc y.den * suc a
inverse_positive x y a b e f h =
    omega (arith, ap (λ (t : ℕ). t * suc y.den) e, ap (λ (t : ℕ). t * suc x.den) f)

pub inverse-Same : (x y : Fraction) → Same x y → Same (inverse x) (inverse y)
inverse-Same x y h = elim (Bool-cases (ltb x.minus x.plus)) [
  | inl p ↦
      let q : ltb y.minus y.plus ≡ true = ground (arith, Same-positive x y h) in
      rw (p, q)
        (omega (
          arith,
          inverse_positive x y (x.plus - x.minus - 1) (y.plus - y.minus - 1) (ground arith)
              (ground arith) h,
        ))
  | inr p ↦
      let q : ltb y.minus y.plus ≡ false = ground (arith, Same-positive y x (sym h)) in
      rw (p, q) refl
]
