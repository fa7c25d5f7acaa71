-- ===== src/Double/Ratio/Frac/Algebra.antt =====
-- The laws of fractions whose proofs multiply more than two denominators.
use antnet.Common.{ℕ, suc, ◌+◌, ◌-◌, ◌*◌, ◌≤◌, ◌<◌, ◌≡◌, ap, true, ltb, arith, le→leb, leb→le}
use antnet.Double.Ratio.Frac.{
  Fraction, Same, frac, plus_frac, times_frac, inverse, le_frac, le_cancel, times_den,
}
use native.Mathlib.Nat.{mul-le-mul, le_refl}

pub suc-times_den : (x y : Fraction) → suc (times_den x y) ≡ suc x.den * suc y.den
suc-times_den x y = omega arith

-- A fraction is unchanged by a common factor.
Same-scaled :
    (x y : Fraction) (k : ℕ)
    → y.plus ≡ k * x.plus
    → y.minus ≡ k * x.minus
    → suc y.den ≡ k * suc x.den
    → Same x y
Same-scaled x y k p n s = rw (p, n, s) (omega arith)

pub plus_assoc :
    (a b c : Fraction) → Same (plus_frac (plus_frac a b) c) (plus_frac a (plus_frac b c))
plus_assoc a b c =
    Same-scaled (plus_frac (plus_frac a b) c) (plus_frac a (plus_frac b c)) 1 (omega arith)
      (omega arith) (omega arith)

pub times-plus :
    (a b c : Fraction)
    → Same (times_frac a (plus_frac b c)) (plus_frac (times_frac a b) (times_frac a c))
times-plus a b c =
    Same-scaled (times_frac a (plus_frac b c)) (plus_frac (times_frac a b) (times_frac a c))
      (suc a.den) (omega arith) (omega arith) (omega arith)

times-reciprocal :
    (a b : Fraction) (j : ℕ)
    → b.plus ≡ b.minus + suc j
    → Same (times_frac (times_frac a (frac (suc b.den) 0 j)) b) a
times-reciprocal a b j e = omega (
  arith,
  ap (λ (t : ℕ). t * (a.plus * suc b.den * suc a.den)) e,
  ap (λ (t : ℕ). t * (a.minus * suc b.den * suc a.den)) e,
)

pub times-inverse :
    (a b : Fraction) → b.minus < b.plus → Same (times_frac (times_frac a (inverse b)) b) a
times-inverse a b h =
    let p : ltb b.minus b.plus ≡ true = ground arith in
    rw p (times-reciprocal a b (b.plus - b.minus - 1) (omega arith))

pub le_frac_trans :
    (a b c : Fraction) → le_frac a b ≡ true → le_frac b c ≡ true → le_frac a c ≡ true
le_frac_trans a b c h k = le→leb _ _ (
    le_cancel _ _ b.den (
      omega (
        arith,
        mul-le-mul (leb→le _ _ h) (le_refl (suc c.den)),
        mul-le-mul (leb→le _ _ k) (le_refl (suc a.den)),
      )))

pub le_frac-plus :
    (a b c : Fraction) → le_frac a b ≡ true → le_frac (plus_frac a c) (plus_frac b c) ≡ true
le_frac-plus a b c h =
    le→leb _ _ (omega (arith, mul-le-mul (leb→le _ _ h) (le_refl (suc c.den * suc c.den))))

rearrange : (p n q m : ℕ) → n ≤ p → m ≤ q → p * m + n * q ≤ p * q + n * m
rearrange p n q m u v = gap (p - n) (omega arith)
  where
    gap : (x : ℕ) → p ≡ n + x → p * m + n * q ≤ p * q + n * m
    gap x e =
        omega (arith, ap (λ (t : ℕ). t * q) e, ap (λ (t : ℕ). t * m) e, mul-le-mul (le_refl x) v)

pub zero-le-times :
    (a b : Fraction)
    → le_frac (frac 0 0 0) a ≡ true
    → le_frac (frac 0 0 0) b ≡ true
    → le_frac (frac 0 0 0) (times_frac a b) ≡ true
zero-le-times a b h k = le→leb _ _ (
    omega (
      arith,
      rearrange a.plus a.minus b.plus b.minus (omega (arith, leb→le _ _ h))
          (omega (arith, leb→le _ _ k)),
    ))
