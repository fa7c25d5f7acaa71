-- ===== src/Double.antt =====
-- The `double` operations that the code uses, as an interface: the functions of the model take the
-- type and its operations as an instance. A statement with no further hypothesis holds of IEEE
-- arithmetic too; one that rests on `Double.Laws.IsExact` is about exact arithmetic, which the
-- doubles approximate.
pub mod Laws
pub mod Ratio
use antnet.Common.{ℕ, ◌≡◌, Bool, true}
use antnet.Common.Int.{ℤ, pos}

pub record Double (D : Type 0) : Type 0 where
  -- the conversion from `int`
  pub of_int : ℤ → D
  -- a decimal literal, as a quotient of two numbers: 0.45 is `ratio 45 100`
  pub ratio : ℕ → ℕ → D
  pub add : D → D → D
  pub sub : D → D → D
  pub mul : D → D → D
  pub div : D → D → D
  pub sqrt : D → D
  pub lt : D → D → Bool
  pub le : D → D → Bool
  pub eq : D → D → Bool

module _ {D : Type 0} ⦃d : Double D⦄ where
  -- 0.0 and 1.0
  abbrev pub nought : D
  nought = d.of_int (pos 0)

  abbrev pub one : D
  one = d.of_int (pos 1)

  infix 4 ◌≼◌ ◌≺◌
  abbrev pub ◌≼◌ : D → D → Type 0
  x ≼ y = d.le x y ≡ true

  abbrev pub ◌≺◌ : D → D → Type 0
  x ≺ y = d.lt x y ≡ true
