-- ===== src/Rtable/Update.antt =====
-- antnet_rtable.cc, `update`: the sum and the bounds of the pheromones of a row.
use antnet.Common.{
  ℕ, suc, ◌≡◌, refl, sym, ap, ◌∙◌, ◌==◌, if◌then◌else◌, List, [], ◌∷◌, arith, inl, inr, Bool-cases,
}
use mathlib.Core.Path.{ap₂}
use antnet.Double.{Double, nought, one, ◌≼◌}
use antnet.Double.Laws
use antnet.Double.Laws.{IsExact, times}
use antnet.Math.{reinforce_pheromone, evaporate_pheromone}
use antnet.Math.Bounds.{reinforce-eq-evaporate, pheromone_bounds}
use antnet.Rtable.{PheromoneMatrix, update_link, update_row}

-- How many links of the row lead to `next`.
abbrev pub hits : ℕ → List ℕ → ℕ
hits next [] = 0
hits next (n ∷ ns) = if n == next then suc (hits next ns) else hits next ns

module _ {D : Type 0} where
  abbrev pub neighbors_of : PheromoneMatrix D → List ℕ
  neighbors_of [] = []
  neighbors_of (e ∷ row) = e.neighbor ∷ neighbors_of row

module _ {D : Type 0} ⦃d : Double D⦄ where
  open d use {add, sub, mul}

  abbrev pub phsum : PheromoneMatrix D → D
  phsum [] = nought
  phsum (e ∷ row) = add e.phvalue (phsum row)

  abbrev pub InUnit : D → Type 0
  InUnit p = (nought ≼ p) × (p ≼ one)

  abbrev pub AllInUnit : PheromoneMatrix D → Type 0
  AllInUnit [] = Unit {0}
  AllInUnit (e ∷ row) = InUnit e.phvalue × AllInUnit row

  -- The links themselves stay.
  pub neighbors_of-update_row :
      (next : ℕ) (r : D) (row : PheromoneMatrix D)
      → neighbors_of (update_row next r row) ≡ neighbors_of row
  unfolding update_row update_link
  neighbors_of-update_row next r [] = refl
  neighbors_of-update_row next r (e ∷ row) =
      ap (◌∷◌ e.neighbor) (neighbors_of-update_row next r row)

module _ {D : Type 0} ⦃d : Double D⦄ (laws : IsExact D) where
  open d use {add, sub, mul}

  -- Evaporation takes the share `r` of the total away, and each travelled link gets `r`.
  pub phsum-update_row :
      (next : ℕ) (r : D) (row : PheromoneMatrix D)
      → phsum (update_row next r row)
        ≡ add (mul (sub one r) (phsum row)) (times laws (hits next (neighbors_of row)) r)
  unfolding update_row update_link evaporate_pheromone
  phsum-update_row next r [] = sym (
      ap (λ t. add t (times laws 0 r)) (laws.mul_comm (sub one r) nought ∙ Laws.zero-mul laws _)
      ∙ laws.zero-add (times laws 0 r)
      ∙ Laws.zero-mul laws r)
  phsum-update_row next r (e ∷ row) = elim (Bool-cases (e.neighbor == next)) [
    | inl hit ↦ rw hit (
        ap₂ add (reinforce-eq-evaporate laws e.phvalue r) (phsum-update_row next r row)
        ∙ Laws.add_interchange laws _ _ _ _
        ∙ ap₂ add (sym (laws.mul-add (sub one r) e.phvalue (phsum row)))
            (sym (Laws.times-suc laws (hits next (neighbors_of row)) r)))
    | inr miss ↦ rw miss (
        ap (add (evaporate_pheromone e.phvalue r)) (phsum-update_row next r row)
        ∙ sym (laws.add_assoc _ _ _)
        ∙ ap (λ t. add t (times laws (hits next (neighbors_of row)) r))
            (sym (laws.mul-add (sub one r) e.phvalue (phsum row))))
  ]

  pub AllInUnit-update_row :
      (next : ℕ) (r : D) (row : PheromoneMatrix D)
      → InUnit r
      → AllInUnit row
      → AllInUnit (update_row next r row)
  unfolding update_row update_link
  AllInUnit-update_row next r [] u h = tt
  AllInUnit-update_row next r (e ∷ row) u ((p0, p1), h) =
      let (up, top, low, down) = pheromone_bounds laws e.phvalue r p0 p1 u.0 u.1 in
      (
        ground (
          arith,
          laws.le_trans nought e.phvalue (reinforce_pheromone e.phvalue r) p0 up,
          laws.le_trans (evaporate_pheromone e.phvalue r) e.phvalue one down p1,
        ),
        AllInUnit-update_row next r row u h,
      )
