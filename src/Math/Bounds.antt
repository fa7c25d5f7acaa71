-- ===== src/Math/Bounds.antt =====
-- antnet_math.h: one link's value, in exact arithmetic.
use antnet.Common.{ℕ, suc, ◌≡◌, sym, ap, ◌∙◌, arith}
use antnet.Common.Int.{pos}
use antnet.Double.{Double, nought, one, ◌≼◌, ◌≺◌}
use antnet.Double.Laws
use antnet.Double.Laws.{IsExact}
use antnet.Math.{link_probability, reinforce_pheromone, evaporate_pheromone}

module _ {D : Type 0} ⦃d : Double D⦄ (laws : IsExact D) where
  open d use {of_int, add, sub, mul, div}

  -- Reinforcing is evaporating and then adding the factor.
  pub reinforce-eq-evaporate : (p r : D) → reinforce_pheromone p r ≡ add (evaporate_pheromone p r) r
  unfolding reinforce_pheromone evaporate_pheromone
  reinforce-eq-evaporate p r = Laws.add_cancel laws (mul r p) (
      laws.add_assoc p (mul r (sub one p)) (mul r p)
      ∙ ap (add p) (Laws.mul-sub laws r one p ∙ Laws.mul-one laws r)
      ∙ sym (
          laws.add_assoc (mul (sub one r) p) r (mul r p)
          ∙ ap (add (mul (sub one r) p)) (laws.add_comm r (mul r p))
          ∙ sym (laws.add_assoc (mul (sub one r) p) (mul r p) r)
          ∙ ap (λ t. add t r) (Laws.sub-mul laws one r p ∙ laws.one-mul p)))

  -- For pheromones and factors in [0, 1] both updates stay in [0, 1], reinforcing never lowers the
  -- pheromone and evaporating never raises it.
  pub pheromone_bounds :
      (p r : D)
      → nought ≼ p
      → p ≼ one
      → nought ≼ r
      → r ≼ one
      → (p ≼ reinforce_pheromone p r)
        × (reinforce_pheromone p r ≼ one)
        × (nought ≼ evaporate_pheromone p r)
        × (evaporate_pheromone p r ≼ p)
  unfolding reinforce_pheromone evaporate_pheromone
  pheromone_bounds p r p0 p1 r0 r1 = (
    Laws.le-add_right laws p (mul r (sub one p)) (laws.mul_nonneg r (sub one p) r0 gap),
    rw (laws.add_comm (mul r (sub one p)) p, laws.sub-add one p) at
        (laws.add_mono (mul r (sub one p)) (sub one p) p
          (Laws.mul-le_self laws r (sub one p) r1 gap)),
    laws.mul_nonneg (sub one r) p (Laws.sub_nonneg laws r one r1) p0,
    Laws.mul-le_self laws (sub one r) p (Laws.sub-le_self laws one r r0) p0,
  )
    where
      gap : nought ≼ sub one p
      gap = Laws.sub_nonneg laws p one p1

  -- The denominator of `link_probability` for `n + 1` neighbours.
  weight_pos : (alpha : D) (n : ℕ) → nought ≼ alpha → nought ≺ add one (mul alpha (of_int (pos n)))
  weight_pos alpha n h = Laws.lt_le_trans laws nought one _ laws.one_pos (
      Laws.le-add_right laws one (mul alpha (of_int (pos n)))
        (laws.mul_nonneg alpha (of_int (pos n)) h (Laws.of_int_nonneg laws n)))

  -- With at least one neighbour, a weight that is not negative and a queue no longer than the
  -- positive total, the probability is not negative, and it is at least the pheromone's share.
  pub link_probability_bounds :
      (p alpha q total : D) (n : ℕ)
      → nought ≼ p
      → nought ≼ alpha
      → q ≼ total
      → nought ≺ total
      → let share = div p (add one (mul alpha (of_int (pos n)))) in
        (share ≼ link_probability p alpha q total (pos (suc n)))
        × (nought ≼ link_probability p alpha q total (pos (suc n)))
  unfolding link_probability
  link_probability_bounds p alpha q total n p0 a0 qt t0 =
      let weight = add one (mul alpha (of_int (pos n))) in
      let bonus = mul alpha (sub one (div q total)) in
      let bonus0 : nought ≼ bonus =
        laws.mul_nonneg alpha (sub one (div q total)) a0
          (Laws.sub_nonneg laws (div q total) one (Laws.div-le-one laws q total t0 qt)) in
      let above : div p weight ≼ div (add p bonus) weight =
        Laws.div_mono laws p (add p bonus) weight (weight_pos alpha n a0)
          (Laws.le-add_right laws p bonus bonus0) in
      (
        above,
        laws.le_trans nought (div p weight) _
            (Laws.div_nonneg laws p weight (weight_pos alpha n a0) p0) above,
      )

  -- In exact arithmetic, with a positive weight `alpha` of the heuristic, a positive sum of the queue
  -- lengths and at least one neighbour, of two links with the same pheromone the one with the shorter
  -- queue is strictly more probable.
  pub link_probability-shorter :
      (p alpha q longer total : D) (n : ℕ)
      → nought ≺ alpha
      → nought ≺ total
      → q ≺ longer
      → link_probability p alpha longer total (pos (suc n))
        ≺ link_probability p alpha q total (pos (suc n))
  unfolding link_probability
  link_probability-shorter p alpha q longer total n a0 t0 short =
      ground (arith, laws.lt-eq-not-le (prob longer) (prob q), laws.lt-eq-not-le q longer, back)
    where
      weight : D
      weight = add one (mul alpha (of_int (pos n)))

      prob : D → D
      prob x = div (add p (mul alpha (sub one (div x total)))) weight

      back : prob q ≼ prob longer → longer ≼ q
      back h =
          let sums =
            Laws.le_of_div-le laws _ _ weight (weight_pos alpha n (Laws.lt→le laws nought alpha a0))
              h in
          let bonuses = Laws.le_of_add-le laws _ _ p (
            rw
              (
                laws.add_comm (mul alpha (sub one (div q total))) p,
                laws.add_comm (mul alpha (sub one (div longer total))) p,
              )
              sums) in
          let gaps = Laws.le_of_mul-le laws _ _ alpha a0 (
            rw
              (
                laws.mul_comm (sub one (div q total)) alpha,
                laws.mul_comm (sub one (div longer total)) alpha,
              )
              bonuses) in
          Laws.le_of_div-le laws longer q total t0
            (Laws.le_of_sub-le laws (div q total) (div longer total) one gaps)
