-- ===== src/Math.antt =====
-- antnet_math.h: the pheromone update and the selection probability.
pub mod Bounds
mod Tests
use antnet.Common.Int.{ℤ, pred_ℤ}
use antnet.Double.{Double, one}

module _ {D : Type 0} ⦃d : Double D⦄ where
  open d use {of_int, add, sub, mul, div}

  unfoldable pub link_probability : D → D → D → D → ℤ → D
  link_probability phvalue alpha link_queue total_queue num_neighbors =
      div (add phvalue (mul alpha (sub one (div link_queue total_queue))))
        (add one (mul alpha (of_int (pred_ℤ num_neighbors))))

  unfoldable pub reinforce_pheromone : D → D → D
  reinforce_pheromone old_phvalue r = add old_phvalue (mul r (sub one old_phvalue))

  unfoldable pub evaporate_pheromone : D → D → D
  evaporate_pheromone old_phvalue r = mul (sub one r) old_phvalue
