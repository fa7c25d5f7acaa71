-- ===== src/Rtable/Probability.antt =====
-- antnet_rtable.cc, `calc_next`: the selection probabilities of a row, in exact arithmetic.
use antnet.Common.{ℕ, suc, ◌≡◌, refl, sym, ap, ◌∙◌, List, [], ◌∷◌, length, arith, true, false}
use mathlib.Core.Path.{ap₂}
use antnet.Common.Int.{pos, pred_ℤ}
use antnet.Double.{Double, nought, one, ◌≺◌}
use antnet.Double.Laws
use antnet.Double.Laws.{IsExact}
use antnet.Math.{link_probability}
use antnet.Rtable.{PheromoneMatrix, alpha, queue_lens, total_queue, probs, candidates}
use antnet.Rtable.Update.{phsum}
use antnet.Rtable.Invariant.{IsStochastic}

module _ {D : Type 0} ⦃d : Double D⦄ where
  open d use {of_int, add, sub, mul, div}

  abbrev pub dsum : List D → D
  dsum [] = nought
  dsum (q ∷ qs) = add q (dsum qs)

  abbrev pub prob_sum : List (ℕ × D) → D
  prob_sum [] = nought
  prob_sum ((n, p) ∷ cs) = add p (prob_sum cs)

  -- The heuristic's sum: each link's share of the queue, taken from one.
  abbrev slack : D → List D → D
  slack total [] = nought
  slack total (q ∷ qs) = add (sub one (div q total)) (slack total qs)

  -- The denominator for `n` neighbours.
  abbrev pub weight : ℕ → D
  weight n = add one (mul alpha (of_int (pred_ℤ (pos n))))

  -- The queue lengths that `calc_next` looks up, and their sum.
  abbrev pub queue_sum : (ℕ → ℕ → ℕ) → ℕ → PheromoneMatrix D → D
  queue_sum queue source [] = nought
  queue_sum queue source (e ∷ row) =
      add (of_int (pos (queue source e.neighbor))) (queue_sum queue source row)

  queue_sum-dsum :
      (queue : ℕ → ℕ → ℕ) (source : ℕ) (row : PheromoneMatrix D)
      → dsum (queue_lens queue source row) ≡ queue_sum queue source row
  unfolding queue_lens
  queue_sum-dsum queue source [] = refl
  queue_sum-dsum queue source (e ∷ row) =
      ap (add (of_int (pos (queue source e.neighbor)))) (queue_sum-dsum queue source row)

  length-queue_lens :
      (queue : ℕ → ℕ → ℕ) (source : ℕ) (row : PheromoneMatrix D)
      → length (queue_lens queue source row) ≡ length row
  unfolding queue_lens
  length-queue_lens queue source [] = refl
  length-queue_lens queue source (e ∷ row) = ap suc (length-queue_lens queue source row)

module _ {D : Type 0} ⦃d : Double D⦄ (laws : IsExact D) where
  open d use {of_int, add, sub, mul, div, eq}

  total_queue-dsum : (acc : D) (qs : List D) → total_queue acc qs ≡ add acc (dsum qs)
  unfolding total_queue
  total_queue-dsum acc [] = sym (Laws.add-zero laws acc)
  total_queue-dsum acc (q ∷ qs) = total_queue-dsum (add acc q) qs ∙ laws.add_assoc acc q (dsum qs)

  slack-dsum :
      (total : D) (qs : List D)
      → nought ≺ total
      → add (slack total qs) (div (dsum qs) total) ≡ of_int (pos (length qs))
  slack-dsum total [] h = laws.zero-add _ ∙ Laws.zero-div laws total h
  slack-dsum total (q ∷ qs) h =
      ap (add (slack total (q ∷ qs))) (sym (Laws.div-add laws q (dsum qs) total h))
      ∙ Laws.add_interchange laws _ _ _ _
      ∙ ap₂ add (laws.sub-add one (div q total)) (slack-dsum total qs h)
      ∙ sym (laws.of_int-suc (length qs))

  pub weight_pos : (n : ℕ) → d.lt nought (weight (suc n)) ≡ true
  weight_pos n = Laws.lt_le_trans laws nought one _ laws.one_pos (
      Laws.le-add_right laws one _
        (laws.mul_nonneg alpha _ (laws.ratio_nonneg 45 100) (Laws.of_int_nonneg laws n)))

  prob_sum-probs :
      (queue : ℕ → ℕ → ℕ) (source : ℕ) (total : D) (n : ℕ) (row : PheromoneMatrix D)
      → d.lt nought (weight n) ≡ true
      → prob_sum (probs total n row (queue_lens queue source row))
        ≡ div (add (phsum row) (mul alpha (slack total (queue_lens queue source row)))) (weight n)
  unfolding probs queue_lens link_probability
  prob_sum-probs queue source total n [] h = sym (
      ap (λ t. div t (weight n))
        (laws.zero-add _ ∙ laws.mul_comm alpha nought ∙ Laws.zero-mul laws alpha)
      ∙ Laws.zero-div laws (weight n) h)
  prob_sum-probs queue source total n (e ∷ row) h =
      ap (add (link_probability e.phvalue alpha _ total (pos n)))
        (prob_sum-probs queue source total n row h)
      ∙ Laws.div-add laws _ _ (weight n) h
      ∙ ap (λ t. div t (weight n))
          (Laws.add_interchange laws _ _ _ _
            ∙ ap (add (phsum (e ∷ row))) (sym (laws.mul-add alpha _ _)))

  -- The sum of the selection probabilities, for a divisor of the queue lengths.
  prob_sum-slack :
      (queue : ℕ → ℕ → ℕ) (source : ℕ) (total s : D) (n : ℕ) (row : PheromoneMatrix D)
      → length row ≡ suc n
      → phsum row ≡ one
      → nought ≺ total
      → add s (div (queue_sum queue source row) total) ≡ of_int (pos (suc n))
      → prob_sum (probs total (suc n) row (queue_lens queue source row))
        ≡ div (add one (mul alpha s)) (weight (suc n))
  prob_sum-slack queue source total s n row len one_total h e =
      prob_sum-probs queue source total (suc n) row (weight_pos n)
      ∙ ap₂ (λ p t. div (add p (mul alpha t)) (weight (suc n))) one_total
          (Laws.add_cancel laws (div (queue_sum queue source row) total) (
            ap (λ t. add (slack total (queue_lens queue source row)) (div t total))
              (sym (queue_sum-dsum queue source row))
            ∙ slack-dsum total (queue_lens queue source row) h
            ∙ ap (λ k. of_int (pos k)) (length-queue_lens queue source row ∙ len)
            ∙ sym e))

  prob_sums :
      (queue : ℕ → ℕ → ℕ) (source n : ℕ) (row : PheromoneMatrix D)
      → length row ≡ suc n
      → IsStochastic row
      → (nought ≺ queue_sum queue source row → prob_sum (candidates queue source (suc n) row) ≡ one)
        × (queue_sum queue source row ≡ nought
            → prob_sum (candidates queue source (suc n) row)
              ≡ div (add one (mul alpha (of_int (pos (suc n))))) (weight (suc n)))
  unfolding candidates
  prob_sums queue source n row len s = (busy, idle)
    where
      sum : D
      sum = total_queue nought (queue_lens queue source row)

      sum_lem : sum ≡ queue_sum queue source row
      sum_lem =
          total_queue-dsum nought (queue_lens queue source row)
          ∙ laws.zero-add _
          ∙ queue_sum-dsum queue source row

      busy :
          nought ≺ queue_sum queue source row → prob_sum (candidates queue source (suc n) row) ≡ one
      busy h = rw nonzero (
          prob_sum-slack queue source sum (of_int (pos n)) n row len s.total positive (
            ap (λ t. add (of_int (pos n)) (div t sum)) (sym sum_lem)
            ∙ ap (add (of_int (pos n))) (Laws.div_self laws sum positive)
            ∙ laws.add_comm (of_int (pos n)) one
            ∙ sym (laws.of_int-suc n))
          ∙ Laws.div_self laws (weight (suc n)) (weight_pos n))
        where
          positive : nought ≺ sum
          positive = rw sum_lem h

          nonzero : eq sum nought ≡ false
          nonzero = ground (
            arith,
            laws.eq_iff sum nought,
            Laws.not_le_of_lt laws nought sum positive,
            Laws.le_refl laws nought,
            λ (e : sum ≡ nought). ap (λ t. d.le t nought) e,
          )

      idle :
          queue_sum queue source row ≡ nought
          → prob_sum (candidates queue source (suc n) row)
            ≡ div (add one (mul alpha (of_int (pos (suc n))))) (weight (suc n))
      idle e = rw zero (
          prob_sum-slack queue source one (of_int (pos (suc n))) n row len s.total laws.one_pos (
            ap (λ t. add (of_int (pos (suc n))) (div t one)) e
            ∙ ap (add (of_int (pos (suc n)))) (Laws.zero-div laws one laws.one_pos)
            ∙ Laws.add-zero laws (of_int (pos (suc n)))))
        where
          zero : eq sum nought ≡ true
          zero = (laws.eq_iff sum nought).1 (sum_lem ∙ e)

  -- In exact arithmetic, at a node with `n + 1` neighbours, for a row of as many links whose pheromones
  -- are a distribution: if any queue is not empty, the selection probabilities of all links sum to one.
  pub prob_sum-candidates :
      (queue : ℕ → ℕ → ℕ) (source n : ℕ) (row : PheromoneMatrix D)
      → length row ≡ suc n
      → IsStochastic row
      → nought ≺ queue_sum queue source row
      → prob_sum (candidates queue source (suc n) row) ≡ one
  prob_sum-candidates queue source n row len s = (prob_sums queue source n row len s).0

  -- If all queues are empty, the divisor 1.0 that `calc_next` puts in makes the probabilities sum to
  -- (1 + alpha (n + 1)) / (1 + alpha n).
  pub prob_sum_idle :
      (queue : ℕ → ℕ → ℕ) (source n : ℕ) (row : PheromoneMatrix D)
      → length row ≡ suc n
      → IsStochastic row
      → queue_sum queue source row ≡ nought
      → prob_sum (candidates queue source (suc n) row)
        ≡ div (add one (mul alpha (of_int (pos (suc n))))) (weight (suc n))
  prob_sum_idle queue source n row len s = (prob_sums queue source n row len s).1
