-- ===== src/Rtable/Sampling.antt =====
-- antnet_rtable.cc, `calc_next`: the sampling loop, in exact arithmetic.
use antnet.Common.{
  ℕ, ◌≡◌, ◌≢◌, refl, ap, inl, inr, ◌==◌, List, [], ◌∷◌, ◌++◌, arith, false, Bool-cases, ==_iff,
}
use antnet.Double.{Double, nought, ◌≼◌, ◌≺◌}
use antnet.Double.Laws
use antnet.Double.Laws.{IsExact}
use antnet.Rtable.{total_excl_parent, sample}

module _ {D : Type 0} ⦃d : Double D⦄ where
  open d use {add}

  -- No probability is negative.
  abbrev pub Weighs : List (ℕ × D) → Type 0
  Weighs [] = Unit {0}
  Weighs ((n, p) ∷ cs) = (nought ≼ p) × Weighs cs

  -- The interval of a candidate: from the sum of the probabilities before it, without the parent's,
  -- to that sum and its own probability.
  pub record Interval (parent : ℕ) (c x : D) (n : ℕ) (cs : List (ℕ × D)) : Type 0 where
    pub before : List (ℕ × D)
    pub prob : D
    pub after : List (ℕ × D)
    pub split : cs ≡ before ++ (n, prob) ∷ after
    pub other : n ≢ parent
    pub from : total_excl_parent parent c before ≼ x
    pub below : x ≺ add (total_excl_parent parent c before) prob

module _ {D : Type 0} ⦃d : Double D⦄ (laws : IsExact D) where
  open d use {add, lt, le}

  pub le-total_excl_parent :
      (parent : ℕ) (c : D) (cs : List (ℕ × D)) → Weighs cs → c ≼ total_excl_parent parent c cs
  unfolding total_excl_parent
  le-total_excl_parent parent c [] w = Laws.le_refl laws c
  le-total_excl_parent parent c ((n, p) ∷ cs) (h, w) = elim (Bool-cases (n == parent)) [
    | inl same ↦ rw same (le-total_excl_parent parent c cs w)
    | inr other ↦ rw other (
        laws.le_trans c (add c p) _ (Laws.le-add_right laws c p h)
          (le-total_excl_parent parent (add c p) cs w))
  ]

  not_lt_of_le : (x y : D) → y ≼ x → lt x y ≡ false
  not_lt_of_le x y h = ground (arith, laws.lt-eq-not-le x y)

  -- If a draw falls into the interval of a candidate, the loop returns that candidate.
  pub sample_of_interval :
      (parent : ℕ) (c x : D) (last n : ℕ) (p : D) (before after : List (ℕ × D))
      → Weighs before
      → n ≢ parent
      → total_excl_parent parent c before ≼ x
      → x ≺ add (total_excl_parent parent c before) p
      → sample parent x c last (before ++ (n, p) ∷ after) ≡ n
  unfolding sample total_excl_parent
  sample_of_interval parent c x last n p [] after w other from below =
      ground (arith, ==_iff n parent)
  sample_of_interval parent c x last n p ((m, q) ∷ before) after (h, w) other from below =
      elim (Bool-cases (m == parent)) [
        | inl same ↦ rw same (
            sample_of_interval parent c x last n p before after w other (rw same at from)
              (rw same at below))
        | inr miss ↦
            let from' = rw miss at from in
            let above =
              laws.le_trans (add c q) _ x (le-total_excl_parent parent (add c q) before w) from' in
            rw (miss, not_lt_of_le x (add c q) above)
              (sample_of_interval parent (add c q) x m n p before after w other from'
                (rw miss at below))
      ]

  Interval-cons :
      (parent : ℕ) (c c' x : D) (m : ℕ) (q : D) (n : ℕ) (cs : List (ℕ × D))
      → ((b : List (ℕ × D))
          → total_excl_parent parent c ((m, q) ∷ b) ≡ total_excl_parent parent c' b)
      → Interval parent c' x n cs
      → Interval parent c x n ((m, q) ∷ cs)
  Interval-cons parent c c' x m q n cs step i = record {
    before = (m, q) ∷ i.before;
    prob = i.prob;
    after = i.after;
    split = ap (◌∷◌ (m, q)) i.split;
    other = i.other;
    from = rw (step i.before) i.from;
    below = rw (step i.before) i.below;
  }

  -- In exact arithmetic, a draw that is not below `c` and below the sum of `c` and all probabilities
  -- but the parent's makes the loop return a candidate other than the parent, into whose interval the
  -- draw falls: from `c` and the probabilities before it on, and as long as its own probability.
  pub sample-Interval :
      (parent : ℕ) (c x : D) (last : ℕ) (cs : List (ℕ × D))
      → c ≼ x
      → x ≺ total_excl_parent parent c cs
      → Interval parent c x (sample parent x c last cs) cs
  unfolding sample total_excl_parent
  sample-Interval parent c x last [] from below = absurd (ground (arith, laws.lt-eq-not-le x c))
  sample-Interval parent c x last ((m, q) ∷ cs) from below = elim (Bool-cases (m == parent)) [
    | inl same ↦ rw same (
        Interval-cons parent c c x m q _ cs (λ b. rw same)
          (sample-Interval parent c x last cs from (rw same at below)))
    | inr miss ↦ elim (Bool-cases (lt x (add c q))) [
      | inl hit ↦
          rw (miss, hit)
            (record {
              before = [];
              prob = q;
              after = cs;
              split = refl;
              other = ground (arith, ==_iff m parent);
              from = from;
              below = hit;
            })
      | inr past ↦
          rw (miss, past)
            (Interval-cons parent c (add c q) x m q _ cs (λ b. rw miss)
              (sample-Interval parent (add c q) x m cs
                (ground (arith, laws.lt-eq-not-le x (add c q))) (rw miss at below)))
    ]
  ]
