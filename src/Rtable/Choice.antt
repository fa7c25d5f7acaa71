-- ===== src/Rtable/Choice.antt =====
-- antnet_rtable.cc, `calc_next`: which node it returns.
use antnet.Common.{
  ℕ, ◌≡◌, ◌≢◌, refl, ap, ◌⊎◌, inl, inr, if◌then◌else◌, Option, none, some, List, [], ◌∷◌, arith,
  Has, Bool-cases, Option-cases, true, false,
}
use antnet.Common.Map.{find}
use antnet.Double.{Double, nought}
use antnet.Rtable.{
  Rng, AntnetRtable, PheromoneMatrix, queue_lens, probs, candidates, total_excl_parent, sample,
  calc_next,
}
use antnet.Rtable.Update.{neighbors_of}

-- Some candidate is not the parent.
abbrev pub HasOther : ℕ → List ℕ → Type 0
HasOther parent [] = ⊥
HasOther parent (n ∷ ns) = (n ≢ parent) ⊎ HasOther parent ns

module _ {D : Type 0} where
  abbrev pub nodes_of : List (ℕ × D) → List ℕ
  nodes_of [] = []
  nodes_of ((n, p) ∷ cs) = n ∷ nodes_of cs

module _ {D : Type 0} ⦃d : Double D⦄ where
  open d use {add, le, lt}

  -- A neighbour other than the parent, or what stands for the last candidate.
  sample-Has :
      (parent : ℕ) (x c : D) (last : ℕ) (cs : List (ℕ × D))
      → let n = sample parent x c last cs in (n ≡ last) ⊎ (Has n (nodes_of cs) × (n ≢ parent))
  unfolding sample
  sample-Has parent x c last [] = inl refl
  sample-Has parent x c last ((n, p) ∷ cs) =
      ground (arith, sample-Has parent x c last cs, sample-Has parent x (add c p) n cs)

  sample-ne-parent :
      (parent : ℕ) (x c : D) (last : ℕ) (cs : List (ℕ × D))
      → last ≢ parent
      → sample parent x c last cs ≢ parent
  unfolding sample
  sample-ne-parent parent x c last [] h = h
  sample-ne-parent parent x c last ((n, p) ∷ cs) h =
      ground
        (arith, sample-ne-parent parent x c last cs h, sample-ne-parent parent x (add c p) n cs)

  sample-HasOther :
      (parent : ℕ) (x c : D) (last : ℕ) (cs : List (ℕ × D))
      → HasOther parent (nodes_of cs)
      → sample parent x c last cs ≢ parent
  unfolding sample
  sample-HasOther parent x c last [] h = absurd h
  sample-HasOther parent x c last ((n, p) ∷ cs) h =
      ground (arith, sample-HasOther parent x c last cs, sample-ne-parent parent x (add c p) n cs)

  -- The parent alone adds nothing.
  total-others :
      (parent : ℕ) (t : D) (cs : List (ℕ × D))
      → HasOther parent (nodes_of cs) ⊎ (total_excl_parent parent t cs ≡ t)
  unfolding total_excl_parent
  total-others parent t [] = inr refl
  total-others parent t ((n, p) ∷ cs) = ground (arith, total-others parent t cs)

  nodes_of-probs :
      (queue : ℕ → ℕ → ℕ) (source : ℕ) (q : D) (num : ℕ) (row : PheromoneMatrix D)
      → nodes_of (probs q num row (queue_lens queue source row)) ≡ neighbors_of row
  unfolding probs queue_lens
  nodes_of-probs queue source q num [] = refl
  nodes_of-probs queue source q num (e ∷ row) =
      ap (◌∷◌ e.neighbor) (nodes_of-probs queue source q num row)

  pub nodes_of-candidates :
      (queue : ℕ → ℕ → ℕ) (source num : ℕ) (row : PheromoneMatrix D)
      → nodes_of (candidates queue source num row) ≡ neighbors_of row
  unfolding candidates
  nodes_of-candidates queue source num row = nodes_of-probs queue source _ num row

module _ {R D : Type 0} ⦃d : Double D⦄ (g : Rng R D) where
  open d use {add, le, lt}

  abbrev pub total_of : (ℕ → ℕ → ℕ) → ℕ → ℕ → ℕ → PheromoneMatrix D → D
  total_of queue source parent num row =
      total_excl_parent parent nought (candidates queue source num row)

  -- The parent, for a destination with no row or a row whose links other than the parent's weigh
  -- nothing; otherwise a neighbour of the row that is not the parent.
  abbrev pub IsChoice : (ℕ → ℕ → ℕ) → ℕ → ℕ → ℕ → ℕ → Option (PheromoneMatrix D) → Type 0
  IsChoice queue source parent num next none = next ≡ parent
  IsChoice queue source parent num next (some row) =
      if le (total_of queue source parent num row) nought
      then next ≡ parent
      else Has next (neighbors_of row) × (next ≢ parent)

  -- A choice that is not the parent.
  pub choice_other :
      (queue : ℕ → ℕ → ℕ) (source parent num next : ℕ)
      → next ≢ parent
      → (o : Option (PheromoneMatrix D)) → IsChoice queue source parent num next o
      → (row : PheromoneMatrix D) × (o ≡ some row) × Has next (neighbors_of row)
  choice_other queue source parent num next other none choice = absurd (other choice)
  choice_other queue source parent num next other (some row) choice =
      elim (Bool-cases (le (total_of queue source parent num row) nought)) [
        | inl light ↦ absurd (other (rw light at choice))
        | inr heavy ↦ (row, refl, (rw heavy at choice).0)
      ]

  -- The choice for one row.
  choice :
      (queue : ℕ → ℕ → ℕ) (source parent num : ℕ) (row : PheromoneMatrix D) (x : D)
      → d.le nought nought ≡ true
      → le (total_of queue source parent num row) nought ≡ false
      → let next = sample parent x nought parent (candidates queue source num row) in
        Has next (neighbors_of row) × (next ≢ parent)
  choice queue source parent num row x zero_le heavy =
      let cs = candidates queue source num row in
      rw (← nodes_of-candidates queue source num row) (
        ground (
          arith,
          total-others parent nought cs,
          sample-HasOther parent x nought parent cs,
          sample-Has parent x nought parent cs,
        ))

  -- `calc_next` returns the parent, for a destination with no row or a row whose links other than
  -- the parent's weigh nothing, and otherwise a neighbour of the destination's row that is not the
  -- parent. The rows of the table never change. The condition is that 0.0 <= 0.0.
  pub calc_next-IsChoice :
      (t : AntnetRtable R D) (queue : ℕ → ℕ → ℕ) (source dest parent num : ℕ)
      → d.le nought nought ≡ true
      → ((calc_next g t queue source dest parent num).1.rt ≡ t.rt)
        × IsChoice queue source parent num
            (calc_next g t queue source dest parent num).0
            (find dest t.rt)
  unfolding calc_next
  calc_next-IsChoice t queue source dest parent num zero_le = elim (Option-cases (find dest t.rt)) [
    | inl e ↦ rw (e, calc_next) (refl, refl)
    | inr (row, e) ↦ rw (e, calc_next) (with_row row)
  ]
    where
      with_row :
          (row : PheromoneMatrix D)
          → let total = total_of queue source parent num row in
            let r : ℕ × AntnetRtable R D = if le total nought then (parent, t) else (
              sample parent
                  (g.uniform t.rnum total).0
                  nought
                  parent
                  (candidates queue source num row),
              record t { rnum = (g.uniform t.rnum total).1 },
            ) in
            (r.1.rt ≡ t.rt) × IsChoice queue source parent num r.0 (some row)
      with_row row =
          let total = total_of queue source parent num row in
          elim (Bool-cases (le total nought)) [
            | inl light ↦ rw light (refl, refl)
            | inr heavy ↦
                rw heavy (
                  refl,
                  choice queue source parent num row (g.uniform t.rnum total).0 zero_le heavy,
                )
          ]
