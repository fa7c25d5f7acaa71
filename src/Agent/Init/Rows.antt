-- ===== src/Agent/Init/Rows.antt =====
-- antnet.cc, `initialize_rtable`: which rows the table has, and that they are distributions.
use antnet.Common.{
  ℕ, zero, suc, ◌+◌, ◌≡◌, refl, sym, ap, ◌∙◌, ◌==◌, ltb, leb, if◌then◌else◌, ◌&&◌, not, Option,
  none, some, List, [], ◌∷◌, ◌++◌, length, Bool, arith, map, ==_iff, subst, inl, inr, Bool-cases,
  true, false,
}
use mathlib.Core.List.{append_assoc}
use mathlib.Core.Option.{some-injective}
use antnet.Common.Int.{pos}
use antnet.Common.Map.{find, IsSorted}
use antnet.Double.{Double, nought, one, ◌≼◌}
use antnet.Double.Laws
use antnet.Double.Laws.{IsExact, times}
use antnet.Rtable.{PheromoneMatrix, RtableT, add_entry}
use antnet.Rtable.Entries.{row_of, add_entry_lem}
use antnet.Rtable.Update.{neighbors_of, phsum, InUnit, AllInUnit}
use antnet.Rtable.Invariant.{IsStochastic, IsTable}
use antnet.Agent.State.{Antnet, Env, get_num_neighbors-length}
use antnet.Agent.Init.{add_neighbors, add_dests, initialize_rtable}

-- The destinations that get a row.
abbrev pub is_dest : ℕ → ℕ → ℕ → ℕ → Bool
is_dest i left addr j = leb i j && ltb j (i + left) && not (addr == j)

module _ {D : Type 0} where
  -- A link to each neighbour, all with one pheromone.
  abbrev pub links : D → List ℕ → PheromoneMatrix D
  links ph = map λ n. record { neighbor = n; phvalue = ph }

  abbrev of_option : Option (PheromoneMatrix D) → PheromoneMatrix D
  of_option o = elim o [ none ↦ [] | some row ↦ row ]

  add_neighbors-find :
      (i j n : ℕ) (ph : D) (ns : List ℕ) (rt : RtableT D)
      → IsSorted rt
      → let rt' = add_neighbors i ph (n ∷ ns) rt in
        (find j rt' ≡ (if i == j then some (row_of i rt ++ links ph (n ∷ ns)) else find j rt))
        × IsSorted rt'
  unfolding add_neighbors
  add_neighbors-find i j n ph [] rt s = add_entry_lem rt i n j ph s
  add_neighbors-find i j n ph (m ∷ ns) rt s =
      let rt' = add_entry rt i n ph in
      let (mine, sorted) = add_entry_lem rt i n i ph s in
      let here : row_of i rt' ≡ row_of i rt ++ links ph (n ∷ []) = ap of_option (
        mine
        ∙ ap (λ b. if b then some (row_of i rt ++ links ph (n ∷ [])) else find i rt)
            ((==_iff i i).1 refl)) in
      let (others, _) = add_entry_lem rt i n j ph s in
      let (rest, sorted') = add_neighbors-find i j m ph ns rt' sorted in
      (
        rest ∙ elim (Bool-cases (i == j)) [
          | inl e ↦
              rw e (
                ap some
                  (ap (λ row. row ++ links ph (m ∷ ns)) here ∙ append_assoc (row_of i rt) _ _))
          | inr e ↦ rw e (others ∙ rw e refl)
        ],
        sorted',
      )

  add_dests-find :
      (left i addr j n : ℕ) (ph : D) (ns : List ℕ) (rt : RtableT D)
      → IsSorted rt
      → let rt' = add_dests left i addr ph (n ∷ ns) rt in
        (find j rt'
          ≡ (if is_dest i left addr j then some (row_of j rt ++ links ph (n ∷ ns)) else find j rt))
        × IsSorted rt'
  unfolding add_dests
  add_dests-find zero i addr j n ph ns rt s = (ground arith, s)
  add_dests-find (suc left) i addr j n ph ns rt s = elim (Bool-cases (addr == i)) [
    | inl e ↦ rw e (ground (arith, add_dests-find left (suc i) addr j n ph ns rt s))
    | inr e ↦
        let (one_row, sorted) = add_neighbors-find i j n ph ns rt s in
        let rt' = add_neighbors i ph (n ∷ ns) rt in
        let (rest, sorted') = add_dests-find left (suc i) addr j n ph ns rt' sorted in
        rw e (
          rest ∙ elim (Bool-cases (i == j)) [
            | inl here ↦
                ap
                  (λ b.
                    if b then some (of_option (find j rt') ++ links ph (n ∷ ns)) else find j rt')
                  (past here)
                ∙ one_row
                ∙ ap (λ b. if b then some (row_of i rt ++ links ph (n ∷ ns)) else find j rt) here
                ∙ ap (λ k. some (row_of k rt ++ links ph (n ∷ ns))) ((==_iff i j).0 here)
                ∙ sym (
                    ap (λ b. if b then some (row_of j rt ++ links ph (n ∷ ns)) else find j rt)
                      (present e here))
            | inr there ↦
                ap
                  (λ o.
                    if is_dest (suc i) left addr j
                    then some (of_option o ++ links ph (n ∷ ns))
                    else o)
                  (one_row ∙ miss _ there)
                ∙ ap (λ b. if b then some (row_of j rt ++ links ph (n ∷ ns)) else find j rt)
                    (shifted there)
          ],
          sorted',
        )
  ]
    where
      shifted : (i == j) ≡ false → is_dest (suc i) left addr j ≡ is_dest i (suc left) addr j
      shifted there = ground arith

      past : (i == j) ≡ true → is_dest (suc i) left addr j ≡ false
      past here = ground arith

      present : (addr == i) ≡ false → (i == j) ≡ true → is_dest i (suc left) addr j ≡ true
      present e here = ground arith

      miss :
          (o : Option (PheromoneMatrix D))
          → (i == j) ≡ false
          → (if i == j then o else find j rt) ≡ find j rt
      miss o there = rw there refl

module _ {R D : Type 0} ⦃d : Double D⦄ where
  open d use {of_int, div}

  -- A node with the neighbours `n ∷ ns` gets, for every other destination of the topology, a link
  -- to each neighbour in order, with the pheromone 1 / (number of neighbours). The links come behind
  -- those that the table has before, so that the row of a second call holds every link twice.
  pub initialize_rtable-find :
      (env : Env R D) (a : Antnet R D) (j n : ℕ) (ns : List ℕ)
      → env.neighbor_list a.addr ≡ n ∷ ns
      → IsSorted a.rtable.rt
      → let rt' = (initialize_rtable env a).2.rtable.rt in
        (find j rt' ≡ (
          if is_dest 0 a.num_nodes a.addr j
          then some
              (row_of j a.rtable.rt ++ links (div one (of_int (pos (length (n ∷ ns))))) (n ∷ ns))
          else find j a.rtable.rt))
        × IsSorted rt'
  unfolding initialize_rtable
  initialize_rtable-find env a j n ns e s =
      let some_nb : (length (n ∷ ns) == 0) ≡ false = ground arith in
      rw (get_num_neighbors-length env a.addr, e, some_nb)
        (add_dests-find a.num_nodes 0 a.addr j n (div one (of_int (pos (suc (length ns))))) ns
          a.rtable.rt s)

module _ {D : Type 0} ⦃d : Double D⦄ (laws : IsExact D) where
  open d use {of_int, add, div}

  neighbors_of-links : (ph : D) (ns : List ℕ) → neighbors_of (links ph ns) ≡ ns
  neighbors_of-links ph [] = refl
  neighbors_of-links ph (n ∷ ns) = ap (◌∷◌ n) (neighbors_of-links ph ns)

  phsum-links : (ph : D) (ns : List ℕ) → phsum (links ph ns) ≡ times laws (length ns) ph
  phsum-links ph [] = sym (Laws.zero-mul laws ph)
  phsum-links ph (n ∷ ns) =
      ap (add ph) (phsum-links ph ns) ∙ sym (Laws.times-suc laws (length ns) ph)

  AllInUnit-links : (ph : D) (ns : List ℕ) → InUnit ph → AllInUnit (links ph ns)
  AllInUnit-links ph [] u = tt
  AllInUnit-links ph (n ∷ ns) u = (u, AllInUnit-links ph ns u)

  -- The number of neighbours, which is at least one.
  one-le-of_int : (k : ℕ) → one ≼ of_int (pos (suc k))
  one-le-of_int k =
      rw (laws.of_int-suc k)
        (Laws.le-add_right laws one (of_int (pos k)) (Laws.of_int_nonneg laws k))

  links-IsStochastic :
      (n : ℕ) (ns : List ℕ)
      → IsStochastic (links (div one (of_int (pos (length (n ∷ ns))))) (n ∷ ns))
  links-IsStochastic n ns =
      let ph = div one (of_int (pos (length (n ∷ ns)))) in
      let positive = Laws.lt_le_trans laws nought one _ laws.one_pos (one-le-of_int (length ns)) in
      let nonneg = Laws.div_nonneg laws one _ positive (Laws.lt→le laws nought one laws.one_pos) in
      record {
        in_unit =
            AllInUnit-links ph (n ∷ ns)
              (nonneg, Laws.div-le-one laws one _ positive (one-le-of_int (length ns)));
        total =
            phsum-links ph (n ∷ ns)
            ∙ laws.mul_comm (of_int (pos (length (n ∷ ns)))) ph
            ∙ laws.div-mul one _ positive;
      }

  module _ {R : Type 0} where
    -- From an empty table, `initialize_rtable` on a node with a neighbour establishes what the ants
    -- keep: every row holds the link to each neighbour, with pheromones in [0, 1] that sum to one,
    -- in exact arithmetic.
    pub initialize_rtable-IsTable :
        (env : Env R D) (a : Antnet R D) (n : ℕ) (ns : List ℕ)
        → env.neighbor_list a.addr ≡ n ∷ ns
        → a.rtable.rt ≡ []
        → IsTable (n ∷ ns) (initialize_rtable env a).2.rtable.rt
    unfolding find
    initialize_rtable-IsTable env a n ns e empty = record {
      sorted = (initialize_rtable-find env a 0 n ns e (rw empty tt)).1;
      rows = λ j row got.
          good j row (sym (initialize_rtable-find env a j n ns e (rw empty tt)).0 ∙ got);
    }
      where
        fresh : PheromoneMatrix D
        fresh = links (div one (of_int (pos (length (n ∷ ns))))) (n ∷ ns)

        chosen :
            (b : Bool) (row : PheromoneMatrix D)
            → (if b then some fresh else none) ≡ some row
            → (neighbors_of row ≡ n ∷ ns) × IsStochastic row
        chosen false row h = cc
        chosen true row h =
            subst (λ r. (neighbors_of r ≡ n ∷ ns) × IsStochastic r) (some-injective _ _ h)
              (neighbors_of-links _ (n ∷ ns), links-IsStochastic n ns)

        from_empty :
            (j : ℕ)
            → (if is_dest 0 a.num_nodes a.addr j
                then some (row_of j a.rtable.rt ++ fresh)
                else find j a.rtable.rt)
              ≡ (if is_dest 0 a.num_nodes a.addr j then some fresh else none)
        from_empty j =
            ap
              (λ rt.
                if is_dest 0 a.num_nodes a.addr j then some (row_of j rt ++ fresh) else find j rt)
              empty

        good :
            (j : ℕ) (row : PheromoneMatrix D)
            → (if is_dest 0 a.num_nodes a.addr j
                then some (row_of j a.rtable.rt ++ fresh)
                else find j a.rtable.rt)
              ≡ some row
            → (neighbors_of row ≡ n ∷ ns) × IsStochastic row
        good j row h = chosen (is_dest 0 a.num_nodes a.addr j) row (sym (from_empty j) ∙ h)
