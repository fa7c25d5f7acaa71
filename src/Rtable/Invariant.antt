-- ===== src/Rtable/Invariant.antt =====
-- antnet_rtable.cc: what a node's routing table keeps while ants update it.
use antnet.Common.{
  none-ne-some, ℕ, suc, ◌≡◌, refl, sym, ap, ◌∙◌, inl, inr, ◌==◌, if◌then◌else◌, some, none, List,
  [], ◌∷◌, arith, Has, Lacks, IsDistinct, true, false, Option, Bool, subst, ◌≢◌, ==_iff,
}
use mathlib.Core.Option.{some-injective}
use antnet.Common.Map.{find, IsSorted}
use antnet.Double.{Double, one}
use antnet.Double.Laws
use antnet.Double.Laws.{IsExact, times}
use antnet.Rtable.{PheromoneMatrix, RtableT, update_row, update}
use antnet.Rtable.Entries.{find-update, update-IsSorted}
use antnet.Rtable.Update.{
  neighbors_of, hits, phsum, InUnit, AllInUnit, neighbors_of-update_row, phsum-update_row,
  AllInUnit-update_row,
}

hits-Lacks : (n : ℕ) (ns : List ℕ) → Lacks n ns → hits n ns ≡ 0
hits-Lacks n [] h = refl
hits-Lacks n (m ∷ ns) (ne, h) = ground (arith, hits-Lacks n ns h, ne)

pub ne_of_Lacks : (m n : ℕ) (ns : List ℕ) → Lacks m ns → Has n ns → m ≢ n
ne_of_Lacks m n [] l h = absurd h
ne_of_Lacks m n (k ∷ ns) (ne, l) (inl e) = λ q. ne (e ∙ sym q)
ne_of_Lacks m n (k ∷ ns) (ne, l) (inr h) = ne_of_Lacks m n ns l h

pub hits_distinct : (n : ℕ) (ns : List ℕ) → IsDistinct ns → Has n ns → hits n ns ≡ 1
hits_distinct n [] ds h = absurd h
hits_distinct n (m ∷ ns) (new, ds) (inl e) =
    rw ((==_iff m n).1 e) (ap suc (hits-Lacks n ns (subst_lacks e new)))
  where
    subst_lacks : m ≡ n → Lacks m ns → Lacks n ns
    subst_lacks q h = rw q at h
hits_distinct n (m ∷ ns) (new, ds) (inr k) =
    ground (arith, hits_distinct n ns ds k, ne_of_Lacks m n ns new k)

module _ {D : Type 0} ⦃d : Double D⦄ where
  open d use {add, sub, mul}

  -- The pheromones of a row are a probability distribution.
  pub record IsStochastic (row : PheromoneMatrix D) : Type 0 where
    pub in_unit : AllInUnit row
    pub total : phsum row ≡ one

  -- Every row of the table holds each neighbour's link, in order, with such pheromones.
  pub record IsTable (nbrs : List ℕ) (rt : RtableT D) : Type 0 where
    pub sorted : IsSorted rt
    pub rows :
        (dest : ℕ) (row : PheromoneMatrix D)
        → find dest rt ≡ some row
        → (neighbors_of row ≡ nbrs) × IsStochastic row

  -- A table without rows.
  pub empty-IsTable : (nbrs : List ℕ) (rt : RtableT D) → rt ≡ [] → IsTable nbrs rt
  unfolding find
  empty-IsTable nbrs rt e = record {
    sorted = rw e tt;
    rows = λ dest row got. absurd (none-ne-some (rw e at got));
  }

module _ {D : Type 0} ⦃d : Double D⦄ (laws : IsExact D) where
  open d use {add, sub, mul}

  -- A row with one link to `next` stays a distribution.
  pub update_row-IsStochastic :
      (next : ℕ) (r : D) (row : PheromoneMatrix D)
      → hits next (neighbors_of row) ≡ 1
      → InUnit r
      → IsStochastic row
      → IsStochastic (update_row next r row)
  update_row-IsStochastic next r row h u s = record {
    in_unit = AllInUnit-update_row laws next r row u s.in_unit;
    total =
        phsum-update_row laws next r row
        ∙ rw (s.total, h)
            (ap (λ t. add t (mul one r)) (Laws.mul-one laws (sub one r))
              ∙ ap (add (sub one r)) (laws.one-mul r)
              ∙ laws.sub-add one r);
  }

  -- In exact arithmetic, an update for a neighbour of a node that has no two links to one neighbour,
  -- with a factor in [0, 1], keeps the table: in every row the links stay, and the pheromones are
  -- still in [0, 1] and sum to one.
  pub update-IsTable :
      (nbrs : List ℕ) (rt : RtableT D) (dest next : ℕ) (r : D)
      → IsDistinct nbrs
      → Has next nbrs
      → InUnit r
      → IsTable nbrs rt
      → IsTable nbrs (update rt dest next r)
  update-IsTable nbrs rt dest next r ds has u t = record {
    sorted = update-IsSorted rt dest next r t.sorted;
    rows = λ j row e.
        kept (find j rt) (dest == j) row (t.rows j) (sym (find-update rt dest next j r) ∙ e);
  }
    where
      Good : PheromoneMatrix D → Type 0
      Good row = (neighbors_of row ≡ nbrs) × IsStochastic row

      updated : (old : PheromoneMatrix D) → Good old → Good (update_row next r old)
      updated old (links, s) = (
        neighbors_of-update_row next r old ∙ links,
        update_row-IsStochastic next r old (ap (hits next) links ∙ hits_distinct next nbrs ds has) u
            s,
      )

      kept :
          (o : Option (PheromoneMatrix D)) (b : Bool) (row : PheromoneMatrix D)
          → ((old : PheromoneMatrix D) → o ≡ some old → Good old)
          → elim o [ none ↦ none | some old ↦ some (if b then update_row next r old else old) ]
            ≡ some row
          → Good row
      kept none b row good e = cc
      kept (some old) true row good e =
          subst Good (some-injective _ _ e) (updated old (good old refl))
      kept (some old) false row good e = subst Good (some-injective _ _ e) (good old refl)
