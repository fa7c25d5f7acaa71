-- ===== src/Network/Walk.antt =====
-- Paths over links between neighbours, as `memorize` changes them and as a backward ant walks them.
use antnet.Common.{
  none-ne-some, ℕ, ◌≡◌, refl, sym, inl, inr, ◌==◌, some, true, false, List, [], ◌∷◌, ◌++◌, Has,
  Bool-cases, Option-cases, subst,
}
use mathlib.Core.Option.{some-injective}
use antnet.Agent.Memorize.Path.{until, visit}
use antnet.Agent.Memorize.Loops.{EndsAt}
use antnet.Network.Journey.{rev_onto}
use antnet.Network.Tables.{Walk}

module _ (nbrs : ℕ → List ℕ) where
  -- From `n` on, each node of the list is a neighbour of the one before it.
  abbrev pub Follows : ℕ → List ℕ → Type 0
  Follows n [] = Unit {0}
  Follows n (m ∷ ns) = Has m (nbrs n) × Follows m ns

  -- Cut off behind `a`, such a path stays one, with the same first node.
  record IsCut (n : ℕ) (ms : List ℕ) : Type 0 where
    rest : List ℕ
    split : ms ≡ n ∷ rest
    follows : Follows n rest

  IsCut-first :
      (a n : ℕ) (ns ms : List ℕ) → (n == a) ≡ true → until a (n ∷ ns) ≡ some ms → IsCut n ms
  IsCut-first a n ns ms hit e = record {
    rest = [];
    split = sym (some-injective _ _ (rw hit at e));
    follows = tt;
  }

  IsCut-behind :
      (a n m : ℕ) (ns ms : List ℕ)
      → (n == a) ≡ false
      → Has m (nbrs n)
      → ((more : List ℕ) → until a (m ∷ ns) ≡ some more → IsCut m more)
      → until a (n ∷ m ∷ ns) ≡ some ms
      → IsCut n ms
  IsCut-behind a n m ns ms miss has cut e = elim (Option-cases (until a (m ∷ ns))) [
    | inl stop ↦ absurd (none-ne-some (rw stop at (rw miss at e)))
    | inr (more, got) ↦ record {
      rest = more;
      split = sym (some-injective _ _ (rw got at (rw miss at e)));
      follows = subst (Follows n) (sym (cut more got).split) (has, (cut more got).follows);
    }
  ]

  until-Follows :
      (a n : ℕ) (ns ms : List ℕ) → Follows n ns → until a (n ∷ ns) ≡ some ms → IsCut n ms
  until-Follows a n [] ms f e = elim (Bool-cases (n == a)) [
    | inl hit ↦ IsCut-first a n [] ms hit e
    | inr miss ↦ absurd (none-ne-some (rw miss at e))
  ]
  until-Follows a n (m ∷ ns) ms (has, f) e = elim (Bool-cases (n == a)) [
    | inl hit ↦ IsCut-first a n (m ∷ ns) ms hit e
    | inr miss ↦ IsCut-behind a n m ns ms miss has (λ more got. until-Follows a m ns more f got) e
  ]

  append-Follows :
      (a e n : ℕ) (ns : List ℕ)
      → Follows n ns
      → EndsAt e (n ∷ ns)
      → Has a (nbrs e)
      → Follows n (ns ++ a ∷ [])
  append-Follows a e n [] f ends has = (subst (λ k. Has a (nbrs k)) (sym ends) has, tt)
  append-Follows a e n (m ∷ ns) (first, f) ends has = (first, append-Follows a e m ns f ends has)

  -- A path that ends at a node with the link to `a` still leads over links after the visit of `a`.
  pub visit-Follows :
      (a e n : ℕ) (ns : List ℕ)
      → Follows n ns
      → EndsAt e (n ∷ ns)
      → Has a (nbrs e)
      → (rest : List ℕ) × (visit a (n ∷ ns) ≡ n ∷ rest) × Follows n rest
  visit-Follows a e n ns f ends has = elim (Option-cases (until a (n ∷ ns))) [
    | inl new ↦ rw (new, visit) (ns ++ a ∷ [], refl, append-Follows a e n ns f ends has)
    | inr (ms, known) ↦
        let cut = until-Follows a n ns ms f known in
        rw (known, visit) (cut.rest, cut.split, cut.follows)
  ]

  -- Read backwards from its last node, the path is the way of a backward ant.
  pub Walk-back :
      (x prev c : ℕ) (xs zs : List ℕ)
      → Follows x (xs ++ prev ∷ c ∷ [])
      → Walk nbrs x zs
      → Walk nbrs c (prev ∷ rev_onto xs (x ∷ zs))
  Walk-back x prev c [] zs (h, (last, f)) w = (last, (h, w))
  Walk-back x prev c (y ∷ ys) zs (h, f) w = Walk-back y prev c ys (x ∷ zs) f (h, w)
