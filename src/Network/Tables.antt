-- ===== src/Network/Tables.antt =====
-- The routing tables of all nodes along the way of a backward ant.
use antnet.Common.{
  ℕ, suc, ◌≡◌, inl, inr, ◌==◌, some, List, [], ◌∷◌, length, Has, IsDistinct, Bool-cases, ==_iff,
  subst,
}
use antnet.Double.{Double}
use antnet.Double.Laws.{IsExact}
use antnet.Packet.{Packet}
use antnet.Rtable.Update.{InUnit}
use antnet.Rtable.Invariant.{IsTable}
use antnet.Agent.State.{Antnet, Env, freed}
use antnet.Agent.Hops.Tables.{update_each-IsTable}
use antnet.Agent.Receive.Backward.{reinforced}
use antnet.Network.{Net, put, travel}
use antnet.Network.Journey.{IsAddressed, IsReturning, learned, travel-learned}

-- From `next` the nodes lead over links between neighbours.
abbrev pub Walk : (ℕ → List ℕ) → ℕ → List ℕ → Type 0
Walk nbrs next [] = Unit {0}
Walk nbrs next (c ∷ zs) = Has next (nbrs c) × Walk nbrs c zs

module _ {R D : Type 0} ⦃d : Double D⦄ where
  -- Every agent's table has a row of its neighbours' links for each destination, with pheromones
  -- that are a distribution, and its reinforcement factor lies in [0, 1].
  abbrev pub IsSound : (ℕ → List ℕ) → Net R D → Type 0
  IsSound nbrs net = (n : ℕ) → IsTable (nbrs n) (net n).rtable.rt × InUnit (net n).r_factor

  pub put-IsSound :
      (nbrs : ℕ → List ℕ) (net : Net R D) (c : ℕ) (a : Antnet R D)
      → IsTable (nbrs c) a.rtable.rt
      → InUnit a.r_factor
      → IsSound nbrs net
      → IsSound nbrs (put net c a)
  put-IsSound nbrs net c a table factor sound n = elim (Bool-cases (c == n)) [
    | inl here ↦ rw here (
        subst (λ k. IsTable (nbrs k) a.rtable.rt × InUnit a.r_factor) ((==_iff c n).0 here)
          (table, factor))
    | inr there ↦ rw there (sound n)
  ]

module _ {R D : Type 0} ⦃d : Double D⦄ (laws : IsExact D) (nbrs : ℕ → List ℕ)
    (distinct : (n : ℕ) → IsDistinct (nbrs n)) where
  pub IsSound-put :
      (net : Net R D) (c next : ℕ) (ys : List ℕ)
      → Has next (nbrs c)
      → IsSound nbrs net
      → IsSound nbrs (put net c (reinforced (net c) next ys))
  IsSound-put net c next ys has sound =
      put-IsSound nbrs net c (reinforced (net c) next ys)
        (update_each-IsTable laws (nbrs c) next (net c).r_factor (next ∷ ys) (net c).rtable.rt
          (distinct c) has (sound c).1 (sound c).0)
        (sound c).1 sound

  IsSound-learned :
      (net : Net R D) (zs : List ℕ) (next : ℕ) (ys : List ℕ)
      → Walk nbrs next zs
      → IsSound nbrs net
      → IsSound nbrs (learned net zs next ys)
  IsSound-learned net [] next ys walk sound = sound
  IsSound-learned net (c ∷ zs) next ys (has, walk) sound =
      IsSound-learned (put net c (reinforced (net c) next ys)) zs c (next ∷ ys) walk
        (IsSound-put net c next ys has sound)

  -- If a backward ant's path leads over links between neighbours, the ant comes home, and its way
  -- keeps every node's table: every row holds each neighbour's link still, with pheromones in
  -- [0, 1] that sum to one, in exact arithmetic.
  pub travel-IsSound :
      (env : Env R D) (net : Net R D) (p : Packet D) (zs ys : List ℕ)
      → IsAddressed net
      → IsReturning p zs ys
      → Walk nbrs p.ih.saddr (p.ih.daddr ∷ zs)
      → IsSound nbrs net
      → (net' : Net R D) × (q : Packet D) × (travel (suc (length zs)) env net p
          ≡ some (p.ih.daddr ∷ zs, net', freed q))
        × IsSound nbrs net'
  travel-IsSound env net p zs ys addressed r walk sound =
      let (q, e) = travel-learned env net p zs ys addressed r in
      (
        learned net (p.ih.daddr ∷ zs) p.ih.saddr ys,
        q,
        e,
        IsSound-learned net (p.ih.daddr ∷ zs) p.ih.saddr ys walk sound,
      )
