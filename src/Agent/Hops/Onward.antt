-- ===== src/Agent/Hops/Onward.antt =====
-- antnet.cc, `forward_ant_pkt`: where a forward ant goes from a node on its way.
use antnet.Common.{
  ℕ, Option, none, subst, ◌≡◌, ◌≢◌, refl, ◌⊎◌, inl, inr, ◌==◌, ◌||◌, if◌then◌else◌, some, [], ◌∷◌,
  arith, Has, true, Bool-cases, ==_iff,
}
use antnet.Common.Map.{find}
use antnet.Double.{Double, nought}
use antnet.Packet.{Packet}
use antnet.Rtable.{PheromoneMatrix, AntnetRtable}
use antnet.Rtable.Update.{neighbors_of}
use antnet.Rtable.Choice.{IsChoice, total_of, choice_other, calc_next-IsChoice}
use antnet.Agent.State.{Antnet, Env, Event, sent, freed, get_num_neighbors, get_queue_length}
use antnet.Agent.Hops.{hop, forward_ant_pkt}

module _ {R D : Type 0} ⦃d : Double D⦄ where
  -- No row for the destination, a row whose links other than the parent's weigh nothing, or a row
  -- with a link from the node to itself.
  abbrev pub IsDeadEnd : Env R D → Antnet R D → Packet D → Type 0
  IsDeadEnd env a p =
      (find p.ah.pkt_dst a.rtable.rt ≡ none)
      ⊎ ((row : PheromoneMatrix D) × (find p.ah.pkt_dst a.rtable.rt ≡ some row)
          × ((d.le
                  (total_of env.rng (get_queue_length env) a.addr p.ih.saddr
                    (get_num_neighbors env a.addr) row)
                  nought
                ≡ true)
              ⊎ Has a.addr (neighbors_of row)))

  -- The release at a dead end, or the hop to a neighbour in the destination's row that is neither
  -- the node itself nor the one that the ant comes from.
  abbrev pub IsOnward : Env R D → Antnet R D → Packet D → Event (Packet D) → Type 0
  IsOnward env a p e =
      ((e ≡ freed p) × IsDeadEnd env a p)
      ⊎ ((next : ℕ) × (row : PheromoneMatrix D) × (e ≡ sent (hop p a.addr next))
          × (next ≢ a.addr)
          × (next ≢ p.ih.saddr)
          × (find p.ah.pkt_dst a.rtable.rt ≡ some row)
          × Has next (neighbors_of row))

  -- A choice of the node itself or of the parent is a dead end.
  dead_end :
      (env : Env R D) (a : Antnet R D) (p : Packet D) (next : ℕ) (o : Option (PheromoneMatrix D))
      → find p.ah.pkt_dst a.rtable.rt ≡ o
      → IsChoice env.rng
          (get_queue_length env)
          a.addr
          p.ih.saddr
          (get_num_neighbors env a.addr)
          next
          o
      → (next ≡ a.addr) ⊎ (next ≡ p.ih.saddr)
      → IsDeadEnd env a p
  dead_end env a p next none e choice back = inl e
  dead_end env a p next (some row) e choice back =
      elim (Bool-cases (
        d.le
          (total_of env.rng (get_queue_length env) a.addr p.ih.saddr (get_num_neighbors env a.addr)
            row)
          nought)) [
            | inl light ↦ inr (row, e, inl light)
            | inr heavy ↦
                let (has, ne) = rw heavy at choice in
                inr (
                  row,
                  e,
                  inr (elim back [
                    | inl here ↦ subst (λ n. Has n (neighbors_of row)) here has
                    | inr parent ↦ absurd (ne parent)
                  ]),
                )
          ]

  onward :
      (env : Env R D) (a : Antnet R D) (p : Packet D) (next : ℕ)
      → IsChoice env.rng
          (get_queue_length env)
          a.addr
          p.ih.saddr
          (get_num_neighbors env a.addr)
          next
          (find p.ah.pkt_dst a.rtable.rt)
      → IsOnward env a p
          (if next == a.addr || next == p.ih.saddr then freed p else sent (hop p a.addr next))
  onward env a p next choice = elim (Bool-cases (next == a.addr || next == p.ih.saddr)) [
    | inl e ↦
        let back : (next ≡ a.addr) ⊎ (next ≡ p.ih.saddr) =
          ground (arith, ==_iff next a.addr, ==_iff next p.ih.saddr) in
        rw e (inl (refl, dead_end env a p next _ refl choice back))
    | inr e ↦
        let ne : next ≢ a.addr = ground (arith, ==_iff next a.addr) in
        let other : next ≢ p.ih.saddr =
          ground (arith, ==_iff next p.ih.saddr, ==_iff next a.addr) in
        let (row, got, has) =
          choice_other env.rng (get_queue_length env) a.addr p.ih.saddr
            (get_num_neighbors env a.addr) next other _ choice in
        rw e (inr (next, row, refl, ne, other, got, has))
  ]

  -- A forward ant is released at a dead end, or sent on to a neighbour in the row of its destination
  -- that is neither the node itself nor the one that the ant comes from; the rows do not change.
  pub forward_ant_pkt-IsOnward :
      (env : Env R D) (a : Antnet R D) (p : Packet D)
      → d.le nought nought ≡ true
      → (t : AntnetRtable R D) × (e : Event (Packet D)) × (forward_ant_pkt env a p
          ≡ (record a { rtable = t }, e ∷ []))
        × (t.rt ≡ a.rtable.rt)
        × IsOnward env a p e
  unfolding forward_ant_pkt
  forward_ant_pkt-IsOnward env a p zero_le =
      let (same, choice) =
        calc_next-IsChoice env.rng a.rtable (get_queue_length env) a.addr p.ah.pkt_dst p.ih.saddr
          (get_num_neighbors env a.addr) zero_le in
      (_, _, refl, same, onward env a p _ choice)
