-- ===== src/Agent/Receive/Forward.antt =====
-- antnet.cc, `recv_ant_pkt` on a forward ant: the node is memorized, and the ant goes on, or turns
-- round at its destination.
use antnet.Common.{
  ℕ, ◌≡◌, ◌≢◌, refl, sym, ap, ◌∙◌, ◌⊎◌, inl, inr, ◌==◌, none, some, List, [], ◌∷◌, ◌++◌, arith,
  length, true, false, ==_iff, subst,
}
use antnet.Double.{Double, nought}
use antnet.Packet.{Packet, down, rt_port, max_num_nodes}
use antnet.Rtable.{AntnetRtable}
use antnet.Agent.State.{Antnet, Env, Event, sent, dropped, rtr_route_loop}
use antnet.Agent.Memorize.Path.{path, IsArray, until, visit}
use antnet.Agent.Memorize.Refine.{Visited, memorize-Visited}
use antnet.Agent.Memorize.Loops.{EndsAt, visit-cons, visit-EndsAt}
use antnet.Agent.Hops.{hop_up, turned}
use antnet.Agent.Hops.Back.{create_backward_ant_pkt-prev}
use antnet.Agent.Hops.Onward.{IsOnward, forward_ant_pkt-IsOnward}
use antnet.Agent.Receive.{memorized, recv_forward, recv_ant_pkt}

-- The last two nodes of a path that ends at `a`.
last_two :
    (a n : ℕ) (ns : List ℕ)
    → ns ≢ []
    → EndsAt a (n ∷ ns)
    → (xs : List ℕ) × (prev : ℕ) × (n ∷ ns ≡ xs ++ prev ∷ a ∷ [])
last_two a n [] ne e = absurd (ne refl)
last_two a n (m ∷ []) ne e = ([], n, ap (λ k. n ∷ k ∷ []) e)
last_two a n (m ∷ k ∷ ks) ne e =
    let (xs, prev, split) = last_two a m (k ∷ ks) (λ q. cc) e in (n ∷ xs, prev, ap (◌∷◌ n) split)

module _ {R D : Type 0} ⦃d : Double D⦄ where
  -- The ant's memory is full, and the node is not on its path.
  abbrev pub IsFull : Antnet R D → Packet D → Type 0
  IsFull a p = (until a.addr (path p) ≡ none) × (length (path p) ≡ max_num_nodes)

  pub recv_ant_pkt-down :
      (env : Env R D) (a : Antnet R D) (p : Packet D)
      → p.ch.direction ≡ down
      → p.ih.sport ≡ rt_port
      → p.ih.dport ≡ rt_port
      → recv_ant_pkt env a p ≡ recv_forward env a p
  unfolding recv_ant_pkt
  recv_ant_pkt-down env a p direction sport dport = rw (sport, dport, direction) refl

  -- An ant that reaches its destination, which is not its source, turns round: it is sent back, with
  -- source and destination exchanged, to the node before this one on its path with this node
  -- visited; or, with a full memory that lacks the node, it is dropped. The agent stays as it is.
  pub recv_forward-turned :
      (env : Env R D) (a : Antnet R D) (p : Packet D) (s : ℕ) (ns : List ℕ)
      → IsArray p
      → path p ≡ s ∷ ns
      → a.addr ≢ s
      → a.addr ≡ p.ah.pkt_dst
      → ((p' : Packet D) × (xs : List ℕ) × (prev : ℕ) × Visited a.addr p p'
          × (path p' ≡ xs ++ prev ∷ a.addr ∷ [])
          × (recv_forward env a p ≡ some (a, sent (hop_up (turned p') a.addr prev) ∷ [])))
        ⊎ (IsFull a p × (recv_forward env a p ≡ some (a, dropped p rtr_route_loop ∷ [])))
  unfolding recv_forward memorized
  recv_forward-turned env a p s ns arr split ne at = elim (memorize-Visited a env.now p arr) [
    | inl (p', e, v) ↦
        let (cons, some_node) = visit-cons a.addr s ns ne in
        let whole : path p' ≡ s ∷ visit a.addr ns = v.visited ∙ ap (visit a.addr) split ∙ cons in
        let ends =
          subst (EndsAt a.addr) whole
            (subst (EndsAt a.addr) (sym v.visited) (visit-EndsAt a.addr (path p))) in
        let (xs, prev, two) = last_two a.addr s (visit a.addr ns) some_node ends in
        let here : (a.addr == p'.ah.pkt_dst) ≡ true =
          (==_iff a.addr p'.ah.pkt_dst).1 (at ∙ sym v.same_dst) in
        inl (
          p',
          xs,
          prev,
          v,
          whole ∙ two,
          rw
              (
                e,
                recv_forward,
                here,
                create_backward_ant_pkt-prev a p' xs prev a.addr v.array (whole ∙ two),
              )
              refl,
        )
    | inr (e, missing, full) ↦ inr ((missing, full), rw (e, recv_forward) refl)
  ]

  -- At any other node the ant, with the node visited, is sent on to a neighbour in its destination's
  -- row that is neither the node itself nor the one that the ant comes from; or it is released, and
  -- then there is no row for the destination, or the row's links other than the one to the node that
  -- the ant comes from weigh nothing, or the row has a link to the node itself; or, with a full memory
  -- that lacks the node, it is dropped. Of the agent only the table's generator changes. The condition
  -- is that 0.0 <= 0.0.
  pub recv_forward-IsOnward :
      (env : Env R D) (a : Antnet R D) (p : Packet D)
      → IsArray p
      → a.addr ≢ p.ah.pkt_dst
      → d.le nought nought ≡ true
      → ((p' : Packet D) × (t : AntnetRtable R D) × (e : Event (Packet D)) × Visited a.addr p p'
          × IsOnward env a p' e
          × (t.rt ≡ a.rtable.rt)
          × (recv_forward env a p ≡ some (record a { rtable = t }, e ∷ [])))
        ⊎ (IsFull a p × (recv_forward env a p ≡ some (a, dropped p rtr_route_loop ∷ [])))
  unfolding recv_forward memorized
  recv_forward-IsOnward env a p arr far zero_le = elim (memorize-Visited a env.now p arr) [
    | inl (p', e, v) ↦
        let (t, event, sends, same, onward) = forward_ant_pkt-IsOnward env a p' zero_le in
        let there : (a.addr == p'.ah.pkt_dst) ≡ false =
          ground (arith, ==_iff a.addr p'.ah.pkt_dst, v.same_dst, far) in
        inl (p', t, event, v, onward, same, rw (e, recv_forward, there, sends) refl)
    | inr (e, missing, full) ↦ inr ((missing, full), rw (e, recv_forward) refl)
  ]
