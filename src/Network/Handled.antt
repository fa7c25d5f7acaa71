-- ===== src/Network/Handled.antt =====
-- antnet.cc, `recv`: every agent of a sound network handles the ants that come over its links.
use antnet.Common.{
  ℕ, ◌≡◌, ◌≢◌, refl, sym, ap, ◌∙◌, inl, inr, true, some, List, [], ◌∷◌, ◌++◌, Has, IsDistinct,
  subst,
}
use native.Mathlib.Decide.{ℕ_discrete}
use antnet.Double.{Double, nought}
use antnet.Double.Laws.{IsExact, le_refl}
use antnet.Packet.{Packet}
use antnet.Rtable.{AntnetRtable}
use antnet.Agent.State.{Antnet, Env, Event, sent, freed, dropped, rtr_route_loop}
use antnet.Agent.Memorize.Refine.{Visited}
use antnet.Agent.Hops.{hop, hop_up, turned}
use antnet.Agent.Hops.Onward.{IsOnward}
use antnet.Agent.Receive.{recv, recv_forward}
use antnet.Agent.Receive.Backward.{reinforced, recv-recv_ant_pkt}
use antnet.Agent.Receive.Forward.{recv_ant_pkt-down, recv_forward-turned, recv_forward-IsOnward}
use antnet.Network.{Net, put}
use antnet.Network.Journey.{
  IsAddressed, IsReturning, IsReturning-hop_up, at_home, between, put-IsAddressed,
  learned-IsAddressed,
}
use antnet.Network.Tables.{Walk, IsSound, IsSound-put, put-IsSound}
use antnet.Network.Carried.{IsForward, IsAnt, IsFate, IsForward-hop, IsBackOnLinks-turned}

module _ {R D : Type 0} ⦃d : Double D⦄ (nbrs : ℕ → List ℕ) where
  -- Every agent has its node's address, a table of distributions over its links, and a reinforcement
  -- factor in [0, 1].
  pub record IsSafe (net : Net R D) : Type 0 where
    pub addressed : IsAddressed net
    pub sound : IsSound nbrs net

  -- Node `c` turns into agent `a` with one event.
  pub record IsStep (net : Net R D) (c : ℕ) (a : Antnet R D) (e : Event (Packet D)) : Type 0 where
    pub fate : IsFate nbrs e
    pub safe : IsSafe (put net c a)

  put-IsSafe-rows :
      (net : Net R D) (c : ℕ) (t : AntnetRtable R D)
      → t.rt ≡ (net c).rtable.rt
      → IsSafe net
      → IsSafe (put net c (record (net c) { rtable = t }))
  put-IsSafe-rows net c t same s = record {
    addressed =
        put-IsAddressed net c (record (net c) { rtable = t }) (s.addressed c).0 (s.addressed c).1
          s.addressed;
    sound =
        put-IsSound nbrs net c (record (net c) { rtable = t }) (rw same (s.sound c).0) (s.sound c).1
          s.sound;
  }

module _ {R D : Type 0} ⦃d : Double D⦄ (nbrs : ℕ → List ℕ) (env : Env R D) (net : Net R D)
    (p : Packet D) (s : IsSafe nbrs net) where
  -- The call is defined, with one event.
  abbrev pub IsHandled : Type 0
  IsHandled =
      (a : Antnet R D) × (e : Event (Packet D)) × (recv env (net p.ih.daddr) p ≡ some (a, e ∷ []))
      × IsStep nbrs net p.ih.daddr a e

  recv-forward :
      IsForward nbrs p → recv env (net p.ih.daddr) p ≡ recv_forward env (net p.ih.daddr) p
  recv-forward f =
      let a = net p.ih.daddr in
      recv-recv_ant_pkt env a p (λ e. f.other (e ∙ (s.addressed p.ih.daddr).1)) f.ptype
      ∙ recv_ant_pkt-down env a p f.direction f.sport f.dport

  unchanged : IsSafe nbrs (put net p.ih.daddr (net p.ih.daddr))
  unchanged = put-IsSafe-rows nbrs net p.ih.daddr (net p.ih.daddr).rtable refl s

  arrived-IsHandled : IsForward nbrs p → p.ih.daddr ≡ p.ah.pkt_dst → IsHandled
  arrived-IsHandled f at =
      let c = p.ih.daddr in
      let a = net c in
      let same = (s.addressed c).0 in
      elim (recv_forward-turned env a p p.ah.pkt_src f.nodes f.array f.start
        (λ e. f.far (sym at ∙ sym same ∙ e)) (same ∙ at)) [
          | inl (p', xs, prev, v, two, e) ↦ (
            a,
            sent (hop_up (turned p') a.addr prev),
            recv-forward f ∙ e,
            record {
              fate = rw same (
                  inr (
                    IsBackOnLinks-turned nbrs p p' xs prev f at (subst (λ n. Visited n p p') same v)
                      (two ∙ ap (λ n. xs ++ prev ∷ n ∷ []) same)));
              safe = unchanged;
            },
          )
          | inr (full, e) ↦ (
            a,
            dropped p rtr_route_loop,
            recv-forward f ∙ e,
            record { fate = tt; safe = unchanged },
          )
        ]

  onward-IsFate :
      (p' : Packet D) (e : Event (Packet D))
      → IsForward nbrs p
      → Visited (net p.ih.daddr).addr p p'
      → IsOnward env (net p.ih.daddr) p' e
      → IsFate nbrs e
  onward-IsFate p' e f v (inl (over, _)) = subst (IsFate nbrs) (sym over) tt
  onward-IsFate p' e f v (inr (next, row, on, ne, _, got, has)) =
      let c = p.ih.daddr in
      let same = (s.addressed c).0 in
      let links : Has next (nbrs c) =
        subst (Has next) ((s.sound c).0.rows p'.ah.pkt_dst row got).0 has in
      subst (IsFate nbrs) (sym on) (
        subst (λ n. IsAnt nbrs (hop p' n next)) (sym same)
          (inl (
            IsForward-hop nbrs p p' next f (subst (λ n. Visited n p p') same v) links
              (λ e. ne (e ∙ sym same)))))

  onward-IsHandled :
      IsForward nbrs p → p.ih.daddr ≢ p.ah.pkt_dst → d.le nought nought ≡ true → IsHandled
  onward-IsHandled f elsewhere zero_le =
      let c = p.ih.daddr in
      let a = net c in
      let same = (s.addressed c).0 in
      elim (recv_forward-IsOnward env a p f.array (λ e. elsewhere (sym same ∙ e)) zero_le) [
        | inl (p', t, e, v, onward, rows, got) ↦ (
          record a { rtable = t },
          e,
          recv-forward f ∙ got,
          record {
            fate = onward-IsFate p' e f v onward;
            safe = put-IsSafe-rows nbrs net c t rows s;
          },
        )
        | inr (full, e) ↦ (
          a,
          dropped p rtr_route_loop,
          recv-forward f ∙ e,
          record { fate = tt; safe = unchanged },
        )
      ]

module _ {R D : Type 0} ⦃d : Double D⦄ (laws : IsExact D) (nbrs : ℕ → List ℕ)
    (distinct : (n : ℕ) → IsDistinct (nbrs n)) where
  reinforced-IsSafe :
      (net : Net R D) (c next : ℕ) (ys : List ℕ)
      → Has next (nbrs c)
      → IsSafe nbrs net
      → IsSafe nbrs (put net c (reinforced (net c) next ys))
  reinforced-IsSafe net c next ys has s = record {
    addressed = learned-IsAddressed net c next ys s.addressed;
    sound = IsSound-put laws nbrs distinct net c next ys has s.sound;
  }

  backward-IsHandled :
      (env : Env R D) (net : Net R D) (p : Packet D) (s : IsSafe nbrs net) (zs ys : List ℕ)
      → IsReturning p zs ys
      → Walk nbrs p.ih.saddr (p.ih.daddr ∷ zs)
      → IsHandled nbrs env net p s
  unfolding hop_up
  backward-IsHandled env net p s [] ys r (has, walk) = (
    reinforced (net p.ih.daddr) p.ih.saddr ys,
    freed p,
    at_home env net p ys s.addressed r,
    record { fate = tt; safe = reinforced-IsSafe net p.ih.daddr p.ih.saddr ys has s },
  )
  backward-IsHandled env net p s (z ∷ zs) ys r (has, walk) = (
    reinforced (net p.ih.daddr) p.ih.saddr ys,
    sent (hop_up p p.ih.daddr z),
    between env net p z zs ys s.addressed r,
    record {
      fate = inr (zs, p.ih.saddr ∷ ys, IsReturning-hop_up p z zs ys r, walk);
      safe = reinforced-IsSafe net p.ih.daddr p.ih.saddr ys has s;
    },
  )

  pub recv-IsHandled :
      (env : Env R D) (net : Net R D) (p : Packet D) (s : IsSafe nbrs net)
      → IsAnt nbrs p
      → IsHandled nbrs env net p s
  recv-IsHandled env net p s (inl f) = elim (ℕ_discrete p.ih.daddr p.ah.pkt_dst) [
    | yes at ↦ arrived-IsHandled nbrs env net p s f at
    | no elsewhere ↦ onward-IsHandled nbrs env net p s f elsewhere (le_refl laws nought)
  ]
  recv-IsHandled env net p s (inr (zs, ys, r, walk)) = backward-IsHandled env net p s zs ys r walk
