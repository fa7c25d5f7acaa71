-- ===== src/Network/Roundtrip.antt =====
-- An ant at its destination: the turn, and the way back to the source.
use antnet.Common.{
  ℕ, suc, ◌+◌, ◌<◌, ◌≡◌, ◌≢◌, refl, sym, ap, ◌∙◌, inl, inr, some, List, [], ◌∷◌, ◌++◌, length,
  arith, IsDistinct, length-append, subst, ◌>>=◌,
}
use antnet.Double.{Double}
use antnet.Packet.{Packet, down, rt_port, max_num_nodes}
use antnet.Packet.Numbers.{pt_ant}
use antnet.Agent.State.{Env, sent, freed}
use antnet.Agent.Memorize.Path.{path, IsArray, visit}
use antnet.Agent.Memorize.Refine.{Visited}
use antnet.Agent.Memorize.Loops.{EndsAt, visit-cons, visit-IsDistinct}
use antnet.Agent.Hops.{hop_up, turned}
use antnet.Agent.Receive.{recv, recv_forward}
use antnet.Agent.Receive.Backward.{recv-recv_ant_pkt}
use antnet.Agent.Receive.Forward.{recv_ant_pkt-down, recv_forward-turned}
use antnet.Network.{Net, put, after, travel}
use antnet.Network.Journey.{
  rev_onto, IsAddressed, IsReturning, put-IsAddressed, learned, travel-learned,
}

rev_onto-rev_onto : (xs zs ys : List ℕ) → rev_onto (rev_onto xs zs) ys ≡ rev_onto zs (xs ++ ys)
rev_onto-rev_onto [] zs ys = refl
rev_onto-rev_onto (x ∷ xs) zs ys = rev_onto-rev_onto xs (x ∷ zs) ys

length-rev_onto : (xs ys : List ℕ) → length (rev_onto xs ys) ≡ length xs + length ys
length-rev_onto [] ys = omega arith
length-rev_onto (x ∷ xs) ys = omega (arith, length-rev_onto xs (x ∷ ys))

rev_onto-two : (xs zs : List ℕ) (b c : ℕ) → rev_onto (xs ++ b ∷ c ∷ []) zs ≡ c ∷ b ∷ rev_onto xs zs
rev_onto-two [] zs b c = refl
rev_onto-two (x ∷ xs) zs b c = rev_onto-two xs (x ∷ zs) b c

EndsAt-rev_onto :
    (a n y : ℕ) (zs ys : List ℕ) → EndsAt a (y ∷ ys) → EndsAt a (n ∷ rev_onto zs (y ∷ ys))
EndsAt-rev_onto a n y [] ys e = e
EndsAt-rev_onto a n y (z ∷ zs) ys e = EndsAt-rev_onto a n z zs (y ∷ ys) e

-- Read backwards, a path ends at its source.
EndsAt-source :
    (s b c : ℕ) (xs rest : List ℕ) → xs ++ b ∷ c ∷ [] ≡ s ∷ rest → EndsAt s (b ∷ rev_onto xs [])
EndsAt-source s b c [] rest e = cc
EndsAt-source s b c (x ∷ xs) rest e = let first : x ≡ s = cc in EndsAt-rev_onto s b x xs [] first

module _ {D : Type 0} where
  -- An ant that comes to its destination from its source `s`, along a path without loops.
  pub record IsArriving (p : Packet D) (s : ℕ) (ns : List ℕ) : Type 0 where
    pub array : IsArray p
    pub direction : p.ch.direction ≡ down
    pub ptype : p.ch.ptype ≡ pt_ant
    pub sport : p.ih.sport ≡ rt_port
    pub dport : p.ih.dport ≡ rt_port
    pub start : path p ≡ s ∷ ns
    pub source : p.ah.pkt_src ≡ s
    pub distinct : IsDistinct (path p)
    pub arrived : p.ih.daddr ≡ p.ah.pkt_dst
    pub far : p.ih.daddr ≢ s
    pub other : p.ih.saddr ≢ p.ih.daddr

  -- The ant behind the turn.
  pub IsReturning-turned :
      (p p' : Packet D) (s : ℕ) (ns xs : List ℕ) (prev : ℕ)
      → IsArriving p s ns
      → Visited p.ih.daddr p p'
      → path p' ≡ xs ++ prev ∷ p.ih.daddr ∷ []
      → IsReturning (hop_up (turned p') p.ih.daddr prev) (rev_onto xs []) []
  unfolding hop_up turned
  IsReturning-turned p p' s ns xs prev a v split =
      let (cons, _) = visit-cons p.ih.daddr s ns a.far in
      let whole : xs ++ prev ∷ p.ih.daddr ∷ [] ≡ s ∷ visit p.ih.daddr ns =
        sym split ∙ v.visited ∙ ap (visit p.ih.daddr) a.start ∙ cons in
      record {
        backward = record {
          array = record { size = v.array.size; within = v.array.within };
          direction = refl;
          sport = ap (λ ih. ih.sport) v.same_ih ∙ a.sport;
          dport = ap (λ ih. ih.dport) v.same_ih ∙ a.dport;
        };
        ant = refl;
        split = split ∙ sym (rev_onto-rev_onto xs [] (prev ∷ p.ih.daddr ∷ []));
        distinct =
            subst IsDistinct (sym v.visited) (visit-IsDistinct p.ih.daddr (path p) a.distinct).0;
        home =
            subst (λ n. EndsAt n (prev ∷ rev_onto xs [])) (sym (v.same_src ∙ a.source))
              (EndsAt-source s prev p.ih.daddr xs (visit p.ih.daddr ns) whole);
      }

module _ {R D : Type 0} ⦃d : Double D⦄ where
  -- What the agent of the destination does with the ant that comes.
  arrival :
      (env : Env R D) (net : Net R D) (p : Packet D) (s : ℕ) (ns : List ℕ)
      → IsAddressed net
      → IsArriving p s ns
      → length (path p) < max_num_nodes
      → (p' : Packet D) × (xs : List ℕ) × (prev : ℕ) × Visited p.ih.daddr p p'
        × (path p' ≡ xs ++ prev ∷ p.ih.daddr ∷ [])
        × (recv env (net p.ih.daddr) p
            ≡ some (net p.ih.daddr, sent (hop_up (turned p') p.ih.daddr prev) ∷ []))
  arrival env net p s ns addressed r room =
      let c = p.ih.daddr in
      let a = net c in
      let same = (addressed c).0 in
      let handled : recv env a p ≡ recv_forward env a p =
        recv-recv_ant_pkt env a p (λ e. r.other (e ∙ (addressed c).1)) r.ptype
        ∙ recv_ant_pkt-down env a p r.direction r.sport r.dport in
      elim (recv_forward-turned env a p s ns r.array r.start (λ e. r.far (sym same ∙ e))
        (same ∙ r.arrived)) [
          | inl (p', xs, prev, v, two, e) ↦ (
            p',
            xs,
            prev,
            subst (λ n. Visited n p p') same v,
            two ∙ ap (λ n. xs ++ prev ∷ n ∷ []) same,
            handled ∙ e ∙ ap (λ n. some (a, sent (hop_up (turned p') n prev) ∷ [])) same,
          )
          | inr ((missing, full), e) ↦ absurd (omega (arith, room, full))
        ]

  -- A forward ant that comes to its destination, along a path without loops that has room for the
  -- node, in a network where every agent has the address of its node, turns round and visits the
  -- nodes of its memory in the reverse order, each once, down to its source, where it is released.
  -- The tables of all of them but the destination are updated, for the link to the node that the
  -- ant comes from and for the destinations behind it, and no other agent changes.
  pub travel-turned :
      (env : Env R D) (net : Net R D) (p : Packet D) (s : ℕ) (ns : List ℕ)
      → IsAddressed net
      → IsArriving p s ns
      → length (path p) < max_num_nodes
      → (back : List ℕ) × (q : Packet D) × (rev_onto (visit p.ih.daddr (path p)) []
          ≡ p.ih.daddr ∷ back)
        × (travel (length (visit p.ih.daddr (path p))) env net p
            ≡ some (
              p.ih.daddr ∷ back,
              learned (put net p.ih.daddr (net p.ih.daddr)) back p.ih.daddr [],
              freed q,
            ))
  unfolding travel hop_up turned
  travel-turned env net p s ns addressed r room =
      let c = p.ih.daddr in
      let (p', xs, prev, v, two, turns) = arrival env net p s ns addressed r room in
      let zs = rev_onto xs [] in
      let nodes : visit c (path p) ≡ xs ++ prev ∷ c ∷ [] = sym v.visited ∙ two in
      let fuel : length (visit c (path p)) ≡ suc (suc (length zs)) =
        ap length nodes ∙ omega (arith, length-append xs (prev ∷ c ∷ []), length-rev_onto xs []) in
      let (q, rest) =
        travel-learned env (put net c (net c)) (hop_up (turned p') c prev) zs []
          (put-IsAddressed net c (net c) (addressed c).0 (addressed c).1 addressed)
          (IsReturning-turned p p' s ns xs prev r v two) in
      (
        prev ∷ zs,
        q,
        ap (λ ls. rev_onto ls []) nodes ∙ rev_onto-two xs [] prev c,
        ap (λ n. travel n env net p) fuel
            ∙ ap (λ o. o >>= after (travel (suc (length zs)) env) net c) turns
            ∙ ap (λ o. o >>= λ (ns', net', e). some (c ∷ ns', net', e)) rest,
      )
