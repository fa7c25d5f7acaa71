-- ===== src/Network/Carried.antt =====
-- What every agent of a network does with an ant on a link between neighbours.
use antnet.Common.{
  ℕ, ◌≡◌, ◌≢◌, refl, sym, ap, ◌∙◌, ◌⊎◌, List, [], ◌∷◌, ◌++◌, Has, IsDistinct, subst,
}
use antnet.Packet.{Packet, down, rt_port}
use antnet.Packet.Numbers.{pt_ant}
use antnet.Agent.State.{Event, sent, freed, dropped}
use antnet.Agent.Memorize.Path.{path, IsArray, visit}
use antnet.Agent.Memorize.Refine.{Visited}
use antnet.Agent.Memorize.Loops.{EndsAt, visit-EndsAt, visit-IsDistinct}
use antnet.Agent.Hops.{hop, hop_up, turned}
use antnet.Network.Journey.{rev_onto, IsReturning}
use antnet.Network.Roundtrip.{IsReturning-turned}
use antnet.Network.Tables.{Walk}
use antnet.Network.Walk.{Follows, visit-Follows, Walk-back}

module _ {D : Type 0} (nbrs : ℕ → List ℕ) where
  -- A forward ant on the link from `p.ih.saddr` to `p.ih.daddr`, whose path without loops leads over
  -- links from its source to `p.ih.saddr`.
  pub record IsForward (p : Packet D) : Type 0 where
    pub array : IsArray p
    pub direction : p.ch.direction ≡ down
    pub ptype : p.ch.ptype ≡ pt_ant
    pub sport : p.ih.sport ≡ rt_port
    pub dport : p.ih.dport ≡ rt_port
    pub nodes : List ℕ
    pub start : path p ≡ p.ah.pkt_src ∷ nodes
    pub distinct : IsDistinct (path p)
    pub follows : Follows nbrs p.ah.pkt_src nodes
    pub ends : EndsAt p.ih.saddr (p.ah.pkt_src ∷ nodes)
    pub link : Has p.ih.daddr (nbrs p.ih.saddr)
    pub other : p.ih.saddr ≢ p.ih.daddr
    pub far : p.ah.pkt_dst ≢ p.ah.pkt_src

  -- A backward ant whose way back leads over links.
  abbrev pub IsBackOnLinks : Packet D → Type 0
  IsBackOnLinks p =
      (zs : List ℕ) × (ys : List ℕ) × IsReturning p zs ys × Walk nbrs p.ih.saddr (p.ih.daddr ∷ zs)

  abbrev pub IsAnt : Packet D → Type 0
  IsAnt p = IsForward p ⊎ IsBackOnLinks p

  -- Sent on as an ant again, or the end of the ant.
  abbrev pub IsFate : Event (Packet D) → Type 0
  IsFate (sent q) = IsAnt q
  IsFate (freed q) = Unit {0}
  IsFate (dropped q why) = Unit {0}

  -- The ant that a node on its way sends on.
  pub IsForward-hop :
      (p p' : Packet D) (next : ℕ)
      → IsForward p
      → Visited p.ih.daddr p p'
      → Has next (nbrs p.ih.daddr)
      → next ≢ p.ih.daddr
      → IsForward (hop p' p.ih.daddr next)
  unfolding hop
  IsForward-hop p p' next f v has ne =
      let c = p.ih.daddr in
      let (rest, split, follows) =
        visit-Follows nbrs c p.ih.saddr p.ah.pkt_src f.nodes f.follows f.ends f.link in
      let whole : path p' ≡ p'.ah.pkt_src ∷ rest =
        v.visited ∙ ap (visit c) f.start ∙ split ∙ ap (λ n. n ∷ rest) (sym v.same_src) in
      record {
        array = record { size = v.array.size; within = v.array.within };
        direction = ap (λ ch. ch.direction) v.same_ch ∙ f.direction;
        ptype = ap (λ ch. ch.ptype) v.same_ch ∙ f.ptype;
        sport = ap (λ ih. ih.sport) v.same_ih ∙ f.sport;
        dport = ap (λ ih. ih.dport) v.same_ih ∙ f.dport;
        nodes = rest;
        start = whole;
        distinct = subst IsDistinct (sym v.visited) (visit-IsDistinct c (path p) f.distinct).0;
        follows = subst (λ n. Follows nbrs n rest) (sym v.same_src) follows;
        ends = subst (EndsAt c) (sym v.visited ∙ whole) (visit-EndsAt c (path p));
        link = has;
        other = λ e. ne (sym e);
        far = λ e. f.far (sym v.same_dst ∙ e ∙ v.same_src);
      }

  -- The ant that the destination turns round.
  pub IsBackOnLinks-turned :
      (p p' : Packet D) (xs : List ℕ) (prev : ℕ)
      → IsForward p
      → p.ih.daddr ≡ p.ah.pkt_dst
      → Visited p.ih.daddr p p'
      → path p' ≡ xs ++ prev ∷ p.ih.daddr ∷ []
      → IsBackOnLinks (hop_up (turned p') p.ih.daddr prev)
  unfolding hop_up turned
  IsBackOnLinks-turned p p' xs prev f arrived v two =
      let c = p.ih.daddr in
      let (rest, split, follows) =
        visit-Follows nbrs c p.ih.saddr p.ah.pkt_src f.nodes f.follows f.ends f.link in
      let whole : xs ++ prev ∷ c ∷ [] ≡ p.ah.pkt_src ∷ rest =
        sym two ∙ v.visited ∙ ap (visit c) f.start ∙ split in
      (
        rev_onto xs [],
        [],
        IsReturning-turned p p' p.ah.pkt_src f.nodes xs prev
            (record {
              array = f.array;
              direction = f.direction;
              ptype = f.ptype;
              sport = f.sport;
              dport = f.dport;
              start = f.start;
              source = refl;
              distinct = f.distinct;
              arrived = arrived;
              far = λ e. f.far (sym arrived ∙ e);
              other = f.other;
            })
            v two,
        back xs whole follows,
      )
    where
      back :
          {rest : List ℕ} (ks : List ℕ)
          → ks ++ prev ∷ p.ih.daddr ∷ [] ≡ p.ah.pkt_src ∷ rest
          → Follows nbrs p.ah.pkt_src rest
          → Walk nbrs p.ih.daddr (prev ∷ rev_onto ks [])
      back {rest} [] e g =
          let first : p.ah.pkt_src ≡ prev = cc in
          let behind : rest ≡ p.ih.daddr ∷ [] = cc in
          (
            subst (λ k. Has p.ih.daddr (nbrs k)) first
                (subst (Follows nbrs p.ah.pkt_src) behind g).0,
            tt,
          )
      back {rest} (k ∷ ks) e g =
          let first : p.ah.pkt_src ≡ k = cc in
          let behind : rest ≡ ks ++ prev ∷ p.ih.daddr ∷ [] = cc in
          Walk-back nbrs k prev p.ih.daddr ks []
            (subst (λ n. Follows nbrs n (ks ++ prev ∷ p.ih.daddr ∷ [])) first
              (subst (Follows nbrs p.ah.pkt_src) behind g))
            tt
