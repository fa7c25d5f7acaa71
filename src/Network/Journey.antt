-- ===== src/Network/Journey.antt =====
-- The way of a backward ant along the path of its memory, from delivery to delivery.
use antnet.Common.{
  ℕ, suc, ◌≡◌, ◌≢◌, refl, sym, ap, ◌∙◌, ◌==◌, some, List, [], ◌∷◌, ◌++◌, length, Has, Lacks,
  IsDistinct, ==_iff, subst, Bool-cases, ◌>>=◌, inl, inr,
}
use mathlib.Core.List.{append_assoc}
use antnet.Double.{Double}
use antnet.Packet.{Packet}
use antnet.Packet.Numbers.{pt_ant}
use antnet.Agent.State.{Antnet, Env, sent, freed}
use antnet.Agent.Memorize.Path.{path}
use antnet.Agent.Memorize.Loops.{EndsAt}
use antnet.Agent.Hops.{hop_up}
use antnet.Agent.Receive.{recv}
use antnet.Agent.Receive.Backward.{
  reinforced, IsBackward, recv-recv_ant_pkt, recv_ant_pkt-between, recv_ant_pkt-home,
}
use antnet.Rtable.Invariant.{ne_of_Lacks}
use antnet.Network.{Net, put, after, travel}

-- `zs` reversed, in front of `ys`.
abbrev pub rev_onto : List ℕ → List ℕ → List ℕ
rev_onto [] ys = ys
rev_onto (z ∷ zs) ys = rev_onto zs (z ∷ ys)

rev_onto-append : (zs ys : List ℕ) → rev_onto zs ys ≡ rev_onto zs [] ++ ys
rev_onto-append [] ys = refl
rev_onto-append (z ∷ zs) ys =
    rev_onto-append zs (z ∷ ys)
    ∙ sym (append_assoc (rev_onto zs []) (z ∷ []) ys)
    ∙ ap (λ ls. ls ++ ys) (sym (rev_onto-append zs (z ∷ [])))

Lacks-rev_onto : (c : ℕ) (zs ys : List ℕ) → Lacks c zs → Lacks c ys → Lacks c (rev_onto zs ys)
Lacks-rev_onto c [] ys l k = k
Lacks-rev_onto c (z ∷ zs) ys (ne, l) k = Lacks-rev_onto c zs (z ∷ ys) l (ne, k)

-- Without loops, the nodes before and behind `c` are others.
IsDistinct-rev_onto : (zs ys : List ℕ) → IsDistinct (rev_onto zs ys) → IsDistinct ys
IsDistinct-rev_onto [] ys ds = ds
IsDistinct-rev_onto (z ∷ zs) ys ds = (IsDistinct-rev_onto zs (z ∷ ys) ds).1

-- Without loops, a node of `xs` does not come before it.
Lacks-before : (c : ℕ) (zs xs : List ℕ) → IsDistinct (rev_onto zs xs) → Has c xs → Lacks c zs
Lacks-before c [] xs ds has = tt
Lacks-before c (z ∷ zs) xs ds has = (
  ne_of_Lacks z c xs (IsDistinct-rev_onto zs (z ∷ xs) ds).0 has,
  Lacks-before c zs (z ∷ xs) ds (inr has),
)

EndsAt-Lacks : (a c n : ℕ) (ns : List ℕ) → EndsAt a (n ∷ ns) → Lacks c (n ∷ ns) → c ≢ a
EndsAt-Lacks a c n [] e (ne, l) = λ q. ne (e ∙ sym q)
EndsAt-Lacks a c n (m ∷ ns) e (ne, l) = EndsAt-Lacks a c m ns e l

module _ {R D : Type 0} where
  -- Every agent has the address of its node.
  abbrev pub IsAddressed : Net R D → Type 0
  IsAddressed net = (n : ℕ) → ((net n).addr ≡ n) × ((net n).ra_addr ≡ n)

  pub put-IsAddressed :
      (net : Net R D) (c : ℕ) (a : Antnet R D)
      → a.addr ≡ c
      → a.ra_addr ≡ c
      → IsAddressed net
      → IsAddressed (put net c a)
  put-IsAddressed net c a addr ra_addr h m = elim (Bool-cases (c == m)) [
    | inl here ↦ let same = (==_iff c m).0 here in rw here (addr ∙ same, ra_addr ∙ same)
    | inr there ↦ rw there (h m)
  ]

module _ {R D : Type 0} ⦃d : Double D⦄ where
  -- The network with the tables updated along the way: at each node for the link to the node that
  -- the ant comes from, and for the destinations from there to the end of the path.
  abbrev pub learned : Net R D → List ℕ → ℕ → List ℕ → Net R D
  learned net [] next ys = net
  learned net (c ∷ zs) next ys = learned (put net c (reinforced (net c) next ys)) zs c (next ∷ ys)

  pub learned-IsAddressed :
      (net : Net R D) (c next : ℕ) (ys : List ℕ)
      → IsAddressed net
      → IsAddressed (put net c (reinforced (net c) next ys))
  learned-IsAddressed net c next ys h =
      put-IsAddressed net c (reinforced (net c) next ys) (h c).0 (h c).1 h

module _ {D : Type 0} where
  -- A backward ant on its way from `p.ih.saddr` to `p.ih.daddr`.
  pub record IsReturning (p : Packet D) (zs ys : List ℕ) : Type 0 where
    pub backward : IsBackward p
    pub ant : p.ch.ptype ≡ pt_ant
    pub split : path p ≡ rev_onto zs (p.ih.daddr ∷ p.ih.saddr ∷ ys)
    pub distinct : IsDistinct (path p)
    pub home : EndsAt p.ah.pkt_dst (p.ih.daddr ∷ zs)

  -- The lists without loops around the node that the ant comes to.
  around :
      (p : Packet D) (zs ys : List ℕ)
      → IsReturning p zs ys
      → Lacks p.ih.daddr zs × Lacks p.ih.daddr (p.ih.saddr ∷ ys)
  around p zs ys r =
      let ds = subst IsDistinct r.split r.distinct in
      let c = p.ih.daddr in
      let next = p.ih.saddr in
      (
        Lacks-before c zs (c ∷ next ∷ ys) ds (inl refl),
        (IsDistinct-rev_onto zs (c ∷ next ∷ ys) ds).0,
      )

  pub IsReturning-hop_up :
      (p : Packet D) (z : ℕ) (zs ys : List ℕ)
      → IsReturning p (z ∷ zs) ys
      → IsReturning (hop_up p p.ih.daddr z) zs (p.ih.saddr ∷ ys)
  unfolding hop_up
  IsReturning-hop_up p z zs ys r = record {
    backward = record {
      array = record { size = r.backward.array.size; within = r.backward.array.within };
      direction = refl;
      sport = r.backward.sport;
      dport = r.backward.dport;
    };
    ant = refl;
    split = r.split;
    distinct = r.distinct;
    home = r.home;
  }

module _ {R D : Type 0} ⦃d : Double D⦄ where
  pub at_home :
      (env : Env R D) (net : Net R D) (p : Packet D) (ys : List ℕ)
      → IsAddressed net
      → IsReturning p [] ys
      → recv env (net p.ih.daddr) p ≡ some (reinforced (net p.ih.daddr) p.ih.saddr ys, freed p ∷ [])
  at_home env net p ys addressed r =
      let c = p.ih.daddr in
      let a = net c in
      recv-recv_ant_pkt env a p (λ e. (around p [] ys r).1.0 (e ∙ (addressed c).1)) r.ant
      ∙ recv_ant_pkt-home env a p ys p.ih.saddr r.backward
          (r.split ∙ ap (λ n. n ∷ p.ih.saddr ∷ ys) (sym (addressed c).0)) ((addressed c).0 ∙ r.home)

  pub between :
      (env : Env R D) (net : Net R D) (p : Packet D) (z : ℕ) (zs ys : List ℕ)
      → IsAddressed net
      → IsReturning p (z ∷ zs) ys
      → recv env (net p.ih.daddr) p
        ≡ some (reinforced (net p.ih.daddr) p.ih.saddr ys, sent (hop_up p p.ih.daddr z) ∷ [])
  between env net p z zs ys addressed r =
      let c = p.ih.daddr in
      let a = net c in
      let same = (addressed c).0 in
      let (before, behind) = around p (z ∷ zs) ys r in
      recv-recv_ant_pkt env a p (λ e. behind.0 (e ∙ (addressed c).1)) r.ant
      ∙ recv_ant_pkt-between env a p (rev_onto zs []) ys z p.ih.saddr r.backward
          (r.split
            ∙ rev_onto-append zs (z ∷ c ∷ p.ih.saddr ∷ ys)
            ∙ ap (λ n. rev_onto zs [] ++ z ∷ n ∷ p.ih.saddr ∷ ys) (sym same))
          (subst (λ n. Lacks n (rev_onto zs [] ++ z ∷ [])) (sym same)
            (subst (Lacks c) (rev_onto-append zs (z ∷ []))
              (Lacks-rev_onto c (z ∷ zs) [] before tt)))
          (subst (λ n. Lacks n (p.ih.saddr ∷ ys)) (sym same) behind)
          (λ e. EndsAt-Lacks p.ah.pkt_dst c z zs r.home before (sym same ∙ e))
      ∙ ap (λ n. some (reinforced a p.ih.saddr ys, sent (hop_up p n z) ∷ [])) same

  -- A backward ant without loops in its path, on a path of any length, visits exactly the nodes of
  -- its memory that lie before the one it comes from, from the last to the source, and is released
  -- there. On the way every node's table is updated, for the link to the node that the ant comes
  -- from and for the destinations behind it, and no other agent changes.
  pub travel-learned :
      (env : Env R D) (net : Net R D) (p : Packet D) (zs ys : List ℕ)
      → IsAddressed net
      → IsReturning p zs ys
      → (q : Packet D) × (travel (suc (length zs)) env net p
          ≡ some (p.ih.daddr ∷ zs, learned net (p.ih.daddr ∷ zs) p.ih.saddr ys, freed q))
  unfolding travel hop_up
  travel-learned env net p [] ys addressed r =
      (p, ap (λ o. o >>= after (travel 0 env) net p.ih.daddr) (at_home env net p ys addressed r))
  travel-learned env net p (z ∷ zs) ys addressed r =
      let c = p.ih.daddr in
      let net' = put net c (reinforced (net c) p.ih.saddr ys) in
      let (q, rest) =
        travel-learned env net' (hop_up p c z) zs (p.ih.saddr ∷ ys)
          (learned-IsAddressed net c p.ih.saddr ys addressed) (IsReturning-hop_up p z zs ys r) in
      (
        q,
        ap (λ o. o >>= after (travel (suc (length zs)) env) net c)
              (between env net p z zs ys addressed r)
            ∙ ap (λ o. o >>= λ (ns, net'', e). some (c ∷ ns, net'', e)) rest,
      )
