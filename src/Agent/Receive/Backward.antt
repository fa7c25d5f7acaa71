-- ===== src/Agent/Receive/Backward.antt =====
-- antnet.cc, `recv_ant_pkt` on a backward ant: the table is updated, and the ant goes one node back
-- along its path, or is released at the source.
use antnet.Common.{ℕ, ◌≡◌, ◌≢◌, refl, sym, ◌∙◌, some, List, [], ◌∷◌, ◌++◌, arith, Lacks, ==_iff}
use mathlib.Core.List.{append_assoc}
use antnet.Double.{Double}
use antnet.Packet.{Packet, up, rt_port}
use antnet.Packet.Numbers.{pt_ant}
use antnet.Agent.State.{Antnet, Env, sent, freed}
use antnet.Agent.Memorize.Path.{path, IsArray}
use antnet.Agent.Hops.{hop_up}
use antnet.Agent.Hops.Back.{backward_ant_pkt-prev}
use antnet.Agent.Hops.Tables.{update_each, update_table-each}
use antnet.Agent.Receive.{recv_backward, recv_ant_pkt, recv}

module _ {D : Type 0} where
  -- A packet that reached its agent's port as a backward ant.
  pub record IsBackward (p : Packet D) : Type 0 where
    pub array : IsArray p
    pub direction : p.ch.direction ≡ up
    pub sport : p.ih.sport ≡ rt_port
    pub dport : p.ih.dport ≡ rt_port

module _ {R D : Type 0} ⦃d : Double D⦄ where
  -- The agent with the rows of `dests` updated for the link to the first of them.
  abbrev pub reinforced : Antnet R D → ℕ → List ℕ → Antnet R D
  reinforced a next ys = record a {
    rtable = record (a.rtable) { rt = update_each next a.r_factor (next ∷ ys) a.rtable.rt };
  }

  recv_ant_pkt-up :
      (env : Env R D) (a : Antnet R D) (p : Packet D)
      → IsBackward p
      → recv_ant_pkt env a p ≡ recv_backward a p
  unfolding recv_ant_pkt
  recv_ant_pkt-up env a p b = rw (b.sport, b.dport, b.direction) refl

  -- At a node between two others of the path the ant is sent to the one before.
  pub recv_ant_pkt-between :
      (env : Env R D) (a : Antnet R D) (p : Packet D) (xs ys : List ℕ) (prev next : ℕ)
      → IsBackward p
      → path p ≡ xs ++ prev ∷ a.addr ∷ next ∷ ys
      → Lacks a.addr (xs ++ prev ∷ [])
      → Lacks a.addr (next ∷ ys)
      → a.addr ≢ p.ah.pkt_dst
      → recv_ant_pkt env a p ≡ some (reinforced a next ys, sent (hop_up p a.addr prev) ∷ [])
  unfolding recv_backward
  recv_ant_pkt-between env a p xs ys prev next b split before behind far =
      recv_ant_pkt-up env a p b
      ∙ rw
          (
            update_table-each a p (xs ++ prev ∷ []) ys next b.array
                (split ∙ sym (append_assoc xs (prev ∷ []) (a.addr ∷ next ∷ ys))) before,
            recv_backward,
            backward_ant_pkt-prev (reinforced a next ys) p xs (next ∷ ys) prev b.array split behind,
          )
          (ground (arith, ==_iff a.addr p.ah.pkt_dst))

  -- At the first node of the path, to which the ant is addressed, it is released.
  pub recv_ant_pkt-home :
      (env : Env R D) (a : Antnet R D) (p : Packet D) (ys : List ℕ) (next : ℕ)
      → IsBackward p
      → path p ≡ a.addr ∷ next ∷ ys
      → a.addr ≡ p.ah.pkt_dst
      → recv_ant_pkt env a p ≡ some (reinforced a next ys, freed p ∷ [])
  unfolding recv_backward
  recv_ant_pkt-home env a p ys next b split home =
      recv_ant_pkt-up env a p b
      ∙ rw (update_table-each a p [] ys next b.array split tt, recv_backward)
          (ground (arith, ==_iff a.addr p.ah.pkt_dst))

  -- An ant that does not come from the node itself reaches the handler.
  pub recv-recv_ant_pkt :
      (env : Env R D) (a : Antnet R D) (p : Packet D)
      → p.ih.saddr ≢ a.ra_addr
      → p.ch.ptype ≡ pt_ant
      → recv env a p ≡ recv_ant_pkt env a p
  unfolding recv
  recv-recv_ant_pkt env a p ne ant =
      ground (arith, ==_iff p.ih.saddr a.ra_addr, ==_iff p.ch.ptype pt_ant)
