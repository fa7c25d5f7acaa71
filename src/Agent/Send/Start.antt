-- ===== src/Agent/Send/Start.antt =====
-- antnet.cc, `send_ant_pkt` and `expire`: the ant that a node sends out.
use antnet.Common.{
  none-ne-some, ℕ, suc, ◌+◌, ◌%◌, ◌^◌, ◌<◌, ◌≡◌, ◌≢◌, refl, ◌∙◌, ◌⊎◌, inl, inr, ◌==◌, if◌then◌else◌,
  some, List, [], ◌∷◌, arith, length, Has, Bool-cases, Option-cases, ==_iff, subst, sym, ap, set,
  take, true, length-set,
}
use mathlib.Core.Option.{some-injective}
use antnet.Common.Map.{find}
use antnet.Double.{Double, nought}
use antnet.Packet.{Packet, Memory, max_num_nodes}
use antnet.Rtable.{Rng, PheromoneMatrix, AntnetRtable, calc_next, calc_destination}
use antnet.Rtable.Update.{neighbors_of}
use antnet.Rtable.Choice.{IsChoice, choice_other, calc_next-IsChoice}
use antnet.Rtable.Destination.{state_after, draw, calc_destination_returns, calc_destination_other}
use antnet.Agent.State.{Antnet, Env, Event, sent, freed, get_num_neighbors, get_queue_length}
use antnet.Agent.Memorize.Path.{nodes, path, IsArray}
use antnet.Agent.Send.{new_ant, routed, send_ant_pkt}

module _ {D : Type 0} where
  path-set :
      (ms : List (Memory D)) (m : Memory D)
      → 0 < length ms
      → nodes (take 1 (set ms 0 m)) ≡ m.node_addr ∷ []
  path-set [] m h = absurd (omega arith)
  path-set (x ∷ ms) m h = refl

module _ {R D : Type 0} ⦃d : Double D⦄ where
  -- The new ant remembers its source alone, in an array of the right size.
  new_ant-path :
      (env : Env R D) (a : Antnet R D) (dest : ℕ)
      → length env.allocpkt.ah.pkt_memory ≡ max_num_nodes
      → let p = new_ant env a dest env.allocpkt in (path p ≡ a.addr ∷ []) × IsArray p
  unfolding new_ant
  new_ant-path env a dest size = (
    path-set env.allocpkt.ah.pkt_memory _ (omega (arith, size)),
    record { size = length-set env.allocpkt.ah.pkt_memory 0 _ ∙ size; within = omega arith },
  )

  -- Released for want of a link, or sent to a neighbour in the row of the destination.
  abbrev pub IsSent : ℕ → Antnet R D → ℕ → Packet D → Event (Packet D) → Type 0
  IsSent num_nodes a dest p e =
      (e ≡ freed p)
      ⊎ ((next : ℕ) × (row : PheromoneMatrix D) × (e ≡ sent (routed num_nodes a next p))
          × (next ≢ a.addr)
          × (find dest a.rtable.rt ≡ some row)
          × Has next (neighbors_of row))

  sent_to :
      (g : Rng R D) (queue : ℕ → ℕ → ℕ) (num num_nodes : ℕ) (a : Antnet R D) (p : Packet D)
      (dest next : ℕ)
      → IsChoice g queue a.addr a.addr num next (find dest a.rtable.rt)
      → IsSent num_nodes a dest p
          (if next == a.addr then freed p else sent (routed num_nodes a next p))
  sent_to g queue num num_nodes a p dest next choice = elim (Bool-cases (next == a.addr)) [
    | inl e ↦ rw e (inl refl)
    | inr e ↦
        let ne : next ≢ a.addr = ground (arith, ==_iff next a.addr) in
        let (row, got, has) = choice_other g queue a.addr a.addr num next ne _ choice in
        rw e (inr (next, row, refl, ne, got, has))
  ]

  -- The outcome once the destination is drawn, with the table that the drawing leaves.
  send_ant_pkt-drawn :
      (fuel : ℕ) (env : Env R D) (num_nodes : ℕ) (a : Antnet R D) (dest : ℕ) (t : AntnetRtable R D)
      → calc_destination env.rng fuel a.rtable num_nodes a.addr ≡ some (dest, t)
      → t.rt ≡ a.rtable.rt
      → length env.allocpkt.ah.pkt_memory ≡ max_num_nodes
      → d.le nought nought ≡ true
      → let p = new_ant env a dest env.allocpkt in
        (t' : AntnetRtable R D) × (e : Event (Packet D)) × (send_ant_pkt fuel env num_nodes a
          ≡ some (record a { ant_seq_num = (a.ant_seq_num + 1) % 2 ^ 8; rtable = t' }, e ∷ []))
        × IsSent num_nodes a dest p e
        × (path p ≡ a.addr ∷ [])
        × IsArray p
        × (t'.rt ≡ a.rtable.rt)
  unfolding send_ant_pkt
  send_ant_pkt-drawn fuel env num_nodes a dest t drawn same size zero_le =
      let (rows, choice) =
        calc_next-IsChoice env.rng t (get_queue_length env) a.addr dest a.addr
          (get_num_neighbors env a.addr) zero_le in
      let (one_node, arr) = new_ant-path env a dest size in
      let (next, t') =
        calc_next env.rng t (get_queue_length env) a.addr dest a.addr
          (get_num_neighbors env a.addr) in
      let p = new_ant env a dest env.allocpkt in
      (
        t',
        if next == a.addr then freed p else sent (routed num_nodes a next p),
        rw (drawn, send_ant_pkt) refl,
        sent_to env.rng (get_queue_length env) (get_num_neighbors env a.addr) num_nodes a _ dest _ (
            subst
              (IsChoice env.rng (get_queue_length env) a.addr a.addr (get_num_neighbors env a.addr)
                next)
              (ap (find dest) same) choice),
        one_node,
        arr,
        rows ∙ same,
      )

  -- If the generator's first `k` draws are the node itself and the next one is another, the call is
  -- defined, given more fuel than `k`: it makes one ant for that destination, whose path is the node
  -- alone, sends it to a neighbour in the destination's row or releases it, and counts the sequence
  -- number up, from 255 to 0. The rows of the table stay as they are.
  pub send_ant_pkt-IsSent :
      (k fuel : ℕ) (env : Env R D) (num_nodes : ℕ) (a : Antnet R D)
      → k < fuel
      → ((i : ℕ) → i < k → draw env.rng i a.rtable.rnum num_nodes ≡ a.addr)
      → draw env.rng k a.rtable.rnum num_nodes ≢ a.addr
      → length env.allocpkt.ah.pkt_memory ≡ max_num_nodes
      → d.le nought nought ≡ true
      → let dest = draw env.rng k a.rtable.rnum num_nodes in
        let p = new_ant env a dest env.allocpkt in
        (a' : Antnet R D) × (e : Event (Packet D)) × (send_ant_pkt fuel env num_nodes a
          ≡ some (a', e ∷ []))
        × IsSent num_nodes a dest p e
        × (path p ≡ a.addr ∷ [])
        × IsArray p
        × (a'.rtable.rt ≡ a.rtable.rt)
        × (a'.ant_seq_num ≡ (a.ant_seq_num + 1) % 2 ^ 8)
  send_ant_pkt-IsSent k fuel env num_nodes a h same other size zero_le =
      let dest = draw env.rng k a.rtable.rnum num_nodes in
      let t = record (a.rtable) { rnum = state_after env.rng (suc k) a.rtable.rnum num_nodes } in
      let drawn = calc_destination_returns env.rng k fuel a.rtable num_nodes a.addr h same other in
      let (t', e, sends, to, one_node, arr, rows) =
        send_ant_pkt-drawn fuel env num_nodes a dest t drawn refl size zero_le in
      (
        record a { ant_seq_num = (a.ant_seq_num + 1) % 2 ^ 8; rtable = t' },
        e,
        sends,
        to,
        one_node,
        arr,
        rows,
        refl,
      )

  -- Whenever the call is defined, it has one event and keeps the address and the rows.
  pub record IsSending (num_nodes : ℕ) (env : Env R D) (a a' : Antnet R D)
      (es : List (Event (Packet D))) : Type 0 where
    pub dest : ℕ
    pub event : Event (Packet D)
    pub other : dest ≢ a.addr
    pub only : es ≡ event ∷ []
    pub table : AntnetRtable R D
    pub agent : a' ≡ record a { ant_seq_num = (a.ant_seq_num + 1) % 2 ^ 8; rtable = table }
    pub rows : table.rt ≡ a.rtable.rt
    pub to : IsSent num_nodes a dest (new_ant env a dest env.allocpkt) event
    pub start : path (new_ant env a dest env.allocpkt) ≡ a.addr ∷ []
    pub array : IsArray (new_ant env a dest env.allocpkt)

  pub send_ant_pkt-IsSending :
      (fuel : ℕ) (env : Env R D) (num_nodes : ℕ) (a a' : Antnet R D) (es : List (Event (Packet D)))
      → send_ant_pkt fuel env num_nodes a ≡ some (a', es)
      → length env.allocpkt.ah.pkt_memory ≡ max_num_nodes
      → d.le nought nought ≡ true
      → IsSending num_nodes env a a' es
  unfolding send_ant_pkt
  send_ant_pkt-IsSending fuel env num_nodes a a' es defined size zero_le =
      elim (Option-cases (calc_destination env.rng fuel a.rtable num_nodes a.addr)) [
        | inl e ↦ absurd (none-ne-some (rw e at defined))
        | inr ((dest, t), e) ↦
            let (other, same) = calc_destination_other env.rng fuel a.rtable num_nodes a.addr e in
            let (t', event, sends, to, start, arr, rows) =
              send_ant_pkt-drawn fuel env num_nodes a dest t e same size zero_le in
            let both = some-injective _ _ (sym defined ∙ sends) in
            record {
              dest = dest;
              event = event;
              other = other;
              only = ap (λ (r : Antnet R D × List (Event (Packet D))). r.1) both;
              table = t';
              agent = ap (λ (r : Antnet R D × List (Event (Packet D))). r.0) both;
              rows = rows;
              to = to;
              start = start;
              array = arr;
            }
      ]
