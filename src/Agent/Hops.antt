-- ===== src/Agent/Hops.antt =====
-- antnet.cc: the next hop of a forward ant by `calc_next`, and of a backward ant from its memory.
pub mod Slots
pub mod Back
pub mod Tables
pub mod Onward
use antnet.Common.{
  ℕ, zero, suc, ◌-◌, ◌==◌, ltb, if◌then◌else◌, ◌||◌, Option, none, some, List, [], ◌∷◌, get_elem?,
  drop, ◌>>=◌,
}
use antnet.Common.Int.{pos}
use antnet.Double.{Double}
use antnet.Packet.{Packet, Memory, up}
use antnet.Packet.Numbers.{pt_ant}
use antnet.Rtable.{AntnetRtable, calc_next, update}
use antnet.Agent.State.{
  Antnet, Env, Event, sent, freed, dropped, rtr_route_loop, get_num_neighbors, get_queue_length,
}
use antnet.Agent.Memorize.{Scan, found, missing, outside}

module _ {D : Type 0} where
  -- The headers with a new sender and next hop.
  unfoldable pub hop : Packet D → ℕ → ℕ → Packet D
  hop p from next = record p {
    ch = record (p.ch) { next_hop = pos next };
    ih = record (p.ih) { saddr = from; daddr = next };
  }

  -- The same of a backward ant.
  unfoldable pub hop_up : Packet D → ℕ → ℕ → Packet D
  hop_up p from next = record p {
    ch = record (p.ch) { direction = up; ptype = pt_ant; next_hop = pos next };
    ih = record (p.ih) { saddr = from; daddr = next };
  }

  -- Source and destination change places.
  unfoldable pub turned : Packet D → Packet D
  turned p = record p { ah = record (p.ah) { pkt_src = p.ah.pkt_dst; pkt_dst = p.ah.pkt_src } }

  -- `for(i = pkt_mem_size - 1; i >= 0; i--)`, with `i + 1` entries left.
  pub scan_back : ℕ → ℕ → List (Memory D) → Scan
  scan_back addr zero ms = missing
  scan_back addr (suc i) ms =
      let rest = scan_back addr i ms in
      elim (get_elem? ms i) [
        | none ↦ outside
        | some m ↦ if m.node_addr == addr then found i else rest
      ]

  -- `for(i = 0; pkt_memory[i].node_addr != addr; i++);`, which has no bound but the array's end.
  pub seek : ℕ → List (Memory D) → ℕ → Option ℕ
  seek addr [] i = none
  seek addr (m ∷ ms) i = if m.node_addr == addr then some i else seek addr ms (suc i)

module _ {R D : Type 0} where
  pub create_backward_ant_pkt : Antnet R D → Packet D → Option (List (Event (Packet D)))
  unfolding hop_up turned
  create_backward_ant_pkt a p =
      let ah = p.ah in
      if ltb ah.pkt_mem_size 2
      then none
      else (get_elem? ah.pkt_memory (ah.pkt_mem_size - 2) >>= λ m.
          some (sent (hop_up (turned p) a.addr m.node_addr) ∷ []))

  pub backward_ant_pkt : Antnet R D → Packet D → Option (List (Event (Packet D)))
  unfolding scan_back hop_up
  backward_ant_pkt a p =
      let ah = p.ah in
      elim (scan_back a.addr ah.pkt_mem_size ah.pkt_memory) [
        | outside ↦ none
        | missing ↦ some (dropped p rtr_route_loop ∷ [])
        | found zero ↦ some (dropped p rtr_route_loop ∷ [])
        | found (suc index) ↦
            (get_elem? ah.pkt_memory index >>= λ m. some (sent (hop_up p a.addr m.node_addr) ∷ []))
      ]

module _ {R D : Type 0} ⦃d : Double D⦄ where
  pub forward_ant_pkt : Env R D → Antnet R D → Packet D → Antnet R D × List (Event (Packet D))
  unfolding hop get_num_neighbors get_queue_length
  forward_ant_pkt env a p =
      let parent = p.ih.saddr in
      let (next, rtable) =
        calc_next env.rng a.rtable (get_queue_length env) a.addr p.ah.pkt_dst parent
          (get_num_neighbors env a.addr) in
      (
        record a { rtable = rtable },
        (if next == a.addr || next == parent then freed p else sent (hop p a.addr next)) ∷ [],
      )

  -- `for(index = i; index < pkt_mem_size; index++)`, with the entries left.
  pub update_dests : ℕ → D → ℕ → List (Memory D) → AntnetRtable R D → Option (AntnetRtable R D)
  update_dests next r_factor zero ms t = some t
  update_dests next r_factor (suc left) [] t = none
  update_dests next r_factor (suc left) (m ∷ ms) t =
      update_dests next r_factor left ms (record t { rt = update t.rt m.node_addr next r_factor })

  pub update_table : Antnet R D → Packet D → Option (Antnet R D)
  unfolding seek update_dests
  update_table a p = do
    let ah = p.ah
    k ← seek a.addr ah.pkt_memory 0
    let i = suc k
    m ← get_elem? ah.pkt_memory i
    t ← update_dests m.node_addr a.r_factor (ah.pkt_mem_size - i) (drop i ah.pkt_memory) a.rtable
    some (record a { rtable = t })
