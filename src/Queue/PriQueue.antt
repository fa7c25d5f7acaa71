-- ===== src/Queue/PriQueue.antt =====
-- queue/priqueue.cc: a drop-tail queue that puts some packets at its head.
pub mod Order
pub mod Filter
pub mod Command
pub mod Reset
use antnet.Common.{
  ℕ, zero, suc, ◌-◌, ◌==◌, leb, ltb, if◌then◌else◌, ◌||◌, Bool, true, false, Option, none, some,
  List, [], ◌∷◌, ◌++◌, ◌>>=◌,
}
use antnet.Common.Int.{ℤ, pos, negsuc}
use antnet.Packet.{HdrCmn, Dir, up, down}
use antnet.Packet.Numbers.{pt_message, pt_tora, pt_dsr, pt_aodv, pt_aomdv, pt_ant}
use antnet.Agent.State.{Event, sent, dropped, unspecified, end_of_simulation}
use antnet.Queue.{PacketQueue}
use antnet.Queue.DropTail.{DropTail, Outcome, deque}

pub is_up : Dir → Bool
is_up up = true
is_up Dir.none = false
is_up down = false

-- The cases of the switch that test the direction.
pub by_direction : ℕ → Bool
by_direction ptype =
    ptype == pt_dsr
    || ptype == pt_message
    || ptype == pt_tora
    || ptype == pt_aodv
    || ptype == pt_ant

pub same_hop : ℤ → ℕ → Bool
same_hop (pos n) id = n == id
same_hop (negsuc n) id = false

-- The loop of `filter(nsaddr_t)`: the first packet with that next hop, and the one before it.
pub find_hop : (ℕ → HdrCmn) → ℕ → Option ℕ → List ℕ → Option (ℕ × Option ℕ)
unfolding same_hop
find_hop hdr id pp [] = none
find_hop hdr id pp (p ∷ ps) =
    let rest = find_hop hdr id (some p) ps in
    if same_hop (hdr p).next_hop id then some (p, pp) else rest

module _ {Q S : Type 0} (pq : PacketQueue Q) where
  -- The packet at the end makes room.
  pub make_room : DropTail Q S → Outcome Q S
  make_room d =
      if leb d.qlim (pq.length d.q)
      then (pq.lookup d.q (pq.length d.q - 1) >>= λ to_drop.
          some (record d { q = pq.remove d.q to_drop }, dropped to_drop unspecified ∷ []))
      else some (d, [])

  module _ (update_stats : S → ℕ → S) where
    -- `target_->recv(p, &qh_)` of the first packet, unless the queue is blocked.
    pub send_on : DropTail Q S → DropTail Q S × List (Event ℕ)
    send_on d =
        if d.blocked
        then (d, [])
        else (let (first, d') = deque pq update_stats d in
            elim first [ none ↦ (d', []) | some p ↦ (record d' { blocked = true }, sent p ∷ []) ])

    pub recv_high_priority : DropTail Q S → ℕ → Outcome Q S
    unfolding make_room send_on
    recv_high_priority d p =
        (make_room (record d { q = pq.enque_head d.q p }) >>= λ (d', events).
        let (d'', more) = send_on d' in some (d'', events ++ more))

    -- `Queue::recv` of ns-2 is a parameter.
    pub recv :
        (ℕ → HdrCmn) → (DropTail Q S → ℕ → Outcome Q S) → Bool → DropTail Q S → ℕ → Outcome Q S
    unfolding recv_high_priority by_direction is_up
    recv hdr queue_recv prefer_routing d p =
        let ch = hdr p in
        if prefer_routing
        then (if by_direction ch.ptype
            then (if is_up ch.direction then recv_high_priority d p else queue_recv d p)
            else (if ch.ptype == pt_aomdv then recv_high_priority d p else queue_recv d p))
        else queue_recv d p

    -- `while((p = deque()))`, with fuel.
    pub terminate : ℕ → DropTail Q S → Outcome Q S
    terminate zero d = none
    terminate (suc fuel) d =
        let (first, d') = deque pq update_stats d in
        elim first [
          | none ↦ some (d', [])
          | some p ↦
              (terminate fuel d' >>= λ (d'', events).
              some (d'', dropped p end_of_simulation ∷ events))
        ]

module _ {Q : Type 0} (pq : PacketQueue Q) where
  -- `filter(PacketFilter, void*)`: the loop from index `i`, with fuel.
  pub filter : ℕ → (ℕ → Bool) → ℕ → Q → Option Q
  filter zero f i q = none
  filter (suc fuel) f i q =
      if ltb i (pq.length q)
      then (pq.lookup q i >>= λ p.
          (let removed = filter fuel f i (pq.remove q p) in
            let kept = filter fuel f (suc i) q in if f p then removed else kept))
      else some q

  pub filter_hop : (ℕ → HdrCmn) → ℕ → Q → Option ℕ × Q
  unfolding find_hop
  filter_hop hdr id q = elim (find_hop hdr id none (pq.chain q)) [
    | none ↦ (none, q)
    | some (p, none) ↦ (some p, pq.remove q p)
    | some (p, some pp) ↦ (some p, pq.remove_behind q p pp)
  ]
