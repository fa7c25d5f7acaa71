-- ===== src/Agent/Receive.antt =====
-- antnet.cc, `recv` and `recv_ant_pkt`: what an agent does with a packet that arrives.
pub mod Backward
pub mod Forward
use antnet.Common.{
  ◌==◌, ltb, if◌then◌else◌, ◌&&◌, Bool, true, false, Option, none, some, List, [], ◌∷◌, ◌++◌, ◌>>=◌,
}
use antnet.Double.{Double}
use antnet.Packet.{Packet, Dir, down, up, rt_port}
use antnet.Packet.Numbers.{pt_ant}
use antnet.Agent.State.{Antnet, Env, Event, freed, dropped, rtr_route_loop}
use antnet.Agent.Memorize.{memorize}
use antnet.Agent.Hops.{create_backward_ant_pkt, backward_ant_pkt, forward_ant_pkt, update_table}

-- A handler's outcome: the agent afterwards and what became of the packet, in order. `none` is
-- undefined behaviour or a failed assertion.
abbrev pub Outcome : Type 0 → Type 0 → Type 0
Outcome R D = Option (Antnet R D × List (Event (Packet D)))

module _ {R D : Type 0} ⦃d : Double D⦄ where
  -- Behind `memorize`: its caller returns if the packet was dropped.
  memorized : Env R D → Antnet R D → Bool × Packet D × List (Event (Packet D)) → Outcome R D
  memorized env a (false, p, events) = some (a, events)
  memorized env a (true, p, events) =
      if a.addr == p.ah.pkt_dst
      then (create_backward_ant_pkt a p >>= λ more. some (a, events ++ more))
      else (let (a', more) = forward_ant_pkt env a p in some (a', events ++ more))

  pub recv_forward : Env R D → Antnet R D → Packet D → Outcome R D
  unfolding memorized
  recv_forward env a p = memorize a env.now p >>= memorized env a

  pub recv_backward : Antnet R D → Packet D → Outcome R D
  recv_backward a p = do
    a' ← update_table a p
    if a.addr == p.ah.pkt_dst
        then some (a', freed p ∷ [])
        else (backward_ant_pkt a' p >>= λ events. some (a', events))

  by_direction : Dir → Env R D → Antnet R D → Packet D → Outcome R D
  by_direction down env a p = recv_forward env a p
  by_direction up env a p = recv_backward a p
  by_direction Dir.none env a p = some (a, [])

  pub recv_ant_pkt : Env R D → Antnet R D → Packet D → Outcome R D
  unfolding by_direction
  recv_ant_pkt env a p =
      if (p.ih.sport == rt_port) && (p.ih.dport == rt_port)
      then by_direction p.ch.direction env a p
      else none

  -- A packet that comes back to its sender before any hop is neither handled nor released.
  pub recv : Env R D → Antnet R D → Packet D → Outcome R D
  recv env a p =
      if p.ih.saddr == a.ra_addr
      then (if ltb 0 p.ch.num_forwards
          then some (a, dropped p rtr_route_loop ∷ [])
          else some (a, []))
      else (if p.ch.ptype == pt_ant
          then recv_ant_pkt env a p
          else some (a, dropped p rtr_route_loop ∷ []))
