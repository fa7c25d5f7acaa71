-- ===== src/Agent/Tests.antt =====
-- The agent's handlers on a small path.
use antnet.Common.{
  All, ℕ, zero, suc, ◌<◌, ◌≡◌, refl, ◌⊎◌, none, some, List, [], ◌∷◌, ◌++◌, arith, true, false,
  length,
}
use antnet.Common.Map.{Map, find, IsSorted}
use antnet.Double.{nought}
use antnet.Double.Ratio.{Ratio, ratio_double}
use antnet.Double.Ratio.Field.{Ratio-IsExact}
use antnet.Packet.{Packet, down, up, max_num_nodes}
use antnet.Rtable.Destination.{draw}
use antnet.Rtable.{AntnetRtable}
use antnet.Agent.State.{TrafficMatrix, Antnet, Event, sent, dropped, rtr_route_loop}
use antnet.Agent.Memorize.{memorize}
use antnet.Agent.Memorize.Path.{path, IsArray, until}
use antnet.Agent.Memorize.Refine.{Visited, memorize-Visited}
use antnet.Agent.Hops.{hop_up, turned, update_table}
use antnet.Agent.Hops.Tables.{update_each, update_table-each}
use antnet.Agent.Hops.Onward.{IsOnward}
use antnet.Agent.Receive.{recv_forward}
use antnet.Agent.Receive.Backward.{IsBackward}
use antnet.Agent.Receive.Forward.{IsFull, recv_forward-turned, recv_forward-IsOnward}
use antnet.Agent.Send.{new_ant, send_ant_pkt}
use antnet.Agent.Send.Start.{IsSent, send_ant_pkt-IsSent}
use antnet.Agent.Init.{initialize_rtable}
use antnet.Agent.Init.Rows.{links, initialize_rtable-find}
use antnet.Agent.Traffic.{update_traffic}
use antnet.Agent.Traffic.Best.{IsBest, update_traffic-IsBest}
use antnet.Fixture.{half, counter, agent_at, ant, small_env}

-- A forward ant from 0 to 2 that comes from 0 to 1, the same at 2, and the way back.
abbrev at_one : Packet Ratio
at_one = ant down (0 ∷ []) 1 0 2 0 1

abbrev at_two : Packet Ratio
at_two = ant down (0 ∷ 1 ∷ []) 2 0 2 1 2

abbrev looping : Packet Ratio
looping = ant down (0 ∷ 1 ∷ 3 ∷ []) 3 0 2 3 1

abbrev back : Packet Ratio
back = ant up (0 ∷ 1 ∷ 2 ∷ []) 3 2 0 2 1

abbrev home : Packet Ratio
home = ant up (0 ∷ 1 ∷ 2 ∷ []) 3 2 0 1 0

looping-IsArray : IsArray looping
looping-IsArray = record { size = refl; within = omega arith }

memorize-Visited_example :
    ((p' : Packet Ratio) × (memorize (agent_at 1) nought looping ≡ some (true, p', []))
      × Visited 1 looping p')
    ⊎ ((memorize (agent_at 1) nought looping
          ≡ some (false, looping, dropped looping rtr_route_loop ∷ []))
        × (until 1 (path looping) ≡ none)
        × (length (path looping) ≡ max_num_nodes))
memorize-Visited_example = memorize-Visited (agent_at 1) nought looping looping-IsArray

update_table-each_example :
    update_table (agent_at 1) back
    ≡ some (record (agent_at 1) {
      rtable = record { rt = update_each 2 half (2 ∷ []) (agent_at 1).rtable.rt; rnum = 0 };
    })
update_table-each_example =
    update_table-each (agent_at 1) back (0 ∷ []) [] 2 (record { size = refl; within = omega arith })
      refl (ground arith)

back-IsBackward : IsBackward back
back-IsBackward = record {
  array = record { size = refl; within = omega arith };
  direction = refl;
  sport = refl;
  dport = refl;
}

home-IsBackward : IsBackward home
home-IsBackward = record {
  array = record { size = refl; within = omega arith };
  direction = refl;
  sport = refl;
  dport = refl;
}

recv_forward-turned_example :
    ((p' : Packet Ratio) × (xs : List ℕ) × (prev : ℕ) × Visited 2 at_two p'
      × (path p' ≡ xs ++ prev ∷ 2 ∷ [])
      × (recv_forward small_env (agent_at 2) at_two
          ≡ some (agent_at 2, sent (hop_up (turned p') 2 prev) ∷ [])))
    ⊎ (IsFull (agent_at 2) at_two
        × (recv_forward small_env (agent_at 2) at_two
            ≡ some (agent_at 2, dropped at_two rtr_route_loop ∷ [])))
recv_forward-turned_example =
    recv_forward-turned small_env (agent_at 2) at_two 0 (1 ∷ [])
      (record { size = refl; within = omega arith }) refl (omega arith) refl

recv_forward-IsOnward_example :
    ((p' : Packet Ratio) × (t : AntnetRtable ℕ Ratio) × (e : Event (Packet Ratio)) × Visited 1
        at_one p'
      × IsOnward small_env (agent_at 1) p' e
      × (t.rt ≡ (agent_at 1).rtable.rt)
      × (recv_forward small_env (agent_at 1) at_one
          ≡ some (record (agent_at 1) { rtable = t }, e ∷ [])))
    ⊎ (IsFull (agent_at 1) at_one
        × (recv_forward small_env (agent_at 1) at_one
            ≡ some (agent_at 1, dropped at_one rtr_route_loop ∷ [])))
recv_forward-IsOnward_example =
    recv_forward-IsOnward small_env (agent_at 1) at_one
      (record { size = refl; within = omega arith }) (omega arith) refl

send_ant_pkt-IsSent_example :
    (a' : Antnet ℕ Ratio) × (e : Event (Packet Ratio)) × (send_ant_pkt 2 small_env 3 (agent_at 0)
      ≡ some (a', e ∷ []))
    × IsSent 3 (agent_at 0) 1 (new_ant small_env (agent_at 0) 1 small_env.allocpkt) e
    × (path (new_ant small_env (agent_at 0) 1 small_env.allocpkt) ≡ 0 ∷ [])
    × IsArray (new_ant small_env (agent_at 0) 1 small_env.allocpkt)
    × (a'.rtable.rt ≡ (agent_at 0).rtable.rt)
    × (a'.ant_seq_num ≡ 0)
send_ant_pkt-IsSent_example =
    send_ant_pkt-IsSent 1 2 small_env 3 (agent_at 0) (omega arith) same (omega arith) refl refl
  where
    same : (i : ℕ) → i < 1 → draw counter i 0 3 ≡ 0
    same zero h = refl
    same (suc i) h = absurd (omega arith)

abbrev fresh : Antnet ℕ Ratio
fresh = record (agent_at 0) { rtable = record { rt = []; rnum = 0 } }

initialize_rtable-find_example :
    (find 2 (initialize_rtable small_env fresh).2.rtable.rt ≡ some (links half (1 ∷ 2 ∷ [])))
    × IsSorted (initialize_rtable small_env fresh).2.rtable.rt
unfolding find
initialize_rtable-find_example = initialize_rtable-find small_env fresh 2 1 (2 ∷ []) refl tt

update_traffic-IsBest_example :
    (window : Map (List Ratio)) × (state : Map (TrafficMatrix Ratio)) × (r' : Ratio)
    × (update_traffic (agent_at 1) back nought
        ≡ some (record (agent_at 1) { window = window; state = state }, r'))
    × All (IsBest Ratio-IsExact window state) (2 ∷ [])
update_traffic-IsBest_example =
    update_traffic-IsBest Ratio-IsExact (agent_at 1) back nought (0 ∷ []) [] 2
      (record { size = refl; within = omega arith }) refl (ground arith)
