-- ===== src/Network/Tests.antt =====
-- The way back from node 2 over 1 to 0.
use antnet.Common.{ℕ, inl, inr, ◌≡◌, refl, some, List, [], ◌∷◌, arith}
use antnet.Double.Ratio.{Ratio, ratio_double}
use antnet.Packet.{Packet, up, down}
use antnet.Agent.State.{Antnet, Event, freed}
use antnet.Agent.Receive.{recv}
use antnet.Agent.Command.{start}
use antnet.Agent.Init.{new_antnet}
use antnet.Rtable.{antnet_rtable}
use antnet.Agent.Receive.Backward.{reinforced}
use antnet.Agent.Hops.{hop_up}
use antnet.Double.Ratio.Field.{Ratio-IsExact}
use antnet.Network.Roundtrip.{IsArriving, travel-turned}
use antnet.Network.Handled.{IsSafe}
use antnet.Network.Runs.{World, IsLive, here, later, deliver, started}
use antnet.Network.Runs.Reached.{Reach-recv, new_antnet-IsLive}
use antnet.Network.{put, travel}
use antnet.Network.Tables.{IsSound}
use antnet.Network.Journey.{IsReturning, between, rev_onto, learned, travel-learned}
use antnet.Fixture.{half, counter, agent_at, ant, small_env, small_table-IsTable, IsDistinct-links}

abbrev back : Packet Ratio
back = ant up (0 ∷ 1 ∷ 2 ∷ []) 3 2 0 2 1

back-IsReturning : IsReturning back (0 ∷ []) []
back-IsReturning = record {
  backward = record {
    array = record { size = refl; within = omega arith };
    direction = refl;
    sport = refl;
    dport = refl;
  };
  ant = refl;
  split = refl;
  distinct = ground arith;
  home = refl;
}

travel-learned_example :
    (q : Packet Ratio) × (travel 2 small_env agent_at back
      ≡ some (1 ∷ 0 ∷ [], learned agent_at (1 ∷ 0 ∷ []) 2 [], freed q))
travel-learned_example =
    travel-learned small_env agent_at back (0 ∷ []) [] (λ n. (refl, refl)) back-IsReturning

abbrev nbrs : ℕ → List ℕ
nbrs n = 1 ∷ 2 ∷ []

agents-IsSound : IsSound nbrs agent_at
agents-IsSound n = (small_table-IsTable, (refl, refl))

-- An ant from node 0 over 1 that comes to its destination 2.
abbrev arriving : Packet Ratio
arriving = ant down (0 ∷ 1 ∷ []) 2 0 2 1 2

arriving-IsArriving : IsArriving arriving 0 (1 ∷ [])
arriving-IsArriving = record {
  array = record { size = refl; within = omega arith };
  direction = refl;
  ptype = refl;
  sport = refl;
  dport = refl;
  start = refl;
  source = refl;
  distinct = ground arith;
  arrived = refl;
  far = omega arith;
  other = omega arith;
}

travel-turned_example :
    (nodes : List ℕ) × (q : Packet Ratio) × (rev_onto (0 ∷ 1 ∷ 2 ∷ []) [] ≡ 2 ∷ nodes)
    × (travel 3 small_env agent_at arriving
        ≡ some (2 ∷ nodes, learned (put agent_at 2 (agent_at 2)) nodes 2 [], freed q))
travel-turned_example =
    travel-turned small_env agent_at arriving 0 (1 ∷ []) (λ n. (refl, refl)) arriving-IsArriving
      (omega arith)

-- The backward ant under way alone, and after its delivery to node 1.
abbrev one_ant : World ℕ Ratio
one_ant = record { net = agent_at; flying = back ∷ [] }

abbrev delivered : World ℕ Ratio
delivered = record {
  net = put agent_at 1 (reinforced (agent_at 1) 2 []);
  flying = hop_up back 1 0 ∷ [];
}

one_ant-IsLive : IsLive nbrs one_ant
one_ant-IsLive = record {
  safe = record { addressed = λ n. (refl, refl); sound = agents-IsSound };
  ants = (inr (0 ∷ [], [], back-IsReturning, (inr (inl refl), (inl refl, tt))), tt);
}

Reach-recv_example :
    IsSafe nbrs delivered.net
    × ((a : Antnet ℕ Ratio) × (e : Event (Packet Ratio)) × (recv small_env
            (delivered.net 0)
            (hop_up back 1 0)
          ≡ some (a, e ∷ [])))
unfolding hop_up
Reach-recv_example =
    Reach-recv Ratio-IsExact nbrs (λ n. IsDistinct-links) 3 one_ant delivered small_env [] []
      (hop_up back 1 0) one_ant-IsLive
      (later here (
        deliver small_env [] [] back refl
          (between small_env agent_at back 0 [] [] (λ n. (refl, refl)) back-IsReturning)))
      refl

-- Node 0 of new agents is started.
abbrev first_start : World ℕ Ratio
first_start = record {
  net =
      put (new_antnet counter 3 half half 0) 0
        (start small_env (new_antnet counter 3 half half 0 0)).agent;
  flying = [];
}

new_antnet-IsLive_example : IsLive nbrs first_start
unfolding new_antnet antnet_rtable
new_antnet-IsLive_example =
    new_antnet-IsLive Ratio-IsExact nbrs (λ n. IsDistinct-links) 3 counter 0 half half first_start
      (refl, refl) (later here (started small_env 0 refl refl))
