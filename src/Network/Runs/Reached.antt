-- ===== src/Network/Runs/Reached.antt =====
-- What is true in every network that a run reaches.
use antnet.Common.{ℕ, ◌≡◌, refl, some, List, [], ◌∷◌, ◌++◌, IsDistinct, All, All-middle, subst}
use antnet.Double.{Double}
use antnet.Double.Laws.{IsExact}
use antnet.Packet.{Packet}
use antnet.Agent.State.{Antnet, Env, Event}
use antnet.Agent.Receive.{recv}
use antnet.Rtable.Update.{InUnit}
use antnet.Agent.Init.{new_antnet}
use antnet.Rtable.Invariant.{empty-IsTable}
use antnet.Rtable.{Rng, antnet_rtable}
use antnet.Network.Carried.{IsAnt}
use antnet.Network.Handled.{IsSafe, recv-IsHandled}
use antnet.Network.Runs.{World, Reach, IsLive}
use antnet.Network.Runs.Live.{Reach-IsLive}

module _ {R D : Type 0} ⦃d : Double D⦄ (laws : IsExact D) (nbrs : ℕ → List ℕ)
    (distinct : (n : ℕ) → IsDistinct (nbrs n)) (num_nodes : ℕ) where
  -- From a network whose agents have their nodes' addresses, tables of distributions over their links
  -- and reinforcement factors in [0, 1], and whose ants under way, if there are any, are on links that
  -- their paths lead over, agents without rows are started, timers expire, and ants are delivered or
  -- lost, in any order. In every network that is reached the addresses, tables and factors are still
  -- such, and whichever ant under way comes next, its node's agent handles it without a fault, and
  -- with one event: the ant is sent on, released or dropped. Arithmetic is exact, no node has two
  -- links to a neighbour, and fresh packets have the array and the ports of an ant.
  pub Reach-recv :
      (w t : World R D) (env : Env R D) (xs ys : List (Packet D)) (p : Packet D)
      → IsLive nbrs w
      → Reach nbrs num_nodes w t
      → t.flying ≡ xs ++ p ∷ ys
      → IsSafe nbrs t.net
        × ((a : Antnet R D) × (e : Event (Packet D)) × (recv env (t.net p.ih.daddr) p
              ≡ some (a, e ∷ [])))
  Reach-recv w t env xs ys p live reach split =
      let l = Reach-IsLive laws nbrs distinct num_nodes reach live in
      let all = subst (All (IsAnt nbrs)) split l.ants in
      let (a, e, got, _) =
        recv-IsHandled laws nbrs distinct env t.net p l.safe
          (All-middle (IsAnt nbrs) xs ys p all) in
      (l.safe, (a, e, got))

  -- The agents as the constructor makes them, one on each node.
  abbrev pub new_world : Rng R D → ℕ → D → D → World R D
  new_world g seconds r_factor timer_ant = record {
    net = new_antnet g num_nodes r_factor timer_ant seconds;
    flying = [];
  }

  -- In every network that is reached from new agents, with a reinforcement factor in [0, 1], by
  -- starts, timers, deliveries and losses in any order, every row of every agent's table is a
  -- distribution over its node's links, and every ant is on a link, with a path without loops: a
  -- forward ant's leads over links from its source, and a backward ant's back to its source. No
  -- agent is started again once it has rows, arithmetic is exact, no node has two links to a
  -- neighbour, and fresh packets have the array and the ports of an ant.
  pub new_antnet-IsLive :
      (g : Rng R D) (seconds : ℕ) (r_factor timer_ant : D) (t : World R D)
      → InUnit r_factor
      → Reach nbrs num_nodes (new_world g seconds r_factor timer_ant) t
      → IsLive nbrs t
  unfolding new_antnet antnet_rtable
  new_antnet-IsLive g seconds r_factor timer_ant t factor reach =
      Reach-IsLive laws nbrs distinct num_nodes reach (record {
        safe = record {
          addressed = λ n. (refl, refl);
          sound = λ n. (empty-IsTable (nbrs n) [] refl, factor);
        };
        ants = tt;
      })
