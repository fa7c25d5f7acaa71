-- ===== src/Network/Runs.antt =====
-- All runs of a network: agents are started, timers expire, and the ants under way are delivered or
-- lost, in any order.
pub mod Live
pub mod Reached
use antnet.Common.{ℕ, ◌≡◌, some, List, [], ◌∷◌, ◌++◌, All, length}
use antnet.Double.{Double}
use antnet.Packet.{Packet, rt_port, max_num_nodes}
use antnet.Agent.State.{Antnet, Env, Event, sent, freed, dropped}
use antnet.Agent.Send.{expire}
use antnet.Agent.Receive.{recv}
use antnet.Agent.Command.{start}
use antnet.Network.{Net, put}
use antnet.Network.Carried.{IsAnt}
use antnet.Network.Handled.{IsSafe}

-- The agents, and the packets on the links.
pub record World (R D : Type 0) : Type 0 where
  pub net : Net R D
  pub flying : List (Packet D)

module _ {D : Type 0} where
  abbrev pub sent_of : List (Event (Packet D)) → List (Packet D)
  sent_of [] = []
  sent_of (sent p ∷ es) = p ∷ sent_of es
  sent_of (freed p ∷ es) = sent_of es
  sent_of (dropped p why ∷ es) = sent_of es

module _ {R D : Type 0} where
  -- A fresh packet has the array of an ant, and `Agent::allocpkt` fills in the agent's ports. The
  -- agents rely on RT_PORT, which they assert on arrival.
  pub record IsFresh (env : Env R D) : Type 0 where
    pub size : length env.allocpkt.ah.pkt_memory ≡ max_num_nodes
    pub sport : env.allocpkt.ih.sport ≡ rt_port
    pub dport : env.allocpkt.ih.dport ≡ rt_port

module _ {R D : Type 0} ⦃d : Double D⦄ (nbrs : ℕ → List ℕ) (num_nodes : ℕ) where
  -- The simulator's state may be another at each step; the neighbour lists that "start" reads may
  -- not. An agent that has rows already is not started again.
  pub data Step (w : World R D) : World R D → Type 0 where
    deliver :
        (env : Env R D) (xs ys : List (Packet D)) (p : Packet D) {a : Antnet R D}
        {es : List (Event (Packet D))}
        → w.flying ≡ xs ++ p ∷ ys
        → recv env (w.net p.ih.daddr) p ≡ some (a, es)
        → Step w (record { net = put w.net p.ih.daddr a; flying = xs ++ (sent_of es ++ ys) })
    lost :
        (xs ys : List (Packet D)) (p : Packet D)
        → w.flying ≡ xs ++ p ∷ ys
        → Step w (record { net = w.net; flying = xs ++ ys })
    timer :
        (env : Env R D) (fuel n : ℕ) {a : Antnet R D} {es : List (Event (Packet D))}
        → IsFresh env
        → expire fuel env num_nodes (w.net n) ≡ some (a, es)
        → Step w (record { net = put w.net n a; flying = w.flying ++ sent_of es })
    started :
        (env : Env R D) (n : ℕ)
        → env.neighbor_list n ≡ nbrs n
        → (w.net n).rtable.rt ≡ []
        → Step w (record { net = put w.net n (start env (w.net n)).agent; flying = w.flying })

  pub data Reach (w : World R D) : World R D → Type 0 where
    here : Reach w w
    later : {t u : World R D} → Reach w t → Step t u → Reach w u

module _ {R D : Type 0} ⦃d : Double D⦄ (nbrs : ℕ → List ℕ) where
  -- The agents are safe, and every ant under way is on a link, with its path over links.
  pub record IsLive (w : World R D) : Type 0 where
    pub safe : IsSafe nbrs w.net
    pub ants : All (IsAnt nbrs) w.flying
