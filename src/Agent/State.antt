-- ===== src/Agent/State.antt =====
-- antnet.h, antnet_traffic.h and antnet_common.cc: what an agent keeps, what it sees of the
-- simulator, and what can become of a packet.
use antnet.Common.{ℕ, ◌+◌, ◌≡◌, length, arith, Option, List, [], ◌∷◌}
use antnet.Common.Map.{Map}
use antnet.Rtable.{Rng, AntnetRtable}
use antnet.Packet.{Packet}

pub record TrafficMatrix (D : Type 0) : Type 0 where
  pub mean_tt : D
  pub var_tt : D
  pub best_tt : D

-- `class Antnet`. A pending timer is the delay after which it expires; the objects that Tcl names
-- are numbers.
pub record Antnet (R D : Type 0) : Type 0 where
  pub addr : ℕ
  pub ra_addr : ℕ
  pub rtable : AntnetRtable R D
  pub state : Map (TrafficMatrix D)
  pub window : Map (List D)
  pub ant_seq_num : ℕ
  pub dmux : Option ℕ
  pub logtarget : Option ℕ
  pub ant_timer : Option D
  pub r_factor : D
  pub timer_ant : D
  pub num_nodes : ℕ

-- The simulator at the time of a call: the clock, every node's neighbour list, the length of the
-- queue of each link (`get-drop-queue` in Tcl and `DropTail::getlength`), the generator's
-- functions, a packet as `Agent::allocpkt` returns it, and IP_HDR_LEN.
pub record Env (R D : Type 0) : Type 0 where
  pub now : D
  pub neighbor_list : ℕ → List ℕ
  pub drop_queue : ℕ → ℕ → ℕ
  pub rng : Rng R D
  pub allocpkt : Packet D
  pub ip_hdr_len : ℕ

-- The reasons of cmu-trace.h that the code gives for a drop.
pub data Reason : Type 0 where
  rtr_route_loop end_of_simulation unspecified : Reason

-- What a handler does with a packet: `target_->recv(p)`, `Packet::free(p)` or `drop(p, why)`.
pub data Event (P : Type 0) : Type 0 where
  sent : P → Event P
  freed : P → Event P
  dropped : P → Reason → Event P

count_nodes : ℕ → List ℕ → ℕ
count_nodes count [] = count
count_nodes count (nb ∷ rest) = count_nodes (count + 1) rest

module _ {R D : Type 0} where
  unfoldable pub get_num_neighbors : Env R D → ℕ → ℕ
  unfolding count_nodes
  get_num_neighbors env node_addr = count_nodes 0 (env.neighbor_list node_addr)

  unfoldable pub get_queue_length : Env R D → ℕ → ℕ → ℕ
  get_queue_length env node1 node2 = env.drop_queue node1 node2

count_nodes-length : (count : ℕ) (ns : List ℕ) → count_nodes count ns ≡ count + length ns
unfolding count_nodes
count_nodes-length count [] = omega arith
count_nodes-length count (n ∷ ns) = omega (arith, count_nodes-length (count + 1) ns)

module _ {R D : Type 0} where
  pub get_num_neighbors-length :
      (env : Env R D) (addr : ℕ) → get_num_neighbors env addr ≡ length (env.neighbor_list addr)
  unfolding get_num_neighbors
  get_num_neighbors-length env addr = omega (arith, count_nodes-length 0 (env.neighbor_list addr))
