-- ===== src/Agent/Send.antt =====
-- antnet.cc, `send_ant_pkt` and the timer: how a node sends out forward ants.
pub mod Start
use antnet.Common.{
  ℕ, zero, suc, ◌+◌, ◌*◌, ◌%◌, ◌^◌, ◌==◌, if◌then◌else◌, Option, some, List, [], ◌∷◌, set, ◌>>=◌,
}
use antnet.Common.Int.{pos}
use antnet.Double.{Double, nought}
use antnet.Packet.{Packet, down, forward_ant, ant_size, ns_af_inet}
use antnet.Packet.Numbers.{pt_ant}
use antnet.Rtable.{calc_destination, calc_next}
use antnet.Agent.State.{Antnet, Env, Event, sent, freed, get_num_neighbors, get_queue_length}
use antnet.Agent.Receive.{Outcome}

module _ {R D : Type 0} ⦃d : Double D⦄ where
  -- The ant and common headers of a new ant; `num_nodes` is not used yet.
  unfoldable pub new_ant : Env R D → Antnet R D → ℕ → Packet D → Packet D
  new_ant env a dest p = record p {
    ah = record (p.ah) {
      pkt_type = forward_ant;
      pkt_src = a.addr;
      pkt_len = ant_size;
      pkt_seq_num = a.ant_seq_num;
      pkt_start_time = env.now;
      pkt_dst = dest;
      pkt_mem_size = 1;
      pkt_memory = set p.ah.pkt_memory 0 (record { node_addr = a.addr; trip_time = nought });
    };
    ch = record (p.ch) {
      ptype = pt_ant;
      direction = down;
      size = env.ip_hdr_len + ant_size;
      error = 0;
      addr_type = ns_af_inet;
    };
  }

  -- The next hop and the IP header.
  unfoldable pub routed : ℕ → Antnet R D → ℕ → Packet D → Packet D
  routed num_nodes a next p = record p {
    ch = record (p.ch) { next_hop = pos next };
    ih = record (p.ih) { saddr = a.addr; daddr = next; ttl = 2 * num_nodes };
  }

  -- `NUM_NODES` is a global of the program. `ant_seq_num_` is a byte.
  pub send_ant_pkt : ℕ → Env R D → ℕ → Antnet R D → Outcome R D
  unfolding get_num_neighbors get_queue_length new_ant routed
  send_ant_pkt fuel env num_nodes a = do
    (dest, rtable) ← calc_destination env.rng fuel a.rtable num_nodes a.addr
    let p = new_ant env a dest env.allocpkt
    let (next, rtable') =
        calc_next env.rng rtable (get_queue_length env) a.addr dest a.addr
          (get_num_neighbors env a.addr)
    let a' = record a { ant_seq_num = (a.ant_seq_num + 1) % 2 ^ 8; rtable = rtable' }
    some (a', (if next == a.addr then freed p else sent (routed num_nodes a next p)) ∷ [])

  -- `ant_timer_.resched(delay)`
  unfoldable pub resched : D → Antnet R D → Antnet R D
  resched delay a = record a { ant_timer = some delay }

  unfoldable pub reset_ant_timer : Antnet R D → Antnet R D
  unfolding resched
  reset_ant_timer a = resched a.timer_ant a

  -- `Ant_timer::expire`
  unfoldable pub expire : ℕ → Env R D → ℕ → Antnet R D → Outcome R D
  expire fuel env num_nodes a = do
    (a', events) ← send_ant_pkt fuel env num_nodes a
    some (reset_ant_timer a', events)
