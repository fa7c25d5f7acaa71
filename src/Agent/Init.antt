-- ===== src/Agent/Init.antt =====
-- antnet.cc, the constructor and `initialize_rtable`: the first routing table of a node.
pub mod Rows
use antnet.Common.{
  ℕ, zero, suc, ◌+◌, ◌-◌, ◌==◌, ltb, if◌then◌else◌, ◌&&◌, Bool, none, List, [], ◌∷◌,
}
use antnet.Common.Int.{pos}
use antnet.Double.{Double, one}
use antnet.Packet.{max_num_nodes}
use antnet.Rtable.{Rng, RtableT, antnet_rtable, add_entry}
use antnet.Agent.State.{Antnet, Env, get_num_neighbors}

module _ {R D : Type 0} where
  -- The variables that Tcl binds are arguments. `seconds` is the clock, which the table's
  -- constructor reads.
  unfoldable pub new_antnet : Rng R D → ℕ → D → D → ℕ → ℕ → Antnet R D
  new_antnet g num_nodes r_factor timer_ant seconds id = record {
    addr = id;
    ra_addr = id;
    rtable = antnet_rtable g seconds id;
    state = [];
    window = [];
    ant_seq_num = 0;
    dmux = none;
    logtarget = none;
    ant_timer = none;
    r_factor = r_factor;
    timer_ant = timer_ant;
    num_nodes = num_nodes;
  }

module _ {D : Type 0} where
  -- `while(nb != NULL)`
  pub add_neighbors : ℕ → D → List ℕ → RtableT D → RtableT D
  add_neighbors i phvalue [] rt = rt
  add_neighbors i phvalue (nb ∷ rest) rt = add_neighbors i phvalue rest (add_entry rt i nb phvalue)

  -- `for(int i = 0; i < NUM_NODES; i++)`, with the rounds left.
  pub add_dests : ℕ → ℕ → ℕ → D → List ℕ → RtableT D → RtableT D
  unfolding add_neighbors
  add_dests zero i addr phvalue nbs rt = rt
  add_dests (suc left) i addr phvalue nbs rt =
      add_dests left (suc i) addr phvalue nbs
        (if addr == i then rt else add_neighbors i phvalue nbs rt)

module _ {R D : Type 0} ⦃d : Double D⦄ where
  open d use {of_int, div}

  -- `NUM_NODES` afterwards, the warning, and the agent. Each call empties `file_rtable`.
  unfoldable pub initialize_rtable : Env R D → Antnet R D → ℕ × Bool × Antnet R D
  unfolding get_num_neighbors
  initialize_rtable env a =
      let num_nb = get_num_neighbors env a.addr in
      let warned = ltb max_num_nodes a.num_nodes && (a.addr == 0) in
      let rt =
        add_dests a.num_nodes 0 a.addr (div one (of_int (pos num_nb))) (env.neighbor_list a.addr)
          a.rtable.rt in
      (
        a.num_nodes,
        warned,
        if num_nb == 0 then a else record a { rtable = record (a.rtable) { rt = rt } },
      )
