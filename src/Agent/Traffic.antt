-- ===== src/Agent/Traffic.antt =====
-- antnet.cc, `get_win_size` and `update_traffic`: the traffic model, which no other part calls yet.
pub mod Defined
pub mod Best
use antnet.Common.{
  ℕ, suc, ◌+◌, ◌-◌, if◌then◌else◌, ◌&&◌, Option, none, some, List, [], ◌∷◌, ◌++◌, length, ltb,
  get_elem?, take, drop, ◌>>=◌,
}
use antnet.Common.Int.{pos}
use antnet.Common.Map.{Map, find, insert}
use antnet.Double.{Double, nought}
use antnet.Packet.{Packet, Memory}
use antnet.Agent.State.{Antnet, TrafficMatrix}
use antnet.Agent.Hops.{seek}

module _ {D : Type 0} where
  win_count : ℕ → List D → ℕ
  win_count count [] = count
  win_count count (tt ∷ win_tt) = win_count (count + 1) win_tt

  pub get_win_size : Map (List D) → ℕ → ℕ
  unfolding win_count
  get_win_size window dest = elim (find dest window) [ none ↦ 0 | some win_tt ↦ win_count 0 win_tt ]

  -- `push_back` on the destination's window, which is created if there is none.
  pub push_back : ℕ → D → Map (List D) → Map (List D)
  push_back dest tt window = elim (find dest window) [
    | none ↦ insert dest (tt ∷ []) window
    | some win_tt ↦ insert dest (win_tt ++ tt ∷ []) window
  ]

module _ {D : Type 0} ⦃d : Double D⦄ where
  open d use {of_int, ratio, add, sub, mul, div, sqrt, lt, eq}

  abbrev varsigma : D
  varsigma = ratio 5 1000

  abbrev c1 : D
  c1 = ratio 7 10

  abbrev c2 : D
  c2 = ratio 3 10

  abbrev zee : D
  zee = ratio 17 10

  -- The first loop, over the entries behind this node.
  pub update_window : D → List (Memory D) → Map (List D) → Map (List D)
  unfolding push_back
  update_window initialtt [] window = window
  update_window initialtt (m ∷ ms) window =
      update_window initialtt ms (push_back m.node_addr (sub m.trip_time initialtt) window)

  pub least : D → List D → D
  least mintt [] = mintt
  least mintt (tt ∷ win_tt) = least (if lt tt mintt then tt else mintt) win_tt

  -- One destination of the second loop, with its best trip time.
  pub observe : D → D → Option (TrafficMatrix D) → TrafficMatrix D
  observe tt mintt none = record { mean_tt = tt; var_tt = tt; best_tt = mintt }
  observe tt mintt (some old) =
      let oldtt = old.mean_tt in
      let oldvar = old.var_tt in
      record {
        mean_tt = add oldtt (mul varsigma (sub tt oldtt));
        var_tt =
            add (mul oldvar oldvar)
              (mul varsigma (sub (mul (sub tt oldtt) (sub tt oldtt)) (mul oldvar oldvar)));
        best_tt = mintt;
      }

  -- The second loop. `none` is a window that is missing or empty.
  pub update_state :
      D → Map (List D) → List (Memory D) → Map (TrafficMatrix D) → Option (Map (TrafficMatrix D))
  unfolding least observe
  update_state initialtt window [] state = some state
  update_state initialtt window (m ∷ ms) state = elim (find m.node_addr window) [
    | none ↦ none
    | some [] ↦ none
    | some (first ∷ win_tt) ↦ update_state initialtt window ms (
        insert m.node_addr
          (observe (sub m.trip_time initialtt) (least first (first ∷ win_tt))
            (find m.node_addr state))
          state)
  ]

  -- The third loop's factor for one destination.
  pub reinforcement : D → TrafficMatrix D → ℕ → D
  reinforcement tt traffic w =
      let w_best = traffic.best_tt in
      let i_inf = w_best in
      let i_sup =
        add traffic.mean_tt (mul zee (div (sqrt traffic.var_tt) (sqrt (of_int (pos w))))) in
      if eq i_sup i_inf && eq i_inf tt
      then nought
      else add (mul c1 (div w_best tt))
          (mul c2 (div (sub i_sup i_inf) (add (sub i_sup i_inf) (sub tt i_inf))))

  -- The third loop: the global `r` at its end.
  pub find_r : D → Map (List D) → Map (TrafficMatrix D) → List (Memory D) → D → Option D
  unfolding reinforcement get_win_size
  find_r initialtt window state [] r = some r
  find_r initialtt window state (m ∷ ms) r = elim (find m.node_addr state) [
    | none ↦ none
    | some traffic ↦
        find_r initialtt window state ms
          (reinforcement (sub m.trip_time initialtt) traffic (get_win_size window m.node_addr))
  ]

  module _ {R : Type 0} where
    -- The agent and the global `r` afterwards. `none` is a read outside of the memory array. Every
    -- destination has an entry in `state_` when the third loop reads it.
    pub update_traffic : Antnet R D → Packet D → D → Option (Antnet R D × D)
    unfolding update_window
    update_traffic a p r = do
      let ah = p.ah
      k ← seek a.addr ah.pkt_memory 0
      here ← get_elem? ah.pkt_memory k
      next ← get_elem? ah.pkt_memory (suc k)
      let limit = length ah.pkt_memory
      unit ← if ltb limit ah.pkt_mem_size then none else some limit
      let seen = take (ah.pkt_mem_size - suc k) (drop (suc k) ah.pkt_memory)
      let window = update_window here.trip_time seen a.window
      state ← update_state here.trip_time window seen a.state
      r' ← find_r here.trip_time window state seen r
      some (record a { window = window; state = state }, r')
