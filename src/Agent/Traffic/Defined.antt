-- ===== src/Agent/Traffic/Defined.antt =====
-- antnet.cc, `update_traffic`: the reads of the window and of the state.
use antnet.Common.{
  Option, ℕ, suc, ◌-◌, ◌≤◌, ◌≡◌, refl, ap, ◌∙◌, inl, inr, ◌==◌, ltb, if◌then◌else◌, none, some,
  List, [], ◌∷◌, ◌++◌, length, take, drop, arith, All, Lacks, Bool-cases, ==_iff, false, subst,
}
use antnet.Common.Map.{Map, find, insert, find-insert}
use antnet.Double.{Double}
use antnet.Packet.{Packet, Memory}
use antnet.Agent.State.{Antnet, TrafficMatrix}
use antnet.Agent.Memorize.Path.{nodes, path, IsArray}
use antnet.Agent.Hops.Slots.{here-Holds, next-Holds}
use antnet.Agent.Hops.Tables.{seek-lem, drop-split}
use antnet.Agent.Hops.{seek}
use antnet.Agent.Traffic.{
  push_back, update_window, update_state, find_r, observe, least, reinforcement, get_win_size,
  update_traffic,
}

module _ {D : Type 0} where
  -- The destination has a trip time in the window.
  abbrev pub HasTime : Map (List D) → ℕ → Type 0
  HasTime window j = (x : D) × (xs : List D) × (find j window ≡ some (x ∷ xs))

  not_empty : (xs : List D) (x : D) → (y : D) × (ys : List D) × (xs ++ x ∷ [] ≡ y ∷ ys)
  not_empty [] x = (x, [], refl)
  not_empty (y ∷ xs) x = (y, xs ++ x ∷ [], refl)

  abbrev times_of : ℕ → Map (List D) → List D
  times_of dest window = elim (find dest window) [ none ↦ [] | some xs ↦ xs ]

  push_back-find :
      (dest j : ℕ) (tt : D) (window : Map (List D))
      → find j (push_back dest tt window)
        ≡ (if dest == j then some (times_of dest window ++ tt ∷ []) else find j window)
  unfolding push_back
  push_back-find dest j tt window = ground (
    arith,
    find-insert dest j (tt ∷ []) window,
    find-insert dest j (times_of dest window ++ tt ∷ []) window,
  )

  push_back-HasTime :
      (dest j : ℕ) (tt : D) (window : Map (List D))
      → HasTime window j
      → HasTime (push_back dest tt window) j
  push_back-HasTime dest j tt window (x, xs, e) = elim (Bool-cases (dest == j)) [
    | inl here ↦
        let (y, ys, e') = not_empty (times_of dest window) tt in
        (y, ys, push_back-find dest j tt window ∙ rw here (ap some e'))
    | inr there ↦ (x, xs, push_back-find dest j tt window ∙ rw there e)
  ]

  push_back-HasTime_here :
      (dest : ℕ) (tt : D) (window : Map (List D)) → HasTime (push_back dest tt window) dest
  push_back-HasTime_here dest tt window =
      let (y, ys, e) = not_empty (times_of dest window) tt in
      (y, ys, push_back-find dest dest tt window ∙ rw ((==_iff dest dest).1 refl) (ap some e))

module _ {D : Type 0} ⦃d : Double D⦄ where
  open d use {sub}

  -- The destination has an entry in the state, whose best trip time is that of the window.
  abbrev pub HasEntry : Map (List D) → Map (TrafficMatrix D) → ℕ → Type 0
  HasEntry window state j =
      (t : TrafficMatrix D) × (x : D) × (xs : List D) × (find j window ≡ some (x ∷ xs))
      × (find j state ≡ some t)
      × (t.best_tt ≡ least x (x ∷ xs))

  observe-best :
      (tt mintt : D) (o : Option (TrafficMatrix D)) → (observe tt mintt o).best_tt ≡ mintt
  unfolding observe
  observe-best tt mintt none = refl
  observe-best tt mintt (some old) = refl

  insert-HasEntry_here :
      (window : Map (List D)) (dest : ℕ) (t : TrafficMatrix D) (state : Map (TrafficMatrix D))
      (x : D) (xs : List D)
      → find dest window ≡ some (x ∷ xs)
      → t.best_tt ≡ least x (x ∷ xs)
      → HasEntry window (insert dest t state) dest
  insert-HasEntry_here window dest t state x xs e best =
      (t, x, xs, e, find-insert dest dest t state ∙ rw ((==_iff dest dest).1 refl) refl, best)

  insert-HasEntry :
      (window : Map (List D)) (dest j : ℕ) (t : TrafficMatrix D) (state : Map (TrafficMatrix D))
      → HasEntry window (insert dest t state) dest
      → HasEntry window state j
      → HasEntry window (insert dest t state) j
  insert-HasEntry window dest j t state new (u, x, xs, timed, e, best) =
      elim (Bool-cases (dest == j)) [
        | inl here ↦ subst (HasEntry window (insert dest t state)) ((==_iff dest j).0 here) new
        | inr there ↦ (u, x, xs, timed, find-insert dest j t state ∙ rw there e, best)
      ]

  update_window-HasTime :
      (initialtt : D) (ms : List (Memory D)) (window : Map (List D)) (j : ℕ)
      → HasTime window j
      → HasTime (update_window initialtt ms window) j
  unfolding update_window
  update_window-HasTime initialtt [] window j h = h
  update_window-HasTime initialtt (m ∷ ms) window j h =
      update_window-HasTime initialtt ms _ j (push_back-HasTime m.node_addr j _ window h)

  update_window-All :
      (initialtt : D) (ms : List (Memory D)) (window : Map (List D))
      → All (λ (m : Memory D). HasTime (update_window initialtt ms window) m.node_addr) ms
  unfolding update_window
  update_window-All initialtt [] window = tt
  update_window-All initialtt (m ∷ ms) window = (
    update_window-HasTime initialtt ms _ m.node_addr
        (push_back-HasTime_here m.node_addr (sub m.trip_time initialtt) window),
    update_window-All initialtt ms _,
  )

  update_state-All :
      (initialtt : D) (window : Map (List D)) (ms : List (Memory D)) (state : Map (TrafficMatrix D))
      → All (λ (m : Memory D). HasTime window m.node_addr) ms
      → (state' : Map (TrafficMatrix D)) × (update_state initialtt window ms state ≡ some state')
        × All (λ (m : Memory D). HasEntry window state' m.node_addr) ms
        × ((j : ℕ) → HasEntry window state j → HasEntry window state' j)
  unfolding update_state
  update_state-All initialtt window [] state h = (state, refl, tt, λ j e. e)
  update_state-All initialtt window (m ∷ ms) state ((x, xs, e), h) =
      let new : TrafficMatrix D =
        observe (sub m.trip_time initialtt) (least x (x ∷ xs)) (find m.node_addr state) in
      let next = insert m.node_addr new state in
      let here =
        insert-HasEntry_here window m.node_addr new state x xs e
          (observe-best (sub m.trip_time initialtt) (least x (x ∷ xs)) (find m.node_addr state)) in
      let (state', got, entries, kept) = update_state-All initialtt window ms next h in
      (
        state',
        rw (e, update_state) got,
        (kept m.node_addr here, entries),
        λ j has. kept j (insert-HasEntry window m.node_addr j new state here has),
      )

  find_r-All :
      (initialtt : D) (window : Map (List D)) (state : Map (TrafficMatrix D)) (ms : List (Memory D))
      (r : D)
      → All (λ (m : Memory D). HasEntry window state m.node_addr) ms
      → (r' : D) × (find_r initialtt window state ms r ≡ some r')
  unfolding find_r
  find_r-All initialtt window state [] r h = (r, refl)
  find_r-All initialtt window state (m ∷ ms) r ((t, x, xs, timed, e, best), h) =
      let found = reinforcement (sub m.trip_time initialtt) t (get_win_size window m.node_addr) in
      let (r', got) = find_r-All initialtt window state ms found h in (r', rw (e, find_r) got)

  All-nodes :
      (P : ℕ → Type 0) (ms : List (Memory D))
      → All (λ (m : Memory D). P m.node_addr) ms
      → All P (nodes ms)
  All-nodes P [] h = tt
  All-nodes P (m ∷ ms) (p, h) = (p, All-nodes P ms h)

  module _ {R : Type 0} where
    -- At a node of the path that has a node behind it, `update_traffic` is defined: every iterator
    -- and entry that it reads is there. It changes the window and the state alone.
    pub update_traffic-All :
        (a : Antnet R D) (p : Packet D) (r : D) (xs ys : List ℕ) (next : ℕ)
        → IsArray p
        → path p ≡ xs ++ a.addr ∷ next ∷ ys
        → Lacks a.addr xs
        → (window : Map (List D)) × (state : Map (TrafficMatrix D)) × (r' : D) × (update_traffic a p
              r
            ≡ some (record a { window = window; state = state }, r'))
          × All (HasEntry window state) (next ∷ ys)
    unfolding update_traffic
    update_traffic-All a p r xs ys next arr split l =
        let k = p.ah.pkt_mem_size in
        let ms = p.ah.pkt_memory in
        let i = suc (length xs) in
        let fits : k ≤ length ms = omega (arith, arr.size, arr.within) in
        let sought : seek a.addr ms 0 ≡ some (length xs) =
          seek-lem a.addr k 0 ms xs (next ∷ ys) split l ∙ ap some (omega arith) in
        let here = here-Holds k ms xs ys a.addr next split in
        let slot = next-Holds k ms xs ys a.addr next split in
        let seen = take (k - i) (drop i ms) in
        let initialtt = here.entry.trip_time in
        let window = update_window initialtt seen a.window in
        let times = update_window-All initialtt seen a.window in
        let (state, got, entries, kept) = update_state-All initialtt window seen a.state times in
        let (r', last) = find_r-All initialtt window state seen r entries in
        let within : ltb (length ms) k ≡ false = ground arith in
        (
          window,
          state,
          r',
          rw (sought, update_traffic, here.got, slot.got, within, got, last) refl,
          subst (All (HasEntry window state)) (drop-split k ms xs (next ∷ ys) a.addr split)
              (All-nodes (HasEntry window state) seen entries),
        )
