-- ===== src/Queue/PriQueue/Order.antt =====
-- queue/priqueue.cc: the order of the packets, and which of them leave.
use antnet.Common.{
  ℕ, zero, suc, ◌+◌, ◌-◌, ◌≤◌, ◌<◌, ◌≡◌, refl, sym, ap, ◌∙◌, ◌⊎◌, inl, inr, leb, true, false,
  Option, none, some, List, [], ◌∷◌, ◌++◌, map, length, get_elem?, arith, length-append, IsDistinct,
  Bool-cases, ◌>>=◌, subst,
}
use antnet.Agent.State.{Event, sent, dropped, end_of_simulation}
use antnet.Queue.{PacketQueue, IsFifo}
use antnet.Queue.DropTail.{DropTail, Outcome, deque, with_stats}
use antnet.Queue.DropTail.Limit.{ends_with, IsDistinct-front, drops, stats_kept}
use antnet.Queue.PriQueue.{make_room, send_on, recv_high_priority, terminate}

get_elem?-last :
    (xs : List ℕ) (p : ℕ) → get_elem? (xs ++ p ∷ []) (length (xs ++ p ∷ []) - 1) ≡ some p
get_elem?-last xs p = rw (length-append xs (p ∷ [])) (at xs (length xs + 1 - 1) (omega arith))
  where
    at : (ys : List ℕ) (i : ℕ) → i ≡ length ys → get_elem? (ys ++ p ∷ []) i ≡ some p
    at [] i e = rw e refl
    at (y ∷ ys) i e = rw e (at ys (length ys) refl)

append-nil : (xs : List ℕ) → xs ++ [] ≡ xs
append-nil [] = refl
append-nil (x ∷ xs) = ap (◌∷◌ x) (append-nil xs)

module _ {Q S : Type 0} (pq : PacketQueue Q) (size : ℕ → ℕ) (fifo : IsFifo pq size)
    (update_stats : S → ℕ → S) where
  -- `deque` takes the first packet, and changes nothing but the queue and the statistics.
  pub record Takes (d : DropTail Q S) (p : ℕ) (ps : List ℕ) : Type 0 where
    pub d' : DropTail Q S
    pub result : deque pq update_stats d ≡ (some p, d')
    pub left : pq.chain d'.q ≡ ps
    pub limit : d'.qlim ≡ d.qlim

  deque-Takes : (d : DropTail Q S) (p : ℕ) (ps : List ℕ) → pq.chain d.q ≡ p ∷ ps → Takes d p ps
  unfolding deque
  deque-Takes d p ps e =
      let (q', got, left) = fifo.deque_first d.q p ps e in
      record {
        d' = record (with_stats pq update_stats d) { q = q' };
        result = rw got refl;
        left = left;
        limit = (stats_kept pq size fifo update_stats d).1.qlim;
      }

  deque_empty :
      (d : DropTail Q S)
      → pq.chain d.q ≡ []
      → (d' : DropTail Q S) × (deque pq update_stats d ≡ (none, d')) × (pq.chain d'.q ≡ [])
  unfolding deque
  deque_empty d e =
      (record (with_stats pq update_stats d) { q = d.q }, rw (fifo.deque_empty d.q e) refl, e)

  -- The round of `terminate` behind its call of `deque`.
  abbrev go : ℕ → Option ℕ × DropTail Q S → Outcome Q S
  go fuel r = elim r.0 [
    | none ↦ some (r.1, [])
    | some p ↦
        (terminate pq update_stats fuel r.1 >>= λ (d', events).
        some (d', dropped p end_of_simulation ∷ events))
  ]

  -- With more fuel than packets, `Terminate` drops every packet once, in order, and empties the
  -- queue.
  pub terminate_lem :
      (fuel : ℕ) (d : DropTail Q S) (ps : List ℕ)
      → pq.chain d.q ≡ ps
      → length ps < fuel
      → (d' : DropTail Q S) × (terminate pq update_stats fuel d
          ≡ some (d', map (λ p. dropped p end_of_simulation) ps))
        × (pq.chain d'.q ≡ [])
  unfolding terminate
  terminate_lem zero d ps e h = absurd (omega arith)
  terminate_lem (suc fuel) d [] e h =
      let (d', got, empty) = deque_empty d e in (d', ap (go fuel) got, empty)
  terminate_lem (suc fuel) d (p ∷ ps) e h =
      let t = deque-Takes d p ps e in
      let (d', rest, empty) = terminate_lem fuel t.d' ps t.left (omega arith) in
      (d', ap (go fuel) t.result ∙ rw rest refl, empty)

  make_room_fits :
      (d : DropTail Q S)
      → leb d.qlim (length (pq.chain d.q)) ≡ false
      → make_room pq d ≡ some (d, [])
  unfolding make_room
  make_room_fits d fits = simp (fifo.length_lem d.q, fits) refl

  -- One packet too many: the last one leaves.
  record Cut (d : DropTail Q S) : Type 0 where
    q' : Q
    last : ℕ
    result : make_room pq d ≡ some (record d { q = q' }, drops (last ∷ []))
    split : pq.chain d.q ≡ pq.chain q' ++ last ∷ []

  make_room-Cut :
      (d : DropTail Q S) (x : ℕ) (xs : List ℕ)
      → pq.chain d.q ≡ x ∷ xs
      → IsDistinct (pq.chain d.q)
      → leb d.qlim (length (pq.chain d.q)) ≡ true
      → Cut d
  unfolding make_room
  make_room-Cut d x xs e ds big =
      let (ys, p, split) = ends_with x xs in
      let whole : pq.chain d.q ≡ ys ++ p ∷ [] = e ∙ split in
      let (lacks, _) = IsDistinct-front p ys (subst IsDistinct whole ds) in
      let found : pq.lookup d.q (pq.length d.q - 1) ≡ some p =
        fifo.lookup_lem d.q (pq.length d.q - 1)
        ∙ ap (λ n. get_elem? (pq.chain d.q) (n - 1)) (fifo.length_lem d.q)
        ∙ ap (λ zs. get_elem? zs (length zs - 1)) whole
        ∙ get_elem?-last ys p in
      let full : leb d.qlim (pq.length d.q) ≡ true = ap (leb d.qlim) (fifo.length_lem d.q) ∙ big in
      record {
        q' = pq.remove d.q p;
        last = p;
        result = simp (full, found) refl;
        split =
            whole
            ∙ ap (λ zs. zs ++ p ∷ [])
                (sym (fifo.remove_lem d.q ys p [] whole lacks ∙ append-nil ys));
      }

  send_on_blocked : (d : DropTail Q S) → d.blocked ≡ true → send_on pq update_stats d ≡ (d, [])
  unfolding send_on
  send_on_blocked d stop = simp stop refl

  send_on_first :
      (d : DropTail Q S) (p : ℕ) (ps : List ℕ)
      → d.blocked ≡ false
      → pq.chain d.q ≡ p ∷ ps
      → (d' : DropTail Q S) × (send_on pq update_stats d ≡ (d', sent p ∷ []))
        × (pq.chain d'.q ≡ ps)
        × (d'.blocked ≡ true)
  unfolding send_on
  send_on_first d p ps free e =
      let t = deque-Takes d p ps e in
      (record (t.d') { blocked = true }, simp (free, t.result) refl, t.left, refl)

  -- While the queue is blocked, a packet with priority comes to its head; if that fills the queue
  -- up to its limit, the packet at the end is dropped.
  pub recv_high_priority_blocked :
      (d : DropTail Q S) (p : ℕ)
      → d.blocked ≡ true
      → IsDistinct (p ∷ pq.chain d.q)
      → (d' : DropTail Q S) × (events : List (Event ℕ)) × (recv_high_priority pq update_stats d p
          ≡ some (d', events))
        × (((pq.chain d'.q ≡ p ∷ pq.chain d.q) × (events ≡ []) × (length (pq.chain d'.q) < d.qlim))
            ⊎ ((last : ℕ) × (p ∷ pq.chain d.q ≡ pq.chain d'.q ++ last ∷ [])
                × (events ≡ drops (last ∷ []))
                × (d.qlim ≤ length (pq.chain d.q) + 1)))
  unfolding recv_high_priority
  recv_high_priority_blocked d p stop ds =
      let d1 : DropTail Q S = record d { q = pq.enque_head d.q p } in
      let head = fifo.enque_head_lem d.q p in
      elim (Bool-cases (leb d1.qlim (length (pq.chain d1.q)))) [
        | inr fits ↦ (
          d1,
          [],
          rw (make_room_fits d1 fits, send_on_blocked d1 stop) refl,
          inl (head, refl, ground (arith, ap length head)),
        )
        | inl big ↦
            let c = make_room-Cut d1 p (pq.chain d.q) head (subst IsDistinct (sym head) ds) big in
            let d2 : DropTail Q S = record d1 { q = c.q' } in
            (
              d2,
              drops (c.last ∷ []),
              rw (c.result, send_on_blocked d2 stop) refl,
              inr (c.last, sym head ∙ c.split, refl, ground (arith, ap length head)),
            )
      ]

  -- While the queue is not blocked and stays below its limit, a packet with priority is sent at once,
  -- before all that wait, which stay in order; then the queue is blocked.
  pub recv_high_priority_free :
      (d : DropTail Q S) (p : ℕ)
      → d.blocked ≡ false
      → length (pq.chain d.q) + 1 < d.qlim
      → (d' : DropTail Q S) × (recv_high_priority pq update_stats d p ≡ some (d', sent p ∷ []))
        × (pq.chain d'.q ≡ pq.chain d.q)
        × (d'.blocked ≡ true)
  unfolding recv_high_priority
  recv_high_priority_free d p free room =
      let d1 : DropTail Q S = record d { q = pq.enque_head d.q p } in
      let head = fifo.enque_head_lem d.q p in
      let fits : leb d1.qlim (length (pq.chain d1.q)) ≡ false = ground (arith, ap length head) in
      let (d', result, left, stop) = send_on_first d1 p (pq.chain d.q) free head in
      (d', rw (make_room_fits d1 fits, result) refl, left, stop)
