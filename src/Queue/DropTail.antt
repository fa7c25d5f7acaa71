-- ===== src/Queue/DropTail.antt =====
-- queue/drop-tail.{h,cc}: a queue with a limit. The limit and the sizes are not negative, and
-- products do not overflow.
pub mod Limit
pub mod Sequence
pub mod Shrink
pub mod Command
pub mod Attach
use antnet.Common.{
  ℕ, zero, suc, ◌+◌, ◌*◌, leb, ltb, if◌then◌else◌, Bool, true, false, Option, none, some, List, [],
  ◌∷◌, ◌++◌, ◌>>=◌,
}
use antnet.Agent.State.{Event, dropped, unspecified}
use antnet.Queue.{PacketQueue}

-- The object: the queue, the members that Tcl binds, and of the base class the limit, whether it is
-- blocked, and the state of the statistics.
pub record DropTail (Q S : Type 0) : Type 0 where
  pub q : Q
  pub drop_front : Bool
  pub summarystats : Bool
  pub qib : Bool
  pub mean_pktsize : ℕ
  pub qlim : ℕ
  pub blocked : Bool
  pub stats : S

-- An operation's outcome: the object and what became of packets, in order. `none` is a null pointer
-- that is used.
abbrev pub Outcome : Type 0 → Type 0 → Type 0
Outcome Q S = Option (DropTail Q S × List (Event ℕ))

module _ {Q S : Type 0} (pq : PacketQueue Q) where
  pub getlength : DropTail Q S → ℕ
  getlength d = pq.length d.q

  pub occupancy : DropTail Q S → ℕ
  occupancy d = if d.qib then pq.byte_length d.q else pq.length d.q

  -- `drop(pp)` of the packet that `q_->deque()` returns.
  pub drop_first : DropTail Q S → Outcome Q S
  drop_first d =
      let (pp, q) = pq.deque d.q in
      (pp >>= λ p. some (record d { q = q }, dropped p unspecified ∷ []))

  pub drop_last : DropTail Q S → Outcome Q S
  drop_last d =
      (pq.tail d.q >>= λ pp. some (record d { q = pq.remove d.q pp }, dropped pp unspecified ∷ []))

  -- The test of `drop_front_` in `shrink_queue`.
  pub drop_one : Bool → DropTail Q S → Outcome Q S
  unfolding drop_first drop_last
  drop_one true d = drop_first d
  drop_one false d = drop_last d

  module _ (size : ℕ → ℕ) where
    -- The condition of `enque`.
    pub full : DropTail Q S → ℕ → Bool
    full d p =
        if d.qib
        then leb (d.qlim * d.mean_pktsize) (pq.byte_length d.q + size p)
        else leb d.qlim (pq.length d.q + 1)

  -- The condition of `shrink_queue`.
  pub over : DropTail Q S → Bool
  over d =
      if d.qib
      then ltb (d.qlim * d.mean_pktsize) (pq.byte_length d.q)
      else ltb d.qlim (pq.length d.q)

  -- The `while` loop, with fuel; the events of a round come before those of the next.
  pub shrink_queue : ℕ → DropTail Q S → Outcome Q S
  unfolding over drop_one
  shrink_queue zero d = none
  shrink_queue (suc fuel) d =
      if over d
      then (drop_one d.drop_front d >>= λ (d', events).
          shrink_queue fuel d' >>= λ (d'', more). some (d'', events ++ more))
      else some (d, [])

  -- The tests of `enque`: whether the packet is too much, and `drop_front_`.
  pub place : Bool → Bool → DropTail Q S → ℕ → Outcome Q S
  unfolding drop_first
  place true true d p = drop_first (record d { q = pq.enque d.q p })
  place true false d p = some (d, dropped p unspecified ∷ [])
  place false front d p = some (record d { q = pq.enque d.q p }, [])

  module _ (update_stats : S → ℕ → S) where
    pub with_stats : DropTail Q S → DropTail Q S
    unfolding occupancy
    with_stats d =
        if d.summarystats then record d { stats = update_stats d.stats (occupancy d) } else d

    pub enque : (ℕ → ℕ) → DropTail Q S → ℕ → Outcome Q S
    unfolding full with_stats place
    enque size d p = place (full size d p) d.drop_front (with_stats d) p

    unfoldable pub deque : DropTail Q S → Option ℕ × DropTail Q S
    unfolding with_stats
    deque d = let (p, q) = pq.deque d.q in (p, record (with_stats d) { q = q })
