-- ===== src/Queue/DropTail/Shrink.antt =====
-- queue/drop-tail.cc, `shrink_queue`: which packets go when the limit is lowered.
use antnet.Common.{ℕ, ◌≤◌, ◌≡◌, ◌⊎◌, Bool, true, false, some, List, [], ◌∷◌, ◌++◌, length}
use antnet.Queue.{PacketQueue, IsFifo}
use antnet.Queue.DropTail.{DropTail, over, drop_one, shrink_queue}
use antnet.Queue.DropTail.Limit.{drops}

abbrev pub rev : List ℕ → List ℕ
rev [] = []
rev (p ∷ ps) = rev ps ++ p ∷ []

-- The packets `ps` without those of `gone`, which left in this order: from the front, or from the
-- tail.
abbrev pub IsShrunk : Bool → List ℕ → List ℕ → List ℕ → Type 0
IsShrunk true ps gone ps' = ps ≡ gone ++ ps'
IsShrunk false ps gone ps' = ps ≡ ps' ++ rev gone

module _ {Q S : Type 0} (pq : PacketQueue Q) (size : ℕ → ℕ) (fifo : IsFifo pq size) where
  -- One packet leaves; nothing but the queue changes.
  record Drops (front : Bool) (d : DropTail Q S) : Type 0 where
    q' : Q
    gone : ℕ
    result : drop_one pq front d ≡ some (record d { q = q' }, drops (gone ∷ []))
    shrunk : IsShrunk front (pq.chain d.q) (gone ∷ []) (pq.chain q')

  pub record Shrinks (fuel : ℕ) (d : DropTail Q S) : Type 0 where
    pub q' : Q
    pub gone : List ℕ
    pub result : shrink_queue pq fuel d ≡ some (record d { q = q' }, drops gone)
    pub shrunk : IsShrunk d.drop_front (pq.chain d.q) gone (pq.chain q')
    pub fits : over pq (record d { q = q' }) ≡ false
    pub least : (d.qib ≡ true) ⊎ ((gone ≡ []) ⊎ (d.qlim ≤ length (pq.chain q')))
