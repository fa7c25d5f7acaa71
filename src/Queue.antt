-- ===== src/Queue.antt =====
-- queue/: the link queues. `PacketQueue` of ns-2, which holds the packets, is an interface here, as
-- are the statistics of its class `Queue`. A packet is the number of its object.
pub mod DropTail
pub mod PriQueue
mod Tests
use antnet.Common.{ℕ, ◌+◌, ◌≡◌, Option, none, some, List, [], ◌∷◌, ◌++◌, length, get_elem?, Lacks}

-- The methods of `PacketQueue`; `chain` are the packets from `head()` on along `next_`.
pub record PacketQueue (Q : Type 0) : Type 0 where
  pub chain : Q → List ℕ
  pub length : Q → ℕ
  pub byte_length : Q → ℕ
  pub enque : Q → ℕ → Q
  pub enque_head : Q → ℕ → Q
  pub deque : Q → Option ℕ × Q
  pub tail : Q → Option ℕ
  pub lookup : Q → ℕ → Option ℕ
  pub remove : Q → ℕ → Q
  -- `remove(p, pp)`, where `pp` stands before `p`
  pub remove_behind : Q → ℕ → ℕ → Q

abbrev pub bytes : (ℕ → ℕ) → List ℕ → ℕ
bytes size [] = 0
bytes size (p ∷ ps) = size p + bytes size ps

-- What the class documents: a first-in first-out list of distinct packets, with insertion at the
-- head and removal of a packet.
pub record IsFifo {Q : Type 0} (pq : PacketQueue Q) (size : ℕ → ℕ) : Type 0 where
  pub length_lem : (q : Q) → pq.length q ≡ length (pq.chain q)
  pub byte_length_lem : (q : Q) → pq.byte_length q ≡ bytes size (pq.chain q)
  pub enque_lem : (q : Q) (p : ℕ) → pq.chain (pq.enque q p) ≡ pq.chain q ++ p ∷ []
  pub enque_head_lem : (q : Q) (p : ℕ) → pq.chain (pq.enque_head q p) ≡ p ∷ pq.chain q
  pub deque_empty : (q : Q) → pq.chain q ≡ [] → pq.deque q ≡ (none, q)
  pub deque_first :
      (q : Q) (p : ℕ) (ps : List ℕ)
      → pq.chain q ≡ p ∷ ps
      → (q' : Q) × (pq.deque q ≡ (some p, q')) × (pq.chain q' ≡ ps)
  pub tail_lem : (q : Q) (xs : List ℕ) (p : ℕ) → pq.chain q ≡ xs ++ p ∷ [] → pq.tail q ≡ some p
  pub lookup_lem : (q : Q) (i : ℕ) → pq.lookup q i ≡ get_elem? (pq.chain q) i
  pub remove_lem :
      (q : Q) (xs : List ℕ) (p : ℕ) (ys : List ℕ)
      → pq.chain q ≡ xs ++ p ∷ ys
      → Lacks p xs
      → pq.chain (pq.remove q p) ≡ xs ++ ys
  pub remove_behind_lem :
      (q : Q) (xs : List ℕ) (pp p : ℕ) (ys : List ℕ)
      → pq.chain q ≡ xs ++ pp ∷ p ∷ ys
      → Lacks p (xs ++ pp ∷ [])
      → pq.chain (pq.remove_behind q p pp) ≡ xs ++ pp ∷ ys
