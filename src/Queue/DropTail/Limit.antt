-- ===== src/Queue/DropTail/Limit.antt =====
-- queue/drop-tail.cc: the limit, and which packets are dropped.
use antnet.Common.{
  ℕ, ◌⊎◌, ◌≤◌, ◌*◌, ◌+◌, ◌<◌, ◌≡◌, ◌≢◌, refl, sym, ap, ◌∙◌, inl, inr, Bool, true, false, some, List,
  [], ◌∷◌, ◌++◌, map, length, arith, Lacks, IsDistinct, Bool-cases, subst,
}
use antnet.Agent.State.{Event, dropped, unspecified}
use antnet.Queue.{PacketQueue, IsFifo, bytes}
use antnet.Queue.DropTail.{place, DropTail, full, drop_first, with_stats, enque}

-- A list that is not empty ends with some packet.
pub ends_with : (x : ℕ) (xs : List ℕ) → (ys : List ℕ) × (p : ℕ) × (x ∷ xs ≡ ys ++ p ∷ [])
ends_with x [] = ([], x, refl)
ends_with x (y ∷ xs) = let (ys, p, e) = ends_with y xs in (x ∷ ys, p, ap (◌∷◌ x) e)

Lacks-front : (a p : ℕ) (ys : List ℕ) → Lacks a (ys ++ p ∷ []) → Lacks a ys × (p ≢ a)
Lacks-front a p [] (ne, l) = (tt, ne)
Lacks-front a p (y ∷ ys) (ne, l) = let (rest, last) = Lacks-front a p ys l in ((ne, rest), last)

pub IsDistinct-front :
    (p : ℕ) (ys : List ℕ) → IsDistinct (ys ++ p ∷ []) → Lacks p ys × IsDistinct ys
IsDistinct-front p [] ds = (tt, tt)
IsDistinct-front p (y ∷ ys) (l, ds) =
    let (rest, ne) = Lacks-front y p ys l in
    let (lacks, distinct) = IsDistinct-front p ys ds in
    (((λ e. ne (sym e)), lacks), (rest, distinct))

not_empty : (ps : List ℕ) (p : ℕ) → (x : ℕ) × (xs : List ℕ) × (ps ++ p ∷ [] ≡ x ∷ xs)
not_empty [] p = (p, [], refl)
not_empty (x ∷ ps) p = (x, ps ++ p ∷ [], refl)

abbrev pub drops : List ℕ → List (Event ℕ)
drops = map λ p. dropped p unspecified

-- What becomes of the packets `ps` and one more, `p`, by whether it is too much and by `drop_front`.
abbrev IsPlaced : Bool → Bool → List ℕ → ℕ → List ℕ → List (Event ℕ) → Type 0
IsPlaced true true ps p ps' events =
    (first : ℕ) × (ps ++ p ∷ [] ≡ first ∷ ps') × (events ≡ drops (first ∷ []))
IsPlaced true false ps p ps' events = (ps' ≡ ps) × (events ≡ drops (p ∷ []))
IsPlaced false front ps p ps' events = (ps' ≡ ps ++ p ∷ []) × (events ≡ [])

-- With `drop_front` the first packet goes and the new one is the last; otherwise the new one goes.
abbrev pub IsDropped : Bool → List ℕ → ℕ → List ℕ → List (Event ℕ) → Type 0
IsDropped true ps p ps' events =
    (first : ℕ) × (ps ++ p ∷ [] ≡ first ∷ ps') × (events ≡ drops (first ∷ []))
IsDropped false ps p ps' events = (ps' ≡ ps) × (events ≡ drops (p ∷ []))

module _ {Q S : Type 0} where
  -- The settings of the queue stay.
  pub record IsSame (d d' : DropTail Q S) : Type 0 where
    pub qlim : d'.qlim ≡ d.qlim
    pub drop_front : d'.drop_front ≡ d.drop_front
    pub qib : d'.qib ≡ d.qib
    pub mean_pktsize : d'.mean_pktsize ≡ d.mean_pktsize

  IsSame-queue : (d d' : DropTail Q S) (q : Q) → IsSame d d' → IsSame d (record d' { q = q })
  IsSame-queue d d' q s = record {
    qlim = s.qlim;
    drop_front = s.drop_front;
    qib = s.qib;
    mean_pktsize = s.mean_pktsize;
  }

module _ {Q S : Type 0} (pq : PacketQueue Q) (size : ℕ → ℕ) (fifo : IsFifo pq size) where
  -- The packets and one more would be fewer than the limit, or their bytes less than the limit's.
  abbrev pub HasRoom : Bool → DropTail Q S → ℕ → Type 0
  HasRoom true d p = bytes size (pq.chain d.q) + size p < d.qlim * d.mean_pktsize
  HasRoom false d p = length (pq.chain d.q) + 1 < d.qlim

  abbrev pub IsTight : Bool → DropTail Q S → ℕ → Type 0
  IsTight true d p = d.qlim * d.mean_pktsize ≤ bytes size (pq.chain d.q) + size p
  IsTight false d p = d.qlim ≤ length (pq.chain d.q) + 1

  -- What `enque` of `p` leaves of the packets.
  abbrev pub IsEnqued : DropTail Q S → ℕ → List ℕ → List (Event ℕ) → Type 0
  IsEnqued d p ps' events =
      (HasRoom d.qib d p × (ps' ≡ pq.chain d.q ++ p ∷ []) × (events ≡ []))
      ⊎ (IsTight d.qib d p × IsDropped d.drop_front (pq.chain d.q) p ps' events)

  full_or :
      (d : DropTail Q S) (p : ℕ)
      → ((full pq size d p ≡ false) × HasRoom d.qib d p)
        ⊎ ((full pq size d p ≡ true) × IsTight d.qib d p)
  unfolding full
  full_or d p = elim (Bool-cases d.qib) [
    | inl in_bytes ↦ rw in_bytes (ground (arith, fifo.byte_length_lem d.q))
    | inr packets ↦ rw packets (ground (arith, fifo.length_lem d.q))
  ]

  place-IsPlaced :
      (b front : Bool) (d : DropTail Q S) (p : ℕ)
      → (q' : Q) × (events : List (Event ℕ)) × (place pq b front d p
          ≡ some (record d { q = q' }, events))
        × IsPlaced b front (pq.chain d.q) p (pq.chain q') events
  unfolding place drop_first
  place-IsPlaced true true d p =
      let (first, rest, e) = not_empty (pq.chain d.q) p in
      let (q', got, left) =
        fifo.deque_first (pq.enque d.q p) first rest (fifo.enque_lem d.q p ∙ e) in
      (q', drops (first ∷ []), rw got refl, (first, e ∙ ap (◌∷◌ first) (sym left), refl))
  place-IsPlaced true false d p = (d.q, drops (p ∷ []), refl, (refl, refl))
  place-IsPlaced false front d p = (pq.enque d.q p, [], refl, (fifo.enque_lem d.q p, refl))

  pub stats_kept :
      (update_stats : S → ℕ → S) (d : DropTail Q S)
      → let d' = with_stats pq update_stats d in (d'.q ≡ d.q) × IsSame d d'
  unfolding with_stats
  stats_kept update_stats d = elim (Bool-cases d.summarystats) [
    | inl e ↦
        rw e (refl, record { qlim = refl; drop_front = refl; qib = refl; mean_pktsize = refl })
    | inr e ↦
        rw e (refl, record { qlim = refl; drop_front = refl; qib = refl; mean_pktsize = refl })
  ]

  IsPlaced-IsEnqued :
      (d : DropTail Q S) (p : ℕ) (ps' : List ℕ) (events : List (Event ℕ)) (front : Bool)
      → d.drop_front ≡ front
      → IsPlaced (full pq size d p) front (pq.chain d.q) p ps' events
      → IsEnqued d p ps' events
  IsPlaced-IsEnqued d p ps' events true e placed = elim (full_or d p) [
    | inl (below, room) ↦ let (chain, nothing) = rw below at placed in inl (room, chain, nothing)
    | inr (over, tight) ↦ inr (tight, rw e (rw over at placed))
  ]
  IsPlaced-IsEnqued d p ps' events false e placed = elim (full_or d p) [
    | inl (below, room) ↦ let (chain, nothing) = rw below at placed in inl (room, chain, nothing)
    | inr (over, tight) ↦ inr (tight, rw e (rw over at placed))
  ]

  -- `enque` is defined. A packet is appended if the queue with it would be below its limit, in packets
  -- or in bytes. If the queue would reach or pass its limit, the packet is dropped, or, with
  -- `drop_front`, is appended and the first packet is dropped. Nothing else happens to a packet, and
  -- the settings stay.
  pub enque-IsEnqued :
      (update_stats : S → ℕ → S) (d : DropTail Q S) (p : ℕ)
      → (d' : DropTail Q S) × (events : List (Event ℕ)) × (enque pq update_stats size d p
          ≡ some (d', events))
        × IsSame d d'
        × IsEnqued d p (pq.chain d'.q) events
  unfolding enque
  enque-IsEnqued update_stats d p =
      let (same, settings) = stats_kept update_stats d in
      let (q', events, e, placed) =
        place-IsPlaced (full pq size d p) d.drop_front (with_stats pq update_stats d) p in
      (
        record (with_stats pq update_stats d) { q = q' },
        events,
        e,
        IsSame-queue d (with_stats pq update_stats d) q' settings,
        IsPlaced-IsEnqued d p (pq.chain q') events d.drop_front refl (
            subst
              (λ q. IsPlaced (full pq size d p) d.drop_front (pq.chain q) p (pq.chain q') events)
              same placed),
      )
