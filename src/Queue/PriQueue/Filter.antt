-- ===== src/Queue/PriQueue/Filter.antt =====
-- queue/priqueue.cc, the two `filter` methods: which packets they take out.
use antnet.Common.{
  ℕ, zero, suc, ◌<◌, ◌≡◌, ◌≢◌, refl, sym, ap, ◌∙◌, inl, inr, ltb, if◌then◌else◌, Bool, true, false,
  Option, none, some, List, [], ◌∷◌, ◌++◌, length, get_elem?, arith, length-append, All, Lacks,
  IsDistinct, Bool-cases, subst,
}
use mathlib.Core.List.{append_assoc}
use mathlib.Core.Option.{some-injective}
use antnet.Packet.{HdrCmn}
use antnet.Queue.{PacketQueue, IsFifo}
use antnet.Queue.PriQueue.{filter, find_hop, filter_hop, same_hop}

-- The packets that a filter leaves.
abbrev pub keep : (ℕ → Bool) → List ℕ → List ℕ
keep f [] = []
keep f (p ∷ ps) = if f p then keep f ps else p ∷ keep f ps

get_elem?-append : (xs ys : List ℕ) (p : ℕ) → get_elem? (xs ++ p ∷ ys) (length xs) ≡ some p
get_elem?-append [] ys p = refl
get_elem?-append (x ∷ xs) ys p = get_elem?-append xs ys p

Lacks-around : (a p : ℕ) (xs ys : List ℕ) → Lacks a (xs ++ p ∷ ys) → Lacks a (xs ++ ys) × (p ≢ a)
Lacks-around a p [] ys (ne, l) = (l, ne)
Lacks-around a p (x ∷ xs) ys (ne, l) =
    let (rest, other) = Lacks-around a p xs ys l in ((ne, rest), other)

-- Without a packet the others are distinct still, and it is not among those before it.
IsDistinct-around :
    (p : ℕ) (xs ys : List ℕ) → IsDistinct (xs ++ p ∷ ys) → Lacks p xs × IsDistinct (xs ++ ys)
IsDistinct-around p [] ys (l, ds) = (tt, ds)
IsDistinct-around p (x ∷ xs) ys (l, ds) =
    let (rest, ne) = Lacks-around x p xs ys l in
    let (lacks, distinct) = IsDistinct-around p xs ys ds in
    ((λ e. ne (sym e), lacks), (rest, distinct))

module _ {Q : Type 0} (pq : PacketQueue Q) (size : ℕ → ℕ) (fifo : IsFifo pq size) where
  -- From an index on, with more fuel than packets from there on.
  filter_from :
      (fuel : ℕ) (f : ℕ → Bool) (q : Q) (xs ys : List ℕ)
      → pq.chain q ≡ xs ++ ys
      → IsDistinct (xs ++ ys)
      → length ys < fuel
      → (q' : Q) × (filter pq fuel f (length xs) q ≡ some q') × (pq.chain q' ≡ xs ++ keep f ys)
  unfolding filter
  filter_from zero f q xs ys e ds h = absurd (omega arith)
  filter_from (suc fuel) f q xs [] e ds h =
      let past : ltb (length xs) (pq.length q) ≡ false =
        ground (arith, fifo.length_lem q, ap length e, length-append xs []) in
      (q, rw (past, filter) refl, e)
  filter_from (suc fuel) f q xs (y ∷ ys) e ds h =
      let within : ltb (length xs) (pq.length q) ≡ true =
        ground (arith, fifo.length_lem q, ap length e, length-append xs (y ∷ ys)) in
      let found : pq.lookup q (length xs) ≡ some y =
        fifo.lookup_lem q (length xs)
        ∙ ap (λ zs. get_elem? zs (length xs)) e
        ∙ get_elem?-append xs ys y in
      let (lacks, distinct) = IsDistinct-around y xs ys ds in
      elim (Bool-cases (f y)) [
        | inl hit ↦
            let (q', got, left) =
              filter_from fuel f (pq.remove q y) xs ys (fifo.remove_lem q xs y ys e lacks) distinct
                (omega arith) in
            (q', rw (within, filter, found, hit, got) refl, rw hit left)
        | inr miss ↦
            let shift = append_assoc xs (y ∷ []) ys in
            let (q', got, left) =
              filter_from fuel f q (xs ++ y ∷ []) ys (e ∙ sym shift)
                (subst IsDistinct (sym shift) ds) (omega arith) in
            let next : length (xs ++ y ∷ []) ≡ suc (length xs) =
              omega (arith, length-append xs (y ∷ [])) in
            (
              q',
              rw (within, filter, found, miss, rw next at got) refl,
              rw miss (left ∙ append_assoc xs (y ∷ []) (keep f ys)),
            )
      ]

  -- With more fuel than packets, the loop ends, and the queue holds the packets that the filter does
  -- not take, in order.
  pub filter-keep :
      (fuel : ℕ) (f : ℕ → Bool) (q : Q)
      → IsDistinct (pq.chain q)
      → length (pq.chain q) < fuel
      → (q' : Q) × (filter pq fuel f 0 q ≡ some q') × (pq.chain q' ≡ keep f (pq.chain q))
  filter-keep fuel f q ds h = filter_from fuel f q [] (pq.chain q) refl ds h

abbrev pub NoHop : (ℕ → HdrCmn) → ℕ → List ℕ → Type 0
NoHop hdr id = All λ k. same_hop (hdr k).next_hop id ≡ false

abbrev last_or : Option ℕ → List ℕ → Option ℕ
last_or pp [] = pp
last_or pp (p ∷ ps) = last_or (some p) ps

-- What the loop finds: the first packet with the next hop, and the packet before it.
abbrev HopIs : (ℕ → HdrCmn) → ℕ → Option ℕ → List ℕ → Option (ℕ × Option ℕ) → Type 0
HopIs hdr id pp ps none = NoHop hdr id ps
HopIs hdr id pp ps (some (p, pp')) =
    (before : List ℕ) × (after : List ℕ) × (ps ≡ before ++ p ∷ after)
    × (same_hop (hdr p).next_hop id ≡ true)
    × NoHop hdr id before
    × (last_or pp before ≡ pp')

HopIs-cons :
    (hdr : ℕ → HdrCmn) (id : ℕ) (pp : Option ℕ) (p : ℕ) (ps : List ℕ) (o : Option (ℕ × Option ℕ))
    → same_hop (hdr p).next_hop id ≡ false
    → HopIs hdr id (some p) ps o
    → HopIs hdr id pp (p ∷ ps) o
HopIs-cons hdr id pp p ps none miss h = (miss, h)
HopIs-cons hdr id pp p ps (some (k, pp')) miss (before, after, e, hit, none_before, last) =
    (p ∷ before, after, ap (◌∷◌ p) e, hit, (miss, none_before), last)

find_hop-HopIs :
    (hdr : ℕ → HdrCmn) (id : ℕ) (pp : Option ℕ) (ps : List ℕ)
    → HopIs hdr id pp ps (find_hop hdr id pp ps)
unfolding find_hop
find_hop-HopIs hdr id pp [] = tt
find_hop-HopIs hdr id pp (p ∷ ps) = elim (Bool-cases (same_hop (hdr p).next_hop id)) [
  | inl hit ↦ rw (hit, find_hop) ([], ps, refl, hit, tt, refl)
  | inr miss ↦
      rw (miss, find_hop)
        (HopIs-cons hdr id pp p ps (find_hop hdr id (some p) ps) miss
          (find_hop-HopIs hdr id (some p) ps))
]

last_or-some :
    (b pp : ℕ) (bs : List ℕ)
    → last_or (some b) bs ≡ some pp
    → (xs : List ℕ) × (b ∷ bs ≡ xs ++ pp ∷ [])
last_or-some b pp [] e = ([], ap (λ k. k ∷ []) (some-injective _ _ e))
last_or-some b pp (c ∷ bs) e =
    let (xs, split) = last_or-some c pp bs e in (b ∷ xs, ap (◌∷◌ b) split)

last_or-not_none : (b : ℕ) (bs : List ℕ) → last_or (some b) bs ≡ none → ⊥
last_or-not_none b [] e = cc
last_or-not_none b (c ∷ bs) e = last_or-not_none c bs e

module _ {Q : Type 0} (pq : PacketQueue Q) (size : ℕ → ℕ) (fifo : IsFifo pq size) where
  -- What the method returns and leaves: no packet has the next hop and none is taken, or the first
  -- that has it is taken and the others stay in order.
  abbrev pub IsFiltered : (ℕ → HdrCmn) → ℕ → Q → Q → Option ℕ → Type 0
  IsFiltered hdr id q q' none = (q' ≡ q) × NoHop hdr id (pq.chain q)
  IsFiltered hdr id q q' (some p) =
      (before : List ℕ) × (after : List ℕ) × (pq.chain q ≡ before ++ p ∷ after)
      × (same_hop (hdr p).next_hop id ≡ true)
      × NoHop hdr id before
      × (pq.chain q' ≡ before ++ after)

  -- `filter(id)` takes the first packet whose next hop is `id`, if there is one, and no other; the
  -- packets that stay keep their order.
  pub filter_hop-IsFiltered :
      (hdr : ℕ → HdrCmn) (id : ℕ) (q : Q)
      → IsDistinct (pq.chain q)
      → let (o, q') = filter_hop pq hdr id q in IsFiltered hdr id q q' o
  unfolding filter_hop
  filter_hop-IsFiltered hdr id q ds =
      go (find_hop hdr id none (pq.chain q)) refl (find_hop-HopIs hdr id none (pq.chain q))
    where
      go :
          (o : Option (ℕ × Option ℕ))
          → find_hop hdr id none (pq.chain q) ≡ o
          → HopIs hdr id none (pq.chain q) o
          → let (first, q') = filter_hop pq hdr id q in IsFiltered hdr id q q' first
      go none got h = rw (got, filter_hop) (refl, h)
      go (some (p, none)) got ([], after, e, hit, none_before, last) =
          rw (got, filter_hop) ([], after, e, hit, none_before, fifo.remove_lem q [] p after e tt)
      go (some (p, none)) got (b ∷ bs, after, e, hit, none_before, last) =
          absurd (last_or-not_none b bs last)
      go (some (p, some pp)) got ([], after, e, hit, none_before, last) = cc
      go (some (p, some pp)) got (b ∷ bs, after, e, hit, none_before, last) =
          let (xs, two) = last_or-some b pp bs last in
          let (lacks, _) = IsDistinct-around p (b ∷ bs) after (subst IsDistinct e ds) in
          let whole : pq.chain q ≡ xs ++ pp ∷ p ∷ after =
            e ∙ ap (λ zs. zs ++ p ∷ after) two ∙ append_assoc xs (pp ∷ []) (p ∷ after) in
          rw (got, filter_hop)
            (
              b ∷ bs,
              after,
              e,
              hit,
              none_before,
              fifo.remove_behind_lem q xs pp p after whole (subst (Lacks p) two lacks)
                  ∙ sym (ap (λ zs. zs ++ after) two ∙ append_assoc xs (pp ∷ []) after),
            )
