-- ===== src/Packet/Types/Chain.antt =====
-- common/packet.h, `addPacketClassifier`: the chain of classifiers, and what they decide.
use antnet.Common.{
  ℕ, zero, suc, ◌<◌, ◌≡◌, refl, sym, ap, ◌∙◌, if◌then◌else◌, Option, none, some, List, [], ◌∷◌,
  length, arith, Lacks, ==_iff, subst,
}
use antnet.Packet.Types.{
  PacketClass, unclassified, routing, data_pkt, Classifiers, set_next, data_packet, routing_packet,
  classify_from, classify, add_packet_classifier,
}
use antnet.Packet.Types.Classes.{same_types}

-- The objects along `next_`, to a null pointer.
abbrev pub Linked : (ℕ → Option ℕ) → Option ℕ → List ℕ → Type 0
Linked next o [] = o ≡ none
Linked next o (c ∷ cs) = (o ≡ some c) × Linked next (next c) cs

abbrev pub IsChain : Classifiers → List ℕ → Type 0
IsChain s cs = Linked s.next s.pc cs

-- The predefined types come first.
abbrev pub predefined_or : ℕ → Option PacketClass → Option PacketClass
predefined_or t o =
    if routing_packet t then some routing else if data_packet t then some data_pkt else o

module _ (get_class : ℕ → ℕ → PacketClass) where
  -- The class that the first classifier gives that knows the type.
  abbrev pub first_known : List ℕ → ℕ → PacketClass
  first_known [] t = unclassified
  first_known (c ∷ cs) t = elim (get_class c t) [
    | unclassified ↦ first_known cs t
    | routing ↦ routing
    | data_pkt ↦ data_pkt
  ]

  -- What one classifier decides alone.
  abbrev pub known_by : ℕ → ℕ → Option PacketClass
  known_by c t = elim (get_class c t) [
    | unclassified ↦ none
    | routing ↦ some routing
    | data_pkt ↦ some data_pkt
  ]

  -- The answer of an object whose successors answer `o`.
  abbrev decide : PacketClass → Option PacketClass → Option PacketClass
  decide k o = elim k [ unclassified ↦ o | routing ↦ some routing | data_pkt ↦ some data_pkt ]

  decide-some :
      (k r : PacketClass)
      → decide k (some r)
        ≡ some (elim k [ unclassified ↦ r | routing ↦ routing | data_pkt ↦ data_pkt ])
  decide-some unclassified r = refl
  decide-some routing r = refl
  decide-some data_pkt r = refl

  classify_from-next :
      (fuel : ℕ) (next : ℕ → Option ℕ) (c t : ℕ) (o : Option ℕ)
      → next c ≡ o
      → classify_from get_class (suc fuel) next c t
        ≡ decide
            (get_class c t)
            (elim o [ none ↦ some unclassified | some c' ↦ classify_from get_class fuel next c' t ])
  unfolding classify_from
  classify_from-next fuel next c t o e =
      ap
        (λ p.
          decide (get_class c t) (elim p [
            | none ↦ some unclassified
            | some c' ↦ classify_from get_class fuel next c' t
          ]))
        e

  -- With more fuel than successors the recursion ends, with the first class that is known.
  classify_from-first_known :
      (fuel : ℕ) (next : ℕ → Option ℕ) (c t : ℕ) (cs : List ℕ)
      → length cs < fuel
      → Linked next (next c) cs
      → classify_from get_class fuel next c t ≡ some (first_known (c ∷ cs) t)
  classify_from-first_known zero next c t cs h l = absurd (omega arith)
  classify_from-first_known (suc fuel) next c t [] h l =
      classify_from-next fuel next c t none l ∙ decide-some (get_class c t) unclassified
  classify_from-first_known (suc fuel) next c t (c' ∷ cs) h (e, l) =
      classify_from-next fuel next c t (some c') e
      ∙ ap (decide (get_class c t)) (classify_from-first_known fuel next c' t cs (omega arith) l)
      ∙ decide-some (get_class c t) (first_known (c' ∷ cs) t)

  decide-decide : (k : PacketClass) → decide k (decide k none) ≡ decide k none
  decide-decide unclassified = refl
  decide-decide routing = refl
  decide-decide data_pkt = refl

  -- An object that is its own successor never comes to an end over a type that it does not know.
  classify_from-loop :
      (fuel : ℕ) (next : ℕ → Option ℕ) (c t : ℕ)
      → next c ≡ some c
      → classify_from get_class (suc fuel) next c t ≡ known_by c t
  unfolding classify_from
  classify_from-loop zero next c t e = classify_from-next zero next c t (some c) e
  classify_from-loop (suc fuel) next c t e =
      classify_from-next (suc fuel) next c t (some c) e
      ∙ ap (decide (get_class c t)) (classify_from-loop fuel next c t e)
      ∙ decide-decide (get_class c t)

  classify-predefined_or :
      (fuel : ℕ) (s : Classifiers) (c t : ℕ) (o : Option PacketClass)
      → s.pc ≡ some c
      → classify_from get_class fuel s.next c t ≡ o
      → classify get_class fuel s t ≡ predefined_or t o
  unfolding classify
  classify-predefined_or fuel s c t o e from = rw (same_types t) (
      ap (predefined_or t) (
        ap
          (λ p. elim p [
            | none ↦ some unclassified
            | some c' ↦ classify_from get_class fuel s.next c' t
          ])
          e
        ∙ from))

set_next-Linked :
    (c : ℕ) (new : Option ℕ) (next : ℕ → Option ℕ) (o : Option ℕ) (cs : List ℕ)
    → Lacks c cs
    → Linked next o cs
    → Linked (set_next c new next) o cs
set_next-Linked c new next o [] l h = h
set_next-Linked c new next o (k ∷ cs) (ne, l) (e, h) =
    let other : set_next c new next k ≡ next k = ground (arith, ==_iff c k, ne) in
    (
      e,
      subst (λ p. Linked (set_next c new next) p cs) (sym other)
          (set_next-Linked c new next (next k) cs l h),
    )

set_next-here : (c : ℕ) (new : Option ℕ) (next : ℕ → Option ℕ) → set_next c new next c ≡ new
set_next-here c new next = ground (arith, ==_iff c c)

-- With more fuel than classifiers: a null pointer changes nothing. A classifier that is not in the
-- chain becomes its head, and then a type that is not predefined has the class of the first classifier
-- of the chain that knows it. If that classifier is added again, it is its own successor: of the types
-- that are not predefined those that it knows have its class, and over the others, also those that
-- the rest of the chain knows, the recursion does not end.
pub add_packet_classifier-first_known :
    (get_class : ℕ → ℕ → PacketClass) (fuel : ℕ) (s : Classifiers) (cs : List ℕ) (c t : ℕ)
    → length cs < fuel
    → IsChain s cs
    → Lacks c cs
    → let s' = add_packet_classifier (some c) s in
      (add_packet_classifier none s ≡ s)
      × IsChain s' (c ∷ cs)
      × (classify get_class fuel s' t ≡ predefined_or t (some (first_known get_class (c ∷ cs) t)))
      × (classify get_class fuel (add_packet_classifier (some c) s') t
          ≡ predefined_or t (known_by get_class c t))
unfolding add_packet_classifier
add_packet_classifier-first_known get_class zero s cs c t h l fresh = absurd (omega arith)
add_packet_classifier-first_known get_class (suc fuel) s cs c t h l fresh =
    let s' : Classifiers = record { next = set_next c s.pc s.next; pc = some c } in
    let behind : Linked s'.next (s'.next c) cs =
      subst (λ o. Linked s'.next o cs) (sym (set_next-here c s.pc s.next))
        (set_next-Linked c s.pc s.next s.pc cs fresh l) in
    (
      refl,
      (refl, behind),
      classify-predefined_or get_class (suc fuel) s' c t _ refl
          (classify_from-first_known get_class (suc fuel) s'.next c t cs h behind),
      classify-predefined_or get_class (suc fuel)
          (record { next = set_next c (some c) s'.next; pc = some c }) c t _ refl
          (classify_from-loop get_class fuel (set_next c (some c) s'.next) c t
            (set_next-here c (some c) s'.next)),
    )
