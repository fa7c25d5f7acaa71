-- ===== src/Queue/DropTail/Sequence.antt =====
-- queue/drop-tail.cc, `enque` of one packet after another: which packets are held, and which dropped.
use antnet.Common.{
  ℕ, suc, ◌+◌, ◌<◌, ◌≡◌, ◌⊎◌, refl, sym, ap, ◌∙◌, inl, inr, Bool, true, false, some, List, [], ◌∷◌,
  ◌++◌, length, arith, length-append, subst, ◌>>=◌,
}
use mathlib.Core.List.{append_assoc}
use antnet.Agent.State.{Event, dropped, unspecified}
use antnet.Queue.{PacketQueue, IsFifo}
use antnet.Queue.DropTail.{DropTail, Outcome, enque}
use antnet.Queue.DropTail.Limit.{drops, IsSame, HasRoom, IsTight, IsDropped, enque-IsEnqued}

-- Of the packets `ps` those of `held` stay, and those of `gone` leave, in order: the first ones, with
-- `drop_front`, or otherwise the last ones. Only one place is free if any leaves.
abbrev pub IsCapped : Bool → ℕ → List ℕ → List ℕ → List ℕ → Type 0
IsCapped true limit ps held gone =
    (ps ≡ gone ++ held) × (((gone ≡ []) × (length ps < limit)) ⊎ (suc (length held) ≡ limit))
IsCapped false limit ps held gone =
    (ps ≡ held ++ gone) × (((gone ≡ []) × (length ps < limit)) ⊎ (suc (length held) ≡ limit))

append-nil : (xs : List ℕ) → xs ++ [] ≡ xs
append-nil [] = refl
append-nil (x ∷ xs) = ap (◌∷◌ x) (append-nil xs)

-- Two fronts of one list that have the same length are the same.
same_front :
    (xs ys us vs : List ℕ) → xs ++ us ≡ ys ++ vs → length xs ≡ length ys → (xs ≡ ys) × (us ≡ vs)
same_front [] [] us vs e h = (refl, e)
same_front [] (y ∷ ys) us vs e h = absurd (omega (arith, h))
same_front (x ∷ xs) [] us vs e h = absurd (omega (arith, h))
same_front (x ∷ xs) (y ∷ ys) us vs e h =
    let first : x ≡ y = cc in
    let rest : xs ++ us ≡ ys ++ vs = cc in
    let (same, same') = same_front xs ys us vs rest (omega (arith, h)) in (cc, same')

IsCapped-none :
    (front : Bool) (limit : ℕ) (ps : List ℕ) → length ps < limit → IsCapped front limit ps ps []
IsCapped-none true limit ps h = (refl, inl (refl, h))
IsCapped-none false limit ps h = (sym (append-nil ps), inl (refl, h))

-- The next packet is appended.
IsCapped-room :
    (front : Bool) (limit : ℕ) (c : List ℕ) (p : ℕ) (ps held gone : List ℕ)
    → IsCapped front limit ((c ++ p ∷ []) ++ ps) held gone
    → IsCapped front limit (c ++ p ∷ ps) held gone
IsCapped-room front limit c p ps held gone h =
    subst (λ xs. IsCapped front limit xs held gone) (append_assoc c (p ∷ []) ps) h

-- Without room, the first packet leaves for the next one.
IsCapped-first :
    (limit : ℕ) (c c' : List ℕ) (p first : ℕ) (ps held gone : List ℕ)
    → length c + 1 ≡ limit
    → c ++ p ∷ [] ≡ first ∷ c'
    → IsCapped true limit (c' ++ ps) held gone
    → IsCapped true limit (c ++ p ∷ ps) held (first ∷ gone)
IsCapped-first limit c c' p first ps held gone full e (split, more) =
    let as_long : length c' ≡ length c = omega (arith, ap length e, length-append c (p ∷ [])) in
    let held_all : length c' + length ps ≡ length gone + length held =
      omega (arith, ap length split, length-append c' ps, length-append gone held) in
    (
      sym (append_assoc c (p ∷ []) ps) ∙ ap (λ xs. xs ++ ps) e ∙ ap (◌∷◌ first) split,
      elim more [
        | inl (none_gone, below) ↦
            inr (omega (arith, as_long, held_all, ap length none_gone, length-append c' ps, below))
        | inr reached ↦ inr reached
      ],
    )

-- Without room, the next packet leaves.
IsCapped-last :
    (limit : ℕ) (c : List ℕ) (p : ℕ) (ps held gone : List ℕ)
    → length c + 1 ≡ limit
    → IsCapped false limit (c ++ ps) held gone
    → IsCapped false limit (c ++ p ∷ ps) held (p ∷ gone)
IsCapped-last limit c p ps held gone full (split, more) =
    let all : length c + length ps ≡ length held + length gone =
      omega (arith, ap length split, length-append c ps, length-append held gone) in
    let reached : suc (length held) ≡ limit = elim more [
      | inl (none_gone, below) ↦
          omega (arith, full, all, ap length none_gone, length-append c ps, below)
      | inr reached ↦ reached
    ] in
    let (same, rest) = same_front c held ps gone split (omega (arith, full, reached)) in
    (ap (λ xs. xs ++ p ∷ ps) same ∙ ap (λ xs. held ++ p ∷ xs) rest, inr reached)

drops-append : (xs ys : List ℕ) → drops xs ++ drops ys ≡ drops (xs ++ ys)
drops-append [] ys = refl
drops-append (x ∷ xs) ys = ap (◌∷◌ (dropped x unspecified)) (drops-append xs ys)

module _ {Q S : Type 0} (pq : PacketQueue Q) (size : ℕ → ℕ) (fifo : IsFifo pq size)
    (update_stats : S → ℕ → S) where
  -- One call after another.
  abbrev pub enque_all : List ℕ → DropTail Q S → Outcome Q S
  enque_all [] d = some (d, [])
  enque_all (p ∷ ps) d = enque pq update_stats size d p >>= λ (d', events).
      enque_all ps d' >>= λ (d'', more). some (d'', events ++ more)

  -- What is held and what is dropped afterwards.
  pub record IsHeld (ps : List ℕ) (d : DropTail Q S) : Type 0 where
    pub d' : DropTail Q S
    pub gone : List ℕ
    pub result : enque_all ps d ≡ some (d', drops gone)
    pub capped : IsCapped d.drop_front d.qlim (pq.chain d.q ++ ps) (pq.chain d'.q) gone

  -- The outcome of the first call, and then of the others.
  IsHeld-cons :
      (p : ℕ) (ps : List ℕ) (d d' : DropTail Q S) (out : List ℕ)
      → enque pq update_stats size d p ≡ some (d', drops out)
      → (r : IsHeld ps d')
      → IsCapped d.drop_front d.qlim (pq.chain d.q ++ p ∷ ps) (pq.chain r.d'.q) (out ++ r.gone)
      → IsHeld (p ∷ ps) d
  IsHeld-cons p ps d d' out e r c = record {
    d' = r.d';
    gone = out ++ r.gone;
    result = rw (e, r.result) (ap (λ es. some (r.d', es)) (drops-append out r.gone));
    capped = c;
  }

  -- The others, by the settings before the first call.
  IsCapped-same :
      (front : Bool) (ps : List ℕ) (d d' : DropTail Q S)
      → d.drop_front ≡ front
      → IsSame d d'
      → (r : IsHeld ps d') → IsCapped front d.qlim (pq.chain d'.q ++ ps) (pq.chain r.d'.q) r.gone
  IsCapped-same front ps d d' e s r =
      subst (λ n. IsCapped front n (pq.chain d'.q ++ ps) (pq.chain r.d'.q) r.gone) s.qlim
        (subst (λ f. IsCapped f d'.qlim (pq.chain d'.q ++ ps) (pq.chain r.d'.q) r.gone)
          (s.drop_front ∙ e) r.capped)

  room-IsHeld :
      (p : ℕ) (ps : List ℕ) (d d' : DropTail Q S)
      → enque pq update_stats size d p ≡ some (d', [])
      → IsSame d d'
      → pq.chain d'.q ≡ pq.chain d.q ++ p ∷ []
      → IsHeld ps d'
      → IsHeld (p ∷ ps) d
  room-IsHeld p ps d d' e s chain r = IsHeld-cons p ps d d' [] e r (
      IsCapped-room d.drop_front d.qlim (pq.chain d.q) p ps (pq.chain r.d'.q) r.gone (
        subst (λ xs. IsCapped d.drop_front d.qlim (xs ++ ps) (pq.chain r.d'.q) r.gone) chain
          (IsCapped-same d.drop_front ps d d' refl s r)))

  tight-IsHeld :
      (front : Bool) (p : ℕ) (ps : List ℕ) (d d' : DropTail Q S) (events : List (Event ℕ))
      → d.drop_front ≡ front
      → enque pq update_stats size d p ≡ some (d', events)
      → IsSame d d'
      → length (pq.chain d.q) + 1 ≡ d.qlim
      → IsDropped front (pq.chain d.q) p (pq.chain d'.q) events
      → IsHeld ps d'
      → IsHeld (p ∷ ps) d
  tight-IsHeld true p ps d d' events f e s full (first, chain, out) r =
      IsHeld-cons p ps d d' (first ∷ []) (e ∙ ap (λ es. some (d', es)) out) r (
        subst (λ b. IsCapped b d.qlim (pq.chain d.q ++ p ∷ ps) (pq.chain r.d'.q) (first ∷ r.gone))
          (sym f)
          (IsCapped-first d.qlim (pq.chain d.q) (pq.chain d'.q) p first ps (pq.chain r.d'.q) r.gone
            full chain (IsCapped-same true ps d d' f s r)))
  tight-IsHeld false p ps d d' events f e s full (chain, out) r =
      IsHeld-cons p ps d d' (p ∷ []) (e ∙ ap (λ es. some (d', es)) out) r (
        subst (λ b. IsCapped b d.qlim (pq.chain d.q ++ p ∷ ps) (pq.chain r.d'.q) (p ∷ r.gone))
          (sym f)
          (IsCapped-last d.qlim (pq.chain d.q) p ps (pq.chain r.d'.q) r.gone full (
            subst (λ xs. IsCapped false d.qlim (xs ++ ps) (pq.chain r.d'.q) r.gone) chain
              (IsCapped-same false ps d d' f s r))))

  length-IsDropped :
      (front : Bool) (c : List ℕ) (p : ℕ) (c' : List ℕ) (events : List (Event ℕ))
      → IsDropped front c p c' events
      → length c' ≡ length c
  length-IsDropped true c p c' events (first, chain, out) =
      omega (arith, ap length chain, length-append c (p ∷ []))
  length-IsDropped false c p c' events (chain, out) = ap length chain

  -- Measured in packets, from a queue below its limit, calls of `enque` with any sequence of packets
  -- are defined. If all packets together are fewer than the limit, all are held, in order. Otherwise
  -- the queue holds one packet fewer than its limit, in order: the last ones, with `drop_front`, and
  -- else the first ones; the others are dropped, each once and in order.
  pub enque_all-IsHeld :
      (ps : List ℕ) (d : DropTail Q S)
      → d.qib ≡ false
      → length (pq.chain d.q) < d.qlim
      → IsHeld ps d
  enque_all-IsHeld [] d packets below = record {
    d' = d;
    gone = [];
    result = refl;
    capped =
        subst (λ xs. IsCapped d.drop_front d.qlim xs (pq.chain d.q) [])
          (sym (append-nil (pq.chain d.q)))
          (IsCapped-none d.drop_front d.qlim (pq.chain d.q) below);
  }
  enque_all-IsHeld (p ∷ ps) d packets below =
      let (d', events, e, s, enqued) = enque-IsEnqued pq size fifo update_stats d p in
      let again = λ (short : length (pq.chain d'.q) < d'.qlim).
        enque_all-IsHeld ps d' (s.qib ∙ packets) short in
      let by_count =
        subst
          (λ b.
            (HasRoom pq size fifo b d p × (pq.chain d'.q ≡ pq.chain d.q ++ p ∷ []) × (events ≡ []))
            ⊎ (IsTight pq size fifo b d p
                × IsDropped d.drop_front (pq.chain d.q) p (pq.chain d'.q) events))
          packets enqued in
      elim by_count [
        | inl (room, chain, nothing) ↦
            room-IsHeld p ps d d' (e ∙ ap (λ es. some (d', es)) nothing) s chain (
              again (omega (arith, s.qlim, ap length chain, length-append (pq.chain d.q) (p ∷ []))))
        | inr (tight, out) ↦
            tight-IsHeld d.drop_front p ps d d' events refl e s (omega (arith, below, tight)) out (
              again (
                omega (
                  arith,
                  s.qlim,
                  below,
                  length-IsDropped d.drop_front (pq.chain d.q) p (pq.chain d'.q) events out,
                )))
      ]
