-- ===== src/Agent/Traffic/Best.antt =====
-- antnet.cc, `update_traffic`: the best trip times.
use antnet.Common.{
  ℕ, ◌≡◌, ◌⊎◌, refl, sym, ◌∙◌, inl, inr, if◌then◌else◌, some, List, [], ◌∷◌, ◌++◌, arith, All,
  Lacks, Bool-cases, subst,
}
use antnet.Common.Map.{Map, find}
use antnet.Double.{Double, ◌≼◌}
use antnet.Double.Laws
use antnet.Double.Laws.{IsExact, le_refl}
use antnet.Packet.{Packet}
use antnet.Agent.State.{Antnet, TrafficMatrix}
use antnet.Agent.Memorize.Path.{path, IsArray}
use antnet.Agent.Traffic.{least, update_traffic}
use antnet.Agent.Traffic.Defined.{HasEntry, update_traffic-All}

module _ {D : Type 0} where
  abbrev pub Among : D → List D → Type 0
  Among x [] = ⊥
  Among x (y ∷ ys) = (x ≡ y) ⊎ Among x ys

module _ {D : Type 0} ⦃d : Double D⦄ (laws : IsExact D) where
  -- The smaller of two numbers.
  record IsPicked (m x m' : D) : Type 0 where
    first : m' ≼ m
    second : m' ≼ x
    either : (m' ≡ m) ⊎ (m' ≡ x)

  lt-IsPicked : (m x : D) → IsPicked m x (if d.lt x m then x else m)
  lt-IsPicked m x = elim (Bool-cases (d.lt x m)) [
    | inl small ↦
        rw small
          (record { first = Laws.lt→le laws x m small; second = le_refl laws x; either = inr refl })
    | inr big ↦ rw big (record {
      first = le_refl laws m;
      second = ground (arith, laws.lt-eq-not-le x m, laws.le_total x m);
      either = inl refl;
    })
  ]

  -- The result of the loop is the least of all.
  record IsMinimum (m : D) (xs : List D) (b : D) : Type 0 where
    below : b ≼ m
    all : All (λ x. b ≼ x) xs
    among : (b ≡ m) ⊎ Among b xs

  least-IsMinimum : (m : D) (xs : List D) → IsMinimum m xs (least m xs)
  unfolding least
  least-IsMinimum m [] = record { below = le_refl laws m; all = tt; among = inl refl }
  least-IsMinimum m (x ∷ xs) =
      let m' = if d.lt x m then x else m in
      let s = lt-IsPicked m x in
      let rest = least-IsMinimum m' xs in
      record {
        below = laws.le_trans _ m' m rest.below s.first;
        all = (laws.le_trans _ m' x rest.below s.second, rest.all);
        among = elim (rest.among) [
          | inl e ↦ elim (s.either) [ inl f ↦ inl (e ∙ f) | inr f ↦ inr (inl (e ∙ f)) ]
          | inr a ↦ inr (inr a)
        ];
      }

  -- The destination's best trip time is one of its window, and no other is better.
  pub record IsBest (window : Map (List D)) (state : Map (TrafficMatrix D)) (j : ℕ) : Type 0 where
    pub entry : TrafficMatrix D
    pub times : List D
    pub in_state : find j state ≡ some entry
    pub in_window : find j window ≡ some times
    pub among : Among entry.best_tt times
    pub best : All (λ x. entry.best_tt ≼ x) times

  HasEntry-IsBest :
      (window : Map (List D)) (state : Map (TrafficMatrix D)) (j : ℕ)
      → HasEntry window state j
      → IsBest window state j
  HasEntry-IsBest window state j (t, x, xs, timed, e, best) =
      let l = least-IsMinimum x (x ∷ xs) in
      record {
        entry = t;
        times = x ∷ xs;
        in_state = e;
        in_window = timed;
        among = elim (l.among) [
          | inl f ↦ inl (best ∙ f)
          | inr a ↦ subst (λ b. Among b (x ∷ xs)) (sym best) a
        ];
        best = subst (λ b. All (λ y. b ≼ y) (x ∷ xs)) (sym best) l.all;
      }

  All-IsBest :
      (window : Map (List D)) (state : Map (TrafficMatrix D)) (js : List ℕ)
      → All (HasEntry window state) js
      → All (IsBest window state) js
  All-IsBest window state [] h = tt
  All-IsBest window state (j ∷ js) (has, h) =
      (HasEntry-IsBest window state j has, All-IsBest window state js h)

  -- For a packet with a well-formed array, at a node of the path that has a node behind it, and that
  -- is not on the path before, in exact arithmetic, `update_traffic` is defined: every iterator and
  -- entry that it reads is there. Of the agent it changes the window and the state alone, and afterwards the best trip time of the next
  -- node of the path, and of every node behind it, is one of its window, with none below it. The
  -- global `r` has some value afterwards, of which nothing more is said.
  pub update_traffic-IsBest :
      {R : Type 0} (a : Antnet R D) (p : Packet D) (r : D) (xs ys : List ℕ) (next : ℕ)
      → IsArray p
      → path p ≡ xs ++ a.addr ∷ next ∷ ys
      → Lacks a.addr xs
      → (window : Map (List D)) × (state : Map (TrafficMatrix D)) × (r' : D) × (update_traffic a p r
          ≡ some (record a { window = window; state = state }, r'))
        × All (IsBest window state) (next ∷ ys)
  update_traffic-IsBest a p r xs ys next arr split l =
      let (window, state, r', got, entries) = update_traffic-All a p r xs ys next arr split l in
      (window, state, r', got, All-IsBest window state (next ∷ ys) entries)
