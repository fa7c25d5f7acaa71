-- ===== src/Agent/Memorize/Loops.antt =====
-- antnet.cc, `memorize`: loops in the path, and its two ends.
use antnet.Common.{
  none-ne-some, ℕ, ◌≡◌, ◌≢◌, refl, sym, inl, inr, ◌==◌, none, some, List, [], ◌∷◌, ◌++◌, arith,
  Lacks, IsDistinct, Bool-cases, Option-cases, ==_iff, subst,
}
use mathlib.Core.Option.{some-injective}
use antnet.Agent.Memorize.Path.{until, visit}

abbrev pub EndsAt : ℕ → List ℕ → Type 0
EndsAt a [] = ⊥
EndsAt a (n ∷ []) = n ≡ a
EndsAt a (n ∷ m ∷ ns) = EndsAt a (m ∷ ns)

EndsAt-cons : (a n : ℕ) (ns : List ℕ) → EndsAt a ns → EndsAt a (n ∷ ns)
EndsAt-cons a n [] h = absurd h
EndsAt-cons a n (m ∷ ns) h = h

EndsAt-append : (a : ℕ) (ns : List ℕ) → EndsAt a (ns ++ a ∷ [])
EndsAt-append a [] = refl
EndsAt-append a (n ∷ ns) = EndsAt-cons a n (ns ++ a ∷ []) (EndsAt-append a ns)

-- What `until` finds.
record Until (a : ℕ) (ns ms : List ℕ) : Type 0 where
  ends : EndsAt a ms
  lacks : (n : ℕ) → Lacks n ns → Lacks n ms
  distinct : IsDistinct ns → IsDistinct ms

until-missing : (a : ℕ) (ns : List ℕ) → until a ns ≡ none → Lacks a ns
until-missing a [] e = tt
until-missing a (n ∷ ns) e = ground (arith, until-missing a ns, ==_iff n a)

Until-one : (a n : ℕ) (ns : List ℕ) → n ≡ a → Until a (n ∷ ns) (n ∷ [])
Until-one a n ns e = record { ends = e; lacks = λ k l. (l.0, tt); distinct = λ ds. (tt, tt) }

Until-cons : (a n : ℕ) (ns ms : List ℕ) → Until a ns ms → Until a (n ∷ ns) (n ∷ ms)
Until-cons a n ns ms u = record {
  ends = EndsAt-cons a n ms u.ends;
  lacks = λ k l. (l.0, u.lacks k l.1);
  distinct = λ ds. (u.lacks n ds.0, u.distinct ds.1);
}

until-Until : (a : ℕ) (ns ms : List ℕ) → until a ns ≡ some ms → Until a ns ms
until-Until a [] ms e = cc
until-Until a (n ∷ ns) ms e = elim (Bool-cases (n == a)) [
  | inl hit ↦
      subst (Until a (n ∷ ns)) (some-injective _ _ (rw hit at e))
        (Until-one a n ns ((==_iff n a).0 hit))
  | inr miss ↦ elim (Option-cases (until a ns)) [
    | inl stop ↦ absurd (none-ne-some (rw stop at (rw miss at e)))
    | inr (rest, more) ↦
        subst (Until a (n ∷ ns)) (some-injective _ _ (rw more at (rw miss at e)))
          (Until-cons a n ns rest (until-Until a ns rest more))
  ]
]

Lacks-append : (n a : ℕ) (ns : List ℕ) → Lacks n ns → a ≢ n → Lacks n (ns ++ a ∷ [])
Lacks-append n a [] l h = (h, tt)
Lacks-append n a (m ∷ ns) (ne, l) h = (ne, Lacks-append n a ns l h)

IsDistinct-append : (a : ℕ) (ns : List ℕ) → Lacks a ns → IsDistinct ns → IsDistinct (ns ++ a ∷ [])
IsDistinct-append a [] l ds = (tt, tt)
IsDistinct-append a (n ∷ ns) (ne, l) (fresh, ds) =
    (Lacks-append n a ns fresh (λ e. ne (sym e)), IsDistinct-append a ns l ds)

pub visit-EndsAt : (a : ℕ) (ns : List ℕ) → EndsAt a (visit a ns)
visit-EndsAt a ns = elim (Option-cases (until a ns)) [
  | inl e ↦ rw (e, visit) (EndsAt-append a ns)
  | inr (ms, e) ↦ rw (e, visit) (until-Until a ns ms e).ends
]

-- The path of an ant that visits `a` from a path without loops has no loop and ends at `a`.
pub visit-IsDistinct :
    (a : ℕ) (ns : List ℕ) → IsDistinct ns → IsDistinct (visit a ns) × EndsAt a (visit a ns)
visit-IsDistinct a ns ds = elim (Option-cases (until a ns)) [
  | inl e ↦ rw (e, visit) (IsDistinct-append a ns (until-missing a ns e) ds, EndsAt-append a ns)
  | inr (ms, e) ↦ let u = until-Until a ns ms e in rw (e, visit) (u.distinct ds, u.ends)
]

-- The source stays the first node of the path, and the new node comes behind it.
pub visit-cons :
    (a s : ℕ) (ns : List ℕ) → a ≢ s → (visit a (s ∷ ns) ≡ s ∷ visit a ns) × (visit a ns ≢ [])
visit-cons a s ns h =
    (ground (arith, ==_iff s a), λ e. absurd (subst (EndsAt a) e (visit-EndsAt a ns)))
