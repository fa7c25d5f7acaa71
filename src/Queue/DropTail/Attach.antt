-- ===== src/Queue/DropTail/Attach.antt =====
-- queue/drop-tail.cc, `command`: when a queue is left without its packets.
use Prim.Native.String.{String}
use antnet.Common.{
  ℕ, ◌≡◌, ◌⊎◌, refl, sym, ap, ◌∙◌, inl, inr, true, false, Option, none, some, List, [], ◌∷◌,
  Bool-cases, Option-cases, none-ne-some, subst, >>=-eq-some,
}
use mathlib.Core.Option.{some-injective}
use antnet.Agent.Command.{equal, tcl_error}
use antnet.Trace.Printf.{Floats}
use antnet.Queue.{PacketQueue}
use antnet.Queue.DropTail.{DropTail, shrink_queue}
use antnet.Queue.DropTail.Command.{Result, command, print_summarystats}

-- The object is there.
abbrev HasQueue : {Q S : Type 0} → Result Q S → Type 0
HasQueue {Q} {S} r = (d : DropTail Q S) × (r.object ≡ some d)

module _ {Q S D : Type 0} (floats : Floats D) (true_ave total_time : S → D) (pq : PacketQueue Q)
    (lookup : String → Option Q) (base : List String → DropTail Q S → Option (Result Q S)) where
  -- "packetqueue-attach" with an object that Tcl does not know.
  abbrev pub IsUnknown : List String → Type 0
  IsUnknown [] = ⊥
  IsUnknown (argv0 ∷ []) = ⊥
  IsUnknown (argv0 ∷ argv1 ∷ []) = ⊥
  IsUnknown (argv0 ∷ argv1 ∷ argv2 ∷ []) =
      (equal argv1 "packetqueue-attach" ≡ true) × (lookup argv2 ≡ none)
  IsUnknown (argv0 ∷ argv1 ∷ argv2 ∷ argv3 ∷ argv) = ⊥

  -- The base class keeps the object.
  abbrev pub Keeps : Type 0
  Keeps =
      (argv : List String) (d : DropTail Q S) (r : Result Q S) → base argv d ≡ some r → HasQueue r

  two-HasQueue :
      (fuel : ℕ) (d : DropTail Q S) (argv0 argv1 : String) (r : Result Q S)
      → Keeps
      → command floats true_ave total_time pq lookup base fuel d (argv0 ∷ argv1 ∷ []) ≡ some r
      → HasQueue r
  unfolding command
  two-HasQueue fuel d argv0 argv1 r keeps e = elim (Bool-cases (equal argv1 "printstats")) [
    | inl stats ↦
        let (t, _, got) =
          >>=-eq-some (print_summarystats floats true_ave total_time d) _ (rw stats at e) in
        subst HasQueue (some-injective _ _ got) (d, refl)
    | inr more ↦ elim (Bool-cases (equal argv1 "shrink-queue")) [
      | inl shrink ↦
          let ((d', events), _, got) =
            >>=-eq-some (shrink_queue pq fuel d) _ (rw shrink at (rw more at e)) in
          subst HasQueue (some-injective _ _ got) (d', refl)
      | inr pass ↦ keeps (argv0 ∷ argv1 ∷ []) d r (rw pass at (rw more at e))
    ]
  ]

  -- What a command leaves: the object, or a null pointer and an error.
  abbrev pub IsLeft : List String → Result Q S → Type 0
  IsLeft argv r =
      (HasQueue r × (¬ IsUnknown argv))
      ⊎ (IsUnknown argv × (r.object ≡ none) × (r.status ≡ tcl_error))

  three-IsLeft :
      (fuel : ℕ) (d : DropTail Q S) (argv0 argv1 argv2 : String) (r : Result Q S)
      → Keeps
      → command floats true_ave total_time pq lookup base fuel d (argv0 ∷ argv1 ∷ argv2 ∷ [])
        ≡ some r
      → IsLeft (argv0 ∷ argv1 ∷ argv2 ∷ []) r
  unfolding command
  three-IsLeft fuel d argv0 argv1 argv2 r keeps e =
      elim (Bool-cases (equal argv1 "packetqueue-attach")) [
        | inl attach ↦ elim (Option-cases (lookup argv2)) [
          | inl unknown ↦
              let same = some-injective _ _ (rw unknown at (rw attach at e)) in
              inr (
                (attach, unknown),
                ap (λ (k : Result Q S). k.object) (sym same),
                ap (λ (k : Result Q S). k.status) (sym same),
              )
          | inr (q, known) ↦
              let same = some-injective _ _ (rw known at (rw attach at e)) in
              inl (
                subst HasQueue same (record d { q = q }, refl),
                λ (_, u). none-ne-some (sym u ∙ known),
              )
        ]
        | inr pass ↦ inl (
          keeps (argv0 ∷ argv1 ∷ argv2 ∷ []) d r (rw pass at e),
          λ (attach, _). true≢false (sym attach ∙ pass),
        )
      ]
    where
      true≢false : true ≡ false → ⊥
      true≢false h = cc

  -- A command that is defined leaves the object, if the base class does; but "packetqueue-attach"
  -- with an object that Tcl does not know, and nothing else, leaves a null pointer, with TCL_ERROR.
  pub command-IsLeft :
      (fuel : ℕ) (d : DropTail Q S) (argv : List String) (r : Result Q S)
      → Keeps
      → command floats true_ave total_time pq lookup base fuel d argv ≡ some r
      → IsLeft argv r
  unfolding command
  command-IsLeft fuel d [] r keeps e = inl (keeps [] d r e, λ u. u)
  command-IsLeft fuel d (argv0 ∷ []) r keeps e = inl (keeps (argv0 ∷ []) d r e, λ u. u)
  command-IsLeft fuel d (argv0 ∷ argv1 ∷ []) r keeps e =
      inl (two-HasQueue fuel d argv0 argv1 r keeps e, λ u. u)
  command-IsLeft fuel d (argv0 ∷ argv1 ∷ argv2 ∷ []) r keeps e =
      three-IsLeft fuel d argv0 argv1 argv2 r keeps e
  command-IsLeft fuel d (argv0 ∷ argv1 ∷ argv2 ∷ argv3 ∷ argv) r keeps e =
      inl (keeps (argv0 ∷ argv1 ∷ argv2 ∷ argv3 ∷ argv) d r e, λ u. u)
