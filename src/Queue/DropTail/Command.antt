-- ===== src/Queue/DropTail/Command.antt =====
-- queue/drop-tail.{h,cc}: the constructor, what Tcl can tell a queue, and the line of statistics. The
-- object table of Tcl, the base class `Queue` and the digits of a double are parameters.
use Prim.Native.String.{String}
use antnet.Common.{
  ℕ, if◌then◌else◌, Bool, Option, none, some, List, [], ◌∷◌, ◌++◌, Text, codes, ◌>>=◌,
}
use antnet.Agent.State.{Event}
use antnet.Agent.Command.{Status, tcl_ok, tcl_error, equal}
use antnet.Trace.Printf.{Floats, dbl, sprintf}
use antnet.Queue.{PacketQueue}
use antnet.Queue.DropTail.{DropTail, shrink_queue}

-- The values that Tcl keeps for the members that the constructor binds.
pub record Bound : Type 0 where
  pub drop_front : Bool
  pub summarystats : Bool
  pub qib : Bool
  pub mean_pktsize : ℕ

-- What a command leaves: the status, the object, what became of packets, and what it prints. No
-- object is one whose `q_` is a null pointer.
pub record Result (Q S : Type 0) : Type 0 where
  pub status : Status
  pub object : Option (DropTail Q S)
  pub events : List (Event ℕ)
  pub printed : Text

module _ {Q S : Type 0} where
  -- The constructor, with the new `PacketQueue`, on an object whose base class is constructed.
  pub new_drop_tail : Q → Bound → DropTail Q S → DropTail Q S
  new_drop_tail new b base = record base {
    q = new;
    drop_front = b.drop_front;
    summarystats = b.summarystats;
    qib = b.qib;
    mean_pktsize = b.mean_pktsize;
  }

  -- `Queue::reset` of ns-2 is a parameter.
  pub reset : (DropTail Q S → DropTail Q S) → DropTail Q S → DropTail Q S
  reset queue_reset d = queue_reset d

  abbrev pub answer : Status → DropTail Q S → List (Event ℕ) → Text → Result Q S
  answer status d events printed = record {
    status = status;
    object = some d;
    events = events;
    printed = printed;
  }

  module _ {D : Type 0} (floats : Floats D) (true_ave total_time : S → D) where
    pub print_summarystats : DropTail Q S → Option Text
    print_summarystats d = do
      average ← sprintf floats (codes "True average queue: %5.3f") (dbl (true_ave d.stats) ∷ [])
      time ← sprintf floats (codes " time: %5.3f") (dbl (total_time d.stats) ∷ [])
      some (average ++ ((if d.qib then codes " (in bytes)" else []) ++ (time ++ b'\n' ∷ [])))

    module _ (pq : PacketQueue Q) (lookup : String → Option Q)
        (base : List String → DropTail Q S → Option (Result Q S)) where
      -- `fuel` is that of `shrink_queue`.
      unfoldable pub command : ℕ → DropTail Q S → List String → Option (Result Q S)
      unfolding print_summarystats
      command fuel d (argv0 ∷ argv1 ∷ []) =
          let pass = base (argv0 ∷ argv1 ∷ []) d in
          if equal argv1 "printstats"
          then (print_summarystats d >>= λ printed. some (answer tcl_ok d [] printed))
          else if equal argv1 "shrink-queue"
          then (shrink_queue pq fuel d >>= λ (d', events). some (answer tcl_ok d' events []))
          else pass
      command fuel d (argv0 ∷ argv1 ∷ argv2 ∷ []) =
          let pass = base (argv0 ∷ argv1 ∷ argv2 ∷ []) d in
          if equal argv1 "packetqueue-attach"
          then (elim (lookup argv2) [
            | none ↦ some (record { status = tcl_error; object = none; events = []; printed = [] })
            | some q ↦ some (answer tcl_ok (record d { q = q }) [] [])
          ])
          else pass
      command fuel d argv = base argv d
