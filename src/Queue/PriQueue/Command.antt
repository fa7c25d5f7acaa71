-- ===== src/Queue/PriQueue/Command.antt =====
-- queue/priqueue.cc: the constructor, and the command "reset".
use Prim.Native.String.{String}
use antnet.Common.{ℕ, if◌then◌else◌, Bool, Option, some, List, [], ◌∷◌, ◌++◌, ◌>>=◌}
use antnet.Agent.Command.{equal_nocase}
use antnet.Trace.Printf.{Floats}
use antnet.Queue.{PacketQueue}
use antnet.Queue.DropTail.{DropTail}
use antnet.Queue.DropTail.Command.{Bound, Result, new_drop_tail}
use antnet.Queue.DropTail.Command as DropTailCommand
use antnet.Queue.PriQueue.{terminate}

-- `class PriQueue`: the queue, and `Prefer_Routing_Protocols`, which Tcl binds.
pub record PriQueue (Q S : Type 0) : Type 0 where
  pub queue : DropTail Q S
  pub prefer_routing_protocols : Bool

module _ {Q S : Type 0} where
  -- The constructor of the object `self`, with the list of all queues `prhead`.
  pub new_pri_queue : Q → Bound → Bool → DropTail Q S → ℕ → List ℕ → PriQueue Q S × List ℕ
  new_pri_queue new b prefer base self prhead = (
    record { queue = new_drop_tail new b base; prefer_routing_protocols = prefer },
    self ∷ prhead,
  )

  module _ {D : Type 0} (floats : Floats D) (true_ave total_time : S → D) (pq : PacketQueue Q)
      (update_stats : S → ℕ → S) (lookup : String → Option Q)
      (base : List String → DropTail Q S → Option (Result Q S)) where
    abbrev parent : ℕ → DropTail Q S → List String → Option (Result Q S)
    parent = DropTailCommand.command floats true_ave total_time pq lookup base

    -- The queue empties itself first, so that the parents can reset; `fuel` is that of the loops.
    unfoldable pub command : ℕ → DropTail Q S → List String → Option (Result Q S)
    command fuel d (argv0 ∷ argv1 ∷ []) =
        let pass = parent fuel d (argv0 ∷ argv1 ∷ []) in
        if equal_nocase argv1 "reset"
        then (terminate pq update_stats fuel d >>= λ (d', events).
            parent fuel d' (argv0 ∷ argv1 ∷ []) >>= λ r.
            some (record r { events = events ++ r.events }))
        else pass
    command fuel d argv = parent fuel d argv
