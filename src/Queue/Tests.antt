-- ===== src/Queue/Tests.antt =====
-- A list is a packet queue, and the queues at work on it.
use Prim.Native.String.{String}
use antnet.Common.{
  ap, sym, ◌>>=◌, map, ℕ, ◌+◌, ◌<◌, ◌≤◌, ◌≡◌, refl, ◌∙◌, ◌⊎◌, ◌==◌, if◌then◌else◌, Bool, true,
  false, Option, none, some, List, [], ◌∷◌, ◌++◌, length, get_elem?, arith, Lacks, ==_iff,
}
use mathlib.Core.List.{append_assoc}
use mathlib.Core.Option.{some-injective}
use antnet.Common.Int.{pos}
use antnet.Packet.{HdrCmn, up, ns_af_inet}
use antnet.Packet.Numbers.{pt_ant}
use antnet.Agent.State.{Event, sent, dropped, end_of_simulation}
use antnet.Agent.Command.{tcl_ok, tcl_error, equal, equal_nocase}
use antnet.Trace.Printf.{Floats}
use antnet.Queue.DropTail.Command.{Result, answer}
use antnet.Queue.DropTail.Command as DropTailCommand
use antnet.Queue.DropTail.Attach.{IsLeft, command-IsLeft}
use antnet.Queue.PriQueue.Command.{command}
use antnet.Queue.PriQueue.Reset.{command-reset}
use antnet.Queue.{PacketQueue, IsFifo, bytes}
use antnet.Queue.DropTail.{DropTail, enque}
use antnet.Queue.DropTail.Limit.{drops, IsSame, IsEnqued, enque-IsEnqued}
use antnet.Queue.DropTail.Sequence.{IsHeld, enque_all-IsHeld}
use antnet.Queue.PriQueue.{recv_high_priority, filter, filter_hop}
use antnet.Queue.PriQueue.Order.{recv_high_priority_blocked, recv_high_priority_free}
use antnet.Queue.PriQueue.Filter.{keep, filter-keep, IsFiltered, filter_hop-IsFiltered}

abbrev last : List ℕ → Option ℕ
last [] = none
last (p ∷ []) = some p
last (p ∷ k ∷ ps) = last (k ∷ ps)

abbrev without : List ℕ → ℕ → List ℕ
without [] p = []
without (k ∷ ps) p = let rest = without ps p in if k == p then ps else k ∷ rest

abbrev size_one : ℕ → ℕ
size_one p = 1

abbrev list_queue : PacketQueue (List ℕ)
list_queue = record {
  chain = λ q. q;
  length = λ q. length q;
  byte_length = bytes size_one;
  enque = λ q p. q ++ p ∷ [];
  enque_head = λ q p. p ∷ q;
  deque = λ q. elim q [ [] ↦ (none, []) | p ∷ ps ↦ (some p, ps) ];
  tail = last;
  lookup = get_elem?;
  remove = without;
  remove_behind = λ q p pp. without q p;
}

last-append : (xs : List ℕ) (p : ℕ) → last (xs ++ p ∷ []) ≡ some p
last-append [] p = refl
last-append (x ∷ []) p = refl
last-append (x ∷ y ∷ xs) p = last-append (y ∷ xs) p

without-append :
    (xs : List ℕ) (p : ℕ) (ys : List ℕ) → Lacks p xs → without (xs ++ p ∷ ys) p ≡ xs ++ ys
without-append [] p ys l = rw ((==_iff p p).1 refl) refl
without-append (x ∷ xs) p ys (ne, l) = ground (arith, ==_iff x p, without-append xs p ys l)

list_queue-IsFifo : IsFifo list_queue size_one
list_queue-IsFifo = record {
  length_lem = λ q. refl;
  byte_length_lem = λ q. refl;
  enque_lem = λ q p. refl;
  enque_head_lem = λ q p. refl;
  deque_empty = λ q e. rw e refl;
  deque_first = λ q p ps e. (ps, rw e refl, refl);
  tail_lem = λ q xs p e. rw e (last-append xs p);
  lookup_lem = λ q i. refl;
  remove_lem = λ q xs p ys e l. rw e (without-append xs p ys l);
  remove_behind_lem = λ q xs pp p ys e l.
      rw (e, ← append_assoc xs (pp ∷ []) (p ∷ ys))
        (without-append (xs ++ pp ∷ []) p ys l ∙ append_assoc xs (pp ∷ []) ys);
}

-- Three packets wait, and the limit is `n`.
abbrev waiting : ℕ → Bool → DropTail (List ℕ) ℕ
waiting n blocked = record {
  q = 5 ∷ 6 ∷ 7 ∷ [];
  drop_front = false;
  summarystats = true;
  qib = false;
  mean_pktsize = 1;
  qlim = n;
  blocked = blocked;
  stats = 0;
}

abbrev count : ℕ → ℕ → ℕ
count s n = s + n

abbrev to_node : ℕ → HdrCmn
to_node p = record {
  ptype = pt_ant;
  size = 1;
  uid = p;
  error = 0;
  direction = up;
  next_hop = pos p;
  addr_type = ns_af_inet;
  last_hop = pos 0;
  num_forwards = 0;
}

enque-IsEnqued_example :
    (d' : DropTail (List ℕ) ℕ) × (events : List (Event ℕ)) × (enque list_queue count size_one
        (waiting 4 true)
        8
      ≡ some (d', events))
    × IsSame (waiting 4 true) d'
    × IsEnqued list_queue size_one list_queue-IsFifo (waiting 4 true) 8 d'.q events
enque-IsEnqued_example =
    enque-IsEnqued list_queue size_one list_queue-IsFifo count (waiting 4 true) 8

enque_all-IsHeld_example :
    IsHeld list_queue size_one list_queue-IsFifo count (8 ∷ 9 ∷ []) (waiting 5 true)
enque_all-IsHeld_example =
    enque_all-IsHeld list_queue size_one list_queue-IsFifo count (8 ∷ 9 ∷ []) (waiting 5 true) refl
      (omega arith)

recv_high_priority_blocked_example :
    (d' : DropTail (List ℕ) ℕ) × (events : List (Event ℕ)) × (recv_high_priority list_queue count
        (waiting 4 true)
        8
      ≡ some (d', events))
    × (((d'.q ≡ 8 ∷ 5 ∷ 6 ∷ 7 ∷ []) × (events ≡ []) × (length d'.q < 4))
        ⊎ ((final : ℕ) × (8 ∷ 5 ∷ 6 ∷ 7 ∷ [] ≡ d'.q ++ final ∷ [])
            × (events ≡ drops (final ∷ []))
            × (4 ≤ 4)))
recv_high_priority_blocked_example =
    recv_high_priority_blocked list_queue size_one list_queue-IsFifo count (waiting 4 true) 8 refl
      (ground arith)

recv_high_priority_free_example :
    (d' : DropTail (List ℕ) ℕ) × (recv_high_priority list_queue count (waiting 9 false) 8
      ≡ some (d', sent 8 ∷ []))
    × (d'.q ≡ 5 ∷ 6 ∷ 7 ∷ [])
    × (d'.blocked ≡ true)
recv_high_priority_free_example =
    recv_high_priority_free list_queue size_one list_queue-IsFifo count (waiting 9 false) 8 refl
      (omega arith)

filter-keep_example :
    (q' : List ℕ) × (filter list_queue 4 (λ p. p == 6) 0 (5 ∷ 6 ∷ 7 ∷ []) ≡ some q')
    × (q' ≡ keep (λ p. p == 6) (5 ∷ 6 ∷ 7 ∷ []))
filter-keep_example =
    filter-keep list_queue size_one list_queue-IsFifo 4 (λ p. p == 6) (5 ∷ 6 ∷ 7 ∷ [])
      (ground arith) (omega arith)

filter_hop-IsFiltered_example :
    let (o, q') = filter_hop list_queue to_node 6 (5 ∷ 6 ∷ 7 ∷ []) in
    IsFiltered list_queue size_one list_queue-IsFifo to_node 6 (5 ∷ 6 ∷ 7 ∷ []) q' o
filter_hop-IsFiltered_example =
    filter_hop-IsFiltered list_queue size_one list_queue-IsFifo to_node 6 (5 ∷ 6 ∷ 7 ∷ [])
      (ground arith)

-- The base class prints nothing and lets the object be.
abbrev quiet : List String → DropTail (List ℕ) ℕ → Option (Result (List ℕ) ℕ)
quiet argv d = some (answer tcl_ok d [] [])

abbrev no_digits : Floats ℕ
no_digits c p x = []

any_case : equal_nocase "RESET" "reset" ≡ true
unfolding equal_nocase
any_case = refl

command-reset_example :
    (d' : DropTail (List ℕ) ℕ) × (d'.q ≡ [])
    × (command no_digits
          (λ s. s)
          (λ s. s)
          list_queue
          count
          (λ s. none)
          quiet
          4
          (waiting 4 true)
          ("ifq" ∷ "RESET" ∷ [])
        ≡ (quiet ("ifq" ∷ "RESET" ∷ []) d' >>= λ r. some (record r {
          events = map (λ p. dropped p end_of_simulation) (5 ∷ 6 ∷ 7 ∷ []) ++ r.events;
        })))
command-reset_example =
    command-reset no_digits (λ s. s) (λ s. s) list_queue size_one list_queue-IsFifo count
      (λ s. none) quiet 4 (waiting 4 true) "ifq" "RESET" any_case (omega arith)

-- What is left of a queue that nothing was attached to.
abbrev lost : Result (List ℕ) ℕ
lost = record { status = tcl_error; object = none; events = []; printed = [] }

attaching :
    DropTailCommand.command no_digits
      (λ s. s)
      (λ s. s)
      list_queue
      (λ s. none)
      quiet
      4
      (waiting 4 true)
      ("ifq" ∷ "packetqueue-attach" ∷ "_o7" ∷ [])
    ≡ some lost
unfolding DropTailCommand.command equal
attaching = refl

command-IsLeft_example :
    IsLeft no_digits
      (λ s. s)
      (λ s. s)
      list_queue
      (λ s. none)
      quiet
      ("ifq" ∷ "packetqueue-attach" ∷ "_o7" ∷ [])
      lost
command-IsLeft_example =
    command-IsLeft no_digits (λ s. s) (λ s. s) list_queue (λ s. none) quiet 4 (waiting 4 true)
      ("ifq" ∷ "packetqueue-attach" ∷ "_o7" ∷ []) lost
      (λ argv d r e. (d, ap (λ (k : Result (List ℕ) ℕ). k.object) (sym (some-injective _ _ e))))
      attaching
