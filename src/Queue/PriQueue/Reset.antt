-- ===== src/Queue/PriQueue/Reset.antt =====
-- queue/priqueue.cc, `command`: what "reset" does to the packets that wait.
use Prim.Native.String.{String}
use antnet.Common.{
  ℕ, suc, ◌<◌, ◌≡◌, ◌≢◌, refl, sym, ap, ◌∙◌, true, false, Option, some, List, [], ◌∷◌, ◌++◌, map,
  length, arith, Text, codes, same_codes, ◌>>=◌, Bool-cases, inl, inr,
}
use antnet.Agent.State.{dropped, end_of_simulation}
use antnet.Agent.Command.{equal, equal_nocase, to_lower}
use antnet.Trace.Printf.{Floats}
use antnet.Queue.{PacketQueue, IsFifo}
use antnet.Queue.DropTail.{DropTail}
use antnet.Queue.DropTail.Command.{Result}
use antnet.Queue.DropTail.Command as DropTailCommand
use antnet.Queue.PriQueue.Command.{command}
use antnet.Queue.PriQueue.Order.{terminate_lem}

same_codes-length : (xs ys : Text) → same_codes xs ys ≡ true → length xs ≡ length ys
same_codes-length [] [] e = refl
same_codes-length [] (y ∷ ys) e = cc
same_codes-length (x ∷ xs) [] e = cc
same_codes-length (x ∷ xs) (y ∷ ys) e = ap suc (same_codes-length xs ys (ground arith))

length-map-to_lower : (xs : Text) → length (map to_lower xs) ≡ length xs
length-map-to_lower [] = refl
length-map-to_lower (x ∷ xs) = ap suc (length-map-to_lower xs)

-- Texts of different lengths are not the same command, whatever the case of one is.
equal-nocase :
    (s t u : String)
    → equal_nocase s t ≡ true
    → length (codes t) ≢ length (codes u)
    → equal s u ≡ false
unfolding equal equal_nocase
equal-nocase s t u e ne = elim (Bool-cases (equal s u)) [
  | inl same ↦ absurd (
      ne (
        sym (length-map-to_lower (codes t))
        ∙ sym (same_codes-length (map to_lower (codes s)) (map to_lower (codes t)) e)
        ∙ length-map-to_lower (codes s)
        ∙ same_codes-length (codes s) (codes u) same))
  | inr other ↦ other
]

module _ {Q S D : Type 0} (floats : Floats D) (true_ave total_time : S → D) (pq : PacketQueue Q)
    (size : ℕ → ℕ) (fifo : IsFifo pq size) (update_stats : S → ℕ → S) (lookup : String → Option Q)
    (base : List String → DropTail Q S → Option (Result Q S)) where
  -- "reset" is none of the commands of the parent, which hands it to the base class.
  parent-reset :
      (fuel : ℕ) (d : DropTail Q S) (argv0 argv1 : String)
      → equal_nocase argv1 "reset" ≡ true
      → DropTailCommand.command floats true_ave total_time pq lookup base fuel d
          (argv0 ∷ argv1 ∷ [])
        ≡ base (argv0 ∷ argv1 ∷ []) d
  unfolding DropTailCommand.command
  parent-reset fuel d argv0 argv1 e =
      rw
        (
          equal-nocase argv1 "reset" "printstats" e (omega arith),
          equal-nocase argv1 "reset" "shrink-queue" e (omega arith),
        )
        refl

  -- "reset", in upper or lower case, with more fuel than packets: every packet that waits is dropped
  -- once, in order, as at the end of the simulation, and then the base class gets the command, with
  -- the queue empty.
  pub command-reset :
      (fuel : ℕ) (d : DropTail Q S) (argv0 argv1 : String)
      → equal_nocase argv1 "reset" ≡ true
      → length (pq.chain d.q) < fuel
      → (d' : DropTail Q S) × (pq.chain d'.q ≡ [])
        × (command floats true_ave total_time pq update_stats lookup base fuel d
              (argv0 ∷ argv1 ∷ [])
            ≡ (base (argv0 ∷ argv1 ∷ []) d' >>= λ r. some (record r {
              events = map (λ p. dropped p end_of_simulation) (pq.chain d.q) ++ r.events;
            })))
  unfolding command
  command-reset fuel d argv0 argv1 is_reset h =
      let (d', dropping, empty) =
        terminate_lem pq size fifo update_stats fuel d (pq.chain d.q) refl h in
      (d', empty, rw (is_reset, dropping, parent-reset fuel d' argv0 argv1 is_reset) refl)
