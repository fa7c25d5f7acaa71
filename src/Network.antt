-- ===== src/Network.antt =====
-- Agents that hand packets to one another. The links of ns-2 are taken to deliver a packet to the
-- agent that its IP header names; `travel` follows a packet that none of them loses, and the steps of
-- Runs let them lose some.
pub mod Journey
pub mod Tables
pub mod Roundtrip
pub mod Walk
pub mod Carried
pub mod Handled
pub mod Runs
mod Tests
use antnet.Common.{ℕ, zero, suc, ◌==◌, if◌then◌else◌, Option, none, some, List, [], ◌∷◌, ◌>>=◌}
use antnet.Double.{Double}
use antnet.Packet.{Packet}
use antnet.Agent.State.{Antnet, Env, Event, sent, freed, dropped}
use antnet.Agent.Receive.{recv}

-- The agent of each node.
abbrev pub Net : Type 0 → Type 0 → Type 0
Net R D = ℕ → Antnet R D

module _ {R D : Type 0} where
  abbrev pub put : Net R D → ℕ → Antnet R D → Net R D
  put net n a = λ m. if n == m then a else net m

module _ {R D : Type 0} ⦃d : Double D⦄ where
  -- What goes on after one delivery: another delivery, if the packet was sent on.
  abbrev pub after :
      (Net R D → Packet D → Option (List ℕ × Net R D × Event (Packet D)))
      → Net R D
      → ℕ
      → Antnet R D × List (Event (Packet D))
      → Option (List ℕ × Net R D × Event (Packet D))
  after again net n (a, []) = none
  after again net n (a, sent q ∷ []) =
      (again (put net n a) q >>= λ (ns, net', e). some (n ∷ ns, net', e))
  after again net n (a, freed q ∷ []) = some (n ∷ [], put net n a, freed q)
  after again net n (a, dropped q why ∷ []) = some (n ∷ [], put net n a, dropped q why)
  after again net n (a, e ∷ e' ∷ es) = none

  -- The nodes that a packet comes to, at most `fuel` of them, the agents afterwards, and how the
  -- packet ends. `none` is a fault, two fates of one packet, a packet that is lost, or no fuel.
  unfoldable pub travel :
      ℕ → Env R D → Net R D → Packet D → Option (List ℕ × Net R D × Event (Packet D))
  travel zero env net p = none
  travel (suc fuel) env net p =
      (recv env (net p.ih.daddr) p >>= after (travel fuel env) net p.ih.daddr)
