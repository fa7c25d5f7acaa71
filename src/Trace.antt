-- ===== src/Trace.antt =====
-- trace/cmu-trace.{h,cc}: what a trace object does with a packet.
pub mod Printf
pub mod Headers
pub mod Object
pub mod Nam
pub mod Format
pub mod Tracers
pub mod Ants
pub mod Life
mod Tests
use antnet.Common.{
  ℕ, ◌==◌, if◌then◌else◌, ◌&&◌, Bool, true, false, Option, none, some, List, [], Text, codes, ◌>>=◌,
}
use antnet.Double.{Double, nought, one}
use antnet.Agent.State.{Event, sent, freed}
use antnet.Trace.Headers.{TracedPacket, Sim, Letters}
use antnet.Trace.Object.{CmuTrace, TraceType, tr_agent, initialized}
use antnet.Trace.Nam.{Animator, NamResult, Radius}
use antnet.Trace.Format.{PacketTracer, Formatted, format}
use antnet.Trace.Format.Mac.{model_of}

-- What a call does: whether the packet is stamped with the best route, the line that is dumped with
-- all that `format` leaves, and what becomes of the packet.
pub record Traced (D : Type 0) : Type 0 where
  pub stamped : Bool
  pub formatted : Option (Formatted D)
  pub fate : Event (TracedPacket D)

-- Where a packet goes that is not dropped.
abbrev pub passed_on : {D : Type 0} → Option ℕ → TracedPacket D → Event (TracedPacket D)
passed_on none p = freed p
passed_on (some target) p = sent p

pub is_agent : TraceType → Bool
is_agent tr_agent = true
is_agent type = false

module _ {D : Type 0} ⦃d : Double D⦄ (sim : Sim D) where
  open d use {lt}

  -- The energy of the node, if there is a node with an energy model; else 1.
  pub node_energy : CmuTrace → Bool
  node_energy t = elim (model_of sim t) [
    | none ↦ lt nought one
    | some model ↦ lt nought model.energy
  ]

  -- `recv(Packet*, Handler*)`; `none` is undefined behaviour or a failed assertion.
  pub recv_packet :
      Animator D → CmuTrace → Radius D → List (PacketTracer D) → TracedPacket D → Option (Traced D)
  unfolding node_energy is_agent
  recv_packet nam t radius chain p =
      if node_energy t
      then (if initialized t
          then (format sim nam t radius chain p (codes "---") >>= λ f. some (record {
            stamped = is_agent t.tracetype && (t.type == sim.letters.send);
            formatted = some f;
            fate = passed_on t.target p;
          }))
          else none)
      else some (record { stamped = false; formatted = none; fate = freed p })

  -- `recv(Packet*, const char* why)`, for a packet that is dropped.
  pub recv_drop :
      Animator D
      → CmuTrace
      → Radius D
      → List (PacketTracer D)
      → TracedPacket D
      → Text
      → Option (Traced D)
  unfolding node_energy
  recv_drop nam t radius chain p why =
      if initialized t && (t.type == sim.letters.drop)
      then (if node_energy t
          then (format sim nam t radius chain p why >>= λ f.
              some (record { stamped = false; formatted = some f; fate = freed p }))
          else some (record { stamped = false; formatted = none; fate = freed p }))
      else none
