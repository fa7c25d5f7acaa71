-- ===== src/Trace/Tracers.antt =====
-- trace/cmu-trace.cc, `PacketTracer::format_unknow`: who formats a packet of another type.
use antnet.Common.{
  ℕ, suc, ◌≡◌, refl, ap, Bool, Option, none, some, List, [], ◌∷◌, ◌++◌, length, All, Text,
}
use antnet.Common.Int.{ℤ}
use antnet.Trace.Headers.{TracedPacket}
use antnet.Trace.Format.{PacketTracer, asks, format_unknow}

module _ {D : Type 0} (tagged : Bool) (newtrace : ℤ) (p : TracedPacket D) where
  abbrev pub KnowsNot : List (PacketTracer D) → Type 0
  KnowsNot = All λ t. t tagged newtrace p ≡ none

  -- Nobody knows the packet, and all were asked; or one tracer knows it, none before does, and none
  -- behind was asked.
  abbrev pub IsAsked : List (PacketTracer D) → List ℕ → Option Text → Type 0
  IsAsked chain asked none = KnowsNot chain × (length asked ≡ length chain)
  IsAsked chain asked (some s) =
      (before : List (PacketTracer D)) × (t : PacketTracer D) × (after : List (PacketTracer D))
      × (chain ≡ before ++ t ∷ after)
      × KnowsNot before
      × (t tagged newtrace p ≡ some s)
      × (length asked ≡ suc (length before))

  IsAsked-cons :
      (pt : PacketTracer D) (next : List (PacketTracer D)) (asked : List ℕ) (known : Option Text)
      → pt tagged newtrace p ≡ none
      → IsAsked next asked known
      → IsAsked (pt ∷ next) (length next ∷ asked) known
  IsAsked-cons pt next asked none e (none_knows, len) = ((e, none_knows), ap suc len)
  IsAsked-cons pt next asked (some s) e (before, t, after, split, none_knows, knows, len) =
      (pt ∷ before, t, after, ap (◌∷◌ pt) split, (e, none_knows), knows, ap suc len)

  asks-IsAsked :
      (pt : PacketTracer D) (next : List (PacketTracer D)) (o : Option Text)
      (behind : List ℕ × Option Text)
      → pt tagged newtrace p ≡ o
      → IsAsked next behind.0 behind.1
      → IsAsked (pt ∷ next) (asks (length next) o behind).0 (asks (length next) o behind).1
  asks-IsAsked pt next (some s) behind e h = ([], pt, next, refl, tt, e, refl)
  asks-IsAsked pt next none (asked, known) e h = IsAsked-cons pt next asked known e h

  -- The tracers are asked in order up to the first that knows the packet, and no further; the text
  -- is what that one writes, and there is none if nobody knows the packet.
  pub format_unknow-IsAsked :
      (chain : List (PacketTracer D))
      → let (asked, known) = format_unknow chain tagged newtrace p in IsAsked chain asked known
  unfolding format_unknow
  format_unknow-IsAsked [] = (tt, refl)
  format_unknow-IsAsked (pt ∷ next) =
      asks-IsAsked pt next (pt tagged newtrace p) (format_unknow next tagged newtrace p) refl
        (format_unknow-IsAsked next)
