-- ===== src/Trace/Life.antt =====
-- trace/cmu-trace.cc: a trace object from its constructor to its first packet.
use Prim.Native.String.{String}
use antnet.Common.{
  ℕ, ◌≡◌, refl, ap, Bool, true, false, if◌then◌else◌, Option, none, some, List, [], ◌∷◌, Text, take,
  inl, inr, ◌⊎◌, Option-cases, >>=-eq-some,
}
use antnet.Common.Int.{pos}
use antnet.Double.{Double}
use antnet.Trace.Headers.{TracedPacket, Sim, Letters}
use antnet.Trace.Object.{
  CmuTrace, TraceType, initialized, is_allowed, max_id_len, trace_type, new_cmu_trace, command,
}
use antnet.Agent.Command.{Status, tcl_ok, tcl_error}
use antnet.Trace.Nam.{Animator, Radius}
use antnet.Trace.Format.{PacketTracer}
use antnet.Trace.{node_energy, recv_packet, recv_drop}

-- What the constructor makes of the object of the base class.
abbrev pub fresh : Text → ℕ → TraceType → CmuTrace → CmuTrace
fresh s type tracetype base = record base {
  tracename = take max_id_len s;
  node_color = λ i. 3;
  tracetype = tracetype;
  node = none;
  newtrace = pos 0;
  type = type;
}

chosen : (b : Bool) {x y : CmuTrace} → (if b then some x else none) ≡ some y → y ≡ x
chosen true e = cc
chosen false e = cc

new_cmu_trace-fresh :
    (l : Letters) (s : Text) (type : ℕ) (base t : CmuTrace)
    → new_cmu_trace l s type base ≡ some t
    → (tracetype : TraceType) × (t ≡ fresh s type tracetype base)
unfolding new_cmu_trace
new_cmu_trace-fresh l s type base t e =
    let (tracetype, named, allowed) = >>=-eq-some (trace_type (take max_id_len s)) _ e in
    (tracetype, chosen (is_allowed l type tracetype) allowed)

module _ {D : Type 0} ⦃d : Double D⦄ (sim : Sim D) where
  -- Without its node, an object fails its assertion at the first packet.
  recv-uninitialized :
      (nam : Animator D) (t : CmuTrace) (radius : Radius D) (chain : List (PacketTracer D))
      (p : TracedPacket D) (why : Text)
      → node_energy sim t ≡ true
      → initialized t ≡ false
      → (recv_packet sim nam t radius chain p ≡ none)
        × (recv_drop sim nam t radius chain p why ≡ none)
  unfolding recv_packet recv_drop
  recv-uninitialized nam t radius chain p why energy e = (rw (energy, e) refl, rw e refl)

  -- An object that was just made fails an assertion at the first packet, sent or dropped, if its
  -- node has energy, until Tcl names its node: the command `node` with an object that Tcl knows
  -- succeeds and leaves the object initialized; with one that Tcl does not know it fails.
  pub new_cmu_trace-command :
      (s : Text) (type : ℕ) (base t : CmuTrace) (nam : Animator D) (radius : Radius D)
      (chain : List (PacketTracer D)) (p : TracedPacket D) (why : Text) (lookup : String → Option ℕ)
      (base_command : List String → CmuTrace → Status × CmuTrace) (argv0 argv2 : String)
      → new_cmu_trace sim.letters s type base ≡ some t
      → node_energy sim t ≡ true
      → (recv_packet sim nam t radius chain p ≡ none)
        × (recv_drop sim nam t radius chain p why ≡ none)
        × (let (status, t') = command lookup base_command t (argv0 ∷ "node" ∷ argv2 ∷ []) in
            ((lookup argv2 ≡ none) × (status ≡ tcl_error) × (initialized t' ≡ false))
            ⊎ ((node : ℕ) × (lookup argv2 ≡ some node)
                × (status ≡ tcl_ok)
                × (t' ≡ record t { node = some node })))
  unfolding command
  new_cmu_trace-command s type base t nam radius chain p why lookup base_command argv0 argv2 made
        energy =
      let (tracetype, e) = new_cmu_trace-fresh sim.letters s type base t made in
      let (sends, drops) = recv-uninitialized nam t radius chain p why energy (ap initialized e) in
      (
        sends,
        drops,
        elim (Option-cases (lookup argv2)) [
          | inl q ↦ inl (q, rw q refl, rw q refl)
          | inr (node, q) ↦ inr (node, q, rw q refl, rw q refl)
        ],
      )
