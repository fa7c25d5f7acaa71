-- ===== src/Trace/Format.antt =====
-- trace/cmu-trace.cc, `format`: the text of a line, and who writes it.
pub mod Routing
pub mod Transport
pub mod Mac
pub mod Ants
pub mod Sctp
pub mod Start
pub mod Dsr
use antnet.Common.{
  ℕ, zero, suc, ◌==◌, if◌then◌else◌, ◌||◌, Bool, true, false, Option, none, some, List, [], ◌∷◌,
  ◌++◌, length, Text, codes, ◌>>=◌,
}
use antnet.Common.Int.{ℤ}
use antnet.Double.{Double}
use antnet.Packet.Numbers.{
  pt_mac, pt_smac, pt_arp, pt_aodv, pt_ant, pt_aomdv, pt_tora, pt_imep, pt_dsr, pt_message, pt_udp,
  pt_tcp, pt_ack, pt_sctp, pt_cbr, pt_diff, pt_gaf, pt_ping,
}
use antnet.Trace.Object.{CmuTrace, is_set}
use antnet.Trace.Headers.{TracedPacket, Sim}
use antnet.Trace.Nam.{Animator, NamResult, Radius, nam_format}
use Routing.{format_antnet, format_dsr, format_imep, format_tora, format_aodv, format_aomdv}
use Transport.{
  format_ip, format_arp, format_msg, format_tcp, format_sctp, format_rtp, marks_inroute,
}
use Mac.{format_mac_common}

-- `format` of one packet tracer, with the flags of the trace: the text that it adds, or `none` for a
-- packet that it does not know.
abbrev pub PacketTracer : Type 0 → Type 0
PacketTracer D = Bool → ℤ → TracedPacket D → Option Text

-- `||`: whoever knows the packet ends the chain; else the tracers behind are asked.
abbrev pub asks : ℕ → Option Text → List ℕ × Option Text → List ℕ × Option Text
asks i (some t) behind = (i ∷ [], some t)
asks i none (asked, known) = (i ∷ asked, known)

module _ {D : Type 0} where
  -- `PacketTracer::format_unknow` along the chain: who was asked, by the number of tracers behind it,
  -- and the text, if one knew the packet.
  unfoldable pub format_unknow :
      List (PacketTracer D) → Bool → ℤ → TracedPacket D → List ℕ × Option Text
  format_unknow [] tagged newtrace p = ([], none)
  format_unknow (pt ∷ next) tagged newtrace p =
      asks (length next) (pt tagged newtrace p) (format_unknow next tagged newtrace p)

  pub add_packet_tracer : PacketTracer D → List (PacketTracer D) → List (PacketTracer D)
  add_packet_tracer pt chain = pt ∷ chain

-- Nothing, for a packet that nobody knows.
abbrev pub text_or_nothing : Option Text → Text
text_or_nothing none = []
text_or_nothing (some t) = t

-- What `format` leaves: the buffer, what it wrote for nam, and whether it marks the node as being in
-- the route.
pub record Formatted (D : Type 0) : Type 0 where
  pub line : Text
  pub nam : NamResult D
  pub inroute : Bool

module _ {D : Type 0} ⦃d : Double D⦄ (sim : Sim D) where
  -- The inner `switch`.
  pub format_body : CmuTrace → List (PacketTracer D) → TracedPacket D → Option Text
  unfolding format_unknow
  format_body t chain p =
      let ptype = p.packet.ch.ptype in
      let tagged = t.tagged in
      let newtrace = is_set t.newtrace in
      if ptype == pt_aodv
      then format_aodv sim.codes_of sim.floats tagged newtrace p
      else if ptype == pt_ant
      then format_antnet sim.floats tagged newtrace p
      else if ptype == pt_aomdv
      then format_aomdv sim.codes_of sim.floats tagged newtrace p
      else if ptype == pt_tora
      then format_tora sim.codes_of sim.floats tagged newtrace p
      else if ptype == pt_imep
      then format_imep sim.codes_of sim.floats tagged newtrace p
      else if ptype == pt_dsr
      then format_dsr sim.floats tagged newtrace p
      else if (ptype == pt_message) || (ptype == pt_udp)
      then format_msg sim tagged newtrace p
      else if (ptype == pt_tcp) || (ptype == pt_ack)
      then format_tcp sim tagged newtrace p
      else if ptype == pt_sctp
      then format_sctp sim tagged newtrace p
      else if ptype == pt_cbr
      then format_rtp sim tagged newtrace p
      else if (ptype == pt_diff) || (ptype == pt_gaf) || (ptype == pt_ping)
      then some []
      else some (text_or_nothing (format_unknow chain tagged t.newtrace p).1)

  -- The outer `switch`.
  pub format_rest : CmuTrace → List (PacketTracer D) → TracedPacket D → Option Text
  unfolding format_body
  format_rest t chain p =
      let ptype = p.packet.ch.ptype in
      let tagged = t.tagged in
      let newtrace = is_set t.newtrace in
      if (ptype == pt_mac) || (ptype == pt_smac)
      then some []
      else if ptype == pt_arp
      then format_arp sim tagged newtrace p
      else (format_ip sim tagged newtrace p >>= λ ip.
          format_body t chain p >>= λ body. some (ip ++ body))

  -- The node is marked by `format_rtp`.
  unfoldable pub routed_here : CmuTrace → TracedPacket D → Option Bool
  routed_here t p =
      if p.packet.ch.ptype == pt_cbr
      then marks_inroute sim t.tagged (is_set t.newtrace) t.src p
      else some false

  unfoldable pub nam_part : Animator D → CmuTrace → Radius D → TracedPacket D → Option (NamResult D)
  nam_part nam t radius p =
      if t.namchannel
      then nam_format sim nam t p radius
      else some (record { lines = []; tracer = t; radius = radius; attribute = none })

  -- `CMUTrace::format`; `none` is undefined behaviour, a failed assertion or the end of the program.
  unfoldable pub format :
      Animator D
      → CmuTrace
      → Radius D
      → List (PacketTracer D)
      → TracedPacket D
      → Text
      → Option (Formatted D)
  unfolding format_rest routed_here nam_part
  format nam t radius chain p why = format_mac_common sim t p why >>= λ start.
      nam_part nam t radius p >>= λ result. format_rest t chain p >>= λ rest.
      routed_here t p >>= λ inroute.
      some (record { line = start ++ rest; nam = result; inroute = inroute })
