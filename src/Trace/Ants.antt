-- ===== src/Trace/Ants.antt =====
-- trace/cmu-trace.cc, `recv`: the line of an ant in the old format, from the packet to the file.
use antnet.Common.{◌≡◌, refl, true, false, ◌==◌, ◌&&◌, none, some, List, [], ◌++◌, Text, codes}
use antnet.Double.{Double}
use antnet.Packet.Numbers.{pt_ant}
use antnet.Packet.Types.Roundtrip.{info}
use antnet.Trace.Printf.Scan.{scan}
use antnet.Trace.Headers.{TracedPacket, Sim}
use antnet.Trace.Object.{CmuTrace, is_set, initialized, type_name}
use antnet.Trace.Nam.{Animator, Radius}
use antnet.Trace.Format.{PacketTracer, Formatted, format, nam_part, routed_here, format_rest}
use antnet.Trace.Format.Mac.{old_type, format_mac_common}
use antnet.Trace.Format.Start.{format_mac_common-defined}
use antnet.Trace.Format.Ants.{
  ip_directives, ant_directives, ip_fields, ant_fields, format_rest-scan,
}
use antnet.Trace.{passed_on, is_agent, node_energy, recv_packet}

ant_name : type_name info pt_ant ≡ some (codes "Ant")
unfolding type_name info
ant_name = refl

module _ {D : Type 0} ⦃d : Double D⦄ (sim : Sim D) where
  old_type-ant :
      (t : CmuTrace) (p : TracedPacket D)
      → sim.info ≡ info
      → p.packet.ch.ptype ≡ pt_ant
      → old_type sim t p ≡ some (codes "Ant")
  unfolding old_type
  old_type-ant t p names is_ant = rw (is_ant, names) ant_name

  -- The line is dumped, and nothing is written for nam.
  abbrev pub only_line : Text → CmuTrace → Radius D → Formatted D
  only_line line t radius = record {
    line = line;
    nam = record { lines = []; tracer = t; radius = radius; attribute = none };
    inroute = false;
  }

  format-only :
      (nam : Animator D) (t : CmuTrace) (radius : Radius D) (chain : List (PacketTracer D))
      (p : TracedPacket D) (why start rest : Text)
      → p.packet.ch.ptype ≡ pt_ant
      → t.namchannel ≡ false
      → format_mac_common sim t p why ≡ some start
      → format_rest sim t chain p ≡ some rest
      → format sim nam t radius chain p why ≡ some (only_line (start ++ rest) t radius)
  unfolding format nam_part routed_here
  format-only nam t radius chain p why start rest is_ant off e e' = rw (e, off, e', is_ant) refl

  -- A trace object with its node, in the old format and without nam, handles every ant at a node
  -- with energy: the line is defined, and behind the start that it shares with all packets it can be
  -- read back: the addresses and ports, the time to live and the next hop, then the source, the
  -- sequence number and the length of the ant, and no more. The packet goes to the target, or is
  -- released if there is none, and the object stays as it is.
  pub recv_packet-scan :
      (nam : Animator D) (t : CmuTrace) (radius : Radius D) (chain : List (PacketTracer D))
      (p : TracedPacket D)
      → sim.info ≡ info
      → node_energy sim t ≡ true
      → initialized t ≡ true
      → t.tagged ≡ false
      → is_set t.newtrace ≡ false
      → t.namchannel ≡ false
      → p.packet.ch.ptype ≡ pt_ant
      → (start : Text) × (rest : Text) × (ant : Text) × (recv_packet sim nam t radius chain p
          ≡ some (record {
            stamped = is_agent t.tracetype && (t.type == sim.letters.send);
            formatted = some (only_line (start ++ rest) t radius);
            fate = passed_on t.target p;
          }))
        × (scan ip_directives rest ≡ some (ip_fields sim p, ant))
        × (scan (ant_directives false false) ant ≡ some (ant_fields p, []))
  unfolding recv_packet
  recv_packet-scan nam t radius chain p names energy ready tagged new off is_ant =
      let (start, e) =
        format_mac_common-defined sim t p (codes "---") (codes "Ant") tagged new
          (old_type-ant t p names is_ant) in
      let (rest, ant, e', ip, back) = format_rest-scan sim t chain p is_ant tagged new in
      let whole = format-only nam t radius chain p (codes "---") start rest is_ant off e e' in
      (start, rest, ant, rw (energy, ready, whole) refl, ip, back)
