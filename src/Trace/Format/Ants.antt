-- ===== src/Trace/Format/Ants.antt =====
-- trace/cmu-trace.cc: the line of an ant, read back.
use antnet.Common.{
  ◌≡◌, refl, subst, ◌∙◌, Bool, true, false, Option, none, some, List, [], ◌∷◌, ◌++◌, map, Text,
  codes, ◌>>=◌,
}
use mathlib.Core.List.{append-nil}
use antnet.Common.Int.{ℤ, pos}
use antnet.Double.{Double}
use antnet.Packet.Numbers.{pt_ant}
use antnet.Trace.Printf.{Floats, Directive, int, plain, directives_from, print}
use antnet.Trace.Printf.Scan.{scan, Fits, scan-print}
use antnet.Trace.Headers.{TracedPacket, Sim}
use antnet.Trace.Object.{CmuTrace, is_set}
use antnet.Trace.Format.{PacketTracer, format_rest, format_body}
use antnet.Trace.Format.Routing.{format_antnet}
use antnet.Trace.Format.Transport.{format_ip, no_less_than_zero}

-- The directives of a format; a format that has none is empty.
abbrev pub parsed : Text → List Directive
parsed f = elim (directives_from plain f) [ none ↦ [] | some ds ↦ ds ]

-- What the trace keeps of an ant, in each format.
abbrev pub ant_directives : Bool → Bool → List Directive
ant_directives true newtrace = parsed (codes "-ant:o %d -ant:s %d -ant:l %d ")
ant_directives false true = parsed (codes "-P ant -Po %d -Ps %d -Pl %d ")
ant_directives false false = parsed (codes "[ant %d %d %d] ")

abbrev pub ip_directives : List Directive
ip_directives = parsed (codes "------- [%d:%d %d:%d %d %d] ")

module _ {D : Type 0} where
  abbrev pub ant_fields : TracedPacket D → List ℤ
  ant_fields p = let ah = p.packet.ah in pos ah.pkt_src ∷ pos ah.pkt_seq_num ∷ pos ah.pkt_len ∷ []

  ant_Fits :
      (tagged newtrace : Bool) (p : TracedPacket D) (rest : Text)
      → Fits (ant_directives tagged newtrace) (ant_fields p) rest
  ant_Fits true newtrace p rest = (refl, refl, refl, (refl, refl, refl, (refl, refl, refl, tt)))
  ant_Fits false true p rest = (refl, refl, refl, (refl, refl, refl, (refl, refl, refl, tt)))
  ant_Fits false false p rest = (refl, refl, refl, (refl, refl, refl, (refl, refl, refl, tt)))

  format_antnet-print :
      (floats : Floats D) (tagged newtrace : Bool) (p : TracedPacket D)
      → format_antnet floats tagged newtrace p
        ≡ print floats (ant_directives tagged newtrace) (map int (ant_fields p))
  unfolding format_antnet
  format_antnet-print floats true newtrace p = refl
  format_antnet-print floats false true p = refl
  format_antnet-print floats false false p = refl

  -- In each of the three formats the text of an ant is defined, and from it, whatever stands behind
  -- it, the source, the sequence number and the length can be read back.
  pub format_antnet-scan :
      (floats : Floats D) (tagged newtrace : Bool) (p : TracedPacket D) (rest : Text)
      → (t : Text) × (format_antnet floats tagged newtrace p ≡ some t)
        × (scan (ant_directives tagged newtrace) (t ++ rest) ≡ some (ant_fields p, rest))
  format_antnet-scan floats tagged newtrace p rest =
      let (t, e, back) =
        scan-print floats (ant_directives tagged newtrace) (ant_fields p) rest
          (ant_Fits tagged newtrace p rest) in
      (t, format_antnet-print floats tagged newtrace p ∙ e, back)

module _ {D : Type 0} (sim : Sim D) where
  -- What the old format shows of the IP header.
  abbrev pub ip_fields : TracedPacket D → List ℤ
  ip_fields p =
      let ih = p.packet.ih in
      sim.nodeaddr ih.saddr
      ∷ pos ih.sport
      ∷ sim.nodeaddr ih.daddr
      ∷ pos ih.dport
      ∷ pos ih.ttl
      ∷ no_less_than_zero p.packet.ch.next_hop
      ∷ []

  ip_Fits : (p : TracedPacket D) (rest : Text) → Fits ip_directives (ip_fields p) rest
  ip_Fits p rest = (
    refl,
    refl,
    refl,
    (
      refl,
      refl,
      refl,
      (refl, refl, refl, (refl, refl, refl, (refl, refl, refl, (refl, refl, refl, tt)))),
    ),
  )

  format_ip-print :
      (p : TracedPacket D)
      → format_ip sim false false p ≡ print sim.floats ip_directives (map int (ip_fields p))
  unfolding format_ip
  format_ip-print p = refl

join :
    (o o' : Option Text) {a b : Text}
    → o ≡ some a
    → o' ≡ some b
    → (o >>= λ x. o' >>= λ y. some (x ++ y)) ≡ some (a ++ b)
join o o' e e' = rw (e, e') refl

module _ {D : Type 0} ⦃d : Double D⦄ (sim : Sim D) where
  format_rest-ant :
      (t : CmuTrace) (chain : List (PacketTracer D)) (p : TracedPacket D)
      → p.packet.ch.ptype ≡ pt_ant
      → format_rest sim t chain p ≡ (
          format_ip sim t.tagged (is_set t.newtrace) p >>= λ ip.
          format_antnet sim.floats t.tagged (is_set t.newtrace) p >>= λ body. some (ip ++ body))
  unfolding format_rest format_body
  format_rest-ant t chain p e = rw e refl

  -- In the old format, what the line of an ant says behind the MAC layer is defined, and it can be
  -- read back: first the addresses and ports, the time to live and the next hop, which is 0 where the
  -- packet has none, then the source, the sequence number and the length of the ant, and no more.
  pub format_rest-scan :
      (t : CmuTrace) (chain : List (PacketTracer D)) (p : TracedPacket D)
      → p.packet.ch.ptype ≡ pt_ant
      → t.tagged ≡ false
      → is_set t.newtrace ≡ false
      → (line : Text) × (ant : Text) × (format_rest sim t chain p ≡ some line)
        × (scan ip_directives line ≡ some (ip_fields sim p, ant))
        × (scan (ant_directives false false) ant ≡ some (ant_fields p, []))
  format_rest-scan t chain p is_ant tagged new =
      let (ant, e, back) = format_antnet-scan sim.floats false false p [] in
      let (ip, e', back') =
        scan-print sim.floats ip_directives (ip_fields sim p) ant (ip_Fits sim p ant) in
      (
        ip ++ ant,
        ant,
        format_rest-ant t chain p is_ant
            ∙ rw (tagged, new)
                (join (format_ip sim false false p) (format_antnet sim.floats false false p)
                  (format_ip-print sim p ∙ e') e),
        back',
        subst (λ u. scan (ant_directives false false) u ≡ some (ant_fields p, [])) (append-nil ant)
            back,
      )
