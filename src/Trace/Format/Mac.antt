-- ===== src/Trace/Format/Mac.antt =====
-- trace/cmu-trace.cc: the start of a line, and the text of the MAC headers.
use antnet.Common.{
  ℕ, ◌==◌, if◌then◌else◌, ◌||◌, ◌&&◌, not, Bool, true, false, Option, none, some, List, [], ◌∷◌,
  ◌++◌, take, Text, codes, same_codes, ◌>>=◌,
}
use antnet.Common.Int.{ℤ, pos, negsuc}
use antnet.Double.{Double}
use antnet.Packet.Numbers.{pt_mac, pt_smac}
use antnet.Trace.Printf.{int, chr, str, dbl, sprintf}
use antnet.Trace.Object.{CmuTrace, TraceType, tr_router, tr_phy, is_set, type_name}
use antnet.Trace.Format.Routing.{by_format}
use antnet.Trace.Format.Transport.{same_int}
use antnet.Trace.Headers.{Codes, TracedPacket, HdrMac, Sim, EnergyModel}

abbrev pub is_router : TraceType → Bool
is_router tr_router = true
is_router type = false

abbrev pub is_phy : TraceType → Bool
is_phy tr_phy = true
is_phy type = false

-- The first name whose number is `n`.
abbrev pub named : ℕ → List (ℕ × Text) → Text
named n [] = codes "UNKN"
named n ((k, s) ∷ rest) = if n == k then s else named n rest

abbrev pub control_names : Codes → List (ℕ × Text)
control_names k =
    (k.mac_subtype_rts, codes "RTS")
    ∷ (k.mac_subtype_cts, codes "CTS")
    ∷ (k.mac_subtype_ack, codes "ACK")
    ∷ (k.mac_subtype_beacon, codes "BCN")
    ∷ (k.mac_subtype_command_asso_req, codes "CM1")
    ∷ (k.mac_subtype_command_asso_rsp, codes "CM2")
    ∷ (k.mac_subtype_command_d_asso_ntf, codes "CM3")
    ∷ (k.mac_subtype_command_data_req, codes "CM4")
    ∷ (k.mac_subtype_command_pidc_ntf, codes "CM5")
    ∷ (k.mac_subtype_command_orph_ntf, codes "CM6")
    ∷ (k.mac_subtype_command_bcon_req, codes "CM7")
    ∷ (k.mac_subtype_command_coor_rea, codes "CM8")
    ∷ (k.mac_subtype_command_gts_req, codes "CM9")
    ∷ []

abbrev pub management_names : Codes → List (ℕ × Text)
management_names k =
    (k.mac_subtype_80211_beacon, codes "BCN")
    ∷ (k.mac_subtype_assoc_req, codes "ACRQ")
    ∷ (k.mac_subtype_assoc_rep, codes "ACRP")
    ∷ (k.mac_subtype_auth, codes "AUTH")
    ∷ (k.mac_subtype_probe_req, codes "PRRQ")
    ∷ (k.mac_subtype_probe_rep, codes "PRRP")
    ∷ []

abbrev pub smac_names : Codes → List (ℕ × Text)
smac_names k =
    (k.smac_rts, codes "RTS")
    ∷ (k.smac_cts, codes "CTS")
    ∷ (k.smac_ack, codes "ACK")
    ∷ (k.smac_sync, codes "SYNC")
    ∷ []

abbrev pub mac_text_format : Bool → Bool → Text
mac_text_format tagged newtrace =
    by_format tagged newtrace (codes "-M:dur %x -M:s %x -M:d %x -M:t %x ")
      (codes "-Ma %x -Md %x -Ms %x -Mt %x ") (codes " [%x %x %x %x] ")

pub mac_name : Codes → HdrMac → Text
mac_name k mh =
    if mh.fc_type == k.mac_type_control
    then named mh.fc_subtype (control_names k)
    else if mh.fc_type == k.mac_type_management
    then named mh.fc_subtype (management_names k)
    else codes "UNKN"

module _ {D : Type 0} (sim : Sim D) (t : CmuTrace) where
  -- `strcmp(mactype, "Mac/SMAC") == 0`
  abbrev pub is_smac : Bool
  is_smac = same_codes sim.mac_type (codes "Mac/SMAC")

  -- `strncmp(mactype, "Mac/SMAC", 8) == 0`
  abbrev pub starts_smac : Bool
  starts_smac = same_codes (take 8 sim.mac_type) (codes "Mac/SMAC")

  pub print_ether_type : TracedPacket D → Bool
  print_ether_type p =
      let k = sim.codes_of in
      not (
        (p.packet.ch.ptype == pt_mac)
        && ((p.mac.fc_type == k.mac_type_control) || (p.mac.fc_type == k.mac_type_management)))

  unfoldable pub format_phy : TracedPacket D → Option Text
  unfolding sprintf
  format_phy p = sprintf sim.floats (codes " ") []

  unfoldable pub format_mac : TracedPacket D → Option Text
  unfolding sprintf print_ether_type
  format_mac p =
      let mh = p.mac in
      sprintf sim.floats (mac_text_format t.tagged (is_set t.newtrace)) (
        int mh.duration
        ∷ int mh.ra
        ∷ int mh.ta
        ∷ int (if print_ether_type p then mh.ether_type else pos 0)
        ∷ [])

  unfoldable pub format_smac : TracedPacket D → Option Text
  unfolding sprintf
  format_smac p =
      let sh = p.smac in
      sprintf sim.floats (codes " [%.2f %d %d] ")
        (dbl sh.duration ∷ int sh.dst_addr ∷ int sh.src_addr ∷ [])

  -- The type as the old format writes it; `none` is a read through the header that the MAC layer
  -- does not have.
  unfoldable pub old_type : TracedPacket D → Option Text
  unfolding mac_name type_name
  old_type p =
      let ptype = p.packet.ch.ptype in
      if ptype == pt_mac
      then (if is_smac then none else some (mac_name sim.codes_of p.mac))
      else if ptype == pt_smac
      then (if is_smac then some (named p.smac.type (smac_names sim.codes_of)) else none)
      else type_name sim.info ptype

  -- The letter of the event: a packet that a router sends for another node is forwarded.
  pub op : TracedPacket D → ℕ
  op p =
      let l = sim.letters in
      if is_router t.tracetype
        && (t.type == l.send)
        && not (same_int t.src (sim.nodeaddr p.packet.ih.saddr))
      then l.fwrd
      else t.type

  -- The letters of the tagged format, and of the new one.
  pub tagged_op : ℕ → ℕ
  tagged_op c =
      let l = sim.letters in
      let c' = if c == l.drop then b'd' else c in
      let c'' = if c' == l.send then b'+' else c' in if c'' == l.fwrd then b'h' else c''

  pub new_op : ℕ → ℕ
  new_op c = if c == sim.letters.drop then b'd' else c

  abbrev pub model_of : Option (EnergyModel D)
  model_of = sim.node_at t.src >>= λ node. node.energy_model

module _ {D : Type 0} ⦃d : Double D⦄ (sim : Sim D) (t : CmuTrace) where
  -- The energy that a line shows: -1 without a model.
  pub shown_energy : D
  shown_energy = elim (model_of sim t) [ none ↦ d.of_int (negsuc 0) | some model ↦ model.energy ]

  pub next_nodeid : ℤ → ℤ
  next_nodeid hop = elim (sim.node_at hop) [ none ↦ negsuc 0 | some node ↦ node.nodeid ]

  -- `format_smac` or `format_mac`.
  unfoldable pub format_mac_layer : Bool → TracedPacket D → Option Text
  format_mac_layer smac p = if smac then format_smac sim t p else format_mac sim t p

  -- What the old format adds for a node with an energy model.
  unfoldable pub breakdown_of : Option (EnergyModel D) → Option Text
  unfolding sprintf
  breakdown_of none = some []
  breakdown_of (some model) =
      sprintf sim.floats (codes "[energy %f ei %.3f es %.3f et %.3f er %.3f] ")
        (dbl model.energy ∷ dbl model.ei ∷ dbl model.es ∷ dbl model.et ∷ dbl model.er ∷ [])

  pub mac_common_tagged : TracedPacket D → Option Text
  unfolding sprintf op tagged_op type_name next_nodeid shown_energy
  mac_common_tagged p =
      let ch = p.packet.ch in
      t.node >>= λ node.
      let (x, y, z) = sim.location node in
      type_name sim.info ch.ptype >>= λ ptype.
      sprintf sim.floats
        (codes "%c "
          ++ sim.time_format
          ++ codes " -s %d -d %d -p %s -k %3s -i %d -N:loc {%.2f %.2f %.2f} -N:en %f ")
        (chr (tagged_op sim t (op sim t p))
          ∷ dbl sim.clock
          ∷ int t.src
          ∷ int (next_nodeid ch.next_hop)
          ∷ str ptype
          ∷ str t.tracename
          ∷ int (pos ch.uid)
          ∷ dbl x
          ∷ dbl y
          ∷ dbl z
          ∷ dbl shown_energy
          ∷ [])

  pub mac_common_new : TracedPacket D → Text → Option Text
  unfolding sprintf op new_op shown_energy
  mac_common_new p why = t.node >>= λ node.
      let (x, y, z) = sim.location node in
      sprintf sim.floats
        (codes "%c -t %.9f -Hs %d -Hd %d -Ni %d -Nx %.2f -Ny %.2f -Nz %.2f -Ne %f -Nl %3s -Nw %s ")
        (chr (new_op sim t (op sim t p))
          ∷ dbl sim.clock
          ∷ int t.src
          ∷ int p.packet.ch.next_hop
          ∷ int t.src
          ∷ dbl x
          ∷ dbl y
          ∷ dbl z
          ∷ dbl shown_energy
          ∷ str t.tracename
          ∷ str why
          ∷ [])

  unfoldable pub mac_common_old : TracedPacket D → Text → Option Text
  unfolding sprintf op old_type
  mac_common_old p why =
      let ch = p.packet.ch in
      old_type sim t p >>= λ ptype. sprintf sim.floats (codes "%c %.9f _%d_ %3s %4s %d %s %d") (
        chr (op sim t p)
        ∷ dbl sim.clock
        ∷ int t.src
        ∷ str t.tracename
        ∷ str why
        ∷ int (pos ch.uid)
        ∷ str ptype
        ∷ int (pos ch.size)
        ∷ [])

  -- The start of a line in the old format.
  unfoldable pub old_start : TracedPacket D → Text → Option Text
  unfolding format_mac_layer breakdown_of mac_common_old format_phy
  old_start p why = mac_common_old p why >>= λ start.
      if is_phy t.tracetype
      then (format_phy sim t p >>= λ phy. some (start ++ phy))
      else (format_mac_layer (starts_smac sim t) p >>= λ mac.
          breakdown_of (model_of sim t) >>= λ energy. some (start ++ mac ++ energy))

  unfoldable pub format_mac_common : TracedPacket D → Text → Option Text
  unfolding format_mac_layer mac_common_tagged mac_common_new old_start
  format_mac_common p why =
      if t.tagged
      then (mac_common_tagged p >>= λ start.
          format_mac_layer (is_smac sim t) p >>= λ mac. some (start ++ mac))
      else if is_set t.newtrace
      then (mac_common_new p why >>= λ start.
          format_mac_layer (is_smac sim t) p >>= λ mac. some (start ++ mac))
      else old_start p why
