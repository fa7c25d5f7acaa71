-- ===== src/Trace/Nam.antt =====
-- trace/cmu-trace.cc, `nam_format` and `calculate_broadcast_parameters`: the lines for the network
-- animator. The tables of 802.15.4, the header of diffusion, `pow` and the settings of Tcl are
-- parameters. The distance that the code computes is not used by it.
pub mod Names
pub mod Colors
use antnet.Common.{
  ℕ, zero, suc, ◌==◌, ◌+◌, leb, if◌then◌else◌, ◌||◌, ◌&&◌, not, Bool, true, false, Option, none,
  some, List, [], ◌∷◌, ◌++◌, length, Text, codes, same_codes, ◌>>=◌,
}
use antnet.Common.Int.{ℤ, pos, negsuc}
use antnet.Double.{Double, nought, one}
use antnet.Packet.Numbers.{pt_mac, pt_diff}
use antnet.Trace.Printf.{Floats, Arg, int, chr, str, dbl, sprintf}
use antnet.Trace.Object.{CmuTrace, max_node, type_name}
use antnet.Trace.Format.Transport.{same_int}
use antnet.Trace.Format.Mac.{is_router, named, model_of}
use antnet.Trace.Headers.{Codes, TracedPacket, Sim, SimNode, EnergyModel}

-- The static members.
pub record Radius (D : Type 0) : Type 0 where
  pub bradius : D
  pub radius_scaling_factor : D
  pub duration_scaling_factor : D

-- What `nam_format` reads besides: `Nam_Status`, both forms of `findAttrLink`, the addresses of a
-- MAC frame, whether a diffusion packet carries data, IP_BROADCAST, `pow`, and the numbers that Tcl
-- evaluates.
pub record Animator (D : Type 0) : Type 0 where
  pub nam_status : Bool
  pub find_link : ℕ → ℤ → ℤ → Option ℕ
  pub find_type : ℕ → Option ℕ
  pub mac_sa : TracedPacket D → ℤ
  pub mac_da : TracedPacket D → ℤ
  pub carries_data : TracedPacket D → Bool
  pub ip_broadcast : ℕ
  pub pow : D → D → D
  pub transmit_power : D
  pub rx_thresh : D
  pub system_loss : D
  pub transmit_gain : D
  pub receive_gain : D
  pub height : D
  pub freq : D
  pub radius_scaling : D
  pub duration_scaling : D

-- What a call leaves: the lines that it dumps, in order, the object, the static members, and the
-- attribute that it writes to the packet.
pub record NamResult (D : Type 0) : Type 0 where
  pub lines : List Text
  pub tracer : CmuTrace
  pub radius : Radius D
  pub attribute : Option ℕ

abbrev pub nam_names : Codes → List (ℕ × Text)
nam_names k =
    (k.mac_subtype_rts, codes "RTS")
    ∷ (k.mac_subtype_cts, codes "CTS")
    ∷ (k.mac_subtype_ack, codes "ACK")
    ∷ (k.mac_subtype_beacon, codes "BCN")
    ∷ (k.mac_subtype_assoc_req, codes "ACRQ")
    ∷ (k.mac_subtype_assoc_rep, codes "ACRP")
    ∷ (k.mac_subtype_command_asso_req, codes "CM1")
    ∷ (k.mac_subtype_command_asso_rsp, codes "CM2")
    ∷ (k.mac_subtype_command_d_asso_ntf, codes "CM3")
    ∷ (k.mac_subtype_command_data_req, codes "CM4")
    ∷ (k.mac_subtype_command_pidc_ntf, codes "CM5")
    ∷ (k.mac_subtype_command_orph_ntf, codes "CM6")
    ∷ (k.mac_subtype_command_bcon_req, codes "CM7")
    ∷ (k.mac_subtype_command_coor_rea, codes "CM8")
    ∷ (k.mac_subtype_command_gts_req, codes "CM9")
    ∷ []

-- `strcpy` to an array of `n` characters; `none` is a write past its end.
pub strcpy : ℕ → Text → Option Text
strcpy n s = if leb (length s + 1) n then some s else none

pub node_colors : ℕ → Text
node_colors level =
    if level == 0
    then codes "-c black -o red"
    else if level == 1
    then codes "-c red -o yellow"
    else if level == 2
    then codes "-c yellow -o green"
    else codes "-c green -o black"

-- The letter of the event for nam.
pub nam_op : ℕ → ℕ
nam_op c = let c' = if c == b's' then b'h' else c in if c' == b'D' then b'd' else c'

module _ {D : Type 0} (sim : Sim D) where
  -- `char ptype[11]`
  pub nam_type : TracedPacket D → Option Text
  unfolding strcpy
  nam_type p =
      let ptype = p.packet.ch.ptype in
      (if ptype == pt_mac
        then some (named p.mac.fc_subtype (nam_names sim.codes_of))
        else type_name sim.info ptype)
      >>= strcpy 11

module _ {D : Type 0} (nam : Animator D) where
  -- The attribute that is written to the packet, and the color.
  pub attribute_of : TracedPacket D → Option ℕ
  attribute_of p =
      let ptype = p.packet.ch.ptype in
      let ih = p.packet.ih in
      let src = if ptype == pt_mac then nam.mac_sa p else pos ih.saddr in
      let dst = if ptype == pt_mac then nam.mac_da p else pos ih.daddr in
      if nam.nam_status
      then some (elim (nam.find_link ptype src dst) [
        | some attribute ↦ attribute
        | none ↦ elim (nam.find_type ptype) [ some attribute ↦ attribute | none ↦ 0 ]
      ])
      else none

  pub pkt_color : TracedPacket D → ℕ
  unfolding attribute_of
  pkt_color p =
      let plain = if (p.packet.ch.ptype == pt_diff) && not (nam.carries_data p) then 1 else 0 in
      elim (attribute_of p) [
        | none ↦ plain
        | some attribute ↦ if leb 32 attribute then attribute else plain
      ]

module _ {D : Type 0} ⦃d : Double D⦄ where
  open d use {add, sub, mul, div, lt, le, eq, ratio, of_int}

  -- The level of the energy that is left.
  pub energy_level : D → D → D → D → ℕ
  energy_level energy initenergy l1 l2 =
      let left = div energy initenergy in
      let high = if le left one && le l1 left then 3 else 0 in
      let middle = if le l2 left && lt left l1 then 2 else high in
      if lt nought left && lt left l2 then 1 else middle

  pub calculate_broadcast_parameters : Animator D → Radius D
  calculate_broadcast_parameters nam =
      let pow = nam.pow in
      let gains = mul (mul nam.transmit_power nam.receive_gain) nam.transmit_gain in
      let loss = mul nam.rx_thresh nam.system_loss in
      let h = nam.height in
      let bradius = pow (div (mul gains (pow h (of_int (pos 4)))) loss) (ratio 25 100) in
      let pi = ratio 314159265359 100000000000 in
      let lambda = div (ratio 300000000 1) nam.freq in
      let crossover_dist = div (mul (mul (mul (of_int (pos 4)) pi) h) h) lambda in
      record {
        bradius =
            if lt bradius crossover_dist
            then div (pow (div (mul gains (pow lambda (of_int (pos 2)))) loss) (ratio 5 10))
                (mul (of_int (pos 4)) pi)
            else bradius;
        radius_scaling_factor = nam.radius_scaling;
        duration_scaling_factor = nam.duration_scaling;
      }

  -- ` -R %.2f -D %.2f`, with the static members behind it.
  pub format_radius : Animator D → Sim D → Radius D → Option (Text × Radius D)
  unfolding sprintf calculate_broadcast_parameters
  format_radius nam sim r =
      let r' = if eq r.bradius nought then calculate_broadcast_parameters nam else r in
      let radius = mul r'.bradius r'.radius_scaling_factor in
      let duration = mul (div r'.bradius (ratio 299792458 1)) r'.duration_scaling_factor in
      let least = ratio 1 1000000000 in
      let duration' = if lt duration least then least else duration in
      sprintf sim.floats (codes " -R %.2f -D %.2f") (dbl radius ∷ dbl duration' ∷ []) >>= λ s.
      some (s, r')

module _ {D : Type 0} ⦃d : Double D⦄ (sim : Sim D) (t : CmuTrace) where
  open d use {of_int, eq}

  -- The line for a node whose color changes: its number, and the level of its energy.
  pub change_color : ℕ → ℕ → Option (Text × CmuTrace)
  unfolding sprintf node_colors
  change_color n level =
      if t.node_color n == level
      then some ([], t)
      else (sprintf sim.floats (codes "n -t %.9f -s %d -S COLOR %s")
            (dbl sim.clock ∷ int t.src ∷ str (node_colors level) ∷ [])
          >>= λ line.
              some (line, record t { node_color = λ i. if i == n then level else t.node_color i }))

  -- The same with an energy model; `none` is a node number that ends the program or does not index
  -- the array.
  pub color_of : EnergyModel D → ℤ → Option (Text × CmuTrace)
  unfolding energy_level change_color
  color_of model (negsuc n) = none
  color_of model (pos n) =
      if leb max_node n
      then none
      else change_color n (energy_level model.energy model.initialenergy model.level1 model.level2)

  -- The same with the model of the node, if it has one.
  pub color_with : Option (EnergyModel D) → Option (Text × CmuTrace)
  unfolding color_of
  color_with none = some ([], t)
  color_with (some model) =
      if eq model.energy (of_int (negsuc 0)) then some ([], t) else color_of model t.src

  unfoldable pub color_line : Option (Text × CmuTrace)
  unfolding color_with
  color_line = color_with (model_of sim t)

module _ {D : Type 0} ⦃d : Double D⦄ (sim : Sim D) (nam : Animator D) (t : CmuTrace) where
  -- The fields that all event lines share.
  abbrev pub event_args : TracedPacket D → Text → ℤ → List (Arg D)
  event_args p ptype next_hop =
      let ch = p.packet.ch in
      dbl sim.clock
      ∷ int t.src
      ∷ int next_hop
      ∷ str ptype
      ∷ int (pos ch.size)
      ∷ int (pos (pkt_color nam p))
      ∷ int (pos ch.uid)
      ∷ str t.tracename
      ∷ []

  -- The two lines for an event `h`.
  pub hop_lines : TracedPacket D → Text → ℤ → Option (List Text)
  unfolding sprintf
  hop_lines p ptype next_hop =
      let args = event_args p ptype next_hop in
      sprintf sim.floats (codes "+ -t %.9f -s %d -d %d -p %s -e %d -c 2 -a %d -i %d -k %3s ") args
      >>= λ plus.
          sprintf sim.floats (codes "- -t %.9f -s %d -d %d -p %s -e %d -c 2 -a %d -i %d -k %3s")
            args
          >>= λ minus. some (plus ∷ minus ∷ [])

  -- The fields of a broadcast packet.
  pub broadcast_text : TracedPacket D → ℤ → ℕ → Radius D → Option (Text × Radius D)
  unfolding format_radius
  broadcast_text p next_hop op radius =
      if nam.nam_status
        && (not (same_codes t.tracename (codes "AGT")) || (p.packet.ih.daddr == nam.ip_broadcast))
        && same_int next_hop (negsuc 0)
        && (op == b'h')
      then format_radius nam sim radius
      else some ([], radius)

  abbrev pub nonempty : Text → List Text
  nonempty [] = []
  nonempty (c ∷ cs) = (c ∷ cs) ∷ []

  pub nam_format : TracedPacket D → Radius D → Option (NamResult D)
  unfolding sprintf nam_type nam_op hop_lines color_line broadcast_text attribute_of
  nam_format p radius =
      let l = sim.letters in
      let next_hop : ℤ = elim (sim.node_at p.packet.ch.next_hop) [
        | none ↦ negsuc 0
        | some node ↦ node.nodeid
      ] in
      let op = nam_op t.type in
      if t.type == l.eot
      then none
      else (nam_type sim p >>= λ ptype.
          (if op == b'h' then hop_lines p ptype next_hop else some []) >>= λ hops.
          if is_router t.tracetype
            && (t.type == l.recv)
            && not (same_int (sim.nodeaddr p.packet.ih.daddr) (negsuc 0))
          then some
              (record { lines = hops; tracer = t; radius = radius; attribute = attribute_of nam p })
          else (color_line sim t >>= λ (color, t').
              sprintf sim.floats
                (codes "%c -t %.9f -s %d -d %d -p %s -e %d -c 2 -a %d -i %d -k %3s")
                (chr op ∷ event_args p ptype next_hop)
              >>= λ event. broadcast_text p next_hop op radius >>= λ (broadcast, radius').
                  some (record {
                    lines = hops ++ nonempty color ++ (event ++ broadcast) ∷ [];
                    tracer = t';
                    radius = radius';
                    attribute = attribute_of nam p;
                  })))
