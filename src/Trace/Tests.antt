-- ===== src/Trace/Tests.antt =====
-- Trace objects at work, in a small simulation.
use Prim.Native.String.{String}
use antnet.Common.{
  ℕ, ◌≡◌, ◌≢◌, ◌<◌, ◌≤◌, ◌↔◌, ◌⊎◌, refl, ◌==◌, ◌&&◌, if◌then◌else◌, true, false, Option, none, some,
  List, [], ◌∷◌, ◌++◌, get_elem?, Text, codes, arith,
}
use antnet.Common.Int.{ℤ, pos, negsuc}
use antnet.Double.{nought, one}
use antnet.Double.Ratio.{Ratio, ratio_double}
use antnet.Packet.{down}
use antnet.Packet.Types.Roundtrip.{info}
use antnet.Packet.Numbers.{pt_teardown}
use antnet.Agent.Command.{Status, tcl_ok, tcl_error}
use antnet.Fixture.{ant}
use antnet.Trace.Printf.{decimal}
use antnet.Trace.Printf.Scan.{scan}
use antnet.Trace.Headers.{Codes, Letters, Sim, EnergyModel, TracedPacket, HdrAodv, Chunk}
use antnet.Trace.Object.{CmuTrace, tr_router, tr_agent, initialized, new_cmu_trace, command}
use antnet.Trace.Nam.{Animator, Radius, nam_type, color_line}
use antnet.Trace.Nam.Names.{has_long_name, nam_type-none_iff}
use antnet.Trace.Nam.Colors.{color_line-again}
use antnet.Trace.Format.Routing.{format_antnet, format_dsr}
use antnet.Trace.Format.Transport.{chunk_letter, format_chunk, format_sctp}
use antnet.Trace.Format.Ants.{
  ip_directives, ant_directives, ip_fields, ant_fields, format_antnet-scan,
}
use antnet.Trace.Format.Sctp.{format_sctp-last}
use antnet.Trace.Format.Dsr.{format_dsr-defined_iff}
use antnet.Trace.{passed_on, is_agent, node_energy, recv_packet, recv_drop}
use antnet.Trace.Ants.{only_line, recv_packet-scan}
use antnet.Trace.Life.{new_cmu_trace-command}

abbrev some_codes : Codes
some_codes = record {
  arpop_request = 1;
  toratype_qry = 2;
  toratype_upd = 3;
  toratype_clr = 4;
  aodvtype_rreq = 5;
  aodvtype_rrep = 6;
  aodvtype_hello = 7;
  aodvtype_rerr = 8;
  aomdvtype_rreq = 9;
  aomdvtype_rrep = 10;
  aomdvtype_hello = 11;
  aomdvtype_rerr = 12;
  block_flag_ack = 13;
  block_flag_hello = 14;
  block_flag_object = 15;
  sctp_chunk_init = 16;
  sctp_chunk_init_ack = 17;
  sctp_chunk_cookie_echo = 18;
  sctp_chunk_cookie_ack = 19;
  sctp_chunk_data = 20;
  sctp_chunk_sack = 21;
  sctp_chunk_forward_tsn = 22;
  sctp_chunk_hb = 23;
  sctp_chunk_hb_ack = 24;
  mac_type_control = 25;
  mac_type_management = 26;
  mac_subtype_rts = 27;
  mac_subtype_cts = 28;
  mac_subtype_ack = 29;
  mac_subtype_beacon = 30;
  mac_subtype_command_asso_req = 31;
  mac_subtype_command_asso_rsp = 32;
  mac_subtype_command_d_asso_ntf = 33;
  mac_subtype_command_data_req = 34;
  mac_subtype_command_pidc_ntf = 35;
  mac_subtype_command_orph_ntf = 36;
  mac_subtype_command_bcon_req = 37;
  mac_subtype_command_coor_rea = 38;
  mac_subtype_command_gts_req = 39;
  mac_subtype_80211_beacon = 40;
  mac_subtype_assoc_req = 41;
  mac_subtype_assoc_rep = 42;
  mac_subtype_auth = 43;
  mac_subtype_probe_req = 44;
  mac_subtype_probe_rep = 45;
  smac_rts = 46;
  smac_cts = 47;
  smac_ack = 48;
  smac_sync = 49;
}

abbrev letters : Letters
letters = record { drop = b'D'; send = b's'; recv = b'r'; eot = b'x'; fwrd = b'f' }

abbrev full : EnergyModel Ratio
full = record {
  energy = one;
  initialenergy = one;
  level1 = one;
  level2 = one;
  ei = nought;
  es = nought;
  et = nought;
  er = nought;
  powersavingflag = false;
}

abbrev sim : Sim Ratio
sim = record {
  clock = one;
  mac_type = codes "Mac/802_11";
  time_format = codes "%.15g";
  node_at = λ i. some (record { nodeid = i; energy_model = some full });
  nodeaddr = λ i. pos i;
  location = λ node. (nought, nought, nought);
  info = info;
  letters = letters;
  codes_of = some_codes;
  floats = λ letter precision x. codes "1.0";
}

abbrev no_reply : HdrAodv Ratio
no_reply = record {
  ah_type = 0;
  rq = record {
    rq_type = pos 0;
    rq_hop_count = pos 0;
    rq_bcast_id = pos 0;
    rq_dst = pos 0;
    rq_dst_seqno = pos 0;
    rq_src = pos 0;
    rq_src_seqno = pos 0;
  };
  rp = record {
    rp_type = 0;
    rp_hop_count = pos 0;
    rp_dst = pos 0;
    rp_dst_seqno = pos 0;
    rp_lifetime = nought;
    rp_bcast_id = pos 0;
    rp_first_hop = pos 0;
  };
}

abbrev data_chunk : ℤ → Chunk
data_chunk tsn = record {
  chunk_type = some_codes.sctp_chunk_data;
  tsn = tsn;
  stream_id = pos 0;
  stream_seq_num = pos 0;
}

-- An ant that node 0 made for node 2, on its way from 0 to 1.
abbrev traced : TracedPacket Ratio
traced = record {
  packet = ant down (0 ∷ []) 1 0 2 0 1;
  opt_num_forwards = pos 0;
  flowid = pos 0;
  mac = record {
    fc_type = 0;
    fc_subtype = 0;
    duration = pos 0;
    ra = pos 0;
    ta = negsuc 0;
    ether_type = pos 0x800;
  };
  smac = record { type = 0; duration = nought; dst_addr = pos 0; src_addr = pos 0 };
  arp = record { arp_op = 0; arp_sha = pos 0; arp_spa = pos 0; arp_tha = pos 0; arp_tpa = pos 0 };
  sr = record {
    num_addrs = pos 0;
    route_request = pos 0;
    rtreq_seq = pos 0;
    route_reply = pos 0;
    route_reply_len = 1;
    reply_addrs = pos 7 ∷ pos 8 ∷ [];
    route_error = pos 0;
    num_route_errors = 1;
    down_links = record { tell_addr = pos 1; from_addr = pos 2; to_addr = pos 3 } ∷ [];
  };
  tcp_seqno = pos 0;
  tcp_ackno = pos 0;
  rtp_seqno = pos 0;
  sctp = record { num_chunks = 2; sctp_trace = data_chunk (pos 4) ∷ data_chunk (pos 5) ∷ [] };
  imep = record { block_flags = 0; imep_length = pos 0 };
  tora = record {
    th_type = 0;
    type = pos 0;
    dst = pos 0;
    tau = nought;
    oid = pos 0;
    r = pos 0;
    delta = pos 0;
    id = pos 0;
  };
  aodv = no_reply;
  aomdv = no_reply;
}

-- The object that the constructor is given, and the one that it makes of it for the agent level.
abbrev blank : CmuTrace
blank = record {
  tracename = [];
  node_color = λ i. 0;
  tracetype = tr_router;
  node = some 9;
  newtrace = pos 1;
  type = 0;
  src = pos 0;
  target = some 4;
  tagged = false;
  namchannel = false;
}

abbrev made : CmuTrace
made = record blank {
  tracename = codes "AGT";
  node_color = λ i. 3;
  tracetype = tr_agent;
  node = none;
  newtrace = pos 0;
  type = b's';
}

abbrev ready : CmuTrace
ready = record made { node = some 9 }

abbrev nam : Animator Ratio
nam = record {
  nam_status = false;
  find_link = λ ptype src dst. none;
  find_type = λ ptype. none;
  mac_sa = λ p. pos 0;
  mac_da = λ p. pos 0;
  carries_data = λ p. true;
  ip_broadcast = 0xffffffff;
  pow = λ x y. x;
  transmit_power = one;
  rx_thresh = one;
  system_loss = one;
  transmit_gain = one;
  receive_gain = one;
  height = one;
  freq = one;
  radius_scaling = one;
  duration_scaling = one;
}

abbrev radius : Radius Ratio
radius = record {
  bradius = nought;
  radius_scaling_factor = nought;
  duration_scaling_factor = nought;
}

has_energy : (at : Option ℕ) → node_energy sim (record made { node = at }) ≡ true
unfolding node_energy
has_energy at = refl

recv_packet-scan_example :
    (start : Text) × (rest : Text) × (left : Text) × (recv_packet sim nam ready radius [] traced
      ≡ some (record {
        stamped = is_agent tr_agent && (b's' == b's');
        formatted = some (only_line sim (start ++ rest) ready radius);
        fate = passed_on (some 4) traced;
      }))
    × (scan ip_directives rest ≡ some (ip_fields sim traced, left))
    × (scan (ant_directives false false) left ≡ some (ant_fields traced, []))
recv_packet-scan_example =
    recv_packet-scan sim nam ready radius [] traced refl (has_energy (some 9)) refl refl refl refl
      refl

format_antnet-scan_example :
    (t : Text) × (format_antnet sim.floats false true traced ≡ some t)
    × (scan (ant_directives false true) (t ++ codes "123")
        ≡ some (pos 0 ∷ pos 0 ∷ pos 7 ∷ [], codes "123"))
format_antnet-scan_example = format_antnet-scan sim.floats false true traced (codes "123")

-- The line of that ant in the old format.
ant_line : format_antnet sim.floats false false traced ≡ some (codes "[ant 0 0 7] ")
unfolding format_antnet decimal
ant_line = refl

format_sctp-last_example :
    (c : Chunk) × (s : Text) × (get_elem? traced.sctp.sctp_trace 1 ≡ some c)
    × (format_chunk sim false false traced c ≡ some s)
    × (format_sctp sim false false traced ≡ some s)
unfolding chunk_letter
format_sctp-last_example =
    format_sctp-last sim false false traced 1 refl (omega arith) ((b'D', refl), ((b'D', refl), tt))

format_dsr-defined_iff_example :
    ((s : Text) × (format_dsr sim.floats true false traced ≡ some s))
    ↔ ((0 < 1) × (1 ≤ 2) × (0 < 1) × (1 ≤ 1))
format_dsr-defined_iff_example = format_dsr-defined_iff sim.floats true false traced

abbrev teardown : TracedPacket Ratio
teardown = record traced {
  packet = record (traced.packet) { ch = record (traced.packet.ch) { ptype = pt_teardown } };
}

nam_type-none_iff_example : (nam_type sim teardown ≡ none) ↔ (has_long_name pt_teardown ≡ true)
nam_type-none_iff_example = nam_type-none_iff sim teardown refl (omega arith) (omega arith)

abbrev gray : CmuTrace
gray = record ready { node_color = λ i. 0 }

abbrev colored : CmuTrace
colored = record gray { node_color = λ i. if i == 0 then 3 else 0 }

shown : color_line sim gray ≡ some (codes "n -t 1.0 -s 0 -S COLOR -c green -o black", colored)
unfolding color_line decimal
shown = refl

color_line-again_example :
    (color_line sim colored ≡ some ([], colored))
    × ((m : ℕ) → pos m ≢ pos 0 → colored.node_color m ≡ 0)
color_line-again_example =
    color_line-again sim gray (codes "n -t 1.0 -s 0 -S COLOR -c green -o black") colored shown

was_made : new_cmu_trace letters (codes "AGT") b's' blank ≡ some made
unfolding new_cmu_trace
was_made = refl

abbrev known : String → Option ℕ
known s = some 9

abbrev no_command : List String → CmuTrace → Status × CmuTrace
no_command argv t = (tcl_error, t)

new_cmu_trace-command_example :
    (recv_packet sim nam made radius [] traced ≡ none)
    × (recv_drop sim nam made radius [] traced (codes "LOOP") ≡ none)
    × (let (status, t') = command known no_command made ("t" ∷ "node" ∷ "n" ∷ []) in
        ((known "n" ≡ none) × (status ≡ tcl_error) × (initialized t' ≡ false))
        ⊎ ((node : ℕ) × (known "n" ≡ some node)
            × (status ≡ tcl_ok)
            × (t' ≡ record made { node = some node })))
new_cmu_trace-command_example =
    new_cmu_trace-command sim (codes "AGT") b's' blank made nam radius [] traced (codes "LOOP")
      known no_command "t" "n" was_made (has_energy none)
