-- ===== src/Packet/Types.antt =====
-- common/packet.h, `p_info` and `PacketClassifier`: the names and classes of packet types. The code
-- for `HAVE_STL` is taken. `char*` is a native string.
pub mod Roundtrip
pub mod Classes
pub mod Chain
mod Tests
use Prim.Native.String.{String}
use antnet.Common.{
  ℕ, zero, suc, ◌+◌, ◌-◌, ◌==◌, leb, if◌then◌else◌, ◌||◌, Bool, true, false, Option, none, some,
  List, [], ◌∷◌, get_elem?, set, replicate, ◌>>=◌,
}
use text.Mathlib.Text as Text
use antnet.Packet.Numbers.{
  pt_tcp, pt_udp, pt_cbr, pt_audio, pt_video, pt_ack, pt_start, pt_stop, pt_prune, pt_graft,
  pt_graftack, pt_join, pt_assert, pt_message, pt_rtcp, pt_rtp, pt_rtproto_dv, pt_ctrmcast_encap,
  pt_ctrmcast_decap, pt_srm, pt_request, pt_accept, pt_confirm, pt_teardown, pt_live, pt_reject,
  pt_telnet, pt_ftp, pt_pareto, pt_exp, pt_inval, pt_http, pt_encapsulated, pt_mftp, pt_arp, pt_mac,
  pt_tora, pt_dsr, pt_aodv, pt_imep, pt_rap_data, pt_rap_ack, pt_tfrc, pt_tfrc_ack, pt_ping, pt_pbc,
  pt_diff, pt_rtproto_ls, pt_ldp, pt_gaf, pt_realaudio, pt_pushback, pt_pgm, pt_lms, pt_lms_setup,
  pt_sctp, pt_sctp_app1, pt_smac, pt_xcp, pt_hdlc, pt_bltrace, pt_aomdv, pt_ant,
}

pub data PacketClass : Type 0 where
  unclassified routing data_pkt : PacketClass

-- The objects of `PacketClassifier` are numbers, and `getClass`, which their classes define, is a
-- parameter. `next` are their pointers `next_`, and `pc` is `pc_`.
pub record Classifiers : Type 0 where
  pub next : ℕ → Option ℕ
  pub pc : Option ℕ

-- `setNext`
abbrev set_next : ℕ → Option ℕ → (ℕ → Option ℕ) → ℕ → Option ℕ
set_next c o next q = if c == q then o else next q

pub data_packet : ℕ → Bool
data_packet type =
    type == pt_tcp
    || type == pt_telnet
    || type == pt_cbr
    || type == pt_audio
    || type == pt_video
    || type == pt_ack
    || type == pt_sctp
    || type == pt_sctp_app1
    || type == pt_hdlc

-- The macro `DATA_PACKET`.
pub data_packet_macro : ℕ → Bool
data_packet_macro type =
    type == pt_tcp
    || type == pt_telnet
    || type == pt_cbr
    || type == pt_audio
    || type == pt_video
    || type == pt_ack
    || type == pt_sctp
    || type == pt_sctp_app1

pub routing_packet : ℕ → Bool
routing_packet type =
    type == pt_dsr || type == pt_message || type == pt_tora || type == pt_aodv || type == pt_ant

-- The second test of `classify`, which has a list of its own.
pub data_type : ℕ → Bool
data_type type =
    type == pt_tcp
    || type == pt_telnet
    || type == pt_cbr
    || type == pt_audio
    || type == pt_video
    || type == pt_ack
    || type == pt_sctp
    || type == pt_sctp_app1
    || type == pt_hdlc

module _ (get_class : ℕ → ℕ → PacketClass) where
  -- `PacketClassifier::classify` of one object, with fuel for the recursion along `next_`: `none`
  -- means that the fuel ran out.
  pub classify_from : ℕ → (ℕ → Option ℕ) → ℕ → ℕ → Option PacketClass
  classify_from zero next c type = none
  classify_from (suc fuel) next c type =
      let rest : Option PacketClass = elim (next c) [
        | none ↦ some unclassified
        | some c' ↦ classify_from fuel next c' type
      ] in
      elim (get_class c type) [
        | unclassified ↦ rest
        | routing ↦ some routing
        | data_pkt ↦ some data_pkt
      ]

  pub classify : ℕ → Classifiers → ℕ → Option PacketClass
  unfolding routing_packet data_type classify_from
  classify fuel s type =
      if routing_packet type
      then some routing
      else if data_type type
      then some data_pkt
      else elim (s.pc) [ none ↦ some unclassified | some c ↦ classify_from fuel s.next c type ]

-- A null pointer changes nothing.
pub add_packet_classifier : Option ℕ → Classifiers → Classifiers
add_packet_classifier none s = s
add_packet_classifier (some c) s = record { next = set_next c s.pc s.next; pc = some c }

-- The static members; an entry of the array that was never written is `none`.
pub record PInfo : Type 0 where
  pub names : List (Option String)
  pub n_pkt : ℕ

-- The assignments to `name_`, in order.
abbrev pub base_names : ℕ → List (ℕ × String)
base_names ntype =
    (pt_tcp, "tcp")
    ∷ (pt_udp, "udp")
    ∷ (pt_cbr, "cbr")
    ∷ (pt_audio, "audio")
    ∷ (pt_video, "video")
    ∷ (pt_ack, "ack")
    ∷ (pt_start, "start")
    ∷ (pt_stop, "stop")
    ∷ (pt_prune, "prune")
    ∷ (pt_graft, "graft")
    ∷ (pt_graftack, "graftAck")
    ∷ (pt_join, "join")
    ∷ (pt_assert, "assert")
    ∷ (pt_message, "message")
    ∷ (pt_rtcp, "rtcp")
    ∷ (pt_rtp, "rtp")
    ∷ (pt_rtproto_dv, "rtProtoDV")
    ∷ (pt_ctrmcast_encap, "CtrMcast_Encap")
    ∷ (pt_ctrmcast_decap, "CtrMcast_Decap")
    ∷ (pt_srm, "SRM")
    ∷ (pt_request, "sa_req")
    ∷ (pt_accept, "sa_accept")
    ∷ (pt_confirm, "sa_conf")
    ∷ (pt_teardown, "sa_teardown")
    ∷ (pt_live, "live")
    ∷ (pt_reject, "sa_reject")
    ∷ (pt_telnet, "telnet")
    ∷ (pt_ftp, "ftp")
    ∷ (pt_pareto, "pareto")
    ∷ (pt_exp, "exp")
    ∷ (pt_inval, "httpInval")
    ∷ (pt_http, "http")
    ∷ (pt_encapsulated, "encap")
    ∷ (pt_mftp, "mftp")
    ∷ (pt_arp, "ARP")
    ∷ (pt_mac, "MAC")
    ∷ (pt_tora, "TORA")
    ∷ (pt_dsr, "DSR")
    ∷ (pt_aodv, "AODV")
    ∷ (pt_imep, "IMEP")
    ∷ (pt_rap_data, "rap_data")
    ∷ (pt_rap_ack, "rap_ack")
    ∷ (pt_tfrc, "tcpFriend")
    ∷ (pt_tfrc_ack, "tcpFriendCtl")
    ∷ (pt_ping, "ping")
    ∷ (pt_pbc, "PBC")
    ∷ (pt_diff, "diffusion")
    ∷ (pt_rtproto_ls, "rtProtoLS")
    ∷ (pt_ldp, "LDP")
    ∷ (pt_gaf, "gaf")
    ∷ (pt_realaudio, "ra")
    ∷ (pt_pushback, "pushback")
    ∷ (pt_pgm, "PGM")
    ∷ (pt_lms, "LMS")
    ∷ (pt_lms_setup, "LMS_SETUP")
    ∷ (pt_sctp, "sctp")
    ∷ (pt_sctp_app1, "sctp_app1")
    ∷ (pt_smac, "smac")
    ∷ (pt_hdlc, "HDLC")
    ∷ (pt_xcp, "xcp")
    ∷ (pt_bltrace, "BellLabsTrace")
    ∷ (pt_aomdv, "AOMDV")
    ∷ (ntype, "undefined")
    ∷ (pt_ant, "Ant")
    ∷ []

pub assign : List (ℕ × String) → List (Option String) → List (Option String)
assign [] names = names
assign ((i, s) ∷ rest) names = assign rest (set names i (some s))

-- `for(i = PT_SMAC + 1; i < nPkt_; i++)`, with the rounds left.
pub copy_names : ℕ → ℕ → List (Option String) → List (Option String) → List (Option String)
copy_names zero i old new = new
copy_names (suc left) i old new =
    copy_names left (suc i) old (elim (get_elem? old i) [ none ↦ new | some s ↦ set new i s ])

unfoldable pub init_name : ℕ → PInfo → PInfo
unfolding assign copy_names
init_name ntype info = if leb (ntype + 1) info.n_pkt then info else record {
  names = assign (base_names ntype) (
      copy_names (info.n_pkt - (pt_smac + 1)) (pt_smac + 1) info.names
        (replicate (ntype + 1) none));
  n_pkt = ntype + 1;
}

-- The outer `none` is a read past the array, the inner one a null pointer.
unfoldable pub name : PInfo → ℕ → Option (Option String)
name info p = if leb p info.n_pkt then get_elem? info.names p else some none

-- `for(i = 0; i < nPkt_; i++)`, with the rounds left; `none` is a comparison with a null pointer or
-- a read past the array.
pub type_from : ℕ → String → ℕ → ℕ → List (Option String) → Option ℕ
type_from ntype s zero i names = some ntype
type_from ntype s (suc left) i [] = none
type_from ntype s (suc left) i (none ∷ names) = none
type_from ntype s (suc left) i (some t ∷ names) =
    let rest = type_from ntype s left (suc i) names in if Text.◌==◌ s t then some i else rest

pub get_type : ℕ → PInfo → String → Option ℕ
unfolding type_from
get_type ntype info s = type_from ntype s info.n_pkt 0 info.names
