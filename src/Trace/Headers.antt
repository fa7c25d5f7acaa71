-- ===== src/Trace/Headers.antt =====
-- What trace/cmu-trace.cc reads of a packet and of the simulator. The headers of other protocols, the
-- numbers that name their message types, nodes and their energy belong to ns-2 and are parameters.
use antnet.Common.{ℕ, Bool, Option, List, Text}
use antnet.Common.Int.{ℤ}
use antnet.Packet.{Packet}
use antnet.Packet.Types.{PInfo}
use antnet.Trace.Printf.{Floats}

-- `hdr_mac802_11`, with what ETHER_ADDR and GET_ETHER_TYPE read.
pub record HdrMac : Type 0 where
  pub fc_type : ℕ
  pub fc_subtype : ℕ
  pub duration : ℤ
  pub ra : ℤ
  pub ta : ℤ
  pub ether_type : ℤ

pub record HdrSmac (D : Type 0) : Type 0 where
  pub type : ℕ
  pub duration : D
  pub dst_addr : ℤ
  pub src_addr : ℤ

pub record HdrArp : Type 0 where
  pub arp_op : ℕ
  pub arp_sha : ℤ
  pub arp_spa : ℤ
  pub arp_tha : ℤ
  pub arp_tpa : ℤ

pub record DownLink : Type 0 where
  pub tell_addr : ℤ
  pub from_addr : ℤ
  pub to_addr : ℤ

-- `hdr_sr`, with the arrays that `reply_addrs` and `down_links` return.
pub record HdrSr : Type 0 where
  pub num_addrs : ℤ
  pub route_request : ℤ
  pub rtreq_seq : ℤ
  pub route_reply : ℤ
  pub route_reply_len : ℕ
  pub reply_addrs : List ℤ
  pub route_error : ℤ
  pub num_route_errors : ℕ
  pub down_links : List DownLink

pub record Chunk : Type 0 where
  pub chunk_type : ℕ
  pub tsn : ℤ
  pub stream_id : ℤ
  pub stream_seq_num : ℤ

pub record HdrSctp : Type 0 where
  pub num_chunks : ℕ
  pub sctp_trace : List Chunk

pub record HdrImep : Type 0 where
  pub block_flags : ℕ
  pub imep_length : ℤ

-- `hdr_tora`, and the fields of the query, the update and the clear packet.
pub record HdrTora (D : Type 0) : Type 0 where
  pub th_type : ℕ
  pub type : ℤ
  pub dst : ℤ
  pub tau : D
  pub oid : ℤ
  pub r : ℤ
  pub delta : ℤ
  pub id : ℤ

-- `hdr_aodv` and `hdr_aomdv`, with their requests and replies.
pub record HdrRequest : Type 0 where
  pub rq_type : ℤ
  pub rq_hop_count : ℤ
  pub rq_bcast_id : ℤ
  pub rq_dst : ℤ
  pub rq_dst_seqno : ℤ
  pub rq_src : ℤ
  pub rq_src_seqno : ℤ

pub record HdrReply (D : Type 0) : Type 0 where
  pub rp_type : ℕ
  pub rp_hop_count : ℤ
  pub rp_dst : ℤ
  pub rp_dst_seqno : ℤ
  pub rp_lifetime : D
  pub rp_bcast_id : ℤ
  pub rp_first_hop : ℤ

pub record HdrAodv (D : Type 0) : Type 0 where
  pub ah_type : ℕ
  pub rq : HdrRequest
  pub rp : HdrReply D

-- A packet with all that a trace object can read of it.
pub record TracedPacket (D : Type 0) : Type 0 where
  pub packet : Packet D
  pub opt_num_forwards : ℤ
  pub flowid : ℤ
  pub mac : HdrMac
  pub smac : HdrSmac D
  pub arp : HdrArp
  pub sr : HdrSr
  pub tcp_seqno : ℤ
  pub tcp_ackno : ℤ
  pub rtp_seqno : ℤ
  pub sctp : HdrSctp
  pub imep : HdrImep
  pub tora : HdrTora D
  pub aodv : HdrAodv D
  pub aomdv : HdrAodv D

-- The macros and enumerators of ns-2 that name message types.
pub record Codes : Type 0 where
  pub arpop_request : ℕ
  pub toratype_qry : ℕ
  pub toratype_upd : ℕ
  pub toratype_clr : ℕ
  pub aodvtype_rreq : ℕ
  pub aodvtype_rrep : ℕ
  pub aodvtype_hello : ℕ
  pub aodvtype_rerr : ℕ
  pub aomdvtype_rreq : ℕ
  pub aomdvtype_rrep : ℕ
  pub aomdvtype_hello : ℕ
  pub aomdvtype_rerr : ℕ
  pub block_flag_ack : ℕ
  pub block_flag_hello : ℕ
  pub block_flag_object : ℕ
  pub sctp_chunk_init : ℕ
  pub sctp_chunk_init_ack : ℕ
  pub sctp_chunk_cookie_echo : ℕ
  pub sctp_chunk_cookie_ack : ℕ
  pub sctp_chunk_data : ℕ
  pub sctp_chunk_sack : ℕ
  pub sctp_chunk_forward_tsn : ℕ
  pub sctp_chunk_hb : ℕ
  pub sctp_chunk_hb_ack : ℕ
  pub mac_type_control : ℕ
  pub mac_type_management : ℕ
  pub mac_subtype_rts : ℕ
  pub mac_subtype_cts : ℕ
  pub mac_subtype_ack : ℕ
  pub mac_subtype_beacon : ℕ
  pub mac_subtype_command_asso_req : ℕ
  pub mac_subtype_command_asso_rsp : ℕ
  pub mac_subtype_command_d_asso_ntf : ℕ
  pub mac_subtype_command_data_req : ℕ
  pub mac_subtype_command_pidc_ntf : ℕ
  pub mac_subtype_command_orph_ntf : ℕ
  pub mac_subtype_command_bcon_req : ℕ
  pub mac_subtype_command_coor_rea : ℕ
  pub mac_subtype_command_gts_req : ℕ
  pub mac_subtype_80211_beacon : ℕ
  pub mac_subtype_assoc_req : ℕ
  pub mac_subtype_assoc_rep : ℕ
  pub mac_subtype_auth : ℕ
  pub mac_subtype_probe_req : ℕ
  pub mac_subtype_probe_rep : ℕ
  pub smac_rts : ℕ
  pub smac_cts : ℕ
  pub smac_ack : ℕ
  pub smac_sync : ℕ

-- DROP, SEND, RECV, EOT and FWRD of the base class.
pub record Letters : Type 0 where
  pub drop : ℕ
  pub send : ℕ
  pub recv : ℕ
  pub eot : ℕ
  pub fwrd : ℕ

pub record EnergyModel (D : Type 0) : Type 0 where
  pub energy : D
  pub initialenergy : D
  pub level1 : D
  pub level2 : D
  pub ei : D
  pub es : D
  pub et : D
  pub er : D
  pub powersavingflag : Bool

pub record SimNode (D : Type 0) : Type 0 where
  pub nodeid : ℤ
  pub energy_model : Option (EnergyModel D)

-- The simulator at the time of a call: the clock, the name of the MAC layer, TIME_FORMAT,
-- `Node::get_node_by_address`, `Address::get_nodeaddr`, `MobileNode::getLoc`, and `packet_info`.
pub record Sim (D : Type 0) : Type 0 where
  pub clock : D
  pub mac_type : Text
  pub time_format : Text
  pub node_at : ℤ → Option (SimNode D)
  pub nodeaddr : ℕ → ℤ
  pub location : ℕ → D × D × D
  pub info : PInfo
  pub letters : Letters
  pub codes_of : Codes
  pub floats : Floats D
