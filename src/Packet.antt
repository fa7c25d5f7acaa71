-- ===== src/Packet.antt =====
-- The headers of a packet: `hdr_cmn` of common/packet.h, `hdr_ant_pkt` of ant_pkt.h, and the fields
-- of the IP header of ns-2 that the code reads and writes.
pub mod Numbers
pub mod Types
pub mod Alloc
pub mod Data
use antnet.Common.{ℕ, List}
use antnet.Common.Int.{ℤ}

-- `hdr_cmn::dir_t`
pub data Dir : Type 0 where
  down none up : Dir

-- The fields of `hdr_cmn` that the modelled code uses. `next_hop` and `last_hop` may be negative.
pub record HdrCmn : Type 0 where
  pub ptype : ℕ
  pub size : ℕ
  pub uid : ℕ
  pub error : ℕ
  pub direction : Dir
  pub next_hop : ℤ
  pub addr_type : ℕ
  pub last_hop : ℤ
  pub num_forwards : ℕ

-- `hdr_ip` of ns-2: the fields that the agent uses.
pub record HdrIp : Type 0 where
  pub saddr : ℕ
  pub sport : ℕ
  pub daddr : ℕ
  pub dport : ℕ
  pub ttl : ℕ

-- `struct memory`
pub record Memory (D : Type 0) : Type 0 where
  pub node_addr : ℕ
  pub trip_time : D

pub record HdrAntPkt (D : Type 0) : Type 0 where
  pub pkt_type : ℕ
  pub pkt_src : ℕ
  pub pkt_dst : ℕ
  pub pkt_len : ℕ
  pub pkt_seq_num : ℕ
  pub pkt_start_time : D
  pub pkt_memory : List (Memory D)
  pub pkt_mem_size : ℕ

pub record Packet (D : Type 0) : Type 0 where
  pub ch : HdrCmn
  pub ih : HdrIp
  pub ah : HdrAntPkt D

-- The entries of `pkt_memory_`, MAX_NUM_NODES.
abbrev pub max_num_nodes : ℕ
max_num_nodes = 16

abbrev pub forward_ant : ℕ
forward_ant = 0x01

abbrev pub ant_size : ℕ
ant_size = 7

-- RT_PORT, and NS_AF_INET as the number that it is.
abbrev pub rt_port : ℕ
rt_port = 255

abbrev pub ns_af_inet : ℕ
ns_af_inet = 2
