-- ===== src/Packet/Types/Classes.antt =====
-- common/packet.h, `p_info::classify`: the classes of the predefined types.
use antnet.Common.{ℕ, ◌≡◌, ◌==◌, ◌||◌, Bool, true, false, Option, none, some, arith}
use antnet.Packet.Numbers.{pt_hdlc}
use antnet.Packet.Types.{
  PacketClass, unclassified, routing, data_pkt, Classifiers, data_packet, data_packet_macro,
  data_type, routing_packet, classify,
}

abbrev pub is_data : Option PacketClass → Bool
is_data none = false
is_data (some data_pkt) = true
is_data (some routing) = false
is_data (some unclassified) = false

-- Before a classifier is added.
abbrev pub no_classifiers : Classifiers
no_classifiers = record { next = λ c. none; pc = none }

disjoint : (t : ℕ) → routing_packet t ≡ true → data_packet t ≡ false
unfolding routing_packet data_packet
disjoint t h = ground arith

pub same_types : (t : ℕ) → data_type t ≡ data_packet t
unfolding data_type data_packet
same_types t = ground arith

-- The three lists of data types: before a classifier is added the types of class DATApkt, by the list
-- in `classify`, are those of `data_packet`, which are those of the macro `DATA_PACKET` and PT_HDLC
-- besides. No routing type is among them.
pub is_data-classify :
    (get_class : ℕ → ℕ → PacketClass) (fuel t : ℕ)
    → (is_data (classify get_class fuel no_classifiers t) ≡ data_packet t)
      × (data_packet t ≡ data_packet_macro t || t == pt_hdlc)
unfolding classify data_packet_macro data_packet
is_data-classify get_class fuel t = (ground (arith, disjoint t, same_types t), ground arith)
