-- ===== src/Packet/Types/Tests.antt =====
-- Types and names.
use Prim.Native.String.{String}
use antnet.Common.{refl, ℕ, none, ◌∷◌, ◌&&◌, ◌≡◌, ◌==◌, ◌||◌, if◌then◌else◌, some, [], arith}
use antnet.Packet.Numbers.{pt_ant, pt_udp, pt_ntype, pt_hdlc}
use antnet.Packet.Types.{
  PacketClass, unclassified, data_pkt, Classifiers, data_packet, data_packet_macro, classify,
  add_packet_classifier, name, get_type,
}
use antnet.Packet.Types.Classes.{is_data, no_classifiers, is_data-classify}
use antnet.Packet.Types.Chain.{IsChain, predefined_or, add_packet_classifier-first_known}
use antnet.Packet.Types.Roundtrip.{info, get_type-name}

-- Classifier 1 knows UDP, and classifier 0 nothing.
abbrev classes : ℕ → ℕ → PacketClass
classes c t = if (c == 1) && (t == pt_udp) then data_pkt else unclassified

abbrev one_classifier : Classifiers
one_classifier = record { next = λ c. none; pc = some 1 }

is_data-classify_example :
    (is_data (classify classes 0 no_classifiers pt_hdlc) ≡ data_packet pt_hdlc)
    × (data_packet pt_hdlc ≡ data_packet_macro pt_hdlc || pt_hdlc == pt_hdlc)
is_data-classify_example = is_data-classify classes 0 pt_hdlc

add_packet_classifier-first_known_example :
    let s' = add_packet_classifier (some 0) one_classifier in
    (add_packet_classifier none one_classifier ≡ one_classifier)
    × IsChain s' (0 ∷ 1 ∷ [])
    × (classify classes 2 s' pt_udp ≡ predefined_or pt_udp (some data_pkt))
    × (classify classes 2 (add_packet_classifier (some 0) s') pt_udp ≡ predefined_or pt_udp none)
add_packet_classifier-first_known_example =
    add_packet_classifier-first_known classes 2 one_classifier (1 ∷ []) 0 pt_udp (omega arith)
      (refl, refl) (omega arith, tt)

get_type-name_example :
    (s : String) × (name info pt_ant ≡ some (some s)) × (get_type pt_ntype info s ≡ some pt_ant)
get_type-name_example = get_type-name pt_ant (omega arith)
