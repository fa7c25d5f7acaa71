-- ===== src/Packet/Types/Roundtrip.antt =====
-- common/packet.h, `p_info`: from a type to its name and back.
use Prim.Native.String.{String}
use antnet.Common.{
  ap, ℕ, ◌<◌, ◌≡◌, refl, ◌==◌, Bool, true, false, Option, none, some, [], ==_iff, all_below,
  all_below_sound,
}
use antnet.Packet.Numbers.{pt_ntype}
use antnet.Packet.Types.{PInfo, init_name, assign, copy_names, name, get_type, type_from}

-- The members before the constructor of `packet_info` runs, and behind it.
abbrev pub no_info : PInfo
no_info = record { names = []; n_pkt = 0 }

unfoldable pub info : PInfo
unfolding init_name
info = init_name pt_ntype no_info

-- The name is there, and `get_type` finds it.
found_again : ℕ → Option (Option String) → Bool
unfolding info
found_again p none = false
found_again p (some none) = false
found_again p (some (some s)) = elim (get_type pt_ntype info s) [ none ↦ false | some t ↦ t == p ]

leads_back : ℕ → Bool
unfolding info found_again
leads_back p = found_again p (name info p)

all_names : all_below pt_ntype leads_back ≡ true
unfolding leads_back found_again info init_name assign copy_names name get_type type_from
all_names = refl

-- Every predefined type has a name, by which `getType` finds it again.
pub get_type-name :
    (p : ℕ)
    → p < pt_ntype
    → (s : String) × (name info p ≡ some (some s)) × (get_type pt_ntype info s ≡ some p)
unfolding leads_back found_again
get_type-name p h = there (name info p) (all_below_sound pt_ntype leads_back p all_names h)
  where
    same : (o : Option ℕ) → elim o [ none ↦ false | some t ↦ t == p ] ≡ true → o ≡ some p
    same none e = cc
    same (some t) e = ap some ((==_iff t p).0 e)

    there :
        (o : Option (Option String))
        → found_again p o ≡ true
        → (s : String) × (o ≡ some (some s)) × (get_type pt_ntype info s ≡ some p)
    there none e = cc
    there (some none) e = cc
    there (some (some s)) e = (s, refl, same (get_type pt_ntype info s) e)
