-- ===== src/Trace/Nam/Names.antt =====
-- trace/cmu-trace.cc, `nam_format`: the names of types in its array of eleven characters.
use antnet.Common.{
  ℕ, ◌<◌, ◌≡◌, ◌≢◌, ◌↔◌, refl, ◌==◌, ◌||◌, not, Bool, true, false, Option, none, some, arith,
  ==_iff, all_below, all_below_sound, sym, ◌∙◌, ◌>>=◌,
}
use antnet.Packet.Numbers.{
  pt_ntype, pt_mac, pt_ctrmcast_encap, pt_ctrmcast_decap, pt_teardown, pt_tfrc_ack, pt_bltrace,
}
use antnet.Packet.Types.Roundtrip.{info}
use antnet.Trace.Object.{type_name}
use antnet.Trace.Headers.{TracedPacket, Sim}
use antnet.Trace.Nam.{strcpy, nam_type}

-- The types whose names have more than ten characters.
abbrev pub has_long_name : ℕ → Bool
has_long_name ptype =
    (ptype == pt_ctrmcast_encap)
    || (ptype == pt_ctrmcast_decap)
    || (ptype == pt_teardown)
    || (ptype == pt_tfrc_ack)
    || (ptype == pt_bltrace)

abbrev is_none {ℓ} : {A : Type ℓ} → Option A → Bool
is_none none = true
is_none (some a) = false

abbrev iff : Bool → Bool → Bool
iff true b = b
iff false b = not b

overflows : ℕ → Bool
unfolding type_name strcpy
overflows ptype = is_none (type_name info ptype >>= strcpy 11)

all_types : all_below pt_ntype (λ p. iff (overflows p) (has_long_name p)) ≡ true
unfolding overflows info
all_types = refl

is_none_iff {ℓ} : {A : Type ℓ} (o : Option A) → (o ≡ none) ↔ (is_none o ≡ true)
is_none_iff none = (λ e. refl, λ e. refl)
is_none_iff (some a) = (λ e. cc, λ e. cc)

same : (a b : Bool) → iff a b ≡ true → a ≡ b
same true true e = refl
same true false e = cc
same false true e = cc
same false false e = refl

module _ {D : Type 0} (sim : Sim D) where
  -- For a packet of a predefined type other than PT_MAC, the copy of the type's name to the array
  -- of `nam_format` is undefined exactly for the five types whose names do not fit.
  pub nam_type-none_iff :
      (p : TracedPacket D)
      → sim.info ≡ info
      → p.packet.ch.ptype < pt_ntype
      → p.packet.ch.ptype ≢ pt_mac
      → (nam_type sim p ≡ none) ↔ (has_long_name p.packet.ch.ptype ≡ true)
  unfolding nam_type overflows
  nam_type-none_iff p names within other =
      let ptype = p.packet.ch.ptype in
      let is_mac : (ptype == pt_mac) ≡ false = ground (arith, ==_iff ptype pt_mac, other) in
      let long = same (overflows ptype) (has_long_name ptype) (
        all_below_sound pt_ntype (λ k. iff (overflows k) (has_long_name k)) ptype all_types
          within) in
      let halves = is_none_iff (type_name info ptype >>= strcpy 11) in
      rw (is_mac, names) (λ e. sym long ∙ halves.0 e, λ e. halves.1 (long ∙ e))
