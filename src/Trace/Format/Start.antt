-- ===== src/Trace/Format/Start.antt =====
-- trace/cmu-trace.cc, `format_mac_common`: the start of a line in the old format.
use antnet.Common.{
  ◌≡◌, refl, if◌then◌else◌, ◌∙◌, Bool, true, false, Option, none, some, [], ◌∷◌, Text, >>=-some,
  Bool-cases, inl, inr,
}
use antnet.Common.Int.{ℤ}
use antnet.Double.{Double}
use antnet.Trace.Printf.{Floats, int, sprintf}
use antnet.Trace.Object.{CmuTrace, is_set}
use antnet.Trace.Headers.{TracedPacket, Sim, EnergyModel}
use antnet.Trace.Format.Mac.{
  old_type, format_mac, format_smac, format_phy, format_mac_layer, breakdown_of, mac_common_old,
  mac_text_format, format_mac_common, old_start, is_phy, starts_smac, model_of,
}

old_format {ℓ} :
    {A : Type ℓ} (tagged newtrace : Bool) (x y z : A)
    → tagged ≡ false
    → newtrace ≡ false
    → (if tagged then x else if newtrace then y else z) ≡ z
old_format tagged newtrace x y z e e' = rw (e, e') refl

module _ {D : Type 0} where
  mac_text :
      (floats : Floats D) (tagged newtrace : Bool) (a b c e : ℤ)
      → (s : Text) × (sprintf floats
            (mac_text_format tagged newtrace)
            (int a ∷ int b ∷ int c ∷ int e ∷ [])
          ≡ some s)
  unfolding sprintf
  mac_text floats true newtrace a b c e = (_, refl)
  mac_text floats false true a b c e = (_, refl)
  mac_text floats false false a b c e = (_, refl)

  breakdown-defined :
      (sim : Sim D) (t : CmuTrace) ⦃d : Double D⦄ (o : Option (EnergyModel D))
      → (s : Text) × (breakdown_of sim t o ≡ some s)
  unfolding breakdown_of
  breakdown-defined sim t none = ([], refl)
  breakdown-defined sim t (some model) = (_, refl)

module _ {D : Type 0} ⦃d : Double D⦄ (sim : Sim D) (t : CmuTrace) (p : TracedPacket D) where
  mac_layer-defined : (smac : Bool) → (s : Text) × (format_mac_layer sim t smac p ≡ some s)
  unfolding format_mac_layer format_mac format_smac
  mac_layer-defined true = (_, refl)
  mac_layer-defined false = mac_text sim.floats t.tagged (is_set t.newtrace) _ _ _ _

  common_old-defined :
      (why ptype : Text)
      → old_type sim t p ≡ some ptype
      → (s : Text) × (mac_common_old sim t p why ≡ some s)
  unfolding mac_common_old
  common_old-defined why ptype named = >>=-some (old_type sim t p) _ named (λ s. (_, refl))

  old_start-defined :
      (why ptype : Text)
      → old_type sim t p ≡ some ptype
      → (s : Text) × (old_start sim t p why ≡ some s)
  unfolding old_start format_phy
  old_start-defined why ptype named =
      >>=-some (mac_common_old sim t p why) _ (common_old-defined why ptype named).1 (λ start.
        elim (Bool-cases (is_phy t.tracetype)) [
          | inl phy ↦ rw phy (_, refl)
          | inr other ↦ rw other (
              >>=-some (format_mac_layer sim t (starts_smac sim t) p) _
                (mac_layer-defined (starts_smac sim t)).1
                (λ mac.
                  >>=-some (breakdown_of sim t (model_of sim t)) _
                    (breakdown-defined sim t (model_of sim t)).1 (λ energy. (_, refl))))
        ])

  -- In the old format the start of a line is defined for every packet whose type has a name.
  pub format_mac_common-defined :
      (why ptype : Text)
      → t.tagged ≡ false
      → is_set t.newtrace ≡ false
      → old_type sim t p ≡ some ptype
      → (s : Text) × (format_mac_common sim t p why ≡ some s)
  unfolding format_mac_common
  format_mac_common-defined why ptype tagged new named =
      let (s, e) = old_start-defined why ptype named in
      (s, old_format t.tagged (is_set t.newtrace) _ _ _ tagged new ∙ e)
