-- ===== src/Trace/Nam/Colors.antt =====
-- trace/cmu-trace.cc, `nam_format`: the colors of nodes.
use antnet.Common.{
  ℕ, ◌≡◌, ◌≢◌, refl, subst, sym, ap, ◌∙◌, ◌==◌, leb, false, Option, some, [], Text, arith,
  Bool-cases, Option-cases, ==_iff, inl, inr, ◌>>=◌,
}
use antnet.Common.Int.{ℤ, pos, negsuc}
use antnet.Double.{Double}
use antnet.Trace.Object.{CmuTrace, max_node}
use antnet.Trace.Headers.{Sim, EnergyModel}
use antnet.Trace.Format.Mac.{model_of}
use antnet.Trace.Nam.{energy_level, change_color, color_of, color_with, color_line}

unchanged :
    {s s' : Text} {u u' : CmuTrace}
    → ◌≡◌ {A = Option (Text × CmuTrace)} (some (s, u)) (some (s', u'))
    → u ≡ u'
unchanged q = cc

module _ {D : Type 0} ⦃d : Double D⦄ (sim : Sim D) where
  -- The node's color is what it should be, and no other node's has changed.
  abbrev pub IsColored : CmuTrace → CmuTrace → ℕ → ℕ → Type 0
  IsColored t t' n level =
      (t'.src ≡ t.src)
      × (t'.node_color n ≡ level)
      × ((m : ℕ) → m ≢ n → t'.node_color m ≡ t.node_color m)

  change_color-IsColored :
      (t : CmuTrace) (n level : ℕ) (line : Text) (t' : CmuTrace)
      → change_color sim t n level ≡ some (line, t')
      → IsColored t t' n level
  unfolding change_color
  change_color-IsColored t n level line t' e = elim (Bool-cases (t.node_color n == level)) [
    | inl same ↦
        subst (λ u. IsColored t u n level) (unchanged (rw same at e))
          (refl, (==_iff (t.node_color n) level).0 same, λ m other. refl)
    | inr new ↦
        subst (λ u. IsColored t u n level) (unchanged (rw new at e))
          (refl, rw ((==_iff n n).1 refl) refl, λ m other. rw (not_same m n other) refl)
  ]
    where
      not_same : (m n : ℕ) → m ≢ n → (m == n) ≡ false
      not_same m n ne = ground (arith, ==_iff m n, ne)

  change_color-again :
      (t : CmuTrace) (n level : ℕ)
      → t.node_color n ≡ level
      → change_color sim t n level ≡ some ([], t)
  unfolding change_color
  change_color-again t n level e = rw ((==_iff (t.node_color n) level).1 e) refl

  color_of-again :
      (model : EnergyModel D) (i : ℤ) (t : CmuTrace) (line : Text) (t' : CmuTrace)
      → color_of sim t model i ≡ some (line, t')
      → (t'.src ≡ t.src)
        × (color_of sim t' model i ≡ some ([], t'))
        × ((m : ℕ) → pos m ≢ i → t'.node_color m ≡ t.node_color m)
  unfolding color_of
  color_of-again model (negsuc n) t line t' e = cc
  color_of-again model (pos n) t line t' e = elim (Bool-cases (leb max_node n)) [
    | inl big ↦ cc (rw big at e)
    | inr small ↦
        let level = energy_level model.energy model.initialenergy model.level1 model.level2 in
        let (src, colored, others) = change_color-IsColored t n level line t' (rw small at e) in
        (
          src,
          rw small (change_color-again t' n level colored),
          λ m ne. others m (λ q. ne (ap pos q)),
        )
  ]

  -- Nothing changes where no color is shown.
  unshown :
      (t : CmuTrace) (line : Text) (t' : CmuTrace)
      → color_line sim t ≡ some ([], t)
      → color_line sim t ≡ some (line, t')
      → (color_line sim t' ≡ some ([], t'))
        × ((m : ℕ) → pos m ≢ t.src → t'.node_color m ≡ t.node_color m)
  unshown t line t' plain e =
      let same : t ≡ t' = unchanged (sym plain ∙ e) in
      (
        subst (λ u. color_line sim u ≡ some ([], u)) same plain,
        λ m ne. ap (λ (u : CmuTrace). u.node_color m) (sym same),
      )

  -- After `nam_format` has shown the color of a node, the next call with the same energies shows no
  -- color; and no other node's color has changed.
  pub color_line-again :
      (t : CmuTrace) (line : Text) (t' : CmuTrace)
      → color_line sim t ≡ some (line, t')
      → (color_line sim t' ≡ some ([], t'))
        × ((m : ℕ) → pos m ≢ t.src → t'.node_color m ≡ t.node_color m)
  unfolding color_line
  color_line-again t line t' e = elim (Option-cases (model_of sim t)) [
    | inl none_there ↦ unshown t line t' (ap (color_with sim t) none_there) e
    | inr (model, q) ↦ elim (Bool-cases (d.eq model.energy (d.of_int (negsuc 0)))) [
      | inl off ↦ unshown t line t' (ap (color_with sim t) q ∙ rw off refl) e
      | inr on ↦
          let e' : color_of sim t model t.src ≡ some (line, t') =
            rw on at (sym (ap (color_with sim t) q) ∙ e) in
          let (src, again, others) = color_of-again model t.src t line t' e' in
          let q' : model_of sim t' ≡ some model =
            ap (λ i. sim.node_at i >>= λ node. node.energy_model) src ∙ q in
          (ap (color_with sim t') q' ∙ rw on (ap (color_of sim t' model) src ∙ again), others)
    ]
  ]
