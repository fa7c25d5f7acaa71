-- ===== src/Rtable/Destination.antt =====
-- antnet_rtable.cc, `calc_destination`: when the rejection loop ends, and with what.
use antnet.Common.{
  ℕ, zero, suc, ◌<◌, ◌≡◌, ◌≢◌, refl, ◌==◌, none, some, arith, Bool-cases, inl, inr, ==_iff,
}
use antnet.Rtable.{Rng, AntnetRtable, calc_destination}

module _ {R D : Type 0} (g : Rng R D) where
  -- The k-th draw from [0, n) that a generator makes, and its state after k draws.
  abbrev pub state_after : ℕ → R → ℕ → R
  state_after zero s n = s
  state_after (suc k) s n = state_after k (g.uniform_int s n).1 n

  abbrev pub draw : ℕ → R → ℕ → ℕ
  draw zero s n = (g.uniform_int s n).0
  draw (suc k) s n = draw k (g.uniform_int s n).1 n

  -- The documented range of `uniform(int)`.
  abbrev pub InRange : Type 0
  InRange = (s : R) (n : ℕ) → 0 < n → (g.uniform_int s n).0 < n

  -- If the first `k` draws are the source and the next one is another node, the loop ends with that
  -- node after exactly `k + 1` draws, given more fuel than `k`; the table keeps its rows.
  pub calc_destination_returns :
      (k fuel : ℕ) (t : AntnetRtable R D) (num_nodes source : ℕ)
      → k < fuel
      → ((i : ℕ) → i < k → draw i t.rnum num_nodes ≡ source)
      → draw k t.rnum num_nodes ≢ source
      → calc_destination g fuel t num_nodes source
        ≡ some (draw k t.rnum num_nodes, record t { rnum = state_after (suc k) t.rnum num_nodes })
  unfolding calc_destination
  calc_destination_returns k zero t num_nodes source h same other = absurd (omega arith)
  calc_destination_returns zero (suc fuel) t num_nodes source h same other = ground arith
  calc_destination_returns (suc k) (suc fuel) t num_nodes source h same other =
      rw ((==_iff _ source).1 (same 0 (omega arith))) (
        calc_destination_returns k fuel (record t { rnum = (g.uniform_int t.rnum num_nodes).1 })
          num_nodes source (omega arith) (λ i hi. same (suc i) (omega arith)) other)

  -- What the loop returns is not the source, and it keeps the rows.
  pub calc_destination_other :
      (fuel : ℕ) (t : AntnetRtable R D) (num_nodes source : ℕ) {dest : ℕ} {t' : AntnetRtable R D}
      → calc_destination g fuel t num_nodes source ≡ some (dest, t')
      → (dest ≢ source) × (t'.rt ≡ t.rt)
  unfolding calc_destination
  calc_destination_other zero t num_nodes source e = cc
  calc_destination_other (suc fuel) t num_nodes source {dest} {t'} e =
      let rest = record t { rnum = (g.uniform_int t.rnum num_nodes).1 } in
      elim (Bool-cases ((g.uniform_int t.rnum num_nodes).0 == source)) [
        | inl same ↦ calc_destination_other fuel rest num_nodes source (rw same at e)
        | inr other ↦ ground arith
      ]

  -- In a topology of one node the loop never ends: no fuel is enough.
  pub calc_destination_single :
      (fuel : ℕ) (t : AntnetRtable R D) → InRange → calc_destination g fuel t 1 0 ≡ none
  unfolding calc_destination
  calc_destination_single zero t range = refl
  calc_destination_single (suc fuel) t range = ground (
    arith,
    range t.rnum 1,
    calc_destination_single fuel (record t { rnum = (g.uniform_int t.rnum 1).1 }) range,
  )
