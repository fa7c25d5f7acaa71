-- ===== src/Rtable/Tests.antt =====
-- The routing table of a node with two links.
use antnet.Common.{ℕ, zero, suc, ◌<◌, ◌≡◌, refl, inl, none, some, List, [], ◌∷◌, arith}
use antnet.Common.Map.{find}
use antnet.Double.{nought, one}
use antnet.Double.Ratio.{Ratio, ratio_double}
use antnet.Double.Ratio.Field.{Ratio-IsExact}
use antnet.Rtable.{
  AntnetRtable, calc_destination, calc_next, candidates, sample, total_excl_parent, update,
}
use native.Mathlib.Nat.{mod-lt}
use antnet.Rtable.Invariant.{IsTable, update-IsTable}
use antnet.Rtable.Destination.{InRange, calc_destination_returns, calc_destination_single, draw}
use antnet.Rtable.Choice.{IsChoice, calc_next-IsChoice}
use antnet.Rtable.Probability.{prob_sum, prob_sum-candidates}
use antnet.Rtable.Sampling.{Interval, sample-Interval}
use antnet.Fixture.{
  half, counter, two_links, small_table, two_links-IsStochastic, small_table-IsTable,
  IsDistinct-links,
}

counter-InRange : InRange counter
counter-InRange s n h = mod-lt s h

abbrev table : AntnetRtable ℕ Ratio
table = record { rt = small_table; rnum = 0 }

abbrev queue : ℕ → ℕ → ℕ
queue n m = m

update-IsTable_example : IsTable (1 ∷ 2 ∷ []) (update small_table 2 1 half)
update-IsTable_example =
    update-IsTable Ratio-IsExact (1 ∷ 2 ∷ []) small_table 2 1 half IsDistinct-links (inl refl)
      (refl, refl) small_table-IsTable

calc_destination_returns_example :
    calc_destination counter 2 table 3 0 ≡ some (1, record { rt = small_table; rnum = 2 })
calc_destination_returns_example =
    calc_destination_returns counter 1 2 table 3 0 (omega arith) same (omega arith)
  where
    same : (i : ℕ) → i < 1 → draw counter i 0 3 ≡ 0
    same zero h = refl
    same (suc i) h = absurd (omega arith)

calc_destination_single_example : calc_destination counter 9 table 1 0 ≡ none
calc_destination_single_example = calc_destination_single counter 9 table counter-InRange

calc_next-IsChoice_example :
    ((calc_next counter table queue 0 2 1 2).1.rt ≡ small_table)
    × IsChoice counter queue 0 1 2 (calc_next counter table queue 0 2 1 2).0 (some two_links)
unfolding find
calc_next-IsChoice_example = calc_next-IsChoice counter table queue 0 2 1 2 refl

prob_sum-candidates_example : prob_sum (candidates queue 0 2 two_links) ≡ one
prob_sum-candidates_example =
    prob_sum-candidates Ratio-IsExact queue 0 1 two_links refl two_links-IsStochastic refl

abbrev links : List (ℕ × Ratio)
links = (1, half) ∷ (2, half) ∷ (3, half) ∷ []

sample-Interval_example : Interval 1 nought half (sample 1 half nought 1 links) links
unfolding sample total_excl_parent
sample-Interval_example = sample-Interval Ratio-IsExact 1 nought half 1 links refl refl
