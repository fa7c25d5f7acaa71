-- ===== src/Rtable/Entries.antt =====
-- antnet_rtable.cc, `add_entry`, `update` and `print`: what each does to the map of rows.
use antnet.Common.{
  ℕ, ◌≤◌, ◌≡◌, ◌==◌, if◌then◌else◌, none, some, List, [], ◌∷◌, ◌++◌, arith, ◌↔◌, true, ==_iff,
}
use antnet.Common.Map.{find, find-insert, insert-IsSorted, IsSorted, Above}
use antnet.Double.{Double}
use antnet.Rtable.{
  Pheromone, PheromoneMatrix, RtableT, add_entry, print_row, print, update_row, update,
}

module _ {D : Type 0} where
  -- The row of a destination, empty if there is none.
  abbrev pub row_of : ℕ → RtableT D → PheromoneMatrix D
  row_of dest rt = elim (find dest rt) [ none ↦ [] | some row ↦ row ]

  -- Adding an entry appends it to the row of its destination, which it creates if there is none,
  -- and leaves every other row as it was; the destinations stay in ascending order.
  pub add_entry_lem :
      (rt : RtableT D) (dest next j : ℕ) (phvalue : D)
      → IsSorted rt
      → (find j (add_entry rt dest next phvalue) ≡ (
          if dest == j
          then some (row_of dest rt ++ record { neighbor = next; phvalue = phvalue } ∷ [])
          else find j rt))
        × IsSorted (add_entry rt dest next phvalue)
  unfolding add_entry
  add_entry_lem rt dest next j phvalue s =
      let e : Pheromone D = record { neighbor = next; phvalue = phvalue } in
      ground (
        arith,
        find-insert dest j (e ∷ []) rt,
        insert-IsSorted dest (e ∷ []) rt s,
        find-insert dest j (row_of dest rt ++ e ∷ []) rt,
        insert-IsSorted dest (row_of dest rt ++ e ∷ []) rt s,
      )

  -- The destinations ascend from `n` on.
  abbrev pub Ascends : ℕ → List (ℕ × ℕ × D) → Type 0
  Ascends n [] = Unit {0}
  Ascends n ((dest, next, p) ∷ lines) = (n ≤ dest) × Ascends dest lines

  Ascends-print_row :
      (n dest : ℕ) (row : PheromoneMatrix D) (lines : List (ℕ × ℕ × D))
      → n ≤ dest
      → Ascends dest lines
      → Ascends n (print_row dest row ++ lines)
  unfolding print_row
  Ascends-print_row n dest [] lines h a = weaken lines a
    where
      weaken : (ls : List (ℕ × ℕ × D)) → Ascends dest ls → Ascends n ls
      weaken [] b = tt
      weaken ((k, next, p) ∷ ls) b = (omega arith, b.1)
  Ascends-print_row n dest (e ∷ row) lines h a =
      (h, Ascends-print_row dest dest row lines (omega arith) a)

  Above-print : (n : ℕ) (rt : RtableT D) → Above n rt → Ascends n (print rt)
  unfolding print
  Above-print n [] a = tt
  Above-print n ((dest, row) ∷ rt) a =
      Ascends-print_row n dest row (print rt) (omega arith) (Above-print dest rt a.1)

  print-IsSorted : (rt : RtableT D) → IsSorted rt → Ascends 0 (print rt)
  unfolding print
  print-IsSorted [] s = tt
  print-IsSorted ((dest, row) ∷ rt) s =
      Ascends-print_row 0 dest row (print rt) (omega arith) (Above-print dest rt s)

module _ {D : Type 0} ⦃d : Double D⦄ where
  -- `update` rewrites the row of its destination, if there is one, and no other; it adds and
  -- removes no row.
  pub find-update :
      (rt : RtableT D) (dest next j : ℕ) (r : D)
      → find j (update rt dest next r) ≡ elim (find j rt) [
        | none ↦ none
        | some row ↦ some (if dest == j then update_row next r row else row)
      ]
  unfolding update
  find-update rt dest next j r = ground (
    arith,
    find-insert dest j (update_row next r (row_of dest rt)) rt,
    key_eq dest j (==_iff dest j),
  )
    where
      key_eq : (a b : ℕ) → ((a == b) ≡ true) ↔ (a ≡ b) → (a == b) ≡ true → find a rt ≡ find b rt
      key_eq a b e h = rw (e.0 h)

  pub update-IsSorted :
      (rt : RtableT D) (dest next : ℕ) (r : D) → IsSorted rt → IsSorted (update rt dest next r)
  unfolding update
  update-IsSorted rt dest next r s =
      ground (arith, insert-IsSorted dest (update_row next r (row_of dest rt)) rt s)
