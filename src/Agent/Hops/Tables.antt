-- ===== src/Agent/Hops/Tables.antt =====
-- antnet.cc, `update_table`: which entries of the routing table a backward ant reinforces.
use antnet.Common.{
  ℕ, zero, suc, ◌+◌, ◌-◌, ◌≤◌, ◌≡◌, refl, ap, ◌∙◌, some, List, [], ◌∷◌, ◌++◌, take, drop, length,
  arith, Lacks, Has, IsDistinct, ==_iff, length-drop,
}
use antnet.Double.{Double}
use antnet.Double.Laws.{IsExact}
use antnet.Packet.{Memory, Packet}
use antnet.Rtable.{AntnetRtable, RtableT, update}
use antnet.Rtable.Update.{InUnit}
use antnet.Rtable.Invariant.{IsTable, update-IsTable}
use antnet.Agent.State.{Antnet}
use antnet.Agent.Memorize.Path.{nodes, path, IsArray}
use antnet.Agent.Hops.{seek, update_dests, update_table}
use antnet.Agent.Hops.Slots.{next-Holds, length-split}

module _ {D : Type 0} ⦃d : Double D⦄ where
  -- The specification: one update for every destination, in order.
  abbrev pub update_each : ℕ → D → List ℕ → RtableT D → RtableT D
  update_each next r [] rt = rt
  update_each next r (dest ∷ dests) rt = update_each next r dests (update rt dest next r)

  module _ {R : Type 0} where
    update_dests-each :
        (next : ℕ) (r : D) (left : ℕ) (ms : List (Memory D)) (t : AntnetRtable R D)
        → left ≤ length ms
        → update_dests next r left ms t
          ≡ some (record t { rt = update_each next r (nodes (take left ms)) t.rt })
    unfolding update_dests
    update_dests-each next r zero ms t h = refl
    update_dests-each next r (suc left) [] t h = absurd (omega arith)
    update_dests-each next r (suc left) (m ∷ ms) t h =
        update_dests-each next r left ms (record t { rt = update t.rt m.node_addr next r })
          (omega arith)

module _ {D : Type 0} where
  pub seek-lem :
      (a k i : ℕ) (ms : List (Memory D)) (xs ys : List ℕ)
      → nodes (take k ms) ≡ xs ++ a ∷ ys
      → Lacks a xs
      → seek a ms i ≡ some (i + length xs)
  unfolding seek
  seek-lem a zero i ms [] ys e l = cc
  seek-lem a zero i ms (x ∷ xs) ys e l = cc
  seek-lem a (suc k) i [] [] ys e l = cc
  seek-lem a (suc k) i [] (x ∷ xs) ys e l = cc
  seek-lem a (suc k) i (m ∷ ms) [] ys e l =
      let here : m.node_addr ≡ a = cc in
      rw ((==_iff m.node_addr a).1 here, seek) (ap some (omega arith))
  seek-lem a (suc k) i (m ∷ ms) (x ∷ xs) ys e (ne, l) =
      let here : m.node_addr ≡ x = cc in
      let rest : nodes (take k ms) ≡ xs ++ a ∷ ys = cc in
      ground (arith, ==_iff m.node_addr a, seek-lem a k (suc i) ms xs ys rest l)

  pub drop-split :
      (k : ℕ) (ms : List (Memory D)) (xs ys : List ℕ) (b : ℕ)
      → nodes (take k ms) ≡ xs ++ b ∷ ys
      → nodes (take (k - suc (length xs)) (drop (suc (length xs)) ms)) ≡ ys
  drop-split zero ms [] ys b e = cc
  drop-split zero ms (x ∷ xs) ys b e = cc
  drop-split (suc k) [] [] ys b e = cc
  drop-split (suc k) [] (x ∷ xs) ys b e = cc
  drop-split (suc k) (m ∷ ms) [] ys b e =
      let count : suc k - 1 ≡ k = omega arith in
      let rest : nodes (take k ms) ≡ ys = cc in rw count rest
  drop-split (suc k) (m ∷ ms) (x ∷ xs) ys b e =
      let count : suc k - suc (suc (length xs)) ≡ k - suc (length xs) = omega arith in
      let rest : nodes (take k ms) ≡ xs ++ b ∷ ys = cc in rw count (drop-split k ms xs ys b rest)

module _ {R D : Type 0} ⦃d : Double D⦄ where
  -- At a node of the path that has a node behind it, `update_table` is defined: it updates, for the
  -- link to the next node of the path, the rows of that node and of all behind it, in order, and
  -- nothing else of the agent.
  pub update_table-each :
      (a : Antnet R D) (p : Packet D) (xs ys : List ℕ) (next : ℕ)
      → IsArray p
      → path p ≡ xs ++ a.addr ∷ next ∷ ys
      → Lacks a.addr xs
      → update_table a p
        ≡ some (record a {
          rtable = record (a.rtable) { rt = update_each next a.r_factor (next ∷ ys) a.rtable.rt };
        })
  unfolding update_table
  update_table-each a p xs ys next arr split l =
      let k = p.ah.pkt_mem_size in
      let ms = p.ah.pkt_memory in
      let i = suc (length xs) in
      let fits : k ≤ length ms = omega (arith, arr.size, arr.within) in
      let sought : seek a.addr ms 0 ≡ some (length xs) =
        seek-lem a.addr k 0 ms xs (next ∷ ys) split l ∙ ap some (omega arith) in
      let slot = next-Holds k ms xs ys a.addr next split in
      let inside = length-split k ms xs ys a.addr next split fits in
      let loop =
        update_dests-each slot.entry.node_addr a.r_factor (k - i) (drop i ms) a.rtable
          (omega (arith, length-drop i ms)) in
      let dests = drop-split k ms xs (next ∷ ys) a.addr split in
      rw (sought, update_table, slot.got, loop, dests)
        (ap
          (λ n. some (record a {
            rtable = record (a.rtable) { rt = update_each n a.r_factor (next ∷ ys) a.rtable.rt };
          }))
          slot.node)

module _ {D : Type 0} ⦃d : Double D⦄ (laws : IsExact D) where
  -- A backward ant keeps the routing table: each row still holds every neighbour's link, with
  -- pheromones that sum to one.
  pub update_each-IsTable :
      (nbrs : List ℕ) (next : ℕ) (r : D) (dests : List ℕ) (rt : RtableT D)
      → IsDistinct nbrs
      → Has next nbrs
      → InUnit r
      → IsTable nbrs rt
      → IsTable nbrs (update_each next r dests rt)
  update_each-IsTable nbrs next r [] rt ds has u t = t
  update_each-IsTable nbrs next r (dest ∷ dests) rt ds has u t =
      update_each-IsTable nbrs next r dests (update rt dest next r) ds has u
        (update-IsTable laws nbrs rt dest next r ds has u t)
