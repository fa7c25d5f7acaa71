-- ===== src/Packet/Alloc/Tests.antt =====
-- A heap with one free packet and one in use.
use antnet.Common.{
  ◌⊎◌, some, ℕ, ◌≡◌, refl, none, some, List, [], ◌∷◌, true, false, arith, if◌then◌else◌, ◌==◌,
}
use antnet.Common.Int.{pos}
use antnet.Packet.Alloc.{Cell, Heap, zeroed, alloc, not_positive}
use antnet.Packet.Alloc.Holders.{hold, let_go, let_go-IsFreeList}
use antnet.Packet.Alloc.FreeList.{IsFreeList, IsAllocated, alloc-IsAllocated}

abbrev idle_cell : Cell
idle_cell = record {
  bits = zeroed;
  user_data = none;
  uid = pos 0;
  fflag = false;
  ref_count = 0;
  next = none;
}

abbrev small_heap : Heap
small_heap = record {
  cells =
      λ p. if p == 0 then idle_cell else record (idle_cell) { fflag = true; user_data = some 7 };
  free_list = some 0;
  made = 2;
}

small_heap-IsFreeList : IsFreeList small_heap (0 ∷ [])
small_heap-IsFreeList = record {
  linked = (refl, refl);
  distinct = (tt, tt);
  idle = ((omega arith, refl, refl), tt);
}

abbrev only : List ℕ
only = 0 ∷ []

alloc-IsAllocated_example :
    (p : ℕ) × (h' : Heap) × (ps' : List ℕ) × (alloc small_heap ≡ some (p, h'))
    × IsAllocated small_heap p h'
    × IsFreeList h' ps'
    × ((only ≡ p ∷ ps') ⊎ ((only ≡ []) × (ps' ≡ []) × (p ≡ 2)))
alloc-IsAllocated_example = alloc-IsAllocated small_heap (0 ∷ []) small_heap-IsFreeList

let_go-IsFreeList_example :
    (let_go 2 1 (hold 2 1 small_heap) ≡ some small_heap)
    × ((h' : Heap) × (h'' : Heap) × (let_go 3 1 (hold 2 1 small_heap) ≡ some h')
        × IsFreeList h' (1 ∷ 0 ∷ [])
        × (alloc h' ≡ some (1, h''))
        × IsFreeList h'' (0 ∷ []))
unfolding not_positive
let_go-IsFreeList_example =
    let_go-IsFreeList 2 1 small_heap (0 ∷ []) small_heap-IsFreeList (omega arith) refl refl refl
