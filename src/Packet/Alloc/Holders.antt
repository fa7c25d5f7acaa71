-- ===== src/Packet/Alloc/Holders.antt =====
-- common/packet.h, `refcopy` and `free`: the count of holders.
use antnet.Common.{
  ℕ, zero, suc, ◌+◌, ◌<◌, ◌≡◌, refl, ap, ◌∙◌, ◌==◌, if◌then◌else◌, true, Bool-cases, inl, inr,
  Option, some, List, ◌∷◌, arith, ==_iff, ◌>>=◌,
}
use mathlib.Core.Path.{fun_ext}
use antnet.Packet.Alloc.{Cell, Heap, write, not_positive, refcopy, free, count_down, alloc}
use antnet.Packet.Alloc.FreeList.{IsFreeList, write-same, free-alloc}

-- `k` further holders, and `free` by `k` of them.
abbrev pub hold : ℕ → ℕ → Heap → Heap
hold zero p h = h
hold (suc k) p h = hold k p (refcopy p h)

abbrev pub let_go : ℕ → ℕ → Heap → Option Heap
let_go zero p h = some h
let_go (suc k) p h = let_go k p h >>= free p

-- Writing what stands there changes nothing.
write-twice : (cells : ℕ → Cell) (p : ℕ) (c : Cell) → write (write cells p c) p (cells p) ≡ cells
write-twice cells p c = fun_ext λ q. elim (Bool-cases (p == q)) [
  | inl here ↦ rw here (ap cells ((==_iff p q).0 here))
  | inr there ↦ rw there refl
]

refcopy-live : (p : ℕ) (h : Heap) → (h.cells p).fflag ≡ true → ((refcopy p h).cells p).fflag ≡ true
unfolding refcopy
refcopy-live p h live =
    ap (λ (k : Cell). k.fflag)
      (write-same h.cells p (record (h.cells p) { ref_count = (h.cells p).ref_count + 1 }))
    ∙ live

free-count :
    (p n : ℕ) (h : Heap)
    → (h.cells p).fflag ≡ true
    → (h.cells p).ref_count ≡ suc n
    → free p h ≡ some (record h { cells = write h.cells p (record (h.cells p) { ref_count = n }) })
unfolding free count_down
free-count p n h live holders =
    ap (λ b. if b then count_down (h.cells p).ref_count p h else some h) live
    ∙ ap (λ m. count_down m p h) holders

free-refcopy : (p : ℕ) (h : Heap) → (h.cells p).fflag ≡ true → free p (refcopy p h) ≡ some h
unfolding refcopy
free-refcopy p h live =
    let c : Cell = record (h.cells p) { ref_count = (h.cells p).ref_count + 1 } in
    let here : (refcopy p h).cells p ≡ c = write-same h.cells p c in
    let n = (h.cells p).ref_count in
    free-count p n (refcopy p h) (refcopy-live p h live)
      (ap (λ (k : Cell). k.ref_count) here ∙ omega arith)
    ∙ ap
        (λ (k : Cell). some (record (refcopy p h) {
          cells = write (refcopy p h).cells p (record k { ref_count = n });
        }))
        here
    ∙ ap (λ cells. some (record h { cells = cells })) (write-twice h.cells p c)

let_go-hold : (k p : ℕ) (h : Heap) → (h.cells p).fflag ≡ true → let_go k p (hold k p h) ≡ some h
let_go-hold zero p h live = refl
let_go-hold (suc k) p h live =
    ap (λ o. o >>= free p) (let_go-hold k p (refcopy p h) (refcopy-live p h live))
    ∙ free-refcopy p h live

-- After `k` further holders of a packet in use have taken and freed it, the heap is as before. If the
-- packet had one holder and is in no event queue, one `free` more puts it at the head of the list of
-- free packets, and the next `alloc` gives the same packet and leaves the list as it was.
pub let_go-IsFreeList :
    (k p : ℕ) (h : Heap) (ps : List ℕ)
    → IsFreeList h ps
    → p < h.made
    → (h.cells p).fflag ≡ true
    → (h.cells p).ref_count ≡ 0
    → not_positive (h.cells p).uid ≡ true
    → (let_go k p (hold k p h) ≡ some h)
      × ((h' : Heap) × (h'' : Heap) × (let_go (suc k) p (hold k p h) ≡ some h')
          × IsFreeList h' (p ∷ ps)
          × (alloc h' ≡ some (p, h''))
          × IsFreeList h'' ps)
let_go-IsFreeList k p h ps f made live single uid =
    let held = let_go-hold k p h live in
    let (h', h'', freed, listed, again, rest) = free-alloc h ps p f made live single uid in
    (held, (h', h'', ap (λ o. o >>= free p) held ∙ freed, listed, again, rest))
