-- ===== src/Packet/Data/Copied.antt =====
-- common/packet.h, `copy`: the copy of a packet has bytes of its own.
use antnet.Common.{
  ℕ, suc, ◌+◌, ◌<◌, ◌≤◌, ◌≡◌, ◌≢◌, refl, sym, ap, ◌∙◌, inl, inr, Option, some, List, arith, length,
  take, true, false, ==_iff, subst, leb,
}
use mathlib.Core.Option.{some-injective}
use antnet.Common.Int.{pos}
use antnet.Packet.Alloc.{Cell, Heap, write}
use antnet.Packet.Alloc.FreeList.{
  IsFreeList, IsAllocated, alloc-IsAllocated, write-same, write-other,
}
use antnet.Packet.Data.{
  OtherData, OtherData, AppData, packet_data, Store, put_object, copy_packet_data, copy_object,
  user_data_of, accessdata, copy,
}

-- A packet in use, whose data are bytes, at least as many as their length says.
pub record HasBytes {A : Type 0} (s : Store A) (p n : ℕ) (bs : List ℕ) : Type 0 where
  pub made : p < s.heap.made
  pub live : (s.heap.cells p).fflag ≡ true
  pub place : ℕ
  pub pointer : user_data_of s p ≡ some place
  pub known : place < s.made
  pub object :
      s.objects place ≡ some (packet_data (record { data_ = some bs; datalen = pos (suc n) }))
  pub enough : suc n ≤ length bs

copied_object :
    {A : Type 0} (others : OtherData A) (n : ℕ) (bs : List ℕ)
    → suc n ≤ length bs
    → copy_object others (packet_data (record { data_ = some bs; datalen = pos (suc n) }))
      ≡ some (packet_data (record { data_ = some (take (suc n) bs); datalen = pos (suc n) }))
unfolding copy_object copy_packet_data
copied_object others n bs h =
    let fits : leb (suc n) (length bs) ≡ true = ground arith in rw fits refl

-- The new packet is not the one that is copied.
copied-ne :
    (h h' : Heap) (p q : ℕ) → p < h.made → (h.cells p).fflag ≡ true → IsAllocated h q h' → q ≢ p
copied-ne h h' p q made live al = λ e. elim (al.unused) [
  | inl off ↦ true≢false (sym live ∙ subst (λ k. (h.cells k).fflag ≡ false) e off)
  | inr new ↦ omega arith
]
  where
    true≢false : true ≡ false → ⊥
    true≢false h = cc

put_object-same :
    {A : Type 0} (objects : ℕ → Option (AppData A)) (i : ℕ) (o : Option (AppData A))
    → put_object objects i o i ≡ o
put_object-same objects i o = ground (arith, ==_iff i i)

put_object-other :
    {A : Type 0} (objects : ℕ → Option (AppData A)) (i j : ℕ) (o : Option (AppData A))
    → i ≢ j
    → put_object objects i o j ≡ objects j
put_object-other objects i j o ne = ground (arith, ==_iff i j)

-- A pointer to bytes gives them.
accessdata-pointer :
    {A : Type 0} (s : Store A) (p i : ℕ) (bs : List ℕ) (n : ℕ)
    → user_data_of s p ≡ some i
    → s.objects i ≡ some (packet_data (record { data_ = some bs; datalen = pos n }))
    → accessdata s p ≡ some (some bs)
unfolding accessdata
accessdata-pointer s p i bs n e o = rw (e, accessdata, o) refl

-- `copy` of a packet with bytes gives another packet, with the same header, whose data are an object
-- of its own with the same bytes, as many as their length says; the packet keeps its data.
pub copy-HasBytes :
    {A : Type 0} (others : OtherData A) (s : Store A) (ps : List ℕ) (p n : ℕ) (bs : List ℕ)
    → IsFreeList s.heap ps
    → HasBytes s p n bs
    → (q : ℕ) × (s' : Store A) × (copy others p s ≡ some (q, s'))
      × (q ≢ p)
      × ((s'.heap.cells q).bits ≡ (s.heap.cells p).bits)
      × (accessdata s' q ≡ some (some (take (suc n) bs)))
      × (accessdata s' p ≡ some (some bs))
      × (user_data_of s' q ≢ user_data_of s' p)
unfolding copy
copy-HasBytes {A = A} others s ps p n bs f b =
    let (q, h, ps', got, al, _, _) = alloc-IsAllocated s.heap ps f in
    let ne = copied-ne s.heap h p q b.made b.live al in
    let c : Cell = record (h.cells q) { bits = (h.cells p).bits } in
    let new : AppData A =
      packet_data (record { data_ = some (take (suc n) bs); datalen = pos (suc n) }) in
    let cells = write h.cells q c in
    let s' : Store A = record {
      heap = record h { cells = write cells q (record (cells q) { user_data = some s.made }) };
      objects = put_object s.objects s.made (some new);
      made = s.made + 1;
    } in
    let kept : cells p ≡ s.heap.cells p = write-other h.cells q p c ne ∙ al.others p ne in
    let pointer : (cells p).user_data ≡ some b.place =
      ap (λ (k : Cell). k.user_data) kept ∙ b.pointer in
    let here : s'.heap.cells q ≡ record (cells q) { user_data = some s.made } =
      write-same cells q (record (cells q) { user_data = some s.made }) in
    let there : user_data_of s' p ≡ some b.place =
      ap (λ (k : Cell). k.user_data)
        (write-other cells q p (record (cells q) { user_data = some s.made }) ne)
      ∙ pointer in
    let mine : user_data_of s' q ≡ some s.made = ap (λ (k : Cell). k.user_data) here in
    (
      q,
      s',
      rw (got, pointer, b.object, copied_object others n bs b.enough) refl,
      ne,
      ap (λ (k : Cell). k.bits) here
          ∙ ap (λ (k : Cell). k.bits) (write-same h.cells q c)
          ∙ ap (λ (k : Cell). k.bits) (al.others p ne),
      accessdata-pointer s' q s.made (take (suc n) bs) (suc n) mine
          (put_object-same s.objects s.made (some new)),
      accessdata-pointer s' p b.place bs (suc n) there (
          put_object-other s.objects s.made b.place (some new) (omega (arith, b.known)) ∙ b.object),
      λ e. absurd (omega (arith, b.known, some-injective _ _ (sym mine ∙ e ∙ there))),
    )
