-- ===== src/Packet/Alloc/FreeList.antt =====
-- common/packet.h: the list of free packets under `alloc` and `free`.
use antnet.Common.{
  ℕ, ◌<◌, ◌≤◌, ◌≡◌, ◌≢◌, refl, sym, ap, ◌∙◌, ◌⊎◌, inl, inr, true, false, Option, none, some, List,
  [], ◌∷◌, arith, All, Lacks, IsDistinct, ==_iff, subst,
}
use antnet.Common.Int.{pos}
use antnet.Packet.Alloc.{
  Cell, Heap, write, is_null, not_positive, reuse, make, alloc, release, count_down, free, zeroed,
  fresh_bits,
}

-- The packets of a list along `next_`.
abbrev pub Linked : (ℕ → Cell) → Option ℕ → List ℕ → Type 0
Linked cells o [] = o ≡ none
Linked cells o (p ∷ ps) = (o ≡ some p) × Linked cells (cells p).next ps

abbrev pub IsIdle : (ℕ → Cell) → ℕ → ℕ → Type 0
IsIdle cells made p = (p < made) × ((cells p).fflag ≡ false) × ((cells p).user_data ≡ none)

-- The free packets are `ps`, in order.
pub record IsFreeList (h : Heap) (ps : List ℕ) : Type 0 where
  pub linked : Linked h.cells h.free_list ps
  pub distinct : IsDistinct ps
  pub idle : All (IsIdle h.cells h.made) ps

pub write-same : (cells : ℕ → Cell) (p : ℕ) (c : Cell) → write cells p c p ≡ c
write-same cells p c = ground (arith, ==_iff p p)

pub write-other : (cells : ℕ → Cell) (p q : ℕ) (c : Cell) → p ≢ q → write cells p c q ≡ cells q
write-other cells p q c ne = ground (arith, ==_iff p q)

Linked-write :
    (cells : ℕ → Cell) (p : ℕ) (c : Cell) (o : Option ℕ) (ps : List ℕ)
    → Lacks p ps
    → Linked cells o ps
    → Linked (write cells p c) o ps
Linked-write cells p c o [] l h = h
Linked-write cells p c o (q ∷ ps) (ne, l) (e, h) = (
  e,
  subst (λ k. Linked (write cells p c) k.next ps) (sym (write-other cells p q c (λ x. ne (sym x))))
      (Linked-write cells p c (cells q).next ps l h),
)

IsIdle-write :
    (cells : ℕ → Cell) (made made' p : ℕ) (c : Cell) (ps : List ℕ)
    → Lacks p ps
    → made ≤ made'
    → All (IsIdle cells made) ps
    → All (IsIdle (write cells p c) made') ps
IsIdle-write cells made made' p c [] l le h = tt
IsIdle-write cells made made' p c (q ∷ ps) (ne, l) le ((lt, off, empty), h) =
    let (off', empty') = same off empty in
    ((omega arith, off', empty'), IsIdle-write cells made made' p c ps l le h)
  where
    same :
        (cells q).fflag ≡ false
        → (cells q).user_data ≡ none
        → ((write cells p c q).fflag ≡ false) × ((write cells p c q).user_data ≡ none)
    same f u =
        subst (λ k. (k.fflag ≡ false) × (k.user_data ≡ none))
          (sym (write-other cells p q c (λ x. ne (sym x)))) (f, u)

Lacks-made :
    (cells : ℕ → Cell) (made : ℕ) (ps : List ℕ) → All (IsIdle cells made) ps → Lacks made ps
Lacks-made cells made [] h = tt
Lacks-made cells made (p ∷ ps) ((lt, off, empty), h) = (omega arith, Lacks-made cells made ps h)

-- A packet in use is not in the list.
Lacks-live :
    (cells : ℕ → Cell) (made p : ℕ) (ps : List ℕ)
    → (cells p).fflag ≡ true
    → All (IsIdle cells made) ps
    → Lacks p ps
Lacks-live cells made p [] live h = tt
Lacks-live cells made p (q ∷ ps) live ((lt, off, empty), h) =
    (λ e. clash (subst (λ k. (cells k).fflag ≡ false) e off), Lacks-live cells made p ps live h)
  where
    clash : (cells p).fflag ≡ false → ⊥
    clash f = cc

-- What `alloc` gives: a packet that was free or did not exist, with a cleared header, in use, and
-- no other packet has changed.
pub record IsAllocated (h : Heap) (p : ℕ) (h' : Heap) : Type 0 where
  pub unused : ((h.cells p).fflag ≡ false) ⊎ (p ≡ h.made)
  pub bits : (h'.cells p).bits ≡ fresh_bits
  pub live : (h'.cells p).fflag ≡ true
  pub empty : (h'.cells p).user_data ≡ none
  pub others : (q : ℕ) → p ≢ q → h'.cells q ≡ h.cells q

written :
    (h : Heap) (p : ℕ) (c : Cell) (h' : Heap)
    → h'.cells ≡ write h.cells p c
    → c.bits ≡ fresh_bits
    → c.fflag ≡ true
    → c.user_data ≡ none
    → ((h.cells p).fflag ≡ false) ⊎ (p ≡ h.made)
    → IsAllocated h p h'
written h p c h' e bits live empty unused =
    let here : h'.cells p ≡ c = ap (λ cells. cells p) e ∙ write-same h.cells p c in
    record {
      unused = unused;
      bits = ap (λ (k : Cell). k.bits) here ∙ bits;
      live = ap (λ (k : Cell). k.fflag) here ∙ live;
      empty = ap (λ (k : Cell). k.user_data) here ∙ empty;
      others = λ q ne. ap (λ cells. cells q) e ∙ write-other h.cells p q c ne;
    }

-- A free packet is given out first.
first_free :
    (h : Heap) (p : ℕ) (ps : List ℕ)
    → IsFreeList h (p ∷ ps)
    → (h' : Heap) × (alloc h ≡ some (p, h')) × IsAllocated h p h' × IsFreeList h' ps
unfolding alloc reuse is_null
first_free h p ps f =
    let ((lt, off, empty), idle) = f.idle in
    let c : Cell = record (h.cells p) {
      bits = fresh_bits;
      uid = pos 0;
      fflag = true;
      next = none;
    } in
    let h' : Heap = record h { cells = write h.cells p c; free_list = (h.cells p).next } in
    (
      h',
      ap (λ o. elim o [ none ↦ some (make h) | some q ↦ reuse q h ]) f.linked.0
          ∙ simp (off, empty) refl,
      written h p c h' refl refl refl empty (inl off),
      record {
        linked = Linked-write h.cells p c (h.cells p).next ps f.distinct.0 f.linked.1;
        distinct = f.distinct.1;
        idle = IsIdle-write h.cells h.made h.made p c ps f.distinct.0 (omega arith) idle;
      },
    )

-- If the packets in the list of free ones are distinct, not in use and without data, `alloc` is
-- defined, and leaves such a list. It gives the first of the free packets, and leaves the others in
-- the list in order, or, if there is none, a new packet, and leaves the list empty. The packet was in
-- nobody's use; its header is cleared, and no other packet has changed.
pub alloc-IsAllocated :
    (h : Heap) (ps : List ℕ)
    → IsFreeList h ps
    → (p : ℕ) × (h' : Heap) × (ps' : List ℕ) × (alloc h ≡ some (p, h'))
      × IsAllocated h p h'
      × IsFreeList h' ps'
      × ((ps ≡ p ∷ ps') ⊎ ((ps ≡ []) × (ps' ≡ []) × (p ≡ h.made)))
unfolding alloc make
alloc-IsAllocated h [] f =
    let (p, h') = make h in
    (
      p,
      h',
      [],
      rw f.linked refl,
      written h p _ h' refl refl refl refl (inr refl),
      record { linked = f.linked; distinct = tt; idle = tt },
      inr (refl, refl, refl),
    )
alloc-IsAllocated h (p ∷ ps) f =
    let (h', got, allocated, kept) = first_free h p ps f in
    (p, h', ps, got, allocated, kept, inl refl)

-- `free` of a packet in use that one holder has, and that is in no event queue, is defined and puts
-- it at the head of the list of free packets; the next `alloc` gives the same packet, cleared, and
-- leaves the list as it was before.
pub free-alloc :
    (h : Heap) (ps : List ℕ) (p : ℕ)
    → IsFreeList h ps
    → p < h.made
    → (h.cells p).fflag ≡ true
    → (h.cells p).ref_count ≡ 0
    → not_positive (h.cells p).uid ≡ true
    → (h' : Heap) × (h'' : Heap) × (free p h ≡ some h')
      × IsFreeList h' (p ∷ ps)
      × (alloc h' ≡ some (p, h''))
      × IsFreeList h'' ps
unfolding free count_down release
free-alloc h ps p f made live single uid =
    let c : Cell = record (h.cells p) {
      user_data = none;
      bits = zeroed;
      next = h.free_list;
      fflag = false;
    } in
    let h' : Heap = record h { cells = write h.cells p c; free_list = some p } in
    let lacks = Lacks-live h.cells h.made p ps live f.idle in
    let here = write-same h.cells p c in
    let kept : IsFreeList h' (p ∷ ps) = record {
      linked = (
        refl,
        subst (λ (k : Cell). Linked h'.cells k.next ps) (sym here)
            (Linked-write h.cells p c h.free_list ps lacks f.linked),
      );
      distinct = (lacks, f.distinct);
      idle = (
        (made, ap (λ (k : Cell). k.fflag) here, ap (λ (k : Cell). k.user_data) here),
        IsIdle-write h.cells h.made h.made p c ps lacks (omega arith) f.idle,
      );
    } in
    let (h'', got, allocated, rest) = first_free h' p ps kept in
    (h', h'', simp (live, single, uid) refl, kept, got, rest)
