-- ===== src/Packet/Data.antt =====
-- common/packet.h: `PacketData`, and the user data of a packet. A byte is a number, and `new char[n]`
-- gives bytes that nobody has written, which are a parameter.
pub mod Copied
mod Tests
use antnet.Common.{
  ℕ, zero, suc, ◌+◌, ◌==◌, leb, if◌then◌else◌, Bool, true, false, Option, none, some, List, [], ◌∷◌,
  length, take, ◌>>=◌,
}
use antnet.Common.Int.{ℤ, pos, negsuc}
use antnet.Packet.Alloc.{Cell, Heap, write}
use antnet.Packet.Alloc as Alloc

-- `class PacketData`: the buffer, which may be a null pointer, and its length.
pub record PacketData : Type 0 where
  pub data_ : Option (List ℕ)
  pub datalen : ℤ

-- What the other classes below `AppData` do, whose objects are values of `A`.
pub record OtherData (A : Type 0) : Type 0 where
  pub size : A → ℤ
  pub copy : A → A

-- An object of a class below `AppData`: this one, or another.
pub data AppData (A : Type 0) : Type 0 where
  packet_data : PacketData → AppData A
  other_data : A → AppData A

-- The packets, and the objects of `AppData`: none is one that was deleted.
pub record Store (A : Type 0) : Type 0 where
  pub heap : Heap
  pub objects : ℕ → Option (AppData A)
  pub made : ℕ

-- How many bytes `new` makes for a length: none unless `datalen_ > 0`.
abbrev pub buffer : (ℕ → List ℕ) → ℤ → Option (List ℕ)
buffer raw (pos zero) = none
buffer raw (pos (suc n)) = some (raw (suc n))
buffer raw (negsuc n) = none

-- `PacketData(int)`
pub new_packet_data : (ℕ → List ℕ) → ℤ → PacketData
new_packet_data raw sz = record { data_ = buffer raw sz; datalen = sz }

-- `memcpy` of `n` bytes to a new buffer; `none` is a read past the end.
abbrev first_bytes : ℕ → List ℕ → Option (List ℕ)
first_bytes n bs = if leb n (length bs) then some (take n bs) else none

-- The copy constructor of `PacketData`.
pub copy_packet_data : PacketData → Option PacketData
copy_packet_data d = elim (d.datalen) [
  | pos zero ↦ some (record { data_ = none; datalen = d.datalen })
  | pos (suc n) ↦
      (d.data_ >>= λ bs.
      first_bytes (suc n) bs >>= λ bs'. some (record { data_ = some bs'; datalen = d.datalen }))
  | negsuc n ↦ some (record { data_ = none; datalen = d.datalen })
]

abbrev is_positive : ℤ → Bool
is_positive (pos zero) = false
is_positive (pos (suc n)) = true
is_positive (negsuc n) = false

module _ {A : Type 0} where
  abbrev pub put_object : (ℕ → Option (AppData A)) → ℕ → Option (AppData A) → ℕ → Option (AppData A)
  put_object objects i o j = if i == j then o else objects j

  -- `delete` of a pointer: nothing for the null pointer, and undefined behaviour for a deleted object.
  pub delete : Option ℕ → Store A → Option (Store A)
  delete none s = some s
  delete (some i) s = s.objects i >>= λ o. some (record s { objects = put_object s.objects i none })

  abbrev pub user_data_of : Store A → ℕ → Option ℕ
  user_data_of s p = (s.heap.cells p).user_data

  abbrev point_to : Option ℕ → ℕ → Store A → Store A
  point_to d p s = record s {
    heap = record (s.heap) {
      cells = write s.heap.cells p (record (s.heap.cells p) { user_data = d });
    };
  }

  -- A new object at the next place.
  abbrev new_object : (AppData A) → Store A → ℕ × Store A
  new_object o s =
      (s.made, record s { objects = put_object s.objects s.made (some o); made = s.made + 1 })

  pub setdata : Option ℕ → ℕ → Store A → Option (Store A)
  unfolding delete
  setdata d p s = delete (user_data_of s p) s >>= λ s'. some (point_to d p s')

  pub initdata : ℕ → Store A → Store A
  initdata p s = point_to none p s

  -- `none` is a failed assertion.
  pub allocdata : (ℕ → List ℕ) → ℤ → ℕ → Store A → Option (Store A)
  unfolding new_packet_data
  allocdata raw n p s = elim (user_data_of s p) [
    | none ↦
        let (i, s') = new_object (packet_data (new_packet_data raw n)) s in
        some (point_to (some i) p s')
    | some i ↦ none
  ]

  -- `alloc(int)`
  pub alloc_data : (ℕ → List ℕ) → ℤ → Store A → Option (ℕ × Store A)
  unfolding allocdata
  alloc_data raw n s = do
    (p, h) ← Alloc.alloc s.heap
    let s' = record s { heap = h }
    if is_positive n then (allocdata raw n p s' >>= λ s''. some (p, s'')) else some (p, s')

  -- `accessdata`: the buffer or a null pointer; `none` is a deleted object or a failed assertion.
  pub accessdata : Store A → ℕ → Option (Option (List ℕ))
  accessdata s p = elim (user_data_of s p) [
    | none ↦ some none
    | some i ↦ (s.objects i >>= λ o. elim o [ packet_data d ↦ some d.data_ | other_data x ↦ none ])
  ]

  -- `free`, with the object that the packet of the last holder points to.
  pub free : ℕ → Store A → Option (Store A)
  unfolding delete
  free p s = do
    let c = s.heap.cells p
    s' ← if c.fflag then (if c.ref_count == 0 then delete c.user_data s else some s) else some s
    h ← Alloc.free p s.heap
    some (record s' { heap = h })

module _ {A : Type 0} (others : OtherData A) where
  -- `copy()` and `size()` of an object.
  pub copy_object : (AppData A) → Option (AppData A)
  unfolding copy_packet_data
  copy_object (packet_data d) = copy_packet_data d >>= λ d'. some (packet_data d')
  copy_object (other_data x) = some (other_data (others.copy x))

  abbrev pub data_size : (AppData A) → ℤ
  data_size (packet_data d) = d.datalen
  data_size (other_data x) = others.size x

  pub datalen : Store A → ℕ → Option ℤ
  datalen s p = elim (user_data_of s p) [
    | none ↦ some (pos 0)
    | some i ↦ (s.objects i >>= λ o. some (data_size o))
  ]

  -- `copy`, with the object that it copies: `q` is the new packet, which has no data yet.
  abbrev copy_to : ℕ → Option ℕ → Store A → Option (Store A)
  copy_to q none s = some s
  copy_to q (some i) s = do
    o ← s.objects i
    o' ← copy_object o
    let (j, s') = new_object o' s
    some (point_to (some j) q s')

  pub copy : ℕ → Store A → Option (ℕ × Store A)
  copy p s = do
    (q, h) ← Alloc.alloc s.heap
    let s' = record s {
      heap = record h { cells = write h.cells q (record (h.cells q) { bits = (h.cells p).bits }) };
    }
    s'' ← copy_to q (user_data_of s' p) s'
    some (q, s'')
