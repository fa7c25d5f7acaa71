-- ===== src/Packet/Alloc.antt =====
-- common/packet.h: `Packet::alloc`, `refcopy` and `free`, with the list of free packets. Of a
-- packet's header bytes the common header stands for all; `HdrCmn` is cleared like the others.
pub mod FreeList
pub mod Holders
mod Tests
use antnet.Common.{
  ℕ, zero, suc, ◌+◌, ◌==◌, if◌then◌else◌, Bool, true, false, Option, none, some, List, [], ◌∷◌,
  ◌>>=◌,
}
use antnet.Common.Int.{ℤ, pos, negsuc}
use antnet.Packet.{HdrCmn, Dir, down}

-- One `Packet` object; pointers are numbers, and the null pointer is `none`.
pub record Cell : Type 0 where
  pub bits : HdrCmn
  pub user_data : Option ℕ
  pub uid : ℤ
  pub fflag : Bool
  pub ref_count : ℕ
  pub next : Option ℕ

-- The objects, `free_`, and how many objects `new` has made.
pub record Heap : Type 0 where
  pub cells : ℕ → Cell
  pub free_list : Option ℕ
  pub made : ℕ

-- `init`
abbrev pub zeroed : HdrCmn
zeroed = record {
  ptype = 0;
  size = 0;
  uid = 0;
  error = 0;
  direction = Dir.none;
  next_hop = pos 0;
  addr_type = 0;
  last_hop = pos 0;
  num_forwards = 0;
}

-- The header of a new packet.
abbrev pub fresh_bits : HdrCmn
fresh_bits = record (zeroed) { next_hop = negsuc 1; last_hop = negsuc 1; direction = down }

abbrev pub write : (ℕ → Cell) → ℕ → Cell → ℕ → Cell
write cells p c q = if p == q then c else cells q

pub is_null : Option ℕ → Bool
is_null none = true
is_null (some p) = false

-- `uid_ <= 0`
pub not_positive : ℤ → Bool
not_positive (pos zero) = true
not_positive (pos (suc n)) = false
not_positive (negsuc n) = true

-- A free packet is taken; `none` is a failed assertion.
pub reuse : ℕ → Heap → Option (ℕ × Heap)
unfolding is_null
reuse p h =
    let c = h.cells p in
    if c.fflag
    then none
    else (if is_null c.user_data
        then some (
          p,
          record h {
            cells =
                write h.cells p
                  (record c { bits = fresh_bits; uid = pos 0; fflag = true; next = none });
            free_list = c.next;
          },
        )
        else none)

-- A new one is made; `new` does not fail.
pub make : Heap → ℕ × Heap
make h = (
  h.made,
  record h {
    cells = write h.cells h.made (record {
      bits = fresh_bits;
      user_data = none;
      uid = pos 0;
      fflag = true;
      ref_count = 0;
      next = none;
    });
    made = h.made + 1;
  },
)

pub alloc : Heap → Option (ℕ × Heap)
unfolding reuse make
alloc h = elim h.free_list [ none ↦ some (make h) | some p ↦ reuse p h ]

pub refcopy : ℕ → Heap → Heap
refcopy p h =
    let c = h.cells p in
    record h { cells = write h.cells p (record c { ref_count = c.ref_count + 1 }) }

-- The packet of the last holder goes to the list of free packets.
pub release : ℕ → Heap → Option Heap
unfolding not_positive
release p h =
    let c = h.cells p in
    if not_positive c.uid
    then some (record h {
      cells =
          write h.cells p
            (record c { user_data = none; bits = zeroed; next = h.free_list; fflag = false });
      free_list = some p;
    })
    else none

pub count_down : ℕ → ℕ → Heap → Option Heap
unfolding release
count_down zero p h = release p h
count_down (suc n) p h =
    some (record h { cells = write h.cells p (record (h.cells p) { ref_count = n }) })

pub free : ℕ → Heap → Option Heap
unfolding count_down
free p h = let c = h.cells p in if c.fflag then count_down c.ref_count p h else some h
