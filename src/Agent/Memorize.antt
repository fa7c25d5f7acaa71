-- ===== src/Agent/Memorize.antt =====
-- antnet.cc, `memorize`: the memory of a forward ant.
pub mod Path
pub mod Refine
pub mod Loops
use antnet.Common.{
  ℕ, zero, suc, ◌+◌, ◌==◌, leb, if◌then◌else◌, Bool, true, false, Option, none, some, List, [], ◌∷◌,
  get_elem?, set,
}
use antnet.Double.{Double}
use antnet.Packet.{Packet, Memory, max_num_nodes}
use antnet.Agent.State.{Antnet, Event, dropped, rtr_route_loop}

-- The result of a scan of the memory array. `outside` is a read past its end.
pub data Scan : Type 0 where
  found : ℕ → Scan
  missing : Scan
  outside : Scan

module _ {D : Type 0} where
  -- `for(i = 0; i < pkt_mem_size; i++)`, with the entries left to scan and the array from `i` on.
  pub scan : ℕ → ℕ → List (Memory D) → ℕ → Scan
  scan addr zero ms i = missing
  scan addr (suc left) [] i = outside
  scan addr (suc left) (m ∷ ms) i =
      if m.node_addr == addr then found i else scan addr left ms (suc i)

module _ {D : Type 0} ⦃d : Double D⦄ where
  open d use {add, sub}

  -- `for(j = 0; j <= i; j++) trip_time += t`, over the first entries.
  shift : ℕ → D → List (Memory D) → List (Memory D)
  shift zero t ms = ms
  shift (suc n) t [] = []
  shift (suc n) t (m ∷ ms) = record m { trip_time = add m.trip_time t } ∷ shift n t ms

  -- The packet with the loop cut off behind entry `i`.
  cut : Packet D → ℕ → D → Packet D
  unfolding shift
  cut p i t = record p {
    ah = record (p.ah) { pkt_mem_size = suc i; pkt_memory = shift (suc i) t p.ah.pkt_memory };
  }

  -- The packet with a new last entry.
  append : Packet D → ℕ → D → Packet D
  append p addr time = record p {
    ah = record (p.ah) {
      pkt_memory =
          set p.ah.pkt_memory p.ah.pkt_mem_size (record { node_addr = addr; trip_time = time });
      pkt_mem_size = p.ah.pkt_mem_size + 1;
    };
  }

  module _ {R : Type 0} where
    -- `none` is undefined behaviour; the Boolean is the result of the C++ function.
    pub memorize : Antnet R D → D → Packet D → Option (Bool × Packet D × List (Event (Packet D)))
    unfolding scan cut append
    memorize a now p =
        let ah = p.ah in
        let time = sub now ah.pkt_start_time in
        elim (scan a.addr ah.pkt_mem_size ah.pkt_memory 0) [
          | outside ↦ none
          | missing ↦
              if leb max_num_nodes ah.pkt_mem_size
              then some (false, p, dropped p rtr_route_loop ∷ [])
              else some (true, append p a.addr time, [])
          | found i ↦ elim (get_elem? ah.pkt_memory i) [
            | none ↦ none
            | some m ↦ some (true, cut p i (sub time m.trip_time), [])
          ]
        ]
