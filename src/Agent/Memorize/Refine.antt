-- ===== src/Agent/Memorize/Refine.antt =====
-- antnet.cc, `memorize`, against its specification `visit`.
use antnet.Common.{
  ℕ, zero, suc, ◌+◌, ◌<◌, ◌≡◌, refl, sym, ap, ◌∙◌, ◌⊎◌, inl, inr, leb, true, false, none, some,
  List, [], ◌∷◌, set, take, length, arith, Bool-cases, length-set, take-set, length-take, take-take,
  get_elem?-lt, subst,
}
use antnet.Double.{Double}
use antnet.Packet.{Packet, Memory, max_num_nodes}
use antnet.Agent.State.{Antnet, dropped, rtr_route_loop}
use antnet.Agent.Memorize.{Scan, found, missing, outside, scan, shift, cut, append, memorize}
use antnet.Agent.Memorize.Path.{
  nodes, path, IsArray, until, visit, ScanIs, length-nodes, nodes-append, take-nodes, scan-ScanIs,
}

module _ {D : Type 0} where
  -- `p'` is `p` with `addr` visited; every other header field is as before.
  pub record Visited (addr : ℕ) (p p' : Packet D) : Type 0 where
    pub visited : path p' ≡ visit addr (path p)
    pub array : IsArray p'
    pub same_ch : p'.ch ≡ p.ch
    pub same_ih : p'.ih ≡ p.ih
    pub same_src : p'.ah.pkt_src ≡ p.ah.pkt_src
    pub same_dst : p'.ah.pkt_dst ≡ p.ah.pkt_dst

module _ {D : Type 0} ⦃d : Double D⦄ where
  open d use {add, sub}

  nodes-shift : (n : ℕ) (t : D) (ms : List (Memory D)) → nodes (shift n t ms) ≡ nodes ms
  unfolding shift
  nodes-shift zero t ms = refl
  nodes-shift (suc n) t [] = refl
  nodes-shift (suc n) t (m ∷ ms) = ap (◌∷◌ m.node_addr) (nodes-shift n t ms)

  length-shift : (n : ℕ) (t : D) (ms : List (Memory D)) → length (shift n t ms) ≡ length ms
  length-shift n t ms =
      sym (length-nodes (shift n t ms)) ∙ ap length (nodes-shift n t ms) ∙ length-nodes ms

  cut-Visited :
      (addr : ℕ) (p : Packet D) (j : ℕ) (t : D)
      → IsArray p
      → j < p.ah.pkt_mem_size
      → until addr (path p) ≡ some (take (suc j) (path p))
      → Visited addr p (cut p j t)
  unfolding cut
  cut-Visited addr p j t a lt e = record {
    visited =
        take-nodes (suc j) (shift (suc j) t p.ah.pkt_memory)
        ∙ ap (take (suc j)) (nodes-shift (suc j) t p.ah.pkt_memory)
        ∙ sym (take-nodes (suc j) p.ah.pkt_memory)
        ∙ ap nodes (sym (take-take (suc j) p.ah.pkt_mem_size p.ah.pkt_memory lt))
        ∙ take-nodes (suc j) (take p.ah.pkt_mem_size p.ah.pkt_memory)
        ∙ rw (e, visit) refl;
    array = record {
      size = length-shift (suc j) t p.ah.pkt_memory ∙ a.size;
      within = omega (arith, a.within);
    };
    same_ch = refl;
    same_ih = refl;
    same_src = refl;
    same_dst = refl;
  }

  append-Visited :
      (addr : ℕ) (p : Packet D) (time : D)
      → IsArray p
      → p.ah.pkt_mem_size < max_num_nodes
      → until addr (path p) ≡ none
      → Visited addr p (append p addr time)
  unfolding append
  append-Visited addr p time a lt e = record {
    visited =
        ap (λ n. nodes (take n (set p.ah.pkt_memory p.ah.pkt_mem_size entry))) one_more
        ∙ ap nodes (take-set p.ah.pkt_mem_size p.ah.pkt_memory entry (omega (arith, a.size)))
        ∙ nodes-append (take p.ah.pkt_mem_size p.ah.pkt_memory) (entry ∷ [])
        ∙ rw (e, visit) refl;
    array = record {
      size = length-set p.ah.pkt_memory p.ah.pkt_mem_size entry ∙ a.size;
      within = omega arith;
    };
    same_ch = refl;
    same_ih = refl;
    same_src = refl;
    same_dst = refl;
  }
    where
      entry : Memory D
      entry = record { node_addr = addr; trip_time = time }

      one_more : p.ah.pkt_mem_size + 1 ≡ suc p.ah.pkt_mem_size
      one_more = omega arith

  module _ {R : Type 0} where
    -- On a packet with a well-formed array `memorize` is defined. Either it reports success, and
    -- the path is that of the specification: a new node is appended, a known one cuts off the loop;
    -- or the path is full and lacks the node, and the packet is dropped once, unchanged.
    pub memorize-Visited :
        (a : Antnet R D) (now : D) (p : Packet D)
        → IsArray p
        → ((p' : Packet D) × (memorize a now p ≡ some (true, p', [])) × Visited a.addr p p')
          ⊎ ((memorize a now p ≡ some (false, p, dropped p rtr_route_loop ∷ []))
              × (until a.addr (path p) ≡ none)
              × (length (path p) ≡ max_num_nodes))
    unfolding memorize
    memorize-Visited a now p arr = go (scan a.addr p.ah.pkt_mem_size p.ah.pkt_memory 0) refl (
        scan-ScanIs a.addr p.ah.pkt_mem_size p.ah.pkt_memory 0
          (omega (arith, arr.size, arr.within)))
      where
        full : length (path p) ≡ p.ah.pkt_mem_size
        full =
            length-nodes (take p.ah.pkt_mem_size p.ah.pkt_memory)
            ∙ length-take p.ah.pkt_mem_size p.ah.pkt_memory (omega (arith, arr.size, arr.within))

        time : D
        time = sub now p.ah.pkt_start_time

        go :
            (s : Scan)
            → scan a.addr p.ah.pkt_mem_size p.ah.pkt_memory 0 ≡ s
            → ScanIs a.addr 0 (path p) s
            → ((p' : Packet D) × (memorize a now p ≡ some (true, p', [])) × Visited a.addr p p')
              ⊎ ((memorize a now p ≡ some (false, p, dropped p rtr_route_loop ∷ []))
                  × (until a.addr (path p) ≡ none)
                  × (length (path p) ≡ max_num_nodes))
        go outside e h = absurd h
        go missing e h = elim (Bool-cases (leb max_num_nodes p.ah.pkt_mem_size)) [
          | inl over ↦ inr (rw (e, memorize, over) refl, h, full ∙ ground (arith, arr.within))
          | inr room ↦ inl (
            append p a.addr time,
            rw (e, memorize, room) refl,
            append-Visited a.addr p time arr (ground arith) h,
          )
        ]
        go (found k) e (j, at, lt, cut_off, here) =
            let (m, got) =
              get_elem?-lt k p.ah.pkt_memory (omega (arith, full, arr.size, arr.within)) in
            inl (
              cut p k (sub time m.trip_time),
              rw (e, memorize, got) refl,
              cut-Visited a.addr p k (sub time m.trip_time) arr (omega (arith, full)) (
                  subst (λ i. until a.addr (path p) ≡ some (take (suc i) (path p))) (omega arith)
                    cut_off),
            )
