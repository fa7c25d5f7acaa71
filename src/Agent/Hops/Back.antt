-- ===== src/Agent/Hops/Back.antt =====
-- antnet.cc, `create_backward_ant_pkt` and `backward_ant_pkt`: a backward ant goes to the node before
-- this one on the path.
use antnet.Common.{
  ℕ, zero, suc, ◌≤◌, ◌<◌, ◌≡◌, ◌≢◌, ap, some, List, [], ◌∷◌, ◌++◌, get_elem?, take, length, arith,
  Lacks, ==_iff, get_elem?-lt, ◌-◌, ltb, length-take, length-append, false,
}
use native.Mathlib.Decide.{ℕ_discrete}
use antnet.Packet.{Memory, Packet}
use antnet.Agent.State.{Antnet, sent}
use antnet.Agent.Memorize.{found}
use antnet.Agent.Memorize.Path.{path, IsArray, length-nodes}
use antnet.Agent.Hops.{hop_up, turned, scan_back, backward_ant_pkt, create_backward_ant_pkt}
use antnet.Agent.Hops.Slots.{Holds, here-Holds, next-Holds, behind-ne, length-split}

module _ {D : Type 0} where
  scan_back-found :
      (a j n : ℕ) (ms : List (Memory D))
      → j < n
      → n ≤ length ms
      → Holds ms j a
      → ((i : ℕ) (m : Memory D) → j < i → i < n → get_elem? ms i ≡ some m → m.node_addr ≢ a)
      → scan_back a n ms ≡ found j
  unfolding scan_back
  scan_back-found a j zero ms h len at behind = absurd (omega arith)
  scan_back-found a j (suc i) ms h len at behind = elim (ℕ_discrete i j) [
    | yes e ↦ rw (e, scan_back, at.got, (==_iff _ a).1 at.node) (ap found e)
    | no ne ↦
        let (m, got) = get_elem?-lt i ms (omega arith) in
        rw (scan_back, got)
          (ground (
            arith,
            ==_iff m.node_addr a,
            behind i m (omega arith) (omega arith) got,
            scan_back-found a j i ms (omega arith) (omega arith) at
                (λ k n lt up e. behind k n lt (omega arith) e),
          ))
  ]

module _ {R D : Type 0} where
  -- A backward ant at a node that is not the first of its path, and not again behind it, is sent on
  -- to the node before it; nothing else of the packet's path changes.
  pub backward_ant_pkt-prev :
      (a : Antnet R D) (p : Packet D) (xs ys : List ℕ) (prev : ℕ)
      → IsArray p
      → path p ≡ xs ++ prev ∷ a.addr ∷ ys
      → Lacks a.addr ys
      → backward_ant_pkt a p ≡ some (sent (hop_up p a.addr prev) ∷ [])
  unfolding backward_ant_pkt
  backward_ant_pkt-prev a p xs ys prev arr split l =
      let k = p.ah.pkt_mem_size in
      let ms = p.ah.pkt_memory in
      let fits : k ≤ length ms = omega (arith, arr.size, arr.within) in
      let here = here-Holds k ms xs ys prev a.addr split in
      let scanned : scan_back a.addr k ms ≡ found (suc (length xs)) =
        scan_back-found a.addr (suc (length xs)) k ms
          (length-split k ms xs ys prev a.addr split fits) fits
          (next-Holds k ms xs ys prev a.addr split)
          (λ i m lt up e. behind-ne k ms xs ys prev a.addr split a.addr i m l lt up e) in
      rw (scanned, backward_ant_pkt, here.got)
        (ap (λ n. some (sent (hop_up p a.addr n) ∷ [])) here.node)

  -- At the last node of a path of two nodes or more, the destination turns the ant round: source
  -- and destination change places, and the ant goes to the node before this one.
  pub create_backward_ant_pkt-prev :
      (a : Antnet R D) (p : Packet D) (xs : List ℕ) (prev last : ℕ)
      → IsArray p
      → path p ≡ xs ++ prev ∷ last ∷ []
      → create_backward_ant_pkt a p ≡ some (sent (hop_up (turned p) a.addr prev) ∷ [])
  unfolding create_backward_ant_pkt
  create_backward_ant_pkt-prev a p xs prev last arr split =
      let k = p.ah.pkt_mem_size in
      let ms = p.ah.pkt_memory in
      let fits : k ≤ length ms = omega (arith, arr.size, arr.within) in
      let here = here-Holds k ms xs [] prev last split in
      let longer = length-split k ms xs [] prev last split fits in
      let index : k - 2 ≡ length xs = omega (
        arith,
        length-nodes (take k ms),
        length-take k ms fits,
        ap length split,
        length-append xs (prev ∷ last ∷ []),
      ) in
      let enough : ltb k 2 ≡ false = ground arith in
      rw (enough, create_backward_ant_pkt, index, here.got)
        (ap (λ n. some (sent (hop_up (turned p) a.addr n) ∷ [])) here.node)
