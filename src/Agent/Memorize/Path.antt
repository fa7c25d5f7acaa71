-- ===== src/Agent/Memorize/Path.antt =====
-- antnet.cc, `memorize`: the memory of a forward ant as a path of nodes.
use antnet.Common.{
  ℕ, zero, suc, ◌+◌, ◌≤◌, ◌<◌, ◌≡◌, refl, ap, inl, inr, ◌==◌, if◌then◌else◌, true, false, Option,
  none, some, List, [], ◌∷◌, ◌++◌, get_elem?, take, length, arith, Bool-cases, ==_iff,
}
use antnet.Packet.{Packet, Memory, max_num_nodes}
use antnet.Agent.Memorize.{Scan, found, missing, outside, scan}

module _ {D : Type 0} where
  abbrev pub nodes : List (Memory D) → List ℕ
  nodes [] = []
  nodes (m ∷ ms) = m.node_addr ∷ nodes ms

  -- The nodes that an ant remembers, from its source on.
  abbrev pub path : Packet D → List ℕ
  path p = nodes (take p.ah.pkt_mem_size p.ah.pkt_memory)

  -- The array has its size, and the count of entries lies within it.
  pub record IsArray (p : Packet D) : Type 0 where
    pub size : length p.ah.pkt_memory ≡ max_num_nodes
    pub within : p.ah.pkt_mem_size ≤ max_num_nodes

-- The specification: a new node is appended, and a known one cuts off all behind its visit.
abbrev pub until : ℕ → List ℕ → Option (List ℕ)
until a [] = none
until a (n ∷ ns) =
    if n == a then some (n ∷ []) else elim (until a ns) [ none ↦ none | some ms ↦ some (n ∷ ms) ]

abbrev pub visit : ℕ → List ℕ → List ℕ
visit a ns = elim (until a ns) [ none ↦ ns ++ a ∷ [] | some ms ↦ ms ]

-- What a scan of `left` entries finds, against the nodes of those entries.
abbrev pub ScanIs : ℕ → ℕ → List ℕ → Scan → Type 0
ScanIs a i ns outside = ⊥
ScanIs a i ns missing = until a ns ≡ none
ScanIs a i ns (found k) =
    (j : ℕ) × (k ≡ i + j)
    × (j < length ns)
    × (until a ns ≡ some (take (suc j) ns))
    × (get_elem? ns j ≡ some a)

ScanIs-cons :
    (a i n : ℕ) (ns : List ℕ) (s : Scan)
    → (n == a) ≡ false
    → ScanIs a (suc i) ns s
    → ScanIs a i (n ∷ ns) s
ScanIs-cons a i n ns outside miss h = h
ScanIs-cons a i n ns missing miss h = rw (miss, h)
ScanIs-cons a i n ns (found k) miss (j, at, lt, cut_off, here) =
    (suc j, omega arith, omega arith, rw (miss, cut_off), here)

ScanIs-hit : (a i n : ℕ) (ns : List ℕ) → (n == a) ≡ true → ScanIs a i (n ∷ ns) (found i)
ScanIs-hit a i n ns hit = (0, omega arith, omega arith, rw hit, ap some ((==_iff n a).0 hit))

module _ {D : Type 0} where
  pub length-nodes : (ms : List (Memory D)) → length (nodes ms) ≡ length ms
  length-nodes [] = refl
  length-nodes (m ∷ ms) = ap suc (length-nodes ms)

  pub nodes-append : (xs ys : List (Memory D)) → nodes (xs ++ ys) ≡ nodes xs ++ nodes ys
  nodes-append [] ys = refl
  nodes-append (x ∷ xs) ys = ap (◌∷◌ x.node_addr) (nodes-append xs ys)

  pub take-nodes : (n : ℕ) (ms : List (Memory D)) → nodes (take n ms) ≡ take n (nodes ms)
  take-nodes zero ms = refl
  take-nodes (suc n) [] = refl
  take-nodes (suc n) (m ∷ ms) = ap (◌∷◌ m.node_addr) (take-nodes n ms)

  pub scan-ScanIs :
      (a left : ℕ) (ms : List (Memory D)) (i : ℕ)
      → left ≤ length ms
      → ScanIs a i (nodes (take left ms)) (scan a left ms i)
  unfolding scan
  scan-ScanIs a zero ms i h = refl
  scan-ScanIs a (suc left) [] i h = absurd (omega arith)
  scan-ScanIs a (suc left) (m ∷ ms) i h = elim (Bool-cases (m.node_addr == a)) [
    | inl hit ↦ rw (hit, scan) (ScanIs-hit a i m.node_addr (nodes (take left ms)) hit)
    | inr miss ↦
        rw (miss, scan)
          (ScanIs-cons a i m.node_addr (nodes (take left ms)) (scan a left ms (suc i)) miss
            (scan-ScanIs a left ms (suc i) (omega arith)))
  ]
