-- ===== src/Rtable.antt =====
-- antnet_rtable.h and antnet_rtable.cc: the routing table of one node. The random number generator
-- of ns-2 and the length of a link's queue are parameters.
pub mod Entries
pub mod Update
pub mod Invariant
pub mod Destination
pub mod Choice
pub mod Probability
pub mod Sampling
mod Tests
use antnet.Common.{
  ℕ, zero, suc, ◌+◌, ◌==◌, if◌then◌else◌, Option, none, some, List, [], ◌∷◌, ◌++◌, map,
}
use antnet.Common.Int.{ℤ, pos}
use antnet.Common.Map.{Map, find, insert}
use antnet.Double.{Double, nought, one}
use antnet.Math.{link_probability, reinforce_pheromone, evaporate_pheromone}

-- `class RNG` of ns-2: a seeded state, and draws from [0, n) that move it on.
pub record Rng (R D : Type 0) : Type 0 where
  pub seeded : ℕ → R
  pub uniform_int : R → ℕ → ℕ × R
  pub uniform : R → D → D × R

pub record Pheromone (D : Type 0) : Type 0 where
  pub neighbor : ℕ
  pub phvalue : D

abbrev pub PheromoneMatrix : Type 0 → Type 0
PheromoneMatrix D = List (Pheromone D)

abbrev pub RtableT : Type 0 → Type 0
RtableT D = Map (PheromoneMatrix D)

pub record AntnetRtable (R D : Type 0) : Type 0 where
  pub rt : RtableT D
  pub rnum : R

module _ {R D : Type 0} where
  -- The constructor. The seed is the simulation time in whole seconds, the address and 1.
  unfoldable pub antnet_rtable : Rng R D → ℕ → ℕ → AntnetRtable R D
  antnet_rtable g seconds node_addr = record { rt = []; rnum = g.seeded (seconds + node_addr + 1) }

module _ {D : Type 0} where
  pub add_entry : RtableT D → ℕ → ℕ → D → RtableT D
  add_entry rt dest next phvalue = elim (find dest rt) [
    | none ↦ insert dest (temp_pheromone ∷ []) rt
    | some temp ↦ insert dest (temp ++ temp_pheromone ∷ []) rt
  ]
    where
      temp_pheromone : Pheromone D
      temp_pheromone = record { neighbor = next; phvalue = phvalue }

  -- The lines that `print` appends to the file: destination, neighbour, pheromone.
  print_row : ℕ → PheromoneMatrix D → List (ℕ × ℕ × D)
  print_row dest [] = []
  print_row dest (e ∷ row) = (dest, e.neighbor, e.phvalue) ∷ print_row dest row

  pub print : RtableT D → List (ℕ × ℕ × D)
  unfolding print_row
  print [] = []
  print ((dest, row) ∷ rt) = print_row dest row ++ print rt

module _ {R D : Type 0} (g : Rng R D) where
  -- `do … while (tmp_int == source)`, with fuel: `none` means that the fuel ran out.
  pub calc_destination : ℕ → AntnetRtable R D → ℕ → ℕ → Option (ℕ × AntnetRtable R D)
  calc_destination zero t num_nodes source = none
  calc_destination (suc fuel) t num_nodes source =
      let (tmp_int, rnum) = g.uniform_int t.rnum num_nodes in
      let t' = record t { rnum = rnum } in
      let again = calc_destination fuel t' num_nodes source in
      if tmp_int == source then again else some (tmp_int, t')

module _ {D : Type 0} ⦃d : Double D⦄ where
  open d use {of_int, ratio, add, lt, le, eq}

  -- ALPHA
  abbrev pub alpha : D
  alpha = ratio 45 100

  -- The queue length of every link, in the row's order.
  queue_lens : (ℕ → ℕ → ℕ) → ℕ → PheromoneMatrix D → List D
  queue_lens queue source = map λ e. of_int (pos (queue source e.neighbor))

  total_queue : D → List D → D
  total_queue qtotal [] = qtotal
  total_queue qtotal (q ∷ qs) = total_queue (add qtotal q) qs

  -- Each candidate link with its selection probability.
  probs : D → ℕ → PheromoneMatrix D → List D → List (ℕ × D)
  probs qtotal num_neighbors (e ∷ row) (q ∷ qs) =
      (e.neighbor, link_probability e.phvalue alpha q qtotal (pos num_neighbors))
      ∷ probs qtotal num_neighbors row qs
  probs qtotal num_neighbors _ _ = []

  pub total_excl_parent : ℕ → D → List (ℕ × D) → D
  total_excl_parent parent total [] = total
  total_excl_parent parent total ((n, p) ∷ cs) =
      total_excl_parent parent (if n == parent then total else add total p) cs

  -- The sampling loop, from the candidate that it stands at.
  pub sample : ℕ → D → D → ℕ → List (ℕ × D) → ℕ
  sample parent x cumulative last_candidate [] = last_candidate
  sample parent x cumulative last_candidate ((n, p) ∷ cs) =
      let skipped = sample parent x cumulative last_candidate cs in
      let cumulative' = add cumulative p in
      let further = sample parent x cumulative' n cs in
      if n == parent then skipped else (if lt x cumulative' then n else further)

  pub candidates : (ℕ → ℕ → ℕ) → ℕ → ℕ → PheromoneMatrix D → List (ℕ × D)
  unfolding queue_lens total_queue probs
  candidates queue source num_neighbors row =
      let queue_len = queue_lens queue source row in
      let sum = total_queue nought queue_len in
      let qtotal = if eq sum nought then one else sum in probs qtotal num_neighbors row queue_len

  module _ {R : Type 0} (g : Rng R D) where
    pub calc_next : AntnetRtable R D → (ℕ → ℕ → ℕ) → ℕ → ℕ → ℕ → ℕ → ℕ × AntnetRtable R D
    calc_next t queue source dest parent num_neighbors = elim (find dest t.rt) [
      | none ↦ (parent, t)
      | some row ↦
          let cs = candidates queue source num_neighbors row in
          let total = total_excl_parent parent nought cs in
          let (x, rnum) = g.uniform t.rnum total in
          if le total nought
          then (parent, t)
          else (sample parent x nought parent cs, record t { rnum = rnum })
    ]

  -- One link of the row: reinforced if the ant travelled it, evaporated otherwise.
  update_link : ℕ → D → Pheromone D → Pheromone D
  update_link next r_factor e = record e {
    phvalue =
        if e.neighbor == next
        then reinforce_pheromone e.phvalue r_factor
        else evaporate_pheromone e.phvalue r_factor;
  }

  pub update_row : ℕ → D → PheromoneMatrix D → PheromoneMatrix D
  unfolding update_link
  update_row next r_factor [] = []
  update_row next r_factor (e ∷ row) = update_link next r_factor e ∷ update_row next r_factor row

  pub update : RtableT D → ℕ → ℕ → D → RtableT D
  update rt dest next r_factor = elim (find dest rt) [
    | none ↦ rt
    | some row ↦ insert dest (update_row next r_factor row) rt
  ]
