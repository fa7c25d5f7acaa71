-- ===== src/Agent/Command.antt =====
-- antnet.cc, `command`: what Tcl can tell an agent. The table of Tcl's objects, the `command` of the
-- base class and the node class of ns-2 are parameters.
pub mod Cases
use Prim.Native.String.{String}
use antnet.Common.{
  ℕ, zero, suc, ◌+◌, ◌==◌, leb, if◌then◌else◌, ◌&&◌, ◌||◌, Bool, true, false, Option, none, some,
  List, [], ◌∷◌, map, ◌>>=◌, Text, codes, same_codes,
}
use text.Mathlib.Text as Text
use antnet.Double.{Double, nought}
use antnet.Rtable.{print}
use antnet.Agent.State.{Antnet, Env}
use antnet.Agent.Send.{resched}
use antnet.Agent.Init.{initialize_rtable}

-- `tolower`, for ASCII.
abbrev pub to_lower : ℕ → ℕ
to_lower c = if leb b'A' c && leb c b'Z' then c + 32 else c

-- `strcasecmp(s, t) == 0` and `strcmp(s, t) == 0`
unfoldable pub equal_nocase : String → String → Bool
equal_nocase s t = same_codes (map to_lower (codes s)) (map to_lower (codes t))

unfoldable pub equal : String → String → Bool
equal s t = same_codes (codes s) (codes t)

pub data Status : Type 0 where
  tcl_ok tcl_error : Status

-- The status of a pointer that `lookup` returned.
pub found : Option ℕ → Status
found none = tcl_error
found (some object) = tcl_ok

-- What a command leaves: the status, `NUM_NODES`, the agent, the lines that it appends to
-- `file_rtable` below the header line with the address, and the nodes that it makes neighbours.
pub record Result (R D : Type 0) : Type 0 where
  pub status : Status
  pub num_nodes : ℕ
  pub agent : Antnet R D
  pub printed : Option (ℕ × List (ℕ × ℕ × D))
  pub linked : List (ℕ × ℕ)

module _ {R D : Type 0} where
  pub done : Status → ℕ → Antnet R D → Result R D
  done status num_nodes a = record {
    status = status;
    num_nodes = num_nodes;
    agent = a;
    printed = none;
    linked = [];
  }

  -- `ant_timer_.cancel()`
  pub cancel : Antnet R D → Antnet R D
  cancel a = record a { ant_timer = none }

  -- `n1->addNeighbor(n2)` and back; a null pointer is undefined behaviour.
  pub add_neighbor : Option ℕ → Option ℕ → ℕ → Antnet R D → Option (Result R D)
  unfolding done
  add_neighbor n1 n2 num_nodes a = do
    node1 ← n1
    node2 ← n2
    some (record (done tcl_ok num_nodes a) { linked = (node1, node2) ∷ (node2, node1) ∷ [] })

module _ {R D : Type 0} ⦃d : Double D⦄ where
  pub start : Env R D → Antnet R D → Result R D
  unfolding done
  start env a =
      let (num_nodes, warned, a') = initialize_rtable env a in
      done tcl_ok num_nodes (resched nought a')

  pub command :
      Env R D
      → (String → Option ℕ)
      → (List String → ℕ → Antnet R D → Option (Result R D))
      → ℕ
      → Antnet R D
      → List String
      → Option (Result R D)
  unfolding equal_nocase equal done cancel add_neighbor found start
  command env lookup base num_nodes a (argv0 ∷ argv1 ∷ []) =
      let pass = base (argv0 ∷ argv1 ∷ []) num_nodes a in
      if equal_nocase argv1 "start"
      then some (start env a)
      else (if equal_nocase argv1 "stop"
          then some (done tcl_ok num_nodes (cancel a))
          else (if equal_nocase argv1 "print_rtable"
              then some
                  (record (done tcl_ok num_nodes a) { printed = some (a.addr, print a.rtable.rt) })
              else pass))
  command env lookup base num_nodes a (argv0 ∷ argv1 ∷ argv2 ∷ []) =
      let pass = base (argv0 ∷ argv1 ∷ argv2 ∷ []) num_nodes a in
      let object = lookup argv2 in
      if equal argv1 "port-dmux"
      then some (done (found object) num_nodes (record a { dmux = object }))
      else (if equal argv1 "log-target" || equal argv1 "tracetarget"
          then some (done (found object) num_nodes (record a { logtarget = object }))
          else pass)
  command env lookup base num_nodes a (argv0 ∷ argv1 ∷ argv2 ∷ argv3 ∷ []) =
      let pass = base (argv0 ∷ argv1 ∷ argv2 ∷ argv3 ∷ []) num_nodes a in
      if equal argv1 "add-neighbor"
      then add_neighbor (lookup argv2) (lookup argv3) num_nodes a
      else pass
  command env lookup base num_nodes a argv = base argv num_nodes a

  -- The lines of `print_neighbors`: the addresses, then one line for each neighbour.
  pub print_neighbors : Env R D → Antnet R D → (ℕ × ℕ) × List ℕ
  print_neighbors env a = ((a.addr, a.ra_addr), env.neighbor_list a.addr)
