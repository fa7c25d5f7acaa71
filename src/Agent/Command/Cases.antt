-- ===== src/Agent/Command/Cases.antt =====
-- antnet.cc, `command`: what starting an agent does.
use Prim.Native.String.{String}
use antnet.Common.{
  ℕ, ◌≡◌, sym, ap, ◌∙◌, subst, inl, inr, ◌==◌, length, Bool-cases, refl, Option, some, List, [],
  ◌∷◌, true,
}
use antnet.Double.{Double, nought}
use antnet.Double.Laws.{IsExact}
use antnet.Rtable.Invariant.{IsTable, empty-IsTable}
use antnet.Agent.State.{Antnet, Env, get_num_neighbors, get_num_neighbors-length}
use antnet.Agent.Send.{resched}
use antnet.Agent.Init.{initialize_rtable}
use antnet.Agent.Init.Rows.{initialize_rtable-IsTable}
use antnet.Agent.Command.{Result, tcl_ok, equal_nocase, done, start, command}

module _ {R D : Type 0} ⦃d : Double D⦄ where
  -- What "start" leaves of the agent as it was, and the rows that it makes.
  pub record IsStarted (env : Env R D) (a a' : Antnet R D) : Type 0 where
    pub same_addr : a'.addr ≡ a.addr
    pub same_ra_addr : a'.ra_addr ≡ a.ra_addr
    pub same_factor : a'.r_factor ≡ a.r_factor
    pub made : a'.rtable.rt ≡ (initialize_rtable env a).2.rtable.rt

  pub start-IsStarted : (env : Env R D) (a : Antnet R D) → IsStarted env a (start env a).agent
  unfolding start done resched initialize_rtable
  start-IsStarted env a = elim (Bool-cases (get_num_neighbors env a.addr == 0)) [
    | inl lone ↦ record {
      same_addr = rw lone refl;
      same_ra_addr = rw lone refl;
      same_factor = rw lone refl;
      made = refl;
    }
    | inr some_nb ↦ record {
      same_addr = rw some_nb refl;
      same_ra_addr = rw some_nb refl;
      same_factor = rw some_nb refl;
      made = refl;
    }
  ]

  -- Without neighbours there are no rows.
  initialize_rtable-lone :
      (env : Env R D) (a : Antnet R D)
      → env.neighbor_list a.addr ≡ []
      → (initialize_rtable env a).2 ≡ a
  unfolding initialize_rtable
  initialize_rtable-lone env a e =
      let none_there : get_num_neighbors env a.addr ≡ 0 =
        get_num_neighbors-length env a.addr ∙ ap length e in
      rw none_there refl

module _ {R D : Type 0} ⦃d : Double D⦄ (laws : IsExact D) where
  pub start-IsTable :
      (env : Env R D) (a : Antnet R D) (nbrs : List ℕ)
      → env.neighbor_list a.addr ≡ nbrs
      → a.rtable.rt ≡ []
      → IsTable nbrs (start env a).agent.rtable.rt
  start-IsTable env a [] e empty = empty-IsTable [] (start env a).agent.rtable.rt (
      (start-IsStarted env a).made
      ∙ ap (λ (x : Antnet R D). x.rtable.rt) (initialize_rtable-lone env a e)
      ∙ empty)
  start-IsTable env a (n ∷ ns) e empty =
      subst (IsTable (n ∷ ns)) (sym (start-IsStarted env a).made)
        (initialize_rtable-IsTable laws env a n ns e empty)

  -- "start", in upper or lower case, on an agent with an empty table and a neighbour succeeds: the
  -- table gets its rows, which are distributions over the neighbours' links, in exact arithmetic, the
  -- timer is due at once, and NUM_NODES is the agent's number of nodes.
  pub command-IsTable :
      (env : Env R D) (lookup : String → Option ℕ)
      (base : List String → ℕ → Antnet R D → Option (Result R D)) (num_nodes n : ℕ) (a : Antnet R D)
      (argv0 argv1 : String) (ns : List ℕ)
      → equal_nocase argv1 "start" ≡ true
      → env.neighbor_list a.addr ≡ n ∷ ns
      → a.rtable.rt ≡ []
      → (r : Result R D) × (command env lookup base num_nodes a (argv0 ∷ argv1 ∷ []) ≡ some r)
        × (r.status ≡ tcl_ok)
        × (r.num_nodes ≡ a.num_nodes)
        × (r.agent.ant_timer ≡ some nought)
        × IsTable (n ∷ ns) r.agent.rtable.rt
  unfolding command start done resched initialize_rtable
  command-IsTable env lookup base num_nodes n a argv0 argv1 ns is_start e empty = (
    start env a,
    rw is_start refl,
    refl,
    refl,
    refl,
    initialize_rtable-IsTable laws env a n ns e empty,
  )
