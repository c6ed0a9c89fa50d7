-- ===== src/Cfg/Traverse.antt =====
-- `ancestors`, `successors` and `update_reachable` of `BaseCFG` in
-- guppylang-internals/src/guppylang_internals/cfg/cfg.py.
pub mod Reaches
pub mod Weight
pub mod Bfs
pub mod Flags
use guppylang.Common.{
  ℕ, zero, suc, Bool, true, false, Option, none, some, List, [], ◌∷◌, ◌++◌, if◌then◌else◌, nat_eq,
}
use guppylang.Common.Sets.{elem, without, update_with}
use guppylang.Common.Loop.{Outcome, work_loop, map_outcome}
use guppylang.Cfg.Graph.{Links, Graph, update}
use guppylang.Cfg.Analysis.{pop_any, is_empty}

-- The blocks that the generator yields, from a queue and the visited blocks.
unfoldable pub breadth_first : (ℕ → List ℕ) → ℕ → List ℕ → List ℕ → Option (List ℕ)
breadth_first next zero queue visited = none
breadth_first next (suc fuel) [] visited = some []
breadth_first next (suc fuel) (bb ∷ queue) visited =
    let seen = breadth_first next fuel queue visited in
    let rest = breadth_first next fuel (queue ++ next bb) (bb ∷ visited) in
    if elem bb visited then seen else elim rest [ none ↦ none | some bbs ↦ some (bb ∷ bbs) ]

abbrev pub ancestors : Graph → ℕ → List ℕ → Option (List ℕ)
ancestors g fuel bbs = breadth_first (λ b. (g.links b).predecessors) fuel bbs []

abbrev pub successors : Graph → ℕ → List ℕ → Option (List ℕ)
successors g fuel bbs = breadth_first (λ b. (g.links b).successors) fuel bbs []

pub record ReachState : Type 0 where
  pub links : ℕ → Links
  pub queue : List ℕ

-- The body of the loop of `update_reachable`.
unfoldable pub reach_step : (ℕ → List ℕ → ℕ) → ℕ → ReachState → Option ReachState
reach_step choose time s = elim s.queue [
  | [] ↦ some s
  | q ∷ qs ↦
      let bb = pop_any (choose time) q qs in
      let rest = without bb s.queue in
      if (s.links bb).reachable
      then some (record s { queue = rest })
      else some (record {
        links = update s.links bb (record (s.links bb) { reachable = true });
        queue = update_with (s.links bb).successors rest;
      })
]

unfoldable pub update_reachable : (ℕ → List ℕ → ℕ) → ℕ → Graph → Outcome Graph
update_reachable choose fuel g =
    map_outcome (λ s. record g { links = s.links })
      (work_loop (λ s. is_empty s.queue) (reach_step choose) fuel
        (record { links = g.links; queue = g.entry_bb ∷ [] }))
