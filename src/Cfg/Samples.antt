-- ===== src/Cfg/Samples.antt =====
-- The analyses on a small loop, `x = 1; while c: y = x`, and on dummy links.
pub mod Built
pub mod Walks
pub mod Live
pub mod Assigned
pub mod Whole
pub mod Captured
use guppylang.Common.{
  ℕ, ◌+◌, ◌-◌, ◌≤◌, ◌≡◌, ◌≢◌, refl, Bool, true, false, String, Option, none, some, List, [], ◌∷◌,
  arith, Eq, string_eq, nat_eq, inl, inr, ◌⊎◌, if◌then◌else◌, ◌==◌, length,
}
use guppylang.Common.Sets.{elem, is_subset}
use guppylang.Common.Loop.{Outcome, done, work_loop}
use guppylang.Common.Dict.{Dict, get, has, put, merge, from_keys, restrict, same_keys}
use guppylang.Cfg.Graph.{
  Links, Graph, update, no_links, append_successor, new_bb, link, dummy_link, new_cfg,
}
use guppylang.Cfg.Graph.WellLinked.{IsWellLinked, link-IsWellLinked, dummy_link-IsWellLinked}
use guppylang.Cfg.Graph.NewBlock.{
  new_bb_lem, new_cfg-IsWellLinked, IsClosed-backward, IsClosed-forward,
}
use guppylang.Cfg.Stats.{VariableStats, no_stats}
use guppylang.Cfg.Analysis.{
  Analysis, lookups, backward_update, backward_step, run_backward, forward_update, forward_step,
  run_forward,
}
use guppylang.Cfg.Analysis.Closed.{IsClosed}
use guppylang.Cfg.Liveness.{join_live, apply_live, liveness_analysis}
use guppylang.Cfg.Liveness.Correct.{liveness_total, liveness_evidence, liveness_complete}
use guppylang.Cfg.Liveness.Paths.{UsedLater, here, later}
use guppylang.Cfg.Assignment.{
  Assignments, same_assignments, intersection, union, join_assignments, apply_assignments, all_vars,
  assignments, run_unpacked,
}
use guppylang.Cfg.Assignment.Paths.{Unassigned, MayBeAssigned}
use guppylang.Cfg.Assignment.Correct.{
  assignment_total, definite_sound, definite_complete, maybe_sound, maybe_complete,
}

-- Blocks 0 and 1 are entry and exit, 2 is the head of the loop, 3 its body, 4 its tail.
abbrev pub with_head : Graph
with_head = (new_bb (0 ∷ []) new_cfg).1

abbrev pub with_body : Graph
with_body = (new_bb [] with_head).1

abbrev pub with_tail : Graph
with_tail = (new_bb [] with_body).1

abbrev pub loop_graph : Graph
loop_graph = link 4 1 (link 3 2 (link 2 4 (link 2 3 with_tail)))

pub loop_graph-IsWellLinked : IsWellLinked loop_graph
unfolding new_bb append_successor link new_cfg
loop_graph-IsWellLinked =
    let head = new_bb_lem (0 ∷ []) new_cfg refl new_cfg-IsWellLinked in
    let body = new_bb_lem [] with_head refl head.0 in
    let tail = new_bb_lem [] with_body refl body.0 in
    let a = link-IsWellLinked 2 3 with_tail refl refl tail.0 in
    let b = link-IsWellLinked 2 4 (link 2 3 with_tail) refl refl a in
    let c = link-IsWellLinked 3 2 (link 2 4 (link 2 3 with_tail)) refl refl b in
    link-IsWellLinked 4 1 (link 3 2 (link 2 4 (link 2 3 with_tail))) refl refl c

abbrev pub Stats : Type 0
Stats = VariableStats String ℕ

abbrev pub loop_stats : ℕ → Stats
loop_stats b =
    if b == 0
    then record no_stats { assigned = ("x", 10) ∷ [] }
    else if b == 2
    then record no_stats { used = ("c", 20) ∷ [] }
    else if b == 3
    then record no_stats { used = ("x", 31) ∷ []; assigned = ("y", 30) ∷ [] }
    else no_stats

-- Always the first element of the queue.
abbrev pub first_of_queue : ℕ → List ℕ → ℕ
first_of_queue _ _ = 0

abbrev pub live_in_loop : Outcome (ℕ → Option (Dict String ℕ))
live_in_loop =
    run_backward (liveness_analysis loop_stats [] true) loop_graph.links first_of_queue 1000
      loop_graph.bbs

abbrev pub value_at : {A : Type 0} → Outcome (ℕ → Option A) → ℕ → Option A
value_at (done vals) b = vals b
value_at _ b = none

live_at_head : value_at live_in_loop 2 ≡ some (("c", 2) ∷ ("x", 3) ∷ [])
unfolding run_backward work_loop link new_bb append_successor new_cfg backward_step backward_update
    lookups same_keys apply_live merge restrict join_live from_keys get put
live_at_head = refl

-- A dummy link `0 ⇢ 1` as after a `return`, with a use of `x` in the unreachable block 2.
abbrev pub dead_code : Graph
dead_code = dummy_link 0 2 (new_bb [] new_cfg).1

abbrev pub dead_stats : ℕ → Stats
dead_stats b = if b == 2 then record no_stats { used = ("x", 20) ∷ [] } else no_stats

abbrev pub dead_run : (ℕ → List ℕ → ℕ) → Outcome (ℕ → Option (Dict String ℕ))
dead_run choose =
    run_backward (liveness_analysis dead_stats [] true) dead_code.links choose 100 dead_code.bbs

abbrev pub last_of_queue : ℕ → List ℕ → ℕ
last_of_queue _ queue = length queue - 1

-- The two orders of `queue.pop()` give the entry different live variables: a change of block 2 puts
-- its dummy predecessor on the queue in neither.
dead_code_orders :
    (value_at (dead_run first_of_queue) 0 ≡ some (("x", 2) ∷ []))
    × (value_at (dead_run last_of_queue) 0 ≡ some [])
unfolding run_backward work_loop link dummy_link new_bb new_cfg backward_step backward_update
    lookups same_keys apply_live merge restrict join_live from_keys get put
dead_code_orders = (refl, refl)
