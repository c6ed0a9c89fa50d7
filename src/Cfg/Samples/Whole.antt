-- ===== src/Cfg/Samples/Whole.antt =====
-- Witnesses of what is proved of `analyze`.
use guppylang.Common.{ℕ, ◌≤◌, ◌≡◌, refl, true, String, none, [], ◌∷◌, arith, string_eq, nat_eq}
use guppylang.Common.Loop.{Outcome, done, work_loop}
use guppylang.Common.Dict.{get, has, put, merge, from_keys, restrict, same_keys}
use guppylang.Cfg.Graph.{append_successor, new_bb, link, dummy_link, new_cfg}
use guppylang.Cfg.Analysis.{
  lookups, backward_update, backward_step, run_backward, forward_update, forward_step, run_forward,
}
use guppylang.Cfg.Liveness.{join_live, apply_live}
use guppylang.Cfg.Liveness.Correct.{liveness_fuel}
use guppylang.Cfg.Assignment.{
  same_assignments, intersection, union, join_assignments, apply_assignments, all_vars,
  assignment_analysis, run_unpacked,
}
use guppylang.Cfg.Liveness.Domain.{used_in}
use guppylang.Cfg.Analyze.{Analyzed, mark_borrowed, with_assignments, analyze}
use guppylang.Cfg.Analyze.Evidence.{analyze_evidence}
use guppylang.Cfg.Samples.{loop_graph, loop_graph-IsWellLinked, Stats, loop_stats, first_of_queue}

abbrev sentinel : String → ℕ
sentinel _ = 99

abbrev run : Outcome (Analyzed String ℕ)
run =
    analyze sentinel first_of_queue first_of_queue 1000 loop_graph loop_stats ("c" ∷ []) ("c" ∷ [])
      ("c" ∷ [])

abbrev result_of : Outcome (Analyzed String ℕ) → Analyzed String ℕ
result_of (done r) = r
result_of _ = record {
  stats = loop_stats;
  assigned_somewhere = [];
  live_before = λ _. none;
  ass_before = λ _. none;
  maybe_ass_before = λ _. none;
}

abbrev marked : ℕ → Stats
marked = mark_borrowed sentinel 1 ("c" ∷ []) loop_stats

enough_backward :
    liveness_fuel marked (from_keys ("c" ∷ []) 1) true loop_graph.links loop_graph.bbs ≤ 1000
unfolding new_bb append_successor link new_cfg merge from_keys used_in get put
enough_backward =
    let value : liveness_fuel marked (from_keys ("c" ∷ []) 1) true loop_graph.links loop_graph.bbs
        ≡ 125 =
      refl in
    rw value (omega arith)

analyze_evidence_example : has "x" ((result_of run).stats 3).used ≡ true
unfolding analyze with_assignments assignment_analysis run_unpacked run_backward backward_step
    backward_update same_keys apply_live restrict join_live from_keys run_forward work_loop new_bb
    append_successor link dummy_link new_cfg forward_step forward_update lookups same_assignments
    intersection union join_assignments apply_assignments all_vars merge get put
analyze_evidence_example =
    analyze_evidence sentinel first_of_queue first_of_queue 1000 loop_graph loop_stats ("c" ∷ [])
      ("c" ∷ []) ("c" ∷ []) loop_graph-IsWellLinked {r = result_of run}
      {d = ("c", 1) ∷ ("x", 3) ∷ []} 2 "x" 3 enough_backward refl refl refl refl
