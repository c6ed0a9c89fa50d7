-- ===== src/Cfg/Samples/Live.antt =====
-- Witnesses of what is proved of liveness.
use guppylang.Common.{
  ℕ, ◌≤◌, ◌≡◌, ◌≢◌, refl, true, String, Option, some, [], ◌∷◌, arith, string_eq, nat_eq, ◌⊎◌,
}
use guppylang.Common.Loop.{done, work_loop}
use guppylang.Common.Dict.{Dict, get, has, put, merge, from_keys, restrict, same_keys}
use guppylang.Cfg.Graph.{append_successor, new_bb, link, dummy_link, new_cfg}
use guppylang.Cfg.Graph.NewBlock.{IsClosed-backward}
use guppylang.Cfg.Analysis.{all_successors, lookups, backward_update, backward_step, run_backward}
use guppylang.Cfg.Liveness.{join_live, apply_live, liveness_analysis}
use guppylang.Cfg.Liveness.Correct.{
  liveness_fuel, liveness_total, liveness_evidence, liveness_complete,
}
use guppylang.Cfg.Liveness.Domain.{used_in}
use guppylang.Cfg.Liveness.Paths.{UsedLater, here, later}
use guppylang.Cfg.Samples.{
  loop_graph, loop_graph-IsWellLinked, loop_stats, first_of_queue, live_in_loop, value_at,
}

abbrev Nowhere : String → ℕ → Type 0
Nowhere _ u = u ≢ u

abbrev loop_live : ℕ → Option (Dict String ℕ)
loop_live = value_at live_in_loop

abbrev at_head : Dict String ℕ
at_head = ("c", 2) ∷ ("x", 3) ∷ []

loop_live-ends : live_in_loop ≡ done loop_live
unfolding run_backward work_loop new_bb append_successor link dummy_link new_cfg backward_step
    backward_update lookups same_keys apply_live merge restrict join_live from_keys get put
loop_live-ends = refl

enough : liveness_fuel loop_stats [] true loop_graph.links loop_graph.bbs ≤ 1000
unfolding new_bb append_successor link dummy_link new_cfg used_in
enough =
    let value : liveness_fuel loop_stats [] true loop_graph.links loop_graph.bbs ≡ 65 = refl in
    rw value (omega arith)

liveness_total_example :
    (live : ℕ → Option (Dict String ℕ)) × (d : Dict String ℕ) × (live_in_loop ≡ done live)
    × (live 2 ≡ some d)
unfolding new_bb append_successor link dummy_link new_cfg
liveness_total_example =
    liveness_total loop_stats [] true loop_graph.links loop_graph.bbs Nowhere tt first_of_queue 1000
      (IsClosed-backward loop_graph loop_graph-IsWellLinked true) enough 2 refl

liveness_evidence_example :
    UsedLater loop_stats
      (all_successors (liveness_analysis loop_stats [] true) loop_graph.links)
      "x"
      3
      2
    ⊎ Nowhere "x" 3
unfolding run_backward work_loop new_bb append_successor link dummy_link new_cfg backward_step
    backward_update lookups same_keys apply_live merge restrict join_live from_keys get put
liveness_evidence_example =
    liveness_evidence loop_stats [] true loop_graph.links loop_graph.bbs Nowhere tt first_of_queue
      1000 (IsClosed-backward loop_graph loop_graph-IsWellLinked true) enough {live = loop_live}
      {d = at_head} 2 loop_live-ends refl refl "x" 3 refl

liveness_complete_example : has "x" at_head ≡ true
unfolding run_backward work_loop new_bb append_successor link dummy_link new_cfg backward_step
    backward_update lookups same_keys apply_live merge restrict join_live from_keys get put
liveness_complete_example =
    liveness_complete loop_stats [] true loop_graph.links loop_graph.bbs Nowhere tt first_of_queue
      1000 (IsClosed-backward loop_graph loop_graph-IsWellLinked true) enough {live = loop_live}
      {d = at_head} 2 loop_live-ends refl refl "x" 3 (later {c = 3} refl refl (here refl refl))
