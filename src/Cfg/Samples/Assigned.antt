-- ===== src/Cfg/Samples/Assigned.antt =====
-- Witnesses of what is proved of assignment.
use guppylang.Common.{
  ℕ, ◌≤◌, ◌≡◌, refl, true, false, String, Option, some, List, [], ◌∷◌, arith, string_eq, nat_eq,
  ◌⊎◌,
}
use guppylang.Common.Sets.{elem}
use guppylang.Common.Loop.{Outcome, done, work_loop}
use guppylang.Common.Dict.{get, put, merge}
use guppylang.Cfg.Graph.{append_successor, new_bb, link, dummy_link, new_cfg}
use guppylang.Cfg.Graph.NewBlock.{IsClosed-forward}
use guppylang.Cfg.Analysis.{all_predecessors, lookups, forward_update, forward_step, run_forward}
use guppylang.Cfg.Assignment.{
  Assignments, same_assignments, intersection, union, join_assignments, apply_assignments, all_vars,
  assignments,
}
use guppylang.Cfg.Assignment.Facts.{facts}
use guppylang.Cfg.Assignment.Paths.{Unassigned, MayBeAssigned}
use guppylang.Cfg.Assignment.Correct.{
  assignment_fuel, assignment_total, definite_sound, definite_complete, maybe_sound, maybe_complete,
  maybe_entry_dropped,
}
use guppylang.Cfg.Samples.{
  loop_graph, loop_graph-IsWellLinked, loop_stats, first_of_queue, value_at,
}

abbrev entry : List String
entry = "c" ∷ []

abbrev maybe_entry : List String
maybe_entry = "c" ∷ "z" ∷ []

abbrev assigned_in_loop : Outcome (ℕ → Option (Assignments String))
assigned_in_loop =
    run_forward (assignments loop_stats loop_graph.bbs entry maybe_entry true) loop_graph.links
      first_of_queue 1000 loop_graph.bbs

abbrev loop_assigned : ℕ → Option (Assignments String)
loop_assigned = value_at assigned_in_loop

abbrev at_head : Assignments String
at_head = ("x" ∷ "c" ∷ [], "z" ∷ "y" ∷ "x" ∷ "c" ∷ [])

loop_assigned-ends : assigned_in_loop ≡ done loop_assigned
unfolding run_forward work_loop new_bb append_successor link dummy_link new_cfg forward_step
    forward_update lookups same_assignments intersection union join_assignments apply_assignments
    all_vars merge get put
loop_assigned-ends = refl

assigned_at_head : loop_assigned 2 ≡ some at_head
unfolding run_forward work_loop new_bb append_successor link dummy_link new_cfg forward_step
    forward_update lookups same_assignments intersection union join_assignments apply_assignments
    all_vars merge get put
assigned_at_head = refl

enough : assignment_fuel loop_stats entry maybe_entry true loop_graph.links loop_graph.bbs ≤ 1000
unfolding new_bb append_successor link dummy_link new_cfg union all_vars facts
enough =
    let value : assignment_fuel loop_stats entry maybe_entry true loop_graph.links loop_graph.bbs
        ≡ 305 =
      refl in
    rw value (omega arith)

assignment_total_example :
    (res : ℕ → Option (Assignments String)) × (t : Assignments String) × (assigned_in_loop
      ≡ done res)
    × (res 2 ≡ some t)
unfolding run_forward work_loop new_bb append_successor link dummy_link new_cfg forward_step
    forward_update lookups same_assignments intersection union join_assignments apply_assignments
    all_vars merge get put
assignment_total_example =
    assignment_total loop_stats entry maybe_entry true loop_graph.links loop_graph.bbs
      first_of_queue 1000 (IsClosed-forward loop_graph loop_graph-IsWellLinked true) enough 2 refl

abbrev preds : ℕ → List ℕ
preds =
    all_predecessors (assignments loop_stats loop_graph.bbs entry maybe_entry true) loop_graph.links

definite_sound_example :
    ¬ Unassigned loop_stats entry preds (λ c. (loop_graph.links c).predecessors) "x" 2
unfolding run_forward work_loop new_bb append_successor link dummy_link new_cfg forward_step
    forward_update lookups same_assignments intersection union join_assignments apply_assignments
    all_vars merge get put
definite_sound_example =
    definite_sound loop_stats entry maybe_entry true loop_graph.links loop_graph.bbs first_of_queue
      1000 (IsClosed-forward loop_graph loop_graph-IsWellLinked true) enough {res = loop_assigned}
      {t = at_head} 2 loop_assigned-ends refl assigned_at_head "x" refl

definite_complete_example : Unassigned loop_stats entry preds preds "y" 2
unfolding run_forward work_loop new_bb append_successor link dummy_link new_cfg forward_step
    forward_update lookups same_assignments intersection union join_assignments apply_assignments
    all_vars merge get put
definite_complete_example =
    definite_complete loop_stats entry maybe_entry true loop_graph.links loop_graph.bbs
      first_of_queue 1000 (IsClosed-forward loop_graph loop_graph-IsWellLinked true) enough
      {res = loop_assigned} {t = at_head} 2 loop_assigned-ends refl assigned_at_head "y" refl refl

maybe_sound_example :
    MayBeAssigned loop_stats entry preds preds "y" 2 ⊎ (elem "y" maybe_entry ≡ true)
unfolding run_forward work_loop new_bb append_successor link dummy_link new_cfg forward_step
    forward_update lookups same_assignments intersection union join_assignments apply_assignments
    all_vars merge get put
maybe_sound_example =
    maybe_sound loop_stats entry maybe_entry true loop_graph.links loop_graph.bbs first_of_queue
      1000 (IsClosed-forward loop_graph loop_graph-IsWellLinked true) enough {res = loop_assigned}
      {t = at_head} 2 loop_assigned-ends refl assigned_at_head "y" refl

maybe_complete_example : elem "y" at_head.1 ≡ true
unfolding run_forward work_loop new_bb append_successor link dummy_link new_cfg forward_step
    forward_update lookups same_assignments intersection union join_assignments apply_assignments
    all_vars merge get put
maybe_complete_example =
    maybe_complete loop_stats entry maybe_entry true loop_graph.links loop_graph.bbs first_of_queue
      1000 (IsClosed-forward loop_graph loop_graph-IsWellLinked true) enough {res = loop_assigned}
      {t = at_head} 2 loop_assigned-ends refl assigned_at_head "y"
      (MayBeAssigned.written 3 refl refl)

maybe_entry_dropped_example : elem {A = String} "z" ("c" ∷ []) ≡ false
unfolding run_forward work_loop new_bb append_successor link dummy_link new_cfg forward_step
    forward_update lookups same_assignments intersection union join_assignments apply_assignments
    all_vars merge get put
maybe_entry_dropped_example =
    maybe_entry_dropped loop_stats entry maybe_entry true loop_graph.links loop_graph.bbs
      first_of_queue 1000 (IsClosed-forward loop_graph loop_graph-IsWellLinked true) enough
      {res = loop_assigned} {t = ("c" ∷ [], "c" ∷ [])} 0 loop_assigned-ends refl refl "z" refl refl
