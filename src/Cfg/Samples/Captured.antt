-- ===== src/Cfg/Samples/Captured.antt =====
-- Witnesses of what is proved of the visitor of basic blocks.
use guppylang.Common.{
  ◌≡◌, ◌≢◌, refl, true, false, String, none, some, List, [], ◌∷◌, string_eq, nat_eq, ◌⊎◌, ◌↔◌, any,
}
use guppylang.Common.Sets.{elem}
use guppylang.Common.Loop.{done}
use guppylang.Common.Dict.{get, has, put, merge, remove, restrict}
use guppylang.Cfg.Stats.{no_stats}
use guppylang.Cfg.Graph.{append_successor, new_bb, link, new_cfg}
use guppylang.Cfg.Syntax.{
  Expr, Exprs, Stmt, Block, Blocks, AstNode, stmt_node, expr_node, name, other, comprehension,
  no_exprs, expr_cons, no_generators, generator, assign, expr, nested_function, modified_block,
  no_stmts, stmt_cons, block, no_blocks, block_cons,
}
use guppylang.Cfg.Variables.{
  Stats, stats_at, mark_used, mark_all, mark_assigned, absorb, visit_expr, visit_exprs,
  assign_target, assign_targets, visit_generators, visit_stmt, visit_stmts, compute_stats,
  compute_all, name_nodes,
}
use guppylang.Cfg.Liveness.{is_killed}
use guppylang.Cfg.Variables.Meaning.{effect_block}
use guppylang.Cfg.Variables.Effect.{compute_stats-effect_block}
use guppylang.Cfg.Variables.Nested.{IsGraph, Captures, nested_function_lem, modified_block_lem}
use guppylang.Cfg.Variables.Total.{compute_stats_total}
use guppylang.Cfg.Analyze.{Analyzed}
use guppylang.Cfg.Whole.{analyze_blocks, analyze_blocks_total}
use guppylang.Cfg.Samples.{loop_graph, loop_graph-IsWellLinked, first_of_queue}

abbrev nothing_yet : Stats
nothing_yet = no_stats

abbrev single : Expr → Exprs
single e = expr_cons e no_exprs

abbrev one_stmt : Stmt → Block
one_stmt t = block (stmt_cons t no_stmts) none

-- `x = 1; while c: y = x` over the blocks of `loop_graph`.
abbrev loop_blocks : Blocks
loop_blocks = block_cons (one_stmt (assign (single (name 1 "x")) (other no_exprs))) (
    block_cons (block no_stmts none) (
      block_cons (block no_stmts (some (name 2 "c"))) (
        block_cons (one_stmt (assign (single (name 4 "y")) (name 3 "x")))
          (block_cons (block no_stmts none) no_blocks))))

abbrev entry_stats : Stats
entry_stats = record no_stats {
  assigned = ("x", stmt_node (assign (single (name 1 "x")) (other no_exprs))) ∷ [];
}

abbrev head_stats : Stats
head_stats = record no_stats { used = ("c", expr_node (name 2 "c")) ∷ [] }

abbrev body_stats : Stats
body_stats = record no_stats {
  used = ("x", expr_node (name 3 "x")) ∷ [];
  assigned = ("y", stmt_node (assign (single (name 4 "y")) (name 3 "x"))) ∷ [];
}

abbrev loop_all : List Stats
loop_all = entry_stats ∷ no_stats ∷ head_stats ∷ body_stats ∷ no_stats ∷ []

loop_computed : compute_all first_of_queue loop_blocks ≡ done loop_all
unfolding compute_all compute_stats visit_stmts visit_stmt visit_expr assign_targets mark_all
    mark_used mark_assigned name_nodes get put remove
loop_computed = refl

loop_graph-IsGraph : IsGraph loop_graph
unfolding new_bb append_successor link new_cfg
loop_graph-IsGraph = record { well_linked = loop_graph-IsWellLinked; entry_in = refl }

nested_function_lem_example :
    (s : Stats) × (visit_stmt first_of_queue
        (nested_function "f" ("y" ∷ []) loop_graph loop_blocks)
        no_stats
      ≡ done s)
    × (has "f" s.assigned ≡ true)
    × ((x : String)
        → (has x s.used ≡ true) ↔ (
            (has x nothing_yet.used ≡ true)
            ⊎ ((has x nothing_yet.assigned ≡ false)
                × (x ≢ "f")
                × (elem x ("y" ∷ []) ≡ false)
                × Captures loop_graph (stats_at loop_all) x)))
nested_function_lem_example =
    nested_function_lem first_of_queue loop_graph loop_graph-IsGraph loop_blocks loop_all
      loop_computed "f" ("y" ∷ []) no_stats

modified_block_lem_example :
    (s : Stats) × (visit_stmt first_of_queue
        (modified_block (single (name 9 "q")) no_exprs loop_graph loop_blocks)
        no_stats
      ≡ done s)
    × (s.assigned ≡ [])
    × ((x : String)
        → ((has x s.used ≡ true) ↔ (
            (has x (("q", expr_node (name 9 "q")) ∷ []) ≡ true)
            ⊎ ((false ≡ false) × Captures loop_graph (stats_at loop_all) x)))
          × (has x s.assigned_in_modifier_block ≡ any (λ t. is_killed t x) loop_all))
unfolding visit_exprs visit_expr mark_all mark_used name_nodes get put
modified_block_lem_example =
    modified_block_lem first_of_queue loop_graph loop_graph-IsGraph loop_blocks loop_all
      loop_computed (single (name 9 "q")) no_exprs no_stats
      (record no_stats { used = ("q", expr_node (name 9 "q")) ∷ [] }) refl

-- `f` captures `c` and assigns itself; then the block uses `f`.
abbrev with_function : Block
with_function =
    block
      (stmt_cons (nested_function "f" [] loop_graph loop_blocks)
        (stmt_cons (expr (name 9 "f")) no_stmts))
      none

compute_stats_total_example : (s : Stats) × (compute_stats first_of_queue with_function ≡ done s)
unfolding new_bb append_successor link new_cfg
compute_stats_total_example =
    compute_stats_total first_of_queue with_function
      ((loop_graph-IsGraph, refl, ((tt, tt), (tt, (tt, ((tt, tt), (tt, tt)))))), (tt, tt))

-- `y = [x for x in z]; w = x`
abbrev comprehension_block : Block
comprehension_block =
    block
      (stmt_cons
        (assign (single (name 1 "y")) (
          comprehension (name 2 "x") (
            generator (single (name 3 "it")) (name 4 "z") (name 5 "it") (name 3 "it") (name 6 "x")
              no_exprs no_generators)))
        (stmt_cons (assign (single (name 7 "w")) (name 8 "x")) no_stmts))
      none

compute_stats-effect_block_example :
    (s : Stats) × (compute_stats first_of_queue comprehension_block ≡ done s)
    × ((x : String)
        → (has x s.used ≡ (effect_block x comprehension_block).exposed)
          × (has x s.assigned ≡ (effect_block x comprehension_block).binds))
compute_stats-effect_block_example =
    compute_stats-effect_block first_of_queue comprehension_block (tt, (tt, tt))

-- It reads `z` and the outer `x`, and binds neither `it` nor `x`.
comprehension_block-used :
    (s : Stats) × (compute_stats first_of_queue comprehension_block ≡ done s)
    × (s.used ≡ ("z", expr_node (name 4 "z")) ∷ ("x", expr_node (name 8 "x")) ∷ [])
unfolding compute_stats visit_stmts visit_stmt visit_expr visit_exprs assign_target assign_targets
    visit_generators absorb mark_all mark_used mark_assigned name_nodes get put remove restrict
    merge
comprehension_block-used = (_, refl, refl)

abbrev by_node : String → AstNode
by_node x = expr_node (name 0 x)

analyze_blocks_total_example :
    (r : Analyzed String AstNode) × (analyze_blocks by_node first_of_queue first_of_queue loop_graph
        loop_blocks
        ("c" ∷ [])
        ("c" ∷ [])
        ("c" ∷ [])
      ≡ done r)
unfolding new_bb append_successor link new_cfg
analyze_blocks_total_example =
    analyze_blocks_total by_node first_of_queue first_of_queue loop_graph loop_blocks ("c" ∷ [])
      ("c" ∷ []) ("c" ∷ []) loop_graph-IsGraph refl ((tt, tt), (tt, (tt, ((tt, tt), (tt, tt)))))
      refl
