-- ===== src/Cfg/Samples/Built.antt =====
-- Witnesses of what is proved of the builders of graphs.
use guppylang.Common.{
  ℕ, ◌<◌, ◌≡◌, ◌≢◌, refl, Bool, false, Option, some, [], ◌∷◌, length, arith, ◌==◌, if◌then◌else◌,
}
use guppylang.Cfg.Graph.{append_successor, new_bb, link, dummy_link, new_cfg}
use guppylang.Cfg.Graph.WellLinked.{IsWellLinked}
use guppylang.Cfg.Branch.{
  Leaf, value, comparison, and_op, or_op, Cond, leaf, not_op, bool_op, compare_chain, last, Build,
  fresh_block, add_branch,
}
use guppylang.Cfg.Branch.Evaluate.{evaluate, evaluate_all, evaluate_chain, Walk}
use guppylang.Cfg.Branch.Stages.{size, IsOpen, Own}
use guppylang.Cfg.Branch.Walks.{add_branch_lem}
use guppylang.Cfg.Builder.{
  Body, simple, return_stmt, break_stmt, continue_stmt, if_stmt, while_stmt, for_stmt, no_stmts,
  stmt_cons, Building, goes_on, source, empty_building, build_body, build_stmts, build_stmt,
  next_block, new_block_after,
}
use guppylang.Cfg.Builder.Succeeds.{IsKnown}
use guppylang.Cfg.Builder.Linked.{build_body_lem}

-- Blocks 2 and 3 are where the branches lead.
abbrev four_blocks : Build
four_blocks = (fresh_block (fresh_block empty_building.build).1).1

-- Only the expression 1 holds.
abbrev only_one : Leaf → Bool
only_one (value n) = n == 1
only_one (comparison left op right) = false

-- `e1 and (0 < 5 < 9 or not e2)`
abbrev sample_cond : Cond
sample_cond =
    bool_op and_op (leaf (value 1))
      (last (bool_op or_op (compare_chain 0 7 5 ((7, 9) ∷ [])) (last (not_op (leaf (value 2))))))

-- The second comparison is not evaluated, since the first one does not hold.
sample_cond-evaluate :
    (evaluate only_one sample_cond).leaves ≡ value 1 ∷ comparison 0 7 5 ∷ value 2 ∷ []
unfolding evaluate evaluate_all evaluate_chain
sample_cond-evaluate = refl

four_blocks-Open : IsOpen four_blocks 0
unfolding fresh_block new_bb append_successor new_cfg
four_blocks-Open = record { known = omega arith; no_pred = refl; no_successors = refl }

add_branch_lem_example :
    Walk only_one
      (add_branch sample_cond four_blocks 0 2 3)
      (Own 0 (size four_blocks) (size (add_branch sample_cond four_blocks 0 2 3)))
      0
      (evaluate only_one sample_cond).leaves
      (if (evaluate only_one sample_cond).result then 2 else 3)
    × ((b : ℕ)
        → b < size four_blocks
        → b ≢ 0
        → ((add_branch sample_cond four_blocks 0 2 3).branch_pred b ≡ four_blocks.branch_pred b)
          × (((add_branch sample_cond four_blocks 0 2 3).graph.links b).successors
              ≡ (four_blocks.graph.links b).successors))
add_branch_lem_example = add_branch_lem only_one sample_cond four_blocks 0 2 3 four_blocks-Open

-- `while c: (if e1 and ...: break; else: s1); for ...: continue`, a return, and a dead statement.
abbrev sample_body : Body
sample_body =
    stmt_cons
      (while_stmt (leaf (value 8))
        (stmt_cons
          (if_stmt sample_cond (stmt_cons break_stmt no_stmts) (stmt_cons (simple 1) no_stmts))
          (stmt_cons (for_stmt 4 5 (stmt_cons continue_stmt no_stmts) no_stmts) no_stmts))
        no_stmts)
      (stmt_cons (return_stmt 2) (stmt_cons (simple 3) no_stmts))

build_body_lem_example :
    (end : Option ℕ) × (s : Building) × (build_body sample_body ≡ goes_on end s)
    × IsWellLinked s.build.graph
    × IsKnown (length s.build.graph.bbs) end
build_body_lem_example =
    build_body_lem sample_body
      (((((refl, tt), (tt, tt)), (((refl, tt), refl), tt)), refl), (tt, (tt, tt)))

-- `return; s1`: the statement after the return stands in a block with a dummy link into it.
dead_statement :
    (s : Building) × (build_body (stmt_cons (return_stmt 0) (stmt_cons (simple 1) no_stmts))
      ≡ goes_on (some 2) s)
    × (s.statements 2 ≡ source 1 ∷ [])
    × ((s.build.graph.links 0).successors ≡ 1 ∷ [])
    × ((s.build.graph.links 0).dummy_successors ≡ 2 ∷ [])
unfolding build_body build_stmts build_stmt next_block new_block_after new_bb append_successor
    new_cfg link dummy_link
dead_statement = (_, refl, refl, refl, refl)
