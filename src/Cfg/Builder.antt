-- ===== src/Cfg/Builder.antt =====
-- `CFGBuilder` of guppylang-internals/src/guppylang_internals/cfg/builder.py on statements whose
-- expressions `ExprBuilder.build` leaves in their block, conditions apart. Nested functions,
-- `with` blocks and functional annotations are not in the syntax.
pub mod Succeeds
pub mod Linked
use guppylang.Common.{ℕ, Bool, true, Option, none, some, List, [], ◌∷◌, ◌++◌}
use guppylang.Cfg.Graph.{Graph, update, new_bb, new_cfg, link, dummy_link}
use guppylang.Cfg.Branch.{Cond, constant, leaf, not_op, Leaf, value, Build, fresh_block, add_branch}

-- What ends up in `bb.statements`. A statement of the source is named by a number, and so is the
-- loop that `visit_For` rewrites.
pub data Placed : Type 0 where
  source : ℕ → Placed
  -- `it = make_iter`, `res = iter_next`, `res.unwrap_nothing()`, `x, it = res.unwrap()`
  make_iter iter_next unwrap_nothing unwrap : ℕ → Placed

mutual
  pub data Source : Type 0 where
    -- An assignment of any kind, or an expression.
    simple : ℕ → Source
    return_stmt : ℕ → Source
    break_stmt continue_stmt pass_stmt : Source
    if_stmt : Cond → (body orelse : Body) → Source
    while_stmt : Cond → (body orelse : Body) → Source
    -- `is_some` names the expression `res.is_some()` of the loop.
    for_stmt : (loop is_some : ℕ) (body orelse : Body) → Source

  pub data Body : Type 0 where
    no_stmts : Body
    stmt_cons : Source → Body → Body

pub record Jumps : Type 0 where
  pub return_bb : ℕ
  pub continue_bb : Option ℕ
  pub break_bb : Option ℕ

pub record Building : Type 0 where
  pub build : Build
  pub statements : ℕ → List Placed

-- The block where the control flow goes on, if it does, or an exception.
pub data Visit : Type 0 where
  goes_on : Option ℕ → Building → Visit
  guppy_error : Visit
  internal_error : Visit

abbrev pub and_visit : Visit → (Option ℕ → Building → Visit) → Visit
and_visit (goes_on end s) f = f end s
and_visit guppy_error f = guppy_error
and_visit internal_error f = internal_error

-- `cfg.new_bb(*preds)`
unfoldable pub new_block_after : List ℕ → Building → ℕ × Building
new_block_after preds s =
    let (b, g) = new_bb preds s.build.graph in
    (b, record s { build = record { graph = g; branch_pred = update s.build.branch_pred b none } })

-- `bb.statements.append(node)`
abbrev pub append_stmt : ℕ → Placed → Building → Building
append_stmt bb p s = record s { statements = update s.statements bb (s.statements bb ++ p ∷ []) }

abbrev pub with_graph : Graph → Building → Building
with_graph g s = record s { build = record s.build { graph = g } }

abbrev pub link_blocks : ℕ → ℕ → Building → Building
link_blocks src tgt s = with_graph (link src tgt s.build.graph) s

abbrev pub branch_to : Cond → ℕ → ℕ → ℕ → Building → Building
branch_to c bb true_bb false_bb s = record s { build = add_branch c s.build bb true_bb false_bb }

-- The block for the next statement: a new one with a dummy link, if the previous one jumped.
unfoldable pub next_block : ℕ → Option ℕ → Building → ℕ × Building
next_block prev_bb (some bb) s = (bb, s)
next_block prev_bb none s =
    let (bb, s1) = new_block_after [] s in
    (bb, with_graph (dummy_link prev_bb bb s1.build.graph) s1)

-- `visit_Continue` and `visit_Break`
unfoldable pub jump_to : Option ℕ → ℕ → Building → Visit
jump_to none bb s = internal_error
jump_to (some target) bb s = goes_on none (link_blocks bb target s)

-- The end of `visit_If`.
unfoldable pub merge_branches : Option ℕ → Option ℕ → Building → Visit
merge_branches none else_bb s = goes_on else_bb s
merge_branches (some then_bb) none s = goes_on (some then_bb) s
merge_branches (some then_bb) (some else_bb) s =
    let (bb, s1) = new_block_after (then_bb ∷ else_bb ∷ []) s in goes_on (some bb) s1

-- The end of the body of a loop goes back to its head.
unfoldable pub close_loop : ℕ → ℕ → Option ℕ → Building → Visit
close_loop head_bb tail_bb none s = goes_on (some tail_bb) s
close_loop head_bb tail_bb (some body_end_bb) s =
    goes_on (some tail_bb) (link_blocks body_end_bb head_bb s)

-- `visit_While`, over what visits the body.
unfoldable pub visit_while : Cond → (Jumps → ℕ → Building → Visit) → ℕ → Jumps → Building → Visit
visit_while test visit_body bb jumps s =
    let (head_bb, s1) = new_block_after (bb ∷ []) s in
    let (body_bb, s2) = new_block_after [] s1 in
    let (tail_bb, s3) = new_block_after [] s2 in
    let new_jumps : Jumps = record {
      return_bb = jumps.return_bb;
      continue_bb = some head_bb;
      break_bb = some tail_bb;
    } in
    and_visit (visit_body new_jumps body_bb (branch_to test head_bb body_bb tail_bb s3))
      (close_loop head_bb tail_bb)

-- `if not res.is_some(): res.unwrap_nothing(); break` in the template of `visit_For`: the block
-- after it is that of the other branch.
unfoldable pub leave_if_nothing : ℕ → ℕ → ℕ → Jumps → Building → (ℕ → Building → Visit) → Visit
leave_if_nothing loop is_some bb jumps s then_visit =
    let (then_bb, s1) = new_block_after [] s in
    let (else_bb, s2) = new_block_after [] s1 in
    let s3 = branch_to (not_op (leaf (value is_some))) bb then_bb else_bb s2 in
    and_visit (jump_to jumps.break_bb then_bb (append_stmt then_bb (unwrap_nothing loop) s3))
      (λ _ s4. then_visit else_bb s4)

unfoldable mutual
  pub build_stmt : Source → ℕ → Jumps → Building → Visit
  build_stmt (simple n) bb jumps s = goes_on (some bb) (append_stmt bb (source n) s)
  build_stmt (return_stmt n) bb jumps s =
      goes_on none (link_blocks bb jumps.return_bb (append_stmt bb (source n) s))
  build_stmt break_stmt bb jumps s = jump_to jumps.break_bb bb s
  build_stmt continue_stmt bb jumps s = jump_to jumps.continue_bb bb s
  build_stmt pass_stmt bb jumps s = goes_on (some bb) s
  build_stmt (if_stmt test body orelse) bb jumps s =
      let (then_bb, s1) = new_block_after [] s in
      let (else_bb, s2) = new_block_after [] s1 in
      and_visit
        (build_stmts body then_bb (some then_bb) jumps (branch_to test bb then_bb else_bb s2))
        (λ then_end s3.
          and_visit (build_stmts orelse else_bb (some else_bb) jumps s3) (merge_branches then_end))
  build_stmt (while_stmt test body no_stmts) bb jumps s =
      visit_while test (λ new_jumps b. build_stmts body b (some b) new_jumps) bb jumps s
  build_stmt (while_stmt test body (stmt_cons t ts)) bb jumps s = guppy_error
  build_stmt (for_stmt loop is_some body no_stmts) bb jumps s =
      visit_while (constant true)
        (λ new_jumps b s1.
          leave_if_nothing loop is_some b new_jumps (append_stmt b (iter_next loop) s1)
            (λ else_bb s2.
              build_stmts body else_bb (some else_bb) new_jumps
                (append_stmt else_bb (unwrap loop) s2)))
        bb jumps (append_stmt bb (make_iter loop) s)
  build_stmt (for_stmt loop is_some body (stmt_cons t ts)) bb jumps s = guppy_error

  -- The loop of `visit_stmts`, from its two variables `prev_bb` and `bb_opt`.
  pub build_stmts : Body → ℕ → Option ℕ → Jumps → Building → Visit
  build_stmts no_stmts prev_bb bb_opt jumps s = goes_on bb_opt s
  build_stmts (stmt_cons t ts) prev_bb bb_opt jumps s =
      let (bb, s1) = next_block prev_bb bb_opt s in
      and_visit (build_stmt t bb jumps s1) (λ end. build_stmts ts bb end jumps)

-- `CFG()`
abbrev pub empty_building : Building
empty_building = record {
  build = record { graph = new_cfg; branch_pred = λ _. none };
  statements = λ _. [];
}

-- `build` up to the statements: from the entry block, `return` leads to the exit block.
unfoldable pub build_body : Body → Visit
build_body ts =
    let g = new_cfg in
    build_stmts ts g.entry_bb (some g.entry_bb)
      (record { return_bb = g.exit_bb; continue_bb = none; break_bb = none }) empty_building
