-- ===== src/Cfg/Variables.antt =====
-- `VariableVisitor` and `BB.compute_variable_stats` of
-- guppylang-internals/src/guppylang_internals/cfg/bb.py. The visitor writes to its `stats`, which
-- are passed on explicitly.
pub mod Meaning
pub mod Effect
pub mod Nested
pub mod Total
use guppylang.Common.{
  ℕ, Bool, false, not, ◌&&◌, ◌||◌, Option, none, some, String, List, [], ◌∷◌, ◌++◌, string_eq,
  if◌then◌else◌, get_or,
}
use guppylang.Common.Sets.{elem}
use guppylang.Common.Dict.{Dict, get, has, put, remove, merge, restrict}
use guppylang.Common.Loop.{Outcome, done, key_error, map_outcome}
use guppylang.Cfg.Graph.{Graph}
use guppylang.Cfg.Stats.{VariableStats, no_stats}
use guppylang.Cfg.Syntax.{
  Expr, Exprs, Generators, Stmt, Stmts, Block, Blocks, AstNode, expr_node, stmt_node, name,
  elements, attribute, subscript, starred, comprehension, comptime, other, no_exprs, expr_cons,
  no_generators, generator, assign, aug_assign, ann_assign, expr, return_stmt, nested_function,
  modified_block, no_stmts, stmt_cons, block, no_blocks, block_cons,
}
use guppylang.Cfg.Analysis.{run_backward}
use guppylang.Cfg.Liveness.{liveness_analysis}
use guppylang.Cfg.Liveness.Correct.{liveness_fuel}
use guppylang.Cfg.Analyze.{and_then}

abbrev pub Stats : Type 0
Stats = VariableStats String AstNode

-- `name_nodes_in_ast`: the `Name` nodes in the order of the fields.
unfoldable mutual
  pub name_nodes : Expr → List (ℕ × String)
  name_nodes (name i x) = (i, x) ∷ []
  name_nodes (elements es) = name_nodes_all es
  name_nodes (attribute e) = name_nodes e
  name_nodes (subscript v s) = name_nodes v ++ name_nodes s
  name_nodes (starred e) = name_nodes e
  name_nodes (comprehension elt gens) = name_nodes elt ++ name_nodes_in_generators gens
  name_nodes (comptime e) = name_nodes e
  name_nodes (other es) = name_nodes_all es

  pub name_nodes_all : Exprs → List (ℕ × String)
  name_nodes_all no_exprs = []
  name_nodes_all (expr_cons e es) = name_nodes e ++ name_nodes_all es

  pub name_nodes_in_generators : Generators → List (ℕ × String)
  name_nodes_in_generators no_generators = []
  name_nodes_in_generators (generator ts v next it t ifs gens) =
      name_nodes_all ts
      ++ name_nodes v
      ++ name_nodes next
      ++ name_nodes it
      ++ name_nodes t
      ++ name_nodes_all ifs
      ++ name_nodes_in_generators gens

-- The body of the loop of `_update_used`: the two tests, the second of which reads what the
-- first has written.
unfoldable pub mark_used : ℕ → String → Stats → Stats
mark_used i x s =
    let node = expr_node (name i x) in
    let is_external =
      not (has x s.assigned) && not (has x s.used) && not (has x s.assigned_in_modifier_block) in
    let s' : Stats = if is_external then record s { used = put x node s.used } else s in
    elim (get x s.assigned_in_modifier_block) [
      | none ↦ s'
      | some at ↦ if has x s.badly_used_after_modifier_block then s' else record s' {
        badly_used_after_modifier_block = put x (node, at) s.badly_used_after_modifier_block;
      }
    ]

-- `_update_used`
unfoldable pub mark_all : List (ℕ × String) → Stats → Stats
mark_all [] s = s
mark_all ((i, x) ∷ names) s = mark_all names (mark_used i x s)

abbrev pub update_used : Expr → Stats → Stats
update_used e s = mark_all (name_nodes e) s

-- `self.stats.assigned[name] = node` and the `pop` after it.
unfoldable pub mark_assigned : String → AstNode → Stats → Stats
mark_assigned x node s = record s {
  assigned = put x node s.assigned;
  assigned_in_modifier_block = remove x s.assigned_in_modifier_block;
}

-- What is live in a comprehension is used outside of it, if the block did not assign it.
unfoldable pub absorb : Dict String AstNode → (String → Bool) → Stats → Stats
absorb inner skip s = record s { used = merge s.used (restrict (λ x. not (skip x)) inner) }

unfoldable mutual
  pub visit_expr : Expr → Stats → Stats
  visit_expr (name i x) s = mark_all (name_nodes (name i x)) s
  visit_expr (elements es) s = visit_exprs es s
  visit_expr (attribute e) s = visit_expr e s
  visit_expr (subscript v i) s = visit_expr i (visit_expr v s)
  visit_expr (starred e) s = visit_expr e s
  visit_expr (comprehension elt gens) s =
      absorb (visit_expr elt (visit_generators gens no_stats)).used (λ x. has x s.assigned) s
  visit_expr (comptime e) s = s
  visit_expr (other es) s = visit_exprs es s

  pub visit_exprs : Exprs → Stats → Stats
  visit_exprs no_exprs s = s
  visit_exprs (expr_cons e es) s = visit_exprs es (visit_expr e s)

  -- `_handle_assign_target`
  pub assign_target : Expr → AstNode → Stats → Stats
  assign_target (name i x) node s = mark_assigned x node s
  assign_target (elements es) node s = assign_targets es node s
  assign_target (attribute e) node s = visit_expr e s
  assign_target (subscript v i) node s = visit_expr v (visit_expr i s)
  assign_target (starred e) node s = assign_target e node s
  assign_target (comprehension elt gens) node s = s
  assign_target (comptime e) node s = s
  assign_target (other es) node s = s

  pub assign_targets : Exprs → AstNode → Stats → Stats
  assign_targets no_exprs node s = s
  assign_targets (expr_cons e es) node s = assign_targets es node (assign_target e node s)

  -- The loop of `_handle_comprehension`, on the stats of the inner visitor.
  pub visit_generators : Generators → Stats → Stats
  visit_generators no_generators s = s
  visit_generators (generator ts v next it t ifs gens) s =
      let at = stmt_node (assign ts v) in
      let bound = assign_target t at (visit_expr next (assign_targets ts at (visit_expr v s))) in
      visit_generators gens (visit_exprs ifs bound)

abbrev pub visit_option : Option Expr → Stats → Stats
visit_option none s = s
visit_option (some e) s = visit_expr e s

-- The stats of the blocks of a nested graph, by their `idx`.
abbrev pub stats_at : List Stats → ℕ → Stats
stats_at all b = get_or all b no_stats

-- `using_bb.vars.used[x]` for each live variable that is not assigned before.
unfoldable pub captured :
    (ℕ → Stats) → (String → Bool) → Dict String ℕ → Outcome (Dict String AstNode)
captured stats skip [] = done []
captured stats skip ((x, using_bb) ∷ live) =
    let rest = captured stats skip live in
    if skip x then rest else elim (get x (stats using_bb).used) [
      | none ↦ key_error
      | some node ↦ map_outcome (λ d. (x, node) ∷ d) rest
    ]

-- `self.stats.assigned_in_modifier_block[var] = ast_node` for the items of a dict.
unfoldable pub mark_in_modifier : Dict String AstNode → Stats → Stats
mark_in_modifier [] s = s
mark_in_modifier ((x, node) ∷ d) s =
    mark_in_modifier d
      (record s { assigned_in_modifier_block = put x node s.assigned_in_modifier_block })

-- The loop over the blocks of a modified block.
unfoldable pub mark_blocks : List Stats → Stats → Stats
mark_blocks [] s = s
mark_blocks (t ∷ all) s =
    mark_blocks all (mark_in_modifier (merge t.assigned_in_modifier_block t.assigned) s)

-- A lookup; `none` is a `KeyError`.
abbrev pub entry_dict : {A : Type 0} → Option A → Outcome A
entry_dict none = key_error
entry_dict (some a) = done a

module _ (choose : ℕ → List ℕ → ℕ) where
  -- `live[node.cfg.entry_bb]` after `LivenessAnalysis(stats).run(node.cfg.bbs)`.
  unfoldable pub live_at_entry : Graph → (ℕ → Stats) → Outcome (Dict String ℕ)
  live_at_entry g stats =
      let fuel = liveness_fuel stats [] false g.links g.bbs in
      and_then (run_backward (liveness_analysis stats [] false) g.links choose fuel g.bbs)
        (λ live. entry_dict (live g.entry_bb))

  -- `self.stats.used |= {x: using_bb.vars.used[x] for ... if x not in ...}`
  unfoldable pub capture : Graph → (ℕ → Stats) → (String → Bool) → Stats → Outcome Stats
  capture g stats skip s =
      and_then (live_at_entry g stats)
        (λ live. map_outcome (λ d. record s { used = merge s.used d }) (captured stats skip live))

  -- `visit_NestedFunctionDef` after the stats of its blocks.
  unfoldable pub capture_function :
      Stmt → String → List String → Graph → Stats → List Stats → Outcome Stats
  capture_function node fun args g s all =
      map_outcome (λ (s' : Stats). record s' { assigned = put fun (stmt_node node) s'.assigned })
        (capture g (stats_at all) (λ x. has x s.assigned || string_eq.beq x fun || elem x args) s)

  -- `visit_ModifiedBlock` after the stats of its blocks.
  unfoldable pub capture_block : Graph → Stats → List Stats → Outcome Stats
  capture_block g s all = capture g (stats_at all) (λ x. has x s.assigned) (mark_blocks all s)

  unfoldable mutual
    pub visit_stmt : Stmt → Stats → Outcome Stats
    visit_stmt (assign ts v) s = done (assign_targets ts (stmt_node (assign ts v)) (visit_expr v s))
    visit_stmt (aug_assign t v) s =
        done (assign_target t (stmt_node (aug_assign t v)) (update_used t (visit_expr v s)))
    visit_stmt (ann_assign t v) s =
        done (assign_target t (stmt_node (ann_assign t v)) (visit_option v s))
    visit_stmt (expr e) s = done (visit_expr e s)
    visit_stmt (return_stmt e) s = done (visit_option e s)
    visit_stmt (nested_function fun args g bs) s =
        and_then (compute_all bs) (capture_function (nested_function fun args g bs) fun args g s)
    visit_stmt (modified_block control power g bs) s =
        and_then (compute_all bs) (capture_block g (visit_exprs power (visit_exprs control s)))

    pub visit_stmts : Stmts → Stats → Outcome Stats
    visit_stmts no_stmts s = done s
    visit_stmts (stmt_cons t ts) s = and_then (visit_stmt t s) (visit_stmts ts)

    -- `compute_variable_stats`
    pub compute_stats : Block → Outcome Stats
    compute_stats (block ss pred) = map_outcome (visit_option pred) (visit_stmts ss no_stats)

    -- `bb.compute_variable_stats()` for each block.
    pub compute_all : Blocks → Outcome (List Stats)
    compute_all no_blocks = done []
    compute_all (block_cons b bs) =
        and_then (compute_stats b) (λ s. map_outcome (λ all. s ∷ all) (compute_all bs))
