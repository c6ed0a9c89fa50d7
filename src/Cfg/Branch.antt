-- ===== src/Cfg/Branch.antt =====
-- `BranchBuilder` of guppylang-internals/src/guppylang_internals/cfg/builder.py: how a condition
-- becomes branches between blocks. A leaf is an expression without control flow inside of it,
-- which `ExprBuilder.build` leaves in its block.
pub mod Evaluate
pub mod Stages
pub mod Walks
pub mod Linked
use guppylang.Common.{ℕ, Bool, Option, none, some, List, [], ◌∷◌, if◌then◌else◌}
use guppylang.Cfg.Graph.{Graph, update, new_bb, link, dummy_link}

-- Expressions are named by numbers.
pub data Leaf : Type 0 where
  value : ℕ → Leaf
  -- `ast.Compare` with one operator.
  comparison : (left op right : ℕ) → Leaf

pub data BoolOp : Type 0 where
  and_op or_op : BoolOp

mutual
  pub data Cond : Type 0 where
    -- `True` and `False`
    constant : Bool → Cond
    leaf : Leaf → Cond
    not_op : Cond → Cond
    -- `ast.BoolOp` has at least two values.
    bool_op : BoolOp → Cond → Conds → Cond
    -- `left op right ...` with the further operators and comparators.
    compare_chain : (left op right : ℕ) → List (ℕ × ℕ) → Cond
    if_exp : (test body orelse : Cond) → Cond

  pub data Conds : Type 0 where
    last : Cond → Conds
    more : Cond → Conds → Conds

-- The graph with the heap of `branch_pred`.
pub record Build : Type 0 where
  pub graph : Graph
  pub branch_pred : ℕ → Option Leaf

-- `cfg.new_bb()`
unfoldable pub fresh_block : Build → ℕ × Build
fresh_block s =
    let (b, g) = new_bb [] s.graph in
    (b, record { graph = g; branch_pred = update s.branch_pred b none })

-- `generic_visit`
unfoldable pub branch_on : Leaf → ℕ → ℕ → ℕ → Build → Build
branch_on l bb true_bb false_bb s = record {
  graph = link bb true_bb (link bb false_bb s.graph);
  branch_pred = update s.branch_pred bb (some l);
}

-- Where the first operand of an operator branches to.
abbrev pub first_true : BoolOp → (extra_bb true_bb : ℕ) → ℕ
first_true and_op extra_bb true_bb = extra_bb
first_true or_op extra_bb true_bb = true_bb

abbrev pub first_false : BoolOp → (extra_bb false_bb : ℕ) → ℕ
first_false and_op extra_bb false_bb = false_bb
first_false or_op extra_bb false_bb = extra_bb

-- `visit_Compare` of a chain: the conjunction of the single comparisons.
unfoldable pub visit_chain : ℕ → ℕ → ℕ → List (ℕ × ℕ) → ℕ → ℕ → ℕ → Build → Build
visit_chain left op right [] bb true_bb false_bb s =
    branch_on (comparison left op right) bb true_bb false_bb s
visit_chain left op right ((op', next) ∷ rest) bb true_bb false_bb s =
    let (extra_bb, s1) = fresh_block s in
    visit_chain right op' next rest extra_bb true_bb false_bb
      (branch_on (comparison left op right) bb extra_bb false_bb s1)

unfoldable mutual
  pub visit_cond : Cond → ℕ → ℕ → ℕ → Build → Build
  visit_cond (constant b) bb true_bb false_bb s = record s {
    graph =
        dummy_link bb (if b then false_bb else true_bb)
          (link bb (if b then true_bb else false_bb) s.graph);
  }
  visit_cond (leaf l) bb true_bb false_bb s = branch_on l bb true_bb false_bb s
  visit_cond (not_op c) bb true_bb false_bb s = visit_cond c bb false_bb true_bb s
  visit_cond (bool_op op c cs) bb true_bb false_bb s =
      let (extra_bb, s1) = fresh_block s in
      visit_right op cs extra_bb true_bb false_bb
        (visit_cond c bb (first_true op extra_bb true_bb) (first_false op extra_bb false_bb) s1)
  visit_cond (compare_chain left op right rest) bb true_bb false_bb s =
      visit_chain left op right rest bb true_bb false_bb s
  visit_cond (if_exp test body orelse) bb true_bb false_bb s =
      let (then_bb, s1) = fresh_block s in
      let (else_bb, s2) = fresh_block s1 in
      visit_cond orelse else_bb true_bb false_bb
        (visit_cond body then_bb true_bb false_bb (visit_cond test bb then_bb else_bb s2))

  -- The operand on the right of `visit_BoolOp`: the last value, or a tree of those that are left.
  pub visit_right : BoolOp → Conds → ℕ → ℕ → ℕ → Build → Build
  visit_right op (last d) bb true_bb false_bb s = visit_cond d bb true_bb false_bb s
  visit_right op (more d ds) bb true_bb false_bb s =
      let (extra_bb, s1) = fresh_block s in
      visit_right op ds extra_bb true_bb false_bb
        (visit_cond d bb (first_true op extra_bb true_bb) (first_false op extra_bb false_bb) s1)

-- `BranchBuilder.add_branch`
abbrev pub add_branch : Cond → Build → ℕ → ℕ → ℕ → Build
add_branch c s bb true_bb false_bb = visit_cond c bb true_bb false_bb s
