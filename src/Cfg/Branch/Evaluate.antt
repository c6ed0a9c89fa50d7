-- ===== src/Cfg/Branch/Evaluate.antt =====
-- What a condition means: the leaves that short-circuit evaluation evaluates, in order, and the
-- result; and the walks through a graph that evaluate leaves.
use guppylang.Common.{ℕ, ◌≡◌, Bool, not, none, some, List, [], ◌∷◌, ◌++◌, if◌then◌else◌}
use guppylang.Cfg.Branch.{
  Leaf, comparison, BoolOp, and_op, or_op, Cond, Conds, constant, leaf, not_op, bool_op,
  compare_chain, if_exp, last, more, Build,
}

-- The leaves that are evaluated, and the truth value.
pub record Evaluation : Type 0 where
  pub leaves : List Leaf
  pub result : Bool

abbrev pub after : List Leaf → Evaluation → Evaluation
after ls e = record { leaves = ls ++ e.leaves; result = e.result }

-- An operator whose first operand decides or leaves the decision to the second one.
abbrev pub short_circuit : BoolOp → Evaluation → Evaluation → Evaluation
short_circuit and_op a b = if a.result then after a.leaves b else a
short_circuit or_op a b = if a.result then a else after a.leaves b

abbrev pub choose : Evaluation → Evaluation → Evaluation → Evaluation
choose a b c = if a.result then after a.leaves b else after a.leaves c

module _ (holds : Leaf → Bool) where
  abbrev pub evaluate_leaf : Leaf → Evaluation
  evaluate_leaf l = record { leaves = l ∷ []; result = holds l }

  unfoldable pub evaluate_chain : ℕ → ℕ → ℕ → List (ℕ × ℕ) → Evaluation
  evaluate_chain left op right [] = evaluate_leaf (comparison left op right)
  evaluate_chain left op right ((op', next) ∷ rest) =
      short_circuit and_op (evaluate_leaf (comparison left op right))
        (evaluate_chain right op' next rest)

  unfoldable mutual
    pub evaluate : Cond → Evaluation
    evaluate (constant b) = record { leaves = []; result = b }
    evaluate (leaf l) = evaluate_leaf l
    evaluate (not_op c) = let e = evaluate c in record { leaves = e.leaves; result = not e.result }
    evaluate (bool_op op c cs) = short_circuit op (evaluate c) (evaluate_all op cs)
    evaluate (compare_chain left op right rest) = evaluate_chain left op right rest
    evaluate (if_exp test body orelse) = choose (evaluate test) (evaluate body) (evaluate orelse)

    pub evaluate_all : BoolOp → Conds → Evaluation
    evaluate_all op (last c) = evaluate c
    evaluate_all op (more c cs) = short_circuit op (evaluate c) (evaluate_all op cs)

-- Running the blocks from one to another, through blocks that satisfy `Own`: a block with a
-- predicate goes to its second successor if the predicate holds, and to its first if not.
pub data Walk (holds : Leaf → Bool) (s : Build) (Own : ℕ → Type 0)
    : ℕ → List Leaf → ℕ → Type 0 where
  arrived : {b : ℕ} → Walk holds s Own b [] b
  jumps :
      {b c t : ℕ} {ls : List Leaf}
      → Own b
      → s.branch_pred b ≡ none
      → (s.graph.links b).successors ≡ c ∷ []
      → Walk holds s Own c ls t
      → Walk holds s Own b ls t
  decides :
      {b true_bb false_bb t : ℕ} {l : Leaf} {ls : List Leaf}
      → Own b
      → s.branch_pred b ≡ some l
      → (s.graph.links b).successors ≡ false_bb ∷ true_bb ∷ []
      → Walk holds s Own (if holds l then true_bb else false_bb) ls t
      → Walk holds s Own b (l ∷ ls) t
