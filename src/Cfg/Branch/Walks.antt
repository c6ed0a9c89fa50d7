-- ===== src/Cfg/Branch/Walks.antt =====
-- `BranchBuilder` of cfg/builder.py against short-circuit evaluation: where a run of the branches
-- leads, and which leaves it evaluates.
use guppylang.Common.{ℕ, ◌<◌, ◌≡◌, ◌≢◌, Bool, true, false, not, List, [], ◌∷◌, if◌then◌else◌, arith}
use guppylang.Cfg.Graph.{new_bb}
use guppylang.Cfg.Branch.{
  Leaf, comparison, BoolOp, and_op, Cond, Conds, constant, leaf, not_op, bool_op, compare_chain,
  if_exp, last, more, Build, fresh_block, branch_on, first_true, first_false, visit_chain,
  visit_cond, visit_right, add_branch,
}
use guppylang.Cfg.Branch.Evaluate.{evaluate_chain, evaluate, evaluate_all, Walk}
use guppylang.Cfg.Branch.Stages.{
  size, IsOpen, Own, Branches, fresh_block-size, fresh_block-Open, fresh_block-keep, IsOpen-keep,
  extra-Open, branch_on-Branches, constant-Branches, operands, parts,
}

module _ (holds : Leaf → Bool) where
  swapped :
      (ls : List Leaf) (result : Bool) (true_bb false_bb : ℕ) {s : Build} {P : ℕ → Type 0} {bb : ℕ}
      → Walk holds s P bb ls (if result then false_bb else true_bb)
      → Walk holds s P bb ls (if not result then true_bb else false_bb)
  swapped ls true true_bb false_bb w = w
  swapped ls false true_bb false_bb w = w

  visit_chain-Branches :
      (left op right : ℕ) (rest : List (ℕ × ℕ)) (bb true_bb false_bb : ℕ) (s : Build)
      → IsOpen s bb
      → Branches holds bb true_bb false_bb
          (evaluate_chain holds left op right rest)
          s
          (visit_chain left op right rest bb true_bb false_bb s)
  unfolding visit_chain evaluate_chain fresh_block new_bb
  visit_chain-Branches left op right [] bb true_bb false_bb s h =
      branch_on-Branches holds (comparison left op right) bb true_bb false_bb s h
  visit_chain-Branches left op right ((op', next) ∷ rest) bb true_bb false_bb s h =
      let s1 : Build = (fresh_block s).1 in
      let first =
        branch_on-Branches holds (comparison left op right) bb (size s) false_bb s1
          (fresh_block-keep s bb h) in
      let s2 : Build = branch_on (comparison left op right) bb (size s) false_bb s1 in
      let extra : IsOpen s2 (size s) = extra-Open h first.extends in
      operands holds and_op h.known first
        (visit_chain-Branches right op' next rest (size s) true_bb false_bb s2 extra)

  mutual
    unfolding visit_cond visit_right evaluate evaluate_all fresh_block new_bb

    visit_cond-Branches :
        (c : Cond) (bb true_bb false_bb : ℕ) (s : Build)
        → IsOpen s bb
        → Branches holds bb true_bb false_bb
            (evaluate holds c)
            s
            (visit_cond c bb true_bb false_bb s)
    visit_cond-Branches (constant v) bb true_bb false_bb s h =
        constant-Branches holds v bb true_bb false_bb s h
    visit_cond-Branches (leaf l) bb true_bb false_bb s h =
        branch_on-Branches holds l bb true_bb false_bb s h
    visit_cond-Branches (not_op c) bb true_bb false_bb s h =
        let r = visit_cond-Branches c bb false_bb true_bb s h in
        record {
          extends = r.extends;
          walks =
              swapped (evaluate holds c).leaves (evaluate holds c).result true_bb false_bb r.walks;
        }
    visit_cond-Branches (bool_op op c cs) bb true_bb false_bb s h =
        let s1 : Build = (fresh_block s).1 in
        let yes_bb = first_true op (size s) true_bb in
        let no_bb = first_false op (size s) false_bb in
        let first = visit_cond-Branches c bb yes_bb no_bb s1 (fresh_block-keep s bb h) in
        let s2 : Build = visit_cond c bb yes_bb no_bb s1 in
        let extra : IsOpen s2 (size s) = extra-Open h first.extends in
        operands holds op h.known first
          (visit_right-Branches op cs (size s) true_bb false_bb s2 extra)
    visit_cond-Branches (compare_chain left op right rest) bb true_bb false_bb s h =
        visit_chain-Branches left op right rest bb true_bb false_bb s h
    visit_cond-Branches (if_exp test body orelse) bb true_bb false_bb s h =
        let s1 : Build = (fresh_block s).1 in
        let s2 : Build = (fresh_block s1).1 in
        let one = fresh_block-size s in
        let r1 =
          visit_cond-Branches test bb (size s) (size s1) s2
            (fresh_block-keep s1 bb (fresh_block-keep s bb h)) in
        let s3 : Build = visit_cond test bb (size s) (size s1) s2 in
        let then_open : IsOpen s3 (size s) =
          IsOpen-keep r1.extends (λ q. ground (arith, h.known))
            (fresh_block-keep s1 (size s) (fresh_block-Open s)) in
        let r2 = visit_cond-Branches body (size s) true_bb false_bb s3 then_open in
        let s4 : Build = visit_cond body (size s) true_bb false_bb s3 in
        let else_open : IsOpen s4 (size s1) =
          IsOpen-keep r2.extends (λ q. ground (arith, one))
            (IsOpen-keep r1.extends (λ q. ground (arith, h.known, one)) (fresh_block-Open s1)) in
        parts holds h.known r1 r2
          (visit_cond-Branches orelse (size s1) true_bb false_bb s4 else_open)

    visit_right-Branches :
        (op : BoolOp) (cs : Conds) (bb true_bb false_bb : ℕ) (s : Build)
        → IsOpen s bb
        → Branches holds bb true_bb false_bb
            (evaluate_all holds op cs)
            s
            (visit_right op cs bb true_bb false_bb s)
    visit_right-Branches op (last c) bb true_bb false_bb s h =
        visit_cond-Branches c bb true_bb false_bb s h
    visit_right-Branches op (more c cs) bb true_bb false_bb s h =
        let s1 : Build = (fresh_block s).1 in
        let yes_bb = first_true op (size s) true_bb in
        let no_bb = first_false op (size s) false_bb in
        let first = visit_cond-Branches c bb yes_bb no_bb s1 (fresh_block-keep s bb h) in
        let s2 : Build = visit_cond c bb yes_bb no_bb s1 in
        let extra : IsOpen s2 (size s) = extra-Open h first.extends in
        operands holds op h.known first
          (visit_right-Branches op cs (size s) true_bb false_bb s2 extra)

  -- From a known block without a branch, a run of the branches that `add_branch` builds evaluates
  -- exactly the leaves that short-circuit evaluation evaluates, in the same order, and leads to
  -- `true_bb` if the condition holds and to `false_bb` if not. On the way it meets only that block
  -- and new ones. Of the blocks that were there, no other one gets a new way out.
  pub add_branch_lem :
      (c : Cond) (s : Build) (bb true_bb false_bb : ℕ)
      → IsOpen s bb
      → Walk holds
          (add_branch c s bb true_bb false_bb)
          (Own bb (size s) (size (add_branch c s bb true_bb false_bb)))
          bb
          (evaluate holds c).leaves
          (if (evaluate holds c).result then true_bb else false_bb)
        × ((b : ℕ)
            → b < size s
            → b ≢ bb
            → ((add_branch c s bb true_bb false_bb).branch_pred b ≡ s.branch_pred b)
              × (((add_branch c s bb true_bb false_bb).graph.links b).successors
                  ≡ (s.graph.links b).successors))
  add_branch_lem c s bb true_bb false_bb h =
      let r = visit_cond-Branches c bb true_bb false_bb s h in
      (r.walks, λ b lt ne. let same = r.extends.keeps b lt ne in (same.pred, same.succ))
