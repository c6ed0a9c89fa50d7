-- ===== src/Cfg/Branch/Linked.antt =====
-- `BranchBuilder` of cfg/builder.py keeps the graph well linked.
use guppylang.Common.{
  ℕ, ◌≤◌, ◌<◌, ◌≡◌, refl, Bool, true, false, List, [], ◌∷◌, length, arith, nat_eq,
}
use guppylang.Common.Sets.{elem}
use guppylang.Cfg.Graph.{Graph, new_bb, link, dummy_link}
use guppylang.Cfg.Graph.WellLinked.{IsWellLinked, link-IsWellLinked, dummy_link-IsWellLinked}
use guppylang.Cfg.Graph.NewBlock.{new_bb_lem}
use guppylang.Cfg.Branch.{
  Leaf, comparison, BoolOp, and_op, or_op, Cond, Conds, constant, leaf, not_op, bool_op,
  compare_chain, if_exp, last, more, Build, fresh_block, branch_on, first_true, first_false,
  visit_chain, visit_cond, visit_right, add_branch,
}
use guppylang.Cfg.Branch.Stages.{size, fresh_block-size}

-- `s'` is well linked and has the blocks of `s`.
pub record Linked (s s' : Build) : Type 0 where
  pub well_linked : IsWellLinked s'.graph
  pub grows : size s ≤ size s'

Linked-trans : {s s1 s2 : Build} → Linked s s1 → Linked s1 s2 → Linked s s2
Linked-trans a b = record { well_linked = b.well_linked; grows = omega (arith, a.grows, b.grows) }

pub known : (g : Graph) (b : ℕ) → IsWellLinked g → b < length g.bbs → elem b g.bbs ≡ true
known g b h lt = ground (arith, h.numbered b)

pub fresh_block-Linked : (s : Build) → IsWellLinked s.graph → Linked s (fresh_block s).1
unfolding fresh_block
fresh_block-Linked s h = record {
  well_linked = (new_bb_lem [] s.graph refl h).0;
  grows = omega (arith, fresh_block-size s);
}

-- A link, and a dummy link, between known blocks.
pub link-Linked :
    (src tgt : ℕ) (g : Graph)
    → IsWellLinked g
    → src < length g.bbs
    → tgt < length g.bbs
    → IsWellLinked (link src tgt g) × IsWellLinked (dummy_link src tgt g)
link-Linked src tgt g h s t = (
  link-IsWellLinked src tgt g (known g src h s) (known g tgt h t) h,
  dummy_link-IsWellLinked src tgt g (known g src h s) (known g tgt h t) h,
)

module _ (bb true_bb false_bb : ℕ) where
  -- The three blocks of a branch are known.
  abbrev Ends : Build → Type 0
  Ends s = (bb < size s) × (true_bb < size s) × (false_bb < size s)

  branch_on-Linked :
      (l : Leaf) (s : Build)
      → IsWellLinked s.graph
      → Ends s
      → Linked s (branch_on l bb true_bb false_bb s)
  unfolding branch_on link
  branch_on-Linked l s h (b, t, f) = record {
    well_linked =
        (link-Linked bb true_bb (link bb false_bb s.graph) (link-Linked bb false_bb s.graph h b f).0
          b t).0;
    grows = omega arith;
  }

  constant-Linked :
      (v : Bool) (s : Build)
      → IsWellLinked s.graph
      → Ends s
      → Linked s (visit_cond (constant v) bb true_bb false_bb s)
  unfolding visit_cond link dummy_link
  constant-Linked true s h (b, t, f) = record {
    well_linked =
        (link-Linked bb false_bb (link bb true_bb s.graph) (link-Linked bb true_bb s.graph h b t).0
          b f).1;
    grows = omega arith;
  }
  constant-Linked false s h (b, t, f) = record {
    well_linked =
        (link-Linked bb true_bb (link bb false_bb s.graph) (link-Linked bb false_bb s.graph h b f).0
          b t).1;
    grows = omega arith;
  }

visit_chain-Linked :
    (left op right : ℕ) (rest : List (ℕ × ℕ)) (bb true_bb false_bb : ℕ) (s : Build)
    → IsWellLinked s.graph
    → Ends bb true_bb false_bb s
    → Linked s (visit_chain left op right rest bb true_bb false_bb s)
unfolding visit_chain fresh_block new_bb
visit_chain-Linked left op right [] bb true_bb false_bb s h ends =
    branch_on-Linked bb true_bb false_bb (comparison left op right) s h ends
visit_chain-Linked left op right ((op', next) ∷ rest) bb true_bb false_bb s h (b, t, f) =
    let s1 : Build = (fresh_block s).1 in
    let new = fresh_block-size s in
    let r1 = fresh_block-Linked s h in
    let r2 =
      branch_on-Linked bb (size s) false_bb (comparison left op right) s1 r1.well_linked
        (omega (arith, new), omega (arith, new), omega (arith, new)) in
    let up = r2.grows in
    Linked-trans r1 (
      Linked-trans r2 (
        visit_chain-Linked right op' next rest (size s) true_bb false_bb
          (branch_on (comparison left op right) bb (size s) false_bb s1) r2.well_linked
          (omega (arith, new, up), omega (arith, new, up), omega (arith, new, up))))

first-Ends :
    (op : BoolOp) (bb true_bb false_bb : ℕ) (s : Build)
    → Ends bb true_bb false_bb s
    → Ends bb (first_true op (size s) true_bb) (first_false op (size s) false_bb) (fresh_block s).1
first-Ends and_op bb true_bb false_bb s (b, t, f) =
    let new = fresh_block-size s in (omega (arith, new), omega (arith, new), omega (arith, new))
first-Ends or_op bb true_bb false_bb s (b, t, f) =
    let new = fresh_block-size s in (omega (arith, new), omega (arith, new), omega (arith, new))

second-Ends :
    (bb true_bb false_bb : ℕ) (s : Build) {s2 : Build}
    → Linked (fresh_block s).1 s2
    → Ends bb true_bb false_bb s
    → Ends (size s) true_bb false_bb s2
second-Ends bb true_bb false_bb s r (b, t, f) =
    let new = fresh_block-size s in
    let up = r.grows in (omega (arith, new, up), omega (arith, new, up), omega (arith, new, up))

mutual
  unfolding visit_cond visit_right fresh_block new_bb

  visit_cond-Linked :
      (c : Cond) (bb true_bb false_bb : ℕ) (s : Build)
      → IsWellLinked s.graph
      → Ends bb true_bb false_bb s
      → Linked s (visit_cond c bb true_bb false_bb s)
  visit_cond-Linked (constant v) bb true_bb false_bb s h ends =
      constant-Linked bb true_bb false_bb v s h ends
  visit_cond-Linked (leaf l) bb true_bb false_bb s h ends =
      branch_on-Linked bb true_bb false_bb l s h ends
  visit_cond-Linked (not_op c) bb true_bb false_bb s h (b, t, f) =
      visit_cond-Linked c bb false_bb true_bb s h (b, f, t)
  visit_cond-Linked (bool_op op c cs) bb true_bb false_bb s h ends =
      let r1 = fresh_block-Linked s h in
      let yes_bb = first_true op (size s) true_bb in
      let no_bb = first_false op (size s) false_bb in
      let r2 =
        visit_cond-Linked c bb yes_bb no_bb (fresh_block s).1 r1.well_linked
          (first-Ends op bb true_bb false_bb s ends) in
      Linked-trans r1 (
        Linked-trans r2 (
          visit_right-Linked op cs (size s) true_bb false_bb
            (visit_cond c bb yes_bb no_bb (fresh_block s).1) r2.well_linked
            (second-Ends bb true_bb false_bb s r2 ends)))
  visit_cond-Linked (compare_chain left op right rest) bb true_bb false_bb s h ends =
      visit_chain-Linked left op right rest bb true_bb false_bb s h ends
  visit_cond-Linked (if_exp test body orelse) bb true_bb false_bb s h (b, t, f) =
      let s1 : Build = (fresh_block s).1 in
      let s2 : Build = (fresh_block s1).1 in
      let one = fresh_block-size s in
      let two = fresh_block-size s1 in
      let r1 = fresh_block-Linked s h in
      let r2 = fresh_block-Linked s1 r1.well_linked in
      let r3 =
        visit_cond-Linked test bb (size s) (size s1) s2 r2.well_linked
          (omega (arith, one, two), omega (arith, one, two), omega (arith, one, two)) in
      let s3 : Build = visit_cond test bb (size s) (size s1) s2 in
      let up3 = r3.grows in
      let r4 = visit_cond-Linked body (size s) true_bb false_bb s3 r3.well_linked (
        omega (arith, one, two, up3),
        omega (arith, one, two, up3),
        omega (arith, one, two, up3),
      ) in
      let s4 : Build = visit_cond body (size s) true_bb false_bb s3 in
      let up4 = r4.grows in
      let r5 = visit_cond-Linked orelse (size s1) true_bb false_bb s4 r4.well_linked (
        omega (arith, one, two, up3, up4),
        omega (arith, one, two, up3, up4),
        omega (arith, one, two, up3, up4),
      ) in
      Linked-trans r1 (Linked-trans r2 (Linked-trans r3 (Linked-trans r4 r5)))

  visit_right-Linked :
      (op : BoolOp) (cs : Conds) (bb true_bb false_bb : ℕ) (s : Build)
      → IsWellLinked s.graph
      → Ends bb true_bb false_bb s
      → Linked s (visit_right op cs bb true_bb false_bb s)
  visit_right-Linked op (last c) bb true_bb false_bb s h ends =
      visit_cond-Linked c bb true_bb false_bb s h ends
  visit_right-Linked op (more c cs) bb true_bb false_bb s h ends =
      let r1 = fresh_block-Linked s h in
      let yes_bb = first_true op (size s) true_bb in
      let no_bb = first_false op (size s) false_bb in
      let r2 =
        visit_cond-Linked c bb yes_bb no_bb (fresh_block s).1 r1.well_linked
          (first-Ends op bb true_bb false_bb s ends) in
      Linked-trans r1 (
        Linked-trans r2 (
          visit_right-Linked op cs (size s) true_bb false_bb
            (visit_cond c bb yes_bb no_bb (fresh_block s).1) r2.well_linked
            (second-Ends bb true_bb false_bb s r2 ends)))

-- On a well linked graph and between known blocks, `add_branch` keeps the graph well linked, and
-- no block is lost.
pub add_branch-Linked :
    (c : Cond) (s : Build) (bb true_bb false_bb : ℕ)
    → IsWellLinked s.graph
    → Ends bb true_bb false_bb s
    → Linked s (add_branch c s bb true_bb false_bb)
add_branch-Linked c s bb true_bb false_bb h ends = visit_cond-Linked c bb true_bb false_bb s h ends
