-- ===== src/Cfg/Branch/Stages.antt =====
-- Stages of `BranchBuilder` of cfg/builder.py: what a stage adds to the blocks, and how the walks of
-- two or three stages make one.
use guppylang.Common.{
  ℕ, ◌+◌, ◌≤◌, ◌<◌, ◌≡◌, ◌≢◌, refl, Bool, true, false, none, List, [], ◌∷◌, ◌++◌, if◌then◌else◌,
  length, arith, ◌⊎◌, inl, inr, ◌∙◌, length-append,
}
use guppylang.Cfg.Graph.{append_successor, new_bb, link, dummy_link}
use guppylang.Cfg.Branch.{
  Leaf, BoolOp, and_op, or_op, constant, Build, fresh_block, branch_on, first_true, first_false,
  visit_cond,
}
use guppylang.Cfg.Branch.Evaluate.{
  Evaluation, short_circuit, choose, evaluate_leaf, Walk, arrived, jumps, decides,
}

abbrev pub size : Build → ℕ
size s = length s.graph.bbs

-- The block has no branch yet.
pub record IsOpen (s : Build) (b : ℕ) : Type 0 where
  pub known : b < size s
  pub no_pred : s.branch_pred b ≡ none
  pub no_successors : (s.graph.links b).successors ≡ []

-- `s'` leads out of `b` in the same way.
pub record Same (s s' : Build) (b : ℕ) : Type 0 where
  pub pred : s'.branch_pred b ≡ s.branch_pred b
  pub succ : (s'.graph.links b).successors ≡ (s.graph.links b).successors

-- Blocks are added, and only the way out of `bb` changes.
pub record Extends (bb : ℕ) (s s' : Build) : Type 0 where
  pub grows : size s ≤ size s'
  pub keeps : (b : ℕ) → b < size s → b ≢ bb → Same s s' b

-- `bb` and the blocks from `n` on.
abbrev pub Own : ℕ → ℕ → ℕ → ℕ → Type 0
Own bb n m b = (b < m) × ((b ≡ bb) ⊎ (n ≤ b))

module _ (holds : Leaf → Bool) where
  -- The walk of `s` is one of `s'`, if that keeps the ways out of its blocks.
  Walk-keep :
      {s s' : Build} {P Q : ℕ → Type 0} {b t : ℕ} {ls : List Leaf}
      → ((c : ℕ) → P c → Q c × Same s s' c)
      → Walk holds s P b ls t
      → Walk holds s' Q b ls t
  Walk-keep keep arrived = arrived
  Walk-keep keep (jumps own p e w) =
      let (mine, same) = keep _ own in jumps mine (same.pred ∙ p) (same.succ ∙ e) (Walk-keep keep w)
  Walk-keep keep (decides own p e w) =
      let (mine, same) = keep _ own in
      decides mine (same.pred ∙ p) (same.succ ∙ e) (Walk-keep keep w)

  Walk-append :
      {s : Build} {P : ℕ → Type 0} {a b c : ℕ} {ls ms : List Leaf}
      → Walk holds s P a ls b
      → Walk holds s P b ms c
      → Walk holds s P a (ls ++ ms) c
  Walk-append arrived v = v
  Walk-append (jumps own p e w) v = jumps own p e (Walk-append w v)
  Walk-append (decides own p e w) v = decides own p e (Walk-append w v)

pub fresh_block-size : (s : Build) → size (fresh_block s).1 ≡ size s + 1
unfolding fresh_block new_bb append_successor
fresh_block-size s = ground (arith, length-append s.graph.bbs (length s.graph.bbs ∷ []))

pub fresh_block-Open : (s : Build) → IsOpen (fresh_block s).1 (size s)
unfolding fresh_block new_bb append_successor
fresh_block-Open s = record {
  known = ground (arith, fresh_block-size s);
  no_pred = ground arith;
  no_successors = ground arith;
}

fresh_block-Extends : (s : Build) (bb : ℕ) → Extends bb s (fresh_block s).1
unfolding fresh_block new_bb append_successor
fresh_block-Extends s bb = record {
  grows = ground (arith, fresh_block-size s);
  keeps = λ b lt ne. record { pred = ground arith; succ = ground arith };
}

Extends-trans :
    {bb x : ℕ} {s s1 s2 : Build}
    → Extends bb s s1
    → Extends x s1 s2
    → (x ≡ bb) ⊎ (size s ≤ x)
    → Extends bb s s2
Extends-trans {bb} {x} e f old = record {
  grows = omega (arith, e.grows, f.grows);
  keeps = λ b lt ne.
      let first = e.keeps b lt ne in
      let apart : b ≢ x = elim old [
        | inl same ↦ λ q. ne (q ∙ same)
        | inr new ↦ λ q. ground arith
      ] in
      let second = f.keeps b (omega (arith, e.grows)) apart in
      record { pred = second.pred ∙ first.pred; succ = second.succ ∙ first.succ };
}

pub IsOpen-keep : {bb x : ℕ} {s s' : Build} → Extends bb s s' → x ≢ bb → IsOpen s x → IsOpen s' x
IsOpen-keep {bb} {x} e ne h =
    let same = e.keeps x h.known ne in
    record {
      known = omega (arith, e.grows, h.known);
      no_pred = same.pred ∙ h.no_pred;
      no_successors = same.succ ∙ h.no_successors;
    }

pub fresh_block-keep : (s : Build) (x : ℕ) → IsOpen s x → IsOpen (fresh_block s).1 x
fresh_block-keep s x h =
    IsOpen-keep (fresh_block-Extends s (size s)) (λ q. ground (arith, h.known)) h

pub extra-Open :
    {bb : ℕ} {s s2 : Build} → IsOpen s bb → Extends bb (fresh_block s).1 s2 → IsOpen s2 (size s)
extra-Open {bb} {s} h e = IsOpen-keep e (λ q. ground (arith, h.known)) (fresh_block-Open s)

module _ (holds : Leaf → Bool) where
  -- A walk through the blocks of one stage is one through those of a larger stage.
  widen :
      {s : Build} {bb bb' lo lo' hi b t : ℕ} {ls : List Leaf}
      → lo' ≤ lo
      → (bb ≡ bb') ⊎ (lo' ≤ bb)
      → Walk holds s (Own bb lo hi) b ls t
      → Walk holds s (Own bb' lo' hi) b ls t
  widen {bb = bb} {bb'} {lo} {lo'} le within w =
      Walk-keep holds (λ c (lt, own). ((lt, ground arith), record { pred = refl; succ = refl })) w

  -- A later stage that changes the way out of `x` keeps it.
  lift :
      {s s' : Build} {bb lo x b t : ℕ} {ls : List Leaf}
      → Extends x s s'
      → x < lo
      → x ≢ bb
      → Walk holds s (Own bb lo (size s)) b ls t
      → Walk holds s' (Own bb lo (size s')) b ls t
  lift {s} {s'} {bb} {lo} {x} e below apart w =
      Walk-keep holds
        (λ c (lt, own). ((omega (arith, e.grows, lt), own), e.keeps c lt (λ q. ground arith))) w

  -- From `bb`, the branches evaluate the condition and lead to `true_bb` or `no`.
  pub record Branches (bb true_bb false_bb : ℕ) (e : Evaluation) (s s' : Build) : Type 0 where
    pub extends : Extends bb s s'
    pub walks :
        Walk holds s'
          (Own bb (size s) (size s'))
          bb
          e.leaves
          (if e.result then true_bb else false_bb)

  pub branch_on-Branches :
      (l : Leaf) (bb true_bb false_bb : ℕ) (s : Build)
      → IsOpen s bb
      → Branches bb true_bb false_bb (evaluate_leaf holds l) s (branch_on l bb true_bb false_bb s)
  unfolding branch_on link
  branch_on-Branches l bb true_bb false_bb s h = record {
    extends = record {
      grows = ground arith;
      keeps = λ b lt ne. record { pred = ground arith; succ = ground arith };
    };
    walks =
        decides {true_bb = true_bb} {false_bb = false_bb} (h.known, inl refl) (ground arith)
          (ground (arith, h.no_successors)) arrived;
  }

  pub constant-Branches :
      (v : Bool) (bb true_bb false_bb : ℕ) (s : Build)
      → IsOpen s bb
      → Branches bb true_bb false_bb
          (record { leaves = []; result = v })
          s
          (visit_cond (constant v) bb true_bb false_bb s)
  unfolding visit_cond link dummy_link
  constant-Branches v bb true_bb false_bb s h = record {
    extends = record {
      grows = ground arith;
      keeps = λ b lt ne. record { pred = refl; succ = ground arith };
    };
    walks = jumps (h.known, inl refl) h.no_pred (ground (arith, h.no_successors)) arrived;
  }

  operator_walk :
      (op : BoolOp) (ls : List Leaf) (result : Bool) (b : Evaluation) (true_bb false_bb : ℕ)
      {s : Build} {P : ℕ → Type 0} {bb extra : ℕ}
      → Walk holds s P bb ls
          (if result then first_true op extra true_bb else first_false op extra false_bb)
      → Walk holds s P extra b.leaves (if b.result then true_bb else false_bb)
      → Walk holds s P bb (short_circuit op (record { leaves = ls; result = result }) b).leaves (
          if (short_circuit op (record { leaves = ls; result = result }) b).result
          then true_bb
          else false_bb)
  operator_walk and_op ls true b true_bb false_bb first second = Walk-append holds first second
  operator_walk and_op ls false b true_bb false_bb first second = first
  operator_walk or_op ls true b true_bb false_bb first second = first
  operator_walk or_op ls false b true_bb false_bb first second = Walk-append holds first second

  -- The two operands of an operator, from the block `size s` that is new.
  pub operands :
      (op : BoolOp) {bb true_bb false_bb : ℕ} {a b : Evaluation} {s s2 s3 : Build}
      → bb < size s
      → Branches bb
          (first_true op (size s) true_bb)
          (first_false op (size s) false_bb)
          a
          (fresh_block s).1
          s2
      → Branches (size s) true_bb false_bb b s2 s3
      → Branches bb true_bb false_bb (short_circuit op a b) s s3
  operands op {bb} {true_bb} {false_bb} {a} {b} {s} {s2} {s3} lt r1 r2 =
      let fresh = fresh_block-size s in
      let first : Walk holds s3 (Own bb (size s) (size s3)) bb a.leaves
          (if a.result then first_true op (size s) true_bb else first_false op (size s) false_bb) =
        widen (omega (arith, fresh)) (inl refl)
          (lift r2.extends (omega (arith, fresh)) (λ q. ground arith) r1.walks) in
      let second : Walk holds s3 (Own bb (size s) (size s3)) (size s) b.leaves
          (if b.result then true_bb else false_bb) =
        widen (omega (arith, fresh, r1.extends.grows)) (inr (omega arith)) r2.walks in
      record {
        extends =
            Extends-trans (Extends-trans (fresh_block-Extends s bb) r1.extends (inl refl))
              r2.extends (inr (omega arith));
        walks = operator_walk op a.leaves a.result b true_bb false_bb first second;
      }

  choice_walk :
      (ls : List Leaf) (result : Bool) (b c : Evaluation) (true_bb false_bb : ℕ) {s : Build}
      {P : ℕ → Type 0} {bb then_bb else_bb : ℕ}
      → Walk holds s P bb ls (if result then then_bb else else_bb)
      → Walk holds s P then_bb b.leaves (if b.result then true_bb else false_bb)
      → Walk holds s P else_bb c.leaves (if c.result then true_bb else false_bb)
      → Walk holds s P bb (choose (record { leaves = ls; result = result }) b c).leaves (
          if (choose (record { leaves = ls; result = result }) b c).result
          then true_bb
          else false_bb)
  choice_walk ls true b c true_bb false_bb test body orelse = Walk-append holds test body
  choice_walk ls false b c true_bb false_bb test body orelse = Walk-append holds test orelse

  -- The three parts of a conditional expression, with the blocks `size s` and the one after it.
  pub parts :
      {bb true_bb false_bb : ℕ} {a b c : Evaluation} {s s3 s4 s5 : Build}
      → bb < size s
      → (let s1 = (fresh_block s).1 in
          Branches bb (size s) (size s1) a (fresh_block s1).1 s3
          → Branches (size s) true_bb false_bb b s3 s4
          → Branches (size s1) true_bb false_bb c s4 s5
          → Branches bb true_bb false_bb (choose a b c) s s5)
  parts {bb} {true_bb} {false_bb} {a} {b} {c} {s} {s3} {s4} {s5} lt r1 r2 r3 =
      let s1 : Build = (fresh_block s).1 in
      let one = fresh_block-size s in
      let two = fresh_block-size s1 in
      let test : Walk holds s5 (Own bb (size s) (size s5)) bb a.leaves
          (if a.result then size s else size s1) =
        widen (omega (arith, one, two)) (inl refl) (
          lift r3.extends (omega (arith, two)) (λ q. ground arith)
            (lift r2.extends (omega (arith, one, two)) (λ q. ground arith) r1.walks)) in
      let body : Walk holds s5 (Own bb (size s) (size s5)) (size s) b.leaves
          (if b.result then true_bb else false_bb) =
        widen (omega (arith, one, two, r1.extends.grows)) (inr (omega arith))
          (lift r3.extends (omega (arith, two, r1.extends.grows)) (λ q. ground arith) r2.walks) in
      let orelse : Walk holds s5 (Own bb (size s) (size s5)) (size s1) c.leaves
          (if c.result then true_bb else false_bb) =
        widen (omega (arith, one, two, r1.extends.grows, r2.extends.grows))
          (inr (omega (arith, one))) r3.walks in
      record {
        extends =
            Extends-trans
              (Extends-trans
                (Extends-trans
                  (Extends-trans (fresh_block-Extends s bb) (fresh_block-Extends s1 bb) (inl refl))
                  r1.extends (inl refl))
                r2.extends (inr (omega arith)))
              r3.extends (inr (omega (arith, one)));
        walks = choice_walk a.leaves a.result b c true_bb false_bb test body orelse;
      }
