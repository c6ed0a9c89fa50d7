-- ===== src/Cfg/Variables/Effect.antt =====
-- That `VariableVisitor` of cfg/bb.py records what a basic block does to each variable, for blocks
-- without nested functions and modified blocks.
use guppylang.Common.{
  ℕ, ◌≡◌, refl, false, not, ◌&&◌, ◌||◌, Option, none, some, String, List, [], ◌∷◌, arith, string_eq,
  Bool-cases, inl, inr, sym, any,
}
use guppylang.Common.Dict.{get, has, remove, restrict, get-put, has-merge, has-restrict}
use guppylang.Common.Loop.{done, done_unique}
use guppylang.Cfg.Stats.{no_stats}
use guppylang.Cfg.Syntax.{
  Expr, Exprs, Generators, Stmt, Stmts, Block, AstNode, expr_node, stmt_node, name, elements,
  attribute, subscript, starred, comprehension, comptime, other, no_exprs, expr_cons, no_generators,
  generator, assign, aug_assign, ann_assign, expr, return_stmt, nested_function, modified_block,
  no_stmts, stmt_cons, block,
}
use guppylang.Cfg.Variables.{
  Stats, name_nodes, mark_used, mark_all, update_used, mark_assigned, absorb, visit_expr,
  visit_exprs, assign_target, assign_targets, visit_generators, visit_option, visit_stmt,
  visit_stmts, compute_stats,
}
use guppylang.Cfg.Variables.Meaning.{
  Effect, nothing, ◌then◌, scoped, reads, effect_expr, effect_exprs, effect_target, effect_targets,
  effect_generators, effect_option, effect_stmt, effect_stmts, effect_block, IsFlat, AllFlat,
  IsFlatBlock,
}

-- The visitor took `s` to `t`, and recorded the effect `e` on `x`.
record Records (x : String) (e : Effect) (s t : Stats) : Type 0 where
  outside : t.assigned_in_modifier_block ≡ []
  uses : has x t.used ≡ (has x s.used || not (has x s.assigned) && e.exposed)
  assigns : has x t.assigned ≡ (has x s.assigned || e.binds)

module _ (x : String) where
  Records-then :
      {a b : Effect} {r s t : Stats} → Records x a r s → Records x b s t → Records x (a then b) r t
  Records-then f g = record {
    outside = g.outside;
    uses = ground (arith, f.uses, f.assigns, g.uses);
    assigns = ground (arith, f.assigns, g.assigns);
  }

  Records-nothing : (s : Stats) → s.assigned_in_modifier_block ≡ [] → Records x nothing s s
  Records-nothing s h = record { outside = h; uses = ground arith; assigns = ground arith }

  mark_used-Records :
      (i : ℕ) (y : String) (s : Stats)
      → s.assigned_in_modifier_block ≡ []
      → Records x (reads (string_eq.beq x y)) s (mark_used i y s)
  unfolding mark_used get
  mark_used-Records i y s h = elim (Bool-cases (has y s.assigned)) [
    | inl bound ↦ record {
      outside = rw (mark_used, h, bound) h;
      uses = rw (mark_used, h, bound) (ground (arith, string_eq.beq_iff x y));
      assigns = rw (mark_used, h, bound) (ground arith);
    }
    | inr free ↦ elim (Bool-cases (has y s.used)) [
      | inl old ↦ record {
        outside = rw (mark_used, h, free, old) h;
        uses = rw (mark_used, h, free, old) (ground (arith, string_eq.beq_iff x y));
        assigns = rw (mark_used, h, free, old) (ground arith);
      }
      | inr new ↦ record {
        outside = rw (mark_used, h, free, new, h);
        uses =
            rw (mark_used, h, free, new, h)
              (ground (arith, string_eq.beq_iff x y, get-put y x (expr_node (name i y)) s.used));
        assigns = rw (mark_used, h, free, new, h) (ground arith);
      }
    ]
  ]

  mark_assigned-Records :
      (y : String) (node : AstNode) (s : Stats)
      → s.assigned_in_modifier_block ≡ []
      → Records x (record { exposed = false; binds = string_eq.beq x y }) s (mark_assigned y node s)
  unfolding mark_assigned remove
  mark_assigned-Records y node s h = record {
    outside = rw h;
    uses = ground arith;
    assigns = ground (arith, get-put y x node s.assigned);
  }

  absorb-Records :
      (inner s : Stats) (e : Effect)
      → s.assigned_in_modifier_block ≡ []
      → Records x e no_stats inner
      → Records x (scoped e) s (absorb inner.used (λ y. has y s.assigned) s)
  unfolding absorb get
  absorb-Records inner s e h r = record {
    outside = h;
    uses = ground (
      arith,
      has-merge x s.used (restrict (λ y. not (has y s.assigned)) inner.used),
      has-restrict (λ y. not (has y s.assigned)) x inner.used,
      r.uses,
    );
    assigns = ground arith;
  }

  mark_all-Records :
      (ns : List (ℕ × String)) (s : Stats)
      → s.assigned_in_modifier_block ≡ []
      → Records x (reads (any (λ p. string_eq.beq x p.1) ns)) s (mark_all ns s)
  unfolding mark_all
  mark_all-Records [] s h = Records-nothing s h
  mark_all-Records ((i, y) ∷ ns) s h =
      let first = mark_used-Records i y s h in
      Records-then first (mark_all-Records ns (mark_used i y s) first.outside)

  mutual
    unfolding visit_expr visit_exprs assign_target assign_targets visit_generators effect_expr
        effect_exprs effect_target effect_targets effect_generators name_nodes mark_all

    visit_expr-Records :
        (e : Expr) (s : Stats)
        → s.assigned_in_modifier_block ≡ []
        → Records x (effect_expr x e) s (visit_expr e s)
    visit_expr-Records (name i y) s h = mark_used-Records i y s h
    visit_expr-Records (elements es) s h = visit_exprs-Records es s h
    visit_expr-Records (attribute e) s h = visit_expr-Records e s h
    visit_expr-Records (subscript v i) s h =
        let r = visit_expr-Records v s h in
        Records-then r (visit_expr-Records i (visit_expr v s) r.outside)
    visit_expr-Records (starred e) s h = visit_expr-Records e s h
    visit_expr-Records (comprehension elt gens) s h =
        let inside = visit_generators-Records gens no_stats refl in
        absorb-Records (visit_expr elt (visit_generators gens no_stats)) s
          (effect_generators x gens then effect_expr x elt) h
          (Records-then inside
            (visit_expr-Records elt (visit_generators gens no_stats) inside.outside))
    visit_expr-Records (comptime e) s h = Records-nothing s h
    visit_expr-Records (other es) s h = visit_exprs-Records es s h

    visit_exprs-Records :
        (es : Exprs) (s : Stats)
        → s.assigned_in_modifier_block ≡ []
        → Records x (effect_exprs x es) s (visit_exprs es s)
    visit_exprs-Records no_exprs s h = Records-nothing s h
    visit_exprs-Records (expr_cons e es) s h =
        let r = visit_expr-Records e s h in
        Records-then r (visit_exprs-Records es (visit_expr e s) r.outside)

    assign_target-Records :
        (e : Expr) (node : AstNode) (s : Stats)
        → s.assigned_in_modifier_block ≡ []
        → Records x (effect_target x e) s (assign_target e node s)
    assign_target-Records (name i y) node s h = mark_assigned-Records y node s h
    assign_target-Records (elements es) node s h = assign_targets-Records es node s h
    assign_target-Records (attribute e) node s h = visit_expr-Records e s h
    assign_target-Records (subscript v i) node s h =
        let r = visit_expr-Records i s h in
        Records-then r (visit_expr-Records v (visit_expr i s) r.outside)
    assign_target-Records (starred e) node s h = assign_target-Records e node s h
    assign_target-Records (comprehension elt gens) node s h = Records-nothing s h
    assign_target-Records (comptime e) node s h = Records-nothing s h
    assign_target-Records (other es) node s h = Records-nothing s h

    assign_targets-Records :
        (es : Exprs) (node : AstNode) (s : Stats)
        → s.assigned_in_modifier_block ≡ []
        → Records x (effect_targets x es) s (assign_targets es node s)
    assign_targets-Records no_exprs node s h = Records-nothing s h
    assign_targets-Records (expr_cons e es) node s h =
        let r = assign_target-Records e node s h in
        Records-then r (assign_targets-Records es node (assign_target e node s) r.outside)

    visit_generators-Records :
        (gens : Generators) (s : Stats)
        → s.assigned_in_modifier_block ≡ []
        → Records x (effect_generators x gens) s (visit_generators gens s)
    visit_generators-Records no_generators s h = Records-nothing s h
    visit_generators-Records (generator ts v next it t ifs gens) s h =
        let at = stmt_node (assign ts v) in
        let r1 = visit_expr-Records v s h in
        let r2 = assign_targets-Records ts at (visit_expr v s) r1.outside in
        let r3 = visit_expr-Records next (assign_targets ts at (visit_expr v s)) r2.outside in
        let r4 =
          assign_target-Records t at (visit_expr next (assign_targets ts at (visit_expr v s)))
            r3.outside in
        let s4 = assign_target t at (visit_expr next (assign_targets ts at (visit_expr v s))) in
        let r5 = visit_exprs-Records ifs s4 r4.outside in
        Records-then (Records-then (Records-then (Records-then r1 r2) r3) r4)
          (Records-then r5 (visit_generators-Records gens (visit_exprs ifs s4) r5.outside))

  visit_option-Records :
      (e : Option Expr) (s : Stats)
      → s.assigned_in_modifier_block ≡ []
      → Records x (effect_option x e) s (visit_option e s)
  visit_option-Records none s h = Records-nothing s h
  visit_option-Records (some e) s h = visit_expr-Records e s h

  visit_stmt-Records :
      (choose : ℕ → List ℕ → ℕ) (t : Stmt) (s : Stats)
      → IsFlat t
      → s.assigned_in_modifier_block ≡ []
      → (s' : Stats) × (visit_stmt choose t s ≡ done s') × Records x (effect_stmt x t) s s'
  unfolding visit_stmt effect_stmt
  visit_stmt-Records choose (assign ts v) s f h =
      let r = visit_expr-Records v s h in
      (
        _,
        refl,
        Records-then r
            (assign_targets-Records ts (stmt_node (assign ts v)) (visit_expr v s) r.outside),
      )
  visit_stmt-Records choose (aug_assign t v) s f h =
      let r = visit_expr-Records v s h in
      let used = mark_all-Records (name_nodes t) (visit_expr v s) r.outside in
      (
        _,
        refl,
        Records-then r (
            Records-then used (
              assign_target-Records t (stmt_node (aug_assign t v)) (update_used t (visit_expr v s))
                used.outside)),
      )
  visit_stmt-Records choose (ann_assign t v) s f h =
      let r = visit_option-Records v s h in
      (
        _,
        refl,
        Records-then r
            (assign_target-Records t (stmt_node (ann_assign t v)) (visit_option v s) r.outside),
      )
  visit_stmt-Records choose (expr e) s f h = (_, refl, visit_expr-Records e s h)
  visit_stmt-Records choose (return_stmt e) s f h = (_, refl, visit_option-Records e s h)
  visit_stmt-Records choose (nested_function fun args g bs) s f h = absurd f
  visit_stmt-Records choose (modified_block control power g bs) s f h = absurd f

  visit_stmts-Records :
      (choose : ℕ → List ℕ → ℕ) (ts : Stmts) (s : Stats)
      → AllFlat ts
      → s.assigned_in_modifier_block ≡ []
      → (s' : Stats) × (visit_stmts choose ts s ≡ done s') × Records x (effect_stmts x ts) s s'
  unfolding visit_stmts effect_stmts
  visit_stmts-Records choose no_stmts s f h = (s, refl, Records-nothing s h)
  visit_stmts-Records choose (stmt_cons t ts) s f h =
      let (s1, e1, r1) = visit_stmt-Records choose t s f.0 h in
      let (s2, e2, r2) = visit_stmts-Records choose ts s1 f.1 r1.outside in
      (s2, rw e1 e2, Records-then r1 r2)

-- On a block without nested functions and modified blocks, `compute_variable_stats` succeeds. It
-- then reports exactly those variables as used that the block reads before it binds them, and
-- exactly those as assigned that it binds; what a comprehension binds counts only inside of it.
pub compute_stats-effect_block :
    (choose : ℕ → List ℕ → ℕ) (b : Block)
    → IsFlatBlock b
    → (s : Stats) × (compute_stats choose b ≡ done s)
      × ((x : String)
          → (has x s.used ≡ (effect_block x b).exposed)
            × (has x s.assigned ≡ (effect_block x b).binds))
unfolding compute_stats effect_block get
compute_stats-effect_block choose (block ss pred) f =
    let (s, ends, _) = visit_stmts-Records "" choose ss no_stats f refl in
    (
      visit_option pred s,
      rw ends,
      λ x.
          let (s', ends', r) = visit_stmts-Records x choose ss no_stats f refl in
          let same : s' ≡ s = done_unique ends' ends in
          let whole = Records-then x r (visit_option-Records x pred s' r.outside) in
          rw (sym same) (whole.uses, whole.assigns),
    )
