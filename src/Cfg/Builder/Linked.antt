-- ===== src/Cfg/Builder/Linked.antt =====
-- `CFGBuilder` of cfg/builder.py on a well linked graph: it builds a whole body without an
-- exception, and keeps the graph well linked.
use guppylang.Common.{
  ℕ, ◌≤◌, ◌<◌, ◌≡◌, refl, Bool, true, false, Option, none, some, [], ◌∷◌, length, arith, nat_eq,
}
use guppylang.Cfg.Graph.{new_bb, new_cfg, link}
use guppylang.Cfg.Graph.WellLinked.{IsWellLinked}
use guppylang.Cfg.Graph.NewBlock.{new_cfg-IsWellLinked}
use guppylang.Cfg.Branch.{Cond, constant, leaf, not_op, value}
use guppylang.Cfg.Branch.Linked.{known, link-Linked}
use guppylang.Cfg.Builder.{
  source, make_iter, iter_next, unwrap_nothing, unwrap, Source, simple, return_stmt, break_stmt,
  continue_stmt, pass_stmt, if_stmt, while_stmt, for_stmt, Body, no_stmts, stmt_cons, Jumps,
  Building, Visit, goes_on, and_visit, new_block_after, append_stmt, link_blocks, branch_to,
  next_block, merge_branches, close_loop, visit_while, leave_if_nothing, build_stmt, build_stmts,
  empty_building, build_body,
}
use guppylang.Cfg.Builder.Succeeds.{
  blocks, IsScoped, IsScopedBody, IsKnown, AreTargets, Succeeds, IsKnown-grow, IsTarget-grow,
  AreTargets-grow, and_visit-Succeeds, new_block_after-Added, next_block_lem, jump_to-Succeeds,
  stay, merge_branches-Succeeds, close_loop-Succeeds, Succeeds-from, branch_to-Linked,
}

-- What visits a body: it succeeds from every well linked graph, if its block and the targets of
-- the jumps are known.
abbrev SucceedsInLoop : ℕ → (Jumps → ℕ → Building → Visit) → Type 0
SucceedsInLoop n visit_body =
    (jumps : Jumps) (bb : ℕ) (s : Building)
    → IsWellLinked s.build.graph
    → n ≤ blocks s
    → bb < blocks s
    → AreTargets true (blocks s) jumps
    → Succeeds s (visit_body jumps bb s)

visit_while-Succeeds :
    (test : Cond) (visit_body : Jumps → ℕ → Building → Visit) (bb : ℕ) (jumps : Jumps)
    (s : Building)
    → SucceedsInLoop (blocks s) visit_body
    → IsWellLinked s.build.graph
    → bb < blocks s
    → jumps.return_bb < blocks s
    → Succeeds s (visit_while test visit_body bb jumps s)
unfolding visit_while
visit_while-Succeeds test visit_body bb jumps s inside h k ret =
    let a1 = new_block_after-Added (bb ∷ []) s h (ground (arith, known s.build.graph bb h k)) in
    let head_bb = (new_block_after (bb ∷ []) s).0 in
    let s1 : Building = (new_block_after (bb ∷ []) s).1 in
    let a2 = new_block_after-Added [] s1 a1.well_linked refl in
    let body_bb = (new_block_after [] s1).0 in
    let s2 : Building = (new_block_after [] s1).1 in
    let a3 = new_block_after-Added [] s2 a2.well_linked refl in
    let tail_bb = (new_block_after [] s2).0 in
    let s3 : Building = (new_block_after [] s2).1 in
    let new1 = a1.is_new in
    let size1 = a1.size in
    let new2 = a2.is_new in
    let size2 = a2.size in
    let new3 = a3.is_new in
    let size3 = a3.size in
    let (linked, grows) =
      branch_to-Linked test head_bb body_bb tail_bb s3 a3.well_linked
        (omega (arith, new1, size1, size2, size3)) (omega (arith, new2, size2, size3))
        (omega (arith, new3, size3)) in
    let s4 : Building = branch_to test head_bb body_bb tail_bb s3 in
    let r =
      inside
        (record {
          return_bb = jumps.return_bb;
          continue_bb = some head_bb;
          break_bb = some tail_bb;
        })
        body_bb s4 linked (omega (arith, size1, size2, size3, grows))
        (omega (arith, new2, size2, size3, grows))
        (record {
          returns = omega (arith, ret, size1, size2, size3, grows);
          continues = omega (arith, new1, size1, size2, size3, grows);
          breaks = omega (arith, new3, size3, grows);
        }) in
    let up = r.grows in
    Succeeds-from (omega (arith, size1, size2, size3, grows)) (
      and_visit-Succeeds (close_loop head_bb tail_bb) r (
        close_loop-Succeeds head_bb tail_bb r.end r.next r.well_linked
          (omega (arith, new1, size1, size2, size3, grows, up))
          (omega (arith, new3, size3, grows, up)) r.known_end))

leave_if_nothing-Succeeds :
    (loop is_some bb : ℕ) (jumps : Jumps) (s : Building) (f : ℕ → Building → Visit)
    → IsWellLinked s.build.graph
    → bb < blocks s
    → AreTargets true (blocks s) jumps
    → ((b : ℕ) (s' : Building)
        → IsWellLinked s'.build.graph
        → blocks s ≤ blocks s'
        → b < blocks s'
        → Succeeds s' (f b s'))
    → Succeeds s (leave_if_nothing loop is_some bb jumps s f)
unfolding leave_if_nothing
leave_if_nothing-Succeeds loop is_some bb jumps s f h k targets later =
    let a1 = new_block_after-Added [] s h refl in
    let then_bb = (new_block_after [] s).0 in
    let s1 : Building = (new_block_after [] s).1 in
    let a2 = new_block_after-Added [] s1 a1.well_linked refl in
    let else_bb = (new_block_after [] s1).0 in
    let s2 : Building = (new_block_after [] s1).1 in
    let new1 = a1.is_new in
    let size1 = a1.size in
    let new2 = a2.is_new in
    let size2 = a2.size in
    let test = not_op (leaf (value is_some)) in
    let (linked, grows) =
      branch_to-Linked test bb then_bb else_bb s2 a2.well_linked (omega (arith, size1, size2))
        (omega (arith, new1, size1, size2)) (omega (arith, new2, size2)) in
    let s3 : Building = branch_to test bb then_bb else_bb s2 in
    let r =
      jump_to-Succeeds jumps.break_bb then_bb (append_stmt then_bb (unwrap_nothing loop) s3) linked
        (omega (arith, new1, size1, size2, grows))
        (IsTarget-grow true jumps.break_bb (omega (arith, size1, size2, grows)) targets.breaks) in
    let up = r.grows in
    Succeeds-from (omega (arith, size1, size2, grows)) (
      and_visit-Succeeds (λ _ s4. f else_bb s4) r
        (later else_bb r.next r.well_linked (omega (arith, size1, size2, grows, up))
          (omega (arith, new2, size2, grows, up))))

mutual
  unfolding build_stmt build_stmts link

  build_stmt-Succeeds :
      (in_loop : Bool) (t : Source) (bb : ℕ) (jumps : Jumps) (s : Building)
      → IsScoped in_loop t
      → IsWellLinked s.build.graph
      → bb < blocks s
      → AreTargets in_loop (blocks s) jumps
      → Succeeds s (build_stmt t bb jumps s)
  build_stmt-Succeeds in_loop (simple n) bb jumps s ok h k targets =
      Succeeds-from (omega arith) (stay (some bb) (append_stmt bb (source n) s) h k)
  build_stmt-Succeeds in_loop (return_stmt n) bb jumps s ok h k targets = record {
    end = none;
    next = link_blocks bb jumps.return_bb (append_stmt bb (source n) s);
    ends = refl;
    well_linked = (link-Linked bb jumps.return_bb s.build.graph h k targets.returns).0;
    grows = omega arith;
    known_end = tt;
  }
  build_stmt-Succeeds true break_stmt bb jumps s ok h k targets =
      jump_to-Succeeds jumps.break_bb bb s h k targets.breaks
  build_stmt-Succeeds false break_stmt bb jumps s ok h k targets = cc
  build_stmt-Succeeds true continue_stmt bb jumps s ok h k targets =
      jump_to-Succeeds jumps.continue_bb bb s h k targets.continues
  build_stmt-Succeeds false continue_stmt bb jumps s ok h k targets = cc
  build_stmt-Succeeds in_loop pass_stmt bb jumps s ok h k targets = stay (some bb) s h k
  build_stmt-Succeeds in_loop (if_stmt test body orelse) bb jumps s ok h k targets =
      let a1 = new_block_after-Added [] s h refl in
      let then_bb = (new_block_after [] s).0 in
      let s1 : Building = (new_block_after [] s).1 in
      let a2 = new_block_after-Added [] s1 a1.well_linked refl in
      let else_bb = (new_block_after [] s1).0 in
      let s2 : Building = (new_block_after [] s1).1 in
      let new1 = a1.is_new in
      let size1 = a1.size in
      let new2 = a2.is_new in
      let size2 = a2.size in
      let (linked, grows) =
        branch_to-Linked test bb then_bb else_bb s2 a2.well_linked (omega (arith, size1, size2))
          (omega (arith, new1, size1, size2)) (omega (arith, new2, size2)) in
      let s3 : Building = branch_to test bb then_bb else_bb s2 in
      let up : blocks s ≤ blocks s3 = omega (arith, size1, size2, grows) in
      let r1 =
        build_stmts-Succeeds in_loop body then_bb (some then_bb) jumps s3 ok.0 linked
          (omega (arith, new1, size1, size2, grows)) (omega (arith, new1, size1, size2, grows))
          (AreTargets-grow up targets) in
      let up1 = r1.grows in
      let else_known : else_bb < blocks r1.next = omega (arith, new2, size2, grows, up1) in
      let r2 =
        build_stmts-Succeeds in_loop orelse else_bb (some else_bb) jumps r1.next ok.1 r1.well_linked
          else_known else_known (AreTargets-grow (omega (arith, up, up1)) targets) in
      Succeeds-from up (
        and_visit-Succeeds
          (λ then_end s4.
            and_visit (build_stmts orelse else_bb (some else_bb) jumps s4)
              (merge_branches then_end))
          r1
          (and_visit-Succeeds (merge_branches r1.end) r2 (
            merge_branches-Succeeds r1.end r2.end r2.next r2.well_linked
              (IsKnown-grow r1.end r2.grows r1.known_end) r2.known_end)))
  build_stmt-Succeeds in_loop (while_stmt test body no_stmts) bb jumps s ok h k targets =
      visit_while-Succeeds test (λ new_jumps b. build_stmts body b (some b) new_jumps) bb jumps s
        (λ new_jumps b s' h' le k' targets'.
          build_stmts-Succeeds true body b (some b) new_jumps s' ok.0 h' k' k' targets')
        h k targets.returns
  build_stmt-Succeeds in_loop (while_stmt test body (stmt_cons t ts)) bb jumps s ok h k targets = cc
  build_stmt-Succeeds in_loop (for_stmt loop is_some body no_stmts) bb jumps s ok h k targets =
      Succeeds-from (omega arith) (
        visit_while-Succeeds (constant true)
          (λ new_jumps b s1.
            leave_if_nothing loop is_some b new_jumps (append_stmt b (iter_next loop) s1)
              (λ else_bb s2.
                build_stmts body else_bb (some else_bb) new_jumps
                  (append_stmt else_bb (unwrap loop) s2)))
          bb jumps (append_stmt bb (make_iter loop) s)
          (λ new_jumps b s' h' le k' targets'. Succeeds-from (omega arith) (
            leave_if_nothing-Succeeds loop is_some b new_jumps (append_stmt b (iter_next loop) s')
              (λ else_bb s2.
                build_stmts body else_bb (some else_bb) new_jumps
                  (append_stmt else_bb (unwrap loop) s2))
              h' k' targets'
              (λ b2 s2 h2 le2 k2. Succeeds-from (omega arith) (
                build_stmts-Succeeds true body b2 (some b2) new_jumps
                  (append_stmt b2 (unwrap loop) s2) ok.0 h2 k2 k2 (AreTargets-grow le2 targets')))))
          h k targets.returns)
  build_stmt-Succeeds in_loop (for_stmt loop is_some body (stmt_cons t ts)) bb jumps s ok h k
        targets =
      cc

  build_stmts-Succeeds :
      (in_loop : Bool) (ts : Body) (prev_bb : ℕ) (bb : Option ℕ) (jumps : Jumps) (s : Building)
      → IsScopedBody in_loop ts
      → IsWellLinked s.build.graph
      → prev_bb < blocks s
      → IsKnown (blocks s) bb
      → AreTargets in_loop (blocks s) jumps
      → Succeeds s (build_stmts ts prev_bb bb jumps s)
  build_stmts-Succeeds in_loop no_stmts prev_bb bb jumps s ok h p k targets = stay bb s h k
  build_stmts-Succeeds in_loop (stmt_cons t ts) prev_bb bb jumps s ok h p k targets =
      let (linked, grows, k1) = next_block_lem prev_bb bb s h p k in
      let bb1 = (next_block prev_bb bb s).0 in
      let s1 : Building = (next_block prev_bb bb s).1 in
      let r =
        build_stmt-Succeeds in_loop t bb1 jumps s1 ok.0 linked k1 (AreTargets-grow grows targets) in
      let up = r.grows in
      Succeeds-from grows (
        and_visit-Succeeds (λ end. build_stmts ts bb1 end jumps) r
          (build_stmts-Succeeds in_loop ts bb1 r.end jumps r.next ok.1 r.well_linked
            (omega (arith, k1, up)) r.known_end
            (AreTargets-grow (omega (arith, grows, up)) targets)))

-- If `break` and `continue` stand in loops only and no loop has an else clause, then the statements
-- of a function are built without an exception, break and continue find their blocks, and the
-- graph is well linked; the block where the control flow ends, if there is one, is a block of it.
pub build_body_lem :
    (ts : Body)
    → IsScopedBody false ts
    → (end : Option ℕ) × (s : Building) × (build_body ts ≡ goes_on end s)
      × IsWellLinked s.build.graph
      × IsKnown (length s.build.graph.bbs) end
unfolding build_body new_cfg new_bb
build_body_lem ts ok =
    let r =
      build_stmts-Succeeds false ts 0 (some 0)
        (record { return_bb = 1; continue_bb = none; break_bb = none }) empty_building ok
        new_cfg-IsWellLinked (omega arith) (omega arith)
        (record { returns = omega arith; continues = refl; breaks = refl }) in
    (r.end, r.next, r.ends, r.well_linked, r.known_end)
