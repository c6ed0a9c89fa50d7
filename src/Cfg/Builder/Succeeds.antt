-- ===== src/Cfg/Builder/Succeeds.antt =====
-- What a visit of `CFGBuilder` of cfg/builder.py needs and gives: known blocks, jump targets, and
-- well linked graphs; and the parts of the visits that build no statement.
use guppylang.Common.{
  ℕ, ◌+◌, ◌≤◌, ◌<◌, ◌≡◌, refl, Bool, true, false, Option, none, some, List, [], ◌∷◌, length, arith,
  nat_eq, length-append,
}
use guppylang.Common.Sets.{is_subset}
use guppylang.Cfg.Graph.{new_bb, link, dummy_link}
use guppylang.Cfg.Graph.WellLinked.{IsWellLinked}
use guppylang.Cfg.Graph.NewBlock.{new_bb_lem}
use guppylang.Cfg.Branch.{Cond}
use guppylang.Cfg.Branch.Linked.{known, link-Linked, add_branch-Linked}
use guppylang.Cfg.Builder.{
  Source, break_stmt, continue_stmt, if_stmt, while_stmt, for_stmt, Body, no_stmts, stmt_cons,
  Jumps, Building, Visit, goes_on, and_visit, new_block_after, link_blocks, branch_to, next_block,
  jump_to, merge_branches, close_loop,
}

abbrev pub blocks : Building → ℕ
blocks s = length s.build.graph.bbs

-- Loops have no else clause, and `break` and `continue` stand in loops.
abbrev mutual
  pub IsScoped : Bool → Source → Type 0
  IsScoped in_loop break_stmt = in_loop ≡ true
  IsScoped in_loop continue_stmt = in_loop ≡ true
  IsScoped in_loop (if_stmt test body orelse) =
      IsScopedBody in_loop body × IsScopedBody in_loop orelse
  IsScoped in_loop (while_stmt test body orelse) = IsScopedBody true body × (orelse ≡ no_stmts)
  IsScoped in_loop (for_stmt loop is_some body orelse) =
      IsScopedBody true body × (orelse ≡ no_stmts)
  IsScoped in_loop _ = Unit

  pub IsScopedBody : Bool → Body → Type 0
  IsScopedBody in_loop no_stmts = Unit
  IsScopedBody in_loop (stmt_cons t ts) = IsScoped in_loop t × IsScopedBody in_loop ts

-- A block that may be missing is known if it is there.
abbrev pub IsKnown : ℕ → Option ℕ → Type 0
IsKnown n none = Unit
IsKnown n (some b) = b < n

-- In a loop there is a known block, outside of loops there is none.
abbrev pub IsTarget : Bool → ℕ → Option ℕ → Type 0
IsTarget in_loop n none = in_loop ≡ false
IsTarget in_loop n (some b) = b < n

-- The jumps lead to known blocks.
pub record AreTargets (in_loop : Bool) (n : ℕ) (jumps : Jumps) : Type 0 where
  pub returns : jumps.return_bb < n
  pub continues : IsTarget in_loop n jumps.continue_bb
  pub breaks : IsTarget in_loop n jumps.break_bb

-- The visit succeeds from `s`, on a well linked graph that has the blocks of `s`.
pub record Succeeds (s : Building) (v : Visit) : Type 0 where
  pub end : Option ℕ
  pub next : Building
  pub ends : v ≡ goes_on end next
  pub well_linked : IsWellLinked next.build.graph
  pub grows : blocks s ≤ blocks next
  pub known_end : IsKnown (blocks next) end

pub IsKnown-grow : {n m : ℕ} (b : Option ℕ) → n ≤ m → IsKnown n b → IsKnown m b
IsKnown-grow none le h = tt
IsKnown-grow (some b) le h = omega arith

pub IsTarget-grow : (l : Bool) {n m : ℕ} (b : Option ℕ) → n ≤ m → IsTarget l n b → IsTarget l m b
IsTarget-grow l none le h = h
IsTarget-grow l (some b) le h = omega arith

pub AreTargets-grow :
    {l : Bool} {n m : ℕ} {jumps : Jumps} → n ≤ m → AreTargets l n jumps → AreTargets l m jumps
AreTargets-grow {l} {jumps = jumps} le h = record {
  returns = omega (arith, h.returns);
  continues = IsTarget-grow l jumps.continue_bb le h.continues;
  breaks = IsTarget-grow l jumps.break_bb le h.breaks;
}

pub and_visit-Succeeds :
    {s : Building} {v : Visit} (f : Option ℕ → Building → Visit)
    → (r : Succeeds s v) → Succeeds r.next (f r.end r.next)
    → Succeeds s (and_visit v f)
and_visit-Succeeds {s} f r q = record {
  end = q.end;
  next = q.next;
  ends = rw r.ends q.ends;
  well_linked = q.well_linked;
  grows = omega (arith, r.grows, q.grows);
  known_end = q.known_end;
}

-- A new block after known ones.
pub record Added (s : Building) (b : ℕ) (s' : Building) : Type 0 where
  pub well_linked : IsWellLinked s'.build.graph
  pub is_new : b ≡ blocks s
  pub size : blocks s' ≡ blocks s + 1

pub new_block_after-Added :
    (preds : List ℕ) (s : Building)
    → IsWellLinked s.build.graph
    → is_subset preds s.build.graph.bbs ≡ true
    → Added s (new_block_after preds s).0 (new_block_after preds s).1
unfolding new_block_after new_bb
new_block_after-Added preds s h sub = record {
  well_linked = (new_bb_lem preds s.build.graph sub h).0;
  is_new = refl;
  size = length-append s.build.graph.bbs (length s.build.graph.bbs ∷ []);
}

pub next_block_lem :
    (prev_bb : ℕ) (bb : Option ℕ) (s : Building)
    → IsWellLinked s.build.graph
    → prev_bb < blocks s
    → IsKnown (blocks s) bb
    → IsWellLinked (next_block prev_bb bb s).1.build.graph
      × (blocks s ≤ blocks (next_block prev_bb bb s).1)
      × ((next_block prev_bb bb s).0 < blocks (next_block prev_bb bb s).1)
unfolding next_block dummy_link
next_block_lem prev_bb (some bb) s h p k = (h, omega arith, k)
next_block_lem prev_bb none s h p k =
    let a = new_block_after-Added [] s h refl in
    let new = a.is_new in
    let size = a.size in
    (
      (link-Linked prev_bb (new_block_after [] s).0 (new_block_after [] s).1.build.graph
          a.well_linked (omega (arith, size)) (omega (arith, new, size))).1,
      omega (arith, size),
      omega (arith, new, size),
    )

pub jump_to-Succeeds :
    (target : Option ℕ) (bb : ℕ) (s : Building)
    → IsWellLinked s.build.graph
    → bb < blocks s
    → IsTarget true (blocks s) target
    → Succeeds s (jump_to target bb s)
unfolding jump_to link
jump_to-Succeeds none bb s h k t = cc
jump_to-Succeeds (some target) bb s h k t = record {
  end = none;
  next = link_blocks bb target s;
  ends = refl;
  well_linked = (link-Linked bb target s.build.graph h k t).0;
  grows = omega arith;
  known_end = tt;
}

-- Going on without a change.
pub stay :
    (bb : Option ℕ) (s : Building)
    → IsWellLinked s.build.graph
    → IsKnown (blocks s) bb
    → Succeeds s (goes_on bb s)
stay bb s h k = record {
  end = bb;
  next = s;
  ends = refl;
  well_linked = h;
  grows = omega arith;
  known_end = k;
}

pub merge_branches-Succeeds :
    (then_bb else_bb : Option ℕ) (s : Building)
    → IsWellLinked s.build.graph
    → IsKnown (blocks s) then_bb
    → IsKnown (blocks s) else_bb
    → Succeeds s (merge_branches then_bb else_bb s)
unfolding merge_branches
merge_branches-Succeeds none else_bb s h t e = stay else_bb s h e
merge_branches-Succeeds (some then_bb) none s h t e = stay (some then_bb) s h t
merge_branches-Succeeds (some then_bb) (some else_bb) s h t e =
    let a =
      new_block_after-Added (then_bb ∷ else_bb ∷ []) s h
        (ground (arith, known s.build.graph then_bb h t, known s.build.graph else_bb h e)) in
    let new = a.is_new in
    let size = a.size in
    record {
      end = some (new_block_after (then_bb ∷ else_bb ∷ []) s).0;
      next = (new_block_after (then_bb ∷ else_bb ∷ []) s).1;
      ends = refl;
      well_linked = a.well_linked;
      grows = omega (arith, size);
      known_end = omega (arith, new, size);
    }

pub close_loop-Succeeds :
    (head_bb tail_bb : ℕ) (end : Option ℕ) (s : Building)
    → IsWellLinked s.build.graph
    → head_bb < blocks s
    → tail_bb < blocks s
    → IsKnown (blocks s) end
    → Succeeds s (close_loop head_bb tail_bb end s)
unfolding close_loop link
close_loop-Succeeds head_bb tail_bb none s h hk tk k = stay (some tail_bb) s h tk
close_loop-Succeeds head_bb tail_bb (some end) s h hk tk k = record {
  end = some tail_bb;
  next = link_blocks end head_bb s;
  ends = refl;
  well_linked = (link-Linked end head_bb s.build.graph h k hk).0;
  grows = omega arith;
  known_end = omega arith;
}

-- From a state with fewer blocks.
pub Succeeds-from :
    {s s' : Building} {v : Visit} → blocks s ≤ blocks s' → Succeeds s' v → Succeeds s v
Succeeds-from le r = record {
  end = r.end;
  next = r.next;
  ends = r.ends;
  well_linked = r.well_linked;
  grows = omega (arith, r.grows);
  known_end = r.known_end;
}

pub branch_to-Linked :
    (c : Cond) (bb true_bb false_bb : ℕ) (s : Building)
    → IsWellLinked s.build.graph
    → bb < blocks s
    → true_bb < blocks s
    → false_bb < blocks s
    → IsWellLinked (branch_to c bb true_bb false_bb s).build.graph
      × (blocks s ≤ blocks (branch_to c bb true_bb false_bb s))
branch_to-Linked c bb true_bb false_bb s h b t f =
    let r = add_branch-Linked c s.build bb true_bb false_bb h (b, t, f) in (r.well_linked, r.grows)
