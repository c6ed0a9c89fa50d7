-- ===== src/Cfg/Analyze/Evidence.antt =====
-- `analyze` as a whole: it ends, and what it calls live has a use on record.
use mathlib.Core.Path.{subst}
use guppylang.Common.{
  ℕ, ◌≤◌, ◌≡◌, refl, true, Option, none, some, List, [], ◌∷◌, map, arith, Eq, nat_eq, inl, inr, sym,
  ap,
}
use guppylang.Common.Sets.{elem, update_with, is_subset, beq_refl}
use guppylang.Common.Dict.{Dict, get, has, keys, from_keys, Entries, Entries-from_keys, has-merge}
use guppylang.Common.Loop.{
  Outcome, done, key_error, assertion_error, out_of_fuel, map_outcome-eq-done,
}
use guppylang.Cfg.Graph.{Graph}
use guppylang.Cfg.Graph.WellLinked.{IsWellLinked}
use guppylang.Cfg.Graph.NewBlock.{IsClosed-backward, IsClosed-forward}
use guppylang.Cfg.Stats.{VariableStats}
use guppylang.Cfg.Analysis.{Analysis, run_forward}
use guppylang.Cfg.Liveness.Paths.{UsedLater, here, later}
use guppylang.Cfg.Liveness.Correct.{liveness_fuel, liveness_total, liveness_evidence}
use guppylang.Cfg.Assignment.{Assignments, union, assignments, assignment_analysis, run_unpacked}
use guppylang.Cfg.Assignment.Correct.{assignment_fuel, assignment_total}
use guppylang.Cfg.Analyze.{Analyzed, sentinels, mark_borrowed, with_assignments, and_then, analyze}

-- The end of a path to a use is a block that uses the variable.
UsedLater-used :
    {V N : Type 0} ⦃e : Eq V⦄ (stats : ℕ → VariableStats V N) (next : ℕ → List ℕ) (x : V) (u : ℕ)
    {b : ℕ}
    → UsedLater stats next x u b
    → has x (stats u).used ≡ true
UsedLater-used stats next x u (here _ used) = used
UsedLater-used stats next x u (later _ _ path) = UsedLater-used stats next x u path

and_then-eq-done {ℓ κ} :
    {A : Type ℓ} {B : Type κ} (o : Outcome A) (f : A → Outcome B) {b : B}
    → and_then o f ≡ done b
    → (a : A) × (o ≡ done a) × (f a ≡ done b)
and_then-eq-done (done a) f h = (a, refl, h)
and_then-eq-done key_error f h = cc
and_then-eq-done assertion_error f h = cc
and_then-eq-done out_of_fuel f h = cc

module _ {V N : Type 0} ⦃e : Eq V⦄ (sentinel : V → N) where
  has-sentinels : (x : V) (xs : List V) → has x (sentinels sentinel xs) ≡ elem x xs
  unfolding get
  has-sentinels x [] = refl
  has-sentinels x (y ∷ xs) = ground (arith, has-sentinels x xs)

  has-mark_borrowed :
      (exit : ℕ) (inout_vars : List V) (computed : ℕ → VariableStats V N) (x : V)
      → elem x inout_vars ≡ true
      → has x (mark_borrowed sentinel exit inout_vars computed exit).used ≡ true
  has-mark_borrowed exit inout_vars computed x m = rw (beq_refl exit) (
      ground (
        arith,
        has-merge x (computed exit).used (sentinels sentinel inout_vars),
        has-sentinels x inout_vars,
      ))

module _ {V N : Type 0} ⦃e : Eq V⦄ (choose : ℕ → List ℕ → ℕ) (fuel : ℕ) (g : Graph)
    (stats : ℕ → VariableStats V N) (somewhere : List V) (live : ℕ → Option (Dict V ℕ)) where
  -- The second pass keeps the stats and the result of the first.
  with_assignments_first :
      (pass : Option (Analysis (Assignments V))) (r : Analyzed V N)
      → with_assignments choose fuel g stats somewhere live pass ≡ done r
      → (r.live_before ≡ live) × (r.stats ≡ stats)
  unfolding with_assignments
  with_assignments_first none r h = cc
  with_assignments_first (some pass) r h =
      let (pair, _, same) = map_outcome-eq-done _ (run_unpacked pass g.links choose fuel g.bbs) h in
      (
        ap (λ (q : Analyzed V N). q.live_before) (sym same),
        ap (λ (q : Analyzed V N). q.stats) (sym same),
      )

  with_assignments_total :
      (pass : Option (Analysis (Assignments V))) (p : Analysis (Assignments V))
      (res : ℕ → Option (Assignments V))
      → pass ≡ some p
      → run_forward p g.links choose fuel g.bbs ≡ done res
      → (r : Analyzed V N) × (with_assignments choose fuel g stats somewhere live pass ≡ done r)
  unfolding with_assignments run_unpacked
  with_assignments_total pass p res some_pass ended = (
    record {
      stats = stats;
      assigned_somewhere = somewhere;
      live_before = live;
      ass_before = λ b. elim (res b) [ none ↦ none | some t ↦ some t.0 ];
      maybe_ass_before = λ b. elim (res b) [ none ↦ none | some t ↦ some t.1 ];
    },
    rw (some_pass, ended),
  )

module _ {V N : Type 0} ⦃e : Eq V⦄ (sentinel : V → N)
    (choose_backward choose_forward : ℕ → List ℕ → ℕ) (fuel : ℕ) (g : Graph)
    (computed : ℕ → VariableStats V N) (def_ass_before maybe_ass_before inout_vars : List V)
    (linked : IsWellLinked g) where
  abbrev marked : ℕ → VariableStats V N
  marked = mark_borrowed sentinel g.exit_bb inout_vars computed

  abbrev borrowed : Dict V ℕ
  borrowed = from_keys inout_vars g.exit_bb

  abbrev run : Outcome (Analyzed V N)
  run =
      analyze sentinel choose_backward choose_forward fuel g computed def_ass_before
        maybe_ass_before inout_vars

  abbrev Used : V → ℕ → Type 0
  Used x u = has x (marked u).used ≡ true

  borrowed-Used : Entries Used borrowed
  borrowed-Used =
      Entries-from_keys Used inout_vars g.exit_bb
        (λ x m. has-mark_borrowed sentinel g.exit_bb inout_vars computed x m)

  abbrev EnoughBackward : Type 0
  EnoughBackward = liveness_fuel marked borrowed true g.links g.bbs ≤ fuel

  abbrev EnoughForward : Type 0
  EnoughForward = assignment_fuel marked def_ass_before maybe_ass_before true g.links g.bbs ≤ fuel

  -- A variable that `analyze` calls live before a block is mapped to a block whose recorded uses
  -- have it: looking the use up there raises no `KeyError`.
  pub analyze_evidence :
      {r : Analyzed V N} {d : Dict V ℕ} (b : ℕ) (x : V) (u : ℕ)
      → EnoughBackward
      → run ≡ done r
      → elem b g.bbs ≡ true
      → r.live_before b ≡ some d
      → get x d ≡ some u
      → has x (r.stats u).used ≡ true
  unfolding analyze
  analyze_evidence {r} {d} b x u enough ended m at found =
      let (live, first, rest) = and_then-eq-done _ _ ended in
      let (live-eq, stats-eq) =
        with_assignments_first choose_forward fuel g marked _ live _ r rest in
      let at' : live b ≡ some d = subst (λ f. f b ≡ some d) live-eq at in
      subst (λ (s : ℕ → VariableStats V N). has x (s u).used ≡ true) (sym stats-eq)
        (elim (liveness_evidence marked borrowed true g.links g.bbs Used borrowed-Used
          choose_backward fuel (IsClosed-backward g linked true) enough b first m at' x u found) [
            | inl path ↦ UsedLater-used marked _ x u path
            | inr given ↦ given
          ])

  -- If the variables assigned before the entry are among those that may be, `analyze` on a well
  -- linked graph raises nothing and ends.
  pub analyze_total :
      is_subset def_ass_before maybe_ass_before ≡ true
      → EnoughBackward
      → EnoughForward
      → elem g.entry_bb g.bbs ≡ true
      → (r : Analyzed V N) × (run ≡ done r)
  unfolding analyze assignment_analysis
  analyze_total within be fe m =
      let (live, _, first, _) =
        liveness_total marked borrowed true g.links g.bbs Used borrowed-Used choose_backward fuel
          (IsClosed-backward g linked true) be g.entry_bb m in
      let (res, _, second, _) =
        assignment_total marked def_ass_before maybe_ass_before true g.links g.bbs choose_forward
          fuel (IsClosed-forward g linked true) fe g.entry_bb m in
      let (r, rest) =
        with_assignments_total choose_forward fuel g marked
          (update_with (union [] (map (λ b. keys (computed b).assigned) g.bbs))
            (update_with maybe_ass_before def_ass_before))
          live (assignment_analysis marked g.bbs def_ass_before maybe_ass_before true)
          (assignments marked g.bbs def_ass_before maybe_ass_before true) res (rw within) second in
      (r, rw first rest)
