-- ===== src/Cfg/Analyze.antt =====
-- `CFG.analyze` of guppylang-internals/src/guppylang_internals/cfg/cfg.py, after
-- `compute_variable_stats` has given the stats of each block.
pub mod Evidence
use guppylang.Common.{
  ℕ, Bool, true, Option, none, some, List, [], ◌∷◌, ◌++◌, map, Eq, if◌then◌else◌, ◌==◌,
}
use guppylang.Common.Sets.{elem, update_with}
use guppylang.Common.Dict.{Dict, keys, merge, from_keys}
use guppylang.Common.Loop.{Outcome, done, key_error, assertion_error, out_of_fuel, map_outcome}
use guppylang.Cfg.Graph.{Graph, Links, update}
use guppylang.Cfg.Stats.{VariableStats}
use guppylang.Cfg.Analysis.{Analysis, run_backward}
use guppylang.Cfg.Liveness.{liveness_analysis}
use guppylang.Cfg.Assignment.{Assignments, union, assignment_analysis, run_unpacked}

-- The fields that `analyze` writes, and the stats that it returns.
pub record Analyzed (V N : Type 0) : Type 0 where
  pub stats : ℕ → VariableStats V N
  pub assigned_somewhere : List V
  pub live_before : ℕ → Option (Dict V ℕ)
  pub ass_before : ℕ → Option (List V)
  pub maybe_ass_before : ℕ → Option (List V)

module _ {V N : Type 0} ⦃e : Eq V⦄ (sentinel : V → N) where
  -- `{x: InoutReturnSentinel(var=x) for x in inout_vars}`
  abbrev pub sentinels : List V → Dict V N
  sentinels [] = []
  sentinels (x ∷ xs) = (x, sentinel x) ∷ sentinels xs

  -- Borrowed variables are used in the exit block.
  abbrev pub mark_borrowed : ℕ → List V → (ℕ → VariableStats V N) → ℕ → VariableStats V N
  mark_borrowed exit inout_vars stats =
      update stats exit
        (record (stats exit) { used = merge (stats exit).used (sentinels inout_vars) })

module _ {V N : Type 0} ⦃e : Eq V⦄ (choose : ℕ → List ℕ → ℕ) (fuel : ℕ) (g : Graph)
    (stats : ℕ → VariableStats V N) (assigned_somewhere : List V)
    (live_before : ℕ → Option (Dict V ℕ)) where
  -- The second pass, if its constructor raised nothing.
  unfoldable pub with_assignments : Option (Analysis (Assignments V)) → Outcome (Analyzed V N)
  with_assignments none = assertion_error
  with_assignments (some pass) =
      map_outcome
        (λ (ass, maybe). record {
          stats = stats;
          assigned_somewhere = assigned_somewhere;
          live_before = live_before;
          ass_before = ass;
          maybe_ass_before = maybe;
        })
        (run_unpacked pass g.links choose fuel g.bbs)

-- What follows the first pass, if that ended.
abbrev pub and_then {ℓ κ} : {A : Type ℓ} {B : Type κ} → Outcome A → (A → Outcome B) → Outcome B
and_then (done a) f = f a
and_then key_error f = key_error
and_then assertion_error f = assertion_error
and_then out_of_fuel f = out_of_fuel

module _ {V N : Type 0} ⦃e : Eq V⦄ (sentinel : V → N)
    (choose_backward choose_forward : ℕ → List ℕ → ℕ) (fuel : ℕ) where
  unfoldable pub analyze :
      Graph → (ℕ → VariableStats V N) → List V → List V → List V → Outcome (Analyzed V N)
  unfolding with_assignments
  analyze g computed def_ass_before maybe_ass_before inout_vars =
      let stats = mark_borrowed sentinel g.exit_bb inout_vars computed in
      let assigned = union [] (map (λ b. keys (computed b).assigned) g.bbs) in
      let somewhere = update_with assigned (update_with maybe_ass_before def_ass_before) in
      let inout_live = from_keys inout_vars g.exit_bb in
      let live =
        run_backward (liveness_analysis stats inout_live true) g.links choose_backward fuel g.bbs in
      and_then live (λ live_before.
        with_assignments choose_forward fuel g stats somewhere live_before
          (assignment_analysis stats g.bbs def_ass_before maybe_ass_before true))
