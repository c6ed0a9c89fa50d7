-- ===== src/Cfg/Assignment.antt =====
-- `AssignmentAnalysis` of guppylang-internals/src/guppylang_internals/cfg/analysis.py. A value is
-- the set of the variables that are definitely assigned and the set of those that may be.
pub mod Paths
pub mod Domain
pub mod Facts
pub mod Pass
pub mod Correct
use guppylang.Common.{
  ℕ, Bool, ◌&&◌, Option, none, some, List, [], ◌∷◌, ◌++◌, map, filter, Eq, if◌then◌else◌,
}
use guppylang.Common.Sets.{elem, update_with, is_subset}
use guppylang.Common.Dict.{Dict, keys}
use guppylang.Common.Loop.{Outcome, map_outcome}
use guppylang.Cfg.Graph.{Links}
use guppylang.Cfg.Stats.{VariableStats}
use guppylang.Cfg.Analysis.{Analysis, run_forward}

abbrev pub Assignments : Type 0 → Type 0
Assignments V = List V × List V

module _ {V : Type 0} ⦃e : Eq V⦄ where
  -- `s == t` on sets
  abbrev pub same_set : List V → List V → Bool
  same_set s t = is_subset s t && is_subset t s

  -- `t1 == t2` on pairs of sets
  unfoldable pub same_assignments : Assignments V → Assignments V → Bool
  same_assignments (d, m) (d', m') = same_set d d' && same_set m m'

  -- `set.intersection(s, *ts)`
  unfoldable pub intersection : List V → List (List V) → List V
  intersection s [] = s
  intersection s (t ∷ ts) = intersection (filter (λ x. elem x t) s) ts

  -- `set.union(s, *ts)`
  unfoldable pub union : List V → List (List V) → List V
  union s [] = s
  union s (t ∷ ts) = union (update_with t s) ts

  unfoldable pub join_assignments : List V → List (Assignments V) → Assignments V
  join_assignments ass_before_entry [] = (ass_before_entry, ass_before_entry)
  join_assignments ass_before_entry ((d, m) ∷ ts) =
      (intersection d (map (λ t. t.0) ts), union m (map (λ t. t.1) ts))

module _ {V N : Type 0} ⦃e : Eq V⦄ where
  unfoldable pub apply_assignments : (ℕ → VariableStats V N) → Assignments V → ℕ → Assignments V
  apply_assignments stats (def_ass_before, maybe_ass_before) bb = (
    update_with (keys (stats bb).assigned) def_ass_before,
    update_with (keys (stats bb).assigned) maybe_ass_before,
  )

  -- `all_vars`, over the blocks that `stats` has as keys.
  unfoldable pub all_vars : (ℕ → VariableStats V N) → List ℕ → List V → List V
  all_vars stats bbs ass_before_entry =
      update_with ass_before_entry (union [] (map (λ b. keys (stats b).assigned) bbs))

  abbrev pub assignments :
      (ℕ → VariableStats V N) → List ℕ → List V → List V → Bool → Analysis (Assignments V)
  assignments stats bbs ass_before_entry maybe_ass_before_entry include_unreachable = record {
    eq = same_assignments;
    include_unreachable = include_unreachable;
    initial = (all_vars stats bbs ass_before_entry, maybe_ass_before_entry);
    join = join_assignments ass_before_entry;
    apply_bb = apply_assignments stats;
  }

  -- The constructor, with its `assert`.
  unfoldable pub assignment_analysis :
      (ℕ → VariableStats V N) → List ℕ → List V → List V → Bool → Option (Analysis (Assignments V))
  assignment_analysis stats bbs ass_before_entry maybe_ass_before_entry include_unreachable =
      if is_subset ass_before_entry maybe_ass_before_entry
      then some (assignments stats bbs ass_before_entry maybe_ass_before_entry include_unreachable)
      else none

-- `run_unpacked`
unfoldable pub run_unpacked :
    {V : Type 0}
    → Analysis (Assignments V)
    → (ℕ → Links)
    → (ℕ → List ℕ → ℕ)
    → ℕ
    → List ℕ
    → Outcome ((ℕ → Option (List V)) × (ℕ → Option (List V)))
run_unpacked a links choose fuel bbs =
    map_outcome
      (λ res. (
        λ b. elim (res b) [ none ↦ none | some t ↦ some t.0 ],
        λ b. elim (res b) [ none ↦ none | some t ↦ some t.1 ],
      ))
      (run_forward a links choose fuel bbs)
