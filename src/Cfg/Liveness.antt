-- ===== src/Cfg/Liveness.antt =====
-- `LivenessAnalysis` of guppylang-internals/src/guppylang_internals/cfg/analysis.py. A live
-- variable is mapped to a block that uses it. `stats[bb]` is a function of the block.
pub mod Paths
pub mod Domain
pub mod Correct
use guppylang.Common.{ℕ, Bool, not, ◌&&◌, ◌||◌, List, [], ◌∷◌, Eq}
use guppylang.Common.Dict.{Dict, has, merge, from_keys, restrict, keys, same_keys}
use guppylang.Cfg.Stats.{VariableStats}
use guppylang.Cfg.Analysis.{Analysis}

module _ {V : Type 0} ⦃e : Eq V⦄ where
  -- `res |= t` for each `t`, from `res`.
  unfoldable pub join_live : Dict V ℕ → List (Dict V ℕ) → Dict V ℕ
  join_live res [] = res
  join_live res (t ∷ ts) = join_live (merge res t) ts

module _ {V N : Type 0} ⦃e : Eq V⦄ where
  -- Assigned in the block, in a modifier block of it or not.
  abbrev pub is_killed : VariableStats V N → V → Bool
  is_killed s x = has x s.assigned || has x s.assigned_in_modifier_block

  unfoldable pub apply_live : (ℕ → VariableStats V N) → Dict V ℕ → ℕ → Dict V ℕ
  apply_live stats live_after bb = merge (from_keys (keys (stats bb).used) bb) (
      restrict
        (λ x. not (has x (stats bb).assigned) && not (has x (stats bb).assigned_in_modifier_block))
        live_after)

  abbrev pub liveness_analysis : (ℕ → VariableStats V N) → Dict V ℕ → Bool → Analysis (Dict V ℕ)
  liveness_analysis stats initial include_unreachable = record {
    eq = same_keys;
    include_unreachable = include_unreachable;
    initial = initial;
    join = join_live [];
    apply_bb = apply_live stats;
  }
