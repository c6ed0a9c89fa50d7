-- ===== src/Cfg/Stats.antt =====
-- `VariableStats` of guppylang-internals/src/guppylang_internals/cfg/bb.py, over the ids `V` of
-- variables and the syntax nodes `N` that are kept for error messages.
use mathlib.Core.List.{[]}
use guppylang.Common.Dict.{Dict}

pub record VariableStats (V N : Type 0) : Type 0 where
  pub assigned : Dict V N
  pub used : Dict V N
  pub badly_used_after_modifier_block : Dict V (N × N)
  pub assigned_in_modifier_block : Dict V N

abbrev pub no_stats : {V N : Type 0} → VariableStats V N
no_stats = record {
  assigned = [];
  used = [];
  badly_used_after_modifier_block = [];
  assigned_in_modifier_block = [];
}
