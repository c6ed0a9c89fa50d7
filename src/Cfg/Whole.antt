-- ===== src/Cfg/Whole.antt =====
-- `CFG.analyze` of guppylang-internals/src/guppylang_internals/cfg/cfg.py from the syntax of the
-- blocks: their stats first, then the two analyses.
use guppylang.Common.{ℕ, ◌+◌, ◌≡◌, true, String, List, length, arith, string_eq, nat_eq}
use guppylang.Common.Sets.{is_subset}
use guppylang.Common.Dict.{from_keys}
use guppylang.Common.Loop.{Outcome, done}
use guppylang.Cfg.Graph.{Graph}
use guppylang.Cfg.Syntax.{AstNode, Blocks}
use guppylang.Cfg.Variables.{stats_at, compute_all, Stats}
use guppylang.Cfg.Variables.Nested.{IsGraph}
use guppylang.Cfg.Variables.Total.{AllFormed, count_blocks, compute_all_total}
use guppylang.Cfg.Liveness.Correct.{liveness_fuel}
use guppylang.Cfg.Assignment.Correct.{assignment_fuel}
use guppylang.Cfg.Analyze.{Analyzed, analyze, and_then, mark_borrowed}
use guppylang.Cfg.Analyze.Evidence.{analyze_total}

module _ (sentinel : String → AstNode) (choose_backward choose_forward : ℕ → List ℕ → ℕ) where
  -- The rounds that both analyses may take.
  abbrev analyze_fuel :
      Graph → (ℕ → Stats) → (def_ass_before maybe_ass_before inout_vars : List String) → ℕ
  analyze_fuel g stats def_ass_before maybe_ass_before inout_vars =
      let marked = mark_borrowed sentinel g.exit_bb inout_vars stats in
      liveness_fuel marked (from_keys inout_vars g.exit_bb) true g.links g.bbs
      + assignment_fuel marked def_ass_before maybe_ass_before true g.links g.bbs

  unfoldable pub analyze_blocks :
      Graph
      → Blocks
      → (def_ass_before maybe_ass_before inout_vars : List String)
      → Outcome (Analyzed String AstNode)
  analyze_blocks g bs def_ass_before maybe_ass_before inout_vars =
      and_then (compute_all choose_backward bs) (λ all.
        analyze sentinel choose_backward choose_forward
          (analyze_fuel g (stats_at all) def_ass_before maybe_ass_before inout_vars) g
          (stats_at all) def_ass_before maybe_ass_before inout_vars)

  -- On a well linked graph with one block for each index, whose nested graphs are such graphs
  -- too, `analyze` computes the stats of all blocks and ends without an error, whatever order the
  -- sets take, if the variables assigned before the entry are among those that may be.
  pub analyze_blocks_total :
      (g : Graph) (bs : Blocks) (def_ass_before maybe_ass_before inout_vars : List String)
      → IsGraph g
      → length g.bbs ≡ count_blocks bs
      → AllFormed bs
      → is_subset def_ass_before maybe_ass_before ≡ true
      → (r : Analyzed String AstNode) × (analyze_blocks g bs def_ass_before maybe_ass_before
            inout_vars
          ≡ done r)
  unfolding analyze_blocks
  analyze_blocks_total g bs def_ass_before maybe_ass_before inout_vars good sized formed within =
      let (all, computed) = compute_all_total choose_backward bs formed in
      let (r, ends) =
        analyze_total sentinel choose_backward choose_forward
          (analyze_fuel g (stats_at all) def_ass_before maybe_ass_before inout_vars) g
          (stats_at all) def_ass_before maybe_ass_before inout_vars good.well_linked within
          (omega arith) (omega arith) good.entry_in in
      (r, rw computed ends)
