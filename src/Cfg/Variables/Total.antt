-- ===== src/Cfg/Variables/Total.antt =====
-- `compute_variable_stats` of cfg/bb.py with all the graphs inside of a block: every liveness run
-- ends, and no lookup fails.
use guppylang.Common.{ℕ, ◌+◌, ◌≡◌, refl, List, [], ◌∷◌, length}
use guppylang.Common.Loop.{done}
use guppylang.Cfg.Syntax.{
  Stmt, Stmts, Block, Blocks, assign, aug_assign, ann_assign, expr, return_stmt, nested_function,
  modified_block, no_stmts, stmt_cons, block, no_blocks, block_cons,
}
use guppylang.Cfg.Variables.{
  Stats, visit_exprs, visit_stmt, visit_stmts, compute_stats, compute_all, visit_option,
}
use guppylang.Cfg.Stats.{no_stats}
use guppylang.Cfg.Variables.Nested.{IsGraph, nested_function_lem, modified_block_lem}

abbrev pub count_blocks : Blocks → ℕ
count_blocks no_blocks = 0
count_blocks (block_cons b bs) = count_blocks bs + 1

-- Every graph inside has one block for each index, and is well linked.
abbrev mutual
  pub IsFormed : Stmt → Type 0
  IsFormed (nested_function fun args g bs) =
      IsGraph g × (length g.bbs ≡ count_blocks bs) × AllFormed bs
  IsFormed (modified_block control power g bs) =
      IsGraph g × (length g.bbs ≡ count_blocks bs) × AllFormed bs
  IsFormed _ = Unit

  pub IsFormedBody : Stmts → Type 0
  IsFormedBody no_stmts = Unit
  IsFormedBody (stmt_cons t ts) = IsFormed t × IsFormedBody ts

  pub IsFormedBlock : Block → Type 0
  IsFormedBlock (block ss pred) = IsFormedBody ss

  pub AllFormed : Blocks → Type 0
  AllFormed no_blocks = Unit
  AllFormed (block_cons b bs) = IsFormedBlock b × AllFormed bs

module _ (choose : ℕ → List ℕ → ℕ) where
  mutual
    unfolding visit_stmt visit_stmts compute_stats compute_all

    visit_stmt_total :
        (t : Stmt) (s : Stats) → IsFormed t → (s' : Stats) × (visit_stmt choose t s ≡ done s')
    visit_stmt_total (assign ts v) s h = (_, refl)
    visit_stmt_total (aug_assign t v) s h = (_, refl)
    visit_stmt_total (ann_assign t v) s h = (_, refl)
    visit_stmt_total (expr e) s h = (_, refl)
    visit_stmt_total (return_stmt e) s h = (_, refl)
    visit_stmt_total (nested_function fun args g bs) s (good, _, inside) =
        let (all, computed) = compute_all_total bs inside in
        let (s', ends, _, _) = nested_function_lem choose g good bs all computed fun args s in
        (s', ends)
    visit_stmt_total (modified_block control power g bs) s (good, _, inside) =
        let (all, computed) = compute_all_total bs inside in
        let (s', ends, _, _) =
          modified_block_lem choose g good bs all computed control power s
            (visit_exprs power (visit_exprs control s)) refl in
        (s', ends)

    visit_stmts_total :
        (ts : Stmts) (s : Stats)
        → IsFormedBody ts
        → (s' : Stats) × (visit_stmts choose ts s ≡ done s')
    visit_stmts_total no_stmts s h = (s, refl)
    visit_stmts_total (stmt_cons t ts) s h =
        let (s1, ends) = visit_stmt_total t s h.0 in
        let (s2, rest) = visit_stmts_total ts s1 h.1 in (s2, rw ends rest)

    block_total : (b : Block) → IsFormedBlock b → (s : Stats) × (compute_stats choose b ≡ done s)
    block_total (block ss pred) h =
        let (s, ends) = visit_stmts_total ss no_stats h in (visit_option pred s, rw ends)

    pub compute_all_total :
        (bs : Blocks) → AllFormed bs → (all : List Stats) × (compute_all choose bs ≡ done all)
    compute_all_total no_blocks h = ([], refl)
    compute_all_total (block_cons b bs) h =
        let (s, ends) = block_total b h.0 in
        let (all, rest) = compute_all_total bs h.1 in (s ∷ all, rw (ends, rest))

  -- If every graph inside of a block has one block for each index and is well linked, then
  -- `compute_variable_stats` of the block gives stats, whatever order the sets of the liveness
  -- runs take: no lookup fails, and no run goes on for ever.
  pub compute_stats_total :
      (b : Block) → IsFormedBlock b → (s : Stats) × (compute_stats choose b ≡ done s)
  compute_stats_total b h = block_total b h
