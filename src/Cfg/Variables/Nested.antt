-- ===== src/Cfg/Variables/Nested.antt =====
-- What `VariableVisitor` of cfg/bb.py captures from the graph of a nested function or of a
-- modified block: liveness of that graph, read as paths.
use guppylang.Common.{
  ℕ, ◌≤◌, ◌≡◌, refl, Option-cases, Bool, true, false, not, ◌&&◌, ◌||◌, Option, some, String, List,
  [], ◌∷◌, arith, string_eq, nat_eq, Bool-cases, ◌⊎◌, inl, inr, ◌∙◌, ◌↔◌, ◌≢◌, any,
}
use guppylang.Common.Sets.{elem, beq_refl}
use guppylang.Common.Dict.{Dict, get, has, put, merge, has-merge, Entries, Entries-map, get-put}
use guppylang.Common.Loop.{Outcome, done}
use guppylang.Cfg.Graph.{Graph}
use guppylang.Cfg.Graph.WellLinked.{IsWellLinked}
use guppylang.Cfg.Graph.NewBlock.{IsClosed-backward}
use guppylang.Cfg.Syntax.{AstNode, stmt_node, Blocks, nested_function, modified_block, Exprs}
use guppylang.Cfg.Analysis.{run_backward}
use guppylang.Cfg.Liveness.{is_killed, liveness_analysis}
use guppylang.Cfg.Liveness.Correct.{
  liveness_fuel, liveness_total, liveness_evidence, liveness-Entries, liveness_complete,
}
use guppylang.Cfg.Liveness.Paths.{UsedLater, here, later}
use guppylang.Cfg.Variables.{
  Stats, stats_at, captured, entry_dict, live_at_entry, capture, capture_function, mark_blocks,
  capture_block, visit_exprs, visit_stmt, compute_all, mark_in_modifier,
}

-- The graph with its entry among its blocks.
pub record IsGraph (g : Graph) : Type 0 where
  pub well_linked : IsWellLinked g
  pub entry_in : elem g.entry_bb g.bbs ≡ true

-- A path of real links from the entry to a use, on which no block that it leaves assigns `x`.
abbrev pub Captures : Graph → (ℕ → Stats) → String → Type 0
Captures g stats x = (u : ℕ) × UsedLater stats (λ c. (g.links c).successors) x u g.entry_bb

UsedLater-uses :
    {stats : ℕ → Stats} {next : ℕ → List ℕ} {x : String} {u b : ℕ}
    → UsedLater stats next x u b
    → has x (stats u).used ≡ true
UsedLater-uses (here same used) = used
UsedLater-uses (later free edge path) = UsedLater-uses path

get_of_has :
    {B : Type 0} (x : String) (d : Dict String B) → has x d ≡ true → (v : B) × (get x d ≡ some v)
get_of_has x d h = elim (Option-cases (get x d)) [
  | inl missing ↦ absurd (ground arith)
  | inr (v, at) ↦ (v, at)
]

module _ (stats : ℕ → Stats) (skip : String → Bool) where
  captured_lem :
      (live : Dict String ℕ)
      → Entries (λ x u. has x (stats u).used ≡ true) live
      → (d : Dict String AstNode) × (captured stats skip live ≡ done d)
        × ((x : String) → has x d ≡ (not (skip x) && has x live))
  unfolding captured get
  captured_lem [] h = ([], refl, λ x. ground arith)
  captured_lem ((y, u) ∷ live) (used, h) =
      let (d, ends, keys) = captured_lem live h in
      let (node, at) = get_of_has y (stats u).used used in
      elim (Bool-cases (skip y)) [
        | inl skipped ↦
            (d, rw (captured, skipped) ends, λ x. ground (arith, keys x, string_eq.beq_iff x y))
        | inr kept ↦ (
          (y, node) ∷ d,
          rw (captured, kept, at, ends),
          λ x. elim (Bool-cases (string_eq.beq x y)) [
            | inl same ↦ rw ((string_eq.beq_iff x y).0 same) (ground (arith, beq_refl y))
            | inr apart ↦ ground (arith, keys x)
          ],
        )
      ]

module _ (choose : ℕ → List ℕ → ℕ) (g : Graph) (good : IsGraph g) (stats : ℕ → Stats) where
  abbrev Nowhere : String → ℕ → Type 0
  Nowhere x u = ⊥

  abbrev live_fuel : ℕ
  live_fuel = liveness_fuel stats [] false g.links g.bbs

  abbrev run : Outcome (ℕ → Option (Dict String ℕ))
  run = run_backward (liveness_analysis stats [] false) g.links choose live_fuel g.bbs

  entry_of_run :
      (live : ℕ → Option (Dict String ℕ)) (d : Dict String ℕ)
      → run ≡ done live
      → live g.entry_bb ≡ some d
      → live_at_entry choose g stats ≡ done d
  unfolding live_at_entry
  entry_of_run live d ends at =
      let step : live_at_entry choose g stats ≡ entry_dict (live g.entry_bb) =
        rw (live_at_entry, ends) in
      step ∙ rw at

  live_at_entry_lem :
      (live : Dict String ℕ) × (live_at_entry choose g stats ≡ done live)
      × Entries (λ x u. has x (stats u).used ≡ true) live
      × ((x : String) → (has x live ≡ true) ↔ Captures g stats x)
  unfolding get
  live_at_entry_lem =
      let enough : live_fuel ≤ live_fuel = omega arith in
      let closed = IsClosed-backward g good.well_linked false in
      let (live, d, ends, at) =
        liveness_total stats [] false g.links g.bbs Nowhere tt choose live_fuel closed enough
          g.entry_bb good.entry_in in
      (
        d,
        entry_of_run live d ends at,
        Entries-map _ _ d
            (λ x u. elim [ inl path ↦ UsedLater-uses path | inr never ↦ absurd never ])
            (liveness-Entries stats [] false g.links g.bbs Nowhere tt choose live_fuel closed enough
              g.entry_bb ends good.entry_in at),
        λ x. (
          λ h.
              let (u, found) = get_of_has x d h in
              elim (liveness_evidence stats [] false g.links g.bbs Nowhere tt choose live_fuel
                closed enough g.entry_bb ends good.entry_in at x u found) [
                  | inl path ↦ (u, path)
                  | inr never ↦ absurd never
                ],
          λ (u, path).
              liveness_complete stats [] false g.links g.bbs Nowhere tt choose live_fuel closed
                enough g.entry_bb ends good.entry_in at x u path,
        ),
      )

module _ (choose : ℕ → List ℕ → ℕ) (g : Graph) (good : IsGraph g) (stats : ℕ → Stats)
    (skip : String → Bool) where
  capture_lem :
      (s : Stats)
      → (d : Dict String AstNode) × (capture choose g stats skip s
          ≡ done (record s { used = merge s.used d }))
        × ((x : String)
            → (has x (merge s.used d) ≡ true)
              ↔ ((has x s.used ≡ true) ⊎ ((skip x ≡ false) × Captures g stats x)))
  unfolding capture
  capture_lem s =
      let (live, lived, uses, paths) = live_at_entry_lem choose g good stats in
      let (d, ends, keys) = captured_lem stats skip live uses in
      (
        d,
        rw (capture, lived, ends),
        λ x. (
          λ h. elim (Bool-cases (has x s.used)) [
            | inl old ↦ inl old
            | inr new ↦ inr (
              ground (arith, has-merge x s.used d, keys x),
              (paths x).0 (ground (arith, has-merge x s.used d, keys x)),
            )
          ],
          elim [
            | inl old ↦ ground (arith, has-merge x s.used d)
            | inr (free, path) ↦
                let alive = (paths x).1 path in ground (arith, has-merge x s.used d, keys x)
          ],
        ),
      )

mark_in_modifier_lem :
    (d : Dict String AstNode) (s : Stats)
    → (m : Dict String (AstNode)) × (mark_in_modifier d s
        ≡ record s { assigned_in_modifier_block = m })
      × ((x : String) → has x m ≡ (has x s.assigned_in_modifier_block || has x d))
unfolding mark_in_modifier get
mark_in_modifier_lem [] s = (s.assigned_in_modifier_block, refl, λ x. ground arith)
mark_in_modifier_lem ((y, node) ∷ d) s =
    let put_y = put y node s.assigned_in_modifier_block in
    let (m, same, keys) =
      mark_in_modifier_lem d (record s { assigned_in_modifier_block = put_y }) in
    (m, same, λ x. ground (arith, keys x, get-put y x node s.assigned_in_modifier_block))

mark_blocks_lem :
    (all : List Stats) (s : Stats)
    → (m : Dict String AstNode) × (mark_blocks all s ≡ record s { assigned_in_modifier_block = m })
      × ((x : String)
          → has x m ≡ (has x s.assigned_in_modifier_block || any (λ t. is_killed t x) all))
unfolding mark_blocks
mark_blocks_lem [] s = (s.assigned_in_modifier_block, refl, λ x. ground arith)
mark_blocks_lem (t ∷ all) s =
    let both = merge t.assigned_in_modifier_block t.assigned in
    let (m, same, keys) = mark_in_modifier_lem both s in
    let (m', same', keys') = mark_blocks_lem all (record s { assigned_in_modifier_block = m }) in
    (
      m',
      rw same same',
      λ x. ground (arith, keys x, keys' x, has-merge x t.assigned_in_modifier_block t.assigned),
    )

module _ (choose : ℕ → List ℕ → ℕ) (g : Graph) (good : IsGraph g) (bs : Blocks) (all : List Stats)
    (computed : compute_all choose bs ≡ done all) where
  -- If the stats of the blocks of a nested function are computed, and its graph is well linked,
  -- then visiting the function succeeds and its name is assigned. A variable is then used exactly
  -- if it was used before, or if it is neither assigned in the block so far nor the function's name
  -- nor an argument, and in the function's graph a path of real links leads from the entry to a use
  -- of it on which no block that the path leaves assigns it.
  pub nested_function_lem :
      (fun : String) (args : List String) (s : Stats)
      → (s' : Stats) × (visit_stmt choose (nested_function fun args g bs) s ≡ done s')
        × (has fun s'.assigned ≡ true)
        × ((x : String)
            → (has x s'.used ≡ true) ↔ (
                (has x s.used ≡ true)
                ⊎ ((has x s.assigned ≡ false)
                    × (x ≢ fun)
                    × (elem x args ≡ false)
                    × Captures g (stats_at all) x)))
  unfolding visit_stmt capture_function
  nested_function_lem fun args s =
      let skip : String → Bool = λ x. has x s.assigned || string_eq.beq x fun || elem x args in
      let (d, ends, uses) = capture_lem choose g good (stats_at all) skip s in
      let node = stmt_node (nested_function fun args g bs) in
      (
        record s { used = merge s.used d; assigned = put fun node s.assigned },
        rw (computed, capture_function, ends),
        ground (arith, get-put fun fun node s.assigned, beq_refl fun),
        λ x. (
          λ h. elim ((uses x).0 h) [
            | inl old ↦ inl old
            | inr (free, path) ↦
                inr (ground arith, ground (arith, string_eq.beq_iff x fun), ground arith, path)
          ],
          elim [
            | inl old ↦ (uses x).1 (inl old)
            | inr (free, other, no_arg, path) ↦
                (uses x).1 (inr (ground (arith, string_eq.beq_iff x fun), path))
          ],
        ),
      )

  -- If the stats of the blocks of a modified block are computed, and its graph is well linked, then
  -- visiting the modified block succeeds and assigns nothing. After the control and power
  -- expressions, a variable counts as used exactly if it did before, or if it is not assigned in
  -- the block so far and a path as for nested functions leads from the entry to a use of it. It
  -- counts as assigned in a modified block exactly if it did before or some block of the graph
  -- assigns it, itself or in a modified block of its own.
  pub modified_block_lem :
      (control power : Exprs) (s s1 : Stats)
      → visit_exprs power (visit_exprs control s) ≡ s1
      → (s' : Stats) × (visit_stmt choose (modified_block control power g bs) s ≡ done s')
        × (s'.assigned ≡ s1.assigned)
        × ((x : String)
            → ((has x s'.used ≡ true) ↔ (
                (has x s1.used ≡ true)
                ⊎ ((has x s1.assigned ≡ false) × Captures g (stats_at all) x)))
              × (has x s'.assigned_in_modifier_block
                  ≡ (has x s1.assigned_in_modifier_block || any (λ t. is_killed t x) all)))
  unfolding visit_stmt capture_block
  modified_block_lem control power s s1 visited =
      let (m, same, keys) = mark_blocks_lem all s1 in
      let marked : Stats = record s1 { assigned_in_modifier_block = m } in
      let (d, ends, uses) =
        capture_lem choose g good (stats_at all) (λ x. has x s1.assigned) marked in
      (
        record marked { used = merge s1.used d },
        rw (computed, visited, capture_block, same) ends,
        refl,
        λ x. (uses x, keys x),
      )
