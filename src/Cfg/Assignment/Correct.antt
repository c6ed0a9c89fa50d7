-- ===== src/Cfg/Assignment/Correct.antt =====
-- Assignment against paths: the run ends, and its two sets are what the paths to a block say.
use mathlib.Core.Path.{subst}
use guppylang.Common.{
  ℕ, ◌+◌, ◌*◌, ◌≤◌, ◌≡◌, refl, Bool, true, false, Option, some, List, arith, Eq, nat_eq, ◌⊎◌,
  length, sym, some_unique, ◌∙◌, [],
}
use guppylang.Common.Sets.{elem}
use guppylang.Common.Loop.{Outcome, done, done_unique}
use guppylang.Cfg.Graph.{Links}
use guppylang.Cfg.Stats.{VariableStats}
use guppylang.Cfg.Analysis.{run_forward}
use guppylang.Cfg.Analysis.Forward.{Settled, forward_total}
use guppylang.Cfg.Assignment.{Assignments}
use guppylang.Cfg.Assignment.Paths.{Unassigned, MayBeAssigned}
use guppylang.Cfg.Assignment.Facts.{fact_eq, definite, maybe, facts}
use guppylang.Cfg.Assignment.Pass.{
  analysis, bbs, inputs, IsLinked, vars, variables, Own, Owes, input_of_predecessor,
  assignment_pass,
}

module _ {V N : Type 0} ⦃e : Eq V⦄ (stats : ℕ → VariableStats V N) (entry maybe_entry : List V)
    (include_unreachable : Bool) (links : ℕ → Links) (all_bbs : List ℕ) where
  abbrev blocks : List ℕ
  blocks = bbs stats entry maybe_entry include_unreachable links all_bbs

  abbrev prev : ℕ → List ℕ
  prev = inputs stats entry maybe_entry include_unreachable links all_bbs

  abbrev real : ℕ → List ℕ
  real c = (links c).predecessors

  -- A settled result, read along the paths of real links.
  module _ (g : IsLinked stats entry maybe_entry include_unreachable links all_bbs)
      (bef cur : ℕ → Assignments V)
      (own : (c : ℕ)
        → elem c blocks ≡ true
        → Own stats entry maybe_entry include_unreachable links all_bbs c (bef c) (cur c))
      (owes : (c : ℕ)
        → elem c blocks ≡ true
        → Owes stats entry maybe_entry include_unreachable links all_bbs c (bef c) cur)
      (x : V) where
    inside : (b c : ℕ) → elem b blocks ≡ true → elem c (real b) ≡ true → elem c blocks ≡ true
    inside b c m edge =
        g.inputs_in b c m
          (input_of_predecessor stats entry maybe_entry include_unreachable links all_bbs b c edge)

    not-Unassigned :
        {b : ℕ}
        → elem b blocks ≡ true
        → elem x (bef b).0 ≡ true
        → ¬ Unassigned stats entry prev real x b
    not-Unassigned {b} m h (Unassigned.start none out) = cc ((owes b m).from_entry x none h)
    not-Unassigned {b} m h (Unassigned.after {c} edge free path) =
        let mc = inside b c m edge in
        not-Unassigned mc (ground (arith, (owes b m).from_all x c edge h, own c mc (definite x)))
          path

    elem_of_path :
        {b : ℕ}
        → elem b blocks ≡ true
        → MayBeAssigned stats entry prev real x b
        → elem x (bef b).1 ≡ true
    elem_of_path {b} m (MayBeAssigned.given none there) = (owes b m).at_entry x none ∙ there
    elem_of_path {b} m (MayBeAssigned.written c edge writes) =
        (owes b m).from_any x c edge (ground (arith, own c (inside b c m edge) (maybe x)))
    elem_of_path {b} m (MayBeAssigned.earlier {c} edge path) =
        let mc = inside b c m edge in
        (owes b m).from_any x c edge (ground (arith, own c mc (maybe x), elem_of_path mc path))

  -- Enough fuel for any order of the queue.
  abbrev pub assignment_fuel : ℕ
  assignment_fuel =
      length blocks
        * length (facts (variables stats entry maybe_entry include_unreachable links all_bbs))
        * (length blocks + 1)
      + length blocks

  module _ (choose : ℕ → List ℕ → ℕ) (fuel : ℕ)
      (g : IsLinked stats entry maybe_entry include_unreachable links all_bbs)
      (enough : assignment_fuel ≤ fuel) where
    abbrev run : Outcome (ℕ → Option (Assignments V))
    run =
        run_forward (analysis stats entry maybe_entry include_unreachable links all_bbs) links
          choose fuel all_bbs

    abbrev Final : Type 1
    Final =
        Settled ⦃e = fact_eq⦄ (analysis stats entry maybe_entry include_unreachable links all_bbs)
          links blocks choose
          (assignment_pass stats entry maybe_entry include_unreachable links all_bbs) g

    record Result : Type 1 where
      settled : Final
      ends : run ≡ done settled.vals

    result : Result
    unfolding assignment_pass
    result =
        let (r, ends) =
          forward_total (analysis stats entry maybe_entry include_unreachable links all_bbs) links
            blocks choose
            (assignment_pass stats entry maybe_entry include_unreachable links all_bbs) g fuel
            all_bbs refl enough in
        record { settled = r; ends = ends }

    -- Whatever order `queue.pop()` takes, the run raises no `KeyError`, ends within
    -- `assignment_fuel` rounds, and gives each block that it visits a pair of sets.
    pub assignment_total :
        (b : ℕ)
        → elem b blocks ≡ true
        → (res : ℕ → Option (Assignments V)) × (t : Assignments V) × (run ≡ done res)
          × (res b ≡ some t)
    assignment_total b m =
        let r = result.settled in (r.vals, r.bef b, result.ends, r.holds_before b m)

    module _ {res : ℕ → Option (Assignments V)} {t : Assignments V} (b : ℕ) (ended : run ≡ done res)
        (mb : elem b blocks ≡ true) (at : res b ≡ some t) where
      final : result.settled.bef b ≡ t
      final =
          let same = done_unique result.ends ended in
          some_unique (result.settled.holds_before b mb) (subst (λ f. f b ≡ some t) (sym same) at)

      -- A variable that is definitely assigned before `b` is assigned on every path of real links
      -- to `b` from a block with no links into it.
      pub definite_sound : (x : V) → elem x t.0 ≡ true → ¬ Unassigned stats entry prev real x b
      unfolding assignment_pass
      definite_sound x h =
          let r = result.settled in
          not-Unassigned g r.bef r.cur (λ c m. (r.kept c m).1) r.settled x mb
            (subst (λ s. elem x s.0 ≡ true) (sym final) h)

      -- Any other variable that the function assigns somewhere, or takes as an argument, has a path
      -- to `b`, over real and dummy links, that does not assign it.
      pub definite_complete :
          (x : V)
          → elem x (vars stats entry maybe_entry include_unreachable links all_bbs) ≡ true
          → elem x t.0 ≡ false
          → Unassigned stats entry prev prev x b
      unfolding assignment_pass
      definite_complete x v h =
          let r = result.settled in
          (r.kept b mb).0.missed x v (subst (λ s. elem x s.0 ≡ false) (sym final) h)

      -- A variable that may be assigned before `b` is assigned on some path to `b`, over real and
      -- dummy links, or is among those that may be assigned before the entry.
      pub maybe_sound :
          (x : V)
          → elem x t.1 ≡ true
          → MayBeAssigned stats entry prev prev x b ⊎ (elem x maybe_entry ≡ true)
      unfolding assignment_pass
      maybe_sound x h =
          let r = result.settled in
          (r.kept b mb).0.made x (subst (λ s. elem x s.1 ≡ true) (sym final) h)

      -- Before a block with no links into it, a variable that is not definitely assigned before the
      -- entry is not among those that may be assigned, whether `maybe_entry` has it or not.
      pub maybe_entry_dropped : (x : V) → prev b ≡ [] → elem x entry ≡ false → elem x t.1 ≡ false
      unfolding assignment_pass
      maybe_entry_dropped x none out =
          let r = result.settled in
          subst (λ s. elem x s.1 ≡ false) final ((r.settled b mb).at_entry x none ∙ out)

      -- A variable that some path of real links to `b` assigns may be assigned before `b`.
      pub maybe_complete : (x : V) → MayBeAssigned stats entry prev real x b → elem x t.1 ≡ true
      unfolding assignment_pass
      maybe_complete x path =
          let r = result.settled in
          subst (λ s. elem x s.1 ≡ true) final
            (elem_of_path g r.bef r.cur (λ c m. (r.kept c m).1) r.settled x mb path)
