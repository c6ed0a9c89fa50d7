-- ===== src/Cfg/Liveness/Correct.antt =====
-- Liveness against paths: the run ends, its entries have uses as evidence, and no use is missed.
use guppylang.Common.{
  ℕ, ◌+◌, ◌*◌, ◌≤◌, ◌≡◌, refl, Bool, true, false, Option, some, List, [], ◌∷◌, map, arith, ◌==◌, Eq,
  nat_eq, Bool-cases, ◌⊎◌, inl, inr, length, ==→eq, sym, ◌∙◌, some_unique,
}
use mathlib.Core.Path.{subst}
use guppylang.Common.Sets.{elem, elem-append}
use guppylang.Common.Loop.{Outcome, done, done_unique}
use guppylang.Common.Dict.{
  Dict, get, has, merge, keys, has-same_keys, Entries, get-Entries, Entries-merge,
  Entries-from_keys, Entries-restrict, Entries-map, elem-keys,
}
use guppylang.Cfg.Graph.{Links}
use guppylang.Cfg.Stats.{VariableStats}
use guppylang.Cfg.Analysis.{Analysis, all_successors, run_backward}
use guppylang.Cfg.Analysis.Closed.{IsClosed}
use guppylang.Cfg.Analysis.Backward.{Pass, Settled, backward_total}
use guppylang.Cfg.Liveness.{join_live, is_killed, apply_live, liveness_analysis}
use guppylang.Cfg.Liveness.Paths.{UsedLater, here, later}
use guppylang.Cfg.Liveness.Domain.{
  or_all, has-live_step, live_flow, variables, live_bits, IsKnown, live_mono, used_in, elem-used_in,
}

module _ {V : Type 0} ⦃e : Eq V⦄ (P : V → ℕ → Type 0) where
  Entries-join_live :
      (cur : ℕ → Dict V ℕ) (cs : List ℕ) (res : Dict V ℕ)
      → ((c : ℕ) → elem c cs ≡ true → Entries P (cur c))
      → Entries P res
      → Entries P (join_live res (map cur cs))
  unfolding join_live
  Entries-join_live cur [] res h r = r
  Entries-join_live cur (c ∷ cs) res h r =
      Entries-join_live cur cs (merge res (cur c)) (λ d m. h d (ground arith))
        (Entries-merge P res (cur c) r (h c (ground arith)))

or_all_of :
    {V : Type 0} ⦃e : Eq V⦄ (x : V) (cur : ℕ → Dict V ℕ) (c : ℕ) (cs : List ℕ)
    → elem c cs ≡ true
    → has x (cur c) ≡ true
    → or_all (map (has x) (map cur cs)) ≡ true
or_all_of x cur c [] m h = cc
or_all_of x cur c (d ∷ cs) m h = elim (Bool-cases (c == d)) [
  | inl same ↦
      let at_d : has x (cur d) ≡ true = subst (λ i. has x (cur i) ≡ true) (==→eq c d same) h in
      rw at_d
  | inr other ↦ ground (arith, or_all_of x cur c cs (ground arith) h)
]

or_all_from :
    {V : Type 0} ⦃e : Eq V⦄ (x : V) (cur : ℕ → Dict V ℕ) (cs : List ℕ)
    → or_all (map (has x) (map cur cs)) ≡ true
    → (c : ℕ) × (has x (cur c) ≡ true)
or_all_from x cur [] h = cc
or_all_from x cur (c ∷ cs) h = elim (Bool-cases (has x (cur c))) [
  | inl found ↦ (c, found)
  | inr other ↦ or_all_from x cur cs (ground arith)
]

module _ {V N : Type 0} ⦃e : Eq V⦄ (stats : ℕ → VariableStats V N) (initial : Dict V ℕ)
    (include_unreachable : Bool) (links : ℕ → Links) (bbs : List ℕ) where
  abbrev pub analysis : Analysis (Dict V ℕ)
  analysis = liveness_analysis stats initial include_unreachable

  abbrev pub next : ℕ → List ℕ
  next = all_successors analysis links

  -- Enough fuel for any order of the queue.
  abbrev pub liveness_fuel : ℕ
  liveness_fuel = length bbs * length (variables stats initial bbs) * (length bbs + 1) + length bbs

  -- The links stay among the blocks, and a successor knows its predecessor.
  abbrev pub IsLinked : Type 0
  IsLinked = IsClosed bbs next (λ c. (links c).successors) (λ c. (links c).predecessors)

  IsKnown-initial : IsKnown stats initial bbs initial
  IsKnown-initial x m =
      ground (arith, elem-append x (keys initial) (used_in stats bbs), elem-keys x initial)

  IsKnown-step :
      (b : ℕ) (cs : List ℕ) (cur : ℕ → Dict V ℕ)
      → elem b bbs ≡ true
      → ((c : ℕ) → IsKnown stats initial bbs (cur c))
      → IsKnown stats initial bbs (apply_live stats (join_live [] (map cur cs)) b)
  IsKnown-step b cs cur b_in h x m =
      let bits : live_flow stats x b (map (has x) (map cur cs)) ≡ true =
        sym (has-live_step stats x b (map cur cs)) ∙ m in
      elim (Bool-cases (has x (stats b).used)) [
        | inl uses ↦ ground (
          arith,
          elem-append x (keys initial) (used_in stats bbs),
          elem-used_in stats x b bbs b_in uses,
        )
        | inr other ↦ let (c, live) = or_all_from x cur cs (ground arith) in h c x live
      ]

  module _ (Given : V → ℕ → Type 0) (given : Entries Given initial) where
    -- Why `x` is live at `b` with evidence `u`: a path to a use, or `initial` says so.
    abbrev pub Found : ℕ → V → ℕ → Type 0
    Found b x u = UsedLater stats next x u b ⊎ Given x u

    abbrev stepped : ℕ → (ℕ → Dict V ℕ) → Dict V ℕ
    stepped b cur = apply_live stats (join_live [] (map cur (next b))) b

    Found-step :
        (cur : ℕ → Dict V ℕ) (b : ℕ)
        → ((c : ℕ) → Entries (Found c) (cur c))
        → Entries (Found b) (stepped b cur)
    unfolding apply_live
    Found-step cur b h =
        let Via : V → ℕ → Type 0 =
          λ x u. ((c : ℕ) × (elem c (next b) ≡ true) × UsedLater stats next x u c) ⊎ Given x u in
        let joined : Entries Via (join_live [] (map cur (next b))) =
          Entries-join_live Via cur (next b) []
            (λ c m.
              Entries-map (Found c) Via (cur c)
                (λ x u. elim [ inl path ↦ inl (c, m, path) | inr g ↦ inr g ]) (h c))
            tt in
        Entries-merge (Found b) _ _
          (Entries-from_keys (Found b) (keys (stats b).used) b
            (λ x m. inl (here refl (rw (← elem-keys x (stats b).used) m))))
          (Entries-restrict Via (Found b) _ _
            (λ x u kept. elim [
              | inl (c, m, path) ↦ inl (later (ground arith) m path)
              | inr g ↦ inr g
            ])
            joined)

    -- What the set of live variables of `b` owes to its uses and to its successors.
    record Owes (b : ℕ) (t : Dict V ℕ) (cur : ℕ → Dict V ℕ) : Type 0 where
      uses : (x : V) → has x (stats b).used ≡ true → has x t ≡ true
      passes :
          (x : V) (c : ℕ)
          → elem c (links b).successors ≡ true
          → is_killed (stats b) x ≡ false
          → has x (cur c) ≡ true
          → has x t ≡ true

    next_of_successor : (b c : ℕ) → elem c (links b).successors ≡ true → elem c (next b) ≡ true
    next_of_successor b c m = elim (Bool-cases include_unreachable) [
      | inl on ↦ ground (arith, elem-append c (links b).successors (links b).dummy_successors)
      | inr off ↦ ground arith
    ]

    step-Owes : (b : ℕ) (cur : ℕ → Dict V ℕ) → Owes b (stepped b cur) cur
    step-Owes b cur = record {
      uses = λ x m. has-live_step stats x b (map cur (next b)) ∙ rw m;
      passes = λ x c m free h.
          has-live_step stats x b (map cur (next b))
          ∙ rw (free, or_all_of x cur c (next b) (next_of_successor b c m) h) (ground arith);
    }

    liveness_pass : Pass V analysis links bbs
    liveness_pass = record {
      bits = live_bits stats initial bbs;
      Good = IsKnown stats initial bbs;
      mono = live_mono stats initial bbs;
      first_initial = λ x. refl;
      good_initial = IsKnown-initial;
      good_step = λ b cs cur b_in h. IsKnown-step b cs cur b_in h;
      Kept = λ cur. (b : ℕ) → Entries (Found b) (cur b);
      kept_initial = λ b. Entries-map Given (Found b) initial (λ x u. inr) given;
      kept_step = λ cur b b_in h c. elim (Bool-cases (c == b)) [
        | inl same ↦ rw same (rw (==→eq c b same) (Found-step cur b h))
        | inr other ↦ rw other (h c)
      ];
      Local = Owes;
      local_step = step-Owes;
      local_eq = λ b cur old new same h. record {
        uses = λ x m. rw (has-same_keys old new same x) (h.uses x m);
        passes = λ x c m free p. rw (has-same_keys old new same x) (h.passes x c m free p);
      };
      local_frame = λ b t cur cur' frame h. record {
        uses = h.uses;
        passes =
            λ x c m free p. h.passes x c m free (subst (λ d. has x d ≡ true) (sym (frame c m)) p);
      };
    }

    -- A use that a path of real successors leads to is not missed.
    UsedLater-has :
        (cur : ℕ → Dict V ℕ)
        → ((b : ℕ) → elem b bbs ≡ true → Owes b (cur b) cur)
        → IsLinked
        → (x : V) (u : ℕ) {b : ℕ} → elem b bbs ≡ true
        → UsedLater stats (λ c. (links c).successors) x u b
        → has x (cur b) ≡ true
    UsedLater-has cur owes g x u {b} m (here same used) =
        (owes b m).uses x (subst (λ i. has x (stats i).used ≡ true) (sym same) used)
    UsedLater-has cur owes g x u {b} m (later {c} free edge path) =
        (owes b m).passes x c edge free
          (UsedLater-has cur owes g x u (g.inputs_in b c m (next_of_successor b c edge)) path)

    module _ (choose : ℕ → List ℕ → ℕ) (fuel : ℕ) (g : IsLinked)
        (enough : liveness_fuel ≤ fuel) where
      abbrev run : Outcome (ℕ → Option (Dict V ℕ))
      run = run_backward analysis links choose fuel bbs

      record Result : Type 1 where
        settled : Settled analysis links bbs choose liveness_pass g
        ends : run ≡ done settled.vals

      result : Result
      unfolding liveness_pass
      result =
          let (r, ends) = backward_total analysis links bbs choose liveness_pass g fuel enough in
          record { settled = r; ends = ends }

      -- Whatever order `queue.pop()` takes, the run raises no `KeyError`, ends within
      -- `liveness_fuel` rounds, and gives each block a dict.
      pub liveness_total :
          (b : ℕ)
          → elem b bbs ≡ true
          → (live : ℕ → Option (Dict V ℕ)) × (d : Dict V ℕ) × (run ≡ done live) × (live b ≡ some d)
      liveness_total b m = let r = result.settled in (r.vals, r.cur b, result.ends, r.holds b m)

      module _ {live : ℕ → Option (Dict V ℕ)} {d : Dict V ℕ} (b : ℕ) (ended : run ≡ done live)
          (mb : elem b bbs ≡ true) (at : live b ≡ some d) where
        final : result.settled.cur b ≡ d
        final =
            let same = done_unique result.ends ended in
            some_unique (result.settled.holds b mb) (subst (λ f. f b ≡ some d) (sym same) at)

        -- The evidence of each entry, as a loop over the dict meets them.
        pub liveness-Entries : Entries (Found b) d
        unfolding liveness_pass
        liveness-Entries = subst (Entries (Found b)) final (result.settled.kept b)

        -- An entry `x ↦ u` of the dict of `b` has its evidence: `u` uses `x`, and a path of real and
        -- dummy links leads from `b` to `u` on which no block that it leaves assigns `x`; or the
        -- entry comes from `initial`.
        pub liveness_evidence :
            (x : V) (u : ℕ) → get x d ≡ some u → UsedLater stats next x u b ⊎ Given x u
        unfolding liveness_pass
        liveness_evidence x u p = get-Entries (Found b) x d liveness-Entries p

        -- Each use that such a path of real links reaches is in the dict.
        pub liveness_complete :
            (x : V) (u : ℕ) → UsedLater stats (λ c. (links c).successors) x u b → has x d ≡ true
        unfolding liveness_pass
        liveness_complete x u path =
            subst (λ t. has x t ≡ true) final
              (UsedLater-has result.settled.cur result.settled.settled g x u mb path)
