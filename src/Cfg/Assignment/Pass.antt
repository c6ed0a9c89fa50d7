-- ===== src/Cfg/Assignment/Pass.antt =====
-- What the forward loop needs of the two sets, and what the paths are to them.
use mathlib.Core.Path.{subst}
use guppylang.Common.{
  ℕ, ◌≡◌, refl, Bool, true, false, ◌||◌, List, [], ◌∷◌, ◌++◌, map, arith, ◌==◌, Eq, nat_eq,
  Bool-cases, ◌⊎◌, inl, inr, ==→eq, sym, ◌∙◌, ap,
}
use guppylang.Common.Sets.{elem, elem-append, elem-update_with, elem-filter}
use guppylang.Common.Dict.{has, keys, elem-keys}
use guppylang.Cfg.Graph.{Links}
use guppylang.Cfg.Stats.{VariableStats}
use guppylang.Cfg.Analysis.{Analysis, all_predecessors, visited}
use guppylang.Cfg.Analysis.Closed.{IsClosed}
use guppylang.Cfg.Analysis.Chain.{Bits, IsMonotone, Toward, AllToward}
use guppylang.Cfg.Analysis.Forward.{ForwardPass}
use guppylang.Cfg.Assignment.{
  Assignments, same_assignments, join_assignments, apply_assignments, all_vars, assignments, union,
}
use guppylang.Cfg.Assignment.Paths.{Unassigned, MayBeAssigned}
use guppylang.Cfg.Assignment.Domain.{any_of, joined_by_any, joined_by_all, elem-union}
use guppylang.Cfg.Assignment.Facts.{
  Fact, definite, maybe, fact_eq, holds, facts, subject, same-holds, IsKnown, differ, writes,
  holds-join, holds-apply, fact_flow, all_of_at, any_of_at, not_all_of, any_of_from,
}

assigned_somewhere :
    {V N : Type 0} ⦃e : Eq V⦄ (stats : ℕ → VariableStats V N) (x : V) (b : ℕ) (bs : List ℕ)
    → elem b bs ≡ true
    → has x (stats b).assigned ≡ true
    → any_of (map (elem x) (map (λ c. keys (stats c).assigned) bs)) ≡ true
assigned_somewhere stats x b [] m h = cc
assigned_somewhere stats x b (c ∷ bs) m h = elim (Bool-cases (b == c)) [
  | inl same ↦
      let here : has x (stats c).assigned ≡ true = rw (==→eq b c same) at h in
      ground (arith, elem-keys x (stats c).assigned)
  | inr other ↦ ground (arith, assigned_somewhere stats x b bs (ground arith) h)
]

module _ {V N : Type 0} ⦃e : Eq V⦄ (stats : ℕ → VariableStats V N) (entry maybe_entry : List V)
    (include_unreachable : Bool) (links : ℕ → Links) (all_bbs : List ℕ) where
  abbrev pub analysis : Analysis (Assignments V)
  analysis = assignments stats all_bbs entry maybe_entry include_unreachable

  abbrev pub bbs : List ℕ
  bbs = visited analysis links all_bbs

  abbrev pub inputs : ℕ → List ℕ
  inputs = all_predecessors analysis links

  -- The links stay among the blocks, and a predecessor knows its successor.
  abbrev pub IsLinked : Type 0
  IsLinked = IsClosed bbs inputs (λ c. (links c).predecessors) (λ c. (links c).successors)

  abbrev pub vars : List V
  vars = all_vars stats all_bbs entry

  -- The variables that a run can meet.
  abbrev pub variables : List V
  variables = vars ++ maybe_entry

  abbrev pub fact_bits : Bits (Assignments V) (Fact V)
  fact_bits = record {
    keys = facts variables;
    bit = holds;
    first = λ f. holds f (vars, maybe_entry);
    flow = fact_flow stats entry;
  }

  flow-Toward :
      (f : Fact V) (b : ℕ) (xs ys : List Bool)
      → AllToward (fact_bits.first f) xs ys
      → Toward (fact_bits.first f) (fact_flow stats entry f b xs) (fact_flow stats entry f b ys)
  flow-Toward (definite x) b xs ys h =
      ground (arith, joined_by_all (elem x vars) (elem x entry) xs ys h)
  flow-Toward (maybe x) b xs ys h =
      ground (arith, joined_by_any (elem x maybe_entry) (elem x entry) xs ys h)

  pub fact_mono :
      IsMonotone fact_bits
        (IsKnown variables)
        same_assignments
        (λ b ts. apply_assignments stats (join_assignments entry ts) b)
  fact_mono = record {
    bit_step = λ f b ts.
        holds-apply stats f (join_assignments entry ts) b
        ∙ ap (λ h. h || writes stats f b) (holds-join stats entry f ts);
    flow_mono = flow-Toward;
    differs = differ variables;
  }

  assigned-vars :
      (x : V) (b : ℕ) → elem b all_bbs ≡ true → has x (stats b).assigned ≡ true → elem x vars ≡ true
  unfolding all_vars
  assigned-vars x b m h = ground (
    arith,
    elem-update_with x entry (union [] (map (λ c. keys (stats c).assigned) all_bbs)),
    elem-union x [] (map (λ c. keys (stats c).assigned) all_bbs),
    assigned_somewhere stats x b all_bbs m h,
  )

  entry-vars : (x : V) → elem x entry ≡ true → elem x vars ≡ true
  unfolding all_vars
  entry-vars x m =
      ground
        (arith, elem-update_with x entry (union [] (map (λ b. keys (stats b).assigned) all_bbs)))

  pub visited-all : (b : ℕ) → elem b bbs ≡ true → elem b all_bbs ≡ true
  visited-all b m = elim (Bool-cases include_unreachable) [
    | inl on ↦ ground arith
    | inr off ↦ ground (arith, elem-filter (λ c. (links c).reachable) b all_bbs)
  ]

  pub first-Toward :
      (f : Fact V) (b : ℕ) (ts : List (Assignments V))
      → Toward
          (fact_bits.first f)
          (holds f (apply_assignments stats (vars, maybe_entry) b))
          (holds f (apply_assignments stats (join_assignments entry ts) b))
  first-Toward f b ts = ground (
    arith,
    holds-apply stats f (vars, maybe_entry) b,
    holds-apply stats f (join_assignments entry ts) b,
  )

  pub IsKnown-initial : IsKnown variables (vars, maybe_entry)
  IsKnown-initial (definite x) m = ground (arith, elem-append x vars maybe_entry)
  IsKnown-initial (maybe x) m = ground (arith, elem-append x vars maybe_entry)

  pub IsKnown-apply :
      (t : Assignments V) (b : ℕ)
      → elem b bbs ≡ true
      → IsKnown variables t
      → IsKnown variables (apply_assignments stats t b)
  IsKnown-apply t b m h f hit =
      let x = subject f in
      ground (
        arith,
        holds-apply stats f t b,
        h f,
        assigned-vars x b (visited-all b m),
        elem-append x vars maybe_entry,
      )

  pub IsKnown-join :
      (cs : List ℕ) (cur : ℕ → Assignments V)
      → ((c : ℕ) → IsKnown variables (cur c))
      → IsKnown variables (join_assignments entry (map cur cs))
  IsKnown-join [] cur h (definite x) m =
      ground (
        arith,
        holds-join stats entry (definite x) [],
        entry-vars x,
        elem-append x vars maybe_entry,
      )
  IsKnown-join [] cur h (maybe x) m =
      ground
        (arith, holds-join stats entry (maybe x) [], entry-vars x, elem-append x vars maybe_entry)
  IsKnown-join (c ∷ cs) cur h (definite x) m =
      ground (arith, holds-join stats entry (definite x) (map cur (c ∷ cs)), h c (definite x))
  IsKnown-join (c ∷ cs) cur h (maybe x) m =
      let (d, _, hit) =
        any_of_from (maybe x) cur (c ∷ cs)
          (sym (holds-join stats entry (maybe x) (map cur (c ∷ cs))) ∙ m) in
      h d (maybe x) hit

  -- The value after a block is the value before it and what the block assigns.
  abbrev pub Own : ℕ → Assignments V → Assignments V → Type 0
  Own b t t' = (f : Fact V) → holds f t' ≡ (holds f t || writes stats f b)

  -- What is not definitely assigned before `b` has a path that misses it, what may be assigned has
  -- a path that assigns it.
  pub record Before (b : ℕ) (t : Assignments V) : Type 0 where
    pub missed :
        (x : V) → elem x vars ≡ true → elem x t.0 ≡ false → Unassigned stats entry inputs inputs x b
    pub made :
        (x : V)
        → elem x t.1 ≡ true
        → MayBeAssigned stats entry inputs inputs x b ⊎ (elem x maybe_entry ≡ true)

  module _ (cur bef : ℕ → Assignments V) (b : ℕ)
      (h : (c : ℕ) → elem c bbs ≡ true → Before c (bef c) × Own c (bef c) (cur c))
      (inside : (c : ℕ) → elem c (inputs b) ≡ true → elem c bbs ≡ true) where
    pub missed_step :
        (x : V) (cs : List ℕ)
        → inputs b ≡ cs
        → elem x vars ≡ true
        → elem x (join_assignments entry (map cur cs)).0 ≡ false
        → Unassigned stats entry inputs inputs x b
    missed_step x [] e v out =
        Unassigned.start e (ground (arith, holds-join stats entry (definite x) []))
    missed_step x (c ∷ cs) e v out =
        let (d, m, miss) =
          not_all_of (definite x) cur (c ∷ cs)
            (sym (holds-join stats entry (definite x) (map cur (c ∷ cs))) ∙ out) in
        let edge : elem d (inputs b) ≡ true = rw e m in
        let (before, own) = h d (inside d edge) in
        Unassigned.after edge (ground (arith, own (definite x)))
          (before.missed x v (ground (arith, own (definite x))))

    pub made_step :
        (x : V) (cs : List ℕ)
        → inputs b ≡ cs
        → elem x (join_assignments entry (map cur cs)).1 ≡ true
        → MayBeAssigned stats entry inputs inputs x b ⊎ (elem x maybe_entry ≡ true)
    made_step x [] e hit =
        inl (MayBeAssigned.given e (ground (arith, holds-join stats entry (maybe x) [])))
    made_step x (c ∷ cs) e hit =
        let (d, m, on) =
          any_of_from (maybe x) cur (c ∷ cs)
            (sym (holds-join stats entry (maybe x) (map cur (c ∷ cs))) ∙ hit) in
        let edge : elem d (inputs b) ≡ true = rw e m in
        let (before, own) = h d (inside d edge) in
        elim (Bool-cases (has x (stats d).assigned)) [
          | inl writes ↦ inl (MayBeAssigned.written d edge writes)
          | inr other ↦ elim (before.made x (ground (arith, own (maybe x)))) [
            | inl path ↦ inl (MayBeAssigned.earlier edge path)
            | inr g ↦ inr g
          ]
        ]

  -- What the sets before `b` owe to the sets after its predecessors.
  pub record Owes (b : ℕ) (t : Assignments V) (cur : ℕ → Assignments V) : Type 0 where
    pub from_all :
        (x : V) (c : ℕ)
        → elem c (links b).predecessors ≡ true
        → elem x t.0 ≡ true
        → elem x (cur c).0 ≡ true
    pub from_entry : (x : V) → inputs b ≡ [] → elem x t.0 ≡ true → elem x entry ≡ true
    pub from_any :
        (x : V) (c : ℕ)
        → elem c (links b).predecessors ≡ true
        → elem x (cur c).1 ≡ true
        → elem x t.1 ≡ true
    pub at_entry : (x : V) → inputs b ≡ [] → elem x t.1 ≡ elem x entry

  pub input_of_predecessor :
      (b c : ℕ) → elem c (links b).predecessors ≡ true → elem c (inputs b) ≡ true
  input_of_predecessor b c m = elim (Bool-cases include_unreachable) [
    | inl on ↦ ground (arith, elem-append c (links b).predecessors (links b).dummy_predecessors)
    | inr off ↦ ground arith
  ]

  module _ (cur : ℕ → Assignments V) (x : V) (c : ℕ) where
    all_step :
        (cs : List ℕ)
        → elem c cs ≡ true
        → elem x (join_assignments entry (map cur cs)).0 ≡ true
        → elem x (cur c).0 ≡ true
    all_step [] m h = cc
    all_step (d ∷ cs) m h =
        all_of_at (definite x) cur (d ∷ cs) c m
          (sym (holds-join stats entry (definite x) (map cur (d ∷ cs))) ∙ h)

    any_step :
        (cs : List ℕ)
        → elem c cs ≡ true
        → elem x (cur c).1 ≡ true
        → elem x (join_assignments entry (map cur cs)).1 ≡ true
    any_step [] m h = cc
    any_step (d ∷ cs) m h =
        holds-join stats entry (maybe x) (map cur (d ∷ cs)) ∙ any_of_at (maybe x) cur (d ∷ cs) c m h

  pub step-Owes :
      (b : ℕ) (cur : ℕ → Assignments V) → Owes b (join_assignments entry (map cur (inputs b))) cur
  step-Owes b cur = record {
    from_all = λ x c m h. all_step cur x c (inputs b) (input_of_predecessor b c m) h;
    from_entry = λ x none h.
        sym (holds-join stats entry (definite x) [])
        ∙ subst (λ cs. elem x (join_assignments entry (map cur cs)).0 ≡ true) none h;
    from_any = λ x c m h. any_step cur x c (inputs b) (input_of_predecessor b c m) h;
    at_entry = λ x none.
        subst (λ cs. elem x (join_assignments entry (map cur cs)).1 ≡ elem x entry) (sym none)
          (holds-join stats entry (maybe x) []);
  }

  unfoldable pub assignment_pass : ForwardPass (Fact V) analysis links bbs
  assignment_pass = record {
    bits = fact_bits;
    Good = IsKnown variables;
    mono = fact_mono;
    first_initial = λ f. refl;
    first-Toward = first-Toward;
    good_initial = IsKnown-initial;
    good_first = λ b m. IsKnown-apply (vars, maybe_entry) b m IsKnown-initial;
    good_step = λ b cs cur m h.
        IsKnown-apply (join_assignments entry (map cur cs)) b m (IsKnown-join cs cur h);
    Own = Own;
    own_step = λ b t f. holds-apply stats f t b;
    own_eq = λ b t new old same own f. sym (same-holds new old same f) ∙ own f;
    Before = Before;
    before_initial = λ b. record { missed = λ x v out. cc; made = λ x hit. inr hit };
    before_step = λ cur bef b h inside. record {
      missed = λ x v out. missed_step cur bef b h inside x (inputs b) refl v out;
      made = λ x hit. made_step cur bef b h inside x (inputs b) refl hit;
    };
    Local = Owes;
    local_step = step-Owes;
    local_frame = λ b t cur cur' frame h. record {
      from_all = λ x c m p. subst (λ s. elem x s.0 ≡ true) (frame c m) (h.from_all x c m p);
      from_entry = h.from_entry;
      from_any = λ x c m p. h.from_any x c m (subst (λ s. elem x s.1 ≡ true) (sym (frame c m)) p);
      at_entry = h.at_entry;
    };
  }
