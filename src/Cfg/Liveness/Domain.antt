-- ===== src/Cfg/Liveness/Domain.antt =====
-- The keys of live variables as bits, for the backward loop.
use guppylang.Common.{
  ℕ, ◌≡◌, Bool, true, false, not, ◌&&◌, ◌||◌, List, [], ◌∷◌, ◌++◌, map, arith, Eq, Bool-cases, inl,
  inr, ap, ◌∙◌, ◌==◌, ==→eq, nat_eq,
}
use guppylang.Common.Sets.{elem, elem-append}
use guppylang.Common.Dict.{
  Dict, get, has, merge, from_keys, restrict, keys, same_keys, has-merge, has-from_keys,
  has-restrict, elem-keys, same_keys-Apart,
}
use guppylang.Cfg.Stats.{VariableStats}
use guppylang.Cfg.Analysis.Chain.{Bits, IsMonotone, Toward, AllToward}
use guppylang.Cfg.Liveness.{join_live, is_killed, apply_live}

abbrev pub or_all : List Bool → Bool
or_all [] = false
or_all (b ∷ bs) = b || or_all bs

or_all-Toward :
    (first : Bool) (xs ys : List Bool)
    → AllToward first xs ys
    → Toward first (or_all xs) (or_all ys)
or_all-Toward first [] [] h = ground arith
or_all-Toward first (x ∷ xs) (y ∷ ys) h = ground (arith, or_all-Toward first xs ys h.1)
or_all-Toward first [] (y ∷ ys) h = absurd h
or_all-Toward first (x ∷ xs) [] h = absurd h

module _ {V : Type 0} ⦃e : Eq V⦄ where
  has-join_live :
      (x : V) (res : Dict V ℕ) (ts : List (Dict V ℕ))
      → has x (join_live res ts) ≡ (has x res || or_all (map (has x) ts))
  unfolding join_live
  has-join_live x res [] = ground arith
  has-join_live x res (t ∷ ts) = ground (arith, has-join_live x (merge res t) ts, has-merge x res t)

module _ {V N : Type 0} ⦃e : Eq V⦄ (stats : ℕ → VariableStats V N) where
  pub has-apply_live :
      (x : V) (live : Dict V ℕ) (b : ℕ)
      → has x (apply_live stats live b)
        ≡ (has x (stats b).used || (not (is_killed (stats b) x) && has x live))
  unfolding apply_live
  has-apply_live x live b =
      let kept = λ (y : V).
        not (has y (stats b).assigned) && not (has y (stats b).assigned_in_modifier_block) in
      ground (
        arith,
        has-merge x (from_keys (keys (stats b).used) b) (restrict kept live),
        has-from_keys x (keys (stats b).used) b,
        has-restrict kept x live,
        elem-keys x (stats b).used,
      )

  abbrev pub live_flow : V → ℕ → List Bool → Bool
  live_flow x b bits = has x (stats b).used || (not (is_killed (stats b) x) && or_all bits)

  pub has-live_step :
      (x : V) (b : ℕ) (ts : List (Dict V ℕ))
      → has x (apply_live stats (join_live [] ts) b) ≡ live_flow x b (map (has x) ts)
  unfolding get
  has-live_step x b ts =
      has-apply_live x (join_live [] ts) b
      ∙ ap (λ h. has x (stats b).used || (not (is_killed (stats b) x) && h)) (has-join_live x [] ts)

  unfoldable pub used_in : List ℕ → List V
  used_in [] = []
  used_in (b ∷ bs) = keys (stats b).used ++ used_in bs

  pub elem-used_in :
      (x : V) (b : ℕ) (bs : List ℕ)
      → elem b bs ≡ true
      → has x (stats b).used ≡ true
      → elem x (used_in bs) ≡ true
  unfolding used_in
  elem-used_in x b [] m h = cc
  elem-used_in x b (c ∷ bs) m h = elim (Bool-cases (b == c)) [
    | inl same ↦
        let used : has x (stats c).used ≡ true = rw (==→eq b c same) at h in
        ground (arith, elem-append x (keys (stats c).used) (used_in bs), elem-keys x (stats c).used)
    | inr other ↦ ground (
      arith,
      elem-append x (keys (stats c).used) (used_in bs),
      elem-used_in x b bs (ground arith) h,
    )
  ]

  module _ (initial : Dict V ℕ) (bbs : List ℕ) where
    -- The variables that a run can meet.
    abbrev pub variables : List V
    variables = keys initial ++ used_in bbs

    abbrev pub live_bits : Bits (Dict V ℕ) V
    live_bits = record { keys = variables; bit = has; first = λ x. has x initial; flow = live_flow }

    -- Only those variables are live.
    abbrev pub IsKnown : Dict V ℕ → Type 0
    IsKnown t = (x : V) → has x t ≡ true → elem x variables ≡ true

    pub live_mono :
        IsMonotone live_bits IsKnown same_keys (λ b ts. apply_live stats (join_live [] ts) b)
    live_mono = record {
      bit_step = has-live_step;
      flow_mono = λ x b xs ys h. ground (arith, or_all-Toward (has x initial) xs ys h);
      differs = λ s t hs ht ne.
          let (x, m, apart) = same_keys-Apart s t ne in
          (
            x,
            ground
                (arith, hs x, ht x, elem-append x (keys s) (keys t), elem-keys x s, elem-keys x t),
            apart,
          );
    }
