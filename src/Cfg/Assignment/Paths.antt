-- ===== src/Cfg/Assignment/Paths.antt =====
-- What assignment before a block means: the paths that lead to it from a block with no links into
-- it, where the variables `entry` are assigned.
use guppylang.Common.{ℕ, ◌≡◌, true, false, List, [], Eq, nat_eq}
use guppylang.Common.Sets.{elem}
use guppylang.Common.Dict.{has}
use guppylang.Cfg.Stats.{VariableStats}

module _ {V N : Type 0} ⦃e : Eq V⦄ (stats : ℕ → VariableStats V N) (entry : List V)
    (inputs prev : ℕ → List ℕ) (x : V) where
  -- Some path along `prev` leads to `b` on which `x` is not assigned.
  pub data Unassigned : ℕ → Type 0 where
    start : {b : ℕ} → inputs b ≡ [] → elem x entry ≡ false → Unassigned b
    after :
        {b c : ℕ}
        → elem c (prev b) ≡ true
        → has x (stats c).assigned ≡ false
        → Unassigned c
        → Unassigned b

  -- Some path along `prev` leads to `b` on which `x` is assigned.
  pub data MayBeAssigned : ℕ → Type 0 where
    given : {b : ℕ} → inputs b ≡ [] → elem x entry ≡ true → MayBeAssigned b
    written :
        {b : ℕ} (c : ℕ) → elem c (prev b) ≡ true → has x (stats c).assigned ≡ true → MayBeAssigned b
    earlier : {b c : ℕ} → elem c (prev b) ≡ true → MayBeAssigned c → MayBeAssigned b
