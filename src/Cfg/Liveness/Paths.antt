-- ===== src/Cfg/Liveness/Paths.antt =====
-- What liveness means: a path to a use on which the variable is not assigned.
use guppylang.Common.{ℕ, ◌≡◌, true, false, List, Eq, nat_eq}
use guppylang.Common.Sets.{elem}
use guppylang.Common.Dict.{has}
use guppylang.Cfg.Stats.{VariableStats}
use guppylang.Cfg.Liveness.{is_killed}

-- From the start of the block `b` a path along `next` leads to a use of `x` in the block `u`, and
-- no block that it leaves assigns `x`.
pub data UsedLater {V N : Type 0} ⦃e : Eq V⦄ (stats : ℕ → VariableStats V N) (next : ℕ → List ℕ)
    (x : V) (u : ℕ) : ℕ → Type 0 where
  here : {b : ℕ} → b ≡ u → has x (stats u).used ≡ true → UsedLater stats next x u b
  later :
      {b c : ℕ}
      → is_killed (stats b) x ≡ false
      → elem c (next b) ≡ true
      → UsedLater stats next x u c
      → UsedLater stats next x u b
