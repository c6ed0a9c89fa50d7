-- ===== src/Collections.antt =====
-- The bounded collections of guppylang/src/guppylang/std/collections: what they share.
pub mod Buffer
pub mod Client
pub mod Stack
pub mod Queue
pub mod PriorityQueue
pub mod Samples
use guppylang.Common.{
  ℕ, zero, suc, ◌+◌, ◌%◌, ◌*◌, ◌-◌, Bool, Option, none, some, List, [], ◌∷◌, if◌then◌else◌, ◌==◌,
}
use guppylang.Common.Run.{Run, ok, panic, stuck, ◌>>=◌, map_run}

-- The methods that a collection of elements `E` gives its clients.
pub record Collection (E S : Type 0) : Type 0 where
  pub len : S → ℕ
  pub push : S → E → Run S
  pub pop : S → Run (E × S)
  pub discard_empty : S → Run (Unit {0})

module _ {E S : Type 0} (c : Collection E S) where
  -- `__next__`, which the collections have in the same words.
  unfoldable pub next : S → Run (Option (E × S))
  next s =
      if c.len s == 0 then (do _ ← c.discard_empty s; ok none) else (do r ← c.pop s; ok (some r))

  -- `for x in collection`: the elements in the order in which they come.
  unfoldable pub iterate : ℕ → S → Run (List E)
  iterate zero s = stuck
  iterate (suc fuel) s =
      next s >>= λ o. elim o [ none ↦ ok [] | some (x, s') ↦ map_run (◌∷◌ x) (iterate fuel s') ]
