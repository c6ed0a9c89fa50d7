-- ===== src/Collections/PriorityQueue/Valid.antt =====
-- A valid priority queue and what a call may do to it.
use mathlib.Core.List.{Perm, Mem}
use guppylang.Common.{ℕ, suc, ◌≤◌, ◌≡◌, some, List, ◌∷◌}
use guppylang.Collections.PriorityQueue.{Entry, PriorityQueue}
use guppylang.Collections.PriorityQueue.Contents.{contents}
use guppylang.Collections.PriorityQueue.Order.{IsFilled, IsHeap}

module _ {T : Type 0} where
  -- The queued entries.
  abbrev pub entries : PriorityQueue T → List (Entry T)
  entries q = contents q.buf q.size

module _ {T : Type 0} (max_size : ℕ) where
  pub record IsValid (q : PriorityQueue T) : Type 0 where
    pub slots : IsFilled max_size q.size q.buf
    pub heap : IsHeap q.size q.buf

  -- A valid queue with these entries.
  pub record Holds (es : List (Entry T)) (q : PriorityQueue T) : Type 0 where
    pub valid : IsValid q
    pub same : Perm (entries q) es

  -- An entry of least priority, and a valid queue of the others.
  pub record Popped (q : PriorityQueue T) (r : Entry T × PriorityQueue T) : Type 0 where
    pub valid : IsValid r.1
    pub same : Perm (r.0 ∷ entries r.1) (entries q)
    pub shorter : suc (r.1.size) ≡ q.size
    pub front : q.buf 0 ≡ some (r.0)
    pub least : (e : Entry T) → Mem e (entries q) → r.0.0 ≤ e.0
