-- ===== src/Collections/PriorityQueue/Iterate.antt =====
-- The order in which a priority queue yields its entries.
use mathlib.Core.List.Perm
use mathlib.Core.List.{Perm, Pairwise, mem-cons_of_mem}
use guppylang.Common.{
  ℕ, zero, suc, ◌*◌, ◌<◌, ◌≤◌, ◌≡◌, refl, Bool-cases, ==→eq, inl, inr, false, List, [], ◌∷◌, ◌==◌,
  ltb, arith,
}
use guppylang.Common.Run.{ok, Gives, gives, Gives-map_run, Gives-ok}
use guppylang.Collections.{next, iterate}
use guppylang.Collections.Buffer.{int_limit, all_nothing_lem}
use guppylang.Collections.PriorityQueue.{Entry, PriorityQueue, priority_queue, discard_empty}
use guppylang.Collections.PriorityQueue.Contents.{contents}
use guppylang.Collections.PriorityQueue.Valid.{entries, IsValid}
use guppylang.Collections.PriorityQueue.Pop.{pop-Popped}

-- In order of priority.
abbrev pub IsSorted : {T : Type 0} → List (Entry T) → Type 0
IsSorted = Pairwise (λ e e'. e.0 ≤ e'.0)

module _ {T : Type 0} (max_size : ℕ) (fits : 2 * max_size ≤ int_limit) where
  discard_empty_lem :
      (q : PriorityQueue T) → IsValid max_size q → q.size ≡ 0 → discard_empty max_size q ≡ ok tt
  unfolding discard_empty
  discard_empty_lem q v none_left =
      let guard : ltb 0 q.size ≡ false = ground arith in
      rw guard
        (all_nothing_lem max_size 0 q.buf (λ j _ b. v.slots.free j (omega arith) (omega arith)))

  -- A `for` loop over a valid queue yields all its entries, in order of priority.
  pub iterate-IsSorted :
      (fuel : ℕ) (q : PriorityQueue T)
      → IsValid max_size q
      → q.size < fuel
      → Gives (λ es. IsSorted es × Perm es (entries q)) (iterate (priority_queue max_size) fuel q)
  unfolding iterate next contents
  iterate-IsSorted zero q v enough = absurd (omega arith)
  iterate-IsSorted (suc fuel) q v enough = elim (Bool-cases (q.size == 0)) [
    | inl none_left ↦
        let no_entries : entries q ≡ [] = rw (==→eq q.size 0 none_left, contents) refl in
        rw (none_left, discard_empty_lem q v (==→eq q.size 0 none_left))
          (gives (Pairwise.nil, rw no_entries Perm.nil))
    | inr some_left ↦
        let ((e, q'), popped, h) = Gives-ok (pop-Popped max_size fits q v (ground arith)) in
        rw (some_left, popped)
          (Gives-map_run (◌∷◌ e) (iterate-IsSorted fuel q' h.valid (omega (arith, h.shorter)))
            (λ es (sorted, same).
              let all = Perm.trans (Perm.cons e same) h.same in
              (
                Pairwise.cons (λ e' m. h.least e' ((Perm.mem_iff all).0 (mem-cons_of_mem e m)))
                    sorted,
                all,
              )))
  ]
