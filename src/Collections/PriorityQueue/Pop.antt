-- ===== src/Collections/PriorityQueue/Pop.antt =====
-- What `pop` does to the entries of a priority queue.
use mathlib.Core.List.Perm
use native.Mathlib.Bridge.{le_prop}
use mathlib.Core.List.{Perm, Mem, not-mem-nil, forall_mem-cons}
use guppylang.Common.{
  ℕ, zero, suc, ◌-◌, ◌*◌, ◌<◌, ◌≤◌, ◌≡◌, ◌≢◌, refl, ◌∙◌, Bool-cases, Option-cases, ==→eq, inl, inr,
  true, false, none, some, ◌∷◌, if◌then◌else◌, ◌==◌, ltb, leb, arith,
}
use guppylang.Common.Run.{map_run, Gives, gives, Gives-bind, Gives-ok}
use guppylang.Cfg.Graph.{update}
use guppylang.Collections.Buffer.{Buffer, int_limit}
use guppylang.Collections.PriorityQueue.{Entry, PriorityQueue, parent, pop, peek}
use guppylang.Collections.PriorityQueue.Contents.{
  contents, contents-take, contents-put, contents-frame,
}
use guppylang.Collections.PriorityQueue.Order.{
  key, IsFilled, IsHeap, entry_of, root_least, key-update, key-update_ne,
}
use guppylang.Collections.PriorityQueue.Down.{DownInv, Fits, sift_down-Fits}
use guppylang.Collections.PriorityQueue.Valid.{entries, IsValid, Popped}

-- A key that fits a slot makes the keys a heap.
heap_of_keys :
    (old new : ℕ → ℕ) (i n d : ℕ)
    → ((c : ℕ) → new c ≡ (if c == i then d else old c))
    → ((c : ℕ) → 0 < c → c < n → c ≢ i → parent c ≢ i → old (parent c) ≤ old c)
    → (0 < i → old (parent i) ≤ d)
    → ((c : ℕ) → 0 < c → c < n → parent c ≡ i → d ≤ old c)
    → (c : ℕ) → 0 < c
    → c < n
    → new (parent c) ≤ new c
heap_of_keys old new i n d at edges above below c p m =
    ground (arith, at c, at (parent c), edges c, above, below c)

module _ {T : Type 0} where
  -- A bound of all keys is a bound of all entries.
  bound_of_mem :
      (n p : ℕ) (buf : Buffer (Entry T))
      → ((i : ℕ) → i < n → p ≤ key buf i)
      → (e : Entry T) → Mem e (contents buf n)
      → p ≤ e.0
  unfolding contents
  bound_of_mem zero p buf h = λ e m. absurd (not-mem-nil m)
  bound_of_mem (suc n) p buf h = elim (Option-cases (buf n)) [
    | inl none_there ↦ rw none_there (bound_of_mem n p buf (λ i m. h i (omega arith)))
    | inr (x, there) ↦
        let at_n : key buf n ≡ x.0 = rw (there, key) refl in
        rw there (
          (forall_mem-cons (λ e. le_prop)).1
            (rw at_n at (h n (omega arith)), bound_of_mem n p buf (λ i m. h i (omega arith))))
  ]

module _ {T : Type 0} (max_size : ℕ) where
  module _ (fits : 2 * max_size ≤ int_limit) (q : PriorityQueue T) (v : IsValid max_size q) where
    -- The displaced entry in the slot that it fits.
    refilled :
        (n i : ℕ) (d : Entry T) (old b : Buffer (Entry T))
        → Fits max_size n d.0 old i b
        → IsFilled max_size n (update b i (some d))
          × IsHeap n (update b i (some d))
          × Perm (contents (update b i (some d)) n) (d ∷ contents old n)
    refilled n i d old b f = (
      record {
        bounded = f.inv.slots.bounded;
        filled = λ c m. ground (arith, f.inv.slots.filled c m);
        free = λ c m p. ground (arith, f.inv.slots.free c m p, f.inv.slots.inside);
      },
      heap_of_keys (key b) _ i n d.0 (λ c. key-update b i c d) f.inv.edges f.inv.above f.below,
      Perm.trans (contents-put b i n d f.inv.slots.inside f.inv.slots.hole) (Perm.cons d f.same),
    )

    module _ (n : ℕ) (size : q.size ≡ suc n) (x d : Entry T) (first : q.buf 0 ≡ some x)
        (last : 0 < n → q.buf n ≡ some d) where
      -- The buffer without its first and its last entry.
      abbrev rest : Buffer (Entry T)
      rest = update (update q.buf 0 none) n none

      key-rest : (c : ℕ) → 0 < c → c < n → key rest c ≡ key q.buf c
      key-rest c p m =
          key-update_ne (update q.buf 0 none) n c none (ground arith)
          ∙ key-update_ne q.buf 0 c none (ground arith)

      rest-DownInv : 0 < n → DownInv max_size n d.0 rest 0
      rest-DownInv pos = record {
        slots = record {
          inside = pos;
          bounded = omega (arith, v.slots.bounded);
          hole = ground arith;
          filled = λ c m off. ground (arith, v.slots.filled c);
          free = λ c m p. ground (arith, v.slots.free c);
        };
        edges = λ c p m off off'.
            rw (key-rest c p m, key-rest (parent c) (omega arith) (omega arith))
              (v.heap c p (omega arith));
        above = λ z. absurd (omega arith);
        bridged = λ c p m e z. absurd (omega arith);
      }

      whole : 0 < n → entries q ≡ d ∷ contents q.buf n
      unfolding contents
      whole pos = rw (size, contents, last pos) refl

      rest-perm : 0 < n → Perm (x ∷ d ∷ contents rest n) (entries q)
      rest-perm pos =
          let frame : contents rest n ≡ contents (update q.buf 0 none) n =
            contents-frame rest (update q.buf 0 none) n (λ j m. ground arith) in
          let out = contents-take q.buf 0 n x pos first in
          rw (whole pos, frame) (Perm.trans (Perm.swap d x _) (Perm.cons d (Perm.symm out)))

      least_first : (e : Entry T) → Mem e (entries q) → x.0 ≤ e.0
      least_first =
          let key_first : key q.buf 0 ≡ x.0 = rw (first, key) refl in
          bound_of_mem q.size x.0 q.buf
            (λ i m. rw key_first at (root_least q.size q.buf i v.heap m))

      single : n ≡ 0 → entries q ≡ x ∷ contents (update q.buf 0 none) 0
      unfolding contents
      single none_left = rw (size, none_left, contents, first) refl

      alone : n ≡ 0 → Popped max_size q (x, record { buf = update q.buf 0 none; size = 0 })
      alone none_left = record {
        valid = record {
          slots = record {
            bounded = omega arith;
            filled = λ i m. absurd (omega arith);
            free = λ i m p. ground (arith, v.slots.free i);
          };
          heap = λ c p m. absurd (omega arith);
        };
        same = rw (single none_left) Perm.rfl;
        shorter = omega arith;
        front = first;
        least = least_first;
      }

      refill :
          (i : ℕ) (b : Buffer (Entry T))
          → 0 < n
          → Fits max_size n d.0 rest i b
          → Popped max_size q (x, record { buf = update b i (some d); size = n })
      refill i b pos f =
          let (slots, heap, same) = refilled n i d rest b f in
          record {
            valid = record { slots = slots; heap = heap };
            same = Perm.trans (Perm.cons x same) (rest-perm pos);
            shorter = omega arith;
            front = first;
            least = least_first;
          }

      pop_entries : Gives (Popped max_size q) (pop max_size q)
      unfolding pop
      pop_entries =
          let guard : leb q.size 0 ≡ false = ground arith in
          let slot : ltb 0 max_size ≡ true = ground (arith, v.slots.bounded) in
          let one_less : q.size - 1 ≡ n = omega arith in
          rw (guard, slot, first, one_less)
            (elim (Bool-cases (n == 0)) [
              | inl none_left ↦
                  rw none_left (gives (rw (==→eq n 0 none_left) (alone (==→eq n 0 none_left))))
              | inr more ↦
                  let slot' : ltb n max_size ≡ true = ground (arith, v.slots.bounded) in
                  let off : (n == 0) ≡ false = more in
                  rw (off, slot', last (ground arith))
                    (Gives-bind
                      (sift_down-Fits max_size n (suc n) d.0 rest 0 fits (omega arith)
                        (rest-DownInv (ground arith)))
                      (λ (i, b) f.
                        let inside : ltb i max_size ≡ true =
                          ground (arith, f.inv.slots.inside, f.inv.slots.bounded) in
                        rw (inside, f.inv.slots.hole) (gives (refill i b (ground arith) f))))
            ])

    -- `pop` on a valid queue that is not empty returns an entry of least priority and a valid queue
    -- of the other entries.
    pub pop-Popped : 0 < q.size → Gives (Popped max_size q) (pop max_size q)
    unfolding pop
    pop-Popped pos =
        let (x, first) = entry_of (q.buf 0) (v.slots.filled 0 pos) in
        let (d, last) = entry_of (q.buf (q.size - 1)) (v.slots.filled (q.size - 1) (omega arith)) in
        pop_entries (q.size - 1) (omega arith) x d first (λ _. last)

    -- `peek` on a valid queue that is not empty returns what `pop` returns.
    pub peek-pop : 0 < q.size → peek max_size q ≡ map_run (λ r. r.0) (pop max_size q)
    unfolding peek
    peek-pop pos =
        let (r, popped, h) = Gives-ok (pop-Popped pos) in
        let guard : leb q.size 0 ≡ false = ground arith in
        let slot : ltb 0 max_size ≡ true = ground (arith, v.slots.bounded) in
        rw (popped, guard, slot, h.front) refl
