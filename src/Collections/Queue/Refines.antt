-- ===== src/Collections/Queue/Refines.antt =====
-- What clients see of a queue: a bounded list in which the first element comes out first.
use guppylang.Common.{
  ℕ, suc, ◌+◌, ◌-◌, ◌<◌, ◌≡◌, refl, ap, ◌∙◌, true, false, not, Option, none, some, some_eq, List,
  [], ◌∷◌, ◌++◌, leb, ◌==◌, length, arith,
}
use guppylang.Common.Run.{ok}
use guppylang.Collections.{iterate}
use guppylang.Collections.Buffer.{int_limit, all_nothing_lem}
use guppylang.Collections.Client.{
  Discipline, Implements, InOrder, Op, run_calls, run_list, run_calls-refines, iterate_lem,
}
use guppylang.Collections.Queue.{Queue, push, pop, discard_empty, queue}
use guppylang.Collections.Queue.Represents.{IsQueueOf, push_room, pop_some}

-- The first element and those after it.
abbrev pub uncons : {T : Type 0} → List T → Option (T × List T)
uncons [] = none
uncons (x ∷ xs) = some (x, xs)

abbrev pub fifo : {T : Type 0} → Discipline T
fifo = record {
  insert = λ xs x. xs ++ x ∷ [];
  remove = uncons;
  full_message = "Queue.push: max size reached";
  empty_message = "Queue.pop: queue is empty";
}

uncons-eq-some : {T : Type 0} (xs ys : List T) (x : T) → uncons xs ≡ some (x, ys) → xs ≡ x ∷ ys
uncons-eq-some [] ys x h = cc
uncons-eq-some (y ∷ xs) ys x h = ap (λ (r : _ × _). r.0 ∷ r.1) (some_eq h)

uncons-eq-none : {T : Type 0} (xs : List T) → uncons xs ≡ none → xs ≡ []
uncons-eq-none [] h = refl
uncons-eq-none (y ∷ xs) h = cc

InOrder-uncons : {T : Type 0} (xs : List T) → InOrder fifo xs xs
InOrder-uncons [] = InOrder.stop refl
InOrder-uncons (x ∷ xs) = InOrder.step refl (InOrder-uncons xs)

module _ {T : Type 0} (max_size : ℕ) where
  -- Each slot is the slot of a position.
  empty_slots : (q : Queue T) → IsQueueOf max_size q [] → (j : ℕ) → j < max_size → q.buf j ≡ none
  empty_slots q h j m =
      let start = h.inside (omega arith) in
      ground (arith, h.slots (j - q.start), h.slots (j + max_size - q.start))

  discard_empty_lem : (q : Queue T) → IsQueueOf max_size q [] → discard_empty max_size q ≡ ok tt
  unfolding discard_empty
  discard_empty_lem q h =
      let guard : not (q.size == 0) ≡ false = ground (arith, h.length_eq) in
      rw guard (all_nothing_lem max_size 0 q.buf (λ j _ b. empty_slots q h j (omega arith)))

  Implements-queue :
      max_size < int_limit → Implements (queue max_size) fifo max_size (IsQueueOf {T = T} max_size)
  unfolding push pop
  Implements-queue fits = record {
    push_full = λ q xs x h full.
        let guard : leb max_size q.size ≡ true = ground (arith, h.length_eq) in rw guard;
    push_room = push_room max_size fits;
    pop_none = λ q xs h out.
        let size : q.size ≡ 0 = h.length_eq ∙ rw (uncons-eq-none xs out) in
        let guard : (q.size == 0) ≡ true = ground arith in rw guard;
    pop_some =
        λ q xs ys x h out. pop_some max_size fits q ys x (rw (uncons-eq-some xs ys x out) at h);
    len_empty = λ q xs h out.
        let h' : IsQueueOf max_size q [] = rw (uncons-eq-none xs out) at h in
        (h'.length_eq, discard_empty_lem q h');
    len_some = λ q xs ys x h out.
        let size = ap length (uncons-eq-some xs ys x out) in ground (arith, h.length_eq);
  }

  -- Every sequence of `push` and `pop` on a queue of fewer than 2 ^ 63 slots returns, or panics
  -- with, what it does on a list of at most `max_size` elements whose first element comes out first.
  pub queue-refines :
      (q : Queue T) (xs : List T)
      → max_size < int_limit
      → IsQueueOf max_size q xs
      → (ops : List (Op T)) → run_calls (queue max_size) q ops ≡ run_list fifo max_size xs ops
  queue-refines q xs fits h ops = run_calls-refines (Implements-queue fits) ops q xs h

  -- A `for` loop over a queue yields its elements from the front to the back and finds the buffer
  -- empty at its end.
  pub iterate-queue :
      (q : Queue T) (xs : List T)
      → max_size < int_limit
      → IsQueueOf max_size q xs
      → iterate (queue max_size) (suc (length xs)) q ≡ ok xs
  iterate-queue q xs fits h =
      iterate_lem (Implements-queue fits) (suc (length xs)) q xs xs h (InOrder-uncons xs)
        (omega arith)
