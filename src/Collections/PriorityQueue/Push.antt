-- ===== src/Collections/PriorityQueue/Push.antt =====
-- What `push` does to the entries of a priority queue.
use guppylang.Common.{
  ℕ, suc, ◌*◌, ◌<◌, ◌≤◌, ◌≡◌, ap, ◌∙◌, true, false, some, ◌∷◌, ◌==◌, ltb, leb, arith,
}
use guppylang.Common.Run.{Gives, gives, Gives-bind}
use guppylang.Cfg.Graph.{update}
use guppylang.Collections.Buffer.{int_limit, add, add-small}
use guppylang.Collections.PriorityQueue.{Entry, PriorityQueue, parent, push}
use guppylang.Collections.PriorityQueue.Contents.{contents, contents-frame}
use guppylang.Collections.PriorityQueue.Order.{key-update_ne}
use guppylang.Collections.PriorityQueue.Up.{UpInv, sift_up-Sifted}
use guppylang.Collections.PriorityQueue.Valid.{entries, IsValid, Holds}

module _ {T : Type 0} (max_size : ℕ) where
  module _ (fits : 2 * max_size ≤ int_limit) (q : PriorityQueue T) (v : IsValid max_size q) where
    appended : (e : Entry T) → contents (update q.buf q.size (some e)) (suc q.size) ≡ e ∷ entries q
    unfolding contents
    appended e =
        let here : (q.size == q.size) ≡ true = ground arith in
        rw here (ap (◌∷◌ e) (contents-frame _ q.buf q.size (λ j m. ground arith)))

    start :
        (e : Entry T)
        → q.size < max_size
        → UpInv max_size (suc q.size) (update q.buf q.size (some e)) q.size
    start e room = record {
      inside = omega arith;
      slots = record {
        bounded = omega arith;
        filled = λ i m. ground (arith, v.slots.filled i);
        free = λ i m p. ground (arith, v.slots.free i);
      };
      edges = λ c p m off.
          let at_c : (c == q.size) ≡ false = ground arith in
          let at_p : (parent c == q.size) ≡ false = ground arith in
          let key_c = key-update_ne q.buf q.size c (some e) at_c in
          let key_p = key-update_ne q.buf q.size (parent c) (some e) at_p in
          rw (key_c, key_p) (v.heap c p (omega arith));
      bridged = λ c p m at _. absurd (omega arith);
    }

    -- `push` on a valid queue with a free slot returns a valid queue of its entries and the new one.
    pub push-Holds :
        (e : Entry T)
        → q.size < max_size
        → Gives (Holds max_size (e ∷ entries q)) (push max_size q e)
    unfolding push
    push-Holds e room =
        let guard : leb max_size q.size ≡ false = ground arith in
        let inside : ltb q.size max_size ≡ true = ground arith in
        let free = v.slots.free q.size (omega arith) room in
        let next : add q.size 1 ≡ suc q.size = add-small q.size 1 (omega arith) ∙ omega arith in
        rw (guard, inside, free, next)
          (Gives-bind
            (sift_up-Sifted max_size (suc q.size) (suc q.size) (update q.buf q.size (some e)) q.size
              (omega arith) (start e room))
            (λ b s. gives (record {
              valid = record { slots = s.slots; heap = s.heap };
              same = rw (appended e) at s.same;
            })))
