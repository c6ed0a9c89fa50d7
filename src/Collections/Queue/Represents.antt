-- ===== src/Collections/Queue/Represents.antt =====
-- A circular buffer against the list of its elements, from the front to the back.
use guppylang.Common.{
  ℕ, ◌+◌, ◌-◌, ◌%◌, ◌<◌, ◌≤◌, ◌≡◌, ◌∙◌, Bool-cases, ==→eq, inl, inr, true, false, none, some, List,
  [], ◌∷◌, ◌++◌, if◌then◌else◌, ltb, leb, ◌==◌, length, get_elem?, get_elem?-append, get_elem?-past,
  length-append, arith,
}
use native.Mathlib.Nat.{mod-eq_of_lt, mod_self}
use guppylang.Common.Run.{ok}
use guppylang.Cfg.Graph.{update}
use guppylang.Collections.Buffer.{int_limit, add, add-small}
use guppylang.Collections.Queue.{Queue, push, pop, peek}

-- The slot of the element number `i` for `i` up to `max_size`.
abbrev pub slot : ℕ → ℕ → ℕ → ℕ
slot max_size start i = if ltb (start + i) max_size then start + i else start + i - max_size

-- What the buffer holds, slot by slot. `push` writes at `end`, `pop` reads at `start`.
pub record IsQueueOf {T : Type 0} (max_size : ℕ) (q : Queue T) (xs : List T) : Type 0 where
  pub length_eq : q.size ≡ length xs
  pub bounded : length xs ≤ max_size
  pub inside : 0 < max_size → q.start < max_size
  pub back : 0 < max_size → q.end ≡ slot max_size q.start (length xs)
  pub slots : (i : ℕ) → i < max_size → q.buf (slot max_size q.start i) ≡ get_elem? xs i

mod_step :
    (max_size e : ℕ)
    → e < max_size
    → (e + 1) % max_size ≡ (if (e + 1) == max_size then 0 else e + 1)
mod_step max_size e h = elim (Bool-cases ((e + 1) == max_size)) [
  | inl same ↦ rw same (rw (==→eq (e + 1) max_size same) (mod_self max_size))
  | inr other ↦ rw other (mod-eq_of_lt (ground arith))
]

module _ {T : Type 0} (max_size : ℕ) (fits : max_size < int_limit) where
  pub push_room :
      (q : Queue T) (xs : List T) (x : T)
      → IsQueueOf max_size q xs
      → length xs < max_size
      → (q' : Queue T) × (push max_size q x ≡ ok q') × IsQueueOf max_size q' (xs ++ x ∷ [])
  unfolding push
  push_room q xs x h room =
      let guard : leb max_size q.size ≡ false = ground (arith, h.length_eq) in
      let start = h.inside (omega arith) in
      let back = h.back (omega arith) in
      let end_in : q.end < max_size = ground arith in
      let inside : ltb q.end max_size ≡ true = ground arith in
      let free : q.buf q.end ≡ none =
        rw back (h.slots (length xs) room) ∙ get_elem?-past xs (length xs) (omega arith) in
      (
        record q {
          buf = update q.buf q.end (some x);
          end = add q.end 1 % max_size;
          size = add q.size 1;
        },
        rw (guard, inside, free),
        record {
          length_eq = omega (
            arith,
            add-small q.size 1 (omega (arith, h.length_eq)),
            h.length_eq,
            length-append xs (x ∷ []),
          );
          bounded = omega (arith, length-append xs (x ∷ []));
          inside = λ _. start;
          back = λ _.
              rw (add-small q.end 1 (omega arith), mod_step max_size q.end end_in)
                (ground (arith, length-append xs (x ∷ [])));
          slots = λ i m. ground (arith, h.slots i m, get_elem?-append xs x i);
        },
      )

  pub pop_some :
      (q : Queue T) (xs : List T) (x : T)
      → IsQueueOf max_size q (x ∷ xs)
      → (q' : Queue T) × (pop max_size q ≡ ok (x, q')) × IsQueueOf max_size q' xs
  unfolding pop
  pop_some q xs x h =
      let guard : (q.size == 0) ≡ false = ground (arith, h.length_eq) in
      let some_slot : 0 < max_size = omega (arith, h.bounded) in
      let start = h.inside some_slot in
      let inside : ltb q.start max_size ≡ true = ground arith in
      let front : q.buf q.start ≡ some x = ground (arith, h.slots 0 some_slot) in
      let next = add-small q.start 1 (omega arith) in
      let wrapped = mod_step max_size q.start start in
      (
        record q {
          buf = update q.buf q.start none;
          start = add q.start 1 % max_size;
          size = q.size - 1;
        },
        rw (guard, inside, front),
        record {
          length_eq = omega (arith, h.length_eq);
          bounded = omega (arith, h.bounded);
          inside = λ _. rw (next, wrapped) (ground arith);
          back = λ m. rw (next, wrapped) (ground (arith, h.back m));
          slots = λ i m.
              rw (next, wrapped) (ground (arith, h.slots (i + 1), get_elem?-past xs i, h.bounded));
        },
      )

  pub peek_lem :
      (q : Queue T) (xs : List T) (x : T) → IsQueueOf max_size q (x ∷ xs) → peek max_size q ≡ ok x
  unfolding peek
  peek_lem q xs x h =
      let guard : (q.size == 0) ≡ false = ground (arith, h.length_eq) in
      let some_slot : 0 < max_size = omega (arith, h.bounded) in
      let start = h.inside some_slot in
      let inside : ltb q.start max_size ≡ true = ground arith in
      let front : q.buf q.start ≡ some x = ground (arith, h.slots 0 some_slot) in
      rw (guard, inside, front)
