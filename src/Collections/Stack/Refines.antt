-- ===== src/Collections/Stack/Refines.antt =====
-- What clients see of a stack: a bounded list in which the last element comes out first.
use guppylang.Common.{
  ℕ, suc, ◌+◌, ◌<◌, ◌≡◌, refl, ap, ◌∙◌, true, false, List, [], ◌∷◌, ◌++◌, ltb, leb, length,
  length-append, arith,
}
use mathlib.Core.List.{append-nil, append_assoc}
use guppylang.Common.Run.{ok}
use guppylang.Collections.{iterate}
use guppylang.Collections.Buffer.{int_limit, all_nothing_lem}
use guppylang.Collections.Client.{
  Implements, InOrder, Op, run_calls, run_list, run_calls-refines, iterate_lem,
}
use guppylang.Collections.Stack.{Stack, push, pop, discard_empty, stack}
use guppylang.Collections.Stack.Represents.{
  IsStackOf, lifo, unsnoc-append, unsnoc-eq-some, unsnoc-eq-none, push_room, pop_some,
}

-- The elements from the last to the first.
abbrev pub backward : {T : Type 0} → List T → List T → List T
backward [] acc = acc
backward (x ∷ xs) acc = backward xs (x ∷ acc)

module _ {T : Type 0} where
  length-backward : (xs acc : List T) → length (backward xs acc) ≡ length xs + length acc
  length-backward [] acc = omega arith
  length-backward (x ∷ xs) acc = omega (arith, length-backward xs (x ∷ acc))

  InOrder-backward :
      (xs pre acc : List T) → InOrder lifo pre acc → InOrder lifo (pre ++ xs) (backward xs acc)
  InOrder-backward [] pre acc h = rw (append-nil pre) h
  InOrder-backward (x ∷ xs) pre acc h =
      rw (append_assoc pre (x ∷ []) xs) at
        (InOrder-backward xs (pre ++ x ∷ []) (x ∷ acc) (InOrder.step (unsnoc-append pre x) h))

module _ {T : Type 0} (max_size : ℕ) where
  discard_empty_lem : (s : Stack T) → IsStackOf max_size s [] → discard_empty max_size s ≡ ok tt
  unfolding discard_empty
  discard_empty_lem s h =
      let guard : ltb 0 s.end ≡ false = ground (arith, h.size) in
      rw guard (all_nothing_lem max_size 0 s.buf (λ j _ b. h.slots j (omega arith)))

  Implements-stack :
      max_size < int_limit → Implements (stack max_size) lifo max_size (IsStackOf {T = T} max_size)
  unfolding push pop
  Implements-stack fits = record {
    push_full =
        λ s xs x h full. let guard : leb max_size s.end ≡ true = ground (arith, h.size) in rw guard;
    push_room = push_room max_size fits;
    pop_none = λ s xs h out.
        let nil = unsnoc-eq-none xs out in
        let size : s.end ≡ 0 = h.size ∙ rw nil in
        let guard : leb s.end 0 ≡ true = ground arith in rw guard;
    pop_some =
        λ s xs ys x h out. pop_some max_size fits s ys x (rw (unsnoc-eq-some xs ys x out) at h);
    len_empty = λ s xs h out.
        let h' : IsStackOf max_size s [] = rw (unsnoc-eq-none xs out) at h in
        (h'.size, discard_empty_lem s h');
    len_some = λ s xs ys x h out.
        let size = ap length (unsnoc-eq-some xs ys x out) in
        ground (arith, h.size, length-append ys (x ∷ []));
  }

  -- Every sequence of `push` and `pop` on a stack of fewer than 2 ^ 63 slots returns, or panics
  -- with, what it does on a list of at most `max_size` elements whose last element comes out first.
  pub stack-refines :
      (s : Stack T) (xs : List T)
      → max_size < int_limit
      → IsStackOf max_size s xs
      → (ops : List (Op T)) → run_calls (stack max_size) s ops ≡ run_list lifo max_size xs ops
  stack-refines s xs fits h ops = run_calls-refines (Implements-stack fits) ops s xs h

  -- A `for` loop over a stack yields its elements from the top to the bottom and finds the buffer
  -- empty at its end.
  pub iterate-stack :
      (s : Stack T) (xs : List T)
      → max_size < int_limit
      → IsStackOf max_size s xs
      → iterate (stack max_size) (suc (length xs)) s ≡ ok (backward xs [])
  iterate-stack s xs fits h =
      iterate_lem (Implements-stack fits) (suc (length xs)) s xs (backward xs []) h
        (InOrder-backward xs [] [] (InOrder.stop refl)) (omega (arith, length-backward xs []))
