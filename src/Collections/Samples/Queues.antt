-- ===== src/Collections/Samples/Queues.antt =====
-- A queue of at most three elements, wrapped around the end of its buffer.
use guppylang.Common.{ℕ, ◌≡◌, refl, none, some, List, [], ◌∷◌, get_elem?, arith}
use guppylang.Common.Run.{ok}
use guppylang.Collections.Samples.{below_three}
use guppylang.Collections.Buffer.{add}
use guppylang.Collections.Client.{Op, push_op, pop_op, run_calls, run_list}
use guppylang.Cfg.Graph.{update}
use guppylang.Collections.Queue.{Queue, push, pop, queue}
use guppylang.Collections.Queue.Represents.{IsQueueOf, slot}
use guppylang.Collections.Queue.Refines.{fifo, queue-refines}

abbrev two : Queue ℕ
two = record {
  buf = update (update (λ _. none) 2 (some 5)) 0 (some 7);
  start = 2;
  end = 1;
  size = 2;
}

abbrev calls : List (Op ℕ)
calls = push_op 9 ∷ pop_op ∷ pop_op ∷ push_op 1 ∷ pop_op ∷ []

calls_on_two : run_calls (queue 3) two calls ≡ ok (5 ∷ 7 ∷ 9 ∷ [])
unfolding push pop add
calls_on_two = refl

two-IsQueueOf : IsQueueOf 3 two (5 ∷ 7 ∷ [])
two-IsQueueOf = record {
  length_eq = refl;
  bounded = omega arith;
  inside = λ _. omega arith;
  back = λ _. refl;
  slots = below_three (λ i. two.buf (slot 3 2 i) ≡ get_elem? (5 ∷ 7 ∷ []) i) refl refl refl;
}

queue-refines_example : run_calls (queue 3) two calls ≡ run_list fifo 3 (5 ∷ 7 ∷ []) calls
queue-refines_example = queue-refines 3 two (5 ∷ 7 ∷ []) (omega arith) two-IsQueueOf calls
