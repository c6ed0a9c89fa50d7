-- ===== src/Collections/Samples/Priorities.antt =====
-- A priority queue of three entries.
use mathlib.Core.List.{Perm}
use guppylang.Common.{◌≤◌, ◌≡◌, refl, true, String, none, some, [], ◌∷◌, arith}
use guppylang.Common.Run.{ok, panic, Gives}
use guppylang.Collections.Samples.{below_three}
use guppylang.Collections.{next, iterate}
use guppylang.Collections.Buffer.{add, mul, all_nothing}
use guppylang.Cfg.Graph.{update}
use guppylang.Collections.PriorityQueue.{
  parent, PriorityQueue, push, take_child, sift_down, pop, peek, discard_empty, priority_queue,
}
use guppylang.Collections.PriorityQueue.Order.{is_some, key}
use guppylang.Collections.PriorityQueue.Valid.{entries, IsValid, Holds, Popped}
use guppylang.Collections.PriorityQueue.Push.{push-Holds}
use guppylang.Collections.PriorityQueue.Panics.{PanicsIff, panics_iff}
use guppylang.Collections.PriorityQueue.Pop.{pop-Popped}
use guppylang.Collections.PriorityQueue.Iterate.{IsSorted, iterate-IsSorted}

abbrev three : PriorityQueue String
three = record {
  buf = update (update (update (λ _. none) 0 (some (1, "a"))) 1 (some (4, "b"))) 2 (some (2, "c"));
  size = 3;
}

three_in_order : iterate (priority_queue 5) 4 three ≡ ok ((1, "a") ∷ (2, "c") ∷ (4, "b") ∷ [])
unfolding iterate next pop take_child sift_down add mul discard_empty all_nothing
three_in_order = refl

three-IsValid : IsValid 5 three
three-IsValid = record {
  slots = record {
    bounded = omega arith;
    filled = below_three (λ i. is_some (three.buf i) ≡ true) refl refl refl;
    free = λ i m p. ground arith;
  };
  heap = λ c p m.
      below_three (λ c. key three.buf (parent c) ≤ key three.buf c) (omega arith) (omega arith)
        (omega arith) c m;
}

push-Holds_example : Gives (Holds 5 ((0, "d") ∷ entries three)) (push 5 three (0, "d"))
push-Holds_example = push-Holds 5 (omega arith) three three-IsValid (0, "d") (omega arith)

pop-Popped_example : Gives (Popped 5 three) (pop 5 three)
pop-Popped_example = pop-Popped 5 (omega arith) three three-IsValid (omega arith)

iterate-IsSorted_example :
    Gives (λ es. IsSorted es × Perm es (entries three)) (iterate (priority_queue 5) 4 three)
iterate-IsSorted_example = iterate-IsSorted 5 (omega arith) 4 three three-IsValid (omega arith)

abbrev none_queued : PriorityQueue String
none_queued = record { buf = λ _. none; size = 0 }

none_queued-IsValid : IsValid 5 none_queued
none_queued-IsValid = record {
  slots = record {
    bounded = omega arith;
    filled = λ i m. absurd (omega arith);
    free = λ i m p. refl;
  };
  heap = λ c p m. absurd (omega arith);
}

panics_iff_example :
    PanicsIff
      (5 ≤ none_queued.size)
      "PriorityQueue.push: max size reached"
      (push 5 none_queued (0, "d"))
    × PanicsIff
        (none_queued.size ≡ 0)
        "PriorityQueue.pop: priority queue is empty"
        (pop 5 none_queued)
    × PanicsIff
        (none_queued.size ≡ 0)
        "PriorityQueue.peek: priority queue is empty"
        (peek 5 none_queued)
panics_iff_example = panics_iff 5 (omega arith) none_queued none_queued-IsValid (0, "d")

-- The full and the empty case at work.
panics_test :
    (push 3 three (0, "d") ≡ panic "PriorityQueue.push: max size reached")
    × (pop 5 none_queued ≡ panic "PriorityQueue.pop: priority queue is empty")
    × (peek 5 none_queued ≡ panic "PriorityQueue.peek: priority queue is empty")
unfolding push pop peek
panics_test = (refl, refl, refl)
