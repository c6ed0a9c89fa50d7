-- ===== src/Collections/Samples/Stacks.antt =====
-- A stack of at most three elements.
use guppylang.Common.{ℕ, ◌≡◌, refl, none, some, List, [], ◌∷◌, get_elem?, arith}
use guppylang.Common.Run.{ok, panic}
use guppylang.Collections.Samples.{below_three}
use guppylang.Collections.Buffer.{add}
use guppylang.Collections.Client.{Op, push_op, pop_op, run_calls, run_list}
use guppylang.Cfg.Graph.{update}
use guppylang.Collections.Stack.{Stack, push, pop, peek, stack, empty_stack}
use guppylang.Collections.Stack.Represents.{IsStackOf, lifo, peek_lem}
use guppylang.Collections.Stack.Refines.{stack-refines}

abbrev two : Stack ℕ
two = record { buf = update (update (λ _. none) 0 (some 5)) 1 (some 7); end = 2 }

abbrev calls : List (Op ℕ)
calls = push_op 9 ∷ pop_op ∷ pop_op ∷ push_op 1 ∷ []

calls_on_two : run_calls (stack 3) two calls ≡ ok (9 ∷ 7 ∷ [])
unfolding push pop add
calls_on_two = refl

too_many :
    run_calls (stack 3) two (push_op 1 ∷ push_op 2 ∷ []) ≡ panic "Stack.push: max size reached"
unfolding push pop add
too_many = refl

empty-IsStackOf : IsStackOf {T = ℕ} 3 empty_stack []
empty-IsStackOf = record { size = refl; bounded = omega arith; slots = λ i m. refl }

two-IsStackOf : IsStackOf 3 two (5 ∷ 7 ∷ [])
two-IsStackOf = record {
  size = refl;
  bounded = omega arith;
  slots = below_three (λ i. two.buf i ≡ get_elem? (5 ∷ 7 ∷ []) i) refl refl refl;
}

stack-refines_example : run_calls (stack 3) two calls ≡ run_list lifo 3 (5 ∷ 7 ∷ []) calls
stack-refines_example = stack-refines 3 two (5 ∷ 7 ∷ []) (omega arith) two-IsStackOf calls

peek_lem_example : peek 3 two ≡ ok 7
peek_lem_example = peek_lem 3 (omega arith) two (5 ∷ []) 7 two-IsStackOf
