-- ===== src/Collections/Stack.antt =====
-- guppylang/src/guppylang/std/collections/stack.py.
pub mod Represents
pub mod Refines
use guppylang.Common.{
  ℕ, zero, suc, ◌+◌, ◌-◌, ◌%◌, Bool, Option, none, some, List, [], ◌∷◌, if◌then◌else◌, ltb, leb,
  ◌==◌,
}
use guppylang.Common.Run.{Run, ok, panic, ◌>>=◌}
use guppylang.Cfg.Graph.{update}
use guppylang.Collections.{Collection}
use guppylang.Collections.Buffer.{Buffer, add, unwrap, load, put, take, all_nothing}

pub record Stack (T : Type 0) : Type 0 where
  pub buf : Buffer T
  pub end : ℕ

module _ {T : Type 0} (max_size : ℕ) where
  unfoldable pub push : Stack T → T → Run (Stack T)
  push s elem =
      if leb max_size s.end
      then panic "Stack.push: max size reached"
      else (do buf ← put max_size s.buf s.end elem; ok (record { buf = buf; end = add s.end 1 }))

  unfoldable pub pop : Stack T → Run (T × Stack T)
  pop s = if leb s.end 0 then panic "Stack.pop: stack is empty" else (do
    (elem, buf) ← take max_size s.buf (s.end - 1)
    ok (elem, record { buf = buf; end = s.end - 1 }))

  unfoldable pub peek : Stack T → Run T
  peek s =
      if leb s.end 0
      then panic "Stack.peek: stack is empty"
      else (load max_size s.buf (s.end - 1) >>= unwrap)

  unfoldable pub discard_empty : Stack T → Run (Unit {0})
  discard_empty s =
      if ltb 0 s.end
      then panic "Stack.discard_empty: stack is not empty"
      else all_nothing max_size 0 s.buf

  abbrev pub stack : Collection T (Stack T)
  stack = record { len = λ s. s.end; push = push; pop = pop; discard_empty = discard_empty }

abbrev pub empty_stack : {T : Type 0} → Stack T
empty_stack = record { buf = λ _. none; end = 0 }
