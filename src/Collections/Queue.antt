-- ===== src/Collections/Queue.antt =====
-- guppylang/src/guppylang/std/collections/queue.py.
pub mod Represents
pub mod Refines
use guppylang.Common.{
  ℕ, zero, suc, ◌+◌, ◌-◌, ◌%◌, Bool, Option, none, some, List, [], ◌∷◌, if◌then◌else◌, ltb, leb,
  ◌==◌, not,
}
use guppylang.Common.Run.{Run, ok, panic, ◌>>=◌}
use guppylang.Cfg.Graph.{update}
use guppylang.Collections.{Collection}
use guppylang.Collections.Buffer.{Buffer, add, unwrap, load, put, take, all_nothing}

pub record Queue (T : Type 0) : Type 0 where
  pub buf : Buffer T
  pub start : ℕ
  pub end : ℕ
  pub size : ℕ

module _ {T : Type 0} (max_size : ℕ) where
  unfoldable pub push : Queue T → T → Run (Queue T)
  push q elem = if leb max_size q.size then panic "Queue.push: max size reached" else (do
    buf ← put max_size q.buf q.end elem
    ok (record q { buf = buf; end = add q.end 1 % max_size; size = add q.size 1 }))

  unfoldable pub pop : Queue T → Run (T × Queue T)
  pop q = if q.size == 0 then panic "Queue.pop: queue is empty" else (do
    (elem, buf) ← take max_size q.buf q.start
    ok (elem, record q { buf = buf; start = add q.start 1 % max_size; size = q.size - 1 }))

  unfoldable pub peek : Queue T → Run T
  peek q =
      if q.size == 0
      then panic "Queue.peek: queue is empty"
      else (load max_size q.buf q.start >>= unwrap)

  unfoldable pub discard_empty : Queue T → Run (Unit {0})
  discard_empty q =
      if not (q.size == 0)
      then panic "Queue.discard_empty: queue is not empty"
      else all_nothing max_size 0 q.buf

  abbrev pub queue : Collection T (Queue T)
  queue = record { len = λ q. q.size; push = push; pop = pop; discard_empty = discard_empty }

abbrev pub empty_queue : {T : Type 0} → Queue T
empty_queue = record { buf = λ _. none; start = 0; end = 0; size = 0 }
