-- ===== src/Collections/PriorityQueue.antt =====
-- guppylang/src/guppylang/std/collections/priority_queue.py. Priorities are `int`s that are only
-- compared: the model counts them from the smallest `int`, so that they are numbers.
pub mod Contents
pub mod Order
pub mod Up
pub mod Down
pub mod Valid
pub mod Push
pub mod Pop
pub mod Panics
pub mod Iterate
use guppylang.Common.{
  ℕ, zero, suc, ◌+◌, ◌-◌, ◌/◌, Bool, true, false, Option, none, some, List, [], ◌∷◌, if◌then◌else◌,
  ltb, leb, ◌==◌,
}
use guppylang.Common.Run.{Run, ok, panic, stuck, ◌>>=◌}
use guppylang.Cfg.Graph.{update}
use guppylang.Collections.{Collection}
use guppylang.Collections.Buffer.{Buffer, add, mul, unwrap, load, put, take, all_nothing}

-- A priority with its value.
abbrev pub Entry : Type 0 → Type 0
Entry T = ℕ × T

pub record PriorityQueue (T : Type 0) : Type 0 where
  pub buf : Buffer (Entry T)
  pub size : ℕ

abbrev pub parent : ℕ → ℕ
parent i = (i - 1) / 2

module _ {T : Type 0} (max_size : ℕ) where
  -- The loop of `push`, with `i` as its counter.
  unfoldable pub sift_up : ℕ → Buffer (Entry T) → ℕ → Run (Buffer (Entry T))
  sift_up zero buf i = stuck
  sift_up (suc fuel) buf i =
      let parent_i = parent i in
      let round : Run (Buffer (Entry T)) = do
        ((prio, val), buf1) ← take max_size buf i
        ((parent_prio, parent_val), buf2) ← take max_size buf1 parent_i
        let settle : Run (Buffer (Entry T)) = do
          buf3 ← put max_size buf2 i (prio, val)
          put max_size buf3 parent_i (parent_prio, parent_val)
        let rise : Run (Buffer (Entry T)) = do
          buf3 ← put max_size buf2 i (parent_prio, parent_val)
          buf4 ← put max_size buf3 parent_i (prio, val)
          sift_up fuel buf4 parent_i
        if leb parent_prio prio then settle else rise
      in if ltb 0 i then round else ok buf

  unfoldable pub push : PriorityQueue T → Entry T → Run (PriorityQueue T)
  push q (priority, value) =
      if leb max_size q.size then panic "PriorityQueue.push: max size reached" else (do
        buf ← put max_size q.buf q.size (priority, value)
        buf' ← sift_up (suc q.size) buf q.size
        ok (record { buf = buf'; size = add q.size 1 }))

  -- The child with the lower priority, taken out of the buffer.
  unfoldable pub take_child : Buffer (Entry T) → ℕ → ℕ → Run (ℕ × Entry T × Buffer (Entry T))
  take_child buf new_size left_i =
      let right_i = add left_i 1 in
      if ltb right_i new_size
      then (do
        ((left_prio, left_val), buf1) ← take max_size buf left_i
        ((right_prio, right_val), buf2) ← take max_size buf1 right_i
        let right : Run (ℕ × Entry T × Buffer (Entry T)) = do
          buf3 ← put max_size buf2 left_i (left_prio, left_val)
          ok (right_i, (right_prio, right_val), buf3)
        let left : Run (ℕ × Entry T × Buffer (Entry T)) = do
          buf3 ← put max_size buf2 right_i (right_prio, right_val)
          ok (left_i, (left_prio, left_val), buf3)
        if ltb right_prio left_prio then right else left)
      else (do (child, buf1) ← take max_size buf left_i; ok (left_i, child, buf1))

  -- The loop of `pop`: where it stops, the slot `i` is free.
  unfoldable pub sift_down : ℕ → Buffer (Entry T) → ℕ → ℕ → ℕ → Run (ℕ × Buffer (Entry T))
  sift_down zero buf new_size displaced_prio i = stuck
  sift_down (suc fuel) buf new_size displaced_prio i =
      let left_i = add (mul 2 i) 1 in
      let round : Run (ℕ × Buffer (Entry T)) = do
        (child_i, child, buf1) ← take_child buf new_size left_i
        let settle : Run (ℕ × Buffer (Entry T)) = do
          buf2 ← put max_size buf1 child_i child
          ok (i, buf2)
        let sink : Run (ℕ × Buffer (Entry T)) = do
          buf2 ← put max_size buf1 i child
          sift_down fuel buf2 new_size displaced_prio child_i
        if leb displaced_prio child.0 then settle else sink
      in if leb new_size left_i then ok (i, buf) else round

  unfoldable pub pop : PriorityQueue T → Run (Entry T × PriorityQueue T)
  pop q = if leb q.size 0 then panic "PriorityQueue.pop: priority queue is empty" else (do
    (first, buf) ← take max_size q.buf 0
    let new_size = q.size - 1
    let refill : Run (Entry T × PriorityQueue T) = do
      (displaced, buf1) ← take max_size buf new_size
      (i, buf2) ← sift_down (suc new_size) buf1 new_size displaced.0 0
      buf3 ← put max_size buf2 i displaced
      ok (first, record { buf = buf3; size = new_size })
    if new_size == 0 then ok (first, record { buf = buf; size = new_size }) else refill)

  unfoldable pub peek : PriorityQueue T → Run (Entry T)
  peek q =
      if leb q.size 0
      then panic "PriorityQueue.peek: priority queue is empty"
      else (load max_size q.buf 0 >>= unwrap)

  unfoldable pub discard_empty : PriorityQueue T → Run (Unit {0})
  discard_empty q =
      if ltb 0 q.size
      then panic "PriorityQueue.discard_empty: priority queue is not empty"
      else all_nothing max_size 0 q.buf

  abbrev pub priority_queue : Collection (Entry T) (PriorityQueue T)
  priority_queue = record {
    len = λ q. q.size;
    push = push;
    pop = pop;
    discard_empty = discard_empty;
  }

abbrev pub empty_priority_queue : {T : Type 0} → PriorityQueue T
empty_priority_queue = record { buf = λ _. none; size = 0 }
