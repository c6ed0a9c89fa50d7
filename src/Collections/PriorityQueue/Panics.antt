-- ===== src/Collections/PriorityQueue/Panics.antt =====
-- When the calls of a priority queue panic, and with which message.
use guppylang.Common.{
  ℕ, ◌*◌, ◌≤◌, ◌≡◌, ◌↔◌, refl, sym, ◌∙◌, Bool-cases, inl, inr, String, true, leb, arith,
}
use guppylang.Common.Run.{Run, panic, Gives, Gives-ok, Gives-map_run, map_run}
use guppylang.Collections.Buffer.{int_limit}
use guppylang.Collections.PriorityQueue.{Entry, PriorityQueue, push, pop, peek}
use guppylang.Collections.PriorityQueue.Valid.{IsValid}
use guppylang.Collections.PriorityQueue.Push.{push-Holds}
use guppylang.Collections.PriorityQueue.Pop.{pop-Popped, peek-pop}

-- The call panics with the message, on the condition and on no other, and with no other message.
abbrev pub PanicsIff : {A : Type 0} → Type 0 → String → Run A → Type 0
PanicsIff when text r = (m : String) → (r ≡ panic m) ↔ (when × (m ≡ text))

-- A call that returns a value does not panic.
no_panic : {A : Type 0} {P : A → Type 0} (r : Run A) (m : String) → Gives P r → r ≡ panic m → ⊥
no_panic r m g e = let (a, returned, _) = Gives-ok g in cc

panic_text : {A : Type 0} {r : Run A} {m n : String} → r ≡ panic n → r ≡ panic m → m ≡ n
panic_text h e = cc

module _ {T : Type 0} (max_size : ℕ) (fits : 2 * max_size ≤ int_limit) (q : PriorityQueue T)
    (v : IsValid max_size q) where
  abbrev push_text : String
  push_text = "PriorityQueue.push: max size reached"

  abbrev pop_text : String
  pop_text = "PriorityQueue.pop: priority queue is empty"

  abbrev peek_text : String
  peek_text = "PriorityQueue.peek: priority queue is empty"

  full : (e : Entry T) → max_size ≤ q.size → push max_size q e ≡ panic push_text
  unfolding push
  full e h = let guard : leb max_size q.size ≡ true = ground arith in rw guard refl

  empty : q.size ≡ 0 → (pop max_size q ≡ panic pop_text) × (peek max_size q ≡ panic peek_text)
  unfolding pop peek
  empty h = let guard : leb q.size 0 ≡ true = ground arith in (rw guard refl, rw guard refl)

  push_iff : (e : Entry T) → PanicsIff (max_size ≤ q.size) push_text (push max_size q e)
  push_iff e m = (
    λ h. elim (Bool-cases (leb max_size q.size)) [
      | inl yes_full ↦ (ground arith, panic_text (full e (ground arith)) h)
      | inr room ↦
          absurd (no_panic (push max_size q e) m (push-Holds max_size fits q v e (ground arith)) h)
    ],
    λ (no_room, same). full e no_room ∙ rw same refl,
  )

  pop_iff : PanicsIff (q.size ≡ 0) pop_text (pop max_size q)
  pop_iff m = (
    λ h. elim (Bool-cases (leb q.size 0)) [
      | inl none_left ↦ (ground arith, panic_text (empty (ground arith)).0 h)
      | inr some_left ↦
          absurd (no_panic (pop max_size q) m (pop-Popped max_size fits q v (ground arith)) h)
    ],
    λ (none_left, same). (empty none_left).0 ∙ rw same refl,
  )

  peek_iff : PanicsIff (q.size ≡ 0) peek_text (peek max_size q)
  peek_iff m = (
    λ h. elim (Bool-cases (leb q.size 0)) [
      | inl none_left ↦ (ground arith, panic_text (empty (ground arith)).1 h)
      | inr some_left ↦
          let popped =
            Gives-map_run (λ r. r.0) (pop-Popped max_size fits q v (ground arith)) (λ _ _. tt) in
          absurd (
            no_panic (map_run (λ r. r.0) (pop max_size q)) m popped
              (sym (peek-pop max_size fits q v (ground arith)) ∙ h))
    ],
    λ (none_left, same). (empty none_left).1 ∙ rw same refl,
  )

  -- On a valid queue, `push` panics exactly if the queue is full, and `pop` and `peek` panic exactly
  -- if it is empty, each with its own message and with no other.
  pub panics_iff :
      (e : Entry T)
      → PanicsIff (max_size ≤ q.size) "PriorityQueue.push: max size reached" (push max_size q e)
        × PanicsIff (q.size ≡ 0) "PriorityQueue.pop: priority queue is empty" (pop max_size q)
        × PanicsIff (q.size ≡ 0) "PriorityQueue.peek: priority queue is empty" (peek max_size q)
  panics_iff e = (push_iff e, pop_iff, peek_iff)
