-- ===== src/Collections/Client.antt =====
-- What a client of a bounded collection sees, against a list with a rule for what comes next.
use guppylang.Common.{
  ℕ, zero, suc, ◌<◌, ◌≤◌, ◌≡◌, refl, ap, false, Option, none, some, List, [], ◌∷◌, String,
  if◌then◌else◌, leb, ◌==◌, length, arith, inl, inr, Bool-cases, Option-cases,
}
use guppylang.Common.Run.{Run, ok, panic, ◌>>=◌, map_run}
use guppylang.Collections.{Collection, next, iterate}

-- A bounded list: where an element goes, and which one comes out.
pub record Discipline (E : Type 0) : Type 0 where
  pub insert : List E → E → List E
  pub remove : List E → Option (E × List E)
  pub full_message : String
  pub empty_message : String

pub data Op (E : Type 0) : Type 0 where
  push_op : E → Op E
  pop_op : Op E

module _ {E : Type 0} (d : Discipline E) where
  -- The elements in the order in which they come out.
  pub data InOrder : List E → List E → Type 0 where
    stop : {xs : List E} → d.remove xs ≡ none → InOrder xs []
    step :
        {xs xs' ys : List E} {x : E}
        → d.remove xs ≡ some (x, xs')
        → InOrder xs' ys
        → InOrder xs (x ∷ ys)

module _ {E : Type 0} (d : Discipline E) (max_size : ℕ) where
  -- The calls on the list, with what the `pop`s return.
  abbrev pub run_list : List E → List (Op E) → Run (List E)
  run_list xs [] = ok []
  run_list xs (push_op x ∷ ops) =
      let rest = run_list (d.insert xs x) ops in
      if leb max_size (length xs) then panic d.full_message else rest
  run_list xs (pop_op ∷ ops) = elim (d.remove xs) [
    | none ↦ panic d.empty_message
    | some (x, xs') ↦ map_run (◌∷◌ x) (run_list xs' ops)
  ]

module _ {E S : Type 0} (c : Collection E S) where
  -- A sequence of calls, with what the `pop`s return.
  abbrev pub run_calls : S → List (Op E) → Run (List E)
  run_calls s [] = ok []
  run_calls s (push_op x ∷ ops) = c.push s x >>= λ s'. run_calls s' ops
  run_calls s (pop_op ∷ ops) = c.pop s >>= λ (x, s'). map_run (◌∷◌ x) (run_calls s' ops)

-- What the states of `c` owe to the lists that they represent.
pub record Implements {E S : Type 0} (c : Collection E S) (d : Discipline E) (max_size : ℕ)
    (Represents : S → List E → Type 0) : Type 0 where
  pub push_full :
      (s : S) (xs : List E) (x : E)
      → Represents s xs
      → max_size ≤ length xs
      → c.push s x ≡ panic d.full_message
  pub push_room :
      (s : S) (xs : List E) (x : E)
      → Represents s xs
      → length xs < max_size
      → (s' : S) × (c.push s x ≡ ok s') × Represents s' (d.insert xs x)
  pub pop_none :
      (s : S) (xs : List E) → Represents s xs → d.remove xs ≡ none → c.pop s ≡ panic d.empty_message
  pub pop_some :
      (s : S) (xs xs' : List E) (x : E)
      → Represents s xs
      → d.remove xs ≡ some (x, xs')
      → (s' : S) × (c.pop s ≡ ok (x, s')) × Represents s' xs'
  pub len_empty :
      (s : S) (xs : List E)
      → Represents s xs
      → d.remove xs ≡ none
      → (c.len s ≡ 0) × (c.discard_empty s ≡ ok tt)
  pub len_some :
      (s : S) (xs xs' : List E) (x : E)
      → Represents s xs
      → d.remove xs ≡ some (x, xs')
      → (c.len s == 0) ≡ false

module _ {E S : Type 0} {c : Collection E S} {d : Discipline E} {max_size : ℕ}
    {Represents : S → List E → Type 0} (i : Implements c d max_size Represents) where
  -- Every sequence of calls returns on the collection what it returns on the list, or panics with
  -- the same message.
  pub run_calls-refines :
      (ops : List (Op E)) (s : S) (xs : List E)
      → Represents s xs
      → run_calls c s ops ≡ run_list d max_size xs ops
  run_calls-refines [] s xs h = refl
  run_calls-refines (push_op x ∷ ops) s xs h = elim (Bool-cases (leb max_size (length xs))) [
    | inl full ↦ rw (full, i.push_full s xs x h (ground arith))
    | inr room ↦
        let (s', pushed, h') = i.push_room s xs x h (ground arith) in
        rw (room, pushed) (run_calls-refines ops s' (d.insert xs x) h')
  ]
  run_calls-refines (pop_op ∷ ops) s xs h = elim (Option-cases (d.remove xs)) [
    | inl none_left ↦ rw (none_left, run_list, run_calls, i.pop_none s xs h none_left)
    | inr ((x, xs'), removed) ↦
        let (s', popped, h') = i.pop_some s xs xs' x h removed in
        rw (removed, run_list, run_calls, popped)
          (ap (map_run (◌∷◌ x)) (run_calls-refines ops s' xs' h'))
  ]

  -- Iteration yields all elements in the order in which they come out.
  pub iterate_lem :
      (fuel : ℕ) (s : S) (xs ys : List E)
      → Represents s xs
      → InOrder d xs ys
      → length ys < fuel
      → iterate c fuel s ≡ ok ys
  unfolding iterate next
  iterate_lem zero s xs ys h all enough = absurd (omega arith)
  iterate_lem (suc fuel) s xs [] h (InOrder.stop none_left) enough =
      let (size, empty) = i.len_empty s xs h none_left in rw (size, empty) refl
  iterate_lem (suc fuel) s xs (y ∷ ys) h (InOrder.step {xs'} removed rest) enough =
      let (s', popped, h') = i.pop_some s xs xs' y h removed in
      rw (i.len_some s xs xs' y h removed, popped)
        (ap (map_run (◌∷◌ y)) (iterate_lem fuel s' xs' ys h' rest (omega arith)))
