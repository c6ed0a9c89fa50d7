-- ===== src/Collections/Stack/Represents.antt =====
-- A stack against the list of its elements, from the bottom to the top.
use guppylang.Common.{
  ℕ, suc, ◌-◌, ◌<◌, ◌≤◌, ◌≡◌, refl, ap, sym, ◌∙◌, false, true, some_eq, ◌⊎◌, inl, inr, Option, none,
  some, List, [], ◌∷◌, ◌++◌, ltb, leb, length, get_elem?, get_elem?-append, get_elem?-past,
  length-append, arith,
}
use guppylang.Common.Run.{ok}
use guppylang.Cfg.Graph.{update}
use guppylang.Collections.Buffer.{add, add-small, int_limit}
use guppylang.Collections.Client.{Discipline}
use guppylang.Collections.Stack.{Stack, push, pop, peek}

-- The last element and those before it.
abbrev pub unsnoc : {T : Type 0} → List T → Option (T × List T)
unsnoc [] = none
unsnoc (x ∷ xs) = elim (unsnoc xs) [ none ↦ some (x, []) | some (y, ys) ↦ some (y, x ∷ ys) ]

abbrev pub lifo : {T : Type 0} → Discipline T
lifo = record {
  insert = λ xs x. xs ++ x ∷ [];
  remove = unsnoc;
  full_message = "Stack.push: max size reached";
  empty_message = "Stack.pop: stack is empty";
}

-- What the buffer holds, slot by slot.
pub record IsStackOf {T : Type 0} (max_size : ℕ) (s : Stack T) (xs : List T) : Type 0 where
  pub size : s.end ≡ length xs
  pub bounded : length xs ≤ max_size
  pub slots : (i : ℕ) → i < max_size → s.buf i ≡ get_elem? xs i

pub unsnoc-append : {T : Type 0} (xs : List T) (x : T) → unsnoc (xs ++ x ∷ []) ≡ some (x, xs)
unsnoc-append [] x = refl
unsnoc-append (y ∷ xs) x = rw (unsnoc-append xs x)

unsnoc-cases :
    {T : Type 0} (xs : List T) → (xs ≡ []) ⊎ ((x : T) × (ys : List T) × (xs ≡ ys ++ x ∷ []))
unsnoc-cases [] = inl refl
unsnoc-cases (x ∷ xs) = inr (elim (unsnoc-cases xs) [
  | inl none_left ↦ (x, [], ap (◌∷◌ x) none_left)
  | inr (y, ys, same) ↦ (y, x ∷ ys, ap (◌∷◌ x) same)
])

pub unsnoc-eq-some :
    {T : Type 0} (xs ys : List T) (x : T) → unsnoc xs ≡ some (x, ys) → xs ≡ ys ++ x ∷ []
unsnoc-eq-some xs ys x h = elim (unsnoc-cases xs) [
  | inl nil ↦ let clash : unsnoc xs ≡ none = rw nil refl in cc
  | inr (y, zs, same) ↦
      let at_end : unsnoc xs ≡ some (y, zs) = rw same (unsnoc-append zs y) in
      let pair : (y, zs) ≡ (x, ys) = some_eq (sym at_end ∙ h) in
      same ∙ ap (λ (r : _ × _). r.1 ++ r.0 ∷ []) pair
]

pub unsnoc-eq-none : {T : Type 0} (xs : List T) → unsnoc xs ≡ none → xs ≡ []
unsnoc-eq-none xs h = elim (unsnoc-cases xs) [
  | inl nil ↦ nil
  | inr (y, zs, same) ↦ let at_end : unsnoc xs ≡ some (y, zs) = rw same (unsnoc-append zs y) in cc
]

module _ {T : Type 0} (max_size : ℕ) (fits : max_size < int_limit) where
  pub push_room :
      (s : Stack T) (xs : List T) (x : T)
      → IsStackOf max_size s xs
      → length xs < max_size
      → (s' : Stack T) × (push max_size s x ≡ ok s') × IsStackOf max_size s' (xs ++ x ∷ [])
  unfolding push
  push_room s xs x h room =
      let guard : leb max_size s.end ≡ false = ground (arith, h.size) in
      let inside : ltb s.end max_size ≡ true = ground (arith, h.size) in
      let free : s.buf s.end ≡ none =
        h.slots s.end (omega (arith, h.size)) ∙ get_elem?-past xs s.end (omega (arith, h.size)) in
      (
        record { buf = update s.buf s.end (some x); end = add s.end 1 },
        rw (guard, inside, free),
        record {
          size =
              omega (
                arith,
                add-small s.end 1 (omega (arith, h.size)),
                h.size,
                length-append xs (x ∷ []),
              );
          bounded = omega (arith, length-append xs (x ∷ []));
          slots = λ i m. ground (arith, h.slots i m, h.size, get_elem?-append xs x i);
        },
      )

  pub pop_some :
      (s : Stack T) (xs : List T) (x : T)
      → IsStackOf max_size s (xs ++ x ∷ [])
      → (s' : Stack T) × (pop max_size s ≡ ok (x, s')) × IsStackOf max_size s' xs
  unfolding pop
  pop_some s xs x h =
      let size : s.end ≡ suc (length xs) = omega (arith, h.size, length-append xs (x ∷ [])) in
      let guard : leb s.end 0 ≡ false = ground arith in
      let last : s.end - 1 ≡ length xs = omega arith in
      let below : length xs < max_size = omega (arith, h.bounded, length-append xs (x ∷ [])) in
      let inside : ltb (length xs) max_size ≡ true = ground arith in
      let full : s.buf (length xs) ≡ some x =
        h.slots (length xs) below ∙ ground (arith, get_elem?-append xs x (length xs)) in
      (
        record { buf = update s.buf (length xs) none; end = length xs },
        rw (guard, last, inside, full),
        record {
          size = refl;
          bounded = omega arith;
          slots = λ i m. ground (arith, h.slots i m, get_elem?-append xs x i, get_elem?-past xs i);
        },
      )

  pub peek_lem :
      (s : Stack T) (xs : List T) (x : T)
      → IsStackOf max_size s (xs ++ x ∷ [])
      → peek max_size s ≡ ok x
  unfolding peek
  peek_lem s xs x h =
      let size : s.end ≡ suc (length xs) = omega (arith, h.size, length-append xs (x ∷ [])) in
      let guard : leb s.end 0 ≡ false = ground arith in
      let last : s.end - 1 ≡ length xs = omega arith in
      let below : length xs < max_size = omega (arith, h.bounded, length-append xs (x ∷ [])) in
      let inside : ltb (length xs) max_size ≡ true = ground arith in
      let full : s.buf (length xs) ≡ some x =
        h.slots (length xs) below ∙ ground (arith, get_elem?-append xs x (length xs)) in
      rw (guard, last, inside, full)
