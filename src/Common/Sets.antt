-- ===== src/Common/Sets.antt =====
-- Finite sets as lists: what a Python `set` or the keys of a `dict` are to the program.
use Prim.Native.Nat.{ℕ, suc, ◌+◌}
use mathlib.Core.Path.{◌≡◌, refl}
use mathlib.Core.Logic.{inl, inr}
use mathlib.Core.Bool.{Bool, true, false, not, ◌&&◌, ◌||◌}
use mathlib.Core.List.{List, [], ◌∷◌, ◌++◌}
use native.Mathlib.Omega.{arith}
use guppylang.Common.Tests.{if◌then◌else◌, Eq, Bool-cases, nat_eq, ltb, ◌==◌}
use guppylang.Common.Lists.{filter, all}

module _ {ℓ} {A : Type ℓ} ⦃e : Eq A⦄ where
  -- `x in xs`
  abbrev pub elem : A → List A → Bool
  elem x [] = false
  elem x (y ∷ ys) = e.beq x y || elem x ys

  -- `xs - {x}`
  abbrev pub without : A → List A → List A
  without x xs = filter (λ y. not (e.beq x y)) xs

  -- `xs.add(x)`
  abbrev pub add_elem : A → List A → List A
  add_elem x xs = if elem x xs then xs else x ∷ xs

  -- `xs.update(ys)`
  abbrev pub update_with : List A → List A → List A
  update_with [] xs = xs
  update_with (y ∷ ys) xs = update_with ys (add_elem y xs)

  -- `xs.issubset(ys)`
  abbrev pub is_subset : List A → List A → Bool
  is_subset xs ys = all (λ x. elem x ys) xs

  pub beq_refl : (x : A) → e.beq x x ≡ true
  beq_refl x = (e.beq_iff x x).1 refl

  pub beq_sym : (x y : A) → e.beq x y ≡ e.beq y x
  beq_sym x y = ground (arith, e.beq_iff x y, e.beq_iff y x)

  pub elem-without :
      (x y : A) (xs : List A) → elem x (without y xs) ≡ (elem x xs && not (e.beq y x))
  elem-without x y [] = refl
  elem-without x y (z ∷ zs) =
      ground (arith, elem-without x y zs, e.beq_iff x z, e.beq_iff y z, e.beq_iff y x)

  pub elem-add_elem : (x y : A) (xs : List A) → elem x (add_elem y xs) ≡ (e.beq x y || elem x xs)
  elem-add_elem x y xs = elim (Bool-cases (elem y xs)) [
    | inl old ↦ ground (arith, e.beq_iff x y)
    | inr new ↦ ground arith
  ]

  pub elem-update_with :
      (x : A) (ys xs : List A) → elem x (update_with ys xs) ≡ (elem x ys || elem x xs)
  elem-update_with x [] xs = refl
  elem-update_with x (y ∷ ys) xs =
      ground (arith, elem-update_with x ys (add_elem y xs), elem-add_elem x y xs)

  pub elem-append : (x : A) (xs ys : List A) → elem x (xs ++ ys) ≡ (elem x xs || elem x ys)
  elem-append x [] ys = refl
  elem-append x (y ∷ xs) ys = ground (arith, elem-append x xs ys)

  pub elem-filter : (p : A → Bool) (x : A) (xs : List A) → elem x (filter p xs) ≡ (elem x xs && p x)
  elem-filter p x [] = refl
  elem-filter p x (y ∷ xs) = elim (Bool-cases (e.beq x y)) [
    | inl same ↦ rw ((e.beq_iff x y).0 same) (ground (arith, elem-filter p y xs, beq_refl y))
    | inr other ↦ ground (arith, elem-filter p x xs)
  ]

  pub all-elem :
      (p : A → Bool) (ks : List A) (k : A) → all p ks ≡ true → elem k ks ≡ true → p k ≡ true
  all-elem p [] k h m = cc
  all-elem p (j ∷ ks) k h m = elim (Bool-cases (e.beq k j)) [
    | inl same ↦ rw ((e.beq_iff k j).0 same) (ground arith)
    | inr other ↦ all-elem p ks k (ground arith) (ground arith)
  ]

-- How often a number stands in a list.
abbrev pub count : ℕ → List ℕ → ℕ
count x [] = 0
count x (y ∷ ys) = let rest = count x ys in if x == y then suc rest else rest

pub count-append : (x : ℕ) (xs ys : List ℕ) → count x (xs ++ ys) ≡ count x xs + count x ys
count-append x [] ys = omega arith
count-append x (y ∷ xs) ys = ground (arith, count-append x xs ys)

pub elem-count : (x : ℕ) (xs : List ℕ) → elem x xs ≡ ltb 0 (count x xs)
elem-count x [] = ground arith
elem-count x (y ∷ ys) = ground (arith, elem-count x ys)
