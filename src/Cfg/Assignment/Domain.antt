-- ===== src/Cfg/Assignment/Domain.antt =====
-- The two sets as bits, for the forward loop.
use guppylang.Common.{
  ◌≡◌, refl, Bool, true, false, ◌&&◌, ◌||◌, List, [], ◌∷◌, map, arith, Eq, nat_eq, ◌∙◌, ap, filter,
}
use guppylang.Common.Sets.{elem, update_with, elem-update_with, elem-filter}
use guppylang.Cfg.Analysis.Chain.{Toward, AllToward}
use guppylang.Cfg.Assignment.{Assignments, intersection, union, join_assignments}

abbrev pub any_of : List Bool → Bool
any_of [] = false
any_of (b ∷ bs) = b || any_of bs

abbrev pub all_of : List Bool → Bool
all_of [] = true
all_of (b ∷ bs) = b && all_of bs

-- The value of a join of no blocks, or of some.
abbrev pub joined_by : (List Bool → Bool) → Bool → List Bool → Bool
joined_by f none_of [] = none_of
joined_by f none_of (b ∷ bs) = f (b ∷ bs)

any_of-Toward :
    (first : Bool) (xs ys : List Bool)
    → AllToward first xs ys
    → Toward first (any_of xs) (any_of ys)
any_of-Toward first [] [] h = ground arith
any_of-Toward first (x ∷ xs) (y ∷ ys) h = ground (arith, any_of-Toward first xs ys h.1)
any_of-Toward first [] (y ∷ ys) h = absurd h
any_of-Toward first (x ∷ xs) [] h = absurd h

all_of-Toward :
    (first : Bool) (xs ys : List Bool)
    → AllToward first xs ys
    → Toward first (all_of xs) (all_of ys)
all_of-Toward first [] [] h = ground arith
all_of-Toward first (x ∷ xs) (y ∷ ys) h = ground (arith, all_of-Toward first xs ys h.1)
all_of-Toward first [] (y ∷ ys) h = absurd h
all_of-Toward first (x ∷ xs) [] h = absurd h

pub joined_by_any :
    (first none_of : Bool) (xs ys : List Bool)
    → AllToward first xs ys
    → Toward first (joined_by any_of none_of xs) (joined_by any_of none_of ys)
joined_by_any first none_of [] [] h = ground arith
joined_by_any first none_of (x ∷ xs) (y ∷ ys) h = any_of-Toward first (x ∷ xs) (y ∷ ys) h
joined_by_any first none_of [] (y ∷ ys) h = absurd h
joined_by_any first none_of (x ∷ xs) [] h = absurd h

pub joined_by_all :
    (first none_of : Bool) (xs ys : List Bool)
    → AllToward first xs ys
    → Toward first (joined_by all_of none_of xs) (joined_by all_of none_of ys)
joined_by_all first none_of [] [] h = ground arith
joined_by_all first none_of (x ∷ xs) (y ∷ ys) h = all_of-Toward first (x ∷ xs) (y ∷ ys) h
joined_by_all first none_of [] (y ∷ ys) h = absurd h
joined_by_all first none_of (x ∷ xs) [] h = absurd h

module _ {V : Type 0} ⦃e : Eq V⦄ where
  elem-intersection :
      (x : V) (s : List V) (ts : List (List V))
      → elem x (intersection s ts) ≡ (elem x s && all_of (map (elem x) ts))
  unfolding intersection
  elem-intersection x s [] = ground arith
  elem-intersection x s (t ∷ ts) =
      ground
        (arith, elem-intersection x (filter (λ y. elem y t) s) ts, elem-filter (λ y. elem y t) x s)

  pub elem-union :
      (x : V) (s : List V) (ts : List (List V))
      → elem x (union s ts) ≡ (elem x s || any_of (map (elem x) ts))
  unfolding union
  elem-union x s [] = ground arith
  elem-union x s (t ∷ ts) =
      ground (arith, elem-union x (update_with t s) ts, elem-update_with x t s)

  map_both :
      (x : V) (f : Assignments V → List V) (ts : List (Assignments V))
      → map (elem x) (map f ts) ≡ map (λ t. elem x (f t)) ts
  map_both x f [] = refl
  map_both x f (t ∷ ts) = ap (λ bs. elem x (f t) ∷ bs) (map_both x f ts)

  pub elem-join_def :
      (x : V) (entry : List V) (ts : List (Assignments V))
      → elem x (join_assignments entry ts).0
        ≡ joined_by all_of (elem x entry) (map (λ t. elem x t.0) ts)
  unfolding join_assignments
  elem-join_def x entry [] = refl
  elem-join_def x entry (t ∷ ts) =
      elem-intersection x t.0 (map (λ u. u.0) ts)
      ∙ ap (λ bs. elem x t.0 && all_of bs) (map_both x (λ u. u.0) ts)

  pub elem-join_maybe :
      (x : V) (entry : List V) (ts : List (Assignments V))
      → elem x (join_assignments entry ts).1
        ≡ joined_by any_of (elem x entry) (map (λ t. elem x t.1) ts)
  unfolding join_assignments
  elem-join_maybe x entry [] = refl
  elem-join_maybe x entry (t ∷ ts) =
      elem-union x t.1 (map (λ u. u.1) ts)
      ∙ ap (λ bs. elem x t.1 || any_of bs) (map_both x (λ u. u.1) ts)
