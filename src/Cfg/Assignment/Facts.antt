-- ===== src/Cfg/Assignment/Facts.antt =====
-- The bits of a pair of sets: `x` is definitely assigned, `x` may be assigned.
use guppylang.Common.{
  ℕ, ◌≡◌, ◌≢◌, refl, Bool, true, false, ◌||◌, List, [], ◌∷◌, ◌++◌, map, arith, Eq, nat_eq,
  Bool-cases, inl, inr, ◌∙◌, ap, ◌↔◌, all, ◌==◌, ==→eq, eq→==,
}
use guppylang.Common.Sets.{elem, is_subset, elem-append, elem-update_with, beq_refl, all-elem}
use guppylang.Common.Dict.{has, keys, elem-keys}
use guppylang.Cfg.Stats.{VariableStats}
use guppylang.Cfg.Assignment.{
  Assignments, same_set, same_assignments, join_assignments, apply_assignments,
}
use guppylang.Cfg.Assignment.Domain.{any_of, all_of, joined_by, elem-join_def, elem-join_maybe}

pub data Fact (V : Type 0) : Type 0 where
  definite maybe : V → Fact V

module _ {V : Type 0} ⦃e : Eq V⦄ where
  abbrev pub fact_beq : Fact V → Fact V → Bool
  fact_beq (definite x) (definite y) = e.beq x y
  fact_beq (maybe x) (maybe y) = e.beq x y
  fact_beq _ _ = false

  pub fact_beq_iff : (f g : Fact V) → (fact_beq f g ≡ true) ↔ (f ≡ g)
  fact_beq_iff (definite x) (definite y) = ground (arith, e.beq_iff x y)
  fact_beq_iff (maybe x) (maybe y) = ground (arith, e.beq_iff x y)
  fact_beq_iff (definite x) (maybe y) = ground arith
  fact_beq_iff (maybe x) (definite y) = ground arith

  instance abbrev pub fact_eq : Eq (Fact V)
  fact_eq = record { beq = fact_beq; beq_iff = fact_beq_iff }

  abbrev pub holds : Fact V → Assignments V → Bool
  holds (definite x) t = elem x t.0
  holds (maybe x) t = elem x t.1

  unfoldable pub facts : List V → List (Fact V)
  facts [] = []
  facts (x ∷ xs) = definite x ∷ maybe x ∷ facts xs

  abbrev pub subject : Fact V → V
  subject (definite x) = x
  subject (maybe x) = x

  pub elem-facts : (f : Fact V) (xs : List V) → elem f (facts xs) ≡ elem (subject f) xs
  unfolding facts
  elem-facts (definite x) [] = refl
  elem-facts (maybe x) [] = refl
  elem-facts (definite x) (y ∷ xs) = ground (arith, elem-facts (definite x) xs)
  elem-facts (maybe x) (y ∷ xs) = ground (arith, elem-facts (maybe x) xs)

  outside :
      (ys xs : List V)
      → all (λ x. elem x ys) xs ≡ false
      → (x : V) × (elem x xs ≡ true) × (elem x ys ≡ false)
  outside ys [] h = cc
  outside ys (x ∷ xs) h = elim (Bool-cases (elem x ys)) [
    | inl there ↦ let (z, m, out) = outside ys xs (ground arith) in (z, rw m (ground arith), out)
    | inr out ↦ (x, rw (beq_refl x), out)
  ]

  differ_set :
      (s t : List V)
      → same_set s t ≡ false
      → (x : V) × (elem x s ≢ elem x t) × (elem x (s ++ t) ≡ true)
  differ_set s t h = elim (Bool-cases (is_subset s t)) [
    | inl within ↦
        let (x, m, out) = outside s t (ground arith) in
        (x, ground arith, ground (arith, elem-append x s t))
    | inr beyond ↦
        let (x, m, out) = outside t s beyond in (x, ground arith, ground (arith, elem-append x s t))
  ]

  pub same_set-elem : (s t : List V) → same_set s t ≡ true → (x : V) → elem x s ≡ elem x t
  same_set-elem s t h x = ground (arith, all-elem (λ y. elem y t) s x, all-elem (λ y. elem y s) t x)

  pub same-holds :
      (s t : Assignments V) → same_assignments s t ≡ true → (f : Fact V) → holds f s ≡ holds f t
  unfolding same_assignments
  same-holds s t h (definite x) = same_set-elem s.0 t.0 (ground arith) x
  same-holds s t h (maybe x) = same_set-elem s.1 t.1 (ground arith) x

  -- Only the variables `vars` are in the sets.
  abbrev pub IsKnown : List V → Assignments V → Type 0
  IsKnown vars t = (f : Fact V) → holds f t ≡ true → elem (subject f) vars ≡ true

  pub differ :
      (vars : List V) (s t : Assignments V)
      → IsKnown vars s
      → IsKnown vars t
      → same_assignments s t ≡ false
      → (f : Fact V) × (elem f (facts vars) ≡ true) × (holds f s ≢ holds f t)
  unfolding same_assignments
  differ vars s t hs ht h = elim (Bool-cases (same_set s.0 t.0)) [
    | inl same ↦
        let (x, ne, m) = differ_set s.1 t.1 (ground arith) in
        (
          maybe x,
          elem-facts (maybe x) vars
              ∙ ground (arith, hs (maybe x), ht (maybe x), elem-append x s.1 t.1),
          ne,
        )
    | inr other ↦
        let (x, ne, m) = differ_set s.0 t.0 other in
        (
          definite x,
          elem-facts (definite x) vars
              ∙ ground (arith, hs (definite x), ht (definite x), elem-append x s.0 t.0),
          ne,
        )
  ]

module _ {V N : Type 0} ⦃e : Eq V⦄ (stats : ℕ → VariableStats V N) where
  abbrev pub writes : Fact V → ℕ → Bool
  writes f b = has (subject f) (stats b).assigned

  abbrev pub join_fact : List V → Fact V → List Bool → Bool
  join_fact entry (definite x) = joined_by all_of (elem x entry)
  join_fact entry (maybe x) = joined_by any_of (elem x entry)

  pub holds-join :
      (entry : List V) (f : Fact V) (ts : List (Assignments V))
      → holds f (join_assignments entry ts) ≡ join_fact entry f (map (holds f) ts)
  holds-join entry (definite x) ts = elem-join_def x entry ts
  holds-join entry (maybe x) ts = elem-join_maybe x entry ts

  pub holds-apply :
      (f : Fact V) (t : Assignments V) (b : ℕ)
      → holds f (apply_assignments stats t b) ≡ (holds f t || writes f b)
  unfolding apply_assignments
  holds-apply (definite x) t b =
      ground
        (arith, elem-update_with x (keys (stats b).assigned) t.0, elem-keys x (stats b).assigned)
  holds-apply (maybe x) t b =
      ground
        (arith, elem-update_with x (keys (stats b).assigned) t.1, elem-keys x (stats b).assigned)

  abbrev pub fact_flow : List V → Fact V → ℕ → List Bool → Bool
  fact_flow entry f b bits = join_fact entry f bits || writes f b

-- What a join says of one of its blocks.
module _ {V : Type 0} ⦃e : Eq V⦄ (f : Fact V) (cur : ℕ → Assignments V) where
  abbrev bits_at : List ℕ → List Bool
  bits_at cs = map (holds f) (map cur cs)

  at_block : (c d : ℕ) → (c == d) ≡ true → holds f (cur c) ≡ holds f (cur d)
  at_block c d h = ap (λ i. holds f (cur i)) (==→eq c d h)

  pub all_of_at :
      (cs : List ℕ) (c : ℕ) → elem c cs ≡ true → all_of (bits_at cs) ≡ true → holds f (cur c) ≡ true
  all_of_at [] c m h = cc
  all_of_at (d ∷ cs) c m h = elim (Bool-cases (c == d)) [
    | inl same ↦ at_block c d same ∙ ground arith
    | inr other ↦ all_of_at cs c (ground arith) (ground arith)
  ]

  pub any_of_at :
      (cs : List ℕ) (c : ℕ) → elem c cs ≡ true → holds f (cur c) ≡ true → any_of (bits_at cs) ≡ true
  any_of_at [] c m h = cc
  any_of_at (d ∷ cs) c m h = elim (Bool-cases (c == d)) [
    | inl same ↦ ground (arith, at_block c d same)
    | inr other ↦ ground (arith, any_of_at cs c (ground arith) h)
  ]

  pub not_all_of :
      (cs : List ℕ)
      → all_of (bits_at cs) ≡ false
      → (c : ℕ) × (elem c cs ≡ true) × (holds f (cur c) ≡ false)
  not_all_of [] h = cc
  not_all_of (d ∷ cs) h = elim (Bool-cases (holds f (cur d))) [
    | inl there ↦ let (c, m, out) = not_all_of cs (ground arith) in (c, rw m (ground arith), out)
    | inr out ↦ (d, rw (eq→== d d refl), out)
  ]

  pub any_of_from :
      (cs : List ℕ)
      → any_of (bits_at cs) ≡ true
      → (c : ℕ) × (elem c cs ≡ true) × (holds f (cur c) ≡ true)
  any_of_from [] h = cc
  any_of_from (d ∷ cs) h = elim (Bool-cases (holds f (cur d))) [
    | inl there ↦ (d, rw (eq→== d d refl), there)
    | inr out ↦ let (c, m, hit) = any_of_from cs (ground arith) in (c, rw m (ground arith), hit)
  ]
