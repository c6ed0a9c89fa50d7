-- ===== src/Cfg/Traverse/Weight.antt =====
-- How many links are still to be followed.
use guppylang.Common.{
  ℕ, ◌+◌, ◌<◌, ◌≤◌, ◌≡◌, Bool, Bool-cases, true, false, List, [], ◌∷◌, inl, inr, if◌then◌else◌,
  nat_eq, ◌==◌, ==→eq, length, arith,
}
use guppylang.Common.Sets.{elem, without, update_with, add_elem}

-- The links from those of `bbs` that are not done.
abbrev pub weight : (ℕ → List ℕ) → (ℕ → Bool) → List ℕ → ℕ
weight next done [] = 0
weight next done (b ∷ bbs) = (if done b then 0 else length (next b)) + weight next done bbs

pub weight_le :
    (next : ℕ → List ℕ) (old new : ℕ → Bool) (bbs : List ℕ)
    → ((c : ℕ) → old c ≡ true → new c ≡ true)
    → weight next new bbs ≤ weight next old bbs
weight_le next old new [] h = omega arith
weight_le next old new (b ∷ bbs) h = ground (arith, h b, weight_le next old new bbs h)

-- Doing one block takes its links off.
pub weight_falls :
    (next : ℕ → List ℕ) (old new : ℕ → Bool) (b : ℕ) (bbs : List ℕ)
    → ((c : ℕ) → old c ≡ true → new c ≡ true)
    → old b ≡ false
    → new b ≡ true
    → elem b bbs ≡ true
    → weight next new bbs + length (next b) ≤ weight next old bbs
weight_falls next old new b [] h before after m = cc
weight_falls next old new b (c ∷ bbs) h before after m = elim (Bool-cases (b == c)) [
  | inl same ↦ let here = ==→eq b c same in ground (arith, here, weight_le next old new bbs h)
  | inr other ↦ ground (arith, h c, weight_falls next old new b bbs h before after (ground arith))
]

pub length-update_with : (ys xs : List ℕ) → length (update_with ys xs) ≤ length ys + length xs
length-update_with [] xs = omega arith
length-update_with (y ∷ ys) xs = ground (arith, length-update_with ys (add_elem y xs))

length-without_le : (x : ℕ) (xs : List ℕ) → length (without x xs) ≤ length xs
length-without_le x [] = omega arith
length-without_le x (y ∷ xs) = ground (arith, length-without_le x xs)

pub length-without : (x : ℕ) (xs : List ℕ) → elem x xs ≡ true → length (without x xs) < length xs
length-without x [] m = cc
length-without x (y ∷ xs) m = ground (arith, length-without x xs, length-without_le x xs)
