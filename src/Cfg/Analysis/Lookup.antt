-- ===== src/Cfg/Analysis/Lookup.antt =====
-- Looking values up in a dict over blocks that has all the keys in question.
use guppylang.Common.{
  ℕ, ◌≡◌, refl, true, false, Option, none, some, List, [], ◌∷◌, map, arith, ◌==◌, if◌then◌else◌,
  Bool-cases, inl, inr, nat_eq, ◌+◌, ◌*◌, ◌≤◌, ◌<◌, ==→eq, zero, suc, get_or, length,
}
use guppylang.Common.Sets.{elem, without, elem-without}
use guppylang.Cfg.Graph.{update}
use guppylang.Cfg.Analysis.{lookups, pop_any, is_empty}

module _ {ℓ} {T : Type ℓ} where
  -- The dict read as a total function, with a default where a key is missing.
  abbrev pub read : (ℕ → T) → (ℕ → Option T) → ℕ → T
  read default vals b = elim (vals b) [ none ↦ default b | some t ↦ t ]

  -- Every block of `bbs` is a key of `vals`, with the value that `cur` says.
  abbrev pub Holds : List ℕ → (ℕ → Option T) → (ℕ → T) → Type ℓ
  Holds bbs vals cur = (b : ℕ) → elem b bbs ≡ true → vals b ≡ some (cur b)

  pub lookups-Holds :
      (bbs : List ℕ) (vals : ℕ → Option T) (cur : ℕ → T)
      → Holds bbs vals cur
      → (cs : List ℕ) → ((c : ℕ) → elem c cs ≡ true → elem c bbs ≡ true)
      → lookups vals cs ≡ some (map cur cs)
  unfolding lookups
  lookups-Holds bbs vals cur h [] m = refl
  lookups-Holds bbs vals cur h (c ∷ cs) m =
      let c_in : elem c bbs ≡ true = m c (ground arith) in
      let rest = lookups-Holds bbs vals cur h cs (λ x p. m x (ground arith)) in
      ground (arith, h c c_in, rest)

  pub Holds-update :
      (bbs : List ℕ) (vals : ℕ → Option T) (cur : ℕ → T) (b : ℕ) (t : T)
      → Holds bbs vals cur
      → Holds bbs (update vals b (some t)) (update cur b t)
  Holds-update bbs vals cur b t h c m = elim (Bool-cases (c == b)) [
    | inl same ↦ rw same
    | inr other ↦ rw other (h c m)
  ]

-- An element that `pop_any` takes is one of the queue.
elem-get_or :
    (i q : ℕ) (qs xs : List ℕ)
    → elem q qs ≡ true
    → ((x : ℕ) → elem x xs ≡ true → elem x qs ≡ true)
    → elem (get_or xs i q) qs ≡ true
elem-get_or i q qs [] h f = h
elem-get_or zero q qs (x ∷ xs) h f = f x (ground arith)
elem-get_or (suc i) q qs (x ∷ xs) h f = elem-get_or i q qs xs h (λ y m. f y (ground arith))

pub elem-pop_any :
    (choose : List ℕ → ℕ) (q : ℕ) (qs : List ℕ) → elem (pop_any choose q qs) (q ∷ qs) ≡ true
elem-pop_any choose q qs =
    elem-get_or (choose (q ∷ qs)) q (q ∷ qs) (q ∷ qs) (ground arith) (λ x m. m)

-- How many blocks of `bbs` stand in the queue.
pub waiting : List ℕ → List ℕ → ℕ
waiting [] queue = 0
waiting (b ∷ bs) queue = let rest = waiting bs queue in if elem b queue then suc rest else rest

pub waiting-le-length : (bs queue : List ℕ) → waiting bs queue ≤ length bs
unfolding waiting
waiting-le-length [] queue = omega arith
waiting-le-length (b ∷ bs) queue = ground (arith, waiting-le-length bs queue)

waiting-without-le : (b : ℕ) (bs queue : List ℕ) → waiting bs (without b queue) ≤ waiting bs queue
unfolding waiting
waiting-without-le b [] queue = omega arith
waiting-without-le b (c ∷ bs) queue =
    ground (arith, waiting-without-le b bs queue, elem-without c b queue)

pub waiting-without-lt :
    (b : ℕ) (bs queue : List ℕ)
    → elem b bs ≡ true
    → elem b queue ≡ true
    → waiting bs (without b queue) < waiting bs queue
unfolding waiting
waiting-without-lt b [] queue m n = cc
waiting-without-lt b (c ∷ bs) queue m n = elim (Bool-cases (b == c)) [
  | inl same ↦
      rw (← ==→eq b c same) (ground (arith, waiting-without-le b bs queue, elem-without b b queue))
  | inr other ↦
      ground (arith, waiting-without-lt b bs queue (ground arith) n, elem-without c b queue)
]

-- A fall of the rank outweighs any growth of the queue.
pub rounds_fall :
    (r r' w w' n m : ℕ) → r' < r → w' ≤ n → r * (n + 1) + w ≤ m → r' * (n + 1) + w' < m
rounds_fall r r' w w' n m lt le bound =
    let step : suc r' * (n + 1) ≤ r * (n + 1) = grind arith in omega arith

mul_mono : (x y z : ℕ) → x ≤ y → x * z ≤ y * z
mul_mono x y z h = grind arith

pub rounds_bound : (r n k w : ℕ) → r ≤ n * k → w ≤ n → r * (n + 1) + w ≤ n * k * (n + 1) + n
rounds_bound r n k w le small = omega (arith, mul_mono r (n * k) (n + 1) le)

pub is_empty-elem : (xs : List ℕ) (c : ℕ) → is_empty xs ≡ true → elem c xs ≡ false
is_empty-elem [] c h = refl
is_empty-elem (x ∷ xs) c h = cc
