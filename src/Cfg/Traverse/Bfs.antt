-- ===== src/Cfg/Traverse/Bfs.antt =====
-- The breadth-first generators yield each block that a path reaches, once.
use guppylang.Common.{
  ℕ, zero, suc, ◌+◌, ◌<◌, ◌≤◌, ◌≡◌, refl, ◌↔◌, Bool-cases, true, false, ◌||◌, some, List, [], ◌∷◌,
  ◌++◌, inl, inr, nat_eq, ◌==◌, ==→eq, length, length-append, arith,
}
use guppylang.Common.Sets.{elem, elem-append, count, elem-count}
use guppylang.Cfg.Traverse.{breadth_first}
use guppylang.Cfg.Traverse.Reaches.{Reaches, start, follow}
use guppylang.Cfg.Traverse.Weight.{weight, weight_falls}

module _ (next : ℕ → List ℕ) (bbs : List ℕ)
    (inside : (b c : ℕ) → elem b bbs ≡ true → elem c (next b) ≡ true → elem c bbs ≡ true)
    (starts : List ℕ) where
  -- What the blocks that are still to be yielded are.
  record Walk (fuel : ℕ) (queue visited : List ℕ) : Type 0 where
    res : List ℕ
    ends : breadth_first next fuel queue visited ≡ some res
    fresh : (x : ℕ) → elem x res ≡ true → elem x visited ≡ false
    once : (x : ℕ) → count x res ≤ 1
    takes : (x : ℕ) → elem x queue ≡ true → (elem x res || elem x visited) ≡ true
    follows :
        (b x : ℕ)
        → elem b res ≡ true
        → elem x (next b) ≡ true
        → (elem x res || elem x visited) ≡ true
    sound : (x : ℕ) → elem x res ≡ true → Reaches next starts x

  left : List ℕ → List ℕ → ℕ
  left queue visited = length queue + weight next (λ c. elem c visited) bbs

  skip :
      (fuel bb : ℕ) (queue visited : List ℕ)
      → elem bb visited ≡ true
      → Walk fuel queue visited
      → Walk (suc fuel) (bb ∷ queue) visited
  unfolding breadth_first
  skip fuel bb queue visited old w = record {
    res = w.res;
    ends = rw (old, w.ends) refl;
    fresh = w.fresh;
    once = w.once;
    takes = λ x m. elim (Bool-cases (x == bb)) [
      | inl same ↦ let here = ==→eq x bb same in ground (arith, here)
      | inr other ↦ w.takes x (ground arith)
    ];
    follows = w.follows;
    sound = w.sound;
  }

  visit :
      (fuel bb : ℕ) (queue visited : List ℕ)
      → elem bb visited ≡ false
      → Reaches next starts bb
      → Walk fuel (queue ++ next bb) (bb ∷ visited)
      → Walk (suc fuel) (bb ∷ queue) visited
  unfolding breadth_first
  visit fuel bb queue visited new path w = record {
    res = bb ∷ w.res;
    ends = rw (new, w.ends) refl;
    fresh = λ x m. elim (Bool-cases (x == bb)) [
      | inl same ↦ let here = ==→eq x bb same in rw here new
      | inr other ↦ ground (arith, w.fresh x)
    ];
    once = λ x. ground (arith, w.once x, w.fresh x, elem-count x w.res);
    takes = λ x m. ground (arith, w.takes x, elem-append x queue (next bb));
    follows = λ b x m l. elim (Bool-cases (b == bb)) [
      | inl same ↦
          let here = ==→eq b bb same in
          let l' : elem x (next bb) ≡ true = rw here at l in
          ground (arith, w.takes x, elem-append x queue (next bb))
      | inr other ↦ ground (arith, w.follows b x)
    ];
    sound = λ x m. elim (Bool-cases (x == bb)) [
      | inl same ↦ rw (==→eq x bb same) path
      | inr other ↦ w.sound x (ground arith)
    ];
  }

  walk :
      (fuel : ℕ) (queue visited : List ℕ)
      → left queue visited < fuel
      → ((x : ℕ) → elem x queue ≡ true → elem x bbs ≡ true)
      → ((x : ℕ) → elem x queue ≡ true → Reaches next starts x)
      → Walk fuel queue visited
  unfolding left breadth_first
  walk zero queue visited enough known paths = absurd (omega arith)
  walk (suc fuel) [] visited enough known paths = record {
    res = [];
    ends = refl;
    fresh = λ x m. cc;
    once = λ x. omega arith;
    takes = λ x m. cc;
    follows = λ b x m l. cc;
    sound = λ x m. let clash : false ≡ true = m in absurd (ground arith);
  }
  walk (suc fuel) (bb ∷ queue) visited enough known paths = elim (Bool-cases (elem bb visited)) [
    | inl old ↦ skip fuel bb queue visited old (
        walk fuel queue visited (omega arith) (λ x m. known x (ground arith))
          (λ x m. paths x (ground arith)))
    | inr new ↦
        let here : elem bb (bb ∷ queue) ≡ true = ground arith in
        let known_bb = known bb here in
        let path = paths bb here in
        let fall =
          weight_falls next (λ c. elem c visited) (λ c. elem c (bb ∷ visited)) bb bbs
            (λ c m. ground arith) new (ground arith) known_bb in
        visit fuel bb queue visited new path (
          walk fuel (queue ++ next bb) (bb ∷ visited)
            (omega (arith, fall, length-append queue (next bb)))
            (λ x m. elim (Bool-cases (elem x queue)) [
              | inl old ↦ known x (ground arith)
              | inr off ↦ inside bb x known_bb (ground (arith, elem-append x queue (next bb)))
            ])
            (λ x m. elim (Bool-cases (elem x queue)) [
              | inl old ↦ paths x (ground arith)
              | inr off ↦ follow path (ground (arith, elem-append x queue (next bb)))
            ]))
  ]

  Reaches-elem :
      (res : List ℕ)
      → ((x : ℕ) → elem x starts ≡ true → elem x res ≡ true)
      → ((b x : ℕ) → elem b res ≡ true → elem x (next b) ≡ true → elem x res ≡ true)
      → {x : ℕ} → Reaches next starts x
      → elem x res ≡ true
  Reaches-elem res takes follows (start m) = takes _ m
  Reaches-elem res takes follows (follow {b} {c} path m) =
      follows b c (Reaches-elem res takes follows path) m

  -- With more fuel than there are links and starts, the generator ends and yields each block that a
  -- path from `starts` reaches exactly once, and no other.
  pub breadth_first_lem :
      (fuel : ℕ)
      → length starts + weight next (λ _. false) bbs < fuel
      → ((x : ℕ) → elem x starts ≡ true → elem x bbs ≡ true)
      → (res : List ℕ) × (breadth_first next fuel starts [] ≡ some res)
        × ((x : ℕ) → count x res ≤ 1)
        × ((x : ℕ) → (elem x res ≡ true) ↔ Reaches next starts x)
  unfolding left
  breadth_first_lem fuel enough known =
      let w = walk fuel starts [] enough known (λ x m. start m) in
      (
        w.res,
        w.ends,
        w.once,
        λ x. (
          w.sound x,
          λ path.
              Reaches-elem w.res (λ y m. ground (arith, w.takes y))
                (λ b y m l. ground (arith, w.follows b y)) path,
        ),
      )
