-- ===== src/Cfg/Analysis/Closed.antt =====
-- What a worklist loop needs of the blocks and their links.
use guppylang.Common.{ℕ, ◌≡◌, true, List, nat_eq}
use guppylang.Common.Sets.{elem}

-- `inputs` of a block are the blocks whose values it joins, `real` those of them that are no dummy
-- links, and `back` the blocks that are put on the queue again when the block's value changes.
pub record IsClosed (bbs : List ℕ) (inputs real back : ℕ → List ℕ) : Type 0 where
  pub inputs_in : (c x : ℕ) → elem c bbs ≡ true → elem x (inputs c) ≡ true → elem x bbs ≡ true
  pub back_in : (c x : ℕ) → elem c bbs ≡ true → elem x (back c) ≡ true → elem x bbs ≡ true
  pub mirrored : (c x : ℕ) → elem x (real c) ≡ true → elem c (back x) ≡ true
