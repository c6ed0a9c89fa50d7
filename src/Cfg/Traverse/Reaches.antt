-- ===== src/Cfg/Traverse/Reaches.antt =====
-- Paths along links.
use guppylang.Common.{ℕ, ◌≡◌, true, List, nat_eq}
use guppylang.Common.Sets.{elem}

-- A path along `next` leads from a block of `starts` to `b`.
pub data Reaches (next : ℕ → List ℕ) (starts : List ℕ) : ℕ → Type 0 where
  start : {b : ℕ} → elem b starts ≡ true → Reaches next starts b
  follow : {b c : ℕ} → Reaches next starts b → elem c (next b) ≡ true → Reaches next starts c
