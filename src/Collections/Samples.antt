-- ===== src/Collections/Samples.antt =====
-- The collections on small inputs.
pub mod Stacks
pub mod Queues
pub mod Priorities
use guppylang.Common.{ℕ, zero, suc, ◌<◌, arith}

pub below_three : (P : ℕ → Type 0) → P 0 → P 1 → P 2 → (i : ℕ) → i < 3 → P i
below_three P a b c zero m = a
below_three P a b c (suc zero) m = b
below_three P a b c (suc (suc zero)) m = c
below_three P a b c (suc (suc (suc i))) m = absurd (omega arith)
