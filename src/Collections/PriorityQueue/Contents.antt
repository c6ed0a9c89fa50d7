-- ===== src/Collections/PriorityQueue/Contents.antt =====
-- The entries of a buffer, and what taking one out and putting one in does to them.
use mathlib.Core.List.Perm
use mathlib.Core.List.{Perm}
use guppylang.Common.{
  ℕ, zero, suc, ◌<◌, ◌≡◌, refl, Bool-cases, ==→eq, inl, inr, Option, none, some, List, [], ◌∷◌,
  ◌==◌, arith,
}
use guppylang.Cfg.Graph.{update}
use guppylang.Collections.Buffer.{Buffer}

module _ {E : Type 0} where
  abbrev pub also : Option E → List E → List E
  also none es = es
  also (some e) es = e ∷ es

  -- The entries in the first `n` slots.
  unfoldable pub contents : Buffer E → ℕ → List E
  contents buf zero = []
  contents buf (suc n) = also (buf n) (contents buf n)

  pub contents-frame :
      (buf buf' : Buffer E) (n : ℕ)
      → ((j : ℕ) → j < n → buf j ≡ buf' j)
      → contents buf n ≡ contents buf' n
  unfolding contents
  contents-frame buf buf' zero h = refl
  contents-frame buf buf' (suc n) h =
      rw (h n (omega arith), contents-frame buf buf' n (λ j m. h j (omega arith)))

  also-perm :
      (o : Option E) (x : E) {xs ys : List E} → Perm xs (x ∷ ys) → Perm (also o xs) (x ∷ also o ys)
  also-perm none x p = p
  also-perm (some y) x p = Perm.trans (Perm.cons y p) (Perm.swap x y _)

  pub contents-put :
      (buf : Buffer E) (i n : ℕ) (x : E)
      → i < n
      → buf i ≡ none
      → Perm (contents (update buf i (some x)) n) (x ∷ contents buf n)
  unfolding contents
  contents-put buf i zero x m free = absurd (omega arith)
  contents-put buf i (suc n) x m free = elim (Bool-cases (n == i)) [
    | inl same ↦
        let free' : buf n ≡ none = rw (==→eq n i same) free in
        let frame : contents (update buf i (some x)) n ≡ contents buf n =
          contents-frame _ buf n (λ j l. ground arith) in
        rw (same, free', frame) Perm.rfl
    | inr other ↦ rw other (also-perm (buf n) x (contents-put buf i n x (ground arith) free))
  ]

  pub contents-take :
      (buf : Buffer E) (i n : ℕ) (x : E)
      → i < n
      → buf i ≡ some x
      → Perm (contents buf n) (x ∷ contents (update buf i none) n)
  unfolding contents
  contents-take buf i zero x m full = absurd (omega arith)
  contents-take buf i (suc n) x m full = elim (Bool-cases (n == i)) [
    | inl same ↦
        let full' : buf n ≡ some x = rw (==→eq n i same) full in
        let frame : contents (update buf i none) n ≡ contents buf n =
          contents-frame _ buf n (λ j l. ground arith) in
        rw (same, full', frame) Perm.rfl
    | inr other ↦ rw other (also-perm (buf n) x (contents-take buf i n x (ground arith) full))
  ]
