-- ===== src/Collections/PriorityQueue/Order.antt =====
-- The heap order of a buffer.
use guppylang.Common.{
  ℕ, zero, suc, ◌<◌, ◌≤◌, ◌≡◌, refl, Bool, Bool-cases, inl, inr, true, false, Option, none, some,
  if◌then◌else◌, ◌==◌, ltb, arith,
}
use guppylang.Common.Run.{ok}
use guppylang.Cfg.Graph.{update}
use guppylang.Collections.Buffer.{Buffer, take, put}
use guppylang.Collections.PriorityQueue.{Entry, parent}

abbrev pub is_some : {E : Type 0} → Option E → Bool
is_some none = false
is_some (some _) = true

pub entry_of : {E : Type 0} (o : Option E) → is_some o ≡ true → (e : E) × (o ≡ some e)
entry_of none h = cc
entry_of (some e) h = (e, refl)

module _ {T : Type 0} where
  abbrev pub key : Buffer (Entry T) → ℕ → ℕ
  key buf i = elim (buf i) [ none ↦ 0 | some e ↦ e.0 ]

  -- The first `n` slots are filled and the others up to `max_size` are free.
  pub record IsFilled (max_size n : ℕ) (buf : Buffer (Entry T)) : Type 0 where
    pub bounded : n ≤ max_size
    pub filled : (i : ℕ) → i < n → is_some (buf i) ≡ true
    pub free : (i : ℕ) → n ≤ i → i < max_size → buf i ≡ none

  -- No entry comes before its parent.
  abbrev pub IsHeap : ℕ → Buffer (Entry T) → Type 0
  IsHeap n buf = (c : ℕ) → 0 < c → c < n → key buf (parent c) ≤ key buf c

  -- The children of `i` do not come before its parent.
  abbrev pub IsBridged : ℕ → Buffer (Entry T) → ℕ → Type 0
  IsBridged n buf i =
      (c : ℕ) → 0 < c → c < n → parent c ≡ i → 0 < i → key buf (parent i) ≤ key buf c

  root_least_below :
      (k n : ℕ) (buf : Buffer (Entry T)) (i : ℕ)
      → IsHeap n buf
      → i < k
      → i < n
      → key buf 0 ≤ key buf i
  root_least_below zero n buf i h f p = absurd (omega arith)
  root_least_below (suc k) n buf i h f p =
      ground (arith, h i, root_least_below k n buf (parent i) h)

  pub root_least :
      (n : ℕ) (buf : Buffer (Entry T)) (i : ℕ) → IsHeap n buf → i < n → key buf 0 ≤ key buf i
  root_least n buf i h p = root_least_below (suc i) n buf i h (omega arith) p

  pub take-some :
      (max_size : ℕ) (buf : Buffer (Entry T)) (i : ℕ) (e : Entry T)
      → i < max_size
      → buf i ≡ some e
      → take max_size buf i ≡ ok (e, update buf i none)
  take-some max_size buf i e m full =
      let inside : ltb i max_size ≡ true = ground arith in rw (inside, full)

  pub put-none :
      (max_size : ℕ) (buf : Buffer (Entry T)) (i : ℕ) (e : Entry T)
      → i < max_size
      → buf i ≡ none
      → put max_size buf i e ≡ ok (update buf i (some e))
  put-none max_size buf i e m free =
      let inside : ltb i max_size ≡ true = ground arith in rw (inside, free)

  pub key-update_self :
      (buf : Buffer (Entry T)) (i : ℕ) (e : Entry T) → key (update buf i (some e)) i ≡ e.0
  key-update_self buf i e = let here : (i == i) ≡ true = ground arith in rw (here, key) refl

  pub key-update_ne :
      (buf : Buffer (Entry T)) (i c : ℕ) (o : Option (Entry T))
      → (c == i) ≡ false
      → key (update buf i o) c ≡ key buf c
  key-update_ne buf i c o off = rw (off, key) refl

  pub key-update :
      (buf : Buffer (Entry T)) (i c : ℕ) (e : Entry T)
      → key (update buf i (some e)) c ≡ (if c == i then e.0 else key buf c)
  key-update buf i c e = elim (Bool-cases (c == i)) [
    | inl here ↦ rw (here, key) refl
    | inr off ↦ rw (off, key) refl
  ]
