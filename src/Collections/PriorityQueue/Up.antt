-- ===== src/Collections/PriorityQueue/Up.antt =====
-- The loop of `push`.
use mathlib.Core.List.Perm
use mathlib.Core.List.{Perm}
use guppylang.Common.{
  ℕ, zero, suc, ◌<◌, ◌≤◌, ◌≡◌, ◌≢◌, refl, ◌∙◌, ◌||◌, Bool-cases, inl, inr, true, false, none, some,
  if◌then◌else◌, ◌==◌, ltb, leb, arith,
}
use guppylang.Common.Run.{Gives, gives, Gives-map, Gives-if}
use guppylang.Cfg.Graph.{update}
use guppylang.Collections.Buffer.{Buffer}
use guppylang.Collections.PriorityQueue.{Entry, parent, sift_up}
use guppylang.Collections.PriorityQueue.Contents.{
  contents, contents-take, contents-put, contents-frame,
}
use guppylang.Collections.PriorityQueue.Order.{key, is_some, IsFilled, IsHeap, IsBridged, entry_of}

module _ {T : Type 0} where
  -- The buffer after both entries were taken out and put in again.
  exchanged : Buffer (Entry T) → ℕ → ℕ → Entry T → Entry T → Buffer (Entry T)
  exchanged buf i j x y = update (update (update (update buf i none) j none) i (some x)) j (some y)

  key-exchanged :
      (buf : Buffer (Entry T)) (i j : ℕ) (x y : Entry T) (c : ℕ)
      → key (exchanged buf i j x y) c ≡ (if c == j then y.0 else if c == i then x.0 else key buf c)
  unfolding exchanged
  key-exchanged buf i j x y c = elim (Bool-cases (c == j)) [
    | inl at_j ↦ rw (at_j, key) refl
    | inr other ↦ elim (Bool-cases (c == i)) [
      | inl at_i ↦ rw (other, at_i, key) refl
      | inr off ↦ rw (other, off, key) refl
    ]
  ]

  is_some-exchanged :
      (buf : Buffer (Entry T)) (i j : ℕ) (x y : Entry T) (c : ℕ)
      → is_some (exchanged buf i j x y c) ≡ (c == j || c == i || is_some (buf c))
  unfolding exchanged
  is_some-exchanged buf i j x y c = ground arith

  exchanged_ne :
      (buf : Buffer (Entry T)) (i j : ℕ) (x y : Entry T) (c : ℕ)
      → (c == i) ≡ false
      → (c == j) ≡ false
      → exchanged buf i j x y c ≡ buf c
  unfolding exchanged
  exchanged_ne buf i j x y c at_i at_j = rw (at_i, at_j)

module _ {T : Type 0} (max_size n : ℕ) where
  -- Only the edge above `i` may be out of order.
  pub record UpInv (buf : Buffer (Entry T)) (i : ℕ) : Type 0 where
    pub inside : i < n
    pub slots : IsFilled max_size n buf
    pub edges : (c : ℕ) → 0 < c → c < n → c ≢ i → key buf (parent c) ≤ key buf c
    pub bridged : IsBridged n buf i

  -- A heap of the same entries.
  pub record Sifted (old buf : Buffer (Entry T)) : Type 0 where
    pub slots : IsFilled max_size n buf
    pub heap : IsHeap n buf
    pub same : Perm (contents buf n) (contents old n)

  exchanged-perm :
      (buf : Buffer (Entry T)) (i j : ℕ) (x y : Entry T)
      → i < n
      → j < n
      → (j == i) ≡ false
      → buf i ≡ some x
      → buf j ≡ some y
      → Perm (contents (exchanged buf i j y x) n) (contents buf n)
  unfolding exchanged
  exchanged-perm buf i j x y hi hj apart at_i at_j =
      let out_i = contents-take buf i n x hi at_i in
      let out_j = contents-take (update buf i none) j n y hj (ground arith) in
      let in_i = contents-put (update (update buf i none) j none) i n y hi (ground arith) in
      let in_j =
        contents-put (update (update (update buf i none) j none) i (some y)) j n x hj
          (ground arith) in
      Perm.trans in_j
        (Perm.trans (Perm.cons x in_i) (Perm.symm (Perm.trans out_i (Perm.cons x out_j))))

  restored-perm :
      (buf : Buffer (Entry T)) (i j : ℕ) (x y : Entry T)
      → i < n
      → j < n
      → (j == i) ≡ false
      → buf i ≡ some x
      → buf j ≡ some y
      → Perm (contents (exchanged buf i j x y) n) (contents buf n)
  unfolding exchanged
  restored-perm buf i j x y hi hj apart at_i at_j =
      let same : contents (exchanged buf i j x y) n ≡ contents buf n =
        contents-frame (exchanged buf i j x y) buf n (λ c m. ground (arith, at_i, at_j)) in
      rw same Perm.rfl

  module _ (buf : Buffer (Entry T)) (i : ℕ) (x y : Entry T) (v : UpInv buf i)
      (at_i : buf i ≡ some x) (at_p : buf (parent i) ≡ some y) (above : parent i < n)
      (apart : (parent i == i) ≡ false) where
    key_i : key buf i ≡ x.0
    key_i = rw (at_i, key) refl

    key_p : key buf (parent i) ≡ y.0
    key_p = rw (at_p, key) refl

    slots : (u w : Entry T) → IsFilled max_size n (exchanged buf i (parent i) u w)
    slots u w = record {
      bounded = v.slots.bounded;
      filled = λ c m. ground (arith, v.slots.filled c m, is_some-exchanged buf i (parent i) u w c);
      free = λ c p q.
          exchanged_ne buf i (parent i) u w c (ground (arith, v.inside)) (ground (arith, v.inside))
          ∙ v.slots.free c p q;
    }

    settled : y.0 ≤ x.0 → Sifted buf (exchanged buf i (parent i) x y)
    settled ordered =
        let at = key-exchanged buf i (parent i) x y in
        record {
          slots = slots x y;
          heap = λ c p q. ground (arith, at c, at (parent c), key_i, key_p, v.edges c);
          same = restored-perm buf i (parent i) x y v.inside above apart at_i at_p;
        }

    risen : x.0 < y.0 → UpInv (exchanged buf i (parent i) y x) (parent i)
    risen below =
        let at = key-exchanged buf i (parent i) y x in
        record {
          inside = above;
          slots = slots y x;
          edges =
              λ c p q r. ground (arith, at c, at (parent c), key_i, key_p, v.edges c, v.bridged c);
          bridged = λ c p q r t.
              ground
                (arith, at c, at (parent (parent i)), key_i, key_p, v.edges c, v.edges (parent i));
        }

    -- One round, if the loop does its work from the parent on.
    round :
        (fuel : ℕ)
        → 0 < i
        → (UpInv (exchanged buf i (parent i) y x) (parent i)
            → Gives
                (Sifted (exchanged buf i (parent i) y x))
                (sift_up max_size fuel (exchanged buf i (parent i) y x) (parent i)))
        → Gives (Sifted buf) (sift_up max_size (suc fuel) buf i)
    unfolding sift_up exchanged
    round fuel pos onward =
        let pos' : ltb 0 i ≡ true = ground arith in
        let apart' : (i == parent i) ≡ false = ground arith in
        let in_i : ltb i max_size ≡ true = ground (arith, v.inside, v.slots.bounded) in
        let in_p : ltb (parent i) max_size ≡ true = ground (arith, v.slots.bounded) in
        let here : (i == i) ≡ true = ground arith in
        let here' : (parent i == parent i) ≡ true = ground arith in
        rw (pos', in_i, at_i, in_p, apart, at_p, apart', here, here', apart)
          (Gives-if (leb y.0 x.0) (λ ordered. gives (settled (ground arith)))
            (λ below. Gives-map (onward (risen (ground arith))) (λ b s. record {
              slots = s.slots;
              heap = s.heap;
              same =
                  Perm.trans s.same
                    (exchanged-perm buf i (parent i) x y v.inside above apart at_i at_p);
            })))

  -- The loop of `push` turns a buffer with one entry too low in the tree into a heap of the same
  -- entries.
  pub sift_up-Sifted :
      (fuel : ℕ) (buf : Buffer (Entry T)) (i : ℕ)
      → i < fuel
      → UpInv buf i
      → Gives (Sifted buf) (sift_up max_size fuel buf i)
  unfolding sift_up
  sift_up-Sifted zero buf i f v = absurd (omega arith)
  sift_up-Sifted (suc fuel) buf i f v = elim (Bool-cases (ltb 0 i)) [
    | inl pos ↦
        let (x, at_i) = entry_of (buf i) (v.slots.filled i v.inside) in
        let above : parent i < n = ground (arith, v.inside) in
        let (y, at_p) = entry_of (buf (parent i)) (v.slots.filled (parent i) above) in
        round buf i x y v at_i at_p above (ground arith) fuel (ground arith)
          (sift_up-Sifted fuel (exchanged buf i (parent i) y x) (parent i) (ground arith))
    | inr root ↦
        rw (sift_up, root)
          (gives (record {
            slots = v.slots;
            heap = λ c p q. v.edges c p q (ground arith);
            same = Perm.rfl;
          }))
  ]
