-- ===== src/Collections/PriorityQueue/Down.antt =====
-- The loop of `pop`.
use mathlib.Core.List.Perm
use mathlib.Core.Path.{fun_ext, subst}
use mathlib.Core.List.{Perm}
use guppylang.Common.{
  ℕ, zero, suc, ◌+◌, ◌*◌, ◌<◌, ◌≤◌, ◌≡◌, ◌≢◌, refl, sym, ◌∙◌, Bool-cases, ==→eq, inl, inr, true,
  false, none, some, if◌then◌else◌, ◌==◌, ltb, leb, arith,
}
use guppylang.Common.Run.{ok, ◌>>=◌, Gives, gives, Gives-map, Gives-if, Gives-bind}
use guppylang.Cfg.Graph.{update}
use guppylang.Collections.Buffer.{Buffer, int_limit, add, mul, add-small, put}
use guppylang.Collections.PriorityQueue.{Entry, parent, take_child, sift_down}
use guppylang.Collections.PriorityQueue.Contents.{contents, contents-take, contents-put}
use guppylang.Collections.PriorityQueue.Order.{key, is_some, IsBridged, entry_of}

-- Slot `l` was emptied and filled again, `r` stays empty.
restored :
    {E : Type 0} (buf : Buffer E) (l r : ℕ) (x : E)
    → buf l ≡ some x
    → (r == l) ≡ false
    → (c : ℕ) → update (update (update buf l none) r none) l (some x) c ≡ update buf r none c
restored buf l r x at_l apart c = elim (Bool-cases (c == l)) [
  | inl same ↦
      let other : (c == r) ≡ false = ground arith in
      rw (same, other) (sym (rw (==→eq c l same) at_l))
  | inr off ↦ rw off refl
]

-- Slot `r` was emptied and filled again.
returned :
    {E : Type 0} (buf : Buffer E) (r : ℕ) (x : E)
    → buf r ≡ some x
    → (c : ℕ) → update (update buf r none) r (some x) c ≡ buf c
returned buf r x at_r c = elim (Bool-cases (c == r)) [
  | inl same ↦ rw same (sym (rw (==→eq c r same) at_r))
  | inr off ↦ rw off refl
]

left_of :
    (max_size n i : ℕ)
    → i < n
    → n ≤ max_size
    → 2 * max_size ≤ int_limit
    → add (mul 2 i) 1 ≡ 2 * i + 1
unfolding mul
left_of max_size n i m b fits =
    let doubled : mul 2 i ≡ 2 * i = omega arith in rw doubled (add-small (2 * i) 1 (omega arith))

module _ {T : Type 0} (max_size n : ℕ) where
  -- Of the first `n` slots only `i` is free.
  pub record IsHole (buf : Buffer (Entry T)) (i : ℕ) : Type 0 where
    pub inside : i < n
    pub bounded : n ≤ max_size
    pub hole : buf i ≡ none
    pub filled : (c : ℕ) → c < n → c ≢ i → is_some (buf c) ≡ true
    pub free : (c : ℕ) → n ≤ c → c < max_size → buf c ≡ none

  -- An entry of priority `p` may be too high for the slot `i`.
  pub record DownInv (p : ℕ) (buf : Buffer (Entry T)) (i : ℕ) : Type 0 where
    pub slots : IsHole buf i
    pub edges : (c : ℕ) → 0 < c → c < n → c ≢ i → parent c ≢ i → key buf (parent c) ≤ key buf c
    pub above : 0 < i → key buf (parent i) ≤ p
    pub bridged : IsBridged n buf i

  -- It fits the slot `i`.
  pub record Fits (p : ℕ) (old : Buffer (Entry T)) (i : ℕ) (buf : Buffer (Entry T)) : Type 0 where
    pub inv : DownInv p buf i
    pub below : (c : ℕ) → 0 < c → c < n → parent c ≡ i → p ≤ key buf c
    pub same : Perm (contents buf n) (contents old n)

  -- The child that `pop` compares: the least one, taken out of the buffer.
  record Child (buf : Buffer (Entry T)) (i : ℕ) (r : ℕ × Entry T × Buffer (Entry T)) : Type 0 where
    is_child : parent r.0 ≡ i
    later : i < r.0
    within : r.0 < n
    full : buf r.0 ≡ some (r.1)
    least : (c : ℕ) → 0 < c → c < n → parent c ≡ i → r.1.0 ≤ key buf c
    taken : r.2 ≡ update buf r.0 none

  module _ (buf : Buffer (Entry T)) (i : ℕ) (h : IsHole buf i) (fits : 2 * max_size ≤ int_limit)
      (left_in : 2 * i + 1 < n) (x : Entry T) (at_left : buf (2 * i + 1) ≡ some x) where
    right_is : add (2 * i + 1) 1 ≡ 2 * i + 2
    right_is = add-small (2 * i + 1) 1 (omega (arith, h.bounded)) ∙ omega arith

    key_left : key buf (2 * i + 1) ≡ x.0
    key_left = rw (at_left, key) refl

    left_slot : ltb (2 * i + 1) max_size ≡ true
    left_slot = ground (arith, h.bounded)

    only-Child :
        ltb (2 * i + 2) n ≡ false → Gives (Child buf i) (take_child max_size buf n (2 * i + 1))
    unfolding take_child
    only-Child none_right =
        rw (right_is, none_right, left_slot, at_left)
          (gives (record {
            is_child = omega arith;
            later = omega arith;
            within = left_in;
            full = at_left;
            least = λ c p q e. ground (arith, key_left);
            taken = refl;
          }))

    two_children :
        (y : Entry T)
        → buf (2 * i + 2) ≡ some y
        → 2 * i + 2 < n
        → Gives (Child buf i) (take_child max_size buf n (2 * i + 1))
    unfolding take_child
    two_children y at_right right_in =
        let is_right : ltb (2 * i + 2) n ≡ true = ground arith in
        let right_slot : ltb (2 * i + 2) max_size ≡ true = ground (arith, h.bounded) in
        let apart : (2 * i + 2 == 2 * i + 1) ≡ false = ground arith in
        let apart' : (2 * i + 1 == 2 * i + 2) ≡ false = ground arith in
        let here : (2 * i + 1 == 2 * i + 1) ≡ true = ground arith in
        let here' : (2 * i + 2 == 2 * i + 2) ≡ true = ground arith in
        let key_right : key buf (2 * i + 2) ≡ y.0 = rw (at_right, key) refl in
        rw
          (right_is, is_right, left_slot, at_left, right_slot, apart, at_right, apart', here, here')
          (Gives-if (ltb y.0 x.0)
            (λ less. gives (record {
              is_child = omega arith;
              later = omega arith;
              within = right_in;
              full = at_right;
              least = λ c p q e. ground (arith, key_left, key_right);
              taken = fun_ext (λ c. restored buf (2 * i + 1) (2 * i + 2) x at_left apart c);
            }))
            (λ more. gives (record {
              is_child = omega arith;
              later = omega arith;
              within = left_in;
              full = at_left;
              least = λ c p q e. ground (arith, key_left, key_right);
              taken =
                  fun_ext (λ c.
                    returned (update buf (2 * i + 1) none) (2 * i + 2) y (rw apart at_right) c);
            })))

  take_child-Child :
      (buf : Buffer (Entry T)) (i : ℕ)
      → IsHole buf i
      → 2 * max_size ≤ int_limit
      → 2 * i + 1 < n
      → Gives (Child buf i) (take_child max_size buf n (2 * i + 1))
  take_child-Child buf i h fits left_in =
      let (x, at_left) = entry_of (buf (2 * i + 1)) (h.filled (2 * i + 1) left_in (omega arith)) in
      elim (Bool-cases (ltb (2 * i + 2) n)) [
        | inl both ↦
            let (y, at_right) =
              entry_of (buf (2 * i + 2)) (h.filled (2 * i + 2) (ground arith) (omega arith)) in
            two_children buf i h fits left_in x at_left y at_right (ground arith)
        | inr one ↦ only-Child buf i h fits left_in x at_left one
      ]

  -- The buffer after the child `e` in slot `c` has moved to the slot `i`.
  moved : Buffer (Entry T) → ℕ → ℕ → Entry T → Buffer (Entry T)
  moved buf i c e = update (update buf c none) i (some e)

  key-moved :
      (buf : Buffer (Entry T)) (i c : ℕ) (e : Entry T) (d : ℕ)
      → (i == c) ≡ false
      → key (moved buf i c e) d ≡ (if d == i then e.0 else if d == c then 0 else key buf d)
  unfolding moved
  key-moved buf i c e d apart = elim (Bool-cases (d == i)) [
    | inl at_i ↦ rw (at_i, key) refl
    | inr other ↦ elim (Bool-cases (d == c)) [
      | inl at_c ↦ rw (other, at_c, key) refl
      | inr off ↦ rw (other, off, key) refl
    ]
  ]

  module _ (p : ℕ) (buf : Buffer (Entry T)) (i : ℕ) (v : DownInv p buf i) (c : ℕ) (e : Entry T)
      (is_child : parent c ≡ i) (later : i < c) (within : c < n) (full : buf c ≡ some e)
      (least : (d : ℕ) → 0 < d → d < n → parent d ≡ i → e.0 ≤ key buf d) where
    apart : (i == c) ≡ false
    apart = ground arith

    key_c : key buf c ≡ e.0
    key_c = rw (full, key) refl

    moved-IsHole : IsHole (moved buf i c e) c
    unfolding moved
    moved-IsHole = record {
      inside = within;
      bounded = v.slots.bounded;
      hole = ground (arith, apart);
      filled = λ d m off. ground (arith, v.slots.filled d m);
      free = λ d q r. ground (arith, v.slots.free d q r, v.slots.inside);
    }

    moved-DownInv : e.0 < p → DownInv p (moved buf i c e) c
    moved-DownInv less =
        let at = λ (d : ℕ). key-moved buf i c e d apart in
        record {
          slots = moved-IsHole;
          edges = λ d q r off off'.
              ground (arith, at d, at (parent d), v.edges d, v.above, v.bridged c, least d, key_c);
          above = λ _. ground (arith, at (parent c), is_child);
          bridged = λ d q r at_c _. ground (arith, at d, at (parent c), v.edges d, key_c);
        }

    moved-perm : Perm (contents (moved buf i c e) n) (contents buf n)
    unfolding moved
    moved-perm =
        let out = contents-take buf c n e within full in
        let inn =
          contents-put (update buf c none) i n e v.slots.inside (rw (apart, v.slots.hole) refl) in
        Perm.trans inn (Perm.symm out)

    -- Putting the child back leaves the buffer as it was.
    kept : update (update buf c none) c (some e) ≡ buf
    kept = fun_ext (λ d. returned buf c e full d)

    -- What follows the choice of the child, if the loop does its work from the child on.
    descend :
        (fuel : ℕ)
        → (DownInv p (moved buf i c e) c
            → Gives
                (λ r. Fits p (moved buf i c e) r.0 r.1)
                (sift_down max_size fuel (moved buf i c e) n p c))
        → Gives
            (λ r. Fits p buf r.0 r.1)
            (if leb p e.0
              then put max_size (update buf c none) c e >>= (λ b. ok (i, b))
              else put max_size (update buf c none) i e >>= (λ b. sift_down max_size fuel b n p c))
    unfolding moved
    descend fuel onward =
        let slot : ltb c max_size ≡ true = ground (arith, v.slots.bounded) in
        let slot' : ltb i max_size ≡ true = ground (arith, v.slots.bounded, v.slots.inside) in
        let here : (c == c) ≡ true = ground arith in
        rw (slot, slot', here, apart, v.slots.hole)
          (Gives-if (leb p e.0)
            (λ fits. gives (
              subst (Fits p buf i) (sym kept) (record {
                inv = v;
                below = λ d q r at_d. ground (arith, least d);
                same = Perm.rfl;
              })))
            (λ less. Gives-map (onward (moved-DownInv (ground arith))) (λ r h. record {
              inv = h.inv;
              below = h.below;
              same = Perm.trans h.same moved-perm;
            })))

  -- The loop of `pop` finds a slot that the displaced entry fits.
  pub sift_down-Fits :
      (fuel p : ℕ) (buf : Buffer (Entry T)) (i : ℕ)
      → 2 * max_size ≤ int_limit
      → n ≤ i + fuel
      → DownInv p buf i
      → Gives (λ r. Fits p buf r.0 r.1) (sift_down max_size fuel buf n p i)
  unfolding sift_down
  sift_down-Fits zero p buf i fits f v = absurd (omega (arith, v.slots.inside))
  sift_down-Fits (suc fuel) p buf i fits f v =
      rw (left_of max_size n i v.slots.inside v.slots.bounded fits) (
        Gives-if (leb n (2 * i + 1))
          (λ leaf.
            gives (record { inv = v; below = λ c q r e. absurd (ground arith); same = Perm.rfl }))
          (λ inner. Gives-bind (take_child-Child buf i v.slots fits (ground arith)) (λ (c, e, b) h.
            rw h.taken (
              descend p buf i v c e h.is_child h.later h.within h.full h.least fuel
                (sift_down-Fits fuel p (moved buf i c e) c fits (omega (arith, h.later)))))))
