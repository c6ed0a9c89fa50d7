-- ===== src/Unitary/Modifiers/Nested.antt =====
-- The flags of nested `with` blocks against the modifiers around them.
use guppylang.Common.{
  ℕ, suc, ◌+◌, ◌%◌, ◌≡◌, refl, Bool, true, false, not, ◌||◌, List, [], ◌∷◌, ◌++◌, length, any, ltb,
  ◌==◌, arith, length-append,
}
use guppylang.Unitary.{UnitaryFlags, implies, no_flags, accumulate}
use guppylang.Unitary.Modifiers.{
  Modifier, dagger_modifier, control_modifier, power_modifier, Modifiers, no_modifiers, push,
  push_all, has_control, flags, block_flags, nested_flags,
}

-- How many daggers stand in a list of modifiers, and whether one controls by a qubit.
abbrev pub daggers : List Modifier → ℕ
daggers [] = 0
daggers (dagger_modifier ∷ ms) = suc (daggers ms)
daggers (control_modifier _ ∷ ms) = daggers ms
daggers (power_modifier ∷ ms) = daggers ms

abbrev pub controls : List Modifier → Bool
controls [] = false
controls (dagger_modifier ∷ ms) = controls ms
controls (control_modifier n ∷ ms) = ltb 0 n || controls ms
controls (power_modifier ∷ ms) = controls ms

abbrev pub all_items : List (List Modifier) → List Modifier
all_items [] = []
all_items (items ∷ blocks) = items ++ all_items blocks

any-append {ℓ} :
    {A : Type ℓ} (p : A → Bool) (xs ys : List A) → any p (xs ++ ys) ≡ (any p xs || any p ys)
any-append p [] ys = refl
any-append p (x ∷ xs) ys = ground (arith, any-append p xs ys)

push_all-control :
    (ms : Modifiers) (items : List Modifier)
    → has_control (push_all ms items) ≡ (has_control ms || controls items)
unfolding push_all push
push_all-control ms [] = ground arith
push_all-control ms (dagger_modifier ∷ items) = push_all-control (push ms dagger_modifier) items
push_all-control ms (control_modifier n ∷ items) = ground (
  arith,
  push_all-control (push ms (control_modifier n)) items,
  any-append (λ k. ltb 0 k) ms.control (n ∷ []),
)
push_all-control ms (power_modifier ∷ items) = push_all-control (push ms power_modifier) items

push_all-dagger :
    (ms : Modifiers) (items : List Modifier)
    → length (push_all ms items).dagger ≡ length ms.dagger + daggers items
unfolding push_all push
push_all-dagger ms [] = omega arith
push_all-dagger ms (dagger_modifier ∷ items) = omega (
  arith,
  push_all-dagger (push ms dagger_modifier) items,
  length-append ms.dagger (dagger_modifier ∷ []),
)
push_all-dagger ms (control_modifier n ∷ items) =
    push_all-dagger (push ms (control_modifier n)) items
push_all-dagger ms (power_modifier ∷ items) = push_all-dagger (push ms power_modifier) items

-- An odd number of daggers.
abbrev pub odd : ℕ → Bool
odd n = n % 2 == 1

flags_lem :
    (items : List Modifier)
    → ((flags (push_all no_modifiers items)).dagger ≡ odd (daggers items))
      × ((flags (push_all no_modifiers items)).control ≡ controls items)
unfolding flags
flags_lem items =
    let d = push_all-dagger no_modifiers items in
    let c = push_all-control no_modifiers items in (ground (arith, d, c), ground (arith, d, c))

either : Bool → Bool → Bool
either true b = not b
either false b = b

odd-add : (m n : ℕ) → odd (m + n) ≡ either (odd m) (odd n)
unfolding either
odd-add m n = ground arith

daggers-append : (xs ys : List Modifier) → daggers (xs ++ ys) ≡ daggers xs + daggers ys
daggers-append [] ys = omega arith
daggers-append (dagger_modifier ∷ xs) ys = omega (arith, daggers-append xs ys)
daggers-append (control_modifier _ ∷ xs) ys = daggers-append xs ys
daggers-append (power_modifier ∷ xs) ys = daggers-append xs ys

controls-append : (xs ys : List Modifier) → controls (xs ++ ys) ≡ (controls xs || controls ys)
controls-append [] ys = refl
controls-append (dagger_modifier ∷ xs) ys = controls-append xs ys
controls-append (control_modifier n ∷ xs) ys = ground (arith, controls-append xs ys)
controls-append (power_modifier ∷ xs) ys = controls-append xs ys

block_flags_lem :
    (f outer : UnitaryFlags) (items : List Modifier)
    → ((block_flags f outer items).dagger ≡ (f.dagger || either outer.dagger (odd (daggers items))))
      × ((block_flags f outer items).control ≡ (f.control || outer.control || controls items))
unfolding block_flags accumulate either
block_flags_lem f outer items =
    let l = flags_lem items in (ground (arith, l.0, l.1), ground (arith, l.0, l.1))

nested_flags_within :
    (f outer : UnitaryFlags) (blocks : List (List Modifier))
    → implies f.dagger outer.dagger ≡ true
    → implies f.control outer.control ≡ true
    → ((nested_flags f outer blocks).dagger
        ≡ (f.dagger || either outer.dagger (odd (daggers (all_items blocks)))))
      × ((nested_flags f outer blocks).control ≡ (outer.control || controls (all_items blocks)))
unfolding nested_flags either
nested_flags_within f outer [] d c = (ground arith, ground arith)
nested_flags_within f outer (items ∷ blocks) d c =
    let b = block_flags_lem f outer items in
    let r =
      nested_flags_within f (block_flags f outer items) blocks (ground (arith, b.0))
        (ground (arith, b.1)) in
    let count = daggers-append items (all_items blocks) in
    let parity = odd-add (daggers items) (daggers (all_items blocks)) in
    (
      ground (arith, b.0, r.0, count, parity),
      ground (arith, b.1, r.1, controls-append items (all_items blocks)),
    )

-- The innermost of nested blocks is under a dagger if the function is declared so or the number of
-- daggers around it is odd, and under a control if the function is declared so or a control around
-- it has a control argument.
pub nested_flags_lem :
    (f : UnitaryFlags) (items : List Modifier) (blocks : List (List Modifier))
    → ((nested_flags f no_flags (items ∷ blocks)).dagger
        ≡ (f.dagger || odd (daggers (all_items (items ∷ blocks)))))
      × ((nested_flags f no_flags (items ∷ blocks)).control
          ≡ (f.control || controls (all_items (items ∷ blocks))))
unfolding nested_flags either
nested_flags_lem f items blocks =
    let b = block_flags_lem f no_flags items in
    let r =
      nested_flags_within f (block_flags f no_flags items) blocks (ground (arith, b.0))
        (ground (arith, b.1)) in
    let count = daggers-append items (all_items blocks) in
    let parity = odd-add (daggers items) (daggers (all_items blocks)) in
    (
      ground (arith, b.0, r.0, count, parity),
      ground (arith, b.1, r.1, controls-append items (all_items blocks)),
    )
