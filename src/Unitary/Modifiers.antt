-- ===== src/Unitary/Modifiers.antt =====
-- `Modifiers` of guppylang-internals/src/guppylang_internals/nodes.py, and the flags that
-- `visit_With` of cfg/builder.py gives a block.
pub mod Nested
use guppylang.Common.{
  ℕ, suc, ◌+◌, ◌%◌, ◌≡◌, refl, Bool, true, false, not, ◌&&◌, ◌||◌, List, [], ◌∷◌, ◌++◌, length, any,
  ltb, ◌==◌, if◌then◌else◌, arith, length-append,
}
use guppylang.Unitary.{UnitaryFlags, no_flags, control_flag, dagger_flag, flag_union, accumulate}

-- A modifier of a `with` block; a control has the number of its control arguments.
pub data Modifier : Type 0 where
  dagger_modifier : Modifier
  control_modifier : ℕ → Modifier
  power_modifier : Modifier

pub record Modifiers : Type 0 where
  pub dagger : List Modifier
  pub control : List ℕ
  pub power : List Modifier

abbrev pub no_modifiers : Modifiers
no_modifiers = record { dagger = []; control = []; power = [] }

unfoldable pub push : Modifiers → Modifier → Modifiers
push ms dagger_modifier = record ms { dagger = ms.dagger ++ dagger_modifier ∷ [] }
push ms (control_modifier n) = record ms { control = ms.control ++ n ∷ [] }
push ms power_modifier = record ms { power = ms.power ++ power_modifier ∷ [] }

abbrev pub has_dagger : Modifiers → Bool
has_dagger ms = length ms.dagger % 2 == 1

abbrev pub has_control : Modifiers → Bool
has_control ms = any (λ n. ltb 0 n) ms.control

abbrev pub has_power : Modifiers → Bool
has_power ms = ltb 0 (length ms.power)

unfoldable pub flags : Modifiers → UnitaryFlags
flags ms =
    let with_dagger = if has_dagger ms then flag_union no_flags dagger_flag else no_flags in
    if has_control ms then flag_union with_dagger control_flag else with_dagger

-- The items of one `with` statement.
unfoldable pub push_all : Modifiers → List Modifier → Modifiers
push_all ms [] = ms
push_all ms (m ∷ rest) = push_all (push ms m) rest

-- `accumulated_flags` of a block, from those of the block around it.
unfoldable pub block_flags : UnitaryFlags → UnitaryFlags → List Modifier → UnitaryFlags
block_flags function_flags outer items =
    flag_union (accumulate outer (flags (push_all no_modifiers items))) function_flags

-- The flags of the innermost of nested blocks, outermost first.
unfoldable pub nested_flags : UnitaryFlags → UnitaryFlags → List (List Modifier) → UnitaryFlags
nested_flags function_flags outer [] = outer
nested_flags function_flags outer (items ∷ blocks) =
    nested_flags function_flags (block_flags function_flags outer items) blocks
