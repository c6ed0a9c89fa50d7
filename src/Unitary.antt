-- ===== src/Unitary.antt =====
-- `UnitaryFlags` of guppylang-internals/src/guppylang_internals/tys/ty.py.
pub mod Modifiers
pub mod Checker
pub mod Samples
use guppylang.Common.{Bool, true, false, not, ◌&&◌, ◌||◌, Option, none, some, String, if◌then◌else◌}

-- The two bits of the flag.
pub record UnitaryFlags : Type 0 where
  pub control : Bool
  pub dagger : Bool

abbrev pub no_flags : UnitaryFlags
no_flags = record { control = false; dagger = false }

abbrev pub control_flag : UnitaryFlags
control_flag = record { control = true; dagger = false }

abbrev pub dagger_flag : UnitaryFlags
dagger_flag = record { control = false; dagger = true }

abbrev pub unitary_flag : UnitaryFlags
unitary_flag = record { control = true; dagger = true }

abbrev pub implies : Bool → Bool → Bool
implies a b = not a || b

abbrev pub same_bit : Bool → Bool → Bool
same_bit true b = b
same_bit false b = not b

-- `f in g`: all bits of `f` are bits of `g`.
abbrev pub is_in : UnitaryFlags → UnitaryFlags → Bool
is_in f g = implies f.control g.control && implies f.dagger g.dagger

-- `f == g`, `f | g`, `f & ~g`
abbrev pub same_flags : UnitaryFlags → UnitaryFlags → Bool
same_flags f g = same_bit f.control g.control && same_bit f.dagger g.dagger

abbrev pub flag_union : UnitaryFlags → UnitaryFlags → UnitaryFlags
flag_union f g = record { control = f.control || g.control; dagger = f.dagger || g.dagger }

abbrev pub flag_minus : UnitaryFlags → UnitaryFlags → UnitaryFlags
flag_minus f g = record { control = f.control && not g.control; dagger = f.dagger && not g.dagger }

unfoldable pub is_weaker_than : UnitaryFlags → UnitaryFlags → Bool
is_weaker_than f other = if same_flags f no_flags then true else is_in f other

unfoldable pub accumulate : UnitaryFlags → UnitaryFlags → UnitaryFlags
accumulate f other =
    let result = flag_union f other in
    if f.dagger && other.dagger then flag_minus result dagger_flag else result

-- `context`, with `none` for its `AssertionError`.
unfoldable pub context : UnitaryFlags → Option String
context f =
    if same_flags f dagger_flag
    then some "daggerable"
    else if same_flags f control_flag
    then some "controllable"
    else if same_flags f unitary_flag
    then some "unitary"
    else none
