-- ===== src/Unitary/Samples.antt =====
-- The unitary checks on small inputs.
use guppylang.Common.{◌≡◌, ◌↔◌, refl, true, false, ◌||◌, some, String, List, [], ◌∷◌}
use guppylang.Unitary.{
  no_flags, control_flag, dagger_flag, unitary_flag, is_weaker_than, accumulate, context,
}
use guppylang.Unitary.Modifiers.{
  Modifier, dagger_modifier, control_modifier, push, push_all, flags, block_flags, nested_flags,
}
use guppylang.Unitary.Modifiers.Nested.{odd, daggers, controls, all_items, nested_flags_lem}
use guppylang.Unitary.Checker.{
  other_callable, Node, call, assign, no_args, arg, UnitaryCallError, flag_hint, passed, raised,
  check_cfg_unitary, check_allocation, check_flags, is_a_valid_call, call_error, visit, visit_all,
  check, check_blocks,
}
use guppylang.Unitary.Checker.Allowed.{BlocksAllowed, check_cfg_unitary_iff}
use guppylang.Unitary.Checker.Errors.{check_cfg_unitary-context}
use guppylang.Unitary.Checker.Weaker.{check_cfg_unitary-weaker}

-- A call of a controllable function on a qubit, whose result is assigned.
abbrev gate : Node
gate =
    call other_callable (record { output_has_qubit = false; unitary_flags = control_flag })
      (arg true (assign no_args) no_args)

abbrev graph : List (List Node)
graph = (gate ∷ []) ∷ (assign (arg false gate no_args) ∷ []) ∷ []

abbrev missing_dagger : UnitaryCallError
missing_dagger = record { flags = dagger_flag; missing_keyword_hint = false; note = flag_hint }

under_control : check_cfg_unitary graph control_flag ≡ passed
unfolding check_cfg_unitary check_blocks check visit visit_all check_allocation check_flags
    is_a_valid_call
under_control = refl

under_unitary : check_cfg_unitary graph unitary_flag ≡ raised missing_dagger
unfolding check_cfg_unitary check_blocks check visit visit_all check_allocation check_flags
    is_a_valid_call call_error
under_unitary = refl

check_cfg_unitary_iff_example :
    (check_cfg_unitary graph control_flag ≡ passed) ↔ BlocksAllowed control_flag graph
check_cfg_unitary_iff_example = check_cfg_unitary_iff graph control_flag refl

check_cfg_unitary-weaker_example : check_cfg_unitary graph no_flags ≡ passed
unfolding is_weaker_than
check_cfg_unitary-weaker_example =
    check_cfg_unitary-weaker graph no_flags control_flag refl under_control

check_cfg_unitary-context_example : (s : String) × (context dagger_flag ≡ some s)
check_cfg_unitary-context_example =
    check_cfg_unitary-context graph unitary_flag missing_dagger under_unitary

abbrev blocks : List (List Modifier)
blocks = (control_modifier 1 ∷ dagger_modifier ∷ []) ∷ []

nested_flags_lem_example :
    ((nested_flags no_flags no_flags ((dagger_modifier ∷ []) ∷ blocks)).dagger
      ≡ (false || odd (daggers (all_items ((dagger_modifier ∷ []) ∷ blocks)))))
    × ((nested_flags no_flags no_flags ((dagger_modifier ∷ []) ∷ blocks)).control
        ≡ (false || controls (all_items ((dagger_modifier ∷ []) ∷ blocks))))
nested_flags_lem_example = nested_flags_lem no_flags (dagger_modifier ∷ []) blocks

two_daggers : nested_flags no_flags no_flags ((dagger_modifier ∷ []) ∷ blocks) ≡ control_flag
unfolding nested_flags block_flags flags push_all push accumulate
two_daggers = refl
