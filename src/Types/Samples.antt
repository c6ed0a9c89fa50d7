-- ===== src/Types/Samples.antt =====
-- Types at which the properties of types are applied, and runs of the operations.
use guppylang.Common.{
  ℕ, ◌*◌, ◌≤◌, ◌≡◌, refl, true, false, none, some, [], ◌∷◌, nat_eq, string_eq, arith, if◌then◌else◌,
}
use guppylang.Types.{
  Ty, Inputs, Arguments, Params, StructDef, OpaqueTypeDef, built, bound_type_var,
  existential_type_var, numeric_type, function_type, opaque_type, struct_type, no_types, ty_cons,
  no_inputs, input, type_arg, no_args, arg_cons, type_param, no_params, param_cons, struct_def, int,
}
use guppylang.Unitary.{UnitaryFlags, no_flags, dagger_flag}
use guppylang.Types.Transform.{
  transform, post_init, is_higher_rank, make_function, names, count_inputs,
}
use guppylang.Common.Dict.{get}
use guppylang.Types.Ensures.{Ensures, Given}
use guppylang.Types.Finishes.{Finishes, Returns}
use guppylang.Types.Subst.{Subst, substitute, substituter, unsolved_vars, instantiator}
use guppylang.Types.Subst.Unsolved.{image, HasFixedComptime, unsolved_vars-substitute}
use guppylang.Types.Linear.{
  copyable, droppable, linear, affine, has_trait, depth, all_types, all_args,
}
use guppylang.Types.Linear.Fuel.{traits_finish}
use guppylang.Types.Unify.{
  unify, match_types, run_case, unify_args, unify_each, unify_type_var, same_number, inputs_agree,
  flags_agree, input_args,
}
use guppylang.Types.Unify.Closed.{IsClosed, ArgClosed, SubstClosed, height, height_arg}
use guppylang.Types.Unify.Matching.{IsSolution, unify_closed}
use guppylang.Types.Unify.Solvable.{read_solutions}
use guppylang.Types.Unify.Meaning.{Valuation, Solves}
use guppylang.Types.Visit.{
  contain_qubit_ty, register_generic_use, put_work, find_in_args, visit_argument, visit_type,
  visit_args, find_bound,
}
use guppylang.Types.Visit.Found.{Contains, IsPlain, contain_qubit_ty_lem}
use guppylang.Types.Visit.Register.{any_open, register_generic_use_lem}
use guppylang.Types.Equal.{same_ty}
use guppylang.Types.Generic.{
  accepted, check_all_args, check_each, check_arg, instantiate_bounds, instantiate_partial,
  partial_loop, with_idx, to_bound,
}
use guppylang.Types.Generic.Partial.{HasParams, count_gaps, instantiate_partial_lem}
use guppylang.Types.Generic.Checks.{AllMeet, check_all_args-AllMeet}

abbrev list_def : OpaqueTypeDef
list_def = record { id = 1; never_copyable = true; never_droppable = false }

abbrev qubit_def : OpaqueTypeDef
qubit_def = record { id = 2; never_copyable = true; never_droppable = true }

abbrev list_of : Ty → Ty
list_of t = opaque_type (arg_cons (type_arg t) no_args) list_def

abbrev unknown : ℕ → Ty
unknown i = existential_type_var "T" i true true

abbrev int_ty : Ty
int_ty = numeric_type int

abbrev qubit_ty : Ty
qubit_ty = opaque_type no_args qubit_def

-- `struct Pair[T]: a: T; b: list[T]`
abbrev pair_def : StructDef
pair_def = struct_def 3 true (
    ty_cons (bound_type_var "T" 0 true true)
      (ty_cons (list_of (bound_type_var "T" 0 true true)) no_types))

abbrev pair_of : Ty → Ty
pair_of t = struct_type (arg_cons (type_arg t) no_args) pair_def

list_of_int-ArgClosed : ArgClosed (type_arg (list_of int_ty))
unfolding IsClosed
list_of_int-ArgClosed = (tt, tt)

list_of_int-height : 2 * height_arg (type_arg (list_of int_ty)) ≤ 4
unfolding height
list_of_int-height = omega arith

unify_closed_example :
    Returns
      (Given (λ (subst' : Subst).
        SubstClosed subst'
        × ((w : Valuation) → Solves (read_solutions w subst') subst')
        × IsSolution (type_arg (list_of (unknown 7))) (type_arg (list_of int_ty)) [] subst'))
      (unify 4 (type_arg (list_of (unknown 7))) (type_arg (list_of int_ty)) [])
unify_closed_example =
    unify_closed (type_arg (list_of (unknown 7))) (type_arg (list_of int_ty)) [] 4 tt
      list_of_int-ArgClosed list_of_int-height

unify_test :
    unify 4 (type_arg (list_of (unknown 7))) (type_arg (list_of int_ty)) []
    ≡ built (some ((7, type_arg int_ty) ∷ []))
unfolding unify match_types run_case unify_args unify_each unify_type_var same_number unsolved_vars
    transform substituter get
unify_test = refl

-- Function types that differ in their unitary flags are unified.
abbrev plain_function : UnitaryFlags → Ty
plain_function flags = function_type no_inputs int_ty no_params no_args flags

flags_ignored :
    (unify 2 (type_arg (plain_function no_flags)) (type_arg (plain_function dagger_flag)) []
      ≡ built (some []))
    × (same_ty (plain_function no_flags) (plain_function dagger_flag) ≡ false)
unfolding unify match_types run_case unify_args unify_each unify_type_var same_number inputs_agree
    flags_agree count_inputs same_ty input_args
flags_ignored = (refl, refl)

solved_list : Subst
solved_list = (7, type_arg (list_of (unknown 8))) ∷ []

list-HasFixedComptime : HasFixedComptime solved_list (list_of (unknown 7))
unfolding HasFixedComptime
list-HasFixedComptime = (tt, tt)

substituted : substitute solved_list (list_of (unknown 7)) ≡ built (list_of (list_of (unknown 8)))
unfolding transform substituter post_init is_higher_rank get solved_list
substituted = refl

unsolved_vars-substitute_example :
    unsolved_vars (list_of (list_of (unknown 8)))
    ≡ image solved_list (unsolved_vars (list_of (unknown 7)))
unsolved_vars-substitute_example =
    unsolved_vars-substitute solved_list (list_of (unknown 7)) (list_of (list_of (unknown 8)))
      list-HasFixedComptime substituted

traits_finish_example :
    Finishes (copyable (pair_of (pair_of int_ty)))
    × Finishes (droppable (pair_of (pair_of int_ty)))
    × Finishes (linear (pair_of (pair_of int_ty)))
    × Finishes (affine (pair_of (pair_of int_ty)))
traits_finish_example = traits_finish (pair_of (pair_of int_ty))

copyable_test : copyable (pair_of int_ty) ≡ built false
unfolding copyable has_trait depth instantiator transform all_types all_args post_init
    is_higher_rank
copyable_test = refl

contain_qubit_ty_lem_example :
    (contain_qubit_ty qubit_def (list_of qubit_ty) ≡ true → Contains qubit_def (list_of qubit_ty))
    × (IsPlain (list_of qubit_ty)
        → Contains qubit_def (list_of qubit_ty)
        → contain_qubit_ty qubit_def (list_of qubit_ty) ≡ true)
contain_qubit_ty_lem_example = contain_qubit_ty_lem qubit_def (list_of qubit_ty)

-- A struct with a qubit field.
struct_test :
    contain_qubit_ty qubit_def
      (struct_type no_args (struct_def 4 false (ty_cons qubit_ty no_types)))
    ≡ false
unfolding contain_qubit_ty
struct_test = refl

-- A use with the arguments `list[T]` and `int`.
abbrev nested_args : Arguments
nested_args =
    arg_cons (type_arg (list_of (bound_type_var "T" 0 true true)))
      (arg_cons (type_arg int_ty) no_args)

register_generic_use_lem_example :
    register_generic_use 9 nested_args []
    ≡ (if any_open nested_args then [] else put_work 9 nested_args [])
register_generic_use_lem_example = register_generic_use_lem 9 nested_args []

-- It is put on the worklist, and `int, T` is not.
register_test :
    (register_generic_use 9 nested_args [] ≡ (9, nested_args) ∷ [])
    × (register_generic_use 9
          (arg_cons
            (type_arg int_ty)
            (arg_cons (type_arg (bound_type_var "T" 0 true true)) no_args))
          []
        ≡ [])
unfolding register_generic_use find_in_args visit_argument visit_type visit_args find_bound
register_test = (refl, refl)

-- `forall S, T. S -> T` with `S` given.
abbrev two_params : Params
two_params =
    param_cons (type_param 0 "S" true true) (param_cons (type_param 1 "T" false true) no_params)

abbrev one_input : Inputs
one_input =
    input (bound_type_var "S" 0 true true)
      (record { inout = false; owned = false; comptime = false }) none no_inputs

instantiate_partial_lem_example :
    Ensures (HasParams (count_gaps (some (type_arg int_ty) ∷ none ∷ [])) no_flags) (
      instantiate_partial
        (function_type one_input (bound_type_var "T" 1 false true) two_params no_args no_flags)
        (some (type_arg int_ty) ∷ none ∷ []))
instantiate_partial_lem_example =
    instantiate_partial_lem one_input (bound_type_var "T" 1 false true) two_params no_args no_flags
      (some (type_arg int_ty) ∷ none ∷ [])

instantiate_partial_test :
    instantiate_partial
      (function_type one_input (bound_type_var "T" 1 false true) two_params no_args no_flags)
      (some (type_arg int_ty) ∷ none ∷ [])
    ≡ built (
        function_type
          (input int_ty (record { inout = false; owned = false; comptime = false }) none no_inputs)
          (bound_type_var "T" 0 false true)
          (param_cons (type_param 0 "T" false true) no_params)
          no_args
          no_flags)
unfolding instantiate_partial partial_loop transform instantiator make_function names count_inputs
    with_idx to_bound instantiate_bounds
instantiate_partial_test = refl

abbrev two_args : Arguments
two_args = arg_cons (type_arg int_ty) (arg_cons (type_arg (list_of int_ty)) no_args)

accepted_args : check_all_args 2 two_params two_args ≡ built (accepted tt)
unfolding check_all_args check_each check_arg instantiate_bounds copyable droppable has_trait depth
    all_args
accepted_args = refl

check_all_args-AllMeet_example : AllMeet two_params two_args
check_all_args-AllMeet_example = check_all_args-AllMeet 2 two_params two_args accepted_args
