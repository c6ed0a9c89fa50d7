-- ===== src/Types/Generic.antt =====
-- Parameters and their arguments: tys/param.py, and the instantiation of function types in tys/ty.py.
-- The counter of fresh ids is passed along.
pub mod Checks
pub mod Partial
use guppylang.Common.{
  ℕ, zero, suc, ◌+◌, ◌-◌, ◌*◌, ◌≤◌, ◌<◌, ◌≡◌, refl, sym, ap, ◌∙◌, Bool, Bool-cases, inl, inr, true,
  false, not, ◌&&◌, ◌||◌, Option, none, some, String, List, [], ◌∷◌, ◌++◌, length, map, get_elem?,
  Eq, nat_eq, string_eq, if◌then◌else◌, ltb, leb, ◌==◌, arith,
}
use guppylang.Types.{
  Kind, Ty, Row, Inputs, Const, Argument, Arguments, Parameter, Params, StructDef, EnumDef,
  Variants, Value, InputFlags, OpaqueTypeDef, Outcome, built, internal_error, assertion_failed,
  out_of_fuel, ◌>>=◌, is_parametrized, bound_type_var, existential_type_var, none_type,
  numeric_type, function_type, function_def_type, tuple_type, opaque_type, struct_type, enum_type,
  no_types, ty_cons, no_inputs, input, const_value, bound_const_var, existential_const_var,
  type_arg, const_arg, no_args, arg_cons, type_param, const_param, no_params, param_cons,
  struct_def, enum_def, no_variants, variant, number, boolean, text, nat, int, float,
}
use guppylang.Unitary.{UnitaryFlags}
use guppylang.Types.Transform.{
  transform, transform_inputs, transform_const, transform_arg, transform_args, make_function,
}
use guppylang.Types.Subst.{Subst, substitute, Inst, instantiator}
use guppylang.Types.Linear.{copyable, droppable, inst_of}
use guppylang.Types.Unify.{unify, const_ty}

-- The user errors of `check_arg` and `check_all_args`.
pub data ArgError : Type 0 where
  expected_type : Ty → ArgError
  not_copyable : Ty → ArgError
  not_droppable : Ty → ArgError
  expected_expression : Ty → Ty → ArgError
  type_mismatch : Ty → Ty → ArgError
  wrong_number : ℕ → ℕ → ArgError

pub data ArgCheck (A : Type 0) : Type 0 where
  accepted : A → ArgCheck A
  refused : ArgError → ArgCheck A

unfoldable pub with_idx : ℕ → Parameter → Parameter
with_idx idx (type_param _ name c d) = type_param idx name c d
with_idx idx (const_param _ name ty from_comptime_arg) = const_param idx name ty false

unfoldable pub to_bound : Parameter → Argument
to_bound (type_param idx name c d) = type_arg (bound_type_var name idx c d)
to_bound (const_param idx name ty from_comptime_arg) = const_arg (bound_const_var ty name idx)

-- The argument is the new variable.
unfoldable pub to_existential : Parameter → ℕ → Argument
to_existential (type_param idx name c d) id = type_arg (existential_type_var name id c d)
to_existential (const_param idx name ty from_comptime_arg) id =
    const_arg (existential_const_var ty name id)

unfoldable pub instantiate_bounds : Inst → Parameter → Outcome Parameter
instantiate_bounds inst (type_param idx name c d) = built (type_param idx name c d)
instantiate_bounds inst (const_param idx name ty from_comptime_arg) =
    transform (instantiator inst false) ty >>= λ ty'.
    built (const_param idx name ty' from_comptime_arg)

-- `if must and not ...: raise ...`
abbrev pub demand :
    {A : Type 0} → Bool → Outcome Bool → ArgError → Outcome (ArgCheck A) → Outcome (ArgCheck A)
demand false test error next = next
demand true test error next = test >>= λ b. if b then next else built (refused error)

-- `replace(const, ty=...)`
abbrev pub with_ty : Const → Ty → Const
with_ty (const_value _ v) ty = const_value ty v
with_ty (bound_const_var _ name idx) ty = bound_const_var ty name idx
with_ty (existential_const_var _ name id) ty = existential_const_var ty name id

abbrev pub if_unified : {A : Type 0} → Option Subst → A → (Subst → A) → A
if_unified none failed next = failed
if_unified (some subst) failed next = next subst

unfoldable pub check_arg : ℕ → Parameter → Argument → Outcome (ArgCheck Argument)
check_arg fuel (type_param idx name c d) (const_arg const) =
    built (refused (expected_type (const_ty const)))
check_arg fuel (type_param idx name c d) (type_arg ty) =
    demand c (copyable ty) (not_copyable ty)
      (demand d (droppable ty) (not_droppable ty) (built (accepted (type_arg ty))))
check_arg fuel (const_param idx name ty from_comptime_arg) (const_arg const) =
    unify fuel (type_arg (const_ty const)) (type_arg ty) [] >>= λ res.
    if_unified res (built (refused (type_mismatch ty (const_ty const)))) (λ subst.
      substitute subst (const_ty const) >>= λ ty'. built (accepted (const_arg (with_ty const ty'))))
check_arg fuel (const_param idx name ty from_comptime_arg) (type_arg t) =
    built (refused (expected_expression ty t))

abbrev pub and_check :
    {A B : Type 0} → Outcome (ArgCheck A) → Outcome (ArgCheck B) → Outcome (ArgCheck B)
and_check first next = first >>= λ c. elim c [ accepted a ↦ next | refused e ↦ built (refused e) ]

abbrev pub count_params : Params → ℕ
count_params no_params = 0
count_params (param_cons p ps) = suc (count_params ps)

abbrev pub count_args : Arguments → ℕ
count_args no_args = 0
count_args (arg_cons a rest) = suc (count_args rest)

-- The loop of `check_all_args`, over both lists.
unfoldable pub check_each : ℕ → Inst → Params → Arguments → Outcome (ArgCheck (Unit {0}))
unfolding check_arg instantiate_bounds
check_each fuel inst (param_cons p ps) (arg_cons a rest) = instantiate_bounds inst p >>= λ p'.
    and_check (check_arg fuel p' a) (check_each fuel inst ps rest)
check_each fuel inst _ _ = built (accepted tt)

unfoldable pub check_all_args : ℕ → Params → Arguments → Outcome (ArgCheck (Unit {0}))
unfolding check_each
check_all_args fuel ps args =
    if count_params ps == count_args args
    then check_each fuel (inst_of args) ps args
    else built (refused (wrong_number (count_params ps) (count_args args)))

abbrev pub append_param : Params → Parameter → Params
append_param no_params p = param_cons p no_params
append_param (param_cons q ps) p = param_cons q (append_param ps p)

-- The loop of `instantiate_partial`: the full instantiation and the parameters that remain.
unfoldable pub partial_loop : Params → Inst → Inst → Params → Outcome (Inst × Params)
unfolding with_idx to_bound instantiate_bounds
partial_loop no_params [] full remaining = built (full, remaining)
partial_loop (param_cons p ps) (some a ∷ args) full remaining =
    partial_loop ps args (full ++ some a ∷ []) remaining
partial_loop (param_cons p ps) (none ∷ args) full remaining =
    let p' = with_idx (count_params remaining) p in
    instantiate_bounds full p' >>= λ q.
    partial_loop ps args (full ++ some (to_bound p') ∷ []) (append_param remaining q)
partial_loop _ _ full remaining = assertion_failed

unfoldable pub instantiate_partial : Ty → Inst → Outcome Ty
unfolding partial_loop
instantiate_partial (function_type ins out ps comptime_args flags) args =
    partial_loop ps args [] no_params >>= λ r.
    transform_inputs (instantiator r.0 false) ins >>= λ ins'.
    transform (instantiator r.0 false) out >>= λ out'.
    transform_args (instantiator r.0 false) comptime_args >>= λ comptime_args'.
    make_function ins' out' r.1 comptime_args' flags
instantiate_partial ty args = assertion_failed

unfoldable pub instantiate : Ty → Arguments → Outcome Ty
unfolding instantiate_partial
instantiate ty args = instantiate_partial ty (inst_of args)

abbrev pub append_arg : Arguments → Argument → Arguments
append_arg no_args a = arg_cons a no_args
append_arg (arg_cons b rest) a = arg_cons b (append_arg rest a)

-- The loop of `unquantified`: each variable is instantiated with the arguments before it.
unfoldable pub unquantify : Params → ℕ → Arguments → Outcome Arguments
unfolding to_existential
unquantify no_params id args = built args
unquantify (param_cons p ps) id args =
    transform_arg (instantiator (inst_of args) false) (to_existential p id) >>= λ a.
    unquantify ps (id + 1) (append_arg args a)

-- The instantiated type and the variables, which are the arguments.
unfoldable pub unquantified : Ty → ℕ → Outcome (Ty × Arguments)
unfolding unquantify instantiate
unquantified (function_type ins out ps comptime_args flags) id =
    unquantify ps id no_args >>= λ args.
    instantiate (function_type ins out ps comptime_args flags) args >>= λ ty. built (ty, args)
unquantified ty id = assertion_failed

unfoldable pub with_unitary_flags : UnitaryFlags → Ty → Outcome Ty
with_unitary_flags flags (function_type ins out ps comptime_args _) =
    make_function ins out ps comptime_args flags
with_unitary_flags flags ty = assertion_failed

-- `row_to_type` and `type_to_row`
unfoldable pub row_to_type : Row → Ty
row_to_type no_types = none_type
row_to_type (ty_cons t no_types) = t
row_to_type (ty_cons t (ty_cons u rest)) = tuple_type (ty_cons t (ty_cons u rest))

unfoldable pub type_to_row : Ty → Row
type_to_row none_type = no_types
type_to_row (tuple_type row) = row
type_to_row ty = ty_cons ty no_types
