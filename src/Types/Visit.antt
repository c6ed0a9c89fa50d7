-- ===== src/Types/Visit.antt =====
-- The visitors of types: `visit` of tys/ty.py and arg.py with `BoundVarFinder` of tys/subst.py,
-- `register_generic_use` of engine.py, and `QubitFinder` of tys/qubit.py. A type passes a visitor on
-- to its arguments by a call of the visitor, which descends no further by itself.
pub mod Found
pub mod Register
use guppylang.Common.{
  ℕ, zero, suc, ◌+◌, ◌-◌, ◌*◌, ◌≤◌, ◌<◌, ◌≡◌, refl, sym, ap, ◌∙◌, Bool, Bool-cases, inl, inr, true,
  false, not, ◌&&◌, ◌||◌, Option, none, some, String, List, [], ◌∷◌, ◌++◌, length, map, get_elem?,
  Eq, nat_eq, string_eq, if◌then◌else◌, ltb, leb, ◌==◌, arith,
}
use guppylang.Common.Sets.{elem}
use guppylang.Types.{
  Kind, Ty, Row, Inputs, Const, Argument, Arguments, Parameter, Params, StructDef, EnumDef,
  Variants, Value, InputFlags, OpaqueTypeDef, Outcome, built, internal_error, assertion_failed,
  out_of_fuel, ◌>>=◌, is_parametrized, bound_type_var, existential_type_var, none_type,
  numeric_type, function_type, function_def_type, tuple_type, opaque_type, struct_type, enum_type,
  no_types, ty_cons, no_inputs, input, const_value, bound_const_var, existential_const_var,
  type_arg, const_arg, no_args, arg_cons, type_param, const_param, no_params, param_cons,
  struct_def, enum_def, no_variants, variant, number, boolean, text, nat, int, float,
}
use guppylang.Unitary.{UnitaryFlags}
use guppylang.Types.Subst.{bound_vars, bound_args}
use guppylang.Types.Equal.{same_ty, same_args}

-- What a visitor is called with.
pub data Visited : Type 0 where
  a_type : Ty → Visited
  an_argument : Argument → Visited
  a_const : Const → Visited
  an_input : Ty → Visited
  a_param : Parameter → Visited

-- `visit` of a visitor: its new state, and whether the descent stops.
abbrev pub Visitor : Type 0 → Type 0
Visitor S = Visited → S → S × Bool

module _ {S : Type 0} where
  unfoldable pub visit_args : Visitor S → Arguments → S → S
  visit_args visit no_args s = s
  visit_args visit (arg_cons a rest) s = visit_args visit rest (visit (an_argument a) s).0

  unfoldable pub visit_row : Visitor S → Row → S → S
  visit_row visit no_types s = s
  visit_row visit (ty_cons t ts) s = visit_row visit ts (visit (an_argument (type_arg t)) s).0

  unfoldable pub visit_inputs : Visitor S → Inputs → S → S
  visit_inputs visit no_inputs s = s
  visit_inputs visit (input t f x is) s = visit_inputs visit is (visit (an_input t) s).0

  unfoldable pub visit_params : Visitor S → Params → S → S
  visit_params visit no_params s = s
  visit_params visit (param_cons p ps) s = visit_params visit ps (visit (a_param p) s).0

  -- `if not visitor.visit(self): ...`
  abbrev pub unless : S × Bool → (S → S) → S
  unless (s, true) next = s
  unless (s, false) next = next s

  unfoldable pub visit_type : Visitor S → Ty → S → S
  unfolding visit_args visit_row visit_inputs visit_params
  visit_type visit (function_type ins out ps cs flags) s =
      unless (visit (a_type (function_type ins out ps cs flags)) s)
        (λ s1. visit_params visit ps (visit (a_type out) (visit_inputs visit ins s1)).0)
  visit_type visit (function_def_type id args) s =
      unless (visit (a_type (function_def_type id args)) s) (visit_args visit args)
  visit_type visit (tuple_type row) s =
      unless (visit (a_type (tuple_type row)) s) (visit_row visit row)
  visit_type visit (opaque_type args defn) s =
      unless (visit (a_type (opaque_type args defn)) s) (visit_args visit args)
  visit_type visit (struct_type args defn) s =
      unless (visit (a_type (struct_type args defn)) s) (visit_args visit args)
  visit_type visit (enum_type args defn) s =
      unless (visit (a_type (enum_type args defn)) s) (visit_args visit args)
  visit_type visit ty s = (visit (a_type ty) s).0

  unfoldable pub visit_argument : Visitor S → Argument → S → S
  unfolding visit_type
  visit_argument visit (type_arg t) s =
      unless (visit (an_argument (type_arg t)) s) (visit_type visit t)
  visit_argument visit (const_arg c) s =
      unless (visit (an_argument (const_arg c)) s) (λ s1. (visit (a_const c) s1).0)

-- `BoundVarFinder`
unfoldable pub find_bound : Visitor (List ℕ)
find_bound (a_type (bound_type_var name idx c d)) found = (found ++ idx ∷ [], false)
find_bound (a_const (bound_const_var t name idx)) found = (found ++ idx ∷ [], false)
find_bound node found = (found, false)

unfoldable pub find_in_args : Arguments → List ℕ → List ℕ
unfolding find_bound visit_argument
find_in_args no_args found = found
find_in_args (arg_cons a rest) found = find_in_args rest (visit_argument find_bound a found)

-- The worklist: a dict whose keys are a definition and the arguments of a use.
abbrev pub Worklist : Type 0
Worklist = List (ℕ × Arguments)

abbrev pub is_waiting : ℕ → Arguments → Worklist → Bool
is_waiting defn args [] = false
is_waiting defn args ((id, other) ∷ rest) =
    (defn == id && same_args args other) || is_waiting defn args rest

-- `to_check_worklist[defn.id, type_args] = defn`
abbrev pub put_work : ℕ → Arguments → Worklist → Worklist
put_work defn args worklist =
    if is_waiting defn args worklist then worklist else worklist ++ (defn, args) ∷ []

-- `if not finder.bound_vars: ...`
abbrev pub if_none_found : List ℕ → Worklist → Worklist → Worklist
if_none_found [] next worklist = next
if_none_found (idx ∷ more) next worklist = worklist

unfoldable pub register_generic_use : ℕ → Arguments → Worklist → Worklist
unfolding find_in_args
register_generic_use defn args worklist =
    if_none_found (find_in_args args []) (put_work defn args worklist) worklist

-- `is_qubit_ty`, for the definition of the type `qubit`.
unfoldable pub is_qubit_ty : OpaqueTypeDef → Ty → Bool
is_qubit_ty qubit ty = same_ty ty (opaque_type no_args qubit)

-- A call of `QubitFinder.visit` on a type: whether it raises `FoundFlag`.
unfoldable pub finds_here : OpaqueTypeDef → Ty → Bool
unfolding is_qubit_ty
finds_here qubit (opaque_type args defn) = is_qubit_ty qubit (opaque_type args defn)
finds_here qubit ty = false

-- `ty.visit(finder)`
unfoldable mutual
  unfolding finds_here

  pub contain_qubit_ty : OpaqueTypeDef → Ty → Bool
  contain_qubit_ty qubit (function_type ins out ps cs flags) = finds_here qubit out
  contain_qubit_ty qubit (function_def_type id args) = args_contain qubit args
  contain_qubit_ty qubit (tuple_type row) = row_contains qubit row
  contain_qubit_ty qubit (opaque_type args defn) =
      finds_here qubit (opaque_type args defn) || args_contain qubit args
  contain_qubit_ty qubit (struct_type args defn) = args_contain qubit args
  contain_qubit_ty qubit (enum_type args defn) = args_contain qubit args
  contain_qubit_ty qubit ty = false

  pub row_contains : OpaqueTypeDef → Row → Bool
  row_contains qubit no_types = false
  row_contains qubit (ty_cons t ts) = contain_qubit_ty qubit t || row_contains qubit ts

  pub args_contain : OpaqueTypeDef → Arguments → Bool
  args_contain qubit no_args = false
  args_contain qubit (arg_cons a rest) = arg_contains qubit a || args_contain qubit rest

  pub arg_contains : OpaqueTypeDef → Argument → Bool
  arg_contains qubit (type_arg t) = contain_qubit_ty qubit t
  arg_contains qubit (const_arg c) = false
