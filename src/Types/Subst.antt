-- ===== src/Types/Subst.antt =====
-- Variables of types and their replacement: `unsolved_vars` and `bound_vars` of tys/ty.py,
-- const.py and arg.py, and `Substituter` and `Instantiator` of tys/subst.py.
pub mod Unsolved
use guppylang.Common.{
  ℕ, zero, suc, ◌+◌, ◌-◌, ◌≤◌, ◌<◌, ◌≡◌, refl, sym, ap, ◌∙◌, Bool, Bool-cases, inl, inr, true,
  false, not, ◌&&◌, ◌||◌, Option, none, some, String, List, [], ◌∷◌, ◌++◌, length, map, get_elem?,
  Eq, nat_eq, string_eq, if◌then◌else◌, ltb, leb, ◌==◌, arith,
}
use guppylang.Common.Sets.{elem}
use guppylang.Common.Dict.{Dict, get}
use guppylang.Types.{
  Kind, Ty, Row, Inputs, Const, Argument, Arguments, Parameter, Params, StructDef, EnumDef,
  Variants, Value, InputFlags, OpaqueTypeDef, Outcome, built, internal_error, assertion_failed,
  out_of_fuel, ◌>>=◌, is_parametrized, bound_type_var, existential_type_var, none_type,
  numeric_type, function_type, function_def_type, tuple_type, opaque_type, struct_type, enum_type,
  no_types, ty_cons, no_inputs, input, const_value, bound_const_var, existential_const_var,
  type_arg, const_arg, no_args, arg_cons, type_param, const_param, no_params, param_cons,
  struct_def, enum_def, no_variants, variant, number, boolean, text, nat, int, float,
}
use guppylang.Types.Transform.{Transformer, transform, transform_args}

-- The sets of variables, as lists of ids and of indices.
unfoldable mutual
  pub unsolved_vars : Ty → List ℕ
  unsolved_vars (existential_type_var name id c d) = id ∷ []
  unsolved_vars (function_type ins out pars comptime_args flags) =
      unsolved_inputs ins ++ (unsolved_vars out ++ unsolved_args comptime_args)
  unsolved_vars (tuple_type row) = unsolved_row row
  unsolved_vars (opaque_type args defn) = unsolved_args args
  unsolved_vars (struct_type args defn) = unsolved_args args
  unsolved_vars (enum_type args defn) = unsolved_args args
  -- the default of `TypeBase`, also for a `FunctionDefType` with arguments
  unsolved_vars ty = []

  pub unsolved_row : Row → List ℕ
  unsolved_row no_types = []
  unsolved_row (ty_cons t ts) = unsolved_vars t ++ unsolved_row ts

  pub unsolved_inputs : Inputs → List ℕ
  unsolved_inputs no_inputs = []
  unsolved_inputs (input t f x is) = unsolved_vars t ++ unsolved_inputs is

  pub unsolved_const : Const → List ℕ
  unsolved_const (const_value t v) = []
  unsolved_const (bound_const_var t name idx) = []
  unsolved_const (existential_const_var t name id) = id ∷ []

  pub unsolved_arg : Argument → List ℕ
  unsolved_arg (type_arg t) = unsolved_vars t
  unsolved_arg (const_arg c) = unsolved_const c

  pub unsolved_args : Arguments → List ℕ
  unsolved_args no_args = []
  unsolved_args (arg_cons a rest) = unsolved_arg a ++ unsolved_args rest

unfoldable mutual
  pub bound_vars : Ty → List ℕ
  bound_vars (bound_type_var name idx c d) = idx ∷ []
  bound_vars (function_type ins out pars comptime_args flags) =
      if is_parametrized pars
      then []
      else bound_inputs ins ++ (bound_vars out ++ bound_args comptime_args)
  bound_vars (tuple_type row) = bound_row row
  bound_vars (opaque_type args defn) = bound_args args
  bound_vars (struct_type args defn) = bound_args args
  bound_vars (enum_type args defn) = bound_args args
  bound_vars ty = []

  pub bound_row : Row → List ℕ
  bound_row no_types = []
  bound_row (ty_cons t ts) = bound_vars t ++ bound_row ts

  pub bound_inputs : Inputs → List ℕ
  bound_inputs no_inputs = []
  bound_inputs (input t f x is) = bound_vars t ++ bound_inputs is

  pub bound_const : Const → List ℕ
  bound_const (const_value t v) = bound_vars t
  bound_const (bound_const_var t name idx) = idx ∷ bound_vars t
  bound_const (existential_const_var t name id) = bound_vars t

  pub bound_arg : Argument → List ℕ
  bound_arg (type_arg t) = bound_vars t
  bound_arg (const_arg c) = bound_const c

  pub bound_args : Arguments → List ℕ
  bound_args no_args = []
  bound_args (arg_cons a rest) = bound_arg a ++ bound_args rest

-- `dict[ExistentialVar, Type | Const]`, by the unique ids.
abbrev pub Subst : Type 0
Subst = Dict ℕ Argument

abbrev pub solved_type : Option Argument → Outcome (Option Ty)
solved_type (some (type_arg t)) = built (some t)
solved_type (some (const_arg c)) = assertion_failed
solved_type none = built none

abbrev pub solved_const : Option Argument → Outcome (Option Const)
solved_const (some (const_arg c)) = built (some c)
solved_const (some (type_arg t)) = assertion_failed
solved_const none = built none

abbrev pub substitute_type : Subst → Ty → Outcome (Option Ty)
substitute_type subst (existential_type_var name id c d) = solved_type (get id subst)
substitute_type subst ty = built none

abbrev pub substitute_const : Subst → Const → Outcome (Option Const)
substitute_const subst (existential_const_var t name id) = solved_const (get id subst)
substitute_const subst c = built none

unfoldable pub substituter : Subst → Transformer
substituter subst = record { of_type = substitute_type subst; of_const = substitute_const subst }

abbrev pub substitute : Subst → Ty → Outcome Ty
substitute subst ty = transform (substituter subst) ty

-- `PartialInst`
abbrev pub Inst : Type 0
Inst = List (Option Argument)

-- The argument of a bound variable with an index in the instantiation.
abbrev pub type_at : Bool → Option (Option Argument) → Outcome (Option Ty)
type_at allow_partial (some (some (type_arg t))) = built (some t)
type_at true (some none) = built none
type_at allow_partial entry = assertion_failed

abbrev pub const_at : Bool → Option (Option Argument) → Outcome (Option Const)
const_at allow_partial (some (some (const_arg c))) = built (some c)
const_at true (some none) = built none
const_at allow_partial entry = assertion_failed

abbrev pub instantiate_type : Inst → Bool → Ty → Outcome (Option Ty)
instantiate_type inst allow_partial (existential_type_var name id c d) =
    built (some (existential_type_var name id c d))
instantiate_type inst allow_partial (bound_type_var name idx c d) =
    if ltb idx (length inst)
    then type_at allow_partial (get_elem? inst idx)
    else built (some (bound_type_var name (idx - length inst) c d))
instantiate_type inst allow_partial (function_type ins out pars comptime_args flags) =
    if is_parametrized pars then internal_error "Tried to instantiate under binder" else built none
instantiate_type inst allow_partial ty = built none

-- `transformed or t`
abbrev pub or_same : Ty → Option Ty → Ty
or_same t none = t
or_same t (some t') = t'

abbrev pub instantiate_const : Inst → Bool → Const → Outcome (Option Const)
instantiate_const inst allow_partial (bound_const_var t name idx) =
    if ltb idx (length inst)
    then const_at allow_partial (get_elem? inst idx)
    else (instantiate_type inst allow_partial t >>= λ t'.
        built (some (bound_const_var (or_same t t') name (idx - length inst))))
instantiate_const inst allow_partial c = built none

unfoldable pub instantiator : Inst → Bool → Transformer
instantiator inst allow_partial = record {
  of_type = instantiate_type inst allow_partial;
  of_const = instantiate_const inst allow_partial;
}
