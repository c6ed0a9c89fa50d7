-- ===== src/Types/Transform.antt =====
-- `transform` of the types, constants and arguments (tys/ty.py, const.py, arg.py), over the two
-- methods of a `Transformer` that the program defines: on types and on constants.
use guppylang.Common.{
  ℕ, ◌+◌, Bool, false, ◌||◌, Option, none, some, String, List, [], length, ◌==◌, if◌then◌else◌,
  string_eq,
}
use guppylang.Common.Sets.{add_elem}
use guppylang.Unitary.{UnitaryFlags}
use guppylang.Types.{
  Ty, Row, Inputs, Const, Argument, Arguments, Params, Outcome, built, internal_error,
  assertion_failed, out_of_fuel, ◌>>=◌, is_parametrized, bound_type_var, existential_type_var,
  none_type, numeric_type, function_type, function_def_type, tuple_type, opaque_type, struct_type,
  enum_type, no_types, ty_cons, no_inputs, input, const_value, bound_const_var,
  existential_const_var, type_arg, const_arg, no_args, arg_cons,
}

-- `none` continues the recursive visit.
pub record Transformer : Type 0 where
  pub of_type : Ty → Outcome (Option Ty)
  pub of_const : Const → Outcome (Option Const)

-- `transformed or otherwise`
abbrev pub or_else : {A : Type 0} → Outcome (Option A) → Outcome A → Outcome A
or_else (built (some a)) next = built a
or_else (built none) rest = rest
or_else (internal_error m) rest = internal_error m
or_else assertion_failed rest = assertion_failed
or_else out_of_fuel rest = out_of_fuel

-- `ParametrizedTypeBase.__post_init__`
unfoldable pub is_higher_rank : Arguments → Bool
is_higher_rank no_args = false
is_higher_rank (arg_cons (type_arg (function_type ins out ps cs fl)) rest) =
    is_parametrized ps || is_higher_rank rest
is_higher_rank (arg_cons a rest) = is_higher_rank rest

unfoldable pub post_init : Arguments → Ty → Outcome Ty
post_init args ty =
    if is_higher_rank args
    then internal_error "Tried to construct a higher-rank polymorphic type!"
    else built ty

-- The set of the names of the inputs, and the number of inputs.
unfoldable pub names : Inputs → List String
names no_inputs = []
names (input t f none is) = names is
names (input t f (some x) is) = add_elem x (names is)

unfoldable pub count_inputs : Inputs → ℕ
count_inputs no_inputs = 0
count_inputs (input t f x is) = count_inputs is + 1

-- `FunctionType.__init__`
unfoldable pub make_function : Inputs → Ty → Params → Arguments → UnitaryFlags → Outcome Ty
make_function ins out pars comptime_args flags =
    if length (names ins) == 0 || length (names ins) == count_inputs ins
    then built (function_type ins out pars comptime_args flags)
    else internal_error "Tried to construct FunctionType with invalid input names"

module _ (tr : Transformer) where
  unfoldable mutual
    unfolding post_init make_function

    pub transform : Ty → Outcome Ty
    transform (bound_type_var name idx c d) =
        or_else (tr.of_type (bound_type_var name idx c d)) (built (bound_type_var name idx c d))
    transform (existential_type_var name id c d) =
        or_else (tr.of_type (existential_type_var name id c d))
          (built (existential_type_var name id c d))
    transform none_type = or_else (tr.of_type none_type) (built none_type)
    transform (numeric_type kind) =
        or_else (tr.of_type (numeric_type kind)) (built (numeric_type kind))
    transform (function_type ins out pars comptime_args flags) =
        or_else (tr.of_type (function_type ins out pars comptime_args flags)) (
          transform_inputs ins >>= λ ins'.
          transform out >>= λ out'. make_function ins' out' pars comptime_args flags)
    transform (function_def_type id args) =
        or_else (tr.of_type (function_def_type id args))
          (transform_args args >>= λ args'. built (function_def_type id args'))
    transform (tuple_type row) =
        or_else (tr.of_type (tuple_type row))
          (transform_row row >>= λ row'. built (tuple_type row'))
    transform (opaque_type args defn) =
        or_else (tr.of_type (opaque_type args defn))
          (transform_args args >>= λ args'. post_init args' (opaque_type args' defn))
    transform (struct_type args defn) =
        or_else (tr.of_type (struct_type args defn))
          (transform_args args >>= λ args'. post_init args' (struct_type args' defn))
    transform (enum_type args defn) =
        or_else (tr.of_type (enum_type args defn))
          (transform_args args >>= λ args'. post_init args' (enum_type args' defn))

    pub transform_row : Row → Outcome Row
    transform_row no_types = built no_types
    transform_row (ty_cons t ts) =
        transform t >>= λ t'. transform_row ts >>= λ ts'. built (ty_cons t' ts')

    pub transform_inputs : Inputs → Outcome Inputs
    transform_inputs no_inputs = built no_inputs
    transform_inputs (input t f x is) =
        transform t >>= λ t'. transform_inputs is >>= λ is'. built (input t' f x is')

    pub transform_const : Const → Outcome Const
    transform_const (const_value t v) =
        or_else (tr.of_const (const_value t v)) (built (const_value t v))
    transform_const (bound_const_var t name idx) =
        or_else (tr.of_const (bound_const_var t name idx))
          (or_else (tr.of_type t) (built t) >>= λ t'. built (bound_const_var t' name idx))
    transform_const (existential_const_var t name id) =
        or_else (tr.of_const (existential_const_var t name id))
          (transform t >>= λ t'. built (existential_const_var t' name id))

    pub transform_arg : Argument → Outcome Argument
    transform_arg (type_arg t) = transform t >>= λ t'. built (type_arg t')
    transform_arg (const_arg c) = transform_const c >>= λ c'. built (const_arg c')

    pub transform_args : Arguments → Outcome Arguments
    transform_args no_args = built no_args
    transform_args (arg_cons a rest) =
        transform_arg a >>= λ a'. transform_args rest >>= λ rest'. built (arg_cons a' rest')
