-- ===== src/Types/Visit/Register.antt =====
-- Which uses of generic definitions `register_generic_use` of engine.py puts on the worklist.
use guppylang.Common.{
  ℕ, ◌≡◌, refl, ap, ◌∙◌, arith, Bool, true, false, ◌||◌, List, [], ◌∷◌, ◌++◌, if◌then◌else◌,
}
use guppylang.Types.{
  Ty, Row, Inputs, Argument, Arguments, Params, none_type, bound_type_var, existential_type_var,
  numeric_type, function_type, function_def_type, tuple_type, opaque_type, struct_type, enum_type,
  no_types, ty_cons, no_inputs, input, const_value, bound_const_var, existential_const_var,
  type_arg, const_arg, no_args, arg_cons, no_params, param_cons,
}
use guppylang.Types.Visit.{
  Worklist, visit_args, visit_row, visit_inputs, visit_params, visit_type, visit_argument, a_type,
  find_bound, find_in_args, put_work, if_none_found, register_generic_use,
}

-- A bound variable by itself.
abbrev pub is_variable : Ty → Bool
is_variable (bound_type_var name idx c d) = true
is_variable ty = false

-- An argument that is a bound variable, or a function type with one as its output.
abbrev pub is_open : Argument → Bool
is_open (type_arg (function_type ins out ps cs flags)) = is_variable out
is_open (type_arg ty) = is_variable ty
is_open (const_arg (bound_const_var t name idx)) = true
is_open (const_arg c) = false

abbrev pub any_open : Arguments → Bool
any_open no_args = false
any_open (arg_cons a rest) = is_open a || any_open rest

-- A finder that has found nothing, or something.
abbrev some_found : List ℕ → Bool
some_found [] = false
some_found (_ ∷ _) = true

args_missed : (args : Arguments) (found : List ℕ) → visit_args find_bound args found ≡ found
unfolding visit_args find_bound
args_missed no_args found = refl
args_missed (arg_cons a rest) found = args_missed rest found

row_missed : (row : Row) (found : List ℕ) → visit_row find_bound row found ≡ found
unfolding visit_row find_bound
row_missed no_types found = refl
row_missed (ty_cons t ts) found = row_missed ts found

inputs_missed : (ins : Inputs) (found : List ℕ) → visit_inputs find_bound ins found ≡ found
unfolding visit_inputs find_bound
inputs_missed no_inputs found = refl
inputs_missed (input t f x is) found = inputs_missed is found

params_missed : (ps : Params) (found : List ℕ) → visit_params find_bound ps found ≡ found
unfolding visit_params find_bound
params_missed no_params found = refl
params_missed (param_cons p ps) found = params_missed ps found

more : (found : List ℕ) (idx : ℕ) → some_found (found ++ idx ∷ []) ≡ (some_found found || true)
more [] idx = refl
more (j ∷ found) idx = refl

no_more : (found : List ℕ) → some_found found ≡ (some_found found || false)
no_more [] = refl
no_more (j ∷ found) = refl

output_found :
    (out : Ty) (found : List ℕ)
    → some_found (find_bound (a_type out) found).0 ≡ (some_found found || is_variable out)
unfolding find_bound
output_found (bound_type_var name idx c d) found = more found idx
output_found none_type found = no_more found
output_found _ found = no_more found

type_found :
    (t : Ty) (found : List ℕ)
    → some_found (visit_argument find_bound (type_arg t) found)
      ≡ (some_found found || is_open (type_arg t))
unfolding visit_argument visit_type find_bound visit_args visit_row visit_inputs visit_params
type_found (bound_type_var name idx c d) found = more found idx
type_found (existential_type_var name id c d) found = no_more found
type_found none_type found = no_more found
type_found (numeric_type k) found = no_more found
type_found (function_type ins out ps cs flags) found =
    ap some_found (params_missed ps (find_bound (a_type out) (visit_inputs find_bound ins found)).0)
    ∙ ap (λ l. some_found (find_bound (a_type out) l).0) (inputs_missed ins found)
    ∙ output_found out found
type_found (function_def_type id args) found =
    ap some_found (args_missed args found) ∙ no_more found
type_found (tuple_type row) found = ap some_found (row_missed row found) ∙ no_more found
type_found (opaque_type args defn) found = ap some_found (args_missed args found) ∙ no_more found
type_found (struct_type args defn) found = ap some_found (args_missed args found) ∙ no_more found
type_found (enum_type args defn) found = ap some_found (args_missed args found) ∙ no_more found

argument_found :
    (a : Argument) (found : List ℕ)
    → some_found (visit_argument find_bound a found) ≡ (some_found found || is_open a)
unfolding visit_argument find_bound
argument_found (type_arg t) found = type_found t found
argument_found (const_arg (bound_const_var t name idx)) found = more found idx
argument_found (const_arg (existential_const_var t name id)) found = no_more found
argument_found (const_arg (const_value t v)) found = no_more found

args_found :
    (args : Arguments) (found : List ℕ)
    → some_found (find_in_args args found) ≡ (some_found found || any_open args)
unfolding find_in_args
args_found no_args found = no_more found
args_found (arg_cons a rest) found =
    args_found rest (visit_argument find_bound a found) ∙ ground (arith, argument_found a found)

-- What a use of a generic definition does depends on the arguments alone: if one of them is a bound
-- variable, or a function type whose output is one, then the worklist stays as it is. In all other
-- cases the use is put on it, also if a bound variable stands deeper in an argument, say in `list[T]`.
pub register_generic_use_lem :
    (defn : ℕ) (args : Arguments) (worklist : Worklist)
    → register_generic_use defn args worklist
      ≡ (if any_open args then worklist else put_work defn args worklist)
unfolding register_generic_use
register_generic_use_lem defn args worklist =
    chosen (find_in_args args []) ∙ rw (args_found args [])
  where
    chosen :
        (found : List ℕ)
        → if_none_found found (put_work defn args worklist) worklist
          ≡ (if some_found found then worklist else put_work defn args worklist)
    chosen [] = refl
    chosen (idx ∷ found) = refl
