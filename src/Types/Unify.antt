-- ===== src/Types/Unify.antt =====
-- `unify` with its helpers, of tys/ty.py. The fuel counts nested calls.
pub mod Closed
pub mod Total
pub mod Matching
pub mod Meaning
pub mod Sound
pub mod Solvable
use guppylang.Common.{
  ℕ, zero, suc, ◌+◌, ◌-◌, ◌≤◌, ◌<◌, ◌≡◌, refl, sym, ap, ◌∙◌, Bool, Bool-cases, inl, inr, true,
  false, not, ◌&&◌, ◌||◌, Option, none, some, String, List, [], ◌∷◌, ◌++◌, length, map, get_elem?,
  Eq, nat_eq, string_eq, if◌then◌else◌, ltb, leb, ◌==◌, arith,
}
use guppylang.Common.Sets.{elem}
use guppylang.Common.Dict.{Dict, get}
use guppylang.Types.{
  Kind, Ty, Row, Inputs, Const, Argument, Arguments, Parameter, Params, StructDef, EnumDef,
  Variants, Value, InputFlags, OpaqueTypeDef, Outcome, built, internal_error, assertion_failed,
  out_of_fuel, ◌>>=◌, is_parametrized, bound_type_var, existential_type_var, none_type,
  numeric_type, function_type, function_def_type, tuple_type, opaque_type, struct_type, enum_type,
  no_types, ty_cons, no_inputs, input, const_value, bound_const_var, existential_const_var,
  type_arg, const_arg, no_args, arg_cons, type_param, const_param, no_params, param_cons,
  struct_def, enum_def, no_variants, variant, number, boolean, text, nat, int, float,
}
use guppylang.Types.Transform.{Transformer, transform, transform_const, count_inputs}
use guppylang.Types.Subst.{Subst, substituter, substitute, unsolved_vars, unsolved_const}
use guppylang.Types.Linear.{linear}
use guppylang.Types.Equal.{
  same_kind, equal_value, same_input_flags, same_params, struct_id, enum_id,
}

-- `args` of a function type, and of a tuple type.
unfoldable pub append_args : Arguments → Arguments → Arguments
append_args no_args bs = bs
append_args (arg_cons a rest) bs = arg_cons a (append_args rest bs)

unfoldable pub input_args : Inputs → Arguments → Arguments
input_args no_inputs rest = rest
input_args (input t f x is) rest = arg_cons (type_arg t) (input_args is rest)

abbrev pub function_args : Inputs → Ty → Arguments → Arguments
function_args ins out comptime_args = input_args ins (arg_cons (type_arg out) comptime_args)

unfoldable pub tuple_args : Row → Arguments
tuple_args no_types = no_args
tuple_args (ty_cons t ts) = arg_cons (type_arg t) (tuple_args ts)

unfoldable pub same_number : Arguments → Arguments → Bool
same_number no_args no_args = true
same_number (arg_cons a rest) (arg_cons b rest') = same_number rest rest'
same_number _ _ = false

-- The check of the inputs: as many, and no two linear ones that differ in their flags.
unfoldable pub flags_agree : Inputs → Inputs → Outcome Bool
flags_agree (input a f x is) (input b g y js) = linear a >>= λ la.
    (if la then linear b else built false) >>= λ lb.
    if lb && not (same_input_flags f g) then built false else flags_agree is js
flags_agree _ _ = built true

unfoldable pub inputs_agree : Inputs → Inputs → Outcome Bool
unfolding flags_agree
inputs_agree ins ins' =
    if count_inputs ins == count_inputs ins' then flags_agree ins ins' else built false

-- What a case of the match asks for: nothing, a binding of a variable, the arguments, or failure.
pub data Case : Type 0 where
  agree : Case
  -- the variable, by its fields, and the other side
  bind_type : String → ℕ → Bool → Bool → Ty → Case
  bind_const : Ty → String → ℕ → Const → Case
  descend : Arguments → Arguments → Case
  clash : Case

abbrev pub when : Bool → Case → Case
when true c = c
when false c = clash

-- The cases of types.
unfoldable pub match_types : Ty → Ty → Outcome Case
match_types (existential_type_var n i c d) (existential_type_var n' j c' d') =
    built (if i == j then agree else bind_type n i c d (existential_type_var n' j c' d'))
match_types (existential_type_var n i c d) t = built (bind_type n i c d t)
match_types s (existential_type_var n j c d) = built (bind_type n j c d s)
match_types (bound_type_var n i c d) (bound_type_var n' j c' d') = built (when (i == j) agree)
match_types (numeric_type k) (numeric_type k') = built (when (same_kind k k') agree)
match_types none_type none_type = built agree
match_types (function_type ins out ps cs flags) (function_type ins' out' ps' cs' flags') =
    if same_params ps ps'
    then (inputs_agree ins ins' >>= λ b.
        built (when b (descend (function_args ins out cs) (function_args ins' out' cs'))))
    else built clash
match_types (tuple_type row) (tuple_type row') = built (descend (tuple_args row) (tuple_args row'))
match_types (opaque_type args defn) (opaque_type args' defn') =
    built (when (defn.id == defn'.id) (descend args args'))
match_types (struct_type args defn) (struct_type args' defn') =
    built (when (struct_id defn == struct_id defn') (descend args args'))
match_types (enum_type args defn) (enum_type args' defn') =
    built (when (enum_id defn == enum_id defn') (descend args args'))
match_types _ _ = built clash

-- The cases of constants.
unfoldable pub match_consts : Const → Const → Case
match_consts (existential_const_var t n i) (existential_const_var t' n' j) =
    if i == j then agree else bind_const t n i (existential_const_var t' n' j)
match_consts (existential_const_var t n i) d = bind_const t n i d
match_consts c (existential_const_var t n j) = bind_const t n j c
match_consts (bound_const_var t n i) (bound_const_var t' n' j) = when (i == j) agree
match_consts (const_value t v) (const_value t' w) = when (equal_value v w) agree
match_consts _ _ = clash

abbrev pub Unifier : Type 0
Unifier = Argument → Argument → Subst → Outcome (Option Subst)

abbrev pub and_unify :
    Outcome (Option Subst) → (Subst → Outcome (Option Subst)) → Outcome (Option Subst)
and_unify first next = first >>= λ res. elim res [ none ↦ built none | some subst ↦ next subst ]

-- A variable that is solved, with its solution.
abbrev pub solution : Ty → Subst → Option Argument
solution (existential_type_var name id c d) subst = get id subst
solution t subst = none

-- `if var in subst: ... subst[var] ...`
abbrev pub when_solved : {R : Type 0} → Option Argument → (Argument → R) → R → R
when_solved (some s) found other = found s
when_solved none found other = other

-- `_unify_type_var`
unfoldable pub unify_type_var :
    Unifier → String → ℕ → Bool → Bool → Ty → Subst → Outcome (Option Subst)
unify_type_var unify name id c d t subst =
    when_solved (get id subst) (λ s. unify s (type_arg t) subst)
      (when_solved (solution t subst)
        (λ s. unify (type_arg (existential_type_var name id c d)) s subst)
        (if elem id (unsolved_vars t)
          then built none
          else (substitute subst t >>= λ t'. built (some ((id, type_arg t') ∷ subst)))))

abbrev pub const_ty : Const → Ty
const_ty (const_value t v) = t
const_ty (bound_const_var t name idx) = t
const_ty (existential_const_var t name id) = t

-- `_unify_const_var`
unfoldable pub unify_const_var : Unifier → Ty → String → ℕ → Const → Subst → Outcome (Option Subst)
unify_const_var unify ty name id c subst =
    and_unify (unify (type_arg ty) (type_arg (const_ty c)) subst) (λ subst'.
      substitute subst' ty >>= λ ty'. transform_const (substituter subst') c >>= λ c'.
      when_solved (get id subst') (λ s. unify s (const_arg c') subst')
        (built (if elem id (unsolved_const c') then none else some ((id, const_arg c') ∷ subst'))))

-- `_unify_args`, and its loop.
unfoldable pub unify_each : Unifier → Arguments → Arguments → Subst → Outcome (Option Subst)
unify_each unify (arg_cons (type_arg s) rest) (arg_cons (type_arg t) rest') subst =
    and_unify (unify (type_arg s) (type_arg t) subst) (λ subst'. unify_each unify rest rest' subst')
unify_each unify (arg_cons (const_arg c) rest) (arg_cons (const_arg d) rest') subst =
    and_unify (unify (const_arg c) (const_arg d) subst)
      (λ subst'. unify_each unify rest rest' subst')
unify_each unify (arg_cons _ rest) (arg_cons _ rest') subst = built none
unify_each unify _ _ subst = built (some subst)

unfoldable pub unify_args : Unifier → Arguments → Arguments → Subst → Outcome (Option Subst)
unfolding unify_each same_number
unify_args unify args args' subst =
    if same_number args args' then unify_each unify args args' subst else built none

unfoldable pub run_case : Unifier → Case → Subst → Outcome (Option Subst)
unfolding unify_type_var unify_const_var unify_args
run_case unify agree subst = built (some subst)
run_case unify (bind_type name id c d t) subst = unify_type_var unify name id c d t subst
run_case unify (bind_const ty name id c) subst = unify_const_var unify ty name id c subst
run_case unify (descend args args') subst = unify_args unify args args' subst
run_case unify clash subst = built none

unfoldable pub unify : ℕ → Unifier
unfolding run_case match_types match_consts
unify zero s t subst = out_of_fuel
unify (suc n) (type_arg s) (type_arg t) subst = match_types s t >>= λ c. run_case (unify n) c subst
unify (suc n) (const_arg c) (const_arg d) subst = run_case (unify n) (match_consts c d) subst
unify (suc n) _ _ subst = assertion_failed
