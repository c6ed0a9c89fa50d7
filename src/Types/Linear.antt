-- ===== src/Types/Linear.antt =====
-- Copying and dropping: `copyable`, `droppable`, `linear` and `affine` of tys/ty.py. A struct or an
-- enum looks at the types of its fields, with its arguments put in.
pub mod Fuel
use guppylang.Common.{
  ℕ, zero, suc, ◌+◌, ◌-◌, ◌≤◌, ◌<◌, ◌≡◌, refl, sym, ap, ◌∙◌, Bool, Bool-cases, inl, inr, true,
  false, not, ◌&&◌, ◌||◌, Option, none, some, String, List, [], ◌∷◌, ◌++◌, length, map, get_elem?,
  Eq, nat_eq, string_eq, if◌then◌else◌, ltb, leb, ◌==◌, arith,
}
use Prim.Native.Nat.{max}
use guppylang.Types.{
  Kind, Ty, Row, Inputs, Const, Argument, Arguments, Parameter, Params, StructDef, EnumDef,
  Variants, Value, InputFlags, OpaqueTypeDef, Outcome, built, internal_error, assertion_failed,
  out_of_fuel, ◌>>=◌, is_parametrized, bound_type_var, existential_type_var, none_type,
  numeric_type, function_type, function_def_type, tuple_type, opaque_type, struct_type, enum_type,
  no_types, ty_cons, no_inputs, input, const_value, bound_const_var, existential_const_var,
  type_arg, const_arg, no_args, arg_cons, type_param, const_param, no_params, param_cons,
  struct_def, enum_def, no_variants, variant, number, boolean, text, nat, int, float,
}
use guppylang.Types.Transform.{Transformer, transform, transform_row}
use guppylang.Types.Subst.{Inst, instantiator}

-- What `copyable` and `droppable` differ in.
pub record Trait : Type 0 where
  pub of_var : Bool → Bool → Bool
  pub never : OpaqueTypeDef → Bool
  pub of_struct : Bool → Bool

abbrev pub copying : Trait
copying = record {
  of_var = λ c d. c;
  never = λ defn. defn.never_copyable;
  of_struct = λ frozen. frozen;
}

abbrev pub dropping : Trait
dropping = record {
  of_var = λ c d. d;
  never = λ defn. defn.never_droppable;
  of_struct = λ frozen. true;
}

-- An `Inst` without gaps.
abbrev pub inst_of : Arguments → Inst
inst_of no_args = []
inst_of (arg_cons a rest) = some a ∷ inst_of rest

-- `all(...)`, which stops at the first false.
abbrev pub and_also : Outcome Bool → Outcome Bool → Outcome Bool
and_also first next = first >>= λ b. if b then next else built false

unfoldable pub all_types : (Ty → Outcome Bool) → Row → Outcome Bool
all_types test no_types = built true
all_types test (ty_cons t ts) = and_also (test t) (all_types test ts)

unfoldable pub all_args : (Ty → Outcome Bool) → Arguments → Outcome Bool
all_args test no_args = built true
all_args test (arg_cons (type_arg t) rest) = and_also (test t) (all_args test rest)
all_args test (arg_cons (const_arg c) rest) = all_args test rest

unfoldable pub all_variants : (Ty → Outcome Bool) → Variants → Outcome Bool
unfolding all_types
all_variants test no_variants = built true
all_variants test (variant row rest) = and_also (all_types test row) (all_variants test rest)

-- `variants_as_list`
unfoldable pub instantiate_variants : Transformer → Variants → Outcome Variants
unfolding transform
instantiate_variants inst no_variants = built no_variants
instantiate_variants inst (variant row rest) = transform_row inst row >>= λ row'.
    instantiate_variants inst rest >>= λ rest'. built (variant row' rest')

abbrev pub struct_fields : Arguments → StructDef → Outcome Row
struct_fields args (struct_def id frozen fields) =
    transform_row (instantiator (inst_of args) false) fields

abbrev pub is_frozen : StructDef → Bool
is_frozen (struct_def id frozen fields) = frozen

abbrev pub variants_of : Arguments → EnumDef → Outcome Variants
variants_of args (enum_def id vs) = instantiate_variants (instantiator (inst_of args) false) vs

unfoldable pub has_trait : Trait → ℕ → Ty → Outcome Bool
unfolding all_types all_args all_variants
has_trait tr zero ty = out_of_fuel
has_trait tr (suc n) (bound_type_var name idx c d) = built (tr.of_var c d)
has_trait tr (suc n) (existential_type_var name id c d) = built (tr.of_var c d)
has_trait tr (suc n) none_type = built true
has_trait tr (suc n) (numeric_type kind) = built true
has_trait tr (suc n) (function_type ins out pars comptime_args flags) = built true
has_trait tr (suc n) (function_def_type id args) = built true
has_trait tr (suc n) (tuple_type row) = all_types (has_trait tr n) row
has_trait tr (suc n) (opaque_type args defn) =
    if tr.never defn then built false else all_args (has_trait tr n) args
has_trait tr (suc n) (struct_type args defn) =
    if tr.of_struct (is_frozen defn)
    then (struct_fields args defn >>= λ row. all_types (has_trait tr n) row)
    else built false
has_trait tr (suc n) (enum_type args defn) =
    variants_of args defn >>= λ vs. all_variants (has_trait tr n) vs

-- How deeply a type nests arguments and fields: the fuel that `has_trait` needs.
unfoldable mutual
  pub depth : Ty → ℕ
  depth (tuple_type row) = depth_row row + 1
  depth (opaque_type args defn) = depth_args args + 1
  depth (struct_type args defn) = depth_args args + depth_struct defn + 1
  depth (enum_type args defn) = depth_args args + depth_enum defn + 1
  depth ty = 1

  pub depth_row : Row → ℕ
  depth_row no_types = 0
  depth_row (ty_cons t ts) = max (depth t) (depth_row ts)

  pub depth_arg : Argument → ℕ
  depth_arg (type_arg t) = depth t
  depth_arg (const_arg c) = 0

  pub depth_args : Arguments → ℕ
  depth_args no_args = 0
  depth_args (arg_cons a rest) = max (depth_arg a) (depth_args rest)

  pub depth_struct : StructDef → ℕ
  depth_struct (struct_def id frozen fields) = depth_row fields

  pub depth_enum : EnumDef → ℕ
  depth_enum (enum_def id vs) = depth_variants vs

  pub depth_variants : Variants → ℕ
  depth_variants no_variants = 0
  depth_variants (variant row rest) = max (depth_row row) (depth_variants rest)

unfoldable pub copyable : Ty → Outcome Bool
copyable ty = has_trait copying (depth ty) ty

unfoldable pub droppable : Ty → Outcome Bool
droppable ty = has_trait dropping (depth ty) ty

unfoldable pub linear : Ty → Outcome Bool
linear ty = copyable ty >>= λ c. if c then built false else (droppable ty >>= λ d. built (not d))

unfoldable pub affine : Ty → Outcome Bool
affine ty = copyable ty >>= λ c. if c then built false else droppable ty
