-- ===== src/Types.antt =====
-- The types of guppylang-internals/src/guppylang_internals/tys: `ty.py`, `const.py`, `arg.py` and
-- `param.py`. Type variables without protocol bounds (`implements` is empty); a `defn` is an `id`

-- with what the types read of it.
pub mod Transform
pub mod Subst
pub mod Linear
pub mod Finishes
pub mod Equal
pub mod Unify
pub mod Visit
pub mod Generic
pub mod Samples
pub mod Ensures
use Prim.Native.String.{String}
use guppylang.Common.{ℕ, Bool, Option, List}
use guppylang.Unitary.{UnitaryFlags}

pub data Kind : Type 0 where
  nat int float : Kind

pub record InputFlags : Type 0 where
  pub inout : Bool
  pub owned : Bool
  pub comptime : Bool

pub record OpaqueTypeDef : Type 0 where
  pub id : ℕ
  pub never_copyable : Bool
  pub never_droppable : Bool

-- A Python value in a `ConstValue`.
pub data Value : Type 0 where
  number : ℕ → Value
  boolean : Bool → Value
  text : String → Value

mutual
  pub data Ty : Type 0 where
    -- display name, index, copyable, droppable
    bound_type_var : String → ℕ → Bool → Bool → Ty
    -- display name, id, copyable, droppable
    existential_type_var : String → ℕ → Bool → Bool → Ty
    none_type : Ty
    numeric_type : Kind → Ty
    -- inputs, output, params, comptime arguments
    function_type : Inputs → Ty → Params → Arguments → UnitaryFlags → Ty
    function_def_type : ℕ → Arguments → Ty
    tuple_type : Row → Ty
    opaque_type : Arguments → OpaqueTypeDef → Ty
    struct_type : Arguments → StructDef → Ty
    enum_type : Arguments → EnumDef → Ty

  -- `TypeRow`
  pub data Row : Type 0 where
    no_types : Row
    ty_cons : Ty → Row → Row

  -- `FuncInput`s
  pub data Inputs : Type 0 where
    no_inputs : Inputs
    input : Ty → InputFlags → Option String → Inputs → Inputs

  pub data Const : Type 0 where
    const_value : Ty → Value → Const
    -- type, display name, index
    bound_const_var : Ty → String → ℕ → Const
    -- type, display name, id
    existential_const_var : Ty → String → ℕ → Const

  pub data Argument : Type 0 where
    type_arg : Ty → Argument
    const_arg : Const → Argument

  pub data Arguments : Type 0 where
    no_args : Arguments
    arg_cons : Argument → Arguments → Arguments

  -- index, name, and must be copyable, must be droppable; or type, from a comptime argument
  pub data Parameter : Type 0 where
    type_param : ℕ → String → Bool → Bool → Parameter
    const_param : ℕ → String → Ty → Bool → Parameter

  pub data Params : Type 0 where
    no_params : Params
    param_cons : Parameter → Params → Params

  -- id, frozen, and the types of the fields
  pub data StructDef : Type 0 where
    struct_def : ℕ → Bool → Row → StructDef

  -- id and the variants
  pub data EnumDef : Type 0 where
    enum_def : ℕ → Variants → EnumDef

  pub data Variants : Type 0 where
    no_variants : Variants
    variant : Row → Variants → Variants

-- A value, an `InternalGuppyError`, or a failed `assert`.
pub data Outcome {ℓ} (A : Type ℓ) : Type ℓ where
  built : A → Outcome A
  internal_error : String → Outcome A
  assertion_failed : Outcome A
  -- the model's fuel is used up
  out_of_fuel : Outcome A

infixl 5 ◌>>=◌
abbrev pub ◌>>=◌ {ℓ κ} : {A : Type ℓ} {B : Type κ} → Outcome A → (A → Outcome B) → Outcome B
built a >>= f = f a
internal_error m >>= f = internal_error m
assertion_failed >>= f = assertion_failed
out_of_fuel >>= f = out_of_fuel

abbrev pub is_parametrized : Params → Bool
is_parametrized no_params = Bool.false
is_parametrized (param_cons p ps) = Bool.true
