-- ===== src/Types/Finishes.antt =====
-- Computations that do not run out of fuel; `transform` needs none.
use guppylang.Common.{
  ◌≡◌, refl, Bool, true, false, Option, none, some, if◌then◌else◌, length, ◌==◌, ◌||◌,
}
use guppylang.Types.{
  Ty, Row, Inputs, Const, Argument, Arguments, Params, Outcome, built, internal_error,
  assertion_failed, out_of_fuel, ◌>>=◌, bound_type_var, existential_type_var, none_type,
  numeric_type, function_type, function_def_type, tuple_type, opaque_type, struct_type, enum_type,
  no_types, ty_cons, no_inputs, input, const_value, bound_const_var, existential_const_var,
  type_arg, const_arg, no_args, arg_cons,
}
use guppylang.Types.Transform.{
  Transformer, transform, transform_row, transform_inputs, transform_const, transform_arg,
  transform_args, post_init, is_higher_rank, make_function, or_else, names, count_inputs,
}
use guppylang.Types.Ensures.{Ensures}
use guppylang.Unitary.{UnitaryFlags}

abbrev pub Finishes {ℓ} : {A : Type ℓ} → Outcome A → Type 0
Finishes (built a) = Unit
Finishes (internal_error m) = Unit
Finishes assertion_failed = Unit
Finishes out_of_fuel = ⊥

pub Finishes-bind {ℓ κ} :
    {A : Type ℓ} {B : Type κ} (m : Outcome A) (f : A → Outcome B)
    → Finishes m
    → ((a : A) → m ≡ built a → Finishes (f a))
    → Finishes (m >>= f)
Finishes-bind (built a) f p k = k a refl
Finishes-bind (internal_error m) f p k = tt
Finishes-bind assertion_failed f p k = tt
Finishes-bind out_of_fuel f p k = p

pub Finishes-or_else :
    {A : Type 0} (m : Outcome (Option A)) (next : Outcome A)
    → Finishes m
    → Finishes next
    → Finishes (or_else m next)
Finishes-or_else (built (some a)) next p q = tt
Finishes-or_else (built none) next p q = q
Finishes-or_else (internal_error m) next p q = tt
Finishes-or_else assertion_failed next p q = tt
Finishes-or_else out_of_fuel next p q = p

pub Finishes-if {ℓ} :
    {A : Type ℓ} (b : Bool) (m n : Outcome A)
    → Finishes m
    → Finishes n
    → Finishes (if b then m else n)
Finishes-if true m n p q = p
Finishes-if false m n p q = q

-- The computation does not run out of fuel, and a value that it returns has `P`.
abbrev pub Returns {ℓ} : {A : Type ℓ} → (A → Type 0) → Outcome A → Type 0
Returns P (built a) = P a
Returns P (internal_error m) = Unit
Returns P assertion_failed = Unit
Returns P out_of_fuel = ⊥

pub Returns-bind {ℓ κ} :
    {A : Type ℓ} {B : Type κ} (P : A → Type 0) (Q : B → Type 0) (m : Outcome A) (f : A → Outcome B)
    → Returns P m
    → ((a : A) → P a → Returns Q (f a))
    → Returns Q (m >>= f)
Returns-bind P Q (built a) f p k = k a p
Returns-bind P Q (internal_error m) f p k = tt
Returns-bind P Q assertion_failed f p k = tt
Returns-bind P Q out_of_fuel f p k = p

pub Returns-both {ℓ} :
    {A : Type ℓ} (P : A → Type 0) (m : Outcome A) → Finishes m → Ensures P m → Returns P m
Returns-both P (built a) f p = p
Returns-both P (internal_error m) f p = tt
Returns-both P assertion_failed f p = tt
Returns-both P out_of_fuel f p = f

pub Returns-Finishes {ℓ} : {A : Type ℓ} (P : A → Type 0) (m : Outcome A) → Returns P m → Finishes m
Returns-Finishes P (built a) p = tt
Returns-Finishes P (internal_error m) p = tt
Returns-Finishes P assertion_failed p = tt
Returns-Finishes P out_of_fuel p = p

pub Returns-if {ℓ} :
    {A : Type ℓ} (P : A → Type 0) (b : Bool) (m n : Outcome A)
    → Returns P m
    → Returns P n
    → Returns P (if b then m else n)
Returns-if P true m n p q = p
Returns-if P false m n p q = q

pub Returns-any {ℓ} : {A : Type ℓ} (m : Outcome A) → Finishes m → Returns (λ _. Unit {0}) m
Returns-any (built a) p = tt
Returns-any (internal_error m) p = tt
Returns-any assertion_failed p = tt
Returns-any out_of_fuel p = p

pub record IsFuelFree (tr : Transformer) : Type 0 where
  pub type_ends : (t : Ty) → Finishes (tr.of_type t)
  pub const_ends : (c : Const) → Finishes (tr.of_const c)

module _ (tr : Transformer) (h : IsFuelFree tr) where
  post_init-Finishes : (args : Arguments) (t : Ty) → Finishes (post_init args t)
  unfolding post_init
  post_init-Finishes args t = Finishes-if (is_higher_rank args) _ _ tt tt

  make_function-Finishes :
      (ins : Inputs) (out : Ty) (ps : Params) (cs : Arguments) (flags : UnitaryFlags)
      → Finishes (make_function ins out ps cs flags)
  unfolding make_function
  make_function-Finishes ins out ps cs flags =
      Finishes-if (length (names ins) == 0 || length (names ins) == count_inputs ins) _ _ tt tt

  parametrized :
      (ty : Ty) (make : Arguments → Ty) (args : Arguments)
      → Finishes (transform_args tr args)
      → Finishes (
          or_else
            (tr.of_type ty)
            (transform_args tr args >>= λ args'. post_init args' (make args')))
  parametrized ty make args p =
      Finishes-or_else (tr.of_type ty)
        (transform_args tr args >>= λ args'. post_init args' (make args')) (h.type_ends ty)
        (Finishes-bind (transform_args tr args) _ p
          (λ args' _. post_init-Finishes args' (make args')))

  mutual
    unfolding transform

    pub transform-Finishes : (t : Ty) → Finishes (transform tr t)
    transform-Finishes (bound_type_var name idx c d) =
        Finishes-or_else (tr.of_type (bound_type_var name idx c d))
          (built (bound_type_var name idx c d)) (h.type_ends (bound_type_var name idx c d)) tt
    transform-Finishes (existential_type_var name idx c d) =
        Finishes-or_else (tr.of_type (existential_type_var name idx c d))
          (built (existential_type_var name idx c d))
          (h.type_ends (existential_type_var name idx c d)) tt
    transform-Finishes none_type =
        Finishes-or_else (tr.of_type none_type) (built none_type) (h.type_ends none_type) tt
    transform-Finishes (numeric_type kind) =
        Finishes-or_else (tr.of_type (numeric_type kind)) (built (numeric_type kind))
          (h.type_ends (numeric_type kind)) tt
    transform-Finishes (function_type ins out pars cs flags) =
        Finishes-or_else (tr.of_type (function_type ins out pars cs flags)) _
          (h.type_ends (function_type ins out pars cs flags))
          (Finishes-bind (transform_inputs tr ins) _ (inputs_finish ins) (λ ins' _.
            Finishes-bind (transform tr out) _ (transform-Finishes out)
              (λ out' _. make_function-Finishes ins' out' pars cs flags)))
    transform-Finishes (function_def_type id args) =
        Finishes-or_else (tr.of_type (function_def_type id args)) _
          (h.type_ends (function_def_type id args))
          (Finishes-bind (transform_args tr args) _ (args_finish args) (λ args' _. tt))
    transform-Finishes (tuple_type row) =
        Finishes-or_else (tr.of_type (tuple_type row)) _ (h.type_ends (tuple_type row))
          (Finishes-bind (transform_row tr row) _ (row-Finishes row) (λ row' _. tt))
    transform-Finishes (opaque_type args defn) =
        parametrized (opaque_type args defn) (λ args'. opaque_type args' defn) args
          (args_finish args)
    transform-Finishes (struct_type args defn) =
        parametrized (struct_type args defn) (λ args'. struct_type args' defn) args
          (args_finish args)
    transform-Finishes (enum_type args defn) =
        parametrized (enum_type args defn) (λ args'. enum_type args' defn) args (args_finish args)

    pub row-Finishes : (row : Row) → Finishes (transform_row tr row)
    row-Finishes no_types = tt
    row-Finishes (ty_cons t ts) =
        Finishes-bind (transform tr t) _ (transform-Finishes t)
          (λ t' _. Finishes-bind (transform_row tr ts) _ (row-Finishes ts) (λ ts' _. tt))

    inputs_finish : (ins : Inputs) → Finishes (transform_inputs tr ins)
    inputs_finish no_inputs = tt
    inputs_finish (input t f x is) =
        Finishes-bind (transform tr t) _ (transform-Finishes t)
          (λ t' _. Finishes-bind (transform_inputs tr is) _ (inputs_finish is) (λ ts' _. tt))

    pub const-Finishes : (c : Const) → Finishes (transform_const tr c)
    const-Finishes (const_value t v) =
        Finishes-or_else (tr.of_const (const_value t v)) (built (const_value t v))
          (h.const_ends (const_value t v)) tt
    const-Finishes (bound_const_var t name idx) =
        Finishes-or_else (tr.of_const (bound_const_var t name idx)) _
          (h.const_ends (bound_const_var t name idx))
          (Finishes-bind (or_else (tr.of_type t) (built t)) _
            (Finishes-or_else (tr.of_type t) (built t) (h.type_ends t) tt) (λ t' _. tt))
    const-Finishes (existential_const_var t name id) =
        Finishes-or_else (tr.of_const (existential_const_var t name id)) _
          (h.const_ends (existential_const_var t name id))
          (Finishes-bind (transform tr t) _ (transform-Finishes t) (λ t' _. tt))

    arg-Finishes : (a : Argument) → Finishes (transform_arg tr a)
    arg-Finishes (type_arg t) = Finishes-bind (transform tr t) _ (transform-Finishes t) (λ t' _. tt)
    arg-Finishes (const_arg c) =
        Finishes-bind (transform_const tr c) _ (const-Finishes c) (λ t' _. tt)

    pub args_finish : (args : Arguments) → Finishes (transform_args tr args)
    args_finish no_args = tt
    args_finish (arg_cons a rest) =
        Finishes-bind (transform_arg tr a) _ (arg-Finishes a)
          (λ t' _. Finishes-bind (transform_args tr rest) _ (args_finish rest) (λ ts' _. tt))
