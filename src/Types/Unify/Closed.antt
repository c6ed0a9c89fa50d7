-- ===== src/Types/Unify/Closed.antt =====
-- Closed types: without existential variables, also in the types of constants. Substitution leaves
-- them closed, and `height` bounds how deeply `unify` descends into them.
use guppylang.Common.{
  ℕ, ◌+◌, ◌≡◌, refl, Option, none, some, [], ◌∷◌, ◌==◌, Bool-cases, inl, inr, nat_eq, string_eq,
  arith,
}
use Prim.Native.Nat.{max}
use guppylang.Common.Dict.{get}
use guppylang.Types.{
  Ty, Row, Inputs, Const, Argument, Arguments, built, bound_type_var, existential_type_var,
  none_type, numeric_type, function_type, function_def_type, tuple_type, opaque_type, struct_type,
  enum_type, no_types, ty_cons, no_inputs, input, const_value, bound_const_var,
  existential_const_var, type_arg, const_arg, no_args, arg_cons,
}
use guppylang.Types.Transform.{
  transform, transform_row, transform_inputs, transform_const, transform_arg, transform_args,
}
use guppylang.Types.Ensures.{Ensures, Ensures-bind, post_init-Ensures, make_function-Ensures}
use guppylang.Types.Finishes.{Finishes, IsFuelFree}
use guppylang.Types.Subst.{
  Subst, substituter, substitute_type, substitute_const, solved_type, solved_const,
}
use guppylang.Types.Unify.{input_args, tuple_args}

unfoldable mutual
  pub IsClosed : Ty → Type 0
  IsClosed (existential_type_var name id c d) = ⊥
  IsClosed (function_type ins out ps cs flags) = InputsClosed ins × IsClosed out × ArgsClosed cs
  IsClosed (function_def_type id args) = ArgsClosed args
  IsClosed (tuple_type row) = RowClosed row
  IsClosed (opaque_type args defn) = ArgsClosed args
  IsClosed (struct_type args defn) = ArgsClosed args
  IsClosed (enum_type args defn) = ArgsClosed args
  IsClosed t = Unit {0}

  pub RowClosed : Row → Type 0
  RowClosed no_types = Unit {0}
  RowClosed (ty_cons t ts) = IsClosed t × RowClosed ts

  pub InputsClosed : Inputs → Type 0
  InputsClosed no_inputs = Unit {0}
  InputsClosed (input t f x is) = IsClosed t × InputsClosed is

  pub ConstClosed : Const → Type 0
  ConstClosed (const_value t v) = IsClosed t
  ConstClosed (bound_const_var t name idx) = IsClosed t
  ConstClosed (existential_const_var t name id) = ⊥

  pub ArgClosed : Argument → Type 0
  ArgClosed (type_arg t) = IsClosed t
  ArgClosed (const_arg c) = ConstClosed c

  pub ArgsClosed : Arguments → Type 0
  ArgsClosed no_args = Unit {0}
  ArgsClosed (arg_cons a rest) = ArgClosed a × ArgsClosed rest

-- All solutions are closed, and a variable has one.
abbrev pub SubstClosed : Subst → Type 0
SubstClosed [] = Unit
SubstClosed ((id, a) ∷ subst) = ArgClosed a × (get id subst ≡ none) × SubstClosed subst

pub get-ArgClosed :
    (id : ℕ) {a : Argument} (subst : Subst)
    → SubstClosed subst
    → get id subst ≡ some a
    → ArgClosed a
unfolding get
get-ArgClosed id [] k e = cc
get-ArgClosed id {a} ((j, b) ∷ subst) k e = elim (Bool-cases (id == j)) [
  | inl same ↦ let b-eq : b ≡ a = ground arith in rw b-eq at k.0
  | inr other ↦ get-ArgClosed id subst k.2 (ground arith)
]

unfoldable mutual
  pub height : Ty → ℕ
  height (function_type ins out ps cs flags) =
      max (height_inputs ins) (max (height out) (height_args cs)) + 1
  height (function_def_type id args) = height_args args + 1
  height (tuple_type row) = height_row row + 1
  height (opaque_type args defn) = height_args args + 1
  height (struct_type args defn) = height_args args + 1
  height (enum_type args defn) = height_args args + 1
  height t = 1

  pub height_row : Row → ℕ
  height_row no_types = 0
  height_row (ty_cons t ts) = max (height t) (height_row ts)

  pub height_inputs : Inputs → ℕ
  height_inputs no_inputs = 0
  height_inputs (input t f x is) = max (height t) (height_inputs is)

  pub height_const : Const → ℕ
  height_const (const_value t v) = height t + 1
  height_const (bound_const_var t name idx) = height t + 1
  height_const (existential_const_var t name id) = height t + 1

  pub height_arg : Argument → ℕ
  height_arg (type_arg t) = height t
  height_arg (const_arg c) = height_const c

  pub height_args : Arguments → ℕ
  height_args no_args = 0
  height_args (arg_cons a rest) = max (height_arg a) (height_args rest)

pub height-input_args :
    (ins : Inputs) (rest : Arguments)
    → height_args (input_args ins rest) ≡ max (height_inputs ins) (height_args rest)
unfolding input_args height
height-input_args no_inputs rest = omega arith
height-input_args (input t f x is) rest = omega (arith, height-input_args is rest)

pub height-tuple_args : (row : Row) → height_args (tuple_args row) ≡ height_row row
unfolding tuple_args height
height-tuple_args no_types = refl
height-tuple_args (ty_cons t ts) = rw (height-tuple_args ts) refl

pub input_args-ArgsClosed :
    (ins : Inputs) (rest : Arguments)
    → InputsClosed ins
    → ArgsClosed rest
    → ArgsClosed (input_args ins rest)
unfolding input_args IsClosed
input_args-ArgsClosed no_inputs rest h k = k
input_args-ArgsClosed (input t f x is) rest h k = (h.0, input_args-ArgsClosed is rest h.1 k)

pub tuple_args-ArgsClosed : (row : Row) → RowClosed row → ArgsClosed (tuple_args row)
unfolding tuple_args IsClosed
tuple_args-ArgsClosed no_types h = tt
tuple_args-ArgsClosed (ty_cons t ts) h = (h.0, tuple_args-ArgsClosed ts h.1)

module _ (s : Subst) where
  solved_type-Finishes : (o : Option Argument) → Finishes (solved_type o)
  solved_type-Finishes none = tt
  solved_type-Finishes (some (type_arg t)) = tt
  solved_type-Finishes (some (const_arg t)) = tt

  solved_const-Finishes : (o : Option Argument) → Finishes (solved_const o)
  solved_const-Finishes none = tt
  solved_const-Finishes (some (type_arg t)) = tt
  solved_const-Finishes (some (const_arg t)) = tt

  substitute_type-Finishes : (t : Ty) → Finishes (substitute_type s t)
  substitute_type-Finishes (existential_type_var name id c d) = solved_type-Finishes (get id s)
  substitute_type-Finishes none_type = tt
  substitute_type-Finishes _ = tt

  substitute_const-Finishes : (c : Const) → Finishes (substitute_const s c)
  substitute_const-Finishes (existential_const_var t name id) = solved_const-Finishes (get id s)
  substitute_const-Finishes (const_value t v) = tt
  substitute_const-Finishes _ = tt

  pub substituter-IsFuelFree : IsFuelFree (substituter s)
  unfolding substituter
  substituter-IsFuelFree = record {
    type_ends = substitute_type-Finishes;
    const_ends = substitute_const-Finishes;
  }

  closed_unsolved : (t : Ty) → IsClosed t → substitute_type s t ≡ built none
  unfolding IsClosed
  closed_unsolved (existential_type_var name id c d) h = absurd h
  closed_unsolved none_type h = refl
  closed_unsolved _ h = refl

  pub transform_const_closed :
      (c : Const) → ConstClosed c → transform_const (substituter s) c ≡ built c
  unfolding transform substituter IsClosed
  transform_const_closed (const_value t v) h = refl
  transform_const_closed (bound_const_var t name idx) h = rw (closed_unsolved t h) refl
  transform_const_closed (existential_const_var t name id) h = absurd h

  mutual
    unfolding transform substituter IsClosed

    pub substitute-IsClosed : (t : Ty) → IsClosed t → Ensures IsClosed (transform (substituter s) t)
    substitute-IsClosed (bound_type_var name idx c d) h = tt
    substitute-IsClosed (existential_type_var name id c d) h = absurd h
    substitute-IsClosed none_type h = tt
    substitute-IsClosed (numeric_type kind) h = tt
    substitute-IsClosed (function_type ins out pars comptime_args flags) h =
        Ensures-bind InputsClosed IsClosed (transform_inputs (substituter s) ins) _
          (inputs-InputsClosed ins h.0)
          (λ ins' p.
            Ensures-bind IsClosed IsClosed (transform (substituter s) out) _
              (substitute-IsClosed out h.1)
              (λ out' q.
                make_function-Ensures ins' out' pars comptime_args flags IsClosed (p, q, h.2)))
    substitute-IsClosed (function_def_type id args) h =
        Ensures-bind ArgsClosed IsClosed (transform_args (substituter s) args) _
          (args-ArgsClosed args h) (λ args' p. p)
    substitute-IsClosed (tuple_type row) h =
        Ensures-bind RowClosed IsClosed (transform_row (substituter s) row) _ (row-RowClosed row h)
          (λ row' p. p)
    substitute-IsClosed (opaque_type args defn) h =
        Ensures-bind ArgsClosed IsClosed (transform_args (substituter s) args) _
          (args-ArgsClosed args h)
          (λ args' p. post_init-Ensures args' (opaque_type args' defn) IsClosed p)
    substitute-IsClosed (struct_type args defn) h =
        Ensures-bind ArgsClosed IsClosed (transform_args (substituter s) args) _
          (args-ArgsClosed args h)
          (λ args' p. post_init-Ensures args' (struct_type args' defn) IsClosed p)
    substitute-IsClosed (enum_type args defn) h =
        Ensures-bind ArgsClosed IsClosed (transform_args (substituter s) args) _
          (args-ArgsClosed args h)
          (λ args' p. post_init-Ensures args' (enum_type args' defn) IsClosed p)

    row-RowClosed :
        (row : Row) → RowClosed row → Ensures RowClosed (transform_row (substituter s) row)
    row-RowClosed no_types h = tt
    row-RowClosed (ty_cons t ts) h =
        Ensures-bind IsClosed RowClosed (transform (substituter s) t) _ (substitute-IsClosed t h.0)
          (λ t' p.
            Ensures-bind RowClosed RowClosed (transform_row (substituter s) ts) _
              (row-RowClosed ts h.1) (λ ts' q. (p, q)))

    inputs-InputsClosed :
        (ins : Inputs)
        → InputsClosed ins
        → Ensures InputsClosed (transform_inputs (substituter s) ins)
    inputs-InputsClosed no_inputs h = tt
    inputs-InputsClosed (input t f x is) h =
        Ensures-bind IsClosed InputsClosed (transform (substituter s) t) _
          (substitute-IsClosed t h.0)
          (λ t' p.
            Ensures-bind InputsClosed InputsClosed (transform_inputs (substituter s) is) _
              (inputs-InputsClosed is h.1) (λ ts' q. (p, q)))

    const-ConstClosed :
        (c : Const) → ConstClosed c → Ensures ConstClosed (transform_const (substituter s) c)
    const-ConstClosed (const_value t w) h = h
    const-ConstClosed (bound_const_var t name idx) h = rw (closed_unsolved t h) h
    const-ConstClosed (existential_const_var t name id) h = absurd h

    arg-ArgClosed :
        (a : Argument) → ArgClosed a → Ensures ArgClosed (transform_arg (substituter s) a)
    arg-ArgClosed (type_arg t) h =
        Ensures-bind IsClosed ArgClosed (transform (substituter s) t) _ (substitute-IsClosed t h)
          (λ t' p. p)
    arg-ArgClosed (const_arg c) h =
        Ensures-bind ConstClosed ArgClosed (transform_const (substituter s) c) _
          (const-ConstClosed c h) (λ t' p. p)

    args-ArgsClosed :
        (args : Arguments)
        → ArgsClosed args
        → Ensures ArgsClosed (transform_args (substituter s) args)
    args-ArgsClosed no_args h = tt
    args-ArgsClosed (arg_cons a rest) h =
        Ensures-bind ArgClosed ArgsClosed (transform_arg (substituter s) a) _ (arg-ArgClosed a h.0)
          (λ t' p.
            Ensures-bind ArgsClosed ArgsClosed (transform_args (substituter s) rest) _
              (args-ArgsClosed rest h.1) (λ ts' q. (p, q)))
