-- ===== src/Types/Subst/Unsolved.antt =====
-- What `Substituter` leaves unsolved.
use guppylang.Common.{
  ℕ, ◌≡◌, refl, sym, Bool, Option, none, some, String, List, [], ◌∷◌, ◌++◌, nat_eq, string_eq,
}
use mathlib.Core.List.{append_assoc, append-nil}
use guppylang.Common.Dict.{get}
use guppylang.Types.{
  Ty, Row, Inputs, Const, Argument, Arguments, built, ◌>>=◌, bound_type_var, existential_type_var,
  none_type, numeric_type, function_type, function_def_type, tuple_type, opaque_type, struct_type,
  enum_type, no_types, ty_cons, no_inputs, input, const_value, bound_const_var,
  existential_const_var, type_arg, const_arg, no_args, arg_cons,
}
use guppylang.Types.Transform.{
  transform, transform_row, transform_inputs, transform_const, transform_arg, transform_args,
  or_else,
}
use guppylang.Types.Ensures.{
  Ensures, Ensures-bind, Ensures-any, Ensures-built, post_init-Ensures, make_function-Ensures,
}
use guppylang.Types.Subst.{
  Subst, substituter, substitute, substitute_type, solved_type, solved_const, unsolved_vars,
  unsolved_row, unsolved_inputs, unsolved_const, unsolved_arg, unsolved_args,
}

-- The variables that stand for `id` after the substitution.
pub image_of : Option Argument → ℕ → List ℕ
image_of none id = id ∷ []
image_of (some a) id = unsolved_arg a

unfoldable pub image : Subst → List ℕ → List ℕ
unfolding image_of
image s [] = []
image s (id ∷ ids) = image_of (get id s) id ++ image s ids

image-append : (s : Subst) (xs ys : List ℕ) → image s (xs ++ ys) ≡ image s xs ++ image s ys
unfolding image
image-append s [] ys = refl
image-append s (x ∷ xs) ys = simp (image-append s xs ys, append_assoc)

-- The comptime arguments of function types, which a transformer leaves alone, have none of the
-- variables that the substitution solves.
unfoldable mutual
  pub HasFixedComptime : Subst → Ty → Type 0
  HasFixedComptime s (function_type ins out pars comptime_args flags) =
      InputsFixed s ins
      × HasFixedComptime s out
      × (image s (unsolved_args comptime_args) ≡ unsolved_args comptime_args)
  HasFixedComptime s (function_def_type id args) = ArgsFixed s args
  HasFixedComptime s (tuple_type row) = RowFixed s row
  HasFixedComptime s (opaque_type args defn) = ArgsFixed s args
  HasFixedComptime s (struct_type args defn) = ArgsFixed s args
  HasFixedComptime s (enum_type args defn) = ArgsFixed s args
  HasFixedComptime s ty = Unit {0}

  pub RowFixed : Subst → Row → Type 0
  RowFixed s no_types = Unit {0}
  RowFixed s (ty_cons t ts) = HasFixedComptime s t × RowFixed s ts

  pub InputsFixed : Subst → Inputs → Type 0
  InputsFixed s no_inputs = Unit {0}
  InputsFixed s (input t f x is) = HasFixedComptime s t × InputsFixed s is

  pub ConstFixed : Subst → Const → Type 0
  ConstFixed s (existential_const_var t name id) = HasFixedComptime s t
  ConstFixed s c = Unit {0}

  pub ArgFixed : Subst → Argument → Type 0
  ArgFixed s (type_arg t) = HasFixedComptime s t
  ArgFixed s (const_arg c) = ConstFixed s c

  pub ArgsFixed : Subst → Arguments → Type 0
  ArgsFixed s no_args = Unit {0}
  ArgsFixed s (arg_cons a rest) = ArgFixed s a × ArgsFixed s rest

module _ (s : Subst) where
  abbrev Left : Ty → Ty → Type 0
  Left t t' = unsolved_vars t' ≡ image s (unsolved_vars t)

  abbrev RowLeft : Row → Row → Type 0
  RowLeft r r' = unsolved_row r' ≡ image s (unsolved_row r)

  abbrev InputsLeft : Inputs → Inputs → Type 0
  InputsLeft r r' = unsolved_inputs r' ≡ image s (unsolved_inputs r)

  abbrev ConstLeft : Const → Const → Type 0
  ConstLeft r r' = unsolved_const r' ≡ image s (unsolved_const r)

  abbrev ArgLeft : Argument → Argument → Type 0
  ArgLeft r r' = unsolved_arg r' ≡ image s (unsolved_arg r)

  abbrev ArgsLeft : Arguments → Arguments → Type 0
  ArgsLeft r r' = unsolved_args r' ≡ image s (unsolved_args r)

  two :
      (xs ys : List ℕ) {xs' ys' : List ℕ}
      → xs' ≡ image s xs
      → ys' ≡ image s ys
      → xs' ++ ys' ≡ image s (xs ++ ys)
  two xs ys p q = rw (image-append s xs ys) (rw p (rw q refl))

  solved_type-Left :
      (name : String) (id : ℕ) (c d : Bool) (o : Option Argument)
      → get id s ≡ o
      → Ensures
          (Left (existential_type_var name id c d))
          (or_else (solved_type o) (built (existential_type_var name id c d)))
  unfolding unsolved_vars image image_of
  solved_type-Left name id c d none e = rw e refl
  solved_type-Left name id c d (some (type_arg t)) e = rw e (sym (append-nil _))
  solved_type-Left name id c d (some (const_arg t)) e = tt

  solved_const-Left :
      (t : Ty) (name : String) (id : ℕ) (o : Option Argument)
      → get id s ≡ o
      → Ensures (ConstLeft (existential_const_var t name id)) (
          or_else
            (solved_const o)
            (transform (substituter s) t >>= λ t'. built (existential_const_var t' name id)))
  unfolding unsolved_vars image image_of
  solved_const-Left t name id none e =
      Ensures-bind (λ _. Unit {0}) (ConstLeft (existential_const_var t name id))
        (transform (substituter s) t) _ (Ensures-any (transform (substituter s) t))
        (λ t' _. rw e refl)
  solved_const-Left t name id (some (const_arg c)) e = rw e (sym (append-nil _))
  solved_const-Left t name id (some (type_arg c)) e = tt

  mutual
    unfolding transform substituter unsolved_vars image HasFixedComptime

    Left-transform :
        (t : Ty) → HasFixedComptime s t → Ensures (Left t) (transform (substituter s) t)
    Left-transform (bound_type_var name idx c d) h = refl
    Left-transform (existential_type_var name id c d) h =
        solved_type-Left name id c d (get id s) refl
    Left-transform none_type h = refl
    Left-transform (numeric_type kind) h = refl
    Left-transform (function_type ins out pars comptime_args flags) h =
        Ensures-bind (InputsLeft ins) (Left (function_type ins out pars comptime_args flags))
          (transform_inputs (substituter s) ins) _ (Left-inputs ins h.0)
          (λ ins' p.
            Ensures-bind (Left out) (Left (function_type ins out pars comptime_args flags))
              (transform (substituter s) out) _ (Left-transform out h.1)
              (λ out' q.
                make_function-Ensures ins' out' pars comptime_args flags
                  (Left (function_type ins out pars comptime_args flags))
                  (two (unsolved_inputs ins) (unsolved_vars out ++ unsolved_args comptime_args) p
                    (two (unsolved_vars out) (unsolved_args comptime_args) q (sym h.2)))))
    Left-transform (function_def_type id args) h =
        Ensures-bind (ArgsLeft args) (Left (function_def_type id args))
          (transform_args (substituter s) args) _ (Left-args args h) (λ args' p. refl)
    Left-transform (tuple_type row) h =
        Ensures-bind (RowLeft row) (Left (tuple_type row)) (transform_row (substituter s) row) _
          (Left-row row h) (λ row' p. p)
    Left-transform (opaque_type args defn) h =
        Ensures-bind (ArgsLeft args) (Left (opaque_type args defn))
          (transform_args (substituter s) args) _ (Left-args args h)
          (λ args' p.
            post_init-Ensures args' (opaque_type args' defn) (Left (opaque_type args defn)) p)
    Left-transform (struct_type args defn) h =
        Ensures-bind (ArgsLeft args) (Left (struct_type args defn))
          (transform_args (substituter s) args) _ (Left-args args h)
          (λ args' p.
            post_init-Ensures args' (struct_type args' defn) (Left (struct_type args defn)) p)
    Left-transform (enum_type args defn) h =
        Ensures-bind (ArgsLeft args) (Left (enum_type args defn))
          (transform_args (substituter s) args) _ (Left-args args h)
          (λ args' p. post_init-Ensures args' (enum_type args' defn) (Left (enum_type args defn)) p)

    Left-row :
        (row : Row) → RowFixed s row → Ensures (RowLeft row) (transform_row (substituter s) row)
    Left-row no_types h = refl
    Left-row (ty_cons t ts) h =
        Ensures-bind (Left t) (RowLeft (ty_cons t ts)) (transform (substituter s) t) _
          (Left-transform t h.0)
          (λ t' p.
            Ensures-bind (RowLeft ts) (RowLeft (ty_cons t ts)) (transform_row (substituter s) ts) _
              (Left-row ts h.1) (λ ts' q. two (unsolved_vars t) (unsolved_row ts) p q))

    Left-inputs :
        (ins : Inputs)
        → InputsFixed s ins
        → Ensures (InputsLeft ins) (transform_inputs (substituter s) ins)
    Left-inputs no_inputs h = refl
    Left-inputs (input t f x is) h =
        Ensures-bind (Left t) (InputsLeft (input t f x is)) (transform (substituter s) t) _
          (Left-transform t h.0)
          (λ t' p.
            Ensures-bind (InputsLeft is) (InputsLeft (input t f x is))
              (transform_inputs (substituter s) is) _ (Left-inputs is h.1)
              (λ ts' q. two (unsolved_vars t) (unsolved_inputs is) p q))

    Left-const :
        (c : Const) → ConstFixed s c → Ensures (ConstLeft c) (transform_const (substituter s) c)
    Left-const (const_value t v) h = refl
    Left-const (bound_const_var t name idx) h =
        Ensures-bind (λ _. Unit {0}) (ConstLeft (bound_const_var t name idx))
          (or_else (substitute_type s t) (built t)) _
          (Ensures-any (or_else (substitute_type s t) (built t))) (λ t' _. refl)
    Left-const (existential_const_var t name id) h = solved_const-Left t name id (get id s) refl

    Left-arg : (a : Argument) → ArgFixed s a → Ensures (ArgLeft a) (transform_arg (substituter s) a)
    Left-arg (type_arg t) h =
        Ensures-bind (Left t) (ArgLeft (type_arg t)) (transform (substituter s) t) _
          (Left-transform t h) (λ t' p. p)
    Left-arg (const_arg c) h =
        Ensures-bind (ConstLeft c) (ArgLeft (const_arg c)) (transform_const (substituter s) c) _
          (Left-const c h) (λ t' p. p)

    Left-args :
        (args : Arguments)
        → ArgsFixed s args
        → Ensures (ArgsLeft args) (transform_args (substituter s) args)
    Left-args no_args h = refl
    Left-args (arg_cons a rest) h =
        Ensures-bind (ArgLeft a) (ArgsLeft (arg_cons a rest)) (transform_arg (substituter s) a) _
          (Left-arg a h.0)
          (λ t' p.
            Ensures-bind (ArgsLeft rest) (ArgsLeft (arg_cons a rest))
              (transform_args (substituter s) rest) _ (Left-args rest h.1)
              (λ ts' q. two (unsolved_arg a) (unsolved_args rest) p q))

  -- If substituting in a type succeeds, and its function types have no solved variable among their
  -- comptime arguments, then the variables that the result leaves unsolved are those of the type
  -- with each solved one replaced by the variables of its solution.
  pub unsolved_vars-substitute :
      (t t' : Ty)
      → HasFixedComptime s t
      → substitute s t ≡ built t'
      → unsolved_vars t' ≡ image s (unsolved_vars t)
  unsolved_vars-substitute t t' h e =
      Ensures-built (Left t) (substitute s t) t' (Left-transform t h) e
