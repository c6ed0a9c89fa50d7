-- ===== src/Types/Unify/Meaning.antt =====
-- What a type means under a valuation of its existential variables: a tree that forgets what
-- equations between arguments do not fix: the types of constants, the flags and parameters of
-- functions, the names and bounds of bound variables.
use guppylang.Common.{ℕ, ◌≡◌, refl, sym, Bool, Option, none, some, String, nat_eq, string_eq}
use guppylang.Common.Dict.{get, Entries, get-Entries}
use guppylang.Types.{
  Kind, Ty, Row, Inputs, Const, Argument, Arguments, Value, built, ◌>>=◌, bound_type_var,
  existential_type_var, none_type, numeric_type, function_type, function_def_type, tuple_type,
  opaque_type, struct_type, enum_type, no_types, ty_cons, no_inputs, input, const_value,
  bound_const_var, existential_const_var, type_arg, const_arg, no_args, arg_cons, number, boolean,
  text,
}
use guppylang.Types.Transform.{
  transform, transform_row, transform_inputs, transform_const, transform_arg, transform_args,
  or_else,
}
use guppylang.Types.Ensures.{
  Ensures, Ensures-bind, Ensures-any, post_init-Ensures, make_function-Ensures,
}
use guppylang.Types.Subst.{
  Subst, substituter, substitute, substitute_type, solved_type, solved_const,
}
use guppylang.Types.Equal.{truth_number, struct_id, enum_id}
use guppylang.Types.Unify.{input_args, tuple_args}

pub data Label : Type 0 where
  bound : ℕ → Label
  nothing : Label
  numeric : Kind → Label
  function : Label
  definition : ℕ → Label
  tuple : Label
  opaque : ℕ → Label
  struct : ℕ → Label
  enum : ℕ → Label
  num : ℕ → Label
  str : String → Label

mutual
  pub data Tree : Type 0 where
    node : Label → Trees → Tree

  pub data Trees : Type 0 where
    no_trees : Trees
    tree_cons : Tree → Trees → Trees

abbrev pub Valuation : Type 0
Valuation = ℕ → Tree

abbrev pub value_label : Value → Label
value_label (number n) = num n
value_label (boolean b) = num (truth_number b)
value_label (text s) = str s

unfoldable mutual
  pub eval : Valuation → Ty → Tree
  eval v (bound_type_var name idx c d) = node (bound idx) no_trees
  eval v (existential_type_var name id c d) = v id
  eval v none_type = node nothing no_trees
  eval v (numeric_type k) = node (numeric k) no_trees
  eval v (function_type ins out ps cs flags) =
      node function (eval_inputs v ins (tree_cons (eval v out) (eval_args v cs)))
  eval v (function_def_type id args) = node (definition id) (eval_args v args)
  eval v (tuple_type row) = node tuple (eval_row v row)
  eval v (opaque_type args defn) = node (opaque defn.id) (eval_args v args)
  eval v (struct_type args defn) = node (struct (struct_id defn)) (eval_args v args)
  eval v (enum_type args defn) = node (enum (enum_id defn)) (eval_args v args)

  pub eval_row : Valuation → Row → Trees
  eval_row v no_types = no_trees
  eval_row v (ty_cons t ts) = tree_cons (eval v t) (eval_row v ts)

  pub eval_inputs : Valuation → Inputs → Trees → Trees
  eval_inputs v no_inputs rest = rest
  eval_inputs v (input t f x is) rest = tree_cons (eval v t) (eval_inputs v is rest)

  pub eval_const : Valuation → Const → Tree
  eval_const v (const_value t w) = node (value_label w) no_trees
  eval_const v (bound_const_var t name idx) = node (bound idx) no_trees
  eval_const v (existential_const_var t name id) = v id

  pub eval_arg : Valuation → Argument → Tree
  eval_arg v (type_arg t) = eval v t
  eval_arg v (const_arg c) = eval_const v c

  pub eval_args : Valuation → Arguments → Trees
  eval_args v no_args = no_trees
  eval_args v (arg_cons a rest) = tree_cons (eval_arg v a) (eval_args v rest)

-- The valuation meets each equation of the substitution.
abbrev pub Solves : Valuation → Subst → Type 0
Solves v subst = Entries (λ id a. v id ≡ eval_arg v a) subst

pub eval-input_args :
    (v : Valuation) (ins : Inputs) (rest : Arguments)
    → eval_args v (input_args ins rest) ≡ eval_inputs v ins (eval_args v rest)
unfolding input_args eval
eval-input_args v no_inputs rest = refl
eval-input_args v (input t f x is) rest = rw (eval-input_args v is rest) refl

pub eval-tuple_args : (v : Valuation) (row : Row) → eval_args v (tuple_args row) ≡ eval_row v row
unfolding tuple_args eval
eval-tuple_args v no_types = refl
eval-tuple_args v (ty_cons t ts) = rw (eval-tuple_args v ts) refl

module _ (v : Valuation) (s : Subst) (solves : Solves v s) where
  abbrev Same : Ty → Ty → Type 0
  Same t t' = eval v t' ≡ eval v t

  abbrev RowSame : Row → Row → Type 0
  RowSame t t' = eval_row v t' ≡ eval_row v t

  abbrev InputsSame : Inputs → Inputs → Type 0
  InputsSame t t' = (rest : Trees) → eval_inputs v t' rest ≡ eval_inputs v t rest

  abbrev ConstSame : Const → Const → Type 0
  ConstSame t t' = eval_const v t' ≡ eval_const v t

  abbrev ArgSame : Argument → Argument → Type 0
  ArgSame t t' = eval_arg v t' ≡ eval_arg v t

  abbrev ArgsSame : Arguments → Arguments → Type 0
  ArgsSame t t' = eval_args v t' ≡ eval_args v t

  solved : (id : ℕ) {a : Argument} → get id s ≡ some a → v id ≡ eval_arg v a
  solved id e = get-Entries (λ i a. v i ≡ eval_arg v a) id s solves e

  solved_type-Same :
      (name : String) (id : ℕ) (c d : Bool) (o : Option Argument)
      → get id s ≡ o
      → Ensures
          (Same (existential_type_var name id c d))
          (or_else (solved_type o) (built (existential_type_var name id c d)))
  unfolding eval
  solved_type-Same name id c d none e = refl
  solved_type-Same name id c d (some (type_arg t)) e = sym (solved id e)
  solved_type-Same name id c d (some (const_arg t)) e = tt

  solved_const-Same :
      (t : Ty) (name : String) (id : ℕ) (o : Option Argument)
      → get id s ≡ o
      → Ensures (ConstSame (existential_const_var t name id)) (
          or_else
            (solved_const o)
            (transform (substituter s) t >>= λ t'. built (existential_const_var t' name id)))
  unfolding eval
  solved_const-Same t name id none e =
      Ensures-bind (λ _. Unit {0}) (ConstSame (existential_const_var t name id))
        (transform (substituter s) t) _ (Ensures-any (transform (substituter s) t)) (λ t' _. refl)
  solved_const-Same t name id (some (const_arg c)) e = sym (solved id e)
  solved_const-Same t name id (some (type_arg c)) e = tt

  mutual
    unfolding transform substituter eval

    Same-transform : (t : Ty) → Ensures (Same t) (transform (substituter s) t)
    Same-transform (bound_type_var name idx c d) = refl
    Same-transform (existential_type_var name id c d) = solved_type-Same name id c d (get id s) refl
    Same-transform none_type = refl
    Same-transform (numeric_type kind) = refl
    Same-transform (function_type ins out pars comptime_args flags) =
        Ensures-bind (InputsSame ins) (Same (function_type ins out pars comptime_args flags))
          (transform_inputs (substituter s) ins) _ (Same-inputs ins)
          (λ ins' p.
            Ensures-bind (Same out) (Same (function_type ins out pars comptime_args flags))
              (transform (substituter s) out) _ (Same-transform out)
              (λ out' q.
                make_function-Ensures ins' out' pars comptime_args flags
                  (Same (function_type ins out pars comptime_args flags))
                  (rw (p (tree_cons (eval v out') (eval_args v comptime_args))) (rw q refl))))
    Same-transform (function_def_type id args) =
        Ensures-bind (ArgsSame args) (Same (function_def_type id args))
          (transform_args (substituter s) args) _ (Same-args args) (λ args' p. rw p refl)
    Same-transform (tuple_type row) =
        Ensures-bind (RowSame row) (Same (tuple_type row)) (transform_row (substituter s) row) _
          (Same-row row) (λ row' p. rw p refl)
    Same-transform (opaque_type args defn) =
        Ensures-bind (ArgsSame args) (Same (opaque_type args defn))
          (transform_args (substituter s) args) _ (Same-args args)
          (λ args' p.
            post_init-Ensures args' (opaque_type args' defn) (Same (opaque_type args defn))
              (rw p refl))
    Same-transform (struct_type args defn) =
        Ensures-bind (ArgsSame args) (Same (struct_type args defn))
          (transform_args (substituter s) args) _ (Same-args args)
          (λ args' p.
            post_init-Ensures args' (struct_type args' defn) (Same (struct_type args defn))
              (rw p refl))
    Same-transform (enum_type args defn) =
        Ensures-bind (ArgsSame args) (Same (enum_type args defn))
          (transform_args (substituter s) args) _ (Same-args args)
          (λ args' p.
            post_init-Ensures args' (enum_type args' defn) (Same (enum_type args defn)) (rw p refl))

    Same-row : (row : Row) → Ensures (RowSame row) (transform_row (substituter s) row)
    Same-row no_types = refl
    Same-row (ty_cons t ts) =
        Ensures-bind (Same t) (RowSame (ty_cons t ts)) (transform (substituter s) t) _
          (Same-transform t)
          (λ t' p.
            Ensures-bind (RowSame ts) (RowSame (ty_cons t ts)) (transform_row (substituter s) ts) _
              (Same-row ts) (λ ts' q. rw (p, q) refl))

    Same-inputs : (ins : Inputs) → Ensures (InputsSame ins) (transform_inputs (substituter s) ins)
    Same-inputs no_inputs = λ rest. refl
    Same-inputs (input t f x is) =
        Ensures-bind (Same t) (InputsSame (input t f x is)) (transform (substituter s) t) _
          (Same-transform t)
          (λ t' p.
            Ensures-bind (InputsSame is) (InputsSame (input t f x is))
              (transform_inputs (substituter s) is) _ (Same-inputs is)
              (λ ts' q rest. rw (p, q rest) refl))

    pub Same-const : (c : Const) → Ensures (ConstSame c) (transform_const (substituter s) c)
    Same-const (const_value t w) = refl
    Same-const (bound_const_var t name idx) =
        Ensures-bind (λ _. Unit {0}) (ConstSame (bound_const_var t name idx))
          (or_else (substitute_type s t) (built t)) _
          (Ensures-any (or_else (substitute_type s t) (built t))) (λ t' _. refl)
    Same-const (existential_const_var t name id) = solved_const-Same t name id (get id s) refl

    Same-arg : (a : Argument) → Ensures (ArgSame a) (transform_arg (substituter s) a)
    Same-arg (type_arg t) =
        Ensures-bind (Same t) (ArgSame (type_arg t)) (transform (substituter s) t) _
          (Same-transform t) (λ t' p. p)
    Same-arg (const_arg c) =
        Ensures-bind (ConstSame c) (ArgSame (const_arg c)) (transform_const (substituter s) c) _
          (Same-const c) (λ t' p. p)

    Same-args : (args : Arguments) → Ensures (ArgsSame args) (transform_args (substituter s) args)
    Same-args no_args = refl
    Same-args (arg_cons a rest) =
        Ensures-bind (ArgSame a) (ArgsSame (arg_cons a rest)) (transform_arg (substituter s) a) _
          (Same-arg a)
          (λ t' p.
            Ensures-bind (ArgsSame rest) (ArgsSame (arg_cons a rest))
              (transform_args (substituter s) rest) _ (Same-args rest) (λ ts' q. rw (p, q) refl))

  -- Under a valuation that solves the substitution, substituting keeps the meaning of a type.
  pub eval-substitute : (t : Ty) → Ensures (λ t'. eval v t' ≡ eval v t) (substitute s t)
  eval-substitute t = Same-transform t

  pub eval_arg-substitute :
      (a : Argument)
      → Ensures (λ a'. eval_arg v a' ≡ eval_arg v a) (transform_arg (substituter s) a)
  eval_arg-substitute a = Same-arg a
