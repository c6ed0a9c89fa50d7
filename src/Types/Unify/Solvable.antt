-- ===== src/Types/Unify/Solvable.antt =====
-- A substitution with closed solutions is solved by a valuation: the one that reads it.
use guppylang.Common.{
  ℕ, ◌≡◌, refl, ◌∙◌, none, some, [], ◌∷◌, nat_eq, ◌==◌, ==→eq, Bool-cases, inl, inr,
}
use guppylang.Common.Dict.{get}
use guppylang.Common.Sets.{beq_refl}
use guppylang.Types.{
  Ty, Row, Inputs, Argument, Arguments, bound_type_var, existential_type_var, none_type,
  numeric_type, function_type, function_def_type, tuple_type, opaque_type, struct_type, enum_type,
  no_types, ty_cons, no_inputs, input, const_value, bound_const_var, existential_const_var,
  type_arg, const_arg, no_args, arg_cons,
}
use guppylang.Types.Subst.{Subst}
use guppylang.Types.Unify.Closed.{
  IsClosed, RowClosed, InputsClosed, ArgClosed, ArgsClosed, SubstClosed, get-ArgClosed,
}
use guppylang.Types.Unify.Meaning.{
  Trees, tree_cons, Valuation, eval, eval_row, eval_inputs, eval_arg, eval_args, Solves,
}

-- The meaning of a closed type does not depend on the valuation.
module _ (v w : Valuation) where
  mutual
    unfolding eval IsClosed

    eval-closed : (t : Ty) → IsClosed t → eval v t ≡ eval w t
    eval-closed (bound_type_var name idx c d) k = refl
    eval-closed (existential_type_var name id c d) k = absurd k
    eval-closed none_type k = refl
    eval-closed (numeric_type kind) k = refl
    eval-closed (function_type ins out ps cs flags) k = rw (
      inputs-closed ins k.0 (tree_cons (eval v out) (eval_args v cs)),
      eval-closed out k.1,
      args-closed cs k.2,
    )
    eval-closed (function_def_type id args) k = rw (args-closed args k)
    eval-closed (tuple_type row) k = rw (row-closed row k)
    eval-closed (opaque_type args defn) k = rw (args-closed args k)
    eval-closed (struct_type args defn) k = rw (args-closed args k)
    eval-closed (enum_type args defn) k = rw (args-closed args k)

    row-closed : (row : Row) → RowClosed row → eval_row v row ≡ eval_row w row
    row-closed no_types k = refl
    row-closed (ty_cons t ts) k = rw (eval-closed t k.0, row-closed ts k.1)

    inputs-closed :
        (ins : Inputs)
        → InputsClosed ins
        → (rest : Trees) → eval_inputs v ins rest ≡ eval_inputs w ins rest
    inputs-closed no_inputs k rest = refl
    inputs-closed (input t f x is) k rest = rw (eval-closed t k.0, inputs-closed is k.1 rest)

    arg-closed : (a : Argument) → ArgClosed a → eval_arg v a ≡ eval_arg w a
    arg-closed (type_arg t) k = eval-closed t k
    arg-closed (const_arg (const_value t u)) k = refl
    arg-closed (const_arg (bound_const_var t name idx)) k = refl
    arg-closed (const_arg (existential_const_var t name id)) k = absurd k

    args-closed : (args : Arguments) → ArgsClosed args → eval_args v args ≡ eval_args w args
    args-closed no_args k = refl
    args-closed (arg_cons a rest) k = rw (arg-closed a k.0, args-closed rest k.1)

-- The solutions, and `w` for the variables without one.
abbrev pub read_solutions : Valuation → Subst → Valuation
read_solutions w subst id = elim (get id subst) [ none ↦ w id | some a ↦ eval_arg w a ]

Solves-of :
    (v : Valuation) (subst : Subst)
    → SubstClosed subst
    → ((id : ℕ) (a : Argument) → get id subst ≡ some a → v id ≡ eval_arg v a)
    → Solves v subst
unfolding get
Solves-of v [] k h = tt
Solves-of v ((j, b) ∷ subst) k h = (
  h j b (rw (beq_refl j)),
  Solves-of v subst k.2 (λ id a e. elim (Bool-cases (id == j)) [
    | inl same ↦ let twice : get j subst ≡ some a = rw (==→eq id j same) at e in cc
    | inr other ↦ h id a (rw other e)
  ]),
)

pub read_solutions-Solves :
    (w : Valuation) (subst : Subst) → SubstClosed subst → Solves (read_solutions w subst) subst
read_solutions-Solves w subst k = Solves-of (read_solutions w subst) subst k (λ id a e.
    let reads : read_solutions w subst id ≡ eval_arg w a = rw (read_solutions, e) in
    reads ∙ arg-closed w (read_solutions w subst) a (get-ArgClosed id subst k e))
