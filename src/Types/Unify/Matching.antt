-- ===== src/Types/Unify/Matching.antt =====
-- `unify` against a closed type, and two types that it unifies although no solution exists.
use guppylang.Common.{
  ℕ, ◌+◌, ◌*◌, ◌≤◌, ◌≡◌, ◌∙◌, Bool, true, false, Option, none, some, nat_eq, string_eq,
}
use guppylang.Types.{
  Ty, Argument, OpaqueTypeDef, Outcome, built, internal_error, assertion_failed, out_of_fuel,
  existential_type_var, tuple_type, opaque_type, no_types, ty_cons, type_arg, no_args, arg_cons,
}
use guppylang.Types.Transform.{transform_arg}
use guppylang.Types.Ensures.{Ensures, Given, Ensures-weaken}
use guppylang.Types.Finishes.{Returns}
use guppylang.Types.Subst.{Subst, substituter}
use guppylang.Types.Unify.{unify}
use guppylang.Types.Unify.Closed.{ArgClosed, SubstClosed, height_arg}
use guppylang.Types.Unify.Total.{unify_total}
use guppylang.Types.Unify.Solvable.{read_solutions, read_solutions-Solves}
use guppylang.Types.Unify.Sound.{unify-IsSound}
use guppylang.Types.Unify.Meaning.{
  Tree, Trees, node, no_trees, tree_cons, Valuation, eval_arg, Solves, eval_arg-substitute,
}

-- `subst'` solves the equation of `s` and `t`, and keeps what `subst` solves: under any valuation of
-- its variables, the type that the program gets by substituting in `s` means what `t` means.
abbrev pub IsSolution : Argument → Argument → Subst → Subst → Type 0
IsSolution s t subst subst' =
    (v : Valuation)
    → Solves v subst'
    → Solves v subst
      × (eval_arg v s ≡ eval_arg v t)
      × Ensures (λ s'. eval_arg v s' ≡ eval_arg v t) (transform_arg (substituter subst') s)

-- With closed solutions so far, at most one for each variable, unifying with a closed type or
-- constant ends within twice its height. If it returns a substitution, then its solutions are again
-- closed and at most one for each variable; the valuation that reads them solves it, whatever the
-- other variables mean; and under each valuation that solves it, the previous equations hold, both
-- sides mean the same, and so does the result of substituting in the first side, if that succeeds.
-- What a type means here forgets the flags and parameters of functions, the names and bounds of bound
-- variables and the types of constants: function types that differ only in their unitary flags are
-- unified and yet not equal.
pub unify_closed :
    (s t : Argument) (subst : Subst) (n : ℕ)
    → SubstClosed subst
    → ArgClosed t
    → 2 * height_arg t ≤ n
    → Returns
        (Given (λ (subst' : Subst).
          SubstClosed subst'
          × ((w : Valuation) → Solves (read_solutions w subst') subst')
          × IsSolution s t subst subst'))
        (unify n s t subst)
unify_closed s t subst n k kt h =
    both (unify n s t subst) (unify_total n s t subst k kt h) (λ v. unify-IsSound v n s t subst)
  where
    solution :
        (subst' : Subst)
        → ((v : Valuation) → Solves v subst' → Solves v subst × (eval_arg v s ≡ eval_arg v t))
        → IsSolution s t subst subst'
    solution subst' q v solves =
        let (old, same) = q v solves in
        (
          old,
          same,
          Ensures-weaken (λ s'. eval_arg v s' ≡ eval_arg v s) (λ s'. eval_arg v s' ≡ eval_arg v t)
              (transform_arg (substituter subst') s) (eval_arg-substitute v subst' solves s)
              (λ s' e. e ∙ same),
        )

    both :
        (m : Outcome (Option Subst))
        → Returns (Given SubstClosed) m
        → ((v : Valuation)
            → Ensures
                (Given (λ (subst' : Subst).
                  Solves v subst' → Solves v subst × (eval_arg v s ≡ eval_arg v t)))
                m)
        → Returns
            (Given (λ (subst' : Subst).
              SubstClosed subst'
              × ((w : Valuation) → Solves (read_solutions w subst') subst')
              × IsSolution s t subst subst'))
            m
    both (built none) p q = tt
    both (built (some subst')) p q = (p, λ w. read_solutions-Solves w subst' p, solution subst' q)
    both (internal_error m) p q = tt
    both assertion_failed p q = tt
    both out_of_fuel p q = p

mutual
  size : Tree → ℕ
  size (node l ts) = size_trees ts + 1

  size_trees : Trees → ℕ
  size_trees no_trees = 0
  size_trees (tree_cons t ts) = size t + size_trees ts

abbrev var : ℕ → Ty
var i = existential_type_var "T" i true true

abbrev of_var : OpaqueTypeDef → ℕ → Ty
of_var defn i = opaque_type (arg_cons (type_arg (var i)) no_args) defn

abbrev pair : Ty → Ty → Argument
pair s t = type_arg (tuple_type (ty_cons s (ty_cons t no_types)))

-- A type that is no variable itself.
abbrev pub is_compound : Ty → Bool
is_compound (existential_type_var name id c d) = false
is_compound ty = true
