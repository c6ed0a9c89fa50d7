-- ===== src/Types/Unify/Sound.antt =====
-- What `unify` returns implies the equation that it was asked for.
use guppylang.Common.{
  ℕ, zero, suc, ◌≡◌, refl, sym, ap, ◌∙◌, Bool, Bool-cases, inl, inr, true, false, Option, none,
  some, String, ◌∷◌, nat_eq, string_eq, if◌then◌else◌, ◌==◌, arith,
}
use guppylang.Common.Sets.{elem}
use guppylang.Common.Dict.{get, get-Entries}
use guppylang.Types.{
  Kind, Ty, Inputs, Const, Argument, Arguments, Value, Outcome, built, ◌>>=◌, bound_type_var,
  existential_type_var, none_type, numeric_type, function_type, tuple_type, opaque_type,
  struct_type, enum_type, const_value, bound_const_var, existential_const_var, type_arg, const_arg,
  no_args, arg_cons, number, boolean, text, nat, int, float,
}
use guppylang.Types.Transform.{transform_const}
use guppylang.Types.Ensures.{
  Ensures, Ensures-bind, Ensures-any, Ensures-if, Ensures-weaken, Ensures-under, Given,
}
use guppylang.Types.Subst.{Subst, substituter, substitute, unsolved_vars, unsolved_const}
use guppylang.Types.Equal.{same_kind, equal_value, same_params, struct_id, enum_id}
use guppylang.Types.Unify.{
  function_args, same_number, inputs_agree, Case, agree, bind_type, bind_const, descend, clash,
  when, match_types, match_consts, Unifier, and_unify, solution, when_solved, unify_type_var,
  const_ty, unify_const_var, unify_each, unify_args, run_case, unify,
}
use guppylang.Types.Unify.Meaning.{
  Tree, node, no_trees, tree_cons, bound, numeric, function, tuple, str, Valuation, value_label,
  eval, eval_inputs, eval_const, eval_arg, eval_args, Solves, eval-input_args, eval-tuple_args,
  eval-substitute, Same-const,
}

module _ (v : Valuation) where
  -- What each case must imply about the two sides.
  abbrev Implies : Tree → Tree → Case → Type 0
  Implies a b agree = a ≡ b
  Implies a b (bind_type name id c d t) = v id ≡ eval v t → a ≡ b
  Implies a b (bind_const ty name id c) = v id ≡ eval_const v c → a ≡ b
  Implies a b (descend args args') = eval_args v args ≡ eval_args v args' → a ≡ b
  Implies a b clash = Unit {0}

  Implies-when :
      (b : Bool) (x y : Tree) (c : Case) → (b ≡ true → Implies x y c) → Implies x y (when b c)
  Implies-when true x y c h = h refl
  Implies-when false x y c h = tt

  same_kind_eq : (k k' : Kind) → same_kind k k' ≡ true → k ≡ k'
  same_kind_eq nat nat h = refl
  same_kind_eq int int h = refl
  same_kind_eq float float h = refl
  same_kind_eq nat int h = cc
  same_kind_eq nat float h = cc
  same_kind_eq int nat h = cc
  same_kind_eq int float h = cc
  same_kind_eq float nat h = cc
  same_kind_eq float int h = cc

  equal_value_label : (a b : Value) → equal_value a b ≡ true → value_label a ≡ value_label b
  unfolding equal_value
  equal_value_label (number m) (number n) h = ground arith
  equal_value_label (boolean b) (boolean c) h = ground arith
  equal_value_label (number m) (boolean c) h = ground arith
  equal_value_label (boolean b) (number n) h = ground arith
  equal_value_label (text s) (text t) h = ap str ((string_eq.beq_iff s t).0 h)
  equal_value_label (number m) (text t) h = cc
  equal_value_label (boolean m) (text t) h = cc
  equal_value_label (text m) (number t) h = cc
  equal_value_label (text m) (boolean t) h = cc

  eval-function_args :
      (ins : Inputs) (out : Ty) (cs : Arguments)
      → eval_args v (function_args ins out cs)
        ≡ eval_inputs v ins (tree_cons (eval v out) (eval_args v cs))
  unfolding eval
  eval-function_args ins out cs = eval-input_args v ins (arg_cons (type_arg out) cs)

  match_types-Implies : (s t : Ty) → Ensures (Implies (eval v s) (eval v t)) (match_types s t)
  unfolding match_types eval
  match_types-Implies (existential_type_var n i c d) (existential_type_var n' j c' d') =
      elim (Bool-cases (i == j)) [ inl e ↦ rw e (ground arith) | inr e ↦ rw e (λ h. h) ]
  match_types-Implies (existential_type_var n i c d) t = λ h. h
  match_types-Implies s (existential_type_var n j c d) = λ h. sym h
  match_types-Implies (bound_type_var n i c d) (bound_type_var n' j c' d') =
      Implies-when (i == j) (node (bound i) no_trees) (node (bound j) no_trees) agree
        (λ h. ground arith)
  match_types-Implies (numeric_type k) (numeric_type k') =
      Implies-when (same_kind k k') (node (numeric k) no_trees) (node (numeric k') no_trees) agree
        (λ h. rw (same_kind_eq k k' h) refl)
  match_types-Implies none_type none_type = refl
  match_types-Implies (function_type ins out ps cs flags) (function_type ins' out' ps' cs' flags') =
      Ensures-if
        (Implies (eval v (function_type ins out ps cs flags))
          (eval v (function_type ins' out' ps' cs' flags')))
        (same_params ps ps') _ (built clash)
        (λ _.
          Ensures-bind (λ _. Unit {0})
            (Implies (eval v (function_type ins out ps cs flags))
              (eval v (function_type ins' out' ps' cs' flags')))
            (inputs_agree ins ins') _ (Ensures-any (inputs_agree ins ins'))
            (λ b _.
              Implies-when b (eval v (function_type ins out ps cs flags))
                (eval v (function_type ins' out' ps' cs' flags'))
                (descend (function_args ins out cs) (function_args ins' out' cs'))
                (λ _ h.
                  ap (node function)
                    (sym (eval-function_args ins out cs) ∙ h ∙ eval-function_args ins' out' cs'))))
        (λ _. tt)
  match_types-Implies (tuple_type row) (tuple_type row') =
      λ h. ap (node tuple) (sym (eval-tuple_args v row) ∙ h ∙ eval-tuple_args v row')
  match_types-Implies (opaque_type args defn) (opaque_type args' defn') =
      Implies-when (defn.id == defn'.id) _ _ (descend args args') (λ h p. ground arith)
  match_types-Implies (struct_type args defn) (struct_type args' defn') =
      Implies-when (struct_id defn == struct_id defn') _ _ (descend args args')
        (λ h p. ground arith)
  match_types-Implies (enum_type args defn) (enum_type args' defn') =
      Implies-when (enum_id defn == enum_id defn') _ _ (descend args args') (λ h p. ground arith)
  match_types-Implies _ _ = tt

  match_consts-Implies :
      (c d : Const) → Implies (eval_const v c) (eval_const v d) (match_consts c d)
  unfolding match_consts eval
  match_consts-Implies (existential_const_var t n i) (existential_const_var t' n' j) =
      elim (Bool-cases (i == j)) [ inl e ↦ rw e (ground arith) | inr e ↦ rw e (λ h. h) ]
  match_consts-Implies (existential_const_var t n i) d = λ h. h
  match_consts-Implies c (existential_const_var t n j) = λ h. sym h
  match_consts-Implies (bound_const_var t n i) (bound_const_var t' n' j) =
      Implies-when (i == j) (node (bound i) no_trees) (node (bound j) no_trees) agree
        (λ h. ground arith)
  match_consts-Implies (const_value t a) (const_value t' b) =
      Implies-when (equal_value a b) (node (value_label a) no_trees) (node (value_label b) no_trees)
        agree (λ h. rw (equal_value_label a b h) refl)
  match_consts-Implies _ _ = tt

  -- A result's equations imply those that were there, and the new one.
  abbrev Sound : Subst → Type 0 → Option Subst → Type 0
  Sound subst new = Given (λ (subst' : Subst). Solves v subst' → Solves v subst × new)

  abbrev IsSound : Unifier → Type 0
  IsSound u =
      (s t : Argument) (subst : Subst)
      → Ensures (Sound subst (eval_arg v s ≡ eval_arg v t)) (u s t subst)

  chain :
      (subst subst' : Subst) (p q r : Type 0)
      → (p → q → r)
      → Sound subst p (some subst')
      → (res : Option Subst) → Sound subst' q res
      → Sound subst r res
  chain subst subst' p q r both h none g = tt
  chain subst subst' p q r both h (some subst'') g =
      λ s. ((h (g s).0).0, both (h (g s).0).1 (g s).1)

  and_unify-Sound :
      (subst : Subst) (p q r : Type 0) (first : Outcome (Option Subst))
      (next : Subst → Outcome (Option Subst))
      → Ensures (Sound subst p) first
      → ((subst' : Subst) → Ensures (Sound subst' q) (next subst'))
      → (p → q → r)
      → Ensures (Sound subst r) (and_unify first next)
  and_unify-Sound subst p q r first next h k both =
      Ensures-bind (Sound subst p) (Sound subst r) first _ h step
    where
      step :
          (res : Option Subst)
          → Sound subst p res
          → Ensures (Sound subst r) (elim res as (λ _. Outcome (Option Subst)) [
            | none ↦ built none
            | some subst' ↦ next subst'
          ])
      step none h = tt
      step (some subst') h =
          Ensures-weaken (Sound subst' q) (Sound subst r) (next subst') (k subst')
            (chain subst subst' p q r both h)

  -- A fact about the valuations that solve the substitution may be used.
  recall :
      (subst : Subst) (p q : Type 0) (m : Outcome (Option Subst))
      → (Solves v subst → p → q)
      → Ensures (Sound subst p) m
      → Ensures (Sound subst q) m
  recall subst p q m give h = Ensures-weaken (Sound subst p) (Sound subst q) m h use_it
    where
      use_it : (res : Option Subst) → Sound subst p res → Sound subst q res
      use_it none g = tt
      use_it (some subst') g = λ s. ((g s).0, give (g s).0 (g s).1)

  solved_id :
      (subst : Subst) (id : ℕ) {a : Argument}
      → get id subst ≡ some a
      → Solves v subst
      → v id ≡ eval_arg v a
  solved_id subst id e s = get-Entries (λ i b. v i ≡ eval_arg v b) id subst s e

  solution_eq :
      (t : Ty) (subst : Subst) (a : Argument)
      → solution t subst ≡ some a
      → Solves v subst
      → eval v t ≡ eval_arg v a
  unfolding eval
  solution_eq (existential_type_var name id c d) subst a e s = solved_id subst id e s
  solution_eq none_type subst a e s = cc
  solution_eq _ subst a e s = cc

  bind_type-Sound :
      (id : ℕ) (t : Ty) (subst : Subst)
      → Ensures (Sound subst (v id ≡ eval v t)) (
          if elem id (unsolved_vars t)
          then built none
          else (substitute subst t >>= λ t'. built (some ((id, type_arg t') ∷ subst))))
  unfolding eval
  bind_type-Sound id t subst =
      Ensures-if (Sound subst (v id ≡ eval v t)) (elem id (unsolved_vars t)) (built none) _
        (λ _. tt)
        (λ _.
          Ensures-bind (λ t'. Solves v subst → eval v t' ≡ eval v t) (Sound subst (v id ≡ eval v t))
            (substitute subst t) _
            (Ensures-under (Solves v subst) (λ t'. eval v t' ≡ eval v t) (substitute subst t)
              (λ s. eval-substitute v subst s t))
            (λ t' h s. (s.1, s.0 ∙ h s.1)))

  bind_const-Sound :
      (id : ℕ) (c c' : Const) (subst : Subst)
      → (Solves v subst → eval_const v c' ≡ eval_const v c)
      → Ensures
          (Sound subst (v id ≡ eval_const v c))
          (built (if elem id (unsolved_const c') then none else some ((id, const_arg c') ∷ subst)))
  unfolding eval
  bind_const-Sound id c c' subst h = elim (Bool-cases (elem id (unsolved_const c'))) [
    | inl e ↦ rw e tt
    | inr e ↦ rw e (λ s. (s.1, s.0 ∙ h s.1))
  ]

  when_solved-Ensures :
      (P : Option Subst → Type 0) (o : Option Argument) (found : Argument → Outcome (Option Subst))
      (other : Outcome (Option Subst))
      → ((s : Argument) → o ≡ some s → Ensures P (found s))
      → Ensures P other
      → Ensures P (when_solved o found other)
  when_solved-Ensures P none found other h k = k
  when_solved-Ensures P (some s) found other h k = h s refl

  module _ (u : Unifier) (sound : IsSound u) where
    type_var-Sound :
        (name : String) (id : ℕ) (c d : Bool) (t : Ty) (subst : Subst)
        → Ensures (Sound subst (v id ≡ eval v t)) (unify_type_var u name id c d t subst)
    unfolding unify_type_var eval
    type_var-Sound name id c d t subst =
        when_solved-Ensures (Sound subst (v id ≡ eval v t)) (get id subst)
          (λ s. u s (type_arg t) subst) _
          (λ s e.
            recall subst (eval_arg v s ≡ eval v t) (v id ≡ eval v t) (u s (type_arg t) subst)
              (λ h p. solved_id subst id e h ∙ p) (sound s (type_arg t) subst))
          (when_solved-Ensures (Sound subst (v id ≡ eval v t)) (solution t subst)
            (λ s. u (type_arg (existential_type_var name id c d)) s subst) _
            (λ s f.
              recall subst (v id ≡ eval_arg v s) (v id ≡ eval v t)
                (u (type_arg (existential_type_var name id c d)) s subst)
                (λ h p. p ∙ sym (solution_eq t subst s f h))
                (sound (type_arg (existential_type_var name id c d)) s subst))
            (bind_type-Sound id t subst))

    const_case :
        (id : ℕ) (c c' : Const) (subst : Subst)
        → (Solves v subst → eval_const v c' ≡ eval_const v c)
        → Ensures (Sound subst (v id ≡ eval_const v c)) (
            when_solved
              (get id subst)
              (λ s. u s (const_arg c') subst)
              (built
                (if elem id (unsolved_const c') then none else some ((id, const_arg c') ∷ subst))))
    unfolding eval
    const_case id c c' subst h =
        when_solved-Ensures (Sound subst (v id ≡ eval_const v c)) (get id subst)
          (λ s. u s (const_arg c') subst) _
          (λ s e.
            recall subst (eval_arg v s ≡ eval_const v c') (v id ≡ eval_const v c)
              (u s (const_arg c') subst) (λ k p. solved_id subst id e k ∙ (p ∙ h k))
              (sound s (const_arg c') subst))
          (bind_const-Sound id c c' subst h)

    const_var-Sound :
        (ty : Ty) (name : String) (id : ℕ) (c : Const) (subst : Subst)
        → Ensures (Sound subst (v id ≡ eval_const v c)) (unify_const_var u ty name id c subst)
    unfolding unify_const_var eval
    const_var-Sound ty name id c subst =
        and_unify-Sound subst (eval v ty ≡ eval v (const_ty c)) (v id ≡ eval_const v c)
          (v id ≡ eval_const v c) (u (type_arg ty) (type_arg (const_ty c)) subst) _
          (sound (type_arg ty) (type_arg (const_ty c)) subst)
          (λ subst'.
            Ensures-bind (λ _. Unit {0}) (Sound subst' (v id ≡ eval_const v c))
              (substitute subst' ty) _ (Ensures-any (substitute subst' ty))
              (λ ty' _.
                Ensures-bind (λ c'. Solves v subst' → eval_const v c' ≡ eval_const v c)
                  (Sound subst' (v id ≡ eval_const v c)) (transform_const (substituter subst') c) _
                  (Ensures-under (Solves v subst') (λ c'. eval_const v c' ≡ eval_const v c)
                    (transform_const (substituter subst') c) (λ s. Same-const v subst' s c))
                  (λ c' h. const_case id c c' subst' h)))
          (λ p q. q)

    each-Sound :
        (xs ys : Arguments) (subst : Subst)
        → same_number xs ys ≡ true
        → Ensures (Sound subst (eval_args v xs ≡ eval_args v ys)) (unify_each u xs ys subst)
    unfolding unify_each same_number eval
    each-Sound no_args no_args subst h = λ s. (s, refl)
    each-Sound (arg_cons (type_arg a) xs) (arg_cons (type_arg b) ys) subst h =
        and_unify-Sound subst (eval v a ≡ eval v b) (eval_args v xs ≡ eval_args v ys) _
          (u (type_arg a) (type_arg b) subst) _ (sound (type_arg a) (type_arg b) subst)
          (λ subst'. each-Sound xs ys subst' h) (λ p q. rw (p, q) refl)
    each-Sound (arg_cons (const_arg a) xs) (arg_cons (const_arg b) ys) subst h =
        and_unify-Sound subst (eval_const v a ≡ eval_const v b) (eval_args v xs ≡ eval_args v ys) _
          (u (const_arg a) (const_arg b) subst) _ (sound (const_arg a) (const_arg b) subst)
          (λ subst'. each-Sound xs ys subst' h) (λ p q. rw (p, q) refl)
    each-Sound (arg_cons (type_arg a) xs) (arg_cons (const_arg b) ys) subst h = tt
    each-Sound (arg_cons (const_arg a) xs) (arg_cons (type_arg b) ys) subst h = tt
    each-Sound no_args (arg_cons b ys) subst h = absurd (cc)
    each-Sound (arg_cons a xs) no_args subst h = absurd (cc)

    args-Sound :
        (xs ys : Arguments) (subst : Subst)
        → Ensures (Sound subst (eval_args v xs ≡ eval_args v ys)) (unify_args u xs ys subst)
    unfolding unify_args
    args-Sound xs ys subst =
        Ensures-if (Sound subst (eval_args v xs ≡ eval_args v ys)) (same_number xs ys)
          (unify_each u xs ys subst) (built none) (each-Sound xs ys subst) (λ _. tt)

    case-Sound :
        (a b : Tree) (c : Case) (subst : Subst)
        → Implies a b c
        → Ensures (Sound subst (a ≡ b)) (run_case u c subst)
    unfolding run_case
    case-Sound a b agree subst h = λ s. (s, h)
    case-Sound a b (bind_type name id c d t) subst h =
        recall subst (v id ≡ eval v t) (a ≡ b) (unify_type_var u name id c d t subst) (λ _ p. h p)
          (type_var-Sound name id c d t subst)
    case-Sound a b (bind_const ty name id c) subst h =
        recall subst (v id ≡ eval_const v c) (a ≡ b) (unify_const_var u ty name id c subst)
          (λ _ p. h p) (const_var-Sound ty name id c subst)
    case-Sound a b (descend xs ys) subst h =
        recall subst (eval_args v xs ≡ eval_args v ys) (a ≡ b) (unify_args u xs ys subst)
          (λ _ p. h p) (args-Sound xs ys subst)
    case-Sound a b clash subst h = tt

  -- With any fuel.
  pub unify-IsSound : (n : ℕ) → IsSound (unify n)
  unfolding unify eval
  unify-IsSound zero s t subst = tt
  unify-IsSound (suc n) (type_arg s) (type_arg t) subst =
      Ensures-bind (Implies (eval v s) (eval v t)) (Sound subst (eval v s ≡ eval v t))
        (match_types s t) _ (match_types-Implies s t)
        (λ c h. case-Sound (unify n) (unify-IsSound n) (eval v s) (eval v t) c subst h)
  unify-IsSound (suc n) (const_arg c) (const_arg d) subst =
      case-Sound (unify n) (unify-IsSound n) (eval_const v c) (eval_const v d) (match_consts c d)
        subst (match_consts-Implies c d)
  unify-IsSound (suc n) (type_arg s) (const_arg d) subst = tt
  unify-IsSound (suc n) (const_arg c) (type_arg t) subst = tt
