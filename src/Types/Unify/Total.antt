-- ===== src/Types/Unify/Total.antt =====
-- `unify` ends against a closed type, within twice its height.
use guppylang.Common.{
  ℕ, zero, suc, ◌+◌, ◌*◌, ◌≤◌, ◌≡◌, refl, Bool, true, false, not, ◌&&◌, Option, none, some, String,
  ◌∷◌, nat_eq, string_eq, if◌then◌else◌, ◌==◌, arith,
}
use guppylang.Common.Sets.{elem}
use guppylang.Common.Dict.{get}
use guppylang.Types.{
  Ty, Inputs, Const, Argument, Arguments, Outcome, built, bound_type_var, existential_type_var,
  none_type, numeric_type, function_type, tuple_type, opaque_type, struct_type, enum_type,
  no_inputs, input, const_value, bound_const_var, existential_const_var, type_arg, const_arg,
  no_args, arg_cons,
}
use guppylang.Types.Transform.{count_inputs}
use guppylang.Types.Ensures.{Given}
use guppylang.Types.Finishes.{
  Finishes, Finishes-bind, Finishes-if, Returns, Returns-bind, Returns-both, Returns-if,
  Returns-any, transform-Finishes,
}
use guppylang.Types.Linear.{linear}
use guppylang.Types.Linear.Fuel.{traits_finish}
use guppylang.Types.Subst.{Subst, substituter, substitute, unsolved_vars, unsolved_const}
use guppylang.Types.Equal.{
  same_kind, equal_value, same_input_flags, same_params, struct_id, enum_id,
}
use guppylang.Types.Unify.{
  function_args, same_number, flags_agree, inputs_agree, Case, agree, bind_type, bind_const,
  descend, clash, when, match_types, match_consts, Unifier, and_unify, solution, when_solved,
  unify_type_var, const_ty, unify_const_var, unify_each, unify_args, run_case, unify,
}
use guppylang.Types.Unify.Closed.{
  IsClosed, InputsClosed, ConstClosed, ArgClosed, ArgsClosed, SubstClosed, get-ArgClosed, height,
  height_const, height_arg, height_args, height-input_args, height-tuple_args,
  input_args-ArgsClosed, tuple_args-ArgsClosed, substituter-IsFuelFree, transform_const_closed,
  substitute-IsClosed,
}

flags_agree-Finishes : (is js : Inputs) → Finishes (flags_agree is js)
unfolding flags_agree
flags_agree-Finishes no_inputs js = tt
flags_agree-Finishes (input a f x is) no_inputs = tt
flags_agree-Finishes (input a f x is) (input b g y js) =
    Finishes-bind (linear a) _ ((traits_finish a).2) (λ la _.
      Finishes-bind (if la then linear b else built false) _
        (Finishes-if la (linear b) (built false) ((traits_finish b).2) tt)
        (λ lb _.
          Finishes-if (lb && not (same_input_flags f g)) (built false) (flags_agree is js) tt
            (flags_agree-Finishes is js)))

inputs_agree-Finishes : (is js : Inputs) → Finishes (inputs_agree is js)
unfolding inputs_agree
inputs_agree-Finishes is js =
    Finishes-if (count_inputs is == count_inputs js) (flags_agree is js) (built false)
      (flags_agree-Finishes is js) tt

-- What a case asks for is about closed types that are less high; variables occur only in the first
-- side.
abbrev Fits : Type 0 → ℕ → Case → Type 0
Fits closed h agree = Unit {0}
Fits closed h (bind_type name id c d t) = (closed → ⊥) × IsClosed t × (height t ≤ h)
Fits closed h (bind_const ty name id c) = (closed → ⊥) × ConstClosed c × (height_const c ≤ h)
Fits closed h (descend xs ys) = ArgsClosed ys × (height_args ys + 1 ≤ h)
Fits closed h clash = Unit {0}

Fits-when :
    (closed : Type 0) (h : ℕ) (b : Bool) (c : Case) → Fits closed h c → Fits closed h (when b c)
Fits-when closed h true c f = f
Fits-when closed h false c f = tt

match_types-Fits :
    (s t : Ty) → IsClosed t → Returns (Fits (IsClosed s) (height t)) (match_types s t)
unfolding match_types IsClosed height
match_types-Fits (existential_type_var n i c d) (existential_type_var n' j c' d') k = absurd k
match_types-Fits (existential_type_var n i c d) t k = (λ x. x, k, omega arith)
match_types-Fits s (existential_type_var n j c d) k = absurd k
match_types-Fits (bound_type_var n i c d) (bound_type_var n' j c' d') k =
    Fits-when _ _ (i == j) agree tt
match_types-Fits (numeric_type a) (numeric_type b) k = Fits-when _ _ (same_kind a b) agree tt
match_types-Fits none_type none_type k = tt
match_types-Fits (function_type ins out ps cs flags) (function_type ins' out' ps' cs' flags') k =
    Returns-if
      (Fits (InputsClosed ins × IsClosed out × ArgsClosed cs)
        (height (function_type ins' out' ps' cs' flags')))
      (same_params ps ps') _ (built clash)
      (Returns-bind (λ _. Unit {0})
        (Fits (InputsClosed ins × IsClosed out × ArgsClosed cs)
          (height (function_type ins' out' ps' cs' flags')))
        (inputs_agree ins ins') _
        (Returns-any (inputs_agree ins ins') (inputs_agree-Finishes ins ins'))
        (λ b _. Fits-when _ _ b (descend (function_args ins out cs) (function_args ins' out' cs')) (
          input_args-ArgsClosed ins' (arg_cons (type_arg out') cs') k.0 (k.1, k.2),
          omega (arith, height-input_args ins' (arg_cons (type_arg out') cs')),
        )))
      tt
match_types-Fits (tuple_type row) (tuple_type row') k =
    (tuple_args-ArgsClosed row' k, omega (arith, height-tuple_args row'))
match_types-Fits (opaque_type args defn) (opaque_type args' defn') k =
    Fits-when _ _ (defn.id == defn'.id) (descend args args') (k, omega arith)
match_types-Fits (struct_type args defn) (struct_type args' defn') k =
    Fits-when _ _ (struct_id defn == struct_id defn') (descend args args') (k, omega arith)
match_types-Fits (enum_type args defn) (enum_type args' defn') k =
    Fits-when _ _ (enum_id defn == enum_id defn') (descend args args') (k, omega arith)
match_types-Fits _ _ k = tt

match_consts-Fits :
    (c d : Const) → ConstClosed d → Fits (ConstClosed c) (height_const d) (match_consts c d)
unfolding match_consts IsClosed height
match_consts-Fits (existential_const_var t n i) (existential_const_var t' n' j) k = absurd k
match_consts-Fits (existential_const_var t n i) d k = (λ x. x, k, omega arith)
match_consts-Fits c (existential_const_var t n j) k = absurd k
match_consts-Fits (bound_const_var t n i) (bound_const_var t' n' j) k =
    Fits-when _ _ (i == j) agree tt
match_consts-Fits (const_value t a) (const_value t' b) k = Fits-when _ _ (equal_value a b) agree tt
match_consts-Fits _ _ k = tt

abbrev AllClosed : Option Subst → Type 0
AllClosed = Given SubstClosed

-- The first side may have variables.
abbrev IsTotalAt : ℕ → Unifier → Type 0
IsTotalAt n u =
    (s t : Argument) (subst : Subst)
    → SubstClosed subst
    → ArgClosed t
    → 2 * height_arg t ≤ n
    → Returns AllClosed (u s t subst)

-- Both sides are closed.
abbrev IsTotalClosed : ℕ → Unifier → Type 0
IsTotalClosed n u =
    (s t : Argument) (subst : Subst)
    → SubstClosed subst
    → ArgClosed s
    → ArgClosed t
    → 2 * height_arg t ≤ n + 1
    → Returns AllClosed (u s t subst)

and_unify_total :
    (first : Outcome (Option Subst)) (next : Subst → Outcome (Option Subst))
    → Returns AllClosed first
    → ((subst : Subst) → SubstClosed subst → Returns AllClosed (next subst))
    → Returns AllClosed (and_unify first next)
and_unify_total first next h k = Returns-bind AllClosed AllClosed first _ h step
  where
    step :
        (res : Option Subst)
        → AllClosed res
        → Returns AllClosed (elim res as (λ _. Outcome (Option Subst)) [
          | none ↦ built none
          | some subst' ↦ next subst'
        ])
    step none g = tt
    step (some subst') g = k subst' g

when_solved_total :
    (o : Option Argument) (found : Argument → Outcome (Option Subst))
    (other : Outcome (Option Subst))
    → ((s : Argument) → o ≡ some s → Returns AllClosed (found s))
    → (o ≡ none → Returns AllClosed other)
    → Returns AllClosed (when_solved o found other)
when_solved_total none found other h k = k refl
when_solved_total (some s) found other h k = h s refl

closed_no_solution :
    (t : Ty) (subst : Subst) (a : Argument) → IsClosed t → solution t subst ≡ some a → ⊥
unfolding IsClosed
closed_no_solution (existential_type_var name id c d) subst a k e = k
closed_no_solution none_type subst a k e = cc
closed_no_solution _ subst a k e = cc

const_ty-IsClosed : (c : Const) → ConstClosed c → IsClosed (const_ty c)
unfolding IsClosed
const_ty-IsClosed (const_value t v) k = k
const_ty-IsClosed (bound_const_var t name idx) k = k
const_ty-IsClosed (existential_const_var t name id) k = absurd k

height-const_ty : (c : Const) → height_const c ≡ height (const_ty c) + 1
unfolding height
height-const_ty (const_value t v) = refl
height-const_ty (bound_const_var t name idx) = refl
height-const_ty (existential_const_var t name id) = refl

height_pos : (a : Argument) → 1 ≤ height_arg a
unfolding height
height_pos (type_arg none_type) = omega arith
height_pos (type_arg _) = omega arith
height_pos (const_arg c) = omega (arith, height-const_ty c)

module _ (u : Unifier) (n : ℕ) (total : IsTotalAt n u) (closed : IsTotalClosed n u) where
  known :
      (subst : Subst) (id : ℕ) (s : Argument)
      → SubstClosed subst
      → get id subst ≡ some s
      → ArgClosed s
  known subst id s k e = get-ArgClosed id subst k e

  type_var_total :
      (name : String) (id : ℕ) (c d : Bool) (t : Ty) (subst : Subst)
      → SubstClosed subst
      → IsClosed t
      → 2 * height t ≤ n + 1
      → Returns AllClosed (unify_type_var u name id c d t subst)
  unfolding unify_type_var IsClosed height
  type_var_total name id c d t subst k kt h =
      when_solved_total (get id subst) (λ s. u s (type_arg t) subst) _
        (λ s e. closed s (type_arg t) subst k (known subst id s k e) kt h)
        (λ fresh.
          when_solved_total (solution t subst)
            (λ s. u (type_arg (existential_type_var name id c d)) s subst) _
            (λ s e. absurd (closed_no_solution t subst s kt e))
            (λ _. Returns-if AllClosed (elem id (unsolved_vars t)) (built none) _ tt (
              Returns-bind IsClosed AllClosed (substitute subst t) _
                (Returns-both IsClosed (substitute subst t)
                  (transform-Finishes (substituter subst) (substituter-IsFuelFree subst) t)
                  (substitute-IsClosed subst t kt))
                (λ t' q. (q, fresh, k)))))

  bound-ConstClosed :
      (id : ℕ) (c : Const) (subst : Subst)
      → SubstClosed subst
      → get id subst ≡ none
      → ConstClosed c
      → AllClosed (if elem id (unsolved_const c) then none else some ((id, const_arg c) ∷ subst))
  unfolding IsClosed
  bound-ConstClosed id c subst k fresh kc =
      elim (elem id (unsolved_const c))
        as (λ b. AllClosed (if b then none else some ((id, const_arg c) ∷ subst))) [
          | true ↦ tt
          | false ↦ (kc, fresh, k)
        ]

  const_var_total :
      (ty : Ty) (name : String) (id : ℕ) (c : Const) (subst : Subst)
      → SubstClosed subst
      → ConstClosed c
      → 2 * height_const c ≤ n + 1
      → Returns AllClosed (unify_const_var u ty name id c subst)
  unfolding unify_const_var IsClosed height
  const_var_total ty name id c subst k kc h =
      and_unify_total (u (type_arg ty) (type_arg (const_ty c)) subst) _
        (total (type_arg ty) (type_arg (const_ty c)) subst k (const_ty-IsClosed c kc)
          (omega (arith, height-const_ty c)))
        (λ subst' k'.
          Returns-bind (λ _. Unit {0}) AllClosed (substitute subst' ty) _
            (Returns-any (substitute subst' ty)
              (transform-Finishes (substituter subst') (substituter-IsFuelFree subst') ty))
            (λ ty' _. rw (transform_const_closed subst' c kc) (
              when_solved_total (get id subst') (λ s. u s (const_arg c) subst') _
                (λ s e. closed s (const_arg c) subst' k' (known subst' id s k' e) kc h)
                (λ fresh. bound-ConstClosed id c subst' k' fresh kc))))

  each_total :
      (xs ys : Arguments) (subst : Subst)
      → SubstClosed subst
      → ArgsClosed ys
      → 2 * height_args ys ≤ n
      → Returns AllClosed (unify_each u xs ys subst)
  unfolding unify_each IsClosed height
  each_total (arg_cons (type_arg a) xs) (arg_cons (type_arg b) ys) subst k ky h =
      and_unify_total (u (type_arg a) (type_arg b) subst) _
        (total (type_arg a) (type_arg b) subst k ky.0 (omega arith))
        (λ subst' k'. each_total xs ys subst' k' ky.1 (omega arith))
  each_total (arg_cons (const_arg a) xs) (arg_cons (const_arg b) ys) subst k ky h =
      and_unify_total (u (const_arg a) (const_arg b) subst) _
        (total (const_arg a) (const_arg b) subst k ky.0 (omega arith))
        (λ subst' k'. each_total xs ys subst' k' ky.1 (omega arith))
  each_total (arg_cons (type_arg a) xs) (arg_cons (const_arg b) ys) subst k ky h = tt
  each_total (arg_cons (const_arg a) xs) (arg_cons (type_arg b) ys) subst k ky h = tt
  each_total no_args no_args subst k ky h = k
  each_total no_args (arg_cons b ys) subst k ky h = k
  each_total (arg_cons (type_arg a) xs) no_args subst k ky h = k
  each_total (arg_cons (const_arg a) xs) no_args subst k ky h = k

  descend_total :
      (xs ys : Arguments) (subst : Subst)
      → SubstClosed subst
      → ArgsClosed ys
      → 2 * height_args ys ≤ n
      → Returns AllClosed (unify_args u xs ys subst)
  unfolding unify_args
  descend_total xs ys subst k ky h =
      Returns-if AllClosed (same_number xs ys) (unify_each u xs ys subst) (built none)
        (each_total xs ys subst k ky h) tt

  case_total :
      (p : Type 0) (h : ℕ) (c : Case) (subst : Subst)
      → SubstClosed subst
      → Fits p h c
      → 2 * h ≤ n + 1
      → Returns AllClosed (run_case u c subst)
  unfolding run_case
  case_total p h agree subst k f le = k
  case_total p h (bind_type name id c d t) subst k f le =
      type_var_total name id c d t subst k f.1 (omega (arith, f.2))
  case_total p h (bind_const ty name id c) subst k f le =
      const_var_total ty name id c subst k f.1 (omega (arith, f.2))
  case_total p h (descend xs ys) subst k f le = descend_total xs ys subst k f.0 (omega (arith, f.1))
  case_total p h clash subst k f le = tt

  case_closed :
      (p : Type 0) (h : ℕ) (c : Case) (subst : Subst)
      → SubstClosed subst
      → p
      → Fits p h c
      → 2 * h ≤ n + 2
      → Returns AllClosed (run_case u c subst)
  unfolding run_case
  case_closed p h agree subst k q f le = k
  case_closed p h (bind_type name id c d t) subst k q f le = absurd (f.0 q)
  case_closed p h (bind_const ty name id c) subst k q f le = absurd (f.0 q)
  case_closed p h (descend xs ys) subst k q f le =
      descend_total xs ys subst k f.0 (omega (arith, f.1))
  case_closed p h clash subst k q f le = tt

mutual
  unfolding unify IsClosed height

  pub unify_total : (n : ℕ) → IsTotalAt n (unify n)
  unify_total zero s t subst k kt h = absurd (omega (arith, height_pos t))
  unify_total (suc n) (type_arg s) (type_arg t) subst k kt h =
      Returns-bind (Fits (IsClosed s) (height t)) AllClosed (match_types s t) _
        (match_types-Fits s t kt)
        (λ c f.
          case_total (unify n) n (unify_total n) (unify_closed_total n) (IsClosed s) (height t) c
            subst k f (omega arith))
  unify_total (suc n) (const_arg c) (const_arg d) subst k kt h =
      case_total (unify n) n (unify_total n) (unify_closed_total n) (ConstClosed c) (height_const d)
        (match_consts c d) subst k (match_consts-Fits c d kt) (omega arith)
  unify_total (suc n) (type_arg s) (const_arg d) subst k kt h = tt
  unify_total (suc n) (const_arg c) (type_arg t) subst k kt h = tt

  unify_closed_total : (n : ℕ) → IsTotalClosed n (unify n)
  unify_closed_total zero s t subst k ks kt h = absurd (omega (arith, height_pos t))
  unify_closed_total (suc n) (type_arg s) (type_arg t) subst k ks kt h =
      Returns-bind (Fits (IsClosed s) (height t)) AllClosed (match_types s t) _
        (match_types-Fits s t kt)
        (λ c f.
          case_closed (unify n) n (unify_total n) (unify_closed_total n) (IsClosed s) (height t) c
            subst k ks f (omega arith))
  unify_closed_total (suc n) (const_arg c) (const_arg d) subst k ks kt h =
      case_closed (unify n) n (unify_total n) (unify_closed_total n) (ConstClosed c)
        (height_const d) (match_consts c d) subst k ks (match_consts-Fits c d kt) (omega arith)
  unify_closed_total (suc n) (type_arg s) (const_arg d) subst k ks kt h = tt
  unify_closed_total (suc n) (const_arg c) (type_arg t) subst k ks kt h = tt
