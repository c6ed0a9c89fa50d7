-- ===== src/Types/Generic/Checks.antt =====
-- What `check_all_args` guarantees of the arguments that it accepts.
use guppylang.Common.{ℕ, ◌≡◌, refl, Bool, true, false, nat_eq, string_eq, ◌==◌, arith, ==→eq}
use guppylang.Types.{
  Argument, Arguments, Parameter, Params, Outcome, built, internal_error, assertion_failed,
  out_of_fuel, type_arg, const_arg, no_args, arg_cons, type_param, const_param, no_params,
  param_cons,
}
use guppylang.Types.Transform.{transform}
use guppylang.Types.Ensures.{
  Ensures, Ensures-bind, Ensures-any, Ensures-if, Ensures-weaken, Ensures-built,
}
use guppylang.Types.Subst.{Inst, instantiator}
use guppylang.Types.Linear.{copyable, droppable, inst_of}
use guppylang.Types.Generic.{
  ArgError, ArgCheck, accepted, refused, instantiate_bounds, demand, check_arg, and_check,
  count_params, count_args, check_each, check_all_args,
}

-- The argument has the kind of the parameter, and its type the traits that the parameter demands.
abbrev pub Meets : Parameter → Argument → Type 0
Meets (type_param idx name c d) (type_arg t) =
    (c ≡ true → copyable t ≡ built true) × (d ≡ true → droppable t ≡ built true)
Meets (type_param idx name c d) (const_arg k) = ⊥
Meets (const_param idx name ty b) (const_arg k) = Unit {0}
Meets (const_param idx name ty b) (type_arg t) = ⊥

abbrev pub AllMeet : Params → Arguments → Type 0
AllMeet no_params no_args = Unit {0}
AllMeet (param_cons p ps) (arg_cons a rest) = Meets p a × AllMeet ps rest
AllMeet _ _ = ⊥

abbrev Accepts {ℓ} : {A : Type 0} → Type ℓ → ArgCheck A → Type ℓ
Accepts P (accepted a) = P
Accepts P (refused e) = Unit

accept : {A : Type 0} (P Q : Type 0) → (P → Q) → (c : ArgCheck A) → Accepts P c → Accepts Q c
accept P Q f (accepted a) h = f h
accept P Q f (refused e) h = tt

demand-Accepts :
    {A : Type 0} (b : Bool) (test : Outcome Bool) (e : ArgError) (next : Outcome (ArgCheck A))
    (P Q : Type 0)
    → ((b ≡ true → test ≡ built true) → P → Q)
    → Ensures (Accepts P) next
    → Ensures (Accepts Q) (demand b test e next)
demand-Accepts false test e next P Q give h =
    Ensures-weaken (Accepts P) (Accepts Q) next h (accept P Q (give (λ x. absurd (cc))))
demand-Accepts true (built true) e next P Q give h =
    Ensures-weaken (Accepts P) (Accepts Q) next h (accept P Q (give (λ x. refl)))
demand-Accepts true (built false) e next P Q give h = tt
demand-Accepts true (internal_error m) e next P Q give h = tt
demand-Accepts true assertion_failed e next P Q give h = tt
demand-Accepts true out_of_fuel e next P Q give h = tt

-- The parameter keeps what it demands when its bounds are instantiated.
instantiate_bounds-Meets :
    (inst : Inst) (p : Parameter) (a : Argument)
    → Ensures (λ q. Meets q a → Meets p a) (instantiate_bounds inst p)
unfolding instantiate_bounds
instantiate_bounds-Meets inst (type_param idx name c d) a = λ h. h
instantiate_bounds-Meets inst (const_param idx name ty b) (const_arg k) =
    Ensures-bind (λ _. Unit {0}) (λ q. Meets q (const_arg k) → Unit {0})
      (transform (instantiator inst false) ty) _
      (Ensures-any (transform (instantiator inst false) ty)) (λ ty' _ h. tt)
instantiate_bounds-Meets inst (const_param idx name ty b) (type_arg t) =
    Ensures-bind (λ _. Unit {0}) (λ q. Meets q (type_arg t) → ⊥)
      (transform (instantiator inst false) ty) _
      (Ensures-any (transform (instantiator inst false) ty)) (λ ty' _ h. h)

Accepts-any : {A : Type 0} (m : Outcome (ArgCheck A)) → Ensures (Accepts (Unit {0})) m
Accepts-any (built (accepted a)) = tt
Accepts-any (built (refused e)) = tt
Accepts-any (internal_error m) = tt
Accepts-any assertion_failed = tt
Accepts-any out_of_fuel = tt

check_arg-Meets :
    (fuel : ℕ) (p : Parameter) (a : Argument) → Ensures (Accepts (Meets p a)) (check_arg fuel p a)
unfolding check_arg
check_arg-Meets fuel (type_param idx name c d) (const_arg k) = tt
check_arg-Meets fuel (type_param idx name c d) (type_arg t) =
    demand-Accepts c (copyable t) _ _ (d ≡ true → droppable t ≡ built true) _ (λ p q. (p, q))
      (demand-Accepts d (droppable t) _ _ (Unit {0}) _ (λ p q. p) tt)
check_arg-Meets fuel (const_param idx name ty b) (const_arg k) =
    Accepts-any (check_arg fuel (const_param idx name ty b) (const_arg k))
check_arg-Meets fuel (const_param idx name ty b) (type_arg t) = tt

and_check-Accepts :
    {A B : Type 0} (first : Outcome (ArgCheck A)) (next : Outcome (ArgCheck B)) (P Q : Type 0)
    → Ensures (Accepts P) first
    → Ensures (Accepts Q) next
    → Ensures (Accepts (P × Q)) (and_check first next)
and_check-Accepts (built (accepted a)) next P Q h k =
    Ensures-weaken (Accepts Q) (Accepts (P × Q)) next k (accept Q (P × Q) (λ q. (h, q)))
and_check-Accepts (built (refused e)) next P Q h k = tt
and_check-Accepts (internal_error m) next P Q h k = tt
and_check-Accepts assertion_failed next P Q h k = tt
and_check-Accepts out_of_fuel next P Q h k = tt

check_each-AllMeet :
    (fuel : ℕ) (inst : Inst) (ps : Params) (args : Arguments)
    → count_params ps ≡ count_args args
    → Ensures (Accepts (AllMeet ps args)) (check_each fuel inst ps args)
unfolding check_each
check_each-AllMeet fuel inst no_params no_args e = tt
check_each-AllMeet fuel inst no_params (arg_cons a rest) e = absurd (omega (arith, e))
check_each-AllMeet fuel inst (param_cons p ps) no_args e = absurd (omega (arith, e))
check_each-AllMeet fuel inst (param_cons p ps) (arg_cons a rest) e =
    Ensures-bind (λ q. Meets q a → Meets p a) (Accepts (Meets p a × AllMeet ps rest))
      (instantiate_bounds inst p) _ (instantiate_bounds-Meets inst p a)
      (λ q keeps.
        and_check-Accepts (check_arg fuel q a) (check_each fuel inst ps rest) (Meets p a)
          (AllMeet ps rest)
          (Ensures-weaken (Accepts (Meets q a)) (Accepts (Meets p a)) (check_arg fuel q a)
            (check_arg-Meets fuel q a) (accept (Meets q a) (Meets p a) keeps))
          (check_each-AllMeet fuel inst ps rest (omega (arith, e))))

-- If the check of all arguments accepts them, then there is one for each parameter, of its kind, and
-- the types for parameters that must be copyable or droppable are.
pub check_all_args-AllMeet :
    (fuel : ℕ) (ps : Params) (args : Arguments)
    → check_all_args fuel ps args ≡ built (accepted tt)
    → AllMeet ps args
unfolding check_all_args
check_all_args-AllMeet fuel ps args e =
    Ensures-built (Accepts (AllMeet ps args)) (check_all_args fuel ps args) (accepted tt)
      (Ensures-if (Accepts (AllMeet ps args)) (count_params ps == count_args args)
        (check_each fuel (inst_of args) ps args) _
        (λ h. check_each-AllMeet fuel (inst_of args) ps args (==→eq _ _ h)) (λ _. tt))
      e
