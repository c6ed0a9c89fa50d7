-- ===== src/Types/Ensures.antt =====
-- Facts about the value of a computation that succeeds.
use guppylang.Common.{
  ◌≡◌, refl, Option, none, some, true, false, Bool, if◌then◌else◌, length, ◌==◌, ◌||◌,
}
use guppylang.Unitary.{UnitaryFlags}
use guppylang.Types.{
  Ty, Inputs, Arguments, Params, function_type, Outcome, built, internal_error, assertion_failed,
  out_of_fuel, ◌>>=◌,
}
use guppylang.Types.Transform.{
  or_else, post_init, is_higher_rank, make_function, names, count_inputs,
}

-- If the computation returns a value, then the value has `P`.
abbrev pub Ensures {ℓ κ} : {A : Type ℓ} → (A → Type κ) → Outcome A → Type κ
Ensures P (built a) = P a
Ensures P (internal_error m) = Unit
Ensures P assertion_failed = Unit
Ensures P out_of_fuel = Unit

module _ {ℓ κ} {A : Type ℓ} (P : A → Type κ) where
  pub Ensures-bind {ℓ' κ'} :
      {B : Type ℓ'} (Q : B → Type κ') (m : Outcome A) (f : A → Outcome B)
      → Ensures P m
      → ((a : A) → P a → Ensures Q (f a))
      → Ensures Q (m >>= f)
  Ensures-bind Q (built a) f p k = k a p
  Ensures-bind Q (internal_error m) f p k = tt
  Ensures-bind Q assertion_failed f p k = tt
  Ensures-bind Q out_of_fuel f p k = tt

  pub Ensures-built : (m : Outcome A) (a : A) → Ensures P m → m ≡ built a → P a
  Ensures-built m a p e = rw e at p

abbrev pub Given {ℓ κ} : {A : Type ℓ} → (A → Type κ) → Option A → Type κ
Given P none = Unit
Given P (some a) = P a

pub Ensures-or_else {κ} :
    {A : Type 0} (P : A → Type κ) (m : Outcome (Option A)) (next : Outcome A)
    → Ensures (Given P) m
    → Ensures P next
    → Ensures P (or_else m next)
Ensures-or_else P (built (some a)) next p q = p
Ensures-or_else P (built none) next p q = q
Ensures-or_else P (internal_error m) next p q = tt
Ensures-or_else P assertion_failed next p q = tt
Ensures-or_else P out_of_fuel next p q = tt

pub Ensures-weaken {ℓ κ μ} :
    {A : Type ℓ} (P : A → Type κ) (Q : A → Type μ) (m : Outcome A)
    → Ensures P m
    → ((a : A) → P a → Q a)
    → Ensures Q m
Ensures-weaken P Q (built a) p k = k a p
Ensures-weaken P Q (internal_error m) p k = tt
Ensures-weaken P Q assertion_failed p k = tt
Ensures-weaken P Q out_of_fuel p k = tt

pub Ensures-if {ℓ κ} :
    {A : Type ℓ} (P : A → Type κ) (b : Bool) (m n : Outcome A)
    → (b ≡ true → Ensures P m)
    → (b ≡ false → Ensures P n)
    → Ensures P (if b then m else n)
Ensures-if P true m n p q = p refl
Ensures-if P false m n p q = q refl

pub Ensures-any {ℓ} : {A : Type ℓ} (m : Outcome A) → Ensures (λ _. Unit {0}) m
Ensures-any (built a) = tt
Ensures-any (internal_error m) = tt
Ensures-any assertion_failed = tt
Ensures-any out_of_fuel = tt

pub post_init-Ensures :
    (args : Arguments) (t : Ty) (P : Ty → Type 0) → P t → Ensures P (post_init args t)
unfolding post_init
post_init-Ensures args t P p =
    elim (is_higher_rank args)
      as (λ b. Ensures P (
        if b
        then internal_error "Tried to construct a higher-rank polymorphic type!"
        else built t)) [ true ↦ tt | false ↦ p ]

pub make_function-Ensures :
    (ins : Inputs) (out : Ty) (pars : Params) (cs : Arguments) (flags : UnitaryFlags)
    (P : Ty → Type 0)
    → P (function_type ins out pars cs flags)
    → Ensures P (make_function ins out pars cs flags)
unfolding make_function
make_function-Ensures ins out pars cs flags P p =
    elim (length (names ins) == 0 || length (names ins) == count_inputs ins)
      as (λ b. Ensures P (
        if b
        then built (function_type ins out pars cs flags)
        else internal_error "Tried to construct FunctionType with invalid input names")) [
          | true ↦ p
          | false ↦ tt
        ]

pub Ensures-under {ℓ κ μ} :
    {A : Type ℓ} (X : Type μ) (P : A → Type κ) (m : Outcome A)
    → (X → Ensures P m)
    → Ensures (λ a. X → P a) m
Ensures-under X P (built a) h = h
Ensures-under X P (internal_error m) h = tt
Ensures-under X P assertion_failed h = tt
Ensures-under X P out_of_fuel h = tt
