-- ===== src/Unitary/Checker/Errors.antt =====
-- The errors that the unitary checker raises.
use mathlib.Core.Path.{subst}
use guppylang.Common.{
  ◌≡◌, refl, ◌⊎◌, Bool, Bool-cases, inl, inr, true, false, some, String, List, [], ◌∷◌,
  if◌then◌else◌, arith,
}
use guppylang.Unitary.{UnitaryFlags, no_flags, same_flags, flag_minus, context}
use guppylang.Unitary.Checker.{
  Func, custom_function, pytket, other_callable, higher_order, FunctionType, UnitaryCallError,
  Checked, passed, raised, then_check, Node, call, barrier, state_output, abort, modified_block,
  assign, other_node, Args, no_args, arg, is_classical, is_a_valid_call, call_error,
  check_allocation, check_flags, check_no_dagger, visit, visit_all, check, check_blocks,
  check_cfg_unitary,
}

-- The error names a flag.
abbrev NamesFlag : UnitaryCallError → Type 0
NamesFlag e = same_flags e.flags no_flags ≡ false

raised_eq : {e e' : UnitaryCallError} → raised e ≡ raised e' → e ≡ e'
raised_eq h = cc

then_check-eq-raised :
    (c d : Checked) (e : UnitaryCallError)
    → then_check c d ≡ raised e
    → (c ≡ raised e) ⊎ (d ≡ raised e)
then_check-eq-raised passed d e h = inr h
then_check-eq-raised (raised e') d e h = inl h

raised_of :
    (b : Bool) (e e' : UnitaryCallError)
    → (if b then raised e else passed) ≡ raised e'
    → (b ≡ true) × (e ≡ e')
raised_of true e e' h = (refl, raised_eq h)
raised_of false e e' h = cc

raised_of' :
    (b : Bool) (e e' : UnitaryCallError)
    → (if b then passed else raised e) ≡ raised e'
    → (b ≡ false) × (e ≡ e')
raised_of' true e e' h = cc
raised_of' false e e' h = (refl, raised_eq h)

call_error-flags :
    (flags callee : UnitaryFlags) (func : Func)
    → (call_error flags callee func).flags ≡ flag_minus flags callee
unfolding call_error
call_error-flags flags callee custom_function = refl
call_error-flags flags callee pytket = refl
call_error-flags flags callee other_callable = refl
call_error-flags flags callee higher_order = refl

check_allocation-NamesFlag :
    (flags : UnitaryFlags) (ty : FunctionType) (e : UnitaryCallError)
    → check_allocation flags ty ≡ raised e
    → NamesFlag e
unfolding check_allocation
check_allocation-NamesFlag flags ty e h =
    let (made, same) = raised_of _ _ e h in
    subst (λ (d : UnitaryCallError). NamesFlag d) same (ground (arith, made))

check_flags-NamesFlag :
    (flags : UnitaryFlags) (func : Func) (ty : FunctionType) (classical : Bool)
    (e : UnitaryCallError)
    → check_flags flags func ty classical ≡ raised e
    → NamesFlag e
unfolding check_flags is_a_valid_call
check_flags-NamesFlag flags func ty classical e h =
    let (off, same) = raised_of' _ _ e h in
    subst (λ (d : UnitaryCallError). NamesFlag d) same
      (rw (call_error-flags flags ty.unitary_flags func) (ground (arith, off)))

check_no_dagger-NamesFlag :
    (flags : UnitaryFlags) (e : UnitaryCallError) → check_no_dagger flags ≡ raised e → NamesFlag e
unfolding check_no_dagger
check_no_dagger-NamesFlag flags e h =
    let (on, same) = raised_of _ _ e h in
    subst (λ (d : UnitaryCallError). NamesFlag d) same (ground (arith, on))

mutual
  unfolding visit visit_all

  visit-NamesFlag :
      (flags : UnitaryFlags) (n : Node) (e : UnitaryCallError)
      → visit flags n ≡ raised e
      → NamesFlag e
  visit-NamesFlag flags (call func ty args) e h = elim (then_check-eq-raised _ _ e h) [
    | inl a ↦ check_allocation-NamesFlag flags ty e a
    | inr rest ↦ elim (then_check-eq-raised _ _ e rest) [
      | inl b ↦ visit_all-NamesFlag flags args e b
      | inr c ↦ check_flags-NamesFlag flags func ty (is_classical args) e c
    ]
  ]
  visit-NamesFlag flags barrier e h = cc
  visit-NamesFlag flags state_output e h = check_no_dagger-NamesFlag flags e h
  visit-NamesFlag flags (abort parts) e h = elim (then_check-eq-raised _ _ e h) [
    | inl a ↦ check_no_dagger-NamesFlag flags e a
    | inr b ↦ visit_all-NamesFlag flags parts e b
  ]
  visit-NamesFlag flags modified_block e h = cc
  visit-NamesFlag flags (assign value) e h = visit_all-NamesFlag flags value e h
  visit-NamesFlag flags (other_node children) e h = visit_all-NamesFlag flags children e h

  visit_all-NamesFlag :
      (flags : UnitaryFlags) (args : Args) (e : UnitaryCallError)
      → visit_all flags args ≡ raised e
      → NamesFlag e
  visit_all-NamesFlag flags no_args e h = cc
  visit_all-NamesFlag flags (arg q n rest) e h = elim (then_check-eq-raised _ _ e h) [
    | inl a ↦ visit-NamesFlag flags n e a
    | inr b ↦ visit_all-NamesFlag flags rest e b
  ]

check-NamesFlag :
    (flags : UnitaryFlags) (b : List Node) (e : UnitaryCallError)
    → check flags b ≡ raised e
    → NamesFlag e
unfolding check
check-NamesFlag flags [] e h = cc
check-NamesFlag flags (s ∷ b) e h = elim (then_check-eq-raised _ _ e h) [
  | inl a ↦ visit-NamesFlag flags s e a
  | inr rest ↦ check-NamesFlag flags b e rest
]

check_blocks-NamesFlag :
    (flags : UnitaryFlags) (bbs : List (List Node)) (e : UnitaryCallError)
    → check_blocks flags bbs ≡ raised e
    → NamesFlag e
unfolding check_blocks
check_blocks-NamesFlag flags [] e h = cc
check_blocks-NamesFlag flags (b ∷ bbs) e h = elim (then_check-eq-raised _ _ e h) [
  | inl a ↦ check-NamesFlag flags b e a
  | inr rest ↦ check_blocks-NamesFlag flags bbs e rest
]

context-NamesFlag : (e : UnitaryCallError) → NamesFlag e → (s : String) × (context e.flags ≡ some s)
unfolding context
context-NamesFlag e h = elim (Bool-cases e.flags.control) [
  | inl c ↦ elim (Bool-cases e.flags.dagger) [
    | inl d ↦ rw (c, d) ("unitary", refl)
    | inr d ↦ rw (c, d) ("controllable", refl)
  ]
  | inr c ↦ elim (Bool-cases e.flags.dagger) [
    | inl d ↦ rw (c, d) ("daggerable", refl)
    | inr d ↦ let clash : true ≡ false = ground (arith, h, c, d) in cc
  ]
]

-- An error of the check names a flag, so that `context`, which its text calls, does not fail.
pub check_cfg_unitary-context :
    (bbs : List (List Node)) (flags : UnitaryFlags) (e : UnitaryCallError)
    → check_cfg_unitary bbs flags ≡ raised e
    → (s : String) × (context e.flags ≡ some s)
unfolding check_cfg_unitary
check_cfg_unitary-context bbs flags e h = elim (Bool-cases (same_flags flags no_flags)) [
  | inl nothing ↦ let clash : passed ≡ raised e = rw nothing at h in cc
  | inr some_flag ↦ context-NamesFlag e (check_blocks-NamesFlag flags bbs e (rw some_flag at h))
]
