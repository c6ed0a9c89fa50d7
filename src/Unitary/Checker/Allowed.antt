-- ===== src/Unitary/Checker/Allowed.antt =====
-- What the unitary checker lets pass, said without the order in which it looks.
use guppylang.Common.{
  ◌≡◌, refl, Bool, ◌↔◌, true, false, not, ◌&&◌, List, [], ◌∷◌, if◌then◌else◌, arith,
}
use guppylang.Unitary.{UnitaryFlags, no_flags, is_in, same_flags, dagger_flag}
use guppylang.Unitary.Checker.{
  Func, FunctionType, UnitaryCallError, Checked, passed, raised, then_check, Node, call, barrier,
  state_output, abort, modified_block, assign, other_node, Args, no_args, arg, is_classical,
  is_a_valid_call, check_allocation, check_flags, check_no_dagger, visit, visit_all, check,
  check_blocks, check_cfg_unitary,
}

-- A call may stand in a context: it makes no qubit under a modifier, a call with a quantum argument
-- has all flags of the context, and a classical call is daggerable under a dagger.
pub record CallIsAllowed (flags : UnitaryFlags) (ty : FunctionType) (args : Args) : Type 0 where
  pub no_allocation : ty.output_has_qubit ≡ true → same_flags flags no_flags ≡ true
  pub quantum : is_classical args ≡ false → is_in flags ty.unitary_flags ≡ true
  pub classical : is_classical args ≡ true → flags.dagger ≡ true → ty.unitary_flags.dagger ≡ true

mutual
  pub data IsAllowed (flags : UnitaryFlags) : Node → Type 0 where
    call_ok :
        {func : Func} {ty : FunctionType} {args : Args}
        → CallIsAllowed flags ty args
        → AreAllowed flags args
        → IsAllowed flags (call func ty args)
    barrier_ok : IsAllowed flags barrier
    state_ok : flags.dagger ≡ false → IsAllowed flags state_output
    abort_ok :
        {parts : Args}
        → flags.dagger ≡ false
        → AreAllowed flags parts
        → IsAllowed flags (abort parts)
    block_ok : IsAllowed flags modified_block
    assign_ok : {value : Args} → AreAllowed flags value → IsAllowed flags (assign value)
    other_ok : {children : Args} → AreAllowed flags children → IsAllowed flags (other_node children)

  pub data AreAllowed (flags : UnitaryFlags) : Args → Type 0 where
    none_ok : AreAllowed flags no_args
    arg_ok :
        {q : Bool} {n : Node} {rest : Args}
        → IsAllowed flags n
        → AreAllowed flags rest
        → AreAllowed flags (arg q n rest)

pub then_check-eq-passed : (c d : Checked) → then_check c d ≡ passed → (c ≡ passed) × (d ≡ passed)
then_check-eq-passed passed d h = (refl, h)
then_check-eq-passed (raised e) d h = cc

not_raised :
    (b : Bool) (e : UnitaryCallError) → (if b then raised e else passed) ≡ passed → b ≡ false
not_raised true e h = cc
not_raised false e h = refl

not_raised' :
    (b : Bool) (e : UnitaryCallError) → (if b then passed else raised e) ≡ passed → b ≡ true
not_raised' true e h = refl
not_raised' false e h = cc

call_passes :
    (flags : UnitaryFlags) (func : Func) (ty : FunctionType) (args : Args)
    → check_allocation flags ty ≡ passed
    → check_flags flags func ty (is_classical args) ≡ passed
    → CallIsAllowed flags ty args
unfolding check_allocation check_flags is_a_valid_call
call_passes flags func ty args allocation valid =
    let a = not_raised _ _ allocation in
    let v = not_raised' _ _ valid in
    record {
      no_allocation = λ made. ground (arith, a);
      quantum = λ q. ground (arith, v);
      classical = λ c d. ground (arith, v);
    }

allowed_valid :
    (flags : UnitaryFlags) (ty : FunctionType) (args : Args)
    → CallIsAllowed flags ty args
    → is_a_valid_call flags ty (is_classical args) ≡ true
unfolding is_a_valid_call
allowed_valid flags ty args h = ground (arith, h.quantum, h.classical)

CallIsAllowed-passes :
    (flags : UnitaryFlags) (func : Func) (ty : FunctionType) (args : Args)
    → CallIsAllowed flags ty args
    → (check_allocation flags ty ≡ passed)
      × (check_flags flags func ty (is_classical args) ≡ passed)
unfolding check_allocation check_flags
CallIsAllowed-passes flags func ty args h =
    let a : (ty.output_has_qubit && not (same_flags flags no_flags)) ≡ false =
      ground (arith, h.no_allocation) in
    let v : is_a_valid_call flags ty (is_classical args) ≡ true = allowed_valid flags ty args h in
    (rw a refl, rw v refl)

no_dagger : (flags : UnitaryFlags) → check_no_dagger flags ≡ passed → flags.dagger ≡ false
unfolding check_no_dagger
no_dagger flags h = let a = not_raised _ _ h in ground (arith, a)

no_dagger_passes : (flags : UnitaryFlags) → flags.dagger ≡ false → check_no_dagger flags ≡ passed
unfolding check_no_dagger
no_dagger_passes flags d = let off : is_in dagger_flag flags ≡ false = ground arith in rw off refl

mutual
  unfolding visit visit_all

  visit-IsAllowed : (flags : UnitaryFlags) (n : Node) → visit flags n ≡ passed → IsAllowed flags n
  visit-IsAllowed flags (call func ty args) h =
      let (a, rest) = then_check-eq-passed _ _ h in
      let (b, c) = then_check-eq-passed _ _ rest in
      call_ok (call_passes flags func ty args a c) (visit_all-AreAllowed flags args b)
  visit-IsAllowed flags barrier h = barrier_ok
  visit-IsAllowed flags state_output h = state_ok (no_dagger flags h)
  visit-IsAllowed flags (abort parts) h =
      let (a, rest) = then_check-eq-passed _ _ h in
      abort_ok (no_dagger flags a) (visit_all-AreAllowed flags parts rest)
  visit-IsAllowed flags modified_block h = block_ok
  visit-IsAllowed flags (assign value) h = assign_ok (visit_all-AreAllowed flags value h)
  visit-IsAllowed flags (other_node children) h = other_ok (visit_all-AreAllowed flags children h)

  visit_all-AreAllowed :
      (flags : UnitaryFlags) (args : Args) → visit_all flags args ≡ passed → AreAllowed flags args
  visit_all-AreAllowed flags no_args h = none_ok
  visit_all-AreAllowed flags (arg q n rest) h =
      let (a, b) = then_check-eq-passed _ _ h in
      arg_ok (visit-IsAllowed flags n a) (visit_all-AreAllowed flags rest b)

mutual
  unfolding visit visit_all

  IsAllowed-visit : {flags : UnitaryFlags} {n : Node} → IsAllowed flags n → visit flags n ≡ passed
  IsAllowed-visit {flags} (call_ok {func} {ty} {args} c parts) =
      let p = CallIsAllowed-passes flags func ty args c in
      rw (p.0, AreAllowed-visit_all parts, p.1) refl
  IsAllowed-visit barrier_ok = refl
  IsAllowed-visit {flags} (state_ok d) = no_dagger_passes flags d
  IsAllowed-visit {flags} (abort_ok d parts) =
      rw (no_dagger_passes flags d, AreAllowed-visit_all parts) refl
  IsAllowed-visit block_ok = refl
  IsAllowed-visit (assign_ok parts) = AreAllowed-visit_all parts
  IsAllowed-visit (other_ok parts) = AreAllowed-visit_all parts

  AreAllowed-visit_all :
      {flags : UnitaryFlags} {args : Args} → AreAllowed flags args → visit_all flags args ≡ passed
  AreAllowed-visit_all none_ok = refl
  AreAllowed-visit_all (arg_ok h hs) = rw (IsAllowed-visit h, AreAllowed-visit_all hs) refl

-- The statements of all blocks.
abbrev pub AllAllowed : UnitaryFlags → List Node → Type 0
AllAllowed flags [] = Unit {0}
AllAllowed flags (s ∷ statements) = IsAllowed flags s × AllAllowed flags statements

abbrev pub BlocksAllowed : UnitaryFlags → List (List Node) → Type 0
BlocksAllowed flags [] = Unit {0}
BlocksAllowed flags (b ∷ bbs) = AllAllowed flags b × BlocksAllowed flags bbs

check_iff : (flags : UnitaryFlags) (b : List Node) → (check flags b ≡ passed) ↔ AllAllowed flags b
unfolding check
check_iff flags [] = (λ _. tt, λ _. refl)
check_iff flags (s ∷ b) = (
  λ h.
      let (a, rest) = then_check-eq-passed _ _ h in
      (visit-IsAllowed flags s a, (check_iff flags b).0 rest),
  λ (a, rest). rw (IsAllowed-visit a, (check_iff flags b).1 rest) refl,
)

check_blocks_iff :
    (flags : UnitaryFlags) (bbs : List (List Node))
    → (check_blocks flags bbs ≡ passed) ↔ BlocksAllowed flags bbs
unfolding check_blocks
check_blocks_iff flags [] = (λ _. tt, λ _. refl)
check_blocks_iff flags (b ∷ bbs) = (
  λ h.
      let (a, rest) = then_check-eq-passed _ _ h in
      ((check_iff flags b).0 a, (check_blocks_iff flags bbs).0 rest),
  λ (a, rest). rw ((check_iff flags b).1 a, (check_blocks_iff flags bbs).1 rest) refl,
)

-- Under any flags, the check of a graph passes exactly if every node that it visits is allowed.
pub check_cfg_unitary_iff :
    (bbs : List (List Node)) (flags : UnitaryFlags)
    → same_flags flags no_flags ≡ false
    → (check_cfg_unitary bbs flags ≡ passed) ↔ BlocksAllowed flags bbs
unfolding check_cfg_unitary
check_cfg_unitary_iff bbs flags some_flag = rw some_flag (check_blocks_iff flags bbs)
