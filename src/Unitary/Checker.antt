-- ===== src/Unitary/Checker.antt =====
-- guppylang-internals/src/guppylang_internals/checker/unitary_checker.py on the checked syntax. A
-- node is what the visitor reads of it: whether `contain_qubit_ty` holds of the type of an argument
-- is given with the argument, and the other nodes are their visited children.
pub mod Allowed
pub mod Errors
pub mod Weaker
use guppylang.Common.{Bool, true, false, not, ◌&&◌, ◌||◌, List, [], ◌∷◌, if◌then◌else◌}
use guppylang.Unitary.{UnitaryFlags, no_flags, is_in, same_flags, flag_minus, dagger_flag}

-- The definition that is called, as far as an error tells it apart; `higher_order` is `None`.
pub data Func : Type 0 where
  custom_function pytket other_callable higher_order : Func

pub record FunctionType : Type 0 where
  pub output_has_qubit : Bool
  pub unitary_flags : UnitaryFlags

-- The extra note of an error.
pub data SubDiagnostic : Type 0 where
  no_note qubit_allocation_note pytket_hint flag_hint : SubDiagnostic
  higher_order_hint : UnitaryFlags → SubDiagnostic

-- `UnitaryCallError`
pub record UnitaryCallError : Type 0 where
  pub flags : UnitaryFlags
  pub missing_keyword_hint : Bool
  pub note : SubDiagnostic

pub data Checked : Type 0 where
  passed : Checked
  raised : UnitaryCallError → Checked

abbrev pub then_check : Checked → Checked → Checked
then_check passed c = c
then_check (raised e) c = raised e

mutual
  pub data Node : Type 0 where
    -- `GlobalCall`, `LocalCall` and `TensorCall` with what `_check_call` reads of them.
    call : Func → FunctionType → Args → Node
    barrier : Node
    state_output : Node
    -- The signal, the message and the values.
    abort : Args → Node
    modified_block : Node
    -- `Assign`, `AnnAssign` and `AugAssign`: the value, if there is one.
    assign : Args → Node
    -- Any other node with its children.
    other_node : Args → Node

  pub data Args : Type 0 where
    no_args : Args
    -- Whether the type of the argument has a qubit, the argument, and those after it.
    arg : Bool → Node → Args → Args

-- `all(not contain_qubit_ty(get_type(arg)) for arg in args)`
abbrev pub is_classical : Args → Bool
is_classical no_args = true
is_classical (arg qubit n rest) = not qubit && is_classical rest

-- The error for a call that is not valid.
unfoldable pub call_error : UnitaryFlags → UnitaryFlags → Func → UnitaryCallError
call_error flags callee custom_function = record {
  flags = flag_minus flags callee;
  missing_keyword_hint = true;
  note = no_note;
}
call_error flags callee pytket = record {
  flags = flag_minus flags callee;
  missing_keyword_hint = false;
  note = pytket_hint;
}
call_error flags callee other_callable = record {
  flags = flag_minus flags callee;
  missing_keyword_hint = false;
  note = flag_hint;
}
call_error flags callee higher_order = record {
  flags = flag_minus flags callee;
  missing_keyword_hint = false;
  note = higher_order_hint callee;
}

-- Whether the flags of a call suit the flags of its context.
unfoldable pub is_a_valid_call : UnitaryFlags → FunctionType → Bool → Bool
is_a_valid_call flags ty is_classic_fun =
    if is_classic_fun
    then (if not (is_in dagger_flag flags) then true else is_in dagger_flag ty.unitary_flags)
    else is_in flags ty.unitary_flags

-- What is checked before the arguments and what after them.
unfoldable pub check_allocation : UnitaryFlags → FunctionType → Checked
check_allocation flags ty =
    if ty.output_has_qubit && not (same_flags flags no_flags)
    then raised
        (record { flags = flags; missing_keyword_hint = false; note = qubit_allocation_note })
    else passed

unfoldable pub check_flags : UnitaryFlags → Func → FunctionType → Bool → Checked
check_flags flags func ty is_classic_fun =
    if is_a_valid_call flags ty is_classic_fun
    then passed
    else raised (call_error flags ty.unitary_flags func)

-- Not allowed under a dagger.
unfoldable pub check_no_dagger : UnitaryFlags → Checked
check_no_dagger flags =
    if is_in dagger_flag flags
    then raised (record { flags = flags; missing_keyword_hint = true; note = no_note })
    else passed

unfoldable mutual
  pub visit : UnitaryFlags → Node → Checked
  visit flags (call func ty args) =
      then_check (check_allocation flags ty)
        (then_check (visit_all flags args) (check_flags flags func ty (is_classical args)))
  visit flags barrier = passed
  visit flags state_output = check_no_dagger flags
  visit flags (abort parts) = then_check (check_no_dagger flags) (visit_all flags parts)
  visit flags modified_block = passed
  visit flags (assign value) = visit_all flags value
  visit flags (other_node children) = visit_all flags children

  pub visit_all : UnitaryFlags → Args → Checked
  visit_all flags no_args = passed
  visit_all flags (arg _ n rest) = then_check (visit flags n) (visit_all flags rest)

-- `BBUnitaryChecker.check` on the statements of a block.
unfoldable pub check : UnitaryFlags → List Node → Checked
check flags [] = passed
check flags (s ∷ statements) = then_check (visit flags s) (check flags statements)

unfoldable pub check_blocks : UnitaryFlags → List (List Node) → Checked
check_blocks flags [] = passed
check_blocks flags (b ∷ bbs) = then_check (check flags b) (check_blocks flags bbs)

unfoldable pub check_cfg_unitary : List (List Node) → UnitaryFlags → Checked
check_cfg_unitary bbs flags = if same_flags flags no_flags then passed else check_blocks flags bbs
