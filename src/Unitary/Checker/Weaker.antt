-- ===== src/Unitary/Checker/Weaker.antt =====
-- Fewer flags allow more.
use guppylang.Common.{◌≡◌, refl, Bool-cases, inl, inr, true, false, List, [], ◌∷◌, arith}
use guppylang.Unitary.{UnitaryFlags, no_flags, is_in, same_flags, is_weaker_than}
use guppylang.Unitary.Checker.{FunctionType, passed, Node, Args, check_cfg_unitary}
use guppylang.Unitary.Checker.Allowed.{
  CallIsAllowed, IsAllowed, AreAllowed, call_ok, barrier_ok, state_ok, abort_ok, block_ok,
  assign_ok, other_ok, none_ok, arg_ok, AllAllowed, BlocksAllowed, check_cfg_unitary_iff,
}

module _ (f g : UnitaryFlags) (weaker : is_in f g ≡ true) where
  call_weaker :
      {ty : FunctionType} {args : Args} → CallIsAllowed g ty args → CallIsAllowed f ty args
  call_weaker h = record {
    no_allocation = λ made. ground (arith, h.no_allocation made);
    quantum = λ q. ground (arith, h.quantum q);
    classical = λ c d. h.classical c (ground arith);
  }

  mutual
    IsAllowed-weaker : {n : Node} → IsAllowed g n → IsAllowed f n
    IsAllowed-weaker (call_ok c parts) = call_ok (call_weaker c) (AreAllowed-weaker parts)
    IsAllowed-weaker barrier_ok = barrier_ok
    IsAllowed-weaker (state_ok d) = state_ok (ground arith)
    IsAllowed-weaker (abort_ok d parts) = abort_ok (ground arith) (AreAllowed-weaker parts)
    IsAllowed-weaker block_ok = block_ok
    IsAllowed-weaker (assign_ok parts) = assign_ok (AreAllowed-weaker parts)
    IsAllowed-weaker (other_ok parts) = other_ok (AreAllowed-weaker parts)

    AreAllowed-weaker : {args : Args} → AreAllowed g args → AreAllowed f args
    AreAllowed-weaker none_ok = none_ok
    AreAllowed-weaker (arg_ok h hs) = arg_ok (IsAllowed-weaker h) (AreAllowed-weaker hs)

  AllAllowed-weaker : (b : List Node) → AllAllowed g b → AllAllowed f b
  AllAllowed-weaker [] h = tt
  AllAllowed-weaker (s ∷ b) (h, rest) = (IsAllowed-weaker h, AllAllowed-weaker b rest)

  BlocksAllowed-weaker : (bbs : List (List Node)) → BlocksAllowed g bbs → BlocksAllowed f bbs
  BlocksAllowed-weaker [] h = tt
  BlocksAllowed-weaker (b ∷ bbs) (h, rest) = (AllAllowed-weaker b h, BlocksAllowed-weaker bbs rest)

-- What passes the check under some flags passes it under all weaker flags.
pub check_cfg_unitary-weaker :
    (bbs : List (List Node)) (f g : UnitaryFlags)
    → is_weaker_than f g ≡ true
    → check_cfg_unitary bbs g ≡ passed
    → check_cfg_unitary bbs f ≡ passed
unfolding is_weaker_than check_cfg_unitary
check_cfg_unitary-weaker bbs f g weaker ok = elim (Bool-cases (same_flags f no_flags)) [
  | inl nothing ↦ rw nothing refl
  | inr some_flag ↦
      let within : is_in f g ≡ true = rw some_flag at weaker in
      let some_flag' : same_flags g no_flags ≡ false = ground arith in
      (check_cfg_unitary_iff bbs f some_flag).1
        (BlocksAllowed-weaker f g within bbs ((check_cfg_unitary_iff bbs g some_flag').0 ok))
]
