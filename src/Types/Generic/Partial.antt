-- ===== src/Types/Generic/Partial.antt =====
-- Instantiating a function type in part: the parameters that remain, and the rows of its output.
use guppylang.Common.{
  ℕ, suc, ◌+◌, ◌≡◌, ◌⊎◌, refl, ap, inl, inr, false, none, some, [], ◌∷◌, ◌++◌, nat_eq, string_eq,
  arith,
}
use guppylang.Types.{
  Ty, Row, Inputs, Arguments, Parameter, Params, none_type, function_type, tuple_type, no_types,
  ty_cons, no_args, arg_cons, type_param, const_param, no_params, param_cons,
}
use guppylang.Unitary.{UnitaryFlags}
use guppylang.Types.Transform.{transform, transform_inputs, transform_args}
use guppylang.Types.Ensures.{
  Ensures, Ensures-bind, Ensures-any, Ensures-weaken, make_function-Ensures,
}
use guppylang.Types.Subst.{Inst, instantiator}
use guppylang.Types.Linear.{inst_of}
use guppylang.Types.Generic.{
  with_idx, to_bound, instantiate_bounds, count_params, append_param, partial_loop,
  instantiate_partial, row_to_type, type_to_row,
}

abbrev pub param_idx : Parameter → ℕ
param_idx (type_param idx name c d) = idx
param_idx (const_param idx name ty b) = idx

-- The indices count up from a number.
abbrev pub IsNumbered : ℕ → Params → Type 0
IsNumbered n no_params = Unit {0}
IsNumbered n (param_cons p ps) = (param_idx p ≡ n) × IsNumbered (suc n) ps

abbrev pub count_gaps : Inst → ℕ
count_gaps [] = 0
count_gaps (none ∷ args) = suc (count_gaps args)
count_gaps (some a ∷ args) = count_gaps args

IsNumbered-append_param :
    (n : ℕ) (ps : Params) (p : Parameter)
    → IsNumbered n ps
    → param_idx p ≡ count_params ps + n
    → IsNumbered n (append_param ps p)
IsNumbered-append_param n no_params p h e = (omega (arith, e), tt)
IsNumbered-append_param n (param_cons q ps) p h e =
    (h.0, IsNumbered-append_param (suc n) ps p h.1 (omega (arith, e)))

count-append_param :
    (ps : Params) (p : Parameter) → count_params (append_param ps p) ≡ suc (count_params ps)
count-append_param no_params p = refl
count-append_param (param_cons q ps) p = ap suc (count-append_param ps p)

idx-with_idx : (n : ℕ) (p : Parameter) → param_idx (with_idx n p) ≡ n
unfolding with_idx
idx-with_idx n (type_param idx name c d) = refl
idx-with_idx n (const_param idx name ty b) = refl

idx-instantiate_bounds :
    (inst : Inst) (p : Parameter)
    → Ensures (λ q. param_idx q ≡ param_idx p) (instantiate_bounds inst p)
unfolding instantiate_bounds
idx-instantiate_bounds inst (type_param idx name c d) = refl
idx-instantiate_bounds inst (const_param idx name ty b) =
    Ensures-bind (λ _. Unit {0}) (λ q. param_idx q ≡ idx) (transform (instantiator inst false) ty) _
      (Ensures-any (transform (instantiator inst false) ty)) (λ ty' _. refl)

-- The remaining parameters are numbered from zero, and there is one for each gap.
abbrev Remain : ℕ → Inst × Params → Type 0
Remain n r = IsNumbered 0 r.1 × (count_params r.1 ≡ n)

loop-Remain :
    (ps : Params) (args full : Inst) (remaining : Params)
    → IsNumbered 0 remaining
    → Ensures
        (Remain (count_gaps args + count_params remaining))
        (partial_loop ps args full remaining)
unfolding partial_loop
loop-Remain no_params [] full remaining h = (h, omega arith)
loop-Remain no_params (a ∷ args) full remaining h = tt
loop-Remain (param_cons p ps) [] full remaining h = tt
loop-Remain (param_cons p ps) (some a ∷ args) full remaining h =
    loop-Remain ps args (full ++ some a ∷ []) remaining h
loop-Remain (param_cons p ps) (none ∷ args) full remaining h =
    Ensures-bind (λ q. param_idx q ≡ param_idx (with_idx (count_params remaining) p))
      (Remain (count_gaps (none ∷ args) + count_params remaining))
      (instantiate_bounds full (with_idx (count_params remaining) p)) _
      (idx-instantiate_bounds full (with_idx (count_params remaining) p))
      (λ q e.
        Ensures-weaken (Remain (count_gaps args + count_params (append_param remaining q)))
          (Remain (count_gaps (none ∷ args) + count_params remaining))
          (partial_loop ps args (full ++ some (to_bound (with_idx (count_params remaining) p)) ∷ [])
            (append_param remaining q))
          (loop-Remain ps args (full ++ some (to_bound (with_idx (count_params remaining) p)) ∷ [])
            (append_param remaining q)
            (IsNumbered-append_param 0 remaining q h
              (omega (arith, e, idx-with_idx (count_params remaining) p))))
          (λ r k. (k.0, omega (arith, k.1, count-append_param remaining q))))

-- A function type with that many parameters, numbered from zero.
abbrev pub HasParams : ℕ → UnitaryFlags → Ty → Type 0
HasParams n flags (function_type ins out ps cs flags') =
    IsNumbered 0 ps × (count_params ps ≡ n) × (flags' ≡ flags)
HasParams n flags none_type = ⊥
HasParams n flags _ = ⊥

-- If a function type can be instantiated in part, then the result has a parameter for each one
-- without an argument, their indices count up from zero, and the unitary flags are kept.
pub instantiate_partial_lem :
    (ins : Inputs) (out : Ty) (ps : Params) (cs : Arguments) (flags : UnitaryFlags) (args : Inst)
    → Ensures
        (HasParams (count_gaps args) flags)
        (instantiate_partial (function_type ins out ps cs flags) args)
unfolding instantiate_partial
instantiate_partial_lem ins out ps cs flags args =
    Ensures-bind (Remain (count_gaps args + 0)) (HasParams (count_gaps args) flags)
      (partial_loop ps args [] no_params) _ (loop-Remain ps args [] no_params tt)
      (λ r h.
        Ensures-bind (λ _. Unit {0}) (HasParams (count_gaps args) flags)
          (transform_inputs (instantiator r.0 false) ins) _
          (Ensures-any (transform_inputs (instantiator r.0 false) ins))
          (λ ins' _.
            Ensures-bind (λ _. Unit {0}) (HasParams (count_gaps args) flags)
              (transform (instantiator r.0 false) out) _
              (Ensures-any (transform (instantiator r.0 false) out))
              (λ out' _.
                Ensures-bind (λ _. Unit {0}) (HasParams (count_gaps args) flags)
                  (transform_args (instantiator r.0 false) cs) _
                  (Ensures-any (transform_args (instantiator r.0 false) cs))
                  (λ cs' _.
                    make_function-Ensures ins' out' r.1 cs' flags
                      (HasParams (count_gaps args) flags) (h.0, omega (arith, h.1), refl)))))

gaps-inst_of : (args : Arguments) → count_gaps (inst_of args) ≡ 0
gaps-inst_of no_args = refl
gaps-inst_of (arg_cons a rest) = gaps-inst_of rest

-- A row is packed and unpacked without loss, unless it is one type that is itself a tuple or None.
pub type_to_row-row_to_type :
    (row : Row)
    → (type_to_row (row_to_type row) ≡ row)
      ⊎ ((r : Row) × (row ≡ ty_cons (tuple_type r) no_types))
      ⊎ (row ≡ ty_cons none_type no_types)
unfolding row_to_type type_to_row
type_to_row-row_to_type no_types = inl refl
type_to_row-row_to_type (ty_cons none_type no_types) = inr (inr refl)
type_to_row-row_to_type (ty_cons (tuple_type r) no_types) = inr (inl (r, refl))
type_to_row-row_to_type (ty_cons t no_types) = inl refl
type_to_row-row_to_type (ty_cons t (ty_cons u rest)) = inl refl
