-- ===== src/Types/Visit/Found.antt =====
-- The types that `contain_qubit_ty` of tys/qubit.py reports, against the parts of a type.
use guppylang.Common.{
  ℕ, ◌≡◌, ◌⊎◌, refl, Bool, Option, String, inl, inr, true, false, ◌||◌, nat_eq, string_eq, arith,
}
use guppylang.Types.{
  Ty, Row, Inputs, Argument, Arguments, Params, StructDef, EnumDef, OpaqueTypeDef, built, none_type,
  InputFlags, function_type, function_def_type, tuple_type, opaque_type, struct_type, enum_type,
  no_types, ty_cons, input, type_arg, const_arg, no_args, arg_cons,
}
use guppylang.Unitary.{UnitaryFlags}
use guppylang.Types.Equal.{same_ty}
use guppylang.Types.Linear.{struct_fields}
use guppylang.Types.Visit.{
  is_qubit_ty, finds_here, contain_qubit_ty, row_contains, args_contain, arg_contains,
}

pub data InRow (t : Ty) : Row → Type 0 where
  first : {ts : Row} → InRow t (ty_cons t ts)
  later : {u : Ty} {ts : Row} → InRow t ts → InRow t (ty_cons u ts)

pub data InArgs (t : Ty) : Arguments → Type 0 where
  here : {rest : Arguments} → InArgs t (arg_cons (type_arg t) rest)
  there : {a : Argument} {rest : Arguments} → InArgs t rest → InArgs t (arg_cons a rest)

pub data InInputs (t : Ty) : Inputs → Type 0 where
  this : {f : InputFlags} {x : Option String} {is : Inputs} → InInputs t (input t f x is)
  that :
      {u : Ty} {f : InputFlags} {x : Option String} {is : Inputs}
      → InInputs t is
      → InInputs t (input u f x is)

-- A direct part of a type: an element, an argument, an input or the output of a function, a field of
-- a struct with its arguments filled in.
pub data Part (t : Ty) : Ty → Type 0 where
  element : {row : Row} → InRow t row → Part t (tuple_type row)
  of_opaque :
      {args : Arguments} {defn : OpaqueTypeDef} → InArgs t args → Part t (opaque_type args defn)
  of_struct : {args : Arguments} {defn : StructDef} → InArgs t args → Part t (struct_type args defn)
  of_enum : {args : Arguments} {defn : EnumDef} → InArgs t args → Part t (enum_type args defn)
  of_definition : {id : ℕ} {args : Arguments} → InArgs t args → Part t (function_def_type id args)
  of_inputs :
      {ins : Inputs} {out : Ty} {ps : Params} {cs : Arguments} {flags : UnitaryFlags}
      → InInputs t ins
      → Part t (function_type ins out ps cs flags)
  output :
      {ins : Inputs} {ps : Params} {cs : Arguments} {flags : UnitaryFlags}
      → Part t (function_type ins t ps cs flags)
  field :
      {args : Arguments} {defn : StructDef} {row : Row}
      → struct_fields args defn ≡ built row
      → InRow t row
      → Part t (struct_type args defn)

-- The type is the qubit type, or has a part that contains it.
pub data Contains (qubit : OpaqueTypeDef) : Ty → Type 0 where
  itself : {ty : Ty} → is_qubit_ty qubit ty ≡ true → Contains qubit ty
  in_part : {t ty : Ty} → Part t ty → Contains qubit t → Contains qubit ty

-- Types of numbers, variables, tuples and opaque types, without functions, structs and enums.
abbrev mutual
  pub IsPlain : Ty → Type 0
  IsPlain (function_type ins out ps cs flags) = ⊥
  IsPlain (function_def_type id args) = ⊥
  IsPlain (struct_type args defn) = ⊥
  IsPlain (enum_type args defn) = ⊥
  IsPlain (tuple_type row) = ArePlain row
  IsPlain (opaque_type args defn) = ArgsPlain args
  IsPlain _ = Unit

  pub ArePlain : Row → Type 0
  ArePlain no_types = Unit
  ArePlain (ty_cons t ts) = IsPlain t × ArePlain ts

  pub ArgsPlain : Arguments → Type 0
  ArgsPlain no_args = Unit
  ArgsPlain (arg_cons (type_arg t) rest) = IsPlain t × ArgsPlain rest
  ArgsPlain (arg_cons (const_arg c) rest) = ArgsPlain rest

or_true : (a b : Bool) → (a || b) ≡ true → (a ≡ true) ⊎ (b ≡ true)
or_true true b h = inl refl
or_true false b h = inr h

or_left : (a b : Bool) → a ≡ true → (a || b) ≡ true
or_left a b h = ground arith

or_right : (a b : Bool) → b ≡ true → (a || b) ≡ true
or_right a b h = ground arith

module _ (qubit : OpaqueTypeDef) where
  -- Only an opaque type is the qubit type.
  here_only : (ty : Ty) → finds_here qubit ty ≡ true → is_qubit_ty qubit ty ≡ true
  unfolding finds_here
  here_only (opaque_type args defn) h = h
  here_only none_type h = cc
  here_only _ h = cc

  mutual
    unfolding contain_qubit_ty

    sound : (ty : Ty) → contain_qubit_ty qubit ty ≡ true → Contains qubit ty
    sound (function_type ins out ps cs flags) h = in_part output (itself (here_only out h))
    sound (function_def_type id args) h =
        let (t, m, c) = sound_args args h in in_part (of_definition m) c
    sound (tuple_type row) h = let (t, m, c) = sound_row row h in in_part (element m) c
    sound (opaque_type args defn) h =
        elim (or_true (finds_here qubit (opaque_type args defn)) (args_contain qubit args) h) [
          | inl e ↦ itself (here_only (opaque_type args defn) e)
          | inr e ↦ let (t, m, c) = sound_args args e in in_part (of_opaque m) c
        ]
    sound (struct_type args defn) h = let (t, m, c) = sound_args args h in in_part (of_struct m) c
    sound (enum_type args defn) h = let (t, m, c) = sound_args args h in in_part (of_enum m) c
    sound none_type h = absurd (cc)
    sound _ h = absurd (cc)

    sound_row :
        (row : Row) → row_contains qubit row ≡ true → (t : Ty) × InRow t row × Contains qubit t
    sound_row no_types h = absurd (cc)
    sound_row (ty_cons t ts) h =
        elim (or_true (contain_qubit_ty qubit t) (row_contains qubit ts) h) [
          | inl e ↦ (t, first, sound t e)
          | inr e ↦ let (u, m, c) = sound_row ts e in (u, later m, c)
        ]

    sound_args :
        (args : Arguments)
        → args_contain qubit args ≡ true
        → (t : Ty) × InArgs t args × Contains qubit t
    sound_args no_args h = absurd (cc)
    sound_args (arg_cons (type_arg t) rest) h =
        elim (or_true (contain_qubit_ty qubit t) (args_contain qubit rest) h) [
          | inl e ↦ (t, here, sound t e)
          | inr e ↦ let (u, m, c) = sound_args rest e in (u, there m, c)
        ]
    sound_args (arg_cons (const_arg c) rest) h =
        let (u, m, k) = sound_args rest h in (u, there m, k)

  found_itself : (ty : Ty) → is_qubit_ty qubit ty ≡ true → contain_qubit_ty qubit ty ≡ true
  unfolding contain_qubit_ty is_qubit_ty same_ty
  found_itself (opaque_type args defn) h =
      or_left (is_qubit_ty qubit (opaque_type args defn)) (args_contain qubit args) h
  found_itself none_type h = cc
  found_itself _ h = cc

  row_part :
      {t : Ty} {row : Row}
      → InRow t row
      → contain_qubit_ty qubit t ≡ true
      → row_contains qubit row ≡ true
  unfolding contain_qubit_ty
  row_part {t} (first {ts}) h = or_left (contain_qubit_ty qubit t) (row_contains qubit ts) h
  row_part (later {u = u} {ts} m) h =
      or_right (contain_qubit_ty qubit u) (row_contains qubit ts) (row_part m h)

  args_part :
      {t : Ty} {args : Arguments}
      → InArgs t args
      → contain_qubit_ty qubit t ≡ true
      → args_contain qubit args ≡ true
  unfolding contain_qubit_ty
  args_part {t} (here {rest}) h = or_left (contain_qubit_ty qubit t) (args_contain qubit rest) h
  args_part (there {a} {rest} m) h =
      or_right (arg_contains qubit a) (args_contain qubit rest) (args_part m h)

  IsPlain-row : {t : Ty} {row : Row} → InRow t row → ArePlain row → IsPlain t
  IsPlain-row first p = p.0
  IsPlain-row (later m) p = IsPlain-row m p.1

  IsPlain-args : {t : Ty} {args : Arguments} → InArgs t args → ArgsPlain args → IsPlain t
  IsPlain-args here p = p.0
  IsPlain-args (there {a = type_arg u} m) p = IsPlain-args m p.1
  IsPlain-args (there {a = const_arg c} m) p = IsPlain-args m p

  complete : {ty : Ty} → IsPlain ty → Contains qubit ty → contain_qubit_ty qubit ty ≡ true
  unfolding contain_qubit_ty
  complete {ty} p (itself h) = found_itself ty h
  complete p (in_part (element m) c) = row_part m (complete (IsPlain-row m p) c)
  complete p (in_part (of_opaque {args} {defn} m) c) =
      or_right (finds_here qubit (opaque_type args defn)) (args_contain qubit args)
        (args_part m (complete (IsPlain-args m p) c))
  complete p (in_part (of_struct m) c) = absurd p
  complete p (in_part (of_enum m) c) = absurd p
  complete p (in_part (of_definition m) c) = absurd p
  complete p (in_part (of_inputs m) c) = absurd p
  complete p (in_part output c) = absurd p
  complete p (in_part (field e m) c) = absurd p

  -- A type that the finder reports contains the qubit type, as itself or as a part at any depth. Each
  -- type without functions, structs and enums in it that contains the qubit type is reported.
  pub contain_qubit_ty_lem :
      (ty : Ty)
      → (contain_qubit_ty qubit ty ≡ true → Contains qubit ty)
        × (IsPlain ty → Contains qubit ty → contain_qubit_ty qubit ty ≡ true)
  contain_qubit_ty_lem ty = (sound ty, complete)
