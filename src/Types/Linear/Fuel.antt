-- ===== src/Types/Linear/Fuel.antt =====
-- The fuel of `has_trait` is enough: putting arguments in nests no deeper than both together.
use guppylang.Common.{
  ℕ, zero, suc, ◌+◌, ◌≤◌, ◌≡◌, Bool, true, false, Option, none, some, String, length, get_elem?,
  nat_eq, string_eq, ltb, arith,
}
use guppylang.Types.{
  Ty, Row, Const, Argument, Arguments, Variants, Outcome, built, is_parametrized, bound_type_var,
  existential_type_var, none_type, numeric_type, function_type, function_def_type, tuple_type,
  opaque_type, struct_type, enum_type, no_types, ty_cons, bound_const_var, type_arg, const_arg,
  no_args, arg_cons, struct_def, enum_def, no_variants, variant,
}
use guppylang.Types.Transform.{
  Transformer, transform, transform_row, transform_inputs, transform_const, transform_arg,
  transform_args,
}
use guppylang.Types.Ensures.{
  Ensures, Ensures-bind, Ensures-any, Ensures-built, Ensures-or_else, post_init-Ensures, Given,
  Ensures-weaken, Ensures-if, make_function-Ensures,
}
use guppylang.Types.Finishes.{Finishes, Finishes-bind, Finishes-if, IsFuelFree, row-Finishes}
use guppylang.Types.Subst.{
  Inst, instantiator, instantiate_type, instantiate_const, type_at, const_at,
}
use guppylang.Types.Linear.{
  Trait, copying, dropping, inst_of, and_also, all_types, all_args, all_variants,
  instantiate_variants, has_trait, depth, depth_row, depth_arg, depth_args, depth_variants,
  copyable, droppable, linear, affine,
}

type_at-Finishes : (p : Bool) (o : Option (Option Argument)) → Finishes (type_at p o)
type_at-Finishes p (some (some (type_arg t))) = tt
type_at-Finishes p (some (some (const_arg c))) = tt
type_at-Finishes true (some none) = tt
type_at-Finishes false (some none) = tt
type_at-Finishes p none = tt

const_at-Finishes : (p : Bool) (o : Option (Option Argument)) → Finishes (const_at p o)
const_at-Finishes p (some (some (type_arg t))) = tt
const_at-Finishes p (some (some (const_arg c))) = tt
const_at-Finishes true (some none) = tt
const_at-Finishes false (some none) = tt
const_at-Finishes p none = tt

instantiate_type-Finishes : (inst : Inst) (p : Bool) (t : Ty) → Finishes (instantiate_type inst p t)
instantiate_type-Finishes inst p (bound_type_var name idx c d) =
    Finishes-if (ltb idx (length inst)) _ _ (type_at-Finishes p (get_elem? inst idx)) tt
instantiate_type-Finishes inst p (function_type ins out pars cs flags) =
    Finishes-if (is_parametrized pars) _ _ tt tt
instantiate_type-Finishes inst p _ = tt

instantiate_const-Finishes :
    (inst : Inst) (p : Bool) (c : Const) → Finishes (instantiate_const inst p c)
instantiate_const-Finishes inst p (bound_const_var t name idx) =
    Finishes-if (ltb idx (length inst)) _ _ (const_at-Finishes p (get_elem? inst idx)) (
      Finishes-bind (instantiate_type inst p t) _ (instantiate_type-Finishes inst p t) (λ t' _. tt))
instantiate_const-Finishes inst p _ = tt

pub instantiator-IsFuelFree : (inst : Inst) (p : Bool) → IsFuelFree (instantiator inst p)
unfolding instantiator
instantiator-IsFuelFree inst p = record {
  type_ends = instantiate_type-Finishes inst p;
  const_ends = instantiate_const-Finishes inst p;
}

abbrev NoDeeper : ℕ → Ty → Type 0
NoDeeper n t = depth t ≤ n

-- The type of an argument is no deeper than the arguments.
depth-arg_at :
    (args : Arguments) (i : ℕ)
    → Ensures (Given (NoDeeper (depth_args args))) (type_at false (get_elem? (inst_of args) i))
unfolding depth
depth-arg_at no_args i = tt
depth-arg_at (arg_cons (type_arg t) rest) zero = omega arith
depth-arg_at (arg_cons (const_arg c) rest) zero = tt
depth-arg_at (arg_cons a rest) (suc i) =
    Ensures-weaken (Given (NoDeeper (depth_args rest)))
      (Given (NoDeeper (depth_args (arg_cons a rest)))) (type_at false (get_elem? (inst_of rest) i))
      (depth-arg_at rest i) (deeper a rest)
  where
    deeper :
        (a : Argument) (rest : Arguments) (o : Option Ty)
        → Given (NoDeeper (depth_args rest)) o
        → Given (NoDeeper (depth_args (arg_cons a rest))) o
    deeper a rest none h = tt
    deeper a rest (some t) h = omega arith

module _ (args : Arguments) where
  abbrev inst : Transformer
  inst = instantiator (inst_of args) false

  -- At most the depth of the arguments is added.
  abbrev Adds : ℕ → ℕ → Type 0
  Adds n m = m ≤ n + depth_args args

  bound_var :
      (name : String) (idx : ℕ) (c d : Bool)
      → Ensures
          (Given (λ (t : Ty). Adds 1 (depth t)))
          (instantiate_type (inst_of args) false (bound_type_var name idx c d))
  unfolding depth
  bound_var name idx c d =
      Ensures-if (Given (λ (t : Ty). Adds 1 (depth t))) (ltb idx (length (inst_of args)))
        (type_at false (get_elem? (inst_of args) idx)) _
        (λ _.
          Ensures-weaken (Given (NoDeeper (depth_args args))) (Given (λ (t : Ty). Adds 1 (depth t)))
            (type_at false (get_elem? (inst_of args) idx)) (depth-arg_at args idx) weaker)
        (λ _. omega arith)
    where
      weaker :
          (o : Option Ty)
          → Given (NoDeeper (depth_args args)) o
          → Given (λ (t : Ty). Adds 1 (depth t)) o
      weaker none h = tt
      weaker (some t) h = omega arith

  mutual
    unfolding transform instantiator depth

    depth-transform : (t : Ty) → Ensures (λ t'. Adds (depth t) (depth t')) (transform inst t)
    depth-transform (bound_type_var name idx c d) =
        Ensures-or_else (λ t'. Adds 1 (depth t'))
          (instantiate_type (inst_of args) false (bound_type_var name idx c d)) _
          (bound_var name idx c d) (omega arith)
    depth-transform (existential_type_var name id c d) = omega arith
    depth-transform none_type = omega arith
    depth-transform (numeric_type kind) = omega arith
    depth-transform (function_type ins out pars cs flags) =
        Ensures-or_else (λ t'. Adds 1 (depth t'))
          (instantiate_type (inst_of args) false (function_type ins out pars cs flags)) _
          (Ensures-if (Given (λ (t : Ty). Adds 1 (depth t))) (is_parametrized pars) _ (built none)
            (λ _. tt) (λ _. tt))
          (Ensures-bind (λ _. Unit {0}) (λ t'. Adds 1 (depth t')) (transform_inputs inst ins) _
            (Ensures-any (transform_inputs inst ins))
            (λ ins' _.
              Ensures-bind (λ _. Unit {0}) (λ t'. Adds 1 (depth t')) (transform inst out) _
                (Ensures-any (transform inst out))
                (λ out' _.
                  make_function-Ensures ins' out' pars cs flags (λ t'. Adds 1 (depth t'))
                    (omega arith))))
    depth-transform (function_def_type id xs) =
        Ensures-bind (λ _. Unit {0}) (λ t'. Adds 1 (depth t')) (transform_args inst xs) _
          (Ensures-any (transform_args inst xs)) (λ xs' p. omega arith)
    depth-transform (tuple_type row) =
        Ensures-bind (λ r'. Adds (depth_row row) (depth_row r'))
          (λ t'. Adds (depth (tuple_type row)) (depth t')) (transform_row inst row) _
          (depth-row row) (λ r' h. omega arith)
    depth-transform (opaque_type xs defn) =
        Ensures-bind (λ r'. Adds (depth_args xs) (depth_args r'))
          (λ t'. Adds (depth (opaque_type xs defn)) (depth t')) (transform_args inst xs) _
          (depth-args xs)
          (λ xs' h.
            post_init-Ensures xs' (opaque_type xs' defn)
              (λ t'. Adds (depth (opaque_type xs defn)) (depth t')) (omega arith))
    depth-transform (struct_type xs defn) =
        Ensures-bind (λ r'. Adds (depth_args xs) (depth_args r'))
          (λ t'. Adds (depth (struct_type xs defn)) (depth t')) (transform_args inst xs) _
          (depth-args xs)
          (λ xs' h.
            post_init-Ensures xs' (struct_type xs' defn)
              (λ t'. Adds (depth (struct_type xs defn)) (depth t')) (omega arith))
    depth-transform (enum_type xs defn) =
        Ensures-bind (λ r'. Adds (depth_args xs) (depth_args r'))
          (λ t'. Adds (depth (enum_type xs defn)) (depth t')) (transform_args inst xs) _
          (depth-args xs)
          (λ xs' h.
            post_init-Ensures xs' (enum_type xs' defn)
              (λ t'. Adds (depth (enum_type xs defn)) (depth t')) (omega arith))

    depth-row :
        (row : Row) → Ensures (λ r'. Adds (depth_row row) (depth_row r')) (transform_row inst row)
    depth-row no_types = omega arith
    depth-row (ty_cons t ts) =
        Ensures-bind (λ t'. Adds (depth t) (depth t'))
          (λ r'. Adds (depth_row (ty_cons t ts)) (depth_row r')) (transform inst t) _
          (depth-transform t)
          (λ t' p.
            Ensures-bind (λ r'. Adds (depth_row ts) (depth_row r'))
              (λ r'. Adds (depth_row (ty_cons t ts)) (depth_row r')) (transform_row inst ts) _
              (depth-row ts) (λ ts' q. omega arith))

    depth-arg :
        (a : Argument) → Ensures (λ a'. Adds (depth_arg a) (depth_arg a')) (transform_arg inst a)
    depth-arg (type_arg t) =
        Ensures-bind (λ t'. Adds (depth t) (depth t')) (λ a'. Adds (depth t) (depth_arg a'))
          (transform inst t) _ (depth-transform t) (λ t' p. p)
    depth-arg (const_arg c) =
        Ensures-bind (λ _. Unit {0}) (λ a'. Adds 0 (depth_arg a')) (transform_const inst c) _
          (Ensures-any (transform_const inst c)) (λ t' p. omega arith)

    depth-args :
        (xs : Arguments)
        → Ensures (λ xs'. Adds (depth_args xs) (depth_args xs')) (transform_args inst xs)
    depth-args no_args = omega arith
    depth-args (arg_cons a rest) =
        Ensures-bind (λ t'. Adds (depth_arg a) (depth_arg t'))
          (λ r'. Adds (depth_args (arg_cons a rest)) (depth_args r')) (transform_arg inst a) _
          (depth-arg a)
          (λ t' p.
            Ensures-bind (λ r'. Adds (depth_args rest) (depth_args r'))
              (λ r'. Adds (depth_args (arg_cons a rest)) (depth_args r')) (transform_args inst rest)
              _ (depth-args rest) (λ ts' q. omega arith))

  depth-variants :
      (vs : Variants)
      → Ensures
          (λ vs'. Adds (depth_variants vs) (depth_variants vs'))
          (instantiate_variants inst vs)
  unfolding instantiate_variants depth
  depth-variants no_variants = omega arith
  depth-variants (variant row rest) =
      Ensures-bind (λ r'. Adds (depth_row row) (depth_row r'))
        (λ vs'. Adds (depth_variants (variant row rest)) (depth_variants vs'))
        (transform_row inst row) _ (depth-row row)
        (λ r' p.
          Ensures-bind (λ vs'. Adds (depth_variants rest) (depth_variants vs'))
            (λ vs'. Adds (depth_variants (variant row rest)) (depth_variants vs'))
            (instantiate_variants inst rest) _ (depth-variants rest) (λ vs' q. omega arith))

  variants_finish : (vs : Variants) → Finishes (instantiate_variants inst vs)
  unfolding instantiate_variants
  variants_finish no_variants = tt
  variants_finish (variant row rest) =
      Finishes-bind (transform_row inst row) _
        (row-Finishes inst (instantiator-IsFuelFree (inst_of args) false) row)
        (λ row' _.
          Finishes-bind (instantiate_variants inst rest) _ (variants_finish rest) (λ rest' _. tt))

and_also-Finishes : (m n : Outcome Bool) → Finishes m → Finishes n → Finishes (and_also m n)
and_also-Finishes m n p q = Finishes-bind m _ p (λ b _. Finishes-if b n (built false) q tt)

module _ (test : Ty → Outcome Bool) (n : ℕ)
    (enough : (t : Ty) → depth t ≤ n → Finishes (test t)) where
  all_types_finish : (row : Row) → depth_row row ≤ n → Finishes (all_types test row)
  unfolding all_types depth
  all_types_finish no_types h = tt
  all_types_finish (ty_cons t ts) h =
      and_also-Finishes (test t) (all_types test ts) (enough t (omega arith))
        (all_types_finish ts (omega arith))

  all_args_finish : (args : Arguments) → depth_args args ≤ n → Finishes (all_args test args)
  unfolding all_args depth
  all_args_finish no_args h = tt
  all_args_finish (arg_cons (type_arg t) rest) h =
      and_also-Finishes (test t) (all_args test rest) (enough t (omega arith))
        (all_args_finish rest (omega arith))
  all_args_finish (arg_cons (const_arg c) rest) h = all_args_finish rest (omega arith)

  all_variants_finish : (vs : Variants) → depth_variants vs ≤ n → Finishes (all_variants test vs)
  unfolding all_variants depth
  all_variants_finish no_variants h = tt
  all_variants_finish (variant row rest) h =
      and_also-Finishes (all_types test row) (all_variants test rest)
        (all_types_finish row (omega arith)) (all_variants_finish rest (omega arith))

depth_pos : (t : Ty) → 1 ≤ depth t
unfolding depth
depth_pos none_type = omega arith
depth_pos _ = omega arith

row_fits :
    (args : Arguments) (fields row : Row) (n : ℕ)
    → transform_row (instantiator (inst_of args) false) fields ≡ built row
    → depth_args args + depth_row fields ≤ n
    → depth_row row ≤ n
row_fits args fields row n e h = omega (
  arith,
  Ensures-built (λ r'. depth_row r' ≤ depth_row fields + depth_args args)
      (transform_row (instantiator (inst_of args) false) fields) row (depth-row args fields) e,
)

variants_fit :
    (args : Arguments) (vs vs' : Variants) (n : ℕ)
    → instantiate_variants (instantiator (inst_of args) false) vs ≡ built vs'
    → depth_args args + depth_variants vs ≤ n
    → depth_variants vs' ≤ n
variants_fit args vs vs' n e h = omega (
  arith,
  Ensures-built (λ r'. depth_variants r' ≤ depth_variants vs + depth_args args)
      (instantiate_variants (instantiator (inst_of args) false) vs) vs' (depth-variants args vs) e,
)

module _ (tr : Trait) where
  -- With fuel for the depth of the type, the test whether it is copyable (droppable) ends.
  pub has_trait-Finishes : (n : ℕ) (t : Ty) → depth t ≤ n → Finishes (has_trait tr n t)
  unfolding has_trait depth
  has_trait-Finishes zero t h = absurd (omega (arith, depth_pos t))
  has_trait-Finishes (suc n) (tuple_type row) h =
      all_types_finish (has_trait tr n) n (has_trait-Finishes n) row (omega arith)
  has_trait-Finishes (suc n) (opaque_type args defn) h =
      Finishes-if (tr.never defn) (built false) (all_args (has_trait tr n) args) tt
        (all_args_finish (has_trait tr n) n (has_trait-Finishes n) args (omega arith))
  has_trait-Finishes (suc n) (struct_type args (struct_def id frozen fields)) h =
      Finishes-if (tr.of_struct frozen) _ (built false)
        (Finishes-bind (transform_row (instantiator (inst_of args) false) fields) _
          (row-Finishes (instantiator (inst_of args) false)
            (instantiator-IsFuelFree (inst_of args) false) fields)
          (λ row e.
            all_types_finish (has_trait tr n) n (has_trait-Finishes n) row
              (row_fits args fields row n e (omega arith))))
        tt
  has_trait-Finishes (suc n) (enum_type args (enum_def id vs)) h =
      Finishes-bind (instantiate_variants (instantiator (inst_of args) false) vs) _
        (variants_finish args vs)
        (λ vs' e.
          all_variants_finish (has_trait tr n) n (has_trait-Finishes n) vs'
            (variants_fit args vs vs' n e (omega arith)))
  has_trait-Finishes (suc n) _ h = tt

-- The tests whether a type is copyable, droppable, linear or affine end, also where structs and enums
-- are nested in one another's arguments and fields.
pub traits_finish :
    (t : Ty)
    → Finishes (copyable t) × Finishes (droppable t) × Finishes (linear t) × Finishes (affine t)
unfolding copyable droppable linear affine
traits_finish t =
    let c = has_trait-Finishes copying (depth t) t (omega arith) in
    let d = has_trait-Finishes dropping (depth t) t (omega arith) in
    (
      c,
      d,
      Finishes-bind (has_trait copying (depth t) t) _ c (λ b _.
          Finishes-if b (built false) _ tt
            (Finishes-bind (has_trait dropping (depth t) t) _ d (λ e _. tt))),
      Finishes-bind (has_trait copying (depth t) t) _ c
          (λ b _. Finishes-if b (built false) (has_trait dropping (depth t) t) tt d),
    )
