-- ===== src/Types/Equal.antt =====
-- `==` of types, constants, arguments and parameters: dataclass equality with the fields that it
-- compares (not the type of a constant, not the name of an input).
use guppylang.Common.{ℕ, Bool, true, false, ◌&&◌, nat_eq, string_eq, ◌==◌}
use guppylang.Types.{
  Kind, Ty, Row, Inputs, Const, Argument, Arguments, Parameter, Params, StructDef, EnumDef, Value,
  InputFlags, bound_type_var, existential_type_var, none_type, numeric_type, function_type,
  function_def_type, tuple_type, opaque_type, struct_type, enum_type, no_types, ty_cons, no_inputs,
  input, const_value, bound_const_var, existential_const_var, type_arg, const_arg, no_args,
  arg_cons, type_param, const_param, no_params, param_cons, struct_def, enum_def, number, boolean,
  text, nat, int, float,
}
use guppylang.Unitary.{same_flags, same_bit}

abbrev pub same_kind : Kind → Kind → Bool
same_kind nat nat = true
same_kind int int = true
same_kind float float = true
same_kind _ _ = false

abbrev pub truth_number : Bool → ℕ
truth_number true = 1
truth_number false = 0

-- In Python `True == 1` and `False == 0`.
unfoldable pub equal_value : Value → Value → Bool
equal_value (number m) (number n) = m == n
equal_value (boolean b) (boolean c) = truth_number b == truth_number c
equal_value (number m) (boolean c) = m == truth_number c
equal_value (boolean b) (number n) = truth_number b == n
equal_value (text s) (text t) = string_eq.beq s t
equal_value _ _ = false

abbrev pub same_input_flags : InputFlags → InputFlags → Bool
same_input_flags f g =
    same_bit f.inout g.inout && (same_bit f.owned g.owned && same_bit f.comptime g.comptime)

abbrev pub struct_id : StructDef → ℕ
struct_id (struct_def id frozen fields) = id

abbrev pub enum_id : EnumDef → ℕ
enum_id (enum_def id vs) = id

unfoldable mutual
  unfolding equal_value

  pub same_ty : Ty → Ty → Bool
  same_ty (bound_type_var name idx c d) (bound_type_var name' idx' c' d') =
      string_eq.beq name name' && (idx == idx' && (same_bit c c' && same_bit d d'))
  same_ty (existential_type_var name id c d) (existential_type_var name' id' c' d') =
      string_eq.beq name name' && (id == id' && (same_bit c c' && same_bit d d'))
  same_ty none_type none_type = true
  same_ty (numeric_type k) (numeric_type k') = same_kind k k'
  same_ty (function_type ins out ps cs flags) (function_type ins' out' ps' cs' flags') =
      same_inputs ins ins'
      && (same_ty out out' && (same_params ps ps' && (same_args cs cs' && same_flags flags flags')))
  same_ty (function_def_type id args) (function_def_type id' args') =
      id == id' && same_args args args'
  same_ty (tuple_type row) (tuple_type row') = same_row row row'
  same_ty (opaque_type args defn) (opaque_type args' defn') =
      defn.id == defn'.id && same_args args args'
  same_ty (struct_type args defn) (struct_type args' defn') =
      struct_id defn == struct_id defn' && same_args args args'
  same_ty (enum_type args defn) (enum_type args' defn') =
      enum_id defn == enum_id defn' && same_args args args'
  same_ty _ _ = false

  pub same_row : Row → Row → Bool
  same_row no_types no_types = true
  same_row (ty_cons t ts) (ty_cons u us) = same_ty t u && same_row ts us
  same_row _ _ = false

  pub same_inputs : Inputs → Inputs → Bool
  same_inputs no_inputs no_inputs = true
  same_inputs (input t f x is) (input u g y js) =
      same_ty t u && (same_input_flags f g && same_inputs is js)
  same_inputs _ _ = false

  pub same_const : Const → Const → Bool
  same_const (const_value t v) (const_value u w) = equal_value v w
  same_const (bound_const_var t name idx) (bound_const_var u name' idx') =
      string_eq.beq name name' && idx == idx'
  same_const (existential_const_var t name id) (existential_const_var u name' id') =
      string_eq.beq name name' && id == id'
  same_const _ _ = false

  pub same_arg : Argument → Argument → Bool
  same_arg (type_arg t) (type_arg u) = same_ty t u
  same_arg (const_arg c) (const_arg d) = same_const c d
  same_arg _ _ = false

  pub same_args : Arguments → Arguments → Bool
  same_args no_args no_args = true
  same_args (arg_cons a rest) (arg_cons b rest') = same_arg a b && same_args rest rest'
  same_args _ _ = false

  pub same_param : Parameter → Parameter → Bool
  same_param (type_param idx name c d) (type_param idx' name' c' d') =
      idx == idx' && (string_eq.beq name name' && (same_bit c c' && same_bit d d'))
  same_param (const_param idx name t b) (const_param idx' name' t' b') =
      idx == idx' && (string_eq.beq name name' && (same_ty t t' && same_bit b b'))
  same_param _ _ = false

  pub same_params : Params → Params → Bool
  same_params no_params no_params = true
  same_params (param_cons p ps) (param_cons q qs) = same_param p q && same_params ps qs
  same_params _ _ = false
