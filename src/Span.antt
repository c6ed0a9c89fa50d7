-- ===== src/Span.antt =====
-- `Loc` and `Span` of guppylang-internals/src/guppylang_internals/span.py.
pub mod Order
pub mod Lines
pub mod Shift
pub mod Contained
pub mod Intersect
pub mod Samples
use Prim.Native.Nat.{Ordering}
use Prim.Native.String.{compare}
use guppylang.Common.{
  ℕ, ◌+◌, ◌-◌, Bool, true, false, not, ◌&&◌, ◌||◌, Option, none, some, String, Eq, string_eq,
  if◌then◌else◌, ltb, leb, ◌==◌,
}

pub record Loc : Type 0 where
  pub file : String
  pub line : ℕ
  pub column : ℕ

-- A value, an `InternalGuppyError` or a failed `assert`.
pub data Built (A : Type 0) : Type 0 where
  built : A → Built A
  internal_error : String → Built A
  assertion_failed : Built A

infixl 5 ◌>>=◌
abbrev pub ◌>>=◌ : {A B : Type 0} → Built A → (A → Built B) → Built B
built a >>= f = f a
internal_error m >>= f = internal_error m
assertion_failed >>= f = assertion_failed

abbrev pub same_file : String → String → Bool
same_file f g = string_eq.beq f g

-- `a <= b`: the fields are compared in order.
abbrev pub line_le : Loc → Loc → Bool
line_le a b = ltb a.line b.line || (a.line == b.line && leb a.column b.column)

unfoldable pub loc_le : Loc → Loc → Bool
loc_le a b =
    if same_file a.file b.file
    then line_le a b
    else elim (compare a.file b.file) [ Ordering.lt ↦ true | _ ↦ false ]

-- `max(a, b)` and `min(a, b)` keep the first of equal locations.
unfoldable pub loc_max : Loc → Loc → Loc
loc_max a b = if loc_le b a then a else b

unfoldable pub loc_min : Loc → Loc → Loc
loc_min a b = if loc_le a b then a else b

pub record Span : Type 0 where
  pub start : Loc
  pub end : Loc

-- The constructor with its `__post_init__`.
unfoldable pub make_span : Loc → Loc → Built Span
make_span start end =
    if not (same_file start.file end.file)
    then internal_error "Span: Source spans multiple files"
    else if not (loc_le start end)
    then internal_error "Span: Start after end"
    else built (record { start = start; end = end })

unfoldable pub loc_shift_left : Loc → ℕ → Built Loc
loc_shift_left l cols =
    if leb cols l.column then built (record l { column = l.column - cols }) else assertion_failed

unfoldable pub loc_shift_right : Loc → ℕ → Loc
loc_shift_right l cols = record l { column = l.column + cols }

-- `x in span` for a location and for a span.
unfoldable pub contains_loc : Span → Loc → Bool
contains_loc s x =
    if not (same_file s.start.file x.file) then false else loc_le s.start x && loc_le x s.end

unfoldable pub contains_span : Span → Span → Bool
contains_span s x =
    if not (same_file s.start.file x.start.file)
    then false
    else loc_le s.start x.start && loc_le x.start s.end && loc_le s.end x.end

-- `span & other`
unfoldable pub intersect : Span → Span → Built (Option Span)
intersect s other =
    if not (same_file s.start.file other.start.file)
    then built none
    else if not (loc_le s.start other.end) || not (loc_le other.start s.end)
    then built none
    else (make_span (loc_max s.start other.start) (loc_min s.end other.end) >>= λ r. built (some r))

abbrev pub is_multiline : Span → Bool
is_multiline s = not (s.start.line == s.end.line)

unfoldable pub span_len : Span → Built ℕ
span_len s =
    if is_multiline s
    then internal_error "Span: Tried to compute length of multi-line span"
    else built (s.end.column - s.start.column)

unfoldable pub shift_left : Span → ℕ → Built Span
shift_left s cols = loc_shift_left s.start cols >>= λ start.
    loc_shift_left s.end cols >>= λ end. make_span start end

unfoldable pub shift_right : Span → ℕ → Built Span
shift_right s cols = make_span (loc_shift_right s.start cols) (loc_shift_right s.end cols)
