-- ===== src/Span/Shift.antt =====
-- Shifts of spans to the right and back.
use guppylang.Common.{ℕ, ◌+◌, ◌-◌, ◌≡◌, refl, ◌∙◌, true, string_eq, leb, arith}
use guppylang.Span.{
  Loc, Span, built, ◌>>=◌, same_file, line_le, shift_left, shift_right, loc_shift_left,
  loc_shift_right,
}
use guppylang.Span.Order.{make_span_lem, IsSpan}

leb-shift : (a c : ℕ) → leb c (a + c) ≡ true
leb-shift a c = ground arith

sub-shift : (a c : ℕ) → a + c - c ≡ a
sub-shift a c = omega arith

line_le-shift :
    (a b : Loc) (c : ℕ) → line_le (loc_shift_right a c) (loc_shift_right b c) ≡ line_le a b
unfolding loc_shift_right
line_le-shift a b c = ground arith

shift_back : (l : Loc) (c : ℕ) → loc_shift_left (loc_shift_right l c) c ≡ built l
unfolding loc_shift_left loc_shift_right
shift_back l c = rw (leb-shift l.column c) (rw (sub-shift l.column c) refl)

own_shift :
    (s : Span) (c : ℕ)
    → IsSpan s
    → same_file (loc_shift_right s.start c).file (loc_shift_right s.end c).file ≡ true
unfolding loc_shift_right
own_shift s c h = h.one_file

shift_right_lem :
    (s : Span) (c : ℕ)
    → IsSpan s
    → shift_right s c
      ≡ built (record { start = loc_shift_right s.start c; end = loc_shift_right s.end c })
unfolding shift_right
shift_right_lem s c h =
    make_span_lem (loc_shift_right s.start c) (loc_shift_right s.end c) (own_shift s c h)
      (line_le-shift s.start s.end c ∙ h.ordered)

-- A valid span can be moved to the right, and moving it back to the left by as many columns gives
-- the span.
pub shift_right-shift_left :
    (s : Span) (c : ℕ) → IsSpan s → (shift_right s c >>= λ r. shift_left r c) ≡ built s
unfolding shift_left
shift_right-shift_left s c h = rw (shift_right_lem s c h) (
    rw (shift_back s.start c)
      (rw (shift_back s.end c) (make_span_lem s.start s.end h.one_file h.ordered)))
