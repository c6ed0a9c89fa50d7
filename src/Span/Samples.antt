-- ===== src/Span/Samples.antt =====
-- Two spans of one file, and the properties of spans at them.
use guppylang.Common.{ℕ, ◌≡◌, refl, true, false, ◌&&◌, none, some, ◌↔◌}
use guppylang.Span.{
  Loc, Span, built, make_span, loc_max, loc_min, ◌>>=◌, loc_le, contains_loc, contains_span,
  intersect, shift_left, shift_right,
}
use guppylang.Span.Order.{IsSpan}
use guppylang.Span.Shift.{shift_right-shift_left}
use guppylang.Span.Contained.{contains_span_inside}
use guppylang.Span.Intersect.{covers, found, found-intersect}

abbrev at : ℕ → ℕ → Loc
at l c = record { file = "main.py"; line = l; column = c }

abbrev outer : Span
outer = record { start = at 3 5; end = at 7 2 }

abbrev later : Span
later = record { start = at 5 0; end = at 9 4 }

outer-IsSpan : IsSpan outer
outer-IsSpan = record { one_file = refl; ordered = refl }

later-IsSpan : IsSpan later
later-IsSpan = record { one_file = refl; ordered = refl }

intersect_test : intersect outer later ≡ built (some (record { start = at 5 0; end = at 7 2 }))
unfolding intersect make_span loc_max loc_min loc_le
intersect_test = refl

found-intersect_example :
    ((x : Loc)
      → (found contains_loc (intersect outer later) x
          ≡ some (contains_loc outer x && contains_loc later x))
        × (found covers (intersect outer later) x ≡ some (covers outer x && covers later x)))
    × ((intersect outer later ≡ built none)
        ↔ ((x : Loc) → (contains_loc outer x && contains_loc later x) ≡ false))
found-intersect_example = found-intersect outer later outer-IsSpan later-IsSpan

-- Spans that touch: the intersection is an empty span.
touching :
    intersect outer (record { start = at 7 2; end = at 8 0 })
    ≡ built (some (record { start = at 7 2; end = at 7 2 }))
unfolding intersect make_span loc_max loc_min loc_le
touching = refl

shift_right-shift_left_example : (shift_right outer 4 >>= λ r. shift_left r 4) ≡ built outer
shift_right-shift_left_example = shift_right-shift_left outer 4 outer-IsSpan

abbrev inner : Span
inner = record { start = at 4 0; end = at 6 0 }

inner-IsSpan : IsSpan inner
inner-IsSpan = record { one_file = refl; ordered = refl }

contains_span_inside_example : (contains_span outer inner ≡ true) ↔ (inner.end ≡ outer.end)
unfolding contains_loc loc_le
contains_span_inside_example = contains_span_inside outer inner outer-IsSpan inner-IsSpan refl refl

-- It lies inside and is not reported.
inner_missed : contains_span outer inner ≡ false
unfolding contains_span loc_le
inner_missed = refl
