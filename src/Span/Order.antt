-- ===== src/Span/Order.antt =====
-- Locations of one file are ordered by line and column.
use guppylang.Common.{◌≡◌, refl, sym, ◌∙◌, true, String, string_eq}
use guppylang.Span.{built, make_span, Loc, Span, same_file, line_le, loc_le}

-- A span that its constructor accepts.
pub record IsSpan (s : Span) : Type 0 where
  pub one_file : same_file s.start.file s.end.file ≡ true
  pub ordered : line_le s.start s.end ≡ true

pub loc_le_lem : (a b : Loc) → same_file a.file b.file ≡ true → loc_le a b ≡ line_le a b
unfolding loc_le
loc_le_lem a b one = rw one refl

pub same_file-sym : (f g : String) → same_file f g ≡ true → same_file g f ≡ true
same_file-sym f g h = (string_eq.beq_iff g f).1 (sym ((string_eq.beq_iff f g).0 h))

pub same_file_trans :
    (f g h : String) → same_file f g ≡ true → same_file g h ≡ true → same_file f h ≡ true
same_file_trans f g h p q =
    (string_eq.beq_iff f h).1 ((string_eq.beq_iff f g).0 p ∙ (string_eq.beq_iff g h).0 q)

pub make_span_lem :
    (a b : Loc)
    → same_file a.file b.file ≡ true
    → line_le a b ≡ true
    → make_span a b ≡ built (record { start = a; end = b })
unfolding make_span
make_span_lem a b h k = rw h (rw (loc_le_lem a b h) (rw k refl))
