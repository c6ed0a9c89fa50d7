-- ===== src/Span/Contained.antt =====
-- The locations and spans that a span contains.
use guppylang.Common.{
  ◌≡◌, refl, sym, ap, ◌∙◌, Bool, Bool-cases, inl, inr, true, false, ◌&&◌, String, string_eq, arith,
  ◌↔◌,
}
use guppylang.Span.{Loc, Span, same_file, line_le, contains_loc, contains_span}
use guppylang.Span.Order.{IsSpan, loc_le_lem, same_file-sym, same_file_trans}

same-file : (f g : String) → same_file f g ≡ true → g ≡ f
same-file f g h = sym ((string_eq.beq_iff f g).0 h)

pub contains_loc_lem :
    (s : Span) (x : Loc)
    → s.end.file ≡ s.start.file
    → contains_loc s x ≡ (same_file s.start.file x.file && (line_le s.start x && line_le x s.end))
unfolding contains_loc
contains_loc_lem s x h = elim (Bool-cases (same_file s.start.file x.file)) [
  | inl e ↦ rw e (
      rw (loc_le_lem s.start x e)
        (rw (loc_le_lem x s.end (rw h (same_file-sym s.start.file x.file e))) refl))
  | inr e ↦ rw e refl
]

pub record OneFile (s t : Span) : Type 0 where
  pub start_end : s.end.file ≡ s.start.file
  pub other_start : t.start.file ≡ s.start.file
  pub other_end : t.end.file ≡ s.start.file

pub same : (f g h : String) → f ≡ h → g ≡ h → same_file f g ≡ true
same f g h p q = (string_eq.beq_iff f g).1 (p ∙ sym q)

pub one_file :
    (s t : Span) → IsSpan s → IsSpan t → same_file s.start.file t.start.file ≡ true → OneFile s t
one_file s t h k e = record {
  start_end = same-file s.start.file s.end.file h.one_file;
  other_start = same-file s.start.file t.start.file e;
  other_end = same-file t.start.file t.end.file k.one_file ∙ same-file s.start.file t.start.file e;
}

clash : (b c d : Bool) → b ≡ true → b ≡ false → c ≡ d
clash b c d h k = ground arith

and_false : (b : Bool) → (b && false) ≡ false
and_false b = ground arith

pub apart :
    (s t : Span) (x : Loc)
    → same_file s.start.file t.start.file ≡ false
    → (contains_loc s x && contains_loc t x) ≡ false
unfolding contains_loc
apart s t x e = elim (Bool-cases (same_file s.start.file x.file)) [
  | inl p ↦ elim (Bool-cases (same_file t.start.file x.file)) [
    | inl q ↦
        clash (same_file s.start.file t.start.file) (contains_loc s x && contains_loc t x) false
          (same_file_trans s.start.file x.file t.start.file p (same_file-sym t.start.file x.file q))
          e
    | inr q ↦ rw q (and_false (contains_loc s x))
  ]
  | inr p ↦ rw p refl
]

pub contains-other :
    (s t : Span) (x : Loc)
    → OneFile s t
    → contains_loc t x ≡ (same_file s.start.file x.file && (line_le t.start x && line_le x t.end))
contains-other s t x f =
    contains_loc_lem t x (f.other_end ∙ sym f.other_start)
    ∙ ap (λ g. same_file g x.file && (line_le t.start x && line_le x t.end)) f.other_start

-- Locations of one file that are not after each other are the same.
loc_antisym : (a b : Loc) → a.file ≡ b.file → line_le a b ≡ true → line_le b a ≡ true → a ≡ b
loc_antisym a b f h k =
    let lines : a.line ≡ b.line = ground arith in
    let columns : a.column ≡ b.column = ground arith in cc

pub line_refl : (a : Loc) → line_le a a ≡ true
line_refl a = ground arith

contains_span_lem :
    (s t : Span)
    → OneFile s t
    → contains_span s t ≡ (line_le s.start t.start && line_le t.start s.end && line_le s.end t.end)
unfolding contains_span
contains_span_lem s t f = rw (
  same s.start.file t.start.file s.start.file refl f.other_start,
  loc_le_lem s.start t.start (same s.start.file t.start.file s.start.file refl f.other_start),
  loc_le_lem t.start s.end (same t.start.file s.end.file s.start.file f.other_start f.start_end),
  loc_le_lem s.end t.end (same s.end.file t.end.file s.start.file f.start_end f.other_end),
)

in_file : (s : Span) (x : Loc) → contains_loc s x ≡ true → same_file s.start.file x.file ≡ true
unfolding contains_loc
in_file s x h = elim (Bool-cases (same_file s.start.file x.file)) [
  | inl e ↦ e
  | inr e ↦ let out : contains_loc s x ≡ false = rw e in cc
]

-- A valid span whose start and end both lie in another valid span is reported as contained in it
-- exactly if both spans end at the same place: one that ends earlier is not reported.
pub contains_span_inside :
    (s t : Span)
    → IsSpan s
    → IsSpan t
    → contains_loc s t.start ≡ true
    → contains_loc s t.end ≡ true
    → (contains_span s t ≡ true) ↔ (t.end ≡ s.end)
contains_span_inside s t h k first last =
    let f = one_file s t h k (in_file s t.start first) in
    let starts = sym (contains_loc_lem s t.start f.start_end) ∙ first in
    let ends = sym (contains_loc_lem s t.end f.start_end) ∙ last in
    let spans = contains_span_lem s t f in
    (
      λ c.
          let report = sym spans ∙ c in
          loc_antisym t.end s.end (f.other_end ∙ sym f.start_end) (ground arith) (ground arith),
      λ same_end.
          let reach : line_le s.end t.end ≡ true = rw same_end (line_refl s.end) in
          spans ∙ ground arith,
    )
