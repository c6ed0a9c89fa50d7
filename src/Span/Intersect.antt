-- ===== src/Span/Intersect.antt =====
-- The intersection of two spans.
use guppylang.Common.{
  ◌≡◌, refl, sym, ap, ◌∙◌, Bool, Bool-cases, inl, inr, true, false, not, ◌&&◌, ◌↔◌, arith, Option,
  none, some, string_eq, if◌then◌else◌,
}
use guppylang.Span.{
  Loc, Span, Built, built, internal_error, assertion_failed, ◌>>=◌, same_file, line_le, loc_le,
  loc_max, loc_min, make_span, contains_loc, intersect,
}
use guppylang.Span.Lines.{
  line_max, line_min, line_max-le, le-line_min, line_max-file, line_min-file, regroup, disjoint,
  max-le-min, line_min-le, regroup_before, disjoint_before,
}
use guppylang.Span.Order.{make_span_lem, IsSpan, loc_le_lem, same_file-sym, same_file_trans}
use guppylang.Span.Contained.{
  contains_loc_lem, line_refl, OneFile, same, contains-other, apart, one_file,
}

-- Whether a location lies in a span by the comments of its fields: the start is inclusive, the end
-- exclusive. `in` counts the end too.
unfoldable pub covers : Span → Loc → Bool
covers s x =
    if not (same_file s.start.file x.file) then false else loc_le s.start x && not (loc_le s.end x)

-- Whether the result of `&` holds a location, in one of the two ways; none when `&` fails.
unfoldable pub found : (Span → Loc → Bool) → Built (Option Span) → Loc → Option Bool
found holds (built none) x = some false
found holds (built (some r)) x = some (holds r x)
found holds (internal_error m) x = none
found holds assertion_failed x = none

loc_max_lem : (a c : Loc) → same_file c.file a.file ≡ true → loc_max a c ≡ line_max a c
unfolding loc_max line_max
loc_max_lem a c h = rw (loc_le_lem c a h) refl

loc_min_lem : (b d : Loc) → same_file b.file d.file ≡ true → loc_min b d ≡ line_min b d
unfolding loc_min line_min
loc_min_lem b d h = rw (loc_le_lem b d h) refl

-- The common part of two spans of one file.
meet : Span → Span → Span
meet s t = record { start = line_max s.start t.start; end = line_min s.end t.end }

meet-files :
    (s t : Span)
    → OneFile s t
    → same_file (line_max s.start t.start).file (line_min s.end t.end).file ≡ true
meet-files s t f =
    same (line_max s.start t.start).file (line_min s.end t.end).file s.start.file
      (line_max-file s.start t.start f.other_start)
      (line_min-file s.start s.end t.end f.start_end f.other_end)

make-meet :
    (s t : Span)
    → OneFile s t
    → IsSpan s
    → IsSpan t
    → line_le s.start t.end ≡ true
    → line_le t.start s.end ≡ true
    → make_span (loc_max s.start t.start) (loc_min s.end t.end) ≡ built (meet s t)
unfolding meet
make-meet s t f h k p q =
    rw
      (loc_max_lem s.start t.start (same t.start.file s.start.file s.start.file f.other_start refl))
      (rw
        (loc_min_lem s.end t.end (same s.end.file t.end.file s.start.file f.start_end f.other_end))
        (make_span_lem (line_max s.start t.start) (line_min s.end t.end) (meet-files s t f)
          (max-le-min s.start s.end t.start t.end h.ordered k.ordered p q)))

contains-meet :
    (s t : Span) (x : Loc)
    → OneFile s t
    → contains_loc (meet s t) x ≡ (
        (same_file s.start.file x.file && (line_le s.start x && line_le x s.end))
        && (same_file s.start.file x.file && (line_le t.start x && line_le x t.end)))
unfolding meet
contains-meet s t x f =
    rw
      (contains_loc_lem (meet s t) x (
        line_min-file s.start s.end t.end f.start_end f.other_end
        ∙ sym (line_max-file s.start t.start f.other_start)))
      (rw (line_max-file s.start t.start f.other_start) (
        rw (line_max-le s.start t.start x) (
          rw (le-line_min s.end t.end x) (
            regroup (same_file s.start.file x.file) (line_le s.start x) (line_le t.start x)
              (line_le x s.end) (line_le x t.end)))))

intersect_files :
    (s t : Span) → same_file s.start.file t.start.file ≡ false → intersect s t ≡ built none
unfolding intersect
intersect_files s t e = rw e refl

found-two_files :
    (s t : Span) (x : Loc)
    → same_file s.start.file t.start.file ≡ false
    → found contains_loc (intersect s t) x ≡ some (contains_loc s x && contains_loc t x)
unfolding found intersect
found-two_files s t x e = rw e (ap some (sym (apart s t x e)))

intersect-OneFile :
    (s t : Span)
    → OneFile s t
    → IsSpan s
    → IsSpan t
    → intersect s t ≡ (
        if line_le s.start t.end && line_le t.start s.end
        then built (some (meet s t))
        else built none)
unfolding intersect meet
intersect-OneFile s t f h k = rw (same s.start.file t.start.file s.start.file refl f.other_start) (
    rw (loc_le_lem s.start t.end (same s.start.file t.end.file s.start.file refl f.other_end)) (
      rw
        (loc_le_lem t.start s.end
          (same t.start.file s.end.file s.start.file f.other_start f.start_end))
        (elim (Bool-cases (line_le s.start t.end)) [
          | inl p ↦ rw p (elim (Bool-cases (line_le t.start s.end)) [
            | inl q ↦ rw q (ap (λ r. r >>= λ m. built (some m)) (make-meet s t f h k p q))
            | inr q ↦ rw q refl
          ])
          | inr p ↦ rw p refl
        ])))

found-OneFile :
    (s t : Span) (x : Loc)
    → OneFile s t
    → IsSpan s
    → IsSpan t
    → found contains_loc (intersect s t) x ≡ some (contains_loc s x && contains_loc t x)
unfolding found
found-OneFile s t x f h k = rw (intersect-OneFile s t f h k) (
    rw (contains_loc_lem s x f.start_end) (
      rw (contains-other s t x f)
        (elim (Bool-cases (line_le s.start t.end && line_le t.start s.end)) [
          | inl p ↦ rw p (ap some (contains-meet s t x f))
          | inr p ↦ rw p (
              ap some
                (sym (disjoint s.start s.end t.start t.end x (same_file s.start.file x.file) p)))
        ])))

covers_lem :
    (s : Span) (x : Loc)
    → s.end.file ≡ s.start.file
    → covers s x ≡ (same_file s.start.file x.file && (line_le s.start x && not (line_le s.end x)))
unfolding covers
covers_lem s x h = elim (Bool-cases (same_file s.start.file x.file)) [
  | inl e ↦ rw e (rw (loc_le_lem s.start x e) (rw (loc_le_lem s.end x (rw h e)) refl))
  | inr e ↦ rw e refl
]

covers-other :
    (s t : Span) (x : Loc)
    → OneFile s t
    → covers t x ≡ (same_file s.start.file x.file && (line_le t.start x && not (line_le t.end x)))
covers-other s t x f =
    covers_lem t x (f.other_end ∙ sym f.other_start)
    ∙ ap (λ g. same_file g x.file && (line_le t.start x && not (line_le t.end x))) f.other_start

covers-meet :
    (s t : Span) (x : Loc)
    → OneFile s t
    → covers (meet s t) x ≡ (
        (same_file s.start.file x.file && (line_le s.start x && not (line_le s.end x)))
        && (same_file s.start.file x.file && (line_le t.start x && not (line_le t.end x))))
unfolding meet
covers-meet s t x f =
    rw
      (covers_lem (meet s t) x (
        line_min-file s.start s.end t.end f.start_end f.other_end
        ∙ sym (line_max-file s.start t.start f.other_start)))
      (rw (line_max-file s.start t.start f.other_start) (
        rw (line_max-le s.start t.start x) (
          rw (line_min-le s.end t.end x) (
            regroup_before (same_file s.start.file x.file) (line_le s.start x) (line_le t.start x)
              (line_le s.end x) (line_le t.end x)))))

covers_apart :
    (s t : Span) (x : Loc)
    → same_file s.start.file t.start.file ≡ false
    → (covers s x && covers t x) ≡ false
unfolding covers
covers_apart s t x e = elim (Bool-cases (same_file s.start.file x.file)) [
  | inl p ↦ elim (Bool-cases (same_file t.start.file x.file)) [
    | inl q ↦ absurd (
        clash_of e (
          same_file_trans s.start.file x.file t.start.file p (same_file-sym t.start.file x.file q)))
    | inr q ↦ ground arith
  ]
  | inr p ↦ rw p refl
]
  where
    clash_of : {b : Bool} → b ≡ false → b ≡ true → ⊥
    clash_of h k = cc

held-intersect :
    (s t : Span) (x : Loc)
    → IsSpan s
    → IsSpan t
    → found contains_loc (intersect s t) x ≡ some (contains_loc s x && contains_loc t x)
held-intersect s t x h k = elim (Bool-cases (same_file s.start.file t.start.file)) [
  | inl e ↦ found-OneFile s t x (one_file s t h k e) h k
  | inr e ↦ found-two_files s t x e
]

covered-intersect :
    (s t : Span) (x : Loc)
    → IsSpan s
    → IsSpan t
    → found covers (intersect s t) x ≡ some (covers s x && covers t x)
unfolding found
covered-intersect s t x h k = elim (Bool-cases (same_file s.start.file t.start.file)) [
  | inl e ↦
      let f = one_file s t h k e in
      rw (intersect-OneFile s t f h k) (
        rw (covers_lem s x f.start_end) (
          rw (covers-other s t x f)
            (elim (Bool-cases (line_le s.start t.end && line_le t.start s.end)) [
              | inl p ↦ rw p (ap some (covers-meet s t x f))
              | inr p ↦ rw p (
                  ap some (
                    sym (
                      disjoint_before s.start s.end t.start t.end x (same_file s.start.file x.file)
                        p)))
            ])))
  | inr e ↦ rw (intersect_files s t e) (ap some (sym (covers_apart s t x e)))
]

-- The start of a common part is a location that both spans hold.
meet_start :
    (s t : Span)
    → OneFile s t
    → IsSpan s
    → IsSpan t
    → (line_le s.start t.end && line_le t.start s.end) ≡ true
    → (contains_loc s (meet s t).start && contains_loc t (meet s t).start) ≡ true
unfolding meet
meet_start s t f h k p =
    let m = line_max s.start t.start in
    let files =
      line_min-file s.start s.end t.end f.start_end f.other_end
      ∙ sym (line_max-file s.start t.start f.other_start) in
    let both : (contains_loc s m && contains_loc t m) ≡ contains_loc (meet s t) m =
      rw (contains_loc_lem s m f.start_end)
        (rw (contains-other s t m f) (sym (contains-meet s t m f))) in
    let itself : same_file m.file m.file ≡ true = (string_eq.beq_iff m.file m.file).1 refl in
    let inside =
      max-le-min s.start s.end t.start t.end h.ordered k.ordered (ground arith) (ground arith) in
    both ∙ contains_loc_lem (meet s t) m files ∙ rw (itself, line_refl m, inside)

-- The intersection of two valid spans never fails. It holds exactly the locations that both spans
-- hold, by `in`, which counts the end of a span as held; and also if the end is not counted, as the
-- comment on `end` says. It is None exactly if no location is held by both, the ends counted: two
-- spans that only touch have an empty span as their intersection.
pub found-intersect :
    (s t : Span)
    → IsSpan s
    → IsSpan t
    → ((x : Loc)
        → (found contains_loc (intersect s t) x ≡ some (contains_loc s x && contains_loc t x))
          × (found covers (intersect s t) x ≡ some (covers s x && covers t x)))
      × ((intersect s t ≡ built none)
          ↔ ((x : Loc) → (contains_loc s x && contains_loc t x) ≡ false))
unfolding found
found-intersect s t h k = (
  λ x. (held-intersect s t x h k, covered-intersect s t x h k),
  (
    λ e x.
        let held : found contains_loc (built none) x ≡ some (contains_loc s x && contains_loc t x) =
          sym (ap (λ r. found contains_loc r x) e) ∙ held-intersect s t x h k in
        cc,
    λ nothing. elim (Bool-cases (same_file s.start.file t.start.file)) [
      | inl e ↦
          let f = one_file s t h k e in
          elim (Bool-cases (line_le s.start t.end && line_le t.start s.end)) [
            | inl p ↦
                let there = meet_start s t f h k p in
                let absent = nothing (meet s t).start in absurd (cc)
            | inr p ↦ intersect-OneFile s t f h k ∙ rw p refl
          ]
      | inr e ↦ intersect_files s t e
    ],
  ),
)
