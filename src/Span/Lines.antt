-- ===== src/Span/Lines.antt =====
-- The earlier and the later of two lines and columns.
use guppylang.Common.{
  ◌≡◌, refl, Bool, Bool-cases, inl, inr, true, false, not, ◌&&◌, ◌||◌, string_eq, if◌then◌else◌,
  arith,
}
use guppylang.Span.{Loc, line_le}

unfoldable pub line_max : Loc → Loc → Loc
line_max a b = if line_le b a then a else b

unfoldable pub line_min : Loc → Loc → Loc
line_min a b = if line_le a b then a else b

pub line_max-le : (a c x : Loc) → line_le (line_max a c) x ≡ (line_le a x && line_le c x)
unfolding line_max
line_max-le a c x = elim (Bool-cases (line_le c a)) [
  | inl e ↦ rw e (ground arith)
  | inr e ↦ rw e (ground arith)
]

pub le-line_min : (b d x : Loc) → line_le x (line_min b d) ≡ (line_le x b && line_le x d)
unfolding line_min
le-line_min b d x = elim (Bool-cases (line_le b d)) [
  | inl e ↦ rw e (ground arith)
  | inr e ↦ rw e (ground arith)
]

pub line_max-file : (a c : Loc) → c.file ≡ a.file → (line_max a c).file ≡ a.file
unfolding line_max
line_max-file a c h = elim (Bool-cases (line_le c a)) [ inl e ↦ rw e refl | inr e ↦ rw e h ]

pub line_min-file : (a b c : Loc) → b.file ≡ a.file → c.file ≡ a.file → (line_min b c).file ≡ a.file
unfolding line_min
line_min-file a b c h k = elim (Bool-cases (line_le b c)) [ inl e ↦ rw e h | inr e ↦ rw e k ]

pub regroup :
    (g p q r s : Bool) → (g && ((p && q) && (r && s))) ≡ ((g && (p && r)) && (g && (q && s)))
regroup g p q r s = ground arith

pub disjoint :
    (a b c d x : Loc) (g : Bool)
    → (line_le a d && line_le c b) ≡ false
    → ((g && (line_le a x && line_le x b)) && (g && (line_le c x && line_le x d))) ≡ false
disjoint a b c d x g h = ground arith

pub max-le-min :
    (a b c d : Loc)
    → line_le a b ≡ true
    → line_le c d ≡ true
    → line_le a d ≡ true
    → line_le c b ≡ true
    → line_le (line_max a c) (line_min b d) ≡ true
max-le-min a b c d p q r s =
    rw (line_max-le a c (line_min b d))
      (rw (le-line_min b d a) (rw (le-line_min b d c) (rw p (rw q (rw r (rw s refl))))))

pub line_min-le : (b d x : Loc) → line_le (line_min b d) x ≡ (line_le b x || line_le d x)
unfolding line_min
line_min-le b d x = elim (Bool-cases (line_le b d)) [
  | inl e ↦ rw e (ground arith)
  | inr e ↦ rw e (ground arith)
]

-- Spans that do not overlap have no location before the ends of both.
pub disjoint_before :
    (a b c d x : Loc) (g : Bool)
    → (line_le a d && line_le c b) ≡ false
    → ((g && (line_le a x && not (line_le b x))) && (g && (line_le c x && not (line_le d x))))
      ≡ false
disjoint_before a b c d x g h = ground arith

pub regroup_before :
    (g p q r s : Bool)
    → (g && ((p && q) && not (r || s))) ≡ ((g && (p && not r)) && (g && (q && not s)))
regroup_before g p q r s = ground arith
