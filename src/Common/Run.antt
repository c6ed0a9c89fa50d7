-- ===== src/Common/Run.antt =====
-- How a call of a program ends when a `panic` stops it, and the rules for calls that return.
use Prim.Native.String.{String}
use mathlib.Core.Path.{◌≡◌, refl}
use mathlib.Core.Bool.{Bool, true, false}
use guppylang.Common.Tests.{if◌then◌else◌}

pub data Run {ℓ} (A : Type ℓ) : Type ℓ where
  ok : A → Run A
  panic : String → Run A
  -- the model's fuel is used up
  stuck : Run A

infixl 5 ◌>>=◌
abbrev pub ◌>>=◌ {ℓ κ} : {A : Type ℓ} {B : Type κ} → Run A → (A → Run B) → Run B
ok a >>= f = f a
panic m >>= f = panic m
stuck >>= f = stuck

abbrev pub map_run {ℓ κ} : {A : Type ℓ} {B : Type κ} → (A → B) → Run A → Run B
map_run f (ok a) = ok (f a)
map_run f (panic m) = panic m
map_run f stuck = stuck

-- The call returns a value with `P`.
pub data Gives {ℓ κ} {A : Type ℓ} (P : A → Type κ) : Run A → Type (ℓ ⊔ κ) where
  gives : {a : A} → P a → Gives P (ok a)

module _ {ℓ κ} {A : Type ℓ} {P : A → Type κ} where
  pub Gives-bind {ℓ' κ'} :
      {B : Type ℓ'} {Q : B → Type κ'} {r : Run A} {f : A → Run B}
      → Gives P r
      → ((a : A) → P a → Gives Q (f a))
      → Gives Q (r >>= f)
  Gives-bind (gives p) k = k _ p

  pub Gives-map {κ'} : {Q : A → Type κ'} {r : Run A} → Gives P r → ((a : A) → P a → Q a) → Gives Q r
  Gives-map (gives p) k = gives (k _ p)

  pub Gives-map_run {ℓ' κ'} :
      {B : Type ℓ'} {Q : B → Type κ'} {r : Run A} (f : A → B)
      → Gives P r
      → ((a : A) → P a → Q (f a))
      → Gives Q (map_run f r)
  Gives-map_run f (gives p) k = gives (k _ p)

  pub Gives-if :
      {x y : Run A} (b : Bool)
      → (b ≡ true → Gives P x)
      → (b ≡ false → Gives P y)
      → Gives P (if b then x else y)
  Gives-if true p q = p refl
  Gives-if false p q = q refl

  pub Gives-ok : {r : Run A} → Gives P r → (a : A) × (r ≡ ok a) × P a
  Gives-ok (gives p) = (_, refl, p)
