-- ===== src/Common/Loop.antt =====
-- A `while` loop over a worklist, on fuel, with the rule for its total correctness.
use Prim.Native.Nat.{ℕ, zero, suc, ◌≤◌, ◌<◌}
use mathlib.Core.Path.{◌≡◌, refl}
use mathlib.Core.Logic.{inl, inr}
use mathlib.Core.Bool.{Bool, true, false}
use mathlib.Core.Option.{Option, none, some}
use native.Mathlib.Omega.{arith}
use guppylang.Common.Tests.{if◌then◌else◌, Bool-cases}

-- How a loop ends: by its test, by an exception in its body, or with the fuel used up.
pub data Outcome {ℓ} (A : Type ℓ) : Type ℓ where
  done : A → Outcome A
  key_error assertion_error out_of_fuel : Outcome A

done_injective {ℓ} : {A : Type ℓ} {a b : A} → done a ≡ done b → a ≡ b
done_injective h = cc

abbrev pub map_outcome {ℓ κ} : {A : Type ℓ} {B : Type κ} → (A → B) → Outcome A → Outcome B
map_outcome f (done a) = done (f a)
map_outcome f key_error = key_error
map_outcome f assertion_error = assertion_error
map_outcome f out_of_fuel = out_of_fuel

pub map_outcome-eq-done {ℓ κ} :
    {A : Type ℓ} {B : Type κ} (f : A → B) (o : Outcome A) {b : B}
    → map_outcome f o ≡ done b
    → (a : A) × (o ≡ done a) × (f a ≡ b)
map_outcome-eq-done f (done a) h = (a, refl, done_injective h)
map_outcome-eq-done f key_error h = cc
map_outcome-eq-done f assertion_error h = cc
map_outcome-eq-done f out_of_fuel h = cc

pub done_unique {ℓ} : {A : Type ℓ} {o : Outcome A} {a b : A} → o ≡ done a → o ≡ done b → a ≡ b
done_unique p q = cc

module _ {ℓ} {S : Type ℓ} (idle : S → Bool) (step : ℕ → S → Option S) where
  -- `while not idle(s): s = step(s)`. A round is told how much fuel is left, so that a choice
  -- that it makes may differ from round to round.
  unfoldable pub work_loop : ℕ → S → Outcome S
  work_loop zero s = if idle s then done s else out_of_fuel
  work_loop (suc fuel) s = elim (idle s) [
    | true ↦ done s
    | false ↦ elim (step fuel s) [ none ↦ key_error | some s' ↦ work_loop fuel s' ]
  ]

  -- `P m s`: the invariant holds of `s`, and at most `m` rounds are left.
  pub record Ends {κ} (P : ℕ → S → Type κ) (fuel : ℕ) (s : S) : Type (ℓ ⊔ κ) where
    pub final : S
    pub left : ℕ
    pub ends : work_loop fuel s ≡ done final
    pub keeps : P left final
    pub stops : idle final ≡ true

  pub record Progress {κ} (P : ℕ → S → Type κ) (m time : ℕ) (s : S) : Type (ℓ ⊔ κ) where
    pub next : S
    pub left : ℕ
    pub steps : step time s ≡ some next
    pub keeps : P left next
    pub falls : left < m

  pub work_loop_total {κ} :
      (P : ℕ → S → Type κ)
      → ((time m : ℕ) (s : S) → P m s → idle s ≡ false → Progress P m time s)
      → (fuel m : ℕ) (s : S) → m ≤ fuel
      → P m s
      → Ends P fuel s
  unfolding work_loop
  work_loop_total P round zero m s le h = elim (Bool-cases (idle s)) [
    | inl e ↦ record { final = s; left = m; ends = rw e; keeps = h; stops = e }
    | inr e ↦ absurd (omega (arith, (round 0 m s h e).falls))
  ]
  work_loop_total P round (suc fuel) m s le h = elim (Bool-cases (idle s)) [
    | inl e ↦ record { final = s; left = m; ends = rw (e, work_loop); keeps = h; stops = e }
    | inr e ↦
        let p = round fuel m s h e in
        let r = work_loop_total P round fuel p.left p.next (omega (arith, p.falls)) p.keeps in
        record {
          final = r.final;
          left = r.left;
          ends = rw (e, work_loop, p.steps) r.ends;
          keeps = r.keeps;
          stops = r.stops;
        }
  ]
