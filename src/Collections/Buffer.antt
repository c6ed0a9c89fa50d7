-- ===== src/Collections/Buffer.antt =====
-- `array[Option[T], MAX_SIZE]` and the methods of `Option` that the collections call on its slots.
-- An array is a function of the index; an access at `max_size` or later panics. `int` is a 64-bit
-- word; the collections store no negative number in it.
use guppylang.Common.{
  ℕ, zero, suc, ◌+◌, ◌*◌, ◌%◌, ◌<◌, ◌≤◌, ◌≡◌, refl, Option, none, some, if◌then◌else◌, ltb, arith,
}
use guppylang.Common.Run.{Run, ok, panic, ◌>>=◌}
use guppylang.Cfg.Graph.{update}

abbrev pub Buffer : Type 0 → Type 0
Buffer T = ℕ → Option T

abbrev pub int_size : ℕ
int_size = 18446744073709551616

-- No `int` is this large.
abbrev pub int_limit : ℕ
int_limit = 9223372036854775808

-- `+` and `*` of `int`.
unfoldable pub add : ℕ → ℕ → ℕ
add a b = (a + b) % int_size

unfoldable pub mul : ℕ → ℕ → ℕ
mul a b = (a * b) % int_size

pub add-small : (a b : ℕ) → a + b < int_size → add a b ≡ a + b
unfolding add
add-small a b h = omega arith

module _ {T : Type 0} where
  -- `option.unwrap()`
  abbrev pub unwrap : Option T → Run T
  unwrap none = panic "Option.unwrap: value is `Nothing`"
  unwrap (some x) = ok x

  -- `option.unwrap_nothing()`
  abbrev pub unwrap_nothing : Option T → Run (Unit {0})
  unwrap_nothing none = ok tt
  unwrap_nothing (some x) = panic "Option.unwrap: value is `Some`"

  module _ (max_size : ℕ) where
    abbrev pub load : Buffer T → ℕ → Run (Option T)
    load buf i = if ltb i max_size then ok (buf i) else panic "Array index out of bounds"

    -- `buf[i].swap(some(x)).unwrap_nothing()`
    abbrev pub put : Buffer T → ℕ → T → Run (Buffer T)
    put buf i x = load buf i >>= λ old. unwrap_nothing old >>= λ _. ok (update buf i (some x))

    -- `buf[i].take().unwrap()`
    abbrev pub take : Buffer T → ℕ → Run (T × Buffer T)
    take buf i = load buf i >>= λ old. unwrap old >>= λ x. ok (x, update buf i none)

  -- `for elem in buf: elem.unwrap_nothing()`, over the `n` slots from `i`.
  unfoldable pub all_nothing : ℕ → ℕ → Buffer T → Run (Unit {0})
  all_nothing zero i buf = ok tt
  all_nothing (suc n) i buf =
      let rest = all_nothing n (suc i) buf in unwrap_nothing (buf i) >>= λ _. rest

pub all_nothing_lem :
    {T : Type 0} (n i : ℕ) (buf : Buffer T)
    → ((j : ℕ) → i ≤ j → j < i + n → buf j ≡ none)
    → all_nothing n i buf ≡ ok tt
unfolding all_nothing
all_nothing_lem zero i buf h = refl
all_nothing_lem (suc n) i buf h =
    rw (h i (omega arith) (omega arith))
      (all_nothing_lem n (suc i) buf (λ j a b. h j (omega arith) (omega arith)))
