-- ===== src/Common/Dict.antt =====
-- Python's `dict` as an association list. The program reads the keys of such a dict as a set and
-- never relies on their order.
use mathlib.Core.Path.{◌≡◌, refl}
use mathlib.Core.Bool.{Bool, true, false, ◌&&◌, ◌||◌}
use mathlib.Core.Option.{Option, none, some}
use mathlib.Core.List.{List, [], ◌∷◌, ◌++◌}
use mathlib.Core.Logic.{◌≢◌, inl, inr}
use native.Mathlib.Omega.{arith}
use guppylang.Common.Tests.{if◌then◌else◌, Eq, Bool-cases}
use guppylang.Common.Lists.{all}
use guppylang.Common.Sets.{elem, beq_refl, elem-append, all-elem}

abbrev pub Dict {ℓ κ} : Type ℓ → Type κ → Type (ℓ ⊔ κ)
Dict K V = List (K × V)

module _ {ℓ κ} {K : Type ℓ} {V : Type κ} ⦃e : Eq K⦄ where
  -- `d.get(k)`
  unfoldable pub get : K → Dict K V → Option V
  get k [] = none
  get k ((j, v) ∷ d) = if e.beq k j then some v else get k d

  -- `k in d`
  abbrev pub has : K → Dict K V → Bool
  has k d = elim (get k d) [ none ↦ false | some _ ↦ true ]

  -- `d[k] = v`: a key that is there keeps its place.
  unfoldable pub put : K → V → Dict K V → Dict K V
  put k v [] = (k, v) ∷ []
  put k v ((j, w) ∷ d) = if e.beq k j then (k, v) ∷ d else (j, w) ∷ put k v d

  -- `d.pop(k, None)`
  unfoldable pub remove : K → Dict K V → Dict K V
  remove k [] = []
  remove k ((j, w) ∷ d) = let rest = remove k d in if e.beq k j then rest else (j, w) ∷ rest

  -- `a | b` and `a |= b`
  unfoldable pub merge : Dict K V → Dict K V → Dict K V
  merge a [] = a
  merge a ((k, v) ∷ b) = merge (put k v a) b

  -- `dict.fromkeys(ks, v)`
  unfoldable pub from_keys : List K → V → Dict K V
  from_keys [] v = []
  from_keys (k ∷ ks) v = (k, v) ∷ from_keys ks v

  -- `{k: v for k, v in d.items() if p(k)}`
  unfoldable pub restrict : (K → Bool) → Dict K V → Dict K V
  restrict p [] = []
  restrict p ((k, v) ∷ d) = let rest = restrict p d in if p k then (k, v) ∷ rest else rest

  -- `d.keys()`
  abbrev pub keys : Dict K V → List K
  keys [] = []
  keys ((k, v) ∷ d) = k ∷ keys d

  -- `a.keys() == b.keys()`
  unfoldable pub same_keys : Dict K V → Dict K V → Bool
  same_keys a b = all (λ k. has k b) (keys a) && all (λ k. has k a) (keys b)

  pub get-put :
      (k j : K) (v : V) (d : Dict K V) → get j (put k v d) ≡ (if e.beq j k then some v else get j d)
  unfolding get put
  get-put k j v [] = refl
  get-put k j v ((i, w) ∷ d) =
      ground (arith, get-put k j v d, e.beq_iff k i, e.beq_iff j i, e.beq_iff j k)

  pub get-remove :
      (k j : K) (d : Dict K V) → get j (remove k d) ≡ (if e.beq j k then none else get j d)
  unfolding get remove
  get-remove k j [] = ground arith
  get-remove k j ((i, w) ∷ d) =
      ground (arith, get-remove k j d, e.beq_iff k i, e.beq_iff j i, e.beq_iff j k)

  pub get-from_keys :
      (k : K) (ks : List K) (v : V) → get k (from_keys ks v) ≡ (if elem k ks then some v else none)
  unfolding get from_keys
  get-from_keys k [] v = refl
  get-from_keys k (j ∷ ks) v = ground (arith, get-from_keys k ks v)

  pub get-restrict :
      (p : K → Bool) (k : K) (d : Dict K V) → get k (restrict p d) ≡ (if p k then get k d else none)
  unfolding get restrict
  get-restrict p k [] = ground arith
  get-restrict p k ((j, v) ∷ d) = elim (Bool-cases (e.beq k j)) [
    | inl same ↦ rw ((e.beq_iff k j).0 same) (ground (arith, get-restrict p j d, beq_refl j))
    | inr other ↦ ground (arith, get-restrict p k d)
  ]

  pub elem-keys : (k : K) (d : Dict K V) → elem k (keys d) ≡ has k d
  unfolding get
  elem-keys k [] = refl
  elem-keys k ((j, v) ∷ d) = ground (arith, elem-keys k d)

  pub has-merge : (k : K) (a b : Dict K V) → has k (merge a b) ≡ (has k a || has k b)
  unfolding get merge
  has-merge k a [] = ground arith
  has-merge k a ((j, v) ∷ b) = ground (arith, has-merge k (put j v a) b, get-put j k v a)

  pub has-from_keys : (k : K) (ks : List K) (v : V) → has k (from_keys ks v) ≡ elem k ks
  has-from_keys k ks v = ground (arith, get-from_keys k ks v)

  pub has-restrict : (p : K → Bool) (k : K) (d : Dict K V) → has k (restrict p d) ≡ (p k && has k d)
  has-restrict p k d = ground (arith, get-restrict p k d)

  -- Dicts with different keys differ at a key of one of them.
  abbrev pub Apart : Dict K V → Dict K V → Type ℓ
  Apart a b = (k : K) × (elem k (keys a ++ keys b) ≡ true) × (has k a ≢ has k b)

  missing_key :
      (a : Dict K V) (ks : List K)
      → all (λ k. has k a) ks ≡ false
      → (k : K) × (elem k ks ≡ true) × (has k a ≡ false)
  missing_key a [] h = cc
  missing_key a (k ∷ ks) h = elim (Bool-cases (has k a)) [
    | inl there ↦ let (j, m, out) = missing_key a ks (ground arith) in (j, rw m (ground arith), out)
    | inr out ↦ (k, rw (beq_refl k), out)
  ]

  pub same_keys-Apart : (a b : Dict K V) → same_keys a b ≡ false → Apart a b
  unfolding same_keys
  same_keys-Apart a b h = elim (Bool-cases (all (λ k. has k b) (keys a))) [
    | inl within ↦
        let (k, m, out) = missing_key a (keys b) (ground arith) in
        (k, ground (arith, elem-append k (keys a) (keys b)), ground (arith, elem-keys k b))
    | inr beyond ↦
        let (k, m, out) = missing_key b (keys a) beyond in
        (k, ground (arith, elem-append k (keys a) (keys b)), ground (arith, elem-keys k a))
  ]

  -- Dicts with the same keys.
  pub has-same_keys : (a b : Dict K V) → same_keys a b ≡ true → (k : K) → has k a ≡ has k b
  unfolding same_keys
  has-same_keys a b h k = ground (
    arith,
    all-elem (λ j. has j b) (keys a) k,
    all-elem (λ j. has j a) (keys b) k,
    elem-keys k a,
    elem-keys k b,
  )

-- Every entry of a dict satisfies `P`.
abbrev pub Entries {ℓ κ μ} : {K : Type ℓ} {V : Type κ} → (K → V → Type μ) → Dict K V → Type μ
Entries P [] = Unit
Entries P ((k, v) ∷ d) = P k v × Entries P d

module _ {ℓ κ μ} {K : Type ℓ} {V : Type κ} ⦃e : Eq K⦄ (P : K → V → Type μ) where
  pub get-Entries : (k : K) {v : V} (d : Dict K V) → Entries P d → get k d ≡ some v → P k v
  unfolding get
  get-Entries k [] h p = cc
  get-Entries k {v} ((j, w) ∷ d) h p = elim (Bool-cases (e.beq k j)) [
    | inl same ↦ let w-eq : w ≡ v = ground arith in rw ((e.beq_iff k j).0 same) (rw w-eq at h.0)
    | inr other ↦ get-Entries k d h.1 (ground arith)
  ]

  pub Entries-put : (k : K) (v : V) (d : Dict K V) → P k v → Entries P d → Entries P (put k v d)
  unfolding put
  Entries-put k v [] p h = (p, tt)
  Entries-put k v ((j, w) ∷ d) p h = elim (Bool-cases (e.beq k j)) [
    | inl same ↦ rw same (p, h.1)
    | inr other ↦ rw other (h.0, Entries-put k v d p h.1)
  ]

  pub Entries-merge : (a b : Dict K V) → Entries P a → Entries P b → Entries P (merge a b)
  unfolding merge
  Entries-merge a [] ha hb = ha
  Entries-merge a ((k, v) ∷ b) ha hb = Entries-merge (put k v a) b (Entries-put k v a hb.0 ha) hb.1

  pub Entries-from_keys :
      (ks : List K) (v : V) → ((k : K) → elem k ks ≡ true → P k v) → Entries P (from_keys ks v)
  unfolding from_keys
  Entries-from_keys [] v h = tt
  Entries-from_keys (k ∷ ks) v h =
      (h k (rw (beq_refl k)), Entries-from_keys ks v (λ j m. h j (ground arith)))

module _ {ℓ κ μ ν} {K : Type ℓ} {V : Type κ} ⦃e : Eq K⦄ where
  pub Entries-restrict :
      (P : K → V → Type μ) (Q : K → V → Type ν) (p : K → Bool) (d : Dict K V)
      → ((k : K) (v : V) → p k ≡ true → P k v → Q k v)
      → Entries P d
      → Entries Q (restrict p d)
  unfolding restrict
  Entries-restrict P Q p [] f h = tt
  Entries-restrict P Q p ((k, v) ∷ d) f h = elim (Bool-cases (p k)) [
    | inl kept ↦ rw kept (f k v kept h.0, Entries-restrict P Q p d f h.1)
    | inr dropped ↦ rw dropped (Entries-restrict P Q p d f h.1)
  ]

pub Entries-map {ℓ κ μ ν} :
    {K : Type ℓ} {V : Type κ} (P : K → V → Type μ) (Q : K → V → Type ν) (d : Dict K V)
    → ((k : K) (v : V) → P k v → Q k v)
    → Entries P d
    → Entries Q d
Entries-map P Q [] f h = tt
Entries-map P Q ((k, v) ∷ d) f h = (f k v h.0, Entries-map P Q d f h.1)
