-- ===== src/Cfg/Analysis/Chain.antt =====
-- A domain of bits. Each bit of a value moves away from its first value at most once, if the
-- transfer function is monotone: the measure by which both worklist loops end.
use guppylang.Common.{
  ℕ, suc, ◌+◌, ◌*◌, ◌≤◌, ◌<◌, ◌≡◌, ◌≢◌, Bool, true, false, not, ◌||◌, List, [], ◌∷◌, map, arith,
  ◌==◌, if◌then◌else◌, Bool-cases, inl, inr, Eq, nat_eq, ==→eq, length,
}
use guppylang.Common.Sets.{elem}
use guppylang.Cfg.Graph.{update}

-- `new` is `old`, or has left the first value `first`.
abbrev pub Toward : Bool → Bool → Bool → Type 0
Toward first old new = (if first then old || not new else not old || new) ≡ true

abbrev pub AllToward : Bool → List Bool → List Bool → Type 0
AllToward first [] [] = Unit
AllToward first (x ∷ xs) (y ∷ ys) = Toward first x y × AllToward first xs ys
AllToward first _ _ = ⊥

pub Toward-trans : (first x y z : Bool) → Toward first x y → Toward first y z → Toward first x z
Toward-trans first x y z p q = ground arith

pub record Bits {ℓ} (T : Type ℓ) (K : Type 0) : Type ℓ where
  pub keys : List K
  pub bit : K → T → Bool
  pub first : K → Bool
  pub flow : K → ℕ → List Bool → Bool

module _ {ℓ} {T : Type ℓ} {K : Type 0} (d : Bits T K) where
  abbrev pub Moves : T → T → Type 0
  Moves old new = (k : K) → Toward (d.first k) (d.bit k old) (d.bit k new)

  -- What a pass has to show: `step b ts` is the new value of block `b` from those of its inputs.
  pub record IsMonotone ⦃e : Eq K⦄ (Good : T → Type 0) (eq : T → T → Bool) (step : ℕ → List T → T)
      : Type ℓ where
    pub bit_step :
        (k : K) (b : ℕ) (ts : List T) → d.bit k (step b ts) ≡ d.flow k b (map (d.bit k) ts)
    pub flow_mono :
        (k : K) (b : ℕ) (xs ys : List Bool)
        → AllToward (d.first k) xs ys
        → Toward (d.first k) (d.flow k b xs) (d.flow k b ys)
    pub differs :
        (s t : T)
        → Good s
        → Good t
        → eq s t ≡ false
        → (k : K) × (elem k d.keys ≡ true) × (d.bit k s ≢ d.bit k t)

  -- the bits that still have their first value
  untouched : List K → T → ℕ
  untouched [] t = 0
  untouched (k ∷ ks) t =
      let rest = untouched ks t in
      if d.first k
      then (if d.bit k t then suc rest else rest)
      else (if d.bit k t then rest else suc rest)

  untouched-le : (ks : List K) (s t : T) → Moves s t → untouched ks t ≤ untouched ks s
  unfolding untouched
  untouched-le [] s t h = omega arith
  untouched-le (k ∷ ks) s t h = ground (arith, h k, untouched-le ks s t h)

  untouched-lt :
      ⦃e : Eq K⦄ (ks : List K) (k : K) (s t : T)
      → Moves s t
      → elem k ks ≡ true
      → d.bit k s ≢ d.bit k t
      → untouched ks t < untouched ks s
  unfolding untouched
  untouched-lt [] k s t h m ne = cc
  untouched-lt ⦃e⦄ (j ∷ ks) k s t h m ne = elim (Bool-cases (e.beq k j)) [
    | inl same ↦
        let ne' : d.bit j s ≢ d.bit j t = rw ((e.beq_iff k j).0 same) at ne in
        ground (arith, h j, untouched-le ks s t h)
    | inr other ↦ ground (arith, h j, untouched-lt ks k s t h (ground arith) ne)
  ]

  pub rank : List ℕ → (ℕ → T) → ℕ
  rank [] cur = 0
  rank (b ∷ bs) cur = untouched d.keys (cur b) + rank bs cur

  module _ (cur : ℕ → T) (b : ℕ) (new : T) (h : Moves (cur b) new) where
    rank-update-le : (bs : List ℕ) → rank bs (update cur b new) ≤ rank bs cur
    unfolding rank
    rank-update-le [] = omega arith
    rank-update-le (c ∷ bs) = elim (Bool-cases (c == b)) [
      | inl same ↦ rw same (
          rw (==→eq c b same) (omega (arith, untouched-le d.keys (cur b) new h, rank-update-le bs)))
      | inr other ↦ rw other (omega (arith, rank-update-le bs))
    ]

    pub rank-update-lt :
        ⦃e : Eq K⦄ (bs : List ℕ) (k : K)
        → elem b bs ≡ true
        → elem k d.keys ≡ true
        → d.bit k (cur b) ≢ d.bit k new
        → rank bs (update cur b new) < rank bs cur
    unfolding rank
    rank-update-lt [] k m mk ne = cc
    rank-update-lt (c ∷ bs) k m mk ne = elim (Bool-cases (c == b)) [
      | inl same ↦ rw same (
          rw (==→eq c b same)
            (omega (arith, untouched-lt d.keys k (cur b) new h mk ne, rank-update-le bs)))
      | inr other ↦ rw other (omega (arith, rank-update-lt bs k (ground arith) mk ne))
    ]

  untouched-le-length : (ks : List K) (t : T) → untouched ks t ≤ length ks
  unfolding untouched
  untouched-le-length [] t = omega arith
  untouched-le-length (k ∷ ks) t = ground (arith, untouched-le-length ks t)

  pub rank_bound : (bs : List ℕ) (cur : ℕ → T) → rank bs cur ≤ length bs * length d.keys
  unfolding rank
  rank_bound [] cur = omega arith
  rank_bound (b ∷ bs) cur = omega (arith, untouched-le-length d.keys (cur b), rank_bound bs cur)

  module _ (inputs : ℕ → List ℕ) where
    -- Recomputing a block can only move its bits on.
    abbrev pub Chain : (ℕ → T) → Type 0
    Chain cur =
        (c : ℕ) (k : K)
        → Toward (d.first k) (d.bit k (cur c)) (d.flow k c (map (d.bit k) (map cur (inputs c))))

    module _ ⦃e : Eq K⦄ {Good : T → Type 0} {eq : T → T → Bool} {step : ℕ → List T → T}
        (m : IsMonotone Good eq step) where
      pub Chain-Moves :
          (cur : ℕ → T) → Chain cur → (b : ℕ) → Moves (cur b) (step b (map cur (inputs b)))
      Chain-Moves cur h b k = rw m.bit_step (h b k)

      inputs_toward :
          (cur : ℕ → T) (b : ℕ) (new : T)
          → Moves (cur b) new
          → (k : K) (cs : List ℕ)
          → AllToward
              (d.first k)
              (map (d.bit k) (map cur cs))
              (map (d.bit k) (map (update cur b new) cs))
      inputs_toward cur b new h k [] = tt
      inputs_toward cur b new h k (c ∷ cs) = elim (Bool-cases (c == b)) [
        | inl same ↦ rw same (rw (==→eq c b same) (h k, inputs_toward cur b new h k cs))
        | inr other ↦ rw other (ground arith, inputs_toward cur b new h k cs)
      ]

      pub Chain-update :
          (cur : ℕ → T) → Chain cur → (b : ℕ) → Chain (update cur b (step b (map cur (inputs b))))
      Chain-update cur h b c k =
          let new = step b (map cur (inputs b)) in
          let on = λ (i : ℕ).
            m.flow_mono k i _ _ (inputs_toward cur b new (Chain-Moves cur h b) k (inputs i)) in
          elim (Bool-cases (c == b)) [
            | inl same ↦ rw same (rw (==→eq c b same) (rw m.bit_step (on b)))
            | inr other ↦ rw other (Toward-trans (d.first k) _ _ _ (h c k) (on c))
          ]
