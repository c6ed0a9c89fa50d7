-- ===== src/Cfg/Analysis/Forward.antt =====
-- The forward loop ends on every order of the queue, without a `KeyError`. The value before each
-- block is then settled with respect to the values after its predecessors.
use mathlib.Core.Path.{subst}
use guppylang.Common.{
  ℕ, ◌+◌, ◌*◌, ◌≤◌, ◌<◌, ◌≡◌, true, false, Option, some, List, [], ◌∷◌, map, arith, ◌==◌,
  if◌then◌else◌, Bool-cases, inl, inr, Eq, nat_eq, ==→eq, eq→==, length, sym, List-cases, ap, ◌∙◌,
  refl,
}
use guppylang.Common.Sets.{elem, without, update_with, elem-without, elem-update_with}
use guppylang.Common.Loop.{done, work_loop_total, Progress}
use guppylang.Cfg.Graph.{Links, update}
use guppylang.Cfg.Analysis.{
  Analysis, ForwardState, all_predecessors, forward_update, forward_step, run_forward, pop_any,
  is_empty, tabulate, visited,
}
use guppylang.Cfg.Analysis.Closed.{IsClosed}
use guppylang.Cfg.Analysis.Chain.{
  Bits, IsMonotone, Toward, Chain, Chain-Moves, Chain-update, rank, rank-update-lt, rank_bound,
}
use guppylang.Cfg.Analysis.Lookup.{
  Holds, lookups-Holds, Holds-update, elem-pop_any, waiting, waiting-le-length, waiting-without-lt,
  rounds_fall, rounds_bound, is_empty-elem,
}

-- What a pass shows of its domain. `Own b t t'` relates the values before and after a block,
-- `Local b t cur` the value before a block to the values after its predecessors.
pub record ForwardPass (K : Type 0) ⦃e : Eq K⦄ {T : Type 0} (a : Analysis T) (links : ℕ → Links)
    (bbs : List ℕ) : Type 1 where
  pub bits : Bits T K
  pub Good : T → Type 0
  pub mono : IsMonotone bits Good a.eq (λ b ts. a.apply_bb (a.join ts) b)
  pub first_initial : (k : K) → bits.bit k a.initial ≡ bits.first k
  pub first-Toward :
      (k : K) (b : ℕ) (ts : List T)
      → Toward
          (bits.first k)
          (bits.bit k (a.apply_bb a.initial b))
          (bits.bit k (a.apply_bb (a.join ts) b))
  pub good_initial : Good a.initial
  pub good_first : (b : ℕ) → elem b bbs ≡ true → Good (a.apply_bb a.initial b)
  pub good_step :
      (b : ℕ) (cs : List ℕ) (cur : ℕ → T)
      → elem b bbs ≡ true
      → ((c : ℕ) → Good (cur c))
      → Good (a.apply_bb (a.join (map cur cs)) b)
  pub Own : ℕ → T → T → Type 0
  pub own_step : (b : ℕ) (t : T) → Own b t (a.apply_bb t b)
  pub own_eq : (b : ℕ) (t new old : T) → a.eq new old ≡ true → Own b t new → Own b t old
  pub Before : ℕ → T → Type 0
  pub before_initial : (b : ℕ) → Before b a.initial
  pub before_step :
      (cur bef : ℕ → T) (b : ℕ)
      → ((c : ℕ) → elem c bbs ≡ true → Before c (bef c) × Own c (bef c) (cur c))
      → ((c : ℕ) → elem c (all_predecessors a links b) ≡ true → elem c bbs ≡ true)
      → Before b (a.join (map cur (all_predecessors a links b)))
  pub Local : ℕ → T → (ℕ → T) → Type 0
  pub local_step :
      (b : ℕ) (cur : ℕ → T) → Local b (a.join (map cur (all_predecessors a links b))) cur
  pub local_frame :
      (b : ℕ) (t : T) (cur cur' : ℕ → T)
      → ((c : ℕ) → elem c (links b).predecessors ≡ true → cur c ≡ cur' c)
      → Local b t cur
      → Local b t cur'

module _ {K : Type 0} ⦃e : Eq K⦄ {T : Type 0} (a : Analysis T) (links : ℕ → Links) (bbs : List ℕ)
    (choose : ℕ → List ℕ → ℕ) (p : ForwardPass K a links bbs)
    (g : IsClosed bbs
      (all_predecessors a links)
      (λ c. (links c).predecessors)
      (λ c. (links c).successors)) where
  abbrev joined : (ℕ → T) → ℕ → T
  joined cur b = a.join (map cur (all_predecessors a links b))

  abbrev recomputed : (ℕ → T) → ℕ → T
  recomputed cur b = a.apply_bb (joined cur b) b

  -- The values before and after each block.
  record Values (s : ForwardState T) : Type 1 where
    cur : ℕ → T
    bef : ℕ → T
    holds : Holds bbs s.vals_after cur
    holds_before : Holds bbs s.vals_before bef
    chain : Chain p.bits (all_predecessors a links) cur
    good : (c : ℕ) → p.Good (cur c)
    kept : (c : ℕ) → elem c bbs ≡ true → p.Before c (bef c) × p.Own c (bef c) (cur c)

  record Inv (m : ℕ) (s : ForwardState T) : Type 1 where
    values : Values s
    open values use *
    queued : (c : ℕ) → elem c s.queue ≡ true → elem c bbs ≡ true
    settled : (c : ℕ) → elem c bbs ≡ true → elem c s.queue ≡ false → p.Local c (bef c) cur
    rounds : rank p.bits bbs cur * (length bbs + 1) + waiting bbs s.queue ≤ m

  -- A block that is no successor of `b` has predecessors other than `b`.
  unaffected :
      (cur : ℕ → T) (b : ℕ) (new : T) (c : ℕ)
      → elem c (links b).successors ≡ false
      → (x : ℕ) → elem x (links c).predecessors ≡ true
      → cur x ≡ update cur b new x
  unaffected cur b new c out x mx = elim (Bool-cases (x == b)) [
    | inl eq ↦
        let back : elem c (links b).successors ≡ true = rw (==→eq x b eq) at (g.mirrored c x mx) in
        cc
    | inr off ↦ rw off
  ]

  abbrev Round : ℕ → ForwardState T → Type 1
  Round m s' = (m' : ℕ) × Inv m' s' × (m' < m)

  module _ (m : ℕ) (s : ForwardState T) (h : Inv m s) (b : ℕ) (mb : elem b s.queue ≡ true) where
    Before-now : p.Before b (joined h.cur b)
    Before-now = p.before_step h.cur h.bef b h.kept (λ c. g.inputs_in b c (h.queued b mb))

    -- The invariants of a block once its two values are `t` and `t'`.
    kept_now :
        (cur' : ℕ → T)
        → p.Own b (joined h.cur b) (cur' b)
        → ((c : ℕ) → (c == b) ≡ false → h.cur c ≡ cur' c)
        → (c : ℕ) → elem c bbs ≡ true
        → p.Before c (update h.bef b (joined h.cur b) c)
          × p.Own c (update h.bef b (joined h.cur b) c) (cur' c)
    kept_now cur' own others c mc = elim (Bool-cases (c == b)) [
      | inl eq ↦ rw eq (rw (==→eq c b eq) (Before-now, own))
      | inr off ↦ rw (off, ← others c off) (h.kept c mc)
    ]

    same_value :
        a.eq (recomputed h.cur b) (h.cur b) ≡ true
        → Round m (record s {
          vals_before = update s.vals_before b (some (joined h.cur b));
          queue = without b s.queue;
        })
    same_value same = (
      rank p.bits bbs h.cur * (length bbs + 1) + waiting bbs (without b s.queue),
      record {
        values = record {
          cur = h.cur;
          bef = update h.bef b (joined h.cur b);
          holds = h.holds;
          holds_before = Holds-update bbs s.vals_before h.bef b _ h.holds_before;
          chain = h.chain;
          good = h.good;
          kept =
              kept_now h.cur (p.own_eq b _ _ _ same (p.own_step b (joined h.cur b)))
                (λ c off. refl);
        };
        queued = λ c q. h.queued c (ground (arith, elem-without c b s.queue));
        settled = λ c mc q. elim (Bool-cases (c == b)) [
          | inl eq ↦ rw eq (rw (==→eq c b eq) (p.local_step b h.cur))
          | inr off ↦ rw off (h.settled c mc (ground (arith, elem-without c b s.queue)))
        ];
        rounds = omega arith;
      },
      omega (arith, h.rounds, waiting-without-lt b bbs s.queue (h.queued b mb) mb),
    )

    new_value :
        a.eq (recomputed h.cur b) (h.cur b) ≡ false
        → Round m (record {
          vals_before = update s.vals_before b (some (joined h.cur b));
          vals_after = update s.vals_after b (some (recomputed h.cur b));
          queue = update_with (links b).successors (without b s.queue);
        })
    new_value other =
        let new = recomputed h.cur b in
        let b_in = h.queued b mb in
        let fresh = p.good_step b (all_predecessors a links b) h.cur b_in h.good in
        let (k, mk, ne) = p.mono.differs new (h.cur b) fresh (h.good b) other in
        let cur' = update h.cur b new in
        let queue' = update_with (links b).successors (without b s.queue) in
        let in_queue' = λ (c : ℕ). elem-update_with c (links b).successors (without b s.queue) in
        (
          rank p.bits bbs cur' * (length bbs + 1) + waiting bbs queue',
          record {
            values = record {
              cur = cur';
              bef = update h.bef b (joined h.cur b);
              holds = Holds-update bbs s.vals_after h.cur b new h.holds;
              holds_before = Holds-update bbs s.vals_before h.bef b _ h.holds_before;
              chain = Chain-update p.bits (all_predecessors a links) p.mono h.cur h.chain b;
              good = λ c. elim (Bool-cases (c == b)) [
                | inl eq ↦ rw eq fresh
                | inr off ↦ rw off (h.good c)
              ];
              kept =
                  kept_now cur' (rw (eq→== b b refl) (p.own_step b (joined h.cur b)))
                    (λ c off. rw off);
            };
            queued = λ c q.
                ground
                  (arith, in_queue' c, elem-without c b s.queue, h.queued c, g.back_in b c b_in);
            settled = λ c mc q.
                let out : elem c (links b).successors ≡ false = ground (arith, in_queue' c) in
                elim (Bool-cases (c == b)) [
                  | inl eq ↦
                      let c-eq = ==→eq c b eq in
                      rw eq (
                        subst (λ i. p.Local i (joined h.cur b) cur') (sym c-eq)
                          (p.local_frame b (joined h.cur b) h.cur cur'
                            (unaffected h.cur b new b (rw c-eq at out)) (p.local_step b h.cur)))
                  | inr off ↦ rw off (
                      p.local_frame c (h.bef c) h.cur cur' (unaffected h.cur b new c out)
                        (h.settled c mc (ground (arith, in_queue' c, elem-without c b s.queue))))
                ];
            rounds = omega arith;
          },
          rounds_fall (rank p.bits bbs h.cur) _ (waiting bbs s.queue) _ (length bbs) m
              (rank-update-lt p.bits h.cur b new
                (Chain-Moves p.bits (all_predecessors a links) p.mono h.cur h.chain b) bbs k b_in mk
                (λ same. ne (sym same)))
              (waiting-le-length bbs queue') h.rounds,
        )

  -- The step at the block that was popped.
  step-eq :
      (time m : ℕ) (s : ForwardState T) (h : Inv m s) (q : ℕ) (qs : List ℕ)
      → s.queue ≡ q ∷ qs
      → let b = pop_any (choose time) q qs in
        forward_step a links choose time s
        ≡ forward_update a links choose s b
            (some (h.cur b))
            (some (map h.cur (all_predecessors a links b)))
  unfolding forward_step
  step-eq time m s h q qs e =
      let b = pop_any (choose time) q qs in
      let b_in = h.queued b (rw e (elem-pop_any (choose time) q qs)) in
      let found =
        lookups-Holds bbs s.vals_after h.cur h.holds (all_predecessors a links b)
          (λ c mc. g.inputs_in b c b_in mc) in
      rw (e, h.holds b b_in, found)

  step-Progress :
      (time m : ℕ) (s : ForwardState T)
      → Inv m s
      → is_empty s.queue ≡ false
      → Progress (λ s. is_empty s.queue) (forward_step a links choose) Inv m time s
  unfolding forward_update
  step-Progress time m s h busy = elim (List-cases s.queue) [
    | inl e ↦ cc (ap is_empty e)
    | inr (q, qs, e) ↦
        let b = pop_any (choose time) q qs in
        let mb : elem b s.queue ≡ true = rw e (elem-pop_any (choose time) q qs) in
        elim (Bool-cases (a.eq (recomputed h.cur b) (h.cur b))) [
          | inl same ↦
              let (m', inv, lt) = same_value m s h b mb same in
              record {
                next = record s {
                  vals_before = update s.vals_before b (some (joined h.cur b));
                  queue = without b s.queue;
                };
                left = m';
                steps = step-eq time m s h q qs e ∙ rw same;
                keeps = inv;
                falls = lt;
              }
          | inr other ↦
              let (m', inv, lt) = new_value m s h b mb other in
              record {
                next = record {
                  vals_before = update s.vals_before b (some (joined h.cur b));
                  vals_after = update s.vals_after b (some (recomputed h.cur b));
                  queue = update_with (links b).successors (without b s.queue);
                };
                left = m';
                steps = step-eq time m s h q qs e ∙ rw other;
                keeps = inv;
                falls = lt;
              }
        ]
  ]

  -- Enough fuel for any order of the queue.
  abbrev pub forward_fuel : ℕ
  forward_fuel = length bbs * length p.bits.keys * (length bbs + 1) + length bbs

  -- What a finished run promises.
  pub record Settled : Type 1 where
    pub vals : ℕ → Option T
    pub cur : ℕ → T
    pub bef : ℕ → T
    pub holds_before : Holds bbs vals bef
    pub kept : (c : ℕ) → elem c bbs ≡ true → p.Before c (bef c) × p.Own c (bef c) (cur c)
    pub settled : (b : ℕ) → elem b bbs ≡ true → p.Local b (bef b) cur

  start : ForwardState T
  start = record {
    vals_before = tabulate (λ _. a.initial) bbs;
    vals_after = tabulate (λ b. a.apply_bb a.initial b) bbs;
    queue = update_with bbs [];
  }

  first : ℕ → T
  first b = if elem b bbs then a.apply_bb a.initial b else a.initial

  rounds_at_start : ℕ
  rounds_at_start = rank p.bits bbs first * (length bbs + 1) + waiting bbs (update_with bbs [])

  start-Inv : Inv rounds_at_start start
  unfolding start rounds_at_start first
  start-Inv = record {
    values = record {
      cur = first;
      bef = λ _. a.initial;
      holds = λ b m. rw m;
      holds_before = λ b m. rw m;
      chain = λ c k. elim (Bool-cases (elem c bbs)) [
        | inl there ↦
            let inputs = map first (all_predecessors a links c) in
            rw there (rw (← p.mono.bit_step k c inputs) (p.first-Toward k c inputs))
        | inr other ↦ rw other (rw (p.first_initial k) (ground arith))
      ];
      good = λ c. elim (Bool-cases (elem c bbs)) [
        | inl there ↦ rw there (p.good_first c there)
        | inr other ↦ rw other p.good_initial
      ];
      kept = λ c mc. rw mc (p.before_initial c, p.own_step c a.initial);
    };
    queued = λ c q. ground (arith, elem-update_with c bbs []);
    settled = λ c mc q. let clash : true ≡ false = ground (arith, elem-update_with c bbs []) in cc;
    rounds = omega arith;
  }

  start-bound : rounds_at_start ≤ forward_fuel
  unfolding rounds_at_start
  start-bound =
      rounds_bound (rank p.bits bbs first) (length bbs) (length p.bits.keys) _
        (rank_bound p.bits bbs first) (waiting-le-length bbs (update_with bbs []))

  -- The blocks that a run visits are `bbs`: all of them, or the reachable ones.
  pub forward_total :
      (fuel : ℕ) (all_bbs : List ℕ)
      → bbs ≡ visited a links all_bbs
      → forward_fuel ≤ fuel
      → (r : Settled) × (run_forward a links choose fuel all_bbs ≡ done r.vals)
  unfolding run_forward start
  forward_total fuel all_bbs visits le =
      let r =
        work_loop_total (λ s. is_empty s.queue) (forward_step a links choose) Inv step-Progress fuel
          rounds_at_start start (omega (arith, start-bound)) start-Inv in
      let inv = r.keeps in
      (
        record {
          vals = r.final.vals_before;
          cur = inv.cur;
          bef = inv.bef;
          holds_before = inv.holds_before;
          kept = inv.kept;
          settled = λ b mb. inv.settled b mb (is_empty-elem r.final.queue b r.stops);
        },
        rw (← visits, r.ends, run_forward),
      )
