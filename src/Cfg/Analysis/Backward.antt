-- ===== src/Cfg/Analysis/Backward.antt =====
-- The backward loop ends on every order of the queue, without a `KeyError`. Each block is then
-- settled with respect to its successors.
use guppylang.Common.{
  ℕ, ◌+◌, ◌*◌, ◌≤◌, ◌<◌, ◌≡◌, true, false, Option, some, List, [], ◌∷◌, map, arith, ◌==◌,
  Bool-cases, inl, inr, Eq, nat_eq, ==→eq, length, sym, List-cases, ap, ◌∙◌,
}
use mathlib.Core.Path.{subst}
use guppylang.Common.Sets.{elem, without, update_with, elem-without, elem-update_with}
use guppylang.Common.Loop.{done, work_loop_total, Progress}
use guppylang.Cfg.Graph.{Links, update}
use guppylang.Cfg.Analysis.{
  Analysis, BackwardState, all_successors, backward_update, backward_step, run_backward, pop_any,
  is_empty, tabulate,
}
use guppylang.Cfg.Analysis.Closed.{IsClosed}
use guppylang.Cfg.Analysis.Chain.{
  Bits, IsMonotone, Chain, Chain-Moves, Chain-update, rank, rank-update-lt, rank_bound,
}
use guppylang.Cfg.Analysis.Lookup.{
  Holds, lookups-Holds, Holds-update, elem-pop_any, waiting, waiting-le-length, waiting-without-lt,
  rounds_fall, rounds_bound, is_empty-elem,
}

-- What a pass shows of its domain. `Local b t cur` says what the value `t` of block `b` owes to
-- the values of its successors, and `Kept` is an invariant of all the values.
pub record Pass (K : Type 0) ⦃e : Eq K⦄ {T : Type 0} (a : Analysis T) (links : ℕ → Links)
    (bbs : List ℕ) : Type 1 where
  pub bits : Bits T K
  pub Good : T → Type 0
  pub mono : IsMonotone bits Good a.eq (λ b ts. a.apply_bb (a.join ts) b)
  pub first_initial : (k : K) → bits.bit k a.initial ≡ bits.first k
  pub good_initial : Good a.initial
  pub good_step :
      (b : ℕ) (cs : List ℕ) (cur : ℕ → T)
      → elem b bbs ≡ true
      → ((c : ℕ) → Good (cur c))
      → Good (a.apply_bb (a.join (map cur cs)) b)
  pub Kept : (ℕ → T) → Type 0
  pub kept_initial : Kept (λ _. a.initial)
  pub kept_step :
      (cur : ℕ → T) (b : ℕ)
      → elem b bbs ≡ true
      → Kept cur
      → Kept (update cur b (a.apply_bb (a.join (map cur (all_successors a links b))) b))
  pub Local : ℕ → T → (ℕ → T) → Type 0
  pub local_step :
      (b : ℕ) (cur : ℕ → T)
      → Local b (a.apply_bb (a.join (map cur (all_successors a links b))) b) cur
  pub local_eq :
      (b : ℕ) (cur : ℕ → T) (old new : T) → a.eq old new ≡ true → Local b new cur → Local b old cur
  pub local_frame :
      (b : ℕ) (t : T) (cur cur' : ℕ → T)
      → ((c : ℕ) → elem c (links b).successors ≡ true → cur c ≡ cur' c)
      → Local b t cur
      → Local b t cur'

module _ {K : Type 0} ⦃e : Eq K⦄ {T : Type 0} (a : Analysis T) (links : ℕ → Links) (bbs : List ℕ)
    (choose : ℕ → List ℕ → ℕ) (p : Pass K a links bbs)
    (g : IsClosed bbs
      (all_successors a links)
      (λ c. (links c).successors)
      (λ c. (links c).predecessors)) where
  abbrev recomputed : (ℕ → T) → ℕ → T
  recomputed cur b = a.apply_bb (a.join (map cur (all_successors a links b))) b

  record Inv (m : ℕ) (s : BackwardState T) : Type 1 where
    cur : ℕ → T
    holds : Holds bbs s.vals_before cur
    chain : Chain p.bits (all_successors a links) cur
    good : (c : ℕ) → p.Good (cur c)
    kept : p.Kept cur
    queued : (c : ℕ) → elem c s.queue ≡ true → elem c bbs ≡ true
    settled : (c : ℕ) → elem c bbs ≡ true → elem c s.queue ≡ false → p.Local c (cur c) cur
    rounds : rank p.bits bbs cur * (length bbs + 1) + waiting bbs s.queue ≤ m

  -- A block that is no predecessor of `b` has successors other than `b`.
  unaffected :
      (cur : ℕ → T) (b : ℕ) (new : T) (c : ℕ)
      → elem c (links b).predecessors ≡ false
      → (x : ℕ) → elem x (links c).successors ≡ true
      → cur x ≡ update cur b new x
  unaffected cur b new c out x mx = elim (Bool-cases (x == b)) [
    | inl eq ↦
        let back : elem c (links b).predecessors ≡ true =
          rw (==→eq x b eq) at (g.mirrored c x mx) in
        cc
    | inr off ↦ rw off
  ]

  -- A round that finds the old value again.
  abbrev Round : ℕ → BackwardState T → BackwardState T → Type 1
  Round m s s' = (m' : ℕ) × Inv m' s' × (m' < m)

  module _ (m : ℕ) (s : BackwardState T) (h : Inv m s) (b : ℕ) (mb : elem b s.queue ≡ true) where
    same_value :
        a.eq (h.cur b) (recomputed h.cur b) ≡ true
        → Round m s (record s { queue = without b s.queue })
    same_value same = (
      rank p.bits bbs h.cur * (length bbs + 1) + waiting bbs (without b s.queue),
      record {
        cur = h.cur;
        holds = h.holds;
        chain = h.chain;
        good = h.good;
        kept = h.kept;
        queued = λ c q. h.queued c (ground (arith, elem-without c b s.queue));
        settled = λ c mc q. elim (Bool-cases (b == c)) [
          | inl eq ↦
              rw (← ==→eq b c eq)
                (p.local_eq b h.cur (h.cur b) (recomputed h.cur b) same (p.local_step b h.cur))
          | inr ne ↦ h.settled c mc (ground (arith, elem-without c b s.queue))
        ];
        rounds = omega arith;
      },
      omega (arith, h.rounds, waiting-without-lt b bbs s.queue (h.queued b mb) mb),
    )

    new_value :
        a.eq (h.cur b) (recomputed h.cur b) ≡ false
        → Round m s (record s {
          vals_before = update s.vals_before b (some (recomputed h.cur b));
          queue = update_with (links b).predecessors (without b s.queue);
        })
    new_value other =
        let new = recomputed h.cur b in
        let b_in = h.queued b mb in
        let (k, mk, ne) =
          p.mono.differs (h.cur b) new (h.good b)
            (p.good_step b (all_successors a links b) h.cur b_in h.good) other in
        let cur' = update h.cur b new in
        let queue' = update_with (links b).predecessors (without b s.queue) in
        let in_queue' = λ (c : ℕ). elem-update_with c (links b).predecessors (without b s.queue) in
        (
          rank p.bits bbs cur' * (length bbs + 1) + waiting bbs queue',
          record {
            cur = cur';
            holds = Holds-update bbs s.vals_before h.cur b new h.holds;
            chain = Chain-update p.bits (all_successors a links) p.mono h.cur h.chain b;
            good = λ c. elim (Bool-cases (c == b)) [
              | inl eq ↦ rw eq (p.good_step b (all_successors a links b) h.cur b_in h.good)
              | inr off ↦ rw off (h.good c)
            ];
            kept = p.kept_step h.cur b b_in h.kept;
            queued = λ c q.
                ground
                  (arith, in_queue' c, elem-without c b s.queue, h.queued c, g.back_in b c b_in);
            settled = λ c mc q.
                let out : elem c (links b).predecessors ≡ false = ground (arith, in_queue' c) in
                elim (Bool-cases (c == b)) [
                  | inl eq ↦
                      let c-eq = ==→eq c b eq in
                      rw eq (
                        subst (λ i. p.Local i new cur') (sym c-eq)
                          (p.local_frame b new h.cur cur'
                            (unaffected h.cur b new b (rw c-eq at out)) (p.local_step b h.cur)))
                  | inr off ↦ rw off (
                      p.local_frame c (h.cur c) h.cur cur' (unaffected h.cur b new c out)
                        (h.settled c mc (ground (arith, in_queue' c, elem-without c b s.queue))))
                ];
            rounds = omega arith;
          },
          rounds_fall (rank p.bits bbs h.cur) _ (waiting bbs s.queue) _ (length bbs) m
              (rank-update-lt p.bits h.cur b new
                (Chain-Moves p.bits (all_successors a links) p.mono h.cur h.chain b) bbs k b_in mk
                ne)
              (waiting-le-length bbs queue') h.rounds,
        )

  -- The step at the block that was popped.
  step-eq :
      (time m : ℕ) (s : BackwardState T) (h : Inv m s) (q : ℕ) (qs : List ℕ)
      → s.queue ≡ q ∷ qs
      → let b = pop_any (choose time) q qs in
        backward_step a links choose time s
        ≡ backward_update a links choose s b
            (some (h.cur b))
            (some (map h.cur (all_successors a links b)))
  unfolding backward_step
  step-eq time m s h q qs e =
      let b = pop_any (choose time) q qs in
      let b_in = h.queued b (rw e (elem-pop_any (choose time) q qs)) in
      let found =
        lookups-Holds bbs s.vals_before h.cur h.holds (all_successors a links b)
          (λ c mc. g.inputs_in b c b_in mc) in
      rw (e, h.holds b b_in, found)

  step-Progress :
      (time m : ℕ) (s : BackwardState T)
      → Inv m s
      → is_empty s.queue ≡ false
      → Progress (λ s. is_empty s.queue) (backward_step a links choose) Inv m time s
  unfolding backward_update
  step-Progress time m s h busy = elim (List-cases s.queue) [
    | inl e ↦ cc (ap is_empty e)
    | inr (q, qs, e) ↦
        let b = pop_any (choose time) q qs in
        let mb : elem b s.queue ≡ true = rw e (elem-pop_any (choose time) q qs) in
        elim (Bool-cases (a.eq (h.cur b) (recomputed h.cur b))) [
          | inl same ↦
              let (m', inv, lt) = same_value m s h b mb same in
              record {
                next = record s { queue = without b s.queue };
                left = m';
                steps = step-eq time m s h q qs e ∙ rw same;
                keeps = inv;
                falls = lt;
              }
          | inr other ↦
              let (m', inv, lt) = new_value m s h b mb other in
              record {
                next = record s {
                  vals_before = update s.vals_before b (some (recomputed h.cur b));
                  queue = update_with (links b).predecessors (without b s.queue);
                };
                left = m';
                steps = step-eq time m s h q qs e ∙ rw other;
                keeps = inv;
                falls = lt;
              }
        ]
  ]

  -- Enough fuel for any order of the queue.
  abbrev pub backward_fuel : ℕ
  backward_fuel = length bbs * length p.bits.keys * (length bbs + 1) + length bbs

  -- What a finished run promises.
  pub record Settled : Type 1 where
    pub vals : ℕ → Option T
    pub cur : ℕ → T
    pub holds : Holds bbs vals cur
    pub kept : p.Kept cur
    pub settled : (b : ℕ) → elem b bbs ≡ true → p.Local b (cur b) cur

  start : BackwardState T
  start = record { vals_before = tabulate (λ _. a.initial) bbs; queue = update_with bbs [] }

  rounds_at_start : ℕ
  rounds_at_start =
      rank p.bits bbs (λ _. a.initial) * (length bbs + 1) + waiting bbs (update_with bbs [])

  start-Inv : Inv rounds_at_start start
  unfolding start rounds_at_start
  start-Inv = record {
    cur = λ _. a.initial;
    holds = λ b m. rw m;
    chain = λ c k. rw (p.first_initial k) (ground arith);
    good = λ c. p.good_initial;
    kept = p.kept_initial;
    queued = λ c q. ground (arith, elem-update_with c bbs []);
    settled = λ c mc q. let clash : true ≡ false = ground (arith, elem-update_with c bbs []) in cc;
    rounds = omega arith;
  }

  start-bound : rounds_at_start ≤ backward_fuel
  unfolding rounds_at_start
  start-bound =
      rounds_bound (rank p.bits bbs (λ _. a.initial)) (length bbs) (length p.bits.keys) _
        (rank_bound p.bits bbs (λ _. a.initial)) (waiting-le-length bbs (update_with bbs []))

  pub backward_total :
      (fuel : ℕ)
      → backward_fuel ≤ fuel
      → (r : Settled) × (run_backward a links choose fuel bbs ≡ done r.vals)
  unfolding run_backward start
  backward_total fuel le =
      let r =
        work_loop_total (λ s. is_empty s.queue) (backward_step a links choose) Inv step-Progress
          fuel rounds_at_start start (omega (arith, start-bound)) start-Inv in
      let inv = r.keeps in
      let idle = λ (c : ℕ). is_empty-elem r.final.queue c r.stops in
      (
        record {
          vals = r.final.vals_before;
          cur = inv.cur;
          holds = inv.holds;
          kept = inv.kept;
          settled = λ b mb. inv.settled b mb (idle b);
        },
        rw (r.ends, run_backward),
      )
