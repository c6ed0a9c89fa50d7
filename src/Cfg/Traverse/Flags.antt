-- ===== src/Cfg/Traverse/Flags.antt =====
-- `update_reachable` flags the blocks that a path from the entry reaches.
use guppylang.Common.{
  ℕ, ◌+◌, ◌<◌, ◌≤◌, ◌≡◌, refl, ap, ◌∙◌, ◌↔◌, Bool, Bool-cases, true, false, not, ◌&&◌, ◌||◌, List,
  List-cases, [], ◌∷◌, inl, inr, nat_eq, ◌==◌, ==→eq, length, arith,
}
use guppylang.Common.Sets.{elem, without, elem-without, update_with, elem-update_with}
use guppylang.Common.Loop.{done, Progress, work_loop_total}
use guppylang.Cfg.Graph.{Links, Graph, update}
use guppylang.Cfg.Analysis.{pop_any, is_empty}
use guppylang.Cfg.Analysis.Lookup.{elem-pop_any}
use guppylang.Cfg.Traverse.{ReachState, reach_step, update_reachable}
use guppylang.Cfg.Traverse.Reaches.{Reaches, start, follow}
use guppylang.Cfg.Traverse.Weight.{
  weight, weight_le, weight_falls, length-update_with, length-without,
}

-- The links of a block apart from its flag.
abbrev pub unflagged : Links → Links
unflagged l = record l { reachable = false }

module _ (choose : ℕ → List ℕ → ℕ) (g : Graph)
    (inside : (b c : ℕ)
      → elem b g.bbs ≡ true
      → elem c (g.links b).successors ≡ true
      → elem c g.bbs ≡ true) where
  abbrev next : ℕ → List ℕ
  next b = (g.links b).successors

  abbrev FromEntry : ℕ → Type 0
  FromEntry = Reaches next (g.entry_bb ∷ [])

  abbrev flag : ReachState → ℕ → Bool
  flag s b = (s.links b).reachable

  record Inv (m : ℕ) (s : ReachState) : Type 0 where
    known : (x : ℕ) → elem x s.queue ≡ true → elem x g.bbs ≡ true
    paths : (x : ℕ) → elem x s.queue ≡ true → FromEntry x
    sound : (x : ℕ) → flag s x ≡ true → FromEntry x
    closed :
        (b x : ℕ) → flag s b ≡ true → elem x (next b) ≡ true → (flag s x || elem x s.queue) ≡ true
    entry : (flag s g.entry_bb || elem g.entry_bb s.queue) ≡ true
    frame : (b : ℕ) → unflagged (s.links b) ≡ unflagged (g.links b)
    size : m ≡ length s.queue + weight next (flag s) g.bbs

  module _ (time m : ℕ) (s : ReachState) (v : Inv m s) (q : ℕ) (qs : List ℕ)
      (at : s.queue ≡ q ∷ qs) where
    abbrev bb : ℕ
    bb = pop_any (choose time) q qs

    abbrev rest : List ℕ
    rest = without bb (q ∷ qs)

    taken : elem bb s.queue ≡ true
    taken = rw at (elem-pop_any (choose time) q qs)

    shorter : length rest < length s.queue
    shorter = rw at (length-without bb (q ∷ qs) (elem-pop_any (choose time) q qs))

    elem-rest : (x : ℕ) → elem x rest ≡ (elem x s.queue && not (bb == x))
    elem-rest x = rw at (elem-without x bb (q ∷ qs))

    old_block : flag s bb ≡ true → Progress (λ s. is_empty s.queue) (reach_step choose) Inv m time s
    unfolding reach_step
    old_block flagged = record {
      next = record s { queue = rest };
      left = length rest + weight next (flag s) g.bbs;
      steps = rw (at, flagged) refl;
      keeps = record {
        known = λ x i. v.known x (ground (arith, elem-rest x));
        paths = λ x i. v.paths x (ground (arith, elem-rest x));
        sound = v.sound;
        closed = λ b x f l. ground (arith, v.closed b x f l, elem-rest x, flagged);
        entry = ground (arith, v.entry, elem-rest g.entry_bb, flagged);
        frame = v.frame;
        size = refl;
      };
      falls = omega (arith, v.size, shorter);
    }

    abbrev marked : ℕ → Links
    marked = update s.links bb (record (s.links bb) { reachable = true })

    flag-marked : (x : ℕ) → (marked x).reachable ≡ (x == bb || flag s x)
    flag-marked x = elim (Bool-cases (x == bb)) [
      | inl same ↦ rw same refl
      | inr other ↦ rw other refl
    ]

    same_links : (s.links bb).successors ≡ next bb
    same_links = ap (λ l. l.successors) (v.frame bb)

    abbrev queued : List ℕ
    queued = update_with (s.links bb).successors rest

    elem-queued : (x : ℕ) → elem x queued ≡ (elem x (next bb) || (elem x s.queue && not (bb == x)))
    elem-queued x =
        elem-update_with x (s.links bb).successors rest ∙ rw (same_links, elem-rest x) refl

    new_block :
        flag s bb ≡ false → Progress (λ s. is_empty s.queue) (reach_step choose) Inv m time s
    unfolding reach_step
    new_block off =
        let known_bb = v.known bb taken in
        let path = v.paths bb taken in
        record {
          next = record { links = marked; queue = queued };
          left = length queued + weight next (λ c. (marked c).reachable) g.bbs;
          steps = rw (at, off) refl;
          keeps = record {
            known = λ x i. elim (Bool-cases (elem x (next bb))) [
              | inl link ↦ inside bb x known_bb link
              | inr none_there ↦ v.known x (ground (arith, elem-queued x))
            ];
            paths = λ x i. elim (Bool-cases (elem x (next bb))) [
              | inl link ↦ follow path link
              | inr none_there ↦ v.paths x (ground (arith, elem-queued x))
            ];
            sound = λ x f. elim (Bool-cases (x == bb)) [
              | inl same ↦ rw (==→eq x bb same) path
              | inr other ↦ v.sound x (ground (arith, flag-marked x))
            ];
            closed = λ b x f l. elim (Bool-cases (b == bb)) [
              | inl same ↦
                  let l' : elem x (next bb) ≡ true = rw (==→eq b bb same) at l in
                  ground (arith, flag-marked x, elem-queued x)
              | inr other ↦
                  ground (arith, flag-marked x, flag-marked b, elem-queued x, v.closed b x)
            ];
            entry = ground (arith, v.entry, flag-marked g.entry_bb, elem-queued g.entry_bb);
            frame = λ b. elim (Bool-cases (b == bb)) [
              | inl same ↦ rw same (rw (==→eq b bb same) (v.frame bb))
              | inr other ↦ rw other (v.frame b)
            ];
            size = refl;
          };
          falls =
              let fall =
                weight_falls next (flag s) (λ c. (marked c).reachable) bb g.bbs
                  (λ c f. ground (arith, flag-marked c)) off (ground (arith, flag-marked bb))
                  known_bb in
              omega (
                arith,
                v.size,
                shorter,
                fall,
                length-update_with (s.links bb).successors rest,
                ap length same_links,
              );
        }

  round :
      (time m : ℕ) (s : ReachState)
      → Inv m s
      → is_empty s.queue ≡ false
      → Progress (λ s. is_empty s.queue) (reach_step choose) Inv m time s
  round time m s v some_left = elim (List-cases s.queue) [
    | inl none_left ↦ let clash : true ≡ false = rw none_left at some_left in absurd (ground arith)
    | inr (q, qs, at) ↦ elim (Bool-cases (flag s (pop_any (choose time) q qs))) [
      | inl old ↦ old_block time m s v q qs at old
      | inr new ↦ new_block time m s v q qs at new
    ]
  ]

  reached :
      (s : ReachState) (m : ℕ) → Inv m s → s.queue ≡ [] → {x : ℕ} → FromEntry x → flag s x ≡ true
  reached s m v idle (start {b} i) =
      let none_queued : elem b s.queue ≡ false = rw idle refl in
      let at_entry : b ≡ g.entry_bb = ground arith in rw at_entry (ground (arith, v.entry))
  reached s m v idle (follow {b} {c} path l) =
      let none_queued : elem c s.queue ≡ false = rw idle refl in
      ground (arith, v.closed b c (reached s m v idle path) l)

  no_queue : (queue : List ℕ) → is_empty queue ≡ true → queue ≡ []
  no_queue [] h = refl
  no_queue (q ∷ queue) h = cc

  -- On a graph without flags whose links stay among its blocks, `update_reachable` ends for every
  -- order of the queue, flags exactly the blocks that a path of successors from the entry reaches,
  -- and changes nothing else of a block.
  pub update_reachable_lem :
      (fuel : ℕ)
      → 1 + weight next (λ _. false) g.bbs ≤ fuel
      → elem g.entry_bb g.bbs ≡ true
      → ((b : ℕ) → (g.links b).reachable ≡ false)
      → (g' : Graph) × (update_reachable choose fuel g ≡ done g')
        × ((b : ℕ) → ((g'.links b).reachable ≡ true) ↔ FromEntry b)
        × ((b : ℕ) → unflagged (g'.links b) ≡ unflagged (g.links b))
  unfolding update_reachable
  update_reachable_lem fuel enough known_entry clean =
      let start_state : ReachState = record { links = g.links; queue = g.entry_bb ∷ [] } in
      let first : Inv (1 + weight next (flag start_state) g.bbs) start_state = record {
        known = λ x i. elim (Bool-cases (x == g.entry_bb)) [
          | inl same ↦ rw (==→eq x g.entry_bb same) known_entry
          | inr other ↦ absurd (ground arith)
        ];
        paths = λ x i. start i;
        sound = λ x f. absurd (ground (arith, clean x));
        closed = λ b x f l. absurd (ground (arith, clean b));
        entry = ground arith;
        frame = λ b. refl;
        size = refl;
      } in
      let r =
        work_loop_total (λ s. is_empty s.queue) (reach_step choose) Inv round fuel
          (1 + weight next (flag start_state) g.bbs) start_state
          (omega (
            arith,
            weight_le next (λ _. false) (flag start_state) g.bbs (λ c m. absurd (ground arith)),
          ))
          first in
      (
        record g { links = r.final.links },
        rw r.ends refl,
        λ b. (r.keeps.sound b, λ path. reached r.final r.left r.keeps (no_queue _ r.stops) path),
        r.keeps.frame,
      )
