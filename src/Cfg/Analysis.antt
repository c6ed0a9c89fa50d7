-- ===== src/Cfg/Analysis.antt =====
-- guppylang-internals/src/guppylang_internals/cfg/analysis.py: the worklist loops of a backward and of a forward analysis over any domain.
-- `queue.pop()` takes an arbitrary element of a set: `choose` stands for that choice and may
-- depend on the round and on the queue.
pub mod Chain
pub mod Lookup
pub mod Closed
pub mod Backward
pub mod Forward
use guppylang.Common.{
  ℕ, Bool, true, false, Option, none, some, List, [], ◌∷◌, ◌++◌, get_or, filter, if◌then◌else◌,
  nat_eq,
}
use guppylang.Common.Sets.{elem, without, update_with}
use guppylang.Common.Loop.{Outcome, work_loop, map_outcome}
use guppylang.Cfg.Graph.{Links, update}

-- The methods that a concrete pass implements.
pub record Analysis {ℓ} (T : Type ℓ) : Type ℓ where
  pub eq : T → T → Bool
  pub include_unreachable : Bool
  pub initial : T
  pub join : List T → T
  pub apply_bb : T → ℕ → T

-- The values of a dict over blocks at a list of keys; `none` is a `KeyError`.
unfoldable pub lookups {ℓ} : {T : Type ℓ} → (ℕ → Option T) → List ℕ → Option (List T)
lookups vals [] = some []
lookups vals (b ∷ bs) =
    let rest = lookups vals bs in
    elim (vals b) [ none ↦ none | some t ↦ elim rest [ none ↦ none | some ts ↦ some (t ∷ ts) ] ]

-- `{bb: f(bb) for bb in bbs}`
abbrev pub tabulate {ℓ} : {T : Type ℓ} → (ℕ → T) → List ℕ → ℕ → Option T
tabulate f bbs b = if elem b bbs then some (f b) else none

-- `queue.pop()`: the element at the chosen position of the queue `q ∷ qs`.
abbrev pub pop_any : (List ℕ → ℕ) → ℕ → List ℕ → ℕ
pop_any choose q qs = get_or (q ∷ qs) (choose (q ∷ qs)) q

abbrev pub is_empty : List ℕ → Bool
is_empty [] = true
is_empty (_ ∷ _) = false

pub record BackwardState {ℓ} (T : Type ℓ) : Type ℓ where
  pub vals_before : ℕ → Option T
  pub queue : List ℕ

pub record ForwardState {ℓ} (T : Type ℓ) : Type ℓ where
  pub vals_before : ℕ → Option T
  pub vals_after : ℕ → Option T
  pub queue : List ℕ

module _ {ℓ} {T : Type ℓ} (a : Analysis T) (links : ℕ → Links) where
  abbrev pub all_successors : ℕ → List ℕ
  all_successors b =
      if a.include_unreachable
      then (links b).successors ++ (links b).dummy_successors
      else (links b).successors

  abbrev pub all_predecessors : ℕ → List ℕ
  all_predecessors b =
      if a.include_unreachable
      then (links b).predecessors ++ (links b).dummy_predecessors
      else (links b).predecessors

  -- The blocks that a forward run looks at.
  abbrev pub visited : List ℕ → List ℕ
  visited bbs = if a.include_unreachable then bbs else filter (λ b. (links b).reachable) bbs

module _ {ℓ} {T : Type ℓ} (a : Analysis T) (links : ℕ → Links) (choose : ℕ → List ℕ → ℕ) where
  -- The body of the loop after `bb` was popped, with the values that it looks up.
  unfoldable pub backward_update :
      BackwardState T → ℕ → Option T → Option (List T) → Option (BackwardState T)
  backward_update s bb none ts = none
  backward_update s bb (some old) none = none
  backward_update s bb (some old) (some ts) =
      let val_before = a.apply_bb (a.join ts) bb in
      let rest = without bb s.queue in
      if a.eq old val_before
      then some (record s { queue = rest })
      else some (record s {
        vals_before = update s.vals_before bb (some val_before);
        queue = update_with (links bb).predecessors rest;
      })

  unfoldable pub backward_step : ℕ → BackwardState T → Option (BackwardState T)
  backward_step time s = elim s.queue [
    | [] ↦ some s
    | q ∷ qs ↦
        let bb = pop_any (choose time) q qs in
        backward_update s bb (s.vals_before bb) (lookups s.vals_before (all_successors a links bb))
  ]

  unfoldable pub run_backward : ℕ → List ℕ → Outcome (ℕ → Option T)
  run_backward fuel bbs =
      let start : BackwardState T = record {
        vals_before = tabulate (λ _. a.initial) bbs;
        queue = update_with bbs [];
      } in
      map_outcome (λ s. s.vals_before) (work_loop (λ s. is_empty s.queue) backward_step fuel start)

  unfoldable pub forward_update :
      ForwardState T → ℕ → Option T → Option (List T) → Option (ForwardState T)
  forward_update s bb none ts = none
  forward_update s bb (some old) none = none
  forward_update s bb (some old) (some ts) =
      let before = update s.vals_before bb (some (a.join ts)) in
      let val_after = a.apply_bb (a.join ts) bb in
      let rest = without bb s.queue in
      if a.eq val_after old
      then some (record s { vals_before = before; queue = rest })
      else some (record {
        vals_before = before;
        vals_after = update s.vals_after bb (some val_after);
        queue = update_with (links bb).successors rest;
      })

  unfoldable pub forward_step : ℕ → ForwardState T → Option (ForwardState T)
  forward_step time s = elim s.queue [
    | [] ↦ some s
    | q ∷ qs ↦
        let bb = pop_any (choose time) q qs in
        forward_update s bb (s.vals_after bb) (lookups s.vals_after (all_predecessors a links bb))
  ]

  unfoldable pub run_forward : ℕ → List ℕ → Outcome (ℕ → Option T)
  run_forward fuel all_bbs =
      let bbs = visited a links all_bbs in
      let start : ForwardState T = record {
        vals_before = tabulate (λ _. a.initial) bbs;
        vals_after = tabulate (λ b. a.apply_bb a.initial b) bbs;
        queue = update_with bbs [];
      } in
      map_outcome (λ s. s.vals_before) (work_loop (λ s. is_empty s.queue) forward_step fuel start)
