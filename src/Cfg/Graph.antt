-- ===== src/Cfg/Graph.antt =====
-- The control-flow part of cfg/bb.py and cfg/cfg.py. A basic block is an object with identity: it
-- is named by its `idx`, the length of `cfg.bbs` when it was made, and `links` is the heap that
-- holds the lists and the flag of each block.
pub mod WellLinked
pub mod NewBlock
use guppylang.Common.{
  ℕ, ◌+◌, ◌≡◌, Bool, true, false, List, [], ◌∷◌, ◌++◌, length, ◌==◌, if◌then◌else◌,
}

-- The fields of a `BB` that say how it is linked.
pub record Links : Type 0 where
  pub predecessors : List ℕ
  pub successors : List ℕ
  pub dummy_predecessors : List ℕ
  pub dummy_successors : List ℕ
  pub reachable : Bool

pub record Graph : Type 0 where
  pub bbs : List ℕ
  pub links : ℕ → Links
  pub entry_bb : ℕ
  pub exit_bb : ℕ

-- The heap with one cell written.
abbrev pub update {ℓ} : {A : Type ℓ} → (ℕ → A) → ℕ → A → ℕ → A
update f i a j = if j == i then a else f j

abbrev pub no_links : Links
no_links = record {
  predecessors = [];
  successors = [];
  dummy_predecessors = [];
  dummy_successors = [];
  reachable = false;
}

-- `for p in preds: p.successors.append(bb)`
unfoldable pub append_successor : List ℕ → ℕ → (ℕ → Links) → ℕ → Links
append_successor [] b links = links
append_successor (p ∷ preds) b links =
    append_successor preds b
      (update links p (record (links p) { successors = (links p).successors ++ b ∷ [] }))

-- The new block and the graph with it.
unfoldable pub new_bb : List ℕ → Graph → ℕ × Graph
new_bb preds g =
    let b = length g.bbs in
    (
      b,
      record g {
        bbs = g.bbs ++ b ∷ [];
        links =
            append_successor preds b (update g.links b (record no_links { predecessors = preds }));
      },
    )

unfoldable pub link : ℕ → ℕ → Graph → Graph
link src tgt g =
    let links =
      update g.links src
        (record (g.links src) { successors = (g.links src).successors ++ tgt ∷ [] }) in
    record g {
      links =
          update links tgt
            (record (links tgt) { predecessors = (links tgt).predecessors ++ src ∷ [] });
    }

unfoldable pub dummy_link : ℕ → ℕ → Graph → Graph
dummy_link src tgt g =
    let links =
      update g.links src
        (record (g.links src) { dummy_successors = (g.links src).dummy_successors ++ tgt ∷ [] }) in
    record g {
      links =
          update links tgt (record (links tgt) {
            dummy_predecessors = (links tgt).dummy_predecessors ++ src ∷ [];
          });
    }

-- `CFG()`: the entry and the exit block.
unfoldable pub new_cfg : Graph
unfolding new_bb append_successor
new_cfg =
    let (entry, g) =
      new_bb [] (record { bbs = []; links = λ _. no_links; entry_bb = 0; exit_bb = 0 }) in
    let (exit, g') = new_bb [] g in record g' { entry_bb = entry; exit_bb = exit }
