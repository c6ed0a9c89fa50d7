-- ===== src/Cfg/Graph/WellLinked.antt =====
-- The invariant of a graph under construction, and that every operation keeps it.
use guppylang.Common.{
  ℕ, ◌+◌, ◌≡◌, refl, true, List, [], ◌∷◌, ◌++◌, length, arith, ◌==◌, if◌then◌else◌, Bool-cases, inl,
  inr, nat_eq, ltb, ==→eq,
}
use guppylang.Common.Sets.{elem, elem-append, count, count-append}
use guppylang.Cfg.Graph.{Links, Graph, update, append_successor, link, dummy_link}

-- The blocks are numbered in the order of their making, links stay among them, and each link is
-- in the list of its source as often as in that of its target.
pub record IsWellLinked (g : Graph) : Type 0 where
  pub numbered : (b : ℕ) → elem b g.bbs ≡ ltb b (length g.bbs)
  pub succ_in : (b x : ℕ) → elem x (g.links b).successors ≡ true → elem x g.bbs ≡ true
  pub pred_in : (b x : ℕ) → elem x (g.links b).predecessors ≡ true → elem x g.bbs ≡ true
  pub dummy_succ_in : (b x : ℕ) → elem x (g.links b).dummy_successors ≡ true → elem x g.bbs ≡ true
  pub dummy_pred_in : (b x : ℕ) → elem x (g.links b).dummy_predecessors ≡ true → elem x g.bbs ≡ true
  pub mirror : (b x : ℕ) → count x (g.links b).successors ≡ count b (g.links x).predecessors
  pub dummy_mirror :
      (b x : ℕ) → count x (g.links b).dummy_successors ≡ count b (g.links x).dummy_predecessors

link_in :
    (bbs xs : List ℕ) (t x : ℕ)
    → elem t bbs ≡ true
    → (elem x xs ≡ true → elem x bbs ≡ true)
    → elem x (xs ++ t ∷ []) ≡ true
    → elem x bbs ≡ true
link_in bbs xs t x mt h m = elim (Bool-cases (x == t)) [
  | inl same ↦ rw (==→eq x t same) mt
  | inr other ↦ h (ground (arith, elem-append x xs (t ∷ [])))
]

-- A link between blocks of a well linked graph keeps it well linked.
pub link-IsWellLinked :
    (src tgt : ℕ) (g : Graph)
    → elem src g.bbs ≡ true
    → elem tgt g.bbs ≡ true
    → IsWellLinked g
    → IsWellLinked (link src tgt g)
unfolding link
link-IsWellLinked src tgt g ms mt h = record {
  numbered = h.numbered;
  succ_in = λ b x m.
      let of_src = link_in g.bbs (g.links src).successors tgt x mt (h.succ_in src x) in
      ground (arith, h.succ_in b x);
  pred_in = λ b x m.
      let of_tgt = link_in g.bbs (g.links tgt).predecessors src x ms (h.pred_in tgt x) in
      ground (arith, h.pred_in b x);
  dummy_succ_in = λ b x m. h.dummy_succ_in b x (ground arith);
  dummy_pred_in = λ b x m. h.dummy_pred_in b x (ground arith);
  mirror = λ b x. ground (
    arith,
    h.mirror b x,
    count-append x (g.links src).successors (tgt ∷ []),
    count-append b (g.links tgt).predecessors (src ∷ []),
  );
  dummy_mirror = λ b x. ground (arith, h.dummy_mirror b x);
}

-- A dummy link between blocks of a well linked graph keeps it well linked.
pub dummy_link-IsWellLinked :
    (src tgt : ℕ) (g : Graph)
    → elem src g.bbs ≡ true
    → elem tgt g.bbs ≡ true
    → IsWellLinked g
    → IsWellLinked (dummy_link src tgt g)
unfolding dummy_link
dummy_link-IsWellLinked src tgt g ms mt h = record {
  numbered = h.numbered;
  succ_in = λ b x m. h.succ_in b x (ground arith);
  pred_in = λ b x m. h.pred_in b x (ground arith);
  dummy_succ_in = λ b x m.
      let of_src = link_in g.bbs (g.links src).dummy_successors tgt x mt (h.dummy_succ_in src x) in
      ground (arith, h.dummy_succ_in b x);
  dummy_pred_in = λ b x m.
      let of_tgt =
        link_in g.bbs (g.links tgt).dummy_predecessors src x ms (h.dummy_pred_in tgt x) in
      ground (arith, h.dummy_pred_in b x);
  mirror = λ b x. ground (arith, h.mirror b x);
  dummy_mirror = λ b x. ground (
    arith,
    h.dummy_mirror b x,
    count-append x (g.links src).dummy_successors (tgt ∷ []),
    count-append b (g.links tgt).dummy_predecessors (src ∷ []),
  );
}

-- What `append_successor` leaves alone, and what it adds.
module _ (b : ℕ) where
  pub record Appends (preds : List ℕ) (links links' : ℕ → Links) (p : ℕ) : Type 0 where
    pub same_predecessors : (links' p).predecessors ≡ (links p).predecessors
    pub same_dummy_predecessors : (links' p).dummy_predecessors ≡ (links p).dummy_predecessors
    pub same_dummy_successors : (links' p).dummy_successors ≡ (links p).dummy_successors
    pub more :
        (x : ℕ)
        → count x (links' p).successors
          ≡ count x (links p).successors + (if x == b then count p preds else 0)

  pub append_successor-Appends :
      (preds : List ℕ) (links : ℕ → Links) (p : ℕ)
      → Appends preds links (append_successor preds b links) p
  unfolding append_successor
  append_successor-Appends [] links p = record {
    same_predecessors = refl;
    same_dummy_predecessors = refl;
    same_dummy_successors = refl;
    more = λ x. ground arith;
  }
  append_successor-Appends (q ∷ preds) links p =
      let links1 : ℕ → Links =
        update links q (record (links q) { successors = (links q).successors ++ b ∷ [] }) in
      let r = append_successor-Appends preds links1 p in
      record {
        same_predecessors = ground (arith, r.same_predecessors);
        same_dummy_predecessors = ground (arith, r.same_dummy_predecessors);
        same_dummy_successors = ground (arith, r.same_dummy_successors);
        more = λ x. ground (arith, r.more x, count-append x (links q).successors (b ∷ []));
      }
