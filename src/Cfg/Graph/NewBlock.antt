-- ===== src/Cfg/Graph/NewBlock.antt =====
-- A new block keeps the invariant, and a graph that is well linked is closed for both analyses.
use guppylang.Common.{
  ℕ, ◌≡◌, refl, Bool, true, false, List, [], ◌∷◌, ◌++◌, length, arith, if◌then◌else◌, nat_eq,
  length-append,
}
use guppylang.Common.Sets.{elem, elem-append, count, elem-count, is_subset, all-elem}
use guppylang.Cfg.Graph.{Links, Graph, update, no_links, append_successor, new_bb, new_cfg}
use guppylang.Cfg.Graph.WellLinked.{IsWellLinked, Appends, append_successor-Appends}
use guppylang.Cfg.Analysis.Closed.{IsClosed}

-- A block that is in no list of blocks is in no list of links.
not_counted :
    (bbs xs : List ℕ) (b : ℕ)
    → elem b bbs ≡ false
    → (elem b xs ≡ true → elem b bbs ≡ true)
    → count b xs ≡ 0
not_counted bbs xs b out h = ground (arith, elem-count b xs)

module _ (preds : List ℕ) (g : Graph) (known : is_subset preds g.bbs ≡ true)
    (h : IsWellLinked g) where
  abbrev b : ℕ
  b = length g.bbs

  abbrev before : ℕ → Links
  before = update g.links b (record no_links { predecessors = preds })

  abbrev after : ℕ → Links
  after = append_successor preds b before

  appended : (p : ℕ) → Appends b preds before after p
  appended p = append_successor-Appends b preds before p

  b-new : elem b g.bbs ≡ false
  b-new = ground (arith, h.numbered b)

  preds-old : (p : ℕ) → elem p preds ≡ true → elem p g.bbs ≡ true
  preds-old p m = all-elem (λ x. elem x g.bbs) preds p known m

  in_new : (x : ℕ) → elem x g.bbs ≡ true → elem x (g.bbs ++ b ∷ []) ≡ true
  in_new x m = ground (arith, elem-append x g.bbs (b ∷ []))

  new_bb-mirror : (c x : ℕ) → count x (after c).successors ≡ count c (after x).predecessors
  new_bb-mirror c x = ground (
    arith,
    (appended c).more x,
    (appended x).same_predecessors,
    h.mirror c x,
    not_counted g.bbs (g.links c).successors b b-new (h.succ_in c b),
    not_counted g.bbs (g.links x).predecessors b b-new (h.pred_in x b),
    not_counted g.bbs preds b b-new (preds-old b),
  )

  new_bb-IsWellLinked : IsWellLinked (new_bb preds g).1
  unfolding new_bb
  new_bb-IsWellLinked = record {
    numbered = λ x.
        ground (arith, h.numbered x, elem-append x g.bbs (b ∷ []), length-append g.bbs (b ∷ []));
    succ_in = λ c x m. ground (
      arith,
      elem-count x (after c).successors,
      elem-count x (g.links c).successors,
      (appended c).more x,
      h.succ_in c x,
      elem-append x g.bbs (b ∷ []),
    );
    pred_in = λ c x m.
        in_new x (ground (arith, (appended c).same_predecessors, h.pred_in c x, preds-old x));
    dummy_succ_in =
        λ c x m. in_new x (ground (arith, (appended c).same_dummy_successors, h.dummy_succ_in c x));
    dummy_pred_in = λ c x m.
        in_new x (ground (arith, (appended c).same_dummy_predecessors, h.dummy_pred_in c x));
    mirror = new_bb-mirror;
    dummy_mirror = λ c x. ground (
      arith,
      (appended c).same_dummy_successors,
      (appended x).same_dummy_predecessors,
      h.dummy_mirror c x,
      not_counted g.bbs (g.links c).dummy_successors b b-new (h.dummy_succ_in c b),
      not_counted g.bbs (g.links x).dummy_predecessors b b-new (h.dummy_pred_in x b),
    );
  }

-- A new block after blocks of a well linked graph keeps it well linked, is one of its blocks, and
-- was not a block before.
pub new_bb_lem :
    (preds : List ℕ) (g : Graph)
    → is_subset preds g.bbs ≡ true
    → IsWellLinked g
    → IsWellLinked (new_bb preds g).1
      × (elem (new_bb preds g).0 (new_bb preds g).1.bbs ≡ true)
      × (elem (new_bb preds g).0 g.bbs ≡ false)
unfolding new_bb
new_bb_lem preds g known h = (
  new_bb-IsWellLinked preds g known h,
  ground (arith, elem-append (length g.bbs) g.bbs (length g.bbs ∷ [])),
  b-new preds g known h,
)

abbrev no_blocks : Graph
no_blocks = record { bbs = []; links = λ _. no_links; entry_bb = 0; exit_bb = 0 }

no_blocks-IsWellLinked : IsWellLinked no_blocks
no_blocks-IsWellLinked = record {
  numbered = λ b. ground arith;
  succ_in = λ b x m. cc;
  pred_in = λ b x m. cc;
  dummy_succ_in = λ b x m. cc;
  dummy_pred_in = λ b x m. cc;
  mirror = λ b x. refl;
  dummy_mirror = λ b x. refl;
}

-- A record of another entry and exit.
with_ends :
    (g : Graph) (entry exit : ℕ)
    → IsWellLinked g
    → IsWellLinked (record g { entry_bb = entry; exit_bb = exit })
with_ends g entry exit h = record {
  numbered = h.numbered;
  succ_in = h.succ_in;
  pred_in = h.pred_in;
  dummy_succ_in = h.dummy_succ_in;
  dummy_pred_in = h.dummy_pred_in;
  mirror = h.mirror;
  dummy_mirror = h.dummy_mirror;
}

pub new_cfg-IsWellLinked : IsWellLinked new_cfg
unfolding new_cfg
new_cfg-IsWellLinked =
    let one = new_bb_lem [] no_blocks refl no_blocks-IsWellLinked in
    let two = new_bb_lem [] (new_bb [] no_blocks).1 refl one.0 in
    with_ends (new_bb [] (new_bb [] no_blocks).1).1 0 1 two.0

-- The lists of links that an analysis joins, with or without dummy links.
module _ (g : Graph) (h : IsWellLinked g) (dummies : Bool) where
  pub IsClosed-backward :
      IsClosed g.bbs
        (λ c.
          if dummies
          then (g.links c).successors ++ (g.links c).dummy_successors
          else (g.links c).successors)
        (λ c. (g.links c).successors)
        (λ c. (g.links c).predecessors)
  IsClosed-backward = record {
    inputs_in = λ c x _ m. ground (
      arith,
      elem-append x (g.links c).successors (g.links c).dummy_successors,
      h.succ_in c x,
      h.dummy_succ_in c x,
    );
    back_in = λ c x _ m. h.pred_in c x m;
    mirrored = λ c x m. ground (
      arith,
      elem-count x (g.links c).successors,
      elem-count c (g.links x).predecessors,
      h.mirror c x,
    );
  }

  pub IsClosed-forward :
      IsClosed g.bbs
        (λ c.
          if dummies
          then (g.links c).predecessors ++ (g.links c).dummy_predecessors
          else (g.links c).predecessors)
        (λ c. (g.links c).predecessors)
        (λ c. (g.links c).successors)
  IsClosed-forward = record {
    inputs_in = λ c x _ m. ground (
      arith,
      elem-append x (g.links c).predecessors (g.links c).dummy_predecessors,
      h.pred_in c x,
      h.dummy_pred_in c x,
    );
    back_in = λ c x _ m. h.succ_in c x m;
    mirrored = λ c x m. ground (
      arith,
      elem-count c (g.links x).successors,
      elem-count x (g.links c).predecessors,
      h.mirror x c,
    );
  }
