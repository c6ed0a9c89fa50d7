-- ===== src/Cfg/Samples/Walks.antt =====
-- Traversals of the loop.
use guppylang.Common.{ℕ, ◌≤◌, ◌≡◌, ◌↔◌, refl, true, some, List, [], ◌∷◌, nat_eq, arith}
use guppylang.Common.Sets.{elem, count}
use guppylang.Common.Loop.{done}
use guppylang.Cfg.Graph.{Graph, append_successor, new_bb, link, new_cfg}
use guppylang.Cfg.Traverse.{breadth_first, successors, update_reachable}
use guppylang.Cfg.Traverse.Reaches.{Reaches}
use guppylang.Cfg.Traverse.Bfs.{breadth_first_lem}
use guppylang.Cfg.Traverse.Flags.{unflagged, update_reachable_lem}
use guppylang.Cfg.Samples.{loop_graph, loop_graph-IsWellLinked, first_of_queue}

from_body : successors loop_graph 20 (3 ∷ []) ≡ some (3 ∷ 2 ∷ 4 ∷ 1 ∷ [])
unfolding breadth_first link new_bb append_successor new_cfg
from_body = refl

breadth_first_lem_example :
    (res : List ℕ) × (successors loop_graph 20 (3 ∷ []) ≡ some res)
    × ((x : ℕ) → count x res ≤ 1)
    × ((x : ℕ) → (elem x res ≡ true) ↔ Reaches (λ b. (loop_graph.links b).successors) (3 ∷ []) x)
unfolding link new_bb append_successor new_cfg
breadth_first_lem_example =
    breadth_first_lem (λ b. (loop_graph.links b).successors) loop_graph.bbs
      (λ b c _ m. loop_graph-IsWellLinked.succ_in b c m) (3 ∷ []) 20 (ground arith)
      (λ x m. ground arith)

update_reachable_lem_example :
    (g' : Graph) × (update_reachable first_of_queue 20 loop_graph ≡ done g')
    × ((b : ℕ)
        → ((g'.links b).reachable ≡ true)
          ↔ Reaches (λ b. (loop_graph.links b).successors) (loop_graph.entry_bb ∷ []) b)
    × ((b : ℕ) → unflagged (g'.links b) ≡ unflagged (loop_graph.links b))
unfolding link new_bb append_successor new_cfg
update_reachable_lem_example =
    update_reachable_lem first_of_queue loop_graph
      (λ b c _ m. loop_graph-IsWellLinked.succ_in b c m) 20 (ground arith) refl (λ b. ground arith)
