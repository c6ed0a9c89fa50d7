-- ===== src/Lib.antt =====
-- A verification library for guppylang, a quantum programming language embedded in Python.
--
-- Parts of the program and the files that model them (paths from the repository's root; the
-- compiler lives in guppylang-internals/src/guppylang_internals, called `internals` below):
--   * Cfg/Graph: basic blocks and their links (`BB` of internals/cfg/bb.py; `new_bb`, `link`,
--     `dummy_link` and the constructor of `CFG` of internals/cfg/cfg.py). A block is its `idx`;
--     the lists of its links are a cell of a heap.
--   * Cfg/Analysis: the worklist loops `BackwardAnalysis.run` and `ForwardAnalysis.run` of
--     internals/cfg/analysis.py, over any domain. `queue.pop()` on a set takes an arbitrary
--     element: it is the parameter `choose`.
--   * Cfg/Liveness, Cfg/Assignment: `LivenessAnalysis` and `AssignmentAnalysis` of the same file.
--   * Cfg/Analyze: `CFG.analyze`, which runs both on the stats of the blocks; Cfg/Whole:
--     the same from the syntax of the blocks.
--   * Collections: `Stack`, `Queue` and `PriorityQueue` of guppylang/src/guppylang/std/collections.
--     A buffer is a function of the index; `int` sums and products wrap at 2 ^ 64. Collections/Client
--     is what a client sees of a collection; Stack and Queue fill its interface `Implements`.
--   * Cfg/Syntax, Cfg/Variables: `compute_variable_stats` and `VariableVisitor` of internals/cfg/bb.py.
--     The syntax is what the visitor tells apart; a graph inside of a block is a `Graph` with its
--     blocks, and its liveness is run as for a whole function.
--   * Cfg/Branch, Cfg/Builder: `BranchBuilder` and `CFGBuilder` of internals/cfg/builder.py, on
--     statements and conditions whose other expressions `ExprBuilder` leaves in their block.
--   * Cfg/Traverse: `ancestors`, `successors` and `update_reachable` of internals/cfg/cfg.py.
--   * Unitary: `UnitaryFlags` of internals/tys/ty.py; Unitary/Modifiers: `Modifiers` of
--     internals/nodes.py and the flags of a `with` block (`visit_With` of internals/cfg/builder.py);
--     Unitary/Checker: internals/checker/unitary_checker.py.
--   * Types: types, constants, arguments and parameters of internals/tys; Types/Transform and
--     Types/Subst: `transform`, `Substituter`, `Instantiator`; Types/Linear: `copyable` and `droppable`;
--     Types/Unify: `unify`; Types/Visit: the visitors of types; Types/Generic: `check_all_args` and
--     `instantiate_partial`. Type variables have no protocol bounds.
--   * Span: `Loc` and `Span` of internals/span.py; a line and a column are natural numbers.
--   * Common: dicts and sets as lists, the outcome of a loop, and loops on fuel.
-- `CFG.analyze` runs the analyses on a graph that the operations of Cfg/Graph have built: those
-- keep `IsWellLinked`, from which the analyses' closure conditions follow.
--
-- Fuel: a `while` loop takes one unit a round. The analyses' bounds are `liveness_fuel` and
-- `assignment_fuel`, quadratic in the number of blocks and linear in the number of variables;
-- they are enough for every order of the queue. The loops of the priority queue take a unit a level
-- of the tree and are given one more than the size; a loop over a collection
-- takes one an element. A traversal takes one for each start and each link.
--
-- `has_trait` takes the depth of the type as its fuel, `unify` twice the height of a closed type.
--
-- Not modelled: `ExprBuilder`, nested functions and `with` blocks of the builder of graphs, and the
-- end of `build`, which prunes the graph; the checkers of expressions and statements; everything
-- that emits Hugr, which is a library of others; rendering of errors.
pub mod Cfg
pub mod Collections
pub mod Common
pub mod Span
pub mod Types
pub mod Unitary
