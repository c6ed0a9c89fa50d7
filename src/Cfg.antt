-- ===== src/Cfg.antt =====
-- Control-flow graphs: guppylang_internals/cfg.
pub mod Graph
pub mod Stats
pub mod Traverse
pub mod Analysis
pub mod Liveness
pub mod Assignment
pub mod Analyze
pub mod Syntax
pub mod Variables
pub mod Branch
pub mod Builder
pub mod Whole
pub mod Samples
