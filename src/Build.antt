-- ===== src/Build.antt =====
-- The controller's case build graph (engineering/case_build_graph.py).
pub mod Failures
pub mod Dependency
pub mod Order
pub mod Graph
mod Examples
