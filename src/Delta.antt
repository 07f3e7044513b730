-- ===== src/Delta.antt =====
-- Edits of a committed case: contracts/execution_scopes.py (the part that reads a delta),
-- engineering/case_delta_graph.py, engineering/revalidation.py.
pub mod Affected
pub mod Consumers
pub mod Failures
pub mod Edits
pub mod Graph
pub mod Examples
