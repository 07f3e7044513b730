-- ===== src/Workspace.antt =====
-- tools/workspace.py: the sandboxed case workspace.
pub mod Errors
pub mod Paths
pub mod Preflight
pub mod Transaction
pub mod Seals
pub mod Examples
