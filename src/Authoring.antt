-- ===== src/Authoring.antt =====
-- engineering/authoring_tasks.py: the authoring of a case in tasks.
pub mod Facts
pub mod Tasks
pub mod Queue
pub mod Examples
