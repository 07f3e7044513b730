-- ===== src/Workflow.antt =====
-- The workflow's states and the operations on them (workflow/states.py, workflow/state.py), the
-- engine that runs them (workflow/engine.py), and the repair episode of a state
-- (engineering/phases/repair_episode.py).
pub mod States
pub mod Approvals
pub mod State
pub mod Engine
pub mod Episode
mod Examples
