-- ===== src/Semantics.antt =====
-- The dictionary semantics of verification/foam_semantics: its data (model.py), the text scanner
-- (parser.py) and the choice of a boundary entry (boundary.py).
pub mod Model
pub mod Scanner
pub mod Assignments
pub mod Boundary
mod Examples
