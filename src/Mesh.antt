-- ===== src/Mesh.antt =====
-- Mesh checks before a native run (tools/block_mesh_topology.py), the dependency history of the mesh
-- files (contracts/mesh_dependencies.py), and mesh evidence (contracts/execution_scopes.py).
pub mod Topology
pub mod Dependencies
pub mod Evidence
mod Examples
