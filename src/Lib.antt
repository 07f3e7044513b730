-- ===== src/Lib.antt =====
-- A model of the controller of openfoam_agent, an agent that prepares, runs and reviews OpenFOAM
-- cases: the deterministic code that decides what a language model's proposals may do. Paths are
-- from the repository's root, below src/openfoam_agent.
--
-- The parts and how they meet. The workflow engine moves one state through intake, engineering,
-- simulation and review. Engineering compiles a case build graph from a proposed plan: it binds
-- native commands to execution scopes by the contracts of a registry, orders them by what they
-- produce and consume, and reports what the case lacks. Before a mesh tool runs, the topology of a
-- blockMesh file is checked; after it ran, its inputs and outputs enter a dependency history. Case
-- files are written from typed entries and read by a small dictionary scanner, which also decides
-- which boundary entry a patch gets. A large plan is authored in tasks, each with the facts that
-- its files need, and the answers are assembled from a queue. A failing case is repaired in an
-- episode that keeps its diagnosis, and by deltas: a delta graph applies replacements, patches and
-- drops to the committed texts, and only then does the workspace commit them in one transaction.
--
-- Files. Prelude holds tests on numbers, equality, lists, texts, results, dictionaries (Dict) and
-- the closure of a worklist (Worklist); its text is a list of code points. Native:
-- tools/native_contracts.py (Contracts), contracts/execution_scopes.py (Scopes and Commands).
-- Build: engineering/case_build_graph.py; Dependency is the sorting loop of
-- `_stable_dependency_order`, Order the function around it, Graph the function
-- `compile_case_build_graph`. Mesh: tools/block_mesh_topology.py (Topology),
-- contracts/mesh_dependencies.py (Dependencies) and the mesh evidence of
-- contracts/execution_scopes.py (Evidence). Delta: `affected_mesh_scope_keys` and
-- `auto_consumers_for_delta` of contracts/execution_scopes.py (Affected, Consumers) and
-- engineering/case_delta_graph.py (Edits is its first half, Graph the rest). Workspace:
-- tools/workspace.py, with its path rules (Paths), the checks before a write (Preflight),
-- `commit_text_transaction` (Transaction) and the seals (Seals). Authoring:
-- engineering/authoring_tasks.py, with the facts of a task (Facts), the partition (Tasks) and the
-- queue (Queue). Semantics: verification/foam_semantics, with model.py (Model), parser.py
-- (Scanner, Assignments) and boundary.py (Boundary). Serializer: tools/foam_serializer.py, its
-- tree (Tree, Total, Leaves) and its lines. Workflow: states.py (States), state.py (State), the
-- approvals of contracts/execution.py (Approvals), engine.py (Engine), and
-- engineering/phases/repair_episode.py (Episode). A child module proves what its name says;
-- Examples hold tests and one use of each theorem.
--
-- How code corresponds to the model. A function of the source has its name here, in the spelling
-- of this language; a loop body or a branch that needs a name of its own is a helper beside it. An
-- object that is mutated is a record that is passed on. A ValueError is an `err` of a result; a
-- message is a constructor with the values that it shows. A dict is an association list, a set a
-- list of which only membership is used.
--
-- Arguments. The registry of native tools is package data; sha256, `re.fullmatch`, the compaction
-- of an event, its JSON text and the digest of a mesh are functions that the code calls; the
-- agents and the runtime are handlers that return or raise. The file system of the workspace is a
-- function from resolved paths to files; what a directory lists, which paths are symbolic links,
-- which operations raise, the content policy, the header check of a case file, the length of a
-- prompt, what the projection of a task raises, and the paths that the mesh of a scope depends on are arguments.
--
-- Fuel. The sorting loop takes one index a round, so as many rounds as there are commands are
-- enough. A round of the scanner's loop moves at least one character on, so as many rounds as
-- there are characters are enough. The engine's limit is the program's own. The closure of a
-- worklist pops an entry a round, and pushes one only when it selects it, so a round for each
-- listed edge and each start is enough. The fixed point of the delta's consumers selects a
-- candidate in every round but its last.
--
-- Not modelled: the dialogue with the language model and its prompts, subprocesses, the search for
-- includes, listings and archives of the workspace, pydantic's validation, checkpoints,
-- postprocessing, and the command line.
pub mod Authoring
pub mod Build
pub mod Delta
pub mod Mesh
pub mod Native
pub mod Prelude
pub mod Semantics
pub mod Serializer
pub mod Workflow
pub mod Workspace
