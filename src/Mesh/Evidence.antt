-- ===== src/Mesh/Evidence.antt =====
-- Mesh evidence for each execution scope: `current_mesh_evidence_failures` and
-- `sync_legacy_mesh_state` of contracts/execution_scopes.py. The digest of a scope's mesh
-- (`scope_mesh_digest`, which reads and hashes files) is an argument, for files whose digest does not
-- raise; a failure is a constructor with what the message shows.
pub mod Current
use open_foam_agent.Prelude.{
  ℕ, Str, codes, Bool, true, false, not, ◌&&◌, ◌||◌, Option, none, some, List, [], ◌∷◌, ◌++◌, ◌==◌,
  nat_eq, list_eq, list_beq, option_eq, option_beq, if◌then◌else◌, ltb, starts_with, drop, length,
}
use open_foam_agent.Native.Scopes.{
  ExecutionScope, EngineeringPlan, execution_scopes, scope_key, root_scope_key, region_scope_prefix,
}

pub record MeshEvidence : Type 0 where
  pub passed : Bool
  pub cell_count : Option ℕ

-- The fields of the state that hold mesh evidence.
pub record MeshState : Type 0 where
  pub mesh_evidence_by_scope : List (Str × MeshEvidence)
  pub mesh_manifest_by_scope : List (Str × Str)
  pub mesh_evidence : Option MeshEvidence
  pub region_mesh_evidence : List (Str × MeshEvidence)
  pub region_mesh_manifests : List (Str × Str)

-- `mapping.get(key)`
unfoldable pub get {ℓ} : {A : Type ℓ} → List (Str × A) → Str → Option A
get [] key = none
get ((k, a) ∷ rest) key = if k == key then some a else get rest key

pub data EvidenceFailure : Type 0 where
  evidence_missing evidence_not_passed evidence_stale : Str → EvidenceFailure
  too_many_cells : ℕ → Str → ℕ → EvidenceFailure

-- `scope.name or "root"`
abbrev pub label_of : Option Str → Str
label_of none = root_scope_key
label_of (some []) = root_scope_key
label_of (some (c ∷ cs)) = c ∷ cs

abbrev pub cell_failures : Str → ℕ → Option ℕ → List EvidenceFailure
cell_failures label max_mesh_cells none = []
cell_failures label max_mesh_cells (some n) =
    if ltb max_mesh_cells n then too_many_cells n label max_mesh_cells ∷ [] else []

-- What one scope's evidence lacks.
unfoldable pub evidence_failures :
    Str → ℕ → Str → Option Str → Option MeshEvidence → List EvidenceFailure
unfolding list_beq option_beq
evidence_failures label max_mesh_cells expected manifest none = evidence_missing label ∷ []
evidence_failures label max_mesh_cells expected manifest (some e) =
    if e.passed
    then cell_failures label max_mesh_cells e.cell_count
      ++ (if manifest == some expected then [] else evidence_stale label ∷ [])
    else evidence_not_passed label ∷ []

module _ (digest : ExecutionScope → Str) (max_mesh_cells : ℕ) (s : MeshState) where
  unfoldable pub scope_failures : ExecutionScope → List EvidenceFailure
  unfolding evidence_failures get scope_key
  scope_failures scope =
      evidence_failures (label_of scope.name) max_mesh_cells (digest scope)
        (get s.mesh_manifest_by_scope (scope_key scope))
        (get s.mesh_evidence_by_scope (scope_key scope))

  unfoldable pub failures_of : List ExecutionScope → List EvidenceFailure
  unfolding scope_failures
  failures_of [] = []
  failures_of (scope ∷ scopes) = scope_failures scope ++ failures_of scopes

  unfoldable pub current_mesh_evidence_failures : EngineeringPlan → List EvidenceFailure
  unfolding failures_of execution_scopes
  current_mesh_evidence_failures plan = failures_of (execution_scopes plan)

-- `{key[len(prefix):]: value for key, value in items if key.startswith(prefix)}`
unfoldable pub regions_of {ℓ} : {A : Type ℓ} → List (Str × A) → List (Str × A)
unfolding starts_with
regions_of [] = []
regions_of ((key, a) ∷ rest) =
    let later = regions_of rest in
    if starts_with key region_scope_prefix
    then (drop (length region_scope_prefix) key, a) ∷ later
    else later

unfoldable pub sync_legacy_mesh_state : MeshState → MeshState
unfolding get regions_of list_beq
sync_legacy_mesh_state s = record s {
  mesh_evidence = get s.mesh_evidence_by_scope root_scope_key;
  region_mesh_evidence = regions_of s.mesh_evidence_by_scope;
  region_mesh_manifests = regions_of s.mesh_manifest_by_scope;
}
