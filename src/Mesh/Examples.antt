-- ===== src/Mesh/Examples.antt =====
-- One hexahedral block with its six faces, a history of one mesh operation, and mesh evidence.
use open_foam_agent.Prelude.{
  ℕ, List, nat_eq, contains, suc, ◌≤◌, codes, true, false, [], ◌∷◌, ◌≡◌, refl, ◌↔◌, ok, err, Str,
  none, some, length, list_beq, pair_beq,
}
use open_foam_agent.Native.Errors.{bad_dependency_path}
use open_foam_agent.Native.Scopes.{ExecutionScope, EngineeringPlan, execution_scopes}
use open_foam_agent.Mesh.Evidence.{MeshState, too_many_cells, current_mesh_evidence_failures}
use open_foam_agent.Mesh.Evidence.Current.{Each, IsCurrentScope, current_mesh_evidence_failures_iff}
use open_foam_agent.Mesh.Topology.{
  BlockMeshBoundaryPatch, TypedBlockMeshFile, validate_block_mesh_topology, add_block, from_spec,
  owners_of, boundary_face_assigned_twice,
}
use open_foam_agent.Mesh.Topology.Owners.{owners-from_spec, tally, face_keys}
use open_foam_agent.Mesh.Topology.Correct.{IsConformal, validate_block_mesh_topology_iff}
use open_foam_agent.Prelude.Worklist.{closed}
use open_foam_agent.Mesh.Dependencies.Ancestors.{Ancestor, selected_operations-ancestors}
use open_foam_agent.Mesh.Dependencies.{
  selected_operations, Operation, overlap, case_path, register, is_chronological, check_registry,
}
use open_foam_agent.Mesh.Dependencies.Chronology.{register-check_registry}

abbrev walls : BlockMeshBoundaryPatch
walls = record {
  name = codes "walls";
  faces =
      (0 ∷ 1 ∷ 2 ∷ 3 ∷ [])
      ∷ (4 ∷ 7 ∷ 6 ∷ 5 ∷ [])
      ∷ (0 ∷ 4 ∷ 5 ∷ 1 ∷ [])
      ∷ (1 ∷ 5 ∷ 6 ∷ 2 ∷ [])
      ∷ (2 ∷ 6 ∷ 7 ∷ 3 ∷ [])
      ∷ [];
}

abbrev inlet : BlockMeshBoundaryPatch
inlet = record { name = codes "inlet"; faces = (3 ∷ 7 ∷ 4 ∷ 0 ∷ []) ∷ [] }

abbrev cube : TypedBlockMeshFile
cube = record {
  blocks = record { vertices = 0 ∷ 1 ∷ 2 ∷ 3 ∷ 4 ∷ 5 ∷ 6 ∷ 7 ∷ [] } ∷ [];
  edges = record { start = 0; end = 1 } ∷ [];
  boundary = walls ∷ inlet ∷ [];
  merge_patch_pairs = [];
}

cube_test : validate_block_mesh_topology cube ≡ []
unfolding validate_block_mesh_topology add_block list_beq pair_beq
cube_test = refl

-- A face that two patches list is reported with its first place.
twice_test :
    validate_block_mesh_topology
      (record cube { boundary = inlet ∷ record inlet { name = codes "outlet" } ∷ [] })
    ≡ boundary_face_assigned_twice (codes "outlet") 0 (3 ∷ 7 ∷ 4 ∷ 0 ∷ []) (codes "inlet", 0) ∷ []
unfolding validate_block_mesh_topology add_block list_beq pair_beq
twice_test = refl

validate_block_mesh_topology_iff_example :
    (validate_block_mesh_topology cube ≡ []) ↔ IsConformal cube
validate_block_mesh_topology_iff_example = validate_block_mesh_topology_iff cube

owners-from_spec_example :
    length (owners_of (from_spec cube).face_owners (0 ∷ 1 ∷ 2 ∷ 3 ∷ []))
    ≡ tally (0 ∷ 1 ∷ 2 ∷ 3 ∷ []) (face_keys cube.blocks)
owners-from_spec_example = owners-from_spec cube (0 ∷ 1 ∷ 2 ∷ 3 ∷ [])

overlap_test :
    (overlap (codes "constant/polyMesh/points") (codes "constant/polyMesh/") ≡ true)
    × (overlap (codes "constant") (codes "constants") ≡ false)
unfolding overlap list_beq
overlap_test = (refl, refl)

absolute_test : case_path (codes "/constant") ≡ err (bad_dependency_path (codes "/constant"))
unfolding case_path
absolute_test = refl

abbrev first_operation : Operation
first_operation = record {
  id = 0;
  inputs = codes "system/blockMeshDict" ∷ [];
  outputs = codes "constant/polyMesh" ∷ [];
  parents = [];
  regions = [] ∷ [];
  command = (codes "blockMesh", []);
  conservative = false;
}

abbrev second_operation : Operation
second_operation = record {
  id = 1;
  inputs = codes "constant/polyMesh" ∷ [];
  outputs = codes "constant/polyMesh" ∷ [];
  parents = 0 ∷ [];
  regions = [] ∷ [];
  command = (codes "renumberMesh", []);
  conservative = false;
}

register_test :
    register
      (codes "constant/polyMesh/" ∷ [])
      (codes "constant/polyMesh" ∷ [])
      ([] ∷ [])
      (codes "renumberMesh", [])
      false
      (first_operation ∷ [])
    ≡ ok (first_operation ∷ second_operation ∷ [])
unfolding register overlap
register_test = refl

registry_test : check_registry 0 (first_operation ∷ []) ≡ ok tt
unfolding check_registry
registry_test = refl

-- A registry that was changed by hand: a path outside the case.
outside_test :
    check_registry 0 (record first_operation { inputs = codes "../secret" ∷ [] } ∷ [])
    ≡ err (bad_dependency_path (codes "../secret"))
unfolding check_registry
outside_test = refl

register-check_registry_example :
    (check_registry 0 (first_operation ∷ second_operation ∷ []) ≡ ok tt)
    × (length (first_operation ∷ second_operation ∷ []) ≡ suc (length (first_operation ∷ [])))
    × (length (first_operation ∷ second_operation ∷ []) ≤ 10000)
register-check_registry_example =
    register-check_registry (codes "constant/polyMesh/" ∷ []) (codes "constant/polyMesh" ∷ [])
      ([] ∷ []) (codes "renumberMesh", []) false (first_operation ∷ [])
      (first_operation ∷ second_operation ∷ []) registry_test register_test

abbrev meshed_plan : EngineeringPlan
meshed_plan = record {
  solver = codes "foamRun";
  solver_provider_id = [];
  execution = none;
  region_layouts = [];
  required_case_files = [];
}

abbrev root_digest : ExecutionScope → Str
root_digest scope = codes "d1"

abbrev evidenced : MeshState
evidenced = record {
  mesh_evidence_by_scope =
      (codes "root", record { passed = true; cell_count = some 900 })
      ∷ (codes "region:air", record { passed = false; cell_count = none })
      ∷ [];
  mesh_manifest_by_scope = (codes "root", codes "d1") ∷ [];
  mesh_evidence = none;
  region_mesh_evidence = [];
  region_mesh_manifests = [];
}

evidence_test :
    (current_mesh_evidence_failures root_digest 1000 evidenced meshed_plan ≡ [])
    × (current_mesh_evidence_failures root_digest 800 evidenced meshed_plan
        ≡ too_many_cells 900 (codes "root") 800 ∷ [])
unfolding current_mesh_evidence_failures
evidence_test = (refl, refl)

current_mesh_evidence_failures_iff_example :
    (current_mesh_evidence_failures root_digest 1000 evidenced meshed_plan ≡ [])
    ↔ Each (IsCurrentScope root_digest 1000 evidenced) (execution_scopes meshed_plan)
current_mesh_evidence_failures_iff_example =
    current_mesh_evidence_failures_iff root_digest 1000 evidenced meshed_plan

-- The second operation reads what the first one wrote, and a third one is of another region.
abbrev history : List Operation
history =
    record {
      id = 0;
      inputs = codes "system/blockMeshDict" ∷ [];
      outputs = codes "constant/polyMesh" ∷ [];
      parents = [];
      regions = [] ∷ [];
      command = (codes "blockMesh", []);
      conservative = false;
    }
    ∷ record {
      id = 1;
      inputs = codes "constant/polyMesh" ∷ [];
      outputs = codes "constant/air/polyMesh" ∷ [];
      parents = 0 ∷ [];
      regions = codes "air" ∷ [];
      command = (codes "splitMeshRegions", []);
      conservative = false;
    }
    ∷ record {
      id = 2;
      inputs = codes "system/solid/blockMeshDict" ∷ [];
      outputs = codes "constant/solid/polyMesh" ∷ [];
      parents = [];
      regions = codes "solid" ∷ [];
      command = (codes "blockMesh", codes "-region" ∷ codes "solid" ∷ []);
      conservative = false;
    }
    ∷ []

history_is_chronological : is_chronological 0 history ≡ true
unfolding is_chronological
history_is_chronological = refl

selected_test : selected_operations (codes "air") history ≡ closed (0 ∷ 1 ∷ [])
unfolding selected_operations list_beq
selected_test = refl

selected_operations-ancestors_example :
    (r : List ℕ) × (selected_operations (codes "air") history ≡ closed r)
    × ((i : ℕ) → (contains r i ≡ true) ↔ Ancestor (codes "air") history i)
selected_operations-ancestors_example =
    selected_operations-ancestors (codes "air") history history_is_chronological
