-- ===== src/Mesh/Topology.antt =====
-- tools/block_mesh_topology.py, with the fields of `TypedBlockMeshFile` (schemas/engineering.py)
-- that it reads. A tuple of vertices is a list; a dict is an association list. An issue's
-- constructor is its code, and its arguments are what the message shows.
pub mod Owners
pub mod Faces
pub mod Correct
use open_foam_agent.Prelude.{
  ℕ, zero, suc, ◌+◌, Str, Bool, true, false, not, ◌&&◌, ◌||◌, Option, none, some, List, [], ◌∷◌,
  ◌++◌, map, ◌==◌, nat_eq, list_eq, list_beq, pair_eq, pair_beq, Eq, nth, if◌then◌else◌, contains,
  length, ltb, leb, filter, dedupe, sort_by,
}
use open_foam_agent.Native.Contracts.{str_le}

pub record BlockMeshBlock : Type 0 where
  pub vertices : List ℕ

pub record BlockMeshEdge : Type 0 where
  pub start : ℕ
  pub end : ℕ

pub record BlockMeshBoundaryPatch : Type 0 where
  pub name : Str
  pub faces : List (List ℕ)

pub record TypedBlockMeshFile : Type 0 where
  pub blocks : List BlockMeshBlock
  pub edges : List BlockMeshEdge
  pub boundary : List BlockMeshBoundaryPatch
  pub merge_patch_pairs : List (Str × Str)

abbrev pub hex_face_slots : List (List ℕ)
hex_face_slots =
    (0 ∷ 1 ∷ 2 ∷ 3 ∷ [])
    ∷ (4 ∷ 5 ∷ 6 ∷ 7 ∷ [])
    ∷ (0 ∷ 1 ∷ 5 ∷ 4 ∷ [])
    ∷ (1 ∷ 2 ∷ 6 ∷ 5 ∷ [])
    ∷ (2 ∷ 3 ∷ 7 ∷ 6 ∷ [])
    ∷ (3 ∷ 0 ∷ 4 ∷ 7 ∷ [])
    ∷ []

abbrev pub hex_edge_slots : List (ℕ × ℕ)
hex_edge_slots =
    (0, 1)
    ∷ (1, 2)
    ∷ (2, 3)
    ∷ (3, 0)
    ∷ (4, 5)
    ∷ (5, 6)
    ∷ (6, 7)
    ∷ (7, 4)
    ∷ (0, 4)
    ∷ (1, 5)
    ∷ (2, 6)
    ∷ (3, 7)
    ∷ []

unfoldable pub canonical_face : List ℕ → List ℕ
unfolding sort_by
canonical_face vertices = sort_by leb vertices

unfoldable pub canonical_edge : ℕ → ℕ → ℕ × ℕ
canonical_edge first second = if ltb first second then (first, second) else (second, first)

pub record BlockFaceOwner : Type 0 where
  pub block_index : ℕ
  pub local_face_index : ℕ
  pub oriented_vertices : List ℕ

abbrev pub FaceOwners : Type 0
FaceOwners = List (List ℕ × List BlockFaceOwner)

pub record BlockMeshTopologyIr : Type 0 where
  pub face_owners : FaceOwners
  pub block_edges : List (ℕ × ℕ)

-- `face_owners.get(key, ())`
unfoldable pub owners_of : FaceOwners → List ℕ → List BlockFaceOwner
owners_of [] key = []
owners_of ((k, owners) ∷ rest) key = if k == key then owners else owners_of rest key

-- `face_owners_mut.setdefault(key, []).append(owner)`
unfoldable pub add_owner : List ℕ → BlockFaceOwner → FaceOwners → FaceOwners
add_owner key owner [] = (key, owner ∷ []) ∷ []
add_owner key owner ((k, owners) ∷ rest) =
    let others = add_owner key owner rest in
    if k == key then (k, owners ++ owner ∷ []) ∷ rest else (k, owners) ∷ others

-- `vertices[slot]`; a block has eight vertices.
abbrev pub at_slot : List ℕ → ℕ → ℕ
at_slot vertices slot = nth vertices slot 0

abbrev pub oriented : List ℕ → List ℕ → List ℕ
oriented vertices slots = map (at_slot vertices) slots

unfoldable pub add_faces : ℕ → List ℕ → ℕ → List (List ℕ) → FaceOwners → FaceOwners
unfolding add_owner canonical_face
add_faces block vertices local [] owners = owners
add_faces block vertices local (slots ∷ rest) owners = add_faces block vertices (suc local) rest (
    add_owner (canonical_face (oriented vertices slots))
      (record {
        block_index = block;
        local_face_index = local;
        oriented_vertices = oriented vertices slots;
      })
      owners)

unfoldable pub edges_of : List ℕ → List (ℕ × ℕ)
unfolding canonical_edge
edges_of vertices =
    map (λ (slots : ℕ × ℕ). canonical_edge (at_slot vertices slots.0) (at_slot vertices slots.1))
      hex_edge_slots

unfoldable pub add_block : ℕ → BlockMeshBlock → BlockMeshTopologyIr → BlockMeshTopologyIr
unfolding add_faces edges_of
add_block block b ir = record {
  face_owners = add_faces block b.vertices 0 hex_face_slots ir.face_owners;
  block_edges = ir.block_edges ++ edges_of b.vertices;
}

unfoldable pub add_blocks : ℕ → List BlockMeshBlock → BlockMeshTopologyIr → BlockMeshTopologyIr
add_blocks block [] ir = ir
add_blocks block (b ∷ bs) ir = add_blocks (suc block) bs (add_block block b ir)

-- `BlockMeshTopologyIr.from_spec`
unfoldable pub from_spec : TypedBlockMeshFile → BlockMeshTopologyIr
unfolding add_blocks
from_spec spec = add_blocks 0 spec.blocks (record { face_owners = []; block_edges = [] })

pub data BlockMeshTopologyIssue : Type 0 where
  degenerate_block_vertices : ℕ → List ℕ → BlockMeshTopologyIssue
  non_manifold_block_face : List ℕ → List ℕ → BlockMeshTopologyIssue
  degenerate_boundary_face : Str → ℕ → List ℕ → BlockMeshTopologyIssue
  boundary_face_not_on_block : Str → ℕ → List ℕ → BlockMeshTopologyIssue
  boundary_face_is_internal : Str → ℕ → List ℕ → List ℕ → BlockMeshTopologyIssue
  boundary_face_non_manifold : Str → ℕ → List ℕ → List ℕ → BlockMeshTopologyIssue
  boundary_face_assigned_twice : Str → ℕ → List ℕ → Str × ℕ → BlockMeshTopologyIssue
  degenerate_block_edge : ℕ → ℕ → BlockMeshTopologyIssue
  edge_not_on_block : ℕ → ℕ → ℕ → BlockMeshTopologyIssue
  edge_defined_twice : ℕ → ℕ → ℕ → ℕ → BlockMeshTopologyIssue
  merge_patch_self_pair : ℕ → Str → BlockMeshTopologyIssue
  merge_patch_unknown_patch : ℕ → List Str → BlockMeshTopologyIssue

abbrev pub issue_if : Bool → BlockMeshTopologyIssue → List BlockMeshTopologyIssue
issue_if true issue = issue ∷ []
issue_if false issue = []

abbrev pub block_ids : List BlockFaceOwner → List ℕ
block_ids owners = map (λ (o : BlockFaceOwner). o.block_index) owners

unfoldable pub block_issues : ℕ → List BlockMeshBlock → List BlockMeshTopologyIssue
unfolding dedupe
block_issues i [] = []
block_issues i (b ∷ bs) =
    issue_if (not (length (dedupe b.vertices) == 8)) (degenerate_block_vertices i b.vertices)
    ++ block_issues (suc i) bs

unfoldable pub manifold_issues : FaceOwners → List BlockMeshTopologyIssue
manifold_issues [] = []
manifold_issues ((face, owners) ∷ rest) =
    issue_if (ltb 2 (length owners)) (non_manifold_block_face face (block_ids owners))
    ++ manifold_issues rest

-- `sorted(ir.face_owners.items())`; the keys differ, so only they are compared.
unfoldable pub sorted_items : FaceOwners → FaceOwners
unfolding sort_by str_le
sorted_items items = sort_by (λ a b. str_le a.0 b.0) items

-- A face of a boundary patch, with the place that it is listed at.
pub record BoundaryFace : Type 0 where
  pub patch : Str
  pub index : ℕ
  pub face : List ℕ

unfoldable pub enumerate_faces : Str → ℕ → List (List ℕ) → List BoundaryFace
enumerate_faces patch i [] = []
enumerate_faces patch i (f ∷ fs) =
    record { patch = patch; index = i; face = f } ∷ enumerate_faces patch (suc i) fs

-- The faces in the order of the two nested loops.
unfoldable pub boundary_faces : List BlockMeshBoundaryPatch → List BoundaryFace
unfolding enumerate_faces
boundary_faces [] = []
boundary_faces (p ∷ ps) = enumerate_faces p.name 0 p.faces ++ boundary_faces ps

abbrev pub Assigned : Type 0
Assigned = List (List ℕ × (Str × ℕ))

unfoldable pub previous_of : Assigned → List ℕ → Option (Str × ℕ)
previous_of [] key = none
previous_of ((k, place) ∷ rest) key = if key == k then some place else previous_of rest key

-- The body of the loop over boundary faces: its issues, and the faces assigned after it.
assign : Assigned → BoundaryFace → Option (Str × ℕ) → List BlockMeshTopologyIssue × Assigned
unfolding canonical_face
assign assigned f (some previous) =
    (boundary_face_assigned_twice f.patch f.index f.face previous ∷ [], assigned)
assign assigned f none = ([], (canonical_face f.face, (f.patch, f.index)) ∷ assigned)

check_owners :
    Assigned → BoundaryFace → List BlockFaceOwner → List BlockMeshTopologyIssue × Assigned
unfolding assign previous_of canonical_face
check_owners assigned f [] = (boundary_face_not_on_block f.patch f.index f.face ∷ [], assigned)
check_owners assigned f (o ∷ []) = assign assigned f (previous_of assigned (canonical_face f.face))
check_owners assigned f (o ∷ o2 ∷ []) =
    (boundary_face_is_internal f.patch f.index f.face (block_ids (o ∷ o2 ∷ [])) ∷ [], assigned)
check_owners assigned f (o ∷ o2 ∷ o3 ∷ os) = (
  boundary_face_non_manifold f.patch f.index f.face (block_ids (o ∷ o2 ∷ o3 ∷ os)) ∷ [],
  assigned,
)

unfoldable pub check_face :
    FaceOwners → Assigned → BoundaryFace → List BlockMeshTopologyIssue × Assigned
unfolding check_owners owners_of canonical_face dedupe
check_face owners assigned f =
    if length (dedupe f.face) == 4
    then check_owners assigned f (owners_of owners (canonical_face f.face))
    else (degenerate_boundary_face f.patch f.index f.face ∷ [], assigned)

unfoldable pub face_issues : FaceOwners → Assigned → List BoundaryFace → List BlockMeshTopologyIssue
unfolding check_face
face_issues owners assigned [] = []
face_issues owners assigned (f ∷ fs) =
    let r = check_face owners assigned f in r.0 ++ face_issues owners r.1 fs

abbrev pub Defined : Type 0
Defined = List ((ℕ × ℕ) × ℕ)

unfoldable pub defined_at : Defined → ℕ × ℕ → Option ℕ
defined_at [] key = none
defined_at ((k, i) ∷ rest) key = if key == k then some i else defined_at rest key

define : Defined → ℕ → BlockMeshEdge → Option ℕ → List BlockMeshTopologyIssue × Defined
unfolding canonical_edge
define defined i edge (some j) = (edge_defined_twice i edge.start edge.end j ∷ [], defined)
define defined i edge none = ([], (canonical_edge edge.start edge.end, i) ∷ defined)

-- The body of the loop over edges.
unfoldable pub check_edge :
    List (ℕ × ℕ) → Defined → ℕ → BlockMeshEdge → List BlockMeshTopologyIssue × Defined
unfolding define defined_at canonical_edge contains
check_edge block_edges defined i edge =
    let key = canonical_edge edge.start edge.end in
    let r = define defined i edge (defined_at defined key) in
    if edge.start == edge.end then (degenerate_block_edge i edge.start ∷ [], defined) else (
      issue_if (not (contains block_edges key)) (edge_not_on_block i edge.start edge.end) ++ r.0,
      r.1,
    )

unfoldable pub edge_issues :
    List (ℕ × ℕ) → Defined → ℕ → List BlockMeshEdge → List BlockMeshTopologyIssue
unfolding check_edge
edge_issues block_edges defined i [] = []
edge_issues block_edges defined i (e ∷ es) =
    let r = check_edge block_edges defined i e in r.0 ++ edge_issues block_edges r.1 (suc i) es

abbrev pub unknown_names : List Str → Str × Str → List Str
unknown_names names pair = filter (λ name. not (contains names name)) (pair.0 ∷ pair.1 ∷ [])

abbrev pub unknown_issues : ℕ → List Str → List BlockMeshTopologyIssue
unknown_issues i [] = []
unknown_issues i (n ∷ ns) = merge_patch_unknown_patch i (n ∷ ns) ∷ []

unfoldable pub merge_issues : List Str → ℕ → List (Str × Str) → List BlockMeshTopologyIssue
unfolding filter contains
merge_issues names i [] = []
merge_issues names i (pair ∷ pairs) =
    issue_if (pair.0 == pair.1) (merge_patch_self_pair i pair.0)
    ++ (unknown_issues i (unknown_names names pair) ++ merge_issues names (suc i) pairs)

abbrev pub patch_names : TypedBlockMeshFile → List Str
patch_names spec = map (λ (p : BlockMeshBoundaryPatch). p.name) spec.boundary

-- The issues of `validate_block_mesh_topology`'s report.
unfoldable pub validate_block_mesh_topology : TypedBlockMeshFile → List BlockMeshTopologyIssue
unfolding from_spec block_issues manifold_issues sorted_items face_issues boundary_faces edge_issues
    merge_issues
validate_block_mesh_topology spec =
    let ir = from_spec spec in
    block_issues 0 spec.blocks
    ++ (manifold_issues (sorted_items ir.face_owners)
        ++ (face_issues ir.face_owners [] (boundary_faces spec.boundary)
            ++ (edge_issues ir.block_edges [] 0 spec.edges
                ++ merge_issues (patch_names spec) 0 spec.merge_patch_pairs)))
