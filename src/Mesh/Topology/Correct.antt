-- ===== src/Mesh/Topology/Correct.antt =====
-- What `validate_block_mesh_topology` accepts.
use open_foam_agent.Prelude.{
  ℕ, suc, ◌≤◌, Str, Bool, true, not, ◌&&◌, List, [], ◌∷◌, ◌++◌, map, all, filter, ◌==◌, nat_eq,
  list_eq, pair_eq, ◌≡◌, refl, ◌↔◌, arith, contains, distinct, dedupe, length, append_nil_iff,
}
use open_foam_agent.Mesh.Topology.{
  BlockMeshBlock, BlockMeshTopologyIssue, TypedBlockMeshFile, BoundaryFace, BlockMeshEdge,
  canonical_face, issue_if, from_spec, block_issues, manifold_issues, sorted_items, face_issues,
  boundary_faces, edge_issues, merge_issues, patch_names, unknown_names, unknown_issues,
  validate_block_mesh_topology, merge_patch_self_pair,
}
use open_foam_agent.Mesh.Topology.Owners.{
  tally, face_keys, block_edges_of, owners-from_spec, edges-from_spec, manifold_issues-from_spec,
}
use open_foam_agent.Mesh.Topology.Faces.{
  is_exterior, is_block_edge, edge_key, face_issues_iff, edge_issues_iff, is_fresh_nil,
}

abbrev has_eight : BlockMeshBlock → Bool
has_eight b = length (dedupe b.vertices) == 8

-- Four vertices, and a face of exactly one block.
abbrev pub is_patch_face : List BlockMeshBlock → BoundaryFace → Bool
is_patch_face blocks f =
    (length (dedupe f.face) == 4) && (tally (canonical_face f.face) (face_keys blocks) == 1)

abbrev pub is_merge_pair : List Str → Str × Str → Bool
is_merge_pair names pair =
    not (pair.0 == pair.1) && (contains names pair.0 && contains names pair.1)

abbrev pub face_key : BoundaryFace → List ℕ
face_key f = canonical_face f.face

-- A topology that blockMesh can use, said without the owner table.
pub record IsConformal (spec : TypedBlockMeshFile) : Type 0 where
  pub blocks : all has_eight spec.blocks ≡ true
  pub faces : (k : List ℕ) → tally k (face_keys spec.blocks) ≤ 2
  pub boundary : all (is_patch_face spec.blocks) (boundary_faces spec.boundary) ≡ true
  pub assigned_once : distinct (map face_key (boundary_faces spec.boundary)) ≡ true
  pub edges : all (is_block_edge (block_edges_of spec.blocks)) spec.edges ≡ true
  pub edges_once : distinct (map edge_key spec.edges) ≡ true
  pub merges : all (is_merge_pair (patch_names spec)) spec.merge_patch_pairs ≡ true

block_issues_iff :
    (i : ℕ) (bs : List BlockMeshBlock) → (block_issues i bs ≡ []) ↔ (all has_eight bs ≡ true)
unfolding block_issues all
block_issues_iff i [] = ground arith
block_issues_iff i (b ∷ bs) = ground (arith, block_issues_iff (suc i) bs)

unknown_iff :
    (names : List Str) (i : ℕ) (pair : Str × Str)
    → (unknown_issues i (unknown_names names pair) ≡ [])
      ↔ ((contains names pair.0 && contains names pair.1) ≡ true)
unfolding filter
unknown_iff names i pair = ground arith

merge_issues_iff :
    (names : List Str) (i : ℕ) (pairs : List (Str × Str))
    → (merge_issues names i pairs ≡ []) ↔ (all (is_merge_pair names) pairs ≡ true)
unfolding merge_issues all
merge_issues_iff names i [] = ground arith
merge_issues_iff names i (pair ∷ pairs) =
    let self = issue_if (pair.0 == pair.1) (merge_patch_self_pair i pair.0) in
    let unknown = unknown_issues i (unknown_names names pair) in
    let rest = merge_issues names (suc i) pairs in
    ground (
      arith,
      append_nil_iff self (unknown ++ rest),
      append_nil_iff unknown rest,
      unknown_iff names i pair,
      merge_issues_iff names (suc i) pairs,
    )

exterior-from_spec :
    (spec : TypedBlockMeshFile) (fs : List BoundaryFace)
    → all (is_exterior (from_spec spec).face_owners) fs ≡ all (is_patch_face spec.blocks) fs
unfolding all
exterior-from_spec spec [] = refl
exterior-from_spec spec (f ∷ fs) =
    rw (owners-from_spec spec (canonical_face f.face), exterior-from_spec spec fs) refl

face_issues-from_spec :
    (spec : TypedBlockMeshFile) (fs : List BoundaryFace)
    → (face_issues (from_spec spec).face_owners [] fs ≡ [])
      ↔ ((all (is_patch_face spec.blocks) fs && distinct (map face_key fs)) ≡ true)
face_issues-from_spec spec fs =
    rw (← exterior-from_spec spec fs, ← is_fresh_nil (map face_key fs))
      (face_issues_iff (from_spec spec).face_owners [] fs)

edge_issues-from_spec :
    (spec : TypedBlockMeshFile) (es : List BlockMeshEdge)
    → (edge_issues (from_spec spec).block_edges [] 0 es ≡ [])
      ↔ ((all (is_block_edge (block_edges_of spec.blocks)) es && distinct (map edge_key es)) ≡ true)
edge_issues-from_spec spec es =
    rw (← edges-from_spec spec, ← is_fresh_nil (map edge_key es))
      (edge_issues_iff (from_spec spec).block_edges [] 0 es)

and_left : (a b : Bool) → (a && b) ≡ true → a ≡ true
and_left a b h = ground arith

and_both : {a b : Bool} → a ≡ true → b ≡ true → (a && b) ≡ true
and_both {a} {b} h k = ground arith

and_right : (a b : Bool) → (a && b) ≡ true → b ≡ true
and_right a b h = ground arith

-- Five lists follow each other, and all are empty if the whole is.
five_nil :
    (a b c d e : List BlockMeshTopologyIssue)
    → (a ++ (b ++ (c ++ (d ++ e))) ≡ []) ↔ ((a ≡ []) × (b ≡ []) × (c ≡ []) × (d ≡ []) × (e ≡ []))
five_nil a b c d e = (
  λ h.
      let (a0, r) = (append_nil_iff a (b ++ (c ++ (d ++ e)))).0 h in
      let (b0, s) = (append_nil_iff b (c ++ (d ++ e))).0 r in
      let (c0, t) = (append_nil_iff c (d ++ e)).0 s in
      let (d0, e0) = (append_nil_iff d e).0 t in (a0, b0, c0, d0, e0),
  λ (a0, b0, c0, d0, e0). (append_nil_iff a (b ++ (c ++ (d ++ e)))).1 (
    a0,
    (append_nil_iff b (c ++ (d ++ e))).1
        (b0, (append_nil_iff c (d ++ e)).1 (c0, (append_nil_iff d e).1 (d0, e0))),
  ),
)

parts_nil :
    (spec : TypedBlockMeshFile)
    → (validate_block_mesh_topology spec ≡ []) ↔ (
        (block_issues 0 spec.blocks ≡ [])
        × (manifold_issues (sorted_items (from_spec spec).face_owners) ≡ [])
        × (face_issues (from_spec spec).face_owners [] (boundary_faces spec.boundary) ≡ [])
        × (edge_issues (from_spec spec).block_edges [] 0 spec.edges ≡ [])
        × (merge_issues (patch_names spec) 0 spec.merge_patch_pairs ≡ []))
unfolding validate_block_mesh_topology
parts_nil spec =
    five_nil (block_issues 0 spec.blocks)
      (manifold_issues (sorted_items (from_spec spec).face_owners))
      (face_issues (from_spec spec).face_owners [] (boundary_faces spec.boundary))
      (edge_issues (from_spec spec).block_edges [] 0 spec.edges)
      (merge_issues (patch_names spec) 0 spec.merge_patch_pairs)

-- The report has no issues exactly if the topology is conformal: eight vertices in every block, no
-- face on more than two blocks, every boundary face on exactly one block and listed once, every
-- explicit edge on a block and defined once, every merge pair of two different declared patches.
pub validate_block_mesh_topology_iff :
    (spec : TypedBlockMeshFile) → (validate_block_mesh_topology spec ≡ []) ↔ IsConformal spec
validate_block_mesh_topology_iff spec = (
  λ h.
      let (b, m, f, e, g) = (parts_nil spec).0 h in
      let fs = (face_issues-from_spec spec (boundary_faces spec.boundary)).0 f in
      let es = (edge_issues-from_spec spec spec.edges).0 e in
      record {
        blocks = (block_issues_iff 0 spec.blocks).0 b;
        faces = (manifold_issues-from_spec spec).0 m;
        boundary =
            and_left (all (is_patch_face spec.blocks) (boundary_faces spec.boundary))
              (distinct (map face_key (boundary_faces spec.boundary))) fs;
        assigned_once =
            and_right (all (is_patch_face spec.blocks) (boundary_faces spec.boundary))
              (distinct (map face_key (boundary_faces spec.boundary))) fs;
        edges =
            and_left (all (is_block_edge (block_edges_of spec.blocks)) spec.edges)
              (distinct (map edge_key spec.edges)) es;
        edges_once =
            and_right (all (is_block_edge (block_edges_of spec.blocks)) spec.edges)
              (distinct (map edge_key spec.edges)) es;
        merges = (merge_issues_iff (patch_names spec) 0 spec.merge_patch_pairs).0 g;
      },
  λ h. (parts_nil spec).1 (
    (block_issues_iff 0 spec.blocks).1 h.blocks,
    (manifold_issues-from_spec spec).1 h.faces,
    (face_issues-from_spec spec (boundary_faces spec.boundary)).1
        (and_both h.boundary h.assigned_once),
    (edge_issues-from_spec spec spec.edges).1 (and_both h.edges h.edges_once),
    (merge_issues_iff (patch_names spec) 0 spec.merge_patch_pairs).1 h.merges,
  ),
)
