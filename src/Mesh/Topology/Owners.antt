-- ===== src/Mesh/Topology/Owners.antt =====
-- What `BlockMeshTopologyIr.from_spec` collects, described without its dict and its set.
use open_foam_agent.Prelude.{
  ℕ, suc, ◌+◌, ◌≤◌, Bool, true, false, ◌||◌, List, [], ◌∷◌, ◌++◌, map, all, ◌==◌, nat_eq, list_eq,
  eq_iff, eq_refl, ◌≡◌, refl, sym, ap, ◌∙◌, ◌↔◌, arith, Bool-cases, inl, inr, if◌then◌else◌,
  contains, distinct, length, length-append, append_nil, append_assoc, ◌⊎◌, leb, all-sort_by,
}
use open_foam_agent.Native.Contracts.{str_le}
use open_foam_agent.Mesh.Topology.{
  BlockMeshBlock, TypedBlockMeshFile, BlockFaceOwner, FaceOwners, BlockMeshTopologyIr,
  canonical_face, oriented, hex_face_slots, edges_of, owners_of, add_owner, add_faces, add_block,
  add_blocks, from_spec, manifold_issues, sorted_items,
}

-- How often a key stands in a list.
unfoldable pub tally : List ℕ → List (List ℕ) → ℕ
tally key [] = 0
tally key (k ∷ ks) = (if k == key then 1 else 0) + tally key ks

add_zero : (n : ℕ) → n + 0 ≡ n
add_zero n = omega arith

zero_add : (n : ℕ) → 0 + n ≡ n
zero_add n = omega arith

add_assoc : (a b c : ℕ) → (a + b) + c ≡ a + (b + c)
add_assoc a b c = omega arith

tally-append :
    (key : List ℕ) (ks ls : List (List ℕ)) → tally key (ks ++ ls) ≡ tally key ks + tally key ls
unfolding tally
tally-append key [] ls = ground arith
tally-append key (k ∷ ks) ls = ground (arith, tally-append key ks ls)

abbrev pub slot_keys : List ℕ → List (List ℕ) → List (List ℕ)
slot_keys vertices slots = map (λ s. canonical_face (oriented vertices s)) slots

-- The six faces of every block.
unfoldable pub face_keys : List BlockMeshBlock → List (List ℕ)
face_keys [] = []
face_keys (b ∷ bs) = slot_keys b.vertices hex_face_slots ++ face_keys bs

-- The twelve edges of every block.
unfoldable pub block_edges_of : List BlockMeshBlock → List (ℕ × ℕ)
block_edges_of [] = []
block_edges_of (b ∷ bs) = edges_of b.vertices ++ block_edges_of bs

owners-add_owner :
    (key : List ℕ) (o : BlockFaceOwner) (m : FaceOwners) (k : List ℕ)
    → length (owners_of (add_owner key o m) k)
      ≡ length (owners_of m k) + (if key == k then 1 else 0)
unfolding add_owner owners_of
owners-add_owner key o [] k = ground arith
owners-add_owner key o ((j, owners) ∷ rest) k = elim (Bool-cases (j == key)) [
  | inl same ↦ ground (arith, (eq_iff j key).0 same, eq_refl key, length-append owners (o ∷ []))
  | inr other ↦
      ground (arith, other, eq_iff j k, eq_iff key k, eq_iff j key, owners-add_owner key o rest k)
]

owners-add_faces :
    (b : ℕ) (vertices : List ℕ) (i : ℕ) (slots : List (List ℕ)) (m : FaceOwners) (k : List ℕ)
    → length (owners_of (add_faces b vertices i slots m) k)
      ≡ length (owners_of m k) + tally k (slot_keys vertices slots)
unfolding add_faces tally
owners-add_faces b vertices i [] m k = ground arith
owners-add_faces b vertices i (s ∷ slots) m k =
    let owner : BlockFaceOwner = record {
      block_index = b;
      local_face_index = i;
      oriented_vertices = oriented vertices s;
    } in
    let key = canonical_face (oriented vertices s) in
    ground (
      arith,
      owners-add_faces b vertices (suc i) slots (add_owner key owner m) k,
      owners-add_owner key owner m k,
    )

owners-add_block :
    (i : ℕ) (b : BlockMeshBlock) (ir : BlockMeshTopologyIr) (k : List ℕ)
    → length (owners_of (add_block i b ir).face_owners k)
      ≡ length (owners_of ir.face_owners k) + tally k (slot_keys b.vertices hex_face_slots)
unfolding add_block
owners-add_block i b ir k = owners-add_faces i b.vertices 0 hex_face_slots ir.face_owners k

owners-add_blocks :
    (i : ℕ) (blocks : List BlockMeshBlock) (ir : BlockMeshTopologyIr) (k : List ℕ)
    → length (owners_of (add_blocks i blocks ir).face_owners k)
      ≡ length (owners_of ir.face_owners k) + tally k (face_keys blocks)
unfolding add_blocks face_keys tally
owners-add_blocks i [] ir k = sym (add_zero (length (owners_of ir.face_owners k)))
owners-add_blocks i (b ∷ bs) ir k =
    owners-add_blocks (suc i) bs (add_block i b ir) k
    ∙ ap (λ n. n + tally k (face_keys bs)) (owners-add_block i b ir k)
    ∙ add_assoc (length (owners_of ir.face_owners k))
        (tally k (slot_keys b.vertices hex_face_slots)) (tally k (face_keys bs))
    ∙ ap (λ n. length (owners_of ir.face_owners k) + n)
        (sym (tally-append k (slot_keys b.vertices hex_face_slots) (face_keys bs)))

-- A face has as many owners as it is a face of blocks.
pub owners-from_spec :
    (spec : TypedBlockMeshFile) (k : List ℕ)
    → length (owners_of (from_spec spec).face_owners k) ≡ tally k (face_keys spec.blocks)
unfolding from_spec owners_of
owners-from_spec spec k =
    owners-add_blocks 0 spec.blocks (record { face_owners = []; block_edges = [] }) k
    ∙ zero_add (tally k (face_keys spec.blocks))

edges-add_block :
    (i : ℕ) (b : BlockMeshBlock) (ir : BlockMeshTopologyIr)
    → (add_block i b ir).block_edges ≡ ir.block_edges ++ edges_of b.vertices
unfolding add_block
edges-add_block i b ir = refl

edges-add_blocks :
    (i : ℕ) (blocks : List BlockMeshBlock) (ir : BlockMeshTopologyIr)
    → (add_blocks i blocks ir).block_edges ≡ ir.block_edges ++ block_edges_of blocks
unfolding add_blocks block_edges_of
edges-add_blocks i [] ir = sym (append_nil ir.block_edges)
edges-add_blocks i (b ∷ bs) ir =
    edges-add_blocks (suc i) bs (add_block i b ir)
    ∙ ap (λ es. es ++ block_edges_of bs) (edges-add_block i b ir)
    ∙ append_assoc ir.block_edges (edges_of b.vertices) (block_edges_of bs)

-- The edges are those of the blocks.
pub edges-from_spec :
    (spec : TypedBlockMeshFile) → (from_spec spec).block_edges ≡ block_edges_of spec.blocks
unfolding from_spec
edges-from_spec spec =
    edges-add_blocks 0 spec.blocks (record { face_owners = []; block_edges = [] })

abbrev keys : FaceOwners → List (List ℕ)
keys m = map (λ (entry : List ℕ × List BlockFaceOwner). entry.0) m

keys-add_owner :
    (key : List ℕ) (o : BlockFaceOwner) (m : FaceOwners) (k : List ℕ)
    → contains (keys (add_owner key o m)) k ≡ ((k == key) || contains (keys m) k)
unfolding add_owner contains
keys-add_owner key o [] k = ground arith
keys-add_owner key o ((j, owners) ∷ rest) k = elim (Bool-cases (j == key)) [
  | inl same ↦ rw same (ground (arith, eq_iff j key, eq_iff k key, eq_iff k j))
  | inr other ↦ rw other (ground (arith, keys-add_owner key o rest k))
]

distinct-add_owner :
    (key : List ℕ) (o : BlockFaceOwner) (m : FaceOwners)
    → distinct (keys m) ≡ true
    → distinct (keys (add_owner key o m)) ≡ true
unfolding add_owner distinct contains
distinct-add_owner key o [] h = refl
distinct-add_owner key o ((j, owners) ∷ rest) h = elim (Bool-cases (j == key)) [
  | inl same ↦ rw same h
  | inr other ↦
      rw other (ground (arith, other, keys-add_owner key o rest j, distinct-add_owner key o rest))
]

distinct-add_faces :
    (b : ℕ) (vertices : List ℕ) (i : ℕ) (slots : List (List ℕ)) (m : FaceOwners)
    → distinct (keys m) ≡ true
    → distinct (keys (add_faces b vertices i slots m)) ≡ true
unfolding add_faces
distinct-add_faces b vertices i [] m h = h
distinct-add_faces b vertices i (s ∷ slots) m h =
    let owner : BlockFaceOwner = record {
      block_index = b;
      local_face_index = i;
      oriented_vertices = oriented vertices s;
    } in
    let key = canonical_face (oriented vertices s) in
    distinct-add_faces b vertices (suc i) slots (add_owner key owner m)
      (distinct-add_owner key owner m h)

distinct-add_block :
    (i : ℕ) (b : BlockMeshBlock) (ir : BlockMeshTopologyIr)
    → distinct (keys ir.face_owners) ≡ true
    → distinct (keys (add_block i b ir).face_owners) ≡ true
unfolding add_block
distinct-add_block i b ir h = distinct-add_faces i b.vertices 0 hex_face_slots ir.face_owners h

distinct-add_blocks :
    (i : ℕ) (blocks : List BlockMeshBlock) (ir : BlockMeshTopologyIr)
    → distinct (keys ir.face_owners) ≡ true
    → distinct (keys (add_blocks i blocks ir).face_owners) ≡ true
unfolding add_blocks
distinct-add_blocks i [] ir h = h
distinct-add_blocks i (b ∷ bs) ir h =
    distinct-add_blocks (suc i) bs (add_block i b ir) (distinct-add_block i b ir h)

distinct-from_spec :
    (spec : TypedBlockMeshFile) → distinct (keys (from_spec spec).face_owners) ≡ true
unfolding from_spec distinct
distinct-from_spec spec =
    distinct-add_blocks 0 spec.blocks (record { face_owners = []; block_edges = [] }) refl

abbrev is_manifold : List ℕ × List BlockFaceOwner → Bool
is_manifold entry = leb (length entry.1) 2

manifold_issues_iff : (m : FaceOwners) → (manifold_issues m ≡ []) ↔ (all is_manifold m ≡ true)
unfolding manifold_issues all
manifold_issues_iff [] = ground arith
manifold_issues_iff ((k, owners) ∷ rest) = ground (arith, manifold_issues_iff rest)

owned_of_all : (m : FaceOwners) (k : List ℕ) → all is_manifold m ≡ true → length (owners_of m k) ≤ 2
unfolding all owners_of
owned_of_all [] k h = ground arith
owned_of_all ((j, owners) ∷ rest) k h = ground (arith, owned_of_all rest k)

absent_owners : (m : FaceOwners) (k : List ℕ) → contains (keys m) k ≡ false → owners_of m k ≡ []
unfolding owners_of contains
absent_owners [] k h = refl
absent_owners ((j, owners) ∷ rest) k h =
    ground (arith, eq_iff k j, eq_iff j k, absent_owners rest k)

all_of_owned :
    (m : FaceOwners)
    → distinct (keys m) ≡ true
    → ((k : List ℕ) → length (owners_of m k) ≤ 2)
    → all is_manifold m ≡ true
unfolding all owners_of distinct
all_of_owned [] d h = refl
all_of_owned ((j, owners) ∷ rest) d h =
    let small = h j in
    let others = all_of_owned rest (ground arith) (λ k. rest_owned k (Bool-cases (j == k))) in
    ground (arith, small, eq_refl j, others)
  where
    rest_owned :
        (k : List ℕ) → ((j == k) ≡ true) ⊎ ((j == k) ≡ false) → length (owners_of rest k) ≤ 2
    rest_owned k (inl same) = ground (arith, (eq_iff j k).0 same, absent_owners rest j)
    rest_owned k (inr other) = rw other at (h k)

-- No face is reported exactly if every face is a face of at most two blocks.
pub manifold_issues-from_spec :
    (spec : TypedBlockMeshFile)
    → (manifold_issues (sorted_items (from_spec spec).face_owners) ≡ [])
      ↔ ((k : List ℕ) → tally k (face_keys spec.blocks) ≤ 2)
unfolding sorted_items
manifold_issues-from_spec spec =
    let m = (from_spec spec).face_owners in
    let (to, from) = manifold_issues_iff (sorted_items m) in
    (
      λ h k. rw (← owners-from_spec spec k) (owned_of_all m k (sorted_to (to h))),
      λ h. from (
          sorted_from
            (all_of_owned m (distinct-from_spec spec) (λ k. rw (owners-from_spec spec k) (h k)))),
    )
  where
    sorted_to :
        all is_manifold (sorted_items (from_spec spec).face_owners) ≡ true
        → all is_manifold (from_spec spec).face_owners ≡ true
    sorted_to h =
        sym (all-sort_by is_manifold (λ a b. str_le a.0 b.0) (from_spec spec).face_owners) ∙ h

    sorted_from :
        all is_manifold (from_spec spec).face_owners ≡ true
        → all is_manifold (sorted_items (from_spec spec).face_owners) ≡ true
    sorted_from h = all-sort_by is_manifold (λ a b. str_le a.0 b.0) (from_spec spec).face_owners ∙ h
