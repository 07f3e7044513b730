-- ===== src/Mesh/Topology/Faces.antt =====
-- When the loops over boundary faces and over edges of tools/block_mesh_topology.py report nothing.
use open_foam_agent.Prelude.{
  ℕ, suc, Str, Bool, true, false, not, ◌&&◌, Option, none, some, List, [], ◌∷◌, map, all, ◌==◌,
  nat_eq, list_eq, pair_eq, Eq, eq_iff, ◌≡◌, refl, ◌↔◌, arith, Bool-cases, inl, inr, contains,
  distinct, dedupe, length, append_nil_iff,
}
use open_foam_agent.Mesh.Topology.{
  BlockFaceOwner, FaceOwners, BoundaryFace, Assigned, Defined, BlockMeshEdge, canonical_face,
  canonical_edge, owners_of, previous_of, check_owners, check_face, assign, face_issues, defined_at,
  define, check_edge, edge_issues,
}

module _ {ℓ} {A : Type ℓ} ⦃e : Eq A⦄ where
  -- No element stands twice or among the seen ones.
  unfoldable pub is_fresh : List A → List A → Bool
  is_fresh seen [] = true
  is_fresh seen (x ∷ xs) = not (contains seen x) && is_fresh (x ∷ seen) xs

  unseen-cons :
      (seen xs : List A) (x : A)
      → all (λ y. not (contains (x ∷ seen) y)) xs
        ≡ (not (contains xs x) && all (λ y. not (contains seen y)) xs)
  unfolding all contains
  unseen-cons seen [] x = refl
  unseen-cons seen (y ∷ ys) x = ground (arith, eq_iff x y, eq_iff y x, unseen-cons seen ys x)

  is_fresh_split :
      (seen xs : List A) → is_fresh seen xs ≡ (all (λ y. not (contains seen y)) xs && distinct xs)
  unfolding is_fresh distinct all
  is_fresh_split seen [] = refl
  is_fresh_split seen (x ∷ xs) = ground (arith, unseen-cons seen xs x, is_fresh_split (x ∷ seen) xs)

  none_seen : (xs : List A) → all (λ y. not (contains [] y)) xs ≡ true
  unfolding all contains
  none_seen [] = refl
  none_seen (x ∷ xs) = none_seen xs

  pub is_fresh_nil : (xs : List A) → is_fresh [] xs ≡ distinct xs
  is_fresh_nil xs = ground (arith, is_fresh_split [] xs, none_seen xs)

abbrev assigned_keys : Assigned → List (List ℕ)
assigned_keys a = map (λ (entry : List ℕ × (Str × ℕ)). entry.0) a

previous_of_iff :
    (a : Assigned) (k : List ℕ) → (previous_of a k ≡ none) ↔ (contains (assigned_keys a) k ≡ false)
unfolding previous_of contains
previous_of_iff [] k = ground arith
previous_of_iff ((j, place) ∷ rest) k = ground (arith, previous_of_iff rest k)

-- A face of four vertices that has one owner.
abbrev pub is_exterior : FaceOwners → BoundaryFace → Bool
is_exterior owners f =
    (length (dedupe f.face) == 4) && (length (owners_of owners (canonical_face f.face)) == 1)

abbrev entry_of : BoundaryFace → List ℕ × (Str × ℕ)
entry_of f = (canonical_face f.face, (f.patch, f.index))

abbrev is_unassigned : Assigned → BoundaryFace → Bool
is_unassigned a f = not (contains (assigned_keys a) (canonical_face f.face))

assign_iff :
    (a : Assigned) (f : BoundaryFace) (p : Option (Str × ℕ))
    → (((assign a f p).0 ≡ []) ↔ (p ≡ none)) × (p ≡ none → (assign a f p).1 ≡ entry_of f ∷ a)
unfolding assign
assign_iff a f none = ((λ h. refl, λ h. refl), λ h. refl)
assign_iff a f (some p) = ((λ h. absurd (cc), λ h. absurd (cc)), λ h. absurd (cc))

check_owners_iff :
    (a : Assigned) (f : BoundaryFace) (os : List BlockFaceOwner)
    → (((check_owners a f os).0 ≡ []) ↔ (((length os == 1) && is_unassigned a f) ≡ true))
      × ((check_owners a f os).0 ≡ [] → (check_owners a f os).1 ≡ entry_of f ∷ a)
unfolding check_owners
check_owners_iff a f [] = ((λ h. absurd (cc), λ h. absurd (cc)), λ h. absurd (cc))
check_owners_iff a f (o ∷ []) =
    let (done, next) = assign_iff a f (previous_of a (canonical_face f.face)) in
    let absent = previous_of_iff a (canonical_face f.face) in
    (
      (λ h. ground (arith, absent.0 (done.0 h)), λ h. done.1 (absent.1 (ground arith))),
      λ h. next (done.0 h),
    )
check_owners_iff a f (o ∷ o2 ∷ []) = ((λ h. absurd (cc), λ h. absurd (cc)), λ h. absurd (cc))
check_owners_iff a f (o ∷ o2 ∷ o3 ∷ os) = ((λ h. absurd (cc), λ h. ground arith), λ h. absurd (cc))

-- What one face reports, and what it leaves assigned.
check_face_iff :
    (owners : FaceOwners) (a : Assigned) (f : BoundaryFace)
    → (((check_face owners a f).0 ≡ []) ↔ ((is_exterior owners f && is_unassigned a f) ≡ true))
      × ((check_face owners a f).0 ≡ [] → (check_face owners a f).1 ≡ entry_of f ∷ a)
unfolding check_face
check_face_iff owners a f = elim (Bool-cases (length (dedupe f.face) == 4)) [
  | inl four ↦ rw four (check_owners_iff a f (owners_of owners (canonical_face f.face)))
  | inr other ↦ rw other ((λ h. absurd (cc), λ h. absurd (cc)), λ h. absurd (cc))
]

-- The loop over boundary faces reports nothing exactly if all are exterior and none is listed twice.
pub face_issues_iff :
    (owners : FaceOwners) (a : Assigned) (fs : List BoundaryFace)
    → (face_issues owners a fs ≡ []) ↔ (
        (all (is_exterior owners) fs
          && is_fresh (assigned_keys a) (map (λ (f : BoundaryFace). canonical_face f.face) fs))
        ≡ true)
unfolding face_issues all is_fresh
face_issues_iff owners a [] = ground arith
face_issues_iff owners a (f ∷ fs) =
    let (done, next) = check_face_iff owners a f in
    let (split, join) =
      append_nil_iff (check_face owners a f).0 (face_issues owners (check_face owners a f).1 fs) in
    let rest = face_issues_iff owners (entry_of f ∷ a) fs in
    (
      λ h.
          let (now, later) = split h in ground (arith, done.0 now, rest.0 (rw (next now) at later)),
      λ h. let now = done.1 (ground arith) in join (now, rw (next now) (rest.1 (ground arith))),
    )

abbrev defined_keys : Defined → List (ℕ × ℕ)
defined_keys d = map (λ (entry : (ℕ × ℕ) × ℕ). entry.0) d

defined_at_iff :
    (d : Defined) (k : ℕ × ℕ) → (defined_at d k ≡ none) ↔ (contains (defined_keys d) k ≡ false)
unfolding defined_at contains
defined_at_iff [] k = ground arith
defined_at_iff ((j, i) ∷ rest) k = ground (arith, defined_at_iff rest k)

abbrev pub edge_key : BlockMeshEdge → ℕ × ℕ
edge_key e = canonical_edge e.start e.end

-- An edge between two vertices that is an edge of a block.
abbrev pub is_block_edge : List (ℕ × ℕ) → BlockMeshEdge → Bool
is_block_edge block_edges e = not (e.start == e.end) && contains block_edges (edge_key e)

define_iff :
    (d : Defined) (i : ℕ) (e : BlockMeshEdge) (p : Option ℕ)
    → (((define d i e p).0 ≡ []) ↔ (p ≡ none))
      × (p ≡ none → (define d i e p).1 ≡ (edge_key e, i) ∷ d)
unfolding define
define_iff d i e none = ((λ h. refl, λ h. refl), λ h. refl)
define_iff d i e (some p) = ((λ h. absurd (cc), λ h. absurd (cc)), λ h. absurd (cc))

check_edge_iff :
    (block_edges : List (ℕ × ℕ)) (d : Defined) (i : ℕ) (e : BlockMeshEdge)
    → (((check_edge block_edges d i e).0 ≡ [])
        ↔ ((is_block_edge block_edges e && not (contains (defined_keys d) (edge_key e))) ≡ true))
      × ((check_edge block_edges d i e).0 ≡ []
          → (check_edge block_edges d i e).1 ≡ (edge_key e, i) ∷ d)
unfolding check_edge
check_edge_iff block_edges d i e = elim (Bool-cases (e.start == e.end)) [
  | inl same ↦ rw same ((λ h. absurd (cc), λ h. absurd (cc)), λ h. absurd (cc))
  | inr other ↦ elim (Bool-cases (contains block_edges (edge_key e))) [
    | inl on ↦
        let (done, next) = define_iff d i e (defined_at d (edge_key e)) in
        let absent = defined_at_iff d (edge_key e) in
        rw (other, on)
          (
            (λ h. ground (arith, absent.0 (done.0 h)), λ h. done.1 (absent.1 (ground arith))),
            λ h. next (done.0 h),
          )
    | inr off ↦ rw (other, off) ((λ h. absurd (cc), λ h. absurd (cc)), λ h. absurd (cc))
  ]
]

-- The loop over edges reports nothing exactly if all are block edges and none is defined twice.
pub edge_issues_iff :
    (block_edges : List (ℕ × ℕ)) (d : Defined) (i : ℕ) (es : List BlockMeshEdge)
    → (edge_issues block_edges d i es ≡ [])
      ↔ ((all (is_block_edge block_edges) es && is_fresh (defined_keys d) (map edge_key es)) ≡ true)
unfolding edge_issues all is_fresh
edge_issues_iff block_edges d i [] = ground arith
edge_issues_iff block_edges d i (e ∷ es) =
    let (done, next) = check_edge_iff block_edges d i e in
    let r = check_edge block_edges d i e in
    let (split, join) = append_nil_iff r.0 (edge_issues block_edges r.1 (suc i) es) in
    let rest = edge_issues_iff block_edges ((edge_key e, i) ∷ d) (suc i) es in
    (
      λ h.
          let (now, later) = split h in ground (arith, done.0 now, rest.0 (rw (next now) at later)),
      λ h. let now = done.1 (ground arith) in join (now, rw (next now) (rest.1 (ground arith))),
    )
