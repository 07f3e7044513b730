-- ===== src/Mesh/Dependencies/Ancestors.antt =====
-- The closure loop of `dependencies` ends, and selects the operations that a region's mesh
-- depends on.

use open_foam_agent.Prelude.{
  ℕ, zero, suc, ◌+◌, ◌<◌, Str, true, ◌&&◌, none, some, List, [], ◌∷◌, all, ◌==◌, nat_eq, eq_iff,
  ◌≡◌, ◌≢◌, ◌↔◌, refl, ◌∙◌, arith, Bool-cases, Option-cases, inl, inr, length, get_elem?, contains,
  contains-append, all-contains, ltb, ltb→lt, filter,
}
use open_foam_agent.Prelude.Worklist.{
  Outcome, closed, missing, out_of_fuel, Reach, here, step, Means, close_lem,
}
use open_foam_agent.Mesh.Dependencies.{
  Operation, is_chronological, selects, initial, parents_at, all_parents, selected_operations,
}

-- An operation that writes a region's mesh, or that made an input of such a one.
pub data Ancestor (region : Str) (operations : List Operation) : ℕ → Type 0 where
  writer :
      {i : ℕ} (node : Operation)
      → get_elem? operations i ≡ some node
      → selects region node ≡ true
      → Ancestor region operations i
  parent :
      {i j : ℕ} (node : Operation)
      → Ancestor region operations j
      → get_elem? operations j ≡ some node
      → contains node.parents i ≡ true
      → Ancestor region operations i

get_elem?-cases :
    (start i : ℕ) (ops : List Operation) (node : Operation)
    → is_chronological start ops ≡ true
    → get_elem? ops i ≡ some node
    → (node.id ≡ start + i) × (i < length ops) × (all (λ p. ltb p (start + i)) node.parents ≡ true)
unfolding is_chronological
get_elem?-cases start i [] node h e = cc
get_elem?-cases start zero (op ∷ ops) node h e =
    let same : op.id ≡ start = ground arith in
    let zero_right : start + 0 ≡ start = omega arith in rw zero_right (ground arith)
get_elem?-cases start (suc i) (op ∷ ops) node h e =
    let shift : suc start + i ≡ start + suc i = omega arith in
    let (a, b, c) = get_elem?-cases (suc start) i ops node (ground arith) e in
    (a ∙ shift, omega arith, rw (← shift) c)

get_elem?-of_lt :
    (i : ℕ) (ops : List Operation)
    → i < length ops
    → (node : Operation) × (get_elem? ops i ≡ some node)
get_elem?-of_lt i [] h = absurd (omega arith)
get_elem?-of_lt zero (op ∷ ops) h = (op, refl)
get_elem?-of_lt (suc i) (op ∷ ops) h = get_elem?-of_lt i ops (omega arith)

module _ (region : Str) where
  initial-writer :
      (start i : ℕ) (ops : List Operation)
      → is_chronological start ops ≡ true
      → contains (initial region ops) i ≡ true
      → (j : ℕ) × (node : Operation) × (i ≡ start + j)
        × (get_elem? ops j ≡ some node)
        × (selects region node ≡ true)
  unfolding initial is_chronological filter contains
  initial-writer start i [] h m = cc
  initial-writer start i (op ∷ ops) h m = elim (Bool-cases (selects region op && (i == op.id))) [
    | inl first ↦ (0, op, ground (arith, eq_iff i op.id), refl, ground arith)
    | inr later ↦
        let (j, node, at, found, writes) =
          initial-writer (suc start) i ops (ground arith) (ground arith) in
        (suc j, node, omega arith, found, writes)
  ]

  writer-initial :
      (start i : ℕ) (ops : List Operation) (node : Operation)
      → is_chronological start ops ≡ true
      → get_elem? ops i ≡ some node
      → selects region node ≡ true
      → contains (initial region ops) (start + i) ≡ true
  unfolding initial is_chronological filter contains
  writer-initial start i [] node h e writes = cc
  writer-initial start zero (op ∷ ops) node h e writes =
      let same : op.id ≡ start = ground arith in
      let zero_right : start + 0 ≡ start = omega arith in
      let selected : selects region op ≡ true = ground arith in
      rw zero_right (ground (arith, selected, eq_iff start op.id, same))
  writer-initial start (suc i) (op ∷ ops) node h e writes =
      let shift : suc start + i ≡ start + suc i = omega arith in
      let later = writer-initial (suc start) i ops node (ground arith) e writes in
      let later' : contains (initial region ops) (start + suc i) ≡ true = rw (← shift) later in
      ground (arith, later')

parents-in_all :
    (ops : List Operation) (a b : ℕ) (ds : List ℕ)
    → parents_at ops a ≡ some ds
    → contains ds b ≡ true
    → contains (all_parents ops) b ≡ true
parents-in_all [] a b ds e m = cc
parents-in_all (op ∷ ops) zero b ds e m =
    ground (arith, contains-append op.parents (all_parents ops) b)
parents-in_all (op ∷ ops) (suc a) b ds e m =
    ground (arith, contains-append op.parents (all_parents ops) b, parents-in_all ops a b ds e m)

parents_at_lem :
    (ops : List Operation) (i : ℕ) (ds : List ℕ)
    → parents_at ops i ≡ some ds
    → (node : Operation) × (get_elem? ops i ≡ some node) × (ds ≡ node.parents)
parents_at_lem ops i ds e = elim (Option-cases (get_elem? ops i)) [
  | inl gone ↦ absurd (cc (rw gone at e))
  | inr (node, found) ↦ (node, found, ground arith)
]

module _ (region : Str) (ops : List Operation) (h : is_chronological 0 ops ≡ true) where
  abbrev Led : ℕ → Type 0
  Led = Reach (parents_at ops) (initial region ops)

  Ancestor-of_reach : {i : ℕ} → Led i → Ancestor region ops i
  Ancestor-of_reach (here {a} m) =
      let (j, node, at, found, writes) = initial-writer region 0 a ops h m in
      writer node (ground (arith, at)) writes
  Ancestor-of_reach (step {a} {b} ds r known m) =
      let (node, found, same) = parents_at_lem ops a ds known in
      parent node (Ancestor-of_reach r) found (ground (arith, same, m))

  reach-of_Ancestor : {i : ℕ} → Ancestor region ops i → Led i
  reach-of_Ancestor (writer {i} node found writes) =
      here (ground (arith, writer-initial region 0 i ops node h found writes))
  reach-of_Ancestor (parent {i} {j} node r found m) =
      step node.parents (reach-of_Ancestor r) (ground (arith, found)) m

  Ancestor-lt : {i : ℕ} → Ancestor region ops i → i < length ops
  Ancestor-lt (writer {i} node found writes) = (get_elem?-cases 0 i ops node h found).1
  Ancestor-lt (parent {i} {j} node r found m) =
      let (id, below, earlier) = get_elem?-cases 0 j ops node h found in
      let lt = ltb→lt i (0 + j) (all-contains (λ p. ltb p (0 + j)) node.parents i earlier m) in
      omega arith

  known_id : {i : ℕ} → Ancestor region ops i → parents_at ops i ≢ none
  known_id r gone =
      let (node, found) = get_elem?-of_lt _ ops (Ancestor-lt r) in absurd (cc (rw found at gone))

  -- What an outcome of the loop says about the ancestors.
  ancestors_of_outcome :
      (o : Outcome ℕ)
      → (o ≢ out_of_fuel) × Means (parents_at ops) (initial region ops) o
      → (r : List ℕ) × (o ≡ closed r) × ((i : ℕ) → (contains r i ≡ true) ↔ Ancestor region ops i)
  ancestors_of_outcome (closed r) (ends, means) = (
    r,
    refl,
    λ i. (λ m. Ancestor-of_reach ((means.0 i).0 m), λ a. (means.0 i).1 (reach-of_Ancestor a)),
  )
  ancestors_of_outcome missing (ends, (i, r, gone)) = absurd (known_id (Ancestor-of_reach r) gone)
  ancestors_of_outcome out_of_fuel (ends, means) = absurd (ends refl)

  -- For a history whose ids are in order and whose parents are earlier, the loop of `dependencies`
  -- ends without an unknown id, and it selects exactly the operations that write the region's mesh,
  -- and those that made an input of a selected one.
  pub selected_operations-ancestors :
      (r : List ℕ) × (selected_operations region ops ≡ closed r)
      × ((i : ℕ) → (contains r i ≡ true) ↔ Ancestor region ops i)
  unfolding selected_operations
  selected_operations-ancestors =
      let fuel = length (all_parents ops) + length (initial region ops) in
      ancestors_of_outcome (selected_operations region ops) (
        close_lem (parents_at ops) (initial region ops) (all_parents ops) (parents-in_all ops) fuel
          (omega arith))
