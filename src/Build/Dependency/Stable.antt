-- ===== src/Build/Dependency/Stable.antt =====
-- The converse of completeness, and the stability of the sort.
use mathlib.Core.List.{Perm}
use native.Mathlib.Numerals.{add-one}
use open_foam_agent.Prelude.{
  ℕ, zero, suc, ◌+◌, ◌≤◌, ◌<◌, Bool, true, List, [], ◌∷◌, ◌++◌, ◌==◌, nat_eq, if◌then◌else◌, ltb,
  ◌≡◌, refl, ap, contains, arith, Bool-cases, inl, inr, eq_iff, length, length-append, ◌⊎◌,
}
use open_foam_agent.Build.Dependency.{range_from, Sorting, start, sorted_indices}
use open_foam_agent.Build.Dependency.Release.{
  contains-range_from, distinct-range_from, length-range_from, count_if_all_zero, count_if-congr,
}
use open_foam_agent.Build.Dependency.Invariant.{
  IsSorting, IsSorting-start, ordered-take_index, waits_for,
}
use open_foam_agent.Build.Dependency.Loop.{
  length-lt_of_missing, length-eq-count_if, Rule, sort_loop_ind,
}
use open_foam_agent.Build.Dependency.Correct.{
  IsScheduled, IsRanked, sorted_indices-IsScheduled, contains-sorted_indices,
}
use open_foam_agent.Build.Dependency.Perms.{perm_of_contains}

-- Where an index stands first.
unfoldable pub position : List ℕ → ℕ → ℕ
position [] v = 0
position (x ∷ xs) v = if v == x then 0 else suc (position xs v)

range_from-snoc : (n i : ℕ) → range_from i (suc n) ≡ range_from i n ++ (i + n) ∷ []
unfolding range_from
range_from-snoc zero i = ground arith
range_from-snoc (suc n) i = ground (arith, range_from-snoc n (suc i))

module _ (count : ℕ) (edge : ℕ → ℕ → Bool) where
  position-lt :
      (seen xs : List ℕ) (p v : ℕ)
      → IsScheduled count edge seen xs
      → contains xs v ≡ true
      → p < count
      → edge p v ≡ true
      → (contains seen p ≡ true) ⊎ (position xs p < position xs v)
  unfolding contains position
  position-lt seen [] p v h m lt e = absurd (ground arith)
  position-lt seen (x ∷ xs) p v h m lt e = elim (Bool-cases (v == x)) [
    | inl same ↦ inl (h.0 p lt (rw (← (eq_iff v x).0 same) e))
    | inr other ↦ elim (position-lt (x ∷ seen) xs p v h.1 (ground arith) lt e) [
      | inl s ↦ ground arith
      | inr r ↦ ground arith
    ]
  ]

  -- If every index is placed, the positions rank the graph.
  pub IsRanked-position :
      ((v : ℕ) → v < count → contains (sorted_indices count edge) v ≡ true)
      → IsRanked count edge (position (sorted_indices count edge))
  IsRanked-position full p v lp lv e =
      elim (position-lt [] (sorted_indices count edge) p v (sorted_indices-IsScheduled count edge).0
        (full v lv) lp e) [ inl no_seen ↦ absurd (unfold contains in cc no_seen) | inr r ↦ r ]

  full_of_length :
      length (sorted_indices count edge) ≡ count
      → (v : ℕ) → v < count
      → contains (sorted_indices count edge) v ≡ true
  full_of_length e v lt = elim (Bool-cases (contains (sorted_indices count edge) v)) [
    | inl placed ↦ placed
    | inr missing ↦
        let facts = sorted_indices-IsScheduled count edge in
        absurd (
          omega (
            arith,
            length-lt_of_missing count (sorted_indices count edge) v facts.1 facts.2 lt missing,
          ))
  ]

  perm_of_full :
      ((v : ℕ) → v < count → contains (sorted_indices count edge) v ≡ true)
      → Perm (sorted_indices count edge) (range_from 0 count)
  perm_of_full full =
      let facts = sorted_indices-IsScheduled count edge in
      perm_of_contains (sorted_indices count edge) (range_from 0 count) facts.1
        (distinct-range_from count 0)
        (λ a. ground (arith, contains-range_from count 0 a, facts.2 a, full a))

  -- The length test of the code: the order is complete exactly if it is a permutation.
  pub perm_of_length :
      length (sorted_indices count edge) ≡ count
      → Perm (sorted_indices count edge) (range_from 0 count)
  perm_of_length e = perm_of_full (full_of_length e)

  pub IsRanked-of_length :
      length (sorted_indices count edge) ≡ count
      → IsRanked count edge (position (sorted_indices count edge))
  IsRanked-of_length e = IsRanked-position (full_of_length e)

  pub length_of_ranked :
      (rank : ℕ → ℕ) → IsRanked count edge rank → length (sorted_indices count edge) ≡ count
  length_of_ranked rank ranked =
      let facts = sorted_indices-IsScheduled count edge in
      let same =
        count_if-congr (contains (sorted_indices count edge)) (contains (range_from 0 count))
          (range_from 0 count)
          (λ v m. ground (
            arith,
            contains-range_from count 0 v,
            contains-sorted_indices count edge rank ranked v,
          )) in
      omega (
        arith,
        length-eq-count_if count (sorted_indices count edge) facts.1 facts.2,
        length-eq-count_if count (range_from 0 count) (distinct-range_from count 0)
            (λ v m. ground (arith, contains-range_from count 0 v)),
        same,
        length-range_from count 0,
      )

module _ (count : ℕ) (edge : ℕ → ℕ → Bool)
    (forward : (p v : ℕ) → p < count → v < count → edge p v ≡ true → p < v) where
  abbrev InOrder : Sorting → Type 0
  InOrder s = s.ordered ≡ range_from 0 (length s.ordered)

  module _ (s : Sorting) (v : ℕ) (inv : IsSorting count edge s) (m : contains s.ready v ≡ true)
      (least : (y : ℕ) → contains s.ready y ≡ true → v ≤ y) (h : InOrder s) where
    contains_below : (y : ℕ) → contains s.ordered y ≡ ltb y (length s.ordered)
    contains_below y =
        let e : contains s.ordered y ≡ contains (range_from 0 (length s.ordered)) y =
          ap (λ l. contains l y) h in
        ground (arith, e, contains-range_from (length s.ordered) 0 y)

    next_is_length : v ≡ length s.ordered
    next_is_length =
        let k = length s.ordered in
        let facts = inv.ready_iff v in
        let below_v = contains_below v in
        let small : k < count = ground (arith, facts, below_v) in
        let z =
          count_if_all_zero (waits_for count edge s.ordered k) (range_from 0 count)
            (λ p n. ground (arith, contains-range_from count 0 p, forward p k, contains_below p)) in
        let k_ready : contains s.ready k ≡ true =
          ground (arith, inv.ready_iff k, inv.counted k small, z, contains_below k) in
        ground (arith, facts, below_v, least k k_ready)

  InOrder-rule : Rule count edge InOrder
  InOrder-rule = record {
    round = λ s v inv m least h.
        let e = next_is_length s v inv m least h in
        rw (ordered-take_index count edge s inv v m) (
          rw (length-append s.ordered (v ∷ []), add-one)
            (ground (arith, range_from-snoc (length s.ordered) 0, h, e)));
  }

  -- Where every edge goes from an earlier index to a later one, nothing moves.
  pub sorted_indices_in_order : sorted_indices count edge ≡ range_from 0 count
  unfolding sorted_indices start
  sorted_indices_in_order =
      let (_, h) =
        sort_loop_ind count edge InOrder-rule count (start count edge) (IsSorting-start count edge)
          (unfold range_from in refl) in
      let n = length_of_ranked count edge (λ i. i) forward in rw n at h
