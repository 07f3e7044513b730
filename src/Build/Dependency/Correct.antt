-- ===== src/Build/Dependency/Correct.antt =====
-- What the sort computes: producers stand before their consumers; everything is placed exactly if
-- the edges have no cycle; and an order that is good already is kept.

use open_foam_agent.Prelude.{
  ℕ, zero, suc, ◌<◌, Bool, true, false, ◌||◌, List, [], ◌∷◌, ◌++◌, nat_eq, ◌≡◌, refl, contains,
  distinct, arith, Bool-cases, inl, inr, eq_iff,
}
use open_foam_agent.Build.Dependency.{range_from, Sorting, start, sort_loop, sorted_indices}
use open_foam_agent.Build.Dependency.Release.{contains-range_from, count_if_zero, count_if_all_zero}
use open_foam_agent.Build.Dependency.Invariant.{
  IsSorting, IsSorting-start, ordered-take_index, waits_for,
}
use open_foam_agent.Build.Dependency.Loop.{Rule, sort_loop_ind, sort_loop-empty}

module _ (count : ℕ) (edge : ℕ → ℕ → Bool) where
  -- Every producer of an index stands in `seen` or before it.
  abbrev pub IsScheduled : List ℕ → List ℕ → Type 0
  IsScheduled seen [] = Unit
  IsScheduled seen (v ∷ vs) =
      ((p : ℕ) → p < count → edge p v ≡ true → contains seen p ≡ true) × IsScheduled (v ∷ seen) vs

  -- The edges go up along `rank`: there is no cycle.
  abbrev pub IsRanked : (ℕ → ℕ) → Type 0
  IsRanked rank = (p v : ℕ) → p < count → v < count → edge p v ≡ true → rank p < rank v

  IsScheduled-snoc :
      (seen xs : List ℕ) (v : ℕ)
      → IsScheduled seen xs
      → ((p : ℕ) → p < count → edge p v ≡ true → (contains seen p || contains xs p) ≡ true)
      → IsScheduled seen (xs ++ v ∷ [])
  unfolding contains
  IsScheduled-snoc seen [] v h k = (λ p lt e. ground (arith, k p lt e), tt)
  IsScheduled-snoc seen (x ∷ xs) v h k =
      (h.0, IsScheduled-snoc (x ∷ seen) xs v h.1 (λ p lt e. ground (arith, k p lt e, eq_iff p x)))

  -- A ready index has all of its producers placed.
  producers_placed :
      (s : Sorting) (v : ℕ)
      → IsSorting count edge s
      → contains s.ready v ≡ true
      → (p : ℕ) → p < count
      → edge p v ≡ true
      → contains s.ordered p ≡ true
  producers_placed s v inv m p lt e =
      let facts = inv.ready_iff v in
      let z =
        count_if_zero (waits_for count edge s.ordered v) (range_from 0 count) p
          (ground (arith, facts, inv.counted v (ground (arith, facts))))
          (ground (arith, contains-range_from count 0 p)) in
      ground (arith, z)

  IsScheduled-rule : Rule count edge (λ s. IsScheduled [] s.ordered)
  IsScheduled-rule = record {
    round = λ s v inv m least h. rw (ordered-take_index count edge s inv v m) (
        IsScheduled-snoc [] s.ordered v h
          (λ p lt e. unfold contains in ground (arith, producers_placed s v inv m p lt e)));
  }

  abbrev final : Sorting
  final = sort_loop count edge count (start count edge)

  final_facts : IsSorting count edge final × IsScheduled [] final.ordered
  unfolding start
  final_facts =
      sort_loop_ind count edge IsScheduled-rule count (start count edge)
        (IsSorting-start count edge) tt

  final-empty : final.ready ≡ []
  final-empty =
      sort_loop-empty count edge count (start count edge) (IsSorting-start count edge) (omega arith)

  -- The result names no index twice and none outside of the range, and respects the edges.
  pub sorted_indices-IsScheduled :
      IsScheduled [] (sorted_indices count edge)
      × (distinct (sorted_indices count edge) ≡ true)
      × ((v : ℕ) → contains (sorted_indices count edge) v ≡ true → v < count)
  unfolding sorted_indices
  sorted_indices-IsScheduled =
      (final_facts.1, final_facts.0.ordered_distinct, final_facts.0.in_range)

  -- An index that is not placed has a producer that is not placed.
  waits_if_missing :
      (v : ℕ)
      → v < count
      → contains final.ordered v ≡ false
      → ((p : ℕ) → p < count → edge p v ≡ true → contains final.ordered p ≡ true)
      → ⊥
  waits_if_missing v lt n h =
      let inv = final_facts.0 in
      let z =
        count_if_all_zero (waits_for count edge final.ordered v) (range_from 0 count)
          (λ p m. ground (arith, contains-range_from count 0 p, h p)) in
      let empty : contains final.ready v ≡ false = rw final-empty (unfold contains in refl) in
      ground (arith, inv.ready_iff v, inv.counted v lt, z, empty)

  below_rank :
      (rank : ℕ → ℕ)
      → IsRanked rank
      → (k v : ℕ) → rank v < k
      → v < count
      → contains final.ordered v ≡ true
  below_rank rank ranked zero v r lt = absurd (omega arith)
  below_rank rank ranked (suc k) v r lt = elim (Bool-cases (contains final.ordered v)) [
    | inl placed ↦ placed
    | inr missing ↦ absurd (
        waits_if_missing v lt missing
          (λ p lp e. below_rank rank ranked k p (omega (arith, ranked p v lp lt e)) lp))
  ]

  -- Without a cycle every index is placed.
  pub contains-sorted_indices :
      (rank : ℕ → ℕ)
      → IsRanked rank
      → (v : ℕ) → v < count
      → contains (sorted_indices count edge) v ≡ true
  unfolding sorted_indices
  contains-sorted_indices rank ranked v lt =
      below_rank rank ranked (suc (rank v)) v (omega arith) lt
