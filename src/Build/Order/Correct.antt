-- ===== src/Build/Order/Correct.antt =====
-- What `_stable_dependency_order` returns, on every branch.
use mathlib.Core.List.{Perm, filter_map}
use mathlib.Core.List.Perm
use open_foam_agent.Prelude.{
  ℕ, suc, ◌+◌, ◌≤◌, ◌<◌, true, false, Option, some, List, [], ◌∷◌, ◌==◌, nat_eq, list_eq, ◌≡◌, ◌≢◌,
  ◌⊎◌, refl, ap, ◌∙◌, ◌↔◌, arith, ltb, length, get_elem?, Bool-cases, inl, inr, eq_iff,
}
use open_foam_agent.Native.Contracts.{Registry}
use open_foam_agent.Native.Scopes.{EngineeringPlan}
use open_foam_agent.Native.Commands.{NativeOpenFoamCommand}
use open_foam_agent.Build.Failures.{Failure}
use open_foam_agent.Build.Dependency.{sorted_indices, range_from}
use open_foam_agent.Build.Dependency.Correct.{IsScheduled, IsRanked, sorted_indices-IsScheduled}
use open_foam_agent.Build.Dependency.Stable.{
  position, perm_of_length, IsRanked-of_length, length_of_ranked, sorted_indices_in_order,
}
use open_foam_agent.Build.Order.{
  Labels, edge_of, pick, collect_labels, finish_order, stable_dependency_order,
}

filter_map-range_from {ℓ} :
    {A : Type ℓ} (f : ℕ → Option A) (items : List A) (i : ℕ)
    → ((k : ℕ) → f (i + k) ≡ get_elem? items k)
    → filter_map f (range_from i (length items)) ≡ items
unfolding range_from filter_map
filter_map-range_from f [] i h = refl
filter_map-range_from f (x ∷ items) i h =
    let zero_law : i + 0 ≡ i = omega arith in
    let here : f i ≡ some x = rw zero_law at (h 0) in
    rw here (
      ap (λ r. x ∷ r)
        (filter_map-range_from f items (suc i)
          (λ k. let e : suc i + k ≡ i + suc k = omega arith in rw e (h (suc k)))))

pub pick-range {ℓ} :
    {A : Type ℓ} (items : List A) → pick items (range_from 0 (length items)) ≡ items
unfolding pick
pick-range items =
    filter_map-range_from (get_elem? items) items 0 (λ k. let e : 0 + k ≡ k = omega arith in rw e)

perm-pick {ℓ} :
    {A : Type ℓ} (items : List A) (indices : List ℕ)
    → Perm indices (range_from 0 (length items))
    → Perm (pick items indices) items
perm-pick items indices p = rw (pick-range items) at (
    let q : Perm (pick items indices) (pick items (range_from 0 (length items))) =
      unfold pick in Perm.filter_map (get_elem? items) p in
    q)

module _ (registry : Registry) (plan : EngineeringPlan)
    (invocations : List NativeOpenFoamCommand) where
  abbrev result : List NativeOpenFoamCommand × List Failure
  result = stable_dependency_order registry plan invocations

  abbrev labels : List Labels
  labels = (collect_labels registry plan invocations).0

  abbrev count : ℕ
  count = length invocations

  -- `order` lists every index once, each behind its producers, and the result follows it.
  pub record IsOrder (order : List ℕ) : Type 0 where
    pub follows : result.0 ≡ pick invocations order
    pub complete : Perm order (range_from 0 count)
    pub respects : IsScheduled count (edge_of labels) [] order

  finish_cases :
      (ls : List Labels)
      → ((finish_order invocations ls).0 ≡ pick invocations (sorted_indices count (edge_of ls)))
          × ((finish_order invocations ls).1 ≡ [])
          × (length (sorted_indices count (edge_of ls)) ≡ count)
        ⊎ ((finish_order invocations ls).0 ≡ invocations)
          × ((finish_order invocations ls).1 ≢ [])
          × (length (sorted_indices count (edge_of ls)) ≢ count)
  unfolding finish_order
  finish_cases ls = elim (Bool-cases (length (sorted_indices count (edge_of ls)) == count)) [
    | inl same ↦ inl (rw same, rw same, (eq_iff _ _).0 same)
    | inr other ↦ inr (rw other, rw other (λ e. cc), λ e. ground (arith, e))
  ]

  -- The three ways out of the function.
  data Outcome : Type 0 where
    short : count < 2 → result ≡ (invocations, []) → Outcome
    unbound :
        (f : Failure) (fs : List Failure)
        → (collect_labels registry plan invocations).1 ≡ f ∷ fs
        → result ≡ (invocations, f ∷ fs)
        → Outcome
    finished :
        2 ≤ count
        → (collect_labels registry plan invocations).1 ≡ []
        → result ≡ finish_order invocations labels
        → Outcome

  outcome : Outcome
  unfolding stable_dependency_order
  outcome = elim (Bool-cases (ltb count 2)) [
    | inl small ↦ Outcome.short (ground arith) (rw small)
    | inr large ↦ split (collect_labels registry plan invocations).1 refl large
  ]
    where
      split :
          (failures : List Failure)
          → (collect_labels registry plan invocations).1 ≡ failures
          → ltb count 2 ≡ false
          → Outcome
      split [] e large = Outcome.finished (ground arith) e (rw (large, e))
      split (f ∷ fs) e large = Outcome.unbound f fs e (rw (large, e))

  -- On every branch the ordered commands are a permutation of the given ones.
  pub stable_dependency_order-perm : Perm result.0 invocations
  stable_dependency_order-perm = elim outcome [
    | short n e ↦ rw e (Perm.refl invocations)
    | unbound f fs c e ↦ rw e (Perm.refl invocations)
    | finished n c e ↦ rw e (elim (finish_cases labels) [
      | inl (follows, clean, full) ↦
          rw follows (perm-pick invocations _ (perm_of_length count (edge_of labels) full))
      | inr (kept, f, part) ↦ rw kept (Perm.refl invocations)
    ])
  ]

  no_edge_of_few : count < 2 → (p v : ℕ) → p < count → v < count → edge_of labels p v ≡ false
  unfolding edge_of
  no_edge_of_few n p v lp lv = let same : p ≡ v = omega arith in ground (arith, (eq_iff p v).1 same)

  -- Without a failure the commands follow an order of all indices, each once, in which every
  -- producer of a label stands before every consumer of it.
  pub IsOrder-of_success : result.1 ≡ [] → (order : List ℕ) × IsOrder order
  IsOrder-of_success clean = elim outcome [
    | short n e ↦
        let still =
          sorted_indices_in_order count (edge_of labels)
            (λ p v lp lv t. absurd (cc (no_edge_of_few n p v lp lv))) in
        (
          sorted_indices count (edge_of labels),
          record {
            follows = rw (e, still, pick-range invocations);
            complete = rw still (Perm.refl (range_from 0 count));
            respects = (sorted_indices-IsScheduled count (edge_of labels)).0;
          },
        )
    | unbound f fs c e ↦ absurd (cc)
    | finished n c e ↦ elim (finish_cases labels) [
      | inl (follows, _, full) ↦ (
        sorted_indices count (edge_of labels),
        record {
          follows = rw e follows;
          complete = perm_of_length count (edge_of labels) full;
          respects = (sorted_indices-IsScheduled count (edge_of labels)).0;
        },
      )
      | inr (_, failed, _) ↦ absurd (failed (rw e at clean))
    ]
  ]

  -- If all labels can be rendered, the ordering reports no failure exactly if the indices have a
  -- ranking that goes up along every edge from a producer to a consumer.
  pub success_iff_IsRanked :
      (collect_labels registry plan invocations).1 ≡ []
      → (result.1 ≡ []) ↔ ((rank : ℕ → ℕ) × IsRanked count (edge_of labels) rank)
  success_iff_IsRanked labelled = elim outcome [
    | short n e ↦
        (λ _. (λ i. i, λ p v lp lv t. absurd (cc (no_edge_of_few n p v lp lv))), λ _. rw e)
    | unbound f fs c e ↦ absurd (cc)
    | finished n c e ↦ elim (finish_cases labels) [
      | inl (_, clean, full) ↦
          (λ _. (position _, IsRanked-of_length count (edge_of labels) full), λ _. rw e clean)
      | inr (_, failed, part) ↦ (
        λ clean. absurd (failed (rw e at clean)),
        λ (rank, ranked). absurd (part (length_of_ranked count (edge_of labels) rank ranked)),
      )
    ]
  ]

  -- If all labels can be rendered and every producer stands before its consumers already, the
  -- commands keep their order and no failure is reported.
  pub stable_dependency_order-keeps :
      (collect_labels registry plan invocations).1 ≡ []
      → ((p v : ℕ) → p < count → v < count → edge_of labels p v ≡ true → p < v)
      → result ≡ (invocations, [])
  stable_dependency_order-keeps labelled forward = elim outcome [
    | short n e ↦ e
    | unbound f fs c e ↦ absurd (cc)
    | finished n c e ↦
        let still = sorted_indices_in_order count (edge_of labels) forward in
        elim (finish_cases labels) [
          | inl (follows, clean, _) ↦
              let same = rw (still, pick-range invocations) at follows in
              e ∙ (λ i. (same i, clean i))
          | inr (_, _, part) ↦
              absurd (part (length_of_ranked count (edge_of labels) (λ i. i) forward))
        ]
  ]
