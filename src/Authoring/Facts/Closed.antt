-- ===== src/Authoring/Facts/Closed.antt =====
-- The closure of facts is what the start leads to, or fails on a fact that is not there.
use mathlib.Core.Option
use open_foam_agent.Prelude.{
  ◌+◌, Str, true, Option, none, some, List, [], ◌∷◌, nat_eq, list_eq, ◌≡◌, ◌≢◌, ◌↔◌, refl, sym, ap,
  ◌∙◌, arith, Option-cases, inl, inr, contains, contains-append, filter, length,
}
use open_foam_agent.Prelude.Worklist.{
  Outcome, closed, missing, out_of_fuel, close, Reach, Means, close_lem,
}
use open_foam_agent.Authoring.Facts.{
  Fact, by_id, dependencies_of, all_dependencies, selected_ids, facts_of, fact_closure,
}

by_id-dependencies :
    (facts : List Fact) (id b : Str) (fact : Fact)
    → by_id facts id ≡ some fact
    → contains fact.depends_on b ≡ true
    → contains (all_dependencies facts) b ≡ true
unfolding by_id
by_id-dependencies [] id b fact h m = cc
by_id-dependencies (f ∷ facts) id b fact h m =
    let split = contains-append f.depends_on (all_dependencies facts) b in
    elim (Option-cases (by_id facts id)) [
      | inr (g, later) ↦
          let same : g ≡ fact = ground (arith, later, h) in
          ground (arith, split, by_id-dependencies facts id b fact (later ∙ ap some same) m)
      | inl gone ↦
          let same : f.depends_on ≡ fact.depends_on = ground (arith, gone, h) in
          ground (arith, split, ap (λ ds. contains ds b) same, m)
    ]

dependencies_of-ok :
    (facts : List Fact) (id : Str) (ds : List Str)
    → dependencies_of facts id ≡ some ds
    → (fact : Fact) × (by_id facts id ≡ some fact) × (ds ≡ fact.depends_on)
dependencies_of-ok facts id ds h = elim (Option-cases (by_id facts id)) [
  | inl gone ↦ absurd (cc (rw gone at h))
  | inr (fact, found) ↦ (fact, found, ground arith)
]

dependencies_of-none :
    (facts : List Fact) (id : Str) → dependencies_of facts id ≡ none → by_id facts id ≡ none
dependencies_of-none facts id h = elim (Option-cases (by_id facts id)) [
  | inl gone ↦ gone
  | inr (fact, found) ↦ absurd (cc (rw found at h))
]

module _ (facts : List Fact) (ids : List Str) where
  -- The ids that a task needs: those it starts from, and what needed facts depend on.
  abbrev pub Needed : Str → Type 0
  Needed = Reach (dependencies_of facts) ids

  -- A closure that is returned, and one that raises.
  abbrev pub Closure : Option (List Fact) → Type 0
  Closure (some found) =
      (r : List Str) × (found ≡ filter (λ (f : Fact). contains r f.id) facts)
      × ((id : Str) → (contains r id ≡ true) ↔ Needed id)
      × ((id : Str) → Needed id → by_id facts id ≢ none)
  Closure none = (id : Str) × Needed id × (by_id facts id ≡ none)

  of_outcome :
      (o : Outcome Str)
      → (o ≢ out_of_fuel) × Means (dependencies_of facts) ids o
      → Closure (facts_of facts o)
  of_outcome (closed r) (ends, (exact, known)) = (
    r,
    refl,
    exact,
    λ id need gone. known id need (ap (Option.map (λ (f : Fact). f.depends_on)) gone),
  )
  of_outcome missing (ends, (id, need, gone)) = (id, need, dependencies_of-none facts id gone)
  of_outcome out_of_fuel (ends, means) = absurd (ends refl)

  -- The closure returns exactly the facts whose ids are needed, in their order, and each needed id
  -- has a fact; or it raises, and a needed id has no fact.
  pub fact_closure_lem : Closure (fact_closure facts ids)
  unfolding fact_closure selected_ids
  fact_closure_lem =
      of_outcome
        (close (dependencies_of facts) (length (all_dependencies facts) + length ids) ids ids)
        (close_lem (dependencies_of facts) ids (all_dependencies facts)
          (λ a b ds known m.
            let (fact, found, same) = dependencies_of-ok facts a ds known in
            by_id-dependencies facts a b fact found (sym (ap (λ xs. contains xs b) same) ∙ m))
          (length (all_dependencies facts) + length ids) (omega arith))
