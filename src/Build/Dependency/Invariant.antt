-- ===== src/Build/Dependency/Invariant.antt =====
-- The invariant of the sorting loop: the counters count the producers that are not placed yet, and
-- `ready` holds exactly the indices that wait for nothing.
use open_foam_agent.Prelude.{
  ℕ, suc, ◌-◌, ◌<◌, Bool, true, false, not, ◌&&◌, ◌||◌, List, [], ◌∷◌, ◌++◌, ◌==◌, nat_eq, filter,
  if◌then◌else◌, ltb, ◌≡◌, ◌∙◌, refl, contains, distinct, arith, Bool-cases, inl, inr, eq_iff,
  contains-append, contains-filter,
}
use open_foam_agent.Build.Dependency.{
  range_from, count_if, Sorting, outgoing, indegree, start, take_index,
}
use open_foam_agent.Build.Dependency.Release.{
  contains-range_from, distinct-range_from, count_if-congr, count_if_without, contains-remove_first,
  distinct-remove_first, distinct-snoc, ordered-release, indegree-release, contains-ready-release,
  distinct-ready-release,
}

module _ (count : ℕ) (edge : ℕ → ℕ → Bool) where
  -- The producers of `v` that are not in `placed`.
  abbrev pub waits_for : List ℕ → ℕ → ℕ → Bool
  waits_for placed v p = edge p v && not (contains placed p)

  pub record IsSorting (s : Sorting) : Type 0 where
    pub counted :
        (v : ℕ) → v < count → s.indegree v ≡ count_if (waits_for s.ordered v) (range_from 0 count)
    pub ready_iff :
        (v : ℕ)
        → contains s.ready v ≡ ((ltb v count && not (contains s.ordered v)) && (s.indegree v == 0))
    pub ready_distinct : distinct s.ready ≡ true
    pub ordered_distinct : distinct s.ordered ≡ true
    pub in_range : (v : ℕ) → contains s.ordered v ≡ true → v < count
    pub placed_zero : (v : ℕ) → contains s.ordered v ≡ true → s.indegree v ≡ 0

  distinct-filter :
      (p : ℕ → Bool) (xs : List ℕ) → distinct xs ≡ true → distinct (filter p xs) ≡ true
  unfolding distinct filter
  distinct-filter p [] d = refl
  distinct-filter p (x ∷ xs) d = ground (arith, contains-filter p xs x, distinct-filter p xs)

  pub contains-outgoing : (v x : ℕ) → contains (outgoing count edge v) x ≡ (edge v x && ltb x count)
  unfolding outgoing
  contains-outgoing v x =
      ground (arith, contains-filter (edge v) (range_from 0 count) x, contains-range_from count 0 x)

  distinct-outgoing : (v : ℕ) → distinct (outgoing count edge v) ≡ true
  unfolding outgoing
  distinct-outgoing v = distinct-filter (edge v) _ (distinct-range_from count 0)

  pub IsSorting-start : IsSorting (start count edge)
  unfolding start indegree contains distinct
  IsSorting-start = record {
    counted = λ v _.
        count_if-congr (λ p. edge p v) (waits_for [] v) (range_from 0 count) (λ p m. ground arith);
    ready_iff = λ v. ground (
      arith,
      contains-filter (λ i. indegree count edge i == 0) (range_from 0 count) v,
      contains-range_from count 0 v,
    );
    ready_distinct =
        distinct-filter (λ i. indegree count edge i == 0) (range_from 0 count)
          (distinct-range_from count 0);
    ordered_distinct = refl;
    in_range = λ v m. cc;
    placed_zero = λ v m. cc;
  }

  module _ (s : Sorting) (inv : IsSorting s) (v : ℕ) (is_ready : contains s.ready v ≡ true) where
    -- The facts that the test of `ready` gives.
    ready_facts : (v < count) × (contains s.ordered v ≡ false) × (s.indegree v ≡ 0)
    ready_facts = ground (arith, inv.ready_iff v)

    -- A consumer of `v` is not placed, and counts `v`.
    consumer_facts :
        (x : ℕ)
        → x < count
        → edge v x ≡ true
        → (s.indegree x
            ≡ suc (count_if (λ p. waits_for s.ordered x p && not (p == v)) (range_from 0 count)))
          × (contains s.ordered x ≡ false)
    consumer_facts x lt e =
        let (below, fresh, z) = ready_facts in
        let one =
          count_if_without (waits_for s.ordered x) v (range_from 0 count)
            (distinct-range_from count 0) (ground (arith, contains-range_from count 0 v))
            (ground (arith, fresh, e)) in
        (inv.counted x lt ∙ one, ground (arith, inv.placed_zero x, inv.counted x lt, one))

    abbrev taken : Sorting
    taken = take_index count edge v s

    pub ordered-take_index : taken.ordered ≡ s.ordered ++ v ∷ []
    unfolding take_index
    ordered-take_index = ordered-release (outgoing count edge v) _

    indegree-take_index :
        (x : ℕ)
        → taken.indegree x ≡ (if edge v x && ltb x count then s.indegree x - 1 else s.indegree x)
    unfolding take_index
    indegree-take_index x =
        rw (← contains-outgoing v x)
          (indegree-release (outgoing count edge v) _ x (distinct-outgoing v))

    ready-take_index :
        (x : ℕ)
        → contains taken.ready x ≡ (
            (contains s.ready x && not (x == v))
            || ((edge v x && ltb x count) && ((s.indegree x - 1) == 0)))
    unfolding take_index
    ready-take_index x =
        rw (← contains-outgoing v x, ← contains-remove_first v s.ready x inv.ready_distinct)
          (contains-ready-release (outgoing count edge v) _ x (distinct-outgoing v))

    contains-taken : (x : ℕ) → contains taken.ordered x ≡ (contains s.ordered x || (x == v))
    unfolding contains
    contains-taken x = rw ordered-take_index (ground (arith, contains-append s.ordered (v ∷ []) x))

    -- The counter of a consumer falls by the one that `v` was.
    counted-take_index :
        (x : ℕ)
        → x < count
        → taken.indegree x ≡ count_if (waits_for taken.ordered x) (range_from 0 count)
    counted-take_index x lt = elim (Bool-cases (edge v x)) [
      | inl e ↦
          let (one, fresh) = consumer_facts x lt e in
          let same =
            count_if-congr (λ p. waits_for s.ordered x p && not (p == v))
              (waits_for taken.ordered x) (range_from 0 count)
              (λ p m. ground (arith, contains-taken p)) in
          ground (arith, indegree-take_index x, one, same)
      | inr n ↦
          let same =
            count_if-congr (waits_for s.ordered x) (waits_for taken.ordered x) (range_from 0 count)
              (λ p m. ground (arith, contains-taken p, eq_iff p v, n)) in
          ground (arith, indegree-take_index x, inv.counted x lt, same)
    ]

    ready_iff-take_index :
        (x : ℕ)
        → contains taken.ready x
          ≡ ((ltb x count && not (contains taken.ordered x)) && (taken.indegree x == 0))
    ready_iff-take_index x = elim (Bool-cases (edge v x && ltb x count)) [
      | inl e ↦ ground (
        arith,
        e,
        contains-taken x,
        indegree-take_index x,
        ready-take_index x,
        inv.ready_iff x,
        eq_iff x v,
        ready_facts,
        consumer_facts x (ground arith) (ground arith),
      )
      | inr n ↦ ground (
        arith,
        n,
        contains-taken x,
        indegree-take_index x,
        ready-take_index x,
        inv.ready_iff x,
        eq_iff x v,
        ready_facts,
      )
    ]

    distinct-taken : distinct taken.ready ≡ true
    unfolding take_index
    distinct-taken =
        distinct-ready-release (outgoing count edge v) _ (distinct-outgoing v)
          (distinct-remove_first v s.ready inv.ready_distinct)
          (λ x m. ground (
            arith,
            contains-remove_first v s.ready x inv.ready_distinct,
            contains-outgoing v x,
            inv.ready_iff x,
            consumer_facts x (ground (arith, contains-outgoing v x))
                (ground (arith, contains-outgoing v x)),
          ))

    pub IsSorting-take_index : IsSorting taken
    IsSorting-take_index = record {
      counted = counted-take_index;
      ready_iff = ready_iff-take_index;
      ready_distinct = distinct-taken;
      ordered_distinct =
          rw ordered-take_index
            (distinct-snoc s.ordered v inv.ordered_distinct (ground (arith, ready_facts)));
      in_range = λ x m. ground (arith, contains-taken x, eq_iff x v, ready_facts, inv.in_range x);
      placed_zero = λ x m. ground (
        arith,
        contains-taken x,
        eq_iff x v,
        ready_facts,
        indegree-take_index x,
        inv.placed_zero x,
      );
    }
