-- ===== src/Build/Dependency.antt =====
-- The dependency graph of `_stable_dependency_order` (engineering/case_build_graph.py) and its
-- topological sort, over the indices 0 .. count - 1 of the invocations. An array of numbers is a
-- function of the index; `outgoing[p]` is the sorted list of the consumers of `p`.
pub mod Release
pub mod Invariant
pub mod Loop
pub mod Perms
pub mod Stable
pub mod Correct
use open_foam_agent.Prelude.{
  ℕ, zero, suc, ◌+◌, ◌-◌, Bool, true, false, not, ◌&&◌, List, [], ◌∷◌, ◌++◌, ◌==◌, nat_eq, filter,
  remove_first, if◌then◌else◌, ltb, Option, none, some, ◌≡◌, refl, leb,
}

-- `range(count)`, counted up from `i`.
unfoldable pub range_from : ℕ → ℕ → List ℕ
range_from i zero = []
range_from i (suc n) = i ∷ range_from (suc i) n

-- How many producers `p` of `range(count)` have an edge to `c`.
unfoldable pub count_if : (ℕ → Bool) → List ℕ → ℕ
count_if p [] = 0
count_if p (x ∷ xs) = let rest = count_if p xs in if p x then suc rest else rest

-- `min(ready)` of a nonempty list.
unfoldable pub minimum : ℕ → List ℕ → ℕ
minimum x [] = x
minimum x (y ∷ ys) = minimum (if ltb y x then y else x) ys

pub record Sorting : Type 0 where
  pub ready : List ℕ
  pub indegree : ℕ → ℕ
  pub ordered : List ℕ

-- `indegree[child] -= 1`
unfoldable pub decrement : (ℕ → ℕ) → ℕ → ℕ → ℕ
decrement indegree child x = if x == child then indegree x - 1 else indegree x

-- `for child in sorted(outgoing[index])`
unfoldable pub release : List ℕ → Sorting → Sorting
unfolding decrement
release [] s = s
release (child ∷ children) s =
    let indegree = decrement s.indegree child in
    release children (record s {
      ready = if indegree child == 0 then s.ready ++ child ∷ [] else s.ready;
      indegree = indegree;
    })

module _ (count : ℕ) (edge : ℕ → ℕ → Bool) where
  unfoldable pub outgoing : ℕ → List ℕ
  unfolding range_from filter
  outgoing producer = filter (edge producer) (range_from 0 count)

  unfoldable pub indegree : ℕ → ℕ
  unfolding count_if range_from
  indegree consumer = count_if (λ producer. edge producer consumer) (range_from 0 count)

  unfoldable pub start : Sorting
  unfolding indegree filter range_from
  start = record {
    ready = filter (λ index. indegree index == 0) (range_from 0 count);
    indegree = indegree;
    ordered = [];
  }

  -- One round of `while ready:` that takes `index` out.
  unfoldable pub take_index : ℕ → Sorting → Sorting
  unfolding outgoing release remove_first
  take_index index s =
      release (outgoing index)
        (record s { ready = remove_first index s.ready; ordered = s.ordered ++ index ∷ [] })

  -- The loop; every round puts a new index into `ordered`, so `count` rounds are enough.
  unfoldable pub sort_loop : ℕ → Sorting → Sorting
  unfolding take_index minimum
  sort_loop zero s = s
  sort_loop (suc fuel) s = elim s.ready [
    | [] ↦ s
    | x ∷ xs ↦ sort_loop fuel (take_index (minimum x xs) s)
  ]

  unfoldable pub sorted_indices : List ℕ
  unfolding sort_loop start
  sorted_indices = (sort_loop count start).ordered

sorted_test : sorted_indices 4 (λ p c. (p == 3) && (c == 0)) ≡ 1 ∷ 2 ∷ 3 ∷ 0 ∷ []
unfolding sorted_indices
sorted_test = refl
