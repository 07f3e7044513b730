-- ===== src/Authoring/Facts.antt =====
-- `_fact_closure`, `_binding_paths` and the facts that `project` selects for a task
-- (engineering/authoring_tasks.py).
pub mod Closed
use mathlib.Core.Option
use open_foam_agent.Prelude.{
  is_empty, ℕ, ◌+◌, Str, Bool, true, false, not, ◌&&◌, ◌||◌, Option, none, some, List, [], ◌∷◌,
  ◌++◌, map, ◌==◌, nat_eq, list_eq, list_beq, if◌then◌else◌, contains, any, filter, dedupe, length,
}
use open_foam_agent.Prelude.Worklist.{Outcome, closed, missing, out_of_fuel, close}

-- A confirmed fact, with its `depends_on`.
pub record Fact : Type 0 where
  pub id : Str
  pub depends_on : List Str

-- What the partitioner reads of a binding: the paths of its files, its assertions, and its relation.
pub record Binding : Type 0 where
  pub fact_id : Str
  pub case_files : List Str
  pub case_assertions : List Str
  pub numerator : List Str
  pub denominator : List Str

-- `by_id.get(id)`: the last fact of an id counts.
unfoldable pub by_id : List Fact → Str → Option Fact
unfolding list_beq
by_id [] id = none
by_id (fact ∷ facts) id = elim (by_id facts id) [
  | some later ↦ some later
  | none ↦ if fact.id == id then some fact else none
]

abbrev pub dependencies_of : List Fact → Str → Option (List Str)
dependencies_of facts id = Option.map (λ (fact : Fact). fact.depends_on) (by_id facts id)

abbrev pub all_dependencies : List Fact → List Str
all_dependencies [] = []
all_dependencies (fact ∷ facts) = fact.depends_on ++ all_dependencies facts

-- The loop of `_fact_closure`; `missing` is its `ValueError`. A round for each listed dependency
-- and for each id that it starts from.
unfoldable pub selected_ids : List Fact → List Str → Outcome Str
unfolding close by_id
selected_ids facts ids =
    close (dependencies_of facts) (length (all_dependencies facts) + length ids) ids ids

abbrev pub facts_of : List Fact → Outcome Str → Option (List Fact)
facts_of facts (closed ids) = some (filter (λ (fact : Fact). contains ids fact.id) facts)
facts_of facts missing = none
facts_of facts out_of_fuel = none

-- `none` is the `ValueError`.
unfoldable pub fact_closure : List Fact → List Str → Option (List Fact)
unfolding selected_ids filter contains list_beq
fact_closure facts ids = facts_of facts (selected_ids facts ids)

abbrev pub binding_paths : Binding → List Str
binding_paths binding =
    binding.case_files ++ (binding.case_assertions ++ (binding.numerator ++ binding.denominator))

-- A binding without a path travels with every task.
unfoldable pub is_relevant : List Str → Binding → Bool
unfolding any contains list_beq
is_relevant paths binding =
    is_empty (binding_paths binding) || any (contains paths) (binding_paths binding)

abbrev pub is_mapped : List Binding → Str → Bool
is_mapped bindings id =
    any (λ (b : Binding). not (is_empty (binding_paths b)) && (b.fact_id == id)) bindings

-- The ids that `project` starts from: those of relevant bindings, and of facts without a mapping.
unfoldable pub task_ids : List Fact → List Binding → List Str → List Str
unfolding is_relevant any filter dedupe list_beq contains
task_ids facts bindings paths = dedupe (
    map (λ (b : Binding). b.fact_id) (filter (is_relevant paths) bindings)
    ++ filter (λ id. not (is_mapped bindings id)) (map (λ (f : Fact). f.id) facts))

-- What `project` keeps of the intake for a task: its facts, and their provenance.
unfoldable pub task_facts :
    List Fact → List Fact → List Binding → List Str → Option (List Fact × List Fact)
unfolding fact_closure task_ids filter contains list_beq
task_facts facts provenance bindings paths =
    Option.map
      (λ (closure : List Fact). (
        filter (λ (f : Fact). contains (map (λ (g : Fact). g.id) facts) f.id) closure,
        filter (λ (f : Fact). not (contains (map (λ (g : Fact). g.id) facts) f.id)) closure,
      ))
      (fact_closure (facts ++ provenance) (task_ids facts bindings paths))
