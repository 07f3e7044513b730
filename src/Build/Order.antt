-- ===== src/Build/Order.antt =====
-- `_render_ordering_tokens` and `_stable_dependency_order` of engineering/case_build_graph.py.
pub mod Correct
use mathlib.Core.List.{filter_map}
use open_foam_agent.Prelude.{
  ℕ, ◌+◌, Str, codes, Bool, true, false, not, ◌&&◌, ◌||◌, Option, none, some, List, [], ◌∷◌, ◌++◌,
  map, ◌==◌, nat_eq, list_eq, list_beq, Result, ok, err, ◌>>=◌, contains, any, has_part, replace,
  dedupe, if◌then◌else◌, ltb, length, get_elem?, filter,
}
use open_foam_agent.Native.Errors.{ValueError}
use open_foam_agent.Native.Contracts.{Registry, native_tool_contract}
use open_foam_agent.Native.Scopes.{
  EngineeringPlan, ExecutionScope, scope_for_native_arguments, scope_key, name_or_empty,
}
use open_foam_agent.Native.Commands.{NativeOpenFoamCommand}
use open_foam_agent.Build.Failures.{Failure, unbound_ordering, dependency_cycle}
use open_foam_agent.Build.Dependency.{sorted_indices, sort_loop, start, range_from}

needs_scope : List Str → Bool
unfolding any has_part
needs_scope templates =
    any (λ item. has_part (codes "{scope_key}") item || has_part (codes "{scope_name}") item)
      templates

render_label : Option ExecutionScope → Str → Str
unfolding replace scope_key
render_label none template = template
render_label (some scope) template =
    replace (codes "{scope_name}") (name_or_empty scope.name)
      (replace (codes "{scope_key}") (scope_key scope) template)

pub record Labels : Type 0 where
  pub inputs : List Str
  pub outputs : List Str

abbrev no_labels : Labels
no_labels = record { inputs = []; outputs = [] }

abbrev pub labels_at : List Labels → ℕ → Labels
labels_at labels i = elim (get_elem? labels i) [ none ↦ no_labels | some l ↦ l ]

-- `outputs[producer].intersection(inputs[consumer])`, for two different indices.
unfoldable pub edge_of : List Labels → ℕ → ℕ → Bool
unfolding any contains list_beq
edge_of labels producer consumer =
    not (producer == consumer)
    && any (contains (labels_at labels consumer).inputs) (labels_at labels producer).outputs

-- `[invocations[i] for i in indices]`
unfoldable pub pick {ℓ} : {A : Type ℓ} → List A → List ℕ → List A
unfolding filter_map
pick items indices = filter_map (get_elem? items) indices

-- The commands whose counter is still positive when the loop has ended.
left_over : List NativeOpenFoamCommand → List Labels → List Str
unfolding sort_loop start pick filter range_from
left_over invocations labels =
    let count = length invocations in
    let end = sort_loop count (edge_of labels) count (start count (edge_of labels)) in
    map (λ (c : NativeOpenFoamCommand). c.command)
      (pick invocations (filter (λ i. ltb 0 (end.indegree i)) (range_from 0 count)))

-- The end of the function: the order is taken if no index is left out.
unfoldable pub finish_order :
    List NativeOpenFoamCommand → List Labels → List NativeOpenFoamCommand × List Failure
unfolding sorted_indices edge_of left_over pick
finish_order invocations labels =
    let order = sorted_indices (length invocations) (edge_of labels) in
    if length order == length invocations
    then (pick invocations order, [])
    else (invocations, dependency_cycle (left_over invocations labels) ∷ [])

module _ (registry : Registry) (plan : EngineeringPlan) where
  unfoldable pub render_ordering_tokens :
      NativeOpenFoamCommand → List Str → Result ValueError (List Str)
  unfolding needs_scope render_label scope_for_native_arguments
  render_ordering_tokens invocation [] = ok []
  render_ordering_tokens invocation (t ∷ ts) =
      if needs_scope (t ∷ ts)
      then (do
        scope ← scope_for_native_arguments plan invocation.arguments
        ok (map (render_label (some scope)) (t ∷ ts)))
      else ok (map (render_label none) (t ∷ ts))

  -- The labels of one invocation, or the failure that its scope cannot be bound.
  unfoldable pub labels_of : NativeOpenFoamCommand → Result ValueError Labels
  unfolding render_ordering_tokens native_tool_contract
  labels_of item = do
    let contract = native_tool_contract registry item.command
    inputs ← render_ordering_tokens item contract.ordering_inputs
    outputs ← render_ordering_tokens item contract.ordering_outputs
    ok (record { inputs = inputs; outputs = outputs })

  -- The loop that fills `inputs`, `outputs` and `failures`.
  unfoldable pub collect_labels : List NativeOpenFoamCommand → List Labels × List Failure
  unfolding labels_of
  collect_labels [] = ([], [])
  collect_labels (item ∷ items) =
      let (labels, failures) = collect_labels items in
      elim (labels_of item) [
        | ok l ↦ (l ∷ labels, failures)
        | err e ↦ (no_labels ∷ labels, unbound_ordering item.command e ∷ failures)
      ]

  unfoldable pub stable_dependency_order :
      List NativeOpenFoamCommand → List NativeOpenFoamCommand × List Failure
  unfolding collect_labels finish_order
  stable_dependency_order invocations =
      if ltb (length invocations) 2
      then (invocations, [])
      else (let (labels, failures) = collect_labels invocations in
          elim failures [ [] ↦ finish_order invocations labels | f ∷ fs ↦ (invocations, f ∷ fs) ])
