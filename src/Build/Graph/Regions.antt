-- ===== src/Build/Graph/Regions.antt =====
-- Invocations with a malformed `-region` (missing, repeated or unsafe name, or with `-allRegions`).
use open_foam_agent.Prelude.{
  Str, Bool, true, false, ◌&&◌, List, [], ◌∷◌, ◌++◌, nat_eq, list_eq, pair_eq, Result, ok, err,
  >>=-eq-ok, all, any, dedupe, arith, ◌≡◌, refl, sym, ap, Bool-cases, inl, inr, ◌∙◌, all-append,
  all-dedupe_by, any-append,
}
use open_foam_agent.Native.Errors.{ValueError}
use open_foam_agent.Native.Contracts.{Registry, native_command_region}
use open_foam_agent.Native.Scopes.{EngineeringPlan}
use open_foam_agent.Native.Commands.{NativeOpenFoamCommand, role_eq}
use open_foam_agent.Build.Failures.{Failure, invalid_invocation, failure_eq}
use open_foam_agent.Build.Order.{stable_dependency_order, collect_labels, finish_order}
use open_foam_agent.Build.Graph.{
  ExecuteCasePlanAction, CaseBuildGraph, select_executable, full_strategy, or_empty, assemble,
  compile_case_build_graph, keys_of, not_explicit, proposed_strategy, all_failures,
  inferred_consumers, manifest_failures, missing_failures, validation_failures, unwrap_failures,
  Key, token,
}
use open_foam_agent.Build.Graph.Manifest.{graph_of_ok, any_of_dedupe}

abbrev pub is_ok {ℓ} : {A : Type ℓ} → Result ValueError A → Bool
is_ok (ok a) = true
is_ok (err e) = false

abbrev pub region_ok : NativeOpenFoamCommand → Bool
region_ok item = is_ok (native_command_region item.arguments)

-- The failure "Invalid native invocation ...".
abbrev pub is_invalid : Failure → Bool
is_invalid (invalid_invocation command e) = true
is_invalid _ = false

keys_of_ok : (items : List NativeOpenFoamCommand) → is_ok (keys_of items) ≡ all region_ok items
unfolding keys_of all
keys_of_ok [] = refl
keys_of_ok (item ∷ items) = ground (arith, keys_of_ok items)

-- What comes back has only regions that can be read.
abbrev regions_if_ok : Result ValueError (List NativeOpenFoamCommand) → Bool
regions_if_ok (ok items) = all region_ok items
regions_if_ok (err e) = true

not_explicit_ok :
    (explicit : List Key) (items : List NativeOpenFoamCommand)
    → regions_if_ok (not_explicit explicit items) ≡ true
unfolding not_explicit all
not_explicit_ok explicit [] = refl
not_explicit_ok explicit (item ∷ items) = ground (arith, not_explicit_ok explicit items)

no_invalid-select :
    (registry : Registry) (authored : List Str) (items : List NativeOpenFoamCommand)
    → all region_ok items ≡ true
    → (select_executable registry authored items).failures ≡ []
unfolding select_executable all
no_invalid-select registry authored [] h = refl
no_invalid-select registry authored (item ∷ items) h =
    ground (arith, no_invalid-select registry authored items)

no_invalid-collect :
    (registry : Registry) (plan : EngineeringPlan) (items : List NativeOpenFoamCommand)
    → any is_invalid (collect_labels registry plan items).1 ≡ false
unfolding collect_labels any
no_invalid-collect registry plan [] = refl
no_invalid-collect registry plan (item ∷ items) =
    ground (arith, no_invalid-collect registry plan items)

no_invalid-finish :
    (registry : Registry) (plan : EngineeringPlan) (items : List NativeOpenFoamCommand)
    → any is_invalid (stable_dependency_order registry plan items).1 ≡ false
unfolding stable_dependency_order finish_order any
no_invalid-finish registry plan items = ground (arith, no_invalid-collect registry plan items)

no_invalid_rest :
    (required missing : List Str)
    (consumers checks : Result ValueError (List NativeOpenFoamCommand))
    (selected ordering : List Failure)
    → selected ≡ []
    → any is_invalid ordering ≡ false
    → any is_invalid (
        all_failures
          (manifest_failures required)
          (unwrap_failures consumers)
          selected
          ordering
          (missing_failures missing)
          (validation_failures checks))
      ≡ false
unfolding all_failures any manifest_failures unwrap_failures missing_failures validation_failures
no_invalid_rest required missing consumers checks selected ordering none_selected clean =
    rw none_selected (
      ground (
        arith,
        any-append is_invalid (manifest_failures required) (
            unwrap_failures consumers
            ++ ([] ++ (ordering ++ (missing_failures missing ++ validation_failures checks)))),
        any-append is_invalid (unwrap_failures consumers)
            ([] ++ (ordering ++ (missing_failures missing ++ validation_failures checks))),
        any-append is_invalid ordering (missing_failures missing ++ validation_failures checks),
        any-append is_invalid (missing_failures missing) (validation_failures checks),
      ))

both : (a b : Bool) → a ≡ true → b ≡ true → (a && b) ≡ true
both a b h k = ground arith

not_any_of_dedupe :
    (xs : List Failure) → any is_invalid xs ≡ false → any is_invalid (dedupe xs) ≡ false
not_any_of_dedupe xs h = elim (Bool-cases (any is_invalid (dedupe xs))) [
  | inl found ↦ absurd (cc (any_of_dedupe is_invalid xs found))
  | inr clean ↦ clean
]

module _ (registry : Registry) (execution : ExecuteCasePlanAction) (authored : List Str) where
  full_strategy_regions :
      (strategy : List NativeOpenFoamCommand)
      → full_strategy registry execution authored ≡ ok strategy
      → (all region_ok strategy ≡ true)
        × (all region_ok (proposed_strategy registry execution) ≡ true)
  unfolding full_strategy
  full_strategy_regions strategy h =
      let proposed = proposed_strategy registry execution in
      let inferred = or_empty (inferred_consumers registry execution.plan authored) in
      let (keys, e, next) = >>=-eq-ok (keys_of proposed) _ h in
      let (fresh, f, done) = >>=-eq-ok (not_explicit keys inferred) _ next in
      let first : all region_ok proposed ≡ true = sym (keys_of_ok proposed) ∙ ap is_ok e in
      let second : all region_ok fresh ≡ true =
        sym (ap regions_if_ok f) ∙ not_explicit_ok keys inferred in
      (
        sym (ap regions_if_ok done)
            ∙ all-dedupe_by token region_ok (proposed ++ fresh)
                (all-append region_ok proposed fresh ∙ both _ _ first second),
        first,
      )

  -- If the region of a proposed command is malformed, the compiler raises and gives no graph.
  pub compile_case_build_graph-raises :
      all region_ok (proposed_strategy registry execution) ≡ false
      → (e : ValueError) × (compile_case_build_graph registry execution authored ≡ err e)
  compile_case_build_graph-raises h = go (compile_case_build_graph registry execution authored) refl
    where
      go :
          (r : Result ValueError CaseBuildGraph)
          → compile_case_build_graph registry execution authored ≡ r
          → (e : ValueError) × (compile_case_build_graph registry execution authored ≡ err e)
      go (err e) c = (e, c)
      go (ok graph) c =
          let (strategy, full, _) = graph_of_ok registry execution authored c in
          absurd (cc (h, (full_strategy_regions strategy full).1))

  -- No compiled graph reports an invalid native invocation.
  pub compile_case_build_graph-reports :
      {graph : CaseBuildGraph}
      → compile_case_build_graph registry execution authored ≡ ok graph
      → any is_invalid graph.failures ≡ false
  unfolding assemble
  compile_case_build_graph-reports {graph} h =
      let (strategy, full, e) = graph_of_ok registry execution authored h in
      let selection = select_executable registry authored strategy in
      let order = stable_dependency_order registry execution.plan selection.commands in
      rw e (
        not_any_of_dedupe _ (
          no_invalid_rest _ _ _ _ selection.failures order.1
            (no_invalid-select registry authored strategy (full_strategy_regions strategy full).0)
            (no_invalid-finish registry execution.plan selection.commands)))
