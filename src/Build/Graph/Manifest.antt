-- ===== src/Build/Graph/Manifest.antt =====
-- The manifest of a compiled case build graph: which required paths are covered, and by what.
use open_foam_agent.Prelude.{
  is_empty, Str, Bool, true, false, not, ◌&&◌, ◌||◌, List, [], ◌∷◌, ◌++◌, map, Eq, nat_eq, list_eq,
  ok, >>=-eq-ok, contains, any, dedupe, filter, arith, ◌≡◌, refl, Bool-cases, inl, inr, eq_iff,
  eq_refl, contains-dedupe, contains-filter, any-append,
}
use open_foam_agent.Native.Contracts.{Registry}
use open_foam_agent.Native.Scopes.{EngineeringPlan}
use open_foam_agent.Native.Commands.{NativeOpenFoamCommand}
use open_foam_agent.Build.Failures.{Failure, failure_eq}
use open_foam_agent.Build.Order.{stable_dependency_order}
use open_foam_agent.Build.Graph.{
  ExecuteCasePlanAction, CaseBuildGraph, valid, all_failures, path_is_within, append_all,
  missing_failures, Selection, output_roots, deferred_native_required_paths, select_executable,
  full_strategy, assemble, compile_case_build_graph,
}

dedupe-eq-nil {ℓ} : {A : Type ℓ} ⦃e : Eq A⦄ (xs : List A) → dedupe xs ≡ [] → xs ≡ []
unfolding dedupe contains
dedupe-eq-nil [] h = refl
dedupe-eq-nil (x ∷ xs) h = absurd (cc)

append-eq-nil {ℓ} : {A : Type ℓ} (xs ys : List A) → xs ++ ys ≡ [] → (xs ≡ []) × (ys ≡ [])
append-eq-nil [] ys h = (refl, h)
append-eq-nil (x ∷ xs) ys h = absurd (cc)

module _ {ℓ} {A : Type ℓ} ⦃e : Eq A⦄ (p : A → Bool) where
  exists_of_any : (xs : List A) → any p xs ≡ true → (x : A) × (contains xs x ≡ true) × (p x ≡ true)
  unfolding any contains
  exists_of_any [] h = absurd (ground arith)
  exists_of_any (x ∷ xs) h = elim (Bool-cases (p x)) [
    | inl here ↦ (x, ground (arith, eq_refl x), here)
    | inr other ↦ let (y, m, t) = exists_of_any xs (ground arith) in (y, ground arith, t)
  ]

  any_of_contains : (xs : List A) (x : A) → contains xs x ≡ true → p x ≡ true → any p xs ≡ true
  unfolding any contains
  any_of_contains [] x m t = absurd (ground arith)
  any_of_contains (y ∷ ys) x m t = ground (arith, eq_iff x y, any_of_contains ys x)

  pub any_of_dedupe : (xs : List A) → any p (dedupe xs) ≡ true → any p xs ≡ true
  any_of_dedupe xs h =
      let (x, m, t) = exists_of_any (dedupe xs) h in
      any_of_contains xs x (rw (contains-dedupe xs x) at m) t

any_of_left {ℓ} :
    {A : Type ℓ} (p : A → Bool) (xs ys : List A) → any p xs ≡ true → any p (xs ++ ys) ≡ true
any_of_left p xs ys h = rw (any-append p xs ys, h)

fifth-eq-nil : (a b c d e f : List Failure) → all_failures a b c d e f ≡ [] → e ≡ []
unfolding all_failures
fifth-eq-nil a b c d e f h =
    let h1 = (append-eq-nil a (b ++ (c ++ (d ++ (e ++ f)))) h).1 in
    let h2 = (append-eq-nil b (c ++ (d ++ (e ++ f))) h1).1 in
    let h3 = (append-eq-nil c (d ++ (e ++ f)) h2).1 in
    let h4 = (append-eq-nil d (e ++ f) h3).1 in (append-eq-nil e f h4).0

nil_of_is_empty {ℓ} : {A : Type ℓ} (xs : List A) → is_empty xs ≡ true → xs ≡ []
nil_of_is_empty [] h = refl
nil_of_is_empty (x ∷ xs) h = absurd (cc)

nil_of_missing : (xs : List Str) → missing_failures xs ≡ [] → xs ≡ []
unfolding missing_failures
nil_of_missing [] h = refl
nil_of_missing (x ∷ xs) h = absurd (cc)

any-append_all {ℓ κ} :
    {A : Type ℓ} {B : Type κ} (p : B → Bool) (f : A → List B) (xs : List A)
    → any p (append_all (map f xs)) ≡ any (λ x. any p (f x)) xs
unfolding any
any-append_all p f [] = refl
any-append_all p f (x ∷ xs) = rw (any-append p (f x) (append_all (map f xs)), any-append_all p f xs)

module _ (registry : Registry) where
  -- The invocation owns an output root over the path.
  abbrev pub produces : EngineeringPlan → Str → NativeOpenFoamCommand → Bool
  produces plan path item = any (path_is_within path) (output_roots registry plan item)

  contains-deferred :
      (plan : EngineeringPlan) (required : List Str) (pipeline : List NativeOpenFoamCommand)
      (path : Str)
      → contains (deferred_native_required_paths registry plan required pipeline) path ≡ true
      → any (produces plan path) pipeline ≡ true
  unfolding deferred_native_required_paths
  contains-deferred plan required pipeline path m =
      let roots = append_all (map (output_roots registry plan) pipeline) in
      let within = contains-filter (λ q. any (path_is_within q) (dedupe roots)) required path in
      rw (← any-append_all (path_is_within path) (output_roots registry plan) pipeline)
        (any_of_dedupe (path_is_within path) roots (ground (arith, within)))

  module _ (execution : ExecuteCasePlanAction) (authored : List Str) where
    -- A compiled graph is the assembly of what its strategy gives.
    pub graph_of_ok :
        {graph : CaseBuildGraph}
        → compile_case_build_graph registry execution authored ≡ ok graph
        → (strategy : List NativeOpenFoamCommand) × (full_strategy registry execution authored
            ≡ ok strategy)
          × (graph
              ≡ assemble registry execution authored
                  (select_executable registry authored strategy)
                  (stable_dependency_order registry execution.plan
                    (select_executable registry authored strategy).commands))
    unfolding compile_case_build_graph
    graph_of_ok h =
        let (strategy, full, done) = >>=-eq-ok (full_strategy registry execution authored) _ h in
        (strategy, full, cc)

    module _ (selection : Selection) (order : List NativeOpenFoamCommand × List Failure) where
      abbrev assembled : CaseBuildGraph
      assembled = assemble registry execution authored selection order

      -- Each required path is authored, deferred or missing, and never two of these.
      assemble-partition :
          (path : Str)
          → contains execution.plan.required_case_files path ≡ true
          → (contains assembled.authored_required_paths path ≡ contains authored path)
            × ((contains assembled.deferred_native_required_paths path && contains authored path)
                ≡ false)
            × (contains assembled.missing_required_paths path ≡ (
                not (contains authored path)
                && not (contains assembled.deferred_native_required_paths path)))
      unfolding assemble deferred_native_required_paths
      assemble-partition path m =
          let required = dedupe execution.plan.required_case_files in
          let in_required : contains required path ≡ true =
            rw (contains-dedupe execution.plan.required_case_files path) m in
          let unauthored = filter (λ q. not (contains authored q)) required in
          let roots = dedupe (append_all (map (output_roots registry execution.plan) order.0)) in
          (
            ground (arith, in_required, contains-filter (contains authored) required path),
            ground (
              arith,
              contains-filter (λ q. not (contains authored q)) required path,
              contains-filter (λ q. any (path_is_within q) roots) unauthored path,
            ),
            ground (
              arith,
              in_required,
              contains-filter
                  (λ q.
                    not (contains authored q)
                    && not (
                        contains
                          (deferred_native_required_paths registry execution.plan unauthored
                            order.0)
                          q))
                  required path,
            ),
          )

      -- A graph without failures has no missing path.
      missing-eq-nil : valid assembled ≡ true → assembled.missing_required_paths ≡ []
      unfolding assemble valid
      missing-eq-nil h =
          nil_of_missing assembled.missing_required_paths
            (fifth-eq-nil _ _ _ _ _ _ (dedupe-eq-nil _ (nil_of_is_empty _ h)))

      contains-deferred_assembled :
          (path : Str)
          → contains assembled.deferred_native_required_paths path ≡ true
          → any (produces execution.plan path) assembled.native_pipeline ≡ true
      unfolding assemble
      contains-deferred_assembled path m =
          any_of_left (produces execution.plan path) order.0 _
            (contains-deferred execution.plan _ order.0 path m)

    -- In a compiled graph without failures each required path is authored or lies within an
    -- output root of a command of its pipeline.
    pub compile_case_build_graph-covers :
        {graph : CaseBuildGraph}
        → compile_case_build_graph registry execution authored ≡ ok graph
        → valid graph ≡ true
        → (path : Str) → contains execution.plan.required_case_files path ≡ true
        → (contains authored path || any (produces execution.plan path) graph.native_pipeline)
          ≡ true
    compile_case_build_graph-covers {graph} h v path m =
        let (strategy, _, e) = graph_of_ok h in
        let selection = select_executable registry authored strategy in
        let order = stable_dependency_order registry execution.plan selection.commands in
        let (_, _, parts) = assemble-partition selection order path m in
        let nothing : contains (assembled selection order).missing_required_paths path ≡ false =
          rw (missing-eq-nil selection order (rw e at v)) (unfold contains in refl) in
        let deferred = contains-deferred_assembled selection order path in
        rw e (ground (arith, parts, nothing, deferred))

    -- Each required path of a compiled graph is in exactly one of three classes: authored,
    -- deferred to the pipeline, or missing.
    pub compile_case_build_graph-partition :
        {graph : CaseBuildGraph}
        → compile_case_build_graph registry execution authored ≡ ok graph
        → (path : Str) → contains execution.plan.required_case_files path ≡ true
        → (contains graph.authored_required_paths path ≡ contains authored path)
          × ((contains graph.deferred_native_required_paths path && contains authored path) ≡ false)
          × (contains graph.missing_required_paths path ≡ (
              not (contains authored path)
              && not (contains graph.deferred_native_required_paths path)))
    compile_case_build_graph-partition h path m =
        let (strategy, _, e) = graph_of_ok h in
        let selection = select_executable registry authored strategy in
        rw e (
          assemble-partition selection
            (stable_dependency_order registry execution.plan selection.commands) path m)
