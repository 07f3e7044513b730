-- ===== src/Build/Graph/Pipeline.antt =====
-- The pipeline of a compiled case build graph: what its commands have passed, what ends it, and what
-- it does not depend on.
use mathlib.Core.Bool.{Bool-set}
use mathlib.Core.Logic.{∥∥₁_elim}
use mathlib.Core.List.{Perm, Permᴰ}
use open_foam_agent.Prelude.{
  Str, Bool, true, false, ◌&&◌, Option, none, List, [], ◌∷◌, ◌++◌, nat_eq, list_eq, Result, ok, err,
  ◌>>=◌, all, arith, ◌≡◌, refl, ap, ◌∙◌,
}
use open_foam_agent.Native.Errors.{ValueError}
use open_foam_agent.Native.Contracts.{Registry, authoring, required_dictionary, command_permitted}
use open_foam_agent.Native.Commands.{NativeOpenFoamCommand, final_mesh_validation_commands}
use open_foam_agent.Build.Failures.{warning_eq, failure_eq}
use open_foam_agent.Build.Order.{stable_dependency_order}
use open_foam_agent.Build.Order.Correct.{stable_dependency_order-perm}
use open_foam_agent.Build.Graph.{
  ExecuteCasePlanAction, CaseBuildGraph, dictionary_is_there, select_executable, full_strategy,
  or_empty, assemble, compile_case_build_graph,
}
use open_foam_agent.Build.Graph.Manifest.{graph_of_ok}

all-permᴰ {ℓ} : {A : Type ℓ} (p : A → Bool) {xs ys : List A} → Permᴰ xs ys → all p xs ≡ all p ys
unfolding all
all-permᴰ p (Permᴰ.nil) = refl
all-permᴰ p (Permᴰ.cons e h) = ground (arith, ap p e, all-permᴰ p h)
all-permᴰ p (Permᴰ.swap e f) = ground (arith, ap p e, ap p f)
all-permᴰ p (Permᴰ.trans h k) = all-permᴰ p h ∙ all-permᴰ p k

pub all-perm {ℓ} : {A : Type ℓ} (p : A → Bool) {xs ys : List A} → Perm xs ys → all p xs ≡ all p ys
all-perm p {xs} {ys} h = ∥∥₁_elim h (Bool-set (all p xs) (all p ys)) (all-permᴰ p)

module _ (registry : Registry) where
  -- The command may run while a case is authored, and the dictionary that it reads is authored.
  abbrev dictionary_allowed : List Str → Result ValueError (Option Str) → Bool
  dictionary_allowed authored (ok dictionary) = dictionary_is_there authored dictionary
  dictionary_allowed authored (err e) = false

  abbrev pub is_executable : List Str → NativeOpenFoamCommand → Bool
  is_executable authored item =
      command_permitted registry item.command authoring
      && dictionary_allowed authored (required_dictionary registry item.command item.arguments)

  all-select_executable :
      (authored : List Str) (items : List NativeOpenFoamCommand)
      → all (is_executable authored) (select_executable registry authored items).commands ≡ true
  unfolding all select_executable
  all-select_executable authored [] = refl
  all-select_executable authored (item ∷ items) =
      ground (arith, all-select_executable authored items)

  module _ (execution : ExecuteCasePlanAction) (authored : List Str) where
    -- The pipeline of a compiled graph is a list of commands that are permitted in authoring and
    -- whose dictionary is authored, followed by the final mesh checks of the controller.
    pub compile_case_build_graph-pipeline :
        {graph : CaseBuildGraph}
        → compile_case_build_graph registry execution authored ≡ ok graph
        → (strategy : List NativeOpenFoamCommand) × (graph.native_pipeline
            ≡ strategy ++ or_empty (final_mesh_validation_commands registry execution.plan none))
          × (all (is_executable authored) strategy ≡ true)
    compile_case_build_graph-pipeline {graph} h =
        let (proposed, _, e) = graph_of_ok registry execution authored h in
        let commands = (select_executable registry authored proposed).commands in
        (
          (stable_dependency_order registry execution.plan commands).0,
          ap (λ (g : CaseBuildGraph). g.native_pipeline) e ∙ (unfold assemble in refl),
          all-perm (is_executable authored)
                (stable_dependency_order-perm registry execution.plan commands)
              ∙ all-select_executable authored proposed,
        )

    abbrev pub with_hints : List Str → List Str → ExecuteCasePlanAction
    with_hints dictionaries surfaces = record execution {
      validate_dictionaries = dictionaries;
      surface_checks = surfaces;
    }

    -- Everything of a compiled graph but its warnings.
    abbrev pub actions : Result ValueError CaseBuildGraph → Result ValueError CaseBuildGraph
    actions compiled = do graph ← compiled; ok (record graph { warnings = [] })

    -- The validation hints of the model change nothing in a compiled graph but its warnings.
    pub compile_case_build_graph-hints :
        (dictionaries surfaces : List Str)
        → actions (compile_case_build_graph registry (with_hints dictionaries surfaces) authored)
          ≡ actions (compile_case_build_graph registry execution authored)
    unfolding compile_case_build_graph
    compile_case_build_graph-hints dictionaries surfaces =
        elim (full_strategy registry execution authored)
          as (λ strategy.
            actions (strategy >>= assembled_with (with_hints dictionaries surfaces))
            ≡ actions (strategy >>= assembled_with execution)) [ ok strategy ↦ refl | err e ↦ refl ]
      where
        assembled_with :
            ExecuteCasePlanAction → List NativeOpenFoamCommand → Result ValueError CaseBuildGraph
        assembled_with e strategy = ok (
            assemble registry e authored (select_executable registry authored strategy) (
              stable_dependency_order registry e.plan
                (select_executable registry authored strategy).commands))
