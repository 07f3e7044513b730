-- ===== src/Build/Examples.antt =====
-- A registry of three tools, a plan with one scope, and two invocations in the wrong order.
use mathlib.Core.List.{Perm}
use open_foam_agent.Prelude.{
  ℕ, zero, suc, ◌<◌, Str, codes, Bool, true, false, none, List, [], ◌∷◌, ◌++◌, ◌≡◌, refl, arith, ok,
  err, ◌↔◌, list_beq, contains, any, all, not, ◌&&◌, ◌||◌, list_eq, nat_eq,
}
use open_foam_agent.Native.Errors.{ValueError}
use open_foam_agent.Native.Contracts.{
  NativeToolContract, Registry, authoring, native_command_region,
}
use open_foam_agent.Native.Scopes.{EngineeringPlan}
use open_foam_agent.Native.Commands.{
  NativeOpenFoamCommand, native_command, mesh, final_mesh_validation_commands,
}
use open_foam_agent.Build.Failures.{stale_hint}
use open_foam_agent.Build.Order.{stable_dependency_order, collect_labels, edge_of}
use open_foam_agent.Build.Order.Correct.{
  stable_dependency_order-perm, IsOrder-of_success, IsOrder, success_iff_IsRanked,
  stable_dependency_order-keeps,
}
use open_foam_agent.Build.Dependency.Correct.{IsRanked}
use open_foam_agent.Build.Graph.{
  ExecuteCasePlanAction, CaseBuildGraph, compile_case_build_graph, valid, proposed_strategy,
  or_empty, all_failures,
}
use open_foam_agent.Build.Graph.Manifest.{
  compile_case_build_graph-covers, compile_case_build_graph-partition, produces,
}
use open_foam_agent.Build.Graph.Pipeline.{compile_case_build_graph-pipeline, is_executable}
use open_foam_agent.Build.Graph.Regions.{compile_case_build_graph-raises, region_ok}

abbrev tool : Str → Bool → List Str → List Str → List Str → NativeToolContract
tool command finalizer outputs ordering_inputs ordering_outputs = record {
  command = command;
  effect = codes "mesh";
  required_dictionary = none;
  permitted_phases = authoring ∷ [];
  controller_finalizer = finalizer;
  scope_arguments = [];
  mesh_dependency_inputs = [];
  mesh_dependency_outputs = outputs;
  controller_auto_consumer = false;
  controller_delta_consumer = false;
  execution_order = 500;
  default_arguments = [];
  ordering_inputs = ordering_inputs;
  ordering_outputs = ordering_outputs;
}

abbrev tools : Registry
tools =
    tool (codes "blockMesh") false (codes "{constant_dir}/polyMesh" ∷ []) [] (codes "mesh" ∷ [])
    ∷ tool (codes "snappyHexMesh") false [] (codes "mesh" ∷ []) []
    ∷ tool (codes "checkMesh") true [] [] []
    ∷ []

abbrev plan : EngineeringPlan
plan = record {
  solver = codes "foamRun";
  solver_provider_id = [];
  execution = none;
  region_layouts = [];
  required_case_files = codes "system/controlDict" ∷ codes "constant/polyMesh/points" ∷ [];
}

abbrev block : NativeOpenFoamCommand
block = native_command (codes "blockMesh") [] mesh

abbrev snappy : NativeOpenFoamCommand
snappy = native_command (codes "snappyHexMesh") [] mesh

abbrev execution : ExecuteCasePlanAction
execution = record {
  plan = plan;
  native_pipeline = snappy ∷ block ∷ [];
  mesh_commands = [];
  validate_dictionaries = codes "system/old" ∷ [];
  surface_checks = [];
}

abbrev authored : List Str
authored = codes "system/controlDict" ∷ codes "0/U" ∷ []

abbrev invocations : List NativeOpenFoamCommand
invocations = snappy ∷ block ∷ []

order_test : stable_dependency_order tools plan invocations ≡ (block ∷ snappy ∷ [], [])
unfolding stable_dependency_order
order_test = refl

labels_test : (collect_labels tools plan invocations).1 ≡ []
unfolding collect_labels
labels_test = refl

-- The compiled graph of the example.
abbrev graph : CaseBuildGraph
graph = record {
  required_paths = plan.required_case_files;
  authored_paths = authored;
  authored_required_paths = codes "system/controlDict" ∷ [];
  deferred_native_required_paths = codes "constant/polyMesh/points" ∷ [];
  missing_required_paths = [];
  dictionary_paths = authored;
  surface_paths = [];
  native_pipeline = block ∷ snappy ∷ or_empty (final_mesh_validation_commands tools plan none);
  failures = [];
  warnings = stale_hint (codes "system/old") ∷ [];
}

compiled_test : compile_case_build_graph tools execution authored ≡ ok graph
unfolding compile_case_build_graph all_failures
compiled_test = refl

stable_dependency_order-perm_example :
    Perm (stable_dependency_order tools plan invocations).0 invocations
stable_dependency_order-perm_example = stable_dependency_order-perm tools plan invocations

IsOrder-of_success_example : (order : List ℕ) × IsOrder tools plan invocations order
unfolding stable_dependency_order
IsOrder-of_success_example = IsOrder-of_success tools plan invocations refl

success_iff_IsRanked_example :
    ((stable_dependency_order tools plan invocations).1 ≡ [])
    ↔ ((rank : ℕ → ℕ) × IsRanked 2 (edge_of (collect_labels tools plan invocations).0) rank)
success_iff_IsRanked_example = success_iff_IsRanked tools plan invocations labels_test

ordered_labels_test : (collect_labels tools plan (block ∷ snappy ∷ [])).1 ≡ []
unfolding collect_labels
ordered_labels_test = refl

forward :
    (p v : ℕ)
    → p < 2
    → v < 2
    → edge_of (collect_labels tools plan (block ∷ snappy ∷ [])).0 p v ≡ true
    → p < v
unfolding collect_labels edge_of
forward zero zero lp lv e = absurd (cc)
forward zero (suc v) lp lv e = ground arith
forward (suc zero) zero lp lv e = absurd (cc)
forward (suc zero) (suc zero) lp lv e = absurd (cc)
forward (suc zero) (suc (suc v)) lp lv e = ground arith
forward (suc (suc p)) v lp lv e = ground arith

stable_dependency_order-keeps_example :
    stable_dependency_order tools plan (block ∷ snappy ∷ []) ≡ (block ∷ snappy ∷ [], [])
stable_dependency_order-keeps_example =
    stable_dependency_order-keeps tools plan (block ∷ snappy ∷ []) ordered_labels_test forward

points_test : contains plan.required_case_files (codes "constant/polyMesh/points") ≡ true
unfolding contains list_beq
points_test = refl

valid_test : valid graph ≡ true
unfolding valid
valid_test = refl

compile_case_build_graph-covers_example :
    (contains authored (codes "constant/polyMesh/points")
      || any (produces tools plan (codes "constant/polyMesh/points")) graph.native_pipeline)
    ≡ true
compile_case_build_graph-covers_example =
    compile_case_build_graph-covers tools execution authored {graph = graph} compiled_test
      valid_test (codes "constant/polyMesh/points") points_test

compile_case_build_graph-partition_example :
    (contains graph.authored_required_paths (codes "constant/polyMesh/points")
      ≡ contains authored (codes "constant/polyMesh/points"))
    × ((contains graph.deferred_native_required_paths (codes "constant/polyMesh/points")
          && contains authored (codes "constant/polyMesh/points"))
        ≡ false)
    × (contains graph.missing_required_paths (codes "constant/polyMesh/points") ≡ (
        not (contains authored (codes "constant/polyMesh/points"))
        && not (contains graph.deferred_native_required_paths (codes "constant/polyMesh/points"))))
compile_case_build_graph-partition_example =
    compile_case_build_graph-partition tools execution authored {graph = graph} compiled_test
      (codes "constant/polyMesh/points") points_test

compile_case_build_graph-pipeline_example :
    (strategy : List NativeOpenFoamCommand) × (graph.native_pipeline
      ≡ strategy ++ or_empty (final_mesh_validation_commands tools plan none))
    × (all (is_executable tools authored) strategy ≡ true)
compile_case_build_graph-pipeline_example =
    compile_case_build_graph-pipeline tools execution authored {graph = graph} compiled_test

-- A hint whose `-region` has no name.
abbrev malformed : ExecuteCasePlanAction
malformed = record execution {
  native_pipeline = native_command (codes "blockMesh") (codes "-region" ∷ []) mesh ∷ [];
}

malformed_test : all region_ok (proposed_strategy tools malformed) ≡ false
unfolding proposed_strategy all native_command_region
malformed_test = refl

compile_case_build_graph-raises_example :
    (e : ValueError) × (compile_case_build_graph tools malformed authored ≡ err e)
compile_case_build_graph-raises_example =
    compile_case_build_graph-raises tools malformed authored malformed_test
