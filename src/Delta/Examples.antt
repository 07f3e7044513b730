-- ===== src/Delta/Examples.antt =====
-- A committed case of two files, a delta that patches one and replaces another, and the mesh
-- commands that follow a changed dictionary.
use open_foam_agent.Prelude.{
  Str, codes, true, false, Option, none, some, List, [], ◌∷◌, ◌==◌, nat_eq, list_eq, ◌≡◌, ◌⊎◌, refl,
  if◌then◌else◌, contains, ok, err,
}
use open_foam_agent.Prelude.Dict.{or_else, Dict, keys, find}
use open_foam_agent.Native.Errors.{ValueError}
use open_foam_agent.Native.Contracts.{NativeToolContract, Registry, repair}
use open_foam_agent.Native.Scopes.{ExecutionScope, EngineeringPlan}
use open_foam_agent.Native.Commands.{NativeOpenFoamCommand, native_command, mesh}
use open_foam_agent.Workspace.Paths.{Key}
use open_foam_agent.Workspace.Preflight.{File, Workspace, Setup}
use open_foam_agent.Delta.Failures.{DeltaFailure, stale_drop}
use open_foam_agent.Delta.Consumers.{Sweep, delta_start, auto_consumers_for_delta}
use open_foam_agent.Delta.Consumers.Settled.{
  tokens, Fired, IsQuiet, auto_consumers_for_delta-settled,
}
use open_foam_agent.Delta.Edits.{Edit, Reading, Delta, committed_view, edit_view, active_drops}
use open_foam_agent.Delta.Edits.Effective.{edit_view_lem}
use open_foam_agent.Delta.Graph.{CaseDeltaGraph, Hints, dictionary, compile_case_delta_graph, valid}
use open_foam_agent.Delta.Graph.Covered.{Covers, compile_case_delta_graph-Covers}

-- `blockMesh` runs from its dictionary, and what it writes is read by `renumberMesh`.
abbrev tool : Str → Str → List Str → List Str → NativeToolContract
tool command required inputs outputs = record {
  command = command;
  effect = codes "mesh";
  required_dictionary = some required;
  permitted_phases = repair ∷ [];
  controller_finalizer = false;
  scope_arguments = [];
  mesh_dependency_inputs = inputs;
  mesh_dependency_outputs = outputs;
  controller_auto_consumer = true;
  controller_delta_consumer = false;
  execution_order = 500;
  default_arguments = [];
  ordering_inputs = [];
  ordering_outputs = [];
}

abbrev tools : Registry
tools =
    tool (codes "blockMesh") (codes "system/blockMeshDict") (codes "system/blockMeshDict" ∷ [])
      (codes "constant/polyMesh" ∷ [])
    ∷ tool (codes "renumberMesh") (codes "system/renumberMeshDict") (codes "constant/polyMesh" ∷ [])
        (codes "constant/polyMesh" ∷ [])
    ∷ []

abbrev plan : EngineeringPlan
plan = record {
  solver = codes "foamRun";
  solver_provider_id = [];
  execution = none;
  region_layouts = [];
  required_case_files = codes "system/blockMeshDict" ∷ codes "0/U" ∷ [];
}

abbrev block : NativeOpenFoamCommand
block = native_command (codes "blockMesh") [] mesh

abbrev renumber : NativeOpenFoamCommand
renumber = native_command (codes "renumberMesh") [] mesh

abbrev there : List Str
there = codes "system/blockMeshDict" ∷ codes "system/renumberMeshDict" ∷ []

-- The mesh dictionary changes: both tools run, the second for what the first one writes.
consumers_test :
    auto_consumers_for_delta tools plan there (codes "system/blockMeshDict" ∷ []) []
    ≡ some (ok (block ∷ renumber ∷ []))
unfolding auto_consumers_for_delta
consumers_test = refl

-- A field changes: none runs.
untouched_test : auto_consumers_for_delta tools plan there (codes "0/U" ∷ []) [] ≡ some (ok [])
unfolding auto_consumers_for_delta
untouched_test = refl

abbrev root : ExecutionScope
root = record { name = none; solver_module = some (codes "foamRun"); solver_provider_id = some [] }

-- The mesh dictionary is dirty, and neither tool is selected yet.
abbrev first : Sweep
first = record {
  dirty = codes "system/blockMeshDict" ∷ [];
  seen = [];
  selected = [];
  added = false;
}

auto_consumers_for_delta-settled_example :
    ((e : ValueError) × (auto_consumers_for_delta tools plan there
          (codes "system/blockMeshDict" ∷ [])
          []
        ≡ some (err e)))
    ⊎ ((t : Sweep) × (auto_consumers_for_delta tools plan there
            (codes "system/blockMeshDict" ∷ [])
            []
          ≡ some (ok t.selected))
        × Fired tools (tokens ((some root, block) ∷ (some root, renumber) ∷ [])) first t
        × IsQuiet tools t ((some root, block) ∷ (some root, renumber) ∷ []))
unfolding delta_start
auto_consumers_for_delta-settled_example =
    auto_consumers_for_delta-settled tools plan there (codes "system/blockMeshDict" ∷ []) []
      ((some root, block) ∷ (some root, renumber) ∷ []) first refl

-- A case of two files.
abbrev control : Key
control = codes "system" ∷ codes "controlDict" ∷ []

abbrev schemes : Key
schemes = codes "system" ∷ codes "fvSchemes" ∷ []

abbrev case_files : Key → Option File
case_files key =
    if key == control
    then some (record { bytes = codes "end 1;"; mode = 33188 })
    else if key == schemes
    then some (record { bytes = codes "s"; mode = 33188 })
    else none

abbrev workspace : Workspace
workspace = record {
  files = case_files;
  authored_paths = codes "system/controlDict" ∷ codes "system/fvSchemes" ∷ [];
  asset_paths = [];
}

abbrev setup : Setup
setup = record {
  max_file_bytes = 100;
  max_total_bytes = 100;
  is_symlink = λ key. false;
  validate_content = λ text path. ok tt;
  sha256 = λ bytes. bytes;
}

abbrev reading : Reading
reading = record { unreadable = λ path. false; decode = λ bytes. bytes }

abbrev delta : Delta
delta = record {
  patches = (codes "system/controlDict", (codes "1", codes "2")) ∷ [];
  replacements = (codes "0/U", codes "u") ∷ [];
  drop_paths = codes "system/fvSchemes" ∷ codes "system/gone" ∷ [];
}

abbrev hints : Hints
hints = record {
  native_hints = [];
  mesh_commands = [];
  validate_dictionaries = [];
  surface_checks = [];
  validate_pre_solve = false;
  phase = repair;
}

abbrev field_plan : EngineeringPlan
field_plan = record plan { required_case_files = codes "system/controlDict" ∷ codes "0/U" ∷ [] }

abbrev changed_case : CaseDeltaGraph
changed_case = record {
  changed_files = (codes "0/U", codes "u") ∷ (codes "system/controlDict", codes "end 2;") ∷ [];
  drop_paths = codes "system/fvSchemes" ∷ [];
  effective_paths = codes "0/U" ∷ codes "system/controlDict" ∷ [];
  missing_required_paths = [];
  dictionary_paths = codes "0/U" ∷ codes "system/controlDict" ∷ [];
  surface_paths = [];
  native_pipeline = [];
  validate_pre_solve = false;
  affected_mesh_scope_keys = [];
  reused_mesh_scope_keys = codes "root" ∷ [];
  revalidation_domains = dictionary ∷ [];
  failures = [];
  warnings = stale_drop (codes "system/gone") ∷ [];
}

compiled_test :
    compile_case_delta_graph tools
      (λ key. ok [])
      setup
      reading
      (λ path text cls. [])
      workspace
      field_plan
      delta
      hints
    ≡ ok changed_case
unfolding compile_case_delta_graph
compiled_test = refl

compile_case_delta_graph-Covers_example :
    (seen : Dict Str Str × List DeltaFailure) × (committed_view setup reading workspace
        field_plan.required_case_files
      ≡ ok seen)
    × Covers tools
        (λ key. ok [])
        setup
        reading
        (λ path text cls. [])
        workspace
        field_plan
        delta
        hints
        compiled_test
        seen.0
unfolding valid
compile_case_delta_graph-Covers_example =
    compile_case_delta_graph-Covers tools (λ key. ok []) setup reading (λ path text cls. [])
      workspace field_plan delta hints compiled_test refl

abbrev view : Dict Str Str
view = (codes "system/controlDict", codes "end 1;") ∷ (codes "system/fvSchemes", codes "s") ∷ []

edit_view_lem_example :
    (find (codes "system/fvSchemes") (edit_view (view, []) delta).effective
      ≡ or_else (find (codes "system/fvSchemes") (edit_view (view, []) delta).changed) (
          if contains (active_drops view delta.drop_paths) (codes "system/fvSchemes")
          then none
          else find (codes "system/fvSchemes") view))
    × ((edit_view (view, []) delta).failures ≡ []
        → contains (active_drops view delta.drop_paths) (codes "system/fvSchemes") ≡ true
        → contains (keys (edit_view (view, []) delta).changed) (codes "system/fvSchemes") ≡ false)
edit_view_lem_example = edit_view_lem view [] delta (codes "system/fvSchemes")

abbrev unchanged : Edit
unchanged = record { effective = view; changed = []; failures = [] }
