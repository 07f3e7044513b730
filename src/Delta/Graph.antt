-- ===== src/Delta/Graph.antt =====
-- `compile_case_delta_graph` of engineering/case_delta_graph.py: checks of the edited case, the
-- native commands that a delta needs, and the graph. The header check of tools/foam_file.py and the
-- paths that a scope's mesh depends on are arguments.
pub mod Covered
use open_foam_agent.Prelude.{
  is_empty, ℕ, ◌+◌, Str, codes, Bool, true, false, not, ◌&&◌, ◌||◌, Option, none, some, List, [],
  ◌∷◌, ◌++◌, map, ◌==◌, nat_eq, list_eq, option_eq, pair_eq, list_beq, pair_beq, option_beq, Result,
  ok, err, ◌>>=◌, contains, dedupe, dedupe_by, filter, if◌then◌else◌, starts_with, sort_by,
}
use open_foam_agent.Prelude.Dict.{Dict, keys}
use open_foam_agent.Native.Errors.{ValueError}
use open_foam_agent.Native.Contracts.{
  Registry, Phase, native_tool_contract, required_dictionary, command_permitted, str_le,
}
use open_foam_agent.Native.Scopes.{EngineeringPlan, execution_scopes, scope_keys, scope_key}
use open_foam_agent.Native.Commands.{
  NativeOpenFoamCommand, mesh, native_command, final_mesh_validation_commands,
}
use open_foam_agent.Build.Failures.{Failure}
use open_foam_agent.Build.Order.{stable_dependency_order}
use open_foam_agent.Build.Graph.{is_dictionary_path, is_surface_path, dictionary_is_there}
use open_foam_agent.Workspace.Errors.{WorkspaceError}
use open_foam_agent.Workspace.Preflight.{Workspace, Setup, validate_candidate_bundle}
use open_foam_agent.Delta.Failures.{
  DeltaFailure, incomplete_manifest, refused, bad_header, unbound_consumers, unbound_mesh, ordering,
  DeltaWarning, not_permitted, stale_validation_hint, stale_native_hint, Raised, unsafe, invalid,
  delta_failure_eq, delta_warning_eq,
}
use open_foam_agent.Delta.Affected.{affected_mesh_scope_keys}
use open_foam_agent.Delta.Consumers.{Token, token, auto_consumers_for_delta}
use open_foam_agent.Delta.Edits.{
  Edit, Reading, Delta, committed_view, edit_view, active_drops, drop_warnings,
}

pub data Domain : Type 0 where
  dictionary surface mesh_domain pre_solve : Domain

pub record CaseDeltaGraph : Type 0 where
  pub changed_files : Dict Str Str
  pub drop_paths : List Str
  pub effective_paths : List Str
  pub missing_required_paths : List Str
  pub dictionary_paths : List Str
  pub surface_paths : List Str
  pub native_pipeline : List NativeOpenFoamCommand
  pub validate_pre_solve : Bool
  pub affected_mesh_scope_keys : List Str
  pub reused_mesh_scope_keys : List Str
  pub revalidation_domains : List Domain
  pub failures : List DeltaFailure
  pub warnings : List DeltaWarning

-- The property `valid`.
unfoldable pub valid : CaseDeltaGraph → Bool
valid graph = is_empty graph.failures

-- What the compiler reads of a repair beside its edits.
pub record Hints : Type 0 where
  pub native_hints : List NativeOpenFoamCommand
  pub mesh_commands : List Str
  pub validate_dictionaries : List Str
  pub surface_checks : List Str
  pub validate_pre_solve : Bool
  pub phase : Phase

-- `_dedupe_native`
unfoldable pub dedupe_native : List NativeOpenFoamCommand → List NativeOpenFoamCommand
unfolding dedupe_by pair_beq list_beq
dedupe_native items = dedupe_by token items

-- The exceptions of one part among those of the whole.
abbrev pub lift {ℓ} : {A : Type ℓ} {E F : Type 0} → (E → F) → Result E A → Result F A
lift f (ok a) = ok a
lift f (err e) = err (f e)

hints_of : List NativeOpenFoamCommand → List Str → List NativeOpenFoamCommand
hints_of [] commands = map (λ command. native_command command [] mesh) commands
hints_of (item ∷ items) commands = item ∷ items

-- Commands that are never hints.
unfoldable pub is_check : NativeOpenFoamCommand → Bool
unfolding contains list_beq
is_check item =
    contains (codes "foamDictionary" ∷ codes "surfaceCheck" ∷ codes "checkMesh" ∷ []) item.command

pub record Strategy : Type 0 where
  pub commands : List NativeOpenFoamCommand
  pub failures : List DeltaFailure
  pub warnings : List DeltaWarning

abbrev shown : Option Str → Str
shown none = []
shown (some path) = path

abbrev keep : NativeOpenFoamCommand → Strategy → Strategy
keep item s = record s { commands = item ∷ s.commands }

abbrev warn : DeltaWarning → Strategy → Strategy
warn warning s = record s { warnings = warning ∷ s.warnings }

header_class : Str → Option Str
unfolding starts_with
header_class path = if starts_with path (codes "system/") then some (codes "dictionary") else none

-- The checks of the prospective texts.
unfoldable pub header_failures :
    (Str → Str → Option Str → List Str) → Bool → Dict Str Str → List DeltaFailure
unfolding header_class is_dictionary_path
header_failures check validate_pre_solve [] = []
header_failures check validate_pre_solve ((path, content) ∷ rest) =
    let later = header_failures check validate_pre_solve rest in
    if not validate_pre_solve || not (is_dictionary_path path)
    then later
    else map (bad_header path) (check path content (header_class path)) ++ later

missing_failures : List Str → List DeltaFailure
missing_failures [] = []
missing_failures (path ∷ paths) = incomplete_manifest (path ∷ paths) ∷ []

-- `sorted(...)` of a set.
unfoldable pub sorted_set : List Str → List Str
unfolding dedupe sort_by str_le list_beq
sorted_set items = sort_by str_le (dedupe items)

abbrev domain_if : Bool → Domain → List Domain
domain_if true domain = domain ∷ []
domain_if false domain = []

-- What a `try` around an inference leaves. The loop of `auto_consumers_for_delta` always ends.
abbrev inferred_or_empty :
    Option (Result ValueError (List NativeOpenFoamCommand))
    → List NativeOpenFoamCommand × List DeltaFailure
inferred_or_empty none = ([], [])
inferred_or_empty (some (ok items)) = (items, [])
inferred_or_empty (some (err e)) = ([], unbound_consumers e ∷ [])

abbrev scopes_or_empty : Result ValueError (List Str) → List Str × List DeltaFailure
scopes_or_empty (ok found) = (found, [])
scopes_or_empty (err e) = ([], unbound_mesh e ∷ [])

module _ (registry : Registry) where
  -- The loop over the hints.
  unfoldable pub select_hints :
      Phase → List Str → List NativeOpenFoamCommand → Result ValueError Strategy
  unfolding is_check command_permitted required_dictionary contains list_beq
  select_hints phase there [] = ok (record { commands = []; failures = []; warnings = [] })
  select_hints phase there (item ∷ items) =
      let rest = select_hints phase there items in
      if is_check item
      then rest
      else if not (command_permitted registry item.command phase)
      then (do s ← rest; ok (warn (not_permitted item.command) s))
      else (do
        required ← required_dictionary registry item.command item.arguments
        s ← rest
        ok (
            if dictionary_is_there there required
            then keep item s
            else warn (stale_native_hint item.command (shown required)) s))

  -- The hints, the consumers that the delta needs, and without repetition.
  unfoldable pub delta_strategy :
      EngineeringPlan → Hints → List Str → List Str → Result ValueError Strategy
  unfolding select_hints hints_of dedupe_native auto_consumers_for_delta
  delta_strategy plan hints there changed = do
    s ←
        select_hints hints.phase there
          (dedupe_native (hints_of hints.native_hints hints.mesh_commands))
    let inferred =
        inferred_or_empty (auto_consumers_for_delta registry plan there changed s.commands)
    ok (record {
      commands = dedupe_native (s.commands ++ inferred.0);
      failures = inferred.1;
      warnings = s.warnings;
    })

  is_finalizer : NativeOpenFoamCommand → Bool
  unfolding native_tool_contract
  is_finalizer item = (native_tool_contract registry item.command).controller_finalizer

  -- With affected scopes their final checks take the place of all finalizers.
  unfoldable pub with_checks :
      EngineeringPlan
      → List Str
      → List NativeOpenFoamCommand
      → Result ValueError (List NativeOpenFoamCommand)
  unfolding is_finalizer filter final_mesh_validation_commands
  with_checks plan [] commands = ok commands
  with_checks plan (key ∷ affected) commands = do
    checks ← final_mesh_validation_commands registry plan (some (key ∷ affected))
    ok (filter (λ item. not (is_finalizer item)) commands ++ checks)

  -- The pipeline in its order, and the failures of the ordering.
  unfoldable pub ordered_pipeline :
      EngineeringPlan → List NativeOpenFoamCommand → List NativeOpenFoamCommand × List Failure
  unfolding is_finalizer filter dedupe_native stable_dependency_order
  ordered_pipeline plan commands =
      let (ordered, failures) =
        stable_dependency_order registry plan
          (dedupe_native (filter (λ item. not (is_finalizer item)) commands)) in
      (ordered ++ filter is_finalizer commands, failures)

module _ (registry : Registry) (dependencies : Str → Result ValueError (List Str)) where
  -- The graph of an edited case.
  unfoldable pub assemble :
      EngineeringPlan
      → Hints
      → List Str
      → Edit
      → List DeltaFailure
      → List DeltaWarning
      → Result ValueError CaseDeltaGraph
  unfolding delta_strategy affected_mesh_scope_keys with_checks ordered_pipeline sorted_set
      missing_failures filter contains list_beq dedupe is_dictionary_path is_surface_path
  assemble plan hints drops edit content_failures stale_drops = do
    let there = keys edit.effective
    let changed = keys edit.changed
    let missing = filter (λ path. not (contains there path)) plan.required_case_files
    let dirty = changed ++ drops
    strategy ← delta_strategy registry plan hints there dirty
    let (affected, unbound) =
        scopes_or_empty
          (affected_mesh_scope_keys registry dependencies plan dirty strategy.commands)
    commands ← with_checks registry plan affected strategy.commands
    let (pipeline, cycles) = ordered_pipeline registry plan commands
    let dictionaries = sorted_set (filter is_dictionary_path changed)
    let surfaces = sorted_set (filter is_surface_path changed)
    let stale =
        filter (λ path. not (contains there path))
          (hints.validate_dictionaries ++ hints.surface_checks)
    ok (record {
      changed_files = edit.changed;
      drop_paths = drops;
      effective_paths = sorted_set there;
      missing_required_paths = missing;
      dictionary_paths = dictionaries;
      surface_paths = surfaces;
      native_pipeline = pipeline;
      validate_pre_solve = hints.validate_pre_solve;
      affected_mesh_scope_keys = sorted_set affected;
      reused_mesh_scope_keys =
          sorted_set
            (filter (λ key. not (contains affected key)) (scope_keys (execution_scopes plan)));
      revalidation_domains =
          domain_if (not (is_empty dictionaries)) dictionary
          ++ (domain_if (not (is_empty surfaces)) surface
              ++ (domain_if (not (is_empty affected)) mesh_domain
                  ++ domain_if hints.validate_pre_solve pre_solve));
      failures = dedupe (
          edit.failures
          ++ (missing_failures missing
              ++ (content_failures ++ (strategy.failures ++ (unbound ++ map ordering cycles)))));
      warnings = dedupe (stale_drops ++ (strategy.warnings ++ map stale_validation_hint stale));
    })

  module _ (setup : Setup) (reading : Reading) (check : Str → Str → Option Str → List Str) where
    unfoldable pub compile_case_delta_graph :
        Workspace → EngineeringPlan → Delta → Hints → Result Raised CaseDeltaGraph
    unfolding committed_view edit_view active_drops drop_warnings validate_candidate_bundle
        header_failures assemble
    compile_case_delta_graph w plan delta hints = do
      seen ← lift unsafe (committed_view setup reading w plan.required_case_files)
      let drops = active_drops seen.0 delta.drop_paths
      let edit = edit_view seen delta
      bundle ← lift unsafe (validate_candidate_bundle setup w edit.changed drops)
      lift invalid (
          assemble plan hints drops edit
            (map refused bundle ++ header_failures check hints.validate_pre_solve edit.changed)
            (drop_warnings seen.0 delta.drop_paths))
