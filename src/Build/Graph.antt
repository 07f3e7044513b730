-- ===== src/Build/Graph.antt =====
-- `compile_case_build_graph` of engineering/case_build_graph.py, its parts in the order of the code.
pub mod Manifest
pub mod Pipeline
pub mod Regions
use open_foam_agent.Prelude.{
  is_empty, ℕ, ◌+◌, Str, codes, Bool, true, false, not, ◌&&◌, ◌||◌, Option, none, some, List, [],
  ◌∷◌, ◌++◌, map, ◌==◌, nat_eq, list_eq, option_eq, pair_eq, list_beq, pair_beq, option_beq, Result,
  ok, err, ◌>>=◌, contains, any, dedupe, dedupe_by, filter, if◌then◌else◌, starts_with, suffix,
  lower,
}
use open_foam_agent.Native.Errors.{ValueError}
use open_foam_agent.Native.Contracts.{
  Registry, Phase, authoring, native_tool_contract, native_command_region, required_dictionary,
  command_permitted,
}
use open_foam_agent.Native.Scopes.{
  EngineeringPlan, ExecutionScope, scope_for_native_arguments, render_scope_template, normal_path,
}
use open_foam_agent.Native.Commands.{
  NativeOpenFoamCommand, Role, mesh, native_command, role_eq, Bound, auto_mesh_consumers,
  final_mesh_validation_commands,
}
use open_foam_agent.Build.Failures.{
  Failure, empty_manifest, unbound_consumers, unbound_validation, invalid_invocation,
  incomplete_manifest, Warning, not_permitted, stale_hint, stale_native_hint, failure_eq,
  warning_eq,
}
use open_foam_agent.Build.Order.{stable_dependency_order}

-- What the compiler reads of an `ExecuteCasePlanAction`.
pub record ExecuteCasePlanAction : Type 0 where
  pub plan : EngineeringPlan
  pub native_pipeline : List NativeOpenFoamCommand
  pub mesh_commands : List Str
  pub validate_dictionaries : List Str
  pub surface_checks : List Str

pub record CaseBuildGraph : Type 0 where
  pub required_paths : List Str
  pub authored_paths : List Str
  pub authored_required_paths : List Str
  pub deferred_native_required_paths : List Str
  pub missing_required_paths : List Str
  pub dictionary_paths : List Str
  pub surface_paths : List Str
  pub native_pipeline : List NativeOpenFoamCommand
  pub failures : List Failure
  pub warnings : List Warning

-- The property `valid`.
unfoldable pub valid : CaseBuildGraph → Bool
valid graph = is_empty graph.failures

abbrev surface_extensions : List Str
surface_extensions = map codes (".stl" ∷ ".obj" ∷ ".off" ∷ ".vtk" ∷ ".vtp" ∷ [])

abbrev non_dictionary_extensions : List Str
non_dictionary_extensions =
    surface_extensions ++ map codes (".csv" ∷ ".dat" ∷ ".emesh" ∷ ".gz" ∷ [])

unfoldable pub is_dictionary_path : Str → Bool
unfolding contains list_beq suffix lower
is_dictionary_path path = not (contains non_dictionary_extensions (lower (suffix path)))

unfoldable pub is_surface_path : Str → Bool
unfolding contains list_beq suffix lower
is_surface_path path = contains surface_extensions (lower (suffix path))

-- `(item.command, tuple(item.arguments), item.role)`
abbrev pub token : NativeOpenFoamCommand → (Str × List Str) × Role
token item = ((item.command, item.arguments), item.role)

unfoldable pub dedupe_invocations : List NativeOpenFoamCommand → List NativeOpenFoamCommand
unfolding dedupe_by
dedupe_invocations items = dedupe_by token items

unfoldable pub path_is_within : Str → Str → Bool
unfolding normal_path list_beq starts_with
path_is_within path root =
    let normalized = normal_path path in
    let normalized_root = normal_path root in
    (normalized == normalized_root) || starts_with normalized (normalized_root ++ codes "/")

abbrev append_all {ℓ} : {A : Type ℓ} → List (List A) → List A
append_all [] = []
append_all (xs ∷ xss) = xs ++ append_all xss

-- The commands that the model proposed: its pipeline, or else the bare mesh commands.
hints_of : List NativeOpenFoamCommand → List Str → List NativeOpenFoamCommand
hints_of [] commands = map (λ command. native_command command [] mesh) commands
hints_of (item ∷ items) commands = item ∷ items

-- Documentary probes.
unfoldable pub is_probe : NativeOpenFoamCommand → Bool
unfolding list_beq
is_probe item = (item.command == codes "foamDictionary") || (item.command == codes "surfaceCheck")

abbrev pub Key : Type 0
Key = Str × Option Str

-- The command and the region of an invocation. A bad `-region` raises out of the compiler.
pub key_of : NativeOpenFoamCommand → Result ValueError Key
unfolding native_command_region
key_of item = do region ← native_command_region item.arguments; ok (item.command, region)

pub keys_of : List NativeOpenFoamCommand → Result ValueError (List Key)
unfolding key_of
keys_of [] = ok []
keys_of (item ∷ items) = do key ← key_of item; keys ← keys_of items; ok (key ∷ keys)

-- `[item for item in inferred if key(item) not in explicit_keys]`
pub not_explicit :
    List Key → List NativeOpenFoamCommand → Result ValueError (List NativeOpenFoamCommand)
unfolding key_of contains pair_beq list_beq option_beq
not_explicit explicit [] = ok []
not_explicit explicit (item ∷ items) = do
  key ← key_of item
  rest ← not_explicit explicit items
  ok (if contains explicit key then rest else item ∷ rest)

-- A list with the messages that making it gave.
pub record Selection : Type 0 where
  pub commands : List NativeOpenFoamCommand
  pub failures : List Failure
  pub warnings : List Warning

abbrev pub dictionary_is_there : List Str → Option Str → Bool
dictionary_is_there authored none = true
dictionary_is_there authored (some path) = (path == []) || contains authored path

abbrev shown : Option Str → Str
shown none = []
shown (some path) = path

pub unwrap_failures : Result ValueError (List NativeOpenFoamCommand) → List Failure
unwrap_failures (ok items) = []
unwrap_failures (err e) = unbound_consumers e ∷ []

pub validation_failures : Result ValueError (List NativeOpenFoamCommand) → List Failure
validation_failures (ok items) = []
validation_failures (err e) = unbound_validation e ∷ []

-- What a `try` with the empty list as its fallback leaves.
pub or_empty : Result ValueError (List NativeOpenFoamCommand) → List NativeOpenFoamCommand
or_empty (ok items) = items
or_empty (err e) = []

pub manifest_failures : List Str → List Failure
manifest_failures [] = empty_manifest ∷ []
manifest_failures (path ∷ paths) = []

pub missing_failures : List Str → List Failure
missing_failures [] = []
missing_failures (path ∷ paths) = incomplete_manifest (path ∷ paths) ∷ []

-- `[f"Ignored stale ..." for hinted in hints if hinted not in authored]`
stale_hints : List Str → List Str → List Warning
unfolding contains list_beq filter
stale_hints authored hints =
    map stale_hint (filter (λ hinted. not (contains authored hinted)) hints)

-- The failures, in the order in which the function appends them.
unfoldable pub all_failures : (a b c d e f : List Failure) → List Failure
all_failures a b c d e f = a ++ (b ++ (c ++ (d ++ (e ++ f))))

module _ (registry : Registry) where
  -- The output roots that one invocation owns; none if it cannot be bound to one scope.
  unfoldable pub output_roots : EngineeringPlan → NativeOpenFoamCommand → List Str
  unfolding scope_for_native_arguments render_scope_template native_tool_contract
  output_roots plan invocation =
      let templates = (native_tool_contract registry invocation.command).mesh_dependency_outputs in
      elim (scope_for_native_arguments plan invocation.arguments) [
        | ok scope ↦ map (λ template. render_scope_template template scope) templates
        | err e ↦ []
      ]

  unfoldable pub deferred_native_required_paths :
      EngineeringPlan → List Str → List NativeOpenFoamCommand → List Str
  unfolding output_roots path_is_within filter any dedupe
  deferred_native_required_paths plan required pipeline =
      let roots = dedupe (append_all (map (output_roots plan) pipeline)) in
      filter (λ path. any (path_is_within path) roots) required

  -- The loop over `strategy`.
  unfoldable pub select_executable : List Str → List NativeOpenFoamCommand → Selection
  unfolding required_dictionary command_permitted contains list_beq
  select_executable authored [] = record { commands = []; failures = []; warnings = [] }
  select_executable authored (item ∷ items) =
      let rest = select_executable authored items in
      elim (required_dictionary registry item.command item.arguments) [
        | err e ↦ record rest { failures = invalid_invocation item.command e ∷ rest.failures }
        | ok dictionary ↦
            if not (command_permitted registry item.command authoring)
            then record rest { warnings = not_permitted item.command ∷ rest.warnings }
            else if not (dictionary_is_there authored dictionary)
            then record rest {
              warnings = stale_native_hint item.command (shown dictionary) ∷ rest.warnings;
            }
            else record rest { commands = item ∷ rest.commands }
      ]

  is_strategy : NativeOpenFoamCommand → Bool
  unfolding is_probe native_tool_contract
  is_strategy item =
      not (is_probe item) && not (native_tool_contract registry item.command).controller_finalizer

  unfoldable pub proposed_strategy : ExecuteCasePlanAction → List NativeOpenFoamCommand
  unfolding hints_of is_strategy dedupe_invocations filter
  proposed_strategy execution =
      dedupe_invocations
        (filter is_strategy (hints_of execution.native_pipeline execution.mesh_commands))

  pub inferred_consumers :
      EngineeringPlan → List Str → Result ValueError (List NativeOpenFoamCommand)
  unfolding auto_mesh_consumers
  inferred_consumers plan authored = do
    bound ← auto_mesh_consumers registry plan authored
    ok (map (λ (b : Bound). b.1) bound)

  -- The proposed commands and the inferred consumers that they leave open.
  unfoldable pub full_strategy :
      ExecuteCasePlanAction → List Str → Result ValueError (List NativeOpenFoamCommand)
  unfolding proposed_strategy inferred_consumers keys_of not_explicit dedupe_invocations or_empty
  full_strategy execution authored = do
    let strategy = proposed_strategy execution
    let inferred = or_empty (inferred_consumers execution.plan authored)
    explicit ← keys_of strategy
    fresh ← not_explicit explicit inferred
    ok (dedupe_invocations (strategy ++ fresh))

  -- The second half of the function, from the ordered commands on.
  unfoldable pub assemble :
      ExecuteCasePlanAction
      → List Str
      → Selection
      → List NativeOpenFoamCommand × List Failure
      → CaseBuildGraph
  unfolding deferred_native_required_paths is_dictionary_path is_surface_path filter dedupe contains
      list_beq manifest_failures missing_failures validation_failures unwrap_failures
      inferred_consumers or_empty stale_hints final_mesh_validation_commands
  assemble execution authored selection (ordered, ordering_failures) =
      let plan = execution.plan in
      let required = dedupe plan.required_case_files in
      let unauthored = filter (λ path. not (contains authored path)) required in
      let deferred = deferred_native_required_paths plan unauthored ordered in
      let missing =
        filter (λ path. not (contains authored path) && not (contains deferred path)) required in
      let checks = final_mesh_validation_commands registry plan none in
      record {
        required_paths = required;
        authored_paths = authored;
        authored_required_paths = filter (contains authored) required;
        deferred_native_required_paths = deferred;
        missing_required_paths = missing;
        dictionary_paths = filter is_dictionary_path authored;
        surface_paths = filter is_surface_path authored;
        native_pipeline = ordered ++ or_empty checks;
        failures = dedupe (
            all_failures (manifest_failures required)
              (unwrap_failures (inferred_consumers plan authored)) selection.failures
              ordering_failures (missing_failures missing) (validation_failures checks));
        warnings = dedupe (
            selection.warnings
            ++ stale_hints authored (execution.validate_dictionaries ++ execution.surface_checks));
      }

  -- `authored` holds the keys of the candidate bundle.
  unfoldable pub compile_case_build_graph :
      ExecuteCasePlanAction → List Str → Result ValueError CaseBuildGraph
  unfolding full_strategy select_executable stable_dependency_order assemble
  compile_case_build_graph execution authored = do
    strategy ← full_strategy execution authored
    let selection = select_executable authored strategy
    ok (
        assemble execution authored selection
          (stable_dependency_order registry execution.plan selection.commands))
