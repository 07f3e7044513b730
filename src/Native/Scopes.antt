-- ===== src/Native/Scopes.antt =====
-- contracts/execution_scopes.py: scope identities, their namespaces, and the binding of native
-- invocations to scopes.
pub mod Keys
use open_foam_agent.Prelude.{
  Str, codes, Bool, true, false, ◌||◌, Option, none, some, List, [], ◌∷◌, ◌++◌, map, ◌==◌, nat_eq,
  list_eq, option_eq, list_beq, option_beq, Result, ok, err, ◌>>=◌, filter, distinct, if◌then◌else◌,
  starts_with, replace, posix, drop, length, rstrip_slash,
}
use open_foam_agent.Native.Errors.{
  ValueError, invalid_scope_key, unknown_scope_key, duplicate_scopes, unbound_scope,
  no_named_scope_contract,
}
use open_foam_agent.Native.Contracts.{
  Registry, native_tool_contract, native_command_region, is_region_name,
}

-- `name` is absent for the root case namespace.
pub record ExecutionScope : Type 0 where
  pub name : Option Str
  pub solver_module : Option Str
  pub solver_provider_id : Option Str

pub record RegionSolverAssignment : Type 0 where
  pub region : Str
  pub solver_module : Str
  pub provider_id : Str

-- What `execution_scopes` reads of an `OpenFOAMExecutionSpec`.
pub record ExecutionSpec : Type 0 where
  pub scopes : List ExecutionScope
  pub solver_module : Option Str
  pub solver_provider_id : Option Str
  pub regions : List RegionSolverAssignment

pub record RegionCaseLayout : Type 0 where
  pub region : Str
  pub solver_module : Option Str

-- What the controller graphs read of an `EngineeringPlan`.
pub record EngineeringPlan : Type 0 where
  pub solver : Str
  pub solver_provider_id : Str
  pub execution : Option ExecutionSpec
  pub region_layouts : List RegionCaseLayout
  pub required_case_files : List Str

abbrev pub root_scope_key : Str
root_scope_key = codes "root"

abbrev pub region_scope_prefix : Str
region_scope_prefix = codes "region:"

-- The key of a scope that is known by its name only.
unfoldable pub key_of_name : Option Str → Str
key_of_name none = root_scope_key
key_of_name (some name) = region_scope_prefix ++ name

unfoldable pub scope_key : ExecutionScope → Str
unfolding key_of_name
scope_key scope = key_of_name scope.name

abbrev pub named_scope : Option Str → ExecutionScope
named_scope name = record { name = name; solver_module = none; solver_provider_id = none }

unfoldable pub scope_from_key : Str → Result ValueError ExecutionScope
unfolding starts_with list_beq
scope_from_key key =
    if key == root_scope_key
    then ok (named_scope none)
    else if starts_with key region_scope_prefix
    then (let name = drop (length region_scope_prefix) key in
        if is_region_name name then ok (named_scope (some name)) else err (invalid_scope_key key))
    else err (unknown_scope_key key)

pub record ScopePaths : Type 0 where
  pub key : Str
  pub name : Option Str
  pub field_dir : Str
  pub constant_dir : Str
  pub system_dir : Str

paths_of : Str → Option Str → ScopePaths
paths_of key none = record {
  key = key;
  name = none;
  field_dir = codes "0";
  constant_dir = codes "constant";
  system_dir = codes "system";
}
paths_of key (some name) = record {
  key = key;
  name = some name;
  field_dir = codes "0/" ++ name;
  constant_dir = codes "constant/" ++ name;
  system_dir = codes "system/" ++ name;
}

unfoldable pub scope_paths : ExecutionScope → ScopePaths
unfolding paths_of scope_key
scope_paths scope = paths_of (scope_key scope) scope.name

-- The truth value of a text that may be absent.
abbrev truthy : Option Str → Bool
truthy none = false
truthy (some []) = false
truthy (some (c ∷ s)) = true

abbrev scope_of_region : RegionSolverAssignment → ExecutionScope
scope_of_region item = record {
  name = some item.region;
  solver_module = some item.solver_module;
  solver_provider_id = some item.provider_id;
}

abbrev name_of_region : Str → Option Str
name_of_region [] = none
name_of_region (c ∷ s) = some (c ∷ s)

abbrev scope_of_layout : RegionCaseLayout → ExecutionScope
scope_of_layout item = record {
  name = name_of_region item.region;
  solver_module = item.solver_module;
  solver_provider_id = none;
}

-- The legacy fields, where no scope and no region is declared.
legacy_scopes : Option Str → Option Str → List ExecutionScope
legacy_scopes solver provider =
    if truthy solver || truthy provider
    then record { name = none; solver_module = solver; solver_provider_id = provider } ∷ []
    else named_scope none ∷ []

region_scopes : List RegionSolverAssignment → List ExecutionScope → List ExecutionScope
region_scopes [] legacy = legacy
region_scopes (r ∷ rs) legacy = map scope_of_region (r ∷ rs)

declared_scopes : List ExecutionScope → List ExecutionScope → List ExecutionScope
declared_scopes [] fallback = fallback
declared_scopes (s ∷ ss) fallback = s ∷ ss

unfoldable pub scopes_of_execution : ExecutionSpec → List ExecutionScope
unfolding legacy_scopes region_scopes declared_scopes
scopes_of_execution execution = declared_scopes execution.scopes (
    region_scopes execution.regions
      (legacy_scopes execution.solver_module execution.solver_provider_id))

layout_scopes : List RegionCaseLayout → EngineeringPlan → List ExecutionScope
layout_scopes [] plan =
    record {
      name = none;
      solver_module = some plan.solver;
      solver_provider_id = some plan.solver_provider_id;
    }
    ∷ []
layout_scopes (l ∷ ls) plan = map scope_of_layout (l ∷ ls)

unfoldable pub execution_scopes : EngineeringPlan → List ExecutionScope
unfolding scopes_of_execution layout_scopes
execution_scopes plan = elim plan.execution [
  | some execution ↦ scopes_of_execution execution
  | none ↦ layout_scopes plan.region_layouts plan
]

abbrev pub scope_keys : List ExecutionScope → List Str
scope_keys scopes = map scope_key scopes

-- The dictionary keeps the last scope of a key, so it is as long as the list if keys are distinct.
unfoldable pub scope_by_key : EngineeringPlan → Result ValueError (List (Str × ExecutionScope))
unfolding distinct
scope_by_key plan =
    let scopes = execution_scopes plan in
    if distinct (scope_keys scopes)
    then ok (map (λ scope. (scope_key scope, scope)) scopes)
    else err duplicate_scopes

only_scope : Option Str → List ExecutionScope → Result ValueError ExecutionScope
only_scope region (scope ∷ []) = ok scope
only_scope region _ = err (unbound_scope region)

abbrev pub scopes_named : Option Str → List ExecutionScope → List ExecutionScope
scopes_named region scopes = filter (λ (scope : ExecutionScope). scope.name == region) scopes

unfoldable pub scope_for_native_arguments :
    EngineeringPlan → List Str → Result ValueError ExecutionScope
unfolding only_scope filter option_beq list_beq native_command_region execution_scopes
scope_for_native_arguments plan arguments = do
  region ← native_command_region arguments
  only_scope region (scopes_named region (execution_scopes plan))

scope_selector : Str → List Str → Option Str → Result ValueError (List Str)
scope_selector command template none = ok []
scope_selector command [] (some name) = err (no_named_scope_contract command)
scope_selector command (t ∷ ts) (some name) =
    ok (map (λ token. replace (codes "{scope_name}") name token) (t ∷ ts))

unfoldable pub scope_arguments_for : Registry → Str → ExecutionScope → Result ValueError (List Str)
unfolding scope_selector native_tool_contract replace
scope_arguments_for registry command scope =
    scope_selector command (native_tool_contract registry command).scope_arguments scope.name

abbrev pub name_or_empty : Option Str → Str
name_or_empty none = []
name_or_empty (some name) = name

unfoldable pub render_scope_template : Str → ExecutionScope → Str
unfolding scope_paths replace posix
render_scope_template template scope =
    let paths = scope_paths scope in
    posix (
      replace (codes "{system_dir}") paths.system_dir (
        replace (codes "{constant_dir}") paths.constant_dir (
          replace (codes "{field_dir}") paths.field_dir (
            replace (codes "{scope_name}") (name_or_empty scope.name)
              (replace (codes "{scope_key}") paths.key template)))))

-- `str(PurePosixPath(path)).rstrip("/")`
unfoldable pub normal_path : Str → Str
unfolding posix rstrip_slash
normal_path path = rstrip_slash (posix path)

unfoldable pub path_overlap : Str → Str → Bool
unfolding normal_path list_beq starts_with
path_overlap left right =
    let l = normal_path left in
    let r = normal_path right in
    (l == r) || starts_with l (r ++ codes "/") || starts_with r (l ++ codes "/")

unfoldable pub contract_arguments : Registry → Str → ExecutionScope → Result ValueError (List Str)
unfolding scope_arguments_for
contract_arguments registry command scope = do
  selector ← scope_arguments_for registry command scope
  ok (selector ++ (native_tool_contract registry command).default_arguments)
