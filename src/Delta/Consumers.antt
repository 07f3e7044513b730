-- ===== src/Delta/Consumers.antt =====
-- `auto_consumers_for_delta` of contracts/execution_scopes.py. A set is a list.
pub mod Settled
use open_foam_agent.Prelude.{
  is_nonempty, ℕ, zero, suc, Str, codes, Bool, true, false, not, ◌&&◌, ◌||◌, Option, none, some,
  List, [], ◌∷◌, ◌++◌, map, ◌==◌, nat_eq, list_eq, option_eq, pair_eq, list_beq, option_beq,
  pair_beq, Result, ok, err, ◌>>=◌, filter, any, contains, if◌then◌else◌, posix, has_part, length,
}
use open_foam_agent.Native.Errors.{ValueError}
use open_foam_agent.Native.Contracts.{
  Registry, NativeToolContract, native_tool_contract, native_command_region, required_dictionary,
  registered_contracts,
}
use open_foam_agent.Native.Scopes.{
  ExecutionScope, EngineeringPlan, execution_scopes, contract_arguments, render_scope_template,
  scope_for_native_arguments,
}
use open_foam_agent.Native.Commands.{
  NativeOpenFoamCommand, native_command, mesh, auto_mesh_consumers, Bound,
}
use open_foam_agent.Delta.Affected.{overlaps}

-- `(item.command, tuple(item.arguments))`
abbrev pub Token : Type 0
Token = Str × List Str

abbrev pub token : NativeOpenFoamCommand → Token
token item = (item.command, item.arguments)

abbrev is_available : List Str → Option Str → Bool
is_available paths none = false
is_available paths (some path) = contains paths path

-- `[actual if value == default else value ...]`, where both are there and not empty.
overridden : Option Str → Option Str → List Str → List Str
unfolding list_beq
overridden (some (a ∷ actual)) (some (d ∷ default)) values =
    map (λ value. if value == (d ∷ default) then a ∷ actual else value) values
overridden _ _ values = values

-- Whether a contract's dependencies stand in a scope's directories.
unfoldable pub is_scoped : NativeToolContract → Bool
unfolding any has_part
is_scoped contract =
    any
      (λ template.
        has_part (codes "{scope") template
        || (has_part (codes "{constant_dir}") template || has_part (codes "{system_dir}") template))
      (contract.mesh_dependency_inputs ++ contract.mesh_dependency_outputs)

rendered : Option ExecutionScope → List Str → List Str
unfolding render_scope_template
rendered none templates = templates
rendered (some scope) templates = map (λ template. render_scope_template template scope) templates

-- The state of the fixed point.
pub record Sweep : Type 0 where
  pub dirty : List Str
  pub seen : List Token
  pub selected : List NativeOpenFoamCommand
  pub added : Bool

module _ (registry : Registry) where
  -- `dependency_paths(scope, invocation, outputs=True)`
  unfoldable pub output_paths : Bound → List Str
  unfolding rendered native_tool_contract
  output_paths (scope, item) =
      rendered scope (native_tool_contract registry item.command).mesh_dependency_outputs

  default_dictionary : Option ExecutionScope → Str → Result ValueError (Option Str)
  unfolding contract_arguments required_dictionary native_tool_contract
  default_dictionary none command = ok (native_tool_contract registry command).required_dictionary
  default_dictionary (some scope) command = do
    args ← contract_arguments registry command scope
    required_dictionary registry command args

  -- `dependency_paths(scope, invocation)`
  unfoldable pub input_paths : Bound → Result ValueError (List Str)
  unfolding default_dictionary required_dictionary rendered native_tool_contract overridden
  input_paths (scope, item) = do
    default ← default_dictionary scope item.command
    actual ← required_dictionary registry item.command item.arguments
    ok (
        overridden actual default
          (rendered scope (native_tool_contract registry item.command).mesh_dependency_inputs))

  -- The shared candidate of a contract, and those of the named scopes.
  shared_candidate : List Str → NativeToolContract → List Bound
  unfolding contains list_beq
  shared_candidate paths contract =
      if is_available paths contract.required_dictionary
      then (none, native_command contract.command contract.default_arguments mesh) ∷ []
      else []

  scoped_candidate : List Str → NativeToolContract → ExecutionScope → Result ValueError (List Bound)
  unfolding contract_arguments required_dictionary contains list_beq
  scoped_candidate paths contract scope = elim scope.name [
    | none ↦ ok []
    | some name ↦ do
      args ← contract_arguments registry contract.command scope
      required ← required_dictionary registry contract.command args
      ok (
          if is_available paths required
          then (some scope, native_command contract.command args mesh) ∷ []
          else [])
  ]

  scoped_candidates :
      List Str → NativeToolContract → List ExecutionScope → Result ValueError (List Bound)
  unfolding scoped_candidate
  scoped_candidates paths contract [] = ok []
  scoped_candidates paths contract (scope ∷ scopes) = do
    here ← scoped_candidate paths contract scope
    others ← scoped_candidates paths contract scopes
    ok (here ++ others)

  -- The first loop over the registered contracts.
  unfoldable pub delta_candidates :
      List Str → List ExecutionScope → List NativeToolContract → Result ValueError (List Bound)
  unfolding shared_candidate scoped_candidates
  delta_candidates paths scopes [] = ok []
  delta_candidates paths scopes (contract ∷ contracts) = do
    let rest = delta_candidates paths scopes contracts
    named ←
        if contract.controller_delta_consumer && is_nonempty contract.scope_arguments
        then scoped_candidates paths contract scopes
        else ok []
    others ← rest
    ok (
        (if contract.controller_delta_consumer then shared_candidate paths contract else [])
        ++ (named ++ others))

  -- The scope that an explicit invocation's dependencies are rendered in.
  explicit_scope :
      EngineeringPlan → NativeOpenFoamCommand → Result ValueError (Option ExecutionScope)
  unfolding is_scoped native_tool_contract scope_for_native_arguments
  explicit_scope plan item =
      if is_scoped (native_tool_contract registry item.command)
      then (do scope ← scope_for_native_arguments plan item.arguments; ok (some scope))
      else ok none

  -- The loop over the explicit invocations: what they write.
  unfoldable pub explicit_outputs :
      EngineeringPlan → List NativeOpenFoamCommand → Result ValueError (List Str)
  unfolding explicit_scope output_paths
  explicit_outputs plan [] = ok []
  explicit_outputs plan (item ∷ items) = do
    scope ← explicit_scope plan item
    others ← explicit_outputs plan items
    ok (output_paths (scope, item) ++ others)

  -- `(item.command, native_command_region(item.arguments))`
  key_of : NativeOpenFoamCommand → Result ValueError (Str × Option Str)
  unfolding native_command_region
  key_of item = do region ← native_command_region item.arguments; ok (item.command, region)

  keys_of : List NativeOpenFoamCommand → Result ValueError (List (Str × Option Str))
  unfolding key_of
  keys_of [] = ok []
  keys_of (item ∷ items) = do key ← key_of item; others ← keys_of items; ok (key ∷ others)

  unfoldable pub not_explicit :
      List (Str × Option Str) → List Bound → Result ValueError (List Bound)
  unfolding key_of contains pair_beq list_beq option_beq
  not_explicit explicit [] = ok []
  not_explicit explicit ((scope, item) ∷ bound) = do
    key ← key_of item
    others ← not_explicit explicit bound
    ok (if contains explicit key then others else (scope, item) ∷ others)

  abbrev pub selected_by : Bound → Sweep → Sweep
  selected_by bound s = record {
    dirty = s.dirty ++ output_paths bound;
    seen = token bound.1 ∷ s.seen;
    selected = s.selected ++ bound.1 ∷ [];
    added = true;
  }

  -- The body of the inner loop.
  unfoldable pub visit : Bound → Sweep → Result ValueError Sweep
  unfolding input_paths output_paths overlaps contains pair_beq list_beq
  visit bound s = if contains s.seen (token bound.1) then ok s else (do
    inputs ← input_paths bound
    ok (if overlaps s.dirty inputs then selected_by bound s else s))

  unfoldable pub sweep : List Bound → Sweep → Result ValueError Sweep
  unfolding visit
  sweep [] s = ok s
  sweep (bound ∷ rest) s = do t ← visit bound s; sweep rest t

  -- The loop `while True`, on fuel; `none` means that the fuel ran out.
  unfoldable pub settle : ℕ → List Bound → Sweep → Option (Result ValueError Sweep)
  unfolding sweep
  settle zero candidates s = none
  settle (suc fuel) candidates s = elim (sweep candidates (record s { added = false })) [
    | err e ↦ some (err e)
    | ok t ↦ elim t.added [ true ↦ settle fuel candidates t | false ↦ some (ok t) ]
  ]

  -- The candidates and the state that the fixed point starts with.
  unfoldable pub delta_start :
      EngineeringPlan
      → List Str
      → List Str
      → List NativeOpenFoamCommand
      → Result ValueError (List Bound × Sweep)
  unfolding auto_mesh_consumers delta_candidates explicit_outputs keys_of not_explicit
      execution_scopes registered_contracts posix
  delta_start plan paths changed_paths explicit = do
    inferred ← auto_mesh_consumers registry plan paths
    extra ← delta_candidates paths (execution_scopes plan) (registered_contracts registry)
    outputs ← explicit_outputs plan explicit
    keys ← keys_of explicit
    candidates ← not_explicit keys (inferred ++ extra)
    ok (
      candidates,
      record {
        dirty = map posix changed_paths ++ outputs;
        seen = map token explicit;
        selected = [];
        added = false;
      },
    )

  abbrev selection_of :
      Option (Result ValueError Sweep) → Option (Result ValueError (List NativeOpenFoamCommand))
  selection_of none = none
  selection_of (some (err e)) = some (err e)
  selection_of (some (ok s)) = some (ok s.selected)

  -- One round for each candidate and a last one.
  unfoldable pub auto_consumers_for_delta :
      EngineeringPlan
      → List Str
      → List Str
      → List NativeOpenFoamCommand
      → Option (Result ValueError (List NativeOpenFoamCommand))
  unfolding delta_start settle
  auto_consumers_for_delta plan paths changed_paths explicit =
      elim (delta_start plan paths changed_paths explicit) [
        | err e ↦ some (err e)
        | ok (candidates, s) ↦ selection_of (settle (suc (length candidates)) candidates s)
      ]
