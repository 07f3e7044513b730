-- ===== src/Delta/Affected.antt =====
-- `affected_mesh_scope_keys` of contracts/execution_scopes.py. The paths that a scope's mesh depends
-- on (`MeshDependencyGraph.dependencies`) are an argument; a set is a list.
pub mod Declared
use open_foam_agent.Prelude.{
  ℕ, Str, codes, Bool, true, false, ◌||◌, Option, none, some, List, [], ◌∷◌, ◌++◌, map, ◌==◌,
  nat_eq, list_eq, option_eq, list_beq, option_beq, Result, ok, err, ◌>>=◌, filter, any, contains,
  if◌then◌else◌, posix,
}
use open_foam_agent.Native.Errors.{ValueError, undeclared_region}
use open_foam_agent.Native.Contracts.{Registry, native_tool_contract, native_command_region}
use open_foam_agent.Native.Scopes.{
  ExecutionScope, EngineeringPlan, execution_scopes, scope_key, scope_keys, scopes_named,
  path_overlap, name_or_empty,
}
use open_foam_agent.Native.Commands.{NativeOpenFoamCommand}

unfoldable pub overlaps : List Str → List Str → Bool
unfolding any path_overlap
overlaps paths deps = any (λ path. any (path_overlap path) deps) paths

-- The scopes whose observed dependencies a change touches.
unfoldable pub touched_scopes :
    (Str → Result ValueError (List Str))
    → List Str
    → List ExecutionScope
    → Result ValueError (List Str)
unfolding overlaps scope_key
touched_scopes dependencies changed [] = ok []
touched_scopes dependencies changed (scope ∷ scopes) = do
  deps ← dependencies (name_or_empty scope.name)
  rest ← touched_scopes dependencies changed scopes
  ok (if overlaps changed deps then scope_key scope ∷ rest else rest)

one_scope : Str → List ExecutionScope → Result ValueError (List Str)
unfolding scope_key
one_scope region (scope ∷ []) = ok (scope_key scope ∷ [])
one_scope region _ = err (undeclared_region region)

-- The scopes that one mesh invocation writes.
scopes_of_region : List ExecutionScope → Option Str → Result ValueError (List Str)
unfolding one_scope filter option_beq list_beq
scopes_of_region scopes none = ok (scope_keys scopes)
scopes_of_region scopes (some region) = one_scope region (scopes_named (some region) scopes)

unfoldable pub is_mesh_effect : Str → Bool
unfolding list_beq
is_mesh_effect effect = (effect == codes "mesh") || (effect == codes "decomposition")

module _ (registry : Registry) where
  -- The loop over the invocations.
  unfoldable pub invoked_scopes :
      List ExecutionScope → List NativeOpenFoamCommand → Result ValueError (List Str)
  unfolding scopes_of_region is_mesh_effect native_tool_contract native_command_region
  invoked_scopes scopes [] = ok []
  invoked_scopes scopes (item ∷ items) =
      let rest = invoked_scopes scopes items in
      if is_mesh_effect (native_tool_contract registry item.command).effect
      then (do
        region ← native_command_region item.arguments
        here ← scopes_of_region scopes region
        others ← rest
        ok (here ++ others))
      else rest

  unfoldable pub affected_mesh_scope_keys :
      (Str → Result ValueError (List Str))
      → EngineeringPlan
      → List Str
      → List NativeOpenFoamCommand
      → Result ValueError (List Str)
  unfolding touched_scopes invoked_scopes execution_scopes posix
  affected_mesh_scope_keys dependencies plan changed_paths items = do
    let scopes = execution_scopes plan
    observed ← touched_scopes dependencies (map posix changed_paths) scopes
    invoked ← invoked_scopes scopes items
    ok (observed ++ invoked)
