-- ===== src/Native/Examples.antt =====
-- A registry file of two records, and the keys of a region.
use open_foam_agent.Prelude.{
  Str, codes, list_eq, nat_eq, true, none, some, List, [], ◌∷◌, ◌≡◌, refl, ok, err, map,
}
use open_foam_agent.Native.Errors.{duplicate_contract}
use open_foam_agent.Native.Contracts.{
  RawContract, contract_of_raw, load_registry, authoring, is_region_name,
}
use open_foam_agent.Native.Scopes.{ExecutionScope, named_scope, scope_key, scope_from_key}
use open_foam_agent.Native.Scopes.Keys.{scope_from_key-scope_key}

abbrev entry : Str → RawContract
entry command = record {
  command = command;
  effect = codes "mesh";
  required_dictionary = none;
  permitted_phases = some (authoring ∷ []);
  controller_finalizer = none;
  scope_arguments = none;
  mesh_dependency_inputs = none;
  mesh_dependency_outputs = none;
  controller_auto_consumer = none;
  controller_delta_consumer = none;
  execution_order = none;
  default_arguments = none;
  ordering_inputs = none;
  ordering_outputs = none;
}

abbrev entries : List RawContract
entries = entry (codes "blockMesh") ∷ entry (codes "checkMesh") ∷ []

loaded_test : load_registry entries ≡ ok (map contract_of_raw entries)
unfolding load_registry
loaded_test = refl

twice_test :
    load_registry (entry (codes "blockMesh") ∷ entries)
    ≡ err (duplicate_contract (codes "blockMesh"))
unfolding load_registry
twice_test = refl

abbrev air : ExecutionScope
air = record {
  name = some (codes "air");
  solver_module = some (codes "fluid");
  solver_provider_id = none;
}

key_test : scope_from_key (codes "region:air") ≡ ok (named_scope (some (codes "air")))
unfolding scope_from_key is_region_name
key_test = refl

air_test : is_region_name (codes "air") ≡ true
unfolding is_region_name
air_test = refl

scope_from_key-scope_key_example : scope_from_key (scope_key air) ≡ ok (named_scope air.name)
scope_from_key-scope_key_example = scope_from_key-scope_key air (codes "air") refl air_test
