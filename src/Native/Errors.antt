-- ===== src/Native/Errors.antt =====
-- The `ValueError`s of tools/native_contracts.py, contracts/execution_scopes.py and
-- contracts/mesh_dependencies.py: one constructor
-- for each message, with what the message shows.
use native.Mathlib.Decide.{ℕ_discrete}
use open_foam_agent.Prelude.{Str, Option, Eq, discrete_eq}

pub data ValueError : Type 0 where
  duplicate_contract : Str → ValueError
  region_with_all_regions region_twice region_name_missing : ValueError
  unsafe_region : Str → ValueError
  invalid_scope_key unknown_scope_key : Str → ValueError
  duplicate_scopes : ValueError
  unbound_scope : Option Str → ValueError
  no_named_scope_contract undeclared_region : Str → ValueError
  undeclared_execution_scope no_output_paths history_limit not_chronological : ValueError
  bad_dependency_path : Str → ValueError

pub ValueError-discrete : Discrete ValueError
ValueError-discrete = hlevel ℕ_discrete

instance abbrev pub value_error_eq : Eq ValueError
value_error_eq = discrete_eq ValueError-discrete
