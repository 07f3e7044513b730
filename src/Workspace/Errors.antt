-- ===== src/Workspace/Errors.antt =====
-- The errors of tools/workspace.py: one constructor for each message, with what it shows.
use native.Mathlib.Decide.{ℕ_discrete}
use open_foam_agent.Prelude.{Str}

pub data WorkspaceError : Type 0 where
  backslash_in_path : WorkspaceError
  unsafe_path unsafe_result_path outside_output_roots symlink_component escapes_sandbox :
      Str → WorkspaceError
  file_not_found : Str → WorkspaceError
  nul_byte not_encodable immutable_asset : WorkspaceError
  file_too_large : Str → WorkspaceError
  content_refused : Str → WorkspaceError
  case_too_large preflight_failed asset_deletion : WorkspaceError
  not_agent_authored : Str → WorkspaceError
  os_error rollback_failed : Str → WorkspaceError
  plan_changed file_set_changed manifest_changed : WorkspaceError
  empty_case invalid_content too_many_inputs inputs_too_large : WorkspaceError
  symlink_input not_utf8 : Str → WorkspaceError
  input_changed origin_changed : Str → WorkspaceError

pub WorkspaceError-discrete : Discrete WorkspaceError
WorkspaceError-discrete = hlevel ℕ_discrete
