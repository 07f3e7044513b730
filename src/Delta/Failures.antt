-- ===== src/Delta/Failures.antt =====
-- The failure and warning messages of engineering/case_delta_graph.py: one constructor for each
-- message, with what the message shows.
use native.Mathlib.Decide.{ℕ_discrete}
use open_foam_agent.Prelude.{ℕ, Str, List, Eq, discrete_eq}
use open_foam_agent.Native.Errors.{ValueError, ValueError-discrete}
use open_foam_agent.Build.Failures.{Failure, Failure-discrete}
use open_foam_agent.Workspace.Errors.{WorkspaceError, WorkspaceError-discrete}

pub data DeltaFailure : Type 0 where
  unreadable_committed unreadable_required conflicting_replacement : Str → DeltaFailure
  patch_and_replace patch_and_drop replace_and_drop : Str → DeltaFailure
  target_too_large target_absent empty_old_text : Str → DeltaFailure
  match_count : Str → ℕ → DeltaFailure
  incomplete_manifest : List Str → DeltaFailure
  refused : WorkspaceError → DeltaFailure
  bad_header : Str → Str → DeltaFailure
  unbound_consumers unbound_mesh : ValueError → DeltaFailure
  ordering : Failure → DeltaFailure

pub data DeltaWarning : Type 0 where
  stale_drop not_permitted stale_validation_hint : Str → DeltaWarning
  stale_native_hint : Str → Str → DeltaWarning

-- What the compiler raises.
pub data Raised : Type 0 where
  unsafe : WorkspaceError → Raised
  invalid : ValueError → Raised

pub DeltaFailure-discrete : Discrete DeltaFailure
DeltaFailure-discrete =
    hlevel (ℕ_discrete, ValueError-discrete, Failure-discrete, WorkspaceError-discrete)

pub DeltaWarning-discrete : Discrete DeltaWarning
DeltaWarning-discrete = hlevel ℕ_discrete

instance abbrev pub delta_failure_eq : Eq DeltaFailure
delta_failure_eq = discrete_eq DeltaFailure-discrete

instance abbrev pub delta_warning_eq : Eq DeltaWarning
delta_warning_eq = discrete_eq DeltaWarning-discrete
