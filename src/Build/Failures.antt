-- ===== src/Build/Failures.antt =====
-- The failure and warning messages of engineering/case_build_graph.py and case_delta_graph.py: one
-- constructor for each message, with what the message shows.
use native.Mathlib.Decide.{ℕ_discrete}
use open_foam_agent.Prelude.{Str, List, Eq, discrete_eq}
use open_foam_agent.Native.Errors.{ValueError, ValueError-discrete}

pub data Failure : Type 0 where
  empty_manifest : Failure
  unbound_consumers unbound_validation : ValueError → Failure
  invalid_invocation unbound_ordering : Str → ValueError → Failure
  dependency_cycle incomplete_manifest : List Str → Failure

pub data Warning : Type 0 where
  not_permitted stale_hint : Str → Warning
  stale_native_hint : Str → Str → Warning

pub Failure-discrete : Discrete Failure
Failure-discrete = hlevel (ℕ_discrete, ValueError-discrete)

pub Warning-discrete : Discrete Warning
Warning-discrete = hlevel ℕ_discrete

instance abbrev pub failure_eq : Eq Failure
failure_eq = discrete_eq Failure-discrete

instance abbrev pub warning_eq : Eq Warning
warning_eq = discrete_eq Warning-discrete
