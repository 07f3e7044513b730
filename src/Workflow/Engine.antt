-- ===== src/Workflow/Engine.antt =====
-- workflow/engine.py. The agents and the runtime are handlers: any functions of the state that
-- return or raise. Python mutates the shared state, so what a handler wrote before it raised stays.
-- Progress reports are output only and are left out.
pub mod Totality
pub mod Limit
pub mod Traced
use open_foam_agent.Prelude.{
  ℕ, zero, suc, ◌+◌, ◌-◌, Str, Bool, true, false, not, ◌&&◌, ◌||◌, Option, none, some, List, [],
  ◌∷◌, ◌++◌, ◌==◌, nat_eq, Eq, if◌then◌else◌, contains, length, ltb,
}
use open_foam_agent.Workflow.State.{
  State, init, intake_analysis, intake_review_required, needs_clarification, engineering,
  case_preview_ready, mesh_ready, pre_solve_validation, solve_ready, engineering_review_required,
  engineering_blocked, simulation, runtime_repair, postprocessing, execution_done,
  result_review_required, feedback_received, revision_ready, complete, done, failed, state_eq,
  CfdState, FailureRecord, transition, mark_feedback_awaiting_review, Note, workflow_started,
  postprocessing_skipped, repair_escaped, no_handler, max_steps_exceeded, step_raised,
  transport_failed,
}

-- An exception: its type, its text, and whether it is a `StructuredOutputError` that was caused by
-- a `CodexTransportParseError`.
pub record Exception : Type 0 where
  pub type_name : Str
  pub message : Str
  pub transport_parse : Bool

pub data Outcome : Type 0 where
  returned : CfdState → Outcome
  raised : Exception → CfdState → Outcome

abbrev pub Handler : Type 0
Handler = CfdState → Outcome

pub record Handlers : Type 0 where
  pub bind_checkpoint : Handler
  pub checkpoint_start : Handler
  pub checkpoint_finish : Handler
  pub intake_run : Handler
  pub engineering_prepare : Handler
  pub runtime_run : Handler
  pub postprocess_run : Handler
  pub postprocessing_enabled : Bool

-- One statement after another.
abbrev pub and_then : Outcome → Handler → Outcome
and_then (returned s) next = next s
and_then (raised e s) next = raised e s

abbrev report_succeeded : Option Bool → Bool
report_succeeded (some true) = true
report_succeeded (some false) = false
report_succeeded none = false

-- The feedback is marked when the result waits for review.
unfoldable pub close_review : Handler
unfolding mark_feedback_awaiting_review
close_review s =
    if s.current_state == result_review_required
    then returned (mark_feedback_awaiting_review s)
    else returned s

-- The states in which `run` returns at once.
unfoldable pub is_terminal : State → Bool
is_terminal intake_review_required = true
is_terminal needs_clarification = true
is_terminal case_preview_ready = true
is_terminal mesh_ready = true
is_terminal solve_ready = true
is_terminal engineering_review_required = true
is_terminal engineering_blocked = true
is_terminal result_review_required = true
is_terminal revision_ready = true
is_terminal complete = true
is_terminal done = true
is_terminal failed = true
is_terminal other = false

abbrev pub recovery_of : State → Exception → FailureRecord
recovery_of stage e = record { stage = stage; type_name = e.type_name; message = e.message }

-- Beside a primary failure the exception becomes a secondary one, sixteen at most.
unfoldable pub note_with : Option Str → State → Exception → CfdState → CfdState
note_with none stage e s = s
note_with (some primary) stage e s =
    if ltb (length s.secondary_failures) 16
    then record s { secondary_failures = s.secondary_failures ++ recovery_of stage e ∷ [] }
    else s

unfoldable pub note_failure : State → Exception → CfdState → CfdState
unfolding note_with
note_failure stage e s = note_with s.primary_failure stage e s

abbrev pub preserves_case : State → Bool
preserves_case engineering = true
preserves_case simulation = true
preserves_case runtime_repair = true
preserves_case other = false

-- The `except` clause of `run`.
unfoldable pub recover : State → Exception → CfdState → CfdState
unfolding note_failure transition
recover stage e s =
    let noted = note_failure stage e s in
    if e.transport_parse && preserves_case stage
    then transition engineering_blocked (transport_failed e.message) noted
    else transition failed (step_raised e.message) noted

module _ (h : Handlers) where
  unfoldable pub after_runtime : Handler
  unfolding close_review transition
  after_runtime s =
      if (s.current_state == execution_done) && report_succeeded s.runtime_report_success
      then (if h.postprocessing_enabled
          then and_then (h.postprocess_run s) close_review
          else close_review (transition result_review_required postprocessing_skipped s))
      else returned s

  -- The `match` on the current state.
  unfoldable pub dispatch : State → Handler
  unfolding after_runtime transition
  dispatch init s = returned (transition intake_analysis workflow_started s)
  dispatch intake_analysis s = h.intake_run s
  dispatch engineering s = h.engineering_prepare s
  dispatch simulation s = and_then (h.runtime_run s) after_runtime
  dispatch runtime_repair s =
      returned (transition engineering_blocked repair_escaped (record s { solve_approved = false }))
  dispatch other s = returned (transition failed (no_handler s.current_state) s)

  unfoldable pub step : Handler
  unfolding dispatch
  step s =
      and_then
        (and_then (and_then (h.bind_checkpoint s) h.checkpoint_start)
          (λ t. dispatch t.current_state t))
        h.checkpoint_finish

  unfoldable pub run : ℕ → CfdState → CfdState
  unfolding is_terminal step recover transition
  run zero s = transition failed max_steps_exceeded s
  run (suc n) s = elim (is_terminal s.current_state) [
    | true ↦ s
    | false ↦ elim (step s) [ returned t ↦ run n t | raised e t ↦ recover s.current_state e t ]
  ]
