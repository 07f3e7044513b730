-- ===== src/Workflow/Engine/Traced.antt =====
-- The history along a run.
use open_foam_agent.Prelude.{
  ℕ, zero, suc, Bool, true, false, ◌&&◌, Option, none, some, ◌≡◌, refl, Bool-cases, inl, inr, Str,
  ltb, length, ◌==◌,
}
use open_foam_agent.Workflow.State.{
  State, CfdState, transition, state_eq, mark_feedback_awaiting_review, result_review_required,
  failed, engineering_blocked, execution_done, repair_escaped, init, intake_analysis, no_handler,
  max_steps_exceeded, workflow_started, postprocessing_skipped, transport_failed, step_raised,
  engineering, simulation, runtime_repair,
}
use open_foam_agent.Workflow.State.History.{IsTraced, transition-IsTraced}
use open_foam_agent.Workflow.Engine.{
  Exception, Outcome, returned, raised, Handler, Handlers, and_then, close_review, after_runtime,
  report_succeeded, dispatch, step, is_terminal, note_failure, note_with, recover, run,
  preserves_case,
}

-- What a handler leaves, whether it returns or raises.
abbrev pub left : Outcome → CfdState
left (returned s) = s
left (raised e s) = s

abbrev pub Traces : State → Handler → Type 0
Traces a f = (s : CfdState) → IsTraced a s → IsTraced a (left (f s))

-- The agents, the runtime and the checkpoints move the state by transitions only.
pub record TracesAll (a : State) (h : Handlers) : Type 0 where
  pub bind : Traces a h.bind_checkpoint
  pub start : Traces a h.checkpoint_start
  pub finish : Traces a h.checkpoint_finish
  pub intake : Traces a h.intake_run
  pub prepare : Traces a h.engineering_prepare
  pub runtime : Traces a h.runtime_run
  pub postprocess : Traces a h.postprocess_run

and_then-IsTraced :
    (a : State) (o : Outcome) (f : Handler)
    → IsTraced a (left o)
    → Traces a f
    → IsTraced a (left (and_then o f))
and_then-IsTraced a (returned s) f h k = k s h
and_then-IsTraced a (raised e s) f h k = h

close_review-IsTraced : (a : State) → Traces a close_review
unfolding close_review mark_feedback_awaiting_review
close_review-IsTraced a s h = elim (Bool-cases (s.current_state == result_review_required)) [
  | inl hit ↦ rw hit h
  | inr miss ↦ rw miss h
]

note_with-IsTraced :
    (a : State) (p : Option Str) (stage : State) (e : Exception) (s : CfdState)
    → IsTraced a s
    → IsTraced a (note_with p stage e s)
unfolding note_with
note_with-IsTraced a none stage e s h = h
note_with-IsTraced a (some p) stage e s h =
    elim (Bool-cases (ltb (length s.secondary_failures) 16)) [
      | inl less ↦ rw less h
      | inr more ↦ rw more h
    ]

recover-IsTraced :
    (a stage : State) (e : Exception) (s : CfdState) → IsTraced a s → IsTraced a (recover stage e s)
unfolding recover note_failure
recover-IsTraced a stage e s h =
    let noted = note_with-IsTraced a s.primary_failure stage e s h in
    elim (Bool-cases (e.transport_parse && preserves_case stage)) [
      | inl kept ↦ rw kept (
          transition-IsTraced a engineering_blocked (transport_failed e.message)
            (note_with s.primary_failure stage e s) noted)
      | inr lost ↦ rw lost (
          transition-IsTraced a failed (step_raised e.message)
            (note_with s.primary_failure stage e s) noted)
    ]

module _ (a : State) (h : Handlers) (laws : TracesAll a h) where
  after_runtime-IsTraced : Traces a (after_runtime h)
  unfolding after_runtime
  after_runtime-IsTraced s t =
      elim (Bool-cases
        ((s.current_state == execution_done) && report_succeeded s.runtime_report_success)) [
          | inl finished ↦ elim (Bool-cases h.postprocessing_enabled) [
            | inl enabled ↦
                rw (finished, enabled)
                  (and_then-IsTraced a (h.postprocess_run s) close_review (laws.postprocess s t)
                    (close_review-IsTraced a))
            | inr skipped ↦
                rw (finished, skipped)
                  (close_review-IsTraced a
                    (transition result_review_required postprocessing_skipped s)
                    (transition-IsTraced a result_review_required postprocessing_skipped s t))
          ]
          | inr unfinished ↦ rw unfinished t
        ]

  dispatch-IsTraced : (stage : State) → Traces a (dispatch h stage)
  unfolding dispatch
  dispatch-IsTraced init s t = transition-IsTraced a intake_analysis workflow_started s t
  dispatch-IsTraced intake_analysis s t = laws.intake s t
  dispatch-IsTraced engineering s t = laws.prepare s t
  dispatch-IsTraced simulation s t =
      and_then-IsTraced a (h.runtime_run s) (after_runtime h) (laws.runtime s t)
        after_runtime-IsTraced
  dispatch-IsTraced runtime_repair s t =
      transition-IsTraced a engineering_blocked repair_escaped (record s { solve_approved = false })
        t
  dispatch-IsTraced other s t = transition-IsTraced a failed (no_handler s.current_state) s t

  step-IsTraced : Traces a (step h)
  unfolding step
  step-IsTraced s t =
      and_then-IsTraced a
        (and_then (and_then (h.bind_checkpoint s) h.checkpoint_start)
          (λ u. dispatch h u.current_state u))
        h.checkpoint_finish
        (and_then-IsTraced a (and_then (h.bind_checkpoint s) h.checkpoint_start)
          (λ u. dispatch h u.current_state u)
          (and_then-IsTraced a (h.bind_checkpoint s) h.checkpoint_start (laws.bind s t) laws.start)
          (λ u k. dispatch-IsTraced u.current_state u k))
        laws.finish

  -- If the handlers keep the history a chain from a first state to the current one, so does a
  -- run.
  pub run-IsTraced : (n : ℕ) (s : CfdState) → IsTraced a s → IsTraced a (run h n s)
  unfolding run
  run-IsTraced zero s t = transition-IsTraced a failed max_steps_exceeded s t
  run-IsTraced (suc n) s t =
      go (is_terminal s.current_state) refl (step h s) refl (step-IsTraced s t) (run-IsTraced n)
    where
      go :
          (b : Bool)
          → is_terminal s.current_state ≡ b
          → (o : Outcome) → step h s ≡ o
          → IsTraced a (left (step h s))
          → ((u : CfdState) → IsTraced a u → IsTraced a (run h n u))
          → IsTraced a (run h (suc n) s)
      go true e o f k ih = rw (e, run) t
      go false e (returned u) f k ih = rw (e, f, run) (ih u (rw f at k))
      go false e (raised x u) f k ih =
          rw (e, f, run) (recover-IsTraced a s.current_state x u (rw f at k))
