-- ===== src/Workflow/State/Acceptance.antt =====
-- When a result can be accepted, and what acceptance leaves behind.
use open_foam_agent.Prelude.{
  ok_injective, Str, true, false, List, [], ◌∷◌, ◌++◌, map, ◌≡◌, refl, arith, ok, Option, none,
  some, sym, ap, ◌∙◌, ◌↔◌, Bool-cases, inl, inr, ◌==◌, eq_iff, contains, nat_eq,
}
use open_foam_agent.Workflow.State.{
  CfdState, SimulationResult, Blocker, HumanFeedback, state_eq, feedback_status_eq,
  result_acceptance_blockers, accept_result, accept, result_review_required, complete, resolve,
  result_blockers, transition, result_accepted, FeedbackStatus, unresolved, revision_proposed,
  proposal_rejected, revision_in_progress, awaiting_rerun, awaiting_review, resolved, ℤ, pos,
  negsuc, is_nonzero,
}

-- All evidence that acceptance asks for.
pub record IsAcceptable (result : SimulationResult) : Type 0 where
  pub completed : result.completed ≡ true
  pub terminated : result.termination_verified ≡ true
  pub returned_zero : result.return_code ≡ pos 0
  pub exited : result.process_success ≡ true
  pub outputs : result.outputs_verified ≡ some true
  pub succeeded : result.success ≡ true

is_nonzero_iff : (code : ℤ) → (is_nonzero code ≡ false) ↔ (code ≡ pos 0)
is_nonzero_iff (pos n) = (λ h. let e : n ≡ 0 = ground arith in ap pos e, λ h. ap is_nonzero h)
is_nonzero_iff (negsuc n) = (λ h. absurd (cc), λ h. absurd (cc))

blockers_iff :
    (result : SimulationResult) → (result_blockers (some result) ≡ []) ↔ IsAcceptable result
unfolding result_blockers
blockers_iff result =
    let zero_code = is_nonzero_iff result.return_code in
    (
      λ h. record {
        completed = ground arith;
        terminated = ground arith;
        returned_zero = zero_code.0 (ground arith);
        exited = ground arith;
        outputs = ground arith;
        succeeded = ground arith;
      },
      λ h. ground (arith, zero_code.1 h.returned_zero, h.outputs),
    )

in_review :
    (s : CfdState)
    → s.current_state ≡ result_review_required
    → result_acceptance_blockers s ≡ result_blockers s.simulation
unfolding result_acceptance_blockers
in_review s e = rw ((eq_iff s.current_state result_review_required).1 e)

review_of_empty :
    (s : CfdState) → result_acceptance_blockers s ≡ [] → s.current_state ≡ result_review_required
unfolding result_acceptance_blockers
review_of_empty s h = elim (Bool-cases (s.current_state == result_review_required)) [
  | inl same ↦ (eq_iff s.current_state result_review_required).0 same
  | inr other ↦ absurd (cc (rw other at h))
]

no_result_blocks : (s : CfdState) → s.simulation ≡ none → ¬ (result_acceptance_blockers s ≡ [])
unfolding result_acceptance_blockers
no_result_blocks s f h = elim (Bool-cases (s.current_state == result_review_required)) [
  | inl same ↦ absurd (cc (rw (same, f) at h))
  | inr other ↦ absurd (cc (rw other at h))
]

-- Nothing blocks acceptance exactly if the state is RESULT_REVIEW_REQUIRED and has a result that
-- completed, was verified to have terminated, exited cleanly, has verified outputs and
-- succeeded.
pub result_acceptance_blockers_iff :
    (s : CfdState)
    → (result_acceptance_blockers s ≡ []) ↔ (
        (result : SimulationResult) × (s.current_state ≡ result_review_required)
        × (s.simulation ≡ some result)
        × IsAcceptable result)
result_acceptance_blockers_iff s = (
  λ h. needs s.simulation refl h,
  λ (result, e, f, evidence). rw (in_review s e, f) ((blockers_iff result).1 evidence),
)
  where
    needs :
        (sim : Option SimulationResult)
        → s.simulation ≡ sim
        → result_acceptance_blockers s ≡ []
        → (result : SimulationResult) × (s.current_state ≡ result_review_required)
          × (s.simulation ≡ some result)
          × IsAcceptable result
    needs none f h = absurd (no_result_blocks s f h)
    needs (some result) f h =
        let e = review_of_empty s h in
        (result, e, f, (blockers_iff result).0 (rw (in_review s e, f) at h))

-- The status that a feedback has once the result is accepted.
abbrev pub status_after : FeedbackStatus → FeedbackStatus
status_after unresolved = resolved
status_after revision_proposed = resolved
status_after proposal_rejected = proposal_rejected
status_after revision_in_progress = revision_in_progress
status_after awaiting_rerun = awaiting_rerun
status_after awaiting_review = resolved
status_after resolved = resolved

-- The state that acceptance makes of a state.
abbrev pub accepted_state : CfdState → CfdState
accepted_state s = record s {
  human_feedback =
      map (λ (feedback : HumanFeedback). record feedback { status = status_after feedback.status })
        s.human_feedback;
  active_revision_proposal = none;
  current_state = complete;
  history =
      s.history
      ++ record { source = s.current_state; target = complete; note = result_accepted } ∷ [];
}

resolve_at :
    (id state : Str) (status : FeedbackStatus)
    → resolve (record { feedback_id = id; submitted_state = state; status = status })
      ≡ record { feedback_id = id; submitted_state = state; status = status_after status }
unfolding contains
resolve_at id state unresolved = refl
resolve_at id state revision_proposed = refl
resolve_at id state proposal_rejected = refl
resolve_at id state revision_in_progress = refl
resolve_at id state awaiting_rerun = refl
resolve_at id state awaiting_review = refl
resolve_at id state resolved = refl

map-resolve :
    (feedback : List HumanFeedback)
    → map resolve feedback
      ≡ map (λ (f : HumanFeedback). record f { status = status_after f.status }) feedback
map-resolve [] = refl
map-resolve (f ∷ fs) =
    let here = resolve_at f.feedback_id f.submitted_state f.status in
    ap (λ g. g ∷ map resolve fs) here
    ∙ ap (λ gs. record f { status = status_after f.status } ∷ gs) (map-resolve fs)

accept_none : (s : CfdState) → accept s [] ≡ ok (accepted_state s)
unfolding accept transition
accept_none s =
    ap
      (λ feedback. ok (
        transition complete result_accepted
          (record s { human_feedback = feedback; active_revision_proposal = none })))
      (map-resolve s.human_feedback)

-- Acceptance returns a state exactly if there is acceptable evidence in RESULT_REVIEW_REQUIRED. The
-- state is then COMPLETE with this transition in its history and no active proposal; a feedback
-- that was unresolved, under a proposed revision or awaiting review is resolved, any other keeps
-- its status (so one awaiting a rerun or with its revision in progress stays so), and nothing else
-- has changed.
pub accept_result-ok :
    (s t : CfdState)
    → (accept_result s ≡ ok t) ↔ (
        ((result : SimulationResult) × (s.current_state ≡ result_review_required)
          × (s.simulation ≡ some result)
          × IsAcceptable result)
        × (t ≡ accepted_state s))
unfolding accept_result
accept_result-ok s t = (
  λ h. returned (result_acceptance_blockers s) refl h,
  λ (evidence, same). rw ((result_acceptance_blockers_iff s).1 evidence, same) (accept_none s),
)
  where
    returned :
        (bs : List Blocker)
        → result_acceptance_blockers s ≡ bs
        → accept s bs ≡ ok t
        → ((result : SimulationResult) × (s.current_state ≡ result_review_required)
            × (s.simulation ≡ some result)
            × IsAcceptable result)
          × (t ≡ accepted_state s)
    returned [] e a = ((result_acceptance_blockers_iff s).0 e, ok_injective (sym a ∙ accept_none s))
    returned (b ∷ bs) e a = absurd (cc)
