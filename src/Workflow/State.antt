-- ===== src/Workflow/State.antt =====
-- The operations of `CfdState` in workflow/state.py, and `check_plan` of the `ExecutionApproval`
-- that it holds. The record holds the fields that these operations and the engine read or write; a
-- document that is only hashed is its JSON text, and `sha256` (of Python's hashlib) is an argument.
pub mod History
pub mod Approval
pub mod Acceptance
use open_foam_agent.Prelude.{
  ℕ, ◌+◌, Str, codes, Bool, true, false, not, ◌&&◌, ◌||◌, Option, none, some, List, [], ◌∷◌, ◌++◌,
  map, ◌==◌, nat_eq, list_eq, list_beq, option_eq, option_beq, Eq, listed_eq, nth, ◌≡◌, refl,
  Result, ok, err, contains, any, filter, if◌then◌else◌, raise_if, ◌>>=◌, ◌>>◌,
}
pub use open_foam_agent.Workflow.States.{
  State, init, intake_analysis, intake_review_required, needs_clarification, engineering,
  case_preview_ready, mesh_ready, pre_solve_validation, solve_ready, engineering_review_required,
  engineering_blocked, simulation, runtime_repair, postprocessing, execution_done,
  result_review_required, feedback_received, revision_ready, complete, done, failed, states,
  state_index, state_listed, state_eq, solve_approval_states,
}
unfoldable pub use open_foam_agent.Workflow.States.{state_value}
pub use open_foam_agent.Workflow.Approvals.{
  BoundEntry, NumericRelation, FactBinding, PlanDocuments, CaseSeal, ResourceLimits, default_limits,
  ExecutionApproval,
}
unfoldable pub use open_foam_agent.Workflow.Approvals.{issue}

-- The notes of the transitions that this model makes.
pub data Note : Type 0 where
  workflow_started postprocessing_skipped repair_escaped : Note
  revision_rejected : Str → Note
  result_accepted solve_approved : Note
  no_handler : State → Note
  max_steps_exceeded : Note
  step_raised transport_failed : Str → Note
  other : Str → Note

pub record Transition : Type 0 where
  pub source : State
  pub target : State
  pub note : Note

pub data IntakeStatus : Type 0 where
  needs_user_input ready_for_review : IntakeStatus

pub record CfdIntakeSpec : Type 0 where
  pub status : IntakeStatus
  pub document : Str

pub data FeedbackStatus : Type 0 where
  unresolved revision_proposed proposal_rejected revision_in_progress : FeedbackStatus
  awaiting_rerun awaiting_review resolved : FeedbackStatus

abbrev pub feedback_status_index : FeedbackStatus → ℕ
feedback_status_index unresolved = 0
feedback_status_index revision_proposed = 1
feedback_status_index proposal_rejected = 2
feedback_status_index revision_in_progress = 3
feedback_status_index awaiting_rerun = 4
feedback_status_index awaiting_review = 5
feedback_status_index resolved = 6

abbrev pub feedback_statuses : List FeedbackStatus
feedback_statuses =
    unresolved ∷ revision_proposed ∷ proposal_rejected ∷ revision_in_progress ∷ awaiting_rerun
    ∷ awaiting_review ∷ resolved ∷ []

pub feedback_status_listed :
    (a : FeedbackStatus) → nth feedback_statuses (feedback_status_index a) resolved ≡ a
feedback_status_listed unresolved = refl
feedback_status_listed revision_proposed = refl
feedback_status_listed proposal_rejected = refl
feedback_status_listed revision_in_progress = refl
feedback_status_listed awaiting_rerun = refl
feedback_status_listed awaiting_review = refl
feedback_status_listed resolved = refl

instance abbrev pub feedback_status_eq : Eq FeedbackStatus
feedback_status_eq =
    listed_eq feedback_statuses resolved feedback_status_index feedback_status_listed

pub record HumanFeedback : Type 0 where
  pub feedback_id : Str
  pub submitted_state : Str
  pub status : FeedbackStatus

pub record RevisionProposal : Type 0 where
  pub proposal_id : Str
  pub feedback_ids : List Str

-- Python's `int`: `pos n` is n, `negsuc n` is -(n + 1).
pub data ℤ : Type 0 where
  pos negsuc : ℕ → ℤ

pub record SimulationResult : Type 0 where
  pub success : Bool
  pub completed : Bool
  pub termination_verified : Bool
  pub return_code : ℤ
  pub process_success : Bool
  pub outputs_verified : Option Bool

-- What a recovered exception leaves in the state.
pub record FailureRecord : Type 0 where
  pub stage : State
  pub type_name : Str
  pub message : Str

pub record CfdState : Type 0 where
  pub intake : Option CfdIntakeSpec
  pub intake_confirmed : Bool
  pub intake_digest : Option Str
  pub engineering_plan : Option PlanDocuments
  pub case_seal : Option CaseSeal
  pub solve_approved : Bool
  pub execution_approval : Option ExecutionApproval
  pub simulation : Option SimulationResult
  pub runtime_report_success : Option Bool
  pub human_feedback : List HumanFeedback
  pub active_revision_proposal : Option RevisionProposal
  pub primary_failure : Option Str
  pub secondary_failures : List FailureRecord
  pub current_state : State
  pub history : List Transition

-- Why a result cannot be accepted.
pub data Blocker : Type 0 where
  not_in_review no_result not_terminated not_clean not_verified not_eligible : Blocker

-- The `ValueError`s of the operations.
pub data StateError : Type 0 where
  no_intake intake_blocked no_confirmed_intake intake_changed no_active_proposal : StateError
  not_acceptable : List Blocker → StateError
  not_ready_to_solve no_plan_or_seal : StateError
  inconsistent_approval execution_changed physical_plan_changed approved_intake_changed : StateError

unfoldable pub transition : State → Note → CfdState → CfdState
transition target note s = record s {
  history = s.history ++ record { source = s.current_state; target = target; note = note } ∷ [];
  current_state = target;
}

module _ (sha256 : Str → Str) where
  confirm : CfdState → CfdIntakeSpec → IntakeStatus → Result StateError CfdState
  confirm s intake needs_user_input = err intake_blocked
  confirm s intake ready_for_review =
      ok (record s { intake_confirmed = true; intake_digest = some (sha256 intake.document) })

  unfoldable pub confirm_intake : CfdState → Result StateError CfdState
  unfolding confirm
  confirm_intake s = elim s.intake [
    | none ↦ err no_intake
    | some intake ↦ confirm s intake intake.status
  ]

  pub check_digest : Option CfdIntakeSpec → Option Str → Result StateError (Unit {0})
  check_digest (some intake) (some (c ∷ digest)) =
      if sha256 intake.document == (c ∷ digest) then ok tt else err intake_changed
  check_digest _ _ = err no_confirmed_intake

  unfoldable pub assert_confirmed_intake : CfdState → Result StateError (Unit {0})
  unfolding check_digest
  assert_confirmed_intake s =
      if s.intake_confirmed then check_digest s.intake s.intake_digest else err no_confirmed_intake

  -- `ExecutionApproval.check_plan`
  unfoldable pub check_plan : ExecutionApproval → PlanDocuments → Result StateError (Unit {0})
  check_plan approval plan = do
    raise_if (not (sha256 approval.execution == approval.execution_sha256)) inconsistent_approval
    raise_if (not (sha256 plan.execution_document == approval.execution_sha256)) execution_changed
    raise_if (not (sha256 plan.physical_plan_document == approval.physical_plan_sha256))
        physical_plan_changed
    raise_if (not (plan.confirmed_intake_sha256 == approval.intake_sha256)) approved_intake_changed
    ok tt

  approve :
      CfdState
      → Option ResourceLimits
      → Option PlanDocuments
      → Option CaseSeal
      → Result StateError CfdState
  unfolding issue transition
  approve s limits (some plan) (some seal) = ok (
      transition simulation solve_approved (record s {
        execution_approval = some (issue sha256 plan seal limits);
        solve_approved = true;
      }))
  approve s limits _ _ = err no_plan_or_seal

  unfoldable pub approve_solve : Option ResourceLimits → CfdState → Result StateError CfdState
  unfolding approve contains
  approve_solve limits s =
      if contains solve_approval_states s.current_state
      then approve s limits s.engineering_plan s.case_seal
      else err not_ready_to_solve

-- A feedback is linked to a proposal that names it.
abbrev pub is_linked : List Str → HumanFeedback → Bool
is_linked ids feedback = contains ids feedback.feedback_id

abbrev set_status : FeedbackStatus → HumanFeedback → HumanFeedback
set_status status feedback = record feedback { status = status }

-- `any(item.submitted_state == value for item in linked)`
abbrev submitted_in : State → List HumanFeedback → Bool
submitted_in state linked =
    any (λ (item : HumanFeedback). item.submitted_state == state_value state) linked

unfoldable pub rejection_target : List HumanFeedback → State
unfolding any list_beq state_value
rejection_target linked =
    if submitted_in result_review_required linked
    then result_review_required
    else if submitted_in solve_ready linked
    then solve_ready
    else mesh_ready

reject : CfdState → RevisionProposal → CfdState
unfolding transition filter contains list_beq rejection_target
reject s proposal =
    let linked = filter (is_linked proposal.feedback_ids) s.human_feedback in
    transition (rejection_target linked) (revision_rejected proposal.proposal_id) (record s {
      human_feedback =
          map
            (λ feedback.
              if is_linked proposal.feedback_ids feedback
              then set_status proposal_rejected feedback
              else feedback)
            s.human_feedback;
      active_revision_proposal = none;
    })

unfoldable pub reject_revision : CfdState → Result StateError CfdState
unfolding reject
reject_revision s =
    if s.current_state == revision_ready
    then elim s.active_revision_proposal [
      | none ↦ err no_active_proposal
      | some proposal ↦ ok (reject s proposal)
    ]
    else err no_active_proposal

abbrev is_true : Option Bool → Bool
is_true (some true) = true
is_true (some false) = false
is_true none = false

-- `value != 0`
abbrev pub is_nonzero : ℤ → Bool
is_nonzero (pos n) = not (n == 0)
is_nonzero (negsuc n) = true

abbrev blocker_if : Bool → Blocker → List Blocker
blocker_if true b = b ∷ []
blocker_if false b = []

-- The last test: only where nothing else blocks.
eligibility : SimulationResult → List Blocker → List Blocker
eligibility result [] = blocker_if (not result.success) not_eligible
eligibility result (b ∷ bs) = b ∷ bs

result_blockers : Option SimulationResult → List Blocker
unfolding eligibility
result_blockers none = no_result ∷ []
result_blockers (some result) = eligibility result (
    blocker_if (not result.completed || not result.termination_verified) not_terminated
    ++ (blocker_if (is_nonzero result.return_code || not result.process_success) not_clean
        ++ blocker_if (not (is_true result.outputs_verified)) not_verified))

unfoldable pub result_acceptance_blockers : CfdState → List Blocker
unfolding result_blockers
result_acceptance_blockers s =
    if s.current_state == result_review_required
    then result_blockers s.simulation
    else not_in_review ∷ []

abbrev pub open_statuses : List FeedbackStatus
open_statuses = awaiting_review ∷ revision_proposed ∷ unresolved ∷ []

abbrev pub resolve : HumanFeedback → HumanFeedback
resolve feedback =
    if contains open_statuses feedback.status then set_status resolved feedback else feedback

accept : CfdState → List Blocker → Result StateError CfdState
unfolding transition contains
accept s [] = ok (
    transition complete result_accepted
      (record s { human_feedback = map resolve s.human_feedback; active_revision_proposal = none }))
accept s (b ∷ bs) = err (not_acceptable (b ∷ bs))

unfoldable pub accept_result : CfdState → Result StateError CfdState
unfolding accept result_acceptance_blockers
accept_result s = accept s (result_acceptance_blockers s)

unfoldable pub mark_feedback_awaiting_review : CfdState → CfdState
mark_feedback_awaiting_review s = record s {
  human_feedback =
      map
        (λ (feedback : HumanFeedback).
          if feedback.status == awaiting_rerun
          then set_status awaiting_review feedback
          else feedback)
        s.human_feedback;
}
