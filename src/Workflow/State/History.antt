-- ===== src/Workflow/State/History.antt =====
-- The history of a `CfdState` is a chain of transitions that ends in the current state.
use open_foam_agent.Prelude.{
  Str, Bool, true, false, List, [], ◌∷◌, ◌++◌, ◌≡◌, refl, Result, ok, err, Option, none, some, sym,
  ◌∙◌, if◌then◌else◌, contains, ◌==◌,
}
use open_foam_agent.Workflow.State.{
  State, Note, Transition, CfdState, StateError, transition, confirm_intake, approve_solve,
  reject_revision, accept_result, mark_feedback_awaiting_review, ResourceLimits, state_eq,
  CfdIntakeSpec, IntakeStatus, needs_user_input, ready_for_review, PlanDocuments, CaseSeal,
  RevisionProposal, Blocker, no_intake, no_active_proposal, revision_ready, confirm, approve,
  reject, accept, solve_approval_states, result_acceptance_blockers,
}

-- Each transition starts where the one before it ended.
abbrev pub IsChain : State → List Transition → State → Type 0
IsChain a [] c = a ≡ c
IsChain a (t ∷ ts) c = (t.source ≡ a) × IsChain t.target ts c

abbrev pub IsTraced : State → CfdState → Type 0
IsTraced a s = IsChain a s.history s.current_state

IsChain-snoc :
    (a c : State) (ts : List Transition) (t : Transition)
    → IsChain a ts c
    → t.source ≡ c
    → IsChain a (ts ++ t ∷ []) t.target
IsChain-snoc a c [] t h e = (e ∙ sym h, refl)
IsChain-snoc a c (u ∷ ts) t h e = (h.0, IsChain-snoc u.target c ts t h.1 e)

pub transition-IsTraced :
    (a target : State) (note : Note) (s : CfdState)
    → IsTraced a s
    → IsTraced a (transition target note s)
unfolding transition
transition-IsTraced a target note s h = IsChain-snoc a s.current_state s.history _ h refl

-- What an operation that may raise keeps where it returns.
abbrev pub TracedIfOk : State → Result StateError CfdState → Type 0
TracedIfOk a (ok s) = IsTraced a s
TracedIfOk a (err e) = Unit

traced_if :
    (a : State) (b : Bool) (x y : Result StateError CfdState)
    → TracedIfOk a x
    → TracedIfOk a y
    → TracedIfOk a (if b then x else y)
traced_if a true x y hx hy = hx
traced_if a false x y hx hy = hy

confirm_intake-IsTraced :
    (sha256 : Str → Str) (a : State) (s : CfdState)
    → IsTraced a s
    → TracedIfOk a (confirm_intake sha256 s)
unfolding confirm_intake
confirm_intake-IsTraced sha256 a s h =
    elim s.intake
      as (λ i.
        TracedIfOk a
          (elim i [ none ↦ err no_intake | some intake ↦ confirm sha256 s intake intake.status ])) [
            | none ↦ tt
            | some intake ↦ at_status intake intake.status
          ]
  where
    at_status :
        (intake : CfdIntakeSpec) (status : IntakeStatus)
        → TracedIfOk a (confirm sha256 s intake status)
    at_status intake needs_user_input = tt
    at_status intake ready_for_review = h

approve_solve-IsTraced :
    (sha256 : Str → Str) (limits : Option ResourceLimits) (a : State) (s : CfdState)
    → IsTraced a s
    → TracedIfOk a (approve_solve sha256 limits s)
unfolding approve_solve
approve_solve-IsTraced sha256 limits a s h =
    traced_if a (contains solve_approval_states s.current_state) _ _
      (at_parts s.engineering_plan s.case_seal) tt
  where
    at_parts :
        (plan : Option PlanDocuments) (seal : Option CaseSeal)
        → TracedIfOk a (approve sha256 s limits plan seal)
    at_parts (some plan) (some seal) = IsChain-snoc a s.current_state s.history _ h refl
    at_parts (some plan) none = tt
    at_parts none (some seal) = tt
    at_parts none none = tt

reject_revision-IsTraced :
    (a : State) (s : CfdState) → IsTraced a s → TracedIfOk a (reject_revision s)
unfolding reject_revision
reject_revision-IsTraced a s h =
    traced_if a (s.current_state == revision_ready) _ _ (at_proposal s.active_revision_proposal) tt
  where
    at_proposal :
        (proposal : Option RevisionProposal)
        → TracedIfOk a (elim proposal [ none ↦ err no_active_proposal | some p ↦ ok (reject s p) ])
    at_proposal none = tt
    at_proposal (some p) = IsChain-snoc a s.current_state s.history _ h refl

accept_result-IsTraced : (a : State) (s : CfdState) → IsTraced a s → TracedIfOk a (accept_result s)
unfolding accept_result
accept_result-IsTraced a s h = at_blockers (result_acceptance_blockers s)
  where
    at_blockers : (bs : List Blocker) → TracedIfOk a (accept s bs)
    at_blockers [] = IsChain-snoc a s.current_state s.history _ h refl
    at_blockers (b ∷ bs) = tt

-- From a state whose history is a chain from a first state to the current one, each operation
-- that returns gives such a state.
pub operations-IsTraced :
    (sha256 : Str → Str) (limits : Option ResourceLimits) (a : State) (s : CfdState)
    → IsTraced a s
    → TracedIfOk a (confirm_intake sha256 s)
      × TracedIfOk a (approve_solve sha256 limits s)
      × TracedIfOk a (reject_revision s)
      × TracedIfOk a (accept_result s)
      × IsTraced a (mark_feedback_awaiting_review s)
unfolding mark_feedback_awaiting_review
operations-IsTraced sha256 limits a s h = (
  confirm_intake-IsTraced sha256 a s h,
  approve_solve-IsTraced sha256 limits a s h,
  reject_revision-IsTraced a s h,
  accept_result-IsTraced a s h,
  h,
)
