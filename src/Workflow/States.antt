-- ===== src/Workflow/States.antt =====
-- workflow/states.py.
use open_foam_agent.Prelude.{ℕ, Str, codes, List, [], ◌∷◌, Eq, listed_eq, nth, ◌≡◌, refl}

pub data State : Type 0 where
  init intake_analysis intake_review_required needs_clarification engineering : State
  case_preview_ready mesh_ready pre_solve_validation solve_ready : State
  engineering_review_required engineering_blocked simulation runtime_repair : State
  postprocessing execution_done result_review_required feedback_received : State
  revision_ready complete done failed : State

abbrev pub state_index : State → ℕ
state_index init = 0
state_index intake_analysis = 1
state_index intake_review_required = 2
state_index needs_clarification = 3
state_index engineering = 4
state_index case_preview_ready = 5
state_index mesh_ready = 6
state_index pre_solve_validation = 7
state_index solve_ready = 8
state_index engineering_review_required = 9
state_index engineering_blocked = 10
state_index simulation = 11
state_index runtime_repair = 12
state_index postprocessing = 13
state_index execution_done = 14
state_index result_review_required = 15
state_index feedback_received = 16
state_index revision_ready = 17
state_index complete = 18
state_index done = 19
state_index failed = 20

abbrev pub states : List State
states =
    init ∷ intake_analysis ∷ intake_review_required ∷ needs_clarification ∷ engineering
    ∷ case_preview_ready ∷ mesh_ready ∷ pre_solve_validation ∷ solve_ready
    ∷ engineering_review_required ∷ engineering_blocked ∷ simulation ∷ runtime_repair
    ∷ postprocessing ∷ execution_done ∷ result_review_required ∷ feedback_received ∷ revision_ready
    ∷ complete ∷ done ∷ failed ∷ []

pub state_listed : (a : State) → nth states (state_index a) failed ≡ a
state_listed init = refl
state_listed intake_analysis = refl
state_listed intake_review_required = refl
state_listed needs_clarification = refl
state_listed engineering = refl
state_listed case_preview_ready = refl
state_listed mesh_ready = refl
state_listed pre_solve_validation = refl
state_listed solve_ready = refl
state_listed engineering_review_required = refl
state_listed engineering_blocked = refl
state_listed simulation = refl
state_listed runtime_repair = refl
state_listed postprocessing = refl
state_listed execution_done = refl
state_listed result_review_required = refl
state_listed feedback_received = refl
state_listed revision_ready = refl
state_listed complete = refl
state_listed done = refl
state_listed failed = refl

instance abbrev pub state_eq : Eq State
state_eq = listed_eq states failed state_index state_listed

-- The text of a state, as feedback records it.
unfoldable pub state_value : State → Str
state_value init = codes "INIT"
state_value intake_analysis = codes "INTAKE_ANALYSIS"
state_value intake_review_required = codes "INTAKE_REVIEW_REQUIRED"
state_value needs_clarification = codes "NEEDS_CLARIFICATION"
state_value engineering = codes "ENGINEERING"
state_value case_preview_ready = codes "CASE_PREVIEW_READY"
state_value mesh_ready = codes "MESH_READY"
state_value pre_solve_validation = codes "PRE_SOLVE_VALIDATION"
state_value solve_ready = codes "SOLVE_READY"
state_value engineering_review_required = codes "ENGINEERING_REVIEW_REQUIRED"
state_value engineering_blocked = codes "ENGINEERING_BLOCKED"
state_value simulation = codes "SIMULATION"
state_value runtime_repair = codes "RUNTIME_REPAIR"
state_value postprocessing = codes "POSTPROCESSING"
state_value execution_done = codes "EXECUTION_DONE"
state_value result_review_required = codes "RESULT_REVIEW_REQUIRED"
state_value feedback_received = codes "FEEDBACK_RECEIVED"
state_value revision_ready = codes "REVISION_READY"
state_value complete = codes "COMPLETE"
state_value done = codes "DONE"
state_value failed = codes "FAILED"

abbrev pub solve_approval_states : List State
solve_approval_states = mesh_ready ∷ solve_ready ∷ []
