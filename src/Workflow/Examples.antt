-- ===== src/Workflow/Examples.antt =====
-- A state through its review, an approval, a run of the engine and a repair episode.
use open_foam_agent.Prelude.{
  ℕ, Str, codes, true, false, none, some, List, [], ◌∷◌, ◌≡◌, ◌≢◌, ◌↔◌, refl, ok,
}
use open_foam_agent.Workflow.State.{
  Note, init, mesh_ready, simulation, result_review_required, complete, failed, needs_clarification,
  engineering, CfdState, CfdIntakeSpec, ready_for_review, PlanDocuments, CaseSeal, FactBinding, pos,
  awaiting_rerun, HumanFeedback, awaiting_review, SimulationResult, transition, confirm_intake,
  assert_confirmed_intake, issue, approve_solve, reject_revision, accept_result,
  result_acceptance_blockers, mark_feedback_awaiting_review, max_steps_exceeded, workflow_started,
  intake_analysis, resolved, result_accepted, solve_approved,
}
use open_foam_agent.Workflow.State.History.{
  IsTraced, TracedIfOk, operations-IsTraced, transition-IsTraced,
}
use open_foam_agent.Workflow.State.Acceptance.{
  IsAcceptable, accepted_state, result_acceptance_blockers_iff, accept_result-ok,
}
use open_foam_agent.Workflow.State.Approval.{
  Approves, approve_solve-Approves, assert-confirm_intake,
}
use open_foam_agent.Workflow.Engine.{Exception, returned, Handlers, is_terminal, run, step}
use open_foam_agent.Workflow.Engine.Totality.{run-is_terminal}
use open_foam_agent.Workflow.Engine.Limit.{Steps, rest, more, run-limit}
use open_foam_agent.Workflow.Engine.Traced.{TracesAll, run-IsTraced}
use open_foam_agent.Workflow.Episode.{RepairEpisode, EngineeringEvent, EpisodeState}
use open_foam_agent.Workflow.Episode.Bounded.{
  EpisodeAction, fail, support, repair, act_all, IsBounded, act_all-IsBounded,
}

-- A digest that is never empty.
abbrev digest : Str → Str
digest text = 35 ∷ text

abbrev intake : CfdIntakeSpec
intake = record { status = ready_for_review; document = codes "pipe flow" }

abbrev fresh : CfdState
fresh = record {
  intake = some intake;
  intake_confirmed = false;
  intake_digest = none;
  engineering_plan = none;
  case_seal = none;
  solve_approved = false;
  execution_approval = none;
  simulation = none;
  runtime_report_success = none;
  human_feedback = [];
  active_revision_proposal = none;
  primary_failure = none;
  secondary_failures = [];
  current_state = init;
  history = [];
}

abbrev confirmed : CfdState
confirmed = record fresh { intake_confirmed = true; intake_digest = some (digest intake.document) }

confirmed_test : confirm_intake digest fresh ≡ ok confirmed
unfolding confirm_intake
confirmed_test = refl

abbrev other_intake : CfdIntakeSpec
other_intake = record { status = ready_for_review; document = codes "channel flow" }

digest_test : digest other_intake.document ≢ []
digest_test e = cc

assert-confirm_intake_example :
    (old : CfdIntakeSpec) × (fresh.intake ≡ some old)
    × ((assert_confirmed_intake digest (record confirmed { intake = some other_intake }) ≡ ok tt)
        ↔ (digest other_intake.document ≡ digest old.document))
assert-confirm_intake_example =
    assert-confirm_intake digest fresh confirmed other_intake confirmed_test digest_test

-- One entry of a file, one whole file, and a relation of another entry of the first file.
abbrev inlet_binding : FactBinding
inlet_binding = record {
  case_assertions =
      record { path = codes "0/U"; entry_path = some (codes "inlet") }
      ∷ record { path = codes "constant/g"; entry_path = none }
      ∷ [];
  numeric_relation = some (record {
    numerator = record { path = codes "0/U"; entry_path = some (codes "dimensions") } ∷ [];
    denominator = [];
  });
}

abbrev plan : PlanDocuments
plan = record {
  execution_document = codes "foamRun";
  physical_plan_document = codes "water";
  confirmed_intake_sha256 = digest intake.document;
  confirmed_fact_bindings = inlet_binding ∷ [];
}

abbrev changed : PlanDocuments
changed = record plan { execution_document = codes "rhoFoam" }

abbrev seal : CaseSeal
seal = record {
  manifest_sha256 = codes "m";
  files = (codes "0/U", codes "u") ∷ (codes "constant/g", codes "g") ∷ [];
}

abbrev meshed : CfdState
meshed = record confirmed {
  engineering_plan = some plan;
  case_seal = some seal;
  current_state = mesh_ready;
}

abbrev approved : CfdState
approved = record meshed {
  execution_approval = some (issue digest plan seal none);
  solve_approved = true;
  current_state = simulation;
  history = record { source = mesh_ready; target = simulation; note = solve_approved } ∷ [];
}

approved_test : approve_solve digest none meshed ≡ ok approved
unfolding approve_solve
approved_test = refl

-- What the approval protects, sorted.
protected_test :
    ((issue digest plan seal none).protected_repair_entries
      ≡ (codes "0/U", codes "dimensions" ∷ codes "inlet" ∷ []) ∷ [])
    × ((issue digest plan seal none).protected_repair_files ≡ codes "constant/g" ∷ [])
unfolding issue
protected_test = (refl, refl)

approve_solve-Approves_example : Approves digest meshed none (ok approved)
unfolding approve_solve
approve_solve-Approves_example = approve_solve-Approves digest none meshed

operations-IsTraced_example :
    TracedIfOk init (confirm_intake digest fresh)
    × TracedIfOk init (approve_solve digest none fresh)
    × TracedIfOk init (reject_revision fresh)
    × TracedIfOk init (accept_result fresh)
    × IsTraced init (mark_feedback_awaiting_review fresh)
operations-IsTraced_example = operations-IsTraced digest none init fresh refl

abbrev good : SimulationResult
good = record {
  success = true;
  completed = true;
  termination_verified = true;
  return_code = pos 0;
  process_success = true;
  outputs_verified = some true;
}

abbrev remark : HumanFeedback
remark = record {
  feedback_id = codes "f1";
  submitted_state = codes "MESH_READY";
  status = awaiting_review;
}

-- A feedback that acceptance leaves as it is.
abbrev waiting : HumanFeedback
waiting = record {
  feedback_id = codes "f2";
  submitted_state = codes "SOLVE_READY";
  status = awaiting_rerun;
}

abbrev reviewed : CfdState
reviewed = record fresh {
  simulation = some good;
  human_feedback = remark ∷ waiting ∷ [];
  current_state = result_review_required;
}

abbrev accepted : CfdState
accepted = record reviewed {
  human_feedback = record remark { status = resolved } ∷ waiting ∷ [];
  current_state = complete;
  history =
      record { source = result_review_required; target = complete; note = result_accepted } ∷ [];
}

accepted_test : accept_result reviewed ≡ ok accepted
unfolding accept_result
accepted_test = refl

accept_result-ok_example : (accept_result reviewed ≡ ok accepted) ↔ (
    ((result : SimulationResult) × (reviewed.current_state ≡ result_review_required)
      × (reviewed.simulation ≡ some result)
      × IsAcceptable result)
    × (accepted ≡ accepted_state reviewed))
accept_result-ok_example = accept_result-ok reviewed accepted

result_acceptance_blockers_iff_example : (result_acceptance_blockers reviewed ≡ []) ↔ (
    (result : SimulationResult) × (reviewed.current_state ≡ result_review_required)
    × (reviewed.simulation ≡ some result)
    × IsAcceptable result)
result_acceptance_blockers_iff_example = result_acceptance_blockers_iff reviewed

-- Handlers that change nothing, but for an intake that asks for a clarification.
abbrev handlers : Handlers
handlers = record {
  bind_checkpoint = returned;
  checkpoint_start = returned;
  checkpoint_finish = returned;
  intake_run = λ s. returned (transition needs_clarification (Note.other []) s);
  engineering_prepare = returned;
  runtime_run = returned;
  postprocess_run = returned;
  postprocessing_enabled = false;
}

run-is_terminal_example : is_terminal (run handlers 12 fresh).current_state ≡ true
run-is_terminal_example = run-is_terminal handlers 12 fresh

handlers_laws : TracesAll init handlers
unfolding transition
handlers_laws = record {
  bind = λ s t. t;
  start = λ s t. t;
  finish = λ s t. t;
  intake = λ s t. transition-IsTraced init needs_clarification (Note.other []) s t;
  prepare = λ s t. t;
  runtime = λ s t. t;
  postprocess = λ s t. t;
}

run-IsTraced_example : IsTraced init (run handlers 12 fresh)
run-IsTraced_example = run-IsTraced init handlers handlers_laws 12 fresh refl

abbrev started : CfdState
started = transition intake_analysis workflow_started fresh

abbrev asked : CfdState
asked = transition needs_clarification (Note.other []) started

two-Steps : Steps handlers 2 fresh asked
unfolding is_terminal step transition
two-Steps = more refl refl (more refl refl rest)

asked_test : is_terminal asked.current_state ≡ true
unfolding is_terminal transition
asked_test = refl

run-limit_example :
    (run handlers 2 fresh ≡ transition failed max_steps_exceeded asked)
    × (run handlers 3 fresh ≡ asked)
run-limit_example = run-limit handlers 2 fresh asked two-Steps asked_test

abbrev failing : CfdState
failing = record fresh { primary_failure = some (codes "checkMesh"); current_state = engineering }

abbrev timeout : Exception
timeout = record {
  type_name = codes "TimeoutError";
  message = codes "late";
  transport_parse = false;
}

-- Events whose content is a text, compacted to their content.
abbrev event : Str → Str → EngineeringEvent Str
event action content = record { action_type = action; success = true; content = content }

abbrev compact : EngineeringEvent Str → ℕ → ℕ → Str
compact e excerpt summary = e.content

abbrev same : Str → Str
same text = text

abbrev episode : RepairEpisode Str
episode = record {
  episode_number = 1;
  root_failure = codes "nan";
  current_failure = codes "nan";
  current_implicated_files = [];
  previous_repairs = [];
  supporting_observations = [];
  validation_generation = 1;
}

abbrev repairing : EpisodeState Str
repairing = record { repair_episode = some episode; secondary_count = 0; event_count = 0 }

abbrev quiet_actions : List (EpisodeAction Str)
quiet_actions =
    support (event (codes "read_reference") (codes "manual")) ∷ repair (codes "dt") [] ∷ []

abbrev actions : List (EpisodeAction Str)
actions =
    fail (event (codes "run_native_tool") (codes "diverged")) (codes "0/U" ∷ []) ∷ quiet_actions

abbrev no_episode : EpisodeState Str
no_episode = record { repair_episode = none; secondary_count = 0; event_count = 3 }

no_episode_test : IsBounded no_episode.repair_episode
unfolding IsBounded
no_episode_test = tt

act_all-IsBounded_example : IsBounded (act_all compact same same actions no_episode).repair_episode
act_all-IsBounded_example = act_all-IsBounded compact same same actions no_episode no_episode_test
