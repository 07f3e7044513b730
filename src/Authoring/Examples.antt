-- ===== src/Authoring/Examples.antt =====
-- Two files, three facts, two tasks, and the queue that they make.
use open_foam_agent.Prelude.{
  Str, codes, Bool, true, false, none, some, List, [], ◌∷◌, nat_eq, list_eq, list_beq, ◌≡◌, refl,
  arith, ltb, length, distinct, Result, ok, err, contains, take,
}
use open_foam_agent.Authoring.Facts.{Fact, Binding, fact_closure, task_facts}
use open_foam_agent.Authoring.Facts.Closed.{Closure, fact_closure_lem}
use open_foam_agent.Authoring.Tasks.{
  TaskError, Budget, Task, capsule_exceeded, projection_raised, assigned, compile_tasks,
}
use open_foam_agent.Authoring.Tasks.Partition.{IsNumbered, compile_tasks-partition}
use open_foam_agent.Authoring.Queue.{QueuedTask, Response, Queue, accept_task}
use open_foam_agent.Authoring.Queue.Assembled.{IsCovered, Covers, accept_task-Covers}

abbrev fact : Str → List Str → Fact
fact id depends_on = record { id = id; depends_on = depends_on }

abbrev facts : List Fact
facts =
    fact (codes "inlet") (codes "fluid" ∷ [])
    ∷ fact (codes "fluid") []
    ∷ fact (codes "wall") []
    ∷ []

abbrev bindings : List Binding
bindings =
    record {
      fact_id = codes "inlet";
      case_files = codes "0/U" ∷ [];
      case_assertions = [];
      numerator = [];
      denominator = [];
    }
    ∷ record {
      fact_id = codes "wall";
      case_files = codes "0/p" ∷ [];
      case_assertions = [];
      numerator = [];
      denominator = [];
    }
    ∷ []

-- The inlet brings the fluid that it depends on; the wall belongs to another file.
task_facts_test :
    task_facts facts [] bindings (codes "0/U" ∷ [])
    ≡ some (fact (codes "inlet") (codes "fluid" ∷ []) ∷ fact (codes "fluid") [] ∷ [], [])
unfolding task_facts
task_facts_test = refl

missing_test : fact_closure facts (codes "outlet" ∷ []) ≡ none
unfolding fact_closure
missing_test = refl

fact_closure_lem_example :
    Closure facts (codes "inlet" ∷ []) (fact_closure facts (codes "inlet" ∷ []))
fact_closure_lem_example = fact_closure_lem facts (codes "inlet" ∷ [])

-- One path fits, two do not; the facts of a projection are those of the closure, which raises for a
-- fact that is missing.
abbrev project : List Fact → Bool → List Str → Result TaskError (Unit {0})
project all_facts compact selected = elim (task_facts all_facts [] bindings selected) [
  | none ↦ err (projection_raised (codes "missing fact"))
  | some projected ↦ ok tt
]

abbrev budget : Budget
budget = record {
  project = project facts;
  fits_reserve = λ compact paths. ltb (length paths) 2;
  fits_cap = λ compact paths. ltb (length paths) 2;
}

abbrev paths : List Str
paths = codes "0/U" ∷ codes "0/p" ∷ []

abbrev tasks : List Task
tasks =
    record { paths = codes "0/U" ∷ []; index = 1; is_final = false; compact = false }
    ∷ record { paths = codes "0/p" ∷ []; index = 2; is_final = true; compact = false }
    ∷ []

compiled_test : compile_tasks budget (λ ts. true) 6000 paths ≡ ok tasks
unfolding compile_tasks task_facts
compiled_test = refl

compile_tasks-partition_example :
    (assigned budget tasks ≡ paths)
    × (distinct paths ≡ true)
    × IsNumbered budget 2 0 tasks
    × (true ≡ true)
compile_tasks-partition_example =
    compile_tasks-partition budget (λ ts. true) 6000 paths compiled_test

-- The inlet depends on a fluid that is not there.
abbrev broken : Budget
broken = record budget { project = project (fact (codes "inlet") (codes "fluid" ∷ []) ∷ []) }

abbrev tight : Budget
tight = record budget { fits_reserve = λ compact paths. false }

tight_test : compile_tasks tight (λ ts. true) 6000 paths ≡ err (capsule_exceeded (codes "0/U"))
unfolding compile_tasks task_facts
tight_test = refl

abbrev queued : List QueuedTask
queued =
    record { id = codes "t1"; paths = codes "0/U" ∷ []; is_final = false }
    ∷ record { id = codes "t2"; paths = codes "0/p" ∷ []; is_final = true }
    ∷ []

abbrev response : Str → Str → Bool → Response
response id path defer_native = record {
  task_id = id;
  files = (path, codes "text") ∷ [];
  typed_dictionaries = [];
  block_mesh = none;
  validate_dictionaries = [];
  surface_checks = [];
  defer_native = defer_native;
}

abbrev waiting : Queue
waiting = record {
  plan_sha256 = codes "sha";
  tasks = queued;
  cursor = 1;
  responses = response (codes "t1") (codes "0/U") true ∷ [];
}

accepted_test :
    (accept_task waiting (response (codes "t2") (codes "0/p") false) (codes "sha")).0
    ≡ ok (
        some (record {
          files = (codes "0/U", codes "text") ∷ (codes "0/p", codes "text") ∷ [];
          typed_dictionaries = [];
          block_mesh = none;
          validate_dictionaries = [];
          surface_checks = [];
        }))
unfolding accept_task
accepted_test = refl

waiting-IsCovered : IsCovered waiting
unfolding contains list_beq take
waiting-IsCovered = record { reached = omega arith; covered = λ p. refl }

accept_task-Covers_example :
    Covers waiting (accept_task waiting (response (codes "t2") (codes "0/p") false) (codes "sha"))
accept_task-Covers_example =
    accept_task-Covers waiting (response (codes "t2") (codes "0/p") false) (codes "sha")
      waiting-IsCovered
