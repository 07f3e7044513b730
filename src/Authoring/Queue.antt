-- ===== src/Authoring/Queue.antt =====
-- `accept_task` of engineering/authoring_tasks.py: the queue of authoring tasks and the assembly of
-- its responses. The digest of the plan and the validation of the assembled action are outside.
pub mod Assembled
use open_foam_agent.Prelude.{
  ℕ, zero, suc, ◌+◌, ◌<◌, Str, Bool, true, false, not, ◌&&◌, ◌||◌, Option, none, some, List, [],
  ◌∷◌, ◌++◌, map, ◌==◌, nat_eq, list_eq, list_beq, if◌then◌else◌, ltb, contains, distinct, dedupe,
  all, length, get_elem?, Result, ok, err, raise_if, ◌>>=◌, ◌>>◌,
}
use open_foam_agent.Authoring.Tasks.{
  TaskError, plan_changed, coverage_mismatch, native_before_final, duplicate_mesh, no_task,
}

-- A task as the queue keeps it.
pub record QueuedTask : Type 0 where
  pub id : Str
  pub paths : List Str
  pub is_final : Bool

-- What the queue reads of a response: a file or dictionary is its path with its content.
pub record Response : Type 0 where
  pub task_id : Str
  pub files : List (Str × Str)
  pub typed_dictionaries : List (Str × Str)
  pub block_mesh : Option (Str × Str)
  pub validate_dictionaries : List Str
  pub surface_checks : List Str
  pub defer_native : Bool

pub record Queue : Type 0 where
  pub plan_sha256 : Str
  pub tasks : List QueuedTask
  pub cursor : ℕ
  pub responses : List Response

-- The fields of the last response that the assembly replaces.
pub record Final : Type 0 where
  pub files : List (Str × Str)
  pub typed_dictionaries : List (Str × Str)
  pub block_mesh : Option (Str × Str)
  pub validate_dictionaries : List Str
  pub surface_checks : List Str

abbrev pub paths_of : List (Str × Str) → List Str
paths_of [] = []
paths_of (file ∷ files) = file.0 ∷ paths_of files

abbrev pub mesh_list : Option (Str × Str) → List (Str × Str)
mesh_list none = []
mesh_list (some mesh) = mesh ∷ []

abbrev pub response_paths : Response → List Str
response_paths r =
    paths_of r.files ++ (paths_of r.typed_dictionaries ++ paths_of (mesh_list r.block_mesh))

-- `set(a) == set(b)`
unfoldable pub same_set : List Str → List Str → Bool
unfolding all contains list_beq
same_set a b = all (contains b) a && all (contains a) b

-- `[item for response in responses for item in response[key]]`
abbrev pub gather {ℓ} : {A : Type ℓ} → (Response → List A) → List Response → List A
gather field [] = []
gather field (r ∷ rs) = field r ++ gather field rs

abbrev first_of : List (Str × Str) → Option (Str × Str)
first_of [] = none
first_of (mesh ∷ meshes) = some mesh

-- The assembly of all responses.
unfoldable pub assemble_responses : List Response → Result TaskError Final
unfolding dedupe list_beq
assemble_responses responses = do
  let meshes = gather (λ (r : Response). mesh_list r.block_mesh) responses
  raise_if (ltb 1 (length meshes)) duplicate_mesh
  ok (record {
    files = gather (λ (r : Response). r.files) responses;
    typed_dictionaries = gather (λ (r : Response). r.typed_dictionaries) responses;
    block_mesh = first_of meshes;
    validate_dictionaries = dedupe (gather (λ (r : Response). r.validate_dictionaries) responses);
    surface_checks = dedupe (gather (λ (r : Response). r.surface_checks) responses);
  })

abbrev same_bool : Bool → Bool → Bool
same_bool true b = b
same_bool false b = not b

-- The tests of a response against its task.
unfoldable pub check_response : QueuedTask → Response → Result TaskError (Unit {0})
unfolding same_set distinct list_beq
check_response task action = do
  raise_if
      (not (action.task_id == task.id)
        || (not (same_set (response_paths action) task.paths)
            || not (distinct (response_paths action))))
      coverage_mismatch
  raise_if (same_bool action.defer_native task.is_final) native_before_final

abbrev pub pushed : Queue → Response → Queue
pushed queue action = record queue {
  responses = queue.responses ++ action ∷ [];
  cursor = suc queue.cursor;
}

-- The state is kept by an error of the tests, and not by one of the assembly.
abbrev pub Accepted : Type 0
Accepted = Result TaskError (Option Final) × Queue

abbrev finished : Queue → Result TaskError Final → Accepted
finished queue (ok final) = (ok (some final), queue)
finished queue (err e) = (err e, queue)

abbrev pub advance : Queue → Accepted
advance queue =
    if ltb queue.cursor (length queue.tasks)
    then (ok none, queue)
    else finished queue (assemble_responses queue.responses)

abbrev checked : Queue → Response → Result TaskError (Unit {0}) → Accepted
checked queue action (err e) = (err e, queue)
checked queue action (ok done) = advance (pushed queue action)

abbrev with_task : Queue → Response → Option QueuedTask → Accepted
with_task queue action none = (err no_task, queue)
with_task queue action (some task) = checked queue action (check_response task action)

unfoldable pub accept_task : Queue → Response → Str → Accepted
unfolding check_response assemble_responses list_beq
accept_task queue action plan_digest =
    if queue.plan_sha256 == plan_digest
    then with_task queue action (get_elem? queue.tasks queue.cursor)
    else (err plan_changed, queue)
