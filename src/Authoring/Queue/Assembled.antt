-- ===== src/Authoring/Queue/Assembled.antt =====
-- The responses of a queue cover its tasks, so the assembled action covers the manifest.
use open_foam_agent.Prelude.{
  ok_injective, ℕ, zero, suc, ◌<◌, ◌≤◌, Str, Bool, true, false, not, ◌||◌, Option, none, some, List,
  [], ◌∷◌, ◌++◌, ◌==◌, nat_eq, list_eq, ◌≡◌, refl, sym, ap, ◌∙◌, arith, Bool-cases, inl, inr, ltb,
  contains, contains-append, all-contains, distinct, length, get_elem?, take, Result, ok, err,
  raise_if, raise_if-ok,
}
use open_foam_agent.Authoring.Tasks.{
  TaskError, coverage_mismatch, native_before_final, duplicate_mesh,
}
use open_foam_agent.Authoring.Queue.{
  QueuedTask, Response, Queue, Final, paths_of, mesh_list, response_paths, same_set, gather,
  first_of, assemble_responses, check_response, same_bool, pushed, Accepted, finished, advance,
  checked, with_task, accept_task,
}

abbrev pub task_paths : List QueuedTask → List Str
task_paths [] = []
task_paths (task ∷ tasks) = task.paths ++ task_paths tasks

same_set-contains : (a b : List Str) (p : Str) → same_set a b ≡ true → contains a p ≡ contains b p
unfolding same_set
same_set-contains a b p h = elim (Bool-cases (contains a p)) [
  | inl in_a ↦ in_a ∙ sym (all-contains (contains b) a p (ground arith) in_a)
  | inr not_a ↦ elim (Bool-cases (contains b p)) [
    | inr not_b ↦ not_a ∙ sym not_b
    | inl in_b ↦ absurd (cc (all-contains (contains a) b p (ground arith) in_b, not_a))
  ]
]

-- The responses so far cover the tasks so far.
pub record IsCovered (queue : Queue) : Type 0 where
  pub reached : queue.cursor ≤ length queue.tasks
  pub covered :
      (p : Str)
      → contains (gather response_paths queue.responses) p
        ≡ contains (task_paths (take queue.cursor queue.tasks)) p

contains-gather :
    (rs : List Response) (r : Response) (p : Str)
    → contains (gather response_paths (rs ++ r ∷ [])) p
      ≡ (contains (gather response_paths rs) p || contains (response_paths r) p)
unfolding contains
contains-gather [] r p = ground (arith, contains-append (response_paths r) [] p)
contains-gather (q ∷ rs) r p = ground (
  arith,
  contains-append (response_paths q) (gather response_paths (rs ++ r ∷ [])) p,
  contains-append (response_paths q) (gather response_paths rs) p,
  contains-gather rs r p,
)

contains-take :
    (tasks : List QueuedTask) (n : ℕ) (task : QueuedTask) (p : Str)
    → get_elem? tasks n ≡ some task
    → (n < length tasks)
      × (contains (task_paths (take (suc n) tasks)) p
          ≡ (contains (task_paths (take n tasks)) p || contains task.paths p))
unfolding take contains
contains-take [] n task p h = cc
contains-take (t ∷ tasks) zero task p h =
    let same : t ≡ task = ground arith in
    (omega arith, contains-append t.paths [] p ∙ rw same (ground arith))
contains-take (t ∷ tasks) (suc n) task p h =
    let (lt, ih) = contains-take tasks n task p h in
    (
      omega arith,
      ground (
        arith,
        contains-append t.paths (task_paths (take (suc n) tasks)) p,
        contains-append t.paths (task_paths (take n tasks)) p,
        ih,
      ),
    )

pushed-IsCovered :
    (queue : Queue) (action : Response) (task : QueuedTask)
    → IsCovered queue
    → get_elem? queue.tasks queue.cursor ≡ some task
    → check_response task action ≡ ok tt
    → IsCovered (pushed queue action)
unfolding check_response
pushed-IsCovered queue action task c found fine =
    let (fits, later) =
      raise_if-ok
        (not (action.task_id == task.id)
          || (not (same_set (response_paths action) task.paths)
              || not (distinct (response_paths action))))
        coverage_mismatch
        (raise_if (same_bool action.defer_native task.is_final) native_before_final) fine in
    let same : same_set (response_paths action) task.paths ≡ true = ground arith in
    record {
      reached = (contains-take queue.tasks queue.cursor task [] found).0;
      covered = λ p.
          let next = (contains-take queue.tasks queue.cursor task p found).1 in
          contains-gather queue.responses action p
          ∙ ap (λ b. b || contains (response_paths action) p) (c.covered p)
          ∙ ap (λ b. contains (task_paths (take queue.cursor queue.tasks)) p || b)
              (same_set-contains (response_paths action) task.paths p same)
          ∙ sym next;
    }

paths_of-append : (xs ys : List (Str × Str)) → paths_of (xs ++ ys) ≡ paths_of xs ++ paths_of ys
paths_of-append [] ys = refl
paths_of-append (x ∷ xs) ys = ap (λ ps. x.0 ∷ ps) (paths_of-append xs ys)

-- Gathering the files of a field gathers their paths.
contains-field :
    (field : Response → List (Str × Str)) (r : Response) (rs : List Response) (p : Str)
    → contains (paths_of (gather field (r ∷ rs))) p
      ≡ (contains (paths_of (field r)) p || contains (paths_of (gather field rs)) p)
contains-field field r rs p =
    ap (λ ps. contains ps p) (paths_of-append (field r) (gather field rs))
    ∙ contains-append (paths_of (field r)) (paths_of (gather field rs)) p

abbrev meshes : List Response → List (Str × Str)
meshes rs = gather (λ (r : Response). mesh_list r.block_mesh) rs

gather-split :
    (rs : List Response) (p : Str)
    → contains (gather response_paths rs) p ≡ (
        contains (paths_of (gather (λ (r : Response). r.files) rs)) p
        || (contains (paths_of (gather (λ (r : Response). r.typed_dictionaries) rs)) p
            || contains (paths_of (meshes rs)) p))
unfolding contains
gather-split [] p = refl
gather-split (r ∷ rs) p =
    let files = contains-field (λ (q : Response). q.files) r rs p in
    let typed = contains-field (λ (q : Response). q.typed_dictionaries) r rs p in
    let mesh = contains-field (λ (q : Response). mesh_list q.block_mesh) r rs p in
    let mine = paths_of r.files in
    let here =
      contains-append (paths_of r.files)
        (paths_of r.typed_dictionaries ++ paths_of (mesh_list r.block_mesh)) p
      ∙ ap (λ b. contains (paths_of r.files) p || b)
          (contains-append (paths_of r.typed_dictionaries) (paths_of (mesh_list r.block_mesh)) p) in
    contains-append (response_paths r) (gather response_paths rs) p
    ∙ ap (λ b. b || contains (gather response_paths rs) p) here
    ∙ ap
        (λ b.
          (contains (paths_of r.files) p
            || (contains (paths_of r.typed_dictionaries) p
                || contains (paths_of (mesh_list r.block_mesh)) p))
          || b)
        (gather-split rs p)
    ∙ swap (contains (paths_of r.files) p) (contains (paths_of r.typed_dictionaries) p)
        (contains (paths_of (mesh_list r.block_mesh)) p)
        (contains (paths_of (gather (λ (q : Response). q.files) rs)) p)
        (contains (paths_of (gather (λ (q : Response). q.typed_dictionaries) rs)) p)
        (contains (paths_of (meshes rs)) p)
    ∙ sym (join files typed mesh)
  where
    swap :
        (a b c d e f : Bool)
        → ((a || (b || c)) || (d || (e || f))) ≡ ((a || d) || ((b || e) || (c || f)))
    swap a b c d e f = ground arith

    join : {a b c x y z : Bool} → a ≡ x → b ≡ y → c ≡ z → (a || (b || c)) ≡ (x || (y || z))
    join p q r' = rw (p, q, r') refl

mesh_list-first_of :
    (ms : List (Str × Str)) → ltb 1 (length ms) ≡ false → mesh_list (first_of ms) ≡ ms
mesh_list-first_of [] h = refl
mesh_list-first_of (m ∷ []) h = refl
mesh_list-first_of (m ∷ n ∷ ms) h = absurd (ground arith)

take_all : (tasks : List QueuedTask) (n : ℕ) → length tasks ≤ n → take n tasks ≡ tasks
unfolding take
take_all [] zero h = refl
take_all [] (suc n) h = refl
take_all (t ∷ tasks) zero h = absurd (omega arith)
take_all (t ∷ tasks) (suc n) h = ap (λ ts. t ∷ ts) (take_all tasks n (omega arith))

-- What an accepted response leaves and returns.
abbrev pub final_paths : Final → List Str
final_paths f =
    paths_of f.files ++ (paths_of f.typed_dictionaries ++ paths_of (mesh_list f.block_mesh))

abbrev pub Covers : Queue → Accepted → Type 0
Covers queue (ok (some final), after) =
    IsCovered after
    × ((p : Str) → contains (final_paths final) p ≡ contains (task_paths queue.tasks) p)
Covers queue (ok none, after) = IsCovered after × (after.cursor < length after.tasks)
Covers queue (err e, after) = IsCovered after

finished-Covers :
    (queue after : Queue)
    → after.tasks ≡ queue.tasks
    → IsCovered after
    → length after.tasks ≤ after.cursor
    → (r : Result TaskError Final) → assemble_responses after.responses ≡ r
    → Covers queue (finished after r)
unfolding assemble_responses
finished-Covers queue after tasks c done (err e) h = c
finished-Covers queue after tasks c done (ok final) h =
    let (single, made) = raise_if-ok (ltb 1 (length (meshes after.responses))) duplicate_mesh _ h in
    let e = sym (ok_injective made) in
    (
      c,
      λ p.
          contains-append (paths_of final.files)
            (paths_of final.typed_dictionaries ++ paths_of (mesh_list final.block_mesh)) p
          ∙ ap (λ b. contains (paths_of final.files) p || b)
              (contains-append (paths_of final.typed_dictionaries)
                (paths_of (mesh_list final.block_mesh)) p)
          ∙ ap
              (λ (f : Final).
                contains (paths_of f.files) p
                || (contains (paths_of f.typed_dictionaries) p
                    || contains (paths_of (mesh_list f.block_mesh)) p))
              e
          ∙ ap
              (λ ms.
                contains (paths_of (gather (λ (r : Response). r.files) after.responses)) p
                || (contains
                      (paths_of (gather (λ (r : Response). r.typed_dictionaries) after.responses)) p
                    || contains (paths_of ms) p))
              (mesh_list-first_of (meshes after.responses) single)
          ∙ sym (gather-split after.responses p)
          ∙ c.covered p
          ∙ ap (λ ts. contains (task_paths ts) p) (take_all after.tasks after.cursor done ∙ tasks),
    )

advance-Covers :
    (queue after : Queue)
    → after.tasks ≡ queue.tasks
    → IsCovered after
    → Covers queue (advance after)
advance-Covers queue after tasks c = elim (Bool-cases (ltb after.cursor (length after.tasks))) [
  | inl more ↦ rw more (c, ground arith)
  | inr last ↦
      rw last (
        finished-Covers queue after tasks c (ground arith) (assemble_responses after.responses)
          refl)
]

-- On every branch, errors included, a queue whose responses cover its tasks so far stays one. A
-- response that is not the last leaves tasks open; the action that the last one gives has exactly
-- the paths of all tasks.
pub accept_task-Covers :
    (queue : Queue) (action : Response) (digest : Str)
    → IsCovered queue
    → Covers queue (accept_task queue action digest)
unfolding accept_task
accept_task-Covers queue action digest c = elim (Bool-cases (queue.plan_sha256 == digest)) [
  | inr other ↦ rw other c
  | inl same ↦ rw same (task_case (get_elem? queue.tasks queue.cursor) refl)
]
  where
    check_case :
        (task : QueuedTask)
        → get_elem? queue.tasks queue.cursor ≡ some task
        → (r : Result TaskError (Unit {0})) → check_response task action ≡ r
        → Covers queue (checked queue action r)
    check_case task found (err e) h = c
    check_case task found (ok done) h =
        advance-Covers queue (pushed queue action) refl
          (pushed-IsCovered queue action task c found h)

    task_case :
        (found : Option QueuedTask)
        → get_elem? queue.tasks queue.cursor ≡ found
        → Covers queue (with_task queue action found)
    task_case none h = c
    task_case (some task) h = check_case task h (check_response task action) refl
