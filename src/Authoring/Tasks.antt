-- ===== src/Authoring/Tasks.antt =====
-- The partition of `compile_tasks` (engineering/authoring_tasks.py). `project`, which may raise, and
-- whether a projection fits into the prompt are arguments: the two calls of
-- `build_bounded_json_prompt`, at the reserve for grouping and at the exact cap, for a full and a
-- compact projection. Its own test of the limit passes, as 5200 less the reserve is above 4000. The
-- payload has the keys that the code reads.
pub mod Batches
pub mod Partition
pub mod Raises
use open_foam_agent.Prelude.{
  is_empty, ℕ, zero, suc, ◌+◌, ◌<◌, Str, Bool, true, false, not, ◌&&◌, ◌||◌, Option, none, some,
  List, [], ◌∷◌, ◌++◌, map, ◌==◌, nat_eq, list_eq, list_beq, if◌then◌else◌, ltb, contains, distinct,
  all, length, Result, ok, err, raise_if, ◌>>=◌, ◌>>◌,
}

pub data TaskError : Type 0 where
  budget_too_small manifest_empty_or_duplicated : TaskError
  previously_verified_exceeded final_exceeded task_exceeded : TaskError
  capsule_exceeded : Str → TaskError
  projection_raised : Str → TaskError
  partition_lost plan_changed coverage_mismatch native_before_final duplicate_mesh no_task :
      TaskError

-- What a projection of some paths, full or compact, raises, and whether it fits under the reserve
-- and under the exact cap.
pub record Budget : Type 0 where
  pub project : Bool → List Str → Result TaskError (Unit {0})
  pub fits_reserve : Bool → List Str → Bool
  pub fits_cap : Bool → List Str → Bool

abbrev pub Batch : Type 0
Batch = List Str × Bool

pub record Task : Type 0 where
  pub paths : List Str
  pub index : ℕ
  pub is_final : Bool
  pub compact : Bool

abbrev no_fit : Option Bool → Bool
no_fit none = true
no_fit (some compact) = false

module _ (budget : Budget) where
  -- `projection_that_fits`: full, or else compact. What `project` raises is not caught.
  unfoldable pub projection_that_fits : List Str → Result TaskError (Option Bool)
  projection_that_fits paths = do
    budget.project false paths
    if budget.fits_reserve false paths then ok (some false) else (do
      budget.project true paths
      ok (if budget.fits_reserve true paths then some true else none))

  -- A batch that is closed, as the code asks again what it fits into.
  abbrev close_batch : TaskError → List Str → Result TaskError (List Batch)
  close_batch error [] = ok []
  close_batch error (path ∷ paths) = do
    fit ← projection_that_fits (path ∷ paths)
    elim fit [ none ↦ err error | some compact ↦ ok ((path ∷ paths, compact) ∷ []) ]

  -- The loop over the paths, with the current batch.
  unfoldable pub batches_from : List Str → List Str → Result TaskError (List Batch)
  unfolding projection_that_fits
  batches_from current [] = close_batch final_exceeded current
  batches_from current (path ∷ paths) =
      let joined = batches_from (current ++ path ∷ []) paths in
      let alone = batches_from (path ∷ []) paths in
      projection_that_fits (current ++ path ∷ []) >>= λ fit. elim fit [
        | some compact ↦ joined
        | none ↦ do
          done ← close_batch previously_verified_exceeded current
          single ← projection_that_fits (path ∷ [])
          raise_if (no_fit single) (capsule_exceeded path)
          rest ← alone
          ok (done ++ rest)
      ]

  -- Where the metadata tips a full projection over the cap, the compact one is taken.
  abbrev compact_mode : Batch → Result TaskError Bool
  compact_mode (paths, true) = err task_exceeded
  compact_mode (paths, false) = do
    budget.project true paths
    if budget.fits_cap true paths then ok true else err task_exceeded

  abbrev task_mode : Batch → Result TaskError Bool
  task_mode (paths, compact) = do
    budget.project compact paths
    if budget.fits_cap compact paths then ok compact else compact_mode (paths, compact)

  unfoldable pub tasks_from : ℕ → ℕ → List Batch → Result TaskError (List Task)
  tasks_from count index [] = ok []
  tasks_from count index ((paths, compact) ∷ batches) = do
    mode ← task_mode (paths, compact)
    rest ← tasks_from count (suc index) batches
    ok (
        record { paths = paths; index = suc index; is_final = suc index == count; compact = mode }
        ∷ rest)

  abbrev pub assigned : List Task → List Str
  assigned [] = []
  assigned (task ∷ tasks) = task.paths ++ assigned tasks

  -- `projected` is the test that no fact is lost.
  unfoldable pub compile_tasks : (List Task → Bool) → ℕ → List Str → Result TaskError (List Task)
  unfolding batches_from tasks_from distinct list_beq
  compile_tasks keeps_facts max_chars paths = do
    raise_if (ltb max_chars 5200) budget_too_small
    raise_if (not (distinct paths) || is_empty paths) manifest_empty_or_duplicated
    batches ← batches_from [] paths
    tasks ← tasks_from (length batches) 0 batches
    raise_if (not (assigned tasks == paths) || not (keeps_facts tasks)) partition_lost
    ok tasks
