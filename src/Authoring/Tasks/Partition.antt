-- ===== src/Authoring/Tasks/Partition.antt =====
-- The tasks partition the file manifest.
use open_foam_agent.Prelude.{
  is_empty, ok_injective, ℕ, suc, Str, Bool, true, false, not, ◌||◌, List, [], ◌∷◌, ◌++◌, ◌==◌,
  nat_eq, list_eq, ◌≡◌, refl, sym, ap, subst, ◌∙◌, arith, Bool-cases, inl, inr, ltb, length,
  distinct, ok, >>=-eq-ok, raise_if-ok,
}
use open_foam_agent.Authoring.Tasks.{
  budget_too_small, manifest_empty_or_duplicated, partition_lost, Budget, Batch, Task, batches_from,
  compact_mode, task_mode, tasks_from, assigned, compile_tasks,
}
use open_foam_agent.Authoring.Tasks.Batches.{paths_in, Batched, batches_from-Batched}

module _ (budget : Budget) where
  -- The tasks from a place on: numbered in order, the last one final, each within the exact cap.
  abbrev pub IsNumbered : ℕ → ℕ → List Task → Type 0
  IsNumbered count index [] = Unit
  IsNumbered count index (task ∷ tasks) =
      ((task.index ≡ suc index)
        × (task.is_final ≡ (suc index == count))
        × (budget.fits_cap task.compact task.paths ≡ true))
      × IsNumbered count (suc index) tasks

  compact_mode-ok :
      (paths : List Str) (compact mode : Bool)
      → compact_mode budget (paths, compact) ≡ ok mode
      → budget.fits_cap mode paths ≡ true
  compact_mode-ok paths true mode h = absurd (cc)
  compact_mode-ok paths false mode h =
      let (done, projected, h1) = >>=-eq-ok (budget.project true paths) _ h in
      elim (Bool-cases (budget.fits_cap true paths)) [
        | inl fits ↦ let e : true ≡ mode = ok_injective (rw fits at h1) in rw (← e) fits
        | inr over ↦ absurd (cc (rw over at h1))
      ]

  task_mode-ok :
      (paths : List Str) (compact mode : Bool)
      → task_mode budget (paths, compact) ≡ ok mode
      → budget.fits_cap mode paths ≡ true
  task_mode-ok paths compact mode h =
      let (done, projected, h1) = >>=-eq-ok (budget.project compact paths) _ h in
      elim (Bool-cases (budget.fits_cap compact paths)) [
        | inl fits ↦ let e : compact ≡ mode = ok_injective (rw fits at h1) in rw (← e) fits
        | inr over ↦ compact_mode-ok paths compact mode (rw over at h1)
      ]

  pub tasks_from-ok :
      (count index : ℕ) (batches : List Batch) {tasks : List Task}
      → tasks_from budget count index batches ≡ ok tasks
      → (assigned budget tasks ≡ paths_in batches)
        × IsNumbered count index tasks
        × (length tasks ≡ length batches)
  unfolding tasks_from
  tasks_from-ok count index [] {tasks} h =
      let e : [] ≡ tasks = ok_injective h in rw (← e) (refl, tt, refl)
  tasks_from-ok count index ((paths, compact) ∷ batches) {tasks} h =
      let (mode, chosen, h1) = >>=-eq-ok (task_mode budget (paths, compact)) _ h in
      let (rest, later, h2) = >>=-eq-ok (tasks_from budget count (suc index) batches) _ h1 in
      let (same, numbered, long) = tasks_from-ok count (suc index) batches later in
      subst
        (λ ts.
          (assigned budget ts ≡ paths ++ paths_in batches)
          × IsNumbered count index ts
          × (length ts ≡ suc (length batches)))
        (ok_injective h2)
        (
          ap (λ ps. paths ++ ps) same,
          ((refl, refl, task_mode-ok paths compact mode chosen), numbered),
          ap suc long,
        )

  -- Tasks that are returned hold the paths of the manifest, each once and in their order, are
  -- numbered from one on, the last of them and no other is final, and fit into the prompt.
  pub compile_tasks-partition :
      (keeps_facts : List Task → Bool) (max_chars : ℕ) (paths : List Str) {tasks : List Task}
      → compile_tasks budget keeps_facts max_chars paths ≡ ok tasks
      → (assigned budget tasks ≡ paths)
        × (distinct paths ≡ true)
        × IsNumbered (length tasks) 0 tasks
        × (keeps_facts tasks ≡ true)
  unfolding compile_tasks
  compile_tasks-partition keeps_facts max_chars paths {tasks} h =
      let (room, h1) = raise_if-ok (ltb max_chars 5200) budget_too_small _ h in
      let (listed, h2) =
        raise_if-ok (not (distinct paths) || is_empty paths) manifest_empty_or_duplicated _ h1 in
      let (batches, split, h3) = >>=-eq-ok (batches_from budget [] paths) _ h2 in
      let (made, numbered, h4) = >>=-eq-ok (tasks_from budget (length batches) 0 batches) _ h3 in
      let (kept, h5) =
        raise_if-ok (not (assigned budget made == paths) || not (keeps_facts made)) partition_lost
          (ok made) h4 in
      let (same, order, long) = tasks_from-ok (length batches) 0 batches numbered in
      let joined : paths_in batches ≡ paths = whole batches split in
      subst
        (λ ts.
          (assigned budget ts ≡ paths)
          × (distinct paths ≡ true)
          × IsNumbered (length ts) 0 ts
          × (keeps_facts ts ≡ true))
        (ok_injective h5)
        (
          same ∙ joined,
          ground (arith, listed),
          subst (λ n. IsNumbered n 0 made) (sym long) order,
          ground (arith, kept),
        )
    where
      whole :
          (batches : List Batch)
          → batches_from budget [] paths ≡ ok batches
          → paths_in batches ≡ paths
      whole batches split =
          subst (Batched budget paths) split (batches_from-Batched budget [] paths tt)
