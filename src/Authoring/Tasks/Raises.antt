-- ===== src/Authoring/Tasks/Raises.antt =====
-- What `compile_tasks` can raise: two of its guards never fire.
use open_foam_agent.Prelude.{Str, none, [], ◌∷◌, nat_eq, list_eq, ◌≡◌, ok}
use open_foam_agent.Authoring.Tasks.{
  TaskError, budget_too_small, manifest_empty_or_duplicated, task_exceeded, capsule_exceeded,
  Budget, projection_that_fits,
}
use open_foam_agent.Authoring.Tasks.Batches.{ProjectionRaises}

module _ (budget : Budget) where
  -- The errors that a partition can end in.
  pub data CanRaise : TaskError → Type 0 where
    small : CanRaise budget_too_small
    manifest : CanRaise manifest_empty_or_duplicated
    capsule :
        (path : Str)
        → projection_that_fits budget (path ∷ []) ≡ ok none
        → CanRaise (capsule_exceeded path)
    task : CanRaise task_exceeded
    projection : {e : TaskError} → ProjectionRaises budget e → CanRaise e
