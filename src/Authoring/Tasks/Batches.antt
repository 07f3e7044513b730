-- ===== src/Authoring/Tasks/Batches.antt =====
-- The loop of `compile_tasks` that makes batches of the paths: what it returns, and why it raises.
use open_foam_agent.Prelude.{
  Str, Bool, true, false, none, some, List, [], ◌∷◌, ◌++◌, nat_eq, list_eq, ◌≡◌, refl, sym, ap,
  subst, ◌∙◌, Bool-cases, inl, inr, append_assoc, append_nil, Result, ok, err, Result-cases, ◌⊎◌,
  ◌>>=◌, >>=-eq-err,
}
use open_foam_agent.Authoring.Tasks.{
  TaskError, previously_verified_exceeded, final_exceeded, capsule_exceeded, Budget, Batch,
  projection_that_fits, close_batch, batches_from,
}

abbrev pub paths_in : List Batch → List Str
paths_in [] = []
paths_in ((paths, compact) ∷ batches) = paths ++ paths_in batches

paths_in-append : (xs ys : List Batch) → paths_in (xs ++ ys) ≡ paths_in xs ++ paths_in ys
paths_in-append [] ys = refl
paths_in-append ((paths, compact) ∷ xs) ys =
    ap (λ ps. paths ++ ps) (paths_in-append xs ys)
    ∙ sym (append_assoc paths (paths_in xs) (paths_in ys))

module _ (budget : Budget) where
  -- The current batch is empty or fits.
  abbrev pub Fits : List Str → Type 0
  Fits [] = Unit
  Fits (path ∷ paths) =
      (compact : Bool) × (projection_that_fits budget (path ∷ paths) ≡ ok (some compact))

  close_batch-Fits :
      (error : TaskError) (current : List Str)
      → Fits current
      → (done : List Batch) × (close_batch budget error current ≡ ok done)
        × (paths_in done ≡ current)
  close_batch-Fits error [] f = ([], refl, refl)
  close_batch-Fits error (path ∷ paths) (compact, fits) =
      ((path ∷ paths, compact) ∷ [], rw (fits, close_batch) refl, append_nil (path ∷ paths))

  Fits-some :
      (paths : List Str) (compact : Bool)
      → projection_that_fits budget paths ≡ ok (some compact)
      → Fits paths
  Fits-some [] compact h = tt
  Fits-some (path ∷ paths) compact h = (compact, h)

  -- An error that projecting some paths raises.
  abbrev pub ProjectionRaises : TaskError → Type 0
  ProjectionRaises e =
      (compact : Bool) × (paths : List Str) × (budget.project compact paths ≡ err e)

  projection_that_fits-err :
      (paths : List Str) (e : TaskError)
      → projection_that_fits budget paths ≡ err e
      → ProjectionRaises e
  unfolding projection_that_fits
  projection_that_fits-err paths e h = elim (>>=-eq-err (budget.project false paths) _ h) [
    | inl first ↦ (false, paths, first)
    | inr (done, projected, h1) ↦ elim (Bool-cases (budget.fits_reserve false paths)) [
      | inl fits ↦ absurd (cc (rw fits at h1))
      | inr over ↦ elim (>>=-eq-err (budget.project true paths) _ (rw over at h1)) [
        | inl second ↦ (true, paths, second)
        | inr (again, compacted, h2) ↦ absurd (cc)
      ]
    ]
  ]

  -- Why the loop raises: a path that does not fit alone, or a projection that raises.
  abbrev pub Unbatched : TaskError → Type 0
  Unbatched e =
      ((path : Str) × (e ≡ capsule_exceeded path)
        × (projection_that_fits budget (path ∷ []) ≡ ok none))
      ⊎ ProjectionRaises e

  -- The loop returns batches that join to the paths, or raises for one of those reasons.
  abbrev pub Batched : List Str → Result TaskError (List Batch) → Type 0
  Batched paths (ok batches) = paths_in batches ≡ paths
  Batched paths (err e) = Unbatched e

  Batched-append :
      (done : List Batch) (current rest : List Str) (r : Result TaskError (List Batch))
      → paths_in done ≡ current
      → Batched rest r
      → Batched (current ++ rest) (r >>= (λ batches. ok (done ++ batches)))
  Batched-append done current rest (ok batches) same b =
      paths_in-append done batches
      ∙ ap (λ ps. ps ++ paths_in batches) same
      ∙ ap (λ ps. current ++ ps) b
  Batched-append done current rest (err e) same b = b

  -- What a list of paths does when it is asked whether it fits.
  abbrev Projected : List Str → Type 0
  Projected paths =
      ((e : TaskError) × (projection_that_fits budget paths ≡ err e))
      ⊎ ((projection_that_fits budget paths ≡ ok none)
          ⊎ ((compact : Bool) × (projection_that_fits budget paths ≡ ok (some compact))))

  projected : (paths : List Str) → Projected paths
  projected paths = elim (Result-cases (projection_that_fits budget paths)) [
    | inr raised ↦ inl raised
    | inl (none, h) ↦ inr (inl h)
    | inl (some compact, h) ↦ inr (inr (compact, h))
  ]

  pub batches_from-Batched :
      (current paths : List Str)
      → Fits current
      → Batched (current ++ paths) (batches_from budget current paths)
  unfolding batches_from
  batches_from-Batched current [] f =
      let (done, closed, same) = close_batch-Fits final_exceeded current f in
      rw closed (same ∙ sym (append_nil current))
  batches_from-Batched current (path ∷ paths) f = elim (projected (current ++ path ∷ [])) [
    | inl (e, raised) ↦
        rw (raised, batches_from) (inr (projection_that_fits-err (current ++ path ∷ []) e raised))
    | inr (inr (compact, fits)) ↦
        rw (fits, batches_from)
          (subst (λ ps. Batched ps (batches_from budget (current ++ path ∷ []) paths))
            (append_assoc current (path ∷ []) paths)
            (batches_from-Batched (current ++ path ∷ []) paths
              (Fits-some (current ++ path ∷ []) compact fits)))
    | inr (inl full) ↦
        let (done, closed, same) = close_batch-Fits previously_verified_exceeded current f in
        rw (full, batches_from)
          (rw closed (elim (projected (path ∷ [])) [
            | inl (e, raised) ↦ rw raised (inr (projection_that_fits-err (path ∷ []) e raised))
            | inr (inl gone) ↦ rw gone (inl (path, refl, gone))
            | inr (inr (compact, fits)) ↦ rw fits (
                Batched-append done current (path ∷ paths) (batches_from budget (path ∷ []) paths)
                  same (batches_from-Batched (path ∷ []) paths (compact, fits)))
          ]))
  ]
