-- ===== src/Workflow/State/Approval.antt =====
-- What an execution approval and a confirmed intake bind.
use open_foam_agent.Prelude.{
  ok_injective, Str, true, [], ◌∷◌, ◌++◌, Result, err, ◌≡◌, ◌≢◌, refl, arith, ok, Option, none,
  some, sym, ap, ◌↔◌, Bool-cases, inl, inr, eq_iff, eq_refl, contains, ◌⊎◌, nat_eq, list_eq,
}
use open_foam_agent.Workflow.Approvals.Binds.{Binds, issue-Binds}
use open_foam_agent.Workflow.State.{
  CfdState, CfdIntakeSpec, IntakeStatus, needs_user_input, ready_for_review, check_digest,
  PlanDocuments, CaseSeal, ResourceLimits, ExecutionApproval, StateError, not_ready_to_solve,
  no_plan_or_seal, solve_approved, transition, state_eq, approve_solve, approve, issue, check_plan,
  confirm_intake, assert_confirmed_intake, mesh_ready, solve_ready, simulation,
  solve_approval_states,
}

module _ (sha256 : Str → Str) where
  -- An approval passes its check against the plan that it was issued for.
  pub check_plan-issue :
      (plan : PlanDocuments) (seal : CaseSeal) (limits : Option ResourceLimits)
      → check_plan sha256 (issue sha256 plan seal limits) plan ≡ ok tt
  unfolding check_plan issue
  check_plan-issue plan seal limits = ground (
    arith,
    eq_refl (sha256 plan.execution_document),
    eq_refl (sha256 plan.physical_plan_document),
    eq_refl plan.confirmed_intake_sha256,
  )

  -- An approval that was issued for a plan passes its check against another plan exactly if the
  -- execution, the physical plan and the confirmed intake have equal digests.
  pub check_plan_iff :
      (plan other : PlanDocuments) (seal : CaseSeal) (limits : Option ResourceLimits)
      → (check_plan sha256 (issue sha256 plan seal limits) other ≡ ok tt) ↔ (
          (sha256 other.execution_document ≡ sha256 plan.execution_document)
          × (sha256 other.physical_plan_document ≡ sha256 plan.physical_plan_document)
          × (other.confirmed_intake_sha256 ≡ plan.confirmed_intake_sha256))
  unfolding check_plan issue
  check_plan_iff plan other seal limits = (
    λ h. ground (
      arith,
      eq_iff (sha256 other.execution_document) (sha256 plan.execution_document),
      eq_iff (sha256 other.physical_plan_document) (sha256 plan.physical_plan_document),
      eq_iff other.confirmed_intake_sha256 plan.confirmed_intake_sha256,
    ),
    λ h. ground (
      arith,
      eq_refl (sha256 plan.execution_document),
      eq_iff (sha256 other.execution_document) (sha256 plan.execution_document),
      eq_iff (sha256 other.physical_plan_document) (sha256 plan.physical_plan_document),
      eq_iff other.confirmed_intake_sha256 plan.confirmed_intake_sha256,
    ),
  )

  -- The states in which a solve can be approved.
  abbrev pub IsReady : CfdState → Type 0
  IsReady s = (s.current_state ≡ mesh_ready) ⊎ (s.current_state ≡ solve_ready)

  -- What an approval that is asked for does, by how it ends.
  abbrev pub Approves : CfdState → Option ResourceLimits → Result StateError CfdState → Type 0
  Approves s limits (ok t) =
      (plan : PlanDocuments) × (seal : CaseSeal) × (approval : ExecutionApproval)
      × (s.engineering_plan ≡ some plan)
      × (s.case_seal ≡ some seal)
      × IsReady s
      × Binds sha256 plan seal limits approval
      × (t ≡ record s {
        execution_approval = some approval;
        solve_approved = true;
        current_state = simulation;
        history =
            s.history
            ++ record { source = s.current_state; target = simulation; note = solve_approved } ∷ [];
      })
  Approves s limits (err e) =
      ((e ≡ not_ready_to_solve) × ¬ IsReady s)
      ⊎ ((e ≡ no_plan_or_seal) × IsReady s × ((s.engineering_plan ≡ none) ⊎ (s.case_seal ≡ none)))

  IsReady-iff : (s : CfdState) → (contains solve_approval_states s.current_state ≡ true) ↔ IsReady s
  unfolding contains
  IsReady-iff s =
      let at_mesh = eq_iff s.current_state mesh_ready in
      let at_solve = eq_iff s.current_state solve_ready in
      (λ h. ground (arith, at_mesh, at_solve), λ h. ground (arith, at_mesh, at_solve))

  approve-Approves :
      (limits : Option ResourceLimits) (s : CfdState)
      → IsReady s
      → (plan : Option PlanDocuments) (seal : Option CaseSeal) → s.engineering_plan ≡ plan
      → s.case_seal ≡ seal
      → Approves s limits (approve sha256 s limits plan seal)
  unfolding approve transition
  approve-Approves limits s ready none seal e f = inr (refl, ready, inl e)
  approve-Approves limits s ready (some plan) none e f = inr (refl, ready, inr f)
  approve-Approves limits s ready (some plan) (some seal) e f = (
    plan,
    seal,
    issue sha256 plan seal limits,
    e,
    f,
    ready,
    issue-Binds sha256 plan seal limits,
    refl,
  )

  -- A solve is approved exactly if it is asked for in MESH_READY or SOLVE_READY, on a plan and a
  -- sealed case: it raises for another state, and else where the plan or the seal is missing. The
  -- approval then binds the plan and the seal, repair protections and limits included, the state
  -- is SIMULATION with the flag set and this transition in its history, and nothing else changed.
  pub approve_solve-Approves :
      (limits : Option ResourceLimits) (s : CfdState)
      → Approves s limits (approve_solve sha256 limits s)
  unfolding approve_solve
  approve_solve-Approves limits s =
      elim (Bool-cases (contains solve_approval_states s.current_state)) [
        | inl ready ↦ rw ready (
            approve-Approves limits s ((IsReady-iff s).0 ready) s.engineering_plan s.case_seal refl
              refl)
        | inr other ↦
            rw other (inl (refl, λ ready. absurd (cc (rw ((IsReady-iff s).1 ready) at other))))
      ]

  -- What a confirmation leaves in the state.
  confirm_intake-ok :
      (s t : CfdState)
      → confirm_intake sha256 s ≡ ok t
      → (old : CfdIntakeSpec) × (s.intake ≡ some old)
        × (t.intake_confirmed ≡ true)
        × (t.intake_digest ≡ some (sha256 old.document))
  unfolding confirm_intake
  confirm_intake-ok s t h = at_intake s.intake refl (rw h)
    where
      at_intake :
          (i : Option CfdIntakeSpec)
          → s.intake ≡ i
          → confirm_intake sha256 s ≡ ok t
          → (old : CfdIntakeSpec) × (s.intake ≡ some old)
            × (t.intake_confirmed ≡ true)
            × (t.intake_digest ≡ some (sha256 old.document))
      at_intake none e c = absurd (cc (rw e at c))
      at_intake (some old) e c = at_status old.status refl
        where
          at_status :
              (status : IntakeStatus)
              → old.status ≡ status
              → (old : CfdIntakeSpec) × (s.intake ≡ some old)
                × (t.intake_confirmed ≡ true)
                × (t.intake_digest ≡ some (sha256 old.document))
          at_status needs_user_input g = absurd (cc (rw (e, g) at c))
          at_status ready_for_review g =
              let same = sym (ok_injective (rw (e, g) at c)) in
              (
                old,
                e,
                ap (λ (u : CfdState). u.intake_confirmed) same,
                ap (λ (u : CfdState). u.intake_digest) same,
              )

  -- The digest test passes exactly on the document that was hashed.
  check_digest_iff :
      (intake : CfdIntakeSpec) (digest : Str)
      → sha256 intake.document ≢ []
      → (check_digest sha256 (some intake) (some digest) ≡ ok tt)
        ↔ (sha256 intake.document ≡ digest)
  unfolding check_digest
  check_digest_iff intake [] n = (λ h. absurd (cc), λ h. absurd (n h))
  check_digest_iff intake (c ∷ digest) n = (
    λ h. ground (arith, eq_iff (sha256 intake.document) (c ∷ digest)),
    λ h. ground (arith, eq_iff (sha256 intake.document) (c ∷ digest)),
  )

  assert_confirmed :
      (s : CfdState) (intake : CfdIntakeSpec) (digest : Str)
      → s.intake_confirmed ≡ true
      → s.intake_digest ≡ some digest
      → assert_confirmed_intake sha256 (record s { intake = some intake })
        ≡ check_digest sha256 (some intake) (some digest)
  unfolding assert_confirmed_intake
  assert_confirmed s intake digest e f = rw (e, f)

  -- After an intake was confirmed, an intake with a digest that is not empty passes the
  -- assertion exactly if its digest is that of the confirmed one.
  pub assert-confirm_intake :
      (s t : CfdState) (intake : CfdIntakeSpec)
      → confirm_intake sha256 s ≡ ok t
      → sha256 intake.document ≢ []
      → (old : CfdIntakeSpec) × (s.intake ≡ some old)
        × ((assert_confirmed_intake sha256 (record t { intake = some intake }) ≡ ok tt)
            ↔ (sha256 intake.document ≡ sha256 old.document))
  assert-confirm_intake s t intake h n =
      let (old, e, confirmed, digest) = confirm_intake-ok s t h in
      (
        old,
        e,
        rw (assert_confirmed t intake (sha256 old.document) confirmed digest)
            (check_digest_iff intake (sha256 old.document) n),
      )
