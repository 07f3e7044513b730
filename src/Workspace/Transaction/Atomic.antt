-- ===== src/Workspace/Transaction/Atomic.antt =====
-- A transaction is committed as a whole or leaves the case as it was.
use open_foam_agent.Prelude.{
  Str, false, not, Option, none, List, ◌++◌, map, nat_eq, list_eq, ◌≡◌, ◌⊎◌, refl, sym, ap, ◌∙◌,
  arith, Bool-cases, inl, inr, if◌then◌else◌, any, any-append, any-dedupe, dedupe, Result, ok, err,
  >>=-eq-ok, raise_if-ok, Result-cases,
}
use open_foam_agent.Workspace.Errors.{WorkspaceError, preflight_failed}
use open_foam_agent.Workspace.Paths.{Key}
use open_foam_agent.Workspace.Preflight.{
  File, Workspace, Setup, all_normalized, validate_candidate_bundle,
}
use open_foam_agent.Workspace.Transaction.{
  Faults, Ran, Snapshot, restored, write_all, unlink_all, assert_total_size, finish, then_size,
  then_unlink, commit_body, check_drops, snapshots, touched, no_failures, before_commit, handle,
  rollback, commit_text_transaction,
}
use open_foam_agent.Workspace.Transaction.Body.{
  hits, after_changes, write_all-untouched, write_all-ok, unlink_all-untouched, unlink_all-ok,
}
use open_foam_agent.Workspace.Transaction.Rollback.{paths_of, rollback_lem, snapshots-ok}

abbrev path_list : List (Str × Str) → List Str
path_list changes = map (λ (c : Str × Str). c.0) changes

module _ (setup : Setup) (faults : Faults) where
  finish-state :
      (digests : List (Str × Str)) (w : Workspace) (r : Result WorkspaceError (Unit {0}))
      → (finish setup faults digests w r).1 ≡ w
  finish-state digests w (ok done) = refl
  finish-state digests w (err e) = refl

  then_size-state :
      (digests : List (Str × Str)) (ran : Ran (Unit {0}))
      → (then_size setup faults digests ran).1 ≡ ran.1
  then_size-state digests (ok done, w) = finish-state digests w (assert_total_size setup faults w)
  then_size-state digests (err e, w) = refl

  then_unlink-untouched :
      (drops : List Str) (ran : Ran (List (Str × Str))) (key : Key)
      → any (hits setup key) drops ≡ false
      → (then_unlink setup faults drops ran).1.files key ≡ ran.1.files key
  then_unlink-untouched drops (ok digests, w) key away =
      ap (λ (s : Workspace). s.files key)
        (then_size-state digests (unlink_all setup faults w drops))
      ∙ unlink_all-untouched setup faults w drops key away
  then_unlink-untouched drops (err e, w) key away = refl

  commit_body-untouched :
      (w : Workspace) (changes : List (Str × Str)) (drops : List Str) (key : Key)
      → any (hits setup key) (path_list changes ++ drops) ≡ false
      → (commit_body setup faults w changes drops).1.files key ≡ w.files key
  unfolding commit_body
  commit_body-untouched w changes drops key away =
      let split = any-append (hits setup key) (path_list changes) drops in
      then_unlink-untouched drops (write_all setup faults w changes) key (ground (arith, split))
      ∙ write_all-untouched setup faults w changes key (ground (arith, split))

  finish-ok :
      (digests done : List (Str × Str)) (w w' : Workspace) (r : Result WorkspaceError (Unit {0}))
      → finish setup faults digests w r ≡ (ok done, w')
      → w ≡ w'
  finish-ok digests done w w' (ok u) h = ap (λ (ran : Ran (List (Str × Str))). ran.1) h
  finish-ok digests done w w' (err e) h = cc

  then_size-ok :
      (digests done : List (Str × Str)) (ran : Ran (Unit {0})) (w' : Workspace)
      → then_size setup faults digests ran ≡ (ok done, w')
      → ran ≡ (ok tt, w')
  then_size-ok digests done (ok u, w) w' h =
      ap (λ (s : Workspace). (ok u, s))
        (finish-ok digests done w w' (assert_total_size setup faults w) h)
  then_size-ok digests done (err e, w) w' h = cc

  then_unlink-ok :
      (drops : List Str) (ran : Ran (List (Str × Str))) (done : List (Str × Str)) (w' : Workspace)
      → then_unlink setup faults drops ran ≡ (ok done, w')
      → (digests : List (Str × Str)) × (w : Workspace) × (ran ≡ (ok digests, w))
        × (unlink_all setup faults w drops ≡ (ok tt, w'))
  then_unlink-ok drops (ok digests, w) done w' h =
      (digests, w, refl, then_size-ok digests done (unlink_all setup faults w drops) w' h)
  then_unlink-ok drops (err e, w) done w' h = cc

  -- What a transaction makes of one file, whatever the file system does.
  abbrev pub after_commit : List (Str × Str) → List Str → Key → Option File → Option File
  after_commit changes drops key old =
      if any (hits setup key) drops then none else after_changes setup key old changes

  commit_body-ok :
      (w w' : Workspace) (changes digests : List (Str × Str)) (drops : List Str) (key : Key)
      → commit_body setup faults w changes drops ≡ (ok digests, w')
      → w'.files key ≡ after_commit changes drops key (w.files key)
  unfolding commit_body
  commit_body-ok w w' changes digests drops key h =
      let (digests', v, wrote, removed) =
        then_unlink-ok drops (write_all setup faults w changes) digests w' h in
      rw (← write_all-ok setup faults w v changes digests' key wrote)
        (unlink_all-ok setup faults v w' drops key removed)

  -- The same file, or its old bytes with the permission bits of its mode.
  abbrev pub SameFile : Option File → Option File → Type 0
  SameFile before after = (after ≡ before) ⊎ (after ≡ restored before)

  -- All or nothing.
  abbrev pub AllOrNothing :
      Workspace → List (Str × Str) → List Str → Ran (List (Str × Str)) → Type 0
  AllOrNothing w changes drop_paths (ok digests, w') =
      (names : List Str) × (all_normalized setup drop_paths ≡ ok names)
      × ((key : Key) → w'.files key ≡ after_commit changes (dedupe names) key (w.files key))
  AllOrNothing w changes drop_paths (err e, w') =
      (w'.authored_paths ≡ w.authored_paths) × ((key : Key) → SameFile (w.files key) (w'.files key))

  before_commit-ok :
      (w : Workspace) (changes : List (Str × Str)) (drop_paths drops : List Str)
      (saved : List Snapshot)
      → before_commit setup faults w changes drop_paths ≡ ok (drops, saved)
      → ((names : List Str) × (all_normalized setup drop_paths ≡ ok names) × (drops ≡ dedupe names))
        × (snapshots setup faults w (touched changes drops) ≡ ok saved)
  unfolding before_commit
  before_commit-ok w changes drop_paths drops saved h =
      let (failures, checked, h1) =
        >>=-eq-ok (validate_candidate_bundle setup w changes drop_paths) _ h in
      let (fine, h2) = raise_if-ok (not (no_failures failures)) preflight_failed _ h1 in
      let (names, named, h3) = >>=-eq-ok (all_normalized setup drop_paths) _ h2 in
      let (u, allowed, h4) = >>=-eq-ok (check_drops setup faults w (dedupe names)) _ h3 in
      let (taken, saved_ok, h5) =
        >>=-eq-ok (snapshots setup faults w (touched changes (dedupe names))) _ h4 in
      let e : dedupe names ≡ drops = pair_of h5 in
      ((names, named, sym e), rw (← e) (ground (arith, saved_ok, h5)))
    where
      pair_of :
          {a b : List Str} {s t : List Snapshot}
          → ◌≡◌ {A = Result WorkspaceError (List Str × List Snapshot)} (ok (a, s)) (ok (b, t))
          → a ≡ b
      pair_of e = cc

  module _ (w : Workspace) (changes : List (Str × Str)) (drop_paths drops : List Str)
      (saved : List Snapshot) (quiet : (path : Str) → faults.restore_fails path ≡ false)
      (begun : before_commit setup faults w changes drop_paths ≡ ok (drops, saved)) where
    restored_same :
        (e : WorkspaceError) (v : Workspace)
        → commit_body setup faults w changes drops ≡ (err e, v)
        → AllOrNothing w changes drop_paths
            (rollback setup faults e (record v { authored_paths = w.authored_paths }) saved)
    unfolding touched
    restored_same e v failed =
        let (named, taken) = before_commit-ok w changes drop_paths drops saved begun in
        let (kept, paths) = snapshots-ok setup faults w (touched changes drops) taken in
        let (w', ran, authored, files) =
          rollback_lem setup faults w.files e (record v { authored_paths = w.authored_paths }) saved
            kept quiet in
        rw ran (authored, λ key. same (w'.files key) key (files key) paths)
      where
        same :
            (after : Option File) (key : Key)
            → after ≡ (
                if any (hits setup key) (paths_of saved)
                then restored (w.files key)
                else v.files key)
            → paths_of saved ≡ dedupe (path_list changes ++ drops)
            → SameFile (w.files key) after
        same after key e' p = elim (Bool-cases (any (hits setup key) (paths_of saved))) [
          | inl hit ↦ inr (rw hit at e')
          | inr away ↦
              let none_hit =
                sym (any-dedupe (hits setup key) (path_list changes ++ drops))
                ∙ sym (ap (any (hits setup key)) p)
                ∙ away in
              inl (
                (rw away at e')
                ∙ sym (ap (λ (r : Ran (List (Str × Str))). r.1.files key) failed)
                ∙ commit_body-untouched w changes drops key none_hit)
        ]

    -- What the handler makes of what the body left.
    handled :
        (ran : Ran (List (Str × Str)))
        → commit_body setup faults w changes drops ≡ ran
        → AllOrNothing w changes drop_paths (handle setup faults w.authored_paths saved ran)
    handled (ok digests, v) done =
        let ((names, named, same), taken) =
          before_commit-ok w changes drop_paths drops saved begun in
        (names, named, λ key. rw (← same) (commit_body-ok w v changes digests drops key done))
    handled (err e, v) failed = restored_same e v failed

  -- If restoring a file never raises, a transaction either returns with every file as the changes
  -- and then the drops make it, or raises with the authored paths unchanged and every file the
  -- same, its mode cut to the permission bits at most.
  pub commit_text_transaction-atomic :
      (w : Workspace) (changes : List (Str × Str)) (drop_paths : List Str)
      → ((path : Str) → faults.restore_fails path ≡ false)
      → AllOrNothing w changes drop_paths
          (commit_text_transaction setup faults w changes drop_paths)
  unfolding commit_text_transaction
  commit_text_transaction-atomic w changes drop_paths quiet =
      elim (Result-cases (before_commit setup faults w changes drop_paths)) [
        | inr (e, failed) ↦ rw (failed, commit_text_transaction) (refl, λ key. inl refl)
        | inl ((drops, saved), begun) ↦
            rw (begun, commit_text_transaction)
              (handled w changes drop_paths drops saved quiet begun
                (commit_body setup faults w changes drops) refl)
      ]
