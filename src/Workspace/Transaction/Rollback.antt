-- ===== src/Workspace/Transaction/Rollback.antt =====
-- The handler of the `try`: the snapshots are those of the files before the commit, and restoring
-- them gives each file that they name its old bytes.
use open_foam_agent.Prelude.{
  ok_injective, Str, true, false, ◌&&◌, ◌||◌, Option, List, [], ◌∷◌, ◌==◌, nat_eq, list_eq, eq_iff,
  ◌≡◌, refl, sym, ap, ◌∙◌, arith, if◌then◌else◌, any, ok, err, >>=-eq-ok, raise_if-ok,
}
use open_foam_agent.Workspace.Errors.{WorkspaceError, os_error}
use open_foam_agent.Workspace.Paths.{Key, resolve_case_path}
use open_foam_agent.Workspace.Preflight.{File, Workspace, Setup, is_file}
use open_foam_agent.Workspace.Transaction.{
  Faults, Snapshot, update, snapshots, restored, restore_one, rollback,
}
use open_foam_agent.Workspace.Transaction.Body.{hits, hits-ok, update_lem}

abbrev pub paths_of : List Snapshot → List Str
paths_of [] = []
paths_of ((path, before) ∷ rest) = path ∷ paths_of rest

module _ (setup : Setup) (faults : Faults) (disk : Key → Option File) where
  -- Snapshots of the files of `disk`.
  abbrev pub Saved : List Snapshot → Type 0
  Saved [] = Unit
  Saved ((path, before) ∷ rest) =
      ((k : Key) × (resolve_case_path setup.is_symlink path ≡ ok k) × (before ≡ disk k))
      × Saved rest

  restore_one-ok :
      (w : Workspace) (path : Str) (k : Key) (before : Option File)
      → resolve_case_path setup.is_symlink path ≡ ok k
      → faults.restore_fails path ≡ false
      → restore_one setup faults w (path, before)
        ≡ ok (record w { files = update w.files k (restored before) })
  unfolding restore_one
  restore_one-ok w path k before found quiet = rw (found, quiet) refl

  pub rollback_lem :
      (e : WorkspaceError) (w : Workspace) (saved : List Snapshot)
      → Saved saved
      → ((path : Str) → faults.restore_fails path ≡ false)
      → (w' : Workspace) × (rollback setup faults e w saved ≡ (err e, w'))
        × (w'.authored_paths ≡ w.authored_paths)
        × ((key : Key)
            → w'.files key ≡ (
                if any (hits setup key) (paths_of saved) then restored (disk key) else w.files key))
  unfolding rollback any
  rollback_lem e w [] s quiet = (w, refl, refl, λ key. refl)
  rollback_lem e w ((path, before) ∷ rest) ((k, found, same), s) quiet =
      let v = record w { files = update w.files k (restored before) } in
      let (w', ran, authored, files) = rollback_lem e v rest s quiet in
      (
        w',
        rw (restore_one-ok w path k before found (quiet path), rollback) ran,
        authored,
        λ key. files key ∙ merge key,
      )
    where
      merge :
          (key : Key)
          → (if any (hits setup key) (paths_of rest)
              then restored (disk key)
              else update w.files k (restored before) key)
            ≡ (if hits setup key path || any (hits setup key) (paths_of rest)
                then restored (disk key)
                else w.files key)
      merge key =
          let at_k : (key == k) ≡ true → restored before ≡ restored (disk key) =
            λ p. ap restored (same ∙ ap disk (sym ((eq_iff key k).0 p))) in
          ground (arith, hits-ok setup key k path found, update_lem w.files k (restored before) key)

module _ (setup : Setup) (faults : Faults) where
  pub snapshots-ok :
      (w : Workspace) (paths : List Str) {saved : List Snapshot}
      → snapshots setup faults w paths ≡ ok saved
      → Saved setup faults w.files saved × (paths_of saved ≡ paths)
  unfolding snapshots
  snapshots-ok w [] {saved} h = let e : [] ≡ saved = ok_injective h in rw (← e) (tt, refl)
  snapshots-ok w (path ∷ paths) {saved} h =
      let (k, found, h1) = >>=-eq-ok (resolve_case_path setup.is_symlink path) _ h in
      let (fine, h2) = raise_if-ok (is_file w k && faults.read_fails path) (os_error path) _ h1 in
      let (rest, later, h3) = >>=-eq-ok (snapshots setup faults w paths) _ h2 in
      let (s, same) = snapshots-ok w paths later in
      let e : (path, w.files k) ∷ rest ≡ saved = ok_injective h3 in
      rw (← e) (((k, found, refl), s), ap (λ ps. path ∷ ps) same)
