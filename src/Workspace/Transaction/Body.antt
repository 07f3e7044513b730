-- ===== src/Workspace/Transaction/Body.antt =====
-- The body of the `try`: what it writes if it returns, and what it never touches.
use open_foam_agent.Prelude.{
  ℕ, Str, Bool, false, not, Option, none, some, List, [], ◌∷◌, map, ◌==◌, nat_eq, list_eq, ◌≡◌,
  refl, sym, ap, ◌∙◌, arith, inl, inr, if◌then◌else◌, any, Result, ok, err, >>=-eq-ok, raise_if-ok,
  Result-cases,
}
use open_foam_agent.Workspace.Errors.{WorkspaceError, os_error, file_not_found}
use open_foam_agent.Workspace.Paths.{Key, resolve_case_path, resolve_existing, normalized}
use open_foam_agent.Workspace.Preflight.{File, Workspace, Setup, is_file, encode, encoded}
use open_foam_agent.Workspace.Transaction.{
  Faults, Ran, update, private_mode, prepared, written, recorded, write_all, unlinked, unlink_all,
}

pub update_lem :
    (files : Key → Option File) (key : Key) (value : Option File) (other : Key)
    → update files key value other ≡ (if other == key then value else files other)
unfolding update
update_lem files key value other = refl

recorded-state :
    (digest : Str × Str) (ran : Ran (List (Str × Str))) → (recorded digest ran).1 ≡ ran.1
recorded-state digest (ok digests, w) = refl
recorded-state digest (err e, w) = refl

recorded-ok :
    (digest : Str × Str) (ran : Ran (List (Str × Str))) (digests : List (Str × Str)) (w : Workspace)
    → recorded digest ran ≡ (ok digests, w)
    → (digests' : List (Str × Str)) × (ran ≡ (ok digests', w))
recorded-ok digest (ok done, v) digests w h = (done, ground arith)
recorded-ok digest (err e, v) digests w h = cc

-- The file of a text.
abbrev pub file_of : Option (List ℕ) → Option File → Option File
file_of none old = old
file_of (some bytes) old = some (record { bytes = bytes; mode = private_mode })

encoded-ok :
    (content : Str) {bytes : List ℕ} → encoded content ≡ ok bytes → encode content ≡ some bytes
unfolding encoded
encoded-ok content h = ground arith

module _ (setup : Setup) where
  -- Whether a path is the path of a file.
  unfoldable pub hits : Key → Str → Bool
  hits key path = elim (resolve_case_path setup.is_symlink path) [ ok k ↦ key == k | err e ↦ false ]

  pub hits-ok :
      (key k : Key) (path : Str)
      → resolve_case_path setup.is_symlink path ≡ ok k
      → hits key path ≡ (key == k)
  unfolding hits
  hits-ok key k path h = rw (h, hits) refl

  -- What the changes make of one file.
  abbrev pub after_changes : Key → Option File → List (Str × Str) → Option File
  after_changes key old [] = old
  after_changes key old ((path, content) ∷ changes) =
      after_changes key (if hits key path then file_of (encode content) old else old) changes

module _ (setup : Setup) (faults : Faults) where
  prepared-ok :
      (path content name : Str) (key : Key) (bytes : List ℕ)
      → prepared setup faults path content ≡ ok (key, bytes, name)
      → (resolve_case_path setup.is_symlink path ≡ ok key) × (encode content ≡ some bytes)
  unfolding prepared
  prepared-ok path content name key bytes h =
      let (k, found, h1) = >>=-eq-ok (resolve_case_path setup.is_symlink path) _ h in
      let (b, text, h2) = >>=-eq-ok (encoded content) _ h1 in
      let (fine, h3) = raise_if-ok (faults.write_fails path) (os_error path) _ h2 in
      let (n, named, h4) = >>=-eq-ok (normalized path) _ h3 in
      ground (arith, found, h4, encoded-ok content text)

  written_lem :
      (w : Workspace) (path content name : Str) (key k : Key) (bytes : List ℕ)
      → prepared setup faults path content ≡ ok (k, bytes, name)
      → (written w k bytes name).files key
        ≡ (if hits setup key path then file_of (encode content) (w.files key) else w.files key)
  written_lem w path content name key k bytes h =
      let (found, text) = prepared-ok path content name k bytes h in
      rw (hits-ok setup key k path found, text) (update_lem w.files k _ key)

  pub write_all-untouched :
      (w : Workspace) (changes : List (Str × Str)) (key : Key)
      → any (hits setup key) (map (λ (c : Str × Str). c.0) changes) ≡ false
      → (write_all setup faults w changes).1.files key ≡ w.files key
  unfolding write_all any
  write_all-untouched w [] key away = refl
  write_all-untouched w ((path, content) ∷ changes) key away =
      elim (Result-cases (prepared setup faults path content)) [
        | inr (e, failed) ↦ rw (failed, write_all) refl
        | inl ((k, bytes, name), done) ↦
            rw (done, write_all)
              (ap (λ (s : Workspace). s.files key)
                  (recorded-state (name, setup.sha256 bytes)
                    (write_all setup faults (written w k bytes name) changes))
                ∙ write_all-untouched (written w k bytes name) changes key (ground arith)
                ∙ written_lem w path content name key k bytes done
                ∙ misses (ground arith))
      ]
    where
      misses :
          {b : Bool}
          → b ≡ false
          → (if b then file_of (encode content) (w.files key) else w.files key) ≡ w.files key
      misses e = rw e refl

  pub write_all-ok :
      (w w' : Workspace) (changes digests : List (Str × Str)) (key : Key)
      → write_all setup faults w changes ≡ (ok digests, w')
      → w'.files key ≡ after_changes setup key (w.files key) changes
  unfolding write_all
  write_all-ok w w' [] digests key h = ap (λ (r : Ran (List (Str × Str))). r.1.files key) (sym h)
  write_all-ok w w' ((path, content) ∷ changes) digests key h =
      elim (Result-cases (prepared setup faults path content)) [
        | inr (e, failed) ↦ absurd (cc (rw (failed, write_all) at h))
        | inl ((k, bytes, name), done) ↦
            let (digests', h') =
              recorded-ok (name, setup.sha256 bytes) _ digests w' (rw (done, write_all) at h) in
            rw (← written_lem w path content name key k bytes done)
              (write_all-ok (written w k bytes name) w' changes digests' key h')
      ]

  resolve_existing-ok :
      (is_there : Key → Bool) (path : Str) {key : Key}
      → resolve_existing setup.is_symlink is_there path ≡ ok key
      → resolve_case_path setup.is_symlink path ≡ ok key
  unfolding resolve_existing
  resolve_existing-ok is_there path h =
      let (k, found, h1) = >>=-eq-ok (resolve_case_path setup.is_symlink path) _ h in
      let (fine, same) = raise_if-ok (not (is_there k)) (file_not_found path) (ok k) h1 in
      found ∙ same

  unlinked_lem :
      (w w' : Workspace) (path : Str) (key : Key)
      → unlinked setup faults w path ≡ ok w'
      → w'.files key ≡ (if hits setup key path then none else w.files key)
  unfolding unlinked
  unlinked_lem w w' path key h =
      let (k, found, h1) = >>=-eq-ok (resolve_existing setup.is_symlink (is_file w) path) _ h in
      let (fine, same) = raise_if-ok (faults.unlink_fails path) (os_error path) _ h1 in
      rw (hits-ok setup key k path (resolve_existing-ok (is_file w) path found))
        (files_of same ∙ update_lem w.files k none key)
    where
      files_of :
          {v : Workspace}
          → ◌≡◌ {A = Result WorkspaceError Workspace} (ok v) (ok w')
          → w'.files key ≡ v.files key
      files_of e = cc

  pub unlink_all-untouched :
      (w : Workspace) (paths : List Str) (key : Key)
      → any (hits setup key) paths ≡ false
      → (unlink_all setup faults w paths).1.files key ≡ w.files key
  unfolding unlink_all any
  unlink_all-untouched w [] key away = refl
  unlink_all-untouched w (path ∷ paths) key away =
      elim (Result-cases (unlinked setup faults w path)) [
        | inr (e, failed) ↦ rw (failed, unlink_all) refl
        | inl (w', done) ↦
            rw (done, unlink_all)
              (ground (arith, unlink_all-untouched w' paths key, unlinked_lem w w' path key done))
      ]

  pub unlink_all-ok :
      (w w' : Workspace) (paths : List Str) (key : Key)
      → unlink_all setup faults w paths ≡ (ok tt, w')
      → w'.files key ≡ (if any (hits setup key) paths then none else w.files key)
  unfolding unlink_all any
  unlink_all-ok w w' [] key h = ap (λ (r : Ran (Unit {0})). r.1.files key) (sym h)
  unlink_all-ok w w' (path ∷ paths) key h = elim (Result-cases (unlinked setup faults w path)) [
    | inr (e, failed) ↦ absurd (cc (rw (failed, unlink_all) at h))
    | inl (v, done) ↦
        let later = unlink_all-ok v w' paths key (rw (done, unlink_all) at h) in
        ground (arith, later, unlinked_lem w v path key done)
  ]
