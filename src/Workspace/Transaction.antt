-- ===== src/Workspace/Transaction.antt =====
-- `commit_text_transaction` of `CaseWorkspace` (tools/workspace.py). A `Faults` value is one
-- behaviour of the file system: for each path, whether reading, replacing, unlinking or restoring it
-- raises. A replacement is atomic, so one that raises leaves the file. Directories are not modelled.
pub mod Body
pub mod Rollback
pub mod Atomic
use open_foam_agent.Prelude.{
  ℕ, zero, suc, ◌+◌, Str, Bool, true, false, not, ◌&&◌, ◌||◌, Option, none, some, List, [], ◌∷◌,
  ◌++◌, map, ◌==◌, nat_eq, list_eq, list_beq, if◌then◌else◌, ltb, contains, filter, dedupe, length,
  Result, ok, err, raise_if, ◌>>=◌, ◌>>◌,
}
use Prim.Native.Nat.{◌%◌}
use open_foam_agent.Workspace.Errors.{
  WorkspaceError, preflight_failed, asset_deletion, not_agent_authored, os_error, rollback_failed,
  case_too_large,
}
use open_foam_agent.Workspace.Paths.{Key, normalized, resolve_case_path, resolve_existing}
use open_foam_agent.Workspace.Preflight.{
  File, Workspace, Setup, is_file, encoded, size_at, list_authored, all_normalized,
  validate_candidate_bundle,
}

pub record Faults : Type 0 where
  pub read_fails : Str → Bool
  pub write_fails : Str → Bool
  pub unlink_fails : Str → Bool
  pub restore_fails : Str → Bool

-- `disk[key] = value`
unfoldable pub update : (Key → Option File) → Key → Option File → Key → Option File
unfolding list_beq
update files key value other = if other == key then value else files other

-- What a body that may raise leaves behind.
abbrev pub Ran : Type 0 → Type 0
Ran A = Result WorkspaceError A × Workspace

abbrev pub Snapshot : Type 0
Snapshot = Str × Option File

-- The type bits of a regular file, which `chmod` keeps.
abbrev regular_file : ℕ
regular_file = 32768

-- The mode of a file that a `NamedTemporaryFile` replaced.
abbrev pub private_mode : ℕ
private_mode = regular_file + 384

-- `authored.add(path)`
abbrev pub add_path : Str → List Str → List Str
add_path path paths = if contains paths path then paths else paths ++ path ∷ []

-- `authored.discard(path)`
abbrev discard_path : Str → List Str → List Str
discard_path path paths = filter (λ other. not (other == path)) paths

abbrev pub written : Workspace → Key → List ℕ → Str → Workspace
written w key bytes name = record w {
  files = update w.files key (some (record { bytes = bytes; mode = private_mode }));
  authored_paths = add_path name w.authored_paths;
}

abbrev pub recorded : Str × Str → Ran (List (Str × Str)) → Ran (List (Str × Str))
recorded digest (ok digests, w) = (ok (digest ∷ digests), w)
recorded digest (err e, w) = (err e, w)

-- What a restored file looks like: `os.chmod(target, mode & 0o777)`.
abbrev pub restored : Option File → Option File
restored none = none
restored (some file) = some (record file { mode = regular_file + file.mode % 512 })

-- `set(changes) | set(drops)`
unfoldable pub touched : List (Str × Str) → List Str → List Str
unfolding dedupe
touched changes drops = dedupe (map (λ (c : Str × Str). c.0) changes ++ drops)

abbrev no_failures : List WorkspaceError → Bool
no_failures [] = true
no_failures (e ∷ es) = false

module _ (setup : Setup) (faults : Faults) where
  -- The loop over `drops` before the snapshots.
  unfoldable pub check_drops : Workspace → List Str → Result WorkspaceError (Unit {0})
  unfolding resolve_existing is_file contains list_beq
  check_drops w [] = ok tt
  check_drops w (path ∷ paths) = do
    raise_if (contains w.asset_paths path) asset_deletion
    raise_if (not (contains w.authored_paths path)) (not_agent_authored path)
    key ← resolve_existing setup.is_symlink (is_file w) path
    check_drops w paths

  unfoldable pub snapshots : Workspace → List Str → Result WorkspaceError (List Snapshot)
  unfolding resolve_case_path is_file
  snapshots w [] = ok []
  snapshots w (path ∷ paths) = do
    key ← resolve_case_path setup.is_symlink path
    raise_if (is_file w key && faults.read_fails path) (os_error path)
    rest ← snapshots w paths
    ok ((path, w.files key) ∷ rest)

  -- What a write of one text needs: its file, its bytes, its name among the authored paths.
  unfoldable pub prepared : Str → Str → Result WorkspaceError (Key × List ℕ × Str)
  unfolding resolve_case_path encoded normalized
  prepared path content = do
    key ← resolve_case_path setup.is_symlink path
    bytes ← encoded content
    raise_if (faults.write_fails path) (os_error path)
    name ← normalized path
    ok (key, bytes, name)

  -- The loop over `changes`.
  unfoldable pub write_all : Workspace → List (Str × Str) → Ran (List (Str × Str))
  unfolding prepared update contains list_beq
  write_all w [] = (ok [], w)
  write_all w ((path, content) ∷ changes) = elim (prepared path content) [
    | err e ↦ (err e, w)
    | ok (key, bytes, name) ↦
        recorded (name, setup.sha256 bytes) (write_all (written w key bytes name) changes)
  ]

  unfoldable pub unlinked : Workspace → Str → Result WorkspaceError Workspace
  unfolding resolve_existing is_file update filter list_beq
  unlinked w path = do
    key ← resolve_existing setup.is_symlink (is_file w) path
    raise_if (faults.unlink_fails path) (os_error path)
    ok (record w {
      files = update w.files key none;
      authored_paths = discard_path path w.authored_paths;
    })

  -- The loop over `drops`.
  unfoldable pub unlink_all : Workspace → List Str → Ran (Unit {0})
  unfolding unlinked
  unlink_all w [] = (ok tt, w)
  unlink_all w (path ∷ paths) = elim (unlinked w path) [
    | err e ↦ (err e, w)
    | ok w' ↦ unlink_all w' paths
  ]

  unfoldable pub total_size : Workspace → List Str → Result WorkspaceError ℕ
  unfolding resolve_existing is_file
  total_size w [] = ok 0
  total_size w (path ∷ paths) = do
    key ← resolve_existing setup.is_symlink (is_file w) path
    rest ← total_size w paths
    ok (size_at (w.files key) + rest)

  -- `_assert_total_size`
  unfoldable pub assert_total_size : Workspace → Result WorkspaceError (Unit {0})
  unfolding list_authored total_size
  assert_total_size w = do
    authored ← list_authored setup w
    total ← total_size w authored
    raise_if (ltb setup.max_total_bytes total) case_too_large

  abbrev finish :
      List (Str × Str) → Workspace → Result WorkspaceError (Unit {0}) → Ran (List (Str × Str))
  finish digests w (ok done) = (ok digests, w)
  finish digests w (err e) = (err e, w)

  abbrev then_size : List (Str × Str) → Ran (Unit {0}) → Ran (List (Str × Str))
  then_size digests (ok done, w) = finish digests w (assert_total_size w)
  then_size digests (err e, w) = (err e, w)

  abbrev then_unlink : List Str → Ran (List (Str × Str)) → Ran (List (Str × Str))
  then_unlink drops (ok digests, w) = then_size digests (unlink_all w drops)
  then_unlink drops (err e, w) = (err e, w)

  -- The body of the `try`.
  unfoldable pub commit_body : Workspace → List (Str × Str) → List Str → Ran (List (Str × Str))
  unfolding write_all unlink_all assert_total_size
  commit_body w changes drops = then_unlink drops (write_all w changes)

  unfoldable pub restore_one : Workspace → Snapshot → Result WorkspaceError Workspace
  unfolding resolve_case_path update list_beq
  restore_one w (path, before) = do
    key ← resolve_case_path setup.is_symlink path
    raise_if (faults.restore_fails path) (rollback_failed path)
    ok (record w { files = update w.files key (restored before) })

  -- The loop of the handler. What it raises takes the place of the first error.
  unfoldable pub rollback : WorkspaceError → Workspace → List Snapshot → Ran (List (Str × Str))
  unfolding restore_one
  rollback e w [] = (err e, w)
  rollback e w (snapshot ∷ rest) = elim (restore_one w snapshot) [
    | err e' ↦ (err e', w)
    | ok w' ↦ rollback e w' rest
  ]

  abbrev handle : List Str → List Snapshot → Ran (List (Str × Str)) → Ran (List (Str × Str))
  handle before saved (ok digests, w) = (ok digests, w)
  handle before saved (err e, w) = rollback e (record w { authored_paths = before }) saved

  -- Everything before the `try`: the drops and the snapshots.
  unfoldable pub before_commit :
      Workspace → List (Str × Str) → List Str → Result WorkspaceError (List Str × List Snapshot)
  unfolding validate_candidate_bundle all_normalized check_drops snapshots touched dedupe
  before_commit w changes drop_paths = do
    failures ← validate_candidate_bundle setup w changes drop_paths
    raise_if (not (no_failures failures)) preflight_failed
    names ← all_normalized setup drop_paths
    let drops = dedupe names
    check_drops w drops
    saved ← snapshots w (touched changes drops)
    ok (drops, saved)

  unfoldable pub commit_text_transaction :
      Workspace → List (Str × Str) → List Str → Ran (List (Str × Str))
  unfolding before_commit commit_body rollback
  commit_text_transaction w changes drop_paths = elim (before_commit w changes drop_paths) [
    | err e ↦ (err e, w)
    | ok (drops, saved) ↦ handle w.authored_paths saved (commit_body w changes drops)
  ]
