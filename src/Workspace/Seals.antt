-- ===== src/Workspace/Seals.antt =====
-- The seal of a case (tools/workspace.py): `file_seals`, `execution_file_seals`, `seal`, `adopt_seal`
-- and `verify_seal`. What `rglob` lists below a directory, the decoding of UTF-8 and the digest of
-- sorted records are arguments.
pub mod Verified
pub mod Kept
pub mod Same
pub mod Adopted
use open_foam_agent.Prelude.{
  is_empty, ℕ, ◌+◌, Str, codes, Bool, true, false, not, ◌&&◌, ◌||◌, Option, none, some, List, [],
  ◌∷◌, ◌++◌, map, ◌==◌, nat_eq, list_eq, Eq, ◌≡◌, ◌↔◌, refl, list_beq, if◌then◌else◌, ltb, contains,
  all, sort_by, join_slash, length, components, Result, ok, err, raise_if, ◌>>=◌, ◌>>◌,
}
use open_foam_agent.Prelude.Dict.{Dict, keys, find, put}
use open_foam_agent.Native.Contracts.{str_le}
use open_foam_agent.Workspace.Errors.{
  WorkspaceError, os_error, file_not_found, plan_changed, file_set_changed, input_changed,
  origin_changed, manifest_changed, empty_case, invalid_content, too_many_inputs, inputs_too_large,
  symlink_input, not_utf8,
}
use open_foam_agent.Workspace.Paths.{Key, case_name, validate_relative, resolve_existing}
use open_foam_agent.Workspace.Preflight.{File, Workspace, Setup, is_file, size_at, list_authored}
use open_foam_agent.Workspace.Transaction.{Faults, Ran, add_path, assert_total_size}

pub data Origin : Type 0 where
  agent native user_asset : Origin

abbrev pub origin_beq : Origin → Origin → Bool
origin_beq agent agent = true
origin_beq native native = true
origin_beq user_asset user_asset = true
origin_beq _ _ = false

pub origin_beq_iff : (a b : Origin) → (origin_beq a b ≡ true) ↔ (a ≡ b)
origin_beq_iff agent agent = (λ h. refl, λ h. refl)
origin_beq_iff agent native = (λ h. cc, λ h. cc)
origin_beq_iff agent user_asset = (λ h. cc, λ h. cc)
origin_beq_iff native agent = (λ h. cc, λ h. cc)
origin_beq_iff native native = (λ h. refl, λ h. refl)
origin_beq_iff native user_asset = (λ h. cc, λ h. cc)
origin_beq_iff user_asset agent = (λ h. cc, λ h. cc)
origin_beq_iff user_asset native = (λ h. cc, λ h. cc)
origin_beq_iff user_asset user_asset = (λ h. refl, λ h. refl)

instance abbrev pub origin_eq : Eq Origin
origin_eq = record { beq = origin_beq; beq_iff = origin_beq_iff }

pub record CaseFileSeal : Type 0 where
  pub path : Str
  pub sha256 : Str
  pub size_bytes : ℕ
  pub origin : Origin

pub record CaseSeal : Type 0 where
  pub plan_sha256 : Str
  pub manifest_sha256 : Str
  pub files : List CaseFileSeal

-- The limits on execution inputs, and what sealing takes from outside.
pub record Sealing : Type 0 where
  pub max_execution_bytes : ℕ
  pub max_execution_files : ℕ
  pub rglob : Str → List Key
  pub decode : List ℕ → Option Str
  pub digest_of : List CaseFileSeal → Str

-- The order of two `Path` values: name by name.
unfoldable pub key_le : Key → Key → Bool
unfolding list_beq str_le
key_le [] t = true
key_le (c ∷ s) [] = false
key_le (c ∷ s) (d ∷ t) = if c == d then key_le s t else str_le c d

-- `path.as_posix()`
unfoldable pub joined : Key → Str
unfolding join_slash
joined key = join_slash key

abbrev pub bytes_at : Option File → List ℕ
bytes_at none = []
bytes_at (some file) = file.bytes

abbrev pub path_le : CaseFileSeal → CaseFileSeal → Bool
path_le a b = str_le a.path b.path

-- `{item.path: item for item in files}`
abbrev pub put_seal : CaseFileSeal → Dict Str CaseFileSeal → Dict Str CaseFileSeal
put_seal item d = put item.path item d

unfoldable pub by_path : Dict Str CaseFileSeal → List CaseFileSeal → Dict Str CaseFileSeal
unfolding put list_beq
by_path d [] = d
by_path d (item ∷ items) = by_path (put_seal item d) items

-- `set(expected) != set(current)` is its negation.
unfoldable pub same_paths : Dict Str CaseFileSeal → Dict Str CaseFileSeal → Bool
unfolding all contains list_beq
same_paths a b = all (contains (keys b)) (keys a) && all (contains (keys a)) (keys b)

-- One round of the loop of `verify_seal`.
abbrev pub check_item : Str → CaseFileSeal → Option CaseFileSeal → Result WorkspaceError (Unit {0})
check_item path item none = err file_set_changed
check_item path item (some actual) = do
  raise_if (not (actual.sha256 == item.sha256) || not (actual.size_bytes == item.size_bytes))
      (input_changed path)
  raise_if (not (actual.origin == item.origin)) (origin_changed path)

unfoldable pub check_items :
    Dict Str CaseFileSeal → Dict Str CaseFileSeal → Result WorkspaceError (Unit {0})
unfolding find list_beq
check_items current [] = ok tt
check_items current ((path, item) ∷ rest) = do
  check_item path item (find path current)
  check_items current rest

-- `[current[path] for path in paths]`
unfoldable pub looked_up : Dict Str CaseFileSeal → List Str → List CaseFileSeal
unfolding find list_beq
looked_up current [] = []
looked_up current (path ∷ paths) =
    let rest = looked_up current paths in
    elim (find path current) [ none ↦ rest | some item ↦ item ∷ rest ]

module _ (setup : Setup) (faults : Faults) (sealing : Sealing) where
  -- `_seal_manifest_digest`
  unfoldable pub seal_manifest_digest : List CaseFileSeal → Str
  unfolding sort_by str_le
  seal_manifest_digest files = sealing.digest_of (sort_by path_le files)

  unfoldable pub file_seals : Workspace → List Str → Result WorkspaceError (List CaseFileSeal)
  unfolding resolve_existing is_file
  file_seals w [] = ok []
  file_seals w (path ∷ paths) = do
    key ← resolve_existing setup.is_symlink (is_file w) path
    raise_if (faults.read_fails path) (os_error path)
    rest ← file_seals w paths
    let bytes = bytes_at (w.files key)
    ok (
        record {
          path = path;
          sha256 = setup.sha256 bytes;
          size_bytes = length bytes;
          origin = agent;
        }
        ∷ rest)

  -- The regular files among what `rglob` lists.
  unfoldable pub regular_files : Workspace → List Key → Result WorkspaceError (List Key)
  unfolding is_file joined
  regular_files w [] = ok []
  regular_files w (key ∷ keys) = do
    raise_if (setup.is_symlink (case_name ∷ key)) (symlink_input (joined key))
    rest ← regular_files w keys
    ok (if is_file w key then key ∷ rest else rest)

  unfoldable pub total_bytes : Workspace → List Key → ℕ
  total_bytes w [] = 0
  total_bytes w (key ∷ keys) = size_at (w.files key) + total_bytes w keys

  unfoldable pub origin_of : Workspace → Str → Origin
  unfolding contains list_beq
  origin_of w path =
      if contains w.asset_paths path
      then user_asset
      else if contains w.authored_paths path
      then agent
      else native

  unfoldable pub seal_of : Workspace → Key → CaseFileSeal
  unfolding joined origin_of
  seal_of w key = record {
    path = joined key;
    sha256 = setup.sha256 (bytes_at (w.files key));
    size_bytes = size_at (w.files key);
    origin = origin_of w (joined key);
  }

  unfoldable pub seals_of : Workspace → List Key → Result WorkspaceError (List CaseFileSeal)
  unfolding seal_of joined validate_relative
  seals_of w [] = ok []
  seals_of w (key ∷ keys) = do
    parts ← validate_relative (joined key)
    raise_if (faults.read_fails (joined key)) (os_error (joined key))
    rest ← seals_of w keys
    ok (seal_of w key ∷ rest)

  -- `sorted(_EXECUTION_INPUT_TOP_LEVEL)`, each with what is below it.
  unfoldable pub execution_file_seals : Workspace → Result WorkspaceError (List CaseFileSeal)
  unfolding regular_files total_bytes seals_of sort_by key_le
  execution_file_seals w = do
    keys ← regular_files w (
        sealing.rglob (codes "0")
        ++ (sealing.rglob (codes "constant") ++ sealing.rglob (codes "system")))
    raise_if (ltb sealing.max_execution_files (length keys)) too_many_inputs
    raise_if (ltb sealing.max_execution_bytes (total_bytes w keys)) inputs_too_large
    seals_of w (sort_by key_le keys)

  -- What one authored file adds to the failures.
  abbrev content_failure : Str → Option Str → List WorkspaceError
  content_failure path none = not_utf8 path ∷ []
  content_failure path (some content) = elim (setup.validate_content content path) [
    | ok done ↦ []
    | err e ↦ e ∷ []
  ]

  unfoldable pub content_failures :
      Workspace → List Str → Result WorkspaceError (List WorkspaceError)
  unfolding resolve_existing is_file
  content_failures w [] = ok []
  content_failures w (path ∷ paths) = do
    key ← resolve_existing setup.is_symlink (is_file w) path
    raise_if (faults.read_fails path) (os_error path)
    rest ← content_failures w paths
    ok (content_failure path (sealing.decode (bytes_at (w.files key))) ++ rest)

  -- `except WorkspaceSafetyError` lets the errors of the file system through.
  abbrev is_safety_error : WorkspaceError → Bool
  is_safety_error (file_not_found path) = false
  is_safety_error (os_error path) = false
  is_safety_error e = true

  abbrev with_size :
      List WorkspaceError
      → Result WorkspaceError (Unit {0})
      → Result WorkspaceError (List WorkspaceError)
  with_size failures (ok done) = ok failures
  with_size failures (err e) = if is_safety_error e then ok (failures ++ e ∷ []) else err e

  unfoldable pub validate_all_content : Workspace → Result WorkspaceError (List WorkspaceError)
  unfolding list_authored content_failures assert_total_size
  validate_all_content w = do
    authored ← list_authored setup w
    failures ← content_failures w authored
    with_size failures (assert_total_size setup faults w)

  unfoldable pub seal : Workspace → Str → Result WorkspaceError CaseSeal
  unfolding validate_all_content execution_file_seals seal_manifest_digest
  seal w plan_digest = do
    raise_if (is_empty w.authored_paths && is_empty w.asset_paths) empty_case
    failures ← validate_all_content w
    raise_if (not (is_empty failures)) invalid_content
    files ← execution_file_seals w
    ok (record {
      plan_sha256 = plan_digest;
      manifest_sha256 = seal_manifest_digest files;
      files = files;
    })

  -- The loop of `adopt_seal`, with its local set of authored paths.
  unfoldable pub adopt_items : List Str → Workspace → List CaseFileSeal → Ran (Unit {0})
  unfolding resolve_existing is_file contains list_beq
  adopt_items authored w [] = (ok tt, record w { authored_paths = authored })
  adopt_items authored w (item ∷ items) =
      let as_agent = adopt_items (add_path item.path authored) w items in
      let as_asset =
        adopt_items authored (record w { asset_paths = add_path item.path w.asset_paths }) items in
      let as_native = adopt_items authored w items in
      elim (resolve_existing setup.is_symlink (is_file w) item.path) [
        | err e ↦ (err e, w)
        | ok key ↦ elim item.origin [
          | agent ↦ as_agent
          | user_asset ↦ as_asset
          | native ↦ as_native
        ]
      ]

  -- The asset paths are cleared first, whatever follows.
  unfoldable pub adopt_seal : Workspace → CaseSeal → Ran (Unit {0})
  unfolding adopt_items
  adopt_seal w sealed = adopt_items [] (record w { asset_paths = [] }) sealed.files

  -- The tests of `verify_seal` after the current inputs are read.
  abbrev check_current :
      CaseSeal → Dict Str CaseFileSeal → Dict Str CaseFileSeal → Result WorkspaceError (Unit {0})
  check_current sealed expected current = do
    raise_if (not (same_paths expected current)) file_set_changed
    check_items current expected
    raise_if
        (not (
          seal_manifest_digest (looked_up current (sort_by str_le (keys current)))
          == sealed.manifest_sha256))
        manifest_changed

  unfoldable pub verify_seal : Workspace → CaseSeal → Str → Result WorkspaceError (Unit {0})
  unfolding execution_file_seals by_path same_paths check_items looked_up seal_manifest_digest
      sort_by str_le list_beq
  verify_seal w sealed plan_digest = do
    raise_if (not (plan_digest == sealed.plan_sha256)) plan_changed
    files ← execution_file_seals w
    check_current sealed (by_path [] sealed.files) (by_path [] files)
