-- ===== src/Workspace/Preflight.antt =====
-- `validate_candidate_text`, `validate_candidate_bundle` and `list_authored` of `CaseWorkspace`
-- (tools/workspace.py): all tests that come before the first write. The content policy
-- (`_validate_content`) and SHA-256 are arguments.
use open_foam_agent.Prelude.{
  ℕ, ◌+◌, Str, Bool, true, false, ◌&&◌, Option, none, some, List, [], ◌∷◌, ◌++◌, map, nat_eq,
  list_eq, list_beq, if◌then◌else◌, ltb, leb, contains, sort_by, length, Result, ok, err, raise_if,
  ◌>>=◌, ◌>>◌,
}
use Prim.Native.Nat.{◌/◌, ◌%◌}
use open_foam_agent.Native.Contracts.{str_le}
use open_foam_agent.Workspace.Errors.{
  WorkspaceError, nul_byte, not_encodable, immutable_asset, file_too_large, case_too_large,
}
use open_foam_agent.Workspace.Paths.{Key, normalized, resolve_case_path, resolve_existing}

-- A file of the case: its bytes, and its `st_mode`, the type of a regular file included.
pub record File : Type 0 where
  pub bytes : List ℕ
  pub mode : ℕ

pub record Workspace : Type 0 where
  pub files : Key → Option File
  pub authored_paths : List Str
  pub asset_paths : List Str

-- What the workspace is set up with, and what it takes from outside.
pub record Setup : Type 0 where
  pub max_file_bytes : ℕ
  pub max_total_bytes : ℕ
  pub is_symlink : Key → Bool
  pub validate_content : Str → Str → Result WorkspaceError (Unit {0})
  pub sha256 : List ℕ → Str

-- UTF-8; surrogates have no encoding.
abbrev encode_char : ℕ → Option (List ℕ)
encode_char c =
    if ltb c 128
    then some (c ∷ [])
    else if ltb c 2048
    then some ((192 + c / 64) ∷ (128 + c % 64) ∷ [])
    else if leb 55296 c && leb c 57343
    then none
    else if ltb c 65536
    then some ((224 + c / 4096) ∷ (128 + c / 64 % 64) ∷ (128 + c % 64) ∷ [])
    else some
        ((240 + c / 262144) ∷ (128 + c / 4096 % 64) ∷ (128 + c / 64 % 64) ∷ (128 + c % 64) ∷ [])

abbrev join_bytes : Option (List ℕ) → Option (List ℕ) → Option (List ℕ)
join_bytes (some a) (some b) = some (a ++ b)
join_bytes _ _ = none

-- `content.encode("utf-8")`
unfoldable pub encode : Str → Option (List ℕ)
encode [] = some []
encode (c ∷ cs) = join_bytes (encode_char c) (encode cs)

unfoldable pub encoded : Str → Result WorkspaceError (List ℕ)
unfolding encode
encoded content = elim (encode content) [ none ↦ err not_encodable | some bytes ↦ ok bytes ]

abbrev is_there : Option File → Bool
is_there none = false
is_there (some file) = true

unfoldable pub is_file : Workspace → Key → Bool
is_file w key = is_there (w.files key)

abbrev pub size_at : Option File → ℕ
size_at none = 0
size_at (some file) = length file.bytes

module _ (setup : Setup) where
  unfoldable pub validate_candidate_text : Workspace → Str → Str → Result WorkspaceError Str
  unfolding encoded resolve_case_path normalized contains list_beq
  validate_candidate_text w text content = do
    raise_if (contains content 0) nul_byte
    bytes ← encoded content
    raise_if (ltb setup.max_file_bytes (length bytes)) (file_too_large text)
    key ← resolve_case_path setup.is_symlink text
    name ← normalized text
    raise_if (contains w.asset_paths name) immutable_asset
    setup.validate_content content text
    ok (setup.sha256 bytes)

  -- `[path for path in authored if resolve(path).is_file()]`
  unfoldable pub existing : Workspace → List Str → Result WorkspaceError (List Str)
  unfolding resolve_case_path is_file
  existing w [] = ok []
  existing w (path ∷ paths) = do
    key ← resolve_case_path setup.is_symlink path
    rest ← existing w paths
    ok (if is_file w key then path ∷ rest else rest)

  unfoldable pub list_authored : Workspace → Result WorkspaceError (List Str)
  unfolding existing sort_by str_le
  list_authored w = do paths ← existing w w.authored_paths; ok (sort_by str_le paths)

  -- One round of the first loop: the text's path and its size.
  unfoldable pub candidate : Workspace → Str × Str → Result WorkspaceError (Str × ℕ)
  unfolding normalized validate_candidate_text encoded
  candidate w (path, content) = do
    name ← normalized path
    digest ← validate_candidate_text w name content
    bytes ← encoded content
    ok (name, length bytes)

  -- The failures and the candidates of the first loop.
  unfoldable pub candidates : Workspace → List (Str × Str) → List WorkspaceError × List (Str × ℕ)
  unfolding candidate
  candidates w [] = ([], [])
  candidates w (file ∷ files) =
      let rest = candidates w files in
      elim (candidate w file) [ ok sized ↦ (rest.0, sized ∷ rest.1) | err e ↦ (e ∷ rest.0, rest.1) ]

  -- `sum(normalized_candidates.values())`: the last size of each path counts.
  unfoldable pub last_sizes : List (Str × ℕ) → ℕ
  unfolding contains list_beq
  last_sizes [] = 0
  last_sizes ((path, size) ∷ rest) =
      let later = last_sizes rest in
      if contains (map (λ (p : Str × ℕ). p.0) rest) path then later else size + later

  unfoldable pub all_normalized : List Str → Result WorkspaceError (List Str)
  unfolding normalized
  all_normalized [] = ok []
  all_normalized (path ∷ paths) = do
    name ← normalized path
    rest ← all_normalized paths
    ok (name ∷ rest)

  -- The failures and the bytes of the files that the bundle leaves.
  unfoldable pub kept_sizes : Workspace → List Str → List Str → List WorkspaceError × ℕ
  unfolding resolve_existing is_file contains list_beq
  kept_sizes w replaced [] = ([], 0)
  kept_sizes w replaced (path ∷ paths) =
      let rest = kept_sizes w replaced paths in
      if contains replaced path
      then rest
      else elim (resolve_existing setup.is_symlink (is_file w) path) [
        | ok key ↦ (rest.0, size_at (w.files key) + rest.1)
        | err e ↦ (e ∷ rest.0, rest.1)
      ]

  abbrev bundle_total : List (Str × ℕ) → List WorkspaceError × ℕ → List WorkspaceError
  bundle_total sized (failures, kept) =
      failures
      ++ (if ltb setup.max_total_bytes (kept + last_sizes sized) then case_too_large ∷ [] else [])

  abbrev bundle_rest :
      Workspace
      → List Str
      → List WorkspaceError × List (Str × ℕ)
      → Result WorkspaceError (List WorkspaceError)
  bundle_rest w drops (e ∷ failures, sized) = ok (e ∷ failures)
  bundle_rest w drops ([], sized) = do
    dropped ← all_normalized drops
    authored ← list_authored w
    ok (bundle_total sized (kept_sizes w (map (λ (p : Str × ℕ). p.0) sized ++ dropped) authored))

  -- The failures that are returned; what it raises is an error.
  unfoldable pub validate_candidate_bundle :
      Workspace → List (Str × Str) → List Str → Result WorkspaceError (List WorkspaceError)
  unfolding candidates all_normalized list_authored kept_sizes last_sizes
  validate_candidate_bundle w files drops = bundle_rest w drops (candidates w files)
