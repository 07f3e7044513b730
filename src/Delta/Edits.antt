-- ===== src/Delta/Edits.antt =====
-- The first half of `compile_case_delta_graph` (engineering/case_delta_graph.py): the effective
-- case under replacements, patches and drops, before anything is written.
pub mod Exact
pub mod Effective
use open_foam_agent.Prelude.{
  is_empty, ℕ, zero, suc, ◌+◌, ◌-◌, Str, codes, Bool, true, false, not, ◌&&◌, ◌||◌, Option, none,
  some, List, [], ◌∷◌, ◌++◌, map, ◌==◌, nat_eq, list_eq, list_beq, if◌then◌else◌, ltb, contains,
  dedupe, filter, length, take, drop, starts_with, ends_with, Result, ok, err, ◌>>=◌,
}
use open_foam_agent.Prelude.Dict.{Dict, keys, find, put, pop}
use open_foam_agent.Workspace.Errors.{WorkspaceError}
use open_foam_agent.Workspace.Paths.{Key, resolve_case_path}
use open_foam_agent.Workspace.Preflight.{File, Workspace, Setup, list_authored}
use open_foam_agent.Delta.Failures.{
  DeltaFailure, unreadable_committed, unreadable_required, conflicting_replacement,
  patch_and_replace, patch_and_drop, replace_and_drop, target_too_large, target_absent,
  empty_old_text, match_count, DeltaWarning, stale_drop,
}

-- `text.count(old)` for a nonempty `old`: `skip` counts what is left of a match.
unfoldable pub count_from : Str → ℕ → Str → ℕ
unfolding starts_with
count_from old skip [] = 0
count_from old (suc skip) (c ∷ text) = count_from old skip text
count_from old zero (c ∷ text) =
    let found = starts_with (c ∷ text) old in
    let rest = count_from old (if found then length old - 1 else 0) text in
    if found then suc rest else rest

unfoldable pub count : Str → Str → ℕ
unfolding count_from
count old text = count_from old 0 text

-- `text.replace(old, new, 1)`
unfoldable pub replace_once : Str → Str → Str → Str
unfolding starts_with
replace_once old new [] = []
replace_once old new (c ∷ text) =
    let rest = replace_once old new text in
    if starts_with (c ∷ text) old then new ++ drop (length old) (c ∷ text) else c ∷ rest

abbrev pub truncated : Str
truncated = 10 ∷ codes "... [truncated]"

-- `read_text`, from the decoded text on.
unfoldable pub shortened : ℕ → Str → Str
unfolding take
shortened max_chars text =
    if ltb max_chars (length text) then take max_chars text ++ truncated else text

-- The candidate case, and the files that change.
pub record Edit : Type 0 where
  pub effective : Dict Str Str
  pub changed : Dict Str Str
  pub failures : List DeltaFailure

-- What reading files takes from outside: which reads raise `OSError`, and UTF-8 decoding.
pub record Reading : Type 0 where
  pub unreadable : Str → Bool
  pub decode : List ℕ → Str

abbrev Seen : Type 0
Seen = Dict Str Str × List DeltaFailure

module _ (setup : Setup) (reading : Reading) (w : Workspace) where
  -- What one committed file adds to the view.
  abbrev add_committed : Str → Option File → Seen → Seen
  add_committed path none (effective, failures) =
      (effective, failures ++ unreadable_committed path ∷ [])
  add_committed path (some file) (effective, failures) =
      if reading.unreadable path then (effective, failures ++ unreadable_committed path ∷ []) else (
        put path (shortened (setup.max_file_bytes + 1) (reading.decode file.bytes)) effective,
        failures,
      )

  unfoldable pub read_committed : Seen → List Str → Result WorkspaceError Seen
  unfolding resolve_case_path put list_beq shortened
  read_committed seen [] = ok seen
  read_committed seen (path ∷ paths) = do
    key ← resolve_case_path setup.is_symlink path
    read_committed (add_committed path (w.files key) seen) paths

  abbrev add_required : Str → Option File → Seen → Seen
  add_required path none seen = seen
  add_required path (some file) (effective, failures) =
      if reading.unreadable path
      then (effective, failures ++ unreadable_required path ∷ [])
      else (put path (reading.decode file.bytes) effective, failures)

  unfoldable pub read_required : Seen → List Str → Result WorkspaceError Seen
  unfolding resolve_case_path put contains list_beq
  read_required seen [] = ok seen
  read_required seen (path ∷ paths) =
      if contains (keys seen.0) path then read_required seen paths else (do
        key ← resolve_case_path setup.is_symlink path
        read_required (add_required path (w.files key) seen) paths)

  -- The effective view before the delta.
  unfoldable pub committed_view : List Str → Result WorkspaceError Seen
  unfolding list_authored read_committed read_required
  committed_view required = do
    authored ← list_authored setup w
    seen ← read_committed ([], []) authored
    read_required seen required

-- One replacement, from what is changed at its path already.
abbrev pub replace_one :
    Dict Str Str × List DeltaFailure → Str → Str → Option Str → Dict Str Str × List DeltaFailure
replace_one (changed, failures) path content none = (put path content changed, failures)
replace_one (changed, failures) path content (some other) =
    if other == content
    then (put path content changed, failures)
    else (changed, failures ++ conflicting_replacement path ∷ [])

-- The loop over `replacements`.
unfoldable pub apply_replacements :
    Dict Str Str × List DeltaFailure → List (Str × Str) → Dict Str Str × List DeltaFailure
unfolding find put list_beq
apply_replacements state [] = state
apply_replacements state ((path, content) ∷ rest) =
    apply_replacements (replace_one state path content (find path state.0)) rest

abbrev pub failed : Edit → DeltaFailure → Edit
failed edit failure = record edit { failures = edit.failures ++ failure ∷ [] }

abbrev pub patched : Edit → Str → Str → Edit
patched edit path text = record edit {
  effective = put path text edit.effective;
  changed = put path text edit.changed;
}

-- A patch of a file whose text is there.
unfoldable pub patch_text : Edit → Str → Str → Str → Str → Edit
unfolding count replace_once put list_beq ends_with
patch_text edit path current old new =
    if ends_with current truncated
    then failed edit (target_too_large path)
    else if is_empty old
    then failed edit (empty_old_text path)
    else if count old current == 1
    then patched edit path (replace_once old new current)
    else failed edit (match_count path (count old current))

unfoldable pub patch_found : Edit → Str → Str → Str → Option Str → Edit
unfolding patch_text
patch_found edit path old new none = failed edit (target_absent path)
patch_found edit path old new (some current) = patch_text edit path current old new

-- The body of the loop over `patches`.
unfoldable pub apply_patch : List Str → List Str → Edit → Str × (Str × Str) → Edit
unfolding patch_found find contains list_beq
apply_patch replaced drops edit (path, (old, new)) =
    if contains replaced path
    then failed edit (patch_and_replace path)
    else if contains drops path
    then failed edit (patch_and_drop path)
    else patch_found edit path old new (find path edit.effective)

unfoldable pub apply_patches : List Str → List Str → Edit → List (Str × (Str × Str)) → Edit
unfolding apply_patch
apply_patches replaced drops edit [] = edit
apply_patches replaced drops edit (patch ∷ patches) =
    apply_patches replaced drops (apply_patch replaced drops edit patch) patches

-- The body of the loop over `drops`.
abbrev pub drop_one : Edit → Str → Edit
drop_one edit path = record edit {
  effective = pop path edit.effective;
  failures =
      if contains (keys edit.changed) path
      then edit.failures ++ replace_and_drop path ∷ []
      else edit.failures;
}

unfoldable pub apply_drops : Edit → List Str → Edit
unfolding pop contains list_beq
apply_drops edit [] = edit
apply_drops edit (path ∷ paths) = apply_drops (drop_one edit path) paths

-- `for path, content in changed.items(): effective[path] = content`
unfoldable pub put_all : Dict Str Str → Dict Str Str → Dict Str Str
unfolding put list_beq
put_all effective [] = effective
put_all effective ((path, content) ∷ rest) = put_all (put path content effective) rest

-- What the compiler reads of a repair.
pub record Delta : Type 0 where
  pub patches : List (Str × (Str × Str))
  pub replacements : List (Str × Str)
  pub drop_paths : List Str

-- The requested drops that name a file.
unfoldable pub active_drops : Dict Str Str → List Str → List Str
unfolding filter contains list_beq dedupe
active_drops view drop_paths = filter (λ path. contains (keys view) path) (dedupe drop_paths)

unfoldable pub drop_warnings : Dict Str Str → List Str → List DeltaWarning
unfolding filter contains list_beq dedupe
drop_warnings view drop_paths =
    map stale_drop (filter (λ path. not (contains (keys view) path)) (dedupe drop_paths))

-- The edits of a view, in the order of the code.
unfoldable pub edit_view : Dict Str Str × List DeltaFailure → Delta → Edit
unfolding active_drops apply_replacements apply_patches apply_drops put_all
edit_view (view, failures) delta =
    let drops = active_drops view delta.drop_paths in
    let (changed, replacing) = apply_replacements ([], failures) delta.replacements in
    let start : Edit = record { effective = view; changed = changed; failures = replacing } in
    let patched = apply_patches (keys changed) drops start delta.patches in
    let dropped = apply_drops patched drops in
    record dropped { effective = put_all dropped.effective dropped.changed }
