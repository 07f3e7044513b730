-- ===== src/Workspace/Paths.antt =====
-- The path rules of `CaseWorkspace` (tools/workspace.py). A resolved path is the list of its names
-- below the workspace's root; `is_symlink` is what the file system answers. With no symbolic link
-- on the way `Path.resolve` only takes out `..`.
pub mod Confined
use open_foam_agent.Prelude.{
  is_nonempty, ℕ, zero, suc, ◌+◌, Str, codes, Bool, true, false, not, ◌&&◌, ◌||◌, Option, none,
  some, List, [], ◌∷◌, ◌++◌, map, ◌==◌, nat_eq, list_eq, list_beq, if◌then◌else◌, leb, contains,
  any, all, components, strip_front_slash, rstrip_slash, Result, ok, err, raise_if, ◌>>=◌, ◌>>◌,
  starts_with, suffix, lower, last?, take, drop, length,
}
use open_foam_agent.Workspace.Errors.{
  WorkspaceError, backslash_in_path, unsafe_path, unsafe_result_path, outside_output_roots,
  symlink_component, escapes_sandbox, file_not_found,
}

-- A path below the root, as its names.
abbrev pub Key : Type 0
Key = List Str

abbrev pub writable_top_level : List Str
writable_top_level = map codes ("0" ∷ "constant" ∷ "system" ∷ "postprocessConfig" ∷ [])

-- `text.strip("/")`
unfoldable pub strip_slashes : Str → Str
unfolding strip_front_slash rstrip_slash
strip_slashes text = rstrip_slash (strip_front_slash text)

-- `_normalized`
unfoldable pub normalized : Str → Result WorkspaceError Str
unfolding strip_slashes contains
normalized text = do raise_if (contains text b'\\') backslash_in_path; ok (strip_slashes text)

unfoldable pub is_digit : ℕ → Bool
is_digit c = leb b'0' c && leb c b'9'

unfoldable pub is_safe_char : ℕ → Bool
unfolding is_digit
is_safe_char c =
    (leb b'A' c && leb c b'Z')
    || ((leb b'a' c && leb c b'z') || (is_digit c || ((c == b'_') || ((c == b'.') || (c == b'-')))))

abbrev dot : Str
dot = b'.' ∷ []

abbrev pub dots : Str
dots = b'.' ∷ b'.' ∷ []

-- A part that neither test of the code refuses.
unfoldable pub is_safe_part : Str → Bool
unfolding is_safe_char all list_beq
is_safe_part part =
    not ((part == dot) || (part == dots)) && (is_nonempty part && all is_safe_char part)

abbrev pub is_writable : List Str → Bool
is_writable [] = false
is_writable (part ∷ parts) = contains writable_top_level part

-- `_validate_relative`. Behind `_normalized` no path is absolute.
unfoldable pub validate_relative : Str → Result WorkspaceError Key
unfolding normalized components contains list_beq all is_safe_part
validate_relative text = do
  name ← normalized text
  let parts = components name
  raise_if (not (is_writable parts && all is_safe_part parts)) (unsafe_path text)
  ok parts

-- `_TIME_DIR`: digits, or digits with a point, and an exponent.
unfoldable pub skip_digits : Str → Str
unfolding is_digit
skip_digits [] = []
skip_digits (c ∷ cs) = if is_digit c then skip_digits cs else c ∷ cs

abbrev starts_with_digit : Str → Bool
starts_with_digit [] = false
starts_with_digit (c ∷ cs) = is_digit c

abbrev all_digits : Str → Bool
all_digits text = starts_with_digit text && all is_digit text

abbrev unsigned : Str → Str
unsigned [] = []
unsigned (c ∷ cs) = if (c == b'+') || (c == b'-') then cs else c ∷ cs

abbrev is_exponent : Str → Bool
is_exponent [] = true
is_exponent (c ∷ cs) = ((c == b'e') || (c == b'E')) && all_digits (unsigned cs)

-- What may follow the integer digits.
abbrev is_fraction : Str → Bool
is_fraction [] = true
is_fraction (c ∷ cs) = if c == b'.' then is_exponent (skip_digits cs) else is_exponent (c ∷ cs)

unfoldable pub is_time_dir : Str → Bool
unfolding skip_digits is_digit all
is_time_dir [] = false
is_time_dir (c ∷ cs) =
    if is_digit c
    then is_fraction (skip_digits cs)
    else (c == b'.') && (starts_with_digit cs && is_exponent (skip_digits cs))

abbrev is_result_root : List Str → Bool
is_result_root [] = false
is_result_root (part ∷ parts) = (part == codes "postProcessing") || is_time_dir part

-- `_normalized_result`, with the parts of the path that it returns.
unfoldable pub normalized_result : Str → Result WorkspaceError Key
unfolding normalized components all is_safe_part list_beq is_time_dir
normalized_result text = do
  name ← normalized text
  let parts = components name
  raise_if (not (is_nonempty parts && all is_safe_part parts)) (unsafe_result_path text)
  raise_if (not (is_result_root parts)) (outside_output_roots text)
  ok parts

-- `Path.resolve` where no name is a symbolic link; `done` is reversed.
unfoldable pub resolve_from : Key → Key → Key
unfolding list_beq
resolve_from done [] = done
resolve_from done (part ∷ parts) =
    resolve_from (if part == dots then drop 1 done else part ∷ done) parts

abbrev pub case_name : Str
case_name = codes "case"

-- Whether the case directory is a proper ancestor of a path with reversed names.
unfoldable pub is_inside : Key → Bool
unfolding list_beq
is_inside [] = false
is_inside (p ∷ []) = false
is_inside (p ∷ q ∷ []) = q == case_name
is_inside (p ∷ q ∷ r ∷ rest) = is_inside (q ∷ r ∷ rest)

-- The path itself and the names on its way, from the case directory on.
unfoldable pub any_symlink : (Key → Bool) → Key → Key → Bool
any_symlink is_symlink way [] = is_symlink way
any_symlink is_symlink way (part ∷ parts) =
    is_symlink way || any_symlink is_symlink (way ++ part ∷ []) parts

module _ (is_symlink : Key → Bool) where
  -- What `resolve_case_path` and `resolve_result_path` share.
  unfoldable pub resolve_parts : Str → Key → Result WorkspaceError Key
  unfolding any_symlink resolve_from is_inside
  resolve_parts text parts = do
    raise_if (any_symlink is_symlink (case_name ∷ []) parts) (symlink_component text)
    raise_if (not (is_inside (resolve_from (case_name ∷ []) parts))) (escapes_sandbox text)
    ok parts

  unfoldable pub resolve_case_path : Str → Result WorkspaceError Key
  unfolding validate_relative resolve_parts
  resolve_case_path text = do parts ← validate_relative text; resolve_parts text parts

  -- `must_exist=True`
  unfoldable pub resolve_existing : (Key → Bool) → Str → Result WorkspaceError Key
  unfolding resolve_case_path
  resolve_existing is_file text = do
    parts ← resolve_case_path text
    raise_if (not (is_file parts)) (file_not_found text)
    ok parts

  unfoldable pub resolve_result_path : Str → Result WorkspaceError Key
  unfolding normalized_result resolve_parts
  resolve_result_path text = do parts ← normalized_result text; resolve_parts text parts
