-- ===== src/Prelude/Text.antt =====
-- Python's `str` as the list of its code points, and the operations of `str` and
-- `pathlib.PurePosixPath` that the program calls.
use Prim.Native.Nat.{ℕ, zero, suc, ◌+◌, ◌-◌}
use Prim.Native.Char.{code}
use Prim.Native.String.{String}
use mathlib.Core.Path.{◌≡◌, refl}
use mathlib.Core.Bool.{Bool, true, false, ◌&&◌, ◌||◌}
use mathlib.Core.List.{List, [], ◌∷◌, ◌++◌, map, reverse}
use mathlib.Core.Option.{Option, none, some}
use open_foam_agent.Prelude.Tests.{if◌then◌else◌, leb}
use open_foam_agent.Prelude.Equality.{◌==◌, nat_eq, list_eq, list_beq}
use open_foam_agent.Prelude.Lists.{length, filter}

abbrev pub Str : Type 0
Str = List ℕ

abbrev pub codes : String → Str
codes String.[] = []
codes (String.◌∷◌ c s) = code c ∷ codes s

-- `text.startswith(prefix)`
unfoldable pub starts_with : Str → Str → Bool
starts_with text [] = true
starts_with [] (p ∷ prefix) = false
starts_with (c ∷ text) (p ∷ prefix) = (c == p) && starts_with text prefix

-- `text.endswith(suffix)`
unfoldable pub ends_with : Str → Str → Bool
unfolding starts_with
ends_with text suffix = starts_with (reverse text) (reverse suffix)

-- `text.replace(old, new)` for a nonempty `old`: `skip` counts what is left of a match.
unfoldable pub replace_from : Str → Str → ℕ → Str → Str
unfolding starts_with
replace_from old new skip [] = []
replace_from old new (suc skip) (c ∷ text) = replace_from old new skip text
replace_from old new zero (c ∷ text) =
    let found = starts_with (c ∷ text) old in
    let rest = replace_from old new (if found then length old - 1 else 0) text in
    if found then new ++ rest else c ∷ rest

unfoldable pub replace : Str → Str → Str → Str
unfolding replace_from
replace old new text = replace_from old new 0 text

unfoldable pub split_slash_from : Str → Str → List Str
split_slash_from piece [] = reverse piece ∷ []
split_slash_from piece (c ∷ text) =
    let sep = c == b'/' in
    let rest = split_slash_from (if sep then [] else c ∷ piece) text in
    if sep then reverse piece ∷ rest else rest

-- `text.split("/")`
unfoldable pub split_slash : Str → List Str
unfolding split_slash_from
split_slash text = split_slash_from [] text

unfoldable pub join_slash : List Str → Str
join_slash [] = []
join_slash (p ∷ []) = p
join_slash (p ∷ q ∷ ps) = p ++ (b'/' ∷ join_slash (q ∷ ps))

-- The components of a `PurePosixPath`, its root apart: no empty one and no `.`.
unfoldable pub components : Str → List Str
unfolding split_slash filter list_beq
components text =
    filter (λ p. if p == [] then false else if p == b'.' ∷ [] then false else true)
      (split_slash text)

-- The root: two slashes stay two, one or more than two are one.
unfoldable pub root : Str → Str
unfolding starts_with
root text =
    if starts_with text (codes "///")
    then codes "/"
    else if starts_with text (codes "//")
    then codes "//"
    else if starts_with text (codes "/")
    then codes "/"
    else []

-- `str(PurePosixPath(text))`
unfoldable pub posix : Str → Str
unfolding components root join_slash list_beq
posix text =
    let body = root text ++ join_slash (components text) in if body == [] then codes "." else body

-- `text.rstrip("/")`
unfoldable pub strip_front_slash : Str → Str
strip_front_slash [] = []
strip_front_slash (c ∷ text) =
    let rest = strip_front_slash text in if c == b'/' then rest else c ∷ text

unfoldable pub rstrip_slash : Str → Str
unfolding strip_front_slash
rstrip_slash text = reverse (strip_front_slash (reverse text))

-- The last component, `PurePosixPath(text).name`.
unfoldable pub path_name : Str → Str
unfolding components
path_name text = elim (reverse (components text)) [ [] ↦ [] | p ∷ ps ↦ p ]

-- What stands from the last dot on; `none` without a dot.
unfoldable pub rfind_dot : Str → Option Str
rfind_dot [] = none
rfind_dot (c ∷ text) = elim (rfind_dot text) [
  | some s ↦ some s
  | none ↦ if c == b'.' then some (c ∷ text) else none
]

-- `Path(text).suffix`: no suffix for a leading or a trailing dot.
unfoldable pub suffix : Str → Str
unfolding path_name rfind_dot
suffix text =
    let name = path_name text in
    elim (rfind_dot name) [
      | none ↦ []
      | some s ↦ if (length s == length name) || (length s == 1) then [] else s
    ]

-- `text.lower()` on ASCII.
unfoldable pub lower : Str → Str
lower text = map (λ c. if leb b'A' c && leb c b'Z' then c + 32 else c) text

-- `ch.isspace()`
unfoldable pub is_space : ℕ → Bool
is_space c =
    (leb 9 c && leb c 13)
    || ((leb 28 c && leb c 32)
        || ((c == 133)
            || ((c == 160)
                || ((c == 5760)
                    || ((leb 8192 c && leb c 8202)
                        || ((leb 8232 c && leb c 8233)
                            || ((c == 8239) || ((c == 8287) || (c == 12288)))))))))

posix_test : posix (codes "./0//U/./a/") ≡ codes "0/U/a"
unfolding posix
posix_test = refl

replace_test : replace (codes "{x}") (codes "ab") (codes "{x}/{x}{") ≡ codes "ab/ab{"
unfolding replace
replace_test = refl

suffix_test : lower (suffix (codes "constant/triSurface/Body.STL")) ≡ codes ".stl"
unfolding suffix lower
suffix_test = refl

-- `part in text`
unfoldable pub has_part : Str → Str → Bool
unfolding starts_with list_beq
has_part part [] = part == []
has_part part (c ∷ text) = starts_with (c ∷ text) part || has_part part text
