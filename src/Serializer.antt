-- ===== src/Serializer.antt =====
-- `_normalize_entries`, `_insert`, `_render_mapping` and the body of `serialize_foam_dictionary`
-- (tools/foam_serializer.py). The header of the file (tools/foam_file.py) is not part of it.
pub mod Tree
pub mod Total
pub mod Leaves
pub mod Examples
use open_foam_agent.Prelude.{
  is_empty, ℕ, zero, suc, ◌+◌, Str, codes, Bool, true, false, not, ◌&&◌, Option, none, some, List,
  [], ◌∷◌, ◌++◌, map, ◌==◌, nat_eq, list_eq, list_beq, if◌then◌else◌, contains, filter, lower,
  is_space, ends_with, drop, Result, ok, err, raise_if, ◌>>=◌, ◌>>◌,
}
use open_foam_agent.Prelude.Dict.{Dict}

-- A nested `OrderedDict`: a value is a text or a dictionary.
mutual
  pub data Value : Type 0 where
    scalar : Str → Value
    block : Mapping → Value

  pub data Mapping : Type 0 where
    empty : Mapping
    entry : Str → Value → Mapping → Mapping

pub record FoamDictionaryEntry : Type 0 where
  pub path : Str
  pub value : Str

-- A message is a constructor; the example of a leaf path in the first is left out.
pub data FoamSerializationError : Type 0 where
  scalar_and_block collides_with_scalar empty_value : Str → FoamSerializationError
  duplicate_path : List Str → FoamSerializationError

-- `text.split(".")`
unfoldable pub split_dot_from : Str → Str → List Str
split_dot_from piece [] = piece ∷ []
split_dot_from piece (c ∷ text) =
    let dot = c == b'.' in
    let rest = split_dot_from (if dot then [] else piece ++ c ∷ []) text in
    if dot then piece ∷ rest else rest

unfoldable pub split_dot : Str → List Str
unfolding split_dot_from
split_dot text = split_dot_from [] text

-- `text.strip()`
unfoldable pub left_stripped : Str → Str
unfolding is_space
left_stripped [] = []
left_stripped (c ∷ text) = let rest = left_stripped text in if is_space c then rest else c ∷ text

unfoldable pub right_stripped : Str → Str
unfolding is_space
right_stripped [] = []
right_stripped (c ∷ text) =
    let rest = right_stripped text in if is_empty rest && is_space c then [] else c ∷ rest

unfoldable pub stripped : Str → Str
unfolding left_stripped right_stripped
stripped text = right_stripped (left_stripped text)

-- `text.split()`
abbrev word_of : Str → List Str
word_of [] = []
word_of (c ∷ piece) = (c ∷ piece) ∷ []

unfoldable pub words_from : Str → Str → List Str
unfolding is_space
words_from piece [] = word_of piece
words_from piece (c ∷ text) =
    let rest = words_from (if is_space c then [] else piece ++ c ∷ []) text in
    if is_space c then word_of piece ++ rest else rest

abbrev join_space : List Str → Str
join_space [] = []
join_space (word ∷ []) = word
join_space (word ∷ next ∷ rest) = word ++ (b' ' ∷ join_space (next ∷ rest))

abbrev markers : List Str
markers = codes "{}" ∷ codes "{ }" ∷ codes "block" ∷ codes "dictionary" ∷ []

-- Whether a value only says that its path is a block. The marker with a newline is never met; the
-- lower case is that of ASCII, where Python also lowers the Kelvin sign to a k.
unfoldable pub is_structural : Str → Bool
unfolding stripped lower words_from contains list_beq
is_structural value = contains markers (join_space (words_from [] (lower (stripped value))))

-- `parts[:1]`, `parts[:2]` and so on, the whole apart.
unfoldable pub proper_prefixes : List Str → List (List Str)
proper_prefixes [] = []
proper_prefixes (part ∷ []) = []
proper_prefixes (part ∷ next ∷ parts) =
    (part ∷ []) ∷ map (λ prefix. part ∷ prefix) (proper_prefixes (next ∷ parts))

-- `descendant_parents`; a path is the list of its parts.
unfoldable pub descendant_parents : List FoamDictionaryEntry → List (List Str)
unfolding split_dot proper_prefixes
descendant_parents [] = []
descendant_parents (item ∷ items) =
    proper_prefixes (split_dot item.path) ++ descendant_parents items

unfoldable pub is_parent : List (List Str) → FoamDictionaryEntry → Bool
unfolding contains split_dot list_beq
is_parent parents item = contains parents (split_dot item.path)

-- The second loop of `_normalize_entries`.
unfoldable pub without_markers :
    List (List Str)
    → List FoamDictionaryEntry
    → Result FoamSerializationError (List FoamDictionaryEntry)
unfolding is_parent is_structural
without_markers parents [] = ok []
without_markers parents (item ∷ items) =
    let rest = without_markers parents items in
    if not (is_parent parents item)
    then (do kept ← rest; ok (item ∷ kept))
    else if is_structural item.value
    then rest
    else err (scalar_and_block item.path)

unfoldable pub normalize_entries :
    List FoamDictionaryEntry → Result FoamSerializationError (List FoamDictionaryEntry)
unfolding without_markers descendant_parents
normalize_entries items = without_markers (descendant_parents items) items

-- `current.get(key)`
unfoldable pub value_at : Str → Mapping → Option Value
unfolding list_beq
value_at key empty = none
value_at key (entry k value rest) =
    let later = value_at key rest in if key == k then some value else later

-- A mapping with the value at a key replaced by what is made of it, at the end if it is new.
unfoldable pub changed_at :
    Str
    → (Option Value → Result FoamSerializationError Value)
    → Mapping
    → Result FoamSerializationError Mapping
unfolding list_beq
changed_at key change empty = do value ← change none; ok (entry key value empty)
changed_at key change (entry k value rest) =
    let later = changed_at key change rest in
    if key == k
    then (do new ← change (some value); ok (entry k new rest))
    else (do changed ← later; ok (entry k value changed))

-- What `_insert` makes of what stands at a component, with the components that are left; `path` is
-- the whole path.
unfoldable pub inserted :
    List Str → List Str → Str → Option Value → Result FoamSerializationError Value
unfolding changed_at
inserted path [] text none = ok (scalar text)
inserted path [] text (some old) = err (duplicate_path path)
inserted path (part ∷ parts) text none = do
  child ← changed_at part (inserted path parts text) empty
  ok (block child)
inserted path (part ∷ parts) text (some (scalar old)) = err (collides_with_scalar part)
inserted path (part ∷ parts) text (some (block child)) = do
  changed ← changed_at part (inserted path parts text) child
  ok (block changed)

-- `_insert`. A path has a part.
unfoldable pub insert : Mapping → List Str × Str → Result FoamSerializationError Mapping
unfolding inserted changed_at
insert root ([], text) = ok root
insert root (part ∷ parts, text) = changed_at part (inserted (part ∷ parts) parts text) root

unfoldable pub insert_all : Mapping → Dict (List Str) Str → Result FoamSerializationError Mapping
unfolding insert
insert_all root [] = ok root
insert_all root (item ∷ items) = do changed ← insert root item; insert_all changed items

-- An entry as the parts of its path and its value.
abbrev pub parted : FoamDictionaryEntry → List Str × Str
parted item = (split_dot item.path, item.value)

-- The tree that `serialize_foam_dictionary` renders.
unfoldable pub tree_of : List FoamDictionaryEntry → Result FoamSerializationError Mapping
unfolding normalize_entries insert_all split_dot
tree_of items = do kept ← normalize_entries items; insert_all empty (map parted kept)

abbrev spaces : ℕ → Str
spaces zero = []
spaces (suc n) = b' ' ∷ spaces n

abbrev all_but_last : Str → Str
all_but_last [] = []
all_but_last (c ∷ []) = []
all_but_last (c ∷ d ∷ text) = c ∷ all_but_last (d ∷ text)

-- `rendered[:-1].rstrip()`, if it ends in a semicolon.
abbrev without_semicolon : Str → Str
without_semicolon text =
    if ends_with text (codes ";") then right_stripped (all_but_last text) else text

abbrev scalar_line : ℕ → Str → Str → Str
scalar_line indent key text =
    spaces indent ++ (key ++ (b' ' ∷ (without_semicolon text ++ codes ";")))

unfoldable mutual
  unfolding stripped right_stripped ends_with

  -- `_render_mapping`, as the lines that it appends.
  pub render_mapping : ℕ → Mapping → Result FoamSerializationError (List Str)
  render_mapping indent empty = ok []
  render_mapping indent (entry key value rest) = do
    lines ← render_value indent key value
    later ← render_mapping indent rest
    ok (lines ++ later)

  pub render_value : ℕ → Str → Value → Result FoamSerializationError (List Str)
  render_value indent key (block child) = do
    lines ← render_mapping (indent + 4) child
    ok (
        (spaces indent ++ key)
        ∷ (spaces indent ++ codes "{")
        ∷ (lines ++ (spaces indent ++ codes "}") ∷ []))
  render_value indent key (scalar text) = do
    raise_if (is_empty (stripped text)) (empty_value key)
    ok (scalar_line indent key (stripped text) ∷ [])

-- The lines of the body.
unfoldable pub body_lines : List FoamDictionaryEntry → Result FoamSerializationError (List Str)
unfolding tree_of render_mapping
body_lines items = do root ← tree_of items; render_mapping 0 root
