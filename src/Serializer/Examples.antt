-- ===== src/Serializer/Examples.antt =====
-- A field with a redundant block marker, its tree and its lines.
use open_foam_agent.Prelude.{
  Str, codes, true, not, ◌||◌, List, [], ◌∷◌, map, nat_eq, list_eq, ◌≡◌, ◌↔◌, refl, all, distinct,
  ok, err,
}
use open_foam_agent.Prelude.Dict.{keys, find}
use open_foam_agent.Serializer.{
  Mapping, scalar, block, empty, entry, FoamDictionaryEntry, duplicate_path, parted, is_parent,
  is_structural, descendant_parents, tree_of, body_lines,
}
use open_foam_agent.Serializer.Tree.{text_at, leaves, tree_of_lem}
use open_foam_agent.Serializer.Leaves.{tree_of-returns_iff}

abbrev item : Str → Str → FoamDictionaryEntry
item path value = record { path = path; value = value }

abbrev field : List FoamDictionaryEntry
field =
    item (codes "boundaryField") (codes " { } ")
    ∷ item (codes "boundaryField.inlet.type") (codes "fixedValue")
    ∷ item (codes "boundaryField.inlet.value") (codes "uniform 0;")
    ∷ []

abbrev inlet : Mapping
inlet =
    entry (codes "type") (scalar (codes "fixedValue"))
      (entry (codes "value") (scalar (codes "uniform 0;")) empty)

abbrev field_tree : Mapping
field_tree = entry (codes "boundaryField") (block (entry (codes "inlet") (block inlet) empty)) empty

tree_test : tree_of field ≡ ok field_tree
unfolding tree_of
tree_test = refl

lines_test :
    body_lines field
    ≡ ok (
        codes "boundaryField"
        ∷ codes "{"
        ∷ codes "    inlet"
        ∷ codes "    {"
        ∷ codes "        type fixedValue;"
        ∷ codes "        value uniform 0;"
        ∷ codes "    }"
        ∷ codes "}"
        ∷ [])
unfolding body_lines
lines_test = refl

-- A value that is only a semicolon is not refused as empty.
lone_semicolon_test :
    body_lines (item (codes "application") (codes ";") ∷ []) ≡ ok (codes "application ;" ∷ [])
unfolding body_lines
lone_semicolon_test = refl

duplicate_test :
    tree_of (item (codes "a.b") (codes "1") ∷ item (codes "a.b") (codes "2") ∷ [])
    ≡ err (duplicate_path (codes "a" ∷ codes "b" ∷ []))
unfolding tree_of
duplicate_test = refl

tree_of_lem_example :
    (distinct (keys (map parted (leaves field))) ≡ true)
    × (all (λ i. not (is_parent (descendant_parents field) i) || is_structural i.value) field
        ≡ true)
    × ((path : List Str) → text_at path field_tree ≡ find path (map parted (leaves field)))
tree_of_lem_example = tree_of_lem field tree_test

tree_of-returns_iff_example : ((root : Mapping) × (tree_of field ≡ ok root)) ↔ (
    (distinct (keys (map parted (leaves field))) ≡ true)
    × (all (λ i. not (is_parent (descendant_parents field) i) || is_structural i.value) field
        ≡ true))
tree_of-returns_iff_example = tree_of-returns_iff field
