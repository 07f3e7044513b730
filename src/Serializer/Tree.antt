-- ===== src/Serializer/Tree.antt =====
-- The tree of a typed dictionary holds its entries.
use open_foam_agent.Prelude.{
  if_taken, if_passed, Str, Bool, true, false, not, ◌&&◌, ◌||◌, Option, none, some, List, [], ◌∷◌,
  ◌++◌, map, ◌==◌, nat_eq, list_eq, list_beq, eq_iff, eq_refl, ◌≡◌, refl, sym, ap, ◌∙◌, arith,
  Bool-cases, inl, inr, if◌then◌else◌, contains, filter, distinct, all, ok_injective, Result, ok,
  >>=-eq-ok,
}
use open_foam_agent.Prelude.Dict.{or_else, Dict, keys, find, find-of_absent}
use open_foam_agent.Serializer.{
  Value, Mapping, scalar, block, empty, entry, FoamDictionaryEntry, FoamSerializationError,
  value_at, changed_at, inserted, insert, insert_all, parted, is_parent, is_structural,
  descendant_parents, split_dot, split_dot_from, without_markers, normalize_entries, tree_of,
}

-- The text at a path.
unfoldable pub text_in : List Str → Option Value → Option Str
unfolding value_at
text_in path none = none
text_in [] (some (scalar text)) = some text
text_in [] (some (block child)) = none
text_in (part ∷ parts) (some (scalar text)) = none
text_in (part ∷ parts) (some (block child)) = text_in parts (value_at part child)

abbrev pub text_at : List Str → Mapping → Option Str
text_at path root = text_in path (some (block root))

pub changed_at-ok :
    (key : Str) (change : Option Value → Result FoamSerializationError Value) (m : Mapping)
    {m' : Mapping}
    → changed_at key change m ≡ ok m'
    → (new : Value) × (change (value_at key m) ≡ ok new)
      × ((other : Str) → value_at other m' ≡ (if other == key then some new else value_at other m))
unfolding changed_at value_at
changed_at-ok key change empty h =
    let (new, made, h1) = >>=-eq-ok (change none) _ h in
    (new, made, λ other. ap (value_at other) (sym (ok_injective h1)))
changed_at-ok key change (entry k value rest) {m'} h = elim (Bool-cases (key == k)) [
  | inl same ↦
      let (new, made, h1) = >>=-eq-ok (change (some value)) _ (rw same at h) in
      (
        new,
        rw same made,
        λ other. ap (value_at other) (sym (ok_injective h1)) ∙ ground (arith, eq_iff key k, same),
      )
  | inr away ↦
      let (changed, later, h1) = >>=-eq-ok (changed_at key change rest) _ (rw away at h) in
      let (new, made, found) = changed_at-ok key change rest later in
      (
        new,
        rw away made,
        λ other.
            ap (value_at other) (sym (ok_injective h1))
            ∙ ground (arith, found other, away, eq_iff other key, eq_iff other k, eq_iff key k),
      )
]

-- What an insertion below a dictionary leaves, by what it leaves below its first part.
module _ (path : List Str) (part : Str) (parts : List Str) (text : Str)
    (below : (old : Option Value) (new : Value)
      → inserted path parts text old ≡ ok new
      → (text_in parts old ≡ none)
        × ((other : List Str)
            → text_in other (some new)
              ≡ (if other == parts then some text else text_in other old))) where
  text_at-changed_at :
      (child : Mapping) {m : Mapping}
      → changed_at part (inserted path parts text) child ≡ ok m
      → (text_at (part ∷ parts) child ≡ none)
        × ((other : List Str)
            → text_at other m ≡ (if other == part ∷ parts then some text else text_at other child))
  unfolding text_in list_beq
  text_at-changed_at child {m} h =
      let (new, made, found) = changed_at-ok part (inserted path parts text) child h in
      let (fresh, left) = below (value_at part child) new made in
      (fresh, λ other. at_path new found left other)
    where
      at_path :
          (new : Value)
          → ((other : Str)
              → value_at other m ≡ (if other == part then some new else value_at other child))
          → ((other : List Str)
              → text_in other (some new)
                ≡ (if other == parts then some text else text_in other (value_at part child)))
          → (other : List Str)
          → text_at other m ≡ (if other == part ∷ parts then some text else text_at other child)
      at_path new found left [] = refl
      at_path new found left (p ∷ ps) = elim (Bool-cases (p == part)) [
        | inl same ↦
            let e = (eq_iff p part).0 same in
            let here : value_at p m ≡ some new =
              found p ∙ if_taken (some new) (value_at p child) same in
            ap (text_in ps) here
            ∙ left ps
            ∙ ap (λ k. if ps == parts then some text else text_in ps (value_at k child)) (sym e)
            ∙ both (ps == parts) _ same
        | inr away ↦
            ap (text_in ps) (found p ∙ if_passed (some new) (value_at p child) away)
            ∙ neither (ps == parts) _ away
      ]
        where
          both :
              {b : Bool} (c : Bool) (old : Option Str)
              → b ≡ true
              → (if c then some text else old) ≡ (if b && c then some text else old)
          both c old b = rw b refl

          neither :
              {b : Bool} (c : Bool) (old : Option Str)
              → b ≡ false
              → old ≡ (if b && c then some text else old)
          neither c old b = rw b refl

-- What is inserted is new, and nothing else changes.
inserted-ok :
    (path parts : List Str) (text : Str) (old : Option Value) (new : Value)
    → inserted path parts text old ≡ ok new
    → (text_in parts old ≡ none)
      × ((other : List Str)
          → text_in other (some new) ≡ (if other == parts then some text else text_in other old))
unfolding inserted text_in list_beq
inserted-ok path [] text none new h =
    (refl, λ other. ap (λ v. text_in other (some v)) (sym (ok_injective h)) ∙ leaf other)
  where
    leaf :
        (other : List Str)
        → text_in other (some (scalar text)) ≡ (if other == [] then some text else none)
    leaf [] = refl
    leaf (p ∷ ps) = refl
inserted-ok path [] text (some old) new h = cc
inserted-ok path (part ∷ parts) text none new h =
    let (m, made, h1) = >>=-eq-ok (changed_at part (inserted path parts text) empty) _ h in
    let (fresh, left) =
      text_at-changed_at path part parts text (inserted-ok path parts text) empty made in
    (
      refl,
      λ other.
          ap (λ v. text_in other (some v)) (sym (ok_injective h1)) ∙ left other ∙ nothing other,
    )
  where
    nothing :
        (other : List Str)
        → (if other == part ∷ parts then some text else text_at other empty)
          ≡ (if other == part ∷ parts then some text else none)
    nothing [] = refl
    nothing (p ∷ ps) = refl
inserted-ok path (part ∷ parts) text (some (scalar old)) new h = cc
inserted-ok path (part ∷ parts) text (some (block child)) new h =
    let (m, made, h1) = >>=-eq-ok (changed_at part (inserted path parts text) child) _ h in
    let (fresh, left) =
      text_at-changed_at path part parts text (inserted-ok path parts text) child made in
    (fresh, λ other. ap (λ v. text_in other (some v)) (sym (ok_injective h1)) ∙ left other)

abbrev pub is_filled : List Str × Str → Bool
is_filled ([], text) = false
is_filled (part ∷ parts, text) = true

insert-ok :
    (root : Mapping) (item : List Str × Str) {m : Mapping}
    → is_filled item ≡ true
    → insert root item ≡ ok m
    → (text_at item.0 root ≡ none)
      × ((other : List Str)
          → text_at other m ≡ (if other == item.0 then some item.1 else text_at other root))
unfolding insert
insert-ok root ([], text) filled h = cc
insert-ok root (part ∷ parts, text) filled h =
    text_at-changed_at (part ∷ parts) part parts text (inserted-ok (part ∷ parts) parts text) root h

-- After all insertions the paths were different and new, and each has its text.
insert_all-ok :
    (root : Mapping) (items : Dict (List Str) Str) {m : Mapping}
    → all is_filled items ≡ true
    → insert_all root items ≡ ok m
    → (distinct (keys items) ≡ true)
      × ((path : List Str) → contains (keys items) path ≡ true → text_at path root ≡ none)
      × ((path : List Str) → text_at path m ≡ or_else (find path items) (text_at path root))
unfolding insert_all all distinct contains find
insert_all-ok root [] {m} filled h =
    (refl, λ path listed. cc, λ path. ap (text_at path) (sym (ok_injective h)))
insert_all-ok root ((p, v) ∷ items) {m} filled h =
    let (m1, added, later) = >>=-eq-ok (insert root (p, v)) _ h in
    let (fresh, left) = insert-ok root (p, v) (ground arith) added in
    let (apart, unused, found) = insert_all-ok m1 items (ground arith) later in
    let single : contains (keys items) p ≡ false = elim (Bool-cases (contains (keys items) p)) [
      | inr single ↦ single
      | inl again ↦
          absurd (cc (unused p again, left p, if_taken (some v) (text_at p root) (eq_refl p)))
    ] in
    (
      ground (arith, single, apart),
      λ path listed. elim (Bool-cases (path == p)) [
        | inl same ↦ ap (λ q. text_at q root) ((eq_iff path p).0 same) ∙ fresh
        | inr away ↦
            sym (left path ∙ if_passed (some v) (text_at path root) away)
            ∙ unused path (ground arith)
      ],
      λ path. elim (Bool-cases (path == p)) [
        | inl same ↦
            let absent =
              find-of_absent path items
                (ap (contains (keys items)) ((eq_iff path p).0 same) ∙ single) in
            found path
            ∙ ap (λ o. or_else o (text_at path m1)) absent
            ∙ left path
            ∙ if_taken (some v) (text_at path root) same
            ∙ ap (λ o. or_else o (text_at path root))
                (sym (if_taken (some v) (find path items) same))
        | inr away ↦
            found path
            ∙ ap (or_else (find path items))
                (left path ∙ if_passed (some v) (text_at path root) away)
            ∙ ap (λ o. or_else o (text_at path root))
                (sym (if_passed (some v) (find path items) away))
      ],
    )

pub split_dot_from-filled :
    (piece text value : Str) → is_filled (split_dot_from piece text, value) ≡ true
unfolding split_dot_from
split_dot_from-filled piece [] value = refl
split_dot_from-filled piece (c ∷ text) value = elim (Bool-cases (c == b'.')) [
  | inl dot ↦ rw dot refl
  | inr other ↦ rw other (split_dot_from-filled (piece ++ c ∷ []) text value)
]

pub parted-filled : (items : List FoamDictionaryEntry) → all is_filled (map parted items) ≡ true
unfolding all split_dot
parted-filled [] = refl
parted-filled (item ∷ items) =
    ground (arith, split_dot_from-filled [] item.path item.value, parted-filled items)

-- The entries that are no parent are kept, and the others are markers.
pub without_markers-ok :
    (parents : List (List Str)) (items : List FoamDictionaryEntry) {kept : List FoamDictionaryEntry}
    → without_markers parents items ≡ ok kept
    → (kept ≡ filter (λ item. not (is_parent parents item)) items)
      × (all (λ item. not (is_parent parents item) || is_structural item.value) items ≡ true)
unfolding without_markers filter all
without_markers-ok parents [] h = (sym (ok_injective h), refl)
without_markers-ok parents (item ∷ items) {kept} h = elim (Bool-cases (is_parent parents item)) [
  | inr leaf ↦
      let (rest, read, h1) = >>=-eq-ok (without_markers parents items) _ (rw leaf at h) in
      let (same, marked) = without_markers-ok parents items read in
      (rw leaf (sym (ok_injective h1) ∙ ap (λ found. item ∷ found) same), rw leaf marked)
  | inl parent ↦ elim (Bool-cases (is_structural item.value)) [
    | inl marker ↦
        let (same, marked) = without_markers-ok parents items (rw (parent, marker) at h) in
        (rw parent same, rw (parent, marker) marked)
    | inr content ↦ absurd (cc (rw (parent, content) at h))
  ]
]

-- The entries whose paths are above no other entry's.
abbrev pub leaves : List FoamDictionaryEntry → List FoamDictionaryEntry
leaves items = filter (λ item. not (is_parent (descendant_parents items) item)) items

-- A tree that is returned holds, at each path, the text of the entry with that path among those
-- whose paths are above no other one's; no two of these have the same path, and each other entry is
-- only a marker of a block.
pub tree_of_lem :
    (items : List FoamDictionaryEntry) {root : Mapping}
    → tree_of items ≡ ok root
    → (distinct (keys (map parted (leaves items))) ≡ true)
      × (all
            (λ item. not (is_parent (descendant_parents items) item) || is_structural item.value)
            items
          ≡ true)
      × ((path : List Str) → text_at path root ≡ find path (map parted (leaves items)))
unfolding tree_of normalize_entries text_in
tree_of_lem items {root} h =
    let (kept, normal, built) = >>=-eq-ok (normalize_entries items) _ h in
    let (same, marked) = without_markers-ok (descendant_parents items) items normal in
    let (apart, unused, found) = insert_all-ok empty (map parted kept) (parted-filled kept) built in
    (
      ap (λ (k : List FoamDictionaryEntry). distinct (keys (map parted k))) (sym same) ∙ apart,
      marked,
      λ path.
          found path
          ∙ bare path (find path (map parted kept))
          ∙ ap (λ (k : List FoamDictionaryEntry). find path (map parted k)) same,
    )
  where
    bare : (path : List Str) (o : Option Str) → or_else o (text_at path empty) ≡ o
    bare path (some text) = refl
    bare [] none = refl
    bare (part ∷ parts) none = refl
