-- ===== src/Serializer/Leaves.antt =====
-- When the tree of a typed dictionary is made.
use open_foam_agent.Prelude.{
  Str, true, false, not, ◌&&◌, ◌||◌, List, [], ◌∷◌, map, ◌==◌, nat_eq, list_eq, list_beq, eq_iff,
  eq_refl, ◌≡◌, ◌↔◌, ◌⊎◌, refl, sym, ap, ◌∙◌, arith, Bool-cases, inl, inr, contains,
  contains-append, filter, distinct, all, all-of_each, ok,
}
use open_foam_agent.Prelude.Dict.{Dict, keys}
use open_foam_agent.Serializer.{
  Mapping, empty, FoamDictionaryEntry, parted, is_parent, is_structural, descendant_parents,
  proper_prefixes, split_dot, without_markers, normalize_entries, tree_of,
}
use open_foam_agent.Serializer.Tree.{
  is_filled, parted-filled, split_dot_from-filled, leaves, tree_of_lem,
}
use open_foam_agent.Serializer.Total.{free, is_prefix, apart, AllFree, AllApart, insert_all-Returns}

contains-map-cons :
    (part p : Str) (ps : List Str) (xs : List (List Str))
    → contains (map (λ prefix. part ∷ prefix) xs) (p ∷ ps) ≡ ((p == part) && contains xs ps)
unfolding contains list_beq
contains-map-cons part p ps [] = ground arith
contains-map-cons part p ps (x ∷ xs) = ground (arith, contains-map-cons part p ps xs)

-- A prefix is the path, or a proper prefix.
is_prefix-cases :
    (part : Str) (parts path : List Str)
    → is_prefix (part ∷ parts) path ≡ true
    → (part ∷ parts ≡ path) ⊎ (contains (proper_prefixes path) (part ∷ parts) ≡ true)
unfolding is_prefix proper_prefixes contains list_beq
is_prefix-cases part parts [] h = cc
is_prefix-cases part [] (next ∷ []) h = inl (ap (λ p. p ∷ []) ((eq_iff part next).0 (ground arith)))
is_prefix-cases part [] (next ∷ other ∷ path) h = inr (ground arith)
is_prefix-cases part (p ∷ ps) (next ∷ []) h = absurd (ground arith)
is_prefix-cases part (p ∷ ps) (next ∷ other ∷ path) h =
    let e : part ≡ next = (eq_iff part next).0 (ground arith) in
    elim (is_prefix-cases p ps (other ∷ path) (ground arith)) [
      | inl same ↦ inl (cc (e, same))
      | inr above ↦
          let mapped = contains-map-cons next part (p ∷ ps) (proper_prefixes (other ∷ path)) in
          inr (ground (arith, mapped, above, eq_iff part next, e))
    ]

-- Paths that are not above any, where all that is above them is known.
record Lowest (parents : List (List Str)) (path : List Str) : Type 0 where
  filled : is_filled (path, []) ≡ true
  not_above : contains parents path ≡ false
  below :
      (prefix : List Str)
      → contains (proper_prefixes path) prefix ≡ true
      → contains parents prefix ≡ true

not_prefix :
    (parents : List (List Str)) (a b : List Str)
    → Lowest parents a
    → Lowest parents b
    → (a == b) ≡ false
    → is_prefix a b ≡ false
not_prefix parents [] b la lb other = absurd (cc (la.filled))
not_prefix parents (part ∷ parts) b la lb other = elim (Bool-cases (is_prefix (part ∷ parts) b)) [
  | inr away ↦ away
  | inl over ↦ elim (is_prefix-cases part parts b over) [
    | inl same ↦ absurd (cc (other, (eq_iff (part ∷ parts) b).1 same))
    | inr above ↦ absurd (cc (la.not_above, lb.below (part ∷ parts) above))
  ]
]

AllApart-of_Lowest :
    (parents : List (List Str)) (items : Dict (List Str) Str)
    → ((path : List Str) → contains (keys items) path ≡ true → Lowest parents path)
    → distinct (keys items) ≡ true
    → AllApart items
unfolding distinct contains apart
AllApart-of_Lowest parents [] lowest h = tt
AllApart-of_Lowest parents ((path, text) ∷ items) lowest h = (
  all-of_each (λ other. apart other path) (keys items) (λ other m. each other m),
  AllApart-of_Lowest parents items (λ p m. lowest p (ground arith)) (ground arith),
)
  where
    true_false : true ≡ false → ⊥
    true_false e = cc

    unlisted : contains (keys items) path ≡ false
    unlisted = ground arith

    differ : (a : List Str) → contains (keys items) a ≡ true → (a == path) ≡ false
    differ a listed = elim (Bool-cases (a == path)) [
      | inr away ↦ away
      | inl same ↦
          let e = ap (contains (keys items)) ((eq_iff a path).0 same) in
          absurd (true_false (sym listed ∙ e ∙ unlisted))
    ]

    swapped : (a b : List Str) → (a == b) ≡ false → (b == a) ≡ false
    swapped a b e = elim (Bool-cases (b == a)) [
      | inr away ↦ away
      | inl same ↦ absurd (cc (e, (eq_iff a b).1 (sym ((eq_iff b a).0 same))))
    ]

    each : (other : List Str) → contains (keys items) other ≡ true → apart other path ≡ true
    each other m =
        let here = lowest path (ground (arith, eq_refl path)) in
        let there = lowest other (ground arith) in
        let apart_1 = not_prefix parents other path there here (differ other m) in
        let apart_2 =
          not_prefix parents path other here there (swapped other path (differ other m)) in
        ground arith

AllFree-empty : (items : Dict (List Str) Str) → all is_filled items ≡ true → AllFree empty items
unfolding all free
AllFree-empty [] filled = tt
AllFree-empty (([], text) ∷ items) filled = cc
AllFree-empty ((part ∷ [], text) ∷ items) filled = (refl, AllFree-empty items filled)
AllFree-empty ((part ∷ p ∷ ps, text) ∷ items) filled = (refl, AllFree-empty items filled)

leaf_above :
    (parents : List (List Str)) (items : List FoamDictionaryEntry) (path : List Str)
    → contains (keys (map parted (filter (λ item. not (is_parent parents item)) items))) path ≡ true
    → (contains parents path ≡ false) × (contains (keys (map parted items)) path ≡ true)
unfolding contains filter is_parent
leaf_above parents [] path h = cc
leaf_above parents (item ∷ items) path h =
    elim (Bool-cases (contains parents (split_dot item.path))) [
      | inl parent ↦
          let (unlisted, there) = leaf_above parents items path (rw parent at h) in
          (unlisted, ground arith)
      | inr leaf ↦ elim (Bool-cases (path == split_dot item.path)) [
        | inl same ↦ (
          ap (contains parents) ((eq_iff path (split_dot item.path)).0 same) ∙ leaf,
          ground arith,
        )
        | inr other ↦
            let (unlisted, there) = leaf_above parents items path (tail leaf other h) in
            (unlisted, ground arith)
      ]
    ]
  where
    tail :
        contains parents (split_dot item.path) ≡ false
        → (path == split_dot item.path) ≡ false
        → contains (keys (map parted (filter (λ i. not (is_parent parents i)) (item ∷ items)))) path
          ≡ true
        → contains (keys (map parted (filter (λ i. not (is_parent parents i)) items))) path ≡ true
    tail leaf other h' = ground (arith, other, rw (leaf, filter) at h')

listed_below :
    (items : List FoamDictionaryEntry) (path prefix : List Str)
    → contains (keys (map parted items)) path ≡ true
    → contains (proper_prefixes path) prefix ≡ true
    → contains (descendant_parents items) prefix ≡ true
unfolding contains descendant_parents
listed_below [] path prefix h m = cc
listed_below (item ∷ items) path prefix h m =
    contains-append (proper_prefixes (split_dot item.path)) (descendant_parents items) prefix
    ∙ (elim (Bool-cases (path == split_dot item.path)) [
      | inl same ↦
          let e = (eq_iff path (split_dot item.path)).0 same in
          let here : contains (proper_prefixes (split_dot item.path)) prefix ≡ true =
            ap (λ p. contains (proper_prefixes p) prefix) (sym e) ∙ m in
          ground arith
      | inr other ↦ let later = listed_below items path prefix (ground arith) m in ground arith
    ])

listed_filled :
    (items : List FoamDictionaryEntry) (path : List Str)
    → contains (keys (map parted items)) path ≡ true
    → is_filled (path, []) ≡ true
unfolding contains split_dot
listed_filled [] path h = cc
listed_filled (item ∷ items) path h = elim (Bool-cases (path == split_dot item.path)) [
  | inl same ↦
      ap (λ p. is_filled (p, [])) ((eq_iff path (split_dot item.path)).0 same)
      ∙ split_dot_from-filled [] item.path []
  | inr other ↦ listed_filled items path (ground arith)
]

without_markers-returns :
    (parents : List (List Str)) (items : List FoamDictionaryEntry)
    → all (λ item. not (is_parent parents item) || is_structural item.value) items ≡ true
    → without_markers parents items ≡ ok (filter (λ item. not (is_parent parents item)) items)
unfolding without_markers filter all
without_markers-returns parents [] h = refl
without_markers-returns parents (item ∷ items) h =
    let rest = without_markers-returns parents items (ground arith) in
    elim (Bool-cases (is_parent parents item)) [
      | inr leaf ↦ rw (leaf, rest) refl
      | inl parent ↦
          let marker : is_structural item.value ≡ true = ground arith in rw (parent, marker) rest
    ]

-- A tree is returned exactly if the entries whose paths are above another one's are markers of
-- blocks, and no two of the other entries have the same path.
pub tree_of-returns_iff :
    (items : List FoamDictionaryEntry)
    → ((root : Mapping) × (tree_of items ≡ ok root)) ↔ (
        (distinct (keys (map parted (leaves items))) ≡ true)
        × (all
              (λ item. not (is_parent (descendant_parents items) item) || is_structural item.value)
              items
            ≡ true))
unfolding tree_of normalize_entries
tree_of-returns_iff items = (
  λ made. let (single, marked, found) = tree_of_lem items made.1 in (single, marked),
  λ both. back both.0 both.1,
)
  where
    parents : List (List Str)
    parents = descendant_parents items

    lowest :
        (path : List Str)
        → contains (keys (map parted (leaves items))) path ≡ true
        → Lowest parents path
    lowest path listed =
        let (unlisted, there) = leaf_above parents items path listed in
        record {
          filled = listed_filled items path there;
          not_above = unlisted;
          below = λ prefix m. listed_below items path prefix there m;
        }

    back :
        distinct (keys (map parted (leaves items))) ≡ true
        → all (λ item. not (is_parent parents item) || is_structural item.value) items ≡ true
        → (root : Mapping) × (tree_of items ≡ ok root)
    back single marked =
        let normal = without_markers-returns parents items marked in
        let filled = parted-filled (leaves items) in
        let (root, made) =
          insert_all-Returns empty (map parted (leaves items)) filled
            (AllApart-of_Lowest parents (map parted (leaves items)) lowest single)
            (AllFree-empty (map parted (leaves items)) filled) in
        (root, rw normal made)
