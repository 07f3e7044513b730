-- ===== src/Serializer/Total.antt =====
-- An insertion into a tree succeeds where its path is free, and leaves free what is apart from it.
use open_foam_agent.Prelude.{
  if_taken, if_passed, Str, Bool, true, false, not, ◌&&◌, Option, none, some, List, [], ◌∷◌, ◌==◌,
  nat_eq, list_eq, eq_iff, ◌≡◌, refl, sym, ap, ◌∙◌, arith, Bool-cases, inl, inr, all, ok_injective,
  Result, ok, >>=-eq-ok,
}
use open_foam_agent.Prelude.Dict.{Dict, keys}
use open_foam_agent.Serializer.{
  Value, Mapping, scalar, block, empty, entry, FoamSerializationError, value_at, changed_at,
  inserted, insert, insert_all,
}
use open_foam_agent.Serializer.Tree.{changed_at-ok, is_filled}

abbrev pub Returns : {A : Type 0} → Result FoamSerializationError A → Type 0
Returns {A} r = (a : A) × (r ≡ ok a)

-- Whether a text may be put at a path.
unfoldable pub free : List Str → Option Value → Bool
unfolding value_at
free path none = true
free [] (some old) = false
free (part ∷ parts) (some (scalar text)) = false
free (part ∷ parts) (some (block child)) = free parts (value_at part child)

changed_at-Returns :
    (key : Str) (change : Option Value → Result FoamSerializationError Value) (m : Mapping)
    → Returns (change (value_at key m))
    → Returns (changed_at key change m)
unfolding changed_at value_at
changed_at-Returns key change empty (new, made) = (entry key new empty, rw made refl)
changed_at-Returns key change (entry k value rest) (new, made) = elim (Bool-cases (key == k)) [
  | inl same ↦ (entry k new rest, rw (same, rw same at made) refl)
  | inr away ↦
      let (m, later) = changed_at-Returns key change rest (new, rw away at made) in
      (entry k value m, rw (away, later) refl)
]

inserted-Returns :
    (path parts : List Str) (text : Str) (old : Option Value)
    → free parts old ≡ true
    → Returns (inserted path parts text old)
unfolding inserted free
inserted-Returns path [] text none h = (scalar text, refl)
inserted-Returns path [] text (some old) h = cc
inserted-Returns path (part ∷ parts) text none h =
    let (m, made) =
      changed_at-Returns part (inserted path parts text) empty
        (inserted-Returns path parts text (value_at part empty) (nothing parts)) in
    (block m, rw made refl)
  where
    nothing : (parts : List Str) → free parts (value_at part empty) ≡ true
    nothing [] = refl
    nothing (p ∷ ps) = refl
inserted-Returns path (part ∷ parts) text (some (scalar old)) h = cc
inserted-Returns path (part ∷ parts) text (some (block child)) h =
    let (m, made) =
      changed_at-Returns part (inserted path parts text) child
        (inserted-Returns path parts text (value_at part child) h) in
    (block m, rw made refl)

-- Whether one path is the other or above it.
unfoldable pub is_prefix : List Str → List Str → Bool
is_prefix [] path = true
is_prefix (part ∷ parts) [] = false
is_prefix (part ∷ parts) (next ∷ path) = (part == next) && is_prefix parts path

unfoldable pub apart : List Str → List Str → Bool
unfolding is_prefix
apart a b = not (is_prefix a b) && not (is_prefix b a)

module _ (path : List Str) (part : Str) (parts : List Str) (text : Str)
    (below : (old : Option Value) (new : Value) (other : List Str)
      → inserted path parts text old ≡ ok new
      → apart other parts ≡ true
      → free other old ≡ true
      → free other (some new) ≡ true) where
  changed_at-free :
      (child : Mapping) {m : Mapping} (p : Str) (ps : List Str)
      → changed_at part (inserted path parts text) child ≡ ok m
      → apart (p ∷ ps) (part ∷ parts) ≡ true
      → free ps (value_at p child) ≡ true
      → free ps (value_at p m) ≡ true
  unfolding apart is_prefix value_at
  changed_at-free child {m} p ps h away is_free =
      let (new, made, found) = changed_at-ok part (inserted path parts text) child h in
      elim (Bool-cases (p == part)) [
        | inr other ↦
            ap (free ps) (found p ∙ if_passed (some new) (value_at p child) other) ∙ is_free
        | inl same ↦
            let e = (eq_iff p part).0 same in
            ap (free ps) (found p ∙ if_taken (some new) (value_at p child) same)
            ∙ below (value_at part child) new ps made
                (ground (arith, same, eq_iff part p, eq_iff p part))
                (ap (λ k. free ps (value_at k child)) (sym e) ∙ is_free)
      ]

-- An insertion leaves the paths free that are apart from its own.
inserted-free :
    (path parts : List Str) (text : Str) (old : Option Value) (new : Value) (other : List Str)
    → inserted path parts text old ≡ ok new
    → apart other parts ≡ true
    → free other old ≡ true
    → free other (some new) ≡ true
unfolding inserted free apart is_prefix
inserted-free path [] text old new other h away is_free = ground arith
inserted-free path (part ∷ parts) text old new [] h away is_free = cc
inserted-free path (part ∷ parts) text none new (p ∷ ps) h away is_free =
    let (m, made, h1) = >>=-eq-ok (changed_at part (inserted path parts text) empty) _ h in
    ap (λ v. free (p ∷ ps) (some v)) (sym (ok_injective h1))
    ∙ changed_at-free path part parts text (inserted-free path parts text) empty p ps made away
        (nothing ps)
  where
    nothing : (parts : List Str) → free parts (value_at p empty) ≡ true
    nothing [] = refl
    nothing (q ∷ qs) = refl
inserted-free path (part ∷ parts) text (some (scalar t)) new (p ∷ ps) h away is_free = cc
inserted-free path (part ∷ parts) text (some (block child)) new (p ∷ ps) h away is_free =
    let (m, made, h1) = >>=-eq-ok (changed_at part (inserted path parts text) child) _ h in
    ap (λ v. free (p ∷ ps) (some v)) (sym (ok_injective h1))
    ∙ changed_at-free path part parts text (inserted-free path parts text) child p ps made away
        is_free

abbrev pub AllFree : Mapping → Dict (List Str) Str → Type 0
AllFree m [] = Unit
AllFree m ((path, text) ∷ items) = (free path (some (block m)) ≡ true) × AllFree m items

-- Each path is apart from those behind it.
abbrev pub AllApart : Dict (List Str) Str → Type 0
AllApart [] = Unit
AllApart ((path, text) ∷ items) =
    (all (λ other. apart other path) (keys items) ≡ true) × AllApart items

insert-returns :
    (m : Mapping) (item : List Str × Str)
    → is_filled item ≡ true
    → free item.0 (some (block m)) ≡ true
    → (m' : Mapping) × (insert m item ≡ ok m')
      × ((other : List Str)
          → apart other item.0 ≡ true
          → free other (some (block m)) ≡ true
          → free other (some (block m')) ≡ true)
unfolding insert free
insert-returns m ([], text) filled h = cc
insert-returns m (part ∷ parts, text) filled h =
    let path = part ∷ parts in
    let (m', made) =
      changed_at-Returns part (inserted path parts text) m
        (inserted-Returns path parts text (value_at part m) h) in
    (m', made, λ other away is_free. still m' made other away is_free)
  where
    still :
        (m' : Mapping)
        → changed_at part (inserted (part ∷ parts) parts text) m ≡ ok m'
        → (other : List Str) → apart other (part ∷ parts) ≡ true
        → free other (some (block m)) ≡ true
        → free other (some (block m')) ≡ true
    still m' made [] away is_free = cc
    still m' made (p ∷ ps) away is_free =
        changed_at-free (part ∷ parts) part parts text (inserted-free (part ∷ parts) parts text) m p
          ps made away is_free

AllFree-kept :
    (m m' : Mapping) (path : List Str) (items : Dict (List Str) Str)
    → ((other : List Str)
        → apart other path ≡ true
        → free other (some (block m)) ≡ true
        → free other (some (block m')) ≡ true)
    → all (λ other. apart other path) (keys items) ≡ true
    → AllFree m items
    → AllFree m' items
unfolding all
AllFree-kept m m' path [] keep away frees = tt
AllFree-kept m m' path ((p, text) ∷ items) keep away (is_free, frees) =
    (keep p (ground arith) is_free, AllFree-kept m m' path items keep (ground arith) frees)

pub insert_all-Returns :
    (m : Mapping) (items : Dict (List Str) Str)
    → all is_filled items ≡ true
    → AllApart items
    → AllFree m items
    → Returns (insert_all m items)
unfolding insert_all all
insert_all-Returns m [] filled away frees = (m, refl)
insert_all-Returns m ((path, text) ∷ items) filled (away, aways) (is_free, frees) =
    let (m', made, keep) = insert-returns m (path, text) (ground arith) is_free in
    let (root, later) =
      insert_all-Returns m' items (ground arith) aways
        (AllFree-kept m m' path items keep away frees) in
    (root, rw made later)
