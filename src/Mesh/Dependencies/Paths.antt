-- ===== src/Mesh/Dependencies/Paths.antt =====
-- A path that `_path` returns is one that it takes again, so what `register` stores passes the test
-- of a registry that is read back.
use mathlib.Core.List.{reverse, reverse-reverse, reverse-append}
use open_foam_agent.Prelude.{
  ok_injective, ℕ, zero, suc, Str, codes, Bool, true, false, not, List, [], ◌∷◌, ◌++◌, ◌==◌, nat_eq,
  list_eq, list_beq, eq_iff, ◌≡◌, refl, sym, ap, subst, ◌∙◌, arith, Bool-cases, inl, inr,
  append_assoc, append_nil, ok, >>=-eq-ok, all, filter, starts_with, rstrip_slash,
  strip_front_slash, components, split_slash, split_slash_from, all-sort_by, all-of_each,
  all-contains, contains-dedupe, dedupe,
}
use open_foam_agent.Native.Contracts.{str_le}
use open_foam_agent.Mesh.Dependencies.{refuses, case_path, case_paths, sorted_set}

abbrev slashes : ℕ → Str
slashes zero = []
slashes (suc n) = b'/' ∷ slashes n

-- A slash at the end adds an empty piece.
split_slash_from-slash :
    (piece text : Str)
    → split_slash_from piece (text ++ b'/' ∷ []) ≡ split_slash_from piece text ++ [] ∷ []
unfolding split_slash_from
split_slash_from-slash piece [] = refl
split_slash_from-slash piece (c ∷ text) = elim (Bool-cases (c == b'/')) [
  | inl sep ↦ rw sep (ap (λ ps. reverse piece ∷ ps) (split_slash_from-slash [] text))
  | inr other ↦ rw other (split_slash_from-slash (c ∷ piece) text)
]

filter-append :
    {A : Type 0} (p : A → Bool) (xs ys : List A) → filter p (xs ++ ys) ≡ filter p xs ++ filter p ys
unfolding filter
filter-append p [] ys = refl
filter-append p (x ∷ xs) ys = ground (arith, filter-append p xs ys)

components-slash : (text : Str) → components (text ++ b'/' ∷ []) ≡ components text
unfolding components split_slash filter list_beq
components-slash text =
    ap (filter _) (split_slash_from-slash [] text)
    ∙ filter-append _ (split_slash_from [] text) ([] ∷ [])
    ∙ append_nil (components text)

components-slashes : (text : Str) (n : ℕ) → components (text ++ slashes n) ≡ components text
components-slashes text zero = ap components (append_nil text)
components-slashes text (suc n) =
    ap components (sym (append_assoc text (b'/' ∷ []) (slashes n)))
    ∙ components-slashes (text ++ b'/' ∷ []) n
    ∙ components-slash text

slashes-snoc : (n : ℕ) → slashes n ++ b'/' ∷ [] ≡ b'/' ∷ slashes n
slashes-snoc zero = refl
slashes-snoc (suc n) = ap (λ s. b'/' ∷ s) (slashes-snoc n)

reverse-slashes : (n : ℕ) → reverse (slashes n) ≡ slashes n
reverse-slashes zero = refl
reverse-slashes (suc n) =
    reverse-append (b'/' ∷ []) (slashes n)
    ∙ ap (λ s. s ++ b'/' ∷ []) (reverse-slashes n)
    ∙ slashes-snoc n

strip_front_slash_lem : (text : Str) → (n : ℕ) × (text ≡ slashes n ++ strip_front_slash text)
unfolding strip_front_slash
strip_front_slash_lem [] = (0, refl)
strip_front_slash_lem (c ∷ text) = elim (Bool-cases (c == b'/')) [
  | inl sep ↦
      let (n, same) = strip_front_slash_lem text in
      let is_slash : c ≡ b'/' = (eq_iff c b'/').0 sep in
      (suc n, rw (sep, is_slash) (ap (λ s. b'/' ∷ s) same))
  | inr other ↦ (0, rw other refl)
]

rstrip_slash_lem : (text : Str) → (n : ℕ) × (text ≡ rstrip_slash text ++ slashes n)
unfolding rstrip_slash
rstrip_slash_lem text =
    let (n, same) = strip_front_slash_lem (reverse text) in
    (
      n,
      sym (reverse-reverse text)
          ∙ ap reverse same
          ∙ reverse-append (slashes n) (strip_front_slash (reverse text))
          ∙ ap (λ s. reverse (strip_front_slash (reverse text)) ++ s) (reverse-slashes n),
    )

-- The first slash stays the first one.
starts_with-append :
    (a b : Str) → starts_with (a ++ b) (codes "/") ≡ false → starts_with a (codes "/") ≡ false
unfolding starts_with
starts_with-append [] b h = refl
starts_with-append (c ∷ a) b h = h

-- Whether `_path` takes a path.
abbrev pub is_path : Str → Bool
is_path path = not (refuses path (components path))

case_path-ok :
    (path : Str) {q : Str} → case_path path ≡ ok q → (is_path path ≡ true) × (q ≡ rstrip_slash path)
unfolding case_path
case_path-ok path {q} h = elim (Bool-cases (refuses path (components path))) [
  | inl bad ↦ absurd (cc (rw bad at h))
  | inr good ↦ (ap not good, sym (ok_injective (rw good at h)))
]

case_path-of_is_path : (path : Str) → is_path path ≡ true → case_path path ≡ ok (rstrip_slash path)
unfolding case_path
case_path-of_is_path path h = elim (Bool-cases (refuses path (components path))) [
  | inl bad ↦ absurd (cc (rw bad at h))
  | inr good ↦ rw good refl
]

-- The test gives the same for the path and for the path without slashes at its end.
refuses-shorter :
    (path q : Str) (parts : List Str)
    → (starts_with path (codes "/") ≡ false → starts_with q (codes "/") ≡ false)
    → refuses path parts ≡ false
    → refuses q parts ≡ false
refuses-shorter path q [] shorter h = h
refuses-shorter path q (part ∷ parts) shorter h = ground (arith, shorter)

is_path-rstrip_slash : (path : Str) → is_path path ≡ true → is_path (rstrip_slash path) ≡ true
is_path-rstrip_slash path h =
    let (n, same) = rstrip_slash_lem path in
    let parts : components path ≡ components (rstrip_slash path) =
      ap components same ∙ components-slashes (rstrip_slash path) n in
    let taken : refuses path (components path) ≡ false = ground arith in
    ap not (
      subst (λ ps. refuses (rstrip_slash path) ps ≡ false) parts
        (refuses-shorter path (rstrip_slash path) (components path)
          (λ relative.
            starts_with-append (rstrip_slash path) (slashes n)
              (ap (λ s. starts_with s (codes "/")) (sym same) ∙ relative))
          taken))

-- Paths that were taken one after the other are taken again.
case_paths-is_path : (ps : List Str) {qs : List Str} → case_paths ps ≡ ok qs → all is_path qs ≡ true
unfolding case_paths all
case_paths-is_path [] {qs} h = let e : [] ≡ qs = ok_injective h in rw (← e) refl
case_paths-is_path (p ∷ ps) {qs} h =
    let (q, first, h1) = >>=-eq-ok (case_path p) _ h in
    let (rest, later, h2) = >>=-eq-ok (case_paths ps) _ h1 in
    let (taken, stripped) = case_path-ok p first in
    let again : is_path q ≡ true = ap is_path stripped ∙ is_path-rstrip_slash p taken in
    let e : q ∷ rest ≡ qs = ok_injective h2 in
    rw (← e) (ground (arith, again, case_paths-is_path ps later))

pub case_paths-of_all :
    (ps : List Str) → all is_path ps ≡ true → (qs : List Str) × (case_paths ps ≡ ok qs)
unfolding case_paths all
case_paths-of_all [] h = ([], refl)
case_paths-of_all (p ∷ ps) h =
    let here : is_path p ≡ true = ground arith in
    let later : all is_path ps ≡ true = ground arith in
    let (qs, e) = case_paths-of_all ps later in
    (rstrip_slash p ∷ qs, rw (case_path-of_is_path p here, e) refl)

-- What `register` stores of the paths that it is given.
pub sorted_set-is_path :
    (ps : List Str) {qs : List Str} → case_paths ps ≡ ok qs → all is_path (sorted_set qs) ≡ true
unfolding sorted_set
sorted_set-is_path ps {qs} h =
    all-sort_by is_path str_le (dedupe qs)
    ∙ all-of_each is_path (dedupe qs) (λ a m.
      all-contains is_path qs a (case_paths-is_path ps h) (sym (contains-dedupe qs a) ∙ m))
