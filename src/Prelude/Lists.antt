-- ===== src/Prelude/Lists.antt =====
-- Lists measured by native numbers, and the list comprehensions, `any`, `all`, `in` of Python.
use Prim.Native.Nat.{ℕ, zero, suc, ◌+◌, ◌-◌, ◌≤◌}
use mathlib.Core.Path.{◌≡◌, refl, ap}
use mathlib.Core.Bool.{Bool, true, false, not, ◌&&◌, ◌||◌}
use mathlib.Core.List.{List, [], ◌∷◌, ◌++◌}
use mathlib.Core.Option.{Option, none, some}
use native.Mathlib.Omega.{arith}
use open_foam_agent.Prelude.Tests.{if◌then◌else◌, Bool-cases}
use open_foam_agent.Prelude.Equality.{Eq, ◌==◌, eq_iff, eq_refl}
use mathlib.Core.Logic.{inl, inr, ◌↔◌}

module _ {ℓ} {A : Type ℓ} where
  abbrev pub length : List A → ℕ
  length [] = 0
  length (x ∷ xs) = suc (length xs)

  abbrev pub is_empty : List A → Bool
  is_empty [] = true
  is_empty (x ∷ xs) = false

  abbrev pub is_nonempty : List A → Bool
  is_nonempty [] = false
  is_nonempty (x ∷ xs) = true

  abbrev pub get_elem? : List A → ℕ → Option A
  get_elem? [] i = none
  get_elem? (x ∷ xs) zero = some x
  get_elem? (x ∷ xs) (suc i) = get_elem? xs i

  abbrev pub drop : ℕ → List A → List A
  drop zero xs = xs
  drop (suc n) [] = []
  drop (suc n) (x ∷ xs) = drop n xs

  -- `[x for x in xs if p(x)]`
  unfoldable pub take : ℕ → List A → List A
  take zero xs = []
  take (suc n) [] = []
  take (suc n) (x ∷ xs) = x ∷ take n xs

  pub length-take-le : (n : ℕ) (xs : List A) → length (take n xs) ≤ n
  unfolding take
  length-take-le zero xs = ground arith
  length-take-le (suc n) [] = ground arith
  length-take-le (suc n) (x ∷ xs) = ground (arith, length-take-le n xs)

  unfoldable pub filter : (A → Bool) → List A → List A
  filter p [] = []
  filter p (x ∷ xs) = let rest = filter p xs in if p x then x ∷ rest else rest

  unfoldable pub any : (A → Bool) → List A → Bool
  any p [] = false
  any p (x ∷ xs) = p x || any p xs

  unfoldable pub all : (A → Bool) → List A → Bool
  all p [] = true
  all p (x ∷ xs) = p x && all p xs

  -- `xs[-1]`
  unfoldable pub last? : List A → Option A
  last? [] = none
  last? (x ∷ []) = some x
  last? (x ∷ y ∷ xs) = last? (y ∷ xs)

  -- `xs[-n:]` for a positive `n`
  unfoldable pub take_last : ℕ → List A → List A
  take_last n xs = drop (length xs - n) xs

  pub append_nil : (xs : List A) → xs ++ [] ≡ xs
  append_nil [] = refl
  append_nil (x ∷ xs) = ap (λ ys. x ∷ ys) (append_nil xs)

  pub append_assoc : (xs ys zs : List A) → xs ++ ys ++ zs ≡ xs ++ (ys ++ zs)
  append_assoc [] ys zs = refl
  append_assoc (x ∷ xs) ys zs = ap (λ us. x ∷ us) (append_assoc xs ys zs)

  -- An appended list is empty exactly if both parts are.
  pub append_nil_iff : (xs ys : List A) → (xs ++ ys ≡ []) ↔ ((xs ≡ []) × (ys ≡ []))
  append_nil_iff [] ys = (λ h. (refl, h), λ h. h.1)
  append_nil_iff (x ∷ xs) ys = (λ h. absurd (cc), λ h. absurd (cons_nil h.0))
    where
      cons_nil : x ∷ xs ≡ [] → ⊥
      cons_nil e = cc

  pub length-append : (xs ys : List A) → length (xs ++ ys) ≡ length xs + length ys
  length-append [] ys = omega arith
  length-append (x ∷ xs) ys = omega (arith, length-append xs ys)

  pub length-drop : (n : ℕ) (xs : List A) → length (drop n xs) ≡ length xs - n
  length-drop zero xs = omega arith
  length-drop (suc n) [] = omega arith
  length-drop (suc n) (x ∷ xs) = omega (arith, length-drop n xs)

  pub length-take_last-le : (n : ℕ) (xs : List A) → length (take_last n xs) ≤ n
  unfolding take_last
  length-take_last-le n xs = omega (arith, length-drop (length xs - n) xs)

  pub length-filter-le : (p : A → Bool) (xs : List A) → length (filter p xs) ≤ length xs
  unfolding filter
  length-filter-le p [] = omega arith
  length-filter-le p (x ∷ xs) = ground (arith, length-filter-le p xs)

  pub all-filter : (p : A → Bool) (xs : List A) → all p (filter p xs) ≡ true
  unfolding all filter
  all-filter p [] = refl
  all-filter p (x ∷ xs) = ground (arith, all-filter p xs)

  -- A test that holds of every element survives a filter.
  pub all-filter_of_all :
      (p q : A → Bool) (xs : List A) → all p xs ≡ true → all p (filter q xs) ≡ true
  unfolding all filter
  all-filter_of_all p q [] h = refl
  all-filter_of_all p q (x ∷ xs) h = ground (arith, all-filter_of_all p q xs)

  pub all-append : (p : A → Bool) (xs ys : List A) → all p (xs ++ ys) ≡ (all p xs && all p ys)
  unfolding all
  all-append p [] ys = refl
  all-append p (x ∷ xs) ys = ground (arith, all-append p xs ys)

  pub any-append : (p : A → Bool) (xs ys : List A) → any p (xs ++ ys) ≡ (any p xs || any p ys)
  unfolding any
  any-append p [] ys = refl
  any-append p (x ∷ xs) ys = ground (arith, any-append p xs ys)

  pub all_mono :
      (p q : A → Bool) (xs : List A)
      → ((x : A) → p x ≡ true → q x ≡ true)
      → all p xs ≡ true
      → all q xs ≡ true
  unfolding all
  all_mono p q [] h a = refl
  all_mono p q (x ∷ xs) h a = ground (arith, h x, all_mono p q xs h)

module _ {ℓ} {A : Type ℓ} ⦃e : Eq A⦄ where
  -- `a in xs`
  unfoldable pub contains : List A → A → Bool
  contains [] a = false
  contains (x ∷ xs) a = (a == x) || contains xs a

  -- `list(dict.fromkeys(xs))`: first occurrences, in order.
  unfoldable pub dedupe_from : List A → List A → List A
  unfolding contains
  dedupe_from seen [] = []
  dedupe_from seen (x ∷ xs) =
      let known = contains seen x in
      let rest = dedupe_from (if known then seen else x ∷ seen) xs in
      if known then rest else x ∷ rest

  unfoldable pub dedupe : List A → List A
  unfolding dedupe_from
  dedupe xs = dedupe_from [] xs

  -- `xs.remove(a)`
  unfoldable pub remove_first : A → List A → List A
  remove_first a [] = []
  remove_first a (x ∷ xs) = if a == x then xs else x ∷ remove_first a xs

  pub contains-append :
      (xs ys : List A) (a : A) → contains (xs ++ ys) a ≡ (contains xs a || contains ys a)
  unfolding contains
  contains-append [] ys a = refl
  contains-append (x ∷ xs) ys a = ground (arith, contains-append xs ys a)

  pub contains-filter :
      (p : A → Bool) (xs : List A) (a : A) → contains (filter p xs) a ≡ (p a && contains xs a)
  unfolding contains filter
  contains-filter p [] a = ground arith
  contains-filter p (x ∷ xs) a = elim (Bool-cases (a == x)) [
    | inl same ↦ rw ((eq_iff a x).0 same) (ground (arith, eq_refl x, contains-filter p xs x))
    | inr other ↦ ground (arith, contains-filter p xs a)
  ]

  pub all-contains :
      (p : A → Bool) (xs : List A) (a : A) → all p xs ≡ true → contains xs a ≡ true → p a ≡ true
  unfolding all contains
  all-contains p [] a h m = cc
  all-contains p (x ∷ xs) a h m = ground (arith, eq_iff a x, all-contains p xs a)

  pub all-of_each :
      (p : A → Bool) (xs : List A) → ((a : A) → contains xs a ≡ true → p a ≡ true) → all p xs ≡ true
  unfolding all contains
  all-of_each p [] h = refl
  all-of_each p (x ∷ xs) h =
      let first = h x (ground (arith, eq_refl x)) in
      let rest = all-of_each p xs (λ a m. h a (ground arith)) in ground arith

  pub all-contains_self : (xs : List A) → all (contains xs) xs ≡ true
  all-contains_self xs = all-of_each (contains xs) xs (λ a m. m)

  contains-dedupe_from :
      (seen xs : List A) (a : A)
      → (contains seen a || contains (dedupe_from seen xs) a) ≡ (contains seen a || contains xs a)
  unfolding dedupe_from
  contains-dedupe_from seen [] a = refl
  contains-dedupe_from seen (x ∷ xs) a = elim (Bool-cases (contains seen x)) [
    | inl known ↦ rw known (ground (arith, eq_iff a x, known, contains-dedupe_from seen xs a))
    | inr new ↦ rw new (ground (arith, eq_iff a x, contains-dedupe_from (x ∷ seen) xs a))
  ]

  pub contains-dedupe : (xs : List A) (a : A) → contains (dedupe xs) a ≡ contains xs a
  unfolding dedupe contains
  contains-dedupe xs a = contains-dedupe_from [] xs a

  pub any-of_contains :
      (p : A → Bool) (xs : List A) (a : A) → contains xs a ≡ true → p a ≡ true → any p xs ≡ true
  unfolding contains any
  any-of_contains p [] a m h = cc
  any-of_contains p (x ∷ xs) a m h = ground (arith, eq_iff a x, any-of_contains p xs a)

  any-dedupe_from :
      (p : A → Bool) (seen xs : List A)
      → (any p seen || any p (dedupe_from seen xs)) ≡ (any p seen || any p xs)
  unfolding dedupe_from any
  any-dedupe_from p seen [] = refl
  any-dedupe_from p seen (x ∷ xs) = elim (Bool-cases (contains seen x)) [
    | inl known ↦
        rw known (ground (arith, any-of_contains p seen x known, any-dedupe_from p seen xs))
    | inr new ↦ rw new (ground (arith, any-dedupe_from p (x ∷ seen) xs))
  ]

  pub any-dedupe : (p : A → Bool) (xs : List A) → any p (dedupe xs) ≡ any p xs
  unfolding dedupe any
  any-dedupe p xs = any-dedupe_from p [] xs

  -- No element stands twice.
  unfoldable pub distinct : List A → Bool
  unfolding contains
  distinct [] = true
  distinct (x ∷ xs) = not (contains xs x) && distinct xs

  fresh-dedupe_from :
      (seen xs : List A) (a : A) → contains seen a ≡ true → contains (dedupe_from seen xs) a ≡ false
  unfolding dedupe_from
  fresh-dedupe_from seen [] a h = refl
  fresh-dedupe_from seen (x ∷ xs) a h = elim (Bool-cases (contains seen x)) [
    | inl known ↦ rw known (fresh-dedupe_from seen xs a h)
    | inr new ↦ rw new (ground (arith, eq_iff a x, new, h, fresh-dedupe_from (x ∷ seen) xs a))
  ]

  distinct-dedupe_from : (seen xs : List A) → distinct (dedupe_from seen xs) ≡ true
  unfolding dedupe_from distinct
  distinct-dedupe_from seen [] = refl
  distinct-dedupe_from seen (x ∷ xs) = elim (Bool-cases (contains seen x)) [
    | inl known ↦ rw known (distinct-dedupe_from seen xs)
    | inr new ↦ rw new (
        ground
          (arith, eq_refl x, fresh-dedupe_from (x ∷ seen) xs x, distinct-dedupe_from (x ∷ seen) xs))
  ]

  pub distinct-dedupe : (xs : List A) → distinct (dedupe xs) ≡ true
  unfolding dedupe
  distinct-dedupe xs = distinct-dedupe_from [] xs

-- Keep the first element of each key.
module _ {ℓ κ} {A : Type ℓ} {K : Type κ} ⦃e : Eq K⦄ (key : A → K) where
  unfoldable pub dedupe_by_from : List K → List A → List A
  unfolding contains
  dedupe_by_from seen [] = []
  dedupe_by_from seen (x ∷ xs) =
      let known = contains seen (key x) in
      let rest = dedupe_by_from (if known then seen else key x ∷ seen) xs in
      if known then rest else x ∷ rest

  unfoldable pub dedupe_by : List A → List A
  unfolding dedupe_by_from
  dedupe_by xs = dedupe_by_from [] xs

  all-dedupe_by_from :
      (p : A → Bool) (seen : List K) (xs : List A)
      → all p xs ≡ true
      → all p (dedupe_by_from seen xs) ≡ true
  unfolding all dedupe_by_from
  all-dedupe_by_from p seen [] h = refl
  all-dedupe_by_from p seen (x ∷ xs) h =
      ground (arith, all-dedupe_by_from p (if contains seen (key x) then seen else key x ∷ seen) xs)

  pub all-dedupe_by : (p : A → Bool) (xs : List A) → all p xs ≡ true → all p (dedupe_by xs) ≡ true
  unfolding dedupe_by
  all-dedupe_by p xs h = all-dedupe_by_from p [] xs h
