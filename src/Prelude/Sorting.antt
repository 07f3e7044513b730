-- ===== src/Prelude/Sorting.antt =====
-- Python's `sorted` and its laws: what it keeps, that it commutes with a key and leaves a sorted list.
use Prim.Native.Nat.{suc}
use mathlib.Core.Path.{◌≡◌, refl, ap, ◌∙◌}
use mathlib.Core.Bool.{Bool, true, ◌&&◌, ◌||◌}
use mathlib.Core.Logic.{◌⊎◌, inl, inr}
use mathlib.Core.List.{List, [], ◌∷◌, map}
use native.Mathlib.Omega.{arith}
use open_foam_agent.Prelude.Tests.{if◌then◌else◌, Bool-cases}
use open_foam_agent.Prelude.Equality.{Eq, ◌==◌}
use open_foam_agent.Prelude.Lists.{length, all, contains}

module _ {ℓ} {A : Type ℓ} where
  unfoldable pub insert_by : (A → A → Bool) → A → List A → List A
  insert_by le a [] = a ∷ []
  insert_by le a (x ∷ xs) = if le a x then a ∷ x ∷ xs else x ∷ insert_by le a xs

  -- `sorted(xs, key=...)`: a stable sort by a total preorder.
  unfoldable pub sort_by : (A → A → Bool) → List A → List A
  unfolding insert_by
  sort_by le [] = []
  sort_by le (x ∷ xs) = insert_by le x (sort_by le xs)

  all-insert_by :
      (p : A → Bool) (le : A → A → Bool) (a : A) (xs : List A)
      → all p (insert_by le a xs) ≡ (p a && all p xs)
  unfolding all insert_by
  all-insert_by p le a [] = refl
  all-insert_by p le a (x ∷ xs) = ground (arith, all-insert_by p le a xs)

  pub all-sort_by :
      (p : A → Bool) (le : A → A → Bool) (xs : List A) → all p (sort_by le xs) ≡ all p xs
  unfolding all sort_by
  all-sort_by p le [] = refl
  all-sort_by p le (x ∷ xs) =
      ground (arith, all-insert_by p le x (sort_by le xs), all-sort_by p le xs)

  length-insert_by :
      (le : A → A → Bool) (a : A) (xs : List A) → length (insert_by le a xs) ≡ suc (length xs)
  unfolding insert_by
  length-insert_by le a [] = refl
  length-insert_by le a (x ∷ xs) = ground (arith, length-insert_by le a xs)

  pub length-sort_by : (le : A → A → Bool) (xs : List A) → length (sort_by le xs) ≡ length xs
  unfolding sort_by
  length-sort_by le [] = refl
  length-sort_by le (x ∷ xs) =
      omega (arith, length-insert_by le x (sort_by le xs), length-sort_by le xs)

module _ {ℓ} {A : Type ℓ} ⦃e : Eq A⦄ where
  contains-insert_by :
      (le : A → A → Bool) (a : A) (xs : List A) (b : A)
      → contains (insert_by le a xs) b ≡ ((b == a) || contains xs b)
  unfolding contains insert_by
  contains-insert_by le a [] b = refl
  contains-insert_by le a (x ∷ xs) b = ground (arith, contains-insert_by le a xs b)

  pub contains-sort_by :
      (le : A → A → Bool) (xs : List A) (b : A) → contains (sort_by le xs) b ≡ contains xs b
  unfolding contains sort_by
  contains-sort_by le [] b = refl
  contains-sort_by le (x ∷ xs) b =
      ground (arith, contains-insert_by le x (sort_by le xs) b, contains-sort_by le xs b)

module _ {ℓ κ} {A : Type ℓ} {B : Type κ} (f : A → B) (le : B → B → Bool) where
  abbrev pub by_key : A → A → Bool
  by_key a b = le (f a) (f b)

  map-insert_by :
      (a : A) (xs : List A) → map f (insert_by by_key a xs) ≡ insert_by le (f a) (map f xs)
  unfolding insert_by
  map-insert_by a [] = refl
  map-insert_by a (x ∷ xs) = elim (Bool-cases (le (f a) (f x))) [
    | inl before ↦ rw before refl
    | inr after ↦ rw after (ap (λ rest. f x ∷ rest) (map-insert_by a xs))
  ]

  pub map-sort_by : (xs : List A) → map f (sort_by by_key xs) ≡ sort_by le (map f xs)
  unfolding sort_by
  map-sort_by [] = refl
  map-sort_by (x ∷ xs) =
      map-insert_by x (sort_by by_key xs) ∙ ap (insert_by le (f x)) (map-sort_by xs)

module _ {ℓ} {A : Type ℓ} where
  -- A property of each element.
  abbrev pub Each {κ} : (A → Type κ) → List A → Type κ
  Each P [] = Unit
  Each P (x ∷ xs) = P x × Each P xs

  Each-insert_by {κ} :
      (P : A → Type κ) (le : A → A → Bool) (a : A) (xs : List A)
      → P a
      → Each P xs
      → Each P (insert_by le a xs)
  unfolding insert_by
  Each-insert_by P le a [] p ps = (p, ps)
  Each-insert_by P le a (x ∷ xs) p (q, ps) = elim (Bool-cases (le a x)) [
    | inl before ↦ rw before (p, (q, ps))
    | inr after ↦ rw after (q, Each-insert_by P le a xs p ps)
  ]

  pub Each-sort_by {κ} :
      (P : A → Type κ) (le : A → A → Bool) (xs : List A) → Each P xs → Each P (sort_by le xs)
  unfolding sort_by
  Each-sort_by P le [] ps = ps
  Each-sort_by P le (x ∷ xs) (p, ps) =
      Each-insert_by P le x (sort_by le xs) p (Each-sort_by P le xs ps)

  module _ (le : A → A → Bool) where
    abbrev Follows : A → List A → Type 0
    Follows a [] = Unit
    Follows a (x ∷ xs) = le a x ≡ true

    abbrev Sorted : List A → Type 0
    Sorted [] = Unit
    Sorted (x ∷ xs) = Follows x xs × Sorted xs

    module _ (total : (a b : A) → (le a b ≡ true) ⊎ (le b a ≡ true)) where
      Follows-insert_by :
          (b a : A) (xs : List A) → le b a ≡ true → Follows b xs → Follows b (insert_by le a xs)
      unfolding insert_by
      Follows-insert_by b a [] h f = h
      Follows-insert_by b a (x ∷ xs) h f = elim (Bool-cases (le a x)) [
        | inl before ↦ rw before h
        | inr after ↦ rw after f
      ]

      insert_by-Sorted : (a : A) (xs : List A) → Sorted xs → Sorted (insert_by le a xs)
      unfolding insert_by
      insert_by-Sorted a [] s = (tt, tt)
      insert_by-Sorted a (x ∷ xs) (f, s) = elim (Bool-cases (le a x)) [
        | inl before ↦ rw before (before, (f, s))
        | inr after ↦ elim (total a x) [
          | inl before ↦ absurd (cc (before, after))
          | inr behind ↦ rw after (Follows-insert_by x a xs behind f, insert_by-Sorted a xs s)
        ]
      ]

      sort_by-Sorted : (xs : List A) → Sorted (sort_by le xs)
      unfolding sort_by
      sort_by-Sorted [] = tt
      sort_by-Sorted (x ∷ xs) = insert_by-Sorted x (sort_by le xs) (sort_by-Sorted xs)

      insert_by-of_Follows : (a : A) (xs : List A) → Follows a xs → insert_by le a xs ≡ a ∷ xs
      unfolding insert_by
      insert_by-of_Follows a [] f = refl
      insert_by-of_Follows a (x ∷ xs) f = rw f refl

      sort_by-of_Sorted : (xs : List A) → Sorted xs → sort_by le xs ≡ xs
      unfolding sort_by
      sort_by-of_Sorted [] s = refl
      sort_by-of_Sorted (x ∷ xs) (f, s) =
          ap (insert_by le x) (sort_by-of_Sorted xs s) ∙ insert_by-of_Follows x xs f

      -- Sorting a sorted list changes nothing.
      pub sort_by-idempotent : (xs : List A) → sort_by le (sort_by le xs) ≡ sort_by le xs
      sort_by-idempotent xs = sort_by-of_Sorted (sort_by le xs) (sort_by-Sorted xs)
