-- ===== src/Prelude/Dict.antt =====
-- A `dict` in the order of insertion, its keys different.
use mathlib.Core.Path.{◌≡◌, refl}
use mathlib.Core.Bool.{Bool, true, false, not, ◌&&◌, ◌||◌}
use mathlib.Core.List.{List, [], ◌∷◌}
use mathlib.Core.Option.{Option, none, some}
use native.Mathlib.Omega.{arith}
use open_foam_agent.Prelude.Tests.{if◌then◌else◌, Bool-cases}
use open_foam_agent.Prelude.Equality.{Eq, ◌==◌, eq_iff}
use open_foam_agent.Prelude.Lists.{contains}
use mathlib.Core.Logic.{inl, inr}

abbrev pub Dict {ℓ κ} : Type ℓ → Type κ → Type (ℓ ⊔ κ)
Dict K V = List (K × V)

abbrev pub is_some {ℓ} : {A : Type ℓ} → Option A → Bool
is_some none = false
is_some (some a) = true

abbrev pub or_else {ℓ} : {A : Type ℓ} → Option A → Option A → Option A
or_else none other = other
or_else (some a) other = some a

module _ {ℓ κ} {K : Type ℓ} {V : Type κ} ⦃e : Eq K⦄ where
  abbrev pub keys : Dict K V → List K
  keys [] = []
  keys ((k, v) ∷ d) = k ∷ keys d

  -- `d.get(key)`
  unfoldable pub find : K → Dict K V → Option V
  find key [] = none
  find key ((k, v) ∷ d) = if key == k then some v else find key d

  -- `d[key] = value`
  unfoldable pub put : K → V → Dict K V → Dict K V
  put key value [] = (key, value) ∷ []
  put key value ((k, v) ∷ d) = if key == k then (k, value) ∷ d else (k, v) ∷ put key value d

  -- `d.pop(key, None)`
  unfoldable pub pop : K → Dict K V → Dict K V
  pop key [] = []
  pop key ((k, v) ∷ d) = let rest = pop key d in if key == k then rest else (k, v) ∷ rest

  pub contains-keys-put :
      (key : K) (value : V) (d : Dict K V) (other : K)
      → contains (keys (put key value d)) other ≡ ((other == key) || contains (keys d) other)
  unfolding put contains
  contains-keys-put key value [] other = refl
  contains-keys-put key value ((k, v) ∷ d) other =
      ground (arith, eq_iff key k, eq_iff other k, contains-keys-put key value d other)

  pub contains-keys-pop :
      (key : K) (d : Dict K V) (other : K)
      → contains (keys (pop key d)) other ≡ (not (other == key) && contains (keys d) other)
  unfolding pop contains
  contains-keys-pop key [] other = ground arith
  contains-keys-pop key ((k, v) ∷ d) other =
      ground (arith, eq_iff key k, eq_iff other k, eq_iff other key, contains-keys-pop key d other)

  pub find-put :
      (key : K) (value : V) (d : Dict K V) (other : K)
      → find other (put key value d) ≡ (if other == key then some value else find other d)
  unfolding put find
  find-put key value [] other = refl
  find-put key value ((k, v) ∷ d) other =
      ground (arith, eq_iff key k, eq_iff other k, eq_iff other key, find-put key value d other)

  pub find-pop :
      (key : K) (d : Dict K V) (other : K)
      → find other (pop key d) ≡ (if other == key then none else find other d)
  unfolding pop find
  find-pop key [] other = ground arith
  find-pop key ((k, v) ∷ d) other =
      ground (arith, eq_iff key k, eq_iff other k, eq_iff other key, find-pop key d other)

  pub find-of_absent : (key : K) (d : Dict K V) → contains (keys d) key ≡ false → find key d ≡ none
  unfolding find contains
  find-of_absent key [] h = refl
  find-of_absent key ((k, v) ∷ d) h = ground (arith, find-of_absent key d)

  -- No key is listed twice.
  abbrev pub NodupKeys : Dict K V → Type 0
  NodupKeys [] = Unit
  NodupKeys ((k, v) ∷ d) = (contains (keys d) k ≡ false) × NodupKeys d

  pub put-NodupKeys :
      (key : K) (value : V) (d : Dict K V) → NodupKeys d → NodupKeys (put key value d)
  unfolding put contains
  put-NodupKeys key value [] u = (refl, tt)
  put-NodupKeys key value ((k, v) ∷ d) (fresh, u) = elim (Bool-cases (key == k)) [
    | inl same ↦ rw same (fresh, u)
    | inr other ↦
        let later = contains-keys-put key value d k in
        rw other (ground (arith, later, eq_iff k key, eq_iff key k), put-NodupKeys key value d u)
  ]

  pub contains-keys :
      (d : Dict K V) (key : K) (v : V) → find key d ≡ some v → contains (keys d) key ≡ true
  unfolding find contains
  contains-keys [] key v h = cc
  contains-keys ((k, u) ∷ d) key v h = ground (arith, contains-keys d key v)

  -- `key in d`
  pub contains-find : (d : Dict K V) (key : K) → contains (keys d) key ≡ is_some (find key d)
  unfolding contains find
  contains-find [] key = refl
  contains-find ((k, v) ∷ d) key = ground (arith, contains-find d key)
