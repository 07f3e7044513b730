-- ===== src/Prelude/Worklist.antt =====
-- The loop `while todo: for d in deps(todo.pop()): if d not in selected: selected.add(d);
-- todo.append(d)`, which contracts/mesh_dependencies.py and engineering/authoring_tasks.py share.
use Prim.Native.Nat.{ℕ, zero, suc, ◌+◌, ◌≤◌}
use mathlib.Core.Path.{◌≡◌, refl}
use mathlib.Core.Logic.{◌⊎◌, inl, inr, ◌↔◌, ◌≢◌}
use mathlib.Core.Bool.{true, false, not, ◌&&◌, ◌||◌}
use mathlib.Core.List.{List, [], ◌∷◌}
use mathlib.Core.Option.{Option, none, some}
use native.Mathlib.Omega.{arith}
use open_foam_agent.Prelude.Tests.{if◌then◌else◌, Bool-cases, Option-cases}
use open_foam_agent.Prelude.Equality.{Eq, ◌==◌, eq_iff, eq_refl}
use open_foam_agent.Prelude.Lists.{length, contains}

pub data Outcome {ℓ} (A : Type ℓ) : Type ℓ where
  closed : List A → Outcome A
  missing out_of_fuel : Outcome A

module _ {ℓ} {A : Type ℓ} ⦃e : Eq A⦄ where
  -- The inner loop: what is not selected yet is selected and put on the stack.
  unfoldable pub push : List A → List A × List A → List A × List A
  unfolding contains
  push [] (selected, todo) = (selected, todo)
  push (d ∷ ds) (selected, todo) =
      push ds (if contains selected d then (selected, todo) else (d ∷ selected, d ∷ todo))

  -- The universe's entries that are not selected.
  pub unselected : List A → List A → ℕ
  unselected selected [] = 0
  unselected selected (u ∷ us) =
      let rest = unselected selected us in if contains selected u then rest else suc rest

module _ {ℓ} {A : Type ℓ} ⦃e : Eq A⦄ (deps : A → Option (List A)) where
  -- The outer loop, on fuel; the stack's top is the head of the list.
  unfoldable pub close : ℕ → List A → List A → Outcome A
  unfolding push
  close fuel selected [] = closed selected
  close zero selected (a ∷ todo) = out_of_fuel
  close (suc fuel) selected (a ∷ todo) = elim (deps a) [
    | none ↦ missing
    | some ds ↦ let next = push ds (selected, todo) in close fuel next.0 next.1
  ]

  -- What the start leads to.
  pub data Reach (start : List A) : A → Type ℓ where
    here : {a : A} → contains start a ≡ true → Reach start a
    step :
        {a b : A} (ds : List A)
        → Reach start a
        → deps a ≡ some ds
        → contains ds b ≡ true
        → Reach start b

module _ {ℓ} {A : Type ℓ} ⦃e : Eq A⦄ where
  contains-push-selected :
      (ds s t : List A) (b : A) → contains (push ds (s, t)).0 b ≡ (contains ds b || contains s b)
  unfolding push contains
  contains-push-selected [] s t b = refl
  contains-push-selected (d ∷ ds) s t b = elim (Bool-cases (contains s d)) [
    | inl known ↦ ground (arith, known, eq_iff b d, contains-push-selected ds s t b)
    | inr new ↦ ground (arith, new, contains-push-selected ds (d ∷ s) (d ∷ t) b)
  ]

  contains-push-todo :
      (ds s t : List A) (b : A)
      → contains (push ds (s, t)).1 b ≡ (contains t b || (contains ds b && not (contains s b)))
  unfolding push contains
  contains-push-todo [] s t b = ground arith
  contains-push-todo (d ∷ ds) s t b = elim (Bool-cases (contains s d)) [
    | inl known ↦ ground (arith, known, eq_iff b d, contains-push-todo ds s t b)
    | inr new ↦ ground (arith, new, eq_iff b d, contains-push-todo ds (d ∷ s) (d ∷ t) b)
  ]

  pub unselected-le : (s u : List A) (d : A) → unselected (d ∷ s) u ≤ unselected s u
  unfolding unselected contains
  unselected-le s [] d = omega arith
  unselected-le s (x ∷ u) d = ground (arith, unselected-le s u d)

  pub unselected-lt :
      (s u : List A) (d : A)
      → contains s d ≡ false
      → contains u d ≡ true
      → suc (unselected (d ∷ s) u) ≤ unselected s u
  unfolding unselected contains
  unselected-lt s [] d new m = cc
  unselected-lt s (x ∷ u) d new m = elim (Bool-cases (d == x)) [
    | inl same ↦
        let e' : d ≡ x = (eq_iff d x).0 same in ground (arith, unselected-le s u d, eq_iff x d, e')
    | inr other ↦ ground (arith, unselected-lt s u d, eq_iff x d, eq_iff d x)
  ]

  pub unselected-le-length : (s u : List A) → unselected s u ≤ length u
  unfolding unselected
  unselected-le-length s [] = omega arith
  unselected-le-length s (x ∷ u) = ground (arith, unselected-le-length s u)

  -- A round pays for what it pushes by what it selects.
  work-push :
      (u ds s t : List A)
      → ((b : A) → contains ds b ≡ true → contains u b ≡ true)
      → unselected (push ds (s, t)).0 u + length (push ds (s, t)).1 ≤ unselected s u + length t
  unfolding push contains
  work-push u [] s t within = omega arith
  work-push u (d ∷ ds) s t within = elim (Bool-cases (contains s d)) [
    | inl known ↦ ground (arith, known, work-push u ds s t (λ b m. within b (ground arith)))
    | inr new ↦ ground (
      arith,
      new,
      unselected-lt s u d new (within d (ground (arith, eq_refl d))),
      work-push u ds (d ∷ s) (d ∷ t) (λ b m. within b (ground arith)),
    )
  ]

module _ {ℓ} {A : Type ℓ} ⦃e : Eq A⦄ (deps : A → Option (List A)) (start : List A) where
  -- Between two rounds.
  record Inv (selected todo : List A) : Type ℓ where
    found : (a : A) → contains selected a ≡ true → Reach deps start a
    queued : (a : A) → contains todo a ≡ true → contains selected a ≡ true
    settled :
        (a : A)
        → contains selected a ≡ true
        → (contains todo a ≡ true)
          ⊎ (ds : List A) × (deps a ≡ some ds)
            × ((b : A) → contains ds b ≡ true → contains selected b ≡ true)
    started : (a : A) → contains start a ≡ true → contains selected a ≡ true

  Inv-start : Inv start start
  Inv-start = record {
    found = λ a m. here m;
    queued = λ a m. m;
    settled = λ a m. inl m;
    started = λ a m. m;
  }

  Inv-push :
      (s t ds : List A) (a : A)
      → deps a ≡ some ds
      → Inv s (a ∷ t)
      → Inv (push ds (s, t)).0 (push ds (s, t)).1
  unfolding contains
  Inv-push s t ds a known inv =
      let selected = contains-push-selected ds s t in
      let todo = contains-push-todo ds s t in
      let reach_a = found a (queued a (ground (arith, eq_refl a))) in
      record {
        found = λ b m. elim (Bool-cases (contains s b)) [
          | inl old ↦ found b old
          | inr new ↦ step ds reach_a known (ground (arith, selected b))
        ];
        queued = λ b m. ground (arith, selected b, todo b, queued b);
        settled = λ b m. elim (Bool-cases (contains s b)) [
          | inr new ↦ inl (ground (arith, selected b, todo b))
          | inl old ↦ elim (settled b old) [
            | inr (bs, e', within) ↦ inr (bs, e', λ c n. ground (arith, selected c, within c n))
            | inl waiting ↦ elim (Bool-cases (b == a)) [
              | inl same ↦
                  inr (ds, rw ((eq_iff b a).0 same) known, λ c n. ground (arith, selected c))
              | inr other ↦ inl (ground (arith, todo b))
            ]
          ]
        ];
        started = λ b m. ground (arith, selected b, started b m);
      }
    where
      open inv use {found, queued, settled, started}

  -- What the loop's result means.
  abbrev pub Means : Outcome A → Type ℓ
  Means (closed r) =
      ((a : A) → (contains r a ≡ true) ↔ Reach deps start a)
      × ((a : A) → Reach deps start a → deps a ≢ none)
  Means missing = (a : A) × Reach deps start a × (deps a ≡ none)
  Means out_of_fuel = Unit

  complete : (s : List A) → Inv s [] → {a : A} → Reach deps start a → contains s a ≡ true
  unfolding contains
  complete s inv (here m) = inv.started _ m
  complete s inv (step {a} {b} ds r known m) = elim (inv.settled a (complete s inv r)) [
    | inl waiting ↦ cc
    | inr (bs, same, within) ↦ within b (ground (arith, known, same))
  ]

  Means-close : (fuel : ℕ) (s t : List A) → Inv s t → Means (close deps fuel s t)
  unfolding close contains
  Means-close fuel s [] inv = (
    λ a. (inv.found a, complete s inv),
    λ a r gone. elim (inv.settled a (complete s inv r)) [
      | inl waiting ↦ cc
      | inr (bs, same, within) ↦ cc
    ],
  )
  Means-close zero s (a ∷ t) inv = tt
  Means-close (suc fuel) s (a ∷ t) inv = elim (Option-cases (deps a)) [
    | inl gone ↦ rw (gone, close) (a, inv.found a (inv.queued a (ground (arith, eq_refl a))), gone)
    | inr (ds, known) ↦
        rw (known, close)
          (Means-close fuel (push ds (s, t)).0 (push ds (s, t)).1 (Inv-push s t ds a known inv))
  ]

  -- With fuel for the universe and the stack the loop ends.
  close-ends :
      (u : List A)
      → ((a b : A) (ds : List A) → deps a ≡ some ds → contains ds b ≡ true → contains u b ≡ true)
      → (fuel : ℕ) (s t : List A) → unselected s u + length t ≤ fuel
      → close deps fuel s t ≢ out_of_fuel
  unfolding close
  close-ends u within fuel s [] h = λ p. cc
  close-ends u within zero s (a ∷ t) h = absurd (omega arith)
  close-ends u within (suc fuel) s (a ∷ t) h = elim (Option-cases (deps a)) [
    | inl gone ↦ rw (gone, close) (λ p. cc)
    | inr (ds, known) ↦
        rw (known, close)
          (close-ends u within fuel (push ds (s, t)).0 (push ds (s, t)).1
            (omega (arith, work-push u ds s t (λ b m. within a b ds known m))))
  ]

  -- The loop from the start set, on fuel for the universe and the start.
  pub close_lem :
      (u : List A)
      → ((a b : A) (ds : List A) → deps a ≡ some ds → contains ds b ≡ true → contains u b ≡ true)
      → (fuel : ℕ) → length u + length start ≤ fuel
      → (close deps fuel start start ≢ out_of_fuel) × Means (close deps fuel start start)
  close_lem u within fuel h = (
    close-ends u within fuel start start (omega (arith, unselected-le-length start u)),
    Means-close fuel start start Inv-start,
  )
