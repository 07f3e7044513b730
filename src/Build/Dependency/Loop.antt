-- ===== src/Build/Dependency/Loop.antt =====
-- The sorting loop: a rule for its invariants, and the proof that `count` rounds empty `ready`.
use open_foam_agent.Prelude.{
  ℕ, zero, suc, ◌+◌, ◌≤◌, ◌<◌, Bool, true, false, not, ◌&&◌, List, [], ◌∷◌, ◌==◌, nat_eq, ◌≡◌, refl,
  contains, distinct, arith, eq_iff, eq_refl, length, length-append,
}
use open_foam_agent.Build.Dependency.{range_from, count_if, minimum, Sorting, take_index, sort_loop}
use open_foam_agent.Build.Dependency.Release.{
  contains-range_from, distinct-range_from, length-range_from, count_if-congr, count_if_without,
  count_if_all_zero, minimum-mem, minimum-le,
}
use open_foam_agent.Build.Dependency.Invariant.{IsSorting, IsSorting-take_index, ordered-take_index}

count_if-le-length : (p : ℕ → Bool) (xs : List ℕ) → count_if p xs ≤ length xs
unfolding count_if
count_if-le-length p [] = omega arith
count_if-le-length p (x ∷ xs) = ground (arith, count_if-le-length p xs)

count_if-lt-length :
    (p : ℕ → Bool) (xs : List ℕ) (v : ℕ)
    → contains xs v ≡ true
    → p v ≡ false
    → count_if p xs < length xs
unfolding count_if contains
count_if-lt-length p [] v m f = ground arith
count_if-lt-length p (x ∷ xs) v m f =
    ground (arith, eq_iff v x, count_if-le-length p xs, count_if-lt-length p xs v)

module _ (count : ℕ) where
  pub length-eq-count_if :
      (xs : List ℕ)
      → distinct xs ≡ true
      → ((v : ℕ) → contains xs v ≡ true → v < count)
      → count_if (contains xs) (range_from 0 count) ≡ length xs
  unfolding distinct contains
  length-eq-count_if [] d h = count_if_all_zero (contains []) (range_from 0 count) (λ x m. refl)
  length-eq-count_if (x ∷ xs) d h =
      let lt = h x (ground (arith, eq_refl x)) in
      let one =
        count_if_without (contains (x ∷ xs)) x (range_from 0 count) (distinct-range_from count 0)
          (ground (arith, contains-range_from count 0 x)) (ground (arith, eq_refl x)) in
      let same =
        count_if-congr (λ y. contains (x ∷ xs) y && not (y == x)) (contains xs) (range_from 0 count)
          (λ y m. ground (arith, eq_iff y x)) in
      ground (arith, one, same, length-eq-count_if xs (ground arith) (λ v m. h v (ground arith)))

  -- Pigeonhole: distinct indices below `count` that miss one are fewer than `count`.
  pub length-lt_of_missing :
      (xs : List ℕ) (v : ℕ)
      → distinct xs ≡ true
      → ((x : ℕ) → contains xs x ≡ true → x < count)
      → v < count
      → contains xs v ≡ false
      → length xs < count
  length-lt_of_missing xs v d h lt n = omega (
    arith,
    length-eq-count_if xs d h,
    length-range_from count 0,
    count_if-lt-length (contains xs) (range_from 0 count) v
        (ground (arith, contains-range_from count 0 v)) n,
  )

module _ (count : ℕ) (edge : ℕ → ℕ → Bool) where
  ready-empty_of_full :
      (s : Sorting) → IsSorting count edge s → count ≤ length s.ordered → s.ready ≡ []
  ready-empty_of_full s inv h = go s.ready refl
    where
      go : (r : List ℕ) → s.ready ≡ r → s.ready ≡ []
      go [] e = e
      go (v ∷ vs) e = absurd (
          let in_ready : contains s.ready v ≡ true =
            rw e (unfold contains in ground (arith, eq_refl v)) in
          let facts = inv.ready_iff v in
          omega (
            arith,
            length-lt_of_missing count s.ordered v inv.ordered_distinct inv.in_range
                (ground (arith, facts)) (ground (arith, facts)),
          ))

  -- What to show of a property of the loop's state: each round takes out the least ready index.
  pub record Rule {ℓ} (P : Sorting → Type ℓ) : Type ℓ where
    pub round :
        (s : Sorting) (v : ℕ)
        → IsSorting count edge s
        → contains s.ready v ≡ true
        → ((y : ℕ) → contains s.ready y ≡ true → v ≤ y)
        → P s
        → P (take_index count edge v s)

  module _ {ℓ} {P : Sorting → Type ℓ} (rule : Rule P) where
    pub sort_loop_ind :
        (fuel : ℕ) (s : Sorting)
        → IsSorting count edge s
        → P s
        → IsSorting count edge (sort_loop count edge fuel s) × P (sort_loop count edge fuel s)
    unfolding sort_loop
    sort_loop_ind zero s inv h = (inv, h)
    sort_loop_ind (suc fuel) s inv h = go s.ready refl (sort_loop_ind fuel)
      where
        go :
            (r : List ℕ)
            → s.ready ≡ r
            → ((t : Sorting)
                → IsSorting count edge t
                → P t
                → IsSorting count edge (sort_loop count edge fuel t)
                  × P (sort_loop count edge fuel t))
            → IsSorting count edge (sort_loop count edge (suc fuel) s)
              × P (sort_loop count edge (suc fuel) s)
        go [] e ih = rw (e, sort_loop) (inv, h)
        go (x ∷ xs) e ih =
            let v = minimum x xs in
            let m : contains s.ready v ≡ true = rw e (minimum-mem x xs) in
            rw (e, sort_loop)
              (ih (take_index count edge v s) (IsSorting-take_index count edge s inv v m)
                (rule.round s v inv m (λ y n. minimum-le x xs y (rw e at n)) h))

  -- With `count` rounds of fuel the loop ends because nothing is ready.
  pub sort_loop-empty :
      (fuel : ℕ) (s : Sorting)
      → IsSorting count edge s
      → count ≤ fuel + length s.ordered
      → (sort_loop count edge fuel s).ready ≡ []
  unfolding sort_loop
  sort_loop-empty zero s inv h = ready-empty_of_full s inv (omega arith)
  sort_loop-empty (suc fuel) s inv h = go s.ready refl (sort_loop-empty fuel)
    where
      go :
          (r : List ℕ)
          → s.ready ≡ r
          → ((t : Sorting)
              → IsSorting count edge t
              → count ≤ fuel + length t.ordered
              → (sort_loop count edge fuel t).ready ≡ [])
          → (sort_loop count edge (suc fuel) s).ready ≡ []
      go [] e ih = rw (e, sort_loop) e
      go (x ∷ xs) e ih =
          let v = minimum x xs in
          let m : contains s.ready v ≡ true = rw e (minimum-mem x xs) in
          rw (e, sort_loop)
            (ih (take_index count edge v s) (IsSorting-take_index count edge s inv v m) (
              rw (ordered-take_index count edge s inv v m)
                (omega (arith, length-append s.ordered (v ∷ []), h))))
