-- ===== src/Build/Dependency/Release.antt =====
-- Lemmas on the parts of a round: the index range, the counter, the minimum, and the release of
-- the consumers of an index.
use open_foam_agent.Prelude.{
  ℕ, zero, suc, ◌+◌, ◌-◌, ◌≤◌, Bool, true, false, not, ◌&&◌, ◌||◌, List, [], ◌∷◌, ◌++◌, ◌==◌,
  nat_eq, remove_first, if◌then◌else◌, ltb, leb, ◌≡◌, refl, contains, distinct, arith, Bool-cases,
  inl, inr, eq_iff, eq_refl, contains-append, length,
}
use open_foam_agent.Build.Dependency.{range_from, count_if, minimum, Sorting, decrement, release}

pub contains-range_from : (n i x : ℕ) → contains (range_from i n) x ≡ (leb i x && ltb x (i + n))
unfolding contains range_from
contains-range_from zero i x = ground arith
contains-range_from (suc n) i x = ground (arith, contains-range_from n (suc i) x)

pub distinct-range_from : (n i : ℕ) → distinct (range_from i n) ≡ true
unfolding distinct range_from
distinct-range_from zero i = refl
distinct-range_from (suc n) i =
    ground (arith, contains-range_from n (suc i) i, distinct-range_from n (suc i))

pub length-range_from : (n i : ℕ) → length (range_from i n) ≡ n
unfolding range_from
length-range_from zero i = refl
length-range_from (suc n) i = omega (arith, length-range_from n (suc i))

-- Two tests that agree on the list count alike.
pub count_if-congr :
    (p q : ℕ → Bool) (xs : List ℕ)
    → ((x : ℕ) → contains xs x ≡ true → p x ≡ q x)
    → count_if p xs ≡ count_if q xs
unfolding count_if contains
count_if-congr p q [] h = refl
count_if-congr p q (x ∷ xs) h =
    ground
      (arith, h x (ground (arith, eq_refl x)), count_if-congr p q xs (λ y m. h y (ground arith)))

-- Taking one counted element out of the test.
pub count_if_without :
    (p : ℕ → Bool) (v : ℕ) (xs : List ℕ)
    → distinct xs ≡ true
    → contains xs v ≡ true
    → p v ≡ true
    → count_if p xs ≡ suc (count_if (λ x. p x && not (x == v)) xs)
unfolding count_if contains distinct
count_if_without p v [] d m h = ground arith
count_if_without p v (x ∷ xs) d m h = elim (Bool-cases (v == x)) [
  | inl same ↦ ground (
    arith,
    count_if-congr p (λ y. p y && not (y == v)) xs (λ y n. ground (arith, eq_iff y v, eq_iff v x)),
  )
  | inr other ↦ ground (arith, count_if_without p v xs)
]

pub count_if_zero :
    (p : ℕ → Bool) (xs : List ℕ) (x : ℕ) → count_if p xs ≡ 0 → contains xs x ≡ true → p x ≡ false
unfolding count_if contains
count_if_zero p [] x z m = ground arith
count_if_zero p (y ∷ ys) x z m = ground (arith, eq_iff x y, count_if_zero p ys x)

pub count_if_all_zero :
    (p : ℕ → Bool) (xs : List ℕ)
    → ((x : ℕ) → contains xs x ≡ true → p x ≡ false)
    → count_if p xs ≡ 0
unfolding count_if contains
count_if_all_zero p [] h = refl
count_if_all_zero p (x ∷ xs) h =
    ground
      (arith, h x (ground (arith, eq_refl x)), count_if_all_zero p xs (λ y m. h y (ground arith)))

pub minimum-mem : (x : ℕ) (xs : List ℕ) → contains (x ∷ xs) (minimum x xs) ≡ true
unfolding minimum contains
minimum-mem x [] = ground arith
minimum-mem x (y ∷ ys) = ground (arith, minimum-mem x ys, minimum-mem y ys)

pub minimum-le : (x : ℕ) (xs : List ℕ) (y : ℕ) → contains (x ∷ xs) y ≡ true → minimum x xs ≤ y
unfolding minimum contains
minimum-le x [] y m = ground arith
minimum-le x (z ∷ zs) y m =
    ground (arith, minimum-le x zs y, minimum-le z zs y, minimum-le x zs x, minimum-le z zs z)

pub contains-remove_first :
    (a : ℕ) (xs : List ℕ) (x : ℕ)
    → distinct xs ≡ true
    → contains (remove_first a xs) x ≡ (contains xs x && not (x == a))
unfolding contains remove_first distinct
contains-remove_first a [] x d = refl
contains-remove_first a (y ∷ ys) x d =
    ground (arith, eq_iff a y, eq_iff x y, contains-remove_first a ys x)

pub distinct-remove_first :
    (a : ℕ) (xs : List ℕ) → distinct xs ≡ true → distinct (remove_first a xs) ≡ true
unfolding remove_first distinct
distinct-remove_first a [] d = refl
distinct-remove_first a (y ∷ ys) d =
    ground (arith, contains-remove_first a ys y, distinct-remove_first a ys)

pub distinct-snoc :
    (xs : List ℕ) (a : ℕ)
    → distinct xs ≡ true
    → contains xs a ≡ false
    → distinct (xs ++ a ∷ []) ≡ true
unfolding distinct contains
distinct-snoc [] a d n = refl
distinct-snoc (x ∷ xs) a d n = ground (arith, contains-append xs (a ∷ []) x, distinct-snoc xs a)

pub ordered-release : (cs : List ℕ) (s : Sorting) → (release cs s).ordered ≡ s.ordered
unfolding release
ordered-release [] s = refl
ordered-release (c ∷ cs) s = ordered-release cs _

pub indegree-release :
    (cs : List ℕ) (s : Sorting) (x : ℕ)
    → distinct cs ≡ true
    → (release cs s).indegree x ≡ (if contains cs x then s.indegree x - 1 else s.indegree x)
unfolding release contains distinct
indegree-release [] s x d = refl
indegree-release (c ∷ cs) s x d = ground (
  arith,
  indegree-release cs
      (record s {
        ready = if decrement s.indegree c c == 0 then s.ready ++ c ∷ [] else s.ready;
        indegree = decrement s.indegree c;
      })
      x,
)

pub contains-ready-release :
    (cs : List ℕ) (s : Sorting) (x : ℕ)
    → distinct cs ≡ true
    → contains (release cs s).ready x
      ≡ (contains s.ready x || (contains cs x && ((s.indegree x - 1) == 0)))
unfolding release contains distinct
contains-ready-release [] s x d = ground arith
contains-ready-release (c ∷ cs) s x d = ground (
  arith,
  contains-append s.ready (c ∷ []) x,
  contains-ready-release cs
      (record s {
        ready = if decrement s.indegree c c == 0 then s.ready ++ c ∷ [] else s.ready;
        indegree = decrement s.indegree c;
      })
      x,
)

pub distinct-ready-release :
    (cs : List ℕ) (s : Sorting)
    → distinct cs ≡ true
    → distinct s.ready ≡ true
    → ((x : ℕ) → contains cs x ≡ true → contains s.ready x ≡ false)
    → distinct (release cs s).ready ≡ true
unfolding release contains distinct
distinct-ready-release [] s d r h = r
distinct-ready-release (c ∷ cs) s d r h =
    distinct-ready-release cs _ (ground arith)
      (ground (arith, distinct-snoc s.ready c, h c (ground (arith, eq_refl c))))
      (λ x m. ground (arith, contains-append s.ready (c ∷ []) x, h x (ground arith), eq_iff x c))
