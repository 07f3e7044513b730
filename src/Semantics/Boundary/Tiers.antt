-- ===== src/Semantics/Boundary/Tiers.antt =====
-- Which selector `resolve` chooses, and when it reports a missing entry.
use open_foam_agent.Prelude.{
  ◌≤◌, Str, codes, Bool, true, false, not, ◌||◌, Option, none, some, List, [], ◌∷◌, ◌++◌, all, any,
  ◌==◌, nat_eq, list_eq, ◌≡◌, refl, ap, ◌∙◌, arith, Bool-cases, inl, inr, filter, last?, ltb, leb,
}
use open_foam_agent.Semantics.Model.{
  indeterminate, pattern_state_eq, MeshPatch, BoundarySelector, BoundaryResolution, exact, group,
  auto_empty, regex, unproven, no_match, resolved, missing, undetermined, ResolutionTraceStep,
  exact_missed, group_missed, auto_empty_not_applicable,
}
use open_foam_agent.Semantics.Boundary.{
  has_state, greater, max_order, last_of, is_exact, is_grouped, is_matching, is_unsafe, uncovered,
  by_regex, by_type, by_group, by_name, by_state, resolve,
}

any_of_filter {ℓ} : {A : Type ℓ} (p : A → Bool) (xs : List A) → filter p xs ≡ [] → any p xs ≡ false
unfolding filter any
any_of_filter p [] h = refl
any_of_filter p (x ∷ xs) h = elim (Bool-cases (p x)) [
  | inl hit ↦ absurd (cc (rw hit at h))
  | inr miss ↦ rw miss (any_of_filter p xs (rw miss at h))
]

pub any_of_cons {ℓ} :
    {A : Type ℓ} (p : A → Bool) (xs : List A) (y : A) (ys : List A)
    → filter p xs ≡ y ∷ ys
    → any p xs ≡ true
unfolding filter any
any_of_cons p [] y ys h = absurd (cc)
any_of_cons p (x ∷ xs) y ys h = elim (Bool-cases (p x)) [
  | inl hit ↦ rw hit refl
  | inr miss ↦ rw miss (any_of_cons p xs y ys (rw miss at h))
]

-- No selector of the tier stands later.
abbrev pub is_at_most : BoundarySelector → BoundarySelector → Bool
is_at_most s t = leb t.order s.order

at_most_trans :
    (r s : BoundarySelector) (ss : List BoundarySelector)
    → r.order ≤ s.order
    → all (is_at_most r) ss ≡ true
    → all (is_at_most s) ss ≡ true
unfolding all
at_most_trans r s [] h k = refl
at_most_trans r s (t ∷ ts) h k = ground (arith, at_most_trans r s ts)

greater_lem :
    (p : BoundarySelector → Bool) (best s : BoundarySelector)
    → (best.order ≤ (greater best s).order)
      × (s.order ≤ (greater best s).order)
      × (p best ≡ true → p s ≡ true → p (greater best s) ≡ true)
unfolding greater
greater_lem p best s = elim (Bool-cases (ltb best.order s.order)) [
  | inl less ↦ rw less (ground arith, ground arith, λ h k. k)
  | inr more ↦ rw more (ground arith, ground arith, λ h k. h)
]

pub max_order-all :
    (best : BoundarySelector) (ss : List BoundarySelector)
    → (best.order ≤ (max_order best ss).order) × (all (is_at_most (max_order best ss)) ss ≡ true)
unfolding max_order all
max_order-all best [] = (ground arith, refl)
max_order-all best (s ∷ ss) =
    let (b, t, k) = greater_lem (λ u. true) best s in
    ground (arith, b, t, max_order-all (greater best s) ss)

pub max_order-keeps :
    (p : BoundarySelector → Bool) (best : BoundarySelector) (ss : List BoundarySelector)
    → all p (best ∷ ss) ≡ true
    → p (max_order best ss) ≡ true
unfolding max_order all
max_order-keeps p best [] h = ground arith
max_order-keeps p best (s ∷ ss) h =
    let (b, t, k) = greater_lem p best s in
    let both : p (greater best s) ≡ true = k (ground arith) (ground arith) in
    max_order-keeps p (greater best s) ss (ground (arith, both))

pub last_of-keeps :
    (p : BoundarySelector → Bool) (s : BoundarySelector) (ss : List BoundarySelector)
    → all p (s ∷ ss) ≡ true
    → p (last_of s ss) ≡ true
unfolding last_of all
last_of-keeps p s [] h = ground arith
last_of-keeps p s (t ∷ ts) h = last_of-keeps p t ts (ground arith)

-- A bound on the filtered selectors is one on those of the tier.
pub bound_of_filter :
    (p : BoundarySelector → Bool) (s : BoundarySelector) (ss : List BoundarySelector)
    → all (is_at_most s) (filter p ss) ≡ true
    → all (λ t. not (p t) || is_at_most s t) ss ≡ true
unfolding all filter
bound_of_filter p s [] h = refl
bound_of_filter p s (t ∷ ts) h = elim (Bool-cases (p t)) [
  | inl hit ↦ ground (arith, hit, bound_of_filter p s ts)
  | inr miss ↦ ground (arith, miss, bound_of_filter p s ts)
]

pub last?-cons :
    (s : BoundarySelector) (ss : List BoundarySelector) → last? (s ∷ ss) ≡ some (last_of s ss)
unfolding last_of last?
last?-cons s [] = refl
last?-cons s (t ∷ ts) = last?-cons t ts

-- The last of the filtered ones has no other of them behind it.
pub last_split :
    (p : BoundarySelector → Bool) (xs : List BoundarySelector) (l : BoundarySelector)
    → last? (filter p xs) ≡ some l
    → (before : List BoundarySelector) × (after : List BoundarySelector) × (xs
        ≡ before ++ l ∷ after)
      × (any p after ≡ false)
unfolding filter last?
last_split p [] l h = absurd (cc)
last_split p (x ∷ xs) l h = elim (Bool-cases (p x)) [
  | inl hit ↦ go (last_split p xs l) (filter p xs) refl (rw hit at h)
  | inr miss ↦
      let (before, after, e, none_left) = last_split p xs l (rw miss at h) in
      (x ∷ before, after, ap (λ ys. x ∷ ys) e, none_left)
]
  where
    go :
        (last? (filter p xs) ≡ some l
          → (before : List BoundarySelector) × (after : List BoundarySelector) × (xs
              ≡ before ++ l ∷ after)
            × (any p after ≡ false))
        → (fs : List BoundarySelector) → filter p xs ≡ fs
        → last? (x ∷ fs) ≡ some l
        → (before : List BoundarySelector) × (after : List BoundarySelector) × (x ∷ xs
            ≡ before ++ l ∷ after)
          × (any p after ≡ false)
    go ih [] e k = ([], xs, cc, any_of_filter p xs e)
    go ih (f ∷ fs) e k =
        let (before, after, g, none_left) = ih (ap last? e ∙ k) in
        (x ∷ before, after, ap (λ ys. x ∷ ys) g, none_left)

module _ (fullmatch : Str → Str → Option Bool) (patch : MeshPatch)
    (selectors : List BoundarySelector) where
  -- Where the selection stops, with what it found.
  pub data Tier (r : BoundaryResolution) : Type 0 where
    dynamic :
        any (has_state indeterminate) selectors ≡ true
        → r.status ≡ undetermined
        → r.match_kind ≡ unproven
        → r.selector ≡ none
        → Tier r
    named :
        (s : BoundarySelector) (ss : List BoundarySelector)
        → any (has_state indeterminate) selectors ≡ false
        → filter (is_exact patch) selectors ≡ s ∷ ss
        → r.status ≡ resolved
        → r.match_kind ≡ exact
        → r.selector ≡ some (last_of s ss)
        → Tier r
    grouped :
        (s : BoundarySelector) (ss : List BoundarySelector)
        → any (has_state indeterminate) selectors ≡ false
        → any (is_exact patch) selectors ≡ false
        → filter (is_grouped patch) selectors ≡ s ∷ ss
        → r.status ≡ resolved
        → r.match_kind ≡ group
        → r.selector ≡ some (max_order s ss)
        → Tier r
    automatic :
        any (has_state indeterminate) selectors ≡ false
        → any (is_exact patch) selectors ≡ false
        → any (is_grouped patch) selectors ≡ false
        → (patch.patch_type == codes "empty") ≡ true
        → r.status ≡ resolved
        → r.match_kind ≡ auto_empty
        → r.selector ≡ none
        → Tier r
    matching :
        (s : BoundarySelector) (ss : List BoundarySelector)
        → any (has_state indeterminate) selectors ≡ false
        → any (is_exact patch) selectors ≡ false
        → any (is_grouped patch) selectors ≡ false
        → (patch.patch_type == codes "empty") ≡ false
        → filter (is_matching fullmatch patch) selectors ≡ s ∷ ss
        → r.status ≡ resolved
        → r.match_kind ≡ regex
        → r.selector ≡ some (max_order s ss)
        → Tier r
    unsafe :
        any (is_unsafe fullmatch patch) selectors ≡ true
        → r.status ≡ undetermined
        → r.match_kind ≡ unproven
        → r.selector ≡ none
        → Tier r
    unmatched :
        any (has_state indeterminate) selectors ≡ false
        → any (is_exact patch) selectors ≡ false
        → any (is_grouped patch) selectors ≡ false
        → (patch.patch_type == codes "empty") ≡ false
        → any (is_matching fullmatch patch) selectors ≡ false
        → any (is_unsafe fullmatch patch) selectors ≡ false
        → r.status ≡ missing
        → r.match_kind ≡ no_match
        → r.selector ≡ none
        → Tier r

  pattern-Tier :
      any (has_state indeterminate) selectors ≡ false
      → any (is_exact patch) selectors ≡ false
      → any (is_grouped patch) selectors ≡ false
      → (patch.patch_type == codes "empty") ≡ false
      → (trace : List ResolutionTraceStep)
      → Tier (
          by_regex fullmatch patch
            (filter (is_matching fullmatch patch) selectors)
            (filter (is_unsafe fullmatch patch) selectors)
            trace)
  unfolding by_regex uncovered
  pattern-Tier static unnamed ungrouped other trace =
      at_match (filter (is_matching fullmatch patch) selectors) refl
        (filter (is_unsafe fullmatch patch) selectors) refl
    where
      at_match :
          (ms : List BoundarySelector)
          → filter (is_matching fullmatch patch) selectors ≡ ms
          → (es : List BoundarySelector) → filter (is_unsafe fullmatch patch) selectors ≡ es
          → Tier (by_regex fullmatch patch ms es trace)
      at_match (m ∷ ms) f es g = matching m ms static unnamed ungrouped other f refl refl refl
      at_match [] f (x ∷ es) g =
          unsafe (any_of_cons (is_unsafe fullmatch patch) selectors x es g) refl refl refl
      at_match [] f [] g =
          unmatched static unnamed ungrouped other
            (any_of_filter (is_matching fullmatch patch) selectors f)
            (any_of_filter (is_unsafe fullmatch patch) selectors g) refl refl refl

  later-Tier :
      any (has_state indeterminate) selectors ≡ false
      → any (is_exact patch) selectors ≡ false
      → any (is_grouped patch) selectors ≡ false
      → Tier (by_group fullmatch patch [] selectors (exact_missed ∷ []))
  unfolding by_group by_type
  later-Tier static unnamed ungrouped = elim (Bool-cases (patch.patch_type == codes "empty")) [
    | inl empty ↦ rw empty (automatic static unnamed ungrouped empty refl refl refl)
    | inr other ↦ rw other (
        pattern-Tier static unnamed ungrouped other
          (exact_missed ∷ group_missed ∷ auto_empty_not_applicable ∷ []))
  ]

  pub resolve-Tier : Tier (resolve fullmatch patch selectors)
  unfolding resolve by_state by_name by_group
  resolve-Tier = at_state (filter (has_state indeterminate) selectors) refl
    where
      at_state :
          (us : List BoundarySelector)
          → filter (has_state indeterminate) selectors ≡ us
          → Tier (by_state fullmatch patch us selectors)
      at_state (u ∷ us) e =
          dynamic (any_of_cons (has_state indeterminate) selectors u us e) refl refl refl
      at_state [] e = at_name (filter (is_exact patch) selectors) refl
        where
          static : any (has_state indeterminate) selectors ≡ false
          static = any_of_filter (has_state indeterminate) selectors e

          at_name :
              (ns : List BoundarySelector)
              → filter (is_exact patch) selectors ≡ ns
              → Tier (by_name fullmatch patch ns selectors)
          at_name (n ∷ ns) f = named n ns static f refl refl refl
          at_name [] f = at_group (filter (is_grouped patch) selectors) refl
            where
              unnamed : any (is_exact patch) selectors ≡ false
              unnamed = any_of_filter (is_exact patch) selectors f

              at_group :
                  (gs : List BoundarySelector)
                  → filter (is_grouped patch) selectors ≡ gs
                  → Tier (by_group fullmatch patch gs selectors (exact_missed ∷ []))
              at_group (g ∷ gs) k = grouped g gs static unnamed k refl refl refl
              at_group [] k =
                  later-Tier static unnamed (any_of_filter (is_grouped patch) selectors k)
