-- ===== src/Semantics/Boundary/Choice.antt =====
-- What the selection of `resolve` guarantees: precedence of the tiers, and the last or greatest entry.
use open_foam_agent.Prelude.{
  Str, codes, Bool, true, false, not, ◌||◌, Option, none, some, List, ◌∷◌, ◌++◌, all, any, ◌==◌,
  nat_eq, list_eq, ◌≡◌, sym, ap, ◌∙◌, ◌↔◌, arith, filter, last?, all-filter,
}
use open_foam_agent.Semantics.Model.{
  indeterminate, pattern_state_eq, MeshPatch, BoundarySelector, BoundaryMatchKind, exact, group,
  regex, missing,
}
use open_foam_agent.Semantics.Boundary.{
  has_state, max_order, last_of, is_exact, is_grouped, is_matching, is_unsafe, resolve,
}
use open_foam_agent.Semantics.Boundary.Tiers.{
  dynamic, named, grouped, automatic, matching, unsafe, unmatched, resolve-Tier, any_of_cons,
  max_order-all, max_order-keeps, last_of-keeps, bound_of_filter, last_split, last?-cons,
  is_at_most,
}

filter_head {ℓ} :
    {A : Type ℓ} (p : A → Bool) (xs : List A) (y : A) (ys : List A)
    → filter p xs ≡ y ∷ ys
    → all p (y ∷ ys) ≡ true
filter_head p xs y ys h = ap (all p) (sym h) ∙ all-filter p xs

some-injective :
    {s t : BoundarySelector} → ◌≡◌ {A = Option BoundarySelector} (some s) (some t) → s ≡ t
some-injective {s} e = ap (get s) e
  where
    get : BoundarySelector → Option BoundarySelector → BoundarySelector
    get d (some t) = t
    get d none = d

-- No selector of a tier has a greater order than the chosen one.
abbrev pub is_greatest : (BoundarySelector → Bool) → BoundarySelector → List BoundarySelector → Bool
is_greatest tier chosen selectors = all (λ t. not (tier t) || is_at_most chosen t) selectors

greatest_of_filter :
    (tier : BoundarySelector → Bool) (selectors : List BoundarySelector) (s : BoundarySelector)
    (ss : List BoundarySelector)
    → filter tier selectors ≡ s ∷ ss
    → (tier (max_order s ss) ≡ true) × (is_greatest tier (max_order s ss) selectors ≡ true)
unfolding all
greatest_of_filter tier selectors s ss h =
    let (first, rest) = max_order-all s ss in
    let bound : all (is_at_most (max_order s ss)) (s ∷ ss) ≡ true = ground arith in
    (
      max_order-keeps tier s ss (filter_head tier selectors s ss h),
      bound_of_filter tier (max_order s ss) selectors
          (ap (all (is_at_most (max_order s ss))) h ∙ bound),
    )

module _ (fullmatch : Str → Str → Option Bool) (patch : MeshPatch)
    (selectors : List BoundarySelector) where
  -- A missing entry is reported exactly if no selector is dynamic, none names the patch or a
  -- group of it, the patch is not empty, no pattern matches and every pattern compiles.
  pub resolve-missing : ((resolve fullmatch patch selectors).status ≡ missing) ↔ (
      (any (has_state indeterminate) selectors ≡ false)
      × (any (is_exact patch) selectors ≡ false)
      × (any (is_grouped patch) selectors ≡ false)
      × ((patch.patch_type == codes "empty") ≡ false)
      × (any (is_matching fullmatch patch) selectors ≡ false)
      × (any (is_unsafe fullmatch patch) selectors ≡ false))
  resolve-missing = (
    λ h. elim (resolve-Tier fullmatch patch selectors) [
      | dynamic d st k no_s ↦ absurd (cc)
      | named s ss d f st k sel ↦ absurd (cc)
      | grouped s ss d x f st k sel ↦ absurd (cc)
      | automatic d x g y st k no_s ↦ absurd (cc)
      | matching s ss d x g y f st k sel ↦ absurd (cc)
      | unsafe u st k no_s ↦ absurd (cc)
      | unmatched d x g y m u st k no_s ↦ (d, x, g, y, m, u)
    ],
    λ (d, x, g, y, m, u). elim (resolve-Tier fullmatch patch selectors) [
      | dynamic d2 st k no_s ↦ absurd (cc)
      | named s ss d2 f st k sel ↦ absurd (clash x (any_of_cons (is_exact patch) selectors s ss f))
      | grouped s ss d2 x2 f st k sel ↦
          absurd (clash g (any_of_cons (is_grouped patch) selectors s ss f))
      | automatic d2 x2 g2 y2 st k no_s ↦ absurd (clash y y2)
      | matching s ss d2 x2 g2 y2 f st k sel ↦
          absurd (clash m (any_of_cons (is_matching fullmatch patch) selectors s ss f))
      | unsafe u2 st k no_s ↦ absurd (clash u u2)
      | unmatched d2 x2 g2 y2 m2 u2 st k no_s ↦ st
    ],
  )
    where
      clash : {b : Bool} → b ≡ false → b ≡ true → ⊥
      clash e f = cc

  -- What the chosen selector is, by the kind of the match.
  pub IsChoice : BoundarySelector → BoundaryMatchKind → Type 0
  IsChoice s exact =
      (before : List BoundarySelector) × (after : List BoundarySelector) × (selectors
        ≡ before ++ s ∷ after)
      × (is_exact patch s ≡ true)
      × (any (is_exact patch) after ≡ false)
  IsChoice s group =
      (any (is_exact patch) selectors ≡ false)
      × (is_grouped patch s ≡ true)
      × (is_greatest (is_grouped patch) s selectors ≡ true)
  IsChoice s regex =
      (any (is_exact patch) selectors ≡ false)
      × (any (is_grouped patch) selectors ≡ false)
      × ((patch.patch_type == codes "empty") ≡ false)
      × (is_matching fullmatch patch s ≡ true)
      × (is_greatest (is_matching fullmatch patch) s selectors ≡ true)
  IsChoice s other = ⊥

  -- If a selector is chosen, none is dynamic, and it is the last that names the patch, or
  -- without such one a selector of a group of the patch of the greatest order, or without both
  -- and on a patch that is not empty a matching pattern of the greatest order, as the match kind
  -- says.
  pub resolve-selector :
      (s : BoundarySelector)
      → (resolve fullmatch patch selectors).selector ≡ some s
      → (any (has_state indeterminate) selectors ≡ false)
        × IsChoice s (resolve fullmatch patch selectors).match_kind
  unfolding IsChoice
  resolve-selector s h = elim (resolve-Tier fullmatch patch selectors) [
    | dynamic d st k no_s ↦ absurd (none_some (sym no_s ∙ h))
    | named t ts d f st k sel ↦ (
      d,
      rw (k, ← some-injective (sym sel ∙ h))
          (let (before, after, e, last_one) =
              last_split (is_exact patch) selectors (last_of t ts) (ap last? f ∙ last?-cons t ts) in
            (
              before,
              after,
              e,
              last_of-keeps (is_exact patch) t ts (filter_head (is_exact patch) selectors t ts f),
              last_one,
            )),
    )
    | grouped t ts d x f st k sel ↦ (
      d,
      rw (k, ← some-injective (sym sel ∙ h))
          (let (c, b) = greatest_of_filter (is_grouped patch) selectors t ts f in (x, c, b)),
    )
    | automatic d x g y st k no_s ↦ absurd (none_some (sym no_s ∙ h))
    | matching t ts d x g y f st k sel ↦ (
      d,
      rw (k, ← some-injective (sym sel ∙ h))
          (let (c, b) = greatest_of_filter (is_matching fullmatch patch) selectors t ts f in
            (x, g, y, c, b)),
    )
    | unsafe u st k no_s ↦ absurd (none_some (sym no_s ∙ h))
    | unmatched d x g y m u st k no_s ↦ absurd (none_some (sym no_s ∙ h))
  ]
    where
      none_some : ◌≡◌ {A = Option BoundarySelector} none (some s) → ⊥
      none_some e = cc
