-- ===== src/Semantics/Boundary.antt =====
-- `BoundaryFieldInterpreter` of verification/foam_semantics/boundary.py. Python's `re.fullmatch` is
-- an argument: `none` stands for `re.error`.
pub mod Tiers
pub mod Choice
use open_foam_agent.Prelude.{
  ℕ, Str, codes, Bool, true, false, not, ◌&&◌, Option, none, some, List, [], ◌∷◌, ◌++◌, map, ◌==◌,
  nat_eq, list_eq, list_beq, Eq, if◌then◌else◌, contains, filter, last?, ltb,
}
use open_foam_agent.Semantics.Model.{
  PatternState, literal, pattern_, indeterminate, pattern_state_eq, FoamKey, MeshPatch,
  BoundarySelector, ResolutionTraceStep, unresolved_step, exact_matched, group_matched,
  regex_matched, exact_missed, group_missed, regex_missed, auto_empty_applies,
  auto_empty_not_applicable, unsafe_step, nothing_covers, Reason, unresolved_selectors,
  unsafe_patterns, no_selector_matched, BoundaryResolution, BoundaryMatchKind, exact, group,
  auto_empty, regex, unproven, no_match, ResolutionStatus, resolved, missing, undetermined,
}

abbrev pub has_state : PatternState → BoundarySelector → Bool
has_state state s = s.key.pattern_state == state

abbrev pub raw_of : BoundarySelector → Str
raw_of s = s.key.raw

-- `_resolved`
abbrev pub resolved_by :
    MeshPatch → BoundaryMatchKind → BoundarySelector → List ResolutionTraceStep → BoundaryResolution
resolved_by patch kind selector trace = record {
  patch = patch;
  status = resolved;
  match_kind = kind;
  selector = some selector;
  effective_field_type = selector.field_type;
  proven = true;
  trace = trace;
  reason = none;
}

abbrev pub undetermined_by : MeshPatch → Reason → List ResolutionTraceStep → BoundaryResolution
undetermined_by patch reason trace = record {
  patch = patch;
  status = undetermined;
  match_kind = unproven;
  selector = none;
  effective_field_type = [];
  proven = false;
  trace = trace;
  reason = some reason;
}

unfoldable pub greater : BoundarySelector → BoundarySelector → BoundarySelector
greater best s = if ltb best.order s.order then s else best

-- `max(items, key=order)`: the first of the greatest.
unfoldable pub max_order : BoundarySelector → List BoundarySelector → BoundarySelector
max_order best [] = best
max_order best (s ∷ ss) = max_order (greater best s) ss

unfoldable pub last_of : BoundarySelector → List BoundarySelector → BoundarySelector
last_of s [] = s
last_of s (t ∷ ts) = last_of t ts

abbrev pub is_exact : MeshPatch → BoundarySelector → Bool
is_exact patch s = has_state literal s && (s.key.value == patch.name)

abbrev pub is_grouped : MeshPatch → BoundarySelector → Bool
is_grouped patch s = has_state literal s && contains patch.groups s.key.value

abbrev pub matched : Option Bool → Bool
matched (some true) = true
matched (some false) = false
matched none = false

abbrev pub failed : Option Bool → Bool
failed (some b) = false
failed none = true

module _ (fullmatch : Str → Str → Option Bool) where
  abbrev pub is_matching : MeshPatch → BoundarySelector → Bool
  is_matching patch s = has_state pattern_ s && matched (fullmatch s.key.value patch.name)

  abbrev pub is_unsafe : MeshPatch → BoundarySelector → Bool
  is_unsafe patch s = has_state pattern_ s && failed (fullmatch s.key.value patch.name)

  -- The last tier: nothing matched.
  unfoldable pub uncovered :
      MeshPatch → List BoundarySelector → List ResolutionTraceStep → BoundaryResolution
  uncovered patch (s ∷ ss) trace =
      let errors = map raw_of (s ∷ ss) in
      undetermined_by patch (unsafe_patterns errors) (trace ++ unsafe_step errors ∷ [])
  uncovered patch [] trace = record {
    patch = patch;
    status = missing;
    match_kind = no_match;
    selector = none;
    effective_field_type = [];
    proven = true;
    trace = trace ++ nothing_covers ∷ [];
    reason = some no_selector_matched;
  }

  -- The pattern tier, on the selectors that match.
  unfoldable pub by_regex :
      MeshPatch
      → List BoundarySelector
      → List BoundarySelector
      → List ResolutionTraceStep
      → BoundaryResolution
  unfolding uncovered max_order
  by_regex patch (s ∷ ss) errors trace =
      let selected = max_order s ss in
      resolved_by patch regex selected (trace ++ regex_matched (raw_of selected) ∷ [])
  by_regex patch [] errors trace = uncovered patch errors (trace ++ regex_missed ∷ [])

  -- The automatic empty field.
  unfoldable pub by_type :
      MeshPatch → List BoundarySelector → List ResolutionTraceStep → BoundaryResolution
  unfolding by_regex filter
  by_type patch selectors trace =
      if patch.patch_type == codes "empty"
      then record {
        patch = patch;
        status = resolved;
        match_kind = auto_empty;
        selector = none;
        effective_field_type = codes "empty";
        proven = true;
        trace = trace ++ auto_empty_applies ∷ [];
        reason = none;
      }
      else by_regex patch (filter (is_matching patch) selectors)
          (filter (is_unsafe patch) selectors) (trace ++ auto_empty_not_applicable ∷ [])

  -- The group tier, on the selectors that name a group of the patch.
  unfoldable pub by_group :
      MeshPatch
      → List BoundarySelector
      → List BoundarySelector
      → List ResolutionTraceStep
      → BoundaryResolution
  unfolding by_type max_order greater
  by_group patch (s ∷ ss) selectors trace =
      let selected = max_order s ss in
      resolved_by patch group selected (trace ++ group_matched (raw_of selected) ∷ [])
  by_group patch [] selectors trace = by_type patch selectors (trace ++ group_missed ∷ [])

  -- The exact tier, on the selectors that name the patch: the last one wins.
  unfoldable pub by_name :
      MeshPatch → List BoundarySelector → List BoundarySelector → BoundaryResolution
  unfolding by_group filter contains last_of
  by_name patch (s ∷ ss) selectors =
      let selected = last_of s ss in
      resolved_by patch exact selected (exact_matched (raw_of selected) ∷ [])
  by_name patch [] selectors =
      by_group patch (filter (is_grouped patch) selectors) selectors (exact_missed ∷ [])

  unfoldable pub by_state :
      MeshPatch → List BoundarySelector → List BoundarySelector → BoundaryResolution
  unfolding by_name filter
  by_state patch (s ∷ ss) selectors =
      let raws = map raw_of (s ∷ ss) in
      undetermined_by patch (unresolved_selectors raws) (unresolved_step raws ∷ [])
  by_state patch [] selectors = by_name patch (filter (is_exact patch) selectors) selectors

  unfoldable pub resolve : MeshPatch → List BoundarySelector → BoundaryResolution
  unfolding by_state filter
  resolve patch selectors = by_state patch (filter (has_state indeterminate) selectors) selectors

  -- `resolve_all`; the patch names of a mesh differ.
  unfoldable pub resolve_all :
      List MeshPatch → List BoundarySelector → List (Str × BoundaryResolution)
  unfolding resolve
  resolve_all patches selectors =
      map (λ (patch : MeshPatch). (patch.name, resolve patch selectors)) patches
