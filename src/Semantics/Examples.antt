-- ===== src/Semantics/Examples.antt =====
-- Dictionary texts and boundary entries.
use open_foam_agent.Prelude.{
  ℕ, ◌<◌, Str, codes, Bool, true, false, Option, some, List, [], ◌∷◌, ◌≡◌, refl, ◌↔◌, ◌==◌, length,
  any, list_eq, list_beq, nat_eq, arith,
}
use open_foam_agent.Semantics.Model.{
  BoundarySelector, MeshPatch, PatternState, literal, pattern_, indeterminate, word, missing,
}
use open_foam_agent.Semantics.Scanner.{strip_comments, matching_delimiter}
use open_foam_agent.Semantics.Scanner.Comments.{strip_comments-idempotent}
use open_foam_agent.Semantics.Assignments.{parse_top_level_assignments, Assignments}
use open_foam_agent.Semantics.Assignments.Total.{parse_top_level_assignments-total}
use open_foam_agent.Semantics.Boundary.{
  resolve, has_state, is_exact, is_grouped, is_matching, is_unsafe,
}
use open_foam_agent.Semantics.Boundary.Choice.{resolve-selector, resolve-missing, IsChoice}

abbrev control : Str
control = codes "a 1; // b 2;\nc { d 3; } e /* ; */ 4;"

strip_test : strip_comments (codes "a/**/\"//\" // b\n/") ≡ codes "a\"//\" \n/"
unfolding strip_comments
strip_test = refl

assignments_test :
    parse_top_level_assignments control
    ≡ some (
      (codes "a", codes "1") ∷ (codes "c", codes "<dictionary>") ∷ (codes "e", codes "4") ∷ [],
      true,
    )
unfolding parse_top_level_assignments
assignments_test = refl

parse_top_level_assignments-total_example :
    (r : Assignments × Bool) × (parse_top_level_assignments control ≡ some r)
parse_top_level_assignments-total_example = parse_top_level_assignments-total control

strip_comments-idempotent_example : strip_comments (strip_comments control) ≡ strip_comments control
strip_comments-idempotent_example = strip_comments-idempotent control

in_text : 2 < length (codes "a  b;")
in_text = omega arith

abbrev braces : Str
braces = codes "{\"}\" {}} "

brace_test : matching_delimiter braces 0 123 125 ≡ some 7
unfolding matching_delimiter
brace_test = refl

abbrev selector : Str → PatternState → ℕ → BoundarySelector
selector value state order = record {
  key = record { raw = value; value = value; token_kind = word; pattern_state = state };
  order = order;
  dictionary_body = [];
  field_type = codes "fixedValue";
}

abbrev wall : MeshPatch
wall = record {
  name = codes "hull";
  patch_type = codes "wall";
  groups = codes "walls" ∷ codes "solid" ∷ [];
  order = 0;
}

-- A pattern matcher that knows one pattern.
abbrev fullmatch : Str → Str → Option Bool
fullmatch regex text = some (regex == codes ".*")

abbrev selectors : List BoundarySelector
selectors =
    selector (codes "solid") literal 0
    ∷ selector (codes ".*") pattern_ 1
    ∷ selector (codes "walls") literal 2
    ∷ []

chosen_test :
    (resolve fullmatch wall selectors).selector ≡ some (selector (codes "walls") literal 2)
unfolding resolve list_beq
chosen_test = refl

resolve-selector_example :
    (any (has_state indeterminate) selectors ≡ false)
    × IsChoice fullmatch wall selectors
        (selector (codes "walls") literal 2)
        (resolve fullmatch wall selectors).match_kind
resolve-selector_example =
    resolve-selector fullmatch wall selectors (selector (codes "walls") literal 2) chosen_test

resolve-missing_example : ((resolve fullmatch wall selectors).status ≡ missing) ↔ (
    (any (has_state indeterminate) selectors ≡ false)
    × (any (is_exact wall) selectors ≡ false)
    × (any (is_grouped wall) selectors ≡ false)
    × ((wall.patch_type == codes "empty") ≡ false)
    × (any (is_matching fullmatch wall) selectors ≡ false)
    × (any (is_unsafe fullmatch wall) selectors ≡ false))
resolve-missing_example = resolve-missing fullmatch wall selectors
