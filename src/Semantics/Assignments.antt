-- ===== src/Semantics/Assignments.antt =====
-- `parse_top_level_assignments` of verification/foam_semantics/parser.py, with the scan to the end
-- of a statement that it uses. A dict is an association list in insertion order.
pub mod Total
use open_foam_agent.Prelude.{
  ℕ, zero, suc, ◌+◌, ◌-◌, Str, codes, Bool, true, false, not, ◌&&◌, ◌||◌, Option, none, some, List,
  [], ◌∷◌, ◌++◌, ◌==◌, nat_eq, list_eq, list_beq, if◌then◌else◌, ltb, leb, is_space, drop, take,
  length,
}
use open_foam_agent.Semantics.Model.{
  FoamKey, FoamTokenKind, directive, PatternState, indeterminate, token_kind_eq, pattern_state_eq,
}
use open_foam_agent.Semantics.Scanner.{
  is_quote, backslash, newline, slice, max_of, skip_ws, parse_key, matching_delimiter,
  strip_comments,
}

pub record Depths : Type 0 where
  pub round : ℕ
  pub square : ℕ
  pub curly : ℕ

-- The depths behind a character that is not quoted; a depth does not fall below zero.
abbrev pub deepen : ℕ → Depths → Depths
deepen c d =
    if c == 40
    then record d { round = d.round + 1 }
    else if c == 41
    then record d { round = d.round - 1 }
    else if c == 91
    then record d { square = d.square + 1 }
    else if c == 93
    then record d { square = d.square - 1 }
    else if c == 123
    then record d { curly = d.curly + 1 }
    else if c == 125
    then record d { curly = d.curly - 1 }
    else d

-- Whether a statement of a section ends at a character that is not quoted.
abbrev pub ends_statement : ℕ → ℕ → Depths → Bool
ends_statement section c d =
    ((c == 41) && ((d.round == 0) && (section == 41)))
    || (((c == 125) && ((d.curly == 0) && (section == 125)))
        || ((c == 59) && ((d.round == d.square) && ((d.square == d.curly) && (d.curly == 0)))))

unfoldable pub scan_rest : ℕ → Depths → Option ℕ → Bool → Str → ℕ → Option ℕ
scan_rest section d quote skip [] i = none
scan_rest section d quote true (c ∷ rest) i = scan_rest section d quote false rest (suc i)
scan_rest section d (some q) false (c ∷ rest) i =
    scan_rest section d (if not (c == backslash) && (c == q) then none else some q) (c == backslash)
      rest (suc i)
scan_rest section d none false (c ∷ rest) i =
    let later =
      scan_rest section (if is_quote c then d else deepen c d) (if is_quote c then some c else none)
        false rest (suc i) in
    if not (is_quote c) && ends_statement section c d then some i else later

abbrev pub stop_or : ℕ → ℕ → Option ℕ → ℕ
stop_or size index (some i) = i
stop_or size index none = max_of index (size - 1)

-- `_scan_to_statement_end`
unfoldable pub scan_to_statement_end : Str → ℕ → ℕ → ℕ
unfolding scan_rest
scan_to_statement_end text index section = stop_or (length text) index (
    scan_rest section (record { round = 0; square = 0; curly = 0 }) none false (drop index text)
      index)

-- `text.find(c, i)`
unfoldable pub find_rest : ℕ → Str → ℕ → Option ℕ
find_rest c [] i = none
find_rest c (d ∷ rest) i = let later = find_rest c rest (suc i) in if d == c then some i else later

unfoldable pub lstrip : Str → Str
unfolding is_space
lstrip [] = []
lstrip (c ∷ rest) = let later = lstrip rest in if is_space c then later else c ∷ rest

-- Whether nothing but spaces is left, and the text without the spaces at its end.
unfoldable pub rstrip : Str → Str
unfolding is_space list_beq
rstrip [] = []
rstrip (c ∷ rest) = let later = rstrip rest in if is_space c && (later == []) then [] else c ∷ later

abbrev pub Assignments : Type 0
Assignments = List (Str × Str)

-- `result[key] = value`
unfoldable pub assign : Str → Str → Assignments → Assignments
unfolding list_beq
assign key value [] = (key, value) ∷ []
assign key value ((k, v) ∷ rest) =
    let later = assign key value rest in if k == key then (k, value) ∷ rest else (k, v) ∷ later

-- What a round of the loop decides: to return, or to go on at an index.
pub data Round : Type 0 where
  finish : Assignments → Bool → Round
  continue : ℕ → Assignments → Bool → Round

abbrev pub after_line : Str → Option ℕ → ℕ
after_line clean none = length clean
after_line clean (some i) = i + 1

-- A directive is skipped with its line, an expansion with its statement.
unfoldable pub dynamic_entry : Str → FoamKey → ℕ → Assignments → Round
unfolding find_rest scan_to_statement_end
dynamic_entry clean key j result =
    if key.token_kind == directive
    then continue (after_line clean (find_rest newline (drop j clean) j)) result false
    else continue (scan_to_statement_end clean j 125 + 1) result false

unfoldable pub dictionary_entry : FoamKey → Option ℕ → Assignments → Bool → Round
unfolding assign
dictionary_entry key none result complete = finish result false
dictionary_entry key (some end_) result complete =
    continue (end_ + 1) (assign key.value (codes "<dictionary>") result) complete

unfoldable pub scalar_entry : FoamKey → Str → ℕ → Assignments → Bool → Round
unfolding assign
scalar_entry key [] semi result complete = continue (semi + 1) result false
scalar_entry key (c ∷ raw) semi result complete =
    continue (semi + 1) (assign key.value (c ∷ raw) result) complete

abbrev pub starts_block : Str → Bool
starts_block [] = false
starts_block (c ∷ rest) = c == 123

-- The part of a round behind its key.
unfoldable pub entry_round : Str → FoamKey → ℕ → Assignments → Bool → Round
unfolding dynamic_entry dictionary_entry scalar_entry matching_delimiter scan_to_statement_end
    lstrip rstrip
entry_round clean key j result complete =
    if key.pattern_state == indeterminate
    then dynamic_entry clean key j result
    else if starts_block (drop j clean)
    then dictionary_entry key (matching_delimiter clean j 123 125) result complete
    else scalar_entry key (rstrip (lstrip (slice clean j (scan_to_statement_end clean j 125))))
        (scan_to_statement_end clean j 125) result complete

unfoldable pub key_round : Str → ℕ → Option FoamKey × ℕ → Assignments → Bool → Round
unfolding entry_round skip_ws
key_round clean i (none, after_key) result complete =
    continue (max_of (i + 1) after_key) result complete
key_round clean i (some key, after_key) result complete =
    entry_round clean key (skip_ws clean after_key) result complete

unfoldable pub round_at : Str → ℕ → Assignments → Bool → Round
unfolding key_round parse_key skip_ws
round_at clean index result complete =
    let i = skip_ws clean index in
    if leb (length clean) i
    then finish result complete
    else key_round clean i (parse_key clean i) result complete

-- The loop, with fuel.
unfoldable pub assignments_loop : ℕ → Str → ℕ → Assignments → Bool → Option (Assignments × Bool)
unfolding round_at
assignments_loop zero clean i result complete =
    if ltb i (length clean) then none else some (result, complete)
assignments_loop (suc fuel) clean i result complete = elim (ltb i (length clean)) [
  | false ↦ some (result, complete)
  | true ↦ elim (round_at clean i result complete) [
    | finish r c ↦ some (r, c)
    | continue j r c ↦ assignments_loop fuel clean j r c
  ]
]

-- One round for each character is enough.
unfoldable pub parse_top_level_assignments : Str → Option (Assignments × Bool)
unfolding assignments_loop strip_comments
parse_top_level_assignments text =
    let clean = strip_comments text in assignments_loop (length clean) clean 0 [] true
