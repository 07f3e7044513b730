-- ===== src/Semantics/Scanner.antt =====
-- The scanning functions of verification/foam_semantics/parser.py. A loop over `text[i]` runs over
-- the characters that are left, with `i` beside them where the code returns it.
pub mod Comments
pub mod Progress
use open_foam_agent.Prelude.{
  ℕ, zero, suc, ◌+◌, ◌-◌, Str, codes, Bool, true, false, not, ◌&&◌, ◌||◌, Option, none, some, List,
  [], ◌∷◌, ◌++◌, map, ◌==◌, nat_eq, list_eq, if◌then◌else◌, contains, any, is_space, drop, take,
  length,
}
use open_foam_agent.Semantics.Model.{
  FoamKey, FoamTokenKind, word, string, directive, expansion, unknown, PatternState, literal,
  pattern_, indeterminate,
}

abbrev pub newline : ℕ
newline = 10

abbrev pub slash : ℕ
slash = 47

abbrev pub star : ℕ
star = 42

abbrev pub backslash : ℕ
backslash = 92

abbrev pub double_quote : ℕ
double_quote = 34

abbrev pub single_quote : ℕ
single_quote = 39

abbrev pub is_quote : ℕ → Bool
is_quote c = (c == double_quote) || (c == single_quote)

-- Where `strip_comments` stands: in plain text, in a quotation, behind a backslash of it, in a line
-- comment, at the star that opens a block comment, in it, at the slash that closes it.
pub data Mode : Type 0 where
  plain : Mode
  quoted escaped : ℕ → Mode
  line opening block closing : Mode

abbrev pub next_is : ℕ → Str → Bool
next_is d [] = false
next_is d (c ∷ cs) = c == d

-- The characters that follow a first one, and the mode they are read in.
abbrev pub plain_mode : ℕ → Str → Mode
plain_mode c rest =
    if is_quote c
    then quoted c
    else if (c == slash) && next_is slash rest
    then line
    else if (c == slash) && next_is star rest
    then opening
    else plain

abbrev pub quoted_mode : ℕ → ℕ → Str → Mode
quoted_mode q c [] = if c == q then plain else quoted q
quoted_mode q c (d ∷ rest) =
    if c == backslash then escaped q else if c == q then plain else quoted q

abbrev pub block_mode : ℕ → Str → Mode
block_mode c rest = if (c == star) && next_is slash rest then closing else block

-- What a character of plain text or of a block comment leaves in the output.
abbrev pub plain_out : ℕ → Mode → Str
plain_out c line = []
plain_out c opening = []
plain_out c other = c ∷ []

abbrev pub block_out : ℕ → Str → Mode → Str
block_out c rest closing = []
block_out c [] other = []
block_out c (d ∷ rest) other = if c == newline then c ∷ [] else []

unfoldable pub strip : Mode → Str → Str
strip mode [] = []
strip plain (c ∷ rest) = plain_out c (plain_mode c rest) ++ strip (plain_mode c rest) rest
strip (quoted q) (c ∷ rest) = c ∷ strip (quoted_mode q c rest) rest
strip (escaped q) (c ∷ rest) = c ∷ strip (quoted q) rest
strip line (c ∷ rest) =
    let ended = strip plain rest in
    let more = strip line rest in if c == newline then c ∷ ended else more
strip opening (c ∷ rest) = strip block rest
strip block (c ∷ rest) = block_out c rest (block_mode c rest) ++ strip (block_mode c rest) rest
strip closing (c ∷ rest) = strip plain rest

unfoldable pub strip_comments : Str → Str
unfolding strip
strip_comments text = strip plain text

unfoldable pub skip_rest : Str → ℕ → ℕ
unfolding is_space
skip_rest [] i = i
skip_rest (c ∷ rest) i = let later = skip_rest rest (suc i) in if is_space c then later else i

-- `_skip_ws`
unfoldable pub skip_ws : Str → ℕ → ℕ
unfolding skip_rest
skip_ws text index = skip_rest (drop index text) index

abbrev pub slice : Str → ℕ → ℕ → Str
slice text start stop = take (stop - start) (drop start text)

abbrev pub pattern_meta : Str
pattern_meta = codes ".*+?()|[]{}^$\\"

abbrev pub word_stops : Str
word_stops = codes "{}();"

-- The end of a bare word.
unfoldable pub word_end : Str → ℕ → ℕ
unfolding is_space contains
word_end [] i = i
word_end (c ∷ rest) i =
    let later = word_end rest (suc i) in if is_space c || contains word_stops c then i else later

-- A quotation: whether it is closed, what it holds, and where it ends.
pub record Quotation : Type 0 where
  pub closed : Bool
  pub value : Str
  pub stop : ℕ

abbrev pub with_char : ℕ → Quotation → Quotation
with_char c q = record q { value = c ∷ q.value }

unfoldable pub quotation : ℕ → Bool → Str → ℕ → Quotation
quotation q skip [] i = record { closed = false; value = []; stop = i }
quotation q true (c ∷ rest) i = with_char c (quotation q false rest (suc i))
quotation q false (c ∷ []) i =
    if c == q
    then record { closed = true; value = []; stop = suc i }
    else record { closed = false; value = c ∷ []; stop = suc i }
quotation q false (c ∷ d ∷ rest) i =
    let later = quotation q (c == backslash) (d ∷ rest) (suc i) in
    if (c == q) && not (c == backslash)
    then record { closed = true; value = []; stop = suc i }
    else with_char c later

unfoldable pub key_of_quotation : Str → ℕ → Quotation → Option FoamKey × ℕ
unfolding any contains take
key_of_quotation text start q =
    let raw = slice text start q.stop in
    if q.closed
    then (
      some (record {
        raw = raw;
        value = q.value;
        token_kind = string;
        pattern_state = if any (contains pattern_meta) q.value then pattern_ else literal;
      }),
      q.stop,
    )
    else (
      some (record { raw = raw; value = raw; token_kind = unknown; pattern_state = indeterminate }),
      q.stop,
    )

abbrev pub bare_key : Str → FoamTokenKind → PatternState → Option FoamKey
bare_key raw kind state =
    some (record { raw = raw; value = raw; token_kind = kind; pattern_state = state })

abbrev pub max_of : ℕ → ℕ → ℕ
max_of a b = a + (b - a)

-- A word that ends at `stop`; an empty one is no key.
unfoldable pub key_of_word : ℕ → ℕ → Str → ℕ → Option FoamKey × ℕ
key_of_word index i [] stop = (none, max_of (stop + 1) (index + 1))
key_of_word index i (c ∷ raw) stop =
    if c == 36
    then (bare_key (c ∷ raw) expansion indeterminate, stop)
    else if c == 35
    then (bare_key (c ∷ raw) directive indeterminate, stop)
    else (bare_key (c ∷ raw) word literal, stop)

unfoldable pub key_at : Str → ℕ → ℕ → Str → Option FoamKey × ℕ
unfolding quotation key_of_quotation word_end key_of_word take
key_at text index i [] = (none, i)
key_at text index i (c ∷ rest) =
    let stop = word_end (c ∷ rest) i in
    if is_quote c
    then key_of_quotation text i (quotation c false rest (suc i))
    else key_of_word index i (slice text i stop) stop

unfoldable pub parse_key : Str → ℕ → Option FoamKey × ℕ
unfolding skip_ws key_at
parse_key text index = let i = skip_ws text index in key_at text index i (drop i text)

-- The loop of `matching_delimiter`; the depth is `opened - closed`, which may be negative.
unfoldable pub match_rest : ℕ → ℕ → ℕ → ℕ → Option ℕ → Bool → Str → ℕ → Option ℕ
match_rest opener closer opened closed quote skip [] i = none
match_rest opener closer opened closed quote true (c ∷ rest) i =
    match_rest opener closer opened closed quote false rest (suc i)
match_rest opener closer opened closed (some q) false (c ∷ rest) i =
    match_rest opener closer opened closed
      (if not (c == backslash) && (c == q) then none else some q) (c == backslash) rest (suc i)
match_rest opener closer opened closed none false (c ∷ rest) i =
    let counts = not (is_quote c) in
    let opens = counts && (c == opener) in
    let closes = counts && (not (c == opener) && (c == closer)) in
    let later =
      match_rest opener closer (if opens then suc opened else opened)
        (if closes then suc closed else closed) (if is_quote c then some c else none) false rest
        (suc i) in
    if closes && (opened == suc closed) then some i else later

unfoldable pub matching_delimiter : Str → ℕ → ℕ → ℕ → Option ℕ
unfolding match_rest
matching_delimiter text open_index opener closer =
    match_rest opener closer 0 0 none false (drop open_index text) open_index
