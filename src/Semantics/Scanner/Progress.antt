-- ===== src/Semantics/Scanner/Progress.antt =====
-- Every scanner moves forward, and stays in the text.
use open_foam_agent.Prelude.{
  ℕ, zero, suc, ◌+◌, ◌-◌, ◌≤◌, ◌<◌, Str, Bool, true, false, not, ◌&&◌, Option, none, some, [], ◌∷◌,
  ◌==◌, nat_eq, ◌≡◌, refl, ap, arith, if◌then◌else◌, Bool-cases, inl, inr, length, drop, take,
  length-drop,
}
use open_foam_agent.Semantics.Scanner.{
  skip_rest, skip_ws, word_end, quotation, Quotation, key_of_quotation, key_of_word, key_at,
  parse_key, match_rest, matching_delimiter, is_quote, slice, backslash,
}

skip_rest-ge : (rest : Str) (i : ℕ) → i ≤ skip_rest rest i
unfolding skip_rest
skip_rest-ge [] i = ground arith
skip_rest-ge (c ∷ rest) i = ground (arith, skip_rest-ge rest (suc i))

pub skip_ws-ge : (text : Str) (i : ℕ) → i ≤ skip_ws text i
unfolding skip_ws
skip_ws-ge text i = skip_rest-ge (drop i text) i

quotation-ge : (q : ℕ) (skip : Bool) (rest : Str) (i : ℕ) → i ≤ (quotation q skip rest i).stop
unfolding quotation
quotation-ge q skip [] i = ground arith
quotation-ge q true (c ∷ rest) i = ground (arith, quotation-ge q false rest (suc i))
quotation-ge q false (c ∷ []) i = ground arith
quotation-ge q false (c ∷ d ∷ rest) i =
    ground (arith, quotation-ge q (c == backslash) (d ∷ rest) (suc i))

key_of_quotation_stop :
    (text : Str) (start : ℕ) (q : Quotation) → (key_of_quotation text start q).1 ≡ q.stop
unfolding key_of_quotation
key_of_quotation_stop text start q = elim (Bool-cases q.closed) [
  | inl closed ↦ rw closed refl
  | inr open_ ↦ rw open_ refl
]

take_some : (n : ℕ) (xs : Str) (c : ℕ) (cs : Str) → take n xs ≡ c ∷ cs → 0 < n
unfolding take
take_some zero xs c cs h = absurd (cc)
take_some (suc n) xs c cs h = ground arith

key_of_word-gt :
    (index i stop : ℕ) (raw : Str)
    → index ≤ i
    → ((c : ℕ) (cs : Str) → raw ≡ c ∷ cs → i < stop)
    → index < (key_of_word index i raw stop).1
unfolding key_of_word
key_of_word-gt index i stop [] le h = ground arith
key_of_word-gt index i stop (c ∷ raw) le h = let forward = h c raw refl in ground arith

key_at-gt :
    (text : Str) (index i : ℕ) (c : ℕ) (rest : Str)
    → index ≤ i
    → index < (key_at text index i (c ∷ rest)).1
unfolding key_at
key_at-gt text index i c rest le = elim (Bool-cases (is_quote c)) [
  | inl quote ↦
      let q = quotation c false rest (suc i) in
      let same = key_of_quotation_stop text i q in
      let forward = quotation-ge c false rest (suc i) in
      rw quote (rw same (ground (arith, forward)))
  | inr other ↦
      let stop = word_end (c ∷ rest) i in
      rw other (
        key_of_word-gt index i stop (slice text i stop) le
          (λ d ds h. ground (arith, take_some (stop - i) (drop i text) d ds h)))
]

-- A key that is looked for at an index inside the text ends behind that index.
pub parse_key-gt : (text : Str) (index : ℕ) → index < length text → index < (parse_key text index).1
unfolding parse_key
parse_key-gt text index h = go (drop (skip_ws text index) text) refl
  where
    go :
        (rest : Str)
        → drop (skip_ws text index) text ≡ rest
        → index < (key_at text index (skip_ws text index) (drop (skip_ws text index) text)).1
    go [] e =
        let here : length (drop (skip_ws text index) text) ≡ 0 = ap length e in
        rw (e, key_at) (ground (arith, h, here, length-drop (skip_ws text index) text))
    go (c ∷ rest) e =
        rw e (key_at-gt text index (skip_ws text index) c rest (skip_ws-ge text index))

match_rest-bounds :
    (opener closer opened closed : ℕ) (quote : Option ℕ) (skip : Bool) (rest : Str) (i k : ℕ)
    → match_rest opener closer opened closed quote skip rest i ≡ some k
    → (i ≤ k) × (k < i + length rest)
unfolding match_rest
match_rest-bounds opener closer opened closed quote skip [] i k h = absurd (cc)
match_rest-bounds opener closer opened closed quote true (c ∷ rest) i k h =
    ground (arith, match_rest-bounds opener closer opened closed quote false rest (suc i) k h)
match_rest-bounds opener closer opened closed (some q) false (c ∷ rest) i k h = ground (
  arith,
  match_rest-bounds opener closer opened closed
      (if not (c == backslash) && (c == q) then none else some q) (c == backslash) rest (suc i) k h,
)
match_rest-bounds opener closer opened closed none false (c ∷ rest) i k h = ground (
  arith,
  h,
  match_rest-bounds opener closer (if not (is_quote c) && (c == opener) then suc opened else opened)
      (if not (is_quote c) && (not (c == opener) && (c == closer)) then suc closed else closed)
      (if is_quote c then some c else none) false rest (suc i) k,
)

-- A matching delimiter that is found is inside the text, and not before the index that the
-- search starts at.
pub matching_delimiter-bounds :
    (text : Str) (open_index opener closer k : ℕ)
    → matching_delimiter text open_index opener closer ≡ some k
    → (open_index ≤ k) × (k < length text)
unfolding matching_delimiter
matching_delimiter-bounds text open_index opener closer k h = ground (
  arith,
  match_rest-bounds opener closer 0 0 none false (drop open_index text) open_index k h,
  length-drop open_index text,
)
