-- ===== src/Semantics/Assignments/Total.antt =====
-- The loop of `parse_top_level_assignments` ends.
use open_foam_agent.Prelude.{
  ℕ, zero, suc, ◌+◌, ◌≤◌, ◌<◌, Str, Bool, true, false, not, ◌&&◌, Option, none, some, [], ◌∷◌, ◌==◌,
  nat_eq, list_eq, ◌≡◌, refl, arith, if◌then◌else◌, Bool-cases, inl, inr, length, drop, leb, ltb,
  ltb→lt,
}
use open_foam_agent.Semantics.Model.{
  FoamKey, indeterminate, directive, token_kind_eq, pattern_state_eq,
}
use open_foam_agent.Semantics.Scanner.{
  skip_ws, parse_key, matching_delimiter, newline, slice, strip_comments, is_quote, backslash,
}
use open_foam_agent.Semantics.Scanner.Progress.{skip_ws-ge, parse_key-gt, matching_delimiter-bounds}
use open_foam_agent.Semantics.Assignments.{
  Depths, scan_rest, stop_or, scan_to_statement_end, find_rest, after_line, Round, finish, continue,
  dynamic_entry, dictionary_entry, scalar_entry, starts_block, entry_round, key_round, round_at,
  assignments_loop, parse_top_level_assignments, Assignments, deepen, ends_statement, lstrip,
  rstrip,
}

scan_rest-ge :
    (section : ℕ) (d : Depths) (quote : Option ℕ) (skip : Bool) (rest : Str) (i k : ℕ)
    → scan_rest section d quote skip rest i ≡ some k
    → i ≤ k
unfolding scan_rest
scan_rest-ge section d quote skip [] i k h = absurd (cc)
scan_rest-ge section d quote true (c ∷ rest) i k h =
    ground (arith, scan_rest-ge section d quote false rest (suc i) k h)
scan_rest-ge section d (some q) false (c ∷ rest) i k h = ground (
  arith,
  scan_rest-ge section d (if not (c == backslash) && (c == q) then none else some q)
      (c == backslash) rest (suc i) k h,
)
scan_rest-ge section d none false (c ∷ rest) i k h =
    elim (Bool-cases (not (is_quote c) && ends_statement section c d)) [
      | inl ends ↦ ground (arith, rw ends at h)
      | inr goes ↦ ground (
        arith,
        scan_rest-ge section (if is_quote c then d else deepen c d)
            (if is_quote c then some c else none) false rest (suc i) k (rw goes at h),
      )
    ]

scan_to_statement_end-ge :
    (text : Str) (index section : ℕ) → index ≤ scan_to_statement_end text index section
unfolding scan_to_statement_end
scan_to_statement_end-ge text index section =
    go (scan_rest section start none false (drop index text) index) refl
  where
    start : Depths
    start = record { round = 0; square = 0; curly = 0 }

    go :
        (o : Option ℕ)
        → scan_rest section start none false (drop index text) index ≡ o
        → index
          ≤ stop_or (length text) index (scan_rest section start none false (drop index text) index)
    go none e = rw e (ground arith)
    go (some k) e = rw e (scan_rest-ge section start none false (drop index text) index k e)

find_rest-ge : (c : ℕ) (rest : Str) (i k : ℕ) → find_rest c rest i ≡ some k → i ≤ k
unfolding find_rest
find_rest-ge c [] i k h = absurd (cc)
find_rest-ge c (d ∷ rest) i k h = ground (arith, h, find_rest-ge c rest (suc i) k)

-- A round that goes on does so behind an index.
abbrev Moves : ℕ → Round → Type 0
Moves i (finish r c) = Unit
Moves i (continue j r c) = i < j

dynamic-Moves :
    (clean : Str) (key : FoamKey) (i j : ℕ) (result : Assignments)
    → i < length clean
    → i ≤ j
    → Moves i (dynamic_entry clean key j result)
unfolding dynamic_entry
dynamic-Moves clean key i j result lt le = elim (Bool-cases (key.token_kind == directive)) [
  | inl hit ↦ rw hit (go (find_rest newline (drop j clean) j) refl)
  | inr miss ↦ rw miss (ground (arith, scan_to_statement_end-ge clean j 125))
]
  where
    go :
        (o : Option ℕ)
        → find_rest newline (drop j clean) j ≡ o
        → i < after_line clean (find_rest newline (drop j clean) j)
    go none e = rw e lt
    go (some k) e = rw e (ground (arith, find_rest-ge newline (drop j clean) j k e))

dictionary-Moves :
    (clean : Str) (key : FoamKey) (i j : ℕ) (result : Assignments) (complete : Bool)
    → i ≤ j
    → Moves i (dictionary_entry key (matching_delimiter clean j 123 125) result complete)
unfolding dictionary_entry
dictionary-Moves clean key i j result complete le = go (matching_delimiter clean j 123 125) refl
  where
    go :
        (o : Option ℕ)
        → matching_delimiter clean j 123 125 ≡ o
        → Moves i (dictionary_entry key (matching_delimiter clean j 123 125) result complete)
    go none e = rw e tt
    go (some k) e = rw e (ground (arith, matching_delimiter-bounds clean j 123 125 k e))

scalar-Moves :
    (key : FoamKey) (raw : Str) (i semi : ℕ) (result : Assignments) (complete : Bool)
    → i ≤ semi
    → Moves i (scalar_entry key raw semi result complete)
unfolding scalar_entry
scalar-Moves key [] i semi result complete le = ground arith
scalar-Moves key (c ∷ raw) i semi result complete le = ground arith

entry-Moves :
    (clean : Str) (key : FoamKey) (i j : ℕ) (result : Assignments) (complete : Bool)
    → i < length clean
    → i ≤ j
    → Moves i (entry_round clean key j result complete)
unfolding entry_round
entry-Moves clean key i j result complete lt le =
    elim (Bool-cases (key.pattern_state == indeterminate)) [
      | inl hit ↦ rw hit (dynamic-Moves clean key i j result lt le)
      | inr miss ↦ elim (Bool-cases (starts_block (drop j clean))) [
        | inl block ↦ rw (miss, block) (dictionary-Moves clean key i j result complete le)
        | inr plain ↦
            rw (miss, plain)
              (scalar-Moves key
                (rstrip (lstrip (slice clean j (scan_to_statement_end clean j 125)))) i
                (scan_to_statement_end clean j 125) result complete
                (ground (arith, scan_to_statement_end-ge clean j 125)))
      ]
    ]

key-Moves :
    (clean : Str) (i : ℕ) (k : Option FoamKey × ℕ) (result : Assignments) (complete : Bool)
    → i < length clean
    → i < k.1
    → Moves i (key_round clean i k result complete)
unfolding key_round
key-Moves clean i (none, after_key) result complete lt gt = ground arith
key-Moves clean i (some key, after_key) result complete lt gt =
    entry-Moves clean key i (skip_ws clean after_key) result complete lt
      (ground (arith, skip_ws-ge clean after_key))

Moves-from : (i j : ℕ) (r : Round) → i ≤ j → Moves j r → Moves i r
Moves-from i j (finish r c) le m = tt
Moves-from i j (continue k r c) le m = ground (arith, le, m)

round-Moves :
    (clean : Str) (index : ℕ) (result : Assignments) (complete : Bool)
    → Moves index (round_at clean index result complete)
unfolding round_at
round-Moves clean index result complete =
    elim (Bool-cases (leb (length clean) (skip_ws clean index))) [
      | inl past ↦ rw past tt
      | inr here ↦
          let lt : skip_ws clean index < length clean = ground arith in
          rw here (
            Moves-from index (skip_ws clean index)
              (key_round clean (skip_ws clean index) (parse_key clean (skip_ws clean index)) result
                complete)
              (skip_ws-ge clean index)
              (key-Moves clean (skip_ws clean index) (parse_key clean (skip_ws clean index)) result
                complete lt (parse_key-gt clean (skip_ws clean index) lt)))
    ]

-- As much fuel as there is text left is enough.
loop-total :
    (fuel : ℕ) (clean : Str) (i : ℕ) (result : Assignments) (complete : Bool)
    → length clean ≤ i + fuel
    → (r : Assignments × Bool) × (assignments_loop fuel clean i result complete ≡ some r)
unfolding assignments_loop
loop-total zero clean i result complete le = elim (Bool-cases (ltb i (length clean))) [
  | inl more ↦ absurd (none_left (ltb→lt i (length clean) more))
  | inr past ↦ ((result, complete), rw past refl)
]
  where
    none_left : i < length clean → ⊥
    none_left lt = ground arith
loop-total (suc fuel) clean i result complete le = elim (Bool-cases (ltb i (length clean))) [
  | inl more ↦
      go (round_at clean i result complete) refl (round-Moves clean i result complete)
        (loop-total fuel clean)
  | inr past ↦ ((result, complete), rw (past, assignments_loop) refl)
]
  where
    go :
        (b : Round)
        → round_at clean i result complete ≡ b
        → Moves i (round_at clean i result complete)
        → ((j : ℕ) (r : Assignments) (c : Bool)
            → length clean ≤ j + fuel
            → (x : Assignments × Bool) × (assignments_loop fuel clean j r c ≡ some x))
        → (x : Assignments × Bool) × (assignments_loop (suc fuel) clean i result complete ≡ some x)
    go (finish r c) e m ih = elim (Bool-cases (ltb i (length clean))) [
      | inl more ↦ ((r, c), rw (more, e, assignments_loop) refl)
      | inr past ↦ ((result, complete), rw (past, assignments_loop) refl)
    ]
    go (continue j r c) e m ih =
        let lt : i < j = rw e at m in
        let (x, f) = ih j r c (ground (arith, le, lt)) in
        elim (Bool-cases (ltb i (length clean))) [
          | inl more ↦ (x, rw (more, e, assignments_loop) f)
          | inr past ↦ ((result, complete), rw (past, assignments_loop) refl)
        ]

-- The loop over a text always ends: a round for each character of the stripped text is enough.
pub parse_top_level_assignments-total :
    (text : Str) → (r : Assignments × Bool) × (parse_top_level_assignments text ≡ some r)
unfolding parse_top_level_assignments
parse_top_level_assignments-total text =
    loop-total (length (strip_comments text)) (strip_comments text) 0 [] true (ground arith)
