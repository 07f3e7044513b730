-- ===== src/Semantics/Scanner/Comments.antt =====
-- `strip_comments` leaves nothing to strip.
use open_foam_agent.Prelude.{
  ℕ, ◌≤◌, Str, true, false, ◌&&◌, [], ◌∷◌, ◌==◌, nat_eq, eq_iff, ◌≡◌, refl, ap, arith, Bool-cases,
  inl, inr, ◌⊎◌, length,
}
use open_foam_agent.Semantics.Scanner.{
  Mode, plain, quoted, escaped, line, opening, block, closing, strip, strip_comments, plain_mode,
  quoted_mode, block_mode, next_is, is_quote, slash, star, backslash, newline,
}

-- No comment makes the text longer.
strip_le : (m : Mode) (text : Str) → length (strip m text) ≤ length text
unfolding strip
strip_le m [] = ground arith
strip_le plain (c ∷ rest) = ground (arith, strip_le (plain_mode c rest) rest)
strip_le (quoted q) (c ∷ rest) = ground (arith, strip_le (quoted_mode q c rest) rest)
strip_le (escaped q) (c ∷ rest) = ground (arith, strip_le (quoted q) rest)
strip_le line (c ∷ rest) = ground (arith, strip_le plain rest, strip_le line rest)
strip_le opening (c ∷ rest) = ground (arith, strip_le block rest)
strip_le block (c ∷ rest) = ground (arith, strip_le (block_mode c rest) rest)
strip_le closing (c ∷ rest) = ground (arith, strip_le plain rest)

-- The mode that the stripped text is read in again.
abbrev again : Mode → Mode
again (quoted q) = quoted q
again (escaped q) = escaped q
again other = plain

-- Outside a backslash, the mode behind a quoted character does not depend on what follows.
quoted_mode_free :
    (q c : ℕ) (t u : Str) → (c == backslash) ≡ false → quoted_mode q c t ≡ quoted_mode q c u
quoted_mode_free q c [] [] h = refl
quoted_mode_free q c [] (d ∷ u) h = rw h refl
quoted_mode_free q c (d ∷ t) [] h = rw h refl
quoted_mode_free q c (d ∷ t) (e ∷ u) h = rw h refl

again_quoted : (q c : ℕ) → again (quoted_mode q c []) ≡ quoted_mode q c []
again_quoted q c = elim (Bool-cases (c == q)) [
  | inl same ↦ rw same refl
  | inr other ↦ rw other refl
]

-- A character that is no slash comes out of plain text first.
next_plain :
    (d e : ℕ) (rest : Str) → (d == slash) ≡ false → next_is e (strip plain (d ∷ rest)) ≡ (d == e)
unfolding strip
next_plain d e rest h = elim (Bool-cases (is_quote d)) [
  | inl quote ↦ rw quote refl
  | inr other ↦ rw (other, h) refl
]

-- A plain slash is no comment in the stripped text either.
plain_mode_again :
    (c : ℕ) (rest : Str) → plain_mode c rest ≡ plain → plain_mode c (strip plain rest) ≡ plain
unfolding strip
plain_mode_again c [] h = h
plain_mode_again c (d ∷ rest) h = elim (Bool-cases (d == slash)) [
  | inl same ↦ elim (Bool-cases (is_quote c)) [
    | inl quote ↦ absurd (quoted_plain (rw quote at h))
    | inr other ↦ elim (Bool-cases (c == slash)) [
      | inl both ↦ absurd (line_plain (rw (other, both, same) at h))
      | inr free ↦ rw (other, free) refl
    ]
  ]
  | inr other ↦ rw (next_plain d slash rest other, next_plain d star rest other) h
]
  where
    quoted_plain : quoted c ≡ plain → ⊥
    quoted_plain e = cc

    line_plain : ◌≡◌ {A = Mode} line plain → ⊥
    line_plain e = cc

newline_plain : (rest : Str) → plain_mode newline rest ≡ plain
newline_plain rest = refl

plain_cases :
    (c : ℕ) (rest : Str)
    → (is_quote c ≡ true)
      ⊎ ((plain_mode c rest ≡ line) ⊎ ((plain_mode c rest ≡ opening) ⊎ (plain_mode c rest ≡ plain)))
plain_cases c rest = elim (Bool-cases (is_quote c)) [
  | inl quote ↦ inl quote
  | inr other ↦ elim (Bool-cases ((c == slash) && next_is slash rest)) [
    | inl comment ↦ inr (inl (rw (other, comment) refl))
    | inr no_line ↦ elim (Bool-cases ((c == slash) && next_is star rest)) [
      | inl comment ↦ inr (inr (inl (rw (other, no_line, comment) refl)))
      | inr no_block ↦ inr (inr (inr (rw (other, no_line, no_block) refl)))
    ]
  ]
]

strip-again : (m : Mode) (text : Str) → strip (again m) (strip m text) ≡ strip m text
unfolding strip
strip-again plain [] = refl
strip-again (quoted q) [] = refl
strip-again (escaped q) [] = refl
strip-again line [] = refl
strip-again opening [] = refl
strip-again block [] = refl
strip-again closing [] = refl
strip-again plain (c ∷ rest) = elim (plain_cases c rest) [
  | inl quote ↦ rw (quote, quote) (ap (λ t. c ∷ t) (strip-again (quoted c) rest))
  | inr (inl e) ↦ rw e (strip-again line rest)
  | inr (inr (inl e)) ↦ rw e (strip-again opening rest)
  | inr (inr (inr e)) ↦
      rw e (rw (plain_mode_again c rest e) (ap (λ t. c ∷ t) (strip-again plain rest)))
]
strip-again (quoted q) (c ∷ []) = refl
strip-again (quoted q) (c ∷ d ∷ rest) = elim (Bool-cases (c == backslash)) [
  | inl hit ↦ rw (hit, hit) (ap (λ t. c ∷ t) (strip-again (escaped q) (d ∷ rest)))
  | inr miss ↦
      rw
        (
          quoted_mode_free q c (d ∷ rest) [] miss,
          quoted_mode_free q c (strip (quoted_mode q c []) (d ∷ rest)) [] miss,
        )
        (ap (λ t. c ∷ t) (rw (again_quoted q c) at (strip-again (quoted_mode q c []) (d ∷ rest))))
]
strip-again (escaped q) (c ∷ rest) = ap (λ t. c ∷ t) (strip-again (quoted q) rest)
strip-again line (c ∷ rest) = elim (Bool-cases (c == newline)) [
  | inl ended ↦ rw ((eq_iff c newline).0 ended) (ap (λ t. newline ∷ t) (strip-again plain rest))
  | inr more ↦ rw more (strip-again line rest)
]
strip-again opening (c ∷ rest) = strip-again block rest
strip-again block (c ∷ []) = elim (Bool-cases ((c == star) && next_is slash [])) [
  | inl hit ↦ rw hit refl
  | inr miss ↦ rw miss refl
]
strip-again block (c ∷ d ∷ rest) = elim (Bool-cases ((c == star) && next_is slash (d ∷ rest))) [
  | inl hit ↦ rw hit (strip-again closing (d ∷ rest))
  | inr miss ↦ elim (Bool-cases (c == newline)) [
    | inl ended ↦
        rw (miss, (eq_iff c newline).0 ended) (ap (λ t. newline ∷ t) (strip-again block (d ∷ rest)))
    | inr more ↦ rw (miss, more) (strip-again block (d ∷ rest))
  ]
]
strip-again closing (c ∷ rest) = strip-again plain rest

-- Stripping comments from a stripped text changes nothing.
pub strip_comments-idempotent :
    (text : Str) → strip_comments (strip_comments text) ≡ strip_comments text
unfolding strip_comments
strip_comments-idempotent text = strip-again plain text

pub strip_comments-le : (text : Str) → length (strip_comments text) ≤ length text
unfolding strip_comments
strip_comments-le text = strip_le plain text
