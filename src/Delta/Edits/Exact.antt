-- ===== src/Delta/Edits/Exact.antt =====
-- A patch that is accepted replaces one occurrence of its old text.
use open_foam_agent.Prelude.{ℕ, [], ◌∷◌, nat_eq, list_eq, eq_refl, ◌≡◌, arith, starts_with}
use open_foam_agent.Delta.Edits.{count, count_from}

-- Two occurrences that overlap are counted as one: the text `ccc` holds `cc` at both its first
-- places.
pub count_overlapping : (c : ℕ) → count (c ∷ c ∷ []) (c ∷ c ∷ c ∷ []) ≡ 1
unfolding count count_from starts_with
count_overlapping c = ground (arith, eq_refl c)
