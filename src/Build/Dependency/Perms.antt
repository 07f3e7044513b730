-- ===== src/Build/Dependency/Perms.antt =====
-- From Boolean membership to the library's permutations, for lists of indices.
use mathlib.Core.List.{
  Mem, Nodup, Perm, perm_ext_iff_of_Nodup, mem-cons, mem-cons_self, mem-cons_of_mem, not-mem-nil,
  Nodup-cons, Nodup-nil,
}
use mathlib.Core.Logic.Or
use mathlib.Core.Bool.{Bool-set}
use open_foam_agent.Prelude.{
  ℕ, true, List, [], ◌∷◌, ◌==◌, nat_eq, ◌≡◌, contains, distinct, arith, Bool-cases, inl, inr,
  eq_iff,
}

contains_of_mem : (xs : List ℕ) (a : ℕ) → Mem a xs → contains xs a ≡ true
unfolding contains
contains_of_mem [] a m = absurd (not-mem-nil m)
contains_of_mem (x ∷ xs) a m =
    Or.elim (Bool-set _ _) (mem-cons.0 m) (λ e. ground (arith, eq_iff a x))
      (λ r. ground (arith, contains_of_mem xs a r))

mem_of_contains : (xs : List ℕ) (a : ℕ) → contains xs a ≡ true → Mem a xs
unfolding contains
mem_of_contains [] a h = absurd (ground arith)
mem_of_contains (x ∷ xs) a h = elim (Bool-cases (a == x)) [
  | inl same ↦ rw ((eq_iff a x).0 same) mem-cons_self
  | inr other ↦ mem-cons_of_mem x (mem_of_contains xs a (ground arith))
]

Nodup-of_distinct : (xs : List ℕ) → distinct xs ≡ true → Nodup xs
unfolding distinct
Nodup-of_distinct [] d = Nodup-nil
Nodup-of_distinct (x ∷ xs) d =
    Nodup-cons.1 (λ m. ground (arith, contains_of_mem xs x m), Nodup-of_distinct xs (ground arith))

-- Two lists without repetition that hold the same indices are permutations of one another.
pub perm_of_contains :
    (xs ys : List ℕ)
    → distinct xs ≡ true
    → distinct ys ≡ true
    → ((a : ℕ) → contains xs a ≡ contains ys a)
    → Perm xs ys
perm_of_contains xs ys dx dy h =
    (perm_ext_iff_of_Nodup (Nodup-of_distinct xs dx) (Nodup-of_distinct ys dy)).1 (λ a. (
      λ m. mem_of_contains ys a (ground (arith, h a, contains_of_mem xs a m)),
      λ m. mem_of_contains xs a (ground (arith, h a, contains_of_mem ys a m)),
    ))
