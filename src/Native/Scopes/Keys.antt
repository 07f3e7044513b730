-- ===== src/Native/Scopes/Keys.antt =====
-- Scope keys: the texts that `scope_key` of contracts/execution_scopes.py writes and
-- `scope_from_key` reads.
use open_foam_agent.Prelude.{
  Str, true, ◌&&◌, some, [], ◌∷◌, ◌++◌, ◌==◌, nat_eq, list_eq, list_beq, eq_iff, eq_refl, ◌≡◌, refl,
  sym, ap, ◌∙◌, arith, Bool-cases, inl, inr, Result, ok, err, starts_with, drop, length,
}
use open_foam_agent.Native.Errors.{ValueError}
use open_foam_agent.Native.Contracts.{is_region_name}
use open_foam_agent.Native.Scopes.{
  ExecutionScope, named_scope, scope_key, scope_from_key, root_scope_key, region_scope_prefix,
}

-- A text is a prefix and a rest exactly if it starts with the one and goes on with the other.
pub prefix_split :
    (prefix name key : Str)
    → (key == (prefix ++ name)) ≡ (starts_with key prefix && (drop (length prefix) key == name))
unfolding starts_with list_beq
prefix_split [] name key = refl
prefix_split (p ∷ prefix) name [] = refl
prefix_split (p ∷ prefix) name (c ∷ key) = ground (arith, prefix_split prefix name key)

region_key :
    (key : Str)
    → starts_with key region_scope_prefix ≡ true
    → region_scope_prefix ++ drop (length region_scope_prefix) key ≡ key
region_key key starts =
    let name = drop (length region_scope_prefix) key in
    let both : (starts_with key region_scope_prefix && (name == name)) ≡ true =
      ground (arith, starts, eq_refl name) in
    sym (
      (eq_iff key (region_scope_prefix ++ name)).0
        (prefix_split region_scope_prefix name key ∙ both))

key_or : Str → Result ValueError ExecutionScope → Str
key_or d (ok scope) = scope_key scope
key_or d (err e) = d

-- A key that is read without an error is the key of the scope that it gives.
pub scope_key-scope_from_key :
    (key : Str) (scope : ExecutionScope) → scope_from_key key ≡ ok scope → scope_key scope ≡ key
unfolding scope_from_key scope_key key_or
scope_key-scope_from_key key scope h = elim (Bool-cases (key == root_scope_key)) [
  | inl root ↦ sym (ap (key_or key) (rw root at h)) ∙ sym ((eq_iff key root_scope_key).0 root)
  | inr other ↦ elim (Bool-cases (starts_with key region_scope_prefix)) [
    | inl starts ↦ elim (Bool-cases (is_region_name (drop (length region_scope_prefix) key))) [
      | inl good ↦ sym (ap (key_or key) (rw (other, starts, good) at h)) ∙ region_key key starts
      | inr bad ↦ absurd (cc (rw (other, starts, bad) at h))
    ]
    | inr differs ↦ absurd (cc (rw (other, differs) at h))
  ]
]

-- The key of a scope that has a valid region name is read back as the scope of that name.
pub scope_from_key-scope_key :
    (scope : ExecutionScope) (name : Str)
    → scope.name ≡ some name
    → is_region_name name ≡ true
    → scope_from_key (scope_key scope) ≡ ok (named_scope scope.name)
unfolding scope_from_key scope_key
scope_from_key-scope_key scope name e good = rw e (rw good refl)
