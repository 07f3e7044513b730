-- ===== src/Native/Contracts/Registered.antt =====
-- The registry that `_load_registry` of tools/native_contracts.py accepts.
use open_foam_agent.Prelude.{
  Str, true, false, List, [], ◌∷◌, ◌++◌, nat_eq, list_eq, eq_iff, ◌≡◌, refl, sym, ap, ◌∙◌, arith,
  Bool-cases, inl, inr, Result, ok, err, contains, contains-append, distinct,
}
use open_foam_agent.Native.Errors.{ValueError}
use open_foam_agent.Native.Contracts.{
  Registry, RawContract, contract_of_raw, command_names, load_from, load_registry,
}

names-append : (xs ys : Registry) → command_names (xs ++ ys) ≡ command_names xs ++ command_names ys
names-append [] ys = refl
names-append (x ∷ xs) ys = ap (λ names. x.command ∷ names) (names-append xs ys)

distinct-snoc :
    (xs : List Str) (a : Str)
    → distinct xs ≡ true
    → contains xs a ≡ false
    → distinct (xs ++ a ∷ []) ≡ true
unfolding distinct contains
distinct-snoc [] a h k = refl
distinct-snoc (x ∷ xs) a h k =
    ground (arith, eq_iff a x, eq_iff x a, contains-append xs (a ∷ []) x, distinct-snoc xs a)

load_from-distinct :
    (registry : Registry) (raw : List RawContract) (loaded : Registry)
    → distinct (command_names registry) ≡ true
    → load_from registry raw ≡ ok loaded
    → distinct (command_names loaded) ≡ true
unfolding load_from
load_from-distinct registry [] loaded h e =
    ap (λ r. distinct (command_names (value_or r))) (sym e) ∙ h
  where
    value_or : Result ValueError Registry → Registry
    value_or (ok r) = r
    value_or (err x) = []
load_from-distinct registry (item ∷ rest) loaded h e =
    elim (Bool-cases (contains (command_names registry) item.command)) [
      | inl old ↦ absurd (cc (rw old at e))
      | inr new ↦
          let longer : distinct (command_names (registry ++ contract_of_raw item ∷ [])) ≡ true =
            ap distinct (names-append registry (contract_of_raw item ∷ []))
            ∙ distinct-snoc (command_names registry) item.command h new in
          load_from-distinct (registry ++ contract_of_raw item ∷ []) rest loaded longer
            (rw new at e)
    ]

-- The contracts of a registry that is loaded without an error have different commands.
pub load_registry-distinct :
    (raw : List RawContract) (loaded : Registry)
    → load_registry raw ≡ ok loaded
    → distinct (command_names loaded) ≡ true
unfolding load_registry distinct
load_registry-distinct raw loaded e = load_from-distinct [] raw loaded refl e
