-- ===== src/Delta/Affected/Declared.antt =====
-- What `affected_mesh_scope_keys` returns are keys of declared scopes.
use open_foam_agent.Prelude.{
  ok_injective, Str, true, Option, none, some, List, [], ◌∷◌, ◌++◌, map, ◌==◌, nat_eq, list_eq,
  option_eq, eq_iff, eq_refl, ◌≡◌, refl, subst, arith, Bool-cases, inl, inr, Result, ok, >>=-eq-ok,
  contains, contains-append, if◌then◌else◌, filter, posix,
}
use open_foam_agent.Native.Errors.{ValueError}
use open_foam_agent.Native.Contracts.{Registry, native_tool_contract, native_command_region}
use open_foam_agent.Native.Scopes.{
  ExecutionScope, EngineeringPlan, execution_scopes, scope_key, scope_keys, scopes_named,
  name_or_empty,
}
use open_foam_agent.Native.Commands.{NativeOpenFoamCommand}
use open_foam_agent.Delta.Affected.{
  overlaps, touched_scopes, one_scope, scopes_of_region, is_mesh_effect, invoked_scopes,
  affected_mesh_scope_keys,
}

-- Each key of a list is one of a given list.
abbrev pub Within : List Str → List Str → Type 0
Within all_keys found = (key : Str) → contains found key ≡ true → contains all_keys key ≡ true

Within-append :
    (all_keys xs ys : List Str)
    → Within all_keys xs
    → Within all_keys ys
    → Within all_keys (xs ++ ys)
Within-append all_keys xs ys in_xs in_ys key m = elim (Bool-cases (contains xs key)) [
  | inl first ↦ in_xs key first
  | inr other ↦ in_ys key (ground (arith, contains-append xs ys key))
]

touched_scopes-Within :
    (dependencies : Str → Result ValueError (List Str)) (changed : List Str)
    (scopes : List ExecutionScope) {found : List Str}
    → touched_scopes dependencies changed scopes ≡ ok found
    → Within (scope_keys scopes) found
unfolding touched_scopes contains
touched_scopes-Within dependencies changed [] {found} h key m =
    let e : [] ≡ found = ok_injective h in absurd (cc (rw (← e) at m))
touched_scopes-Within dependencies changed (scope ∷ scopes) {found} h key m =
    let (deps, read, h1) = >>=-eq-ok (dependencies (name_or_empty scope.name)) _ h in
    let (rest, later, h2) = >>=-eq-ok (touched_scopes dependencies changed scopes) _ h1 in
    let ih = touched_scopes-Within dependencies changed scopes later key in
    let e : (if overlaps changed deps then scope_key scope ∷ rest else rest) ≡ found =
      ok_injective h2 in
    elim (Bool-cases (overlaps changed deps)) [
      | inl hit ↦
          let e' : scope_key scope ∷ rest ≡ found = rw hit at e in
          ground (arith, rw (← e') at m, ih)
      | inr clean ↦ let e' : rest ≡ found = rw clean at e in ground (arith, rw (← e') at m, ih)
    ]

named-Within :
    (region : Option Str) (scopes : List ExecutionScope) (scope : ExecutionScope)
    (rest : List ExecutionScope)
    → scopes_named region scopes ≡ scope ∷ rest
    → contains (scope_keys scopes) (scope_key scope) ≡ true
unfolding contains filter
named-Within region [] scope rest h = cc
named-Within region (first ∷ scopes) scope rest h = elim (Bool-cases (first.name == region)) [
  | inl same ↦
      let e : first ≡ scope = head_of (rw same at h) in
      rw e (ground (arith, eq_refl (scope_key scope)))
  | inr other ↦ ground (arith, named-Within region scopes scope rest (rw other at h))
]
  where
    head_of : {x y : ExecutionScope} {xs ys : List ExecutionScope} → x ∷ xs ≡ y ∷ ys → x ≡ y
    head_of e = cc

one_scope-Within :
    (region : Str) (scopes named : List ExecutionScope) {found : List Str}
    → scopes_named (some region) scopes ≡ named
    → one_scope region named ≡ ok found
    → Within (scope_keys scopes) found
unfolding one_scope contains
one_scope-Within region scopes [] e h key m = cc
one_scope-Within region scopes (scope ∷ []) {found} e h key m =
    let same : scope_key scope ∷ [] ≡ found = ok_injective h in
    let here : (key == scope_key scope) ≡ true = ground (arith, rw (← same) at m) in
    rw ((eq_iff key (scope_key scope)).0 here) (named-Within (some region) scopes scope [] e)
one_scope-Within region scopes (scope ∷ next ∷ rest) e h key m = cc

scopes_of_region-Within :
    (scopes : List ExecutionScope) (region : Option Str) {found : List Str}
    → scopes_of_region scopes region ≡ ok found
    → Within (scope_keys scopes) found
unfolding scopes_of_region
scopes_of_region-Within scopes none {found} h key m =
    let e : scope_keys scopes ≡ found = ok_injective h in rw e m
scopes_of_region-Within scopes (some region) h key m =
    one_scope-Within region scopes (scopes_named (some region) scopes) refl h key m

module _ (registry : Registry) where
  invoked_scopes-Within :
      (scopes : List ExecutionScope) (items : List NativeOpenFoamCommand) {found : List Str}
      → invoked_scopes registry scopes items ≡ ok found
      → Within (scope_keys scopes) found
  unfolding invoked_scopes contains
  invoked_scopes-Within scopes [] {found} h key m =
      let e : [] ≡ found = ok_injective h in absurd (cc (rw (← e) at m))
  invoked_scopes-Within scopes (item ∷ items) {found} h key m =
      elim (Bool-cases (is_mesh_effect (native_tool_contract registry item.command).effect)) [
        | inr other ↦ invoked_scopes-Within scopes items (rw other at h) key m
        | inl writes ↦
            let (region, read, h1) =
              >>=-eq-ok (native_command_region item.arguments) _ (rw writes at h) in
            let (here, bound, h2) = >>=-eq-ok (scopes_of_region scopes region) _ h1 in
            let (others, later, h3) = >>=-eq-ok (invoked_scopes registry scopes items) _ h2 in
            let e : here ++ others ≡ found = ok_injective h3 in
            subst (Within (scope_keys scopes)) e
              (Within-append (scope_keys scopes) here others
                (scopes_of_region-Within scopes region bound)
                (invoked_scopes-Within scopes items later))
              key m
      ]

  pub affected_mesh_scope_keys-Within :
      (dependencies : Str → Result ValueError (List Str)) (plan : EngineeringPlan)
      (changed : List Str) (items : List NativeOpenFoamCommand) {found : List Str}
      → affected_mesh_scope_keys registry dependencies plan changed items ≡ ok found
      → Within (scope_keys (execution_scopes plan)) found
  unfolding affected_mesh_scope_keys
  affected_mesh_scope_keys-Within dependencies plan changed items {found} h =
      let scopes = execution_scopes plan in
      let (observed, read, h1) =
        >>=-eq-ok (touched_scopes dependencies (map posix changed) scopes) _ h in
      let (invoked, ran, h2) = >>=-eq-ok (invoked_scopes registry scopes items) _ h1 in
      let e : observed ++ invoked ≡ found = ok_injective h2 in
      subst (Within (scope_keys scopes)) e (
        Within-append (scope_keys scopes) observed invoked
          (touched_scopes-Within dependencies (map posix changed) scopes read)
          (invoked_scopes-Within scopes items ran))
