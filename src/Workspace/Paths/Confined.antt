-- ===== src/Workspace/Paths/Confined.antt =====
-- What `resolve_case_path` and `resolve_result_path` return stays in the case directory.
use open_foam_agent.Prelude.{
  ok_injective, Str, Bool, true, false, [], ◌∷◌, ◌==◌, nat_eq, list_eq, eq_iff, ◌≡◌, refl, sym, ◌∙◌,
  arith, Bool-cases, inl, inr, ok, err, >>=-eq-ok, raise_if-ok, all, contains, components,
  if◌then◌else◌,
}
use open_foam_agent.Workspace.Errors.{symlink_component}
use open_foam_agent.Workspace.Paths.{
  Key, is_safe_part, dots, resolve_from, is_inside, any_symlink, resolve_parts, case_name,
  validate_relative, resolve_case_path, normalized, is_writable,
}

-- The parts on top of what is done, in reverse.
abbrev stacked : Key → Key → Key
stacked done [] = done
stacked done (part ∷ parts) = stacked (part ∷ done) parts

not_dots : (part : Str) → is_safe_part part ≡ true → (part == dots) ≡ false
unfolding is_safe_part
not_dots part h = ground arith

resolve_from-safe :
    (done parts : Key)
    → all is_safe_part parts ≡ true
    → resolve_from done parts ≡ stacked done parts
unfolding resolve_from all
resolve_from-safe done [] h = refl
resolve_from-safe done (part ∷ parts) h =
    ground (arith, not_dots part, resolve_from-safe (part ∷ done) parts)

is_inside-push : (part : Str) (done : Key) → is_inside done ≡ true → is_inside (part ∷ done) ≡ true
unfolding is_inside
is_inside-push part [] h = cc
is_inside-push part (p ∷ []) h = cc
is_inside-push part (p ∷ q ∷ rest) h = h

is_inside-stacked :
    (done parts : Key) → is_inside done ≡ true → is_inside (stacked done parts) ≡ true
is_inside-stacked done [] h = h
is_inside-stacked done (part ∷ parts) h =
    is_inside-stacked (part ∷ done) parts (is_inside-push part done h)

inside :
    (part : Str) (parts : Key)
    → all is_safe_part (part ∷ parts) ≡ true
    → is_inside (resolve_from (case_name ∷ []) (part ∷ parts)) ≡ true
unfolding is_inside
inside part parts h =
    rw (resolve_from-safe (case_name ∷ []) (part ∷ parts) h)
      (is_inside-stacked (part ∷ case_name ∷ []) parts refl)

pub validate_relative-ok :
    (text : Str) {parts : Key}
    → validate_relative text ≡ ok parts
    → (is_writable parts ≡ true) × (all is_safe_part parts ≡ true)
unfolding validate_relative
validate_relative-ok text {parts} h =
    let (name, named, rest) = >>=-eq-ok (normalized text) _ h in
    let (fine, same) = raise_if-ok _ _ _ rest in
    let e : components name ≡ parts = ok_injective same in rw (← e) (ground arith)

-- For safe parts only a symbolic link is refused.
resolve_parts_lem :
    (is_symlink : Key → Bool) (text part : Str) (parts : Key)
    → all is_safe_part (part ∷ parts) ≡ true
    → resolve_parts is_symlink text (part ∷ parts) ≡ (
        if any_symlink is_symlink (case_name ∷ []) (part ∷ parts)
        then err (symlink_component text)
        else ok (part ∷ parts))
unfolding resolve_parts
resolve_parts_lem is_symlink text part parts h = rw (inside part parts h) (ground arith)

dots-not_safe : (parts : Key) → all is_safe_part parts ≡ true → contains parts dots ≡ false
unfolding all contains
dots-not_safe [] h = refl
dots-not_safe (part ∷ parts) h =
    ground (arith, not_dots part, eq_iff part dots, eq_iff dots part, dots-not_safe parts)

confined :
    (is_symlink : Key → Bool) (text : Str) (parts found : Key)
    → (is_writable parts ≡ true) × (all is_safe_part parts ≡ true)
    → resolve_parts is_symlink text parts ≡ ok found
    → (is_inside (resolve_from (case_name ∷ []) found) ≡ true)
      × (contains found dots ≡ false)
      × (is_writable found ≡ true)
      × (any_symlink is_symlink (case_name ∷ []) found ≡ false)
confined is_symlink text [] found (writable, safe) h = cc
confined is_symlink text (part ∷ parts) found (writable, safe) h =
    elim (Bool-cases (any_symlink is_symlink (case_name ∷ []) (part ∷ parts))) [
      | inl link ↦ absurd (cc (resolve_parts_lem is_symlink text part parts safe, link, h))
      | inr plain ↦
          let e : part ∷ parts ≡ found =
            ok_injective
              (sym (resolve_parts_lem is_symlink text part parts safe ∙ unlinked plain) ∙ h) in
          rw (← e) (inside part parts safe, dots-not_safe (part ∷ parts) safe, writable, plain)
    ]
  where
    unlinked :
        {b : Bool}
        → b ≡ false
        → (if b then err (symlink_component text) else ok (part ∷ parts)) ≡ ok (part ∷ parts)
    unlinked e = rw e refl

-- A case path that is resolved lies in the case directory, under one of the four writable
-- directories, with no `..` among its names and with no symbolic link on its way from the case
-- directory on.
pub resolve_case_path-confined :
    (is_symlink : Key → Bool) (text : Str) {parts : Key}
    → resolve_case_path is_symlink text ≡ ok parts
    → (is_inside (resolve_from (case_name ∷ []) parts) ≡ true)
      × (contains parts dots ≡ false)
      × (is_writable parts ≡ true)
      × (any_symlink is_symlink (case_name ∷ []) parts ≡ false)
unfolding resolve_case_path
resolve_case_path-confined is_symlink text {parts} h =
    let (valid, accepted, resolved) =
      >>=-eq-ok (validate_relative text) (resolve_parts is_symlink text) h in
    confined is_symlink text valid parts (validate_relative-ok text accepted) resolved
