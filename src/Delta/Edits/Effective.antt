-- ===== src/Delta/Edits/Effective.antt =====
-- What the edits of a delta make of the effective case, path by path.
use open_foam_agent.Prelude.{
  if_taken, if_passed, is_empty, Str, Bool, true, false, Option, none, some, List, [], ◌∷◌, ◌==◌,
  nat_eq, list_eq, eq_iff, ◌≡◌, refl, sym, ap, ◌∙◌, arith, Bool-cases, Option-cases, inl, inr,
  if◌then◌else◌, ends_with, contains, append_nil_iff,
}
use open_foam_agent.Prelude.Dict.{
  or_else, Dict, keys, find, put, find-put, find-pop, find-of_absent, NodupKeys, put-NodupKeys,
}
use open_foam_agent.Delta.Failures.{
  DeltaFailure, replace_and_drop, patch_and_replace, patch_and_drop, target_absent,
  target_too_large, empty_old_text, match_count,
}
use open_foam_agent.Delta.Edits.{
  Edit, failed, patched, patch_found, replace_one, patch_text, apply_patch, apply_patches,
  apply_drops, drop_one, put_all, apply_replacements, Delta, active_drops, edit_view, count,
  replace_once, truncated,
}

find-put_all :
    (base changed : Dict Str Str) (path : Str)
    → NodupKeys changed
    → find path (put_all base changed) ≡ or_else (find path changed) (find path base)
unfolding put_all find
find-put_all base [] path u = refl
find-put_all base ((k, v) ∷ changed) path (fresh, u) = elim (Bool-cases (path == k)) [
  | inl same ↦
      let e : path ≡ k = (eq_iff path k).0 same in
      rw same (
        find-put_all (put k v base) changed path u
        ∙ ap (λ o. or_else o (find path (put k v base))) (find-of_absent path changed (rw e fresh))
        ∙ find-put k v base path
        ∙ if_taken (some v) (find path base) same)
  | inr other ↦ rw other (
      find-put_all (put k v base) changed path u
      ∙ ap (or_else (find path changed))
          (find-put k v base path ∙ if_passed (some v) (find path base) other))
]

apply_drops-changed :
    (edit : Edit) (drops : List Str) → (apply_drops edit drops).changed ≡ edit.changed
unfolding apply_drops
apply_drops-changed edit [] = refl
apply_drops-changed edit (d ∷ drops) = apply_drops-changed (drop_one edit d) drops

find-apply_drops :
    (edit : Edit) (drops : List Str) (path : Str)
    → find path (apply_drops edit drops).effective
      ≡ (if contains drops path then none else find path edit.effective)
unfolding apply_drops contains
find-apply_drops edit [] path = refl
find-apply_drops edit (d ∷ drops) path =
    find-apply_drops (drop_one edit d) drops path ∙ ground (arith, find-pop d edit.effective path)

-- Failures are only added.
no_earlier :
    (edit : Edit) (drops : List Str) → (apply_drops edit drops).failures ≡ [] → edit.failures ≡ []
unfolding apply_drops
no_earlier edit [] h = h
no_earlier edit (d ∷ drops) h =
    let before = no_earlier (drop_one edit d) drops h in
    elim (Bool-cases (contains (keys edit.changed) d)) [
      | inl both ↦ ((append_nil_iff edit.failures _).0 (rw both at before)).0
      | inr one ↦ rw one at before
    ]

disjoint-apply_drops :
    (edit : Edit) (drops : List Str) (path : Str)
    → (apply_drops edit drops).failures ≡ []
    → contains drops path ≡ true
    → contains (keys edit.changed) path ≡ false
unfolding apply_drops contains
disjoint-apply_drops edit [] path h m = cc
disjoint-apply_drops edit (d ∷ drops) path h m = elim (Bool-cases (path == d)) [
  | inr other ↦ disjoint-apply_drops (drop_one edit d) drops path h (ground arith)
  | inl same ↦
      let before = no_earlier (drop_one edit d) drops h in
      elim (Bool-cases (contains (keys edit.changed) d)) [
        | inr one ↦ rw ((eq_iff path d).0 same) one
        | inl both ↦ absurd (cons_nil ((append_nil_iff edit.failures _).0 (rw both at before)).1)
      ]
]
  where
    cons_nil : replace_and_drop d ∷ [] ≡ [] → ⊥
    cons_nil e = cc

if_elim {ℓ κ} :
    {A : Type ℓ} (P : A → Type κ) (b : Bool) {x y : A} → P x → P y → P (if b then x else y)
if_elim P true p q = p
if_elim P false p q = q

-- A file that no edit changed is as it was.
record Untouched (view : Dict Str Str) (edit : Edit) : Type 0 where
  distinct : NodupKeys edit.changed
  same : (path : Str) → find path edit.changed ≡ none → find path edit.effective ≡ find path view

module _ (view : Dict Str Str) where
  patched-Untouched :
      (edit : Edit) (path text : Str)
      → Untouched view edit
      → Untouched view (patched edit path text)
  patched-Untouched edit path text u = record {
    distinct = put-NodupKeys path text edit.changed u.distinct;
    same = λ other absent. elim (Bool-cases (other == path)) [
      | inl here ↦ absurd (cc (find-put path text edit.changed other, here, absent))
      | inr away ↦
          find-put path text edit.effective other
          ∙ rw away
              (u.same other (sym (find-put path text edit.changed other ∙ rw away refl) ∙ absent))
    ];
  }

  failed-Untouched :
      (edit : Edit) (failure : DeltaFailure)
      → Untouched view edit
      → Untouched view (failed edit failure)
  failed-Untouched edit failure u = record { distinct = u.distinct; same = u.same }

  patch_text-Untouched :
      (edit : Edit) (path current old new : Str)
      → Untouched view edit
      → Untouched view (patch_text edit path current old new)
  unfolding patch_text
  patch_text-Untouched edit path current old new u =
      let stays = λ (f : DeltaFailure). failed-Untouched edit f u in
      if_elim (Untouched view) (ends_with current truncated) (stays (target_too_large path)) (
        if_elim (Untouched view) (is_empty old) (stays (empty_old_text path)) (
          if_elim (Untouched view) (count old current == 1)
            (patched-Untouched edit path (replace_once old new current) u)
            (stays (match_count path (count old current)))))

  patch_found-Untouched :
      (edit : Edit) (path old new : Str) (found : Option Str)
      → Untouched view edit
      → Untouched view (patch_found edit path old new found)
  unfolding patch_found
  patch_found-Untouched edit path old new none u = failed-Untouched edit (target_absent path) u
  patch_found-Untouched edit path old new (some current) u =
      patch_text-Untouched edit path current old new u

  apply_patch-Untouched :
      (replaced drops : List Str) (edit : Edit) (patch : Str × (Str × Str))
      → Untouched view edit
      → Untouched view (apply_patch replaced drops edit patch)
  unfolding apply_patch
  apply_patch-Untouched replaced drops edit (path, (old, new)) u =
      let stays = λ (f : DeltaFailure). failed-Untouched edit f u in
      if_elim (Untouched view) (contains replaced path) (stays (patch_and_replace path)) (
        if_elim (Untouched view) (contains drops path) (stays (patch_and_drop path))
          (patch_found-Untouched edit path old new (find path edit.effective) u))

  apply_patches-Untouched :
      (replaced drops : List Str) (edit : Edit) (patches : List (Str × (Str × Str)))
      → Untouched view edit
      → Untouched view (apply_patches replaced drops edit patches)
  unfolding apply_patches
  apply_patches-Untouched replaced drops edit [] u = u
  apply_patches-Untouched replaced drops edit (patch ∷ patches) u =
      apply_patches-Untouched replaced drops (apply_patch replaced drops edit patch) patches
        (apply_patch-Untouched replaced drops edit patch u)

replace_one-NodupKeys :
    (changed : Dict Str Str) (failures : List DeltaFailure) (path content : Str)
    (found : Option Str)
    → NodupKeys changed
    → NodupKeys (replace_one (changed, failures) path content found).0
replace_one-NodupKeys changed failures path content none u = put-NodupKeys path content changed u
replace_one-NodupKeys changed failures path content (some other) u =
    if_elim (λ (s : Dict Str Str × List DeltaFailure). NodupKeys s.0) (other == content)
      (put-NodupKeys path content changed u) u

apply_replacements-NodupKeys :
    (state : Dict Str Str × List DeltaFailure) (replacements : List (Str × Str))
    → NodupKeys state.0
    → NodupKeys (apply_replacements state replacements).0
unfolding apply_replacements
apply_replacements-NodupKeys state [] u = u
apply_replacements-NodupKeys state ((path, content) ∷ rest) u =
    apply_replacements-NodupKeys (replace_one state path content (find path state.0)) rest
      (replace_one-NodupKeys state.0 state.1 path content (find path state.0) u)

module _ (view : Dict Str Str) (failures : List DeltaFailure) (delta : Delta) where
  abbrev drops : List Str
  drops = active_drops view delta.drop_paths

  abbrev replaced : Dict Str Str × List DeltaFailure
  replaced = apply_replacements ([], failures) delta.replacements

  abbrev patched_edit : Edit
  patched_edit =
      apply_patches (keys replaced.0) drops
        (record { effective = view; changed = replaced.0; failures = replaced.1 }) delta.patches

  patched-is_Untouched :
      ((path : Str) → find path replaced.0 ≡ none → find path view ≡ find path view)
      → Untouched view patched_edit
  patched-is_Untouched same =
      apply_patches-Untouched view (keys replaced.0) drops
        (record { effective = view; changed = replaced.0; failures = replaced.1 }) delta.patches
        (record {
          distinct = apply_replacements-NodupKeys ([], failures) delta.replacements tt;
          same = same;
        })

  abbrev edit : Edit
  edit = edit_view (view, failures) delta

  merged :
      (path : Str)
      → or_else
          (find path patched_edit.changed)
          (if contains drops path then none else find path patched_edit.effective)
        ≡ or_else
            (find path patched_edit.changed)
            (if contains drops path then none else find path view)
  merged path = elim (Option-cases (find path patched_edit.changed)) [
    | inr (text, changed) ↦ rw changed refl
    | inl absent ↦ rw ((patched-is_Untouched (λ p e. refl)).same path absent) refl
  ]

  -- The effective text of each file is its changed text, or without one none if the file is
  -- dropped, and else its old one. Without a failure no dropped file is changed.
  pub edit_view_lem :
      (path : Str)
      → (find path edit.effective
          ≡ or_else (find path edit.changed) (if contains drops path then none else find path view))
        × (edit.failures ≡ []
            → contains drops path ≡ true
            → contains (keys edit.changed) path ≡ false)
  unfolding edit_view
  edit_view_lem path =
      let u = patched-is_Untouched (λ p e. refl) in
      let e = apply_drops-changed patched_edit drops in
      (
        rw e (
            find-put_all (apply_drops patched_edit drops).effective patched_edit.changed path
              u.distinct
            ∙ ap (or_else (find path patched_edit.changed))
                (find-apply_drops patched_edit drops path)
            ∙ merged path),
        λ quiet m. rw e (disjoint-apply_drops patched_edit drops path quiet m),
      )
