-- ===== src/Workspace/Seals/Verified.antt =====
-- What `verify_seal` accepts, and that it accepts the seal of an unchanged case.
use open_foam_agent.Prelude.{
  Str, true, not, ◌||◌, Option, none, some, List, [], ◌∷◌, ◌==◌, nat_eq, list_eq, eq_iff, ◌≡◌, ◌⊎◌,
  refl, sym, ap, ◌∙◌, arith, Bool-cases, Option-cases, inl, inr, ok, raise_if-ok, raise_if-done,
  >>=-eq-ok, contains, all-contains, ltb,
}
use open_foam_agent.Prelude.Dict.{Dict, keys, find, find-put, find-of_absent, contains-find}
use open_foam_agent.Native.Contracts.{str_le}
use open_foam_agent.Workspace.Preflight.{Workspace, Setup}
use open_foam_agent.Workspace.Transaction.{Faults}
use open_foam_agent.Workspace.Seals.{
  origin_eq, CaseFileSeal, CaseSeal, Sealing, put_seal, by_path, same_paths, check_item,
  check_items, execution_file_seals, verify_seal,
}

pub str_le-total : (a b : Str) → (str_le a b ≡ true) ⊎ (str_le b a ≡ true)
unfolding str_le
str_le-total [] b = inl refl
str_le-total (c ∷ a) [] = inr refl
str_le-total (c ∷ a) (d ∷ b) = elim (str_le-total a b) [
  | inl h ↦ elim (Bool-cases (ltb d c)) [
    | inl less ↦ inr (ground arith)
    | inr more ↦ inl (grind (arith, eq_iff c d))
  ]
  | inr h ↦ elim (Bool-cases (ltb c d)) [
    | inl less ↦ inl (ground arith)
    | inr more ↦ inr (grind (arith, eq_iff d c))
  ]
]

-- Each entry of a dictionary stands under its own path.
abbrev Keyed : Dict Str CaseFileSeal → Type 0
Keyed d = (path : Str) (item : CaseFileSeal) → find path d ≡ some item → item.path ≡ path

by_path-Keyed :
    (d : Dict Str CaseFileSeal) (items : List CaseFileSeal) → Keyed d → Keyed (by_path d items)
unfolding by_path
by_path-Keyed d [] k = k
by_path-Keyed d (item ∷ items) k = by_path-Keyed (put_seal item d) items (λ path other found.
    elim (Bool-cases (path == item.path)) [
      | inl same ↦
          let e = (eq_iff path item.path).0 same in
          let got = sym (find-put item.path item d path) ∙ found in cc (rw same at got, e)
      | inr away ↦
          let got = sym (find-put item.path item d path) ∙ found in k path other (rw away at got)
    ])

check_item-ok :
    (path : Str) (item : CaseFileSeal) (found : Option CaseFileSeal)
    → check_item path item found ≡ ok tt
    → (actual : CaseFileSeal) × (found ≡ some actual)
      × (actual.sha256 ≡ item.sha256)
      × (actual.size_bytes ≡ item.size_bytes)
      × (actual.origin ≡ item.origin)
check_item-ok path item none h = cc
check_item-ok path item (some actual) h =
    let (content, h1) =
      raise_if-ok (not (actual.sha256 == item.sha256) || not (actual.size_bytes == item.size_bytes))
        _ _ h in
    let origin = raise_if-done (not (actual.origin == item.origin)) _ h1 in
    (
      actual,
      refl,
      (eq_iff actual.sha256 item.sha256).0 (ground arith),
      (eq_iff actual.size_bytes item.size_bytes).0 (ground arith),
      (eq_iff actual.origin item.origin).0 (ground arith),
    )

check_items-ok :
    (current expected : Dict Str CaseFileSeal) (path : Str) (item : CaseFileSeal)
    → check_items current expected ≡ ok tt
    → find path expected ≡ some item
    → check_item path item (find path current) ≡ ok tt
unfolding check_items find
check_items-ok current [] path item h found = cc
check_items-ok current ((p, first) ∷ expected) path item h found =
    let (done, here, later) = >>=-eq-ok (check_item p first (find p current)) _ h in
    elim (Bool-cases (path == p)) [
      | inl same ↦
          let e = (eq_iff path p).0 same in
          let same_item : first ≡ item = cc (rw same at found) in rw (e, sym same_item) here
      | inr other ↦ check_items-ok current expected path item later (rw other at found)
    ]

-- A sealed file that passes is the current one.
item_eq :
    (path : Str) (item : CaseFileSeal) (found : Option CaseFileSeal)
    → item.path ≡ path
    → ((actual : CaseFileSeal) → found ≡ some actual → actual.path ≡ path)
    → check_item path item found ≡ ok tt
    → found ≡ some item
item_eq path item found at_path keyed h =
    let (actual, there, sha, size, origin) = check_item-ok path item found h in
    there ∙ ap some (seal_eq (keyed actual there ∙ sym at_path) sha size origin)
  where
    seal_eq :
        {a b : CaseFileSeal}
        → a.path ≡ b.path
        → a.sha256 ≡ b.sha256
        → a.size_bytes ≡ b.size_bytes
        → a.origin ≡ b.origin
        → a ≡ b
    seal_eq p s n o = λ i. record { path = p i; sha256 = s i; size_bytes = n i; origin = o i }

same_dict :
    (expected current : Dict Str CaseFileSeal)
    → Keyed expected
    → Keyed current
    → same_paths expected current ≡ true
    → check_items current expected ≡ ok tt
    → (path : Str) → find path expected ≡ find path current
unfolding same_paths
same_dict expected current ke kc same h path = elim (Option-cases (find path expected)) [
  | inr (item, sealed) ↦
      sealed
      ∙ sym (
          item_eq path item (find path current) (ke path item sealed) (kc path)
            (check_items-ok current expected path item h sealed))
  | inl absent ↦ elim (Bool-cases (contains (keys current) path)) [
    | inr gone ↦ absent ∙ sym (find-of_absent path current gone)
    | inl there ↦
        let listed =
          all-contains (contains (keys expected)) (keys current) path (ground arith) there in
        absurd (cc (listed, contains-find expected path, absent))
  ]
]

module _ (setup : Setup) (faults : Faults) (sealing : Sealing) where
  -- A verification that passes has read the execution inputs; the plan has the sealed digest, and
  -- under each path the seal holds what is read, its digest, size and origin.
  pub verify_seal-exact :
      (w : Workspace) (sealed : CaseSeal) (plan_digest : Str)
      → verify_seal setup faults sealing w sealed plan_digest ≡ ok tt
      → (files : List CaseFileSeal) × (execution_file_seals setup faults sealing w ≡ ok files)
        × (plan_digest ≡ sealed.plan_sha256)
        × ((path : Str) → find path (by_path [] sealed.files) ≡ find path (by_path [] files))
  unfolding verify_seal
  verify_seal-exact w sealed plan_digest h =
      let (plan, h1) = raise_if-ok (not (plan_digest == sealed.plan_sha256)) _ _ h in
      let (files, read, h2) = >>=-eq-ok (execution_file_seals setup faults sealing w) _ h1 in
      let expected = by_path [] sealed.files in
      let current = by_path [] files in
      let (same, h3) = raise_if-ok (not (same_paths expected current)) _ _ h2 in
      let (done, checked, h4) = >>=-eq-ok (check_items current expected) _ h3 in
      (
        files,
        read,
        (eq_iff plan_digest sealed.plan_sha256).0 (ground arith),
        same_dict expected current (by_path-Keyed [] sealed.files (λ p i e. cc))
            (by_path-Keyed [] files (λ p i e. cc)) (ground arith) checked,
      )
