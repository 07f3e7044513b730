-- ===== src/Workspace/Seals/Kept.antt =====
-- The seal that the execution inputs of a case make is accepted where the same inputs are read.
use open_foam_agent.Prelude.{
  is_empty, ok_injective, Str, true, false, not, ◌&&◌, some, List, [], ◌∷◌, ◌++◌, map, ◌==◌, nat_eq,
  list_eq, eq_iff, eq_refl, ◌≡◌, refl, sym, ap, ◌∙◌, arith, ok, raise_if-ok, >>=-eq-ok, contains,
  all-contains_self, append_nil, append_assoc, sort_by, distinct,
}
use open_foam_agent.Prelude.Dict.{
  Dict, keys, find, put, find-put, NodupKeys, put-NodupKeys, contains-keys-put,
}
use open_foam_agent.Prelude.Sorting.{map-sort_by, sort_by-idempotent, Each, Each-sort_by}
use open_foam_agent.Native.Contracts.{str_le}
use open_foam_agent.Workspace.Preflight.{Workspace, Setup}
use open_foam_agent.Workspace.Transaction.{Faults}
use open_foam_agent.Workspace.Seals.{
  origin_eq, CaseFileSeal, CaseSeal, Sealing, path_le, put_seal, by_path, same_paths, check_item,
  check_items, looked_up, execution_file_seals, seal, seal_manifest_digest, verify_seal,
  validate_all_content,
}
use open_foam_agent.Workspace.Seals.Verified.{str_le-total}

abbrev pub path_of : CaseFileSeal → Str
path_of item = item.path

-- A dictionary that holds each item of a list under its path.
abbrev Holds : Dict Str CaseFileSeal → CaseFileSeal → Type 0
Holds d item = find item.path d ≡ some item

-- What stands in a dictionary stays when items with other paths are put into it.
find-by_path :
    (d : Dict Str CaseFileSeal) (items : List CaseFileSeal) (path : Str)
    → contains (map path_of items) path ≡ false
    → find path (by_path d items) ≡ find path d
unfolding by_path contains
find-by_path d [] path h = refl
find-by_path d (item ∷ items) path h =
    find-by_path (put_seal item d) items path (ground arith)
    ∙ find-put item.path item d path
    ∙ ground arith

by_path-Holds :
    (d : Dict Str CaseFileSeal) (items : List CaseFileSeal)
    → distinct (map path_of items) ≡ true
    → Each (Holds (by_path d items)) items
unfolding by_path distinct
by_path-Holds d [] h = tt
by_path-Holds d (item ∷ items) h = (
  find-by_path (put_seal item d) items item.path (ground arith)
      ∙ find-put item.path item d item.path
      ∙ ground (arith, eq_refl item.path),
  by_path-Holds (put_seal item d) items (ground arith),
)

put-fresh :
    (d : Dict Str CaseFileSeal) (item : CaseFileSeal)
    → contains (keys d) item.path ≡ false
    → keys (put_seal item d) ≡ keys d ++ item.path ∷ []
unfolding put contains
put-fresh [] item h = refl
put-fresh ((k, v) ∷ d) item h =
    rw (the_other h) (ap (λ ks. k ∷ ks) (put-fresh d item (ground arith)))
  where
    the_other : contains (keys ((k, v) ∷ d)) item.path ≡ false → (item.path == k) ≡ false
    the_other g = ground arith

keys-by_path :
    (d : Dict Str CaseFileSeal) (items : List CaseFileSeal)
    → distinct (map path_of items) ≡ true
    → ((path : Str) → contains (map path_of items) path ≡ true → contains (keys d) path ≡ false)
    → keys (by_path d items) ≡ keys d ++ map path_of items
unfolding by_path distinct contains
keys-by_path d [] h fresh = sym (append_nil (keys d))
keys-by_path d (item ∷ items) h fresh =
    keys-by_path (put_seal item d) items (ground arith) (λ path m.
      grind
        (arith, contains-keys-put item.path item d path, fresh path, eq_iff path item.path, m, h))
    ∙ ap (λ ks. ks ++ map path_of items)
        (put-fresh d item (fresh item.path (ground (arith, eq_refl item.path))))
    ∙ append_assoc (keys d) (item.path ∷ []) (map path_of items)

looked_up-of_Holds :
    (d : Dict Str CaseFileSeal) (items : List CaseFileSeal)
    → Each (Holds d) items
    → looked_up d (map path_of items) ≡ items
unfolding looked_up
looked_up-of_Holds d [] h = refl
looked_up-of_Holds d (item ∷ items) (here, rest) =
    rw (here, looked_up) (ap (λ found. item ∷ found) (looked_up-of_Holds d items rest))

check_item-same : (path : Str) (item : CaseFileSeal) → check_item path item (some item) ≡ ok tt
check_item-same path item =
    ground (arith, eq_refl item.sha256, eq_refl item.size_bytes, eq_refl item.origin)

abbrev Within : Dict Str CaseFileSeal → Dict Str CaseFileSeal → Type 0
Within current [] = Unit
Within current ((path, item) ∷ rest) = (find path current ≡ some item) × Within current rest

check_items-same :
    (current expected : Dict Str CaseFileSeal)
    → Within current expected
    → check_items current expected ≡ ok tt
unfolding check_items
check_items-same current [] h = refl
check_items-same current ((path, item) ∷ rest) (here, later) =
    rw (here, check_item-same path item) (check_items-same current rest later)

Within-cons :
    (path : Str) (item : CaseFileSeal) (current rest : Dict Str CaseFileSeal)
    → contains (keys rest) path ≡ false
    → Within current rest
    → Within ((path, item) ∷ current) rest
unfolding contains find
Within-cons path item current [] h w = tt
Within-cons path item current ((p, other) ∷ rest) h (here, later) = (
  ground (arith, eq_iff path p, eq_iff p path),
  Within-cons path item current rest (ground arith) later,
)

Within-self : (d : Dict Str CaseFileSeal) → NodupKeys d → Within d d
unfolding find
Within-self [] u = tt
Within-self ((path, item) ∷ d) (fresh, u) =
    (ground (arith, eq_refl path), Within-cons path item d d fresh (Within-self d u))

by_path-NodupKeys :
    (d : Dict Str CaseFileSeal) (items : List CaseFileSeal)
    → NodupKeys d
    → NodupKeys (by_path d items)
unfolding by_path
by_path-NodupKeys d [] u = u
by_path-NodupKeys d (item ∷ items) u =
    by_path-NodupKeys (put_seal item d) items (put-NodupKeys item.path item d u)

module _ (setup : Setup) (faults : Faults) (sealing : Sealing) where
  -- What is computed from the items in order is their order by path, and the manifest's digest.
  manifest_same :
      (files : List CaseFileSeal)
      → distinct (map path_of files) ≡ true
      → seal_manifest_digest setup faults sealing
          (looked_up (by_path [] files) (sort_by str_le (keys (by_path [] files))))
        ≡ seal_manifest_digest setup faults sealing files
  unfolding seal_manifest_digest contains
  manifest_same files apart =
      let d = by_path [] files in
      let listed : keys d ≡ map path_of files = keys-by_path [] files apart (λ path m. refl) in
      let held = Each-sort_by (Holds d) path_le files (by_path-Holds [] files apart) in
      let order = ap (λ ks. sort_by str_le ks) listed ∙ sym (map-sort_by path_of str_le files) in
      ap (λ found. sealing.digest_of (sort_by path_le found))
        (ap (looked_up d) order ∙ looked_up-of_Holds d (sort_by path_le files) held)
      ∙ ap sealing.digest_of (sort_by-idempotent path_le (λ a b. str_le-total a.path b.path) files)

  abbrev pub made_of : Str → List CaseFileSeal → CaseSeal
  made_of plan_digest files = record {
    plan_sha256 = plan_digest;
    manifest_sha256 = seal_manifest_digest setup faults sealing files;
    files = files;
  }

  -- The seal that files make is accepted where the same files are read.
  pub accepted :
      (w : Workspace) (plan_digest : Str) (files : List CaseFileSeal)
      → execution_file_seals setup faults sealing w ≡ ok files
      → distinct (map path_of files) ≡ true
      → verify_seal setup faults sealing w (made_of plan_digest files) plan_digest ≡ ok tt
  unfolding verify_seal same_paths contains
  accepted w plan_digest files read apart =
      let d = by_path [] files in
      let every = all-contains_self (keys d) in
      let items = check_items-same d d (Within-self d (by_path-NodupKeys [] files tt)) in
      rw
        (
          eq_refl plan_digest,
          read,
          every,
          items,
          manifest_same files apart,
          eq_refl (seal_manifest_digest setup faults sealing files),
        )
        refl

  -- What `seal` returns is made of the execution inputs.
  pub seal-ok :
      (w : Workspace) (plan_digest : Str) {sealed : CaseSeal}
      → seal setup faults sealing w plan_digest ≡ ok sealed
      → (files : List CaseFileSeal) × (execution_file_seals setup faults sealing w ≡ ok files)
        × (made_of plan_digest files ≡ sealed)
  unfolding seal
  seal-ok w plan_digest {sealed} h =
      let (some_path, h1) =
        raise_if-ok (is_empty w.authored_paths && is_empty w.asset_paths) _ _ h in
      let (failures, valid, h2) = >>=-eq-ok (validate_all_content setup faults sealing w) _ h1 in
      let (quiet, h3) = raise_if-ok (not (is_empty failures)) _ _ h2 in
      let (files, read, h4) = >>=-eq-ok (execution_file_seals setup faults sealing w) _ h3 in
      (files, read, ok_injective h4)
