-- ===== src/Workspace/Seals/Same.antt =====
-- What the execution inputs of a case depend on: its files, and the origin of each path.
use open_foam_agent.Prelude.{
  ok_injective, codes, List, [], ◌∷◌, ◌++◌, nat_eq, list_eq, ◌≡◌, refl, sym, ap, subst, ◌∙◌, ok,
  raise_if-ok, >>=-eq-ok, sort_by, ltb, length,
}
use open_foam_agent.Prelude.Sorting.{Each}
use open_foam_agent.Workspace.Paths.{Key, validate_relative}
use open_foam_agent.Workspace.Preflight.{Workspace, Setup, is_file, size_at}
use open_foam_agent.Workspace.Transaction.{Faults}
use open_foam_agent.Workspace.Seals.{
  origin_eq, CaseFileSeal, Sealing, bytes_at, execution_file_seals, seals_of, seal_of, origin_of,
  regular_files, total_bytes, joined, key_le,
}

module _ (setup : Setup) (faults : Faults) (sealing : Sealing) where
  seals_of-same :
      (w v : Workspace) (all_keys : List Key) {files : List CaseFileSeal}
      → v.files ≡ w.files
      → seals_of setup faults sealing w all_keys ≡ ok files
      → Each
          (λ (item : CaseFileSeal). origin_of setup faults sealing v item.path ≡ item.origin)
          files
      → seals_of setup faults sealing v all_keys ≡ ok files
  unfolding seals_of seal_of
  seals_of-same w v [] same h origins = h
  seals_of-same w v (key ∷ all_keys) {files} same h origins =
      let (parts, valid, h1) = >>=-eq-ok (validate_relative (joined key)) _ h in
      let (reads, h2) = raise_if-ok (faults.read_fails (joined key)) _ _ h1 in
      let (rest, read, h3) = >>=-eq-ok (seals_of setup faults sealing w all_keys) _ h2 in
      let e = ok_injective h3 in
      let (first, later) =
        subst
          (Each (λ (item : CaseFileSeal). origin_of setup faults sealing v item.path ≡ item.origin))
          (sym e) origins in
      let again = seals_of-same w v all_keys same read later in
      let made : seal_of setup faults sealing v key ≡ seal_of setup faults sealing w key = λ i.
        record {
          path = joined key;
          sha256 = setup.sha256 (bytes_at (same i key));
          size_bytes = size_at (same i key);
          origin = first i;
        } in
      rw (valid, reads, again) (ap (λ item. ok (item ∷ rest)) made ∙ ap ok e)

  regular_files-same :
      (w v : Workspace) (all_keys : List Key)
      → v.files ≡ w.files
      → regular_files setup faults sealing v all_keys
        ≡ regular_files setup faults sealing w all_keys
  unfolding regular_files is_file
  regular_files-same w v [] same = refl
  regular_files-same w v (key ∷ all_keys) same =
      rw (regular_files-same w v all_keys same, same) refl

  total_bytes-same :
      (w v : Workspace) (all_keys : List Key)
      → v.files ≡ w.files
      → total_bytes setup faults sealing v all_keys ≡ total_bytes setup faults sealing w all_keys
  unfolding total_bytes
  total_bytes-same w v [] same = refl
  total_bytes-same w v (key ∷ all_keys) same = rw (total_bytes-same w v all_keys same, same) refl

  pub execution_file_seals-same :
      (w v : Workspace) {files : List CaseFileSeal}
      → v.files ≡ w.files
      → execution_file_seals setup faults sealing w ≡ ok files
      → Each
          (λ (item : CaseFileSeal). origin_of setup faults sealing v item.path ≡ item.origin)
          files
      → execution_file_seals setup faults sealing v ≡ ok files
  unfolding execution_file_seals
  execution_file_seals-same w v same h origins =
      let listed =
        sealing.rglob (codes "0")
        ++ (sealing.rglob (codes "constant") ++ sealing.rglob (codes "system")) in
      let (found, regular, h1) = >>=-eq-ok (regular_files setup faults sealing w listed) _ h in
      let (few, h2) = raise_if-ok (ltb sealing.max_execution_files (length found)) _ _ h1 in
      let (small, h3) =
        raise_if-ok (ltb sealing.max_execution_bytes (total_bytes setup faults sealing w found)) _ _
          h2 in
      rw (regular_files-same w v listed same, regular, few, total_bytes-same w v found same, small)
        (seals_of-same w v (sort_by key_le found) same h3 origins)
