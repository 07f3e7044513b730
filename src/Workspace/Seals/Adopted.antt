-- ===== src/Workspace/Seals/Adopted.antt =====
-- A case that is adopted from its seal passes the verification of the seal.
use open_foam_agent.Prelude.{
  Str, Bool, true, false, ◌&&◌, ◌||◌, List, [], ◌∷◌, map, ◌==◌, nat_eq, list_eq, eq_iff, eq_refl,
  ◌≡◌, ◌⊎◌, refl, sym, ap, subst, ◌∙◌, arith, Bool-cases, inl, inr, ok, err, Result-cases, contains,
  contains-append, distinct,
}
use open_foam_agent.Prelude.Sorting.{Each}
use open_foam_agent.Workspace.Errors.{WorkspaceError}
use open_foam_agent.Workspace.Paths.{resolve_existing}
use open_foam_agent.Workspace.Preflight.{Workspace, Setup, is_file}
use open_foam_agent.Workspace.Transaction.{Faults, Ran, add_path}
use open_foam_agent.Workspace.Seals.{
  Origin, origin_eq, CaseFileSeal, CaseSeal, Sealing, execution_file_seals, seal, verify_seal,
  origin_of, adopt_items, adopt_seal, agent, native, user_asset,
}
use open_foam_agent.Workspace.Seals.Same.{execution_file_seals-same}
use open_foam_agent.Workspace.Seals.Kept.{path_of, made_of, accepted, seal-ok}

-- Whether a list has an item of an origin at a path.
has : Origin → Str → List CaseFileSeal → Bool
has origin path [] = false
has origin path (item ∷ items) =
    ((path == item.path) && (item.origin == origin)) || has origin path items

has_nil : (origin : Origin) (path : Str) → has origin path [] ≡ false
unfolding has
has_nil origin path = refl

has_same :
    (origin : Origin) (path : Str) (item : CaseFileSeal) (items : List CaseFileSeal)
    → item.origin ≡ origin
    → has origin path (item ∷ items) ≡ ((path == item.path) || has origin path items)
unfolding has
has_same origin path item items e = rw (e, eq_refl origin) (ground arith)

has_other :
    (origin other : Origin) (path : Str) (item : CaseFileSeal) (items : List CaseFileSeal)
    → item.origin ≡ other
    → (other == origin) ≡ false
    → has origin path (item ∷ items) ≡ has origin path items
unfolding has
has_other origin other path item items e d =
    rw (e, d) (dropped (path == item.path) (has origin path items))
  where
    dropped : (b r : Bool) → ((b && false) || r) ≡ r
    dropped b r = ground arith

absent-has :
    (origin : Origin) (path : Str) (items : List CaseFileSeal)
    → contains (map path_of items) path ≡ false
    → has origin path items ≡ false
unfolding has contains
absent-has origin path [] h = refl
absent-has origin path (item ∷ items) h = ground (arith, absent-has origin path items)

contains-add_path :
    (path : Str) (paths : List Str) (other : Str)
    → contains (add_path path paths) other ≡ ((other == path) || contains paths other)
unfolding contains
contains-add_path path paths other = elim (Bool-cases (contains paths path)) [
  | inl known ↦ rw known (grind (arith, eq_iff other path, known))
  | inr new ↦ rw new (contains-append paths (path ∷ []) other ∙ ground arith)
]

Origin-cases : (o : Origin) → (o ≡ agent) ⊎ ((o ≡ native) ⊎ (o ≡ user_asset))
Origin-cases agent = inl refl
Origin-cases native = inr (inl refl)
Origin-cases user_asset = inr (inr refl)

module _ (setup : Setup) (faults : Faults) (sealing : Sealing) where
  -- What an adoption that returns leaves.
  record Adopted (authored : List Str) (u v : Workspace) (items : List CaseFileSeal) : Type 0 where
    files : v.files ≡ u.files
    assets :
        (path : Str)
        → contains v.asset_paths path ≡ (contains u.asset_paths path || has user_asset path items)
    authors :
        (path : Str)
        → contains v.authored_paths path ≡ (contains authored path || has agent path items)

  adopt_items-Adopted :
      (authored : List Str) (u v : Workspace) (items : List CaseFileSeal)
      → adopt_items setup faults sealing authored u items ≡ (ok tt, v)
      → Adopted authored u v items
  unfolding adopt_items
  adopt_items-Adopted authored u v [] h =
      let e = state_of h in
      record {
        files = ap (λ (w : Workspace). w.files) (sym e);
        assets = λ path.
            ap (λ (w : Workspace). contains w.asset_paths path) (sym e)
            ∙ ground (arith, has_nil user_asset path);
        authors = λ path.
            ap (λ (w : Workspace). contains w.authored_paths path) (sym e)
            ∙ ground (arith, has_nil agent path);
      }
    where
      state_of : {a : Workspace} → ◌≡◌ {A = Ran (Unit {0})} (ok tt, a) (ok tt, v) → a ≡ v
      state_of e = ap (λ (r : Ran (Unit {0})). r.1) e
  adopt_items-Adopted authored u v (item ∷ items) h =
      elim (Result-cases (resolve_existing setup.is_symlink (is_file u) item.path)) [
        | inr (e, refused) ↦ absurd (raised (rw (refused, adopt_items) at h))
        | inl (key, found) ↦ elim (Origin-cases item.origin) [
          | inl by_agent ↦
              let rest =
                adopt_items-Adopted (add_path item.path authored) u v items
                  (rw (found, by_agent, adopt_items) at h) in
              record {
                files = rest.files;
                assets = λ path.
                    rest.assets path
                    ∙ ap (λ b. contains u.asset_paths path || b)
                        (sym (has_other user_asset agent path item items by_agent refl));
                authors = λ path.
                    rest.authors path
                    ∙ ground (
                      arith,
                      contains-add_path item.path authored path,
                      has_same agent path item items by_agent,
                    );
              }
          | inr (inl by_tool) ↦
              let rest =
                adopt_items-Adopted authored u v items (rw (found, by_tool, adopt_items) at h) in
              record {
                files = rest.files;
                assets = λ path.
                    rest.assets path
                    ∙ ap (λ b. contains u.asset_paths path || b)
                        (sym (has_other user_asset native path item items by_tool refl));
                authors = λ path.
                    rest.authors path
                    ∙ ap (λ b. contains authored path || b)
                        (sym (has_other agent native path item items by_tool refl));
              }
          | inr (inr by_user) ↦
              let rest =
                adopt_items-Adopted authored
                  (record u { asset_paths = add_path item.path u.asset_paths }) v items
                  (rw (found, by_user, adopt_items) at h) in
              record {
                files = rest.files;
                assets = λ path.
                    rest.assets path
                    ∙ ground (
                      arith,
                      contains-add_path item.path u.asset_paths path,
                      has_same user_asset path item items by_user,
                    );
                authors = λ path.
                    rest.authors path
                    ∙ ap (λ b. contains authored path || b)
                        (sym (has_other agent user_asset path item items by_user refl));
              }
        ]
      ]
    where
      raised : {e : WorkspaceError} → ◌≡◌ {A = Ran (Unit {0})} (err e, u) (ok tt, v) → ⊥
      raised h = cc (ap (λ (r : Ran (Unit {0})). r.0) h)

  -- With different paths an item's origin is the one that its path has.
  abbrev Shown : Origin → List CaseFileSeal → CaseFileSeal → Type 0
  Shown origin items item = has origin item.path items ≡ (item.origin == origin)

  Shown-cons :
      (origin : Origin) (item : CaseFileSeal) (items rest : List CaseFileSeal)
      → contains (map path_of rest) item.path ≡ false
      → Each (Shown origin items) rest
      → Each (Shown origin (item ∷ items)) rest
  unfolding has contains
  Shown-cons origin item items [] h shown = tt
  Shown-cons origin item items (other ∷ rest) h (here, later) = (
    ground (arith, eq_iff item.path other.path, eq_iff other.path item.path),
    Shown-cons origin item items rest (ground arith) later,
  )

  Shown-self :
      (origin : Origin) (items : List CaseFileSeal)
      → distinct (map path_of items) ≡ true
      → Each (Shown origin items) items
  unfolding has distinct
  Shown-self origin [] apart = tt
  Shown-self origin (item ∷ items) apart =
      let fresh : contains (map path_of items) item.path ≡ false = ground arith in
      (
        ground (arith, eq_refl item.path, absent-has origin item.path items fresh),
        Shown-cons origin item items items fresh (Shown-self origin items (ground arith)),
      )

  origin_of_shown :
      (v : Workspace) (item : CaseFileSeal)
      → contains v.asset_paths item.path ≡ (item.origin == user_asset)
      → contains v.authored_paths item.path ≡ (item.origin == agent)
      → origin_of setup faults sealing v item.path ≡ item.origin
  unfolding origin_of
  origin_of_shown v item a b = elim (Origin-cases item.origin) [
    | inl e ↦ rw (a, b, e) refl
    | inr (inl e) ↦ rw (a, b, e) refl
    | inr (inr e) ↦ rw (a, b, e) refl
  ]

  Each-zip :
      (v u : Workspace) (all_items items : List CaseFileSeal)
      → Adopted [] u v all_items
      → u.asset_paths ≡ []
      → Each (Shown user_asset all_items) items
      → Each (Shown agent all_items) items
      → Each
          (λ (item : CaseFileSeal). origin_of setup faults sealing v item.path ≡ item.origin)
          items
  unfolding contains
  Each-zip v u all_items [] adopted none_yet shown_a shown_b = tt
  Each-zip v u all_items (item ∷ items) adopted none_yet (a, shown_a) (b, shown_b) = (
    origin_of_shown v item (adopted.assets item.path ∙ rw none_yet a)
        (adopted.authors item.path ∙ b),
    Each-zip v u all_items items adopted none_yet shown_a shown_b,
  )

  -- A case is sealed, and the files stay. A workspace that has adopted the seal, whatever it held
  -- before, reads the same inputs with the same origins, and accepts the seal, if the sealed paths
  -- are different.
  pub verify_seal-adopt_seal-seal :
      (w u v : Workspace) (plan_digest : Str) {sealed : CaseSeal}
      → seal setup faults sealing w plan_digest ≡ ok sealed
      → distinct (map path_of sealed.files) ≡ true
      → u.files ≡ w.files
      → adopt_seal setup faults sealing u sealed ≡ (ok tt, v)
      → (execution_file_seals setup faults sealing v ≡ ok sealed.files)
        × (verify_seal setup faults sealing v sealed plan_digest ≡ ok tt)
  unfolding adopt_seal
  verify_seal-adopt_seal-seal w u v plan_digest {sealed} made apart same adopted =
      let (files, read, e) = seal-ok setup faults sealing w plan_digest made in
      let cleared : Workspace = record u { asset_paths = [] } in
      let left = adopt_items-Adopted [] cleared v sealed.files adopted in
      let shown =
        Each-zip v cleared sealed.files sealed.files left refl
          (Shown-self user_asset sealed.files apart) (Shown-self agent sealed.files apart) in
      let listed : files ≡ sealed.files = ap (λ (s : CaseSeal). s.files) e in
      let again =
        execution_file_seals-same setup faults sealing w v (left.files ∙ same) (read ∙ ap ok listed)
          shown in
      let found : made_of setup faults sealing plan_digest sealed.files ≡ sealed =
        ap (made_of setup faults sealing plan_digest) (sym listed) ∙ e in
      (
        again,
        subst (λ s. verify_seal setup faults sealing v s plan_digest ≡ ok tt) found
            (accepted setup faults sealing v plan_digest sealed.files again apart),
      )
