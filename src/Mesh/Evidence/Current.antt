-- ===== src/Mesh/Evidence/Current.antt =====
-- When the mesh evidence of a plan is current, and what the legacy fields mirror.
use open_foam_agent.Prelude.{
  ℕ, ◌≤◌, Str, Bool, true, false, ◌&&◌, Option, none, some, List, [], ◌∷◌, ◌++◌, ◌==◌, nat_eq,
  list_eq, option_eq, eq_iff, ◌≡◌, refl, sym, ap, ◌∙◌, ◌↔◌, arith, Bool-cases, inl, inr,
  if◌then◌else◌, starts_with, drop, length, append_nil_iff,
}
use open_foam_agent.Native.Scopes.{
  ExecutionScope, EngineeringPlan, execution_scopes, scope_key, key_of_name, region_scope_prefix,
}
use open_foam_agent.Native.Scopes.Keys.{prefix_split}
use open_foam_agent.Mesh.Evidence.{
  MeshEvidence, MeshState, get, EvidenceFailure, label_of, cell_failures, evidence_failures,
  scope_failures, failures_of, current_mesh_evidence_failures, regions_of, sync_legacy_mesh_state,
}

-- A cell count that is known is within the limit.
pub WithinLimit : ℕ → Option ℕ → Type 0
WithinLimit max_mesh_cells none = Unit
WithinLimit max_mesh_cells (some n) = n ≤ max_mesh_cells

-- Passing evidence within the limit, for the mesh as it is now.
pub IsCurrent : ℕ → Str → Option Str → Option MeshEvidence → Type 0
IsCurrent max_mesh_cells expected manifest none = ⊥
IsCurrent max_mesh_cells expected manifest (some e) =
    (e.passed ≡ true) × WithinLimit max_mesh_cells e.cell_count × (manifest ≡ some expected)

pub Each : (ExecutionScope → Type 0) → List ExecutionScope → Type 0
Each P [] = Unit
Each P (scope ∷ scopes) = P scope × Each P scopes

cells_iff :
    (label : Str) (max_mesh_cells : ℕ) (cells : Option ℕ)
    → (cell_failures label max_mesh_cells cells ≡ []) ↔ WithinLimit max_mesh_cells cells
unfolding WithinLimit
cells_iff label max_mesh_cells none = (λ h. tt, λ h. refl)
cells_iff label max_mesh_cells (some n) = (λ h. ground arith, λ h. ground arith)

stale_iff :
    (label expected : Str) (manifest : Option Str)
    → ((if manifest == some expected then [] else EvidenceFailure.evidence_stale label ∷ []) ≡ [])
      ↔ (manifest ≡ some expected)
stale_iff label expected manifest = elim (Bool-cases (manifest == some expected)) [
  | inl same ↦ rw same (λ h. (eq_iff manifest (some expected)).0 same, λ h. refl)
  | inr other ↦
      rw other
        (λ h. absurd (cc), λ h. absurd (cc (sym other ∙ (eq_iff manifest (some expected)).1 h)))
]

evidence_iff :
    (label : Str) (max_mesh_cells : ℕ) (expected : Str) (manifest : Option Str)
    (e : Option MeshEvidence)
    → (evidence_failures label max_mesh_cells expected manifest e ≡ [])
      ↔ IsCurrent max_mesh_cells expected manifest e
unfolding evidence_failures IsCurrent
evidence_iff label max_mesh_cells expected manifest none = (λ h. absurd (cc), λ h. absurd h)
evidence_iff label max_mesh_cells expected manifest (some e) = elim (Bool-cases e.passed) [
  | inl passed ↦
      let stale =
        if manifest == some expected then [] else EvidenceFailure.evidence_stale label ∷ [] in
      let (split, join) = append_nil_iff (cell_failures label max_mesh_cells e.cell_count) stale in
      let (cells, within) = cells_iff label max_mesh_cells e.cell_count in
      let (fresh, same) = stale_iff label expected manifest in
      rw passed (
        λ h. let (a, b) = split h in (refl, cells a, fresh b),
        λ (p, w, m). join (within w, same m),
      )
  | inr not_passed ↦ rw not_passed (λ h. absurd (cc), λ (p, w, m). absurd (cc))
]

module _ (digest : ExecutionScope → Str) (max_mesh_cells : ℕ) (s : MeshState) where
  -- The evidence that the state has for a scope is current.
  pub IsCurrentScope : ExecutionScope → Type 0
  IsCurrentScope scope =
      IsCurrent max_mesh_cells (digest scope) (get s.mesh_manifest_by_scope (scope_key scope))
        (get s.mesh_evidence_by_scope (scope_key scope))

  failures_iff :
      (scopes : List ExecutionScope)
      → (failures_of digest max_mesh_cells s scopes ≡ []) ↔ Each IsCurrentScope scopes
  unfolding failures_of Each scope_failures IsCurrentScope
  failures_iff [] = (λ h. tt, λ h. refl)
  failures_iff (scope ∷ scopes) =
      let (split, join) =
        append_nil_iff (scope_failures digest max_mesh_cells s scope)
          (failures_of digest max_mesh_cells s scopes) in
      let (now, back) =
        evidence_iff (label_of scope.name) max_mesh_cells (digest scope)
          (get s.mesh_manifest_by_scope (scope_key scope))
          (get s.mesh_evidence_by_scope (scope_key scope)) in
      let (later, backward) = failures_iff scopes in
      (λ h. let (a, b) = split h in (now a, later b), λ (a, b). join (back a, backward b))

  -- No failure of mesh evidence is reported exactly if every declared scope has passing
  -- evidence, with a cell count within the limit if it has one, and with a manifest equal to the
  -- digest of its mesh.
  pub current_mesh_evidence_failures_iff :
      (plan : EngineeringPlan)
      → (current_mesh_evidence_failures digest max_mesh_cells s plan ≡ [])
        ↔ Each IsCurrentScope (execution_scopes plan)
  unfolding current_mesh_evidence_failures
  current_mesh_evidence_failures_iff plan = failures_iff (execution_scopes plan)

and_true : (a b : Bool) → a ≡ true → (a && b) ≡ b
and_true a b h = ground arith

and_false : (a b : Bool) → a ≡ false → (a && b) ≡ false
and_false a b h = ground arith

get-regions_of {ℓ} :
    {A : Type ℓ} (items : List (Str × A)) (name : Str)
    → get (regions_of items) name ≡ get items (region_scope_prefix ++ name)
unfolding get regions_of
get-regions_of [] name = refl
get-regions_of ((key, a) ∷ rest) name =
    let split = prefix_split region_scope_prefix name key in
    let later = get-regions_of rest name in
    elim (Bool-cases (starts_with key region_scope_prefix)) [
      | inl starts ↦
          let same : (key == (region_scope_prefix ++ name))
              ≡ (drop (length region_scope_prefix) key == name) =
            split
            ∙ and_true (starts_with key region_scope_prefix)
                (drop (length region_scope_prefix) key == name) starts in
          rw starts (
            ap
              (λ (o : Option _).
                if drop (length region_scope_prefix) key == name then some a else o)
              later
            ∙ ap (λ (b : Bool). if b then some a else get rest (region_scope_prefix ++ name))
                (sym same))
      | inr differs ↦
          let other : (key == (region_scope_prefix ++ name)) ≡ false =
            split
            ∙ and_false (starts_with key region_scope_prefix)
                (drop (length region_scope_prefix) key == name) differs in
          rw differs (
            later
            ∙ ap (λ (b : Bool). if b then some a else get rest (region_scope_prefix ++ name))
                (sym other))
    ]

-- After a synchronisation the legacy root field is the entry of the root scope, and the entries
-- of a region in the two legacy maps are those under the key of its scope.
pub sync_legacy_mesh_state_lem :
    (s : MeshState) (name : Str)
    → ((sync_legacy_mesh_state s).mesh_evidence ≡ get s.mesh_evidence_by_scope (key_of_name none))
      × (get (sync_legacy_mesh_state s).region_mesh_evidence name
          ≡ get s.mesh_evidence_by_scope (key_of_name (some name)))
      × (get (sync_legacy_mesh_state s).region_mesh_manifests name
          ≡ get s.mesh_manifest_by_scope (key_of_name (some name)))
unfolding sync_legacy_mesh_state key_of_name
sync_legacy_mesh_state_lem s name = (
  refl,
  get-regions_of s.mesh_evidence_by_scope name,
  get-regions_of s.mesh_manifest_by_scope name,
)
