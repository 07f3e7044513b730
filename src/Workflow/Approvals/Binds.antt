-- ===== src/Workflow/Approvals/Binds.antt =====
-- What an issued approval binds, written out without `issue` and its loops.
use open_foam_agent.Prelude.{
  Str, codes, Bool, true, false, ◌&&◌, ◌||◌, Option, none, some, List, [], ◌∷◌, nat_eq, list_eq,
  ◌==◌, eq_iff, ◌≡◌, refl, ap, ◌∙◌, arith, contains, any, if◌then◌else◌, contains-sort_by,
  any-append, contains-append, Bool-cases, inl, inr,
}
use open_foam_agent.Prelude.Dict.{Dict, find, put, find-put, or_else}
use open_foam_agent.Native.Contracts.{str_le}
use open_foam_agent.Workflow.Approvals.{
  BoundEntry, FactBinding, NumericRelation, PlanDocuments, CaseSeal, ResourceLimits, default_limits,
  ExecutionApproval, Protections, set_of, add_item, protect_at, protect_all, relation_terms,
  protect_bindings, sorted_entries, protected_repair_locations, files_by_path, issue,
}

-- The digest of a file in a list where a later file of the same path counts.
abbrev pub last_sha : List (Str × Str) → Str → Option Str
last_sha [] path = none
last_sha ((p, sha) ∷ files) path =
    or_else (last_sha files path) (if path == p then some sha else none)

find-files_by_path :
    (files : List (Str × Str)) (d : Dict Str Str) (path : Str)
    → find path (files_by_path files d) ≡ or_else (last_sha files path) (find path d)
unfolding files_by_path
find-files_by_path [] d path = refl
find-files_by_path ((p, sha) ∷ files) d path =
    ground (arith, find-files_by_path files (put p sha d) path, find-put p sha d path)

-- Whether an entry path is that of an entry, or is missing or empty.
abbrev is_entry : Str → Option Str → Bool
is_entry entry none = false
is_entry entry (some []) = false
is_entry entry (some (c ∷ cs)) = entry == (c ∷ cs)

abbrev is_whole : Option Str → Bool
is_whole none = true
is_whole (some []) = true
is_whole (some (c ∷ cs)) = false

abbrev pub names_entry : Str → Str → BoundEntry → Bool
names_entry path entry bound = (path == bound.path) && is_entry entry bound.entry_path

abbrev pub names_file : Str → BoundEntry → Bool
names_file path bound = (path == bound.path) && is_whole bound.entry_path

-- Whether a case assertion, or a term of the numeric relation, passes a test.
abbrev in_relation : (BoundEntry → Bool) → Option NumericRelation → Bool
in_relation test none = false
in_relation test (some relation) = any test relation.numerator || any test relation.denominator

abbrev pub in_binding : (BoundEntry → Bool) → FactBinding → Bool
in_binding test binding =
    any test binding.case_assertions || in_relation test binding.numeric_relation

-- The entries protected under a path.
abbrev pub entries_of : Dict Str (List Str) → Str → List Str
entries_of entries path = set_of (find path entries)

-- What holds of the protections is written with these two tests.
is_protected : Str → Str → Protections → Bool
is_protected path entry p = contains (entries_of p.entries path) entry

is_protected_file : Str → Protections → Bool
is_protected_file path p = contains p.whole_files path

contains-add_item :
    (item : Str) (items : List Str) (other : Str)
    → contains (add_item item items) other ≡ (contains items other || (other == item))
unfolding contains
contains-add_item item items other = elim (Bool-cases (contains items item)) [
  | inl known ↦ rw known (ground (arith, eq_iff other item, known))
  | inr new ↦ rw new (contains-append items (item ∷ []) other ∙ ground arith)
]

is_protected-protect_at :
    (path entry file : Str) (entry_path : Option Str) (p : Protections)
    → is_protected path entry (protect_at file entry_path p)
      ≡ (is_protected path entry p || ((path == file) && is_entry entry entry_path))
unfolding is_protected protect_at
is_protected-protect_at path entry file none p = ground arith
is_protected-protect_at path entry file (some []) p = ground arith
is_protected-protect_at path entry file (some (c ∷ cs)) p =
    let values = set_of (find file p.entries) in
    ap (λ found. contains (set_of found) entry)
      (find-put file (add_item (c ∷ cs) values) p.entries path)
    ∙ elim (Bool-cases (path == file)) [
      | inl same ↦
          let e : path ≡ file = (eq_iff path file).0 same in
          rw (same, e) (contains-add_item (c ∷ cs) values entry)
      | inr other ↦ rw other (ground arith)
    ]

is_protected_file-protect_at :
    (path file : Str) (entry_path : Option Str) (p : Protections)
    → is_protected_file path (protect_at file entry_path p)
      ≡ (is_protected_file path p || ((path == file) && is_whole entry_path))
unfolding is_protected_file protect_at
is_protected_file-protect_at path file none p =
    contains-add_item file p.whole_files path ∙ ground arith
is_protected_file-protect_at path file (some []) p =
    contains-add_item file p.whole_files path ∙ ground arith
is_protected_file-protect_at path file (some (c ∷ cs)) p = ground arith

-- A test of the protections that each entry extends is extended by all of them.
module _ (held : Protections → Bool) (test : BoundEntry → Bool)
    (step : (bound : BoundEntry) (p : Protections)
      → held (protect_at bound.path bound.entry_path p) ≡ (held p || test bound)) where
  held-protect_all :
      (bounds : List BoundEntry) (p : Protections)
      → held (protect_all bounds p) ≡ (held p || any test bounds)
  unfolding protect_all any
  held-protect_all [] p = ground arith
  held-protect_all (bound ∷ bounds) p =
      ground
        (arith, held-protect_all bounds (protect_at bound.path bound.entry_path p), step bound p)

  any-relation_terms :
      (relation : Option NumericRelation)
      → any test (relation_terms relation) ≡ in_relation test relation
  unfolding any
  any-relation_terms none = refl
  any-relation_terms (some relation) = any-append test relation.numerator relation.denominator

  held-protect_bindings :
      (bindings : List FactBinding) (p : Protections)
      → held (protect_bindings bindings p) ≡ (held p || any (in_binding test) bindings)
  unfolding protect_bindings any
  held-protect_bindings [] p = ground arith
  held-protect_bindings (binding ∷ bindings) p =
      let asserted = protect_all binding.case_assertions p in
      let related = protect_all (relation_terms binding.numeric_relation) asserted in
      ground (
        arith,
        held-protect_bindings bindings related,
        held-protect_all (relation_terms binding.numeric_relation) asserted,
        held-protect_all binding.case_assertions p,
        any-relation_terms binding.numeric_relation,
      )

contains-sorted_entries :
    (entries : Dict Str (List Str)) (path entry : Str)
    → contains (entries_of (sorted_entries entries) path) entry
      ≡ contains (entries_of entries path) entry
unfolding find
contains-sorted_entries [] path entry = refl
contains-sorted_entries ((p, values) ∷ entries) path entry =
    ground (arith, contains-sorted_entries entries path entry, contains-sort_by str_le values entry)

-- The approval holds the documents of the plan and their digests, the seal's manifest and files, the
-- limits given or the default ones, and no authorized repair. An entry is protected under a path
-- exactly if an assertion or a term of some binding names it there, and a file is protected exactly
-- if one names the file without an entry.
pub record Binds (sha256 : Str → Str) (plan : PlanDocuments) (seal : CaseSeal)
    (limits : Option ResourceLimits) (approval : ExecutionApproval) : Type 0 where
  pub execution : approval.execution ≡ plan.execution_document
  pub execution_sha256 : approval.execution_sha256 ≡ sha256 plan.execution_document
  pub physical_plan_sha256 : approval.physical_plan_sha256 ≡ sha256 plan.physical_plan_document
  pub intake_sha256 : approval.intake_sha256 ≡ plan.confirmed_intake_sha256
  pub manifest : approval.approved_manifest_sha256 ≡ seal.manifest_sha256
  pub files : (path : Str) → find path approval.approved_files ≡ last_sha seal.files path
  pub entries :
      (path entry : Str)
      → contains (entries_of approval.protected_repair_entries path) entry
        ≡ any (in_binding (names_entry path entry)) plan.confirmed_fact_bindings
  pub whole_files :
      (path : Str)
      → contains approval.protected_repair_files path
        ≡ any (in_binding (names_file path)) plan.confirmed_fact_bindings
  pub no_repair : approval.authorized_repair_hashes ≡ []
  pub no_baseline : approval.repair_baselines ≡ []
  pub no_repair_base : approval.authorized_repair_base_hashes ≡ []
  pub given_limits : some approval.resource_limits ≡ or_else limits (some default_limits)
  pub approver : approval.approved_by ≡ codes "explicit_user_solve"

protected_entries :
    (bindings : List FactBinding) (path entry : Str)
    → contains (entries_of (protected_repair_locations bindings).entries path) entry
      ≡ any (in_binding (names_entry path entry)) bindings
unfolding protected_repair_locations is_protected
protected_entries bindings path entry =
    let none_yet : Protections = record { entries = []; whole_files = [] } in
    contains-sorted_entries (protect_bindings bindings none_yet).entries path entry
    ∙ held-protect_bindings (is_protected path entry) (names_entry path entry)
        (λ bound p. is_protected-protect_at path entry bound.path bound.entry_path p) bindings
        none_yet

protected_files :
    (bindings : List FactBinding) (path : Str)
    → contains (protected_repair_locations bindings).whole_files path
      ≡ any (in_binding (names_file path)) bindings
unfolding protected_repair_locations is_protected_file
protected_files bindings path =
    let none_yet : Protections = record { entries = []; whole_files = [] } in
    contains-sort_by str_le (protect_bindings bindings none_yet).whole_files path
    ∙ held-protect_bindings (is_protected_file path) (names_file path)
        (λ bound p. is_protected_file-protect_at path bound.path bound.entry_path p) bindings
        none_yet

or_else-none : {A : Type 0} (a : Option A) → or_else a none ≡ a
or_else-none none = refl
or_else-none (some a) = refl

limits_given :
    (limits : Option ResourceLimits)
    → some (elim limits [ some l ↦ l | none ↦ default_limits ])
      ≡ or_else limits (some default_limits)
limits_given none = refl
limits_given (some l) = refl

pub issue-Binds :
    (sha256 : Str → Str) (plan : PlanDocuments) (seal : CaseSeal) (limits : Option ResourceLimits)
    → Binds sha256 plan seal limits (issue sha256 plan seal limits)
unfolding issue
issue-Binds sha256 plan seal limits = record {
  execution = refl;
  execution_sha256 = refl;
  physical_plan_sha256 = refl;
  intake_sha256 = refl;
  manifest = refl;
  files = λ path. find-files_by_path seal.files [] path ∙ or_else-none (last_sha seal.files path);
  entries = λ path entry. protected_entries plan.confirmed_fact_bindings path entry;
  whole_files = λ path. protected_files plan.confirmed_fact_bindings path;
  no_repair = refl;
  no_baseline = refl;
  no_repair_base = refl;
  given_limits = limits_given limits;
  approver = refl;
}
