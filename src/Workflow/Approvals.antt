-- ===== src/Workflow/Approvals.antt =====
-- `ExecutionApproval` of contracts/execution.py with its issue and the repair protections that it
-- projects from a plan, and `ResourceLimits` of contracts/models.py. A document that is only hashed
-- is its JSON text, a float that is only passed on is its text, and `sha256` (of Python's hashlib)
-- is an argument. What `check_repair_delta` does to the authorized hashes is not modelled.
pub mod Binds
use open_foam_agent.Prelude.{
  ℕ, Str, codes, Option, none, some, List, [], ◌∷◌, ◌++◌, map, nat_eq, list_eq, list_beq, contains,
  if◌then◌else◌, sort_by,
}
use open_foam_agent.Prelude.Dict.{Dict, find, put}
use open_foam_agent.Native.Contracts.{str_le}

-- What the protections read of a case assertion, or of a term of a numeric relation.
pub record BoundEntry : Type 0 where
  pub path : Str
  pub entry_path : Option Str

pub record NumericRelation : Type 0 where
  pub numerator : List BoundEntry
  pub denominator : List BoundEntry

pub record FactBinding : Type 0 where
  pub case_assertions : List BoundEntry
  pub numeric_relation : Option NumericRelation

-- What an approval binds of an `EngineeringPlan`.
pub record PlanDocuments : Type 0 where
  pub execution_document : Str
  pub physical_plan_document : Str
  pub confirmed_intake_sha256 : Str
  pub confirmed_fact_bindings : List FactBinding

pub record CaseSeal : Type 0 where
  pub manifest_sha256 : Str
  pub files : List (Str × Str)

pub record ResourceLimits : Type 0 where
  pub max_native_processes : ℕ
  pub wall_seconds : ℕ
  pub cpu_seconds : Option ℕ
  pub memory_bytes : Option ℕ
  pub max_output_bytes : ℕ
  pub max_case_bytes : ℕ
  pub max_ranks : ℕ
  pub max_processes : ℕ
  pub cpu_cores : Str
  pub total_cpu_seconds : Option Str
  pub total_wall_seconds : Str
  pub max_total_output_bytes : ℕ

abbrev pub default_limits : ResourceLimits
default_limits = record {
  max_native_processes = 40;
  wall_seconds = 3600;
  cpu_seconds = none;
  memory_bytes = none;
  max_output_bytes = 268435456;
  max_case_bytes = 2000000000;
  max_ranks = 8;
  max_processes = 256;
  cpu_cores = codes "8.0";
  total_cpu_seconds = none;
  total_wall_seconds = codes "86400.0";
  max_total_output_bytes = 1000000000;
}

pub record ExecutionApproval : Type 0 where
  pub execution : Str
  pub execution_sha256 : Str
  pub physical_plan_sha256 : Str
  pub intake_sha256 : Str
  pub approved_manifest_sha256 : Str
  pub approved_files : Dict Str Str
  pub protected_repair_entries : Dict Str (List Str)
  pub protected_repair_files : List Str
  pub authorized_repair_hashes : Dict Str Str
  pub repair_baselines : Dict Str Str
  pub authorized_repair_base_hashes : Dict Str Str
  pub resource_limits : ResourceLimits
  pub approved_by : Str

-- The entries by file, and the files that are protected as a whole: sets are lists of different
-- elements.
pub record Protections : Type 0 where
  pub entries : Dict Str (List Str)
  pub whole_files : List Str

abbrev pub add_item : Str → List Str → List Str
add_item item items = if contains items item then items else items ++ item ∷ []

abbrev pub set_of : Option (List Str) → List Str
set_of none = []
set_of (some items) = items

-- What one entry protects: the entry, or its file where it has no entry path.
unfoldable pub protect_at : Str → Option Str → Protections → Protections
unfolding find put contains list_beq
protect_at path (some (c ∷ cs)) p = record p {
  entries = put path (add_item (c ∷ cs) (set_of (find path p.entries))) p.entries;
}
protect_at path (some []) p = record p { whole_files = add_item path p.whole_files }
protect_at path none p = record p { whole_files = add_item path p.whole_files }

unfoldable pub protect_all : List BoundEntry → Protections → Protections
unfolding protect_at
protect_all [] p = p
protect_all (entry ∷ entries) p = protect_all entries (protect_at entry.path entry.entry_path p)

abbrev pub relation_terms : Option NumericRelation → List BoundEntry
relation_terms none = []
relation_terms (some relation) = relation.numerator ++ relation.denominator

unfoldable pub protect_bindings : List FactBinding → Protections → Protections
unfolding protect_all
protect_bindings [] p = p
protect_bindings (binding ∷ bindings) p =
    protect_bindings bindings (
      protect_all (relation_terms binding.numeric_relation) (protect_all binding.case_assertions p))

abbrev pub sorted_entries : Dict Str (List Str) → Dict Str (List Str)
sorted_entries [] = []
sorted_entries ((path, values) ∷ entries) = (path, sort_by str_le values) ∷ sorted_entries entries

-- `_protected_repair_locations`
unfoldable pub protected_repair_locations : List FactBinding → Protections
unfolding protect_bindings sort_by str_le
protected_repair_locations bindings =
    let p = protect_bindings bindings (record { entries = []; whole_files = [] }) in
    record { entries = sorted_entries p.entries; whole_files = sort_by str_le p.whole_files }

-- `{x.path: x.sha256 for x in seal.files}`
unfoldable pub files_by_path : List (Str × Str) → Dict Str Str → Dict Str Str
unfolding put list_beq
files_by_path [] d = d
files_by_path ((path, sha) ∷ files) d = files_by_path files (put path sha d)

module _ (sha256 : Str → Str) where
  -- `ExecutionApproval.issue`
  unfoldable pub issue : PlanDocuments → CaseSeal → Option ResourceLimits → ExecutionApproval
  unfolding protected_repair_locations files_by_path
  issue plan seal limits =
      let locations = protected_repair_locations plan.confirmed_fact_bindings in
      record {
        execution = plan.execution_document;
        execution_sha256 = sha256 plan.execution_document;
        physical_plan_sha256 = sha256 plan.physical_plan_document;
        intake_sha256 = plan.confirmed_intake_sha256;
        approved_manifest_sha256 = seal.manifest_sha256;
        approved_files = files_by_path seal.files [];
        protected_repair_entries = locations.entries;
        protected_repair_files = locations.whole_files;
        authorized_repair_hashes = [];
        repair_baselines = [];
        authorized_repair_base_hashes = [];
        resource_limits = elim limits [ some l ↦ l | none ↦ default_limits ];
        approved_by = codes "explicit_user_solve";
      }
