-- ===== src/Workspace/Examples.antt =====
-- A workspace with two files, a transaction that is committed, and one that is rolled back.
use open_foam_agent.Prelude.{
  Str, codes, true, false, Option, none, some, List, [], ◌∷◌, ◌==◌, nat_eq, list_eq, ◌≡◌, refl,
  if◌then◌else◌, contains, distinct, ◌++◌, ok, err,
}
use open_foam_agent.Prelude.Dict.{find}
use open_foam_agent.Workspace.Errors.{unsafe_path, os_error, input_changed}
use open_foam_agent.Workspace.Paths.{
  Key, resolve_case_path, resolve_from, is_inside, is_writable, any_symlink, case_name, dots,
}
use open_foam_agent.Workspace.Paths.Confined.{resolve_case_path-confined}
use open_foam_agent.Workspace.Preflight.{File, Workspace, Setup}
use open_foam_agent.Workspace.Transaction.{Faults, commit_text_transaction}
use open_foam_agent.Workspace.Seals.{
  CaseFileSeal, CaseSeal, Sealing, agent, seal, verify_seal, adopt_seal, execution_file_seals,
  by_path,
}
use open_foam_agent.Workspace.Seals.Verified.{verify_seal-exact}
use open_foam_agent.Workspace.Seals.Adopted.{verify_seal-adopt_seal-seal}
use open_foam_agent.Workspace.Transaction.Atomic.{AllOrNothing, commit_text_transaction-atomic}

abbrev setup : Setup
setup = record {
  max_file_bytes = 100;
  max_total_bytes = 100;
  is_symlink = λ key. false;
  validate_content = λ text path. ok tt;
  sha256 = λ bytes. bytes;
}

abbrev control : Key
control = codes "system" ∷ codes "controlDict" ∷ []

abbrev schemes : Key
schemes = codes "system" ∷ codes "fvSchemes" ∷ []

abbrev case_files : Key → Option File
case_files key =
    if key == control
    then some (record { bytes = codes "old"; mode = 33188 })
    else if key == schemes
    then some (record { bytes = codes "s"; mode = 33188 })
    else none

abbrev workspace : Workspace
workspace = record {
  files = case_files;
  authored_paths = codes "system/controlDict" ∷ codes "system/fvSchemes" ∷ [];
  asset_paths = [];
}

abbrev changes : List (Str × Str)
changes = (codes "system/controlDict", codes "new") ∷ (codes "constant/g", codes "(0 0 -9.81)") ∷ []

abbrev drop_paths : List Str
drop_paths = codes "system/fvSchemes" ∷ []

abbrev no_faults : Faults
no_faults = record {
  read_fails = λ path. false;
  write_fails = λ path. false;
  unlink_fails = λ path. false;
  restore_fails = λ path. false;
}

-- The second write raises.
abbrev disk_full : Faults
disk_full = record no_faults { write_fails = λ path. path == codes "constant/g" }

escape_test :
    resolve_case_path (λ key. false) (codes "system/../../x")
    ≡ err (unsafe_path (codes "system/../../x"))
unfolding resolve_case_path
escape_test = refl

committed_test :
    (commit_text_transaction setup no_faults workspace changes drop_paths).1.files control
    ≡ some (record { bytes = codes "new"; mode = 33152 })
unfolding commit_text_transaction
committed_test = refl

rolled_back_test :
    ((commit_text_transaction setup disk_full workspace changes drop_paths).0
      ≡ err (os_error (codes "constant/g")))
    × ((commit_text_transaction setup disk_full workspace changes drop_paths).1.files control
        ≡ some (record { bytes = codes "old"; mode = 33188 }))
unfolding commit_text_transaction
rolled_back_test = (refl, refl)

resolve_case_path-confined_example :
    (is_inside (resolve_from (case_name ∷ []) control) ≡ true)
    × (contains control dots ≡ false)
    × (is_writable control ≡ true)
    × (any_symlink (λ key. false) (case_name ∷ []) control ≡ false)
unfolding resolve_case_path
resolve_case_path-confined_example =
    resolve_case_path-confined (λ key. false) (codes "/system//./controlDict/") refl

commit_text_transaction-atomic_example :
    AllOrNothing setup disk_full workspace changes drop_paths
      (commit_text_transaction setup disk_full workspace changes drop_paths)
commit_text_transaction-atomic_example =
    commit_text_transaction-atomic setup disk_full workspace changes drop_paths (λ path. refl)

abbrev digests : List CaseFileSeal → Str
digests [] = []
digests (item ∷ items) = item.sha256 ++ digests items

abbrev below_system : Str → List Key
below_system directory =
    if directory == codes "system"
    then schemes ∷ control ∷ (codes "system" ∷ codes "d" ∷ []) ∷ []
    else []

-- `system` holds two files and a directory.
abbrev sealing : Sealing
sealing = record {
  max_execution_bytes = 1000;
  max_execution_files = 10;
  rglob = below_system;
  decode = λ bytes. some bytes;
  digest_of = digests;
}

abbrev sealed_files : List CaseFileSeal
sealed_files =
    record {
      path = codes "system/controlDict";
      sha256 = codes "old";
      size_bytes = 3;
      origin = agent;
    }
    ∷ record { path = codes "system/fvSchemes"; sha256 = codes "s"; size_bytes = 1; origin = agent }
    ∷ []

abbrev sealed_case : CaseSeal
sealed_case = record {
  plan_sha256 = codes "plan";
  manifest_sha256 = codes "olds";
  files = sealed_files;
}

sealed_test : seal setup no_faults sealing workspace (codes "plan") ≡ ok sealed_case
unfolding seal
sealed_test = refl

-- A file that is changed after the sealing is found.
tampered_test :
    verify_seal setup no_faults sealing
      (record workspace {
        files = λ key.
            if key == control
            then some (record { bytes = codes "new"; mode = 33188 })
            else case_files key;
      })
      sealed_case
      (codes "plan")
    ≡ err (input_changed (codes "system/controlDict"))
unfolding verify_seal
tampered_test = refl

-- A workspace that tracks nothing yet.
abbrev untracked : Workspace
untracked = record workspace { authored_paths = [] }

verify_seal-exact_example :
    (files : List CaseFileSeal) × (execution_file_seals setup no_faults sealing workspace
      ≡ ok files)
    × (codes "plan" ≡ sealed_case.plan_sha256)
    × ((path : Str) → find path (by_path [] sealed_case.files) ≡ find path (by_path [] files))
unfolding verify_seal
verify_seal-exact_example =
    verify_seal-exact setup no_faults sealing workspace sealed_case (codes "plan") refl

verify_seal-adopt_seal-seal_example :
    (execution_file_seals setup no_faults sealing workspace ≡ ok sealed_files)
    × (verify_seal setup no_faults sealing workspace sealed_case (codes "plan") ≡ ok tt)
unfolding adopt_seal distinct
verify_seal-adopt_seal-seal_example =
    verify_seal-adopt_seal-seal setup no_faults sealing workspace untracked workspace (codes "plan")
      sealed_test refl refl refl
