-- ===== src/Native/Contracts.antt =====
-- tools/native_contracts.py. The registry is package data (a JSON file that is read at import): it
-- is an argument, the list of its records in the order of the file.
pub mod Registered
use open_foam_agent.Prelude.{
  listed_eq, nth, ◌≡◌, refl, Eq, ℕ, ℕ, suc, Str, codes, Bool, true, false, not, ◌&&◌, ◌||◌, Option,
  none, some, List, [], ◌∷◌, ◌++◌, ◌==◌, nat_eq, list_beq, list_eq, option_eq, Eq, Result, ok, err,
  ◌>>=◌, contains, all, if◌then◌else◌, leb, sort_by, components, root, raise_if, ◌>>◌, ltb, map,
}
use open_foam_agent.Native.Errors.{
  ValueError, duplicate_contract, region_with_all_regions, region_twice, region_name_missing,
  unsafe_region,
}

pub data Phase : Type 0 where
  authoring repair runtime_repair strategy_revision postprocess runtime restart : Phase

abbrev pub phase_index : Phase → ℕ
phase_index authoring = 0
phase_index repair = 1
phase_index runtime_repair = 2
phase_index strategy_revision = 3
phase_index postprocess = 4
phase_index runtime = 5
phase_index restart = 6

abbrev pub phases : List Phase
phases =
    authoring ∷ repair ∷ runtime_repair ∷ strategy_revision ∷ postprocess ∷ runtime ∷ restart ∷ []

pub phase_listed : (a : Phase) → nth phases (phase_index a) restart ≡ a
phase_listed authoring = refl
phase_listed repair = refl
phase_listed runtime_repair = refl
phase_listed strategy_revision = refl
phase_listed postprocess = refl
phase_listed runtime = refl
phase_listed restart = refl

instance abbrev pub phase_eq : Eq Phase
phase_eq = listed_eq phases restart phase_index phase_listed

pub record NativeToolContract : Type 0 where
  pub command : Str
  pub effect : Str
  pub required_dictionary : Option Str
  pub permitted_phases : List Phase
  pub controller_finalizer : Bool
  pub scope_arguments : List Str
  pub mesh_dependency_inputs : List Str
  pub mesh_dependency_outputs : List Str
  pub controller_auto_consumer : Bool
  pub controller_delta_consumer : Bool
  pub execution_order : ℕ
  pub default_arguments : List Str
  pub ordering_inputs : List Str
  pub ordering_outputs : List Str

abbrev pub Registry : Type 0
Registry = List NativeToolContract

-- One record of the JSON file: the keys that may be left out are options.
pub record RawContract : Type 0 where
  pub command : Str
  pub effect : Str
  pub required_dictionary : Option Str
  pub permitted_phases : Option (List Phase)
  pub controller_finalizer : Option Bool
  pub scope_arguments : Option (List Str)
  pub mesh_dependency_inputs : Option (List Str)
  pub mesh_dependency_outputs : Option (List Str)
  pub controller_auto_consumer : Option Bool
  pub controller_delta_consumer : Option Bool
  pub execution_order : Option ℕ
  pub default_arguments : Option (List Str)
  pub ordering_inputs : Option (List Str)
  pub ordering_outputs : Option (List Str)

abbrev or_default {ℓ} : {A : Type ℓ} → Option A → A → A
or_default none d = d
or_default (some a) d = a

unfoldable pub contract_of_raw : RawContract → NativeToolContract
contract_of_raw item = record {
  command = item.command;
  effect = item.effect;
  required_dictionary = item.required_dictionary;
  permitted_phases = or_default item.permitted_phases [];
  controller_finalizer = or_default item.controller_finalizer false;
  scope_arguments = or_default item.scope_arguments [];
  mesh_dependency_inputs = or_default item.mesh_dependency_inputs [];
  mesh_dependency_outputs = or_default item.mesh_dependency_outputs [];
  controller_auto_consumer = or_default item.controller_auto_consumer false;
  controller_delta_consumer = or_default item.controller_delta_consumer false;
  execution_order = or_default item.execution_order 500;
  default_arguments = or_default item.default_arguments [];
  ordering_inputs = or_default item.ordering_inputs [];
  ordering_outputs = or_default item.ordering_outputs [];
}

abbrev pub command_names : Registry → List Str
command_names registry = map (λ (c : NativeToolContract). c.command) registry

-- The loop of `_load_registry` over the records that are left.
load_from : Registry → List RawContract → Result ValueError Registry
unfolding contract_of_raw contains list_beq
load_from registry [] = ok registry
load_from registry (item ∷ rest) =
    let next = load_from (registry ++ contract_of_raw item ∷ []) rest in
    if contains (command_names registry) item.command
    then err (duplicate_contract item.command)
    else next

unfoldable pub load_registry : List RawContract → Result ValueError Registry
unfolding load_from
load_registry raw = load_from [] raw

-- `_REGISTRY.get(command)`
unfoldable pub lookup_contract : Registry → Str → Option NativeToolContract
lookup_contract [] command = none
lookup_contract (c ∷ registry) command =
    if c.command == command then some c else lookup_contract registry command

abbrev pub unknown_contract : Str → NativeToolContract
unknown_contract command = record {
  command = command;
  effect = codes "unknown";
  required_dictionary = none;
  permitted_phases = [];
  controller_finalizer = false;
  scope_arguments = [];
  mesh_dependency_inputs = [];
  mesh_dependency_outputs = [];
  controller_auto_consumer = false;
  controller_delta_consumer = false;
  execution_order = 500;
  default_arguments = [];
  ordering_inputs = [];
  ordering_outputs = [];
}

unfoldable pub native_tool_contract : Registry → Str → NativeToolContract
unfolding lookup_contract
native_tool_contract registry command = elim (lookup_contract registry command) [
  | some contract ↦ contract
  | none ↦ unknown_contract command
]

is_letter : ℕ → Bool
is_letter c = (leb b'A' c && leb c b'Z') || (leb b'a' c && leb c b'z')

is_region_char : ℕ → Bool
unfolding is_letter
is_region_char c =
    is_letter c || (leb b'0' c && leb c b'9') || (c == b'_') || (c == b'.') || (c == b'-')

-- `_REGION_NAME.fullmatch`: `^[A-Za-z][A-Za-z0-9_.-]*$`
unfoldable pub is_region_name : Str → Bool
unfolding is_region_char all
is_region_name [] = false
is_region_name (c ∷ rest) = is_letter c && all is_region_char rest

abbrev pub region_flag : Str
region_flag = codes "-region"

-- `args[args.index(flag) + 1:]`; nothing where the flag is absent.
unfoldable pub after_flag : Str → List Str → Option (List Str)
after_flag flag [] = none
after_flag flag (a ∷ args) = if a == flag then some args else after_flag flag args

unfoldable pub count_flag : Str → List Str → ℕ
count_flag flag [] = 0
count_flag flag (a ∷ args) = if a == flag then suc (count_flag flag args) else count_flag flag args

-- The name behind the only `-region`.
region_of : Option (List Str) → Result ValueError (Option Str)
region_of none = ok none
region_of (some []) = err region_name_missing
region_of (some (region ∷ rest)) =
    if is_region_name region then ok (some region) else err (unsafe_region region)

unfoldable pub native_command_region : List Str → Result ValueError (Option Str)
unfolding count_flag contains region_of after_flag list_beq
native_command_region args = do
  let positions = count_flag region_flag args
  raise_if (contains args (codes "-allRegions") && ltb 0 positions) region_with_all_regions
  raise_if (ltb 1 positions) region_twice
  region_of (after_flag region_flag args)

abbrev head_of : Option (List Str) → Option Str
head_of none = none
head_of (some []) = none
head_of (some (a ∷ rest)) = some a

-- The loop over `-dict` and `-dictFile`: the first flag that has a value.
unfoldable pub dict_override : List Str → Option Str
unfolding after_flag
dict_override args = elim (head_of (after_flag (codes "-dict") args)) [
  | some path ↦ some path
  | none ↦ head_of (after_flag (codes "-dictFile") args)
]

-- `system/<file>` moves to `system/<region>/<file>`; other paths stay.
localize : Str → Str → List Str → Str
localize required region (folder ∷ file ∷ []) =
    if (root required == []) && (folder == codes "system")
    then codes "system/" ++ region ++ codes "/" ++ file
    else required
localize required region _ = required

localized : Option Str → Option Str → Option Str
unfolding localize
localized none region = none
localized (some required) none = some required
localized (some required) (some region) =
    if not (required == []) && not (region == [])
    then some (localize required region (components required))
    else some required

unfoldable pub required_dictionary : Registry → Str → List Str → Result ValueError (Option Str)
unfolding dict_override native_tool_contract native_command_region localized
required_dictionary registry command args = elim (dict_override args) [
  | some path ↦ ok (some path)
  | none ↦ (do
    region ← native_command_region args
    ok (localized (native_tool_contract registry command).required_dictionary region))
]

unfoldable pub command_permitted : Registry → Str → Phase → Bool
unfolding native_tool_contract contains
command_permitted registry command phase =
    contains (native_tool_contract registry command).permitted_phases phase

unfoldable pub registered_effects : Registry → List (Str × Str)
registered_effects registry = map (λ (c : NativeToolContract). (c.command, c.effect)) registry

-- Python's order of texts.
unfoldable pub str_le : Str → Str → Bool
str_le [] t = true
str_le (c ∷ s) [] = false
str_le (c ∷ s) (d ∷ t) = ltb c d || ((c == d) && str_le s t)

unfoldable pub registered_contracts : Registry → List NativeToolContract
unfolding sort_by str_le
registered_contracts registry =
    sort_by (λ (a b : NativeToolContract). str_le a.command b.command) registry
