-- ===== src/Mesh/Dependencies.antt =====
-- `MeshDependencyGraph` of contracts/mesh_dependencies.py: the history of native mesh operations,
-- kept as a list in order of their ids. The registry file is its `operations`; the JSON digest, the
-- symbolic links and the file writing are outside. Includes that `dependencies` finds in case
-- files are not modelled.
pub mod Paths
pub mod Chronology
pub mod Ancestors
use open_foam_agent.Prelude.{
  ℕ, zero, suc, ◌+◌, ◌-◌, Str, codes, Bool, true, false, not, ◌&&◌, ◌||◌, Option, none, some, List,
  [], ◌∷◌, ◌++◌, map, ◌==◌, nat_eq, list_eq, list_beq, if◌then◌else◌, Result, ok, err, raise_if,
  ◌>>=◌, ◌>>◌, contains, any, all, length, ltb, leb, filter, dedupe, sort_by, starts_with,
  rstrip_slash, components, get_elem?, option_eq, option_beq,
}
use open_foam_agent.Native.Errors.{
  ValueError, no_output_paths, history_limit, not_chronological, bad_dependency_path,
  undeclared_execution_scope,
}
use mathlib.Core.Option
use open_foam_agent.Prelude.Worklist.{Outcome, closed, missing, out_of_fuel, close}
use open_foam_agent.Native.Contracts.{Registry, str_le, native_tool_contract, native_command_region}
use open_foam_agent.Native.Scopes.{
  ExecutionScope, EngineeringPlan, execution_scopes, named_scope, scopes_named, scope_paths,
  render_scope_template, name_or_empty,
}

-- `_overlap`
unfoldable pub overlap : Str → Str → Bool
unfolding starts_with rstrip_slash
overlap a b =
    (a == b)
    || (starts_with a (rstrip_slash b ++ codes "/") || starts_with b (rstrip_slash a ++ codes "/"))

pub record Operation : Type 0 where
  pub id : ℕ
  pub inputs : List Str
  pub outputs : List Str
  pub parents : List ℕ
  pub regions : List Str
  pub command : Str × List Str
  pub conservative : Bool

abbrev pub case_roots : List Str
case_roots = codes "0" ∷ codes "constant" ∷ codes "system" ∷ []

-- The test of `_path`, with the parts of the path.
abbrev pub refuses : Str → List Str → Bool
refuses path [] = true
refuses path (part ∷ parts) =
    starts_with path (codes "/")
    || (contains (part ∷ parts) (codes "..") || not (contains case_roots part))

-- `_path`
unfoldable pub case_path : Str → Result ValueError Str
unfolding starts_with components contains rstrip_slash list_beq
case_path path =
    if refuses path (components path)
    then err (bad_dependency_path path)
    else ok (rstrip_slash path)

unfoldable pub case_paths : List Str → Result ValueError (List Str)
unfolding case_path
case_paths [] = ok []
case_paths (p ∷ ps) = do q ← case_path p; qs ← case_paths ps; ok (q ∷ qs)

-- `sorted({...})`
unfoldable pub sorted_set : List Str → List Str
unfolding dedupe sort_by str_le list_beq
sorted_set items = sort_by str_le (dedupe items)

-- Whether an operation produces an input.
abbrev pub feeds : List Str → Operation → Bool
feeds inputs node = any (λ p. any (λ q. overlap p q) node.outputs) inputs

unfoldable pub parents_of : List Str → List Operation → List ℕ
unfolding any
parents_of inputs [] = []
parents_of inputs (node ∷ nodes) =
    let rest = parents_of inputs nodes in if feeds inputs node then node.id ∷ rest else rest

abbrev pub new_operation :
    List Str → List Str → List Str → Str × List Str → Bool → List Operation → Operation
new_operation inputs outputs regions command conservative operations = record {
  id = length operations;
  inputs = inputs;
  outputs = outputs;
  parents = parents_of inputs operations;
  regions = sorted_set regions;
  command = command;
  conservative = conservative;
}

-- `register` after its paths are checked and sorted.
unfoldable pub add_operation :
    List Str
    → List Str
    → List Str
    → Str × List Str
    → Bool
    → List Operation
    → Result ValueError (List Operation)
unfolding sorted_set parents_of
add_operation inputs outputs regions command conservative operations = do
  raise_if (length outputs == 0) no_output_paths
  raise_if (leb 10000 (length operations)) history_limit
  ok (operations ++ new_operation inputs outputs regions command conservative operations ∷ [])

unfoldable pub register :
    List Str
    → List Str
    → List Str
    → Str × List Str
    → Bool
    → List Operation
    → Result ValueError (List Operation)
unfolding case_paths sorted_set add_operation
register inputs outputs regions command conservative operations = do
  ins ← case_paths inputs
  outs ← case_paths outputs
  add_operation (sorted_set ins) (sorted_set outs) regions command conservative operations

-- An id that is not the place, or a parent that is not earlier.
abbrev pub out_of_order : ℕ → Operation → Bool
out_of_order index node = not (node.id == index) || any (λ parent. leb index parent) node.parents

-- The test of a registry that is read back: ids in order, parents earlier, and every path one that
-- `_path` takes.
unfoldable pub check_registry : ℕ → List Operation → Result ValueError (Unit {0})
unfolding any case_paths
check_registry index [] = ok tt
check_registry index (node ∷ nodes) = do
  raise_if (out_of_order index node) not_chronological
  checked ← case_paths (node.inputs ++ node.outputs)
  check_registry (suc index) nodes

-- The part of this test that is about ids and parents.
unfoldable pub is_chronological : ℕ → List Operation → Bool
unfolding all
is_chronological index [] = true
is_chronological index (node ∷ nodes) =
    ((node.id == index) && all (λ parent. ltb parent index) node.parents)
    && is_chronological (suc index) nodes

-- The sink of a region.
abbrev pub mesh_sink : Str → Str
mesh_sink [] = codes "constant/polyMesh"
mesh_sink (c ∷ cs) = codes "constant/" ++ ((c ∷ cs) ++ codes "/polyMesh")

-- The operations that `dependencies` starts from.
unfoldable pub selects : Str → Operation → Bool
unfolding contains any overlap
selects region node =
    contains node.regions region || any (λ p. overlap (mesh_sink region) p) node.outputs

unfoldable pub initial : Str → List Operation → List ℕ
unfolding selects filter
initial region operations = map (λ (node : Operation). node.id) (filter (selects region) operations)

abbrev pub parents_at : List Operation → ℕ → Option (List ℕ)
parents_at operations i = Option.map (λ (node : Operation). node.parents) (get_elem? operations i)

abbrev pub all_parents : List Operation → List ℕ
all_parents [] = []
all_parents (node ∷ nodes) = node.parents ++ all_parents nodes

-- The loop `while todo` of `dependencies`, with a round for each parent entry and each operation
-- that it starts from. `missing` is the `IndexError` of an unknown id.
unfoldable pub selected_operations : Str → List Operation → Outcome ℕ
unfolding initial close
selected_operations region operations =
    let start = initial region operations in
    close (parents_at operations) (length (all_parents operations) + length start) start start

-- `paths` before includes are followed: the sink, and what the selected operations read and write.
unfoldable pub touched_paths : List ℕ → List Operation → List Str
unfolding contains
touched_paths selected [] = []
touched_paths selected (node ∷ nodes) =
    let rest = touched_paths selected nodes in
    if contains selected node.id then node.inputs ++ (node.outputs ++ rest) else rest

unfoldable pub operation_paths : Str → List Operation → Option (List Str)
unfolding selected_operations touched_paths
operation_paths region operations = elim (selected_operations region operations) [
  | closed selected ↦ some (mesh_sink region ∷ touched_paths selected operations)
  | missing ↦ none
  | out_of_fuel ↦ none
]

-- The scopes that `record_native` takes an invocation to write.
targets_of : Option Str → List ExecutionScope → Result ValueError (List ExecutionScope)
unfolding filter option_beq list_beq
targets_of none [] = ok (named_scope none ∷ [])
targets_of none (scope ∷ scopes) = ok (scope ∷ scopes)
targets_of (some region) scopes =
    let targets = scopes_named (some region) scopes in
    if length targets == 1 then ok targets else err undeclared_execution_scope

-- The templates of one list, rendered in each target, first occurrences only.
unfoldable pub rendered_in : List Str → List ExecutionScope → List Str
unfolding render_scope_template
rendered_in templates [] = []
rendered_in templates (scope ∷ scopes) =
    map (λ template. render_scope_template template scope) templates ++ rendered_in templates scopes

abbrev if_empty {ℓ} : {A : Type ℓ} → List A → List A → List A
if_empty [] fallback = fallback
if_empty (x ∷ xs) fallback = x ∷ xs

unfoldable pub record_native :
    Registry
    → Str
    → List Str
    → Option EngineeringPlan
    → List Operation
    → Result ValueError (List Operation)
unfolding targets_of rendered_in register native_tool_contract dedupe scope_paths execution_scopes
record_native registry command arguments plan operations = do
  let contract = native_tool_contract registry command
  region ← native_command_region arguments
  targets ← targets_of region (elim plan [ none ↦ [] | some p ↦ execution_scopes p ])
  let conservative = length contract.mesh_dependency_inputs == 0
  register
      (if conservative
        then codes "0" ∷ codes "system" ∷ codes "constant" ∷ []
        else dedupe (rendered_in contract.mesh_dependency_inputs targets))
      (if_empty (dedupe (rendered_in contract.mesh_dependency_outputs targets)) (
        map (λ (scope : ExecutionScope). (scope_paths scope).constant_dir ++ codes "/polyMesh")
          targets))
      (map (λ (scope : ExecutionScope). name_or_empty scope.name) targets) (command, arguments)
      conservative operations
