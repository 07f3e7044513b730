-- ===== src/Native/Commands.antt =====
-- `NativeOpenFoamCommand` (schemas/engineering.py) and the commands that the controller compiles
-- itself (contracts/execution_scopes.py).
use open_foam_agent.Prelude.{
  listed_eq, nth, ◌≡◌, refl, Eq, ℕ, ℕ, Str, Bool, true, not, ◌&&◌, ◌||◌, Option, none, some, List,
  [], ◌∷◌, ◌++◌, ◌==◌, nat_eq, list_eq, option_eq, list_beq, Result, ok, ◌>>=◌, filter, contains,
  if◌then◌else◌, ltb, sort_by, Eq,
}
use open_foam_agent.Native.Errors.{ValueError}
use open_foam_agent.Native.Contracts.{
  Registry, NativeToolContract, required_dictionary, registered_contracts, str_le,
}
use open_foam_agent.Native.Scopes.{
  ExecutionScope, EngineeringPlan, execution_scopes, contract_arguments, scope_key,
}

pub data Role : Type 0 where
  preprocess mesh mesh_validation initialization utility : Role

abbrev pub role_index : Role → ℕ
role_index preprocess = 0
role_index mesh = 1
role_index mesh_validation = 2
role_index initialization = 3
role_index utility = 4

abbrev pub roles : List Role
roles = preprocess ∷ mesh ∷ mesh_validation ∷ initialization ∷ utility ∷ []

pub role_listed : (a : Role) → nth roles (role_index a) utility ≡ a
role_listed preprocess = refl
role_listed mesh = refl
role_listed mesh_validation = refl
role_listed initialization = refl
role_listed utility = refl

instance abbrev pub role_eq : Eq Role
role_eq = listed_eq roles utility role_index role_listed

pub record NativeOpenFoamCommand : Type 0 where
  pub command : Str
  pub arguments : List Str
  pub role : Role
  pub rationale : Str

abbrev pub native_command : Str → List Str → Role → NativeOpenFoamCommand
native_command command arguments role = record {
  command = command;
  arguments = arguments;
  role = role;
  rationale = [];
}

-- The sort key `(execution_order, command)`.
contract_le : NativeToolContract → NativeToolContract → Bool
unfolding str_le
contract_le a b =
    ltb a.execution_order b.execution_order
    || ((a.execution_order == b.execution_order) && str_le a.command b.command)

unfoldable pub auto_consumer_contracts : Registry → List NativeToolContract
unfolding contract_le sort_by filter registered_contracts
auto_consumer_contracts registry = sort_by contract_le (
    filter (λ (c : NativeToolContract). c.controller_auto_consumer) (registered_contracts registry))

unfoldable pub finalizer_contracts : Registry → List NativeToolContract
unfolding contract_le sort_by filter registered_contracts
finalizer_contracts registry =
    sort_by contract_le
      (filter (λ (c : NativeToolContract). c.controller_finalizer) (registered_contracts registry))

abbrev pub Bound : Type 0
Bound = Option ExecutionScope × NativeOpenFoamCommand

-- The command of one contract in one scope, if its dictionary is there.
consumer_if : List Str → ExecutionScope → Str → List Str → Option Str → List Bound
consumer_if paths scope command args none = []
consumer_if paths scope command args (some required) =
    if (required == []) || not (contains paths required)
    then []
    else (some scope, native_command command args mesh) ∷ []

module _ (registry : Registry) where
  -- The inner loop of `auto_mesh_consumers`.
  unfoldable pub scope_consumers :
      List Str → ExecutionScope → List NativeToolContract → Result ValueError (List Bound)
  unfolding consumer_if contract_arguments required_dictionary contains list_beq
  scope_consumers paths scope [] = ok []
  scope_consumers paths scope (contract ∷ rest) = do
    args ← contract_arguments registry contract.command scope
    required ← required_dictionary registry contract.command args
    others ← scope_consumers paths scope rest
    ok (consumer_if paths scope contract.command args required ++ others)

  unfoldable pub consumers_in :
      List Str → List NativeToolContract → List ExecutionScope → Result ValueError (List Bound)
  unfolding scope_consumers
  consumers_in paths contracts [] = ok []
  consumers_in paths contracts (scope ∷ scopes) = do
    here ← scope_consumers paths scope contracts
    others ← consumers_in paths contracts scopes
    ok (here ++ others)

  unfoldable pub auto_mesh_consumers : EngineeringPlan → List Str → Result ValueError (List Bound)
  unfolding consumers_in execution_scopes auto_consumer_contracts
  auto_mesh_consumers plan paths =
      consumers_in paths (auto_consumer_contracts registry) (execution_scopes plan)

  unfoldable pub scope_finalizers :
      ExecutionScope → List NativeToolContract → Result ValueError (List NativeOpenFoamCommand)
  unfolding contract_arguments
  scope_finalizers scope [] = ok []
  scope_finalizers scope (contract ∷ rest) = do
    args ← contract_arguments registry contract.command scope
    others ← scope_finalizers scope rest
    ok (native_command contract.command args mesh_validation ∷ others)

  abbrev selected : Option (List Str) → ExecutionScope → Bool
  selected none scope = true
  selected (some keys) scope = contains keys (scope_key scope)

  unfoldable pub finalizers_in :
      Option (List Str)
      → List NativeToolContract
      → List ExecutionScope
      → Result ValueError (List NativeOpenFoamCommand)
  unfolding scope_finalizers scope_key contains list_beq
  finalizers_in only contracts [] = ok []
  finalizers_in only contracts (scope ∷ scopes) =
      let rest = finalizers_in only contracts scopes in
      if selected only scope
      then (do here ← scope_finalizers scope contracts; others ← rest; ok (here ++ others))
      else rest

  unfoldable pub final_mesh_validation_commands :
      EngineeringPlan → Option (List Str) → Result ValueError (List NativeOpenFoamCommand)
  unfolding finalizers_in execution_scopes finalizer_contracts
  final_mesh_validation_commands plan only =
      finalizers_in only (finalizer_contracts registry) (execution_scopes plan)
