-- ===== src/Migrations/Errors.antt =====
-- migrations/executor.go and planner.go: how failures are classified.
use native.Mathlib.Decide.{ℕ_discrete}
use godj.Base.{ℕ, Eq, GoString, Bool, false, List, Option, Outcome, ℤ}
use godj.Ir.Normalize.{ValidationError}
use godj.Migrations.Keys.{MigrationKey}

-- A direction is a string: any but the two is `other`, and the zero value is the empty one.
pub data Direction : Type 0 where
  forward backward : Direction
  other : GoString → Direction

pub data ErrorCategory : Type 0 where
  state capability execution recorder transaction plan history graph : ErrorCategory

pub data ErrorCode : Type 0 where
  invalid_state unsupported_operation operation_failed record_failed begin_failed : ErrorCode
  commit_failed invalid_node duplicate_node invalid_dependency duplicate_dependency : ErrorCode
  dependency_not_found dependency_cycle invalid_applied_state duplicate_applied : ErrorCode
  inconsistent_applied_history invalid_target target_not_found : ErrorCode
  invalid_execution_plan mixed_directions read_failed : ErrorCode

pub record PlanningError : Type 0 where
  pub category : ErrorCategory
  pub code : ErrorCode
  pub node : MigrationKey
  pub related : MigrationKey
  pub members : List MigrationKey

abbrev pub new_planning_error :
    ErrorCategory → ErrorCode → MigrationKey → MigrationKey → List MigrationKey → PlanningError
new_planning_error category code node related members = record {
  category = category;
  code = code;
  node = node;
  related = related;
  members = members;
}

abbrev pub Planned {ℓ} : Type ℓ → Type ℓ
Planned A = Outcome PlanningError A

-- Where an error value comes from. `from_backend` is an error of the database, with a number that
-- tells it from others and whether it is a capability error; `from_context` is one of `ctx.Err()`.
pub data Cause : Type 0 where
  not_normalizable : ValidationError → Cause
  duplicate_app : GoString → Cause
  app_key_mismatch : GoString → GoString → Cause
  app_not_normalized : GoString → Cause
  unsupported_state_version : ℤ → Cause
  model_exists model_missing model_mismatch : GoString → GoString → Cause
  app_missing : GoString → Cause
  field_exists field_missing field_mismatch : GoString → GoString → GoString → Cause
  preflight_model_missing : GoString → GoString → Cause
  preflight_field_missing : GoString → GoString → GoString → Cause
  app_is_empty name_is_empty operation_is_nil : Cause
  operation_app_mismatch : GoString → GoString → Cause
  operation_not_supported : Cause
  context_is_nil backend_is_nil transaction_is_nil reader_is_nil : Cause
  invalid_definition_key duplicate_definition : ℕ → Cause
  invalid_step_key invalid_step_direction duplicate_step undefined_step : ℕ → Cause
  mixed_step_direction : ℕ → Cause
  not_forward no_definition : Cause
  from_context : ℕ → Cause
  from_backend : ℕ → Bool → Cause

-- `backend.IsCapabilityError`
unfoldable pub is_capability_error : Cause → Bool
is_capability_error (from_backend id unsupported) = unsupported
is_capability_error _ = false

-- `Error` of the executor. `operation_index` is none for `NoOperation`.
pub record MigrationError : Type 0 where
  pub category : ErrorCategory
  pub code : ErrorCode
  pub direction : Direction
  pub app : GoString
  pub migration : GoString
  pub operation_index : Option ℕ
  pub operation : GoString
  pub cause : Cause
  pub rollback_cause : Option Cause

unfoldable pub Direction-discrete : Discrete Direction
unfolding ℕ_discrete
Direction-discrete = hlevel ℕ_discrete

instance abbrev pub direction_eq : Eq Direction
direction_eq = record { dec = Direction-discrete }
