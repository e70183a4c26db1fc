-- ===== src/Migrations/History.antt =====
-- migrations/history.go: the applied state that a durable history holds.
use godj.Base.{GoString, List, map, Option, none, some, Outcome, ok, err, stuck}
use godj.Migrations.Keys.{MigrationKey}
use godj.Migrations.Errors.{ErrorCategory, ErrorCode, Cause, PlanningError, Planned}
use godj.Migrations.Planner.{AppliedState, new_applied_state}

-- `RecorderError`
pub record RecorderError : Type 0 where
  pub category : ErrorCategory
  pub code : ErrorCode
  pub cause : Cause

abbrev pub new_recorder_read_error : Cause → RecorderError
new_recorder_read_error cause = record {
  category = ErrorCategory.recorder;
  code = ErrorCode.read_failed;
  cause = cause;
}

-- An error of the recorder, or one about what it has read.
pub data HistoryError : Type 0 where
  recorder : RecorderError → HistoryError
  planning : PlanningError → HistoryError

-- A row of the history, and what a reader answers to the one call.
pub record AppliedMigration : Type 0 where
  pub app : GoString
  pub name : GoString

abbrev pub Reader : Type 0
Reader = Outcome Cause (List AppliedMigration)

abbrev pub as_history : Planned AppliedState → Outcome HistoryError AppliedState
as_history (ok applied) = ok applied
as_history (err e) = err (planning e)
as_history stuck = stuck

abbrev pub record_key : AppliedMigration → MigrationKey
record_key r = record { app = r.app; name = r.name }

applied_of : Reader → Outcome HistoryError AppliedState
applied_of (err cause) = err (recorder (new_recorder_read_error cause))
applied_of stuck = stuck
applied_of (ok records) = as_history (new_applied_state (map record_key records))

-- `none` is a nil context, or a nil reader.
unfoldable pub load_applied_state :
    Option (Option Cause) → Option Reader → Outcome HistoryError AppliedState
unfolding applied_of
load_applied_state none reader = err (recorder (new_recorder_read_error Cause.context_is_nil))
load_applied_state (some (some cause)) reader = err (recorder (new_recorder_read_error cause))
load_applied_state (some none) none = err (recorder (new_recorder_read_error Cause.reader_is_nil))
load_applied_state (some none) (some reader) = applied_of reader
