-- ===== src/Migrations/Executor/Examples.antt =====
-- The executor on one migration that creates a model, with a database that accepts everything and one
-- that refuses the commit.
use native.Mathlib.Decide.{ℕ_discrete}
use godj.Base.{
  stuck, ◌≡◌, refl, ◌⊎◌, true, false, List, [], ◌∷◌, none, bytes, GoString-discrete, pos, is_nil,
  elem, any, lookup, put, find, ok,
}
use godj.Base.Int.{ℤ-discrete}
use godj.Ir.Normalize.{normalize}
use godj.Ir.{FieldKind, Field, Model, format_version}
use godj.Ir.Identifiers.{ascii, database_identifier, exported_identifier}
use godj.Migrations.Errors.{Direction, Direction-discrete}
use godj.Migrations.Definitions.{create_model, Operation, Migration}
use godj.Migrations.Keys.{MigrationKey-discrete, valid_migration_key}
use godj.Migrations.Graph.{PlanStep}
use godj.Migrations.State.{
  ProjectState, empty_project_state, clone, normalized_single_model, state_model, with_schema,
}
use godj.Migrations.Operations.{create_table, record_applied, commit}
use godj.Migrations.Executor.{
  poll, begin_migration, called, Begun, Environment, Executed, preflight, begin_transaction,
  execute,
}
use godj.Migrations.Executor.Transactions.{Refused}
use godj.Migrations.Executor.Atomic.{InTransaction, execute-Settled}
use godj.Migrations.Executor.Plans.{
  clone_migration_definition, preflight_plan, index_definitions, check_steps, prepare_steps,
  run_direction, execute_steps, execute_plan,
}
use godj.Migrations.Executor.Replay.{PlanEnded, PlanPanics, execute_plan-Progress}

abbrev title : Field
title = record {
  name = bytes "title";
  go_name = bytes "Title";
  column = bytes "title";
  kind = FieldKind.char;
  primary_key = false;
  nullable = false;
  max_length = pos 100;
  scalar_default = none;
}

abbrev id : Field
id = record {
  name = bytes "id";
  go_name = bytes "ID";
  column = bytes "id";
  kind = FieldKind.auto;
  primary_key = true;
  nullable = false;
  max_length = pos 0;
  scalar_default = none;
}

abbrev article : Model
article = record {
  name = bytes "article";
  go_name = bytes "Article";
  db_table = [];
  fields = title ∷ [];
}

-- The model as the schema holds it.
abbrev stored : Model
stored = record article { db_table = bytes "blog_article"; fields = id ∷ title ∷ [] }

abbrev first_migration : Migration
first_migration = record {
  app = bytes "blog";
  name = bytes "0001";
  dependencies = [];
  operations = Operation.by_value (create_model (bytes "blog") article) ∷ [];
}

abbrev with_article : ProjectState
with_article = record {
  version = pos 1;
  apps =
      (
        bytes "blog",
        record { format_version = format_version; app_label = bytes "blog"; models = stored ∷ [] },
      )
      ∷ [];
}

abbrev willing : Environment
willing = record {
  context_is_nil = false;
  backend_is_nil = false;
  context_error = λ t. none;
  begin = λ t. Begun.started;
  answer = λ t c. none;
}

abbrev migrated : Executed
migrated = record {
  state = with_article;
  error = none;
  trace =
      called commit
      ∷ called (record_applied (bytes "blog") (bytes "0001"))
      ∷ called (create_table stored)
      ∷ begin_migration
      ∷ poll
      ∷ poll
      ∷ [];
}

migrates :
    execute ⦃u = ascii⦄ willing empty_project_state first_migration Direction.forward []
    ≡ ok migrated
unfolding execute preflight ℤ-discrete GoString-discrete normalized_single_model normalize
    database_identifier exported_identifier elem any state_model lookup clone begin_transaction
    with_schema put find
migrates = refl

abbrev one_step : List PlanStep
one_step =
    record {
      key = record { app = bytes "blog"; name = bytes "0001" };
      direction = Direction.forward;
    }
    ∷ []

abbrev one_step_done : Executed
one_step_done = record migrated {
  trace =
      called commit
      ∷ called (record_applied (bytes "blog") (bytes "0001"))
      ∷ called (create_table stored)
      ∷ begin_migration
      ∷ poll
      ∷ poll
      ∷ poll
      ∷ poll
      ∷ poll
      ∷ [];
}

runs_plan :
    execute_plan ⦃u = ascii⦄ willing empty_project_state (first_migration ∷ []) one_step []
    ≡ ok one_step_done
unfolding execute_plan is_nil preflight_plan index_definitions valid_migration_key
    clone_migration_definition check_steps MigrationKey-discrete Direction-discrete prepare_steps
    execute_steps run_direction ℕ_discrete execute preflight ℤ-discrete GoString-discrete
    normalized_single_model normalize database_identifier exported_identifier elem any state_model
    lookup clone begin_transaction with_schema put find
runs_plan = refl

execute-Settled_example :
    (preflight ⦃u = ascii⦄ empty_project_state first_migration Direction.forward ≡ stuck)
    ⊎ ((r : Executed) × (execute ⦃u = ascii⦄ willing empty_project_state first_migration
            Direction.forward []
          ≡ ok r)
        × (Refused ⦃u = ascii⦄ willing empty_project_state first_migration Direction.forward [] r
            ⊎ InTransaction ⦃u = ascii⦄ willing empty_project_state first_migration
                Direction.forward [] r))
execute-Settled_example =
    execute-Settled ⦃u = ascii⦄ willing empty_project_state first_migration Direction.forward []

execute_plan-Progress_example :
    PlanPanics ⦃u = ascii⦄ willing empty_project_state (first_migration ∷ []) one_step []
    ⊎ ((r : Executed) × (execute_plan ⦃u = ascii⦄ willing empty_project_state
            (first_migration ∷ [])
            one_step
            []
          ≡ ok r)
        × PlanEnded ⦃u = ascii⦄ willing empty_project_state (first_migration ∷ []) one_step [] r)
execute_plan-Progress_example =
    execute_plan-Progress ⦃u = ascii⦄ willing empty_project_state (first_migration ∷ []) one_step []
