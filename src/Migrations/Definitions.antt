-- ===== src/Migrations/Definitions.antt =====
-- migrations/operation.go and executor.go: the operations and the migrations that hold them.
use godj.Base.{GoString, List}
use godj.Ir.{Field, Model}
use godj.Migrations.Keys.{MigrationKey}

-- The two operations of the package.
pub data BuiltIn : Type 0 where
  create_model : (app_label : GoString) → Model → BuiltIn
  add_field : (app_label model_name : GoString) → Field → BuiltIn

-- A value of the sealed interface: a built-in by value or by pointer, a nil interface or nil
-- pointer, or a type from outside the package that embeds a built-in and so has its methods.
pub data Operation : Type 0 where
  by_value : BuiltIn → Operation
  by_pointer : BuiltIn → Operation
  embedding : BuiltIn → Operation
  nil_operation : Operation

pub record Migration : Type 0 where
  pub app : GoString
  pub name : GoString
  pub dependencies : List MigrationKey
  pub operations : List Operation

-- `Migration.Key`
abbrev pub migration_key : Migration → MigrationKey
migration_key m = record { app = m.app; name = m.name }
