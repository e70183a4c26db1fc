-- ===== src/Orm.antt =====
-- The package orm: what its parts share (orm/descriptor.go, the end of orm/manager.go and of orm/write.go,
-- orm/mutation.go). A model type is a parameter, with its generated descriptor; so is the backend, which
-- answers calls and keeps a state of its own.
pub mod QuerySets
pub mod Evaluations
pub mod Fields
pub mod Examples
pub mod Rows
pub mod Tables
pub mod Dynamic
pub mod Writes
pub mod Save
use godj.Base.{
  ℕ, GoString, string_eq, Bool, true, false, not, ◌&&◌, List, [], ◌∷◌, Option, none, some, ◌==◌,
  if◌then◌else◌, ℤ, Outcome, ok, err, stuck, ◌>>=◌, ◌>>◌, fail_if, is_nil, keep, find,
}
use godj.Ir as Ir
use godj.Query.{
  FieldKind, FieldRef, field_ref_eq, ValueKind, value_kind_eq, Value, is_null, Assignment,
  InsertPlan, UpdatePlan, DeletePlan, QueryError, Failure, reported, ErrorCategory, ErrorCode,
  error_of, Checked,
}

-- A kind that is none of these leaves the zero value, the empty string.
unfoldable pub reference_kind : Ir.FieldKind → FieldKind
reference_kind Ir.FieldKind.auto = FieldKind.integer
reference_kind Ir.FieldKind.char = FieldKind.string
reference_kind Ir.FieldKind.boolean = FieldKind.boolean
reference_kind (Ir.FieldKind.unknown kind) = FieldKind.unknown []

unfoldable pub field_reference : Ir.Field → FieldRef
field_reference field = record {
  name = field.name;
  column = field.column;
  kind = reference_kind field.kind;
  nullable = field.nullable;
}

abbrev pub new_assignment : Ir.Field → Value → Assignment
new_assignment field value = record { field = field_reference field; value = value }

abbrev pub invalid_write_plan : Failure
invalid_write_plan = error_of ErrorCategory.query ErrorCode.invalid_plan []

abbrev pub unexpected_rows : Failure
unexpected_rows = error_of ErrorCategory.backend ErrorCode.unexpected_rows []

unfoldable pub mutation_field : Ir.Model → FieldRef → Option Ir.Field
mutation_field metadata reference =
    find (λ (field : Ir.Field). field_reference field == reference) metadata.fields

unfoldable pub kind_matches : Ir.FieldKind → ValueKind → Bool
kind_matches Ir.FieldKind.auto kind = kind == ValueKind.integer
kind_matches Ir.FieldKind.char kind = kind == ValueKind.string
kind_matches Ir.FieldKind.boolean kind = kind == ValueKind.boolean
kind_matches (Ir.FieldKind.unknown _) kind = false

unfoldable pub mutation_value_matches : Ir.Field → Value → Bool
mutation_value_matches field value =
    if is_null value then field.nullable else kind_matches field.kind value.kind

abbrev pub is_auto : Ir.FieldKind → Bool
is_auto Ir.FieldKind.auto = true
is_auto Ir.FieldKind.char = false
is_auto Ir.FieldKind.boolean = false
is_auto (Ir.FieldKind.unknown _) = false

-- `autoPrimaryKey`: the one field that is a primary key, if it is an AutoField.
unfoldable pub only_auto : List Ir.Field → Option Ir.Field
only_auto [] = none
only_auto (field ∷ []) = if is_auto field.kind then some field else none
only_auto (field ∷ next ∷ fields) = none

unfoldable pub auto_primary_key : Ir.Model → Option Ir.Field
auto_primary_key metadata = only_auto (keep (λ (f : Ir.Field). f.primary_key) metadata.fields)

-- `WriteDescriptor`: generated for each model type.
pub record Descriptor (M : Type 0) : Type 0 where
  pub metadata : Ir.Model
  pub primary_key : M → Value × Bool
  pub set_primary_key : M → ℤ → M
  pub clear_primary_key : M → M
  pub clone_write_model : M → M
  pub write_field_value : M → Ir.Field → Option Value

-- The descriptor of a manager: nil, one that only reads, or one that writes.
pub data Configured (M : Type 0) : Type 0 where
  missing read_only : Configured M
  writing : Descriptor M → Configured M

-- `context.Context`, as far as it is asked: nil, or with what `Err` returns.
pub data Context : Type 0 where
  missing live : Context
  ended : Failure → Context

pub data Call : Type 0 where
  insert : InsertPlan → Call
  update : UpdatePlan → Call
  delete : DeletePlan → Call

-- `db.Mutator`: the number is the last identifier of an insert and the number of rows of the others.
abbrev pub Mutator : Type 0 → Type 0
Mutator S = Call → S → Checked ℤ × S

abbrev pub require {ℓ} : {A : Type ℓ} → Failure → Option A → Checked A
require failure none = err failure
require failure (some a) = ok a

-- A possible error, returned early.
abbrev pub reject : Option Failure → Checked (Unit {0})
reject none = ok tt
reject (some failure) = err failure

unfoldable pub write_configuration :
    {M S : Type 0}
    → Context
    → Option (Mutator S)
    → Configured M
    → Checked (Mutator S × Descriptor M × Ir.Field)
write_configuration Context.missing backend configured = err invalid_write_plan
write_configuration (Context.ended failure) backend configured = err failure
write_configuration Context.live none configured =
    err (error_of ErrorCategory.backend ErrorCode.invalid_plan [])
write_configuration Context.live (some backend) Configured.missing = err invalid_write_plan
write_configuration Context.live (some backend) Configured.read_only = err invalid_write_plan
write_configuration Context.live (some backend) (Configured.writing descriptor) = do
  primary_key ← require invalid_write_plan (auto_primary_key descriptor.metadata)
  ok (backend, descriptor, primary_key)
