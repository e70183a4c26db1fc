-- ===== src/Orm/Writes.antt =====
-- Manager.Create, Update and Delete of orm/write.go, and the mutations of orm/mutation.go that generated
-- inputs build.
pub mod Applied
use godj.Base.{
  ℕ, GoString, string_eq, Bool, true, false, not, ◌&&◌, ◌||◌, List, [], ◌∷◌, Option, none, some,
  ◌==◌, if◌then◌else◌, ℤ, pos, int_eq, is_nil, elem, Outcome, ok, err, stuck, ◌>>=◌, ◌>>◌, fail_if,
}
use godj.Ir as Ir
use godj.Query.{
  FieldRef, Value, value_eq, null_value, is_null, Assignment, InsertPlan, UpdatePlan, DeletePlan,
  Failure, ErrorCategory, ErrorCode, error_of, Checked,
}
use godj.Orm.{
  field_reference, invalid_write_plan, unexpected_rows, mutation_field, mutation_value_matches,
  Descriptor, Configured, Context, Call, Mutator, require, reject, write_configuration,
}

pub data MutationKind : Type 0 where
  mutation_create mutation_patch unset : MutationKind

abbrev pub same_kind : MutationKind → MutationKind → Bool
same_kind MutationKind.mutation_create MutationKind.mutation_create = true
same_kind MutationKind.mutation_patch MutationKind.mutation_patch = true
same_kind MutationKind.unset MutationKind.unset = true
same_kind _ _ = false

-- A mutation: invalid, with an error alone, or built.
pub record Built (M : Type 0) : Type 0 where
  pub kind : MutationKind
  pub table : GoString
  pub assignments : List Assignment
  pub value : M

abbrev pub Mutation : Type 0 → Type 0
Mutation M = Checked (Built M)

abbrev pub empty_patch : Failure
empty_patch = error_of ErrorCategory.query ErrorCode.empty_patch []

unfoldable pub new_mutation :
    {M : Type 0} → MutationKind → M → GoString → List Assignment → Mutation M
new_mutation kind value table assignments = do
  fail_if (is_nil table) invalid_write_plan
  ok (record { kind = kind; table = table; assignments = assignments; value = value })

unfoldable pub new_create_mutation : {M : Type 0} → M → GoString → List Assignment → Mutation M
new_create_mutation value table assignments =
    new_mutation MutationKind.mutation_create value table assignments

unfoldable pub new_patch_mutation : {M : Type 0} → M → GoString → List Assignment → Mutation M
new_patch_mutation value table assignments =
    fail_if (is_nil assignments) empty_patch
    >> new_mutation MutationKind.mutation_patch value table assignments

abbrev pub field_error : ErrorCode → GoString → Failure
field_error = error_of ErrorCategory.field

-- `CreateInput.BuildCreate` and `PatchInput.BuildPatch`, of types that a program may implement itself. A
-- nil input is none.
abbrev pub CreateInput : Type 0 → Type 0
CreateInput M = Option (Mutation M)

abbrev pub PatchInput : Type 0 → Type 0
PatchInput M = Option (M → Mutation M)

module _ {M : Type 0} (descriptor : Descriptor M) where
  abbrev pub holds_value : M → Ir.Field → Value → Bool
  holds_value value field assigned = elim (descriptor.write_field_value value field) [
    | none ↦ false
    | some v ↦ v == assigned
  ]

  -- The field that an assignment writes, checked against those before it.
  unfoldable pub validate_assignment : M → List GoString → Assignment → Checked Ir.Field
  validate_assignment value seen a = do
    field ←
        require (field_error ErrorCode.unknown_field a.field.name)
          (mutation_field descriptor.metadata a.field)
    fail_if field.primary_key (field_error ErrorCode.unknown_field a.field.name)
    fail_if (elem field.name seen) (error_of ErrorCategory.query ErrorCode.invalid_plan field.name)
    fail_if (not (mutation_value_matches field a.value))
        (field_error ErrorCode.invalid_value field.name)
    fail_if (not (holds_value value field a.value)) (field_error ErrorCode.invalid_value field.name)
    ok field

  -- The names of the fields that are assigned.
  unfoldable pub validate_assignments :
      M → List GoString → List Assignment → Checked (List GoString)
  validate_assignments value seen [] = ok seen
  validate_assignments value seen (a ∷ as') = do
    field ← validate_assignment value seen a
    validate_assignments value (field.name ∷ seen) as'

  unfoldable pub require_all : List GoString → List Ir.Field → Checked (Unit {0})
  require_all seen [] = ok tt
  require_all seen (field ∷ fields) =
      fail_if (not field.primary_key && not (elem field.name seen))
        (field_error ErrorCode.required_field field.name)
      >> require_all seen fields

  abbrev pub unchanged : M → M → Ir.Field → Bool
  unchanged before after field = elim (descriptor.write_field_value before field) [
    | none ↦ false
    | some v ↦ holds_value after field v
  ]

  unfoldable pub require_unchanged : M → M → List GoString → List Ir.Field → Checked (Unit {0})
  require_unchanged before after seen [] = ok tt
  require_unchanged before after seen (field ∷ fields) =
      fail_if
        (not field.primary_key && not (elem field.name seen) && not (unchanged before after field))
        (field_error ErrorCode.invalid_value field.name)
      >> require_unchanged before after seen fields

  -- `validateMutation` for a create.
  unfoldable pub validate_create : Built M → Checked (Unit {0})
  validate_create mutation = do
    fail_if (not (same_kind mutation.kind MutationKind.mutation_create)) invalid_write_plan
    fail_if (not (mutation.table == descriptor.metadata.db_table)) invalid_write_plan
    seen ← validate_assignments mutation.value [] mutation.assignments
    require_all seen descriptor.metadata.fields

  -- `validateMutation` for a patch of a model.
  unfoldable pub validate_patch : M → Built M → Checked (Unit {0})
  validate_patch current mutation = do
    fail_if (not (same_kind mutation.kind MutationKind.mutation_patch)) invalid_write_plan
    fail_if (not (mutation.table == descriptor.metadata.db_table)) invalid_write_plan
    fail_if (is_nil mutation.assignments) empty_patch
    seen ← validate_assignments mutation.value [] mutation.assignments
    require_unchanged current mutation.value seen descriptor.metadata.fields

  -- The key of a model that has one, checked.
  unfoldable pub checked_key : Ir.Field → M → Checked Value
  checked_key primary_key value = do
    fail_if (not (descriptor.primary_key value).1)
        (error_of ErrorCategory.query ErrorCode.missing_primary_key primary_key.name)
    fail_if
        (not (mutation_value_matches primary_key (descriptor.primary_key value).0)
          || is_null (descriptor.primary_key value).0)
        invalid_write_plan
    ok (descriptor.primary_key value).0

  -- The plan of an update, with the model that it gives.
  unfoldable pub plan_patch : Ir.Field → M → PatchInput M → Checked (UpdatePlan × M)
  plan_patch primary_key current input = do
    key_value ← checked_key primary_key current
    build ← require invalid_write_plan input
    mutation ← build (descriptor.clone_write_model current)
    validate_patch (descriptor.clone_write_model current) mutation
    fail_if
        (not (descriptor.primary_key mutation.value).1
          || not ((descriptor.primary_key mutation.value).0 == key_value))
        invalid_write_plan
    fail_if (is_nil mutation.assignments) empty_patch
    ok (
      record {
        table = descriptor.metadata.db_table;
        assignments = mutation.assignments;
        key_field = field_reference primary_key;
        key_value = key_value;
      },
      mutation.value,
    )

  unfoldable pub plan_create : CreateInput M → Checked (InsertPlan × M)
  plan_create input = do
    built ← require invalid_write_plan input
    mutation ← built
    validate_create mutation
    ok (
      record { table = descriptor.metadata.db_table; assignments = mutation.assignments },
      mutation.value,
    )

  unfoldable pub plan_delete : Ir.Field → M → Checked DeletePlan
  plan_delete primary_key value = do
    key_value ← checked_key primary_key value
    ok (record {
      table = descriptor.metadata.db_table;
      key_field = field_reference primary_key;
      key_value = key_value;
    })

-- The backend's state stays where no call is made.
infixl 5 ◌>>>◌
unfoldable pub ◌>>>◌ : {A B S : Type 0} → Checked A × S → (A → S → Checked B × S) → Checked B × S
(ok a, s) >>> next = next a s
(err failure, s) >>> next = (err failure, s)
(stuck, s) >>> next = (stuck, s)

unfoldable pub create :
    {M S : Type 0} → Context → Option (Mutator S) → Configured M → CreateInput M → S → Checked M × S
create context backend configured input s =
    (write_configuration context backend configured, s) >>> λ (mutator, descriptor, primary_key) s.
    (plan_create descriptor input, s) >>> λ (plan, value) s.
    mutator (Call.insert plan) s >>> λ id s. (ok (descriptor.set_primary_key value id), s)

unfoldable pub update :
    {M S : Type 0}
    → Context
    → Option (Mutator S)
    → Configured M
    → M
    → PatchInput M
    → S
    → Checked M × S
update context backend configured current input s =
    (write_configuration context backend configured, s) >>> λ (mutator, descriptor, primary_key) s.
    (plan_patch descriptor primary_key current input, s) >>> λ (plan, value) s.
    mutator (Call.update plan) s >>> λ rows s.
    (fail_if (not (rows == pos 1)) unexpected_rows >> ok value, s)

-- The number of rows, the error, the caller's model and the backend's state.
abbrev pub Deleted : Type 0 → Type 0 → Type 0
Deleted M S = ℤ × Checked (Unit {0}) × M × S

unfoldable pub deleted : {M S : Type 0} → Descriptor M → M → Checked ℤ × S → Deleted M S
deleted descriptor value (err failure, s) = (pos 0, err failure, value, s)
deleted descriptor value (stuck, s) = (pos 0, stuck, value, s)
deleted descriptor value (ok rows, s) =
    if rows == pos 1
    then (rows, ok tt, descriptor.clear_primary_key value, s)
    else (rows, err unexpected_rows, value, s)

unfoldable pub delete_configured :
    {M S : Type 0} → Mutator S → Descriptor M → Checked DeletePlan → M → S → Deleted M S
delete_configured mutator descriptor (err failure) value s = (pos 0, err failure, value, s)
delete_configured mutator descriptor stuck value s = (pos 0, stuck, value, s)
delete_configured mutator descriptor (ok plan) value s =
    deleted descriptor value (mutator (Call.delete plan) s)

-- `Manager.Delete`. The pointer to the model is nil or not.
unfoldable pub delete :
    {M S : Type 0}
    → Context
    → Option (Mutator S)
    → Configured M
    → Option M
    → S
    → Deleted (Option M) S
delete context backend configured value s = elim (write_configuration context backend configured) [
  | err failure ↦ (pos 0, err failure, value, s)
  | stuck ↦ (pos 0, stuck, value, s)
  | ok (mutator, descriptor, primary_key) ↦ elim value [
    | none ↦ (pos 0, err invalid_write_plan, none, s)
    | some model ↦
        let (rows, result, left, t) =
          delete_configured mutator descriptor (plan_delete descriptor primary_key model) model s in
        (rows, result, some left, t)
  ]
]
