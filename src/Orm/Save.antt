-- ===== src/Orm/Save.antt =====
-- Manager.Save of orm/save.go: the options, the plan that they and the model give, and its execution.
pub mod Cases
pub mod Policy
pub mod Columns
pub mod Upsert
use godj.Base.{
  ℕ, GoString, string_eq, Bool, true, false, not, ◌&&◌, ◌||◌, List, [], ◌∷◌, ◌++◌, Option, none,
  some, ◌==◌, if◌then◌else◌, ℤ, pos, int_eq, elem, keep, find, Outcome, ok, err, stuck, ◌>>=◌, ◌>>◌,
  fail_if, is_nil,
}
use godj.Ir as Ir
use godj.Query.{
  FieldRef, field_ref_eq, Value, is_null, Assignment, InsertPlan, UpdatePlan, Failure,
  ErrorCategory, ErrorCode, error_of, Checked,
}
use godj.Orm.{
  field_reference, new_assignment, invalid_write_plan, unexpected_rows, mutation_field,
  mutation_value_matches, Descriptor, Configured, Context, Call, Mutator, require, reject,
  write_configuration,
}

-- A value of one of the generated writable field types: nil, or a reference with the error of its
-- constructor.
pub record TypedField : Type 0 where
  pub reference : FieldRef
  pub failure : Option Failure

abbrev pub WritableField : Type 0
WritableField = Option TypedField

pub data SaveOption : Type 0 where
  zero_value force_insert force_update unknown : SaveOption
  typed_fields : List WritableField → SaveOption
  dynamic_fields : List GoString → SaveOption

abbrev pub is_zero_value : SaveOption → Bool
is_zero_value SaveOption.zero_value = true
is_zero_value SaveOption.force_insert = false
is_zero_value SaveOption.force_update = false
is_zero_value SaveOption.unknown = false
is_zero_value (SaveOption.typed_fields _) = false
is_zero_value (SaveOption.dynamic_fields _) = false

pub record OptionState : Type 0 where
  pub field_mask_set : Bool
  pub typed : List WritableField
  pub dynamic : List GoString
  pub force_insert : Bool
  pub force_update : Bool
  pub failure : Option Failure

abbrev pub no_options : OptionState
no_options = record {
  field_mask_set = false;
  typed = [];
  dynamic = [];
  force_insert = false;
  force_update = false;
  failure = none;
}

abbrev pub invalid_save_argument : Failure
invalid_save_argument = error_of ErrorCategory.argument ErrorCode.invalid_plan []

-- The first error stays.
unfoldable pub set_error : Failure → OptionState → OptionState
set_error failure state = elim state.failure [
  | none ↦ record state { failure = some failure }
  | some first ↦ state
]

unfoldable pub set_field_mask : List WritableField → List GoString → OptionState → OptionState
set_field_mask fields names state =
    if state.field_mask_set
    then set_error invalid_save_argument state
    else record state { field_mask_set = true; typed = fields; dynamic = names }

unfoldable pub apply : SaveOption → OptionState → OptionState
unfolding set_error
apply (SaveOption.typed_fields fields) state = set_field_mask fields [] state
apply (SaveOption.dynamic_fields names) state = set_field_mask [] names state
apply SaveOption.force_insert state =
    record (if state.force_insert then set_error invalid_save_argument state else state) {
      force_insert = true;
    }
apply SaveOption.force_update state =
    record (if state.force_update then set_error invalid_save_argument state else state) {
      force_update = true;
    }
apply SaveOption.zero_value state = set_error invalid_write_plan state
apply SaveOption.unknown state = set_error invalid_write_plan state

-- A zero option ends the loop.
unfoldable pub apply_all : List SaveOption → OptionState → Checked OptionState
apply_all [] state = ok state
apply_all (option ∷ options) state =
    fail_if (is_zero_value option) invalid_write_plan >> apply_all options (apply option state)

abbrev pub primary_key_update_field : GoString → Failure
primary_key_update_field = error_of ErrorCategory.field ErrorCode.primary_key_update_field

abbrev pub unknown_field : GoString → Failure
unknown_field = error_of ErrorCategory.field ErrorCode.unknown_field

-- The name of the field that an update mask selects.
unfoldable pub select_typed : Ir.Model → WritableField → Checked GoString
select_typed metadata none = err (unknown_field [])
select_typed metadata (some typed) = do
  reject typed.failure
  field ← require (unknown_field typed.reference.name) (mutation_field metadata typed.reference)
  fail_if field.primary_key (primary_key_update_field field.name)
  ok field.name

unfoldable pub named_metadata_field : Ir.Model → GoString → Option Ir.Field
named_metadata_field metadata name = find (λ (field : Ir.Field). field.name == name) metadata.fields

unfoldable pub select_named : Ir.Model → GoString → Checked GoString
select_named metadata name = do
  field ← require (unknown_field name) (named_metadata_field metadata name)
  fail_if field.primary_key (primary_key_update_field field.name)
  ok field.name

unfoldable pub select_all : {A : Type 0} → (A → Checked GoString) → List A → Checked (List GoString)
select_all select [] = ok []
select_all select (x ∷ xs) = do name ← select x; names ← select_all select xs; ok (name ∷ names)

unfoldable pub resolve_save_fields : Ir.Model → OptionState → Checked (List Ir.Field)
resolve_save_fields metadata state = elim state.field_mask_set [
  | false ↦ ok []
  | true ↦ do
    typed ← select_all (select_typed metadata) state.typed
    dynamic ← select_all (select_named metadata) state.dynamic
    ok (keep (λ (field : Ir.Field). elem field.name (typed ++ dynamic)) metadata.fields)
]

unfoldable pub non_primary_fields : Ir.Model → List Ir.Field
non_primary_fields metadata = keep (λ (field : Ir.Field). not field.primary_key) metadata.fields

unfoldable pub assignment_for_field : List Assignment → Ir.Field → Option Assignment
assignment_for_field [] field = none
assignment_for_field (a ∷ as') field =
    if a.field == field_reference field then some a else assignment_for_field as' field

pub data ZeroRows : Type 0 where
  unexpected insert not_updated : ZeroRows

-- `saveExecutionPlan`: an operation is there or not.
pub record SavePlan : Type 0 where
  pub no_op : Bool
  pub update : Option UpdatePlan
  pub insert : Option InsertPlan
  pub assign_generated_key : Bool
  pub zero_rows : ZeroRows
  pub missing_row : ErrorCode

abbrev pub empty_plan : SavePlan
empty_plan = record {
  no_op = false;
  update = none;
  insert = none;
  assign_generated_key = false;
  zero_rows = ZeroRows.unexpected;
  missing_row = ErrorCode.update_fields_missing_row;
}

abbrev pub exclusive_flags : Failure
exclusive_flags = error_of ErrorCategory.argument ErrorCode.mutually_exclusive_force_flags []

-- The part of a field: the key's assignment, or its own if it has one.
unfoldable pub keyed_step :
    Bool → Assignment → Option Assignment → List Assignment → List Assignment
keyed_step true key found rest = key ∷ rest
keyed_step false key none rest = rest
keyed_step false key (some assignment) rest = assignment ∷ rest

module _ {M : Type 0} (descriptor : Descriptor M) where
  -- The descriptor's value of a field, checked.
  unfoldable pub save_assignment : M → Ir.Field → Checked Assignment
  save_assignment value field = do
    fail_if field.primary_key (primary_key_update_field field.name)
    let invalid = error_of ErrorCategory.field ErrorCode.invalid_value field.name
    field_value ← require invalid (descriptor.write_field_value value field)
    fail_if (not (mutation_value_matches field field_value)) invalid
    ok (new_assignment field field_value)

  unfoldable pub save_assignments : M → List Ir.Field → Checked (List Assignment)
  save_assignments value [] = ok []
  save_assignments value (field ∷ fields) = do
    assignment ← save_assignment value field
    assignments ← save_assignments value fields
    ok (assignment ∷ assignments)

  -- The assignments of an insert with the key, in the order of the fields.
  unfoldable pub keyed_assignments : Assignment → List Assignment → List Ir.Field → List Assignment
  unfolding keyed_step
  keyed_assignments key assignments [] = []
  keyed_assignments key assignments (field ∷ fields) =
      keyed_step field.primary_key key (assignment_for_field assignments field)
        (keyed_assignments key assignments fields)

  -- The plan of a model with a key.
  unfoldable pub keyed_plan : OptionState → Ir.Field → Value → List Assignment → SavePlan
  keyed_plan state primary_key key_value assignments =
      let insert : InsertPlan = record {
        table = descriptor.metadata.db_table;
        assignments =
            keyed_assignments (new_assignment primary_key key_value) assignments
              descriptor.metadata.fields;
      } in
      let update : UpdatePlan = record {
        table = descriptor.metadata.db_table;
        assignments = assignments;
        key_field = field_reference primary_key;
        key_value = key_value;
      } in
      if state.force_insert
      then record empty_plan { insert = some insert }
      else if state.force_update || state.field_mask_set
      then record empty_plan {
        update = some update;
        zero_rows = ZeroRows.not_updated;
        missing_row =
            if state.force_update
            then ErrorCode.force_update_missing_row
            else ErrorCode.update_fields_missing_row;
      }
      else record empty_plan {
        update = some update;
        insert = some insert;
        zero_rows = ZeroRows.insert;
      }

  -- The plan of a model without a key.
  unfoldable pub keyless_plan : OptionState → Ir.Field → List Assignment → Checked SavePlan
  keyless_plan state primary_key assignments =
      fail_if (state.force_update || state.field_mask_set) (
        error_of ErrorCategory.model_state ErrorCode.force_update_without_primary_key
          primary_key.name)
      >> ok (record empty_plan {
        insert = some (record { table = descriptor.metadata.db_table; assignments = assignments });
        assign_generated_key = true;
      })

  unfoldable pub plan_of_key : OptionState → Ir.Field → List Ir.Field → M → Checked SavePlan
  plan_of_key state primary_key selected value = do
    fail_if (state.force_insert && state.field_mask_set) exclusive_flags
    let key_value = (descriptor.primary_key value).0
    let key_present = (descriptor.primary_key value).1
    fail_if (not (mutation_value_matches primary_key key_value) || is_null key_value)
        invalid_write_plan
    fail_if (not key_present && not (key_value.integer == pos 0)) invalid_write_plan
    assignments ←
        save_assignments value
          (if state.field_mask_set then selected else non_primary_fields descriptor.metadata)
    if key_present
        then ok (keyed_plan state primary_key key_value assignments)
        else keyless_plan state primary_key assignments

  -- `buildSaveExecutionPlan` after the options.
  unfoldable pub plan_of_options : OptionState → Ir.Field → M → Checked SavePlan
  plan_of_options state primary_key value = do
    reject state.failure
    fail_if (state.force_insert && state.force_update) exclusive_flags
    selected ← resolve_save_fields descriptor.metadata state
    if state.field_mask_set && is_nil selected
        then ok (record empty_plan { no_op = true })
        else plan_of_key state primary_key selected value

  unfoldable pub build_save_execution_plan : Ir.Field → M → List SaveOption → Checked SavePlan
  build_save_execution_plan primary_key value options = do
    state ← apply_all options no_options
    plan_of_options state primary_key value

-- What a call leaves: its result, the caller's model and the backend's state.
abbrev pub AfterSave : Type 0 → Type 0 → Type 0 → Type 0
AfterSave A M S = Checked A × M × S

module _ {M S : Type 0} (descriptor : Descriptor M) (backend : Mutator S) where
  unfoldable pub inserted : SavePlan → M → Checked ℤ × S → AfterSave Unit M S
  inserted plan value (ok id, s) =
      (ok tt, if plan.assign_generated_key then descriptor.set_primary_key value id else value, s)
  inserted plan value (err failure, s) = (err failure, value, s)
  inserted plan value (stuck, s) = (stuck, value, s)

  unfoldable pub execute_insert : Option InsertPlan → SavePlan → M → S → AfterSave Unit M S
  execute_insert none plan value s = (err invalid_write_plan, value, s)
  execute_insert (some i) plan value s = inserted plan value (backend (Call.insert i) s)

  unfoldable pub execute_zero_rows : ZeroRows → SavePlan → M → S → AfterSave Unit M S
  execute_zero_rows ZeroRows.insert plan value s = execute_insert plan.insert plan value s
  execute_zero_rows ZeroRows.not_updated plan value s =
      (err (error_of ErrorCategory.not_updated plan.missing_row []), value, s)
  execute_zero_rows ZeroRows.unexpected plan value s = (err unexpected_rows, value, s)

  unfoldable pub updated : SavePlan → M → Checked ℤ × S → AfterSave Unit M S
  updated plan value (ok rows, s) =
      if rows == pos 1
      then (ok tt, value, s)
      else if rows == pos 0
      then execute_zero_rows plan.zero_rows plan value s
      else (err unexpected_rows, value, s)
  updated plan value (err failure, s) = (err failure, value, s)
  updated plan value (stuck, s) = (stuck, value, s)

  unfoldable pub execute_save_plan : SavePlan → M → S → AfterSave Unit M S
  execute_save_plan plan value s = if plan.no_op then (ok tt, value, s) else elim plan.update [
    | none ↦ execute_insert plan.insert plan value s
    | some u ↦ updated plan value (backend (Call.update u) s)
  ]

  -- The rest of Save, from a configuration that holds and a model that is there.
  unfoldable pub execute_built : Checked SavePlan → M → S → AfterSave Unit M S
  execute_built (ok plan) value s = execute_save_plan plan value s
  execute_built (err failure) value s = (err failure, value, s)
  execute_built stuck value s = (stuck, value, s)

  unfoldable pub save_configured : Ir.Field → M → List SaveOption → S → AfterSave Unit M S
  save_configured primary_key value options s =
      execute_built
        (build_save_execution_plan descriptor primary_key (descriptor.clone_write_model value)
          options)
        value s

-- `Manager.Save`. The pointer to the model is nil or not.
unfoldable pub save :
    {M S : Type 0}
    → Context
    → Option (Mutator S)
    → Configured M
    → Option M
    → List SaveOption
    → S
    → AfterSave Unit (Option M) S
save context backend configured value options s =
    elim (write_configuration context backend configured) [
      | err failure ↦ (err failure, value, s)
      | stuck ↦ (stuck, value, s)
      | ok (mutator, descriptor, primary_key) ↦ elim value [
        | none ↦ (err invalid_write_plan, none, s)
        | some model ↦
            let (result, left, t) =
              save_configured descriptor mutator primary_key model options s in
            (result, some left, t)
      ]
    ]
