-- ===== src/Migrations/Operations.antt =====
-- migrations/operation.go: what the operations do to the project state, and which call of the schema
-- editor each of them makes.
use godj.Base.{
  GoString, bytes, Bool, ◌&&◌, ◌||◌, not, List, [], ◌∷◌, ◌++◌, Option, none, some, ◌==◌, string_eq,
  if◌then◌else◌, find, any, keep, is_nil, is_some, ok, err, ◌>>=◌, ◌>>◌, fail_if,
}
use godj.Ir.{Field, Model, Schema, format_version, field_eq, model_eq}
use godj.Ir.Identifiers.{Unicode}
use godj.Ir.Normalize.{normalize}
use godj.Migrations.Errors.{Cause}
use godj.Migrations.Definitions.{
  BuiltIn, create_model, add_field, Operation, by_value, by_pointer, embedding, nil_operation,
}
use godj.Migrations.State.{
  ProjectState, Stated, wrap, state_schema, state_model, with_schema, without_app,
  normalized_single_model,
}

unfoldable pub kind : BuiltIn → GoString
kind (create_model app model) = bytes "CreateModel"
kind (add_field app name field) = bytes "AddField"

unfoldable pub app_of : BuiltIn → GoString
app_of (create_model app model) = app
app_of (add_field app name field) = app

-- `isNilOperation`: the method set behind an interface value that is not nil.
unfoldable pub built_in : Operation → Option BuiltIn
built_in (by_value op) = some op
built_in (by_pointer op) = some op
built_in (embedding op) = some op
built_in nil_operation = none

abbrev pub require {ℓ} : {A : Type ℓ} → Option A → Cause → Stated A
require none e = err e
require (some a) e = ok a

-- The schema of an app, or a new one without models.
abbrev pub schema_or_new : GoString → Option Schema → Schema
schema_or_new app none = record { format_version = format_version; app_label = app; models = [] }
schema_or_new app (some schema) = schema

-- The first model of a name, with a function applied to it.
unfoldable pub update_model : GoString → (Model → Model) → List Model → List Model
update_model name f [] = []
update_model name f (model ∷ rest) =
    let after = update_model name f rest in
    if model.name == name then f model ∷ rest else model ∷ after

-- `append(fields[:i:i], fields[i+1:]...)` for the first field of a name.
unfoldable pub drop_field : GoString → List Field → List Field
drop_field name [] = []
drop_field name (field ∷ rest) =
    let after = drop_field name rest in if field.name == name then rest else field ∷ after

-- The test by which AddField finds a field that is there already.
abbrev pub clashes : Field → Field → Bool
clashes new field = field.name == new.name || not (is_nil new.column) && field.column == new.column

-- `if normalizedField.Column == "" { normalizedField.Column = normalizedField.Name }`
abbrev pub default_column : Field → Field
default_column field = if is_nil field.column then record field { column = field.name } else field

module _ ⦃u : Unicode⦄ where
  unfoldable pub create_model_forward : GoString → Model → ProjectState → Stated ProjectState
  create_model_forward app raw state = do
    model ← normalized_single_model app raw
    fail_if (is_some (state_model state app model.name)) (Cause.model_exists app model.name)
    let schema = schema_or_new app (state_schema state app)
    normalized ← wrap (normalize (record schema { models = schema.models ++ model ∷ [] }))
    ok (with_schema state normalized)

  unfoldable pub create_model_backward : GoString → Model → ProjectState → Stated ProjectState
  create_model_backward app raw state = do
    want ← normalized_single_model app raw
    actual ← require (state_model state app want.name) (Cause.model_missing app want.name)
    fail_if (not (actual == want)) (Cause.model_mismatch app want.name)
    let schema = schema_or_new app (state_schema state app)
    let models = keep (λ model. not (model.name == want.name)) schema.models
    if is_nil models then ok (without_app state app) else do
      normalized ← wrap (normalize (record schema { models = models }))
      ok (with_schema state normalized)

  unfoldable pub add_field_forward :
      GoString → GoString → Field → ProjectState → Stated ProjectState
  add_field_forward app name field state = do
    schema ← require (state_schema state app) (Cause.app_missing app)
    model ← require (find (λ m. m.name == name) schema.models) (Cause.model_missing app name)
    fail_if (any (clashes field) model.fields) (Cause.field_exists app name field.name)
    let models = update_model name (λ m. record m { fields = m.fields ++ field ∷ [] }) schema.models
    normalized ← wrap (normalize (record schema { models = models }))
    ok (with_schema state normalized)

  unfoldable pub add_field_backward :
      GoString → GoString → Field → ProjectState → Stated ProjectState
  add_field_backward app name field state = do
    schema ← require (state_schema state app) (Cause.app_missing app)
    model ← require (find (λ m. m.name == name) schema.models) (Cause.model_missing app name)
    current ←
        require (find (λ f. f.name == field.name) model.fields)
          (Cause.field_missing app name field.name)
    fail_if (not (current == default_column field)) (Cause.field_mismatch app name field.name)
    let models =
        update_model name (λ m. record m { fields = drop_field field.name m.fields }) schema.models
    normalized ← wrap (normalize (record schema { models = models }))
    ok (with_schema state normalized)

  unfoldable pub state_forward : BuiltIn → ProjectState → Stated ProjectState
  unfolding create_model_forward add_field_forward
  state_forward (create_model app model) = create_model_forward app model
  state_forward (add_field app name field) = add_field_forward app name field

  unfoldable pub state_backward : BuiltIn → ProjectState → Stated ProjectState
  unfolding create_model_backward add_field_backward
  state_backward (create_model app model) = create_model_backward app model
  state_backward (add_field app name field) = add_field_backward app name field

-- The calls of a migration transaction.
pub data Call : Type 0 where
  create_table delete_table : Model → Call
  add_column remove_column : Model → Field → Call
  record_applied record_unapplied : (app name : GoString) → Call
  commit rollback : Call

unfoldable pub find_field : ProjectState → (app model field : GoString) → Option Field
find_field state app model field = elim (state_model state app model) [
  | none ↦ none
  | some m ↦ find (λ f. f.name == field) m.fields
]

-- A call that is to be made, or the reason why it cannot be.
pub data Intent : Type 0 where
  makes : Call → Intent
  fails : Cause → Intent

abbrev pub needs {ℓ} : {A : Type ℓ} → Option A → Cause → (A → Intent) → Intent
needs none cause f = fails cause
needs (some a) cause f = f a

unfoldable pub database_forward : BuiltIn → ProjectState → ProjectState → Intent
unfolding find_field
database_forward (create_model app raw) from to =
    needs (state_model to app raw.name) (Cause.preflight_model_missing app raw.name)
      λ model. makes (create_table model)
database_forward (add_field app name raw) from to =
    needs (state_model from app name) (Cause.preflight_model_missing app name) λ model.
      needs (find_field to app name raw.name) (Cause.preflight_field_missing app name raw.name)
        λ field. makes (add_column model field)

unfoldable pub database_backward : BuiltIn → ProjectState → ProjectState → Intent
unfolding find_field
database_backward (create_model app raw) from to =
    needs (state_model from app raw.name) (Cause.preflight_model_missing app raw.name)
      λ model. makes (delete_table model)
database_backward (add_field app name raw) from to =
    needs (state_model from app name) (Cause.preflight_model_missing app name) λ model.
      needs (find_field from app name raw.name) (Cause.preflight_field_missing app name raw.name)
        λ field. makes (remove_column model field)
