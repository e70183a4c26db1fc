-- ===== src/Migrations/State.antt =====
-- migrations/state.go: the schemas of a project by app. `validate` meets the apps in the order of the
-- list, where the program takes some order.
use godj.Base.{
  GoString, not, List, [], ◌∷◌, Option, none, some, ◌==◌, string_eq, int_eq, if◌then◌else◌, find,
  lookup, put, remove, is_some, ℤ, pos, Outcome, ok, err, stuck, ◌>>=◌, ◌>>◌, fail_if,
}
use godj.Ir.{Model, Schema, format_version, schema_eq, model_eq}
use godj.Ir.Identifiers.{Unicode}
use godj.Ir.Normalize.{Validated, normalize}
use godj.Migrations.Errors.{Cause}

pub record ProjectState : Type 0 where
  pub version : ℤ
  pub apps : List (GoString × Schema)

abbrev pub state_format_version : ℤ
state_format_version = pos 1

abbrev pub empty_project_state : ProjectState
empty_project_state = record { version = state_format_version; apps = [] }

abbrev pub Stated {ℓ} : Type ℓ → Type ℓ
Stated A = Outcome Cause A

-- `FormatVersion`
unfoldable pub state_version : ProjectState → ℤ
state_version s = if s.version == pos 0 then state_format_version else s.version

-- `Clone` fills in the version.
unfoldable pub clone : ProjectState → ProjectState
unfolding state_version
clone s = record s { version = state_version s }

unfoldable pub state_schema : ProjectState → GoString → Option Schema
state_schema s app = lookup app s.apps

unfoldable pub find_model : GoString → Option Schema → Option Model
find_model name none = none
find_model name (some schema) = find (λ model. model.name == name) schema.models

unfoldable pub state_model : ProjectState → GoString → GoString → Option Model
unfolding state_schema find_model
state_model s app name = find_model name (state_schema s app)

unfoldable pub with_schema : ProjectState → Schema → ProjectState
unfolding clone
with_schema s schema = record (clone s) { apps = put schema.app_label schema s.apps }

unfoldable pub without_app : ProjectState → GoString → ProjectState
unfolding clone
without_app s app = record (clone s) { apps = remove app s.apps }

-- `fmt.Errorf("…: %w", err)`
abbrev pub wrap {ℓ} : {A : Type ℓ} → Validated A → Stated A
wrap (ok a) = ok a
wrap (err e) = err (Cause.not_normalizable e)
wrap stuck = stuck

module _ ⦃u : Unicode⦄ where
  unfoldable pub new_project_state : List Schema → ProjectState → Stated ProjectState
  new_project_state [] state = ok state
  new_project_state (schema ∷ rest) state = do
    normalized ← wrap (normalize schema)
    fail_if (is_some (state_schema state normalized.app_label))
        (Cause.duplicate_app normalized.app_label)
    new_project_state rest (record state { apps = put normalized.app_label normalized state.apps })

  unfoldable pub validate_apps : List (GoString × Schema) → Stated (Unit {0})
  validate_apps [] = ok tt
  validate_apps ((app, schema) ∷ rest) = do
    fail_if (not (schema.app_label == app)) (Cause.app_key_mismatch app schema.app_label)
    normalized ← wrap (normalize schema)
    fail_if (not (normalized == schema)) (Cause.app_not_normalized app)
    validate_apps rest

  unfoldable pub validate : ProjectState → Stated (Unit {0})
  unfolding state_version validate_apps
  validate s = do
    fail_if (not (state_version s == state_format_version))
        (Cause.unsupported_state_version (state_version s))
    validate_apps s.apps

  abbrev pub first_model : GoString → List Model → Stated Model
  first_model app [] = stuck
  first_model app (model ∷ _) = ok model

  unfoldable pub normalized_single_model : GoString → Model → Stated Model
  normalized_single_model app model = do
    schema ← wrap (
        normalize
          (record { format_version = format_version; app_label = app; models = model ∷ [] }))
    first_model app schema.models
