-- ===== src/Ir/Normalize.antt =====
-- schema/ir/normalize.go: validation of a schema, with the defaults filled in. An error is its path
-- and its code; the text for people, `Info`, is not modelled. Hashing and JSON are not either.
use godj.Base.{
  ℕ, ◌+◌, GoString, bytes, Bool, true, false, ◌&&◌, ◌||◌, not, List, [], ◌∷◌, ◌++◌, Option, none,
  some, ◌==◌, ltb, any, elem, is_nil, is_some, if◌then◌else◌, string_eq, nat_eq, ℤ, pos, negsuc,
  int_eq, Outcome, ok, err, ◌>>=◌, ◌>>◌, fail_if,
}
use godj.Ir.{
  FieldKind, ScalarKind, ScalarDefault, Field, Model, Schema, format_version, scalar_kind_eq,
}
use godj.Ir.Utf8.{valid_string, rune_count}
use godj.Ir.Identifiers.{Unicode, database_identifier, exported_identifier}

-- "models[0].fields[1].name" is `key "models" ∷ at 0 ∷ …`.
pub data Segment : Type 0 where
  key : GoString → Segment
  at : ℕ → Segment

abbrev pub SchemaPath : Type 0
SchemaPath = List Segment

pub data ValidationCode : Type 0 where
  unsupported_version invalid_identifier empty invalid_go_identifier duplicate : ValidationCode
  primary_key_count required unsupported invalid type_mismatch max_length : ValidationCode
  unsupported_field_kind invalid_utf8 invalid_scalar unsupported_scalar_kind : ValidationCode

pub record ValidationError : Type 0 where
  pub path : SchemaPath
  pub code : ValidationCode

abbrev pub Validated {ℓ} : Type ℓ → Type ℓ
Validated A = Outcome ValidationError A

-- `return validation(path+"."+last, code, …)` under a test.
abbrev pub reject_if : Bool → SchemaPath → ValidationCode → Validated (Unit {0})
reject_if test path code = fail_if test (record { path = path; code = code })

abbrev pub reject : SchemaPath → ValidationCode → Validated (Unit {0})
reject path code = err (record { path = path; code = code })

is_zero : ℤ → Bool
is_zero (pos n) = n == 0
is_zero (negsuc n) = false

is_positive : ℤ → Bool
is_positive (pos n) = ltb 0 n
is_positive (negsuc n) = false

-- len(s) > n for the length of a string and a limit.
exceeds : ℕ → ℤ → Bool
exceeds n (pos m) = ltb m n
exceeds n (negsuc m) = true

is_empty : GoString → Bool
unfolding is_nil
is_empty s = is_nil s

is_of_kind : ScalarKind → Option ScalarDefault → Bool
is_of_kind k none = true
is_of_kind k (some d) = d.kind == k

validate_scalar_kind : ScalarKind → ScalarDefault → SchemaPath → Validated (Unit {0})
unfolding is_zero is_empty
validate_scalar_kind ScalarKind.string value path = do
  reject_if (not (valid_string value.string)) path invalid_utf8
  reject_if (value.boolean || not (is_zero value.integer)) path invalid_scalar
validate_scalar_kind ScalarKind.boolean value path =
    reject_if (not (is_empty value.string) || not (is_zero value.integer)) path invalid_scalar
validate_scalar_kind ScalarKind.integer value path =
    reject_if (not (is_empty value.string) || value.boolean) path invalid_scalar
validate_scalar_kind (ScalarKind.unknown k) value path =
    reject (path ++ key (bytes "kind") ∷ []) unsupported_scalar_kind

unfoldable pub validate_scalar_default : ScalarDefault → SchemaPath → Validated (Unit {0})
unfolding validate_scalar_kind
validate_scalar_default value path = validate_scalar_kind value.kind value path

-- `if field.Default != nil { … }`
validate_optional_default : Option ScalarDefault → SchemaPath → Validated (Unit {0})
unfolding validate_scalar_default
validate_optional_default none path = ok tt
validate_optional_default (some value) path = validate_scalar_default value path

-- The text of a default, empty where there is none.
default_text : Option ScalarDefault → GoString
default_text none = []
default_text (some value) = value.string

-- The branches of the switch in `validateField`.
validate_kind : FieldKind → Field → SchemaPath → Validated (Unit {0})
unfolding is_zero is_positive exceeds is_of_kind default_text
validate_kind FieldKind.auto field path = do
  reject_if (not field.primary_key) (path ++ key (bytes "primary_key") ∷ []) required
  reject_if field.nullable (path ++ key (bytes "nullable") ∷ []) unsupported
  reject_if (not (is_zero field.max_length)) (path ++ key (bytes "max_length") ∷ []) unsupported
  reject_if (is_some field.scalar_default) (path ++ key (bytes "default") ∷ []) unsupported
validate_kind FieldKind.char field path = do
  reject_if field.primary_key (path ++ key (bytes "primary_key") ∷ []) unsupported
  reject_if (not (is_positive field.max_length)) (path ++ key (bytes "max_length") ∷ []) invalid
  reject_if (not (is_of_kind ScalarKind.string field.scalar_default))
      (path ++ key (bytes "default") ∷ []) type_mismatch
  reject_if
      (is_some field.scalar_default
        && exceeds (rune_count (default_text field.scalar_default)) field.max_length)
      (path ++ key (bytes "default") ∷ []) max_length
validate_kind FieldKind.boolean field path = do
  reject_if field.primary_key (path ++ key (bytes "primary_key") ∷ []) unsupported
  reject_if field.nullable (path ++ key (bytes "nullable") ∷ []) unsupported
  reject_if (not (is_zero field.max_length)) (path ++ key (bytes "max_length") ∷ []) unsupported
  reject_if (not (is_of_kind ScalarKind.boolean field.scalar_default))
      (path ++ key (bytes "default") ∷ []) type_mismatch
validate_kind (FieldKind.unknown k) field path =
    reject (path ++ key (bytes "kind") ∷ []) unsupported_field_kind

unfoldable pub validate_field : Field → SchemaPath → Validated (Unit {0})
unfolding validate_kind validate_optional_default
validate_field field path = do
  validate_optional_default field.scalar_default (path ++ key (bytes "default") ∷ [])
  validate_kind field.kind field path

-- The three sets of names that the fields of a model, or the models of a schema, must not repeat.
pub record Seen : Type 0 where
  pub names : List GoString
  pub go_names : List GoString
  pub columns : List GoString

abbrev pub none_seen : Seen
none_seen = record { names = []; go_names = []; columns = [] }

-- What a field and a model have in common: two names and a column or table. `last` is the path of
-- the third.
pub record Named : Type 0 where
  pub name : GoString
  pub go_name : GoString
  pub column : GoString
  pub last : GoString

abbrev pub field_names : Field → Named
field_names f = record {
  name = f.name;
  go_name = f.go_name;
  column = f.column;
  last = bytes "column";
}

abbrev pub model_names : Model → Named
model_names m = record {
  name = m.name;
  go_name = m.go_name;
  column = m.db_table;
  last = bytes "db_table";
}

-- The three calls of `duplicate`: an error, or the sets with the names in them.
unfoldable pub register : SchemaPath → Seen → Named → Validated Seen
register path seen n = do
  reject_if (elem n.name seen.names) (path ++ key (bytes "name") ∷ []) duplicate
  reject_if (elem n.go_name seen.go_names) (path ++ key (bytes "go_name") ∷ []) duplicate
  reject_if (elem n.column seen.columns) (path ++ key n.last ∷ []) duplicate
  ok (record {
    names = n.name ∷ seen.names;
    go_names = n.go_name ∷ seen.go_names;
    columns = n.column ∷ seen.columns;
  })

-- `if field.Column == "" { field.Column = field.Name }`
unfoldable pub with_column : Field → Field
unfolding is_empty
with_column field = if is_empty field.column then record field { column = field.name } else field

-- `if model.DBTable == "" { model.DBTable = schema.AppLabel + "_" + model.Name }`
unfoldable pub with_table : GoString → Model → Model
unfolding is_empty
with_table app model =
    if is_empty model.db_table
    then record model { db_table = app ++ bytes "_" ++ model.name }
    else model

-- The primary key that a model without an AutoField gets.
abbrev pub implicit_id : Field
implicit_id = record {
  name = bytes "id";
  go_name = bytes "ID";
  column = bytes "id";
  kind = FieldKind.auto;
  primary_key = true;
  nullable = false;
  max_length = pos 0;
  scalar_default = none;
}

unfoldable pub is_auto : Field → Bool
is_auto field = elim field.kind [ FieldKind.auto ↦ true | _ ↦ false ]

unfoldable pub with_auto : List Field → List Field
unfolding is_auto
with_auto fields = if any is_auto fields then fields else implicit_id ∷ fields

module _ ⦃u : Unicode⦄ where
  unfoldable pub check_identifiers : SchemaPath → Named → Validated (Unit {0})
  check_identifiers path n = do
    reject_if (not (database_identifier n.name)) (path ++ key (bytes "name") ∷ [])
        invalid_identifier
    reject_if (not (exported_identifier n.go_name)) (path ++ key (bytes "go_name") ∷ [])
        invalid_go_identifier
    reject_if (not (database_identifier n.column)) (path ++ key n.last ∷ []) invalid_identifier

  -- The loop over the fields: the fields with their columns, and the number of primary keys.
  unfoldable pub normalize_fields :
      SchemaPath → ℕ → Seen → ℕ → List Field → Validated (List Field × ℕ)
  unfolding check_identifiers register with_column validate_field
  normalize_fields path index seen keys [] = ok ([], keys)
  normalize_fields path index seen keys (raw ∷ rest) = do
    let here = path ++ key (bytes "fields") ∷ at index ∷ []
    let field = with_column raw
    check_identifiers here (field_names field)
    seen' ← register here seen (field_names field)
    validate_field field here
    let keys' = if field.primary_key then keys + 1 else keys
    (fields, total) ← normalize_fields path (index + 1) seen' keys' rest
    ok (field ∷ fields, total)

  unfoldable pub normalize_model : Model → SchemaPath → Validated Model
  unfolding normalize_fields with_auto is_nil
  normalize_model model path = do
    let fields = with_auto model.fields
    reject_if (is_nil fields) (path ++ key (bytes "fields") ∷ []) empty
    (normalized, keys) ← normalize_fields path 0 none_seen 0 fields
    reject_if (not (keys == 1)) (path ++ key (bytes "fields") ∷ []) primary_key_count
    ok (record model { fields = normalized })

  unfoldable pub normalize_models : GoString → ℕ → Seen → List Model → Validated (List Model)
  unfolding check_identifiers register with_table normalize_model
  normalize_models app index seen [] = ok []
  normalize_models app index seen (raw ∷ rest) = do
    let path = key (bytes "models") ∷ at index ∷ []
    let model = with_table app raw
    check_identifiers path (model_names model)
    seen' ← register path seen (model_names model)
    normalized ← normalize_model model path
    models ← normalize_models app (index + 1) seen' rest
    ok (normalized ∷ models)

  unfoldable pub normalize : Schema → Validated Schema
  unfolding is_zero is_nil normalize_models
  normalize input = do
    let version = if is_zero input.format_version then format_version else input.format_version
    reject_if (not (version == format_version)) (key (bytes "format_version") ∷ [])
        unsupported_version
    reject_if (not (database_identifier input.app_label)) (key (bytes "app_label") ∷ [])
        invalid_identifier
    reject_if (is_nil input.models) (key (bytes "models") ∷ []) empty
    models ← normalize_models input.app_label 0 none_seen input.models
    ok (record { format_version = version; app_label = input.app_label; models = models })
