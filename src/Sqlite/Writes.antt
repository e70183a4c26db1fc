-- ===== src/Sqlite/Writes.antt =====
-- CompileInsert, CompileUpdate and CompileDelete of db/sqlite/write.go.
use godj.Base.{
  GoString, string_eq, bytes, Bool, true, false, not, ◌||◌, List, [], ◌∷◌, ◌++◌, map, ◌==◌,
  if◌then◌else◌, any, elem, is_nil, ok, ◌>>=◌, ◌>>◌, fail_if,
}
use godj.Query.{
  FieldRef, field_ref_eq, Value, is_null, value_kind_eq, Argument, database_value, Assignment,
  InsertPlan, UpdatePlan, DeletePlan, Checked,
}
use godj.Sqlite.Identifiers.{invalid_plan, quote_identifier, sqlite_identifier_key}
use godj.Sqlite.Compiler.{Piece, value_matches_field}

unfoldable pub validate_write_value : FieldRef → Value → Checked (Unit {0})
validate_write_value field value =
    if is_null value
    then fail_if (not field.nullable) invalid_plan
    else fail_if (not (value_matches_field value.kind field.kind)) invalid_plan

-- `compileAssignments`: the quoted columns and the arguments. `seen` holds the keys of the columns.
unfoldable pub compile_assignments :
    List GoString → List Assignment → Checked (List GoString × List Argument)
compile_assignments seen [] = ok ([], [])
compile_assignments seen (a ∷ rest) = do
  column ← quote_identifier a.field.column
  let key = sqlite_identifier_key a.field.column
  fail_if (elem key seen) invalid_plan
  validate_write_value a.field a.value
  argument ← database_value a.value
  (columns, arguments) ← compile_assignments (key ∷ seen) rest
  ok (column ∷ columns, argument ∷ arguments)

unfoldable pub compile_key : FieldRef → Value → Checked (GoString × Argument)
compile_key field value = do
  fail_if (field.nullable || is_null value) invalid_plan
  validate_write_value field value
  column ← quote_identifier field.column
  argument ← database_value value
  ok (column, argument)

-- `strings.Join`
unfoldable pub join : GoString → List GoString → GoString
join separator [] = []
join separator (part ∷ []) = part
join separator (part ∷ next ∷ parts) = part ++ separator ++ join separator (next ∷ parts)

unfoldable pub insert_statement : GoString → List GoString → GoString
insert_statement table columns =
    bytes "INSERT INTO "
    ++ table
    ++ bytes " ("
    ++ join (bytes ", ") columns
    ++ bytes ") VALUES ("
    ++ join (bytes ", ") (map (λ _. bytes "?") columns)
    ++ bytes ")"

unfoldable pub compile_insert : InsertPlan → Checked Piece
unfolding is_nil
compile_insert p = do
  table ← quote_identifier p.table
  elim (is_nil p.assignments) [
    | true ↦ ok (bytes "INSERT INTO " ++ table ++ bytes " DEFAULT VALUES", [])
    | false ↦ do
      (columns, arguments) ← compile_assignments [] p.assignments
      ok (insert_statement table columns, arguments)
  ]

-- Does an assignment name the key, by its field or by a column that SQLite takes for the same?
unfoldable pub assigns_key : FieldRef → Assignment → Bool
assigns_key key a =
    a.field == key || sqlite_identifier_key a.field.column == sqlite_identifier_key key.column

unfoldable pub compile_update : UpdatePlan → Checked Piece
unfolding is_nil
compile_update p = do
  table ← quote_identifier p.table
  fail_if (is_nil p.assignments) invalid_plan
  fail_if (any (assigns_key p.key_field) p.assignments) invalid_plan
  (columns, arguments) ← compile_assignments [] p.assignments
  (key_column, key_argument) ← compile_key p.key_field p.key_value
  ok (
    bytes "UPDATE "
        ++ table
        ++ bytes " SET "
        ++ join (bytes ", ") (map (λ column. column ++ bytes " = ?") columns)
        ++ bytes " WHERE "
        ++ key_column
        ++ bytes " = ?",
    arguments ++ key_argument ∷ [],
  )

unfoldable pub compile_delete : DeletePlan → Checked Piece
compile_delete p = do
  table ← quote_identifier p.table
  (key_column, key_argument) ← compile_key p.key_field p.key_value
  ok (
    bytes "DELETE FROM " ++ table ++ bytes " WHERE " ++ key_column ++ bytes " = ?",
    key_argument ∷ [],
  )
