-- ===== src/Sqlite/Ddl.antt =====
-- db/sqlite/migration_sql.go: the statements for the operations of a migration.
use godj.Base.{
  ℕ, zero, suc, ◌+◌, GoString, bytes, Bool, not, ◌||◌, List, [], ◌∷◌, ◌++◌, if◌then◌else◌, ltb,
  is_nil, ℤ, pos, negsuc, Outcome, ok, err, stuck, ◌>>=◌, ◌>>◌, fail_if,
}
use Prim.Native.Nat.{◌/◌, ◌%◌}
use godj.Ir.{FieldKind, Field, Model}
use godj.Query.{Failure, Checked}
use godj.Sqlite.Identifiers.{quote_identifier}
use godj.Sqlite.Writes.{join}

pub data DdlError : Type 0 where
  table_is_empty : DdlError
  fields_are_empty : GoString → DdlError
  bad_table bad_column : Failure → DdlError
  auto_field_not_key char_length_not_positive nullable_boolean : DdlError
  unsupported_kind : GoString → DdlError
  in_field : ℕ → DdlError → DdlError

abbrev pub Compiled {ℓ} : Type ℓ → Type ℓ
Compiled A = Outcome DdlError A

-- `fmt.Errorf("…: %w", err)`
abbrev pub wrap {ℓ} : {A : Type ℓ} → (Failure → DdlError) → Checked A → Compiled A
wrap f (ok a) = ok a
wrap f (err e) = err (f e)
wrap f stuck = stuck

abbrev pub at_field {ℓ} : {A : Type ℓ} → ℕ → Compiled A → Compiled A
at_field index (ok a) = ok a
at_field index (err e) = err (in_field index e)
at_field index stuck = stuck

-- The digits of a number, the last one first onto those after it.
digits : ℕ → ℕ → GoString → GoString
digits zero n after = after
digits (suc fuel) n after =
    let here = (b'0' + n % 10) ∷ after in
    let more = digits fuel (n / 10) here in if ltb n 10 then here else more

-- `%d`
unfoldable pub decimal : ℕ → GoString
unfolding digits
decimal n = digits (suc n) n []

char_declaration : ℤ → Bool → Compiled GoString
char_declaration (negsuc n) nullable = err char_length_not_positive
char_declaration (pos zero) nullable = err char_length_not_positive
char_declaration (pos (suc n)) nullable = ok (
    bytes "VARCHAR("
    ++ decimal (suc n)
    ++ bytes ")"
    ++ (if nullable then bytes " NULL" else bytes " NOT NULL"))

unfoldable pub declaration : Field → Compiled GoString
unfolding char_declaration
declaration field = elim field.kind [
  | FieldKind.auto ↦ do
    fail_if (not field.primary_key || field.nullable) auto_field_not_key
    ok (bytes "INTEGER NOT NULL PRIMARY KEY AUTOINCREMENT")
  | FieldKind.char ↦ char_declaration field.max_length field.nullable
  | FieldKind.boolean ↦ do fail_if field.nullable nullable_boolean; ok (bytes "BOOLEAN NOT NULL")
  | FieldKind.unknown kind ↦ err (unsupported_kind kind)
]

unfoldable pub compile_migration_column : Field → Compiled GoString
compile_migration_column field = do
  column ← wrap bad_column (quote_identifier field.column)
  text ← declaration field
  ok (column ++ bytes " " ++ text)

unfoldable pub compile_columns : ℕ → List Field → Compiled (List GoString)
compile_columns index [] = ok []
compile_columns index (field ∷ rest) = do
  column ← at_field index (compile_migration_column field)
  columns ← compile_columns (index + 1) rest
  ok (column ∷ columns)

unfoldable pub compile_create_model : Model → Compiled GoString
unfolding is_nil
compile_create_model model = do
  fail_if (is_nil model.db_table) table_is_empty
  fail_if (is_nil model.fields) (fields_are_empty model.db_table)
  table ← wrap bad_table (quote_identifier model.db_table)
  columns ← compile_columns 0 model.fields
  ok (bytes "CREATE TABLE " ++ table ++ bytes " (" ++ join (bytes ", ") columns ++ bytes ")")

unfoldable pub compile_delete_model : Model → Compiled GoString
compile_delete_model model = do
  table ← wrap bad_table (quote_identifier model.db_table)
  ok (bytes "DROP TABLE " ++ table)

unfoldable pub compile_add_field : Model → Field → Compiled GoString
compile_add_field model field = do
  table ← wrap bad_table (quote_identifier model.db_table)
  column ← compile_migration_column field
  ok (bytes "ALTER TABLE " ++ table ++ bytes " ADD COLUMN " ++ column)

unfoldable pub compile_remove_field : Model → Field → Compiled GoString
compile_remove_field model field = do
  table ← wrap bad_table (quote_identifier model.db_table)
  column ← wrap bad_column (quote_identifier field.column)
  ok (bytes "ALTER TABLE " ++ table ++ bytes " DROP COLUMN " ++ column)
