-- ===== src/Orm/Tables.antt =====
-- A table with a unique key as a backend: what db.Mutator asks of a database, one row for each key.
use godj.Base.{List, [], ◌∷◌, Option, none, some, ◌==◌, if◌then◌else◌, ℤ, pos, ok, err}
use godj.Query.{
  FieldRef, field_ref_eq, Value, value_eq, integer_value, Assignment, Failure, ErrorCategory,
  ErrorCode, error_of, Checked,
}
use godj.Orm.{Call, Mutator}
use godj.Orm.Rows.{Row, assigned, overwrite}

abbrev pub Table : Type 0
Table = Value → Option Row

unfoldable pub put : Value → Row → Table → Table
put key row table k = if k == key then some row else table k

abbrev pub empty_row : Row
empty_row r = none

abbrev pub key_taken : Checked ℤ
key_taken = err (error_of ErrorCategory.integrity ErrorCode.unique_primary_key [])

-- An INSERT with a key, at a place that may be taken.
unfoldable pub insert_row : Option Row → Value → List Assignment → Table → Checked ℤ × Table
insert_row (some row) key assignments table = (key_taken, table)
insert_row none key assignments table =
    (ok key.integer, put key (overwrite assignments empty_row) table)

unfoldable pub update_row : Option Row → Value → List Assignment → Table → Checked ℤ × Table
update_row none key assignments table = (ok (pos 0), table)
update_row (some row) key assignments table =
    (ok (pos 1), put key (overwrite assignments row) table)

-- An UPDATE without assignments is no statement: CompileUpdate of db/sqlite rejects it.
abbrev pub empty_update : Failure
empty_update = error_of ErrorCategory.query ErrorCode.invalid_plan []

unfoldable pub update_keyed : List Assignment → Value → Table → Checked ℤ × Table
update_keyed [] key table = (err empty_update, table)
update_keyed (a ∷ as') key table = update_row (table key) key (a ∷ as') table

abbrev pub no_row : Table → Value → Table
no_row table key k = if k == key then none else table k

unfoldable pub delete_row : Option Row → Value → Table → Checked ℤ × Table
delete_row none key table = (ok (pos 0), table)
delete_row (some row) key table = (ok (pos 1), no_row table key)

-- The key column, and the identifier that an INSERT without a key gets.
module _ (key_column : FieldRef) (fresh : Table → ℤ) where
  unfoldable pub insert_keyed : Option Value → List Assignment → Table → Checked ℤ × Table
  insert_keyed (some key) assignments table = insert_row (table key) key assignments table
  insert_keyed none assignments table = (
    ok (fresh table),
    put (integer_value (fresh table))
        (overwrite assignments
          λ r. if r == key_column then some (integer_value (fresh table)) else none)
        table,
  )

  unfoldable pub table_backend : Mutator Table
  table_backend (Call.insert i) table =
      insert_keyed (assigned i.assignments key_column) i.assignments table
  table_backend (Call.update u) table = update_keyed u.assignments u.key_value table
  table_backend (Call.delete d) table = delete_row (table d.key_value) d.key_value table
