-- ===== src/Sqlite/Compiler.antt =====
-- Compile of db/sqlite/compiler.go: a query plan as a SELECT statement with its arguments. The builder's
-- text is what each part returns; the parts run in the order of the program, which decides the error.
use godj.Base.{
  GoString, bytes, Bool, true, false, not, List, [], ◌∷◌, ◌++◌, Option, none, some, ◌==◌, any,
  is_nil, ℤ, ok, err, ◌>>=◌, ◌>>◌, fail_if,
}
use godj.Query.{
  FieldKind, field_kind_eq, FieldRef, field_ref_eq, ValueKind, as_string, as_boolean, Argument,
  database_value, Lookup, Condition, OrderDirection, Ordering, Plan, Checked, Failure, reported,
  ErrorCategory, ErrorCode,
}
use godj.Sqlite.Identifiers.{invalid_plan, quote_identifier, escape_like}

unfoldable pub contains_field : List FieldRef → FieldRef → Bool
contains_field columns candidate = any (λ column. column == candidate) columns

unfoldable pub value_matches_field : ValueKind → FieldKind → Bool
value_matches_field ValueKind.integer FieldKind.integer = true
value_matches_field ValueKind.string FieldKind.string = true
value_matches_field ValueKind.boolean FieldKind.boolean = true
value_matches_field _ _ = false

abbrev pub lookup_name : Lookup → GoString
lookup_name Lookup.exact = bytes "exact"
lookup_name Lookup.icontains = bytes "icontains"
lookup_name Lookup.isnull = bytes "isnull"
lookup_name (Lookup.unknown name) = name

abbrev pub unsupported_lookup : FieldRef → Lookup → Failure
unsupported_lookup field lookup = reported (record {
  category = ErrorCategory.backend;
  code = ErrorCode.unsupported;
  name = field.name;
  lookup = lookup_name lookup;
})

-- A piece of SQL with the arguments that it takes.
abbrev pub Piece : Type 0
Piece = GoString × List Argument

unfoldable pub compile_icontains : Condition → Bool → Option GoString → Checked Piece
compile_icontains c true (some text) =
    ok
      (bytes " LIKE ? ESCAPE '\\'", Argument.text (bytes "%" ++ escape_like text ++ bytes "%") ∷ [])
compile_icontains c _ _ = err (unsupported_lookup c.field c.lookup)

unfoldable pub compile_isnull : Condition → Option Bool → Checked Piece
compile_isnull c none = err (unsupported_lookup c.field c.lookup)
compile_isnull c (some true) = ok (bytes " IS NULL", [])
compile_isnull c (some false) = ok (bytes " IS NOT NULL", [])

unfoldable pub compile_lookup : Lookup → Condition → Checked Piece
unfolding compile_icontains compile_isnull
compile_lookup Lookup.exact c = do
  fail_if (not (value_matches_field c.value.kind c.field.kind)) invalid_plan
  argument ← database_value c.value
  ok (bytes " = ?", argument ∷ [])
compile_lookup Lookup.icontains c =
    compile_icontains c (c.field.kind == FieldKind.string) (as_string c.value)
compile_lookup Lookup.isnull c = compile_isnull c (as_boolean c.value)
compile_lookup (Lookup.unknown name) c = err (unsupported_lookup c.field c.lookup)

-- `compileCondition`
unfoldable pub compile_condition : Condition → Checked Piece
unfolding compile_lookup
compile_condition c = compile_lookup c.lookup c

-- What stands before an element of a list: nothing before the first.
abbrev pub separator : Bool → GoString → GoString
separator true text = []
separator false text = text

unfoldable pub write_columns : Bool → List FieldRef → Checked GoString
write_columns first [] = ok []
write_columns first (column ∷ rest) = do
  quoted ← quote_identifier column.column
  text ← write_columns false rest
  ok (separator first (bytes ", ") ++ quoted ++ text)

unfoldable pub direction_text : OrderDirection → Checked GoString
direction_text OrderDirection.ascending = ok (bytes " ASC")
direction_text OrderDirection.descending = ok (bytes " DESC")
direction_text (OrderDirection.unknown name) = err invalid_plan

module _ (columns : List FieldRef) where
  unfoldable pub write_conditions : Bool → List Condition → Checked Piece
  write_conditions first [] = ok ([], [])
  write_conditions first (c ∷ rest) = do
    fail_if (not (contains_field columns c.field)) invalid_plan
    quoted ← quote_identifier c.field.column
    (test, arguments) ← compile_condition c
    (text, more) ← write_conditions false rest
    ok (separator first (bytes " AND ") ++ quoted ++ test ++ text, arguments ++ more)

  unfoldable pub write_orderings : Bool → List Ordering → Checked GoString
  unfolding direction_text
  write_orderings first [] = ok []
  write_orderings first (o ∷ rest) = do
    fail_if (not (contains_field columns o.field)) invalid_plan
    quoted ← quote_identifier o.field.column
    direction ← direction_text o.direction
    text ← write_orderings false rest
    ok (separator first (bytes ", ") ++ quoted ++ direction ++ text)

-- A keyword before a list, if the list has elements.
abbrev pub clause {ℓ} : {A : Type ℓ} → GoString → List A → GoString
clause keyword [] = []
clause keyword (_ ∷ _) = keyword

abbrev pub limit_piece : Option ℤ → Piece
limit_piece none = ([], [])
limit_piece (some limit) = (bytes " LIMIT ?", Argument.integer limit ∷ [])

unfoldable pub compile : Plan → Checked Piece
unfolding is_nil
compile p = do
  fail_if (is_nil p.table) invalid_plan
  fail_if (is_nil p.columns) invalid_plan
  columns ← write_columns true p.columns
  table ← quote_identifier p.table
  (conditions, arguments) ← write_conditions p.columns true p.conditions
  orderings ← write_orderings p.columns true p.orderings
  let (limit, last) = limit_piece p.limit
  ok (
    bytes "SELECT "
        ++ columns
        ++ bytes " FROM "
        ++ table
        ++ (clause (bytes " WHERE ") p.conditions ++ conditions)
        ++ (clause (bytes " ORDER BY ") p.orderings ++ orderings)
        ++ limit,
    arguments ++ last,
  )
