-- ===== src/Orm/Fields/Parsed.antt =====
-- The lookups of typed fields against those that are written as text.
use native.Mathlib.Decide.{ℕ_discrete}
use godj.Base.{
  ◌≡◌, refl, ap, ◌∙◌, GoString, string_eq, GoString-discrete, bytes, true, false, [], ◌++◌, none,
  some, ◌==◌, inl, inr, Bool-cases, if◌then◌else◌, find, arith, ok, ◌>>=◌,
}
use godj.Ir as Ir
use godj.Query.{FieldRef, Lookup, Condition, Checked, ErrorCode}
use godj.Sqlite.Compiler.{lookup_name}
use godj.Orm.{field_reference, reference_kind, require}
use godj.Orm.Dynamic.{
  Raw, lookup_of, supported_lookup, raw_value, dynamic_value, is_char, lookup_error, allows,
  parse_input,
}
use godj.Orm.Dynamic.Keys.{has_separator, split_lookup-joined}
use godj.Orm.Fields.{
  kind_of, FieldClass, integer_field, string_field, nullable_string_field, boolean_field,
  expects_kind, field_matches, new_field, Test, exact_integer, exact_string, exact_boolean,
  icontains, is_null, has_method, lookup_of_test, value_of_test, predicate,
}

-- The argument of a method as a value of any type.
abbrev pub raw_of : Test → Raw
raw_of (exact_integer n) = Raw.int64 n
raw_of (exact_string s) = Raw.string s
raw_of (exact_boolean b) = Raw.bool b
raw_of (icontains s) = Raw.string s
raw_of (is_null b) = Raw.bool b

lookup_of-name : (test : Test) → lookup_of (lookup_name (lookup_of_test test)) ≡ lookup_of_test test
unfolding lookup_of lookup_of_test GoString-discrete ℕ_discrete
lookup_of-name (exact_integer n) = refl
lookup_of-name (exact_string s) = refl
lookup_of-name (exact_boolean b) = refl
lookup_of-name (icontains s) = refl
lookup_of-name (is_null b) = refl

-- What a field of the right kind makes of a method's argument.
abbrev Taken : Ir.Field → Test → Type 0
Taken field test =
    (supported_lookup field (lookup_of_test test) ≡ some (lookup_of_test test))
    × (dynamic_value field (lookup_of_test test) (raw_of test) ≡ ok (value_of_test test))

abbrev expected : FieldClass → Ir.FieldKind
expected integer_field = Ir.FieldKind.auto
expected string_field = Ir.FieldKind.char
expected nullable_string_field = Ir.FieldKind.char
expected boolean_field = Ir.FieldKind.boolean

char_supported :
    (field : Ir.Field)
    → field.kind ≡ Ir.FieldKind.char
    → supported_lookup field Lookup.icontains ≡ some Lookup.icontains
unfolding supported_lookup
char_supported field e = ap (λ kind. if is_char kind then some Lookup.icontains else none) e

read_as :
    (field : Ir.Field) (lookup : Lookup) (raw : Raw) {kind : Ir.FieldKind}
    → field.kind ≡ kind
    → require
        (lookup_error ErrorCode.invalid_value field.name (lookup_name lookup))
        (raw_value field.kind raw)
      ≡ require
          (lookup_error ErrorCode.invalid_value field.name (lookup_name lookup))
          (raw_value kind raw)
read_as field lookup raw e =
    ap
      (λ k.
        require (lookup_error ErrorCode.invalid_value field.name (lookup_name lookup))
          (raw_value k raw))
      e

taken :
    (class : FieldClass) (field : Ir.Field) (test : Test)
    → field.kind ≡ expected class
    → has_method class test ≡ true
    → Taken field test
unfolding supported_lookup dynamic_value raw_value has_method lookup_of_test value_of_test
taken integer_field field (exact_integer n) e k = (refl, read_as field Lookup.exact (Raw.int64 n) e)
taken integer_field field (exact_string s) e k = cc
taken integer_field field (exact_boolean b) e k = cc
taken integer_field field (icontains s) e k = cc
taken integer_field field (is_null b) e k = (refl, refl)
taken string_field field (exact_integer n) e k = cc
taken string_field field (exact_string s) e k = (refl, read_as field Lookup.exact (Raw.string s) e)
taken string_field field (exact_boolean b) e k = cc
taken string_field field (icontains s) e k =
    (char_supported field e, read_as field Lookup.icontains (Raw.string s) e)
taken string_field field (is_null b) e k = (refl, refl)
taken nullable_string_field field (exact_integer n) e k = cc
taken nullable_string_field field (exact_string s) e k =
    (refl, read_as field Lookup.exact (Raw.string s) e)
taken nullable_string_field field (exact_boolean b) e k = cc
taken nullable_string_field field (icontains s) e k =
    (char_supported field e, read_as field Lookup.icontains (Raw.string s) e)
taken nullable_string_field field (is_null b) e k = (refl, refl)
taken boolean_field field (exact_integer n) e k = cc
taken boolean_field field (exact_string s) e k = cc
taken boolean_field field (exact_boolean b) e k = (refl, read_as field Lookup.exact (Raw.bool b) e)
taken boolean_field field (icontains s) e k = cc
taken boolean_field field (is_null b) e k = (refl, refl)

expects-eq :
    (class : FieldClass) (kind : Ir.FieldKind)
    → expects_kind class kind ≡ true
    → kind ≡ expected class
unfolding expects_kind
expects-eq integer_field Ir.FieldKind.auto h = refl
expects-eq integer_field Ir.FieldKind.char h = cc
expects-eq integer_field Ir.FieldKind.boolean h = cc
expects-eq integer_field (Ir.FieldKind.unknown name) h = cc
expects-eq string_field Ir.FieldKind.auto h = cc
expects-eq string_field Ir.FieldKind.char h = refl
expects-eq string_field Ir.FieldKind.boolean h = cc
expects-eq string_field (Ir.FieldKind.unknown name) h = cc
expects-eq nullable_string_field Ir.FieldKind.auto h = cc
expects-eq nullable_string_field Ir.FieldKind.char h = refl
expects-eq nullable_string_field Ir.FieldKind.boolean h = cc
expects-eq nullable_string_field (Ir.FieldKind.unknown name) h = cc
expects-eq boolean_field Ir.FieldKind.auto h = cc
expects-eq boolean_field Ir.FieldKind.char h = cc
expects-eq boolean_field Ir.FieldKind.boolean h = refl
expects-eq boolean_field (Ir.FieldKind.unknown name) h = cc

kinds-eq :
    (class : FieldClass) (kind : Ir.FieldKind)
    → kind ≡ expected class
    → reference_kind kind ≡ kind_of class
unfolding reference_kind
kinds-eq integer_field kind e = ap reference_kind e
kinds-eq string_field kind e = ap reference_kind e
kinds-eq nullable_string_field kind e = ap reference_kind e
kinds-eq boolean_field kind e = ap reference_kind e

reference-eq :
    (class : FieldClass) (field : Ir.Field)
    → field.kind ≡ expected class
    → field_reference field ≡ (new_field class field).reference
unfolding field_reference new_field
reference-eq class field e = λ i. record {
  name = field.name;
  column = field.column;
  kind = kinds-eq class field.kind e i;
  nullable = field.nullable;
}

made-kind :
    (class : FieldClass) (field : Ir.Field)
    → (new_field class field).failure ≡ none
    → field.kind ≡ expected class
unfolding new_field field_matches
made-kind class field h = elim (Bool-cases (field_matches class field)) [
  | inl matches ↦ expects-eq class field.kind (ground (arith, matches))
  | inr other ↦ cc
]

-- What `parse_input` does with the parts of a key.
abbrev parse_parts : Ir.Model → Raw → GoString × GoString → Checked Condition
parse_parts metadata raw (field_name, name) = do
  field ←
      require (lookup_error ErrorCode.unknown_field field_name [])
        (find (λ (f : Ir.Field). f.name == field_name) metadata.fields)
  lookup ←
      require (lookup_error ErrorCode.unsupported_lookup field.name name)
        (supported_lookup field (lookup_of name))
  value ← dynamic_value field lookup raw
  ok (record { field = field_reference field; lookup = lookup; value = value })

parts-eq :
    (metadata : Ir.Model) (field : Ir.Field) (test : Test) (reference : FieldRef)
    → find (λ (f : Ir.Field). f.name == field.name) metadata.fields ≡ some field
    → Taken field test
    → field_reference field ≡ reference
    → parse_parts metadata (raw_of test) (field.name, lookup_name (lookup_of_test test))
      ≡ ok (record { field = reference; lookup = lookup_of_test test; value = value_of_test test })
parts-eq metadata field test reference found (supported, valued) e =
    rw (found, lookup_of-name test, supported, valued, e) refl

-- A method of a typed field whose constructor accepted the field's metadata gives the condition that
-- ParseDynamic gives for the same lookup written as text, where the field is the one that its name finds
-- and the name holds no two underscores next to each other and ends in none.
pub predicate-parsed :
    (class : FieldClass) (metadata : Ir.Model) (field : Ir.Field) (test : Test)
    → (new_field class field).failure ≡ none
    → has_method class test ≡ true
    → find (λ (f : Ir.Field). f.name == field.name) metadata.fields ≡ some field
    → has_separator (field.name ++ bytes "_") ≡ false
    → parse_input metadata none (record {
      key = field.name ++ bytes "__" ++ lookup_name (lookup_of_test test);
      value = raw_of test;
    })
      ≡ ok (predicate (new_field class field) test).condition
unfolding parse_input predicate allows
predicate-parsed class metadata field test made method found plain =
    let kind = made-kind class field made in
    let lookup = lookup_name (lookup_of_test test) in
    ap (parse_parts metadata (raw_of test)) (split_lookup-joined field.name lookup plain)
    ∙ parts-eq metadata field test (new_field class field).reference found
        (taken class field test kind method) (reference-eq class field kind)
