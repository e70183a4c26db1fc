-- ===== src/Orm/Fields.antt =====
-- The typed fields of orm/field.go and the changes of orm/change.go. The Go types of fields are the
-- classes here, and a method with its argument is a lookup: `has_method` says which type has which.
pub mod Parsed
use godj.Base.{
  GoString, Bool, true, false, not, ◌||◌, ◌&&◌, Option, none, some, [], if◌then◌else◌, ℤ, is_nil,
}
use godj.Ir as Ir
use godj.Query.{
  FieldKind, FieldRef, Value, integer_value, string_value, boolean_value, Lookup, OrderDirection,
  ErrorCategory, ErrorCode, error_of,
}
use godj.Orm.QuerySets.{Predicate, FieldOrdering}
use godj.Orm.Save.{TypedField}

-- IntegerField, StringField, NullableStringField and BooleanField.
pub data FieldClass : Type 0 where
  integer_field string_field nullable_string_field boolean_field : FieldClass

abbrev pub kind_of : FieldClass → FieldKind
kind_of integer_field = FieldKind.integer
kind_of string_field = FieldKind.string
kind_of nullable_string_field = FieldKind.string
kind_of boolean_field = FieldKind.boolean

abbrev pub nullable_of : FieldClass → Bool
nullable_of integer_field = false
nullable_of string_field = false
nullable_of nullable_string_field = true
nullable_of boolean_field = false

unfoldable pub expects_kind : FieldClass → Ir.FieldKind → Bool
expects_kind integer_field Ir.FieldKind.auto = true
expects_kind string_field Ir.FieldKind.char = true
expects_kind nullable_string_field Ir.FieldKind.char = true
expects_kind boolean_field Ir.FieldKind.boolean = true
expects_kind _ _ = false

abbrev pub same_flag : Bool → Bool → Bool
same_flag true flag = flag
same_flag false flag = not flag

unfoldable pub field_matches : FieldClass → Ir.Field → Bool
field_matches class metadata =
    expects_kind class metadata.kind
    && same_flag metadata.nullable (nullable_of class)
    && not (is_nil metadata.name)
    && not (is_nil metadata.column)

-- `newField`, as the four constructors call it.
unfoldable pub new_field : FieldClass → Ir.Field → TypedField
new_field class metadata = record {
  reference = record {
    name = metadata.name;
    column = metadata.column;
    kind = kind_of class;
    nullable = metadata.nullable;
  };
  failure =
      if field_matches class metadata
      then none
      else some (error_of ErrorCategory.query ErrorCode.invalid_plan metadata.name);
}

-- Exact of the three kinds of value, IContains and IsNull.
pub data Test : Type 0 where
  exact_integer : ℤ → Test
  exact_string icontains : GoString → Test
  exact_boolean is_null : Bool → Test

unfoldable pub has_method : FieldClass → Test → Bool
has_method class (is_null b) = true
has_method integer_field (exact_integer n) = true
has_method string_field (exact_string s) = true
has_method string_field (icontains s) = true
has_method nullable_string_field (exact_string s) = true
has_method nullable_string_field (icontains s) = true
has_method boolean_field (exact_boolean b) = true
has_method _ _ = false

unfoldable pub lookup_of_test : Test → Lookup
lookup_of_test (exact_integer n) = Lookup.exact
lookup_of_test (exact_string s) = Lookup.exact
lookup_of_test (exact_boolean b) = Lookup.exact
lookup_of_test (icontains s) = Lookup.icontains
lookup_of_test (is_null b) = Lookup.isnull

unfoldable pub value_of_test : Test → Value
value_of_test (exact_integer n) = integer_value n
value_of_test (exact_string s) = string_value s
value_of_test (exact_boolean b) = boolean_value b
value_of_test (icontains s) = string_value s
value_of_test (is_null b) = boolean_value b

-- `field.predicate` and `field.ordering`
unfoldable pub predicate : TypedField → Test → Predicate
predicate typed test = record {
  condition = record {
    field = typed.reference;
    lookup = lookup_of_test test;
    value = value_of_test test;
  };
  failure = typed.failure;
}

unfoldable pub ordering : TypedField → OrderDirection → FieldOrdering
ordering typed direction = record {
  ordering = record { field = typed.reference; direction = direction };
  failure = typed.failure;
}

-- `Change`: omitted, or set to a value.
pub record Change (T : Type 0) : Type 0 where
  pub set : Bool
  pub value : T

abbrev pub set_value : {T : Type 0} → T → Change T
set_value value = record { set = true; value = value }

-- `NullableChange`: omitted, a value, or null.
pub data NullableChangeState : Type 0 where
  change_unset change_value change_null : NullableChangeState

pub record NullableChange (T : Type 0) : Type 0 where
  pub state : NullableChangeState
  pub value : T

abbrev pub set_nullable : {T : Type 0} → T → NullableChange T
set_nullable value = record { state = NullableChangeState.change_value; value = value }

abbrev pub set_null : {T : Type 0} → T → NullableChange T
set_null zero_value = record { state = NullableChangeState.change_null; value = zero_value }
