-- ===== src/Query.antt =====
-- The package query: values, plans and errors that no database is part of (query/value.go, plan.go,
-- mutation.go and error.go). A plan is a value here, so the copies of slices are not needed.
use native.Mathlib.Decide.{ℕ_discrete}
use godj.Base.{
  ℕ, GoString, string_eq, Bool, false, List, [], ◌++◌, Option, none, some, Eq, ◌==◌, ℤ, pos, negsuc,
  Outcome, ok, err,
}
use godj.Base.Int.{ℤ-discrete}

-- The kinds are strings: any other string is `unknown`.
pub data FieldKind : Type 0 where
  integer string boolean : FieldKind
  unknown : GoString → FieldKind

pub data ValueKind : Type 0 where
  null integer string boolean : ValueKind
  unknown : GoString → ValueKind

pub data Lookup : Type 0 where
  exact icontains isnull : Lookup
  unknown : GoString → Lookup

pub data OrderDirection : Type 0 where
  ascending descending : OrderDirection
  unknown : GoString → OrderDirection

pub data ErrorCategory : Type 0 where
  field query backend argument model_state not_updated integrity : ErrorCategory

pub data ErrorCode : Type 0 where
  unknown_field unsupported_lookup disallowed_lookup invalid_value invalid_limit : ErrorCode
  invalid_index unordered_query invalid_plan required_field empty_patch : ErrorCode
  missing_primary_key unexpected_rows unsupported primary_key_update_field : ErrorCode
  force_update_without_primary_key force_update_missing_row update_fields_missing_row : ErrorCode
  mutually_exclusive_force_flags unique_primary_key : ErrorCode

-- `Error`, without its diagnostic text and cause.
pub record QueryError : Type 0 where
  pub category : ErrorCategory
  pub code : ErrorCode
  pub name : GoString
  pub lookup : GoString

-- An error of the package, or one from outside: of a context, a driver, or an implementation of an
-- interface, with a number that tells it from others.
pub data Failure : Type 0 where
  reported : QueryError → Failure
  foreign : ℕ → Failure

abbrev pub Checked {ℓ} : Type ℓ → Type ℓ
Checked A = Outcome Failure A

abbrev pub error_of : ErrorCategory → ErrorCode → GoString → Failure
error_of category code name =
    reported (record { category = category; code = code; name = name; lookup = [] })

pub record FieldRef : Type 0 where
  pub name : GoString
  pub column : GoString
  pub kind : FieldKind
  pub nullable : Bool

-- A tagged scalar. The fields that the kind does not name are zero in the values built below.
pub record Value : Type 0 where
  pub kind : ValueKind
  pub integer : ℤ
  pub text : GoString
  pub boolean : Bool

abbrev pub null_value : Value
null_value = record { kind = ValueKind.null; integer = pos 0; text = []; boolean = false }

abbrev pub integer_value : ℤ → Value
integer_value n = record null_value { kind = ValueKind.integer; integer = n }

abbrev pub string_value : GoString → Value
string_value s = record null_value { kind = ValueKind.string; text = s }

abbrev pub boolean_value : Bool → Value
boolean_value b = record null_value { kind = ValueKind.boolean; boolean = b }

unfoldable pub FieldKind-discrete : Discrete FieldKind
unfolding ℕ_discrete
FieldKind-discrete = hlevel ℕ_discrete

unfoldable pub FieldRef-discrete : Discrete FieldRef
unfolding FieldKind-discrete ℕ_discrete
FieldRef-discrete = hlevel (ℕ_discrete, FieldKind-discrete)

unfoldable pub ValueKind-discrete : Discrete ValueKind
unfolding ℕ_discrete
ValueKind-discrete = hlevel ℕ_discrete

unfoldable pub Value-discrete : Discrete Value
unfolding ValueKind-discrete ℕ_discrete ℤ-discrete
Value-discrete = hlevel (ℕ_discrete, ℤ-discrete, ValueKind-discrete)

instance abbrev pub field_kind_eq : Eq FieldKind
field_kind_eq = record { dec = FieldKind-discrete }

instance abbrev pub field_ref_eq : Eq FieldRef
field_ref_eq = record { dec = FieldRef-discrete }

instance abbrev pub value_kind_eq : Eq ValueKind
value_kind_eq = record { dec = ValueKind-discrete }

instance abbrev pub value_eq : Eq Value
value_eq = record { dec = Value-discrete }

abbrev pub is_null : Value → Bool
is_null v = v.kind == ValueKind.null

-- `Value.Integer`, `Value.String` and `Value.Boolean`: none where the flag is false.
abbrev pub as_integer : Value → Option ℤ
as_integer v = elim v.kind [ ValueKind.integer ↦ some v.integer | _ ↦ none ]

abbrev pub as_string : Value → Option GoString
as_string v = elim v.kind [ ValueKind.string ↦ some v.text | _ ↦ none ]

abbrev pub as_boolean : Value → Option Bool
as_boolean v = elim v.kind [ ValueKind.boolean ↦ some v.boolean | _ ↦ none ]

-- An argument of a statement, as the driver gets it.
pub data Argument : Type 0 where
  null : Argument
  integer : ℤ → Argument
  text : GoString → Argument
  boolean : Bool → Argument

-- `DatabaseValue`
unfoldable pub database_value : Value → Checked Argument
database_value v = elim v.kind [
  | ValueKind.null ↦ ok Argument.null
  | ValueKind.integer ↦ ok (Argument.integer v.integer)
  | ValueKind.string ↦ ok (Argument.text v.text)
  | ValueKind.boolean ↦ ok (Argument.boolean v.boolean)
  | ValueKind.unknown k ↦ err (error_of ErrorCategory.query ErrorCode.invalid_plan [])
]

pub record Condition : Type 0 where
  pub field : FieldRef
  pub lookup : Lookup
  pub value : Value

pub record Ordering : Type 0 where
  pub field : FieldRef
  pub direction : OrderDirection

-- `limit` is nil or a number.
pub record Plan : Type 0 where
  pub table : GoString
  pub columns : List FieldRef
  pub conditions : List Condition
  pub orderings : List Ordering
  pub limit : Option ℤ

abbrev pub new_plan : GoString → List FieldRef → Plan
new_plan table columns = record {
  table = table;
  columns = columns;
  conditions = [];
  orderings = [];
  limit = none;
}

unfoldable pub with_conditions : List Condition → Plan → Plan
with_conditions conditions p = record p { conditions = p.conditions ++ conditions }

unfoldable pub with_orderings : List Ordering → Plan → Plan
with_orderings orderings p = record p { orderings = orderings }

unfoldable pub with_limit : ℤ → Plan → Checked Plan
with_limit (negsuc n) p = err (error_of ErrorCategory.query ErrorCode.invalid_limit [])
with_limit (pos n) p = ok (record p { limit = some (pos n) })

pub record Assignment : Type 0 where
  pub field : FieldRef
  pub value : Value

pub record InsertPlan : Type 0 where
  pub table : GoString
  pub assignments : List Assignment

pub record UpdatePlan : Type 0 where
  pub table : GoString
  pub assignments : List Assignment
  pub key_field : FieldRef
  pub key_value : Value

pub record DeletePlan : Type 0 where
  pub table : GoString
  pub key_field : FieldRef
  pub key_value : Value
