-- ===== src/Orm/Dynamic.antt =====
-- ParseDynamic of orm/dynamic.go: lookups written as text, checked against the metadata of a model.
pub mod Compiled
pub mod Keys
use godj.Base.{
  ℕ, GoString, string_eq, nat_eq, bytes, Bool, true, false, not, ◌&&◌, List, [], ◌∷◌, ◌++◌, Option,
  none, some, ◌==◌, if◌then◌else◌, ℤ, Outcome, ok, err, stuck, ◌>>=◌, ◌>>◌, fail_if, find,
}
use godj.Ir as Ir
use godj.Query.{
  Value, integer_value, string_value, boolean_value, Lookup, Condition, QueryError, Failure,
  reported, ErrorCategory, ErrorCode, Checked,
}
use godj.Sqlite.Compiler.{lookup_name}
use godj.Orm.{field_reference, invalid_write_plan, Descriptor, require}

-- A value of the type `any`: of a type that the parser takes, or of another.
pub data Raw : Type 0 where
  int int64 : ℤ → Raw
  string : GoString → Raw
  bool : Bool → Raw
  other : ℕ → Raw

pub record LookupInput : Type 0 where
  pub key : GoString
  pub value : Raw

-- `strings.Split(key, "__")`, from a part that is begun.
unfoldable pub split_from : GoString → GoString → GoString × List GoString
split_from part [] = (part, [])
split_from part (c ∷ []) = (part ++ c ∷ [], [])
split_from part (c ∷ d ∷ rest) = elim (c == b'_' && d == b'_') [
  | true ↦ let (next, parts) = split_from [] rest in (part, next ∷ parts)
  | false ↦ split_from (part ++ c ∷ []) (d ∷ rest)
]

-- `strings.Join(parts, "__")`, from a first part.
unfoldable pub join_from : GoString → List GoString → GoString
join_from part [] = part
join_from part (next ∷ parts) = part ++ bytes "__" ++ join_from next parts

unfoldable pub split_lookup : GoString → GoString × GoString
split_lookup key = elim (split_from [] key).1 [
  | [] ↦ (key, bytes "exact")
  | first ∷ parts ↦ ((split_from [] key).0, join_from first parts)
]

-- `query.Lookup(name)`: the names of the lookups, or another.
unfoldable pub lookup_of : GoString → Lookup
lookup_of name =
    if name == bytes "exact"
    then Lookup.exact
    else if name == bytes "isnull"
    then Lookup.isnull
    else if name == bytes "icontains"
    then Lookup.icontains
    else Lookup.unknown name

abbrev pub is_char : Ir.FieldKind → Bool
is_char Ir.FieldKind.char = true
is_char Ir.FieldKind.auto = false
is_char Ir.FieldKind.boolean = false
is_char (Ir.FieldKind.unknown _) = false

unfoldable pub supported_lookup : Ir.Field → Lookup → Option Lookup
supported_lookup field Lookup.exact = some Lookup.exact
supported_lookup field Lookup.isnull = some Lookup.isnull
supported_lookup field Lookup.icontains = if is_char field.kind then some Lookup.icontains else none
supported_lookup field (Lookup.unknown name) = none

abbrev pub lookup_error : ErrorCode → GoString → GoString → Failure
lookup_error code field lookup =
    reported (record { category = ErrorCategory.field; code = code; name = field; lookup = lookup })

abbrev pub as_bool : Raw → Option Value
as_bool (Raw.bool b) = some (boolean_value b)
as_bool (Raw.int n) = none
as_bool (Raw.int64 n) = none
as_bool (Raw.string s) = none
as_bool (Raw.other k) = none

unfoldable pub raw_value : Ir.FieldKind → Raw → Option Value
raw_value Ir.FieldKind.auto (Raw.int n) = some (integer_value n)
raw_value Ir.FieldKind.auto (Raw.int64 n) = some (integer_value n)
raw_value Ir.FieldKind.char (Raw.string s) = some (string_value s)
raw_value Ir.FieldKind.boolean (Raw.bool b) = some (boolean_value b)
raw_value _ _ = none

abbrev pub is_isnull : Lookup → Bool
is_isnull Lookup.isnull = true
is_isnull Lookup.exact = false
is_isnull Lookup.icontains = false
is_isnull (Lookup.unknown _) = false

unfoldable pub dynamic_value : Ir.Field → Lookup → Raw → Checked Value
dynamic_value field lookup raw =
    require (lookup_error ErrorCode.invalid_value field.name (lookup_name lookup))
      (if is_isnull lookup then as_bool raw else raw_value field.kind raw)

-- The policy: nil, or a test.
abbrev pub LookupPolicy : Type 0
LookupPolicy = Option (Ir.Field → Lookup → Bool)

unfoldable pub allows : LookupPolicy → Ir.Field → Lookup → Bool
allows none field lookup = true
allows (some policy) field lookup = policy field lookup

unfoldable pub parse_input : Ir.Model → LookupPolicy → LookupInput → Checked Condition
parse_input metadata policy input = do
  let field_name = (split_lookup input.key).0
  let name = (split_lookup input.key).1
  field ←
      require (lookup_error ErrorCode.unknown_field field_name [])
        (find (λ (f : Ir.Field). f.name == field_name) metadata.fields)
  lookup ←
      require (lookup_error ErrorCode.unsupported_lookup field.name name)
        (supported_lookup field (lookup_of name))
  fail_if (not (allows policy field lookup))
      (lookup_error ErrorCode.disallowed_lookup field.name (lookup_name lookup))
  value ← dynamic_value field lookup input.value
  ok (record { field = field_reference field; lookup = lookup; value = value })

unfoldable pub parse_inputs : Ir.Model → LookupPolicy → List LookupInput → Checked (List Condition)
parse_inputs metadata policy [] = ok []
parse_inputs metadata policy (input ∷ inputs) = do
  condition ← parse_input metadata policy input
  conditions ← parse_inputs metadata policy inputs
  ok (condition ∷ conditions)

-- `ParseDynamic`. The descriptor is nil or not.
unfoldable pub parse_dynamic :
    Option Ir.Model → LookupPolicy → List LookupInput → Checked (List Condition)
parse_dynamic descriptor policy inputs = do
  metadata ← require invalid_write_plan descriptor
  parse_inputs metadata policy inputs
