-- ===== src/Orm/Dynamic/Compiled.antt =====
-- A parsed lookup against what Compile accepts.
use native.Mathlib.Decide.{ℕ_discrete}
use mathlib.Core.Path.{subst}
use godj.Base.{
  ◌≡◌, refl, ap, GoString, bytes, string_eq, nat_eq, Bool, true, false, not, List, [], ◌∷◌, ◌++◌,
  map, Option, none, some, inl, inr, Bool-cases, ◌==◌, ==_refl, any, is_nil, find, ok, fail_if,
  >>=-eq-ok, >>-eq-ok, ok-injective, arith,
}
use godj.Ir as Ir
use godj.Query.{
  FieldKind, FieldRef, field_ref_eq, field_kind_eq, FieldKind-discrete, Value, as_string,
  as_boolean, Argument, database_value, Lookup, Condition, Plan, new_plan, with_conditions,
}
use godj.Sqlite.Identifiers.{quote_identifier, escape_like, invalid_plan}
use godj.Sqlite.Compiler.{
  Piece, contains_field, value_matches_field, compile_icontains, compile_isnull, compile_lookup,
  compile_condition, write_columns, write_conditions, write_orderings, separator, clause, compile,
}
use godj.Orm.{reference_kind, field_reference, require}
use godj.Orm.Dynamic.{
  Raw, LookupInput, LookupPolicy, supported_lookup, lookup_of, split_lookup, raw_value, as_bool,
  is_char, dynamic_value, allows, parse_input, parse_inputs, parse_dynamic,
}

pub require-eq-ok :
    {A : Type 0} (failure : _) (o : Option A) (a : A) → require failure o ≡ ok a → o ≡ some a
require-eq-ok failure none a h = cc
require-eq-ok failure (some b) a h = ap some (ok-injective h)

some-injective : {A : Type 0} {a b : A} → ◌≡◌ {A = Option A} (some a) (some b) → a ≡ b
some-injective h = cc

abbrev Matches : Ir.FieldKind → Value → Type 0
Matches kind v =
    (value_matches_field v.kind (reference_kind kind) ≡ true)
    × (argument : Argument) × (database_value v ≡ ok argument)

raw_value-Matches :
    (kind : Ir.FieldKind) (raw : Raw) (v : Value) → raw_value kind raw ≡ some v → Matches kind v
unfolding raw_value value_matches_field reference_kind database_value
raw_value-Matches Ir.FieldKind.auto (Raw.int n) v h =
    subst (Matches Ir.FieldKind.auto) (some-injective h) (refl, Argument.integer n, refl)
raw_value-Matches Ir.FieldKind.auto (Raw.int64 n) v h =
    subst (Matches Ir.FieldKind.auto) (some-injective h) (refl, Argument.integer n, refl)
raw_value-Matches Ir.FieldKind.auto (Raw.string t) v h = cc
raw_value-Matches Ir.FieldKind.auto (Raw.bool b) v h = cc
raw_value-Matches Ir.FieldKind.auto (Raw.other k) v h = cc
raw_value-Matches Ir.FieldKind.char (Raw.int n) v h = cc
raw_value-Matches Ir.FieldKind.char (Raw.int64 n) v h = cc
raw_value-Matches Ir.FieldKind.char (Raw.string t) v h =
    subst (Matches Ir.FieldKind.char) (some-injective h) (refl, Argument.text t, refl)
raw_value-Matches Ir.FieldKind.char (Raw.bool b) v h = cc
raw_value-Matches Ir.FieldKind.char (Raw.other k) v h = cc
raw_value-Matches Ir.FieldKind.boolean (Raw.int n) v h = cc
raw_value-Matches Ir.FieldKind.boolean (Raw.int64 n) v h = cc
raw_value-Matches Ir.FieldKind.boolean (Raw.string t) v h = cc
raw_value-Matches Ir.FieldKind.boolean (Raw.bool b) v h =
    subst (Matches Ir.FieldKind.boolean) (some-injective h) (refl, Argument.boolean b, refl)
raw_value-Matches Ir.FieldKind.boolean (Raw.other k) v h = cc
raw_value-Matches (Ir.FieldKind.unknown name) raw v h = cc

raw_value-string :
    (kind : Ir.FieldKind) (raw : Raw) (v : Value)
    → is_char kind ≡ true
    → raw_value kind raw ≡ some v
    → (reference_kind kind ≡ FieldKind.string) × (text : GoString) × (as_string v ≡ some text)
unfolding raw_value reference_kind
raw_value-string Ir.FieldKind.char (Raw.string t) v c h =
    (refl, t, subst (λ (w : Value). as_string w ≡ some t) (some-injective h) refl)
raw_value-string Ir.FieldKind.char (Raw.int n) v c h = cc
raw_value-string Ir.FieldKind.char (Raw.int64 n) v c h = cc
raw_value-string Ir.FieldKind.char (Raw.bool b) v c h = cc
raw_value-string Ir.FieldKind.char (Raw.other k) v c h = cc
raw_value-string Ir.FieldKind.auto raw v c h = cc
raw_value-string Ir.FieldKind.boolean raw v c h = cc
raw_value-string (Ir.FieldKind.unknown name) raw v c h = cc

as_bool-boolean :
    (raw : Raw) (v : Value) → as_bool raw ≡ some v → (b : Bool) × (as_boolean v ≡ some b)
as_bool-boolean (Raw.bool b) v h =
    (b, subst (λ (w : Value). as_boolean w ≡ some b) (some-injective h) refl)
as_bool-boolean (Raw.int n) v h = cc
as_bool-boolean (Raw.int64 n) v h = cc
as_bool-boolean (Raw.string t) v h = cc
as_bool-boolean (Raw.other k) v h = cc

-- The condition that a parsed lookup gives.
abbrev pub parsed : Ir.Field → Lookup → Value → Condition
parsed field lookup value = record { field = field_reference field; lookup = lookup; value = value }

abbrev Compiles : Ir.Field → Value → Lookup → Type 0
Compiles field v lookup = (piece : Piece) × (compile_condition (parsed field lookup v) ≡ ok piece)

isnull-compiles :
    (c : Condition) (tested : Option Bool) (b : Bool)
    → tested ≡ some b
    → (piece : Piece) × (compile_isnull c tested ≡ ok piece)
unfolding compile_isnull
isnull-compiles c none b e = cc
isnull-compiles c (some true) b e = (_, refl)
isnull-compiles c (some false) b e = (_, refl)

test-Compiles :
    (field : Ir.Field) (asked lookup : Lookup) (raw : Raw) (v : Value)
    → supported_lookup field asked ≡ some lookup
    → dynamic_value field lookup raw ≡ ok v
    → Compiles field v lookup
unfolding supported_lookup dynamic_value compile_condition compile_lookup compile_icontains
    field_reference FieldKind-discrete ℕ_discrete
test-Compiles field Lookup.exact lookup raw v h k =
    let same : Lookup.exact ≡ lookup = some-injective h in
    let read = require-eq-ok _ _ v (rw (← same) at k) in
    let (fits, argument, valued) = raw_value-Matches field.kind raw v read in
    subst (Compiles field v) same ((bytes " = ?", argument ∷ []), rw (fits, valued) refl)
test-Compiles field Lookup.isnull lookup raw v h k =
    let same : Lookup.isnull ≡ lookup = some-injective h in
    let read = require-eq-ok _ _ v (rw (← same) at k) in
    let (b, tested) = as_bool-boolean raw v read in
    subst (Compiles field v) same
      (isnull-compiles (parsed field Lookup.isnull v) (as_boolean v) b tested)
test-Compiles field Lookup.icontains lookup raw v h k = elim (Bool-cases (is_char field.kind)) [
  | inl char ↦
      let same : Lookup.icontains ≡ lookup = some-injective (rw char at h) in
      let read = require-eq-ok _ _ v (rw (← same) at k) in
      let (string, text, has_text) = raw_value-string field.kind raw v char read in
      subst (Compiles field v) same (
        (
          bytes " LIKE ? ESCAPE '\\'",
          Argument.text (bytes "%" ++ escape_like text ++ bytes "%") ∷ [],
        ),
        rw (string, has_text) refl,
      )
  | inr other ↦ cc
]
test-Compiles field (Lookup.unknown name) lookup raw v h k = cc

-- What makes a condition pass: a column of the plan, with a name that can be quoted, and a test.
abbrev pub Ready : List FieldRef → Condition → Type 0
Ready columns c =
    (contains_field columns c.field ≡ true)
    × ((q : GoString) × (quote_identifier c.field.column ≡ ok q))
    × ((piece : Piece) × (compile_condition c ≡ ok piece))

abbrev pub references : List Ir.Field → List FieldRef
references = map field_reference

found-column :
    (first : Bool) (fields : List Ir.Field) (text : GoString) (test : Ir.Field → Bool)
    (field : Ir.Field)
    → write_columns first (references fields) ≡ ok text
    → find test fields ≡ some field
    → (contains_field (references fields) (field_reference field) ≡ true)
      × (q : GoString) × (quote_identifier field.column ≡ ok q)
unfolding write_columns contains_field any find field_reference
found-column first [] text test field h k = cc
found-column first (f ∷ fields) text test field h k =
    let (q, quoted, h1) = >>=-eq-ok (quote_identifier f.column) _ h in
    let (rest, wrote, h2) = >>=-eq-ok (write_columns false (references fields)) _ h1 in
    elim (Bool-cases (test f)) [
      | inl here ↦
          let same : f ≡ field = some-injective (rw here at k) in
          subst
            (λ (g : Ir.Field).
              (contains_field (references (f ∷ fields)) (field_reference g) ≡ true)
              × (q : GoString) × (quote_identifier g.column ≡ ok q))
            same (rw (==_refl (field_reference f)) refl, q, quoted)
      | inr later ↦
          let (contained, q', quoting) =
            found-column false fields rest test field wrote (rw later at k) in
          (ground (arith, contained), q', quoting)
    ]

input-Ready :
    (metadata : Ir.Model) (policy : LookupPolicy) (input : LookupInput) (c : Condition)
    (text : GoString)
    → write_columns true (references metadata.fields) ≡ ok text
    → parse_input metadata policy input ≡ ok c
    → Ready (references metadata.fields) c
unfolding parse_input field_reference
input-Ready metadata policy input c text wrote h =
    let named = λ (f : Ir.Field). f.name == (split_lookup input.key).0 in
    let asked = lookup_of (split_lookup input.key).1 in
    let (field, found, h1) = >>=-eq-ok (require _ (find named metadata.fields)) _ h in
    let (lookup, supported, h2) = >>=-eq-ok (require _ (supported_lookup field asked)) _ h1 in
    let (_, h3) = >>-eq-ok (fail_if (not (allows policy field lookup)) _) _ h2 in
    let (v, valued, h4) = >>=-eq-ok (dynamic_value field lookup input.value) _ h3 in
    let (contained, q, quoted) =
      found-column true metadata.fields text named field wrote
        (require-eq-ok _ (find named metadata.fields) field found) in
    let tested =
      test-Compiles field asked lookup input.value v
        (require-eq-ok _ (supported_lookup field asked) lookup supported) valued in
    subst (Ready (references metadata.fields)) (ok-injective h4) (contained, (q, quoted), tested)

inputs-compile :
    (metadata : Ir.Model) (policy : LookupPolicy) (inputs : List LookupInput)
    (conditions : List Condition) (text : GoString) (first : Bool)
    → write_columns true (references metadata.fields) ≡ ok text
    → parse_inputs metadata policy inputs ≡ ok conditions
    → (piece : Piece) × (write_conditions (references metadata.fields) first conditions ≡ ok piece)
unfolding parse_inputs write_conditions
inputs-compile metadata policy [] conditions text first wrote h =
    let none_left : [] ≡ conditions = ok-injective h in rw (← none_left) (([], []), refl)
inputs-compile metadata policy (input ∷ inputs) conditions text first wrote h =
    let (c, parsed_c, h1) = >>=-eq-ok (parse_input metadata policy input) _ h in
    let (cs, parsed_cs, h2) = >>=-eq-ok (parse_inputs metadata policy inputs) _ h1 in
    let (contained, (q, quoted), ((test, arguments), tested)) =
      input-Ready metadata policy input c text wrote parsed_c in
    let ((rest, more), compiled) =
      inputs-compile metadata policy inputs cs text false wrote parsed_cs in
    subst
      (λ all_.
        (piece : Piece) × (write_conditions (references metadata.fields) first all_ ≡ ok piece))
      (ok-injective h2)
      (
        (separator first (bytes " AND ") ++ q ++ test ++ rest, arguments ++ more),
        rw (contained, quoted, tested, compiled) refl,
      )

-- Manager.Using: all rows of a model.
abbrev pub plan_of_model : Ir.Model → Plan
plan_of_model metadata = new_plan metadata.db_table (references metadata.fields)

-- The parts of a SELECT that compile, put together.
filtered-compiles :
    (metadata : Ir.Model) (conditions : List Condition) (columns table tests : GoString)
    (arguments : List Argument)
    → fail_if (is_nil metadata.db_table) invalid_plan ≡ ok tt
    → fail_if (is_nil (references metadata.fields)) invalid_plan ≡ ok tt
    → write_columns true (references metadata.fields) ≡ ok columns
    → quote_identifier metadata.db_table ≡ ok table
    → write_conditions (references metadata.fields) true conditions ≡ ok (tests, arguments)
    → (piece : Piece) × (compile (with_conditions conditions (plan_of_model metadata)) ≡ ok piece)
unfolding compile with_conditions write_orderings
filtered-compiles metadata conditions columns table tests arguments named filled wrote quoted
      compiled =
    (
      (
        bytes "SELECT "
            ++ columns
            ++ bytes " FROM "
            ++ table
            ++ (clause (bytes " WHERE ") conditions ++ tests)
            ++ ([] ++ [])
            ++ [],
        arguments ++ [],
      ),
      rw (named, filled, wrote, quoted, compiled) refl,
    )

-- Where the plan for all rows of a model compiles, adding the conditions of any dynamic lookups that
-- ParseDynamic accepts gives a plan that compiles too.
pub parse_dynamic-compile :
    (metadata : Ir.Model) (policy : LookupPolicy) (inputs : List LookupInput)
    (conditions : List Condition) (base : Piece)
    → compile (plan_of_model metadata) ≡ ok base
    → parse_dynamic (some metadata) policy inputs ≡ ok conditions
    → (piece : Piece) × (compile (with_conditions conditions (plan_of_model metadata)) ≡ ok piece)
unfolding parse_dynamic compile
parse_dynamic-compile metadata policy inputs conditions base h k =
    let (named, h1) = >>-eq-ok (fail_if (is_nil metadata.db_table) invalid_plan) _ h in
    let (filled, h2) = >>-eq-ok (fail_if (is_nil (references metadata.fields)) invalid_plan) _ h1 in
    let (columns, wrote, h3) = >>=-eq-ok (write_columns true (references metadata.fields)) _ h2 in
    let (table, quoted, h4) = >>=-eq-ok (quote_identifier metadata.db_table) _ h3 in
    let ((tests, arguments), compiled) =
      inputs-compile metadata policy inputs conditions columns true wrote k in
    filtered-compiles metadata conditions columns table tests arguments named filled wrote quoted
      compiled
