-- ===== src/Orm/Examples.antt =====
-- A model of posts, with a key and a title, through the operations of managers and query sets.
use native.Mathlib.Decide.{ℕ_discrete}
use godj.Base.{
  ℕ, suc, ◌≡◌, refl, ◌⊎◌, inr, Bool, true, false, GoString, string_eq, GoString-discrete, bytes,
  List, [], ◌∷◌, ◌++◌, Option, none, some, ◌==◌, if◌then◌else◌, elem, find, keep, is_nil, any, ℤ,
  pos, Outcome, ok,
}
use godj.Base.Int.{ℤ-discrete}
use godj.Ir as Ir
use godj.Query.{
  Value, integer_value, string_value, Assignment, Failure, FieldRef-discrete, FieldKind-discrete,
  ValueKind-discrete, Value-discrete, InsertPlan, UpdatePlan, Condition, with_conditions,
}
use godj.Sqlite.Identifiers.{quote_identifier, replace_all}
use godj.Sqlite.Compiler.{compile, Piece, write_columns, write_conditions, write_orderings}
use godj.Orm.{
  reference_kind, field_reference, new_assignment, mutation_field, kind_matches,
  mutation_value_matches, Descriptor, Call, only_auto, auto_primary_key,
}
use godj.Orm.Rows.{Row, overwrite, Distinct, Nodup-Distinct, Holds}
use godj.Orm.Tables.{Table, table_backend, empty_row}
use godj.Orm.Dynamic.{
  Raw, LookupInput, split_from, join_from, split_lookup, lookup_of, supported_lookup, raw_value,
  dynamic_value, allows, parse_input, parse_inputs, parse_dynamic,
}
use godj.Orm.Dynamic.Keys.{has_separator, split_lookup-joined}
use godj.Orm.Dynamic.Compiled.{plan_of_model, parse_dynamic-compile}
use godj.Orm.Fields.{
  string_field, expects_kind, field_matches, new_field, icontains, has_method, lookup_of_test,
  value_of_test, predicate,
}
use godj.Orm.Fields.Parsed.{predicate-parsed}
use godj.Orm.QuerySets.{QuerySet, validate_terminal, open_rows, opened, using}
use godj.Orm.QuerySets.Terminals.{finish, scan_loop, scan_all, evaluated, all_values}
use godj.Orm.QuerySets.Warm.{limited, serve, SameAnswers, all_values-SameAnswers}
use godj.Orm.Evaluations.{
  Caller, returned, scanning, waiting, Evaluation, new_evaluation, become, Step, Reachable,
}
use godj.Orm.Evaluations.Sound.{Reachable-shared, Reachable-kept}
use godj.Orm.Writes.{
  MutationKind, Built, validate_assignment, validate_assignments, require_all, require_unchanged,
  validate_create, validate_patch, checked_key, plan_create, plan_patch,
}
use godj.Orm.Writes.Applied.{plan_create-Holds, plan_patch-Holds}
use godj.Orm.Save.{
  OptionState, no_options, apply_all, resolve_save_fields, non_primary_fields, save_assignment,
  save_assignments, keyed_plan, SavePlan, plan_of_key, plan_of_options, build_save_execution_plan,
  save_configured,
}
use godj.Orm.Save.Upsert.{Saved, save_configured-Upserted}

abbrev id : Ir.Field
id = record {
  name = bytes "id";
  go_name = bytes "ID";
  column = bytes "id";
  kind = Ir.FieldKind.auto;
  primary_key = true;
  nullable = false;
  max_length = pos 0;
  scalar_default = none;
}

abbrev title : Ir.Field
title = record {
  name = bytes "title";
  go_name = bytes "Title";
  column = bytes "title";
  kind = Ir.FieldKind.char;
  primary_key = false;
  nullable = false;
  max_length = pos 100;
  scalar_default = none;
}

abbrev post_model : Ir.Model
post_model = record {
  name = bytes "post";
  go_name = bytes "Post";
  db_table = bytes "post";
  fields = id ∷ title ∷ [];
}

record Post : Type 0 where
  id : ℤ
  has_id : Bool
  title : GoString

unfoldable title_of : Post → Ir.Field → Option Value
title_of post field = if field.name == bytes "title" then some (string_value post.title) else none

abbrev post_descriptor : Descriptor Post
post_descriptor = record {
  metadata = post_model;
  primary_key = λ post. (integer_value post.id, post.has_id);
  set_primary_key = λ post n. record post { id = n; has_id = true };
  clear_primary_key = λ post. record post { id = pos 0; has_id = false };
  clone_write_model = λ post. post;
  write_field_value = title_of;
}

abbrev first_post : Post
first_post = record { id = pos 7; has_id = true; title = bytes "hello" }

abbrev second_post : Post
second_post = record { id = pos 7; has_id = true; title = bytes "bye" }

post_fields-Distinct : Distinct post_model.fields
unfolding elem GoString-discrete ℕ_discrete
post_fields-Distinct = Nodup-Distinct post_model.fields (refl, (refl, tt))

split_lookup-joined_example :
    split_lookup (bytes "title" ++ bytes "__" ++ bytes "icontains")
    ≡ (bytes "title", bytes "icontains")
unfolding has_separator ℕ_discrete
split_lookup-joined_example = split_lookup-joined (bytes "title") (bytes "icontains") refl

predicate-parsed_example :
    parse_input post_model none (record {
      key = bytes "title" ++ bytes "__" ++ bytes "icontains";
      value = Raw.string (bytes "x");
    })
    ≡ ok (predicate (new_field string_field title) (icontains (bytes "x"))).condition
unfolding new_field field_matches expects_kind has_method lookup_of_test is_nil find has_separator
    GoString-discrete ℕ_discrete
predicate-parsed_example =
    predicate-parsed string_field post_model title (icontains (bytes "x")) refl refl refl refl

abbrev two_rows : List GoString
two_rows = bytes "a" ∷ bytes "b" ∷ []

abbrev scan_row : GoString → Failure ⊎ GoString
scan_row row = inr row

abbrev all_posts : QuerySet
all_posts = using (some post_model)

all_values-SameAnswers_example :
    (some two_rows ≡ some two_rows)
    × SameAnswers scan_row (λ m. m) none 99 (λ m. refl) two_rows all_posts (some two_rows) none
unfolding using all_values validate_terminal serve limited open_rows opened scan_all scan_loop
    finish evaluated
all_values-SameAnswers_example =
    all_values-SameAnswers scan_row (λ m. m) none 99 (λ m. refl) two_rows all_posts two_rows
      (some two_rows) refl refl

abbrev started : Evaluation GoString
started = record {
  values = none;
  flight = some (0, 1);
  started = 1;
  finished = λ f. none;
  callers = become 1 (scanning 0) λ i. Caller.looping;
}

started-Reachable : Reachable (λ failure. false) started
unfolding new_evaluation
started-Reachable = Reachable.next Reachable.start (Step.claim 1 refl refl refl)

Reachable-shared_example :
    ((i j f g : ℕ) → started.callers i ≡ scanning f → started.callers j ≡ scanning g → i ≡ j)
    × ((i j : ℕ) (values others : List GoString)
        → started.callers i ≡ returned values
        → started.callers j ≡ returned others
        → values ≡ others)
    × ((i f : ℕ)
        → started.callers i ≡ waiting f
        → ((o : ℕ) × (started.callers o ≡ scanning f))
          ⊎ ((e : Option Failure) × (started.finished f ≡ some e)))
Reachable-shared_example = Reachable-shared (λ failure. false) started started-Reachable

abbrev filled : Evaluation GoString
filled = record {
  values = some two_rows;
  flight = none;
  started = 1;
  finished = become 0 (some none) λ f. none;
  callers = become 1 (returned two_rows) (become 1 (scanning 0) λ i. Caller.looping);
}

filled-Reachable : Reachable (λ failure. false) filled
unfolding become ℕ_discrete
filled-Reachable = Reachable.next started-Reachable (Step.succeed 1 0 two_rows refl)

abbrev answered : Evaluation GoString
answered = record filled { callers = become 2 (returned two_rows) filled.callers }

Reachable-kept_example : (answered.values ≡ some two_rows) × (answered.started ≡ filled.started)
unfolding become ℕ_discrete
Reachable-kept_example =
    Reachable-kept (λ failure. false) filled answered two_rows filled-Reachable refl
      (Step.hit 2 two_rows refl refl)

abbrev title_assignment : GoString → Assignment
title_assignment text = new_assignment title (string_value text)

abbrev created : Built Post
created = record {
  kind = MutationKind.mutation_create;
  table = bytes "post";
  assignments = title_assignment (bytes "hello") ∷ [];
  value = first_post;
}

abbrev created_plan : InsertPlan
created_plan = record { table = bytes "post"; assignments = title_assignment (bytes "hello") ∷ [] }

plan_create-Holds_example :
    Holds post_descriptor first_post (overwrite created_plan.assignments empty_row)
unfolding plan_create validate_create validate_assignments validate_assignment require_all
    mutation_field find field_reference reference_kind mutation_value_matches kind_matches title_of
    elem FieldRef-discrete FieldKind-discrete Value-discrete ValueKind-discrete ℤ-discrete
    GoString-discrete ℕ_discrete
plan_create-Holds_example =
    plan_create-Holds post_descriptor (some (ok created)) created_plan first_post empty_row
      post_fields-Distinct refl

abbrev patched : Built Post
patched = record {
  kind = MutationKind.mutation_patch;
  table = bytes "post";
  assignments = title_assignment (bytes "bye") ∷ [];
  value = second_post;
}

abbrev patched_plan : UpdatePlan
patched_plan = record {
  table = bytes "post";
  assignments = title_assignment (bytes "bye") ∷ [];
  key_field = field_reference id;
  key_value = integer_value (pos 7);
}

abbrev first_row : Row
first_row = overwrite created_plan.assignments empty_row

first_row-Holds : Holds post_descriptor first_post first_row
unfolding plan_create validate_create validate_assignments validate_assignment require_all
    mutation_field find field_reference reference_kind mutation_value_matches kind_matches title_of
    elem FieldRef-discrete FieldKind-discrete Value-discrete ValueKind-discrete ℤ-discrete
    GoString-discrete ℕ_discrete
first_row-Holds =
    plan_create-Holds post_descriptor (some (ok created)) created_plan first_post empty_row
      post_fields-Distinct refl

plan_patch-Holds_example :
    (patched_plan.key_value ≡ (post_descriptor.primary_key first_post).0)
    × (post_descriptor.primary_key second_post ≡ (patched_plan.key_value, true))
    × Holds post_descriptor second_post (overwrite patched_plan.assignments first_row)
unfolding plan_patch checked_key validate_patch validate_assignments validate_assignment
    require_unchanged mutation_field find is_nil field_reference reference_kind
    mutation_value_matches kind_matches title_of elem FieldRef-discrete FieldKind-discrete
    Value-discrete ValueKind-discrete ℤ-discrete GoString-discrete ℕ_discrete
plan_patch-Holds_example =
    plan_patch-Holds post_descriptor id first_post (some (λ post. ok patched)) patched_plan
      second_post first_row post_fields-Distinct refl first_row-Holds

abbrev force_update_state : OptionState
force_update_state = record no_options { force_update = true }

-- A backend that counts its calls and changes one row with each.
abbrev counting : Call → ℕ → Outcome Failure ℤ × ℕ
counting call n = (ok (pos 1), suc n)

abbrev post_plan : SavePlan
post_plan =
    keyed_plan post_descriptor no_options id (integer_value (pos 7))
      (title_assignment (bytes "hello") ∷ [])

abbrev no_posts : Table
no_posts key = none

abbrev first_key : Table → ℤ
first_key table = pos 1

post_plan-built : build_save_execution_plan post_descriptor id first_post [] ≡ ok post_plan
unfolding build_save_execution_plan apply_all plan_of_options plan_of_key resolve_save_fields
    save_assignments save_assignment non_primary_fields keep mutation_value_matches kind_matches
    title_of ValueKind-discrete ℤ-discrete GoString-discrete ℕ_discrete
post_plan-built = refl

id_unique : auto_primary_key post_descriptor.metadata ≡ some id
unfolding auto_primary_key only_auto keep
id_unique = refl

save_configured-Upserted_example :
    Saved post_descriptor first_post (integer_value (pos 7)) first_post no_posts (
      save_configured post_descriptor
        (table_backend (field_reference id) first_key)
        id
        first_post
        []
        no_posts)
save_configured-Upserted_example =
    save_configured-Upserted post_descriptor first_post (integer_value (pos 7)) post_fields-Distinct
      id id_unique first_key no_posts post_plan refl post_plan-built

abbrev title_condition : Condition
title_condition = (predicate (new_field string_field title) (icontains (bytes "x"))).condition

abbrev input : LookupInput
input = record { key = bytes "title__icontains"; value = Raw.string (bytes "x") }

parse_dynamic-compile_example :
    (piece : Piece) × (compile (with_conditions (title_condition ∷ []) (plan_of_model post_model))
      ≡ ok piece)
unfolding compile write_columns write_conditions write_orderings quote_identifier replace_all
    parse_dynamic parse_inputs parse_input split_lookup split_from join_from lookup_of
    supported_lookup dynamic_value raw_value allows find is_nil elem any predicate new_field
    field_matches expects_kind lookup_of_test value_of_test field_reference reference_kind
    GoString-discrete ℕ_discrete
parse_dynamic-compile_example =
    parse_dynamic-compile post_model none (input ∷ []) (title_condition ∷ [])
      (bytes "SELECT \"id\", \"title\" FROM \"post\"", []) refl refl
