-- ===== src/Sqlite/Examples.antt =====
-- Statements and patterns for a table of posts.
use native.Mathlib.Decide.{ℕ_discrete}
use godj.Base.{
  ◌≡◌, refl, bytes, false, List, [], ◌∷◌, ◌++◌, some, elem, is_nil, any, pos, length, GoString,
  GoString-discrete,
}
use godj.Query.{
  FieldKind, FieldRef, FieldRef-discrete, FieldKind-discrete, Lookup, OrderDirection, Plan,
  DeletePlan, Argument, integer_value, string_value, ValueKind-discrete, database_value,
}
use godj.Sqlite.Identifiers.{quote_identifier, replace_all, escape_like}
use godj.Sqlite.Compiler.{
  compile, contains_field, value_matches_field, compile_lookup, compile_condition, write_columns,
  write_conditions, direction_text, write_orderings,
}
use godj.Sqlite.Writes.{validate_write_value, compile_key, compile_delete}
use godj.Sqlite.Tokens.{tokens, holes}
use godj.Sqlite.Statements.{select_tokens}
use godj.Sqlite.Statements.Select.{compile-tokens}
use godj.Sqlite.Statements.Mutations.{delete_tokens, compile_delete-tokens}
use godj.Sqlite.Like.{like, parse_pattern, contains_text, escape_like-contains}

abbrev id : FieldRef
id = record { name = bytes "id"; column = bytes "id"; kind = FieldKind.integer; nullable = false }

abbrev title : FieldRef
title = record {
  name = bytes "title";
  column = bytes "ti\"tle";
  kind = FieldKind.string;
  nullable = false;
}

abbrev search_plan : Plan
search_plan = record {
  table = bytes "post";
  columns = id ∷ title ∷ [];
  conditions =
      record { field = title; lookup = Lookup.exact; value = string_value (bytes "a\"b") } ∷ [];
  orderings = record { field = id; direction = OrderDirection.descending } ∷ [];
  limit = some (pos 3);
}

abbrev search_text : GoString
search_text =
    bytes
      "SELECT \"id\", \"ti\"\"tle\" FROM \"post\" WHERE \"ti\"\"tle\" = ? ORDER BY \"id\" DESC LIMIT ?"

abbrev search_arguments : List Argument
search_arguments = Argument.text (bytes "a\"b") ∷ Argument.integer (pos 3) ∷ []

compile-tokens_example :
    (tokens search_text ≡ select_tokens search_plan)
    × (holes (tokens search_text) ≡ length search_arguments)
unfolding compile write_columns write_conditions write_orderings direction_text contains_field
    compile_condition compile_lookup value_matches_field database_value quote_identifier replace_all
    is_nil elem any FieldRef-discrete FieldKind-discrete GoString-discrete ℕ_discrete
compile-tokens_example = compile-tokens search_plan search_text search_arguments refl

abbrev removal : DeletePlan
removal = record { table = bytes "post"; key_field = id; key_value = integer_value (pos 7) }

abbrev removal_text : GoString
removal_text = bytes "DELETE FROM \"post\" WHERE \"id\" = ?"

compile_delete-tokens_example :
    (tokens removal_text ≡ delete_tokens removal)
    × (holes (tokens removal_text) ≡ length (Argument.integer (pos 7) ∷ []))
unfolding compile_delete compile_key validate_write_value value_matches_field database_value
    quote_identifier replace_all is_nil elem ValueKind-discrete ℕ_discrete
compile_delete-tokens_example =
    compile_delete-tokens removal removal_text (Argument.integer (pos 7) ∷ []) refl

escape_like-contains_example :
    like
      (parse_pattern false (bytes "%" ++ escape_like (bytes "50%") ++ bytes "%"))
      (bytes "50% off")
    ≡ contains_text (bytes "50%") (bytes "50% off")
escape_like-contains_example = escape_like-contains (bytes "50%") (bytes "50% off")
