-- ===== src/Sqlite/Statements.antt =====
-- The SELECT statement of a plan as SQLite reads it: the tokens that the plan stands for.
pub mod Clauses
pub mod Select
pub mod Joined
pub mod Mutations
use mathlib.Core.Path.{subst}
use native.Mathlib.Decide.{ℕ_discrete}
use godj.Base.{
  ℕ, ◌+◌, ◌≡◌, refl, ap, ◌∙◌, GoString, bytes, Bool, true, false, not, List, [], ◌∷◌, ◌++◌, Option,
  none, some, ◌==◌, if◌then◌else◌, all, is_nil, ℤ, length, arith, Outcome, ok, err, stuck,
  >>=-eq-ok, >>-eq-ok, fail_if, ok-injective, length-append,
}
use godj.Query.{
  FieldKind, field_kind_eq, FieldRef, Value, as_string, as_boolean, Argument, database_value,
  Lookup, Condition, OrderDirection, Ordering, Plan,
}
use godj.Sqlite.Identifiers.{quote_identifier, invalid_plan, replace_all, escape_like}
use godj.Sqlite.Compiler.{
  Piece, separator, clause, limit_piece, value_matches_field, contains_field, compile_icontains,
  compile_isnull, compile_lookup, compile_condition, write_columns, write_conditions,
  direction_text, write_orderings, compile,
}
use godj.Sqlite.Tokens.{
  Token, quoted, symbol, placeholder, name, read, begin, tokens, words, holes, holes-append, fresh,
  is_quote, Says, Reads, words-Says, Says-Reads, Says-append, Reads-append, quote-Reads,
  quote_identifier-Reads,
}

-- The test of a condition, by its lookup.
abbrev pub isnull_tokens : Option Bool → List Token
isnull_tokens none = []
isnull_tokens (some true) = words (bytes " IS NULL")
isnull_tokens (some false) = words (bytes " IS NOT NULL")

abbrev pub test_tokens : Lookup → Value → List Token
test_tokens Lookup.exact v = words (bytes " = ?")
test_tokens Lookup.icontains v = words (bytes " LIKE ? ESCAPE ") ++ quoted b'\'' (bytes "\\") ∷ []
test_tokens Lookup.isnull v = isnull_tokens (as_boolean v)
test_tokens (Lookup.unknown k) v = []

unfoldable pub column_tokens : Bool → List FieldRef → List Token
column_tokens first [] = []
column_tokens first (column ∷ rest) =
    words (separator first (bytes ", ")) ++ name column.column ∷ [] ++ column_tokens false rest

unfoldable pub condition_tokens : Bool → List Condition → List Token
condition_tokens first [] = []
condition_tokens first (c ∷ rest) =
    words (separator first (bytes " AND "))
    ++ name c.field.column ∷ []
    ++ test_tokens c.lookup c.value
    ++ condition_tokens false rest

abbrev pub direction_tokens : OrderDirection → List Token
direction_tokens OrderDirection.ascending = words (bytes " ASC")
direction_tokens OrderDirection.descending = words (bytes " DESC")
direction_tokens (OrderDirection.unknown k) = []

unfoldable pub ordering_tokens : Bool → List Ordering → List Token
ordering_tokens first [] = []
ordering_tokens first (o ∷ rest) =
    words (separator first (bytes ", "))
    ++ name o.field.column ∷ []
    ++ direction_tokens o.direction
    ++ ordering_tokens false rest

abbrev pub limit_tokens : Option ℤ → List Token
limit_tokens none = []
limit_tokens (some limit) = words (bytes " LIMIT ?")

-- The statement that a plan stands for, independent of how names are quoted.
unfoldable pub select_tokens : Plan → List Token
unfolding column_tokens condition_tokens ordering_tokens
select_tokens p =
    words (bytes "SELECT ")
    ++ column_tokens true p.columns
    ++ words (bytes " FROM ")
    ++ name p.table ∷ []
    ++ (words (clause (bytes " WHERE ") p.conditions) ++ condition_tokens true p.conditions)
    ++ (words (clause (bytes " ORDER BY ") p.orderings) ++ ordering_tokens true p.orderings)
    ++ limit_tokens p.limit

pub separator-Says :
    (first : Bool) (s : GoString)
    → all (λ c. not (is_quote c)) s ≡ true
    → Says (separator first s) (words (separator first s))
unfolding all
separator-Says true s h = words-Says [] refl
separator-Says false s h = words-Says s h

pub clause-Says {ℓ} :
    {A : Type ℓ} (s : GoString) (xs : List A)
    → all (λ c. not (is_quote c)) s ≡ true
    → Says (clause s xs) (words (clause s xs))
unfolding all
clause-Says s [] h = words-Says [] refl
clause-Says s (x ∷ xs) h = words-Says s h

-- What is to be said of a piece of a condition: it opens with no quote.
pub record IsTest (text : GoString) (arguments : List Argument) (ts : List Token) : Type 0 where
  pub reads : Reads text ts
  pub opens : fresh text ≡ true
  pub counted : holes ts ≡ length arguments

pub plain :
    (s : GoString) (arguments : List Argument)
    → all (λ c. not (is_quote c)) s ≡ true
    → fresh s ≡ true
    → holes (words s) ≡ length arguments
    → IsTest s arguments (words s)
plain s arguments h f n = record {
  reads = Says-Reads s (words s) (words-Says s h);
  opens = f;
  counted = n;
}

icontains-IsTest :
    (c : Condition) (b : Bool) (o : Option GoString) (text : GoString) (arguments : List Argument)
    → compile_icontains c b o ≡ ok (text, arguments)
    → IsTest text arguments (test_tokens Lookup.icontains c.value)
unfolding compile_icontains all words holes replace_all ℕ_discrete
icontains-IsTest c true (some t) text arguments h =
    let e : bytes " LIKE ? ESCAPE '\\'" ≡ text = cc in
    let f : Argument.text (bytes "%" ++ escape_like t ++ bytes "%") ∷ [] ≡ arguments = cc in
    rw (← e, ← f)
      (record {
        reads =
            Says-append (bytes " LIKE ? ESCAPE ") (b'\'' ∷ b'\\' ∷ b'\'' ∷ [])
              (words (bytes " LIKE ? ESCAPE ")) (quoted b'\'' (bytes "\\") ∷ [])
              (words-Says (bytes " LIKE ? ESCAPE ") refl) (quote-Reads b'\'' refl (bytes "\\"));
        opens = refl;
        counted = refl;
      })
icontains-IsTest c true none text arguments h = cc
icontains-IsTest c false o text arguments h = cc

isnull-IsTest :
    (c : Condition) (o : Option Bool) (text : GoString) (arguments : List Argument)
    → compile_isnull c o ≡ ok (text, arguments)
    → IsTest text arguments (isnull_tokens o)
unfolding compile_isnull all words holes ℕ_discrete
isnull-IsTest c none text arguments h = cc
isnull-IsTest c (some true) text arguments h =
    let e : bytes " IS NULL" ≡ text = cc in
    let f : ◌≡◌ {A = List Argument} [] arguments = cc in
    rw (← e, ← f) (plain (bytes " IS NULL") [] refl refl refl)
isnull-IsTest c (some false) text arguments h =
    let e : bytes " IS NOT NULL" ≡ text = cc in
    let f : ◌≡◌ {A = List Argument} [] arguments = cc in
    rw (← e, ← f) (plain (bytes " IS NOT NULL") [] refl refl refl)

pub lookup-IsTest :
    (l : Lookup) (c : Condition) (text : GoString) (arguments : List Argument)
    → compile_lookup l c ≡ ok (text, arguments)
    → IsTest text arguments (test_tokens l c.value)
unfolding compile_lookup all words holes ℕ_discrete
lookup-IsTest Lookup.exact c text arguments h =
    let (_, more) =
      >>-eq-ok (fail_if (not (value_matches_field c.value.kind c.field.kind)) invalid_plan) _ h in
    let (argument, found, same) = >>=-eq-ok (database_value c.value) _ more in
    let e : bytes " = ?" ≡ text = cc in
    let f : argument ∷ [] ≡ arguments = cc in
    rw (← e, ← f) (plain (bytes " = ?") (argument ∷ []) refl refl refl)
lookup-IsTest Lookup.icontains c text arguments h =
    icontains-IsTest c (c.field.kind == FieldKind.string) (as_string c.value) text arguments h
lookup-IsTest Lookup.isnull c text arguments h =
    isnull-IsTest c (as_boolean c.value) text arguments h
lookup-IsTest (Lookup.unknown k) c text arguments h = cc

pub direction-Reads :
    (d : OrderDirection) (text : GoString)
    → direction_text d ≡ ok text
    → IsTest text [] (direction_tokens d)
unfolding direction_text words all holes ℕ_discrete
direction-Reads OrderDirection.ascending text h =
    let e : bytes " ASC" ≡ text = cc in rw (← e) (plain (bytes " ASC") [] refl refl refl)
direction-Reads OrderDirection.descending text h =
    let e : bytes " DESC" ≡ text = cc in rw (← e) (plain (bytes " DESC") [] refl refl refl)
direction-Reads (OrderDirection.unknown k) text h = cc
