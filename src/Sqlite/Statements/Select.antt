-- ===== src/Sqlite/Statements/Select.antt =====
-- The SELECT statement of a plan as SQLite reads it.
use mathlib.Core.Path.{sym}
use native.Mathlib.Decide.{ℕ_discrete}
use godj.Base.{
  ◌≡◌, refl, ap, ◌∙◌, GoString, bytes, Bool, true, false, List, [], ◌∷◌, ◌++◌, Option, none, some,
  all, is_nil, ℤ, length, arith, ok, >>=-eq-ok, >>-eq-ok, fail_if, ok-injective, length-append,
}
use godj.Query.{field_kind_eq, FieldRef, Argument, OrderDirection, Ordering, Plan}
use godj.Sqlite.Identifiers.{quote_identifier, invalid_plan}
use godj.Sqlite.Compiler.{
  Piece, separator, clause, limit_piece, write_columns, write_conditions, write_orderings, compile,
}
use godj.Sqlite.Tokens.{
  name, tokens, words, holes, holes-append, Reads, words-Says, Says-append, Reads-append,
  Reads-Says, Reads-tokens, quote_identifier-Reads,
}
use godj.Sqlite.Statements.{
  column_tokens, condition_tokens, ordering_tokens, direction_tokens, IsTest, select_tokens,
  limit_tokens, plain,
}
use godj.Sqlite.Statements.Clauses.{columns-Reads, conditions-Reads, where-Reads, order_by-Reads}

limit-IsTest :
    (limit : Option ℤ) → IsTest (limit_piece limit).0 (limit_piece limit).1 (limit_tokens limit)
unfolding words all holes ℕ_discrete
limit-IsTest none = record { reads = λ rest f. refl; opens = refl; counted = refl }
limit-IsTest (some n) = plain (bytes " LIMIT ?") (Argument.integer n ∷ []) refl refl refl

columns-holes : (first : Bool) (cs : List FieldRef) → holes (column_tokens first cs) ≡ 0
unfolding column_tokens holes words ℕ_discrete
columns-holes first [] = refl
columns-holes true (c ∷ cs) = columns-holes false cs
columns-holes false (c ∷ cs) = columns-holes false cs

separator-holes : (first : Bool) → holes (words (separator first (bytes ", "))) ≡ 0
unfolding holes words ℕ_discrete
separator-holes true = refl
separator-holes false = refl

direction-holes : (d : OrderDirection) → holes (direction_tokens d) ≡ 0
unfolding holes words ℕ_discrete
direction-holes OrderDirection.ascending = refl
direction-holes OrderDirection.descending = refl
direction-holes (OrderDirection.unknown k) = refl

orderings-holes : (first : Bool) (os : List Ordering) → holes (ordering_tokens first os) ≡ 0
unfolding ordering_tokens
orderings-holes first [] = unfold holes in refl
orderings-holes first (o ∷ os) =
    let ss = words (separator first (bytes ", ")) in
    let column = name o.field.column ∷ [] in
    let none_there : holes column ≡ 0 = unfold holes in refl in
    omega (
      arith,
      holes-append (ss ++ column ++ direction_tokens o.direction) (ordering_tokens false os),
      holes-append (ss ++ column) (direction_tokens o.direction),
      holes-append ss column,
      separator-holes first,
      direction-holes o.direction,
      orderings-holes false os,
    )

module _ {ℓ} {A : Type ℓ} where
  clause-holes :
      (xs : List A)
      → (holes (words (clause (bytes " WHERE ") xs)) ≡ 0)
        × (holes (words (clause (bytes " ORDER BY ") xs)) ≡ 0)
  unfolding holes words ℕ_discrete
  clause-holes [] = (refl, refl)
  clause-holes (x ∷ xs) = (refl, refl)

-- The placeholders of the statement are those of the conditions and of the limit.
select-holes :
    (p : Plan) (a b : List Argument)
    → holes (condition_tokens true p.conditions) ≡ length a
    → holes (limit_tokens p.limit) ≡ length b
    → holes (select_tokens p) ≡ length (a ++ b)
unfolding select_tokens
select-holes p a b h k =
    let select = words (bytes "SELECT ") in
    let columns = column_tokens true p.columns in
    let from = words (bytes " FROM ") in
    let table = name p.table ∷ [] in
    let where_ = words (clause (bytes " WHERE ") p.conditions) in
    let conditions = condition_tokens true p.conditions in
    let order_by = words (clause (bytes " ORDER BY ") p.orderings) in
    let orderings = ordering_tokens true p.orderings in
    let all_before = select ++ columns ++ from ++ table in
    let e : (holes select ≡ 0) × (holes from ≡ 0) × (holes table ≡ 0) =
      unfold holes words ℕ_discrete in (refl, refl, refl) in
    omega (
      arith,
      holes-append (all_before ++ (where_ ++ conditions) ++ (order_by ++ orderings))
          (limit_tokens p.limit),
      holes-append (all_before ++ (where_ ++ conditions)) (order_by ++ orderings),
      holes-append order_by orderings,
      holes-append all_before (where_ ++ conditions),
      holes-append where_ conditions,
      holes-append (select ++ columns ++ from) table,
      holes-append (select ++ columns) from,
      holes-append select columns,
      columns-holes true p.columns,
      orderings-holes true p.orderings,
      clause-holes p.conditions,
      clause-holes p.orderings,
      length-append a b,
    )

module _ (p : Plan) (columns table text orderings : GoString) (arguments : List Argument)
    (read_columns : write_columns true p.columns ≡ ok columns)
    (read_table : quote_identifier p.table ≡ ok table)
    (read_conditions : write_conditions p.columns true p.conditions ≡ ok (text, arguments))
    (read_orderings : write_orderings p.columns true p.orderings ≡ ok orderings) where
  -- The whole text, piece by piece.
  assembled :
      Reads
        (bytes "SELECT "
          ++ columns
          ++ bytes " FROM "
          ++ table
          ++ (clause (bytes " WHERE ") p.conditions ++ text)
          ++ (clause (bytes " ORDER BY ") p.orderings ++ orderings)
          ++ (limit_piece p.limit).0)
        (select_tokens p)
  unfolding select_tokens all ℕ_discrete
  assembled =
      let select = bytes "SELECT " in
      let from = bytes " FROM " in
      let (wheres, where_opens) =
        where-Reads p.columns p.conditions text arguments read_conditions in
      let (orders, order_opens) = order_by-Reads p.columns p.orderings orderings read_orderings in
      let limit = limit-IsTest p.limit in
      let w = clause (bytes " WHERE ") p.conditions ++ text in
      let o = clause (bytes " ORDER BY ") p.orderings ++ orderings in
      let started =
        Says-append select columns (words select) (column_tokens true p.columns)
          (words-Says select refl) (columns-Reads true p.columns columns read_columns) in
      let fromed =
        Reads-Says (select ++ columns) b' ' (bytes "FROM ")
          (words select ++ column_tokens true p.columns) (words from) started refl
          (words-Says from refl) in
      let tabled =
        Says-append (select ++ columns ++ from) table
          (words select ++ column_tokens true p.columns ++ words from) (name p.table ∷ []) fromed
          (quote_identifier-Reads p.table table read_table) in
      let filtered =
        Reads-append (select ++ columns ++ from ++ table) w
          (words select ++ column_tokens true p.columns ++ words from ++ name p.table ∷ []) _ tabled
          where_opens wheres in
      let ordered =
        Reads-append (select ++ columns ++ from ++ table ++ w) o _ _ filtered order_opens orders in
      Reads-append (select ++ columns ++ from ++ table ++ w ++ o) (limit_piece p.limit).0 _ _
        ordered limit.opens limit.reads

-- The statement of a plan that compiles reads as the tokens of the plan, in which every name stands as
-- it is in the plan, and it has as many placeholders as arguments.
pub compile-tokens :
    (p : Plan) (text : GoString) (arguments : List Argument)
    → compile p ≡ ok (text, arguments)
    → (tokens text ≡ select_tokens p) × (holes (tokens text) ≡ length arguments)
unfolding compile
compile-tokens p text arguments h =
    let (_, named) = >>-eq-ok (fail_if (is_nil p.table) invalid_plan) _ h in
    let (_, selected) = >>-eq-ok (fail_if (is_nil p.columns) invalid_plan) _ named in
    let (columns, wrote, h1) = >>=-eq-ok (write_columns true p.columns) _ selected in
    let (table, quoting, h2) = >>=-eq-ok (quote_identifier p.table) _ h1 in
    let ((conditions, a), filtering, h3) =
      >>=-eq-ok (write_conditions p.columns true p.conditions) _ h2 in
    let (orderings, ordering, h4) = >>=-eq-ok (write_orderings p.columns true p.orderings) _ h3 in
    let reads = assembled p columns table conditions orderings a wrote quoting filtering ordering in
    let same = ok-injective h4 in
    let (_, counted) = conditions-Reads p.columns true p.conditions conditions a filtering in
    let said : tokens text ≡ select_tokens p =
      ap (λ (piece : Piece). tokens piece.0) (sym same) ∙ Reads-tokens _ _ reads in
    (
      said,
      ap holes said
          ∙ select-holes p a (limit_piece p.limit).1 counted (limit-IsTest p.limit).counted
          ∙ ap (λ (piece : Piece). length piece.1) same,
    )
