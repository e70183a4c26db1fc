-- ===== src/Sqlite/Statements/Clauses.antt =====
-- The parts of a SELECT statement: columns, conditions and orderings.
use mathlib.Core.Path.{subst}
use native.Mathlib.Decide.{ℕ_discrete}
use godj.Base.{
  ◌≡◌, refl, ap, GoString, bytes, Bool, true, false, not, List, [], ◌∷◌, ◌++◌, all, length, arith,
  ok, >>=-eq-ok, >>-eq-ok, fail_if, ok-injective, length-append,
}
use godj.Query.{field_kind_eq, FieldRef, Argument, Condition, Ordering}
use godj.Sqlite.Identifiers.{quote_identifier, invalid_plan}
use godj.Sqlite.Compiler.{
  Piece, separator, clause, contains_field, compile_condition, write_columns, write_conditions,
  direction_text, write_orderings,
}
use godj.Sqlite.Tokens.{
  Token, name, words, holes, holes-append, fresh, Reads, words-Says, Says-append, Reads-append,
  quote_identifier-Reads,
}
use godj.Sqlite.Statements.{
  column_tokens, condition_tokens, ordering_tokens, test_tokens, direction_tokens, separator-Says,
  lookup-IsTest, direction-Reads,
}

columns-fresh :
    (cs : List FieldRef) (text : GoString) → write_columns false cs ≡ ok text → fresh text ≡ true
unfolding write_columns ℕ_discrete
columns-fresh [] text h = let e : ◌≡◌ {A = GoString} [] text = cc in rw (← e) refl
columns-fresh (c ∷ cs) text h =
    let (q, quoting, more) = >>=-eq-ok (quote_identifier c.column) _ h in
    let (u, written, last) = >>=-eq-ok (write_columns false cs) _ more in
    let e = ok-injective last in rw (← e) refl

pub columns-Reads :
    (first : Bool) (cs : List FieldRef) (text : GoString)
    → write_columns first cs ≡ ok text
    → Reads text (column_tokens first cs)
unfolding write_columns column_tokens all ℕ_discrete
columns-Reads first [] text h = let e : ◌≡◌ {A = GoString} [] text = cc in rw (← e) (λ rest f. refl)
columns-Reads first (c ∷ cs) text h =
    let (q, quoting, more) = >>=-eq-ok (quote_identifier c.column) _ h in
    let (u, written, last) = >>=-eq-ok (write_columns false cs) _ more in
    let e = ok-injective last in
    let sep = separator first (bytes ", ") in
    rw (← e) (
      Reads-append (sep ++ q) u (words sep ++ name c.column ∷ []) (column_tokens false cs)
        (Says-append sep q (words sep) (name c.column ∷ []) (separator-Says first (bytes ", ") refl)
          (quote_identifier-Reads c.column q quoting))
        (columns-fresh cs u written) (columns-Reads false cs u written))

conditions-fresh :
    (columns : List FieldRef) (cs : List Condition) (text : GoString) (arguments : List Argument)
    → write_conditions columns false cs ≡ ok (text, arguments)
    → fresh text ≡ true
unfolding write_conditions ℕ_discrete
conditions-fresh columns [] text arguments h =
    let e : ◌≡◌ {A = GoString} [] text = cc in rw (← e) refl
conditions-fresh columns (c ∷ cs) text arguments h =
    let (_, known) = >>-eq-ok (fail_if (not (contains_field columns c.field)) invalid_plan) _ h in
    let (q, quoting, more) = >>=-eq-ok (quote_identifier c.field.column) _ known in
    let ((t, a), tested, rest) = >>=-eq-ok (compile_condition c) _ more in
    let ((u, b), written, last) = >>=-eq-ok (write_conditions columns false cs) _ rest in
    let e = ap (λ (p : Piece). p.0) (ok-injective last) in rw (← e) refl

-- The placeholders of a condition and of those after it.
row-holes :
    (ss : List Token) (column : GoString) (ts us : List Token) (a b : List Argument)
    → holes ss ≡ 0
    → holes ts ≡ length a
    → holes us ≡ length b
    → holes (ss ++ name column ∷ [] ++ ts ++ us) ≡ length (a ++ b)
unfolding holes
row-holes ss column ts us a b h k l = omega (
  arith,
  holes-append (ss ++ name column ∷ [] ++ ts) us,
  holes-append (ss ++ name column ∷ []) ts,
  holes-append ss (name column ∷ []),
  length-append a b,
)

separator-holes : (first : Bool) → holes (words (separator first (bytes " AND "))) ≡ 0
unfolding holes words ℕ_discrete
separator-holes true = refl
separator-holes false = refl

pub conditions-Reads :
    (columns : List FieldRef) (first : Bool) (cs : List Condition) (text : GoString)
    (arguments : List Argument)
    → write_conditions columns first cs ≡ ok (text, arguments)
    → Reads text (condition_tokens first cs)
      × (holes (condition_tokens first cs) ≡ length arguments)
unfolding write_conditions condition_tokens all holes ℕ_discrete
conditions-Reads columns first [] text arguments h =
    let e : ◌≡◌ {A = GoString} [] text = cc in
    let f : ◌≡◌ {A = List Argument} [] arguments = cc in rw (← e, ← f) (λ rest f. refl, refl)
conditions-Reads columns first (c ∷ cs) text arguments h =
    let (_, known) = >>-eq-ok (fail_if (not (contains_field columns c.field)) invalid_plan) _ h in
    let (q, quoting, more) = >>=-eq-ok (quote_identifier c.field.column) _ known in
    let ((t, a), tested, rest) = >>=-eq-ok (compile_condition c) _ more in
    let ((u, b), written, last) = >>=-eq-ok (write_conditions columns false cs) _ rest in
    let sep = separator first (bytes " AND ") in
    let test = lookup-IsTest c.lookup c t a (unfold compile_condition in tested) in
    let (reads, counted) = conditions-Reads columns false cs u b written in
    let start =
      Says-append sep q (words sep) (name c.field.column ∷ [])
        (separator-Says first (bytes " AND ") refl)
        (quote_identifier-Reads c.field.column q quoting) in
    subst
      (λ (p : Piece).
        Reads p.0 (condition_tokens first (c ∷ cs))
        × (holes (condition_tokens first (c ∷ cs)) ≡ length p.1))
      (ok-injective last)
      (
        Reads-append (sep ++ q ++ t) u
            (words sep ++ name c.field.column ∷ [] ++ test_tokens c.lookup c.value)
            (condition_tokens false cs)
            (Reads-append (sep ++ q) t (words sep ++ name c.field.column ∷ [])
              (test_tokens c.lookup c.value) start test.opens test.reads)
            (conditions-fresh columns cs u b written) reads,
        row-holes (words sep) c.field.column (test_tokens c.lookup c.value)
            (condition_tokens false cs) a b (separator-holes first) test.counted counted,
      )

orderings-fresh :
    (columns : List FieldRef) (os : List Ordering) (text : GoString)
    → write_orderings columns false os ≡ ok text
    → fresh text ≡ true
unfolding write_orderings ℕ_discrete
orderings-fresh columns [] text h = let e : ◌≡◌ {A = GoString} [] text = cc in rw (← e) refl
orderings-fresh columns (o ∷ os) text h =
    let (_, known) = >>-eq-ok (fail_if (not (contains_field columns o.field)) invalid_plan) _ h in
    let (q, quoting, more) = >>=-eq-ok (quote_identifier o.field.column) _ known in
    let (d, directed, rest) = >>=-eq-ok (direction_text o.direction) _ more in
    let (u, written, last) = >>=-eq-ok (write_orderings columns false os) _ rest in
    let e = ok-injective last in rw (← e) refl

pub orderings-Reads :
    (columns : List FieldRef) (first : Bool) (os : List Ordering) (text : GoString)
    → write_orderings columns first os ≡ ok text
    → Reads text (ordering_tokens first os)
unfolding write_orderings ordering_tokens all ℕ_discrete
orderings-Reads columns first [] text h =
    let e : ◌≡◌ {A = GoString} [] text = cc in rw (← e) (λ rest f. refl)
orderings-Reads columns first (o ∷ os) text h =
    let (_, known) = >>-eq-ok (fail_if (not (contains_field columns o.field)) invalid_plan) _ h in
    let (q, quoting, more) = >>=-eq-ok (quote_identifier o.field.column) _ known in
    let (d, directed, rest) = >>=-eq-ok (direction_text o.direction) _ more in
    let (u, written, last) = >>=-eq-ok (write_orderings columns false os) _ rest in
    let sep = separator first (bytes ", ") in
    let direction = direction-Reads o.direction d directed in
    let start =
      Says-append sep q (words sep) (name o.field.column ∷ [])
        (separator-Says first (bytes ", ") refl)
        (quote_identifier-Reads o.field.column q quoting) in
    rw (← (ok-injective last)) (
      Reads-append (sep ++ q ++ d) u
        (words sep ++ name o.field.column ∷ [] ++ direction_tokens o.direction)
        (ordering_tokens false os)
        (Reads-append (sep ++ q) d (words sep ++ name o.field.column ∷ [])
          (direction_tokens o.direction) start direction.opens direction.reads)
        (orderings-fresh columns os u written) (orderings-Reads columns false os u written))

-- A clause with its keyword, which stands there if the clause has conditions.
pub where-Reads :
    (columns : List FieldRef) (cs : List Condition) (text : GoString) (arguments : List Argument)
    → write_conditions columns true cs ≡ ok (text, arguments)
    → Reads
        (clause (bytes " WHERE ") cs ++ text)
        (words (clause (bytes " WHERE ") cs) ++ condition_tokens true cs)
      × (fresh (clause (bytes " WHERE ") cs ++ text) ≡ true)
unfolding all words ℕ_discrete
where-Reads columns [] text arguments h = (
  (conditions-Reads columns true [] text arguments h).0,
  let e : ◌≡◌ {A = GoString} [] text = unfold write_conditions in cc in rw (← e) refl,
)
where-Reads columns (c ∷ cs) text arguments h = (
  Says-append (bytes " WHERE ") text (words (bytes " WHERE ")) (condition_tokens true (c ∷ cs))
      (words-Says (bytes " WHERE ") refl)
      (conditions-Reads columns true (c ∷ cs) text arguments h).0,
  refl,
)

pub order_by-Reads :
    (columns : List FieldRef) (os : List Ordering) (text : GoString)
    → write_orderings columns true os ≡ ok text
    → Reads
        (clause (bytes " ORDER BY ") os ++ text)
        (words (clause (bytes " ORDER BY ") os) ++ ordering_tokens true os)
      × (fresh (clause (bytes " ORDER BY ") os ++ text) ≡ true)
unfolding all words ℕ_discrete
order_by-Reads columns [] text h = (
  orderings-Reads columns true [] text h,
  let e : ◌≡◌ {A = GoString} [] text = unfold write_orderings in cc in rw (← e) refl,
)
order_by-Reads columns (o ∷ os) text h = (
  Says-append (bytes " ORDER BY ") text (words (bytes " ORDER BY ")) (ordering_tokens true (o ∷ os))
      (words-Says (bytes " ORDER BY ") refl) (orderings-Reads columns true (o ∷ os) text h),
  refl,
)
