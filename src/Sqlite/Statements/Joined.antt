-- ===== src/Sqlite/Statements/Joined.antt =====
-- Lists of texts with a separator, and the columns and arguments of assignments.
use mathlib.Core.Path.{subst}
use native.Mathlib.Decide.{ℕ_discrete}
use godj.Base.{
  ℕ, ◌+◌, ◌≡◌, refl, GoString, bytes, List, [], ◌∷◌, ◌++◌, map, all, elem, length, arith, ok,
  >>=-eq-ok, >>-eq-ok, fail_if, ok-injective, string_eq,
}
use godj.Query.{FieldRef, Value, Argument, database_value, Assignment}
use godj.Sqlite.Identifiers.{quote_identifier, invalid_plan, sqlite_identifier_key}
use godj.Sqlite.Writes.{join, compile_assignments, validate_write_value, compile_key}
use godj.Sqlite.Tokens.{
  Token, name, words, holes, holes-append, Reads, words-Says, Says-append, Reads-Says,
  quote_identifier-Reads,
}

abbrev pub comma : GoString
comma = bytes ", "

unfoldable pub join_tokens : List (List Token) → List Token
join_tokens [] = []
join_tokens (ts ∷ []) = ts
join_tokens (ts ∷ us ∷ rest) = ts ++ words comma ++ join_tokens (us ∷ rest)

-- Each text reads as the tokens at its place.
abbrev pub Each : List GoString → List (List Token) → Type 0
Each [] [] = Unit
Each (s ∷ ss) (t ∷ ts) = Reads s t × Each ss ts
Each _ _ = ⊥

pub join-Reads :
    (ss : List GoString) (ts : List (List Token))
    → Each ss ts
    → Reads (join comma ss) (join_tokens ts)
unfolding join join_tokens all words ℕ_discrete
join-Reads [] [] each = λ rest f. refl
join-Reads [] (t ∷ ts) each = absurd each
join-Reads (s ∷ ss) [] each = absurd each
join-Reads (s ∷ []) (t ∷ []) each = each.0
join-Reads (s ∷ []) (t ∷ u ∷ ts) each = absurd each.1
join-Reads (s ∷ s' ∷ ss) (t ∷ []) each = absurd each.1
join-Reads (s ∷ s' ∷ ss) (t ∷ u ∷ ts) each =
    Says-append (s ++ comma) (join comma (s' ∷ ss)) (t ++ words comma) (join_tokens (u ∷ ts))
      (Reads-Says s b',' (bytes " ") t (words comma) each.0 refl (words-Says comma refl))
      (join-Reads (s' ∷ ss) (u ∷ ts) each.1)

pub join-holes :
    (k : ℕ) (t : List Token) (ts : List (List Token))
    → holes (join_tokens (t ∷ ts)) ≡ holes t + holes (join_tokens ts)
unfolding join_tokens holes words ℕ_discrete
join-holes k t [] = omega arith
join-holes k t (u ∷ ts) =
    omega
      (arith, holes-append (t ++ words comma) (join_tokens (u ∷ ts)), holes-append t (words comma))

abbrev pub column_of : Assignment → List Token
column_of a = name a.field.column ∷ []

-- The columns of assignments that compile, and as many arguments.
pub compile_assignments-Each :
    (seen : List GoString) (as' : List Assignment) (columns : List GoString)
    (arguments : List Argument)
    → compile_assignments seen as' ≡ ok (columns, arguments)
    → Each columns (map column_of as') × (length arguments ≡ length as')
unfolding compile_assignments
compile_assignments-Each seen [] columns arguments h =
    let e : ◌≡◌ {A = List GoString} [] columns = cc in
    let f : ◌≡◌ {A = List Argument} [] arguments = cc in rw (← e, ← f) (tt, refl)
compile_assignments-Each seen (a ∷ rest) columns arguments h =
    let (q, quoting, h1) = >>=-eq-ok (quote_identifier a.field.column) _ h in
    let (_, h2) =
      >>-eq-ok (fail_if (elem (sqlite_identifier_key a.field.column) seen) invalid_plan) _ h1 in
    let (_, h3) = >>-eq-ok (validate_write_value a.field a.value) _ h2 in
    let (argument, found, h4) = >>=-eq-ok (database_value a.value) _ h3 in
    let ((cs, args), compiled, h5) =
      >>=-eq-ok (compile_assignments (sqlite_identifier_key a.field.column ∷ seen) rest) _ h4 in
    let (each, counted) =
      compile_assignments-Each (sqlite_identifier_key a.field.column ∷ seen) rest cs args
        compiled in
    subst
      (λ (p : List GoString × List Argument).
        Each p.0 (map column_of (a ∷ rest)) × (length p.1 ≡ length (a ∷ rest)))
      (ok-injective h5) ((quote_identifier-Reads a.field.column q quoting, each), omega arith)

pub compile_key-Reads :
    (field : FieldRef) (value : Value) (column : GoString) (argument : Argument)
    → compile_key field value ≡ ok (column, argument)
    → Reads column (name field.column ∷ [])
unfolding compile_key
compile_key-Reads field value column argument h =
    let (_, h1) = >>-eq-ok (fail_if _ invalid_plan) _ h in
    let (_, h2) = >>-eq-ok (validate_write_value field value) _ h1 in
    let (q, quoting, h3) = >>=-eq-ok (quote_identifier field.column) _ h2 in
    let (a, found, h4) = >>=-eq-ok (database_value value) _ h3 in
    subst (λ (p : GoString × Argument). Reads p.0 (name field.column ∷ [])) (ok-injective h4)
      (quote_identifier-Reads field.column q quoting)
