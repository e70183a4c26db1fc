-- ===== src/Sqlite/Statements/Mutations.antt =====
-- The statements of CompileInsert, CompileUpdate and CompileDelete as SQLite reads them.
use mathlib.Core.Path.{subst}
use native.Mathlib.Decide.{ℕ_discrete}
use godj.Base.{
  ◌≡◌, refl, ap, GoString, bytes, List, [], ◌∷◌, ◌++◌, all, length, ok, >>=-eq-ok, ok-injective,
}
use godj.Query.{Argument, DeletePlan}
use godj.Sqlite.Identifiers.{quote_identifier}
use godj.Sqlite.Compiler.{Piece}
use godj.Sqlite.Writes.{compile_key, compile_delete}
use godj.Sqlite.Tokens.{
  Token, name, words, tokens, holes, words-Says, Says-Reads, Says-append, Reads-append, Reads-Says,
  Reads-tokens, quote_identifier-Reads,
}
use godj.Sqlite.Statements.Joined.{compile_key-Reads}

abbrev pub delete_tokens : DeletePlan → List Token
delete_tokens p =
    words (bytes "DELETE FROM ")
    ++ name p.table ∷ []
    ++ words (bytes " WHERE ")
    ++ name p.key_field.column ∷ []
    ++ words (bytes " = ?")

-- A DELETE reads as a deletion from the table of the plan by its key, with one argument for the one
-- placeholder.
pub compile_delete-tokens :
    (p : DeletePlan) (text : GoString) (arguments : List Argument)
    → compile_delete p ≡ ok (text, arguments)
    → (tokens text ≡ delete_tokens p) × (holes (tokens text) ≡ length arguments)
unfolding compile_delete all words holes ℕ_discrete
compile_delete-tokens p text arguments h =
    let (table, quoting, h1) = >>=-eq-ok (quote_identifier p.table) _ h in
    let ((column, argument), keyed, h2) = >>=-eq-ok (compile_key p.key_field p.key_value) _ h1 in
    let delete = bytes "DELETE FROM " in
    let where_ = bytes " WHERE " in
    let started =
      Says-append delete table (words delete) (name p.table ∷ []) (words-Says delete refl)
        (quote_identifier-Reads p.table table quoting) in
    let wheres =
      Reads-Says (delete ++ table) b' ' (bytes "WHERE ") (words delete ++ name p.table ∷ [])
        (words where_) started refl (words-Says where_ refl) in
    let key =
      Says-append (delete ++ table ++ where_) column
        (words delete ++ name p.table ∷ [] ++ words where_) (name p.key_field.column ∷ []) wheres
        (compile_key-Reads p.key_field p.key_value column argument keyed) in
    let whole =
      Reads-append (delete ++ table ++ where_ ++ column) (bytes " = ?")
        (words delete ++ name p.table ∷ [] ++ words where_ ++ name p.key_field.column ∷ [])
        (words (bytes " = ?")) key refl
        (Says-Reads (bytes " = ?") (words (bytes " = ?")) (words-Says (bytes " = ?") refl)) in
    subst (λ (q : Piece). (tokens q.0 ≡ delete_tokens p) × (holes (tokens q.0) ≡ length q.1))
      (ok-injective h2) (let e = Reads-tokens _ _ whole in (e, ap holes e))
