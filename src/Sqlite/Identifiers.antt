-- ===== src/Sqlite/Identifiers.antt =====
-- quoteIdentifier, escapeLike and sqliteIdentifierKey of db/sqlite/compiler.go and write.go.
use godj.Base.{
  ℕ, ◌+◌, GoString, ◌&&◌, ◌||◌, [], ◌∷◌, ◌++◌, map, ◌==◌, nat_eq, leb, if◌then◌else◌, elem, is_nil,
  ok, ◌>>◌, fail_if,
}
use godj.Query.{Failure, Checked, error_of, ErrorCategory, ErrorCode}

abbrev pub invalid_plan : Failure
invalid_plan = error_of ErrorCategory.query ErrorCode.invalid_plan []

-- `strings.ReplaceAll` of one byte.
unfoldable pub replace_all : ℕ → GoString → GoString → GoString
replace_all old new [] = []
replace_all old new (c ∷ s) = (if c == old then new else c ∷ []) ++ replace_all old new s

abbrev pub quote : ℕ
quote = b'"'

unfoldable pub quote_identifier : GoString → Checked GoString
unfolding is_nil elem replace_all
quote_identifier identifier = do
  fail_if (is_nil identifier || elem 0 identifier) invalid_plan
  ok (quote ∷ (replace_all quote (quote ∷ quote ∷ []) identifier ++ quote ∷ []))

abbrev pub backslash : ℕ
backslash = b'\\'

unfoldable pub escape_like : GoString → GoString
unfolding replace_all
escape_like value = replace_all b'_' (backslash ∷ b'_' ∷ []) (
    replace_all b'%' (backslash ∷ b'%' ∷ [])
      (replace_all backslash (backslash ∷ backslash ∷ []) value))

-- ASCII letters in lower case.
abbrev pub lower : ℕ → ℕ
lower c = if leb b'A' c && leb c b'Z' then c + 32 else c

unfoldable pub sqlite_identifier_key : GoString → GoString
sqlite_identifier_key identifier = map lower identifier
