-- ===== src/Ir/Identifiers.antt =====
-- The two tests of names in schema/ir/normalize.go. The tables of Go's unicode package are a
-- parameter.
use godj.Base.{ℕ, GoString, Bool, false, ◌&&◌, ◌||◌, not, List, [], ◌∷◌, ◌==◌, leb, all, nat_eq}
use godj.Ir.Utf8.{Rune, rune_error, runes, valid_string}

-- unicode.IsUpper, unicode.IsLetter and unicode.IsDigit.
pub record Unicode : Type 0 where
  pub is_upper : ℕ → Bool
  pub is_letter : ℕ → Bool
  pub is_digit : ℕ → Bool

-- The three classes on the ASCII range, for examples.
abbrev pub ascii : Unicode
ascii = record {
  is_upper = λ c. leb b'A' c && leb c b'Z';
  is_letter = λ c. leb b'A' c && leb c b'Z' || leb b'a' c && leb c b'z';
  is_digit = λ c. leb b'0' c && leb c b'9';
}

-- [a-z_]
identifier_start : ℕ → Bool
identifier_start c = leb b'a' c && leb c b'z' || c == b'_'

-- [a-z0-9_]
identifier_rest : ℕ → Bool
unfolding identifier_start
identifier_rest c = identifier_start c || leb b'0' c && leb c b'9'

-- ^[a-z_][a-z0-9_]*$
unfoldable pub database_identifier : GoString → Bool
unfolding identifier_start identifier_rest all
database_identifier [] = false
database_identifier (c ∷ s) = identifier_start c && all identifier_rest s

module _ ⦃u : Unicode⦄ where
  exported_runes : List Rune → Bool
  unfolding all
  exported_runes [] = false
  exported_runes (first ∷ rest) =
      not (first.value == rune_error)
      && u.is_upper first.value
      && all (λ r. r.value == b'_' || u.is_letter r.value || u.is_digit r.value) rest

  unfoldable pub exported_identifier : GoString → Bool
  unfolding exported_runes valid_string
  exported_identifier value = valid_string value && exported_runes (runes value)
