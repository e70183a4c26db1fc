-- ===== src/Sqlite/Like.antt =====
-- The pattern of an icontains lookup against what LIKE means in SQL with the escape character `\`.
use native.Mathlib.Decide.{ℕ_discrete}
use godj.Base.{
  ℕ, ◌≡◌, refl, ap, ◌∙◌, GoString, bytes, nat_eq, Bool, true, false, ◌&&◌, ◌||◌, inl, inr,
  Bool-cases, List, [], ◌∷◌, ◌++◌, ◌==◌, ==_iff, if◌then◌else◌, is_nil, arith,
}
use godj.Sqlite.Identifiers.{replace_all, backslash, escape_like, lower}

-- An element of a pattern: any text, any one character, or this character but for its case.
pub data Pattern : Type 0 where
  any_text one : Pattern
  char : ℕ → Pattern

unfoldable pub pattern_char : ℕ → Pattern
pattern_char c =
    if c == b'%' then Pattern.any_text else if c == b'_' then Pattern.one else Pattern.char c

-- Reading a pattern, after the escape character or not.
unfoldable pub parse_pattern : Bool → GoString → List Pattern
parse_pattern escaped [] = []
parse_pattern true (c ∷ s) = Pattern.char c ∷ parse_pattern false s
parse_pattern false (c ∷ s) = elim (c == backslash) [
  | true ↦ parse_pattern true s
  | false ↦ pattern_char c ∷ parse_pattern false s
]

-- Does a suffix pass the test?
unfoldable pub some_suffix : (GoString → Bool) → GoString → Bool
some_suffix test [] = test []
some_suffix test (c ∷ s) = test (c ∷ s) || some_suffix test s

unfoldable pub like : List Pattern → GoString → Bool
like [] s = is_nil s
like (Pattern.any_text ∷ ps) s = some_suffix (like ps) s
like (Pattern.one ∷ ps) [] = false
like (Pattern.one ∷ ps) (d ∷ s) = like ps s
like (Pattern.char c ∷ ps) [] = false
like (Pattern.char c ∷ ps) (d ∷ s) = lower c == lower d && like ps s

-- Does a text begin with another, or contain it, but for the case of ASCII letters?
unfoldable pub begins_with : GoString → GoString → Bool
begins_with [] s = true
begins_with (c ∷ text) [] = false
begins_with (c ∷ text) (d ∷ s) = lower c == lower d && begins_with text s

abbrev pub contains_text : GoString → GoString → Bool
contains_text text s = some_suffix (begins_with text) s

plain-parse :
    (c : ℕ) (s : GoString)
    → (c == backslash) ≡ false
    → (c == b'%') ≡ false
    → (c == b'_') ≡ false
    → parse_pattern false (c ∷ s) ≡ Pattern.char c ∷ parse_pattern false s
unfolding parse_pattern pattern_char
plain-parse c s h k l = rw (parse_pattern, h, pattern_char, k, l) refl

-- One character of an escaped text reads as itself.
escape_like-parse :
    (c : ℕ) (text rest : GoString)
    → parse_pattern false (escape_like (c ∷ text) ++ rest)
      ≡ Pattern.char c ∷ parse_pattern false (escape_like text ++ rest)
unfolding escape_like replace_all parse_pattern pattern_char ℕ_discrete
escape_like-parse c text rest = elim (Bool-cases (c == backslash)) [
  | inl is_backslash ↦ rw ((==_iff c backslash).0 is_backslash) refl
  | inr no_backslash ↦ elim (Bool-cases (c == b'%')) [
    | inl is_percent ↦ rw ((==_iff c b'%').0 is_percent) refl
    | inr no_percent ↦ elim (Bool-cases (c == b'_')) [
      | inl is_low ↦ rw ((==_iff c b'_').0 is_low) refl
      | inr no_low ↦
          rw (no_backslash, no_percent, no_low)
            (plain-parse c (escape_like text ++ rest) no_backslash no_percent no_low)
    ]
  ]
]

some_suffix-true :
    (test : GoString → Bool) (s : GoString) → test [] ≡ true → some_suffix test s ≡ true
unfolding some_suffix
some_suffix-true test [] h = h
some_suffix-true test (c ∷ s) h = ground (arith, some_suffix-true test s h)

any_text-like : (s : GoString) → like (Pattern.any_text ∷ []) s ≡ true
unfolding like is_nil
any_text-like s = some_suffix-true is_nil s refl

empty-like :
    (s : GoString) → like (parse_pattern false (escape_like [] ++ bytes "%")) s ≡ begins_with [] s
unfolding escape_like replace_all parse_pattern pattern_char begins_with ℕ_discrete
empty-like s = any_text-like s

escaped-like :
    (text s : GoString)
    → like (parse_pattern false (escape_like text ++ bytes "%")) s ≡ begins_with text s
unfolding begins_with like
escaped-like [] s = empty-like s
escaped-like (c ∷ text) [] = ap (λ ps. like ps []) (escape_like-parse c text (bytes "%"))
escaped-like (c ∷ text) (d ∷ s) =
    ap (λ ps. like ps (d ∷ s)) (escape_like-parse c text (bytes "%"))
    ∙ ap (λ b. lower c == lower d && b) (escaped-like text s)

-- The argument that an icontains lookup binds matches exactly the values that contain the text of the
-- lookup, but for the case of ASCII letters: no character of it acts as a wildcard or an escape.
pub escape_like-contains :
    (text s : GoString)
    → like (parse_pattern false (bytes "%" ++ escape_like text ++ bytes "%")) s
      ≡ contains_text text s
unfolding parse_pattern pattern_char like ℕ_discrete
escape_like-contains text s = ap (λ test. some_suffix test s) (λ i t. escaped-like text t i)
