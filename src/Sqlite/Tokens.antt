-- ===== src/Sqlite/Tokens.antt =====
-- How SQLite reads a statement, as far as quoting goes: what stands between quotes is one token, in which
-- a doubled quote stands for one, and a question mark outside them is a placeholder.
use godj.Base.{
  ℕ, ◌≡◌, refl, sym, ap, ◌∙◌, GoString, Bool, true, false, not, ◌||◌, List, [], ◌∷◌, ◌++◌,
  append_assoc, inl, inr, ◌==◌, ==_iff, ==_refl, nat_eq, if◌then◌else◌, Bool-cases, all, is_nil,
  elem, arith, ok, >>-eq-ok, fail_if, ◌||◌, ◌+◌, suc,
}
use mathlib.Core.List.{append-nil}
use native.Mathlib.Decide.{ℕ_discrete}
use godj.Sqlite.Identifiers.{quote, quote_identifier, replace_all}

pub data Token : Type 0 where
  quoted : ℕ → GoString → Token
  symbol : ℕ → Token
  placeholder : Token
  unclosed : GoString → Token

pub data Mode : Type 0 where
  code : Mode
  inside after : ℕ → GoString → Mode

abbrev pub is_quote : ℕ → Bool
is_quote c = c == b'"' || c == b'\''

-- A byte outside quotes.
unfoldable pub begin : ℕ → Mode × List Token
begin c =
    if is_quote c
    then (inside c [], [])
    else if c == b'?'
    then (code, placeholder ∷ [])
    else (code, symbol c ∷ [])

unfoldable pub read : Mode → GoString → List Token
unfolding begin
read code [] = []
read code (c ∷ s) = (begin c).1 ++ read (begin c).0 s
read (inside q name) [] = unclosed name ∷ []
read (inside q name) (c ∷ s) = read (if c == q then after q name else inside q (name ++ c ∷ [])) s
read (after q name) [] = quoted q name ∷ []
read (after q name) (c ∷ s) = elim (c == q) [
  | true ↦ read (inside q (name ++ q ∷ [])) s
  | false ↦ quoted q name ∷ ((begin c).1 ++ read (begin c).0 s)
]

unfoldable pub tokens : GoString → List Token
tokens s = read code s

abbrev pub name : GoString → Token
name identifier = quoted quote identifier

-- The tokens of a text without quotes.
unfoldable pub words : GoString → List Token
words [] = []
words (c ∷ s) = (if c == b'?' then placeholder else symbol c) ∷ words s

-- The placeholders among tokens.
unfoldable pub holes : List Token → ℕ
holes [] = 0
holes (placeholder ∷ ts) = suc (holes ts)
holes (_ ∷ ts) = holes ts

pub holes-append : (ss ts : List Token) → holes (ss ++ ts) ≡ holes ss + holes ts
unfolding holes
holes-append [] ts = omega arith
holes-append (placeholder ∷ ss) ts = omega (arith, holes-append ss ts)
holes-append (quoted q n ∷ ss) ts = holes-append ss ts
holes-append (symbol c ∷ ss) ts = holes-append ss ts
holes-append (unclosed n ∷ ss) ts = holes-append ss ts

abbrev pub fresh : GoString → Bool
fresh [] = true
fresh (c ∷ _) = not (is_quote c)

pub fresh-append : (s t : GoString) → fresh s ≡ true → fresh t ≡ true → fresh (s ++ t) ≡ true
fresh-append [] t h k = k
fresh-append (c ∷ s) t h k = h

-- A text that reads as these tokens whatever follows.
abbrev pub Says : GoString → List Token → Type 0
Says text ts = (rest : GoString) → read code (text ++ rest) ≡ ts ++ read code rest

-- The same where no quote follows.
abbrev pub Reads : GoString → List Token → Type 0
Reads text ts =
    (rest : GoString) → fresh rest ≡ true → read code (text ++ rest) ≡ ts ++ read code rest

pub words-Says : (s : GoString) → all (λ c. not (is_quote c)) s ≡ true → Says s (words s)
unfolding words read all
words-Says [] h rest = refl
words-Says (c ∷ s) h rest = ground (arith, words-Says s (ground arith) rest)

pub Says-Reads : (s : GoString) (ts : List Token) → Says s ts → Reads s ts
Says-Reads s ts says rest f = says rest

pub Says-append :
    (s t : GoString) (ss ts : List Token) → Says s ss → Reads t ts → Reads (s ++ t) (ss ++ ts)
Says-append s t ss ts says reads rest f =
    rw (append_assoc, says (t ++ rest), reads rest f) (sym (append_assoc ss ts (read code rest)))

pub Reads-append :
    (s t : GoString) (ss ts : List Token)
    → Reads s ss
    → fresh t ≡ true
    → Reads t ts
    → Reads (s ++ t) (ss ++ ts)
Reads-append s t ss ts first open_t reads rest f =
    rw (append_assoc, first (t ++ rest) (fresh-append t rest open_t f), reads rest f)
      (sym (append_assoc ss ts (read code rest)))

-- A byte that is no quote lets anything follow.
pub Reads-Says :
    (s : GoString) (c : ℕ) (t : GoString) (ss ts : List Token)
    → Reads s ss
    → not (is_quote c) ≡ true
    → Says (c ∷ t) ts
    → Says (s ++ c ∷ t) (ss ++ ts)
Reads-Says s c t ss ts first open_c says rest =
    rw (append_assoc, first (c ∷ t ++ rest) open_c, says rest)
      (sym (append_assoc ss ts (read code rest)))

-- A whole text.
pub Reads-tokens : (s : GoString) (ts : List Token) → Reads s ts → tokens s ≡ ts
unfolding tokens
Reads-tokens s ts reads =
    let nothing : read code [] ≡ [] = unfold read in refl in
    ap (read code) (sym (append-nil s))
    ∙ reads [] refl
    ∙ ap (λ us. ts ++ us) nothing
    ∙ append-nil ts

module _ (q : ℕ) (is_q : is_quote q ≡ true) where
  read_end : (acc rest : GoString) → read (inside q acc) (q ∷ rest) ≡ read (after q acc) rest
  unfolding read
  read_end acc rest =
      ap (λ b. read (if b then after q acc else inside q (acc ++ q ∷ [])) rest) (==_refl q)

  read_doubled :
      (acc rest : GoString) → read (after q acc) (q ∷ rest) ≡ read (inside q (acc ++ q ∷ [])) rest
  unfolding read
  read_doubled acc rest = ground (arith, ==_refl q)

  read_other :
      (c : ℕ) (acc rest : GoString)
      → (c == q) ≡ false
      → read (inside q acc) (c ∷ rest) ≡ read (inside q (acc ++ c ∷ [])) rest
  unfolding read
  read_other c acc rest other =
      ap (λ b. read (if b then after q acc else inside q (acc ++ c ∷ [])) rest) other

  read-inside :
      (s acc rest : GoString)
      → read (inside q acc) (replace_all q (q ∷ q ∷ []) s ++ q ∷ rest)
        ≡ read (after q (acc ++ s)) rest
  unfolding replace_all
  read-inside [] acc rest = rw (append-nil) (read_end acc rest)
  read-inside (c ∷ s) acc rest = elim (Bool-cases (c == q)) [
    | inl same ↦
        let e : c ≡ q = (==_iff c q).0 same in
        rw (same, e)
          (read_end acc (q ∷ (replace_all q (q ∷ q ∷ []) s ++ q ∷ rest))
            ∙ read_doubled acc (replace_all q (q ∷ q ∷ []) s ++ q ∷ rest)
            ∙ read-inside s (acc ++ q ∷ []) rest
            ∙ ap (λ t. read (after q t) rest) (append_assoc acc (q ∷ []) s))
    | inr other ↦ rw other (
        read_other c acc (replace_all q (q ∷ q ∷ []) s ++ q ∷ rest) other
        ∙ read-inside s (acc ++ c ∷ []) rest
        ∙ ap (λ t. read (after q t) rest) (append_assoc acc (c ∷ []) s))
  ]

  read-after :
      (s rest : GoString) → fresh rest ≡ true → read (after q s) rest ≡ quoted q s ∷ read code rest
  unfolding read
  read-after s [] f = refl
  read-after s (c ∷ rest) f = ground (arith, ==_iff c q)

  -- Whatever the name, quoting it gives one token that holds it.
  pub quote-Reads :
      (s : GoString) → Reads (q ∷ (replace_all q (q ∷ q ∷ []) s ++ q ∷ [])) (quoted q s ∷ [])
  unfolding read begin
  quote-Reads s rest f =
      let opened : read code (q ∷ (replace_all q (q ∷ q ∷ []) s ++ q ∷ rest))
          ≡ read (inside q []) (replace_all q (q ∷ q ∷ []) s ++ q ∷ rest) =
        rw (begin, is_q) refl in
      let closed = read-inside s [] rest in
      let left = read-after s rest f in rw (append_assoc) (opened ∙ closed ∙ left)

-- An identifier that is accepted is quoted to one token that holds it.
pub quote_identifier-Reads :
    (identifier text : GoString)
    → quote_identifier identifier ≡ ok text
    → Reads text (name identifier ∷ [])
unfolding quote_identifier ℕ_discrete
quote_identifier-Reads identifier text h =
    let (_, e) =
      >>-eq-ok (fail_if (is_nil identifier || elem 0 identifier) _)
        (ok (quote ∷ (replace_all quote (quote ∷ quote ∷ []) identifier ++ quote ∷ []))) h in
    let same : quote ∷ (replace_all quote (quote ∷ quote ∷ []) identifier ++ quote ∷ []) ≡ text =
      cc in
    rw (← same) (quote-Reads quote refl identifier)
