-- ===== src/Ir/Utf8.antt =====
-- unicode/utf8 as schema/ir/normalize.go uses it. A byte that starts no well-formed sequence is a
-- rune of its own, the replacement character, and makes the string invalid.
use godj.Base.{
  ℕ, ◌+◌, ◌-◌, ◌*◌, GoString, Bool, true, false, ◌&&◌, ◌||◌, List, [], ◌∷◌, leb, ltb, length, all,
  if◌then◌else◌,
}

pub record Rune : Type 0 where
  pub value : ℕ
  pub valid : Bool

abbrev pub rune_error : ℕ
rune_error = 0xFFFD

broken : Rune
broken = record { value = rune_error; valid = false }

between : ℕ → ℕ → ℕ → Bool
between low high b = leb low b && leb b high

continuation : ℕ → Bool
unfolding between
continuation = between 0x80 0xBF

-- Does the pair of bytes begin a sequence of two, three or four bytes?
starts_two : ℕ → ℕ → Bool
unfolding between continuation
starts_two a b = between 0xC2 0xDF a && continuation b

starts_three : ℕ → ℕ → Bool
unfolding between continuation
starts_three a b =
    between 0xE0 0xE0 a && between 0xA0 0xBF b
    || between 0xE1 0xEC a && continuation b
    || between 0xED 0xED a && between 0x80 0x9F b
    || between 0xEE 0xEF a && continuation b

starts_four : ℕ → ℕ → Bool
unfolding between continuation
starts_four a b =
    between 0xF0 0xF0 a && between 0x90 0xBF b
    || between 0xF1 0xF3 a && continuation b
    || between 0xF4 0xF4 a && between 0x80 0x8F b

rune : ℕ → Rune
rune value = record { value = value; valid = true }

two : ℕ → ℕ → Rune
unfolding rune
two a b = rune ((a - 0xC0) * 64 + (b - 0x80))

three : ℕ → ℕ → ℕ → Rune
unfolding rune
three a b c = rune ((a - 0xE0) * 4096 + (b - 0x80) * 64 + (c - 0x80))

four : ℕ → ℕ → ℕ → ℕ → Rune
unfolding rune
four a b c d = rune ((a - 0xF0) * 262144 + (b - 0x80) * 4096 + (c - 0x80) * 64 + (d - 0x80))

single : ℕ → Rune
unfolding broken rune
single a = if ltb a 0x80 then rune a else broken

-- The runes of a string, in the order in which `range` visits them.
unfoldable pub runes : GoString → List Rune
unfolding starts_two starts_three starts_four single two three four continuation
runes [] = []
runes (a ∷ []) = single a ∷ []
runes (a ∷ b ∷ []) =
    let step = single a ∷ runes (b ∷ []) in if starts_two a b then two a b ∷ [] else step
runes (a ∷ b ∷ c ∷ []) =
    let step = single a ∷ runes (b ∷ c ∷ []) in
    let after = two a b ∷ runes (c ∷ []) in
    if starts_two a b
    then after
    else if starts_three a b && continuation c
    then three a b c ∷ []
    else step
runes (a ∷ b ∷ c ∷ d ∷ s) =
    let step = single a ∷ runes (b ∷ c ∷ d ∷ s) in
    let after_two = two a b ∷ runes (c ∷ d ∷ s) in
    let after_three = three a b c ∷ runes (d ∷ s) in
    let after_four = four a b c d ∷ runes s in
    if starts_two a b
    then after_two
    else if starts_three a b && continuation c
    then after_three
    else if starts_four a b && continuation c && continuation d
    then after_four
    else step

-- `utf8.ValidString`
unfoldable pub valid_string : GoString → Bool
unfolding runes all
valid_string s = all (λ r. r.valid) (runes s)

-- `utf8.RuneCountInString`
unfoldable pub rune_count : GoString → ℕ
unfolding runes
rune_count s = length (runes s)
