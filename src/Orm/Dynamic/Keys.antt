-- ===== src/Orm/Dynamic/Keys.antt =====
-- The keys of dynamic lookups: a field's name, and a lookup after two underscores.
use native.Mathlib.Decide.{ℕ_discrete}
use mathlib.Core.List.{append-nil}
use godj.Base.{
  ℕ, nat_eq, ◌≡◌, refl, sym, ap, ◌∙◌, GoString, bytes, Bool, true, false, ◌&&◌, ◌||◌, inl, inr,
  Bool-cases, List, [], ◌∷◌, ◌++◌, append_assoc, ◌==◌, ==_iff, arith,
}
use godj.Orm.Dynamic.{split_from, join_from, split_lookup}

-- Two underscores next to each other.
unfoldable pub has_separator : GoString → Bool
has_separator [] = false
has_separator (c ∷ []) = false
has_separator (c ∷ d ∷ s) = (c == b'_' && d == b'_') || has_separator (d ∷ s)

split_here :
    (part : GoString) (c d : ℕ) (rest : GoString)
    → (c == b'_' && d == b'_') ≡ true
    → split_from part (c ∷ d ∷ rest) ≡ (part, (split_from [] rest).0 ∷ (split_from [] rest).1)
unfolding split_from
split_here part c d rest h = rw (split_from, h) refl

split_later :
    (part : GoString) (c d : ℕ) (rest : GoString)
    → (c == b'_' && d == b'_') ≡ false
    → split_from part (c ∷ d ∷ rest) ≡ split_from (part ++ c ∷ []) (d ∷ rest)
unfolding split_from
split_later part c d rest h = rw (split_from, h) refl

abbrev joined : GoString × List GoString → GoString
joined (part, parts) = join_from part parts

-- Joining the parts gives the text back.
join_from-split_from :
    (part s : GoString) → join_from (split_from part s).0 (split_from part s).1 ≡ part ++ s
unfolding split_from join_from
join_from-split_from part [] = sym (append-nil part)
join_from-split_from part (c ∷ []) = refl
join_from-split_from part (c ∷ d ∷ rest) = elim (Bool-cases (c == b'_' && d == b'_')) [
  | inl both ↦
      let e_c : c ≡ b'_' = (==_iff c b'_').0 (ground (arith, both)) in
      let e_d : d ≡ b'_' = (==_iff d b'_').0 (ground (arith, both)) in
      let ih : join_from (split_from [] rest).0 (split_from [] rest).1 ≡ rest =
        join_from-split_from [] rest in
      let twice : bytes "__" ++ rest ≡ c ∷ d ∷ rest = sym (λ i. e_c i ∷ e_d i ∷ rest) in
      let begun : part ++ bytes "__" ++ join_from (split_from [] rest).0 (split_from [] rest).1
          ≡ part ++ bytes "__" ++ rest =
        ap (λ t. part ++ bytes "__" ++ t) ih in
      let end_ : part ++ bytes "__" ++ rest ≡ part ++ c ∷ d ∷ rest =
        append_assoc part (bytes "__") rest ∙ ap (λ t. part ++ t) twice in
      ap joined (split_here part c d rest both) ∙ begun ∙ end_
  | inr other ↦
      ap joined (split_later part c d rest other)
      ∙ join_from-split_from (part ++ c ∷ []) (d ∷ rest)
      ∙ append_assoc part (c ∷ []) (d ∷ rest)
]

-- Up to the end of a name the text is one part.
split_from-name :
    (part name rest : GoString)
    → has_separator (name ++ bytes "_") ≡ false
    → split_from part (name ++ bytes "__" ++ rest)
      ≡ (part ++ name, (split_from [] rest).0 ∷ (split_from [] rest).1)
unfolding has_separator
split_from-name part [] rest h =
    split_here part b'_' b'_' rest (unfold ℕ_discrete in refl)
    ∙ ap (λ (p : GoString). (p, (split_from [] rest).0 ∷ (split_from [] rest).1))
        (sym (append-nil part))
split_from-name part (c ∷ []) rest h =
    split_later part c b'_' (b'_' ∷ rest) (ground (arith, h))
    ∙ split_from-name (part ++ c ∷ []) [] rest refl
    ∙ ap (λ (p : GoString). (p, (split_from [] rest).0 ∷ (split_from [] rest).1))
        (append-nil (part ++ c ∷ []))
split_from-name part (c ∷ d ∷ name) rest h =
    split_later part c d (name ++ bytes "__" ++ rest) (ground (arith, h))
    ∙ split_from-name (part ++ c ∷ []) (d ∷ name) rest (ground (arith, h))
    ∙ ap (λ (p : GoString). (p, (split_from [] rest).0 ∷ (split_from [] rest).1))
        (append_assoc part (c ∷ []) (d ∷ name))

-- The end of `splitLookup`.
abbrev picked : GoString → GoString × List GoString → GoString × GoString
picked key p = elim p.1 [ [] ↦ (key, bytes "exact") | first ∷ parts ↦ (p.0, join_from first parts) ]

-- A key whose field name has no two underscores next to each other, nor one at its end, is split into
-- the name and whatever lookup is written after the first two underscores.
pub split_lookup-joined :
    (name lookup : GoString)
    → has_separator (name ++ bytes "_") ≡ false
    → split_lookup (name ++ bytes "__" ++ lookup) ≡ (name, lookup)
unfolding split_lookup
split_lookup-joined name lookup h =
    ap (picked (name ++ bytes "__" ++ lookup)) (split_from-name [] name lookup h) ∙ λ i.
    (name, join_from-split_from [] lookup i)
