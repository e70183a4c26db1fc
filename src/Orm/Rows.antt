-- ===== src/Orm/Rows.antt =====
-- A row of a model's table, by the columns that a plan names, and what it means that it holds a model.
use godj.Base.{
  ◌≡◌, sym, ap, ◌∙◌, true, false, inl, inr, Bool-cases, List, [], ◌∷◌, map, Option, none, some,
  ◌==◌, ==_iff, if◌then◌else◌, elem, string_eq, arith, Nodup,
}
use godj.Ir.{Field, field_eq}
use godj.Query.{FieldRef, field_ref_eq, Value, Assignment}
use godj.Orm.{field_reference, Descriptor}

abbrev pub Row : Type 0
Row = FieldRef → Option Value

-- The value that assignments give a column.
unfoldable pub assigned : List Assignment → Row
assigned [] r = none
assigned (a ∷ as') r = if a.field == r then some a.value else assigned as' r

abbrev pub or_else {ℓ} : {A : Type ℓ} → Option A → Option A → Option A
or_else none other = other
or_else (some a) other = some a

-- The row after a statement with these assignments.
unfoldable pub overwrite : List Assignment → Row → Row
overwrite assignments row r = or_else (assigned assignments r) (row r)

-- No two fields of a model have one name.
abbrev pub Distinct : List Field → Type 0
Distinct fields =
    (f g : Field) → elem f fields ≡ true → elem g fields ≡ true → f.name ≡ g.name → f ≡ g

-- The row has the model's value in each column but the key's.
abbrev pub Holds : {M : Type 0} → Descriptor M → M → Row → Type 0
Holds descriptor value row =
    (field : Field)
    → elem field descriptor.metadata.fields ≡ true
    → field.primary_key ≡ false
    → row (field_reference field) ≡ descriptor.write_field_value value field

pub name_of_reference : (f g : Field) → field_reference f ≡ field_reference g → f.name ≡ g.name
unfolding field_reference
name_of_reference f g e = ap (λ (r : FieldRef). r.name) e

name-elem :
    (f : Field) (fields : List Field)
    → elem f fields ≡ true
    → elem f.name (map (λ (g : Field). g.name) fields) ≡ true
unfolding elem
name-elem f [] h = cc
name-elem f (g ∷ fields) h = elim (Bool-cases (f == g)) [
  | inl same ↦
      let e : f ≡ g = (==_iff f g).0 same in
      let named : (f.name == g.name) ≡ true =
        (==_iff f.name g.name).1 (ap (λ (x : Field). x.name) e) in
      ground (arith, named)
  | inr other ↦ ground (arith, name-elem f fields (rw other at h))
]

-- Fields whose names differ.
pub Nodup-Distinct :
    (fields : List Field) → Nodup (map (λ (f : Field). f.name) fields) → Distinct fields
unfolding elem
Nodup-Distinct [] nodup f g hf hg e = cc
Nodup-Distinct (x ∷ fields) (apart, nodup) f g hf hg e = elim (Bool-cases (f == x)) [
  | inl f_first ↦ elim (Bool-cases (g == x)) [
    | inl g_first ↦ (==_iff f x).0 f_first ∙ sym ((==_iff g x).0 g_first)
    | inr g_later ↦
        let at_f = ap (λ (y : Field). y.name) ((==_iff f x).0 f_first) in
        let clash = name-elem g fields (rw g_later at hg) in
        let e' : g.name ≡ x.name = sym e ∙ at_f in absurd (cc)
  ]
  | inr f_later ↦ elim (Bool-cases (g == x)) [
    | inl g_first ↦
        let at_g = ap (λ (y : Field). y.name) ((==_iff g x).0 g_first) in
        let clash = name-elem f fields (rw f_later at hf) in
        let e' : f.name ≡ x.name = e ∙ at_g in absurd (cc)
    | inr g_later ↦ Nodup-Distinct fields nodup f g (rw f_later at hf) (rw g_later at hg) e
  ]
]
