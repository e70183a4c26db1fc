-- ===== src/Orm/Save/Columns.antt =====
-- The columns that the statements of a save bring.
use mathlib.Core.Path.{subst}
use godj.Base.{
  ◌≡◌, refl, sym, ap, ◌∙◌, string_eq, Bool, true, false, not, inl, inr, Bool-cases, List, [], ◌∷◌,
  Option, none, some, ◌==◌, ==_iff, ==_refl, elem, elem-keep, arith, int_eq, ok, fail_if, >>=-eq-ok,
  >>-eq-ok, ok-injective,
}
use godj.Ir.{Field, field_eq}
use godj.Query.{FieldRef, field_ref_eq, Value, value_eq, Assignment}
use godj.Orm.{field_reference, new_assignment, mutation_value_matches, Descriptor, require}
use godj.Orm.Rows.{Row, assigned, or_else, overwrite, Distinct, Holds, name_of_reference}
use godj.Orm.Tables.{empty_row}
use godj.Orm.Dynamic.Compiled.{require-eq-ok}
use godj.Orm.Save.{
  non_primary_fields, save_assignment, save_assignments, keyed_step, keyed_assignments,
  assignment_for_field,
}

for_field-assigned :
    (as' : List Assignment) (g : Field) (v : Value)
    → assigned as' (field_reference g) ≡ some v
    → (a : Assignment) × (assignment_for_field as' g ≡ some a)
      × (a.field ≡ field_reference g)
      × (a.value ≡ v)
unfolding assigned assignment_for_field
for_field-assigned [] g v h = cc
for_field-assigned (a ∷ as') g v h = elim (Bool-cases (a.field == field_reference g)) [
  | inl here ↦
      let same : ◌≡◌ {A = Option Value} (some a.value) (some v) = rw here at h in
      rw here (a, refl, (==_iff a.field (field_reference g)).0 here, cc)
  | inr other ↦ rw other (for_field-assigned as' g v (rw other at h))
]

-- What `assignment_for_field` finds is for the field.
for_field-field :
    (as' : List Assignment) (g : Field) (a : Assignment)
    → assignment_for_field as' g ≡ some a
    → a.field ≡ field_reference g
unfolding assignment_for_field
for_field-field [] g a h = cc
for_field-field (b ∷ as') g a h = elim (Bool-cases (b.field == field_reference g)) [
  | inl here ↦
      let same : ◌≡◌ {A = Option Assignment} (some b) (some a) = rw here at h in
      let e : b ≡ a = cc in
      subst (λ (c : Assignment). c.field ≡ field_reference g) e
        ((==_iff b.field (field_reference g)).0 here)
  | inr other ↦ for_field-field as' g a (rw other at h)
]

not-equal : (r s : FieldRef) → (r ≡ s → false ≡ true) → (r == s) ≡ false
not-equal r s apart = elim (Bool-cases (r == s)) [
  | inl same ↦ absurd (cc (apart ((==_iff r s).0 same)))
  | inr other ↦ other
]

-- A step that brings the column, and one that does not.
step-here :
    (is_key : Bool) (key : Assignment) (found : Option Assignment) (a : Assignment)
    (rest : List Assignment) (r : FieldRef) (v : Value)
    → is_key ≡ false
    → found ≡ some a
    → (a.field == r) ≡ true
    → a.value ≡ v
    → assigned (keyed_step is_key key found rest) r ≡ some v
unfolding keyed_step assigned
step-here true key found a rest r v plain e here valued = cc
step-here false key none a rest r v plain e here valued = cc
step-here false key (some b) a rest r v plain e here valued =
    let same : b ≡ a = cc in rw (same, here) (ap some valued)

key-first :
    (is_key : Bool) (key : Assignment) (found : Option Assignment) (rest : List Assignment)
    (r : FieldRef)
    → is_key ≡ true
    → (key.field == r) ≡ true
    → assigned (keyed_step is_key key found rest) r ≡ some key.value
unfolding keyed_step assigned
key-first true key found rest r marked here = rw here refl
key-first false key found rest r marked here = cc

plain-first :
    (is_key : Bool) (key : Assignment) (found : Option Assignment) (rest : List Assignment)
    (r : FieldRef) (v : Value)
    → is_key ≡ false
    → ((a : Assignment) → found ≡ some a → (a.field == r) ≡ false)
    → assigned rest r ≡ some v
    → assigned (keyed_step is_key key found rest) r ≡ some v
unfolding keyed_step assigned
plain-first true key found rest r v plain other h = cc
plain-first false key none rest r v plain other h = h
plain-first false key (some a) rest r v plain other h = rw (other a refl) h

step-later :
    (is_key : Bool) (key : Assignment) (found : Option Assignment) (rest : List Assignment)
    (r : FieldRef) (v : Value)
    → (key.field == r) ≡ false
    → ((a : Assignment) → found ≡ some a → (a.field == r) ≡ false)
    → assigned rest r ≡ some v
    → assigned (keyed_step is_key key found rest) r ≡ some v
unfolding keyed_step assigned
step-later true key found rest r v apart other h = rw apart h
step-later false key found rest r v apart other h =
    plain-first false key found rest r v refl other h

module _ {M : Type 0} (descriptor : Descriptor M)
    (distinct : Distinct descriptor.metadata.fields) where
  abbrev Within : List Field → Type 0
  Within fields = (g : Field) → elem g fields ≡ true → elem g descriptor.metadata.fields ≡ true

  Within-rest : (f : Field) (fields : List Field) → Within (f ∷ fields) → Within fields
  unfolding elem
  Within-rest f fields within g member = within g (ground (arith, member))

  Within-first :
      (f : Field) (fields : List Field)
      → Within (f ∷ fields)
      → elem f descriptor.metadata.fields ≡ true
  unfolding elem
  Within-first f fields within = within f (ground (arith, ==_refl f))

  same_field :
      (f g : Field)
      → elem f descriptor.metadata.fields ≡ true
      → elem g descriptor.metadata.fields ≡ true
      → field_reference f ≡ field_reference g
      → f ≡ g
  same_field f g hf hg e = distinct f g hf hg (name_of_reference f g e)

  saved-assigned :
      (value : M) (fields : List Field) (as' : List Assignment) (field : Field)
      → save_assignments descriptor value fields ≡ ok as'
      → Within fields
      → elem field fields ≡ true
      → (v : Value) × (assigned as' (field_reference field) ≡ some v)
        × (descriptor.write_field_value value field ≡ some v)
  unfolding save_assignments save_assignment assigned elem
  saved-assigned value [] as' field h within member = cc
  saved-assigned value (f ∷ fields) as' field h within member =
      let (a, one, h1) = >>=-eq-ok (save_assignment descriptor value f) _ h in
      let (rest, more, h2) = >>=-eq-ok (save_assignments descriptor value fields) _ h1 in
      let (_, k1) = >>-eq-ok (fail_if f.primary_key _) _ one in
      let (v, has, k2) = >>=-eq-ok (require _ (descriptor.write_field_value value f)) _ k1 in
      let (_, k3) = >>-eq-ok (fail_if (not (mutation_value_matches f v)) _) _ k2 in
      let held = require-eq-ok _ _ v has in
      subst
        (λ (all_ : List Assignment).
          (w : Value) × (assigned all_ (field_reference field) ≡ some w)
          × (descriptor.write_field_value value field ≡ some w))
        (ap (λ b. b ∷ rest) (ok-injective k3) ∙ ok-injective h2)
        (elim (Bool-cases (field_reference f == field_reference field)) [
          | inl here ↦
              let same =
                same_field f field (Within-first f fields within) (within field member)
                  ((==_iff (field_reference f) (field_reference field)).0 here) in
              (
                v,
                rw here refl,
                subst (λ g. descriptor.write_field_value value g ≡ some v) same held,
              )
          | inr other ↦
              let apart : (field == f) ≡ false = elim (Bool-cases (field == f)) [
                | inl e ↦
                    let clash : (field_reference f == field_reference field) ≡ true =
                      (==_iff (field_reference f) (field_reference field)).1
                        (ap field_reference (sym ((==_iff field f).0 e))) in
                    absurd (cc)
                | inr e ↦ e
              ] in
              rw other (
                saved-assigned value fields rest field more (Within-rest f fields within)
                  (rw apart at member))
        ])

  abbrev plain_field : Field → Bool
  plain_field f = not f.primary_key

  column-assigned :
      (value : M) (as' : List Assignment) (field : Field)
      → save_assignments descriptor value (non_primary_fields descriptor.metadata) ≡ ok as'
      → elem field descriptor.metadata.fields ≡ true
      → field.primary_key ≡ false
      → (v : Value) × (assigned as' (field_reference field) ≡ some v)
        × (descriptor.write_field_value value field ≡ some v)
  unfolding non_primary_fields
  column-assigned value as' field saved member plain =
      saved-assigned value (non_primary_fields descriptor.metadata) as' field saved
        (λ g h. ground (arith, elem-keep plain_field g descriptor.metadata.fields, h))
        (ground (arith, elem-keep plain_field field descriptor.metadata.fields, member, plain))

  module _ (primary_key : Field) (key : Value) (is_key : primary_key.primary_key ≡ true)
      (in_model : elem primary_key descriptor.metadata.fields ≡ true) where
    abbrev pub key_part : Assignment
    key_part = new_assignment primary_key key

    flags_differ :
        (f g : Field) → f.primary_key ≡ true → g.primary_key ≡ false → f ≡ g → false ≡ true
    flags_differ f g hf hg e = sym hg ∙ sym (ap (λ (x : Field). x.primary_key) e) ∙ hf

    -- The values of the other columns stay.
    keyed-assigned :
        (as' : List Assignment) (fields : List Field) (field : Field) (v : Value)
        → Within fields
        → elem field fields ≡ true
        → field.primary_key ≡ false
        → assigned as' (field_reference field) ≡ some v
        → assigned (keyed_assignments descriptor key_part as' fields) (field_reference field)
          ≡ some v
    unfolding keyed_assignments elem
    keyed-assigned as' [] field v within member plain h = cc
    keyed-assigned as' (g ∷ fields) field v within member plain h =
        let rest = keyed_assignments descriptor key_part as' fields in
        elim (Bool-cases (field == g)) [
          | inl here ↦
              let e : field ≡ g = (==_iff field g).0 here in
              let (a, found, reference, valued) =
                for_field-assigned as' g v
                  (subst (λ (x : Field). assigned as' (field_reference x) ≡ some v) e h) in
              step-here g.primary_key key_part (assignment_for_field as' g) a rest
                (field_reference field) v (subst (λ (x : Field). x.primary_key ≡ false) e plain)
                found
                ((==_iff a.field (field_reference field)).1
                  (reference ∙ ap field_reference (sym e)))
                valued
          | inr later ↦
              step-later g.primary_key key_part (assignment_for_field as' g) rest
                (field_reference field) v
                (not-equal (field_reference primary_key) (field_reference field) λ clash.
                  flags_differ primary_key field is_key plain
                    (same_field primary_key field in_model (within field member) clash))
                (λ a found. not-equal a.field (field_reference field) λ clash.
                  let same =
                    same_field field g (within field member) (Within-first g fields within)
                      (sym clash ∙ for_field-field as' g a found) in
                  let here : (field == g) ≡ true = (==_iff field g).1 same in cc)
                (keyed-assigned as' fields field v (Within-rest g fields within)
                  (rw later at member) plain h)
        ]

    -- The key is among them.
    pub keyed-key :
        (as' : List Assignment) (fields : List Field)
        → Within fields
        → elem primary_key fields ≡ true
        → assigned (keyed_assignments descriptor key_part as' fields) (field_reference primary_key)
          ≡ some key
    unfolding keyed_assignments elem
    keyed-key as' [] within member = cc
    keyed-key as' (g ∷ fields) within member =
        let rest = keyed_assignments descriptor key_part as' fields in
        let matches : (key_part.field == field_reference primary_key) ≡ true =
          ==_refl (field_reference primary_key) in
        elim (Bool-cases g.primary_key) [
          | inl marked ↦
              key-first g.primary_key key_part (assignment_for_field as' g) rest
                (field_reference primary_key) marked matches
          | inr plain ↦
              let apart : (primary_key == g) ≡ false = elim (Bool-cases (primary_key == g)) [
                | inl same ↦
                    absurd
                      (cc (flags_differ primary_key g is_key plain ((==_iff primary_key g).0 same)))
                | inr other ↦ other
              ] in
              plain-first g.primary_key key_part (assignment_for_field as' g) rest
                (field_reference primary_key) key plain
                (λ a found. not-equal a.field (field_reference primary_key) λ clash.
                  let same =
                    same_field primary_key g in_model (Within-first g fields within)
                      (sym clash ∙ for_field-field as' g a found) in
                  let here : (primary_key == g) ≡ true = (==_iff primary_key g).1 same in cc)
                (keyed-key as' fields (Within-rest g fields within) (rw apart at member))
        ]

    -- The rows that the two statements leave.
    pub inserted-Holds :
        (value : M) (as' : List Assignment)
        → save_assignments descriptor value (non_primary_fields descriptor.metadata) ≡ ok as'
        → Holds descriptor value (
            overwrite
              (keyed_assignments descriptor key_part as' descriptor.metadata.fields)
              empty_row)
    unfolding overwrite
    inserted-Holds value as' saved field member plain =
        let (v, found, held) = column-assigned value as' field saved member plain in
        let kept =
          keyed-assigned as' descriptor.metadata.fields field v (λ g h. h) member plain found in
        ap (λ (o : Option Value). or_else o none) kept ∙ sym held

    pub updated-Holds :
        (value : M) (as' : List Assignment) (row : Row)
        → save_assignments descriptor value (non_primary_fields descriptor.metadata) ≡ ok as'
        → Holds descriptor value (overwrite as' row)
    unfolding overwrite
    updated-Holds value as' row saved field member plain =
        let (v, found, held) = column-assigned value as' field saved member plain in
        ap (λ (o : Option Value). or_else o (row (field_reference field))) found ∙ sym held
