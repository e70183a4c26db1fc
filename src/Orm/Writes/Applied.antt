-- ===== src/Orm/Writes/Applied.antt =====
-- What a row holds after the plan of a checked mutation.
use mathlib.Core.Path.{subst}
use godj.Base.{
  ◌≡◌, refl, sym, ap, ◌∙◌, GoString, string_eq, true, false, not, ◌&&◌, ◌||◌, inl, inr, Bool-cases,
  List, [], ◌∷◌, Option, none, some, ◌==◌, ==_iff, ==_refl, elem, find-eq-some, is_nil, arith, ok,
  fail_if, >>=-eq-ok, >>-eq-ok, ok-injective,
}
use godj.Ir.{Field, field_eq}
use godj.Query.{field_ref_eq, Value, value_eq, Assignment, InsertPlan, UpdatePlan}
use godj.Orm.{
  field_reference, invalid_write_plan, mutation_field, mutation_value_matches, Descriptor, require,
}
use godj.Orm.Rows.{Row, assigned, overwrite, Distinct, Holds, name_of_reference}
use godj.Orm.Dynamic.Compiled.{require-eq-ok}
use godj.Orm.Save.Cases.{fail_if-eq-ok}
use godj.Orm.Writes.{
  Built, CreateInput, PatchInput, MutationKind, same_kind, holds_value, unchanged,
  validate_assignment, validate_assignments, require_all, require_unchanged, validate_create,
  validate_patch, checked_key, plan_create, plan_patch,
}

module _ {M : Type 0} (descriptor : Descriptor M) where
  -- What a checked assignment says of its field.
  abbrev Writes : M → Assignment → Field → Type 0
  Writes value a f =
      (elem f descriptor.metadata.fields ≡ true)
      × (field_reference f ≡ a.field)
      × (descriptor.write_field_value value f ≡ some a.value)

  holds_value-eq :
      (value : M) (f : Field) (v : Value)
      → holds_value descriptor value f v ≡ true
      → descriptor.write_field_value value f ≡ some v
  holds_value-eq value f v h = held (descriptor.write_field_value value f) h
    where
      held : (o : Option Value) → (elim o [ none ↦ false | some w ↦ w == v ]) ≡ true → o ≡ some v
      held none h = cc
      held (some w) h = ap some ((==_iff w v).0 h)

  checked-Writes :
      (value : M) (seen : List GoString) (a : Assignment) (f : Field)
      → validate_assignment descriptor value seen a ≡ ok f
      → Writes value a f
  unfolding validate_assignment mutation_field
  checked-Writes value seen a f h =
      let (g, found, h1) = >>=-eq-ok (require _ (mutation_field descriptor.metadata a.field)) _ h in
      let (_, h2) = >>-eq-ok (fail_if g.primary_key _) _ h1 in
      let (_, h3) = >>-eq-ok (fail_if (elem g.name seen) _) _ h2 in
      let (_, h4) = >>-eq-ok (fail_if (not (mutation_value_matches g a.value)) _) _ h3 in
      let (held, h5) = >>-eq-ok (fail_if (not (holds_value descriptor value g a.value)) _) _ h4 in
      let (named, member) =
        find-eq-some (λ (field : Field). field_reference field == a.field)
          descriptor.metadata.fields (require-eq-ok _ _ g found) in
      let kept : not (holds_value descriptor value g a.value) ≡ false = fail_if-eq-ok _ _ held in
      subst (Writes value a) (ok-injective h5) (
        member,
        (==_iff (field_reference g) a.field).0 named,
        holds_value-eq value g a.value (ground (arith, kept)),
      )

  -- The names seen stay.
  seen-elem :
      (value : M) (seen : List GoString) (as' : List Assignment) (names : List GoString)
      (name : GoString)
      → validate_assignments descriptor value seen as' ≡ ok names
      → elem name seen ≡ true
      → elem name names ≡ true
  unfolding validate_assignments elem
  seen-elem value seen [] names name h member = rw (← ok-injective h) member
  seen-elem value seen (a ∷ as') names name h member =
      let (f, checked, h1) = >>=-eq-ok (validate_assignment descriptor value seen a) _ h in
      seen-elem value (f.name ∷ seen) as' names name h1 (ground (arith, member))

  module _ (distinct : Distinct descriptor.metadata.fields) where
    -- A field whose name the assignments bring has the model's value.
    named-assigned :
        (value : M) (seen : List GoString) (as' : List Assignment) (names : List GoString)
        (field : Field)
        → validate_assignments descriptor value seen as' ≡ ok names
        → elem field descriptor.metadata.fields ≡ true
        → elem field.name seen ≡ false
        → elem field.name names ≡ true
        → (v : Value) × (assigned as' (field_reference field) ≡ some v)
          × (descriptor.write_field_value value field ≡ some v)
    unfolding validate_assignments assigned elem
    named-assigned value seen [] names field h member new named =
        let e : seen ≡ names = ok-injective h in
        let clash : elem field.name seen ≡ true = rw e named in absurd (cc)
    named-assigned value seen (a ∷ as') names field h member new named =
        let (f, checked, h1) = >>=-eq-ok (validate_assignment descriptor value seen a) _ h in
        let (member_f, reference, held) = checked-Writes value seen a f checked in
        elim (Bool-cases (a.field == field_reference field)) [
          | inl here ↦
              let same : f ≡ field = distinct f field member_f member (
                name_of_reference f field
                  (reference ∙ (==_iff a.field (field_reference field)).0 here)) in
              (
                a.value,
                rw here refl,
                subst (λ g. descriptor.write_field_value value g ≡ some a.value) same held,
              )
          | inr other ↦ elim (Bool-cases (field.name == f.name)) [
            | inl same_name ↦
                let same : field ≡ f =
                  distinct field f member member_f ((==_iff field.name f.name).0 same_name) in
                let clash : (a.field == field_reference field) ≡ true =
                  (==_iff a.field (field_reference field)).1
                    (sym reference ∙ ap field_reference (sym same)) in
                absurd (cc)
            | inr other_name ↦ rw other (
                named-assigned value (f.name ∷ seen) as' names field h1 member
                  (ground (arith, other_name)) named)
          ]
        ]

    -- A field whose name they do not bring has no assignment.
    unnamed-assigned :
        (value : M) (seen : List GoString) (as' : List Assignment) (names : List GoString)
        (field : Field)
        → validate_assignments descriptor value seen as' ≡ ok names
        → elem field.name names ≡ false
        → assigned as' (field_reference field) ≡ none
    unfolding validate_assignments assigned elem
    unnamed-assigned value seen [] names field h absent = refl
    unnamed-assigned value seen (a ∷ as') names field h absent =
        let (f, checked, h1) = >>=-eq-ok (validate_assignment descriptor value seen a) _ h in
        let (member_f, reference, held) = checked-Writes value seen a f checked in
        elim (Bool-cases (a.field == field_reference field)) [
          | inl here ↦
              let same_name : f.name ≡ field.name =
                name_of_reference f field
                  (reference ∙ (==_iff a.field (field_reference field)).0 here) in
              let kept =
                seen-elem value (f.name ∷ seen) as' names f.name h1
                  (ground (arith, ==_refl f.name)) in
              let clash : elem field.name names ≡ true = rw (← same_name) kept in absurd (cc)
          | inr other ↦ rw other (unnamed-assigned value (f.name ∷ seen) as' names field h1 absent)
        ]

  required-elem :
      (seen : List GoString) (fields : List Field) (field : Field)
      → require_all descriptor seen fields ≡ ok tt
      → elem field fields ≡ true
      → field.primary_key ≡ false
      → elem field.name seen ≡ true
  unfolding require_all elem
  required-elem seen [] field h member plain = cc
  required-elem seen (f ∷ fields) field h member plain =
      let (checked, h1) = >>-eq-ok (fail_if (not f.primary_key && not (elem f.name seen)) _) _ h in
      let present = fail_if-eq-ok _ _ checked in
      elim (Bool-cases (field == f)) [
        | inl here ↦
            let e : field ≡ f = (==_iff field f).0 here in
            let plain_f : f.primary_key ≡ false =
              subst (λ (g : Field). g.primary_key ≡ false) e plain in
            subst (λ (g : Field). elem g.name seen ≡ true) (sym e)
              (ground (arith, present, plain_f))
        | inr later ↦ required-elem seen fields field h1 (rw later at member) plain
      ]

  unchanged-eq :
      (before after : M) (f : Field)
      → unchanged descriptor before after f ≡ true
      → descriptor.write_field_value before f ≡ descriptor.write_field_value after f
  unchanged-eq before after f h = kept (descriptor.write_field_value before f) h
    where
      kept :
          (o : Option Value)
          → (elim o [ none ↦ false | some v ↦ holds_value descriptor after f v ]) ≡ true
          → o ≡ descriptor.write_field_value after f
      kept none h = cc
      kept (some v) h = sym (holds_value-eq after f v h)

  required-unchanged :
      (before after : M) (seen : List GoString) (fields : List Field) (field : Field)
      → require_unchanged descriptor before after seen fields ≡ ok tt
      → elem field fields ≡ true
      → field.primary_key ≡ false
      → elem field.name seen ≡ false
      → descriptor.write_field_value before field ≡ descriptor.write_field_value after field
  unfolding require_unchanged elem
  required-unchanged before after seen [] field h member plain absent = cc
  required-unchanged before after seen (f ∷ fields) field h member plain absent =
      let (checked, h1) =
        >>-eq-ok
          (fail_if
            (not f.primary_key
              && not (elem f.name seen)
              && not (unchanged descriptor before after f))
            _)
          _ h in
      let present = fail_if-eq-ok _ _ checked in
      elim (Bool-cases (field == f)) [
        | inl here ↦
            let e : field ≡ f = (==_iff field f).0 here in
            let plain_f : f.primary_key ≡ false =
              subst (λ (g : Field). g.primary_key ≡ false) e plain in
            let absent_f : elem f.name seen ≡ false =
              subst (λ (g : Field). elem g.name seen ≡ false) e absent in
            subst
              (λ (g : Field).
                descriptor.write_field_value before g ≡ descriptor.write_field_value after g)
              (sym e) (unchanged-eq before after f (ground (arith, present, plain_f, absent_f)))
        | inr later ↦
            required-unchanged before after seen fields field h1 (rw later at member) plain absent
      ]

  -- Where the fields have different names and Create gets as far as the backend, a row that the INSERT
  -- writes holds the model that Create returns, up to its key, whatever the row held before.
  pub plan_create-Holds :
      (input : CreateInput M) (plan : InsertPlan) (value : M) (row : Row)
      → Distinct descriptor.metadata.fields
      → plan_create descriptor input ≡ ok (plan, value)
      → Holds descriptor value (overwrite plan.assignments row)
  unfolding plan_create validate_create overwrite elem
  plan_create-Holds input plan value row distinct h =
      let (built, given, h1) = >>=-eq-ok (require invalid_write_plan input) _ h in
      let (mutation, right, h2) = >>=-eq-ok built _ h1 in
      let (checked, h3) = >>-eq-ok (validate_create descriptor mutation) _ h2 in
      let (_, c1) =
        >>-eq-ok (fail_if (not (same_kind mutation.kind MutationKind.mutation_create)) _) _
          checked in
      let (_, c2) =
        >>-eq-ok (fail_if (not (mutation.table == descriptor.metadata.db_table)) _) _ c1 in
      let (names, valid, all_there) =
        >>=-eq-ok (validate_assignments descriptor mutation.value [] mutation.assignments) _ c2 in
      subst (λ (r : InsertPlan × M). Holds descriptor r.1 (overwrite r.0.assignments row))
        (ok-injective h3)
        λ field member plain.
          let (v, found, held) =
            named-assigned distinct mutation.value [] mutation.assignments names field valid member
              refl (required-elem names descriptor.metadata.fields field all_there member plain) in
          rw (found, held) refl

  patch-Holds :
      (before : M) (mutation : Built M) (row : Row)
      → Distinct descriptor.metadata.fields
      → validate_patch descriptor before mutation ≡ ok tt
      → Holds descriptor before row
      → Holds descriptor mutation.value (overwrite mutation.assignments row)
  unfolding validate_patch overwrite elem
  patch-Holds before mutation row distinct checked holds =
      let (_, c1) =
        >>-eq-ok (fail_if (not (same_kind mutation.kind MutationKind.mutation_patch)) _) _
          checked in
      let (_, c2) =
        >>-eq-ok (fail_if (not (mutation.table == descriptor.metadata.db_table)) _) _ c1 in
      let (_, c3) = >>-eq-ok (fail_if (is_nil mutation.assignments) _) _ c2 in
      let (names, valid, same) =
        >>=-eq-ok (validate_assignments descriptor mutation.value [] mutation.assignments) _ c3 in
      λ field member plain. elim (Bool-cases (elem field.name names)) [
        | inl named ↦
            let (v, found, held) =
              named-assigned distinct mutation.value [] mutation.assignments names field valid
                member refl named in
            rw (found, held) refl
        | inr absent ↦
            let untouched =
              unnamed-assigned distinct mutation.value [] mutation.assignments names field valid
                absent in
            rw untouched (
              holds field member plain
              ∙ required-unchanged before mutation.value names descriptor.metadata.fields field same
                  member plain absent)
      ]

  -- Where the fields have different names and Update gets as far as the backend, its UPDATE is for the
  -- key of the given model, which the returned model has too, and turns a row that holds the given
  -- model into one that holds the returned one.
  pub plan_patch-Holds :
      (primary_key : Field) (current : M) (input : PatchInput M) (plan : UpdatePlan) (result : M)
      (row : Row)
      → Distinct descriptor.metadata.fields
      → plan_patch descriptor primary_key current input ≡ ok (plan, result)
      → Holds descriptor (descriptor.clone_write_model current) row
      → (plan.key_value ≡ (descriptor.primary_key current).0)
        × (descriptor.primary_key result ≡ (plan.key_value, true))
        × Holds descriptor result (overwrite plan.assignments row)
  unfolding plan_patch checked_key
  plan_patch-Holds primary_key current input plan result row distinct h holds =
      let (key, keyed, h1) = >>=-eq-ok (checked_key descriptor primary_key current) _ h in
      let (build, given, h2) = >>=-eq-ok (require invalid_write_plan input) _ h1 in
      let (mutation, built, h3) = >>=-eq-ok (build (descriptor.clone_write_model current)) _ h2 in
      let (checked, h4) =
        >>-eq-ok (validate_patch descriptor (descriptor.clone_write_model current) mutation) _ h3 in
      let key_changes =
        not (descriptor.primary_key mutation.value).1
        || not ((descriptor.primary_key mutation.value).0 == key) in
      let (key_kept, h5) = >>-eq-ok (fail_if key_changes _) _ h4 in
      let (_, h6) = >>-eq-ok (fail_if (is_nil mutation.assignments) _) _ h5 in
      let (_, k1) = >>-eq-ok (fail_if (not (descriptor.primary_key current).1) _) _ keyed in
      let (_, k2) = >>-eq-ok (fail_if _ invalid_write_plan) _ k1 in
      let same_key : (descriptor.primary_key current).0 ≡ key = ok-injective k2 in
      let kept : key_changes ≡ false = fail_if-eq-ok _ _ key_kept in
      let equal = (==_iff (descriptor.primary_key mutation.value).0 key).0 (ground (arith, kept)) in
      let present : (descriptor.primary_key mutation.value).1 ≡ true = ground (arith, kept) in
      subst
        (λ (r : UpdatePlan × M).
          (r.0.key_value ≡ (descriptor.primary_key current).0)
          × (descriptor.primary_key r.1 ≡ (r.0.key_value, true))
          × Holds descriptor r.1 (overwrite r.0.assignments row))
        (ok-injective h6)
        (
          sym same_key,
          λ i. (equal i, present i),
          patch-Holds (descriptor.clone_write_model current) mutation row distinct checked holds,
        )
