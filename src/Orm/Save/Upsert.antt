-- ===== src/Orm/Save/Upsert.antt =====
-- Save without options of a model that has a key, against a table.
use native.Mathlib.Decide.{ℕ_discrete}
use mathlib.Core.Path.{subst}
use godj.Base.{
  ◌≡◌, refl, sym, ap, ◌∙◌, Bool, true, false, ◌&&◌, List, [], ◌∷◌, Option, none, some, inl, inr,
  Bool-cases, ◌==◌, ==_iff, ==_refl, elem, keep, elem-keep, arith, ℤ, int_eq, Outcome, ok, err, ◌⊎◌,
  is_nil, ok-injective, >>=-eq-ok,
}
use godj.Base.Int.{ℤ-discrete}
use godj.Ir.{Field, field_eq}
use godj.Query.{field_ref_eq, Value, value_eq, Assignment, InsertPlan, Failure}
use godj.Orm.{
  field_reference, new_assignment, Descriptor, Call, auto_primary_key, only_auto, is_auto,
}
use godj.Orm.Rows.{Row, overwrite, Distinct, Holds}
use godj.Orm.Tables.{
  Table, put, empty_row, insert_row, update_row, insert_keyed, update_keyed, empty_update,
  table_backend,
}
use godj.Orm.Save.{
  no_options, apply_all, non_primary_fields, save_assignment, save_assignments, keyed_assignments,
  keyed_plan, SavePlan, build_save_execution_plan, AfterSave, inserted, execute_insert,
  execute_zero_rows, updated, execute_save_plan, execute_built, save_configured,
}
use godj.Orm.Save.Cases.{PlanCases, build-cases}
use godj.Orm.Save.Columns.{keyed-key, inserted-Holds, updated-Holds}

only_auto-elem :
    (fields : List Field) (f : Field) → only_auto fields ≡ some f → elem f fields ≡ true
unfolding only_auto elem
only_auto-elem [] f h = cc
only_auto-elem (g ∷ []) f h = elim (Bool-cases (is_auto g.kind)) [
  | inl auto ↦
      let same : ◌≡◌ {A = Option Field} (some g) (some f) = rw auto at h in
      let e : f ≡ g = cc in ground (arith, (==_iff f g).1 e)
  | inr other ↦ let same : ◌≡◌ {A = Option Field} none (some f) = rw other at h in cc
]
only_auto-elem (g ∷ k ∷ fields) f h = cc

module _ {M : Type 0} (descriptor : Descriptor M) where
  -- There is one assignment for each field.
  save_assignments-is_nil :
      (value : M) (fields : List Field) (as' : List Assignment)
      → save_assignments descriptor value fields ≡ ok as'
      → is_nil as' ≡ is_nil fields
  unfolding save_assignments is_nil
  save_assignments-is_nil value [] as' h = rw (sym (ok-injective h)) refl
  save_assignments-is_nil value (field ∷ fields) as' h =
      let (a, _, h1) = >>=-eq-ok (save_assignment descriptor value field) _ h in
      let (others, _, h2) = >>=-eq-ok (save_assignments descriptor value fields) _ h1 in
      rw (sym (ok-injective h2)) refl

update_keyed-some :
    (as' : List Assignment) (key : Value) (table : Table)
    → is_nil as' ≡ false
    → update_keyed as' key table ≡ update_row (table key) key as' table
unfolding update_keyed is_nil
update_keyed-some [] key table h = absurd (ground arith)
update_keyed-some (a ∷ as') key table h = refl

update_keyed-none :
    (as' : List Assignment) (key : Value) (table : Table)
    → is_nil as' ≡ true
    → update_keyed as' key table ≡ (err empty_update, table)
unfolding update_keyed is_nil
update_keyed-none [] key table h = refl
update_keyed-none (a ∷ as') key table h = absurd (ground arith)

module _ {M : Type 0} (descriptor : Descriptor M) (value : M) (key : Value) where
  -- The save succeeds, leaves the caller's model, and one row for the key holds the saved values; the
  -- rows of other keys are as before.
  abbrev pub Upserted : M → Table → AfterSave (Unit {0}) M Table → Type 0
  Upserted snapshot before after =
      (after.0 ≡ ok tt)
      × (after.1 ≡ value)
      × ((row : Row) × (after.2 key ≡ some row) × Holds descriptor snapshot row)
      × ((k : Value) → (k == key) ≡ false → after.2 k ≡ before k)

  -- A model with a field beside its key is written; of one without, the update is rejected, and
  -- everything stays.
  abbrev pub Saved : M → Table → AfterSave (Unit {0}) M Table → Type 0
  Saved snapshot before after =
      ((is_nil (non_primary_fields descriptor.metadata) ≡ false) × Upserted snapshot before after)
      ⊎ ((is_nil (non_primary_fields descriptor.metadata) ≡ true)
          × (after ≡ (err empty_update, value, before)))

  put-Upserted :
      (snapshot : M) (table : Table) (row : Row)
      → Holds descriptor snapshot row
      → Upserted snapshot table (ok tt, value, put key row table)
  unfolding put
  put-Upserted snapshot table row holds =
      (refl, refl, (row, rw (==_refl key) refl, holds), λ k apart. rw apart refl)

  module _ (distinct : Distinct descriptor.metadata.fields) (primary_key : Field)
      (unique : auto_primary_key descriptor.metadata ≡ some primary_key) (fresh : Table → ℤ)
      (table : Table) where
    key_field :
        elem primary_key (keep (λ (f : Field). f.primary_key) descriptor.metadata.fields) ≡ true
    unfolding auto_primary_key
    key_field =
        only_auto-elem (keep (λ (f : Field). f.primary_key) descriptor.metadata.fields) primary_key
          unique

    key_member : (primary_key.primary_key && elem primary_key descriptor.metadata.fields) ≡ true
    key_member =
        sym (elem-keep (λ (f : Field). f.primary_key) primary_key descriptor.metadata.fields)
        ∙ key_field

    abbrev backend : Call → Table → Outcome Failure ℤ × Table
    backend = table_backend (field_reference primary_key) fresh

    updated-Upserted :
        (snapshot : M) (as' : List Assignment)
        → save_assignments descriptor snapshot (non_primary_fields descriptor.metadata) ≡ ok as'
        → (o : Option Row) → o ≡ table key
        → Upserted snapshot table (
            updated descriptor backend
              (keyed_plan descriptor no_options primary_key key as')
              value
              (update_row o key as' table))
    unfolding updated inserted update_row insert_row insert_keyed table_backend keyed_plan
        execute_zero_rows execute_insert ℤ-discrete ℕ_discrete
    updated-Upserted snapshot as' saved (some row) e =
        put-Upserted snapshot table (overwrite as' row) (
          updated-Holds descriptor distinct primary_key key (ground (arith, key_member))
            (ground (arith, key_member)) snapshot as' row saved)
    updated-Upserted snapshot as' saved none e =
        let is_key : primary_key.primary_key ≡ true = ground (arith, key_member) in
        let in_model : elem primary_key descriptor.metadata.fields ≡ true =
          ground (arith, key_member) in
        let columns =
          keyed_assignments descriptor (new_assignment primary_key key) as'
            descriptor.metadata.fields in
        let insert : InsertPlan = record {
          table = descriptor.metadata.db_table;
          assignments = columns;
        } in
        let answers : backend (Call.insert insert) table
            ≡ (ok key.integer, put key (overwrite columns empty_row) table) =
          ap (λ o. insert_keyed (field_reference primary_key) fresh o columns table)
            (keyed-key descriptor distinct primary_key key is_key in_model as'
              descriptor.metadata.fields (λ g h. h) in_model)
          ∙ ap (λ o. insert_row o key columns table) (sym e) in
        subst
          (λ (a : Outcome Failure ℤ × Table). Upserted snapshot table (
            inserted descriptor backend (keyed_plan descriptor no_options primary_key key as') value
              a))
          (sym answers)
          (put-Upserted snapshot table (overwrite columns empty_row)
            (inserted-Holds descriptor distinct primary_key key is_key in_model snapshot as' saved))

    keyed-Saved :
        (snapshot : M) (as' : List Assignment)
        → save_assignments descriptor snapshot (non_primary_fields descriptor.metadata) ≡ ok as'
        → Saved snapshot table (
            updated descriptor backend
              (keyed_plan descriptor no_options primary_key key as')
              value
              (update_keyed as' key table))
    unfolding updated
    keyed-Saved snapshot as' saved =
        let as_many =
          save_assignments-is_nil descriptor snapshot (non_primary_fields descriptor.metadata) as'
            saved in
        elim (Bool-cases (is_nil as')) [
          | inl without ↦
              inr (sym as_many ∙ without, rw (update_keyed-none as' key table without) refl)
          | inr with_some ↦ inl (
            sym as_many ∙ with_some,
            rw (update_keyed-some as' key table with_some)
                (updated-Upserted snapshot as' saved (table key) refl),
          )
        ]

    planned-Saved :
        (snapshot : M) (plan : SavePlan)
        → descriptor.primary_key snapshot ≡ (key, true)
        → PlanCases descriptor primary_key snapshot no_options plan
        → Saved snapshot table (execute_save_plan descriptor backend plan value table)
    unfolding execute_save_plan keyed_plan table_backend
    planned-Saved snapshot plan keyed (inl (masked, e)) = cc
    planned-Saved snapshot plan keyed (inr (selected, as', saved, inl (absent, _, _, _))) =
        let present : (descriptor.primary_key snapshot).1 ≡ true =
          ap (λ (k : Value × Bool). k.1) keyed in
        cc
    planned-Saved snapshot plan keyed (inr (selected, as', saved, inr (present, _, _, e))) =
        let known : plan ≡ keyed_plan descriptor no_options primary_key key as' =
          e
          ∙ ap (λ (k : Value × Bool). keyed_plan descriptor no_options primary_key k.0 as') keyed in
        subst (λ p. Saved snapshot table (execute_save_plan descriptor backend p value table))
          (sym known) (keyed-Saved snapshot as' saved)

    -- Where the fields have different names, the primary key is their one AutoField key and the model
    -- has a key, a save without options that gets as far as the backend has one of two ends. If the
    -- model has a field beside its key, the save succeeds and leaves the caller's model as it was: the
    -- row of the key holds the values of the model's copy, whether or not there was one, and all other
    -- rows are as they were. If the key is the only field, the save fails with the error for an update
    -- without assignments, and the model and all rows are as they were.
    pub save_configured-Upserted :
        (plan : SavePlan)
        → descriptor.primary_key (descriptor.clone_write_model value) ≡ (key, true)
        → build_save_execution_plan descriptor primary_key (descriptor.clone_write_model value) []
          ≡ ok plan
        → Saved
            (descriptor.clone_write_model value)
            table
            (save_configured descriptor backend primary_key value [] table)
    unfolding save_configured execute_built apply_all
    save_configured-Upserted plan keyed built =
        let snapshot = descriptor.clone_write_model value in
        let (state, applied, cases) = build-cases descriptor primary_key snapshot [] plan built in
        let same : state ≡ no_options = sym (ok-injective applied) in
        rw built (
          planned-Saved snapshot plan keyed
            (subst (λ st. PlanCases descriptor primary_key snapshot st plan) same cases))
