-- ===== src/Orm/Save/Cases.antt =====
-- What a plan of Save can be.
use godj.Base.{
  Bool, true, false, not, ◌||◌, ◌&&◌, ◌≡◌, refl, sym, ◌⊎◌, inl, inr, Bool-cases, List, some,
  if◌then◌else◌, pos, int_eq, ◌==◌, is_nil, ok, >>=-eq-ok, >>-eq-ok, ok-injective, fail_if, arith,
}
use godj.Ir as Ir
use godj.Query.{Value, is_null, Assignment}
use godj.Orm.{Descriptor, invalid_write_plan, reject, mutation_value_matches}
use godj.Orm.Save.{
  SaveOption, OptionState, no_options, apply_all, resolve_save_fields, non_primary_fields,
  save_assignments, keyed_plan, keyless_plan, plan_of_key, plan_of_options,
  build_save_execution_plan, SavePlan, empty_plan, exclusive_flags,
}

pub fail_if-eq-ok : {E : Type 0} (test : Bool) (e : E) → fail_if test e ≡ ok tt → test ≡ false
fail_if-eq-ok false e h = refl
fail_if-eq-ok true e h = cc

module _ {M : Type 0} (descriptor : Descriptor M) (primary_key : Ir.Field) (value : M) where
  abbrev pub key_of : Value
  key_of = (descriptor.primary_key value).0

  abbrev pub has_key : Bool
  has_key = (descriptor.primary_key value).1

  -- The fields that a save writes.
  abbrev pub written_fields : OptionState → List Ir.Field → List Ir.Field
  written_fields state selected =
      if state.field_mask_set then selected else non_primary_fields descriptor.metadata

  -- Nothing to do, a first insert, or a save of a model with a key.
  abbrev pub PlanCases : OptionState → SavePlan → Type 0
  PlanCases state plan =
      ((state.field_mask_set ≡ true) × (plan ≡ record empty_plan { no_op = true }))
      ⊎ ((selected : List Ir.Field) × (assignments : List Assignment) × (save_assignments descriptor
              value (written_fields state selected)
            ≡ ok assignments)
          × (((has_key ≡ false)
                × (state.force_update ≡ false)
                × (state.field_mask_set ≡ false)
                × (plan ≡ record empty_plan {
                  insert =
                      some (record {
                        table = descriptor.metadata.db_table;
                        assignments = assignments;
                      });
                  assign_generated_key = true;
                }))
              ⊎ ((has_key ≡ true)
                  × ((state.force_insert && state.force_update) ≡ false)
                  × ((state.force_insert && state.field_mask_set) ≡ false)
                  × (plan ≡ keyed_plan descriptor state primary_key key_of assignments))))

  keyless-cases :
      (state : OptionState) (assignments : List Assignment) (plan : SavePlan)
      → keyless_plan descriptor state primary_key assignments ≡ ok plan
      → (state.force_update ≡ false)
        × (state.field_mask_set ≡ false)
        × (plan ≡ record empty_plan {
          insert =
              some (record { table = descriptor.metadata.db_table; assignments = assignments });
          assign_generated_key = true;
        })
  unfolding keyless_plan
  keyless-cases state assignments plan h =
      let (checked, e) = >>-eq-ok (fail_if (state.force_update || state.field_mask_set) _) _ h in
      let none_of : (state.force_update || state.field_mask_set) ≡ false =
        fail_if-eq-ok _ _ checked in
      (ground (arith, none_of), ground (arith, none_of), sym (ok-injective e))

  key-cases :
      (state : OptionState) (selected : List Ir.Field) (plan : SavePlan)
      → (state.force_insert && state.force_update) ≡ false
      → plan_of_key descriptor state primary_key selected value ≡ ok plan
      → PlanCases state plan
  unfolding plan_of_key
  key-cases state selected plan one_force h =
      let (no_mask, h1) =
        >>-eq-ok (fail_if (state.force_insert && state.field_mask_set) exclusive_flags) _ h in
      let (_, h2) =
        >>-eq-ok
          (fail_if (not (mutation_value_matches primary_key key_of) || is_null key_of)
            invalid_write_plan)
          _ h1 in
      let (_, h3) =
        >>-eq-ok (fail_if (not has_key && not (key_of.integer == pos 0)) invalid_write_plan) _ h2 in
      let (assignments, saved, h4) =
        >>=-eq-ok (save_assignments descriptor value (written_fields state selected)) _ h3 in
      elim (Bool-cases has_key) [
        | inl present ↦ inr (
          selected,
          assignments,
          saved,
          inr (
            present,
            one_force,
            fail_if-eq-ok _ _ no_mask,
            sym (ok-injective (rw present at h4)),
          ),
        )
        | inr absent ↦
            let (updating, masked, e) = keyless-cases state assignments plan (rw absent at h4) in
            inr (selected, assignments, saved, inl (absent, updating, masked, e))
      ]

  pub build-cases :
      (options : List SaveOption) (plan : SavePlan)
      → build_save_execution_plan descriptor primary_key value options ≡ ok plan
      → (state : OptionState) × (apply_all options no_options ≡ ok state) × PlanCases state plan
  unfolding build_save_execution_plan plan_of_options
  build-cases options plan h =
      let (state, applied, h1) = >>=-eq-ok (apply_all options no_options) _ h in
      let (_, h2) = >>-eq-ok (reject state.failure) _ h1 in
      let (one_force, h3) =
        >>-eq-ok (fail_if (state.force_insert && state.force_update) exclusive_flags) _ h2 in
      let (selected, resolved, h4) =
        >>=-eq-ok (resolve_save_fields descriptor.metadata state) _ h3 in
      elim (Bool-cases (state.field_mask_set && is_nil selected)) [
        | inl empty ↦
            (state, applied, inl (ground (arith, empty), sym (ok-injective (rw empty at h4))))
        | inr other ↦ (
          state,
          applied,
          key-cases state selected plan (fail_if-eq-ok _ _ one_force) (rw other at h4),
        )
      ]
