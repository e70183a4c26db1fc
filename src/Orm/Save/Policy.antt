-- ===== src/Orm/Save/Policy.antt =====
-- The calls that Save makes, for every backend and all options.
use godj.Base.{
  Bool, true, false, not, ◌||◌, ◌&&◌, ◌≡◌, ◌⊎◌, List, [], ◌∷◌, ◌++◌, some, ℤ, pos, int_eq, ok,
}
use godj.Ir as Ir
use godj.Query.{InsertPlan, Checked}
use godj.Orm.{Descriptor, Call, Mutator}
use godj.Orm.Save.{OptionState, SavePlan, AfterSave, ZeroRows}

-- A backend that also notes the calls that it gets.
unfoldable pub recording : {S : Type 0} → Mutator S → Mutator (S × List Call)
recording backend call (s, log) = ((backend call s).0, ((backend call s).1, log ++ call ∷ []))

module _ {S : Type 0} (backend : Mutator S) (s : S) where
  -- The calls that the options and the presence of a key allow, with the replies where it succeeds.
  abbrev pub Allowed : Bool → OptionState → Checked (Unit {0}) → List Call → Type 0
  Allowed present state result [] = result ≡ ok tt → state.field_mask_set ≡ true
  Allowed present state result (Call.insert i ∷ []) =
      ((present && not state.force_insert) ≡ false)
      × (state.force_update ≡ false)
      × (state.field_mask_set ≡ false)
      × (result ≡ ok tt → (id : ℤ) × ((backend (Call.insert i) s).0 ≡ ok id))
  Allowed present state result (Call.update u ∷ []) =
      (present ≡ true)
      × (state.force_insert ≡ false)
      × ((backend (Call.update u) s).0 ≡ ok (pos 0)
          → (state.force_update || state.field_mask_set) ≡ true)
      × (result ≡ ok tt → (backend (Call.update u) s).0 ≡ ok (pos 1))
  Allowed present state result (Call.update u ∷ Call.insert i ∷ []) =
      (present ≡ true)
      × (state.force_insert ≡ false)
      × (state.force_update ≡ false)
      × (state.field_mask_set ≡ false)
      × ((backend (Call.update u) s).0 ≡ ok (pos 0))
      × (result ≡ ok tt
          → (id : ℤ) × ((backend (Call.insert i) (backend (Call.update u) s).1).0 ≡ ok id))
  Allowed _ _ _ _ = ⊥

  module _ {M : Type 0} (descriptor : Descriptor M) (value : M) where
    -- The caller's model stays, or gets the key that one insert without a key made.
    abbrev pub Kept : Bool → M → List Call → Type 0
    Kept present left log =
        (left ≡ value)
        ⊎ ((present ≡ false)
            × (i : InsertPlan) × (id : ℤ) × (log ≡ Call.insert i ∷ [])
            × ((backend (Call.insert i) s).0 ≡ ok id)
            × (left ≡ descriptor.set_primary_key value id))

    abbrev pub Follows : Bool → OptionState → AfterSave (Unit {0}) M (S × List Call) → Type 0
    Follows present state after =
        Allowed present state after.0 after.2.1 × Kept present after.1 after.2.1

    -- After an update: nothing more, or the insert where no row was there.
    abbrev pub Continues : OptionState → SavePlan → InsertPlan → Type 0
    Continues state plan i =
        ((plan.zero_rows ≡ ZeroRows.not_updated)
          × ((state.force_update || state.field_mask_set) ≡ true))
        ⊎ ((plan.zero_rows ≡ ZeroRows.insert)
            × (plan.insert ≡ some i)
            × (plan.assign_generated_key ≡ false)
            × (state.force_update ≡ false)
            × (state.field_mask_set ≡ false))
