-- ===== src/Migrations/Planner/Histories.antt =====
-- NewAppliedState of migrations/planner.go: which lists of keys are an applied state.
use godj.Base.{
  ◌≡◌, refl, ◌↔◌, true, not, List, some, inl, inr, Option-cases, find, all, all-intro, all-elem,
  find-eq-none, find-eq-some, Nodup, adjacent_duplicate, sort, arith, ok,
}
use godj.Base.Sort.{adjacent_duplicate-sort, elem-sort}
use godj.Migrations.Keys.{
  MigrationKey, key_eq, key_order, valid_migration_key, migration_key_less, sort_migration_keys,
}
use godj.Migrations.Planner.{new_applied_state}

-- `NewAppliedState` accepts a list of keys, and then holds them in sorted order, exactly when all of
-- them are valid and none stands in the list twice.
pub new_applied_state_iff :
    (keys : List MigrationKey)
    → (new_applied_state keys ≡ ok (record { keys = some (sort_migration_keys keys) }))
      ↔ ((all valid_migration_key keys ≡ true) × Nodup keys)
unfolding new_applied_state sort_migration_keys
new_applied_state_iff keys =
    let ordered = sort migration_key_less keys in
    let invalid = λ (key : MigrationKey). not (valid_migration_key key) in
    let distinct = adjacent_duplicate-sort migration_key_less key_order keys in
    elim (Option-cases (find invalid ordered)) [
      | inr (key, found) ↦
          let (bad, m) = find-eq-some invalid ordered found in
          (
            λ h. absurd (ground arith),
            λ (valid, _). absurd (
                ground (
                  arith,
                  all-elem valid_migration_key key keys valid,
                  elem-sort migration_key_less key keys,
                )),
          )
      | inl none_found ↦
          let valid : all valid_migration_key keys ≡ true =
            all-intro valid_migration_key keys (λ key m. ground (
              arith,
              find-eq-none invalid key ordered none_found,
              elem-sort migration_key_less key keys,
            )) in
          elim (Option-cases (adjacent_duplicate ordered)) [
            | inl no_repetition ↦ (
              λ h. (valid, distinct.0 no_repetition),
              λ d. rw (new_applied_state, none_found, no_repetition) refl,
            )
            | inr (key, twice) ↦ (
              λ h. absurd (ground arith),
              λ (_, d). let alone = distinct.1 d in absurd (ground arith),
            )
          ]
    ]
