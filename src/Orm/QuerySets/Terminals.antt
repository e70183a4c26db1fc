-- ===== src/Orm/QuerySets/Terminals.antt =====
-- The terminal operations of orm/manager.go, run one at a time. The parameters are the descriptor's Scan
-- and CloneModel, what the context's Err returns at the end of a call, and the greatest int.
use godj.Base.{
  ℕ, zero, suc, nat_eq, Bool, not, List, [], ◌∷◌, ◌++◌, map, Option, none, some, ◌==◌, ◌⊎◌, inl,
  inr, ℤ, pos, negsuc, int_eq, is_nil, length, ok, err, stuck, ◌>>=◌, ◌>>◌, fail_if,
}
use godj.Query.{Failure, Plan, ErrorCategory, ErrorCode, error_of}
use godj.Orm.{Context}
use godj.Orm.QuerySets.{
  Joined, one_error, errors_of, unless, QuerySet, Rows, Queryer, open_rows, plan_with_maximum_rows,
  validate_terminal,
}

-- The element at a place, and how many calls of Next reach it or the end.
unfoldable pub nth : {A : Type 0} → ℕ → List A → Option A
nth n [] = none
nth zero (x ∷ xs) = some x
nth (suc n) (x ∷ xs) = nth n xs

unfoldable pub nexts : {A : Type 0} → ℕ → List A → ℕ
nexts n [] = 1
nexts zero (x ∷ xs) = 1
nexts (suc n) (x ∷ xs) = suc (nexts n xs)

-- The end of a loop over rows: its error, that of the rows, and that of closing them.
unfoldable pub finish : {R A : Type 0} → List Failure → ℕ → Rows R → A → Joined A
finish failures calls rows a =
    unless (failures ++ errors_of (rows.failed calls) ++ errors_of rows.close_failed) a

module _ {R M : Type 0} (scan : R → Failure ⊎ M) (clone : M → M) (ended : Option Failure)
    (max_int : ℕ) where
  -- A call that ends after its context is an error.
  abbrev pub in_time {ℓ} : {A : Type ℓ} → A → Joined A
  in_time a = unless (errors_of ended) a

  -- The loop of `scanAll`: the values, the error, and the calls of Next.
  abbrev pub Scanned : Type 0
  Scanned = List M × List Failure × ℕ

  abbrev pub scanned : Failure ⊎ M → Scanned → Scanned
  scanned (inl failure) rest = ([], failure ∷ [], 1)
  scanned (inr value) (values, failures, calls) = (clone value ∷ values, failures, suc calls)

  unfoldable pub scan_loop : List R → Scanned
  scan_loop [] = ([], [], 1)
  scan_loop (r ∷ rs) = scanned (scan r) (scan_loop rs)

  unfoldable pub scan_all : Queryer R → Plan → Joined (List M)
  scan_all backend plan = do
    rows ← open_rows backend plan
    let (values, failures, calls) = scan_loop rows.items
    finish failures calls rows values

  -- `All`, on the values that the cache holds, if it does: the result and the cache afterwards.
  unfoldable pub evaluated : Joined (List M) → Joined (List M) × Option (List M)
  evaluated (ok values) = (ok (map clone values), some values)
  evaluated (err failures) = (err failures, none)
  evaluated stuck = (stuck, none)

  unfoldable pub all_values :
      Context → Option (Queryer R) → QuerySet → Option (List M) → Joined (List M) × Option (List M)
  all_values context backend q cache = elim (validate_terminal context backend q) [
    | err failure ↦ (err (failure ∷ []), cache)
    | stuck ↦ (stuck, cache)
    | ok queryer ↦ elim cache [
      | some values ↦ (ok (map clone values), some values)
      | none ↦ evaluated (scan_all queryer q.plan >>= λ values. in_time values)
    ]
  ]

  unfoldable pub count_cold : Queryer R → Plan → Joined ℕ
  count_cold backend plan = do
    rows ← open_rows backend plan
    n ← finish [] (suc (length rows.items)) rows (length rows.items)
    in_time n

  unfoldable pub count : Context → Option (Queryer R) → QuerySet → Option (List M) → Joined ℕ
  count context backend q cache = do
    queryer ← one_error (validate_terminal context backend q)
    elim cache [ some values ↦ ok (length values) | none ↦ count_cold queryer q.plan ]

  unfoldable pub exists_cold : Queryer R → Plan → Joined Bool
  exists_cold backend plan = do
    rows ← open_rows backend (plan_with_maximum_rows plan 1)
    found ← finish [] 1 rows (not (is_nil rows.items))
    in_time found

  unfoldable pub exists : Context → Option (Queryer R) → QuerySet → Option (List M) → Joined Bool
  exists context backend q cache = do
    queryer ← one_error (validate_terminal context backend q)
    elim cache [ some values ↦ ok (not (is_nil values)) | none ↦ exists_cold queryer q.plan ]

  -- The row at the place, scanned.
  unfoldable pub scan_found : Option R → Option M × List Failure
  scan_found none = (none, [])
  scan_found (some r) = elim (scan r) [
    | inl failure ↦ (none, failure ∷ [])
    | inr value ↦ (some (clone value), [])
  ]

  unfoldable pub at_cold : Queryer R → Plan → ℕ → Joined (Option M)
  at_cold backend plan index = do
    rows ← open_rows backend (plan_with_maximum_rows plan (suc index))
    let (value, failures) = scan_found (nth index rows.items)
    found ← finish failures (nexts index rows.items) rows value
    in_time found

  abbrev pub cloned : Option M → Option M
  cloned none = none
  cloned (some value) = some (clone value)

  unfoldable pub at_place : Queryer R → Plan → ℕ → Option (List M) → Joined (Option M)
  at_place backend plan index none = at_cold backend plan index
  at_place backend plan index (some values) = ok (cloned (nth index values))

  abbrev pub argument_error : Failure
  argument_error = error_of ErrorCategory.argument ErrorCode.invalid_index []

  abbrev pub checked_index : ℤ → Joined ℕ
  checked_index (negsuc n) = err (argument_error ∷ [])
  checked_index (pos n) = fail_if (n == max_int) (argument_error ∷ []) >> ok n

  -- `At`: none where it is not found.
  unfoldable pub at :
      Context → Option (Queryer R) → QuerySet → Option (List M) → ℤ → Joined (Option M)
  at context backend q cache index = do
    queryer ← one_error (validate_terminal context backend q)
    place ← checked_index index
    fail_if (is_nil q.plan.orderings)
        (error_of ErrorCategory.query ErrorCode.unordered_query [] ∷ [])
    at_place queryer q.plan place cache

  unfoldable pub first :
      Context → Option (Queryer R) → QuerySet → Option (List M) → Joined (Option M)
  first context backend q cache = at context backend q cache (pos 0)

  -- A callback that is not nil, with a state of its own.
  module _ {T : Type 0} (callback : M → T → Option Failure × T) where
    -- The loop of `Iterate`: the error, the calls of Next, and the callback's state.
    unfoldable pub iterate_loop : List R → ℕ → T → List Failure × ℕ × T
    iterate_loop [] calls t = ([], suc calls, t)
    iterate_loop (r ∷ rs) calls t = elim (scan r) [
      | inl failure ↦ (failure ∷ [], suc calls, t)
      | inr value ↦ elim (callback (clone value) t).0 [
        | some failure ↦ (failure ∷ [], suc calls, (callback (clone value) t).1)
        | none ↦ iterate_loop rs (suc calls) (callback (clone value) t).1
      ]
    ]

    unfoldable pub iterate_rows : Joined (Rows R) → T → Joined (Unit {0}) × T
    iterate_rows (err failures) t = (err failures, t)
    iterate_rows stuck t = (stuck, t)
    iterate_rows (ok rows) t =
        let (failures, calls, u) = iterate_loop rows.items 0 t in
        (finish failures calls rows tt >>= λ done. in_time tt, u)

    unfoldable pub iterate : Context → Option (Queryer R) → QuerySet → T → Joined (Unit {0}) × T
    iterate context backend q t = elim (validate_terminal context backend q) [
      | err failure ↦ (err (failure ∷ []), t)
      | stuck ↦ (stuck, t)
      | ok queryer ↦ iterate_rows (open_rows queryer q.plan) t
    ]
