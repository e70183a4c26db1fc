-- ===== src/Orm/QuerySets.antt =====
-- Query sets of orm/manager.go: building a plan, and the terminal operations on the rows that a backend
-- returns. An error is the list of those that `errors.Join` puts together, without the words around them.
pub mod Terminals
pub mod Warm
use godj.Base.{
  ℕ, zero, suc, ◌+◌, GoString, Bool, true, false, not, ◌||◌, List, [], ◌∷◌, ◌++◌, map, Option, none,
  some, ◌==◌, if◌then◌else◌, ℤ, pos, negsuc, int_eq, is_nil, length, leb, Outcome, ok, err, stuck,
  ◌>>=◌, ◌>>◌, fail_if,
}
use godj.Ir as Ir
use godj.Query.{
  Plan, new_plan, Condition, Ordering, with_conditions, with_orderings, with_limit, Failure,
  ErrorCategory, ErrorCode, error_of, Checked,
}
use godj.Orm.{field_reference, invalid_write_plan, Context}

abbrev pub Joined {ℓ} : Type ℓ → Type ℓ
Joined A = Outcome (List Failure) A

abbrev pub one_error {ℓ} : {A : Type ℓ} → Checked A → Joined A
one_error (ok a) = ok a
one_error (err failure) = err (failure ∷ [])
one_error stuck = stuck

abbrev pub errors_of : Option Failure → List Failure
errors_of none = []
errors_of (some failure) = failure ∷ []

-- The value, unless there are errors.
abbrev pub unless {ℓ} : {A : Type ℓ} → List Failure → A → Joined A
unless [] a = ok a
unless (failure ∷ failures) a = err (failure ∷ failures)

pub record QuerySet : Type 0 where
  pub plan : Plan
  pub configuration_error : Option Failure

-- A predicate or an ordering with the error of its field.
pub record Predicate : Type 0 where
  pub condition : Condition
  pub failure : Option Failure

pub record FieldOrdering : Type 0 where
  pub ordering : Ordering
  pub failure : Option Failure

-- `Manager.Using`. The descriptor is nil or not.
unfoldable pub using : Option Ir.Model → QuerySet
using none = record { plan = new_plan [] []; configuration_error = some invalid_write_plan }
using (some metadata) = record {
  plan = new_plan metadata.db_table (map field_reference metadata.fields);
  configuration_error = none;
}

unfoldable pub conditions_of : List Predicate → Checked (List Condition)
conditions_of [] = ok []
conditions_of (p ∷ ps) = elim p.failure [
  | some failure ↦ err failure
  | none ↦ do conditions ← conditions_of ps; ok (p.condition ∷ conditions)
]

unfoldable pub orderings_of : List FieldOrdering → Checked (List Ordering)
orderings_of [] = ok []
orderings_of (o ∷ os) = elim o.failure [
  | some failure ↦ err failure
  | none ↦ do orderings ← orderings_of os; ok (o.ordering ∷ orderings)
]

-- A change of the plan, which a configuration error prevents and an error of its own makes one.
unfoldable pub configure : {A : Type 0} → Checked A → (A → Plan → Plan) → QuerySet → QuerySet
configure read change q = elim q.configuration_error [
  | some failure ↦ q
  | none ↦ elim read [
    | ok a ↦ record q { plan = change a q.plan }
    | err failure ↦ record q { configuration_error = some failure }
    | stuck ↦ q
  ]
]

unfoldable pub filter : List Predicate → QuerySet → QuerySet
filter predicates q = configure (conditions_of predicates) with_conditions q

unfoldable pub order_by : List FieldOrdering → QuerySet → QuerySet
order_by orderings q = configure (orderings_of orderings) with_orderings q

unfoldable pub limit : ℤ → QuerySet → Checked QuerySet
limit n q = elim q.configuration_error [
  | some failure ↦ err failure
  | none ↦ do plan ← with_limit n q.plan; ok (record q { plan = plan })
]

-- `db.Rows`: the rows to come, what `Err` returns after a number of calls of `Next`, and what `Close` does.
pub record Rows (R : Type 0) : Type 0 where
  pub items : List R
  pub failed : ℕ → Option Failure
  pub close_failed : Option Failure

-- What `Queryer.Query` returns: rows or nil, and an error or nil.
pub record Opened (R : Type 0) : Type 0 where
  pub rows : Option (Rows R)
  pub failure : Option Failure

abbrev pub Queryer : Type 0 → Type 0
Queryer R = Plan → Opened R

abbrev pub close_errors : {R : Type 0} → Option (Rows R) → List Failure
close_errors none = []
close_errors (some rows) = errors_of rows.close_failed

unfoldable pub opened : {R : Type 0} → Option Failure → Option (Rows R) → Joined (Rows R)
opened (some failure) rows = err (failure ∷ close_errors rows)
opened none none = err (error_of ErrorCategory.backend ErrorCode.invalid_plan [] ∷ [])
opened none (some rows) = ok rows

unfoldable pub open_rows : {R : Type 0} → Queryer R → Plan → Joined (Rows R)
open_rows backend plan = opened (backend plan).failure (backend plan).rows

unfoldable pub int_leb : ℤ → ℤ → Bool
int_leb (pos m) (pos n) = leb m n
int_leb (pos m) (negsuc n) = false
int_leb (negsuc m) (pos n) = true
int_leb (negsuc m) (negsuc n) = leb n m

unfoldable pub limited_to : Option ℤ → ℕ → Plan → Plan
limited_to none maximum plan = record plan { limit = some (pos maximum) }
limited_to (some current) maximum plan =
    if int_leb current (pos maximum) then plan else record plan { limit = some (pos maximum) }

-- `planWithMaximumRows`, for a maximum that is not negative.
unfoldable pub plan_with_maximum_rows : Plan → ℕ → Plan
plan_with_maximum_rows plan maximum = limited_to plan.limit maximum plan

-- `validateTerminal`. The backend is nil or not.
unfoldable pub validate_terminal :
    {R : Type 0} → Context → Option (Queryer R) → QuerySet → Checked (Queryer R)
validate_terminal Context.missing backend q = err invalid_write_plan
validate_terminal (Context.ended failure) backend q = err failure
validate_terminal Context.live backend q = elim q.configuration_error [
  | some failure ↦ err failure
  | none ↦ elim backend [
    | none ↦ err (error_of ErrorCategory.backend ErrorCode.invalid_plan [])
    | some queryer ↦ ok queryer
  ]
]
