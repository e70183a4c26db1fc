-- ===== src/Orm/QuerySets/Warm.antt =====
-- The terminal operations with and without a cache, on a backend that serves the rows of a query.
use godj.Base.{
  ℕ, zero, suc, ◌<◌, nat_eq, ◌≡◌, refl, sym, ap, ◌∙◌, true, false, not, List, [], ◌∷◌, ◌++◌, map,
  Option, none, some, ◌⊎◌, inl, inr, Bool-cases, ℤ, pos, negsuc, is_nil, length, leb, arith,
  Outcome, ok, err, stuck, ◌>>=◌, ◌>>◌, fail_if, >>=-eq-ok, ok-injective,
}
use godj.Query.{Failure, Plan, ErrorCategory, ErrorCode, error_of}
use godj.Orm.{Context}
use godj.Orm.QuerySets.{
  Joined, errors_of, unless, QuerySet, Queryer, opened, open_rows, int_leb, limited_to,
  plan_with_maximum_rows, validate_terminal,
}
use godj.Orm.QuerySets.Terminals.{
  nth, finish, in_time, Scanned, scanned, scan_loop, scan_all, evaluated, all_values, count_cold,
  count, exists_cold, exists, scan_found, at_cold, cloned, checked_index, at_place, at,
}

abbrev unordered : Failure
unordered = error_of ErrorCategory.query ErrorCode.unordered_query []

unfoldable pub take : {A : Type 0} → ℕ → List A → List A
take n [] = []
take zero (x ∷ xs) = []
take (suc n) (x ∷ xs) = x ∷ take n xs

-- The rows of a query under its limit.
unfoldable pub limited : {A : Type 0} → Option ℤ → List A → List A
limited none rows = rows
limited (some (pos n)) rows = take n rows
limited (some (negsuc n)) rows = []

-- A backend that returns these rows, without errors.
unfoldable pub serve : {R : Type 0} → List R → Queryer R
serve rows plan = record {
  rows =
      some
        (record { items = limited plan.limit rows; failed = λ calls. none; close_failed = none });
  failure = none;
}

nth-take : {A : Type 0} (i n : ℕ) (rows : List A) → i < n → nth i (take n rows) ≡ nth i rows
unfolding nth take
nth-take i n [] h = refl
nth-take i zero (x ∷ rows) h = absurd (omega arith)
nth-take zero (suc n) (x ∷ rows) h = refl
nth-take (suc i) (suc n) (x ∷ rows) h = nth-take i n rows (omega arith)

-- A limit that still reaches the place does not change it.
nth-limited :
    {A : Type 0} (i : ℕ) (limit : Option ℤ) (plan : Plan) (rows : List A)
    → plan.limit ≡ limit
    → nth i (limited (limited_to limit (suc i) plan).limit rows) ≡ nth i (limited limit rows)
unfolding limited limited_to int_leb
nth-limited i none plan rows e = nth-take i (suc i) rows (omega arith)
nth-limited i (some (negsuc n)) plan rows e = ap (λ l. nth i (limited l rows)) e
nth-limited i (some (pos n)) plan rows e = elim (Bool-cases (leb n (suc i))) [
  | inl short ↦ rw short (ap (λ l. nth i (limited l rows)) e)
  | inr long ↦
      rw long
        (nth-take i (suc i) rows (omega arith) ∙ sym (nth-take i n rows (ground (arith, long))))
]

is_nil-nth :
    {A : Type 0} (xs : List A) → (elim (nth 0 xs) [ none ↦ true | some x ↦ false ]) ≡ is_nil xs
unfolding nth is_nil
is_nil-nth [] = refl
is_nil-nth (x ∷ xs) = refl

module _ {R M : Type 0} (scan : R → Failure ⊎ M) (clone : M → M) (ended : Option Failure)
    (max_int : ℕ) where
  abbrev loop : List R → Scanned scan clone ended max_int
  loop = scan_loop scan clone ended max_int

  -- A loop without an error scans each row.
  scan_loop-nth :
      (rows : List R) (i : ℕ)
      → (loop rows).1 ≡ []
      → scan_found scan clone ended max_int (nth i rows) ≡ (nth i (loop rows).0, [])
  unfolding scan_loop scan_found nth
  scan_loop-nth [] i h = refl
  scan_loop-nth (r ∷ rs) i h = step (scan r) refl i h (scan_loop-nth rs)
    where
      step :
          (o : Failure ⊎ M)
          → o ≡ scan r
          → (i : ℕ) → (scanned scan clone ended max_int o (loop rs)).1 ≡ []
          → ((j : ℕ)
              → (loop rs).1 ≡ []
              → scan_found scan clone ended max_int (nth j rs) ≡ (nth j (loop rs).0, []))
          → scan_found scan clone ended max_int (nth i (r ∷ rs))
            ≡ (nth i (scanned scan clone ended max_int o (loop rs)).0, [])
      step (inl failure) e i h ih = cc
      step (inr value) e zero h ih = rw (← e) refl
      step (inr value) e (suc i) h ih = ih i h

  scan_loop-length : (rows : List R) → (loop rows).1 ≡ [] → length (loop rows).0 ≡ length rows
  unfolding scan_loop
  scan_loop-length [] h = refl
  scan_loop-length (r ∷ rs) h = step (scan r) h (scan_loop-length rs)
    where
      step :
          (o : Failure ⊎ M)
          → (scanned scan clone ended max_int o (loop rs)).1 ≡ []
          → ((loop rs).1 ≡ [] → length (loop rs).0 ≡ length rs)
          → length (scanned scan clone ended max_int o (loop rs)).0 ≡ suc (length rs)
      step (inl failure) h ih = cc
      step (inr value) h ih = ap suc (ih h)

  unless-ok :
      {A : Type 0} (failures : List Failure) (a b : A)
      → unless failures a ≡ ok b
      → (failures ≡ []) × (a ≡ b)
  unless-ok [] a b h = (refl, cc)
  unless-ok (failure ∷ failures) a b h = cc

  append_nil-eq : (failures : List Failure) → failures ++ [] ++ [] ≡ [] → failures ≡ []
  append_nil-eq [] h = refl
  append_nil-eq (failure ∷ failures) h = cc

  module _ (clones : (value : M) → clone value ≡ value) (rows : List R) where
    abbrev backend : Queryer R
    backend = serve rows

    cloned-eq : (o : Option M) → cloned scan clone ended max_int o ≡ o
    cloned-eq none = refl
    cloned-eq (some value) = ap some (clones value)

    -- A full evaluation that succeeds.
    scanned-ok :
        (plan : Plan) (values : List M)
        → (scan_all scan clone ended max_int backend plan >>= λ vs.
            in_time scan clone ended max_int vs)
          ≡ ok values
        → (errors_of ended ≡ [])
          × ((loop (limited plan.limit rows)).1 ≡ [])
          × ((loop (limited plan.limit rows)).0 ≡ values)
    unfolding scan_all open_rows opened serve finish
    scanned-ok plan values h =
        let (vs, all_, h1) =
          >>=-eq-ok (scan_all scan clone ended max_int backend plan)
            (λ vs. in_time scan clone ended max_int vs) h in
        let (on_time, same) = unless-ok (errors_of ended) vs values h1 in
        let (no_errors, scanned_) = unless-ok _ (loop (limited plan.limit rows)).0 vs all_ in
        (on_time, append_nil-eq (loop (limited plan.limit rows)).1 no_errors, scanned_ ∙ same)

    at_cold-eq :
        (plan : Plan) (values : List M) (i : ℕ)
        → errors_of ended ≡ []
        → (loop (limited plan.limit rows)).1 ≡ []
        → (loop (limited plan.limit rows)).0 ≡ values
        → at_cold scan clone ended max_int backend plan i ≡ ok (nth i values)
    unfolding at_cold open_rows opened serve finish plan_with_maximum_rows
    at_cold-eq plan values i on_time no_errors same =
        let place = nth-limited i plan.limit plan rows refl in
        let found = scan_loop-nth (limited plan.limit rows) i no_errors in
        let here : scan_found scan clone ended max_int
              (nth i (limited (limited_to plan.limit (suc i) plan).limit rows))
            ≡ (nth i values, []) =
          ap (scan_found scan clone ended max_int) place
          ∙ found
          ∙ ap (λ (vs : List M). (nth i vs, [])) same in
        rw (here, on_time) refl

    is_nil-limited :
        (plan : Plan)
        → is_nil (limited (limited_to plan.limit 1 plan).limit rows)
          ≡ is_nil (limited plan.limit rows)
    is_nil-limited plan =
        sym (is_nil-nth (limited (limited_to plan.limit 1 plan).limit rows))
        ∙ ap (λ (o : Option R). elim o [ none ↦ true | some x ↦ false ])
            (nth-limited 0 plan.limit plan rows refl)
        ∙ is_nil-nth (limited plan.limit rows)

    is_nil-length :
        {A B : Type 0} (xs : List A) (ys : List B) → length xs ≡ length ys → is_nil xs ≡ is_nil ys
    unfolding is_nil
    is_nil-length [] [] h = refl
    is_nil-length [] (y ∷ ys) h = absurd (omega (arith, h))
    is_nil-length (x ∷ xs) [] h = absurd (omega (arith, h))
    is_nil-length (x ∷ xs) (y ∷ ys) h = refl

    exists_cold-eq :
        (plan : Plan) (values : List M)
        → errors_of ended ≡ []
        → (loop (limited plan.limit rows)).1 ≡ []
        → (loop (limited plan.limit rows)).0 ≡ values
        → exists_cold scan clone ended max_int backend plan ≡ ok (not (is_nil values))
    unfolding exists_cold open_rows opened serve finish plan_with_maximum_rows
    exists_cold-eq plan values on_time no_errors same =
        let sizes = sym (scan_loop-length (limited plan.limit rows) no_errors) ∙ ap length same in
        let empty = is_nil-limited plan ∙ is_nil-length (limited plan.limit rows) values sizes in
        rw (empty, on_time) refl

    count_cold-eq :
        (plan : Plan) (values : List M)
        → errors_of ended ≡ []
        → (loop (limited plan.limit rows)).1 ≡ []
        → (loop (limited plan.limit rows)).0 ≡ values
        → count_cold scan clone ended max_int backend plan ≡ ok (length values)
    unfolding count_cold open_rows opened serve finish
    count_cold-eq plan values on_time no_errors same =
        let sizes = sym (scan_loop-length (limited plan.limit rows) no_errors) ∙ ap length same in
        rw (sizes, on_time) refl

    valid :
        (q : QuerySet)
        → q.configuration_error ≡ none
        → validate_terminal Context.live (some backend) q ≡ ok backend
    unfolding validate_terminal
    valid q e = ap (λ (o : Option Failure). validated o) e
      where
        validated : Option Failure → Outcome Failure (Queryer R)
        validated o = elim o [ some failure ↦ err failure | none ↦ ok backend ]

    map-clone : (values : List M) → map clone values ≡ values
    map-clone [] = refl
    map-clone (v ∷ vs) = λ i. clones v i ∷ map-clone vs i

    -- The four terminals agree on two caches.
    abbrev pub SameAnswers : QuerySet → Option (List M) → Option (List M) → Type 0
    SameAnswers q warm cold =
        ((index : ℤ)
          → at scan clone ended max_int Context.live (some backend) q warm index
            ≡ at scan clone ended max_int Context.live (some backend) q cold index)
        × (count scan clone ended max_int Context.live (some backend) q warm
            ≡ count scan clone ended max_int Context.live (some backend) q cold)
        × (exists scan clone ended max_int Context.live (some backend) q warm
            ≡ exists scan clone ended max_int Context.live (some backend) q cold)
        × ((all_values scan clone ended max_int Context.live (some backend) q warm).0
            ≡ (all_values scan clone ended max_int Context.live (some backend) q cold).0)

    evaluated-eq :
        (r : Joined (List M)) (values : List M) (cache : Option (List M))
        → evaluated scan clone ended max_int r ≡ (ok values, cache)
        → (r ≡ ok values) × (cache ≡ some values)
    unfolding evaluated
    evaluated-eq (ok vs) values cache h =
        let result : ◌≡◌ {A = Joined (List M)} (ok (map clone vs)) (ok values) =
          ap (λ (p : Joined (List M) × Option (List M)). p.0) h in
        let kept : some vs ≡ cache = ap (λ (p : Joined (List M) × Option (List M)). p.1) h in
        let same : vs ≡ values = sym (map-clone vs) ∙ ok-injective result in
        (ap ok same, sym kept ∙ ap some same)
    evaluated-eq (err failures) values cache h = cc
    evaluated-eq stuck values cache h = cc

    -- On a backend that serves these rows under the limit of a plan, where cloning a model changes
    -- nothing: after All of a query set without a configuration error returned values, its cache holds
    -- them, and At at any index, Count, Exists and All give with the cache what they give without it.
    pub all_values-SameAnswers :
        (q : QuerySet) (values : List M) (cache : Option (List M))
        → q.configuration_error ≡ none
        → all_values scan clone ended max_int Context.live (some backend) q none
          ≡ (ok values, cache)
        → (cache ≡ some values) × SameAnswers q cache none
    unfolding all_values at at_place count exists evaluated
    all_values-SameAnswers q values cache e h =
        let open_ = valid q e in
        let (evaluation, kept) = evaluated-eq _ values cache (rw (all_values, open_) at h) in
        let (on_time, no_errors, same) = scanned-ok q.plan values evaluation in
        let places : (i : ℕ)
            → at_place scan clone ended max_int backend q.plan i (some values)
              ≡ at_place scan clone ended max_int backend q.plan i none =
          λ i.
            ap ok (cloned-eq (nth i values))
            ∙ sym (at_cold-eq q.plan values i on_time no_errors same) in
        rw kept (
          refl,
          (
            λ index.
                rw (at, open_)
                  (ap
                    (λ (place_of : ℕ → Joined (Option M)).
                      checked_index scan clone ended max_int index >>= λ place.
                      fail_if (is_nil q.plan.orderings) (unordered ∷ []) >> place_of place)
                    (λ i n. places n i)),
            rw (count, open_) (sym (count_cold-eq q.plan values on_time no_errors same)),
            rw (exists, open_) (sym (exists_cold-eq q.plan values on_time no_errors same)),
            rw (all_values, open_, evaluation) refl,
          ),
        )
