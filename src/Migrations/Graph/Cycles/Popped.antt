-- ===== src/Migrations/Graph/Cycles/Popped.antt =====
-- What one visit of Tarjan's search does when no component is recorded.
use godj.Base.{
  ℕ, suc, ◌≤◌, ◌≡◌, refl, sym, ◌∙◌, ap, true, List, [], ◌∷◌, ◌++◌, inl, inr, ◌⊎◌, ◌==◌, ==_iff,
  nat_eq, Bool-cases, elem, ◌∈◌, elem-append, elem-cons_cases, not-elem-nil, arith, ok, >>=-eq-ok,
}
use godj.Migrations.Keys.{MigrationKey, key_eq}
use godj.Migrations.Errors.{Planned}
use godj.Migrations.Graph.{PlannerGraph}
use godj.Migrations.Graph.Cycles.{Search, index_of, low_of, lower, visit_parents}
use godj.Migrations.Graph.Cycles.Invariant.{
  Inv, Frame, Frame-refl, Frame-trans, lower-Inv, lower-Frame, lower-le,
}
use godj.Migrations.Graph.Cycles.Visit.{Silent, lower-components, visit_parents-Silent}

abbrev Keys : Type 0
Keys = List MigrationKey

nil-append {ℓ} : {A : Type ℓ} (xs ys : List A) → xs ++ ys ≡ [] → (xs ≡ []) × (ys ≡ [])
nil-append [] ys h = (refl, h)
nil-append (x ∷ xs) ys h = cc

lower-stack : (node : MigrationKey) (v : ℕ) (s : Search) → (lower node v s).stack ≡ s.stack
unfolding lower
lower-stack node v s = ground arith

pub on_after :
    (node : MigrationKey) (s t : Search) (pushed : Keys)
    → t.stack ≡ pushed ++ s.stack
    → node ∈ s.stack
    → node ∈ t.stack
on_after node s t pushed e on = rw e (ground (arith, elem-append node pushed s.stack))

module _ (g : PlannerGraph) (b : ℕ) where
  -- The links that a visit of a new node changes are not those of nodes known before.
  unfoldable pub Frame-own :
      (node child : MigrationKey) (s t : Search) (done after : Keys)
      → (index_of s child == 0) ≡ true
      → Frame g b child s t done after
      → Frame g b node s t done after
  Frame-own node child s t done after new f = record {
    later = f.later;
    index_kept = f.index_kept;
    low_kept = λ key k o. f.low_kept key k (ground (arith, ==_iff key child));
    done_kept = f.done_kept;
    pushed = f.pushed;
    stacked = f.stacked;
    fresh = f.fresh;
  }

  -- The result of a visit of `node`: if nothing stays on the stack above what was there, the node
  -- is done.
  pub record Visited (node : MigrationKey) (s t : Search) (done : Keys) : Type 0 where
    pub after : Keys
    pub inv : Inv g b t after
    pub frame : Frame g b node s t done after
    pub low : b ≤ low_of t node
    pub finished : frame.pushed ≡ [] → node ∈ after
    pub bottom : b ≡ suc s.index → frame.pushed ≡ []

  abbrev pub Visits : (MigrationKey → Search → Planned Search) → Type 0
  Visits run =
      (node : MigrationKey) (s t : Search) (done : Keys)
      → Inv g b s done
      → (index_of s node == 0) ≡ true
      → b ≤ suc s.index
      → run node s ≡ ok t
      → t.components ≡ []
      → Visited node s t done

  -- What the loop over the parents has found of a parent: it is done, or it waits on the stack and
  -- the link of the node is not above it.
  abbrev pub Found : MigrationKey → Search → Search → Keys → MigrationKey → Type 0
  Found node s t after parent =
      (parent ∈ after) ⊎ ((parent ∈ s.stack) × (low_of t node ≤ index_of s parent))

  pub record Looped (node : MigrationKey) (parents : Keys) (s t : Search) (done : Keys)
      : Type 0 where
    pub after : Keys
    pub inv : Inv g b t after
    pub frame : Frame g b node s t done after
    pub lowered : low_of t node ≤ low_of s node
    pub found :
        frame.pushed ≡ [] → (parent : MigrationKey) → parent ∈ parents → Found node s t after parent

  -- Before the rest of the loop comes what was done for the first parent.
  Looped-cons :
      (node parent : MigrationKey) (rest : Keys) (s u t : Search) (done middle : Keys)
      → Inv g b s done
      → (f : Frame g b node s u done middle) → low_of u node ≤ low_of s node
      → (f.pushed ≡ []
          → (parent ∈ middle) ⊎ ((parent ∈ s.stack) × (low_of u node ≤ index_of s parent)))
      → Looped node rest u t middle
      → Looped node (parent ∷ rest) s t done
  unfolding Frame-trans
  Looped-cons node parent rest s u t done middle i f down here l = record {
    after = l.after;
    inv = l.inv;
    frame = Frame-trans g b node s u t done middle l.after f l.frame;
    lowered = let k = l.lowered in omega arith;
    found = λ n p m.
        let (rest_empty, first_empty) = nil-append l.frame.pushed f.pushed n in
        let same : u.stack ≡ s.stack = f.stacked ∙ ap (λ x. x ++ s.stack) first_empty in
        elim (elem-cons_cases p parent rest m) [
          | inl e ↦ rw e (elim (here first_empty) [
            | inl done_before ↦ inl (l.frame.done_kept parent done_before)
            | inr (waits, above) ↦ inr (waits, let k = l.lowered in omega arith)
          ])
          | inr later ↦ elim (l.found rest_empty p later) [
            | inl over ↦ inl over
            | inr (waits, above) ↦
                let on = rw same at waits in inr (on, ground (arith, f.index_kept p, i.indexed p))
          ]
        ];
  }

  module _ (run : MigrationKey → Search → Planned Search) (silent : Silent g run)
      (visits : Visits run) where
    pub visit_parents_lem :
        (node : MigrationKey) (parents : Keys) (s t : Search) (done : Keys)
        → Inv g b s done
        → node ∈ s.stack
        → visit_parents run node parents s ≡ ok t
        → t.components ≡ []
        → Looped node parents s t done
    unfolding visit_parents Frame-refl Frame-trans Frame-own lower-Frame
    visit_parents_lem node [] s t done i on h e =
        let same : s ≡ t = ground arith in
        rw (← same) (record {
          after = done;
          inv = i;
          frame = Frame-refl g b node s done;
          lowered = omega arith;
          found = λ n p m. absurd (not-elem-nil p m);
        })
    visit_parents_lem node (parent ∷ rest) s t done i on h e =
        elim (Bool-cases (index_of s parent == 0)) [
          | inl new ↦
              let (middle, ran, more) =
                >>=-eq-ok (run parent s)
                  (λ (u : Search). visit_parents run node rest (lower node (low_of u parent) u))
                  (rw (new, visit_parents) at h) in
              let value = low_of middle parent in
              let u = lower node value middle in
              let quiet = visit_parents-Silent g run silent node rest u t more e in
              let room : b ≤ suc s.index =
                ground (arith, i.index_bound node on, i.recent node on) in
              let v =
                visits parent s middle done i new room ran
                  (sym (lower-components node value middle) ∙ quiet) in
              let f = Frame-own node parent s middle done v.after new v.frame in
              let on' = on_after node s middle v.frame.pushed v.frame.stacked on in
              let l =
                visit_parents_lem node rest u t v.after
                  (lower-Inv g b node value middle v.after v.low v.inv) (rw lower-stack on') more
                  e in
              Looped-cons node parent rest s u t done v.after i
                (Frame-trans g b node s middle u done v.after v.after f
                  (lower-Frame g b node value middle v.after))
                (ground (
                  arith,
                  (lower-le g b node value middle).1,
                  i.indexed node,
                  v.frame.low_kept node,
                  ==_iff node parent,
                ))
                (λ n. inl (v.finished n)) l
          | inr old ↦ elim (Bool-cases (elem parent s.on_stack)) [
            | inl waiting ↦
                let value = index_of s parent in
                let u = lower node value s in
                let on_stack : parent ∈ s.stack = ground (arith, i.flags parent) in
                let l =
                  visit_parents_lem node rest u t done
                    (lower-Inv g b node value s done (i.index_bound parent on_stack) i)
                    (rw lower-stack on) (rw (old, waiting, visit_parents) at h) e in
                Looped-cons node parent rest s u t done done i (lower-Frame g b node value s done)
                  (lower-le g b node value s).1 (λ n. inr (on_stack, (lower-le g b node value s).0))
                  l
            | inr over ↦
                let l =
                  visit_parents_lem node rest s t done i on (rw (old, over, visit_parents) at h)
                    e in
                Looped-cons node parent rest s s t done done i (Frame-refl g b node s done)
                  (omega arith) (λ n. inl (ground (arith, i.indexed parent, i.flags parent))) l
          ]
        ]
