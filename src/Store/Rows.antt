-- ===== src/Store/Rows.antt =====
-- How the statements on `runs` and `step_records` keep their constraints (store.py).
use durable_agent_engine.Base.{
  Text, String, ◌≡◌, refl, true, false, ◌&&◌, not, Option, none, some, List, [], ◌∷◌, str_eq, arith,
  eq_iff, Bool-cases, Option-cases, or_false, or_false_intro, and_not-true, str_eq-false_sym,
  eq_refl, and_false, and-or_false, some-injective, inl, inr,
}
use durable_agent_engine.Models.{RunStatus}
use durable_agent_engine.Externals.{RunRow}
use durable_agent_engine.Store.Sql.{
  StepRow, is_active, run_id_taken, key_active, find_run, replace_run, status_conflicts,
}
use durable_agent_engine.Store.Valid.{IsValidRuns, HasRuns}

module _ (id : String) (st : RunStatus) (e : Option Text) where
  pub run_id_taken-replace :
      (j : String) (rs : List RunRow) → run_id_taken j (replace_run id st e rs) ≡ run_id_taken j rs
  unfolding run_id_taken replace_run
  run_id_taken-replace j [] = refl
  run_id_taken-replace j (r ∷ rs) = ground (arith, run_id_taken-replace j rs)

  replace_absent : (rs : List RunRow) → run_id_taken id rs ≡ false → replace_run id st e rs ≡ rs
  unfolding run_id_taken replace_run
  replace_absent [] h = refl
  replace_absent (r ∷ rs) h = ground (arith, replace_absent rs)

  key_active-replace :
      (k i : String) (rs : List RunRow) (q : RunRow)
      → IsValidRuns rs
      → find_run id rs ≡ some q
      → key_active k i rs ≡ false
      → (is_active st && str_eq q.idempotency_key k && not (str_eq id i)) ≡ false
      → key_active k i (replace_run id st e rs) ≡ false
  unfolding key_active replace_run find_run
  key_active-replace k i [] q v f h c = h
  key_active-replace k i (r ∷ rs) q v f h c = elim (Bool-cases (str_eq r.run_id id)) [
    | inl same ↦
        rw (same, replace_absent rs (rw ((eq_iff r.run_id id).0 same) at v.0))
          (or_false_intro _ _ (head ((eq_iff r.run_id id).0 same) (rw same at f))
            (or_false _ _ h).1)
    | inr other ↦ rw other (
        or_false_intro _ _ (or_false _ _ h).0
          (key_active-replace k i rs q v.2 (rw other at f) (or_false _ _ h).1 c))
  ]
    where
      head :
          r.run_id ≡ id
          → some r ≡ some q
          → (is_active st && str_eq r.idempotency_key k && not (str_eq r.run_id i)) ≡ false
      head same_id f = let g : r ≡ q = some-injective r q f in rw (same_id, g) c

  find-none : (rs : List RunRow) → find_run id rs ≡ none → run_id_taken id rs ≡ false
  unfolding find_run run_id_taken
  find-none [] h = refl
  find-none (r ∷ rs) h = ground (arith, find-none rs)

  -- A row that is active blocks its key for every other run.
  key_active-other :
      (r : RunRow) (rs : List RunRow) (k : String)
      → key_active k id (r ∷ rs) ≡ false
      → is_active r.status ≡ true
      → str_eq r.run_id id ≡ false
      → str_eq r.idempotency_key k ≡ false
  unfolding key_active
  key_active-other r rs k h a o = ground arith

  pub conflicts_free :
      (rs : List RunRow) (q : RunRow)
      → find_run id rs ≡ some q
      → status_conflicts id st rs ≡ false
      → (is_active st && key_active q.idempotency_key id rs) ≡ false
  unfolding status_conflicts
  conflicts_free rs q f c = rw (f, status_conflicts) at c

  active-tail :
      (r : RunRow) (rs : List RunRow) (k : String)
      → (is_active st && key_active k id (r ∷ rs)) ≡ false
      → (is_active st && key_active k id rs) ≡ false
  unfolding key_active
  active-tail r rs k h = and-or_false (is_active st) _ (key_active k id rs) h

  head_taken :
      (r q : RunRow) (rs : List RunRow)
      → IsValidRuns (r ∷ rs)
      → (is_active st && key_active q.idempotency_key id (r ∷ rs)) ≡ false
      → find_run id rs ≡ some q
      → str_eq r.run_id id ≡ false
      → is_active r.status ≡ true
      → key_active r.idempotency_key r.run_id (replace_run id st e rs) ≡ false
  head_taken r q rs v c f o a =
      key_active-replace r.idempotency_key r.run_id rs q v.2 f (v.1 a)
        (elim (Bool-cases (is_active st)) [
          | inl active ↦ rw (active, Key_ne r q rs o a (rw active at c))
          | inr done ↦ rw done
        ])
    where
      Key_ne :
          (r q : RunRow) (rs : List RunRow)
          → str_eq r.run_id id ≡ false
          → is_active r.status ≡ true
          → key_active q.idempotency_key id (r ∷ rs) ≡ false
          → str_eq q.idempotency_key r.idempotency_key ≡ false
      Key_ne r q rs o a c = ground (
        arith,
        key_active-other r rs q.idempotency_key c a o,
        eq_iff q.idempotency_key r.idempotency_key,
        eq_iff r.idempotency_key q.idempotency_key,
      )

  pub replace-IsValidRuns :
      (rs : List RunRow)
      → IsValidRuns rs
      → status_conflicts id st rs ≡ false
      → IsValidRuns (replace_run id st e rs)
  unfolding status_conflicts replace_run find_run key_active
  replace-IsValidRuns [] v c = tt
  replace-IsValidRuns (r ∷ rs) v c = elim (Bool-cases (str_eq r.run_id id)) [
    | inl same ↦
        rw (same, replace_absent rs (rw ((eq_iff r.run_id id).0 same) at v.0))
          (
            v.0,
            λ a.
                let free = conflicts_free (r ∷ rs) r (rw same) c in
                rw ((eq_iff r.run_id id).0 same) (or_false _ _ (and_false _ _ a free)).1,
            v.2,
          )
    | inr other ↦ elim (Option-cases (find_run id rs)) [
      | inl gone ↦ rw (other, replace_absent rs (find-none rs gone)) v
      | inr (q, f) ↦ rw other (
        rw run_id_taken-replace v.0,
        head_taken r q rs v (conflicts_free (r ∷ rs) q (rw other f) c) f other,
        replace-IsValidRuns rs v.2 (
            rw (f, status_conflicts)
              (active-tail r rs q.idempotency_key (conflicts_free (r ∷ rs) q (rw other f) c))),
      )
    ]
  ]

pub replace-HasRuns :
    (id : String) (st : RunStatus) (e : Option Text) (rs : List RunRow) (steps : List StepRow)
    → HasRuns rs steps
    → HasRuns (replace_run id st e rs) steps
replace-HasRuns id st e rs [] h = tt
replace-HasRuns id st e rs (s ∷ steps) h =
    (rw run_id_taken-replace h.0, replace-HasRuns id st e rs steps h.1)

pub cons-HasRuns :
    (r : RunRow) (rs : List RunRow) (steps : List StepRow)
    → HasRuns rs steps
    → HasRuns (r ∷ rs) steps
unfolding run_id_taken
cons-HasRuns r rs [] h = tt
cons-HasRuns r rs (s ∷ steps) h = (ground (arith, h.0), cons-HasRuns r rs steps h.1)

-- An active row is an entry of the index.
pub key_active-find :
    (b i : String) (rb : RunRow) (rs : List RunRow)
    → find_run b rs ≡ some rb
    → is_active rb.status ≡ true
    → str_eq b i ≡ false
    → key_active rb.idempotency_key i rs ≡ true
unfolding find_run key_active
key_active-find b i rb [] f a n = cc
key_active-find b i rb (r ∷ rs) f a n = elim (Bool-cases (str_eq r.run_id b)) [
  | inl same ↦
      let g : r ≡ rb = some-injective r rb (rw same at f) in
      rw ((eq_iff r.run_id b).0 same, n, g, a, eq_refl) refl
  | inr other ↦ ground (arith, key_active-find b i rb rs (rw other at f) a n)
]

foreign_head :
    (id : String) (row r : RunRow) (rs : List RunRow)
    → IsValidRuns (r ∷ rs)
    → find_run id rs ≡ some row
    → is_active row.status ≡ true
    → str_eq r.run_id id ≡ false
    → (is_active r.status
        && str_eq r.idempotency_key row.idempotency_key
        && not (str_eq r.run_id id))
      ≡ false
foreign_head id row r rs v f a n = ground (
  arith,
  v.1,
  key_active-find id r.run_id row rs f a (str_eq-false_sym r.run_id id n),
  eq_iff r.idempotency_key row.idempotency_key,
)

-- The index does not hold an active row's key for another run.
pub own_key_free :
    (id : String) (row : RunRow) (rs : List RunRow)
    → IsValidRuns rs
    → find_run id rs ≡ some row
    → is_active row.status ≡ true
    → key_active row.idempotency_key id rs ≡ false
unfolding key_active find_run
own_key_free id row [] v f a = refl
own_key_free id row (r ∷ rs) v f a = elim (Bool-cases (str_eq r.run_id id)) [
  | inl same ↦
      let e : r ≡ row = some-injective r row (rw same at f) in
      let a' : is_active r.status ≡ true = rw e a in
      or_false_intro _ _
        (rw same (and_not-true (is_active r.status) (str_eq r.idempotency_key row.idempotency_key)))
        (rw ((eq_iff r.run_id id).0 same, e) at (v.1 a'))
  | inr other ↦
      or_false_intro _ _ (foreign_head id row r rs v (rw other at f) a other)
        (own_key_free id row rs v.2 (rw other at f) a)
]
