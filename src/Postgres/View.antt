-- ===== src/Postgres/View.antt =====
-- The tables of the SQLite store, with every JSON text decoded, as tables of the Postgres store; each
-- statement of one is the statement of the other.
use durable_agent_engine.Base.{
  Text, ℕ, String, false, ◌≡◌, refl, ap, Option, none, some, List, [], ◌∷◌, map, str_eq, Bool-cases,
  Option-cases, inl, inr, leb, ◌&&◌, if◌then◌else◌,
}
use mathlib.Core.Option
use durable_agent_engine.Exec.{integrity_error, Result, ok, err}
use durable_agent_engine.Models.{RunStatus}
use durable_agent_engine.Externals.{Externals}
use durable_agent_engine.Externals
use durable_agent_engine.Store
use durable_agent_engine.Store.Sql
use durable_agent_engine.Store.Sql.{is_active}
use durable_agent_engine.Postgres
use durable_agent_engine.Postgres.Sql.{
  RunRow, StepRow, Tables, run_id_taken, key_active, find_run, rows_of_key, replace_run,
  status_conflicts, has_step, insert_sorted, steps_of, insert_run, update_status, insert_step,
  out_of_range,
}

module _ {J : Type 0} (x : Externals J) where
  abbrev pub run_view : Externals.RunRow → RunRow J
  run_view r = record {
    run_id = r.run_id;
    idempotency_key = r.idempotency_key;
    plan_name = r.plan_name;
    payload = x.loads r.payload;
    status = r.status;
    error = r.error;
    created_at = r.created_at;
  }

  abbrev pub step_view : Sql.StepRow → StepRow J
  step_view r = record {
    run_id = r.run_id;
    step_index = r.step_index;
    name = r.name;
    outcome = r.outcome;
    attempts = r.attempts;
    output = x.loads r.output;
    tokens_used = r.tokens_used;
    created_at = r.created_at;
  }

  -- The locks are left out.
  abbrev pub view : Sql.Tables → Tables J
  view t = record { runs = map run_view t.runs; step_records = map step_view t.step_records }

  taken-view :
      (id : String) (rs : List Externals.RunRow)
      → run_id_taken id (map run_view rs) ≡ Sql.run_id_taken id rs
  unfolding run_id_taken Sql.run_id_taken
  taken-view id [] = refl
  taken-view id (r ∷ rs) = rw (taken-view id rs) refl

  active-view :
      (key id : String) (rs : List Externals.RunRow)
      → key_active key id (map run_view rs) ≡ Sql.key_active key id rs
  unfolding key_active Sql.key_active
  active-view key id [] = refl
  active-view key id (r ∷ rs) = rw (active-view key id rs) refl

  pub find-view :
      (id : String) (rs : List Externals.RunRow)
      → find_run id (map run_view rs) ≡ Option.map run_view (Sql.find_run id rs)
  unfolding find_run Sql.find_run
  find-view id [] = refl
  find-view id (r ∷ rs) = elim (Bool-cases (str_eq r.run_id id)) [
    | inl here ↦ rw here refl
    | inr later ↦ rw later (find-view id rs)
  ]

  pub rows_of_key-view :
      (key : String) (rs : List Externals.RunRow)
      → rows_of_key key (map run_view rs) ≡ map run_view (Sql.rows_of_key key rs)
  unfolding rows_of_key Sql.rows_of_key
  rows_of_key-view key [] = refl
  rows_of_key-view key (r ∷ rs) = elim (Bool-cases (str_eq r.idempotency_key key)) [
    | inl same ↦ rw (same, rows_of_key-view key rs) refl
    | inr other ↦ rw other (rows_of_key-view key rs)
  ]

  replace-view :
      (id : String) (st : RunStatus) (e : Option Text) (rs : List Externals.RunRow)
      → replace_run id st e (map run_view rs) ≡ map run_view (Sql.replace_run id st e rs)
  unfolding replace_run Sql.replace_run
  replace-view id st e [] = refl
  replace-view id st e (r ∷ rs) = elim (Bool-cases (str_eq r.run_id id)) [
    | inl same ↦ rw (same, replace-view id st e rs) refl
    | inr other ↦ rw (other, replace-view id st e rs) refl
  ]

  conflicts-view :
      (id : String) (st : RunStatus) (rs : List Externals.RunRow)
      → status_conflicts id st (map run_view rs) ≡ Sql.status_conflicts id st rs
  unfolding status_conflicts Sql.status_conflicts
  conflicts-view id st rs = elim (Option-cases (Sql.find_run id rs)) [
    | inl gone ↦ rw (status_conflicts, Sql.status_conflicts, find-view id rs, gone) refl
    | inr (r, found) ↦
        rw
          (
            status_conflicts,
            Sql.status_conflicts,
            find-view id rs,
            found,
            active-view r.idempotency_key id rs,
          )
          refl
  ]

  has_step-view :
      (id : String) (i : ℕ) (rs : List Sql.StepRow)
      → has_step id i (map step_view rs) ≡ Sql.has_step id i rs
  unfolding has_step Sql.has_step
  has_step-view id i [] = refl
  has_step-view id i (r ∷ rs) = rw (has_step-view id i rs) refl

  insert_sorted-view :
      (r : Sql.StepRow) (rs : List Sql.StepRow)
      → insert_sorted (step_view r) (map step_view rs) ≡ map step_view (Sql.insert_sorted r rs)
  unfolding insert_sorted Sql.insert_sorted
  insert_sorted-view r [] = refl
  insert_sorted-view r (s ∷ ss) = elim (Bool-cases (leb r.step_index s.step_index)) [
    | inl first ↦ rw first refl
    | inr later ↦ rw (later, insert_sorted-view r ss) refl
  ]

  pub steps_of-view :
      (id : String) (rs : List Sql.StepRow)
      → steps_of id (map step_view rs) ≡ map step_view (Sql.steps_of id rs)
  unfolding steps_of Sql.steps_of
  steps_of-view id [] = refl
  steps_of-view id (r ∷ rs) = elim (Bool-cases (str_eq r.run_id id)) [
    | inl same ↦ rw (same, steps_of-view id rs, insert_sorted-view r (Sql.steps_of id rs)) refl
    | inr other ↦ rw other (steps_of-view id rs)
  ]

  -- What a statement commits or raises, seen through the view.
  abbrev pub result_view : {A : Type 0} → Result (A × Sql.Tables) → Result (A × Tables J)
  result_view (ok (a, t)) = ok (a, view t)
  result_view (err e) = err e

  pub insert_run-view :
      (r : Externals.RunRow) (t : Sql.Tables)
      → insert_run (run_view r) (view t) ≡ result_view (Sql.insert_run r t)
  unfolding insert_run Sql.insert_run
  insert_run-view r t = elim (Bool-cases (Sql.run_id_taken r.run_id t.runs)) [
    | inl taken ↦ rw (taken-view r.run_id t.runs, taken) refl
    | inr new ↦
        elim (Bool-cases (is_active r.status && Sql.key_active r.idempotency_key r.run_id t.runs)) [
          | inl busy ↦
              rw
                (
                  taken-view r.run_id t.runs,
                  new,
                  active-view r.idempotency_key r.run_id t.runs,
                  busy,
                )
                refl
          | inr free ↦
              rw
                (
                  taken-view r.run_id t.runs,
                  new,
                  active-view r.idempotency_key r.run_id t.runs,
                  free,
                )
                refl
        ]
  ]

  pub update_status-view :
      (id : String) (st : RunStatus) (e : Option Text) (t : Sql.Tables)
      → update_status id st e (view t) ≡ result_view (Sql.update_status id st e t)
  unfolding update_status Sql.update_status
  update_status-view id st e t = elim (Bool-cases (Sql.status_conflicts id st t.runs)) [
    | inl busy ↦ rw (conflicts-view id st t.runs, busy) refl
    | inr free ↦ rw (conflicts-view id st t.runs, free, replace-view id st e t.runs) refl
  ]

  pub insert_step-view :
      (r : Sql.StepRow) (t : Sql.Tables)
      → out_of_range (step_view r) ≡ false
      → insert_step (step_view r) (view t) ≡ (
          if Sql.has_step r.run_id r.step_index t.step_records
          then ok (tt, view t)
          else if Sql.run_id_taken r.run_id t.runs
          then ok (tt, view (record t { step_records = r ∷ t.step_records }))
          else err integrity_error)
  unfolding insert_step
  insert_step-view r t fits =
      rw (fits, has_step-view r.run_id r.step_index t.step_records, taken-view r.run_id t.runs) refl

  records-view :
      (rs : List Sql.StepRow) → Postgres.step_records (map step_view rs) ≡ Store.step_records x rs
  unfolding Postgres.step_records Store.step_records
  records-view [] = refl
  records-view (r ∷ rs) = rw (records-view rs) refl

  hydrate-view :
      (t : Sql.Tables) (r : Externals.RunRow)
      → Postgres.hydrate (view t) (run_view r) ≡ Store.hydrate x t r
  unfolding Postgres.hydrate Store.hydrate
  hydrate-view t r =
      rw
        (steps_of-view r.run_id t.step_records, records-view (Sql.steps_of r.run_id t.step_records))
        refl

  pub hydrate_if-view :
      (t : Sql.Tables) (o : Option Externals.RunRow)
      → Postgres.hydrate_if (view t) (Option.map run_view o) ≡ Store.hydrate_if x t o
  unfolding Postgres.hydrate_if Store.hydrate_if
  hydrate_if-view t none = refl
  hydrate_if-view t (some r) = ap (λ s. some s) (hydrate-view t r)
