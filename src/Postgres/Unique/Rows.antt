-- ===== src/Postgres/Unique/Rows.antt =====
-- postgres.py, SCHEMA: the statements keep the primary key of `runs` and the partial unique index.
use durable_agent_engine.Base.{
  Text, String, ◌≡◌, refl, ◌∙◌, ◌&&◌, and_false, Option, List, [], ◌∷◌, map, str_eq, Bool-cases,
  Option-cases, inl, inr,
}
use mathlib.Core.Option
use durable_agent_engine.Exec.{Result, ok, err}
use durable_agent_engine.Models.{RunStatus}
use durable_agent_engine.Externals.{Externals}
use durable_agent_engine.Externals
use durable_agent_engine.Store.Sql
use durable_agent_engine.Store.Sql.{is_active}
use durable_agent_engine.Store.Valid.{IsValidRuns}
use durable_agent_engine.Store.Rows.{replace-IsValidRuns}
use durable_agent_engine.Postgres.Sql.{
  RunRow, StepRow, Tables, run_id_taken, key_active, find_run, replace_run, status_conflicts,
  insert_run, update_status, insert_step, out_of_range, has_step,
}
use durable_agent_engine.Postgres.{Db}

module _ {J : Type 0} where
  -- a row without its payload, as a row of the other store
  abbrev pub bare : RunRow J → Externals.RunRow
  bare r = record {
    run_id = r.run_id;
    idempotency_key = r.idempotency_key;
    plan_name = r.plan_name;
    payload = "";
    status = r.status;
    error = r.error;
    created_at = r.created_at;
  }

  taken-bare :
      (id : String) (rs : List (RunRow J)) → Sql.run_id_taken id (map bare rs) ≡ run_id_taken id rs
  unfolding run_id_taken Sql.run_id_taken
  taken-bare id [] = refl
  taken-bare id (r ∷ rs) = rw (taken-bare id rs) refl

  active-bare :
      (key id : String) (rs : List (RunRow J))
      → Sql.key_active key id (map bare rs) ≡ key_active key id rs
  unfolding key_active Sql.key_active
  active-bare key id [] = refl
  active-bare key id (r ∷ rs) = rw (active-bare key id rs) refl

  pub find-bare :
      (id : String) (rs : List (RunRow J))
      → Sql.find_run id (map bare rs) ≡ Option.map bare (find_run id rs)
  unfolding find_run Sql.find_run
  find-bare id [] = refl
  find-bare id (r ∷ rs) = elim (Bool-cases (str_eq r.run_id id)) [
    | inl here ↦ rw here refl
    | inr later ↦ rw later (find-bare id rs)
  ]

  replace-bare :
      (id : String) (st : RunStatus) (e : Option Text) (rs : List (RunRow J))
      → map bare (replace_run id st e rs) ≡ Sql.replace_run id st e (map bare rs)
  unfolding replace_run Sql.replace_run
  replace-bare id st e [] = refl
  replace-bare id st e (r ∷ rs) = elim (Bool-cases (str_eq r.run_id id)) [
    | inl same ↦ rw (same, replace-bare id st e rs) refl
    | inr other ↦ rw (other, replace-bare id st e rs) refl
  ]

  conflicts-bare :
      (id : String) (st : RunStatus) (rs : List (RunRow J))
      → Sql.status_conflicts id st (map bare rs) ≡ status_conflicts id st rs
  unfolding status_conflicts Sql.status_conflicts
  conflicts-bare id st rs = elim (Option-cases (find_run id rs)) [
    | inl gone ↦ rw (Sql.status_conflicts, status_conflicts, find-bare id rs, gone) refl
    | inr (r, found) ↦
        rw
          (
            Sql.status_conflicts,
            status_conflicts,
            find-bare id rs,
            found,
            active-bare r.idempotency_key id rs,
          )
          refl
  ]

  -- The primary key of `runs` and the partial unique index.
  abbrev pub IsUnique : Tables J → Type 0
  IsUnique t = IsValidRuns (map bare t.runs)

  abbrev pub Commits : {A : Type 0} → Result (A × Tables J) → Type 0
  Commits (ok (a, t)) = IsUnique t
  Commits (err e) = Unit

  abbrev pub Unique : Db J → Type 0
  Unique db = IsUnique db.tables

  pub insert_run-Commits : (r : RunRow J) (t : Tables J) → IsUnique t → Commits (insert_run r t)
  unfolding insert_run
  insert_run-Commits r t v = elim (Bool-cases (run_id_taken r.run_id t.runs)) [
    | inl taken ↦ rw taken tt
    | inr new ↦
        elim (Bool-cases (is_active r.status && key_active r.idempotency_key r.run_id t.runs)) [
          | inl busy ↦ rw (new, busy) tt
          | inr free ↦
              rw (new, free)
                (
                  taken-bare r.run_id t.runs ∙ new,
                  λ active.
                      active-bare r.idempotency_key r.run_id t.runs
                      ∙ and_false (is_active r.status)
                          (key_active r.idempotency_key r.run_id t.runs) active free,
                  v,
                )
        ]
  ]

  pub update_status-Commits :
      (id : String) (st : RunStatus) (e : Option Text) (t : Tables J)
      → IsUnique t
      → Commits (update_status id st e t)
  unfolding update_status
  update_status-Commits id st e t v = elim (Bool-cases (status_conflicts id st t.runs)) [
    | inl busy ↦ rw busy tt
    | inr free ↦
        rw (free, replace-bare id st e t.runs)
          (replace-IsValidRuns id st e (map bare t.runs) v (conflicts-bare id st t.runs ∙ free))
  ]

  pub insert_step-Commits : (r : StepRow J) (t : Tables J) → IsUnique t → Commits (insert_step r t)
  unfolding insert_step
  insert_step-Commits r t v = elim (Bool-cases (out_of_range r)) [
    | inl large ↦ rw large tt
    | inr fits ↦ elim (Bool-cases (has_step r.run_id r.step_index t.step_records)) [
      | inl old ↦ rw (fits, old) v
      | inr new ↦ elim (Bool-cases (run_id_taken r.run_id t.runs)) [
        | inl known ↦ rw (fits, new, known) v
        | inr unknown ↦ rw (fits, new, unknown) tt
      ]
    ]
  ]
