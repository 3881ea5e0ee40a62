-- ===== src/Store/Crash.antt =====
-- store.py: no statement raises SimulatedCrash, and what each commits.
use durable_agent_engine.Base.{
  ℕ, String, ◌≡◌, refl, Bool, true, false, Option, List, [], ◌∷◌, Text, Bool-cases, Option-cases,
  inl, inr,
}
use durable_agent_engine.Exec.{simulated_crash, Result, ok, err}
use durable_agent_engine.Exec.Crash.{After}
use durable_agent_engine.Models.{RunStatus, StepRecord}
use durable_agent_engine.Externals.{Externals}
use durable_agent_engine.Store.Sql.{
  Tables, has_step, run_id_taken, status_conflicts, replace_run, update_status, lock_held,
  delete_expired,
}
use durable_agent_engine.Store.{
  Db, settle, connect, conn, step_row, insert_step, take_lease, release_rows,
}

-- `P` of what a body commits; what it raises is not SimulatedCrash.
abbrev pub Commits : {A : Type 0} → (A → Tables → Type 0) → Result (A × Tables) → Type 0
Commits P (ok (a, t)) = P a t
Commits P (err error) = error ≡ simulated_crash → ⊥

module _ {A : Type 0} (P : A → Tables → Type 0) (C : Db → Type 0) where
  settle-After :
      (r : Result (A × Tables)) (t : Tables) (faults : List Bool)
      → Commits P r
      → After (λ a (db : Db). P a db.tables) C (settle r t faults).0 (settle r t faults).1
  unfolding settle
  settle-After (ok (a, t')) t faults h = h
  settle-After (err error) t faults h = λ crash. absurd (h crash)

  connect-After :
      (body : Tables → Result (A × Tables)) (t : Tables) (faults : List Bool)
      → Commits P (body t)
      → After (λ a (db : Db). P a db.tables) C (connect body t faults).0 (connect body t faults).1
  unfolding connect
  connect-After body t [] h = settle-After (body t) t [] h
  connect-After body t (true ∷ faults) h = λ crash. cc crash
  connect-After body t (false ∷ faults) h = settle-After (body t) t faults h

  pub conn-After :
      (body : Tables → Result (A × Tables)) (db : Db)
      → Commits P (body db.tables)
      → After (λ a (db : Db). P a db.tables) C (conn body db).0 (conn body db).1
  unfolding conn
  conn-After body db h = connect-After body db.tables db.faults h

module _ {J : Type 0} (x : Externals J) (P : Unit {0} → Tables → Type 0) where
  pub insert_step-Commits :
      (r : StepRecord J) (t : Tables)
      → has_step r.run_id r.index t.step_records ≡ false
      → ((text : String) → P tt (record t { step_records = step_row r text ∷ t.step_records }))
      → Commits P (insert_step x r (x.dumps r.output) t)
  unfolding insert_step
  insert_step-Commits r t new k = elim (Option-cases (x.dumps r.output)) [
    | inl bare ↦ rw bare (λ crash. cc crash)
    | inr (text, d) ↦ elim (Bool-cases (run_id_taken r.run_id t.runs)) [
      | inl known ↦ rw (d, new, known) (k text)
      | inr unknown ↦ rw (d, new, unknown) (λ crash. cc crash)
    ]
  ]

module _ (P : Unit {0} → Tables → Type 0) where
  pub update_status-Commits :
      (run_id : String) (status : RunStatus) (error : Option Text) (t : Tables)
      → P tt (record t { runs = replace_run run_id status error t.runs })
      → Commits P (update_status run_id status error t)
  unfolding update_status
  update_status-Commits run_id status error t h =
      elim (Bool-cases (status_conflicts run_id status t.runs)) [
        | inl busy ↦ rw busy (λ crash. cc crash)
        | inr free ↦ rw free h
      ]

  pub take_lease-Commits :
      (id : ℕ) (key owner : String) (now ttl : ℕ) (t : Tables)
      → ((t' : Tables) → t'.runs ≡ t.runs → t'.step_records ≡ t.step_records → P tt t')
      → Commits P (take_lease id key owner now ttl t)
  unfolding take_lease
  take_lease-Commits id key owner now ttl t h =
      elim (Bool-cases (lock_held id (delete_expired id now t.locks))) [
        | inl held ↦ rw held (λ crash. cc crash)
        | inr free ↦ rw free (h _ refl refl)
      ]

  pub release_rows-Commits :
      (id : ℕ) (owner : String) (t : Tables)
      → ((t' : Tables) → t'.runs ≡ t.runs → t'.step_records ≡ t.step_records → P tt t')
      → Commits P (release_rows id owner t)
  unfolding release_rows
  release_rows-Commits id owner t h = h _ refl refl
