-- ===== src/Store/Reads.antt =====
-- What `load` reads after a status has been set (store.py).
use durable_agent_engine.Base.{
  String, ◌≡◌, refl, Bool, true, false, Option, none, some, List, [], ◌∷◌, Text, arith, Bool-cases,
  inl, inr,
}
use durable_agent_engine.Exec.{Result, ok, err, Yields}
use durable_agent_engine.Models.{RunStatus, RunState}
use durable_agent_engine.Externals.{Externals, RunRow}
use durable_agent_engine.Store.Sql.{Tables, find_run, replace_run, status_conflicts, update_status}
use durable_agent_engine.Store.{
  Db, settle, connect, conn, hydrate_if, hydrate, load_rows, load, set_status,
}

-- What a body returns through a connection, it returned on the tables, and it left them so.
module _ {A : Type 0} (body : Tables → Result (A × Tables)) (P : A → Tables → Type 0) where
  settle-Yields :
      (r : Result (A × Tables)) (t : Tables) (faults : List Bool)
      → Yields (λ p. P p.0 p.1) r
      → Yields (λ a. P a (settle r t faults).1.tables) (settle r t faults).0
  unfolding settle
  settle-Yields (ok (a, t')) t faults h = h
  settle-Yields (err e) t faults h = tt

  connect-Yields :
      (t : Tables) (faults : List Bool)
      → Yields (λ p. P p.0 p.1) (body t)
      → Yields (λ a. P a (connect body t faults).1.tables) (connect body t faults).0
  unfolding connect
  connect-Yields t [] h = settle-Yields (body t) t [] h
  connect-Yields t (true ∷ faults) h = tt
  connect-Yields t (false ∷ faults) h = settle-Yields (body t) t faults h

  pub conn-Yields :
      (db : Db)
      → Yields (λ p. P p.0 p.1) (body db.tables)
      → Yields (λ a. P a (conn body db).1.tables) (conn body db).0
  unfolding conn
  conn-Yields db h = connect-Yields db.tables db.faults h

find_run-replace_self :
    (id : String) (st : RunStatus) (error : Option Text) (rs : List RunRow) (row : RunRow)
    → find_run id (replace_run id st error rs) ≡ some row
    → row.status ≡ st
unfolding find_run replace_run
find_run-replace_self id st error [] row h = cc
find_run-replace_self id st error (r ∷ rs) row h =
    ground (arith, find_run-replace_self id st error rs row)

-- The row of a run, if there is one, has a status.
abbrev pub HasStatus : String → RunStatus → Tables → Type 0
HasStatus run_id status t = (row : RunRow) → find_run run_id t.runs ≡ some row → row.status ≡ status

update_status-Yields :
    (run_id : String) (status : RunStatus) (error : Option Text) (t : Tables)
    → Yields
        (λ (p : Unit {0} × Tables). HasStatus run_id status p.1)
        (update_status run_id status error t)
unfolding update_status
update_status-Yields run_id status error t =
    elim (Bool-cases (status_conflicts run_id status t.runs)) [
      | inl busy ↦ rw busy tt
      | inr free ↦ rw free (λ row h. find_run-replace_self run_id status error t.runs row h)
    ]

-- A status that was set is the run's status.
pub set_status-Yields :
    (run_id : String) (status : RunStatus) (error : Option Text) (db : Db)
    → Yields
        (λ _. HasStatus run_id status (set_status run_id status error db).1.tables)
        (set_status run_id status error db).0
unfolding set_status
set_status-Yields run_id status error db =
    conn-Yields (update_status run_id status error) (λ _. HasStatus run_id status) db
      (update_status-Yields run_id status error db.tables)

module _ {J : Type 0} (x : Externals J) where
  -- The state that a load returned has a status.
  abbrev pub LoadsStatus : RunStatus → Option (RunState J) → Type 0
  LoadsStatus status none = Unit
  LoadsStatus status (some state) = state.status ≡ status

  hydrate_if_status :
      (run_id : String) (status : RunStatus) (t : Tables) (o : Option RunRow)
      → find_run run_id t.runs ≡ o
      → HasStatus run_id status t
      → LoadsStatus status (hydrate_if x t o)
  unfolding hydrate_if hydrate
  hydrate_if_status run_id status t none e h = tt
  hydrate_if_status run_id status t (some row) e h = h row e

  pub load-Yields :
      (run_id : String) (status : RunStatus) (db : Db)
      → HasStatus run_id status db.tables
      → Yields (LoadsStatus status) (load x run_id db).0
  unfolding load load_rows
  load-Yields run_id status db h =
      conn-Yields (load_rows x run_id) (λ o _. LoadsStatus status o) db
        (hydrate_if_status run_id status db.tables (find_run run_id db.tables.runs) refl h)
