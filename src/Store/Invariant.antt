-- ===== src/Store/Invariant.antt =====
-- Every method of `SQLiteStore` keeps the constraints of the schema (store.py).
use durable_agent_engine.Base.{
  Text, ℕ, String, ◌&&◌, Option, none, some, and_false, Bool-cases, inl, inr,
}
use durable_agent_engine.Exec.{integrity_error, Result, ok, err}
use durable_agent_engine.Exec.Keeps.{Keeps, bind-Keeps}
use durable_agent_engine.Models.{RunStatus, RunSpec, RunState, StepRecord}
use durable_agent_engine.Models.Token.{advisory_lock_id}
use durable_agent_engine.Externals.{Externals, RunRow}
use durable_agent_engine.Store.Sql.{
  Tables, is_active, run_id_taken, key_active, status_conflicts, update_status, insert_run,
  delete_expired, lock_held, has_step,
}
use durable_agent_engine.Store.Valid.{IsValid}
use durable_agent_engine.Store.LockRows.{delete_expired-IsValidLocks, delete_lock-IsValidLocks}
use durable_agent_engine.Store.Rows.{replace-IsValidRuns, replace-HasRuns, cons-HasRuns}
use durable_agent_engine.Store.{
  Db, load, find_by_key, insert_pending, raise_active, after_insert, create_run, insert_step,
  append, take_lease, acquire, release, set_status, pending_row, load_rows, find_rows, release_rows,
}
use durable_agent_engine.Store.Connection.{Commits, conn_keeps}

insert_run-IsValid : (r : RunRow) (t : Tables) → IsValid t → Commits IsValid (insert_run r t)
unfolding insert_run
insert_run-IsValid r t v = elim (Bool-cases (run_id_taken r.run_id t.runs)) [
  | inl taken ↦ rw taken tt
  | inr fresh ↦
      elim (Bool-cases (is_active r.status && key_active r.idempotency_key r.run_id t.runs)) [
        | inl busy ↦ rw (fresh, busy) tt
        | inr free ↦
            rw (fresh, free)
              (record {
                runs = (fresh, λ active. and_false _ _ active free, v.runs);
                steps = v.steps;
                refs = cons-HasRuns r t.runs t.step_records v.refs;
                locks = v.locks;
              })
      ]
]

update_status-IsValid :
    (run_id : String) (status : RunStatus) (error : Option Text) (t : Tables)
    → IsValid t
    → Commits IsValid (update_status run_id status error t)
unfolding update_status
update_status-IsValid run_id status error t v =
    elim (Bool-cases (status_conflicts run_id status t.runs)) [
      | inl busy ↦ rw busy tt
      | inr free ↦ rw free (record {
        runs = replace-IsValidRuns run_id status error t.runs v.runs free;
        steps = v.steps;
        refs = replace-HasRuns run_id status error t.runs t.step_records v.refs;
        locks = v.locks;
      })
    ]

take_lease-IsValid :
    (id : ℕ) (key owner : String) (now ttl : ℕ) (t : Tables)
    → IsValid t
    → Commits IsValid (take_lease id key owner now ttl t)
unfolding take_lease
take_lease-IsValid id key owner now ttl t v =
    elim (Bool-cases (lock_held id (delete_expired id now t.locks))) [
      | inl held ↦ rw held tt
      | inr free ↦ rw free (record {
        runs = v.runs;
        steps = v.steps;
        refs = v.refs;
        locks = (free, delete_expired-IsValidLocks id now t.locks v.locks);
      })
    ]

pub set_status-IsValid :
    (run_id : String) (status : RunStatus) (error : Option Text) (db : Db)
    → IsValid db.tables
    → IsValid (set_status run_id status error db).1.tables
unfolding set_status
set_status-IsValid run_id status error db v =
    conn_keeps IsValid (update_status run_id status error) db v
      (update_status-IsValid run_id status error db.tables v)

module _ {J : Type 0} (x : Externals J) where
  insert_pending-IsValid :
      (now : ℕ) (run_id : String) (spec : RunSpec J) (payload : Option String) (t : Tables)
      → IsValid t
      → Commits IsValid (insert_pending x now run_id spec payload t)
  unfolding insert_pending
  insert_pending-IsValid now run_id spec none t v = tt
  insert_pending-IsValid now run_id spec (some payload) t v =
      insert_run-IsValid (pending_row x now run_id spec payload) t v

  insert_step-IsValid :
      (r : StepRecord J) (output : Option String) (t : Tables)
      → IsValid t
      → Commits IsValid (insert_step x r output t)
  unfolding insert_step
  insert_step-IsValid r none t v = tt
  insert_step-IsValid r (some output) t v =
      elim (Bool-cases (has_step r.run_id r.index t.step_records)) [
        | inl old ↦ rw old v
        | inr new ↦ elim (Bool-cases (run_id_taken r.run_id t.runs)) [
          | inl known ↦
              rw (new, known)
                (record {
                  runs = v.runs;
                  steps = (new, v.steps);
                  refs = (known, v.refs);
                  locks = v.locks;
                })
          | inr unknown ↦ rw (new, unknown) tt
        ]
      ]

  pub load-IsValid :
      (run_id : String) (db : Db) → IsValid db.tables → IsValid (load x run_id db).1.tables
  unfolding load
  load-IsValid run_id db v = conn_keeps IsValid (load_rows x run_id) db v v

  pub find_by_key-IsValid :
      (key : String) (db : Db) → IsValid db.tables → IsValid (find_by_key x key db).1.tables
  unfolding find_by_key
  find_by_key-IsValid key db v = conn_keeps IsValid (find_rows x key) db v v

  pub append-IsValid :
      (r : StepRecord J) (db : Db) → IsValid db.tables → IsValid (append x r db).1.tables
  unfolding append
  append-IsValid r db v =
      conn_keeps IsValid (insert_step x r (x.dumps r.output)) db v
        (insert_step-IsValid r (x.dumps r.output) db.tables v)

  pub acquire-IsValid :
      (key owner : String) (now ttl : ℕ) (db : Db)
      → IsValid db.tables
      → IsValid (acquire x key owner now ttl db).1.tables
  unfolding acquire
  acquire-IsValid key owner now ttl db v =
      conn_keeps IsValid (take_lease (advisory_lock_id x key) key owner now ttl) db v
        (take_lease-IsValid (advisory_lock_id x key) key owner now ttl db.tables v)

  pub release-IsValid :
      (key owner : String) (db : Db) → IsValid db.tables → IsValid (release x key owner db).1.tables
  unfolding release
  release-IsValid key owner db v =
      conn_keeps IsValid (release_rows (advisory_lock_id x key) owner) db v (record {
        runs = v.runs;
        steps = v.steps;
        refs = v.refs;
        locks = delete_lock-IsValidLocks (advisory_lock_id x key) owner db.tables.locks v.locks;
      })

  raise_active-IsValid :
      (o : Option (RunState J)) → Keeps (λ (db : Db). IsValid db.tables) (raise_active x o)
  unfolding raise_active
  raise_active-IsValid none db v = v
  raise_active-IsValid (some s) db v = v

  after_insert-IsValid :
      (run_id : String) (spec : RunSpec J) (r : Result (Unit {0}))
      → Keeps (λ (db : Db). IsValid db.tables) (after_insert x run_id spec r)
  unfolding after_insert
  after_insert-IsValid run_id spec (err integrity_error) db v =
      bind-Keeps (λ (db : Db). IsValid db.tables) (find_by_key x spec.idempotency_key)
        (raise_active x) (find_by_key-IsValid spec.idempotency_key) raise_active-IsValid db v
  after_insert-IsValid run_id spec (ok a) db v = v
  after_insert-IsValid run_id spec (err e) db v = v

  pub create_run-IsValid :
      (now : ℕ) (run_id : String) (spec : RunSpec J)
      → Keeps (λ (db : Db). IsValid db.tables) (create_run x now run_id spec)
  unfolding create_run
  create_run-IsValid now run_id spec db v = after_insert-IsValid run_id spec _ _ (
      conn_keeps IsValid (insert_pending x now run_id spec (x.dumps spec.payload)) db v
        (insert_pending-IsValid now run_id spec (x.dumps spec.payload) db.tables v))
