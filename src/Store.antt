-- ===== src/Store.antt =====
-- src/durable_agent/store.py: the tables of SQLITE_SCHEMA and the methods of `SQLiteStore`.
pub mod Sql
pub mod Valid
pub mod Rows
pub mod LockRows
pub mod Connection
pub mod Invariant
pub mod Calls
pub mod Checkpoints
pub mod Reads
pub mod Crash
pub mod Creates
pub mod Setup
pub mod Healthy
pub mod Lease
pub mod Leases
pub mod RoundTrip
pub mod Conflict
pub mod Abstract
pub mod Refinement
use durable_agent_engine.Base.{
  Text, ℕ, ◌+◌, String, Bool, true, false, ◌&&◌, Option, none, some, List, [], ◌∷◌, str_eq, leb,
  ◌==◌, if◌then◌else◌,
}
use durable_agent_engine.Exec.{
  Error, run_already_active, lock_unavailable, integrity_error, outage, not_serializable, Result,
  ok, err, Exec, ◌>>=◌, continue, pure, raise,
}
use durable_agent_engine.Models.{RunStatus, RunSpec, RunState, StepRecord}
use durable_agent_engine.Models.Token.{advisory_lock_id}
use durable_agent_engine.Externals.{Externals, RunRow}
use Sql.{
  StepRow, LockRow, Tables, run_id_taken, find_run, rows_of_key, insert_run, update_status,
  has_step, steps_of, delete_expired, lock_held, delete_lock,
}

-- The database, with the faults to come: each connection takes one entry, and `true` is a
-- connection that fails. With the list at its end every connection works.
pub record Db : Type 0 where
  pub tables : Tables
  pub faults : List Bool

-- COMMIT after a body that returned, ROLLBACK after one that raised.
settle : {A : Type 0} → Result (A × Tables) → Tables → List Bool → Result A × Db
settle (ok (a, written)) old faults = (ok a, record { tables = written; faults = faults })
settle (err e) old faults = (err e, record { tables = old; faults = faults })

connect : {A : Type 0} → (Tables → Result (A × Tables)) → Tables → List Bool → Result A × Db
connect body t [] = settle (body t) t []
connect body t (true ∷ faults) = (err outage, record { tables = t; faults = faults })
connect body t (false ∷ faults) = settle (body t) t faults

-- `with self._conn(...) as conn:` around a body on the tables
unfoldable pub conn : {A : Type 0} → (Tables → Result (A × Tables)) → Exec Db A
unfolding connect settle
conn body db = connect body db.tables db.faults

abbrev pub lease : ℕ → String → String → ℕ → LockRow
lease lock_id key owner expires_at = record {
  lock_id = lock_id;
  key = key;
  owner = owner;
  expires_at = expires_at;
}

unfoldable pub take_lease : ℕ → String → String → ℕ → ℕ → Tables → Result (Unit {0} × Tables)
take_lease lock_id key owner now ttl t =
    let kept = delete_expired lock_id now t.locks in
    if lock_held lock_id kept
    then err lock_unavailable
    else ok (tt, record t { locks = lease lock_id key owner (now + ttl) ∷ kept })

pub release_rows : ℕ → String → Tables → Result (Unit {0} × Tables)
release_rows lock_id owner t = ok (tt, record t { locks = delete_lock lock_id owner t.locks })

-- the row that append inserts
abbrev pub step_row : {J : Type 0} → StepRecord J → String → StepRow
step_row r output = record {
  run_id = r.run_id;
  step_index = r.index;
  name = r.name;
  outcome = r.outcome;
  attempts = r.attempts;
  output = output;
  tokens_used = r.tokens_used;
  created_at = r.created_at;
}

module _ {J : Type 0} (x : Externals J) where
  unfoldable pub step_record : StepRow → StepRecord J
  step_record r = record {
    run_id = r.run_id;
    index = r.step_index;
    name = r.name;
    outcome = r.outcome;
    attempts = r.attempts;
    output = x.loads r.output;
    tokens_used = r.tokens_used;
    created_at = r.created_at;
  }

  unfoldable pub step_records : List StepRow → List (StepRecord J)
  unfolding step_record
  step_records [] = []
  step_records (r ∷ rs) = step_record r ∷ step_records rs

  unfoldable pub hydrate : Tables → RunRow → RunState J
  unfolding step_records steps_of
  hydrate t row = record {
    run_id = row.run_id;
    idempotency_key = row.idempotency_key;
    status = row.status;
    plan_name = row.plan_name;
    payload = x.loads row.payload;
    steps = step_records (steps_of row.run_id t.step_records);
    error = row.error;
  }

  unfoldable pub hydrate_if : Tables → Option RunRow → Option (RunState J)
  unfolding hydrate
  hydrate_if t none = none
  hydrate_if t (some row) = some (hydrate t row)

  unfoldable pub load_rows : String → Tables → Result (Option (RunState J) × Tables)
  unfolding hydrate_if
  load_rows run_id t = ok (hydrate_if t (find_run run_id t.runs), t)

  unfoldable pub load : String → Exec Db (Option (RunState J))
  unfolding load_rows
  load run_id = conn (load_rows run_id)

  pub find_rows : String → Tables → Result (Option (RunState J) × Tables)
  unfolding hydrate_if
  find_rows key t = ok (hydrate_if t (x.newest (rows_of_key key t.runs)), t)

  unfoldable pub find_by_key : String → Exec Db (Option (RunState J))
  unfolding find_rows
  find_by_key key = conn (find_rows key)

  -- the row that create_run inserts; `created_at` is filled by the database's clock
  abbrev pub pending_row : ℕ → String → RunSpec J → String → RunRow
  pending_row now run_id spec payload = record {
    run_id = run_id;
    idempotency_key = spec.idempotency_key;
    plan_name = spec.plan.name;
    payload = payload;
    status = RunStatus.pending;
    error = none;
    created_at = now;
  }

  unfoldable pub insert_pending :
      ℕ → String → RunSpec J → Option String → Tables → Result (Unit {0} × Tables)
  insert_pending now run_id spec none t = err not_serializable
  insert_pending now run_id spec (some payload) t =
      insert_run (pending_row now run_id spec payload) t

  unfoldable pub raise_active : Option (RunState J) → Exec Db (RunState J)
  raise_active (some existing) = raise (run_already_active existing.run_id)
  raise_active none = raise integrity_error

  -- what follows the INSERT: the returned state, or the `except` clause
  unfoldable pub after_insert : String → RunSpec J → Result (Unit {0}) → Exec Db (RunState J)
  unfolding raise_active
  after_insert run_id spec (ok _) = pure (record {
    run_id = run_id;
    idempotency_key = spec.idempotency_key;
    status = RunStatus.pending;
    plan_name = spec.plan.name;
    payload = spec.payload;
    steps = [];
    error = none;
  })
  after_insert run_id spec (err integrity_error) = find_by_key spec.idempotency_key >>= raise_active
  after_insert run_id spec (err e) = raise e

  -- `now` is the database's clock, which fills `created_at`.
  unfoldable pub create_run : ℕ → String → RunSpec J → Exec Db (RunState J)
  unfolding insert_pending after_insert
  create_run now run_id spec db =
      let (inserted, db') = conn (insert_pending now run_id spec (x.dumps spec.payload)) db in
      after_insert run_id spec inserted db'

  -- INSERT OR IGNORE, after the row's output has been encoded
  unfoldable pub insert_step : StepRecord J → Option String → Tables → Result (Unit {0} × Tables)
  insert_step r none t = err not_serializable
  insert_step r (some output) t =
      if has_step r.run_id r.index t.step_records
      then ok (tt, t)
      else if run_id_taken r.run_id t.runs
      then ok (tt, record t { step_records = step_row r output ∷ t.step_records })
      else err integrity_error

  unfoldable pub append : StepRecord J → Exec Db (Unit {0})
  unfolding insert_step
  append r = conn (insert_step r (x.dumps r.output))

  -- `lock` up to its `yield`, with the owner's uuid and the time that it reads
  unfoldable pub acquire : String → String → ℕ → ℕ → Exec Db (Unit {0})
  unfolding take_lease
  acquire key owner now ttl = conn (take_lease (advisory_lock_id x key) key owner now ttl)

  -- the `finally` of `lock`
  unfoldable pub release : String → String → Exec Db (Unit {0})
  unfolding release_rows
  release key owner = conn (release_rows (advisory_lock_id x key) owner)

unfoldable pub set_status : String → RunStatus → Option Text → Exec Db (Unit {0})
set_status run_id status error = conn (update_status run_id status error)
