-- ===== src/Postgres.antt =====
-- src/durable_agent/postgres.py: the methods of `PostgresStore` on the tables of SCHEMA, and its lock.
pub mod Sql
pub mod View
pub mod Requests
pub mod Same
pub mod Session
pub mod Unique
pub mod Schemas
use durable_agent_engine.Base.{
  Text, codes, ℕ, ◌≤◌, String, Bool, true, false, ◌&&◌, ◌||◌, not, Option, none, some, List, [],
  ◌∷◌, ◌==◌, ltb, length, if◌then◌else◌,
}
use durable_agent_engine.Exec.{
  Error, run_already_active, lock_unavailable, integrity_error, outage, not_serializable,
  data_error, Result, ok, err, Exec, ◌>>=◌, continue, pure, raise,
}
use durable_agent_engine.Models.{RunStatus, RunSpec, RunState, StepRecord}
use durable_agent_engine.Models.Token.{advisory_lock_id}
use durable_agent_engine.Externals.{Externals}
use Sql.{
  RunRow, StepRow, Tables, find_run, rows_of_key, insert_run, update_status, insert_step, steps_of,
}

-- `__init__`: false where it raises ValueError. `schema` is the UTF-8 bytes of the name.
unfoldable pub schema_accepted : List ℕ → Bool
schema_accepted [] = false
schema_accepted (b ∷ bs) = not (ltb 63 (length (b ∷ bs)))

-- What becomes of the request that a connection sends: it is answered, it is lost, or it is carried
-- out and the answer is lost.
pub data Fate : Type 0 where
  answered lost unanswered : Fate

-- An advisory lock is held by a session, which is one connection.
pub record Held : Type 0 where
  pub session : ℕ
  pub lock_id : ℕ

-- The database, with the fates of the connections to come; after the last entry every request is
-- answered.
pub record Db (J : Type 0) : Type 0 where
  pub tables : Tables J
  pub held : List Held
  pub fates : List Fate

-- What the server does besides the tables: the value that a JSONB column makes of a text (`none` is a
-- DataError), and the row that `ORDER BY created_at DESC LIMIT 1` picks.
pub record Server (J : Type 0) : Type 0 where
  pub jsonb : String → Option J
  pub newest : List (RunRow J) → Option (RunRow J)

-- psycopg takes no text with a NUL.
unfoldable pub has_nul : Text → Bool
has_nul [] = false
has_nul (c ∷ t) = c == 0 || has_nul t

unfoldable pub any_nul : List Text → Bool
unfolding has_nul
any_nul [] = false
any_nul (t ∷ ts) = has_nul t || any_nul ts

-- the texts among the parameters of a statement, which psycopg encodes before it sends them
unfoldable pub checked : {A : Type 0} → List Text → Result A → Result A
unfolding any_nul
checked texts r = if any_nul texts then err data_error else r

-- the parameter `error`; None is NULL
abbrev pub error_texts : Option Text → List Text
error_texts none = []
error_texts (some error) = error ∷ []

module _ {J A : Type 0} where
  -- a statement under autocommit
  settle : Result (A × Tables J) → Tables J → Result A × Tables J
  settle (ok (a, written)) old = (ok a, written)
  settle (err e) old = (err e, old)

  request : (Tables J → Result (A × Tables J)) → Tables J → Fate → Result A × Tables J
  unfolding settle
  request body t Fate.answered = settle (body t) t
  request body t Fate.lost = (err outage, t)
  request body t Fate.unanswered = (err outage, (settle (body t) t).1)

  fated : (Tables J → Result (A × Tables J)) → Db J → List Fate → Result A × Db J
  unfolding request
  fated body db [] =
      let (r, t) = request body db.tables Fate.answered in (r, record db { tables = t })
  fated body db (fate ∷ fates) =
      let (r, t) = request body db.tables fate in (r, record db { tables = t; fates = fates })

  -- `with self._conn() as conn:` around one statement, or the two reads of `_hydrate`
  unfoldable pub conn : (Tables J → Result (A × Tables J)) → Exec (Db J) A
  unfolding fated
  conn body db = fated body db db.fates

module _ {J : Type 0} where
  unfoldable pub step_record : StepRow J → StepRecord J
  step_record r = record {
    run_id = r.run_id;
    index = r.step_index;
    name = r.name;
    outcome = r.outcome;
    attempts = r.attempts;
    output = r.output;
    tokens_used = r.tokens_used;
    created_at = r.created_at;
  }

  unfoldable pub step_records : List (StepRow J) → List (StepRecord J)
  unfolding step_record
  step_records [] = []
  step_records (r ∷ rs) = step_record r ∷ step_records rs

  unfoldable pub hydrate : Tables J → RunRow J → RunState J
  unfolding step_records steps_of
  hydrate t row = record {
    run_id = row.run_id;
    idempotency_key = row.idempotency_key;
    status = row.status;
    plan_name = row.plan_name;
    payload = row.payload;
    steps = step_records (steps_of row.run_id t.step_records);
    error = row.error;
  }

  unfoldable pub hydrate_if : Tables J → Option (RunRow J) → Option (RunState J)
  unfolding hydrate
  hydrate_if t none = none
  hydrate_if t (some row) = some (hydrate t row)

  load_rows : String → Tables J → Result (Option (RunState J) × Tables J)
  unfolding hydrate_if checked
  load_rows run_id t = checked (codes run_id ∷ []) (ok (hydrate_if t (find_run run_id t.runs), t))

  unfoldable pub load : String → Exec (Db J) (Option (RunState J))
  unfolding load_rows
  load run_id = conn (load_rows run_id)

  unfoldable pub status_row :
      String → RunStatus → Option Text → Tables J → Result (Unit {0} × Tables J)
  unfolding checked
  status_row run_id status error t =
      checked (codes run_id ∷ error_texts error) (update_status run_id status error t)

  unfoldable pub set_status : String → RunStatus → Option Text → Exec (Db J) (Unit {0})
  unfolding status_row
  set_status run_id status error = conn (status_row run_id status error)

module _ {J : Type 0} (x : Externals J) (server : Server J) where
  -- `json.dumps`, and the cast of its text to JSONB
  unfoldable pub to_jsonb : J → Result J
  to_jsonb value = elim (x.dumps value) [
    | none ↦ err not_serializable
    | some text ↦ elim (server.jsonb text) [ none ↦ err data_error | some stored ↦ ok stored ]
  ]

  find_rows : String → Tables J → Result (Option (RunState J) × Tables J)
  unfolding hydrate_if checked
  find_rows key t =
      checked (codes key ∷ []) (ok (hydrate_if t (server.newest (rows_of_key key t.runs)), t))

  unfoldable pub find_by_key : String → Exec (Db J) (Option (RunState J))
  unfolding find_rows
  find_by_key key = conn (find_rows key)

  -- the row that create_run inserts; `created_at` is `now()` of the server
  abbrev pub pending_row : ℕ → String → RunSpec J → J → RunRow J
  pending_row now run_id spec payload = record {
    run_id = run_id;
    idempotency_key = spec.idempotency_key;
    plan_name = spec.plan.name;
    payload = payload;
    status = RunStatus.pending;
    error = none;
    created_at = now;
  }

  unfoldable pub insert_pending :
      ℕ → String → RunSpec J → Result J → Tables J → Result (Unit {0} × Tables J)
  unfolding checked
  insert_pending now run_id spec (err e) t = err e
  insert_pending now run_id spec (ok payload) t =
      checked (codes run_id ∷ codes spec.idempotency_key ∷ codes spec.plan.name ∷ [])
        (insert_run (pending_row now run_id spec payload) t)

  unfoldable pub raise_active : Option (RunState J) → Exec (Db J) (RunState J)
  raise_active (some existing) = raise (run_already_active existing.run_id)
  raise_active none = raise integrity_error

  -- what follows the INSERT: the returned state, or the `except` clause
  unfoldable pub after_insert : String → RunSpec J → Result (Unit {0}) → Exec (Db J) (RunState J)
  unfolding raise_active
  after_insert run_id spec (ok _) = pure (record {
    run_id = run_id;
    idempotency_key = spec.idempotency_key;
    status = RunStatus.pending;
    plan_name = spec.plan.name;
    payload = spec.payload;
    steps = [];
    error = none;
  })
  after_insert run_id spec (err integrity_error) = find_by_key spec.idempotency_key >>= raise_active
  after_insert run_id spec (err e) = raise e

  unfoldable pub create_run : ℕ → String → RunSpec J → Exec (Db J) (RunState J)
  unfolding insert_pending after_insert
  create_run now run_id spec db =
      let (inserted, db') = conn (insert_pending now run_id spec (to_jsonb spec.payload)) db in
      after_insert run_id spec inserted db'

  -- the row that append inserts
  abbrev step_row : StepRecord J → J → StepRow J
  step_row r output = record {
    run_id = r.run_id;
    step_index = r.index;
    name = r.name;
    outcome = r.outcome;
    attempts = r.attempts;
    output = output;
    tokens_used = r.tokens_used;
    created_at = r.created_at;
  }

  unfoldable pub append_row : StepRecord J → Result J → Tables J → Result (Unit {0} × Tables J)
  unfolding checked
  append_row r (err e) t = err e
  append_row r (ok output) t =
      checked (codes r.run_id ∷ codes r.name ∷ []) (insert_step (step_row r output) t)

  unfoldable pub append : StepRecord J → Exec (Db J) (Unit {0})
  unfolding append_row
  append r = conn (append_row r (to_jsonb r.output))

-- whether another session holds the lock
unfoldable pub held_elsewhere : ℕ → ℕ → List Held → Bool
held_elsewhere session lock_id [] = false
held_elsewhere session lock_id (h ∷ hs) =
    (h.lock_id == lock_id && not (h.session == session)) || held_elsewhere session lock_id hs

-- SELECT pg_try_advisory_lock: what the server answers, and the locks it then has; a session may take
-- its own lock again
unfoldable pub pg_try_advisory_lock : ℕ → ℕ → List Held → Bool × List Held
unfolding held_elsewhere
pg_try_advisory_lock session lock_id held =
    if held_elsewhere session lock_id held
    then (false, held)
    else (true, record { session = session; lock_id = lock_id } ∷ held)

-- `if not acquired: raise LockUnavailable(...)`
unfoldable pub unless_refused : Bool → Result (Unit {0})
unless_refused true = ok tt
unless_refused false = err lock_unavailable

module _ {J : Type 0} where
  -- the request, when it is answered, and the test of `acquired`
  unfoldable pub try_lock : ℕ → ℕ → List Fate → Db J → Result (Unit {0}) × Db J
  unfolding pg_try_advisory_lock unless_refused
  try_lock session lock_id fates db =
      let (acquired, held) = pg_try_advisory_lock session lock_id db.held in
      (unless_refused acquired, record db { held = held; fates = fates })

  unfoldable pub lock_fated : ℕ → ℕ → List Fate → Db J → Result (Unit {0}) × Db J
  unfolding try_lock
  lock_fated session lock_id [] db = try_lock session lock_id [] db
  lock_fated session lock_id (Fate.answered ∷ fates) db = try_lock session lock_id fates db
  lock_fated session lock_id (Fate.lost ∷ fates) db = (err outage, record db { fates = fates })
  lock_fated session lock_id (Fate.unanswered ∷ fates) db =
      (err outage, record db { fates = fates })

module _ {J : Type 0} (x : Externals J) where
  -- `lock` up to its `yield`, on a connection of its own, `session`. An outage closes the connection,
  -- and with it goes the lock, if it was taken.
  unfoldable pub acquire : ℕ → String → Exec (Db J) (Unit {0})
  unfolding lock_fated
  acquire session key db = lock_fated session (advisory_lock_id x key) db.fates db

-- the locks of the sessions that stay
unfoldable pub end_session : ℕ → List Held → List Held
end_session session [] = []
end_session session (h ∷ hs) =
    let rest = end_session session hs in if h.session == session then rest else h ∷ rest

-- The `finally` of `lock`, or the death of the process: the connection closes, and the database drops
-- the session's locks. What the unlock itself raises is suppressed.
unfoldable pub close : {J : Type 0} → ℕ → Exec (Db J) (Unit {0})
unfolding end_session
close session db = (ok tt, record db { held = end_session session db.held })
