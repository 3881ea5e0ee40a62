-- ===== src/Postgres/Unique.antt =====
-- postgres.py: the partial unique index of `runs`, under any requests and fates.
pub mod Rows
use durable_agent_engine.Base.{
  Text, codes, ℕ, String, ◌≡◌, refl, sym, ap, ◌∙◌, true, false, ◌&&◌, and_false, Option, none, some,
  List, [], ◌∷◌, map, str_eq, Bool-cases, Option-cases, inl, inr, arith, if◌then◌else◌,
}
use mathlib.Core.Option
use durable_agent_engine.Exec.{integrity_error, Result, ok, err, Exec, continue}
use durable_agent_engine.Exec.Keeps.{Keeps}
use durable_agent_engine.Models.{RunStatus, RunSpec, RunState, StepRecord}
use durable_agent_engine.Externals.{Externals}
use durable_agent_engine.Externals
use durable_agent_engine.Store.Sql
use durable_agent_engine.Store.Sql.{is_active}
use durable_agent_engine.Store.Valid.{IsValidRuns}
use durable_agent_engine.Store.Rows.{replace-IsValidRuns}
use durable_agent_engine.Store.Calls.{active_unique}
use durable_agent_engine.Postgres.Sql.{
  RunRow, StepRow, Tables, run_id_taken, key_active, find_run, replace_run, status_conflicts,
  insert_run, update_status, insert_step, has_step,
}
use durable_agent_engine.Postgres
use durable_agent_engine.Postgres.{
  Db, Fate, Server, settle, request, fated, conn, load_rows, find_rows, pending_row, insert_pending,
  raise_active, after_insert, append_row, find_by_key, to_jsonb, checked, any_nul, error_texts,
  status_row,
}
use durable_agent_engine.Postgres.Requests.{Request, postgres_answer, postgres_answers}
use durable_agent_engine.Postgres.Unique.Rows.{
  bare, find-bare, IsUnique, Commits, Unique, insert_run-Commits, update_status-Commits,
  insert_step-Commits,
}

module _ {J : Type 0} where
  module _ {A : Type 0} where
    settle_keeps :
        (r : Result (A × Tables J)) (t : Tables J)
        → IsUnique t
        → Commits r
        → IsUnique (settle r t).1
    unfolding settle
    settle_keeps (ok (a, t')) t h k = k
    settle_keeps (err e) t h k = h

    request_keeps :
        (body : Tables J → Result (A × Tables J)) (t : Tables J) (fate : Fate)
        → IsUnique t
        → Commits (body t)
        → IsUnique (request body t fate).1
    unfolding request
    request_keeps body t Fate.answered h k = settle_keeps (body t) t h k
    request_keeps body t Fate.lost h k = h
    request_keeps body t Fate.unanswered h k = settle_keeps (body t) t h k

    fated_keeps :
        (body : Tables J → Result (A × Tables J)) (db : Db J) (fates : List Fate)
        → Unique db
        → Commits (body db.tables)
        → Unique (fated body db fates).1
    unfolding fated
    fated_keeps body db [] h k = request_keeps body db.tables Fate.answered h k
    fated_keeps body db (fate ∷ fates) h k = request_keeps body db.tables fate h k

    conn_keeps :
        (body : Tables J → Result (A × Tables J)) (db : Db J)
        → Unique db
        → Commits (body db.tables)
        → Unique (conn body db).1
    unfolding conn
    conn_keeps body db h k = fated_keeps body db db.fates h k

  checked-Commits :
      {A : Type 0} (texts : List Text) (r : Result (A × Tables J))
      → Commits r
      → Commits (checked texts r)
  unfolding checked
  checked-Commits texts r h = elim (Bool-cases (any_nul texts)) [
    | inl nul ↦ rw nul tt
    | inr clear ↦ rw clear h
  ]

  load-Keeps : (run_id : String) → Keeps Unique (Postgres.load {J = J} run_id)
  unfolding Postgres.load load_rows
  load-Keeps run_id db h =
      conn_keeps (load_rows run_id) db h (checked-Commits (codes run_id ∷ []) _ h)

  set_status-Keeps :
      (run_id : String) (status : RunStatus) (error : Option Text)
      → Keeps Unique (Postgres.set_status {J = J} run_id status error)
  unfolding Postgres.set_status status_row
  set_status-Keeps run_id status error db h = conn_keeps (status_row run_id status error) db h (
      checked-Commits (codes run_id ∷ error_texts error) _
        (update_status-Commits run_id status error db.tables h))

module _ {J : Type 0} (x : Externals J) (server : Server J) where
  find-Keeps : (key : String) → Keeps Unique (find_by_key x server key)
  unfolding find_by_key find_rows
  find-Keeps key db h =
      conn_keeps (find_rows x server key) db h (checked-Commits (codes key ∷ []) _ h)

  pending-Commits :
      (now : ℕ) (run_id : String) (spec : RunSpec J) (payload : Result J) (t : Tables J)
      → IsUnique t
      → Commits (insert_pending x server now run_id spec payload t)
  unfolding insert_pending
  pending-Commits now run_id spec (err e) t h = tt
  pending-Commits now run_id spec (ok payload) t h =
      checked-Commits (codes run_id ∷ codes spec.idempotency_key ∷ codes spec.plan.name ∷ []) _
        (insert_run-Commits (pending_row x server now run_id spec payload) t h)

  row-Commits :
      (r : StepRecord J) (output : Result J) (t : Tables J)
      → IsUnique t
      → Commits (append_row x server r output t)
  unfolding append_row
  row-Commits r (err e) t h = tt
  row-Commits r (ok output) t h =
      checked-Commits (codes r.run_id ∷ codes r.name ∷ []) _ (insert_step-Commits _ t h)

  raise_keeps :
      (r : Result (Option (RunState J))) (db : Db J)
      → Unique db
      → Unique (continue r (raise_active x server) db).1
  unfolding raise_active
  raise_keeps (ok none) db h = h
  raise_keeps (ok (some existing)) db h = h
  raise_keeps (err e) db h = h

  inserted_keeps :
      (run_id : String) (spec : RunSpec J) (r : Result (Unit {0})) (db : Db J)
      → Unique db
      → Unique (after_insert x server run_id spec r db).1
  unfolding after_insert
  inserted_keeps run_id spec (ok u) db h = h
  inserted_keeps run_id spec (err integrity_error) db h =
      let found = find_by_key x server spec.idempotency_key db in
      raise_keeps found.0 found.1 (find-Keeps spec.idempotency_key db h)
  inserted_keeps run_id spec (err e) db h = h

  answer-Unique : (c : Request J) (db : Db J) → Unique db → Unique (postgres_answer x server c db).1
  unfolding postgres_answer Postgres.create_run Postgres.append
  answer-Unique (Request.create_run now run_id spec) db h =
      let body = insert_pending x server now run_id spec (to_jsonb x server spec.payload) in
      inserted_keeps run_id spec (conn body db).0 (conn body db).1 (
        conn_keeps body db h
          (pending-Commits now run_id spec (to_jsonb x server spec.payload) db.tables h))
  answer-Unique (Request.load run_id) db h = load-Keeps run_id db h
  answer-Unique (Request.find_by_key key) db h = find-Keeps key db h
  answer-Unique (Request.append r) db h =
      conn_keeps (append_row x server r (to_jsonb x server r.output)) db h
        (row-Commits r (to_jsonb x server r.output) db.tables h)
  answer-Unique (Request.set_status run_id status error) db h =
      set_status-Keeps run_id status error db h

  answers-Unique :
      (cs : List (Request J)) (db : Db J) → Unique db → Unique (postgres_answers x server cs db).1
  unfolding postgres_answers
  answers-Unique [] db h = h
  answers-Unique (c ∷ cs) db h =
      answers-Unique cs (postgres_answer x server c db).1 (answer-Unique c db h)

  -- a database on which nobody has worked
  abbrev pub fresh : List Fate → Db J
  fresh fates = record {
    tables = record { runs = []; step_records = [] };
    held = [];
    fates = fates;
  }

  -- Whatever the workers ask of a fresh Postgres database, in whatever order, and whatever becomes of
  -- their requests, lost answers included: two runs that are both pending or running and share an
  -- idempotency key are one run.
  pub one_open_run_per_key :
      (requests : List (Request J)) (fates : List Fate) (a b : String) (ra rb : RunRow J)
      → let runs = (postgres_answers x server requests (fresh fates)).1.tables.runs in
        find_run a runs ≡ some ra
        → find_run b runs ≡ some rb
        → is_active ra.status ≡ true
        → is_active rb.status ≡ true
        → ra.idempotency_key ≡ rb.idempotency_key
        → a ≡ b
  one_open_run_per_key requests fates a b ra rb fa fb aa ab k =
      let runs = (postgres_answers x server requests (fresh fates)).1.tables.runs in
      active_unique a b (bare ra) (bare rb) (map bare runs)
        (answers-Unique requests (fresh fates) tt) (find-bare a runs ∙ ap (Option.map bare) fa)
        (find-bare b runs ∙ ap (Option.map bare) fb) aa ab k
