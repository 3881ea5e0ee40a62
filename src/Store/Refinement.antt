-- ===== src/Store/Refinement.antt =====
-- store.py: the tables keep what the `Store` protocol promises.
pub mod Records
pub mod Accepts
pub mod Statements
use durable_agent_engine.Base.{
  ℕ, String, Bool, true, false, ◌||◌, ◌&&◌, ◌==◌, leb, Option, none, some, List, [], ◌∷◌, str_eq,
  eq_iff, eq_refl, Text, ◌≡◌, refl, sym, ap, subst, ◌∙◌, Bool-cases, Option-cases, inl, inr, arith,
  str_eq-false_sym, if◌then◌else◌,
}
use durable_agent_engine.Exec.{Error, Result, ok, err, Exec, continue, integrity_error}
use durable_agent_engine.Models.{RunStatus, RunSpec, StepRecord, RunState}
use durable_agent_engine.Models.Token.{advisory_lock_id}
use durable_agent_engine.Externals.{Externals, RunRow, RoundTrips}
use durable_agent_engine.Store.Sql.{
  StepRow, Tables, find_run, run_id_taken, replace_run, update_status, status_conflicts, has_step,
  insert_sorted, steps_of, insert_run, key_active, is_active, lock_held, delete_expired,
}
use durable_agent_engine.Store
use durable_agent_engine.Store.{
  Db, settle, connect, conn, hydrate, hydrate_if, step_record, step_records, step_row, insert_step,
  pending_row, insert_pending, after_insert, raise_active, load_rows, find_rows, take_lease,
  release_rows, find_by_key,
}
use durable_agent_engine.Store.Connection.{conn_keeps}
use durable_agent_engine.Store.Valid.{IsValid, HasRuns}
use durable_agent_engine.Store.RoundTrip.{no_steps}
use durable_agent_engine.Store.Healthy.{found_id, find-replaced, taken-find}
use durable_agent_engine.Store.Checkpoints.{find_run-replace_ne}
use durable_agent_engine.Store.Calls.{Call, perform, perform_all, perform-IsValid}
use durable_agent_engine.Store.Abstract.{
  is_ok, has_record, insert_record, with_record, new_state, on_state, promised, promised_if, view,
  returns, History, history, promised_all,
}
use durable_agent_engine.Store.Refinement.Records.{
  replaced_gone, inserted-view, old-view, other-view,
}
use durable_agent_engine.Store.Refinement.Statements.{
  Decides, Kept, append-Decides, status-Decides, create-Decides, lease-Decides,
}

module _ {A : Type 0} (P : Bool → Tables → Type 0) where
  settle_decides :
      (r : Result (A × Tables)) (t : Tables) (faults : List Bool)
      → P false t
      → Decides P r
      → P (is_ok (settle r t faults).0) (settle r t faults).1.tables
  unfolding settle
  settle_decides (ok (a, t')) t faults h k = k
  settle_decides (err e) t faults h k = h

  connect_decides :
      (body : Tables → Result (A × Tables)) (t : Tables) (faults : List Bool)
      → P false t
      → Decides P (body t)
      → P (is_ok (connect body t faults).0) (connect body t faults).1.tables
  unfolding connect
  connect_decides body t [] h k = settle_decides (body t) t [] h k
  connect_decides body t (true ∷ faults) h k = h
  connect_decides body t (false ∷ faults) h k = settle_decides (body t) t faults h k

  -- Through a connection, which may fail: nothing is changed, or the body's change is.
  pub conn_decides :
      (body : Tables → Result (A × Tables)) (db : Db)
      → P false db.tables
      → Decides P (body db.tables)
      → P (is_ok (conn body db).0) (conn body db).1.tables
  unfolding conn
  conn_decides body db h k = connect_decides body db.tables db.faults h k

module _ {J : Type 0} (x : Externals J) where
  raised_ends :
      (P : Bool → Tables → Type 0) (r : Result (Option (RunState J))) (db : Db)
      → P false db.tables
      → P (is_ok (continue r (raise_active x) db).0) (continue r (raise_active x) db).1.tables
  unfolding raise_active
  raised_ends P (ok none) db h = h
  raised_ends P (ok (some existing)) db h = h
  raised_ends P (err e) db h = h

  find_ends :
      (P : Bool → Tables → Type 0) (key : String) (db : Db)
      → P false db.tables
      → P false (find_by_key x key db).1.tables
  unfolding find_by_key find_rows
  find_ends P key db h = conn_keeps (P false) (find_rows x key) db h h

  -- `create_run` returns if the INSERT did.
  insert_ends :
      (P : Bool → Tables → Type 0) (run_id : String) (spec : RunSpec J) (r : Result (Unit {0}))
      (db : Db)
      → P (is_ok r) db.tables
      → P (is_ok (after_insert x run_id spec r db).0) (after_insert x run_id spec r db).1.tables
  unfolding after_insert
  insert_ends P run_id spec (ok u) db h = h
  insert_ends P run_id spec (err integrity_error) db h =
      let found = find_by_key x spec.idempotency_key db in
      raised_ends P found.0 found.1 (find_ends P spec.idempotency_key db h)
  insert_ends P run_id spec (err e) db h = h

  -- One call: what it promises if it returns, and nothing if it raises.
  perform-promised :
      (c : Call J) (db : Db) (j : String)
      → RoundTrips x
      → HasRuns db.tables.runs db.tables.step_records
      → view x (perform x c db).tables j ≡ promised_if (returns x c db) c j (view x db.tables j)
  unfolding perform returns promised_if promised Store.create_run Store.load Store.append
      Store.set_status Store.acquire Store.release find_by_key find_rows load_rows release_rows
      hydrate_if
  perform-promised (Call.create_run now run_id spec) db j trips refs =
      let c = Call.create_run now run_id spec in
      let body = insert_pending x now run_id spec (x.dumps spec.payload) in
      insert_ends (Kept x c j db.tables) run_id spec (conn body db).0 (conn body db).1 (
        conn_decides (Kept x c j db.tables) body db refl
          (create-Decides x trips now run_id spec db.tables j (x.dumps spec.payload) refs refl))
  perform-promised (Call.load run_id) db j trips refs =
      conn_decides (Kept x (Call.load run_id) j db.tables) (load_rows x run_id) db refl refl
  perform-promised (Call.find_by_key key) db j trips refs =
      conn_decides (Kept x (Call.find_by_key key) j db.tables) (find_rows x key) db refl refl
  perform-promised (Call.append r) db j trips refs =
      conn_decides (Kept x (Call.append r) j db.tables) (insert_step x r (x.dumps r.output)) db refl
        (append-Decides x trips r db.tables j (x.dumps r.output) refl)
  perform-promised (Call.set_status run_id status error) db j trips refs =
      conn_decides (Kept x (Call.set_status run_id status error) j db.tables)
        (update_status run_id status error) db refl
        (status-Decides x run_id status error db.tables j)
  perform-promised (Call.acquire key owner now ttl) db j trips refs =
      let c = Call.acquire key owner now ttl in
      conn_decides (Kept x c j db.tables) (take_lease (advisory_lock_id x key) key owner now ttl) db
        refl
        (lease-Decides x c (advisory_lock_id x key) key owner now ttl db.tables j (λ before. refl))
  perform-promised (Call.release key owner) db j trips refs =
      conn_decides (Kept x (Call.release key owner) j db.tables)
        (release_rows (advisory_lock_id x key) owner) db refl refl

  -- For every sequence of calls, on whatever connections, from tables that satisfy the schema: a run's
  -- state in the tables is what the calls that returned promise for it, in their order. Supposed: the
  -- codec reads back what it writes.
  pub perform_all-promised :
      (cs : List (Call J)) (db : Db) (j : String)
      → RoundTrips x
      → IsValid db.tables
      → view x (perform_all x cs db).tables j
        ≡ promised_all (history x cs db) j (view x db.tables j)
  unfolding perform_all history promised_all
  perform_all-promised [] db j trips v = refl
  perform_all-promised (c ∷ cs) db j trips v =
      perform_all-promised cs (perform x c db) j trips (perform-IsValid x c db v)
      ∙ ap (promised_all (history x cs (perform x c db)) j) (perform-promised c db j trips v.refs)
