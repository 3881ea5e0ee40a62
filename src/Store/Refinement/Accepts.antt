-- ===== src/Store/Refinement/Accepts.antt =====
-- store.py: which calls return, on connections that work.
use durable_agent_engine.Base.{
  ℕ, String, false, ◌||◌, ◌&&◌, not, Option, none, some, ◌≡◌, refl, Text, ◌∙◌, arith, [],
}
use durable_agent_engine.Exec.{Result, ok, err, continue, integrity_error}
use durable_agent_engine.Models.{RunStatus, RunSpec, RunState, StepRecord}
use durable_agent_engine.Models.Token.{advisory_lock_id}
use durable_agent_engine.Externals.{Externals}
use durable_agent_engine.Store.Sql.{
  Tables, run_id_taken, update_status, status_conflicts, has_step, insert_run, key_active,
  lock_held, delete_expired,
}
use durable_agent_engine.Store
use durable_agent_engine.Store.{
  Db, settle, connect, conn, insert_step, insert_pending, after_insert, raise_active, load_rows,
  find_rows, take_lease, release_rows, find_by_key,
}
use durable_agent_engine.Store.Healthy.{healthy}
use durable_agent_engine.Store.Calls.{Call}
use durable_agent_engine.Store.Abstract.{is_ok, is_some, returns, accepts}

body_decides :
    {A : Type 0} (body : Tables → Result (A × Tables)) (t : Tables)
    → is_ok (conn body (healthy t)).0 ≡ is_ok (body t)
unfolding conn connect settle
body_decides body t = settled (body t) t
  where
    settled :
        {A : Type 0} (r : Result (A × Tables)) (t : Tables) → is_ok (settle r t []).0 ≡ is_ok r
    settled (ok p) t = refl
    settled (err e) t = refl

module _ {J : Type 0} (x : Externals J) where
  raised_fails :
      (r : Result (Option (RunState J))) (db : Db)
      → is_ok (continue r (raise_active x) db).0 ≡ false
  unfolding raise_active
  raised_fails (ok none) db = refl
  raised_fails (ok (some existing)) db = refl
  raised_fails (err e) db = refl

  inserted_decides :
      (run_id : String) (spec : RunSpec J) (r : Result (Unit {0})) (db : Db)
      → is_ok (after_insert x run_id spec r db).0 ≡ is_ok r
  unfolding after_insert
  inserted_decides run_id spec (ok u) db = refl
  inserted_decides run_id spec (err integrity_error) db =
      raised_fails (find_by_key x spec.idempotency_key db).0
        (find_by_key x spec.idempotency_key db).1
  inserted_decides run_id spec (err e) db = refl

  create_decides :
      (now : ℕ) (run_id : String) (spec : RunSpec J) (payload : Option String) (t : Tables)
      → is_ok (insert_pending x now run_id spec payload t) ≡ (
          is_some payload
          && not (run_id_taken run_id t.runs)
          && not (key_active spec.idempotency_key run_id t.runs))
  unfolding insert_pending insert_run
  create_decides now run_id spec none t = refl
  create_decides now run_id spec (some payload) t = ground arith

  append_decides :
      (r : StepRecord J) (output : Option String) (t : Tables)
      → is_ok (insert_step x r output t) ≡ (
          is_some output
          && (has_step r.run_id r.index t.step_records || run_id_taken r.run_id t.runs))
  unfolding insert_step
  append_decides r none t = refl
  append_decides r (some output) t = ground arith

  status_decides :
      (run_id : String) (status : RunStatus) (error : Option Text) (t : Tables)
      → is_ok (update_status run_id status error t) ≡ not (status_conflicts run_id status t.runs)
  unfolding update_status
  status_decides run_id status error t = ground arith

  lease_decides :
      (id : ℕ) (key owner : String) (now ttl : ℕ) (t : Tables)
      → is_ok (take_lease id key owner now ttl t)
        ≡ not (lock_held id (delete_expired id now t.locks))
  unfolding take_lease
  lease_decides id key owner now ttl t = ground arith

  -- On connections that work, a call returns exactly where `accepts` says so, and raises elsewhere.
  pub returns-accepts : (c : Call J) (t : Tables) → returns x c (healthy t) ≡ accepts x c t
  unfolding returns accepts Store.create_run Store.load Store.append Store.set_status Store.acquire
      Store.release find_by_key find_rows load_rows release_rows
  returns-accepts (Call.create_run now run_id spec) t =
      let body = insert_pending x now run_id spec (x.dumps spec.payload) in
      inserted_decides run_id spec (conn body (healthy t)).0 (conn body (healthy t)).1
      ∙ body_decides body t
      ∙ create_decides now run_id spec (x.dumps spec.payload) t
  returns-accepts (Call.load run_id) t = body_decides (load_rows x run_id) t
  returns-accepts (Call.find_by_key key) t = body_decides (find_rows x key) t
  returns-accepts (Call.append r) t =
      body_decides (insert_step x r (x.dumps r.output)) t ∙ append_decides r (x.dumps r.output) t
  returns-accepts (Call.set_status run_id status error) t =
      body_decides (update_status run_id status error) t ∙ status_decides run_id status error t
  returns-accepts (Call.acquire key owner now ttl) t =
      let id = advisory_lock_id x key in
      body_decides (take_lease id key owner now ttl) t ∙ lease_decides id key owner now ttl t
  returns-accepts (Call.release key owner) t =
      body_decides (release_rows (advisory_lock_id x key) owner) t
