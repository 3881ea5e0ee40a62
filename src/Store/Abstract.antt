-- ===== src/Store/Abstract.antt =====
-- store.py, the `Store` protocol: what a store promises, as a map from run ids to states.
use durable_agent_engine.Base.{
  ℕ, String, Bool, true, false, ◌||◌, ◌&&◌, not, Option, none, some, List, [], ◌∷◌, str_eq, ◌==◌,
  leb, if◌then◌else◌,
}
use durable_agent_engine.Exec.{Result, ok, err}
use durable_agent_engine.Models.{RunStatus, RunSpec, StepRecord, RunState}
use durable_agent_engine.Externals.{Externals}
use durable_agent_engine.Store
use durable_agent_engine.Store.{Db, hydrate_if}
use durable_agent_engine.Store.Sql.{
  Tables, find_run, run_id_taken, key_active, has_step, status_conflicts, lock_held, delete_expired,
}
use durable_agent_engine.Models.Token.{advisory_lock_id}
use durable_agent_engine.Store.Calls.{Call, perform}

abbrev pub is_ok : {A : Type 0} → Result A → Bool
is_ok (ok a) = true
is_ok (err e) = false

abbrev pub is_some : {A : Type 0} → Option A → Bool
is_some none = false
is_some (some a) = true

-- Calls, each with whether it returned.
abbrev pub History : Type 0 → Type 0
History J = List (Call J × Bool)

module _ {J : Type 0} where
  unfoldable pub has_record : ℕ → List (StepRecord J) → Bool
  has_record index [] = false
  has_record index (r ∷ rs) = r.index == index || has_record index rs

  -- a checkpoint at its place in the order of the indices
  unfoldable pub insert_record : StepRecord J → List (StepRecord J) → List (StepRecord J)
  insert_record r [] = r ∷ []
  insert_record r (s ∷ ss) = if leb r.index s.index then r ∷ s ∷ ss else s ∷ insert_record r ss

  -- the state with one more checkpoint, unless there is one under the index
  unfoldable pub with_record : StepRecord J → RunState J → RunState J
  unfolding has_record insert_record
  with_record r state =
      if has_record r.index state.steps
      then state
      else record state { steps = insert_record r state.steps }

  unfoldable pub new_state : String → RunSpec J → RunState J
  new_state run_id spec = record {
    run_id = run_id;
    idempotency_key = spec.idempotency_key;
    status = RunStatus.pending;
    plan_name = spec.plan.name;
    payload = spec.payload;
    steps = [];
    error = none;
  }

  unfoldable pub on_state : (RunState J → RunState J) → Option (RunState J) → Option (RunState J)
  on_state f none = none
  on_state f (some state) = some (f state)

  -- The state of run `j` after a call that returns, from its state before.
  unfoldable pub promised : Call J → String → Option (RunState J) → Option (RunState J)
  unfolding with_record new_state on_state
  promised (Call.create_run now run_id spec) j before =
      if str_eq run_id j then some (new_state run_id spec) else before
  promised (Call.append r) j before =
      if str_eq r.run_id j then on_state (with_record r) before else before
  promised (Call.set_status run_id status error) j before =
      if str_eq run_id j
      then on_state (λ state. record state { status = status; error = error }) before
      else before
  promised (Call.load run_id) j before = before
  promised (Call.find_by_key key) j before = before
  promised (Call.acquire key owner now ttl) j before = before
  promised (Call.release key owner) j before = before

  -- A call that raises leaves every state as it was.
  unfoldable pub promised_if : Bool → Call J → String → Option (RunState J) → Option (RunState J)
  unfolding promised
  promised_if true c j before = promised c j before
  promised_if false c j before = before

  unfoldable pub promised_all : History J → String → Option (RunState J) → Option (RunState J)
  unfolding promised_if
  promised_all [] j before = before
  promised_all ((c, b) ∷ cs) j before = promised_all cs j (promised_if b c j before)

module _ {J : Type 0} (x : Externals J) where
  -- the state of run `j` that the tables hold
  abbrev pub view : Tables → String → Option (RunState J)
  view t j = hydrate_if x t (find_run j t.runs)

  -- whether a call returns
  unfoldable pub returns : Call J → Db → Bool
  returns (Call.create_run now run_id spec) db = is_ok (Store.create_run x now run_id spec db).0
  returns (Call.load run_id) db = is_ok (Store.load x run_id db).0
  returns (Call.find_by_key key) db = is_ok (Store.find_by_key x key db).0
  returns (Call.append r) db = is_ok (Store.append x r db).0
  returns (Call.set_status run_id status error) db =
      is_ok (Store.set_status run_id status error db).0
  returns (Call.acquire key owner now ttl) db = is_ok (Store.acquire x key owner now ttl db).0
  returns (Call.release key owner) db = is_ok (Store.release x key owner db).0

  unfoldable pub history : List (Call J) → Db → History J
  history [] db = []
  history (c ∷ cs) db = (c, returns c db) ∷ history cs (perform x c db)

  -- whether a call on a connection that works returns
  unfoldable pub accepts : Call J → Tables → Bool
  accepts (Call.create_run now run_id spec) t =
      is_some (x.dumps spec.payload)
      && not (run_id_taken run_id t.runs)
      && not (key_active spec.idempotency_key run_id t.runs)
  accepts (Call.load run_id) t = true
  accepts (Call.find_by_key key) t = true
  accepts (Call.append r) t =
      is_some (x.dumps r.output)
      && (has_step r.run_id r.index t.step_records || run_id_taken r.run_id t.runs)
  accepts (Call.set_status run_id status error) t = not (status_conflicts run_id status t.runs)
  accepts (Call.acquire key owner now ttl) t =
      let lock_id = advisory_lock_id x key in
      not (lock_held lock_id (delete_expired lock_id now t.locks))
  accepts (Call.release key owner) t = true
