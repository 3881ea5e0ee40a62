-- ===== src/Engine/Recovery/Steps.antt =====
-- engine.py, `Engine.run`, on connections that work: the tables at the end of the lock's body.
use durable_agent_engine.Base.{
  drop-get_elem?, ℕ, ◌+◌, String, ◌≡◌, ◌⊎◌, inl, inr, refl, true, Option, none, some, List, [], ◌∷◌,
  Text, drop, get_elem?, Bool-cases, eq_refl,
}
use durable_agent_engine.Exec.{handler_error, Result, Exec, ◌>>◌, raise}
use durable_agent_engine.Models.{RunStatus, is_terminal, Step, Plan, RunState, next_index}
use durable_agent_engine.Externals.{RunRow}
use durable_agent_engine.Store.{step_row}
use durable_agent_engine.Store.Sql.{Tables, StepRow, LockRow, is_active, find_run, status_conflicts}
use durable_agent_engine.Store.Rows.{replace-IsValidRuns, own_key_free}
use durable_agent_engine.Store.Valid.{IsValidRuns}
use durable_agent_engine.Store.Healthy.{
  healthy, IsEnded, taken-find, with_status, find-replaced, set_running, append_grows,
}
use durable_agent_engine.Engine.{
  Outcome, returned, escalated, crashed, raised, Engine, State, dict_put, previous_of, reload,
  crashes_at, names_step,
}
use durable_agent_engine.Engine.Context.{StepContext}
use durable_agent_engine.Engine.Run.{
  step_context, call_handler, checkpoint, success_outcome, append_checkpoint, record_failure,
  after_handler, run_steps, run_locked,
}
use durable_agent_engine.Engine.History.{RowsMatch, append-RowsMatch}
use durable_agent_engine.Engine.Liveness.{
  Ends, Completes, failure_healthy, finish-Ends, reload-Ends,
}

module _ {J W : Type 0} (e : Engine J W) (run_id key : String) (plan : Plan) where
  abbrev pub at : Tables → W → State W
  at t w = record { db = healthy t; world = w }

  -- The run is pending or running under the key, and its checkpoints match the plan.
  pub record IsOpen (t : Tables) : Type 0 where
    pub row : RunRow
    pub found : find_run run_id t.runs ≡ some row
    pub active : is_active row.status ≡ true
    pub keyed : row.idempotency_key ≡ key
    pub valid : IsValidRuns t.runs
    pub matches : RowsMatch e.externals plan.steps run_id t.step_records

  -- On connections that work the tables hold the run as over, or as open with `Q`.
  pub data Settles (Q : Tables → Type 0) (s : State W) : Type 0 where
    settles : (t : Tables) (w : W) → s ≡ at t w → IsEnded run_id t ⊎ (IsOpen t × Q t) → Settles Q s

  abbrev pub ended :
      (Q : Tables → Type 0) (p : Result (RunState J) × State W) → Ends e run_id p → Settles Q p.1
  ended Q (r, s) (p, f, i) =
      settles s.db.tables s.world
        (λ i. record s { db = record { tables = s.db.tables; faults = f i } }) (inl i)

  -- A checkpoint of a step of the plan leaves an open run open.
  appended-IsOpen :
      (t : Tables) (rows : List StepRow) (r : StepRow)
      → IsOpen t
      → names_step (get_elem? plan.steps r.step_index) r.name ≡ true
      → (rows ≡ t.step_records) ⊎ (rows ≡ r ∷ t.step_records)
      → IsOpen (record t { step_records = rows })
  appended-IsOpen t rows r o n (inl same) = record {
    row = o.row;
    found = o.found;
    active = o.active;
    keyed = o.keyed;
    valid = o.valid;
    matches = rw same o.matches;
  }
  appended-IsOpen t rows r o n (inr more) = record {
    row = o.row;
    found = o.found;
    active = o.active;
    keyed = o.keyed;
    valid = o.valid;
    matches = rw more (append-RowsMatch e.externals plan.steps run_id r t.step_records n o.matches);
  }

  running-IsOpen : (t : Tables) → IsOpen t → IsOpen (with_status run_id RunStatus.running none t)
  unfolding status_conflicts
  running-IsOpen t o = record {
    row = record o.row { status = RunStatus.running; error = none };
    found = find-replaced run_id RunStatus.running none t.runs o.row o.found;
    active = refl;
    keyed = o.keyed;
    valid = replace-IsValidRuns run_id RunStatus.running none t.runs o.valid (
        rw (o.found, status_conflicts) (own_key_free run_id o.row t.runs o.valid o.found o.active));
    matches = o.matches;
  }

  module _
      (error_text : (reason : Text)
        → (text : String) × (e.externals.dumps (e.externals.error_object reason) ≡ some text))
      (completes : (step : Step) (ctx : StepContext J W) (w : W)
        → Completes e.externals (call_handler e step ctx w).0) where
    -- The body of the lock keeps the rows of `locks`.
    abbrev pub Body : List LockRow → Tables → Type 0
    Body locks t = t.locks ≡ locks

    failed-Settles :
        (locks : List LockRow) (index : ℕ) (step : Step) (st : RunStatus) (reason : Text)
        (ctx : StepContext J W) (v w : W) (t : Tables) (rest : Exec (State W) (RunState J))
        → is_terminal st ≡ true
        → IsOpen t
        → ((t : Tables) (w : W) → IsEnded run_id t → Ends e run_id (rest (at t w)))
        → Settles
            (Body locks)
            ((record_failure e run_id index step st reason ctx v >> rest) (at t w)).1
    failed-Settles locks index step st reason ctx v w t rest over o k =
        let (text, d) = error_text reason in
        let (t', h, i) =
          failure_healthy e run_id index step st reason ctx v w t text d over
            (taken-find run_id t.runs o.row o.found) in
        rw h (ended (Body locks) (rest (at t' w)) (k t' w i))

    after_handler-Settles :
        (locks : List LockRow) (index : ℕ) (step : Step) (next : J → Exec (State W) (RunState J))
        (outcome : Outcome J) (ctx : StepContext J W) (t : Tables) (w : W)
        → Completes e.externals outcome
        → get_elem? plan.steps index ≡ some step
        → IsOpen t
        → t.locks ≡ locks
        → ((output : J) (t : Tables) (w : W)
            → IsOpen t
            → t.locks ≡ locks
            → Settles (Body locks) (next output (at t w)).1)
        → Settles (Body locks) (after_handler e run_id index step next outcome ctx (at t w)).1
    unfolding after_handler append_checkpoint checkpoint names_step
    after_handler-Settles locks index step next (returned output) ctx t w c g o l k =
        let r = checkpoint e run_id index step (success_outcome e ctx) output ctx w in
        let (rows, h, grows) =
          append_grows e.externals r t c.0 c.1 (taken-find run_id t.runs o.row o.found) in
        rw h (
          k output (record t { step_records = rows }) w
            (appended-IsOpen t rows (step_row r c.0) o (rw g (eq_refl step.name)) grows) l)
    after_handler-Settles locks index step next (escalated reason) ctx t w c g o l k =
        failed-Settles locks index step RunStatus.escalated reason ctx w w t (reload e run_id)
          (unfold is_terminal in refl) o (reload-Ends e run_id)
    after_handler-Settles locks index step next crashed ctx t w c g o l k = elim c [ ]
    after_handler-Settles locks index step next (raised reason) ctx t w c g o l k =
        failed-Settles locks index step RunStatus.failed reason ctx w w t
          (raise (handler_error reason)) (unfold is_terminal in refl) o (λ t w i. (tt, refl, i))

    run_steps-Settles :
        (locks : List LockRow) (payload : J) (crash_at : Option ℕ) (index : ℕ) (steps : List Step)
        (previous : List (String × J)) (t : Tables) (w : W)
        → drop index plan.steps ≡ steps
        → IsOpen t
        → t.locks ≡ locks
        → Settles (Body locks) (run_steps e run_id payload crash_at index steps previous (at t w)).1
    unfolding run_steps
    run_steps-Settles locks payload crash_at index [] previous t w d o l = ended (Body locks) _ (
        finish-Ends e run_id RunStatus.completed none t w (unfold is_terminal in refl)
          (taken-find run_id t.runs o.row o.found))
    run_steps-Settles locks payload crash_at index (step ∷ steps) previous t w d o l =
        let ctx = step_context e run_id payload index step previous in
        let (outcome, ctx', w') = call_handler e step ctx w in
        let (here, rest) = drop-get_elem? plan.steps index step steps d in
        elim (Bool-cases (crashes_at crash_at index)) [
          | inl dies ↦ rw dies (settles t w refl (inr (o, l)))
          | inr lives ↦ rw lives (
              after_handler-Settles locks index step _ outcome ctx' t w' (completes step ctx w) here
                o l
                (λ output t w o l.
                  run_steps-Settles locks ctx'.payload crash_at (index + 1) steps
                    (dict_put step.name output ctx'.previous) t w rest o l))
        ]

    pub run_locked-Settles :
        (locks : List LockRow) (crash_at : Option ℕ) (state : RunState J) (t : Tables) (w : W)
        → IsOpen t
        → t.locks ≡ locks
        → Settles (Body locks) (run_locked e run_id plan crash_at state (at t w)).1
    unfolding run_locked
    run_locked-Settles locks crash_at state t w o l =
        rw (set_running run_id t o.row o.valid o.found o.active) (
          run_steps-Settles locks state.payload crash_at (next_index state)
            (drop (next_index state) plan.steps) (previous_of state.steps)
            (with_status run_id RunStatus.running none t) w refl (running-IsOpen t o) l)
