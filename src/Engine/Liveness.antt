-- ===== src/Engine/Liveness.antt =====
-- engine.py, `Engine.run`, on connections that work: every run comes to an end, with its cause.
use durable_agent_engine.Base.{
  ℕ, ◌+◌, String, ◌≡◌, refl, sym, subst, true, false, Option, none, some, List, [], ◌∷◌, Text, drop,
}
use durable_agent_engine.Exec.{
  Error, vanished, handler_error, Result, ok, err, Exec, ◌>>=◌, ◌>>◌, or_raise,
}
use durable_agent_engine.Models.{
  RunStatus, is_terminal, StepOutcome, Step, Plan, RunState, next_index,
}
use durable_agent_engine.Models.Token.{advisory_lock_id}
use durable_agent_engine.Externals.{Externals, RunRow}
use durable_agent_engine.Store
use durable_agent_engine.Store.Sql.{
  Tables, LockRow, is_active, run_id_taken, find_run, lock_held, delete_expired,
}
use durable_agent_engine.Store.Rows.{run_id_taken-replace}
use durable_agent_engine.Store.Valid.{IsValidRuns}
use durable_agent_engine.Store.Healthy.{
  healthy, IsEnded, active-terminal, taken-find, with_status, set_terminal, with_status-IsEnded,
  set_running, load-healthy, append-healthy, acquire-healthy, release-healthy,
}
use durable_agent_engine.Engine.{
  Outcome, returned, escalated, crashed, raised, Engine, State, on_store, dict_put, previous_of,
  plan_matches_history, reload,
}
use durable_agent_engine.Engine.Context.{StepContext}
use durable_agent_engine.Engine.Run.{
  step_context, call_handler, checkpoint, success_outcome, append_checkpoint, record_failure,
  after_handler, run_steps, after_release, locked, with_lock, run_locked, run_loaded, run, lock_ttl,
}

-- What `run` may raise once it holds the lock: the exception of a handler.
abbrev pub IsHandlerError : Error → Type 0
IsHandlerError (handler_error reason) = Unit
IsHandlerError _ = ⊥

abbrev pub IsProper : {A : Type 0} → Result A → Type 0
IsProper (ok a) = Unit
IsProper (err error) = IsHandlerError error

-- The process does not die in a handler, and what the handler returns has a JSON form.
abbrev pub Completes : {J : Type 0} → Externals J → Outcome J → Type 0
Completes x (returned output) = (text : String) × (x.dumps output ≡ some text)
Completes x (escalated reason) = Unit
Completes x (raised reason) = Unit
Completes x crashed = ⊥

module _ {J W : Type 0} (e : Engine J W) (run_id : String) where
  abbrev at : Tables → W → State W
  at t w = record { db = healthy t; world = w }

  abbrev pub Ends : Result (RunState J) × State W → Type 0
  Ends (r, s) = IsProper r × (s.db.faults ≡ []) × IsEnded run_id s.db.tables

  bind-Ends :
      {A : Type 0} (m : Exec (State W) A) (f : A → Exec (State W) (RunState J)) (s s' : State W)
      (a : A)
      → m s ≡ (ok a, s')
      → Ends (f a s')
      → Ends ((m >>= f) s)
  bind-Ends m f s s' a h k = rw h k

  found-Ends :
      (t : Tables) (w : W) (o : Option RunRow)
      → find_run run_id t.runs ≡ o
      → IsEnded run_id t
      → Ends (or_raise (Store.hydrate_if e.externals t o) vanished (at t w))
  unfolding Store.hydrate_if
  found-Ends t w none f i = cc (f, i.found)
  found-Ends t w (some row) f i = (tt, refl, i)

  pub reload-Ends : (t : Tables) (w : W) → IsEnded run_id t → Ends (reload e run_id (at t w))
  unfolding reload
  reload-Ends t w i =
      rw (load-healthy e.externals run_id t) (found-Ends t w (find_run run_id t.runs) refl i)

  pub finish-Ends :
      (st : RunStatus) (error : Option Text) (t : Tables) (w : W)
      → is_terminal st ≡ true
      → run_id_taken run_id t.runs ≡ true
      → Ends ((on_store (Store.set_status run_id st error) >> reload e run_id) (at t w))
  finish-Ends st error t w over known = rw (set_terminal run_id st error t over) (
      reload-Ends (with_status run_id st error t) w
        (with_status-IsEnded run_id st error t over known))

  -- the failed checkpoint and the terminal status are both written
  pub failure_healthy :
      (index : ℕ) (step : Step) (st : RunStatus) (reason : Text) (ctx : StepContext J W) (v w : W)
      (t : Tables) (text : String)
      → e.externals.dumps (e.externals.error_object reason) ≡ some text
      → is_terminal st ≡ true
      → run_id_taken run_id t.runs ≡ true
      → (t' : Tables) × (record_failure e run_id index step st reason ctx v (at t w)
          ≡ (ok tt, at t' w))
        × IsEnded run_id t'
  unfolding record_failure append_checkpoint checkpoint
  failure_healthy index step st reason ctx v w t text d over known =
      let (rows, h) =
        append-healthy e.externals
          (checkpoint e run_id index step StepOutcome.failed (e.externals.error_object reason) ctx
            v)
          t text d known in
      let t' : Tables = record t { step_records = rows } in
      (
        with_status run_id st (some reason) t',
        rw (h, set_terminal run_id st (some reason) t' over),
        with_status-IsEnded run_id st (some reason) t' over known,
      )

module _ {J W : Type 0} (e : Engine J W) (run_id : String)
    (error_text : (reason : Text)
      → (text : String) × (e.externals.dumps (e.externals.error_object reason) ≡ some text))
    (completes : (step : Step) (ctx : StepContext J W) (w : W)
      → Completes e.externals (call_handler e step ctx w).0) where
  after_handler-Ends :
      (index : ℕ) (step : Step) (next : J → Exec (State W) (RunState J)) (outcome : Outcome J)
      (ctx : StepContext J W) (t : Tables) (w : W)
      → Completes e.externals outcome
      → run_id_taken run_id t.runs ≡ true
      → ((output : J) (t : Tables) (w : W)
          → run_id_taken run_id t.runs ≡ true
          → Ends e run_id (next output (at e run_id t w)))
      → Ends e run_id (after_handler e run_id index step next outcome ctx (at e run_id t w))
  unfolding after_handler append_checkpoint checkpoint
  after_handler-Ends index step next (returned output) ctx t w c known k =
      let (rows, h) =
        append-healthy e.externals
          (checkpoint e run_id index step (success_outcome e ctx) output ctx w) t c.0 c.1 known in
      rw h (k output (record t { step_records = rows }) w known)
  after_handler-Ends index step next (escalated reason) ctx t w c known k =
      let (text, d) = error_text reason in
      let (t', h, i) =
        failure_healthy e run_id index step RunStatus.escalated reason ctx w w t text d
          (unfold is_terminal in refl) known in
      rw h (reload-Ends e run_id t' w i)
  after_handler-Ends index step next crashed ctx t w c known k = elim c [ ]
  after_handler-Ends index step next (raised reason) ctx t w c known k =
      let (text, d) = error_text reason in
      let (t', h, i) =
        failure_healthy e run_id index step RunStatus.failed reason ctx w w t text d
          (unfold is_terminal in refl) known in
      rw h (tt, refl, i)

  run_steps-Ends :
      (payload : J) (index : ℕ) (steps : List Step) (previous : List (String × J)) (t : Tables)
      (w : W)
      → run_id_taken run_id t.runs ≡ true
      → Ends e run_id (run_steps e run_id payload none index steps previous (at e run_id t w))
  unfolding run_steps
  run_steps-Ends payload index [] previous t w known =
      finish-Ends e run_id RunStatus.completed none t w (unfold is_terminal in refl) known
  run_steps-Ends payload index (step ∷ steps) previous t w known =
      let ctx = step_context e run_id payload index step previous in
      let (outcome, ctx', w') = call_handler e step ctx w in
      after_handler-Ends index step _ outcome ctx' t w' (completes step ctx w) known
        (λ output t w known.
          run_steps-Ends ctx'.payload (index + 1) steps (dict_put step.name output ctx'.previous) t
            w known)

  released_at :
      (key owner : String) (r : Result (RunState J)) (t : Tables) (w : W)
      → IsProper r
      → IsEnded run_id t
      → Ends e run_id
          (after_release e r (on_store (Store.release e.externals key owner) (at e run_id t w)))
  unfolding after_release
  released_at key owner r t w p i =
      rw (release-healthy e.externals key owner t)
        (p, refl, record { row = i.row; found = i.found; is_over = i.is_over })

  released-Ends :
      (key owner : String) (r : Result (RunState J)) (s : State W)
      → Ends e run_id (r, s)
      → Ends e run_id (after_release e r (on_store (Store.release e.externals key owner) s))
  released-Ends key owner r s k =
      let same : at e run_id s.db.tables s.world ≡ s =
        λ i. record s { db = record { tables = s.db.tables; faults = sym k.1 i } } in
      subst
        (λ s. Ends e run_id (after_release e r (on_store (Store.release e.externals key owner) s)))
        same (released_at key owner r s.db.tables s.world k.0 k.2)

  with_lock-Ends :
      (key : String) (body : Exec (State W) (RunState J)) (t : Tables) (w : W)
      → lock_held
          (advisory_lock_id e.externals key)
          (delete_expired (advisory_lock_id e.externals key) (e.time (e.uuid w).1) t.locks)
        ≡ false
      → ((locks : List LockRow) (w : W)
          → Ends e run_id (body (at e run_id (record t { locks = locks }) w)))
      → Ends e run_id (with_lock e key body (at e run_id t w))
  unfolding with_lock locked
  with_lock-Ends key body t w free k =
      let (owner, w') = e.uuid w in
      let (locks, h) = acquire-healthy e.externals key owner (e.time w') lock_ttl t free in
      rw h (released-Ends key owner (body _).0 (body _).1 (k locks w'))

  run_locked-Ends :
      (plan : Plan) (state : RunState J) (t : Tables) (w : W) (row : RunRow)
      → IsValidRuns t.runs
      → find_run run_id t.runs ≡ some row
      → is_active row.status ≡ true
      → run_id_taken run_id t.runs ≡ true
      → Ends e run_id (run_locked e run_id plan none state (at e run_id t w))
  unfolding run_locked
  run_locked-Ends plan state t w row v f a known = rw (set_running run_id t row v f a) (
      run_steps-Ends state.payload (next_index state) (drop (next_index state) plan.steps)
        (previous_of state.steps) (with_status run_id RunStatus.running none t) w
        (rw run_id_taken-replace known))

  run_loaded-Ends :
      (plan : Plan) (state : RunState J) (t : Tables) (w : W) (row : RunRow)
      → IsValidRuns t.runs
      → find_run run_id t.runs ≡ some row
      → is_active row.status ≡ true
      → is_terminal state.status ≡ false
      → plan_matches_history plan.steps state.steps ≡ true
      → lock_held (advisory_lock_id e.externals state.idempotency_key) (
          delete_expired
            (advisory_lock_id e.externals state.idempotency_key)
            (e.time (e.uuid w).1)
            t.locks)
        ≡ false
      → Ends e run_id (run_loaded e run_id plan none state (at e run_id t w))
  unfolding run_loaded
  run_loaded-Ends plan state t w row v f a live same free =
      rw (live, same)
        (with_lock-Ends state.idempotency_key (run_locked e run_id plan none state) t w free
          (λ locks w.
            run_locked-Ends plan state (record t { locks = locks }) w row v f a
              (taken-find run_id t.runs row f)))

  pub run-Ends :
      (plan : Plan) (t : Tables) (w : W) (row : RunRow)
      → IsValidRuns t.runs
      → find_run run_id t.runs ≡ some row
      → is_active row.status ≡ true
      → plan_matches_history plan.steps (Store.hydrate e.externals t row).steps ≡ true
      → lock_held (advisory_lock_id e.externals row.idempotency_key) (
          delete_expired
            (advisory_lock_id e.externals row.idempotency_key)
            (e.time (e.uuid w).1)
            t.locks)
        ≡ false
      → Ends e run_id (run e run_id plan none (at e run_id t w))
  unfolding run Store.hydrate_if Store.hydrate
  run-Ends plan t w row v f a matches free =
      rw (load-healthy e.externals run_id t, f)
        (run_loaded-Ends plan (Store.hydrate e.externals t row) t w row v f a
          (active-terminal row.status a) matches free)
