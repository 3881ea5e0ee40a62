-- ===== src/Engine/Hazards.antt =====
-- engine.py, `Engine.run`: two ways in which a run is left open, on connections that work.
use durable_agent_engine.Base.{
  ℕ, String, ◌≡◌, refl, true, false, none, some, List, ◌∷◌, drop, ==_refl,
}
use durable_agent_engine.Exec.{Error, not_serializable, simulated_crash, Result, err, Exec}
use durable_agent_engine.Models.{RunStatus, is_terminal, Step, Plan, RunState, next_index}
use durable_agent_engine.Models.Token.{advisory_lock_id}
use durable_agent_engine.Externals.{RunRow}
use durable_agent_engine.Store
use durable_agent_engine.Store.Sql.{
  Tables, LockRow, is_active, find_run, lock_held, delete_expired, status_conflicts, key_active,
}
use durable_agent_engine.Store.Valid.{IsValidRuns}
use durable_agent_engine.Store.Healthy.{
  healthy, with_status, set_unblocked, find-replaced, append_unserializable, set_running,
  load-healthy, acquire-healthy, release-healthy, active-terminal,
}
use durable_agent_engine.Engine.{
  returned, Engine, State, on_store, previous_of, plan_matches_history,
}
use durable_agent_engine.Engine.Context.{StepContext}
use durable_agent_engine.Engine.Run.{
  step_context, call_handler, checkpoint, success_outcome, append_checkpoint, after_handler,
  run_steps, after_release, locked, with_lock, run_locked, run_loaded, run, lock_ttl,
}

module _ {J W : Type 0} (e : Engine J W) (run_id : String) where
  abbrev at : Tables → W → State W
  at t w = record { db = healthy t; world = w }

  -- The lock is free for a worker whose world is `w`.
  abbrev pub IsFree : String → Tables → W → Type 0
  IsFree key t w =
      lock_held (advisory_lock_id e.externals key)
        (delete_expired (advisory_lock_id e.externals key) (e.time (e.uuid w).1) t.locks)
      ≡ false

  -- The call raised, and the run's row is there under the status RUNNING.
  abbrev pub LeavesRunning : Error → RunRow → Result (RunState J) × State W → Type 0
  LeavesRunning error row x =
      (x.0 ≡ err error)
      × (find_run run_id x.1.db.tables.runs
          ≡ some (record row { status = RunStatus.running; error = none }))

  released_leaves :
      (key owner : String) (error : Error) (row : RunRow) (t : Tables) (w : W)
      → find_run run_id t.runs ≡ some (record row { status = RunStatus.running; error = none })
      → LeavesRunning error row
          (after_release e (err error) (on_store (Store.release e.externals key owner) (at t w)))
  unfolding after_release
  released_leaves key owner error row t w f = rw (release-healthy e.externals key owner t) (refl, f)

  -- A body that raises on the tables that the lock leaves raises out of the lock.
  with_lock_leaves :
      (key : String) (body : Exec (State W) (RunState J)) (error : Error) (row : RunRow)
      (t : Tables) (w w' : W)
      → IsFree key t w
      → find_run run_id t.runs ≡ some row
      → ((locks : List LockRow)
          → body (at (record t { locks = locks }) (e.uuid w).1) ≡ (
            err error,
            at (with_status run_id RunStatus.running none (record t { locks = locks })) w',
          ))
      → LeavesRunning error row (with_lock e key body (at t w))
  unfolding with_lock locked
  with_lock_leaves key body error row t w w' free f raises =
      let (owner, v) = e.uuid w in
      let (locks, h) = acquire-healthy e.externals key owner (e.time v) lock_ttl t free in
      rw (h, raises locks)
        (released_leaves key owner error row
          (with_status run_id RunStatus.running none (record t { locks = locks })) w'
          (find-replaced run_id RunStatus.running none t.runs row f))

  append_refused :
      (index : ℕ) (step : Step) (next : J → Exec (State W) (RunState J)) (output : J)
      (ctx : StepContext J W) (t : Tables) (w : W)
      → e.externals.dumps output ≡ none
      → after_handler e run_id index step next (returned output) ctx (at t w)
        ≡ (err not_serializable, at t w)
  unfolding after_handler append_checkpoint checkpoint
  append_refused index step next output ctx t w d = rw (
      append_unserializable e.externals
        (checkpoint e run_id index step (success_outcome e ctx) output ctx w) t d)

  run_from_refused :
      (payload : J) (index : ℕ) (step : Step) (steps : List Step) (previous : List (String × J))
      (t : Tables) (w w' : W) (output : J) (ctx : StepContext J W)
      → call_handler e step (step_context e run_id payload index step previous) w
        ≡ (returned output, ctx, w')
      → e.externals.dumps output ≡ none
      → run_steps e run_id payload none index (step ∷ steps) previous (at t w)
        ≡ (err not_serializable, at t w')
  unfolding run_steps
  run_from_refused payload index step steps previous t w w' output ctx c d =
      rw c (append_refused index step _ output ctx t w' d)

  -- On connections that work, with the lock free, and the constraints on runs holding: an active
  -- run whose checkpoints match the plan, and whose next step has a handler that returns a value
  -- with no JSON form. Then run raises, and the run's row stays, under the status RUNNING.
  pub unserializable_output-LeavesRunning :
      (plan : Plan) (t : Tables) (w w' : W) (row : RunRow) (step : Step) (steps : List Step)
      (output : J) (ctx : StepContext J W)
      → IsValidRuns t.runs
      → find_run run_id t.runs ≡ some row
      → is_active row.status ≡ true
      → plan_matches_history plan.steps (Store.hydrate e.externals t row).steps ≡ true
      → IsFree row.idempotency_key t w
      → drop (next_index (Store.hydrate e.externals t row)) plan.steps ≡ step ∷ steps
      → call_handler e step
          (step_context e run_id
            (e.externals.loads row.payload)
            (next_index (Store.hydrate e.externals t row))
            step
            (previous_of (Store.hydrate e.externals t row).steps))
          (e.uuid w).1
        ≡ (returned output, ctx, w')
      → e.externals.dumps output ≡ none
      → LeavesRunning not_serializable row (run e run_id plan none (at t w))
  unfolding run run_loaded run_locked Store.hydrate_if Store.hydrate
  unserializable_output-LeavesRunning plan t w w' row step steps output ctx v f a same free d c n =
      rw (load-healthy e.externals run_id t, f, active-terminal row.status a, same)
        (with_lock_leaves row.idempotency_key _ not_serializable row t w w' free f (λ locks.
          rw (set_running run_id (record t { locks = locks }) row v f a, d)
            (run_from_refused (e.externals.loads row.payload) _ step steps _ _ _ w' output ctx c
              n)))

  -- On connections that work, with the lock free and no other run active under the key: a worker
  -- has loaded a run as open, with checkpoints that match the plan and a step still to do, and
  -- comes to the lock after the run has ended. It sets the ended run back to RUNNING, and leaves
  -- it so if it dies before its first step.
  pub stale_load_reopens :
      (plan : Plan) (t : Tables) (w : W) (row : RunRow) (state : RunState J) (step : Step)
      (steps : List Step)
      → find_run run_id t.runs ≡ some row
      → is_terminal row.status ≡ true
      → key_active row.idempotency_key run_id t.runs ≡ false
      → is_terminal state.status ≡ false
      → plan_matches_history plan.steps state.steps ≡ true
      → IsFree state.idempotency_key t w
      → drop (next_index state) plan.steps ≡ step ∷ steps
      → LeavesRunning simulated_crash row
          (run_loaded e run_id plan (some (next_index state)) state (at t w))
  unfolding run_loaded run_locked status_conflicts run_steps
  stale_load_reopens plan t w row state step steps f over alone live same free d =
      rw (live, same)
        (with_lock_leaves state.idempotency_key _ simulated_crash row t w (e.uuid w).1 free f
          (λ locks. rw (
            set_unblocked run_id RunStatus.running none (record t { locks = locks })
                (rw (f, status_conflicts) alone),
            d,
            ==_refl (next_index state),
          )))
