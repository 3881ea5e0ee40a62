-- ===== src/Engine/Frame.antt =====
-- engine.py, `Engine.run`: what every call of it keeps, whatever the handlers, the provider and the
-- connections do.
use durable_agent_engine.Base.{
  ℕ, ◌+◌, String, ◌≡◌, get_elem?, drop-get_elem?, refl, Bool, true, false, Option, none, some, List,
  [], ◌∷◌, Text, drop, Bool-cases, inl, inr,
}
use durable_agent_engine.Exec.{
  unknown_run, vanished, handler_error, Result, ok, err, Exec, raise, or_raise,
}
use durable_agent_engine.Exec.Keeps.{Keeps, bind-Keeps, or_raise-Keeps}
use durable_agent_engine.Models.{
  RunStatus, is_terminal, StepOutcome, Step, Plan, RunState, next_index,
}
use durable_agent_engine.Store
use durable_agent_engine.Store.{Db}
use durable_agent_engine.Store.Sql.{Tables}
use durable_agent_engine.Store.Checkpoints.{RunKeeps}
use durable_agent_engine.Engine.{
  Outcome, returned, escalated, crashed, raised, Engine, State, on_store, dict_put, previous_of,
  plan_matches_history, crashes_at, reload,
}
use durable_agent_engine.Engine.Context.{StepContext}
use durable_agent_engine.Engine.Run.{
  step_context, call_handler, checkpoint, success_outcome, append_checkpoint, record_failure,
  after_handler, run_steps, after_release, locked, with_lock, run_locked, run_loaded, run, lock_ttl,
  unless_crash,
}

module _ {J W : Type 0} (e : Engine J W) (run_id : String) (plan : Plan) (P : Tables → Type 0)
    (k : RunKeeps e.externals run_id plan.steps P) where
  abbrev Q : State W → Type 0
  Q s = P s.db.tables

  reload-Keeps : Keeps Q (reload e run_id)
  unfolding reload
  reload-Keeps =
      bind-Keeps Q (on_store (Store.load e.externals run_id)) (λ state. or_raise state vanished)
        (λ s. k.loads s.db) (λ state. or_raise-Keeps Q state vanished)

  append-Keeps :
      (index : ℕ) (step : Step) (outcome : StepOutcome) (output : J) (ctx : StepContext J W) (w : W)
      → get_elem? plan.steps index ≡ some step
      → Keeps Q (append_checkpoint e run_id index step outcome output ctx w)
  unfolding append_checkpoint checkpoint
  append-Keeps index step outcome output ctx w here s =
      k.appends (checkpoint e run_id index step outcome output ctx w) step refl here refl s.db

  abbrev status : RunStatus → Option Text → Exec (State W) (Unit {0})
  status st error = on_store (Store.set_status run_id st error)

  status-Keeps : (st : RunStatus) (error : Option Text) → Keeps Q (status st error)
  status-Keeps st error s = k.statuses st error s.db

  failure-Keeps :
      (index : ℕ) (step : Step) (st : RunStatus) (reason : Text) (ctx : StepContext J W) (w : W)
      → get_elem? plan.steps index ≡ some step
      → Keeps Q (record_failure e run_id index step st reason ctx w)
  unfolding record_failure
  failure-Keeps index step st reason ctx w here =
      bind-Keeps Q
        (append_checkpoint e run_id index step StepOutcome.failed (e.externals.error_object reason)
          ctx w)
        (λ _. status st (some reason))
        (append-Keeps index step StepOutcome.failed (e.externals.error_object reason) ctx w here)
        (λ _. status-Keeps st (some reason))

  after_handler-Keeps :
      (index : ℕ) (step : Step) (next : J → Exec (State W) (RunState J)) (outcome : Outcome J)
      (ctx : StepContext J W)
      → get_elem? plan.steps index ≡ some step
      → ((output : J) → Keeps Q (next output))
      → Keeps Q (after_handler e run_id index step next outcome ctx)
  unfolding after_handler
  after_handler-Keeps index step next (returned output) ctx here kn s h =
      bind-Keeps Q
        (append_checkpoint e run_id index step (success_outcome e ctx) output ctx s.world)
        (λ _. next output) (append-Keeps index step (success_outcome e ctx) output ctx s.world here)
        (λ _. kn output) s h
  after_handler-Keeps index step next (escalated reason) ctx here kn s h =
      bind-Keeps Q (record_failure e run_id index step RunStatus.escalated reason ctx s.world)
        (λ _. reload e run_id)
        (failure-Keeps index step RunStatus.escalated reason ctx s.world here) (λ _. reload-Keeps) s
        h
  after_handler-Keeps index step next crashed ctx here kn s h = h
  after_handler-Keeps index step next (raised reason) ctx here kn s h =
      bind-Keeps Q (record_failure e run_id index step RunStatus.failed reason ctx s.world)
        (λ _. raise (handler_error reason))
        (failure-Keeps index step RunStatus.failed reason ctx s.world here) (λ _ s' h'. h') s h

  unless_crash-Keeps :
      (b : Bool) (m : Exec (State W) (RunState J)) → Keeps Q m → Keeps Q (unless_crash b m)
  unless_crash-Keeps true m km s h = h
  unless_crash-Keeps false m km s h = km s h

  run_steps-Keeps :
      (payload : J) (crash_at : Option ℕ) (index : ℕ) (steps : List Step)
      (previous : List (String × J))
      → drop index plan.steps ≡ steps
      → Keeps Q (run_steps e run_id payload crash_at index steps previous)
  unfolding run_steps
  run_steps-Keeps payload crash_at index [] previous d s h =
      bind-Keeps Q (status RunStatus.completed none) (λ _. reload e run_id)
        (status-Keeps RunStatus.completed none) (λ _. reload-Keeps) s h
  run_steps-Keeps payload crash_at index (step ∷ steps) previous d s h =
      let (here, rest) = drop-get_elem? plan.steps index step steps d in
      unless_crash-Keeps (crashes_at crash_at index) _
        (λ s h.
          let (outcome, ctx, w) =
            call_handler e step (step_context e run_id payload index step previous) s.world in
          after_handler-Keeps index step _ outcome ctx here
            (λ output.
              run_steps-Keeps ctx.payload crash_at (index + 1) steps
                (dict_put step.name output ctx.previous) rest)
            (record s { world = w }) h)
        s h

  after_release_keeps :
      (r : Result (RunState J)) (r' : Result (Unit {0})) (s : State W)
      → Q s
      → Q (after_release e r (r', s)).1
  unfolding after_release
  after_release_keeps r (ok u) s h = h
  after_release_keeps r (err error) s h = h

  with_lock-Keeps :
      (key : String) (body : Exec (State W) (RunState J))
      → Keeps Q body
      → Keeps Q (with_lock e key body)
  unfolding with_lock
  with_lock-Keeps key body kb s h =
      let (owner, w) = e.uuid s.world in
      bind-Keeps Q (on_store (Store.acquire e.externals key owner (e.time w) lock_ttl))
        (λ _. locked e key owner body) (λ s. k.acquires key owner (e.time w) lock_ttl s.db)
        (λ _ s' h'.
          after_release_keeps (body s').0 _ _ (k.releases key owner (body s').1.db (kb s' h')))
        (record s { world = w }) h

  run_locked-Keeps :
      (crash_at : Option ℕ) (state : RunState J) → Keeps Q (run_locked e run_id plan crash_at state)
  unfolding run_locked
  run_locked-Keeps crash_at state =
      bind-Keeps Q (status RunStatus.running none) _ (status-Keeps RunStatus.running none) (λ _.
        run_steps-Keeps state.payload crash_at (next_index state)
          (drop (next_index state) plan.steps) (previous_of state.steps) refl)

  run_loaded-Keeps :
      (crash_at : Option ℕ) (state : RunState J) → Keeps Q (run_loaded e run_id plan crash_at state)
  unfolding run_loaded
  run_loaded-Keeps crash_at state s h = elim (Bool-cases (is_terminal state.status)) [
    | inl over ↦ rw over h
    | inr live ↦ elim (Bool-cases (plan_matches_history plan.steps state.steps)) [
      | inl same ↦
          rw (live, same)
            (with_lock-Keeps state.idempotency_key (run_locked e run_id plan crash_at state)
              (run_locked-Keeps crash_at state) s h)
      | inr changed ↦ rw (live, changed) h
    ]
  ]

  -- Whatever happens in a run, what its calls of the store keep is kept.
  pub run-Keeps : (crash_at : Option ℕ) → Keeps Q (run e run_id plan crash_at)
  unfolding run
  run-Keeps crash_at =
      bind-Keeps Q (on_store (Store.load e.externals run_id)) _ (λ s. k.loads s.db)
        (λ found.
          bind-Keeps Q (or_raise found unknown_run) (run_loaded e run_id plan crash_at)
            (or_raise-Keeps Q found unknown_run) (run_loaded-Keeps crash_at))
