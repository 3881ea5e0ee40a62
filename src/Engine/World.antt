-- ===== src/Engine/World.antt =====
-- engine.py, `Engine.run`: what the handlers of a plan keep of the world outside, a run keeps.
pub mod Asked
use durable_agent_engine.Base.{
  drop-get_elem?, ℕ, ◌+◌, String, ◌≡◌, refl, Bool, true, false, Option, none, some, List, [], ◌∷◌,
  Text, drop, get_elem?, Bool-cases, inl, inr,
}
use durable_agent_engine.Exec.{
  no_handlers, unknown_run, vanished, handler_error, Result, ok, err, Exec, raise, or_raise,
}
use durable_agent_engine.Exec.Keeps.{Keeps, bind-Keeps, or_raise-Keeps}
use durable_agent_engine.Models.{
  RunStatus, is_terminal, StepOutcome, Step, Plan, RunSpec, RunState, next_index,
}
use durable_agent_engine.Store
use durable_agent_engine.Store.{Db}
use durable_agent_engine.Engine.{
  Outcome, returned, escalated, crashed, raised, Engine, State, on_store, dict_put, previous_of,
  plan_matches_history, crashes_at, reload, missing_handlers, submit_run, submit,
}
use durable_agent_engine.Engine.Context.{StepContext}
use durable_agent_engine.Engine.Run.{
  step_context, call_handler, success_outcome, append_checkpoint, record_failure, after_handler,
  run_steps, after_release, locked, with_lock, run_locked, run_loaded, run, lock_ttl, unless_crash,
}

module _ {J W : Type 0} (e : Engine J W) (run_id : String) (plan : Plan) (Q : W → Type 0)
    (uuids : (w : W) → Q w → Q (e.uuid w).1)
    (handles : (index : ℕ) (step : Step) (payload : J) (previous : List (String × J)) (w : W)
      → get_elem? plan.steps index ≡ some step
      → Q w
      → Q (call_handler e step (step_context e run_id payload index step previous) w).2) where
  abbrev P : State W → Type 0
  P s = Q s.world

  store-Keeps : {A : Type 0} (m : Exec Db A) → Keeps P (on_store m)
  store-Keeps m s h = h

  reload-Keeps : Keeps P (reload e run_id)
  unfolding reload
  reload-Keeps =
      bind-Keeps P (on_store (Store.load e.externals run_id)) (λ state. or_raise state vanished)
        (store-Keeps (Store.load e.externals run_id)) (λ state. or_raise-Keeps P state vanished)

  failure-Keeps :
      (index : ℕ) (step : Step) (st : RunStatus) (reason : Text) (ctx : StepContext J W) (w : W)
      → Keeps P (record_failure e run_id index step st reason ctx w)
  unfolding record_failure append_checkpoint
  failure-Keeps index step st reason ctx w =
      bind-Keeps P
        (append_checkpoint e run_id index step StepOutcome.failed (e.externals.error_object reason)
          ctx w)
        (λ _. on_store (Store.set_status run_id st (some reason))) (λ s h. h)
        (λ _. store-Keeps (Store.set_status run_id st (some reason)))

  after_handler-Keeps :
      (index : ℕ) (step : Step) (next : J → Exec (State W) (RunState J)) (outcome : Outcome J)
      (ctx : StepContext J W)
      → ((output : J) → Keeps P (next output))
      → Keeps P (after_handler e run_id index step next outcome ctx)
  unfolding after_handler append_checkpoint
  after_handler-Keeps index step next (returned output) ctx kn s h =
      bind-Keeps P
        (append_checkpoint e run_id index step (success_outcome e ctx) output ctx s.world)
        (λ _. next output) (λ s h. h) (λ _. kn output) s h
  after_handler-Keeps index step next (escalated reason) ctx kn s h =
      bind-Keeps P (record_failure e run_id index step RunStatus.escalated reason ctx s.world)
        (λ _. reload e run_id) (failure-Keeps index step RunStatus.escalated reason ctx s.world)
        (λ _. reload-Keeps) s h
  after_handler-Keeps index step next crashed ctx kn s h = h
  after_handler-Keeps index step next (raised reason) ctx kn s h =
      bind-Keeps P (record_failure e run_id index step RunStatus.failed reason ctx s.world)
        (λ _. raise (handler_error reason))
        (failure-Keeps index step RunStatus.failed reason ctx s.world) (λ _ s' h'. h') s h

  unless_crash-Keeps :
      (b : Bool) (m : Exec (State W) (RunState J)) → Keeps P m → Keeps P (unless_crash b m)
  unless_crash-Keeps true m km s h = h
  unless_crash-Keeps false m km s h = km s h

  run_steps-Keeps :
      (payload : J) (crash_at : Option ℕ) (index : ℕ) (steps : List Step)
      (previous : List (String × J))
      → drop index plan.steps ≡ steps
      → Keeps P (run_steps e run_id payload crash_at index steps previous)
  unfolding run_steps
  run_steps-Keeps payload crash_at index [] previous d s h =
      bind-Keeps P (on_store (Store.set_status run_id RunStatus.completed none))
        (λ _. reload e run_id) (store-Keeps (Store.set_status run_id RunStatus.completed none))
        (λ _. reload-Keeps) s h
  run_steps-Keeps payload crash_at index (step ∷ steps) previous d s h =
      let (here, rest) = drop-get_elem? plan.steps index step steps d in
      unless_crash-Keeps (crashes_at crash_at index) _
        (λ s h.
          let (outcome, ctx, w) =
            call_handler e step (step_context e run_id payload index step previous) s.world in
          after_handler-Keeps index step _ outcome ctx
            (λ output.
              run_steps-Keeps ctx.payload crash_at (index + 1) steps
                (dict_put step.name output ctx.previous) rest)
            (record s { world = w }) (handles index step payload previous s.world here h))
        s h

  after_release_keeps :
      (r : Result (RunState J)) (r' : Result (Unit {0})) (s : State W)
      → P s
      → P (after_release e r (r', s)).1
  unfolding after_release
  after_release_keeps r (ok u) s h = h
  after_release_keeps r (err error) s h = h

  run_locked-Keeps :
      (crash_at : Option ℕ) (state : RunState J) → Keeps P (run_locked e run_id plan crash_at state)
  unfolding run_locked
  run_locked-Keeps crash_at state =
      bind-Keeps P (on_store (Store.set_status run_id RunStatus.running none)) _
        (store-Keeps (Store.set_status run_id RunStatus.running none))
        (λ _.
          run_steps-Keeps state.payload crash_at (next_index state)
            (drop (next_index state) plan.steps) (previous_of state.steps) refl)

  with_lock-Keeps :
      (key : String) (body : Exec (State W) (RunState J))
      → Keeps P body
      → Keeps P (with_lock e key body)
  unfolding with_lock locked
  with_lock-Keeps key body kb s h =
      let (owner, w) = e.uuid s.world in
      bind-Keeps P (on_store (Store.acquire e.externals key owner (e.time w) lock_ttl))
        (λ _. locked e key owner body)
        (store-Keeps (Store.acquire e.externals key owner (e.time w) lock_ttl))
        (λ _ s' h'. after_release_keeps (body s').0 _ _ (kb s' h')) (record s { world = w })
        (uuids s.world h)

  run_loaded-Keeps :
      (crash_at : Option ℕ) (state : RunState J) → Keeps P (run_loaded e run_id plan crash_at state)
  unfolding run_loaded
  run_loaded-Keeps crash_at state s h = elim (Bool-cases (is_terminal state.status)) [
    | inl over ↦ rw over h
    | inr live ↦ elim (Bool-cases (plan_matches_history plan.steps state.steps)) [
      | inl same ↦
          rw (live, same)
            (with_lock-Keeps state.idempotency_key (run_locked e run_id plan crash_at state)
              (run_locked-Keeps crash_at state) s h)
      | inr changed ↦ rw (live, changed) h
    ]
  ]

  -- What each handler keeps of the world, at the step's own index, a run keeps.
  pub run-WorldKeeps : (crash_at : Option ℕ) → Keeps P (run e run_id plan crash_at)
  unfolding run
  run-WorldKeeps crash_at =
      bind-Keeps P (on_store (Store.load e.externals run_id)) _
        (store-Keeps (Store.load e.externals run_id))
        (λ found.
          bind-Keeps P (or_raise found unknown_run) (run_loaded e run_id plan crash_at)
            (or_raise-Keeps P found unknown_run) (run_loaded-Keeps crash_at))

module _ {J W : Type 0} (e : Engine J W) (Q : W → Type 0)
    (uuids : (w : W) → Q w → Q (e.uuid w).1) where
  submit_run-Keeps : (spec : RunSpec J) → Keeps (λ (s : State W). Q s.world) (submit_run e spec)
  unfolding submit_run
  submit_run-Keeps spec s h = uuids s.world h

  submit_found :
      (spec : RunSpec J) (names : List String) (s : State W)
      → Q s.world
      → let submitted : Exec (State W) (RunState J) = elim names [
        | [] ↦ submit_run e spec
        | name ∷ rest ↦ raise (no_handlers (name ∷ rest))
      ] in
        Q (submitted s).1.world
  submit_found spec [] s h = submit_run-Keeps spec s h
  submit_found spec (name ∷ rest) s h = h

  -- What the source of uuids keeps of the world, a submission keeps.
  pub submit-WorldKeeps : (spec : RunSpec J) → Keeps (λ (s : State W). Q s.world) (submit e spec)
  unfolding submit
  submit-WorldKeeps spec s h = submit_found spec (missing_handlers e spec.plan.steps) s h
