-- ===== src/Engine/Resume.antt =====
-- engine.py, `Engine.run`: the handlers of the steps before the resume position.
use durable_agent_engine.Base.{
  ℕ, ◌+◌, String, ◌≡◌, refl, ap, ◌∙◌, Option, none, some, List, [], ◌∷◌, drop, if◌then◌else◌,
}
use mathlib.Core.Path.{fun_ext, ap₂}
use durable_agent_engine.Exec.{
  unknown_run, plan_changed, Yields, Result, ok, err, Exec, ◌>>=◌, ◌>>◌, continue, pure, raise,
  or_raise,
}
use durable_agent_engine.Models.{RunStatus, is_terminal, Step, Plan, RunState, next_index}
use durable_agent_engine.Store
use durable_agent_engine.Engine.{
  Outcome, returned, escalated, crashed, raised, Handler, Engine, State, on_store, dict_put,
  plan_matches_history, crashes_at, reload, previous_of,
}
use durable_agent_engine.Engine.Context.{StepContext}
use durable_agent_engine.Engine.Run.{
  step_context, call_handler, checkpoint, append_checkpoint, record_failure, after_handler,
  run_steps, locked, with_lock, run_locked, run_loaded, run, unless_crash, call_found,
}

module _ {J W : Type 0} (e : Engine J W) (others : String → Option (Handler J W)) where
  -- The same engine with other handlers.
  abbrev pub replaced : Engine J W
  replaced = record e { handlers = others }

  -- The handlers agree on these steps.
  abbrev pub AgreeOn : List Step → Type 0
  AgreeOn [] = Unit
  AgreeOn (step ∷ steps) = (e.handlers step.name ≡ others step.name) × AgreeOn steps

  after_agrees :
      (run_id : String) (index : ℕ) (step : Step) (next next' : J → Exec (State W) (RunState J))
      (outcome : Outcome J) (ctx : StepContext J W)
      → next ≡ next'
      → after_handler e run_id index step next outcome ctx
        ≡ after_handler replaced run_id index step next' outcome ctx
  unfolding after_handler append_checkpoint record_failure checkpoint reload
  after_agrees run_id index step next next' (returned output) ctx h =
      ap (λ n. after_handler e run_id index step n (returned output) ctx) h
  after_agrees run_id index step next next' (escalated reason) ctx h = refl
  after_agrees run_id index step next next' crashed ctx h = refl
  after_agrees run_id index step next next' (raised reason) ctx h = refl

  found_agrees :
      (name : String) (h : Option (Handler J W)) → call_found e name h ≡ call_found replaced name h
  unfolding call_found
  found_agrees name none = refl
  found_agrees name (some handler) = refl

  call_agrees :
      (step : Step)
      → e.handlers step.name ≡ others step.name
      → call_handler e step ≡ call_handler replaced step
  unfolding call_handler
  call_agrees step h = ap (call_found e step.name) h ∙ found_agrees step.name (others step.name)

  abbrev step_body :
      Option ℕ
      → ℕ
      → StepContext J W
      → (StepContext J W → W → Outcome J × StepContext J W × W)
      → (Outcome J → StepContext J W → Exec (State W) (RunState J))
      → Exec (State W) (RunState J)
  step_body crash_at index ctx call after s =
      unless_crash (crashes_at crash_at index)
        (λ s.
          let (outcome, ctx', w) = call ctx s.world in after outcome ctx' (record s { world = w }))
        s

  steps_agree :
      (run_id : String) (payload : J) (crash_at : Option ℕ) (index : ℕ) (steps : List Step)
      (previous : List (String × J))
      → AgreeOn steps
      → run_steps e run_id payload crash_at index steps previous
        ≡ run_steps replaced run_id payload crash_at index steps previous
  unfolding run_steps step_context reload
  steps_agree run_id payload crash_at index [] previous h = refl
  steps_agree run_id payload crash_at index (step ∷ steps) previous h =
      let ctx = step_context e run_id payload index step previous in
      ap₂ (step_body crash_at index ctx) (call_agrees step h.0) (
        fun_ext (λ outcome. fun_ext (λ ctx'. after_agrees run_id index step _ _ outcome ctx' (
          fun_ext (λ output.
            steps_agree run_id ctx'.payload crash_at (index + 1) steps
              (dict_put step.name output ctx'.previous) h.1)))))

  -- The handlers agree on the steps from the resume position of `state` on.
  abbrev pub AgreeFrom : Plan → RunState J → Type 0
  AgreeFrom plan state = AgreeOn (drop (next_index state) plan.steps)

  locked_agrees :
      (run_id : String) (plan : Plan) (crash_at : Option ℕ) (state : RunState J)
      → AgreeFrom plan state
      → run_locked e run_id plan crash_at state ≡ run_locked replaced run_id plan crash_at state
  unfolding run_locked
  locked_agrees run_id plan crash_at state h =
      ap (λ rest. on_store (Store.set_status run_id RunStatus.running none) >> rest)
        (steps_agree run_id state.payload crash_at (next_index state)
          (drop (next_index state) plan.steps) (previous_of state.steps) h)

  loaded_agrees :
      (run_id : String) (plan : Plan) (crash_at : Option ℕ) (state : RunState J)
      → AgreeFrom plan state
      → run_loaded e run_id plan crash_at state ≡ run_loaded replaced run_id plan crash_at state
  unfolding run_loaded with_lock locked
  loaded_agrees run_id plan crash_at state h =
      ap
        (λ body.
          if is_terminal state.status
          then pure state
          else if plan_matches_history plan.steps state.steps
          then with_lock e state.idempotency_key body
          else raise plan_changed)
        (locked_agrees run_id plan crash_at state h)

  found_run_agrees :
      (run_id : String) (plan : Plan) (crash_at : Option ℕ) (found : Result (Option (RunState J)))
      (s : State W)
      → Yields (λ o. (state : RunState J) → o ≡ some state → AgreeFrom plan state) found
      → continue found (λ o. or_raise o unknown_run >>= run_loaded e run_id plan crash_at) s
        ≡ continue found
            (λ o. or_raise o unknown_run >>= run_loaded replaced run_id plan crash_at)
            s
  found_run_agrees run_id plan crash_at (ok none) s h = refl
  found_run_agrees run_id plan crash_at (ok (some state)) s h =
      ap (λ m. m s) (loaded_agrees run_id plan crash_at state (h state refl))
  found_run_agrees run_id plan crash_at (err error) s h = refl

  -- Two engines that differ only in their handlers, and agree on the steps from the loaded state's
  -- resume position on, run alike on every database: the same result, the same tables, the same world.
  pub run_ignores_earlier :
      (run_id : String) (plan : Plan) (crash_at : Option ℕ) (s : State W)
      → Yields
          (λ o. (state : RunState J) → o ≡ some state → AgreeFrom plan state)
          (Store.load e.externals run_id s.db).0
      → run e run_id plan crash_at s ≡ run replaced run_id plan crash_at s
  unfolding run
  run_ignores_earlier run_id plan crash_at s h =
      found_run_agrees run_id plan crash_at (Store.load e.externals run_id s.db).0
        (record s { db = (Store.load e.externals run_id s.db).1 }) h
