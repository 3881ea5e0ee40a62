-- ===== src/Engine/Run.antt =====
-- engine.py, `Engine.run`: the lock, the loop over the steps, and how each step ends.
use durable_agent_engine.Base.{
  ℕ, ◌+◌, String, Bool, true, false, Option, none, some, List, [], ◌∷◌, ◌++◌, Text, codes, drop,
  if◌then◌else◌,
}
use durable_agent_engine.Exec.{
  unknown_run, plan_changed, simulated_crash, handler_error, Result, ok, err, Exec, ◌>>=◌, ◌>>◌,
  pure, raise, or_raise,
}
use durable_agent_engine.Models.{
  RunStatus, is_terminal, StepOutcome, Step, Plan, StepRecord, RunState, next_index,
}
use durable_agent_engine.Store
use durable_agent_engine.Engine.{
  Outcome, returned, escalated, crashed, raised, Handler, Engine, State, on_store, dict_put,
  previous_of, plan_matches_history, crashes_at, reload,
}
use durable_agent_engine.Engine.Context.{StepContext, tokens_used, attempts, was_healed}

-- the default `ttl` of a lock, in milliseconds
abbrev pub lock_ttl : ℕ
lock_ttl = 60000

-- `if crash: raise SimulatedCrash(...)`, and what follows it
abbrev pub unless_crash : {S A : Type 0} → Bool → Exec S A → Exec S A
unless_crash true m = raise simulated_crash
unless_crash false m = m

module _ {J W : Type 0} (e : Engine J W) where
  unfoldable pub step_context : String → J → ℕ → Step → List (String × J) → StepContext J W
  step_context run_id payload index step previous = record {
    run_id = run_id;
    index = index;
    payload = payload;
    previous = previous;
    provider = e.provider;
    max_attempts = step.max_attempts;
    tokens = [];
    corrections = [];
    made = 0;
  }

  unfoldable pub call_found :
      String → Option (Handler J W) → StepContext J W → W → Outcome J × StepContext J W × W
  call_found name none ctx w =
      (Outcome.raised (codes "KeyError: '" ++ (codes name ++ codes "'")), ctx, w)
  call_found name (some handler) ctx w = handler ctx w

  -- `self.handlers[step.name](ctx)`
  unfoldable pub call_handler : Step → StepContext J W → W → Outcome J × StepContext J W × W
  unfolding call_found
  call_handler step = call_found step.name (e.handlers step.name)

  -- the StepRecord of a step; `created_at` is `utcnow()`
  unfoldable pub checkpoint :
      String → ℕ → Step → StepOutcome → J → StepContext J W → W → StepRecord J
  checkpoint run_id index step outcome output ctx w = record {
    run_id = run_id;
    index = index;
    name = step.name;
    outcome = outcome;
    attempts = attempts ctx;
    output = output;
    tokens_used = tokens_used ctx;
    created_at = e.time w;
  }

  unfoldable pub success_outcome : StepContext J W → StepOutcome
  success_outcome ctx = if was_healed ctx then StepOutcome.healed else StepOutcome.ok

  unfoldable pub append_checkpoint :
      String → ℕ → Step → StepOutcome → J → StepContext J W → W → Exec (State W) (Unit {0})
  append_checkpoint run_id index step outcome output ctx w =
      on_store (Store.append e.externals (checkpoint run_id index step outcome output ctx w))

  -- the two calls of each `except` clause: the FAILED checkpoint, then the terminal status
  unfoldable pub record_failure :
      String → ℕ → Step → RunStatus → Text → StepContext J W → W → Exec (State W) (Unit {0})
  unfolding append_checkpoint
  record_failure run_id index step status reason ctx w =
      append_checkpoint run_id index step StepOutcome.failed (e.externals.error_object reason) ctx w
      >> on_store (Store.set_status run_id status (some reason))

  -- What follows the handler's call; `next` is the rest of the loop.
  unfoldable pub after_handler :
      String
      → ℕ
      → Step
      → (J → Exec (State W) (RunState J))
      → Outcome J
      → StepContext J W
      → Exec (State W) (RunState J)
  unfolding success_outcome append_checkpoint
  after_handler run_id index step next (returned output) ctx s =
      (append_checkpoint run_id index step (success_outcome ctx) output ctx s.world >> next output)
        s
  after_handler run_id index step next (escalated reason) ctx s =
      (record_failure run_id index step RunStatus.escalated reason ctx s.world >> reload e run_id) s
  after_handler run_id index step next crashed ctx s = raise simulated_crash s
  after_handler run_id index step next (raised reason) ctx s =
      (record_failure run_id index step RunStatus.failed reason ctx s.world
          >> raise (handler_error reason))
        s

  -- `for index in range(index, len(plan.steps))`, over the steps from `index` on, and what follows it;
  -- the handlers share the two dicts, so the next step finds them as this step's handler leaves them
  unfoldable pub run_steps :
      String → J → Option ℕ → ℕ → List Step → List (String × J) → Exec (State W) (RunState J)
  run_steps run_id payload crash_at index [] previous s =
      (on_store (Store.set_status run_id RunStatus.completed none) >> reload e run_id) s
  run_steps run_id payload crash_at index (step ∷ steps) previous s =
      unless_crash (crashes_at crash_at index)
        (λ s.
          let (outcome, ctx, w) =
            call_handler step (step_context run_id payload index step previous) s.world in
          after_handler run_id index step
            (λ output.
              run_steps run_id ctx.payload crash_at (index + 1) steps
                (dict_put step.name output ctx.previous))
            outcome ctx (record s { world = w }))
        s

  -- the end of `with self.store.lock(...)`: an exception of the release takes the place of what the
  -- body returned or raised
  unfoldable pub after_release :
      Result (RunState J) → Result (Unit {0}) × State W → Result (RunState J) × State W
  after_release r (ok _, s) = (r, s)
  after_release r (err error, s) = (err error, s)

  unfoldable pub locked :
      String → String → Exec (State W) (RunState J) → Exec (State W) (RunState J)
  unfolding after_release
  locked key owner body s =
      let (r, s') = body s in after_release r (on_store (Store.release e.externals key owner) s')

  unfoldable pub with_lock : String → Exec (State W) (RunState J) → Exec (State W) (RunState J)
  unfolding locked
  with_lock key body s =
      let (owner, w) = e.uuid s.world in
      (on_store (Store.acquire e.externals key owner (e.time w) lock_ttl) >> locked key owner body)
        (record s { world = w })

  -- the body of the `with` block
  unfoldable pub run_locked : String → Plan → Option ℕ → RunState J → Exec (State W) (RunState J)
  run_locked run_id plan crash_at state =
      on_store (Store.set_status run_id RunStatus.running none)
      >> run_steps run_id state.payload crash_at (next_index state)
          (drop (next_index state) plan.steps) (previous_of state.steps)

  unfoldable pub run_loaded : String → Plan → Option ℕ → RunState J → Exec (State W) (RunState J)
  run_loaded run_id plan crash_at state =
      if is_terminal state.status
      then pure state
      else if plan_matches_history plan.steps state.steps
      then with_lock state.idempotency_key (run_locked run_id plan crash_at state)
      else raise plan_changed

  unfoldable pub run : String → Plan → Option ℕ → Exec (State W) (RunState J)
  unfolding run_loaded
  run run_id plan crash_at = on_store (Store.load e.externals run_id) >>= λ found.
      or_raise found unknown_run >>= run_loaded run_id plan crash_at
