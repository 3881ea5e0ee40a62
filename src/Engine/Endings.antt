-- ===== src/Engine/Endings.antt =====
-- engine.py, `Engine.run`: how a run ends.
use durable_agent_engine.Base.{
  ℕ, ◌+◌, String, ◌≡◌, refl, Bool, true, false, Option, none, some, List, [], ◌∷◌, Text, drop,
  Bool-cases, inl, inr,
}
use durable_agent_engine.Exec.{
  unknown_run, vanished, handler_error, Result, ok, err, Exec, ◌>>=◌, ◌>>◌, continue, raise,
  or_raise, Yields,
}
use durable_agent_engine.Models.{
  RunStatus, is_terminal, StepOutcome, Step, Plan, RunState, next_index,
}
use durable_agent_engine.Store
use durable_agent_engine.Store.{Db}
use durable_agent_engine.Store.Reads.{HasStatus, LoadsStatus, set_status-Yields, load-Yields}
use durable_agent_engine.Engine.{
  Outcome, returned, escalated, crashed, raised, Engine, State, on_store, dict_put, previous_of,
  plan_matches_history, crashes_at, reload,
}
use durable_agent_engine.Engine.Context.{StepContext}
use durable_agent_engine.Engine.Run.{
  step_context, call_handler, success_outcome, append_checkpoint, record_failure, after_handler,
  run_steps, after_release, locked, with_lock, run_locked, run_loaded, run, unless_crash,
}

module _ {S A B : Type 0} (P : B → Type 0) where
  continue-Yields :
      (r : Result A) (f : A → Exec S B) (s : S)
      → ((a : A) → Yields P (f a s).0)
      → Yields P (continue r f s).0
  continue-Yields (ok a) f s h = h a
  continue-Yields (err error) f s h = tt

-- The second call's result, from what the first returned and left.
module _ {S A B : Type 0} (P : B → Type 0) (Q : A → Type 0) where
  chain-Yields :
      (r : Result A) (f : A → Exec S B) (s : S)
      → Yields Q r
      → ((a : A) → Q a → Yields P (f a s).0)
      → Yields P (continue r f s).0
  chain-Yields (ok a) f s q h = h a q
  chain-Yields (err error) f s q h = tt

module _ {J W : Type 0} (e : Engine J W) (run_id : String) where
  or_vanished-Yields :
      (status : RunStatus) (found : Option (RunState J)) (s : State W)
      → LoadsStatus e.externals status found
      → Yields (λ (state : RunState J). state.status ≡ status) (or_raise found vanished s).0
  or_vanished-Yields status none s h = tt
  or_vanished-Yields status (some state) s h = h

  reload-Yields :
      (status : RunStatus) (s : State W)
      → HasStatus run_id status s.db.tables
      → Yields (λ (state : RunState J). state.status ≡ status) (reload e run_id s).0
  unfolding reload
  reload-Yields status s h =
      chain-Yields (λ (state : RunState J). state.status ≡ status) (LoadsStatus e.externals status)
        (Store.load e.externals run_id s.db).0 (λ state. or_raise state vanished) _
        (load-Yields e.externals run_id status s.db h)
        (λ found q. or_vanished-Yields status found _ q)

  finish-Yields :
      (status : RunStatus) (error : Option Text) (s : State W)
      → Yields
          (λ (state : RunState J). state.status ≡ status)
          ((on_store (Store.set_status run_id status error) >> reload e run_id) s).0
  finish-Yields status error s =
      chain-Yields (λ (state : RunState J). state.status ≡ status)
        (λ _. HasStatus run_id status (Store.set_status run_id status error s.db).1.tables)
        (Store.set_status run_id status error s.db).0 (λ _. reload e run_id) _
        (set_status-Yields run_id status error s.db) (λ _ q. reload-Yields status _ q)

  abbrev IsOver : RunState J → Type 0
  IsOver state = is_terminal state.status ≡ true

  abbrev status : RunStatus → Option Text → Exec (State W) (Unit {0})
  status st error = on_store (Store.set_status run_id st error)

  status_after :
      (st : RunStatus) (error : Option Text) (r : Result (Unit {0})) (s : State W)
      → Yields
          (λ _. HasStatus run_id st (continue r (λ _. status st error) s).1.db.tables)
          (continue r (λ _. status st error) s).0
  status_after st error (ok u) s = set_status-Yields run_id st error s.db
  status_after st error (err f) s = tt

  failure-Yields :
      (index : ℕ) (step : Step) (st : RunStatus) (reason : Text) (ctx : StepContext J W) (w : W)
      (s : State W)
      → Yields
          (λ _.
            HasStatus run_id st (record_failure e run_id index step st reason ctx w s).1.db.tables)
          (record_failure e run_id index step st reason ctx w s).0
  unfolding record_failure
  failure-Yields index step st reason ctx w s =
      let (r, s') =
        append_checkpoint e run_id index step StepOutcome.failed (e.externals.error_object reason)
          ctx w s in
      status_after st (some reason) r s'

  over :
      (st : RunStatus) (r : Result (RunState J))
      → is_terminal st ≡ true
      → Yields (λ (state : RunState J). state.status ≡ st) r
      → Yields IsOver r
  over st (ok state) t h = rw h t
  over st (err error) t h = tt

  after_handler-IsOver :
      (index : ℕ) (step : Step) (next : J → Exec (State W) (RunState J)) (outcome : Outcome J)
      (ctx : StepContext J W) (s : State W)
      → ((output : J) (s : State W) → Yields IsOver (next output s).0)
      → Yields IsOver (after_handler e run_id index step next outcome ctx s).0
  unfolding after_handler
  after_handler-IsOver index step next (returned output) ctx s k =
      continue-Yields IsOver
        (append_checkpoint e run_id index step (success_outcome e ctx) output ctx s.world s).0
        (λ _. next output) _ (λ _. k output _)
  after_handler-IsOver index step next (escalated reason) ctx s k =
      over RunStatus.escalated _ (unfold is_terminal in refl) (
        chain-Yields (λ (state : RunState J). state.status ≡ RunStatus.escalated)
          (λ _.
            HasStatus run_id RunStatus.escalated
              (record_failure e run_id index step RunStatus.escalated reason ctx s.world
                s).1.db.tables)
          (record_failure e run_id index step RunStatus.escalated reason ctx s.world s).0
          (λ _. reload e run_id) _
          (failure-Yields index step RunStatus.escalated reason ctx s.world s)
          (λ _ q. reload-Yields RunStatus.escalated _ q))
  after_handler-IsOver index step next crashed ctx s k = tt
  after_handler-IsOver index step next (raised reason) ctx s k =
      continue-Yields IsOver
        (record_failure e run_id index step RunStatus.failed reason ctx s.world s).0
        (λ _. raise (handler_error reason)) _ (λ _. tt)

  unless_crash-IsOver :
      (b : Bool) (m : Exec (State W) (RunState J)) (s : State W)
      → Yields IsOver (m s).0
      → Yields IsOver (unless_crash b m s).0
  unless_crash-IsOver true m s h = tt
  unless_crash-IsOver false m s h = h

  run_steps-IsOver :
      (payload : J) (crash_at : Option ℕ) (index : ℕ) (steps : List Step)
      (previous : List (String × J)) (s : State W)
      → Yields IsOver (run_steps e run_id payload crash_at index steps previous s).0
  unfolding run_steps
  run_steps-IsOver payload crash_at index [] previous s =
      over RunStatus.completed _ (unfold is_terminal in refl)
        (finish-Yields RunStatus.completed none s)
  run_steps-IsOver payload crash_at index (step ∷ steps) previous s =
      unless_crash-IsOver (crashes_at crash_at index) _ s (
        let (outcome, ctx, w) =
          call_handler e step (step_context e run_id payload index step previous) s.world in
        after_handler-IsOver index step _ outcome ctx (record s { world = w })
          (λ output s.
            run_steps-IsOver ctx.payload crash_at (index + 1) steps
              (dict_put step.name output ctx.previous) s))

  after_release-IsOver :
      (r : Result (RunState J)) (r' : Result (Unit {0})) (s : State W)
      → Yields IsOver r
      → Yields IsOver (after_release e r (r', s)).0
  unfolding after_release
  after_release-IsOver r (ok u) s h = h
  after_release-IsOver r (err error) s h = tt

  with_lock-IsOver :
      (key : String) (body : Exec (State W) (RunState J)) (s : State W)
      → ((s : State W) → Yields IsOver (body s).0)
      → Yields IsOver (with_lock e key body s).0
  unfolding with_lock locked
  with_lock-IsOver key body s k =
      continue-Yields IsOver _ (λ (u : Unit {0}). locked e key (e.uuid s.world).0 body) _
        (λ _. after_release-IsOver (body _).0 _ _ (k _))

  run_loaded-IsOver :
      (plan : Plan) (crash_at : Option ℕ) (state : RunState J) (s : State W)
      → Yields IsOver (run_loaded e run_id plan crash_at state s).0
  unfolding run_loaded run_locked
  run_loaded-IsOver plan crash_at state s = elim (Bool-cases (is_terminal state.status)) [
    | inl done ↦ rw done done
    | inr live ↦ elim (Bool-cases (plan_matches_history plan.steps state.steps)) [
      | inl same ↦
          rw (live, same)
            (with_lock-IsOver state.idempotency_key (run_locked e run_id plan crash_at state) s
              (λ s. continue-Yields IsOver (status RunStatus.running none s).0 _ _ (λ _.
                run_steps-IsOver state.payload crash_at (next_index state)
                  (drop (next_index state) plan.steps) (previous_of state.steps) _)))
      | inr changed ↦ rw (live, changed) tt
    ]
  ]

  or_unknown-IsOver :
      (found : Option (RunState J)) (f : RunState J → Exec (State W) (RunState J)) (s : State W)
      → ((state : RunState J) (s : State W) → Yields IsOver (f state s).0)
      → Yields IsOver ((or_raise found unknown_run >>= f) s).0
  or_unknown-IsOver none f s h = tt
  or_unknown-IsOver (some state) f s h = h state s

  -- A run that returns a state returns a terminal one: completed, failed or escalated.
  pub run_returns_terminal :
      (plan : Plan) (crash_at : Option ℕ) (s : State W)
      → Yields
          (λ (state : RunState J). is_terminal state.status ≡ true)
          (run e run_id plan crash_at s).0
  unfolding run
  run_returns_terminal plan crash_at s =
      continue-Yields IsOver (Store.load e.externals run_id s.db).0 _ _ (λ found.
        or_unknown-IsOver found (run_loaded e run_id plan crash_at) _
          (run_loaded-IsOver plan crash_at))
