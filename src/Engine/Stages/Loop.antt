-- ===== src/Engine/Stages/Loop.antt =====
-- engine.py, `Engine.run`: the loop goes from stage to stage.
use durable_agent_engine.Base.{
  ℕ, ◌+◌, String, ◌≡◌, refl, ap, ◌∙◌, true, Option, none, some, List, [], ◌∷◌, Text, ltb, ◌||◌,
  ◌==◌, get_elem?, drop, drop-get_elem?, Bool-cases, inl, inr, eq_refl, if_cases, arith,
}
use durable_agent_engine.Exec.{handler_error, Exec, raise}
use durable_agent_engine.Exec.Crash.{After, bind-After}
use durable_agent_engine.Models.{
  RunStatus, is_terminal, StepOutcome, is_success, Step, Plan, RunState, contains, done,
}
use durable_agent_engine.Store
use durable_agent_engine.Store.{Db, step_row, step_record, step_records, insert_step}
use durable_agent_engine.Store.Sql.{Tables, find_run, steps_of, update_status}
use durable_agent_engine.Store.Crash.{insert_step-Commits, update_status-Commits}
use durable_agent_engine.Store.Healthy.{find-replaced}
use durable_agent_engine.Engine.{
  Outcome, returned, escalated, crashed, raised, Engine, State, on_store, dict_put, crashes_at,
  reload,
}
use durable_agent_engine.Engine.Context.{StepContext}
use durable_agent_engine.Engine.Run.{
  step_context, call_handler, checkpoint, success_outcome, append_checkpoint, record_failure,
  after_handler, run_steps,
}
use durable_agent_engine.Engine.Replay.Rows.{
  absent, below_last, steps_of_last, records_last, done_last,
}
use durable_agent_engine.Engine.Stages.{
  Stage, Ready, stage, Done, Goes, call_last, call_then, finish-Goes, reload-Goes,
}

module _ {J W : Type 0} (e : Engine J W) (run_id : String) (plan : Plan) (Fine : ℕ → W → Type 0)
    (Right : RunStatus → W → Type 0) where
  -- What the handler of step `i` makes of the world, by how it ends.
  abbrev pub Handled : ℕ → Outcome J → W → Type 0
  Handled i (returned output) w = Fine (i + 1) w
  Handled i (escalated reason) w = Right RunStatus.escalated w
  Handled i crashed w = Fine i w
  Handled i (raised reason) w = Unit

  below_suc : (k i : ℕ) → (ltb k i || k == i) ≡ ltb k (i + 1)
  below_suc k i = ground arith

  success_good : (ctx : StepContext J W) → is_success (success_outcome e ctx) ≡ true
  unfolding success_outcome
  success_good ctx =
      if_cases (λ o. is_success o ≡ true) _ StepOutcome.healed StepOutcome.ok
        (λ h. unfold is_success in refl) (λ h. unfold is_success in refl)

  -- A successful checkpoint leads to the next stage, with the world that belongs to it.
  next-Stage :
      (i : ℕ) (step : Step) (output : J) (ctx : StepContext J W) (w : W) (text : String)
      (t : Tables)
      → Stage e.externals run_id i t
      → Stage e.externals run_id (i + 1) (record t {
        step_records =
            step_row (checkpoint e run_id i step (success_outcome e ctx) output ctx w) text
            ∷ t.step_records;
      })
  unfolding checkpoint step_record
  next-Stage i step output ctx w text t p =
      let r = step_row (checkpoint e run_id i step (success_outcome e ctx) output ctx w) text in
      let last = steps_of_last run_id r t.step_records (eq_refl run_id) p.below in
      record {
        row = p.row;
        found = p.found;
        active = p.active;
        below = rw last (below_last i r (steps_of run_id t.step_records) refl p.below);
        is_done = λ k. rw last (
            ap (λ l. contains k (done l))
              (records_last e.externals r (steps_of run_id t.step_records))
            ∙ done_last k (step_record e.externals r) _ (success_good ctx)
            ∙ ap (λ b. b || k == i) (p.is_done k)
            ∙ below_suc k i);
      }

  -- Both calls of an `except` clause leave the run under the status, and the world as it is.
  failure-After :
      (i : ℕ) (step : Step) (status : RunStatus) (reason : Text) (ctx : StepContext J W)
      (s : State W) (p : Stage e.externals run_id i s.db.tables)
      → After
          (λ u (s' : State W).
            (find_run run_id s'.db.tables.runs
              ≡ some (record p.row { status = status; error = some reason }))
            × (s' ≡ record s { db = s'.db }))
          (Ready e run_id plan Fine Right)
          (record_failure e run_id i step status reason ctx s.world s).0
          (record_failure e run_id i step status reason ctx s.world s).1
  unfolding record_failure append_checkpoint Store.append checkpoint Store.set_status
  failure-After i step status reason ctx s p =
      let r =
        checkpoint e run_id i step StepOutcome.failed (e.externals.error_object reason) ctx
          s.world in
      call_then (λ u t. find_run run_id t.runs ≡ some p.row) _ _
        (insert_step e.externals r (e.externals.dumps (e.externals.error_object reason)))
        (λ u. on_store (Store.set_status run_id status (some reason))) s
        (insert_step-Commits e.externals _ r s.db.tables
          (absent run_id i s.db.tables.step_records p.below) (λ text. p.found))
        (λ u db f.
          call_last
            (λ u t.
              find_run run_id t.runs ≡ some (record p.row { status = status; error = some reason }))
            (Ready e run_id plan Fine Right) (update_status run_id status (some reason))
            (record s { db = db })
            (update_status-Commits _ run_id status (some reason) db.tables
              (find-replaced run_id status (some reason) db.tables.runs p.row f)))

  after_handler-Goes :
      (i : ℕ) (step : Step) (next : J → Exec (State W) (RunState J)) (outcome : Outcome J)
      (ctx : StepContext J W) (s : State W)
      → Stage e.externals run_id i s.db.tables
      → Handled i outcome s.world
      → ((output : J) (s : State W)
          → Stage e.externals run_id (i + 1) s.db.tables
          → Fine (i + 1) s.world
          → Goes e run_id plan Fine Right (next output s))
      → Goes e run_id plan Fine Right (after_handler e run_id i step next outcome ctx s)
  unfolding after_handler append_checkpoint Store.append checkpoint
  after_handler-Goes i step next (returned output) ctx s p h k =
      let r = checkpoint e run_id i step (success_outcome e ctx) output ctx s.world in
      call_then (λ u t. Stage e.externals run_id (i + 1) t) _ _
        (insert_step e.externals r (e.externals.dumps output)) (λ u. next output) s
        (insert_step-Commits e.externals _ r s.db.tables
          (absent run_id i s.db.tables.step_records p.below)
          (λ text. next-Stage i step output ctx s.world text s.db.tables p))
        (λ u db q. k output (record s { db = db }) q h)
  after_handler-Goes i step next (escalated reason) ctx s p h k =
      bind-After (Ready e run_id plan Fine Right) _ (Done e run_id plan Fine Right)
        (record_failure e run_id i step RunStatus.escalated reason ctx s.world)
        (λ u. reload e run_id) s (failure-After i step RunStatus.escalated reason ctx s p)
        (λ u s' q. reload-Goes e run_id plan Fine Right s' (record {
          row = record p.row { status = RunStatus.escalated; error = some reason };
          found = q.0;
          is_over = unfold is_terminal in refl;
          right = rw q.1 h;
        }))
  after_handler-Goes i step next crashed ctx s p h k = λ crash. stage i p h
  after_handler-Goes i step next (raised reason) ctx s p h k =
      bind-After (Ready e run_id plan Fine Right) _ (Done e run_id plan Fine Right)
        (record_failure e run_id i step RunStatus.failed reason ctx s.world)
        (λ u. raise (handler_error reason)) s (failure-After i step RunStatus.failed reason ctx s p)
        (λ u s' q. λ crash. cc crash)

  module _
      (handles : (i : ℕ) (step : Step) (payload : J) (previous : List (String × J)) (w : W)
        → get_elem? plan.steps i ≡ some step
        → Fine i w
        → let (outcome, ctx, w') =
            call_handler e step (step_context e run_id payload i step previous) w in
          Handled i outcome w')
      (completes : (i : ℕ) (w : W)
        → drop i plan.steps ≡ []
        → Fine i w
        → Right RunStatus.completed w) where
    pub run_steps-Goes :
        (payload : J) (crash_at : Option ℕ) (i : ℕ) (steps : List Step)
        (previous : List (String × J)) (s : State W)
        → drop i plan.steps ≡ steps
        → Stage e.externals run_id i s.db.tables
        → Fine i s.world
        → Goes e run_id plan Fine Right (run_steps e run_id payload crash_at i steps previous s)
    unfolding run_steps
    run_steps-Goes payload crash_at i [] previous s d p fine =
        finish-Goes e run_id plan Fine Right RunStatus.completed none s p.row p.found
          (unfold is_terminal in refl) (completes i s.world d fine)
    run_steps-Goes payload crash_at i (step ∷ steps) previous s d p fine =
        let ctx = step_context e run_id payload i step previous in
        let (outcome, ctx', w') = call_handler e step ctx s.world in
        let (here, rest) = drop-get_elem? plan.steps i step steps d in
        elim (Bool-cases (crashes_at crash_at i)) [
          | inl dies ↦ rw dies (λ crash. stage i p fine)
          | inr lives ↦ rw lives (
              after_handler-Goes i step _ outcome ctx' (record s { world = w' }) p
                (handles i step payload previous s.world here fine)
                (λ output s q fine.
                  run_steps-Goes ctx'.payload crash_at (i + 1) steps
                    (dict_put step.name output ctx'.previous) s rest q fine))
        ]
