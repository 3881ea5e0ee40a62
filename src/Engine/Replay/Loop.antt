-- ===== src/Engine/Replay/Loop.antt =====
-- engine.py, `Engine.run`: the loop over the steps goes along the story, whatever connections fail.
use durable_agent_engine.Base.{
  ℕ, ◌+◌, String, refl, sym, ◌∙◌, Option, none, List, [], ◌∷◌, Text, Bool-cases, inl, inr,
  append-nil,
}
use durable_agent_engine.Exec.{handler_error, Exec, ◌>>◌, raise}
use durable_agent_engine.Models.{RunStatus, is_terminal, StepOutcome, Step, Plan, RunState}
use durable_agent_engine.Externals.{RunRow, RoundTrips}
use durable_agent_engine.Store
use durable_agent_engine.Store.{insert_step, step_row}
use durable_agent_engine.Engine.{
  Outcome, returned, escalated, crashed, raised, Engine, State, on_store, dict_put, crashes_at,
  reload,
}
use durable_agent_engine.Engine.Bodies.{keep_then}
use durable_agent_engine.Engine.Context.{StepContext}
use durable_agent_engine.Engine.Run.{
  step_context, checkpoint, record_failure, after_handler, run_steps,
}
use durable_agent_engine.Engine.Replay.Story.{Answers, story, verdict}
use durable_agent_engine.Engine.Replay.Progress.{EndsRun, IsSteady, IsStubborn}
use durable_agent_engine.Engine.Replay.Steps.{
  payload, underway, failing, Q, reload_onstory, set_onstory, failure_onstory,
}
use durable_agent_engine.Engine.Replay.Handled.{
  At, FailedAt, context, insert_old, after_handler_onstory,
}

module _ {J W : Type 0} (e : Engine J W) (run_id : String) (plan : Plan) (answer : Answers J W)
    (submitted : RunRow) (trips : RoundTrips e.externals) (steady : IsSteady e answer)
    (stubborn : IsStubborn e answer) where
  -- From a step that is still to be done, the loop goes on with the story.
  pub run_steps_onstory :
      (crash_at : Option ℕ) (i : ℕ) (steps : List Step) (previous : List (String × J)) (s : State W)
      → At e run_id plan answer submitted i steps previous s.db.tables
      → Q e run_id plan answer submitted
          (run_steps e run_id
            (payload e run_id plan answer submitted)
            crash_at
            i
            steps
            previous
            s).1
  unfolding run_steps story verdict step_context
  run_steps_onstory crash_at i [] previous s (l, p) =
      keep_then (Q e run_id plan answer submitted)
        (on_store (Store.set_status run_id RunStatus.completed none)) (λ _. reload e run_id) s
        (set_onstory e run_id plan answer submitted RunStatus.completed none s l
          (sym (append-nil _) ∙ p.tale) p.ends (unfold is_terminal in refl)
          (underway l i [] previous p))
        (λ _. reload_onstory e run_id plan answer submitted)
  run_steps_onstory crash_at i (step ∷ steps) previous s (l, p) =
      let ctx = context e run_id plan answer submitted i step previous in
      let (w', same, kept, held) = steady step ctx s.world in
      elim (Bool-cases (crashes_at crash_at i)) [
        | inl dies ↦ rw dies (underway l i (step ∷ steps) previous p)
        | inr lives ↦
            rw (lives, same)
              (after_handler_onstory e run_id plan answer submitted trips i step steps previous _
                (answer step ctx).0 (answer step ctx).1 (record s { world = w' }) (l, p) refl
                (λ output s h.
                  rw (kept, held)
                    (run_steps_onstory crash_at (i + 1) steps (dict_put step.name output previous) s
                      h)))
      ]

  repeat_failure :
      (i : ℕ) (step : Step) (status : RunStatus) (error : Text) (previous : List (String × J))
      (ctx : StepContext J W) (s : State W) (rest : Exec (State W) (RunState J))
      → FailedAt e run_id plan answer submitted i step status error previous s.db.tables
      → ((s : State W)
          → Q e run_id plan answer submitted s
          → Q e run_id plan answer submitted (rest s).1)
      → Q e run_id plan answer submitted
          ((record_failure e run_id i step status error ctx s.world >> rest) s).1
  unfolding checkpoint
  repeat_failure i step status error previous ctx s rest (l, p) k =
      failure_onstory e run_id plan answer submitted i step status error previous ctx s.world s rest
        (failing l i step status error previous p)
        (insert_old e run_id plan answer submitted
          (FailedAt e run_id plan answer submitted i step status error previous)
          (checkpoint e run_id i step StepOutcome.failed (e.externals.error_object error) ctx
            s.world)
          s.db.tables (e.externals.dumps (e.externals.error_object error)) p.present (l, p))
        k

  again_onstory :
      (i : ℕ) (step : Step) (status : RunStatus) (error : Text) (previous : List (String × J))
      (next : J → Exec (State W) (RunState J)) (outcome : Outcome J) (ctx : StepContext J W)
      (s : State W)
      → FailedAt e run_id plan answer submitted i step status error previous s.db.tables
      → EndsRun outcome status error
      → Q e run_id plan answer submitted (after_handler e run_id i step next outcome ctx s).1
  unfolding after_handler checkpoint
  again_onstory i step status error previous next (returned output) ctx s h f = absurd f
  again_onstory i step status error previous next (escalated reason) ctx s h f =
      rw⁻¹ (f.0, f.1)
        (repeat_failure i step status error previous ctx s (reload e run_id) h
          (reload_onstory e run_id plan answer submitted))
  again_onstory i step status error previous next crashed ctx s h f = absurd f
  again_onstory i step status error previous next (raised reason) ctx s h f =
      rw⁻¹ (f.0, f.1)
        (repeat_failure i step status error previous ctx s (raise (handler_error error)) h
          (λ s h. h))

  -- From the step that has failed, whose status is still to be set, it fails again.
  pub run_again_onstory :
      (crash_at : Option ℕ) (i : ℕ) (step : Step) (rest : List Step) (status : RunStatus)
      (error : Text) (previous : List (String × J)) (s : State W)
      → FailedAt e run_id plan answer submitted i step status error previous s.db.tables
      → Q e run_id plan answer submitted
          (run_steps e run_id
            (payload e run_id plan answer submitted)
            crash_at
            i
            (step ∷ rest)
            (dict_put step.name (e.externals.error_object error) previous)
            s).1
  unfolding run_steps step_context
  run_again_onstory crash_at i step rest status error previous s (l, p) =
      let ctx =
        context e run_id plan answer submitted i step
          (dict_put step.name (e.externals.error_object error) previous) in
      let (w', same, kept, held) = steady step ctx s.world in
      elim (Bool-cases (crashes_at crash_at i)) [
        | inl dies ↦ rw dies (failing l i step status error previous p)
        | inr lives ↦
            rw (lives, same)
              (again_onstory i step status error previous _ (answer step ctx).0 (answer step ctx).1
                (record s { world = w' }) (l, p)
                (stubborn step (context e run_id plan answer submitted i step previous) status error
                  p.fails))
      ]
