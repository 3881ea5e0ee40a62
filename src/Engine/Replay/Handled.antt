-- ===== src/Engine/Replay/Handled.antt =====
-- engine.py, `Engine.run`: what follows a handler goes along the story, whatever connections fail.
use durable_agent_engine.Base.{
  ℕ, ◌+◌, String, ◌≡◌, refl, true, false, Option, none, some, List, ◌∷◌, Text, Bool-cases,
  Option-cases, inl, inr,
}
use durable_agent_engine.Exec.{handler_error, Exec, ◌>>◌, raise, Yields}
use durable_agent_engine.Models.{RunStatus, StepOutcome, Step, Plan, StepRecord, RunState}
use durable_agent_engine.Externals.{RunRow, RoundTrips}
use durable_agent_engine.Store
use durable_agent_engine.Store.{insert_step, step_row}
use durable_agent_engine.Store.Sql.{Tables, run_id_taken, has_step}
use durable_agent_engine.Engine.{
  Outcome, returned, escalated, crashed, raised, Engine, State, dict_put, reload,
}
use durable_agent_engine.Engine.Bodies.{store_then}
use durable_agent_engine.Engine.Context.{StepContext}
use durable_agent_engine.Engine.Run.{
  step_context, checkpoint, success_outcome, append_checkpoint, record_failure, after_handler,
}
use durable_agent_engine.Engine.Replay.Story.{Answers}
use durable_agent_engine.Engine.Replay.Rows.{absent}
use durable_agent_engine.Engine.Replay.Progress.{EndsRun, Reached, Failed, next-Reached}
use durable_agent_engine.Engine.Replay.Failure.{failed-Reached}
use durable_agent_engine.Engine.Replay.Steps.{
  payload, Live, OnStory, underway, Q, reload_onstory, failure_onstory,
}

module _ {J W : Type 0} (e : Engine J W) (run_id : String) (plan : Plan) (answer : Answers J W)
    (submitted : RunRow) where
  abbrev pub At : ℕ → List Step → List (String × J) → Tables → Type 0
  At i steps previous t =
      Live e run_id plan answer submitted t
      × Reached e run_id (payload e run_id plan answer submitted) plan answer i steps previous
          t.step_records

  abbrev pub FailedAt : ℕ → Step → RunStatus → Text → List (String × J) → Tables → Type 0
  FailedAt i step status error previous t =
      Live e run_id plan answer submitted t
      × Failed e run_id (payload e run_id plan answer submitted) plan answer i step status error
          previous t.step_records

  abbrev pub context : ℕ → Step → List (String × J) → StepContext J W
  context i step previous =
      step_context e run_id (payload e run_id plan answer submitted) i step previous

  -- An INSERT of a step that is not there gives the row, or raises.
  insert_new :
      (P : Tables → Type 0) (r : StepRecord J) (t : Tables)
      → has_step r.run_id r.index t.step_records ≡ false
      → ((text : String)
          → e.externals.dumps r.output ≡ some text
          → P (record t { step_records = step_row r text ∷ t.step_records }))
      → Yields
          (λ (p : Unit {0} × Tables). P p.1)
          (insert_step e.externals r (e.externals.dumps r.output) t)
  unfolding insert_step
  insert_new P r t new k = elim (Option-cases (e.externals.dumps r.output)) [
    | inl bare ↦ rw bare tt
    | inr (text, d) ↦ elim (Bool-cases (run_id_taken r.run_id t.runs)) [
      | inl known ↦ rw (d, new, known) (k text d)
      | inr unknown ↦ rw (d, new, unknown) tt
    ]
  ]

  -- One of a step that is there changes nothing, or raises.
  pub insert_old :
      (P : Tables → Type 0) (r : StepRecord J) (t : Tables) (text : Option String)
      → has_step r.run_id r.index t.step_records ≡ true
      → P t
      → Yields (λ (p : Unit {0} × Tables). P p.1) (insert_step e.externals r text t)
  unfolding insert_step
  insert_old P r t none old h = tt
  insert_old P r t (some text) old h = rw old h

  module _ (trips : RoundTrips e.externals) where
    after_failure_onstory :
        (i : ℕ) (step : Step) (steps : List Step) (previous : List (String × J))
        (outcome : Outcome J) (ctx : StepContext J W) (status : RunStatus) (error : Text)
        (s : State W) (rest : Exec (State W) (RunState J))
        → At i (step ∷ steps) previous s.db.tables
        → answer step (context i step previous) ≡ (outcome, ctx)
        → EndsRun outcome status error
        → ((s : State W)
            → Q e run_id plan answer submitted s
            → Q e run_id plan answer submitted (rest s).1)
        → Q e run_id plan answer submitted
            ((record_failure e run_id i step status error ctx s.world >> rest) s).1
    unfolding checkpoint
    after_failure_onstory i step steps previous outcome ctx status error s rest (l, p) a f k =
        failure_onstory e run_id plan answer submitted i step status error previous ctx s.world s
          rest (underway l i (step ∷ steps) previous p)
          (insert_new (FailedAt i step status error previous)
            (checkpoint e run_id i step StepOutcome.failed (e.externals.error_object error) ctx
              s.world)
            s.db.tables (absent run_id i s.db.tables.step_records p.below)
            (λ text d. (
              record { status = l.status; error = l.error; found = l.found; active = l.active },
              failed-Reached e run_id (payload e run_id plan answer submitted) plan answer trips i
                  step steps previous s.db.tables.step_records outcome ctx status error s.world text
                  p a f d,
            )))
          k

    pub after_handler_onstory :
        (i : ℕ) (step : Step) (steps : List Step) (previous : List (String × J))
        (next : J → Exec (State W) (RunState J)) (outcome : Outcome J) (ctx : StepContext J W)
        (s : State W)
        → At i (step ∷ steps) previous s.db.tables
        → answer step (context i step previous) ≡ (outcome, ctx)
        → ((output : J) (s : State W)
            → At (i + 1) steps (dict_put step.name output previous) s.db.tables
            → Q e run_id plan answer submitted (next output s).1)
        → Q e run_id plan answer submitted (after_handler e run_id i step next outcome ctx s).1
    unfolding after_handler append_checkpoint Store.append checkpoint
    after_handler_onstory i step steps previous next (returned output) ctx s (l, p) a k =
        store_then (λ _. At (i + 1) steps (dict_put step.name output previous))
          (OnStory e run_id plan answer submitted)
          (insert_step e.externals
            (checkpoint e run_id i step (success_outcome e ctx) output ctx s.world)
            (e.externals.dumps output))
          (λ _. next output) s (underway l i (step ∷ steps) previous p)
          (insert_new (At (i + 1) steps (dict_put step.name output previous))
            (checkpoint e run_id i step (success_outcome e ctx) output ctx s.world) s.db.tables
            (absent run_id i s.db.tables.step_records p.below)
            (λ text d. (
              record { status = l.status; error = l.error; found = l.found; active = l.active },
              next-Reached e run_id (payload e run_id plan answer submitted) plan answer trips i
                  step steps previous s.db.tables.step_records output ctx s.world text p a d,
            )))
          (λ _ s h. k output s h)
    after_handler_onstory i step steps previous next (escalated reason) ctx s h a k =
        after_failure_onstory i step steps previous (escalated reason) ctx RunStatus.escalated
          reason s (reload e run_id) h a (refl, refl)
          (reload_onstory e run_id plan answer submitted)
    after_handler_onstory i step steps previous next crashed ctx s (l, p) a k =
        underway l i (step ∷ steps) previous p
    after_handler_onstory i step steps previous next (raised reason) ctx s h a k =
        after_failure_onstory i step steps previous (raised reason) ctx RunStatus.failed reason s
          (raise (handler_error reason)) h a (refl, refl) (λ s h. h)
