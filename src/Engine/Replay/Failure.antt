-- ===== src/Engine/Replay/Failure.antt =====
-- engine.py, `Engine.run`: the FAILED checkpoint in the story of a run.
use durable_agent_engine.Base.{
  ℕ, String, ◌≡◌, refl, sym, ap, ◌∙◌, some, List, [], ◌∷◌, ◌++◌, map, Text, ==_refl, eq_refl,
}
use durable_agent_engine.Models.{RunStatus, StepOutcome, is_success, Step, Plan}
use durable_agent_engine.Externals.{RoundTrips}
use durable_agent_engine.Store.{step_row}
use durable_agent_engine.Store.Sql.{StepRow, has_step}
use durable_agent_engine.Engine.{Outcome, returned, escalated, crashed, raised, Engine}
use durable_agent_engine.Engine.Context.{StepContext}
use durable_agent_engine.Engine.Run.{step_context, checkpoint}
use durable_agent_engine.Engine.Replay.Story.{undated, Answers, told, tell, judge, story, verdict}
use durable_agent_engine.Engine.Replay.Rows.{last_mark}
use durable_agent_engine.Engine.Replay.Progress.{
  EndsRun, history, Reached, Failed, history_last, resumes_failed,
}

module _ {J W : Type 0} (e : Engine J W) (run_id : String) (payload : J) (plan : Plan)
    (answer : Answers J W) where
  story_fails :
      (i : ℕ) (step : Step) (steps : List Step) (previous : List (String × J)) (outcome : Outcome J)
      (ctx : StepContext J W) (status : RunStatus) (error : Text)
      → answer step (step_context e run_id payload i step previous) ≡ (outcome, ctx)
      → EndsRun outcome status error
      → (story e run_id payload answer i (step ∷ steps) previous
          ≡ told e run_id payload i step StepOutcome.failed (e.externals.error_object error) ctx
            ∷ [])
        × (verdict e run_id payload answer i (step ∷ steps) previous ≡ (status, some error))
  unfolding story verdict tell judge
  story_fails i step steps previous (returned output) ctx status error a f = absurd f
  story_fails i step steps previous (escalated reason) ctx status error a f =
      rw (a, f.0, f.1) (refl, refl)
  story_fails i step steps previous crashed ctx status error a f = absurd f
  story_fails i step steps previous (raised reason) ctx status error a f =
      rw (a, f.0, f.1) (refl, refl)

  -- The FAILED checkpoint ends the story.
  pub failed-Reached :
      RoundTrips e.externals
      → (i : ℕ) (step : Step) (steps : List Step) (previous : List (String × J))
        (rows : List StepRow) (outcome : Outcome J) (ctx : StepContext J W) (status : RunStatus)
        (error : Text) (w : W) (text : String)
      → Reached e run_id payload plan answer i (step ∷ steps) previous rows
      → answer step (step_context e run_id payload i step previous) ≡ (outcome, ctx)
      → EndsRun outcome status error
      → e.externals.dumps (e.externals.error_object error) ≡ some text
      → Failed e run_id payload plan answer i step status error previous (
          step_row
            (checkpoint e run_id i step StepOutcome.failed (e.externals.error_object error) ctx w)
            text
          ∷ rows)
  unfolding checkpoint told has_step
  failed-Reached trips i step steps previous rows outcome ctx status error w text p a f d =
      let r =
        checkpoint e run_id i step StepOutcome.failed (e.externals.error_object error) ctx w in
      let h = history_last e run_id payload plan answer trips r text rows d refl p.below in
      let (marks, word) = story_fails i step steps previous outcome ctx status error a f in
      record {
        rest = steps;
        present = rw (eq_refl run_id, ==_refl i) refl;
        tale =
            ap (λ l. map undated l) h
            ∙ last_mark r (history e run_id payload plan answer rows)
            ∙ ap (λ l. map undated (history e run_id payload plan answer rows) ++ l) (sym marks)
            ∙ p.tale;
        ends = sym word ∙ p.ends;
        resumes =
            resumes_failed e run_id payload plan answer trips r text previous rows h
              (unfold is_success in refl) p.resumes;
        left = p.left;
        fails = rw a f;
      }
