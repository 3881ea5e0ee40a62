-- ===== src/Engine/Replay/Story.antt =====
-- engine.py, `Engine.run`: what a run that nothing cuts off records, told without a store.
use durable_agent_engine.Base.{ℕ, ◌+◌, String, Option, none, some, List, [], ◌∷◌, Text}
use durable_agent_engine.Models.{RunStatus, StepOutcome, Step, StepRecord}
use durable_agent_engine.Engine.{Outcome, returned, escalated, crashed, raised, Engine, dict_put}
use durable_agent_engine.Engine.Context.{StepContext, attempts, tokens_used}
use durable_agent_engine.Engine.Run.{step_context, checkpoint, success_outcome}

-- A checkpoint, but for its time.
abbrev pub undated : {J : Type 0} → StepRecord J → StepRecord J
undated r = record r { created_at = 0 }

-- What each step answers to its context: how it ends, and the context that it leaves.
abbrev pub Answers : Type 0 → Type 0 → Type 0
Answers J W = Step → StepContext J W → Outcome J × StepContext J W

module _ {J W : Type 0} (e : Engine J W) (run_id : String) (payload : J) where
  -- the checkpoint of a step, told without a time
  unfoldable pub told : ℕ → Step → StepOutcome → J → StepContext J W → StepRecord J
  unfolding checkpoint
  told index step outcome output ctx = record {
    run_id = run_id;
    index = index;
    name = step.name;
    outcome = outcome;
    attempts = attempts ctx;
    output = output;
    tokens_used = tokens_used ctx;
    created_at = 0;
  }

  -- the checkpoints from one step on, the first of which ends so
  unfoldable pub tell :
      ℕ → Step → (J → List (StepRecord J)) → Outcome J × StepContext J W → List (StepRecord J)
  tell index step next (returned output, ctx) =
      told index step (success_outcome e ctx) output ctx ∷ next output
  tell index step next (escalated reason, ctx) =
      told index step StepOutcome.failed (e.externals.error_object reason) ctx ∷ []
  tell index step next (crashed, ctx) = []
  tell index step next (raised reason, ctx) =
      told index step StepOutcome.failed (e.externals.error_object reason) ctx ∷ []

  -- the status and the error of a run that ends so at a step
  unfoldable pub judge :
      (J → RunStatus × Option Text) → Outcome J × StepContext J W → RunStatus × Option Text
  judge next (returned output, ctx) = next output
  judge next (escalated reason, ctx) = (RunStatus.escalated, some reason)
  judge next (crashed, ctx) = (RunStatus.running, none)
  judge next (raised reason, ctx) = (RunStatus.failed, some reason)

  module _ (answer : Answers J W) where
    -- The checkpoints of the steps from `index` on, with the outputs `previous` before them.
    unfoldable pub story : ℕ → List Step → List (String × J) → List (StepRecord J)
    unfolding tell
    story index [] previous = []
    story index (step ∷ steps) previous =
        tell index step (λ output. story (index + 1) steps (dict_put step.name output previous))
          (answer step (step_context e run_id payload index step previous))

    -- The status and the error that the run ends with.
    unfoldable pub verdict : ℕ → List Step → List (String × J) → RunStatus × Option Text
    unfolding judge
    verdict index [] previous = (RunStatus.completed, none)
    verdict index (step ∷ steps) previous =
        judge (λ output. verdict (index + 1) steps (dict_put step.name output previous))
          (answer step (step_context e run_id payload index step previous))
