-- ===== src/Engine/FirstTry.antt =====
-- engine.py, `StepContext.ask`: a provider whose first reply is a valid answer.
use durable_agent_engine.Base.{ℕ, ◌+◌, [], ◌∷◌, ◌++◌}
use durable_agent_engine.Providers.{tokens}
use durable_agent_engine.Engine.Context.{StepContext}

-- The context after one call that cost `cost` tokens and took no correction.
abbrev pub answered : {J W : Type 0} → StepContext J W → ℕ → StepContext J W
answered ctx cost = record ctx {
  made = ctx.made + 1;
  tokens = ctx.tokens ++ (cost ∷ []);
  corrections = ctx.corrections ++ (0 ∷ []);
}
