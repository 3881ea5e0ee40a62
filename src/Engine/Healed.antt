-- ===== src/Engine/Healed.antt =====
-- engine.py, `StepContext.ask`: an answer that fails validation, and is repaired by a correction.
use durable_agent_engine.Base.{ℕ, ◌+◌, [], ◌∷◌, ◌++◌}
use durable_agent_engine.Providers.{tokens}
use durable_agent_engine.Engine.Context.{StepContext}

-- The context after two calls, of which the second answered a correction.
abbrev pub corrected : {J W : Type 0} → StepContext J W → ℕ → ℕ → StepContext J W
corrected ctx first second = record ctx {
  made = ctx.made + 1 + 1;
  tokens = ctx.tokens ++ (first ∷ []) ++ (second ∷ []);
  corrections = ctx.corrections ++ (1 ∷ []);
}
