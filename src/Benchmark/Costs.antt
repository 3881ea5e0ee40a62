-- ===== src/Benchmark/Costs.antt =====
-- scripts/benchmark.py: the cost of a correction against that of the prompt.
use durable_agent_engine.Base.{ℕ, ◌*◌, ◌≤◌, ◌≡◌, Option, none, some, List, Text}
use durable_agent_engine.Healing.{Json, Schema, FieldFault, correction_prompt}
use durable_agent_engine.Providers.{estimate_tokens}
use durable_agent_engine.Benchmark.{broken, Result}

module _ {J T : Type 0} (json : Json J) (schema : Schema J T) where
  -- the prompt of a correction of BROKEN
  abbrev pub correction : List (FieldFault J) → Text
  correction faults = correction_prompt json broken faults schema.name

  -- There is a result; its costs are the correction's and the prompt's, and the prompt costs 13
  -- tokens a line.
  abbrev pub IsMeasured : ℕ → List (FieldFault J) → Option Result → Type 0
  IsMeasured lines faults none = ⊥
  IsMeasured lines faults (some r) =
      (r.delta_retry ≡ estimate_tokens (correction faults))
      × (r.chosen_retry ≡ r.delta_retry)
      × (r.naive_retry ≡ r.prompt_tokens)
      × (13 * lines ≤ r.prompt_tokens)
