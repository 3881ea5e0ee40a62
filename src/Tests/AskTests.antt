-- ===== src/Tests/AskTests.antt =====
-- healing.py, engine.py: instances of the theorems on the answers of a response and on resumed runs.
use durable_agent_engine.Base.{
  ℕ, ◌+◌, String, ◌≡◌, refl, subst, some-injective, Option, none, some, [], codes, text_eq, str_eq,
  if◌then◌else◌,
}
use durable_agent_engine.Store
use durable_agent_engine.Healing
use durable_agent_engine.Healing.Scan
use durable_agent_engine.Healing.{Json, Schema, Validated, parse_or_faults}
use durable_agent_engine.Providers.{Provider, Reply}
use durable_agent_engine.Engine.{returned, Handler}
use durable_agent_engine.Engine.Context
use durable_agent_engine.Engine.Context.{StepContext, Asked, ask}
use durable_agent_engine.Engine.Answers.{IsFromReply, ask-IsFromReply}
use durable_agent_engine.Engine.Resume.{AgreeFrom, replaced, run_ignores_earlier}
use durable_agent_engine.Engine.Run.{run, step_context}
use durable_agent_engine.Tests.Fixture.{Value, engine, plan, ready, step, everything}

-- Two texts are JSON here.
abbrev two_values : Json Value
two_values = record {
  loads = λ t.
      if text_eq t (codes "{1}")
      then some (some "1")
      else if text_eq t (codes "{2}")
      then some (some "2")
      else none;
  text = λ t. none;
  dumps = λ l. codes "[]";
}

abbrev any_text : Schema Value Value
any_text = record { name = codes "Text"; validate = λ v. Validated.valid v }

abbrev talking : Provider ℕ
talking = record {
  complete = λ p w.
      (Reply.completion (record { text = codes "{1} or {2}"; tokens_in = 1; tokens_out = 1 }), w);
  sleep = λ n w. w;
}

abbrev context : StepContext Value ℕ
context = record (step_context engine "a" (some "4200") 1 (step "assess") []) { provider = talking }

last_is_taken :
    (ask two_values any_text (codes "Assess") none context 0).0 ≡ Asked.answer (some "2")
unfolding Context.ask Context.ask_loop Context.ask_round Context.replied Context.parsed
    Context.go_on Healing.parse_or_faults Healing.json_candidates Healing.decode_all Healing.seen
    Healing.last_valid Scan.fenced_groups Scan.brace_span Scan.balanced_objects step_context
last_is_taken = refl

ask-IsFromReply_example :
    IsFromReply two_values any_text talking
      (some "2")
      (ask two_values any_text (codes "Assess") none context 0).2
ask-IsFromReply_example =
    ask-IsFromReply two_values any_text (codes "Assess") none context 0 (some "2") last_is_taken

-- Only the second step has a handler.
abbrev only_charge : String → Option (Handler Value ℕ)
only_charge name =
    if str_eq name "charge" then some (λ ctx w. (returned (some "receipt"), ctx, w + 1)) else none

run_ignores_earlier_example :
    run engine "a" plan none ready ≡ run (replaced engine only_charge) "a" plan none ready
unfolding everything Store.hydrate_if Store.hydrate
run_ignores_earlier_example =
    run_ignores_earlier engine only_charge "a" plan none ready (λ state h.
      subst (λ s. AgreeFrom engine only_charge plan s) (some-injective _ _ h) (refl, tt))
