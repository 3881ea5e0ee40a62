-- ===== src/Tests/AnswerTests.antt =====
-- healing.py, engine.py: instances of the theorems on responses that are one JSON value.
use durable_agent_engine.Base.{
  ℕ, Text, ◌+◌, ◌≡◌, false, ◌∷◌, none, some, [], codes, text_eq, if◌then◌else◌, arith,
}
use durable_agent_engine.Healing.{Json, Schema, FieldFault, Validated, build_retry_prompt}
use durable_agent_engine.Healing.Scan.{find_groups, fenced_groups}
use durable_agent_engine.Healing.Scan.Fuel.{fenced_groups_lem}
use durable_agent_engine.Providers.{
  Provider, Reply, Completion, tokens, ChaosProvider, Mode, chaos_complete, bad_schema_body,
}
use durable_agent_engine.Engine.Context.{StepContext}
use durable_agent_engine.Engine.Run.{step_context}
use durable_agent_engine.Tests.Fixture.{Value, engine, step}

-- The object and the one inside it are JSON here.
abbrev nested : Json Value
nested = record {
  loads = λ t.
      if text_eq t (codes "{\"a\": {}}")
      then some (some "outer")
      else if text_eq t (codes "{}")
      then some (some "inner")
      else none;
  text = λ t. none;
  dumps = λ l. codes "[]";
}

abbrev any_value : Schema Value Value
any_value = record { name = codes "Value"; validate = λ v. Validated.valid v }

abbrev reply : Completion
reply = record { text = codes " {\"a\": {}}\n"; tokens_in = 5; tokens_out = 3 }

abbrev answering : Provider ℕ
answering = record { complete = λ p w. (Reply.completion reply, w + 1); sleep = λ n w. w }

abbrev context : StepContext Value ℕ
context = record (step_context engine "a" (some "4200") 1 (step "assess") []) {
  provider = answering;
}

same_groups_found :
    find_groups 100 (codes "x ```json {} ``` y") ≡ fenced_groups (codes "x ```json {} ``` y")
same_groups_found = fenced_groups_lem 100 (codes "x ```json {} ``` y") (omega arith)

-- The provider that fails once, with an answer of the wrong schema, and then follows the correction.
abbrev failing : ChaosProvider
failing = record {
  body = codes "{}";
  heal_after = 1;
  draws = (false, Mode.bad_schema) ∷ [];
  calls = 0;
  failures = [];
}

abbrev chaotic : StepContext Value ChaosProvider
chaotic = record {
  run_id = "a";
  index = 1;
  payload = some "4200";
  previous = [];
  provider = record { complete = chaos_complete; sleep = λ n w. w };
  max_attempts = 3;
  tokens = [];
  corrections = [];
  made = 0;
}

abbrev decoding : Json Value
decoding = record nested {
  loads = λ t. if text_eq t bad_schema_body then some none else nested.loads t;
}

abbrev present : Schema Value Value
present = record {
  name = codes "Assessment";
  validate = λ v. elim v [
    | none ↦
        Validated.invalid
          (record { loc = codes "confidence" ∷ []; msg = codes "a number"; input = none } ∷ [])
    | some text ↦ Validated.valid (some text)
  ];
}

abbrev fault : FieldFault Value
fault = record { field = codes "confidence"; problem = codes "a number"; received = none }

abbrev wrong : Completion
wrong = record { text = bad_schema_body; tokens_in = 1; tokens_out = 12 }

abbrev repaired : Completion
repaired = record { text = codes "{}"; tokens_in = 66; tokens_out = 1 }

abbrev failed_once : ChaosProvider
failed_once = (chaos_complete (codes "Assess") failing).1

abbrev correction : Text
correction =
    build_retry_prompt decoding (codes "Assess") bad_schema_body (fault ∷ []) (codes "Assessment")

abbrev recovered : ChaosProvider
recovered = (chaos_complete correction failed_once).1
