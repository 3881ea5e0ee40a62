-- ===== src/Tests/BenchmarkTests.antt =====
-- scripts/benchmark.py: a prompt's text, and an instance of the theorem on costs.
use durable_agent_engine.Base.{◌≡◌, refl, ◌++◌, some, [], ◌∷◌, codes}
use durable_agent_engine.Healing
use durable_agent_engine.Healing.{Json, Schema, FieldFault, Validated}
use durable_agent_engine.Benchmark.{head, build_prompt}
use durable_agent_engine.Base.{decimal}
use durable_agent_engine.Tests.Fixture.{Value}

two_lines :
    build_prompt 2
    ≡ head
      ++ codes
          "2026-08-01 txn=1000 amount=0.00 status=settled channel=web\n2026-08-02 txn=1001 amount=37.00 status=settled channel=web\n"
unfolding build_prompt decimal
two_lines = refl

abbrev texts : Json Value
texts = record {
  loads = λ t. some (some "object");
  text = λ t. some "text";
  dumps = λ ds. codes "[]";
}

abbrev decision : Schema Value (Unit {0})
decision = record {
  name = codes "Decision";
  validate = λ j.
      Validated.invalid
        (record { loc = codes "confidence" ∷ []; msg = codes "a number"; input = j } ∷ []);
}

abbrev fault : FieldFault Value
fault = record { field = codes "confidence"; problem = codes "a number"; received = some "object" }
