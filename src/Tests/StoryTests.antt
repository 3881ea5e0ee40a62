-- ===== src/Tests/StoryTests.antt =====
-- demo.py: the story of the demo on concrete inputs, and instances of the theorems on charges.
use durable_agent_engine.Base.{
  ℕ, if◌then◌else◌, ◌==◌, some, ◌+◌, ◌≤◌, ◌≡◌, refl, some, [], codes, length,
}
use durable_agent_engine.Exec.{ok, Yields}
use durable_agent_engine.Demo
use durable_agent_engine.Demo.Story
use durable_agent_engine.Providers
use durable_agent_engine.Healing
use durable_agent_engine.Engine.Context
use durable_agent_engine.Healing.{Json, Schema, Validated}
use durable_agent_engine.Store.Calls.{empty_tables}
use durable_agent_engine.Engine.{State, submit}
use durable_agent_engine.Engine.Run.{run}
use durable_agent_engine.Demo.{Gateway, World, ModelProvider, mock, chaos}
use durable_agent_engine.Demo.Story.{Setting, checkout, build, main, order}
use durable_agent_engine.Demo.Charges.{uncharged, ChargedOnce, run-ChargedOnce, main_charges_once}
use durable_agent_engine.Demo.Verdict.{main_invariant_holds}
use durable_agent_engine.Providers.{Mode}
use durable_agent_engine.Tests.Fixture.{Value, externals, everything}

-- Opening this opens every definition that the demo computes with.
unfoldable story : Unit {0}
unfolding everything Story.parse Story.assess Story.receipt Story.handler_of Story.new_uuid
    Story.complete_with Story.submit_duplicate Story.run_until Story.pick_up Story.after_submit
    Story.main Demo.charge_handler Demo.charge Providers.mock_complete Context.ask
    Healing.parse_or_faults
story = tt

abbrev texts : Json Value
texts = record {
  loads = λ t. some (some "object");
  text = λ t. some "text";
  dumps = λ ds. codes "[]";
}

abbrev any_object : Schema Value (Unit {0})
any_object = record { name = codes "Assessment"; validate = λ j. Validated.valid tt }

abbrev setting : Setting Value (Unit {0}) ℕ
setting = record {
  externals = externals;
  json = texts;
  assessment = any_object;
  amount_of = λ v. some 4200;
  amount_json = λ n. some "amount";
  model_dump = λ u. some "assessment";
  receipt_json = λ t. some "receipt";
  sent = some "sent";
  uuid = λ n. (if n == 0 then "first" else "later", n + 1);
  time = λ n. n;
  sleep = λ n v. v;
}

abbrev opening : ModelProvider → State (World ℕ)
opening model = record {
  db = record { tables = empty_tables; faults = [] };
  world = record { gateway = record { seen = []; attempts = 0 }; model = model; outside = 0 };
}

abbrev answering : ModelProvider
answering = mock (record { body = codes "{}"; calls = 0 })

main_charges_once_example : length (main setting 2 (opening answering)).1.world.gateway.seen ≤ 1
main_charges_once_example = main_charges_once setting 2 (opening answering) refl

-- the demo's own run, submitted
abbrev submitted : State (World ℕ)
submitted = (submit (build setting) (order setting) (opening answering)).1

run-ChargedOnce_example :
    ChargedOnce setting "first" (run (build setting) "first" checkout (some 3) submitted).1.world
unfolding story
run-ChargedOnce_example = run-ChargedOnce setting "first" (some 3) submitted (uncharged refl)

main_returns : (main setting 2 (opening answering)).0 ≡ ok 0
unfolding story
main_returns = refl

main_charges : length (main setting 2 (opening answering)).1.world.gateway.seen ≡ 1
unfolding story
main_charges = refl

main_invariant_holds_example : Yields (λ code. code ≡ 0) (main setting 2 (opening answering)).0
main_invariant_holds_example = main_invariant_holds setting 2 (opening answering) refl refl
