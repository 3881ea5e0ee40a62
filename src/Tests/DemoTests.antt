-- ===== src/Tests/DemoTests.antt =====
-- demo.py, models.py: instances of the theorems on charges and on the outputs of earlier steps.
use durable_agent_engine.Base.{
  ℕ, ◌%◌, ◌⊎◌, map, arith, String, ◌≡◌, refl, true, none, some, List, [], ◌∷◌, Text, codes,
}
use durable_agent_engine.Externals.{Externals}
use durable_agent_engine.Models.{StepOutcome, StepRecord}
use durable_agent_engine.Models.Validation
use durable_agent_engine.Models.Token.{token_text}
use durable_agent_engine.Models.Distinct.{AreBytes, Collide, effect_token-injective}
use durable_agent_engine.Models.Validation.{plan_accepted}
use durable_agent_engine.Engine
use durable_agent_engine.Engine.{Engine, previous_of, Handler}
use durable_agent_engine.Engine.Context.{StepContext}
use durable_agent_engine.Engine.Previous.{lookup, previous_holds_outputs}
use durable_agent_engine.Engine.Run.{step_context}
use durable_agent_engine.Demo.{
  Gateway, World, mock, charge, charge_all, charge_handler, charge_once, resumed_charge,
}
use durable_agent_engine.Providers.{Reply}
use durable_agent_engine.Tests.Fixture.{Value, externals, plan, step}

abbrev record_of : ℕ → String → String → StepRecord Value
record_of i name output = record {
  run_id = "a";
  index = i;
  name = name;
  outcome = StepOutcome.ok;
  attempts = 1;
  output = some output;
  tokens_used = 0;
  created_at = 0;
}

abbrev records : List (StepRecord Value)
records = record_of 0 "parse" "amount" ∷ record_of 1 "charge" "receipt" ∷ []

previous_holds_outputs_example : lookup "parse" (previous_of records) ≡ some (some "amount")
unfolding plan_accepted Validation.steps_accepted Validation.step_accepted Validation.is_slug
    Validation.unique_names Validation.set_of Validation.names_contain Engine.plan_matches_history
    Engine.names_step
previous_holds_outputs_example =
    previous_holds_outputs (λ c. true) plan records 0 (record_of 0 "parse" "amount") refl refl
      (refl, (refl, tt)) refl

abbrev no_charges : Gateway
no_charges = record { seen = []; attempts = 0 }

abbrev calls : List (Text × ℕ)
calls = (codes "other", 7) ∷ (codes "token", 8) ∷ []

charge_once_example :
    charge (codes "token") 4300 (charge_all calls (charge (codes "token") 4200 no_charges).1) ≡ (
      (codes "rcpt_token", true),
      record {
        seen = (codes "other", codes "rcpt_other") ∷ (codes "token", codes "rcpt_token") ∷ [];
        attempts = 4;
      },
    )
unfolding charge charge_all
charge_once_example = charge_once (codes "token") 4200 4300 calls no_charges

abbrev start : World ℕ
start = record {
  gateway = no_charges;
  model = mock (record { body = codes "{}"; calls = 0 });
  outside = 0;
}

abbrev gateway_engine : Engine Value (World ℕ)
gateway_engine = record {
  externals = externals;
  provider = record { complete = λ p w. (Reply.unavailable (codes "down"), w); sleep = λ n w. w };
  handlers = λ name. none;
  uuid = λ w. ("id", w);
  time = λ w. 0;
}

abbrev context : StepContext Value (World ℕ)
context = step_context gateway_engine "a" (some "4200") 2 (step "charge") []

abbrev charging : Handler Value (World ℕ)
charging = charge_handler externals (λ v. some 4200) (λ t. some "receipt")

abbrev charged : World ℕ
charged =
    let first = charging context start in
    record first.2 { gateway = charge_all calls first.2.gateway }

resumed_charge_example :
    ((charging context charged).0 ≡ (charging context start).0)
    × ((charging context charged).2.gateway.seen
        ≡ (charge_all calls (charging context start).2.gateway).seen)
resumed_charge_example =
    resumed_charge externals (λ v. some 4200) (λ t. some "receipt") context context start calls 4200
      4200 refl refl refl refl

abbrev hashing : Externals Value
hashing = record externals { blake2b = λ n t. map (λ c. c % 256) t }

bytes_of : (t : Text) → AreBytes (map (λ c. c % 256) t)
bytes_of [] = tt
bytes_of (c ∷ t) = (omega arith, bytes_of t)

effect_token-injective_example :
    ((◌≡◌ {A = String} "a" "a") × (◌≡◌ {A = ℕ} 12 12))
    ⊎ Collide hashing (token_text "a" 12) (token_text "a" 12)
effect_token-injective_example = effect_token-injective hashing "a" "a" 12 12 bytes_of refl
