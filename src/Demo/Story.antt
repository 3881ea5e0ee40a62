-- ===== src/Demo/Story.antt =====
-- demo.py: the plan, the handlers of `build`, and `main`. What is printed is left out.
use durable_agent_engine.Base.{
  ℕ, String, Bool, true, false, Option, none, some, [], ◌∷◌, Text, codes, str_eq, length, ◌==◌,
  if◌then◌else◌,
}
use durable_agent_engine.Exec.{
  run_already_active, simulated_crash, vanished, Result, ok, err, Exec, ◌>>=◌, ◌>>◌, or_raise,
}
use durable_agent_engine.Models.{RunStatus, Step, Plan, RunSpec, RunState}
use durable_agent_engine.Externals.{Externals}
use durable_agent_engine.Healing.{Json, Schema}
use durable_agent_engine.Providers.{
  MockProvider, ChaosProvider, Reply, mock_complete, chaos_complete,
}
use durable_agent_engine.Store
use durable_agent_engine.Engine.{Outcome, Handler, Engine, State, on_store, submit}
use durable_agent_engine.Engine.Context.{Asked, ask}
use durable_agent_engine.Engine.Run.{run}
use durable_agent_engine.Demo.{World, ModelProvider, mock, chaos, charge_handler}

-- a step with the defaults of `Step`
abbrev plain_step : String → Step
plain_step name = record { name = name; effect = false; max_attempts = 3 }

-- PLAN
abbrev pub checkout : Plan
checkout = record {
  name = "checkout";
  steps =
      plain_step "parse"
      ∷ plain_step "assess"
      ∷ record { name = "charge"; effect = true; max_attempts = 3 }
      ∷ plain_step "receipt"
      ∷ [];
}

abbrev in_model : {V : Type 0} → World V → Reply × MockProvider → Reply × World V
in_model w (reply, p) = (reply, record w { model = mock p })

abbrev in_chaos : {V : Type 0} → World V → Reply × ChaosProvider → Reply × World V
in_chaos w (reply, p) = (reply, record w { model = chaos p })

-- `provider.complete`
unfoldable pub complete_with : {V : Type 0} → Text → ModelProvider → World V → Reply × World V
complete_with prompt (mock p) w = in_model w (mock_complete prompt p)
complete_with prompt (chaos p) w = in_chaos w (chaos_complete prompt p)

-- What the demo takes from outside: the JSON module, pydantic on `Assessment`, the dictionaries
-- that the handlers build, the uuids and the clock. `amount_of` is `payload["amount"]`, `none` its
-- KeyError.
pub record Setting (J T V : Type 0) : Type 0 where
  pub externals : Externals J
  pub json : Json J
  pub assessment : Schema J T
  pub amount_of : J → Option ℕ
  pub amount_json : ℕ → J
  pub model_dump : T → J
  pub receipt_json : Text → J
  pub sent : J
  pub uuid : V → String × V
  pub time : V → ℕ
  pub sleep : ℕ → V → V

module _ {J T V : Type 0} (d : Setting J T V) where
  unfoldable pub parse_outcome : Option ℕ → Outcome J
  parse_outcome none = Outcome.raised (codes "KeyError: 'amount'")
  parse_outcome (some amount) = Outcome.returned (d.amount_json amount)

  unfoldable pub parse : Handler J (World V)
  unfolding parse_outcome
  parse ctx w = (parse_outcome (d.amount_of ctx.payload), ctx, w)

  unfoldable pub assess_outcome : Asked T → Outcome J
  assess_outcome (Asked.answer value) = Outcome.returned (d.model_dump value)
  assess_outcome (Asked.escalation reason) = Outcome.escalated reason
  assess_outcome (Asked.exception exc) = Outcome.raised exc

  unfoldable pub assess : Handler J (World V)
  unfolding assess_outcome
  assess ctx w =
      let (asked, ctx', w') =
        ask d.json d.assessment (codes "Assess this transaction for risk.") none ctx w in
      (assess_outcome asked, ctx', w')

  unfoldable pub receipt : Handler J (World V)
  receipt ctx w = (Outcome.returned d.sent, ctx, w)

  unfoldable pub handler_of : String → Option (Handler J (World V))
  unfolding parse assess receipt
  handler_of name =
      if str_eq name "parse"
      then some parse
      else if str_eq name "assess"
      then some assess
      else if str_eq name "charge"
      then some (charge_handler d.externals d.amount_of d.receipt_json)
      else if str_eq name "receipt"
      then some receipt
      else none

  unfoldable pub new_uuid : World V → String × World V
  new_uuid w = let (id, v) = d.uuid w.outside in (id, record w { outside = v })

  -- `build`, over a store whose tables exist
  abbrev pub build : Engine J (World V)
  build = record {
    externals = d.externals;
    provider = record {
      complete = λ prompt w. complete_with prompt w.model w;
      sleep = λ n w. record w { outside = d.sleep n w.outside };
    };
    handlers = handler_of;
    uuid = new_uuid;
    time = λ w. d.time w.outside;
  }

  -- `spec`
  abbrev pub order : RunSpec J
  order = record {
    plan = checkout;
    payload = d.amount_json 4200;
    idempotency_key = "order-42-renewal";
  }

  -- `except RunAlreadyActive`: the duplicate may be accepted or refused, any other exception goes on
  pub duplicate_result : Result (RunState J) → Result (Unit {0})
  duplicate_result (ok state) = ok tt
  duplicate_result (err (run_already_active run_id)) = ok tt
  duplicate_result (err e) = err e

  -- `except SimulatedCrash`
  unfoldable pub crash_result : Result (RunState J) → Result (Unit {0})
  crash_result (ok state) = ok tt
  crash_result (err simulated_crash) = ok tt
  crash_result (err e) = err e

  abbrev pub caught : {A B S : Type 0} → (Result A → Result B) → Exec S A → Exec S B
  caught f m s = let (r, s') = m s in (f r, s')

  -- `ok` at the end of `main`
  abbrev pub invariant_holds : RunStatus → ℕ → Bool
  invariant_holds RunStatus.completed charges = charges == 1
  invariant_holds _ charges = charges == 0

  -- `return 0 if ok else 1`
  unfoldable pub verdict : RunState J → Exec (State (World V)) ℕ
  verdict final s =
      (ok (if invariant_holds final.status (length s.world.gateway.seen) then 0 else 1), s)

  -- the second submit
  unfoldable pub submit_duplicate : Exec (State (World V)) (Unit {0})
  unfolding duplicate_result
  submit_duplicate = caught duplicate_result (submit build order)

  -- the run that is killed
  unfoldable pub run_until : ℕ → String → Exec (State (World V)) (Unit {0})
  unfolding crash_result
  run_until crash_at run_id = caught crash_result (run build run_id checkout (some crash_at))

  -- the state that survived, and the run that ends it
  unfoldable pub pick_up : String → Exec (State (World V)) ℕ
  unfolding verdict
  pick_up run_id = on_store (Store.load d.externals run_id) >>= λ found.
      or_raise found vanished >>= λ state. run build run_id checkout none >>= verdict

  -- the part of `main` behind the first submit
  unfoldable pub after_submit : ℕ → RunState J → Exec (State (World V)) ℕ
  unfolding submit_duplicate run_until pick_up
  after_submit crash_at accepted =
      submit_duplicate >> run_until crash_at accepted.run_id >> pick_up accepted.run_id

  unfoldable pub main : ℕ → Exec (State (World V)) ℕ
  unfolding after_submit
  main crash_at = submit build order >>= after_submit crash_at
