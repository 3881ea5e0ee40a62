-- ===== src/Tests/RefinementTests.antt =====
-- store.py: instances of the theorems on what the store promises.
use durable_agent_engine.Base.{◌≡◌, true, none, some, List, [], ◌∷◌, sym}
use durable_agent_engine.Externals.{RoundTrips}
use durable_agent_engine.Models.{RunStatus, StepOutcome, StepRecord}
use durable_agent_engine.Store.{Db}
use durable_agent_engine.Store.Healthy.{healthy}
use durable_agent_engine.Store.Calls.{Call, perform_all}
use durable_agent_engine.Store.Abstract.{view, history, promised_all, returns, accepts}
use durable_agent_engine.Store.Refinement.{perform_all-promised}
use durable_agent_engine.Store.Refinement.Accepts.{returns-accepts}
use durable_agent_engine.Tests.Fixture.{Value, externals, spec, tables, tables-IsValid}

abbrev charge_record : StepRecord Value
charge_record = record {
  run_id = "a";
  index = 1;
  name = "charge";
  outcome = StepOutcome.ok;
  attempts = 1;
  output = some "receipt";
  tokens_used = 0;
  created_at = 3;
}

-- The first connection fails; the second run of the key is refused.
abbrev calls : List (Call Value)
calls =
    Call.append charge_record
    ∷ Call.append charge_record
    ∷ Call.create_run 4 "b" spec
    ∷ Call.set_status "a" RunStatus.completed none
    ∷ Call.create_run 5 "b" spec
    ∷ []

abbrev faulty : Db
faulty = record { tables = tables; faults = true ∷ [] }

externals-RoundTrips : RoundTrips externals
externals-RoundTrips j t h = sym h

perform_all-promised_example :
    view externals (perform_all externals calls faulty).tables "a"
    ≡ promised_all (history externals calls faulty) "a" (view externals tables "a")
perform_all-promised_example =
    perform_all-promised externals calls faulty "a" externals-RoundTrips tables-IsValid

create_returns_as_accepted :
    returns externals (Call.create_run 4 "b" spec) (healthy tables)
    ≡ accepts externals (Call.create_run 4 "b" spec) tables
create_returns_as_accepted = returns-accepts externals (Call.create_run 4 "b" spec) tables
