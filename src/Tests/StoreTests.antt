-- ===== src/Tests/StoreTests.antt =====
-- store.py: runs of the calls and instances of the theorems.
use durable_agent_engine.Base.{◌≡◌, refl, sym, String, none, some, List, [], ◌∷◌, true, false}
use durable_agent_engine.Exec.{ok, err, integrity_error, Yields}
use durable_agent_engine.Models.{RunStatus, RunState}
use durable_agent_engine.Store
use durable_agent_engine.Store.Healthy.{healthy}
use durable_agent_engine.Store.RoundTrip.{load-create_run}
use durable_agent_engine.Store.Setup.{File, active_twice, execute, setup}
use durable_agent_engine.Store.Sql.{find_run}
use durable_agent_engine.Store.Calls.{Call, perform_all, empty_tables, one_active_run_per_key}
use durable_agent_engine.Externals.{RunRow}
use durable_agent_engine.Tests.Fixture.{Value, externals, spec, running_row, everything}

abbrev calls : List (Call Value)
calls =
    Call.create_run 1 "a" spec
    ∷ Call.create_run 2 "b" spec
    ∷ Call.set_status "a" RunStatus.completed none
    ∷ Call.create_run 3 "c" spec
    ∷ Call.set_status "a" RunStatus.running none
    ∷ []

abbrev row_c : RunRow
row_c = record {
  run_id = "c";
  idempotency_key = "order-42";
  plan_name = "checkout";
  payload = "4200";
  status = RunStatus.pending;
  error = none;
  created_at = 3;
}

c_found :
    find_run "c"
      (perform_all externals calls (record { tables = empty_tables; faults = [] })).tables.runs
    ≡ some row_c
unfolding perform_all everything
c_found = refl

one_active_run_per_key_example : ◌≡◌ {A = String} "c" "c"
one_active_run_per_key_example =
    one_active_run_per_key externals calls [] "c" "c" row_c row_c c_found c_found refl refl refl

load-create_run_example :
    let created = Store.create_run externals 1 "a" spec (healthy empty_tables) in
    Yields
      (λ (state : RunState Value).
        Store.load externals "a" created.1 ≡ (ok (some state), created.1))
      created.0
load-create_run_example = load-create_run externals 1 "a" spec empty_tables (λ j t h. sym h) tt

-- The state that is created above.
created_pending :
    (Store.create_run externals 1 "a" spec (healthy empty_tables)).0
    ≡ ok (record {
      run_id = "a";
      idempotency_key = "order-42";
      status = RunStatus.pending;
      plan_name = "checkout";
      payload = some "4200";
      steps = [];
      error = none;
    })
unfolding everything
created_pending = refl

-- A database file that is not there yet.
abbrev no_file : File
no_file = record {
  has_runs = false;
  has_index = false;
  has_locks = false;
  has_steps = false;
  tables = empty_tables;
}

-- Two active runs of one key, from a file without the index, are refused by it.
abbrev twice : File
twice = record no_file {
  has_runs = true;
  tables = record empty_tables { runs = running_row ∷ record running_row { run_id = "b" } ∷ [] };
}

index_refused : setup twice ≡ (err integrity_error, twice)
unfolding setup execute active_twice everything
index_refused = refl
