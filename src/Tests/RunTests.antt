-- ===== src/Tests/RunTests.antt =====
-- engine.py, store.py: instances of the theorems on refused runs, on runs left open and on leases.
use durable_agent_engine.Base.{ℕ, ◌+◌, ◌≡◌, refl, none, some, [], ◌∷◌, eq_iff, false≢true}
use durable_agent_engine.Exec.{ok, err, not_serializable, simulated_crash, lock_unavailable}
use durable_agent_engine.Models.{RunStatus, RunState, StepOutcome}
use durable_agent_engine.Store
use durable_agent_engine.Store.Sql
use durable_agent_engine.Store.Sql.{Tables, StepRow}
use durable_agent_engine.Store.Healthy.{healthy}
use durable_agent_engine.Store.Lease.{lease_excludes}
use durable_agent_engine.Engine.{submit_or_attach, missing_handlers, returned, Engine, State}
use durable_agent_engine.Engine.Attach.{submit_or_attach_joins}
use durable_agent_engine.Engine.Run.{run, run_loaded, step_context}
use durable_agent_engine.Engine.Refusals.{run_changes_nothing}
use durable_agent_engine.Engine.Hazards.{
  LeavesRunning, unserializable_output-LeavesRunning, stale_load_reopens,
}
use durable_agent_engine.Tests.Fixture.{
  spec, Value, externals, engine, plan, ready, tables, tables-IsValid, running_row, ended_row,
  parse_row, everything, step,
}

abbrev ended_state : RunState Value
ended_state = record {
  run_id = "z";
  idempotency_key = "order-42";
  status = RunStatus.completed;
  plan_name = "checkout";
  payload = some "4200";
  steps = [];
  error = none;
}

run_changes_nothing_example : run engine "z" plan none ready ≡ (ok ended_state, ready)
unfolding everything Store.hydrate_if Store.hydrate
run_changes_nothing_example =
    run_changes_nothing engine "z" plan none tables 0 (ok ended_state) refl

-- Every handler answers a value that has no JSON form.
abbrev datetimes : Engine Value ℕ
datetimes = record engine { handlers = λ name. some (λ ctx w. (returned none, ctx, w + 1)) }

unserializable_output-LeavesRunning_example :
    LeavesRunning datetimes "a" not_serializable running_row (run datetimes "a" plan none ready)
unfolding everything Store.hydrate_if Store.hydrate
unserializable_output-LeavesRunning_example =
    unserializable_output-LeavesRunning datetimes "a" plan tables 0 1 running_row (step "charge") []
      none
      (step_context datetimes "a" (some "4200") 1 (step "charge") (("parse", some "amount") ∷ []))
      tables-IsValid.runs refl refl refl refl refl refl refl

abbrev one_ended : Tables
one_ended = record { runs = ended_row ∷ []; step_records = []; locks = [] }

stale_load_reopens_example : LeavesRunning engine "z" simulated_crash ended_row (
    run_loaded engine "z" plan
      (some 0)
      (record ended_state { status = RunStatus.running })
      (record { db = healthy one_ended; world = 0 }))
unfolding everything
stale_load_reopens_example =
    stale_load_reopens engine "z" plan one_ended 0 ended_row
      (record ended_state { status = RunStatus.running }) (step "parse") (step "charge" ∷ []) refl
      refl refl refl refl refl refl

-- A lease of 60 that is taken at 5 still excludes at 64, and at 65 no longer.
lease_excludes_example :
    (Store.acquire externals "order-42" "second" 64 60
      (Store.release externals "order-42" "second"
        (Store.acquire externals "order-42" "first" 5 60 (healthy tables)).1).1).0
    ≡ err lock_unavailable
unfolding Sql.lock_held Sql.delete_expired
lease_excludes_example =
    lease_excludes externals "order-42" "first" "second" 5 60 64 60 tables
      (λ e. false≢true ((eq_iff "first" "second").1 e)) refl

-- A run that died between its FAILED checkpoint and its terminal status is resumed, and completes
-- although the checkpoint of its second step stays FAILED.
abbrev failed_row : StepRow
failed_row = record parse_row {
  step_index = 1;
  name = "charge";
  outcome = StepOutcome.failed;
  output = "error";
}

abbrev half_failed : State ℕ
half_failed = record {
  db = healthy (record tables { step_records = parse_row ∷ failed_row ∷ [] });
  world = 0;
}

resumed_over_failure :
    (Sql.find_run "a" (run engine "a" plan none half_failed).1.db.tables.runs
      ≡ some (record running_row { status = RunStatus.completed }))
    × (Sql.find_step "a" 1 (run engine "a" plan none half_failed).1.db.tables.step_records
        ≡ some failed_row)
unfolding everything
resumed_over_failure = (refl, refl)

-- The run "a" is in flight under the key, and a run "z" of the key is over.
submit_or_attach_joins_example :
    submit_or_attach engine spec ready ≡ (ok (Store.hydrate externals tables running_row), ready)
unfolding everything missing_handlers
submit_or_attach_joins_example =
    submit_or_attach_joins engine spec "4200" tables 0 running_row refl refl refl refl refl refl
