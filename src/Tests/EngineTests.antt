-- ===== src/Tests/EngineTests.antt =====
-- engine.py: runs of the engine and instances of the theorems.
use durable_agent_engine.Base.{
  arith, ℕ, ◌≤◌, String, ◌≡◌, refl, true, false, Option, none, some, [], ◌∷◌, codes, eq_iff,
  false≢true,
}
use durable_agent_engine.Exec.{Yields, Result, ok, err, simulated_crash}
use durable_agent_engine.Models.{
  RunStatus, is_terminal, StepOutcome, RunState, next_index, done, contains,
}
use durable_agent_engine.Models.NextIndex.{next_index_least}
use durable_agent_engine.Store.Sql.{find_run, find_step, steps_of}
use durable_agent_engine.Store.Valid.{IsValid}
use durable_agent_engine.Engine.{State, submit}
use durable_agent_engine.Engine.Run.{run, step_context}
use durable_agent_engine.Engine.Context.{StepContext, ask}
use durable_agent_engine.Engine.Asking.{ask_budget, AreCapped}
use durable_agent_engine.Healing.{Json, Schema, Validated}
use durable_agent_engine.Engine.Safety.{run-IsValid, run_keeps_checkpoints, run_leaves_others}
use durable_agent_engine.Engine.Endings.{run_returns_terminal}
use durable_agent_engine.Tests.Fixture.{
  Value, engine, plan, spec, fresh, ready, tables, tables-IsValid, ended_row, parse_row, everything,
  step,
}

abbrev submitted : State ℕ
submitted = (submit engine spec fresh).1

abbrev status_in : Result (RunState Value) → Option RunStatus
status_in (ok state) = some state.status
status_in (err e) = none

-- A run that dies before the second step is resumed at it, and completes.
crash_and_resume :
    ((run engine "id" plan (some 1) submitted).0 ≡ err simulated_crash)
    × (status_in (run engine "id" plan none (run engine "id" plan (some 1) submitted).1).0
        ≡ some RunStatus.completed)
    × ((run engine "id" plan none (run engine "id" plan (some 1) submitted).1).1.world ≡ 1)
unfolding everything
crash_and_resume = (refl, refl, refl)

run-IsValid_example : IsValid (run engine "a" plan none ready).1.db.tables
run-IsValid_example = run-IsValid engine "a" plan none ready tables-IsValid

run_keeps_checkpoints_example :
    find_step "a" 0 (run engine "a" plan none ready).1.db.tables.step_records ≡ some parse_row
unfolding find_step
run_keeps_checkpoints_example =
    run_keeps_checkpoints engine "a" plan none ready "a" 0 parse_row refl

run_leaves_others_example :
    (find_run "z" (run engine "a" plan none ready).1.db.tables.runs ≡ some ended_row)
    × (steps_of "z" (run engine "a" plan none ready).1.db.tables.step_records ≡ [])
unfolding find_run steps_of
run_leaves_others_example =
    run_leaves_others engine "a" plan none ready "z" (some ended_row) []
      (λ e. false≢true ((eq_iff "a" "z").1 e)) refl refl

run_returns_terminal_example :
    Yields
      (λ (state : RunState Value). is_terminal state.status ≡ true)
      (run engine "a" plan none ready).0
run_returns_terminal_example = run_returns_terminal engine "a" plan none ready

abbrev two_steps : RunState Value
two_steps = record {
  run_id = "a";
  idempotency_key = "order-42";
  status = RunStatus.running;
  plan_name = "checkout";
  payload = none;
  steps =
      record {
        run_id = "a";
        index = 1;
        name = "charge";
        outcome = StepOutcome.failed;
        attempts = 1;
        output = none;
        tokens_used = 0;
        created_at = 0;
      }
      ∷ record {
        run_id = "a";
        index = 0;
        name = "parse";
        outcome = StepOutcome.ok;
        attempts = 1;
        output = none;
        tokens_used = 0;
        created_at = 0;
      }
      ∷ [];
  error = none;
}

two_steps_resume : next_index two_steps ≡ 1
unfolding next_index
two_steps_resume = refl

next_index_least_example :
    (contains 0 (done two_steps.steps) ≡ true)
    × (contains (next_index two_steps) (done two_steps.steps) ≡ false)
next_index_least_example = next_index_least two_steps 0 (omega (arith, two_steps_resume))

abbrev context : StepContext Value ℕ
context = step_context engine "a" (some "4200") 1 (step "assess") []

abbrev no_json : Json Value
no_json = record { loads = λ t. none; text = λ t. none; dumps = λ l. codes "[]" }

abbrev any_schema : Schema Value String
any_schema = record { name = codes "Decision"; validate = λ v. Validated.valid "approve" }

ask_budget_example :
    let (result, ctx', w') = ask no_json any_schema (codes "Assess") none context 0 in
    (ctx'.made ≤ 3) × AreCapped ctx'.corrections
unfolding step_context
ask_budget_example = ask_budget no_json any_schema (codes "Assess") none context 0 tt
