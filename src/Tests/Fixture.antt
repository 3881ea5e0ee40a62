-- ===== src/Tests/Fixture.antt =====
-- A codec, a hash, a row order, a provider and an engine for the tests.
use durable_agent_engine.Base.{
  ℕ, suc, ◌+◌, String, false, Option, none, some, List, [], ◌∷◌, codes, leb, str_eq, refl, inl, inr,
  Bool-cases, if◌then◌else◌,
}
use durable_agent_engine.Models.{RunStatus, StepOutcome, Step, Plan, RunSpec}
use durable_agent_engine.Externals.{Externals, RunRow}
use durable_agent_engine.Models
use durable_agent_engine.Models.Token
use durable_agent_engine.Store
use durable_agent_engine.Store.Sql
use durable_agent_engine.Postgres
use durable_agent_engine.Postgres.Session
use durable_agent_engine.Postgres.Sql as Pg
use durable_agent_engine.Store.{Db, conn}
use durable_agent_engine.Store.Sql.{Tables, StepRow}
use durable_agent_engine.Store.Valid.{IsValid}
use durable_agent_engine.Store.Calls.{empty_tables}
use durable_agent_engine.Providers.{Provider, Reply}
use durable_agent_engine.Engine.{
  returned, raised, Handler, Engine, State, previous_of, plan_matches_history, submit, reload,
}
use durable_agent_engine.Engine.Context.{StepContext, was_healed, attempts, tokens_used}
use durable_agent_engine.Engine.Run.{
  run, call_handler, with_lock, run_locked, run_steps, after_handler, checkpoint, step_context,
}
use durable_agent_engine.Engine.Liveness.{Completes}

-- A JSON value is a text, or something that has no JSON form.
abbrev pub Value : Type 0
Value = Option String

abbrev pub first_newest : RunRow → List RunRow → RunRow
first_newest best [] = best
first_newest best (r ∷ rs) =
    first_newest (if leb (suc best.created_at) r.created_at then r else best) rs

abbrev pub newest_row : List RunRow → Option RunRow
newest_row [] = none
newest_row (r ∷ rs) = some (first_newest r rs)

abbrev pub externals : Externals Value
externals = record {
  dumps = λ v. v;
  loads = λ t. some t;
  error_object = λ t. some "error";
  blake2b = λ n t. t;
  newest = newest_row;
}

-- The world is a count of the provider's calls.
abbrev pub down : Provider ℕ
down = record { complete = λ p w. (Reply.unavailable (codes "down"), w + 1); sleep = λ n w. w }

abbrev pub handler_of : String → Option (Handler Value ℕ)
handler_of name =
    if str_eq name "charge"
    then some (λ ctx w. (returned (some "receipt"), ctx, w + 1))
    else if str_eq name "parse"
    then some (λ ctx w. (returned (some "amount"), ctx, w))
    else if str_eq name "broken"
    then some (λ ctx w. (raised (codes "ValueError: defect"), ctx, w))
    else none

abbrev pub engine : Engine Value ℕ
engine = record {
  externals = externals;
  provider = down;
  handlers = handler_of;
  uuid = λ w. ("id", w);
  time = λ w. 5;
}

abbrev pub step : String → Step
step name = record { name = name; effect = false; max_attempts = 3 }

abbrev pub plan : Plan
plan = record { name = "checkout"; steps = step "parse" ∷ step "charge" ∷ [] }

abbrev pub spec : RunSpec Value
spec = record { plan = plan; payload = some "4200"; idempotency_key = "order-42" }

abbrev pub fresh : State ℕ
fresh = record { db = record { tables = empty_tables; faults = [] }; world = 0 }

-- Opening this opens every definition that a run of the engine computes with.
unfoldable pub everything : Unit {0}
unfolding Store.create_run Store.load Store.find_by_key Store.append Store.set_status Store.acquire
    Store.release conn Sql.insert_run Sql.update_status Sql.status_conflicts Sql.replace_run
    Sql.find_run Sql.rows_of_key Sql.has_step Sql.find_step Sql.steps_of Sql.delete_expired
    Sql.lock_held Sql.delete_lock Sql.run_id_taken Sql.key_active Token.advisory_lock_id
    Models.next_index Models.is_terminal run previous_of plan_matches_history submit reload
    with_lock run_locked run_steps after_handler call_handler checkpoint was_healed attempts
    tokens_used step_context Postgres.conn Postgres.create_run Postgres.load Postgres.find_by_key
    Postgres.append Postgres.set_status Postgres.acquire Postgres.close Postgres.held_elsewhere
    Postgres.to_jsonb Pg.insert_run Pg.find_run Pg.insert_step Pg.update_status Pg.rows_of_key
    Pg.steps_of Session.holds Session.act_all
everything = tt

-- A run that has been submitted and has one checkpoint, and another that has ended.
abbrev pub running_row : RunRow
running_row = record {
  run_id = "a";
  idempotency_key = "order-42";
  plan_name = "checkout";
  payload = "4200";
  status = RunStatus.running;
  error = none;
  created_at = 1;
}

abbrev pub ended_row : RunRow
ended_row = record {
  run_id = "z";
  idempotency_key = "order-42";
  plan_name = "checkout";
  payload = "4200";
  status = RunStatus.completed;
  error = none;
  created_at = 0;
}

abbrev pub parse_row : StepRow
parse_row = record {
  run_id = "a";
  step_index = 0;
  name = "parse";
  outcome = StepOutcome.ok;
  attempts = 1;
  output = "amount";
  tokens_used = 0;
  created_at = 2;
}

abbrev pub tables : Tables
tables = record { runs = running_row ∷ ended_row ∷ []; step_records = parse_row ∷ []; locks = [] }

abbrev pub ready : State ℕ
ready = record { db = record { tables = tables; faults = [] }; world = 0 }

pub tables-IsValid : IsValid tables
unfolding Sql.run_id_taken Sql.key_active Sql.has_step Sql.lock_held
tables-IsValid = record {
  runs = (refl, λ h. refl, (refl, λ h. refl, tt));
  steps = (refl, tt);
  refs = (refl, tt);
  locks = tt;
}

-- The handlers of the fixture return texts, and never die.
pub engine-Completes :
    (s : Step) (ctx : StepContext Value ℕ) (w : ℕ)
    → Completes externals (call_handler engine s ctx w).0
unfolding call_handler
engine-Completes s ctx w = elim (Bool-cases (str_eq s.name "charge")) [
  | inl charge ↦ rw charge ("receipt", refl)
  | inr other ↦ elim (Bool-cases (str_eq s.name "parse")) [
    | inl parse ↦ rw (other, parse) ("amount", refl)
    | inr third ↦ elim (Bool-cases (str_eq s.name "broken")) [
      | inl broken ↦ rw (other, third, broken) tt
      | inr fourth ↦ rw (other, third, fourth) tt
    ]
  ]
]
