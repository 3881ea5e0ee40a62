-- ===== src/Tests/ReplayTests.antt =====
-- engine.py: a run that is killed after a charge and taken up, beside one that nothing cuts off.
use durable_agent_engine.Base.{
  ℕ, ◌+◌, ◌≡◌, refl, none, some, List, [], ◌∷◌, map, codes, str_eq, Bool-cases, inl, inr, sym, ◌++◌,
  if◌then◌else◌,
}
use durable_agent_engine.Models.{Step, StepRecord}
use durable_agent_engine.Store.Sql.{Tables, find_run}
use durable_agent_engine.Engine.{Outcome, returned, raised, Engine}
use durable_agent_engine.Engine.Context.{StepContext}
use durable_agent_engine.Engine.Liveness.{Completes}
use durable_agent_engine.Engine.Run.{call_handler, call_found, run}
use durable_agent_engine.Engine.Recovery.Steps.{at}
use durable_agent_engine.Engine.Interrupted.{interrupted}
use durable_agent_engine.Engine.Replay.{IsSubmitted, checkpoints, interrupted_as_uninterrupted}
use durable_agent_engine.Engine.Replay.Progress.{IsSteady}
use durable_agent_engine.Tests.RecoveryTests.{clocked, killed}
use durable_agent_engine.Tests.Fixture.{
  Value, externals, plan, running_row, tables, tables-IsValid, everything,
}

-- what the fixture's handlers answer
abbrev result : Step → Outcome Value
result step =
    if str_eq step.name "charge"
    then returned (some "receipt")
    else if str_eq step.name "parse"
    then returned (some "amount")
    else if str_eq step.name "broken"
    then raised (codes "ValueError: defect")
    else raised (codes "KeyError: '" ++ (codes step.name ++ codes "'"))

abbrev answer : Step → StepContext Value ℕ → Outcome Value × StepContext Value ℕ
answer step ctx = (result step, ctx)

answer-IsSteady : IsSteady clocked answer
unfolding call_handler call_found
answer-IsSteady s ctx w = elim (Bool-cases (str_eq s.name "charge")) [
  | inl charge ↦ rw charge (w + 1, refl, refl, refl)
  | inr other ↦ elim (Bool-cases (str_eq s.name "parse")) [
    | inl parse ↦ rw (other, parse) (w, refl, refl, refl)
    | inr third ↦ elim (Bool-cases (str_eq s.name "broken")) [
      | inl broken ↦ rw (other, third, broken) (w, refl, refl, refl)
      | inr fourth ↦ rw (other, third, fourth) (w, refl, refl, refl)
    ]
  ]
]

answer-Completes : (s : Step) (ctx : StepContext Value ℕ) → Completes externals (answer s ctx).0
answer-Completes s ctx = elim (Bool-cases (str_eq s.name "charge")) [
  | inl charge ↦ rw charge ("receipt", refl)
  | inr other ↦ elim (Bool-cases (str_eq s.name "parse")) [
    | inl parse ↦ rw (other, parse) ("amount", refl)
    | inr third ↦ elim (Bool-cases (str_eq s.name "broken")) [
      | inl broken ↦ rw (other, third, broken) tt
      | inr fourth ↦ rw (other, third, fourth) tt
    ]
  ]
]

-- the run as it was submitted, beside one that has ended
abbrev submitted : Tables
submitted = record tables { step_records = [] }

submitted-IsSubmitted : IsSubmitted clocked "a" plan running_row submitted
unfolding everything
submitted-IsSubmitted = record {
  found = refl;
  active = refl;
  valid = tables-IsValid.runs;
  bare = refl;
}

abbrev resumed : Tables
resumed =
    (run clocked "a" plan none (
      at clocked "a" "order-42" plan
        (interrupted clocked "a" "order-42" plan killed
          (at clocked "a" "order-42" plan submitted 0)).db.tables
        90000)).1.db.tables

abbrev straight : Tables
straight = (run clocked "a" plan none (at clocked "a" "order-42" plan submitted 7)).1.db.tables

interrupted_as_uninterrupted_example :
    (find_run "a" resumed.runs ≡ find_run "a" straight.runs)
    × (checkpoints clocked "a" plan resumed ≡ checkpoints clocked "a" plan straight)
unfolding everything interrupted
interrupted_as_uninterrupted_example =
    interrupted_as_uninterrupted clocked "a" plan answer running_row (λ j t d. sym d)
      (λ reason. ("error", refl)) answer-IsSteady answer-Completes (λ step ctx status error f. f)
      killed submitted 0 90000 7 submitted-IsSubmitted refl refl

-- A handler that changes the payload in place, and one that returns what it finds there.
abbrev changing : Engine Value ℕ
changing = record clocked {
  handlers = λ name.
      if str_eq name "parse"
      then some (λ ctx w. (returned (some "amount"), record ctx { payload = some "changed" }, w))
      else if str_eq name "charge"
      then some (λ ctx w. (returned ctx.payload, ctx, w))
      else none;
}

abbrev outputs : Tables → List Value
outputs t = map (λ (r : StepRecord Value). r.output) (checkpoints changing "a" plan t)

-- The change reaches the next step, and a run that is resumed does not have it.
change_is_seen :
    outputs (run changing "a" plan none (at changing "a" "order-42" plan submitted 0)).1.db.tables
    ≡ some "amount" ∷ some "changed" ∷ []
unfolding everything
change_is_seen = refl

change_is_lost :
    outputs
      (run changing "a" plan none (
        at changing "a" "order-42" plan
          (interrupted changing "a" "order-42" plan
            ((some 1, []) ∷ [])
            (at changing "a" "order-42" plan submitted 0)).db.tables
          90000)).1.db.tables
    ≡ some "amount" ∷ some "4200" ∷ []
unfolding everything interrupted
change_is_lost = refl
