-- ===== src/Engine/Safety.antt =====
-- engine.py, `Engine.run`: what holds of the tables however a run goes.
use durable_agent_engine.Base.{ℕ, String, ◌≡◌, ◌≢◌, Option, some, List}
use durable_agent_engine.Models.{Plan}
use durable_agent_engine.Externals.{RunRow}
use durable_agent_engine.Store.Sql.{StepRow, find_run, find_step, steps_of}
use durable_agent_engine.Store.Valid.{IsValid}
use durable_agent_engine.Store.Invariant.{
  load-IsValid, append-IsValid, set_status-IsValid, acquire-IsValid, release-IsValid,
}
use durable_agent_engine.Store.Checkpoints.{Stable-RunKeeps, checkpoint-Stable, other_run-Stable}
use durable_agent_engine.Engine.{Engine, State}
use durable_agent_engine.Engine.Run.{run}
use durable_agent_engine.Engine.Frame.{run-Keeps}

module _ {J W : Type 0} (e : Engine J W) (run_id : String) (plan : Plan) (crash_at : Option ℕ)
    (s : State W) where
  -- However a run ends, and whatever the handlers and the connections did, the tables still satisfy
  -- every constraint of the schema: the primary keys, the foreign key and the partial unique index.
  pub run-IsValid : IsValid s.db.tables → IsValid (run e run_id plan crash_at s).1.db.tables
  run-IsValid h =
      run-Keeps e run_id plan IsValid
        (record {
          loads = load-IsValid e.externals run_id;
          appends = λ r step _ _ _. append-IsValid e.externals r;
          statuses = set_status-IsValid run_id;
          acquires = acquire-IsValid e.externals;
          releases = release-IsValid e.externals;
        })
        crash_at s h

  -- A checkpoint that is in the tables before a run is there afterwards, unchanged in every column,
  -- whatever its run, and however this run goes.
  pub run_keeps_checkpoints :
      (j : String) (i : ℕ) (row : StepRow)
      → find_step j i s.db.tables.step_records ≡ some row
      → find_step j i (run e run_id plan crash_at s).1.db.tables.step_records ≡ some row
  run_keeps_checkpoints j i row h =
      run-Keeps e run_id plan (λ t. find_step j i t.step_records ≡ some row)
        (Stable-RunKeeps e.externals run_id plan.steps _
          (checkpoint-Stable run_id j plan.steps i row))
        crash_at s h

  -- A run changes neither the row nor the checkpoints of any other run.
  pub run_leaves_others :
      (j : String) (row : Option RunRow) (rows : List StepRow)
      → run_id ≢ j
      → find_run j s.db.tables.runs ≡ row
      → steps_of j s.db.tables.step_records ≡ rows
      → (find_run j (run e run_id plan crash_at s).1.db.tables.runs ≡ row)
        × (steps_of j (run e run_id plan crash_at s).1.db.tables.step_records ≡ rows)
  run_leaves_others j row rows n hr hs =
      run-Keeps e run_id plan (λ t. (find_run j t.runs ≡ row) × (steps_of j t.step_records ≡ rows))
        (Stable-RunKeeps e.externals run_id plan.steps _
          (other_run-Stable run_id j plan.steps row rows n))
        crash_at s (hr, hs)
