-- ===== src/Engine/Interrupted.antt =====
-- engine.py, `Engine.run`: a run that is cut off anywhere, by a process that is killed or a connection
-- that fails, and taken up when its lease has lapsed.
use durable_agent_engine.Base.{
  ℕ, String, ◌≡◌, sym, true, false, Bool, Option, none, some, List, [], ◌∷◌, Text, eq_refl, eq_iff,
  Bool-cases, inl, inr, arith, subst,
}
use durable_agent_engine.Models.{RunStatus, is_terminal, Step, Plan}
use durable_agent_engine.Models.Token.{advisory_lock_id}
use durable_agent_engine.Externals.{RunRow}
use durable_agent_engine.Store
use durable_agent_engine.Store.Sql.{Tables, is_active, find_run, lock_held, delete_expired}
use durable_agent_engine.Store.Rows.{replace-IsValidRuns}
use durable_agent_engine.Store.Valid.{IsValidRuns}
use durable_agent_engine.Store.Checkpoints.{Stable, Stable-RunKeeps}
use durable_agent_engine.Store.Healthy.{find-replaced, found_id}
use durable_agent_engine.Engine.{Handler, Engine, State, names_step}
use durable_agent_engine.Engine.Context.{StepContext}
use durable_agent_engine.Engine.Run.{run, call_handler}
use durable_agent_engine.Engine.Frame.{run-Keeps}
use durable_agent_engine.Engine.History.{RowsMatch, append-RowsMatch}
use durable_agent_engine.Engine.Liveness.{Ends, Completes, run-Ends}
use durable_agent_engine.Engine.Recovery.{run_over-Ends}
use durable_agent_engine.Engine.Recovery.Steps.{IsOpen, at}

module _ {J W : Type 0} (e : Engine J W) (run_id key : String) (plan : Plan) where
  -- The tables hold the run under the key, with checkpoints that match the plan.
  record IsKnown (t : Tables) : Type 0 where
    row : RunRow
    found : find_run run_id t.runs ≡ some row
    keyed : row.idempotency_key ≡ key
    valid : IsValidRuns t.runs
    matches : RowsMatch e.externals plan.steps run_id t.step_records

  IsKnown-tables :
      (t t' : Tables) → t'.runs ≡ t.runs → t'.step_records ≡ t.step_records → IsKnown t → IsKnown t'
  IsKnown-tables t t' r s k = record {
    row = k.row;
    found = rw r k.found;
    keyed = k.keyed;
    valid = rw r k.valid;
    matches = rw s k.matches;
  }

  IsKnown-Stable : Stable run_id plan.steps IsKnown
  unfolding names_step
  IsKnown-Stable = record {
    new_locks = IsKnown-tables;
    new_step = λ t row step own here name new there k. record {
      row = k.row;
      found = k.found;
      keyed = k.keyed;
      valid = k.valid;
      matches =
          append-RowsMatch e.externals plan.steps run_id row t.step_records
            (rw (here, name) (eq_refl step.name)) k.matches;
    };
    new_status = λ t status error free k. record {
      row = record k.row { status = status; error = error };
      found = find-replaced run_id status error t.runs k.row k.found;
      keyed = k.keyed;
      valid = replace-IsValidRuns run_id status error t.runs k.valid free;
      matches = k.matches;
    };
  }

  -- Runs one after the other, each with the step at which it crashes, if it does, and the faults of
  -- its connections. A process that is killed is one whose connections all fail from then on.
  unfoldable pub interrupted : List (Option ℕ × List Bool) → State W → State W
  interrupted [] s = s
  interrupted ((crash_at, faults) ∷ rest) s =
      interrupted rest
        (run e run_id plan crash_at (record s { db = record s.db { faults = faults } })).1

  interrupted-IsKnown :
      (cuts : List (Option ℕ × List Bool)) (s : State W)
      → IsKnown s.db.tables
      → IsKnown (interrupted cuts s).db.tables
  unfolding interrupted
  interrupted-IsKnown [] s k = k
  interrupted-IsKnown ((crash_at, faults) ∷ rest) s k = interrupted-IsKnown rest _ (
      run-Keeps e run_id plan IsKnown
        (Stable-RunKeeps e.externals run_id plan.steps IsKnown IsKnown-Stable) crash_at
        (record s { db = record s.db { faults = faults } }) k)

  inactive-terminal : (st : RunStatus) → is_active st ≡ false → is_terminal st ≡ true
  unfolding is_terminal
  inactive-terminal st h = ground arith

  module _
      (error_text : (reason : Text)
        → (text : String) × (e.externals.dumps (e.externals.error_object reason) ≡ some text))
      (completes : (step : Step) (ctx : StepContext J W) (w : W)
        → Completes e.externals (call_handler e step ctx w).0) where
    known-Ends :
        (t : Tables) (w : W)
        → IsKnown t
        → lock_held
            (advisory_lock_id e.externals key)
            (delete_expired (advisory_lock_id e.externals key) (e.time (e.uuid w).1) t.locks)
          ≡ false
        → Ends e run_id (run e run_id plan none (at e run_id key plan t w))
    unfolding Store.hydrate
    known-Ends t w k free = elim (Bool-cases (is_active k.row.status)) [
      | inl active ↦
          run-Ends e run_id error_text completes plan t w k.row k.valid k.found active
            (subst (λ id. RowsMatch e.externals plan.steps id t.step_records)
              (sym ((eq_iff k.row.run_id run_id).0 (found_id run_id t.runs k.row k.found)))
              k.matches)
            (rw k.keyed free)
      | inr over ↦
          run_over-Ends e run_id key plan error_text completes none t w
            (record { row = k.row; found = k.found; is_over = inactive-terminal k.row.status over })
    ]

module _ {J W : Type 0} (e : Engine J W) (run_id key : String) (plan : Plan)
    (error_text : (reason : Text)
      → (text : String) × (e.externals.dumps (e.externals.error_object reason) ≡ some text))
    (completes : (step : Step) (ctx : StepContext J W) (w : W)
      → Completes e.externals (call_handler e step ctx w).0) where
  pub interrupted-run-Ends :
      (others : String → Option (Handler J W)) (cuts : List (Option ℕ × List Bool)) (s : State W)
      (w : W)
      → IsOpen e run_id key plan s.db.tables
      → let t = (interrupted (record e { handlers = others }) run_id key plan cuts s).db.tables in
        lock_held
            (advisory_lock_id e.externals key)
            (delete_expired (advisory_lock_id e.externals key) (e.time (e.uuid w).1) t.locks)
          ≡ false
        → Ends e run_id (run e run_id plan none (at e run_id key plan t w))
  interrupted-run-Ends others cuts s w o free =
      let k =
        interrupted-IsKnown (record e { handlers = others }) run_id key plan cuts s
          (record {
            row = o.row;
            found = o.found;
            keyed = o.keyed;
            valid = o.valid;
            matches = o.matches;
          }) in
      known-Ends e run_id key plan error_text completes
        (interrupted (record e { handlers = others }) run_id key plan cuts s).db.tables w
        (record {
          row = k.row;
          found = k.found;
          keyed = k.keyed;
          valid = k.valid;
          matches = k.matches;
        })
        free
