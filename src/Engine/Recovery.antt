-- ===== src/Engine/Recovery.antt =====
-- engine.py, `Engine.run`, on connections that work: a run that was cut short is resumed to its end.
pub mod Steps
use durable_agent_engine.Base.{
  drop-get_elem?, ℕ, String, ◌≡◌, ◌⊎◌, refl, ap, ◌∙◌, false, Option, some, List, [], ◌∷◌, Text,
  drop, get_elem?, Bool-cases, str_eq,
}
use durable_agent_engine.Exec.{
  Error, simulated_crash, unknown_run, plan_changed, handler_error, ok, err, Exec, ◌>>=◌, ◌>>◌,
  pure, raise, or_raise,
}
use durable_agent_engine.Models.{RunStatus, StepOutcome, Step, Plan, next_index}
use durable_agent_engine.Models.Token.{advisory_lock_id}
use durable_agent_engine.Externals.{Externals, RunRow}
use durable_agent_engine.Store
use durable_agent_engine.Store.{step_row, step_records}
use durable_agent_engine.Store.Sql.{
  Tables, StepRow, is_active, run_id_taken, find_run, steps_of, lock_held, replace_run,
  status_conflicts,
}
use durable_agent_engine.Store.Rows.{run_id_taken-replace, replace-IsValidRuns, own_key_free}
use durable_agent_engine.Store.Valid.{IsValidRuns}
use durable_agent_engine.Store.Healthy.{
  healthy, IsEnded, taken-find, with_status, find-replaced, set_running, load-healthy, append_grows,
}
use durable_agent_engine.Engine.{
  Outcome, returned, escalated, crashed, raised, Engine, State, dict_put, previous_of, reload,
  crashes_at, names_step,
}
use durable_agent_engine.Engine.Context.{StepContext}
use durable_agent_engine.Engine.Run.{
  step_context, call_handler, checkpoint, success_outcome, append_checkpoint, record_failure,
  after_handler, run_steps, run_loaded, run, unless_crash,
}
use durable_agent_engine.Engine.History.{RowsMatch, append-RowsMatch}
use durable_agent_engine.Engine.Liveness.{
  Ends, Completes, IsProper, failure_healthy, finish-Ends, reload-Ends,
}
use Steps.{at}

module _ {J W : Type 0} (e : Engine J W) (run_id : String) (plan : Plan) where
  -- The state after runs that die before the steps of the list, one after the other.
  unfoldable pub after_crashes : List ℕ → State W → State W
  after_crashes [] s = s
  after_crashes (k ∷ ks) s = after_crashes ks (run e run_id plan (some k) s).1

module _ {J W : Type 0} (e : Engine J W) (run_id key : String) (plan : Plan)
    (error_text : (reason : Text)
      → (text : String) × (e.externals.dumps (e.externals.error_object reason) ≡ some text))
    (completes : (step : Step) (ctx : StepContext J W) (w : W)
      → Completes e.externals (call_handler e step ctx w).0) where
  -- Nobody holds the run's lock.
  abbrev pub IsUnlocked : Tables → Type 0
  IsUnlocked t = lock_held (advisory_lock_id e.externals key) t.locks ≡ false

  pub run_over-Ends :
      (crash_at : Option ℕ) (t : Tables) (w : W)
      → IsEnded run_id t
      → Ends e run_id (run e run_id plan crash_at (at e run_id key plan t w))
  unfolding run run_loaded Store.hydrate_if Store.hydrate
  run_over-Ends crash_at t w i =
      rw (load-healthy e.externals run_id t, i.found, i.is_over) (tt, refl, i)
