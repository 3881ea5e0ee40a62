-- ===== src/Engine/Replay.antt =====
-- engine.py, `Engine.run`: a run that is cut off and resumed, beside one that nothing cuts off.
pub mod Story
pub mod Rows
pub mod Progress
pub mod Failure
pub mod Steps
pub mod Handled
pub mod Loop
pub mod Locks
pub mod Runs
use durable_agent_engine.Base.{
  ℕ, zero, String, ◌≡◌, refl, sym, ap, ◌∙◌, true, false, Bool, Option, none, some, List, [], ◌∷◌,
  Text, map, some-injective, false≢true, arith,
}
use durable_agent_engine.Models.{RunStatus, is_terminal, Step, Plan, StepRecord, contains, done}
use durable_agent_engine.Models.Token.{advisory_lock_id}
use durable_agent_engine.Externals.{Externals, RunRow, RoundTrips}
use durable_agent_engine.Store
use durable_agent_engine.Store.Sql.{
  Tables, is_active, find_run, steps_of, lock_held, delete_expired,
}
use durable_agent_engine.Store.Valid.{IsValidRuns}
use durable_agent_engine.Store.Healthy.{IsEnded, active-terminal}
use durable_agent_engine.Engine.{
  Engine, State, dict_put, previous_of, outputs_from, plan_matches_history,
}
use durable_agent_engine.Engine.Context.{StepContext}
use durable_agent_engine.Engine.Run.{call_handler, run}
use durable_agent_engine.Engine.Liveness.{Completes, Ends}
use durable_agent_engine.Engine.Recovery.Steps.{at, IsOpen}
use durable_agent_engine.Engine.Interrupted.{interrupted, interrupted-run-Ends}
use Story.{undated, Answers}
use Progress.{EndsRun, IsSteady, IsStubborn, ResumesAt, Reached}
use Steps.{payload, Live, Told, OnStory, underway, failing, complete}
use Runs.{run_tells}

module _ {J W : Type 0} (e : Engine J W) (run_id : String) (plan : Plan) where
  -- The lock of the key is free for a worker whose world is `w`.
  abbrev pub IsFree : String → Tables → W → Type 0
  IsFree key t w =
      lock_held (advisory_lock_id e.externals key)
        (delete_expired (advisory_lock_id e.externals key) (e.time (e.uuid w).1) t.locks)
      ≡ false

  -- The run's checkpoints as `load` reads them, but for their times.
  abbrev pub checkpoints : Tables → List (StepRecord J)
  checkpoints t = map undated (Store.step_records e.externals (steps_of run_id t.step_records))

  -- The run as `submit` leaves it: open, and without checkpoints.
  pub record IsSubmitted (row : RunRow) (t : Tables) : Type 0 where
    pub found : find_run run_id t.runs ≡ some row
    pub active : is_active row.status ≡ true
    pub valid : IsValidRuns t.runs
    pub bare : steps_of run_id t.step_records ≡ []

  submitted-IsOpen :
      (row : RunRow) (t : Tables) → IsSubmitted row t → IsOpen e run_id row.idempotency_key plan t
  unfolding Store.step_records plan_matches_history
  submitted-IsOpen row t i = record {
    row = row;
    found = i.found;
    active = i.active;
    keyed = refl;
    valid = i.valid;
    matches = rw i.bare refl;
  }

  module _ (answer : Answers J W) (row : RunRow) where
    abbrev Tells : Tables → Type 0
    Tells = OnStory e run_id plan answer row

    submitted-Tells : (t : Tables) → IsSubmitted row t → Tells t
    unfolding Store.step_records previous_of outputs_from done contains
    submitted-Tells t i =
        underway
          (record { status = row.status; error = row.error; found = i.found; active = i.active }) 0
          plan.steps []
          (record {
            below = rw i.bare tt;
            tale = rw i.bare refl;
            ends = refl;
            resumes = record { outputs = rw i.bare refl; is_done = λ k. rw i.bare (ground arith) };
            left = refl;
          })

    ended-Live : (t : Tables) → IsEnded run_id t → Live e run_id plan answer row t → ⊥
    ended-Live t i l = false≢true (
        sym (active-terminal l.status l.active)
        ∙ ap (λ (r : RunRow). is_terminal r.status) (some-injective _ i.row (sym l.found ∙ i.found))
        ∙ i.is_over)

    -- A run that is over has told the whole story.
    ended-Told : (t : Tables) → IsEnded run_id t → Tells t → Told e run_id plan answer row t
    ended-Told t i (underway l k steps previous p) = absurd (ended-Live t i l)
    ended-Told t i (failing l k step status error previous p) = absurd (ended-Live t i l)
    ended-Told t i (complete o) = o

    module _ (trips : RoundTrips e.externals)
        (error_text : (reason : Text)
          → (text : String) × (e.externals.dumps (e.externals.error_object reason) ≡ some text))
        (steady : IsSteady e answer)
        (completes : (step : Step) (ctx : StepContext J W)
          → Completes e.externals (answer step ctx).0)
        (stubborn : IsStubborn e answer) where
      called-Completes :
          (step : Step) (ctx : StepContext J W) (w : W)
          → Completes e.externals (call_handler e step ctx w).0
      called-Completes step ctx w =
          let (w', same, kept, held) = steady step ctx w in rw same (completes step ctx)

      interrupted_tells :
          (cuts : List (Option ℕ × List Bool)) (s : State W)
          → Tells s.db.tables
          → Tells (interrupted e run_id row.idempotency_key plan cuts s).db.tables
      unfolding interrupted
      interrupted_tells [] s h = h
      interrupted_tells ((crash_at, faults) ∷ rest) s h = interrupted_tells rest _ (
          run_tells e run_id plan answer row trips steady stubborn crash_at
            (record s { db = record s.db { faults = faults } }) h)

      whole-Told :
          (cuts : List (Option ℕ × List Bool)) (s : State W) (w : W)
          → IsSubmitted row s.db.tables
          → let t = (interrupted e run_id row.idempotency_key plan cuts s).db.tables in
            IsFree row.idempotency_key t w
            → Told e run_id plan answer row
                (run e run_id plan none (at e run_id row.idempotency_key plan t w)).1.db.tables
      whole-Told cuts s w i free =
          let t = (interrupted e run_id row.idempotency_key plan cuts s).db.tables in
          ended-Told (run e run_id plan none (at e run_id row.idempotency_key plan t w)).1.db.tables
            (interrupted-run-Ends e run_id row.idempotency_key plan error_text called-Completes
              e.handlers cuts s w (submitted-IsOpen row s.db.tables i) free).2
            (run_tells e run_id plan answer row trips steady stubborn none
              (at e run_id row.idempotency_key plan t w)
              (interrupted_tells cuts s (submitted-Tells s.db.tables i)))

      -- A run that is cut off, however often, by SimulatedCrash before a step, by a process that is
      -- killed, or by connections that fail, and then taken up, ends in the row and the checkpoints of a
      -- run that nothing cuts off: the same status, error, names, outcomes, attempts, outputs and
      -- tokens; only the times of the checkpoints may differ. Supposed: the run is as submit leaves it;
      -- in the end the connections work and no lease on the lock is in force; what a handler answers
      -- depends on its context only, and is not the death of the process, in any of the runs; a handler
      -- changes neither payload nor previous in place; a step that fails does so again when previous
      -- holds its own failure; and what the handlers return and the record of a reason have a JSON form
      -- that reads back.
      pub interrupted_as_uninterrupted :
          (cuts : List (Option ℕ × List Bool)) (t : Tables) (v w u : W)
          → IsSubmitted row t
          → let s = at e run_id row.idempotency_key plan t v in
            let cut = (interrupted e run_id row.idempotency_key plan cuts s).db.tables in
            let resumed =
              (run e run_id plan none (at e run_id row.idempotency_key plan cut w)).1.db.tables in
            let straight =
              (run e run_id plan none (at e run_id row.idempotency_key plan t u)).1.db.tables in
            IsFree row.idempotency_key cut w
            → IsFree row.idempotency_key t u
            → (find_run run_id resumed.runs ≡ find_run run_id straight.runs)
              × (checkpoints resumed ≡ checkpoints straight)
      unfolding interrupted
      interrupted_as_uninterrupted cuts t v w u i free free' =
          let resumed = whole-Told cuts (at e run_id row.idempotency_key plan t v) w i free in
          let straight = whole-Told [] (at e run_id row.idempotency_key plan t u) u i free' in
          (resumed.found ∙ sym straight.found, resumed.tale ∙ sym straight.tale)
