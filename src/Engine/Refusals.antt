-- ===== src/Engine/Refusals.antt =====
-- engine.py, `Engine.run`: the runs that change nothing.
use durable_agent_engine.Base.{
  ℕ, String, ◌≡◌, ap, Option, none, some, some-injective, Bool-cases, inl, inr, if◌then◌else◌,
}
use durable_agent_engine.Exec.{unknown_run, plan_changed, Result, ok, err, ◌>>=◌, or_raise}
use durable_agent_engine.Models.{is_terminal, Plan, RunState}
use durable_agent_engine.Store
use durable_agent_engine.Store.Sql.{Tables, find_run}
use durable_agent_engine.Store.Healthy.{healthy, load-healthy}
use durable_agent_engine.Engine.{Engine, State, plan_matches_history}
use durable_agent_engine.Engine.Run.{run, run_loaded}

-- What `run` answers to the state that it loads, where it answers at once.
abbrev pub at_once : {J : Type 0} → Plan → Option (RunState J) → Option (Result (RunState J))
at_once plan none = some (err unknown_run)
at_once plan (some state) =
    if is_terminal state.status
    then some (ok state)
    else if plan_matches_history plan.steps state.steps
    then none
    else some (err plan_changed)

module _ {J W : Type 0} (e : Engine J W) (run_id : String) (plan : Plan) (crash_at : Option ℕ)
    (t : Tables) (w : W) where
  abbrev before : State W
  before = record { db = healthy t; world = w }

  answered :
      (a r : Result (RunState J))
      → some a ≡ some r
      → ◌≡◌ {A = Result (RunState J) × State W} (a, before) (r, before)
  answered a r h = ap (λ r. (r, before)) (some-injective a r h)

  nothing_answered : (r : Result (RunState J)) → none ≡ some r → ⊥
  nothing_answered r h = cc h

  loaded_changes_nothing :
      (found : Option (RunState J)) (r : Result (RunState J))
      → at_once plan found ≡ some r
      → (or_raise found unknown_run >>= run_loaded e run_id plan crash_at) before ≡ (r, before)
  unfolding run_loaded
  loaded_changes_nothing none r h = answered (err unknown_run) r h
  loaded_changes_nothing (some state) r h = elim (Bool-cases (is_terminal state.status)) [
    | inl over ↦ rw over (answered (ok state) r (rw over at h))
    | inr live ↦ elim (Bool-cases (plan_matches_history plan.steps state.steps)) [
      | inl same ↦ absurd (nothing_answered r (rw (live, same) at h))
      | inr changed ↦ rw (live, changed) (answered (err plan_changed) r (rw (live, changed) at h))
    ]
  ]

  -- On connections that work: an unknown run is refused, a run that is over is returned as it
  -- stands, and a run whose checkpoints do not match the plan is refused; the database and the world
  -- stay as they were, so no handler has run.
  pub run_changes_nothing :
      (r : Result (RunState J))
      → at_once plan (Store.hydrate_if e.externals t (find_run run_id t.runs)) ≡ some r
      → run e run_id plan crash_at before ≡ (r, before)
  unfolding run
  run_changes_nothing r h =
      rw (load-healthy e.externals run_id t)
        (loaded_changes_nothing (Store.hydrate_if e.externals t (find_run run_id t.runs)) r h)
