-- ===== src/Engine/Attach.antt =====
-- engine.py, `Engine.submit_or_attach`: a second submission of a key joins the run in flight.
use durable_agent_engine.Base.{String, ◌≡◌, refl, true, some, List, [], ◌∷◌}
use durable_agent_engine.Exec.{ok}
use durable_agent_engine.Models.{RunSpec}
use durable_agent_engine.Externals.{RunRow}
use durable_agent_engine.Store
use durable_agent_engine.Store.Sql.{Tables, find_run, is_active, rows_of_key}
use durable_agent_engine.Store.Healthy.{healthy, load-healthy}
use durable_agent_engine.Store.Conflict.{create_run-conflict}
use durable_agent_engine.Engine.{
  Engine, State, missing_handlers, submit_run, submit, attach, submit_or_attach,
}

module _ {J W : Type 0} (e : Engine J W) where
  abbrev at : Tables → W → State W
  at t w = record { db = healthy t; world = w }

  submitted :
      (spec : RunSpec J) (s : State W) (names : List String)
      → missing_handlers e spec.plan.steps ≡ names
      → names ≡ []
      → submit e spec s ≡ submit_run e spec s
  unfolding submit
  submitted spec s [] h n = rw (submit, h) refl
  submitted spec s (name ∷ names) h n = cc n

  -- On connections that work, with a handler for every step and a payload that has a JSON form: when
  -- a run is active under the key and is the one that the database picks as the newest of the key,
  -- submit_or_attach returns that run's state as the tables hold it, and writes nothing.
  pub submit_or_attach_joins :
      (spec : RunSpec J) (payload : String) (t : Tables) (w : W) (row : RunRow)
      → missing_handlers e spec.plan.steps ≡ []
      → e.externals.dumps spec.payload ≡ some payload
      → find_run row.run_id t.runs ≡ some row
      → is_active row.status ≡ true
      → row.idempotency_key ≡ spec.idempotency_key
      → e.externals.newest (rows_of_key spec.idempotency_key t.runs) ≡ some row
      → submit_or_attach e spec (at t w) ≡ (ok (Store.hydrate e.externals t row), at t (e.uuid w).1)
  unfolding submit_or_attach submit_run attach Store.hydrate_if
  submit_or_attach_joins spec payload t w row h d f a k n =
      let (run_id, v) = e.uuid w in
      rw
        (
          submitted spec (at t w) _ h refl,
          create_run-conflict e.externals (e.time v) run_id spec payload t row d f a k n,
          load-healthy e.externals row.run_id t,
          f,
        )
        refl
