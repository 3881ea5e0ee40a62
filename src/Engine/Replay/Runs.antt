-- ===== src/Engine/Replay/Runs.antt =====
-- engine.py, `Engine.run`: a run that is cut off and taken up goes along one story.
use durable_agent_engine.Base.{
  ℕ, String, ◌≡◌, refl, Option, none, some, ◌∷◌, Bool-cases, Option-cases, inl, inr,
}
use durable_agent_engine.Exec.{unknown_run, ◌>>=◌, or_raise}
use durable_agent_engine.Models.{RunStatus, is_terminal, Plan, RunState}
use durable_agent_engine.Externals.{RunRow, RoundTrips}
use durable_agent_engine.Store
use durable_agent_engine.Store.{load_rows, take_lease, release_rows}
use durable_agent_engine.Store.Sql.{find_run, update_status}
use durable_agent_engine.Engine.{Engine, State, dict_put, plan_matches_history}
use durable_agent_engine.Engine.Bodies.{store_then}
use durable_agent_engine.Engine.Run.{run_locked, run_loaded, run}
use durable_agent_engine.Engine.Replay.Story.{Answers}
use durable_agent_engine.Engine.Replay.Progress.{IsSteady, IsStubborn, history}
use durable_agent_engine.Engine.Replay.Steps.{payload, Told, underway, failing, complete}
use durable_agent_engine.Engine.Replay.Handled.{At, FailedAt}
use durable_agent_engine.Engine.Replay.Loop.{run_steps_onstory, run_again_onstory}
use durable_agent_engine.Engine.Replay.Locks.{
  Tells, Tells-tables, with_lock_tells, running_live, resume_tells, same_payload, own_steps,
  no-Told,
}

module _ {J W : Type 0} (e : Engine J W) (run_id : String) (plan : Plan) (answer : Answers J W)
    (submitted : RunRow) (trips : RoundTrips e.externals) (steady : IsSteady e answer)
    (stubborn : IsStubborn e answer) where
  -- `state` is what was loaded, and the tables have the same history.
  run_locked_tells :
      (crash_at : Option ℕ) (state : RunState J) (s : State W)
      → state.payload ≡ payload e run_id plan answer submitted
      → state.steps
        ≡ history e run_id
            (payload e run_id plan answer submitted)
            plan
            answer
            s.db.tables.step_records
      → (Told e run_id plan answer submitted s.db.tables → ⊥)
      → Tells e run_id plan answer submitted s.db.tables
      → Tells e run_id plan answer submitted (run_locked e run_id plan crash_at state s).1.db.tables
  unfolding run_locked Store.set_status
  run_locked_tells crash_at state s pay same apart (underway l i steps previous p) =
      store_then
        (λ _ t.
          At e run_id plan answer submitted i steps previous t
          × (t.step_records ≡ s.db.tables.step_records))
        (Tells e run_id plan answer submitted) (update_status run_id RunStatus.running none) _ s
        (underway l i steps previous p)
        (running_live e run_id plan answer submitted _ s.db.tables l (λ t' r l'. ((l', rw r p), r)))
        (λ _ s' q.
          resume_tells e run_id plan answer submitted crash_at state i steps previous s' pay
            (rw q.1 same) q.0.1.resumes q.0.1.left
            (run_steps_onstory e run_id plan answer submitted trips steady stubborn crash_at i steps
              previous s' q.0))
  run_locked_tells crash_at state s pay same apart (failing l i step status error previous p) =
      store_then
        (λ _ t.
          FailedAt e run_id plan answer submitted i step status error previous t
          × (t.step_records ≡ s.db.tables.step_records))
        (Tells e run_id plan answer submitted) (update_status run_id RunStatus.running none) _ s
        (failing l i step status error previous p)
        (running_live e run_id plan answer submitted _ s.db.tables l (λ t' r l'. ((l', rw r p), r)))
        (λ _ s' q.
          resume_tells e run_id plan answer submitted crash_at state i (step ∷ q.0.1.rest)
            (dict_put step.name (e.externals.error_object error) previous) s' pay (rw q.1 same)
            q.0.1.resumes q.0.1.left
            (run_again_onstory e run_id plan answer submitted trips steady stubborn crash_at i step
              q.0.1.rest status error previous s' q.0))
  run_locked_tells crash_at state s pay same apart (complete o) = absurd (apart o)

  run_loaded_tells :
      (crash_at : Option ℕ) (row : RunRow) (s : State W)
      → find_run run_id s.db.tables.runs ≡ some row
      → Tells e run_id plan answer submitted s.db.tables
      → Tells e run_id plan answer submitted
          (run_loaded e run_id plan crash_at
            (Store.hydrate e.externals s.db.tables row)
            s).1.db.tables
  unfolding run_loaded Store.hydrate
  run_loaded_tells crash_at row s f h =
      let state = Store.hydrate e.externals s.db.tables row in
      elim (Bool-cases (is_terminal row.status)) [
        | inl over ↦ rw over h
        | inr live ↦ elim (Bool-cases (plan_matches_history plan.steps state.steps)) [
          | inl matches ↦
              rw (live, matches)
                (with_lock_tells e run_id plan answer submitted row.idempotency_key
                  (run_locked e run_id plan crash_at state) s h
                  (λ s' r q.
                    run_locked_tells crash_at state s'
                      (same_payload e run_id plan answer submitted row s.db.tables f h)
                      (own_steps e run_id plan answer submitted row s.db.tables s'.db.tables f q)
                      (no-Told e run_id plan answer submitted row s'.db.tables (rw r f) live)
                      (Tells-tables e run_id plan answer submitted s.db.tables s'.db.tables r q h)))
          | inr changed ↦ rw (live, changed) h
        ]
      ]

  run_found_tells :
      (crash_at : Option ℕ) (found : Option (RunState J)) (s : State W)
      → found ≡ Store.hydrate_if e.externals s.db.tables (find_run run_id s.db.tables.runs)
      → Tells e run_id plan answer submitted s.db.tables
      → Tells e run_id plan answer submitted
          ((or_raise {S = State W} found unknown_run >>= run_loaded e run_id plan crash_at)
            s).1.db.tables
  unfolding Store.hydrate_if
  run_found_tells crash_at found s same h = elim (Option-cases (find_run run_id s.db.tables.runs)) [
    | inl gone ↦ rw (same, gone) h
    | inr (row, f) ↦ rw (same, f) (run_loaded_tells crash_at row s f h)
  ]

  -- However a run goes, the tables hold some part of the story.
  pub run_tells :
      (crash_at : Option ℕ) (s : State W)
      → Tells e run_id plan answer submitted s.db.tables
      → Tells e run_id plan answer submitted (run e run_id plan crash_at s).1.db.tables
  unfolding run Store.load load_rows
  run_tells crash_at s h =
      store_then
        (λ found t.
          (found ≡ Store.hydrate_if e.externals t (find_run run_id t.runs))
          × Tells e run_id plan answer submitted t)
        (Tells e run_id plan answer submitted) (load_rows e.externals run_id) _ s h (refl, h)
        (λ found s' p. run_found_tells crash_at found s' p.0 p.1)
