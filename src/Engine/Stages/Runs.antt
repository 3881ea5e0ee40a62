-- ===== src/Engine/Stages/Runs.antt =====
-- engine.py, `Engine.run`: a run that is ready is over, or ready again after a crash.
use durable_agent_engine.Base.{
  ℕ, String, ◌≡◌, refl, ap, ◌∙◌, true, false, Option, none, some, List, [], get_elem?, drop,
  Bool-cases, Option-cases, inl, inr, eq_iff, some-injective, sym, subst,
}
use durable_agent_engine.Exec.{unknown_run, Result, ok, err, Exec, ◌>>=◌, or_raise}
use durable_agent_engine.Exec.Crash.{After}
use durable_agent_engine.Models.{
  RunStatus, is_terminal, Step, Plan, RunState, contains, done, next_index,
}
use durable_agent_engine.Models.NextIndex.{next_index_reaches}
use durable_agent_engine.Models.Token.{advisory_lock_id}
use durable_agent_engine.Externals.{RunRow}
use durable_agent_engine.Store
use durable_agent_engine.Store.{Db, load_rows, take_lease, release_rows, step_records}
use durable_agent_engine.Store.Sql.{Tables, find_run, steps_of, update_status}
use durable_agent_engine.Store.Crash.{
  update_status-Commits, take_lease-Commits, release_rows-Commits,
}
use durable_agent_engine.Store.Healthy.{find-replaced, found_id, active-terminal}
use durable_agent_engine.Engine.{Engine, State, on_store, previous_of, plan_matches_history}
use durable_agent_engine.Engine.Run.{
  step_context, call_handler, after_release, locked, with_lock, run_locked, run_loaded, run,
  lock_ttl,
}
use durable_agent_engine.Engine.Stages.{Stage, Over, Ready, stage, over, Goes, call_last, call_then}
use durable_agent_engine.Engine.Stages.Loop.{Handled, run_steps-Goes}

module _ {J W : Type 0} (e : Engine J W) (run_id : String) (plan : Plan) (Fine : ℕ → W → Type 0)
    (Right : RunStatus → W → Type 0) where
  -- Tables with the same runs and the same checkpoints.
  abbrev pub Same : Tables → Tables → Type 0
  Same t t' = (t'.runs ≡ t.runs) × (t'.step_records ≡ t.step_records)

  Stage-Same :
      (i : ℕ) (t t' : Tables)
      → Same t t'
      → Stage e.externals run_id i t
      → Stage e.externals run_id i t'
  Stage-Same i t t' (r, q) p = record {
    row = p.row;
    found = rw r p.found;
    active = p.active;
    below = rw q p.below;
    is_done = λ k. rw q (p.is_done k);
  }

  Over-Same :
      (s : State W) (db : Db)
      → Same s.db.tables db.tables
      → Over e run_id plan Fine Right s
      → Over e run_id plan Fine Right (record s { db = db })
  Over-Same s db (r, q) o = record {
    row = o.row;
    found = rw r o.found;
    is_over = o.is_over;
    right = o.right;
  }

  pub Ready-Same :
      (s : State W) (db : Db)
      → Same s.db.tables db.tables
      → Ready e run_id plan Fine Right s
      → Ready e run_id plan Fine Right (record s { db = db })
  Ready-Same s db same (stage i p fine) = stage i (Stage-Same i s.db.tables db.tables same p) fine
  Ready-Same s db same (over o) = over (Over-Same s db same o)

  Goes-Same :
      (r : Result (RunState J)) (s : State W) (db : Db)
      → Same s.db.tables db.tables
      → Goes e run_id plan Fine Right (r, s)
      → Goes e run_id plan Fine Right (r, record s { db = db })
  Goes-Same (ok state) s db same h = (h.0, Over-Same s db same h.1)
  Goes-Same (err error) s db same h = λ crash. Ready-Same s db same (h crash)

  after_release-Goes :
      (r : Result (RunState J)) (r' : Result (Unit {0})) (s s' : State W)
      → After
          (λ u (s' : State W). Same s.db.tables s'.db.tables × (s' ≡ record s { db = s'.db }))
          (Ready e run_id plan Fine Right)
          r'
          s'
      → Goes e run_id plan Fine Right (r, s)
      → Goes e run_id plan Fine Right (after_release e r (r', s'))
  unfolding after_release
  after_release-Goes r (ok u) s s' q h = rw q.1 (Goes-Same r s s'.db q.0 h)
  after_release-Goes r (err error) s s' q h = q

  released-Goes :
      (key owner : String) (r : Result (RunState J)) (s : State W)
      → Goes e run_id plan Fine Right (r, s)
      → Goes e run_id plan Fine Right
          (after_release e r (on_store (Store.release e.externals key owner) s))
  unfolding Store.release
  released-Goes key owner r s h =
      after_release-Goes r _ s _
        (call_last (λ u. Same s.db.tables) (Ready e run_id plan Fine Right)
          (release_rows (advisory_lock_id e.externals key) owner) s
          (release_rows-Commits (λ u. Same s.db.tables) (advisory_lock_id e.externals key) owner
            s.db.tables (λ t' r q. (r, q))))
        h

  with_lock-Goes :
      (key : String) (body : Exec (State W) (RunState J)) (s : State W)
      → ((db : Db)
          → Same s.db.tables db.tables
          → Goes e run_id plan Fine Right (body (record s { db = db; world = (e.uuid s.world).1 })))
      → Goes e run_id plan Fine Right (with_lock e key body s)
  unfolding with_lock locked Store.acquire
  with_lock-Goes key body s k =
      let (owner, w) = e.uuid s.world in
      let id = advisory_lock_id e.externals key in
      call_then (λ u. Same s.db.tables) _ _ (take_lease id key owner (e.time w) lock_ttl)
        (λ u. locked e key owner body) (record s { world = w })
        (take_lease-Commits (λ u. Same s.db.tables) id key owner (e.time w) lock_ttl s.db.tables
          (λ t' r q. (r, q)))
        (λ u db same.
          released-Goes key owner (body (record s { db = db; world = w })).0
            (body (record s { db = db; world = w })).1 (k db same))

  module _ (uuids : (i : ℕ) (w : W) → Fine i w → Fine i (e.uuid w).1)
      (handles : (i : ℕ) (step : Step) (payload : J) (previous : List (String × J)) (w : W)
        → get_elem? plan.steps i ≡ some step
        → Fine i w
        → let (outcome, ctx, w') =
            call_handler e step (step_context e run_id payload i step previous) w in
          Handled e run_id plan Fine Right i outcome w')
      (completes : (i : ℕ) (w : W)
        → drop i plan.steps ≡ []
        → Fine i w
        → Right RunStatus.completed w) where
    -- `state` is what was loaded, and the tables have the same history.
    run_locked-Goes :
        (crash_at : Option ℕ) (state : RunState J) (i : ℕ) (s : State W)
        → state.steps ≡ step_records e.externals (steps_of run_id s.db.tables.step_records)
        → Stage e.externals run_id i s.db.tables
        → Fine i s.world
        → Goes e run_id plan Fine Right (run_locked e run_id plan crash_at state s)
    unfolding run_locked Store.set_status
    run_locked-Goes crash_at state i s same p fine =
        let position : next_index state ≡ i =
          next_index_reaches state i (λ k. ap (λ l. contains k (done l)) same ∙ p.is_done k) in
        call_then (λ u t. Stage e.externals run_id i t) _ _
          (update_status run_id RunStatus.running none) _ s
          (update_status-Commits _ run_id RunStatus.running none s.db.tables (record {
            row = record p.row { status = RunStatus.running; error = none };
            found = find-replaced run_id RunStatus.running none s.db.tables.runs p.row p.found;
            active = refl;
            below = p.below;
            is_done = p.is_done;
          }))
          (λ u db q. rw position (
            run_steps-Goes e run_id plan Fine Right handles completes state.payload crash_at i
              (drop i plan.steps) (previous_of state.steps) (record s { db = db }) refl q fine))

    run_loaded-Goes :
        (crash_at : Option ℕ) (row : RunRow) (s : State W)
        → find_run run_id s.db.tables.runs ≡ some row
        → Ready e run_id plan Fine Right s
        → Goes e run_id plan Fine Right
            (run_loaded e run_id plan crash_at (Store.hydrate e.externals s.db.tables row) s)
    unfolding run_loaded Store.hydrate
    run_loaded-Goes crash_at row s f (over o) =
        let same : o.row ≡ row = some-injective o.row row (sym o.found ∙ f) in
        rw (subst (λ (r : RunRow). is_terminal r.status ≡ true) same o.is_over)
          (subst (λ (r : RunRow). Right r.status s.world) same o.right, o)
    run_loaded-Goes crash_at row s f (stage i p fine) =
        let state = Store.hydrate e.externals s.db.tables row in
        let live : is_terminal row.status ≡ false =
          subst (λ (r : RunRow). is_terminal r.status ≡ false)
            (some-injective p.row row (sym p.found ∙ f)) (active-terminal p.row.status p.active) in
        elim (Bool-cases (plan_matches_history plan.steps state.steps)) [
          | inl matches ↦
              rw (live, matches)
                (with_lock-Goes row.idempotency_key (run_locked e run_id plan crash_at state) s
                  (λ db same.
                    run_locked-Goes crash_at state i
                      (record s { db = db; world = (e.uuid s.world).1 })
                      (rw
                        (
                          same.1,
                          (eq_iff row.run_id run_id).0 (found_id run_id s.db.tables.runs row f),
                        )
                        refl)
                      (Stage-Same i s.db.tables db.tables same p) (uuids i s.world fine)))
          | inr changed ↦ rw (live, changed) (λ crash. cc crash)
        ]

    run_found-Goes :
        (crash_at : Option ℕ) (found : Option (RunState J)) (s : State W)
        → found ≡ Store.hydrate_if e.externals s.db.tables (find_run run_id s.db.tables.runs)
        → Ready e run_id plan Fine Right s
        → Goes e run_id plan Fine Right
            ((or_raise {S = State W} found unknown_run >>= run_loaded e run_id plan crash_at) s)
    unfolding Store.hydrate_if
    run_found-Goes crash_at found s same h =
        elim (Option-cases (find_run run_id s.db.tables.runs)) [
          | inl gone ↦ rw (same, gone) (λ crash. cc crash)
          | inr (row, f) ↦ rw (same, f) (run_loaded-Goes crash_at row s f h)
        ]

    -- From a run that is ready: it returns a state that the world is right for, crashes and is ready
    -- again, or raises another exception.
    pub run-Goes :
        (crash_at : Option ℕ) (s : State W)
        → Ready e run_id plan Fine Right s
        → Goes e run_id plan Fine Right (run e run_id plan crash_at s)
    unfolding run Store.load load_rows
    run-Goes crash_at s h =
        call_then
          (λ found t.
            (found ≡ Store.hydrate_if e.externals t (find_run run_id t.runs)) × Same s.db.tables t)
          _ _ (load_rows e.externals run_id) _ s (refl, (refl, refl))
          (λ found db p.
            run_found-Goes crash_at found (record s { db = db }) p.0 (Ready-Same s db p.1 h))
